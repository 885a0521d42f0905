-- ===== src/Routes/AdminLaws.antt =====
-- The handlers on admins leave the owner of every forum in place.
use tenjin.Common.Keeps.{
  Keeps, knowing-Keeps, bind-Keeps, bind-at, raise-Keeps, pure-Keeps, lift-Keeps, if-Keeps,
}
use tenjin.Common.{String, if◌then◌else◌, ℕ, ◌≡◌, ◌≢◌, refl, ◌∙◌, subst, Option, none, some}
use tenjin.Common.Action.{
  Action, Result, ok, err, http_error, raise, done, lift, pure, bind-returns, ◌>>=◌, ◌>>◌,
}
use tenjin.Common.Int.{ℤ}
use tenjin.Cache.Guard.{derive_cache_key}
use tenjin.Routes.{AdminRole, owner, ForumAdminResult, AccessClaims, Server}
use tenjin.Routes.Parts.{Response, message, or_http, forum_or_404, forum_admin}
use tenjin.Routes.Admins.{
  NewRole, role_of, check_addition, check_removal, check_change, acting_admin, unless_admin,
  remove_checked, remove_admin, change_checked, edit_admin_permissions, add_admin,
}
use tenjin.Routes.AdminRanks.{check_removal-Below, check_change-Below, Below-ne-owner}

-- What the handlers on admins rely on. `owns w forum user` is to hold only where the row of
-- forum_admins for them says owner, and can also say that the cache has no entry for them with another
-- role. A lookup gives an admin of the user that was asked for, from the table or from an entry of any
-- age; entries on other users may be stale. The statements write the rows that their WHERE clause or
-- their VALUES name; an INSERT for a row that is there violates its key.
pub record IsAdminStore {W : Type 0} (server : Server W) (roles : W → ℤ → ℤ → Option AdminRole)
    (owns : W → ℤ → ℤ → Type 0) : Type 0 where
  pub is_owner : (f u : ℤ) (w : W) → owns w f u → roles w f u ≡ some owner
  pub forum_read : (forum f u : ℤ) (w : W) → owns w f u → owns (forum_or_404 server forum w).1 f u
  pub admin_read :
      (forum user f u : ℤ) (w : W) → owns w f u → owns (forum_admin server forum user w).1 f u
  pub user_read :
      (key : String) (user f u : ℤ) (w : W)
      → owns w f u
      → owns (server.user_or_load key user w).1 f u
  pub found_user :
      (forum user : ℤ) (a : ForumAdminResult) (w v : W)
      → forum_admin server forum user w ≡ (ok (some a), v)
      → a.user_id ≡ user
  pub found_owner :
      (forum user : ℤ) (a : ForumAdminResult) (w v : W)
      → forum_admin server forum user w ≡ (ok (some a), v)
      → owns v forum user
      → a.role ≡ owner
  pub inserts :
      (forum user f u : ℤ) (role : AdminRole) (w : W)
      → owns w f u
      → owns (server.add_forum_admin forum user role w).1 f u
  pub deletes :
      (forum user f u : ℤ) (w : W)
      → owns w f u
      → ((f ≡ forum) × (u ≡ user) → ⊥)
      → owns (server.remove_forum_admin forum user w).1 f u
  pub updates :
      (forum user f u : ℤ) (role : AdminRole) (w : W)
      → owns w f u
      → ((f ≡ forum) × (u ≡ user) → ⊥)
      → owns (server.update_admin_role forum user role w).1 f u

module _ {W : Type 0} (server : Server W) (roles : W → ℤ → ℤ → Option AdminRole)
    (owns : W → ℤ → ℤ → Type 0) (store : IsAdminStore server roles owns) (f u : ℤ) where
  abbrev pub Owned : W → Type 0
  Owned w = owns w f u

  or_http-Keeps : (A : Type 0) (status : ℕ) (o : Option A) → Keeps Owned {A = A} (or_http status o)
  unfolding or_http
  or_http-Keeps A status none = raise-Keeps Owned A (http_error status)
  or_http-Keeps A status (some a) = pure-Keeps Owned a

  module _ (forum : ℤ) (token : AccessClaims) where
    reads_admin : (user : ℤ) → Keeps Owned (forum_admin server forum user)
    reads_admin user w p = store.admin_read forum user f u w p

    acting_admin-Keeps : Keeps Owned (acting_admin server forum token)
    unfolding acting_admin
    acting_admin-Keeps =
        bind-Keeps Owned (forum_or_404 server forum >> forum_admin server forum token.sid)
          (or_http 403)
          (bind-Keeps Owned (forum_or_404 server forum) (λ _. forum_admin server forum token.sid)
            (λ w p. store.forum_read forum f u w p) (λ _. reads_admin token.sid))
          (or_http-Keeps ForumAdminResult 403)

    abbrev lookup_admin : ℤ → Action W ForumAdminResult
    lookup_admin user = forum_admin server forum user >>= or_http 404

    lookup_admin-Keeps : (user : ℤ) → Keeps Owned (lookup_admin user)
    lookup_admin-Keeps user =
        bind-Keeps Owned (forum_admin server forum user) (or_http 404) (reads_admin user)
          (or_http-Keeps ForumAdminResult 404)

    -- the admin that was looked up is of the user, and is the owner if the user is
    IsFound : ℤ → ForumAdminResult → W → Type 0
    IsFound user a v = (a.user_id ≡ user) × (owns v forum user → a.role ≡ owner)

    IsFound-after :
        (user : ℤ) (o : Option ForumAdminResult) (a : ForumAdminResult) (w v v' : W)
        → forum_admin server forum user w ≡ (ok o, v)
        → or_http 404 o v ≡ (ok a, v')
        → IsFound user a v'
    unfolding IsFound or_http
    IsFound-after user none a w v v' e h = cc
    IsFound-after user (some b) a w v v' e h =
        let same : b ≡ a = cc in
        let at : v ≡ v' = cc in
        rw (← same, ← at)
          (store.found_user forum user b w v e, store.found_owner forum user b w v e)

    located :
        (user : ℤ) (a : ForumAdminResult) (w v : W)
        → lookup_admin user w ≡ (ok a, v)
        → IsFound user a v
    located user a w v h =
        let (o, v₁, e, k) = bind-returns (forum_admin server forum user) (or_http 404) w a v h in
        IsFound-after user o a w v₁ v e k

    other_row :
        (user : ℤ) (a : ForumAdminResult) (v : W)
        → IsFound user a v
        → a.role ≢ owner
        → Owned v
        → (f ≡ forum) × (u ≡ user)
        → ⊥
    unfolding IsFound
    other_row user a v (same, as_owner) other p (e, k) =
        other (as_owner (subst (λ x. owns v x user) e (subst (λ y. owns v f y) k p)))

    removes_checked :
        (a : ForumAdminResult) (r : Result (Unit {0})) (v : W)
        → (r ≡ ok tt → Owned (server.remove_forum_admin forum a.user_id v).1)
        → Owned v
        → Owned ((lift r >> server.remove_forum_admin forum a.user_id) v).1
    removes_checked a (ok tt) v h p = h refl
    removes_checked a (err e) v h p = p

    remove_checked-Owned :
        (user : ℤ) (actor a : ForumAdminResult) (v : W)
        → IsFound user a v
        → Owned v
        → Owned (remove_checked server forum token actor a v).1
    unfolding remove_checked IsFound
    remove_checked-Owned user actor a v found p =
        bind-at Owned
          (lift (check_removal actor.role a.role) >> server.remove_forum_admin forum a.user_id)
          (λ _. pure (message 200 "Admin removed")) v
          (removes_checked a (check_removal actor.role a.role) v
            (λ allowed. store.deletes forum a.user_id f u v p (λ (e, k).
              other_row user a v found
                (Below-ne-owner actor.role a.role (check_removal-Below actor.role a.role allowed)) p
                (e, k ∙ found.0)))
            p)
          (λ _. pure-Keeps Owned (message 200 "Admin removed"))

    pub remove_admin-Keeps : (user : ℤ) → Keeps Owned (remove_admin server forum token user)
    unfolding remove_admin
    remove_admin-Keeps user =
        bind-Keeps Owned (acting_admin server forum token)
          (λ actor. lookup_admin user >>= remove_checked server forum token actor)
          acting_admin-Keeps
          (λ actor.
            knowing-Keeps Owned (lookup_admin user) (remove_checked server forum token actor)
              (lookup_admin-Keeps user)
              (λ a w v e p. remove_checked-Owned user actor a v (located user a w v e) p))

    changes_checked :
        (user : ℤ) (role : NewRole) (r : Result (Unit {0})) (v : W)
        → (r ≡ ok tt → Owned (server.update_admin_role forum user (role_of role) v).1)
        → Owned v
        → Owned ((lift r >> server.update_admin_role forum user (role_of role)) v).1
    changes_checked user role (ok tt) v h p = h refl
    changes_checked user role (err e) v h p = p

    change_checked-Owned :
        (user : ℤ) (role : NewRole) (actor a : ForumAdminResult) (v : W)
        → IsFound user a v
        → Owned v
        → Owned (change_checked server forum token user role actor a v).1
    unfolding change_checked IsFound
    change_checked-Owned user role actor a v found p =
        bind-at Owned
          (lift (check_change actor.role a.role role)
            >> server.update_admin_role forum user (role_of role))
          (λ _. pure (message 200 "Updated role")) v
          (changes_checked user role (check_change actor.role a.role role) v
            (λ allowed. store.updates forum user f u (role_of role) v p (
              other_row user a v found
                (Below-ne-owner actor.role a.role
                  (check_change-Below actor.role a.role role allowed).0)
                p))
            p)
          (λ _. pure-Keeps Owned (message 200 "Updated role"))

    pub edit_admin_permissions-Keeps :
        (user : ℤ) (role : NewRole)
        → Keeps Owned (edit_admin_permissions server forum token user role)
    unfolding edit_admin_permissions
    edit_admin_permissions-Keeps user role =
        bind-Keeps Owned (acting_admin server forum token)
          (λ actor. lookup_admin user >>= change_checked server forum token user role actor)
          acting_admin-Keeps
          (λ actor.
            knowing-Keeps Owned (lookup_admin user)
              (change_checked server forum token user role actor) (lookup_admin-Keeps user)
              (λ a w v e p. change_checked-Owned user role actor a v (located user a w v e) p))

    unless_admin-Keeps :
        (user : ℤ) (o : Option ForumAdminResult)
        → Keeps Owned (unless_admin server forum token user o)
    unfolding unless_admin
    unless_admin-Keeps user (some a) = raise-Keeps Owned (Unit {0}) (http_error 409)
    unless_admin-Keeps user none =
        bind-Keeps Owned (server.user_or_load (derive_cache_key "forums" forum) user)
          (λ found. if found then done else raise (http_error 404))
          (λ w p. store.user_read (derive_cache_key "forums" forum) user f u w p)
          (λ found.
            if-Keeps Owned found done (raise (http_error 404)) (pure-Keeps Owned tt)
              (raise-Keeps Owned (Unit {0}) (http_error 404)))

    -- what follows the checks of `add_admin`
    added : ℤ → NewRole → Action W Response
    added user role =
        server.add_forum_admin forum user (role_of role) >> pure (message 201 "Admin added")

    pub add_admin-Keeps :
        (user : ℤ) (role : NewRole) → Keeps Owned (add_admin server forum token user role)
    unfolding add_admin added
    add_admin-Keeps user role =
        bind-Keeps Owned (acting_admin server forum token) checked acting_admin-Keeps (λ actor.
          bind-Keeps Owned (lift (check_addition actor.role role)) (λ _. looked_up)
            (lift-Keeps Owned (check_addition actor.role role))
            (λ _. bind-Keeps Owned (forum_admin server forum user) unless (reads_admin user) (λ o.
              bind-Keeps Owned (unless_admin server forum token user o) (λ _. added user role)
                (unless_admin-Keeps user o)
                (λ _.
                  bind-Keeps Owned (server.add_forum_admin forum user (role_of role))
                    (λ _. pure (message 201 "Admin added"))
                    (λ w p. store.inserts forum user f u (role_of role) w p)
                    (λ _. pure-Keeps Owned (message 201 "Admin added"))))))
      where
        unless : Option ForumAdminResult → Action W Response
        unless o = unless_admin server forum token user o >> added user role

        looked_up : Action W Response
        looked_up = forum_admin server forum user >>= unless

        checked : ForumAdminResult → Action W Response
        checked actor = lift (check_addition actor.role role) >> looked_up
