-- ===== src/Routes/AdminTests.antt =====
-- Tests of the handlers on admins, on a server whose cache of admins is never invalidated.
use tenjin.Common.{
  ◌≡◌, refl, sym, ap, ◌∙◌, if◌then◌else◌, Bool-cases, inl, inr, ◌⊎◌, Option, none, some,
}
use tenjin.Common.Action.{Result, ok, err, http_error}
use tenjin.Common.Int.{ℤ, pos}
use tenjin.Routes.{AdminRole, super, owner, ForumAdminResult, AccessClaims}
use tenjin.Routes.Parts.{forum_or_404, forum_admin, or_http}
use tenjin.Routes.Permissions.{check_permission}
use tenjin.Routes.Admins.{
  new_super, add_admin, remove_admin, acting_admin, check_addition, require, addition_permission,
  unless_admin, role_of, remove_checked, check_removal,
}
use tenjin.Routes.Samples.{World, Rows, server, start, same_row, same_row_sound, insert_row, look}
use tenjin.Routes.AdminLaws.{IsAdminStore}
use tenjin.Routes.Owners.{owner_stays, Handled, nothing, removed_one, added_one}

abbrev rows_of : World → Rows
rows_of w = w.rows

inserted :
    (forum user f u : ℤ) (role r : AdminRole) (rows : Rows)
    → rows f u ≡ some r
    → insert_row forum user role rows f u ≡ some r
inserted forum user f u role r rows h = elim (Bool-cases (same_row forum user f u)) [
  | inl e ↦ rw (e, h) refl
  | inr e ↦ rw e h
]

untouched :
    (forum user f u : ℤ) (x : Option AdminRole) (r : AdminRole) (rows : Rows)
    → rows f u ≡ some r
    → ((f ≡ forum) × (u ≡ user) → ⊥)
    → (if same_row forum user f u then x else rows f u) ≡ some r
untouched forum user f u x r rows h other = elim (Bool-cases (same_row forum user f u)) [
  | inl e ↦ absurd (other (same_row_sound forum user f u e))
  | inr e ↦ rw e h
]

-- the row says owner, and the cache has no entry that says otherwise
abbrev Owns : World → ℤ → ℤ → Type 0
Owns w f u = (w.rows f u ≡ some owner) × ((w.cached f u ≡ none) ⊎ (w.cached f u ≡ some owner))

look-keeps :
    (c r : Option AdminRole) (forum user f u : ℤ) (w : World)
    → w.rows forum user ≡ r
    → Owns w f u
    → Owns (look c r forum user w).1 f u
look-keeps (some x) r forum user f u w e h = h
look-keeps none none forum user f u w e h = h
look-keeps none (some x) forum user f u w e (row, entry) = (
  row,
  elim (Bool-cases (same_row forum user f u)) [
    | inr other ↦ rw other entry
    | inl same ↦
        let (a, b) = same_row_sound forum user f u same in
        let of_owner : some x ≡ some owner = sym e ∙ (rw (a, b) at row) in rw same (inr of_owner)
  ],
)

entry_owner :
    (x : AdminRole) (c : Option AdminRole) → c ≡ some x → (c ≡ none) ⊎ (c ≡ some owner) → x ≡ owner
entry_owner x c e (inl absent) = cc
entry_owner x c e (inr same) = cc

row_owner : (x : AdminRole) → some x ≡ some owner → x ≡ owner
row_owner x e = cc

look_found :
    (c r : Option AdminRole) (forum user : ℤ) (a : ForumAdminResult) (w v : World)
    → w.cached forum user ≡ c
    → w.rows forum user ≡ r
    → look c r forum user w ≡ (ok (some a), v)
    → (a.user_id ≡ user) × (Owns v forum user → a.role ≡ owner)
look_found (some x) r forum user a w v e k h =
    let same : record { user_id = user; role = x } ≡ a = cc in
    let at : w ≡ v = cc in rw (← same, ← at) (refl, λ o. entry_owner x (w.cached forum user) e o.1)
look_found none none forum user a w v e k h = cc
look_found none (some x) forum user a w v e k h =
    let same : record { user_id = user; role = x } ≡ a = cc in
    let rows : w.rows ≡ v.rows =
      ap (λ (o : Result (Option ForumAdminResult) × World). o.1.rows) h in
    let row : some x ≡ v.rows forum user = sym k ∙ ap (λ (t : Rows). t forum user) rows in
    rw (← same) (refl, λ o. row_owner x (row ∙ o.0))

found_is :
    (forum user : ℤ) (a : ForumAdminResult) (w v : World)
    → forum_admin server forum user w ≡ (ok (some a), v)
    → (a.user_id ≡ user) × (Owns v forum user → a.role ≡ owner)
unfolding forum_admin
found_is forum user a w v h =
    look_found (w.cached forum user) (w.rows forum user) forum user a w v refl refl h

server-IsAdminStore : IsAdminStore server rows_of Owns
unfolding forum_or_404 or_http forum_admin
server-IsAdminStore = record {
  is_owner = λ f u w h. h.0;
  forum_read = λ forum f u w h. h;
  admin_read = λ forum user f u w h.
      look-keeps (w.cached forum user) (w.rows forum user) forum user f u w refl h;
  user_read = λ key user f u w h. h;
  found_user = λ forum user a w v e. (found_is forum user a w v e).0;
  found_owner = λ forum user a w v e. (found_is forum user a w v e).1;
  inserts = λ forum user f u role w h. (inserted forum user f u role owner w.rows h.0, h.1);
  deletes = λ forum user f u w h other. (untouched forum user f u none owner w.rows h.0 other, h.1);
  updates = λ forum user f u role w h other.
      (untouched forum user f u (some role) owner w.rows h.0 other, h.1);
}

-- the owner adds user 4, who then tries to remove the owner
abbrev by_owner : AccessClaims
by_owner = record { sid = pos 1; sub = "owner" }

abbrev by_admin : AccessClaims
by_admin = record { sid = pos 4; sub = "admin" }

abbrev after_adding : World
after_adding = (add_admin server (pos 3) by_owner (pos 4) new_super start).1

abbrev after_removing : World
after_removing = (remove_admin server (pos 3) by_admin (pos 1) after_adding).1

requests : Handled server start after_removing
requests =
    removed_one (pos 3) (pos 1) by_admin start after_adding
      (added_one (pos 3) (pos 4) new_super by_owner start start (nothing start))

added_row : after_adding.rows (pos 3) (pos 4) ≡ some super
unfolding add_admin acting_admin forum_or_404 or_http forum_admin check_addition require
    check_permission addition_permission unless_admin role_of
added_row = refl

refused_removal :
    (remove_admin server (pos 3) by_admin (pos 1) after_adding).0 ≡ err (http_error 403)
unfolding add_admin remove_admin acting_admin forum_or_404 or_http forum_admin check_addition
    require check_permission addition_permission unless_admin role_of remove_checked check_removal
refused_removal = refl

owner_stays_example :
    (after_removing.rows (pos 3) (pos 1) ≡ some owner) × Owns after_removing (pos 3) (pos 1)
owner_stays_example =
    owner_stays server rows_of Owns server-IsAdminStore (pos 3) (pos 1) start after_removing
      requests (refl, inl refl)
