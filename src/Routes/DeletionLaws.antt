-- ===== src/Routes/DeletionLaws.antt =====
-- Who may not delete a post: the handler streams nothing for a user who is neither the author nor
-- an admin.
use tenjin.Common.Keeps.{Keeps, knowing-Keeps, bind-Keeps, raise-Keeps, pure-Keeps}
use tenjin.Common.{
  ◌≡◌, ◌≢◌, sym, ap, ◌∙◌, Bool, true, false, if◌then◌else◌, Option, none, some, String, List,
}
use tenjin.Common.Action.{
  Action, Result, ok, http_error, pure, done, bind-ok, bind-returns, ◌>>=◌, ◌>>◌,
}
use tenjin.Common.Int.{ℤ, str_of_int, eqℤ}
use tenjin.Events.Names.{posts, resource_deletion_pending_flag}
use tenjin.Pipeline.{Command}
use tenjin.Cache.Guard.{delete}
use tenjin.Cache.GuardKeeps.{guard_action-Keeps}
use tenjin.Routes.{PostResult, ForumAdminResult, AccessClaims, Server}
use tenjin.Routes.Permissions.{delete_post as may_delete_post}
use tenjin.Routes.Parts.{
  Response, message, or_http, emit, guard, forum_admin, unless_permitted, may_delete, post_or_404,
}
use tenjin.Routes.Posts.{post_deletion_event, stream_deletion, delete_post}

-- The calls that do not stream: they keep the history of the transactions.
pub record IsStreamless {W : Type 0} (server : Server W) (log : W → List (List Command))
    : Type 0 where
  pub post_read : (id : ℤ) (w : W) → log (post_or_404 server id w).1 ≡ log w
  pub admin_read : (forum user : ℤ) (w : W) → log (forum_admin server forum user w).1 ≡ log w
  pub uuid_read : (w : W) → log (server.uuid4 w).1 ≡ log w
  pub lock_read :
      (lock intent : String) (w : W) → log (server.intents.lock_and_get lock intent w).1 ≡ log w
  pub lock_delete : (lock : String) (w : W) → log (server.intents.delete lock w).1 ≡ log w

module _ {W : Type 0} (server : Server W) (log : W → List (List Command))
    (streamless : IsStreamless server log) (post_id : ℤ) (token : AccessClaims)
    (post : PostResult) where
  module _ (stranger : eqℤ token.sid post.author_id ≡ false)
      (no_admin : (o : Option ForumAdminResult) (v v' : W)
        → forum_admin server post.forum_id token.sid v ≡ (ok o, v')
        → o ≡ none)
      (past : List (List Command)) where
    Kept : W → Type 0
    Kept v = log v ≡ past

    abbrev lookup : Action W ForumAdminResult
    lookup = forum_admin server post.forum_id token.sid >>= or_http 403

    abbrev checked : Action W (Unit {0})
    checked = lookup >>= unless_permitted server may_delete_post

    refused : (a : ForumAdminResult) (w v : W) → lookup w ≢ (ok a, v)
    unfolding or_http
    refused a w v h =
        let (o, u, e, k) =
          bind-returns (forum_admin server post.forum_id token.sid) (or_http 403) w a v h in
        let k' : or_http 403 none u ≡ (ok a, v) = rw (no_admin o w u e) at k in cc

    or_http-Kept : (o : Option ForumAdminResult) → Keeps Kept (or_http 403 o)
    unfolding or_http
    or_http-Kept none = raise-Keeps Kept ForumAdminResult (http_error 403)
    or_http-Kept (some a) = pure-Keeps Kept a

    lookup-Keeps : Keeps Kept lookup
    unfolding Kept
    lookup-Keeps =
        bind-Keeps Kept (forum_admin server post.forum_id token.sid) (or_http 403)
          (λ w p. streamless.admin_read post.forum_id token.sid w ∙ p) or_http-Kept

    checked-Keeps : Keeps Kept checked
    checked-Keeps =
        knowing-Keeps Kept lookup (unless_permitted server may_delete_post) lookup-Keeps
          (λ a w v e p. absurd (refused a w v e))

    checked-raises : (w v : W) → checked w ≢ (ok tt, v)
    checked-raises w v h =
        let (a, u, e, k) = bind-returns lookup (unless_permitted server may_delete_post) w tt v h in
        refused a w u e

    unless_author-Keeps : (b : Bool) → b ≡ false → Keeps Kept (if b then done else checked)
    unless_author-Keeps true h = cc
    unless_author-Keeps false h = checked-Keeps

    unless_author-raises :
        (b : Bool) → b ≡ false → (w v : W) → (if b then done else checked) w ≢ (ok tt, v)
    unless_author-raises true h = cc
    unless_author-raises false h = checked-raises

    abbrev may : Action W (Unit {0})
    may = may_delete server token post.author_id post.forum_id may_delete_post

    out : String → Action W (Unit {0})
    out i = emit server posts (post_deletion_event post_id token post i)

    stream_deletion-Keeps :
        (latest : Option String) → Keeps Kept (stream_deletion server post_id token post latest)
    unfolding stream_deletion may_delete Kept out
    stream_deletion-Keeps latest =
        bind-Keeps Kept server.uuid4 (λ i. may >> out i) (λ w p. streamless.uuid_read w ∙ p)
          (λ i.
            knowing-Keeps Kept may (λ _. out i)
              (unless_author-Keeps (eqℤ token.sid post.author_id) stranger)
              (λ a w v e p.
                absurd (unless_author-raises (eqℤ token.sid post.author_id) stranger w v e)))

    abbrev guarded_deletion : Action W (Unit {0})
    guarded_deletion =
        guard server token (str_of_int post_id) "posts" delete resource_deletion_pending_flag
          (stream_deletion server post_id token post)

    guarded_deletion-Keeps : Keeps Kept guarded_deletion
    unfolding Kept
    guarded_deletion-Keeps =
        guard_action-Keeps Kept server.intents (some resource_deletion_pending_flag)
          (stream_deletion server post_id token post) (λ l i w p. streamless.lock_read l i w ∙ p)
          (λ l w p. streamless.lock_delete l w ∙ p) stream_deletion-Keeps token.sid
          (str_of_int post_id) "posts" delete

    deletion-Keeps : Keeps Kept (guarded_deletion >> pure (message 202 "post queued for deletion"))
    deletion-Keeps =
        bind-Keeps Kept guarded_deletion (λ _. pure (message 202 "post queued for deletion"))
          guarded_deletion-Keeps (λ _. pure-Keeps Kept (message 202 "post queued for deletion"))

  -- A user who is neither the author of a post nor an admin of its forum streams nothing by asking
  -- for its deletion, with lookups, a lock and identifiers that stream nothing.
  pub delete_post_forbidden :
      (w w₁ : W)
      → post_or_404 server post_id w ≡ (ok post, w₁)
      → eqℤ token.sid post.author_id ≡ false
      → ((o : Option ForumAdminResult) (v v' : W)
          → forum_admin server post.forum_id token.sid v ≡ (ok o, v')
          → o ≡ none)
      → log (delete_post server post_id token w).1 ≡ log w
  unfolding delete_post Kept
  delete_post_forbidden w w₁ loaded stranger no_admin =
      ap (λ (o : Result Response × W). log o.1)
        (bind-ok (post_or_404 server post_id) (λ p. deletion p) w post w₁ loaded)
      ∙ deletion-Keeps stranger no_admin (log w) w₁ (
          sym (ap (λ (o : Result PostResult × W). log o.1) loaded) ∙ streamless.post_read post_id w)
    where
      deletion : PostResult → Action W Response
      deletion p =
          guard server token (str_of_int post_id) "posts" delete resource_deletion_pending_flag
            (stream_deletion server post_id token p)
          >> pure (message 202 "post queued for deletion")
