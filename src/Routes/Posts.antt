-- ===== src/Routes/Posts.antt =====
-- resource_server/routers/posts.py: create_post, get_post, edit_post, delete_post; and
-- validate_duplicate_amendment_contents of utils/validation.py.
use text.Mathlib.Text.{◌==◌ as str_eq}
use tenjin.Common.{
  Bool, true, false, not, ◌&&◌, ◌||◌, if◌then◌else◌, Option, none, some, String, [], ◌∷◌,
}
use tenjin.Common.Action.{Action, http_error, raise, pure, ◌>>=◌, ◌>>◌}
use tenjin.Common.Int.{ℤ, pos, negsuc, str_of_int, eqℤ}
use tenjin.Events.{Event}
use tenjin.Events.Values.{int, str, end, field}
use tenjin.Events.Names.{
  posts, post_create, post_delete, resource_creation_pending_flag, resource_deletion_pending_flag,
  join_names,
}
use tenjin.Cache.Guard.{create, delete, derive_cache_key, is_empty}
use tenjin.Routes.{PostResult, ForumResult, AccessClaims, Server}
use tenjin.Routes.Permissions.{delete_post as may_delete_post}
use tenjin.Routes.Parts.{
  Response, message, post_answer, post_message, counter_update, intent_update, user_event, emit,
  guard, post_or_404, forum_or_404, may_delete, tag_or,
}

-- models/requests.py
pub record PostCreationModel : Type 0 where
  pub forum_id : ℤ
  pub title : String
  pub body : String
  pub client_tag : Option String

pub record PostAmendmentModel : Type 0 where
  pub closed : Option Bool
  pub title : Option String
  pub body : Option String

unfoldable pub post_creation_event : PostCreationModel → AccessClaims → ForumResult → String → Event
unfolding counter_update derive_cache_key join_names
post_creation_event model token forum now =
    user_event post_create
      (field "author_id" (int token.sid) (
        field "forum_id" (int forum.id_) (
          field "title" (str model.title)
            (field "body_text" (str model.body) (field "time_posted" (str now) end)))))
      (counter_update "forums" "posts" (derive_cache_key "forums" model.forum_id) "posts" (pos 1)
        ∷ counter_update "users" "total_posts" (join_names ("users" ∷ token.sub ∷ [])) "total_posts"
            (pos 1)
        ∷ [])
      []

unfoldable pub post_deletion_event : ℤ → AccessClaims → PostResult → String → Event
unfolding counter_update derive_cache_key intent_update
post_deletion_event post_id token post intent_id =
    user_event post_delete (field "post_id" (int post_id) end)
      (counter_update "forums" "posts" (derive_cache_key "forums" post.forum_id) "posts" (negsuc 0)
        ∷ [])
      (intent_update "forums" delete token.sid (str_of_int post_id) resource_deletion_pending_flag
          intent_id
        ∷ [])

-- `a == b` for a text and a text or None
abbrev same_text : String → Option String → Bool
same_text s none = false
same_text s (some t) = str_eq s t

-- `bool(x)` for a Boolean or None, and for a text or None
unfoldable pub is_true : Option Bool → Bool
is_true none = false
is_true (some b) = b

unfoldable pub is_text : Option String → Bool
is_text none = false
is_text (some s) = not (is_empty s)

abbrev is_none : Option Bool → Bool
is_none none = true
is_none (some b) = false

-- `bool(validate_duplicate_amendment_contents(model, post))`
unfoldable pub validate_duplicate_amendment_contents : PostAmendmentModel → PostResult → Bool
unfolding is_true is_text
validate_duplicate_amendment_contents model post =
    (post.closed && is_true model.closed)
    || same_text post.title model.title
    || (not (is_text model.title) && is_none model.closed && same_text post.body_text model.body)

-- `text or old`
unfoldable pub text_or : Option String → String → String
text_or none old = old
text_or (some s) old = if is_empty s then old else s

unfoldable pub closed_or : Option Bool → Bool → Bool
closed_or none old = old
closed_or (some b) old = b

-- the fields that `edit_post` sets
unfoldable pub amend : PostAmendmentModel → PostResult → PostResult
unfolding text_or closed_or
amend model post = record {
  id_ = post.id_;
  author_id = post.author_id;
  forum_id = post.forum_id;
  title = text_or model.title post.title;
  body_text = text_or model.body post.body_text;
  closed = closed_or model.closed post.closed;
}

module _ {W : Type 0} (server : Server W) where
  unfoldable pub stream_creation :
      PostCreationModel → AccessClaims → ForumResult → Option String → Action W (Unit {0})
  unfolding post_creation_event
  stream_creation model token forum latest_intent = do
    now ← server.now
    emit server posts (post_creation_event model token forum now)

  unfoldable pub create_post : PostCreationModel → AccessClaims → Action W Response
  unfolding forum_or_404 tag_or stream_creation
  create_post model token = do
    forum ← forum_or_404 server model.forum_id
    intent_id ← tag_or model.client_tag server.uuid4
    guard server token intent_id "posts" create resource_creation_pending_flag
        (stream_creation model token forum)
    pure (message 202 "post created")

  unfoldable pub get_post : ℤ → Action W Response
  unfolding post_or_404
  get_post post_id = post_or_404 server post_id >>= λ post. pure (post_answer post)

  -- what `edit_post` does after its checks
  unfoldable pub write_amendment : ℤ → PostAmendmentModel → PostResult → Action W Response
  unfolding amend derive_cache_key is_true
  write_amendment post_id model post = do
    server.update_post post_id model.title model.body (is_true model.closed)
    server.store_post (derive_cache_key "posts" post_id) (amend model post)
    pure (post_message "Post edited." (amend model post))

  unfoldable pub edit_found : ℤ → PostAmendmentModel → AccessClaims → PostResult → Action W Response
  unfolding validate_duplicate_amendment_contents write_amendment
  edit_found post_id model token post =
      if not (eqℤ post.author_id token.sid)
      then raise (http_error 403)
      else if validate_duplicate_amendment_contents model post
      then raise (http_error 409)
      else write_amendment post_id model post

  unfoldable pub edit_post : ℤ → PostAmendmentModel → AccessClaims → Action W Response
  unfolding post_or_404 edit_found
  edit_post post_id model token = post_or_404 server post_id >>= edit_found post_id model token

  -- the body of the guard in `delete_post`
  unfoldable pub stream_deletion :
      ℤ → AccessClaims → PostResult → Option String → Action W (Unit {0})
  unfolding may_delete post_deletion_event
  stream_deletion post_id token post latest_intent = do
    intent_id ← server.uuid4
    may_delete server token post.author_id post.forum_id may_delete_post
    emit server posts (post_deletion_event post_id token post intent_id)

  unfoldable pub delete_post : ℤ → AccessClaims → Action W Response
  unfolding post_or_404 stream_deletion str_of_int
  delete_post post_id token = do
    post ← post_or_404 server post_id
    guard server token (str_of_int post_id) "posts" delete resource_deletion_pending_flag
        (stream_deletion post_id token post)
    pure (message 202 "post queued for deletion")
