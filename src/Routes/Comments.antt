-- ===== src/Routes/Comments.antt =====
-- resource_server/routers/comments.py: comment_on_post, delete_comment and report_comment.
use tenjin.Common.{Bool, true, not, if◌then◌else◌, Option, none, some, String, [], ◌∷◌}
use tenjin.Common.Action.{Action, http_error, raise, pure, done, ◌>>=◌, ◌>>◌}
use tenjin.Common.Int.{ℤ, pos, negsuc, str_of_int}
use tenjin.Events.{Event}
use tenjin.Events.Values.{int, str, end, field}
use tenjin.Events.Names.{
  IntentFlag, comments, comment_create, comment_delete, post_unsave, resource_creation_pending_flag,
  resource_deletion_pending_flag,
}
use tenjin.Cache.Guard.{
  Answer, create, delete, report, derive_cache_key, fetch_indicators, is_falsy,
}
use tenjin.Routes.{PostResult, AccessClaims, Server}
use tenjin.Routes.Permissions.{delete_comment as may_delete_comment}
use tenjin.Routes.Parts.{
  Response, message, counter_update, intent_update, user_event, emit, guard, keep_intent,
  post_or_404, comment_or_404, may_delete, tag_or, refuse_if, if_no_intent,
}
use tenjin.Routes.Saves.{ReportModel, report_resource}

-- models/requests.py
pub record CommentModel : Type 0 where
  pub body : String
  pub client_tag : Option String

unfoldable pub comment_creation_event :
    ℤ → CommentModel → AccessClaims → PostResult → String → Event
unfolding counter_update derive_cache_key
comment_creation_event post_id model token post now =
    user_event comment_create
      (field "author_id" (int token.sid) (
        field "parent_forum" (int post.forum_id) (
          field "parent_post" (int post.id_)
            (field "body" (str model.body) (field "time_created" (str now) end)))))
      (counter_update "posts" "total_comments" (derive_cache_key "posts" post_id) "total_comments"
          (pos 1)
        ∷ counter_update "users" "total_comments" (derive_cache_key "users" token.sid)
            "total_comments" (pos 1)
        ∷ [])
      []

unfoldable pub comment_deletion_event : ℤ → ℤ → AccessClaims → String → Event
unfolding counter_update derive_cache_key intent_update
comment_deletion_event post_id comment_id token intent_id =
    user_event comment_delete (field "comment_id" (int comment_id) end)
      (counter_update "posts" "total_comments" (derive_cache_key "posts" post_id) "total_comments"
          (negsuc 0)
        ∷ counter_update "users" "total_comments" (derive_cache_key "users" token.sid)
            "total_comments" (negsuc 0)
        ∷ [])
      (intent_update "comments" delete token.sid (str_of_int comment_id)
          resource_deletion_pending_flag intent_id
        ∷ [])

unfoldable pub comment_report_event : ReportModel → ℤ → AccessClaims → String → String → Event
unfolding counter_update derive_cache_key intent_update report_resource
comment_report_event model comment_id token intent_id now =
    user_event post_unsave
      (field "comment_id" (int comment_id) (
        field "user_id" (int token.sid) (
          field "report_tag" (str model.tag) (
            field "report_description" (str model.description)
              (field "report_time" (str now) end)))))
      (counter_update "comments" "reports" (derive_cache_key "comments" comment_id) "reports"
          (pos 1)
        ∷ [])
      (intent_update (report_resource "comments" model) report token.sid (str_of_int comment_id)
          resource_creation_pending_flag intent_id
        ∷ [])

-- `lock or latest_intent`
unfoldable pub is_underway : Option Answer × Option IntentFlag → Bool
unfolding is_falsy
is_underway (lock, none) = not (is_falsy lock)
is_underway (lock, some flag) = true

module _ {W : Type 0} (server : Server W) (post_id : ℤ) (token : AccessClaims) where
  unfoldable pub comment_if_open : CommentModel → PostResult → Action W Response
  unfolding tag_or is_underway comment_creation_event fetch_indicators str_of_int
  comment_if_open model post = if post.closed then raise (http_error 409) else do
    intent_id ← tag_or model.client_tag server.uuid4
    indicators ← fetch_indicators server.intents (str_of_int token.sid) intent_id "comments" create
    if is_underway indicators then raise (http_error 409) else done
    now ← server.now
    emit server comments (comment_creation_event post_id model token post now)
    pure (message 202 "Comment created")

  unfoldable pub comment_on_post : CommentModel → Action W Response
  unfolding post_or_404 comment_if_open
  comment_on_post model = post_or_404 server post_id >>= comment_if_open model

  module _ (comment_id : ℤ) where
    -- the body of the guard in `delete_comment`
    unfoldable pub stream_comment_deletion : String → Option String → Action W (Unit {0})
    unfolding comment_deletion_event
    stream_comment_deletion intent_id latest_intent =
        emit server comments (comment_deletion_event post_id comment_id token intent_id)

    unfoldable pub delete_comment : Action W Response
    unfolding comment_or_404 may_delete stream_comment_deletion str_of_int
    delete_comment = do
      comment ← comment_or_404 server comment_id
      may_delete server token comment.author_id comment.parent_forum may_delete_comment
      intent_id ← server.uuid4
      guard server token (str_of_int comment_id) "comments" delete resource_deletion_pending_flag
          (stream_comment_deletion intent_id)
      pure (message 202 "Comment queued for deletion")

    -- the body of the guard in `report_comment`
    unfoldable pub stream_comment_report : ReportModel → Option String → Action W (Unit {0})
    unfolding if_no_intent refuse_if comment_report_event report_resource str_of_int
    stream_comment_report model latest_intent = do
      intent_id ← server.uuid4
      if_no_intent latest_intent (
          server.check_comment_reported comment_id token.sid model.tag
          >>= refuse_if (
              keep_intent server intent_id token (str_of_int comment_id)
                (report_resource "comments" model) report resource_creation_pending_flag))
      now ← server.now
      emit server comments (comment_report_event model comment_id token intent_id now)

    unfoldable pub report_comment : ReportModel → Action W Response
    unfolding comment_or_404 stream_comment_report report_resource str_of_int
    report_comment model = do
      comment ← comment_or_404 server comment_id
      guard server token (str_of_int comment_id) (report_resource "comments" model) report
          resource_creation_pending_flag (stream_comment_report model)
      pure (message 202 "post reported")
