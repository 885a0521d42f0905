-- ===== src/Routes/Saves.antt =====
-- resource_server/routers/posts.py: save_post, unsave_post and report_post.
use tenjin.Common.{not, if◌then◌else◌, Option, none, some, String, [], ◌∷◌}
use tenjin.Common.Action.{Action, http_error, raise, pure, ◌>>=◌, ◌>>◌}
use tenjin.Common.Int.{ℤ, pos, negsuc, str_of_int}
use tenjin.Events.{Event}
use tenjin.Events.Values.{int, str, end, field}
use tenjin.Events.Names.{
  EventName, IntentFlag, posts, post_save, post_unsave, resource_creation_pending_flag,
  resource_deletion_pending_flag, join_names,
}
use tenjin.Cache.Guard.{Answer, save, report, derive_cache_key, fetch_indicators, is_falsy}
use tenjin.Routes.{PostResult, AccessClaims, Server}
use tenjin.Routes.Parts.{
  Response, message, counter_update, intent_update, user_event, emit, guard, keep_intent,
  post_or_404, refuse_if, if_no_intent,
}

-- models/requests.py
pub record ReportModel : Type 0 where
  pub tag : String
  pub description : String

-- the event of `save_post` and `unsave_post`
unfoldable pub post_save_event :
    EventName → IntentFlag → ℤ → ℤ → AccessClaims → PostResult → String → Event
unfolding counter_update derive_cache_key intent_update
post_save_event name flag delta post_id token post intent_id =
    user_event name (field "user_id" (int token.sid) (field "post_id" (int post_id) end))
      (counter_update "posts" "saves" (derive_cache_key "posts" post_id) "saves" delta
        ∷ counter_update "users" "aura" (derive_cache_key "users" post.author_id) "aura" delta
        ∷ [])
      (intent_update "posts" save token.sid (str_of_int post_id) flag intent_id ∷ [])

unfoldable pub report_resource : String → ReportModel → String
unfolding join_names
report_resource resource_name model = join_names (resource_name ∷ model.tag ∷ [])

unfoldable pub post_report_event : ReportModel → ℤ → AccessClaims → String → String → Event
unfolding counter_update derive_cache_key intent_update report_resource
post_report_event model post_id token intent_id now =
    user_event post_unsave
      (field "post_id" (int post_id) (
        field "user_id" (int token.sid) (
          field "report_tag" (str model.tag) (
            field "report_description" (str model.description)
              (field "report_time" (str now) end)))))
      (counter_update "posts" "reports" (derive_cache_key "posts" post_id) "reports" (pos 1) ∷ [])
      (intent_update (report_resource "posts" model) report token.sid (str_of_int post_id)
          resource_creation_pending_flag intent_id
        ∷ [])

module _ {W : Type 0} (server : Server W) (post_id : ℤ) (token : AccessClaims) where
  -- the bodies of the guards in `save_post` and `unsave_post`
  unfoldable pub stream_save : PostResult → Option String → Action W (Unit {0})
  unfolding if_no_intent refuse_if post_save_event str_of_int
  stream_save post latest_intent = do
    intent_id ← server.uuid4
    if_no_intent latest_intent (
        server.check_saved post_id token.sid
        >>= refuse_if (
            keep_intent server intent_id token (str_of_int post_id) "posts" save
              resource_creation_pending_flag))
    emit server posts (
        post_save_event post_save resource_creation_pending_flag (pos 1) post_id token post
          intent_id)

  unfoldable pub stream_unsave : PostResult → Option String → Action W (Unit {0})
  unfolding if_no_intent refuse_if post_save_event str_of_int
  stream_unsave post latest_intent = do
    intent_id ← server.uuid4
    if_no_intent latest_intent (
        server.check_saved post_id token.sid >>= λ saved.
        refuse_if
          (keep_intent server intent_id token (str_of_int post_id) "posts" save
            resource_deletion_pending_flag)
          (not saved))
    emit server posts (
        post_save_event post_unsave resource_deletion_pending_flag (negsuc 0) post_id token post
          intent_id)

  unfoldable pub save_post : Action W Response
  unfolding post_or_404 stream_save str_of_int
  save_post = do
    post ← post_or_404 server post_id
    guard server token (str_of_int post_id) "posts" save resource_creation_pending_flag
        (stream_save post)
    pure (message 202 "post saved")

  unfoldable pub unsave_post : Action W Response
  unfolding post_or_404 stream_unsave str_of_int
  unsave_post = do
    post ← post_or_404 server post_id
    guard server token (str_of_int post_id) "posts" save resource_deletion_pending_flag
        (stream_unsave post)
    pure (message 202 "post unsaved")

  -- the tests of `report_post` for a lock and for an intent
  unfoldable pub check_report : ReportModel → Option Answer × Option IntentFlag → Action W String
  unfolding is_falsy refuse_if report_resource str_of_int
  check_report model (lock, latest_intent) =
      if not (is_falsy lock)
      then raise (http_error 409)
      else server.uuid4 >>= λ intent_id. elim latest_intent [
        | some flag ↦ raise (http_error 409)
        | none ↦
            server.check_post_reported post_id token.sid model.tag
            >>= refuse_if (
                keep_intent server intent_id token (str_of_int post_id)
                  (report_resource "posts" model) report resource_creation_pending_flag)
            >> pure intent_id
      ]

  unfoldable pub report_post : ReportModel → Action W Response
  unfolding post_or_404 check_report post_report_event fetch_indicators report_resource str_of_int
  report_post model = do
    post ← post_or_404 server post_id
    indicators ←
        fetch_indicators server.intents (str_of_int token.sid) (str_of_int post_id)
          (report_resource "posts" model) save
    intent_id ← check_report model indicators
    now ← server.now
    emit server posts (post_report_event model post_id token intent_id now)
    pure (message 202 "post reported")
