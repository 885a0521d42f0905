-- ===== src/Routes/Forums.antt =====
-- resource_server/routers/forums.py: get_forum, delete_forum, subscribe_forum, unsubscribe_forum
-- and edit_forum.
use tenjin.Common.{Bool, false, not, if◌then◌else◌, Option, none, some, String, [], ◌∷◌}
use tenjin.Common.Action.{
  Action, attribute_error, value_error, http_error, raise, pure, done, ◌>>=◌, ◌>>◌,
}
use tenjin.Common.Int.{ℤ, pos, negsuc, str_of_int, eqℤ}
use tenjin.Events.{Event}
use tenjin.Events.Values.{int, str, end, field}
use tenjin.Events.Names.{
  EventName, IntentFlag, forums, forum_sub, forum_unsub, resource_creation_pending_flag,
  resource_deletion_pending_flag, join_names,
}
use tenjin.Cache.Guard.{UserAction, sub, unsub, delete, derive_cache_key}
use tenjin.Routes.{AdminRole, admin, super, owner, ForumAdminResult, AccessClaims, Server}
use tenjin.Routes.Parts.{
  Response, message, forum_answer, counter_update, intent_update, user_event, emit, guard,
  keep_intent, forum_or_404, forum_admin, or_http, refuse_if, if_no_intent,
}

-- the event of `subscribe_forum` and `unsubscribe_forum`
unfoldable pub subscription_event :
    EventName → UserAction → IntentFlag → ℤ → ℤ → AccessClaims → ℤ → String → String → Event
unfolding counter_update derive_cache_key intent_update
subscription_event name action flag delta forum_id token owner_id intent_id now =
    user_event name
      (field "user_id" (int token.sid)
        (field "forum_id" (int forum_id) (field "time_subscribed" (str now) end)))
      (counter_update "forums" "subscriptions" (derive_cache_key "forums" forum_id) "subscribers"
          delta
        ∷ counter_update "users" "aura" (derive_cache_key "users" owner_id) "aura" delta
        ∷ [])
      (intent_update "forums" action token.sid (str_of_int forum_id) flag intent_id ∷ [])

module _ {W : Type 0} (server : Server W) (forum_id : ℤ) where
  unfoldable pub get_forum : Action W Response
  unfolding forum_or_404
  get_forum = forum_or_404 server forum_id >>= λ forum. pure (forum_answer 200 "" forum)

  module _ (token : AccessClaims) where
    -- the test of the owner; None has no `id_`
    unfoldable pub unless_owner : Option ℤ → Action W (Unit {0})
    unless_owner none = raise attribute_error
    unless_owner (some owner_id) = if eqℤ owner_id token.sid then done else raise (http_error 403)

    -- the body of the guard in `delete_forum`: the Event is built without side effects, which its
    -- model requires, and pydantic's ValidationError is a ValueError
    unfoldable pub stream_forum_deletion : Option String → Action W (Unit {0})
    stream_forum_deletion latest_intent = raise value_error

    unfoldable pub delete_forum : Action W Response
    unfolding forum_or_404 unless_owner stream_forum_deletion str_of_int
    delete_forum = do
      forum ← forum_or_404 server forum_id
      server.get_forum_owner forum_id >>= unless_owner
      guard server token (str_of_int forum_id) "forums" delete resource_deletion_pending_flag
          stream_forum_deletion
      pure (forum_answer 202 "Deleted forum" forum)

    -- the owner of the forum, through the cache
    unfoldable pub owner_or_500 : Action W ℤ
    unfolding derive_cache_key join_names or_http
    owner_or_500 =
        server.owner_or_load (derive_cache_key (join_names ("forums" ∷ "owner" ∷ [])) forum_id)
          (server.get_forum_owner forum_id)
        >>= or_http 500

    -- the bodies of the guards
    unfoldable pub stream_subscription : Option String → Action W (Unit {0})
    unfolding if_no_intent refuse_if owner_or_500 subscription_event str_of_int
    stream_subscription latest_intent = do
      intent_id ← server.uuid4
      if_no_intent latest_intent (
          server.check_subscription forum_id token.sid
          >>= refuse_if (
              keep_intent server intent_id token (str_of_int forum_id) "forums" sub
                resource_creation_pending_flag))
      owner_id ← owner_or_500
      now ← server.now
      emit server forums (
          subscription_event forum_sub sub resource_creation_pending_flag (pos 1) forum_id token
            owner_id intent_id now)

    unfoldable pub stream_unsubscription : Option String → Action W (Unit {0})
    unfolding if_no_intent refuse_if owner_or_500 subscription_event str_of_int
    stream_unsubscription latest_intent = do
      intent_id ← server.uuid4
      if_no_intent latest_intent (
          server.check_subscription forum_id token.sid >>= λ subscribed.
          refuse_if
            (keep_intent server intent_id token (str_of_int forum_id) "forums" unsub
              resource_deletion_pending_flag)
            (not subscribed))
      owner_id ← owner_or_500
      now ← server.now
      emit server forums (
          subscription_event forum_unsub unsub resource_deletion_pending_flag (negsuc 0) forum_id
            token owner_id intent_id now)

    unfoldable pub subscribe_forum : Action W Response
    unfolding forum_or_404 stream_subscription str_of_int
    subscribe_forum = do
      forum ← forum_or_404 server forum_id
      guard server token (str_of_int forum_id) "forums" sub resource_creation_pending_flag
          stream_subscription
      pure (message 202 "Forum subscribed!")

    unfoldable pub unsubscribe_forum : Action W Response
    unfolding forum_or_404 stream_unsubscription str_of_int
    unsubscribe_forum = do
      forum ← forum_or_404 server forum_id
      guard server token (str_of_int forum_id) "forums" sub resource_deletion_pending_flag
          stream_unsubscription
      pure (message 202 "Forum unsubscribed!")

    -- `admin_role.role == "staff"`, for the roles that there are
    unfoldable pub is_staff : AdminRole → Bool
    is_staff admin = false
    is_staff super = false
    is_staff owner = false

    unfoldable pub unless_staff : ForumAdminResult → Action W (Unit {0})
    unfolding is_staff
    unless_staff found = if is_staff found.role then raise (http_error 403) else done

    unfoldable pub edit_forum : Option String → Option String → Action W Response
    unfolding forum_or_404 forum_admin or_http unless_staff
    edit_forum title description = do
      forum_or_404 server forum_id
      forum_admin server forum_id token.sid >>= or_http 403 >>= unless_staff
      updated ← server.update_forum forum_id title description
      pure (forum_answer 200 "Forum edited succesfully" updated)
