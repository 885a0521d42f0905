-- ===== src/Routes/Parts.antt =====
-- resource_server/routers: the calls and the values that the handlers are made of.
use text.Mathlib.Text.{◌==◌ as str_eq}
use tenjin.Common.{ℕ, Bool, true, false, if◌then◌else◌, Option, none, some, String, List, [], ◌∷◌}
use tenjin.Common.Action.{Action, http_error, raise, pure, done, ◌>>=◌, ◌>>◌}
use tenjin.Common.Int.{ℤ, str_of_int, eqℤ}
use tenjin.Events.{CounterUpdate, IntentUpdate, Event}
use tenjin.Events.Values.{Fields}
use tenjin.Events.Names.{StreamName, EventName, IntentFlag, join_names, intent_flag_value}
use tenjin.Cache.Guard.{
  UserAction, create_intent_flag, derive_cache_key, derive_hashmap_name, guard_action, set_intent,
  is_empty,
}
use tenjin.Routes.{PostResult, CommentResult, ForumResult, ForumAdminResult, AccessClaims, Server}
use tenjin.Routes.Permissions.{AdminPermission, check_permission}
use tenjin.Routes.Streamer.{emit_user_event}

-- What a handler answers: a status and a message, also with a post or a forum.
pub data Response : Type 0 where
  message : ℕ → String → Response
  post_answer : PostResult → Response
  post_message : String → PostResult → Response
  forum_answer : ℕ → String → ForumResult → Response

-- `if not found: raise HTTPException(status)`
unfoldable pub or_http : {W A : Type 0} → ℕ → Option A → Action W A
or_http status none = raise (http_error status)
or_http status (some a) = pure a

-- `not latest_intent`
unfoldable pub no_intent : Option String → Bool
unfolding is_empty
no_intent none = true
no_intent (some value) = is_empty value

-- `latest_intent == flag`
unfoldable pub is_flag : IntentFlag → Option String → Bool
unfolding intent_flag_value
is_flag flag none = false
is_flag flag (some value) = str_eq value (intent_flag_value flag)

-- `if known: await set_intent(…); raise HTTPException(409)`
unfoldable pub refuse_if : {W : Type 0} → Action W (Unit {0}) → Bool → Action W (Unit {0})
refuse_if keep true = keep >> raise (http_error 409)
refuse_if keep false = done

-- `if not latest_intent: …`
unfoldable pub if_no_intent :
    {W : Type 0} → Option String → Action W (Unit {0}) → Action W (Unit {0})
unfolding no_intent
if_no_intent latest check = if no_intent latest then check else done

-- `tag or uuid4().hex`
unfoldable pub tag_or : {W : Type 0} → Option String → Action W String → Action W String
unfolding no_intent
tag_or none fresh = fresh
tag_or (some tag) fresh = if is_empty tag then fresh else pure tag

unfoldable pub counter_update : String → String → String → String → ℤ → CounterUpdate
unfolding derive_hashmap_name
counter_update resource_name group key name delta = record {
  counter_group = derive_hashmap_name resource_name group;
  cache_key = key;
  field_name = name;
  delta = delta;
}

unfoldable pub intent_update : String → UserAction → ℤ → String → IntentFlag → String → IntentUpdate
unfolding create_intent_flag
intent_update resource_name action sid resource_id flag intent_id = record {
  intent_name = create_intent_flag resource_name action (str_of_int sid) resource_id;
  intent_flag = flag;
  intent_id = intent_id;
}

abbrev pub user_event : EventName → Fields → List CounterUpdate → List IntentUpdate → Event
user_event name payload counters intents = record {
  name = name;
  payload = payload;
  side_effects = record {
    counter_updates = counters;
    intent_updates = intents;
    cache_invalidations = [];
  };
}

module _ {W : Type 0} (server : Server W) where
  abbrev pub emit : StreamName → Event → Action W (Unit {0})
  emit = emit_user_event server.orjson server.broker server.ttl_strongest

  -- `guard_action` with a flag that conflicts
  abbrev pub guard :
      AccessClaims
      → String
      → String
      → UserAction
      → IntentFlag
      → (Option String → Action W (Unit {0}))
      → Action W (Unit {0})
  guard token resource_id resource_name action flag body =
      guard_action server.intents (some flag) body token.sid resource_id resource_name action

  -- `set_intent` with the default lifespan
  abbrev pub keep_intent :
      String → AccessClaims → String → String → UserAction → IntentFlag → Action W (Unit {0})
  keep_intent intent_id token resource_id resource_name action flag =
      set_intent server.intents intent_id (str_of_int token.sid) resource_id resource_name action
        flag server.ttl_strongest

  unfoldable pub post_or_404 : ℤ → Action W PostResult
  unfolding derive_cache_key or_http
  post_or_404 post_id =
      server.post_or_load (derive_cache_key "posts" post_id) (server.get_post post_id)
      >>= or_http 404

  unfoldable pub comment_or_404 : ℤ → Action W CommentResult
  unfolding derive_cache_key or_http
  comment_or_404 comment_id =
      server.comment_or_load (derive_cache_key "comments" comment_id)
        (server.get_comment comment_id)
      >>= or_http 404

  unfoldable pub forum_or_404 : ℤ → Action W ForumResult
  unfolding derive_cache_key or_http
  forum_or_404 forum_id =
      server.forum_or_load (derive_cache_key "forums" forum_id) (server.get_forum forum_id)
      >>= or_http 404

  -- the admin of a forum, if the user is one
  unfoldable pub forum_admin : ℤ → ℤ → Action W (Option ForumAdminResult)
  unfolding join_names str_of_int
  forum_admin forum_id user_id =
      server.admin_or_load
        (join_names
          ("forum_admins" ∷ join_names (str_of_int forum_id ∷ str_of_int user_id ∷ []) ∷ []))
        (server.get_forum_admin forum_id user_id)

  unfoldable pub unless_permitted : AdminPermission → ForumAdminResult → Action W (Unit {0})
  unfolding check_permission
  unless_permitted permission found =
      if check_permission found.role permission then done else raise (http_error 403)

  -- the check that the user is the author, or an admin of the forum with the permission
  unfoldable pub may_delete : AccessClaims → ℤ → ℤ → AdminPermission → Action W (Unit {0})
  unfolding forum_admin or_http unless_permitted
  may_delete token author_id forum_id permission =
      if eqℤ token.sid author_id
      then done
      else forum_admin forum_id token.sid >>= or_http 403 >>= unless_permitted permission
