-- ===== src/Routes/Users.antt =====
-- resource_server/routers/users.py: register, delete_user, recover_password, update_password,
-- get_user and login.
use Prim.Native.Char.{code}
use text.Mathlib.Text.{◌==◌ as str_eq}
use tenjin.Common.{
  ℕ, ◌+◌, ltb, Bool, true, false, if◌then◌else◌, ◌==◌, Option, none, some, String, List, [], ◌∷◌,
}
use tenjin.Common.Result
use tenjin.Common.Result.{Result, ok, attribute_error, or_raise}
use tenjin.Common.Action.{Action, lift, type_error, http_error, raise, pure, done, ◌>>=◌, ◌>>◌}
use tenjin.Common.Int.{ℤ}
use tenjin.Events.{Event}
use tenjin.Events.Values.{int, str, end, field}
use tenjin.Events.Names.{
  IntentFlag, users, user_cleanup, resource_deletion_pending_flag, intent_flag_value, join_names,
}
use tenjin.Cache.Guard.{Answer, delete, derive_cache_key, fetch_indicators, is_falsy, is_empty}
use tenjin.Routes.{Server}
use tenjin.Routes.Parts.{Response, message, user_event, emit, or_http}

-- repositories/user.py. `id_` is none where the slot is not set: `construct_from_orm` sets the fields
-- that are named like a column, and the column is named "id".
pub record UserResult : Type 0 where
  pub id_ : Option ℤ
  pub username : String
  pub aura : ℤ
  pub total_posts : ℤ
  pub total_comments : ℤ
  pub time_joined : String
  pub last_login : String

-- a value that is given to HSET: an integer, a text or a datetime
pub data HashValue : Type 0 where
  number : ℤ → HashValue
  word moment : String → HashValue

-- reading a slot that is not set raises AttributeError
unfoldable pub slot_id : UserResult → Result ℤ
slot_id user = or_raise user.id_ attribute_error

-- `json_repr(user)`
unfoldable pub user_json : UserResult → Result (List (String × HashValue))
unfolding slot_id
user_json user = Result.◌>>=◌ (slot_id user) λ id. ok (
    ("id", number id)
    ∷ ("username", word user.username)
    ∷ ("aura", number user.aura)
    ∷ ("total_posts", number user.total_posts)
    ∷ ("total_comments", number user.total_comments)
    ∷ ("time_joined", moment user.time_joined)
    ∷ ("last_login", moment user.last_login)
    ∷ [])

-- models/requests.py
pub record UserCreationModel : Type 0 where
  pub username : String
  pub email : String
  pub password : String

pub record UserLoginModel : Type 0 where
  pub identity : String
  pub password : String

-- What the handlers await of the cache, the repository of users and bcrypt.
pub record Users (W : Type 0) : Type 0 where
  pub user_or_load : String → Action W (Option UserResult) → Action W (Option UserResult)
  pub get_user_by_username : String → Action W (Option UserResult)
  pub get_user_by_email : String → Action W (Option UserResult)
  -- a username and an email
  pub get_user_by_identity : String → String → Action W (List UserResult)
  pub add_user : String → String → String → Action W UserResult
  pub get_user_password : ℤ → Action W String
  pub delete_user : ℤ → String → Action W (Unit {0})
  pub set_password_recovery_token : ℤ → String → ℕ → Action W (Unit {0})
  -- the user, and the text and the expiry of the user's token
  pub get_user_password_recovery_token :
      ℤ → Action W (Option UserResult × (Option String × Option ℕ))
  pub update_password : ℤ → String → Action W (Unit {0})
  -- the pipeline of `hset_with_ttl`, HSET and EXPIRE with TTL_WEAK
  pub hset_and_expire : String → List (String × HashValue) → Action W (Unit {0})
  pub set_negative_mapping : String → Action W (Unit {0})
  pub bcrypt_hash_password : String → Action W String
  pub bcrypt_check_password : String → String → Bool
  pub generate_url_token : Action W String
  -- `datetime.now()` as a number
  pub clock : Action W ℕ
  pub password_token_max_age : ℕ

-- `"@" in identity`
unfoldable pub has_at : String → Bool
has_at String.[] = false
has_at (String.◌∷◌ c cs) = if code c == b'@' then true else has_at cs

-- `derive_cache_key(UserResult.resource_name, username)`
unfoldable pub username_key : String → String
unfolding join_names
username_key username = join_names ("users" ∷ username ∷ [])

-- `latest_intent == IntentFlag.RESOURCE_DELETION_PENDING_FLAG`
unfoldable pub is_deletion : Option IntentFlag → Bool
unfolding intent_flag_value
is_deletion none = false
is_deletion (some flag) =
    str_eq (intent_flag_value flag) (intent_flag_value resource_deletion_pending_flag)

unfoldable pub cleanup_event : ℤ → String → Event
cleanup_event user_id deletion_time =
    user_event user_cleanup
      (field "user_id" (int user_id) (field "time_deleted" (str deletion_time) end)) [] []

module _ {W : Type 0} (repo : Users W) where
  -- `hset_with_ttl(key, json_repr(user), TTL_WEAK)`
  unfoldable pub store_user : String → UserResult → Action W (Unit {0})
  unfolding user_json
  store_user key user = lift (user_json user) >>= repo.hset_and_expire key

  -- all branches raise 409
  unfoldable pub unless_taken : List UserResult → Action W (Unit {0})
  unless_taken [] = done
  unless_taken (u ∷ us) = raise (http_error 409)

  unfoldable pub register : UserCreationModel → Action W Response
  unfolding unless_taken derive_cache_key slot_id store_user
  register user_model = do
    repo.get_user_by_identity user_model.username user_model.email >>= unless_taken
    pw_hash ← repo.bcrypt_hash_password user_model.password
    user ← repo.add_user user_model.username user_model.email pw_hash
    id ← lift (slot_id user)
    store_user (derive_cache_key "users" id) user
    lift (user_json user)
    pure (message 201 "account created")

  -- the user through the cache, by name
  unfoldable pub user_or_404 : String → Action W UserResult
  unfolding username_key or_http
  user_or_404 username =
      repo.user_or_load (username_key username) (repo.get_user_by_username username) >>= or_http 404

  unfoldable pub check_password : String → UserResult → Action W (Unit {0})
  unfolding slot_id
  check_password password user = lift (slot_id user) >>= repo.get_user_password >>= λ password_hash.
      if repo.bcrypt_check_password password password_hash then done else raise (http_error 403)

  unfoldable pub unless_underway : Option Answer × Option IntentFlag → Action W (Unit {0})
  unfolding is_falsy is_deletion
  unless_underway (lock, latest_intent) =
      if is_falsy lock
      then (if is_deletion latest_intent then raise (http_error 409) else done)
      else raise (http_error 409)

  unfoldable pub delete_user : Server W → String → String → Action W Response
  unfolding user_or_404 check_password fetch_indicators unless_underway username_key cleanup_event
  delete_user server username password = do
    user ← user_or_404 username
    check_password password user
    fetch_indicators server.intents username username "users" delete >>= unless_underway
    repo.set_negative_mapping (username_key username)
    deletion_time ← server.now
    id ← lift (slot_id user)
    repo.delete_user id deletion_time
    emit server users (cleanup_event id deletion_time)
    pure (message 202 "Account marked for deletion")

  unfoldable pub recover_password : String → Action W Response
  unfolding has_at or_http
  recover_password identity = do
    user ←
        (if has_at identity
          then repo.get_user_by_email identity
          else repo.get_user_by_username identity)
        >>= or_http 404
    url_token ← repo.generate_url_token
    id ← lift (slot_id user)
    now ← repo.clock
    repo.set_password_recovery_token id url_token (now + repo.password_token_max_age)
    pure (message 202 "An email has been sent to account")

  -- `expiry > datetime.now()`: None is not compared
  unfoldable pub check_expiry : Option ℕ → Action W (Unit {0})
  check_expiry none = repo.clock >> raise type_error
  check_expiry (some expiry) =
      repo.clock >>= λ now. if ltb now expiry then raise (http_error 403) else done

  unfoldable pub check_url : String → Option String → Action W (Unit {0})
  unfolding is_empty
  check_url temp_url none = raise (http_error 404)
  check_url temp_url (some url) =
      if is_empty url
      then raise (http_error 404)
      else if str_eq url temp_url
      then done
      else raise (http_error 403)

  -- the chain of tests, with the user that passes it
  unfoldable pub recovering :
      String → Option UserResult × (Option String × Option ℕ) → Action W UserResult
  unfolding check_url check_expiry
  recovering temp_url (none, (url, expiry)) = raise (http_error 404)
  recovering temp_url (some user, (url, expiry)) =
      check_url temp_url url >> (check_expiry expiry >> pure user)

  unfoldable pub update_password : ℤ → String → String → Action W Response
  unfolding recovering derive_cache_key store_user
  update_password user_id temp_url password = do
    user ← repo.get_user_password_recovery_token user_id >>= recovering temp_url
    pw_hash ← repo.bcrypt_hash_password password
    repo.update_password user_id pw_hash
    store_user (derive_cache_key "users" user_id) user
    pure (message 200 "password reset")

  unfoldable pub get_user : String → Action W (List (String × HashValue))
  unfolding user_or_404 user_json
  get_user username = user_or_404 username >>= λ user. lift (user_json user)

  -- the user of an identity; only a name is looked up in the cache
  unfoldable pub identified : String → Action W (Option UserResult)
  unfolding username_key
  identified identity =
      if has_at identity
      then repo.get_user_by_email identity
      else repo.user_or_load (username_key identity) (repo.get_user_by_username identity)

  -- the number and the name of the user, and the time of the login
  unfoldable pub login : UserLoginModel → Action W (ℤ × String × ℕ)
  unfolding identified or_http check_password
  login user_model = do
    user ← identified user_model.identity >>= or_http 404
    check_password user_model.password user
    login_time ← repo.clock
    id ← lift (slot_id user)
    pure (id, user.username, login_time)
