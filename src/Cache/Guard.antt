-- ===== src/Cache/Guard.antt =====
-- resource_server/cache_manager.py: the guard around an action of a user on a resource
-- (`guard_action`), which takes a lock and compares the user's latest intent, with
-- `fetch_indicators` and `set_intent`; resource_auxillary/cache.py: the names of keys.
use Prim.Native.Char.{code}
use text.Mathlib.Text.{◌==◌ as str_eq}
use tenjin.Common.{ℕ, Bool, true, false, if◌then◌else◌, ◌==◌, Option, none, some, String, [], ◌∷◌}
use tenjin.Common.Action.{
  Action, Result, ok, err, type_error, value_error, attribute_error, runtime_error,
  duplicate_request, conflicting_intent, raise, lift, finally, ◌>>=◌,
}
use tenjin.Common.Int.{ℤ, str_of_int}
use tenjin.Common.Result
use tenjin.Events.Names.{
  IntentFlag, resource_creation_pending_flag, resource_creation_pending_alt_flag,
  resource_deletion_pending_flag, join_names, intent_flag_value,
}
use tenjin.Cache.{derive_lock_key}

-- strings.py: `Action`, the actions of a user on a resource
pub data UserAction : Type 0 where
  save report vote unvote sub unsub delete create : UserAction

unfoldable pub action_value : UserAction → String
action_value save = "SAVE"
action_value report = "REPORT"
action_value vote = "VOTE"
action_value unvote = "UNVOTE"
action_value sub = "SUB"
action_value unsub = "UNSUB"
action_value delete = "DELETE"
action_value create = "CREATE"

unfoldable pub create_intent_flag : String → UserAction → String → String → String
unfolding join_names action_value
create_intent_flag entity action user_identifier resource_identifier =
    join_names (entity ∷ action_value action ∷ user_identifier ∷ resource_identifier ∷ [])

unfoldable pub derive_cache_key : String → ℤ → String
unfolding join_names str_of_int
derive_cache_key resource_name identifier = join_names (resource_name ∷ str_of_int identifier ∷ [])

unfoldable pub derive_hashmap_name : String → String → String
unfolding join_names
derive_hashmap_name resource_name field = join_names (resource_name ∷ field ∷ [])

-- What GET answers for a key: a text from a client with `decode_responses`, bytes from another.
pub data Answer : Type 0 where
  decoded encoded : String → Answer

-- The calls of the client: `lock_and_get` is the pipeline of `set(lock, 1, nx=True, px=…)` and
-- `get(intent)`, `get_both` that of two calls of `get`.
pub record IntentClient (W : Type 0) : Type 0 where
  pub lock_and_get : String → String → Action W (Bool × Option Answer)
  pub get_both : String → String → Action W (Option Answer × Option Answer)
  pub delete : String → Action W (Unit {0})
  pub set_ex : String → String → ℕ → Action W (Unit {0})

-- `name.split(":")[0]`
unfoldable pub first_name : String → String
first_name String.[] = ""
first_name (String.◌∷◌ c cs) = if code c == b':' then "" else String.◌∷◌ c (first_name cs)

-- `not s` for a text or for bytes
unfoldable pub is_empty : String → Bool
is_empty String.[] = true
is_empty (String.◌∷◌ c cs) = false

-- `not answer`
unfoldable pub is_falsy : Option Answer → Bool
unfolding is_empty
is_falsy none = true
is_falsy (some (decoded s)) = is_empty s
is_falsy (some (encoded s)) = is_empty s

-- `intent.split(NAME_SEPERATOR)[0]`: bytes are not split at a text, and None is not split
unfoldable pub split_intent : Option Answer → Result String
unfolding first_name
split_intent none = err attribute_error
split_intent (some (decoded s)) = ok (first_name s)
split_intent (some (encoded s)) = err type_error

-- `conflicting_intent == intent_value`
unfoldable pub conflicts : Option IntentFlag → String → Bool
unfolding intent_flag_value
conflicts none value = false
conflicts (some flag) value = str_eq (intent_flag_value flag) value

-- `IntentFlag(value) if value else None`
unfoldable pub intent_flag_of : String → Result (Option IntentFlag)
unfolding is_empty intent_flag_value
intent_flag_of value =
    if is_empty value
    then ok none
    else if str_eq value (intent_flag_value resource_creation_pending_flag)
    then ok (some resource_creation_pending_flag)
    else if str_eq value (intent_flag_value resource_creation_pending_alt_flag)
    then ok (some resource_creation_pending_alt_flag)
    else if str_eq value (intent_flag_value resource_deletion_pending_flag)
    then ok (some resource_deletion_pending_flag)
    else err value_error

module _ {W : Type 0} (client : IntentClient W) where
  -- the return statement of `fetch_indicators`
  unfoldable pub indicators :
      Option Answer × Option Answer → Result (Option Answer × Option IntentFlag)
  unfolding split_intent intent_flag_of
  indicators (lock, intent) =
      Result.◌>>=◌ (split_intent intent)
        λ value. Result.◌>>=◌ (intent_flag_of value) λ flag. ok (lock, flag)

  unfoldable pub fetch_indicators :
      String → String → String → UserAction → Action W (Option Answer × Option IntentFlag)
  unfolding create_intent_flag derive_lock_key action_value indicators
  fetch_indicators user_identifier resource_identifier resource_name action =
      client.get_both
        (derive_lock_key
          (resource_name ∷ action_value action ∷ user_identifier ∷ resource_identifier ∷ []))
        (create_intent_flag resource_name action user_identifier resource_identifier)
      >>= λ found. lift (indicators found)

  -- `set_intent` with its `ttl` or TTL_STRONGEST
  unfoldable pub set_intent :
      String → String → String → String → UserAction → IntentFlag → ℕ → Action W (Unit {0})
  unfolding create_intent_flag join_names intent_flag_value
  set_intent intent_id user_identifier resource_identifier resource_name action intent_flag ttl =
      client.set_ex (create_intent_flag resource_name action user_identifier resource_identifier)
        (join_names (intent_flag_value intent_flag ∷ intent_id ∷ [])) ttl

  module _ {A : Type 0} (conflicting : Option IntentFlag) (body : Option String → Action W A) where
    -- what follows the `yield None` once the body has returned: the generator goes on, and
    -- raises, or yields again, which the context manager refuses
    unfoldable pub after_first_yield : String → Action W A
    unfolding conflicts
    after_first_yield value =
        if conflicts conflicting value then raise conflicting_intent else raise runtime_error

    -- the second `yield`
    unfoldable pub yield_intent : String → Action W A
    unfolding conflicts
    yield_intent value =
        if conflicts conflicting value then raise conflicting_intent else body (some value)

    -- from `if not intent` on, with `body` at each `yield`
    unfoldable pub guarded : Option Answer → Action W A
    unfolding is_falsy split_intent after_first_yield yield_intent
    guarded intent =
        if is_falsy intent
        then body none >>= (λ _. lift (split_intent intent) >>= after_first_yield)
        else lift (split_intent intent) >>= yield_intent

    -- `if not lock_set`
    unfoldable pub if_locked : Bool × Option Answer → Action W A
    unfolding guarded
    if_locked (true, intent) = guarded intent
    if_locked (false, intent) = raise duplicate_request

    unfoldable pub guard_action : ℤ → String → String → UserAction → Action W A
    unfolding create_intent_flag derive_lock_key action_value str_of_int if_locked
    guard_action user_identifier resource_identifier resource_name action =
        let lock_name = derive_lock_key (
          resource_name
          ∷ action_value action
          ∷ str_of_int user_identifier
          ∷ resource_identifier
          ∷ []) in
        finally
          (client.lock_and_get lock_name (
              create_intent_flag resource_name action (str_of_int user_identifier)
                resource_identifier)
            >>= if_locked)
          (client.delete lock_name)
