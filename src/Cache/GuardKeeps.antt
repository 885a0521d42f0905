-- ===== src/Cache/GuardKeeps.antt =====
-- A guard keeps what its calls and its body keep, on all of its branches.
use tenjin.Common.Keeps.{Keeps, bind-Keeps, raise-Keeps, lift-Keeps, if-Keeps, finally-Keeps}
use tenjin.Common.{Bool, true, false, Option, none, some, String, [], ◌∷◌}
use tenjin.Common.Action.{
  Action, duplicate_request, conflicting_intent, runtime_error, raise, lift, ◌>>=◌,
}
use tenjin.Common.Int.{ℤ, str_of_int}
use tenjin.Events.Names.{IntentFlag}
use tenjin.Cache.{derive_lock_key}
use tenjin.Cache.Guard.{
  UserAction, action_value, create_intent_flag, Answer, IntentClient, is_falsy, split_intent,
  conflicts, after_first_yield, yield_intent, guarded, if_locked, guard_action,
}

module _ {W A : Type 0} (P : W → Type 0) (client : IntentClient W) (conflicting : Option IntentFlag)
    (body : Option String → Action W A) (locks : (l i : String) → Keeps P (client.lock_and_get l i))
    (unlocks : (l : String) → Keeps P (client.delete l))
    (inner : (latest : Option String) → Keeps P (body latest)) where
  after_first_yield-Keeps :
      (value : String) → Keeps P (after_first_yield client conflicting body value)
  unfolding after_first_yield
  after_first_yield-Keeps value =
      if-Keeps P (conflicts conflicting value) (raise conflicting_intent) (raise runtime_error)
        (raise-Keeps P A conflicting_intent) (raise-Keeps P A runtime_error)

  yield_intent-Keeps : (value : String) → Keeps P (yield_intent client conflicting body value)
  unfolding yield_intent
  yield_intent-Keeps value =
      if-Keeps P (conflicts conflicting value) (raise conflicting_intent) (body (some value))
        (raise-Keeps P A conflicting_intent) (inner (some value))

  guarded-Keeps : (intent : Option Answer) → Keeps P (guarded client conflicting body intent)
  unfolding guarded
  guarded-Keeps intent =
      if-Keeps P (is_falsy intent)
        (body none >>= λ _. split >>= after_first_yield client conflicting body)
        (split >>= yield_intent client conflicting body)
        (bind-Keeps P (body none) (λ _. split >>= after_first_yield client conflicting body)
          (inner none)
          (λ _.
            bind-Keeps P split (after_first_yield client conflicting body)
              (lift-Keeps P (split_intent intent)) after_first_yield-Keeps))
        (bind-Keeps P split (yield_intent client conflicting body)
          (lift-Keeps P (split_intent intent)) yield_intent-Keeps)
    where
      split : Action W String
      split = lift (split_intent intent)

  if_locked-Keeps :
      (found : Bool × Option Answer) → Keeps P (if_locked client conflicting body found)
  unfolding if_locked
  if_locked-Keeps (true, intent) = guarded-Keeps intent
  if_locked-Keeps (false, intent) = raise-Keeps P A duplicate_request

  pub guard_action-Keeps :
      (user : ℤ) (resource_id resource_name : String) (action : UserAction)
      → Keeps P (guard_action client conflicting body user resource_id resource_name action)
  unfolding guard_action
  guard_action-Keeps user resource_id resource_name action =
      finally-Keeps P (client.delete lock)
        (client.lock_and_get lock intent >>= if_locked client conflicting body)
        (bind-Keeps P (client.lock_and_get lock intent) (if_locked client conflicting body)
          (locks lock intent) if_locked-Keeps)
        (unlocks lock)
    where
      lock : String
      lock =
          derive_lock_key (resource_name ∷ action_value action ∷ str_of_int user ∷ resource_id ∷ [])

      intent : String
      intent = create_intent_flag resource_name action (str_of_int user) resource_id
