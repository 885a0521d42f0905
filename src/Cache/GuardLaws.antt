-- ===== src/Cache/GuardLaws.antt =====
-- What the guard of an action does with its lock, and after its body.
use tenjin.Common.{
  ◌≡◌, ◌≢◌, ap, ◌∙◌, Bool, true, false, if◌then◌else◌, Option, none, some, String, [], ◌∷◌,
}
use tenjin.Common.Action.{
  Action, Error, ok, err, type_error, attribute_error, duplicate_request, lift, bind-ok,
  bind-returns, finally-done, finally-returns, ◌>>=◌,
}
use tenjin.Common.Int.{ℤ, str_of_int}
use tenjin.Events.Names.{IntentFlag}
use tenjin.Cache.{derive_lock_key}
use tenjin.Cache.Guard.{
  UserAction, action_value, create_intent_flag, Answer, decoded, encoded, IntentClient, is_empty,
  is_falsy, split_intent, after_first_yield, yield_intent, guarded, if_locked, guard_action,
}

module _ {W A : Type 0} (client : IntentClient W) where
  -- the calls of one run of the guard, with a body
  module _ (conflicting : Option IntentFlag) (body : Option String → Action W A) (user : ℤ)
      (resource_id resource_name : String) (action : UserAction) where
    abbrev pub lock_name : String
    lock_name =
        derive_lock_key (resource_name ∷ action_value action ∷ str_of_int user ∷ resource_id ∷ [])

    abbrev pub intent_name : String
    intent_name = create_intent_flag resource_name action (str_of_int user) resource_id

    abbrev inside : Action W A
    inside = client.lock_and_get lock_name intent_name >>= if_locked client conflicting body

    abbrev guarded_action : Action W A
    guarded_action = guard_action client conflicting body user resource_id resource_name action

    after : A → Action W A
    after _ = lift (split_intent none) >>= after_first_yield client conflicting body

    -- An action without an intent: the body's effects stay, the lock is deleted, and then
    -- AttributeError is raised in place of the body's result.
    pub guard_action_first_raises :
        (w w₁ w₂ w₃ : W) (a : A)
        → client.lock_and_get lock_name intent_name w ≡ (ok (true, none), w₁)
        → body none w₁ ≡ (ok a, w₂)
        → client.delete lock_name w₂ ≡ (ok tt, w₃)
        → guarded_action w ≡ (err attribute_error, w₃)
    unfolding guard_action if_locked guarded is_falsy split_intent after
    guard_action_first_raises w w₁ w₂ w₃ a e f g =
        finally-done (client.delete lock_name) inside w (err attribute_error) w₂ w₃
          (bind-ok (client.lock_and_get lock_name intent_name) (if_locked client conflicting body) w
              (true, none) w₁ e
            ∙ bind-ok (body none) after w₁ a w₂ f)
          g

    -- The lock of another request is deleted by the request that it refuses.
    pub guard_action_refuses :
        (w w₁ w₂ : W) (intent : Option Answer)
        → client.lock_and_get lock_name intent_name w ≡ (ok (false, intent), w₁)
        → client.delete lock_name w₁ ≡ (ok tt, w₂)
        → guarded_action w ≡ (err duplicate_request, w₂)
    unfolding guard_action if_locked
    guard_action_refuses w w₁ w₂ intent e g =
        finally-done (client.delete lock_name) inside w (err duplicate_request) w₁ w₂
          (bind-ok (client.lock_and_get lock_name intent_name) (if_locked client conflicting body) w
            (false, intent) w₁ e)
          g

-- redis-py's documentation: without `decode_responses`, which dependencies.py does not set, the
-- answers are bytes.
pub record AnswersBytes {W : Type 0} (client : IntentClient W) : Type 0 where
  pub in_bytes :
      (lock intent s : String) (b : Bool) (w v : W)
      → client.lock_and_get lock intent w ≢ (ok (b, some (decoded s)), v)

module _ {W A : Type 0} (client : IntentClient W) (plain : AnswersBytes client)
    (conflicting : Option IntentFlag) (body : Option String → Action W A) where
  -- the part after the body, for an answer that is not split
  unsplit : Error → A → Action W A
  unsplit e _ = lift (err e) >>= after_first_yield client conflicting body

  unsplit-raises :
      (e : Error) (b : Bool) (v v' : W) (a : A)
      → (if b
            then body none >>= unsplit e
            else lift (err e) >>= yield_intent client conflicting body)
          v
        ≢ (ok a, v')
  unfolding unsplit
  unsplit-raises e true v v' a h =
      let (x, u, f, k) = bind-returns (body none) (unsplit e) v a v' h in cc
  unsplit-raises e false v v' a h = cc

  if_locked-raises :
      (lock intent : String) (b : Bool) (found : Option Answer) (w v v' : W) (a : A)
      → client.lock_and_get lock intent w ≡ (ok (b, found), v)
      → if_locked client conflicting body (b, found) v ≢ (ok a, v')
  unfolding if_locked guarded split_intent is_falsy unsplit
  if_locked-raises lock intent false found w v v' a e h = cc
  if_locked-raises lock intent true none w v v' a e h = unsplit-raises attribute_error true v v' a h
  if_locked-raises lock intent true (some (decoded s)) w v v' a e h =
      absurd (plain.in_bytes lock intent s true w v e)
  if_locked-raises lock intent true (some (encoded s)) w v v' a e h =
      unsplit-raises type_error (is_empty s) v v' a h

  module _ (user : ℤ) (resource_id resource_name : String) (action : UserAction) where
    abbrev locks : String
    locks = lock_name client conflicting body user resource_id resource_name action

    abbrev intents : String
    intents = intent_name client conflicting body user resource_id resource_name action

    -- With a client that answers in bytes, no guarded action returns, whatever its body does: it
    -- is refused, or the guard raises after the body, or the body is not run.
    pub guard_action_never_returns :
        (w v : W) (a : A)
        → guard_action client conflicting body user resource_id resource_name action w ≢ (ok a, v)
    unfolding guard_action
    guard_action_never_returns w v a h =
        let inside = client.lock_and_get locks intents >>= if_locked client conflicting body in
        let e = finally-returns (client.delete locks) inside w a v h in
        let (x, u, f, k) =
          bind-returns (client.lock_and_get locks intents) (if_locked client conflicting body) w a
            (inside w).1 (ap (λ r. (r, (inside w).1)) e) in
        if_locked-raises locks intents x.0 x.1 w u (inside w).1 a f k
