-- ===== src/Retry/Attempts.antt =====
-- How often a retried call is made, when it succeeds, and when it is not made at all.
use tenjin.Common.{ℕ, zero, suc, ◌+◌, ◌≤◌, ◌<◌, ◌≡◌, ◌≢◌, refl, Option, none, some, arith}
use tenjin.Common.Action.{Action, Error, Result, ok, err, network}
use tenjin.Retry.{
  Loop, RetryPolicy, redis_rounds, effective_attempts, handle_redis, exponential_jittered_backoff,
  execute_with_redis_retries,
}

-- A server that is down for the next `down w` calls: they raise a network error, and the first
-- call after them returns. Other code that runs while this one sleeps does not bring it down again.
pub record Recovers {W A : Type 0} (loop : Loop W) (coro : Action W A) (down : W → ℕ) : Type 0 where
  pub fails :
      (n : ℕ) (w : W) → down w ≡ suc n → (w' : W) × (coro w ≡ (err network, w')) × (down w' ≡ n)
  pub works : (w : W) → down w ≡ 0 → (a : A) × (w' : W) × (coro w ≡ (ok a, w'))
  pub rests : (n : ℕ) (w : W) → down (loop.sleep_up_to n w) ≤ down w

module _ {W A : Type 0} (loop : Loop W) (policy : RetryPolicy) (coro : Action W A) where
  -- what follows a network error
  abbrev next_round : ℕ → ℕ → Error → Action W (Option A)
  next_round rounds attempt e w =
      redis_rounds loop policy coro rounds (attempt + 1) (some e)
        (exponential_jittered_backoff loop policy attempt w)

  -- `calls` counts the calls of the coroutine; sleeping makes none.
  module _ (calls : W → ℕ) (once : (w : W) → calls (coro w).1 ≡ calls w + 1)
      (rests : (n : ℕ) (w : W) → calls (loop.sleep_up_to n w) ≡ calls w) where
    backoff_calls : (n : ℕ) (w : W) → calls (exponential_jittered_backoff loop policy n w) ≡ calls w
    unfolding exponential_jittered_backoff
    backoff_calls n w = rests _ w

    handle_calls :
        (again : Error → W → Result (Option A) × W) (bound : ℕ) (o : Result A × W)
        → calls o.1 ≤ bound
        → ((e : Error) (w : W) → calls w ≡ calls o.1 → calls (again e w).1 ≤ bound)
        → calls (handle_redis again o).1 ≤ bound
    unfolding handle_redis
    handle_calls again bound (ok a, w) h k = h
    handle_calls again bound (err network, w) h k = k network w refl
    handle_calls again bound (err _, w) h k = h

    rounds_calls :
        (rounds attempt : ℕ) (e : Option Error) (w : W)
        → calls (redis_rounds loop policy coro rounds attempt e w).1 ≤ calls w + rounds
    unfolding redis_rounds
    rounds_calls zero attempt e w = omega arith
    rounds_calls (suc rounds) attempt e w =
        handle_calls (next_round rounds attempt) (calls w + suc rounds) (coro w)
          (omega (arith, once w))
          (λ x w' h. omega (
            arith,
            once w,
            h,
            backoff_calls attempt w',
            rounds_calls rounds (attempt + 1) (some x)
                (exponential_jittered_backoff loop policy attempt w'),
          ))

    -- The coroutine is called at most as often as there are attempts.
    pub calls-le-attempts :
        (attempts : Option ℕ) (w : W)
        → calls (execute_with_redis_retries loop policy coro attempts w).1
          ≤ calls w + effective_attempts policy attempts
    unfolding execute_with_redis_retries
    calls-le-attempts attempts w = rounds_calls (effective_attempts policy attempts) 1 none w

  module _ (down : W → ℕ) (server : Recovers loop coro down) where
    backoff_down : (n : ℕ) (w : W) → down (exponential_jittered_backoff loop policy n w) ≤ down w
    unfolding exponential_jittered_backoff
    backoff_down n w = server.rests _ w

    rounds_recover :
        (rounds attempt : ℕ) (e : Option Error) (w : W) (d : ℕ)
        → down w ≡ d
        → d < rounds
        → (a : A) × (w' : W) × (redis_rounds loop policy coro rounds attempt e w
            ≡ (ok (some a), w'))
    unfolding redis_rounds handle_redis
    rounds_recover zero attempt e w d eq h = absurd (omega arith)
    rounds_recover (suc rounds) attempt e w zero eq h =
        let (a, w', returned) = server.works w eq in (a, w', rw returned)
    rounds_recover (suc rounds) attempt e w (suc d) eq h =
        let (w', raised, left) = server.fails d w eq in
        rw raised (
          rounds_recover rounds (attempt + 1) (some network)
            (exponential_jittered_backoff loop policy attempt w')
            (down (exponential_jittered_backoff loop policy attempt w')) refl
            (omega (arith, backoff_down attempt w', left)))

    -- A server that comes back before the attempts are used up is reached: the call returns.
    pub recovery :
        (attempts : Option ℕ) (w : W)
        → down w < effective_attempts policy attempts
        → (a : A) × (w' : W) × (execute_with_redis_retries loop policy coro attempts w
            ≡ (ok (some a), w'))
    unfolding execute_with_redis_retries
    recovery attempts w h =
        rounds_recover (effective_attempts policy attempts) 1 none w (down w) refl h

  handle_ne_none :
      (again : Error → W → Result (Option A) × W) (o : Result A × W)
      → ((e : Error) (w : W) → (again e w).0 ≢ ok none)
      → (handle_redis again o).0 ≢ ok none
  unfolding handle_redis
  handle_ne_none again (ok a, w) h = cc
  handle_ne_none again (err network, w) h = h network w
  handle_ne_none again (err _, w) h = cc

  rounds_ne_none :
      (rounds attempt : ℕ) (e : Error) (w : W)
      → (redis_rounds loop policy coro rounds attempt (some e) w).0 ≢ ok none
  unfolding redis_rounds
  rounds_ne_none zero attempt e w = cc
  rounds_ne_none (suc rounds) attempt e w =
      handle_ne_none (next_round rounds attempt) (coro w) (λ x w'.
        rounds_ne_none rounds (attempt + 1) x (exponential_jittered_backoff loop policy attempt w'))

  first_ne_none :
      (rounds : ℕ) (w : W)
      → 0 < rounds
      → (redis_rounds loop policy coro rounds 1 none w).0 ≢ ok none
  unfolding redis_rounds
  first_ne_none zero w h = absurd (omega arith)
  first_ne_none (suc rounds) w h =
      handle_ne_none (next_round rounds 1) (coro w)
        (λ x w'. rounds_ne_none rounds (1 + 1) x (exponential_jittered_backoff loop policy 1 w'))

  -- With at least one attempt the call never falls through with neither result nor exception.
  pub execute-ne-none :
      (attempts : Option ℕ) (w : W)
      → 0 < effective_attempts policy attempts
      → (execute_with_redis_retries loop policy coro attempts w).0 ≢ ok none
  unfolding execute_with_redis_retries
  execute-ne-none attempts w h = first_ne_none (effective_attempts policy attempts) w h

  -- With a MAX_RETRIES of zero and no other count given, nothing is called and nothing is raised.
  pub execute_zero :
      (w : W)
      → policy.max_retries ≡ 0
      → (execute_with_redis_retries loop policy coro none w ≡ (ok none, w))
        × (execute_with_redis_retries loop policy coro (some 0) w ≡ (ok none, w))
  unfolding execute_with_redis_retries redis_rounds effective_attempts
  execute_zero w h = (rw h, rw h)
