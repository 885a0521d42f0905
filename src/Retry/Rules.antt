-- ===== src/Retry/Rules.antt =====
-- How a retried call ends, in terms of what one call of the coroutine does.
use tenjin.Common.{ℕ, zero, suc, ◌+◌, Option, none, some}
use tenjin.Common.Action.{Action, Error, Result, ok, err, network, transient}
use tenjin.Retry.{
  Loop, RetryPolicy, redis_rounds, effective_attempts, handle_redis, handle_database,
  handle_rolled_back, exponential_jittered_backoff, execute_with_redis_retries, db_rounds,
  db_execute_with_retries,
}

-- One call: `Q` of its result if it returns, `P` if it raises.
abbrev pub Ends : {W A : Type 0} → (W → Type 0) → (A → W → Type 0) → Result A × W → Type 0
Ends P Q (ok a, w) = Q a w
Ends P Q (err e, w) = P w

-- A retried call: `P` also where it returns without a result.
abbrev pub EndsRetried :
    {W A : Type 0} → (W → Type 0) → (A → W → Type 0) → Result (Option A) × W → Type 0
EndsRetried P Q (ok (some a), w) = Q a w
EndsRetried P Q (ok none, w) = P w
EndsRetried P Q (err e, w) = P w

module _ {W A : Type 0} (P : W → Type 0) (Q : A → W → Type 0) where
  handle_redis-Ends :
      (again : Error → W → Result (Option A) × W)
      → ((e : Error) (w : W) → P w → EndsRetried P Q (again e w))
      → (o : Result A × W) → Ends P Q o
      → EndsRetried P Q (handle_redis again o)
  unfolding handle_redis
  handle_redis-Ends again h (ok a, w) q = q
  handle_redis-Ends again h (err network, w) q = h network w q
  handle_redis-Ends again h (err _, w) q = q

  handle_rolled_back-Ends :
      (again : Error → W → Result (Option A) × W)
      → ((e : Error) (w : W) → P w → EndsRetried P Q (again e w))
      → (e : Error) (o : Result (Unit {0}) × W) → P o.1
      → EndsRetried P Q (handle_rolled_back again e o)
  unfolding handle_rolled_back
  handle_rolled_back-Ends again h e (err f, w) q = q
  handle_rolled_back-Ends again h transient (ok x, w) q = h transient w q
  handle_rolled_back-Ends again h _ (ok x, w) q = q

  handle_database-Ends :
      (again : Error → W → Result (Option A) × W)
      → ((e : Error) (w : W) → P w → EndsRetried P Q (again e w))
      → (D : W → Type 0) (rollback : Action W (Unit {0})) → ((w : W) → D w → P (rollback w).1)
      → (o : Result A × W) → Ends D Q o
      → EndsRetried P Q (handle_database again rollback o)
  unfolding handle_database
  handle_database-Ends again h D rollback undoes (ok a, w) q = q
  handle_database-Ends again h D rollback undoes (err e, w) q =
      handle_rolled_back-Ends again h e (rollback w) (undoes w q)

  module _ (loop : Loop W) (policy : RetryPolicy)
      (sleeps : (n : ℕ) (w : W) → P w → P (loop.sleep_up_to n w)) (coro : Action W A) where
    backoff_keeps : (n : ℕ) (w : W) → P w → P (exponential_jittered_backoff loop policy n w)
    unfolding exponential_jittered_backoff
    backoff_keeps n w p = sleeps _ w p

    redis_rounds-Ends :
        ((w : W) → P w → Ends P Q (coro w))
        → (rounds attempt : ℕ) (e : Option Error) (w : W) → P w
        → EndsRetried P Q (redis_rounds loop policy coro rounds attempt e w)
    unfolding redis_rounds
    redis_rounds-Ends keeps zero attempt none w p = p
    redis_rounds-Ends keeps zero attempt (some e) w p = p
    redis_rounds-Ends keeps (suc rounds) attempt e w p =
        handle_redis-Ends
          (λ x w'.
            redis_rounds loop policy coro rounds (attempt + 1) (some x)
              (exponential_jittered_backoff loop policy attempt w'))
          (λ x w' q.
            redis_rounds-Ends keeps rounds (attempt + 1) (some x)
              (exponential_jittered_backoff loop policy attempt w') (backoff_keeps attempt w' q))
          (coro w) (keeps w p)

    -- What a raising call leaves is what the retried call leaves if it raises, and what a
    -- returning call gives is what the retried call gives.
    pub execute_with_redis_retries-Ends :
        ((w : W) → P w → Ends P Q (coro w))
        → (attempts : Option ℕ) (w : W) → P w
        → EndsRetried P Q (execute_with_redis_retries loop policy coro attempts w)
    unfolding execute_with_redis_retries
    execute_with_redis_retries-Ends keeps attempts w p =
        redis_rounds-Ends keeps (effective_attempts policy attempts) 1 none w p

    module _ (D : W → Type 0) (rollback : Action W (Unit {0}))
        (undoes : (w : W) → D w → P (rollback w).1)
        (keeps : (w : W) → P w → Ends D Q (coro w)) where
      db_rounds-Ends :
          (rounds attempt : ℕ) (e : Option Error) (w : W)
          → P w
          → EndsRetried P Q (db_rounds loop policy rollback coro rounds attempt e w)
      unfolding db_rounds
      db_rounds-Ends zero attempt none w p = p
      db_rounds-Ends zero attempt (some e) w p = p
      db_rounds-Ends (suc rounds) attempt e w p =
          handle_database-Ends
            (λ x w'.
              db_rounds loop policy rollback coro rounds (attempt + 1) (some x)
                (exponential_jittered_backoff loop policy attempt w'))
            (λ x w' q.
              db_rounds-Ends rounds (attempt + 1) (some x)
                (exponential_jittered_backoff loop policy attempt w') (backoff_keeps attempt w' q))
            D rollback undoes (coro w) (keeps w p)

      -- A database call that raises may leave anything from which a rollback returns to `P`.
      pub db_execute_with_retries-Ends :
          (attempts : Option ℕ) (w : W)
          → P w
          → EndsRetried P Q (db_execute_with_retries loop policy rollback coro attempts w)
      unfolding db_execute_with_retries
      db_execute_with_retries-Ends attempts w p =
          db_rounds-Ends (effective_attempts policy attempts) 1 none w p
