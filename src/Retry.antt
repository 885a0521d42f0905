-- ===== src/Retry.antt =====
-- resource_auxillary/event_processing/{qos,db_qos}.py and resource_auxillary/coordination.py:
-- calls that are retried with exponential backoff.
pub mod Rules
pub mod Attempts
pub mod Backoff
mod Tests
use tenjin.Common.{
  ℕ, zero, suc, ◌+◌, ◌*◌, ◌^◌, Bool, true, false, Option, none, some, least, if◌then◌else◌,
}
use tenjin.Common.Action.{Action, Error, network, redis, transient, Result, ok, err}

-- SupportsExponentialJitteredRetryPolicy, in whole units of time.
pub record RetryPolicy : Type 0 where
  pub max_retries : ℕ
  pub maximum_backoff_interval : ℕ
  pub base_backoff_interval : ℕ
  pub backoff_exponential : ℕ

unfoldable pub calculate_exponential_backoff_time : ℕ → ℕ → ℕ → ℕ → ℕ
calculate_exponential_backoff_time cap base attempt exponential =
    least cap (base * exponential ^ attempt)

-- What the event loop does for a coroutine that sleeps: `sleep_up_to n` is
-- `asyncio.sleep(random.uniform(0, n))`, which other coroutines may use to run.
pub record Loop (W : Type 0) : Type 0 where
  pub sleep_up_to : ℕ → W → W

-- `attempts = attempts or retry_policy.MAX_RETRIES`
unfoldable pub effective_attempts : RetryPolicy → Option ℕ → ℕ
effective_attempts policy none = policy.max_retries
effective_attempts policy (some zero) = policy.max_retries
effective_attempts policy (some (suc n)) = suc n

-- `if exception: raise exception`, and Python's `return None` at the end of the function
abbrev pub raise_last : {A : Type 0} → Option Error → Result (Option A)
raise_last none = ok none
raise_last (some e) = err e

-- What becomes of a call under the `except` clauses: the result is returned, the exception is
-- raised (`break`, then `raise exception`), or `again` goes on with the next attempt.
module _ {W A : Type 0} (again : Error → W → Result (Option A) × W) where
  -- `except RedisError`, `except Exception`
  unfoldable pub handle_redis : Result A × W → Result (Option A) × W
  handle_redis (ok a, w) = (ok (some a), w)
  handle_redis (err network, w) = again network w
  handle_redis (err e, w) = (err e, w)

  -- `except POTENTIAL_TRANSIENT_ERRORS`, `except Exception`; both roll back first
  unfoldable pub handle_rolled_back : Error → Result (Unit {0}) × W → Result (Option A) × W
  handle_rolled_back e (err f, w) = (err f, w)
  handle_rolled_back transient (ok _, w) = again transient w
  handle_rolled_back e (ok _, w) = (err e, w)

  unfoldable pub handle_database : Action W (Unit {0}) → Result A × W → Result (Option A) × W
  unfolding handle_rolled_back
  handle_database rollback (ok a, w) = (ok (some a), w)
  handle_database rollback (err e, w) = handle_rolled_back e (rollback w)

module _ {W : Type 0} (loop : Loop W) (policy : RetryPolicy) where
  unfoldable pub exponential_jittered_backoff : ℕ → W → W
  unfolding calculate_exponential_backoff_time
  exponential_jittered_backoff attempt w =
      loop.sleep_up_to
        (calculate_exponential_backoff_time policy.maximum_backoff_interval
          policy.base_backoff_interval attempt policy.backoff_exponential)
        w

  module _ {A : Type 0} where
    -- `for _attempt in range(1, attempts + 1)`: the rounds that are left, the number of this one
    -- and the exception caught last
    unfoldable pub redis_rounds : Action W A → ℕ → ℕ → Option Error → Action W (Option A)
    unfolding handle_redis
    redis_rounds redis_coroutine zero attempt exception w = (raise_last exception, w)
    redis_rounds redis_coroutine (suc rounds) attempt exception w =
        handle_redis
          (λ e w'.
            redis_rounds redis_coroutine rounds (attempt + 1) (some e)
              (exponential_jittered_backoff attempt w'))
          (redis_coroutine w)

    unfoldable pub execute_with_redis_retries : Action W A → Option ℕ → Action W (Option A)
    unfolding redis_rounds effective_attempts
    execute_with_redis_retries redis_coroutine attempts =
        redis_rounds redis_coroutine (effective_attempts policy attempts) 1 none

    -- `rollback` is `connection.rollback()`, which may raise itself
    unfoldable pub db_rounds :
        Action W (Unit {0}) → Action W A → ℕ → ℕ → Option Error → Action W (Option A)
    unfolding handle_database
    db_rounds rollback db_coroutine zero attempt exception w = (raise_last exception, w)
    db_rounds rollback db_coroutine (suc rounds) attempt exception w =
        handle_database
          (λ e w'.
            db_rounds rollback db_coroutine rounds (attempt + 1) (some e)
              (exponential_jittered_backoff attempt w'))
          rollback (db_coroutine w)

    unfoldable pub db_execute_with_retries :
        Action W (Unit {0}) → Action W A → Option ℕ → Action W (Option A)
    unfolding db_rounds effective_attempts
    db_execute_with_retries rollback db_coroutine attempts =
        db_rounds rollback db_coroutine (effective_attempts policy attempts) 1 none
