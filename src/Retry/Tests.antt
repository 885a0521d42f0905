-- ===== src/Retry/Tests.antt =====
-- Tests of the retried calls, on a server that is down for a number of calls.
use tenjin.Common.{ℕ, zero, suc, ◌+◌, ◌≤◌, ◌<◌, ◌≡◌, refl, none, some, arith}
use tenjin.Common.Action.{Action, ok, err, network}
use tenjin.Retry.{Loop, RetryPolicy, execute_with_redis_retries, effective_attempts}
use tenjin.Retry.Attempts.{Recovers, calls-le-attempts, recovery}

abbrev policy : RetryPolicy
policy = record {
  max_retries = 3;
  maximum_backoff_interval = 8;
  base_backoff_interval = 1;
  backoff_exponential = 2;
}

abbrev no_retries : RetryPolicy
no_retries = record policy { max_retries = 0 }

abbrev quiet : Loop ℕ
quiet = record { sleep_up_to = λ n w. w }

-- a call of a server that is down for as many calls as the world says
abbrev ping : Action ℕ ℕ
ping zero = (ok 7, 0)
ping (suc n) = (err network, n)

-- a call that counts itself and raises
abbrev knock : Action ℕ ℕ
knock w = (err network, w + 1)

abbrev server : Recovers quiet ping (λ w. w)
server = record {
  fails = λ n w h. (n, rw h refl, refl);
  works = λ w h. (7, 0, rw h refl);
  rests = λ n w. omega arith;
}

two_lt_attempts : 2 < effective_attempts policy none
unfolding effective_attempts
two_lt_attempts = omega arith

some_attempts : 0 < effective_attempts policy none
unfolding effective_attempts
some_attempts = omega arith

calls-le-attempts_example :
    (execute_with_redis_retries quiet policy knock none 0).1 ≤ 0 + effective_attempts policy none
calls-le-attempts_example =
    calls-le-attempts quiet policy knock (λ w. w) (λ w. refl) (λ n w. refl) none 0

recovery_example :
    (a : ℕ) × (w' : ℕ) × (execute_with_redis_retries quiet policy ping none 2 ≡ (ok (some a), w'))
recovery_example = recovery quiet policy ping (λ w. w) server none 2 two_lt_attempts
