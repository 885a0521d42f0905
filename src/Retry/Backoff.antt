-- ===== src/Retry/Backoff.antt =====
-- The interval of the exponential backoff.
use native.Mathlib.Nat.{pow-le-pow_right}
use tenjin.Common.{ℕ, ◌+◌, ◌*◌, ◌^◌, ◌≤◌, ◌<◌, arith}
use tenjin.Retry.{calculate_exponential_backoff_time}

pow-step : (k n : ℕ) → 0 < k → k ^ n ≤ k ^ (n + 1)
pow-step k n h = pow-le-pow_right h (omega arith)

mul_mono : (b m n : ℕ) → m ≤ n → b * m ≤ b * n
mul_mono b m n h = grind arith

-- The interval is at most the cap, and it does not shrink from one attempt to the next.
pub backoff_bounds :
    (cap base attempt exponential : ℕ)
    → 0 < exponential
    → (calculate_exponential_backoff_time cap base attempt exponential ≤ cap)
      × (calculate_exponential_backoff_time cap base attempt exponential
          ≤ calculate_exponential_backoff_time cap base (attempt + 1) exponential)
unfolding calculate_exponential_backoff_time
backoff_bounds cap base attempt exponential h = grind (
  arith,
  pow-step exponential attempt h,
  mul_mono base (exponential ^ attempt) (exponential ^ (attempt + 1)),
)
