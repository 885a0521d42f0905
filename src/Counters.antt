-- ===== src/Counters.antt =====
-- resource_database_workers: the counters that the resource server raises in Redis are moved to the
-- database (tasks/counters.py, utils/strings.py, workers/database/counters.py,
-- workers/redis/counters.py and workers/redis/cache.py).
pub mod Names
pub mod Flush
pub mod Loss
mod Tests
use tenjin.Common.{ℕ, Bool, Option, String, List}
use tenjin.Common.Action.{Action}
use tenjin.Common.Dict.{Dict}
use tenjin.Common.Int.{ℤ}

-- The calls of the two clients of Redis and of the connection. `take` is the transaction of HGETALL
-- and DELETE, `blpop` gives a list's name and an element, `retry` is the transaction of
-- `dispatch_to_retrier`, and `reflect` that of `reflect_processed_counters`, on the other client.
-- `update` executes the statement of prepare_updation_sql for a table and a column, and `commit` is
-- called inside a transaction block.
pub record CounterStore (W : Type 0) : Type 0 where
  pub set_lock : String → Action W Bool
  pub delete : String → Action W (Unit {0})
  pub take : String → Action W (Dict String)
  pub blpop : Action W (Option (String × String))
  pub sleep : Action W (Unit {0})
  pub retry : String → Dict ℤ → Action W (Unit {0})
  pub reflect : String → Dict ℤ → Action W (Unit {0})
  pub begin : Action W (Unit {0})
  pub update : String → String → List (ℤ × ℤ) → Action W (Unit {0})
  pub commit : Action W (Unit {0})
  pub rollback : Action W (Unit {0})
  -- `_generate_batch_identifier()`
  pub identifier : Action W String
