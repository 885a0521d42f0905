-- ===== src/Counters/Flush.antt =====
-- resource_database_workers/tasks/counters.py: the counters of one group are taken from Redis and
-- written to the database; and the rounds of the two workers.
use tenjin.Common.{
  ℕ, ◌+◌, Bool, true, false, if◌then◌else◌, Option, none, some, String, List, [], ◌∷◌,
}
use tenjin.Common.Dict.{Dict, insert}
use tenjin.Common.Result
use tenjin.Common.Result.{or_raise}
use tenjin.Common.Action.{
  Action, Result, ok, err, transient, database, integrity, value_error, type_error, index_error,
  name_error, raise, lift, pure, done, finally, ◌>>=◌, ◌>>◌,
}
use tenjin.Common.Int.{ℤ, pos, leℤ}
use tenjin.Counters.{CounterStore}
use tenjin.Counters.Names.{
  derive_lock_key, generate_retry_batch_name, extract_batch_metadata, split_names,
}

-- `k, v = key`: a text is unpacked into its characters
unfoldable pub unpack_pair : String → Result (String × String)
unpack_pair String.[] = err value_error
unpack_pair (String.◌∷◌ c String.[]) = err value_error
unpack_pair (String.◌∷◌ c (String.◌∷◌ d String.[])) = ok (String.◌∷◌ c "", String.◌∷◌ d "")
unpack_pair (String.◌∷◌ c (String.◌∷◌ d (String.◌∷◌ e s))) = err value_error

-- `names.split(":")[1]`
unfoldable pub second_name : List String → Result String
second_name (a ∷ b ∷ names) = ok b
second_name _ = err index_error

-- `table, column = counter_group.split(":")[:2]` and `table, column = counter_group.split(":")`
unfoldable pub first_two : List String → Result (String × String)
first_two (table ∷ column ∷ names) = ok (table, column)
first_two _ = err value_error

unfoldable pub just_two : List String → Result (String × String)
just_two (table ∷ column ∷ []) = ok (table, column)
just_two _ = err value_error

-- `int_of_text` is `int` on a text
module _ (int_of_text : String → Result ℤ) where
  -- `{k: int(v) for k, v in raw_counters}`: iterating the dict gives its keys
  unfoldable pub cache_normalize : Dict String → Result (Dict ℤ)
  unfolding unpack_pair
  cache_normalize [] = ok []
  cache_normalize ((key, value) ∷ raw) = Result.◌>>=◌ (unpack_pair key) λ pair.
      Result.◌>>=◌ (int_of_text pair.1)
        λ n. Result.◌>>=◌ (cache_normalize raw) λ rest. ok (insert pair.0 n rest)

  unfoldable pub database_normalize : Dict ℤ → Result (List (ℤ × ℤ))
  unfolding second_name split_names
  database_normalize [] = ok []
  database_normalize ((key, value) ∷ counters) =
      Result.◌>>=◌ (second_name (split_names key)) λ part.
        Result.◌>>=◌ (int_of_text part)
          λ n. Result.◌>>=◌ (database_normalize counters) λ rest. ok ((n, value) ∷ rest)

module _ {W : Type 0} (store : CounterStore W) where
  -- the `except` clauses of `flush_counter_updates`: a RecoverableDatabaseException is `transient`
  -- here, and an UnrecoverableDatabaseException `database`
  unfoldable pub as_flush_error : Result (Unit {0}) × W → Result (Unit {0}) × W
  as_flush_error (err integrity, w) = (err database, w)
  as_flush_error o = o

  -- the end of the transaction block
  unfoldable pub leave_block : Result (Unit {0}) × W → Result (Unit {0}) × W
  leave_block (ok u, w) = store.commit w
  leave_block (err e, w) = (store.rollback >> raise e) w

  unfoldable pub flush_statements : List (ℤ × ℤ) → String × String → Action W (Unit {0})
  unfolding as_flush_error leave_block
  flush_statements counters (table, column) = store.begin >> λ w.
      leave_block (as_flush_error ((store.update table column counters >> store.commit) w))

  unfoldable pub flush_counter_updates : String → List (ℤ × ℤ) → Action W (Unit {0})
  unfolding first_two split_names flush_statements
  flush_counter_updates counter_group counters =
      lift (first_two (split_names counter_group)) >>= flush_statements counters

  unfoldable pub dispatch_to_retrier : String → Dict ℤ → ℤ → Option String → Action W (Unit {0})
  unfolding generate_retry_batch_name
  dispatch_to_retrier counter_group counter_data (pos n) (some identifier) =
      store.retry (generate_retry_batch_name counter_group (n + 1) identifier) counter_data
  dispatch_to_retrier counter_group counter_data (pos n) none = store.identifier >>= λ identifier.
      store.retry (generate_retry_batch_name counter_group (n + 1) identifier) counter_data
  dispatch_to_retrier counter_group counter_data _ identifier = raise value_error

  -- declarations.py: the event is built with EventSideEffects, which is not imported
  unfoldable pub declare_counters_event_dead : String → Action W (Unit {0})
  unfolding just_two split_names
  declare_counters_event_dead counter_group =
      lift (just_two (split_names counter_group)) >>= λ names. raise name_error

  module _ (int_of_text : String → Result ℤ) (max_retries : ℕ) (batch_name : String) where
    -- `except RecoverableDatabaseException`
    unfoldable pub retry_or_bury : Dict ℤ → String × Option String × ℤ → Action W (Unit {0})
    unfolding declare_counters_event_dead dispatch_to_retrier
    retry_or_bury counters (group_name, identifier, group_version) =
        if leℤ (pos max_retries) group_version
        then declare_counters_event_dead batch_name
        else dispatch_to_retrier group_name counters group_version identifier

    unfoldable pub after_flush : Dict ℤ → Result (Unit {0}) × W → Result (Option (Dict ℤ)) × W
    unfolding retry_or_bury extract_batch_metadata declare_counters_event_dead
    after_flush counters (ok u, w) = (ok (some counters), w)
    after_flush counters (err transient, w) =
        (lift (extract_batch_metadata int_of_text batch_name)
            >>= retry_or_bury counters
            >> pure none)
          w
    after_flush counters (err e, w) = (declare_counters_event_dead batch_name >> pure none) w

    -- what follows the test of the reply; `async with pool.connection()` is left out
    unfoldable pub flush_taken : Dict String → Action W (Option (Dict ℤ))
    unfolding cache_normalize database_normalize flush_counter_updates after_flush
    flush_taken [] = pure none
    flush_taken (row ∷ raw) = do
      counters ← lift (cache_normalize int_of_text (row ∷ raw))
      normalized ← lift (database_normalize int_of_text counters)
      λ w. after_flush counters (flush_counter_updates batch_name normalized w)

    -- `if not lock_set`
    unfoldable pub with_lock : Bool → Action W (Option (Dict ℤ))
    unfolding flush_taken derive_lock_key
    with_lock false = pure none
    with_lock true =
        finally (store.take batch_name >>= flush_taken) (store.delete (derive_lock_key batch_name))

    unfoldable pub batch_update_counter_group : Action W (Option (Dict ℤ))
    unfolding with_lock derive_lock_key
    batch_update_counter_group = store.set_lock (derive_lock_key batch_name) >>= with_lock

    -- `if not counter_data: continue` and what follows it
    unfoldable pub reflect_if_any : Option (Dict ℤ) → Action W (Unit {0})
    reflect_if_any (some (row ∷ counters)) = store.reflect batch_name (row ∷ counters)
    reflect_if_any _ = done

    -- the body of the loop over the groups in `batch_update_counters`
    unfoldable pub update_group : Action W (Unit {0})
    unfolding batch_update_counter_group reflect_if_any
    update_group = batch_update_counter_group >>= reflect_if_any

  -- one round of `batch_update_retry_counters`: BLPOP gives a pair, which is not a text to be joined
  -- into the name of a lock
  unfoldable pub retry_round : Option (String × String) → Action W (Unit {0})
  retry_round none = store.sleep
  retry_round (some pair) = raise type_error

  unfoldable pub batch_update_retry_counters_round : Action W (Unit {0})
  unfolding retry_round
  batch_update_retry_counters_round = store.blpop >>= retry_round
