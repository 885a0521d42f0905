-- ===== src/Consumers.antt =====
-- resource_database_workers/tasks/consumer.py: `queue_insertion_consumer`, one round of its loop on
-- the batch that was taken from its queue.
pub mod Settled
pub mod Downstream
pub mod Deletions
pub mod Decrements
pub mod DecrementLaws
mod Tests
use tenjin.Common.{ℕ, Bool, true, false, not, ◌≡◌, Option, none, some, String, List, [], ◌∷◌, map}
use tenjin.Common.Lists.{contains, select, any}
use tenjin.Common.Action.{Action, Error, Result, ok, err, done, ◌>>=◌, ◌>>◌}
use tenjin.Events.{StreamedEvent}
use tenjin.Events.Names.{StreamName}
use tenjin.Events.Values.{Orjson, Value}
use tenjin.Retry.{Loop, RetryPolicy, db_execute_with_retries}
use tenjin.Pipeline.{Broker}
use tenjin.Pipeline.Settle.{declare_dead_with_retries, commit_processed_events}
use tenjin.Batch.{trim_duplicate_events}
use tenjin.Insertion.{Connection}
use tenjin.Insertion.Dedup.{batch_dedup_insert_events}

-- The world of a callable that extends the list of inserted IDs in place.
abbrev pub WithIds : Type 0 → Type 0
WithIds W = List ℕ × W

unfoldable pub beside_ids : {W : Type 0} → Action W (Unit {0}) → Action (WithIds W) (Unit {0})
beside_ids action (inserted_ids, w) = let (r, w') = action w in (r, (inserted_ids, w'))

unfoldable pub loop_beside_ids : {W : Type 0} → Loop W → Loop (WithIds W)
loop_beside_ids loop = record { sleep_up_to = λ n s. (s.0, loop.sleep_up_to n s.1) }

-- `event for event in batch if event.event_id in inserted_ids`
unfoldable pub successful_events : List ℕ → List StreamedEvent → List StreamedEvent
successful_events inserted_ids = select (λ event. contains event.event_id inserted_ids)

-- `event for event in batch if event not in successful_events`
unfoldable pub failed_events :
    (StreamedEvent → StreamedEvent → Bool) → List ℕ → List StreamedEvent → List StreamedEvent
unfolding successful_events
failed_events same inserted_ids batch =
    select (λ event. not (any (λ good. same event good) (successful_events inserted_ids batch)))
      batch

module _ {W : Type 0} (orjson : Orjson) (broker : Broker W) (loop : Loop W) (policy : RetryPolicy)
    (same : StreamedEvent → StreamedEvent → Bool) (stream_name : StreamName) (group_name : String)
    (dead_letter_stream_name : StreamName) where
  -- the `except Exception` and the `else` of the insertion
  unfoldable pub settle_insertion :
      List StreamedEvent → Result (Option (Unit {0})) × WithIds W → Result (Unit {0}) × W
  unfolding failed_events
  settle_insertion batch (err e, (inserted_ids, w)) =
      declare_dead_with_retries orjson broker loop policy stream_name group_name
        dead_letter_stream_name batch policy.max_retries w
  settle_insertion batch (ok _, (inserted_ids, w)) =
      (commit_processed_events orjson broker loop policy stream_name group_name
            dead_letter_stream_name batch
          >> declare_dead_with_retries orjson broker loop policy stream_name group_name
              dead_letter_stream_name (failed_events same inserted_ids batch) policy.max_retries)
        w

  module _ (conn : Connection W)
      (batch_function : List StreamedEvent → Action (WithIds W) (Unit {0})) where
    -- the batch that trimming has left; for an empty one the round ends here
    unfoldable pub insert_trimmed : List StreamedEvent → Action W (Unit {0})
    unfolding settle_insertion beside_ids loop_beside_ids
    insert_trimmed [] w = (ok tt, w)
    insert_trimmed (event ∷ batch) w = settle_insertion (event ∷ batch) (
        db_execute_with_retries (loop_beside_ids loop) policy (beside_ids conn.rollback)
          (batch_function (event ∷ batch)) none ([], w))

    unfoldable pub trim_and_insert : List StreamedEvent → List ℕ → Action W (Unit {0})
    unfolding insert_trimmed
    trim_and_insert batch fresh_event_ids =
        let (trimmed, trim) =
          trim_duplicate_events same fresh_event_ids stream_name group_name broker batch in
        trim >> insert_trimmed trimmed

    -- What `async with pool.connection()` does around the round is not part of it.
    unfoldable pub insertion_round : Value → String → List StreamedEvent → Action W (Unit {0})
    unfolding trim_and_insert
    insertion_round acknowledgement_time temp_table_name batch =
        batch_dedup_insert_events conn acknowledgement_time temp_table_name
          (map (λ (e : StreamedEvent). e.event_id) batch)
        >>= trim_and_insert batch
