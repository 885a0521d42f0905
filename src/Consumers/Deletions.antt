-- ===== src/Consumers/Deletions.antt =====
-- resource_database_workers/tasks/consumer.py: `user_orphan_consumer`, `queue_deletion_consumer` and
-- `queue_downstream_deletion_consumer`, one round of each on what was taken from its queue.
use tenjin.Common.{
  ℕ, zero, suc, ◌+◌, Bool, true, false, Option, none, some, String, List, [], ◌∷◌, map,
}
use tenjin.Common.Result
use tenjin.Common.Result.{or_raise}
use tenjin.Common.Action.{
  Action, Error, Result, ok, err, network, key_error, value_error, ◌>>=◌, ◌>>◌,
}
use tenjin.Common.Int.{ℤ}
use tenjin.Events.{StreamedEvent}
use tenjin.Events.Values.{Orjson, Value, get_field}
use tenjin.Events.Names.{StreamName}
use tenjin.Retry.{Loop, RetryPolicy, db_execute_with_retries, exponential_jittered_backoff}
use tenjin.Pipeline.{Broker, xack}
use tenjin.Pipeline.Settle.{declare_dead_with_retries, ack_with_retries, commit_processed_events}
use tenjin.Batch.{trim_duplicate_events}
use tenjin.Insertion.{Connection}
use tenjin.Insertion.Dedup.{dedup_insert_event, batch_dedup_insert_events}
use tenjin.Consumers.Downstream.{
  StrongEntity, user, ForeignKeyColumn, DeletionData, dispatch_downstream_events,
  dispatch_downstream_counter_decrements, reconstruct_downstream_data_from_stream,
}

-- `(event.payload[identifier_column], event.payload[time_key])`
unfoldable pub deleted_entry : String → String → StreamedEvent → Result (Value × Value)
deleted_entry identifier_column time_key event =
    Result.◌>>=◌ (or_raise (get_field identifier_column event.payload) key_error) λ id.
      Result.◌>>=◌ (or_raise (get_field time_key event.payload) key_error) λ time. ok (id, time)

-- with the number of the event, as the generator `deletion_data` gives it
unfoldable pub deletion_entry : String → StreamedEvent → Result (Value × Value × ℕ)
unfolding deleted_entry
deletion_entry identifier_column event =
    Result.◌>>=◌ (deleted_entry identifier_column "deleted_at" event)
      λ entry. ok (entry.0, entry.1, event.event_id)

-- The world of a callable that reads a generator: the entries that are left, and the world.
abbrev pub WithEntries : Type 0 → Type 0
WithEntries W = List (Result (Value × Value × ℕ)) × W

-- `batch_function(conn, table, column, deletion_data)`: the generator is used up by the first call
unfoldable pub consume :
    {W : Type 0}
    → (List (Result (Value × Value × ℕ)) → Action W (Unit {0}))
    → Action (WithEntries W) (Unit {0})
consume batch_function (entries, w) = let (r, w') = batch_function entries w in (r, ([], w'))

unfoldable pub beside_entries :
    {W : Type 0} → Action W (Unit {0}) → Action (WithEntries W) (Unit {0})
beside_entries action (entries, w) = let (r, w') = action w in (r, (entries, w'))

unfoldable pub loop_beside_entries : {W : Type 0} → Loop W → Loop (WithEntries W)
loop_beside_entries loop = record { sleep_up_to = λ n s. (s.0, loop.sleep_up_to n s.1) }

module _ {W : Type 0} (orjson : Orjson) (broker : Broker W) (loop : Loop W) (policy : RetryPolicy)
    (same : StreamedEvent → StreamedEvent → Bool) (conn : Connection W) (stream_name : StreamName)
    (group_name : String) (dead_letter_stream_name : StreamName)
    (acknowledgement_time : Value) where
  abbrev declare_batch_dead : List StreamedEvent → Action W (Unit {0})
  declare_batch_dead batch =
      declare_dead_with_retries orjson broker loop policy stream_name group_name
        dead_letter_stream_name batch policy.max_retries

  abbrev ack_batch : List StreamedEvent → Action W (Unit {0})
  ack_batch batch =
      ack_with_retries orjson broker loop policy stream_name group_name dead_letter_stream_name
        batch policy.max_retries

  -- deduplication and trimming, which the consumers of batches begin with
  unfoldable pub trimmed_batch :
      String → List StreamedEvent → (List StreamedEvent → Action W (Unit {0})) → Action W (Unit {0})
  trimmed_batch temp_table_name batch next =
      batch_dedup_insert_events conn acknowledgement_time temp_table_name
        (map (λ (e : StreamedEvent). e.event_id) batch)
      >>= λ fresh_event_ids.
          let (trimmed, trim) =
            trim_duplicate_events same fresh_event_ids stream_name group_name broker batch in
          trim >> next trimmed

  -- the `except` clauses of an attempt; `again` is the next one
  unfoldable pub after_dispatch :
      (Option Error → W → Option Error × W) → ℕ → Result (Unit {0}) × W → Option Error × W
  after_dispatch again attempt (ok u, w) = (none, w)
  after_dispatch again attempt (err network, w) =
      again (some network) (exponential_jittered_backoff loop policy attempt w)
  after_dispatch again attempt (err e, w) = (some e, w)

  unfoldable pub orphan_rounds : List StreamedEvent → ℕ → ℕ → Option Error → W → Option Error × W
  unfolding after_dispatch deleted_entry
  orphan_rounds batch zero attempt exception w = (exception, w)
  orphan_rounds batch (suc rounds) attempt exception w =
      after_dispatch (orphan_rounds batch rounds (attempt + 1)) attempt (
        dispatch_downstream_events orjson broker loop policy user
          (map (deleted_entry "user_id" "time_deleted") batch) dead_letter_stream_name w)

  unfoldable pub settle_orphans : List StreamedEvent → Option Error × W → Result (Unit {0}) × W
  settle_orphans batch (none, w) = ack_batch batch w
  settle_orphans batch (some e, w) = declare_batch_dead batch w

  unfoldable pub orphan_round : String → List StreamedEvent → Action W (Unit {0})
  unfolding trimmed_batch orphan_rounds settle_orphans
  orphan_round temp_table_name batch =
      trimmed_batch temp_table_name batch
        λ trimmed w. settle_orphans trimmed (orphan_rounds trimmed policy.max_retries 1 none w)

  module _ (table : StrongEntity) (identifier_column : String)
      (batch_function : List (Result (Value × Value × ℕ)) → Action W (Unit {0})) where
    -- `db_execute_with_retries` on the callable that reads the generator
    unfoldable pub delete_batch :
        List (Result (Value × Value × ℕ)) → W → Result (Option (Unit {0})) × WithEntries W
    unfolding consume beside_entries loop_beside_entries
    delete_batch entries w =
        db_execute_with_retries (loop_beside_entries loop) policy (beside_entries conn.rollback)
          (consume batch_function) none (entries, w)

    unfoldable pub settle_deletion :
        List StreamedEvent → Result (Option (Unit {0})) × WithEntries W → Result (Unit {0}) × W
    unfolding deleted_entry
    settle_deletion batch (err e, (entries, w)) = declare_batch_dead batch w
    settle_deletion batch (ok _, (entries, w)) =
        (commit_processed_events orjson broker loop policy stream_name group_name
              dead_letter_stream_name batch
            >> dispatch_downstream_events orjson broker loop policy table
                (map (deleted_entry identifier_column "deleted_at") batch) dead_letter_stream_name)
          w

    unfoldable pub deletion_round : String → List StreamedEvent → Action W (Unit {0})
    unfolding trimmed_batch deletion_entry delete_batch settle_deletion
    deletion_round temp_table_name batch = trimmed_batch temp_table_name batch λ trimmed w.
        settle_deletion trimmed (delete_batch (map (deletion_entry identifier_column) trimmed) w)

  module _ (batch_function : ℤ → StrongEntity → ForeignKeyColumn → String → Action W (Unit {0}))
      (event : StreamedEvent) where
    unfoldable pub settle_downstream :
        DeletionData → Result (Option (Unit {0})) × W → Result (Unit {0}) × W
    settle_downstream payload (err e, w) = declare_batch_dead (event ∷ []) w
    settle_downstream payload (ok _, w) =
        (ack_batch (event ∷ [])
            >> dispatch_downstream_counter_decrements orjson broker loop policy payload.orphan_table
                event.event_id dead_letter_stream_name)
          w

    -- what follows the deduplication
    unfoldable pub delete_downstream : DeletionData → Bool → Action W (Unit {0})
    unfolding settle_downstream
    delete_downstream payload false w =
        broker.execute_transaction (xack stream_name group_name event.event_id ∷ []) w
    delete_downstream payload true w = settle_downstream payload (
        db_execute_with_retries loop policy conn.rollback
          (batch_function payload.foreign_key payload.orphan_table payload.foreign_key_column
            payload.deleted_at)
          none w)

    -- `except (KeyError, ValueError)`; any other exception leaves the consumer
    unfoldable pub downstream_payload : Result DeletionData → Action W (Unit {0})
    unfolding delete_downstream
    downstream_payload (ok payload) =
        dedup_insert_event conn acknowledgement_time event.event_id >>= delete_downstream payload
    downstream_payload (err key_error) = declare_batch_dead (event ∷ [])
    downstream_payload (err value_error) = declare_batch_dead (event ∷ [])
    downstream_payload (err e) = λ w. (err e, w)

    unfoldable pub downstream_deletion_round :
        (String → Result ℤ) → (String → Result String) → Action W (Unit {0})
    unfolding downstream_payload reconstruct_downstream_data_from_stream
    downstream_deletion_round int_of_text fromisoformat =
        downstream_payload
          (reconstruct_downstream_data_from_stream int_of_text fromisoformat event.payload)
