-- ===== src/Consumers/Decrements.antt =====
-- resource_database_workers/tasks/consumer.py: `queue_downstream_decrement_consumer`, and
-- select_decrement_deltas of tasks/selections.py: the counters that a deletion leaves are lowered
-- page by page.
use tenjin.Common.{ℕ, zero, suc, ◌+◌, Bool, true, false, Option, none, some, String, List, [], ◌∷◌}
use tenjin.Common.Action.{
  Action, Error, Result, ok, err, transient, key_error, value_error, lift, ◌>>=◌, ◌>>◌,
}
use tenjin.Common.Int.{ℤ}
use tenjin.Events.{StreamedEvent}
use tenjin.Events.Values.{Orjson, Value}
use tenjin.Events.Names.{StreamName}
use tenjin.Retry.{Loop, RetryPolicy, execute_with_redis_retries, exponential_jittered_backoff}
use tenjin.Pipeline.{Broker, xack}
use tenjin.Pipeline.Settle.{declare_dead_with_retries, ack_with_retries}
use tenjin.Insertion.{Connection, format}
use tenjin.Insertion.Dedup.{dedup_insert_event}
use tenjin.Consumers.Downstream.{
  StrongEntity, ForeignKeyColumn, DecrementData, emit_downstream_counter_decrement_updates,
  reconstruct_downstream_counter_data_from_stream,
}

-- SELECT_DECREMENT_DELTAS_SQL with its arguments
pub record DeltasSelection : Type 0 where
  pub foreign_key_column : ForeignKeyColumn
  pub table : StrongEntity
  pub deletion_author_event_id : ℤ
  pub limit : ℕ
  pub offset : ℕ

pub record Cursor (W : Type 0) : Type 0 where
  pub execute : DeltasSelection → Action W (Unit {0})
  pub fetchall : Action W (List (String × ℤ))

-- the placeholders of SELECT_DECREMENT_DELTAS_SQL, of which the first is misspelt
abbrev pub deltas_placeholders : List String
deltas_placeholders =
    "idenfitier_column" ∷ "identifier_column" ∷ "table" ∷ "deletion_author_event_id_column"
    ∷ "deletion_author_event_id" ∷ "limit" ∷ "offset" ∷ []

unfoldable pub prepare_deltas_selection : DeltasSelection → Result DeltasSelection
unfolding format
prepare_deltas_selection selection =
    format deltas_placeholders
      ("identifier_column" ∷ "table" ∷ "deletion_author_event_id_column"
        ∷ "deletion_author_event_id" ∷ "limit" ∷ "offset" ∷ [])
      selection

unfoldable pub select_decrement_deltas :
    {W : Type 0}
    → Cursor W
    → ForeignKeyColumn
    → ℕ
    → ℕ
    → StrongEntity
    → ℤ
    → Action W (List (String × ℤ))
unfolding prepare_deltas_selection
select_decrement_deltas cursor foreign_key_column limit offset table event_id =
    lift (
      prepare_deltas_selection (record {
        foreign_key_column = foreign_key_column;
        table = table;
        deletion_author_event_id = event_id;
        limit = limit;
        offset = offset;
      }))
    >>= λ selection. cursor.execute selection >> cursor.fetchall

-- What the loop over the pages comes to: it ends, an exception leaves it, or the fuel is used up.
pub data Paged : Type 0 where
  finished : Paged
  raised : Error → Paged
  unfinished : Paged

-- What the attempts come to: the exception that is set at their end, if there is one, an exception
-- of `rollback`, which leaves the consumer, or the fuel of the loop is used up.
pub data Attempted : Type 0 where
  caught : Option Error → Attempted
  escaped : Error → Attempted
  out_of_fuel : Attempted

module _ {W : Type 0} (cursor : Cursor W) (broker : Broker W) (loop : Loop W) (policy : RetryPolicy)
    (limit : ℕ) (payload : DecrementData) where
  abbrev pub select_page : ℕ → Action W (List (String × ℤ))
  select_page offset =
      select_decrement_deltas cursor payload.affected_column_name limit offset
        payload.affected_table_name payload.deletion_author_event_id

  abbrev pub emit_page : List (String × ℤ) → Action W (Option (Unit {0}))
  emit_page results =
      execute_with_redis_retries loop policy
        (emit_downstream_counter_decrement_updates broker results payload.hashmap_name
          payload.affected_table_name)
        none

  -- `while results`, after a page was emitted; `next` is the loop from the next offset on
  unfoldable pub after_page :
      (ℕ → W → Paged × ℕ × W)
      → List (String × ℤ)
      → ℕ
      → Result (Option (Unit {0})) × W
      → Paged × ℕ × W
  after_page next results offset (err e, w) = (raised e, offset, w)
  after_page next [] offset (ok _, w) = (finished, offset, w)
  after_page next (row ∷ rows) offset (ok _, w) = next offset w

  -- a page that was selected at `offset`: the offset is raised before the page is emitted
  unfoldable pub with_page :
      (ℕ → W → Paged × ℕ × W) → ℕ → Result (List (String × ℤ)) × W → Paged × ℕ × W
  unfolding after_page
  with_page next offset (err e, w) = (raised e, offset, w)
  with_page next offset (ok results, w) =
      after_page next results (offset + limit) (emit_page results w)

  -- the loop, with the offset that it leaves behind
  unfoldable pub page_loop : ℕ → ℕ → W → Paged × ℕ × W
  unfolding with_page
  page_loop zero offset w = (unfinished, offset, w)
  page_loop (suc fuel) offset w = with_page (page_loop fuel) offset (select_page offset w)

  module _ (rollback : Action W (Unit {0})) (fuel : ℕ) where
    -- `again` is the next attempt
    unfoldable pub after_rollback :
        (Option Error → ℕ → W → Attempted × ℕ × W)
        → ℕ
        → Error
        → ℕ
        → Result (Unit {0}) × W
        → Attempted × ℕ × W
    after_rollback again attempt e offset (err f, w) = (escaped f, offset, w)
    after_rollback again attempt transient offset (ok _, w) =
        again (some transient) offset (exponential_jittered_backoff loop policy attempt w)
    after_rollback again attempt e offset (ok _, w) = (caught (some e), offset, w)

    -- the loop goes on with the next attempt also where this one has returned
    unfoldable pub after_attempt :
        (Option Error → ℕ → W → Attempted × ℕ × W)
        → ℕ
        → Option Error
        → Paged × ℕ × W
        → Attempted × ℕ × W
    unfolding after_rollback
    after_attempt again attempt exception (finished, offset, w) = again exception offset w
    after_attempt again attempt exception (raised e, offset, w) =
        after_rollback again attempt e offset (rollback w)
    after_attempt again attempt exception (unfinished, offset, w) = (out_of_fuel, offset, w)

    -- `for _attempt in range(1, MAX_RETRIES + 1)`: the rounds that are left and the number of this one
    unfoldable pub decrement_rounds : ℕ → ℕ → Option Error → ℕ → W → Attempted × ℕ × W
    unfolding after_attempt page_loop
    decrement_rounds zero attempt exception offset w = (caught exception, offset, w)
    decrement_rounds (suc rounds) attempt exception offset w =
        after_attempt (decrement_rounds rounds (attempt + 1)) attempt exception
          (page_loop fuel offset w)

module _ {W : Type 0} (orjson : Orjson) (cursor : Cursor W) (conn : Connection W)
    (broker : Broker W) (loop : Loop W) (policy : RetryPolicy) (stream_name : StreamName)
    (group_name : String) (dead_letter_stream_name : StreamName) (event : StreamedEvent) where
  abbrev declare_event_dead : Action W (Unit {0})
  declare_event_dead =
      declare_dead_with_retries orjson broker loop policy stream_name group_name
        dead_letter_stream_name (event ∷ []) policy.max_retries

  -- `if exception: … else: …`; none where the fuel is used up
  unfoldable pub settle_decrement : Attempted × ℕ × W → Option (Result (Unit {0}) × W)
  settle_decrement (caught none, offset, w) = some (
      ack_with_retries orjson broker loop policy stream_name group_name dead_letter_stream_name
        (event ∷ []) policy.max_retries w)
  settle_decrement (caught (some e), offset, w) = some (declare_event_dead w)
  settle_decrement (escaped e, offset, w) = some (err e, w)
  settle_decrement (out_of_fuel, offset, w) = none

  module _ (acknowledgement_time : Value) (limit fuel : ℕ) where
    -- what follows the deduplication
    unfoldable pub decrement_if_fresh :
        DecrementData → Result Bool × W → Option (Result (Unit {0}) × W)
    unfolding settle_decrement decrement_rounds
    decrement_if_fresh payload (err e, w) = some (err e, w)
    decrement_if_fresh payload (ok false, w) =
        some (broker.execute_transaction (xack stream_name group_name event.event_id ∷ []) w)
    decrement_if_fresh payload (ok true, w) = settle_decrement (
        decrement_rounds cursor broker loop policy limit payload conn.rollback fuel
          policy.max_retries 1 none 0 w)

    -- `except (KeyError, ValueError)`; any other exception leaves the consumer
    unfoldable pub decrement_payload : Result DecrementData → W → Option (Result (Unit {0}) × W)
    unfolding decrement_if_fresh
    decrement_payload (ok payload) w =
        decrement_if_fresh payload (dedup_insert_event conn acknowledgement_time event.event_id w)
    decrement_payload (err key_error) w = some (declare_event_dead w)
    decrement_payload (err value_error) w = some (declare_event_dead w)
    decrement_payload (err e) w = some (err e, w)

    -- one round of the consumer, on the event that was taken from its queue
    unfoldable pub decrement_round :
        (String → Result ℤ) → (String → Result String) → W → Option (Result (Unit {0}) × W)
    unfolding decrement_payload reconstruct_downstream_counter_data_from_stream
    decrement_round int_of_text fromisoformat =
        decrement_payload
          (reconstruct_downstream_counter_data_from_stream int_of_text fromisoformat event.payload)
