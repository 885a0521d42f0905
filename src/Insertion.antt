-- ===== src/Insertion.antt =====
-- resource_database_workers/tasks/insertions.py and resource_auxillary/datastructures/translation.py:
-- the batches of events that become rows of the database.
pub mod Payloads
pub mod Bisection
pub mod Association
pub mod Strong
pub mod Dedup
mod Tests
use tenjin.Common.{
  ℕ, zero, suc, ◌+◌, ◌/◌, Bool, true, false, if◌then◌else◌, ◌==◌, Option, none, some, String, List,
  [], ◌∷◌, ◌++◌, map, ◌≡◌,
}
use tenjin.Common.Dict.{member}
use tenjin.Common.Lists.{length, take, drop}
use tenjin.Common.Action.{
  Action, Error, Result, ok, err, integrity, key_error, index_error, value_error, runtime_error,
  lift, done, pure, ◌>>=◌, ◌>>◌,
}
use tenjin.Common.Result.{or_raise}
use tenjin.Events.{StreamedEvent}
use tenjin.Events.Names.{EventName}
use tenjin.Events.Values.{Value}
use Payloads.{FieldType, Builtins, payload_fields, association_db_metadata, build_row}

pub data RowAction : Type 0 where
  save vote subscribe : RowAction

-- The statements that the templates compose.
pub data Statement : Type 0 where
  temp_table : String → String → Statement
  weak_insertion_copy : String → List String → Statement
  weak_insertion : String → String → List String → List String → RowAction → Statement
  strong_insertion : String → List String → Statement
  single_dedup : ℕ → Value → Statement
  batch_dedup : String → Statement

-- `SQL.format` raises KeyError for a placeholder without an argument.
unfoldable pub format : {S : Type 0} → List String → List String → S → Result S
format [] arguments statement = ok statement
format (placeholder ∷ placeholders) arguments statement =
    let rest = format placeholders arguments statement in
    if member placeholder arguments then rest else err key_error

-- the placeholders of WEAK_INSERTION_SQL
abbrev pub weak_insertion_placeholders : List String
weak_insertion_placeholders =
    "table" ∷ "columns" ∷ "columns" ∷ "temp_table" ∷ "conflict_columns" ∷ "state_column"
    ∷ "state_column" ∷ "event_seq_column" ∷ "event_seq_column" ∷ "event_seq_column"
    ∷ "event_seq_column" ∷ "event_id_column" ∷ []

-- its arguments are without the column of the event's ID
unfoldable pub prepare_weak_insertion_sql :
    String → String → List String → List String → RowAction → Result Statement
unfolding format
prepare_weak_insertion_sql table staging columns pk_columns action =
    format weak_insertion_placeholders
      ("table" ∷ "columns" ∷ "temp_table" ∷ "state_column" ∷ "event_seq_column" ∷ "conflict_columns"
        ∷ [])
      (weak_insertion table staging columns pk_columns action)

-- The database connection: `begin`, `commit` and `rollback` are what `conn.transaction()` does on
-- entry, on a normal exit and on an exception.
pub record Connection (W : Type 0) : Type 0 where
  pub begin : Action W (Unit {0})
  pub commit : Action W (Unit {0})
  pub rollback : Action W (Unit {0})
  pub execute : Statement → Action W (Unit {0})
  pub copy : Statement → Action W (Unit {0})
  pub write_row : List Value → Action W (Unit {0})
  pub executemany : Statement → List (List Value) → Action W (Unit {0})
  pub fetch_ids : Action W (List ℕ)
  -- `f"_staging_{table}_{uuid4().hex}"`
  pub staging_table : String → W → String × W

module _ {W : Type 0} (conn : Connection W) where
  unfoldable pub leave_transaction : {A : Type 0} → Result A × W → Result A × W
  leave_transaction (ok a, w) = (conn.commit >> pure a) w
  leave_transaction (err e, w) = (conn.rollback >> λ v. (err e, v)) w

  -- `async with conn.transaction()`
  unfoldable pub transaction : {A : Type 0} → Action W A → Action W A
  unfolding leave_transaction
  transaction body = conn.begin >> λ w. leave_transaction (body w)

  module _ (builtins : Builtins) where
    unfoldable pub copy_events :
        List (String × FieldType) → List StreamedEvent → Action W (Unit {0})
    copy_events fields [] = done
    copy_events fields (event ∷ events) = do
      row ← lift (build_row builtins fields event.payload)
      conn.write_row row
      copy_events fields events

    unfoldable pub insert_association :
        List (String × FieldType)
        → String × List String
        → List StreamedEvent
        → RowAction
        → Action W (List ℕ)
    unfolding copy_events prepare_weak_insertion_sql
    insert_association fields (table, pk_columns) events action w =
        let (staging, w') = conn.staging_table table w in
        (do
          conn.execute (temp_table staging table)
          conn.copy (weak_insertion_copy staging (map (λ f. f.0) fields))
          copy_events fields events
          statement ←
              lift
                (prepare_weak_insertion_sql table staging (map (λ f. f.0) fields) pk_columns action)
          conn.execute statement
          conn.fetch_ids)
          w'

    unfoldable pub batch_insert_association_entities :
        List StreamedEvent → RowAction → Action W (List ℕ)
    unfolding insert_association
    batch_insert_association_entities [] action = lift (err index_error)
    batch_insert_association_entities (first ∷ events) action = do
      fields ← lift (or_raise (payload_fields first.name) value_error)
      metadata ← lift (or_raise (association_db_metadata first.name) key_error)
      insert_association fields metadata (first ∷ events) action

    build_records : List (String × FieldType) → List StreamedEvent → Action W (List (List Value))
    build_records fields [] = pure []
    build_records fields (event ∷ events) = do
      record_values ← lift (build_row builtins fields event.payload)
      records ← build_records fields events
      pure (record_values ∷ records)

    insert_strong : List (String × FieldType) → String → List StreamedEvent → Action W (List ℕ)
    unfolding build_records
    insert_strong fields table events = do
      insertion_records ← build_records fields events
      conn.executemany (strong_insertion table (map (λ f. f.0) fields)) insertion_records
      pure []

    -- `if not payload_type: return []`
    unfoldable pub strong_entities_of :
        Option (List (String × FieldType)) → StreamedEvent → List StreamedEvent → Action W (List ℕ)
    unfolding insert_strong
    strong_entities_of none first events = pure []
    strong_entities_of (some fields) first events = do
      metadata ← lift (or_raise (association_db_metadata first.name) key_error)
      insert_strong fields metadata.0 events

    unfoldable pub batch_insert_strong_entities : List StreamedEvent → Action W (List ℕ)
    unfolding strong_entities_of
    batch_insert_strong_entities [] = lift (err index_error)
    batch_insert_strong_entities (first ∷ events) =
        strong_entities_of (payload_fields first.name) first (first ∷ events)

    -- the body of the `try` of `batch_insert_with_isolation`
    unfoldable pub insert_batch : Option RowAction → List StreamedEvent → Action W (List ℕ)
    insert_batch none events = transaction (batch_insert_strong_entities events)
    insert_batch (some action) events =
        transaction (batch_insert_association_entities events action)

-- `batch_insert_with_isolation`, over the call that inserts a whole batch. `inserted` is the list
-- that it extends in place. The fuel is the depth of the recursion. An exception of the commit itself
-- is taken to come before the list is extended; the schema defers no constraint to the commit.
module _ {W : Type 0} (insert : List StreamedEvent → Action W (List ℕ)) where
  unfoldable pub then_second_half :
      (List ℕ → W → Result (Unit {0}) × List ℕ × W)
      → Result (Unit {0}) × List ℕ × W
      → Result (Unit {0}) × List ℕ × W
  then_second_half second (ok u, inserted, w) = second inserted w
  then_second_half second (err e, inserted, w) = (err e, inserted, w)

  -- the `except IntegrityError`, with the call on each half
  unfoldable pub after_insert :
      (List StreamedEvent → List ℕ → W → Result (Unit {0}) × List ℕ × W)
      → List StreamedEvent
      → List ℕ
      → Result (List ℕ) × W
      → Result (Unit {0}) × List ℕ × W
  unfolding then_second_half
  after_insert again events inserted (ok ids, w) = (ok tt, inserted ++ ids, w)
  after_insert again events inserted (err integrity, w) =
      if length events == 1
      then (ok tt, inserted, w)
      else then_second_half (again (drop (length events / 2) events))
          (again (take (length events / 2) events) inserted w)
  after_insert again events inserted (err e, w) = (err e, inserted, w)

  unfoldable pub batch_insert_with_isolation :
      ℕ → List StreamedEvent → List ℕ → W → Result (Unit {0}) × List ℕ × W
  unfolding after_insert
  batch_insert_with_isolation zero events inserted w = (err runtime_error, inserted, w)
  batch_insert_with_isolation (suc depth) events inserted w =
      after_insert (batch_insert_with_isolation depth) events inserted (insert events w)
