-- ===== src/Insertion/Dedup.antt =====
-- resource_auxillary/event_processing/db_qos.py (`dedup_insert_event`, `batch_dedup_insert_events`)
-- and the deduplication statements of resource_auxillary/templates/sql.py.
use tenjin.Common.{ℕ, Bool, true, false, ◌≡◌, ap, ◌∙◌, String, List, [], ◌∷◌}
use tenjin.Common.Dict.{member}
use tenjin.Common.Action.{
  Action, Result, ok, err, key_error, integrity, lift, done, pure, ◌>>=◌, ◌>>◌, bind-ok,
}
use tenjin.Events.Values.{Value, int}
use tenjin.Common.Int.{pos}
use tenjin.Insertion.{
  Connection, Statement, transaction, temp_table, weak_insertion_copy, single_dedup, batch_dedup,
  format,
}

-- the placeholders of SINGLE_DEDUP_STATEMENT
abbrev pub single_dedup_placeholders : List String
single_dedup_placeholders =
    "event_dedup_table" ∷ "event_id_col" ∷ "ack_time_col" ∷ "event_id" ∷ "acknowledgement_time" ∷ []

unfoldable pub prepare_single_dedup_sql : ℕ → Value → Result Statement
unfolding format
prepare_single_dedup_sql event_id acknowledgement_time =
    format single_dedup_placeholders
      ("event_dedup_table" ∷ "event_id_col" ∷ "ack_time_col" ∷ "event_id" ∷ "acknowledgement_time"
        ∷ [])
      (single_dedup event_id acknowledgement_time)

-- it formats the statement for a single event
unfoldable pub prepare_batch_dedup_sql : String → Result Statement
unfolding format
prepare_batch_dedup_sql table =
    format single_dedup_placeholders
      ("event_dedup_table" ∷ "event_id_col" ∷ "ack_time_col" ∷ "temp_table" ∷ [])
      (batch_dedup table)

-- `acknowledgement_time` is the time of the call, which no caller gives.
module _ {W : Type 0} (conn : Connection W) (acknowledgement_time : Value) where
  -- `except IntegrityError`
  unfoldable pub unless_known : Result (Unit {0}) × W → Result Bool × W
  unless_known (ok u, w) = (ok true, w)
  unless_known (err integrity, w) = (conn.rollback >> pure false) w
  unless_known (err e, w) = (err e, w)

  unfoldable pub insert_once : Result Statement → Action W Bool
  unfolding unless_known
  insert_once (ok statement) w = unless_known (transaction conn (conn.execute statement) w)
  insert_once (err e) w = (err e, w)

  unfoldable pub dedup_insert_event : ℕ → Action W Bool
  unfolding insert_once
  dedup_insert_event event_id = insert_once (prepare_single_dedup_sql event_id acknowledgement_time)

  unfoldable pub write_ids : List ℕ → Action W (Unit {0})
  write_ids [] = done
  write_ids (event_id ∷ event_ids) =
      conn.write_row (int (pos event_id) ∷ acknowledgement_time ∷ []) >> write_ids event_ids

  unfoldable pub execute_batch_dedup : String → Action W (List ℕ)
  execute_batch_dedup table =
      lift (prepare_batch_dedup_sql table) >>= λ statement. conn.execute statement >> conn.fetch_ids

  -- `temp_table_name` is made of a random number and the time
  unfoldable pub batch_dedup_insert_events : String → List ℕ → Action W (List ℕ)
  unfolding write_ids execute_batch_dedup
  batch_dedup_insert_events temp_table_name event_ids =
      conn.execute (temp_table temp_table_name "stream_events")
      >> conn.copy (weak_insertion_copy temp_table_name ("event_id" ∷ "acknowledgement_time" ∷ []))
      >> write_ids event_ids
      >> execute_batch_dedup temp_table_name

  -- An event is inserted once: with a transaction that the table lets through the answer is true,
  -- and with one that breaks the uniqueness of the ID the connection is rolled back and the answer
  -- is false.
  pub dedup_insert_event_lem :
      (event_id : ℕ) (w w₁ w₂ : W)
      → (transaction conn (conn.execute (single_dedup event_id acknowledgement_time)) w
            ≡ (ok tt, w₁)
          → dedup_insert_event event_id w ≡ (ok true, w₁))
        × (transaction conn (conn.execute (single_dedup event_id acknowledgement_time)) w
              ≡ (err integrity, w₁)
            → conn.rollback w₁ ≡ (ok tt, w₂)
            → dedup_insert_event event_id w ≡ (ok false, w₂))
  unfolding dedup_insert_event insert_once prepare_single_dedup_sql format member unless_known
  dedup_insert_event_lem event_id w w₁ w₂ = (
    (λ h. ap unless_known h),
    (λ h r. ap unless_known h ∙ bind-ok conn.rollback (λ _. pure false) w₁ tt w₂ r),
  )

  -- Where the statements before it return, the statement of the batch cannot be formatted: the call
  -- raises KeyError, and the IDs are only in the temporary table.
  pub batch_dedup_raises :
      (temp_table_name : String) (event_ids : List ℕ) (w w₁ : W)
      → (conn.execute (temp_table temp_table_name "stream_events")
            >> conn.copy
                (weak_insertion_copy temp_table_name ("event_id" ∷ "acknowledgement_time" ∷ []))
            >> write_ids event_ids)
          w
        ≡ (ok tt, w₁)
      → batch_dedup_insert_events temp_table_name event_ids w ≡ (err key_error, w₁)
  unfolding batch_dedup_insert_events execute_batch_dedup prepare_batch_dedup_sql format member
  batch_dedup_raises temp_table_name event_ids w w₁ h =
      bind-ok
        (conn.execute (temp_table temp_table_name "stream_events")
          >> conn.copy
              (weak_insertion_copy temp_table_name ("event_id" ∷ "acknowledgement_time" ∷ []))
          >> write_ids event_ids)
        (λ _. execute_batch_dedup temp_table_name) w tt w₁ h
