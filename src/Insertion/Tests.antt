-- ===== src/Insertion/Tests.antt =====
-- Tests of the insertion of batches.
use tenjin.Common.{
  ℕ, suc, ◌≡◌, refl, not, ◌==◌, if◌then◌else◌, none, some, map, List, [], ◌∷◌, arith,
}
use tenjin.Common.Lists.{all}
use tenjin.Common.Action.{Action, ok, err, integrity, key_error, type_error}
use tenjin.Events.{StreamedEvent}
use tenjin.Events.Names.{EventName}
use tenjin.Events.Samples.{votes, effects}
use tenjin.Events.Values.{end, Value, null}
use tenjin.Common.Action.{◌>>◌}
use tenjin.Insertion.{temp_table, weak_insertion_copy}
use tenjin.Insertion.Dedup.{batch_dedup_insert_events, batch_dedup_raises, write_ids}
use tenjin.Insertion.{Connection, insert_batch, batch_insert_with_isolation}
use tenjin.Insertion.Payloads.{Builtins}
use tenjin.Insertion.Bisection.{bisection_depth}
use tenjin.Insertion.Association.{association_inserts_none}
use tenjin.Insertion.{RowAction, after_insert, then_second_half}
use tenjin.Insertion.Strong.{insert_batch_strong_raises}

-- a connection whose world counts what it did
abbrev conn : Connection ℕ
conn = record {
  begin = λ w. (ok tt, w);
  commit = λ w. (ok tt, suc w);
  rollback = λ w. (ok tt, w);
  execute = λ s w. (ok tt, suc w);
  copy = λ s w. (ok tt, suc w);
  write_row = λ r w. (ok tt, suc w);
  executemany = λ s rs w. (ok tt, suc w);
  fetch_ids = λ w. (ok [], w);
  staging_table = λ t w. ("staging", w);
}

abbrev builtins : Builtins
builtins = record { int_of = λ v. err type_error; str_of = λ v. ok v; from_isoformat = λ v. ok v }

abbrev creation : StreamedEvent
creation = record {
  event_id = 5;
  event = record { name = EventName.post_create; payload = end; side_effects = effects };
}

-- an insertion that refuses every batch with the event 2
abbrev refusing : List StreamedEvent → Action ℕ (List ℕ)
refusing es w =
    if all (λ (e : StreamedEvent). not (e.event_id == 2)) es
    then (ok (map (λ (e : StreamedEvent). e.event_id) es), suc w)
    else (err integrity, suc w)

-- a single event is not halved: depth 3 is as good as 9
bisection_depth_example :
    batch_insert_with_isolation refusing 3 votes [] 0
    ≡ batch_insert_with_isolation refusing 9 votes [] 0
bisection_depth_example =
    bisection_depth refusing 3 9 votes [] 0 (omega arith) (omega arith) (omega arith)

-- five calls
bisected : batch_insert_with_isolation refusing 3 votes [] 0 ≡ (ok tt, 1 ∷ 3 ∷ [], 5)
unfolding batch_insert_with_isolation after_insert then_second_half
bisected = refl

association_inserts_none_example :
    (batch_insert_with_isolation (insert_batch conn builtins (some RowAction.vote)) 3 votes [] 0).1
    ≡ []
association_inserts_none_example =
    association_inserts_none conn builtins RowAction.vote 3 votes [] 0

insert_batch_strong_raises_example :
    insert_batch conn builtins none (creation ∷ []) 0 ≡ (err key_error, 0)
insert_batch_strong_raises_example =
    insert_batch_strong_raises conn builtins creation [] 0 0 0 refl refl refl

abbrev now : Value
now = null

prepared :
    (conn.execute (temp_table "_temp_1" "stream_events")
        >> conn.copy (weak_insertion_copy "_temp_1" ("event_id" ∷ "acknowledgement_time" ∷ []))
        >> write_ids conn now (1 ∷ 2 ∷ []))
      0
    ≡ (ok tt, 4)
unfolding write_ids
prepared = refl

batch_dedup_raises_example :
    batch_dedup_insert_events conn now "_temp_1" (1 ∷ 2 ∷ []) 0 ≡ (err key_error, 4)
batch_dedup_raises_example = batch_dedup_raises conn now "_temp_1" (1 ∷ 2 ∷ []) 0 4 prepared
