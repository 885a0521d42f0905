-- ===== src/Consumers/Tests.antt =====
-- Tests of the consumers.
use tenjin.Common.{◌≡◌, refl, Bool, true, ◌==◌, some, [], ◌∷◌, arith}
use tenjin.Common.Int.{pos, negsuc}
use tenjin.Common.Action.{ok, err, type_error}
use tenjin.Events.{StreamedEvent}
use tenjin.Events.Names.{join_names}
use tenjin.Events.Samples.{vote, votes, encoder, encoder-RefusesBytes}
use tenjin.Events.Values.{null}
use tenjin.Pipeline.{hincrby}
use tenjin.Pipeline.Samples.{History, broker, loop, policy, busy, stream, dlq, flaky}
use tenjin.Insertion.{Connection}
use tenjin.Consumers.{settle_insertion}
use tenjin.Consumers.Downstream.{
  DecrementData, user, author_id, entity_value, decrement,
  emit_downstream_counter_decrement_updates,
}
use tenjin.Consumers.Decrements.{Cursor, decrement_if_fresh}
use tenjin.Consumers.DecrementLaws.{decrement_raises}

abbrev same : StreamedEvent → StreamedEvent → Bool
same a b = a.event_id == b.event_id

-- the history after a batch that was inserted, and committed on the second attempt
abbrev after : History
after =
    (settle_insertion encoder broker loop policy same stream "workers" dlq votes
      (ok (some tt), (1 ∷ 2 ∷ 3 ∷ [], flaky))).1

abbrev cursor : Cursor History
cursor = record { execute = λ s w. (ok tt, w); fetchall = λ w. (ok (("1", pos 2) ∷ []), w) }

abbrev conn : Connection History
conn = record {
  begin = λ w. (ok tt, w);
  commit = λ w. (ok tt, w);
  rollback = λ w. (ok tt, w);
  execute = λ s w. (ok tt, w);
  copy = λ s w. (ok tt, w);
  write_row = λ r w. (ok tt, w);
  executemany = λ s rs w. (ok tt, w);
  fetch_ids = λ w. (ok [], w);
  staging_table = λ t w. ("staging", w);
}

abbrev payload : DecrementData
payload = record {
  hashmap_name = "users:posts";
  affected_table_name = user;
  affected_column_name = author_id;
  deletion_author_event_id = pos 9;
}

decrement_raises_example :
    decrement_if_fresh encoder cursor conn broker loop policy stream "workers" dlq
      (vote 1)
      null
      2
      4
      payload
      (ok true, (0, []))
    ≡ some (err type_error, (0, []))
decrement_raises_example =
    decrement_raises encoder encoder-RefusesBytes cursor conn broker loop policy busy stream
      "workers" dlq (vote 1) null 2 4 payload (0, []) (0, []) (omega arith) refl

-- one page of counters, as it is emitted
lowered :
    emit_downstream_counter_decrement_updates broker
      (("1", pos 2) ∷ ("2", pos 1) ∷ [])
      "users:posts"
      user
      (0, [])
    ≡ (
      ok tt,
      (
        0,
        hincrby "users:posts" "users:1" (negsuc 1)
            ∷ hincrby "users:posts" "users:2" (negsuc 0)
            ∷ [],
      ),
    )
unfolding emit_downstream_counter_decrement_updates decrement join_names entity_value
lowered = refl
