-- ===== src/Batch/Tests.antt =====
-- Tests of trimming and of filling a batch.
use tenjin.Common.{ℕ, ◌+◌, ◌≡◌, Bool, ◌==◌, none, some, [], ◌∷◌, arith}
use tenjin.Common.Lists.{select}
use tenjin.Common.Action.{ok}
use tenjin.Events.{StreamedEvent}
use tenjin.Events.Names.{StreamName}
use tenjin.Events.Samples.{vote, votes}
use tenjin.Pipeline.{acknowledgements}
use tenjin.Batch.{ModelEquality, trim_loop}
use tenjin.Batch.Trim.{is_fresh, is_stale, trim_splits_batch}
use tenjin.Batch.Populate.{
  BatchingPolicy, Source, Filling, populate_events_batch_from_queue, populate_never_returns,
}

abbrev same : StreamedEvent → StreamedEvent → Bool
same a b = a.event_id == b.event_id

same-ModelEquality : ModelEquality same
same-ModelEquality = record { reflexive = λ e. ground arith; same_id = λ a b h. ground arith }

trim_splits_batch_example : trim_loop same (2 ∷ []) StreamName.posts "workers" votes votes [] ≡ (
  select (is_fresh (2 ∷ [])) votes,
  ok (acknowledgements StreamName.posts "workers" (select (is_stale (2 ∷ [])) votes)),
)
trim_splits_batch_example =
    trim_splits_batch same same-ModelEquality (2 ∷ []) StreamName.posts "workers" votes

abbrev policy : BatchingPolicy
policy = record { batch_size_quota = 2; base_waiting_time = 5 }

-- a queue that always has an entry, under a clock that ticks when it is read
abbrev source : Source ℕ
source = record { monotonic = λ w. (w, w + 1); get = λ w. (some (vote 1 ∷ []), w); sleep = λ w. w }

abbrev start : Filling ℕ
start = record { reference_time = 0; batch = []; world = 0 }

populate_never_returns_example : populate_events_batch_from_queue policy source 9 start ≡ none
populate_never_returns_example = populate_never_returns policy source 9 start
