-- ===== src/Dispatch/Tests.antt =====
-- Tests of the dispatchers.
use tenjin.Common.{ℕ, ◌≡◌, refl, Option, none, some, [], ◌∷◌}
use tenjin.Common.Lists.{select}
use tenjin.Common.Result.{ok}
use tenjin.Events.Names.{EventName}
use tenjin.Events.Samples.{votes}
use tenjin.Dispatch.{group_events, append_to}
use tenjin.Dispatch.Partition.{IsGrouped, events_for, goes_to, group_events_partitions}

-- the queue of the votes
abbrev queues : EventName → Option ℕ
queues EventName.post_vote = some 4
queues _ = none

grouped : group_events queues votes [] ≡ ok ((4, votes) ∷ [])
unfolding group_events append_to
grouped = refl

group_events_partitions_example :
    IsGrouped ((4, votes) ∷ []) × (events_for 4 ((4, votes) ∷ []) ≡ select (goes_to queues 4) votes)
group_events_partitions_example = group_events_partitions queues 4 votes ((4, votes) ∷ []) grouped
