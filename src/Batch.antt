-- ===== src/Batch.antt =====
-- resource_auxillary/event_processing/pre_processing.py: the batch of a consumer before it is
-- processed.
pub mod Trim
pub mod Populate
mod Tests
use tenjin.Common.{
  ℕ, Bool, true, false, if◌then◌else◌, Option, none, some, String, List, [], ◌∷◌, ◌++◌, ◌≡◌, not,
}
use tenjin.Common.Lists.{contains, select}
use tenjin.Common.Action.{Action, Result, ok, err, value_error, lift, done, ◌>>=◌, ◌>>◌}
use tenjin.Events.{StreamedEvent}
use tenjin.Events.Names.{StreamName}
use tenjin.Pipeline.{Command, Broker, xack}

-- The equality of pydantic models: it holds of an event and itself, and only of events with equal
-- fields, of which the code relies on the ID.
pub record ModelEquality (same : StreamedEvent → StreamedEvent → Bool) : Type 0 where
  pub reflexive : (e : StreamedEvent) → same e e ≡ true
  pub same_id : (a b : StreamedEvent) → same a b ≡ true → a.event_id ≡ b.event_id

module _ (same : StreamedEvent → StreamedEvent → Bool) where
  -- `batch.remove(event)`: the first equal element goes; without one ValueError is raised
  unfoldable pub remove : StreamedEvent → List StreamedEvent → Option (List StreamedEvent)
  remove event [] = none
  remove event (x ∷ xs) =
      let rest = remove event xs in
      if same x event then some xs else elim rest [ none ↦ none | some ys ↦ some (x ∷ ys) ]

  module _ (fresh_event_ids : List ℕ) (stream_name : StreamName) (group_name : String) where
    -- the loop over `batch.copy()`: the batch as it is left, and the commands of the pipeline
    unfoldable pub trim_loop :
        List StreamedEvent
        → List StreamedEvent
        → List Command
        → List StreamedEvent × Result (List Command)
    unfolding remove
    trim_loop [] batch pipeline = (batch, ok pipeline)
    trim_loop (event ∷ copy) batch pipeline =
        if contains event.event_id fresh_event_ids
        then trim_loop copy batch pipeline
        else elim (remove event batch) [
          | none ↦ (batch, err value_error)
          | some removed ↦
              trim_loop copy removed (pipeline ++ (xack stream_name group_name event.event_id ∷ []))
        ]

    -- the batch is changed in place, also where the pipeline raises
    unfoldable pub trim_duplicate_events :
        {W : Type 0} → Broker W → List StreamedEvent → List StreamedEvent × Action W (Unit {0})
    unfolding trim_loop
    trim_duplicate_events broker batch =
        let (trimmed, pipeline) = trim_loop batch batch [] in
        (trimmed, lift pipeline >>= broker.execute_transaction)
