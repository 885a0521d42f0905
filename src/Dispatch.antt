-- ===== src/Dispatch.antt =====
-- resource_database_workers/tasks/stream_readers.py: the events that are read from a stream go to
-- the queues of their consumers.
pub mod Partition
mod Tests
use tenjin.Common.{
  ℕ, Bool, true, false, if◌then◌else◌, ◌==◌, ◌≡◌, Option, none, some, String, List, [], ◌∷◌, ◌++◌,
}
use tenjin.Common.Action.{
  Action, Error, Result, ok, err, key_error, value_error, index_error, raise, lift, pure, done,
  ◌>>=◌, ◌>>◌,
}
use tenjin.Common.Result.{or_raise}
use tenjin.Events.{StreamedEvent}
use tenjin.Events.Names.{EventName, StreamName}
use tenjin.Events.Decode.{StreamRecord, safe_construct_from_malformed_stream}

-- The ID that is requested: `">"`, a number, or a truth value.
pub data RequestedId : Type 0 where
  only_new : RequestedId
  from_id : ℕ → RequestedId
  flag : Bool → RequestedId

-- What the tasks await. `xreadgroup` gives the streams with their records; queues are known by
-- their identities.
pub record Streams (W : Type 0) : Type 0 where
  pub xreadgroup : StreamName → RequestedId → Action W (List (List StreamRecord))
  pub put_dead : StreamedEvent → Action W (Unit {0})
  pub put : ℕ → List StreamedEvent → Action W (Unit {0})
  pub put_one : ℕ → StreamedEvent → Action W (Unit {0})
  pub sleep : W → W

-- `event_mapping[queue].append(event)` for a defaultdict of lists
unfoldable pub append_to :
    ℕ → StreamedEvent → List (ℕ × List StreamedEvent) → List (ℕ × List StreamedEvent)
append_to queue event [] = (queue, event ∷ []) ∷ []
append_to queue event ((q, events) ∷ groups) =
    if q == queue
    then (q, events ++ (event ∷ [])) ∷ groups
    else (q, events) ∷ append_to queue event groups

-- `queue_mapping[event.name]`; `none` is a KeyError
module _ (queue_mapping : EventName → Option ℕ) where
  unfoldable pub group_events :
      List StreamedEvent → List (ℕ × List StreamedEvent) → Result (List (ℕ × List StreamedEvent))
  unfolding append_to
  group_events [] groups = ok groups
  group_events (event ∷ events) groups =
      tenjin.Common.Result.◌>>=◌ (or_raise (queue_mapping event.name) key_error)
        λ queue. group_events events (append_to queue event groups)

module _ {W : Type 0} (streams : Streams W) (construct : StreamRecord → Result StreamedEvent) where
  -- one record, by what `construct_from_stream_record` makes of it
  unfoldable pub keep_or_bury : StreamRecord → Result StreamedEvent → Action W (List StreamedEvent)
  keep_or_bury event_data (ok event) = pure (event ∷ [])
  keep_or_bury event_data (err value_error) =
      lift (safe_construct_from_malformed_stream event_data) >>= λ event.
      streams.put_dead event >> pure []
  keep_or_bury event_data (err e) = raise e

  unfoldable pub read_events : List StreamRecord → Action W (List StreamedEvent)
  unfolding keep_or_bury
  read_events [] = pure []
  read_events (event_data ∷ subset) = do
    kept ← keep_or_bury event_data (construct event_data)
    events ← read_events subset
    pure (kept ++ events)

  -- `result[0][1]`
  unfoldable pub first_stream : List (List StreamRecord) → Action W (List StreamedEvent)
  unfolding read_events
  first_stream [] = raise index_error
  first_stream (subset ∷ result) = read_events subset

  unfoldable pub stream_reader : StreamName → RequestedId → Action W (List StreamedEvent)
  unfolding first_stream
  stream_reader stream_name requested_id =
      streams.xreadgroup stream_name requested_id >>= first_stream

  unfoldable pub put_batches : List (ℕ × List StreamedEvent) → Action W (Unit {0})
  put_batches [] = done
  put_batches ((queue, events) ∷ groups) = streams.put queue events >> put_batches groups

  unfoldable pub put_events : ℕ → List StreamedEvent → Action W (Unit {0})
  put_events queue [] = done
  put_events queue (event ∷ events) = streams.put_one queue event >> put_events queue events

  unfoldable pub put_singly : List (ℕ × List StreamedEvent) → Action W (Unit {0})
  unfolding put_events
  put_singly [] = done
  put_singly ((queue, events) ∷ groups) = put_events queue events >> put_singly groups

  -- One round of the loop of each dispatcher. What is read does not depend on `requested_id`: the
  -- reader is given `read_history` itself.
  module _ (queue_mapping : EventName → Option ℕ) (stream_name : StreamName)
      (read_history : Bool) where
    unfoldable pub upstream_round : Action W (Unit {0})
    unfolding stream_reader group_events put_batches
    upstream_round = do
      events ← stream_reader stream_name (flag read_history)
      groups ← lift (group_events queue_mapping events [])
      put_batches groups
      λ w. (ok tt, streams.sleep w)

    unfoldable pub downstream_round : Action W (Unit {0})
    unfolding stream_reader group_events put_singly
    downstream_round = do
      events ← stream_reader stream_name (flag read_history)
      groups ← lift (group_events queue_mapping events [])
      put_singly groups
      λ w. (ok tt, streams.sleep w)
