-- ===== src/Pipeline/Settle.antt =====
-- resource_auxillary/event_processing/qos.py (`dlq_aware_process_events`) and wrappers.py: how a
-- batch of events is settled, by its own transaction or on the dead letter stream.
use tenjin.Common.{ℕ, String, List, Option, some}
use tenjin.Common.Action.{Action, Error, network, Result, ok, err}
use tenjin.Events.{StreamedEvent}
use tenjin.Events.Values.{Orjson}
use tenjin.Events.Names.{StreamName}
use tenjin.Retry.{Loop, RetryPolicy, execute_with_redis_retries}
use tenjin.Pipeline.{Broker, amortize_event, acknowledge_event, atomic_ack_and_emit_side_effects}

-- `1 if getattr(e, "error_type", None) == ExceptionType.NETWORK else attempts`
unfoldable pub dlq_attempts : ℕ → Error → ℕ
dlq_attempts attempts network = 1
dlq_attempts attempts _ = attempts

-- an awaited call whose result is not used
unfoldable pub discard : {W A : Type 0} → Result (Option A) × W → Result (Unit {0}) × W
discard (ok _, w) = (ok tt, w)
discard (err e, w) = (err e, w)

module _ {W : Type 0} (orjson : Orjson) (broker : Broker W) (loop : Loop W) (policy : RetryPolicy)
    (stream_name : StreamName) (group_name : String) (dlq_stream_name : StreamName) where
  unfoldable pub declare_dead_with_retries : List StreamedEvent → ℕ → Action W (Unit {0})
  unfolding discard
  declare_dead_with_retries batch attempts w = discard (
      execute_with_redis_retries loop policy
        (amortize_event orjson stream_name group_name broker dlq_stream_name batch) (some attempts)
        w)

  -- the `except Exception` of `dlq_aware_process_events`
  unfoldable pub or_dead_letter :
      List StreamedEvent → ℕ → Result (Option (Unit {0})) × W → Result (Unit {0}) × W
  unfolding dlq_attempts discard
  or_dead_letter events attempts (ok _, w) = (ok tt, w)
  or_dead_letter events attempts (err e, w) = discard (
      execute_with_redis_retries loop policy
        (amortize_event orjson stream_name group_name broker dlq_stream_name events)
        (some (dlq_attempts attempts e)) w)

  unfoldable pub dlq_aware_process_events :
      List StreamedEvent → Action W (Unit {0}) → ℕ → Action W (Unit {0})
  unfolding or_dead_letter
  dlq_aware_process_events events redis_coroutine attempts w =
      or_dead_letter events attempts
        (execute_with_redis_retries loop policy redis_coroutine (some attempts) w)

  unfoldable pub ack_with_retries : List StreamedEvent → ℕ → Action W (Unit {0})
  unfolding dlq_aware_process_events
  ack_with_retries batch attempts =
      dlq_aware_process_events batch (acknowledge_event stream_name group_name broker batch)
        attempts

  unfoldable pub commit_processed_events : List StreamedEvent → Action W (Unit {0})
  unfolding dlq_aware_process_events
  commit_processed_events events =
      dlq_aware_process_events events
        (atomic_ack_and_emit_side_effects orjson stream_name group_name broker events)
        policy.max_retries
