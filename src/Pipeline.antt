-- ===== src/Pipeline.antt =====
-- resource_auxillary/event_processing/post_processing.py: the Redis transactions by which the
-- workers acknowledge events, emit their side effects, and move events to the dead letter stream.
pub mod Ran
pub mod Commit
pub mod Settle
pub mod DeadLetter
pub mod Collect
pub mod Acks
pub mod Samples
mod Tests
use tenjin.Common.{map, ℕ, Bool, true, false, Option, none, some, String, List, [], ◌∷◌, ◌++◌, ◌≡◌}
use tenjin.Common.Action.{Action, lift, ◌>>=◌}
use tenjin.Common.Lists.{flat}
use tenjin.Common.Result
use tenjin.Common.Result.{Error, Result, ok, err, type_error, or_raise}
use tenjin.Common.Int.{ℤ}
use tenjin.Events.{
  StreamedEvent, Event, IntentUpdate, CacheUpdate, CounterUpdate, invalidate, mark_missing,
  CacheOperation, ResourceType, mapping, string,
}
use tenjin.Events.Values.{Fields, Orjson, str, object, end, field}
use tenjin.Events.Names.{StreamName}
use tenjin.Events.Encoding.{streamed_event_repr, event_repr, intent_value}
use tenjin.Retry.{Loop}

-- The commands that the code puts into pipelines, with their arguments.
pub data Command : Type 0 where
  xack : StreamName → String → ℕ → Command
  xadd : StreamName → Fields → Option ℕ → Command
  -- the script CONDITIIONAL_DELETE_TARGET_INTENT_TEMPLATE, with its key and its argument
  conditional_delete : String → String → Command
  hincrby : String → String → ℤ → Command
  delete : String → Command
  hset : String → Fields → Command
  expire : String → ℕ → Command
  set_ex : String → String → ℕ → Command

-- The Redis client: `execute_transaction` is `execute()` on a pipeline with `transaction=True`.
pub record Broker (W : Type 0) : Type 0 where
  pub execute_transaction : List Command → Action W (Unit {0})

-- cache.py: NF_MAPPING
abbrev pub nf_mapping : Fields
nf_mapping = field "__NF__" (str "NF") end

unfoldable pub emit_intent_invalidations : List (List IntentUpdate) → List Command
emit_intent_invalidations =
    flat (λ updates. flat (λ u. conditional_delete u.intent_name (intent_value u) ∷ []) updates)

unfoldable pub emit_counter_side_effects : List (List CounterUpdate) → List Command
emit_counter_side_effects =
    flat (λ updates. flat (λ u. hincrby u.counter_group u.cache_key u.delta ∷ []) updates)

module _ (stream_name : StreamName) (group_name : String) where
  unfoldable pub acknowledgements : List StreamedEvent → List Command
  acknowledgements = flat (λ event. xack stream_name group_name event.event_id ∷ [])

  unfoldable pub acknowledge_event :
      {W : Type 0} → Broker W → List StreamedEvent → Action W (Unit {0})
  acknowledge_event broker events = broker.execute_transaction (acknowledgements events)

module _ (orjson : Orjson) where
  mark_missing_commands : ResourceType → String → Result (List Command)
  mark_missing_commands mapping key = ok (hset key nf_mapping ∷ expire key 60 ∷ [])
  mark_missing_commands string key =
      Result.◌>>=◌ (or_raise (orjson.dumps (object nf_mapping)) type_error)
        λ b. ok (set_ex key b 60 ∷ [])

  cache_invalidation : CacheOperation → ResourceType → String → Result (List Command)
  unfolding mark_missing_commands
  cache_invalidation invalidate resource key = ok (delete key ∷ [])
  cache_invalidation mark_missing resource key = mark_missing_commands resource key

  -- the inner loop of `_emit_cache_invalidation_side_effects`
  cache_invalidations : List CacheUpdate → Result (List Command)
  unfolding cache_invalidation
  cache_invalidations [] = ok []
  cache_invalidations (u ∷ us) =
      Result.◌>>=◌ (cache_invalidation u.operation u.resource_type u.cache_key)
        λ cs. Result.◌>>=◌ (cache_invalidations us) λ ds. ok (cs ++ ds)

  unfoldable pub emit_cache_invalidation_side_effects :
      List (List CacheUpdate) → Result (List Command)
  unfolding cache_invalidations
  emit_cache_invalidation_side_effects [] = ok []
  emit_cache_invalidation_side_effects (us ∷ uss) =
      Result.◌>>=◌ (cache_invalidations us)
        λ cs. Result.◌>>=◌ (emit_cache_invalidation_side_effects uss) λ ds. ok (cs ++ ds)

  module _ (stream_name : StreamName) (group_name : String) where
    -- the commands of `atomic_ack_and_emit_side_effects`, in their order
    unfoldable pub commit_commands : List StreamedEvent → Result (List Command)
    commit_commands events =
        Result.◌>>=◌
          (emit_cache_invalidation_side_effects
            (map (λ (e : StreamedEvent). e.side_effects.cache_invalidations) events))
          λ caches. ok (
            acknowledgements stream_name group_name events
            ++ (emit_intent_invalidations
                  (map (λ (e : StreamedEvent). e.side_effects.intent_updates) events)
                ++ (emit_counter_side_effects
                      (map (λ (e : StreamedEvent). e.side_effects.counter_updates) events)
                    ++ caches)))

    -- the commands of `amortize_event`
    unfoldable pub amortize_commands : StreamName → List StreamedEvent → Result (List Command)
    amortize_commands dlq_stream_name [] = ok []
    amortize_commands dlq_stream_name (event ∷ events) =
        Result.◌>>=◌ (streamed_event_repr orjson event) λ fields.
          Result.◌>>=◌ (amortize_commands dlq_stream_name events) λ cs. ok (
            xack stream_name group_name event.event_id
            ∷ xadd dlq_stream_name fields (some event.event_id)
            ∷ cs)

    module _ {W : Type 0} (broker : Broker W) where
      unfoldable pub amortize_event : StreamName → List StreamedEvent → Action W (Unit {0})
      amortize_event dlq_stream_name events = do
        cs ← lift (amortize_commands dlq_stream_name events)
        broker.execute_transaction cs

      unfoldable pub atomic_ack_and_emit_side_effects : List StreamedEvent → Action W (Unit {0})
      atomic_ack_and_emit_side_effects events = do
        cs ← lift (commit_commands events)
        broker.execute_transaction cs

  stream_commands : StreamName → List Event → Result (List Command)
  stream_commands stream_name [] = ok []
  stream_commands stream_name (event ∷ events) = Result.◌>>=◌ (event_repr orjson event) λ fields.
      Result.◌>>=◌ (stream_commands stream_name events) λ cs. ok (xadd stream_name fields none ∷ cs)

  unfoldable pub stream_events :
      {W : Type 0} → Broker W → List Event → StreamName → Action W (Unit {0})
  unfolding stream_commands
  stream_events broker events stream_name = do
    cs ← lift (stream_commands stream_name events)
    broker.execute_transaction cs
