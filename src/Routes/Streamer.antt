-- ===== src/Routes/Streamer.antt =====
-- resource_server/event_streamer.py: an event is streamed in one transaction with its counters and
-- intents.
use tenjin.Common.{ℕ, ◌≡◌, refl, none, List, [], ◌∷◌, ◌++◌, map}
use tenjin.Common.Action.{Action, err, type_error, lift, ◌>>=◌}
use tenjin.Events.{Event, CounterUpdate, IntentUpdate}
use tenjin.Events.Values.{Fields, Orjson, RefusesBytes}
use tenjin.Events.Names.{StreamName}
use tenjin.Events.Encoding.{event_repr, event_repr_raises, intent_value}
use tenjin.Pipeline.{Command, hincrby, set_ex, xadd, Broker}

unfoldable pub pipeline_update_counter : CounterUpdate → Command
pipeline_update_counter u = hincrby u.counter_group u.cache_key u.delta

unfoldable pub pipeline_set_intent : ℕ → IntentUpdate → Command
unfolding intent_value
pipeline_set_intent ttl u = set_ex u.intent_name (intent_value u) ttl

module _ {W : Type 0} (orjson : Orjson) (broker : Broker W) (ttl_strongest : ℕ) where
  -- the commands of `emit_user_event`, in their order, with the encoded event
  unfoldable pub user_event_commands : StreamName → Event → Fields → List Command
  unfolding pipeline_update_counter pipeline_set_intent
  user_event_commands stream event fields =
      map pipeline_update_counter event.side_effects.counter_updates
      ++ (map (pipeline_set_intent ttl_strongest) event.side_effects.intent_updates
          ++ (xadd stream fields none ∷ []))

  unfoldable pub emit_user_event : StreamName → Event → Action W (Unit {0})
  unfolding user_event_commands
  emit_user_event stream event = do
    fields ← lift (event_repr orjson event)
    broker.execute_transaction (user_event_commands stream event fields)

  -- With an encoder that refuses values with bytes in them, no event of a user is streamed: the
  -- TypeError is raised before the transaction, which is never executed.
  pub emit_user_event_raises :
      RefusesBytes orjson
      → (stream : StreamName) (event : Event) (w : W)
      → emit_user_event stream event w ≡ (err type_error, w)
  unfolding emit_user_event
  emit_user_event_raises refuses stream event w = rw (event_repr_raises orjson refuses event) refl
