-- ===== src/Events/Encoding.antt =====
-- resource_auxillary/events.py: `__cache_repr__` of the events and of their parts, which encodes
-- an event as the fields of a stream record.
use tenjin.Common.{◌⊎◌, inl, inr, Option-cases, ◌≡◌, String, [], ◌∷◌, true, refl}
use tenjin.Common.Result.{Result, ok, err, type_error, ◌>>=◌, or_raise}
use tenjin.Common.Int.{pos}
use tenjin.Events.{
  CounterUpdate, IntentUpdate, CacheUpdate, CacheOperation, EventSideEffects, Event, StreamedEvent,
  invalidate, mark_missing,
}
use tenjin.Events.Values.{
  Value, Fields, Orjson, int, str, bytes, array, object, end, field, to_array, append_field,
  RefusesBytes, has_bytes,
}
use tenjin.Events.Names.{event_value, intent_flag_value, join_names}

unfoldable pub counter_update_repr : CounterUpdate → Value
counter_update_repr u = object (
    field "counter_group" (str u.counter_group) (
      field "cache_key" (str u.cache_key)
        (field "field_name" (str u.field_name) (field "delta" (int u.delta) end))))

-- `IntentUpdate.intent_value`
unfoldable pub intent_value : IntentUpdate → String
unfolding join_names intent_flag_value
intent_value u = join_names (intent_flag_value u.intent_flag ∷ u.intent_id ∷ [])

unfoldable pub intent_update_repr : IntentUpdate → Value
intent_update_repr u = object (
    field "intent_name" (str u.intent_name) (
      field "intent_flag" (str (intent_flag_value u.intent_flag))
        (field "intent_id" (str u.intent_id) end)))

abbrev operation_value : CacheOperation → String
operation_value invalidate = "invalidate"
operation_value mark_missing = "mark_missing"

-- `resource_type` is not among the fields
unfoldable pub cache_update_repr : CacheUpdate → Value
cache_update_repr u = object (
    field "cache_key" (str u.cache_key) (field "operation" (str (operation_value u.operation)) end))

module _ (orjson : Orjson) where
  unfoldable pub dumps_bytes : Value → Result Value
  dumps_bytes v = or_raise (orjson.dumps v) type_error >>= λ b. ok (bytes b)

  unfoldable pub side_effects_repr : EventSideEffects → Result Value
  side_effects_repr s = do
    counters ← dumps_bytes (array (to_array counter_update_repr s.counter_updates))
    intents ← dumps_bytes (array (to_array intent_update_repr s.intent_updates))
    caches ← dumps_bytes (array (to_array cache_update_repr s.cache_invalidations))
    ok (
        object (
          field "counter_updates" counters
            (field "intent_updates" intents (field "cache_invalidations" caches end))))

  unfoldable pub event_repr : Event → Result Fields
  event_repr e = do
    payload ← dumps_bytes (object e.payload)
    effects ← side_effects_repr e.side_effects
    side_effects ← dumps_bytes effects
    ok (
        field "name" (str (event_value e.name))
          (field "payload" payload (field "side_effects" side_effects end)))

  -- `super().__cache_repr__() | {"event_id": self.event_id}`
  unfoldable pub streamed_event_repr : StreamedEvent → Result Fields
  streamed_event_repr e = do
    fields ← event_repr e.event
    ok (append_field fields "event_id" (int (pos e.event_id)))

  dumps_bytes_cases :
      (v : Value)
      → (dumps_bytes v ≡ err type_error) ⊎ ((b : String) × (dumps_bytes v ≡ ok (bytes b)))
  unfolding dumps_bytes
  dumps_bytes_cases v = elim (Option-cases (orjson.dumps v)) [
    | inl e ↦ inl (rw e)
    | inr (b, e) ↦ inr (b, rw e)
  ]

  -- what follows the counters, and what follows the intents
  intents_cases :
      (s : EventSideEffects) (a : String)
      → let rest : Result Value = (do
        intents ← dumps_bytes (array (to_array intent_update_repr s.intent_updates))
        caches ← dumps_bytes (array (to_array cache_update_repr s.cache_invalidations))
        ok (
            object (
              field "counter_updates"
                (bytes a)
                (field "intent_updates" intents (field "cache_invalidations" caches end))))) in
        (rest ≡ err type_error) ⊎ ((v : Value) × (rest ≡ ok v) × (has_bytes v ≡ true))
  intents_cases s a =
      elim (dumps_bytes_cases (array (to_array intent_update_repr s.intent_updates))) [
        | inl e ↦ inl (rw e)
        | inr (b, e) ↦
            elim (dumps_bytes_cases (array (to_array cache_update_repr s.cache_invalidations))) [
              | inl f ↦ inl (rw (e, f))
              | inr (c, f) ↦ inr (
                object (
                    field "counter_updates" (bytes a) (
                      field "intent_updates" (bytes b)
                        (field "cache_invalidations" (bytes c) end))),
                rw (e, f),
                refl,
              )
            ]
      ]

  side_effects_repr_cases :
      (s : EventSideEffects)
      → (side_effects_repr s ≡ err type_error)
        ⊎ ((v : Value) × (side_effects_repr s ≡ ok v) × (has_bytes v ≡ true))
  unfolding side_effects_repr
  side_effects_repr_cases s =
      elim (dumps_bytes_cases (array (to_array counter_update_repr s.counter_updates))) [
        | inl e ↦ inl (rw e)
        | inr (a, e) ↦ rw e (intents_cases s a)
      ]

  module _ (refuses : RefusesBytes orjson) where
    dumps_has_bytes : (v : Value) → has_bytes v ≡ true → dumps_bytes v ≡ err type_error
    unfolding dumps_bytes
    dumps_has_bytes v h = rw (refuses.refuses v h)

    -- No event can be encoded, since its side effects hold encoded texts.
    pub event_repr_raises : (e : Event) → event_repr e ≡ err type_error
    unfolding event_repr
    event_repr_raises e = elim (dumps_bytes_cases (object e.payload)) [
      | inl p ↦ rw p
      | inr (a, p) ↦ elim (side_effects_repr_cases e.side_effects) [
        | inl q ↦ rw (p, q)
        | inr (v, q, h) ↦ rw (p, q, dumps_has_bytes v h)
      ]
    ]

    -- `__cache_repr__` of the side effects holds encoded texts, which are bytes, and the event
    -- encodes it again: with an encoder that refuses bytes, no event can be encoded.
    pub streamed_event_repr_raises : (e : StreamedEvent) → streamed_event_repr e ≡ err type_error
    unfolding streamed_event_repr
    streamed_event_repr_raises e = rw (event_repr_raises e.event) refl
