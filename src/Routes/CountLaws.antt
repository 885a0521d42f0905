-- ===== src/Routes/CountLaws.antt =====
-- How often a counter update of an event is applied: by the server that streams it, and by the
-- worker that commits it.
use tenjin.Common.{ℕ, ◌≡◌, refl, ap, String, List, [], ◌∷◌, ◌++◌, map, append-nil}
use tenjin.Common.Lists.{flat, flat-append}
use tenjin.Common.Action.{Result, ok, err}
use tenjin.Common.Result
use tenjin.Events.{StreamedEvent, Event, IntentUpdate, CounterUpdate}
use tenjin.Events.Values.{Fields, Orjson}
use tenjin.Events.Names.{StreamName}
use tenjin.Pipeline.{
  Command, Broker, acknowledgements, commit_commands, emit_intent_invalidations,
  emit_counter_side_effects,
}
use tenjin.Pipeline.Collect.{
  Gives, caches-Gives, Increment, increment_of, increments, increment_of-cache,
}
use tenjin.Routes.Streamer.{user_event_commands, pipeline_update_counter, pipeline_set_intent}

abbrev pub declared : List CounterUpdate → List Increment
declared = map (λ (u : CounterUpdate). (u.counter_group, u.cache_key, u.delta))

abbrev pub declared_by : StreamedEvent → List Increment
declared_by e = declared e.side_effects.counter_updates

increments-counters :
    (us : List CounterUpdate) → increments (map pipeline_update_counter us) ≡ declared us
unfolding pipeline_update_counter
increments-counters [] = refl
increments-counters (u ∷ us) =
    ap (◌∷◌ (u.counter_group, u.cache_key, u.delta)) (increments-counters us)

increments-set_intents :
    (ttl : ℕ) (us : List IntentUpdate) → increments (map (pipeline_set_intent ttl) us) ≡ []
unfolding pipeline_set_intent
increments-set_intents ttl [] = refl
increments-set_intents ttl (u ∷ us) = increments-set_intents ttl us

-- The server applies the counter updates of an event that it streams, each once.
pub increments-streamed :
    {W : Type 0} (orjson : Orjson) (broker : Broker W) (ttl : ℕ) (stream : StreamName) (e : Event)
    (fields : Fields)
    → increments (user_event_commands orjson broker ttl stream e fields)
      ≡ declared e.side_effects.counter_updates
unfolding user_event_commands
increments-streamed orjson broker ttl stream e fields = simp (
  flat-append increment_of,
  increments-counters e.side_effects.counter_updates,
  increments-set_intents ttl e.side_effects.intent_updates,
  append-nil,
)

increments-intents :
    (uss : List (List IntentUpdate)) → increments (emit_intent_invalidations uss) ≡ []
unfolding emit_intent_invalidations
increments-intents [] = refl
increments-intents ([] ∷ uss) = increments-intents uss
increments-intents ((u ∷ us) ∷ uss) = increments-intents (us ∷ uss)

increments-updates :
    (us : List CounterUpdate) (uss : List (List CounterUpdate))
    → increments (emit_counter_side_effects (us ∷ uss))
      ≡ declared us ++ increments (emit_counter_side_effects uss)
unfolding emit_counter_side_effects
increments-updates [] uss = refl
increments-updates (u ∷ us) uss =
    ap (◌∷◌ (u.counter_group, u.cache_key, u.delta)) (increments-updates us uss)

increments-batch :
    (es : List StreamedEvent)
    → increments
        (emit_counter_side_effects (map (λ (e : StreamedEvent). e.side_effects.counter_updates) es))
      ≡ flat declared_by es
unfolding emit_counter_side_effects
increments-batch [] = refl
increments-batch (e ∷ es) =
    rw (increments-updates e.side_effects.counter_updates, increments-batch es) refl

increments-acknowledgements :
    (stream : StreamName) (group : String) (es : List StreamedEvent)
    → increments (acknowledgements stream group es) ≡ []
unfolding acknowledgements
increments-acknowledgements stream group [] = refl
increments-acknowledgements stream group (e ∷ es) = increments-acknowledgements stream group es

module _ (orjson : Orjson) (stream : StreamName) (group : String) where
  commit-Gives :
      (es : List StreamedEvent)
      → Gives increment_of (flat declared_by es) (commit_commands orjson stream group es)
  unfolding commit_commands
  commit-Gives es = step _ (
      caches-Gives increment_of increment_of-cache orjson
        (map (λ (e : StreamedEvent). e.side_effects.cache_invalidations) es))
    where
      step :
          (m : Result (List Command))
          → Gives increment_of [] m
          → Gives increment_of (flat declared_by es) (
              Result.◌>>=◌ m λ caches. ok (
                acknowledgements stream group es
                ++ (emit_intent_invalidations
                      (map (λ (e : StreamedEvent). e.side_effects.intent_updates) es)
                    ++ (emit_counter_side_effects
                          (map (λ (e : StreamedEvent). e.side_effects.counter_updates) es)
                        ++ caches))))
      step (err x) p = tt
      step (ok caches) p = simp (
        flat-append increment_of,
        increments-intents,
        increments-batch es,
        p,
        append-nil,
        increments-acknowledgements,
      )

  given :
      (xs : List Increment) (cs : List Command) (m : Result (List Command))
      → Gives increment_of xs m
      → m ≡ ok cs
      → increments cs ≡ xs
  given xs cs (ok ds) g h = let same : cs ≡ ds = cc in rw same g
  given xs cs (err e) g h = cc

  -- The transaction by which a worker commits a batch increments the counters by just what the
  -- transactions incremented them by in which the server had streamed the events of the batch:
  -- every counter update is applied twice.
  pub commit_counts_again :
      {W : Type 0} (broker : Broker W) (ttl : ℕ) (fields : StreamedEvent → Fields)
      (es : List StreamedEvent) (cs : List Command)
      → commit_commands orjson stream group es ≡ ok cs
      → increments cs
        ≡ flat
            (λ (e : StreamedEvent).
              increments (user_event_commands orjson broker ttl stream e.event (fields e)))
            es
  commit_counts_again broker ttl fields es cs h =
      rw
        (given (flat declared_by es) cs (commit_commands orjson stream group es) (commit-Gives es)
          h)
        (same es)
    where
      same :
          (xs : List StreamedEvent)
          → flat declared_by xs
            ≡ flat
                (λ (e : StreamedEvent).
                  increments (user_event_commands orjson broker ttl stream e.event (fields e)))
                xs
      same [] = refl
      same (e ∷ xs) =
          rw (increments-streamed orjson broker ttl stream e.event (fields e), same xs) refl
