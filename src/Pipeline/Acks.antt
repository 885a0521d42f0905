-- ===== src/Pipeline/Acks.antt =====
-- Which events the transactions acknowledge, and what they copy to the dead letter stream.
use tenjin.Common.{
  true, ℕ, ◌<◌, ◌≡◌, refl, ap, sym, subst, ◌∙◌, append_assoc, inl, inr, String, List, [], ◌∷◌, ◌++◌,
  map, some, append-nil,
}
use tenjin.Common.Lists.{flat, flat-append}
use tenjin.Common.Action.{Result, ok, err}
use tenjin.Common.Result
use tenjin.Common.Result.{or_raise, type_error}
use tenjin.Events.{StreamedEvent, IntentUpdate, CounterUpdate}
use tenjin.Events.Values.{Fields, Orjson}
use tenjin.Events.Names.{StreamName}
use tenjin.Events.Encoding.{streamed_event_repr}
use tenjin.Retry.{Loop, RetryPolicy}
use tenjin.Pipeline.{
  Command, Broker, acknowledgements, amortize_commands, commit_commands, emit_intent_invalidations,
  emit_counter_side_effects, emit_cache_invalidation_side_effects,
}
use tenjin.Pipeline.Collect.{is_cache_command, Gives, caches-Gives}
use tenjin.Pipeline.Settle.{commit_processed_events}
use tenjin.Pipeline.Commit.{Wrote, Settled, commit_runs_whole}
use tenjin.Pipeline.Ran.{
  Part, RunsCommands, Tried, untried, again, In, Every, Every-append, Part-Every,
}

-- One XACK, as its stream, group and event ID.
abbrev pub Ack : Type 0
Ack = StreamName × String × ℕ

abbrev pub ack_of : Command → List Ack
ack_of (Command.xack stream_name group_name event_id) = (stream_name, group_name, event_id) ∷ []
ack_of _ = []

abbrev pub acks : List Command → List Ack
acks = flat ack_of

abbrev pub acks_of_events : StreamName → String → List StreamedEvent → List Ack
acks_of_events stream_name group_name =
    map (λ (e : StreamedEvent). (stream_name, group_name, e.event_id))

pub acks-append : (xs ys : List Command) → acks (xs ++ ys) ≡ acks xs ++ acks ys
acks-append = flat-append ack_of

acks-intents : (uss : List (List IntentUpdate)) → acks (emit_intent_invalidations uss) ≡ []
unfolding emit_intent_invalidations
acks-intents [] = refl
acks-intents ([] ∷ uss) = acks-intents uss
acks-intents ((u ∷ us) ∷ uss) = acks-intents (us ∷ uss)

acks-counters : (uss : List (List CounterUpdate)) → acks (emit_counter_side_effects uss) ≡ []
unfolding emit_counter_side_effects
acks-counters [] = refl
acks-counters ([] ∷ uss) = acks-counters uss
acks-counters ((u ∷ us) ∷ uss) = acks-counters (us ∷ uss)

-- the commands that a call gives, if it returns, acknowledge `acked`
abbrev pub Acknowledges : List Ack → Result (List Command) → Type 0
Acknowledges = Gives ack_of

ack_of-cache : (c : Command) → is_cache_command c ≡ true → ack_of c ≡ []
ack_of-cache (Command.xack s g e) h = cc
ack_of-cache (Command.xadd s f i) h = refl
ack_of-cache (Command.conditional_delete k v) h = refl
ack_of-cache (Command.hincrby k i n) h = refl
ack_of-cache (Command.delete k) h = refl
ack_of-cache (Command.hset k d) h = refl
ack_of-cache (Command.expire k n) h = refl
ack_of-cache (Command.set_ex k v n) h = refl

module _ (orjson : Orjson) where
  module _ (stream_name : StreamName) (group_name : String) where
    pub acks-acknowledgements :
        (events : List StreamedEvent)
        → acks (acknowledgements stream_name group_name events)
          ≡ acks_of_events stream_name group_name events
    unfolding acknowledgements
    acks-acknowledgements [] = refl
    acks-acknowledgements (e ∷ es) =
        ap (◌∷◌ (stream_name, group_name, e.event_id)) (acks-acknowledgements es)

    pub amortize-Acknowledges :
        (dlq : StreamName) (events : List StreamedEvent)
        → Acknowledges
            (acks_of_events stream_name group_name events)
            (amortize_commands orjson stream_name group_name dlq events)
    unfolding amortize_commands
    amortize-Acknowledges dlq [] = refl
    amortize-Acknowledges dlq (e ∷ es) =
        step (streamed_event_repr orjson e) (amortize_commands orjson stream_name group_name dlq es)
          (amortize-Acknowledges dlq es)
      where
        step :
            (m : Result Fields) (n : Result (List Command))
            → Acknowledges (acks_of_events stream_name group_name es) n
            → Acknowledges (acks_of_events stream_name group_name (e ∷ es)) (
                Result.◌>>=◌ m λ fields. Result.◌>>=◌ n λ cs. ok (
                  Command.xack stream_name group_name e.event_id
                  ∷ Command.xadd dlq fields (some e.event_id)
                  ∷ cs))
        step (ok f) (ok cs) p = ap (◌∷◌ (stream_name, group_name, e.event_id)) p
        step (ok f) (err x) p = tt
        step (err x) n p = tt

    commit-Acknowledges :
        (events : List StreamedEvent)
        → Acknowledges
            (acks_of_events stream_name group_name events)
            (commit_commands orjson stream_name group_name events)
    unfolding commit_commands
    commit-Acknowledges events =
        step
          (emit_cache_invalidation_side_effects orjson
            (map (λ (e : StreamedEvent). e.side_effects.cache_invalidations) events))
          (caches-Gives ack_of (λ c h. ack_of-cache c h) orjson
            (map (λ (e : StreamedEvent). e.side_effects.cache_invalidations) events))
      where
        step :
            (m : Result (List Command))
            → Acknowledges [] m
            → Acknowledges (acks_of_events stream_name group_name events) (
                Result.◌>>=◌ m λ caches. ok (
                  acknowledgements stream_name group_name events
                  ++ (emit_intent_invalidations
                        (map (λ (e : StreamedEvent). e.side_effects.intent_updates) events)
                      ++ (emit_counter_side_effects
                            (map (λ (e : StreamedEvent). e.side_effects.counter_updates) events)
                          ++ caches))))
        step (err x) p = tt
        step (ok caches) p =
            simp (acks-append, acks-intents, acks-counters, p, append-nil, acks-acknowledgements)

-- The history `h` has, after those of `l`, the XACKs `acked`, and before them only ones that are
-- among them.
abbrev pub Acked : List Ack → List Command → List Command → Type 0
Acked acked l h =
    (extra : List Ack) × (acks h ≡ acks l ++ (extra ++ acked)) × Every (λ a. In a acked) extra

-- The same where the last of them may be missing.
abbrev pub Nearly : List Ack → List Command → List Command → Type 0
Nearly acked l h = (extra : List Ack) × (acks h ≡ acks l ++ extra) × Every (λ a. In a acked) extra

Part-acks :
    (acked : List Ack) (build : Result (List Command)) (cs rs : List Command)
    → Acknowledges acked build
    → build ≡ ok cs
    → Part rs cs
    → Every (λ a. In a acked) (acks rs)
Part-acks acked (ok ds) cs rs p e part =
    let same : acks cs ≡ acked = ap acks (cs_eq ds cs e) ∙ p in
    subst (λ (xs : List Ack). Every (λ a. In a xs) (acks rs)) same (Part-Every ack_of rs cs part)
  where
    cs_eq : (ds cs : List Command) → ok ds ≡ ok cs → cs ≡ ds
    cs_eq ds cs q = cc
Part-acks acked (err x) cs rs p e part = cc

Tried-acks :
    (acked : List Ack) (build : Result (List Command)) (l m h : List Command)
    → Acknowledges acked build
    → Nearly acked l m
    → Tried build m h
    → Nearly acked l h
Tried-acks acked build l m _ p near untried = near
Tried-acks acked build l m _ p near (again cs rs h b part past) =
    let (extra, sum, every) = Tried-acks acked build l m h p near past in
    (
      extra ++ acks rs,
      acks-append h rs ∙ rw (sum, append_assoc) refl,
      Every-append (λ a. In a acked) extra (acks rs) every (Part-acks acked build cs rs p b part),
    )

pub Wrote-acks :
    {W : Type 0} (log : W → List Command) (l m : List Command) (acked : List Ack)
    (build : Result (List Command)) (w : W)
    → Acknowledges acked build
    → Nearly acked l m
    → Wrote log m build w
    → Acked acked l (log w)
Wrote-acks log l m acked (ok ds) w p near (cs, h, e, tried, wrote) =
    let (extra, sum, every) = Tried-acks acked (ok ds) l m h p near tried in
    (
      extra,
      ap acks wrote ∙ (acks-append h cs ∙ rw (sum, cs_eq ds cs e, p, append_assoc) refl),
      every,
    )
  where
    cs_eq : (ds cs : List Command) → ok ds ≡ ok cs → cs ≡ ds
    cs_eq ds cs q = cc
Wrote-acks log l m acked (err x) w p near (cs, h, e, tried, wrote) = cc

pub none_yet : (acked : List Ack) (l : List Command) → Nearly acked l l
none_yet acked l = ([], sym (append-nil (acks l)), tt)

module _ (orjson : Orjson) (stream_name : StreamName) (group_name : String) {W : Type 0}
    (broker : Broker W) (loop : Loop W) (policy : RetryPolicy) (log : W → List Command)
    (laws : RunsCommands broker loop log) (busy : 0 < policy.max_retries)
    (dlq_stream_name : StreamName) where
  Settled-acks :
      (events : List StreamedEvent) (w w' : W) (o : Result (Unit {0}) × W)
      → Settled log
          (log w)
          (commit_commands orjson stream_name group_name events)
          (amortize_commands orjson stream_name group_name dlq_stream_name events)
          o
      → o ≡ (ok tt, w')
      → Acked (acks_of_events stream_name group_name events) (log w) (log w')
  Settled-acks events w w' (err e, v) s q = cc
  Settled-acks events w w' (ok u, v) (inl live) q =
      rw (← ap (λ (p : Result (Unit {0}) × W). p.1) q) (
        Wrote-acks log (log w) (log w) (acks_of_events stream_name group_name events)
          (commit_commands orjson stream_name group_name events) v
          (commit-Acknowledges orjson stream_name group_name events) (none_yet _ (log w)) live)
  Settled-acks events w w' (ok u, v) (inr (h, tried, dead)) q =
      rw (← ap (λ (p : Result (Unit {0}) × W). p.1) q) (
        Wrote-acks log (log w) h (acks_of_events stream_name group_name events)
          (amortize_commands orjson stream_name group_name dlq_stream_name events) v
          (amortize-Acknowledges orjson stream_name group_name dlq_stream_name events)
          (Tried-acks (acks_of_events stream_name group_name events)
            (commit_commands orjson stream_name group_name events) (log w) (log w) h
            (commit-Acknowledges orjson stream_name group_name events) (none_yet _ (log w)) tried)
          dead)

  -- When committing a batch returns, on either path, an XACK with the event ID was run for each
  -- event of the batch, in the order of the batch, and before these no XACK was run but ones of the
  -- same events.
  pub commit_acknowledges_batch :
      (events : List StreamedEvent) (w w' : W)
      → commit_processed_events orjson broker loop policy stream_name group_name dlq_stream_name
          events w
        ≡ (ok tt, w')
      → Acked (acks_of_events stream_name group_name events) (log w) (log w')
  commit_acknowledges_batch events w w' h =
      Settled-acks events w w'
        (commit_processed_events orjson broker loop policy stream_name group_name dlq_stream_name
          events w)
        (commit_runs_whole broker loop policy log laws busy orjson stream_name group_name
          dlq_stream_name events w)
        h
