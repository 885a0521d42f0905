-- ===== src/Pipeline/Commit.antt =====
-- Which commands Redis runs when a batch is settled.
use tenjin.Common.{
  ℕ, suc, ◌<◌, ◌≡◌, refl, ◌⊎◌, inl, inr, ◌≢◌, sym, subst, zero, String, List, ◌++◌, Option, none,
  some, arith,
}
use tenjin.Common.Action.{Action, Result, ok, err, lift, ◌>>=◌}
use tenjin.Events.{StreamedEvent}
use tenjin.Events.Values.{Orjson}
use tenjin.Events.Names.{StreamName}
use tenjin.Retry.{Loop, RetryPolicy, execute_with_redis_retries, effective_attempts}
use tenjin.Retry.Rules.{Ends, EndsRetried, execute_with_redis_retries-Ends}
use tenjin.Retry.Attempts.{execute-ne-none}
use tenjin.Pipeline.{
  Command, Broker, amortize_event, acknowledge_event, acknowledgements,
  atomic_ack_and_emit_side_effects, amortize_commands, commit_commands,
}
use tenjin.Pipeline.Ran.{RunsCommands, Tried, untried, again}
use tenjin.Pipeline.Settle.{
  discard, or_dead_letter, dlq_attempts, dlq_aware_process_events, ack_with_retries,
  commit_processed_events,
}

-- The history `log w` is that of failed transactions after `l`, and then all the commands that
-- `build` gives.
abbrev pub Wrote :
    {W : Type 0} → (W → List Command) → List Command → Result (List Command) → W → Type 0
Wrote log l build w =
    (cs : List Command) × (h : List Command) × (build ≡ ok cs) × Tried build l h × (log w ≡ h ++ cs)

-- How a settled batch leaves the history `l`.
abbrev pub Settled :
    {W : Type 0}
    → (W → List Command)
    → List Command
    → Result (List Command)
    → Result (List Command)
    → Result (Unit {0}) × W
    → Type 0
Settled log l live dead (ok _, w) =
    Wrote log l live w ⊎ ((h : List Command) × Tried live l h × Wrote log h dead w)
Settled log l live dead (err e, w) = (h : List Command) × Tried live l h × Tried dead h (log w)

module _ {W : Type 0} (broker : Broker W) (loop : Loop W) (policy : RetryPolicy)
    (log : W → List Command) (laws : RunsCommands broker loop log)
    (busy : 0 < policy.max_retries) where
  executed :
      (cs l : List Command) (build : Result (List Command)) (w : W) (o : Result (Unit {0}) × W)
      → build ≡ ok cs
      → Tried build l (log w)
      → broker.execute_transaction cs w ≡ o
      → Ends (λ w'. Tried build l (log w')) (λ _ w'. Wrote log l build w') o
  executed cs l build w (ok u, w') b h e = (cs, log w, b, h, laws.applied cs w w' e)
  executed cs l build w (err x, w') b h e =
      let (rs, part, ran) = laws.failed cs w w' x e in
      subst (Tried build l) (sym ran) (again cs rs (log w) b part h)

  -- One call of a coroutine that builds its commands and executes them.
  transaction-Ends :
      (build : Result (List Command)) (l : List Command) (w : W)
      → Tried build l (log w)
      → Ends
          (λ w'. Tried build l (log w'))
          (λ _ w'. Wrote log l build w')
          ((lift build >>= λ cs. broker.execute_transaction cs) w)
  transaction-Ends (err e) l w h = h
  transaction-Ends (ok cs) l w h =
      executed cs l (ok cs) w (broker.execute_transaction cs w) refl h refl

  effective_pos : (n : ℕ) → 0 < effective_attempts policy (some n)
  unfolding effective_attempts
  effective_pos zero = busy
  effective_pos (suc n) = omega arith

  module _ (l : List Command) (build : Result (List Command)) where
    discard-Ends :
        (o : Result (Option (Unit {0})) × W)
        → EndsRetried (λ w. Tried build l (log w)) (λ _ w. Wrote log l build w) o
        → o.0 ≢ ok none
        → Ends (λ w. Tried build l (log w)) (λ _ w. Wrote log l build w) (discard o)
    unfolding discard
    discard-Ends (ok (some u), w) h ne = h
    discard-Ends (ok none, w) h ne = absurd (ne refl)
    discard-Ends (err e, w) h ne = h

    -- A retried transaction that is built by `build`.
    retried-Ends :
        (coro : Action W (Unit {0})) (n : ℕ) (w : W)
        → ((v : W)
            → Tried build l (log v)
            → Ends (λ w'. Tried build l (log w')) (λ _ w'. Wrote log l build w') (coro v))
        → Tried build l (log w)
        → Ends
            (λ w'. Tried build l (log w'))
            (λ _ w'. Wrote log l build w')
            (discard (execute_with_redis_retries loop policy coro (some n) w))
    retried-Ends coro n w once h =
        discard-Ends (execute_with_redis_retries loop policy coro (some n) w)
          (execute_with_redis_retries-Ends (λ v. Tried build l (log v)) (λ _ v. Wrote log l build v)
            loop policy (λ k v e. subst (Tried build l) (sym (laws.rests k v)) e) coro once (some n)
            w h)
          (execute-ne-none loop policy coro (some n) w (effective_pos n))

  module _ (orjson : Orjson) (stream_name : StreamName) (group_name : String)
      (dlq_stream_name : StreamName) where
    dead_letter-Settled :
        (l h : List Command) (live dead : Result (List Command)) (o : Result (Unit {0}) × W)
        → Tried live l h
        → Ends (λ w. Tried dead h (log w)) (λ _ w. Wrote log h dead w) o
        → Settled log l live dead o
    dead_letter-Settled l h live dead (ok u, w) t e = inr (h, t, e)
    dead_letter-Settled l h live dead (err x, w) t e = (h, t, e)

    or_dead_letter-Settled :
        (l : List Command) (live : Result (List Command)) (batch : List StreamedEvent)
        (attempts : ℕ) (o : Result (Option (Unit {0})) × W)
        → EndsRetried (λ w. Tried live l (log w)) (λ _ w. Wrote log l live w) o
        → o.0 ≢ ok none
        → Settled log l live
            (amortize_commands orjson stream_name group_name dlq_stream_name batch)
            (or_dead_letter orjson broker loop policy stream_name group_name dlq_stream_name batch
              attempts o)
    unfolding or_dead_letter amortize_event
    or_dead_letter-Settled l live batch attempts (ok (some u), w) h ne = inl h
    or_dead_letter-Settled l live batch attempts (ok none, w) h ne = absurd (ne refl)
    or_dead_letter-Settled l live batch attempts (err e, w) h ne =
        let dead : Result (List Command) =
          amortize_commands orjson stream_name group_name dlq_stream_name batch in
        dead_letter-Settled l (log w) live dead
          (discard (
            execute_with_redis_retries loop policy
              (amortize_event orjson stream_name group_name broker dlq_stream_name batch)
              (some (dlq_attempts attempts e)) w))
          h
          (retried-Ends (log w) dead
            (amortize_event orjson stream_name group_name broker dlq_stream_name batch)
            (dlq_attempts attempts e) w (λ v k. transaction-Ends dead (log w) v k) untried)

    dlq_aware-Settled :
        (live : Result (List Command)) (coro : Action W (Unit {0})) (batch : List StreamedEvent)
        (attempts : ℕ) (w : W)
        → ((v : W)
            → Tried live (log w) (log v)
            → Ends (λ w'. Tried live (log w) (log w')) (λ _ w'. Wrote log (log w) live w') (coro v))
        → Settled log
            (log w)
            live
            (amortize_commands orjson stream_name group_name dlq_stream_name batch)
            (dlq_aware_process_events orjson broker loop policy stream_name group_name
              dlq_stream_name batch coro attempts w)
    unfolding dlq_aware_process_events
    dlq_aware-Settled live coro batch attempts w once =
        or_dead_letter-Settled (log w) live batch attempts
          (execute_with_redis_retries loop policy coro (some attempts) w)
          (execute_with_redis_retries-Ends (λ v. Tried live (log w) (log v))
            (λ _ v. Wrote log (log w) live v) loop policy
            (λ k v e. subst (Tried live (log w)) (sym (laws.rests k v)) e) coro once (some attempts)
            w untried)
          (execute-ne-none loop policy coro (some attempts) w (effective_pos attempts))

    -- Committing a batch: when it returns, all the commands that acknowledge the events and emit
    -- their side effects were run, in order, or all that move the events to the dead letter stream;
    -- before them at most parts of the first commands were run, and then, on the second path, parts
    -- of the second. When it raises, at most such parts were run.
    pub commit_runs_whole :
        (events : List StreamedEvent) (w : W)
        → Settled log
            (log w)
            (commit_commands orjson stream_name group_name events)
            (amortize_commands orjson stream_name group_name dlq_stream_name events)
            (commit_processed_events orjson broker loop policy stream_name group_name
              dlq_stream_name events w)
    unfolding commit_processed_events atomic_ack_and_emit_side_effects
    commit_runs_whole events w =
        dlq_aware-Settled (commit_commands orjson stream_name group_name events)
          (atomic_ack_and_emit_side_effects orjson stream_name group_name broker events) events
          policy.max_retries w
          (λ v h.
            transaction-Ends (commit_commands orjson stream_name group_name events) (log w) v h)

    -- The same for acknowledging a batch, with the commands that acknowledge it.
    pub ack_runs_whole :
        (batch : List StreamedEvent) (attempts : ℕ) (w : W)
        → Settled log
            (log w)
            (ok (acknowledgements stream_name group_name batch))
            (amortize_commands orjson stream_name group_name dlq_stream_name batch)
            (ack_with_retries orjson broker loop policy stream_name group_name dlq_stream_name batch
              attempts w)
    unfolding ack_with_retries acknowledge_event
    ack_runs_whole batch attempts w =
        dlq_aware-Settled (ok (acknowledgements stream_name group_name batch))
          (acknowledge_event stream_name group_name broker batch) batch attempts w
          (λ v h. transaction-Ends (ok (acknowledgements stream_name group_name batch)) (log w) v h)
