-- ===== src/Batch/Populate.antt =====
-- `populate_events_batch_from_queue` of pre_processing.py: the loop that fills a consumer's batch.
use tenjin.Common.{
  ℕ, zero, suc, ◌-◌, ◌≤◌, ◌≡◌, refl, Bool, true, not, if◌then◌else◌, ltb, leb, Option, none, some,
  List, [], ◌∷◌, ◌++◌, arith, Bool-cases, inl, inr,
}
use tenjin.Common.Lists.{length}
use tenjin.Events.{StreamedEvent}

-- SupportsInternalQueueConsumerPolicy: the quota of a batch and the time to wait for it.
pub record BatchingPolicy : Type 0 where
  pub batch_size_quota : ℕ
  pub base_waiting_time : ℕ

-- What the loop awaits: the clock, the queue (`none` is a timeout) and `asyncio.sleep`.
pub record Source (W : Type 0) : Type 0 where
  pub monotonic : W → ℕ × W
  pub get : W → Option (List StreamedEvent) × W
  pub sleep : W → W

-- The local variables between two rounds of `while True`.
pub record Filling (W : Type 0) : Type 0 where
  pub reference_time : ℕ
  pub batch : List StreamedEvent
  pub world : W

-- A round goes on with new variables, or leaves the loop.
pub data Round (W : Type 0) : Type 0 where
  continue : Filling W → Round W
  leave : Filling W → Round W

module _ {W : Type 0} (policy : BatchingPolicy) (source : Source W) where
  -- after `queue.get()`, under the two tests
  unfoldable pub receive : ℕ → List StreamedEvent → Option (List StreamedEvent) × W → Round W
  receive reference_time batch (none, w) =
      continue (record { reference_time = reference_time; batch = batch; world = source.sleep w })
  receive reference_time [] (some new_entries, w) =
      let (now, w') = source.monotonic w in
      continue (record { reference_time = now; batch = new_entries; world = w' })
  receive reference_time (e ∷ es) (some new_entries, w) =
      continue
        (record { reference_time = reference_time; batch = (e ∷ es) ++ new_entries; world = w })

  unfoldable pub wait_for_events : ℕ → List StreamedEvent → W → Round W
  wait_for_events reference_time [] w =
      let (now, w') = source.monotonic (source.sleep w) in
      continue (record { reference_time = now; batch = []; world = w' })
  wait_for_events reference_time (e ∷ es) w =
      continue (record { reference_time = reference_time; batch = e ∷ es; world = w })

  -- `len(batch) >= quota or ...`: the clock is read only if the first test fails
  unfoldable pub quota_reached : Filling W → Bool × W
  quota_reached s = if leb policy.batch_size_quota (length s.batch) then (true, s.world) else (
    ltb policy.base_waiting_time ((source.monotonic s.world).0 - s.reference_time),
    (source.monotonic s.world).1,
  )

  unfoldable pub populate_round : Filling W → Round W
  unfolding receive wait_for_events quota_reached
  populate_round s =
      let (reached, w) = quota_reached s in
      if not reached
      then receive s.reference_time s.batch (source.get w)
      else wait_for_events s.reference_time s.batch w

  -- the batch with which the loop is left within the given number of rounds
  unfoldable pub populate_events_batch_from_queue : ℕ → Filling W → Option (List StreamedEvent)
  unfolding populate_round
  populate_events_batch_from_queue zero s = none
  populate_events_batch_from_queue (suc rounds) s = elim (populate_round s) [
    | continue s' ↦ populate_events_batch_from_queue rounds s'
    | leave s' ↦ some s'.batch
  ]

  -- whether a round goes on
  abbrev GoesOn : Round W → Type 0
  GoesOn (continue s) = Unit
  GoesOn (leave s) = ⊥

  receive-GoesOn :
      (reference_time : ℕ) (batch : List StreamedEvent) (got : Option (List StreamedEvent) × W)
      → GoesOn (receive reference_time batch got)
  unfolding receive
  receive-GoesOn reference_time batch (none, w) = tt
  receive-GoesOn reference_time [] (some new_entries, w) = tt
  receive-GoesOn reference_time (e ∷ es) (some new_entries, w) = tt

  wait-GoesOn :
      (reference_time : ℕ) (batch : List StreamedEvent) (w : W)
      → GoesOn (wait_for_events reference_time batch w)
  unfolding wait_for_events
  wait-GoesOn reference_time [] w = tt
  wait-GoesOn reference_time (e ∷ es) w = tt

  round-GoesOn : (s : Filling W) → GoesOn (populate_round s)
  unfolding populate_round
  round-GoesOn s = elim (Bool-cases (quota_reached s).0) [
    | inl e ↦ rw e (wait-GoesOn s.reference_time s.batch (quota_reached s).1)
    | inr e ↦ rw e (receive-GoesOn s.reference_time s.batch (source.get (quota_reached s).1))
  ]

  after_round :
      (rounds : ℕ) (r : Round W)
      → GoesOn r
      → ((s : Filling W) → populate_events_batch_from_queue rounds s ≡ none)
      → (elim r [
        | continue s' ↦ populate_events_batch_from_queue rounds s'
        | leave s' ↦ some s'.batch
      ])
        ≡ none
  after_round rounds (continue s) h rest = rest s
  after_round rounds (leave s) h rest = absurd h

  -- The loop is never left: whatever the queue and the clock give, no number of rounds ends it,
  -- also when the batch is full, so no batch is ever handed to the consumer.
  pub populate_never_returns :
      (rounds : ℕ) (s : Filling W) → populate_events_batch_from_queue rounds s ≡ none
  unfolding populate_events_batch_from_queue
  populate_never_returns zero s = refl
  populate_never_returns (suc rounds) s =
      after_round rounds (populate_round s) (round-GoesOn s) (populate_never_returns rounds)

  -- With a full batch that holds an event, a round awaits nothing and changes nothing: the loop
  -- spins without letting another coroutine run.
  pub full_batch_spins :
      (reference_time : ℕ) (e : StreamedEvent) (es : List StreamedEvent) (w : W)
      → policy.batch_size_quota ≤ length (e ∷ es)
      → let s : Filling W = record { reference_time = reference_time; batch = e ∷ es; world = w } in
        populate_round s ≡ continue s
  unfolding populate_round
  full_batch_spins reference_time e es w h = ground arith
