-- ===== src/Dispatch/Partition.antt =====
-- Grouping by queue is a partition of the events that were read.
use tenjin.Common.{
  ℕ, Bool, true, false, if◌then◌else◌, ◌==◌, ◌≡◌, refl, sym, ◌∙◌, Option, none, some, List, [], ◌∷◌,
  ◌++◌, append_assoc, append-nil, arith, Bool-cases, Option-cases, inl, inr,
}
use tenjin.Common.Lists.{select}
use tenjin.Common.Result.{ok}
use tenjin.Events.{StreamedEvent}
use tenjin.Events.Names.{EventName}
use tenjin.Dispatch.{append_to, group_events}

-- everything that is put into a queue, in order
abbrev pub events_for : ℕ → List (ℕ × List StreamedEvent) → List StreamedEvent
events_for q [] = []
events_for q ((p, events) ∷ groups) =
    if p == q then events ++ events_for q groups else events_for q groups

-- the queues of the groups
abbrev pub has_queue : ℕ → List (ℕ × List StreamedEvent) → Bool
has_queue q [] = false
has_queue q ((p, events) ∷ groups) = if p == q then true else has_queue q groups

-- no queue has two groups
abbrev pub IsGrouped : List (ℕ × List StreamedEvent) → Type 0
IsGrouped [] = Unit
IsGrouped ((p, events) ∷ groups) = (has_queue p groups ≡ false) × IsGrouped groups

abbrev pub is_queue : ℕ → Option ℕ → Bool
is_queue q none = false
is_queue q (some p) = p == q

abbrev pub goes_to : (EventName → Option ℕ) → ℕ → StreamedEvent → Bool
goes_to queue_mapping q event = is_queue q (queue_mapping event.name)

has_queue-append_to :
    (p q : ℕ) (e : StreamedEvent) (groups : List (ℕ × List StreamedEvent))
    → has_queue q (append_to p e groups) ≡ (if p == q then true else has_queue q groups)
unfolding append_to
has_queue-append_to p q e [] = refl
has_queue-append_to p q e ((r, es) ∷ groups) = ground (arith, has_queue-append_to p q e groups)

append_to-IsGrouped :
    (p : ℕ) (e : StreamedEvent) (groups : List (ℕ × List StreamedEvent))
    → IsGrouped groups
    → IsGrouped (append_to p e groups)
unfolding append_to
append_to-IsGrouped p e [] h = (refl, tt)
append_to-IsGrouped p e ((r, es) ∷ groups) (new, rest) = elim (Bool-cases (r == p)) [
  | inl same ↦ rw same (new, rest)
  | inr other ↦
      rw other
        (ground (arith, has_queue-append_to p r e groups), append_to-IsGrouped p e groups rest)
]

absent :
    (q : ℕ) (groups : List (ℕ × List StreamedEvent))
    → has_queue q groups ≡ false
    → events_for q groups ≡ []
absent q [] h = refl
absent q ((p, es) ∷ groups) h = ground (arith, absent q groups)

-- an event that joins the first group
joins_first :
    (p q r : ℕ) (e : StreamedEvent) (es : List StreamedEvent)
    (groups : List (ℕ × List StreamedEvent))
    → (r == p) ≡ true
    → has_queue r groups ≡ false
    → events_for q ((r, es ++ (e ∷ [])) ∷ groups)
      ≡ events_for q ((r, es) ∷ groups) ++ (if p == q then e ∷ [] else [])
joins_first p q r e es groups same new = elim (Bool-cases (p == q)) [
  | inl s ↦
      let gone : events_for q groups ≡ [] = absent q groups (ground arith) in
      let here : (r == q) ≡ true = ground arith in simp (s, here, gone, append-nil, append_assoc)
  | inr d ↦ let elsewhere : (r == q) ≡ false = ground arith in simp (d, elsewhere, append-nil)
]

-- an event that joins a later group
joins_later :
    (p q r : ℕ) (e : StreamedEvent) (es : List StreamedEvent)
    (groups : List (ℕ × List StreamedEvent))
    → events_for q (append_to p e groups) ≡ events_for q groups ++ (if p == q then e ∷ [] else [])
    → events_for q ((r, es) ∷ append_to p e groups)
      ≡ events_for q ((r, es) ∷ groups) ++ (if p == q then e ∷ [] else [])
joins_later p q r e es groups ih = elim (Bool-cases (r == q)) [
  | inl s ↦ simp (s, ih, append_assoc)
  | inr d ↦ simp (d, ih)
]

-- An event that is appended to its queue's group comes last in that queue, and the other queues
-- stay as they are.
events_for-append_to :
    (p q : ℕ) (e : StreamedEvent) (groups : List (ℕ × List StreamedEvent))
    → IsGrouped groups
    → events_for q (append_to p e groups) ≡ events_for q groups ++ (if p == q then e ∷ [] else [])
unfolding append_to
events_for-append_to p q e [] h = elim (Bool-cases (p == q)) [
  | inl s ↦ rw s refl
  | inr d ↦ rw d refl
]
events_for-append_to p q e ((r, es) ∷ groups) (new, rest) = elim (Bool-cases (r == p)) [
  | inl same ↦ rw same (joins_first p q r e es groups same new)
  | inr other ↦ rw other (joins_later p q r e es groups (events_for-append_to p q e groups rest))
]

module _ (queue_mapping : EventName → Option ℕ) (q : ℕ) where
  select-cons :
      (e : StreamedEvent) (events : List StreamedEvent) (p : ℕ)
      → queue_mapping e.name ≡ some p
      → select (goes_to queue_mapping q) (e ∷ events)
        ≡ (if p == q then e ∷ [] else []) ++ select (goes_to queue_mapping q) events
  select-cons e events p h = elim (Bool-cases (p == q)) [
    | inl s ↦ simp (h, s)
    | inr d ↦ simp (h, d)
  ]

  grouped :
      (events : List StreamedEvent) (groups groups' : List (ℕ × List StreamedEvent))
      → IsGrouped groups
      → group_events queue_mapping events groups ≡ ok groups'
      → IsGrouped groups'
        × (events_for q groups' ≡ events_for q groups ++ select (goes_to queue_mapping q) events)
  unfolding group_events
  grouped [] groups groups' g h =
      let same : groups ≡ groups' = cc in rw (← same) (g, sym (append-nil (events_for q groups)))
  grouped (e ∷ events) groups groups' g h = elim (Option-cases (queue_mapping e.name)) [
    | inl missing ↦ let raised = rw missing at h in cc
    | inr (p, found) ↦
        let later : group_events queue_mapping events (append_to p e groups) ≡ ok groups' =
          rw found at h in
        let (g', ih) =
          grouped events (append_to p e groups) groups' (append_to-IsGrouped p e groups g) later in
        (
          g',
          ih
              ∙ simp
                  (events_for-append_to p q e groups g, select-cons e events p found, append_assoc),
        )
  ]

  -- When the events that were read are grouped, no queue has two groups, and what a queue receives
  -- is exactly the events that the mapping sends to it, in the order in which they were read.
  pub group_events_partitions :
      (events : List StreamedEvent) (groups : List (ℕ × List StreamedEvent))
      → group_events queue_mapping events [] ≡ ok groups
      → IsGrouped groups × (events_for q groups ≡ select (goes_to queue_mapping q) events)
  group_events_partitions events groups h = grouped events [] groups tt h
