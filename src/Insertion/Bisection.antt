-- ===== src/Insertion/Bisection.antt =====
-- How deep the bisection of a batch goes, and what it inserts where the insertion never returns.
use tenjin.Common.{
  ℕ, zero, suc, ◌/◌, ◌≤◌, ◌<◌, ◌≡◌, ◌≢◌, refl, ap, ◌∙◌, ◌==◌, List, arith, Bool-cases, inl, inr,
}
use tenjin.Common.Lists.{length, take, drop, length-take, length-drop}
use tenjin.Common.Action.{Action, Result, ok, err, integrity}
use tenjin.Events.{StreamedEvent}
use tenjin.Insertion.{batch_insert_with_isolation, after_insert, then_second_half}

module _ {W : Type 0} (insert : List StreamedEvent → Action W (List ℕ)) where
  abbrev Bisect : Type 0
  Bisect = List StreamedEvent → List ℕ → W → Result (Unit {0}) × List ℕ × W

  second_half-same :
      (f g : List ℕ → W → Result (Unit {0}) × List ℕ × W) (o : Result (Unit {0}) × List ℕ × W)
      → ((inserted : List ℕ) (w : W) → f inserted w ≡ g inserted w)
      → then_second_half insert f o ≡ then_second_half insert g o
  unfolding then_second_half
  second_half-same f g (ok u, inserted, w) same = same inserted w
  second_half-same f g (err e, inserted, w) same = refl

  module _ (f g : Bisect) (depth deeper : ℕ)
      (same : (es : List StreamedEvent) (inserted : List ℕ) (w : W)
        → 0 < length es
        → length es ≤ depth
        → length es ≤ deeper
        → f es inserted w ≡ g es inserted w) where
    halves-same :
        (es : List StreamedEvent) (inserted : List ℕ) (w : W)
        → 2 ≤ length es
        → length es ≤ suc depth
        → length es ≤ suc deeper
        → then_second_half insert
            (f (drop (length es / 2) es))
            (f (take (length es / 2) es) inserted w)
          ≡ then_second_half insert
              (g (drop (length es / 2) es))
              (g (take (length es / 2) es) inserted w)
    halves-same es inserted w two fits fits' =
        let k = length es / 2 in
        let front = length-take k es (omega arith) in
        let back = length-drop k es in
        second_half-same (f (drop k es)) (g (drop k es)) (f (take k es) inserted w)
          (λ ins v. same (drop k es) ins v (omega arith) (omega arith) (omega arith))
        ∙ ap (then_second_half insert (g (drop k es)))
            (same (take k es) inserted w (omega arith) (omega arith) (omega arith))

    after-same :
        (es : List StreamedEvent) (inserted : List ℕ) (o : Result (List ℕ) × W)
        → 0 < length es
        → length es ≤ suc depth
        → length es ≤ suc deeper
        → after_insert insert f es inserted o ≡ after_insert insert g es inserted o
    unfolding after_insert
    after-same es inserted (ok ids, w) some fits fits' = refl
    after-same es inserted (err integrity, w) some fits fits' = elim (Bool-cases (length es == 1)) [
      | inl one ↦ rw one refl
      | inr more ↦ rw more (halves-same es inserted w (ground arith) fits fits')
    ]
    after-same es inserted (err e, w) some fits fits' = refl

  -- Whatever the insertion of a batch does: for a batch with an event, every depth from the length of
  -- the batch on gives the same outcome, so the recursion ends within that depth.
  pub bisection_depth :
      (depth deeper : ℕ) (es : List StreamedEvent) (inserted : List ℕ) (w : W)
      → 0 < length es
      → length es ≤ depth
      → length es ≤ deeper
      → batch_insert_with_isolation insert depth es inserted w
        ≡ batch_insert_with_isolation insert deeper es inserted w
  unfolding batch_insert_with_isolation
  bisection_depth zero deeper es inserted w some fits fits' = absurd (omega arith)
  bisection_depth (suc depth) zero es inserted w some fits fits' = absurd (omega arith)
  bisection_depth (suc depth) (suc deeper) es inserted w some fits fits' =
      after-same (batch_insert_with_isolation insert depth)
        (batch_insert_with_isolation insert deeper) depth deeper
        (λ xs ins v n k k'. bisection_depth depth deeper xs ins v n k k') es inserted (insert es w)
        some fits fits'

  -- an outcome that leaves the list of inserted IDs as it was
  abbrev Unchanged : List ℕ → Result (Unit {0}) × List ℕ × W → Type 0
  Unchanged inserted o = o.1 ≡ inserted

  second_half-Unchanged :
      (f : List ℕ → W → Result (Unit {0}) × List ℕ × W) (inserted : List ℕ)
      (o : Result (Unit {0}) × List ℕ × W)
      → Unchanged inserted o
      → ((ins : List ℕ) (w : W) → Unchanged ins (f ins w))
      → Unchanged inserted (then_second_half insert f o)
  unfolding then_second_half
  second_half-Unchanged f inserted (ok u, ins, w) h rest = rest ins w ∙ h
  second_half-Unchanged f inserted (err e, ins, w) h rest = h

  after-Unchanged :
      (f : Bisect) (es : List StreamedEvent) (inserted : List ℕ) (o : Result (List ℕ) × W)
      → ((xs : List StreamedEvent) (ins : List ℕ) (w : W) → Unchanged ins (f xs ins w))
      → ((ids : List ℕ) (w : W) → o ≢ (ok ids, w))
      → Unchanged inserted (after_insert insert f es inserted o)
  unfolding after_insert
  after-Unchanged f es inserted (ok ids, w) rest never = absurd (never ids w refl)
  after-Unchanged f es inserted (err integrity, w) rest never = elim (Bool-cases (length es == 1)) [
    | inl one ↦ rw one refl
    | inr more ↦ rw more (
        second_half-Unchanged (f (drop (length es / 2) es)) inserted
          (f (take (length es / 2) es) inserted w) (rest (take (length es / 2) es) inserted w)
          (rest (drop (length es / 2) es)))
  ]
  after-Unchanged f es inserted (err e, w) rest never = refl

  -- an insertion that never returns inserts nothing, at any depth
  pub bisection-Unchanged :
      ((es : List StreamedEvent) (w v : W) (ids : List ℕ) → insert es w ≢ (ok ids, v))
      → (depth : ℕ) (es : List StreamedEvent) (inserted : List ℕ) (w : W)
      → Unchanged inserted (batch_insert_with_isolation insert depth es inserted w)
  unfolding batch_insert_with_isolation
  bisection-Unchanged never zero es inserted w = refl
  bisection-Unchanged never (suc depth) es inserted w =
      after-Unchanged (batch_insert_with_isolation insert depth) es inserted (insert es w)
        (bisection-Unchanged never depth) (λ ids v. never es w v ids)
