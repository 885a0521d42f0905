-- ===== src/Batch/Trim.antt =====
-- Trimming keeps exactly the fresh events, and acknowledges exactly the others.
use tenjin.Common.{
  ℕ, Bool, true, false, ◌≡◌, refl, ap, String, List, [], ◌∷◌, ◌++◌, not, append_assoc, append-nil,
  Bool-cases, inl, inr, some, if◌then◌else◌,
}
use tenjin.Common.Lists.{contains, select}
use tenjin.Common.Action.{ok}
use tenjin.Events.{StreamedEvent}
use tenjin.Events.Names.{StreamName}
use tenjin.Pipeline.{Command, acknowledgements, xack}
use tenjin.Batch.{ModelEquality, remove, trim_loop}

abbrev pub is_fresh : List ℕ → StreamedEvent → Bool
is_fresh fresh e = contains e.event_id fresh

abbrev pub is_stale : List ℕ → StreamedEvent → Bool
is_stale fresh e = not (contains e.event_id fresh)

module _ (same : StreamedEvent → StreamedEvent → Bool) (laws : ModelEquality same)
    (fresh : List ℕ) where
  differs :
      (x event : StreamedEvent)
      → is_fresh fresh x ≡ true
      → is_fresh fresh event ≡ false
      → same x event ≡ false
  differs x event new stale = elim (Bool-cases (same x event)) [
    | inr d ↦ d
    | inl s ↦ cc (ap (λ i. contains i fresh) (laws.same_id x event s))
  ]

  -- Removing a stale event passes over the fresh ones before it.
  remove_after_fresh :
      (event : StreamedEvent) (xs ys : List StreamedEvent)
      → is_fresh fresh event ≡ false
      → remove same event (select (is_fresh fresh) xs ++ (event ∷ ys))
        ≡ some (select (is_fresh fresh) xs ++ ys)
  unfolding remove
  remove_after_fresh event [] ys stale = rw (laws.reflexive event)
  remove_after_fresh event (x ∷ xs) ys stale = elim (Bool-cases (is_fresh fresh x)) [
    | inr old ↦ rw old (remove_after_fresh event xs ys stale)
    | inl new ↦ rw (new, differs x event new stale, remove_after_fresh event xs ys stale) refl
  ]

  select-snoc :
      (x : StreamedEvent) (xs : List StreamedEvent)
      → select (is_fresh fresh) (xs ++ (x ∷ []))
        ≡ select (is_fresh fresh) xs ++ (if is_fresh fresh x then x ∷ [] else [])
  select-snoc x [] = refl
  select-snoc x (y ∷ xs) = elim (Bool-cases (is_fresh fresh y)) [
    | inl new ↦ rw (new, select-snoc x xs)
    | inr old ↦ rw (old, select-snoc x xs)
  ]

  module _ (stream_name : StreamName) (group_name : String) where
    -- `seen` are the events that the loop has passed.
    trim_loop_lem :
        (copy seen : List StreamedEvent) (pipeline : List Command)
        → trim_loop same fresh stream_name group_name copy
            (select (is_fresh fresh) seen ++ copy)
            pipeline
          ≡ (
            select (is_fresh fresh) (seen ++ copy),
            ok (pipeline ++ acknowledgements stream_name group_name (select (is_stale fresh) copy)),
          )
    unfolding trim_loop acknowledgements
    trim_loop_lem [] seen pipeline = rw (append-nil, append-nil, append-nil)
    trim_loop_lem (x ∷ copy) seen pipeline = elim (Bool-cases (is_fresh fresh x)) [
      | inl new ↦
          let ih = trim_loop_lem copy (seen ++ (x ∷ [])) pipeline in
          simp (new) (simp (select-snoc, new, append_assoc) at ih)
      | inr old ↦
          let ih =
            trim_loop_lem copy (seen ++ (x ∷ []))
              (pipeline ++ (xack stream_name group_name x.event_id ∷ [])) in
          simp (old, remove_after_fresh x seen copy old)
            (simp (select-snoc, old, append-nil, append_assoc) at ih)
    ]

    -- The batch becomes its fresh events, in their order; the pipeline acknowledges the events that
    -- are not fresh, in their order.
    pub trim_splits_batch :
        (batch : List StreamedEvent)
        → trim_loop same fresh stream_name group_name batch batch [] ≡ (
          select (is_fresh fresh) batch,
          ok (acknowledgements stream_name group_name (select (is_stale fresh) batch)),
        )
    trim_splits_batch batch = trim_loop_lem batch [] []
