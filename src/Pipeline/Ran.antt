-- ===== src/Pipeline/Ran.antt =====
-- What Redis runs of the commands of transactions, also of those that fail.
use tenjin.Common.{ℕ, ◌≡◌, ◌⊎◌, inl, inr, refl, List, [], ◌∷◌, ◌++◌}
use tenjin.Common.Lists.{flat}
use tenjin.Common.Action.{Error, Result, ok, err}
use tenjin.Retry.{Loop}
use tenjin.Pipeline.{Command, Broker}

-- Some commands of a list, in its order.
pub data Part : List Command → List Command → Type 0 where
  none_ran : Part [] []
  skipped : (c : Command) (rs cs : List Command) → Part rs cs → Part rs (c ∷ cs)
  ran : (c : Command) (rs cs : List Command) → Part rs cs → Part (c ∷ rs) (c ∷ cs)

-- Redis' documentation of transactions, and redis-py's of `execute`: when it returns, every command
-- was run, in order. When it raises, there is no rollback: the commands before and after one that
-- failed stay applied, and when the reply is lost all of them may be, or none. `log` are the commands
-- that were run; what runs while this code sleeps is not counted in it.
pub record RunsCommands {W : Type 0} (broker : Broker W) (loop : Loop W) (log : W → List Command)
    : Type 0 where
  pub applied :
      (cs : List Command) (w w' : W)
      → broker.execute_transaction cs w ≡ (ok tt, w')
      → log w' ≡ log w ++ cs
  pub failed :
      (cs : List Command) (w w' : W) (e : Error)
      → broker.execute_transaction cs w ≡ (err e, w')
      → (rs : List Command) × Part rs cs × (log w' ≡ log w ++ rs)
  pub rests : (n : ℕ) (w : W) → log (loop.sleep_up_to n w) ≡ log w

-- The histories that failed transactions with the commands of `build` lead to from `l`.
pub data Tried (build : Result (List Command)) (l : List Command) : List Command → Type 0 where
  untried : Tried build l l
  again :
      (cs rs h : List Command)
      → build ≡ ok cs
      → Part rs cs
      → Tried build l h
      → Tried build l (h ++ rs)

module _ {A : Type 0} where
  -- membership, and a property of all elements
  abbrev pub In : A → List A → Type 0
  In a [] = ⊥
  In a (x ∷ xs) = (a ≡ x) ⊎ In a xs

  abbrev pub Every : (A → Type 0) → List A → Type 0
  Every P [] = Unit
  Every P (x ∷ xs) = P x × Every P xs

  pub In-left : (a : A) (xs ys : List A) → In a xs → In a (xs ++ ys)
  In-left a [] ys h = absurd h
  In-left a (x ∷ xs) ys (inl e) = inl e
  In-left a (x ∷ xs) ys (inr h) = inr (In-left a xs ys h)

  pub In-right : (a : A) (xs ys : List A) → In a ys → In a (xs ++ ys)
  In-right a [] ys h = h
  In-right a (x ∷ xs) ys h = inr (In-right a xs ys h)

  pub Every-append :
      (P : A → Type 0) (xs ys : List A) → Every P xs → Every P ys → Every P (xs ++ ys)
  Every-append P [] ys p q = q
  Every-append P (x ∷ xs) ys (a, p) q = (a, Every-append P xs ys p q)

  pub Every-map :
      (P Q : A → Type 0) → ((a : A) → P a → Q a) → (xs : List A) → Every P xs → Every Q xs
  Every-map P Q f [] p = tt
  Every-map P Q f (x ∷ xs) (a, p) = (f x a, Every-map P Q f xs p)

  pub Every-In : (xs : List A) → Every (λ a. In a xs) xs
  Every-In [] = tt
  Every-In (x ∷ xs) =
      (inl refl, Every-map (λ a. In a xs) (λ a. In a (x ∷ xs)) (λ a h. inr h) xs (Every-In xs))

  -- what a part of a list gives is among what the list gives
  pub Part-Every :
      (f : Command → List A) (rs cs : List Command)
      → Part rs cs
      → Every (λ a. In a (flat f cs)) (flat f rs)
  Part-Every f _ _ none_ran = tt
  Part-Every f _ _ (skipped c rs cs part) =
      Every-map (λ a. In a (flat f cs)) (λ a. In a (f c ++ flat f cs))
        (λ a. In-right a (f c) (flat f cs)) (flat f rs) (Part-Every f rs cs part)
  Part-Every f _ _ (ran c rs cs part) =
      Every-append (λ a. In a (f c ++ flat f cs)) (f c) (flat f rs)
        (Every-map (λ a. In a (f c)) (λ a. In a (f c ++ flat f cs))
          (λ a. In-left a (f c) (flat f cs)) (f c) (Every-In (f c)))
        (Every-map (λ a. In a (flat f cs)) (λ a. In a (f c ++ flat f cs))
          (λ a. In-right a (f c) (flat f cs)) (flat f rs) (Part-Every f rs cs part))
