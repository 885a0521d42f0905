-- ===== src/Common/Keeps.antt =====
-- Actions that keep a property of the world, also where they raise.
use tenjin.Common.{◌≡◌, refl, Bool, true, false, if◌then◌else◌}
use tenjin.Common.Action.{
  Action, Error, Result, ok, err, raise, pure, lift, finally, continue, ◌>>=◌,
}

module _ {W : Type 0} (P : W → Type 0) where
  abbrev pub Keeps : {A : Type 0} → Action W A → Type 0
  Keeps m = (w : W) → P w → P (m w).1

  module _ {A B : Type 0} (m : Action W A) (f : A → Action W B) where
    after-Keeps :
        (o : Result A × W)
        → P o.1
        → ((a : A) (v : W) → o ≡ (ok a, v) → P v → P (f a v).1)
        → P (continue m f o).1
    unfolding continue
    after-Keeps (ok a, v) p k = k a v refl p
    after-Keeps (err e, v) p k = p

    -- with what is known of the call before
    pub knowing-Keeps :
        Keeps m → ((a : A) (w v : W) → m w ≡ (ok a, v) → P v → P (f a v).1) → Keeps (m >>= f)
    unfolding continue
    knowing-Keeps h k w p = after-Keeps (m w) (h w p) (λ a v e q. k a w v e q)

    -- at one world
    pub bind-at : (w : W) → P (m w).1 → ((a : A) → Keeps (f a)) → P ((m >>= f) w).1
    unfolding continue
    bind-at w p k = after-Keeps (m w) p (λ a v e q. k a v q)

    pub bind-Keeps : Keeps m → ((a : A) → Keeps (f a)) → Keeps (m >>= f)
    bind-Keeps h k = knowing-Keeps h (λ a w v e q. k a v q)

  pub raise-Keeps : (A : Type 0) (e : Error) → Keeps {A = A} (raise e)
  raise-Keeps A e w p = p

  pub pure-Keeps : {A : Type 0} (a : A) → Keeps (pure a)
  pure-Keeps a w p = p

  pub lift-Keeps : {A : Type 0} (r : Result A) → Keeps (lift r)
  lift-Keeps r w p = p

  pub if-Keeps :
      {A : Type 0} (b : Bool) (m n : Action W A) → Keeps m → Keeps n → Keeps (if b then m else n)
  if-Keeps true m n h k = h
  if-Keeps false m n h k = k

  module _ {A : Type 0} (cleanup : Action W (Unit {0})) where
    cleaned-Keeps :
        (r : Result A) (c : Result (Unit {0}) × W)
        → P c.1
        → P (elim c.0 as (λ _. Result A × W) [ ok u ↦ (r, c.1) | err e ↦ (err e, c.1) ]).1
    cleaned-Keeps r (ok u, v) p = p
    cleaned-Keeps r (err e, v) p = p

    pub finally-Keeps :
        (body : Action W A) → Keeps body → Keeps cleanup → Keeps (finally body cleanup)
    finally-Keeps body h k w p =
        cleaned-Keeps (body w).0 (cleanup (body w).1) (k (body w).1 (h w p))
