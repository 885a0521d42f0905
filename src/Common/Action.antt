-- ===== src/Common/Action.antt =====
-- Awaited calls: an action reads and changes the world of the process and its servers, and it
-- returns or raises. What was written before a raise stays written.
use tenjin.Common.{◌≡◌, refl, ap, ◌∙◌}
pub use tenjin.Common.Result.{
  Error, network, redis, transient, database, integrity, key_error, value_error, type_error,
  attribute_error, name_error, index_error, runtime_error, invalid_token, premature,
  cache_coherence, duplicate_request, conflicting_intent, http_error, Result, ok, err,
}

abbrev pub Action : Type 0 → Type 0 → Type 0
Action W A = W → Result A × W

module _ {W A : Type 0} where
  abbrev pub pure : A → Action W A
  pure a w = (ok a, w)

  abbrev pub raise : Error → Action W A
  raise e w = (err e, w)

  abbrev pub lift : Result A → Action W A
  lift r w = (r, w)

  -- `try: m` / `except Exception: handler`
  abbrev pub catch : Action W A → (Error → Action W A) → Action W A
  catch m handler w = let (r, w') = m w in elim r [ ok a ↦ (ok a, w') | err e ↦ handler e w' ]

-- `try: body` / `finally: cleanup`
abbrev pub finally : {W A : Type 0} → Action W A → Action W (Unit {0}) → Action W A
finally body cleanup w =
    let (r, v) = body w in
    let (c, v') = cleanup v in elim c [ ok u ↦ (r, v') | err e ↦ (err e, v') ]

module _ {W A : Type 0} (cleanup : Action W (Unit {0})) where
  -- what the cleanup leaves of an outcome
  unfoldable pub cleaned : Result A × W → Result A × W
  cleaned o = let (c, v') = cleanup o.1 in elim c [ ok u ↦ (o.0, v') | err e ↦ (err e, v') ]

  closed : Result A → Result (Unit {0}) × W → Result A × W
  closed r o = elim o.0 [ ok u ↦ (r, o.1) | err e ↦ (err e, o.1) ]

  -- a cleanup that returns keeps the outcome
  pub finally-done :
      (body : Action W A) (w : W) (r : Result A) (v v' : W)
      → body w ≡ (r, v)
      → cleanup v ≡ (ok tt, v')
      → finally body cleanup w ≡ (r, v')
  unfolding cleaned closed
  finally-done body w r v v' e g = ap cleaned e ∙ ap (closed r) g

  closed-ok :
      (r : Result A) (o : Result (Unit {0}) × W) (a : A) (v : W) → closed r o ≡ (ok a, v) → r ≡ ok a
  unfolding closed
  closed-ok r (ok u, v') a v h = cc
  closed-ok r (err e, v') a v h = cc

  -- a result is the body's
  pub finally-returns :
      (body : Action W A) (w : W) (a : A) (v : W)
      → finally body cleanup w ≡ (ok a, v)
      → (body w).0 ≡ ok a
  unfolding closed
  finally-returns body w a v h = closed-ok (body w).0 (cleanup (body w).1) a v h

infixl 5 ◌>>=◌ ◌>>◌
abbrev pub ◌>>=◌ : {W A B : Type 0} → Action W A → (A → Action W B) → Action W B
◌>>=◌ m f w = let (r, w') = m w in elim r [ ok a ↦ f a w' | err e ↦ (err e, w') ]

abbrev pub ◌>>◌ : {W A B : Type 0} → Action W A → Action W B → Action W B
m >> k = m >>= λ _. k

abbrev pub done : {W : Type 0} → Action W (Unit {0})
done w = (ok tt, w)

-- What follows a call that returns, and what follows one that raises.
module _ {W A B : Type 0} (m : Action W A) (f : A → Action W B) where
  unfoldable pub continue : Result A × W → Result B × W
  continue o = elim o.0 as (λ _. Result B × W) [ ok a ↦ f a o.1 | err e ↦ (err e, o.1) ]

  pub bind-ok : (w : W) (a : A) (w' : W) → m w ≡ (ok a, w') → (m >>= f) w ≡ f a w'
  unfolding continue
  bind-ok w a w' = ap continue

  pub bind-err : (w : W) (e : Error) (w' : W) → m w ≡ (err e, w') → (m >>= f) w ≡ (err e, w')
  unfolding continue
  bind-err w e w' = ap continue

  returned :
      (o : Result A × W) (b : B) (w' : W)
      → continue o ≡ (ok b, w')
      → (a : A) × (v : W) × (o ≡ (ok a, v)) × (f a v ≡ (ok b, w'))
  unfolding continue
  returned (ok a, v) b w' h = (a, v, refl, h)
  returned (err e, v) b w' h = cc

  -- what came before a result
  pub bind-returns :
      (w : W) (b : B) (w' : W)
      → (m >>= f) w ≡ (ok b, w')
      → (a : A) × (v : W) × (m w ≡ (ok a, v)) × (f a v ≡ (ok b, w'))
  unfolding continue
  bind-returns w b w' h = returned (m w) b w' h
