-- ===== src/Tokens/Families.antt =====
-- The token families of `TokenManager` in Redis: `invalidate_family` and `shift_token_window`.
use tenjin.Common.{
  ℕ, ◌+◌, ◌-◌, ◌≤◌, ◌<◌, ◌≡◌, refl, ap, Bool-cases, inl, inr, if◌then◌else◌, leb, ◌==◌, Option,
  none, some, String, ◌<>◌, List, [], ◌∷◌, arith,
}
use tenjin.Common.Lists.{length, take, length-take}
use tenjin.Common.Action.{Action, Result, ok, err, runtime_error, done, ◌>>=◌, bind-ok}

-- One entry `jti:exp` of a family's list, as the two parts of its text; times are whole seconds.
pub record Entry : Type 0 where
  pub jti : String
  pub exp : ℕ

-- The calls of the Redis client that the families are kept by, with their keys.
pub record TokenStore (W : Type 0) : Type 0 where
  pub lindex_first : String → Action W (Option Entry)
  pub lrange_all : String → Action W (List Entry)
  pub llen : String → Action W ℕ
  pub rpop : String → ℕ → Action W (Unit {0})
  pub lpush : String → Entry → Action W (Unit {0})
  pub expireat : String → ℕ → Action W (Unit {0})
  pub delete : String → Action W (Unit {0})

abbrev pub max : ℕ → ℕ → ℕ
max a b = if leb a b then b else a

-- `FID:{family_id}`
abbrev pub family_key : String → String
family_key family_id = "FID:" <> family_id

-- `except Exception as e: raise RuntimeError`
unfoldable pub or_runtime_error : {W A : Type 0} → Result A × W → Result A × W
or_runtime_error (ok a, w) = (ok a, w)
or_runtime_error (err e, w) = (err runtime_error, w)

module _ {W : Type 0} (store : TokenStore W) where
  unfoldable pub delete_if_any : String → List Entry → Action W (Unit {0})
  delete_if_any family_id [] = done
  delete_if_any family_id (e ∷ es) = store.delete (family_key family_id)

  unfoldable pub invalidate_family : String → Action W (Unit {0})
  unfolding delete_if_any or_runtime_error
  invalidate_family family_id w =
      or_runtime_error ((store.lrange_all (family_key family_id) >>= delete_if_any family_id) w)

  unfoldable pub pop_overflow : ℕ → String → ℕ → Action W (Unit {0})
  pop_overflow max_llen family_id llen =
      if llen == 0
      then done
      else if leb max_llen llen
      then store.rpop (family_key family_id) (max 1 (llen - max_llen))
      else done

  unfoldable pub shift_token_window : ℕ → String → Action W (Unit {0})
  unfolding pop_overflow or_runtime_error
  shift_token_window max_llen family_id w =
      or_runtime_error ((store.llen (family_key family_id) >>= pop_overflow max_llen family_id) w)

-- Redis' documentation of the list commands, for a client whose calls do not fail: `view w key` is
-- the list at `key`, its newest entry first.
pub record KeepsLists {W : Type 0} (store : TokenStore W) (view : W → String → List Entry)
    : Type 0 where
  pub llen_lem : (key : String) (w : W) → store.llen key w ≡ (ok (length (view w key)), w)
  pub lrange_lem : (key : String) (w : W) → store.lrange_all key w ≡ (ok (view w key), w)
  pub lindex_nil :
      (key : String) (w : W) → view w key ≡ [] → store.lindex_first key w ≡ (ok none, w)
  pub lindex_cons :
      (key : String) (w : W) (e : Entry) (es : List Entry)
      → view w key ≡ e ∷ es
      → store.lindex_first key w ≡ (ok (some e), w)
  pub rpop_lem :
      (key : String) (n : ℕ) (w : W)
      → (w' : W) × (store.rpop key n w ≡ (ok tt, w'))
        × (view w' key ≡ take (length (view w key) - n) (view w key))
  pub delete_lem :
      (key : String) (w : W) → (w' : W) × (store.delete key w ≡ (ok tt, w')) × (view w' key ≡ [])

module _ {W : Type 0} (store : TokenStore W) (view : W → String → List Entry)
    (laws : KeepsLists store view) where
  take-length : (xs : List Entry) → xs ≡ take (length xs) xs
  take-length [] = refl
  take-length (x ∷ xs) = ap (◌∷◌ x) (take-length xs)

  -- What a call leaves of a list: a prefix of it, the newest entries, of at most `n`.
  abbrev pub Window : ℕ → String → W → Result (Unit {0}) × W → Type 0
  Window n key w (r, w') =
      (r ≡ ok tt) × ((k : ℕ) × (view w' key ≡ take k (view w key))) × (length (view w' key) ≤ n)

  popped :
      (max_llen : ℕ) (key : String) (n : ℕ) (w : W)
      → length (view w key) ≤ max_llen + n
      → n ≤ length (view w key)
      → Window max_llen key w (or_runtime_error (store.rpop key n w))
  unfolding or_runtime_error
  popped max_llen key n w short enough =
      let (w', e, left) = laws.rpop_lem key n w in
      rw e (
        refl,
        (length (view w key) - n, left),
        rw left (omega (arith, length-take (length (view w key) - n) (view w key) (omega arith))),
      )

  unchanged :
      (max_llen : ℕ) (key : String) (w : W)
      → length (view w key) ≤ max_llen
      → Window max_llen key w (or_runtime_error (done w))
  unfolding or_runtime_error
  unchanged max_llen key w h = (refl, (length (view w key), take-length (view w key)), h)

  pop_overflow-Window :
      (max_llen : ℕ) (family_id : String) (w : W) (n : ℕ)
      → 0 < max_llen
      → length (view w (family_key family_id)) ≡ n
      → Window max_llen
          (family_key family_id)
          w
          (or_runtime_error (pop_overflow store max_llen family_id n w))
  unfolding pop_overflow
  pop_overflow-Window max_llen family_id w n pos len = elim (Bool-cases (n == 0)) [
    | inl empty ↦ rw empty (unchanged max_llen (family_key family_id) w (ground arith))
    | inr some_tokens ↦ elim (Bool-cases (leb max_llen n)) [
      | inl full ↦
          rw (some_tokens, full)
            (popped max_llen (family_key family_id) (max 1 (n - max_llen)) w (ground arith)
              (ground arith))
      | inr room ↦
          rw (some_tokens, room) (unchanged max_llen (family_key family_id) w (ground arith))
    ]
  ]

  -- After a shift the family holds at most `max_llen` entries, and they are its newest ones, in
  -- their order: only the oldest are revoked.
  pub shift_token_window_bounds :
      (max_llen : ℕ) (family_id : String) (w : W)
      → 0 < max_llen
      → let (r, w') = shift_token_window store max_llen family_id w in
        (r ≡ ok tt)
        × ((k : ℕ) × (view w' (family_key family_id) ≡ take k (view w (family_key family_id))))
        × (length (view w' (family_key family_id)) ≤ max_llen)
  unfolding shift_token_window
  shift_token_window_bounds max_llen family_id w pos =
      rw
        (bind-ok (store.llen (family_key family_id)) (pop_overflow store max_llen family_id) w
          (length (view w (family_key family_id))) w (laws.llen_lem (family_key family_id) w))
        (pop_overflow-Window max_llen family_id w (length (view w (family_key family_id))) pos refl)

  delete_if_any_clears :
      (family_id : String) (w : W) (es : List Entry)
      → view w (family_key family_id) ≡ es
      → (w' : W) × (or_runtime_error (delete_if_any store family_id es w) ≡ (ok tt, w'))
        × (view w' (family_key family_id) ≡ [])
  unfolding delete_if_any or_runtime_error
  delete_if_any_clears family_id w [] h = (w, refl, h)
  delete_if_any_clears family_id w (e ∷ es) h =
      let (w', deleted, gone) = laws.delete_lem (family_key family_id) w in (w', rw deleted, gone)

  -- An invalidated family is empty, whether it held tokens or not.
  pub invalidate_family_clears :
      (family_id : String) (w : W)
      → (w' : W) × (invalidate_family store family_id w ≡ (ok tt, w'))
        × (view w' (family_key family_id) ≡ [])
  unfolding invalidate_family
  invalidate_family_clears family_id w =
      rw
        (bind-ok (store.lrange_all (family_key family_id)) (delete_if_any store family_id) w
          (view w (family_key family_id)) w (laws.lrange_lem (family_key family_id) w))
        (delete_if_any_clears family_id w (view w (family_key family_id)) refl)
