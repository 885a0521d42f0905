-- ===== src/Counters/Loss.antt =====
-- What becomes of the counters that are taken from Redis.
use Prim.Native.Char.{Char}
use text.Mathlib.TextLemmas.{nil-append, cons-append}
use tenjin.Common.{ℕ, ◌<>◌, ◌≡◌, refl, ◌∙◌, ap, true, String, ◌∷◌}
use tenjin.Common.Dict.{Dict}
use tenjin.Common.Action.{Result, ok, err, value_error, ◌>>=◌, bind-ok, finally-done}
use tenjin.Common.Int.{ℤ}
use tenjin.Counters.{CounterStore}
use tenjin.Counters.Names.{derive_lock_key}
use tenjin.Counters.Flush.{
  unpack_pair, cache_normalize, flush_taken, with_lock, batch_update_counter_group,
}

-- the key of a cache entry, for a resource whose name has at least two characters
abbrev pub entry_key : Char → Char → String → String → String
entry_key a b name identifier = String.◌∷◌ a (String.◌∷◌ b name) <> (":" <> identifier)

unpack_pair-entry_key :
    (a b : Char) (name identifier : String)
    → unpack_pair (entry_key a b name identifier) ≡ err value_error
unfolding unpack_pair
unpack_pair-entry_key a b name identifier =
    ap unpack_pair (
      cons-append a (String.◌∷◌ b name) (":" <> identifier)
      ∙ ap (String.◌∷◌ a) (cons-append b name (":" <> identifier)))
    ∙ long name
  where
    long :
        (s : String)
        → unpack_pair (String.◌∷◌ a (String.◌∷◌ b (s <> (":" <> identifier)))) ≡ err value_error
    long String.[] =
        ap (λ t. unpack_pair (String.◌∷◌ a (String.◌∷◌ b t)))
          (nil-append (":" <> identifier) ∙ cons-append ":" "" identifier)
    long (String.◌∷◌ c s) =
        ap (λ t. unpack_pair (String.◌∷◌ a (String.◌∷◌ b t))) (cons-append c s (":" <> identifier))

module _ {W : Type 0} (store : CounterStore W) (int_of_text : String → Result ℤ) where
  -- When a group's lock is given, its counters are taken and its lock is deleted, and the first of
  -- them is that of a cache entry: the counters are gone from Redis, and ValueError is raised before
  -- any of them is written.
  pub batch_update_counter_group_loses :
      (max_retries : ℕ) (batch_name name identifier value : String) (a b : Char) (raw : Dict String)
      (w w₁ w₂ w₃ : W)
      → store.set_lock (derive_lock_key batch_name) w ≡ (ok true, w₁)
      → store.take batch_name w₁ ≡ (ok ((entry_key a b name identifier, value) ∷ raw), w₂)
      → store.delete (derive_lock_key batch_name) w₂ ≡ (ok tt, w₃)
      → batch_update_counter_group store int_of_text max_retries batch_name w
        ≡ (err value_error, w₃)
  unfolding batch_update_counter_group with_lock flush_taken cache_normalize
  batch_update_counter_group_loses max_retries batch_name name identifier value a b raw w w₁ w₂ w₃
        locked taken unlocked =
      bind-ok (store.set_lock (derive_lock_key batch_name))
        (with_lock store int_of_text max_retries batch_name) w true w₁ locked
      ∙ finally-done (store.delete (derive_lock_key batch_name))
          (store.take batch_name >>= flush_taken store int_of_text max_retries batch_name) w₁
          (err value_error) w₂ w₃
          (bind-ok (store.take batch_name) (flush_taken store int_of_text max_retries batch_name) w₁
              ((entry_key a b name identifier, value) ∷ raw) w₂ taken
            ∙ rw (unpack_pair-entry_key a b name identifier) refl)
          unlocked
