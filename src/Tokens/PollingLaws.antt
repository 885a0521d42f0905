-- ===== src/Tokens/PollingLaws.antt =====
-- A polling round keeps the manager able to sign, and it never changes the signing key.
use tenjin.Common.{
  ℕ, zero, suc, true, false, ◌≡◌, ◌≢◌, refl, Option, none, some, String, ◌<>◌, List, [], ◌∷◌, arith,
}
use tenjin.Common.Dict.{keys, difference}
use tenjin.Common.Action.{Result, ok, err}
use tenjin.Tokens.Keys.{
  KeyMetadata, KeyRing, IsReady, update_keydata, invalidate_key, update_keydata-IsReady,
  invalidate_key-IsReady,
}
use tenjin.Tokens.Polling.{
  KeyData, KeyStore, is_rotated, found_keydata, unless_invalid, fetch_unexpired_key, add_fetched,
  add_keys, drop_keys, after_adding, with_valid_keys, poll_round,
}

-- Rotation times lie after the epoch of the clock, so they are not zero.
pub record RotatesLater {W : Type 0} (store : KeyStore W) : Type 0 where
  pub later :
      (kid : String) (w w' : W) (key : KeyData)
      → store.get_keydata kid w ≡ (ok (some key), w')
      → key.rotated_out_at ≢ some 0

-- What a fetch gives, if it gives a key, has been rotated out.
abbrev Rotated : {W : Type 0} → Result (Option KeyMetadata) × W → Type 0
Rotated (ok (some m), w) = is_rotated m.rotated_at ≡ true
Rotated _ = Unit

module _ {W : Type 0} (store : KeyStore W) (laws : RotatesLater store) where
  rotated_pos : (n : Option ℕ) (m : ℕ) → n ≡ some m → n ≢ some 0 → is_rotated (some m) ≡ true
  unfolding is_rotated
  rotated_pos n zero e h = absurd (h e)
  rotated_pos n (suc m) e h = refl

  metadata-Rotated :
      (rotated_out_at : Option ℕ) (key : KeyData) (w : W)
      → key.rotated_out_at ≡ rotated_out_at
      → rotated_out_at ≢ some 0
      → Rotated (found_keydata store (some key) w)
  unfolding found_keydata
  metadata-Rotated none key w e h = rw e tt
  metadata-Rotated (some n) key w e h = rw e (rotated_pos (some n) n refl h)

  found-Rotated :
      (kid : String) (w : W) (o : Result (Option KeyData) × W)
      → store.get_keydata kid w ≡ o
      → Rotated {W = W} (elim o.0 [ ok a ↦ found_keydata store a o.1 | err e ↦ (err e, o.1) ])
  found-Rotated kid w (err x, w') e = tt
  found-Rotated kid w (ok none, w') e = unfold found_keydata in tt
  found-Rotated kid w (ok (some key), w') e =
      metadata-Rotated key.rotated_out_at key w' refl (laws.later kid w w' key e)

  unless_invalid-Rotated :
      (kid : String) (flag : Option String) (w : W) → Rotated (unless_invalid store kid flag w)
  unfolding unless_invalid
  unless_invalid-Rotated kid (some flag) w = tt
  unless_invalid-Rotated kid none w = found-Rotated kid w (store.get_keydata kid w) refl

  fetch-Rotated : (kid : String) (w : W) → Rotated (fetch_unexpired_key store kid w)
  unfolding fetch_unexpired_key
  fetch-Rotated kid w = split (store.get ("invalid_key:" <> kid) w)
    where
      split :
          (o : Result (Option String) × W)
          → Rotated {W = W}
              (elim o.0 [ ok a ↦ unless_invalid store kid a o.1 | err e ↦ (err e, o.1) ])
      split (ok flag, w') = unless_invalid-Rotated kid flag w'
      split (err e, w') = tt

  -- the manager can sign, and does so with `active`
  abbrev pub SignsWith : String → KeyRing → Type 0
  SignsWith active ring = IsReady ring × (ring.active_key ≡ active)

  add_fetched-SignsWith :
      (active kid : String) (m : KeyMetadata) (ring : KeyRing)
      → is_rotated m.rotated_at ≡ true
      → SignsWith active ring
      → SignsWith active (add_fetched store kid (some m) ring)
  unfolding add_fetched
  add_fetched-SignsWith active kid m ring r (ready, same) =
      rw r (update_keydata-IsReady kid m false ring ready, unfold update_keydata in same)

  add_keys-SignsWith :
      (active : String) (kids : List String) (ring : KeyRing) (w : W)
      → SignsWith active ring
      → SignsWith active (add_keys store kids ring w).1
  unfolding add_keys
  add_keys-SignsWith active [] ring w h = h
  add_keys-SignsWith active (kid ∷ kids) ring w h =
      split (fetch_unexpired_key store kid w) (fetch-Rotated kid w)
        (λ ring' v. add_keys-SignsWith active kids ring' v)
    where
      split :
          (o : Result (Option KeyMetadata) × W)
          → Rotated o
          → ((ring' : KeyRing) (v : W)
              → SignsWith active ring'
              → SignsWith active (add_keys store kids ring' v).1)
          → SignsWith active
              (elim o.0 as (λ _. Result (Unit {0}) × KeyRing × W) [
                | err e ↦ (err e, ring, o.1)
                | ok found ↦ add_keys store kids (add_fetched store kid found ring) o.1
              ]).1
      split (err e, v) r rest = h
      split (ok none, v) r rest = rest ring v (unfold add_fetched in h)
      split (ok (some m), v) r rest =
          rest (add_fetched store kid (some m) ring) v (add_fetched-SignsWith active kid m ring r h)

  invalidate-SignsWith :
      (active kid : String) (ring : KeyRing)
      → SignsWith active ring
      → SignsWith active (invalidate_key kid ring).1
  invalidate-SignsWith active kid ring (ready, same) =
      (invalidate_key-IsReady kid ring ready, unfold invalidate_key in ground arith)

  drop_keys-SignsWith :
      (active : String) (kids : List String) (ring : KeyRing)
      → SignsWith active ring
      → SignsWith active (drop_keys store kids ring).1
  unfolding drop_keys
  drop_keys-SignsWith active [] ring h = h
  drop_keys-SignsWith active (kid ∷ kids) ring h =
      split (invalidate_key kid ring) (invalidate-SignsWith active kid ring h)
        (λ ring'. drop_keys-SignsWith active kids ring')
    where
      split :
          (o : Result (Unit {0}) × KeyRing)
          → SignsWith active o.1
          → ((ring' : KeyRing)
              → SignsWith active ring'
              → SignsWith active (drop_keys store kids ring').1)
          → SignsWith active
              (elim o.0 as (λ _. Result (Unit {0}) × KeyRing) [
                | err e ↦ (err e, o.1)
                | ok _ ↦ drop_keys store kids o.1
              ]).1
      split (err e, ring') k rest = k
      split (ok u, ring') k rest = rest ring' k

  after_adding-SignsWith :
      (active : String) (expired : List String) (o : Result (Unit {0}) × KeyRing × W)
      → SignsWith active o.1
      → SignsWith active (after_adding store expired o).0
  unfolding after_adding
  after_adding-SignsWith active expired (err e, ring, w) h = h
  after_adding-SignsWith active expired (ok u, ring, w) h =
      drop_keys-SignsWith active expired ring h

  with_valid_keys-SignsWith :
      (active : String) (ring : KeyRing) (o : Result (List String) × W)
      → SignsWith active ring
      → SignsWith active (with_valid_keys store ring o).0
  unfolding with_valid_keys
  with_valid_keys-SignsWith active ring (err e, w) h = h
  with_valid_keys-SignsWith active ring (ok [], w) h = h
  with_valid_keys-SignsWith active ring (ok (k ∷ ks), w) h =
      after_adding-SignsWith active (difference (keys ring.key_mapping) (k ∷ ks))
        (add_keys store (difference (k ∷ ks) (keys ring.key_mapping)) ring w)
        (add_keys-SignsWith active (difference (k ∷ ks) (keys ring.key_mapping)) ring w h)

  -- Whatever the store and the database answer, after a polling round the active key is the one
  -- from before, and it is in the mapping.
  pub poll_round-SignsWith :
      (active : String) (ring : KeyRing) (w : W)
      → SignsWith active ring
      → SignsWith active (poll_round store ring w).0
  unfolding poll_round
  poll_round-SignsWith active ring w h =
      with_valid_keys-SignsWith active ring (store.valid_keys w) h
