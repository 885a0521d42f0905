-- ===== src/Jwks.antt =====
-- resource_server/key_manager.py: the mapping of verification keys, as a JWKS response and as an
-- announcement change it; and `from_base64url` of auxillary/utils.py.
pub mod Mapping
pub mod Announcements
mod Tests
use Prim.Native.Nat.{◌%◌}
use Prim.Native.String.{count}
use tenjin.Common.{
  ℕ, zero, suc, ◌+◌, ◌-◌, ◌*◌, ◌≡◌, refl, ap, ◌∙◌, Bool, true, false, if◌then◌else◌, String, ◌<>◌,
  List, [], ◌∷◌, map, arith,
}
use tenjin.Common.Dict.{Dict, lookup, has_key, insert, remove, keys, member, difference}
use tenjin.Common.Result.{Result, Error, ok, err, key_error, ◌>>=◌}

-- `"=" * n`
unfoldable pub equals_signs : ℕ → String
equals_signs zero = ""
equals_signs (suc n) = "=" <> equals_signs n

unfoldable pub pad_base64url : String → String
unfolding equals_signs
pad_base64url b64url = b64url <> equals_signs ((4 - count b64url % 4) % 4)

-- `int.from_bytes(data, byteorder="big")`
unfoldable pub from_bytes : ℕ → List ℕ → ℕ
from_bytes n [] = n
from_bytes n (b ∷ bs) = from_bytes (n * 256 + b) bs

-- an entry of the JWKS
pub record JwksEntry : Type 0 where
  pub kid : String
  pub x : String
  pub y : String

-- base64.urlsafe_b64decode, and the PEM of a point on the curve by ecdsa
pub record Crypto : Type 0 where
  pub urlsafe_b64decode : String → Result (List ℕ)
  pub pem_of_point : ℕ → ℕ → Result String

-- the loop over the keys that have expired
unfoldable pub purge : List String → Dict String → Dict String
purge [] mapping = mapping
purge (kid ∷ kids) mapping = purge kids (remove kid mapping)

module _ (crypto : Crypto) where
  unfoldable pub from_base64url : String → Result ℕ
  unfolding pad_base64url from_bytes
  from_base64url b64url =
      crypto.urlsafe_b64decode (pad_base64url b64url) >>= λ bs. ok (from_bytes 0 bs)

  unfoldable pub pem_of : JwksEntry → Result String
  unfolding from_base64url
  pem_of entry = do x ← from_base64url entry.x; y ← from_base64url entry.y; crypto.pem_of_point x y

  -- the loop over the entries; an exception leaves the mapping as far as it was filled
  unfoldable pub add_entries : List JwksEntry → Dict String → Result (Unit {0}) × Dict String
  unfolding pem_of
  add_entries [] mapping = (ok tt, mapping)
  add_entries (entry ∷ entries) mapping =
      if has_key entry.kid mapping
      then add_entries entries mapping
      else elim (pem_of entry) as (λ _. Result (Unit {0}) × Dict String) [
        | ok pem ↦ add_entries entries (insert entry.kid pem mapping)
        | err e ↦ (err e, mapping)
      ]

  -- `update_jwks` on a response, up to the writing of the shared mapping; an empty response changes
  -- nothing
  unfoldable pub merge_jwks : List JwksEntry → Dict String → Result (Unit {0}) × Dict String
  unfolding add_entries purge
  merge_jwks [] current_mapping = (ok tt, current_mapping)
  merge_jwks (entry ∷ entries) current_mapping = add_entries (entry ∷ entries) (
      purge (difference (keys current_mapping) (map (λ (e : JwksEntry). e.kid) (entry ∷ entries)))
        current_mapping)

-- `k for k in keys.keys() if k not in self.current_mapping`
unfoldable pub unknown_keys : Dict String → Dict String → List String
unknown_keys [] mapping = []
unknown_keys ((kid, key) ∷ announced) mapping =
    if has_key kid mapping
    then unknown_keys announced mapping
    else kid ∷ unknown_keys announced mapping

-- the loop with `self.current_mapping.pop(key_id)` and `keys.pop(key_id)`, which raise KeyError for
-- a key that is not there
unfoldable pub pop_keys :
    List String → Dict String → Dict String → Result (Dict String) × Dict String
pop_keys [] announced mapping = (ok announced, mapping)
pop_keys (kid ∷ kids) announced mapping =
    if has_key kid mapping
    then if has_key kid announced
      then pop_keys kids (remove kid announced) (remove kid mapping)
      else (err key_error, remove kid mapping)
    else (err key_error, mapping)

-- the loop with `setdefault`
unfoldable pub set_defaults : Dict String → Dict String → Dict String
set_defaults [] mapping = mapping
set_defaults ((kid, key) ∷ announced) mapping =
    if has_key kid mapping
    then set_defaults announced mapping
    else set_defaults announced (insert kid key mapping)

unfoldable pub after_pops : Result (Dict String) × Dict String → Result (Unit {0}) × Dict String
unfolding set_defaults
after_pops (ok announced, mapping) = (ok tt, set_defaults announced mapping)
after_pops (err e, mapping) = (err e, mapping)

-- `sync_jwks` on one message, which has been parsed
unfoldable pub sync_announced : Dict String → Dict String → Result (Unit {0}) × Dict String
unfolding unknown_keys pop_keys after_pops
sync_announced announced mapping =
    after_pops (pop_keys (unknown_keys announced mapping) announced mapping)
