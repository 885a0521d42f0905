-- ===== src/Tokens/Keys.antt =====
-- The key mapping of `TokenManager` and security/key_container.py.
use tenjin.Common.{ℕ, Bool, true, false, ◌≡◌, if◌then◌else◌, Option, none, some, String, [], arith}
use tenjin.Common.Dict.{Dict, insert, remove, has_key, has_key-insert, has_key-remove}
use tenjin.Common.Result.{Result, ok, err, runtime_error, value_error}
use text.Mathlib.Text.{◌==◌ as str_eq}
use text.Mathlib.TextEquality.{eq_iff}
use tenjin.Common.{ltb, ◌&&◌, not, ◌==◌}

-- `KeyMetadata`; times are whole seconds
pub record KeyMetadata : Type 0 where
  pub public_pem : String
  pub private_pem : String
  pub algorithm : String
  pub epoch : ℕ
  pub rotated_at : Option ℕ

-- the setter of `ROTATED_AT`
unfoldable pub set_rotated_at : KeyMetadata → ℕ → Result KeyMetadata
set_rotated_at key rotation_time =
    if not (rotation_time == 0) && ltb key.epoch rotation_time
    then ok (record key { rotated_at = some rotation_time })
    else err value_error

pub record KeyRing : Type 0 where
  pub active_key : String
  pub key_mapping : Dict KeyMetadata

-- `verification_keys_mapping | {active_kid: active_key_metadata}`, where `None` is `{}`
unfoldable pub set_key_state : String → KeyMetadata → Option (Dict KeyMetadata) → KeyRing
set_key_state active_kid active_key_metadata none = record {
  active_key = active_kid;
  key_mapping = insert active_kid active_key_metadata [];
}
set_key_state active_kid active_key_metadata (some verification_keys_mapping) = record {
  active_key = active_kid;
  key_mapping = insert active_kid active_key_metadata verification_keys_mapping;
}

unfoldable pub update_keydata : String → KeyMetadata → Bool → KeyRing → KeyRing
update_keydata kid new_key_data active ring = record {
  active_key = if active then kid else ring.active_key;
  key_mapping = insert kid new_key_data ring.key_mapping;
}

-- the mapping is left alone where it raises
unfoldable pub invalidate_key : String → KeyRing → Result (Unit {0}) × KeyRing
invalidate_key kid ring =
    if str_eq ring.active_key kid
    then (err runtime_error, ring)
    else (ok tt, record ring { key_mapping = remove kid ring.key_mapping })

-- The active signing key is always in the mapping.
abbrev pub IsReady : KeyRing → Type 0
IsReady ring = has_key ring.active_key ring.key_mapping ≡ true

-- A manager that is given its keys can sign.
pub set_key_state-IsReady :
    (kid : String) (key : KeyMetadata) (others : Option (Dict KeyMetadata))
    → IsReady (set_key_state kid key others)
unfolding set_key_state
set_key_state-IsReady kid key none = ground (arith, has_key-insert kid kid key [], eq_iff kid kid)
set_key_state-IsReady kid key (some d) =
    ground (arith, has_key-insert kid kid key d, eq_iff kid kid)

pub update_keydata-IsReady :
    (kid : String) (key : KeyMetadata) (active : Bool) (ring : KeyRing)
    → IsReady ring
    → IsReady (update_keydata kid key active ring)
unfolding update_keydata
update_keydata-IsReady kid key true ring h =
    ground (arith, has_key-insert kid kid key ring.key_mapping, eq_iff kid kid)
update_keydata-IsReady kid key false ring h =
    ground (arith, has_key-insert kid ring.active_key key ring.key_mapping)

pub invalidate_key-IsReady :
    (kid : String) (ring : KeyRing) → IsReady ring → IsReady (invalidate_key kid ring).1
unfolding invalidate_key
invalidate_key-IsReady kid ring h = ground (
  arith,
  has_key-remove kid ring.active_key ring.key_mapping,
  eq_iff kid ring.active_key,
  eq_iff ring.active_key kid,
)
