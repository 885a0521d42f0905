-- ===== src/Tokens/Polling.antt =====
-- `fetch_unexpired_key` and one round of `poll_store` of `TokenManager`.
use tenjin.Common.{
  ℕ, zero, suc, Bool, true, false, not, Option, none, some, String, ◌<>◌, List, [], ◌∷◌,
}
use tenjin.Common.Dict.{keys, difference}
use tenjin.Common.Action.{Action, Result, ok, err, attribute_error, lift, pure, ◌>>=◌}
use tenjin.Tokens.Keys.{KeyMetadata, KeyRing, update_keydata, invalidate_key}

-- A row of the table `keydata`, as far as it is read here (models/database.py).
pub record KeyData : Type 0 where
  pub public_pem : String
  pub private_pem : String
  pub alg : String
  pub epoch : ℕ
  pub rotated_out_at : Option ℕ

-- What is awaited: the synced store and the keydata repository.
pub record KeyStore (W : Type 0) : Type 0 where
  -- `get(key)`
  pub get : String → Action W (Option String)
  -- `lrange(VALID_KEYS, 0, -1)`
  pub valid_keys : Action W (List String)
  -- `KeydataRepository.get_keydata`: the row with this primary key
  pub get_keydata : String → Action W (Option KeyData)

-- `key.rotated_out_at.timestamp()` raises AttributeError where the column is NULL
unfoldable pub to_metadata : KeyData → Result KeyMetadata
to_metadata key = elim key.rotated_out_at [
  | none ↦ err attribute_error
  | some rotated ↦ ok (record {
    public_pem = key.public_pem;
    private_pem = key.private_pem;
    algorithm = key.alg;
    epoch = key.epoch;
    rotated_at = some rotated;
  })
]

-- `bool(result.ROTATED_AT)`
unfoldable pub is_rotated : Option ℕ → Bool
is_rotated none = false
is_rotated (some zero) = false
is_rotated (some (suc n)) = true

module _ {W : Type 0} (store : KeyStore W) where
  unfoldable pub found_keydata : Option KeyData → Action W (Option KeyMetadata)
  unfolding to_metadata
  found_keydata none = pure none
  found_keydata (some key) = lift (to_metadata key) >>= λ m. pure (some m)

  -- The announcement of a missing key is the call of `set` that is not awaited: it does nothing.
  unfoldable pub unless_invalid : String → Option String → Action W (Option KeyMetadata)
  unfolding found_keydata
  unless_invalid kid (some flag) = pure none
  unless_invalid kid none = store.get_keydata kid >>= found_keydata

  unfoldable pub fetch_unexpired_key : String → Action W (Option KeyMetadata)
  unfolding unless_invalid
  fetch_unexpired_key kid = store.get ("invalid_key:" <> kid) >>= unless_invalid kid

  unfoldable pub add_fetched : String → Option KeyMetadata → KeyRing → KeyRing
  unfolding is_rotated
  add_fetched kid none ring = ring
  add_fetched kid (some result) ring =
      update_keydata kid result (not (is_rotated result.rotated_at)) ring

  -- the loop over the keys that are new; an exception leaves the loop, and the ring as it is
  unfoldable pub add_keys : List String → KeyRing → W → Result (Unit {0}) × KeyRing × W
  unfolding add_fetched
  add_keys [] ring w = (ok tt, ring, w)
  add_keys (kid ∷ kids) ring w =
      let (r, w') = fetch_unexpired_key kid w in
      elim r [
        | err e ↦ (err e, ring, w')
        | ok found ↦ add_keys kids (add_fetched kid found ring) w'
      ]

  -- the loop over the keys that have expired
  unfoldable pub drop_keys : List String → KeyRing → Result (Unit {0}) × KeyRing
  drop_keys [] ring = (ok tt, ring)
  drop_keys (kid ∷ kids) ring =
      let (r, ring') = invalidate_key kid ring in
      elim r [ err e ↦ (err e, ring') | ok _ ↦ drop_keys kids ring' ]

  unfoldable pub after_adding : List String → Result (Unit {0}) × KeyRing × W → KeyRing × W
  unfolding drop_keys
  after_adding expired (err e, ring, w) = (ring, w)
  after_adding expired (ok u, ring, w) = ((drop_keys expired ring).1, w)

  -- the body of the `try`, for the list that the store gave; exceptions are printed. The order in
  -- which a frozenset is walked is that of the lists.
  unfoldable pub with_valid_keys : KeyRing → Result (List String) × W → KeyRing × W
  unfolding add_keys after_adding
  with_valid_keys ring (err e, w) = (ring, w)
  with_valid_keys ring (ok [], w) = (ring, w)
  with_valid_keys ring (ok (k ∷ ks), w) =
      after_adding (difference (keys ring.key_mapping) (k ∷ ks))
        (add_keys (difference (k ∷ ks) (keys ring.key_mapping)) ring w)

  -- one round of the `while True` of `poll_store`, up to its sleep
  unfoldable pub poll_round : KeyRing → W → KeyRing × W
  unfolding with_valid_keys
  poll_round ring w = with_valid_keys ring (store.valid_keys w)
