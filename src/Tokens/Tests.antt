-- ===== src/Tokens/Tests.antt =====
-- Tests of the keys and the token families.
use tenjin.Common.{
  ℕ, ◌<◌, ◌-◌, ◌≤◌, ◌≡◌, ◌≢◌, ap, refl, Bool, true, false, Option, none, some, String, List, [],
  ◌∷◌, arith,
}
use tenjin.Common.Lists.{take, length}
use tenjin.Common.Dict.{insert}
use tenjin.Common.Action.{Result, ok, err, value_error, invalid_token}
use tenjin.Tokens.Keys.{KeyMetadata, KeyRing, IsReady, invalidate_key, invalidate_key-IsReady}
use tenjin.Tokens.Polling.{KeyData, KeyStore, poll_round}
use tenjin.Tokens.PollingLaws.{RotatesLater, SignsWith, poll_round-SignsWith}
use tenjin.Tokens.Families.{
  Entry, TokenStore, KeepsLists, shift_token_window, invalidate_family, shift_token_window_bounds,
  invalidate_family_clears,
}
use tenjin.Tokens.Issue.{Jwt, Host, TokenManager, issue_refresh_token}
use tenjin.Tokens.Replay.{issue_refresh_token_refuses_newest}

abbrev first : List Entry → Option Entry
first [] = none
first (e ∷ es) = some e

abbrev rotation : Result (Option KeyData) → Option ℕ
rotation (ok (some row)) = row.rotated_out_at
rotation _ = none

abbrev key : KeyMetadata
key = record {
  public_pem = "pub";
  private_pem = "priv";
  algorithm = "ES256";
  epoch = 5;
  rotated_at = none;
}

abbrev ring : KeyRing
ring = record { active_key = "k1"; key_mapping = ("k1", key) ∷ ("k0", key) ∷ [] }

ring-IsReady : IsReady ring
unfolding tenjin.Common.Dict.has_key
ring-IsReady = refl

invalidate_key-IsReady_example : IsReady (invalidate_key "k0" ring).1
invalidate_key-IsReady_example = invalidate_key-IsReady "k0" ring ring-IsReady

-- a row of a key that was rotated out at 9
abbrev stored : KeyData
stored = record {
  public_pem = "pub";
  private_pem = "priv";
  alg = "ES256";
  epoch = 5;
  rotated_out_at = some 9;
}

abbrev key_store : KeyStore ℕ
key_store = record {
  get = λ k w. (ok none, w);
  valid_keys = λ w. (ok ("k2" ∷ "k1" ∷ []), w);
  get_keydata = λ k w. (ok (some stored), w);
}

stored_later : (row : KeyData) → ok (some stored) ≡ ok (some row) → row.rotated_out_at ≢ some 0
stored_later row h = cc (ap (λ (r : Result (Option KeyData)). rotation r) h)

key_store-RotatesLater : RotatesLater key_store
key_store-RotatesLater = record { later = λ kid w w' row h. stored_later row (ap (λ o. o.0) h) }

poll_round-SignsWith_example :
    SignsWith key_store key_store-RotatesLater "k1" (poll_round key_store ring 0).0
poll_round-SignsWith_example =
    poll_round-SignsWith key_store key_store-RotatesLater "k1" ring 0 (ring-IsReady, refl)

-- a token store with the list of one family
abbrev store : TokenStore (List Entry)
store = record {
  lindex_first = λ k w. (ok (first w), w);
  lrange_all = λ k w. (ok w, w);
  llen = λ k w. (ok (length w), w);
  rpop = λ k n w. (ok tt, take (length w - n) w);
  lpush = λ k e w. (ok tt, e ∷ w);
  expireat = λ k n w. (ok tt, w);
  delete = λ k w. (ok tt, []);
}

abbrev view : List Entry → String → List Entry
view w k = w

store-KeepsLists : KeepsLists store view
store-KeepsLists = record {
  llen_lem = λ k w. refl;
  lrange_lem = λ k w. refl;
  lindex_nil = λ k w h. rw h refl;
  lindex_cons = λ k w e es h. rw h refl;
  rpop_lem = λ k n w. (take (length w - n) w, refl, refl);
  delete_lem = λ k w. ([], refl, refl);
}

abbrev newest : Entry
newest = record { jti = "b"; exp = 20 }

abbrev family : List Entry
family = newest ∷ record { jti = "a"; exp = 10 } ∷ []

shift_token_window_bounds_example :
    let (r, w') = shift_token_window store 1 "f" family in
    (r ≡ ok tt) × ((k : ℕ) × (w' ≡ take k family)) × (length w' ≤ 1)
shift_token_window_bounds_example =
    shift_token_window_bounds store view store-KeepsLists 1 "f" family (omega arith)

invalidate_family_clears_example :
    (w' : List Entry) × (invalidate_family store "f" family ≡ (ok tt, w')) × (w' ≡ [])
invalidate_family_clears_example = invalidate_family_clears store view store-KeepsLists "f" family

abbrev jwt : Jwt
jwt = record {
  get_unverified_kid = λ t. ok "k1";
  decode = λ t p a l. err invalid_token;
  unverified_fid = λ t. ok "f";
  encode = λ c k a h. ok "token";
}

abbrev host : Host (List Entry)
host = record { time = λ w. (7, w); generate_unique_identifier = λ w. ("c", w) }

abbrev manager : TokenManager
manager = record {
  ring = ring;
  refresh_lifetime = 9;
  access_lifetime = 3;
  leeway = 1;
  max_llen = 3;
  universal_claims = λ c. c;
}

issue_refresh_token_refuses_newest_example :
    (w' : List Entry) × (issue_refresh_token jwt host store manager "user" 4 "f"
        (some "b")
        (some 20)
        family
      ≡ (err value_error, w'))
    × (w' ≡ [])
issue_refresh_token_refuses_newest_example =
    issue_refresh_token_refuses_newest jwt host store manager view store-KeepsLists "user" 4 "f"
      newest (record { jti = "a"; exp = 10 } ∷ []) (some 20) family refl refl
