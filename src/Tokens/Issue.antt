-- ===== src/Tokens/Issue.antt =====
-- The tokens of `TokenManager`: `decode_token`, `issue_refresh_token`, `issue_access_token` and
-- `reissue_token_pair`.
use text.Mathlib.Text.{◌==◌ as str_eq}
use tenjin.Common.{
  ℕ, ◌+◌, ◌-◌, Bool, true, false, not, ◌||◌, if◌then◌else◌, ◌==◌, Option, none, some, String, ◌<>◌,
  List, [], ◌∷◌,
}
use tenjin.Common.Dict.{lookup}
use tenjin.Common.Action.{
  Action, Result, ok, err, premature, key_error, value_error, invalid_token, lift, pure, raise,
  done, ◌>>=◌, ◌>>◌,
}
use tenjin.Common.Result.{or_raise}
use tenjin.Tokens.Keys.{KeyRing}
use tenjin.Tokens.Families.{Entry, TokenStore, family_key, invalidate_family, shift_token_window}

-- security/tokens.py: TokenType and the claims of both kinds of tokens; `nbf` is of refresh tokens
pub data TokenType : Type 0 where
  standard_access standard_refresh : TokenType

pub record Claims : Type 0 where
  pub iat : ℕ
  pub exp : ℕ
  pub nbf : Option ℕ
  pub fid : String
  pub sub : String
  pub sid : ℕ
  pub jti : Option String

-- PyJWT, with what `decode` is given: the token, the PEM, the algorithm and the leeway.
-- `get_unverified_kid` is `get_unverified_header(token)["kid"]`, and `unverified_fid` is
-- `decode(token, options={"verify_signature": False})["fid"]`.
pub record Jwt : Type 0 where
  pub get_unverified_kid : String → Result String
  pub decode : String → String → String → ℕ → Result Claims
  pub unverified_fid : String → Result String
  pub encode : Claims → String → String → String → Result String

-- The clock and `uuid.uuid4().hex`.
pub record Host (W : Type 0) : Type 0 where
  pub time : W → ℕ × W
  pub generate_unique_identifier : W → String × W

-- The attributes of the manager; `universal_claims` is what `payload.update` does with them.
pub record TokenManager : Type 0 where
  pub ring : KeyRing
  pub refresh_lifetime : ℕ
  pub access_lifetime : ℕ
  pub leeway : ℕ
  pub max_llen : ℕ
  pub universal_claims : Claims → Claims

-- `str(b)` of bytes that need no escape, such as the digits of a UUID: the text has the quotes and
-- the prefix of a literal.
abbrev pub str_of_bytes : String → String
str_of_bytes b = "b'" <> b <> "'"

-- `a != b` for an optional text or number
unfoldable pub is_not_text : String → Option String → Bool
is_not_text a none = true
is_not_text a (some b) = not (str_eq a b)

unfoldable pub is_not_number : ℕ → Option ℕ → Bool
is_not_number a none = true
is_not_number a (some b) = not (a == b)

module _ {W : Type 0} (jwt : Jwt) (host : Host W) (store : TokenStore W)
    (manager : TokenManager) where
  -- the active key: `self.key_mapping[self.active_key]`
  unfoldable pub sign : Claims → Result String
  sign payload =
      tenjin.Common.Result.◌>>=◌
        (or_raise (lookup manager.ring.active_key manager.ring.key_mapping) key_error)
        λ key. jwt.encode payload key.private_pem key.algorithm manager.ring.active_key

  -- the body of the `try` of `decode_token`; an unknown key is an InvalidKeyError, which passes
  unfoldable pub decode_with_known_key : String → Result Claims
  decode_with_known_key token = tenjin.Common.Result.◌>>=◌ (jwt.get_unverified_kid token) λ kid.
      tenjin.Common.Result.◌>>=◌ (or_raise (lookup kid manager.ring.key_mapping) invalid_token)
        λ key. jwt.decode token key.public_pem key.algorithm manager.leeway

  unfoldable pub on_premature : String → TokenType → Action W Claims
  on_premature token standard_refresh =
      lift (jwt.unverified_fid token) >>= λ fid. invalidate_family store fid >> raise value_error
  on_premature token standard_access = raise value_error

  unfoldable pub decoded : String → TokenType → Result Claims → Action W Claims
  unfolding on_premature
  decoded token token_type (ok claims) = pure claims
  decoded token token_type (err premature) = on_premature token token_type
  decoded token token_type (err key_error) = raise invalid_token
  decoded token token_type (err e) = raise e

  unfoldable pub decode_token : String → TokenType → Action W Claims
  unfolding decode_with_known_key decoded
  decode_token token token_type = decoded token token_type (decode_with_known_key token)

  -- what happens for `if not key` and for the comparison with the family's newest entry
  unfoldable pub check_newest :
      String → Option String → Option ℕ → Option Entry → Action W (Unit {0})
  unfolding is_not_text is_not_number
  check_newest family_id jti exp none = invalidate_family store family_id >> raise value_error
  check_newest family_id jti exp (some key) =
      if is_not_text (str_of_bytes key.jti) jti || is_not_number key.exp exp
      then invalidate_family store family_id >> raise value_error
      else done

  unfoldable pub invalidate_if_any : String → List Entry → Action W (Unit {0})
  invalidate_if_any family_id [] = done
  invalidate_if_any family_id (e ∷ es) = invalidate_family store family_id

  unfoldable pub check_family : String → Option String → Option ℕ → Action W (Unit {0})
  unfolding check_newest invalidate_if_any
  check_family family_id jti exp =
      if str_eq family_id ""
      then store.lrange_all (family_key family_id) >>= invalidate_if_any family_id
      else store.lindex_first (family_key family_id) >>= check_newest family_id jti exp

  unfoldable pub new_payload : String → ℕ → String → W → Claims × W
  new_payload sub sid family_id w =
      let (iat, w₁) = host.time w in
      let (now, w₂) = host.time w₁ in
      let (later, w₃) = host.time w₂ in
      let (jti, w₄) = host.generate_unique_identifier w₃ in
      (
        manager.universal_claims (record {
          iat = iat;
          exp = now + manager.refresh_lifetime;
          nbf = some (later + manager.access_lifetime - manager.leeway);
          fid = family_id;
          sub = sub;
          sid = sid;
          jti = some jti;
        }),
        w₄,
      )

  -- the pipeline of `issue_refresh_token`, and its token
  unfoldable pub record_and_sign : String → Claims → Action W String
  unfolding sign
  record_and_sign family_id payload = do
    jti ← lift (or_raise payload.jti key_error)
    store.lpush (family_key family_id) (record { jti = jti; exp = payload.exp })
    store.expireat (family_key family_id) payload.exp
    lift (sign payload)

  unfoldable pub issue_checked : String → ℕ → String → Action W String
  unfolding new_payload record_and_sign
  issue_checked sub sid family_id w =
      let (payload, w') = new_payload sub sid family_id w in record_and_sign family_id payload w'

  -- with no `additional_claims`, which no caller gives
  unfoldable pub issue_refresh_token :
      String → ℕ → String → Option String → Option ℕ → Action W String
  unfolding check_family issue_checked
  issue_refresh_token sub sid family_id jti exp = check_family family_id jti exp >> λ w.
      let (payload, w') = new_payload sub sid family_id w in record_and_sign family_id payload w'

  unfoldable pub issue_access_token : String → ℕ → String → Action W String
  unfolding sign
  issue_access_token sub sid family_id w =
      let (iat, w₁) = host.time w in
      let (now, w₂) = host.time w₁ in
      let (jti, w₃) = host.generate_unique_identifier w₂ in
      (
        sign (
            manager.universal_claims (record {
              iat = iat;
              exp = now + manager.access_lifetime;
              nbf = none;
              fid = family_id;
              sub = sub;
              sid = sid;
              jti = some jti;
            })),
        w₃,
      )

  unfoldable pub reissue_token_pair : String → Action W (String × String)
  unfolding decode_token issue_refresh_token issue_access_token
  reissue_token_pair refresh_token = do
    claims ← decode_token refresh_token standard_refresh
    refresh ← issue_refresh_token claims.sub claims.sid claims.fid claims.jti (some claims.exp)
    shift_token_window store manager.max_llen claims.fid
    access ← issue_access_token claims.sub claims.sid claims.fid
    pure (refresh, access)
