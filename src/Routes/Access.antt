-- ===== src/Routes/Access.antt =====
-- resource_server/request_dependencies.py: validate_access_token.
use text.Mathlib.Text.{◌==◌ as str_eq}
use tenjin.Common.{if◌then◌else◌, Option, none, some, String, List, [], ◌∷◌}
use tenjin.Common.Lists.{any}
use tenjin.Common.Action.{
  Action, Result, Error, ok, err, index_error, invalid_token, http_error, raise, lift, catch, ◌>>=◌,
  ◌>>◌,
}
use tenjin.Common.Dict.{Dict, lookup}
use tenjin.Cache.Guard.{is_empty}
use tenjin.Routes.{AccessClaims}

-- The key manager's mapping, the mapping that the workers share, and PyJWT. `decode` takes the
-- algorithms that it is told to allow, if it is told any, the token and the key; each of PyJWT's
-- exceptions is `invalid_token`.
pub record Access (W : Type 0) : Type 0 where
  pub current_mapping : Action W (Dict String)
  pub set_mapping : Dict String → Action W (Unit {0})
  pub get_global_key_mapping : Action W (Dict String)
  -- the key ID and the algorithm of a token's header
  pub get_unverified_header : String → Result (Option String × Option String)
  pub decode : Option (List String) → String → String → Action W AccessClaims
  pub allowed_algorithms : List String

-- `words[1]` of the words of the header
unfoldable pub second_word : List String → Result String
second_word [] = err index_error
second_word (w ∷ []) = err index_error
second_word (w ∷ token ∷ ws) = ok token

-- `not key_id` and `alg not in ALLOWED_ALGORITHMS`
unfoldable pub checked_header : List String → Option String × Option String → Result String
unfolding is_empty
checked_header allowed (none, alg) = err (http_error 401)
checked_header allowed (some key_id, none) = err (http_error 401)
checked_header allowed (some key_id, some alg) =
    if is_empty key_id
    then err (http_error 401)
    else if any (str_eq alg) allowed
    then ok key_id
    else err (http_error 401)

-- the two `except` clauses
unfoldable pub as_unauthorized : {W : Type 0} → Error → Action W AccessClaims
as_unauthorized invalid_token = raise (http_error 401)
as_unauthorized e = raise e

module _ {W : Type 0} (access : Access W) (token : String) where
  -- `if key := …: return jwt.decode(…)`, which names no algorithms, or else `missing`
  unfoldable pub decode_or : Action W AccessClaims → Option String → Action W AccessClaims
  unfolding is_empty
  decode_or missing none = missing
  decode_or missing (some key) = if is_empty key then missing else access.decode none token key

  -- the mapping is replaced by the shared one
  unfoldable pub refresh_and_decode : String → Action W AccessClaims
  unfolding decode_or
  refresh_and_decode key_id = do
    mapping ← access.get_global_key_mapping
    access.set_mapping mapping
    decode_or (raise (http_error 401)) (lookup key_id mapping)

  -- the `try` statement
  unfoldable pub decode_known : String → Action W AccessClaims
  unfolding decode_or refresh_and_decode as_unauthorized
  decode_known key_id =
      catch
        (access.current_mapping >>= λ mapping.
          decode_or (refresh_and_decode key_id) (lookup key_id mapping))
        as_unauthorized

module _ {W : Type 0} (access : Access W) where
  unfoldable pub validate_token : String → Action W AccessClaims
  unfolding checked_header decode_known
  validate_token token = lift (access.get_unverified_header token) >>= λ header.
      lift (checked_header access.allowed_algorithms header) >>= decode_known access token

  -- with the words of the header Authorization, if the request has one
  unfoldable pub validate_access_token : Option (List String) → Action W AccessClaims
  unfolding second_word validate_token
  validate_access_token none = raise (http_error 401)
  validate_access_token (some words) = lift (second_word words) >>= validate_token
