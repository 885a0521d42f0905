-- ===== src/Routes/AccessLaws.antt =====
-- Which tokens are accepted when PyJWT is told of no algorithms.
use tenjin.Common.{◌≡◌, ◌≢◌, Bool, true, false, if◌then◌else◌, Option, none, some, String, List}
use tenjin.Common.Action.{
  Action, Result, Error, ok, err, network, redis, transient, database, integrity, key_error,
  value_error, type_error, attribute_error, name_error, index_error, runtime_error, premature,
  cache_coherence, duplicate_request, conflicting_intent, invalid_token, http_error, raise, lift,
  catch, bind-returns, ◌>>=◌,
}
use tenjin.Common.Dict.{lookup}
use tenjin.Cache.Guard.{is_empty}
use tenjin.Routes.{AccessClaims}
use tenjin.Routes.Access.{
  Access, second_word, checked_header, as_unauthorized, decode_or, refresh_and_decode, decode_known,
  validate_token, validate_access_token,
}

-- No world makes the action return.
abbrev Fails : {W A : Type 0} → Action W A → Type 0
Fails {W} {A} m = (w : W) (a : A) (w' : W) → m w ≡ (ok a, w') → ⊥

module _ {W A : Type 0} where
  raise-Fails : (e : Error) → Fails {W = W} {A = A} (raise e)
  raise-Fails e w a w' h = cc

  bind-Fails :
      {B : Type 0} (m : Action W B) (k : B → Action W A) → ((b : B) → Fails (k b)) → Fails (m >>= k)
  bind-Fails m k fails w a w' h = let (b, v, e, g) = bind-returns m k w a w' h in fails b v a w' g

  caught : (Error → Action W A) → Result A × W → Result A × W
  caught handler o = elim o.0 [ ok a ↦ (ok a, o.1) | err e ↦ handler e o.1 ]

  caught-Fails :
      (handler : Error → Action W A)
      → ((e : Error) → Fails (handler e))
      → (o : Result A × W) → ((a : A) (w' : W) → o ≡ (ok a, w') → ⊥)
      → (a : A) (w' : W) → caught handler o ≡ (ok a, w')
      → ⊥
  unfolding caught
  caught-Fails handler fails (ok b, v) none_ok a w' h = none_ok a w' h
  caught-Fails handler fails (err e, v) none_ok a w' h = fails e v a w' h

  catch-Fails :
      (m : Action W A) (handler : Error → Action W A)
      → Fails m
      → ((e : Error) → Fails (handler e))
      → Fails (catch m handler)
  unfolding caught
  catch-Fails m handler fails handled w a w' h = caught-Fails handler handled (m w) (fails w) a w' h

as_unauthorized-Fails : {W : Type 0} (e : Error) → Fails {W = W} (as_unauthorized e)
unfolding as_unauthorized
as_unauthorized-Fails invalid_token w a w' h = cc
as_unauthorized-Fails network w a w' h = cc
as_unauthorized-Fails redis w a w' h = cc
as_unauthorized-Fails transient w a w' h = cc
as_unauthorized-Fails database w a w' h = cc
as_unauthorized-Fails integrity w a w' h = cc
as_unauthorized-Fails key_error w a w' h = cc
as_unauthorized-Fails value_error w a w' h = cc
as_unauthorized-Fails type_error w a w' h = cc
as_unauthorized-Fails attribute_error w a w' h = cc
as_unauthorized-Fails name_error w a w' h = cc
as_unauthorized-Fails index_error w a w' h = cc
as_unauthorized-Fails runtime_error w a w' h = cc
as_unauthorized-Fails premature w a w' h = cc
as_unauthorized-Fails cache_coherence w a w' h = cc
as_unauthorized-Fails duplicate_request w a w' h = cc
as_unauthorized-Fails conflicting_intent w a w' h = cc
as_unauthorized-Fails (http_error n) w a w' h = cc

-- `decode` documents that it raises DecodeError when it is to verify a signature and is given no
-- algorithms.
pub record RequiresAlgorithms {W : Type 0} (access : Access W) : Type 0 where
  pub refuses :
      (token key : String) (w : W) → access.decode none token key w ≡ (err invalid_token, w)

module _ {W : Type 0} (access : Access W) (required : RequiresAlgorithms access) where
  decode_or-Fails :
      (token : String) (missing : Action W AccessClaims) (key : Option String)
      → Fails missing
      → Fails (decode_or access token missing key)
  unfolding decode_or
  decode_or-Fails token missing none fails w a w' h = fails w a w' h
  decode_or-Fails token missing (some key) fails w a w' h = present (is_empty key) h
    where
      present :
          (b : Bool) → (if b then missing else access.decode none token key) w ≡ (ok a, w') → ⊥
      present true g = fails w a w' g
      present false g = let refused = required.refuses token key w in cc

  refresh_and_decode-Fails :
      (token key_id : String) → Fails (refresh_and_decode access token key_id)
  unfolding refresh_and_decode
  refresh_and_decode-Fails token key_id = bind-Fails access.get_global_key_mapping _ λ mapping.
      bind-Fails (access.set_mapping mapping) _ λ u.
        decode_or-Fails token (raise (http_error 401)) (lookup key_id mapping)
          (raise-Fails (http_error 401))

  decode_known-Fails : (token key_id : String) → Fails (decode_known access token key_id)
  unfolding decode_known
  decode_known-Fails token key_id =
      catch-Fails _ as_unauthorized
        (bind-Fails access.current_mapping _ λ mapping.
          decode_or-Fails token (refresh_and_decode access token key_id) (lookup key_id mapping)
            (refresh_and_decode-Fails token key_id))
        as_unauthorized-Fails

  validate_token-Fails : (token : String) → Fails (validate_token access token)
  unfolding validate_token
  validate_token-Fails token = bind-Fails (lift (access.get_unverified_header token)) _ λ header.
      bind-Fails (lift (checked_header access.allowed_algorithms header)) _
        (decode_known-Fails token)

  -- Where decoding a token without algorithms is refused, validate_access_token accepts no request,
  -- whatever keys are known and whatever the request's header is.
  pub validate_access_token_refuses :
      (header : Option (List String)) (claims : AccessClaims) (w w' : W)
      → validate_access_token access header w ≢ (ok claims, w')
  unfolding validate_access_token
  validate_access_token_refuses none claims w w' h = cc
  validate_access_token_refuses (some words) claims w w' h =
      bind-Fails (lift (second_word words)) _ validate_token-Fails w claims w' h
