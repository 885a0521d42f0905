-- ===== src/Common/Result.antt =====
-- Calls that return or raise.
use Prim.Native.Nat.{ℕ}
use mathlib.Core.Option.{Option, none, some}

-- The classes of exceptions that the code tells apart. `network` is a RedisError whose error_type
-- is ExceptionType.NETWORK, `redis` any other RedisError, `transient` a member of
-- POTENTIAL_TRANSIENT_ERRORS, `premature` is one of the three JWT errors that `decode_token` catches, `invalid_token` any other
-- PyJWT error; `integrity` an IntegrityError, `database` any other
-- psycopg or SQLAlchemy error. `cache_coherence` is a CacheCoherenceException, `duplicate_request` a
-- DuplicateRequestException, `conflicting_intent` a ConflictingIntentException, and `http_error` an
-- HTTPException with its status code.
pub data Error : Type 0 where
  network redis transient database integrity : Error
  key_error value_error type_error attribute_error name_error index_error : Error
  runtime_error invalid_token premature cache_coherence : Error
  duplicate_request conflicting_intent : Error
  http_error : ℕ → Error

pub data Result {ℓ} (A : Type ℓ) : Type ℓ where
  ok : A → Result A
  err : Error → Result A

infixl 5 ◌>>=◌
abbrev pub ◌>>=◌ {ℓ κ} : {A : Type ℓ} {B : Type κ} → Result A → (A → Result B) → Result B
ok a >>= f = f a
err e >>= f = err e

-- `o` if it is there, and otherwise the exception
abbrev pub or_raise {ℓ} : {A : Type ℓ} → Option A → Error → Result A
or_raise none e = err e
or_raise (some a) e = ok a
