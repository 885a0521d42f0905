-- ===== src/Events/Values.antt =====
-- The values that payloads hold and that are encoded as JSON. `orjson` is not part of the
-- repository: its two functions are a parameter.
use tenjin.Common.{
  ◌≡◌, ◌||◌, Bool, true, false, String, Option, none, some, if◌then◌else◌, List, [], ◌∷◌,
}
use tenjin.Common.Int.{ℤ}
use text.Mathlib.Text.{◌==◌ as str_eq}

mutual
  pub data Value : Type 0 where
    null : Value
    boolean : Bool → Value
    int : ℤ → Value
    str : String → Value
    bytes : String → Value
    array : Values → Value
    object : Fields → Value

  pub data Values : Type 0 where
    nil : Values
    cons : Value → Values → Values

  -- a dict with text keys, in insertion order
  pub data Fields : Type 0 where
    end : Fields
    field : String → Value → Fields → Fields

-- `d[k]`; `none` is a KeyError
unfoldable pub get_field : String → Fields → Option Value
get_field k end = none
get_field k (field j v d) = if str_eq j k then some v else get_field k d

-- a list of values as a JSON array
unfoldable pub to_array {ℓ} : {A : Type ℓ} → (A → Value) → List A → Values
to_array f [] = nil
to_array f (x ∷ xs) = cons (f x) (to_array f xs)

-- `orjson.dumps` returns bytes or raises JSONEncodeError, a TypeError; `orjson.loads` returns a
-- value or raises JSONDecodeError, a ValueError.
pub record Orjson : Type 0 where
  pub dumps : Value → Option String
  pub loads : String → Option Value

abbrev mutual
  -- whether `bytes` stand anywhere in a value
  pub has_bytes : Value → Bool
  has_bytes null = false
  has_bytes (boolean b) = false
  has_bytes (int n) = false
  has_bytes (str s) = false
  has_bytes (bytes b) = true
  has_bytes (array vs) = any_bytes vs
  has_bytes (object d) = any_field_bytes d

  pub any_bytes : Values → Bool
  any_bytes nil = false
  any_bytes (cons v vs) = has_bytes v || any_bytes vs

  pub any_field_bytes : Fields → Bool
  any_field_bytes end = false
  any_field_bytes (field k v d) = has_bytes v || any_field_bytes d

-- orjson's documentation: `bytes` are not among the types that it encodes.
pub record RefusesBytes (orjson : Orjson) : Type 0 where
  pub refuses : (v : Value) → has_bytes v ≡ true → orjson.dumps v ≡ none

-- `d | {k: v}` for a key that `d` does not have
unfoldable pub append_field : Fields → String → Value → Fields
append_field end k v = field k v end
append_field (field j x d) k v = field j x (append_field d k v)
