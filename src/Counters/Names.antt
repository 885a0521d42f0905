-- ===== src/Counters/Names.antt =====
-- resource_database_workers/utils/strings.py: the names of batches of counters.
use Prim.Native.Char.{Char, code}
use text.Mathlib.Text.{◌==◌ as str_eq}
use tenjin.Common.{
  ℕ, ◌≡◌, refl, false, if◌then◌else◌, ◌==◌, Option, none, some, String, ◌<>◌, List, [], ◌∷◌,
}
use tenjin.Common.Result
use tenjin.Common.Result.{Result, ok, err, value_error}
use tenjin.Common.Int.{ℤ, pos, str_of_int}

-- `"-".join(parts)`
unfoldable pub join_internal : List String → String
join_internal [] = ""
join_internal (part ∷ []) = part
join_internal (part ∷ parts) = part <> "-" <> join_internal parts

unfoldable pub derive_lock_key : String → String
unfolding join_internal
derive_lock_key name = join_internal ("lock" ∷ name ∷ [])

unfoldable pub generate_retry_batch_name : String → ℕ → String → String
unfolding join_internal str_of_int
generate_retry_batch_name counter_name version identifier =
    join_internal (counter_name ∷ identifier ∷ str_of_int (pos version) ∷ [])

-- `"-".split(separator)`: the text that is split is the dash
unfoldable pub split_dash_by : String → Result (List String)
split_dash_by separator =
    if str_eq separator ""
    then err value_error
    else if str_eq separator "-"
    then ok ("" ∷ "" ∷ [])
    else ok ("-" ∷ [])

-- a group's name, an identifier and a version, from the parts of a name
unfoldable pub metadata_of : (String → Result ℤ) → List String → Result (String × Option String × ℤ)
metadata_of int_of_text (group ∷ identifier ∷ version ∷ []) =
    Result.◌>>=◌ (int_of_text version) λ n. ok (group, some identifier, n)
metadata_of int_of_text (group ∷ parts) = ok (group, none, pos 0)
metadata_of int_of_text [] = err value_error

-- `INTERNAL_NAME_SEPERATOR.split(batch)` splits the separator by the name
unfoldable pub extract_batch_metadata :
    (String → Result ℤ) → String → Result (String × Option String × ℤ)
unfolding split_dash_by metadata_of
extract_batch_metadata int_of_text batch =
    Result.◌>>=◌ (split_dash_by batch) (metadata_of int_of_text)

-- Whatever batch is asked for, if its name is not empty and not a dash: its group is said to be a
-- dash, without an identifier, and its version 0.
pub extract_batch_metadata_forgets :
    (int_of_text : String → Result ℤ) (batch : String)
    → str_eq batch "" ≡ false
    → str_eq batch "-" ≡ false
    → extract_batch_metadata int_of_text batch ≡ ok ("-", none, pos 0)
unfolding extract_batch_metadata split_dash_by metadata_of
extract_batch_metadata_forgets int_of_text batch h k = rw (h, k) refl

-- `name.split(":")`
unfoldable pub split_names : String → List String
split_names String.[] = "" ∷ []
split_names (String.◌∷◌ c cs) =
    let rest = split_names cs in if code c == b':' then "" ∷ rest else before c rest
  where
    before : Char → List String → List String
    before c [] = String.◌∷◌ c "" ∷ []
    before c (part ∷ parts) = String.◌∷◌ c part ∷ parts
