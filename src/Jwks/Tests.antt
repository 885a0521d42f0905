-- ===== src/Jwks/Tests.antt =====
-- Tests of the mapping of verification keys.
use tenjin.Common.{◌≡◌, refl, List, [], ◌∷◌}
use tenjin.Common.Dict.{Dict, has_key, member, insert, remove, difference}
use tenjin.Common.Result.{ok}
use tenjin.Common.{String}
use tenjin.Jwks.{
  JwksEntry, Crypto, merge_jwks, sync_announced, add_entries, purge, pem_of, from_base64url,
}
use tenjin.Jwks.Mapping.{merge_jwks-has_key, keys_after}
use tenjin.Jwks.Announcements.{sync_announced_leaves}

abbrev crypto : Crypto
crypto = record { urlsafe_b64decode = λ s. ok (1 ∷ 2 ∷ []); pem_of_point = λ x y. ok "pem" }

-- a response with one known and one new key
abbrev response : List JwksEntry
response =
    record { kid = "b"; x = "AQI"; y = "AQI" } ∷ record { kid = "c"; x = "AQI"; y = "AQI" } ∷ []

abbrev current : Dict String
current = ("a", "pem") ∷ ("b", "pem") ∷ []

abbrev merged : Dict String
merged = ("b", "pem") ∷ ("c", "pem") ∷ []

merging : merge_jwks crypto response current ≡ (ok tt, merged)
unfolding merge_jwks add_entries purge pem_of from_base64url has_key member insert remove difference
merging = refl

merge_jwks-has_key_example : has_key "c" merged ≡ keys_after "c" response current
merge_jwks-has_key_example = merge_jwks-has_key crypto "c" response current merged merging

sync_announced_leaves_example : (sync_announced merged current).1 ≡ current
sync_announced_leaves_example = sync_announced_leaves merged current
