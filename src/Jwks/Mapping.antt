-- ===== src/Jwks/Mapping.antt =====
-- What a merge makes of the mapping of keys, and the padding of base64.
use Prim.Native.Nat.{◌%◌}
use Prim.Native.String.{count}
use text.Mathlib.Text.{◌==◌ as str_eq}
use text.Mathlib.TextEquality.{eq_iff}
use text.Mathlib.TextLemmas.{length-append}
use tenjin.Common.{
  ℕ, zero, suc, ◌-◌, ◌≡◌, refl, ap, sym, ◌∙◌, Bool, true, false, not, ◌&&◌, ◌||◌, Bool-cases, inl,
  inr, if◌then◌else◌, String, List, [], ◌∷◌, map, arith,
}
use tenjin.Common.Dict.{
  Dict, has_key, insert, remove, keys, member, difference, has_key-insert, has_key-remove,
}
use tenjin.Common.Result.{Result, ok, err}
use tenjin.Jwks.{
  JwksEntry, Crypto, equals_signs, pad_base64url, pem_of, add_entries, purge, merge_jwks,
}

count-equals_signs : (n : ℕ) → count (equals_signs n) ≡ n
unfolding equals_signs
count-equals_signs zero = refl
count-equals_signs (suc n) =
    length-append "=" (equals_signs n) ∙ omega (arith, count-equals_signs n)

-- The padding makes the length a multiple of four.
pub pad_base64url_length : (b64url : String) → count (pad_base64url b64url) % 4 ≡ 0
unfolding pad_base64url
pad_base64url_length b64url = omega (
  arith,
  length-append b64url (equals_signs ((4 - count b64url % 4) % 4)),
  count-equals_signs ((4 - count b64url % 4) % 4),
)

member-keys : (k : String) (d : Dict String) → member k (keys d) ≡ has_key k d
unfolding member has_key
member-keys k [] = refl
member-keys k ((j, v) ∷ d) = ground (arith, member-keys k d)

member-difference :
    (k : String) (ks js : List String)
    → member k (difference ks js) ≡ (member k ks && not (member k js))
unfolding member difference
member-difference k [] js = refl
member-difference k (j ∷ ks) js = ground (arith, eq_iff j k, member-difference k ks js)

has_key-purge :
    (k : String) (kids : List String) (d : Dict String)
    → has_key k (purge kids d) ≡ (if member k kids then false else has_key k d)
unfolding purge member
has_key-purge k [] d = refl
has_key-purge k (j ∷ kids) d =
    ground (arith, has_key-purge k kids (remove j d), has_key-remove j k d)

abbrev pub kids_of : List JwksEntry → List String
kids_of = map (λ (e : JwksEntry). e.kid)

-- whether `k` is in the mapping after a response has been merged into `current`
abbrev pub keys_after : String → List JwksEntry → Dict String → Bool
keys_after k [] current = has_key k current
keys_after k (entry ∷ entries) current = member k (kids_of (entry ∷ entries))

module _ (crypto : Crypto) (k : String) where
  after_pem :
      (entry : JwksEntry) (entries : List JwksEntry) (d d' : Dict String) (r : Result String)
      → ((d : Dict String)
          → add_entries crypto entries d ≡ (ok tt, d')
          → has_key k d' ≡ (has_key k d || member k (kids_of entries)))
      → (elim r as (λ _. Result (Unit {0}) × Dict String) [
        | ok pem ↦ add_entries crypto entries (insert entry.kid pem d)
        | err e ↦ (err e, d)
      ])
        ≡ (ok tt, d')
      → has_key k d' ≡ (has_key k d || member k (kids_of (entry ∷ entries)))
  unfolding member
  after_pem entry entries d d' (err e) ih h = cc
  after_pem entry entries d d' (ok pem) ih h =
      ground (arith, ih (insert entry.kid pem d) h, has_key-insert entry.kid k pem d)

  same_key :
      (kid : String) (d : Dict String) (m b : Bool)
      → has_key kid d ≡ true
      → b ≡ (has_key k d || m)
      → b ≡ (has_key k d || (if str_eq kid k then true else m))
  same_key kid d m b known h = elim (Bool-cases (str_eq kid k)) [
    | inl s ↦
        let here : has_key k d ≡ true = sym (ap (λ j. has_key j d) ((eq_iff kid k).0 s)) ∙ known in
        ground arith
    | inr n ↦ ground arith
  ]

  add_entries-has_key :
      (entries : List JwksEntry) (d d' : Dict String)
      → add_entries crypto entries d ≡ (ok tt, d')
      → has_key k d' ≡ (has_key k d || member k (kids_of entries))
  unfolding add_entries member
  add_entries-has_key [] d d' h = let same : d ≡ d' = cc in rw (← same) (ground arith)
  add_entries-has_key (entry ∷ entries) d d' h = elim (Bool-cases (has_key entry.kid d)) [
    | inl known ↦
        let ih = add_entries-has_key entries d d' (rw known at h) in
        same_key entry.kid d (member k (kids_of entries)) (has_key k d') known ih
    | inr new ↦
        after_pem entry entries d d' (pem_of crypto entry)
          (λ d₁ g. add_entries-has_key entries d₁ d' g) (rw new at h)
  ]

  -- When merging a response returns: an empty response has left the keys of the mapping as they were,
  -- and with any other the mapping has exactly the keys of the response: the keys that are no longer
  -- valid are purged, and the new ones are added.
  pub merge_jwks-has_key :
      (new_mapping : List JwksEntry) (current_mapping d' : Dict String)
      → merge_jwks crypto new_mapping current_mapping ≡ (ok tt, d')
      → has_key k d' ≡ keys_after k new_mapping current_mapping
  unfolding merge_jwks
  merge_jwks-has_key [] current_mapping d' h =
      ap (has_key k) (ap (λ (o : Result (Unit {0}) × Dict String). o.1) (sym h))
  merge_jwks-has_key (entry ∷ entries) current_mapping d' h =
      let response : List JwksEntry = entry ∷ entries in
      let expired : List String = difference (keys current_mapping) (kids_of response) in
      ground (
        arith,
        add_entries-has_key response (purge expired current_mapping) d' h,
        has_key-purge k expired current_mapping,
        member-difference k (keys current_mapping) (kids_of response),
        member-keys k current_mapping,
      )
