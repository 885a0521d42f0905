-- ===== src/Cache/PageLaws.antt =====
-- How many results a page has.
use tenjin.Common.{
  ℕ, suc, ◌+◌, ◌≡◌, refl, ap, ◌||◌, Bool-cases, inl, inr, if◌then◌else◌, String, Option, some, List,
  [], ◌∷◌, ◌++◌, map, arith,
}
use tenjin.Common.Lists.{length, length-append}
use tenjin.Common.Int.{ℤ}
use tenjin.Common.Action.{Result, ok, err}
use tenjin.Common.Result
use tenjin.Events.Values.{Fields, Orjson}
use tenjin.Cache.{CacheConfig, CacheEntry, add_counters}
use tenjin.Cache.Pages.{
  MemberReply, Member, is_negative, is_absent, entry_fields, member_results, collect_members,
  result_count,
}

length-copies : {A B : Type 0} (a : A) (bs : List B) → length (map (λ _. a) bs) ≡ length bs
length-copies a [] = refl
length-copies a (b ∷ bs) = ap suc (length-copies a bs)

-- what a result that is returned has the length of
abbrev Lasts : ℕ → Result (List Member) → Type 0
Lasts n (ok rs) = length rs ≡ n
Lasts n (err e) = Unit

module _ (config : CacheConfig) (orjson : Orjson) (int_of_text : String → Result ℤ)
    (names : List String) where
  copies-Lasts :
      (ttl : ℤ) (r : Result Fields)
      → Lasts (length names) (Result.◌>>=◌ r λ d. ok (map (λ _. (some d, ttl)) names))
  copies-Lasts ttl (ok d) = length-copies (some d, ttl) names
  copies-Lasts ttl (err e) = tt

  counted-Lasts :
      (ttl : ℤ) (counters : List (Option String)) (r : Result Fields)
      → Lasts (length names) (
          Result.◌>>=◌ r λ d.
            Result.◌>>=◌
              (add_counters int_of_text d names counters)
              λ d'. ok (map (λ _. (some d', ttl)) names))
  counted-Lasts ttl counters (ok d) = copies-Lasts ttl (add_counters int_of_text d names counters)
  counted-Lasts ttl counters (err e) = tt

  member-Lasts :
      (entry : CacheEntry) (ttl : ℤ) (counters : List (Option String))
      → Lasts
          (if is_negative config entry || is_absent ttl then 1 else length names)
          (member_results config orjson int_of_text names (entry, ttl, counters))
  unfolding member_results
  member-Lasts entry ttl counters = elim (Bool-cases (is_negative config entry || is_absent ttl)) [
    | inl h ↦ rw h refl
    | inr h ↦ rw h (counted-Lasts ttl counters (entry_fields config orjson int_of_text names entry))
  ]

  joined-Lasts :
      (m n : ℕ) (r more : Result (List Member))
      → Lasts m r
      → Lasts n more
      → Lasts (m + n) (Result.◌>>=◌ r λ rs. Result.◌>>=◌ more λ ms. ok (rs ++ ms))
  joined-Lasts m n (ok rs) (ok ms) h k = omega (arith, length-append rs ms, h, k)
  joined-Lasts m n (ok rs) (err e) h k = tt
  joined-Lasts m n (err e) more h k = tt

  collect-Lasts :
      (replies : List MemberReply)
      → Lasts
          (result_count config orjson int_of_text names replies)
          (collect_members config orjson int_of_text names replies)
  unfolding collect_members result_count
  collect-Lasts [] = refl
  collect-Lasts ((entry, ttl, counters) ∷ replies) =
      joined-Lasts (if is_negative config entry || is_absent ttl then 1 else length names)
        (result_count config orjson int_of_text names replies)
        (member_results config orjson int_of_text names (entry, ttl, counters))
        (collect_members config orjson int_of_text names replies) (member-Lasts entry ttl counters)
        (collect-Lasts replies)

  returned_length :
      (n : ℕ) (r : Result (List Member)) (rs : List Member) → Lasts n r → r ≡ ok rs → length rs ≡ n
  returned_length n (ok ms) rs h q = cc
  returned_length n (err e) rs h q = cc

  -- When the replies for a page are collected, the number of results is one for each member that is
  -- not there and the number of counters for each that is: without counters the members that are
  -- there are lost, and with two of them they are doubled.
  collect_members-length :
      (replies : List MemberReply) (rs : List Member)
      → collect_members config orjson int_of_text names replies ≡ ok rs
      → length rs ≡ result_count config orjson int_of_text names replies
  collect_members-length replies rs h =
      returned_length (result_count config orjson int_of_text names replies)
        (collect_members config orjson int_of_text names replies) rs (collect-Lasts replies) h
