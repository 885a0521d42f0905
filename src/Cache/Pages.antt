-- ===== src/Cache/Pages.antt =====
-- resource_server/cache_manager.py: a page of resources that is read from the cache
-- (`_primitive_pagination_get_from_cache`, `_fetch_paginated_resources`,
-- `_promote_paginated_result`, `update_cache_version`).
use text.Mathlib.Text.{◌==◌ as str_eq}
use tenjin.Common.{
  ℕ, ◌+◌, ◌≡◌, refl, ap, suc, Bool, true, false, ◌&&◌, ◌||◌, if◌then◌else◌, Option, none, some,
  String, List, [], ◌∷◌, ◌++◌, map, arith, Bool-cases, inl, inr,
}
use tenjin.Common.Lists.{length, all}
use tenjin.Common.Int.{ℤ, pos, negsuc, ◌+ℤ◌, minℤ}
use tenjin.Common.Result
use tenjin.Common.Result.{or_raise}
use tenjin.Common.Action.{
  Action, Result, ok, err, type_error, value_error, index_error, lift, pure, ◌>>=◌, ◌>>◌,
}
use tenjin.Events.Values.{Fields, Orjson, str, object, end, field}
use tenjin.Cache.{CacheConfig, CacheEntry, Dtype, hash, plain, missing, add_counters}

-- What the pipeline answers for one member of a page: its entry, its TTL and its counters.
abbrev pub MemberReply : Type 0
MemberReply = CacheEntry × ℤ × List (Option String)

-- An entry, if it is there, and its TTL.
abbrev pub Member : Type 0
Member = Option Fields × ℤ

-- The calls of the client for pages. `read_members` is the pipeline for the page's TTL and its
-- members; `expire_all` is a transaction of EXPIREs.
pub record PageClient (W : Type 0) : Type 0 where
  pub lrange_all : String → Action W (List String)
  pub read_members : Dtype → String → List String → List String → Action W (ℤ × List MemberReply)
  pub expire_all : List (String × ℤ) → Action W (Unit {0})
  pub hincrby : String → String → Action W (Unit {0})

-- `keys.pop(-1)`: the other keys and the last one, or IndexError
unfoldable pub pop_last : List String → Result (List String × String)
pop_last [] = err index_error
pop_last (key ∷ []) = ok ([], key)
pop_last (key ∷ keys) = let rest = pop_last keys in Result.◌>>=◌ rest λ p. ok (key ∷ p.0, p.1)

-- `member_entry == NF_MAPPING`
unfoldable pub is_negative : CacheConfig → CacheEntry → Bool
is_negative config (hash (field k (str v) end)) =
    str_eq k config.nf_sentinel_key && str_eq v config.nf_sentinel_value
is_negative config _ = false

-- `member_ttl == -2`
unfoldable pub is_absent : ℤ → Bool
is_absent (negsuc n) = tenjin.Common.Tests.◌==◌ n 1
is_absent (pos n) = false

module _ (config : CacheConfig) (orjson : Orjson) (int_of_text : String → Result ℤ)
    (names : List String) where
  unfoldable pub entry_fields : CacheEntry → Result Fields
  entry_fields (hash d) = ok d
  entry_fields missing = err value_error
  entry_fields (plain s) =
      Result.◌>>=◌ (or_raise (orjson.loads s) value_error)
        λ v. elim v as (λ _. Result Fields) [ object d ↦ ok d | _ ↦ err type_error ]

  -- A member that is there is appended once for each counter, and with all of them added, since it
  -- is the same dict each time.
  unfoldable pub member_results : MemberReply → Result (List Member)
  unfolding entry_fields is_negative is_absent
  member_results (entry, ttl, counters) =
      if is_negative config entry || is_absent ttl
      then ok ((none, ttl) ∷ [])
      else Result.◌>>=◌ (entry_fields entry) λ d.
        Result.◌>>=◌ (add_counters int_of_text d names counters)
          λ d'. ok (map (λ _. (some d', ttl)) names)

  unfoldable pub collect_members : List MemberReply → Result (List Member)
  unfolding member_results
  collect_members [] = ok []
  collect_members (reply ∷ replies) =
      Result.◌>>=◌ (member_results reply)
        λ rs. Result.◌>>=◌ (collect_members replies) λ more. ok (rs ++ more)

  -- how many results a page has: one for each member that is not there, and as many as there are
  -- counters for each member that is
  unfoldable pub result_count : List MemberReply → ℕ
  result_count [] = 0
  result_count ((entry, ttl, counters) ∷ replies) =
      (if is_negative config entry || is_absent ttl then 1 else length names) + result_count replies

  module _ {W D : Type 0} (client : PageClient W) (construct_from_cache : Fields → Result D)
      (split_names : String → List String) (maps : List String) where
    unfoldable pub read_page :
        String → Dtype → List String × String → Action W (ℤ × List String × List Member × String)
    unfolding collect_members
    read_page page_key dtype (keys, cursor) = do
      answers ← client.read_members dtype page_key keys maps
      results ← lift (collect_members answers.1)
      pure (answers.0, keys, results, cursor)

    unfoldable pub primitive_pagination_get_from_cache :
        String → Dtype → Action W (ℤ × List String × List Member × String)
    unfolding pop_last read_page
    primitive_pagination_get_from_cache page_key dtype =
        client.lrange_all page_key >>= λ keys. lift (pop_last keys) >>= read_page page_key dtype

    -- `member_ttls[idx]` for each key
    unfoldable pub promotions : List String → List ℤ → Result (List (String × ℤ))
    promotions [] ttls = ok []
    promotions (key ∷ keys) [] = err index_error
    promotions (key ∷ keys) (ttl ∷ ttls) =
        let rest = promotions keys ttls in
        Result.◌>>=◌ rest
          λ ps. ok ((key, minℤ (pos config.ttl_cap) (ttl +ℤ pos config.ttl_promotion)) ∷ ps)

    unfoldable pub promote_paginated_result :
        String → ℤ → List String → List ℤ → Action W (Unit {0})
    unfolding promotions
    promote_paginated_result page_key page_ttl member_keys member_ttls =
        lift (promotions member_keys member_ttls) >>= λ ps.
        client.expire_all
          ((page_key, minℤ (pos config.ttl_cap) (page_ttl +ℤ pos config.ttl_promotion)) ∷ ps)

    -- `key.split(":")[0]`
    unfoldable pub derive_resource_from_pagination_key : List String → Result String
    derive_resource_from_pagination_key [] = err index_error
    derive_resource_from_pagination_key (name ∷ names) = ok name

    unfoldable pub update_cache_version : String → Action W (Unit {0})
    update_cache_version resource_name = client.hincrby "pagination_versions" resource_name

    unfoldable pub is_there : Member → Bool
    is_there (none, ttl) = false
    is_there (some end, ttl) = false
    is_there (some d, ttl) = true

    unfoldable pub construct_member : Member → Result (Option D)
    construct_member (none, ttl) = ok none
    construct_member (some end, ttl) = ok none
    construct_member (some d, ttl) = Result.◌>>=◌ (construct_from_cache d) λ dto. ok (some dto)

    unfoldable pub construct_members : List Member → Result (List (Option D))
    unfolding construct_member
    construct_members [] = ok []
    construct_members (m ∷ ms) =
        Result.◌>>=◌ (construct_member m)
          λ dto. Result.◌>>=◌ (construct_members ms) λ dtos. ok (dto ∷ dtos)

    unfoldable pub promote_or_update :
        String → ℤ × List String × List Member × String → Action W (Unit {0})
    unfolding promote_paginated_result derive_resource_from_pagination_key update_cache_version
        is_there
    promote_or_update page_key (page_ttl, keys, entries, cursor) =
        if all is_there entries
        then promote_paginated_result page_key page_ttl keys (map (λ m. m.1) entries)
        else lift (derive_resource_from_pagination_key (split_names page_key))
          >>= update_cache_version

    unfoldable pub serve_page :
        String → ℤ × List String × List Member × String → Action W (List (Option D) × String)
    unfolding promote_or_update construct_members
    serve_page page_key page =
        promote_or_update page_key page >> lift (construct_members page.2) >>= λ dtos.
        pure (dtos, page.3)

    unfoldable pub fetch_paginated_resources : String → Dtype → Action W (List (Option D) × String)
    unfolding primitive_pagination_get_from_cache serve_page
    fetch_paginated_resources page_key element_dtype =
        primitive_pagination_get_from_cache page_key element_dtype >>= serve_page page_key
