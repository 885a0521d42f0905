-- ===== src/Cache.antt =====
-- resource_server/cache_manager.py: reading a resource through the cache, with one leader that asks
-- the database.
pub mod Leader
pub mod Once
pub mod Pages
pub mod PageLaws
pub mod Guard
pub mod GuardLaws
pub mod GuardKeeps
mod Tests
use text.Mathlib.Text.{◌==◌ as str_eq}
use tenjin.Common.{
  ℕ, zero, suc, Bool, true, false, if◌then◌else◌, Option, none, some, String, ◌<>◌, List, [], ◌∷◌,
  map,
}
use tenjin.Common.Int.{ℤ, pos, ◌+ℤ◌, minℤ}
use tenjin.Common.Result.{or_raise}
use tenjin.Common.Action.{
  Action, Error, Result, ok, err, key_error, type_error, value_error, cache_coherence, raise, lift,
  pure, done, finally, ◌>>=◌, ◌>>◌,
}
use tenjin.Events.Values.{Value, Fields, Orjson, get_field, int, str, object, end, field}
use tenjin.Events.Names.{join_names}
use tenjin.Pipeline.{Command, hset, expire, set_ex}

-- The settings of CacheConfig that are read here.
pub record CacheConfig : Type 0 where
  pub ttl_cap : ℕ
  pub ttl_promotion : ℕ
  pub ttl_strong : ℕ
  pub ttl_ephemeral : ℕ
  pub fetch_max_retries : ℕ
  pub fetch_waiting_max_intervals : ℕ
  pub nf_sentinel_key : String
  pub nf_sentinel_value : String

-- `NF_MAPPING`
abbrev pub negative_mapping : CacheConfig → Fields
negative_mapping config = field config.nf_sentinel_key (str config.nf_sentinel_value) end

pub data Dtype : Type 0 where
  mapping string : Dtype

-- What HGETALL or GET answers.
-- The names and values that HGETALL gives are bytes from a client without `decode_responses`: such
-- a name is held as Python prints it, `b'…'`, and so equals the name of no field.
pub data CacheEntry : Type 0 where
  hash : Fields → CacheEntry
  plain : String → CacheEntry
  missing : CacheEntry

-- The calls of the client. `read_entry` is the pipeline of `_primitive_get_from_cache`: the entry,
-- its TTL, and the counters in the hashmaps that are named.
pub record CacheClient (W : Type 0) : Type 0 where
  pub read_entry : Dtype → String → List String → Action W (CacheEntry × ℤ × List (Option String))
  pub execute : Bool → List Command → Action W (Unit {0})
  pub expire_in : String → ℤ → Action W (Unit {0})
  -- `set(name, time.time(), px=TTL_FETCH_LOCK, nx=True)`
  pub set_lock : String → Action W Bool
  pub get : String → Action W (Option String)
  pub delete : String → Action W (Unit {0})
  -- `asyncio.sleep` of a random interval
  pub sleep : Action W (Unit {0})

-- `d[k] = v` for a key that `d` has
unfoldable pub set_field : String → Value → Fields → Fields
set_field k v end = end
set_field k v (field j x d) = if str_eq j k then field j v d else field j x (set_field k v d)

unfoldable pub derive_lock_key : List String → String
unfolding join_names
derive_lock_key names = join_names ("lock" ∷ names)

-- `key in d`
unfoldable pub has_field : String → Fields → Bool
has_field key d = elim (get_field key d) [ none ↦ false | some v ↦ true ]

module _ (int_of_text : String → Result ℤ) where
  -- `int(counter or 0)`
  unfoldable pub counter_value : Option String → Result ℤ
  counter_value none = ok (pos 0)
  counter_value (some s) = if str_eq s "" then ok (pos 0) else int_of_text s

  -- `value + count`: a text and a number cannot be added
  unfoldable pub plus_count : Value → ℤ → Result Value
  plus_count (int n) count = ok (int (n +ℤ count))
  plus_count _ count = err type_error

  unfoldable pub add_counter : Fields → String → Option String → Result Fields
  unfolding counter_value plus_count set_field
  add_counter entry name counter =
      tenjin.Common.Result.◌>>=◌ (or_raise (get_field name entry) key_error) λ v.
        tenjin.Common.Result.◌>>=◌ (counter_value counter) λ count.
          tenjin.Common.Result.◌>>=◌ (plus_count v count) λ sum. ok (set_field name sum entry)

  -- the loop over the fields that have counters; the pipeline answers once for each
  unfoldable pub add_counters : Fields → List String → List (Option String) → Result Fields
  unfolding add_counter
  add_counters entry [] counters = ok entry
  add_counters entry (name ∷ names) [] = err tenjin.Common.Result.index_error
  add_counters entry (name ∷ names) (counter ∷ counters) =
      tenjin.Common.Result.◌>>=◌ (add_counter entry name counter)
        λ entry'. add_counters entry' names counters

  -- Cached texts hold a dict, as `cache_grouped_resource` writes them.
  unfoldable pub materialize :
      Orjson → List String → CacheEntry × ℤ × List (Option String) → Result (Option (Fields × ℤ))
  unfolding add_counters
  materialize orjson names (missing, ttl, counters) = ok none
  materialize orjson names (hash end, ttl, counters) = ok none
  materialize orjson names (hash (field k v d), ttl, counters) =
      tenjin.Common.Result.◌>>=◌ (add_counters (field k v d) names counters)
        λ entry. ok (some (entry, ttl))
  materialize orjson names (plain s, ttl, counters) =
      if str_eq s ""
      then ok none
      else tenjin.Common.Result.◌>>=◌ (or_raise (orjson.loads s) value_error) λ v.
        tenjin.Common.Result.◌>>=◌
          (elim v as (λ _. Result Fields) [ object d ↦ ok d | _ ↦ err type_error ])
          λ d.
            tenjin.Common.Result.◌>>=◌ (add_counters d names counters)
              λ entry. ok (some (entry, ttl))

-- `counter_fields` are an argument here as in the source, pairs of a field and the hashmap of its
-- counters; the `counter_fields_map` that the resources give is empty. A DTO is constructed from
-- an entry, and encoded by `cache_repr`, by code of its own.
module _ {W D : Type 0} (config : CacheConfig) (client : CacheClient W) (orjson : Orjson)
    (int_of_text : String → Result ℤ) (counter_fields : List (String × String))
    (construct_from_cache : Fields → Result D) (cache_repr : D → Fields) where
  unfoldable pub primitive_get_from_cache : String → Dtype → Action W (Option (Fields × ℤ))
  unfolding materialize
  primitive_get_from_cache cache_key dtype =
      client.read_entry dtype cache_key (map (λ f. f.1) counter_fields) >>= λ answers.
      lift (materialize int_of_text orjson (map (λ f. f.0) counter_fields) answers)

  -- An entry is a dict here, so it never equals the sentinel of a text.
  unfoldable pub check_negative_entry : String → Fields → Dtype → Action W Bool
  unfolding has_field
  check_negative_entry cache_key cache_entry mapping =
      if has_field config.nf_sentinel_key cache_entry
      then client.execute true
          (hset cache_key (negative_mapping config) ∷ expire cache_key config.ttl_ephemeral ∷ [])
        >> pure true
      else pure false
  check_negative_entry cache_key cache_entry string = pure false

  unfoldable pub promote : String → Fields × ℤ → Bool → Action W (Option Fields)
  promote cache_key (cache_entry, ttl) true = pure (some (negative_mapping config))
  promote cache_key (cache_entry, ttl) false =
      client.expire_in cache_key (minℤ (pos config.ttl_cap) (pos config.ttl_promotion +ℤ ttl))
      >> pure (some cache_entry)

  unfoldable pub after_get : String → Dtype → Option (Fields × ℤ) → Action W (Option Fields)
  unfolding check_negative_entry promote
  after_get cache_key dtype none = pure none
  after_get cache_key dtype (some found) =
      check_negative_entry cache_key found.0 dtype >>= promote cache_key found

  unfoldable pub fetch_from_cache : String → Dtype → Action W (Option Fields)
  unfolding primitive_get_from_cache after_get
  fetch_from_cache cache_key dtype =
      primitive_get_from_cache cache_key dtype >>= after_get cache_key dtype

  unfoldable pub set_negative : String → Dtype → Action W (Unit {0})
  set_negative key mapping =
      client.execute false
        (hset key (negative_mapping config) ∷ expire key config.ttl_ephemeral ∷ [])
  set_negative key string =
      client.execute true (set_ex key config.nf_sentinel_key config.ttl_ephemeral ∷ [])

  unfoldable pub store_result : String → Dtype → Option D → Action W (Option D)
  unfolding set_negative
  store_result key dtype none = set_negative key dtype >> pure none
  store_result key dtype (some dto) =
      client.execute false (hset key (cache_repr dto) ∷ expire key config.ttl_strong ∷ [])
      >> pure (some dto)

  module _ (key : String) (fallback_coroutine : Action W (Option D)) (fetch_dtype : Dtype) where
    -- the leader asks the database, under `finally`
    unfoldable pub lead : Action W (Option D)
    unfolding store_result
    lead =
        finally (fallback_coroutine >>= store_result key fetch_dtype)
          (client.delete (derive_lock_key (key ∷ [])))

    -- a follower's answer; `none` goes on with the next attempt to lead. The sentinel is looked for
    -- in the pair of the entry and its TTL, where it never is.
    unfoldable pub follow_found : Option (Fields × ℤ) → Action W (Option (Option D))
    follow_found none = pure none
    follow_found (some (cache_entry, ttl)) =
        lift (construct_from_cache cache_entry) >>= λ dto. pure (some (some dto))

    unfoldable pub wait_or_read :
        Action W (Option (Option D)) → Option String → Action W (Option (Option D))
    unfolding primitive_get_from_cache follow_found
    wait_or_read again (some lock) = client.sleep >> again
    wait_or_read again none = primitive_get_from_cache key fetch_dtype >>= follow_found

    unfoldable pub follow : ℕ → Action W (Option (Option D))
    unfolding wait_or_read
    follow zero = pure none
    follow (suc intervals) =
        client.get (derive_lock_key (key ∷ [])) >>= wait_or_read (follow intervals)

    unfoldable pub or_again : Action W (Option D) → Option (Option D) → Action W (Option D)
    or_again again none = again
    or_again again (some answer) = pure answer

    unfoldable pub lead_or_follow : Action W (Option D) → Bool → Action W (Option D)
    unfolding lead follow or_again
    lead_or_follow again true = lead
    lead_or_follow again false = follow config.fetch_waiting_max_intervals >>= or_again again

    -- the attempts that are left
    unfoldable pub elect : ℕ → Action W (Option D)
    unfolding lead_or_follow
    elect zero = raise cache_coherence
    elect (suc attempts) =
        client.set_lock (derive_lock_key (key ∷ [])) >>= lead_or_follow (elect attempts)

    unfoldable pub hit_or_elect : Option Fields → Action W (Option D)
    unfolding elect has_field
    hit_or_elect none = elect config.fetch_max_retries
    hit_or_elect (some end) = elect config.fetch_max_retries
    hit_or_elect (some (field k v d)) =
        if has_field config.nf_sentinel_key (field k v d)
        then pure none
        else lift (construct_from_cache (field k v d)) >>= λ dto. pure (some dto)

    unfoldable pub distributed_get_or_load : Action W (Option D)
    unfolding fetch_from_cache hit_or_elect
    distributed_get_or_load = fetch_from_cache key fetch_dtype >>= hit_or_elect
