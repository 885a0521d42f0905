-- ===== src/Cache/Once.antt =====
-- How often the database is asked for one resource.
use tenjin.Common.{
  ℕ, zero, suc, ◌+◌, ◌≤◌, Bool, true, false, Bool-cases, inl, inr, Option, none, some, String, List,
  [], ◌∷◌, arith,
}
use tenjin.Common.Int.{ℤ}
use tenjin.Common.Action.{Action, Result, ok, lift, pure, ◌>>=◌}
use tenjin.Events.Values.{Fields, Orjson, end, field}
use tenjin.Cache.{
  CacheConfig, CacheClient, Dtype, derive_lock_key, has_field, fetch_from_cache, store_result, lead,
  follow_found, wait_or_read, follow, or_again, lead_or_follow, elect, hit_or_elect,
  distributed_get_or_load,
}
use tenjin.Cache.Leader.{
  AtMost, IsQuiet, bind-AtMost, ask-AtMost, stays, finally-AtMost, get_it, get_it-AtMost, after_it,
  after_it-AtMost, store-AtMost,
}

module _ {W D : Type 0} (config : CacheConfig) (client : CacheClient W) (orjson : Orjson)
    (int_of_text : String → Result ℤ) (counter_fields : List (String × String))
    (construct_from_cache : Fields → Result D) (cache_repr : D → Fields) (calls : W → ℕ)
    (quiet : IsQuiet client calls) (key : String) (fallback_coroutine : Action W (Option D))
    (fetch_dtype : Dtype) (asks : AtMost calls 1 fallback_coroutine) where
  answer-AtMost :
      (d : Fields) → AtMost calls 0 (lift (construct_from_cache d) >>= λ dto. pure (some dto))
  answer-AtMost d =
      bind-AtMost calls (lift (construct_from_cache d)) (λ dto. pure (some dto)) 0
        (stays calls (construct_from_cache d)) (λ dto. stays calls (ok (some dto)))

  lead-AtMost : AtMost calls 1 (
      lead config client orjson int_of_text counter_fields construct_from_cache cache_repr key
        fallback_coroutine fetch_dtype)
  unfolding lead
  lead-AtMost =
      finally-AtMost calls
        (fallback_coroutine
          >>= store_result config client orjson int_of_text counter_fields construct_from_cache
              cache_repr key fetch_dtype)
        (client.delete (derive_lock_key (key ∷ []))) 1
        (ask-AtMost calls fallback_coroutine
          (store_result config client orjson int_of_text counter_fields construct_from_cache
            cache_repr key fetch_dtype)
          asks
          (store-AtMost config client orjson int_of_text counter_fields construct_from_cache
            cache_repr calls quiet key fetch_dtype))
        (quiet.delete (derive_lock_key (key ∷ [])))

  abbrev found_it : Option (Fields × ℤ) → Action W (Option (Option D))
  found_it =
      follow_found config client orjson int_of_text counter_fields construct_from_cache cache_repr
        key fallback_coroutine fetch_dtype

  found_it-AtMost : (o : Option (Fields × ℤ)) → AtMost calls 0 (found_it o)
  unfolding follow_found
  found_it-AtMost none = stays calls {A = Option (Option D)} (ok none)
  found_it-AtMost (some (d, ttl)) =
      bind-AtMost calls (lift (construct_from_cache d)) (λ dto. pure (some (some dto))) 0
        (stays calls (construct_from_cache d)) (λ dto. stays calls (ok (some (some dto))))

  abbrev wait_it : Action W (Option (Option D)) → Option String → Action W (Option (Option D))
  wait_it =
      wait_or_read config client orjson int_of_text counter_fields construct_from_cache cache_repr
        key fallback_coroutine fetch_dtype

  wait_it-AtMost :
      (again : Action W (Option (Option D))) (lock : Option String)
      → AtMost calls 0 again
      → AtMost calls 0 (wait_it again lock)
  unfolding wait_or_read
  wait_it-AtMost again (some lock) h =
      bind-AtMost calls client.sleep (λ _. again) 0 quiet.sleep (λ _. h)
  wait_it-AtMost again none h =
      bind-AtMost calls
        (get_it config client orjson int_of_text counter_fields construct_from_cache cache_repr
          calls quiet key fetch_dtype)
        found_it 0
        (get_it-AtMost config client orjson int_of_text counter_fields construct_from_cache
          cache_repr calls quiet key fetch_dtype)
        found_it-AtMost

  abbrev follow_it : ℕ → Action W (Option (Option D))
  follow_it =
      follow config client orjson int_of_text counter_fields construct_from_cache cache_repr key
        fallback_coroutine fetch_dtype

  follow_it-AtMost : (intervals : ℕ) → AtMost calls 0 (follow_it intervals)
  unfolding follow
  follow_it-AtMost zero = stays calls {A = Option (Option D)} (ok none)
  follow_it-AtMost (suc intervals) =
      bind-AtMost calls (client.get (derive_lock_key (key ∷ []))) (wait_it (follow_it intervals)) 0
        (quiet.get (derive_lock_key (key ∷ [])))
        (λ lock. wait_it-AtMost (follow_it intervals) lock (follow_it-AtMost intervals))

  abbrev elect_it : ℕ → Action W (Option D)
  elect_it =
      elect config client orjson int_of_text counter_fields construct_from_cache cache_repr key
        fallback_coroutine fetch_dtype

  or_again-AtMost :
      (again : Action W (Option D)) (o : Option (Option D))
      → AtMost calls 1 again
      → AtMost calls 1 (
          or_again config client orjson int_of_text counter_fields construct_from_cache cache_repr
            key fallback_coroutine fetch_dtype again o)
  unfolding or_again
  or_again-AtMost again none h w = h w
  or_again-AtMost again (some answer) h w = omega arith

  turn-AtMost :
      (again : Action W (Option D)) (leader : Bool)
      → AtMost calls 1 again
      → AtMost calls 1 (
          lead_or_follow config client orjson int_of_text counter_fields construct_from_cache
            cache_repr key fallback_coroutine fetch_dtype again leader)
  unfolding lead_or_follow
  turn-AtMost again true h = lead-AtMost
  turn-AtMost again false h =
      bind-AtMost calls (follow_it config.fetch_waiting_max_intervals)
        (or_again config client orjson int_of_text counter_fields construct_from_cache cache_repr
          key fallback_coroutine fetch_dtype again)
        1 (follow_it-AtMost config.fetch_waiting_max_intervals) (λ o. or_again-AtMost again o h)

  elect_it-AtMost : (attempts : ℕ) → AtMost calls 1 (elect_it attempts)
  unfolding elect
  elect_it-AtMost zero w = omega arith
  elect_it-AtMost (suc attempts) w =
      bind-AtMost calls (client.set_lock (derive_lock_key (key ∷ [])))
        (lead_or_follow config client orjson int_of_text counter_fields construct_from_cache
          cache_repr key fallback_coroutine fetch_dtype (elect_it attempts))
        1 (quiet.set_lock (derive_lock_key (key ∷ [])))
        (λ leader. turn-AtMost (elect_it attempts) leader (elect_it-AtMost attempts)) w

  weaken : {A : Type 0} (m : Action W A) → AtMost calls 0 m → AtMost calls 1 m
  weaken m h w = omega (arith, h w)

  hit-AtMost :
      (o : Option Fields)
      → AtMost calls 1 (
          hit_or_elect config client orjson int_of_text counter_fields construct_from_cache
            cache_repr key fallback_coroutine fetch_dtype o)
  unfolding hit_or_elect
  hit-AtMost none = elect_it-AtMost config.fetch_max_retries
  hit-AtMost (some end) = elect_it-AtMost config.fetch_max_retries
  hit-AtMost (some (field k v d)) =
      elim (Bool-cases (has_field config.nf_sentinel_key (field k v d))) [
        | inl h ↦ rw h (weaken (pure {A = Option D} none) (stays calls {A = Option D} (ok none)))
        | inr h ↦ rw h (
            weaken (lift (construct_from_cache (field k v d)) >>= λ dto. pure (some dto))
              (answer-AtMost (field k v d)))
      ]

  abbrev fetch_it : Action W (Option Fields)
  fetch_it =
      fetch_from_cache config client orjson int_of_text counter_fields construct_from_cache
        cache_repr key fetch_dtype

  fetch_it-AtMost : AtMost calls 0 fetch_it
  unfolding fetch_from_cache
  fetch_it-AtMost =
      bind-AtMost calls
        (get_it config client orjson int_of_text counter_fields construct_from_cache cache_repr
          calls quiet key fetch_dtype)
        (after_it config client orjson int_of_text counter_fields construct_from_cache cache_repr
          calls quiet key fetch_dtype)
        0
        (get_it-AtMost config client orjson int_of_text counter_fields construct_from_cache
          cache_repr calls quiet key fetch_dtype)
        (after_it-AtMost config client orjson int_of_text counter_fields construct_from_cache
          cache_repr calls quiet key fetch_dtype)

  -- However often the election is repeated, a read asks the database at most once.
  pub distributed_get_or_load_asks_once :
      (w : W)
      → calls
          (distributed_get_or_load config client orjson int_of_text counter_fields
            construct_from_cache cache_repr key fallback_coroutine fetch_dtype w).1
        ≤ calls w + 1
  unfolding distributed_get_or_load
  distributed_get_or_load_asks_once =
      bind-AtMost calls fetch_it
        (hit_or_elect config client orjson int_of_text counter_fields construct_from_cache
          cache_repr key fallback_coroutine fetch_dtype)
        1 fetch_it-AtMost hit-AtMost
