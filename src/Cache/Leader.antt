-- ===== src/Cache/Leader.antt =====
-- The calls of the cache by which a resource is read and stored do not ask the database.
use tenjin.Common.{
  ℕ, ◌+◌, ◌≤◌, Bool, true, false, Bool-cases, inl, inr, Option, none, some, String, List, [], ◌∷◌,
  map, arith,
}
use tenjin.Common.Int.{ℤ, pos, ◌+ℤ◌, minℤ}
use tenjin.Common.Action.{Action, Result, ok, err, lift, pure, finally, continue, ◌>>=◌}
use tenjin.Events.Values.{Fields, Orjson}
use tenjin.Pipeline.{Command, hset, expire, set_ex}
use tenjin.Cache.{
  CacheConfig, negative_mapping, CacheClient, Dtype, mapping, string, materialize, has_field,
  primitive_get_from_cache, check_negative_entry, promote, after_get, set_negative, store_result,
}

-- An action raises the count by at most `n`, also where it raises an exception.
abbrev pub AtMost : {W A : Type 0} → (W → ℕ) → ℕ → Action W A → Type 0
AtMost {W = W} calls n m = (w : W) → calls (m w).1 ≤ calls w + n

module _ {W : Type 0} (calls : W → ℕ) where
  bind_from :
      {A B : Type 0} (m : Action W A) (f : A → Action W B) (n b : ℕ) (o : Result A × W)
      → calls o.1 ≤ b
      → ((a : A) → AtMost calls n (f a))
      → calls (continue m f o).1 ≤ b + n
  unfolding continue
  bind_from m f n b (ok a, v) h k = omega (arith, h, k a v)
  bind_from m f n b (err e, v) h k = omega (arith, h)

  pub bind-AtMost :
      {A B : Type 0} (m : Action W A) (f : A → Action W B) (n : ℕ)
      → AtMost calls 0 m
      → ((a : A) → AtMost calls n (f a))
      → AtMost calls n (m >>= f)
  unfolding continue
  bind-AtMost m f n h k w = bind_from m f n (calls w) (m w) (omega (arith, h w)) k

  pub ask-AtMost :
      {A B : Type 0} (m : Action W A) (f : A → Action W B)
      → AtMost calls 1 m
      → ((a : A) → AtMost calls 0 (f a))
      → AtMost calls 1 (m >>= f)
  unfolding continue
  ask-AtMost m f h k w = omega (arith, bind_from m f 0 (calls w + 1) (m w) (h w) k)

  pub stays : {A : Type 0} (r : Result A) → AtMost calls 0 (lift r)
  stays r w = omega arith

  module _ {A : Type 0} (b : ℕ) where
    cleaned :
        (r : Result A) (c : Result (Unit {0}) × W)
        → calls c.1 ≤ b
        → calls (elim c.0 as (λ _. Result A × W) [ ok u ↦ (r, c.1) | err e ↦ (err e, c.1) ]).1 ≤ b
    cleaned r (ok u, v) p = p
    cleaned r (err e, v) p = p

  pub finally-AtMost :
      {A : Type 0} (body : Action W A) (cleanup : Action W (Unit {0})) (n : ℕ)
      → AtMost calls n body
      → AtMost calls 0 cleanup
      → AtMost calls n (finally body cleanup)
  finally-AtMost body cleanup n h k w =
      cleaned (calls w + n) (body w).0 (cleanup (body w).1) (omega (arith, h w, k (body w).1))

-- No call of the cache asks the database.
pub record IsQuiet {W : Type 0} (client : CacheClient W) (calls : W → ℕ) : Type 0 where
  pub read_entry :
      (t : Dtype) (k : String) (ms : List String) → AtMost calls 0 (client.read_entry t k ms)
  pub execute : (t : Bool) (cs : List Command) → AtMost calls 0 (client.execute t cs)
  pub expire_in : (k : String) (n : ℤ) → AtMost calls 0 (client.expire_in k n)
  pub set_lock : (k : String) → AtMost calls 0 (client.set_lock k)
  pub get : (k : String) → AtMost calls 0 (client.get k)
  pub delete : (k : String) → AtMost calls 0 (client.delete k)
  pub sleep : AtMost calls 0 client.sleep

module _ {W D : Type 0} (config : CacheConfig) (client : CacheClient W) (orjson : Orjson)
    (int_of_text : String → Result ℤ) (counter_fields : List (String × String))
    (construct_from_cache : Fields → Result D) (cache_repr : D → Fields) (calls : W → ℕ)
    (quiet : IsQuiet client calls) where
  abbrev pub get_it : String → Dtype → Action W (Option (Fields × ℤ))
  get_it =
      primitive_get_from_cache config client orjson int_of_text counter_fields construct_from_cache
        cache_repr

  pub get_it-AtMost : (key : String) (t : Dtype) → AtMost calls 0 (get_it key t)
  unfolding primitive_get_from_cache
  get_it-AtMost key t =
      bind-AtMost calls (client.read_entry t key (map (λ f. f.1) counter_fields))
        (λ answers. lift (materialize int_of_text orjson (map (λ f. f.0) counter_fields) answers)) 0
        (quiet.read_entry t key (map (λ f. f.1) counter_fields))
        (λ answers.
          stays calls (materialize int_of_text orjson (map (λ f. f.0) counter_fields) answers))

  abbrev check_it : String → Fields → Dtype → Action W Bool
  check_it =
      check_negative_entry config client orjson int_of_text counter_fields construct_from_cache
        cache_repr

  check_it-AtMost : (key : String) (d : Fields) (t : Dtype) → AtMost calls 0 (check_it key d t)
  unfolding check_negative_entry
  check_it-AtMost key d string = stays calls (ok false)
  check_it-AtMost key d mapping = elim (Bool-cases (has_field config.nf_sentinel_key d)) [
    | inl h ↦ rw h (
        bind-AtMost calls
          (client.execute true
            (hset key (negative_mapping config) ∷ expire key config.ttl_ephemeral ∷ []))
          (λ _. pure true) 0
          (quiet.execute true
            (hset key (negative_mapping config) ∷ expire key config.ttl_ephemeral ∷ []))
          (λ _. stays calls (ok true)))
    | inr h ↦ rw h (stays calls (ok false))
  ]

  abbrev promote_it : String → Fields × ℤ → Bool → Action W (Option Fields)
  promote_it =
      promote config client orjson int_of_text counter_fields construct_from_cache cache_repr

  promote_it-AtMost :
      (key : String) (found : Fields × ℤ) (b : Bool) → AtMost calls 0 (promote_it key found b)
  unfolding promote
  promote_it-AtMost key (d, ttl) true = stays calls (ok (some (negative_mapping config)))
  promote_it-AtMost key (d, ttl) false =
      bind-AtMost calls
        (client.expire_in key (minℤ (pos config.ttl_cap) (pos config.ttl_promotion +ℤ ttl)))
        (λ _. pure (some d)) 0
        (quiet.expire_in key (minℤ (pos config.ttl_cap) (pos config.ttl_promotion +ℤ ttl)))
        (λ _. stays calls (ok (some d)))

  abbrev pub after_it : String → Dtype → Option (Fields × ℤ) → Action W (Option Fields)
  after_it =
      after_get config client orjson int_of_text counter_fields construct_from_cache cache_repr

  pub after_it-AtMost :
      (key : String) (t : Dtype) (o : Option (Fields × ℤ)) → AtMost calls 0 (after_it key t o)
  unfolding after_get
  after_it-AtMost key t none = stays calls {A = Option Fields} (ok none)
  after_it-AtMost key t (some found) =
      bind-AtMost calls (check_it key found.0 t) (promote_it key found) 0
        (check_it-AtMost key found.0 t) (promote_it-AtMost key found)

  negative-AtMost :
      (key : String) (t : Dtype)
      → AtMost calls 0 (
          set_negative config client orjson int_of_text counter_fields construct_from_cache
            cache_repr key t)
  unfolding set_negative
  negative-AtMost key mapping =
      quiet.execute false
        (hset key (negative_mapping config) ∷ expire key config.ttl_ephemeral ∷ [])
  negative-AtMost key string =
      quiet.execute true (set_ex key config.nf_sentinel_key config.ttl_ephemeral ∷ [])

  pub store-AtMost :
      (key : String) (t : Dtype) (o : Option D)
      → AtMost calls 0 (
          store_result config client orjson int_of_text counter_fields construct_from_cache
            cache_repr key t o)
  unfolding store_result
  store-AtMost key t none =
      bind-AtMost calls
        (set_negative config client orjson int_of_text counter_fields construct_from_cache
          cache_repr key t)
        (λ _. pure none) 0 (negative-AtMost key t) (λ _. stays calls {A = Option D} (ok none))
  store-AtMost key t (some dto) =
      bind-AtMost calls
        (client.execute false (hset key (cache_repr dto) ∷ expire key config.ttl_strong ∷ []))
        (λ _. pure (some dto)) 0
        (quiet.execute false (hset key (cache_repr dto) ∷ expire key config.ttl_strong ∷ []))
        (λ _. stays calls (ok (some dto)))
