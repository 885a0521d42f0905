-- ===== src/Pipeline/Collect.antt =====
-- What is collected from the commands of a transaction: the cache invalidations add nothing to
-- what other commands give.
use tenjin.Common.{◌≡◌, refl, Bool, true, false, String, List, [], ◌∷◌, ◌++◌, Option, none, some}
use tenjin.Common.Lists.{flat, flat-append}
use tenjin.Common.Action.{Result, ok, err}
use tenjin.Common.Int.{ℤ}
use tenjin.Common.Result
use tenjin.Common.Result.{or_raise, type_error}
use tenjin.Events.{
  CacheUpdate, CacheOperation, ResourceType, invalidate, mark_missing, mapping, string,
}
use tenjin.Events.Values.{Orjson, object}
use tenjin.Pipeline.{
  Command, delete, hset, expire, set_ex, emit_cache_invalidation_side_effects, cache_invalidations,
  cache_invalidation, nf_mapping,
}

-- the commands on cache entries
abbrev pub is_cache_command : Command → Bool
is_cache_command (delete key) = true
is_cache_command (hset key d) = true
is_cache_command (expire key n) = true
is_cache_command (set_ex key s n) = true
is_cache_command _ = false

module _ {A : Type 0} (f : Command → List A) where
  -- the commands that a call gives, if it returns, give `xs`
  abbrev pub Gives : List A → Result (List Command) → Type 0
  Gives xs (ok cs) = flat f cs ≡ xs
  Gives xs (err e) = Unit

  Gives-bind :
      (xs ys : List A) (m n : Result (List Command))
      → Gives xs m
      → Gives ys n
      → Gives (xs ++ ys) (Result.◌>>=◌ m λ cs. Result.◌>>=◌ n λ ds. ok (cs ++ ds))
  Gives-bind xs ys (ok cs) (ok ds) p q = rw (flat-append, p, q)
  Gives-bind xs ys (ok cs) (err e) p q = tt
  Gives-bind xs ys (err e) n p q = tt

  module _ (silent : (c : Command) → is_cache_command c ≡ true → f c ≡ []) (orjson : Orjson) where
    dumped :
        (key : String) (o : Option String)
        → Gives [] (Result.◌>>=◌ (or_raise o type_error) λ b. ok (set_ex key b 60 ∷ []))
    dumped key none = tt
    dumped key (some b) = rw (silent (set_ex key b 60) refl) refl

    cache_invalidation-Gives :
        (op : CacheOperation) (r : ResourceType) (key : String)
        → Gives [] (cache_invalidation orjson op r key)
    unfolding cache_invalidation
    cache_invalidation-Gives invalidate r key = rw (silent (delete key) refl) refl
    cache_invalidation-Gives mark_missing mapping key =
        rw (silent (hset key nf_mapping) refl, silent (expire key 60) refl) refl
    cache_invalidation-Gives mark_missing string key = dumped key (orjson.dumps (object nf_mapping))

    cache_invalidations-Gives : (us : List CacheUpdate) → Gives [] (cache_invalidations orjson us)
    unfolding cache_invalidations
    cache_invalidations-Gives [] = refl
    cache_invalidations-Gives (u ∷ us) =
        Gives-bind [] [] (cache_invalidation orjson u.operation u.resource_type u.cache_key)
          (cache_invalidations orjson us)
          (cache_invalidation-Gives u.operation u.resource_type u.cache_key)
          (cache_invalidations-Gives us)

    pub caches-Gives :
        (uss : List (List CacheUpdate)) → Gives [] (emit_cache_invalidation_side_effects orjson uss)
    unfolding emit_cache_invalidation_side_effects
    caches-Gives [] = refl
    caches-Gives (us ∷ uss) =
        Gives-bind [] [] (cache_invalidations orjson us)
          (emit_cache_invalidation_side_effects orjson uss) (cache_invalidations-Gives us)
          (caches-Gives uss)

-- One HINCRBY, as its hashmap, field and amount.
abbrev pub Increment : Type 0
Increment = String × String × ℤ

abbrev pub increment_of : Command → List Increment
increment_of (Command.hincrby name field delta) = (name, field, delta) ∷ []
increment_of _ = []

abbrev pub increments : List Command → List Increment
increments = flat increment_of

pub increment_of-cache : (c : Command) → is_cache_command c ≡ true → increment_of c ≡ []
increment_of-cache (Command.xack s g e) h = refl
increment_of-cache (Command.xadd s f i) h = refl
increment_of-cache (Command.conditional_delete k v) h = refl
increment_of-cache (Command.hincrby k i n) h = cc
increment_of-cache (Command.delete k) h = refl
increment_of-cache (Command.hset k d) h = refl
increment_of-cache (Command.expire k n) h = refl
increment_of-cache (Command.set_ex k v n) h = refl
