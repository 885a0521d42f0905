-- ===== src/Cache/Tests.antt =====
-- Tests of the reads through the cache.
use tenjin.Common.{
  List, ℕ, suc, ◌+◌, ◌≤◌, ◌≡◌, refl, true, Option, none, some, String, [], ◌∷◌, arith,
}
use tenjin.Common.Int.{ℤ, pos}
use tenjin.Common.Result.{Result, ok, err}
use tenjin.Common.Action.{Action}
use tenjin.Events.Samples.{encoder}
use tenjin.Events.Values.{Fields, str, end, field}
use tenjin.Cache.{CacheConfig, CacheClient, CacheEntry, hash, mapping, distributed_get_or_load}
use tenjin.Common.Int.{negsuc}
use tenjin.Events.Values.{int}
use tenjin.Cache.{add_counters}
use tenjin.Cache.Pages.{
  MemberReply, collect_members, member_results, is_negative, is_absent, entry_fields,
}
use tenjin.Cache.Leader.{IsQuiet}
use tenjin.Cache.Once.{distributed_get_or_load_asks_once}
use tenjin.Common.{false, ◌≢◌}
use tenjin.Common.Action.{duplicate_request}
use tenjin.Events.Names.{resource_deletion_pending_flag}
use tenjin.Cache.Guard.{IntentClient, encoded, vote, guard_action}
use tenjin.Cache.GuardLaws.{AnswersBytes, guard_action_never_returns, guard_action_refuses}

abbrev config : CacheConfig
config = record {
  ttl_cap = 100;
  ttl_promotion = 10;
  ttl_strong = 50;
  ttl_ephemeral = 5;
  fetch_max_retries = 3;
  fetch_waiting_max_intervals = 4;
  nf_sentinel_key = "__NF__";
  nf_sentinel_value = "1";
}

-- a cache that is empty and gives every lock; its world counts how often the database was asked
abbrev client : CacheClient ℕ
client = record {
  read_entry = λ t k ms w. (ok (CacheEntry.missing, pos 0, []), w);
  execute = λ t cs w. (ok tt, w);
  expire_in = λ k n w. (ok tt, w);
  set_lock = λ k w. (ok true, w);
  get = λ k w. (ok none, w);
  delete = λ k w. (ok tt, w);
  sleep = λ w. (ok tt, w);
}

client-IsQuiet : IsQuiet client (λ w. w)
client-IsQuiet = record {
  read_entry = λ t k ms w. omega arith;
  execute = λ t cs w. omega arith;
  expire_in = λ k n w. omega arith;
  set_lock = λ k w. omega arith;
  get = λ k w. omega arith;
  delete = λ k w. omega arith;
  sleep = λ w. omega arith;
}

abbrev fallback : Action ℕ (Option ℕ)
fallback w = (ok (some 7), suc w)

abbrev parse : String → Result ℤ
parse s = ok (pos 1)

abbrev construct : Fields → Result ℕ
construct d = ok 7

abbrev repr : ℕ → Fields
repr n = field "score" (str "1") end

distributed_get_or_load_asks_once_example :
    (distributed_get_or_load config client encoder parse [] construct repr "posts:7" fallback
      mapping 0).1
    ≤ 0 + 1
distributed_get_or_load_asks_once_example =
    distributed_get_or_load_asks_once config client encoder parse [] construct repr (λ w. w)
      client-IsQuiet "posts:7" fallback mapping (λ w. omega arith) 0

-- the page's members: one that is there, and one that is not
abbrev replies : List MemberReply
replies =
    (hash (field "id" (int (pos 3)) end), pos 9, some "2" ∷ [])
    ∷ (CacheEntry.missing, negsuc 1, none ∷ [])
    ∷ []

collected : collect_members config encoder parse [] replies ≡ ok ((none, negsuc 1) ∷ [])
unfolding collect_members member_results is_negative is_absent entry_fields add_counters
collected = refl

-- a client that answers in bytes, and has every lock given to another request
abbrev byte_client : IntentClient ℕ
byte_client = record {
  lock_and_get = λ l i w. (ok (true, some (encoded "FLAG:C:a")), suc w);
  get_both = λ l i w. (ok (none, none), suc w);
  delete = λ l w. (ok tt, suc w);
  set_ex = λ k v n w. (ok tt, suc w);
}

byte_client-AnswersBytes : AnswersBytes byte_client
byte_client-AnswersBytes = record { in_bytes = λ lock intent s b w v h. cc }

abbrev counted : Option String → Action ℕ ℕ
counted latest w = (ok 7, suc w)

guard_action_never_returns_example :
    guard_action byte_client
      (some resource_deletion_pending_flag)
      counted
      (pos 2)
      "5"
      "posts"
      vote
      0
    ≢ (ok 7, 3)
guard_action_never_returns_example =
    guard_action_never_returns byte_client byte_client-AnswersBytes
      (some resource_deletion_pending_flag) counted (pos 2) "5" "posts" vote 0 3 7

abbrev busy_client : IntentClient ℕ
busy_client = record {
  lock_and_get = λ l i w. (ok (false, none), suc w);
  get_both = λ l i w. (ok (none, none), suc w);
  delete = λ l w. (ok tt, suc w);
  set_ex = λ k v n w. (ok tt, suc w);
}

guard_action_refuses_example :
    guard_action busy_client
      (some resource_deletion_pending_flag)
      counted
      (pos 2)
      "5"
      "posts"
      vote
      0
    ≡ (err duplicate_request, 2)
guard_action_refuses_example =
    guard_action_refuses busy_client (some resource_deletion_pending_flag) counted (pos 2) "5"
      "posts" vote 0 1 2 none refl refl
