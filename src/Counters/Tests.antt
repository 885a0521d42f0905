-- ===== src/Counters/Tests.antt =====
-- Tests of the counter workers, on a store that holds one counter.
use tenjin.Common.{ℕ, ◌≡◌, refl, true, none, String, [], ◌∷◌}
use tenjin.Common.Dict.{Dict}
use tenjin.Common.Action.{Result, ok, err, value_error}
use tenjin.Common.Int.{ℤ, pos, str_of_int}
use tenjin.Counters.{CounterStore}
use tenjin.Counters.Names.{generate_retry_batch_name, join_internal, split_names}
use tenjin.Counters.Flush.{batch_update_counter_group}
use tenjin.Counters.Loss.{batch_update_counter_group_loses}

-- the counters in Redis, and the calls that wrote to the database
record World : Type 0 where
  counters : Dict String
  writes : ℕ

abbrev store : CounterStore World
store = record {
  set_lock = λ k w. (ok true, w);
  delete = λ k w. (ok tt, w);
  take = λ k w. (ok w.counters, record { counters = []; writes = w.writes });
  blpop = λ w. (ok none, w);
  sleep = λ w. (ok tt, w);
  retry = λ k d w. (ok tt, w);
  reflect = λ k d w. (ok tt, w);
  begin = λ w. (ok tt, w);
  update = λ t c d w. (ok tt, record { counters = w.counters; writes = 1 });
  commit = λ w. (ok tt, w);
  rollback = λ w. (ok tt, w);
  identifier = λ w. (ok "a", w);
}

abbrev before : World
before = record { counters = ("posts:5", "3") ∷ []; writes = 0 }

abbrev after : World
after = record { counters = []; writes = 0 }

abbrev int_of : String → Result ℤ
int_of s = ok (pos 3)

batch_update_counter_group_loses_example :
    batch_update_counter_group store int_of 3 "posts:score" before ≡ (err value_error, after)
batch_update_counter_group_loses_example =
    batch_update_counter_group_loses store int_of 3 "posts:score" "sts" "5" "3" "p" "o" [] before
      before after after refl refl refl

retry_name : generate_retry_batch_name "posts:score" 2 "a" ≡ "posts:score-a-2"
unfolding generate_retry_batch_name join_internal str_of_int
retry_name = refl

names : split_names "posts:score:x" ≡ "posts" ∷ "score" ∷ "x" ∷ []
unfolding split_names
names = refl
