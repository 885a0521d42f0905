-- ===== src/Pipeline/Tests.antt =====
-- Tests of the transactions, on a broker that keeps what it applied.
use tenjin.Common.{◌<◌, ◌≡◌, refl, [], ◌∷◌, arith}
use tenjin.Common.Action.{ok, err}
use tenjin.Common.{some}
use tenjin.Common.Action.{type_error}
use tenjin.Events.Samples.{vote, encoder-RefusesBytes}
use tenjin.Pipeline.Samples.{History, broker, loop, policy, log, laws, busy, stream, dlq, flaky}
use tenjin.Pipeline.DeadLetter.{declare_dead_raises}
use tenjin.Events.Samples.{votes, encoder}
use tenjin.Retry.{execute_with_redis_retries, redis_rounds, handle_redis, effective_attempts}
use tenjin.Pipeline.{
  acknowledgements, amortize_commands, commit_commands, atomic_ack_and_emit_side_effects,
  emit_cache_invalidation_side_effects,
}
use tenjin.Pipeline.{emit_intent_invalidations, emit_counter_side_effects}
use tenjin.Pipeline.Settle.{
  declare_dead_with_retries, ack_with_retries, commit_processed_events, dlq_aware_process_events,
  or_dead_letter,
}
use tenjin.Pipeline.Commit.{Settled, commit_runs_whole, ack_runs_whole}
use tenjin.Pipeline.Acks.{Acked, acks_of_events, commit_acknowledges_batch}

commit_runs_whole_example :
    Settled log []
      (commit_commands encoder stream "workers" votes)
      (amortize_commands encoder stream "workers" dlq votes)
      (commit_processed_events encoder broker loop policy stream "workers" dlq votes flaky)
commit_runs_whole_example =
    commit_runs_whole broker loop policy log laws busy encoder stream "workers" dlq votes flaky

ack_runs_whole_example :
    Settled log []
      (ok (acknowledgements stream "workers" votes))
      (amortize_commands encoder stream "workers" dlq votes)
      (ack_with_retries encoder broker loop policy stream "workers" dlq votes 2 flaky)
ack_runs_whole_example =
    ack_runs_whole broker loop policy log laws busy encoder stream "workers" dlq votes 2 flaky

-- the history after the batch of votes has been committed, on the second attempt
abbrev after : History
after = (commit_processed_events encoder broker loop policy stream "workers" dlq votes flaky).1

committed :
    commit_processed_events encoder broker loop policy stream "workers" dlq votes flaky
    ≡ (ok tt, after)
unfolding tenjin.Retry.exponential_jittered_backoff commit_processed_events dlq_aware_process_events
    or_dead_letter execute_with_redis_retries redis_rounds handle_redis effective_attempts
    atomic_ack_and_emit_side_effects commit_commands emit_cache_invalidation_side_effects
    acknowledgements emit_intent_invalidations emit_counter_side_effects
committed = refl

commit_acknowledges_batch_example :
    Acked (acks_of_events stream "workers" votes) (log flaky) (log after)
commit_acknowledges_batch_example =
    commit_acknowledges_batch encoder stream "workers" broker loop policy log laws busy dlq votes
      flaky after committed

some_attempts : 0 < effective_attempts policy (some 2)
unfolding effective_attempts
some_attempts = omega arith

declare_dead_raises_example :
    declare_dead_with_retries encoder broker loop policy stream "workers" dlq votes 2 flaky
    ≡ (err type_error, flaky)
declare_dead_raises_example =
    declare_dead_raises encoder encoder-RefusesBytes broker loop policy stream "workers" dlq
      (vote 1) (vote 2 ∷ vote 3 ∷ []) 2 flaky some_attempts
