-- ===== src/Pipeline/DeadLetter.antt =====
-- What becomes of a batch that is to be moved to the dead letter stream by an encoder that refuses
-- bytes.
use tenjin.Common.{ℕ, zero, suc, ◌<◌, ◌≡◌, refl, String, List, ◌∷◌, none, some, arith}
use tenjin.Common.Action.{Action, err, type_error}
use tenjin.Events.{StreamedEvent}
use tenjin.Events.Values.{Orjson, RefusesBytes}
use tenjin.Events.Names.{StreamName}
use tenjin.Events.Encoding.{streamed_event_repr_raises}
use tenjin.Retry.{
  Loop, RetryPolicy, execute_with_redis_retries, redis_rounds, handle_redis, effective_attempts,
}
use tenjin.Pipeline.{Broker, amortize_event, amortize_commands}
use tenjin.Pipeline.Settle.{discard, declare_dead_with_retries}

module _ {W A : Type 0} (loop : Loop W) (policy : RetryPolicy) (coro : Action W A) where
  first_raises :
      (rounds : ℕ) (w : W)
      → 0 < rounds
      → coro w ≡ (err type_error, w)
      → redis_rounds loop policy coro rounds 1 none w ≡ (err type_error, w)
  unfolding redis_rounds handle_redis
  first_raises zero w pos raised = absurd (omega arith)
  first_raises (suc rounds) w pos raised = rw raised refl

module _ {W : Type 0} (orjson : Orjson) (refuses : RefusesBytes orjson) (broker : Broker W)
    (loop : Loop W) (policy : RetryPolicy) (stream_name : StreamName) (group_name : String)
    (dlq_stream_name : StreamName) where
  amortize_raises :
      (e : StreamedEvent) (es : List StreamedEvent) (w : W)
      → amortize_event orjson stream_name group_name broker dlq_stream_name (e ∷ es) w
        ≡ (err type_error, w)
  unfolding amortize_event amortize_commands
  amortize_raises e es w = rw (streamed_event_repr_raises orjson refuses e) refl

  -- With an encoder that refuses bytes, declaring a batch dead that has an event raises TypeError
  -- without a call of Redis: the batch is neither acknowledged nor moved.
  pub declare_dead_raises :
      (e : StreamedEvent) (es : List StreamedEvent) (attempts : ℕ) (w : W)
      → 0 < effective_attempts policy (some attempts)
      → declare_dead_with_retries orjson broker loop policy stream_name group_name dlq_stream_name
          (e ∷ es)
          attempts
          w
        ≡ (err type_error, w)
  unfolding declare_dead_with_retries execute_with_redis_retries discard
  declare_dead_raises e es attempts w pos =
      rw
        (first_raises loop policy
          (amortize_event orjson stream_name group_name broker dlq_stream_name (e ∷ es))
          (effective_attempts policy (some attempts)) w pos (amortize_raises e es w))
        refl
