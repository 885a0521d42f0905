-- ===== src/Consumers/DecrementLaws.antt =====
-- What becomes of an event whose counters are to be lowered: the selection of the pages cannot be
-- formatted.
use tenjin.Common.{ℕ, zero, suc, ◌<◌, ◌≡◌, refl, ap, true, String, [], none, some, arith}
use tenjin.Common.Action.{ok, err, key_error, type_error}
use tenjin.Common.Dict.{member}
use tenjin.Events.{StreamedEvent}
use tenjin.Events.Values.{Orjson, Value, RefusesBytes}
use tenjin.Events.Names.{StreamName}
use tenjin.Retry.{Loop, RetryPolicy, effective_attempts}
use tenjin.Pipeline.{Broker}
use tenjin.Pipeline.DeadLetter.{declare_dead_raises}
use tenjin.Insertion.{Connection, format}
use tenjin.Consumers.Downstream.{DecrementData}
use tenjin.Consumers.Decrements.{
  Cursor, raised, caught, prepare_deltas_selection, select_decrement_deltas, page_loop, with_page,
  after_attempt, after_rollback, decrement_rounds, settle_decrement, decrement_if_fresh,
}

module _ {W : Type 0} (cursor : Cursor W) (broker : Broker W) (loop : Loop W) (policy : RetryPolicy)
    (limit : ℕ) (payload : DecrementData) where
  page_loop_raises :
      (fuel offset : ℕ) (w : W)
      → page_loop cursor broker loop policy limit payload (suc fuel) offset w
        ≡ (raised key_error, offset, w)
  unfolding page_loop with_page select_decrement_deltas prepare_deltas_selection format member
  page_loop_raises fuel offset w = refl

  -- the first attempt is the last
  decrement_rounds-caught :
      (conn : Connection W) (fuel rounds : ℕ) (w w' : W)
      → conn.rollback w ≡ (ok tt, w')
      → decrement_rounds cursor broker loop policy limit payload conn.rollback
          (suc fuel)
          (suc rounds)
          1
          none
          0
          w
        ≡ (caught (some key_error), 0, w')
  unfolding decrement_rounds after_attempt after_rollback page_loop with_page
      select_decrement_deltas prepare_deltas_selection format member
  decrement_rounds-caught conn fuel rounds w w' h = rw h refl

module _ {W : Type 0} (orjson : Orjson) (refuses : RefusesBytes orjson) (cursor : Cursor W)
    (conn : Connection W) (broker : Broker W) (loop : Loop W) (policy : RetryPolicy)
    (busy : 0 < policy.max_retries) (stream_name : StreamName) (group_name : String)
    (dead_letter_stream_name : StreamName) (event : StreamedEvent) where
  effective_pos : (n : ℕ) → 0 < effective_attempts policy (some n)
  unfolding effective_attempts
  effective_pos zero = busy
  effective_pos (suc n) = omega arith

  rounds_caught :
      (payload : DecrementData) (limit fuel rounds : ℕ) (w w' : W)
      → 0 < fuel
      → 0 < rounds
      → conn.rollback w ≡ (ok tt, w')
      → decrement_rounds cursor broker loop policy limit payload conn.rollback fuel rounds 1 none 0
          w
        ≡ (caught (some key_error), 0, w')
  rounds_caught payload limit zero rounds w w' f r h = absurd (omega arith)
  rounds_caught payload limit (suc fuel) zero w w' f r h = absurd (omega arith)
  rounds_caught payload limit (suc fuel) (suc rounds) w w' f r h =
      decrement_rounds-caught cursor broker loop policy limit payload conn fuel rounds w w' h

  -- With an encoder that refuses bytes, for an event that was not processed before: the consumer's
  -- round raises TypeError in the world that the rollback leaves. No counter is lowered, and the event
  -- is neither acknowledged nor moved to the dead letter stream.
  pub decrement_raises :
      (acknowledgement_time : Value) (limit fuel : ℕ) (payload : DecrementData) (w w' : W)
      → 0 < fuel
      → conn.rollback w ≡ (ok tt, w')
      → decrement_if_fresh orjson cursor conn broker loop policy stream_name group_name
          dead_letter_stream_name event acknowledgement_time limit fuel payload
          (ok true, w)
        ≡ some (err type_error, w')
  unfolding decrement_if_fresh settle_decrement
  decrement_raises acknowledgement_time limit fuel payload w w' f h =
      rw (rounds_caught payload limit fuel policy.max_retries w w' f busy h) (
        ap some (
          declare_dead_raises orjson refuses broker loop policy stream_name group_name
            dead_letter_stream_name event [] policy.max_retries w'
            (effective_pos policy.max_retries)))
