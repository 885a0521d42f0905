-- ===== src/Pipeline/Samples.antt =====
-- A concrete broker for the tests. Its world is the number of transactions that fail from now on,
-- and the commands that it ran: one that fails has run its first command.
use tenjin.Common.{ℕ, zero, suc, ◌<◌, ◌≡◌, refl, sym, ap, List, [], ◌∷◌, ◌++◌, arith}
use tenjin.Common.Lists.{take}
use tenjin.Common.Action.{Action, Error, Result, ok, err, network}
use tenjin.Events.Names.{StreamName}
use tenjin.Retry.{Loop, RetryPolicy}
use tenjin.Pipeline.{Command, Broker}
use tenjin.Pipeline.Ran.{Part, none_ran, skipped, ran, RunsCommands}

abbrev pub History : Type 0
History = ℕ × List Command

abbrev run : List Command → Action History (Unit {0})
run cs (zero, l) = (ok tt, (zero, l ++ cs))
run cs (suc n, l) = (err network, (n, l ++ take 1 cs))

abbrev pub broker : Broker History
broker = record { execute_transaction = run }

abbrev pub loop : Loop History
loop = record { sleep_up_to = λ n w. w }

abbrev pub policy : RetryPolicy
policy = record {
  max_retries = 3;
  maximum_backoff_interval = 8;
  base_backoff_interval = 1;
  backoff_exponential = 2;
}

abbrev pub log : History → List Command
log w = w.1

no-Part : (cs : List Command) → Part [] cs
no-Part [] = none_ran
no-Part (c ∷ cs) = skipped c [] cs (no-Part cs)

first-Part : (cs : List Command) → Part (take 1 cs) cs
first-Part [] = none_ran
first-Part (c ∷ cs) = ran c [] cs (no-Part cs)

ran_all : (cs : List Command) (w w' : History) → run cs w ≡ (ok tt, w') → log w' ≡ log w ++ cs
ran_all cs (zero, l) w' h = ap (λ (o : Result (Unit {0}) × History). log o.1) (sym h)
ran_all cs (suc n, l) w' h = cc

ran-Part :
    (cs : List Command) (w w' : History) (e : Error)
    → run cs w ≡ (err e, w')
    → (rs : List Command) × Part rs cs × (log w' ≡ log w ++ rs)
ran-Part cs (zero, l) w' e h = cc
ran-Part cs (suc n, l) w' e h =
    (take 1 cs, first-Part cs, ap (λ (o : Result (Unit {0}) × History). log o.1) (sym h))

pub laws : RunsCommands broker loop log
laws = record { applied = ran_all; failed = ran-Part; rests = λ n w. refl }

abbrev pub busy : 0 < policy.max_retries
busy = omega arith

abbrev pub stream : StreamName
stream = StreamName.posts

abbrev pub dlq : StreamName
dlq = StreamName.dead_letter_queue

-- the next transaction fails
abbrev pub flaky : History
flaky = (1, [])
