-- ===== src/Runner/Loop.antt =====
-- One round of `run_forever` of src/ticketflow/runner.py. The timers are on the clock of the event
-- loop; a round is given the times at which its transactions read the database's clock.
use ticket_graph.Prelude.{
  ℕ, ◌+◌, String, Bool, Option, none, some, leb, if◌then◌else◌, nat_eq, string_eq,
}
use ticket_graph.Result.{Result, ok, err}
use ticket_graph.Workflows.{Config}
use ticket_graph.Models.Codec.{Pydantic}
use ticket_graph.Graph.Drive.{Node}
use ticket_graph.Runner.{System}
use ticket_graph.Runner.Step.{step, reconcile_orphaned_runs, reclaim_expired_leases, run_retention}

-- the arguments of `run_forever`
pub record Pace : Type 0 where
  pub janitor_interval : ℕ
  pub retention_interval : ℕ
  pub retention_max_age : ℕ

pub record Timers : Type 0 where
  pub next_janitor_at : ℕ
  pub next_retention_at : ℕ

-- The timers before the first round.
abbrev pub no_timers : Timers
no_timers = record { next_janitor_at = 0; next_retention_at = 0 }

-- `time` is `loop.time()`; `at` gives the clock of each node, `locked` the runs that others hold.
pub record Round : Type 0 where
  pub time : ℕ
  pub reclaimed_at : ℕ
  pub reconciled_at : ℕ
  pub retained_at : ℕ
  pub claimed_at : ℕ
  pub saved_at : ℕ
  pub at : Node → ℕ
  pub locked : String → Bool

-- the timers after an operation that may have raised
abbrev pub armed : {A : Type 0} → Result A → Timers → Result Timers
armed (ok a) timers = ok timers
armed (err e) timers = err e

unfoldable pub janitor : Pace → Round → Timers → System → Result Timers × System
janitor pace r timers sys =
    if leb timers.next_janitor_at r.time
    then (let (count, sys') =
          reconcile_orphaned_runs r.reconciled_at (reclaim_expired_leases r.reclaimed_at sys).1 in
        (armed count (record timers { next_janitor_at = r.time + pace.janitor_interval }), sys'))
    else (ok timers, sys)

unfoldable pub retention : Pace → Round → Timers → System → Result Timers × System
retention pace r timers sys =
    if leb timers.next_retention_at r.time
    then (let (counts, sys') = run_retention pace.retention_max_age r.retained_at sys in
        (
          armed counts (record timers { next_retention_at = r.time + pace.retention_interval }),
          sys',
        ))
    else (ok timers, sys)

-- whether the round has advanced a run, and the timers for the next one
abbrev pub advanced : Result Bool → Timers → Result (Bool × Timers)
advanced (ok acted) timers = ok (acted, timers)
advanced (err e) timers = err e

module _ (cfg : Config) (m : Pydantic) (worker : String) (pace : Pace) (r : Round) where
  unfoldable pub step_round : Result Timers → System → Option (Result (Bool × Timers) × System)
  step_round (err e) sys = some (err e, sys)
  step_round (ok timers) sys = elim (step cfg m r.at r.locked worker r.claimed_at r.saved_at sys) [
    | none ↦ none
    | some (acted, sys') ↦ some (advanced acted timers, sys')
  ]

  unfoldable pub retain_round : Result Timers → System → Option (Result (Bool × Timers) × System)
  unfolding step_round
  retain_round (err e) sys = some (err e, sys)
  retain_round (ok timers) sys =
      let (timers', sys') = retention pace r timers sys in step_round timers' sys'

  -- A round that raises ends the runner.
  unfoldable pub round : Timers → System → Option (Result (Bool × Timers) × System)
  unfolding retain_round
  round timers sys = let (timers', sys') = janitor pace r timers sys in retain_round timers' sys'
