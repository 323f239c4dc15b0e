-- ===== src/Processes/Rounds.antt =====
-- A round of a runner's loop comes to a result, sets its timers, and is a part of a history of the
-- processes.
use ticket_graph.Prelude.{
  ℕ, String, ◌≡◌, refl, inl, inr, Bool, true, Option, none, some, leb, Bool-cases, Option-cases,
  is_some, some_of, nat_eq, string_eq,
}
use ticket_graph.Result.{Result, ok, err}
use ticket_graph.Workflows.{Config}
use ticket_graph.Models.Codec.{Pydantic}
use ticket_graph.Graph.Drive.{Node, Thread, resume}
use ticket_graph.Graph.Fuel.{resume_some}
use ticket_graph.Runs.{WorkflowRun, claim_run}
use ticket_graph.Runner.{System, ResumeValue, resume_for_run}
use ticket_graph.Runner.Step.{step, act_on, advance, pending, get_state, reclaim_expired_leases}
use ticket_graph.Runner.Loop.{
  Pace, Timers, Round, janitor, retention, step_round, retain_round, round,
}
use ticket_graph.Runner.Timers.{Leaves, round-Ticks}
use ticket_graph.Processes.{begins, History, runs, reclaims, reconciles, continues, retains}

module _ (cfg : Config) (m : Pydantic) (at : Node → ℕ) where
  advance_some :
      (ticket_id : String) (th : Thread) (value : ResumeValue) (now : ℕ) (sys : System)
      → is_some (advance cfg m at ticket_id th value now sys) ≡ true
  unfolding advance
  advance_some ticket_id th value now sys =
      let (stop, e) =
        some_of (resume cfg m at th value.payload sys.tasks)
          (resume_some cfg m at th value.payload sys.tasks) in
      rw (e, advance) refl

  act_on_some :
      (run : WorkflowRun) (th : Option Thread) (now : ℕ) (sys : System)
      → is_some (act_on cfg m at run th now sys) ≡ true
  unfolding act_on
  act_on_some run none now sys = refl
  act_on_some run (some th) now sys =
      elim (Option-cases
        (resume_for_run th.envelope run.wakeup_at sys.store.signals sys.tasks.rows)) [
          | inl e ↦ rw (e, act_on) refl
          | inr (value, e) ↦ rw (e, act_on) (advance_some run.ticket_id th value now sys)
        ]

  step_some :
      (locked : String → Bool) (worker : String) (claimed_at now : ℕ) (sys : System)
      → is_some (step cfg m at locked worker claimed_at now sys) ≡ true
  unfolding step
  step_some locked worker claimed_at now sys =
      elim (Option-cases (claim_run locked worker claimed_at sys.store).0) [
        | inl e ↦ rw (e, step) refl
        | inr (run, e) ↦
            rw (e, step) (act_on_some run (pending (get_state run.ticket_id sys)) now _)
      ]

-- What comes of a part of a round: a result, and a longer history.
abbrev Ends : Config → Pydantic → System → Option (Result (Bool × Timers) × System) → Type 0
Ends cfg m start none = ⊥
Ends cfg m start (some (o, sys')) = History cfg m start sys'

module _ (cfg : Config) (m : Pydantic) (worker : String) (pace : Pace) (r : Round) where
  janitor-History :
      {start sys : System} (timers : Timers)
      → History cfg m start sys
      → History cfg m start (janitor pace r timers sys).1
  unfolding janitor
  janitor-History {sys = sys} timers h = elim (Bool-cases (leb timers.next_janitor_at r.time)) [
    | inl e ↦ rw e (
        continues (continues h (reclaims r.reclaimed_at sys))
          (reconciles r.reconciled_at (reclaim_expired_leases r.reclaimed_at sys).1))
    | inr e ↦ rw e h
  ]

  retention-History :
      {start sys : System} (timers : Timers)
      → History cfg m start sys
      → History cfg m start (retention pace r timers sys).1
  unfolding retention
  retention-History {sys = sys} timers h = elim (Bool-cases (leb timers.next_retention_at r.time)) [
    | inl e ↦ rw e (retains pace.retention_max_age r.retained_at h)
    | inr e ↦ rw e h
  ]

  step_round-Ends :
      {start : System} (timers : Result Timers) (sys : System)
      → History cfg m start sys
      → Ends cfg m start (step_round cfg m worker pace r timers sys)
  unfolding step_round
  step_round-Ends (err e) sys h = h
  step_round-Ends (ok timers) sys h =
      let ((acted, sys'), e) =
        some_of (step cfg m r.at r.locked worker r.claimed_at r.saved_at sys)
          (step_some cfg m r.at r.locked worker r.claimed_at r.saved_at sys) in
      rw (e, step_round) (continues h (runs r.at r.locked worker r.claimed_at r.saved_at e))

  retain_round-Ends :
      {start : System} (timers : Result Timers) (sys : System)
      → History cfg m start sys
      → Ends cfg m start (retain_round cfg m worker pace r timers sys)
  unfolding retain_round
  retain_round-Ends (err e) sys h = h
  retain_round-Ends (ok timers) sys h =
      step_round-Ends (retention pace r timers sys).0 (retention pace r timers sys).1
        (retention-History timers h)

  -- What a round leaves continues the history of the processes.
  round-Ends :
      {start sys : System} (timers : Timers)
      → History cfg m start sys
      → Ends cfg m start (round cfg m worker pace r timers sys)
  unfolding round
  round-Ends {sys = sys} timers h =
      retain_round-Ends (janitor pace r timers sys).0 (janitor pace r timers sys).1
        (janitor-History timers h)

-- A round of a runner's loop, at any times and whatever it finds, comes to a result: it never runs out
-- of fuel. If it raises nothing, it leaves the timer of the janitor as it was if it has not gone off,
-- and else sets it to an interval after the round's time; and so the timer of retention.
pub round-Leaves :
    (cfg : Config) (m : Pydantic) (worker : String) (pace : Pace) (r : Round) (timers : Timers)
    (sys : System)
    → (is_some (round cfg m worker pace r timers sys) ≡ true)
      × Leaves pace r timers (round cfg m worker pace r timers sys)
round-Leaves cfg m worker pace r timers sys = (
  ended (round cfg m worker pace r timers sys) (round-Ends cfg m worker pace r timers (begins sys)),
  round-Ticks cfg m worker pace r timers sys,
)
  where
    ended : (o : Option (Result (Bool × Timers) × System)) → Ends cfg m sys o → is_some o ≡ true
    ended none no_such = absurd no_such
    ended (some x) h = refl
