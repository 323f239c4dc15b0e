-- ===== src/Runner/Timers.antt =====
-- The timers of a runner's loop: the janitor and retention run when they are due, and are set anew
-- by their interval.
use ticket_graph.Prelude.{
  ℕ, ◌+◌, ◌≤◌, ◌<◌, String, ◌≡◌, refl, ◌⊎◌, inl, inr, Bool, true, Option, none, some, arith,
  Option-cases, nat_eq, string_eq,
}
use ticket_graph.Result.{Result, ok, err}
use ticket_graph.Workflows.{Config}
use ticket_graph.Models.Codec.{Pydantic}
use ticket_graph.Runner.{System}
use ticket_graph.Runner.Step.{step}
use ticket_graph.Runner.Loop.{
  Pace, Timers, Round, janitor, retention, advanced, step_round, retain_round, round,
}

-- What a round may do to a timer of an interval: it has not gone off and is left, or it has and is
-- set anew.
abbrev pub Ticks : ℕ → ℕ → ℕ → ℕ → Type 0
Ticks time interval before after =
    ((time < before) × (after ≡ before)) ⊎ ((before ≤ time) × (after ≡ time + interval))

-- The timers that a round leaves, if it raises nothing.
abbrev pub TicksBoth : Pace → Round → Timers → Result (Bool × Timers) → Type 0
TicksBoth pace r timers (err e) = Unit
TicksBoth pace r timers (ok (acted, timers')) =
    Ticks r.time pace.janitor_interval timers.next_janitor_at timers'.next_janitor_at
    × Ticks r.time pace.retention_interval timers.next_retention_at timers'.next_retention_at

-- These, for the result of a part of a round.
abbrev pub Leaves : Pace → Round → Timers → Option (Result (Bool × Timers) × System) → Type 0
Leaves pace r timers none = Unit
Leaves pace r timers (some (o, sys')) = TicksBoth pace r timers o

module _ (pace : Pace) (r : Round) (timers : Timers) where
  janitor-Ticks :
      (sys : System) (timers' : Timers)
      → (janitor pace r timers sys).0 ≡ ok timers'
      → Ticks r.time pace.janitor_interval timers.next_janitor_at timers'.next_janitor_at
        × (timers'.next_retention_at ≡ timers.next_retention_at)
  unfolding janitor
  janitor-Ticks sys timers' e = ground arith

  retention-Ticks :
      (sys : System) (timers' : Timers)
      → (retention pace r timers sys).0 ≡ ok timers'
      → Ticks r.time pace.retention_interval timers.next_retention_at timers'.next_retention_at
        × (timers'.next_janitor_at ≡ timers.next_janitor_at)
  unfolding retention
  retention-Ticks sys timers' e = ground arith

module _ (cfg : Config) (m : Pydantic) (worker : String) (pace : Pace) (r : Round)
    (timers : Timers) where
  step_round-Leaves :
      (left : Result Timers) (sys : System)
      → ((timers' : Timers) → left ≡ ok timers' → TicksBoth pace r timers (ok (true, timers')))
      → Leaves pace r timers (step_round cfg m worker pace r left sys)
  unfolding step_round
  step_round-Leaves (err e) sys h = tt
  step_round-Leaves (ok left) sys h =
      elim (Option-cases (step cfg m r.at r.locked worker r.claimed_at r.saved_at sys)) [
        | inl e ↦ rw (e, step_round) tt
        | inr ((acted, sys'), e) ↦ rw (e, step_round) (told acted)
      ]
    where
      told : (acted : Result Bool) → TicksBoth pace r timers (advanced acted left)
      told (ok b) = h left refl
      told (err e) = tt

  retain_round-Leaves :
      (left : Result Timers) (sys : System)
      → ((t : Timers)
          → left ≡ ok t
          → Ticks r.time pace.janitor_interval timers.next_janitor_at t.next_janitor_at
            × (t.next_retention_at ≡ timers.next_retention_at))
      → Leaves pace r timers (retain_round cfg m worker pace r left sys)
  unfolding retain_round
  retain_round-Leaves (err e) sys h = tt
  retain_round-Leaves (ok left) sys h =
      step_round-Leaves (retention pace r left sys).0 (retention pace r left sys).1 λ t e.
        let (janitor_ticks, same) = h left refl in
        let (retention_ticks, kept) = retention-Ticks pace r left sys t e in
        (rw kept janitor_ticks, rw (← same) retention_ticks)

  -- A round that raises nothing leaves the timer of the janitor as it was if it has not gone off, and
  -- else sets it to an interval after the round; and so the timer of retention.
  pub round-Ticks : (sys : System) → Leaves pace r timers (round cfg m worker pace r timers sys)
  unfolding round
  round-Ticks sys =
      retain_round-Leaves (janitor pace r timers sys).0 (janitor pace r timers sys).1
        (λ t e. janitor-Ticks pace r timers sys t e)
