-- ===== src/Runs/Calls.antt =====
-- The transactions of src/ticketflow/db.py on the runs, as a language of steps: runners, workers,
-- the API and the janitor interleave as a list of calls, each with the clock that it reads.
use ticket_graph.Prelude.{ℕ, String, Bool, Option, none, some, List, [], ◌∷◌, nat_eq, string_eq}
use ticket_graph.Json.{Json}
use ticket_graph.Models.{TicketStatus}
use ticket_graph.Runs.{
  RunStore, WorkflowRun, claim_run, reclaim_expired_runs, archive_terminal_runs,
  prune_consumed_signals, save_run, create_run, wake_run,
}
use ticket_graph.Runs.Signals.{add_pending_signal_if_waiting}

pub data RunCall : Type 0 where
  claims : (String → Bool) → String → ℕ → RunCall
  reclaims : ℕ → RunCall
  archives : ℕ → ℕ → RunCall
  prunes : ℕ → ℕ → RunCall
  saves : String → TicketStatus → Option ℕ → Option ℕ → ℕ → RunCall
  creates : String → TicketStatus → Option ℕ → ℕ → RunCall
  wakes : String → ℕ → RunCall
  submits : String → String → Json → TicketStatus → ℕ → RunCall

unfoldable pub step : RunStore → RunCall → RunStore
step s (claims locked worker now) = (claim_run locked worker now s).1
step s (reclaims now) = (reclaim_expired_runs now s).1
step s (archives age now) = (archive_terminal_runs age now s).1
step s (prunes age now) = (prune_consumed_signals age now s).1
step s (saves ticket_id status wakeup_at signal now) =
    save_run ticket_id status wakeup_at signal now s
step s (creates ticket_id status wakeup_at now) = create_run ticket_id status wakeup_at now s
step s (wakes ticket_id now) = wake_run ticket_id now s
step s (submits workflow_id kind payload status now) =
    (add_pending_signal_if_waiting workflow_id kind payload status now s).1

-- what a call leases
abbrev pub leases : RunStore → RunCall → Option WorkflowRun
leases s (claims locked worker now) = (claim_run locked worker now s).0
leases s _ = none

unfoldable pub run : RunStore → List RunCall → RunStore
run s [] = s
run s (c ∷ cs) = run (step s c) cs

abbrev pub also : Option WorkflowRun → List String → List String
also none ids = ids
also (some r) ids = r.ticket_id ∷ ids

-- the tickets that the calls lease, one after the other
unfoldable pub leased_by : RunStore → List RunCall → List String
leased_by s [] = []
leased_by s (c ∷ cs) = let rest = leased_by (step s c) cs in also (leases s c) rest
