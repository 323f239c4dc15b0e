-- ===== src/Examples/Runs.antt =====
-- Runs that are claimed, signalled and reconciled.
use ticket_graph.Prelude.{
  ℕ, ◌+◌, String, ◌≡◌, refl, ◌≢◌, Bool, true, false, not, Option, none, some, List, [], ◌∷◌, arith,
  All, if◌then◌else◌, nat_eq, string_eq,
}
use ticket_graph.Json.{Json, get, str, null, obj, end, field, get, lookup}
use ticket_graph.Models.{awaiting_approval, resolved}
use ticket_graph.Clock.{lease_time}
use ticket_graph.Workflows.{approval_decision_signal}
use ticket_graph.Graph.Drive.{initial}
use ticket_graph.Runs.{
  RunStore, WorkflowRun, fresh_run, claim_run, next_run, is_run, list_orphaned_checkpoint_threads,
  archive_terminal_runs, is_terminal,
}
use ticket_graph.Runs.Signals.{add_pending_signal_if_waiting, submit-submit}
use ticket_graph.Runs.Calls.{RunCall, claims, wakes, creates, submits, leased_by}
use ticket_graph.Runs.Exclusion.{claim_exclusive}
use ticket_graph.Runs.Invariant.{IsConsistent}
use ticket_graph.Result.{is_ok}
use ticket_graph.Runner.{System, Checkpoint, resume_for_run, decision_value, task_value}
use ticket_graph.Runner.Ready.{submitted_ready, settled_ready}
use ticket_graph.Runner.Reconcile.{reconcile_complete, IsEmpty}
use ticket_graph.Runner.Step.{reconcile_orphaned_runs, thread_ids}
use ticket_graph.Examples.Effects.{ticket}
use ticket_graph.Sql.{first_by, select_where, updated, exists_where}
use ticket_graph.Examples.Queue.{done_row, table_of, done-IsValid}
use ticket_graph.TaskQueue.{is_settled}
use ticket_graph.Runner.{timer_value}
use ticket_graph.TaskQueue.Calls.{empty}
use ticket_graph.Sql.{select_where, first_by}
use ticket_graph.Runs.Archive.{has_run, archive-has_run}

abbrev no_runs : RunStore
no_runs = record { runs = []; archive = []; signals = []; next_signal = 1 }

abbrev waiting_run : WorkflowRun
waiting_run = fresh_run "t" awaiting_approval (some 50) 10

abbrev pub store : RunStore
store = record no_runs { runs = waiting_run ∷ [] }

abbrev submitted : Option ℕ × RunStore
submitted =
    add_pending_signal_if_waiting "t" approval_decision_signal null awaiting_approval 20 store

submit-submit_example :
    let after =
      add_pending_signal_if_waiting "t" approval_decision_signal
        (str "no")
        awaiting_approval
        21
        submitted.1 in
    (after.0 ≡ none) × (after.1.runs ≡ submitted.1.runs) × (after.1.signals ≡ submitted.1.signals)
unfolding add_pending_signal_if_waiting exists_where
submit-submit_example =
    submit-submit "t" approval_decision_signal null (str "no") awaiting_approval 20 21 1 store refl

abbrev free_lock : String → Bool
free_lock i = false

abbrev first_claim : Option WorkflowRun × RunStore
first_claim = claim_run free_lock "a" 100 store

abbrev claimed_run : WorkflowRun
claimed_run = record waiting_run {
  lease_owner = some "a";
  lease_expires_at = some (100 + lease_time);
  updated_at = 100;
}

abbrev later_calls : List RunCall
later_calls = wakes "t" 150 ∷ claims free_lock "b" 200 ∷ []

claim_exclusive_example : All (λ j. j ≢ "t") (leased_by first_claim.1 later_calls)
unfolding claim_run next_run first_by select_where updated
claim_exclusive_example =
    claim_exclusive free_lock "a" 100 store claimed_run later_calls refl
      ((omega arith, omega arith), ((omega arith, omega arith), tt))

no_runs-IsConsistent : IsConsistent no_runs
unfolding select_where
no_runs-IsConsistent = record { runs = tt; signals = λ w k. ground arith }

abbrev calls : List RunCall
calls =
    creates "t" awaiting_approval (some 50) 10
    ∷ submits "t" approval_decision_signal null awaiting_approval 20
    ∷ submits "t" approval_decision_signal null awaiting_approval 21
    ∷ []

abbrev gate : Json
gate = obj (field "kind" (str "approval_required") (field "ticket_id" (str "t") end))

submitted_ready_example :
    (resume_for_run gate (some 50) submitted.1.signals []
      ≡ some record { payload = decision_value null; consumed_signal_id = some 1 })
    × All (λ (r : WorkflowRun). is_run "t" r ≡ true → r.wakeup_at ≡ some 20) submitted.1.runs
unfolding add_pending_signal_if_waiting get exists_where
submitted_ready_example =
    submitted_ready "t" null awaiting_approval 20 1 store gate (some 50) [] refl refl refl refl

abbrev stranded : Checkpoint
stranded = record {
  thread_id = "t";
  materialized = true;
  values = initial ticket;
  suspended = none;
}

-- a thread of which nothing is known yet
abbrev unborn : Checkpoint
unborn = record stranded { thread_id = "u"; materialized = false }

abbrev system : System
system = record { store = no_runs; tasks = empty; checkpoints = unborn ∷ stranded ∷ [] }

reconcile_complete_example :
    (is_ok (reconcile_orphaned_runs 100 system).0 ≡ true)
    × All (IsEmpty system) (
        list_orphaned_checkpoint_threads
          (thread_ids (reconcile_orphaned_runs 100 system).1.checkpoints)
          (reconcile_orphaned_runs 100 system).1.store)
reconcile_complete_example = reconcile_complete 100 system ((λ e. absurd (cc e)), ((λ e. refl), tt))

abbrev wait : Json
wait = obj (field "idempotency_key" (str "a") end)

settled_ready_example :
    resume_for_run wait (some 50) [] (table_of done_row).rows
    ≡ (if is_settled done_row.status then some (task_value done_row) else timer_value (some 50))
unfolding get lookup select_where
settled_ready_example =
    settled_ready "a" done_row (table_of done_row) wait (some 50) [] done-IsValid refl refl refl

abbrev finished : RunStore
finished = record no_runs { runs = waiting_run ∷ fresh_run "u" resolved none 10 ∷ [] }

archive-has_run_example :
    (has_run "u" (archive_terminal_runs 50 100 finished).1 ≡ has_run "u" finished)
    × (select_where (λ r. not (is_terminal r.status)) (archive_terminal_runs 50 100 finished).1.runs
        ≡ select_where (λ r. not (is_terminal r.status)) finished.runs)
archive-has_run_example = archive-has_run 50 100 finished "u"
