-- ===== src/Processes/Traced.antt =====
-- Each operation of a process acts on the task queue and on the runs by the calls of TaskQueue/Calls
-- and Runs/Calls.
use mathlib.Core.Path.{subst}
use ticket_graph.Processes.Acts.{Acts, Acts-trans, LeavesActs, create_ticket-Acts, step-Acts}
use ticket_graph.Prelude.{
  ℕ, String, inl, inr, Bool, true, false, Option, none, some, List, [], ◌∷◌, Bool-cases,
  Option-cases, nat_eq, string_eq,
}
use ticket_graph.Json.{Json}
use ticket_graph.Result.{Result, Error, ok, err}
use ticket_graph.Workflows.{Config, approval_decision_signal}
use ticket_graph.Models.{awaiting_approval}
use ticket_graph.Models.Codec.{Pydantic}
use ticket_graph.TaskQueue.{QueuedTask, dequeue}
use ticket_graph.TaskQueue.Calls.{
  dequeues, completes, fails, reclaims as reclaims_tasks, step as queue_step,
}
use ticket_graph.TaskQueue.Traces.{trace_none, trace_one}
use ticket_graph.Runs.{RunStore, create_run, list_orphaned_checkpoint_threads}
use ticket_graph.Runs.Calls.{
  reclaims as reclaims_runs, creates as creates_run, wakes, submits, step as run_step,
}
use ticket_graph.Runs.Traces.{IsLasting, RunTrace, runs_none, runs_one, runs_then}
use ticket_graph.Runner.{System}
use ticket_graph.Runner.Step.{
  thread_ids, get_state, reconcile_threads, reconcile_orphaned_runs, reclaim_expired_leases,
}
use ticket_graph.Worker.{
  is_permanent, process_one_task, settle, settle_leased, wake_if, is_cancelled,
}
use ticket_graph.Api.{submit_approval}
use ticket_graph.Processes.{Work, creates, decides, runs, works, reclaims, reconciles}

wake_if-Acts :
    (settled : Bool) (workflow_id : String) (now : ℕ) (s : RunStore)
    → RunTrace IsLasting s (wake_if settled workflow_id now s)
wake_if-Acts true workflow_id now s = unfold run_step in runs_one s (wakes workflow_id now) tt
wake_if-Acts false workflow_id now s = runs_none s

settle-Acts :
    (describe : Error → String) (now woken_at : ℕ) (task : QueuedTask) (outcome : Result Json)
    (sys : System)
    → Acts sys (settle describe now woken_at task outcome sys)
unfolding settle
settle-Acts describe now woken_at task (err e) sys = elim (Bool-cases (is_cancelled e)) [
  | inl gone ↦
      rw (gone, settle) record { queue = trace_none sys.tasks; store = runs_none sys.store }
  | inr fails_it ↦
      rw (fails_it, settle)
        record {
          queue =
              unfold queue_step in
              trace_one sys.tasks (fails task.id (describe e) (is_permanent e) now) tt;
          store = wake_if-Acts _ task.workflow_id woken_at sys.store;
        }
]
settle-Acts describe now woken_at task (ok result) sys = record {
  queue = unfold queue_step in trace_one sys.tasks (completes task.id result) tt;
  store = wake_if-Acts _ task.workflow_id woken_at sys.store;
}

process_one_task-Acts :
    (describe : Error → String) (now woken_at : ℕ) (run_activity : QueuedTask → Result Json)
    (locked : ℕ → Bool) (queue worker : String) (leased_at : ℕ) (sys : System)
    → Acts sys
        (process_one_task describe now woken_at run_activity locked queue worker leased_at sys).1
unfolding process_one_task
process_one_task-Acts describe now woken_at run_activity locked queue worker leased_at sys =
    let sys' = record sys { tasks = (dequeue locked queue worker leased_at sys.tasks).1 } in
    let first : Acts sys sys' = record {
      queue = unfold queue_step in trace_one sys.tasks (dequeues locked queue worker leased_at) tt;
      store = runs_none sys.store;
    } in
    Acts-trans first (settled (dequeue locked queue worker leased_at sys.tasks).0 sys')
  where
    settled :
        (got : Option QueuedTask) (sys' : System)
        → Acts sys' (settle_leased describe now woken_at run_activity got sys').1
    settled none sys' = record { queue = trace_none sys'.tasks; store = runs_none sys'.store }
    settled (some task) sys' = settle-Acts describe now woken_at task (run_activity task) sys'

reconcile_threads-Trace :
    (sys : System) (now : ℕ) (ids : List String) (s : RunStore)
    → RunTrace IsLasting s (reconcile_threads sys now ids s).1
unfolding reconcile_threads
reconcile_threads-Trace sys now [] s = runs_none s
reconcile_threads-Trace sys now (i ∷ ids) s = elim (Option-cases (get_state i sys)) [
  | inl e ↦ rw (e, reconcile_threads) (reconcile_threads-Trace sys now ids s)
  | inr (c, e) ↦ elim (Bool-cases c.materialized) [
    | inr empty ↦ rw (e, reconcile_threads, empty) (reconcile_threads-Trace sys now ids s)
    | inl there ↦ elim (Option-cases c.values.status) [
      | inl f ↦ rw (e, reconcile_threads, there, f) (runs_none s)
      | inr (status, f) ↦
          let s' = create_run i status c.values.wakeup_at now s in
          let first : RunTrace IsLasting s s' =
            unfold run_step in runs_one s (creates_run i status c.values.wakeup_at now) tt in
          rw (e, reconcile_threads, there, f)
            (runs_then first (reconcile_threads-Trace sys now ids s'))
    ]
  ]
]

-- Each operation of a process but retention (a creation, a decision, a step of a runner, a worker's
-- round, the janitor, the reconciler) does to the task queue and to the runs what some calls of
-- TaskQueue/Calls and Runs/Calls do, and none of these calls prunes or archives.
pub Work-Acts :
    (cfg : Config) (m : Pydantic) {sys sys' : System} → Work cfg m sys sys' → Acts sys sys'
unfolding submit_approval reclaim_expired_leases reconcile_orphaned_runs
Work-Acts cfg m (creates {sys = sys} at id request now e) =
    subst (LeavesActs sys) e (create_ticket-Acts cfg m at id request now sys)
Work-Acts cfg m (decides ticket_id decision now sys) = record {
  queue = trace_none sys.tasks;
  store =
      unfold run_step in
      runs_one sys.store
        (submits ticket_id approval_decision_signal (m.decision.model_dump decision)
          awaiting_approval now)
        tt;
}
Work-Acts cfg m (runs {sys = sys} at locked worker claimed_at now e) =
    subst (LeavesActs sys) e (step-Acts cfg m at locked worker claimed_at now sys)
Work-Acts cfg m (works describe now woken_at run_activity locked queue worker leased_at sys) =
    process_one_task-Acts describe now woken_at run_activity locked queue worker leased_at sys
Work-Acts cfg m (reclaims now sys) = record {
  queue = unfold queue_step in trace_one sys.tasks (reclaims_tasks now) tt;
  store = unfold run_step in runs_one sys.store (reclaims_runs now) tt;
}
Work-Acts cfg m (reconciles now sys) = record {
  queue = trace_none sys.tasks;
  store =
      reconcile_threads-Trace sys now
        (list_orphaned_checkpoint_threads (thread_ids sys.checkpoints) sys.store) sys.store;
}
