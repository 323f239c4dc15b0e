-- ===== src/Processes/Sound.antt =====
-- What holds of the system in any history of the processes.
use ticket_graph.Prelude.{ℕ, String, ◌≡◌, inl, inr, true, Bool-cases, nat_eq, string_eq}
use ticket_graph.Workflows.{Config}
use ticket_graph.Models.Codec.{Pydantic}
use ticket_graph.TaskQueue.{QueuedTask, is_settled}
use ticket_graph.TaskQueue.Calls.{Call, Keeps, prunes, step as queue_step}
use ticket_graph.TaskQueue.Traces.{QueueTrace, trace_none, trace_one}
use ticket_graph.TaskQueue.Invariant.{IsValid, run-IsValid}
use ticket_graph.TaskQueue.Settled.{Holds, run-Holds}
use ticket_graph.Sql.{select_where, exists_where}
use ticket_graph.Runs.{archive_terminal_runs, prune_consumed_signals, archivable, archive_conflict}
use ticket_graph.Runs.Calls.{RunCall, archives, prunes as prunes_signals, step as run_step}
use ticket_graph.Runs.Traces.{RunTrace, runs_one, runs_then, run-has_run}
use ticket_graph.Runs.Archive.{has_run}
use ticket_graph.Runs.Invariant.{IsConsistent, run-IsConsistent}
use ticket_graph.Runner.{System}
use ticket_graph.Runner.Step.{run_retention}
use ticket_graph.Processes.{Working, History, idle, then_works, begins, continues, retains}
use ticket_graph.Processes.Traced.{Work-Acts}

-- any call
abbrev Any : {C : Type 0} → C → Type 0
Any c = Unit

retention-Trace :
    (age now : ℕ) (sys : System)
    → QueueTrace Any sys.tasks (run_retention age now sys).1.tasks
      × RunTrace Any sys.store (run_retention age now sys).1.store
unfolding run_retention archive_terminal_runs
retention-Trace age now sys =
    let archived : RunTrace Any sys.store (archive_terminal_runs age now sys.store).1 =
      unfold run_step in runs_one sys.store (archives age now) tt in
    let store = (archive_terminal_runs age now sys.store).1 in
    let pruned : RunTrace Any store (prune_consumed_signals age now store).1 =
      unfold run_step in runs_one store (prunes_signals age now) tt in
    elim (Bool-cases (
      exists_where (archive_conflict sys.store.archive)
        (select_where (archivable age now) sys.store.runs))) [
          | inl conflict ↦
              rw (conflict, run_retention, archive_terminal_runs) (trace_none sys.tasks, archived)
          | inr fine ↦
              rw (fine, run_retention, archive_terminal_runs)
                (
                  unfold queue_step in trace_one sys.tasks (prunes age now) tt,
                  runs_then archived pruned,
                )
        ]

-- The invariants of the queue and of the runs, together.
abbrev pub IsSound : System → Type 0
IsSound sys = IsValid sys.tasks × IsConsistent sys.store

traced-IsSound :
    (P : Call → Type 0) (Q : RunCall → Type 0) (sys sys' : System)
    → QueueTrace P sys.tasks sys'.tasks
    → RunTrace Q sys.store sys'.store
    → IsSound sys
    → IsSound sys'
traced-IsSound P Q sys sys' a b v = (
  rw (a.ends) (run-IsValid sys.tasks a.calls v.0),
  rw (b.ends) (run-IsConsistent sys.store b.calls v.1),
)

module _ (cfg : Config) (m : Pydantic) where
  -- In any history of the processes (tickets created, decisions taken, runs advanced, tasks worked on,
  -- leases reclaimed, orphans reconciled, old rows archived and pruned, in any order and at any
  -- times), the invariants of the task queue and of the runs are kept.
  pub History-IsSound : {sys sys' : System} → History cfg m sys sys' → IsSound sys → IsSound sys'
  History-IsSound (begins sys) v = v
  History-IsSound (continues {sys' = mid} {sys'' = last} h w) v =
      let a = Work-Acts cfg m w in
      traced-IsSound Keeps _ mid last a.queue a.store (History-IsSound h v)
  History-IsSound (retains {sys' = mid} age now h) v =
      let (queue, store) = retention-Trace age now mid in
      traced-IsSound Any Any mid (run_retention age now mid).1 queue store (History-IsSound h v)

  -- In any history of the processes, a ticket that has a run keeps one, in the table of runs or in the
  -- archive.
  pub History-has_run :
      (ticket_id : String) {sys sys' : System}
      → History cfg m sys sys'
      → has_run ticket_id sys.store ≡ true
      → has_run ticket_id sys'.store ≡ true
  History-has_run ticket_id (begins sys) h = h
  History-has_run ticket_id (continues {sys' = mid} past w) h =
      let a = Work-Acts cfg m w in
      rw (a.store.ends)
        (run-has_run ticket_id mid.store a.store.calls (History-has_run ticket_id past h))
  History-has_run ticket_id (retains {sys' = mid} age now past) h =
      let (_, store) = retention-Trace age now mid in
      rw (store.ends)
        (run-has_run ticket_id mid.store store.calls (History-has_run ticket_id past h))

  -- On a valid queue, while the processes work and no retention pass comes in between, a settled task
  -- keeps its row, with its result or its error.
  pub Working-Holds :
      (key : String) (r : QueuedTask) {sys sys' : System}
      → is_settled r.status ≡ true
      → Working cfg m sys sys'
      → IsValid sys.tasks
      → Holds key r sys.tasks
      → Holds key r sys'.tasks
  Working-Holds key r settled (idle sys) v h = h
  Working-Holds key r settled (then_works {sys = sys} {sys' = mid} past w) v h =
      let a = Work-Acts cfg m w in
      rw (a.queue.ends) (
        run-Holds key r mid.tasks a.queue.calls settled (Working-IsValid past v) a.queue.within
          (Working-Holds key r settled past v h))
    where
      Working-IsValid : {s t : System} → Working cfg m s t → IsValid s.tasks → IsValid t.tasks
      Working-IsValid (idle s) v = v
      Working-IsValid (then_works {sys' = t} past w) v =
          let a = Work-Acts cfg m w in
          rw (a.queue.ends) (run-IsValid t.tasks a.queue.calls (Working-IsValid past v))
