-- ===== src/Processes/Authorised.antt =====
-- The safety of refunds in the whole system: whatever the processes do, a refund that a worker pays
-- was approved by a decision that was submitted on its ticket.
use mathlib.Core.Path.{subst}
use ticket_graph.Processes.Graphs.{create_ticket-Proper, step-Proper}
use ticket_graph.Processes.Proper.{
  CheckpointWell, Proper, updated-Authorised, dequeue-Authorised, settled-Proper, LeavesProper,
  SignalWell,
}
use ticket_graph.Prelude.{
  ℕ, String, ◌≡◌, ◌≢◌, inl, inr, Bool, true, some, List, [], ◌∷◌, All, Bool-cases, Option-cases,
  nat_eq, string_eq, map,
}
use ticket_graph.Result.{ok}
use ticket_graph.Workflows.{Config}
use ticket_graph.Models.{ApprovalDecision, awaiting_approval}
use ticket_graph.Models.Codec.{Pydantic}
use ticket_graph.Sql.{select_where, exists_where, delete_where, fetchone, updated}
use ticket_graph.Sql.Laws.{All-delete_where}
use ticket_graph.Sql.Rows.{All-updated_of}
use ticket_graph.TaskQueue.{
  QueuedTask, TaskTable, dequeue, next_due, reclaim_expired, prune_settled, has_id, lease_to,
  expired, reclaimed, prunable,
}
use ticket_graph.Graph.Authority.{RowAuthorised}
use ticket_graph.Graph.Resolution.{AllAuthorised}
use ticket_graph.Ledger.Finalize.{Services, Job, run_finalize, read_job}
use ticket_graph.Ledger.Money.{paid_approved}
use ticket_graph.Runs.{
  archivable, archive_conflict, archive_terminal_runs, reclaim_expired_runs, prune_consumed_signals,
  RunStore,
}
use ticket_graph.Runner.{System, Checkpoint}
use ticket_graph.Runner.Step.{
  is_thread, delete_threads, run_retention, reclaim_expired_leases, reconcile_orphaned_runs,
}
use ticket_graph.Worker.{process_one_task}
use ticket_graph.Api.{submit_approval}
use ticket_graph.Processes.{
  Work, History, creates, decides, runs, works, reclaims, reconciles, begins, continues, retains,
}
use ticket_graph.Processes.Signals.{added-Well, reconciled-Well}

module _ (m : Pydantic) (P : String → ApprovalDecision → Type 0) where
  deleted-Well :
      (ids : List String) (cs : List Checkpoint)
      → All (CheckpointWell m P) cs
      → All (CheckpointWell m P) (delete_threads ids cs)
  unfolding delete_threads
  deleted-Well [] cs h = h
  deleted-Well (i ∷ ids) cs h =
      deleted-Well ids (delete_where (is_thread i) cs)
        (All-delete_where (CheckpointWell m P) (is_thread i) cs h)

  archived-Well :
      (age now : ℕ) (store : RunStore)
      → All (SignalWell m P) store.signals
      → All (SignalWell m P) (archive_terminal_runs age now store).1.signals
  unfolding archive_terminal_runs
  archived-Well age now store h =
      elim (Bool-cases (
        exists_where (archive_conflict store.archive)
          (select_where (archivable age now) store.runs))) [
            | inl conflict ↦ rw (conflict, archive_terminal_runs) h
            | inr fine ↦ rw (fine, archive_terminal_runs) h
          ]

  retention-Proper :
      (age now : ℕ) (sys : System) → Proper m P sys → Proper m P (run_retention age now sys).1
  unfolding run_retention prune_settled archive_terminal_runs prune_consumed_signals
  retention-Proper age now sys a =
      let kept = archived-Well age now sys.store a.signals in
      elim (Bool-cases (
        exists_where (archive_conflict sys.store.archive)
          (select_where (archivable age now) sys.store.runs))) [
            | inl conflict ↦
                rw (conflict, run_retention, archive_terminal_runs)
                  record { tasks = a.tasks; threads = a.threads; signals = kept }
            | inr fine ↦
                rw (fine, run_retention, archive_terminal_runs)
                  record {
                    tasks =
                        All-delete_where (RowAuthorised m P) (prunable age now) sys.tasks.rows
                          a.tasks;
                    threads =
                        deleted-Well
                          (map (λ r. r.ticket_id)
                            (select_where (archivable age now) sys.store.runs))
                          sys.checkpoints a.threads;
                    signals = All-delete_where (SignalWell m P) _ _ kept;
                  }
          ]

-- Every decision that is submitted on a ticket has the property.
abbrev pub Decides :
    {cfg : Config} {m : Pydantic} {sys sys' : System}
    → (String → ApprovalDecision → Type 0)
    → Work cfg m sys sys'
    → Type 0
Decides P (decides ticket_id decision now sys) = P ticket_id decision
Decides P w = Unit

abbrev pub AllDecide :
    {cfg : Config} {m : Pydantic} {sys sys' : System}
    → (String → ApprovalDecision → Type 0)
    → History cfg m sys sys'
    → Type 0
AllDecide P (begins sys) = Unit
AllDecide P (continues h w) = AllDecide P h × Decides P w
AllDecide P (retains age now h) = AllDecide P h

module _ (cfg : Config) (m : Pydantic) (P : String → ApprovalDecision → Type 0) where
  Work-Proper :
      {sys sys' : System} (w : Work cfg m sys sys') → Decides P w → Proper m P sys → Proper m P sys'
  unfolding submit_approval reclaim_expired_leases reconcile_orphaned_runs process_one_task
      reclaim_expired reclaim_expired_runs
  Work-Proper (creates {sys = sys} at id request now e) d a =
      subst (LeavesProper m P) e (create_ticket-Proper cfg m P at id request now sys a)
  Work-Proper (decides ticket_id decision now sys) d a = record {
    tasks = a.tasks;
    threads = a.threads;
    signals = added-Well m P ticket_id decision awaiting_approval now sys.store d a.signals;
  }
  Work-Proper (runs {sys = sys} at locked worker claimed_at now e) d a =
      subst (LeavesProper m P) e (step-Proper cfg m P at locked worker claimed_at now sys a)
  Work-Proper (works describe now woken_at run_activity locked queue worker leased_at sys) d a =
      settled-Proper m P describe now woken_at run_activity
        (dequeue locked queue worker leased_at sys.tasks).0
        (record sys { tasks = (dequeue locked queue worker leased_at sys.tasks).1 })
        record {
          tasks = dequeue-Authorised m P locked queue worker leased_at sys.tasks a.tasks;
          threads = a.threads;
          signals = a.signals;
        }
  Work-Proper (reclaims now sys) d a = record {
    tasks = updated-Authorised m P (expired now) reclaimed sys.tasks (λ r h. h) a.tasks;
    threads = a.threads;
    signals = a.signals;
  }
  Work-Proper (reconciles now sys) d a = record {
    tasks = a.tasks;
    threads = a.threads;
    signals = reconciled-Well m P sys now _ sys.store a.signals;
  }

  pub History-Proper :
      {sys sys' : System} (h : History cfg m sys sys')
      → AllDecide P h
      → Proper m P sys
      → Proper m P sys'
  History-Proper (begins sys) d a = a
  History-Proper (continues h w) (ds, d) a = Work-Proper w d (History-Proper h ds a)
  History-Proper (retains {sys' = mid} age now h) ds a =
      retention-Proper m P age now mid (History-Proper h ds a)

leased-Authorised :
    (m : Pydantic) (P : String → ApprovalDecision → Type 0) (locked : ℕ → Bool)
    (queue worker : String) (now : ℕ) (t : TaskTable) (task : QueuedTask)
    → AllAuthorised m P t
    → (dequeue locked queue worker now t).0 ≡ some task
    → RowAuthorised m P task
unfolding dequeue
leased-Authorised m P locked queue worker now t task a e =
    elim (Option-cases (next_due locked queue now t)) [
      | inl none_due ↦ absurd (cc (rw (none_due, dequeue) at e))
      | inr (c, due) ↦
          first (updated (has_id c.id) (lease_to worker now) t.rows)
            (All-updated_of (has_id c.id) (lease_to worker now) (RowAuthorised m P) t.rows
              (λ r h. h) a)
            (rw (due, dequeue) at e)
    ]
  where
    first :
        (rows : List QueuedTask)
        → All (RowAuthorised m P) rows
        → fetchone rows ≡ some task
        → RowAuthorised m P task
    first [] h f = absurd cc
    first (r ∷ rows) h f = let same : r ≡ task = cc in subst (RowAuthorised m P) same h.0

-- Let `P` be any property of decisions on tickets that every decision submitted in a history has
-- (that it was submitted by a particular call, for example), and let the history start with a
-- proper system (as an empty one is): where the delivery of a finalize task that a worker leases
-- from the queue changes what has been paid out, there is a decision that approves, and that has
-- `P` on the ticket of the task. So with no submitted decision on a ticket (`P` nowhere true of it)
-- nothing is paid for it.
pub History-paid :
    (cfg : Config) (m : Pydantic) (P : String → ApprovalDecision → Type 0) {sys sys' : System}
    (locked : ℕ → Bool) (queue worker : String) (leased_at now : ℕ) (task : QueuedTask) (job : Job)
    (s : Services) (h : History cfg m sys sys')
    → AllDecide P h
    → Proper m P sys
    → (dequeue locked queue worker leased_at sys'.tasks).0 ≡ some task
    → task.task_type ≡ "finalize_ticket"
    → read_job m task ≡ ok job
    → (run_finalize m now task s).1.paid ≢ s.paid
    → (d : ApprovalDecision) × P job.ticket.id d × (d.approved ≡ true)
History-paid cfg m P {sys' = sys'} locked queue worker leased_at now task job s h ds p got type read
      moved =
    let a =
      leased-Authorised m P locked queue worker leased_at sys'.tasks task
        (History-Proper cfg m P h ds p).tasks got type in
    paid_approved m P task job read a now s moved
