-- ===== src/Processes/Graphs.antt =====
-- Starting and resuming graphs keeps the system proper.
use mathlib.Core.Path.{subst}
use ticket_graph.Processes.Proper.{
  SuspendedWell, CheckpointWell, Proper, LeavesProper, checkpoint_of-Well, checkpointed-Well,
  fetched-Well, pending-Well,
}
use ticket_graph.Prelude.{
  ℕ, String, ◌≡◌, inl, inr, Bool, Option, none, some, All-append, Option-cases, nat_eq, string_eq,
}
use ticket_graph.Result.{Result, ok, err}
use ticket_graph.Workflows.{Config}
use ticket_graph.Models.{Ticket, TicketStatus, ApprovalDecision}
use ticket_graph.Models.Codec.{Pydantic}
use ticket_graph.Sql.{update_where}
use ticket_graph.Sql.Laws.{All-update_where}
use ticket_graph.Graph.Entry.{Entry}
use ticket_graph.Graph.Drive.{Node, Stop, Thread, start, resume, await_approval}
use ticket_graph.Graph.Threads.{StopsWell, start-StopsWell, resume-StopsWell}
use ticket_graph.Graph.Resolution.{
  LeavesAuthorised, start-LeavesAuthorised, resume-LeavesAuthorised,
}
use ticket_graph.Runs.{WorkflowRun, claim_run, acreate_run}
use ticket_graph.Runner.{next_wakeup_at, System, ResumeValue, resume_for_run}
use ticket_graph.Runner.Step.{
  step, act_on, advance, release, save_output, get_state, is_thread, pending, checkpointed,
  stop_status,
}
use ticket_graph.Api.{create_ticket, seed, recorded, new_ticket, CreateTicketRequest, stop_wakeup}
use ticket_graph.Graph.Taken.{ThreadTaken, Asks, Brings}
use ticket_graph.Processes.Signals.{claimed-Well, gate-Brings, created-Well, saved-Well}

module _ (cfg : Config) (m : Pydantic) (P : String → ApprovalDecision → Type 0)
    (at : Node → ℕ) where
  recorded-Proper :
      (id : String) (now : ℕ) (status : Result TicketStatus) (stop : Stop) (sys : System)
      → Proper m P sys
      → Proper m P (recorded id now status stop sys).1
  unfolding acreate_run
  recorded-Proper id now (ok status) stop sys a = record {
    tasks = a.tasks;
    threads = a.threads;
    signals = created-Well m P id status (stop_wakeup stop) now sys.store a.signals;
  }
  recorded-Proper id now (err e) stop sys a = a

  seed-Proper :
      (ticket : Ticket) (sys : System)
      → Proper m P sys
      → LeavesProper m P (seed cfg m at ticket sys)
  unfolding seed
  seed-Proper ticket sys a = elim (Option-cases (start cfg m at ticket sys.tasks)) [
    | inl e ↦ rw (e, seed) tt
    | inr ((stop, tasks), e) ↦
        let left : LeavesAuthorised m P (some (stop, tasks)) =
          subst (LeavesAuthorised m P) e
            (start-LeavesAuthorised cfg m P at ticket sys.tasks a.tasks) in
        rw (e, seed)
          record {
            tasks = left.0;
            threads = All-append (CheckpointWell m P) sys.checkpoints _ a.threads (
                checkpoint_of-Well m P ticket.id stop tasks
                  (subst StopsWell e (start-StopsWell cfg m at ticket sys.tasks)) left.1);
            signals = a.signals;
          }
  ]

  pub create_ticket-Proper :
      (id : String) (request : CreateTicketRequest) (now : ℕ) (sys : System)
      → Proper m P sys
      → LeavesProper m P (create_ticket cfg m at id request now sys)
  unfolding create_ticket
  create_ticket-Proper id request now sys a =
      elim (Option-cases (seed cfg m at (new_ticket id request) sys)) [
        | inl e ↦ rw (e, create_ticket) tt
        | inr ((stop, sys'), e) ↦
            rw (e, create_ticket)
              (recorded-Proper id now (stop_status stop) stop sys'
                (subst (LeavesProper m P) e (seed-Proper (new_ticket id request) sys a)))
      ]

  save_output-Proper :
      (ticket_id : String) (value : ResumeValue) (now : ℕ) (status : Result TicketStatus)
      (wakeup : Result (Option ℕ)) (sys : System)
      → Proper m P sys
      → Proper m P (save_output ticket_id value now status wakeup sys).1
  unfolding save_output
  save_output-Proper ticket_id value now (err e) wakeup sys a = a
  save_output-Proper ticket_id value now (ok status) (err e) sys a = a
  save_output-Proper ticket_id value now (ok status) (ok wakeup) sys a = record {
    tasks = a.tasks;
    threads = a.threads;
    signals =
        saved-Well m P ticket_id status wakeup value.consumed_signal_id now sys.store a.signals;
  }

  advance-Proper :
      (ticket_id : String) (th : Thread) (value : ResumeValue) (now : ℕ) (sys : System)
      → Entry th.node th.state
      → ThreadTaken m P th
      → (th.node ≡ await_approval → Brings m P th.state value.payload)
      → Proper m P sys
      → LeavesProper m P (advance cfg m at ticket_id th value now sys)
  unfolding advance
  advance-Proper ticket_id th value now sys h taken brings a =
      elim (Option-cases (resume cfg m at th value.payload sys.tasks)) [
        | inl e ↦ rw (e, advance) tt
        | inr ((stop, tasks), e) ↦
            let well : StopsWell (some (stop, tasks)) =
              subst StopsWell e (resume-StopsWell cfg m at th value.payload sys.tasks h) in
            let sys' = record sys {
              tasks = tasks;
              checkpoints = update_where (is_thread ticket_id) (checkpointed stop) sys.checkpoints;
            } in
            let left : LeavesAuthorised m P (some (stop, tasks)) = subst (LeavesAuthorised m P) e (
              resume-LeavesAuthorised cfg m P at th value.payload sys.tasks h taken brings
                a.tasks) in
            rw (e, advance)
              (save_output-Proper ticket_id value now (stop_status stop) (next_wakeup_at stop) sys'
                record {
                  tasks = left.0;
                  threads =
                      All-update_where (CheckpointWell m P) (is_thread ticket_id)
                        (checkpointed stop) sys.checkpoints
                        (λ c _ w. checkpointed-Well m P stop tasks c well left.1 w) a.threads;
                  signals = a.signals;
                })
      ]

  release-Proper :
      (run : WorkflowRun) (now : ℕ) (sys : System)
      → Proper m P sys
      → Proper m P (release cfg m at run now sys).1
  unfolding release
  release-Proper run now sys a = record {
    tasks = a.tasks;
    threads = a.threads;
    signals = saved-Well m P run.ticket_id run.status run.wakeup_at none now sys.store a.signals;
  }

  act_on-Proper :
      (run : WorkflowRun) (th : Option Thread) (now : ℕ) (sys : System)
      → SuspendedWell m P th
      → Proper m P sys
      → LeavesProper m P (act_on cfg m at run th now sys)
  unfolding act_on
  act_on-Proper run none now sys h a = release-Proper run now sys a
  act_on-Proper run (some th) now sys (h, taken) a =
      elim (Option-cases
        (resume_for_run th.envelope run.wakeup_at sys.store.signals sys.tasks.rows)) [
          | inl e ↦ rw (e, act_on) (release-Proper run now sys a)
          | inr (value, e) ↦
              rw (e, act_on)
                (advance-Proper run.ticket_id th value now sys h taken
                  (λ gate.
                    gate-Brings m P th.state th.envelope run.wakeup_at sys.store.signals
                      sys.tasks.rows value (subst (λ n. Asks m n th.state th.envelope) gate taken.2)
                      a.signals e)
                  a)
        ]

  pub step-Proper :
      (locked : String → Bool) (worker : String) (claimed_at now : ℕ) (sys : System)
      → Proper m P sys
      → LeavesProper m P (step cfg m at locked worker claimed_at now sys)
  unfolding step
  step-Proper locked worker claimed_at now sys a =
      let sys' = record sys { store = (claim_run locked worker claimed_at sys.store).1 } in
      let first : Proper m P sys' = record {
        tasks = a.tasks;
        threads = a.threads;
        signals = claimed-Well m P locked worker claimed_at sys.store a.signals;
      } in
      elim (Option-cases (claim_run locked worker claimed_at sys.store).0) [
        | inl e ↦ rw (e, step) first
        | inr (run, e) ↦
            rw (e, step)
              (act_on-Proper run (pending (get_state run.ticket_id sys)) now sys'
                (pending-Well m P (get_state run.ticket_id sys) (λ c got.
                  fetched-Well m P (is_thread run.ticket_id) sys.checkpoints c a.threads
                    (unfold get_state in got)))
                first)
      ]
