-- ===== src/Processes/Acts.antt =====
-- What starting and resuming graphs does to the task queue and the runs, in calls of TaskQueue/Calls
-- and Runs/Calls.
use mathlib.Core.Path.{subst}
use ticket_graph.Prelude.{
  ℕ, String, inl, inr, Bool, Option, none, some, Option-cases, nat_eq, string_eq, Trace-impl,
}
use ticket_graph.Result.{Result, ok, err}
use ticket_graph.Workflows.{Config}
use ticket_graph.Models.{Ticket, TicketStatus}
use ticket_graph.Models.Codec.{Pydantic}
use ticket_graph.TaskQueue.{TaskTable}
use ticket_graph.TaskQueue.Calls.{
  Call, Keeps, enqueues, cancels, dequeues, completes, fails, reclaims as reclaims_tasks, prunes,
}
use ticket_graph.TaskQueue.Traces.{QueueTrace, trace_none, trace_then}
use ticket_graph.Graph.Calling.{IsGraphCall, GraphTrace}
use ticket_graph.Graph.Traced.{LeavesTraced, start-Traced, resume-Traced}
use ticket_graph.Graph.Drive.{Node, Stop, Thread, start, resume}
use ticket_graph.Runs.{WorkflowRun, claim_run, acreate_run}
use ticket_graph.Runs.Calls.{claims, saves, creates as creates_run, step as run_step}
use ticket_graph.Runs.Traces.{IsLasting, RunTrace, runs_none, runs_one, runs_then}
use ticket_graph.Runner.{System, ResumeValue, resume_for_run}
use ticket_graph.Runner.Step.{
  stop_status, pending, step, act_on, advance, release, save_output, get_state,
}
use ticket_graph.Api.{stop_wakeup, new_ticket, CreateTicketRequest, create_ticket, seed, recorded}

-- The queue and the runs of `sys'` are what such calls make of those of `sys`; nothing is pruned or
-- archived by them.
pub record Acts (sys sys' : System) : Type 0 where
  pub queue : QueueTrace Keeps sys.tasks sys'.tasks
  pub store : RunTrace IsLasting sys.store sys'.store

Keeps_of_IsGraphCall : (c : Call) → IsGraphCall c → Keeps c
Keeps_of_IsGraphCall (enqueues now task) h = tt
Keeps_of_IsGraphCall (cancels key reason) h = tt
Keeps_of_IsGraphCall (dequeues locked queue worker now) h = absurd h
Keeps_of_IsGraphCall (completes i result) h = absurd h
Keeps_of_IsGraphCall (fails i error permanent now) h = absurd h
Keeps_of_IsGraphCall (reclaims_tasks now) h = absurd h
Keeps_of_IsGraphCall (prunes age now) h = absurd h

kept : {t t' : TaskTable} → GraphTrace t t' → QueueTrace Keeps t t'
kept a = Trace-impl Keeps Keeps_of_IsGraphCall a

module _ {s t u : System} where
  pub Acts-trans : Acts s t → Acts t u → Acts s u
  Acts-trans a b = record { queue = trace_then a.queue b.queue; store = runs_then a.store b.store }

-- what an operation that may run out of fuel leaves
abbrev pub LeavesActs : {X : Type 0} → System → Option (X × System) → Type 0
LeavesActs sys none = Unit
LeavesActs sys (some (x, sys')) = Acts sys sys'

acted :
    {X : Type 0} {s t : System}
    → Acts s t
    → (o : Option (X × System)) → LeavesActs t o
    → LeavesActs s o
acted a none b = tt
acted a (some (x, u)) b = Acts-trans a b

module _ (cfg : Config) (m : Pydantic) (at : Node → ℕ) where
  recorded-Acts :
      (id : String) (now : ℕ) (status : Result TicketStatus) (stop : Stop) (sys : System)
      → Acts sys (recorded id now status stop sys).1
  recorded-Acts id now (err e) stop sys = record {
    queue = trace_none sys.tasks;
    store = runs_none sys.store;
  }
  recorded-Acts id now (ok status) stop sys = record {
    queue = trace_none sys.tasks;
    store =
        unfold run_step acreate_run in
        runs_one sys.store (creates_run id status (stop_wakeup stop) now) tt;
  }

  seed-Acts : (ticket : Ticket) (sys : System) → LeavesActs sys (seed cfg m at ticket sys)
  unfolding seed
  seed-Acts ticket sys = elim (Option-cases (start cfg m at ticket sys.tasks)) [
    | inl e ↦ rw (e, seed) tt
    | inr ((stop, tasks), e) ↦
        rw (e, seed)
          record {
            queue =
                kept (subst (LeavesTraced sys.tasks) e (start-Traced cfg m at ticket sys.tasks));
            store = runs_none sys.store;
          }
  ]

  pub create_ticket-Acts :
      (id : String) (request : CreateTicketRequest) (now : ℕ) (sys : System)
      → LeavesActs sys (create_ticket cfg m at id request now sys)
  unfolding create_ticket
  create_ticket-Acts id request now sys =
      elim (Option-cases (seed cfg m at (new_ticket id request) sys)) [
        | inl e ↦ rw (e, create_ticket) tt
        | inr ((stop, sys'), e) ↦
            rw (e, create_ticket)
              (Acts-trans (subst (LeavesActs sys) e (seed-Acts (new_ticket id request) sys))
                (recorded-Acts id now (stop_status stop) stop sys'))
      ]

  save_output-Acts :
      (ticket_id : String) (value : ResumeValue) (now : ℕ) (status : Result TicketStatus)
      (wakeup : Result (Option ℕ)) (sys : System)
      → Acts sys (save_output ticket_id value now status wakeup sys).1
  unfolding save_output
  save_output-Acts ticket_id value now (err e) wakeup sys = record {
    queue = trace_none sys.tasks;
    store = runs_none sys.store;
  }
  save_output-Acts ticket_id value now (ok status) (err e) sys = record {
    queue = trace_none sys.tasks;
    store = runs_none sys.store;
  }
  save_output-Acts ticket_id value now (ok status) (ok wakeup) sys = record {
    queue = trace_none sys.tasks;
    store =
        unfold run_step in
        runs_one sys.store (saves ticket_id status wakeup value.consumed_signal_id now) tt;
  }

  advance-Acts :
      (ticket_id : String) (th : Thread) (value : ResumeValue) (now : ℕ) (sys : System)
      → LeavesActs sys (advance cfg m at ticket_id th value now sys)
  unfolding advance
  advance-Acts ticket_id th value now sys =
      elim (Option-cases (resume cfg m at th value.payload sys.tasks)) [
        | inl e ↦ rw (e, advance) tt
        | inr ((stop, tasks), e) ↦
            rw (e, advance)
              (Acts-trans
                (record {
                  queue = kept (
                      subst (LeavesTraced sys.tasks) e
                        (resume-Traced cfg m at th value.payload sys.tasks));
                  store = runs_none sys.store;
                })
                (save_output-Acts ticket_id value now _ _ _))
      ]

  release-Acts :
      (run : WorkflowRun) (now : ℕ) (sys : System) → Acts sys (release cfg m at run now sys).1
  unfolding release
  release-Acts run now sys = record {
    queue = trace_none sys.tasks;
    store =
        unfold run_step in
        runs_one sys.store (saves run.ticket_id run.status run.wakeup_at none now) tt;
  }

  act_on-Acts :
      (run : WorkflowRun) (th : Option Thread) (now : ℕ) (sys : System)
      → LeavesActs sys (act_on cfg m at run th now sys)
  unfolding act_on
  act_on-Acts run none now sys = release-Acts run now sys
  act_on-Acts run (some th) now sys =
      elim (Option-cases
        (resume_for_run th.envelope run.wakeup_at sys.store.signals sys.tasks.rows)) [
          | inl e ↦ rw (e, act_on) (release-Acts run now sys)
          | inr (value, e) ↦ rw (e, act_on) (advance-Acts run.ticket_id th value now sys)
        ]

  pub step-Acts :
      (locked : String → Bool) (worker : String) (claimed_at now : ℕ) (sys : System)
      → LeavesActs sys (step cfg m at locked worker claimed_at now sys)
  unfolding step
  step-Acts locked worker claimed_at now sys =
      let sys' = record sys { store = (claim_run locked worker claimed_at sys.store).1 } in
      let first : Acts sys sys' = record {
        queue = trace_none sys.tasks;
        store = unfold run_step in runs_one sys.store (claims locked worker claimed_at) tt;
      } in
      elim (Option-cases (claim_run locked worker claimed_at sys.store).0) [
        | inl e ↦ rw (e, step) first
        | inr (run, e) ↦
            rw (e, step)
              (acted first (act_on cfg m at run (pending (get_state run.ticket_id sys)) now sys')
                (act_on-Acts run (pending (get_state run.ticket_id sys)) now sys'))
      ]
