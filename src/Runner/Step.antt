-- ===== src/Runner/Step.antt =====
-- `step`, the orphan reconciler, the janitor and retention of src/ticketflow/runner.py, over the
-- shared database and the checkpoints. A call that raises leaves the runner (`err`) with what had
-- been committed; what LangGraph keeps of the nodes before the one that raised is left out.
use ticket_graph.Prelude.{
  ℕ, suc, String, Bool, true, false, Option, none, some, List, [], ◌∷◌, length, ◌==◌, nat_eq,
  string_eq, map,
}
use ticket_graph.Json.{obj}
use ticket_graph.Result.{Result, ok, err, key_error}
use ticket_graph.Workflows.{Config}
use ticket_graph.Models.{TicketStatus}
use ticket_graph.Models.Codec.{Pydantic}
use ticket_graph.TaskQueue.{reclaim_expired, prune_settled}
use ticket_graph.Graph.Drive.{Node, Thread, Stop, parked, ended, crashed, resume}
use ticket_graph.Runner.{ResumeValue, Checkpoint, System, resume_for_run, next_wakeup_at}
use ticket_graph.Runs.{
  RunStore, WorkflowRun, claim_run, save_run, create_run, reclaim_expired_runs,
  archive_terminal_runs, prune_consumed_signals, list_orphaned_checkpoint_threads,
}
use ticket_graph.Sql.{select_where, update_where, delete_where, fetchone}

abbrev pub is_thread : String → Checkpoint → Bool
is_thread ticket_id c = c.thread_id == ticket_id

-- `compiled.aget_state(_thread_config(ticket_id))`
unfoldable pub get_state : String → System → Option Checkpoint
get_state ticket_id sys = fetchone (select_where (is_thread ticket_id) sys.checkpoints)

abbrev pub envelope_of : Option Thread → Option Thread
envelope_of none = none
envelope_of (some th) = elim th.envelope [ obj _ ↦ some th | _ ↦ none ]

-- The suspended thread whose envelope `_pending_envelope` returns: the one interrupt's value, if it
-- is a dict.
unfoldable pub pending : Option Checkpoint → Option Thread
pending none = none
pending (some c) = envelope_of c.suspended

-- what a call of `ainvoke` leaves in the thread's checkpoint
abbrev pub checkpointed : Stop → Checkpoint → Checkpoint
checkpointed (parked th) c = record c {
  materialized = true;
  values = th.state;
  suspended = some th;
}
checkpointed (ended state) c = record c { materialized = true; values = state; suspended = none }
checkpointed (crashed e) c = c

abbrev pub stop_status : Stop → Result TicketStatus
stop_status (parked th) = elim th.state.status [ none ↦ err key_error | some s ↦ ok s ]
stop_status (ended state) = elim state.status [ none ↦ err key_error | some s ↦ ok s ]
stop_status (crashed e) = err e

-- The last transaction of a step: the output of the graph is saved and the lease released.
unfoldable pub save_output :
    String
    → ResumeValue
    → ℕ
    → Result TicketStatus
    → Result (Option ℕ)
    → System
    → Result Bool × System
save_output ticket_id value now (err e) wakeup sys = (err e, sys)
save_output ticket_id value now (ok status) (err e) sys = (err e, sys)
save_output ticket_id value now (ok status) (ok wakeup) sys = (
  ok true,
  record sys { store = save_run ticket_id status wakeup value.consumed_signal_id now sys.store },
)

module _ (cfg : Config) (m : Pydantic) (at : Node → ℕ) where
  -- `ainvoke(Command(resume=resume.payload), cfg)` and `save_run` of its output
  unfoldable pub advance :
      String → Thread → ResumeValue → ℕ → System → Option (Result Bool × System)
  unfolding save_output next_wakeup_at
  advance ticket_id th value now sys = elim (resume cfg m at th value.payload sys.tasks) [
    | none ↦ none
    | some (stop, tasks) ↦ some (
        save_output ticket_id value now (stop_status stop) (next_wakeup_at stop) (record sys {
          tasks = tasks;
          checkpoints = update_where (is_thread ticket_id) (checkpointed stop) sys.checkpoints;
        }))
  ]

  -- The run is not actionable yet: its lease is released, the rest is left.
  unfoldable pub release : WorkflowRun → ℕ → System → Result Bool × System
  release run now sys = (
    ok false,
    record sys { store = save_run run.ticket_id run.status run.wakeup_at none now sys.store },
  )

  unfoldable pub act_on : WorkflowRun → Option Thread → ℕ → System → Option (Result Bool × System)
  unfolding advance release
  act_on run none now sys = some (release run now sys)
  act_on run (some th) now sys =
      elim (resume_for_run th.envelope run.wakeup_at sys.store.signals sys.tasks.rows) [
        | none ↦ some (release run now sys)
        | some value ↦ advance run.ticket_id th value now sys
      ]

  -- The run is claimed at `claimed_at`, and saved at `now`.
  unfoldable pub step : (String → Bool) → String → ℕ → ℕ → System → Option (Result Bool × System)
  unfolding act_on get_state pending
  step locked worker claimed_at now sys =
      let (claimed, store) = claim_run locked worker claimed_at sys.store in
      let sys' = record sys { store = store } in
      elim claimed [
        | none ↦ some (ok false, sys')
        | some run ↦ act_on run (pending (get_state run.ticket_id sys)) now sys'
      ]

abbrev pub thread_ids : List Checkpoint → List String
thread_ids cs = map (λ c. c.thread_id) cs

abbrev add_run : String → Option TicketStatus → Option ℕ → ℕ → RunStore → Result RunStore
add_run ticket_id none wakeup_at now s = err key_error
add_run ticket_id (some status) wakeup_at now s = ok (create_run ticket_id status wakeup_at now s)

abbrev pub counted : Result ℕ → Result ℕ
counted (ok n) = ok (suc n)
counted (err e) = err e

-- The loop of `reconcile_orphaned_runs`, which skips the threads without values, and counts the runs
-- it creates.
unfoldable pub reconcile_threads : System → ℕ → List String → RunStore → Result ℕ × RunStore
unfolding get_state
reconcile_threads sys now [] s = (ok 0, s)
reconcile_threads sys now (ticket_id ∷ rest) s = elim (get_state ticket_id sys) [
  | none ↦ reconcile_threads sys now rest s
  | some c ↦ elim c.materialized [
    | false ↦ reconcile_threads sys now rest s
    | true ↦ elim (add_run ticket_id c.values.status c.values.wakeup_at now s) [
      | err e ↦ (err e, s)
      | ok s' ↦ let (n, s'') = reconcile_threads sys now rest s' in (counted n, s'')
    ]
  ]
]

unfoldable pub reconcile_orphaned_runs : ℕ → System → Result ℕ × System
unfolding reconcile_threads list_orphaned_checkpoint_threads
reconcile_orphaned_runs now sys =
    let orphaned = list_orphaned_checkpoint_threads (thread_ids sys.checkpoints) sys.store in
    let (n, store) = reconcile_threads sys now orphaned sys.store in
    (n, record sys { store = store })

-- The two transactions of the janitor; the counts are those of `JanitorResult`.
unfoldable pub reclaim_expired_leases : ℕ → System → (ℕ × ℕ) × System
reclaim_expired_leases now sys =
    let (tasks, table) = reclaim_expired now sys.tasks in
    let (runs, store) = reclaim_expired_runs now sys.store in
    ((tasks, runs), record sys { tasks = table; store = store })

-- `checkpointer.adelete_thread` for each archived run
unfoldable pub delete_threads : List String → List Checkpoint → List Checkpoint
delete_threads [] cs = cs
delete_threads (ticket_id ∷ rest) cs = delete_threads rest (delete_where (is_thread ticket_id) cs)

-- the counts of `RetentionResult`
pub record RetentionResult : Type 0 where
  pub runs : ℕ
  pub checkpoint_threads : ℕ
  pub signals : ℕ
  pub tasks : ℕ

unfoldable pub run_retention : ℕ → ℕ → System → Result RetentionResult × System
unfolding delete_threads
run_retention age now sys =
    let (moved, store) = archive_terminal_runs age now sys.store in
    elim moved [
      | err e ↦ (err e, record sys { store = store })
      | ok ids ↦
          let (signals, store') = prune_consumed_signals age now store in
          let (tasks, table) = prune_settled age now sys.tasks in
          (
            ok record {
              runs = length ids;
              checkpoint_threads = length ids;
              signals = signals;
              tasks = tasks;
            },
            record {
              store = store';
              tasks = table;
              checkpoints = delete_threads ids sys.checkpoints;
            },
          )
    ]
