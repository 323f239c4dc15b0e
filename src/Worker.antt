-- ===== src/Worker.antt =====
-- `process_one_task` of src/ticketflow/agent_worker.py, which the primary, the fallback and the
-- side-effect worker share: a task is leased, its activity run, the outcome stored, and the run
-- woken if the task is settled.
pub mod Wakes
pub mod Bucket
pub mod Loop
use ticket_graph.Prelude.{
  ℕ, zero, suc, ◌+◌, ◌-◌, ◌*◌, ◌/◌, ◌%◌, ◌^◌, ◌≤◌, ◌<◌, String, ◌≡◌, refl, sym, ap, ◌∙◌, ◌≢◌, ◌↔◌,
  ◌⊎◌, inl, inr, Bool, true, false, not, ◌&&◌, ◌||◌, Option, none, some, List, [], ◌∷◌, ◌++◌, arith,
  All, All-append, All-impl, All-intro, All-zip, Distinct, Distinct-unique, length, ltb, leb,
  if◌then◌else◌, Bool-cases, Option-cases, is_some, some_of, Eq, ◌==◌, nat_eq, string_eq, ==_iff,
  ==_refl, ne_of_==, text_le, text_le_antisym, text_le_total, text_order, Order, sort_by, insert_by,
  IsSorted, sort_by-IsSorted, sort_by_sorted, All-sort_by, map, length-insert, Trace, Trace-trans,
  Trace-impl,
}
use ticket_graph.Json.{Json}
use ticket_graph.Result.{Result, ok, err, Error, agent_permanent, cancelled_error}
use ticket_graph.TaskQueue.{
  TaskStatus, QueuedTask, TaskTable, done, failed, dequeue, complete, fail,
}
use ticket_graph.Runs.{RunStore, wake_run}
use ticket_graph.Runner.{System}

-- `status == "done"` and `status == "failed"` of a returned status
abbrev pub was_done : Option TaskStatus → Bool
was_done (some done) = true
was_done _ = false

abbrev pub was_failed : Option TaskStatus → Bool
was_failed (some failed) = true
was_failed _ = false

-- `except AgentPermanentError`
abbrev pub is_permanent : Error → Bool
is_permanent (agent_permanent text) = true
is_permanent _ = false

-- `except Exception`, which is all but `asyncio.CancelledError` here
abbrev pub is_cancelled : Error → Bool
is_cancelled cancelled_error = true
is_cancelled _ = false

-- What a worker's round returns, or raises, of an activity's outcome.
abbrev pub processed : Result Json → Result Bool
processed (err e) = if is_cancelled e then err e else ok true
processed (ok result) = ok true

abbrev pub wake_if : Bool → String → ℕ → RunStore → RunStore
wake_if true workflow_id now s = wake_run workflow_id now s
wake_if false workflow_id now s = s

-- `describe` is `str(exc)`. A cancelled activity leaves its task leased. The outcome is stored at `now`, and the run woken at `woken_at`.
module _ (describe : Error → String) (now woken_at : ℕ) where
  unfoldable pub settle : QueuedTask → Result Json → System → System
  settle task (err e) sys =
      let (status, tasks) = fail task.id (describe e) (is_permanent e) now sys.tasks in
      if is_cancelled e then sys else record sys {
        tasks = tasks;
        store = wake_if (was_failed status) task.workflow_id woken_at sys.store;
      }
  settle task (ok result) sys =
      let (status, tasks) = complete task.id result sys.tasks in
      record sys {
        tasks = tasks;
        store = wake_if (was_done status) task.workflow_id woken_at sys.store;
      }

  abbrev pub settle_leased :
      (QueuedTask → Result Json) → Option QueuedTask → System → Result Bool × System
  settle_leased run_activity none sys = (ok false, sys)
  settle_leased run_activity (some task) sys =
      (processed (run_activity task), settle task (run_activity task) sys)

  unfoldable pub process_one_task :
      (QueuedTask → Result Json) → (ℕ → Bool) → String → String → ℕ → System → Result Bool × System
  unfolding settle
  process_one_task run_activity locked queue worker leased_at sys =
      let (got, tasks) = dequeue locked queue worker leased_at sys.tasks in
      settle_leased run_activity got (record sys { tasks = tasks })
