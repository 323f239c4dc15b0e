-- ===== src/Worker/Wakes.antt =====
-- After a worker's round its task is not leased any more, and a settled task has woken its run.
use ticket_graph.Prelude.{
  ℕ, String, ◌≡◌, ◌⊎◌, Bool, true, false, some, List, All, nat_eq, string_eq,
}
use ticket_graph.Json.{Json}
use ticket_graph.Result.{Result, ok, err, cancelled_error}
use ticket_graph.Sql.{exists_where}
use ticket_graph.Runs.{WorkflowRun, is_run}
use ticket_graph.TaskQueue.{QueuedTask, TaskTable, has_id, leased_id, is_leased, is_settled}
use ticket_graph.Runner.{System}
use ticket_graph.Worker.{is_cancelled}

-- The rows of the task's id are `r` alone, of which there is one.
abbrev Alone : QueuedTask → TaskTable → Type 0
Alone r t =
    (exists_where (has_id r.id) t.rows ≡ true) × All (λ x. has_id r.id x ≡ true → x ≡ r) t.rows

abbrev was_cancelled : Result Json → Bool
was_cancelled (ok result) = false
was_cancelled (err e) = is_cancelled e

abbrev pub AllWoken : String → ℕ → List WorkflowRun → Type 0
AllWoken ticket_id now rows = All (λ r. is_run ticket_id r ≡ true → r.wakeup_at ≡ some now) rows

-- How a round leaves its task: with an outcome or to be tried again, and once settled it has woken
-- its workflow.
abbrev pub Ended : QueuedTask → ℕ → System → Type 0
Ended task woken_at sys =
    All
      (λ r.
        has_id task.id r ≡ true
        → (is_leased r.status ≡ false)
          × (is_settled r.status ≡ true → AllWoken task.workflow_id woken_at sys.store.runs))
      sys.tasks.rows

-- How a round ends: the task is settled or tried again, or its activity was cancelled, which the
-- round raises too, and the task is left leased.
abbrev pub RoundEnds :
    (QueuedTask → Result Json) → QueuedTask → ℕ → System → Result Bool × System → Type 0
RoundEnds run_activity task woken_at dequeued after =
    ((was_cancelled (run_activity task) ≡ false)
      × (after.0 ≡ ok true)
      × Ended task woken_at after.1)
    ⊎ ((run_activity task ≡ err cancelled_error)
        × (after.0 ≡ err cancelled_error)
        × (after.1 ≡ dequeued)
        × (exists_where (leased_id task.id) after.1.tasks.rows ≡ true))
