-- ===== src/TaskQueue/Calls.antt =====
-- The calls that the processes make on the task queue, as a language of steps: an interleaving of
-- workers, runner, API and janitor is a list of calls, each with the clock that it reads.
use ticket_graph.Prelude.{ℕ, Bool, String, List, [], ◌∷◌}
use ticket_graph.Json.{Json}
use ticket_graph.TaskQueue.{
  TaskTable, NewTask, enqueue, cancel_pending, dequeue, complete, fail, reclaim_expired,
  prune_settled,
}

pub data Call : Type 0 where
  enqueues : ℕ → NewTask → Call
  cancels : String → String → Call
  dequeues : (ℕ → Bool) → String → String → ℕ → Call
  completes : ℕ → Json → Call
  fails : ℕ → String → Bool → ℕ → Call
  reclaims : ℕ → Call
  prunes : ℕ → ℕ → Call

unfoldable pub step : TaskTable → Call → TaskTable
step t (enqueues now task) = (enqueue now task t).1
step t (cancels key reason) = (cancel_pending key reason t).1
step t (dequeues locked queue worker now) = (dequeue locked queue worker now t).1
step t (completes i result) = (complete i result t).1
step t (fails i error permanent now) = (fail i error permanent now t).1
step t (reclaims now) = (reclaim_expired now t).1
step t (prunes age now) = (prune_settled age now t).1

unfoldable pub run : TaskTable → List Call → TaskTable
run t [] = t
run t (c ∷ cs) = run (step t c) cs

abbrev pub empty : TaskTable
empty = record { rows = []; next_id = 1 }

-- the calls that delete no row
abbrev pub Keeps : Call → Type 0
Keeps (prunes _ _) = ⊥
Keeps _ = Unit
