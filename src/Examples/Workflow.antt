-- ===== src/Examples/Workflow.antt =====
-- A ticket whose draft asks for a refund, from its start to the approval and on to the finalizer.
use ticket_graph.Prelude.{ℕ, ◌<◌, ◌≡◌, refl, true, some, [], ◌∷◌, length, nat_eq, string_eq}
use ticket_graph.Json.{obj, str, field, end, get, lookup}
use ticket_graph.Models.{classifying}
use ticket_graph.Models.Plain.{plain}
use ticket_graph.Workflows.{Config}
use ticket_graph.TaskQueue.{TaskTable, enqueue, new_row, cancel_pending}
use ticket_graph.Sql.{exists_where, update_where, updated, select_where}
use ticket_graph.Graph.Bound.{Resumption, resume_all, resume_all_bound}
use ticket_graph.TaskQueue.Calls.{empty}
use ticket_graph.Graph.Drive.{
  Node, Thread, parked, start, resume, initial, await_classify, drive, run_node, edge,
}
use ticket_graph.Graph.Nodes
use ticket_graph.Examples.Effects.{ticket}
use ticket_graph.Graph.Dispatch.{
  second_envelope, redispatch_agent_task, enqueue_task, is_timeout, primary_envelope, primary_task,
  await_agent_task, enqueue_agent_task,
}
use ticket_graph.Graph.Payloads.{classify_payload}

abbrev pub config : Config
config = record {
  task_queue = "ticketflow";
  agent_task_queue = "agent";
  fallback_task_queue = "fallback";
  agent_schedule_to_start = 30;
}

abbrev pub clock : Node → ℕ
clock n = 100

-- Where a new thread stops: at `await_classify`, with one task on the queue.
abbrev first_thread : Thread
first_thread = record {
  state = record (initial ticket) { status = some classifying; wakeup_at = some 130 };
  node = await_classify;
  resumes = [];
  envelope = primary_envelope config "t:classify" "classify" "t" (some 130);
}

abbrev first_tasks : TaskTable
first_tasks =
    (enqueue 100 (primary_task config "classify" "t" (classify_payload plain ticket)) empty).1

starts : start config plain clock ticket empty ≡ some (parked first_thread, first_tasks)
unfolding start drive run_node Nodes.dispatch_classify Nodes.await_classify await_agent_task
    enqueue_agent_task edge
starts = refl

-- The schedule-to-start timer goes off, and the task is handed to the fallback queue.
abbrev timed_out : Resumption
timed_out = record {
  value = obj (field "kind" (str "timeout") end);
  at = clock;
  tasks = first_tasks;
}

abbrev second_thread : Thread
second_thread = record first_thread {
  resumes = timed_out.value ∷ [];
  envelope = second_envelope config "t:classify" "classify" "t" true;
}

parks_again : resume_all config plain first_thread (timed_out ∷ []) ≡ some second_thread
unfolding resume_all resume drive run_node Nodes.await_classify await_agent_task
    redispatch_agent_task enqueue_task is_timeout get lookup edge enqueue new_row cancel_pending
    exists_where update_where updated select_where
parks_again = refl

resume_all_bound_example : length (timed_out ∷ []) < 6
resume_all_bound_example =
    resume_all_bound config plain clock ticket empty first_tasks first_thread second_thread
      (timed_out ∷ []) starts parks_again
