-- ===== src/Graph/Dispatch.antt =====
-- The state of src/ticketflow/graph.py, and the helpers of `build_ticket_graph` by which its nodes
-- dispatch a task to the queue and wait for its result. The branch on `async_pool` chooses the connection; both branches run the same statements. `now` is the database
-- clock when the node runs.
use ticket_graph.Prelude.{
  ℕ, ◌+◌, String, Bool, true, false, Option, none, some, if◌then◌else◌, ◌==◌, nat_eq, string_eq,
}
use Prim.Native.String.{◌++◌ as ◌<>◌}
use ticket_graph.Json.{Json, get, null, num, str, obj, end, field, Fields}
use ticket_graph.Result.{assertion_error}
use ticket_graph.Models.{
  Ticket, Classification, DraftReply, ApprovalDecision, TicketResult, TicketStatus, general,
  reply_only,
}
use ticket_graph.TaskQueue.{NewTask, enqueue, cancel_pending}
use ticket_graph.Workflows.{Config, escalation_reply}
use ticket_graph.Graph.Action.{Action, pure, interrupt, require, ◌>>=◌, returned}

pub record TicketState : Type 0 where
  pub ticket : Option Ticket
  pub classification : Option Classification
  pub draft : Option DraftReply
  pub needs_approval : Bool
  pub decision : Option ApprovalDecision
  pub wakeup_at : Option ℕ
  pub status : Option TicketStatus
  pub refund_executed : Bool
  pub result : Option TicketResult

-- `resume.get("kind") == kind` of a dict
abbrev is_kind : String → Option Json → Bool
is_kind kind (some (str k)) = k == kind
is_kind kind _ = false

unfoldable pub is_timeout : Json → Bool
is_timeout resume = is_kind "timeout" (get "kind" resume)

unfoldable pub is_task_failed : Json → Bool
is_task_failed resume = is_kind "task_failed" (get "kind" resume)

abbrev pub failure_classification : Classification
failure_classification = record { category = general; confidence = 0; model = "failed-agent" }

abbrev pub failure_draft : DraftReply
failure_draft = record {
  reply_text = escalation_reply;
  action = record { type = reply_only; refund_amount = none };
  confidence = 0;
  model = "failed-agent";
}

-- `wakeup_at.isoformat() if wakeup_at else None`
abbrev pub iso : Option ℕ → Json
iso none = null
iso (some t) = num t

abbrev agent_envelope : String → String → String → String → Fields → Json
agent_envelope key task_type workflow_id queue rest = obj (
    field "idempotency_key" (str key) (
      field "task_type" (str task_type)
        (field "workflow_id" (str workflow_id) (field "queue" (str queue) rest))))

-- f"{workflow_id}:{task_type}"
abbrev pub agent_key : String → String → String
agent_key workflow_id task_type = workflow_id <> ":" <> task_type

-- f"{key}:fallback"
abbrev pub fallback_key : String → String
fallback_key key = key <> ":fallback"

abbrev pub primary_task : Config → String → String → Json → NewTask
primary_task cfg task_type workflow_id payload = record {
  queue_name = cfg.agent_task_queue;
  task_type = task_type;
  workflow_id = workflow_id;
  payload = payload;
  idempotency_key = agent_key workflow_id task_type;
  max_attempts = 3;
  available_at = none;
}

abbrev pub fallback_task : Config → String → String → String → Json → NewTask
fallback_task cfg key task_type workflow_id payload = record {
  queue_name = cfg.fallback_task_queue;
  task_type = task_type;
  workflow_id = workflow_id;
  payload = payload;
  idempotency_key = fallback_key key;
  max_attempts = 3;
  available_at = none;
}

abbrev pub primary_envelope : Config → String → String → String → Option ℕ → Json
primary_envelope cfg key task_type workflow_id wakeup_at =
    agent_envelope key task_type workflow_id cfg.agent_task_queue
      (field "wakeup_at" (iso wakeup_at) end)

abbrev pub second_envelope : Config → String → String → String → Bool → Json
second_envelope cfg key task_type workflow_id redispatched =
    if redispatched
    then agent_envelope (fallback_key key) task_type workflow_id cfg.fallback_task_queue end
    else agent_envelope key task_type workflow_id cfg.agent_task_queue end

module _ (cfg : Config) (now : ℕ) where
  -- `db.timestamp_after`
  unfoldable pub timestamp_after : ℕ → ℕ
  timestamp_after delta = now + delta

  abbrev armed : Option ℕ → Option ℕ
  armed none = none
  armed (some delta) = some (timestamp_after delta)

  -- The task is enqueued and the clock read in one transaction.
  unfoldable pub enqueue_task : NewTask → Option ℕ → Action (Option ℕ)
  unfolding timestamp_after
  enqueue_task task wakeup_after w =
      pure (armed wakeup_after) (record w { tasks = (enqueue now task w.tasks).1 })

  unfoldable pub enqueue_agent_task : String → String → Json → Action ℕ
  unfolding enqueue_task
  enqueue_agent_task task_type workflow_id payload = do
    wakeup_at ←
        enqueue_task (primary_task cfg task_type workflow_id payload)
          (some cfg.agent_schedule_to_start)
    require assertion_error wakeup_at

  -- In one transaction: the pending primary task is cancelled, and if there was one the work goes
  -- to the fallback queue.
  unfoldable pub redispatch_agent_task : String → String → String → Json → Action Bool
  unfolding enqueue_task
  redispatch_agent_task key task_type workflow_id payload w =
      let (redispatched, tasks) = cancel_pending key "redispatched to fallback" w.tasks in
      let w' = record w { tasks = tasks } in
      if redispatched
      then (do
        _ ← enqueue_task (fallback_task cfg key task_type workflow_id payload) none
        pure true)
          w'
      else (returned false, w')

  unfoldable pub await_agent_task : String → String → Json → Option ℕ → Action Json
  unfolding redispatch_agent_task
  await_agent_task task_type workflow_id payload wakeup_at =
      let key = agent_key workflow_id task_type in
      do
        resume ← interrupt (primary_envelope cfg key task_type workflow_id wakeup_at)
        if is_timeout resume
            then (do
              redispatched ← redispatch_agent_task key task_type workflow_id payload
              interrupt (second_envelope cfg key task_type workflow_id redispatched))
            else pure resume
