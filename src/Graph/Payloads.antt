-- ===== src/Graph/Payloads.antt =====
-- What the nodes of src/ticketflow/graph.py compute without a database: task payloads, interrupt
-- envelopes, the approval test and the terminal result.
use Prim.Native.String.{◌++◌ as ◌<>◌}
use ticket_graph.Prelude.{ℕ, String, Bool, false, ◌||◌, Option, none, some, ltb, nat_eq, string_eq}
use ticket_graph.Json.{Json, get, null, num, str, obj, end, field}
use ticket_graph.Models.{rejected, escalated}
use ticket_graph.Workflows.{Config, confidence_threshold, rejection_reply, escalation_reply}
use ticket_graph.Graph.Dispatch.{TicketState}
use ticket_graph.Models.Codec.{Pydantic}
use ticket_graph.Models.{
  TicketStatus, DraftReply, Ticket, Classification, is_refund, TicketResult, resolved,
}
use ticket_graph.TaskQueue.{NewTask}

abbrev pub classify_payload : Pydantic → Ticket → Json
classify_payload m ticket = obj (field "ticket" (m.ticket.model_dump ticket) end)

abbrev pub draft_payload : Pydantic → Ticket → Classification → Json
draft_payload m ticket classification = obj (
    field "ticket" (m.ticket.model_dump ticket)
      (field "classification" (m.classification.model_dump classification) end))

abbrev pub or_null : Option Json → Json
or_null none = null
or_null (some j) = j

-- the test of `decide_approval`
abbrev pub approval_needed : DraftReply → Bool
approval_needed reply = is_refund reply.action.type || ltb reply.confidence confidence_threshold

abbrev pub approval_envelope : Pydantic → Ticket → DraftReply → ℕ → Json
approval_envelope m ticket reply wakeup_at = obj (
    field "kind" (str "approval_required") (
      field "ticket_id" (str ticket.id)
        (field "wakeup_at" (num wakeup_at) (field "draft" (m.draft.model_dump reply) end))))

-- `resume.get(key)`, for a dict
abbrev pub dict_get : String → Json → Json
dict_get key j = or_null (get key j)

-- the terminal status and the reply that go with the status of the state
abbrev pub terminal : Option TicketStatus → String → TicketStatus × String
terminal (some rejected) reply_text = (rejected, rejection_reply)
terminal (some escalated) reply_text = (escalated, escalation_reply)
terminal _ reply_text = (resolved, reply_text)

abbrev pub expected_result : TicketState → Ticket → DraftReply → Classification → TicketResult
expected_result state ticket reply classification =
    let (terminal_status, reply_text) = terminal state.status reply.reply_text in
    record {
      ticket_id = ticket.id;
      status = terminal_status;
      reply_text = reply_text;
      refund_executed = false;
      model_path = classification.model <> "/" <> reply.model;
    }

abbrev pub finalize_key : Ticket → String
finalize_key ticket = ticket.id <> ":finalize"

abbrev pub finalize_payload : Pydantic → TicketState → Ticket → DraftReply → Classification → Json
finalize_payload m state ticket reply classification = obj (
    field "ticket" (m.ticket.model_dump ticket) (
      field "action" (m.action.model_dump reply.action) (
        field "result" (m.result.model_dump (expected_result state ticket reply classification))
          end)))

abbrev pub finalize_task :
    Config → Pydantic → TicketState → Ticket → DraftReply → Classification → NewTask
finalize_task cfg m state ticket reply classification = record {
  queue_name = cfg.task_queue;
  task_type = "finalize_ticket";
  workflow_id = ticket.id;
  payload = finalize_payload m state ticket reply classification;
  idempotency_key = finalize_key ticket;
  max_attempts = 3;
  available_at = none;
}

abbrev pub terminal_envelope :
    Config → Pydantic → TicketState → Ticket → DraftReply → Classification → Json
terminal_envelope cfg m state ticket reply classification = obj (
    field "kind" (str "terminal_task") (
      field "idempotency_key" (str (finalize_key ticket)) (
        field "task_type" (str "finalize_ticket") (
          field "workflow_id" (str ticket.id) (
            field "queue" (str cfg.task_queue) (
              field "result"
                (m.result.model_dump (expected_result state ticket reply classification)) end))))))
