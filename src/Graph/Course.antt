-- ===== src/Graph/Course.antt =====
-- The course of a ticket whose agent answers: from its start over the two agent tasks, the approval
-- gate if its draft needs one, and the finalizer, to its end.
pub mod Ends
use ticket_graph.Prelude.{ℕ, ◌+◌, none, some, [], if◌then◌else◌}
use ticket_graph.Json.{Json, obj, str, field, end, get, lookup}
use ticket_graph.Workflows.{Config, approval_timeout}
use ticket_graph.Models.{
  TicketStatus, resolved, Ticket, Classification, DraftReply, ApprovalDecision, TicketResult,
  classification_ok, draft_ok, classifying, drafting, awaiting_approval, rejected, escalated,
}
use ticket_graph.Models.Codec.{Pydantic}
use ticket_graph.TaskQueue.{TaskTable, enqueue}
use ticket_graph.Graph.Dispatch.{
  TicketState, primary_task, primary_envelope, agent_key, await_agent_task, enqueue_agent_task,
  enqueue_task, is_timeout, is_task_failed, timestamp_after,
}
use ticket_graph.Graph.Payloads.{
  expected_result, classify_payload, draft_payload, finalize_task, approval_needed,
  approval_envelope, terminal_envelope,
}
use ticket_graph.Runner.{decision_value, timeout_value}
use ticket_graph.Graph.Nodes
use ticket_graph.Graph.Drive.{
  Node, Thread, Stop, parked, ended, initial, start, resume, drive, run_node, edge,
  route_after_classify, route_after_draft, route_after_decide, dispatch_classify, await_classify,
  dispatch_draft, await_draft, decide_approval, prepare_approval, await_approval, execute,
}

-- what comes of the approval gate
pub data Verdict : Type 0 where
  decides : ApprovalDecision → Verdict
  times_out : Verdict

-- what the runner resumes the gate with
abbrev pub verdict_value : Pydantic → Verdict → Json
verdict_value m (decides decision) = decision_value (m.decision.model_dump decision)
verdict_value m times_out = timeout_value

module _ (cfg : Config) (m : Pydantic) (at : Node → ℕ) (ticket : Ticket) where
  abbrev classify_timer : ℕ
  classify_timer = at dispatch_classify + cfg.agent_schedule_to_start

  -- where a new thread waits for the classification
  abbrev pub classify_thread : Thread
  classify_thread = record {
    state = record (initial ticket) { status = some classifying; wakeup_at = some classify_timer };
    node = await_classify;
    resumes = [];
    envelope =
        primary_envelope cfg (agent_key ticket.id "classify") "classify" ticket.id
          (some classify_timer);
  }

  module _ (c : Classification) where
    abbrev draft_timer : ℕ
    draft_timer = at dispatch_draft + cfg.agent_schedule_to_start

    -- where it waits for the draft
    abbrev pub draft_thread : Thread
    draft_thread = record {
      state = record (initial ticket) {
        classification = some c;
        status = some drafting;
        wakeup_at = some draft_timer;
      };
      node = await_draft;
      resumes = [];
      envelope =
          primary_envelope cfg (agent_key ticket.id "draft") "draft" ticket.id (some draft_timer);
    }

    module _ (d : DraftReply) where
      abbrev approval_timer : ℕ
      approval_timer = at prepare_approval + approval_timeout

      -- the state of a draft that needs no approval
      abbrev pub drafted_state : TicketState
      drafted_state = record (initial ticket) {
        classification = some c;
        draft = some d;
        needs_approval = approval_needed d;
        status = some drafting;
      }

      abbrev pub gate_state : TicketState
      gate_state = record drafted_state {
        status = some awaiting_approval;
        wakeup_at = some approval_timer;
      }

      abbrev pub gate_thread : Thread
      gate_thread = record {
        state = gate_state;
        node = await_approval;
        resumes = [];
        envelope = approval_envelope m ticket d approval_timer;
      }

      abbrev pub verdict_state : Verdict → TicketState
      verdict_state (decides decision) =
          if decision.approved
          then record gate_state { decision = some decision }
          else record gate_state { decision = some decision; status = some rejected }
      verdict_state times_out = record gate_state { status = some escalated }

      -- where a thread in such a state waits for the finalizer
      abbrev pub final_thread : TicketState → Thread
      final_thread state = record {
        state = state;
        node = execute;
        resumes = [];
        envelope = terminal_envelope cfg m state ticket d c;
      }

      abbrev pub finalizing : TicketState → TaskTable → TaskTable
      finalizing state t = (enqueue (at execute) (finalize_task cfg m state ticket d c) t).1

      abbrev pub ended_state : TicketState → TicketResult → TicketState
      ended_state state r = record state {
        result = some r;
        status = some r.status;
        refund_executed = r.refund_executed;
        wakeup_at = none;
      }

      -- the state in which `execute` is entered
      abbrev pub settled_state : Verdict → TicketState
      settled_state v = if approval_needed d then verdict_state v else drafted_state

      abbrev verdict_status : Verdict → TicketStatus
      verdict_status (decides decision) = if decision.approved then resolved else rejected
      verdict_status times_out = escalated

      -- how the ticket is to end
      abbrev pub outcome : Verdict → TicketStatus
      outcome v = if approval_needed d then verdict_status v else resolved
