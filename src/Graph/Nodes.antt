-- ===== src/Graph/Nodes.antt =====
-- The eight nodes of `build_ticket_graph` of src/ticketflow/graph.py. A node returns the state with
-- its partial update merged in. `m` is pydantic and `now` the database clock when the node runs.
use ticket_graph.Prelude.{ℕ, false, not, none, some, if◌then◌else◌, ◌==◌, nat_eq, string_eq}
use ticket_graph.Json.{Json, get, str, obj}
use ticket_graph.Result.{assertion_error, value_error}
use ticket_graph.Workflows.{Config, approval_timeout}
use ticket_graph.Graph.Action.{Action, pure, raise, interrupt, lift, require, ◌>>=◌}
use ticket_graph.Graph.Dispatch.{
  TicketState, is_task_failed, enqueue_agent_task, await_agent_task, timestamp_after, enqueue_task,
  failure_draft, failure_classification,
}
use ticket_graph.Models.Codec.{Pydantic}
use ticket_graph.Models.{awaiting_approval, drafting, escalated, classifying, rejected}
use ticket_graph.Graph.Payloads.{
  draft_payload, finalize_task, dict_get, classify_payload, approval_needed, approval_envelope,
  terminal_envelope,
}

module _ (cfg : Config) (m : Pydantic) (now : ℕ) where
  unfoldable pub dispatch_classify : TicketState → Action TicketState
  unfolding enqueue_agent_task
  dispatch_classify state = do
    ticket ← require assertion_error state.ticket
    wakeup_at ← enqueue_agent_task cfg now "classify" ticket.id (classify_payload m ticket)
    pure (record state { status = some classifying; wakeup_at = some wakeup_at })

  unfoldable pub await_classify : TicketState → Action TicketState
  unfolding is_task_failed
  await_classify state = do
    ticket ← require assertion_error state.ticket
    result ←
        await_agent_task cfg now "classify" ticket.id (classify_payload m ticket) state.wakeup_at
    if is_task_failed result
        then pure (record state {
          classification = some failure_classification;
          draft = some failure_draft;
          needs_approval = false;
          status = some escalated;
          wakeup_at = none;
        })
        else do
          classification ← lift (m.classification.model_validate result)
          pure (record state {
            classification = some classification;
            status = some classifying;
            wakeup_at = none;
          })

  unfoldable pub dispatch_draft : TicketState → Action TicketState
  unfolding enqueue_agent_task
  dispatch_draft state = do
    ticket ← require assertion_error state.ticket
    classification ← require assertion_error state.classification
    wakeup_at ← enqueue_agent_task cfg now "draft" ticket.id (draft_payload m ticket classification)
    pure (record state { status = some drafting; wakeup_at = some wakeup_at })

  unfoldable pub await_draft : TicketState → Action TicketState
  unfolding is_task_failed
  await_draft state = do
    ticket ← require assertion_error state.ticket
    classification ← require assertion_error state.classification
    result ←
        await_agent_task cfg now "draft" ticket.id (draft_payload m ticket classification)
          state.wakeup_at
    if is_task_failed result
        then pure (record state {
          draft = some failure_draft;
          needs_approval = false;
          status = some escalated;
          wakeup_at = none;
        })
        else do
          reply ← lift (m.draft.model_validate result)
          pure (record state { draft = some reply; status = some drafting; wakeup_at = none })

  unfoldable pub decide_approval : TicketState → Action TicketState
  decide_approval state = do
    reply ← require assertion_error state.draft
    pure (record state { needs_approval = approval_needed reply })

  unfoldable pub prepare_approval : TicketState → Action TicketState
  unfolding timestamp_after
  prepare_approval state = pure (record state {
    status = some awaiting_approval;
    wakeup_at = some (timestamp_after cfg now approval_timeout);
  })

  -- The resume value of the approval gate: a decision, or the timeout of its timer.
  unfoldable pub read_approval : Json → TicketState → Action TicketState
  read_approval (obj fields) state = elim (get "kind" (obj fields)) [
    | some (str kind) ↦
        if kind == "timeout"
        then pure (record state { status = some escalated })
        else if kind == "decision"
        then (do
          decision ← lift (m.decision.model_validate (dict_get "decision" (obj fields)))
          if decision.approved
              then pure (record state { decision = some decision })
              else pure (record state { decision = some decision; status = some rejected }))
        else raise (value_error "approval resume kind must be 'decision' or 'timeout'")
    | _ ↦ raise (value_error "approval resume kind must be 'decision' or 'timeout'")
  ]
  read_approval _ state = raise (value_error "approval resume payload must be an object")

  unfoldable pub await_approval : TicketState → Action TicketState
  unfolding read_approval
  await_approval state = do
    ticket ← require assertion_error state.ticket
    reply ← require assertion_error state.draft
    wakeup_at ← require assertion_error state.wakeup_at
    resume ← interrupt (approval_envelope m ticket reply wakeup_at)
    read_approval resume state

  unfoldable pub execute : TicketState → Action TicketState
  unfolding enqueue_task
  execute state = do
    ticket ← require assertion_error state.ticket
    reply ← require assertion_error state.draft
    classification ← require assertion_error state.classification
    _ ← enqueue_task cfg now (finalize_task cfg m state ticket reply classification) none
    resume ← interrupt (terminal_envelope cfg m state ticket reply classification)
    result ← lift (m.result.model_validate resume)
    if not (result.ticket_id == ticket.id)
        then raise (value_error "terminal result ticket_id does not match workflow")
        else pure (record state {
          result = some result;
          status = some result.status;
          refund_executed = result.refund_executed;
          wakeup_at = none;
        })
