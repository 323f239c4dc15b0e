-- ===== src/Examples/Whole.antt =====
-- A ticket on its whole way: it is created, classified, drafted, decided on by a human or not, and
-- finalized, by the operations of the processes in turn.
use ticket_graph.Prelude.{
  ℕ, ◌+◌, String, ◌≡◌, refl, Bool, true, false, Option, none, some, nat_eq, string_eq,
}
use ticket_graph.Json.{Json, get, lookup}
use ticket_graph.Result.{Result, ok, err}
use ticket_graph.Models.{
  TicketStatus, TicketResult, TicketStatusInfo, resolved, rejected, escalated, awaiting_approval,
}
use ticket_graph.Models.Plain.{plain}
use ticket_graph.TaskQueue.{
  QueuedTask, dequeue, next_due, cancel_pending, complete, enqueue, fail, new_row,
}
use ticket_graph.Ledger.Finalize.{
  run_finalize, refund_step, execute_refund, send_reply, record_result, read_job,
}
use ticket_graph.Runner.{
  System, approval_resume_value, next_wakeup_at, oldest_signal, parse_wakeup_at, resume_for_run,
  resume_value,
}
use ticket_graph.Runner.Step.{step, get_state, act_on, advance, pending, release, save_output}
use ticket_graph.Worker.{process_one_task, settle}
use ticket_graph.Api.{create_ticket, submit_approval, get_ticket, Reply, body, seed}
use ticket_graph.Examples.Queue.{unlocked}
use ticket_graph.Examples.Effects.{no_books}
use ticket_graph.Examples.Workflow.{config, clock}
use ticket_graph.Examples.Api.{nothing, request}
use ticket_graph.Examples.Course.{sorted, draft}
use ticket_graph.Sql.{select_where, first_by, exists_where, update_where, updated}
use ticket_graph.Runs.{claim_run, next_run, acreate_run, consume, create_run, save_run, wake_run}
use ticket_graph.Runs.Signals.{add_pending_signal_if_waiting}
use ticket_graph.Graph.Drive.{
  start, drive, run_node, edge, resume, route_after_classify, route_after_decide, route_after_draft,
}
use ticket_graph.Graph.Dispatch.{
  await_agent_task, enqueue_agent_task, enqueue_task, is_task_failed, is_timeout,
  redispatch_agent_task, timestamp_after,
}
use ticket_graph.Ledger.{
  load_result, record_refund, refund_recorded, record_sent_reply, save_result,
}
use ticket_graph.Graph.Nodes
use ticket_graph.Workflows.{approval_timeout}

-- a worker that takes a task of a queue and gets this from its activity
abbrev works : String → (QueuedTask → Result Json) → ℕ → System → System
works queue activity now sys =
    (process_one_task (λ e. "failed") (now + 1) (now + 2) activity unlocked queue "w" now sys).1

abbrev system_of : Option (Result Bool × System) → System
system_of none = nothing
system_of (some (r, sys)) = sys

-- a runner's step
abbrev steps : ℕ → System → System
steps now sys = system_of (step config plain (λ n. now) (λ i. false) "r" now (now + 1) sys)

abbrev created_system : Option (Reply String × System) → System
created_system none = nothing
created_system (some (r, sys)) = sys

abbrev started : System
started = created_system (create_ticket config plain clock "t" request 101 nothing)

abbrev drafted : System
drafted = steps 113 (
    works "agent" (λ task. ok (plain.draft.model_dump draft)) 110
      (steps 106 (works "agent" (λ task. ok (plain.classification.model_dump sorted)) 102 started)))

-- the decision of a human, and the step that takes it
abbrev decided : Bool → System
decided approves =
    steps 121
      (submit_approval plain "t" (record { approved = approves; approver = "ann"; note = none }) 120
        drafted).1

-- No decision comes in time.
abbrev late : System
late = steps (200 + approval_timeout) drafted

abbrev dumped : Result TicketResult → Result Json
dumped (ok r) = ok (plain.result.model_dump r)
dumped (err e) = err e

-- the delivery of the finalize task, and the last step
abbrev ended : System → ℕ → System
ended sys now =
    steps (now + 5)
      (works "ticketflow" (λ task. dumped (run_finalize plain (now + 1) task no_books).0) now sys)

abbrev status_in : System → Option TicketStatus
status_in sys = read (get_ticket plain "t" sys no_books.ledger)
  where
    read : Reply TicketStatusInfo → Option TicketStatus
    read (body info) = some info.status
    read _ = none

-- It waits for the approval, and in the end it is resolved, rejected or escalated.
whole_way :
    (status_in drafted ≡ some awaiting_approval)
    × (status_in (ended (decided true) 130) ≡ some resolved)
    × (status_in (ended (decided false) 130) ≡ some rejected)
    × (status_in (ended late (300 + approval_timeout)) ≡ some escalated)
unfolding get_ticket submit_approval create_ticket seed get_state step act_on advance pending
    release save_output select_where first_by exists_where update_where updated claim_run next_run
    acreate_run consume create_run save_run wake_run process_one_task settle dequeue next_due
    cancel_pending complete enqueue fail new_row add_pending_signal_if_waiting start drive run_node
    edge resume route_after_classify route_after_decide route_after_draft await_agent_task
    enqueue_agent_task enqueue_task is_task_failed is_timeout redispatch_agent_task timestamp_after
    get lookup load_result record_refund refund_recorded record_sent_reply save_result
    approval_resume_value next_wakeup_at oldest_signal parse_wakeup_at resume_for_run resume_value
    run_finalize refund_step execute_refund send_reply record_result read_job plain
    Nodes.await_approval Nodes.await_classify Nodes.await_draft Nodes.decide_approval
    Nodes.dispatch_classify Nodes.dispatch_draft Nodes.execute Nodes.prepare_approval
    Nodes.read_approval
whole_way = (refl, refl, refl, refl)
