-- ===== src/Ledger/Finalize.antt =====
-- src/ticketflow/activities.py and side_effect_worker.py: the terminal side effects of a ticket.
-- Sending a reply and moving money are log lines in the program; here they are the two outboxes.
use ticket_graph.Prelude.{
  ℕ, String, Bool, false, not, ◌&&◌, none, some, List, [], ◌∷◌, ◌++◌, if◌then◌else◌, ◌==◌, nat_eq,
  string_eq,
}
use ticket_graph.Result.{item, Result, ok, err, value_error, assertion_error, ◌>>=◌}
use ticket_graph.Models.{TicketResult, Ticket, ProposedAction, is_resolved, is_refund}
use ticket_graph.Models.Codec.{Pydantic}
use ticket_graph.TaskQueue.{QueuedTask}
use ticket_graph.Ledger.{Ledger, record_refund, refund_recorded, record_sent_reply, save_result}

-- A reply that went out, and a refund that was paid.
pub record Sent : Type 0 where
  pub ticket_id : String
  pub customer_email : String
  pub reply_text : String

pub record Paid : Type 0 where
  pub ticket_id : String
  pub amount : ℕ

pub record Services : Type 0 where
  pub ledger : Ledger
  pub sent : List Sent
  pub paid : List Paid

unfoldable pub send_reply : ℕ → Ticket → String → ℕ → Services → Services
send_reply now ticket reply_text attempt s =
    let (first, ledger) =
      record_sent_reply now ticket.id ticket.customer_email reply_text attempt s.ledger in
    if first
    then record s {
      ledger = ledger;
      sent =
          s.sent
          ++ record {
            ticket_id = ticket.id;
            customer_email = ticket.customer_email;
            reply_text = reply_text;
          }
            ∷ [];
    }
    else record s { ledger = ledger }

unfoldable pub execute_refund : ℕ → String → ℕ → ℕ → Services → Services
execute_refund now ticket_id amount attempt s =
    let (first, ledger) = record_refund now ticket_id amount attempt s.ledger in
    if first
    then record s {
      ledger = ledger;
      paid = s.paid ++ record { ticket_id = ticket_id; amount = amount } ∷ [];
    }
    else record s { ledger = ledger }

unfoldable pub record_result : Pydantic → TicketResult → Services → Services
record_result m result s = record s { ledger = save_result m result s.ledger }

-- the payload of a `finalize_ticket` task, read as `run_finalize` reads it
pub record Job : Type 0 where
  pub ticket : Ticket
  pub action : ProposedAction
  pub result : TicketResult

unfoldable pub read_job : Pydantic → QueuedTask → Result Job
read_job m task =
    if not (task.task_type == "finalize_ticket")
    then err (value_error "unexpected side-effect task_type")
    else do
      ticket_json ← item "ticket" task.payload
      ticket ← m.ticket.model_validate ticket_json
      action_json ← item "action" task.payload
      action ← m.action.model_validate action_json
      result_json ← item "result" task.payload
      result ← m.result.model_validate result_json
      ok (record { ticket = ticket; action = action; result = result })

-- the test for the refund
abbrev pub pays : Job → Bool
pays job = is_resolved job.result.status && is_refund job.action.type

-- The refund, and whether one is recorded. `model_validate` lets no refund without an amount pass;
-- without one the assertion would fail.
unfoldable pub refund_step : ℕ → ℕ → Job → Services → Result Bool × Services
refund_step now attempt job s =
    if pays job
    then elim job.action.refund_amount [
      | none ↦ (err assertion_error, s)
      | some amount ↦
          let s' = execute_refund now job.ticket.id amount attempt s in
          (ok (refund_recorded job.ticket.id s'.ledger), s')
    ]
    else (ok false, s)

abbrev pub final_result : Job → Bool → TicketResult
final_result job refund_executed = record (job.result) { refund_executed = refund_executed }

abbrev pub close_job :
    Pydantic → ℕ → ℕ → Job → Result Bool → Services → Result TicketResult × Services
close_job m now attempt job (err e) s = (err e, s)
close_job m now attempt job (ok refund_executed) s =
    let s' = send_reply now job.ticket job.result.reply_text attempt s in
    let result = final_result job refund_executed in (ok result, record_result m result s')

abbrev pub perform : Pydantic → ℕ → ℕ → Result Job → Services → Result TicketResult × Services
perform m now attempt (err e) s = (err e, s)
perform m now attempt (ok job) s =
    let (paid, s') = refund_step now attempt job s in close_job m now attempt job paid s'

unfoldable pub run_finalize : Pydantic → ℕ → QueuedTask → Services → Result TicketResult × Services
run_finalize m now task s = perform m now task.attempts (read_job m task) s
