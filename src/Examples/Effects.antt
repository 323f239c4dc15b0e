-- ===== src/Examples/Effects.antt =====
-- Finalize deliveries on empty books, with the models of `Models/Plain`.
use ticket_graph.Prelude.{
  String, ◌≡◌, refl, true, false, none, some, List, [], ◌∷◌, arith, nat_eq, string_eq,
}
use ticket_graph.Result.{ok}
use ticket_graph.Models.{
  Ticket, DraftReply, Classification, refund, billing, awaiting_approval, ApprovalDecision,
}
use ticket_graph.Models.Plain.{plain}
use ticket_graph.TaskQueue.{QueuedTask, leased}
use ticket_graph.Ledger.{record_refund, refund_recorded, record_sent_reply, save_result}
use ticket_graph.Ledger.Finalize.{
  Services, Job, run_finalize, read_job, final_result, pays, refund_step, execute_refund,
  send_reply, record_result,
}
use ticket_graph.Ledger.Outboxes.{Delivery, deliver, Balanced, deliver-Balanced}
use ticket_graph.Ledger.Money.{run_finalize_reports}
use ticket_graph.Graph.Dispatch.{TicketState}
use ticket_graph.Graph.Authority.{Authorised}
use ticket_graph.Graph.Payloads.{finalize_payload, expected_result}
use ticket_graph.Sql.{exists_where, select_where}

abbrev pub ticket : Ticket
ticket = record {
  id = "t";
  customer_email = "jo@example.com";
  subject = "refund please";
  body = "charged twice";
}

abbrev reply : DraftReply
reply = record {
  reply_text = "Here is your money.";
  action = record { type = refund; refund_amount = some 5 };
  confidence = 1;
  model = "primary";
}

abbrev classification : Classification
classification = record { category = billing; confidence = 1; model = "primary" }

abbrev approved_state : TicketState
approved_state = record {
  ticket = some ticket;
  classification = some classification;
  draft = some reply;
  needs_approval = true;
  decision = some (record { approved = true; approver = "ann"; note = none });
  wakeup_at = some 100;
  status = some awaiting_approval;
  refund_executed = false;
  result = none;
}

abbrev pub finalize_row : QueuedTask
finalize_row = record {
  id = 7;
  queue_name = "ticketflow";
  task_type = "finalize_ticket";
  workflow_id = "t";
  payload = finalize_payload plain approved_state ticket reply classification;
  idempotency_key = "t:finalize";
  status = leased;
  attempts = 1;
  max_attempts = 3;
  available_at = 10;
  enqueued_at = 10;
  lease_owner = some "w";
  lease_expires_at = some 99;
  result = none;
  error = none;
  permanent = false;
}

abbrev pub job : Job
job = record {
  ticket = ticket;
  action = reply.action;
  result = expected_result approved_state ticket reply classification;
}

job_read : read_job plain finalize_row ≡ ok job
unfolding read_job plain
job_read = refl

abbrev pub no_books : Services
no_books = record {
  ledger = record {
    refunds = [];
    refund_attempts = [];
    next_refund_attempt = 1;
    sent_replies = [];
    reply_attempts = [];
    next_reply_attempt = 1;
    ticket_results = [];
  };
  sent = [];
  paid = [];
}

-- The decision on the ticket is Ann's.
abbrev pub ByAnn : String → ApprovalDecision → Type 0
ByAnn id d = (id ≡ "t") × (d.approver ≡ "ann")

pub authorised : Authorised plain ByAnn finalize_row.payload
authorised = record {
  state = approved_state;
  ticket = ticket;
  reply = reply;
  classification = classification;
  computed = refl;
  drafted = refl;
  may = refl;
  human = λ d taken. ground arith;
}

run_finalize_reports_example :
    (run_finalize plain 50 finalize_row no_books).0 ≡ ok (final_result job (pays job))
run_finalize_reports_example = run_finalize_reports plain 50 finalize_row no_books job job_read

-- The first delivery pays.
pays_once :
    (run_finalize plain 50 finalize_row no_books).1.paid
    ≡ record { ticket_id = "t"; amount = 5 } ∷ []
unfolding run_finalize read_job plain refund_step execute_refund record_refund refund_recorded
    send_reply record_sent_reply record_result save_result exists_where select_where
pays_once = refl

-- Two workers die, after one and after two effects, and the third one lives.
abbrev crashes : List Delivery
crashes =
    record { job = job; attempt = 1; now = 10; effects = 1 }
    ∷ record { job = job; attempt = 2; now = 20; effects = 2 }
    ∷ record { job = job; attempt = 3; now = 30; effects = 3 }
    ∷ []

deliver-Balanced_example : Balanced (deliver plain crashes no_books)
deliver-Balanced_example = deliver-Balanced plain crashes no_books (omega arith)
