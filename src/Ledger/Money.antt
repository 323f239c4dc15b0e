-- ===== src/Ledger/Money.antt =====
-- What a finalize task reports, and who allowed the refund that it pays.
use mathlib.Core.Path.{subst}
use ticket_graph.Prelude.{
  ℕ, String, ◌≡◌, refl, sym, ap, ◌∙◌, ◌≢◌, inl, inr, Bool, true, false, Option, none, some, arith,
  Bool-cases, Option-cases, ◌==◌, nat_eq, string_eq, ==_refl,
}
use ticket_graph.Json.{Json, get}
use ticket_graph.Result.{Result, ok, err, >>=-eq-ok, item}
use ticket_graph.Models.{ApprovalDecision, action_ok, Ticket, DraftReply, Classification}
use ticket_graph.Models.Codec.{Pydantic}
use ticket_graph.TaskQueue.{QueuedTask}
use ticket_graph.Ledger.{refund_of, record_refund, refund_recorded}
use ticket_graph.Ledger.Finalize.{
  Services, Job, execute_refund, send_reply, refund_step, final_result, pays, read_job,
  run_finalize, record_result, close_job,
}
use ticket_graph.Sql.{exists_where}
use ticket_graph.Sql.Pick.{exists-insert, select-exists}
use ticket_graph.Graph.Authority.{Authorised}
use ticket_graph.Graph.Payloads.{expected_result, finalize_payload}
use ticket_graph.Graph.Entry.{approved_by}
use ticket_graph.Graph.Dispatch.{TicketState}

-- What a job was read from.
record Source (m : Pydantic) (task : QueuedTask) (job : Job) : Type 0 where
  ticket_json : Json
  ticket_at : item "ticket" task.payload ≡ ok ticket_json
  ticket_read : m.ticket.model_validate ticket_json ≡ ok job.ticket
  action_json : Json
  action_at : item "action" task.payload ≡ ok action_json
  action_read : m.action.model_validate action_json ≡ ok job.action
  result_json : Json
  result_at : item "result" task.payload ≡ ok result_json
  result_read : m.result.model_validate result_json ≡ ok job.result

job-Source :
    (m : Pydantic) (task : QueuedTask) (job : Job) → read_job m task ≡ ok job → Source m task job
unfolding read_job
job-Source m task job h = elim (Bool-cases (task.task_type == "finalize_ticket")) [
  | inl e ↦
      let h' = rw e at h in
      let (tj, t0, h1) = >>=-eq-ok (item "ticket" task.payload) _ h' in
      let (t, t1, h2) = >>=-eq-ok (m.ticket.model_validate tj) _ h1 in
      let (aj, a0, h3) = >>=-eq-ok (item "action" task.payload) _ h2 in
      let (a, a1, h4) = >>=-eq-ok (m.action.model_validate aj) _ h3 in
      let (rj, r0, h5) = >>=-eq-ok (item "result" task.payload) _ h4 in
      let (r, r1, h6) = >>=-eq-ok (m.result.model_validate rj) _ h5 in
      record {
        ticket_json = tj;
        ticket_at = t0;
        ticket_read = ground (arith, t1, h6);
        action_json = aj;
        action_at = a0;
        action_read = ground (arith, a1, h6);
        result_json = rj;
        result_at = r0;
        result_read = ground (arith, r1, h6);
      }
  | inr e ↦ absurd (ground arith)
]

-- `model_validate` lets no refund without an amount pass.
job_fits :
    (m : Pydantic) (task : QueuedTask) (job : Job)
    → read_job m task ≡ ok job
    → action_ok job.action ≡ true
job_fits m task job h =
    let src = job-Source m task job h in
    m.action.validate_fits src.action_json job.action src.action_read

module _ (now : ℕ) (ticket_id : String) (amount attempt : ℕ) (s : Services) where
  recorded-execute_refund :
      refund_recorded ticket_id (execute_refund now ticket_id amount attempt s).ledger ≡ true
  unfolding execute_refund refund_recorded record_refund
  recorded-execute_refund =
      elim (Bool-cases (exists_where (refund_of ticket_id) s.ledger.refunds)) [
        | inl old ↦ rw old (select-exists (refund_of ticket_id) s.ledger.refunds ∙ old)
        | inr new ↦ rw new (
            select-exists (refund_of ticket_id) _
            ∙ exists-insert (refund_of ticket_id) _ s.ledger.refunds (==_refl ticket_id))
      ]

module _ (now attempt : ℕ) (job : Job) (s : Services) where
  refund_step-eq : action_ok job.action ≡ true → (refund_step now attempt job s).0 ≡ ok (pays job)
  unfolding refund_step
  refund_step-eq fits = elim (Bool-cases (pays job)) [
    | inl e ↦ elim (Option-cases job.action.refund_amount) [
      | inl f ↦ absurd (ground arith)
      | inr (amount, f) ↦
          rw e (rw f (rw (recorded-execute_refund now job.ticket.id amount attempt s)))
    ]
    | inr e ↦ rw e
  ]

  refund_step-unpaid : pays job ≡ false → (refund_step now attempt job s).1.paid ≡ s.paid
  unfolding refund_step
  refund_step-unpaid e = rw e

paid-send_reply :
    (now : ℕ) (ticket : Ticket) (text : String) (attempt : ℕ) (s : Services)
    → (send_reply now ticket text attempt s).paid ≡ s.paid
unfolding send_reply
paid-send_reply now ticket text attempt s = ground arith

paid-close_job :
    (m : Pydantic) (now attempt : ℕ) (job : Job) (r : Result Bool) (s : Services)
    → (close_job m now attempt job r s).1.paid ≡ s.paid
unfolding record_result
paid-close_job m now attempt job (err e) s = refl
paid-close_job m now attempt job (ok b) s =
    paid-send_reply now job.ticket job.result.reply_text attempt s

module _ (m : Pydantic) (now : ℕ) (task : QueuedTask) (s : Services) (job : Job)
    (read : read_job m task ≡ ok job) where
  -- Whatever earlier deliveries have done and wherever they died, a delivery that runs through
  -- reports the same result: the expected one, with `refund_executed` set exactly when the ticket
  -- is resolved with a refund.
  pub run_finalize_reports : (run_finalize m now task s).0 ≡ ok (final_result job (pays job))
  unfolding run_finalize
  run_finalize_reports =
      rw read (rw (refund_step-eq now task.attempts job s (job_fits m task job read)))

  paid-run_finalize : pays job ≡ false → (run_finalize m now task s).1.paid ≡ s.paid
  unfolding run_finalize
  paid-run_finalize e =
      rw read
        (paid-close_job m now task.attempts job _ _ ∙ refund_step-unpaid now task.attempts job s e)

payload_items :
    (m : Pydantic) (state : TicketState) (ticket : Ticket) (reply : DraftReply) (c : Classification)
    → (item "ticket" (finalize_payload m state ticket reply c) ≡ ok (m.ticket.model_dump ticket))
      × (item "action" (finalize_payload m state ticket reply c)
          ≡ ok (m.action.model_dump reply.action))
      × (item "result" (finalize_payload m state ticket reply c)
          ≡ ok (m.result.model_dump (expected_result state ticket reply c)))
unfolding get
payload_items m state ticket reply c = (refl, refl, refl)

module _ (m : Pydantic) (P : String → ApprovalDecision → Type 0) (task : QueuedTask) (job : Job)
    (read : read_job m task ≡ ok job) (a : Authorised m P task.payload) where
  -- The job is the one that the graph computed.
  job_authorised :
      (job.ticket ≡ a.ticket)
      × (job.action ≡ a.reply.action)
      × (job.result ≡ expected_result a.state a.ticket a.reply a.classification)
  job_authorised =
      let src = job-Source m task job read in
      let (tic, act, res) = payload_items m a.state a.ticket a.reply a.classification in
      let tic' : item "ticket" task.payload ≡ ok (m.ticket.model_dump a.ticket) =
        rw (a.computed) tic in
      let act' : item "action" task.payload ≡ ok (m.action.model_dump a.reply.action) =
        rw (a.computed) act in
      let res' : item "result" task.payload
          ≡ ok (m.result.model_dump (expected_result a.state a.ticket a.reply a.classification)) =
        rw (a.computed) res in
      let same_ticket : src.ticket_json ≡ m.ticket.model_dump a.ticket = cc (src.ticket_at, tic') in
      let same_action : src.action_json ≡ m.action.model_dump a.reply.action =
        cc (src.action_at, act') in
      let same_result : src.result_json
          ≡ m.result.model_dump (expected_result a.state a.ticket a.reply a.classification) =
        cc (src.result_at, res') in
      (
        m.ticket.validate-dump_eq a.ticket job.ticket
            (ap m.ticket.model_validate (sym same_ticket) ∙ src.ticket_read),
        m.action.validate-dump_eq a.reply.action job.action
            (ap m.action.model_validate (sym same_action) ∙ src.action_read),
        m.result.validate-dump_eq _ job.result
            (ap m.result.model_validate (sym same_result) ∙ src.result_read),
      )

  approved_of :
      (o : Option ApprovalDecision)
      → approved_by o ≡ true
      → (d : ApprovalDecision) × (o ≡ some d) × (d.approved ≡ true)
  approved_of none h = cc
  approved_of (some d) h = (d, refl, h)

  pays_approved : pays job ≡ true → approved_by a.state.decision ≡ true
  pays_approved e =
      let (_, same_action, same_result) = job_authorised in ground (arith, a.may, a.drafted)

  -- Where a finalize task's payload is authorised, a delivery of it that changes what has been paid
  -- out has a decision on the ticket that it pays for behind it, which has `P` and approves.
  pub paid_approved :
      (now : ℕ) (s : Services)
      → (run_finalize m now task s).1.paid ≢ s.paid
      → (d : ApprovalDecision) × P job.ticket.id d × (d.approved ≡ true)
  paid_approved now s moved = elim (Bool-cases (pays job)) [
    | inl e ↦
        let (d, taken, approved) = approved_of a.state.decision (pays_approved e) in
        (d, subst (λ t. P t.id d) (sym job_authorised.0) (a.human d taken), approved)
    | inr e ↦ absurd (moved (paid-run_finalize m now task s job read e))
  ]
