-- ===== src/Ledger/Outboxes.antt =====
-- At most one reply and one refund per ticket, whatever deliveries of its finalize task there are
-- and wherever they crash.
use ticket_graph.Prelude.{
  ℕ, zero, suc, String, ◌≡◌, ap, ◌≢◌, inl, inr, Bool, true, false, List, [], ◌∷◌, All, All-append,
  All-impl, Distinct, Bool-cases, Option-cases, nat_eq, string_eq, ==_refl,
}
use ticket_graph.Result.{Result, ok, err}
use ticket_graph.Models.Codec.{Pydantic}
use ticket_graph.Ledger.{reply_of, refund_of, record_sent_reply, record_refund, save_result}
use ticket_graph.Ledger.Finalize.{
  Services, Sent, Paid, Job, send_reply, execute_refund, record_result, refund_step, final_result,
  pays, run_finalize, close_job, read_job,
}
use ticket_graph.Models.{Ticket}
use ticket_graph.Sql.{exists_where}
use ticket_graph.Sql.Pick.{exists-insert, exists-insert_old}
use ticket_graph.Sql.Laws.{Distinct-insert}
use ticket_graph.TaskQueue.{QueuedTask}

-- Every reply that went out and every refund that was paid is in its ledger, once for its ticket.
pub record Balanced (s : Services) : Type 0 where
  pub sent_once : Distinct (λ x. x.ticket_id) s.sent
  pub sent_known :
      All (λ x. exists_where (reply_of x.ticket_id) s.ledger.sent_replies ≡ true) s.sent
  pub paid_once : Distinct (λ x. x.ticket_id) s.paid
  pub paid_known : All (λ x. exists_where (refund_of x.ticket_id) s.ledger.refunds ≡ true) s.paid

send_reply-Balanced :
    (now : ℕ) (ticket : Ticket) (reply_text : String) (attempt : ℕ) (s : Services)
    → Balanced s
    → Balanced (send_reply now ticket reply_text attempt s)
unfolding send_reply record_sent_reply
send_reply-Balanced now ticket reply_text attempt s b =
    elim (Bool-cases (exists_where (reply_of ticket.id) s.ledger.sent_replies)) [
      | inl old ↦ rw old (record {
        sent_once = b.sent_once;
        sent_known = b.sent_known;
        paid_once = b.paid_once;
        paid_known = b.paid_known;
      })
      | inr new ↦ rw new (record {
        sent_once =
            Distinct-insert (λ (x : Sent). x.ticket_id) s.sent _
              (All-impl _ (λ (x : Sent). x.ticket_id ≢ ticket.id) s.sent
                (λ x known same.
                  cc (known, new, ap (λ t. exists_where (reply_of t) s.ledger.sent_replies) same))
                b.sent_known)
              b.sent_once;
        sent_known =
            All-append _ s.sent _
              (All-impl _ _ s.sent
                (λ x known. exists-insert_old (reply_of x.ticket_id) _ s.ledger.sent_replies known)
                b.sent_known)
              (exists-insert (reply_of ticket.id) _ s.ledger.sent_replies (==_refl ticket.id), tt);
        paid_once = b.paid_once;
        paid_known = b.paid_known;
      })
    ]

execute_refund-Balanced :
    (now : ℕ) (ticket_id : String) (amount attempt : ℕ) (s : Services)
    → Balanced s
    → Balanced (execute_refund now ticket_id amount attempt s)
unfolding execute_refund record_refund
execute_refund-Balanced now ticket_id amount attempt s b =
    elim (Bool-cases (exists_where (refund_of ticket_id) s.ledger.refunds)) [
      | inl old ↦ rw old (record {
        sent_once = b.sent_once;
        sent_known = b.sent_known;
        paid_once = b.paid_once;
        paid_known = b.paid_known;
      })
      | inr new ↦ rw new (record {
        sent_once = b.sent_once;
        sent_known = b.sent_known;
        paid_once =
            Distinct-insert (λ (x : Paid). x.ticket_id) s.paid _
              (All-impl _ (λ (x : Paid). x.ticket_id ≢ ticket_id) s.paid
                (λ x known same.
                  cc (known, new, ap (λ t. exists_where (refund_of t) s.ledger.refunds) same))
                b.paid_known)
              b.paid_once;
        paid_known =
            All-append _ s.paid _
              (All-impl _ _ s.paid
                (λ x known. exists-insert_old (refund_of x.ticket_id) _ s.ledger.refunds known)
                b.paid_known)
              (exists-insert (refund_of ticket_id) _ s.ledger.refunds (==_refl ticket_id), tt);
      })
    ]

refund_step-Balanced :
    (now attempt : ℕ) (job : Job) (s : Services)
    → Balanced s
    → Balanced (refund_step now attempt job s).1
unfolding refund_step
refund_step-Balanced now attempt job s b = elim (Bool-cases (pays job)) [
  | inl e ↦ elim (Option-cases job.action.refund_amount) [
    | inl f ↦ rw e (rw f b)
    | inr (amount, f) ↦ rw e (rw f (execute_refund-Balanced now job.ticket.id amount attempt s b))
  ]
  | inr e ↦ rw e b
]

record_result-Balanced :
    (m : Pydantic) (job : Job) (done : Bool) (s : Services)
    → Balanced s
    → Balanced (record_result m (final_result job done) s)
unfolding record_result save_result
record_result-Balanced m job done s b = record {
  sent_once = b.sent_once;
  sent_known = b.sent_known;
  paid_once = b.paid_once;
  paid_known = b.paid_known;
}

-- One delivery of a finalize task: its job, its attempt and clock, and how many of the three effects
-- happen before the worker dies (3 or more for a worker that lives).
pub record Delivery : Type 0 where
  pub job : Job
  pub attempt : ℕ
  pub now : ℕ
  pub effects : ℕ

abbrev report : Result Bool → Bool
report (ok paid) = paid
report (err e) = false

-- The first effects of `run_finalize`: the refund, the reply, the result.
unfoldable pub crash_after : Pydantic → ℕ → Delivery → Services → Services
crash_after m zero d s = s
crash_after m (suc zero) d s = (refund_step d.now d.attempt d.job s).1
crash_after m (suc (suc zero)) d s =
    send_reply d.now d.job.ticket d.job.result.reply_text d.attempt
      (refund_step d.now d.attempt d.job s).1
crash_after m (suc (suc (suc n))) d s =
    let (paid, s') = refund_step d.now d.attempt d.job s in
    (close_job m d.now d.attempt d.job paid s').1

unfoldable pub deliver : Pydantic → List Delivery → Services → Services
deliver m [] s = s
deliver m (d ∷ ds) s = deliver m ds (crash_after m d.effects d s)

close_job-Balanced :
    (m : Pydantic) (now attempt : ℕ) (job : Job) (paid : Result Bool) (s : Services)
    → Balanced s
    → Balanced (close_job m now attempt job paid s).1
close_job-Balanced m now attempt job (err e) s b = b
close_job-Balanced m now attempt job (ok paid) s b =
    record_result-Balanced m job paid _
      (send_reply-Balanced now job.ticket job.result.reply_text attempt s b)

crash_after-Balanced :
    (m : Pydantic) (n : ℕ) (d : Delivery) (s : Services)
    → Balanced s
    → Balanced (crash_after m n d s)
unfolding crash_after
crash_after-Balanced m zero d s b = b
crash_after-Balanced m (suc zero) d s b = refund_step-Balanced d.now d.attempt d.job s b
crash_after-Balanced m (suc (suc zero)) d s b =
    send_reply-Balanced d.now d.job.ticket d.job.result.reply_text d.attempt _
      (refund_step-Balanced d.now d.attempt d.job s b)
crash_after-Balanced m (suc (suc (suc n))) d s b =
    close_job-Balanced m d.now d.attempt d.job _ _ (refund_step-Balanced d.now d.attempt d.job s b)

-- From balanced books, after any deliveries of any finalize tasks, each at any time and each dying
-- after any number of its effects, no ticket has been sent two replies and none has been refunded
-- twice, and each reply and refund that went out is in its ledger.
pub deliver-Balanced :
    (m : Pydantic) (ds : List Delivery) (s : Services) → Balanced s → Balanced (deliver m ds s)
unfolding deliver
deliver-Balanced m [] s b = b
deliver-Balanced m (d ∷ ds) s b = deliver-Balanced m ds _ (crash_after-Balanced m d.effects d s b)

-- A worker that lives performs exactly what `run_finalize` does.
pub crash_after_none :
    (m : Pydantic) (d : Delivery) (task : QueuedTask) (n : ℕ) (s : Services)
    → read_job m task ≡ ok d.job
    → task.attempts ≡ d.attempt
    → crash_after m (suc (suc (suc n))) d s ≡ (run_finalize m d.now task s).1
unfolding crash_after run_finalize
crash_after_none m d task n s e f = rw (e, f)
