-- ===== src/Ledger.antt =====
-- src/ticketflow/ledger.py and readmodel.py: the ledgers of refunds and replies, keyed by ticket id,
-- with their logs of attempts, and the read model of terminal results. A function of readmodel.py
-- that wraps one of ledger.py is the same statements in a transaction of its own.
pub mod Finalize
pub mod Outboxes
pub mod Results
pub mod Money
use ticket_graph.Prelude.{
  ℕ, suc, String, Bool, true, false, Option, none, some, List, [], ◌∷◌, ◌++◌, length, if◌then◌else◌,
  is_some, ◌==◌, nat_eq, string_eq,
}
use ticket_graph.Json.{Json}
use ticket_graph.Result.{Result, ok, ◌>>=◌}
use ticket_graph.Models.{TicketResult}
use ticket_graph.Models.Codec.{Pydantic}
use ticket_graph.Sql.{select_where, update_where, exists_where, fetchone}

-- a row of `refund_attempts` or `reply_attempts`
pub record Attempt : Type 0 where
  pub id : ℕ
  pub ticket_id : String
  pub attempt : ℕ
  pub attempted_at : ℕ

pub record Refund : Type 0 where
  pub ticket_id : String
  pub amount : ℕ
  pub recorded_at : ℕ

pub record SentReply : Type 0 where
  pub ticket_id : String
  pub customer_email : String
  pub reply_text : String
  pub recorded_at : ℕ

-- a row of `ticket_results`
pub record StoredResult : Type 0 where
  pub ticket_id : String
  pub payload : Json

pub record Ledger : Type 0 where
  pub refunds : List Refund
  pub refund_attempts : List Attempt
  pub next_refund_attempt : ℕ
  pub sent_replies : List SentReply
  pub reply_attempts : List Attempt
  pub next_reply_attempt : ℕ
  pub ticket_results : List StoredResult

abbrev pub refund_of : String → Refund → Bool
refund_of ticket_id r = r.ticket_id == ticket_id

abbrev pub reply_of : String → SentReply → Bool
reply_of ticket_id r = r.ticket_id == ticket_id

abbrev pub result_of : String → StoredResult → Bool
result_of ticket_id r = r.ticket_id == ticket_id

unfoldable pub record_refund : ℕ → String → ℕ → ℕ → Ledger → Bool × Ledger
record_refund now ticket_id amount attempt l =
    let logged = record l {
      refund_attempts =
          l.refund_attempts
          ++ record {
            id = l.next_refund_attempt;
            ticket_id = ticket_id;
            attempt = attempt;
            attempted_at = now;
          }
            ∷ [];
      next_refund_attempt = suc l.next_refund_attempt;
    } in
    if exists_where (refund_of ticket_id) l.refunds then (false, logged) else (
      true,
      record logged {
        refunds =
            l.refunds ++ record { ticket_id = ticket_id; amount = amount; recorded_at = now } ∷ [];
      },
    )

unfoldable pub refund_recorded : String → Ledger → Bool
refund_recorded ticket_id l = is_some (fetchone (select_where (refund_of ticket_id) l.refunds))

unfoldable pub record_sent_reply : ℕ → String → String → String → ℕ → Ledger → Bool × Ledger
record_sent_reply now ticket_id customer_email reply_text attempt l =
    let logged = record l {
      reply_attempts =
          l.reply_attempts
          ++ record {
            id = l.next_reply_attempt;
            ticket_id = ticket_id;
            attempt = attempt;
            attempted_at = now;
          }
            ∷ [];
      next_reply_attempt = suc l.next_reply_attempt;
    } in
    if exists_where (reply_of ticket_id) l.sent_replies then (false, logged) else (
      true,
      record logged {
        sent_replies =
            l.sent_replies
            ++ record {
              ticket_id = ticket_id;
              customer_email = customer_email;
              reply_text = reply_text;
              recorded_at = now;
            }
              ∷ [];
      },
    )

-- ON CONFLICT (ticket_id) DO UPDATE SET data = EXCLUDED.data
unfoldable pub save_result : Pydantic → TicketResult → Ledger → Ledger
save_result m result l =
    let payload = m.result.model_dump result in
    record l {
      ticket_results =
          if exists_where (result_of result.ticket_id) l.ticket_results
          then update_where (result_of result.ticket_id) (λ r. record r { payload = payload })
              l.ticket_results
          else l.ticket_results ++ record { ticket_id = result.ticket_id; payload = payload } ∷ [];
    }

abbrev pub validated : Pydantic → Option StoredResult → Result (Option TicketResult)
validated m none = ok none
validated m (some row) = do result ← m.result.model_validate row.payload; ok (some result)

unfoldable pub load_result : Pydantic → String → Ledger → Result (Option TicketResult)
load_result m ticket_id l =
    validated m (fetchone (select_where (result_of ticket_id) l.ticket_results))

unfoldable pub clear : Ledger → ℕ × Ledger
clear l = (length l.ticket_results, record l { ticket_results = [] })
