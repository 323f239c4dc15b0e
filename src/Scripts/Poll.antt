-- ===== src/Scripts/Poll.antt =====
-- The polling of scripts/batch.py, `poll_ticket_snapshots`. A turn of its loop is given the time at
-- which it begins and what each request of it comes to; the requests of a turn run at once, and each
-- takes effect in one piece, in the order of the ids here.
pub mod Answers
pub mod Settles
use ticket_graph.Prelude.{
  ℕ, ◌+◌, String, Bool, true, false, not, ◌&&◌, ◌||◌, Option, none, some, List, [], ◌∷◌, leb,
  if◌then◌else◌, ◌==◌, nat_eq, string_eq, text_order, sort_by,
}
use ticket_graph.Json.{Json, get, str}
use ticket_graph.Result.{Result, ok, err, ◌>>=◌, http_error, batch_timeout, key_error, value_error}
use ticket_graph.Sql.{exists_where, delete_where}
use ticket_graph.Migrations.{to_set, is_text}
use ticket_graph.Scripts.{Answer, timed_out, failed, response}
use ticket_graph.Scripts.Dict.{Dict, put}
use ticket_graph.Scripts.Batch.{TicketSnapshot, extract_model_path, mentions}

-- SETTLED_STATUSES
abbrev pub settled_statuses : List String
settled_statuses = "resolved" ∷ "escalated" ∷ "rejected" ∷ "awaiting_approval" ∷ []

unfoldable pub is_settled : String → Bool
unfolding mentions
is_settled status = mentions status settled_statuses

-- TRANSIENT_STATUS_CODES
unfoldable pub is_transient : ℕ → Bool
is_transient code = code == 500 || code == 502 || code == 503 || code == 504

-- `raise_for_status` raises for any code but these.
abbrev pub is_success : ℕ → Bool
is_success code = leb 200 code && leb code 299

-- the tickets that have not settled, and what is known of those that have answered
pub record Progress : Type 0 where
  pub pending : List String
  pub snapshots : Dict TicketSnapshot

-- `body["status"]`; `text_of` is `str` of a JSON value
abbrev pub status_of : (Json → String) → Json → Result String
status_of text_of body = elim (get "status" body) [ none ↦ err key_error | some j ↦ ok (text_of j) ]

unfoldable pub record_snapshot : String → String → Option String → Progress → Progress
unfolding is_settled
record_snapshot ticket_id status model_path p =
    let snapshots =
      put ticket_id (record { status = status; model_path = model_path }) p.snapshots in
    if is_settled status
    then record { pending = delete_where (is_text ticket_id) p.pending; snapshots = snapshots }
    else record p { snapshots = snapshots }

abbrev pub told : (Json → String) → String → Json → Progress → Result Progress
told text_of ticket_id body p = do
  status ← status_of text_of body
  ok (record_snapshot ticket_id status (extract_model_path body) p)

unfoldable pub check_one : (Json → String) → String → Answer → Progress → Result Progress
unfolding record_snapshot is_transient
check_one text_of ticket_id timed_out p = ok p
check_one text_of ticket_id failed p = err http_error
check_one text_of ticket_id (response code body) p =
    if is_transient code
    then ok p
    else if not (is_success code)
    then err http_error
    else elim body [ none ↦ err (value_error "no JSON") | some j ↦ told text_of ticket_id j p ]

unfoldable pub check_all :
    (Json → String) → (String → Answer) → List String → Progress → Result Progress
unfolding check_one
check_all text_of answer [] p = ok p
check_all text_of answer (i ∷ ids) p =
    check_one text_of i (answer i) p >>= check_all text_of answer ids

pub record Turn : Type 0 where
  pub time : ℕ
  pub answer : String → Answer

abbrev pub is_empty : List String → Bool
is_empty [] = true
is_empty (x ∷ xs) = false

-- `none` as long as the given turns do not end it
unfoldable pub poll :
    (Json → String) → ℕ → List Turn → Progress → Option (Result (Dict TicketSnapshot))
unfolding check_all
poll text_of deadline [] p = if is_empty p.pending then some (ok p.snapshots) else none
poll text_of deadline (t ∷ turns) p =
    if is_empty p.pending
    then some (ok p.snapshots)
    else if leb deadline t.time
    then some (err batch_timeout)
    else elim (check_all text_of t.answer (sort_by text_order p.pending) p) [
      | err e ↦ some (err e)
      | ok p' ↦ poll text_of deadline turns p'
    ]

-- `poll_ticket_snapshots`, begun at `start`
unfoldable pub poll_ticket_snapshots :
    (Json → String) → ℕ → ℕ → List Turn → List String → Option (Result (Dict TicketSnapshot))
unfolding poll
poll_ticket_snapshots text_of start timeout turns ticket_ids =
    poll text_of (start + timeout) turns (record { pending = to_set ticket_ids; snapshots = [] })
