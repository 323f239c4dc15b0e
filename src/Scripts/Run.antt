-- ===== src/Scripts/Run.antt =====
-- The run of a batch of scripts/batch.py: it creates the tickets, polls them and sums them up. `post`
-- is what the request for a payload comes to; of several that fail, the exception of the first
-- payload is taken.
pub mod Reports
use ticket_graph.Prelude.{ℕ, String, Option, none, some, List, [], ◌∷◌, if◌then◌else◌, map}
use ticket_graph.Json.{Json, get}
use ticket_graph.Result.{Result, ok, err, ◌>>=◌, http_error, key_error, value_error}
use ticket_graph.Api.{CreateTicketRequest}
use ticket_graph.Scripts.{Answer, timed_out, failed, response}
use ticket_graph.Scripts.Dict.{Dict}
use ticket_graph.Scripts.Batch.{TicketSnapshot, BatchSummary, make_ticket_payloads, summary_of}
use ticket_graph.Scripts.Poll.{Turn, is_success, poll_ticket_snapshots}

-- `str(response.json()["ticket_id"])`
abbrev created_id : (Json → String) → Option Json → Result String
created_id text_of none = err (value_error "no JSON")
created_id text_of (some body) = elim (get "ticket_id" body) [
  | none ↦ err key_error
  | some j ↦ ok (text_of j)
]

unfoldable pub create_one : (Json → String) → Answer → Result String
create_one text_of timed_out = err http_error
create_one text_of failed = err http_error
create_one text_of (response code body) =
    if is_success code then created_id text_of body else err http_error

unfoldable pub create_tickets :
    (Json → String)
    → (CreateTicketRequest → Answer)
    → List CreateTicketRequest
    → Result (List String)
unfolding create_one
create_tickets text_of post [] = ok []
create_tickets text_of post (p ∷ payloads) = create_one text_of (post p) >>= λ id.
    create_tickets text_of post payloads >>= λ ids. ok (id ∷ ids)

-- `{ticket_id: snapshot.status for ...}`
abbrev pub statuses_of : Dict TicketSnapshot → Dict String
statuses_of snapshots = map (λ e. (e.0, e.1.status)) snapshots

abbrev pub polled :
    {A : Type 0}
    → (Dict TicketSnapshot → A)
    → Option (Result (Dict TicketSnapshot))
    → Option (Result A)
polled f none = none
polled f (some (err e)) = some (err e)
polled f (some (ok snapshots)) = some (ok (f snapshots))

unfoldable pub poll_ticket_statuses :
    (Json → String) → ℕ → ℕ → List Turn → List String → Option (Result (Dict String))
unfolding poll_ticket_snapshots
poll_ticket_statuses text_of start timeout turns ticket_ids =
    polled statuses_of (poll_ticket_snapshots text_of start timeout turns ticket_ids)

module _ (str_of : ℕ → String) (text_of : Json → String) where
  abbrev pub poll_created : ℕ → ℕ → List Turn → Result (List String) → Option (Result BatchSummary)
  poll_created start timeout turns (err e) = some (err e)
  poll_created start timeout turns (ok ids) =
      polled summary_of (poll_ticket_snapshots text_of start timeout turns ids)

  unfoldable pub run_batch :
      (CreateTicketRequest → Answer) → ℕ → ℕ → List Turn → ℕ → Option (Result BatchSummary)
  unfolding create_tickets poll_ticket_snapshots summary_of
  run_batch post start timeout turns count =
      poll_created start timeout turns
        (create_tickets text_of post (make_ticket_payloads str_of count))
