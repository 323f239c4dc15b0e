-- ===== src/Models/Codec.antt =====
-- pydantic, of which the program uses `model_dump(mode="json")` and `model_validate`, as an
-- interface: a model that satisfies its constraints survives the trip through JSON, no
-- model comes back as another, what
-- `model_validate` returns satisfies them, and the keys of a dump are the names of the fields.
use ticket_graph.Prelude.{Bool, true, ◌≡◌, none}
use ticket_graph.Json.{Json, get}
use ticket_graph.Models.{
  Ticket, Classification, ProposedAction, DraftReply, ApprovalDecision, TicketResult,
  classification_ok, action_ok, draft_ok,
}
use ticket_graph.Result.{Result, ok}

-- the JSON form of one model, whose constraints are `fits`
pub record Codec (A : Type 0) (fits : A → Bool) : Type 0 where
  pub model_dump : A → Json
  pub model_validate : Json → Result A
  pub validate-dump : (a : A) → fits a ≡ true → model_validate (model_dump a) ≡ ok a
  pub validate-dump_eq : (a b : A) → model_validate (model_dump a) ≡ ok b → b ≡ a
  pub validate_fits : (j : Json) (a : A) → model_validate j ≡ ok a → fits a ≡ true

abbrev pub unconstrained {ℓ} : {A : Type ℓ} → A → Bool
unconstrained a = true

pub record Pydantic : Type 0 where
  pub ticket : Codec Ticket unconstrained
  pub classification : Codec Classification classification_ok
  pub action : Codec ProposedAction action_ok
  pub draft : Codec DraftReply draft_ok
  pub decision : Codec ApprovalDecision unconstrained
  pub result : Codec TicketResult unconstrained
  -- none of the models has a field `kind`
  pub classification_plain : (c : Classification) → get "kind" (classification.model_dump c) ≡ none
  pub draft_plain : (d : DraftReply) → get "kind" (draft.model_dump d) ≡ none
  pub result_plain : (r : TicketResult) → get "kind" (result.model_dump r) ≡ none
