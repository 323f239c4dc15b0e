-- ===== src/Models.antt =====
-- src/ticketflow/models.py: the data models. A float field is a non-negative finite double, kept as
-- the number of units of 2^-1074, of which every such double is a whole multiple: comparisons are
-- exact. pydantic itself is the interface of `Models/Codec`.
pub mod Codec
pub mod Scalars
pub mod Plain
use ticket_graph.Prelude.{
  ℕ, ◌*◌, ◌^◌, ◌≤◌, ◌<◌, ◌≡◌, Bool, true, false, String, Option, none, some, is_some, leb, ltb,
  ◌&&◌, ◌||◌, not,
}

-- 1.0
abbrev pub one : ℕ
one = 2 ^ 1074

pub data TicketCategory : Type 0 where
  billing technical account general : TicketCategory

pub data ActionType : Type 0 where
  reply_only refund : ActionType

pub data TicketStatus : Type 0 where
  received classifying drafting awaiting_approval resolved rejected escalated : TicketStatus

abbrev pub is_refund : ActionType → Bool
is_refund refund = true
is_refund _ = false

abbrev pub is_escalated : TicketStatus → Bool
is_escalated escalated = true
is_escalated _ = false

abbrev pub is_rejected : TicketStatus → Bool
is_rejected rejected = true
is_rejected _ = false

abbrev pub is_resolved : TicketStatus → Bool
is_resolved resolved = true
is_resolved _ = false

pub record Ticket : Type 0 where
  pub id : String
  pub customer_email : String
  pub subject : String
  pub body : String

pub record Classification : Type 0 where
  pub category : TicketCategory
  pub confidence : ℕ
  pub model : String

-- `Field(ge=0.0, le=1.0)`
abbrev pub classification_ok : Classification → Bool
classification_ok c = leb c.confidence one

pub record ProposedAction : Type 0 where
  pub type : ActionType
  pub refund_amount : Option ℕ

-- `Field(gt=0)` where an amount is given
abbrev positive : Option ℕ → Bool
positive none = true
positive (some amount) = ltb 0 amount

-- the field's constraint, and `require_refund_amount_for_refunds`
abbrev pub action_ok : ProposedAction → Bool
action_ok a = positive a.refund_amount && (not (is_refund a.type) || is_some a.refund_amount)

pub record DraftReply : Type 0 where
  pub reply_text : String
  pub action : ProposedAction
  pub confidence : ℕ
  pub model : String

abbrev pub draft_ok : DraftReply → Bool
draft_ok d = action_ok d.action && leb d.confidence one

pub record ApprovalDecision : Type 0 where
  pub approved : Bool
  pub approver : String
  pub note : Option String

pub record TicketResult : Type 0 where
  pub ticket_id : String
  pub status : TicketStatus
  pub reply_text : String
  pub refund_executed : Bool
  pub model_path : String

pub record TicketStatusInfo : Type 0 where
  pub ticket_id : String
  pub status : TicketStatus
  pub classification : Option Classification
  pub draft : Option DraftReply
  pub decision : Option ApprovalDecision
  pub result : Option TicketResult
