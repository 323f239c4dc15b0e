-- ===== src/Models/Scalars.antt =====
-- The JSON form of the scalar fields of the models, written and read back.
use ticket_graph.Prelude.{
  ℕ, String, ◌≡◌, refl, Bool, Option, none, some, if◌then◌else◌, ◌==◌, nat_eq, string_eq,
}
use ticket_graph.Json.{Json, null, bool, num, str}
use ticket_graph.Result.{Result, ok, err, validation_error}
use ticket_graph.Models.{
  TicketCategory, ActionType, TicketStatus, billing, technical, account, general, reply_only,
  refund, received, classifying, drafting, awaiting_approval, resolved, rejected, escalated,
}

abbrev pub as_text : Option Json → Result String
as_text (some (str s)) = ok s
as_text _ = err validation_error

abbrev pub as_number : Option Json → Result ℕ
as_number (some (num n)) = ok n
as_number _ = err validation_error

abbrev pub as_bool : Option Json → Result Bool
as_bool (some (bool b)) = ok b
as_bool _ = err validation_error

abbrev pub category_text : TicketCategory → String
category_text billing = "billing"
category_text technical = "technical"
category_text account = "account"
category_text general = "general"

abbrev pub as_category : Option Json → Result TicketCategory
as_category (some (str s)) =
    if s == "billing"
    then ok billing
    else if s == "technical"
    then ok technical
    else if s == "account"
    then ok account
    else if s == "general"
    then ok general
    else err validation_error
as_category _ = err validation_error

pub category_back : (x : TicketCategory) → as_category (some (str (category_text x))) ≡ ok x
category_back billing = refl
category_back technical = refl
category_back account = refl
category_back general = refl

abbrev pub action_type_text : ActionType → String
action_type_text reply_only = "reply_only"
action_type_text refund = "refund"

abbrev pub as_action_type : Option Json → Result ActionType
as_action_type (some (str s)) =
    if s == "reply_only"
    then ok reply_only
    else if s == "refund"
    then ok refund
    else err validation_error
as_action_type _ = err validation_error

pub action_type_back : (x : ActionType) → as_action_type (some (str (action_type_text x))) ≡ ok x
action_type_back reply_only = refl
action_type_back refund = refl

abbrev pub status_text : TicketStatus → String
status_text received = "received"
status_text classifying = "classifying"
status_text drafting = "drafting"
status_text awaiting_approval = "awaiting_approval"
status_text resolved = "resolved"
status_text rejected = "rejected"
status_text escalated = "escalated"

abbrev pub as_status : Option Json → Result TicketStatus
as_status (some (str s)) =
    if s == "received"
    then ok received
    else if s == "classifying"
    then ok classifying
    else if s == "drafting"
    then ok drafting
    else if s == "awaiting_approval"
    then ok awaiting_approval
    else if s == "resolved"
    then ok resolved
    else if s == "rejected"
    then ok rejected
    else if s == "escalated"
    then ok escalated
    else err validation_error
as_status _ = err validation_error

pub status_back : (x : TicketStatus) → as_status (some (str (status_text x))) ≡ ok x
status_back received = refl
status_back classifying = refl
status_back drafting = refl
status_back awaiting_approval = refl
status_back resolved = refl
status_back rejected = refl
status_back escalated = refl

abbrev pub dump_number : Option ℕ → Json
dump_number none = null
dump_number (some n) = num n

abbrev pub as_optional_number : Option Json → Result (Option ℕ)
as_optional_number (some null) = ok none
as_optional_number (some (num n)) = ok (some n)
as_optional_number _ = err validation_error

pub optional_number_back : (o : Option ℕ) → as_optional_number (some (dump_number o)) ≡ ok o
optional_number_back none = refl
optional_number_back (some n) = refl

abbrev pub dump_text : Option String → Json
dump_text none = null
dump_text (some s) = str s

abbrev pub as_optional_text : Option Json → Result (Option String)
as_optional_text (some null) = ok none
as_optional_text (some (str s)) = ok (some s)
as_optional_text _ = err validation_error

pub optional_text_back : (o : Option String) → as_optional_text (some (dump_text o)) ≡ ok o
optional_text_back none = refl
optional_text_back (some s) = refl
