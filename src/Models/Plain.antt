-- ===== src/Models/Plain.antt =====
-- One way to meet the interface of `Models/Codec`: each model as the object of its fields, read
-- back field by field, and its constraints checked last. The tests and examples run on it.
use ticket_graph.Prelude.{
  ◌≡◌, refl, sym, ◌∙◌, Bool, true, Option, none, some, arith, if◌then◌else◌, nat_eq, string_eq,
}
use ticket_graph.Json.{Json, get, bool, num, str, obj, end, field}
use ticket_graph.Result.{Result, ok, err, validation_error, ◌>>=◌, >>=-eq-ok}
use ticket_graph.Models.{
  Ticket, Classification, ProposedAction, DraftReply, ApprovalDecision, TicketResult, action_ok,
  classification_ok, draft_ok,
}
use ticket_graph.Models.Scalars.{
  as_text, as_number, as_bool, category_text, as_category, category_back, action_type_text,
  as_action_type, action_type_back, status_text, as_status, status_back, dump_number,
  as_optional_number, optional_number_back, dump_text, as_optional_text, optional_text_back,
}
use ticket_graph.Models.Codec.{Codec, Pydantic, unconstrained}

abbrev checked : {A : Type 0} → (A → Bool) → A → Result A
checked fits a = if fits a then ok a else err validation_error

module _ {A : Type 0} (fits : A → Bool) (dump : A → Json) (read : Json → Result A)
    (back : (a : A) → read (dump a) ≡ ok a) where
  pub checked-dump : (a : A) → (read (dump a) >>= checked fits) ≡ checked fits a
  checked-dump a = rw back

  pub fits_of_checked : (a b : A) → checked fits a ≡ ok b → (b ≡ a) × (fits b ≡ true)
  fits_of_checked a b h = ground arith

  abbrev codec : Codec A fits
  codec = record {
    model_dump = dump;
    model_validate = λ j. read j >>= checked fits;
    validate-dump = λ a h. checked-dump a ∙ rw h;
    validate-dump_eq = λ a b h. (fits_of_checked a b (sym (checked-dump a) ∙ h)).0;
    validate_fits =
        λ j a h. let (x, _, e) = >>=-eq-ok (read j) (checked fits) h in (fits_of_checked x a e).1;
  }

abbrev pub dump_ticket : Ticket → Json
dump_ticket a = obj (
    field "id" (str a.id) (
      field "customer_email" (str a.customer_email)
        (field "subject" (str a.subject) (field "body" (str a.body) (end)))))

abbrev read_ticket : Json → Result Ticket
read_ticket j = do
  id ← as_text (get "id" j)
  customer_email ← as_text (get "customer_email" j)
  subject ← as_text (get "subject" j)
  body ← as_text (get "body" j)
  ok (record { id = id; customer_email = customer_email; subject = subject; body = body })

pub ticket_back : (a : Ticket) → read_ticket (dump_ticket a) ≡ ok a
unfolding get
ticket_back a = refl

abbrev pub dump_classification : Classification → Json
dump_classification a = obj (
    field "category" (str (category_text a.category))
      (field "confidence" (num a.confidence) (field "model" (str a.model) (end))))

abbrev read_classification : Json → Result Classification
read_classification j = do
  category ← as_category (get "category" j)
  confidence ← as_number (get "confidence" j)
  model ← as_text (get "model" j)
  ok (record { category = category; confidence = confidence; model = model })

pub classification_back : (a : Classification) → read_classification (dump_classification a) ≡ ok a
unfolding get
classification_back a = rw (category_back a.category)

abbrev dump_action : ProposedAction → Json
dump_action a = obj (
    field "type" (str (action_type_text a.type))
      (field "refund_amount" (dump_number a.refund_amount) (end)))

abbrev read_action : Json → Result ProposedAction
read_action j = do
  type ← as_action_type (get "type" j)
  refund_amount ← as_optional_number (get "refund_amount" j)
  ok (record { type = type; refund_amount = refund_amount })

pub action_back : (a : ProposedAction) → read_action (dump_action a) ≡ ok a
unfolding get
action_back a = rw (action_type_back a.type, optional_number_back a.refund_amount)

abbrev as_action : Option Json → Result ProposedAction
as_action (some j) = read_action j
as_action none = err validation_error

abbrev pub dump_draft : DraftReply → Json
dump_draft a = obj (
    field "reply_text" (str a.reply_text) (
      field "action" (dump_action a.action)
        (field "confidence" (num a.confidence) (field "model" (str a.model) (end)))))

abbrev read_draft : Json → Result DraftReply
read_draft j = do
  reply_text ← as_text (get "reply_text" j)
  action ← as_action (get "action" j)
  confidence ← as_number (get "confidence" j)
  model ← as_text (get "model" j)
  ok (record { reply_text = reply_text; action = action; confidence = confidence; model = model })

pub draft_back : (a : DraftReply) → read_draft (dump_draft a) ≡ ok a
unfolding get
draft_back a = rw (action_back a.action)

abbrev dump_decision : ApprovalDecision → Json
dump_decision a = obj (
    field "approved" (bool a.approved)
      (field "approver" (str a.approver) (field "note" (dump_text a.note) (end))))

abbrev read_decision : Json → Result ApprovalDecision
read_decision j = do
  approved ← as_bool (get "approved" j)
  approver ← as_text (get "approver" j)
  note ← as_optional_text (get "note" j)
  ok (record { approved = approved; approver = approver; note = note })

pub decision_back : (a : ApprovalDecision) → read_decision (dump_decision a) ≡ ok a
unfolding get
decision_back a = rw (optional_text_back a.note)

abbrev dump_result : TicketResult → Json
dump_result a = obj (
    field "ticket_id" (str a.ticket_id) (
      field "status" (str (status_text a.status)) (
        field "reply_text" (str a.reply_text) (
          field "refund_executed" (bool a.refund_executed)
            (field "model_path" (str a.model_path) (end))))))

abbrev read_result : Json → Result TicketResult
read_result j = do
  ticket_id ← as_text (get "ticket_id" j)
  status ← as_status (get "status" j)
  reply_text ← as_text (get "reply_text" j)
  refund_executed ← as_bool (get "refund_executed" j)
  model_path ← as_text (get "model_path" j)
  ok (record {
    ticket_id = ticket_id;
    status = status;
    reply_text = reply_text;
    refund_executed = refund_executed;
    model_path = model_path;
  })

pub result_back : (a : TicketResult) → read_result (dump_result a) ≡ ok a
unfolding get
result_back a = rw (status_back a.status)

unfoldable pub plain : Pydantic
unfolding get
plain = record {
  ticket = codec unconstrained dump_ticket read_ticket ticket_back;
  classification =
      codec classification_ok dump_classification read_classification classification_back;
  action = codec action_ok dump_action read_action action_back;
  draft = codec draft_ok dump_draft read_draft draft_back;
  decision = codec unconstrained dump_decision read_decision decision_back;
  result = codec unconstrained dump_result read_result result_back;
  classification_plain = λ c. refl;
  draft_plain = λ d. refl;
  result_plain = λ r. refl;
}
