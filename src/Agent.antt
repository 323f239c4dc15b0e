-- ===== src/Agent.antt =====
-- src/ticketflow/agent/base.py, the agent operations of activities.py, and `_run_activity` of
-- agent_worker.py: the agent is an interface, over a state `R` such as that of a random generator.
pub mod Mock
pub mod Stored
use ticket_graph.Prelude.{◌≡◌, true, if◌then◌else◌, ◌==◌, nat_eq, string_eq}
use ticket_graph.Json.{Json}
use ticket_graph.Result.{Result, ok, err, value_error, item, ◌>>=◌}
use ticket_graph.Models.{Ticket, Classification, DraftReply, classification_ok, draft_ok}
use ticket_graph.Models.Codec.{Pydantic}
use ticket_graph.TaskQueue.{QueuedTask}

-- An operation that reads and moves the state, and may raise.
abbrev pub Drawing : Type 0 → Type 0 → Type 0
Drawing R A = R → Result A × R

pub record Agent (R : Type 0) : Type 0 where
  pub classify : Ticket → Drawing R Classification
  pub draft_reply : Ticket → Classification → Drawing R DraftReply

-- What an agent returns meets the constraints of the models, as it must: it returns instances.
pub record IsTyped {R : Type 0} (agent : Agent R) : Type 0 where
  pub classify_ok :
      (ticket : Ticket) (r : R) (c : Classification)
      → (agent.classify ticket r).0 ≡ ok c
      → classification_ok c ≡ true
  pub draft_reply_ok :
      (ticket : Ticket) (c : Classification) (r : R) (d : DraftReply)
      → (agent.draft_reply ticket c r).0 ≡ ok d
      → draft_ok d ≡ true

-- `result.model_dump(mode="json")`
abbrev pub dumped : {A : Type 0} → (A → Json) → Result A → Result Json
dumped dump (ok a) = ok (dump a)
dumped dump (err e) = err e

abbrev pub run_read : {R A : Type 0} → Result A → (A → Drawing R Json) → Drawing R Json
run_read (ok a) f r = f a r
run_read (err e) f r = (err e, r)

module _ {R : Type 0} (m : Pydantic) (agent : Agent R) where
  abbrev pub classify_activity : Ticket → Drawing R Json
  classify_activity ticket r =
      let (c, r') = agent.classify ticket r in (dumped m.classification.model_dump c, r')

  abbrev pub draft_activity : (Ticket × Classification) → Drawing R Json
  draft_activity (ticket, c) r =
      let (d, r') = agent.draft_reply ticket c r in (dumped m.draft.model_dump d, r')

  abbrev pub read_ticket : QueuedTask → Result Ticket
  read_ticket task = item "ticket" task.payload >>= m.ticket.model_validate

  abbrev pub read_both : QueuedTask → Result (Ticket × Classification)
  read_both task = do
    ticket ← read_ticket task
    json ← item "classification" task.payload
    c ← m.classification.model_validate json
    ok (ticket, c)

  -- `_run_activity`, with the dump by which `process_one_task` stores what it returns
  unfoldable pub run_activity : QueuedTask → Drawing R Json
  run_activity task =
      if task.task_type == "classify"
      then run_read (read_ticket task) classify_activity
      else if task.task_type == "draft"
      then run_read (read_both task) draft_activity
      else λ r. (err (value_error "unexpected agent task_type"), r)
