-- ===== src/Api.antt =====
-- src/ticketflow/api.py: the handlers that create a ticket, read one, list tickets, take a decision
-- and report readiness. FastAPI's routing and parsing are not modelled: a handler takes the parsed
-- request, and answers with a value, an HTTPException, or what a call of it raises.
pub mod Create
pub mod Read
use ticket_graph.Prelude.{
  ℕ, zero, suc, ◌+◌, ◌-◌, ◌*◌, ◌/◌, ◌%◌, ◌^◌, ◌≤◌, ◌<◌, String, ◌≡◌, refl, sym, ap, ◌∙◌, ◌≢◌, ◌↔◌,
  ◌⊎◌, inl, inr, Bool, true, false, not, ◌&&◌, ◌||◌, Option, none, some, List, [], ◌∷◌, ◌++◌, arith,
  All, All-append, All-impl, All-intro, All-zip, Distinct, Distinct-unique, length, ltb, leb,
  if◌then◌else◌, Bool-cases, Option-cases, is_some, some_of, Eq, ◌==◌, nat_eq, string_eq, ==_iff,
  ==_refl, ne_of_==, text_le, text_le_antisym, text_le_total, text_order, Order, sort_by, insert_by,
  IsSorted, sort_by-IsSorted, sort_by_sorted, All-sort_by, map, length-insert, Trace, Trace-trans,
  Trace-impl,
}
use ticket_graph.Json.{Json, obj, field, end, str}
use ticket_graph.Result.{Result, ok, err, Error, key_error}
use ticket_graph.Models.{
  Ticket, TicketStatus, TicketStatusInfo, TicketResult, ApprovalDecision, awaiting_approval,
}
use ticket_graph.Models.Codec.{Pydantic}
use ticket_graph.Workflows.{Config, approval_decision_signal}
use ticket_graph.Ledger.{Ledger, load_result}
use ticket_graph.Graph.Dispatch.{TicketState}
use ticket_graph.Graph.Drive.{Node, Thread, Stop, parked, ended, crashed, start}
use ticket_graph.Runs.{RunStore, acreate_run}
use ticket_graph.Runs.Listing.{list_runs_by_status}
use ticket_graph.Runs.Signals.{add_pending_signal_if_waiting}
use ticket_graph.Runner.{Checkpoint, System}
use ticket_graph.Runner.Step.{get_state, stop_status}

-- what a handler answers: a body, or an HTTPException with its status code and detail
pub data Reply (A : Type 0) : Type 0 where
  body : A → Reply A
  http_exception : ℕ → String → Reply A
  raised : Error → Reply A

pub record CreateTicketRequest : Type 0 where
  pub customer_email : String
  pub subject : String
  pub body : String

abbrev pub new_ticket : String → CreateTicketRequest → Ticket
new_ticket id request = record {
  id = id;
  customer_email = request.customer_email;
  subject = request.subject;
  body = request.body;
}

-- the values of the thread that an `ainvoke` leaves
abbrev pub stop_values : Stop → Option TicketState
stop_values (parked th) = some th.state
stop_values (ended state) = some state
stop_values (crashed e) = none

abbrev pub stop_thread : Stop → Option Thread
stop_thread (parked th) = some th
stop_thread _ = none

abbrev pub checkpoint_of : String → Stop → Option TicketState → List Checkpoint
checkpoint_of id stop none = []
checkpoint_of id stop (some state) =
    record { thread_id = id; materialized = true; values = state; suspended = stop_thread stop }
    ∷ []

-- `out.get("wakeup_at")`
abbrev pub stop_wakeup : Stop → Option ℕ
stop_wakeup (parked th) = th.state.wakeup_at
stop_wakeup (ended state) = state.wakeup_at
stop_wakeup (crashed e) = none

-- the row that goes with what `ainvoke` gave out
abbrev pub recorded : String → ℕ → Result TicketStatus → Stop → System → Reply String × System
recorded id now (err e) stop sys = (raised e, sys)
recorded id now (ok status) stop sys =
    (body id, record sys { store = acreate_run id status (stop_wakeup stop) now sys.store })

module _ (cfg : Config) (m : Pydantic) (at : Node → ℕ) where
  -- the first transaction of `create_ticket`: the `ainvoke` that seeds a thread of its own
  unfoldable pub seed : Ticket → System → Option (Stop × System)
  seed ticket sys = elim (start cfg m at ticket sys.tasks) [
    | none ↦ none
    | some (stop, tasks) ↦ some (
      stop,
      record sys {
        tasks = tasks;
        checkpoints = sys.checkpoints ++ checkpoint_of ticket.id stop (stop_values stop);
      },
    )
  ]

  -- `id` is `uuid4().hex`, and `now` the clock of the second transaction.
  unfoldable pub create_ticket :
      String → CreateTicketRequest → ℕ → System → Option (Reply String × System)
  unfolding seed
  create_ticket id request now sys = elim (seed (new_ticket id request) sys) [
    | none ↦ none
    | some (stop, sys') ↦ some (recorded id now (stop_status stop) stop sys')
  ]

abbrev info_of_values : String → TicketState → Reply TicketStatusInfo
info_of_values ticket_id values = elim values.status [
  | none ↦ raised key_error
  | some status ↦ body record {
    ticket_id = ticket_id;
    status = status;
    classification = values.classification;
    draft = values.draft;
    decision = values.decision;
    result = values.result;
  }
]

abbrev pub info_of_result : String → TicketResult → TicketStatusInfo
info_of_result ticket_id result = record {
  ticket_id = ticket_id;
  status = result.status;
  classification = none;
  draft = none;
  decision = none;
  result = some result;
}

abbrev info_of_load : String → Result (Option TicketResult) → Reply TicketStatusInfo
info_of_load ticket_id (err e) = raised e
info_of_load ticket_id (ok none) = http_exception 404 "ticket not found"
info_of_load ticket_id (ok (some result)) = body (info_of_result ticket_id result)

-- Every checkpoint has values, since a thread is started with some.
unfoldable pub get_ticket : Pydantic → String → System → Ledger → Reply TicketStatusInfo
get_ticket m ticket_id sys l = elim (get_state ticket_id sys) [
  | some c ↦
      if c.materialized
      then info_of_values ticket_id c.values
      else info_of_load ticket_id (load_result m ticket_id l)
  | none ↦ info_of_load ticket_id (load_result m ticket_id l)
]

abbrev accepted : Option ℕ → Reply TicketStatus
accepted none = http_exception 409 "ticket is not awaiting approval"
accepted (some signal_id) = body awaiting_approval

unfoldable pub submit_approval :
    Pydantic → String → ApprovalDecision → ℕ → System → Reply TicketStatus × System
submit_approval m ticket_id decision now sys =
    let (signal_id, store) =
      add_pending_signal_if_waiting ticket_id approval_decision_signal
        (m.decision.model_dump decision) awaiting_approval now sys.store in
    (accepted signal_id, record sys { store = store })

unfoldable pub list_tickets : Order String → TicketStatus → System → List String
list_tickets collation status sys = list_runs_by_status collation status sys.store

-- `/ready`: whether `SELECT 1` was answered, and whether the graph is compiled
pub record Readiness : Type 0 where
  pub healthy : Bool
  pub database_connected : Bool
  pub orchestration_ready : Bool

unfoldable pub ready : Bool → Bool → Readiness
ready database_connected orchestration_ready = record {
  healthy = database_connected && orchestration_ready;
  database_connected = database_connected;
  orchestration_ready = orchestration_ready;
}

-- the body of `/health`
abbrev pub health : Json
health = obj (field "status" (str "healthy") (field "service" (str "ticketflow-api") end))

-- `_readiness_config`
abbrev pub readiness_config : Config → String → Json
readiness_config cfg database_url = obj (
    field "database_url" (str database_url) (
      field "task_queue" (str cfg.task_queue) (
        field "agent_task_queue" (str cfg.agent_task_queue)
          (field "fallback_task_queue" (str cfg.fallback_task_queue) end))))

abbrev status_object : String → Json
status_object status = obj (field "status" (str status) end)

-- the body of `/ready`
abbrev pub ready_body : Config → String → Readiness → Json
ready_body cfg database_url r = obj (
    field "status" (str (if r.healthy then "healthy" else "degraded")) (
      field "database" (status_object (if r.database_connected then "connected" else "unavailable"))
        (field "orchestration"
          (status_object (if r.orchestration_ready then "ready" else "not_ready"))
          (field "config" (readiness_config cfg database_url) end))))
