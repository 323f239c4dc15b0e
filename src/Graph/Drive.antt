-- ===== src/Graph/Drive.antt =====
-- The edges of `build_ticket_graph` of src/ticketflow/graph.py, and the part of LangGraph that runs
-- them: a call of `ainvoke` runs one node after the other along the edges, each node's update
-- checkpointed, until a node suspends, raises, or END is reached; `Command(resume=v)` runs the
-- suspended node again with one more resume value.
use ticket_graph.Prelude.{
  ℕ, zero, suc, Bool, false, Option, none, some, List, [], ◌∷◌, ◌++◌, if◌then◌else◌, nat_eq,
  string_eq,
}
use ticket_graph.Json.{Json}
use ticket_graph.Result.{Error}
use ticket_graph.TaskQueue.{TaskTable}
use ticket_graph.Models.{Ticket, received, TicketStatus, is_escalated}
use ticket_graph.Workflows.{Config}
use ticket_graph.Graph.Action.{Action, Outcome, returned, interrupted, raised}
use ticket_graph.Graph.Dispatch.{TicketState}
use ticket_graph.Graph.Nodes
use ticket_graph.Models.Codec.{Pydantic}

pub data Node : Type 0 where
  dispatch_classify await_classify dispatch_draft await_draft decide_approval : Node
  prepare_approval await_approval execute : Node

abbrev status_escalated : Option TicketStatus → Bool
status_escalated none = false
status_escalated (some s) = is_escalated s

unfoldable pub route_after_classify : TicketState → Node
route_after_classify state = if status_escalated state.status then execute else dispatch_draft

unfoldable pub route_after_draft : TicketState → Node
route_after_draft state = if status_escalated state.status then execute else decide_approval

unfoldable pub route_after_decide : TicketState → Node
route_after_decide state = if state.needs_approval then prepare_approval else execute

-- `add_edge` and `add_conditional_edges`; `none` is END
unfoldable pub edge : Node → TicketState → Option Node
unfolding route_after_classify route_after_draft route_after_decide
edge dispatch_classify state = some await_classify
edge await_classify state = some (route_after_classify state)
edge dispatch_draft state = some await_draft
edge await_draft state = some (route_after_draft state)
edge decide_approval state = some (route_after_decide state)
edge prepare_approval state = some await_approval
edge await_approval state = some execute
edge execute state = none

-- The checkpoint of a suspended thread: its state, the node that suspended with the resume values
-- that it has been given, and the envelope of its interrupt.
pub record Thread : Type 0 where
  pub state : TicketState
  pub node : Node
  pub resumes : List Json
  pub envelope : Json

pub data Stop : Type 0 where
  parked : Thread → Stop
  ended : TicketState → Stop
  crashed : Error → Stop

-- What comes after a node: the thread is checkpointed where it suspends, and goes on along the edge.
abbrev pub go_on :
    (Node → TicketState → Option (Stop × TaskTable))
    → TicketState
    → TaskTable
    → Option Node
    → Option (Stop × TaskTable)
go_on rest state tasks none = some (ended state, tasks)
go_on rest state tasks (some next) = rest next state

abbrev pub follow :
    (Node → TicketState → Option (Stop × TaskTable))
    → Node
    → TicketState
    → List Json
    → Outcome TicketState
    → TaskTable
    → Option (Stop × TaskTable)
follow rest node state resumes (returned state') tasks = go_on rest state' tasks (edge node state')
follow rest node state resumes (interrupted envelope) tasks =
    some (
      parked (record { state = state; node = node; resumes = resumes; envelope = envelope }),
      tasks,
    )
follow rest node state resumes (raised e) tasks = some (crashed e, tasks)

module _ (cfg : Config) (m : Pydantic) (at : Node → ℕ) where
  -- `add_node`; `at` gives the clock at which each node runs.
  unfoldable pub run_node : Node → TicketState → Action TicketState
  run_node dispatch_classify = Nodes.dispatch_classify cfg m (at dispatch_classify)
  run_node await_classify = Nodes.await_classify cfg m (at await_classify)
  run_node dispatch_draft = Nodes.dispatch_draft cfg m (at dispatch_draft)
  run_node await_draft = Nodes.await_draft cfg m (at await_draft)
  run_node decide_approval = Nodes.decide_approval cfg m (at decide_approval)
  run_node prepare_approval = Nodes.prepare_approval cfg m (at prepare_approval)
  run_node await_approval = Nodes.await_approval cfg m (at await_approval)
  run_node execute = Nodes.execute cfg m (at execute)

  -- The first node has been given `resumes`, those after it none. `fuel` bounds the nodes.
  unfoldable pub drive : ℕ → Node → TicketState → List Json → TaskTable → Option (Stop × TaskTable)
  drive zero node state resumes tasks = none
  drive (suc fuel) node state resumes tasks =
      let (outcome, w) = run_node node state (record { resumes = resumes; tasks = tasks }) in
      follow (λ next state'. drive fuel next state' [] w.tasks) node state resumes outcome w.tasks

-- the state that `api.create_ticket` starts a thread with
abbrev pub initial : Ticket → TicketState
initial ticket = record {
  ticket = some ticket;
  classification = none;
  draft = none;
  needs_approval = false;
  decision = none;
  wakeup_at = none;
  status = some received;
  refund_executed = false;
  result = none;
}

-- The graph has no cycle, so no call of `ainvoke` runs more than its eight nodes.
abbrev pub nodes : ℕ
nodes = 8

module _ (cfg : Config) (m : Pydantic) (at : Node → ℕ) where
  -- `ainvoke({"ticket": ticket, "status": RECEIVED}, cfg)`
  unfoldable pub start : Ticket → TaskTable → Option (Stop × TaskTable)
  start ticket tasks = drive cfg m at nodes dispatch_classify (initial ticket) [] tasks

  -- `ainvoke(Command(resume=value), cfg)`
  unfoldable pub resume : Thread → Json → TaskTable → Option (Stop × TaskTable)
  resume thread value tasks =
      drive cfg m at nodes thread.node thread.state (thread.resumes ++ value ∷ []) tasks
