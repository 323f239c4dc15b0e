-- ===== src/Graph/Fuel.antt =====
-- The graph of src/ticketflow/graph.py has no cycle, so that the fuel of `ainvoke` is enough.
use ticket_graph.Prelude.{
  ℕ, zero, suc, ◌≤◌, ◌<◌, ◌≡◌, refl, true, Option, none, some, List, [], ◌∷◌, ◌++◌, arith, is_some,
  nat_eq, string_eq,
}
use ticket_graph.Json.{Json}
use ticket_graph.Workflows.{Config}
use ticket_graph.Models.{Ticket}
use ticket_graph.Models.Codec.{Pydantic}
use ticket_graph.TaskQueue.{TaskTable}
use ticket_graph.Graph.Action.{Outcome, World, returned, interrupted, raised}
use ticket_graph.Graph.Dispatch.{TicketState}
use ticket_graph.Graph.Drive.{
  Node, Thread, Stop, initial, nodes, dispatch_classify, await_classify, dispatch_draft,
  await_draft, decide_approval, prepare_approval, await_approval, execute, run_node, edge, drive,
  start, resume, follow, go_on,
}

-- how many nodes a run from this one has at most
abbrev nodes_from : Node → ℕ
nodes_from dispatch_classify = 8
nodes_from await_classify = 7
nodes_from dispatch_draft = 6
nodes_from await_draft = 5
nodes_from decide_approval = 4
nodes_from prepare_approval = 3
nodes_from await_approval = 2
nodes_from execute = 1

abbrev Shorter : ℕ → Option Node → Type 0
Shorter k none = Unit
Shorter k (some n) = nodes_from n < k

-- Every edge leads to a node with a shorter rest of the run.
edge-Shorter : (n : Node) (s : TicketState) → Shorter (nodes_from n) (edge n s)
unfolding edge
edge-Shorter dispatch_classify s = omega arith
edge-Shorter await_classify s = ground arith
edge-Shorter dispatch_draft s = omega arith
edge-Shorter await_draft s = ground arith
edge-Shorter decide_approval s = ground arith
edge-Shorter prepare_approval s = omega arith
edge-Shorter await_approval s = omega arith
edge-Shorter execute s = tt

go_on_some :
    (rest : Node → TicketState → Option (Stop × TaskTable)) (s : TicketState) (tasks : TaskTable)
    (next : Option Node) (k : ℕ)
    → Shorter k next
    → ((n : Node) → nodes_from n < k → is_some (rest n s) ≡ true)
    → is_some (go_on rest s tasks next) ≡ true
go_on_some rest s tasks none k h r = refl
go_on_some rest s tasks (some n) k h r = r n h

follow_some :
    (rest : Node → TicketState → Option (Stop × TaskTable)) (n : Node) (s : TicketState)
    (resumes : List Json) (o : Outcome TicketState) (tasks : TaskTable)
    → ((n' : Node) (s' : TicketState) → nodes_from n' < nodes_from n → is_some (rest n' s') ≡ true)
    → is_some (follow rest n s resumes o tasks) ≡ true
follow_some rest n s resumes (returned s') tasks r =
    go_on_some rest s' tasks (edge n s') (nodes_from n) (edge-Shorter n s') (λ n' lt. r n' s' lt)
follow_some rest n s resumes (interrupted e) tasks r = refl
follow_some rest n s resumes (raised e) tasks r = refl

nodes_from_range : (n : Node) → (0 < nodes_from n) × (nodes_from n ≤ nodes)
nodes_from_range n = ground arith

module _ (cfg : Config) (m : Pydantic) (at : Node → ℕ) where
  drive_some :
      (fuel : ℕ) (n : Node) (s : TicketState) (resumes : List Json) (tasks : TaskTable)
      → nodes_from n ≤ fuel
      → is_some (drive cfg m at fuel n s resumes tasks) ≡ true
  unfolding drive
  drive_some zero n s resumes tasks le = absurd (omega (arith, le, (nodes_from_range n).0))
  drive_some (suc fuel) n s resumes tasks le =
      let w : World = record { resumes = resumes; tasks = tasks } in
      let after : World = (run_node cfg m at n s w).1 in
      follow_some (λ next s'. drive cfg m at fuel next s' [] after.tasks) n s resumes
        (run_node cfg m at n s w).0 after.tasks
        (λ n' s' lt. drive_some fuel n' s' [] after.tasks (omega (arith, le, lt)))

  -- A call of `ainvoke` that starts a ticket or resumes any thread comes to a stop.
  pub start_some :
      (ticket : Ticket) (tasks : TaskTable) → is_some (start cfg m at ticket tasks) ≡ true
  unfolding start
  start_some ticket tasks =
      drive_some nodes dispatch_classify (initial ticket) [] tasks (omega arith)

  pub resume_some :
      (th : Thread) (value : Json) (tasks : TaskTable)
      → is_some (resume cfg m at th value tasks) ≡ true
  unfolding resume
  resume_some th value tasks =
      drive_some nodes th.node th.state (th.resumes ++ value ∷ []) tasks
        (nodes_from_range th.node).1
