-- ===== src/Graph/Resumes.antt =====
-- How often a thread is resumed: each of the two agent nodes suspends twice at most (once for the
-- result, and once more after a timeout), the approval gate and `execute` once.
use ticket_graph.Prelude.{
  ℕ, zero, suc, ◌-◌, ◌≤◌, ◌<◌, Option, none, some, List, [], ◌∷◌, ◌++◌, arith, length, nat_eq,
  string_eq, length-insert,
}
use ticket_graph.Json.{Json}
use ticket_graph.Workflows.{Config}
use ticket_graph.Models.{Ticket}
use ticket_graph.Models.Codec.{Pydantic}
use ticket_graph.TaskQueue.{TaskTable}
use ticket_graph.Graph.Action.{Outcome, World, returned, interrupted, raised}
use ticket_graph.Graph.Dispatch.{TicketState, await_agent_task}
use ticket_graph.Graph.Nodes
use ticket_graph.Graph.Drive.{
  Node, Thread, Stop, parked, initial, nodes, dispatch_classify, await_classify, dispatch_draft,
  await_draft, decide_approval, prepare_approval, await_approval, execute, run_node, edge, drive,
  start, resume, follow, go_on,
}

-- how often a node may suspend
abbrev pub interrupts : Node → ℕ
interrupts await_classify = 2
interrupts await_draft = 2
interrupts await_approval = 1
interrupts execute = 1
interrupts _ = 0

-- how many resumes a run that begins at this node takes at most
abbrev pub resumes_from : Node → ℕ
resumes_from dispatch_classify = 6
resumes_from await_classify = 6
resumes_from dispatch_draft = 4
resumes_from await_draft = 4
resumes_from decide_approval = 2
resumes_from prepare_approval = 2
resumes_from await_approval = 2
resumes_from execute = 1

-- how many resumes a suspended thread takes at most
abbrev pub resumes_left : Thread → ℕ
resumes_left th = resumes_from th.node - length th.resumes

-- A suspended node has been resumed fewer times than it may suspend.
abbrev pub IsFresh : Thread → Type 0
IsFresh th = length th.resumes < interrupts th.node

-- What a node that suspends has used up.
abbrev Suspends : Node → World → Outcome TicketState → Type 0
Suspends n w (interrupted e) = length w.resumes < interrupts n
Suspends n w _ = Unit

module _ (cfg : Config) (m : Pydantic) (at : Node → ℕ) where
  suspends : (n : Node) (s : TicketState) (w : World) → Suspends n w (run_node cfg m at n s w).0
  unfolding run_node
  suspends dispatch_classify s w = unfold Nodes.dispatch_classify in ground arith
  suspends await_classify s w = unfold Nodes.await_classify await_agent_task in ground arith
  suspends dispatch_draft s w = unfold Nodes.dispatch_draft in ground arith
  suspends await_draft s w = unfold Nodes.await_draft await_agent_task in ground arith
  suspends decide_approval s w = unfold Nodes.decide_approval in ground arith
  suspends prepare_approval s w = unfold Nodes.prepare_approval in ground arith
  suspends await_approval s w = unfold Nodes.await_approval in ground arith
  suspends execute s w = unfold Nodes.execute in ground arith

-- A stop that is parked takes `k` more resumes at most, and no more than its node may suspend.
abbrev pub Within : ℕ → Option (Stop × TaskTable) → Type 0
Within k (some (parked th, tasks)) = IsFresh th × (resumes_left th ≤ k)
Within k _ = Unit

abbrev NextWithin : ℕ → Option Node → Type 0
NextWithin k none = Unit
NextWithin k (some n) = resumes_from n ≤ k

-- An edge leads to a node with fewer resumes left, by those that its source may use.
edge-NextWithin :
    (n : Node) (s : TicketState) → NextWithin (resumes_from n - interrupts n) (edge n s)
unfolding edge
edge-NextWithin n s = ground arith

go_on-Within :
    (rest : Node → TicketState → Option (Stop × TaskTable)) (s : TicketState) (tasks : TaskTable)
    (next : Option Node) (k : ℕ)
    → NextWithin k next
    → ((n : Node) → resumes_from n ≤ k → Within k (rest n s))
    → Within k (go_on rest s tasks next)
go_on-Within rest s tasks none k h r = tt
go_on-Within rest s tasks (some n) k h r = r n h

follow-Within :
    (rest : Node → TicketState → Option (Stop × TaskTable)) (n : Node) (s : TicketState) (w : World)
    (o : Outcome TicketState) (tasks : TaskTable) (k : ℕ)
    → Suspends n w o
    → resumes_from n - length w.resumes ≤ k
    → resumes_from n - interrupts n ≤ k
    → ((n' : Node) (s' : TicketState) → resumes_from n' ≤ k → Within k (rest n' s'))
    → Within k (follow rest n s w.resumes o tasks)
follow-Within rest n s w (returned s') tasks k h a b r =
    go_on-Within rest s' tasks (edge n s') k (weaken (edge n s') (edge-NextWithin n s'))
      (λ n' le. r n' s' le)
  where
    weaken :
        (next : Option Node) → NextWithin (resumes_from n - interrupts n) next → NextWithin k next
    weaken none q = tt
    weaken (some n') q = omega (arith, b, q)
follow-Within rest n s w (interrupted e) tasks k h a b r = (h, a)
follow-Within rest n s w (raised e) tasks k h a b r = tt

module _ (cfg : Config) (m : Pydantic) (at : Node → ℕ) where
  drive-Within :
      (fuel : ℕ) (n : Node) (s : TicketState) (resumes : List Json) (tasks : TaskTable) (k : ℕ)
      → resumes_from n - length resumes ≤ k
      → resumes_from n - interrupts n ≤ k
      → Within k (drive cfg m at fuel n s resumes tasks)
  unfolding drive
  drive-Within zero n s resumes tasks k a b = tt
  drive-Within (suc fuel) n s resumes tasks k a b =
      let w : World = record { resumes = resumes; tasks = tasks } in
      let after : World = (run_node cfg m at n s w).1 in
      follow-Within (λ next s'. drive cfg m at fuel next s' [] after.tasks) n s w
        (run_node cfg m at n s w).0 after.tasks k (suspends cfg m at n s w) a b
        (λ n' s' le.
          drive-Within fuel n' s' [] after.tasks k (omega (arith, le)) (omega (arith, le)))

  -- A new thread takes six resumes at most, and each resume of a thread takes one off.
  pub start-Within : (ticket : Ticket) (tasks : TaskTable) → Within 6 (start cfg m at ticket tasks)
  unfolding start
  start-Within ticket tasks =
      drive-Within nodes dispatch_classify (initial ticket) [] tasks 6 (omega arith) (omega arith)

  pub resume-Within :
      (th : Thread) (value : Json) (tasks : TaskTable)
      → IsFresh th
      → Within (resumes_left th - 1) (resume cfg m at th value tasks)
  unfolding resume
  resume-Within th value tasks fresh =
      drive-Within nodes th.node th.state (th.resumes ++ value ∷ []) tasks (resumes_left th - 1)
        (omega (arith, length-insert th.resumes value)) (ground (arith, fresh))
