-- ===== src/Graph/Threads.antt =====
-- The threads that the API starts and the runner resumes, with any values, at any times, while any
-- other process writes the task queue in between.
use ticket_graph.Prelude.{
  ℕ, zero, suc, refl, Option, none, some, List, [], ◌∷◌, ◌++◌, nat_eq, string_eq,
}
use ticket_graph.Json.{Json}
use ticket_graph.Workflows.{Config}
use ticket_graph.Models.{Ticket}
use ticket_graph.Models.Codec.{Pydantic}
use ticket_graph.TaskQueue.{TaskTable}
use ticket_graph.Graph.Action.{Outcome, World, returned, interrupted, raised}
use ticket_graph.Graph.Dispatch.{TicketState}
use ticket_graph.Graph.Drive.{
  Node, Thread, Stop, parked, initial, nodes, dispatch_classify, run_node, edge, drive, start,
  resume, follow, go_on,
}
use ticket_graph.Graph.Entry.{Entry, leads, Leads, Next}

-- A thread is parked at a node that it may have reached.
abbrev pub StopsWell : Option (Stop × TaskTable) → Type 0
StopsWell (some (parked th, tasks)) = Entry th.node th.state
StopsWell _ = Unit {0}

go_on-Entry :
    (rest : Node → TicketState → Option (Stop × TaskTable)) (state : TicketState)
    (tasks : TaskTable) (next : Option Node)
    → Next next state
    → ((n : Node) → Entry n state → StopsWell (rest n state))
    → StopsWell (go_on rest state tasks next)
go_on-Entry rest state tasks none h r = tt
go_on-Entry rest state tasks (some n) h r = r n h

follow-Entry :
    (rest : Node → TicketState → Option (Stop × TaskTable)) (n : Node) (s : TicketState)
    (resumes : List Json) (o : Outcome TicketState) (tasks : TaskTable)
    → Entry n s
    → Leads n o
    → ((n : Node) (s : TicketState) → Entry n s → StopsWell (rest n s))
    → StopsWell (follow rest n s resumes o tasks)
follow-Entry rest n s resumes (returned s') tasks h l r =
    go_on-Entry rest s' tasks (edge n s') l (λ n' e. r n' s' e)
follow-Entry rest n s resumes (interrupted e) tasks h l r = h
follow-Entry rest n s resumes (raised e) tasks h l r = tt

module _ (cfg : Config) (m : Pydantic) where
  drive-Entry :
      (at : Node → ℕ) (fuel : ℕ) (n : Node) (s : TicketState) (resumes : List Json)
      (tasks : TaskTable)
      → Entry n s
      → StopsWell (drive cfg m at fuel n s resumes tasks)
  unfolding drive
  drive-Entry at zero n s resumes tasks h = tt
  drive-Entry at (suc fuel) n s resumes tasks h =
      let w : World = record { resumes = resumes; tasks = tasks } in
      let after : World = (run_node cfg m at n s w).1 in
      follow-Entry (λ next s'. drive cfg m at fuel next s' [] after.tasks) n s resumes
        (run_node cfg m at n s w).0 after.tasks h (leads cfg m at n s w h)
        (λ next s' e. drive-Entry at fuel next s' [] after.tasks e)

  pub start-StopsWell :
      (at : Node → ℕ) (ticket : Ticket) (tasks : TaskTable)
      → StopsWell (start cfg m at ticket tasks)
  unfolding start
  start-StopsWell at ticket tasks =
      drive-Entry at nodes dispatch_classify (initial ticket) [] tasks refl

  pub resume-StopsWell :
      (at : Node → ℕ) (th : Thread) (value : Json) (tasks : TaskTable)
      → Entry th.node th.state
      → StopsWell (resume cfg m at th value tasks)
  unfolding resume
  resume-StopsWell at th value tasks h =
      drive-Entry at nodes th.node th.state (th.resumes ++ value ∷ []) tasks h
