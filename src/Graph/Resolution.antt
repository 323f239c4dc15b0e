-- ===== src/Graph/Resolution.antt =====
-- Who may resolve a ticket: the finalize tasks that a workflow puts on the queue.
use ticket_graph.Prelude.{
  ℕ, zero, suc, ◌≡◌, refl, true, Option, none, some, List, [], ◌∷◌, ◌++◌, All, nat_eq, string_eq,
  some_of, is_some, String,
}
use ticket_graph.Json.{Json}
use ticket_graph.Workflows.{Config}
use ticket_graph.Models.{Ticket, DraftReply, Classification, ApprovalDecision}
use ticket_graph.Models.Codec.{Pydantic}
use ticket_graph.TaskQueue.{TaskTable, new_row}
use ticket_graph.Graph.Action.{Outcome, World, returned, interrupted, raised}
use ticket_graph.Graph.Dispatch.{TicketState}
use ticket_graph.Graph.Payloads.{finalize_task, classify_payload, draft_payload}
use ticket_graph.Graph.Drive.{
  Node, Thread, Stop, run_node, drive, go_on, follow, start, resume, execute, edge, nodes,
  dispatch_classify, initial, parked,
}
use ticket_graph.Graph.Taken.{
  Taken, Given, Hands, Brings, ThreadTaken, run_node-Hands, no_resumes-Given, insert-Given,
  initial-Taken,
}
use ticket_graph.Graph.Entry.{Entry, leads, Leads, Next, allowed}
use ticket_graph.Graph.Keeps.{Keeps-enqueue_agent_task, Keeps-await_agent_task, All-enqueue}
use ticket_graph.Graph.Drive.{
  dispatch_classify, await_classify, dispatch_draft, await_draft, decide_approval, prepare_approval,
  await_approval,
}
use ticket_graph.Graph.Authority.{
  RowAuthorised, dispatch_classify-tasks, cancelled-Authorised, other_type, classify_ne,
  await_classify-tasks, dispatch_draft-tasks, draft_ne, await_draft-tasks, gate-tasks,
  execute-tasks,
}

abbrev pub AllAuthorised : Pydantic → (String → ApprovalDecision → Type 0) → TaskTable → Type 0
AllAuthorised m P t = All (RowAuthorised m P) t.rows

-- the thread of a stop
abbrev pub StopTaken : Pydantic → (String → ApprovalDecision → Type 0) → Stop → Type 0
StopTaken m P (parked th) = ThreadTaken m P th
StopTaken m P stop = Unit

-- The thread and the table that a call of `ainvoke` leaves.
abbrev pub LeavesAuthorised :
    Pydantic → (String → ApprovalDecision → Type 0) → Option (Stop × TaskTable) → Type 0
LeavesAuthorised m P none = Unit {0}
LeavesAuthorised m P (some (stop, tasks)) = AllAuthorised m P tasks × StopTaken m P stop

module _ (cfg : Config) (m : Pydantic) (P : String → ApprovalDecision → Type 0) where
  authorised_row :
      (now fresh : ℕ) (s : TicketState) (ticket : Ticket) (reply : DraftReply) (c : Classification)
      → s.ticket ≡ some ticket
      → s.draft ≡ some reply
      → allowed s ≡ true
      → Taken m P s
      → RowAuthorised m P (new_row now fresh (finalize_task cfg m s ticket reply c))
  unfolding new_row
  authorised_row now fresh s ticket reply c whose drafted may human _ = record {
    state = s;
    ticket = ticket;
    reply = reply;
    classification = c;
    computed = refl;
    drafted = drafted;
    may = may;
    human = λ d taken. human ticket d whose taken;
  }

  node-Authorised :
      (at : Node → ℕ) (n : Node) (s : TicketState) (w : World)
      → Entry n s
      → Taken m P s
      → AllAuthorised m P w.tasks
      → AllAuthorised m P (run_node cfg m at n s w).1.tasks
  unfolding run_node
  node-Authorised at dispatch_classify s w h taken a =
      let now = at dispatch_classify in
      let (ticket, e) = some_of s.ticket h in
      rw (dispatch_classify-tasks cfg m now s w ticket e) (
        (Keeps-enqueue_agent_task (cancelled-Authorised cfg m now P) cfg now "classify" ticket.id
            (classify_payload m ticket)
            (λ fresh. other_type cfg m now P _ fresh (classify_ne cfg m now))).at
          w a)
  node-Authorised at await_classify s w h taken a =
      let now = at await_classify in
      let (ticket, e) = some_of s.ticket h in
      rw (await_classify-tasks cfg m now s w ticket e) (
        (Keeps-await_agent_task (cancelled-Authorised cfg m now P) cfg now "classify" ticket.id
            (classify_payload m ticket) s.wakeup_at
            (λ fresh. other_type cfg m now P _ fresh (classify_ne cfg m now))).at
          w a)
  node-Authorised at dispatch_draft s w h taken a =
      let now = at dispatch_draft in
      let (ticket, e) = some_of s.ticket h.0 in
      let (c, f) = some_of s.classification h.1 in
      rw (dispatch_draft-tasks cfg m now s w ticket c e f) (
        (Keeps-enqueue_agent_task (cancelled-Authorised cfg m now P) cfg now "draft" ticket.id
            (draft_payload m ticket c)
            (λ fresh. other_type cfg m now P _ fresh (draft_ne cfg m now))).at
          w a)
  node-Authorised at await_draft s w h taken a =
      let now = at await_draft in
      let (ticket, e) = some_of s.ticket h.0 in
      let (c, f) = some_of s.classification h.1 in
      rw (await_draft-tasks cfg m now s w ticket c e f) (
        (Keeps-await_agent_task (cancelled-Authorised cfg m now P) cfg now "draft" ticket.id
            (draft_payload m ticket c) s.wakeup_at
            (λ fresh. other_type cfg m now P _ fresh (draft_ne cfg m now))).at
          w a)
  node-Authorised at decide_approval s w h taken a =
      rw ((gate-tasks cfg m (at decide_approval) s w).0) a
  node-Authorised at prepare_approval s w h taken a =
      rw ((gate-tasks cfg m (at prepare_approval) s w).1) a
  node-Authorised at await_approval s w h taken a =
      rw ((gate-tasks cfg m (at await_approval) s w).2) a
  node-Authorised at execute s w h taken a =
      let now = at execute in
      let (ticket, e) = some_of s.ticket h.0 in
      let (c, f) = some_of s.classification h.1 in
      let (reply, g) = some_of s.draft h.2 in
      rw (execute-tasks cfg m now s w ticket reply c e g f) (
        All-enqueue (RowAuthorised m P) now (finalize_task cfg m s ticket reply c) w.tasks
          (authorised_row now w.tasks.next_id s ticket reply c e g h.3 taken) a)

  go_on-Authorised :
      (rest : Node → TicketState → Option (Stop × TaskTable)) (s : TicketState) (tasks : TaskTable)
      (next : Option Node)
      → Next next s
      → AllAuthorised m P tasks
      → ((n : Node) → Entry n s → LeavesAuthorised m P (rest n s))
      → LeavesAuthorised m P (go_on rest s tasks next)
  go_on-Authorised rest s tasks none h a r = (a, tt)
  go_on-Authorised rest s tasks (some n) h a r = r n h

  follow-Authorised :
      (rest : Node → TicketState → Option (Stop × TaskTable)) (n : Node) (s : TicketState)
      (resumes : List Json) (o : Outcome TicketState) (tasks : TaskTable)
      → Leads n o
      → Taken m P s
      → Given m P n s resumes
      → Hands m P n s o
      → AllAuthorised m P tasks
      → ((n : Node) (s : TicketState)
          → Entry n s
          → Taken m P s
          → AllAuthorised m P tasks
          → LeavesAuthorised m P (rest n s))
      → LeavesAuthorised m P (follow rest n s resumes o tasks)
  follow-Authorised rest n s resumes (returned s') tasks l t g hands a r =
      go_on-Authorised rest s' tasks (edge n s') l a (λ n' e. r n' s' e hands a)
  follow-Authorised rest n s resumes (interrupted e) tasks l t g asks a r = (a, (t, g, asks))
  follow-Authorised rest n s resumes (raised e) tasks l t g hands a r = (a, tt)

  drive-Authorised :
      (at : Node → ℕ) (fuel : ℕ) (n : Node) (s : TicketState) (resumes : List Json)
      (tasks : TaskTable)
      → Entry n s
      → Taken m P s
      → Given m P n s resumes
      → AllAuthorised m P tasks
      → LeavesAuthorised m P (drive cfg m at fuel n s resumes tasks)
  unfolding drive
  drive-Authorised at zero n s resumes tasks h t g a = tt
  drive-Authorised at (suc fuel) n s resumes tasks h t g a =
      let w : World = record { resumes = resumes; tasks = tasks } in
      let after : World = (run_node cfg m at n s w).1 in
      follow-Authorised (λ next s'. drive cfg m at fuel next s' [] after.tasks) n s resumes
        (run_node cfg m at n s w).0 after.tasks (leads cfg m at n s w h) t g
        (run_node-Hands m P cfg at n s w h t g) (node-Authorised at n s w h t a)
        (λ next s' e t' b.
          drive-Authorised at fuel next s' [] after.tasks e t' (no_resumes-Given m P next s') b)

  pub start-LeavesAuthorised :
      (at : Node → ℕ) (ticket : Ticket) (tasks : TaskTable)
      → AllAuthorised m P tasks
      → LeavesAuthorised m P (start cfg m at ticket tasks)
  unfolding start
  start-LeavesAuthorised at ticket tasks a =
      drive-Authorised at nodes dispatch_classify (initial ticket) [] tasks refl
        (initial-Taken m P ticket) tt a

  pub resume-LeavesAuthorised :
      (at : Node → ℕ) (th : Thread) (value : Json) (tasks : TaskTable)
      → Entry th.node th.state
      → ThreadTaken m P th
      → (th.node ≡ await_approval → Brings m P th.state value)
      → AllAuthorised m P tasks
      → LeavesAuthorised m P (resume cfg m at th value tasks)
  unfolding resume
  resume-LeavesAuthorised at th value tasks h (t, g, asks) brings a =
      drive-Authorised at nodes th.node th.state (th.resumes ++ value ∷ []) tasks h t
        (insert-Given m P th.node th.state th.resumes value g brings) a

  -- What a call of `ainvoke` does to the queue: it stops, and leaves authorised tasks.
  abbrev pub StopsAuthorised : Option (Stop × TaskTable) → Type 0
  StopsAuthorised o = (is_some o ≡ true) × LeavesAuthorised m P o

  -- The parked threads of a ticket's workflow, between whose calls of `ainvoke` any other process
  -- writes the queue, with authorised finalize tasks; the gate is resumed with no decision on the
  -- ticket but those that have the property.
  pub data Reached (ticket : Ticket) : Thread → Type 0 where
    started :
        {th : Thread} (at : Node → ℕ) (tasks tasks' : TaskTable)
        → AllAuthorised m P tasks
        → start cfg m at ticket tasks ≡ some (parked th, tasks')
        → Reached ticket th
    resumed :
        {th th' : Thread} (at : Node → ℕ) (value : Json) (tasks tasks' : TaskTable)
        → Reached ticket th
        → (th.node ≡ await_approval → Brings m P th.state value)
        → AllAuthorised m P tasks
        → resume cfg m at th value tasks ≡ some (parked th', tasks')
        → Reached ticket th'
