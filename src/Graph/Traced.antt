-- ===== src/Graph/Traced.antt =====
-- What the nodes and a call of `ainvoke` do to the task queue.
use ticket_graph.Prelude.{
  ℕ, zero, suc, inl, inr, Option, none, some, List, [], ◌∷◌, ◌++◌, Option-cases, nat_eq, string_eq,
}
use ticket_graph.Json.{Json}
use ticket_graph.TaskQueue.{TaskTable}
use ticket_graph.TaskQueue.Calls.{enqueues, step}
use ticket_graph.TaskQueue.Traces.{trace_none, trace_one, trace_then}
use ticket_graph.Workflows.{Config}
use ticket_graph.Models.{Ticket}
use ticket_graph.Models.Codec.{Pydantic}
use ticket_graph.Graph.Action.{World, Outcome, returned, interrupted, raised}
use ticket_graph.Graph.Authority.{
  dispatch_classify-tasks, await_classify-tasks, dispatch_draft-tasks, await_draft-tasks,
  gate-tasks, execute-tasks,
}
use ticket_graph.Graph.Dispatch.{TicketState}
use ticket_graph.Graph.Nodes
use ticket_graph.Graph.Payloads.{draft_payload, finalize_task, classify_payload}
use ticket_graph.Graph.Drive.{
  Node, Thread, Stop, run_node, drive, go_on, follow, start, resume, edge, nodes, initial,
  dispatch_classify, await_classify, dispatch_draft, await_draft, decide_approval, prepare_approval,
  await_approval, execute,
}
use ticket_graph.Graph.Calling.{
  Calling, GraphTrace, Calling-enqueue_agent_task, Calling-await_agent_task,
}

module _ (cfg : Config) (m : Pydantic) (now : ℕ) where
  Calling-dispatch_classify : (s : TicketState) → Calling (Nodes.dispatch_classify cfg m now s)
  Calling-dispatch_classify s = record {
    at = λ w. elim (Option-cases s.ticket) [
      | inl e ↦ unfold Nodes.dispatch_classify in rw e (trace_none w.tasks)
      | inr (ticket, e) ↦ rw (dispatch_classify-tasks cfg m now s w ticket e) (
          (Calling-enqueue_agent_task cfg now "classify" ticket.id (classify_payload m ticket)).at
            w)
    ];
  }

  Calling-await_classify : (s : TicketState) → Calling (Nodes.await_classify cfg m now s)
  Calling-await_classify s = record {
    at = λ w. elim (Option-cases s.ticket) [
      | inl e ↦ unfold Nodes.await_classify in rw e (trace_none w.tasks)
      | inr (ticket, e) ↦ rw (await_classify-tasks cfg m now s w ticket e) (
          (Calling-await_agent_task cfg now "classify" ticket.id (classify_payload m ticket)
              s.wakeup_at).at
            w)
    ];
  }

  Calling-dispatch_draft : (s : TicketState) → Calling (Nodes.dispatch_draft cfg m now s)
  Calling-dispatch_draft s = record {
    at = λ w. elim (Option-cases s.ticket) [
      | inl e ↦ unfold Nodes.dispatch_draft in rw e (trace_none w.tasks)
      | inr (ticket, e) ↦ elim (Option-cases s.classification) [
        | inl f ↦ unfold Nodes.dispatch_draft in rw (e, f) (trace_none w.tasks)
        | inr (c, f) ↦
            rw (dispatch_draft-tasks cfg m now s w ticket c e f) (
              (Calling-enqueue_agent_task cfg now "draft" ticket.id (draft_payload m ticket c)).at
                w)
      ]
    ];
  }

  Calling-await_draft : (s : TicketState) → Calling (Nodes.await_draft cfg m now s)
  Calling-await_draft s = record {
    at = λ w. elim (Option-cases s.ticket) [
      | inl e ↦ unfold Nodes.await_draft in rw e (trace_none w.tasks)
      | inr (ticket, e) ↦ elim (Option-cases s.classification) [
        | inl f ↦ unfold Nodes.await_draft in rw (e, f) (trace_none w.tasks)
        | inr (c, f) ↦ rw (await_draft-tasks cfg m now s w ticket c e f) (
            (Calling-await_agent_task cfg now "draft" ticket.id (draft_payload m ticket c)
                s.wakeup_at).at
              w)
      ]
    ];
  }

  Calling-execute : (s : TicketState) → Calling (Nodes.execute cfg m now s)
  Calling-execute s = record {
    at = λ w. elim (Option-cases s.ticket) [
      | inl e ↦ unfold Nodes.execute in rw e (trace_none w.tasks)
      | inr (ticket, e) ↦ elim (Option-cases s.draft) [
        | inl f ↦ unfold Nodes.execute in rw (e, f) (trace_none w.tasks)
        | inr (reply, f) ↦ elim (Option-cases s.classification) [
          | inl g ↦ unfold Nodes.execute in rw (e, f, g) (trace_none w.tasks)
          | inr (c, g) ↦ rw (execute-tasks cfg m now s w ticket reply c e f g) (
              unfold step in
              trace_one w.tasks (enqueues now (finalize_task cfg m s ticket reply c)) tt)
        ]
      ]
    ];
  }

module _ (cfg : Config) (m : Pydantic) (at : Node → ℕ) where
  Calling-run_node : (n : Node) (s : TicketState) → Calling (run_node cfg m at n s)
  unfolding run_node
  Calling-run_node dispatch_classify s = Calling-dispatch_classify cfg m (at dispatch_classify) s
  Calling-run_node await_classify s = Calling-await_classify cfg m (at await_classify) s
  Calling-run_node dispatch_draft s = Calling-dispatch_draft cfg m (at dispatch_draft) s
  Calling-run_node await_draft s = Calling-await_draft cfg m (at await_draft) s
  Calling-run_node decide_approval s = record {
    at = λ w. rw ((gate-tasks cfg m (at decide_approval) s w).0) (trace_none w.tasks);
  }
  Calling-run_node prepare_approval s = record {
    at = λ w. rw ((gate-tasks cfg m (at prepare_approval) s w).1) (trace_none w.tasks);
  }
  Calling-run_node await_approval s = record {
    at = λ w. rw ((gate-tasks cfg m (at await_approval) s w).2) (trace_none w.tasks);
  }
  Calling-run_node execute s = Calling-execute cfg m (at execute) s

-- What a call of `ainvoke` on a queue `t` leaves is what such calls make of it.
abbrev pub LeavesTraced : TaskTable → Option (Stop × TaskTable) → Type 0
LeavesTraced t none = Unit
LeavesTraced t (some (stop, tasks)) = GraphTrace t tasks

go_on-Traced :
    (rest : Node → TicketState → Option (Stop × TaskTable)) (s : TicketState) (t tasks : TaskTable)
    (next : Option Node)
    → GraphTrace t tasks
    → ((n : Node) → LeavesTraced tasks (rest n s))
    → LeavesTraced t (go_on rest s tasks next)
go_on-Traced rest s t tasks none a r = a
go_on-Traced rest s t tasks (some n) a r = after (rest n s) (r n)
  where
    after : (o : Option (Stop × TaskTable)) → LeavesTraced tasks o → LeavesTraced t o
    after none b = tt
    after (some (stop, tasks')) b = trace_then a b

follow-Traced :
    (rest : Node → TicketState → Option (Stop × TaskTable)) (n : Node) (s : TicketState)
    (resumes : List Json) (o : Outcome TicketState) (t tasks : TaskTable)
    → GraphTrace t tasks
    → ((n : Node) (s : TicketState) → LeavesTraced tasks (rest n s))
    → LeavesTraced t (follow rest n s resumes o tasks)
follow-Traced rest n s resumes (returned s') t tasks a r =
    go_on-Traced rest s' t tasks (edge n s') a (λ n'. r n' s')
follow-Traced rest n s resumes (interrupted e) t tasks a r = a
follow-Traced rest n s resumes (raised e) t tasks a r = a

module _ (cfg : Config) (m : Pydantic) (at : Node → ℕ) where
  drive-Traced :
      (fuel : ℕ) (n : Node) (s : TicketState) (resumes : List Json) (tasks : TaskTable)
      → LeavesTraced tasks (drive cfg m at fuel n s resumes tasks)
  unfolding drive
  drive-Traced zero n s resumes tasks = tt
  drive-Traced (suc fuel) n s resumes tasks =
      let w : World = record { resumes = resumes; tasks = tasks } in
      let after : World = (run_node cfg m at n s w).1 in
      follow-Traced (λ next s'. drive cfg m at fuel next s' [] after.tasks) n s resumes
        (run_node cfg m at n s w).0 tasks after.tasks ((Calling-run_node cfg m at n s).at w)
        (λ next s'. drive-Traced fuel next s' [] after.tasks)

  pub start-Traced :
      (ticket : Ticket) (tasks : TaskTable) → LeavesTraced tasks (start cfg m at ticket tasks)
  unfolding start
  start-Traced ticket tasks = drive-Traced nodes dispatch_classify (initial ticket) [] tasks

  pub resume-Traced :
      (th : Thread) (value : Json) (tasks : TaskTable)
      → LeavesTraced tasks (resume cfg m at th value tasks)
  unfolding resume
  resume-Traced th value tasks =
      drive-Traced nodes th.node th.state (th.resumes ++ value ∷ []) tasks
