-- ===== src/Graph/Authority.antt =====
-- What a finalize task must rest on, and what each node of the graph puts on the task queue.
use text.Mathlib.TextEquality.{eq_iff}
use ticket_graph.Prelude.{ℕ, String, ◌≡◌, refl, ◌≢◌, true, some, arith, nat_eq, string_eq}
use ticket_graph.Json.{Json}
use ticket_graph.Workflows.{Config}
use ticket_graph.Models.{Ticket, DraftReply, Classification, ApprovalDecision}
use ticket_graph.Models.Codec.{Pydantic}
use ticket_graph.TaskQueue.{QueuedTask, NewTask, new_row, cancelled, enqueue}
use ticket_graph.Graph.Action.{World}
use ticket_graph.Graph.Dispatch.{TicketState, await_agent_task, enqueue_agent_task}
use ticket_graph.Graph.Nodes
use ticket_graph.Graph.Payloads.{finalize_payload, finalize_task, classify_payload, draft_payload}
use ticket_graph.Graph.Entry.{allowed}

-- `payload` is what `execute` computes from a state that may be resolved, and in which a decision on
-- the ticket has the property `P`.
pub record Authorised (m : Pydantic) (P : String → ApprovalDecision → Type 0) (payload : Json)
    : Type 0 where
  pub state : TicketState
  pub ticket : Ticket
  pub reply : DraftReply
  pub classification : Classification
  pub computed : payload ≡ finalize_payload m state ticket reply classification
  pub drafted : state.draft ≡ some reply
  pub may : allowed state ≡ true
  pub human : (d : ApprovalDecision) → state.decision ≡ some d → P ticket.id d

abbrev pub RowAuthorised : Pydantic → (String → ApprovalDecision → Type 0) → QueuedTask → Type 0
RowAuthorised m P r = r.task_type ≡ "finalize_ticket" → Authorised m P r.payload

module _ (cfg : Config) (m : Pydantic) (now : ℕ) where
  pub cancelled-Authorised :
      (P : String → ApprovalDecision → Type 0) (reason : String) (r : QueuedTask)
      → RowAuthorised m P r
      → RowAuthorised m P (cancelled reason r)
  cancelled-Authorised P reason r h = h

  pub other_type :
      (P : String → ApprovalDecision → Type 0) (task : NewTask) (fresh : ℕ)
      → task.task_type ≢ "finalize_ticket"
      → RowAuthorised m P (new_row now fresh task)
  unfolding new_row
  other_type P task fresh h e = absurd (h e)

  pub classify_ne : ◌≢◌ {A = String} "classify" "finalize_ticket"
  classify_ne = ground (arith, eq_iff "classify" "finalize_ticket")

  pub draft_ne : ◌≢◌ {A = String} "draft" "finalize_ticket"
  draft_ne = ground (arith, eq_iff "draft" "finalize_ticket")

  -- What each node leaves in the queue.
  pub dispatch_classify-tasks :
      (s : TicketState) (w : World) (ticket : Ticket)
      → s.ticket ≡ some ticket
      → (Nodes.dispatch_classify cfg m now s w).1.tasks
        ≡ (enqueue_agent_task cfg now "classify" ticket.id (classify_payload m ticket) w).1.tasks
  unfolding Nodes.dispatch_classify
  dispatch_classify-tasks s w ticket e = ground arith

  pub await_classify-tasks :
      (s : TicketState) (w : World) (ticket : Ticket)
      → s.ticket ≡ some ticket
      → (Nodes.await_classify cfg m now s w).1.tasks
        ≡ (await_agent_task cfg now "classify" ticket.id
            (classify_payload m ticket)
            s.wakeup_at
            w).1.tasks
  unfolding Nodes.await_classify
  await_classify-tasks s w ticket e = ground arith

  pub dispatch_draft-tasks :
      (s : TicketState) (w : World) (ticket : Ticket) (c : Classification)
      → s.ticket ≡ some ticket
      → s.classification ≡ some c
      → (Nodes.dispatch_draft cfg m now s w).1.tasks
        ≡ (enqueue_agent_task cfg now "draft" ticket.id (draft_payload m ticket c) w).1.tasks
  unfolding Nodes.dispatch_draft
  dispatch_draft-tasks s w ticket c e f = ground arith

  pub await_draft-tasks :
      (s : TicketState) (w : World) (ticket : Ticket) (c : Classification)
      → s.ticket ≡ some ticket
      → s.classification ≡ some c
      → (Nodes.await_draft cfg m now s w).1.tasks
        ≡ (await_agent_task cfg now "draft" ticket.id
            (draft_payload m ticket c)
            s.wakeup_at
            w).1.tasks
  unfolding Nodes.await_draft
  await_draft-tasks s w ticket c e f = ground arith

  pub gate-tasks :
      (s : TicketState) (w : World)
      → ((Nodes.decide_approval cfg m now s w).1.tasks ≡ w.tasks)
        × ((Nodes.prepare_approval cfg m now s w).1.tasks ≡ w.tasks)
        × ((Nodes.await_approval cfg m now s w).1.tasks ≡ w.tasks)
  unfolding Nodes.decide_approval Nodes.prepare_approval Nodes.await_approval
  gate-tasks s w = (ground arith, refl, ground arith)

  pub execute-tasks :
      (s : TicketState) (w : World) (ticket : Ticket) (reply : DraftReply) (c : Classification)
      → s.ticket ≡ some ticket
      → s.draft ≡ some reply
      → s.classification ≡ some c
      → (Nodes.execute cfg m now s w).1.tasks
        ≡ (enqueue now (finalize_task cfg m s ticket reply c) w.tasks).1
  unfolding Nodes.execute
  execute-tasks s w ticket reply c e f g = ground arith
