-- ===== src/Graph/Entry.antt =====
-- What holds of the state when a node is reached, in particular that `execute` is reached with a
-- resolution only if no approval was needed or it was given.
use ticket_graph.Prelude.{
  ℕ, ◌≡◌, Bool, true, false, not, ◌||◌, Option, none, some, arith, is_some, nat_eq, string_eq,
}
use ticket_graph.Workflows.{Config}
use ticket_graph.Models.{ApprovalDecision, DraftReply, TicketStatus, rejected, escalated}
use ticket_graph.Graph.Action.{Outcome, World, returned}
use ticket_graph.Graph.Dispatch.{TicketState}
use ticket_graph.Graph.Nodes
use ticket_graph.Graph.Payloads.{approval_needed}
use ticket_graph.Graph.Drive.{
  Node, dispatch_classify, await_classify, dispatch_draft, await_draft, decide_approval,
  prepare_approval, await_approval, execute, run_node, edge,
}
use ticket_graph.Models.Codec.{Pydantic}

abbrev pub approved_by : Option ApprovalDecision → Bool
approved_by none = false
approved_by (some d) = d.approved

-- whether a draft must pass the approval gate
abbrev pub gated : Option DraftReply → Bool
gated none = true
gated (some reply) = approval_needed reply

-- the ticket is to be rejected or escalated
abbrev pub closing : Option TicketStatus → Bool
closing (some rejected) = true
closing (some escalated) = true
closing _ = false

-- A resolution needs a draft that passes ungated, or an approval.
abbrev pub allowed : TicketState → Bool
allowed s = closing s.status || (not (gated s.draft) || approved_by s.decision)

abbrev pub Entry : Node → TicketState → Type 0
Entry dispatch_classify s = is_some s.ticket ≡ true
Entry await_classify s = is_some s.ticket ≡ true
Entry dispatch_draft s = (is_some s.ticket ≡ true) × (is_some s.classification ≡ true)
Entry await_draft s = (is_some s.ticket ≡ true) × (is_some s.classification ≡ true)
Entry decide_approval s =
    (is_some s.ticket ≡ true) × (is_some s.classification ≡ true) × (is_some s.draft ≡ true)
Entry prepare_approval s =
    (is_some s.ticket ≡ true) × (is_some s.classification ≡ true) × (is_some s.draft ≡ true)
Entry await_approval s =
    (is_some s.ticket ≡ true)
    × (is_some s.classification ≡ true)
    × (is_some s.draft ≡ true)
    × (is_some s.wakeup_at ≡ true)
Entry execute s =
    (is_some s.ticket ≡ true)
    × (is_some s.classification ≡ true)
    × (is_some s.draft ≡ true)
    × (allowed s ≡ true)

-- What the next node finds, for an outcome of node `n`.
abbrev pub Next : Option Node → TicketState → Type 0
Next none s = Unit
Next (some n) s = Entry n s

abbrev pub Leads : Node → Outcome TicketState → Type 0
Leads n (returned s) = Next (edge n s) s
Leads n _ = Unit

module _ (cfg : Config) (m : Pydantic) (at : Node → ℕ) where
  pub leads :
      (n : Node) (s : TicketState) (w : World) → Entry n s → Leads n (run_node cfg m at n s w).0
  unfolding run_node edge
  leads dispatch_classify s w h = unfold Nodes.dispatch_classify in ground arith
  leads await_classify s w h = unfold Nodes.await_classify in ground arith
  leads dispatch_draft s w h = unfold Nodes.dispatch_draft in ground arith
  leads await_draft s w h = unfold Nodes.await_draft in ground arith
  leads decide_approval s w h = unfold Nodes.decide_approval in ground arith
  leads prepare_approval s w h = unfold Nodes.prepare_approval in ground arith
  leads await_approval s w h = unfold Nodes.await_approval in ground arith
  leads execute s w h = unfold Nodes.execute in ground arith
