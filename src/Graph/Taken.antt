-- ===== src/Graph/Taken.antt =====
-- Where the decision in a thread's state comes from: only the approval gate takes one, from the value
-- that it is resumed with. `P` is any property of decisions on tickets.
use mathlib.Core.Path.{subst}
use ticket_graph.Prelude.{
  ℕ, String, ◌≡◌, refl, sym, ◌∙◌, ◌⊎◌, inl, inr, Bool, true, false, Option, none, some, List, [],
  ◌∷◌, ◌++◌, arith, All, All-append, if◌then◌else◌, Bool-cases, some_of, ◌==◌, nat_eq, string_eq,
  ==_iff,
}
use ticket_graph.Json.{Json, get, str, obj, bool, num, null}
use ticket_graph.Result.{ok, Result-cases}
use ticket_graph.Workflows.{Config}
use ticket_graph.Models.{Ticket, DraftReply, ApprovalDecision, rejected}
use ticket_graph.Models.Codec.{Pydantic}
use ticket_graph.Graph.Action.{Outcome, World, pure, returned, interrupted, raised}
use ticket_graph.Graph.Dispatch.{TicketState}
use ticket_graph.Graph.Payloads.{approval_envelope, dict_get}
use ticket_graph.Graph.Nodes
use ticket_graph.Graph.Drive.{
  Node, dispatch_classify, await_classify, dispatch_draft, await_draft, decide_approval,
  prepare_approval, await_approval, execute, run_node, initial, Thread,
}
use ticket_graph.Graph.Entry.{Entry}

-- a resume value that carries a decision
abbrev pub Carries : Pydantic → Json → ApprovalDecision → Type 0
Carries m v d =
    (get "kind" v ≡ some (str "decision"))
    × (m.decision.model_validate (dict_get "decision" v) ≡ ok d)

-- What the node suspends with: the approval gate with its ticket's envelope.
abbrev pub Asks : Pydantic → Node → TicketState → Json → Type 0
Asks m await_approval s envelope =
    (ticket : Ticket) × (reply : DraftReply) × (w : ℕ) × (s.ticket ≡ some ticket)
    × (envelope ≡ approval_envelope m ticket reply w)
Asks m n s envelope = Unit

-- What the nodes but the gate do to the ticket and the decision.
abbrev Same : TicketState → Outcome TicketState → Type 0
Same s (returned s') = (s'.ticket ≡ s.ticket) × (s'.decision ≡ s.decision)
Same s o = Unit

abbrev Gated : Pydantic → TicketState → List Json → Outcome TicketState → Type 0
Gated m s resumes (returned s') =
    (s'.ticket ≡ s.ticket)
    × ((s'.decision ≡ s.decision)
        ⊎ ((v : Json) × (rest : List Json) × (d : ApprovalDecision) × (resumes ≡ v ∷ rest)
            × Carries m v d
            × (s'.decision ≡ some d)))
Gated m s resumes (interrupted e) = Asks m await_approval s e
Gated m s resumes (raised e) = Unit

-- what is read of a resume value
abbrev Read : Pydantic → TicketState → Json → Outcome TicketState → Type 0
Read m s v (returned s') =
    (s'.ticket ≡ s.ticket)
    × ((s'.decision ≡ s.decision)
        ⊎ ((d : ApprovalDecision) × Carries m v d × (s'.decision ≡ some d)))
Read m s v (interrupted e) = ⊥
Read m s v (raised e) = Unit

module _ (cfg : Config) (m : Pydantic) (at : Node → ℕ) where
  classify-Same : (s : TicketState) (w : World) → Same s (run_node cfg m at dispatch_classify s w).0
  unfolding run_node Nodes.dispatch_classify
  classify-Same s w = ground arith

  await_classify-Same :
      (s : TicketState) (w : World) → Same s (run_node cfg m at await_classify s w).0
  unfolding run_node Nodes.await_classify
  await_classify-Same s w = ground arith

  draft-Same : (s : TicketState) (w : World) → Same s (run_node cfg m at dispatch_draft s w).0
  unfolding run_node Nodes.dispatch_draft
  draft-Same s w = ground arith

  await_draft-Same : (s : TicketState) (w : World) → Same s (run_node cfg m at await_draft s w).0
  unfolding run_node Nodes.await_draft
  await_draft-Same s w = ground arith

  decide-Same : (s : TicketState) (w : World) → Same s (run_node cfg m at decide_approval s w).0
  unfolding run_node Nodes.decide_approval
  decide-Same s w = ground arith

  prepare-Same : (s : TicketState) (w : World) → Same s (run_node cfg m at prepare_approval s w).0
  unfolding run_node Nodes.prepare_approval
  prepare-Same s w = ground arith

  execute-Same : (s : TicketState) (w : World) → Same s (run_node cfg m at execute s w).0
  unfolding run_node Nodes.execute
  execute-Same s w = ground arith

  answered :
      (s : TicketState) (w : World) (v : Json) (d : ApprovalDecision)
      → Carries m v d
      → (b : Bool)
      → Read m s v
          ((if b
              then pure (record s { decision = some d })
              else pure (record s { decision = some d; status = some rejected }))
            w).0
  answered s w v d carried true = (refl, inr (d, carried, refl))
  answered s w v d carried false = (refl, inr (d, carried, refl))

  read_Gated :
      (s : TicketState) (w : World) (v : Json)
      → Read m s v (Nodes.read_approval cfg m (at await_approval) v s w).0
  unfolding Nodes.read_approval
  read_Gated s w (obj fields) = by_kind (get "kind" (obj fields)) refl
    where
      by_kind :
          (k : Option Json)
          → get "kind" (obj fields) ≡ k
          → Read m s (obj fields) (Nodes.read_approval cfg m (at await_approval) (obj fields) s w).0
      by_kind (some (str kind)) e = elim (Bool-cases (kind == "timeout")) [
        | inl late ↦
            unfold Nodes.read_approval in rw (e, Nodes.read_approval, late) (refl, inl refl)
        | inr other ↦ elim (Bool-cases (kind == "decision")) [
          | inr unknown ↦
              unfold Nodes.read_approval in rw (e, Nodes.read_approval, other, unknown) tt
          | inl decides ↦
              elim (Result-cases (m.decision.model_validate (dict_get "decision" (obj fields)))) [
                | inr (x, bad) ↦
                    unfold Nodes.read_approval in
                    rw (e, Nodes.read_approval, other, decides, bad) tt
                | inl (d, good) ↦
                    let named : kind ≡ "decision" = (==_iff kind "decision").0 decides in
                    let carried : Carries m (obj fields) d = (e ∙ rw named refl, good) in
                    unfold Nodes.read_approval in
                    rw (e, Nodes.read_approval, other, decides, good)
                      (answered s w (obj fields) d carried d.approved)
              ]
        ]
      ]
      by_kind none e = unfold Nodes.read_approval in rw (e, Nodes.read_approval) tt
      by_kind (some null) e = unfold Nodes.read_approval in rw (e, Nodes.read_approval) tt
      by_kind (some (bool b)) e = unfold Nodes.read_approval in rw (e, Nodes.read_approval) tt
      by_kind (some (num n)) e = unfold Nodes.read_approval in rw (e, Nodes.read_approval) tt
      by_kind (some (obj o)) e = unfold Nodes.read_approval in rw (e, Nodes.read_approval) tt
  read_Gated s w null = tt
  read_Gated s w (bool b) = tt
  read_Gated s w (num n) = tt
  read_Gated s w (str x) = tt

  Gated-read :
      (s : TicketState) (v : Json) (rest : List Json) (o : Outcome TicketState)
      → Read m s v o
      → Gated m s (v ∷ rest) o
  Gated-read s v rest (returned s') (same, inl kept) = (same, inl kept)
  Gated-read s v rest (returned s') (same, inr (d, carried, taken)) =
      (same, inr (v, rest, d, refl, carried, taken))
  Gated-read s v rest (interrupted x) no_such = absurd no_such
  Gated-read s v rest (raised x) h = tt

  gate_Gated :
      (s : TicketState) (w : World)
      → Entry await_approval s
      → Gated m s w.resumes (run_node cfg m at await_approval s w).0
  unfolding run_node Nodes.await_approval
  gate_Gated s w h =
      let (ticket, e) = some_of s.ticket h.0 in
      let (reply, f) = some_of s.draft h.2 in
      let (wakeup_at, g) = some_of s.wakeup_at h.3 in
      by_resumes ticket reply wakeup_at e f g w.resumes refl
    where
      by_resumes :
          (ticket : Ticket) (reply : DraftReply) (wakeup_at : ℕ)
          → s.ticket ≡ some ticket
          → s.draft ≡ some reply
          → s.wakeup_at ≡ some wakeup_at
          → (resumes : List Json) → w.resumes ≡ resumes
          → Gated m s resumes (run_node cfg m at await_approval s w).0
      by_resumes ticket reply wakeup_at e f g [] none_left =
          unfold run_node in
          unfold Nodes.await_approval in
          rw (e, f, g, none_left) (ticket, reply, wakeup_at, refl, refl)
      by_resumes ticket reply wakeup_at e f g (v ∷ rest) left =
          let w' = record w { resumes = rest } in
          let same : (run_node cfg m at await_approval s w).0
              ≡ (Nodes.read_approval cfg m (at await_approval) v s w').0 =
            unfold run_node in unfold Nodes.await_approval in rw (e, f, g, left) refl in
          subst (Gated m s (v ∷ rest)) (sym same) (
            Gated-read s v rest (Nodes.read_approval cfg m (at await_approval) v s w').0
              (read_Gated s w' v))

module _ (m : Pydantic) (P : String → ApprovalDecision → Type 0) where
  -- A decision that the state holds has the property.
  abbrev pub Taken : TicketState → Type 0
  Taken s =
      (ticket : Ticket) (d : ApprovalDecision)
      → s.ticket ≡ some ticket
      → s.decision ≡ some d
      → P ticket.id d

  -- A decision that a value brings to the state's ticket has it.
  abbrev pub Brings : TicketState → Json → Type 0
  Brings s v =
      (ticket : Ticket) (d : ApprovalDecision)
      → s.ticket ≡ some ticket
      → Carries m v d
      → P ticket.id d

  -- those with which the gate is run
  abbrev pub Given : Node → TicketState → List Json → Type 0
  Given await_approval s resumes = All (Brings s) resumes
  Given n s resumes = Unit

  -- what a parked thread holds, was given and asks for
  abbrev pub ThreadTaken : Thread → Type 0
  ThreadTaken th =
      Taken th.state × Given th.node th.state th.resumes × Asks m th.node th.state th.envelope

  -- What a node leaves.
  abbrev pub Hands : Node → TicketState → Outcome TicketState → Type 0
  Hands n s (returned s') = Taken s'
  Hands n s (interrupted e) = Asks m n s e
  Hands n s (raised e) = Unit

  same-Taken :
      (s s' : TicketState) → s'.ticket ≡ s.ticket → s'.decision ≡ s.decision → Taken s → Taken s'
  same-Taken s s' e f h ticket d whose taken = h ticket d (sym e ∙ whose) (sym f ∙ taken)

  pub initial-Taken : (ticket : Ticket) → Taken (initial ticket)
  initial-Taken ticket t d whose taken = absurd (cc taken)

  gate-Hands :
      (s : TicketState) (resumes : List Json) (o : Outcome TicketState)
      → Taken s
      → All (Brings s) resumes
      → Gated m s resumes o
      → Hands await_approval s o
  gate-Hands s resumes (returned s') h b (same, inl kept) = same-Taken s s' same kept h
  gate-Hands s resumes (returned s') h b (same, inr (v, rest, d, from, carried, now)) =
      λ ticket d' whose taken.
        let first : All (Brings s) (v ∷ rest) = subst (All (Brings s)) from b in
        let d_same : d ≡ d' = cc (now, taken) in
        subst (P ticket.id) d_same (first.0 ticket d (sym same ∙ whose) carried)
  gate-Hands s resumes (interrupted e) h b asks = asks
  gate-Hands s resumes (raised e) h b g = tt

  Same-Hands :
      (n : Node) (s : TicketState) (o : Outcome TicketState)
      → ((e : Json) → Asks m n s e)
      → Taken s
      → Same s o
      → Hands n s o
  Same-Hands n s (returned s') free h (e, f) = same-Taken s s' e f h
  Same-Hands n s (interrupted e) free h g = free e
  Same-Hands n s (raised e) free h g = tt

  pub run_node-Hands :
      (cfg : Config) (at : Node → ℕ) (n : Node) (s : TicketState) (w : World)
      → Entry n s
      → Taken s
      → Given n s w.resumes
      → Hands n s (run_node cfg m at n s w).0
  run_node-Hands cfg at dispatch_classify s w h t g =
      Same-Hands dispatch_classify s _ (λ e. tt) t (classify-Same cfg m at s w)
  run_node-Hands cfg at await_classify s w h t g =
      Same-Hands await_classify s _ (λ e. tt) t (await_classify-Same cfg m at s w)
  run_node-Hands cfg at dispatch_draft s w h t g =
      Same-Hands dispatch_draft s _ (λ e. tt) t (draft-Same cfg m at s w)
  run_node-Hands cfg at await_draft s w h t g =
      Same-Hands await_draft s _ (λ e. tt) t (await_draft-Same cfg m at s w)
  run_node-Hands cfg at decide_approval s w h t g =
      Same-Hands decide_approval s _ (λ e. tt) t (decide-Same cfg m at s w)
  run_node-Hands cfg at prepare_approval s w h t g =
      Same-Hands prepare_approval s _ (λ e. tt) t (prepare-Same cfg m at s w)
  run_node-Hands cfg at await_approval s w h t g =
      gate-Hands s w.resumes _ t g (gate_Gated cfg m at s w h)
  run_node-Hands cfg at execute s w h t g =
      Same-Hands execute s _ (λ e. tt) t (execute-Same cfg m at s w)

  pub no_resumes-Given : (n : Node) (s : TicketState) → Given n s []
  no_resumes-Given await_approval s = tt
  no_resumes-Given dispatch_classify s = tt
  no_resumes-Given await_classify s = tt
  no_resumes-Given dispatch_draft s = tt
  no_resumes-Given await_draft s = tt
  no_resumes-Given decide_approval s = tt
  no_resumes-Given prepare_approval s = tt
  no_resumes-Given execute s = tt

  -- One value more, which the gate may take.
  pub insert-Given :
      (n : Node) (s : TicketState) (resumes : List Json) (v : Json)
      → Given n s resumes
      → (n ≡ await_approval → Brings s v)
      → Given n s (resumes ++ v ∷ [])
  insert-Given await_approval s resumes v g b =
      All-append (Brings s) resumes (v ∷ []) g (b refl, tt)
  insert-Given dispatch_classify s resumes v g b = tt
  insert-Given await_classify s resumes v g b = tt
  insert-Given dispatch_draft s resumes v g b = tt
  insert-Given await_draft s resumes v g b = tt
  insert-Given decide_approval s resumes v g b = tt
  insert-Given prepare_approval s resumes v g b = tt
  insert-Given execute s resumes v g b = tt
