-- ===== src/Graph/Course/Ends.antt =====
-- What each call of `ainvoke` does in the course of a ticket, and that the ticket ends.
use ticket_graph.Prelude.{
  ℕ, ◌≡◌, refl, inl, inr, true, false, none, some, arith, if◌then◌else◌, Bool-cases, nat_eq,
  string_eq, ==_iff,
}
use ticket_graph.Json.{Json, get, lookup}
use ticket_graph.Workflows.{Config}
use ticket_graph.Models.{
  Ticket, Classification, DraftReply, TicketResult, classification_ok, draft_ok,
}
use ticket_graph.Models.Codec.{Pydantic}
use ticket_graph.TaskQueue.{TaskTable, enqueue}
use ticket_graph.Graph.Dispatch.{
  TicketState, primary_task, await_agent_task, enqueue_agent_task, enqueue_task, is_timeout,
  is_task_failed, timestamp_after,
}
use ticket_graph.Graph.Payloads.{expected_result, classify_payload, draft_payload, approval_needed}
use ticket_graph.Graph.Nodes
use ticket_graph.Graph.Drive.{
  Node, parked, ended, start, resume, drive, run_node, edge, route_after_classify,
  route_after_draft, route_after_decide, dispatch_classify, dispatch_draft,
}
use ticket_graph.Graph.Course.{
  Verdict, decides, times_out, verdict_value, classify_thread, draft_thread, gate_thread,
  drafted_state, final_thread, verdict_state, ended_state, settled_state, outcome, finalizing,
}

-- A value without a field `kind` is neither of the two that the runner makes up.
plain_value : (j : Json) → get "kind" j ≡ none → (is_timeout j ≡ false) × (is_task_failed j ≡ false)
unfolding is_timeout is_task_failed
plain_value j e = (rw (e, is_timeout) refl, rw (e, is_task_failed) refl)

module _ (cfg : Config) (m : Pydantic) (at : Node → ℕ) (ticket : Ticket) (c : Classification)
    (d : DraftReply) where
  start-parked :
      (t : TaskTable)
      → start cfg m at ticket t
        ≡ some (
          parked (classify_thread cfg m at ticket),
          (enqueue
              (at dispatch_classify)
              (primary_task cfg "classify" ticket.id (classify_payload m ticket))
              t).1,
        )
  unfolding start drive run_node Nodes.dispatch_classify Nodes.await_classify await_agent_task
      enqueue_agent_task edge
  start-parked t = refl

  classified-parked :
      (t : TaskTable)
      → classification_ok c ≡ true
      → resume cfg m at (classify_thread cfg m at ticket) (m.classification.model_dump c) t
        ≡ some (
          parked (draft_thread cfg m at ticket c),
          (enqueue
              (at dispatch_draft)
              (primary_task cfg "draft" ticket.id (draft_payload m ticket c))
              t).1,
        )
  unfolding resume drive run_node Nodes.await_classify Nodes.dispatch_draft Nodes.await_draft
      await_agent_task enqueue_agent_task edge route_after_classify
  classified-parked t fits =
      let (timely, done) = plain_value (m.classification.model_dump c) (m.classification_plain c) in
      rw (timely, done, m.classification.validate-dump c fits) refl

  drafted-parked :
      (t : TaskTable)
      → draft_ok d ≡ true
      → resume cfg m at (draft_thread cfg m at ticket c) (m.draft.model_dump d) t ≡ (
          if approval_needed d
          then some (parked (gate_thread cfg m at ticket c d), t)
          else some (
            parked (final_thread cfg m at ticket c d (drafted_state cfg m at ticket c d)),
            finalizing cfg m at ticket c d (drafted_state cfg m at ticket c d) t,
          ))
  unfolding resume drive run_node Nodes.await_draft Nodes.decide_approval Nodes.prepare_approval
      Nodes.await_approval Nodes.execute await_agent_task enqueue_task edge route_after_draft
      route_after_decide timestamp_after
  drafted-parked t fits =
      let (timely, done) = plain_value (m.draft.model_dump d) (m.draft_plain d) in
      rw (timely, done, m.draft.validate-dump d fits)
        (elim (Bool-cases (approval_needed d)) [ inl e ↦ rw e refl | inr e ↦ rw e refl ])

  decided-parked :
      (v : Verdict) (t : TaskTable)
      → resume cfg m at (gate_thread cfg m at ticket c d) (verdict_value m v) t
        ≡ some (
          parked (final_thread cfg m at ticket c d (verdict_state cfg m at ticket c d v)),
          finalizing cfg m at ticket c d (verdict_state cfg m at ticket c d v) t,
        )
  unfolding resume drive run_node Nodes.await_approval Nodes.read_approval Nodes.execute
      enqueue_task edge get lookup
  decided-parked times_out t = refl
  decided-parked (decides decision) t =
      rw (m.decision.validate-dump decision refl)
        (elim (Bool-cases decision.approved) [ inl e ↦ rw e refl | inr e ↦ rw e refl ])

  finished-ended :
      (state : TicketState) (r : TicketResult) (t : TaskTable)
      → state.ticket ≡ some ticket
      → state.draft ≡ some d
      → state.classification ≡ some c
      → r.ticket_id ≡ ticket.id
      → resume cfg m at (final_thread cfg m at ticket c d state) (m.result.model_dump r) t
        ≡ some (
          ended (ended_state cfg m at ticket c d state r),
          finalizing cfg m at ticket c d state t,
        )
  unfolding resume drive run_node Nodes.execute enqueue_task edge
  finished-ended state r t whose drafted classified same =
      rw (whose, drafted, classified)
        (rw (m.result.validate-dump r refl, (==_iff r.ticket_id ticket.id).1 same) refl)

  settled_fields :
      (v : Verdict)
      → ((settled_state cfg m at ticket c d v).ticket ≡ some ticket)
        × ((settled_state cfg m at ticket c d v).draft ≡ some d)
        × ((settled_state cfg m at ticket c d v).classification ≡ some c)
        × ((expected_result (settled_state cfg m at ticket c d v) ticket d c).status
            ≡ outcome cfg m at ticket c d v)
  settled_fields v = ground arith

  -- the stops of a ticket's graph, from its start to its end
  abbrev pub Stages : Verdict → TicketResult → TaskTable → Type 0
  Stages v r t =
      (start cfg m at ticket t
        ≡ some (
          parked (classify_thread cfg m at ticket),
          (enqueue (at dispatch_classify)
              (primary_task cfg "classify" ticket.id (classify_payload m ticket)) t).1,
        ))
      × (resume cfg m at (classify_thread cfg m at ticket) (m.classification.model_dump c) t
          ≡ some (
            parked (draft_thread cfg m at ticket c),
            (enqueue (at dispatch_draft)
                (primary_task cfg "draft" ticket.id (draft_payload m ticket c)) t).1,
          ))
      × (resume cfg m at (draft_thread cfg m at ticket c) (m.draft.model_dump d) t ≡ (
          if approval_needed d
          then some (parked (gate_thread cfg m at ticket c d), t)
          else some (
            parked (final_thread cfg m at ticket c d (drafted_state cfg m at ticket c d)),
            finalizing cfg m at ticket c d (drafted_state cfg m at ticket c d) t,
          )))
      × (resume cfg m at (gate_thread cfg m at ticket c d) (verdict_value m v) t
          ≡ some (
            parked (final_thread cfg m at ticket c d (verdict_state cfg m at ticket c d v)),
            finalizing cfg m at ticket c d (verdict_state cfg m at ticket c d v) t,
          ))
      × (resume cfg m at (final_thread cfg m at ticket c d (settled_state cfg m at ticket c d v))
            (m.result.model_dump r) t
          ≡ some (
            ended (ended_state cfg m at ticket c d (settled_state cfg m at ticket c d v) r),
            finalizing cfg m at ticket c d (settled_state cfg m at ticket c d v) t,
          ))
      × ((expected_result (settled_state cfg m at ticket c d v) ticket d c).status
          ≡ outcome cfg m at ticket c d v)

  -- A ticket whose agent answers with a valid classification and a valid draft runs its course,
  -- whatever the queue holds at each call: started, it waits for the classification; resumed with
  -- that, for the draft; resumed with that, at the approval gate if the draft needs an approval and
  -- else for the finalizer; resumed from the gate with a decision or a timeout, for the finalizer;
  -- and resumed with a result of the ticket, it ends with that. The finalize task says resolved
  -- for a draft that needs no approval or was approved, rejected for one that was refused, and
  -- escalated after a timeout.
  pub runs_course :
      (v : Verdict) (r : TicketResult) (t : TaskTable)
      → classification_ok c ≡ true
      → draft_ok d ≡ true
      → r.ticket_id ≡ ticket.id
      → Stages v r t
  runs_course v r t fits fits' same =
      let (whose, drafted, classified, status) = settled_fields v in
      (
        start-parked t,
        classified-parked t fits,
        drafted-parked t fits',
        decided-parked v t,
        finished-ended (settled_state cfg m at ticket c d v) r t whose drafted classified same,
        status,
      )
