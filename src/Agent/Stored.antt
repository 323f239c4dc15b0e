-- ===== src/Agent/Stored.antt =====
-- What the agent worker stores as a task's result is what the graph reads back; and a draft of the
-- fallback agent always passes the approval gate.
use mathlib.Core.Path.{subst}
use ticket_graph.Prelude.{
  ℕ, ◌*◌, ◌≤◌, ◌≡◌, refl, ◌⊎◌, inl, inr, true, ◌||◌, arith, ltb, Bool-cases, ◌==◌, nat_eq,
  string_eq, ==_iff,
}
use ticket_graph.Json.{Json}
use ticket_graph.Result.{Result, ok, err}
use ticket_graph.Models.{
  Ticket, Classification, DraftReply, classification_ok, draft_ok, one, action_ok, ProposedAction,
  is_refund,
}
use ticket_graph.Models.Codec.{Pydantic}
use ticket_graph.TaskQueue.{QueuedTask}
use ticket_graph.Graph.Payloads.{approval_needed}
use ticket_graph.Agent.{
  Agent, IsTyped, run_activity, run_read, read_ticket, dumped, classify_activity, read_both,
  draft_activity,
}
use ticket_graph.Agent.Mock.{
  Random, MockAgent, mock_agent, fallback, maybe_fail, maybe_sleep, propose, classification, reply,
  guarded, confidence, point_six,
}
use ticket_graph.Workflows.{confidence_threshold}

-- A mock agent whose confidences are a range within [0, 1].
abbrev pub IsRanged : MockAgent → Type 0
IsRanged mock =
    (mock.confidence_range.0 ≤ mock.confidence_range.1) × (mock.confidence_range.1 ≤ one)

module _ {R : Type 0} (rng : Random R) (mock : MockAgent) (ranged : IsRanged mock) where
  propose-ok : (r : R) → action_ok (propose rng mock r).0 ≡ true
  unfolding propose
  propose-ok r = ground (
    arith,
    rng.round2-pos (rng.uniform (5 * one) (100 * one) (rng.random r).1).0,
    rng.uniform-ge (5 * one) (100 * one) (rng.random r).1,
  )

  -- The state in which the work of a call begins.
  abbrev at_work : R → R
  at_work r = maybe_sleep rng mock (maybe_fail rng mock r).1

  guarded-eq :
      {A : Type 0} (work : R → A × R) (r : R) (a : A)
      → (guarded rng mock work r).0 ≡ ok a
      → a ≡ (work (at_work r)).0
  guarded-eq work r a e = ground arith

  confidence_bounds :
      (r : R)
      → (mock.confidence_range.0 ≤ (confidence rng mock r).0)
        × ((confidence rng mock r).0 ≤ mock.confidence_range.1)
  confidence_bounds r = (
    rng.uniform-ge mock.confidence_range.0 mock.confidence_range.1 r ranged.0,
    rng.uniform-le mock.confidence_range.0 mock.confidence_range.1 r ranged.0,
  )

  classification-ok :
      (ticket : Ticket) (r : R) → classification_ok (classification rng mock ticket r).0 ≡ true
  classification-ok ticket r = ground (arith, confidence_bounds r)

  reply-ok : (c : Classification) (r : R) → draft_ok (reply rng mock c r).0 ≡ true
  reply-ok c r = ground (arith, propose-ok r, confidence_bounds (propose rng mock r).1)

  -- Whatever the generator draws, a mock agent returns classifications and drafts that meet the
  -- constraints of the models, if its confidences are a range within [0, 1].
  pub mock_agent-IsTyped : IsTyped (mock_agent rng mock)
  mock_agent-IsTyped = record {
    classify_ok = λ ticket r c e.
        rw (guarded-eq (classification rng mock ticket) r c e)
          (classification-ok ticket (at_work r));
    draft_reply_ok =
        λ ticket c r d e. rw (guarded-eq (reply rng mock c) r d e) (reply-ok c (at_work r));
  }

fallback-IsRanged : IsRanged fallback
fallback-IsRanged = (omega arith, omega arith)

-- A draft of the fallback agent is a valid one, and needs an approval whatever the generator draws:
-- its confidence stays below the threshold.
pub fallback-approval_needed :
    {R : Type 0} (rng : Random R) (ticket : Ticket) (c : Classification) (r : R) (d : DraftReply)
    → ((mock_agent rng fallback).draft_reply ticket c r).0 ≡ ok d
    → (draft_ok d ≡ true) × (approval_needed d ≡ true)
fallback-approval_needed rng ticket c r d e =
    let start = at_work rng fallback fallback-IsRanged r in
    rw (guarded-eq rng fallback fallback-IsRanged (reply rng fallback c) r d e) (
      reply-ok rng fallback fallback-IsRanged c start,
      low (propose rng fallback start).0 (confidence rng fallback (propose rng fallback start).1).0
          (confidence_bounds rng fallback fallback-IsRanged (propose rng fallback start).1).1,
    )
  where
    low :
        (action : ProposedAction) (x : ℕ)
        → x ≤ point_six
        → (is_refund action.type || ltb x confidence_threshold) ≡ true
    low action x le = ground arith

dumped-inv :
    {A : Type 0} (dump : A → Json) (x : Result A) (j : Json)
    → dumped dump x ≡ ok j
    → (a : A) × (x ≡ ok a) × (dump a ≡ j)
dumped-inv dump (ok a) j e = (a, refl, cc)
dumped-inv dump (err b) j e = absurd (cc)

-- The task's ticket was read, the agent classified it, and its answer is what `j` is read as.
abbrev pub Classified : {R : Type 0} → Pydantic → Agent R → Result Ticket → R → Json → Type 0
Classified m agent whose r j =
    (ticket : Ticket) × (c : Classification) × (whose ≡ ok ticket)
    × ((agent.classify ticket r).0 ≡ ok c)
    × (m.classification.model_validate j ≡ ok c)

-- These, for a draft.
abbrev pub Drafted :
    {R : Type 0} → Pydantic → Agent R → Result (Ticket × Classification) → R → Json → Type 0
Drafted m agent both r j =
    (ticket : Ticket) × (c : Classification) × (d : DraftReply) × (both ≡ ok (ticket, c))
    × ((agent.draft_reply ticket c r).0 ≡ ok d)
    × (m.draft.model_validate j ≡ ok d)

module _ {R : Type 0} (m : Pydantic) (agent : Agent R) (typed : IsTyped agent) (r : R)
    (j : Json) where
  classify-read :
      (whose : Result Ticket)
      → (run_read whose (classify_activity m agent) r).0 ≡ ok j
      → Classified m agent whose r j
  classify-read (err b) e = absurd (cc)
  classify-read (ok ticket) e =
      let (c, got, same) = dumped-inv m.classification.model_dump (agent.classify ticket r).0 j e in
      (
        ticket,
        c,
        refl,
        got,
        subst (λ x. m.classification.model_validate x ≡ ok c) same
            (m.classification.validate-dump c (typed.classify_ok ticket r c got)),
      )

  draft-read :
      (both : Result (Ticket × Classification))
      → (run_read both (draft_activity m agent) r).0 ≡ ok j
      → Drafted m agent both r j
  draft-read (err b) e = absurd (cc)
  draft-read (ok (ticket, c)) e =
      let (d, got, same) = dumped-inv m.draft.model_dump (agent.draft_reply ticket c r).0 j e in
      (
        ticket,
        c,
        d,
        refl,
        got,
        subst (λ x. m.draft.model_validate x ≡ ok d) same
            (m.draft.validate-dump d (typed.draft_reply_ok ticket c r d got)),
      )

-- What the agent worker stores for a task is the answer of the agent for the models that the task's
-- payload holds, and `model_validate` reads it back as exactly that answer, if the agent returns
-- instances of the models: for a task `classify` the agent's classification of the ticket, for a
-- task `draft` its draft for the ticket and the classification. A task of another type stores
-- nothing.
pub run_activity-read :
    {R : Type 0} (m : Pydantic) (agent : Agent R) (task : QueuedTask) (r : R) (j : Json)
    → IsTyped agent
    → (run_activity m agent task r).0 ≡ ok j
    → ((task.task_type ≡ "classify") × Classified m agent (read_ticket m agent task) r j)
      ⊎ ((task.task_type ≡ "draft") × Drafted m agent (read_both m agent task) r j)
unfolding run_activity
run_activity-read m agent task r j typed e = elim (Bool-cases (task.task_type == "classify")) [
  | inl here ↦ inl (
    (==_iff task.task_type "classify").0 here,
    classify-read m agent typed r j (read_ticket m agent task) (rw here at e),
  )
  | inr other ↦ elim (Bool-cases (task.task_type == "draft")) [
    | inl here ↦ inr (
      (==_iff task.task_type "draft").0 here,
      draft-read m agent typed r j (read_both m agent task) (rw (other, here) at e),
    )
    | inr unknown ↦ absurd (cc (rw (other, unknown) at e))
  ]
]
