-- ===== src/Examples/Agent.antt =====
-- The mock agent on a generator that always draws the least value, and a token bucket.
use ticket_graph.Prelude.{
  ℕ, suc, ◌≡◌, refl, ◌⊎◌, true, false, none, some, [], ◌∷◌, arith, nat_eq, string_eq,
}
use ticket_graph.Json.{get, lookup, obj, field, end}
use ticket_graph.Result.{ok}
use ticket_graph.Models.{Classification, DraftReply, draft_ok, one, billing, reply_only}
use ticket_graph.Models.Plain.{plain, dump_draft, dump_ticket, dump_classification}
use ticket_graph.TaskQueue.{QueuedTask, leased}
use ticket_graph.Graph.Payloads.{approval_needed}
use ticket_graph.Agent.{IsTyped, run_activity, Agent, read_ticket, read_both}
use ticket_graph.Agent.Mock.{
  Random, mock_agent, fallback, primary, propose, maybe_fail, maybe_sleep, reply_template,
}
use ticket_graph.Agent.Stored.{
  mock_agent-IsTyped, fallback-approval_needed, run_activity-read, Classified, Drafted,
}
use ticket_graph.Worker.Bucket.{TokenBucket, acquire, grants, grants-IsSpaced, IsSpaced, Waited}
use ticket_graph.Examples.Effects.{ticket}

abbrev dice : Random ℕ
dice = record {
  random = λ r. (0, suc r);
  uniform = λ a b r. (a, suc r);
  round2 = λ x. x;
  lower = λ s. s;
  random-lt = λ r. omega arith;
  uniform-ge = λ a b r le. omega arith;
  uniform-le = λ a b r le. le;
  round2-pos = λ x le. omega (arith, le);
}

abbrev classified : Classification
classified = record { category = billing; confidence = one; model = "primary" }

-- what the fallback agent drafts on these dice
abbrev drafted : DraftReply
drafted = record {
  reply_text = reply_template billing;
  action = record { type = reply_only; refund_amount = none };
  confidence = 0;
  model = "fallback";
}

drafts : ((mock_agent dice fallback).draft_reply ticket classified 0).0 ≡ ok drafted
unfolding maybe_fail maybe_sleep propose
drafts = refl

fallback-approval_needed_example : (draft_ok drafted ≡ true) × (approval_needed drafted ≡ true)
fallback-approval_needed_example = fallback-approval_needed dice ticket classified 0 drafted drafts

primary-IsTyped_example : IsTyped (mock_agent dice (primary 0))
primary-IsTyped_example = mock_agent-IsTyped dice (primary 0) (omega arith, omega arith)

abbrev draft_task : QueuedTask
draft_task = record {
  id = 1;
  queue_name = "fallback";
  task_type = "draft";
  workflow_id = "t";
  payload = obj (
      field "ticket" (dump_ticket ticket)
        (field "classification" (dump_classification classified) end));
  idempotency_key = "t:draft:fallback";
  status = leased;
  attempts = 1;
  max_attempts = 3;
  available_at = 10;
  enqueued_at = 10;
  lease_owner = some "w";
  lease_expires_at = some 99;
  result = none;
  error = none;
  permanent = false;
}

stores : (run_activity plain (mock_agent dice fallback) draft_task 0).0 ≡ ok (dump_draft drafted)
unfolding run_activity plain maybe_fail maybe_sleep propose get lookup
stores = refl

fallback-IsTyped : IsTyped (mock_agent dice fallback)
fallback-IsTyped = mock_agent-IsTyped dice fallback (omega arith, omega arith)

abbrev fallback_agent : Agent ℕ
fallback_agent = mock_agent dice fallback

run_activity-read_example :
    ((draft_task.task_type ≡ "classify")
      × Classified plain fallback_agent
          (read_ticket plain fallback_agent draft_task)
          0
          (dump_draft drafted))
    ⊎ ((draft_task.task_type ≡ "draft")
        × Drafted plain fallback_agent
            (read_both plain fallback_agent draft_task)
            0
            (dump_draft drafted))
run_activity-read_example =
    run_activity-read plain fallback_agent draft_task 0 (dump_draft drafted) fallback-IsTyped stores

abbrev bucket : TokenBucket
bucket = record { interval = 10; next_available = none }

-- A burst of three calls, and a late one.
burst : grants bucket (100 ∷ 100 ∷ 101 ∷ 200 ∷ []) ≡ 100 ∷ 110 ∷ 120 ∷ 200 ∷ []
unfolding grants acquire
burst = refl

grants-IsSpaced_example :
    IsSpaced 10 0 (grants bucket (100 ∷ 100 ∷ 101 ∷ 200 ∷ []))
    × Waited (100 ∷ 100 ∷ 101 ∷ 200 ∷ []) (grants bucket (100 ∷ 100 ∷ 101 ∷ 200 ∷ []))
grants-IsSpaced_example = grants-IsSpaced bucket (100 ∷ 100 ∷ 101 ∷ 200 ∷ [])
