-- ===== src/Graph/Calling.antt =====
-- A graph acts on the task queue by calls of `enqueue` and `cancel_pending` only.
use ticket_graph.Prelude.{
  ℕ, String, inl, inr, Bool, true, false, Option, List, [], ◌∷◌, if◌then◌else◌, Bool-cases, nat_eq,
  string_eq,
}
use ticket_graph.Json.{Json}
use ticket_graph.TaskQueue.{TaskTable, NewTask, cancel_pending}
use ticket_graph.TaskQueue.Calls.{Call, enqueues, cancels, step}
use ticket_graph.TaskQueue.Traces.{QueueTrace, trace_none, trace_one, trace_then}
use ticket_graph.Workflows.{Config}
use ticket_graph.Graph.Action.{
  Action, World, Outcome, returned, interrupted, raised, pure, interrupt, suspend, continue, ◌>>=◌,
}
use ticket_graph.Graph.Dispatch.{
  enqueue_task, redispatch_agent_task, await_agent_task, enqueue_agent_task, fallback_task,
  primary_task,
}

abbrev pub IsGraphCall : Call → Type 0
IsGraphCall (enqueues _ _) = Unit
IsGraphCall (cancels _ _) = Unit
IsGraphCall _ = ⊥

abbrev pub GraphTrace : TaskTable → TaskTable → Type 0
GraphTrace t t' = QueueTrace IsGraphCall t t'

-- However it ends, the action has acted on the queue by such calls.
pub record Calling {A : Type 0} (m : Action A) : Type 0 where
  pub at : (w : World) → GraphTrace w.tasks (m w).1.tasks

module _ {A : Type 0} where
  Calling-pure : (a : A) → Calling (pure a)
  Calling-pure a = record { at = λ w. trace_none w.tasks }

  Calling-if : (b : Bool) (m n : Action A) → Calling m → Calling n → Calling (if b then m else n)
  Calling-if true m n km kn = km
  Calling-if false m n km kn = kn

Calling-interrupt : (envelope : Json) → Calling (interrupt envelope)
Calling-interrupt envelope = record { at = λ w. taken w.resumes w }
  where
    taken : (vs : List Json) (w : World) → GraphTrace w.tasks (suspend vs envelope w).1.tasks
    taken [] w = trace_none w.tasks
    taken (v ∷ vs) w = trace_none w.tasks

module _ {A B : Type 0} where
  continued :
      (f : A → Action B) (o : Outcome A) (w : World)
      → ((a : A) → Calling (f a))
      → GraphTrace w.tasks (continue o f w).1.tasks
  continued f (returned a) w kf = (kf a).at w
  continued f (interrupted e) w kf = trace_none w.tasks
  continued f (raised e) w kf = trace_none w.tasks

  Calling-bind :
      (m : Action A) (f : A → Action B) → Calling m → ((a : A) → Calling (f a)) → Calling (m >>= f)
  Calling-bind m f km kf = record {
    at = λ w. trace_then (km.at w) (continued f (m w).0 (m w).1 kf);
  }

module _ (cfg : Config) (now : ℕ) where
  Calling-enqueue_task :
      (task : NewTask) (wakeup_after : Option ℕ) → Calling (enqueue_task cfg now task wakeup_after)
  unfolding enqueue_task step
  Calling-enqueue_task task wakeup_after = record {
    at = λ w. trace_one w.tasks (enqueues now task) tt;
  }

  pub Calling-enqueue_agent_task :
      (task_type workflow_id : String) (payload : Json)
      → Calling (enqueue_agent_task cfg now task_type workflow_id payload)
  unfolding enqueue_agent_task step
  Calling-enqueue_agent_task task_type workflow_id payload = record {
    at = λ w. trace_one w.tasks (enqueues now (primary_task cfg task_type workflow_id payload)) tt;
  }

  Calling-redispatch_agent_task :
      (key task_type workflow_id : String) (payload : Json)
      → Calling (redispatch_agent_task cfg now key task_type workflow_id payload)
  unfolding redispatch_agent_task step
  Calling-redispatch_agent_task key task_type workflow_id payload = record {
    at = λ w.
        let first : GraphTrace w.tasks (cancel_pending key "redispatched to fallback" w.tasks).1 =
          trace_one w.tasks (cancels key "redispatched to fallback") tt in
        elim (Bool-cases (cancel_pending key "redispatched to fallback" w.tasks).0) [
          | inl e ↦ rw e (
              trace_then first (
                trace_one (cancel_pending key "redispatched to fallback" w.tasks).1
                  (enqueues now (fallback_task cfg key task_type workflow_id payload)) tt))
          | inr e ↦ rw e first
        ];
  }

  pub Calling-await_agent_task :
      (task_type workflow_id : String) (payload : Json) (wakeup_at : Option ℕ)
      → Calling (await_agent_task cfg now task_type workflow_id payload wakeup_at)
  unfolding await_agent_task
  Calling-await_agent_task task_type workflow_id payload wakeup_at =
      Calling-bind (interrupt _) _ (Calling-interrupt _) λ resume.
        Calling-if _ _ _
          (Calling-bind (redispatch_agent_task cfg now _ task_type workflow_id payload) _
            (Calling-redispatch_agent_task _ task_type workflow_id payload)
            (λ r. Calling-interrupt _))
          (Calling-pure resume)
