-- ===== src/Graph/Keeps.antt =====
-- Invariants of node actions over the task queue, one rule for each way to build an action.
use ticket_graph.Prelude.{
  ℕ, String, ◌≡◌, refl, inl, inr, Bool, true, false, Option, none, some, List, [], ◌∷◌, All,
  All-append, if◌then◌else◌, Bool-cases, nat_eq, string_eq,
}
use ticket_graph.Json.{Json}
use ticket_graph.Result.{Error, Result, ok, err}
use ticket_graph.TaskQueue.{
  TaskTable, NewTask, QueuedTask, enqueue, cancel_pending, cancelled, pending_key, new_row, has_key,
}
use ticket_graph.Workflows.{Config}
use ticket_graph.Graph.Action.{
  Action, World, pure, raise, interrupt, lift, require, ◌>>=◌, Outcome, suspend, continue, returned,
  interrupted, raised,
}
use ticket_graph.Graph.Dispatch.{
  enqueue_task, redispatch_agent_task, await_agent_task, fallback_task, enqueue_agent_task,
  primary_task, agent_key, primary_envelope, is_timeout,
}
use ticket_graph.Sql.Laws.{All-update_where}
use ticket_graph.Sql.{exists_where}

-- Every row of the task queue satisfies `P` after `m` if every row does before, however `m` ends.
pub record Keeps (P : QueuedTask → Type 0) {A : Type 0} (m : Action A) : Type 0 where
  pub at : (w : World) → All P w.tasks.rows → All P (m w).1.tasks.rows

module _ {P : QueuedTask → Type 0} {A : Type 0} where
  pub Keeps-pure : (a : A) → Keeps P (pure a)
  Keeps-pure a = record { at = λ w h. h }

  pub Keeps-raise : (e : Error) → Keeps P (raise {A = A} e)
  Keeps-raise e = record { at = λ w h. h }

  pub Keeps-lift : (r : Result A) → Keeps P (lift r)
  Keeps-lift (ok a) = record { at = λ w h. h }
  Keeps-lift (err e) = record { at = λ w h. h }

  pub Keeps-if : (b : Bool) (m n : Action A) → Keeps P m → Keeps P n → Keeps P (if b then m else n)
  Keeps-if true m n km kn = km
  Keeps-if false m n km kn = kn

module _ (P : QueuedTask → Type 0) where
  suspend-All :
      (vs : List Json) (envelope : Json) (w : World)
      → All P w.tasks.rows
      → All P (suspend vs envelope w).1.tasks.rows
  suspend-All [] envelope w h = h
  suspend-All (v ∷ vs) envelope w h = h

module _ {P : QueuedTask → Type 0} where
  pub Keeps-interrupt : (envelope : Json) → Keeps P (interrupt envelope)
  Keeps-interrupt envelope = record { at = λ w h. suspend-All P w.resumes envelope w h }

module _ {P : QueuedTask → Type 0} {A B : Type 0} (f : A → Action B)
    (kf : (a : A) → Keeps P (f a)) where
  continue-All :
      (o : Outcome A) (w : World) → All P w.tasks.rows → All P (continue o f w).1.tasks.rows
  continue-All (returned a) w h = (kf a).at w h
  continue-All (interrupted e) w h = h
  continue-All (raised e) w h = h

module _ {P : QueuedTask → Type 0} {A B : Type 0} where
  pub Keeps-bind :
      (m : Action A) (f : A → Action B) → Keeps P m → ((a : A) → Keeps P (f a)) → Keeps P (m >>= f)
  Keeps-bind m f km kf = record { at = λ w h. continue-All f kf (m w).0 (m w).1 (km.at w h) }

  -- the rest may use what the assertion found
  pub Keeps-bind-require :
      (e : Error) (o : Option A) (f : A → Action B)
      → ((a : A) → o ≡ some a → Keeps P (f a))
      → Keeps P (require e o >>= f)
  Keeps-bind-require e none f kf = record { at = λ w h. h }
  Keeps-bind-require e (some a) f kf = record { at = (kf a refl).at }

module _ (P : QueuedTask → Type 0) where
  pub All-enqueue :
      (now : ℕ) (task : NewTask) (t : TaskTable)
      → P (new_row now t.next_id task)
      → All P t.rows
      → All P (enqueue now task t).1.rows
  unfolding enqueue
  All-enqueue now task t p h =
      elim (Bool-cases (exists_where (has_key task.idempotency_key) t.rows)) [
        | inl taken ↦ rw taken h
        | inr free ↦ rw free (All-append P t.rows _ h (p, tt))
      ]

module _ {P : QueuedTask → Type 0}
    (cancel : (reason : String) (r : QueuedTask) → P r → P (cancelled reason r)) (cfg : Config)
    (now : ℕ) where
  pub Keeps-enqueue_task :
      (task : NewTask) (wakeup_after : Option ℕ)
      → ((fresh : ℕ) → P (new_row now fresh task))
      → Keeps P (enqueue_task cfg now task wakeup_after)
  unfolding enqueue_task
  Keeps-enqueue_task task wakeup_after p = record {
    at = λ w h. All-enqueue P now task w.tasks (p w.tasks.next_id) h;
  }

  pub Keeps-enqueue_agent_task :
      (task_type workflow_id : String) (payload : Json)
      → ((fresh : ℕ) → P (new_row now fresh (primary_task cfg task_type workflow_id payload)))
      → Keeps P (enqueue_agent_task cfg now task_type workflow_id payload)
  unfolding enqueue_agent_task
  Keeps-enqueue_agent_task task_type workflow_id payload p = record {
    at = λ w h.
        All-enqueue P now (primary_task cfg task_type workflow_id payload) w.tasks
          (p w.tasks.next_id) h;
  }

  module _ (key task_type workflow_id : String) (payload : Json)
      (p : (fresh : ℕ)
        → P (new_row now fresh (fallback_task cfg key task_type workflow_id payload))) where
    redispatch-All :
        (w : World)
        → All P w.tasks.rows
        → All P (redispatch_agent_task cfg now key task_type workflow_id payload w).1.tasks.rows
    unfolding redispatch_agent_task
    redispatch-All w h =
        let t = (cancel_pending key "redispatched to fallback" w.tasks).1 in
        let cancelled_all : All P t.rows =
          unfold cancel_pending in
          All-update_where P (pending_key key) (cancelled "redispatched to fallback") w.tasks.rows
            (λ r _ q. cancel "redispatched to fallback" r q) h in
        elim (Bool-cases (cancel_pending key "redispatched to fallback" w.tasks).0) [
          | inl e ↦ rw e (
              All-enqueue P now (fallback_task cfg key task_type workflow_id payload) t
                (p t.next_id) cancelled_all)
          | inr e ↦ rw e cancelled_all
        ]

  pub Keeps-await_agent_task :
      (task_type workflow_id : String) (payload : Json) (wakeup_at : Option ℕ)
      → ((fresh : ℕ)
          → P (
              new_row now fresh (
                fallback_task cfg (agent_key workflow_id task_type) task_type workflow_id payload)))
      → Keeps P (await_agent_task cfg now task_type workflow_id payload wakeup_at)
  unfolding await_agent_task
  Keeps-await_agent_task task_type workflow_id payload wakeup_at p =
      let k : Keeps P (
          redispatch_agent_task cfg now (agent_key workflow_id task_type) task_type workflow_id
            payload) =
        record {
          at = redispatch-All (agent_key workflow_id task_type) task_type workflow_id payload p;
        } in
      Keeps-bind
        (interrupt
          (primary_envelope cfg (agent_key workflow_id task_type) task_type workflow_id wakeup_at))
        _ (Keeps-interrupt _)
        λ resume.
          Keeps-if (is_timeout resume) _ _
            (Keeps-bind
              (redispatch_agent_task cfg now (agent_key workflow_id task_type) task_type workflow_id
                payload)
              _ k (λ r. Keeps-interrupt _))
            (Keeps-pure resume)
