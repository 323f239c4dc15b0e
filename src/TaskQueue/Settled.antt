-- ===== src/TaskQueue/Settled.antt =====
-- What a settled task keeps: its row, whatever is called on the queue, until it is pruned.
use ticket_graph.Prelude.{
  ℕ, String, ◌≡◌, refl, ap, ◌∙◌, inl, inr, Bool, true, false, some, List, [], ◌∷◌, arith, All,
  Bool-cases, Option-cases, ◌==◌, nat_eq, string_eq, ==_iff,
}
use ticket_graph.TaskQueue.{
  QueuedTask, TaskTable, NewTask, has_key, has_id, is_settled, enqueue, dequeue, next_due, lease_to,
  cancel_pending, complete, fail, reclaim_expired, new_row,
}
use ticket_graph.TaskQueue.Invariant.{IsValid, step-IsValid}
use ticket_graph.TaskQueue.Calls.{
  Call, Keeps, enqueues, cancels, dequeues, completes, fails, reclaims, prunes, step, run,
}
use ticket_graph.Sql.{select_where, update_where, exists_where}
use ticket_graph.Sql.Laws.{select-update_eq, exists-select, select-insert, All-read}
use ticket_graph.TaskQueue.Dequeue.{next_due_unique, next_due-row}

-- The rows of an idempotency key are `r` alone.
abbrev pub Holds : String → QueuedTask → TaskTable → Type 0
Holds key r t = select_where (has_key key) t.rows ≡ r ∷ []

module _ (key : String) (r : QueuedTask) (settled : is_settled r.status ≡ true) where
  update-Holds :
      (p : QueuedTask → Bool) (f : QueuedTask → QueuedTask) (t : TaskTable)
      → ((x : QueuedTask) → has_key key (f x) ≡ has_key key x)
      → p r ≡ false
      → Holds key r t
      → Holds key r (record t { rows = update_where p f t.rows })
  unfolding update_where
  update-Holds p f t same miss h = rw (select-update_eq p (has_key key) f t.rows same, h) (rw miss)

  exists-Holds : (t : TaskTable) → Holds key r t → exists_where (has_key key) t.rows ≡ true
  exists-Holds t h = elim (Bool-cases (exists_where (has_key key) t.rows)) [
    | inl e ↦ e
    | inr e ↦ absurd (cc (h, exists-select (has_key key) t.rows e))
  ]

  -- A key that is free is not the key of `r`.
  fresh_key :
      (task : NewTask) (t : TaskTable)
      → Holds key r t
      → exists_where (has_key task.idempotency_key) t.rows ≡ false
      → (task.idempotency_key == key) ≡ false
  fresh_key task t h free = elim (Bool-cases (task.idempotency_key == key)) [
    | inl e ↦ absurd (
        cc (
          exists-Holds t h,
          ap (λ k. exists_where (has_key k) t.rows) ((==_iff task.idempotency_key key).0 e),
          free,
        ))
    | inr e ↦ e
  ]

  enqueue-Holds :
      (now : ℕ) (task : NewTask) (t : TaskTable)
      → Holds key r t
      → Holds key r (enqueue now task t).1
  unfolding enqueue
  enqueue-Holds now task t h =
      elim (Bool-cases (exists_where (has_key task.idempotency_key) t.rows)) [
        | inl taken ↦ rw taken h
        | inr free ↦ rw free (
            select-insert (has_key key) t.rows (new_row now t.next_id task)
            ∙ rw (h, fresh_key task t h free))
      ]

  other :
      (locked : ℕ → Bool) (queue : String) (now : ℕ) (t : TaskTable) (c : QueuedTask)
      → IsValid t
      → next_due locked queue now t ≡ some c
      → Holds key r t
      → has_id c.id r ≡ false
  other locked queue now t c v e h =
      let same =
        (All-read (λ x. has_id c.id x ≡ true → x ≡ c) (has_key key) t.rows r
          (next_due_unique locked queue now t c v.ids e) h).1 in
      let due = (next_due-row locked queue now t c v.ids e).0 in
      elim (Bool-cases (has_id c.id r)) [ inl hit ↦ ground (arith, same hit) | inr miss ↦ miss ]

  dequeue-Holds :
      (locked : ℕ → Bool) (queue worker : String) (now : ℕ) (t : TaskTable)
      → IsValid t
      → Holds key r t
      → Holds key r (dequeue locked queue worker now t).1
  unfolding dequeue
  dequeue-Holds locked queue worker now t v h = elim (Option-cases (next_due locked queue now t)) [
    | inl e ↦ rw (e, dequeue) h
    | inr (c, e) ↦
        rw (e, dequeue)
          (update-Holds (has_id c.id) (lease_to worker now) t (λ x. refl)
            (other locked queue now t c v e h) h)
  ]

  step-Holds :
      (t : TaskTable) (c : Call) → Keeps c → IsValid t → Holds key r t → Holds key r (step t c)
  unfolding step
  step-Holds t (enqueues now task) k v h = enqueue-Holds now task t h
  step-Holds t (cancels other reason) k v h =
      unfold cancel_pending in update-Holds _ _ t (λ x. refl) (ground arith) h
  step-Holds t (dequeues locked queue worker now) k v h =
      dequeue-Holds locked queue worker now t v h
  step-Holds t (completes i result) k v h =
      unfold complete in update-Holds _ _ t (λ x. refl) (ground arith) h
  step-Holds t (fails i error permanent now) k v h =
      unfold fail in update-Holds _ _ t (λ x. refl) (ground arith) h
  step-Holds t (reclaims now) k v h =
      unfold reclaim_expired in update-Holds _ _ t (λ x. refl) (ground arith) h
  step-Holds t (prunes age now) k v h = absurd k

-- A call that prunes nothing.
abbrev pub KeepsAll : List Call → Type 0
KeepsAll cs = All Keeps cs

-- Once a task is settled (done with its result, or failed with its error), its row stays as it is
-- under any calls that do not prune: it is not enqueued again, cancelled, leased, completed, failed
-- or reclaimed, by whatever late worker.
pub run-Holds :
    (key : String) (r : QueuedTask) (t : TaskTable) (cs : List Call)
    → is_settled r.status ≡ true
    → IsValid t
    → KeepsAll cs
    → Holds key r t
    → Holds key r (run t cs)
unfolding run
run-Holds key r t [] settled v k h = h
run-Holds key r t (c ∷ cs) settled v k h =
    run-Holds key r (step t c) cs settled (step-IsValid t c v) k.1
      (step-Holds key r settled t c k.0 v h)
