-- ===== src/TaskQueue/Invariant.antt =====
-- The invariant of the table `task_queue`: unique ids and idempotency keys, and rows whose lease,
-- result and error columns agree with their status. Every call keeps it.
use ticket_graph.Prelude.{
  ℕ, suc, ◌≤◌, ◌<◌, ◌≡◌, ◌≢◌, refl, Bool, true, false, String, List, [], ◌∷◌, arith, All,
  All-append, All-impl, Distinct, is_some, ne_of_==, nat_eq, string_eq, Option-cases, Bool-cases,
  inl, inr, ◌++◌, some,
}
use ticket_graph.Json.{Json}
use ticket_graph.Sql.{update_where, exists_where}
use ticket_graph.Sql.Laws.{
  All-update_where, All-update_of, All-delete_where, All-of_exists_where, Distinct-update_where,
  Distinct-delete_where, Distinct-insert,
}
use ticket_graph.TaskQueue.{
  QueuedTask, TaskTable, TaskStatus, NewTask, done, is_leased, is_pending_status, is_failed,
  new_row, has_key, has_id, pending_key, cancelled, lease_to, leased_id, completed, failed_once,
  expired, reclaimed, prunable, enqueue, cancel_pending, dequeue, next_due, complete, fail,
  reclaim_expired, prune_settled,
}
use ticket_graph.TaskQueue.Dequeue.{next_due-row, next_due_unique, dequeue-picked, dequeue-none}
use ticket_graph.TaskQueue.Calls.{
  Call, enqueues, cancels, dequeues, completes, fails, reclaims, prunes, step, run, empty,
}

abbrev pub is_done : TaskStatus → Bool
is_done done = true
is_done _ = false

pub record RowIsValid (r : QueuedTask) : Type 0 where
  pub owned : is_some r.lease_owner ≡ is_leased r.status
  pub timed : is_some r.lease_expires_at ≡ is_leased r.status
  pub answered : is_some r.result ≡ is_done r.status
  pub explained : is_failed r.status ≡ true → is_some r.error ≡ true
  pub attempted : is_leased r.status ≡ true → 1 ≤ r.attempts
  pub ended : r.permanent ≡ true → is_failed r.status ≡ true

pub record IsValid (t : TaskTable) : Type 0 where
  pub ids : Distinct (λ r. r.id) t.rows
  pub keys : Distinct (λ r. r.idempotency_key) t.rows
  pub below : All (λ r. r.id < t.next_id) t.rows
  pub valid : All RowIsValid t.rows

-- An UPDATE that leaves ids and keys, and keeps the rows that it hits valid.
update-IsValid :
    (p : QueuedTask → Bool) (f : QueuedTask → QueuedTask) (t : TaskTable)
    → ((r : QueuedTask) → (f r).id ≡ r.id)
    → ((r : QueuedTask) → (f r).idempotency_key ≡ r.idempotency_key)
    → ((r : QueuedTask) → p r ≡ true → RowIsValid r → RowIsValid (f r))
    → IsValid t
    → IsValid (record t { rows = update_where p f t.rows })
update-IsValid p f t same_id same_key keep v = record {
  ids = Distinct-update_where (λ r. r.id) p f t.rows same_id v.ids;
  keys = Distinct-update_where (λ r. r.idempotency_key) p f t.rows same_key v.keys;
  below = All-update_where (λ r. r.id < t.next_id) p f t.rows (λ r _ h. rw (same_id r) h) v.below;
  valid = All-update_where RowIsValid p f t.rows keep v.valid;
}

new_row-RowIsValid : (now fresh : ℕ) (task : NewTask) → RowIsValid (new_row now fresh task)
unfolding new_row
new_row-RowIsValid now fresh task = ground arith

insert-IsValid :
    (now : ℕ) (task : NewTask) (t : TaskTable)
    → exists_where (has_key task.idempotency_key) t.rows ≡ false
    → IsValid t
    → IsValid (record { rows = t.rows ++ new_row now t.next_id task ∷ []; next_id = suc t.next_id })
unfolding new_row
insert-IsValid now task t free v = record {
  ids =
      Distinct-insert (λ r. r.id) t.rows _
        (All-impl (λ r. r.id < t.next_id) (λ r. r.id ≢ t.next_id) t.rows (λ r h. omega arith)
          v.below)
        v.ids;
  keys =
      Distinct-insert (λ r. r.idempotency_key) t.rows _
        (All-of_exists_where (λ r. r.idempotency_key ≢ task.idempotency_key)
          (has_key task.idempotency_key) t.rows free
          (λ r h. ne_of_== r.idempotency_key task.idempotency_key h))
        v.keys;
  below =
      All-append (λ r. r.id < suc t.next_id) t.rows _
        (All-impl (λ r. r.id < t.next_id) (λ r. r.id < suc t.next_id) t.rows (λ r h. omega arith)
          v.below)
        (omega arith, tt);
  valid = All-append RowIsValid t.rows _ v.valid (new_row-RowIsValid now t.next_id task, tt);
}

pub enqueue-IsValid :
    (now : ℕ) (task : NewTask) (t : TaskTable) → IsValid t → IsValid (enqueue now task t).1
unfolding enqueue
enqueue-IsValid now task t v =
    elim (Bool-cases (exists_where (has_key task.idempotency_key) t.rows)) [
      | inl taken ↦ rw taken (record {
        ids = v.ids;
        keys = v.keys;
        below =
            All-impl (λ r. r.id < t.next_id) (λ r. r.id < suc t.next_id) t.rows (λ r h. omega arith)
              v.below;
        valid = v.valid;
      })
      | inr free ↦ rw free (insert-IsValid now task t free v)
    ]

cancel_pending-IsValid :
    (key reason : String) (t : TaskTable) → IsValid t → IsValid (cancel_pending key reason t).1
unfolding cancel_pending
cancel_pending-IsValid key reason t =
    update-IsValid (pending_key key) (cancelled reason) t (λ r. refl) (λ r. refl)
      (λ r p v. ground arith)

lease_to-RowIsValid :
    (worker : String) (now : ℕ) (r : QueuedTask)
    → is_pending_status r.status ≡ true
    → RowIsValid r
    → RowIsValid (lease_to worker now r)
lease_to-RowIsValid worker now r p v = ground arith

lease-IsValid :
    (locked : ℕ → Bool) (queue worker : String) (now : ℕ) (t : TaskTable) (c : QueuedTask)
    → next_due locked queue now t ≡ some c
    → IsValid t
    → IsValid (record t { rows = update_where (has_id c.id) (lease_to worker now) t.rows })
lease-IsValid locked queue worker now t c e v =
    let due = (next_due-row locked queue now t c v.ids e).0 in
    record {
      ids =
          Distinct-update_where (λ r. r.id) (has_id c.id) (lease_to worker now) t.rows (λ r. refl)
            v.ids;
      keys =
          Distinct-update_where (λ r. r.idempotency_key) (has_id c.id) (lease_to worker now) t.rows
            (λ r. refl) v.keys;
      below =
          All-update_where (λ r. r.id < t.next_id) (has_id c.id) (lease_to worker now) t.rows
            (λ r _ h. h) v.below;
      valid =
          All-update_of RowIsValid (has_id c.id) (lease_to worker now) t.rows
            (All-impl (λ r. has_id c.id r ≡ true → r ≡ c)
              (λ r. has_id c.id r ≡ true → RowIsValid r → RowIsValid (lease_to worker now r)) t.rows
              (λ r same h w. lease_to-RowIsValid worker now r (rw (same h) (ground arith)) w)
              (next_due_unique locked queue now t c v.ids e))
            v.valid;
    }

pub dequeue-IsValid :
    (locked : ℕ → Bool) (queue worker : String) (now : ℕ) (t : TaskTable)
    → IsValid t
    → IsValid (dequeue locked queue worker now t).1
dequeue-IsValid locked queue worker now t v = elim (Option-cases (next_due locked queue now t)) [
  | inl e ↦ rw (dequeue-none locked queue worker now t e) v
  | inr (c, e) ↦
      rw (dequeue-picked locked queue now t c v.ids e worker)
        (lease-IsValid locked queue worker now t c e v)
]

complete-IsValid :
    (i : ℕ) (result : Json) (t : TaskTable) → IsValid t → IsValid (complete i result t).1
unfolding complete
complete-IsValid i result t =
    update-IsValid (leased_id i) (completed result) t (λ r. refl) (λ r. refl)
      (λ r p v. ground arith)

fail-IsValid :
    (i : ℕ) (error : String) (permanent : Bool) (now : ℕ) (t : TaskTable)
    → IsValid t
    → IsValid (fail i error permanent now t).1
unfolding fail
fail-IsValid i error permanent now t =
    update-IsValid (leased_id i) (failed_once error permanent now) t (λ r. refl) (λ r. refl)
      (λ r p v. ground arith)

reclaim_expired-IsValid : (now : ℕ) (t : TaskTable) → IsValid t → IsValid (reclaim_expired now t).1
unfolding reclaim_expired
reclaim_expired-IsValid now t =
    update-IsValid (expired now) reclaimed t (λ r. refl) (λ r. refl) (λ r p v. ground arith)

prune_settled-IsValid :
    (age now : ℕ) (t : TaskTable) → IsValid t → IsValid (prune_settled age now t).1
unfolding prune_settled
prune_settled-IsValid age now t v = record {
  ids = Distinct-delete_where (λ r. r.id) (prunable age now) t.rows v.ids;
  keys = Distinct-delete_where (λ r. r.idempotency_key) (prunable age now) t.rows v.keys;
  below = All-delete_where (λ r. r.id < t.next_id) (prunable age now) t.rows v.below;
  valid = All-delete_where RowIsValid (prunable age now) t.rows v.valid;
}

-- Every call, with whatever arguments and clock, keeps the table valid.
pub step-IsValid : (t : TaskTable) (c : Call) → IsValid t → IsValid (step t c)
unfolding step
step-IsValid t (enqueues now task) = enqueue-IsValid now task t
step-IsValid t (cancels key reason) = cancel_pending-IsValid key reason t
step-IsValid t (dequeues locked queue worker now) = dequeue-IsValid locked queue worker now t
step-IsValid t (completes i result) = complete-IsValid i result t
step-IsValid t (fails i error permanent now) = fail-IsValid i error permanent now t
step-IsValid t (reclaims now) = reclaim_expired-IsValid now t
step-IsValid t (prunes age now) = prune_settled-IsValid age now t

-- Whatever calls the processes make, in whatever order and at whatever times, the table that
-- starts valid ends valid: ids and idempotency keys are unique, ids lie below the sequence, exactly
-- the leased rows have an owner and an expiry and have been attempted, exactly the done rows have a
-- result, failed rows have an error, and a permanent row is failed.
pub run-IsValid : (t : TaskTable) (cs : List Call) → IsValid t → IsValid (run t cs)
unfolding run
run-IsValid t [] v = v
run-IsValid t (c ∷ cs) v = run-IsValid (step t c) cs (step-IsValid t c v)

pub empty-IsValid : IsValid empty
empty-IsValid = omega arith
