-- ===== src/TaskQueue/Dequeue.antt =====
-- Which task `dequeue` leases, and what it leaves.
use ticket_graph.Prelude.{
  ℕ, ◌≡◌, Bool, true, String, none, some, All, All-impl, Distinct, ==_iff, ==_refl, nat_eq, ◌≤◌,
  false,
}
use ticket_graph.Sql.{select_where, update_where, exists_where}
use ticket_graph.Sql.Laws.{All-select_where, All-of_select_where, All-of_select-nil}
use ticket_graph.Sql.Pick.{
  first_by-select, All-exists_self, fetchone-updated, All-first_by, first_by-least, first_by-None,
}
use ticket_graph.TaskQueue.{QueuedTask, TaskTable, dequeuable, has_id, lease_to, next_due, dequeue}

module _ (locked : ℕ → Bool) (queue : String) (now : ℕ) (t : TaskTable) (c : QueuedTask)
    (ids : Distinct (λ (r : QueuedTask). r.id) t.rows)
    (picked : next_due locked queue now t ≡ some c) where
  -- The row that is picked may be leased, and no other row has its id.
  pub next_due-row : (dequeuable locked queue now c ≡ true) × All (λ r. r.id ≡ c.id → r ≡ c) t.rows
  unfolding next_due
  next_due-row =
      first_by-select (dequeuable locked queue now) (λ r. r.available_at) (λ r. r.id) t.rows c ids
        picked

  pub next_due_unique : All (λ r. has_id c.id r ≡ true → r ≡ c) t.rows
  next_due_unique =
      All-impl (λ r. r.id ≡ c.id → r ≡ c) (λ r. has_id c.id r ≡ true → r ≡ c) t.rows
        (λ r same e. same ((==_iff r.id c.id).0 e)) next_due-row.1

  pub next_due-present : exists_where (has_id c.id) t.rows ≡ true
  unfolding next_due
  next_due-present =
      All-first_by (λ r. r.available_at) (λ c. exists_where (has_id c.id) t.rows ≡ true)
        (select_where (dequeuable locked queue now) t.rows) c
        (All-impl
          (λ c. (dequeuable locked queue now c ≡ true) × (exists_where (has_id c.id) t.rows ≡ true))
          (λ c. exists_where (has_id c.id) t.rows ≡ true)
          (select_where (dequeuable locked queue now) t.rows) (λ c h. h.1)
          (All-select_where (λ c. exists_where (has_id c.id) t.rows ≡ true)
            (dequeuable locked queue now) t.rows
            (All-exists_self (λ c r. has_id c.id r) t.rows (λ r. ==_refl r.id))))
        picked

  pub dequeue-picked :
      (worker : String)
      → dequeue locked queue worker now t ≡ (
        some (lease_to worker now c),
        record t { rows = update_where (has_id c.id) (lease_to worker now) t.rows },
      )
  unfolding dequeue
  dequeue-picked worker =
      rw (picked, dequeue)
        (rw (
          fetchone-updated (has_id c.id) (lease_to worker now) c t.rows next_due-present
            next_due_unique))

-- When no row is picked nothing changes.
pub dequeue-none :
    (locked : ℕ → Bool) (queue worker : String) (now : ℕ) (t : TaskTable)
    → next_due locked queue now t ≡ none
    → dequeue locked queue worker now t ≡ (none, t)
unfolding dequeue
dequeue-none locked queue worker now t e = rw (e, dequeue)

module _ (locked : ℕ → Bool) (queue : String) (now : ℕ) (t : TaskTable) where
  pub next_due-least :
      (c : QueuedTask)
      → next_due locked queue now t ≡ some c
      → All (λ y. dequeuable locked queue now y ≡ true → c.available_at ≤ y.available_at) t.rows
  unfolding next_due
  next_due-least c e =
      All-of_select_where (λ y. c.available_at ≤ y.available_at) (dequeuable locked queue now)
        t.rows
        (first_by-least (λ r. r.available_at) (select_where (dequeuable locked queue now) t.rows) c
          e)

  pub next_due-None :
      next_due locked queue now t ≡ none → All (λ y. dequeuable locked queue now y ≡ false) t.rows
  unfolding next_due
  next_due-None e =
      All-of_select-nil (dequeuable locked queue now) t.rows
        (first_by-None (λ r. r.available_at) (select_where (dequeuable locked queue now) t.rows) e)
