-- ===== src/TaskQueue/Delivery.antt =====
-- Deliveries: which task a worker gets, and that no task is leased to two of them.
use ticket_graph.TaskQueue.{
  QueuedTask, TaskTable, dequeuable, has_id, is_leased, lease_to, next_due, dequeue, update_where,
  exists_where,
}
use ticket_graph.TaskQueue.Invariant.{IsValid, dequeue-IsValid}
use ticket_graph.TaskQueue.Dequeue.{
  next_due-row, next_due_unique, dequeue-picked, dequeue-none, next_due-least, next_due-None,
  next_due-present,
}
use ticket_graph.Prelude.{
  ℕ, ◌≤◌, String, ◌≡◌, refl, ◌≢◌, ◌⊎◌, inl, inr, Bool, true, false, Option, none, some, List, [],
  ◌∷◌, arith, All, Distinct, Option-cases, nat_eq, string_eq,
}
use ticket_graph.Sql.Laws.{All-update_where, All-update_cases}
use ticket_graph.Sql.Pick.{All-exists}

-- one request of a worker to lease a task
pub record Request : Type 0 where
  pub locked : ℕ → Bool
  pub queue : String
  pub worker : String
  pub at : ℕ

-- `r` is what the worker gets: the task that was due first, leased to it for 30 seconds, while
-- every other row of the table stays.
pub record Delivers (q : Request) (t : TaskTable) (r : QueuedTask) (t' : TaskTable) : Type 0 where
  pub task : QueuedTask
  pub was_due : dequeuable q.locked q.queue q.at task ≡ true
  pub first :
      All
        (λ y. dequeuable q.locked q.queue q.at y ≡ true → task.available_at ≤ y.available_at)
        t.rows
  pub leased : r ≡ lease_to q.worker q.at task
  pub only : t' ≡ record t { rows = update_where (has_id task.id) (lease_to q.worker q.at) t.rows }
  pub present : exists_where (has_id task.id) t.rows ≡ true
  pub alone : All (λ y. has_id task.id y ≡ true → y ≡ task) t.rows

abbrev pub serve : Request → TaskTable → Option QueuedTask × TaskTable
serve q t = dequeue q.locked q.queue q.worker q.at t

-- `dequeue` answers with a task exactly when one is pending, due, unlocked and in its queue; then
-- it is the one that was due first, leased to the worker for 30 seconds with one more attempt, its
-- id names no other row, and no other row of the table changes. Otherwise nothing changes and no
-- row may be leased.
pub dequeue_lem :
    (q : Request) (t : TaskTable)
    → IsValid t
    → ((r : QueuedTask) × ((serve q t).0 ≡ some r) × Delivers q t r (serve q t).1)
      ⊎ ((serve q t ≡ (none, t)) × All (λ y. dequeuable q.locked q.queue q.at y ≡ false) t.rows)
dequeue_lem q t v = elim (Option-cases (next_due q.locked q.queue q.at t)) [
  | inl e ↦
      inr (dequeue-none q.locked q.queue q.worker q.at t e, next_due-None q.locked q.queue q.at t e)
  | inr (c, e) ↦ inl (
    lease_to q.worker q.at c,
    rw (dequeue-picked q.locked q.queue q.at t c v.ids e q.worker),
    record {
      task = c;
      was_due = (next_due-row q.locked q.queue q.at t c v.ids e).0;
      first = next_due-least q.locked q.queue q.at t c e;
      leased = refl;
      only = rw (dequeue-picked q.locked q.queue q.at t c v.ids e q.worker);
      present = next_due-present q.locked q.queue q.at t c v.ids e;
      alone = next_due_unique q.locked q.queue q.at t c v.ids e;
    },
  )
]

-- The ids of the tasks that the requests get, one after the other.
abbrev got : Option QueuedTask → List ℕ → List ℕ
got none ids = ids
got (some r) ids = r.id ∷ ids

unfoldable pub deliveries : TaskTable → List Request → List ℕ
deliveries t [] = []
deliveries t (q ∷ qs) = let rest = deliveries (serve q t).1 qs in got (serve q t).0 rest

-- Task `i` is not there to be leased.
abbrev IsTaken : ℕ → TaskTable → Type 0
IsTaken i t = All (λ r. r.id ≡ i → is_leased r.status ≡ true) t.rows

module _ (i : ℕ) (q : Request) (t : TaskTable) (v : IsValid t) where
  IsTaken-serve : IsTaken i t → IsTaken i (serve q t).1
  IsTaken-serve h = elim (dequeue_lem q t v) [
    | inl (r, e, d) ↦ rw d.only (
        All-update_where (λ y. y.id ≡ i → is_leased y.status ≡ true) (has_id d.task.id)
          (lease_to q.worker q.at) t.rows (λ y _ _ _. refl) h)
    | inr (e, _) ↦ rw e h
  ]

module _ (q : Request) (t : TaskTable) (v : IsValid t) (r : QueuedTask)
    (e : (serve q t).0 ≡ some r) where
  -- What a request gets was not taken before, and is taken afterwards.
  free-serve : (i : ℕ) → IsTaken i t → r.id ≢ i
  free-serve i h = elim (dequeue_lem q t v) [
    | inl (r', e', d) ↦
        let taken =
          All-exists (λ y. y.id ≡ i → is_leased y.status ≡ true) (has_id d.task.id) d.task t.rows
            d.present d.alone h in
        λ same. ground (arith, d.was_due, d.leased, taken (ground (arith, d.leased)))
    | inr (e', _) ↦ absurd (cc (e', e))
  ]

  taking-serve : IsTaken r.id (serve q t).1
  taking-serve = elim (dequeue_lem q t v) [
    | inl (r', e', d) ↦ rw d.only (
        All-update_cases (λ y. y.id ≡ r.id → is_leased y.status ≡ true) (has_id d.task.id)
          (lease_to q.worker q.at) t.rows (λ y _ _. refl) (λ y miss same. ground (arith, d.leased)))
    | inr (e', _) ↦ absurd (cc (e', e))
  ]

IsValid-serve : (q : Request) (t : TaskTable) → IsValid t → IsValid (serve q t).1
IsValid-serve q t v = dequeue-IsValid q.locked q.queue q.worker q.at t v

deliveries-free :
    (i : ℕ) (t : TaskTable) (qs : List Request)
    → IsValid t
    → IsTaken i t
    → All (λ j. j ≢ i) (deliveries t qs)
unfolding deliveries
deliveries-free i t [] v h = tt
deliveries-free i t (q ∷ qs) v h =
    let rest = deliveries-free i (serve q t).1 qs (IsValid-serve q t v) (IsTaken-serve i q t v h) in
    elim (Option-cases (serve q t).0) [
      | inl e ↦ rw e rest
      | inr (r, e) ↦ rw e (free-serve q t v r e i h, rest)
    ]

-- From a valid table, whatever the workers ask for, at whatever times and under whatever locks, no
-- task is leased twice by a series of `dequeue` calls.
pub deliveries-Distinct :
    (t : TaskTable) (qs : List Request) → IsValid t → Distinct (λ i. i) (deliveries t qs)
unfolding deliveries
deliveries-Distinct t [] v = tt
deliveries-Distinct t (q ∷ qs) v =
    let rest = deliveries-Distinct (serve q t).1 qs (IsValid-serve q t v) in
    elim (Option-cases (serve q t).0) [
      | inl e ↦ rw e rest
      | inr (r, e) ↦ rw e (
        deliveries-free r.id (serve q t).1 qs (IsValid-serve q t v) (taking-serve q t v r e),
        rest,
      )
    ]
