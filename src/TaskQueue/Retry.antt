-- ===== src/TaskQueue/Retry.antt =====
-- Idempotent enqueueing, retries with backoff, and the janitor.
use ticket_graph.Prelude.{
  ℕ, ◌+◌, ◌*◌, ◌^◌, ◌≤◌, ◌<◌, String, ◌≡◌, refl, ap, ◌∙◌, ◌⊎◌, inl, inr, Bool, true, false, none,
  some, [], ◌∷◌, arith, All, All-intro, Bool-cases, nat_eq, string_eq, ==_refl,
}
use ticket_graph.TaskQueue.{
  QueuedTask, TaskTable, NewTask, pending, failed, has_key, has_id, enqueue, fail, complete,
  leased_id, expired, reclaimed, reclaim_expired, is_leased, failed_once, Json, new_row, completed,
}
use ticket_graph.Clock.{second}
use ticket_graph.Sql.{select_where, update_where, exists_where}
use ticket_graph.Sql.Laws.{All-update_cases, All-read, select-update_eq}
use ticket_graph.Sql.Pick.{exists-insert, read-update, updated-miss, updated-read, update_none}

module _ (now : ℕ) (task : NewTask) (t : TaskTable) where
  -- After `enqueue` its key is taken.
  pub exists-enqueue :
      exists_where (has_key task.idempotency_key) (enqueue now task t).1.rows ≡ true
  unfolding enqueue
  exists-enqueue = elim (Bool-cases (exists_where (has_key task.idempotency_key) t.rows)) [
    | inl taken ↦ rw taken taken
    | inr free ↦ rw free (
        exists-insert (has_key task.idempotency_key) (new_row now t.next_id task) t.rows
          (unfold new_row in ==_refl task.idempotency_key))
  ]

  pub enqueue_taken :
      exists_where (has_key task.idempotency_key) t.rows ≡ true
      → ((enqueue now task t).0 ≡ none) × ((enqueue now task t).1.rows ≡ t.rows)
  unfolding enqueue
  enqueue_taken h = rw h (refl, refl)

-- After one `enqueue` of a key, a further `enqueue` of it returns None and adds no row, whatever
-- else it asks for and however late it comes.
pub enqueue-enqueue :
    (now now' : ℕ) (task task' : NewTask) (t : TaskTable)
    → task'.idempotency_key ≡ task.idempotency_key
    → ((enqueue now' task' (enqueue now task t).1).0 ≡ none)
      × ((enqueue now' task' (enqueue now task t).1).1.rows ≡ (enqueue now task t).1.rows)
enqueue-enqueue now now' task task' t same = enqueue_taken now' task' (enqueue now task t).1 (
    ap (λ key. exists_where (has_key key) (enqueue now task t).1.rows) same
    ∙ exists-enqueue now task t)

here :
    (i : ℕ) (t : TaskTable) (r : QueuedTask)
    → select_where (has_id i) t.rows ≡ r ∷ []
    → is_leased r.status ≡ true
    → leased_id i r ≡ true
here i t r only leased =
    ground
      (arith, (All-read (λ _. Unit {0}) (has_id i) t.rows r (All-intro _ t.rows (λ _. tt)) only).0)

-- `fail` on the one row with the id, while it is leased: it goes back to pending with a delay of
-- 2^attempts seconds as long as attempts are left and neither it nor the failure is permanent, and
-- is failed otherwise; the error is kept and the lease given up either way.
pub fail_lem :
    (i : ℕ) (error : String) (permanent : Bool) (now : ℕ) (t : TaskTable) (r : QueuedTask)
    → select_where (has_id i) t.rows ≡ r ∷ []
    → is_leased r.status ≡ true
    → let (status, t') = fail i error permanent now t in
      (r' : QueuedTask) × (select_where (has_id i) t'.rows ≡ r' ∷ [])
      × (status ≡ some r'.status)
      × (r'.lease_owner ≡ none)
      × (r'.error ≡ some error)
      × (((r.attempts < r.max_attempts)
            × (r.permanent ≡ false)
            × (permanent ≡ false)
            × (r'.status ≡ pending)
            × (r'.available_at ≡ now + 2 ^ r.attempts * second))
          ⊎ ((r'.status ≡ failed)
              × ((r.max_attempts ≤ r.attempts) ⊎ ((r.permanent ≡ true) ⊎ (permanent ≡ true)))))
unfolding fail
fail_lem i error permanent now t r only leased = (
  failed_once error permanent now r,
  read-update (leased_id i) (has_id i) (failed_once error permanent now) r t.rows (λ x. refl) only
      (here i t r only leased),
  rw (
      updated-read (leased_id i) (has_id i) (failed_once error permanent now) r t.rows
        (λ x h. ground arith) only (here i t r only leased)),
  refl,
  refl,
  ground arith,
)

-- `complete` and `fail` on a task whose one row is not leased, because the janitor took the lease
-- back or the task has been settled, return None and change nothing.
pub late_worker :
    (i : ℕ) (result : Json) (error : String) (permanent : Bool) (now : ℕ) (t : TaskTable)
    (r : QueuedTask)
    → select_where (has_id i) t.rows ≡ r ∷ []
    → is_leased r.status ≡ false
    → (complete i result t ≡ (none, t)) × (fail i error permanent now t ≡ (none, t))
unfolding complete fail
late_worker i result error permanent now t r only free =
    let c =
      updated-miss (leased_id i) (has_id i) (completed result) r t.rows (λ x h. ground arith) only
        (ground arith) in
    let f =
      updated-miss (leased_id i) (has_id i) (failed_once error permanent now) r t.rows
        (λ x h. ground arith) only (ground arith) in
    (rw (c, update_none _ _ t.rows c), rw (f, update_none _ _ t.rows f))

-- After the janitor's pass no lease has expired; a lease that had not expired is untouched, and a
-- task whose lease had is pending again with its attempts kept.
pub reclaim_expired_lem :
    (now : ℕ) (t : TaskTable)
    → All (λ r. expired now r ≡ false) (reclaim_expired now t).1.rows
      × ((key : String) (r : QueuedTask)
          → select_where (has_key key) t.rows ≡ r ∷ []
          → (r' : QueuedTask) × (select_where (has_key key) (reclaim_expired now t).1.rows
              ≡ r' ∷ [])
            × (r'.attempts ≡ r.attempts)
            × (((expired now r ≡ false) × (r' ≡ r))
                ⊎ ((expired now r ≡ true) × (r'.status ≡ pending) × (r'.lease_owner ≡ none))))
unfolding reclaim_expired
reclaim_expired_lem now t = (
  All-update_cases _ (expired now) reclaimed t.rows (λ x h. refl) (λ x h. h),
  λ key r only. elim (Bool-cases (expired now r)) [
    | inl e ↦ (
      reclaimed r,
      read-update (expired now) (has_key key) reclaimed r t.rows (λ x. refl) only e,
      refl,
      inr (e, refl, refl),
    )
    | inr e ↦ (
      r,
      rw (select-update_eq (expired now) (has_key key) reclaimed t.rows (λ x. refl), only)
          (unfold update_where in rw e),
      refl,
      inl (e, refl),
    )
  ],
)
