-- ===== src/Runner/Reconcile.antt =====
-- The orphan reconciler of src/ticketflow/runner.py leaves no orphan but threads without values.
use mathlib.Core.Path.{subst}
use ticket_graph.Prelude.{
  ℕ, String, ◌≡◌, refl, sym, ◌⊎◌, inl, inr, Bool, true, false, Option, some, List, [], ◌∷◌, All,
  Bool-cases, is_some, some_of, nat_eq, string_eq, ==_refl,
}
use ticket_graph.Result.{is_ok, Result, ok, err}
use ticket_graph.Sql.{delete_where, exists_where}
use ticket_graph.Sql.Laws.{All-delete_where}
use ticket_graph.Sql.Pick.{exists-insert, exists-insert_old, All-exists_self}
use ticket_graph.Models.{TicketStatus}
use ticket_graph.Runs.{RunStore, is_run, create_run, fresh_run, list_orphaned_checkpoint_threads}
use ticket_graph.Runner.{Checkpoint, System}
use ticket_graph.Runner.Step.{
  get_state, is_thread, reconcile_threads, reconcile_orphaned_runs, thread_ids, counted,
}
use ticket_graph.Sql.Rows.{fetched, All-of_delete_where}

abbrev Known : String → RunStore → Type 0
Known k s = exists_where (is_run k) s.runs ≡ true

create-Known :
    (ticket_id : String) (status : TicketStatus) (wakeup_at : Option ℕ) (now : ℕ) (s : RunStore)
    → Known ticket_id (create_run ticket_id status wakeup_at now s)
unfolding create_run
create-Known ticket_id status wakeup_at now s =
    elim (Bool-cases (exists_where (is_run ticket_id) s.runs)) [
      | inl taken ↦ rw taken taken
      | inr fresh ↦ rw fresh (
          exists-insert (is_run ticket_id) (fresh_run ticket_id status wakeup_at now) s.runs
            (==_refl ticket_id))
    ]

create-Known_old :
    (k ticket_id : String) (status : TicketStatus) (wakeup_at : Option ℕ) (now : ℕ) (s : RunStore)
    → Known k s
    → Known k (create_run ticket_id status wakeup_at now s)
unfolding create_run
create-Known_old k ticket_id status wakeup_at now s h =
    elim (Bool-cases (exists_where (is_run ticket_id) s.runs)) [
      | inl taken ↦ rw taken h
      | inr fresh ↦
          rw fresh
            (exists-insert_old (is_run k) (fresh_run ticket_id status wakeup_at now) s.runs h)
    ]

-- A thread whose checkpoint has no values.
abbrev pub IsEmpty : System → String → Type 0
IsEmpty sys k = (c : Checkpoint) × (get_state k sys ≡ some c) × (c.materialized ≡ false)

-- One whose checkpoint has values, with a status.
abbrev pub HasStatus : System → String → Type 0
HasStatus sys k =
    (c : Checkpoint) × (status : TicketStatus) × (get_state k sys ≡ some c)
    × (c.materialized ≡ true)
    × (c.values.status ≡ some status)

abbrev Readable : System → String → Type 0
Readable sys k = IsEmpty sys k ⊎ HasStatus sys k

All-left_over {ℓ} :
    {A : Type ℓ} (p : A → Bool) (Q : A → Type 0) (xs : List A)
    → All (λ x. Q x ⊎ (p x ≡ true)) xs
    → All Q (delete_where p xs)
unfolding delete_where
All-left_over p Q [] a = tt
All-left_over p Q (x ∷ xs) (first, a) = elim (Bool-cases (p x)) [
  | inl gone ↦ rw gone (All-left_over p Q xs a)
  | inr kept ↦
      rw kept (elim first [ inl q ↦ q | inr h ↦ absurd (cc (h, kept)) ], All-left_over p Q xs a)
]

module _ (sys : System) (now : ℕ) where
  -- A thread with a status is projected, and the loop goes on.
  pub reconcile-next :
      (i : String) (ids : List String) (s : RunStore) (c : Checkpoint) (status : TicketStatus)
      → get_state i sys ≡ some c
      → c.materialized ≡ true
      → c.values.status ≡ some status
      → let rest = reconcile_threads sys now ids (create_run i status c.values.wakeup_at now s) in
        reconcile_threads sys now (i ∷ ids) s ≡ (counted rest.0, rest.1)
  unfolding reconcile_threads
  reconcile-next i ids s c status found there has = rw (found, there, has, reconcile_threads)

  -- One without values is skipped.
  reconcile-skip :
      (i : String) (ids : List String) (s : RunStore)
      → IsEmpty sys i
      → reconcile_threads sys now (i ∷ ids) s ≡ reconcile_threads sys now ids s
  unfolding reconcile_threads
  reconcile-skip i ids s (c, found, empty) = rw (found, empty, reconcile_threads)

  reconcile-Known :
      (k : String) (ids : List String) (s : RunStore)
      → All (Readable sys) ids
      → Known k s
      → Known k (reconcile_threads sys now ids s).1
  reconcile-Known k [] s a h = unfold reconcile_threads in h
  reconcile-Known k (i ∷ ids) s (inl empty, a) h =
      rw (reconcile-skip i ids s empty) (reconcile-Known k ids s a h)
  reconcile-Known k (i ∷ ids) s (inr (c, status, found, there, has), a) h =
      rw (reconcile-next i ids s c status found there has) (
        reconcile-Known k ids (create_run i status c.values.wakeup_at now s) a
          (create-Known_old k i status c.values.wakeup_at now s h))

  reconcile-All :
      (ids : List String) (s : RunStore)
      → All (Readable sys) ids
      → (is_ok (reconcile_threads sys now ids s).0 ≡ true)
        × All (λ k. IsEmpty sys k ⊎ Known k (reconcile_threads sys now ids s).1) ids
  reconcile-All [] s a = unfold reconcile_threads in (refl, tt)
  reconcile-All (i ∷ ids) s (inl empty, a) =
      let (fine, known) = reconcile-All ids s a in
      let next = reconcile-skip i ids s empty in
      (
        rw next fine,
        (inl empty, subst (λ o. All (λ k. IsEmpty sys k ⊎ Known k o.1) ids) (sym next) known),
      )
  reconcile-All (i ∷ ids) s (inr (c, status, found, there, has), a) =
      let s' = create_run i status c.values.wakeup_at now s in
      let (fine, known) = reconcile-All ids s' a in
      let next = reconcile-next i ids s c status found there has in
      (
        rw next (counted_ok (reconcile_threads sys now ids s').0 fine),
        (
          inr (
              rw next
                (reconcile-Known i ids s' a (create-Known i status c.values.wakeup_at now s))),
          subst (λ o. All (λ k. IsEmpty sys k ⊎ Known k o.1) ids) (sym next) known,
        ),
      )
    where
      counted_ok : (n : Result ℕ) → is_ok n ≡ true → is_ok (counted n) ≡ true
      counted_ok (ok n) h = refl
      counted_ok (err e) h = h

-- What every checkpoint with values of the program has, since `api.create_ticket` starts a thread
-- with a status and every node keeps or replaces it.
abbrev pub AllHaveStatus : List Checkpoint → Type 0
AllHaveStatus cs = All (λ c. c.materialized ≡ true → is_some c.values.status ≡ true) cs

threads-Readable :
    (sys : System) → AllHaveStatus sys.checkpoints → All (Readable sys) (thread_ids sys.checkpoints)
unfolding get_state
threads-Readable sys h =
    each sys.checkpoints
      (All-exists_self (λ c x. is_thread c.thread_id x) sys.checkpoints (λ c. ==_refl c.thread_id))
  where
    read :
        (k : String) (x : Checkpoint)
        → get_state k sys ≡ some x
        → (x.materialized ≡ true → is_some x.values.status ≡ true)
        → Readable sys k
    read k x found has = elim (Bool-cases x.materialized) [
      | inr empty ↦ inl (x, found, empty)
      | inl there ↦
          let (status, same) = some_of x.values.status (has there) in
          inr (x, status, found, there, same)
    ]

    each :
        (cs : List Checkpoint)
        → All (λ c. exists_where (is_thread c.thread_id) sys.checkpoints ≡ true) cs
        → All (Readable sys) (thread_ids cs)
    each [] a = tt
    each (c ∷ cs) a =
        let (x, found, has) =
          fetched (is_thread c.thread_id)
            (λ x. x.materialized ≡ true → is_some x.values.status ≡ true) sys.checkpoints a.0 h in
        (read c.thread_id x found has, each cs a.1)

-- Where every checkpoint that has values has a status among them, the reconciler succeeds, whatever
-- runs there are, and the only checkpoints that it leaves without a run are those without values.
pub reconcile_complete :
    (now : ℕ) (sys : System)
    → AllHaveStatus sys.checkpoints
    → let after = reconcile_orphaned_runs now sys in
      (is_ok after.0 ≡ true)
      × All
          (IsEmpty sys)
          (list_orphaned_checkpoint_threads (thread_ids after.1.checkpoints) after.1.store)
unfolding reconcile_orphaned_runs list_orphaned_checkpoint_threads
reconcile_complete now sys h =
    let ids = thread_ids sys.checkpoints in
    let has_run : String → Bool = λ k. exists_where (is_run k) sys.store.runs in
    let orphans : List String = delete_where has_run ids in
    let readable : All (Readable sys) orphans =
      All-delete_where (Readable sys) has_run ids (threads-Readable sys h) in
    let (fine, known) = reconcile-All sys now orphans sys.store readable in
    let after = (reconcile_threads sys now orphans sys.store).1 in
    (
      fine,
      All-left_over (λ k. exists_where (is_run k) after.runs) (IsEmpty sys) ids
          (All-of_delete_where has_run (λ k. IsEmpty sys k ⊎ Known k after) ids
            (λ k old. inr (reconcile-Known sys now k orphans sys.store readable old)) known),
    )
