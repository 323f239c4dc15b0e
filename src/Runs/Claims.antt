-- ===== src/Runs/Claims.antt =====
-- The lease of a run: for 30 seconds no other runner claims the run that one has claimed.
use ticket_graph.Prelude.{
  ℕ, ◌+◌, ◌≤◌, String, ◌≡◌, refl, ◌∙◌, inl, inr, Bool, true, false, some, List, [], ◌∷◌, arith, All,
  Bool-cases, Option-cases, ◌==◌, nat_eq, string_eq, ==_iff,
}
use ticket_graph.Clock.{lease_time}
use ticket_graph.Sql.{select_where, update_where, updated, exists_where, fetchone, delete_where}
use ticket_graph.Sql.Laws.{All-update_where, All-select_where}
use ticket_graph.Sql.Pick.{All-first_by}
use ticket_graph.Runs.{RunStore, WorkflowRun, claim_run, next_run, is_run, claimed, claimable}
use ticket_graph.Runs.Calls.{
  RunCall, claims, reclaims, archives, prunes, saves, creates, wakes, submits,
}
use ticket_graph.Sql.Rows.{All-updated, exists-update}

-- Run `i` is leased until `e`.
abbrev pub IsLeased : String → ℕ → WorkflowRun → Type 0
IsLeased i e r = is_run i r ≡ true → (r.lease_expires_at ≡ some e) × (e ≤ r.updated_at + lease_time)

abbrev pub Held : String → ℕ → RunStore → Type 0
Held i e s = (exists_where (is_run i) s.runs ≡ true) × All (IsLeased i e) s.runs

abbrev IsWithin : ℕ → ℕ → Type 0
IsWithin e t = (e ≤ t + lease_time) × (t ≤ e)

-- A call while the lease that ends at `e` runs, which does not save run `i`, and does not archive
-- runs younger than a lease.
abbrev pub Spares : String → ℕ → RunCall → Type 0
Spares i e (claims locked worker now) = IsWithin e now
Spares i e (reclaims now) = IsWithin e now
Spares i e (archives age now) = IsWithin e now × (lease_time ≤ age)
Spares i e (prunes age now) = IsWithin e now
Spares i e (saves ticket_id status wakeup_at signal now) =
    IsWithin e now × ((i == ticket_id) ≡ false)
Spares i e (creates ticket_id status wakeup_at now) = IsWithin e now
Spares i e (wakes ticket_id now) = IsWithin e now
Spares i e (submits workflow_id kind payload status now) = IsWithin e now

module _ (i : String) (e : ℕ) where
  pub update-Held :
      (p : WorkflowRun → Bool) (f : WorkflowRun → WorkflowRun) (s : RunStore)
      → ((r : WorkflowRun) → (f r).ticket_id ≡ r.ticket_id)
      → ((r : WorkflowRun) → p r ≡ true → IsLeased i e r → IsLeased i e (f r))
      → Held i e s
      → Held i e (record s { runs = update_where p f s.runs })
  update-Held p f s same keep h = (
    exists-update p f (is_run i) s.runs (λ r. rw (same r)) ∙ h.0,
    All-update_where (IsLeased i e) p f s.runs keep h.1,
  )

  pub exists-delete :
      (p : WorkflowRun → Bool) (rows : List WorkflowRun)
      → exists_where (is_run i) rows ≡ true
      → All (λ r. is_run i r ≡ true → p r ≡ false) rows
      → exists_where (is_run i) (delete_where p rows) ≡ true
  unfolding exists_where delete_where
  exists-delete p [] h k = h
  exists-delete p (r ∷ rows) h k =
      ground
        (arith, k.0, λ (rest : exists_where (is_run i) rows ≡ true). exists-delete p rows rest k.1)

  -- the run that `claim_run` picks is another one
  picked_other :
      (locked : String → Bool) (now : ℕ) (s : RunStore) (c : WorkflowRun)
      → now ≤ e
      → Held i e s
      → next_run locked now s ≡ some c
      → is_run i c ≡ false
  unfolding next_run
  picked_other locked now s c le h picked =
      let (test, lease) =
        All-first_by (λ r. r.created_at) (λ r. (claimable locked now r ≡ true) × IsLeased i e r)
          (select_where (claimable locked now) s.runs) c
          (All-select_where (IsLeased i e) (claimable locked now) s.runs h.1) picked in
      elim (Bool-cases (is_run i c)) [
        | inl hit ↦ absurd (ground (arith, lease hit))
        | inr miss ↦ miss
      ]

  pub claim-Held :
      (locked : String → Bool) (worker : String) (now : ℕ) (s : RunStore)
      → now ≤ e
      → Held i e s
      → Held i e (claim_run locked worker now s).1
  unfolding claim_run
  claim-Held locked worker now s le h = elim (Option-cases (next_run locked now s)) [
    | inl none_due ↦ rw (none_due, claim_run) h
    | inr (c, picked) ↦
        let other = picked_other locked now s c le h picked in
        rw (picked, claim_run)
          (update-Held (is_run c.ticket_id) (claimed worker now) s (λ r. refl)
            (λ r hit _ mine. absurd (ground (arith, ==_iff r.ticket_id c.ticket_id, other))) h)
  ]

  -- what a claim gets is another run
  pub claim_other :
      (locked : String → Bool) (worker : String) (now : ℕ) (s : RunStore) (r : WorkflowRun)
      → now ≤ e
      → Held i e s
      → (claim_run locked worker now s).0 ≡ some r
      → is_run i r ≡ false
  unfolding claim_run
  claim_other locked worker now s r le h got = elim (Option-cases (next_run locked now s)) [
    | inl none_due ↦ absurd (cc (rw (none_due, claim_run) at got))
    | inr (c, picked) ↦
        let other = picked_other locked now s c le h picked in
        let all =
          All-updated (is_run c.ticket_id) (claimed worker now) (λ x. is_run i x ≡ false) s.runs
            (λ x hit. ground (arith, ==_iff x.ticket_id c.ticket_id, other)) in
        fetched (updated (is_run c.ticket_id) (claimed worker now) s.runs) r all
          (rw (picked, claim_run) at got)
  ]
    where
      fetched :
          (xs : List WorkflowRun) (r : WorkflowRun)
          → All (λ x. is_run i x ≡ false) xs
          → fetchone xs ≡ some r
          → is_run i r ≡ false
      fetched [] r a e = cc
      fetched (x ∷ xs) r a e = ground (arith, a.0)
