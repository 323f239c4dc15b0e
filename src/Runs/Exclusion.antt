-- ===== src/Runs/Exclusion.antt =====
-- A claimed run is not claimed again while its lease runs.
use ticket_graph.Prelude.{
  ℕ, ◌+◌, String, ◌≡◌, refl, ap, ◌≢◌, inl, inr, Bool, true, false, Option, some, List, [], ◌∷◌,
  arith, All, All-append, All-impl, Bool-cases, Option-cases, nat_eq, string_eq, ==_iff, ne_of_==,
}
use ticket_graph.Clock.{lease_time}
use ticket_graph.Sql.{exists_where, updated, select_where}
use ticket_graph.Sql.Laws.{All-update_cases, All-delete_where}
use ticket_graph.Sql.Pick.{exists-insert_old}
use ticket_graph.Runs.{
  RunStore, WorkflowRun, claim_run, next_run, is_run, claimed, reclaim_expired_runs,
  archive_terminal_runs, prune_consumed_signals, save_run, create_run, wake_run, released, lapsed,
  woken, saved, archivable, archive_conflict, fresh_run, fetchone, TicketStatus,
}
use ticket_graph.Runs.Signals.{add_pending_signal_if_waiting}
use ticket_graph.Runs.Calls.{
  RunCall, claims, reclaims, archives, prunes, saves, creates, wakes, submits, step, leases,
  leased_by,
}
use ticket_graph.Runs.Claims.{
  Held, IsLeased, Spares, update-Held, claim-Held, claim_other, exists-delete,
}
use ticket_graph.Sql.Rows.{exists-updated, All-updated}

module _ (i : String) (e : ℕ) where
  archive-Held :
      (age now : ℕ) (s : RunStore)
      → Spares i e (archives age now)
      → Held i e s
      → Held i e (archive_terminal_runs age now s).1
  unfolding archive_terminal_runs
  archive-Held age now s ((_, le), old) h =
      elim (Bool-cases
        (exists_where (archive_conflict s.archive) (select_where (archivable age now) s.runs))) [
          | inl conflict ↦ rw conflict h
          | inr fine ↦ rw fine (
            exists-delete i e (archivable age now) s.runs h.0 (
                All-impl (IsLeased i e) (λ r. is_run i r ≡ true → archivable age now r ≡ false)
                  s.runs (λ r lease hit. ground (arith, lease hit)) h.1),
            All-delete_where (IsLeased i e) (archivable age now) s.runs h.1,
          )
        ]

  create-Held :
      (ticket_id : String) (status : TicketStatus) (wakeup_at : Option ℕ) (now : ℕ) (s : RunStore)
      → Held i e s
      → Held i e (create_run ticket_id status wakeup_at now s)
  unfolding create_run
  create-Held ticket_id status wakeup_at now s h =
      elim (Bool-cases (exists_where (is_run ticket_id) s.runs)) [
        | inl taken ↦ rw taken h
        | inr fresh ↦
            let other : ticket_id ≢ i =
              λ same. cc (h.0, fresh, ap (λ k. exists_where (is_run k) s.runs) same) in
            rw fresh (
              exists-insert_old (is_run i) (fresh_run ticket_id status wakeup_at now) s.runs h.0,
              All-append (IsLeased i e) s.runs _ h.1
                  (λ hit. absurd (other ((==_iff ticket_id i).0 hit)), tt),
            )
      ]

  step-Held : (s : RunStore) (c : RunCall) → Spares i e c → Held i e s → Held i e (step s c)
  unfolding step
  step-Held s (claims locked worker now) k h = claim-Held i e locked worker now s k.1 h
  step-Held s (reclaims now) k h =
      unfold reclaim_expired_runs in
      update-Held i e (lapsed now) (released now) s (λ r. refl)
        (λ r hit lease mine. absurd (ground (arith, lease mine))) h
  step-Held s (archives age now) k h = archive-Held age now s k h
  step-Held s (prunes age now) k h = unfold prune_consumed_signals in h
  step-Held s (saves ticket_id status wakeup_at signal now) k h =
      unfold save_run in
      update-Held i e (is_run ticket_id) (saved status wakeup_at now) s (λ r. refl)
        (λ r hit lease mine. absurd (
          ground
            (arith, ==_iff r.ticket_id ticket_id, ==_iff r.ticket_id i, ne_of_== i ticket_id k.1)))
        h
  step-Held s (creates ticket_id status wakeup_at now) k h =
      create-Held ticket_id status wakeup_at now s h
  step-Held s (wakes ticket_id now) k h =
      unfold wake_run in
      update-Held i e (is_run ticket_id) (woken now) s (λ r. refl)
        (λ r hit lease mine. ((lease mine).0, k.0)) h
  step-Held s (submits workflow_id kind payload status now) k h = submit-Held
    where
      submit-Held : Held i e (add_pending_signal_if_waiting workflow_id kind payload status now s).1
      submit-Held =
          unfold add_pending_signal_if_waiting in
          ground (
            arith,
            update-Held i e (is_run workflow_id) (woken now) s (λ r. refl)
                (λ r hit lease mine. ((lease mine).0, k.0)) h,
          )

  leased_by-other :
      (s : RunStore) (cs : List RunCall)
      → Held i e s
      → All (Spares i e) cs
      → All (λ j. j ≢ i) (leased_by s cs)
  unfolding leased_by
  leased_by-other s [] h k = tt
  leased_by-other s (c ∷ cs) h k =
      let rest = leased_by-other (step s c) cs (step-Held s c k.0 h) k.1 in
      elim (Option-cases (leases s c)) [
        | inl nothing ↦ rw nothing rest
        | inr (r, got) ↦ rw got (lease_other c k.0 r got, rest)
      ]
    where
      lease_other :
          (c : RunCall) → Spares i e c → (r : WorkflowRun) → leases s c ≡ some r → r.ticket_id ≢ i
      lease_other (claims locked worker now) k r got =
          ne_of_== r.ticket_id i (claim_other i e locked worker now s r k.1 h got)
      lease_other (reclaims now) k r got = absurd cc
      lease_other (archives age now) k r got = absurd cc
      lease_other (prunes age now) k r got = absurd cc
      lease_other (saves ticket_id status wakeup_at signal now) k r got = absurd cc
      lease_other (creates ticket_id status wakeup_at now) k r got = absurd cc
      lease_other (wakes ticket_id now) k r got = absurd cc
      lease_other (submits workflow_id kind payload status now) k r got = absurd cc

-- A claim leaves its run leased for 30 seconds.
claim_run-Held :
    (locked : String → Bool) (worker : String) (now : ℕ) (s : RunStore) (r : WorkflowRun)
    → (claim_run locked worker now s).0 ≡ some r
    → Held r.ticket_id (now + lease_time) (claim_run locked worker now s).1
unfolding claim_run
claim_run-Held locked worker now s r got = elim (Option-cases (next_run locked now s)) [
  | inl none_due ↦ absurd (cc (rw (none_due, claim_run) at got))
  | inr (c, picked) ↦
      let got' : fetchone (updated (is_run c.ticket_id) (claimed worker now) s.runs) ≡ some r =
        rw (picked, claim_run) at got in
      let same =
        fetched (updated (is_run c.ticket_id) (claimed worker now) s.runs) r
          (All-updated (is_run c.ticket_id) (claimed worker now) (λ x. x.ticket_id ≡ c.ticket_id)
            s.runs (λ x hit. (==_iff x.ticket_id c.ticket_id).0 hit))
          got' in
      rw (picked, claim_run)
        (
          exists-updated (is_run c.ticket_id) (claimed worker now) (is_run r.ticket_id) s.runs
              (λ x hit. rw same hit) got',
          All-update_cases (IsLeased r.ticket_id (now + lease_time)) (is_run c.ticket_id)
              (claimed worker now) s.runs (λ x hit mine. (refl, omega arith))
              (λ x miss mine. absurd (cc (miss, mine, same))),
        )
]
  where
    fetched :
        {j : String} (xs : List WorkflowRun) (r : WorkflowRun)
        → All (λ x. x.ticket_id ≡ j) xs
        → fetchone xs ≡ some r
        → r.ticket_id ≡ j
    fetched [] r a e = cc
    fetched (x ∷ xs) r a e = ground (arith, a.0)

-- Once a runner has claimed a run, no other runner is given that run by any claims of the next 30
-- seconds, whatever runs are reclaimed, woken, created, saved, signalled or archived in between,
-- provided that the run itself is not saved (which releases it) and that retention leaves runs
-- younger than 30 seconds.
pub claim_exclusive :
    (locked : String → Bool) (worker : String) (now : ℕ) (s : RunStore) (r : WorkflowRun)
    (cs : List RunCall)
    → (claim_run locked worker now s).0 ≡ some r
    → All (Spares r.ticket_id (now + lease_time)) cs
    → All (λ j. j ≢ r.ticket_id) (leased_by (claim_run locked worker now s).1 cs)
claim_exclusive locked worker now s r cs got k =
    leased_by-other r.ticket_id (now + lease_time) (claim_run locked worker now s).1 cs
      (claim_run-Held locked worker now s r got) k
