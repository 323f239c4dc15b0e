-- ===== src/Runs/Traces.antt =====
-- What the processes do to the runs as a list of calls of Runs/Calls, and that no ticket's run is
-- lost by it.
use ticket_graph.Prelude.{
  ℕ, String, ◌≡◌, refl, ◌∙◌, inl, inr, Bool, true, Option, List, [], ◌∷◌, ◌++◌, arith, Bool-cases,
  Option-cases, nat_eq, string_eq, Trace, Trace-trans,
}
use ticket_graph.Models.{TicketStatus}
use ticket_graph.Sql.{exists_where, update_where}
use ticket_graph.Sql.Rows.{exists-update, exists-append}
use ticket_graph.Runs.{
  RunStore, WorkflowRun, is_run, claim_run, reclaim_expired_runs, prune_consumed_signals, save_run,
  create_run, wake_run, next_run, claimed, released, lapsed, saved, woken, fresh_run, Json,
}
use ticket_graph.Runs.Signals.{waiting, unconsumed, add_pending_signal_if_waiting}
use ticket_graph.Runs.Calls.{
  RunCall, run, step, claims, reclaims, archives, prunes, saves, creates, wakes, submits,
}
use ticket_graph.Runs.Archive.{has_run, archive-has_run}

-- any call
abbrev pub AnyCall : RunCall → Type 0
AnyCall c = Unit

-- a call that is not one of retention
abbrev pub IsLasting : RunCall → Type 0
IsLasting (archives _ _) = ⊥
IsLasting (prunes _ _) = ⊥
IsLasting _ = Unit

abbrev pub RunTrace : (RunCall → Type 0) → RunStore → RunStore → Type 0
RunTrace P s s' = Trace run P s s'

run-append : (s : RunStore) (cs ds : List RunCall) → run s (cs ++ ds) ≡ run (run s cs) ds
unfolding run
run-append s [] ds = refl
run-append s (c ∷ cs) ds = run-append (step s c) cs ds

module _ {P : RunCall → Type 0} where
  pub runs_none : (s : RunStore) → RunTrace P s s
  runs_none s = record { calls = []; within = tt; ends = unfold run in refl }

  pub runs_one : (s : RunStore) (c : RunCall) → P c → RunTrace P s (step s c)
  runs_one s c p = record { calls = c ∷ []; within = (p, tt); ends = unfold run in refl }

  pub runs_then : {s t u : RunStore} → RunTrace P s t → RunTrace P t u → RunTrace P s u
  runs_then a b = Trace-trans run-append a b

module _ (k : String) where
  -- What an update of the runs keeps.
  updated-has_run :
      (p : WorkflowRun → Bool) (f : WorkflowRun → WorkflowRun) (s : RunStore)
      → ((r : WorkflowRun) → is_run k (f r) ≡ is_run k r)
      → has_run k (record s { runs = update_where p f s.runs }) ≡ has_run k s
  updated-has_run p f s same = rw (exists-update p f (is_run k) s.runs same)

  claim-has_run :
      (locked : String → Bool) (worker : String) (now : ℕ) (s : RunStore)
      → has_run k (claim_run locked worker now s).1 ≡ has_run k s
  unfolding claim_run
  claim-has_run locked worker now s = elim (Option-cases (next_run locked now s)) [
    | inl idle ↦ rw (idle, claim_run) refl
    | inr (c, picked) ↦
        rw (picked, claim_run)
          (updated-has_run (is_run c.ticket_id) (claimed worker now) s (λ r. refl))
  ]

  submit-has_run :
      (workflow_id kind : String) (payload : Json) (status : TicketStatus) (now : ℕ) (s : RunStore)
      → has_run k s ≡ true
      → has_run k (add_pending_signal_if_waiting workflow_id kind payload status now s).1 ≡ true
  unfolding add_pending_signal_if_waiting
  submit-has_run workflow_id kind payload status now s h =
      elim (Bool-cases (exists_where (waiting workflow_id status) s.runs)) [
        | inr idle ↦ rw idle h
        | inl waits ↦ elim (Bool-cases (exists_where (unconsumed workflow_id kind) s.signals)) [
          | inl taken ↦ rw (waits, taken) h
          | inr free ↦
              rw (waits, free) (updated-has_run (is_run workflow_id) (woken now) s (λ r. refl) ∙ h)
        ]
      ]

  create-has_run :
      (ticket_id : String) (status : TicketStatus) (wakeup_at : Option ℕ) (now : ℕ) (s : RunStore)
      → has_run k s ≡ true
      → has_run k (create_run ticket_id status wakeup_at now s) ≡ true
  unfolding create_run
  create-has_run ticket_id status wakeup_at now s h =
      ground
        (arith, h, exists-append (is_run k) s.runs (fresh_run ticket_id status wakeup_at now ∷ []))

  step-has_run : (s : RunStore) (c : RunCall) → has_run k s ≡ true → has_run k (step s c) ≡ true
  unfolding step
  step-has_run s (claims locked worker now) h = claim-has_run locked worker now s ∙ h
  step-has_run s (reclaims now) h =
      unfold reclaim_expired_runs in updated-has_run (lapsed now) (released now) s (λ r. refl) ∙ h
  step-has_run s (archives age now) h = (archive-has_run age now s k).0 ∙ h
  step-has_run s (prunes age now) h = unfold prune_consumed_signals in h
  step-has_run s (saves ticket_id status wakeup_at signal now) h =
      unfold save_run in
      updated-has_run (is_run ticket_id) (saved status wakeup_at now) s (λ r. refl) ∙ h
  step-has_run s (creates ticket_id status wakeup_at now) h =
      create-has_run ticket_id status wakeup_at now s h
  step-has_run s (wakes ticket_id now) h =
      unfold wake_run in updated-has_run (is_run ticket_id) (woken now) s (λ r. refl) ∙ h
  step-has_run s (submits workflow_id kind payload status now) h =
      submit-has_run workflow_id kind payload status now s h

  pub run-has_run :
      (s : RunStore) (cs : List RunCall) → has_run k s ≡ true → has_run k (run s cs) ≡ true
  unfolding run
  run-has_run s [] h = h
  run-has_run s (c ∷ cs) h = run-has_run (step s c) cs (step-has_run s c h)
