-- ===== src/Runs/Invariant.antt =====
-- What the two unique indexes of src/ticketflow/db.py say, kept by every transaction: a ticket has
-- one run, and a workflow one unconsumed signal of a kind.
use ticket_graph.Prelude.{
  ℕ, ◌≤◌, String, ◌≡◌, refl, ◌≢◌, inl, inr, Bool, true, false, Option, none, some, List, [], ◌∷◌,
  ◌++◌, arith, Distinct, length, Bool-cases, Option-cases, nat_eq, string_eq, ==_iff, ne_of_==,
}
use ticket_graph.Json.{Json}
use ticket_graph.Models.{TicketStatus}
use ticket_graph.Sql.{exists_where, update_where, delete_where, select_where}
use ticket_graph.Sql.Laws.{
  Distinct-update_where, Distinct-delete_where, Distinct-insert, All-of_exists_where, exists-select,
  select-insert,
}
use ticket_graph.Runs.{
  RunStore, WorkflowRun, PendingSignal, claim_run, next_run, is_run, claimed, reclaim_expired_runs,
  archive_terminal_runs, prune_consumed_signals, save_run, create_run, wake_run, released, lapsed,
  woken, saved, archivable, archive_conflict, fresh_run, stale, used, is_signal, consume,
}
use ticket_graph.Runs.Signals.{add_pending_signal_if_waiting, unconsumed, new_signal, waiting}
use ticket_graph.Runs.Calls.{
  RunCall, claims, reclaims, archives, prunes, saves, creates, wakes, submits, step, run,
}

abbrev pub UniqueRuns : List WorkflowRun → Type 0
UniqueRuns rows = Distinct (λ (r : WorkflowRun). r.ticket_id) rows

abbrev pub UniqueSignals : List PendingSignal → Type 0
UniqueSignals signals =
    (workflow_id kind : String) → length (select_where (unconsumed workflow_id kind) signals) ≤ 1

pub record IsConsistent (s : RunStore) : Type 0 where
  pub runs : UniqueRuns s.runs
  pub signals : UniqueSignals s.signals

module _ {ℓ} {A : Type ℓ} (q p : A → Bool) where
  length-select-update :
      (f : A → A) (xs : List A)
      → ((x : A) → q (f x) ≡ true → q x ≡ true)
      → length (select_where q (update_where p f xs)) ≤ length (select_where q xs)
  unfolding select_where update_where
  length-select-update f [] back = omega arith
  length-select-update f (x ∷ xs) back = ground (arith, length-select-update f xs back, back x)

  length-select-delete :
      (xs : List A) → length (select_where q (delete_where p xs)) ≤ length (select_where q xs)
  unfolding select_where delete_where
  length-select-delete [] = omega arith
  length-select-delete (x ∷ xs) = ground (arith, length-select-delete xs)

insert-UniqueSignals :
    (signals : List PendingSignal) (fresh : ℕ) (workflow_id kind : String) (payload : Json)
    (now : ℕ)
    → exists_where (unconsumed workflow_id kind) signals ≡ false
    → UniqueSignals signals
    → UniqueSignals (signals ++ new_signal fresh workflow_id kind payload now ∷ [])
insert-UniqueSignals signals fresh workflow_id kind payload now free u w k =
    rw (select-insert (unconsumed w k) signals (new_signal fresh workflow_id kind payload now))
      (elim (Bool-cases (unconsumed w k (new_signal fresh workflow_id kind payload now))) [
        | inl hit ↦ rw hit (rw (none_of hit) (omega arith))
        | inr miss ↦ rw miss (rw (append_nil (select_where (unconsumed w k) signals)) (u w k))
      ])
  where
    append_nil : (xs : List PendingSignal) → xs ++ [] ≡ xs
    append_nil [] = refl
    append_nil (x ∷ xs) = rw (append_nil xs)

    none_of :
        unconsumed w k (new_signal fresh workflow_id kind payload now) ≡ true
        → select_where (unconsumed w k) signals ≡ []
    none_of hit =
        let same_workflow : workflow_id ≡ w = ground (arith, ==_iff workflow_id w) in
        let same_kind : kind ≡ k = ground (arith, ==_iff kind k) in
        exists-select (unconsumed w k) signals (rw (← same_workflow, ← same_kind) free)

consume-UniqueSignals :
    (signal : Option ℕ) (now : ℕ) (signals : List PendingSignal)
    → UniqueSignals signals
    → UniqueSignals (consume signal now signals)
unfolding consume
consume-UniqueSignals none now signals u = u
consume-UniqueSignals (some i) now signals u = λ w k. omega (
  arith,
  length-select-update (unconsumed w k) (is_signal i) (used now) signals (λ g hit. ground arith),
  u w k,
)

update-UniqueRuns :
    (p : WorkflowRun → Bool) (f : WorkflowRun → WorkflowRun) (rows : List WorkflowRun)
    → ((r : WorkflowRun) → (f r).ticket_id ≡ r.ticket_id)
    → UniqueRuns rows
    → UniqueRuns (update_where p f rows)
update-UniqueRuns p f rows same u = Distinct-update_where (λ r. r.ticket_id) p f rows same u

claim-IsConsistent :
    (locked : String → Bool) (worker : String) (now : ℕ) (s : RunStore)
    → IsConsistent s
    → IsConsistent (claim_run locked worker now s).1
unfolding claim_run
claim-IsConsistent locked worker now s v = elim (Option-cases (next_run locked now s)) [
  | inl idle ↦ rw (idle, claim_run) v
  | inr (c, picked) ↦
      rw (picked, claim_run)
        record {
          runs =
              update-UniqueRuns (is_run c.ticket_id) (claimed worker now) s.runs (λ r. refl) v.runs;
          signals = v.signals;
        }
]

archive-IsConsistent :
    (age now : ℕ) (s : RunStore) → IsConsistent s → IsConsistent (archive_terminal_runs age now s).1
unfolding archive_terminal_runs
archive-IsConsistent age now s v =
    elim (Bool-cases
      (exists_where (archive_conflict s.archive) (select_where (archivable age now) s.runs))) [
        | inl conflict ↦ rw conflict v
        | inr fine ↦ rw fine record {
          runs = Distinct-delete_where (λ r. r.ticket_id) (archivable age now) s.runs v.runs;
          signals = v.signals;
        }
      ]

create-IsConsistent :
    (ticket_id : String) (status : TicketStatus) (wakeup_at : Option ℕ) (now : ℕ) (s : RunStore)
    → IsConsistent s
    → IsConsistent (create_run ticket_id status wakeup_at now s)
unfolding create_run
create-IsConsistent ticket_id status wakeup_at now s v =
    elim (Bool-cases (exists_where (is_run ticket_id) s.runs)) [
      | inl taken ↦ rw taken v
      | inr fresh ↦ rw fresh record {
        runs =
            Distinct-insert (λ r. r.ticket_id) s.runs (fresh_run ticket_id status wakeup_at now)
              (All-of_exists_where (λ r. r.ticket_id ≢ ticket_id) (is_run ticket_id) s.runs fresh
                (λ r miss. ne_of_== r.ticket_id ticket_id miss))
              v.runs;
        signals = v.signals;
      }
    ]

submit-IsConsistent :
    (workflow_id kind : String) (payload : Json) (status : TicketStatus) (now : ℕ) (s : RunStore)
    → IsConsistent s
    → IsConsistent (add_pending_signal_if_waiting workflow_id kind payload status now s).1
unfolding add_pending_signal_if_waiting
submit-IsConsistent workflow_id kind payload status now s v =
    elim (Bool-cases (exists_where (waiting workflow_id status) s.runs)) [
      | inr idle ↦ rw idle v
      | inl waits ↦ elim (Bool-cases (exists_where (unconsumed workflow_id kind) s.signals)) [
        | inl taken ↦ rw (waits, taken) record { runs = v.runs; signals = v.signals }
        | inr free ↦
            rw (waits, free)
              record {
                runs = update-UniqueRuns (is_run workflow_id) (woken now) s.runs (λ r. refl) v.runs;
                signals =
                    insert-UniqueSignals s.signals s.next_signal workflow_id kind payload now free
                      v.signals;
              }
      ]
    ]

step-IsConsistent : (s : RunStore) (c : RunCall) → IsConsistent s → IsConsistent (step s c)
unfolding step
step-IsConsistent s (claims locked worker now) v = claim-IsConsistent locked worker now s v
step-IsConsistent s (reclaims now) v =
    unfold reclaim_expired_runs in
    record {
      runs = update-UniqueRuns (lapsed now) (released now) s.runs (λ r. refl) v.runs;
      signals = v.signals;
    }
step-IsConsistent s (archives age now) v = archive-IsConsistent age now s v
step-IsConsistent s (prunes age now) v =
    unfold prune_consumed_signals in
    record {
      runs = v.runs;
      signals = λ w k.
          omega
            (arith, length-select-delete (unconsumed w k) (stale age now) s.signals, v.signals w k);
    }
step-IsConsistent s (saves ticket_id status wakeup_at signal now) v =
    unfold save_run in
    record {
      runs =
          update-UniqueRuns (is_run ticket_id) (saved status wakeup_at now) s.runs (λ r. refl)
            v.runs;
      signals = consume-UniqueSignals signal now s.signals v.signals;
    }
step-IsConsistent s (creates ticket_id status wakeup_at now) v =
    create-IsConsistent ticket_id status wakeup_at now s v
step-IsConsistent s (wakes ticket_id now) v =
    unfold wake_run in
    record {
      runs = update-UniqueRuns (is_run ticket_id) (woken now) s.runs (λ r. refl) v.runs;
      signals = v.signals;
    }
step-IsConsistent s (submits workflow_id kind payload status now) v =
    submit-IsConsistent workflow_id kind payload status now s v

-- Whatever the order in which runners, workers, the API and the janitor call on the run tables,
-- every ticket has at most one run and every workflow at most one unconsumed signal of each kind,
-- if that was so at first.
pub run-IsConsistent : (s : RunStore) (cs : List RunCall) → IsConsistent s → IsConsistent (run s cs)
unfolding run
run-IsConsistent s [] v = v
run-IsConsistent s (c ∷ cs) v = run-IsConsistent (step s c) cs (step-IsConsistent s c v)
