-- ===== src/Api/Read.antt =====
-- What the API answers of a ticket that retention has archived, and how it lists tickets.
use ticket_graph.Prelude.{
  ℕ, String, ◌≡◌, refl, sym, ap, inl, inr, Bool, true, false, ◌&&◌, List, [], ◌∷◌, arith,
  Bool-cases, ◌==◌, nat_eq, string_eq, ==_iff, ==_refl, map,
}
use ticket_graph.Result.{ok}
use ticket_graph.Models.{TicketResult}
use ticket_graph.Models.Codec.{Pydantic}
use ticket_graph.Ledger.{Ledger, save_result}
use ticket_graph.Ledger.Results.{load_result-save_result}
use ticket_graph.Sql.{select_where, exists_where, delete_where}
use ticket_graph.Sql.Laws.{exists-select}
use ticket_graph.Runs.{WorkflowRun, is_run, archivable, archive_terminal_runs, archive_conflict}
use ticket_graph.Runner.{Checkpoint, System}
use ticket_graph.Runner.Step.{get_state, is_thread, delete_threads, run_retention, RetentionResult}
use ticket_graph.Api.{body, get_ticket, info_of_result}

module _ (k : String) where
  abbrev is_name : String → Bool
  is_name v = v == k

  exists-delete_self :
      (cs : List Checkpoint) → exists_where (is_thread k) (delete_where (is_thread k) cs) ≡ false
  unfolding exists_where delete_where
  exists-delete_self [] = refl
  exists-delete_self (c ∷ cs) = ground (arith, exists-delete_self cs)

  exists-delete_none :
      (p : Checkpoint → Bool) (cs : List Checkpoint)
      → exists_where (is_thread k) cs ≡ false
      → exists_where (is_thread k) (delete_where p cs) ≡ false
  unfolding exists_where delete_where
  exists-delete_none p [] h = refl
  exists-delete_none p (c ∷ cs) h = ground (arith, exists-delete_none p cs)

  exists-delete_threads :
      (ids : List String) (cs : List Checkpoint)
      → exists_where (is_thread k) cs ≡ false
      → exists_where (is_thread k) (delete_threads ids cs) ≡ false
  unfolding delete_threads
  exists-delete_threads [] cs h = h
  exists-delete_threads (i ∷ ids) cs h =
      exists-delete_threads ids (delete_where (is_thread i) cs)
        (exists-delete_none (is_thread i) cs h)

  -- The threads of the given ids are gone.
  deleted-delete_threads :
      (ids : List String) (cs : List Checkpoint)
      → exists_where is_name ids ≡ true
      → exists_where (is_thread k) (delete_threads ids cs) ≡ false
  unfolding delete_threads exists_where
  deleted-delete_threads [] cs h = absurd cc
  deleted-delete_threads (i ∷ ids) cs h = elim (Bool-cases (i == k)) [
    | inl same ↦
        exists-delete_threads ids (delete_where (is_thread i) cs)
          (rw ((==_iff i k).0 same) (exists-delete_self cs))
    | inr other ↦ deleted-delete_threads ids (delete_where (is_thread i) cs) (rw other at h)
  ]

  names :
      (p : WorkflowRun → Bool) (rows : List WorkflowRun)
      → exists_where (λ r. is_run k r && p r) rows ≡ true
      → exists_where is_name (map (λ r. r.ticket_id) (select_where p rows)) ≡ true
  unfolding exists_where select_where
  names p [] h = absurd cc
  names p (r ∷ rows) h = ground (arith, names p rows)

-- What a retention pass that succeeds has done to the threads.
checkpoints-run_retention :
    (age now : ℕ) (sys sys' : System) (counts : RetentionResult)
    → run_retention age now sys ≡ (ok counts, sys')
    → sys'.checkpoints
      ≡ delete_threads
          (map (λ r. r.ticket_id) (select_where (archivable age now) sys.store.runs))
          sys.checkpoints
unfolding run_retention archive_terminal_runs
checkpoints-run_retention age now sys sys' counts e =
    elim (Bool-cases (
      exists_where (archive_conflict sys.store.archive)
        (select_where (archivable age now) sys.store.runs))) [
          | inl conflict ↦
              absurd (cc (ap (λ p. p.0) (rw (conflict, run_retention, archive_terminal_runs) at e)))
          | inr fine ↦
              sym (ap (λ p. p.1.checkpoints) (rw (fine, run_retention, archive_terminal_runs) at e))
        ]

-- A ticket whose run a retention pass archives is answered from the read model afterwards: with the
-- result that was saved for it last.
pub get_ticket-run_retention :
    (m : Pydantic) (age now : ℕ) (sys sys' : System) (counts : RetentionResult) (l : Ledger)
    (r : TicketResult)
    → run_retention age now sys ≡ (ok counts, sys')
    → exists_where (λ x. is_run r.ticket_id x && archivable age now x) sys.store.runs ≡ true
    → get_ticket m r.ticket_id sys' (save_result m r l) ≡ body (info_of_result r.ticket_id r)
unfolding get_ticket get_state
get_ticket-run_retention m age now sys sys' counts l r e archived =
    let gone : exists_where (is_thread r.ticket_id) sys'.checkpoints ≡ false =
      rw (checkpoints-run_retention age now sys sys' counts e) (
        deleted-delete_threads r.ticket_id
          (map (λ x. x.ticket_id) (select_where (archivable age now) sys.store.runs))
          sys.checkpoints (names r.ticket_id (archivable age now) sys.store.runs archived)) in
    rw (exists-select (is_thread r.ticket_id) sys'.checkpoints gone, get_ticket)
      (rw (load_result-save_result m r l r.ticket_id, ==_refl r.ticket_id))
