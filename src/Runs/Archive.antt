-- ===== src/Runs/Archive.antt =====
-- Retention of src/ticketflow/db.py moves runs, and loses none.
use ticket_graph.Prelude.{
  ℕ, String, ◌≡◌, refl, inl, inr, Bool, not, ◌||◌, List, [], ◌∷◌, arith, Bool-cases, nat_eq,
  string_eq, map,
}
use ticket_graph.Sql.{select_where, delete_where, exists_where}
use ticket_graph.Runs.{
  RunStore, WorkflowRun, is_run, is_archived, archivable, archive_conflict, archive_terminal_runs,
  is_terminal,
}
use ticket_graph.Sql.Laws.{select-delete_ne}
use ticket_graph.Sql.Rows.{exists-append, exists-split}

exists-archived :
    (k : String) (now : ℕ) (rows : List WorkflowRun)
    → exists_where (is_archived k) (map (λ r. record { run = r; archived_at = now }) rows)
      ≡ exists_where (is_run k) rows
unfolding exists_where
exists-archived k now [] = refl
exists-archived k now (r ∷ rows) = rw (exists-archived k now rows)

-- whether a ticket has a run, kept or archived
abbrev pub has_run : String → RunStore → Bool
has_run k s = exists_where (is_run k) s.runs || exists_where (is_archived k) s.archive

or_comm4 : (a b c : Bool) → (a || (c || b)) ≡ ((a || b) || c)
or_comm4 a b c = ground arith

-- A retention pass, whether it succeeds or is refused, keeps every ticket's run in the table of
-- runs or in the archive, adds no ticket to the two, and leaves in the table of runs all that are
-- not terminal.
pub archive-has_run :
    (age now : ℕ) (s : RunStore) (k : String)
    → let after = (archive_terminal_runs age now s).1 in
      (has_run k after ≡ has_run k s)
      × (select_where (λ r. not (is_terminal r.status)) after.runs
          ≡ select_where (λ r. not (is_terminal r.status)) s.runs)
unfolding archive_terminal_runs
archive-has_run age now s k =
    elim (Bool-cases
      (exists_where (archive_conflict s.archive) (select_where (archivable age now) s.runs))) [
        | inl conflict ↦ rw conflict (refl, refl)
        | inr fine ↦ rw fine (
          rw
              (
                exists-append (is_archived k) s.archive (
                    map (λ r. record { run = r; archived_at = now })
                      (select_where (archivable age now) s.runs)),
                exists-archived k now (select_where (archivable age now) s.runs),
                exists-split (is_run k) (archivable age now) s.runs,
              )
              (or_comm4 (exists_where (is_run k) (delete_where (archivable age now) s.runs))
                (exists_where (is_run k) (select_where (archivable age now) s.runs))
                (exists_where (is_archived k) s.archive)),
          select-delete_ne (λ r. not (is_terminal r.status)) (archivable age now) s.runs
              (λ r active. ground arith),
        )
      ]
