-- ===== src/Runs/Listing.antt =====
-- `list_runs_by_status` of src/ticketflow/db.py. The collation by which Postgres orders texts is a
-- parameter.
use mathlib.Core.List.{Perm}
use ticket_graph.Prelude.{
  sort_by-perm, String, ◌≡◌, Bool, true, false, ◌&&◌, ◌||◌, List, arith, ltb, ◌==◌, nat_eq,
  string_eq, Order, sort_by, IsSorted, sort_by-IsSorted, map,
}
use ticket_graph.Models.{TicketStatus}
use ticket_graph.Sql.{select_where}
use ticket_graph.Runs.{RunStore, WorkflowRun}
use ticket_graph.Runs.Signals.{is_status}

-- ORDER BY created_at, ticket_id
abbrev run_le : Order String → WorkflowRun → WorkflowRun → Bool
run_le collation r s =
    ltb r.created_at s.created_at
    || (r.created_at == s.created_at && collation.le r.ticket_id s.ticket_id)

pub run_le_total :
    (collation : Order String) (r s : WorkflowRun)
    → run_le collation r s ≡ false
    → run_le collation s r ≡ true
run_le_total collation r s h = ground (arith, collation.total r.ticket_id s.ticket_id)

pub run_le_trans :
    (collation : Order String) (r s t : WorkflowRun)
    → run_le collation r s ≡ true
    → run_le collation s t ≡ true
    → run_le collation r t ≡ true
run_le_trans collation r s t h k =
    ground (arith, collation.trans r.ticket_id s.ticket_id t.ticket_id)

abbrev pub by_age : Order String → Order WorkflowRun
by_age collation = record {
  le = run_le collation;
  total = run_le_total collation;
  trans = run_le_trans collation;
}

-- the rows of the SELECT
unfoldable pub runs_by_status : Order String → TicketStatus → RunStore → List WorkflowRun
runs_by_status collation status s =
    sort_by (by_age collation) (select_where (λ r. is_status r.status status) s.runs)

unfoldable pub list_runs_by_status : Order String → TicketStatus → RunStore → List String
unfolding runs_by_status
list_runs_by_status collation status s = map (λ r. r.ticket_id) (runs_by_status collation status s)

-- The listing of a status has the runs of that status, each once, oldest first and those of one age
-- by their ids.
pub runs_by_status_lem :
    (collation : Order String) (status : TicketStatus) (s : RunStore)
    → Perm
        (runs_by_status collation status s)
        (select_where (λ r. is_status r.status status) s.runs)
      × IsSorted (by_age collation) (runs_by_status collation status s)
unfolding runs_by_status
runs_by_status_lem collation status s = (
  sort_by-perm (by_age collation) (select_where (λ r. is_status r.status status) s.runs),
  sort_by-IsSorted (by_age collation) (select_where (λ r. is_status r.status status) s.runs),
)
