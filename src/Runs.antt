-- ===== src/Runs.antt =====
-- The workflow runs and signals of src/ticketflow/db.py: the tables `workflow_run`,
-- `workflow_run_archive` and `pending_signal`, and each function that is a transaction over them.
-- `now` is the transaction's `now()`, and `locked` the rows that another transaction holds.
pub mod Signals
pub mod Calls
pub mod Archive
pub mod Traces
pub mod Listing
pub mod Claims
pub mod Invariant
pub mod Exclusion
use ticket_graph.Prelude.{
  ℕ, ◌+◌, String, Bool, true, false, not, ◌&&◌, ◌||◌, Option, none, some, List, [], ◌∷◌, ◌++◌,
  length, if◌then◌else◌, ◌==◌, nat_eq, string_eq, is_none, map,
}
use ticket_graph.Clock.{second, lease_time, before, due, older}
use ticket_graph.Json.{Json}
use ticket_graph.Models.{TicketStatus, resolved, rejected, escalated}
use ticket_graph.Result.{Result, ok, err, unique_violation}
use ticket_graph.Sql.{
  delete_where, exists_where, fetchone, select_where, update_where, first_by, updated,
}

-- `status IN ('resolved', 'rejected', 'escalated')`
abbrev pub is_terminal : TicketStatus → Bool
is_terminal resolved = true
is_terminal rejected = true
is_terminal escalated = true
is_terminal _ = false

pub record WorkflowRun : Type 0 where
  pub ticket_id : String
  pub status : TicketStatus
  pub wakeup_at : Option ℕ
  pub lease_owner : Option String
  pub lease_expires_at : Option ℕ
  pub created_at : ℕ
  pub updated_at : ℕ

pub record ArchivedRun : Type 0 where
  pub run : WorkflowRun
  pub archived_at : ℕ

pub record PendingSignal : Type 0 where
  pub id : ℕ
  pub workflow_id : String
  pub kind : String
  pub payload : Json
  pub consumed : Bool
  pub created_at : ℕ
  pub consumed_at : Option ℕ

-- The three tables, and the next value of the `bigserial` of the signals.
pub record RunStore : Type 0 where
  pub runs : List WorkflowRun
  pub archive : List ArchivedRun
  pub signals : List PendingSignal
  pub next_signal : ℕ

abbrev pub is_run : String → WorkflowRun → Bool
is_run ticket_id r = r.ticket_id == ticket_id

-- `x IS NULL OR x < now()` and `x IS NULL OR x <= now()`
abbrev pub free : Option ℕ → ℕ → Bool
free expires now = is_none expires || before expires now

abbrev pub runnable : Option ℕ → ℕ → Bool
runnable wakeup_at now = is_none wakeup_at || due wakeup_at now

-- the WHERE of the inner SELECT of `claim_run`, SKIP LOCKED included
abbrev pub claimable : (String → Bool) → ℕ → WorkflowRun → Bool
claimable locked now r =
    (not (is_terminal r.status) || due r.wakeup_at now)
    && free r.lease_expires_at now
    && runnable r.wakeup_at now
    && not (locked r.ticket_id)

abbrev pub claimed : String → ℕ → WorkflowRun → WorkflowRun
claimed worker now r = record r {
  lease_owner = some worker;
  lease_expires_at = some (now + lease_time);
  updated_at = now;
}

-- the row that the inner SELECT of `claim_run` picks
unfoldable pub next_run : (String → Bool) → ℕ → RunStore → Option WorkflowRun
next_run locked now s = first_by (λ r. r.created_at) (select_where (claimable locked now) s.runs)

unfoldable pub claim_run : (String → Bool) → String → ℕ → RunStore → Option WorkflowRun × RunStore
claim_run locked worker now s = elim (next_run locked now s) [
  | none ↦ (none, s)
  | some c ↦ (
    fetchone (updated (is_run c.ticket_id) (claimed worker now) s.runs),
    record s { runs = update_where (is_run c.ticket_id) (claimed worker now) s.runs },
  )
]

abbrev pub released : ℕ → WorkflowRun → WorkflowRun
released now r = record r { lease_owner = none; lease_expires_at = none; updated_at = now }

abbrev pub lapsed : ℕ → WorkflowRun → Bool
lapsed now r = before r.lease_expires_at now

unfoldable pub reclaim_expired_runs : ℕ → RunStore → ℕ × RunStore
reclaim_expired_runs now s = (
  length (updated (lapsed now) (released now) s.runs),
  record s { runs = update_where (lapsed now) (released now) s.runs },
)

abbrev pub archivable : ℕ → ℕ → WorkflowRun → Bool
archivable age now r = is_terminal r.status && older r.updated_at age now

abbrev pub is_archived : String → ArchivedRun → Bool
is_archived ticket_id a = a.run.ticket_id == ticket_id

-- whether the primary key of the archive refuses one of the rows
unfoldable pub archive_conflict : List ArchivedRun → WorkflowRun → Bool
archive_conflict archive r = exists_where (is_archived r.ticket_id) archive

-- The DELETE and the INSERT are one statement: a refused row undoes both.
unfoldable pub archive_terminal_runs : ℕ → ℕ → RunStore → Result (List String) × RunStore
unfolding archive_conflict
archive_terminal_runs age now s =
    let moved = select_where (archivable age now) s.runs in
    if exists_where (archive_conflict s.archive) moved then (err unique_violation, s) else (
      ok (map (λ r. r.ticket_id) moved),
      record s {
        runs = delete_where (archivable age now) s.runs;
        archive = s.archive ++ map (λ r. record { run = r; archived_at = now }) moved;
      },
    )

-- `consumed = true AND consumed_at < now() - age`
abbrev pub stale : ℕ → ℕ → PendingSignal → Bool
stale age now g = g.consumed && elim g.consumed_at [ none ↦ false | some t ↦ older t age now ]

unfoldable pub prune_consumed_signals : ℕ → ℕ → RunStore → ℕ × RunStore
prune_consumed_signals age now s = (
  length (select_where (stale age now) s.signals),
  record s { signals = delete_where (stale age now) s.signals },
)

abbrev pub saved : TicketStatus → Option ℕ → ℕ → WorkflowRun → WorkflowRun
saved status wakeup_at now r = record r {
  status = status;
  wakeup_at = wakeup_at;
  lease_owner = none;
  lease_expires_at = none;
  updated_at = now;
}

abbrev pub is_signal : ℕ → PendingSignal → Bool
is_signal i g = g.id == i

abbrev pub used : ℕ → PendingSignal → PendingSignal
used now g = record g { consumed = true; consumed_at = some now }

unfoldable pub consume : Option ℕ → ℕ → List PendingSignal → List PendingSignal
consume none now signals = signals
consume (some i) now signals = update_where (is_signal i) (used now) signals

unfoldable pub save_run : String → TicketStatus → Option ℕ → Option ℕ → ℕ → RunStore → RunStore
unfolding consume
save_run ticket_id status wakeup_at consumed_signal_id now s = record s {
  runs = update_where (is_run ticket_id) (saved status wakeup_at now) s.runs;
  signals = consume consumed_signal_id now s.signals;
}

abbrev pub fresh_run : String → TicketStatus → Option ℕ → ℕ → WorkflowRun
fresh_run ticket_id status wakeup_at now = record {
  ticket_id = ticket_id;
  status = status;
  wakeup_at = wakeup_at;
  lease_owner = none;
  lease_expires_at = none;
  created_at = now;
  updated_at = now;
}

unfoldable pub create_run : String → TicketStatus → Option ℕ → ℕ → RunStore → RunStore
create_run ticket_id status wakeup_at now s =
    if exists_where (is_run ticket_id) s.runs
    then s
    else record s { runs = s.runs ++ fresh_run ticket_id status wakeup_at now ∷ [] }

-- the same statement on an async connection
unfoldable pub acreate_run : String → TicketStatus → Option ℕ → ℕ → RunStore → RunStore
unfolding create_run
acreate_run ticket_id status wakeup_at now s = create_run ticket_id status wakeup_at now s

abbrev pub woken : ℕ → WorkflowRun → WorkflowRun
woken now r = record r { wakeup_at = some now; updated_at = now }

unfoldable pub wake_run : String → ℕ → RunStore → RunStore
wake_run ticket_id now s = record s { runs = update_where (is_run ticket_id) (woken now) s.runs }

-- `threads` are the thread ids of LangGraph's table `checkpoints`.
unfoldable pub list_orphaned_checkpoint_threads : List String → RunStore → List String
list_orphaned_checkpoint_threads threads s =
    delete_where (λ thread_id. exists_where (is_run thread_id) s.runs) threads
