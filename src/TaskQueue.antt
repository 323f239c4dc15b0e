-- ===== src/TaskQueue.antt =====
-- src/ticketflow/taskqueue.py, and `QueuedTask` and `dequeue` of src/ticketflow/db.py: the durable
-- task queue. Each function is one SQL statement over the table `task_queue`, with `now` for the
-- transaction's `now()`. `locked` says which rows another transaction holds (SKIP LOCKED).
pub mod Calls
pub mod Traces
pub mod Dequeue
pub mod Delivery
pub mod Retry
pub mod Settled
pub mod Invariant
use ticket_graph.Prelude.{
  ℕ, suc, ◌+◌, ◌*◌, ◌^◌, Bool, true, false, not, ◌&&◌, ◌||◌, String, Option, none, some, List, [],
  ◌∷◌, ◌++◌, ◌==◌, nat_eq, string_eq, if◌then◌else◌, leb, ltb, length, is_some,
}
use ticket_graph.Clock.{second, lease_time, before, older}
use ticket_graph.Json.{Json}
use ticket_graph.Sql.{
  select_where, update_where, updated, delete_where, exists_where, fetchone, first_by,
}

-- the CHECK of the column `status`
pub data TaskStatus : Type 0 where
  pending leased done failed : TaskStatus

abbrev pub is_pending_status : TaskStatus → Bool
is_pending_status pending = true
is_pending_status _ = false

abbrev pub is_leased : TaskStatus → Bool
is_leased leased = true
is_leased _ = false

abbrev pub is_failed : TaskStatus → Bool
is_failed failed = true
is_failed _ = false

-- `status IN ('done', 'failed')`
abbrev pub is_settled : TaskStatus → Bool
is_settled done = true
is_settled failed = true
is_settled _ = false

pub record QueuedTask : Type 0 where
  pub id : ℕ
  pub queue_name : String
  pub task_type : String
  pub workflow_id : String
  pub payload : Json
  pub idempotency_key : String
  pub status : TaskStatus
  pub attempts : ℕ
  pub max_attempts : ℕ
  pub available_at : ℕ
  pub enqueued_at : ℕ
  pub lease_owner : Option String
  pub lease_expires_at : Option ℕ
  pub result : Option Json
  pub error : Option String
  pub permanent : Bool

-- The table, and the next value of its `bigserial`.
pub record TaskTable : Type 0 where
  pub rows : List QueuedTask
  pub next_id : ℕ

-- the keyword arguments of `enqueue`
pub record NewTask : Type 0 where
  pub queue_name : String
  pub task_type : String
  pub workflow_id : String
  pub payload : Json
  pub idempotency_key : String
  pub max_attempts : ℕ
  pub available_at : Option ℕ

-- COALESCE(x, default)
abbrev coalesce : Option ℕ → ℕ → ℕ
coalesce none d = d
coalesce (some x) d = x

-- the row that the INSERT would add, the column defaults of the table filled in
unfoldable pub new_row : ℕ → ℕ → NewTask → QueuedTask
new_row now fresh task = record {
  id = fresh;
  queue_name = task.queue_name;
  task_type = task.task_type;
  workflow_id = task.workflow_id;
  payload = task.payload;
  idempotency_key = task.idempotency_key;
  status = pending;
  attempts = 0;
  max_attempts = task.max_attempts;
  available_at = coalesce task.available_at now;
  enqueued_at = now;
  lease_owner = none;
  lease_expires_at = none;
  result = none;
  error = none;
  permanent = false;
}

abbrev pub has_key : String → QueuedTask → Bool
has_key key r = r.idempotency_key == key

-- ON CONFLICT DO NOTHING has drawn the next id all the same.
unfoldable pub enqueue : ℕ → NewTask → TaskTable → Option ℕ × TaskTable
unfolding new_row
enqueue now task t =
    if exists_where (has_key task.idempotency_key) t.rows
    then (none, record t { next_id = suc t.next_id })
    else (
      some t.next_id,
      record { rows = t.rows ++ new_row now t.next_id task ∷ []; next_id = suc t.next_id },
    )

-- the same statement on an async connection
unfoldable pub aenqueue : ℕ → NewTask → TaskTable → Option ℕ × TaskTable
unfolding enqueue
aenqueue now task t = enqueue now task t

abbrev pub pending_key : String → QueuedTask → Bool
pending_key key r = has_key key r && is_pending_status r.status

unfoldable pub is_pending : String → TaskTable → Bool
is_pending key t = is_some (fetchone (select_where (pending_key key) t.rows))

abbrev pub cancelled : String → QueuedTask → QueuedTask
cancelled reason r = record r { status = failed; error = some reason; permanent = true }

unfoldable pub cancel_pending : String → String → TaskTable → Bool × TaskTable
cancel_pending key reason t = (
  is_some (fetchone (updated (pending_key key) (cancelled reason) t.rows)),
  record t { rows = update_where (pending_key key) (cancelled reason) t.rows },
)

-- the same statement on an async connection
unfoldable pub acancel_pending : String → String → TaskTable → Bool × TaskTable
unfolding cancel_pending
acancel_pending key reason t = cancel_pending key reason t

-- the WHERE of the inner SELECT of `dequeue`, SKIP LOCKED included
abbrev pub dequeuable : (ℕ → Bool) → String → ℕ → QueuedTask → Bool
dequeuable locked queue now r =
    r.queue_name == queue
    && is_pending_status r.status
    && leb r.available_at now
    && not (locked r.id)

abbrev pub has_id : ℕ → QueuedTask → Bool
has_id i r = r.id == i

abbrev pub lease_to : String → ℕ → QueuedTask → QueuedTask
lease_to worker now r = record r {
  status = leased;
  lease_owner = some worker;
  lease_expires_at = some (now + lease_time);
  attempts = r.attempts + 1;
}

-- The row that the inner SELECT of `dequeue` picks.
unfoldable pub next_due : (ℕ → Bool) → String → ℕ → TaskTable → Option QueuedTask
next_due locked queue now t =
    first_by (λ r. r.available_at) (select_where (dequeuable locked queue now) t.rows)

unfoldable pub dequeue :
    (ℕ → Bool) → String → String → ℕ → TaskTable → Option QueuedTask × TaskTable
dequeue locked queue worker now t = elim (next_due locked queue now t) [
  | none ↦ (none, t)
  | some c ↦ (
    fetchone (updated (has_id c.id) (lease_to worker now) t.rows),
    record t { rows = update_where (has_id c.id) (lease_to worker now) t.rows },
  )
]

abbrev pub leased_id : ℕ → QueuedTask → Bool
leased_id i r = has_id i r && is_leased r.status

abbrev pub completed : Json → QueuedTask → QueuedTask
completed result r = record r {
  status = done;
  result = some result;
  error = none;
  lease_owner = none;
  lease_expires_at = none;
}

-- `row[0]` of a RETURNING status
abbrev returned_status : Option QueuedTask → Option TaskStatus
returned_status none = none
returned_status (some r) = some r.status

unfoldable pub complete : ℕ → Json → TaskTable → Option TaskStatus × TaskTable
complete task_id result t = (
  returned_status (fetchone (updated (leased_id task_id) (completed result) t.rows)),
  record t { rows = update_where (leased_id task_id) (completed result) t.rows },
)

-- the test of both CASE expressions of `fail`
abbrev pub retries : Bool → QueuedTask → Bool
retries permanent r = ltb r.attempts r.max_attempts && not (r.permanent || permanent)

abbrev pub failed_once : String → Bool → ℕ → QueuedTask → QueuedTask
failed_once error permanent now r = record r {
  status = if retries permanent r then pending else failed;
  available_at = if retries permanent r then now + second * 2 ^ r.attempts else r.available_at;
  error = some error;
  permanent = r.permanent || permanent;
  lease_owner = none;
  lease_expires_at = none;
}

unfoldable pub fail : ℕ → String → Bool → ℕ → TaskTable → Option TaskStatus × TaskTable
fail task_id error permanent now t = (
  returned_status (fetchone (updated (leased_id task_id) (failed_once error permanent now) t.rows)),
  record t { rows = update_where (leased_id task_id) (failed_once error permanent now) t.rows },
)

abbrev pub expired : ℕ → QueuedTask → Bool
expired now r = is_leased r.status && before r.lease_expires_at now

abbrev pub reclaimed : QueuedTask → QueuedTask
reclaimed r = record r { status = pending; lease_owner = none; lease_expires_at = none }

unfoldable pub reclaim_expired : ℕ → TaskTable → ℕ × TaskTable
reclaim_expired now t = (
  length (updated (expired now) reclaimed t.rows),
  record t { rows = update_where (expired now) reclaimed t.rows },
)

abbrev pub prunable : ℕ → ℕ → QueuedTask → Bool
prunable age now r = is_settled r.status && older r.enqueued_at age now

unfoldable pub prune_settled : ℕ → ℕ → TaskTable → ℕ × TaskTable
prune_settled age now t = (
  length (select_where (prunable age now) t.rows),
  record t { rows = delete_where (prunable age now) t.rows },
)
