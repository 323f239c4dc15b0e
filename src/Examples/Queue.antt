-- ===== src/Examples/Queue.antt =====
-- A task queue with two tasks, and what the calls of taskqueue.py and `dequeue` do on it.
use ticket_graph.Prelude.{
  ℕ, ◌+◌, ◌*◌, ◌^◌, ◌≤◌, ◌<◌, String, ◌≡◌, refl, ◌⊎◌, Bool, true, false, none, some, List, [], ◌∷◌,
  arith, All, Distinct, nat_eq, string_eq,
}
use ticket_graph.Json.{null}
use ticket_graph.Clock.{second}
use ticket_graph.Sql.{select_where, first_by, updated, update_where, exists_where}
use ticket_graph.TaskQueue.{
  TaskTable, QueuedTask, NewTask, pending, failed, has_id, has_key, enqueue, dequeue, complete,
  fail, reclaim_expired, expired, next_due, lease_to, completed, dequeuable,
}
use ticket_graph.TaskQueue.Calls.{Call, enqueues, dequeues, fails, run, empty, step}
use ticket_graph.TaskQueue.Invariant.{IsValid, run-IsValid, empty-IsValid}
use ticket_graph.TaskQueue.Delivery.{
  Request, serve, dequeue_lem, Delivers, deliveries, deliveries-Distinct,
}
use ticket_graph.TaskQueue.Retry.{fail_lem, late_worker, reclaim_expired_lem}

abbrev pub task_of : String → NewTask
task_of key = record {
  queue_name = "agent";
  task_type = "classify";
  workflow_id = "t";
  payload = null;
  idempotency_key = key;
  max_attempts = 3;
  available_at = none;
}

abbrev pub script : List Call
script = enqueues 10 (task_of "a") ∷ enqueues 20 (task_of "b") ∷ enqueues 30 (task_of "a") ∷ []

abbrev pub queue : TaskTable
queue = run empty script

abbrev pub unlocked : ℕ → Bool
unlocked i = false

abbrev pub asks : ℕ → Request
asks now = record { locked = unlocked; queue = "agent"; worker = "w"; at = now }

run-IsValid_example : IsValid (run empty script)
run-IsValid_example = run-IsValid empty script empty-IsValid

pub queue-IsValid : IsValid queue
queue-IsValid = run-IsValid empty script empty-IsValid

-- Three requests get the two tasks in the order of their times.
two_deliveries : deliveries queue (asks 40 ∷ asks 40 ∷ asks 41 ∷ []) ≡ 1 ∷ 2 ∷ []
unfolding deliveries run step enqueue dequeue next_due first_by select_where updated update_where
    exists_where
two_deliveries = refl

deliveries-Distinct_example :
    Distinct (λ i. i) (deliveries queue (asks 40 ∷ asks 40 ∷ asks 41 ∷ []))
deliveries-Distinct_example =
    deliveries-Distinct queue (asks 40 ∷ asks 40 ∷ asks 41 ∷ []) queue-IsValid

dequeue_lem_example :
    ((r : QueuedTask) × ((serve (asks 40) queue).0 ≡ some r)
      × Delivers (asks 40) queue r (serve (asks 40) queue).1)
    ⊎ ((serve (asks 40) queue ≡ (none, queue))
        × All (λ y. dequeuable unlocked "agent" 40 y ≡ false) queue.rows)
dequeue_lem_example = dequeue_lem (asks 40) queue queue-IsValid

-- a row of the queue: task 1 as it is enqueued, leased at 40, and done
abbrev fresh_row : QueuedTask
fresh_row = record {
  id = 1;
  queue_name = "agent";
  task_type = "classify";
  workflow_id = "t";
  payload = null;
  idempotency_key = "a";
  status = pending;
  attempts = 0;
  max_attempts = 3;
  available_at = 10;
  enqueued_at = 10;
  lease_owner = none;
  lease_expires_at = none;
  result = none;
  error = none;
  permanent = false;
}

abbrev leased_row : QueuedTask
leased_row = lease_to "w" 40 fresh_row

abbrev pub done_row : QueuedTask
done_row = completed null leased_row

abbrev pub table_of : QueuedTask → TaskTable
table_of r = record { rows = r ∷ []; next_id = 2 }

fail_lem_example :
    let (status, t') = fail 1 "boom" false 50 (table_of leased_row) in
    (r' : QueuedTask) × (select_where (has_id 1) t'.rows ≡ r' ∷ [])
    × (status ≡ some r'.status)
    × (r'.lease_owner ≡ none)
    × (r'.error ≡ some "boom")
    × (((1 < 3)
          × (◌≡◌ {A = Bool} false false)
          × (◌≡◌ {A = Bool} false false)
          × (r'.status ≡ pending)
          × (r'.available_at ≡ 50 + 2 ^ 1 * second))
        ⊎ ((r'.status ≡ failed)
            × ((3 ≤ 1) ⊎ ((◌≡◌ {A = Bool} false true) ⊎ (◌≡◌ {A = Bool} false true)))))
unfolding select_where
fail_lem_example = fail_lem 1 "boom" false 50 (table_of leased_row) leased_row refl refl

late_worker_example :
    (complete 1 null (table_of fresh_row) ≡ (none, table_of fresh_row))
    × (fail 1 "boom" false 50 (table_of fresh_row) ≡ (none, table_of fresh_row))
unfolding select_where
late_worker_example = late_worker 1 null "boom" false 50 (table_of fresh_row) fresh_row refl refl

reclaim_expired_lem_example :
    All (λ r. expired 50 r ≡ false) (reclaim_expired 50 (table_of leased_row)).1.rows
    × ((key : String) (r : QueuedTask)
        → select_where (has_key key) (table_of leased_row).rows ≡ r ∷ []
        → (r' : QueuedTask) × (select_where
              (has_key key)
              (reclaim_expired 50 (table_of leased_row)).1.rows
            ≡ r' ∷ [])
          × (r'.attempts ≡ r.attempts)
          × (((expired 50 r ≡ false) × (r' ≡ r))
              ⊎ ((expired 50 r ≡ true) × (r'.status ≡ pending) × (r'.lease_owner ≡ none))))
reclaim_expired_lem_example = reclaim_expired_lem 50 (table_of leased_row)

pub done-IsValid : IsValid (table_of done_row)
done-IsValid = ground arith

-- A late failure, a new enqueue and a new lease leave the finished task.
abbrev late_calls : List Call
late_calls =
    fails 1 "late" true 60 ∷ enqueues 70 (task_of "a") ∷ dequeues unlocked "agent" "v" 80 ∷ []
