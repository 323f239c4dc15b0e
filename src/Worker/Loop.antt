-- ===== src/Worker/Loop.antt =====
-- `run_forever` of src/ticketflow/agent_worker.py, the polling loop that the workers share. A turn of
-- the loop is given what the tasks and the event loop do in it. A task of asyncio is the number of
-- its creation; `unawaited` are those whose end the loop has not awaited.
pub mod Flight
pub mod Bounds
use ticket_graph.Prelude.{
  ℕ, zero, suc, Bool, true, false, not, ◌&&◌, ◌||◌, Option, none, some, List, [], ◌∷◌, length, ltb,
  leb, if◌then◌else◌, is_some, ◌==◌, nat_eq, string_eq,
}
use ticket_graph.Result.{Error, Result, ok, err, value_error, cancelled_error}
use ticket_graph.Sql.{delete_where, exists_where}
use ticket_graph.Worker.Bucket.{TokenBucket, acquire}

pub record Drain : Type 0 where
  pub bucket : Option TokenBucket
  pub created : ℕ
  pub in_flight : List ℕ
  pub unawaited : List ℕ

-- `stopped` is `stop.is_set()` at the outer loop's test, and `is_set` at the inner loop's, by the
-- number of tasks in flight; a `stop` that is None is never set. `acquire_at` is the clock at the
-- call of `acquire`. `wait` is `asyncio.wait`: the tasks that are done, in the order of their set,
-- with what `result()` gives or raises; a cancelled one is `none`.
pub record Turn : Type 0 where
  pub stopped : Bool
  pub is_set : ℕ → Bool
  pub acquire_at : ℕ → ℕ
  pub acquire_cancelled : ℕ → Bool
  pub wait : List ℕ → Option (List (ℕ × Result Bool))
  pub sleep_cancelled : Bool
  pub gather_cancelled : Bool

abbrev pub is_task : ℕ → ℕ → Bool
is_task i j = j == i

-- `asyncio.create_task` and `in_flight.add`
abbrev pub created_task : Drain → Drain
created_task w = record w {
  created = suc w.created;
  in_flight = w.created ∷ w.in_flight;
  unawaited = w.created ∷ w.unawaited;
}

abbrev with_bucket : TokenBucket → Drain → Drain
with_bucket b w = record w { bucket = some b }

-- `bucket.acquire()`, if there is one: what it raises
abbrev pub acquired_from : Option TokenBucket → Turn → Drain → Option Error × Drain
acquired_from none t w = (none, w)
acquired_from (some b) t w =
    if t.acquire_cancelled (length w.in_flight)
    then (some cancelled_error, w)
    else (none, with_bucket (acquire (t.acquire_at (length w.in_flight)) b).1 w)

abbrev pub acquired : Turn → Drain → Option Error × Drain
acquired t w = acquired_from w.bucket t w

-- what follows a call that may raise
abbrev pub unless_raised : {A : Type 0} → (Drain → Option Error → A) → Option Error × Drain → A → A
unless_raised raise (none, w) rest = rest
unless_raised raise (some e, w) rest = raise w (some e)

-- the tasks in the iteration order of the set `done`: `in_flight.remove(task)` and `task.result()`
unfoldable pub collect : List (ℕ × Result Bool) → Bool → Drain → Result Bool × Drain
unfolding delete_where
collect [] processed w = (ok processed, w)
collect ((i, err e) ∷ rest) processed w =
    (err e, record w { in_flight = delete_where (is_task i) w.in_flight })
collect ((i, ok b) ∷ rest) processed w =
    collect rest (b || processed) (record w { in_flight = delete_where (is_task i) w.in_flight })

-- `asyncio.wait` returns tasks that have ended.
unfoldable pub ended : List (ℕ × Result Bool) → List ℕ → List ℕ
unfolding delete_where
ended [] ids = ids
ended ((i, r) ∷ rest) ids = ended rest (delete_where (is_task i) ids)

abbrev pub is_idle : List ℕ → Bool
is_idle [] = true
is_idle (i ∷ ids) = false

abbrev pub collect_done : Option (List (ℕ × Result Bool)) → Drain → Result Bool × Drain
collect_done none w = (err cancelled_error, w)
collect_done (some done) w = collect done false (record w { unawaited = ended done w.unawaited })

-- `await _wait_for_one() if in_flight else False`
unfoldable pub wait_for_one : Turn → Drain → Result Bool × Drain
unfolding collect ended
wait_for_one t w =
    if is_idle w.in_flight then (ok false, w) else collect_done (t.wait w.in_flight) w

-- the sleep of a turn that has processed nothing: what it raises
abbrev pub pause : Turn → Bool → Drain → Option Error
pause t processed w =
    if not processed && (not (is_some w.bucket) || is_idle w.in_flight) && t.sleep_cancelled
    then some cancelled_error
    else none

-- `asyncio.gather(*in_flight, return_exceptions=True)`, which waits for all the tasks. Cancelled
-- itself, it cancels them, and still waits for all.
abbrev pub gather : Drain → Drain
gather w = record w {
  unawaited = delete_where (λ j. exists_where (is_task j) w.in_flight) w.unawaited;
}

-- What the loop ends with, `raised` or else a return, once `gather` is done: that raises
-- CancelledError in the end if it was cancelled itself.
abbrev pub gathered : Turn → Option Error → Drain → Option Error
gathered t raised w =
    if t.gather_cancelled && not (is_idle w.in_flight) then some cancelled_error else raised

-- The loop still runs, or it has returned or raised.
pub data Outcome : Type 0 where
  running : Drain → Outcome
  returned : Option Error → Drain → Outcome

abbrev pub first_state : Option TokenBucket → Drain
first_state bucket = record { bucket = bucket; created = 0; in_flight = []; unawaited = [] }

module _ (max_concurrent : ℕ) where
  abbrev pub may_start : Turn → Drain → Bool
  may_start t w = ltb (length w.in_flight) max_concurrent && not (t.is_set (length w.in_flight))

  -- the inner loop; each turn of it adds a task
  unfoldable pub fill : ℕ → Turn → Drain → Option Error × Drain
  unfolding acquire
  fill zero t w = (none, w)
  fill (suc fuel) t w =
      let rest = fill fuel t (created_task (acquired t w).1) in
      if may_start t w then unless_raised (λ w1 e. (e, w1)) (acquired t w) rest else (none, w)

  abbrev pub after_wait : Turn → Result Bool × Drain → Option Error × Drain
  after_wait t (err e, w) = (some e, w)
  after_wait t (ok processed, w) = (pause t processed w, w)

  abbrev pub after_fill : Turn → Option Error × Drain → Option Error × Drain
  after_fill t (some e, w) = (some e, w)
  after_fill t (none, w) = after_wait t (wait_for_one t w)

  -- the body of the outer loop
  unfoldable pub turn : Turn → Drain → Option Error × Drain
  unfolding fill wait_for_one
  turn t w = after_fill t (fill max_concurrent t w)

  unfoldable pub drain : List Turn → Drain → Outcome
  unfolding turn delete_where exists_where
  drain [] w = running w
  drain (t ∷ turns) w =
      let rest = drain turns (turn t w).1 in
      if t.stopped
      then returned (gathered t none w) (gather w)
      else unless_raised (λ w1 e. returned (gathered t e w1) (gather w1)) (turn t w) rest

  -- A negative `max_concurrent` is refused like 0.
  unfoldable pub run_forever : Option TokenBucket → List Turn → Outcome
  unfolding drain
  run_forever bucket turns =
      if leb max_concurrent 0
      then returned (some (value_error "max_concurrent must be greater than zero"))
          (first_state bucket)
      else drain turns (first_state bucket)
