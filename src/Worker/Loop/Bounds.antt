-- ===== src/Worker/Loop/Bounds.antt =====
-- The loop never has more tasks in flight than it may, and it leaves none behind.
use ticket_graph.Prelude.{
  ℕ, zero, suc, ◌+◌, ◌≤◌, ◌≡◌, refl, inl, inr, Bool, true, false, not, ◌||◌, Option, none, some,
  List, [], ◌∷◌, arith, All, length, leb, if◌then◌else◌, Bool-cases, is_some, nat_eq, string_eq,
}
use ticket_graph.Result.{Error, Result, ok, err}
use ticket_graph.Sql.{delete_where, exists_where}
use ticket_graph.Worker.Loop.{
  Drain, Turn, Outcome, running, returned, is_task, created_task, acquired, acquired_from,
  unless_raised, wait_for_one, gathered, gather, may_start, fill, after_wait, after_fill, turn,
  drain, first_state, run_forever, TokenBucket,
}
use ticket_graph.Worker.Loop.Flight.{
  in_set, IsBounded, wait_for_one-IsBounded, created_task-IsBounded,
}

-- A call of `acquire` starts and ends no task.
acquired_lem :
    (bucket : Option TokenBucket) (t : Turn) (w : Drain)
    → ((acquired_from bucket t w).1.in_flight ≡ w.in_flight)
      × ((acquired_from bucket t w).1.unawaited ≡ w.unawaited)
acquired_lem none t w = (refl, refl)
acquired_lem (some b) t w = elim (Bool-cases (t.acquire_cancelled (length w.in_flight))) [
  | inl e ↦ rw e (refl, refl)
  | inr e ↦ rw e (refl, refl)
]

acquired-IsBounded : (k : ℕ) (t : Turn) (w : Drain) → IsBounded k w → IsBounded k (acquired t w).1
acquired-IsBounded k t w h = let (same, same') = acquired_lem w.bucket t w in rw (same, same') h

-- What the inner loop comes to: an exception, or there is no room left or `stop` is set.
abbrev pub Filled : ℕ → Turn → Option Error × Drain → Type 0
Filled k t (raised, w) = IsBounded k w × ((is_some raised || not (may_start k t w)) ≡ true)

raised-Filled :
    (k : ℕ) (t : Turn) (first rest : Option Error × Drain)
    → IsBounded k first.1
    → Filled k t rest
    → Filled k t (unless_raised (λ w1 e. (e, w1)) first rest)
raised-Filled k t (none, w) rest h next = next
raised-Filled k t (some e, w) rest h next = (h, refl)

fill-Filled :
    (k fuel : ℕ) (t : Turn) (w : Drain)
    → k ≤ length w.in_flight + fuel
    → IsBounded k w
    → Filled k t (fill k fuel t w)
unfolding fill
fill-Filled k zero t w enough h = (h, ground (arith, enough))
fill-Filled k (suc fuel) t w enough h = elim (Bool-cases (may_start k t w)) [
  | inl room ↦
      let bounded = acquired-IsBounded k t w h in
      let same = (acquired_lem w.bucket t w).0 in
      rw room (
        raised-Filled k t (acquired t w) (fill k fuel t (created_task (acquired t w).1)) bounded (
          fill-Filled k fuel t (created_task (acquired t w).1) (rw same (omega (arith, enough)))
            (created_task-IsBounded k (acquired t w).1 (rw same (ground (arith, room))) bounded)))
  | inr full ↦ rw full (h, rw full refl)
]

after_fill-IsBounded :
    (k : ℕ) (t : Turn) (filled : Option Error × Drain)
    → IsBounded k filled.1
    → IsBounded k (after_fill k t filled).1
after_fill-IsBounded k t (some e, w) h = h
after_fill-IsBounded k t (none, w) h = paused (wait_for_one t w) (wait_for_one-IsBounded k t w h)
  where
    paused :
        (waited : Result Bool × Drain)
        → IsBounded k waited.1
        → IsBounded k (after_wait k t waited).1
    paused (err e, w1) h1 = h1
    paused (ok b, w1) h1 = h1

turn-IsBounded : (k : ℕ) (t : Turn) (w : Drain) → IsBounded k w → IsBounded k (turn k t w).1
unfolding turn
turn-IsBounded k t w h =
    after_fill-IsBounded k t (fill k k t w) (fill-Filled k k t w (omega arith) h).0

-- While the loop runs it is bounded, also when it fills up next; and when it has returned or raised,
-- no task is left whose end was not awaited.
abbrev pub Kept : ℕ → Turn → Outcome → Type 0
Kept k next (running w) = IsBounded k w × Filled k next (fill k k next w)
Kept k next (returned e w) = (length w.in_flight ≤ k) × (w.unawaited ≡ [])

gather-none :
    (ids open_ids : List ℕ)
    → All (λ i. in_set ids i ≡ true) open_ids
    → delete_where (λ j. exists_where (is_task j) ids) open_ids ≡ []
unfolding delete_where
gather-none ids [] h = refl
gather-none ids (i ∷ open_ids) h = rw (h.0) (gather-none ids open_ids h.1)

gather-Kept :
    (k : ℕ) (next : Turn) (e : Option Error) (w : Drain)
    → IsBounded k w
    → Kept k next (returned e (gather w))
gather-Kept k next e w h = (h.0, gather-none w.in_flight w.unawaited h.1)

drain-Kept :
    (k : ℕ) (next : Turn) (turns : List Turn) (w : Drain)
    → IsBounded k w
    → Kept k next (drain k turns w)
unfolding drain
drain-Kept k next [] w h = (h, fill-Filled k k next w (omega arith) h)
drain-Kept k next (t ∷ turns) w h =
    chosen t.stopped (turn-IsBounded k t w h)
      (drain-Kept k next turns (turn k t w).1 (turn-IsBounded k t w h))
  where
    raised :
        (first : Option Error × Drain) (rest : Outcome)
        → IsBounded k first.1
        → Kept k next rest
        → Kept k next (unless_raised (λ w1 e. returned (gathered t e w1) (gather w1)) first rest)
    raised (none, w1) rest h1 goes_on = goes_on
    raised (some e, w1) rest h1 goes_on = gather-Kept k next (gathered t (some e) w1) w1 h1

    chosen :
        (stopped : Bool)
        → IsBounded k (turn k t w).1
        → Kept k next (drain k turns (turn k t w).1)
        → Kept k next (
            if stopped
            then returned (gathered t none w) (gather w)
            else unless_raised
                (λ w1 e. returned (gathered t e w1) (gather w1))
                (turn k t w)
                (drain k turns (turn k t w).1))
    chosen true h1 goes_on = gather-Kept k next (gathered t none w) w h
    chosen false h1 goes_on = raised (turn k t w) (drain k turns (turn k t w).1) h1 goes_on

-- Whatever the tasks do and however the loop is stopped or cancelled, a worker has at most
-- max_concurrent tasks in flight, at the end of a turn and when it fills up in the next, which it does until
-- there is no room, `stop` is set or an exception is raised. All whose end it has not awaited are
-- among them, and when it returns or raises there is none.
pub run_forever-Kept :
    (max_concurrent : ℕ) (bucket : Option TokenBucket) (turns : List Turn) (next : Turn)
    → Kept max_concurrent next (run_forever max_concurrent bucket turns)
unfolding run_forever
run_forever-Kept max_concurrent bucket turns next = elim (Bool-cases (leb max_concurrent 0)) [
  | inl e ↦ rw e (omega arith, refl)
  | inr e ↦ rw e (drain-Kept max_concurrent next turns (first_state bucket) (omega arith, tt))
]
