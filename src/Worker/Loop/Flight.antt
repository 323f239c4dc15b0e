-- ===== src/Worker/Loop/Flight.antt =====
-- The tasks in flight and those not awaited, over the single steps of the loop.
use ticket_graph.Prelude.{
  ℕ, ◌≤◌, ◌<◌, ◌≡◌, refl, inl, inr, Bool, true, false, ◌||◌, Option, none, some, List, [], ◌∷◌,
  arith, All, All-impl, length, Bool-cases, ◌==◌, nat_eq, string_eq, ==_iff, ==_refl,
}
use ticket_graph.Result.{Result, ok, err}
use ticket_graph.Sql.{delete_where, exists_where}
use ticket_graph.Sql.Laws.{All-delete_where}
use ticket_graph.Worker.Loop.{
  Drain, Turn, is_task, created_task, collect, ended, is_idle, collect_done, wait_for_one,
}

abbrev pub in_set : List ℕ → ℕ → Bool
in_set ids i = exists_where (is_task i) ids

-- Every task whose end has not been awaited is in flight, of which there are no more than allowed.
abbrev pub IsBounded : ℕ → Drain → Type 0
IsBounded k w = (length w.in_flight ≤ k) × All (λ i. in_set w.in_flight i ≡ true) w.unawaited

length-delete_where : (i : ℕ) (ids : List ℕ) → length (delete_where (is_task i) ids) ≤ length ids
unfolding delete_where
length-delete_where i [] = omega arith
length-delete_where i (j ∷ ids) = ground (arith, length-delete_where i ids)

-- A task that is not deleted stays in the set, and the deleted one is not among the others.
still_in :
    (i j : ℕ) (ids : List ℕ)
    → (j == i) ≡ false
    → in_set ids j ≡ true
    → in_set (delete_where (is_task i) ids) j ≡ true
unfolding delete_where exists_where
still_in i j [] ne h = h
still_in i j (k ∷ ids) ne h =
    ground (arith, still_in i j ids ne, ==_iff k i, ==_iff k j, ==_iff j i)

others_in :
    (i : ℕ) (open_ids ids : List ℕ)
    → All (λ j. in_set ids j ≡ true) open_ids
    → All (λ j. in_set (delete_where (is_task i) ids) j ≡ true) (delete_where (is_task i) open_ids)
unfolding delete_where
others_in i [] ids h = tt
others_in i (j ∷ open_ids) ids h = elim (Bool-cases (j == i)) [
  | inl same ↦ rw same (others_in i open_ids ids h.1)
  | inr other ↦ rw other (still_in i j ids other h.0, others_in i open_ids ids h.1)
]

ended-All {κ} :
    (P : ℕ → Type κ) (done : List (ℕ × Result Bool)) (ids : List ℕ)
    → All P ids
    → All P (ended done ids)
unfolding ended
ended-All P [] ids h = h
ended-All P ((i, r) ∷ done) ids h =
    ended-All P done (delete_where (is_task i) ids) (All-delete_where P (is_task i) ids h)

collect-IsBounded :
    (k : ℕ) (done : List (ℕ × Result Bool)) (processed : Bool) (w : Drain) (ids : List ℕ)
    → w.unawaited ≡ ended done ids
    → length w.in_flight ≤ k
    → All (λ i. in_set w.in_flight i ≡ true) ids
    → IsBounded k (collect done processed w).1
unfolding collect ended
collect-IsBounded k [] processed w ids e few h = (few, rw e h)
collect-IsBounded k ((i, err x) ∷ done) processed w ids e few h = (
  omega (arith, few, length-delete_where i w.in_flight),
  rw e (
      ended-All (λ j. in_set (delete_where (is_task i) w.in_flight) j ≡ true) done
        (delete_where (is_task i) ids) (others_in i ids w.in_flight h)),
)
collect-IsBounded k ((i, ok b) ∷ done) processed w ids e few h =
    collect-IsBounded k done (b || processed)
      (record w { in_flight = delete_where (is_task i) w.in_flight }) (delete_where (is_task i) ids)
      e (omega (arith, few, length-delete_where i w.in_flight)) (others_in i ids w.in_flight h)

pub wait_for_one-IsBounded :
    (k : ℕ) (t : Turn) (w : Drain) → IsBounded k w → IsBounded k (wait_for_one t w).1
unfolding wait_for_one
wait_for_one-IsBounded k t w h = elim (Bool-cases (is_idle w.in_flight)) [
  | inl idle ↦ rw idle h
  | inr busy ↦ rw busy (waited (t.wait w.in_flight))
]
  where
    waited : (done : Option (List (ℕ × Result Bool))) → IsBounded k (collect_done done w).1
    waited none = h
    waited (some done) =
        collect-IsBounded k done false (record w { unawaited = ended done w.unawaited }) w.unawaited
          refl h.0 h.1

newest_in : (i : ℕ) (ids : List ℕ) → in_set (i ∷ ids) i ≡ true
unfolding exists_where
newest_in i ids = rw (==_refl i) refl

older_in : (j i : ℕ) (ids : List ℕ) → in_set ids j ≡ true → in_set (i ∷ ids) j ≡ true
unfolding exists_where
older_in j i ids h = ground (arith, h)

pub created_task-IsBounded :
    (k : ℕ) (w : Drain) → length w.in_flight < k → IsBounded k w → IsBounded k (created_task w)
created_task-IsBounded k w room h = (
  omega (arith, room),
  (
    newest_in w.created w.in_flight,
    All-impl (λ i. in_set w.in_flight i ≡ true) (λ i. in_set (w.created ∷ w.in_flight) i ≡ true)
        w.unawaited (λ i here. older_in i w.created w.in_flight here) h.1,
  ),
)
