-- ===== src/Scripts/Sets.antt =====
-- `set(xs)` and `sorted(xs)`: nothing twice, and the same elements.
use mathlib.Core.Path.{subst}
use ticket_graph.Prelude.{
  String, ◌≡◌, refl, sym, ◌∙◌, ◌≢◌, inl, inr, true, ◌||◌, List, [], ◌∷◌, arith, All, Distinct,
  Bool-cases, ◌==◌, nat_eq, string_eq, ==_iff, ne_of_==, Order, sort_by, insert_by, All-sort_by,
  All-insert_by,
}
use ticket_graph.Sql.{exists_where}
use ticket_graph.Sql.Laws.{All-of_exists_where}
use ticket_graph.Migrations.{to_set, listed, is_text}

pub All-to_set {κ} : (P : String → Type κ) (vs : List String) → All P vs → All P (to_set vs)
unfolding to_set
All-to_set P [] h = tt
All-to_set P (v ∷ vs) h = elim (Bool-cases (listed v vs)) [
  | inl twice ↦ rw twice (All-to_set P vs h.1)
  | inr once ↦ rw once (h.0, All-to_set P vs h.1)
]

pub to_set-Distinct : (vs : List String) → Distinct (λ v. v) (to_set vs)
unfolding to_set
to_set-Distinct [] = tt
to_set-Distinct (v ∷ vs) = elim (Bool-cases (listed v vs)) [
  | inl twice ↦ rw twice (to_set-Distinct vs)
  | inr once ↦ rw once (
    All-to_set (λ w. w ≢ v) vs
        (All-of_exists_where (λ w. w ≢ v) (is_text v) vs once (λ w miss. ne_of_== w v miss)),
    to_set-Distinct vs,
  )
]

pub listed-to_set : (k : String) (vs : List String) → listed k (to_set vs) ≡ listed k vs
unfolding to_set exists_where
listed-to_set k [] = refl
listed-to_set k (v ∷ vs) = elim (Bool-cases (listed v vs)) [
  | inl twice ↦ elim (Bool-cases (v == k)) [
    | inl same ↦
        rw (twice, same)
          (listed-to_set k vs ∙ subst (λ x. listed x vs ≡ true) ((==_iff v k).0 same) twice)
    | inr other ↦ rw (twice, other) (listed-to_set k vs)
  ]
  | inr once ↦ rw once (rw (listed-to_set k vs) refl)
]

module _ (o : Order String) where
  insert_by-Distinct :
      (x : String) (xs : List String)
      → All (λ y. y ≢ x) xs
      → Distinct (λ v. v) xs
      → Distinct (λ v. v) (insert_by o x xs)
  unfolding insert_by
  insert_by-Distinct x [] h d = (tt, tt)
  insert_by-Distinct x (y ∷ ys) h d = elim (Bool-cases (o.le x y)) [
    | inl e ↦ rw e ((h.0, h.1), d)
    | inr e ↦ rw e (
      All-insert_by o (λ z. z ≢ y) x ys (λ same. h.0 (sym same)) d.0,
      insert_by-Distinct x ys h.1 d.1,
    )
  ]

  pub sort_by-Distinct :
      (xs : List String) → Distinct (λ v. v) xs → Distinct (λ v. v) (sort_by o xs)
  unfolding sort_by
  sort_by-Distinct [] d = tt
  sort_by-Distinct (x ∷ xs) d =
      insert_by-Distinct x (sort_by o xs) (All-sort_by o (λ y. y ≢ x) xs d.0)
        (sort_by-Distinct xs d.1)

  listed-insert_by :
      (k x : String) (xs : List String) → listed k (insert_by o x xs) ≡ (x == k || listed k xs)
  unfolding insert_by exists_where
  listed-insert_by k x [] = ground arith
  listed-insert_by k x (y ∷ ys) = ground (arith, listed-insert_by k x ys)

  pub listed-sort_by : (k : String) (xs : List String) → listed k (sort_by o xs) ≡ listed k xs
  unfolding sort_by exists_where
  listed-sort_by k [] = refl
  listed-sort_by k (x ∷ xs) =
      ground (arith, listed-insert_by k x (sort_by o xs), listed-sort_by k xs)

pub text_eq_comm : (x y : String) → (x == y) ≡ (y == x)
text_eq_comm x y = ground (arith, ==_iff x y, ==_iff y x)
