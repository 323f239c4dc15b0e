-- ===== src/Migrations/Ascending.antt =====
-- `_validate_migrations` accepts exactly the lists whose versions ascend.
use ticket_graph.Prelude.{
  ◌≤◌, String, ◌≡◌, refl, ap, ◌≢◌, ◌↔◌, inl, inr, true, false, List, [], ◌∷◌, arith, All, All-impl,
  All-zip, Distinct, length, Bool-cases, ◌==◌, nat_eq, string_eq, ==_iff, ==_refl, ne_of_==,
  text_le, text_le_antisym, text_le_total, text_order, sort_by, IsSorted, sort_by-IsSorted,
  sort_by_sorted,
}
use ticket_graph.Result.{ok}
use ticket_graph.Sql.Rows.{exists-none}
use ticket_graph.Sql.Laws.{All-of_exists_where}
use ticket_graph.Migrations.{
  Migration, versions, listed, is_text, to_set, same_texts, validate_migrations,
}

-- Each version stands before all that come after it, and is none of them.
abbrev pub IsAscending : List String → Type 0
IsAscending [] = Unit
IsAscending (v ∷ vs) = All (λ w. text_le w v ≡ false) vs × IsAscending vs

abbrev Unrepeated : List String → Type 0
Unrepeated vs = Distinct (λ v. v) vs

length-to_set : (vs : List String) → length (to_set vs) ≤ length vs
unfolding to_set
length-to_set [] = omega arith
length-to_set (v ∷ vs) = ground (arith, length-to_set vs)

to_set-Unrepeated : (vs : List String) → length (to_set vs) ≡ length vs → Unrepeated vs
unfolding to_set
to_set-Unrepeated [] e = tt
to_set-Unrepeated (v ∷ vs) e = elim (Bool-cases (listed v vs)) [
  | inl twice ↦ absurd (omega (arith, length-to_set vs, rw twice at e))
  | inr once ↦ (
    All-of_exists_where (λ w. w ≢ v) (is_text v) vs once (λ w miss. ne_of_== w v miss),
    to_set-Unrepeated vs (omega (arith, rw once at e)),
  )
]

Unrepeated-to_set : (vs : List String) → Unrepeated vs → length (to_set vs) ≡ length vs
unfolding to_set
Unrepeated-to_set [] u = refl
Unrepeated-to_set (v ∷ vs) u =
    rw
      (exists-none (is_text v) vs
        (All-impl (λ w. w ≢ v) (λ w. is_text v w ≡ false) vs (λ w ne. differs w v ne) u.0))
      (omega (arith, Unrepeated-to_set vs u.1))
  where
    differs : (w v : String) → w ≢ v → (w == v) ≡ false
    differs w v ne = elim (Bool-cases (w == v)) [
      | inl same ↦ absurd (ne ((==_iff w v).0 same))
      | inr other ↦ other
    ]

same_texts-eq : (vs ws : List String) → same_texts vs ws ≡ true → vs ≡ ws
unfolding same_texts
same_texts-eq [] [] e = refl
same_texts-eq [] (w ∷ ws) e = absurd cc
same_texts-eq (v ∷ vs) [] e = absurd cc
same_texts-eq (v ∷ vs) (w ∷ ws) e = ground (arith, ==_iff v w, same_texts-eq vs ws)

same_texts_refl : (vs : List String) → same_texts vs vs ≡ true
unfolding same_texts
same_texts_refl [] = refl
same_texts_refl (v ∷ vs) = rw (==_refl v) (same_texts_refl vs)

ascends : (v w : String) → text_le v w ≡ true → w ≢ v → text_le w v ≡ false
ascends v w le ne = elim (Bool-cases (text_le w v)) [
  | inl back ↦ absurd (ne (text_le_antisym w v back le))
  | inr above ↦ above
]

IsAscending-intro : (vs : List String) → IsSorted text_order vs → Unrepeated vs → IsAscending vs
IsAscending-intro [] s u = tt
IsAscending-intro (v ∷ vs) s u = (
  All-impl (λ w. (text_le v w ≡ true) × (w ≢ v)) (λ w. text_le w v ≡ false) vs
      (λ w h. ascends v w h.0 h.1) (All-zip (λ w. text_le v w ≡ true) (λ w. w ≢ v) vs s.0 u.0),
  IsAscending-intro vs s.1 u.1,
)

text_le_refl : (v : String) → text_le v v ≡ true
text_le_refl v = elim (Bool-cases (text_le v v)) [
  | inl here ↦ here
  | inr below ↦ text_le_total v v below
]

IsAscending-elim : (vs : List String) → IsAscending vs → IsSorted text_order vs × Unrepeated vs
IsAscending-elim [] h = (tt, tt)
IsAscending-elim (v ∷ vs) h =
    let (sorted, once) = IsAscending-elim vs h.1 in
    (
      (
        All-impl (λ w. text_le w v ≡ false) (λ w. text_le v w ≡ true) vs
            (λ w a. text_le_total w v a) h.0,
        sorted,
      ),
      (
        All-impl (λ w. text_le w v ≡ false) (λ w. w ≢ v) vs
            (λ w a e. cc (a, text_le_refl v, ap (λ x. text_le x v) e)) h.0,
        once,
      ),
    )

-- A list of migrations is accepted exactly if its versions ascend strictly, in the order of texts.
pub validate-IsAscending :
    (ms : List Migration) → (validate_migrations ms ≡ ok tt) ↔ IsAscending (versions ms)
unfolding validate_migrations
validate-IsAscending ms = (
  (λ e. accepted e),
  λ h.
      let (sorted, once) = IsAscending-elim (versions ms) h in
      rw (
        Unrepeated-to_set (versions ms) once,
        ==_refl (length (versions ms)),
        sort_by_sorted text_order (versions ms) sorted,
        same_texts_refl (versions ms),
      ),
)
  where
    accepted : validate_migrations ms ≡ ok tt → IsAscending (versions ms)
    accepted e = elim (Bool-cases (length (to_set (versions ms)) == length (versions ms))) [
      | inr repeated ↦ absurd (cc (rw repeated at e))
      | inl once ↦ elim (Bool-cases (same_texts (versions ms) (sort_by text_order (versions ms)))) [
        | inr unordered ↦ absurd (cc (rw (once, unordered) at e))
        | inl ordered ↦
            IsAscending-intro (versions ms)
              (rw (same_texts-eq (versions ms) (sort_by text_order (versions ms)) ordered)
                (sort_by-IsSorted text_order (versions ms)))
              (to_set-Unrepeated (versions ms)
                ((==_iff (length (to_set (versions ms))) (length (versions ms))).0 once))
      ]
    ]
