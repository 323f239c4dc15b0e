-- ===== src/Scripts/Counts.antt =====
-- The histograms of scripts/batch.py count what they say: the fallback count of a summary is the
-- number of the tickets whose model path names the fallback.
use mathlib.Core.Path.{subst}
use ticket_graph.Sql.Rows.{exists-none}
use ticket_graph.Prelude.{
  ℕ, suc, String, ◌≡◌, refl, ◌∙◌, ◌≢◌, inl, inr, Bool, true, false, not, ◌&&◌, List, [], ◌∷◌, arith,
  All, All-impl, Distinct, length, if◌then◌else◌, Bool-cases, ◌==◌, nat_eq, string_eq, ==_iff,
  ==_refl, text_order, sort_by, map,
}
use ticket_graph.Sql.{exists_where}
use ticket_graph.Sql.Pick.{All-exists_self}
use ticket_graph.Migrations.{to_set, listed, is_text}
use ticket_graph.Scripts.Dict.{Dict, put, values}
use ticket_graph.Scripts.Sets.{
  to_set-Distinct, listed-to_set, sort_by-Distinct, listed-sort_by, text_eq_comm,
}
use ticket_graph.Scripts.Batch.{
  TicketSnapshot, count, counts, has_fallback, split, mentions, fallback_count, path_of, summary_of,
  fallback_model_path_count, model_path_histogram,
}

-- how many elements there are of a kind
abbrev pub count_if {ℓ} : {A : Type ℓ} → (A → Bool) → List A → ℕ
count_if p [] = 0
count_if p (x ∷ xs) = if p x then suc (count_if p xs) else count_if p xs

-- what `fallback_model_path_count` counts
abbrev counted : String → Bool
counted path = not (path == "total") && has_fallback path

abbrev tally : List String → List String → Dict ℕ
tally xs vs = map (λ x. (x, count x xs)) vs

total-counted : has_fallback "total" ≡ false
unfolding has_fallback split mentions
total-counted = refl

fallback_count-put : (n : ℕ) (d : Dict ℕ) → fallback_count (put "total" n d) ≡ fallback_count d
unfolding fallback_count put
fallback_count-put n [] = refl
fallback_count-put n ((k, v) ∷ d) = elim (Bool-cases (k == "total")) [
  | inl e ↦ rw e refl
  | inr e ↦ rw e (rw (e, fallback_count-put n d) refl)
]

fallback_count-none : (vs : List String) → fallback_count (tally [] vs) ≡ 0
unfolding fallback_count count
fallback_count-none [] = refl
fallback_count-none (v ∷ vs) = ground (arith, fallback_count-none vs)

-- A text that is no key counts for none.
fallback_count-other :
    (y : String) (ys vs : List String)
    → listed y vs ≡ false
    → fallback_count (tally (y ∷ ys) vs) ≡ fallback_count (tally ys vs)
unfolding fallback_count count exists_where
fallback_count-other y ys [] h = refl
fallback_count-other y ys (v ∷ vs) h = elim (Bool-cases (v == y)) [
  | inl here ↦ absurd (cc (rw here at h))
  | inr ne ↦
      let apart : (y == v) ≡ false = text_eq_comm y v ∙ ne in
      rw (apart, fallback_count-other y ys vs (rw ne at h)) refl
]

-- One more text counts once, if it is among distinct keys and counted at all.
fallback_count-more :
    (y : String) (ys vs : List String)
    → listed y vs ≡ true
    → Distinct (λ v. v) vs
    → fallback_count (tally (y ∷ ys) vs)
      ≡ (if counted y then suc (fallback_count (tally ys vs)) else fallback_count (tally ys vs))
unfolding fallback_count count exists_where
fallback_count-more y ys [] h d = absurd cc
fallback_count-more y ys (v ∷ vs) h d = elim (Bool-cases (v == y)) [
  | inl here ↦
      let same = (==_iff v y).0 here in
      rw (fallback_count-other y ys vs (absent same)) (rw (← same) (rw (==_refl v) (ground arith)))
  | inr ne ↦
      let apart : (y == v) ≡ false = text_eq_comm y v ∙ ne in
      rw (apart, fallback_count-more y ys vs (rw ne at h) d.1) (ground arith)
]
  where
    absent : v ≡ y → listed y vs ≡ false
    absent same =
        subst (λ x. listed x vs ≡ false) same
          (exists-none (is_text v) vs (
            All-impl (λ w. w ≢ v) (λ w. is_text v w ≡ false) vs
              (λ w ne. ground (arith, ==_iff w v, ne)) d.0))

fallback_count-tally :
    (xs vs : List String)
    → All (λ x. listed x vs ≡ true) xs
    → Distinct (λ v. v) vs
    → fallback_count (tally xs vs) ≡ count_if counted xs
fallback_count-tally [] vs h d = fallback_count-none vs
fallback_count-tally (x ∷ xs) vs h d =
    fallback_count-more x xs vs h.0 d ∙ rw (fallback_count-tally xs vs h.1 d) refl

counted-has_fallback : (path : String) → counted path ≡ has_fallback path
counted-has_fallback path = elim (Bool-cases (path == "total")) [
  | inl e ↦ rw ((==_iff path "total").0 e, total-counted) (ground arith)
  | inr e ↦ rw e refl
]

count_if-map :
    (snapshots : List TicketSnapshot)
    → count_if counted (map path_of snapshots) ≡ count_if (λ s. has_fallback (path_of s)) snapshots
count_if-map [] = refl
count_if-map (s ∷ snapshots) = rw (counted-has_fallback (path_of s), count_if-map snapshots) refl

-- The fallback count of a batch's summary is the number of its tickets whose model path has the
-- component `fallback`.
pub fallback-summary_of :
    (snapshots : Dict TicketSnapshot)
    → fallback_model_path_count (summary_of snapshots)
      ≡ count_if (λ s. has_fallback (path_of s)) (values snapshots)
unfolding fallback_model_path_count summary_of model_path_histogram
fallback-summary_of snapshots =
    let paths = map path_of (values snapshots) in
    let keys = sort_by text_order (to_set paths) in
    fallback_count-put (length paths) (counts paths)
    ∙ fallback_count-tally paths keys
        (All-impl (λ x. listed x paths ≡ true) (λ x. listed x keys ≡ true) paths
          (λ x here. listed-sort_by text_order x (to_set paths) ∙ listed-to_set x paths ∙ here)
          (All-exists_self is_text paths (λ v. ==_refl v)))
        (sort_by-Distinct text_order (to_set paths) (to_set-Distinct paths))
    ∙ count_if-map (values snapshots)
