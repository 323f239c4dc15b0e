-- ===== src/Scripts/Dict.antt =====
-- A Python dict keyed by texts, in the order of insertion.
use ticket_graph.Prelude.{
  String, ◌≡◌, inl, inr, false, Option, none, some, List, [], ◌∷◌, if◌then◌else◌, Bool-cases, ◌==◌,
  nat_eq, string_eq, ==_iff, ==_refl, map,
}

abbrev pub Dict {ℓ} : Type ℓ → Type ℓ
Dict V = List (String × V)

module _ {ℓ} {V : Type ℓ} where
  -- `d.get(k)`
  unfoldable pub find : String → Dict V → Option V
  find k [] = none
  find k ((j, v) ∷ d) = if j == k then some v else find k d

  -- `d[k] = v`
  unfoldable pub put : String → V → Dict V → Dict V
  put k v [] = (k, v) ∷ []
  put k v ((j, w) ∷ d) = if j == k then (k, v) ∷ d else (j, w) ∷ put k v d

  abbrev pub values : Dict V → List V
  values d = map (λ e. e.1) d

  pub find-put_self : (k : String) (v : V) (d : Dict V) → find k (put k v d) ≡ some v
  unfolding find put
  find-put_self k v [] = rw (==_refl k)
  find-put_self k v ((j, w) ∷ d) = elim (Bool-cases (j == k)) [
    | inl e ↦ rw e (rw (==_refl k))
    | inr e ↦ rw e (rw e (find-put_self k v d))
  ]

  pub find-put_ne :
      (i k : String) (v : V) (d : Dict V) → (k == i) ≡ false → find i (put k v d) ≡ find i d
  unfolding find put
  find-put_ne i k v [] h = rw h
  find-put_ne i k v ((j, w) ∷ d) h = elim (Bool-cases (j == k)) [
    | inl e ↦ rw (e, h) (rw ((==_iff j k).0 e, h))
    | inr e ↦ rw e (rw (find-put_ne i k v d h))
  ]
