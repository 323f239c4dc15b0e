-- ===== src/Sql/Pick.antt =====
-- What ORDER BY with LIMIT 1 picks, and the row that a unique key finds.
use ticket_graph.Prelude.{
  ℕ, ◌≤◌, ◌≡◌, ◌⊎◌, refl, Bool, true, some, none, List, [], ◌∷◌, arith, All, All-impl, Distinct,
  Distinct-unique, Bool-cases, Option-cases, inl, inr, ◌++◌, false, is_some,
}
use ticket_graph.Sql.{update_where, select_where, updated, exists_where, fetchone, first_by}
use ticket_graph.Sql.Laws.{All-select_where, select-update_eq}

module _ {ℓ} {A : Type ℓ} (key : A → ℕ) where
  pub first_by-None : (xs : List A) → first_by key xs ≡ none → xs ≡ []
  unfolding first_by
  first_by-None [] h = refl
  first_by-None (x ∷ xs) h = cc

  first_by-le :
      (y : A) (ys : List A) (x : A)
      → first_by key (y ∷ ys) ≡ some x
      → (key x ≤ key y) × ((z : A) → first_by key ys ≡ some z → key x ≤ key z)
  unfolding first_by
  first_by-le y ys x h = (ground arith, λ z e. ground arith)

  pub first_by-least :
      (xs : List A) (x : A) → first_by key xs ≡ some x → All (λ y. key x ≤ key y) xs
  first_by-least [] x h = tt
  first_by-least (y ∷ ys) x h =
      let (here, later) = first_by-le y ys x h in
      elim (Option-cases (first_by key ys)) [
        | inl e ↦ (here, rw (first_by-None ys e) tt)
        | inr (z, e) ↦ (
          here,
          All-impl (λ w. key z ≤ key w) (λ w. key x ≤ key w) ys (λ w k. omega (arith, later z e))
              (first_by-least ys z e),
        )
      ]

module _ {ℓ κ} {A : Type ℓ} (key : A → ℕ) (P : A → Type κ) where
  first_by-or :
      (y : A) (ys : List A) (x : A)
      → first_by key (y ∷ ys) ≡ some x
      → (x ≡ y) ⊎ (first_by key ys ≡ some x)
  unfolding first_by
  first_by-or y ys x h = ground arith

  pub All-first_by : (xs : List A) (x : A) → All P xs → first_by key xs ≡ some x → P x
  All-first_by [] x h e = unfold first_by in cc
  All-first_by (y ∷ ys) x h e = elim (first_by-or y ys x e) [
    | inl here ↦ rw here h.0
    | inr later ↦ All-first_by ys x h.1 later
  ]

module _ {ℓ κ} {A : Type ℓ} {K : Type κ} (p : A → Bool) (order : A → ℕ) (key : A → K) where
  -- The row of `SELECT ... WHERE p ORDER BY order LIMIT 1` passes `p`, and its key is its own.
  pub first_by-select :
      (xs : List A) (c : A)
      → Distinct key xs
      → first_by order (select_where p xs) ≡ some c
      → (p c ≡ true) × All (λ r. key r ≡ key c → r ≡ c) xs
  first_by-select xs c d e =
      All-first_by order (λ c. (p c ≡ true) × All (λ r. key r ≡ key c → r ≡ c) xs)
        (select_where p xs) c
        (All-select_where (λ c. All (λ r. key r ≡ key c → r ≡ c) xs) p xs
          (Distinct-unique key xs d))
        e

module _ {ℓ} {A : Type ℓ} (test : A → A → Bool) where
  exists-head : (x : A) (xs : List A) → test x x ≡ true → exists_where (test x) (x ∷ xs) ≡ true
  unfolding exists_where
  exists-head x xs h = rw h

  exists-tail :
      (x c : A) (xs : List A)
      → exists_where (test c) xs ≡ true
      → exists_where (test c) (x ∷ xs) ≡ true
  unfolding exists_where
  exists-tail x c xs h = ground arith

  -- Every row is found by a test that it passes itself.
  pub All-exists_self :
      (xs : List A) → ((x : A) → test x x ≡ true) → All (λ c. exists_where (test c) xs ≡ true) xs
  All-exists_self [] self = tt
  All-exists_self (x ∷ xs) self = (
    exists-head x xs (self x),
    All-impl (λ c. exists_where (test c) xs ≡ true) (λ c. exists_where (test c) (x ∷ xs) ≡ true) xs
        (λ c h. exists-tail x c xs h) (All-exists_self xs self),
  )

module _ {ℓ} {A : Type ℓ} (p : A → Bool) (f : A → A) (c : A) where
  -- The RETURNING of an UPDATE whose WHERE one row passes.
  pub fetchone-updated :
      (xs : List A)
      → exists_where p xs ≡ true
      → All (λ r. p r ≡ true → r ≡ c) xs
      → fetchone (updated p f xs) ≡ some (f c)
  unfolding exists_where updated
  fetchone-updated [] h only = cc
  fetchone-updated (x ∷ xs) h only = elim (Bool-cases (p x)) [
    | inl e ↦ rw e (rw (only.0 e))
    | inr e ↦ rw e (fetchone-updated xs (ground arith) only.1)
  ]

module _ {ℓ κ} {A : Type ℓ} (P : A → Type κ) (p : A → Bool) (c : A) where
  pub All-exists :
      (xs : List A) → exists_where p xs ≡ true → All (λ r. p r ≡ true → r ≡ c) xs → All P xs → P c
  unfolding exists_where
  All-exists [] h only a = cc
  All-exists (x ∷ xs) h only a = elim (Bool-cases (p x)) [
    | inl e ↦ rw (← only.0 e) a.0
    | inr e ↦ All-exists xs (ground arith) only.1 a.1
  ]

module _ {ℓ} {A : Type ℓ} (p q : A → Bool) (f : A → A) (r : A) where
  updated-select :
      (xs : List A)
      → ((x : A) → p x ≡ true → q x ≡ true)
      → updated p f xs ≡ updated p f (select_where q xs)
  unfolding updated select_where
  updated-select [] within = refl
  updated-select (x ∷ xs) within = ground (arith, updated-select xs within, within x)

  -- An UPDATE within the rows of `q`, where the one such row passes its WHERE.
  pub read-update :
      (xs : List A)
      → ((x : A) → q (f x) ≡ q x)
      → select_where q xs ≡ r ∷ []
      → p r ≡ true
      → select_where q (update_where p f xs) ≡ f r ∷ []
  read-update xs same h hit = rw (select-update_eq p q f xs same, h) (unfold update_where in rw hit)

  pub updated-read :
      (xs : List A)
      → ((x : A) → p x ≡ true → q x ≡ true)
      → select_where q xs ≡ r ∷ []
      → p r ≡ true
      → updated p f xs ≡ f r ∷ []
  updated-read xs within h hit = rw (updated-select xs within, h) (unfold updated in rw hit)

  -- ... and where it does not.
  pub updated-miss :
      (xs : List A)
      → ((x : A) → p x ≡ true → q x ≡ true)
      → select_where q xs ≡ r ∷ []
      → p r ≡ false
      → updated p f xs ≡ []
  updated-miss xs within h miss = rw (updated-select xs within, h) (unfold updated in rw miss)

module _ {ℓ} {A : Type ℓ} (p : A → Bool) (f : A → A) where
  -- An UPDATE that no row passes changes nothing.
  pub update_none : (xs : List A) → updated p f xs ≡ [] → update_where p f xs ≡ xs
  unfolding update_where updated
  update_none [] h = refl
  update_none (x ∷ xs) h = ground (arith, update_none xs)

module _ {ℓ} {A : Type ℓ} (p : A → Bool) (y : A) where
  pub exists-insert : (xs : List A) → p y ≡ true → exists_where p (xs ++ y ∷ []) ≡ true
  unfolding exists_where
  exists-insert [] h = rw h
  exists-insert (x ∷ xs) h = ground (arith, exists-insert xs)

module _ {ℓ} {A : Type ℓ} (p : A → Bool) (y : A) where
  pub exists-insert_old :
      (xs : List A) → exists_where p xs ≡ true → exists_where p (xs ++ y ∷ []) ≡ true
  unfolding exists_where
  exists-insert_old [] h = cc
  exists-insert_old (x ∷ xs) h = ground (arith, exists-insert_old xs)

module _ {ℓ} {A : Type ℓ} (p : A → Bool) where
  pub select-exists : (xs : List A) → is_some (fetchone (select_where p xs)) ≡ exists_where p xs
  unfolding select_where exists_where
  select-exists [] = refl
  select-exists (x ∷ xs) = ground (arith, select-exists xs)
