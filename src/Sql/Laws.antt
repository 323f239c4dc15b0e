-- ===== src/Sql/Laws.antt =====
-- What the clauses of `Sql` keep, and which row a unique key finds after them.
use ticket_graph.Prelude.{
  ◌≡◌, ◌≢◌, refl, sym, Bool, true, false, List, [], ◌∷◌, ◌++◌, arith, All, All-append, All-intro,
  Distinct, if◌then◌else◌, Bool-cases, inl, inr,
}
use mathlib.Core.Path.{subst}
use ticket_graph.Sql.{select_where, update_where, delete_where, exists_where}

module _ {ℓ κ} {A : Type ℓ} (P : A → Type κ) (p : A → Bool) where
  pub All-update_of :
      (f : A → A) (xs : List A)
      → All (λ x. p x ≡ true → P x → P (f x)) xs
      → All P xs
      → All P (update_where p f xs)
  unfolding update_where
  All-update_of f [] keep h = tt
  All-update_of f (x ∷ xs) keep h = (row, All-update_of f xs keep.1 h.1)
    where
      row : P (if p x then f x else x)
      row = elim (Bool-cases (p x)) [ inl e ↦ rw e (keep.0 e h.0) | inr e ↦ rw e h.0 ]

  pub All-update_where :
      (f : A → A) (xs : List A)
      → ((x : A) → p x ≡ true → P x → P (f x))
      → All P xs
      → All P (update_where p f xs)
  All-update_where f xs keep h =
      All-update_of f xs (All-intro (λ x. p x ≡ true → P x → P (f x)) xs keep) h

  -- What the hit rows satisfy after an UPDATE, and the others before it.
  pub All-update_cases :
      (f : A → A) (xs : List A)
      → ((x : A) → p x ≡ true → P (f x))
      → ((x : A) → p x ≡ false → P x)
      → All P (update_where p f xs)
  unfolding update_where
  All-update_cases f [] hit miss = tt
  All-update_cases f (x ∷ xs) hit miss = (row, All-update_cases f xs hit miss)
    where
      row : P (if p x then f x else x)
      row = elim (Bool-cases (p x)) [ inl e ↦ rw e (hit x e) | inr e ↦ rw e (miss x e) ]

  pub All-delete_where : (xs : List A) → All P xs → All P (delete_where p xs)
  unfolding delete_where
  All-delete_where [] h = tt
  All-delete_where (x ∷ xs) h = elim (Bool-cases (p x)) [
    | inl e ↦ rw e (All-delete_where xs h.1)
    | inr e ↦ rw e (h.0, All-delete_where xs h.1)
  ]

  pub All-select_where :
      (xs : List A) → All P xs → All (λ x. (p x ≡ true) × P x) (select_where p xs)
  unfolding select_where
  All-select_where [] h = tt
  All-select_where (x ∷ xs) h = elim (Bool-cases (p x)) [
    | inl e ↦ rw e ((e, h.0), All-select_where xs h.1)
    | inr e ↦ rw e (All-select_where xs h.1)
  ]

  pub All-of_exists_where :
      (xs : List A) → exists_where p xs ≡ false → ((x : A) → p x ≡ false → P x) → All P xs
  unfolding exists_where
  All-of_exists_where [] h f = tt
  All-of_exists_where (x ∷ xs) h f = elim (Bool-cases (p x)) [
    | inl e ↦ cc
    | inr e ↦ (f x e, All-of_exists_where xs (ground arith) f)
  ]

module _ {ℓ κ} {A : Type ℓ} {K : Type κ} (key : A → K) (p : A → Bool) where
  pub Distinct-update_where :
      (f : A → A) (xs : List A)
      → ((x : A) → key (f x) ≡ key x)
      → Distinct key xs
      → Distinct key (update_where p f xs)
  unfolding update_where
  Distinct-update_where f [] keep d = tt
  Distinct-update_where f (x ∷ xs) keep d = (
    rw same (All-update_where (λ y. key y ≢ key x) p f xs (λ y _ h. rw (keep y) h) d.0),
    Distinct-update_where f xs keep d.1,
  )
    where
      same : key (if p x then f x else x) ≡ key x
      same = elim (Bool-cases (p x)) [ inl e ↦ rw e (keep x) | inr e ↦ rw e ]

  pub Distinct-delete_where : (xs : List A) → Distinct key xs → Distinct key (delete_where p xs)
  unfolding delete_where
  Distinct-delete_where [] d = tt
  Distinct-delete_where (x ∷ xs) d = elim (Bool-cases (p x)) [
    | inl e ↦ rw e (Distinct-delete_where xs d.1)
    | inr e ↦ rw e (All-delete_where (λ y. key y ≢ key x) p xs d.0, Distinct-delete_where xs d.1)
  ]

module _ {ℓ κ} {A : Type ℓ} {K : Type κ} (key : A → K) where
  pub Distinct-insert :
      (xs : List A) (y : A)
      → All (λ x. key x ≢ key y) xs
      → Distinct key xs
      → Distinct key (xs ++ y ∷ [])
  Distinct-insert [] y h d = (tt, tt)
  Distinct-insert (x ∷ xs) y h d = (
    All-append (λ z. key z ≢ key x) xs (y ∷ []) d.0 (λ e. h.0 (sym e), tt),
    Distinct-insert xs y h.1 d.1,
  )

module _ {ℓ} {A : Type ℓ} (p q : A → Bool) (f : A → A) where
  -- A statement that does not touch the rows of `q` leaves what is read under `q`.
  pub select-update_ne :
      (xs : List A)
      → ((x : A) → q (f x) ≡ q x)
      → ((x : A) → q x ≡ true → p x ≡ false)
      → select_where q (update_where p f xs) ≡ select_where q xs
  unfolding select_where update_where
  select-update_ne [] keep off = refl
  select-update_ne (x ∷ xs) keep off = ground (arith, select-update_ne xs keep off, keep x, off x)

  -- A statement that hits every row of `q` rewrites what is read under `q`.
  pub select-update_eq :
      (xs : List A)
      → ((x : A) → q (f x) ≡ q x)
      → select_where q (update_where p f xs) ≡ update_where p f (select_where q xs)
  unfolding select_where update_where
  select-update_eq [] keep = refl
  select-update_eq (x ∷ xs) keep = ground (arith, select-update_eq xs keep, keep x)

module _ {ℓ} {A : Type ℓ} (q : A → Bool) where
  pub select-insert :
      (xs : List A) (y : A)
      → select_where q (xs ++ y ∷ []) ≡ select_where q xs ++ (if q y then y ∷ [] else [])
  unfolding select_where
  select-insert [] y = ground arith
  select-insert (x ∷ xs) y = ground (arith, select-insert xs y)

  pub exists-select : (xs : List A) → exists_where q xs ≡ false → select_where q xs ≡ []
  unfolding select_where exists_where
  exists-select [] h = refl
  exists-select (x ∷ xs) h = ground (arith, exists-select xs)

  pub select-delete_ne :
      (p : A → Bool) (xs : List A)
      → ((x : A) → q x ≡ true → p x ≡ false)
      → select_where q (delete_where p xs) ≡ select_where q xs
  unfolding select_where delete_where
  select-delete_ne p [] off = refl
  select-delete_ne p (x ∷ xs) off = ground (arith, select-delete_ne p xs off, off x)

module _ {ℓ κ} {A : Type ℓ} (P : A → Type κ) (q : A → Bool) where
  pub All-of_select_where :
      (xs : List A) → All P (select_where q xs) → All (λ x. q x ≡ true → P x) xs
  unfolding select_where
  All-of_select_where [] h = tt
  All-of_select_where (x ∷ xs) h = elim (Bool-cases (q x)) [
    | inl e ↦
        let h' : P x × All P (select_where q xs) = rw e at h in
        (λ _. h'.0, All-of_select_where xs h'.1)
    | inr e ↦ (λ t. cc, All-of_select_where xs (rw e at h))
  ]

  -- What holds of every row holds of the one that is read.
  pub All-read : (xs : List A) (r : A) → All P xs → select_where q xs ≡ r ∷ [] → (q r ≡ true) × P r
  All-read xs r h e =
      (subst (λ ys. All (λ x. (q x ≡ true) × P x) ys) e (All-select_where P q xs h)).0

module _ {ℓ} {A : Type ℓ} (q : A → Bool) where
  pub All-of_select-nil : (xs : List A) → select_where q xs ≡ [] → All (λ x. q x ≡ false) xs
  unfolding select_where
  All-of_select-nil [] h = tt
  All-of_select-nil (x ∷ xs) h = elim (Bool-cases (q x)) [
    | inl e ↦ absurd (ground arith)
    | inr e ↦ (e, All-of_select-nil xs (rw e at h))
  ]
