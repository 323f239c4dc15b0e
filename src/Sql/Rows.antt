-- ===== src/Sql/Rows.antt =====
-- Which rows are there after a statement, and what the rows that it returns satisfy.
use ticket_graph.Prelude.{
  ◌≡◌, refl, inl, inr, Bool, true, false, ◌||◌, some, List, [], ◌∷◌, ◌++◌, arith, All, Bool-cases,
  nat_eq, string_eq, map,
}
use ticket_graph.Sql.{update_where, updated, exists_where, select_where, delete_where, fetchone}

module _ {ℓ} {A : Type ℓ} (p : A → Bool) (f : A → A) where
  pub All-updated {κ} :
      (P : A → Type κ) (xs : List A) → ((x : A) → p x ≡ true → P (f x)) → All P (updated p f xs)
  unfolding updated
  All-updated P [] h = tt
  All-updated P (x ∷ xs) h = elim (Bool-cases (p x)) [
    | inl e ↦ rw e (h x e, All-updated P xs h)
    | inr e ↦ rw e (All-updated P xs h)
  ]

  pub All-updated_of {κ} :
      (P : A → Type κ) (xs : List A) → ((x : A) → P x → P (f x)) → All P xs → All P (updated p f xs)
  unfolding updated
  All-updated_of P [] keep h = tt
  All-updated_of P (x ∷ xs) keep h = elim (Bool-cases (p x)) [
    | inl e ↦ rw e (keep x h.0, All-updated_of P xs keep h.1)
    | inr e ↦ rw e (All-updated_of P xs keep h.1)
  ]

  pub exists-updated :
      (q : A → Bool) (xs : List A) {r : A}
      → ((x : A) → p x ≡ true → q (f x) ≡ true)
      → fetchone (updated p f xs) ≡ some r
      → exists_where q (update_where p f xs) ≡ true
  unfolding updated exists_where update_where
  exists-updated q [] h e = cc
  exists-updated q (x ∷ xs) h e = elim (Bool-cases (p x)) [
    | inl hit ↦ rw hit (rw (h x hit))
    | inr miss ↦ ground (arith, exists-updated q xs h (rw miss at e))
  ]

  pub exists-update :
      (q : A → Bool) (xs : List A)
      → ((x : A) → q (f x) ≡ q x)
      → exists_where q (update_where p f xs) ≡ exists_where q xs
  unfolding exists_where update_where
  exists-update q [] same = refl
  exists-update q (x ∷ xs) same = ground (arith, exists-update q xs same, same x)

module _ {ℓ} {A : Type ℓ} (p : A → Bool) where
  pub All-of_delete_where {κ} :
      (P : A → Type κ) (xs : List A)
      → ((x : A) → p x ≡ true → P x)
      → All P (delete_where p xs)
      → All P xs
  unfolding delete_where
  All-of_delete_where P [] hit h = tt
  All-of_delete_where P (x ∷ xs) hit h = elim (Bool-cases (p x)) [
    | inl e ↦ (hit x e, All-of_delete_where P xs hit (rw e at h))
    | inr e ↦
        let h' : P x × All P (delete_where p xs) = rw e at h in
        (h'.0, All-of_delete_where P xs hit h'.1)
  ]

  pub exists-none : (xs : List A) → All (λ x. p x ≡ false) xs → exists_where p xs ≡ false
  unfolding exists_where
  exists-none [] h = refl
  exists-none (x ∷ xs) h = rw (h.0) (exists-none xs h.1)

  pub delete_where-nil : (xs : List A) → All (λ x. p x ≡ true) xs → delete_where p xs ≡ []
  unfolding delete_where
  delete_where-nil [] h = refl
  delete_where-nil (x ∷ xs) h = rw (h.0) (delete_where-nil xs h.1)

  pub fetched {κ} :
      (P : A → Type κ) (xs : List A)
      → exists_where p xs ≡ true
      → All P xs
      → (x : A) × (fetchone (select_where p xs) ≡ some x) × P x
  unfolding exists_where select_where
  fetched P [] e h = absurd cc
  fetched P (x ∷ xs) e h = elim (Bool-cases (p x)) [
    | inl hit ↦ (x, rw hit, h.0)
    | inr miss ↦
        let (y, found, holds) = fetched P xs (rw miss at e) h.1 in (y, rw miss found, holds)
  ]

module _ {ℓ} {A : Type ℓ} (p : A → Bool) where
  pub exists-append :
      (xs ys : List A) → exists_where p (xs ++ ys) ≡ (exists_where p xs || exists_where p ys)
  unfolding exists_where
  exists-append [] ys = refl
  exists-append (x ∷ xs) ys = ground (arith, exists-append xs ys)

  pub exists-split :
      (q : A → Bool) (xs : List A)
      → exists_where p xs
        ≡ (exists_where p (delete_where q xs) || exists_where p (select_where q xs))
  unfolding exists_where delete_where select_where
  exists-split q [] = refl
  exists-split q (x ∷ xs) = ground (arith, exists-split q xs)

module _ {ℓ ℓ' κ} {A : Type ℓ} {B : Type ℓ'} (f : A → B) (P : B → Type κ) where
  pub All-of_map : (xs : List A) → All P (map f xs) → All (λ x. P (f x)) xs
  All-of_map [] h = tt
  All-of_map (x ∷ xs) h = (h.0, All-of_map xs h.1)

  pub All-map : (xs : List A) → All (λ x. P (f x)) xs → All P (map f xs)
  All-map [] h = tt
  All-map (x ∷ xs) h = (h.0, All-map xs h.1)
