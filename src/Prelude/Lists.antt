-- ===== src/Prelude/Lists.antt =====
-- Lists measured by native numbers, and the predicates by recursion over them.
use Prim.Native.Nat.{ℕ, suc, ◌+◌}
use native.Mathlib.Omega.{arith}
use mathlib.Core.Logic.{◌≢◌}
use mathlib.Core.Path.{◌≡◌, refl, sym}
use mathlib.Core.List.{List, [], ◌∷◌, ◌++◌}

abbrev pub length {ℓ} : {A : Type ℓ} → List A → ℕ
length [] = 0
length (x ∷ xs) = suc (length xs)

-- Every element satisfies `P`.
module _ {ℓ κ} {A : Type ℓ} (Holds : A → Type κ) where
  abbrev pub All : List A → Type κ
  All [] = Unit
  All (row ∷ rest) = Holds row × All rest

-- No two elements have the same key.
abbrev pub Distinct {ℓ κ} : {A : Type ℓ} {K : Type κ} → (A → K) → List A → Type κ
Distinct key [] = Unit
Distinct key (x ∷ xs) = All (λ y. key y ≢ key x) xs × Distinct key xs

module _ {ℓ κ} {A : Type ℓ} where
  pub All-append :
      (P : A → Type κ) (front back : List A) → All P front → All P back → All P (front ++ back)
  All-append P [] back _ hb = hb
  All-append P (_ ∷ front) back (p, ps) hb = (p, All-append P front back ps hb)

module _ {ℓ κ μ} {A : Type ℓ} where
  pub All-impl :
      (P : A → Type κ) (Q : A → Type μ) (xs : List A) → ((x : A) → P x → Q x) → All P xs → All Q xs
  All-impl P Q [] f h = tt
  All-impl P Q (x ∷ xs) f h = (f x h.0, All-impl P Q xs f h.1)

module _ {ℓ κ} {A : Type ℓ} where
  pub All-intro : (P : A → Type κ) (xs : List A) → ((x : A) → P x) → All P xs
  All-intro P [] f = tt
  All-intro P (x ∷ xs) f = (f x, All-intro P xs f)

module _ {ℓ κ μ} {A : Type ℓ} where
  pub All-zip :
      (P : A → Type κ) (Q : A → Type μ) (xs : List A)
      → All P xs
      → All Q xs
      → All (λ x. P x × Q x) xs
  All-zip P Q [] h k = tt
  All-zip P Q (x ∷ xs) h k = ((h.0, k.0), All-zip P Q xs h.1 k.1)

module _ {ℓ κ} {A : Type ℓ} {K : Type κ} where
  -- Where keys are distinct, a key names one element.
  pub Distinct-unique :
      (key : A → K) (xs : List A)
      → Distinct key xs
      → All (λ c. All (λ r. key r ≡ key c → r ≡ c) xs) xs
  Distinct-unique key [] d = tt
  Distinct-unique key (x ∷ xs) d = (
    (λ _. refl, All-impl _ _ xs (λ r h e. absurd (h e)) d.0),
    All-impl _ _ xs (λ c h. (λ e. absurd (h.0 (sym e)), h.1))
        (All-zip _ _ xs d.0 (Distinct-unique key xs d.1)),
  )

module _ {ℓ} {A : Type ℓ} where
  pub length-insert : (xs : List A) (y : A) → length (xs ++ y ∷ []) ≡ length xs + 1
  length-insert [] y = omega arith
  length-insert (_ ∷ xs) y = omega (arith, length-insert xs y)
