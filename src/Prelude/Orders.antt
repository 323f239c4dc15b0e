-- ===== src/Prelude/Orders.antt =====
-- Orders that the program sorts by, sorting, and the order of texts: by their code points, which is
-- Python's and that of `compare`.
use Prim.Native.Nat.{ℕ, Ordering, compare as compare_ℕ}
use Prim.Native.Char.{code}
use Prim.Native.String.{String, compare, then as first_of}
use Prim.Native.String.compare
use text.Mathlib.TextEquality.{path_by_compare}
use mathlib.Core.Path.{◌≡◌, refl}
use mathlib.Core.Bool.{Bool, true, false}
use mathlib.Core.List.{List, [], ◌∷◌, Perm}
use mathlib.Core.List.Perm
use mathlib.Core.Logic.{inl, inr}
use native.Mathlib.Omega.{arith}
use ticket_graph.Prelude.Tests.{if◌then◌else◌, Bool-cases}
use ticket_graph.Prelude.Lists.{All, All-impl}

-- `a <= b` as the program tests it.
pub record Order {ℓ} (A : Type ℓ) : Type ℓ where
  pub le : A → A → Bool
  pub total : (a b : A) → le a b ≡ false → le b a ≡ true
  pub trans : (a b c : A) → le a b ≡ true → le b c ≡ true → le a c ≡ true

module _ {ℓ} {A : Type ℓ} (o : Order A) where
  unfoldable pub insert_by : A → List A → List A
  insert_by x [] = x ∷ []
  insert_by x (y ∷ ys) = if o.le x y then x ∷ y ∷ ys else y ∷ insert_by x ys

  -- `sorted(xs)`, and ORDER BY: a stable sort
  unfoldable pub sort_by : List A → List A
  unfolding insert_by
  sort_by [] = []
  sort_by (x ∷ xs) = insert_by x (sort_by xs)

  -- Each element is at most all that come after it.
  abbrev pub IsSorted : List A → Type ℓ
  IsSorted [] = Unit
  IsSorted (x ∷ xs) = All (λ y. o.le x y ≡ true) xs × IsSorted xs

  pub All-insert_by {κ} :
      (P : A → Type κ) (x : A) (xs : List A) → P x → All P xs → All P (insert_by x xs)
  unfolding insert_by
  All-insert_by P x [] p h = (p, tt)
  All-insert_by P x (y ∷ ys) p h = elim (Bool-cases (o.le x y)) [
    | inl e ↦ rw e (p, h)
    | inr e ↦ rw e (h.0, All-insert_by P x ys p h.1)
  ]

  pub All-sort_by {κ} : (P : A → Type κ) (xs : List A) → All P xs → All P (sort_by xs)
  unfolding sort_by
  All-sort_by P [] h = tt
  All-sort_by P (x ∷ xs) h = All-insert_by P x (sort_by xs) h.0 (All-sort_by P xs h.1)

  insert_by-IsSorted : (x : A) (xs : List A) → IsSorted xs → IsSorted (insert_by x xs)
  unfolding insert_by
  insert_by-IsSorted x [] s = (tt, tt)
  insert_by-IsSorted x (y ∷ ys) s = elim (Bool-cases (o.le x y)) [
    | inl e ↦ rw e (
      (e, All-impl (λ z. o.le y z ≡ true) (λ z. o.le x z ≡ true) ys (λ z h. o.trans x y z e h) s.0),
      s,
    )
    | inr e ↦
        rw e (
          All-insert_by (λ z. o.le y z ≡ true) x ys (o.total x y e) s.0,
          insert_by-IsSorted x ys s.1,
        )
  ]

  pub sort_by-IsSorted : (xs : List A) → IsSorted (sort_by xs)
  unfolding sort_by
  sort_by-IsSorted [] = tt
  sort_by-IsSorted (x ∷ xs) = insert_by-IsSorted x (sort_by xs) (sort_by-IsSorted xs)

  insert_by_least : (x : A) (xs : List A) → All (λ y. o.le x y ≡ true) xs → insert_by x xs ≡ x ∷ xs
  unfolding insert_by
  insert_by_least x [] h = refl
  insert_by_least x (y ∷ ys) h = rw (h.0)

  -- A sorted list is left as it is.
  pub sort_by_sorted : (xs : List A) → IsSorted xs → sort_by xs ≡ xs
  unfolding sort_by
  sort_by_sorted [] s = refl
  sort_by_sorted (x ∷ xs) s = rw (sort_by_sorted xs s.1) (insert_by_least x xs s.0)

module _ {ℓ} {A : Type ℓ} (o : Order A) where
  insert_by-perm : (x : A) (xs : List A) → Perm (insert_by o x xs) (x ∷ xs)
  unfolding insert_by
  insert_by-perm x [] = Perm.refl (x ∷ [])
  insert_by-perm x (y ∷ ys) = elim (Bool-cases (o.le x y)) [
    | inl e ↦ rw e (Perm.refl (x ∷ y ∷ ys))
    | inr e ↦ rw e (Perm.trans (Perm.cons y (insert_by-perm x ys)) (Perm.swap x y ys))
  ]

  -- Sorting keeps the elements, each as often as it was there.
  pub sort_by-perm : (xs : List A) → Perm (sort_by o xs) xs
  unfolding sort_by
  sort_by-perm [] = Perm.refl []
  sort_by-perm (x ∷ xs) =
      Perm.trans (insert_by-perm x (sort_by o xs)) (Perm.cons x (sort_by-perm xs))

abbrev pub text_le : String → String → Bool
text_le s t = elim (compare s t) [ Ordering.gt ↦ false | _ ↦ true ]

abbrev flip : Ordering → Ordering
flip Ordering.lt = Ordering.gt
flip Ordering.eq = Ordering.eq
flip Ordering.gt = Ordering.lt

compare-flip : (s t : String) → compare t s ≡ flip (compare s t)
compare-flip String.[] String.[] = rw compare.nil-nil
compare-flip String.[] (String.◌∷◌ d t) = rw (compare.nil-cons d t, compare.cons-nil d t)
compare-flip (String.◌∷◌ c s) String.[] = rw (compare.nil-cons c s, compare.cons-nil c s)
compare-flip (String.◌∷◌ c s) (String.◌∷◌ d t) =
    rw (compare.cons-cons c d s t, compare.cons-cons d c t s, compare-flip s t)
      (both (code c) (code d) (compare s t))
  where
    both :
        (a b : ℕ) (o : Ordering)
        → first_of (compare_ℕ b a) (flip o) ≡ flip (first_of (compare_ℕ a b) o)
    both a b o = ground arith

abbrev not_gt : Ordering → Bool
not_gt Ordering.gt = false
not_gt _ = true

-- The step of `text_le_trans`: the first characters, and then the answers for the rests.
first_of_trans :
    (a b c : ℕ) (o p q : Ordering)
    → (not_gt o ≡ true → not_gt p ≡ true → not_gt q ≡ true)
    → not_gt (first_of (compare_ℕ a b) o) ≡ true
    → not_gt (first_of (compare_ℕ b c) p) ≡ true
    → not_gt (first_of (compare_ℕ a c) q) ≡ true
first_of_trans a b c o p q rest h k = ground arith

pub text_le_trans : (s t u : String) → text_le s t ≡ true → text_le t u ≡ true → text_le s u ≡ true
text_le_trans String.[] t String.[] h k = refl
text_le_trans String.[] t (String.◌∷◌ e u) h k = rw (compare.nil-cons e u, text_le)
text_le_trans (String.◌∷◌ c s) String.[] u h k =
    absurd (cc (rw (compare.cons-nil c s, text_le) at h))
text_le_trans (String.◌∷◌ c s) (String.◌∷◌ d t) String.[] h k =
    absurd (cc (rw (compare.cons-nil d t, text_le) at k))
text_le_trans (String.◌∷◌ c s) (String.◌∷◌ d t) (String.◌∷◌ e u) h k =
    rw (compare.cons-cons c e s u, text_le)
      (first_of_trans (code c) (code d) (code e) (compare s t) (compare t u) (compare s u)
        (text_le_trans s t u) (rw (compare.cons-cons c d s t, text_le) at h)
        (rw (compare.cons-cons d e t u, text_le) at k))

pub text_le_total : (s t : String) → text_le s t ≡ false → text_le t s ≡ true
text_le_total s t h = ground (arith, compare-flip s t)

-- Texts that are at most one another are equal.
pub text_le_antisym : (s t : String) → text_le s t ≡ true → text_le t s ≡ true → s ≡ t
text_le_antisym s t h k = path_by_compare s t (ground (arith, compare-flip s t))

abbrev pub text_order : Order String
text_order = record { le = text_le; total = text_le_total; trans = text_le_trans }
