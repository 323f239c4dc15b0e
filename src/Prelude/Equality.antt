-- ===== src/Prelude/Equality.antt =====
-- `==` at the types that the program compares.
use Prim.Native.Nat.{ℕ}
use Prim.Native.String.{String}
use mathlib.Core.Path.{◌≡◌, refl}
use mathlib.Core.Logic.{◌↔◌, ◌≢◌}
use mathlib.Core.Bool.{Bool, true, false}
use native.Mathlib.Omega.{arith}
use text.Mathlib.Text.{◌==◌ as str_eq}
use text.Mathlib.TextEquality.{eq_iff}
use ticket_graph.Prelude.Tests.{nat_beq, nat_beq_iff}

-- A type whose values the program tests for equality.
pub record Eq {μ} (K : Type μ) : Type μ where
  pub same : K → K → Bool
  pub same_iff : (k m : K) → (same k m ≡ true) ↔ (k ≡ m)

infix 50 ◌==◌
abbrev pub ◌==◌ {μ} : {K : Type μ} ⦃keys : Eq K⦄ → K → K → Bool
◌==◌ ⦃keys⦄ k m = keys.same k m

module _ {μ} {K : Type μ} ⦃keys : Eq K⦄ where
  pub ==_refl : (k : K) → (k == k) ≡ true
  ==_refl k = (keys.same_iff k k).1 refl

  pub ne_of_== : (k m : K) → (k == m) ≡ false → k ≢ m
  ne_of_== k m h p = ground (arith, (keys.same_iff k m).1 p)

  pub ==_iff : (k m : K) → ((k == m) ≡ true) ↔ (k ≡ m)
  ==_iff k m = keys.same_iff k m

instance abbrev pub string_eq : Eq String
string_eq = record { same = str_eq; same_iff = eq_iff }

instance abbrev pub nat_eq : Eq ℕ
nat_eq = record { same = nat_beq; same_iff = nat_beq_iff }
