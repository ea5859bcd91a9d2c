-- ===== src/Prelude/Equality.antt =====
-- Equality tests for the types whose equality is decided. The deciders stay shut in proofs: a
-- split on `a == b` yields the equation or its negation.
use Prim.Native.Nat.{ℕ}
use mathlib.Core.Path.{◌≡◌, refl}
use mathlib.Core.Logic.{ite}
use mathlib.Core.Bool.{Bool, true, false, ◌&&◌}
use mathlib.Core.Logic.{◌↔◌, dite}
use mathlib.Core.List.{List, [], ◌∷◌}
use mathlib.Core.Bool.{Bool-discrete}
use native.Mathlib.Omega.{arith}
use Prim.Native.Nat.{compare, Ordering}

pub record Eq {ℓ} (A : Type ℓ) : Type ℓ where
  pub dec : Discrete A

infix 50 ◌==◌
abbrev pub ◌==◌ {ℓ} : {X : Type ℓ} ⦃decider : Eq X⦄ → X → X → Bool
◌==◌ ⦃decider⦄ x y = ite (decider.dec x y) true false

abbrev pub same_number : ℕ → ℕ → Bool
same_number a b = elim (compare a b) [ Ordering.eq ↦ true | _ ↦ false ]

unfoldable pub same_bytes : List ℕ → List ℕ → Bool
same_bytes [] [] = true
same_bytes [] (_ ∷ _) = false
same_bytes (_ ∷ _) [] = false
same_bytes (x ∷ xs) (y ∷ ys) = same_number x y && same_bytes xs ys

pub same_bytes_iff : (xs ys : List ℕ) → (same_bytes xs ys ≡ true) ↔ (xs ≡ ys)
unfolding same_bytes
same_bytes_iff [] [] = (λ _. refl, λ _. refl)
same_bytes_iff [] (y ∷ ys) = (λ e. cc, λ e. cc)
same_bytes_iff (x ∷ xs) [] = (λ e. cc, λ e. cc)
same_bytes_iff (x ∷ xs) (y ∷ ys) = ground (arith, same_bytes_iff xs ys)

pub bytes_discrete : Discrete (List ℕ)
unfolding same_bytes
bytes_discrete xs ys =
    dite (Bool-discrete (same_bytes xs ys) true) (λ e. yes ((same_bytes_iff xs ys).0 e))
      (λ n. no (λ p. n ((same_bytes_iff xs ys).1 p)))

instance unfoldable pub bytes_eq : Eq (List ℕ)
unfolding bytes_discrete
bytes_eq = record { dec = bytes_discrete }
