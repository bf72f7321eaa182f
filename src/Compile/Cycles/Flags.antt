-- ===== src/Compile/Cycles/Flags.antt =====
-- Vectors of flags, and sums over the relations.
use axiom_rules_engine.Prelude.{
  ℕ, zero, suc, ◌+◌, ◌≤◌, ◌<◌, ◌≡◌, ◌≢◌, refl, Bool, true, false, List, [], ◌∷◌, length, set, arith,
  replicate, ap,
}
use native.Mathlib.Decide.{ℕ_discrete}
use axiom_rules_engine.Compile.Cycles.{flag}

pub flag-set_self :
    (flags : List Bool) (u : ℕ) (b : Bool) → u < length flags → flag (set flags u b) u ≡ b
flag-set_self [] u b h = absurd (omega arith)
flag-set_self (f ∷ flags) zero b h = refl
flag-set_self (f ∷ flags) (suc u) b h = flag-set_self flags u b (omega arith)

pub flag-set_ne :
    (flags : List Bool) (u v : ℕ) (b : Bool) → u ≢ v → flag (set flags u b) v ≡ flag flags v
flag-set_ne [] u v b h = refl
flag-set_ne (f ∷ flags) zero zero b h = absurd (h refl)
flag-set_ne (f ∷ flags) zero (suc v) b h = refl
flag-set_ne (f ∷ flags) (suc u) zero b h = refl
flag-set_ne (f ∷ flags) (suc u) (suc v) b h = flag-set_ne flags u v b (λ e. h (ap suc e))

-- A flag set stays set.
pub flag-set-true :
    (flags : List Bool) (u v : ℕ) → flag flags v ≡ true → flag (set flags u true) v ≡ true
flag-set-true [] u v h = cc
flag-set-true (f ∷ flags) zero zero h = refl
flag-set-true (f ∷ flags) zero (suc v) h = h
flag-set-true (f ∷ flags) (suc u) zero h = h
flag-set-true (f ∷ flags) (suc u) (suc v) h = flag-set-true flags u v h

pub flag-replicate : (n u : ℕ) → flag (replicate n false) u ≡ false
flag-replicate zero u = refl
flag-replicate (suc n) zero = refl
flag-replicate (suc n) (suc u) = flag-replicate n u

-- The sum of `f` over the numbers below `n`.
unfoldable pub sum_below : ℕ → (ℕ → ℕ) → ℕ
sum_below zero f = 0
sum_below (suc n) f = f n + sum_below n f

pub sum_below-le : (n : ℕ) (f g : ℕ → ℕ) → ((u : ℕ) → f u ≤ g u) → sum_below n f ≤ sum_below n g
unfolding sum_below
sum_below-le zero f g h = omega arith
sum_below-le (suc n) f g h = omega (arith, h n, sum_below-le n f g h)

-- A term that falls takes its difference off the sum.
pub sum_below-fall :
    (n : ℕ) (f g : ℕ → ℕ) (d : ℕ)
    → d < n
    → ((u : ℕ) → f u ≤ g u)
    → sum_below n f + g d ≤ sum_below n g + f d
unfolding sum_below
sum_below-fall zero f g d b h = absurd (omega arith)
sum_below-fall (suc n) f g d b h = elim (ℕ_discrete d n) [
  | yes same ↦ rw same (omega (arith, sum_below-le n f g h))
  | no other ↦ omega (arith, h n, sum_below-fall n f g d (omega arith) h)
]

-- The sum without its first term.
pub sum_below-suc : (n : ℕ) (f : ℕ → ℕ) → sum_below (suc n) f ≡ f 0 + sum_below n (λ u. f (suc u))
unfolding sum_below
sum_below-suc zero f = refl
sum_below-suc (suc n) f = omega (arith, sum_below-suc n f)
