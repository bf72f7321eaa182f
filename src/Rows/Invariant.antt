-- ===== src/Rows/Invariant.antt =====
-- The well-formedness of a `RowMask`, and that what builds a mask keeps it.
use axiom_rules_engine.Prelude.{
  ℕ, zero, suc, ◌≤◌, ◌<◌, ◌≡◌, refl, ◌⊎◌, inl, inr, Bool, true, false, Option, none, some, List, [],
  ◌∷◌, arith, ◌==◌, ltb, length, get_or, Bool-cases,
}
use axiom_rules_engine.Rows.Mask.{RowMask, count_true, from_bits, contains}

-- Bits are kept only where some rows are active and some are not.
abbrev pub ValidBits : ℕ → ℕ → Option (List Bool) → Type 0
ValidBits len count none = (count ≡ 0) ⊎ (count ≡ len)
ValidBits len count (some bits) =
    (length bits ≡ len) × (count_true bits ≡ count) × (0 < count) × (count < len)

abbrev pub IsValid : RowMask → Type 0
IsValid m = ValidBits m.len m.count m.bits

pub count_true-le : (bits : List Bool) → count_true bits ≤ length bits
count_true-le [] = omega arith
count_true-le (true ∷ bits) = omega (arith, count_true-le bits)
count_true-le (false ∷ bits) = omega (arith, count_true-le bits)

-- With every bit set, the bits say what the bound on the row says.
count_true_full :
    (bits : List Bool) (r : ℕ)
    → count_true bits ≡ length bits
    → get_or bits r false ≡ ltb r (length bits)
count_true_full [] r h = ground arith
count_true_full (true ∷ bits) zero h = ground arith
count_true_full (true ∷ bits) (suc r) h = ground (arith, count_true_full bits r)
count_true_full (false ∷ bits) r h = absurd (omega (arith, count_true-le bits))

count_true_zero : (bits : List Bool) (r : ℕ) → count_true bits ≡ 0 → get_or bits r false ≡ false
count_true_zero [] r h = refl
count_true_zero (true ∷ bits) r h = absurd (omega arith)
count_true_zero (false ∷ bits) zero h = refl
count_true_zero (false ∷ bits) (suc r) h = count_true_zero bits r h

pub from_bits-IsValid : (bits : List Bool) → IsValid (from_bits bits)
unfolding from_bits
from_bits-IsValid bits = elim (Bool-cases (count_true bits == length bits)) [
  | inl full ↦ rw full (inr refl)
  | inr partial ↦ elim (Bool-cases (count_true bits == 0)) [
    | inl bare ↦ rw (partial, bare) (inl refl)
    | inr some_set ↦
        rw (partial, some_set) (refl, refl, ground arith, ground (arith, count_true-le bits))
  ]
]

-- A mask built from bits holds exactly the rows whose bit is set, also where it keeps no bits
-- because all or none are set.
pub contains-from_bits :
    (bits : List Bool) (r : ℕ) → contains (from_bits bits) r ≡ get_or bits r false
unfolding from_bits contains
contains-from_bits bits r = ground (arith, count_true_full bits r, count_true_zero bits r)

pub len-from_bits : (bits : List Bool) → (from_bits bits).len ≡ length bits
unfolding from_bits
len-from_bits bits = ground arith

get_or-lt : (bits : List Bool) (r : ℕ) → get_or bits r false ≡ true → r < length bits
get_or-lt [] r h = cc
get_or-lt (b ∷ bits) zero h = omega arith
get_or-lt (b ∷ bits) (suc r) h = omega (arith, get_or-lt bits r h)

contains_parts-lt :
    (len count : ℕ) (bits : Option (List Bool)) (r : ℕ)
    → ValidBits len count bits
    → contains (record { len = len; bits = bits; count = count }) r ≡ true
    → r < len
unfolding contains
contains_parts-lt len count none r v h = ground arith
contains_parts-lt len count (some bits) r v h = omega (arith, get_or-lt bits r h)

-- No row lies past the length.
pub contains-lt : (m : RowMask) (r : ℕ) → IsValid m → contains m r ≡ true → r < m.len
contains-lt m = contains_parts-lt m.len m.count m.bits
