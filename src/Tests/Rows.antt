-- ===== src/Tests/Rows.antt =====
-- Witnesses of the theorems on row masks and row errors.
use axiom_rules_engine.Prelude.{
  ℕ, ◌≡◌, ◌≤◌, refl, Bool, true, false, not, ◌&&◌, ◌||◌, none, some, List, [], ◌∷◌, arith,
  if◌then◌else◌,
}
use axiom_rules_engine.Prelude.Ord.{nat_ord}
use axiom_rules_engine.Engine.Errors.{division_by_zero, unknown_unit}
use axiom_rules_engine.Rows.Mask.{RowMask, from_bits, contains, rows, filter, difference, union}
use axiom_rules_engine.Rows.Invariant.{from_bits-IsValid, contains-from_bits}
use axiom_rules_engine.Rows.Iteration.{selected, rows-selected}
use axiom_rules_engine.Rows.Algebra.{Holds, filter-Holds, difference-Holds, union-Holds}
use axiom_rules_engine.Rows.Errors.{
  ready, RowErrors, has_error, get, record_all, absorb, restricted_to, first, without,
}
use axiom_rules_engine.Rows.FirstError.{
  or_else, get-record_all, get-absorb, get-restricted_to, without-Holds, first_lowest,
}
use axiom_rules_engine.Prelude.Text.{codes}
use axiom_rules_engine.Engine.Errors.{EvalError}
use axiom_rules_engine.Rows.Naming.{IsNamedBy, leave, leave-IsNamedBy}
use axiom_rules_engine.Tests.Sample.{sample}

abbrev always : ℕ → Bool
always _ = true

abbrev left_bits : List Bool
left_bits = true ∷ false ∷ true ∷ false ∷ []

abbrev right_bits : List Bool
right_bits = false ∷ false ∷ true ∷ true ∷ []

abbrev left : RowMask
left = from_bits left_bits

abbrev right : RowMask
right = from_bits right_bits

abbrev one : RowErrors
one = record { errors = (2, ready division_by_zero) ∷ [] }

abbrev two : RowErrors
two = record { errors = (1, ready (unknown_unit [])) ∷ (3, ready division_by_zero) ∷ [] }

union-Holds_example :
    Holds always left (λ r. contains left r || contains right r) (union always left right)
unfolding from_bits
union-Holds_example =
    union-Holds always left right (from_bits-IsValid left_bits) (from_bits-IsValid right_bits) refl

difference-Holds_example :
    Holds always left
      (λ r. contains left r && not (contains right r))
      (difference always left right)
unfolding from_bits
difference-Holds_example =
    difference-Holds always left right (from_bits-IsValid left_bits) (from_bits-IsValid right_bits)
      refl

filter-Holds_example :
    Holds always left
      (λ r. contains left r && contains right r)
      (filter always left (contains right))
filter-Holds_example = filter-Holds always left (contains right) (from_bits-IsValid left_bits)

without-Holds_example :
    Holds always left (λ r. contains left r && not (has_error one r)) (without always left one)
without-Holds_example = without-Holds always left one (from_bits-IsValid left_bits)

rows-selected_example : rows left ≡ selected (contains left) 0 left.len
rows-selected_example = rows-selected left (from_bits-IsValid left_bits)

contains-from_bits_example : contains (from_bits left_bits) 2 ≡ true
contains-from_bits_example = contains-from_bits left_bits 2

get-record_all_example :
    get (record_all one left division_by_zero) 0
    ≡ (if contains left 0 then or_else (get one 0) (some (ready division_by_zero)) else get one 0)
get-record_all_example = get-record_all one left division_by_zero 0 (from_bits-IsValid left_bits)

get-absorb_example : get (absorb one two) 3 ≡ or_else (get one 3) (get two 3)
get-absorb_example = get-absorb one two 3

get-restricted_to_example :
    get (restricted_to two right) 3 ≡ (if contains right 3 then get two 3 else none)
get-restricted_to_example =
    get-restricted_to two right 3 (from_bits-IsValid right_bits) (unfold from_bits in omega arith)

-- A failure to match in one row, and another error in a later one.
abbrev unmatched : RowErrors
unmatched = record {
  errors =
      (1, ready (EvalError.no_matching_arm [] (codes "age") (codes "7") (codes "8")))
      ∷ (3, ready division_by_zero)
      ∷ [];
}

leave-IsNamedBy_example :
    IsNamedBy
      (codes "inner")
      (get unmatched 1)
      (get (leave unmatched (codes "inner" ∷ codes "outer" ∷ [])) 1)
leave-IsNamedBy_example = leave-IsNamedBy unmatched (codes "inner") (codes "outer" ∷ []) 1 (λ e. cc)

first_lowest_example :
    (get two 1 ≡ some (ready (unknown_unit []))) × ((r : ℕ) → has_error two r ≡ true → 1 ≤ r)
first_lowest_example =
    first_lowest two 1 (ready (unknown_unit [])) ((refl, tt), (tt, tt)) (unfold first in refl)
