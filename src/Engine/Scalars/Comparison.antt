-- ===== src/Engine/Scalars/Comparison.antt =====
-- Comparison of scalar values: complementary operators, and mirrored operands.
use axiom_rules_engine.Prelude.{
  ◌≡◌, refl, sym, ◌∙◌, Bool-cases, inl, inr, Bool, true, false, not, Option, none, some, arith,
}
use axiom_rules_engine.Prelude.Ord.{Str, str_ord}
use axiom_rules_engine.BTree.{key_eq}
use axiom_rules_engine.BTree.Laws.{key_eq-eq, key_eq_self}
use Prim.Native.Nat.{Ordering}
use axiom_rules_engine.Model.Platform.{Platform}
use axiom_rules_engine.Model.Values.{
  ComparisonOp, lt, lte, gt, gte, eq, ne, ScalarValue, bool, text, date, as_decimal, eq_bool,
}
use axiom_rules_engine.Engine.Errors.{Result, ok, err}
use axiom_rules_engine.Engine.Scalars.{
  test_order, test_equal, compare_decimals, compare_scalar_values,
}

-- The operator that holds exactly where the other does not.
abbrev pub complement : ComparisonOp → ComparisonOp
complement lt = gte
complement lte = gt
complement gt = lte
complement gte = lt
complement eq = ne
complement ne = eq

-- The operator that says the same of the operands in the other order.
abbrev pub mirror : ComparisonOp → ComparisonOp
mirror lt = gt
mirror lte = gte
mirror gt = lt
mirror gte = lte
mirror eq = eq
mirror ne = ne

abbrev pub flip : Ordering → Ordering
flip Ordering.lt = Ordering.gt
flip Ordering.eq = Ordering.eq
flip Ordering.gt = Ordering.lt

test_order-complement :
    (op : ComparisonOp) (o : Ordering) → test_order (complement op) o ≡ not (test_order op o)
test_order-complement op o = ground arith

test_order-mirror :
    (op : ComparisonOp) (o : Ordering) → test_order (mirror op) (flip o) ≡ test_order op o
test_order-mirror op o = ground arith

module _ ⦃p : Platform⦄ where
  open p use {
    NaiveDate, date_ord, Decimal, decimal_cmp, decimal_cmp_flip, decimal_cmp_unflip,
    decimal_cmp_sym,
  }

  -- The opposite answer, or the same error.
  abbrev pub negated : Result Bool → Result Bool
  negated (ok b) = ok (not b)
  negated (err e) = err e

  test_equal-complement :
      (op : ComparisonOp) (same : Bool) (message : Str)
      → test_equal (complement op) same message ≡ negated (test_equal op same message)
  test_equal-complement op same message = ground arith

  compare_decimals-complement :
      (op : ComparisonOp) (left right : Option Decimal)
      → compare_decimals (complement op) left right ≡ negated (compare_decimals op left right)
  compare_decimals-complement op none right = refl
  compare_decimals-complement op (some left) none = refl
  compare_decimals-complement op (some left) (some right) =
      rw (test_order-complement op (decimal_cmp left right)) refl

  -- Comparing by the complementary operator (`<` and `>=`, `<=` and `>`, `==` and `!=`) gives the
  -- opposite answer, or the same error.
  pub compare-complement :
      (left : ScalarValue) (op : ComparisonOp) (right : ScalarValue)
      → compare_scalar_values left (complement op) right
        ≡ negated (compare_scalar_values left op right)
  unfolding compare_scalar_values
  compare-complement (bool a) op (bool b) = test_equal-complement op _ _
  compare-complement (text a) op (text b) = test_equal-complement op _ _
  compare-complement (date a) op (date b) = rw (test_order-complement op (date_ord.cmp a b)) refl
  compare-complement left op right =
      compare_decimals-complement op (as_decimal left) (as_decimal right)

  decimal_cmp-flip : (a b : Decimal) → decimal_cmp b a ≡ flip (decimal_cmp a b)
  decimal_cmp-flip a b =
      ground (arith, decimal_cmp_flip a b, decimal_cmp_unflip a b, decimal_cmp_sym a b)

  date_cmp-flip : (a b : NaiveDate) → date_ord.cmp b a ≡ flip (date_ord.cmp a b)
  date_cmp-flip a b = ground (
    arith,
    date_ord.cmp_flip a b,
    date_ord.cmp_unflip a b,
    date_ord.cmp_eq a b,
    date_ord.cmp_self b,
  )

  key_eq_sym : (a b : Str) → key_eq a b ≡ key_eq b a
  key_eq_sym a b = ground (arith, key_eq-eq a b, key_eq-eq b a, key_eq_self a, key_eq_self b)

  eq_bool_sym : (a b : Bool) → eq_bool a b ≡ eq_bool b a
  eq_bool_sym a b = ground arith

  compare_decimals-mirror :
      (op : ComparisonOp) (left right : Option Decimal) (b : Bool)
      → compare_decimals op left right ≡ ok b
      → compare_decimals (mirror op) right left ≡ ok b
  compare_decimals-mirror op none right b h = cc
  compare_decimals-mirror op (some left) none b h = cc
  compare_decimals-mirror op (some left) (some right) b h =
      rw (decimal_cmp-flip left right, test_order-mirror op (decimal_cmp left right)) h

  test_equal-mirror :
      (op : ComparisonOp) (same same' : Bool) (message : Str) (b : Bool)
      → same ≡ same'
      → test_equal op same message ≡ ok b
      → test_equal (mirror op) same' message ≡ ok b
  test_equal-mirror op same same' message b e h = ground arith

  -- Two values of one kind that is no number.
  abbrev same_kind : ScalarValue → ScalarValue → Bool
  same_kind (bool a) (bool b) = true
  same_kind (text a) (text b) = true
  same_kind (date a) (date b) = true
  same_kind left right = false

  same_kind_sym : (left right : ScalarValue) → same_kind left right ≡ same_kind right left
  same_kind_sym left right = ground arith

  compare-other :
      (left : ScalarValue) (op : ComparisonOp) (right : ScalarValue)
      → same_kind left right ≡ false
      → compare_scalar_values left op right
        ≡ compare_decimals op (as_decimal left) (as_decimal right)
  unfolding compare_scalar_values
  compare-other (bool a) op (bool b) k = cc
  compare-other (text a) op (text b) k = cc
  compare-other (date a) op (date b) k = cc
  compare-other left op right k = refl

  mirror-same :
      (left : ScalarValue) (op : ComparisonOp) (right : ScalarValue) (b : Bool)
      → same_kind left right ≡ true
      → compare_scalar_values left op right ≡ ok b
      → compare_scalar_values right (mirror op) left ≡ ok b
  unfolding compare_scalar_values
  mirror-same (bool x) op (bool z) b k h = test_equal-mirror op _ _ _ b (eq_bool_sym x z) h
  mirror-same (text x) op (text z) b k h = test_equal-mirror op _ _ _ b (key_eq_sym x z) h
  mirror-same (date x) op (date z) b k h =
      rw (date_cmp-flip x z, test_order-mirror op (date_ord.cmp x z)) h
  mirror-same left op right b k h = cc

  -- If a comparison gives an answer, the mirrored operator gives the same answer on the operands in
  -- the other order.
  pub compare-mirror :
      (left : ScalarValue) (op : ComparisonOp) (right : ScalarValue) (b : Bool)
      → compare_scalar_values left op right ≡ ok b
      → compare_scalar_values right (mirror op) left ≡ ok b
  compare-mirror left op right b h = elim (Bool-cases (same_kind left right)) [
    | inl same ↦ mirror-same left op right b same h
    | inr other ↦
        compare-other right (mirror op) left (same_kind_sym right left ∙ other)
        ∙ compare_decimals-mirror op (as_decimal left) (as_decimal right) b
            (sym (compare-other left op right other) ∙ h)
  ]
