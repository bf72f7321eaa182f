-- ===== src/Engine/Scalars.antt =====
-- Scalar operations that every evaluator shares (src/engine.rs): comparison, checked arithmetic and
-- calendar shifts. An `i64` is an integer within its range.
pub mod Comparison
use axiom_rules_engine.Prelude.{
  ℕ, suc, ◌+◌, ◌*◌, Bool, true, false, not, Option, none, some, if◌then◌else◌, ltb,
}
use Prim.Native.Nat.{Ordering}
use axiom_rules_engine.Prelude.Ord.{Str, str_ord}
use axiom_rules_engine.Prelude.Int.{ℤ, pos, negsuc}
use axiom_rules_engine.Prelude.Text.{codes}
use axiom_rules_engine.BTree.{key_eq}
use axiom_rules_engine.Model.Platform.{Platform}
use axiom_rules_engine.Model.Values.{
  ComparisonOp, lt, lte, gt, gte, eq, ne, ScalarValue, bool, integer, decimal, text, date,
  as_decimal, eq_bool, Rounding, apply,
}
use axiom_rules_engine.Engine.Errors.{
  EvalError, type_mismatch, arithmetic_overflow, division_by_zero, Result, ok, err, ok_or, ◌>>=◌,
}

abbrev pub in_i64 : ℤ → Bool
in_i64 (pos n) = ltb n 9223372036854775808
in_i64 (negsuc n) = ltb n 9223372036854775808

-- `checked_mul(12)`
abbrev pub times_twelve : ℤ → ℤ
times_twelve (pos n) = pos (12 * n)
times_twelve (negsuc n) = negsuc (12 * n + 11)

abbrev pub checked_times_twelve : ℤ → Option ℤ
checked_times_twelve n = if in_i64 (times_twelve n) then some (times_twelve n) else none

abbrev pub unsigned_abs : ℤ → ℕ
unsigned_abs (pos n) = n
unsigned_abs (negsuc n) = suc n

-- The order tests of the operators, on the order of the operands.
abbrev pub test_order : ComparisonOp → Ordering → Bool
test_order lt o = elim o [ Ordering.lt ↦ true | _ ↦ false ]
test_order lte o = elim o [ Ordering.gt ↦ false | _ ↦ true ]
test_order gt o = elim o [ Ordering.gt ↦ true | _ ↦ false ]
test_order gte o = elim o [ Ordering.lt ↦ false | _ ↦ true ]
test_order eq o = elim o [ Ordering.eq ↦ true | _ ↦ false ]
test_order ne o = elim o [ Ordering.eq ↦ false | _ ↦ true ]

module _ ⦃p : Platform⦄ where
  open p use {
    NaiveDate, date_ord, Decimal, decimal_cmp, add_months, sub_months, add_days, is_integral,
    to_i64, is_zero,
  }

  -- `==` and `!=` on values without an order; the other operators are an error.
  abbrev pub test_equal : ComparisonOp → Bool → Str → Result Bool
  test_equal eq same message = ok same
  test_equal ne same message = ok (not same)
  test_equal _ same message = err (type_mismatch message)

  abbrev pub compare_decimals : ComparisonOp → Option Decimal → Option Decimal → Result Bool
  compare_decimals op none right =
      err (type_mismatch (codes "left side of comparison is not numeric"))
  compare_decimals op (some left) none =
      err (type_mismatch (codes "right side of comparison is not numeric"))
  compare_decimals op (some left) (some right) = ok (test_order op (decimal_cmp left right))

  unfoldable pub compare_scalar_values : ScalarValue → ComparisonOp → ScalarValue → Result Bool
  compare_scalar_values (bool left) op (bool right) =
      test_equal op (eq_bool left right) (codes "boolean comparisons only support == and !=")
  compare_scalar_values (text left) op (text right) =
      test_equal op (key_eq left right) (codes "text comparisons only support == and !=")
  compare_scalar_values (date left) op (date right) = ok (test_order op (date_ord.cmp left right))
  compare_scalar_values left op right = compare_decimals op (as_decimal left) (as_decimal right)

  -- `checked_add_months` or `checked_sub_months`, by the sign, within `u32` months.
  abbrev pub shifted_months : NaiveDate → ℤ → Option NaiveDate
  shifted_months base (pos n) = if ltb n 4294967296 then add_months base n else none
  shifted_months base (negsuc n) = if ltb (suc n) 4294967296 then sub_months base (suc n) else none

  unfoldable pub shift_calendar_months : NaiveDate → ℤ → Result NaiveDate
  shift_calendar_months base offset =
      ok_or (shifted_months base offset)
        (type_mismatch (codes "date_add_months result is outside the supported date range"))

  unfoldable pub shift_calendar_years : NaiveDate → ℤ → Result NaiveDate
  shift_calendar_years base offset =
      let failed =
        type_mismatch (codes "date_add_years result is outside the supported date range") in
      elim (checked_times_twelve offset) [
        | none ↦ err failed
        | some months ↦ elim (shift_calendar_months base months) [
          | ok shifted ↦ ok shifted
          | err _ ↦ err failed
        ]
      ]

  -- Whole years: an integer, or an integral decimal within the range.
  abbrev pub whole_years : ScalarValue → Option ℤ
  whole_years (integer years) = some years
  whole_years (decimal years) = if is_integral years then to_i64 years else none
  whole_years _ = none

  unfoldable pub calendar_years_to_months : ScalarValue → Result ℤ
  calendar_years_to_months value =
      ok_or (whole_years value) (
        type_mismatch (
          codes
            "calendar_years_to_months requires Integer or exactly integral Decimal years within the signed 64-bit range"))
      >>= λ years. ok_or (checked_times_twelve years) (
          type_mismatch
            (codes "calendar_years_to_months result is outside the signed 64-bit range"))

  -- `TimeDelta::try_days` and `checked_add_signed`
  unfoldable pub shift_calendar_days : NaiveDate → ℤ → Result NaiveDate
  shift_calendar_days base offset =
      ok_or (add_days base offset)
        (type_mismatch (codes "date_add_days result is outside the supported date range"))

  -- `ArithmeticError` and its conversion are one here: the operators return the `EvalError`.
  unfoldable pub checked_add : Decimal → Decimal → Result Decimal
  checked_add left right = ok_or (p.add left right) (arithmetic_overflow (codes "addition"))

  unfoldable pub checked_sub : Decimal → Decimal → Result Decimal
  checked_sub left right = ok_or (p.sub left right) (arithmetic_overflow (codes "subtraction"))

  unfoldable pub checked_mul : Decimal → Decimal → Result Decimal
  checked_mul left right = ok_or (p.mul left right) (arithmetic_overflow (codes "multiplication"))

  unfoldable pub checked_div : Decimal → Decimal → Result Decimal
  checked_div left right =
      if is_zero right
      then err division_by_zero
      else ok_or (p.div left right) (arithmetic_overflow (codes "division"))

  -- `apply_output_rounding`, from the rounding that the rule declares.
  unfoldable pub apply_output_rounding : Option Rounding → ScalarValue → ScalarValue
  unfolding apply
  apply_output_rounding (some rounding) (decimal amount) = decimal (apply rounding amount)
  apply_output_rounding _ value = value

  unfoldable pub expect_decimal : ScalarValue → Result Decimal
  expect_decimal value =
      ok_or (as_decimal value) (type_mismatch (codes "expected decimal-compatible scalar"))

  unfoldable pub expect_integer : ScalarValue → Result ℤ
  expect_integer (integer value) = ok value
  expect_integer _ = err (type_mismatch (codes "expected integer scalar"))
