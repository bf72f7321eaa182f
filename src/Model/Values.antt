-- ===== src/Model/Values.antt =====
-- Scalar values, outcomes, comparison operators and rounding (src/model.rs).
use axiom_rules_engine.Prelude.{ℕ, Bool, true, false, Option, none, some, if◌then◌else◌, ◌==◌}
use axiom_rules_engine.Prelude.Int.{ℤ, pos, negsuc}
use axiom_rules_engine.Prelude.Ord.{Str, str_ord}
use axiom_rules_engine.BTree.{key_eq}
use axiom_rules_engine.Model.Platform.{
  Platform, date_eq, decimal_eq, RoundingStrategy, midpoint_away_from_zero, midpoint_nearest_even,
  to_negative_infinity, to_positive_infinity,
}

pub data JudgmentOutcome : Type 0 where
  holds not_holds undetermined : JudgmentOutcome

unfoldable pub is_holds : JudgmentOutcome → Bool
is_holds holds = true
is_holds _ = false

pub data ComparisonOp : Type 0 where
  lt lte gt gte eq ne : ComparisonOp

pub data DType : Type 0 where
  judgment bool integer decimal text date : DType

pub data RoundingMode : Type 0 where
  half_up half_even floor ceil : RoundingMode

pub record Rounding : Type 0 where
  pub mode : RoundingMode
  pub minor_units : ℕ

unfoldable pub strategy : RoundingMode → RoundingStrategy
strategy half_up = midpoint_away_from_zero
strategy half_even = midpoint_nearest_even
strategy floor = to_negative_infinity
strategy ceil = to_positive_infinity

abbrev pub eq_ℤ : ℤ → ℤ → Bool
eq_ℤ (pos a) (pos b) = a == b
eq_ℤ (negsuc a) (negsuc b) = a == b
eq_ℤ _ _ = false

abbrev pub eq_bool : Bool → Bool → Bool
eq_bool true true = true
eq_bool false false = true
eq_bool _ _ = false

module _ ⦃p : Platform⦄ where
  open p use {NaiveDate, Decimal, from_integer, is_integral, to_i64}

  pub data ScalarValue : Type 0 where
    bool : Bool → ScalarValue
    integer : ℤ → ScalarValue
    decimal : Decimal → ScalarValue
    text : Str → ScalarValue
    date : NaiveDate → ScalarValue

  unfoldable pub as_decimal : ScalarValue → Option Decimal
  as_decimal (integer value) = some (from_integer value)
  as_decimal (decimal value) = some value
  as_decimal _ = none

  unfoldable pub as_bool : ScalarValue → Option Bool
  as_bool (bool value) = some value
  as_bool _ = none

  unfoldable pub as_date : ScalarValue → Option NaiveDate
  as_date (date value) = some value
  as_date _ = none

  unfoldable pub as_index : ScalarValue → Option ℤ
  as_index (integer value) = some value
  as_index (decimal value) = if is_integral value then to_i64 value else none
  as_index _ = none

  -- The derived `PartialEq`: decimals compare numerically.
  unfoldable pub value_eq : ScalarValue → ScalarValue → Bool
  value_eq (bool a) (bool b) = eq_bool a b
  value_eq (integer a) (integer b) = eq_ℤ a b
  value_eq (decimal a) (decimal b) = decimal_eq a b
  value_eq (text a) (text b) = key_eq a b
  value_eq (date a) (date b) = date_eq a b
  value_eq _ _ = false

  unfoldable pub round_decimal : RoundingMode → Decimal → ℕ → Decimal
  unfolding strategy
  round_decimal mode value minor_units = p.round_dp_with_strategy value minor_units (strategy mode)

  unfoldable pub apply : Rounding → Decimal → Decimal
  unfolding round_decimal
  apply rounding value = round_decimal rounding.mode value rounding.minor_units
