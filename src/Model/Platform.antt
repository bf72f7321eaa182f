-- ===== src/Model/Platform.antt =====
-- What the program takes from the crates `chrono` and `rust_decimal`, as parameters: dates with
-- their order and checked shifts, and decimals with their checked operations. The laws are the
-- documented ones: both orders are total orders, of decimals up to numerical equality.
use Prim.Native.Nat.{Ordering}
use axiom_rules_engine.Prelude.{ℕ, ◌≡◌, Bool, true, false, Option, arith}
use axiom_rules_engine.Prelude.Int.{ℤ}
use axiom_rules_engine.Prelude.Ord.{Ord, Str}

-- The rounding strategies of `rust_decimal` that the program names.
pub data RoundingStrategy : Type 0 where
  midpoint_away_from_zero midpoint_nearest_even to_negative_infinity to_positive_infinity :
      RoundingStrategy

pub record Platform : Type 1 where
  pub NaiveDate : Type 0
  pub date_ord : Ord NaiveDate
  pub show_date : NaiveDate → Str
  pub parse_date : Str → Option NaiveDate
  pub from_ymd_opt : ℤ → ℕ → ℕ → Option NaiveDate
  pub add_months : NaiveDate → ℕ → Option NaiveDate
  pub sub_months : NaiveDate → ℕ → Option NaiveDate
  pub add_days : NaiveDate → ℤ → Option NaiveDate
  pub Decimal : Type 0
  pub decimal_cmp : Decimal → Decimal → Ordering
  pub decimal_cmp_self : (a : Decimal) → decimal_cmp a a ≡ Ordering.eq
  pub decimal_cmp_flip :
      (a b : Decimal) → decimal_cmp a b ≡ Ordering.lt → decimal_cmp b a ≡ Ordering.gt
  pub decimal_cmp_unflip :
      (a b : Decimal) → decimal_cmp a b ≡ Ordering.gt → decimal_cmp b a ≡ Ordering.lt
  pub decimal_cmp_trans :
      (a b c : Decimal)
      → decimal_cmp a b ≡ Ordering.eq
      → decimal_cmp b c ≡ Ordering.eq
      → decimal_cmp a c ≡ Ordering.eq
  pub decimal_cmp_sym :
      (a b : Decimal) → decimal_cmp a b ≡ Ordering.eq → decimal_cmp b a ≡ Ordering.eq
  pub show_decimal : Decimal → Str
  pub parse_decimal : Str → Option Decimal
  pub from_integer : ℤ → Decimal
  pub is_integral : Decimal → Bool
  pub to_i64 : Decimal → Option ℤ
  pub is_zero : Decimal → Bool
  pub add : Decimal → Decimal → Option Decimal
  pub sub : Decimal → Decimal → Option Decimal
  pub mul : Decimal → Decimal → Option Decimal
  pub div : Decimal → Decimal → Option Decimal
  pub ceil : Decimal → Decimal
  pub floor : Decimal → Decimal
  pub round_dp_with_strategy : Decimal → ℕ → RoundingStrategy → Decimal

module _ ⦃p : Platform⦄ where
  open p use {NaiveDate, date_ord, Decimal, decimal_cmp}

  -- `<=`, `<` and `==` of dates, and `==` of decimals, which is numerical.
  abbrev pub date_le : NaiveDate → NaiveDate → Bool
  date_le a b = elim (date_ord.cmp a b) [ Ordering.gt ↦ false | _ ↦ true ]

  abbrev pub date_lt : NaiveDate → NaiveDate → Bool
  date_lt a b = elim (date_ord.cmp a b) [ Ordering.lt ↦ true | _ ↦ false ]

  abbrev pub date_eq : NaiveDate → NaiveDate → Bool
  date_eq a b = elim (date_ord.cmp a b) [ Ordering.eq ↦ true | _ ↦ false ]

  abbrev pub decimal_eq : Decimal → Decimal → Bool
  decimal_eq a b = elim (decimal_cmp a b) [ Ordering.eq ↦ true | _ ↦ false ]

  -- `b ≤ a` and `c ≤ b` give `c ≤ a`.
  pub not-lt_trans :
      (a b c : NaiveDate) → date_lt a b ≡ false → date_lt b c ≡ false → date_lt a c ≡ false
  not-lt_trans a b c h k = ground (
    arith,
    date_ord.cmp_trans a c b,
    date_ord.cmp_trans c b a,
    date_ord.cmp_trans b a c,
    date_ord.cmp_eq a b,
    date_ord.cmp_eq b c,
    date_ord.cmp_unflip a b,
    date_ord.cmp_unflip b c,
    date_ord.cmp_flip a c,
  )
