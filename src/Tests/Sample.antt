-- ===== src/Tests/Sample.antt =====
-- A concrete platform for the witnesses: dates are day numbers, decimals whole amounts.
use Prim.Native.Nat.{Ordering, compare}
use axiom_rules_engine.Prelude.{
  ℕ, ◌+◌, ◌-◌, ◌*◌, ◌/◌, ◌==◌, true, Option, none, some, [], ◌∷◌, arith, if◌then◌else◌, ◌≡◌,
}
use axiom_rules_engine.Prelude.Int.{ℤ, pos, negsuc}
use axiom_rules_engine.Prelude.Ord.{Str, nat_ord}
use axiom_rules_engine.Prelude.Text.{decimal, parse_number}
use axiom_rules_engine.Model.Platform.{Platform}

pub compare-trans_eq :
    (a b c : ℕ) → compare a b ≡ Ordering.eq → compare b c ≡ Ordering.eq → compare a c ≡ Ordering.eq
compare-trans_eq a b c h k = ground arith

pub compare-sym_eq : (a b : ℕ) → compare a b ≡ Ordering.eq → compare b a ≡ Ordering.eq
compare-sym_eq a b h = ground arith

abbrev natural : ℤ → ℕ
natural (pos n) = n
natural (negsuc n) = 0

abbrev without_dashes : Str → Str
without_dashes [] = []
without_dashes (c ∷ s) = let rest = without_dashes s in if c == 45 then rest else c ∷ rest

-- Whole numbers stand for dates and decimals.
abbrev number : Str → Option ℕ
number s = parse_number 0 s

instance abbrev pub sample : Platform
sample = record {
  NaiveDate = ℕ;
  date_ord = nat_ord;
  show_date = decimal;
  parse_date = λ s. number (without_dashes s);
  from_ymd_opt = λ y m d. some (natural y * 372 + m * 31 + d);
  add_months = λ d n. some (d + n * 31);
  sub_months = λ d n. some (d - n * 31);
  add_days = λ d n. some (d + natural n);
  Decimal = ℕ;
  decimal_cmp = compare;
  decimal_cmp_self = nat_ord.cmp_self;
  decimal_cmp_flip = nat_ord.cmp_flip;
  decimal_cmp_unflip = nat_ord.cmp_unflip;
  decimal_cmp_trans = compare-trans_eq;
  decimal_cmp_sym = compare-sym_eq;
  show_decimal = decimal;
  parse_decimal = number;
  from_integer = natural;
  is_integral = λ _. true;
  to_i64 = λ d. some (pos d);
  is_zero = λ d. d == 0;
  add = λ a b. some (a + b);
  sub = λ a b. some (a - b);
  mul = λ a b. some (a * b);
  div = λ a b. if b == 0 then none else some (a / b);
  ceil = λ d. d;
  floor = λ d. d;
  round_dp_with_strategy = λ d n s. d;
}
