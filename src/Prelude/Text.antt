-- ===== src/Prelude/Text.antt =====
-- Texts: a string by its bytes, its literals, and the decimal form of a count.
use Prim.Native.Char.{code}
use Prim.Native.String.{String}
use Prim.Native.Nat.{ℕ, zero, suc, ◌+◌, ◌-◌, ◌*◌, ◌/◌, ◌%◌, ◌<◌, ◌≤◌}
use mathlib.Core.List.{[], ◌∷◌}
use mathlib.Core.Logic.{inl, inr}
use mathlib.Core.Path.{◌≡◌, refl, ◌∙◌}
use mathlib.Core.Option.{Option, none, some}
use mathlib.Core.Bool.{◌&&◌}
use native.Mathlib.Omega.{arith}
use axiom_rules_engine.Prelude.Tests.{ltb, leb, ◌==◌, if◌then◌else◌, Bool-cases}
use axiom_rules_engine.Prelude.Ord.{Str}

-- The bytes of an ASCII literal.
abbrev pub codes : String → Str
codes String.[] = []
codes (String.◌∷◌ c s) = code c ∷ codes s

abbrev pub decimal_onto : ℕ → ℕ → Str → Str
decimal_onto zero n acc = acc
decimal_onto (suc fuel) n acc =
    let digit = (48 + n % 10) ∷ acc in
    let rest = decimal_onto fuel (n / 10) digit in if ltb n 10 then digit else rest

-- `usize`'s `Display`.
abbrev pub decimal : ℕ → Str
decimal n = decimal_onto (suc n) n []

-- The number that digits spell, read on from an accumulator.
abbrev pub parse_number : ℕ → Str → Option ℕ
parse_number acc [] = some acc
parse_number acc (c ∷ s) =
    let more = parse_number (acc * 10 + (c - 48)) s in if leb 48 c && leb c 57 then more else none

-- `replace('_', "")`
abbrev pub without_underscores : Str → Str
without_underscores [] = []
without_underscores (c ∷ s) = let rest = without_underscores s in if c == 95 then rest else c ∷ rest

-- Reading digits takes off what `decimal_onto` puts in front.
parse_number-decimal_onto :
    (fuel n : ℕ) (s : Str) → n < fuel → parse_number 0 (decimal_onto fuel n s) ≡ parse_number n s
parse_number-decimal_onto zero n s h = elim h [ ]
parse_number-decimal_onto (suc fuel) n s h = elim (Bool-cases (ltb n 10)) [
  | inl small ↦ rw small (ground arith)
  | inr large ↦
      rw large
        (parse_number-decimal_onto fuel (n / 10) ((48 + n % 10) ∷ s) (ground arith) ∙ ground arith)
]

-- The decimal form of a number reads back.
decimal_onto-ne :
    (fuel n : ℕ) (s : Str) (P : Str → Type 0)
    → ((c : ℕ) (t : Str) → 48 ≤ c → c ≤ 57 → P (c ∷ t))
    → n < fuel
    → P (decimal_onto fuel n s)
decimal_onto-ne zero n s P h b = elim b [ ]
decimal_onto-ne (suc fuel) n s P h b = elim (Bool-cases (ltb n 10)) [
  | inl small ↦ rw small (h (48 + n % 10) s (omega arith) (omega arith))
  | inr large ↦ rw large (decimal_onto-ne fuel (n / 10) ((48 + n % 10) ∷ s) P h (ground arith))
]

-- It begins with a digit.
pub decimal-digit :
    (n : ℕ) (P : Str → Type 0) → ((c : ℕ) (t : Str) → 48 ≤ c → c ≤ 57 → P (c ∷ t)) → P (decimal n)
decimal-digit n P h = decimal_onto-ne (suc n) n [] P h (omega arith)

pub parse_number-decimal : (n : ℕ) → parse_number 0 (decimal n) ≡ some n
parse_number-decimal n = parse_number-decimal_onto (suc n) n [] (omega arith)

without_underscores-decimal_onto :
    (fuel n : ℕ) (s : Str)
    → without_underscores s ≡ s
    → without_underscores (decimal_onto fuel n s) ≡ decimal_onto fuel n s
without_underscores-decimal_onto zero n s h = h
without_underscores-decimal_onto (suc fuel) n s h =
    let digit : without_underscores ((48 + n % 10) ∷ s) ≡ (48 + n % 10) ∷ s = ground arith in
    elim (Bool-cases (ltb n 10)) [
      | inl small ↦ rw small digit
      | inr large ↦
          rw large (without_underscores-decimal_onto fuel (n / 10) ((48 + n % 10) ∷ s) digit)
    ]

pub without_underscores-decimal : (n : ℕ) → without_underscores (decimal n) ≡ decimal n
without_underscores-decimal n = without_underscores-decimal_onto (suc n) n [] refl
