-- ===== src/Formula/Bytes.antt =====
-- What the lexer uses of Rust's byte slices and `str`, on the bytes of a UTF-8 text.
use axiom_rules_engine.Prelude.{
  ℕ, zero, suc, Bool, true, false, ◌&&◌, not, Option, none, some, [], ◌∷◌, if◌then◌else◌, ◌==◌, ltb,
}
use axiom_rules_engine.Prelude.Ord.{Str, str_ord}
use axiom_rules_engine.Formula.Tokens.{is_continuation}

unfoldable pub take : ℕ → Str → Str
take zero l = []
take (suc n) [] = []
take (suc n) (c ∷ l) = c ∷ take n l

unfoldable pub drop : ℕ → Str → Str
drop zero l = l
drop (suc n) [] = []
drop (suc n) (c ∷ l) = drop n l

-- How many bytes at the front satisfy `p`.
unfoldable pub span : (ℕ → Bool) → Str → ℕ
span p [] = 0
span p (c ∷ l) = elim (p c) [ true ↦ suc (span p l) | false ↦ 0 ]

unfoldable pub starts_with : Str → Str → Bool
starts_with [] l = true
starts_with (a ∷ needle) [] = false
starts_with (a ∷ needle) (b ∷ l) = a == b && starts_with needle l

unfoldable pub find_bytes : Str → Str → Option ℕ
find_bytes needle [] = none
find_bytes needle (c ∷ l) = elim (starts_with needle (c ∷ l)) [
  | true ↦ some 0
  | false ↦ elim (find_bytes needle l) [ none ↦ none | some n ↦ some (suc n) ]
]

-- `str::get`: the offset stands at the start of a character or at the end.
abbrev pub is_boundary : Str → Bool
is_boundary [] = true
is_boundary (c ∷ l) = not (is_continuation c)

unfoldable pub slice : Str → ℕ → Option Str
slice rest n = if is_boundary rest && is_boundary (drop n rest) then some (take n rest) else none

-- The bytes of the first character, by the width its first byte announces.
abbrev pub len_utf8 : ℕ → ℕ
len_utf8 c = if ltb c 128 then 1 else if ltb c 224 then 2 else if ltb c 240 then 3 else 4

-- `chars().next()`
abbrev pub first_char : Str → Option Str
first_char [] = none
first_char (c ∷ l) = some (take (len_utf8 c) (c ∷ l))
