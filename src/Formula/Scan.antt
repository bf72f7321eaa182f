-- ===== src/Formula/Scan.antt =====
-- One round of the lexer's loop (src/formula.rs, `Lexer::tokenise`), on the bytes from `pos` on. A
-- round ends in one `advance` and at most one `push`, or in an error, at the position where it
-- began: `lex_one` computes which.
use axiom_rules_engine.Prelude.{
  ℕ, zero, suc, ◌+◌, Bool, true, false, ◌&&◌, ◌||◌, not, none, some, [], ◌∷◌, ◌++◌, length,
  if◌then◌else◌, ◌==◌, leb, get_or,
}
use axiom_rules_engine.Prelude.Ord.{Str, str_ord}
use axiom_rules_engine.Prelude.Text.{codes}
use axiom_rules_engine.BTree.{key_eq}
use axiom_rules_engine.Formula.Tokens.{
  TokType, type_of, pairs, singles, keyword, is_digit, is_digit_or_underscore, starts_word, is_word,
  is_whitespace, string, date, int, float, ident, path,
}
use axiom_rules_engine.Formula.Bytes.{
  take, drop, span, starts_with, find_bytes, is_boundary, slice, len_utf8, first_char,
}

-- What the messages of the lexer's errors say.
pub data Fault : Type 0 where
  not_a_boundary unterminated : Fault
  unexpected : Str → Fault

-- What one round of the loop does: skip bytes, emit a token that spans bytes, or fail.
pub data Lexed : Type 0 where
  skip : ℕ → Lexed
  emit : TokType → Str → ℕ → Lexed
  fault : Fault → Lexed

-- A token of `n` bytes with its own text as value.
unfoldable pub emit_slice : TokType → Str → ℕ → Lexed
emit_slice ty rest n = elim (slice rest n) [ none ↦ fault not_a_boundary | some s ↦ emit ty s n ]

abbrev pub unescape : Str → Str
unescape escaped =
    if key_eq escaped (codes "n")
    then 10 ∷ []
    else if key_eq escaped (codes "r")
    then 13 ∷ []
    else if key_eq escaped (codes "t")
    then 9 ∷ []
    else escaped

-- The loop of a string literal: `skipped` bytes of an escaped character are still to be stepped
-- over, `segment` is the text since `segment_start`, and `n` bytes are read.
unfoldable pub string_from : ℕ → ℕ → Str → Str → ℕ → Str → Lexed
string_from quote skipped value segment n [] = fault unterminated
string_from quote (suc skipped) value segment n (c ∷ rest) =
    string_from quote skipped value [] (suc n) rest
string_from quote zero value segment n (c ∷ rest) = elim (c == quote) [
  | true ↦ elim (slice (segment ++ c ∷ rest) (length segment)) [
    | none ↦ fault not_a_boundary
    | some piece ↦ emit string (value ++ piece) (suc n)
  ]
  | false ↦ elim (c == 92) [
    | true ↦ elim (slice (segment ++ c ∷ rest) (length segment)) [
      | none ↦ fault not_a_boundary
      | some piece ↦ elim (is_boundary rest) [
        | false ↦ fault not_a_boundary
        | true ↦ elim (first_char rest) [
          | none ↦ fault unterminated
          | some escaped ↦
              string_from quote (length escaped) (value ++ piece ++ unescape escaped) [] (suc n)
                rest
        ]
      ]
    ]
    | false ↦ string_from quote 0 value (segment ++ c ∷ []) (suc n) rest
  ]
]

-- The bytes of a number, and whether it is a float: a point counts when a digit follows.
unfoldable pub number_from : Str → ℕ → Lexed
number_from rest end = elim (starts_with (codes ".") (drop end rest)) [
  | false ↦ emit_slice int rest end
  | true ↦ elim (is_digit (get_or (drop (suc end) rest) 0 0)) [
    | false ↦ emit_slice int rest end
    | true ↦ emit_slice float rest (suc end + span is_digit_or_underscore (drop (suc end) rest))
  ]
]

-- How far the path goes after its first name: `/` counts when the start of a name follows.
unfoldable pub path_end : Str → ℕ
path_end [] = 0
path_end (c ∷ l) =
    let more = suc (path_end l) in
    if is_word c then more else if c == 47 && starts_word (get_or l 0 0) then more else 0

unfoldable pub word_type : Str → TokType
word_type s = elim (keyword s) [ none ↦ ident | some ty ↦ ty ]

unfoldable pub word_from : Str → ℕ → ℕ → Lexed
word_from rest end zero = elim (slice rest end) [
  | none ↦ fault not_a_boundary
  | some s ↦ emit (word_type s) s end
]
word_from rest end (suc more) = emit_slice path rest (end + suc more)

-- `YYYY-MM-DD`: hyphens at 4 and 7, digits elsewhere.
abbrev pub date_shape : ℕ → Str → Bool
date_shape i [] = true
date_shape i (c ∷ l) = (if i == 4 || i == 7 then c == 45 else is_digit c) && date_shape (suc i) l

unfoldable pub is_date : Str → Bool
is_date rest = leb 10 (length rest) && date_shape 0 (take 10 rest)

unfoldable pub block_length : Str → ℕ
block_length rest = elim (find_bytes (codes "\"\"\"") (drop 3 rest)) [
  | none ↦ length rest
  | some rel ↦ rel + 6
]

unfoldable pub operator_from : ℕ → Str → Lexed
operator_from c rest = elim (type_of (take 2 rest) pairs) [
  | some ty ↦ emit_slice ty rest 2
  | none ↦ elim (type_of (c ∷ []) singles) [
    | some ty ↦ emit ty (c ∷ []) 1
    | none ↦ elim (is_boundary rest) [
      | false ↦ fault not_a_boundary
      | true ↦ fault (unexpected (take (len_utf8 c) rest))
    ]
  ]
]

-- One round of the loop, on the bytes `c ∷ l` from `pos` on.
unfoldable pub lex_one : ℕ → Str → Lexed
lex_one c l =
    let rest = c ∷ l in
    if starts_with (codes "\"\"\"") rest
    then skip (block_length rest)
    else if c == 35
    then skip (span (λ b. not (b == 10)) rest)
    else if is_whitespace c
    then skip 1
    else if is_digit c && is_date rest
    then emit_slice date rest 10
    else if is_digit c
    then number_from rest (span is_digit_or_underscore rest)
    else if c == 34 || c == 39
    then string_from c 0 [] [] 1 l
    else if starts_word c
    then word_from rest (span is_word rest) (path_end (drop (span is_word rest) rest))
    else operator_from c rest
