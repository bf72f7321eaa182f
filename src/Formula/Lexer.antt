-- ===== src/Formula/Lexer.antt =====
-- The lexer of rule formulas (src/formula.rs, `Lexer`): its state, with the bytes of the source from
-- `pos` on as `rest`, and its loop.
pub mod Progress
pub mod Positions
use axiom_rules_engine.Prelude.{
  ℕ, zero, suc, ◌+◌, Bool, true, false, ◌&&◌, ◌||◌, not, Option, none, some, List, [], ◌∷◌, ◌++◌,
  length, if◌then◌else◌, ◌==◌, ltb, leb, get_or,
}
use axiom_rules_engine.Prelude.Ord.{Str, str_ord}
use axiom_rules_engine.Prelude.Text.{codes}
use axiom_rules_engine.BTree.{key_eq}
use axiom_rules_engine.Formula.Tokens.{
  TokType, Token, type_of, pairs, singles, keyword, is_digit, is_digit_or_underscore, starts_word,
  is_word, is_whitespace, is_continuation, string, date, int, float, ident, path, eof,
}
use axiom_rules_engine.Formula.Bytes.{
  take, drop, span, starts_with, find_bytes, is_boundary, slice, len_utf8, first_char,
}
use axiom_rules_engine.Formula.Scan.{Lexed, skip, emit, fault, Fault, lex_one}

pub record Lexer : Type 0 where
  pub rest : Str
  pub line : ℕ
  pub col : ℕ
  pub tokens : List Token

unfoldable pub new : Str → Lexer
new src = record { rest = src; line = 1; col = 1; tokens = [] }

-- The lines and columns after one byte.
abbrev pub line_after : ℕ → ℕ → ℕ
line_after c line = if c == 10 then suc line else line

abbrev pub col_after : ℕ → ℕ → ℕ
col_after c col = if c == 10 then 1 else if is_continuation c then col else suc col

unfoldable pub advance_from : Str → ℕ → ℕ → List Token → ℕ → Lexer
advance_from rest line col tokens zero = record {
  rest = rest;
  line = line;
  col = col;
  tokens = tokens;
}
advance_from [] line col tokens (suc n) = record {
  rest = [];
  line = line;
  col = col;
  tokens = tokens;
}
advance_from (c ∷ rest) line col tokens (suc n) =
    advance_from rest (line_after c line) (col_after c col) tokens n

unfoldable pub advance : Lexer → ℕ → Lexer
advance self n = advance_from self.rest self.line self.col self.tokens n

unfoldable pub push : Lexer → TokType → Str → ℕ → ℕ → Lexer
push self ty value line col = record self {
  tokens = self.tokens ++ record { ty = ty; value = value; line = line; col = col } ∷ [];
}

-- The result of lexing, with an outcome of the model's own for a lack of fuel.
pub data Outcome : Type 0 where
  lexed : List Token → Outcome
  parse : (line col : ℕ) → Fault → Outcome
  exhausted : Outcome

unfoldable pub run : ℕ → Lexer → Outcome
run zero self = exhausted
run (suc fuel) self = elim self.rest [
  | [] ↦ lexed (push self eof [] self.line self.col).tokens
  | c ∷ l ↦ elim (lex_one c l) [
    | skip n ↦ run fuel (advance self n)
    | emit ty value n ↦ run fuel (push (advance self n) ty value self.line self.col)
    | fault f ↦ parse self.line self.col f
  ]
]

-- Every round reads a byte, so the length of the source, plus one for the end, is fuel enough.
unfoldable pub tokenise : Str → Outcome
tokenise src = run (suc (length src)) (new src)
