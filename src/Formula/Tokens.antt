-- ===== src/Formula/Tokens.antt =====
-- The tokens of rule formulas (src/formula.rs): their types, their texts, and the keywords.
use axiom_rules_engine.Prelude.{
  ℕ, Bool, ◌&&◌, ◌||◌, Option, none, some, List, [], ◌∷◌, if◌then◌else◌, ◌==◌, ltb, leb,
}
use axiom_rules_engine.Prelude.Ord.{Str, str_ord}
use axiom_rules_engine.Prelude.Text.{codes}
use axiom_rules_engine.BTree.{key_eq}

pub data TokType : Type 0 where
  ident path int float string date : TokType
  entity amend from to match' if' elif else' and or not' true' false' : TokType
  colon comma dot arrow fk assign : TokType
  le ge eq ne lt gt : TokType
  plus minus star slash : TokType
  lparen rparen lbracket rbracket : TokType
  eof : TokType

pub record Token : Type 0 where
  pub ty : TokType
  pub value : Str
  pub line : ℕ
  pub col : ℕ

-- The keywords with their token types, in the order of the match.
abbrev pub keywords : List (Str × TokType)
keywords =
    (codes "entity", entity)
    ∷ (codes "amend", amend)
    ∷ (codes "from", from)
    ∷ (codes "to", to)
    ∷ (codes "match", match')
    ∷ (codes "if", if')
    ∷ (codes "elif", elif)
    ∷ (codes "else", else')
    ∷ (codes "and", and)
    ∷ (codes "or", or)
    ∷ (codes "not", not')
    ∷ (codes "true", true')
    ∷ (codes "True", true')
    ∷ (codes "false", false')
    ∷ (codes "False", false')
    ∷ []

-- A `match` on a text.
unfoldable pub type_of : Str → List (Str × TokType) → Option TokType
type_of s [] = none
type_of s ((word, ty) ∷ rest) =
    let other = type_of s rest in if key_eq s word then some ty else other

unfoldable pub keyword : Str → Option TokType
unfolding type_of
keyword s = type_of s keywords

-- `u8`'s ASCII classes.
abbrev pub is_digit : ℕ → Bool
is_digit c = leb 48 c && leb c 57

abbrev pub is_alphabetic : ℕ → Bool
is_alphabetic c = (leb 65 c && leb c 90) || (leb 97 c && leb c 122)

-- `is_ascii_alphabetic() || b'_'`, `is_ascii_alphanumeric() || b'_'`, `is_ascii_digit() || b'_'`
abbrev pub starts_word : ℕ → Bool
starts_word c = is_alphabetic c || c == 95

abbrev pub is_word : ℕ → Bool
is_word c = is_alphabetic c || is_digit c || c == 95

abbrev pub is_digit_or_underscore : ℕ → Bool
is_digit_or_underscore c = is_digit c || c == 95

abbrev pub is_whitespace : ℕ → Bool
is_whitespace c = c == 32 || c == 9 || c == 10 || c == 12 || c == 13

-- `c & 0xC0 == 0x80`: a UTF-8 continuation byte.
abbrev pub is_continuation : ℕ → Bool
is_continuation c = leb 128 c && ltb c 192

-- The operators of two characters, and those of one.
abbrev pub pairs : List (Str × TokType)
pairs =
    (codes "=>", arrow)
    ∷ (codes "<=", le)
    ∷ (codes ">=", ge)
    ∷ (codes "==", eq)
    ∷ (codes "!=", ne)
    ∷ (codes "->", fk)
    ∷ []

abbrev pub singles : List (Str × TokType)
singles =
    (codes ":", colon)
    ∷ (codes ",", comma)
    ∷ (codes ".", dot)
    ∷ (codes "=", assign)
    ∷ (codes "+", plus)
    ∷ (codes "-", minus)
    ∷ (codes "*", star)
    ∷ (codes "/", slash)
    ∷ (codes "<", lt)
    ∷ (codes ">", gt)
    ∷ (codes "(", lparen)
    ∷ (codes ")", rparen)
    ∷ (codes "[", lbracket)
    ∷ (codes "]", rbracket)
    ∷ []

-- The derived equality of token types, by the place of the variant.
abbrev pub place : TokType → ℕ
place ident = 0
place path = 1
place int = 2
place float = 3
place string = 4
place date = 5
place entity = 6
place amend = 7
place from = 8
place to = 9
place match' = 10
place if' = 11
place elif = 12
place else' = 13
place and = 14
place or = 15
place not' = 16
place true' = 17
place false' = 18
place colon = 19
place comma = 20
place dot = 21
place arrow = 22
place fk = 23
place assign = 24
place le = 25
place ge = 26
place eq = 27
place ne = 28
place lt = 29
place gt = 30
place plus = 31
place minus = 32
place star = 33
place slash = 34
place lparen = 35
place rparen = 36
place lbracket = 37
place rbracket = 38
place eof = 39

abbrev pub same_type : TokType → TokType → Bool
same_type a b = place a == place b
