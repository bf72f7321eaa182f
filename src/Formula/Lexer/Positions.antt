-- ===== src/Formula/Lexer/Positions.antt =====
-- The lexer ends on every source, and its tokens and errors stand where they say: lines count line
-- feeds, columns count the characters since the last one.
use axiom_rules_engine.Prelude.{
  ℕ, zero, suc, ◌≤◌, ◌<◌, ◌≡◌, ◌≢◌, refl, sym, ◌∙◌, ap, Bool, false, ◌||◌, ◌⊎◌, List, [], ◌∷◌, ◌++◌,
  length, if◌then◌else◌, ◌==◌, arith, append_assoc, append-nil,
}
use axiom_rules_engine.Prelude.Ord.{Str}
use axiom_rules_engine.Formula.Tokens.{Token, string, eof, is_continuation}
use axiom_rules_engine.Formula.Bytes.{take, drop}
use axiom_rules_engine.Formula.Scan.{Lexed, skip, emit, fault, lex_one}
use axiom_rules_engine.Formula.Lexer.{
  Lexer, line_after, col_after, advance_from, advance, push, Outcome, lexed, parse, exhausted, run,
  tokenise, new,
}
use axiom_rules_engine.Formula.Lexer.Progress.{Reads, lex_one-Reads, take-drop}

abbrev pub newlines : Str → ℕ
newlines [] = 0
newlines (c ∷ l) = let n = newlines l in if c == 10 then suc n else n

abbrev pub has_newline : Str → Bool
has_newline [] = false
has_newline (c ∷ l) = c == 10 || has_newline l

-- The bytes after the last line feed.
abbrev pub last_line : Str → Str
last_line [] = []
last_line (c ∷ l) = if has_newline (c ∷ l) then last_line l else c ∷ l

abbrev pub characters : Str → ℕ
characters [] = 0
characters (c ∷ l) = let n = characters l in if is_continuation c then n else suc n

-- The line and the column that follow a text.
abbrev pub line_of : Str → ℕ
line_of before = suc (newlines before)

abbrev pub col_of : Str → ℕ
col_of before = suc (characters (last_line before))

newlines-append :
    (l : Str) (c : ℕ) → newlines (l ++ c ∷ []) ≡ (if c == 10 then suc (newlines l) else newlines l)
newlines-append [] c = refl
newlines-append (a ∷ l) c = ground (arith, newlines-append l c)

characters-append :
    (l : Str) (c : ℕ)
    → characters (l ++ c ∷ []) ≡ (if is_continuation c then characters l else suc (characters l))
characters-append [] c = refl
characters-append (a ∷ l) c = ground (arith, characters-append l c)

has_newline-append : (l : Str) (c : ℕ) → has_newline (l ++ c ∷ []) ≡ (has_newline l || c == 10)
has_newline-append [] c = ground arith
has_newline-append (a ∷ l) c = ground (arith, has_newline-append l c)

last_line-append :
    (l : Str) (c : ℕ) → last_line (l ++ c ∷ []) ≡ (if c == 10 then [] else last_line l ++ c ∷ [])
last_line-append [] c = ground arith
last_line-append (a ∷ l) c = ground (arith, last_line-append l c, has_newline-append l c)

line_of-append : (l : Str) (c : ℕ) → line_after c (line_of l) ≡ line_of (l ++ c ∷ [])
line_of-append l c = ground (arith, newlines-append l c)

col_of-append : (l : Str) (c : ℕ) → col_after c (col_of l) ≡ col_of (l ++ c ∷ [])
col_of-append l c = rw (last_line-append l c) (ground (arith, characters-append (last_line l) c))

abbrev at_position : Str → Str → List Token → Lexer
at_position before rest tokens = record {
  rest = rest;
  line = line_of before;
  col = col_of before;
  tokens = tokens;
}

advance_from-at_position :
    (before rest : Str) (tokens : List Token) (n : ℕ)
    → advance_from rest (line_of before) (col_of before) tokens n
      ≡ at_position (before ++ take n rest) (drop n rest) tokens
unfolding advance_from take drop
advance_from-at_position before rest tokens zero = rw append-nil refl
advance_from-at_position before [] tokens (suc n) = rw append-nil refl
advance_from-at_position before (c ∷ rest) tokens (suc n) =
    rw (line_of-append before c, col_of-append before c)
      (advance_from-at_position (before ++ c ∷ []) rest tokens n
        ∙ rw (append_assoc before (c ∷ []) (take n rest)) refl)

length-drop : (n : ℕ) (l : Str) → length (drop n l) ≤ length l
unfolding drop
length-drop zero l = omega arith
length-drop (suc n) [] = omega arith
length-drop (suc n) (c ∷ l) = let h = length-drop n l in omega arith

shorter : (n c : ℕ) (l : Str) → 1 ≤ n → length (drop n (c ∷ l)) ≤ length l
unfolding drop
shorter zero c l h = omega arith
shorter (suc n) c l h = length-drop n l

-- A line and a column at which some of the source has been read, and what has not.
abbrev pub Located : Str → ℕ → ℕ → Str → Type 0
Located src line col rest =
    (before : Str) × (src ≡ before ++ rest) × (line ≡ line_of before) × (col ≡ col_of before)

-- A token stands where it says; unless it is a string, its value is the text that stands there.
abbrev pub IsRead : Str → Token → Type 0
IsRead src token =
    (rest : Str) × Located src token.line token.col rest
    × ((token.ty ≡ string) ⊎ ((tail : Str) × (rest ≡ token.value ++ tail)))

abbrev pub AllRead : Str → List Token → Type 0
AllRead src [] = Unit
AllRead src (token ∷ l) = IsRead src token × AllRead src l

abbrev pub end_of : Str → Token
end_of src = record { ty = eof; value = []; line = line_of src; col = col_of src }

abbrev pub Faithful : Str → Outcome → Type 0
Faithful src (lexed tokens) =
    (body : List Token) × (tokens ≡ body ++ end_of src ∷ []) × AllRead src body
Faithful src (parse line col f) = (rest : Str) × (rest ≢ []) × Located src line col rest
Faithful src exhausted = ⊥

AllRead-append :
    (src : Str) (l : List Token) (token : Token)
    → AllRead src l
    → IsRead src token
    → AllRead src (l ++ token ∷ [])
AllRead-append src [] token a r = (r, tt)
AllRead-append src (x ∷ l) token a r = (a.0, AllRead-append src l token a.1 r)

advance-at_position :
    (before rest : Str) (tokens : List Token) (n : ℕ)
    → advance (at_position before rest tokens) n
      ≡ at_position (before ++ take n rest) (drop n rest) tokens
unfolding advance
advance-at_position before rest tokens n = advance_from-at_position before rest tokens n

source-split :
    (src before rest : Str) (n : ℕ)
    → src ≡ before ++ rest
    → src ≡ (before ++ take n rest) ++ drop n rest
source-split src before rest n e =
    e
    ∙ ap (λ r. before ++ r) (take-drop n rest)
    ∙ sym (append_assoc before (take n rest) (drop n rest))

module _ (src : Str) where
  abbrev Continues : ℕ → Type 0
  Continues fuel =
      (before rest : Str) (tokens : List Token)
      → src ≡ before ++ rest
      → AllRead src tokens
      → length rest < fuel
      → Faithful src (run fuel (at_position before rest tokens))

  round :
      (fuel : ℕ) (before : Str) (c : ℕ) (l : Str) (tokens : List Token) (r : Lexed)
      → Continues fuel
      → src ≡ before ++ c ∷ l
      → AllRead src tokens
      → length l < fuel
      → Reads (c ∷ l) r
      → Faithful src (elim r [
        | skip n ↦ run fuel (advance (at_position before (c ∷ l) tokens) n)
        | emit ty value n ↦ run fuel (
            push
              (advance (at_position before (c ∷ l) tokens) n)
              ty
              value
              (line_of before)
              (col_of before))
        | fault f ↦ parse (line_of before) (col_of before) f
      ])
  unfolding push
  round fuel before c l tokens (skip n) next e a h r =
      rw (advance-at_position before (c ∷ l) tokens n) (
        next (before ++ take n (c ∷ l)) (drop n (c ∷ l)) tokens
          (source-split src before (c ∷ l) n e) a (let k = shorter n c l r in omega arith))
  round fuel before c l tokens (emit ty value n) next e a h r =
      rw (advance-at_position before (c ∷ l) tokens n) (
        next (before ++ take n (c ∷ l)) (drop n (c ∷ l)) _ (source-split src before (c ∷ l) n e)
          (AllRead-append src tokens _ a (c ∷ l, (before, e, refl, refl), r.1))
          (let k = shorter n c l r.0 in omega arith))
  round fuel before c l tokens (fault f) next e a h r = (c ∷ l, λ w. cc, (before, e, refl, refl))

  run-Faithful : (fuel : ℕ) → Continues fuel
  unfolding run push
  run-Faithful zero before rest tokens e a h = omega arith
  run-Faithful (suc fuel) before [] tokens e a h =
      let same : before ≡ src = sym (e ∙ append-nil before) in (tokens, rw same refl, a)
  run-Faithful (suc fuel) before (c ∷ l) tokens e a h =
      round fuel before c l tokens (lex_one c l) (run-Faithful fuel) e a (omega arith)
        (lex_one-Reads c l)

-- On every source the lexer ends. If it succeeds, its tokens are some tokens followed by one end
-- token at the position after the source; each of those tokens has the line and column of a place
-- in the source, and unless it is a string its value is the text that stands there. If it fails,
-- the line and column are those of a place in the source before its end. Lines count line feeds,
-- columns the characters since the last one.
pub tokenise-Faithful : (src : Str) → Faithful src (tokenise src)
unfolding tokenise new
tokenise-Faithful src = run-Faithful src (suc (length src)) [] src [] refl tt (omega arith)
