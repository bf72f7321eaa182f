-- ===== src/Formula/Lexer/Progress.antt =====
-- Every round of the lexer reads at least one byte, and a token that is no string is the text it
-- was read from.
use axiom_rules_engine.Prelude.{
  ℕ, zero, suc, ◌+◌, ◌≤◌, ◌≡◌, refl, ap, Bool, true, false, not, ◌&&◌, ◌||◌, ◌⊎◌, inl, inr, Option,
  none, some, [], ◌∷◌, ◌++◌, length, if◌then◌else◌, ◌==◌, Bool-cases, Option-cases, arith, get_or,
}
use axiom_rules_engine.Prelude.Ord.{Str, str_ord}
use axiom_rules_engine.Prelude.Text.{codes}
use axiom_rules_engine.Formula.Tokens.{
  TokType, string, type_of, pairs, singles, is_digit, is_digit_or_underscore, starts_word, is_word,
  is_whitespace, int, float, path, date,
}
use axiom_rules_engine.Formula.Bytes.{
  take, drop, span, starts_with, find_bytes, is_boundary, slice, first_char,
}
use axiom_rules_engine.Formula.Scan.{
  Lexed, skip, emit, fault, emit_slice, string_from, number_from, word_from, is_date, block_length,
  operator_from, lex_one,
}

-- What a round that starts at `rest` promises.
abbrev pub Reads : Str → Lexed → Type 0
Reads rest (skip n) = 1 ≤ n
Reads rest (emit ty value n) = (1 ≤ n) × ((ty ≡ string) ⊎ ((tail : Str) × (rest ≡ value ++ tail)))
Reads rest (fault f) = Unit

pub take-drop : (n : ℕ) (l : Str) → l ≡ take n l ++ drop n l
unfolding take drop
take-drop zero l = refl
take-drop (suc n) [] = refl
take-drop (suc n) (c ∷ l) = ap (λ t. c ∷ t) (take-drop n l)

slice-prefix :
    (rest : Str) (n : ℕ) (s : Str) → slice rest n ≡ some s → (tail : Str) × (rest ≡ s ++ tail)
unfolding slice
slice-prefix rest n s e = elim (Bool-cases (is_boundary rest && is_boundary (drop n rest))) [
  | inl ok ↦
      let both : some (take n rest) ≡ some s = rw ok at e in
      let same : take n rest ≡ s = cc in (drop n rest, rw (← same) (take-drop n rest))
  | inr bad ↦ let clash : none ≡ some s = rw bad at e in cc
]

-- A branch on a test, and on an option: each side is shown where it is taken.
Reads-if :
    (rest : Str) (b : Bool) (x y : Lexed)
    → (b ≡ true → Reads rest x)
    → (b ≡ false → Reads rest y)
    → Reads rest (elim b [ true ↦ x | false ↦ y ])
Reads-if rest true x y h k = h refl
Reads-if rest false x y h k = k refl

Reads-option {ℓ} :
    {A : Type ℓ} (rest : Str) (o : Option A) (x : Lexed) (f : A → Lexed)
    → Reads rest x
    → ((a : A) → o ≡ some a → Reads rest (f a))
    → Reads rest (elim o [ none ↦ x | some a ↦ f a ])
Reads-option rest none x f h k = h
Reads-option rest (some a) x f h k = k a refl

Reads-then :
    (rest : Str) (b : Bool) (x y : Lexed)
    → (b ≡ true → Reads rest x)
    → (b ≡ false → Reads rest y)
    → Reads rest (if b then x else y)
Reads-then rest true x y h k = h refl
Reads-then rest false x y h k = k refl

emit_slice-Reads : (ty : TokType) (rest : Str) (n : ℕ) → 1 ≤ n → Reads rest (emit_slice ty rest n)
unfolding emit_slice
emit_slice-Reads ty rest n h =
    Reads-option rest (slice rest n) _ _ tt (λ s e. (h, inr (slice-prefix rest n s e)))

string_from-Reads :
    (start : Str) (quote skipped : ℕ) (value segment : Str) (n : ℕ) (rest : Str)
    → Reads start (string_from quote skipped value segment n rest)
unfolding string_from
string_from-Reads start quote zero value segment n [] = tt
string_from-Reads start quote (suc skipped) value segment n [] = tt
string_from-Reads start quote (suc skipped) value segment n (c ∷ rest) =
    string_from-Reads start quote skipped value [] (suc n) rest
string_from-Reads start quote zero value segment n (c ∷ rest) =
    Reads-if start (c == quote) _ _
      (λ _.
        Reads-option start (slice (segment ++ c ∷ rest) (length segment)) _ _ tt
          (λ piece _. (omega arith, inl refl)))
      (λ _.
        Reads-if start (c == 92) _ _
          (λ _. Reads-option start (slice (segment ++ c ∷ rest) (length segment)) _ _ tt (λ piece _.
            Reads-if start (is_boundary rest) _ _
              (λ _.
                Reads-option start (first_char rest) _ _ tt
                  (λ escaped _. string_from-Reads start quote _ _ [] (suc n) rest))
              (λ _. tt)))
          (λ _. string_from-Reads start quote 0 value (segment ++ c ∷ []) (suc n) rest))

number_from-Reads : (rest : Str) (end : ℕ) → 1 ≤ end → Reads rest (number_from rest end)
unfolding number_from
number_from-Reads rest end h =
    Reads-if rest (starts_with (codes ".") (drop end rest)) _ _
      (λ _.
        Reads-if rest (is_digit (get_or (drop (suc end) rest) 0 0)) _ _
          (λ _. emit_slice-Reads float rest _ (omega arith)) (λ _. emit_slice-Reads int rest end h))
      (λ _. emit_slice-Reads int rest end h)

word_from-Reads : (rest : Str) (end more : ℕ) → 1 ≤ end → Reads rest (word_from rest end more)
unfolding word_from
word_from-Reads rest end zero h =
    Reads-option rest (slice rest end) _ _ tt (λ s e. (h, inr (slice-prefix rest end s e)))
word_from-Reads rest end (suc more) h = emit_slice-Reads path rest (end + suc more) (omega arith)

block_length-pos : (c : ℕ) (l : Str) → 1 ≤ block_length (c ∷ l)
unfolding block_length
block_length-pos c l = elim (Option-cases (find_bytes (codes "\"\"\"") (drop 3 (c ∷ l)))) [
  | inl e ↦ rw (block_length, e) (omega arith)
  | inr (rel, e) ↦ rw (block_length, e) (omega arith)
]

operator_from-Reads : (c : ℕ) (l : Str) → Reads (c ∷ l) (operator_from c (c ∷ l))
unfolding operator_from
operator_from-Reads c l =
    Reads-option (c ∷ l) (type_of (take 2 (c ∷ l)) pairs) _ _
      (Reads-option (c ∷ l) (type_of (c ∷ []) singles) _ _
        (Reads-if (c ∷ l) (is_boundary (c ∷ l)) _ _ (λ _. tt) (λ _. tt))
        (λ ty _. (omega arith, inr (l, refl))))
      (λ ty _. emit_slice-Reads ty (c ∷ l) 2 (omega arith))

span-pos : (p : ℕ → Bool) (c : ℕ) (l : Str) → p c ≡ true → 1 ≤ span p (c ∷ l)
unfolding span
span-pos p c l h = rw (span, h) (omega arith)

or_left : (a b : Bool) → a ≡ true → (a || b) ≡ true
or_left a b h = rw h refl

-- A round reads at least one byte, and a token that is no string spans its own text.
pub lex_one-Reads : (c : ℕ) (l : Str) → Reads (c ∷ l) (lex_one c l)
unfolding lex_one
lex_one-Reads c l =
    let r = Reads-then (c ∷ l) in
    r (starts_with (codes "\"\"\"") (c ∷ l)) _ _ (λ _. block_length-pos c l)
      (λ _.
        r (c == 35) _ _ (λ e. span-pos (λ b. not (b == 10)) c l (ground (arith, e)))
          (λ _.
            r (is_whitespace c) _ _ (λ _. omega arith)
              (λ _.
                r (is_digit c && is_date (c ∷ l)) _ _
                  (λ _. emit_slice-Reads date (c ∷ l) 10 (omega arith))
                  (λ _.
                    r (is_digit c) _ _
                      (λ e.
                        number_from-Reads (c ∷ l) _
                          (span-pos is_digit_or_underscore c l (or_left (is_digit c) (c == 95) e)))
                      (λ _.
                        r (c == 34 || c == 39) _ _ (λ _. string_from-Reads (c ∷ l) c 0 [] [] 1 l)
                          (λ _.
                            r (starts_word c) _ _
                              (λ e.
                                word_from-Reads (c ∷ l) _ _
                                  (span-pos is_word c l (ground (arith, e))))
                              (λ _. operator_from-Reads c l)))))))
