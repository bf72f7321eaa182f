-- ===== src/Formula/Parser/Ensures.antt =====
-- Postconditions of the parser's calls (src/formula.rs, `Parser`): that a call keeps within its fuel,
-- and what holds of what it gives and leaves; with what `advance`, `consume` and `match_one` take.
use axiom_rules_engine.Prelude.{
  ℕ, ◌≤◌, ◌<◌, ◌≡◌, refl, Bool, true, false, Option, none, some, [], ◌∷◌, length, arith, is_some,
}
use axiom_rules_engine.Formula.Tokens.{TokType, Token, same_type}
use axiom_rules_engine.Formula.Parser.{
  Message, Tokens, Parse, ok, parse, Reader, bind, choose, when_some, advance, is_any, peek, at,
  consume, match_one,
}

-- The call kept within its fuel, and `P` holds of what it gives and leaves.
pub data Ensures {ℓ κ} {A : Type ℓ} (P : A → Tokens → Type κ) : Parse A → Type (ℓ ⊔ κ) where
  gives : {a : A} {ts : Tokens} → P a ts → Ensures P (ok a ts)
  refuses : {line col : ℕ} {message : Message} → Ensures P (parse line col message)

module _ {ℓ} {A : Type ℓ} where
  abbrev pub Shorter : Tokens → A → Tokens → Type 0
  Shorter ts a rest = length rest < length ts

  abbrev pub Kept : Tokens → A → Tokens → Type 0
  Kept ts a rest = length rest ≤ length ts

  pub Ensures-weaken :
      {P Q : A → Tokens → Type 0} {r : Parse A}
      → Ensures P r
      → ((a : A) (ts : Tokens) → P a ts → Q a ts)
      → Ensures Q r
  Ensures-weaken (gives {a} {ts} h) w = gives (w a ts h)
  Ensures-weaken refuses w = refuses

  pub Ensures-bind {κ} :
      {B : Type κ} {P : A → Tokens → Type 0} {Q : B → Tokens → Type 0} {r : Parse A}
      {k : A → Reader B}
      → Ensures P r
      → ((a : A) (ts : Tokens) → P a ts → Ensures Q (k a ts))
      → Ensures Q (bind r k)
  Ensures-bind (gives {a} {ts} h) w = w a ts h
  Ensures-bind refuses w = refuses

  pub Ensures-choose :
      {P : A → Tokens → Type 0} (b : Bool) (x y : Reader A) {ts : Tokens}
      → (b ≡ true → Ensures P (x ts))
      → (b ≡ false → Ensures P (y ts))
      → Ensures P (choose b x y ts)
  Ensures-choose true x y h k = h refl
  Ensures-choose false x y h k = k refl

  pub Ensures-when_some {κ} :
      {B : Type κ} {P : A → Tokens → Type 0} (o : Option B) (x : Reader A) (y : B → Reader A)
      {ts : Tokens}
      → Ensures P (x ts)
      → ((b : B) → Ensures P (y b ts))
      → Ensures P (when_some o x y ts)
  Ensures-when_some none x y h k = h
  Ensures-when_some (some b) x y h k = k b

pub advance-Kept : (ts : Tokens) → Ensures (Kept ts) (advance ts)
advance-Kept [] = gives (omega arith)
advance-Kept (t ∷ ts) = gives (omega arith)

-- Not an end token, so something is left.
pub not_end :
    (last : Token) (ts : Tokens)
    → last.ty ≡ TokType.eof
    → same_type (peek last ts 0).ty TokType.eof ≡ false
    → 0 < length ts
not_end last [] closed h = let clash : true ≡ false = rw closed at h in cc
not_end last (t ∷ ts) closed h = omega arith

module _ (last : Token) (closed : last.ty ≡ TokType.eof) where
  -- At a token that is no end token something is left.
  pub at_some :
      (tys : _) (ts : Tokens)
      → is_any TokType.eof tys ≡ false
      → at last tys ts ≡ true
      → 0 < length ts
  at_some tys [] e h = let clash : is_any TokType.eof tys ≡ true = rw closed at h in cc
  at_some tys (t ∷ ts) e h = omega arith

  pub advance-Shorter : (ts : Tokens) → 0 < length ts → Ensures (Shorter ts) (advance ts)
  advance-Shorter [] h = absurd (omega arith)
  advance-Shorter (t ∷ ts) h = gives (omega arith)

  pub consume-Shorter :
      (ty : TokType) (ts : Tokens)
      → same_type TokType.eof ty ≡ false
      → Ensures (Shorter ts) (consume last ty ts)
  unfolding consume
  consume-Shorter ty [] e = rw (closed, e) refuses
  consume-Shorter ty (t ∷ ts) e =
      Ensures-choose (same_type t.ty ty) _ _ (λ _. gives (omega arith)) (λ _. refuses)

  -- Of any type, an end token included, which stays.
  pub consume-Kept : (ty : TokType) (ts : Tokens) → Ensures (Kept ts) (consume last ty ts)
  unfolding consume
  consume-Kept ty [] =
      Ensures-choose (same_type last.ty ty) _ _ (λ _. gives (omega arith)) (λ _. refuses)
  consume-Kept ty (t ∷ ts) =
      Ensures-choose (same_type t.ty ty) _ _ (λ _. gives (omega arith)) (λ _. refuses)

  abbrev pub Matched : Tokens → Option Token → Tokens → Type 0
  Matched ts found rest =
      (is_some found ≡ true → length rest < length ts) × (length rest ≤ length ts)

  pub match_one-Matched :
      (tys : _) (ts : Tokens)
      → is_any TokType.eof tys ≡ false
      → Ensures (Matched ts) (match_one last tys ts)
  unfolding match_one
  match_one-Matched tys [] e = rw (closed, e) (gives ((λ h. cc), omega arith))
  match_one-Matched tys (t ∷ ts) e =
      Ensures-choose (is_any t.ty tys) _ _ (λ _. gives ((λ _. omega arith), omega arith))
        (λ _. gives ((λ h. cc), omega arith))
