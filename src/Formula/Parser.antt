-- ===== src/Formula/Parser.antt =====
-- The parser of rule formulas (src/formula.rs, `Parser`), its expressions. The state is the tokens
-- from `pos` on; past the end `peek` gives the last token, which the section takes as `last`. What a
-- call leaves of the tokens is no structural part of it, so each call costs a unit of fuel.
pub mod Terms
pub mod Ensures
pub mod Ends
pub mod Levels
pub mod Reads
pub mod Operators
pub mod Blocks
pub mod RoundTrip
pub mod Declarations
pub mod DeclarationsEnd
use axiom_rules_engine.Prelude.{
  ℕ, zero, suc, ◌+◌, Bool, true, false, ◌&&◌, ◌||◌, not, Option, none, some, List, [], ◌∷◌, length,
  if◌then◌else◌, get_or, is_some,
}
use axiom_rules_engine.Prelude.Ord.{Str}
use axiom_rules_engine.Formula.Tokens.{TokType, Token, same_type}

-- What the parser's errors say; the place is the token's.
pub data Message : Type 0 where
  expected : TokType → Token → Message
  unexpected_token unexpected_in_expression : Token → Message
  unexpected_metadata : TokType → Message
  let_binding wildcard_not_final not_callable : Message
  invalid_integer invalid_decimal invalid_date : Str → Message

abbrev pub Tokens : Type 0
Tokens = List Token

-- A result with the tokens that are left; an outcome of the model's own for a lack of fuel.
pub data Parse {ℓ} (A : Type ℓ) : Type ℓ where
  ok : A → Tokens → Parse A
  parse : (line col : ℕ) → Message → Parse A
  exhausted : Parse A

abbrev pub Reader {ℓ} : Type ℓ → Type ℓ
Reader A = Tokens → Parse A

abbrev pub pure {ℓ} : {A : Type ℓ} → A → Reader A
pure a ts = ok a ts

abbrev pub bind {ℓ κ} : {A : Type ℓ} {B : Type κ} → Parse A → (A → Reader B) → Parse B
bind (ok a ts) k = k a ts
bind (parse line col message) k = parse line col message
bind exhausted k = exhausted

infixl 1 ◌>>=◌ ◌>>◌
abbrev pub ◌>>=◌ {ℓ κ} : {A : Type ℓ} {B : Type κ} → Reader A → (A → Reader B) → Reader B
◌>>=◌ m k ts = bind (m ts) k

abbrev pub ◌>>◌ {ℓ κ} : {A : Type ℓ} {B : Type κ} → Reader A → Reader B → Reader B
◌>>◌ m k ts = bind (m ts) (λ _. k)

-- A branch; neither side runs before the test is known.
abbrev pub choose {ℓ} : {A : Type ℓ} → Bool → Reader A → Reader A → Reader A
choose true yes_side no_side ts = yes_side ts
choose false yes_side no_side ts = no_side ts

-- A branch on an optional value.
abbrev pub when_some {ℓ κ} :
    {A : Type ℓ} {B : Type κ} → Option A → Reader B → (A → Reader B) → Reader B
when_some none otherwise found ts = otherwise ts
when_some (some a) otherwise found ts = found a ts

-- `self.pos += 1`
abbrev pub advance : Reader (Unit {0})
advance [] = ok tt []
advance (t ∷ ts) = ok tt ts

abbrev pub refuse {ℓ} : {A : Type ℓ} → Token → Message → Reader A
refuse tok message ts = parse tok.line tok.col message

abbrev pub is_any : TokType → List TokType → Bool
is_any ty [] = false
is_any ty (t ∷ tys) = same_type ty t || is_any ty tys

module _ (last : Token) where
  abbrev pub peek : Tokens → ℕ → Token
  peek ts offset = get_or ts offset last

  abbrev pub at : List TokType → Tokens → Bool
  at tys ts = is_any (peek ts 0).ty tys

  unfoldable pub consume : TokType → Reader Token
  consume ty ts =
      let tok : Token = peek ts 0 in
      choose (same_type tok.ty ty) (advance >> pure tok) (refuse tok (expected ty tok)) ts

  unfoldable pub match_one : List TokType → Reader (Option Token)
  match_one tys ts = choose (at tys ts) (advance >> pure (some (peek ts 0))) (pure none) ts
