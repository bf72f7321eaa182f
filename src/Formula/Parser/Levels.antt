-- ===== src/Formula/Parser/Levels.antt =====
-- How the parser's levels relate (src/formula.rs, `parse_expr` to `parse_primary`): a tree that one
-- level reads is read by each looser one, where nothing that follows belongs to it.
use axiom_rules_engine.Prelude.{
  ℕ, zero, suc, ◌+◌, ◌*◌, ◌-◌, ◌≤◌, ◌<◌, ◌≡◌, refl, Bool, true, false, none, [], ◌∷◌, length, arith,
  ◌≢◌, sym, subst,
}
use native.Mathlib.Decide.{ℕ_discrete, dec_le}
use axiom_rules_engine.Model.Platform.{Platform}
use axiom_rules_engine.Formula.Tokens.{TokType, Token, same_type}
use axiom_rules_engine.Formula.Ast.{Expr}
use axiom_rules_engine.Formula.Parser.{Tokens, Parse, ok, Reader, peek, at, match_one}
use axiom_rules_engine.Formula.Parser.Terms.{
  comparison, additive, multiplicative, at_let, parse_expr, parse_or, or_rest, parse_and, and_rest,
  parse_cmp, cmp_rest, parse_add, add_rest, parse_mul, mul_rest, parse_unary, parse_postfix,
  postfix_rest, parse_primary,
}

-- The level at which a token goes on with a tree in front of it; 8 for `=`, which makes a name before
-- it a binding.
abbrev pub binds : TokType → ℕ
binds TokType.or = 1
binds TokType.and = 2
binds TokType.lt = 3
binds TokType.gt = 3
binds TokType.le = 3
binds TokType.ge = 3
binds TokType.eq = 3
binds TokType.ne = 3
binds TokType.plus = 4
binds TokType.minus = 4
binds TokType.star = 5
binds TokType.slash = 5
binds TokType.lparen = 7
binds TokType.dot = 7
binds TokType.lbracket = 7
binds TokType.assign = 8
binds _ = 0

binds-or : (ty : TokType) → binds ty < 1 → same_type ty TokType.or ≡ false
binds-or TokType.or h = absurd (omega arith)
binds-or _ h = refl

binds-and : (ty : TokType) → binds ty < 2 → same_type ty TokType.and ≡ false
binds-and TokType.and h = absurd (omega arith)
binds-and _ h = refl

binds-comparison : (ty : TokType) → binds ty < 3 → comparison ty ≡ none
binds-comparison TokType.lt h = absurd (omega arith)
binds-comparison TokType.gt h = absurd (omega arith)
binds-comparison TokType.le h = absurd (omega arith)
binds-comparison TokType.ge h = absurd (omega arith)
binds-comparison TokType.eq h = absurd (omega arith)
binds-comparison TokType.ne h = absurd (omega arith)
binds-comparison _ h = refl

binds-additive : (ty : TokType) → binds ty < 4 → additive ty ≡ none
binds-additive TokType.plus h = absurd (omega arith)
binds-additive TokType.minus h = absurd (omega arith)
binds-additive _ h = refl

binds-multiplicative : (ty : TokType) → binds ty < 5 → multiplicative ty ≡ none
binds-multiplicative TokType.star h = absurd (omega arith)
binds-multiplicative TokType.slash h = absurd (omega arith)
binds-multiplicative _ h = refl

-- No suffix begins.
abbrev NoSuffix : TokType → Type 0
NoSuffix ty =
    (same_type ty TokType.lparen ≡ false)
    × (same_type ty TokType.dot ≡ false)
    × (same_type ty TokType.lbracket ≡ false)

binds-NoSuffix : (ty : TokType) → binds ty < 7 → NoSuffix ty
binds-NoSuffix TokType.lparen h = absurd (omega arith)
binds-NoSuffix TokType.dot h = absurd (omega arith)
binds-NoSuffix TokType.lbracket h = absurd (omega arith)
binds-NoSuffix _ h = (refl, refl, refl)

module _ ⦃p : Platform⦄ (last : Token) where
  -- The parser of each level, and what it goes on with after a tree.
  abbrev pub parse_at : ℕ → ℕ → Reader Expr
  parse_at zero = parse_expr last
  parse_at (suc zero) = parse_or last
  parse_at (suc (suc zero)) = parse_and last
  parse_at (suc (suc (suc zero))) = parse_cmp last
  parse_at (suc (suc (suc (suc zero)))) = parse_add last
  parse_at (suc (suc (suc (suc (suc zero))))) = parse_mul last
  parse_at (suc (suc (suc (suc (suc (suc zero)))))) = parse_unary last
  parse_at (suc (suc (suc (suc (suc (suc (suc zero))))))) = parse_postfix last
  parse_at _ = parse_primary last

  -- With fuel enough the level reads `e` off `ts` and leaves `rest`.
  abbrev pub Full : ℕ → Expr → Tokens → Tokens → Type 0
  Full k e ts rest = (f : ℕ) → 12 * length ts + (11 - k) < f → parse_at k f ts ≡ ok e rest

  -- The loop of a level after the tree `e`.
  abbrev pub loop_at : ℕ → ℕ → Expr → Reader Expr
  loop_at (suc zero) = or_rest last
  loop_at (suc (suc zero)) = and_rest last
  loop_at (suc (suc (suc zero))) = cmp_rest last
  loop_at (suc (suc (suc (suc zero)))) = add_rest last
  loop_at (suc (suc (suc (suc (suc zero))))) = mul_rest last
  loop_at _ = postfix_rest last

  abbrev pub Goes : ℕ → Expr → Tokens → Parse Expr → Type 0
  Goes k e ts r = (f : ℕ) → 12 * length ts + 2 < f → loop_at k f e ts ≡ r

  -- The level reads `e` off `ts` and goes on with `rest`.
  abbrev pub Left : ℕ → Expr → Tokens → Tokens → Type 0
  Left k e ts rest =
      (r : Parse Expr)
      → Goes k e rest r
      → (f : ℕ) → 12 * length ts + (11 - k) < f
      → parse_at k f ts ≡ r

  -- One of the levels with a loop.
  abbrev pub is_loop : ℕ → Bool
  is_loop (suc zero) = true
  is_loop (suc (suc zero)) = true
  is_loop (suc (suc (suc zero))) = true
  is_loop (suc (suc (suc (suc zero)))) = true
  is_loop (suc (suc (suc (suc (suc zero))))) = true
  is_loop (suc (suc (suc (suc (suc (suc (suc zero))))))) = true
  is_loop _ = false

  pub loop_step :
      (k : ℕ) (e : Expr) (ts rest : Tokens)
      → is_loop k ≡ true
      → length rest < length ts
      → Full (suc k) e ts rest
      → Left k e ts rest
  unfolding parse_expr
  loop_step (suc zero) e ts rest l h full r goes zero b = absurd (omega arith)
  loop_step (suc zero) e ts rest l h full r goes (suc f) b =
      rw (full f (omega arith)) (goes f (omega arith))
  loop_step (suc (suc zero)) e ts rest l h full r goes zero b = absurd (omega arith)
  loop_step (suc (suc zero)) e ts rest l h full r goes (suc f) b =
      rw (full f (omega arith)) (goes f (omega arith))
  loop_step (suc (suc (suc zero))) e ts rest l h full r goes zero b = absurd (omega arith)
  loop_step (suc (suc (suc zero))) e ts rest l h full r goes (suc f) b =
      rw (full f (omega arith)) (goes f (omega arith))
  loop_step (suc (suc (suc (suc zero)))) e ts rest l h full r goes zero b = absurd (omega arith)
  loop_step (suc (suc (suc (suc zero)))) e ts rest l h full r goes (suc f) b =
      rw (full f (omega arith)) (goes f (omega arith))
  loop_step (suc (suc (suc (suc (suc zero))))) e ts rest l h full r goes zero b =
      absurd (omega arith)
  loop_step (suc (suc (suc (suc (suc zero))))) e ts rest l h full r goes (suc f) b =
      rw (full f (omega arith)) (goes f (omega arith))
  loop_step (suc (suc (suc (suc (suc (suc (suc zero))))))) e ts rest l h full r goes zero b =
      absurd (omega arith)
  loop_step (suc (suc (suc (suc (suc (suc (suc zero))))))) e ts rest l h full r goes (suc f) b =
      rw (full f (omega arith)) (goes f (omega arith))
  loop_step _ e ts rest l h full r goes f b = cc

  pub loop_stop :
      (k : ℕ) (e : Expr) (rest : Tokens)
      → is_loop k ≡ true
      → binds (peek last rest 0).ty < k
      → Goes k e rest (ok e rest)
  unfolding parse_expr match_one
  loop_stop (suc zero) e rest l h zero b = absurd (omega arith)
  loop_stop (suc zero) e rest l h (suc f) b = rw (binds-or (peek last rest 0).ty h) refl
  loop_stop (suc (suc zero)) e rest l h zero b = absurd (omega arith)
  loop_stop (suc (suc zero)) e rest l h (suc f) b = rw (binds-and (peek last rest 0).ty h) refl
  loop_stop (suc (suc (suc zero))) e rest l h zero b = absurd (omega arith)
  loop_stop (suc (suc (suc zero))) e rest l h (suc f) b =
      rw (binds-comparison (peek last rest 0).ty h) refl
  loop_stop (suc (suc (suc (suc zero)))) e rest l h zero b = absurd (omega arith)
  loop_stop (suc (suc (suc (suc zero)))) e rest l h (suc f) b =
      rw (binds-additive (peek last rest 0).ty h) refl
  loop_stop (suc (suc (suc (suc (suc zero))))) e rest l h zero b = absurd (omega arith)
  loop_stop (suc (suc (suc (suc (suc zero))))) e rest l h (suc f) b =
      rw (binds-multiplicative (peek last rest 0).ty h) refl
  loop_stop (suc (suc (suc (suc (suc (suc (suc zero))))))) e rest l h zero b = absurd (omega arith)
  loop_stop (suc (suc (suc (suc (suc (suc (suc zero))))))) e rest l h (suc f) b =
      let none_begins = binds-NoSuffix (peek last rest 0).ty h in
      rw (none_begins.0, none_begins.1, none_begins.2) refl
  loop_stop _ e rest l h f b = cc

  step_loop :
      (k : ℕ) (e : Expr) (ts rest : Tokens)
      → is_loop k ≡ true
      → length rest < length ts
      → binds (peek last rest 0).ty < k
      → Full (suc k) e ts rest
      → Full k e ts rest
  step_loop k e ts rest l h b full =
      loop_step k e ts rest l h full (ok e rest) (loop_stop k e rest l b)

  -- No prefix operator stands first.
  abbrev pub NoPrefix : Tokens → Type 0
  NoPrefix ts = (at last (TokType.minus ∷ []) ts ≡ false) × (at last (TokType.not' ∷ []) ts ≡ false)

  -- No binding, match or conditional begins.
  abbrev pub IsPlain : Tokens → Type 0
  IsPlain ts =
      (at_let last ts ≡ false)
      × (at last (TokType.match' ∷ []) ts ≡ false)
      × (at last (TokType.if' ∷ []) ts ≡ false)

  step_unary : (e : Expr) (ts rest : Tokens) → NoPrefix ts → Full 7 e ts rest → Full 6 e ts rest
  unfolding parse_expr match_one
  step_unary e ts rest h full zero b = absurd (omega arith)
  step_unary e ts rest h full (suc f) b = rw (h.0, h.1) (full f (omega arith))

  pub step_expr :
      (e : Expr) (ts rest : Tokens) → IsPlain ts → Full 1 e ts rest → Full zero e ts rest
  unfolding parse_expr
  step_expr e ts rest h full zero b = absurd (omega arith)
  step_expr e ts rest h full (suc f) b = rw (h.0, h.1, h.2) (full f (omega arith))

  is_loop_between : (j : ℕ) → 1 ≤ j → j < 8 → j ≢ 6 → is_loop j ≡ true
  is_loop_between zero h b n = absurd (omega arith)
  is_loop_between (suc zero) h b n = refl
  is_loop_between (suc (suc zero)) h b n = refl
  is_loop_between (suc (suc (suc zero))) h b n = refl
  is_loop_between (suc (suc (suc (suc zero)))) h b n = refl
  is_loop_between (suc (suc (suc (suc (suc zero))))) h b n = refl
  is_loop_between (suc (suc (suc (suc (suc (suc zero)))))) h b n = absurd (n refl)
  is_loop_between (suc (suc (suc (suc (suc (suc (suc zero))))))) h b n = refl
  is_loop_between (suc (suc (suc (suc (suc (suc (suc (suc n)))))))) h b e = absurd (omega arith)

  step :
      (j : ℕ) (e : Expr) (ts rest : Tokens)
      → 1 ≤ j
      → j < 8
      → length rest < length ts
      → binds (peek last rest 0).ty < j
      → (j ≡ 6 → NoPrefix ts)
      → Full (suc j) e ts rest
      → Full j e ts rest
  step j e ts rest h b l s plain full = elim (ℕ_discrete j 6) [
    | yes same ↦
        subst (λ (i : ℕ). Full i e ts rest) (sym same)
          (step_unary e ts rest (plain same) (subst (λ (i : ℕ). Full (suc i) e ts rest) same full))
    | no other ↦ step_loop j e ts rest (is_loop_between j h b other) l s full
  ]

  -- From a level to a looser one.
  pub descend :
      (j k : ℕ) (e : Expr) (ts rest : Tokens)
      → k ≤ j
      → j ≤ 8
      → 1 ≤ k
      → length rest < length ts
      → binds (peek last rest 0).ty < k
      → (6 < j → NoPrefix ts)
      → Full j e ts rest
      → Full k e ts rest
  descend zero k e ts rest h b one l s plain full = absurd (omega arith)
  descend (suc j) k e ts rest h b one l s plain full = elim (dec_le k j) [
    | yes more ↦
        descend j k e ts rest more (omega arith) one l s (λ q. plain (omega arith))
          (step j e ts rest (omega arith) (omega arith) l (omega arith) (λ q. plain (omega arith))
            full)
    | no last_one ↦
        let same : suc j ≡ k = omega arith in subst (λ (i : ℕ). Full i e ts rest) same full
  ]
