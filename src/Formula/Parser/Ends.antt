-- ===== src/Formula/Parser/Ends.antt =====
-- The parser of expressions ends (src/formula.rs, `parse_expr` to `parse_primary`): on tokens closed
-- by an end token, each call has fuel enough with twelve units for each token and a few for its own
-- depth in the grammar, and an expression takes at least one token.
use axiom_rules_engine.Prelude.{
  ℕ, zero, suc, ◌+◌, ◌*◌, ◌<◌, ◌≡◌, refl, not, Option, none, some, [], ◌∷◌, length, arith, is_some,
}
use axiom_rules_engine.Prelude.Int.{ℤ}
use axiom_rules_engine.Model.Platform.{Platform}
use axiom_rules_engine.Formula.Tokens.{TokType, Token}
use axiom_rules_engine.Formula.Ast.{Expr, Default, no_default, default}
use axiom_rules_engine.Formula.Parser.{Tokens, Reader, at}
use axiom_rules_engine.Formula.Parser.Ensures.{
  Ensures, gives, refuses, Shorter, Kept, Ensures-weaken, Ensures-bind, Ensures-choose,
  Ensures-when_some, consume-Shorter, match_one-Matched,
}
use axiom_rules_engine.Formula.Parser.Terms.{
  int_literal, float_literal, primary_from, comparison, additive, multiplicative, callee,
  is_default, is_wildcard, at_arm, at_let, parse_expr, parse_match, match_arms, parse_cond,
  parse_elif_chain, parse_or, or_rest, parse_and, and_rest, parse_cmp, cmp_rest, parse_add,
  add_rest, parse_mul, mul_rest, parse_unary, parse_postfix, postfix_rest, call_args, args_rest,
  parse_primary,
}

module _ ⦃p : Platform⦄ where
  open p use {Decimal}

  int_literal-Ends :
      (tok t : Token) (v : Option ℤ) (ts : Tokens)
      → Ensures (Shorter (t ∷ ts)) (int_literal tok v ts)
  int_literal-Ends tok t none ts = refuses
  int_literal-Ends tok t (some v) ts = gives (omega arith)

  float_literal-Ends :
      (tok t : Token) (v : Option Decimal) (ts : Tokens)
      → Ensures (Shorter (t ∷ ts)) (float_literal tok v ts)
  float_literal-Ends tok t none ts = refuses
  float_literal-Ends tok t (some v) ts = gives (omega arith)

  primary_from-Ends :
      (ty : TokType) (tok : Token) (parenthesised : Reader Expr) (t : Token) (ts : Tokens)
      → Ensures (Shorter (t ∷ ts)) (parenthesised (t ∷ ts))
      → Ensures (Shorter (t ∷ ts)) (primary_from ty tok parenthesised (t ∷ ts))
  primary_from-Ends TokType.int tok parenthesised t ts h = int_literal-Ends tok t _ ts
  primary_from-Ends TokType.float tok parenthesised t ts h = float_literal-Ends tok t _ ts
  primary_from-Ends TokType.string tok parenthesised t ts h = gives (omega arith)
  primary_from-Ends TokType.true' tok parenthesised t ts h = gives (omega arith)
  primary_from-Ends TokType.false' tok parenthesised t ts h = gives (omega arith)
  primary_from-Ends TokType.ident tok parenthesised t ts h = gives (omega arith)
  primary_from-Ends TokType.path tok parenthesised t ts h = gives (omega arith)
  primary_from-Ends TokType.lparen tok parenthesised t ts h = h
  primary_from-Ends _ tok parenthesised t ts h = refuses

module _ ⦃p : Platform⦄ (last : Token) (closed : last.ty ≡ TokType.eof) where
  mutual
    unfolding parse_expr parse_match match_arms parse_cond parse_elif_chain parse_or or_rest
        parse_and and_rest parse_cmp cmp_rest parse_add add_rest parse_mul mul_rest parse_unary
        parse_postfix postfix_rest call_args args_rest parse_primary

    pub parse_expr-Ends :
        (f : ℕ) (ts : Tokens)
        → 12 * length ts + 11 < f
        → Ensures (Shorter ts) (parse_expr last f ts)
    parse_expr-Ends zero ts h = absurd (omega arith)
    parse_expr-Ends (suc f) ts h =
        Ensures-choose (at_let last ts) _ _ (λ _. refuses)
          λ _.
            Ensures-choose (at last (TokType.match' ∷ []) ts) _ _
              (λ _. parse_match-Ends f ts (omega arith))
              λ _.
                Ensures-choose (at last (TokType.if' ∷ []) ts) _ _
                  (λ _. parse_cond-Ends f ts (omega arith)) λ _. parse_or-Ends f ts (omega arith)

    parse_match-Ends :
        (f : ℕ) (ts : Tokens)
        → 12 * length ts + 10 < f
        → Ensures (Shorter ts) (parse_match last f ts)
    parse_match-Ends zero ts h = absurd (omega arith)
    parse_match-Ends (suc f) ts h =
        Ensures-bind (consume-Shorter last closed TokType.match' ts refl) λ _ ts₁ q₁.
          Ensures-bind (parse_or-Ends f ts₁ (omega arith)) λ subject ts₂ q₂.
            Ensures-bind (consume-Shorter last closed TokType.colon ts₂ refl) λ _ ts₃ q₃.
              Ensures-bind (match_arms-Ends f no_default ts₃ (omega arith))
                λ arms ts₄ q₄. gives (omega arith)

    match_arms-Ends :
        (f : ℕ) (seen : Default) (ts : Tokens)
        → 12 * length ts + 4 < f
        → Ensures (Kept ts) (match_arms last f seen ts)
    match_arms-Ends zero seen ts h = absurd (omega arith)
    match_arms-Ends (suc f) seen ts h =
        Ensures-choose (at_arm last ts) _ _
          (λ _.
            Ensures-choose (is_default seen) _ _ (λ _. refuses)
              λ _. Ensures-bind (parse_primary-Ends f ts (omega arith)) λ pat ts₁ q₁.
                Ensures-bind (consume-Shorter last closed TokType.arrow ts₁ refl) λ _ ts₂ q₂.
                  Ensures-bind (parse_expr-Ends f ts₂ (omega arith)) λ res ts₃ q₃.
                    Ensures-choose (is_wildcard pat) _ _
                      (λ _.
                        Ensures-weaken (match_arms-Ends f (default res) ts₃ (omega arith))
                          λ _ _ q₄. omega arith)
                      (λ _.
                        Ensures-bind (match_arms-Ends f seen ts₃ (omega arith))
                          λ arms ts₄ q₄. gives (omega arith)))
          (λ _. gives (omega arith))

    parse_cond-Ends :
        (f : ℕ) (ts : Tokens)
        → 12 * length ts + 10 < f
        → Ensures (Shorter ts) (parse_cond last f ts)
    parse_cond-Ends zero ts h = absurd (omega arith)
    parse_cond-Ends (suc f) ts h =
        Ensures-bind (consume-Shorter last closed TokType.if' ts refl) λ _ ts₁ q₁.
          Ensures-bind (parse_or-Ends f ts₁ (omega arith)) λ condition ts₂ q₂.
            Ensures-bind (consume-Shorter last closed TokType.colon ts₂ refl) λ _ ts₃ q₃.
              Ensures-bind (parse_expr-Ends f ts₃ (omega arith)) λ then_expr ts₄ q₄.
                Ensures-weaken (parse_elif_chain-Ends f condition then_expr ts₄ (omega arith))
                  λ _ _ q₅. omega arith

    parse_elif_chain-Ends :
        (f : ℕ) (condition then_expr : Expr) (ts : Tokens)
        → 12 * length ts < f
        → Ensures (Shorter ts) (parse_elif_chain last f condition then_expr ts)
    parse_elif_chain-Ends zero condition then_expr ts h = absurd (omega arith)
    parse_elif_chain-Ends (suc f) condition then_expr ts h =
        Ensures-bind (match_one-Matched last closed (TokType.elif ∷ []) ts refl) λ found ts₁ q.
          Ensures-bind {P = Shorter ts}
            (Ensures-choose (is_some found) _ _
              (λ e.
                let taken : length ts₁ < length ts = q.0 e in
                Ensures-bind (parse_or-Ends f ts₁ (omega arith)) λ next_cond ts₂ q₂.
                  Ensures-bind (consume-Shorter last closed TokType.colon ts₂ refl) λ _ ts₃ q₃.
                    Ensures-bind (parse_expr-Ends f ts₃ (omega arith)) λ next_then ts₄ q₄.
                      Ensures-weaken (parse_elif_chain-Ends f next_cond next_then ts₄ (omega arith))
                        λ _ _ q₅. omega arith)
              (λ _. Ensures-bind (consume-Shorter last closed TokType.else' ts₁ refl) λ _ ts₂ q₂.
                Ensures-bind (consume-Shorter last closed TokType.colon ts₂ refl) λ _ ts₃ q₃.
                  Ensures-weaken (parse_expr-Ends f ts₃ (omega arith)) λ _ _ q₄. omega arith))
            λ else_expr ts₅ q₅. gives q₅

    parse_or-Ends :
        (f : ℕ) (ts : Tokens) → 12 * length ts + 10 < f → Ensures (Shorter ts) (parse_or last f ts)
    parse_or-Ends zero ts h = absurd (omega arith)
    parse_or-Ends (suc f) ts h =
        Ensures-bind (parse_and-Ends f ts (omega arith))
          λ left ts₁ q. Ensures-weaken (or_rest-Ends f left ts₁ (omega arith)) λ _ _ s. omega arith

    or_rest-Ends :
        (f : ℕ) (left : Expr) (ts : Tokens)
        → 12 * length ts < f
        → Ensures (Kept ts) (or_rest last f left ts)
    or_rest-Ends zero left ts h = absurd (omega arith)
    or_rest-Ends (suc f) left ts h =
        Ensures-bind (match_one-Matched last closed (TokType.or ∷ []) ts refl) λ found ts₁ q.
          Ensures-choose (is_some found) _ _
            (λ e.
              let taken : length ts₁ < length ts = q.0 e in
              Ensures-bind (parse_and-Ends f ts₁ (omega arith)) λ right ts₂ r.
                Ensures-weaken (or_rest-Ends f _ ts₂ (omega arith)) λ _ _ s. omega arith)
            (λ _. gives (q.1))

    parse_and-Ends :
        (f : ℕ) (ts : Tokens) → 12 * length ts + 9 < f → Ensures (Shorter ts) (parse_and last f ts)
    parse_and-Ends zero ts h = absurd (omega arith)
    parse_and-Ends (suc f) ts h =
        Ensures-bind (parse_cmp-Ends f ts (omega arith))
          λ left ts₁ q. Ensures-weaken (and_rest-Ends f left ts₁ (omega arith)) λ _ _ s. omega arith

    and_rest-Ends :
        (f : ℕ) (left : Expr) (ts : Tokens)
        → 12 * length ts < f
        → Ensures (Kept ts) (and_rest last f left ts)
    and_rest-Ends zero left ts h = absurd (omega arith)
    and_rest-Ends (suc f) left ts h =
        Ensures-bind (match_one-Matched last closed (TokType.and ∷ []) ts refl) λ found ts₁ q.
          Ensures-choose (is_some found) _ _
            (λ e.
              let taken : length ts₁ < length ts = q.0 e in
              Ensures-bind (parse_cmp-Ends f ts₁ (omega arith)) λ right ts₂ r.
                Ensures-weaken (and_rest-Ends f _ ts₂ (omega arith)) λ _ _ s. omega arith)
            (λ _. gives (q.1))

    parse_cmp-Ends :
        (f : ℕ) (ts : Tokens) → 12 * length ts + 8 < f → Ensures (Shorter ts) (parse_cmp last f ts)
    parse_cmp-Ends zero ts h = absurd (omega arith)
    parse_cmp-Ends (suc f) ts h =
        Ensures-bind (parse_add-Ends f ts (omega arith))
          λ left ts₁ q. Ensures-weaken (cmp_rest-Ends f left ts₁ (omega arith)) λ _ _ s. omega arith

    cmp_rest-Ends :
        (f : ℕ) (left : Expr) (ts : Tokens)
        → 12 * length ts < f
        → Ensures (Kept ts) (cmp_rest last f left ts)
    cmp_rest-Ends zero left ts h = absurd (omega arith)
    cmp_rest-Ends (suc f) left [] h = rw closed (gives (omega arith))
    cmp_rest-Ends (suc f) left (t ∷ ts) h =
        Ensures-when_some (comparison t.ty) _ _ (gives (omega arith))
          λ op. Ensures-bind (parse_add-Ends f ts (omega arith)) λ right ts₂ r. gives (omega arith)

    parse_add-Ends :
        (f : ℕ) (ts : Tokens) → 12 * length ts + 7 < f → Ensures (Shorter ts) (parse_add last f ts)
    parse_add-Ends zero ts h = absurd (omega arith)
    parse_add-Ends (suc f) ts h =
        Ensures-bind (parse_mul-Ends f ts (omega arith))
          λ left ts₁ q. Ensures-weaken (add_rest-Ends f left ts₁ (omega arith)) λ _ _ s. omega arith

    add_rest-Ends :
        (f : ℕ) (left : Expr) (ts : Tokens)
        → 12 * length ts < f
        → Ensures (Kept ts) (add_rest last f left ts)
    add_rest-Ends zero left ts h = absurd (omega arith)
    add_rest-Ends (suc f) left [] h = rw closed (gives (omega arith))
    add_rest-Ends (suc f) left (t ∷ ts) h =
        Ensures-when_some (additive t.ty) _ _ (gives (omega arith)) λ op.
          Ensures-bind (parse_mul-Ends f ts (omega arith))
            λ right ts₂ r. Ensures-weaken (add_rest-Ends f _ ts₂ (omega arith)) λ _ _ s. omega arith

    parse_mul-Ends :
        (f : ℕ) (ts : Tokens) → 12 * length ts + 6 < f → Ensures (Shorter ts) (parse_mul last f ts)
    parse_mul-Ends zero ts h = absurd (omega arith)
    parse_mul-Ends (suc f) ts h =
        Ensures-bind (parse_unary-Ends f ts (omega arith))
          λ left ts₁ q. Ensures-weaken (mul_rest-Ends f left ts₁ (omega arith)) λ _ _ s. omega arith

    mul_rest-Ends :
        (f : ℕ) (left : Expr) (ts : Tokens)
        → 12 * length ts < f
        → Ensures (Kept ts) (mul_rest last f left ts)
    mul_rest-Ends zero left ts h = absurd (omega arith)
    mul_rest-Ends (suc f) left [] h = rw closed (gives (omega arith))
    mul_rest-Ends (suc f) left (t ∷ ts) h =
        Ensures-when_some (multiplicative t.ty) _ _ (gives (omega arith)) λ op.
          Ensures-bind (parse_unary-Ends f ts (omega arith))
            λ right ts₂ r. Ensures-weaken (mul_rest-Ends f _ ts₂ (omega arith)) λ _ _ s. omega arith

    parse_unary-Ends :
        (f : ℕ) (ts : Tokens)
        → 12 * length ts + 5 < f
        → Ensures (Shorter ts) (parse_unary last f ts)
    parse_unary-Ends zero ts h = absurd (omega arith)
    parse_unary-Ends (suc f) ts h =
        Ensures-bind (match_one-Matched last closed (TokType.minus ∷ []) ts refl) λ minus ts₁ q₁.
          Ensures-choose (is_some minus) _ _
            (λ e.
              let taken : length ts₁ < length ts = q₁.0 e in
              Ensures-bind (parse_unary-Ends f ts₁ (omega arith))
                λ operand ts₂ q₂. gives (omega arith))
            (λ _.
              Ensures-bind (match_one-Matched last closed (TokType.not' ∷ []) ts₁ refl)
                λ not_found ts₂ q₂.
                  Ensures-choose (is_some not_found) _ _
                    (λ e.
                      let taken : length ts₂ < length ts₁ = q₂.0 e in
                      Ensures-bind (parse_unary-Ends f ts₂ (omega arith))
                        λ operand ts₃ q₃. gives (omega arith))
                    (λ _.
                      Ensures-weaken (parse_postfix-Ends f ts₂ (omega arith))
                        λ _ _ q₃. omega arith))

    parse_postfix-Ends :
        (f : ℕ) (ts : Tokens)
        → 12 * length ts + 4 < f
        → Ensures (Shorter ts) (parse_postfix last f ts)
    parse_postfix-Ends zero ts h = absurd (omega arith)
    parse_postfix-Ends (suc f) ts h =
        Ensures-bind (parse_primary-Ends f ts (omega arith)) λ left ts₁ q.
          Ensures-weaken (postfix_rest-Ends f left ts₁ (omega arith)) λ _ _ s. omega arith

    postfix_rest-Ends :
        (f : ℕ) (expr : Expr) (ts : Tokens)
        → 12 * length ts + 2 < f
        → Ensures (Kept ts) (postfix_rest last f expr ts)
    postfix_rest-Ends zero expr ts h = absurd (omega arith)
    postfix_rest-Ends (suc f) expr ts h =
        Ensures-choose (at last (TokType.lparen ∷ []) ts) _ _
          (λ _. Ensures-when_some (callee expr) _ _ refuses λ func.
            Ensures-bind (consume-Shorter last closed TokType.lparen ts refl) λ _ ts₁ q₁.
              Ensures-bind (call_args-Ends f ts₁ (omega arith)) λ args ts₂ q₂.
                Ensures-bind (consume-Shorter last closed TokType.rparen ts₂ refl) λ _ ts₃ q₃.
                  Ensures-weaken (postfix_rest-Ends f _ ts₃ (omega arith)) λ _ _ q₄. omega arith)
          λ _.
            Ensures-choose (at last (TokType.dot ∷ []) ts) _ _
              (λ _. Ensures-bind (consume-Shorter last closed TokType.dot ts refl) λ _ ts₁ q₁.
                Ensures-bind (consume-Shorter last closed TokType.ident ts₁ refl) λ field ts₂ q₂.
                  Ensures-weaken (postfix_rest-Ends f _ ts₂ (omega arith)) λ _ _ q₃. omega arith)
              λ _.
                Ensures-choose (at last (TokType.lbracket ∷ []) ts) _ _
                  (λ _.
                    Ensures-bind (consume-Shorter last closed TokType.lbracket ts refl) λ _ ts₁ q₁.
                      Ensures-bind (parse_expr-Ends f ts₁ (omega arith)) λ i ts₂ q₂.
                        Ensures-bind (consume-Shorter last closed TokType.rbracket ts₂ refl)
                          λ _ ts₃ q₃.
                            Ensures-weaken (postfix_rest-Ends f _ ts₃ (omega arith))
                              λ _ _ q₄. omega arith)
                  (λ _. gives (omega arith))

    call_args-Ends :
        (f : ℕ) (ts : Tokens) → 12 * length ts + 12 < f → Ensures (Kept ts) (call_args last f ts)
    call_args-Ends zero ts h = absurd (omega arith)
    call_args-Ends (suc f) ts h =
        Ensures-choose (not (at last (TokType.rparen ∷ []) ts)) _ _
          (λ _. Ensures-bind (parse_expr-Ends f ts (omega arith)) λ first ts₁ q₁.
            Ensures-bind (args_rest-Ends f ts₁ (omega arith)) λ more ts₂ q₂. gives (omega arith))
          (λ _. gives (omega arith))

    args_rest-Ends :
        (f : ℕ) (ts : Tokens) → 12 * length ts < f → Ensures (Kept ts) (args_rest last f ts)
    args_rest-Ends zero ts h = absurd (omega arith)
    args_rest-Ends (suc f) ts h =
        Ensures-bind (match_one-Matched last closed (TokType.comma ∷ []) ts refl) λ found ts₁ q.
          Ensures-choose (is_some found) _ _
            (λ e.
              let taken : length ts₁ < length ts = q.0 e in
              Ensures-bind (parse_expr-Ends f ts₁ (omega arith)) λ next ts₂ q₂.
                Ensures-bind (args_rest-Ends f ts₂ (omega arith))
                  λ more ts₃ q₃. gives (omega arith))
            (λ _. gives (q.1))

    parse_primary-Ends :
        (f : ℕ) (ts : Tokens)
        → 12 * length ts + 3 < f
        → Ensures (Shorter ts) (parse_primary last f ts)
    parse_primary-Ends zero ts h = absurd (omega arith)
    parse_primary-Ends (suc f) [] h = rw closed refuses
    parse_primary-Ends (suc f) (t ∷ ts) h = primary_from-Ends t.ty t _ t ts (
        Ensures-bind (consume-Shorter last closed TokType.lparen (t ∷ ts) refl) λ _ ts₁ q₁.
          Ensures-bind (parse_expr-Ends f ts₁ (omega arith)) λ e ts₂ q₂.
            Ensures-bind (consume-Shorter last closed TokType.rparen ts₂ refl)
              λ _ ts₃ q₃. gives (omega arith))

  -- With fuel above twelve for each token and eleven, on tokens past whose end an end token stands,
  -- `parse_expr` does not run out, and where it gives a tree it has taken at least one token.
  pub parse_expr-Shorter :
      (f : ℕ) (ts : Tokens) → 12 * length ts + 11 < f → Ensures (Shorter ts) (parse_expr last f ts)
  parse_expr-Shorter f ts h = parse_expr-Ends f ts h
