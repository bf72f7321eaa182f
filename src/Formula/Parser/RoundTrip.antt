-- ===== src/Formula/Parser/RoundTrip.antt =====
-- What was printed parses back (src/formula.rs, `parse_expr`), precedence and associativity included.
use axiom_rules_engine.Prelude.{ℕ, ◌+◌, ◌*◌, ◌<◌, ◌≡◌, refl, false, length, arith}
use axiom_rules_engine.Model.Platform.{Platform}
use axiom_rules_engine.Formula.Tokens.{Token}
use axiom_rules_engine.Formula.Ast.{
  BinOpKind, Expr, Args, Cases, Default, lit_int, lit_float, lit_str, lit_bool, var, bin_op,
  unary_op, call, field_access, index, cond, match', no_args, arg, no_cases, case, no_default,
  default,
}
use axiom_rules_engine.Formula.Parser.{Tokens, ok, peek}
use axiom_rules_engine.Formula.Parser.Terms.{at_arm, parse_expr}
use axiom_rules_engine.Formula.Parser.Levels.{binds}
use axiom_rules_engine.Formula.Parser.Reads.{Levels, Own, Own-Levels, Own-Levels_cond}
use axiom_rules_engine.Formula.Parser.Operators.{
  expr_reads, or-Own, and-Own, additive-Own, multiplicative-Own, cmp-Own, unary-Own, field-Own,
  index-Own,
}
use axiom_rules_engine.Formula.Parser.Blocks.{
  atom-Own, atom_reads, var-Own, ArgsRead, MoreRead, CasesRead, no_args-ArgsRead, no_args-MoreRead,
  arg-ArgsRead, arg-MoreRead, call-Own, cond-Own, cond-Elses, no_default-CasesRead,
  default-CasesRead, case-CasesRead, match-Own,
}
use axiom_rules_engine.Formula.Printer.{
  body, Printable, PrintableArgs, PrintableCases, PrintableDefault,
}

module _ ⦃p : Platform⦄ (last : Token) where
  op-Own : (op : BinOpKind) (l r : Expr) → Levels last l → Levels last r → Own last (bin_op op l r)
  op-Own BinOpKind.or l r a b = or-Own last l r a b
  op-Own BinOpKind.and l r a b = and-Own last l r a b
  op-Own BinOpKind.add l r a b = additive-Own last BinOpKind.add l r refl a b
  op-Own BinOpKind.sub l r a b = additive-Own last BinOpKind.sub l r refl a b
  op-Own BinOpKind.mul l r a b = multiplicative-Own last BinOpKind.mul l r refl a b
  op-Own BinOpKind.div l r a b = multiplicative-Own last BinOpKind.div l r refl a b
  op-Own BinOpKind.lt l r a b = cmp-Own last BinOpKind.lt l r refl a b
  op-Own BinOpKind.gt l r a b = cmp-Own last BinOpKind.gt l r refl a b
  op-Own BinOpKind.le l r a b = cmp-Own last BinOpKind.le l r refl a b
  op-Own BinOpKind.ge l r a b = cmp-Own last BinOpKind.ge l r refl a b
  op-Own BinOpKind.eq l r a b = cmp-Own last BinOpKind.eq l r refl a b
  op-Own BinOpKind.ne l r a b = cmp-Own last BinOpKind.ne l r refl a b

  mutual
    expr-Levels : (e : Expr) → Printable e → Levels last e
    expr-Levels (lit_int n) h =
        Own-Levels last (lit_int n)
          (atom-Own last (lit_int n) refl (atom_reads last (lit_int n) tt h)) refl
    expr-Levels (lit_float d) h =
        Own-Levels last (lit_float d)
          (atom-Own last (lit_float d) refl (atom_reads last (lit_float d) tt h)) refl
    expr-Levels (lit_str s) h =
        Own-Levels last (lit_str s)
          (atom-Own last (lit_str s) refl (atom_reads last (lit_str s) tt h)) refl
    expr-Levels (lit_bool b) h =
        Own-Levels last (lit_bool b)
          (atom-Own last (lit_bool b) refl (atom_reads last (lit_bool b) tt h)) refl
    expr-Levels (var x) h = Own-Levels last (var x) (var-Own last x) refl
    expr-Levels (bin_op op l r) h =
        Own-Levels last (bin_op op l r) (op-Own op l r (expr-Levels l h.0) (expr-Levels r h.1)) refl
    expr-Levels (unary_op op e) h =
        Own-Levels last (unary_op op e) (unary-Own last op e (expr-Levels e h)) refl
    expr-Levels (call g args) h =
        Own-Levels last (call g args) (call-Own last g args (args-ArgsRead args h)) refl
    expr-Levels (field_access o field) h =
        Own-Levels last (field_access o field) (field-Own last o field (expr-Levels o h)) refl
    expr-Levels (index t i) h =
        Own-Levels last (index t i) (index-Own last t i (expr-Levels t h.0) (expr-Levels i h.1))
          refl
    expr-Levels (cond c t e) h =
        let lc = expr-Levels c h.0 in
        let lt = expr-Levels t h.1 in
        let le = (expr-Levels e h.2).elses in
        Own-Levels_cond last (cond c t e) (cond-Own last c t e lc lt le)
          (cond-Elses last c t e lc lt le)
    expr-Levels (match' s cs d) h =
        Own-Levels last (match' s cs d)
          (match-Own last s cs d (expr-Levels s h.0)
            (cases-CasesRead cs d h.1 (default-Levels d h.2)))
          refl

    args-ArgsRead : (args : Args) → PrintableArgs args → ArgsRead last args
    args-ArgsRead no_args h = no_args-ArgsRead last
    args-ArgsRead (arg e more) h =
        arg-ArgsRead last e more (expr-Levels e h.0) (args-MoreRead more h.1)

    args-MoreRead : (args : Args) → PrintableArgs args → MoreRead last args
    args-MoreRead no_args h = no_args-MoreRead last
    args-MoreRead (arg e more) h =
        arg-MoreRead last e more (expr-Levels e h.0) (args-MoreRead more h.1)

    cases-CasesRead :
        (cs : Cases) (d : Default)
        → PrintableCases cs
        → CasesRead last no_cases d
        → CasesRead last cs d
    cases-CasesRead no_cases d h last_arm = last_arm
    cases-CasesRead (case pat res more) d h last_arm =
        case-CasesRead last pat res more d h.0 h.1 h.3 (expr-Levels res h.2)
          (cases-CasesRead more d h.3 last_arm)

    default-Levels : (d : Default) → PrintableDefault d → CasesRead last no_cases d
    default-Levels no_default h = no_default-CasesRead last
    default-Levels (default e) h = default-CasesRead last e (expr-Levels e h)

  -- For a tree that has a spelling, and tokens that begin with nothing that would go on with it
  -- (no operator, suffix, `=` or arm of a match), `parse_expr` with more fuel than twelve for
  -- each token, printed or following, and eleven in addition, reads the tokens of the tree,
  -- printed with parentheses only where the grammar wants them, as that tree and leaves exactly
  -- the tokens that follow.
  pub parse_expr-body :
      (e : Expr) (rest : Tokens) (f : ℕ)
      → Printable e
      → binds (peek last rest 0).ty ≡ 0
      → at_arm last rest ≡ false
      → 12 * length (body e rest) + 11 < f
      → parse_expr last f (body e rest) ≡ ok e rest
  parse_expr-body e rest f h loose no_arm b =
      expr_reads last e rest (expr-Levels e h)
        (record { loose = omega arith; no_arm = λ _. no_arm }) f (omega arith)
