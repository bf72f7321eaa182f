-- ===== src/Tests/Parser.antt =====
-- Witnesses of the theorems on the parser: the formula `-a.b * (1 + 2) > f(x)[0] and not ok`, and a
-- declaration with its metadata.
use axiom_rules_engine.Prelude.{◌≡◌, ◌≢◌, refl, [], ◌∷◌, arith}
use axiom_rules_engine.Prelude.Int.{pos}
use axiom_rules_engine.Prelude.Text.{codes}
use axiom_rules_engine.Formula.Tokens.{TokType}
use axiom_rules_engine.Formula.Ast.{
  Expr, BinOpKind, UnaryOpKind, var, lit_int, bin_op, unary_op, call, index, field_access, arg,
  no_args, cond, match', case, no_cases, default,
}
use axiom_rules_engine.Formula.Parser.{ok}
use axiom_rules_engine.Formula.Parser.Ensures.{Ensures, Shorter}
use axiom_rules_engine.Formula.Parser.Ends.{parse_expr-Shorter}
use axiom_rules_engine.Formula.Parser.Terms.{parse_expr}
use axiom_rules_engine.Formula.Parser.Declarations.{parse_source, panics, unfinished}
use axiom_rules_engine.Formula.Parser.DeclarationsEnd.{parse_source-Decided}
use axiom_rules_engine.Formula.Parser.RoundTrip.{parse_expr-body}
use axiom_rules_engine.Formula.Printer.{symbol, body}
use axiom_rules_engine.Tests.Sample.{sample}

abbrev condition : Expr
condition =
    bin_op BinOpKind.and
      (bin_op BinOpKind.gt
        (bin_op BinOpKind.mul
          (unary_op UnaryOpKind.neg (field_access (var (codes "a")) (codes "b")))
          (bin_op BinOpKind.add (lit_int (pos 1)) (lit_int (pos 2))))
        (index (call (codes "f") (arg (var (codes "x")) no_args)) (lit_int (pos 0))))
      (unary_op UnaryOpKind.not (var (codes "ok")))

abbrev choice : Expr
choice = cond condition (lit_int (pos 12)) (
    match' (var (codes "status")) (case (lit_int (pos 1)) (var (codes "low")) no_cases)
      (default (var (codes "high"))))

parse_expr-body_example :
    parse_expr (symbol TokType.eof) 1000 (body choice (symbol TokType.eof ∷ []))
    ≡ ok choice (symbol TokType.eof ∷ [])
parse_expr-body_example =
    parse_expr-body (symbol TokType.eof) choice (symbol TokType.eof ∷ []) 1000
      (unfold body in omega arith) refl refl (unfold body in omega arith)

parse_source-Decided_example :
    (parse_source (codes "us/rate: dtype: Money from 2020-01-01: 1 + 2") ≢ panics)
    × (parse_source (codes "us/rate: dtype: Money from 2020-01-01: 1 + 2") ≢ unfinished)
parse_source-Decided_example =
    parse_source-Decided (codes "us/rate: dtype: Money from 2020-01-01: 1 + 2")

parse_expr-Shorter_example :
    Ensures (Shorter (symbol TokType.minus ∷ symbol TokType.true' ∷ symbol TokType.eof ∷ [])) (
      parse_expr
        (symbol TokType.eof)
        48
        (symbol TokType.minus ∷ symbol TokType.true' ∷ symbol TokType.eof ∷ []))
parse_expr-Shorter_example =
    parse_expr-Shorter (symbol TokType.eof) refl 48
      (symbol TokType.minus ∷ symbol TokType.true' ∷ symbol TokType.eof ∷ []) (omega arith)
