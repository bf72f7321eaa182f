-- ===== src/Formula/Parser/Terms.antt =====
-- The recursive descent over expressions (src/formula.rs, `parse_expr` to `parse_primary`).
use axiom_rules_engine.Prelude.{
  ℕ, zero, suc, Bool, true, false, ◌&&◌, not, Option, none, some, [], ◌∷◌, is_some, ◌==◌,
  if◌then◌else◌, ltb,
}
use axiom_rules_engine.Prelude.Int.{ℤ, pos, negsuc}
use axiom_rules_engine.Prelude.Ord.{Str, str_ord}
use axiom_rules_engine.Prelude.Text.{codes, parse_number, without_underscores}
use axiom_rules_engine.BTree.{key_eq}
use axiom_rules_engine.Model.Platform.{Platform}
use axiom_rules_engine.Formula.Tokens.{TokType, Token, same_type}
use axiom_rules_engine.Formula.Ast.{
  BinOpKind, UnaryOpKind, Expr, Args, Cases, Default, lit_int, lit_float, lit_str, lit_bool, var,
  bin_op, unary_op, call, field_access, index, cond, match', no_args, arg, no_cases, case,
  no_default, default,
}
use axiom_rules_engine.Formula.Parser.{
  unexpected_in_expression, let_binding, wildcard_not_final, not_callable, invalid_integer,
  invalid_decimal, Tokens, exhausted, Reader, pure, ◌>>=◌, ◌>>◌, choose, when_some, advance, refuse,
  peek, at, consume, match_one,
}

-- `str::parse::<i64>`: an optional sign, then digits, within the range.
abbrev pub signed : Bool → Option ℕ → Option ℤ
signed minus none = none
signed true (some zero) = some (pos 0)
signed true (some (suc n)) = if ltb n 9223372036854775808 then some (negsuc n) else none
signed false (some n) = if ltb n 9223372036854775808 then some (pos n) else none

abbrev pub parse_digits : Str → Option ℕ
parse_digits [] = none
parse_digits (c ∷ s) = parse_number 0 (c ∷ s)

unfoldable pub parse_i64 : Str → Option ℤ
parse_i64 [] = none
parse_i64 (c ∷ s) =
    if c == 45
    then signed true (parse_digits s)
    else if c == 43
    then signed false (parse_digits s)
    else signed false (parse_digits (c ∷ s))

abbrev pub comparison : TokType → Option BinOpKind
comparison TokType.lt = some BinOpKind.lt
comparison TokType.gt = some BinOpKind.gt
comparison TokType.le = some BinOpKind.le
comparison TokType.ge = some BinOpKind.ge
comparison TokType.eq = some BinOpKind.eq
comparison TokType.ne = some BinOpKind.ne
comparison _ = none

abbrev pub additive : TokType → Option BinOpKind
additive TokType.plus = some BinOpKind.add
additive TokType.minus = some BinOpKind.sub
additive _ = none

abbrev pub multiplicative : TokType → Option BinOpKind
multiplicative TokType.star = some BinOpKind.mul
multiplicative TokType.slash = some BinOpKind.div
multiplicative _ = none

module _ ⦃p : Platform⦄ where
  open p use {Decimal, parse_decimal}

  abbrev pub int_literal : Token → Option ℤ → Reader Expr
  int_literal tok none = refuse tok (invalid_integer tok.value)
  int_literal tok (some v) = pure (lit_int v)

  abbrev pub float_literal : Token → Option Decimal → Reader Expr
  float_literal tok none = refuse tok (invalid_decimal tok.value)
  float_literal tok (some v) = pure (lit_float v)

  -- The match of `parse_primary`, with its case of a parenthesis.
  abbrev pub primary_from : TokType → Token → Reader Expr → Reader Expr
  primary_from TokType.int tok parenthesised =
      advance >> int_literal tok (parse_i64 (without_underscores tok.value))
  primary_from TokType.float tok parenthesised =
      advance >> float_literal tok (parse_decimal (without_underscores tok.value))
  primary_from TokType.string tok parenthesised = advance >> pure (lit_str tok.value)
  primary_from TokType.true' tok parenthesised = advance >> pure (lit_bool true)
  primary_from TokType.false' tok parenthesised = advance >> pure (lit_bool false)
  primary_from TokType.ident tok parenthesised = advance >> pure (var tok.value)
  primary_from TokType.path tok parenthesised = advance >> pure (var tok.value)
  primary_from TokType.lparen tok parenthesised = parenthesised
  primary_from _ tok parenthesised = refuse tok (unexpected_in_expression tok)

  -- `matches!(&pat, Expr::Var(name) if name == "_")`
  abbrev pub is_wildcard : Expr → Bool
  is_wildcard (var name) = key_eq name (codes "_")
  is_wildcard _ = false

  abbrev pub is_default : Default → Bool
  is_default no_default = false
  is_default (default e) = true

  -- The name of a callee.
  abbrev pub callee : Expr → Option Str
  callee (var name) = some name
  callee _ = none

  module _ (last : Token) where
    -- An arm of a match begins here.
    abbrev pub at_arm : Tokens → Bool
    at_arm ts =
        at last
          (TokType.int ∷ TokType.float ∷ TokType.string ∷ TokType.true' ∷ TokType.false'
            ∷ TokType.ident ∷ [])
          ts
        && same_type (peek last ts 1).ty TokType.arrow

    abbrev pub at_let : Tokens → Bool
    at_let ts =
        same_type (peek last ts 0).ty TokType.ident && same_type (peek last ts 1).ty TokType.assign

    unfoldable mutual
      pub parse_expr : ℕ → Reader Expr
      parse_expr zero ts = exhausted
      parse_expr (suc f) ts =
          choose (at_let ts) (refuse (peek last ts 0) let_binding)
            (choose (at last (TokType.match' ∷ []) ts) (parse_match f)
              (choose (at last (TokType.if' ∷ []) ts) (parse_cond f) (parse_or f)))
            ts

      pub parse_match : ℕ → Reader Expr
      parse_match zero ts = exhausted
      parse_match (suc f) ts =
          (do
            consume last TokType.match'
            subject ← parse_or f
            consume last TokType.colon
            arms ← match_arms f no_default
            pure (match' subject arms.0 arms.1))
            ts

      pub match_arms : ℕ → Default → Reader (Cases × Default)
      match_arms zero seen ts = exhausted
      match_arms (suc f) seen ts =
          choose (at_arm ts)
            (choose (is_default seen) (refuse (peek last ts 0) wildcard_not_final) (do
              pat ← parse_primary f
              consume last TokType.arrow
              res ← parse_expr f
              choose (is_wildcard pat) (match_arms f (default res))
                  (do arms ← match_arms f seen; pure (case pat res arms.0, arms.1))))
            (pure (no_cases, seen)) ts

      -- From the `then` branch on the code of `parse_elif_chain` stands here a second time.
      pub parse_cond : ℕ → Reader Expr
      parse_cond zero ts = exhausted
      parse_cond (suc f) ts =
          (do
            consume last TokType.if'
            condition ← parse_or f
            consume last TokType.colon
            then_expr ← parse_expr f
            parse_elif_chain f condition then_expr)
            ts

      pub parse_elif_chain : ℕ → Expr → Expr → Reader Expr
      parse_elif_chain zero condition then_expr ts = exhausted
      parse_elif_chain (suc f) condition then_expr ts =
          (do
            found ← match_one last (TokType.elif ∷ [])
            else_expr ←
                choose (is_some found)
                  (do
                    next_cond ← parse_or f
                    consume last TokType.colon
                    next_then ← parse_expr f
                    parse_elif_chain f next_cond next_then)
                  (do consume last TokType.else'; consume last TokType.colon; parse_expr f)
            pure (cond condition then_expr else_expr))
            ts

      pub parse_or : ℕ → Reader Expr
      parse_or zero ts = exhausted
      parse_or (suc f) ts = (parse_and f >>= or_rest f) ts

      pub or_rest : ℕ → Expr → Reader Expr
      or_rest zero left ts = exhausted
      or_rest (suc f) left ts =
          (do
            found ← match_one last (TokType.or ∷ [])
            choose (is_some found)
                (parse_and f >>= λ right. or_rest f (bin_op BinOpKind.or left right)) (pure left))
            ts

      pub parse_and : ℕ → Reader Expr
      parse_and zero ts = exhausted
      parse_and (suc f) ts = (parse_cmp f >>= and_rest f) ts

      pub and_rest : ℕ → Expr → Reader Expr
      and_rest zero left ts = exhausted
      and_rest (suc f) left ts =
          (do
            found ← match_one last (TokType.and ∷ [])
            choose (is_some found)
                (parse_cmp f >>= λ right. and_rest f (bin_op BinOpKind.and left right)) (pure left))
            ts

      pub parse_cmp : ℕ → Reader Expr
      parse_cmp zero ts = exhausted
      parse_cmp (suc f) ts = (parse_add f >>= cmp_rest f) ts

      pub cmp_rest : ℕ → Expr → Reader Expr
      cmp_rest zero left ts = exhausted
      cmp_rest (suc f) left ts =
          when_some (comparison (peek last ts 0).ty) (pure left)
            (λ op. do advance; right ← parse_add f; pure (bin_op op left right)) ts

      pub parse_add : ℕ → Reader Expr
      parse_add zero ts = exhausted
      parse_add (suc f) ts = (parse_mul f >>= add_rest f) ts

      pub add_rest : ℕ → Expr → Reader Expr
      add_rest zero left ts = exhausted
      add_rest (suc f) left ts =
          when_some (additive (peek last ts 0).ty) (pure left)
            (λ op. do advance; right ← parse_mul f; add_rest f (bin_op op left right)) ts

      pub parse_mul : ℕ → Reader Expr
      parse_mul zero ts = exhausted
      parse_mul (suc f) ts = (parse_unary f >>= mul_rest f) ts

      pub mul_rest : ℕ → Expr → Reader Expr
      mul_rest zero left ts = exhausted
      mul_rest (suc f) left ts =
          when_some (multiplicative (peek last ts 0).ty) (pure left)
            (λ op. do advance; right ← parse_unary f; mul_rest f (bin_op op left right)) ts

      pub parse_unary : ℕ → Reader Expr
      parse_unary zero ts = exhausted
      parse_unary (suc f) ts =
          (do
            minus ← match_one last (TokType.minus ∷ [])
            choose (is_some minus)
                (parse_unary f >>= λ operand. pure (unary_op UnaryOpKind.neg operand))
                (do
                  not_found ← match_one last (TokType.not' ∷ [])
                  choose (is_some not_found)
                      (parse_unary f >>= λ operand. pure (unary_op UnaryOpKind.not operand))
                      (parse_postfix f)))
            ts

      pub parse_postfix : ℕ → Reader Expr
      parse_postfix zero ts = exhausted
      parse_postfix (suc f) ts = (parse_primary f >>= postfix_rest f) ts

      pub postfix_rest : ℕ → Expr → Reader Expr
      postfix_rest zero expr ts = exhausted
      postfix_rest (suc f) expr ts =
          choose (at last (TokType.lparen ∷ []) ts)
            (when_some (callee expr) (refuse (peek last ts 0) not_callable) λ func. do
              consume last TokType.lparen
              args ← call_args f
              consume last TokType.rparen
              postfix_rest f (call func args))
            (choose (at last (TokType.dot ∷ []) ts)
              (do
                consume last TokType.dot
                field ← consume last TokType.ident
                postfix_rest f (field_access expr field.value))
              (choose (at last (TokType.lbracket ∷ []) ts)
                (do
                  consume last TokType.lbracket
                  i ← parse_expr f
                  consume last TokType.rbracket
                  postfix_rest f (index expr i))
                (pure expr)))
            ts

      -- The arguments up to the closing parenthesis.
      pub call_args : ℕ → Reader Args
      call_args zero ts = exhausted
      call_args (suc f) ts =
          choose (not (at last (TokType.rparen ∷ []) ts))
            (do first ← parse_expr f; more ← args_rest f; pure (arg first more)) (pure no_args) ts

      pub args_rest : ℕ → Reader Args
      args_rest zero ts = exhausted
      args_rest (suc f) ts =
          (do
            found ← match_one last (TokType.comma ∷ [])
            choose (is_some found)
                (do next ← parse_expr f; more ← args_rest f; pure (arg next more)) (pure no_args))
            ts

      pub parse_primary : ℕ → Reader Expr
      parse_primary zero ts = exhausted
      parse_primary (suc f) ts =
          primary_from (peek last ts 0).ty (peek last ts 0)
            (do consume last TokType.lparen; e ← parse_expr f; consume last TokType.rparen; pure e)
            ts
