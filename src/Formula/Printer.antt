-- ===== src/Formula/Printer.antt =====
-- A printer of syntax trees as tokens, the parser's inverse (src/formula.rs, `Expr` and the grammar
-- of `Parser`): the tokens of a tree in front of those that follow, with parentheses only where the
-- grammar wants them.
use axiom_rules_engine.Prelude.{
  ℕ, suc, ◌≤◌, ◌<◌, ◌≡◌, ◌==◌, Bool, true, false, some, [], ◌∷◌, length, if◌then◌else◌, ltb, arith,
}
use axiom_rules_engine.Prelude.Int.{ℤ, pos, negsuc}
use axiom_rules_engine.Prelude.Ord.{Str, str_ord}
use axiom_rules_engine.Prelude.Text.{codes, decimal, without_underscores}
use axiom_rules_engine.BTree.{key_eq}
use axiom_rules_engine.Model.Platform.{Platform}
use axiom_rules_engine.Formula.Tokens.{TokType, Token}
use axiom_rules_engine.Formula.Ast.{
  BinOpKind, UnaryOpKind, Expr, Args, Cases, Default, lit_int, lit_float, lit_str, lit_bool, var,
  bin_op, unary_op, call, field_access, index, cond, match', no_args, arg, no_cases, case,
  no_default, default,
}
use axiom_rules_engine.Formula.Parser.{Tokens}

abbrev pub token : TokType → Str → Token
token ty value = record { ty = ty; value = value; line = 0; col = 0 }

abbrev pub symbol : TokType → Token
symbol ty = token ty []

abbrev pub op_type : BinOpKind → TokType
op_type BinOpKind.add = TokType.plus
op_type BinOpKind.sub = TokType.minus
op_type BinOpKind.mul = TokType.star
op_type BinOpKind.div = TokType.slash
op_type BinOpKind.lt = TokType.lt
op_type BinOpKind.gt = TokType.gt
op_type BinOpKind.le = TokType.le
op_type BinOpKind.ge = TokType.ge
op_type BinOpKind.eq = TokType.eq
op_type BinOpKind.ne = TokType.ne
op_type BinOpKind.and = TokType.and
op_type BinOpKind.or = TokType.or

-- How tightly an operator binds, from 1 for `or` to 5 for products.
abbrev pub op_level : BinOpKind → ℕ
op_level BinOpKind.or = 1
op_level BinOpKind.and = 2
op_level BinOpKind.add = 4
op_level BinOpKind.sub = 4
op_level BinOpKind.mul = 5
op_level BinOpKind.div = 5
op_level _ = 3

-- Operators associate to the left; comparisons do not associate.
abbrev pub left_level : BinOpKind → ℕ
left_level op = if op_level op == 3 then 4 else op_level op

module _ ⦃p : Platform⦄ where
  open p use {Decimal, show_decimal, parse_decimal}

  -- 0 for conditionals and matches, 1 to 5 for operators, 6 for prefixes, 7 for suffixes, 8 for atoms.
  abbrev pub level : Expr → ℕ
  level (bin_op op l r) = op_level op
  level (unary_op op e) = 6
  level (call f args) = 7
  level (field_access o field) = 7
  level (index t i) = 7
  level (cond c t e) = 0
  level (match' s cs d) = 0
  level _ = 8

  abbrev pub bracketed : Bool → (Tokens → Tokens) → Tokens → Tokens
  bracketed true inner rest = symbol TokType.lparen ∷ inner (symbol TokType.rparen ∷ rest)
  bracketed false inner rest = inner rest

  abbrev pub prefix : UnaryOpKind → TokType
  prefix UnaryOpKind.neg = TokType.minus
  prefix UnaryOpKind.not = TokType.not'

  abbrev pub integer_text : ℤ → Str
  integer_text (pos n) = decimal n
  integer_text (negsuc n) = 45 ∷ decimal (suc n)

  abbrev pub tail : Tokens → Tokens
  tail [] = []
  tail (t ∷ ts) = ts

  -- The branch of a conditional after its `then`: an `elif` where it is a conditional again.
  abbrev pub as_else : Expr → (Tokens → Tokens) → Tokens → Tokens
  as_else (cond c t e) inner rest = symbol TokType.elif ∷ tail (inner rest)
  as_else _ inner rest = symbol TokType.else' ∷ symbol TokType.colon ∷ inner rest

  unfoldable mutual
    pub body : Expr → Tokens → Tokens
    body (lit_int n) rest = token TokType.int (integer_text n) ∷ rest
    body (lit_float d) rest = token TokType.float (show_decimal d) ∷ rest
    body (lit_str s) rest = token TokType.string s ∷ rest
    body (lit_bool b) rest = symbol (if b then TokType.true' else TokType.false') ∷ rest
    body (var x) rest = token TokType.ident x ∷ rest
    body (bin_op op l r) rest =
        bracketed (ltb (level l) (left_level op)) (body l)
          (symbol (op_type op) ∷ bracketed (ltb (level r) (suc (op_level op))) (body r) rest)
    body (unary_op op e) rest = symbol (prefix op) ∷ bracketed (ltb (level e) 6) (body e) rest
    body (call f args) rest =
        token TokType.ident f
        ∷ symbol TokType.lparen
        ∷ args_body args (symbol TokType.rparen ∷ rest)
    body (field_access o field) rest =
        bracketed (ltb (level o) 7) (body o) (symbol TokType.dot ∷ token TokType.ident field ∷ rest)
    body (index t i) rest =
        bracketed (ltb (level t) 7) (body t)
          (symbol TokType.lbracket ∷ body i (symbol TokType.rbracket ∷ rest))
    body (cond c t e) rest =
        symbol TokType.if'
        ∷ bracketed (ltb (level c) 1) (body c)
            (symbol TokType.colon ∷ body t (as_else e (body e) rest))
    body (match' s cs d) rest =
        symbol TokType.match'
        ∷ bracketed (ltb (level s) 1) (body s)
            (symbol TokType.colon ∷ cases_body cs (default_body d rest))

    pub args_body : Args → Tokens → Tokens
    args_body no_args rest = rest
    args_body (arg e more) rest = body e (more_body more rest)

    pub more_body : Args → Tokens → Tokens
    more_body no_args rest = rest
    more_body (arg e more) rest = symbol TokType.comma ∷ body e (more_body more rest)

    pub cases_body : Cases → Tokens → Tokens
    cases_body no_cases rest = rest
    cases_body (case pat res more) rest =
        body pat
          (symbol TokType.arrow ∷ bracketed (ltb (level res) 1) (body res) (cases_body more rest))

    pub default_body : Default → Tokens → Tokens
    default_body no_default rest = rest
    default_body (default e) rest =
        token TokType.ident (codes "_")
        ∷ symbol TokType.arrow
        ∷ bracketed (ltb (level e) 1) (body e) rest

  -- The tokens of a tree where the grammar wants one that binds at least as tightly as `k`.
  abbrev pub print : ℕ → Expr → Tokens → Tokens
  print k e rest = bracketed (ltb (level e) k) (body e) rest

  abbrev pub IsPattern : Expr → Type 0
  IsPattern (lit_int n) = Unit
  IsPattern (lit_float d) = Unit
  IsPattern (lit_str s) = Unit
  IsPattern (lit_bool b) = Unit
  IsPattern (var x) = key_eq x (codes "_") ≡ false
  IsPattern _ = ⊥

  -- What has a spelling: integers are from 0 on and within `i64`, decimals are those that their text
  -- reads as, and the patterns of a match are literals or names other than `_`.
  abbrev mutual
    pub Printable : Expr → Type 0
    Printable (lit_int (pos n)) = n < 9223372036854775808
    Printable (lit_int (negsuc n)) = ⊥
    Printable (lit_float d) = parse_decimal (without_underscores (show_decimal d)) ≡ some d
    Printable (lit_str s) = Unit
    Printable (lit_bool b) = Unit
    Printable (var x) = Unit
    Printable (bin_op op l r) = Printable l × Printable r
    Printable (unary_op op e) = Printable e
    Printable (call f args) = PrintableArgs args
    Printable (field_access o field) = Printable o
    Printable (index t i) = Printable t × Printable i
    Printable (cond c t e) = Printable c × Printable t × Printable e
    Printable (match' s cs d) = Printable s × PrintableCases cs × PrintableDefault d

    pub PrintableArgs : Args → Type 0
    PrintableArgs no_args = Unit
    PrintableArgs (arg e more) = Printable e × PrintableArgs more

    pub PrintableCases : Cases → Type 0
    PrintableCases no_cases = Unit
    PrintableCases (case pat res more) =
        IsPattern pat × Printable pat × Printable res × PrintableCases more

    pub PrintableDefault : Default → Type 0
    PrintableDefault no_default = Unit
    PrintableDefault (default e) = Printable e

  length-bracketed :
      (b : Bool) (inner : Tokens → Tokens) (rest : Tokens)
      → ((ts : Tokens) → length ts < length (inner ts))
      → length rest < length (bracketed b inner rest)
  length-bracketed true inner rest h = omega (arith, h (symbol TokType.rparen ∷ rest))
  length-bracketed false inner rest h = h rest

  length-tail : (ts : Tokens) → length ts ≤ suc (length (tail ts))
  length-tail [] = omega arith
  length-tail (t ∷ ts) = omega arith

  length-as_else :
      (e : Expr) (inner : Tokens → Tokens) (rest : Tokens)
      → ((ts : Tokens) → length ts < length (inner ts))
      → length rest < length (as_else e inner rest)
  length-as_else (cond c t e) inner rest h = omega (arith, length-tail (inner rest), h rest)
  length-as_else _ inner rest h = omega (arith, h rest)

  mutual
    unfolding body

    pub length-body : (e : Expr) (rest : Tokens) → length rest < length (body e rest)
    length-body (lit_int n) rest = omega arith
    length-body (lit_float d) rest = omega arith
    length-body (lit_str s) rest = omega arith
    length-body (lit_bool b) rest = omega arith
    length-body (var x) rest = omega arith
    length-body (bin_op op l r) rest =
        let after = bracketed (ltb (level r) (suc (op_level op))) (body r) rest in
        omega (
          arith,
          length-bracketed (ltb (level r) (suc (op_level op))) (body r) rest (length-body r),
          length-bracketed (ltb (level l) (left_level op)) (body l) (symbol (op_type op) ∷ after)
              (length-body l),
        )
    length-body (unary_op op e) rest =
        omega (arith, length-bracketed (ltb (level e) 6) (body e) rest (length-body e))
    length-body (call f args) rest =
        omega (arith, length-args_body args (symbol TokType.rparen ∷ rest))
    length-body (field_access o field) rest = omega (
      arith,
      length-bracketed (ltb (level o) 7) (body o)
          (symbol TokType.dot ∷ token TokType.ident field ∷ rest) (length-body o),
    )
    length-body (index t i) rest =
        let after = body i (symbol TokType.rbracket ∷ rest) in
        omega (
          arith,
          length-body i (symbol TokType.rbracket ∷ rest),
          length-bracketed (ltb (level t) 7) (body t) (symbol TokType.lbracket ∷ after)
              (length-body t),
        )
    length-body (cond c t e) rest =
        let other = as_else e (body e) rest in
        omega (
          arith,
          length-as_else e (body e) rest (length-body e),
          length-body t other,
          length-bracketed (ltb (level c) 1) (body c) (symbol TokType.colon ∷ body t other)
              (length-body c),
        )
    length-body (match' s cs d) rest =
        let arms = cases_body cs (default_body d rest) in
        omega (
          arith,
          length-default_body d rest,
          length-cases_body cs (default_body d rest),
          length-bracketed (ltb (level s) 1) (body s) (symbol TokType.colon ∷ arms) (length-body s),
        )

    pub length-args_body :
        (args : Args) (rest : Tokens) → length rest ≤ length (args_body args rest)
    length-args_body no_args rest = omega arith
    length-args_body (arg e more) rest =
        omega (arith, length-body e (more_body more rest), length-more_body more rest)

    pub length-more_body :
        (args : Args) (rest : Tokens) → length rest ≤ length (more_body args rest)
    length-more_body no_args rest = omega arith
    length-more_body (arg e more) rest =
        omega (arith, length-body e (more_body more rest), length-more_body more rest)

    pub length-cases_body : (cs : Cases) (rest : Tokens) → length rest ≤ length (cases_body cs rest)
    length-cases_body no_cases rest = omega arith
    length-cases_body (case pat res more) rest =
        let after = bracketed (ltb (level res) 1) (body res) (cases_body more rest) in
        omega (
          arith,
          length-cases_body more rest,
          length-bracketed (ltb (level res) 1) (body res) (cases_body more rest) (length-body res),
          length-body pat (symbol TokType.arrow ∷ after),
        )

    pub length-default_body :
        (d : Default) (rest : Tokens) → length rest ≤ length (default_body d rest)
    length-default_body no_default rest = omega arith
    length-default_body (default e) rest =
        omega (arith, length-bracketed (ltb (level e) 1) (body e) rest (length-body e))

  pub length-print : (k : ℕ) (e : Expr) (rest : Tokens) → length rest < length (print k e rest)
  length-print k e rest = length-bracketed (ltb (level e) k) (body e) rest (length-body e)
