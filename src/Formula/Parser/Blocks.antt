-- ===== src/Formula/Parser/Blocks.antt =====
-- What the parser reads of printed atoms, calls, conditionals and matches (src/formula.rs,
-- `parse_primary`, `parse_postfix`, `parse_cond`, `parse_elif_chain` and `parse_match`).
use axiom_rules_engine.Prelude.{
  ℕ, zero, suc, ◌+◌, ◌*◌, ◌≤◌, ◌<◌, ◌≡◌, refl, sym, subst, Bool, true, false, some, [], ◌∷◌, length,
  arith, ltb,
}
use axiom_rules_engine.Prelude.Int.{pos, negsuc}
use axiom_rules_engine.Prelude.Ord.{Str, str_ord}
use axiom_rules_engine.Prelude.Text.{
  decimal, decimal-digit, parse_number, parse_number-decimal, without_underscores,
  without_underscores-decimal,
}
use axiom_rules_engine.Model.Platform.{Platform}
use axiom_rules_engine.Formula.Tokens.{TokType, Token}
use axiom_rules_engine.Formula.Ast.{
  Expr, Args, Cases, Default, lit_int, lit_float, lit_str, lit_bool, var, bin_op, unary_op,
  UnaryOpKind, field_access, index, call, cond, match', no_args, arg, no_cases, case, no_default,
  default,
}
use axiom_rules_engine.Formula.Parser.{Tokens, Parse, ok, peek, at, consume, match_one}
use axiom_rules_engine.Formula.Parser.Terms.{
  parse_i64, at_arm, is_wildcard, parse_expr, call_args, args_rest, match_arms,
}
use axiom_rules_engine.Formula.Parser.Levels.{binds, Full, Goes, Left, is_loop}
use axiom_rules_engine.Formula.Parser.Reads.{Follows, Levels, Own, Elses}
use axiom_rules_engine.Formula.Parser.Operators.{operand, expr_reads, closes, reads_of_left}
use axiom_rules_engine.Formula.Printer.{
  symbol, token, level, left_level, bracketed, body, args_body, more_body, cases_body, default_body,
  print, as_else, length-print, length-body, length-args_body, IsPattern, Printable, PrintableCases,
}

-- The decimal form of a number within `i64` reads as that integer.
unsigned-digits :
    (c : ℕ) (s : Str) (n : ℕ)
    → 48 ≤ c
    → c ≤ 57
    → n < 9223372036854775808
    → parse_number 0 (c ∷ s) ≡ some n
    → parse_i64 (c ∷ s) ≡ some (pos n)
unfolding parse_i64
unsigned-digits c s n low high small e = rw (e) (ground arith)

parse_i64-decimal :
    (n : ℕ) → n < 9223372036854775808 → parse_i64 (without_underscores (decimal n)) ≡ some (pos n)
parse_i64-decimal n small = rw (without_underscores-decimal n) (
    decimal-digit n (λ s. parse_number 0 s ≡ some n → parse_i64 s ≡ some (pos n))
      (λ c t low high e. unsigned-digits c t n low high small e) (parse_number-decimal n))

module _ ⦃p : Platform⦄ (last : Token) where
  -- An atom is read by `parse_primary`.
  pub atom-Own :
      (e : Expr) → level e ≡ 8 → ((rest : Tokens) → Full last 8 e (body e rest) rest) → Own last e
  atom-Own e same reads = record {
    reads =
        λ rest follows. subst (λ (i : ℕ). Full last i e (body e rest) rest) (sym same) (reads rest);
    goes_on = λ rest loop ne b.
        let clash : false ≡ true = subst (λ (i : ℕ). is_loop last i ≡ true) same loop in cc;
  }

  -- A literal or a name is one token.
  pub atom_reads :
      (e : Expr) → IsPattern e → Printable e → (rest : Tokens) → Full last 8 e (body e rest) rest
  unfolding parse_expr body
  atom_reads (lit_int (pos n)) i h rest zero b = absurd (omega arith)
  atom_reads (lit_int (pos n)) i h rest (suc f) b = rw (parse_i64-decimal n h) refl
  atom_reads (lit_int (negsuc n)) i h rest f b = absurd h
  atom_reads (lit_float d) i h rest zero b = absurd (omega arith)
  atom_reads (lit_float d) i h rest (suc f) b = rw h refl
  atom_reads (lit_str s) i h rest zero b = absurd (omega arith)
  atom_reads (lit_str s) i h rest (suc f) b = refl
  atom_reads (lit_bool x) i h rest zero b = absurd (omega arith)
  atom_reads (lit_bool true) i h rest (suc f) b = refl
  atom_reads (lit_bool false) i h rest (suc f) b = refl
  atom_reads (var x) i h rest zero b = absurd (omega arith)
  atom_reads (var x) i h rest (suc f) b = refl
  atom_reads _ i h rest f b = absurd i

  var_reads : (x : Str) (rest : Tokens) → Full last 8 (var x) (token TokType.ident x ∷ rest) rest
  unfolding parse_expr
  var_reads x rest zero b = absurd (omega arith)
  var_reads x rest (suc f) b = refl

  pub var-Own : (x : Str) → Own last (var x)
  unfolding body
  var-Own x = atom-Own (var x) refl (var_reads x)

  bracketed-opens :
      (b : Bool) (inner : Tokens → Tokens) (rest : Tokens)
      → at last (TokType.rparen ∷ []) (inner rest) ≡ false
      → at last (TokType.rparen ∷ []) (bracketed b inner rest) ≡ false
  bracketed-opens true inner rest h = refl
  bracketed-opens false inner rest h = h

  -- No tree begins with a closing parenthesis.
  body-opens : (e : Expr) (rest : Tokens) → at last (TokType.rparen ∷ []) (body e rest) ≡ false
  unfolding body
  body-opens (lit_int n) rest = refl
  body-opens (lit_float d) rest = refl
  body-opens (lit_str s) rest = refl
  body-opens (lit_bool true) rest = refl
  body-opens (lit_bool false) rest = refl
  body-opens (var x) rest = refl
  body-opens (bin_op op l r) rest =
      bracketed-opens (ltb (level l) (left_level op)) (body l) _ (body-opens l _)
  body-opens (unary_op UnaryOpKind.neg e) rest = refl
  body-opens (unary_op UnaryOpKind.not e) rest = refl
  body-opens (call f args) rest = refl
  body-opens (field_access o field) rest =
      bracketed-opens (ltb (level o) 7) (body o) _ (body-opens o _)
  body-opens (index t i) rest = bracketed-opens (ltb (level t) 7) (body t) _ (body-opens t _)
  body-opens (cond c t e) rest = refl
  body-opens (match' s cs d) rest = refl

  -- The arguments of a call, the first and the later ones.
  abbrev pub ArgsRead : Args → Type 0
  ArgsRead args =
      (rest : Tokens) (f : ℕ)
      → 12 * length (args_body args (symbol TokType.rparen ∷ rest)) + 12 < f
      → call_args last f (args_body args (symbol TokType.rparen ∷ rest))
        ≡ ok args (symbol TokType.rparen ∷ rest)

  abbrev pub MoreRead : Args → Type 0
  MoreRead args =
      (rest : Tokens) (f : ℕ)
      → 12 * length (more_body args (symbol TokType.rparen ∷ rest)) < f
      → args_rest last f (more_body args (symbol TokType.rparen ∷ rest))
        ≡ ok args (symbol TokType.rparen ∷ rest)

  more-Follows :
      (args : Args) (rest : Tokens) → Follows last 0 (more_body args (symbol TokType.rparen ∷ rest))
  unfolding body
  more-Follows no_args rest = closes last TokType.rparen rest refl refl
  more-Follows (arg e more) rest = closes last TokType.comma _ refl refl

  pub no_args-ArgsRead : ArgsRead no_args
  unfolding parse_expr body
  no_args-ArgsRead rest zero b = absurd (omega arith)
  no_args-ArgsRead rest (suc f) b = refl

  pub no_args-MoreRead : MoreRead no_args
  unfolding parse_expr body match_one
  no_args-MoreRead rest zero b = absurd (omega arith)
  no_args-MoreRead rest (suc f) b = refl

  pub arg-ArgsRead :
      (e : Expr) (more : Args) → Levels last e → MoreRead more → ArgsRead (arg e more)
  unfolding parse_expr body
  arg-ArgsRead e more levels later rest zero b = absurd (omega arith)
  arg-ArgsRead e more levels later rest (suc f) b =
      let after = more_body more (symbol TokType.rparen ∷ rest) in
      rw (
        body-opens e after,
        expr_reads last e after levels (more-Follows more rest) f (omega arith),
        later rest f (omega (arith, length-body e after)),
      )

  pub arg-MoreRead :
      (e : Expr) (more : Args) → Levels last e → MoreRead more → MoreRead (arg e more)
  unfolding parse_expr body match_one
  arg-MoreRead e more levels later rest zero b = absurd (omega arith)
  arg-MoreRead e more levels later rest (suc f) b =
      let after = more_body more (symbol TokType.rparen ∷ rest) in
      rw (
        expr_reads last e after levels (more-Follows more rest) f (omega arith),
        later rest f (omega (arith, length-body e after)),
      )

  call-Goes :
      (g : Str) (args : Args) (rest : Tokens) (x : Parse Expr)
      → ArgsRead args
      → Goes last 7 (call g args) rest x
      → Goes last 7
          (var g)
          (symbol TokType.lparen ∷ args_body args (symbol TokType.rparen ∷ rest))
          x
  unfolding parse_expr consume
  call-Goes g args rest x read goes zero h = absurd (omega arith)
  call-Goes g args rest x read goes (suc f) h =
      rw (read rest f (omega arith))
        (goes f (omega (arith, length-args_body args (symbol TokType.rparen ∷ rest))))

  call_left :
      (g : Str) (args : Args) (rest : Tokens)
      → ArgsRead args
      → Left last 7
          (call g args)
          (token TokType.ident g
            ∷ symbol TokType.lparen
            ∷ args_body args (symbol TokType.rparen ∷ rest))
          rest
  unfolding parse_expr
  call_left g args rest read x goes zero b = absurd (omega arith)
  call_left g args rest read x goes (suc f) b =
      let after = symbol TokType.lparen ∷ args_body args (symbol TokType.rparen ∷ rest) in
      rw (var_reads g after f (omega arith)) (call-Goes g args rest x read goes f (omega arith))

  pub call-Own : (g : Str) (args : Args) → ArgsRead args → Own last (call g args)
  unfolding body
  call-Own g args read =
      reads_of_left last (call g args) 7 refl refl λ rest b. call_left g args rest read

  else-Follows :
      (e : Expr) (inner : Tokens → Tokens) (rest : Tokens) → Follows last 0 (as_else e inner rest)
  else-Follows (cond c t e) inner rest = closes last TokType.elif _ refl refl
  else-Follows (var x) inner rest = closes last TokType.else' _ refl refl
  else-Follows _ inner rest = closes last TokType.else' _ refl refl

  cond_reads :
      (c t e : Expr) (rest : Tokens)
      → Levels last c
      → Levels last t
      → Elses last e
      → Follows last 0 rest
      → Full last 0 (cond c t e) (body (cond c t e) rest) rest
  unfolding parse_expr body consume
  cond_reads c t e rest lc lt le follows zero b = absurd (omega arith)
  cond_reads c t e rest lc lt le follows (suc zero) b = absurd (omega arith)
  cond_reads c t e rest lc lt le follows (suc (suc f)) b =
      let other = as_else e (body e) rest in
      let branch = symbol TokType.colon ∷ body t other in
      rw (
        operand last c 1 branch lc (omega arith) (omega arith) (omega arith) f (omega arith),
        expr_reads last t other lt (else-Follows e (body e) rest) f
            (omega (arith, length-print 1 c branch)),
        le c t rest follows f (omega (arith, length-print 1 c branch, length-body t other)),
      )

  pub cond-Own :
      (c t e : Expr) → Levels last c → Levels last t → Elses last e → Own last (cond c t e)
  cond-Own c t e lc lt le = record {
    reads = λ rest follows. cond_reads c t e rest lc lt le follows;
    goes_on = λ rest loop ne b. cc;
  }

  pub cond-Elses :
      (c t e : Expr) → Levels last c → Levels last t → Elses last e → Elses last (cond c t e)
  unfolding parse_expr body consume match_one
  cond-Elses c t e lc lt le c' t' rest follows zero b = absurd (omega arith)
  cond-Elses c t e lc lt le c' t' rest follows (suc f) b =
      let other = as_else e (body e) rest in
      let branch = symbol TokType.colon ∷ body t other in
      rw (
        operand last c 1 branch lc (omega arith) (omega arith) (omega arith) f (omega arith),
        expr_reads last t other lt (else-Follows e (body e) rest) f
            (omega (arith, length-print 1 c branch)),
        le c t rest follows f (omega (arith, length-print 1 c branch, length-body t other)),
      )

  -- The arms of a match.
  abbrev pub CasesRead : Cases → Default → Type 0
  CasesRead cs d =
      (rest : Tokens)
      → Follows last 0 rest
      → (f : ℕ) → 12 * length (cases_body cs (default_body d rest)) + 4 < f
      → match_arms last f no_default (cases_body cs (default_body d rest)) ≡ ok (cs, d) rest

  pattern_arm :
      (e : Expr) (rest : Tokens)
      → IsPattern e
      → (at_arm last (body e (symbol TokType.arrow ∷ rest)) ≡ true)
        × (binds (peek last (body e (symbol TokType.arrow ∷ rest)) 0).ty ≡ 0)
        × (is_wildcard e ≡ false)
  unfolding body
  pattern_arm (lit_int n) rest h = (refl, refl, refl)
  pattern_arm (lit_float d) rest h = (refl, refl, refl)
  pattern_arm (lit_str s) rest h = (refl, refl, refl)
  pattern_arm (lit_bool true) rest h = (refl, refl, refl)
  pattern_arm (lit_bool false) rest h = (refl, refl, refl)
  pattern_arm (var x) rest h = (refl, refl, h)
  pattern_arm _ rest h = absurd h

  binds_arms :
      (cs : Cases) (d : Default) (rest : Tokens)
      → PrintableCases cs
      → Follows last 0 rest
      → binds (peek last (cases_body cs (default_body d rest)) 0).ty ≡ 0
  unfolding body
  binds_arms no_cases no_default rest h follows = let low = follows.loose in omega arith
  binds_arms no_cases (default e) rest h follows = refl
  binds_arms (case pat res more) d rest h follows = (pattern_arm pat _ h.0).1

  pub no_default-CasesRead : CasesRead no_cases no_default
  unfolding parse_expr body
  no_default-CasesRead rest follows zero b = absurd (omega arith)
  no_default-CasesRead rest follows (suc f) b = rw (follows.no_arm refl) refl

  pub default-CasesRead : (e : Expr) → Levels last e → CasesRead no_cases (default e)
  unfolding parse_expr body consume
  default-CasesRead e levels rest follows zero b = absurd (omega arith)
  default-CasesRead e levels rest follows (suc zero) b = absurd (omega arith)
  default-CasesRead e levels rest follows (suc (suc f)) b =
      let low = follows.loose in
      rw (levels.arm rest (omega arith) (suc f) (omega arith), follows.no_arm refl) refl

  pub case-CasesRead :
      (pat res : Expr) (more : Cases) (d : Default)
      → IsPattern pat
      → Printable pat
      → PrintableCases more
      → Levels last res
      → CasesRead more d
      → CasesRead (case pat res more) d
  unfolding parse_expr body consume
  case-CasesRead pat res more d i h hs levels later rest follows zero b = absurd (omega arith)
  case-CasesRead pat res more d i h hs levels later rest follows (suc f) b =
      let after = cases_body more (default_body d rest) in
      let arm = print 1 res after in
      let shape = pattern_arm pat arm i in
      let shorter = length-body pat (symbol TokType.arrow ∷ arm) in
      rw (
        shape.0,
        atom_reads pat i h (symbol TokType.arrow ∷ arm) f (omega arith),
        levels.arm after (binds_arms more d rest hs follows) f (omega (arith, shorter)),
        shape.2,
        later rest follows f (omega (arith, shorter, length-print 1 res after)),
      )

  match_reads :
      (s : Expr) (cs : Cases) (d : Default) (rest : Tokens)
      → Levels last s
      → CasesRead cs d
      → Follows last 0 rest
      → Full last 0 (match' s cs d) (body (match' s cs d) rest) rest
  unfolding parse_expr body consume
  match_reads s cs d rest levels arms follows zero b = absurd (omega arith)
  match_reads s cs d rest levels arms follows (suc zero) b = absurd (omega arith)
  match_reads s cs d rest levels arms follows (suc (suc f)) b =
      let after = symbol TokType.colon ∷ cases_body cs (default_body d rest) in
      rw (
        operand last s 1 after levels (omega arith) (omega arith) (omega arith) f (omega arith),
        arms rest follows f (omega (arith, length-print 1 s after)),
      )

  pub match-Own :
      (s : Expr) (cs : Cases) (d : Default)
      → Levels last s
      → CasesRead cs d
      → Own last (match' s cs d)
  match-Own s cs d levels arms = record {
    reads = λ rest follows. match_reads s cs d rest levels arms follows;
    goes_on = λ rest loop ne b. cc;
  }
