-- ===== src/Formula/Parser/Operators.antt =====
-- What the parser reads of printed operators, prefixes and suffixes at their own level
-- (src/formula.rs, `parse_or` to `parse_postfix`).
use Prim.Native.Nat.{max}
use axiom_rules_engine.Prelude.{
  ℕ, zero, suc, ◌≤◌, ◌<◌, ◌≡◌, refl, sym, subst, ap, Bool, true, false, some, List, [], ◌∷◌, arith,
  ltb,
}
use axiom_rules_engine.Model.Platform.{Platform}
use axiom_rules_engine.Formula.Tokens.{TokType, Token}
use axiom_rules_engine.Formula.Ast.{
  BinOpKind, UnaryOpKind, Expr, bin_op, unary_op, field_access, index,
}
use axiom_rules_engine.Formula.Parser.{Tokens, Parse, ok, peek, at, consume, match_one}
use axiom_rules_engine.Formula.Parser.Terms.{comparison, additive, multiplicative, parse_expr}
use axiom_rules_engine.Formula.Parser.Levels.{
  binds, Full, Goes, Left, is_loop, loop_step, loop_stop,
}
use axiom_rules_engine.Formula.Parser.Reads.{Follows, Levels, Own, binds-op, loop_bounds}
use axiom_rules_engine.Formula.Printer.{
  symbol, token, op_type, op_level, level, bracketed, body, print, length-print, length-body,
  prefix,
}

comparison-op : (op : BinOpKind) → op_level op ≡ 3 → comparison (op_type op) ≡ some op
comparison-op BinOpKind.lt h = refl
comparison-op BinOpKind.gt h = refl
comparison-op BinOpKind.le h = refl
comparison-op BinOpKind.ge h = refl
comparison-op BinOpKind.eq h = refl
comparison-op BinOpKind.ne h = refl
comparison-op BinOpKind.or h = absurd (omega arith)
comparison-op BinOpKind.and h = absurd (omega arith)
comparison-op _ h = absurd (omega arith)

additive-op : (op : BinOpKind) → op_level op ≡ 4 → additive (op_type op) ≡ some op
additive-op BinOpKind.add h = refl
additive-op BinOpKind.sub h = refl
additive-op BinOpKind.or h = absurd (omega arith)
additive-op _ h = absurd (omega arith)

multiplicative-op : (op : BinOpKind) → op_level op ≡ 5 → multiplicative (op_type op) ≡ some op
multiplicative-op BinOpKind.mul h = refl
multiplicative-op BinOpKind.div h = refl
multiplicative-op BinOpKind.or h = absurd (omega arith)
multiplicative-op _ h = absurd (omega arith)

-- The token types of patterns.
abbrev pub arm_types : List TokType
arm_types =
    TokType.int ∷ TokType.float ∷ TokType.string ∷ TokType.true' ∷ TokType.false' ∷ TokType.ident
    ∷ []

module _ ⦃p : Platform⦄ (last : Token) where
  -- A tree at a level of operators or tighter.
  pub operand :
      (e : Expr) (k : ℕ) (rest : Tokens)
      → Levels last e
      → 1 ≤ k
      → k ≤ 8
      → binds (peek last rest 0).ty < k
      → Full last k e (print k e rest) rest
  operand e k rest levels one bound b =
      levels.full k rest bound (record { loose = omega arith; no_arm = λ z. absurd (omega arith) })

  -- A tree on its own, where any tree may stand.
  pub expr_reads :
      (e : Expr) (rest : Tokens)
      → Levels last e
      → Follows last 0 rest
      → Full last 0 e (body e rest) rest
  expr_reads e rest levels follows =
      let none_looser : ltb (level e) 0 ≡ false = ground arith in
      subst (λ ts. Full last 0 e ts rest) (ap (λ (b : Bool). bracketed b (body e) rest) none_looser)
        (levels.full 0 rest (omega arith) follows)

  -- A loop that goes on with any tree stops at tokens that do not bind.
  pub reads_of_left :
      (e : Expr) (k : ℕ)
      → is_loop last k ≡ true
      → level e ≡ k
      → ((rest : Tokens) → binds (peek last rest 0).ty ≤ k → Left last k e (body e rest) rest)
      → Own last e
  reads_of_left e k loop same left = record {
    reads = λ rest follows.
        subst (λ (i : ℕ). Full last i e (body e rest) rest) (sym same)
          (left rest (stops rest follows.loose) (ok e rest)
            (loop_stop last k e rest loop (stops_below rest follows.loose)));
    goes_on = λ rest l ne b.
        subst (λ (i : ℕ). Left last i e (body e rest) rest) (sym same) (left rest (omega arith));
  }
    where
      one : 1 ≤ k
      one = (loop_bounds last k loop).0

      stops :
          (rest : Tokens)
          → binds (peek last rest 0).ty < max 1 (level e)
          → binds (peek last rest 0).ty ≤ k
      stops rest h = omega (arith, one)

      stops_below :
          (rest : Tokens)
          → binds (peek last rest 0).ty < max 1 (level e)
          → binds (peek last rest 0).ty < k
      stops_below rest h = omega (arith, one)

  or-Goes :
      (l r : Expr) (rest : Tokens) (x : Parse Expr)
      → Levels last r
      → binds (peek last rest 0).ty ≤ 1
      → Goes last 1 (bin_op BinOpKind.or l r) rest x
      → Goes last 1 l (symbol TokType.or ∷ print 2 r rest) x
  unfolding parse_expr match_one
  or-Goes l r rest x levels b goes zero h = absurd (omega arith)
  or-Goes l r rest x levels b goes (suc f) h =
      rw (operand r 2 rest levels (omega arith) (omega arith) (omega arith) f (omega arith))
        (goes f (omega (arith, length-print 2 r rest)))

  pub or-Own : (l r : Expr) → Levels last l → Levels last r → Own last (bin_op BinOpKind.or l r)
  unfolding body
  or-Own l r left_levels right_levels =
      reads_of_left (bin_op BinOpKind.or l r) 1 refl refl λ rest b x goes.
        left_levels.left 1 (symbol TokType.or ∷ print 2 r rest) refl (omega arith) (omega arith) x
          (or-Goes l r rest x right_levels b goes)

  and-Goes :
      (l r : Expr) (rest : Tokens) (x : Parse Expr)
      → Levels last r
      → binds (peek last rest 0).ty ≤ 2
      → Goes last 2 (bin_op BinOpKind.and l r) rest x
      → Goes last 2 l (symbol TokType.and ∷ print 3 r rest) x
  unfolding parse_expr match_one
  and-Goes l r rest x levels b goes zero h = absurd (omega arith)
  and-Goes l r rest x levels b goes (suc f) h =
      rw (operand r 3 rest levels (omega arith) (omega arith) (omega arith) f (omega arith))
        (goes f (omega (arith, length-print 3 r rest)))

  pub and-Own : (l r : Expr) → Levels last l → Levels last r → Own last (bin_op BinOpKind.and l r)
  unfolding body
  and-Own l r left_levels right_levels =
      reads_of_left (bin_op BinOpKind.and l r) 2 refl refl λ rest b x goes.
        left_levels.left 2 (symbol TokType.and ∷ print 3 r rest) refl (omega arith) (omega arith) x
          (and-Goes l r rest x right_levels b goes)

  additive-Goes :
      (op : BinOpKind) (l r : Expr) (rest : Tokens) (x : Parse Expr)
      → op_level op ≡ 4
      → Levels last r
      → binds (peek last rest 0).ty ≤ 4
      → Goes last 4 (bin_op op l r) rest x
      → Goes last 4 l (symbol (op_type op) ∷ print 5 r rest) x
  unfolding parse_expr
  additive-Goes op l r rest x e levels b goes zero h = absurd (omega arith)
  additive-Goes op l r rest x e levels b goes (suc f) h =
      rw
        (
          additive-op op e,
          operand r 5 rest levels (omega arith) (omega arith) (omega arith) f (omega arith),
        )
        (goes f (omega (arith, length-print 5 r rest)))

  pub additive-Own :
      (op : BinOpKind) (l r : Expr)
      → op_level op ≡ 4
      → Levels last l
      → Levels last r
      → Own last (bin_op op l r)
  unfolding body
  additive-Own op l r e left_levels right_levels =
      reads_of_left (bin_op op l r) 4 refl e λ rest b x goes. rw e (
        left_levels.left 4 (symbol (op_type op) ∷ print 5 r rest) refl (omega arith)
          (omega (arith, binds-op op)) x (additive-Goes op l r rest x e right_levels b goes))

  multiplicative-Goes :
      (op : BinOpKind) (l r : Expr) (rest : Tokens) (x : Parse Expr)
      → op_level op ≡ 5
      → Levels last r
      → binds (peek last rest 0).ty ≤ 5
      → Goes last 5 (bin_op op l r) rest x
      → Goes last 5 l (symbol (op_type op) ∷ print 6 r rest) x
  unfolding parse_expr
  multiplicative-Goes op l r rest x e levels b goes zero h = absurd (omega arith)
  multiplicative-Goes op l r rest x e levels b goes (suc f) h =
      rw
        (
          multiplicative-op op e,
          operand r 6 rest levels (omega arith) (omega arith) (omega arith) f (omega arith),
        )
        (goes f (omega (arith, length-print 6 r rest)))

  pub multiplicative-Own :
      (op : BinOpKind) (l r : Expr)
      → op_level op ≡ 5
      → Levels last l
      → Levels last r
      → Own last (bin_op op l r)
  unfolding body
  multiplicative-Own op l r e left_levels right_levels =
      reads_of_left (bin_op op l r) 5 refl e λ rest b x goes. rw e (
        left_levels.left 5 (symbol (op_type op) ∷ print 6 r rest) refl (omega arith)
          (omega (arith, binds-op op)) x (multiplicative-Goes op l r rest x e right_levels b goes))

  cmp-Goes :
      (op : BinOpKind) (l r : Expr) (rest : Tokens)
      → op_level op ≡ 3
      → Levels last r
      → binds (peek last rest 0).ty < 3
      → Goes last 3 l (symbol (op_type op) ∷ print 4 r rest) (ok (bin_op op l r) rest)
  unfolding parse_expr
  cmp-Goes op l r rest e levels b zero h = absurd (omega arith)
  cmp-Goes op l r rest e levels b (suc f) h = rw (
    comparison-op op e,
    operand r 4 rest levels (omega arith) (omega arith) (omega arith) f (omega arith),
  )

  pub cmp-Own :
      (op : BinOpKind) (l r : Expr)
      → op_level op ≡ 3
      → Levels last l
      → Levels last r
      → Own last (bin_op op l r)
  unfolding body
  cmp-Own op l r e left_levels right_levels = record {
    reads = λ rest follows.
        let low = follows.loose in
        rw e (
          loop_step last 3 l _ (symbol (op_type op) ∷ print 4 r rest) refl
            (length-print 4 l (symbol (op_type op) ∷ print 4 r rest))
            (operand l 4 (symbol (op_type op) ∷ print 4 r rest) left_levels (omega arith)
              (omega arith) (omega (arith, binds-op op)))
            (ok (bin_op op l r) rest) (cmp-Goes op l r rest e right_levels (omega arith)));
    goes_on = λ rest loop ne b. absurd (ne e);
  }

  unary_reads :
      (op : UnaryOpKind) (e : Expr) (rest : Tokens)
      → Levels last e
      → Follows last 6 rest
      → Full last 6 (unary_op op e) (symbol (prefix op) ∷ print 6 e rest) rest
  unfolding parse_expr match_one
  unary_reads op e rest levels follows zero h = absurd (omega arith)
  unary_reads UnaryOpKind.neg e rest levels follows (suc f) h =
      rw (levels.full 6 rest (omega arith) follows f (omega arith)) refl
  unary_reads UnaryOpKind.not e rest levels follows (suc f) h =
      rw (levels.full 6 rest (omega arith) follows f (omega arith)) refl

  pub unary-Own : (op : UnaryOpKind) (e : Expr) → Levels last e → Own last (unary_op op e)
  unfolding body
  unary-Own op e levels = record {
    reads = λ rest follows. unary_reads op e rest levels follows;
    goes_on = λ rest loop ne b. cc;
  }

  field-Goes :
      (o : Expr) (field : _) (rest : Tokens) (x : Parse Expr)
      → Goes last 7 (field_access o field) rest x
      → Goes last 7 o (symbol TokType.dot ∷ token TokType.ident field ∷ rest) x
  unfolding parse_expr consume
  field-Goes o field rest x goes zero h = absurd (omega arith)
  field-Goes o field rest x goes (suc f) h = goes f (omega arith)

  pub field-Own : (o : Expr) (field : _) → Levels last o → Own last (field_access o field)
  unfolding body
  field-Own o field levels = reads_of_left (field_access o field) 7 refl refl λ rest b x goes.
      levels.left 7 (symbol TokType.dot ∷ token TokType.ident field ∷ rest) refl (omega arith)
        (omega arith) x (field-Goes o field rest x goes)

  -- What closes a bracket or separates arguments ends any tree.
  pub closes :
      (ty : TokType) (rest : Tokens)
      → binds ty ≡ 0
      → at last arm_types (symbol ty ∷ []) ≡ false
      → Follows last 0 (symbol ty ∷ rest)
  closes ty rest h a = record { loose = omega arith; no_arm = λ _. rw a refl }

  index-Goes :
      (t i : Expr) (rest : Tokens) (x : Parse Expr)
      → Levels last i
      → Goes last 7 (index t i) rest x
      → Goes last 7 t (symbol TokType.lbracket ∷ body i (symbol TokType.rbracket ∷ rest)) x
  unfolding parse_expr consume
  index-Goes t i rest x levels goes zero h = absurd (omega arith)
  index-Goes t i rest x levels goes (suc f) h =
      let inside = symbol TokType.rbracket ∷ rest in
      rw (expr_reads i inside levels (closes TokType.rbracket rest refl refl) f (omega arith))
        (goes f (omega (arith, length-body i inside)))

  pub index-Own : (t i : Expr) → Levels last t → Levels last i → Own last (index t i)
  unfolding body
  index-Own t i left_levels levels = reads_of_left (index t i) 7 refl refl λ rest b x goes.
      left_levels.left 7 (symbol TokType.lbracket ∷ body i (symbol TokType.rbracket ∷ rest)) refl
        (omega arith) (omega arith) x (index-Goes t i rest x levels goes)
