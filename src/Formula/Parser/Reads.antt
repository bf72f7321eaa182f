-- ===== src/Formula/Parser/Reads.antt =====
-- What the parser reads of a printed tree at each level (src/formula.rs, `parse_expr` to
-- `parse_primary`): it is enough to know what the tree's own level reads.
use Prim.Native.Nat.{max}
use native.Mathlib.Decide.{dec_le, ℕ_discrete}
use axiom_rules_engine.Prelude.{
  ℕ, zero, suc, ◌+◌, ◌*◌, ◌≤◌, ◌<◌, ◌≡◌, ◌≢◌, refl, sym, subst, ap, ◌∙◌, Bool, true, false, ◌∷◌,
  length, arith, ltb,
}
use axiom_rules_engine.Model.Platform.{Platform}
use axiom_rules_engine.Formula.Tokens.{TokType, Token, same_type}
use axiom_rules_engine.Formula.Ast.{
  BinOpKind, UnaryOpKind, Expr, lit_int, lit_float, lit_str, lit_bool, var, bin_op, unary_op, call,
  field_access, index, cond, match',
}
use axiom_rules_engine.Formula.Parser.{Tokens, ok, peek, consume, match_one}
use axiom_rules_engine.Formula.Parser.Terms.{at_arm, parse_expr, parse_elif_chain}
use axiom_rules_engine.Formula.Parser.Levels.{
  binds, Full, Left, is_loop, loop_step, NoPrefix, IsPlain, step_expr, descend,
}
use axiom_rules_engine.Formula.Printer.{
  symbol, op_type, op_level, left_level, level, bracketed, body, print, length-body, as_else,
}

pub binds-op : (op : BinOpKind) → binds (op_type op) ≡ op_level op
binds-op BinOpKind.add = refl
binds-op _ = refl

pub op_level_bounds : (op : BinOpKind) → (1 ≤ op_level op) × (op_level op ≤ 5)
op_level_bounds BinOpKind.add = omega arith
op_level_bounds _ = omega arith

binds-assign : (ty : TokType) → binds ty < 8 → same_type ty TokType.assign ≡ false
binds-assign TokType.assign h = absurd (omega arith)
binds-assign _ h = refl

module _ ⦃p : Platform⦄ (last : Token) where
  bracketed-IsPlain :
      (b : Bool) (inner : Tokens → Tokens) (rest : Tokens)
      → (b ≡ false → IsPlain last (inner rest))
      → IsPlain last (bracketed b inner rest)
  bracketed-IsPlain true inner rest h = (refl, refl, refl)
  bracketed-IsPlain false inner rest h = h refl

  body-IsPlain :
      (e : Expr) (rest : Tokens)
      → 1 ≤ level e
      → binds (peek last rest 0).ty < 8
      → IsPlain last (body e rest)
  unfolding body
  body-IsPlain (lit_int n) rest h b = (refl, refl, refl)
  body-IsPlain (lit_float d) rest h b = (refl, refl, refl)
  body-IsPlain (lit_str s) rest h b = (refl, refl, refl)
  body-IsPlain (lit_bool true) rest h b = (refl, refl, refl)
  body-IsPlain (lit_bool false) rest h b = (refl, refl, refl)
  body-IsPlain (var x) rest h b = (binds-assign (peek last rest 0).ty b, refl, refl)
  body-IsPlain (bin_op op l r) rest h b =
      bracketed-IsPlain (ltb (level l) (left_level op)) (body l) _ λ tight.
        body-IsPlain l _ (ground (arith, op_level_bounds op))
          (omega (arith, binds-op op, op_level_bounds op))
  body-IsPlain (unary_op UnaryOpKind.neg e) rest h b = (refl, refl, refl)
  body-IsPlain (unary_op UnaryOpKind.not e) rest h b = (refl, refl, refl)
  body-IsPlain (call f args) rest h b = (refl, refl, refl)
  body-IsPlain (field_access o field) rest h b =
      bracketed-IsPlain (ltb (level o) 7) (body o) _
        λ tight. body-IsPlain o _ (ground arith) (omega arith)
  body-IsPlain (index t i) rest h b =
      bracketed-IsPlain (ltb (level t) 7) (body t) _
        λ tight. body-IsPlain t _ (ground arith) (omega arith)
  body-IsPlain (cond c t e) rest h b = absurd (omega arith)
  body-IsPlain (match' s cs d) rest h b = absurd (omega arith)

  bracketed-NoPrefix :
      (b : Bool) (inner : Tokens → Tokens) (rest : Tokens)
      → (b ≡ false → NoPrefix last (inner rest))
      → NoPrefix last (bracketed b inner rest)
  bracketed-NoPrefix true inner rest h = (refl, refl)
  bracketed-NoPrefix false inner rest h = h refl

  body-NoPrefix : (e : Expr) (rest : Tokens) → 6 < level e → NoPrefix last (body e rest)
  unfolding body
  body-NoPrefix (lit_int n) rest h = (refl, refl)
  body-NoPrefix (lit_float d) rest h = (refl, refl)
  body-NoPrefix (lit_str s) rest h = (refl, refl)
  body-NoPrefix (lit_bool true) rest h = (refl, refl)
  body-NoPrefix (lit_bool false) rest h = (refl, refl)
  body-NoPrefix (var x) rest h = (refl, refl)
  body-NoPrefix (bin_op op l r) rest h = absurd (omega (arith, op_level_bounds op))
  body-NoPrefix (unary_op op e) rest h = absurd (omega arith)
  body-NoPrefix (call f args) rest h = (refl, refl)
  body-NoPrefix (field_access o field) rest h =
      bracketed-NoPrefix (ltb (level o) 7) (body o) _ λ tight. body-NoPrefix o _ (ground arith)
  body-NoPrefix (index t i) rest h =
      bracketed-NoPrefix (ltb (level t) 7) (body t) _ λ tight. body-NoPrefix t _ (ground arith)
  body-NoPrefix (cond c t e) rest h = absurd (omega arith)
  body-NoPrefix (match' s cs d) rest h = absurd (omega arith)

  -- Nothing in the tokens that follow belongs to a tree at the level `k`.
  pub record Follows (k : ℕ) (rest : Tokens) : Type 0 where
    pub loose : binds (peek last rest 0).ty < max 1 k
    pub no_arm : k ≡ 0 → at_arm last rest ≡ false

  -- The branch of a conditional after its `then`.
  abbrev pub Elses : Expr → Type 0
  Elses e =
      (c t : Expr) (rest : Tokens)
      → Follows 0 rest
      → (f : ℕ) → 12 * length (as_else e (body e) rest) < f
      → parse_elif_chain last f c t (as_else e (body e) rest) ≡ ok (cond c t e) rest

  pub record Levels (e : Expr) : Type 0 where
    pub full :
        (k : ℕ) (rest : Tokens) → k ≤ 8 → Follows k rest → Full last k e (print k e rest) rest
    pub left :
        (k : ℕ) (rest : Tokens)
        → is_loop last k ≡ true
        → k ≢ 3
        → binds (peek last rest 0).ty ≤ k
        → Left last k e (print k e rest) rest
    pub arm :
        (rest : Tokens) → binds (peek last rest 0).ty ≡ 0 → Full last 0 e (print 1 e rest) rest
    pub elses : Elses e

  -- What the tree's own level reads.
  pub record Own (e : Expr) : Type 0 where
    pub reads : (rest : Tokens) → Follows (level e) rest → Full last (level e) e (body e rest) rest
    pub goes_on :
        (rest : Tokens)
        → is_loop last (level e) ≡ true
        → level e ≢ 3
        → binds (peek last rest 0).ty ≤ level e
        → Left last (level e) e (body e rest) rest

  pub level_bound : (e : Expr) → level e ≤ 8
  level_bound (bin_op op l r) = omega (arith, op_level_bounds op)
  level_bound (var x) = omega arith
  level_bound _ = omega arith

  -- Without parentheses, at a level that is no tighter.
  open-Full :
      (e : Expr) (k : ℕ) (rest : Tokens)
      → Own e
      → 1 ≤ k
      → k ≤ level e
      → binds (peek last rest 0).ty < k
      → Full last k e (body e rest) rest
  open-Full e k rest own one h b =
      descend last (level e) k e (body e rest) rest h (level_bound e) one (length-body e rest) b
        (body-NoPrefix e rest)
        (own.reads rest (record { loose = omega arith; no_arm = λ z. absurd (omega arith) }))

  open_expr : (e : Expr) (rest : Tokens) → Own e → Follows 0 rest → Full last 0 e (body e rest) rest
  open_expr e rest own h = elim (ℕ_discrete (level e) 0) [
    | yes first ↦
        subst (λ (i : ℕ). Full last i e (body e rest) rest) first
          (own.reads rest (subst (λ (i : ℕ). Follows i rest) (sym first) h))
    | no later ↦
        let low = h.loose in
        step_expr last e (body e rest) rest (body-IsPlain e rest (omega arith) (omega arith))
          (open-Full e 1 rest own (omega arith) (omega arith) (omega arith))
  ]

  rparen-Follows : (rest : Tokens) → Follows 0 (symbol TokType.rparen ∷ rest)
  rparen-Follows rest = record { loose = omega arith; no_arm = λ _. refl }

  -- In parentheses a tree is an atom.
  closed_primary :
      (e : Expr) (rest : Tokens)
      → Own e
      → Full last 8 e (symbol TokType.lparen ∷ body e (symbol TokType.rparen ∷ rest)) rest
  unfolding parse_expr consume
  closed_primary e rest own zero b = absurd (omega arith)
  closed_primary e rest own (suc f) b =
      let inside = symbol TokType.rparen ∷ rest in
      rw (open_expr e inside own (rparen-Follows rest) f (omega arith)) refl

  closed-Full :
      (e : Expr) (k : ℕ) (rest : Tokens)
      → Own e
      → 1 ≤ k
      → k ≤ 8
      → binds (peek last rest 0).ty < k
      → Full last k e (symbol TokType.lparen ∷ body e (symbol TokType.rparen ∷ rest)) rest
  closed-Full e k rest own one h b =
      let inside = symbol TokType.rparen ∷ rest in
      descend last 8 k e (symbol TokType.lparen ∷ body e inside) rest h (omega arith) one
        (omega (arith, length-body e inside)) b (λ _. (refl, refl)) (closed_primary e rest own)

  print_open : (e : Expr) (k : ℕ) (rest : Tokens) → k ≤ level e → print k e rest ≡ body e rest
  print_open e k rest h =
      let tight : ltb (level e) k ≡ false = ground arith in
      ap (λ (b : Bool). bracketed b (body e) rest) tight

  print_closed :
      (e : Expr) (k : ℕ) (rest : Tokens)
      → level e < k
      → print k e rest ≡ symbol TokType.lparen ∷ body e (symbol TokType.rparen ∷ rest)
  print_closed e k rest h =
      let loose : ltb (level e) k ≡ true = ground arith in
      ap (λ (b : Bool). bracketed b (body e) rest) loose

  print-Full :
      (e : Expr) (k : ℕ) (rest : Tokens)
      → Own e
      → k ≤ 8
      → Follows k rest
      → Full last k e (print k e rest) rest
  print-Full e zero rest own h follows =
      subst (λ ts. Full last 0 e ts rest) (sym (print_open e 0 rest (omega arith)))
        (open_expr e rest own follows)
  print-Full e (suc k) rest own h follows =
      let low = follows.loose in
      elim (dec_le (suc k) (level e)) [
        | yes tight ↦
            subst (λ ts. Full last (suc k) e ts rest) (sym (print_open e (suc k) rest tight))
              (open-Full e (suc k) rest own (omega arith) tight (omega arith))
        | no loose ↦
            subst (λ ts. Full last (suc k) e ts rest)
              (sym (print_closed e (suc k) rest (omega arith)))
              (closed-Full e (suc k) rest own (omega arith) h (omega arith))
      ]

  pub loop_bounds : (k : ℕ) → is_loop last k ≡ true → (1 ≤ k) × (k < 8)
  loop_bounds zero h = cc
  loop_bounds (suc zero) h = omega arith
  loop_bounds (suc (suc zero)) h = omega arith
  loop_bounds (suc (suc (suc zero))) h = omega arith
  loop_bounds (suc (suc (suc (suc zero)))) h = omega arith
  loop_bounds (suc (suc (suc (suc (suc zero))))) h = omega arith
  loop_bounds (suc (suc (suc (suc (suc (suc zero)))))) h = cc
  loop_bounds (suc (suc (suc (suc (suc (suc (suc zero))))))) h = omega arith
  loop_bounds (suc (suc (suc (suc (suc (suc (suc (suc n)))))))) h = cc

  -- At a loop's level that is not the tree's own.
  left_between :
      (e : Expr) (k : ℕ) (rest : Tokens)
      → Own e
      → is_loop last k ≡ true
      → k ≢ level e
      → binds (peek last rest 0).ty ≤ k
      → Left last k e (print k e rest) rest
  left_between e k rest own loop other b =
      let bounds = loop_bounds k loop in
      elim (dec_le (suc k) (level e)) [
        | yes tight ↦
            subst (λ ts. Left last k e ts rest) (sym (print_open e k rest (omega arith)))
              (loop_step last k e (body e rest) rest loop (length-body e rest)
                (open-Full e (suc k) rest own (omega arith) tight (omega arith)))
        | no loose ↦
            subst (λ ts. Left last k e ts rest) (sym (print_closed e k rest (omega arith)))
              (loop_step last k e _ rest loop
                (omega (arith, length-body e (symbol TokType.rparen ∷ rest)))
                (closed-Full e (suc k) rest own (omega arith) (omega arith) (omega arith)))
      ]

  print_left :
      (e : Expr) (k : ℕ) (rest : Tokens)
      → Own e
      → is_loop last k ≡ true
      → k ≢ 3
      → binds (peek last rest 0).ty ≤ k
      → Left last k e (print k e rest) rest
  print_left e k rest own loop ne b = elim (ℕ_discrete k (level e)) [
    | no other ↦ left_between e k rest own loop other b
    | yes same ↦
        subst (λ (i : ℕ). Left last i e (print i e rest) rest) (sym same)
          (subst (λ ts. Left last (level e) e ts rest)
            (sym (print_open e (level e) rest (omega arith)))
            (own.goes_on rest (same_loop k (level e) same loop) (λ q. ne (same ∙ q)) (omega arith)))
  ]
    where
      same_loop : (i j : ℕ) → i ≡ j → is_loop last i ≡ true → is_loop last j ≡ true
      same_loop i j q h = subst (λ (n : ℕ). is_loop last n ≡ true) q h

  print_arm :
      (e : Expr) (rest : Tokens)
      → Own e
      → binds (peek last rest 0).ty ≡ 0
      → Full last 0 e (print 1 e rest) rest
  print_arm e rest own b =
      let reads =
        print-Full e 1 rest own (omega arith)
          (record { loose = omega arith; no_arm = λ z. absurd (omega arith) }) in
      step_expr last e (print 1 e rest) rest
        (bracketed-IsPlain (ltb (level e) 1) (body e) rest
          λ tight. body-IsPlain e rest (ground arith) (omega arith))
        reads

  -- A tree that is no conditional follows an `else`.
  else_plain :
      (e : Expr) (ts : Tokens) (c t : Expr) (rest : Tokens)
      → Full last 0 e ts rest
      → (f : ℕ) → 12 * length ts + 24 < f
      → parse_elif_chain last f c t (symbol TokType.else' ∷ symbol TokType.colon ∷ ts)
        ≡ ok (cond c t e) rest
  unfolding parse_expr consume match_one
  else_plain e ts c t rest full zero b = absurd (omega arith)
  else_plain e ts c t rest full (suc f) b = rw (full f (omega arith)) refl

  abbrev pub is_cond : Expr → Bool
  is_cond (cond c t e) = true
  is_cond _ = false

  as_else-plain :
      (e : Expr) (rest : Tokens)
      → is_cond e ≡ false
      → as_else e (body e) rest ≡ symbol TokType.else' ∷ symbol TokType.colon ∷ body e rest
  as_else-plain (cond c t e) rest h = cc
  as_else-plain (var x) rest h = refl
  as_else-plain _ rest h = refl

  print-Elses : (e : Expr) → Own e → is_cond e ≡ false → Elses e
  print-Elses e own h c t rest follows f b =
      let shape = as_else-plain e rest h in
      rw shape (
        else_plain e (body e rest) c t rest (open_expr e rest own follows) f
          (omega (arith, ap length shape)))

  -- A tree is read at every level once it is read at its own.
  pub Own-Levels : (e : Expr) → Own e → is_cond e ≡ false → Levels e
  Own-Levels e own h = record {
    full = λ k rest b follows. print-Full e k rest own b follows;
    left = λ k rest loop ne b. print_left e k rest own loop ne b;
    arm = λ rest b. print_arm e rest own b;
    elses = print-Elses e own h;
  }

  pub Own-Levels_cond : (e : Expr) → Own e → Elses e → Levels e
  Own-Levels_cond e own elses = record {
    full = λ k rest b follows. print-Full e k rest own b follows;
    left = λ k rest loop ne b. print_left e k rest own loop ne b;
    arm = λ rest b. print_arm e rest own b;
    elses = elses;
  }
