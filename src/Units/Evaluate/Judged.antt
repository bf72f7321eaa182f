-- ===== src/Units/Evaluate/Judged.antt =====
-- The evaluation gives the meaning, or an error that is true of the rules (src/unit_derivation/evaluate.rs,
-- `eval_expr`).
use axiom_rules_engine.Prelude.{
  ℕ, zero, suc, ◌+◌, ◌≤◌, ◌<◌, ◌≡◌, refl, sym, ◌∙◌, subst, Bool, true, false, ◌||◌, none, some, [],
  ◌∷◌, ◌⊎◌, inl, inr, length, if◌then◌else◌, Bool-cases, Option-cases, arith,
}
use axiom_rules_engine.Prelude.Ord.{Str, str_ord}
use axiom_rules_engine.Prelude.Text.{codes}
use axiom_rules_engine.BTree.{Map, Set, lookup, mem, set_insert, key_eq}
use axiom_rules_engine.BTree.Laws.{mem-set_insert, key_eq-eq, key_eq_self}
use axiom_rules_engine.Units.Types.{
  FactRef, BoolExpr, BoolExprs, literal, fact, derived, and, or, not, nil, cons, DerivedBool,
  Derivation, ok, err, exhausted, UnitDerivationError, unknown_reference, cyclic_dependency,
}
use axiom_rules_engine.Units.Keys.{key}
use axiom_rules_engine.Units.Evaluate.{
  negated, fact_value, eval_in, eval_and, eval_or, visit, eval_expr, evaluate,
}
use axiom_rules_engine.Units.Evaluate.Meaning.{
  Value, AllValues, SomeValue, Uses, UsesAny, Chain, literal_value, derived_value, and_true,
  and_false, or_true, or_false, not_true, not_false, none_left, one_more, this_one, later_one,
  itself, in_and, in_or, in_not, in_head, in_tail, direct, onward,
}

-- The rules not being visited, counted.
unfoldable pub unvisited : Map Str DerivedBool → Set Str → ℕ
unvisited [] visiting = 0
unvisited ((r, rule) ∷ rules) visiting =
    (if mem r visiting then 0 else 1) + unvisited rules visiting

module _ (valuation : Map Str Bool) (rules : Map Str DerivedBool) where
  -- What an error says: a fact without a value, a name without a rule, or a name that needs itself.
  abbrev pub IsTrue : UnitDerivationError → Type 0
  IsTrue (unknown_reference from' reference) =
      ((from' ≡ codes "valuation") × (lookup reference valuation ≡ none))
      ⊎ ((from' ≡ codes "constitution expression") × (lookup reference rules ≡ none))
  IsTrue (cyclic_dependency reference) = Chain rules reference reference
  IsTrue _ = ⊥

  abbrev pub Judges : BoolExpr → Derivation Bool → Type 0
  Judges e (ok b) = Value valuation rules e b
  Judges e (err x) = IsTrue x
  Judges e exhausted = ⊥

  abbrev JudgesAll : BoolExprs → Derivation Bool → Type 0
  JudgesAll items (ok true) = AllValues valuation rules true items
  JudgesAll items (ok false) = SomeValue valuation rules false items
  JudgesAll items (err x) = IsTrue x
  JudgesAll items exhausted = ⊥

  abbrev JudgesSome : BoolExprs → Derivation Bool → Type 0
  JudgesSome items (ok true) = SomeValue valuation rules true items
  JudgesSome items (ok false) = AllValues valuation rules false items
  JudgesSome items (err x) = IsTrue x
  JudgesSome items exhausted = ⊥

  fact-Judges : (f : FactRef) → Judges (fact f) (fact_value valuation f)
  fact-Judges f = elim (Option-cases (lookup (key f) valuation)) [
    | inl e ↦
        let absent : fact_value valuation f ≡ err (unknown_reference (codes "valuation") (key f)) =
          rw (fact_value, e) refl in
        subst (λ d. Judges (fact f) d) (sym absent) (inl (refl, e))
    | inr (b, e) ↦
        let found : fact_value valuation f ≡ ok b = rw (fact_value, e) refl in
        subst (λ d. Judges (fact f) d) (sym found) (Value.fact_value e)
  ]

  negated-Judges : (e : BoolExpr) (d : Derivation Bool) → Judges e d → Judges (not e) (negated d)
  negated-Judges e (ok true) h = not_false h
  negated-Judges e (ok false) h = not_true h
  negated-Judges e (err x) h = h
  negated-Judges e exhausted h = h

  and-Judges : (items : BoolExprs) (d : Derivation Bool) → JudgesAll items d → Judges (and items) d
  and-Judges items (ok true) h = and_true h
  and-Judges items (ok false) h = and_false h
  and-Judges items (err x) h = h
  and-Judges items exhausted h = h

  or-Judges : (items : BoolExprs) (d : Derivation Bool) → JudgesSome items d → Judges (or items) d
  or-Judges items (ok true) h = or_true h
  or-Judges items (ok false) h = or_false h
  or-Judges items (err x) h = h
  or-Judges items exhausted h = h

  all-step :
      (e : BoolExpr) (items : BoolExprs) (d later : Derivation Bool)
      → Judges e d
      → JudgesAll items later
      → JudgesAll (cons e items) (elim d as (λ x. Derivation Bool) [
        | ok b ↦ elim b as (λ x. Derivation Bool) [ true ↦ later | false ↦ ok false ]
        | err x ↦ err x
        | exhausted ↦ exhausted
      ])
  all-step e items (ok true) (ok true) h l = one_more h l
  all-step e items (ok true) (ok false) h l = later_one l
  all-step e items (ok true) (err x) h l = l
  all-step e items (ok true) exhausted h l = l
  all-step e items (ok false) later h l = this_one h
  all-step e items (err x) later h l = h
  all-step e items exhausted later h l = h

  some-step :
      (e : BoolExpr) (items : BoolExprs) (d later : Derivation Bool)
      → Judges e d
      → JudgesSome items later
      → JudgesSome (cons e items) (elim d as (λ x. Derivation Bool) [
        | ok b ↦ elim b as (λ x. Derivation Bool) [ true ↦ ok true | false ↦ later ]
        | err x ↦ err x
        | exhausted ↦ exhausted
      ])
  some-step e items (ok false) (ok true) h l = later_one l
  some-step e items (ok false) (ok false) h l = one_more h l
  some-step e items (ok false) (err x) h l = l
  some-step e items (ok false) exhausted h l = l
  some-step e items (ok true) later h l = this_one h
  some-step e items (err x) later h l = h
  some-step e items exhausted later h l = h

  module _ (call : Str → Derivation Bool) where
    mutual
      unfolding eval_in

      eval_in-Judges :
          (e : BoolExpr)
          → ((r : Str) → Uses e r → Judges (derived r) (call r))
          → Judges e (eval_in valuation call e)
      eval_in-Judges (literal value) h = literal_value
      eval_in-Judges (fact f) h = fact-Judges f
      eval_in-Judges (derived r) h = h r itself
      eval_in-Judges (and items) h =
          and-Judges items (eval_and valuation call items)
            (eval_and-Judges items (λ r u. h r (in_and u)))
      eval_in-Judges (or items) h =
          or-Judges items (eval_or valuation call items)
            (eval_or-Judges items (λ r u. h r (in_or u)))
      eval_in-Judges (not e) h =
          negated-Judges e (eval_in valuation call e) (eval_in-Judges e (λ r u. h r (in_not u)))

      eval_and-Judges :
          (items : BoolExprs)
          → ((r : Str) → UsesAny items r → Judges (derived r) (call r))
          → JudgesAll items (eval_and valuation call items)
      eval_and-Judges nil h = none_left
      eval_and-Judges (cons e items) h =
          all-step e items (eval_in valuation call e) (eval_and valuation call items)
            (eval_in-Judges e (λ r u. h r (in_head u)))
            (eval_and-Judges items (λ r u. h r (in_tail u)))

      eval_or-Judges :
          (items : BoolExprs)
          → ((r : Str) → UsesAny items r → Judges (derived r) (call r))
          → JudgesSome items (eval_or valuation call items)
      eval_or-Judges nil h = none_left
      eval_or-Judges (cons e items) h =
          some-step e items (eval_in valuation call e) (eval_or valuation call items)
            (eval_in-Judges e (λ r u. h r (in_head u)))
            (eval_or-Judges items (λ r u. h r (in_tail u)))

  -- While names are being visited, each of them needs what the expression at hand uses.
  abbrev Reached : Set Str → BoolExpr → Type 0
  Reached visiting e = (v : Str) → mem v visiting ≡ true → (s : Str) → Uses e s → Chain rules v s

  derived-Judges :
      (r : Str) (rule : DerivedBool) (d : Derivation Bool)
      → lookup r rules ≡ some rule
      → Judges rule.expr d
      → Judges (derived r) d
  derived-Judges r rule (ok b) e h = derived_value rule e h
  derived-Judges r rule (err x) e h = h
  derived-Judges r rule exhausted e h = h

  -- The rule of a name just met is reached from it and from all that reach it.
  Reached-rule :
      (visiting : Set Str) (e : BoolExpr) (r : Str) (rule : DerivedBool)
      → Reached visiting e
      → Uses e r
      → lookup r rules ≡ some rule
      → Reached (set_insert r visiting) rule.expr
  Reached-rule visiting e r rule reached uses found v m s u = elim (Bool-cases (key_eq v r)) [
    | inl t ↦ subst (λ x. Chain rules x s) (sym (key_eq-eq v r t)) (direct (rule, found, u))
    | inr f ↦
        let split : (key_eq v r || mem v visiting) ≡ true = sym (mem-set_insert v r visiting) ∙ m in
        let before = subst (λ (b : Bool). (b || mem v visiting) ≡ true) f split in
        onward (reached v before r uses) (rule, found, u)
  ]

-- A name more is visited.
visited_weight :
    (a b : Bool) (m n : ℕ) → m ≤ n → (if a || b then 0 else 1) + m ≤ (if b then 0 else 1) + n
visited_weight a b m n h = ground arith

visited_weight_lt :
    (a b : Bool) (m n : ℕ) → m < n → (if a || b then 0 else 1) + m < (if b then 0 else 1) + n
visited_weight_lt a b m n h = ground arith

unvisited-le :
    (rules : Map Str DerivedBool) (r : Str) (visiting : Set Str)
    → unvisited rules (set_insert r visiting) ≤ unvisited rules visiting
unfolding unvisited
unvisited-le [] r visiting = omega arith
unvisited-le ((s, rule) ∷ rules) r visiting = rw (mem-set_insert s r visiting) (
    visited_weight (key_eq s r) (mem s visiting) (unvisited rules (set_insert r visiting))
      (unvisited rules visiting) (unvisited-le rules r visiting))

unvisited-lt :
    (rules : Map Str DerivedBool) (r : Str) (visiting : Set Str) (rule : DerivedBool)
    → lookup r rules ≡ some rule
    → mem r visiting ≡ false
    → unvisited rules (set_insert r visiting) < unvisited rules visiting
unfolding unvisited lookup
unvisited-lt [] r visiting rule e h = cc
unvisited-lt ((s, rule') ∷ rules) r visiting rule e h = elim (Bool-cases (key_eq r s)) [
  | inl t ↦
      let same = key_eq-eq r s t in
      let fresh : mem s visiting ≡ false = subst (λ x. mem x visiting ≡ false) same h in
      let met : key_eq s r ≡ true = subst (λ x. key_eq s x ≡ true) (sym same) (key_eq_self s) in
      let now : mem s (set_insert r visiting) ≡ true = mem-set_insert s r visiting ∙ rw met refl in
      rw (now, fresh) (omega (arith, unvisited-le rules r visiting))
  | inr f ↦
      let later : lookup r rules ≡ some rule =
        subst (λ (b : Bool). (if b then some rule' else lookup r rules) ≡ some rule) f e in
      rw (mem-set_insert s r visiting) (
        visited_weight_lt (key_eq s r) (mem s visiting) (unvisited rules (set_insert r visiting))
          (unvisited rules visiting) (unvisited-lt rules r visiting rule later h))
]

unvisited-length : (rules : Map Str DerivedBool) → unvisited rules [] ≡ length rules
unfolding unvisited
unvisited-length [] = refl
unvisited-length ((r, rule) ∷ rules) = omega (arith, unvisited-length rules)

module _ (valuation : Map Str Bool) (rules : Map Str DerivedBool) where
  visit-Judges :
      (visiting : Set Str) (e : BoolExpr) (r : Str) (evaluate' : BoolExpr → Derivation Bool)
      → Reached valuation rules visiting e
      → Uses e r
      → ((rule : DerivedBool)
          → mem r visiting ≡ false
          → lookup r rules ≡ some rule
          → Judges valuation rules rule.expr (evaluate' rule.expr))
      → Judges valuation rules (derived r) (visit rules visiting r evaluate')
  visit-Judges visiting e r evaluate' reached uses rest = elim (Bool-cases (mem r visiting)) [
    | inl t ↦
        let again : visit rules visiting r evaluate' ≡ err (cyclic_dependency r) = rw t refl in
        subst (λ d. Judges valuation rules (derived r) d) (sym again) (reached r t r uses)
    | inr f ↦ elim (Option-cases (lookup r rules)) [
      | inl absent ↦
          let missing : visit rules visiting r evaluate'
              ≡ err (unknown_reference (codes "constitution expression") r) =
            rw (f, absent) refl in
          subst (λ d. Judges valuation rules (derived r) d) (sym missing) (inr (refl, absent))
      | inr (rule, found) ↦
          let onto : visit rules visiting r evaluate' ≡ evaluate' rule.expr = rw (f, found) refl in
          subst (λ d. Judges valuation rules (derived r) d) (sym onto)
            (derived-Judges valuation rules r rule (evaluate' rule.expr) found (rest rule f found))
    ]
  ]

  eval_expr-Judges :
      (f : ℕ) (visiting : Set Str) (e : BoolExpr)
      → unvisited rules visiting < f
      → Reached valuation rules visiting e
      → Judges valuation rules e (eval_expr f valuation rules visiting e)
  unfolding eval_expr
  eval_expr-Judges zero visiting e h reached = absurd (omega arith)
  eval_expr-Judges (suc f) visiting e h reached =
      eval_in-Judges valuation rules
        (λ r. visit rules visiting r (eval_expr f valuation rules (set_insert r visiting))) e
        (λ r uses.
          visit-Judges visiting e r (eval_expr f valuation rules (set_insert r visiting)) reached
            uses
            (λ rule fresh found.
              eval_expr-Judges f (set_insert r visiting) rule.expr
                (lt_of_lt (unvisited-lt rules r visiting rule found fresh) h)
                (Reached-rule valuation rules visiting e r rule reached uses found)))
    where
      lt_of_lt : {a b : ℕ} → a < b → b < suc f → a < f
      lt_of_lt h k = omega arith

  -- On every expression the evaluation ends. A value is what the expression means; an error names a
  -- fact that has no value in the world, a name that has no rule, or a name that needs itself.
  pub evaluate-Judges : (e : BoolExpr) → Judges valuation rules e (evaluate valuation rules e)
  unfolding evaluate
  evaluate-Judges e =
      eval_expr-Judges (suc (length rules)) [] e (omega (arith, unvisited-length rules))
        (λ v m s u. absurd (nothing m))
    where
      nothing : false ≡ true → ⊥
      nothing h = cc
