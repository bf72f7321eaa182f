-- ===== src/Units/Evaluate.antt =====
-- The value of an expression in a world (src/unit_derivation/evaluate.rs, `eval_expr`). The set of the
-- names being visited is on return what it was before, so it is passed down. A name already in it ends the
-- evaluation, so the visits nest on a fuel of one more than the derived expressions.
pub mod Meaning
pub mod Judged
use axiom_rules_engine.Prelude.{
  ℕ, zero, suc, Bool, true, false, Option, none, some, [], if◌then◌else◌, length,
}
use axiom_rules_engine.Prelude.Ord.{Str, str_ord}
use axiom_rules_engine.Prelude.Text.{codes}
use axiom_rules_engine.BTree.{Map, Set, lookup, mem, set_insert}
use axiom_rules_engine.Units.Types.{
  FactRef, BoolExpr, BoolExprs, literal, fact, derived, and, or, not, nil, cons, DerivedBool,
  Derivation, ok, err, exhausted, unknown_reference, cyclic_dependency,
}
use axiom_rules_engine.Units.Keys.{key}

abbrev pub negated : Derivation Bool → Derivation Bool
negated (ok true) = ok false
negated (ok false) = ok true
negated (err e) = err e
negated exhausted = exhausted

abbrev pub fact_value : Map Str Bool → FactRef → Derivation Bool
fact_value valuation f = elim (lookup (key f) valuation) [
  | some value ↦ ok value
  | none ↦ err (unknown_reference (codes "valuation") (key f))
]

unfoldable mutual
  -- An expression, with the evaluation of a derived name as a parameter.
  pub eval_in : Map Str Bool → (Str → Derivation Bool) → BoolExpr → Derivation Bool
  eval_in valuation call (literal value) = ok value
  eval_in valuation call (fact f) = fact_value valuation f
  eval_in valuation call (derived reference) = call reference
  eval_in valuation call (and items) = eval_and valuation call items
  eval_in valuation call (or items) = eval_or valuation call items
  eval_in valuation call (not item) = negated (eval_in valuation call item)

  pub eval_and : Map Str Bool → (Str → Derivation Bool) → BoolExprs → Derivation Bool
  eval_and valuation call nil = ok true
  eval_and valuation call (cons item items) = elim (eval_in valuation call item) [
    | ok true ↦ eval_and valuation call items
    | ok false ↦ ok false
    | err e ↦ err e
    | exhausted ↦ exhausted
  ]

  pub eval_or : Map Str Bool → (Str → Derivation Bool) → BoolExprs → Derivation Bool
  eval_or valuation call nil = ok false
  eval_or valuation call (cons item items) = elim (eval_in valuation call item) [
    | ok true ↦ ok true
    | ok false ↦ eval_or valuation call items
    | err e ↦ err e
    | exhausted ↦ exhausted
  ]

abbrev pub visit :
    Map Str DerivedBool → Set Str → Str → (BoolExpr → Derivation Bool) → Derivation Bool
visit rules visiting reference evaluate =
    if mem reference visiting
    then err (cyclic_dependency reference)
    else elim (lookup reference rules) [
      | none ↦ err (unknown_reference (codes "constitution expression") reference)
      | some rule ↦ evaluate rule.expr
    ]

unfoldable pub eval_expr :
    ℕ → Map Str Bool → Map Str DerivedBool → Set Str → BoolExpr → Derivation Bool
eval_expr zero valuation rules visiting e = exhausted
eval_expr (suc f) valuation rules visiting e =
    eval_in valuation
      (λ reference.
        visit rules visiting reference
          (eval_expr f valuation rules (set_insert reference visiting)))
      e

-- As it is called, with nothing being visited.
unfoldable pub evaluate : Map Str Bool → Map Str DerivedBool → BoolExpr → Derivation Bool
unfolding eval_expr eval_in
evaluate valuation rules e = eval_expr (suc (length rules)) valuation rules [] e
