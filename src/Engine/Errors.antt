-- ===== src/Engine/Errors.antt =====
-- The evaluation errors (src/engine.rs, `EvalError`), and the results that carry them.
use axiom_rules_engine.Prelude.{ℕ, Option, none, some, []}
use axiom_rules_engine.Prelude.Int.{ℤ}
use axiom_rules_engine.Prelude.Ord.{Str}
use axiom_rules_engine.Model.Platform.{Platform}

module _ ⦃p : Platform⦄ where
  open p use {NaiveDate}

  pub data EvalError : Type 0 where
    unknown_derived unknown_parameter unknown_relation : Str → EvalError
    missing_relation : (relation entity_id : Str) (period_start period_end : NaiveDate) → EvalError
    ambiguous_relation :
        (relation entity_id : Str) (period_start period_end : NaiveDate) (count : ℕ) → EvalError
    missing_input : (name entity_id : Str) (period_start period_end : NaiveDate) → EvalError
    ambiguous_input :
        (name entity_id : Str) (effective_from : NaiveDate) (other_name : Option Str) → EvalError
    no_matching_arm : (rule subject value patterns : Str) → EvalError
    empty_related_aggregate :
        (function relation entity_id : Str) (period_start period_end : NaiveDate) → EvalError
    unknown_unit type_mismatch : Str → EvalError
    missing_parameter_value : (parameter : Str) (key : ℤ) (at' : NaiveDate) → EvalError
    missing_derived_formula_version : (derived : Str) (at' : NaiveDate) → EvalError
    dependency_cycle expected_judgment expected_scalar : Str → EvalError
    division_by_zero : EvalError
    arithmetic_overflow over_periods_outside_lifetime : Str → EvalError
    lifetime_period_batch_mismatch : (periods batches : ℕ) → EvalError
    lifetime_no_periods : EvalError
    lifetime_row_count_mismatch : (period row_count expected : ℕ) → EvalError
    lifetime_output_without_reduction lifetime_ambiguous_leaf : Str → EvalError
    lifetime_period_varying_input :
        (input first_period first_value second_period second_value : Str) → EvalError
    lifetime_periods_not_ascending :
        (earlier_index : ℕ) (earlier : Str) (later_index : ℕ) (later : Str) → EvalError
    over_periods_top_n_out_of_range : (reduction n : Str) (period_count : ℕ) → EvalError
    over_periods_top_n_period_varying :
        (reduction first_period first_value second_period second_value : Str) → EvalError

  -- `EvalError::within_rule`
  unfoldable pub within_rule : EvalError → Str → EvalError
  within_rule (no_matching_arm [] subject value patterns) rule =
      no_matching_arm rule subject value patterns
  within_rule other rule = other

  pub data Result {ℓ} (A : Type ℓ) : Type ℓ where
    ok : A → Result A
    err : EvalError → Result A

  infixl 5 ◌>>=◌
  abbrev pub ◌>>=◌ {ℓ κ} : {A : Type ℓ} {B : Type κ} → Result A → (A → Result B) → Result B
  ok a >>= f = f a
  err e >>= f = err e

  -- `ok_or_else`
  abbrev pub ok_or {ℓ} : {A : Type ℓ} → Option A → EvalError → Result A
  ok_or none e = err e
  ok_or (some a) e = ok a
