-- ===== src/Rows/Errors.antt =====
-- `RowErrors` (src/lazy.rs): the first error of each failing row. Rows that fail with the same value
-- share one `Rc`, which is not observable: a shared error is its contents. The message that a
-- quoted error renders to is not modelled.
use axiom_rules_engine.Prelude.{
  ℕ, Bool, true, false, not, ◌||◌, Option, none, some, List, [], ◌∷◌, if◌then◌else◌,
}
use axiom_rules_engine.Prelude.Ord.{Str, nat_ord}
use axiom_rules_engine.BTree.{lookup, or_insert, contains_key, Map}
use axiom_rules_engine.Model.Platform.{Platform}
use axiom_rules_engine.Engine.Errors.{EvalError, within_rule, Result, ok}
use axiom_rules_engine.Rows.Mask.{RowMask, is_empty, is_all, contains, rows, filter}

pub data QuotedValue : Type 0 where
  text label : Str → QuotedValue

pub data QuotedError : Type 0 where
  no_matching_arm : (rule subject : Str) (value : QuotedValue) (patterns : Str) → QuotedError
  lifetime_period_varying_input :
      (input first_period : Str) (first_value : QuotedValue) (second_period : Str)
      (second_value : QuotedValue)
      → QuotedError
  over_periods_top_n_period_varying :
      (reduction first_period : Str) (first_value : QuotedValue) (second_period : Str)
      (second_value : QuotedValue)
      → QuotedError

pub record Quoted : Type 0 where
  pub rows : ℕ
  pub error : QuotedError

-- `Quoted::within_rule`: the error named, if it is a `match` failure that names no rule yet.
unfoldable pub name_error : QuotedError → Str → Option QuotedError
name_error (no_matching_arm [] subject value patterns) rule =
    some (no_matching_arm rule subject value patterns)
name_error _ rule = none

unfoldable pub quoted_within_rule : Quoted → Str → Option Quoted
unfolding name_error
quoted_within_rule quoted rule = elim (name_error quoted.error rule) [
  | none ↦ none
  | some error ↦ some (record quoted { error = error })
]

module _ ⦃p : Platform⦄ where
  pub data RowError : Type 0 where
    ready : EvalError → RowError
    shared : Quoted → RowError

  pub record RowErrors : Type 0 where
    pub errors : Map ℕ RowError

  unfoldable pub no_errors : RowErrors
  no_errors = record { errors = [] }

  unfoldable pub has_none : RowErrors → Bool
  has_none e = elim e.errors [ [] ↦ true | _ ↦ false ]

  unfoldable pub has_error : RowErrors → ℕ → Bool
  has_error e row = contains_key row e.errors

  unfoldable pub get : RowErrors → ℕ → Option RowError
  get e row = lookup row e.errors

  unfoldable pub record_error : RowErrors → ℕ → RowError → RowErrors
  record_error e row error = record { errors = or_insert row error e.errors }

  unfoldable pub record' : RowErrors → ℕ → EvalError → RowErrors
  unfolding record_error
  record' e row error = record_error e row (ready error)

  -- The loops of `record_all` and `absorb`.
  unfoldable pub record_rows : RowErrors → List ℕ → EvalError → RowErrors
  record_rows e [] error = e
  record_rows e (row ∷ rest) error = record_rows (record' e row error) rest error

  unfoldable pub record_all : RowErrors → RowMask → EvalError → RowErrors
  record_all e mask error = record_rows e (rows mask) error

  unfoldable pub absorb_entries : RowErrors → Map ℕ RowError → RowErrors
  absorb_entries e [] = e
  absorb_entries e ((row, error) ∷ rest) = absorb_entries (record_error e row error) rest

  unfoldable pub absorb : RowErrors → RowErrors → RowErrors
  absorb e other = if has_none e then other else absorb_entries e other.errors

  -- Entries come in the order of their rows, so inserting them one by one keeps that order.
  unfoldable pub keep_active : RowMask → Map ℕ RowError → Map ℕ RowError
  keep_active mask [] = []
  keep_active mask ((row, error) ∷ rest) =
      if contains mask row then (row, error) ∷ keep_active mask rest else keep_active mask rest

  unfoldable pub restricted_to : RowErrors → RowMask → RowErrors
  restricted_to e mask =
      if has_none e || is_all mask then e else record { errors = keep_active mask e.errors }

  -- One entry of `RowErrors::within_rule`.
  unfoldable pub row_within_rule : RowError → Str → RowError
  unfolding quoted_within_rule within_rule
  row_within_rule (ready error) rule = ready (within_rule error rule)
  row_within_rule (shared quoted) rule = elim (quoted_within_rule quoted rule) [
    | none ↦ shared quoted
    | some renamed ↦ shared renamed
  ]

  unfoldable pub rename_entries : Map ℕ RowError → Str → Map ℕ RowError
  rename_entries [] rule = []
  rename_entries ((row, error) ∷ rest) rule =
      (row, row_within_rule error rule) ∷ rename_entries rest rule

  unfoldable pub errors_within_rule : RowErrors → Str → RowErrors
  errors_within_rule e rule = record { errors = rename_entries e.errors rule }

  unfoldable pub first : RowErrors → Option (ℕ × RowError)
  first e = elim e.errors [ [] ↦ none | entry ∷ rest ↦ some entry ]

-- `RowMask::without`
unfoldable pub without : ⦃p : Platform⦄ → (ℕ → Bool) → RowMask → RowErrors → Result RowMask
without grants m errors =
    if has_none errors || is_empty m
    then ok m
    else filter grants m (λ row. not (has_error errors row))
