-- ===== src/Compile/Parameters.antt =====
-- Duplicate declarations of a parameter (src/compile.rs, `incompatible_parameter_reason` and the
-- functions it calls), and the check of a version's dates (src/spec.rs, `validate_effective_ranges`).
pub mod Compatible
use axiom_rules_engine.Prelude.{
  Bool, true, false, ◌&&◌, not, Option, none, some, List, [], ◌∷◌, ◌++◌, if◌then◌else◌, ◌==◌, ℕ,
}
use axiom_rules_engine.Prelude.Ord.{Str, str_ord}
use axiom_rules_engine.Prelude.Int.{ℤ, pos, negsuc}
use axiom_rules_engine.Prelude.Text.{codes}
use axiom_rules_engine.BTree.{key_eq}
use axiom_rules_engine.Model.Platform.{Platform, date_le, date_lt, date_eq}
use axiom_rules_engine.Model.Versions.{not_ended}

abbrev pub int_eq : ℤ → ℤ → Bool
int_eq (pos a) (pos b) = a == b
int_eq (negsuc a) (negsuc b) = a == b
int_eq (pos a) (negsuc b) = false
int_eq (negsuc a) (pos b) = false

-- `==` of two optional names.
abbrev pub same_option : Option Str → Option Str → Bool
same_option none none = true
same_option none (some b) = false
same_option (some a) none = false
same_option (some a) (some b) = key_eq a b

abbrev pub same_truth : Bool → Bool → Bool
same_truth true b = b
same_truth false b = not b

-- The name of the first field on which two declarations disagree.
abbrev pub first_mismatch : List (Str × Bool) → Option Str
first_mismatch [] = none
first_mismatch ((field, matches) ∷ fields) =
    if matches then first_mismatch fields else some (codes "declarations disagree on " ++ field)

module _ ⦃p : Platform⦄ where
  open p use {NaiveDate, show_date}

  -- A decimal is its spelling.
  pub data ScalarValueSpec : Type 0 where
    bool : Bool → ScalarValueSpec
    integer : ℤ → ScalarValueSpec
    decimal text : Str → ScalarValueSpec
    date : NaiveDate → ScalarValueSpec

  -- The derived equality.
  abbrev pub same_value : ScalarValueSpec → ScalarValueSpec → Bool
  same_value (bool a) (bool b) = same_truth a b
  same_value (integer a) (integer b) = int_eq a b
  same_value (decimal a) (decimal b) = key_eq a b
  same_value (text a) (text b) = key_eq a b
  same_value (date a) (date b) = date_eq a b
  same_value _ _ = false

  -- `values` is a `BTreeMap<i64, ScalarValueSpec>`, by its entries.
  pub record ParameterVersionSpec : Type 0 where
    pub effective_from : NaiveDate
    pub effective_to : Option NaiveDate
    pub values : List (ℤ × ScalarValueSpec)

  pub record IndexedParameterSpec : Type 0 where
    pub id : Option Str
    pub name : Str
    pub unit : Option Str
    pub indexed_by : Option Str
    pub source : Option Str
    pub source_url : Option Str
    pub corpus_citation_path : Option Str
    pub versions : List ParameterVersionSpec

  abbrev pub same_values : List (ℤ × ScalarValueSpec) → List (ℤ × ScalarValueSpec) → Bool
  same_values [] [] = true
  same_values [] (e ∷ b) = false
  same_values (e ∷ a) [] = false
  same_values ((i, v) ∷ a) ((j, w) ∷ b) = int_eq i j && (same_value v w && same_values a b)

  unfoldable pub parameter_versions_overlap : ParameterVersionSpec → ParameterVersionSpec → Bool
  parameter_versions_overlap left right =
      not_ended right.effective_from left.effective_to
      && not_ended left.effective_from right.effective_to

  abbrev pub shown_end : Option NaiveDate → Str
  shown_end none = codes "open"
  shown_end (some date') = show_date date'

  unfoldable pub parameter_version_interval : ParameterVersionSpec → Str
  parameter_version_interval version =
      show_date version.effective_from ++ (codes ".." ++ shown_end version.effective_to)

  abbrev pub overlapping : ParameterVersionSpec → ParameterVersionSpec → Str
  overlapping left right =
      codes "overlapping version ranges "
      ++ (parameter_version_interval left
          ++ (codes " and "
              ++ (parameter_version_interval right ++ codes " assign different values")))

  -- The inner and the outer loop over the versions.
  abbrev pub conflict_with : ParameterVersionSpec → List ParameterVersionSpec → Option Str
  conflict_with left [] = none
  conflict_with left (right ∷ rest) =
      if parameter_versions_overlap left right && not (same_values left.values right.values)
      then some (overlapping left right)
      else conflict_with left rest

  abbrev pub first_conflict : List ParameterVersionSpec → List ParameterVersionSpec → Option Str
  first_conflict [] duplicate = none
  first_conflict (left ∷ rest) duplicate = elim (conflict_with left duplicate) [
    | some reason ↦ some reason
    | none ↦ first_conflict rest duplicate
  ]

  abbrev pub compared : IndexedParameterSpec → IndexedParameterSpec → List (Str × Bool)
  compared existing duplicate =
      (codes "public id", same_option existing.id duplicate.id)
      ∷ (codes "unit", same_option existing.unit duplicate.unit)
      ∷ (codes "index slot", same_option existing.indexed_by duplicate.indexed_by)
      ∷ (codes "source", same_option existing.source duplicate.source)
      ∷ (codes "source URL", same_option existing.source_url duplicate.source_url)
      ∷ (
        codes "corpus citation path",
        same_option existing.corpus_citation_path duplicate.corpus_citation_path,
      )
      ∷ []

  unfoldable pub incompatible_parameter_reason :
      IndexedParameterSpec → IndexedParameterSpec → Option Str
  incompatible_parameter_reason existing duplicate =
      elim (first_mismatch (compared existing duplicate)) [
        | some reason ↦ some reason
        | none ↦ first_conflict existing.versions duplicate.versions
      ]

  -- The result of the check of dates, with the error `InvalidEffectiveRange`.
  pub data RangeChecked : Type 0 where
    valid : RangeChecked
    invalid_effective_range : (rule : Str) (effective_from effective_to : NaiveDate) → RangeChecked

  -- `if let Some(effective_to) = effective_to && effective_to < effective_from`
  abbrev pub reversed : NaiveDate → Option NaiveDate → Option NaiveDate
  reversed effective_from none = none
  reversed effective_from (some effective_to) =
      if date_lt effective_to effective_from then some effective_to else none

  unfoldable pub validate_effective_ranges :
      Str → List (NaiveDate × Option NaiveDate) → RangeChecked
  validate_effective_ranges rule [] = valid
  validate_effective_ranges rule ((effective_from, effective_to) ∷ versions) =
      elim (reversed effective_from effective_to) [
        | some effective_to' ↦ invalid_effective_range rule effective_from effective_to'
        | none ↦ validate_effective_ranges rule versions
      ]
