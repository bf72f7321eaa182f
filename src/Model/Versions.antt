-- ===== src/Model/Versions.antt =====
-- Parameters and their dated versions (src/model.rs): which version applies at a date.
pub mod Selected
use axiom_rules_engine.Prelude.{
  ℕ, zero, suc, Bool, true, false, ◌&&◌, Option, none, some, List, [], ◌∷◌, if◌then◌else◌,
}
use axiom_rules_engine.Prelude.Ord.{Str}
use axiom_rules_engine.Prelude.Int.{ℤ}
use axiom_rules_engine.Model.Platform.{Platform, date_le, date_lt}
use axiom_rules_engine.Model.Values.{ScalarValue}

module _ ⦃p : Platform⦄ where
  open p use {NaiveDate}

  -- `values` is a `BTreeMap<i64, ScalarValue>`, by its entries.
  pub record ParameterVersion : Type 0 where
    pub effective_from : NaiveDate
    pub effective_to : Option NaiveDate
    pub values : List (ℤ × ScalarValue)

  pub record IndexedParameter : Type 0 where
    pub id : Option Str
    pub name : Str
    pub unit : Option Str
    pub indexed_by : Option Str
    pub source : Option Str
    pub source_url : Option Str
    pub corpus_citation_path : Option Str
    pub versions : List ParameterVersion

  -- `is_none_or(|end| date <= end)`
  abbrev pub not_ended : NaiveDate → Option NaiveDate → Bool
  not_ended at' none = true
  not_ended at' (some end) = date_le at' end

  unfoldable pub applies_at : ParameterVersion → NaiveDate → Bool
  applies_at version at' = date_le version.effective_from at' && not_ended at' version.effective_to

  -- The step of `max_by_key`: a later element replaces the best unless its key is smaller.
  unfoldable pub newer : Option (ℕ × ParameterVersion) → ℕ × ParameterVersion → ℕ × ParameterVersion
  newer none x = x
  newer (some b) x = if date_lt x.1.effective_from b.1.effective_from then b else x

  -- `versions.iter().enumerate().filter(..).max_by_key(..)` from the element at `index` on.
  unfoldable pub select_from :
      NaiveDate
      → ℕ
      → Option (ℕ × ParameterVersion)
      → List ParameterVersion
      → Option (ℕ × ParameterVersion)
  select_from at' index best [] = best
  select_from at' index best (v ∷ rest) =
      select_from at' (suc index) (if applies_at v at' then some (newer best (index, v)) else best)
        rest

  unfoldable pub version_at : IndexedParameter → NaiveDate → Option (ℕ × ParameterVersion)
  version_at parameter at' = select_from at' 0 none parameter.versions
