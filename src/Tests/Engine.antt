-- ===== src/Tests/Engine.antt =====
-- Witnesses of the theorems on comparisons, tables and parameter reads.
use axiom_rules_engine.Prelude.{◌≡◌, refl, true, some, none, [], ◌∷◌}
use axiom_rules_engine.Prelude.Int.{pos}
use axiom_rules_engine.Prelude.Text.{codes}
use axiom_rules_engine.Model.Values.{lte, as_decimal, integer, decimal}
use axiom_rules_engine.Model.Data.{Period, month}
use axiom_rules_engine.Model.Versions.{
  ParameterVersion, IndexedParameter, version_at, select_from, newer, applies_at,
}
use axiom_rules_engine.Model.Tables.{
  Table, updated, insert_unique, IsExtended, insert_unique-IsExtended,
}
use axiom_rules_engine.Engine.Errors.{ok}
use axiom_rules_engine.Engine.Scalars.{compare_scalar_values}
use axiom_rules_engine.Engine.Scalars.Comparison.{
  complement, mirror, negated, compare-complement, compare-mirror,
}
use axiom_rules_engine.Engine.Parameters.{
  lookup_parameter, value_for, read_version, read_of, IsReadFrom, lookup_parameter-IsReadFrom,
}
use axiom_rules_engine.Tests.Sample.{sample}

compare-complement_example :
    compare_scalar_values (integer (pos 3)) (complement lte) (decimal 5)
    ≡ negated (compare_scalar_values (integer (pos 3)) lte (decimal 5))
compare-complement_example = compare-complement (integer (pos 3)) lte (decimal 5)

compare-mirror_example : compare_scalar_values (decimal 5) (mirror lte) (integer (pos 3)) ≡ ok true
compare-mirror_example =
    compare-mirror (integer (pos 3)) lte (decimal 5) true
      (unfold compare_scalar_values as_decimal in refl)

-- A parameter with one version, from day 1 on.
abbrev amount : ParameterVersion
amount = record {
  effective_from = 1;
  effective_to = none;
  values = (pos 0, decimal 7) ∷ (pos 1, decimal 8) ∷ [];
}

abbrev rate : IndexedParameter
rate = record {
  id = none;
  name = codes "rate";
  unit = none;
  indexed_by = some (codes "size");
  source = none;
  source_url = none;
  corpus_citation_path = none;
  versions = amount ∷ [];
}

abbrev empty : Table IndexedParameter
empty name = none

abbrev parameters : Table IndexedParameter
parameters = updated empty (codes "rate") rate

abbrev period : Period
period = record { kind = month; start = 12; end = 20 }

insert_unique-IsExtended_example :
    IsExtended parameters
      (codes "rate")
      rate
      (insert_unique (codes "parameter") parameters (codes "rate") rate)
insert_unique-IsExtended_example =
    insert_unique-IsExtended (codes "parameter") parameters (codes "rate") rate

lookup_parameter-IsReadFrom_example :
    IsReadFrom rate
      (codes "rate")
      (pos 1)
      12
      (decimal 8)
      (read_of (codes "rate") (pos 1) amount (decimal 8))
lookup_parameter-IsReadFrom_example =
    lookup_parameter-IsReadFrom parameters rate (codes "rate") (pos 1) period (decimal 8)
      (read_of (codes "rate") (pos 1) amount (decimal 8)) refl
      (unfold lookup_parameter read_version value_for version_at select_from newer applies_at in
        refl)
