-- ===== src/Tests/Parameters.antt =====
-- Witnesses of the theorems on duplicate declarations of a parameter.
use axiom_rules_engine.Prelude.{◌≡◌, ◌↔◌, refl, true, some, none, [], ◌∷◌}
use axiom_rules_engine.Prelude.Int.{pos}
use axiom_rules_engine.Prelude.Text.{codes}
use axiom_rules_engine.Compile.Parameters.{
  ParameterVersionSpec, IndexedParameterSpec, integer, parameter_versions_overlap,
  validate_effective_ranges, incompatible_parameter_reason, parameter_version_interval,
}
use axiom_rules_engine.Compile.Parameters.Compatible.{
  Agree, InForce, incompatible_parameter_reason-Agree, parameter_versions_overlap-InForce,
}
use axiom_rules_engine.Tests.Sample.{sample}

abbrev early : ParameterVersionSpec
early = record {
  effective_from = 10;
  effective_to = some 20;
  values = (pos 0, integer (pos 7)) ∷ [];
}

abbrev late : ParameterVersionSpec
late = record { effective_from = 15; effective_to = none; values = (pos 0, integer (pos 7)) ∷ [] }

abbrev raised : ParameterVersionSpec
raised = record late { values = (pos 0, integer (pos 8)) ∷ [] }

abbrev declared_with : ParameterVersionSpec → IndexedParameterSpec
declared_with version = record {
  id = some (codes "us:rate");
  name = codes "rate";
  unit = none;
  indexed_by = none;
  source = none;
  source_url = none;
  corpus_citation_path = none;
  versions = version ∷ [];
}

raised_incompatible :
    incompatible_parameter_reason (declared_with early) (declared_with raised)
    ≡ some (codes "overlapping version ranges 10..20 and 15..open assign different values")
unfolding incompatible_parameter_reason parameter_versions_overlap
raised_incompatible = unfold parameter_version_interval in refl

incompatible_parameter_reason-Agree_example : Agree (declared_with early) (declared_with late)
incompatible_parameter_reason-Agree_example =
    incompatible_parameter_reason-Agree (declared_with early) (declared_with late)
      (unfold incompatible_parameter_reason parameter_versions_overlap in refl)

parameter_versions_overlap-InForce_example :
    (parameter_versions_overlap early late ≡ true)
    ↔ ((at' : sample.NaiveDate) × InForce early at' × InForce late at')
parameter_versions_overlap-InForce_example =
    parameter_versions_overlap-InForce (codes "rate") early late
      (unfold validate_effective_ranges in refl)
