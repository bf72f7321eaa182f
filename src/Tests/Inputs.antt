-- ===== src/Tests/Inputs.antt =====
-- Witnesses of the theorems on inputs and on the versions of parameters: one household whose
-- income has two spells, the second of which starts later.
use axiom_rules_engine.Prelude.{ℕ, ◌≡◌, refl, none, some, List, [], ◌∷◌}
use axiom_rules_engine.Prelude.Int.{pos}
use axiom_rules_engine.Prelude.Ord.{Str}
use axiom_rules_engine.Prelude.Text.{codes}
use axiom_rules_engine.Model.Values.{integer}
use axiom_rules_engine.Model.Data.{Period, month, InputRecord, DataSet}
use axiom_rules_engine.Model.Versions.{IndexedParameter, version_at}
use axiom_rules_engine.Model.Versions.Selected.{Selects, version_at-Selects}
use axiom_rules_engine.Engine.Inputs.{
  input_index, lookup_input, sort_by_start, covering_records, resolve_inputs_for_period,
  validate_input_spells, validate_from,
}
use axiom_rules_engine.Engine.Inputs.Latest.{latest, head?, matching, head-sort}
use axiom_rules_engine.Engine.Inputs.Facts.{as_list}
use axiom_rules_engine.Engine.Inputs.Resolved.{current, decided, matching-resolve, lookup-resolve}
use axiom_rules_engine.Engine.Inputs.Validated.{lookup-decided, lookup-same_in_view}
use axiom_rules_engine.Tests.Sample.{sample}

abbrev income : Str
income = codes "income"

abbrev household : Str
household = codes "h1"

abbrev spell : ℕ → ℕ → ℕ → InputRecord
spell from to amount = record {
  name = income;
  entity = codes "household";
  entity_id = household;
  interval = record { start = from; end = to };
  value = integer (pos amount);
}

abbrev data_set : DataSet
data_set = record { inputs = spell 1 40 100 ∷ spell 10 40 120 ∷ []; relations = [] }

abbrev period : Period
period = record { kind = month; start = 12; end = 20 }

abbrev request_names : List Str
request_names = income ∷ income ∷ []

lookup-same_in_view_example :
    lookup_input (input_index data_set) income household period
    ≡ lookup_input (input_index (resolve_inputs_for_period data_set period)) income household period
lookup-same_in_view_example =
    lookup-same_in_view data_set request_names period income household
      (unfold validate_input_spells validate_from in refl)

lookup-decided_example :
    lookup_input (input_index data_set) income household period
    ≡ decided income household period (current period data_set income household)
lookup-decided_example =
    lookup-decided data_set request_names period income household
      (unfold validate_input_spells validate_from in refl)

lookup-resolve_example :
    lookup_input (input_index (resolve_inputs_for_period data_set period)) income household period
    ≡ decided income household period (current period data_set income household)
lookup-resolve_example = lookup-resolve data_set period income household

matching-resolve_example :
    matching income household (resolve_inputs_for_period data_set period).inputs
    ≡ as_list (current period data_set income household)
matching-resolve_example = matching-resolve data_set period income household

head-sort_example :
    head? (covering_records period (sort_by_start data_set.inputs))
    ≡ latest (covering_records period data_set.inputs)
head-sort_example = head-sort period data_set.inputs

abbrev rate : IndexedParameter
rate = record {
  id = none;
  name = codes "rate";
  unit = none;
  indexed_by = none;
  source = none;
  source_url = none;
  corpus_citation_path = none;
  versions =
      record { effective_from = 1; effective_to = none; values = [] }
      ∷ record { effective_from = 9; effective_to = some 30; values = [] }
      ∷ [];
}

version_at-Selects_example : Selects 12 0 none rate.versions (version_at rate 12)
version_at-Selects_example = version_at-Selects rate 12
