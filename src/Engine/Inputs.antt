-- ===== src/Engine/Inputs.antt =====
-- How the evaluators read inputs (src/engine.rs): the index that explain sorts, the lookup in it,
-- the validation of overlapping spells, and the single-period view that fast mode reads.
pub mod Latest
pub mod Facts
pub mod Tracking
pub mod Resolved
pub mod Agreement
pub mod Validated
use axiom_rules_engine.Prelude.{
  ℕ, zero, suc, Bool, true, false, not, ◌&&◌, Option, none, some, List, [], ◌∷◌, ◌++◌, length,
  if◌then◌else◌, get_elem?, set,
}
use axiom_rules_engine.Prelude.Ord.{Str, str_ord}
use axiom_rules_engine.BTree.{key_eq}
use axiom_rules_engine.Model.Platform.{Platform, date_lt, date_eq}
use axiom_rules_engine.Model.Values.{ScalarValue, value_eq}
use axiom_rules_engine.Model.Data.{Period, InputRecord, contains_period, DataSet}
use axiom_rules_engine.Engine.Errors.{
  EvalError, missing_input, ambiguous_input, Result, ok, err, ◌>>=◌,
}

module _ ⦃p : Platform⦄ where
  open p use {NaiveDate}

  -- `HashMap<(String, String), Vec<&InputRecord>>`, as a function of the key.
  abbrev pub InputIndex : Type 0
  InputIndex = Str → Str → List InputRecord

  abbrev pub is_for : InputRecord → Str → Str → Bool
  is_for record' name entity_id = key_eq name record'.name && key_eq entity_id record'.entity_id

  -- `entry(key).or_default().push(record)`
  abbrev pub push : InputIndex → InputRecord → InputIndex
  push index item name entity_id =
      if is_for item name entity_id then index name entity_id ++ item ∷ [] else index name entity_id

  unfoldable pub index_inputs : InputIndex → List InputRecord → InputIndex
  index_inputs index [] = index
  index_inputs index (item ∷ rest) = index_inputs (push index item) rest

  -- `sort_by_key(|record| Reverse(record.interval.start))`: a stable sort.
  unfoldable pub insert_by_start : InputRecord → List InputRecord → List InputRecord
  insert_by_start x [] = x ∷ []
  insert_by_start x (z ∷ l) =
      if date_lt x.interval.start z.interval.start then z ∷ insert_by_start x l else x ∷ z ∷ l

  unfoldable pub sort_by_start : List InputRecord → List InputRecord
  unfolding insert_by_start
  sort_by_start [] = []
  sort_by_start (x ∷ l) = insert_by_start x (sort_by_start l)

  -- The input index that `Engine::with_tracing` builds.
  unfoldable pub input_index : DataSet → InputIndex
  input_index data' name entity_id =
      sort_by_start (index_inputs (λ _ _. []) data'.inputs name entity_id)

  abbrev pub covering_records : Period → List InputRecord → List InputRecord
  covering_records period [] = []
  covering_records period (r ∷ l) =
      if contains_period r.interval period
      then r ∷ covering_records period l
      else covering_records period l

  -- The loop over the records that tie with the selected one.
  unfoldable pub check_ties : Str → Str → InputRecord → List InputRecord → Result ScalarValue
  check_ties name entity_id selected [] = ok selected.value
  check_ties name entity_id selected (tied ∷ rest) =
      if date_eq tied.interval.start selected.interval.start
      then (if value_eq tied.value selected.value
          then check_ties name entity_id selected rest
          else err (ambiguous_input name entity_id selected.interval.start none))
      else ok selected.value

  unfoldable pub lookup_covering : Str → Str → Period → List InputRecord → Result ScalarValue
  lookup_covering name entity_id period [] =
      err (missing_input name entity_id period.start period.end)
  lookup_covering name entity_id period (selected ∷ rest) = check_ties name entity_id selected rest

  unfoldable pub lookup_input : InputIndex → Str → Str → Period → Result ScalarValue
  lookup_input index name entity_id period =
      lookup_covering name entity_id period (covering_records period (index name entity_id))

  -- The state of `resolve_inputs_for_period`: where each fact's record stands, and the records.
  pub record Resolution : Type 0 where
    pub selected_by_fact : Str → Str → Option ℕ
    pub inputs : List InputRecord

  abbrev pub replace_later : InputRecord → List InputRecord → ℕ → List InputRecord
  replace_later item inputs index = elim (get_elem? inputs index) [
    | none ↦ inputs
    | some selected ↦
        if date_lt selected.interval.start item.interval.start
        then set inputs index item
        else inputs
  ]

  -- The body of its loop.
  unfoldable pub resolve_record : Period → Resolution → InputRecord → Resolution
  resolve_record period state item =
      if contains_period item.interval period
      then elim (state.selected_by_fact item.name item.entity_id) [
        | some index ↦ record state { inputs = replace_later item state.inputs index }
        | none ↦ record {
          selected_by_fact = λ name entity_id.
              if is_for item name entity_id
              then some (length state.inputs)
              else state.selected_by_fact name entity_id;
          inputs = state.inputs ++ item ∷ [];
        }
      ]
      else state

  unfoldable pub resolve_records : Period → Resolution → List InputRecord → Resolution
  resolve_records period state [] = state
  resolve_records period state (item ∷ rest) =
      resolve_records period (resolve_record period state item) rest

  unfoldable pub resolve_inputs_for_period : DataSet → Period → DataSet
  resolve_inputs_for_period data' period = record {
    inputs =
        (resolve_records period (record { selected_by_fact = λ _ _. none; inputs = [] })
          data'.inputs).inputs;
    relations = data'.relations;
  }

  abbrev pub requested : List Str → ℕ → InputRecord → Str
  requested request_names index item = elim (get_elem? request_names index) [
    | none ↦ item.name
    | some name ↦ name
  ]

  abbrev pub conflict : List Str → InputRecord → ℕ → InputRecord → ℕ → EvalError
  conflict request_names first_record first item index =
      let name = requested request_names first first_record in
      let other = requested request_names index item in
      ambiguous_input name item.entity_id item.interval.start
        (if key_eq other name then none else some other)

  -- `HashMap<(&str, &str, NaiveDate), usize>`, as a function of the key.
  abbrev pub FirstByStart : Type 0
  FirstByStart = Str → Str → NaiveDate → Option ℕ

  abbrev pub remember : FirstByStart → InputRecord → ℕ → FirstByStart
  remember first item index name entity_id start =
      if is_for item name entity_id && date_eq start item.interval.start
      then some index
      else first name entity_id start

  -- The loop of `validate_input_spells`. `first` holds positions of `inputs` only, so the read of
  -- `inputs` never fails; out of range the model goes on.
  unfoldable pub validate_from :
      List InputRecord → List Str → FirstByStart → ℕ → List InputRecord → Result (Unit {0})
  validate_from inputs request_names first index [] = ok tt
  validate_from inputs request_names first index (item ∷ rest) =
      elim (first item.name item.entity_id item.interval.start) [
        | none ↦ validate_from inputs request_names (remember first item index) (suc index) rest
        | some earlier ↦ elim (get_elem? inputs earlier) [
          | none ↦ validate_from inputs request_names first (suc index) rest
          | some record' ↦ elim (value_eq record'.value item.value) [
            | true ↦ validate_from inputs request_names first (suc index) rest
            | false ↦ err (conflict request_names record' earlier item index)
          ]
        ]
      ]

  unfoldable pub validate_input_spells : DataSet → List Str → Result (Unit {0})
  validate_input_spells data' request_names =
      validate_from data'.inputs request_names (λ _ _ _. none) 0 data'.inputs
