-- ===== src/Engine/Parameters.antt =====
-- Reading a parameter (src/engine.rs, `Engine::lookup_parameter`): the version in force at the start of
-- the period, then the key in its table. The trace record of the read is its result's second part.
use axiom_rules_engine.Prelude.{
  ℕ, ◌≡◌, sym, ◌∙◌, ap, Option, none, some, List, [], ◌∷◌, ◌++◌, is_some, if◌then◌else◌,
  Option-cases, inl, inr,
}
use axiom_rules_engine.Prelude.Ord.{Str}
use axiom_rules_engine.Prelude.Int.{ℤ, pos}
use axiom_rules_engine.Prelude.Text.{codes}
use axiom_rules_engine.Model.Platform.{Platform}
use axiom_rules_engine.Model.Values.{ScalarValue, eq_ℤ}
use axiom_rules_engine.Model.Data.{Period}
use axiom_rules_engine.Model.Versions.{ParameterVersion, IndexedParameter, version_at}
use axiom_rules_engine.Model.Versions.Selected.{Selects, InForce, AtLeast, version_at-Selects}
use axiom_rules_engine.Model.Tables.{Table}
use axiom_rules_engine.Engine.Errors.{
  unknown_parameter, type_mismatch, missing_parameter_value, Result, ok, err,
}

module _ ⦃p : Platform⦄ where
  open p use {NaiveDate}

  pub record ParameterTraceRead : Type 0 where
    pub parameter : Str
    pub index : ℤ
    pub value : ScalarValue
    pub effective_from : NaiveDate
    pub effective_to : Option NaiveDate

  -- `values.get(&key)`
  unfoldable pub value_for : ℤ → List (ℤ × ScalarValue) → Option ScalarValue
  value_for key [] = none
  value_for key ((k, v) ∷ rest) =
      let later = value_for key rest in if eq_ℤ key k then some v else later

  abbrev pub read_of : Str → ℤ → ParameterVersion → ScalarValue → ParameterTraceRead
  read_of name key version value = record {
    parameter = name;
    index = key;
    value = value;
    effective_from = version.effective_from;
    effective_to = version.effective_to;
  }

  -- The reads from a version on, and from a parameter on.
  unfoldable pub read_version :
      Str
      → ℤ
      → NaiveDate
      → Option (ℕ × ParameterVersion)
      → Result (ScalarValue × ParameterTraceRead)
  read_version name key at' none = err (missing_parameter_value name key at')
  read_version name key at' (some (_, version)) = elim (value_for key version.values) [
    | none ↦ err (missing_parameter_value name key at')
    | some value ↦ ok (value, read_of name key version value)
  ]

  unfoldable pub lookup_parameter :
      Table IndexedParameter → Str → ℤ → Period → Result (ScalarValue × ParameterTraceRead)
  lookup_parameter parameters name key period = elim (parameters name) [
    | none ↦ err (unknown_parameter name)
    | some parameter ↦ read_version name key period.start (version_at parameter period.start)
  ]

  -- `Engine::evaluate_parameter`: an indexed parameter has no value of its own.
  unfoldable pub evaluate_parameter :
      Table IndexedParameter → Str → Period → Result (ScalarValue × ParameterTraceRead)
  evaluate_parameter parameters name period = elim (parameters name) [
    | none ↦ err (unknown_parameter name)
    | some parameter ↦
        if is_some parameter.indexed_by
        then err (
            type_mismatch (
              codes "parameter `"
              ++ (name ++ codes "` is indexed; query it through a derived rule")))
        else lookup_parameter parameters name (pos 0) period
  ]

  -- A value read from the version that has precedence at the date.
  abbrev pub IsReadFrom :
      IndexedParameter → Str → ℤ → NaiveDate → ScalarValue → ParameterTraceRead → Type 0
  IsReadFrom parameter name key at' value read =
      (a : ℕ × ParameterVersion) × InForce at' 0 parameter.versions a
      × ((b : ℕ × ParameterVersion) → InForce at' 0 parameter.versions b → AtLeast a b)
      × (value_for key a.1.values ≡ some value)
      × (read ≡ read_of name key a.1 value)

  read_version-IsReadFrom :
      (parameter : IndexedParameter) (name : Str) (key : ℤ) (at' : NaiveDate)
      (selected : Option (ℕ × ParameterVersion)) (value : ScalarValue) (read : ParameterTraceRead)
      → Selects at' 0 none parameter.versions selected
      → read_version name key at' selected ≡ ok (value, read)
      → IsReadFrom parameter name key at' value read
  unfolding read_version
  read_version-IsReadFrom parameter name key at' none value read s e = cc
  read_version-IsReadFrom parameter name key at' (some a) value read s e =
      elim (Option-cases (value_for key a.1.values)) [
        | inl missing ↦
            let clash : err (missing_parameter_value name key at') ≡ ok (value, read) =
              rw (read_version, missing) at e in
            cc
        | inr (v, found) ↦
            let same : ok (v, read_of name key a.1 v) ≡ ok (value, read) =
              rw (read_version, found) at e in
            let value_same : v ≡ value = cc in
            let read_same : read_of name key a.1 v ≡ read = cc in
            let standing : InForce at' 0 parameter.versions a = elim s.0 [
              | inl w ↦ cc
              | inr w ↦ w
            ] in
            (
              a,
              standing,
              s.2,
              found ∙ ap some value_same,
              sym read_same ∙ ap (read_of name key a.1) value_same,
            )
      ]

  -- If the program has the parameter and the lookup gives a value and a trace record, then some
  -- version is in force at the start of the period, none in force has precedence over it, its table
  -- has the value at the key, and the record is of the name, the key, the value and its dates.
  pub lookup_parameter-IsReadFrom :
      (parameters : Table IndexedParameter) (parameter : IndexedParameter) (name : Str) (key : ℤ)
      (period : Period) (value : ScalarValue) (read : ParameterTraceRead)
      → parameters name ≡ some parameter
      → lookup_parameter parameters name key period ≡ ok (value, read)
      → IsReadFrom parameter name key period.start value read
  unfolding lookup_parameter
  lookup_parameter-IsReadFrom parameters parameter name key period value read known e =
      read_version-IsReadFrom parameter name key period.start (version_at parameter period.start)
        value read (version_at-Selects parameter period.start) (rw (lookup_parameter, known) at e)
