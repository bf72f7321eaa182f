-- ===== src/Engine/Inputs/Resolved.antt =====
-- The single-period view that fast mode reads holds, for each fact, exactly the record that has
-- precedence, so a lookup in it is decided by that record alone.
use axiom_rules_engine.Prelude.{
  ◌≡◌, refl, ◌∙◌, true, Option, none, some, List, [], ◌∷◌, arith, Bool-cases, inl, inr, ap,
}
use axiom_rules_engine.Prelude.Ord.{Str}
use axiom_rules_engine.Model.Platform.{Platform, date_lt, not-lt_trans}
use axiom_rules_engine.Model.Values.{ScalarValue}
use axiom_rules_engine.Model.Data.{Period, InputRecord, DataSet}
use axiom_rules_engine.Engine.Errors.{missing_input, Result, ok, err}
use axiom_rules_engine.Engine.Inputs.{
  resolve_record, is_for, covering_records, Resolution, resolve_records, resolve_inputs_for_period,
  input_index, sort_by_start, lookup_input, lookup_covering, check_ties,
}
use axiom_rules_engine.Engine.Inputs.Latest.{
  matching, prefer, latest, covers, index_inputs-matching,
}
use axiom_rules_engine.Engine.Inputs.Facts.{better, as_list, Selection, Tracks, select}
use axiom_rules_engine.Engine.Inputs.Tracking.{resolve_record-Tracks}

module _ ⦃p : Platform⦄ where
  open p use {date_ord}

  abbrev select_all : Period → Selection → List InputRecord → Selection
  select_all period f [] = f
  select_all period f (x ∷ l) = select_all period (select period f x) l

  resolve_records-Tracks :
      (period : Period) (st : Resolution) (f : Selection) (l : List InputRecord)
      → Tracks st f
      → Tracks (resolve_records period st l) (select_all period f l)
  unfolding resolve_records
  resolve_records-Tracks period st f [] t = t
  resolve_records-Tracks period st f (x ∷ l) t =
      resolve_records-Tracks period (resolve_record period st x) (select period f x) l
        (resolve_record-Tracks period st f x t)

  abbrev merge : Option InputRecord → Option InputRecord → Option InputRecord
  merge none o = o
  merge (some r) o = prefer r o

  prefer-prefer :
      (s r : InputRecord) (o : Option InputRecord)
      → merge (prefer s (some r)) o ≡ prefer s (prefer r o)
  prefer-prefer s r none = ground arith
  prefer-prefer s r (some u) = ground (
    arith,
    date_ord.cmp_trans s.interval.start r.interval.start u.interval.start,
    not-lt_trans s.interval.start r.interval.start u.interval.start,
  )

  merge-better :
      (o : Option InputRecord) (x : InputRecord) (o' : Option InputRecord)
      → merge (better o x) o' ≡ merge o (prefer x o')
  merge-better none x o' = refl
  merge-better (some s) x o' = prefer-prefer s x o'

  select_step :
      (period : Period) (f : Selection) (x : InputRecord) (l : List InputRecord) (n i : Str)
      → merge (select period f x n i) (latest (covering_records period (matching n i l)))
        ≡ merge (f n i) (latest (covering_records period (matching n i (x ∷ l))))
  select_step period f x l n i = elim (Bool-cases (is_for x n i)) [
    | inr other ↦ rw (select, other)
    | inl own ↦ elim (Bool-cases (covers period x)) [
      | inr out ↦ rw (select, own, out)
      | inl c ↦ rw (select, own, c) (merge-better (f n i) x _)
    ]
  ]

  select_all-latest :
      (period : Period) (f : Selection) (l : List InputRecord) (n i : Str)
      → select_all period f l n i
        ≡ merge (f n i) (latest (covering_records period (matching n i l)))
  select_all-latest period f [] n i = ground arith
  select_all-latest period f (x ∷ l) n i =
      select_all-latest period (select period f x) l n i ∙ select_step period f x l n i

  -- The latest of the covering records for a fact.
  abbrev pub current : Period → DataSet → Str → Str → Option InputRecord
  current period data' n i = latest (covering_records period (matching n i data'.inputs))

  -- The single-period view holds for each name and entity id exactly the current record of that
  -- fact, the first of its covering records that start last, once; and nothing if no record covers
  -- the period.
  pub matching-resolve :
      (data' : DataSet) (period : Period) (n i : Str)
      → matching n i (resolve_inputs_for_period data' period).inputs
        ≡ as_list (current period data' n i)
  unfolding resolve_inputs_for_period
  matching-resolve data' period n i =
      (resolve_records-Tracks period (record { selected_by_fact = λ _ _. none; inputs = [] })
        (λ _ _. none) data'.inputs (λ _ _. (refl, refl)) n i).1
      ∙ ap as_list (select_all-latest period (λ _ _. none) data'.inputs n i)

  -- The result of a lookup when the current record decides it.
  abbrev pub decided : Str → Str → Period → Option InputRecord → Result ScalarValue
  decided n i period none = err (missing_input n i period.start period.end)
  decided n i period (some r) = ok r.value

  abbrev Covered : Period → Option InputRecord → Type 0
  Covered period none = Unit
  Covered period (some r) = covers period r ≡ true

  prefer-Covered :
      (period : Period) (x : InputRecord) (o : Option InputRecord)
      → covers period x ≡ true
      → Covered period o
      → Covered period (prefer x o)
  prefer-Covered period x none c h = c
  prefer-Covered period x (some s) c h =
      elim (Bool-cases (date_lt x.interval.start s.interval.start)) [
        | inl later ↦ rw (prefer, later) h
        | inr kept ↦ rw (prefer, kept) c
      ]

  latest-Covered :
      (period : Period) (l : List InputRecord) → Covered period (latest (covering_records period l))
  latest-Covered period [] = tt
  latest-Covered period (x ∷ l) = elim (Bool-cases (covers period x)) [
    | inl c ↦ rw c (prefer-Covered period x _ c (latest-Covered period l))
    | inr out ↦ rw out (latest-Covered period l)
  ]

  lookup_one :
      (period : Period) (n i : Str) (o : Option InputRecord)
      → Covered period o
      → lookup_covering n i period (covering_records period (sort_by_start (as_list o)))
        ≡ decided n i period o
  unfolding lookup_covering sort_by_start check_ties
  lookup_one period n i none h = refl
  lookup_one period n i (some r) h = rw h

  -- A lookup for the view's period in the index of the single-period view gives the value of the
  -- current record of the fact in the data, or a missing input if there is none.
  pub lookup-resolve :
      (data' : DataSet) (period : Period) (n i : Str)
      → lookup_input (input_index (resolve_inputs_for_period data' period)) n i period
        ≡ decided n i period (current period data' n i)
  unfolding lookup_input input_index
  lookup-resolve data' period n i =
      rw (index_inputs-matching, matching-resolve)
        (lookup_one period n i (current period data' n i)
          (latest-Covered period (matching n i data'.inputs)))
