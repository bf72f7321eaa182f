-- ===== src/Engine/Inputs/Validated.antt =====
-- Validated inputs: explain never meets a tie in conflict, so both modes read the same values.
use axiom_rules_engine.Prelude.{
  ℕ, suc, ◌+◌, ◌≡◌, refl, sym, ◌∙◌, true, none, some, List, [], ◌∷◌, arith, Bool-cases,
  Option-cases, inl, inr, ap, get_elem?,
}
use native.Mathlib.Nat.{add-zero}
use axiom_rules_engine.Prelude.Ord.{Str, str_ord}
use axiom_rules_engine.Model.Platform.{Platform, date_lt, date_eq}
use axiom_rules_engine.Model.Values.{value_eq}
use axiom_rules_engine.Model.Data.{Period, InputRecord, contains_period, DataSet}
use axiom_rules_engine.Engine.Errors.{ok}
use axiom_rules_engine.Engine.Inputs.{
  is_for, covering_records, input_index, sort_by_start, lookup_input, lookup_covering, check_ties,
  insert_by_start, FirstByStart, remember, validate_from, validate_input_spells,
  resolve_inputs_for_period,
}
use axiom_rules_engine.Engine.Inputs.Latest.{matching, index_inputs-matching, head-sort, head?}
use axiom_rules_engine.Engine.Inputs.Facts.{is_for-name, is_for-entity}
use axiom_rules_engine.Engine.Inputs.Resolved.{current, decided, lookup-resolve}
use axiom_rules_engine.Engine.Inputs.Agreement.{
  at_position, first_of, Agrees, AllAgree, Extends, InRange, value_eq_self, same_key_self,
  remember-same, remember-Extends, remember-InRange, Agrees-value_eq, date_eq-eq,
}

zero-plus : (j : ℕ) → 0 + j ≡ j
zero-plus j = omega arith

suc-shift : (n j : ℕ) → suc n + j ≡ n + suc j
suc-shift n j = omega arith

module _ ⦃p : Platform⦄ where
  open p use {date_ord, decimal_cmp_self, decimal_cmp_sym, decimal_cmp_trans}

  -- What a successful validation shows: one record stands for each fact and start.
  abbrev Validated : List InputRecord → FirstByStart → List InputRecord → Type 0
  Validated inputs first l = (last : FirstByStart) × Extends first last × AllAgree inputs last l

  module _ (inputs : List InputRecord) (request_names : List Str) where
    validate_fresh :
        (first : FirstByStart) (index : ℕ) (item : InputRecord) (rest : List InputRecord)
        → first item.name item.entity_id item.interval.start ≡ none
        → get_elem? inputs index ≡ some item
        → Validated inputs (remember first item index) rest
        → Validated inputs first (item ∷ rest)
    validate_fresh first index item rest fresh g (last, ext, agree) =
        let at_item : last item.name item.entity_id item.interval.start ≡ some index =
          ext _ _ _ index (remember-same first item index _ _ _ (same_key_self item)) in
        (
          last,
          remember-Extends first last item index fresh ext,
          ((item, ap (at_position inputs) at_item ∙ g, value_eq_self item.value), agree),
        )

    validate_seen :
        (first : FirstByStart) (k : ℕ) (r item : InputRecord) (rest : List InputRecord)
        → first item.name item.entity_id item.interval.start ≡ some k
        → get_elem? inputs k ≡ some r
        → value_eq r.value item.value ≡ true
        → Validated inputs first rest
        → Validated inputs first (item ∷ rest)
    validate_seen first k r item rest e g v (last, ext, agree) =
        (last, ext, ((r, ap (at_position inputs) (ext _ _ _ k e) ∙ g, v), agree))

    validate_from-Validated :
        (first : FirstByStart) (index : ℕ) (rest : List InputRecord)
        → ((j : ℕ) → get_elem? inputs (index + j) ≡ get_elem? rest j)
        → InRange inputs first
        → validate_from inputs request_names first index rest ≡ ok tt
        → Validated inputs first rest
    unfolding validate_from
    validate_from-Validated first index [] h w e = (first, λ _ _ _ _ k. k, tt)
    validate_from-Validated first index (item ∷ rest) h w e =
        let here : get_elem? inputs index ≡ some item = rw add-zero at (h 0) in
        let later : (j : ℕ) → get_elem? inputs (suc index + j) ≡ get_elem? rest j =
          λ j. rw (suc-shift index j) (h (suc j)) in
        elim (Option-cases (first item.name item.entity_id item.interval.start)) [
          | inl fresh ↦ validate_fresh first index item rest fresh here (
              validate_from-Validated (remember first item index) (suc index) rest later
                (remember-InRange inputs first item index here w) (rw (validate_from, fresh) at e))
          | inr (k, at_k) ↦
              let (r, g) = w _ _ _ k at_k in
              elim (Bool-cases (value_eq r.value item.value)) [
                | inl agree ↦ validate_seen first k r item rest at_k g agree (
                    validate_from-Validated first (suc index) rest later w
                      (rw (validate_from, at_k, g, agree) at e))
                | inr conflict' ↦ let clash = rw (validate_from, at_k, g, conflict') at e in cc
              ]
        ]

  -- Records of one fact with one start agree when they are all validated.
  abbrev IsFact : Str → Str → List InputRecord → Type 0
  IsFact n i [] = Unit
  IsFact n i (x ∷ l) = (is_for x n i ≡ true) × IsFact n i l

  abbrev Good : FirstByStart → List InputRecord → Str → Str → List InputRecord → Type 0
  Good last inputs n i [] = Unit
  Good last inputs n i (x ∷ l) =
      (is_for x n i ≡ true) × Agrees inputs last x × Good last inputs n i l

  module _ (last : FirstByStart) (inputs : List InputRecord) (n i : Str) where
    Good-matching :
        (l : List InputRecord) → AllAgree inputs last l → Good last inputs n i (matching n i l)
    Good-matching [] a = tt
    Good-matching (x ∷ l) a = elim (Bool-cases (is_for x n i)) [
      | inl own ↦ rw own (own, a.0, Good-matching l a.1)
      | inr other ↦ rw other (Good-matching l a.1)
    ]

    Good-covering :
        (period : Period) (l : List InputRecord)
        → Good last inputs n i l
        → Good last inputs n i (covering_records period l)
    Good-covering period [] g = tt
    Good-covering period (x ∷ l) g = elim (Bool-cases (contains_period x.interval period)) [
      | inl c ↦ rw c (g.0, g.1, Good-covering period l g.2)
      | inr c ↦ rw c (Good-covering period l g.2)
    ]

    Good-insert :
        (x : InputRecord) (l : List InputRecord)
        → is_for x n i ≡ true
        → Agrees inputs last x
        → Good last inputs n i l
        → Good last inputs n i (insert_by_start x l)
    unfolding insert_by_start
    Good-insert x [] own a g = (own, a, tt)
    Good-insert x (z ∷ l) own a g = elim (Bool-cases (date_lt x.interval.start z.interval.start)) [
      | inl lt ↦ rw lt (g.0, g.1, Good-insert x l own a g.2)
      | inr ge ↦ rw ge (own, a, g)
    ]

    Good-sort :
        (l : List InputRecord) → Good last inputs n i l → Good last inputs n i (sort_by_start l)
    unfolding sort_by_start
    Good-sort [] g = tt
    Good-sort (x ∷ l) g = Good-insert x (sort_by_start l) g.0 g.1 (Good-sort l g.2)

    same-first :
        (a b : InputRecord)
        → is_for a n i ≡ true
        → is_for b n i ≡ true
        → date_eq a.interval.start b.interval.start ≡ true
        → first_of inputs last a ≡ first_of inputs last b
    same-first a b ha hb h = rw (
      sym (is_for-name a n i ha),
      sym (is_for-entity a n i ha),
      sym (is_for-name b n i hb),
      sym (is_for-entity b n i hb),
      date_eq-eq _ _ h,
    )

    -- No tie conflicts.
    check_ties-ok :
        (selected : InputRecord) (l : List InputRecord)
        → is_for selected n i ≡ true
        → Agrees inputs last selected
        → Good last inputs n i l
        → check_ties n i selected l ≡ ok selected.value
    unfolding check_ties
    check_ties-ok selected [] own a g = refl
    check_ties-ok selected (x ∷ l) own a g =
        elim (Bool-cases (date_eq x.interval.start selected.interval.start)) [
          | inl tie ↦
              rw
                (
                  tie,
                  Agrees-value_eq inputs last x selected g.1 a (same-first x selected g.0 own tie),
                )
                (check_ties-ok selected l own a g.2)
          | inr earlier ↦ rw earlier
        ]

    lookup_covering-head :
        (period : Period) (l : List InputRecord)
        → Good last inputs n i l
        → lookup_covering n i period l ≡ decided n i period (head? l)
    unfolding lookup_covering
    lookup_covering-head period [] g = refl
    lookup_covering-head period (x ∷ l) g = check_ties-ok x l g.0 g.1 g.2

  none-InRange : (inputs : List InputRecord) → InRange inputs (λ _ _ _. none)
  none-InRange inputs n i d k e = cc

  data_Validated :
      (data' : DataSet) (request_names : List Str)
      → validate_input_spells data' request_names ≡ ok tt
      → Validated data'.inputs (λ _ _ _. none) data'.inputs
  unfolding validate_input_spells
  data_Validated data' request_names e =
      validate_from-Validated data'.inputs request_names (λ _ _ _. none) 0 data'.inputs
        (λ j. ap (get_elem? data'.inputs) (zero-plus j)) (none-InRange data'.inputs) e

  -- If validate_input_spells accepts the data, a lookup in the sorted index is decided by the
  -- current record of the fact alone, the first of the covering records that start last: its value
  -- if there is one, and otherwise a missing input that names the period. It never reports an
  -- ambiguous input.
  pub lookup-decided :
      (data' : DataSet) (request_names : List Str) (period : Period) (n i : Str)
      → validate_input_spells data' request_names ≡ ok tt
      → lookup_input (input_index data') n i period ≡ decided n i period (current period data' n i)
  unfolding lookup_input input_index
  lookup-decided data' request_names period n i e =
      let (last, ext, agree) = data_Validated data' request_names e in
      rw index_inputs-matching (
        lookup_covering-head last data'.inputs n i period _ (
          Good-covering last data'.inputs n i period _ (
            Good-sort last data'.inputs n i _
              (Good-matching last data'.inputs n i data'.inputs agree)))
        ∙ ap (decided n i period) (head-sort period (matching n i data'.inputs)))

  -- If validate_input_spells accepts the data, then for every period, name and entity id a lookup
  -- in explain's sorted index gives the same result, a value or a missing input, as a lookup in
  -- the index of the single-period view that fast mode reads.
  pub lookup-same_in_view :
      (data' : DataSet) (request_names : List Str) (period : Period) (n i : Str)
      → validate_input_spells data' request_names ≡ ok tt
      → lookup_input (input_index data') n i period
        ≡ lookup_input (input_index (resolve_inputs_for_period data' period)) n i period
  lookup-same_in_view data' request_names period n i e =
      lookup-decided data' request_names period n i e ∙ sym (lookup-resolve data' period n i)
