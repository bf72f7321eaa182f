-- ===== src/Engine/Inputs/Tracking.antt =====
-- The loop of `resolve_inputs_for_period` keeps, for each fact, the record that has precedence.
use axiom_rules_engine.Prelude.{
  ℕ, ◌≡◌, refl, ◌∙◌, true, false, Option, none, some, List, [], ◌∷◌, ◌++◌, arith, if◌then◌else◌,
  Bool-cases, Option-cases, inl, inr, ap, length, get_elem?, set, get_elem?-set_self, append-nil,
}
use axiom_rules_engine.Prelude.Ord.{Str, str_ord}
use axiom_rules_engine.Model.Platform.{Platform, date_lt}
use axiom_rules_engine.Model.Data.{Period, InputRecord}
use axiom_rules_engine.Engine.Inputs.{is_for, Resolution, replace_later, resolve_record}
use axiom_rules_engine.Engine.Inputs.Latest.{matching, prefer, covers}
use axiom_rules_engine.Engine.Inputs.Facts.{
  better, as_list, Slot, Selection, Tracks, select, matching-set, matching-set_self,
  matching-append, get_elem?-length, get_elem?-lt, is_for_self, is_for-name, is_for-entity,
  is_for-other, Slot-set, Slot-snoc,
}

module _ ⦃p : Platform⦄ where
  -- What `Tracks` says of one fact.
  abbrev TracksAt : List InputRecord → Option ℕ → Option InputRecord → Str → Str → Type 0
  TracksAt inputs s o n i = Slot inputs n i s o × (matching n i inputs ≡ as_list o)

  replace_later-keep :
      (inputs : List InputRecord) (k : ℕ) (r item : InputRecord)
      → get_elem? inputs k ≡ some r
      → date_lt r.interval.start item.interval.start ≡ false
      → replace_later item inputs k ≡ inputs
  replace_later-keep inputs k r item g kept = rw (g, replace_later) (rw kept)

  replace_later-set :
      (inputs : List InputRecord) (k : ℕ) (r item : InputRecord)
      → get_elem? inputs k ≡ some r
      → date_lt r.interval.start item.interval.start ≡ true
      → replace_later item inputs k ≡ set inputs k item
  replace_later-set inputs k r item g later = rw (g, replace_later) (rw later)

  prefer_if :
      (r item : InputRecord)
      → prefer r (some item)
        ≡ (if date_lt r.interval.start item.interval.start then some item else some r)
  prefer_if r item = refl

  -- Moving `TracksAt` along equations of the records and of the selected record.
  TracksAt-subst :
      {inputs inputs' : List InputRecord} {s s' : Option ℕ} {o o' : Option InputRecord} (n i : Str)
      → inputs ≡ inputs'
      → s ≡ s'
      → o ≡ o'
      → TracksAt inputs' s' o' n i
      → TracksAt inputs s o n i
  TracksAt-subst n i e e' e'' h = rw (e, e', e'') h

  -- The item's own fact, when a record stands at `k`.
  replace-own :
      (inputs : List InputRecord) (k : ℕ) (r item : InputRecord) (n i : Str)
      → get_elem? inputs k ≡ some r
      → is_for r n i ≡ true
      → is_for item n i ≡ true
      → matching n i inputs ≡ r ∷ []
      → TracksAt (replace_later item inputs k) (some k) (prefer r (some item)) n i
  replace-own inputs k r item n i g a b m =
      elim (Bool-cases (date_lt r.interval.start item.interval.start)) [
        | inl later ↦
            TracksAt-subst {s = some k} {o' = some item} n i
              (replace_later-set inputs k r item g later) refl (rw later)
              (
                (item, refl, get_elem?-set_self inputs k item (get_elem?-lt inputs k r g), b),
                matching-set_self n i inputs k r item g m a b,
              )
        | inr kept ↦
            TracksAt-subst {s = some k} {o' = some r} n i
              (replace_later-keep inputs k r item g kept) refl (rw kept) ((r, refl, g, a), m)
      ]

  replace-other :
      (inputs : List InputRecord) (k : ℕ) (r item : InputRecord) (n i : Str) (s : Option ℕ)
      (o : Option InputRecord)
      → get_elem? inputs k ≡ some r
      → is_for r n i ≡ false
      → is_for item n i ≡ false
      → TracksAt inputs s o n i
      → TracksAt (replace_later item inputs k) s o n i
  replace-other inputs k r item n i s o g a b (slot, m) =
      elim (Bool-cases (date_lt r.interval.start item.interval.start)) [
        | inl later ↦
            TracksAt-subst n i (replace_later-set inputs k r item g later) refl refl (
              Slot-set inputs n i s o k r item g a slot,
              matching-set n i inputs k r item g a b ∙ m,
            )
        | inr kept ↦
            TracksAt-subst n i (replace_later-keep inputs k r item g kept) refl refl (slot, m)
      ]

  append-own :
      (inputs : List InputRecord) (item : InputRecord) (n i : Str)
      → is_for item n i ≡ true
      → matching n i inputs ≡ []
      → TracksAt (inputs ++ item ∷ []) (some (length inputs)) (some item) n i
  append-own inputs item n i b m = (
    (item, refl, get_elem?-length inputs item, b),
    matching-append n i inputs (item ∷ []) ∙ rw (m, b),
  )

  append-other :
      (inputs : List InputRecord) (item : InputRecord) (n i : Str) (s : Option ℕ)
      (o : Option InputRecord)
      → is_for item n i ≡ false
      → TracksAt inputs s o n i
      → TracksAt (inputs ++ item ∷ []) s o n i
  append-other inputs item n i s o b (slot, m) = (
    Slot-snoc inputs n i s o item slot,
    matching-append n i inputs (item ∷ []) ∙ rw (m, b) (append-nil (as_list o)),
  )

  module _ (period : Period) (st : Resolution) (f : Selection) (item : InputRecord) where
    abbrev pub After : Resolution → Str → Str → Type 0
    After st' n i = TracksAt st'.inputs (st'.selected_by_fact n i) (select period f item n i) n i

    uncovered_step : covers period item ≡ false → resolve_record period st item ≡ st
    unfolding resolve_record
    uncovered_step e = rw e

    fresh_step :
        covers period item ≡ true
        → st.selected_by_fact item.name item.entity_id ≡ none
        → resolve_record period st item ≡ record {
          selected_by_fact =
              λ n i. if is_for item n i then some (length st.inputs) else st.selected_by_fact n i;
          inputs = st.inputs ++ item ∷ [];
        }
    unfolding resolve_record
    fresh_step c e = rw (c, e)

    seen_step :
        (k : ℕ)
        → covers period item ≡ true
        → st.selected_by_fact item.name item.entity_id ≡ some k
        → resolve_record period st item ≡ record st { inputs = replace_later item st.inputs k }
    unfolding resolve_record
    seen_step k c e = rw (c, e)

    select-own :
        (n i : Str)
        → is_for item n i ≡ true
        → covers period item ≡ true
        → select period f item n i ≡ better (f n i) item
    select-own n i a c = rw (select, a, c)

    select-other : (n i : Str) → is_for item n i ≡ false → select period f item n i ≡ f n i
    select-other n i a = rw (select, a)

    select-uncovered : (n i : Str) → covers period item ≡ false → select period f item n i ≡ f n i
    select-uncovered n i c = ground (arith, c)

    -- What the state says of the item's own fact.
    own_slot :
        {s : Option ℕ}
        → Tracks st f
        → st.selected_by_fact item.name item.entity_id ≡ s
        → TracksAt st.inputs s (f item.name item.entity_id) item.name item.entity_id
    own_slot t e = rw e at (t item.name item.entity_id)

    After-fresh :
        (n i : Str)
        → Tracks st f
        → covers period item ≡ true
        → st.selected_by_fact item.name item.entity_id ≡ none
        → After (resolve_record period st item) n i
    After-fresh n i t c e = rw (fresh_step c e) (elim (Bool-cases (is_for item n i)) [
      | inl own ↦
          let (slot, m) = own_slot t e in
          let at_key : f n i ≡ none =
            rw (is_for-name item n i own, is_for-entity item n i own) slot in
          TracksAt-subst {s' = some (length st.inputs)} n i refl (rw own)
            (select-own n i own c ∙ ap (λ o. better o item) at_key)
            (append-own st.inputs item n i own ((t n i).1 ∙ ap as_list at_key))
      | inr other ↦
          TracksAt-subst n i refl (rw other) (select-other n i other)
            (append-other st.inputs item n i _ _ other (t n i))
    ])

    After-seen :
        (n i : Str) (k : ℕ)
        → Tracks st f
        → covers period item ≡ true
        → st.selected_by_fact item.name item.entity_id ≡ some k
        → After (resolve_record period st item) n i
    After-seen n i k t c e =
        let ((r, at_key, g, a), m) = own_slot t e in
        rw (seen_step k c e) (elim (Bool-cases (is_for item n i)) [
          | inl own ↦
              let en = is_for-name item n i own in
              let ei = is_for-entity item n i own in
              rw (en, ei)
                (TracksAt-subst {s' = some k} item.name item.entity_id refl e
                  (select-own _ _ (is_for_self item) c ∙ ap (λ o. better o item) at_key)
                  (replace-own st.inputs k r item _ _ g a (is_for_self item)
                    (m ∙ ap as_list at_key)))
          | inr other ↦ TracksAt-subst n i refl refl (select-other n i other) (
              replace-other st.inputs k r item n i _ _ g (is_for-other item r n i a other) other
                (t n i))
        ])

    -- One record keeps the state in step with the selection, for every fact.
    pub resolve_record-Tracks :
        Tracks st f → Tracks (resolve_record period st item) (select period f item)
    resolve_record-Tracks t n i = elim (Bool-cases (covers period item)) [
      | inr out ↦ rw (uncovered_step out, select-uncovered n i out) (t n i)
      | inl c ↦ elim (Option-cases (st.selected_by_fact item.name item.entity_id)) [
        | inl fresh ↦ After-fresh n i t c fresh
        | inr (k, at_k) ↦ After-seen n i k t c at_k
      ]
    ]
