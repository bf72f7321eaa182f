-- ===== src/Engine/Inputs/Agreement.antt =====
-- What the validation of input spells remembers: one record for each fact and start.
use axiom_rules_engine.Prelude.{
  ℕ, ◌≡◌, refl, sym, ◌∙◌, Bool, true, false, ◌&&◌, Option, none, some, List, [], ◌∷◌, arith,
  Bool-cases, inl, inr, ap, get_elem?,
}
use axiom_rules_engine.Prelude.Ord.{Str, str_ord}
use axiom_rules_engine.Prelude.Int.{pos, negsuc}
use axiom_rules_engine.BTree.Laws.{key_eq-eq, key_eq_self}
use axiom_rules_engine.Model.Platform.{Platform, date_eq}
use axiom_rules_engine.Model.Values.{ScalarValue, value_eq, bool, integer, decimal, text, date}
use axiom_rules_engine.Model.Data.{InputRecord}
use axiom_rules_engine.Engine.Inputs.{is_for, FirstByStart, remember}
use axiom_rules_engine.Engine.Inputs.Facts.{
  is_for_self, is_for-name, is_for-entity, and_left, and_right,
}

module _ ⦃p : Platform⦄ where
  open p use {date_ord, decimal_cmp_self, decimal_cmp_sym, decimal_cmp_trans}

  pub value_eq_self : (v : ScalarValue) → value_eq v v ≡ true
  unfolding value_eq
  value_eq_self (bool true) = refl
  value_eq_self (bool false) = refl
  value_eq_self (integer (pos n)) = ground arith
  value_eq_self (integer (negsuc n)) = ground arith
  value_eq_self (decimal d) = ground (arith, decimal_cmp_self d)
  value_eq_self (text s) = key_eq_self s
  value_eq_self (date d) = ground (arith, date_ord.cmp_self d)

  -- Two values equal to a third are equal.
  value_eq-join :
      (u v w : ScalarValue) → value_eq u v ≡ true → value_eq u w ≡ true → value_eq v w ≡ true
  unfolding value_eq
  value_eq-join (bool a) (bool b) (bool c) h k = ground arith
  value_eq-join (integer a) (integer b) (integer c) h k = ground arith
  value_eq-join (decimal a) (decimal b) (decimal c) h k =
      ground (arith, decimal_cmp_sym a b, decimal_cmp_trans b a c)
  value_eq-join (text a) (text b) (text c) h k = let e : a ≡ b = key_eq-eq a b h in rw (← e) k
  value_eq-join (date a) (date b) (date c) h k =
      ground (arith, date_ord.cmp_eq a b, date_ord.cmp_eq a c, date_ord.cmp_self a)
  value_eq-join u v w h k = cc

  pub date_eq-eq : (a b : p.NaiveDate) → date_eq a b ≡ true → a ≡ b
  date_eq-eq a b h = ground (arith, date_ord.cmp_eq a b)

  -- The first record with the fact and start of `item`, as `first` remembers it.
  abbrev pub at_position : List InputRecord → Option ℕ → Option InputRecord
  at_position inputs none = none
  at_position inputs (some k) = get_elem? inputs k

  abbrev pub first_of : List InputRecord → FirstByStart → InputRecord → Option InputRecord
  first_of inputs first item =
      at_position inputs (first item.name item.entity_id item.interval.start)

  -- The value of `item` is that of the first record with its fact and start.
  abbrev pub Agrees : List InputRecord → FirstByStart → InputRecord → Type 0
  Agrees inputs first item =
      (r : InputRecord) × (first_of inputs first item ≡ some r)
      × (value_eq r.value item.value ≡ true)

  abbrev pub AllAgree : List InputRecord → FirstByStart → List InputRecord → Type 0
  AllAgree inputs first [] = Unit
  AllAgree inputs first (x ∷ l) = Agrees inputs first x × AllAgree inputs first l

  abbrev pub Extends : FirstByStart → FirstByStart → Type 0
  Extends first last =
      (n i : Str) (d : p.NaiveDate) (k : ℕ) → first n i d ≡ some k → last n i d ≡ some k

  abbrev pub InRange : List InputRecord → FirstByStart → Type 0
  InRange inputs first =
      (n i : Str) (d : p.NaiveDate) (k : ℕ)
      → first n i d ≡ some k
      → (r : InputRecord) × (get_elem? inputs k ≡ some r)

  abbrev pub same_key : InputRecord → Str → Str → p.NaiveDate → Bool
  same_key item n i d = is_for item n i && date_eq d item.interval.start

  pub same_key_self :
      (item : InputRecord) → same_key item item.name item.entity_id item.interval.start ≡ true
  same_key_self item = rw (is_for_self item) (ground (arith, date_ord.cmp_self item.interval.start))

  same_key-read :
      (first : FirstByStart) (item : InputRecord) (n i : Str) (d : p.NaiveDate)
      → same_key item n i d ≡ true
      → first n i d ≡ first item.name item.entity_id item.interval.start
  same_key-read first item n i d h =
      let who = and_left (is_for item n i) (date_eq d item.interval.start) h in
      let when' = and_right (is_for item n i) (date_eq d item.interval.start) h in
      rw (
        is_for-name item n i who,
        is_for-entity item n i who,
        date_eq-eq d item.interval.start when',
      )

  pub remember-same :
      (first : FirstByStart) (item : InputRecord) (index : ℕ) (n i : Str) (d : p.NaiveDate)
      → same_key item n i d ≡ true
      → remember first item index n i d ≡ some index
  remember-same first item index n i d h = rw (remember, h)

  remember-other :
      (first : FirstByStart) (item : InputRecord) (index : ℕ) (n i : Str) (d : p.NaiveDate)
      → same_key item n i d ≡ false
      → remember first item index n i d ≡ first n i d
  remember-other first item index n i d h = rw (remember, h)

  pub remember-Extends :
      (first last : FirstByStart) (item : InputRecord) (index : ℕ)
      → first item.name item.entity_id item.interval.start ≡ none
      → Extends (remember first item index) last
      → Extends first last
  remember-Extends first last item index fresh h n i d k e =
      elim (Bool-cases (same_key item n i d)) [
        | inl same ↦
            let clash : some k ≡ none = sym e ∙ same_key-read first item n i d same ∙ fresh in cc
        | inr other ↦ h n i d k (remember-other first item index n i d other ∙ e)
      ]

  pub remember-InRange :
      (inputs : List InputRecord) (first : FirstByStart) (item : InputRecord) (index : ℕ)
      → get_elem? inputs index ≡ some item
      → InRange inputs first
      → InRange inputs (remember first item index)
  remember-InRange inputs first item index g h n i d k e = elim (Bool-cases (same_key item n i d)) [
    | inl same ↦
        let both : some index ≡ some k = sym (remember-same first item index n i d same) ∙ e in
        let here : index ≡ k = cc in (item, ap (get_elem? inputs) (sym here) ∙ g)
    | inr other ↦ h n i d k (sym (remember-other first item index n i d other) ∙ e)
  ]

  -- Two records that agree with one representative have equal values.
  pub Agrees-value_eq :
      (inputs : List InputRecord) (first : FirstByStart) (a b : InputRecord)
      → Agrees inputs first a
      → Agrees inputs first b
      → first_of inputs first a ≡ first_of inputs first b
      → value_eq a.value b.value ≡ true
  Agrees-value_eq inputs first a b (r, er, vr) (s, es, vs) e =
      let both : some r ≡ some s = sym er ∙ e ∙ es in
      let same : r ≡ s = cc in value_eq-join r.value a.value b.value vr (rw (← same) at vs)
