-- ===== src/Engine/Inputs/Latest.antt =====
-- The record that has precedence: the first of those that start latest. The sorted index of explain
-- puts it in front of the covering records.
use axiom_rules_engine.Prelude.{
  ◌≡◌, refl, sym, ◌∙◌, Bool, true, false, Option, none, some, List, [], ◌∷◌, ◌++◌, arith,
  append-nil, append_assoc, if◌then◌else◌, Bool-cases, inl, inr,
}
use axiom_rules_engine.Prelude.Ord.{Str, str_ord}
use axiom_rules_engine.Model.Platform.{Platform, date_lt, not-lt_trans}
use axiom_rules_engine.Model.Data.{Period, InputRecord, contains_period}
use axiom_rules_engine.Engine.Inputs.{
  is_for, InputIndex, push, index_inputs, insert_by_start, sort_by_start, covering_records,
}

module _ ⦃p : Platform⦄ where
  open p use {NaiveDate, date_ord}

  -- The records for one fact.
  abbrev pub matching : Str → Str → List InputRecord → List InputRecord
  matching name entity_id [] = []
  matching name entity_id (r ∷ l) =
      if is_for r name entity_id then r ∷ matching name entity_id l else matching name entity_id l

  abbrev pub head? : List InputRecord → Option InputRecord
  head? [] = none
  head? (r ∷ l) = some r

  -- The first of the two, unless the second starts later.
  abbrev pub prefer : InputRecord → Option InputRecord → Option InputRecord
  prefer r none = some r
  prefer r (some s) = if date_lt r.interval.start s.interval.start then some s else some r

  abbrev pub latest : List InputRecord → Option InputRecord
  latest [] = none
  latest (r ∷ l) = prefer r (latest l)

  push_split :
      (b : Bool) (r : InputRecord) (xs ys : List InputRecord)
      → (if b then xs ++ r ∷ [] else xs) ++ ys ≡ xs ++ (if b then r ∷ ys else ys)
  push_split true r xs ys = append_assoc xs (r ∷ []) ys
  push_split false r xs ys = refl

  pub index_inputs-matching :
      (index : InputIndex) (l : List InputRecord) (name entity_id : Str)
      → index_inputs index l name entity_id ≡ index name entity_id ++ matching name entity_id l
  unfolding index_inputs
  index_inputs-matching index [] name entity_id = sym (append-nil _)
  index_inputs-matching index (r ∷ l) name entity_id =
      index_inputs-matching (push index r) l name entity_id
      ∙ push_split (is_for r name entity_id) r (index name entity_id) (matching name entity_id l)

  -- No record of `l` starts after `r`.
  abbrev pub AllWithin : InputRecord → List InputRecord → Type 0
  AllWithin r [] = Unit
  AllWithin r (s ∷ l) = (date_lt r.interval.start s.interval.start ≡ false) × AllWithin r l

  abbrev pub IsDescending : List InputRecord → Type 0
  IsDescending [] = Unit
  IsDescending (r ∷ l) = AllWithin r l × IsDescending l

  abbrev pub covers : Period → InputRecord → Bool
  covers period r = contains_period r.interval period

  prefer_within :
      (period : Period) (x : InputRecord) (l : List InputRecord)
      → AllWithin x l
      → prefer x (head? (covering_records period l)) ≡ some x
  prefer_within period x [] a = refl
  prefer_within period x (s ∷ l) a = elim (Bool-cases (covers period s)) [
    | inl c ↦ rw (c, a.0)
    | inr c ↦ rw c (prefer_within period x l a.1)
  ]

  AllWithin-insert :
      (r x : InputRecord) (l : List InputRecord)
      → date_lt r.interval.start x.interval.start ≡ false
      → AllWithin r l
      → AllWithin r (insert_by_start x l)
  unfolding insert_by_start
  AllWithin-insert r x [] h a = (h, tt)
  AllWithin-insert r x (z ∷ l) h a = elim (Bool-cases (date_lt x.interval.start z.interval.start)) [
    | inl lt ↦ rw lt (a.0, AllWithin-insert r x l h a.1)
    | inr ge ↦ rw ge (h, a)
  ]

  AllWithin-trans :
      (r z : InputRecord) (l : List InputRecord)
      → date_lt r.interval.start z.interval.start ≡ false
      → AllWithin z l
      → AllWithin r l
  AllWithin-trans r z [] h a = tt
  AllWithin-trans r z (s ∷ l) h a = (not-lt_trans _ _ _ h a.0, AllWithin-trans r z l h a.1)

  not-lt_of_lt : (a b : NaiveDate) → date_lt a b ≡ true → date_lt b a ≡ false
  not-lt_of_lt a b h = ground (arith, date_ord.cmp_flip a b)

  insert-IsDescending :
      (x : InputRecord) (l : List InputRecord) → IsDescending l → IsDescending (insert_by_start x l)
  unfolding insert_by_start
  insert-IsDescending x [] d = (tt, tt)
  insert-IsDescending x (z ∷ l) d = elim (Bool-cases (date_lt x.interval.start z.interval.start)) [
    | inl lt ↦ rw lt (AllWithin-insert z x l (not-lt_of_lt _ _ lt) d.0, insert-IsDescending x l d.1)
    | inr ge ↦ rw ge ((ge, AllWithin-trans x z l ge d.0), d)
  ]

  sort-IsDescending : (l : List InputRecord) → IsDescending (sort_by_start l)
  unfolding sort_by_start
  sort-IsDescending [] = tt
  sort-IsDescending (x ∷ l) = insert-IsDescending x (sort_by_start l) (sort-IsDescending l)

  if_same : (b : Bool) {o : Option InputRecord} → (if b then o else o) ≡ o
  if_same true = refl
  if_same false = refl

  head-insert :
      (period : Period) (x : InputRecord) (l : List InputRecord)
      → IsDescending l
      → head? (covering_records period (insert_by_start x l)) ≡ (
          if covers period x
          then prefer x (head? (covering_records period l))
          else head? (covering_records period l))
  unfolding insert_by_start
  head-insert period x [] d = ground arith
  head-insert period x (z ∷ l) d = elim (Bool-cases (date_lt x.interval.start z.interval.start)) [
    | inl lt ↦ elim (Bool-cases (covers period z)) [
      | inl c ↦ rw (lt, c, lt) (sym (if_same (covers period x)))
      | inr c ↦ rw (lt, c) (head-insert period x l d.1)
    ]
    | inr ge ↦ elim (Bool-cases (covers period x)) [
      | inl c ↦ rw (ge, c) (sym (prefer_within period x (z ∷ l) (ge, AllWithin-trans x z l ge d.0)))
      | inr c ↦ rw (ge, c)
    ]
  ]

  latest_if :
      (b : Bool) (x : InputRecord) (l : List InputRecord)
      → latest (if b then x ∷ l else l) ≡ (if b then prefer x (latest l) else latest l)
  latest_if true x l = refl
  latest_if false x l = refl

  -- The first record that covers the period in the sorted list is, of the records that cover it,
  -- the first in the given order of those that start last, and there is none in either if no
  -- record covers it.
  pub head-sort :
      (period : Period) (l : List InputRecord)
      → head? (covering_records period (sort_by_start l)) ≡ latest (covering_records period l)
  unfolding sort_by_start
  head-sort period [] = refl
  head-sort period (x ∷ l) =
      head-insert period x (sort_by_start l) (sort-IsDescending l)
      ∙ rw (head-sort period l) (sym (latest_if (covers period x) x (covering_records period l)))
