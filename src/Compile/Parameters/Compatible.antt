-- ===== src/Compile/Parameters/Compatible.antt =====
-- What compatible declarations of a parameter agree on (src/compile.rs,
-- `incompatible_parameter_reason`).
use axiom_rules_engine.Prelude.{
  ℕ, zero, suc, ◌≡◌, refl, sym, ◌∙◌, ap, subst, Bool, true, false, ◌&&◌, not, Option, none, some,
  List, [], ◌∷◌, arith, get_elem?, Bool-cases, inl, inr, if◌then◌else◌, ◌↔◌,
}
use axiom_rules_engine.Prelude.Ord.{Str, str_ord}
use axiom_rules_engine.Prelude.Int.{ℤ}
use axiom_rules_engine.BTree.Laws.{key_eq-eq}
use axiom_rules_engine.Model.Platform.{Platform, date_le, date_lt}
use axiom_rules_engine.Model.Versions.{not_ended}
use axiom_rules_engine.Compile.Parameters.{
  int_eq, same_option, first_mismatch, compared, ScalarValueSpec, bool, integer, decimal, text,
  date, same_value, same_values, ParameterVersionSpec, IndexedParameterSpec,
  parameter_versions_overlap, overlapping, conflict_with, first_conflict,
  incompatible_parameter_reason, RangeChecked, valid, invalid_effective_range, reversed,
  validate_effective_ranges,
}

int_eq-eq : (a b : ℤ) → int_eq a b ≡ true → a ≡ b
int_eq-eq a b h = ground arith

same_option-eq : (a b : Option Str) → same_option a b ≡ true → a ≡ b
same_option-eq none none h = refl
same_option-eq none (some b) h = cc
same_option-eq (some a) none h = cc
same_option-eq (some a) (some b) h = ap some (key_eq-eq a b h)

both : (a b : Bool) → (a && b) ≡ true → (a ≡ true) × (b ≡ true)
both a b h = ground arith

or_else-none {ℓ} :
    {A : Type ℓ} (m later : Option A)
    → (elim m as (λ x. Option A) [ some reason ↦ some reason | none ↦ later ]) ≡ none
    → (m ≡ none) × (later ≡ none)
or_else-none none later h = (refl, h)
or_else-none (some reason) later h = cc

-- A test that would have given a reason did not hold.
test_passes {ℓ} :
    {A : Type ℓ} (test : Bool) (reason : A) (later : Option A)
    → (if test then some reason else later) ≡ none
    → (test ≡ false) × (later ≡ none)
test_passes true reason later h = cc
test_passes false reason later h = (refl, h)

not_both : (a b : Bool) → (a && not b) ≡ false → a ≡ true → b ≡ true
not_both a b h e = ground arith

abbrev AllMatch : List (Str × Bool) → Type 0
AllMatch [] = Unit
AllMatch ((field, matches) ∷ fields) = (matches ≡ true) × AllMatch fields

first_mismatch-AllMatch :
    (fields : List (Str × Bool)) → first_mismatch fields ≡ none → AllMatch fields
first_mismatch-AllMatch [] h = tt
first_mismatch-AllMatch ((field, true) ∷ fields) h = (refl, first_mismatch-AllMatch fields h)
first_mismatch-AllMatch ((field, false) ∷ fields) h = cc

module _ ⦃p : Platform⦄ where
  open p use {NaiveDate, date_ord}

  same_value-eq : (v w : ScalarValueSpec) → same_value v w ≡ true → v ≡ w
  same_value-eq (bool a) (bool b) h = ground arith
  same_value-eq (integer a) (integer b) h = ap integer (int_eq-eq a b h)
  same_value-eq (decimal a) (decimal b) h = ap decimal (key_eq-eq a b h)
  same_value-eq (text a) (text b) h = ap text (key_eq-eq a b h)
  same_value-eq (date a) (date b) h = ap date (ground (arith, date_ord.cmp_eq a b))
  same_value-eq _ _ h = cc

  same_values-eq : (a b : List (ℤ × ScalarValueSpec)) → same_values a b ≡ true → a ≡ b
  same_values-eq [] [] h = refl
  same_values-eq [] (e ∷ b) h = cc
  same_values-eq (e ∷ a) [] h = cc
  same_values-eq ((i, v) ∷ a) ((j, w) ∷ b) h =
      let (keys_eq, rest) = both (int_eq i j) (same_value v w && same_values a b) h in
      let (values_eq, tails) = both (same_value v w) (same_values a b) rest in
      let i_j = int_eq-eq i j keys_eq in
      let v_w = same_value-eq v w values_eq in let a_b = same_values-eq a b tails in cc

  date_le_trans : (a b c : NaiveDate) → date_le a b ≡ true → date_le b c ≡ true → date_le a c ≡ true
  date_le_trans a b c h k = ground (
    arith,
    date_ord.cmp_trans c a b,
    date_ord.cmp_trans a b c,
    date_ord.cmp_trans c b a,
    date_ord.cmp_eq a b,
    date_ord.cmp_eq b c,
    date_ord.cmp_eq a c,
    date_ord.cmp_unflip a c,
    date_ord.cmp_unflip a b,
    date_ord.cmp_unflip b c,
    date_ord.cmp_flip c a,
    date_ord.cmp_flip a b,
    date_ord.cmp_flip b c,
  )

  -- The version is in force at the date.
  abbrev pub InForce : ParameterVersionSpec → NaiveDate → Type 0
  InForce v at' = (date_le v.effective_from at' ≡ true) × (not_ended at' v.effective_to ≡ true)

  not_ended_le :
      (a b : NaiveDate) (e : Option NaiveDate)
      → date_le a b ≡ true
      → not_ended b e ≡ true
      → not_ended a e ≡ true
  not_ended_le a b none h k = refl
  not_ended_le a b (some e) h k = date_le_trans a b e h k

  InForce-overlap :
      (left right : ParameterVersionSpec) (at' : NaiveDate)
      → InForce left at'
      → InForce right at'
      → parameter_versions_overlap left right ≡ true
  unfolding parameter_versions_overlap
  InForce-overlap left right at' l r =
      rw
        (
          not_ended_le right.effective_from at' left.effective_to r.0 l.1,
          not_ended_le left.effective_from at' right.effective_to l.0 r.1,
        )
        refl

  -- Two versions overlap only if some date is in both ranges, where neither range is reversed.
  overlap-InForce :
      (left right : ParameterVersionSpec)
      → reversed left.effective_from left.effective_to ≡ none
      → reversed right.effective_from right.effective_to ≡ none
      → parameter_versions_overlap left right ≡ true
      → (at' : NaiveDate) × InForce left at' × InForce right at'
  unfolding parameter_versions_overlap
  overlap-InForce left right l r h =
      let (a, b) =
        both (not_ended right.effective_from left.effective_to)
          (not_ended left.effective_from right.effective_to) h in
      elim (Bool-cases (date_le left.effective_from right.effective_from)) [
        | inl le ↦ (
          right.effective_from,
          (le, a),
          (date_le_self right.effective_from, own_end right.effective_from right.effective_to r),
        )
        | inr gt ↦ (
          left.effective_from,
          (date_le_self left.effective_from, own_end left.effective_from left.effective_to l),
          (date_ge left.effective_from right.effective_from gt, b),
        )
      ]
    where
      date_le_self : (d : NaiveDate) → date_le d d ≡ true
      date_le_self d = ground (arith, date_ord.cmp_self d)

      date_ge : (d e : NaiveDate) → date_le d e ≡ false → date_le e d ≡ true
      date_ge d e g = ground (arith, date_ord.cmp_unflip d e)

      own_end : (d : NaiveDate) (e : Option NaiveDate) → reversed d e ≡ none → not_ended d e ≡ true
      own_end d none g = refl
      own_end d (some e) g = elim (Bool-cases (date_le d e)) [
        | inl t ↦ t
        | inr f ↦
            let before : date_lt e d ≡ true = ground (arith, date_ord.cmp_unflip d e) in
            let passed = test_passes (date_lt e d) e none g in
            let bad : true ≡ false = sym before ∙ passed.0 in cc
      ]

  conflict_with-none :
      (left : ParameterVersionSpec) (rights : List ParameterVersionSpec) (j : ℕ)
      (right : ParameterVersionSpec)
      → conflict_with left rights ≡ none
      → get_elem? rights j ≡ some right
      → parameter_versions_overlap left right ≡ true
      → left.values ≡ right.values
  conflict_with-none left [] j right h e o = cc
  conflict_with-none left (r ∷ rest) zero right h e o =
      let test = parameter_versions_overlap left r && not (same_values left.values r.values) in
      let passed = test_passes test (overlapping left r) (conflict_with left rest) h in
      let same : r ≡ right = cc in
      let o' : parameter_versions_overlap left r ≡ true =
        subst (λ x. parameter_versions_overlap left x ≡ true) (sym same) o in
      let agreed = same_values-eq left.values r.values (
        not_both (parameter_versions_overlap left r) (same_values left.values r.values) passed.0
          o') in
      subst (λ x. left.values ≡ x.values) same agreed
  conflict_with-none left (r ∷ rest) (suc j) right h e o =
      let test = parameter_versions_overlap left r && not (same_values left.values r.values) in
      let passed = test_passes test (overlapping left r) (conflict_with left rest) h in
      conflict_with-none left rest j right passed.1 e o

  first_conflict-none :
      (lefts duplicate : List ParameterVersionSpec) (i : ℕ) (left : ParameterVersionSpec)
      → first_conflict lefts duplicate ≡ none
      → get_elem? lefts i ≡ some left
      → conflict_with left duplicate ≡ none
  first_conflict-none [] duplicate i left h e = cc
  first_conflict-none (l ∷ rest) duplicate zero left h e =
      let same : l ≡ left = cc in
      subst (λ x. conflict_with x duplicate ≡ none) same
        (or_else-none (conflict_with l duplicate) (first_conflict rest duplicate) h).0
  first_conflict-none (l ∷ rest) duplicate (suc i) left h e =
      first_conflict-none rest duplicate i left
        (or_else-none (conflict_with l duplicate) (first_conflict rest duplicate) h).1 e

  -- Two declarations agree on every field, and on the values at every date.
  abbrev pub Agree : IndexedParameterSpec → IndexedParameterSpec → Type 0
  Agree existing duplicate =
      (existing.id ≡ duplicate.id)
      × (existing.unit ≡ duplicate.unit)
      × (existing.indexed_by ≡ duplicate.indexed_by)
      × (existing.source ≡ duplicate.source)
      × (existing.source_url ≡ duplicate.source_url)
      × (existing.corpus_citation_path ≡ duplicate.corpus_citation_path)
      × ((i j : ℕ) (left right : ParameterVersionSpec) (at' : NaiveDate)
          → get_elem? existing.versions i ≡ some left
          → get_elem? duplicate.versions j ≡ some right
          → InForce left at'
          → InForce right at'
          → left.values ≡ right.values)

  -- If two declarations of a parameter have no reason of incompatibility, then they agree on the id,
  -- the unit, the index, the sources and the citation, and at every date a version of the one and a
  -- version of the other that are in force have the same values.
  pub incompatible_parameter_reason-Agree :
      (existing duplicate : IndexedParameterSpec)
      → incompatible_parameter_reason existing duplicate ≡ none
      → Agree existing duplicate
  unfolding incompatible_parameter_reason
  incompatible_parameter_reason-Agree existing duplicate h =
      let reasons =
        or_else-none (first_mismatch (compared existing duplicate))
          (first_conflict existing.versions duplicate.versions) h in
      let versions = reasons.1 in
      let (ids, (units, (indexes, (sources, (urls, (paths, end)))))) =
        first_mismatch-AllMatch (compared existing duplicate) reasons.0 in
      (
        same_option-eq existing.id duplicate.id ids,
        same_option-eq existing.unit duplicate.unit units,
        same_option-eq existing.indexed_by duplicate.indexed_by indexes,
        same_option-eq existing.source duplicate.source sources,
        same_option-eq existing.source_url duplicate.source_url urls,
        same_option-eq existing.corpus_citation_path duplicate.corpus_citation_path paths,
        λ i j left right at' l r in_left in_right.
            conflict_with-none left duplicate.versions j right
              (first_conflict-none existing.versions duplicate.versions i left versions l) r
              (InForce-overlap left right at' in_left in_right),
      )

  or_valid :
      (end : Option NaiveDate) (rule : Str) (from' : NaiveDate) (later : RangeChecked)
      → (elim end as (λ x. RangeChecked) [
        | some to ↦ invalid_effective_range rule from' to
        | none ↦ later
      ])
        ≡ valid
      → (end ≡ none) × (later ≡ valid)
  or_valid none rule from' later h = (refl, h)
  or_valid (some to) rule from' later h = cc

  -- If the check of dates accepts the ranges of two versions, then they count as overlapping exactly
  -- when both are in force at some date.
  pub parameter_versions_overlap-InForce :
      (rule : Str) (left right : ParameterVersionSpec)
      → validate_effective_ranges rule (
          (left.effective_from, left.effective_to)
          ∷ (right.effective_from, right.effective_to)
          ∷ [])
        ≡ valid
      → (parameter_versions_overlap left right ≡ true)
        ↔ ((at' : NaiveDate) × InForce left at' × InForce right at')
  unfolding validate_effective_ranges
  parameter_versions_overlap-InForce rule left right h =
      let after_left = or_valid (reversed left.effective_from left.effective_to) _ _ _ h in
      let after_right =
        or_valid (reversed right.effective_from right.effective_to) _ _ _ after_left.1 in
      (
        overlap-InForce left right after_left.0 after_right.0,
        λ (at', l, r). InForce-overlap left right at' l r,
      )
