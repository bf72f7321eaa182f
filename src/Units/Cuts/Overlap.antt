-- ===== src/Units/Cuts/Overlap.antt =====
-- What the rejection of overlapping cuts leaves (src/unit_derivation/evaluate.rs, `evaluate_world`).
use axiom_rules_engine.Prelude.{
  ℕ, suc, ◌≡◌, refl, sym, ◌∙◌, subst, Bool, true, false, ◌&&◌, ◌||◌, not, List, [], ◌∷◌, All,
  All-at, In, here, there, In-cons, Bool-cases, inl, inr, arith, if◌then◌else◌,
}
use axiom_rules_engine.Prelude.Ord.{Str, str_ord, nat_ord}
use axiom_rules_engine.BTree.{Set, mem, set_insert, key_eq}
use axiom_rules_engine.BTree.Laws.{mem-set_insert, key_eq-eq, key_eq_self}
use axiom_rules_engine.Units.Components.Separate.{Disjoint, Separate}
use axiom_rules_engine.Units.Division.{ActiveCut}
use axiom_rules_engine.Units.Division.Cuts.{members_of}
use axiom_rules_engine.Units.Cuts.{
  is_disjoint, reject_with, reject_from, keep_from, reject_overlaps,
}

pub is_disjoint-Disjoint : (a b : Set Str) → is_disjoint a b ≡ true → Disjoint a b
is_disjoint-Disjoint [] b h u m = cc
is_disjoint-Disjoint (x ∷ a) b h u m =
    let parts = both (mem x b) (is_disjoint a b) h in
    elim (Bool-cases (key_eq u x)) [
      | inl t ↦ subst (λ y. mem y b ≡ false) (sym (key_eq-eq u x t)) parts.0
      | inr f ↦ is_disjoint-Disjoint a b parts.1 u (subst (λ (v : Bool). (v || mem u a) ≡ true) f m)
    ]
  where
    both : (p q : Bool) → (not p && q) ≡ true → (p ≡ false) × (q ≡ true)
    both p q e = ground arith

after_insert : (k i : ℕ) (s : Set ℕ) → mem k s ≡ true → mem k (set_insert i s) ≡ true
after_insert k i s h = mem-set_insert k i s ∙ rw h (right (key_eq k i))
  where
    right : (a : Bool) → (a || true) ≡ true
    right a = ground arith

inserted : (i : ℕ) (s : Set ℕ) → mem i (set_insert i s) ≡ true
inserted i s = mem-set_insert i i s ∙ rw (key_eq_self i) refl

-- What is rejected stays rejected.
reject_with-mem :
    (k i : ℕ) (left : ActiveCut) (j : ℕ) (cuts : List ActiveCut) (rejected : Set ℕ)
    → mem k rejected ≡ true
    → mem k (reject_with i left j cuts rejected) ≡ true
reject_with-mem k i left j [] rejected h = h
reject_with-mem k i left j (right ∷ cuts) rejected h =
    elim (Bool-cases (is_disjoint left.members right.members)) [
      | inl t ↦ rw t (reject_with-mem k i left (suc j) cuts rejected h)
      | inr f ↦ rw f (
          reject_with-mem k i left (suc j) cuts (set_insert j (set_insert i rejected))
            (after_insert k j (set_insert i rejected) (after_insert k i rejected h)))
    ]

reject_from-mem :
    (k i : ℕ) (cuts : List ActiveCut) (rejected : Set ℕ)
    → mem k rejected ≡ true
    → mem k (reject_from i cuts rejected) ≡ true
reject_from-mem k i [] rejected h = h
reject_from-mem k i (left ∷ cuts) rejected h =
    reject_from-mem k (suc i) cuts (reject_with i left (suc i) cuts rejected)
      (reject_with-mem k i left (suc i) cuts rejected h)

-- A cut that is not rejected is disjoint from those at later places.
reject_with-disjoint :
    (i : ℕ) (left : ActiveCut) (j : ℕ) (cuts : List ActiveCut) (rejected : Set ℕ)
    → mem i (reject_with i left j cuts rejected) ≡ false
    → All (λ right. is_disjoint left.members right.members ≡ true) cuts
reject_with-disjoint i left j [] rejected h = tt
reject_with-disjoint i left j (right ∷ cuts) rejected h =
    elim (Bool-cases (is_disjoint left.members right.members)) [
      | inl t ↦ (
        t,
        reject_with-disjoint i left (suc j) cuts rejected (
            subst
              (λ (x : Bool).
                mem i (
                  reject_with i left (suc j) cuts
                    (if x then rejected else set_insert j (set_insert i rejected)))
                ≡ false)
              t h),
      )
      | inr f ↦
          let known =
            reject_with-mem i i left (suc j) cuts (set_insert j (set_insert i rejected))
              (after_insert i j (set_insert i rejected) (inserted i rejected)) in
          let again =
            subst
              (λ (x : Bool).
                mem i (
                  reject_with i left (suc j) cuts
                    (if x then rejected else set_insert j (set_insert i rejected)))
                ≡ false)
              f h in
          absurd (clash (sym known ∙ again))
    ]
  where
    clash : true ≡ false → ⊥
    clash e = cc

keep_from-In :
    (i : ℕ) (rejected : Set ℕ) (cuts : List ActiveCut) (c : ActiveCut)
    → In c (keep_from i rejected cuts)
    → In c cuts
keep_from-In i rejected [] c h = h
keep_from-In i rejected (cut ∷ cuts) c h = elim (Bool-cases (mem i rejected)) [
  | inl t ↦ there (
      keep_from-In (suc i) rejected cuts c (
        subst
          (λ (x : Bool).
            In c (
              if x then keep_from (suc i) rejected cuts else cut ∷ keep_from (suc i) rejected cuts))
          t h))
  | inr f ↦
      elim (In-cons c cut (keep_from (suc i) rejected cuts) (
        subst
          (λ (x : Bool).
            In c (
              if x then keep_from (suc i) rejected cuts else cut ∷ keep_from (suc i) rejected cuts))
          f h)) [
            | inl same ↦ subst (λ x. In c (x ∷ cuts)) same here
            | inr j ↦ there (keep_from-In (suc i) rejected cuts c j)
          ]
]

pub map-All :
    (P : Set Str → Type 0) (cuts : List ActiveCut)
    → ((c : ActiveCut) → In c cuts → P c.members)
    → All P (members_of cuts)
map-All P [] h = tt
map-All P (c ∷ cuts) h = (h c here, map-All P cuts (λ d i. h d (there i)))

keep_from-Separate :
    (i : ℕ) (cuts : List ActiveCut) (rejected : Set ℕ)
    → Separate (members_of (keep_from i (reject_from i cuts rejected) cuts))
keep_from-Separate i [] rejected = tt
keep_from-Separate i (cut ∷ cuts) rejected = elim (Bool-cases (mem i final)) [
  | inl t ↦ rw t (keep_from-Separate (suc i) cuts (reject_with i cut (suc i) cuts rejected))
  | inr f ↦ rw f (
    map-All (Disjoint cut.members) (keep_from (suc i) final cuts) (λ c j.
        is_disjoint-Disjoint cut.members c.members (
          All-at (λ right. is_disjoint cut.members right.members ≡ true) cuts c (alone f)
            (keep_from-In (suc i) final cuts c j))),
    keep_from-Separate (suc i) cuts (reject_with i cut (suc i) cuts rejected),
  )
]
  where
    final : Set ℕ
    final = reject_from (suc i) cuts (reject_with i cut (suc i) cuts rejected)

    alone : mem i final ≡ false → All (λ right. is_disjoint cut.members right.members ≡ true) cuts
    alone f =
        reject_with-disjoint i cut (suc i) cuts rejected
          (elim (Bool-cases (mem i (reject_with i cut (suc i) cuts rejected))) [
            | inl t ↦ absurd (
                clash (
                  sym (reject_from-mem i (suc i) cuts (reject_with i cut (suc i) cuts rejected) t)
                  ∙ f))
            | inr g ↦ g
          ])
      where
        clash : true ≡ false → ⊥
        clash e = cc

-- The cuts that are left share no person.
pub reject_overlaps-Separate :
    (cuts : List ActiveCut) → Separate (members_of (reject_overlaps cuts))
unfolding reject_overlaps
reject_overlaps-Separate cuts = keep_from-Separate 0 cuts []

pub reject_overlaps-In :
    (cuts : List ActiveCut) (c : ActiveCut) → In c (reject_overlaps cuts) → In c cuts
unfolding reject_overlaps
reject_overlaps-In cuts c i = keep_from-In 0 (reject_from 0 cuts []) cuts c i
