-- ===== src/Units/Division/Moves.antt =====
-- Attachments move persons between blocks (src/unit_derivation/evaluate.rs, `evaluate_world`).
use axiom_rules_engine.Prelude.{
  ℕ, zero, suc, ◌≡◌, refl, sym, ◌∙◌, ap, subst, Bool, true, false, ◌||◌, none, some, List, [], ◌∷◌,
  length, ◌<◌, In, here, there, Bool-cases, Option-cases, inl, inr, ◌⊎◌, arith, if◌then◌else◌,
}
use axiom_rules_engine.Prelude.Ord.{Str, str_ord}
use axiom_rules_engine.BTree.{Set, mem}
use axiom_rules_engine.Units.Components.Separate.{Separate}
use axiom_rules_engine.Units.Division.{extend_set, position, later_position, extend_at, move_to}
use axiom_rules_engine.Units.Division.Held.{
  mem-extend_set, Held, Held-there, Held-cons, All-Disjoint, Disjoint-Held, nonempty-Held,
  Held-nonempty, nonempty-Separate, left_by, left_by-Held, Held-left_by, left_by-Separate,
}

-- The blocks hold the persons who pass the test, and no two of them share one.
pub record Divides (test : Str → Bool) (blocks : List (Set Str)) : Type 0 where
  pub covered : (u : Str) → test u ≡ true → Held u blocks
  pub inside : (u : Str) → Held u blocks → test u ≡ true
  pub separate : Separate blocks

extend_at-Held :
    (i : ℕ) (u : Str) (moving : Set Str) (blocks : List (Set Str))
    → Held u (extend_at i moving blocks)
    → (mem u moving ≡ true) ⊎ Held u blocks
extend_at-Held i u moving [] h = inr h
extend_at-Held zero u moving (b ∷ blocks) h = elim (Held-cons u (extend_set moving b) blocks h) [
  | inl m ↦ either (Bool-cases (mem u moving)) (sym (mem-extend_set u moving b) ∙ m)
  | inr later ↦ inr (Held-there u b blocks later)
]
  where
    either :
        (mem u moving ≡ true) ⊎ (mem u moving ≡ false)
        → (mem u moving || mem u b) ≡ true
        → (mem u moving ≡ true) ⊎ Held u (b ∷ blocks)
    either (inl t) e = inl t
    either (inr f) e = inr (b, here, subst (λ (x : Bool). (x || mem u b) ≡ true) f e)
extend_at-Held (suc i) u moving (b ∷ blocks) h =
    elim (Held-cons u b (extend_at i moving blocks) h) [
      | inl m ↦ inr (b, here, m)
      | inr later ↦ elim (extend_at-Held i u moving blocks later) [
        | inl m ↦ inl m
        | inr rest ↦ inr (Held-there u b blocks rest)
      ]
    ]

Held-extend_at :
    (i : ℕ) (u : Str) (moving : Set Str) (blocks : List (Set Str))
    → Held u blocks
    → Held u (extend_at i moving blocks)
Held-extend_at i u moving [] h = h
Held-extend_at zero u moving (b ∷ blocks) h = elim (Held-cons u b blocks h) [
  | inl m ↦
      (extend_set moving b, here, mem-extend_set u moving b ∙ right (mem u moving) (mem u b) m)
  | inr later ↦ Held-there u (extend_set moving b) blocks later
]
  where
    right : (a b' : Bool) → b' ≡ true → (a || b') ≡ true
    right a b' e = ground arith
Held-extend_at (suc i) u moving (b ∷ blocks) h = elim (Held-cons u b blocks h) [
  | inl m ↦ (b, here, m)
  | inr later ↦ Held-there u b (extend_at i moving blocks) (Held-extend_at i u moving blocks later)
]

-- At a place in the list, those who move stand there.
moving-Held :
    (i : ℕ) (u : Str) (moving : Set Str) (blocks : List (Set Str))
    → i < length blocks
    → mem u moving ≡ true
    → Held u (extend_at i moving blocks)
moving-Held i u moving [] h m = absurd (omega arith)
moving-Held zero u moving (b ∷ blocks) h m =
    (extend_set moving b, here, mem-extend_set u moving b ∙ rw m refl)
moving-Held (suc i) u moving (b ∷ blocks) h m =
    Held-there u b (extend_at i moving blocks) (moving-Held i u moving blocks (omega arith) m)

extend_at-Separate :
    (i : ℕ) (moving : Set Str) (blocks : List (Set Str))
    → Separate blocks
    → ((u : Str) → mem u moving ≡ true → Held u blocks → ⊥)
    → Separate (extend_at i moving blocks)
extend_at-Separate i moving [] s h = s
extend_at-Separate zero moving (b ∷ blocks) s h = (
  All-Disjoint (extend_set moving b) blocks (λ u m later.
      elim (extend_at-Held zero u moving (b ∷ []) (extend_set moving b, here, m)) [
        | inl t ↦ h u t (Held-there u b blocks later)
        | inr (c, here, n) ↦ Disjoint-Held u b blocks s.0 n later
        | inr (c, there j, n) ↦ none_in c j
      ]),
  s.1,
)
  where
    none_in : (c : Set Str) → In c [] → ⊥
    none_in c j = elim j [ ]
extend_at-Separate (suc i) moving (b ∷ blocks) s h = (
  All-Disjoint b (extend_at i moving blocks) (λ u m later.
      elim (extend_at-Held i u moving blocks later) [
        | inl t ↦ h u t (b, here, m)
        | inr rest ↦ Disjoint-Held u b blocks s.0 m rest
      ]),
  extend_at-Separate i moving blocks s.1 (λ u m later. h u m (Held-there u b blocks later)),
)

length-left_by :
    (moving : Set Str) (blocks : List (Set Str)) → length (left_by moving blocks) ≡ length blocks
length-left_by moving [] = refl
length-left_by moving (b ∷ blocks) = ap suc (length-left_by moving blocks)

pub move_to-Divides :
    (test : Str → Bool) (i : ℕ) (moving : Set Str) (blocks : List (Set Str))
    → i < length blocks
    → ((u : Str) → mem u moving ≡ true → test u ≡ true)
    → Divides test blocks
    → Divides test (move_to i moving blocks)
move_to-Divides test i moving blocks h within' d = record {
  covered = λ u t.
      Held-nonempty u (extend_at i moving (left_by moving blocks))
        (elim (Bool-cases (mem u moving)) [
          | inl m ↦
              moving-Held i u moving (left_by moving blocks)
                (omega (arith, h, length-left_by moving blocks)) m
          | inr n ↦
              Held-extend_at i u moving (left_by moving blocks)
                (Held-left_by u moving blocks n (d.covered u t))
        ]);
  inside = λ u held.
      elim (extend_at-Held i u moving (left_by moving blocks)
        (nonempty-Held u (extend_at i moving (left_by moving blocks)) held)) [
          | inl m ↦ within' u m
          | inr rest ↦ d.inside u (left_by-Held u moving blocks rest).0
        ];
  separate = nonempty-Separate (extend_at i moving (left_by moving blocks)) (
      extend_at-Separate i moving (left_by moving blocks)
        (left_by-Separate moving blocks d.separate)
        (λ u m held. clash (sym m ∙ (left_by-Held u moving blocks held).1)));
}
  where
    clash : true ≡ false → ⊥
    clash e = cc

pub position-lt :
    (person : Str) (blocks : List (Set Str)) (i : ℕ)
    → position person blocks ≡ some i
    → i < length blocks
position-lt person [] i e = cc
position-lt person (b ∷ blocks) i e = elim (Bool-cases (mem person b)) [
  | inl t ↦
      let first : some 0 ≡ some i =
        subst
          (λ (x : Bool). (if x then some 0 else later_position (position person blocks)) ≡ some i) t
          e in
      let zero' : 0 ≡ i = cc in omega arith
  | inr f ↦
      let later : later_position (position person blocks) ≡ some i =
        subst
          (λ (x : Bool). (if x then some 0 else later_position (position person blocks)) ≡ some i) f
          e in
      elim (Option-cases (position person blocks)) [
        | inl none' ↦
            let clash : none ≡ some i = subst (λ o. later_position o ≡ some i) none' later in cc
        | inr (j, found) ↦
            let there' : some (suc j) ≡ some i =
              subst (λ o. later_position o ≡ some i) found later in
            let same : suc j ≡ i = cc in omega (arith, position-lt person blocks j found, same)
      ]
]
