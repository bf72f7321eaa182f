-- ===== src/Units/Division/Held.antt =====
-- Who stands in the blocks of a world (src/unit_derivation/evaluate.rs, `evaluate_world`).
use axiom_rules_engine.Prelude.{
  ◌≡◌, refl, sym, ◌∙◌, subst, Bool, true, false, ◌&&◌, ◌||◌, not, List, [], ◌∷◌, map, All,
  All-of_In, All-at, In, here, there, In-cons, Bool-cases, inl, inr, ◌⊎◌, arith,
}
use axiom_rules_engine.Prelude.Ord.{Str, str_ord}
use axiom_rules_engine.BTree.{Set, mem, set_insert, key_eq}
use axiom_rules_engine.BTree.Laws.{mem-set_insert, key_eq-eq}
use axiom_rules_engine.Units.Components.Separate.{Disjoint, Separate}
use axiom_rules_engine.Units.Division.{minus, extend_set, push_block, nonempty}

pub mem-minus : (u : Str) (a b : Set Str) → mem u (minus a b) ≡ (mem u a && not (mem u b))
mem-minus u [] b = refl
mem-minus u (x ∷ a) b = elim (Bool-cases (mem x b)) [
  | inl t ↦ rw (t, mem-minus u a b) (dropped (Bool-cases (key_eq u x)) t)
  | inr f ↦ rw (f, mem-minus u a b) (kept (Bool-cases (key_eq u x)) f)
]
  where
    dropped :
        (key_eq u x ≡ true) ⊎ (key_eq u x ≡ false)
        → mem x b ≡ true
        → (mem u a && not (mem u b)) ≡ ((key_eq u x || mem u a) && not (mem u b))
    dropped (inl s) t =
        let there' : mem u b ≡ true = subst (λ y. mem y b ≡ true) (sym (key_eq-eq u x s)) t in
        rw (there', s) (ground arith)
    dropped (inr n) t = rw n refl

    kept :
        (key_eq u x ≡ true) ⊎ (key_eq u x ≡ false)
        → mem x b ≡ false
        → (key_eq u x || (mem u a && not (mem u b))) ≡ ((key_eq u x || mem u a) && not (mem u b))
    kept (inl s) f =
        let absent : mem u b ≡ false = subst (λ y. mem y b ≡ false) (sym (key_eq-eq u x s)) f in
        rw (absent, s) refl
    kept (inr n) f = rw n refl

pub mem-extend_set : (u : Str) (a s : Set Str) → mem u (extend_set a s) ≡ (mem u a || mem u s)
mem-extend_set u [] s = refl
mem-extend_set u (x ∷ a) s =
    ground (arith, mem-extend_set u a (set_insert x s), mem-set_insert u x s)

-- A person stands in some block.
abbrev pub Held : Str → List (Set Str) → Type 0
Held u blocks = (b : Set Str) × In b blocks × (mem u b ≡ true)

pub Held-there :
    (u : Str) (b : Set Str) (blocks : List (Set Str)) → Held u blocks → Held u (b ∷ blocks)
Held-there u b blocks (c, i, m) = (c, there i, m)

pub Held-cons :
    (u : Str) (b : Set Str) (blocks : List (Set Str))
    → Held u (b ∷ blocks)
    → (mem u b ≡ true) ⊎ Held u blocks
Held-cons u b blocks (c, i, m) = elim (In-cons c b blocks i) [
  | inl same ↦ inl (subst (λ x. mem u x ≡ true) same m)
  | inr j ↦ inr (c, j, m)
]

-- To be disjoint from all blocks is to hold no person of theirs.
pub All-Disjoint :
    (b : Set Str) (blocks : List (Set Str))
    → ((u : Str) → mem u b ≡ true → Held u blocks → ⊥)
    → All (Disjoint b) blocks
All-Disjoint b blocks h =
    All-of_In (Disjoint b) blocks
      (λ c i u m. elim (Bool-cases (mem u c)) [ inl t ↦ absurd (h u m (c, i, t)) | inr f ↦ f ])

pub Disjoint-Held :
    (u : Str) (b : Set Str) (blocks : List (Set Str))
    → All (Disjoint b) blocks
    → mem u b ≡ true
    → Held u blocks
    → ⊥
Disjoint-Held u b blocks d m (c, i, n) = clash (sym n ∙ All-at (Disjoint b) blocks c d i u m)
  where
    clash : true ≡ false → ⊥
    clash e = cc

pub push_block-Held :
    (u : Str) (b : Set Str) (blocks : List (Set Str))
    → Held u (push_block b blocks)
    → Held u (b ∷ blocks)
push_block-Held u [] blocks h = Held-there u [] blocks h
push_block-Held u (p ∷ b) blocks h = h

pub Held-push_block :
    (u : Str) (b : Set Str) (blocks : List (Set Str))
    → Held u (b ∷ blocks)
    → Held u (push_block b blocks)
Held-push_block u (p ∷ b) blocks h = h
Held-push_block u [] blocks h = elim (Held-cons u [] blocks h) [
  | inl e ↦ absurd (clash e)
  | inr later ↦ later
]
  where
    clash : false ≡ true → ⊥
    clash e = cc

pub push_block-Separate :
    (b : Set Str) (blocks : List (Set Str)) → Separate (b ∷ blocks) → Separate (push_block b blocks)
push_block-Separate [] blocks s = s.1
push_block-Separate (p ∷ b) blocks s = s

pub nonempty-Held : (u : Str) (blocks : List (Set Str)) → Held u (nonempty blocks) → Held u blocks
nonempty-Held u [] h = h
nonempty-Held u (b ∷ blocks) h =
    elim (Held-cons u b (nonempty blocks) (push_block-Held u b (nonempty blocks) h)) [
      | inl m ↦ (b, here, m)
      | inr later ↦ Held-there u b blocks (nonempty-Held u blocks later)
    ]

pub Held-nonempty : (u : Str) (blocks : List (Set Str)) → Held u blocks → Held u (nonempty blocks)
Held-nonempty u [] h = h
Held-nonempty u (b ∷ blocks) h =
    Held-push_block u b (nonempty blocks) (elim (Held-cons u b blocks h) [
      | inl m ↦ (b, here, m)
      | inr later ↦ Held-there u b (nonempty blocks) (Held-nonempty u blocks later)
    ])

pub nonempty-Separate : (blocks : List (Set Str)) → Separate blocks → Separate (nonempty blocks)
nonempty-Separate [] s = s
nonempty-Separate (b ∷ blocks) s = push_block-Separate b (nonempty blocks) (
  All-Disjoint b (nonempty blocks)
      (λ u m h. Disjoint-Held u b blocks s.0 m (nonempty-Held u blocks h)),
  nonempty-Separate blocks s.1,
)

-- The persons who move leave their blocks.
abbrev pub left_by : Set Str → List (Set Str) → List (Set Str)
left_by moving blocks = map (λ block. minus block moving) blocks

pub left_by-Held :
    (u : Str) (moving : Set Str) (blocks : List (Set Str))
    → Held u (left_by moving blocks)
    → Held u blocks × (mem u moving ≡ false)
left_by-Held u moving [] (c, i, m) = elim i [ ]
left_by-Held u moving (b ∷ blocks) h =
    elim (Held-cons u (minus b moving) (left_by moving blocks) h) [
      | inl m ↦
          let both = sym (mem-minus u b moving) ∙ m in
          ((b, here, first (mem u b) (mem u moving) both), second (mem u b) (mem u moving) both)
      | inr later ↦
          let rest = left_by-Held u moving blocks later in (Held-there u b blocks rest.0, rest.1)
    ]
  where
    first : (a b' : Bool) → (a && not b') ≡ true → a ≡ true
    first a b' e = ground arith

    second : (a b' : Bool) → (a && not b') ≡ true → b' ≡ false
    second a b' e = ground arith

pub Held-left_by :
    (u : Str) (moving : Set Str) (blocks : List (Set Str))
    → mem u moving ≡ false
    → Held u blocks
    → Held u (left_by moving blocks)
Held-left_by u moving [] n h = h
Held-left_by u moving (b ∷ blocks) n h = elim (Held-cons u b blocks h) [
  | inl m ↦ (minus b moving, here, mem-minus u b moving ∙ rw (m, n) refl)
  | inr later ↦
      Held-there u (minus b moving) (left_by moving blocks) (Held-left_by u moving blocks n later)
]

pub left_by-Separate :
    (moving : Set Str) (blocks : List (Set Str))
    → Separate blocks
    → Separate (left_by moving blocks)
left_by-Separate moving [] s = s
left_by-Separate moving (b ∷ blocks) s = (
  All-Disjoint (minus b moving) (left_by moving blocks) (λ u m h.
      Disjoint-Held u b blocks s.0 (first (mem u b) (mem u moving) (sym (mem-minus u b moving) ∙ m))
        (left_by-Held u moving blocks h).0),
  left_by-Separate moving blocks s.1,
)
  where
    first : (a b' : Bool) → (a && not b') ≡ true → a ≡ true
    first a b' e = ground arith
