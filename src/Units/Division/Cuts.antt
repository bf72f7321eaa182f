-- ===== src/Units/Division/Cuts.antt =====
-- The cuts that were applied are blocks, and the components divide the others
-- (src/unit_derivation/evaluate.rs, `evaluate_world`).
use axiom_rules_engine.Prelude.{
  ◌≡◌, refl, sym, ◌∙◌, ap, subst, Bool, true, false, ◌&&◌, ◌||◌, not, some, List, [], ◌∷◌, ◌++◌,
  map, here, In-append, In-left, In-right, Bool-cases, inl, inr, ◌⊎◌, arith,
}
use axiom_rules_engine.Prelude.Ord.{Str, str_ord}
use axiom_rules_engine.BTree.{Set, mem}
use axiom_rules_engine.Units.Components.{FrozenEdge}
use axiom_rules_engine.Units.Components.Separate.{Separate}
use axiom_rules_engine.Units.Components.Connected.{graph_components-IsComponents}
use axiom_rules_engine.Units.Division.{
  ActiveCut, minus, extend_set, cut_blocks, cut_members, residue, within, extend_blocks,
  first_blocks,
}
use axiom_rules_engine.Units.Division.Held.{
  mem-minus, mem-extend_set, Held, Held-there, Held-cons, All-Disjoint, Disjoint-Held,
  push_block-Held, Held-push_block, push_block-Separate,
}
use axiom_rules_engine.Units.Division.Moves.{Divides}

-- A person of a cut who is not excluded.
abbrev pub in_cuts : Set Str → Str → List ActiveCut → Bool
in_cuts excluded u [] = false
in_cuts excluded u (cut ∷ cuts) = mem u (minus cut.members excluded) || in_cuts excluded u cuts

abbrev pub members_of : List ActiveCut → List (Set Str)
members_of cuts = map (λ cut. cut.members) cuts

pub mem-cut_members :
    (u : Str) (excluded : Set Str) (cuts : List ActiveCut) (s : Set Str)
    → mem u (cut_members excluded cuts s) ≡ (in_cuts excluded u cuts || mem u s)
mem-cut_members u excluded [] s = refl
mem-cut_members u excluded (cut ∷ cuts) s = ground (
  arith,
  mem-cut_members u excluded cuts (extend_set (minus cut.members excluded) s),
  mem-extend_set u (minus cut.members excluded) s,
)

of_minus :
    (u : Str) (a b : Set Str) → mem u (minus a b) ≡ true → (mem u a ≡ true) × (mem u b ≡ false)
of_minus u a b m = parts (mem u a) (mem u b) (sym (mem-minus u a b) ∙ m)
  where
    parts : (x y : Bool) → (x && not y) ≡ true → (x ≡ true) × (y ≡ false)
    parts x y e = ground arith

pub in_cuts-Held :
    (u : Str) (excluded : Set Str) (cuts : List ActiveCut)
    → in_cuts excluded u cuts ≡ true
    → Held u (members_of cuts) × (mem u excluded ≡ false)
in_cuts-Held u excluded [] h = cc
in_cuts-Held u excluded (cut ∷ cuts) h = elim (Bool-cases (mem u (minus cut.members excluded))) [
  | inl m ↦ let parts = of_minus u cut.members excluded m in ((cut.members, here, parts.0), parts.1)
  | inr n ↦
      let rest =
        in_cuts-Held u excluded cuts
          (subst (λ (x : Bool). (x || in_cuts excluded u cuts) ≡ true) n h) in
      (Held-there u cut.members (members_of cuts) rest.0, rest.1)
]

pub cut_blocks-Divides :
    (excluded : Set Str) (cuts : List ActiveCut)
    → Separate (members_of cuts)
    → Divides (λ u. in_cuts excluded u cuts) (cut_blocks excluded cuts)
cut_blocks-Divides excluded [] s = record {
  covered = λ u h. cc;
  inside = λ u (b, i, m). elim i [ ];
  separate = tt;
}
cut_blocks-Divides excluded (cut ∷ cuts) s =
    let rest = cut_blocks-Divides excluded cuts s.1 in
    record {
      covered = λ u h.
          Held-push_block u (minus cut.members excluded) (cut_blocks excluded cuts)
            (elim (Bool-cases (mem u (minus cut.members excluded))) [
              | inl m ↦ (minus cut.members excluded, here, m)
              | inr n ↦
                  Held-there u (minus cut.members excluded) (cut_blocks excluded cuts) (
                    rest.covered u
                      (subst (λ (x : Bool). (x || in_cuts excluded u cuts) ≡ true) n h))
            ]);
      inside = λ u h.
          elim (Held-cons u (minus cut.members excluded) (cut_blocks excluded cuts)
            (push_block-Held u (minus cut.members excluded) (cut_blocks excluded cuts) h)) [
              | inl m ↦ rw m refl
              | inr later ↦
                  right (mem u (minus cut.members excluded)) (in_cuts excluded u cuts)
                    (rest.inside u later)
            ];
      separate = push_block-Separate (minus cut.members excluded) (cut_blocks excluded cuts) (
        All-Disjoint (minus cut.members excluded) (cut_blocks excluded cuts) (λ u m later.
            Disjoint-Held u cut.members (members_of cuts) s.0 (of_minus u cut.members excluded m).0
              (in_cuts-Held u excluded cuts (rest.inside u later)).0),
        rest.separate,
      );
    }
  where
    right : (a b : Bool) → b ≡ true → (a || b) ≡ true
    right a b e = ground arith

append-Held : (u : Str) (l m : List (Set Str)) → Held u (l ++ m) → Held u l ⊎ Held u m
append-Held u l m (b, i, h) = elim (In-append b l m i) [
  | inl j ↦ inl (b, j, h)
  | inr j ↦ inr (b, j, h)
]

append-Separate :
    (l m : List (Set Str))
    → Separate l
    → Separate m
    → ((u : Str) → Held u l → Held u m → ⊥)
    → Separate (l ++ m)
append-Separate [] m s t h = t
append-Separate (b ∷ l) m s t h = (
  All-Disjoint b (l ++ m) (λ u i held. elim (append-Held u l m held) [
    | inl left ↦ Disjoint-Held u b l s.0 i left
    | inr right ↦ h u (b, here, i) right
  ]),
  append-Separate l m s.1 t (λ u left right. h u (Held-there u b l left) right),
)

-- The blocks before the attachments divide the persons who are not excluded.
pub first_blocks-Divides :
    (persons excluded : Set Str) (applied : List ActiveCut) (frozen : List FrozenEdge)
    → Separate (members_of applied)
    → ((u : Str) → Held u (members_of applied) → mem u persons ≡ true)
    → (blocks : List (Set Str)) × (first_blocks persons excluded applied frozen ≡ some blocks)
      × Divides (λ u. mem u (minus persons excluded)) blocks
first_blocks-Divides persons excluded applied frozen s inside' =
    let (components, found, c) =
      graph_components-IsComponents (residue persons excluded applied)
        (within (residue persons excluded applied) frozen) in
    let cuts = cut_blocks-Divides excluded applied s in
    (
      cut_blocks excluded applied ++ components,
      ap (extend_blocks (cut_blocks excluded applied)) found,
      record {
        covered = λ u h. elim (Bool-cases (in_cuts excluded u applied)) [
          | inl t ↦
              let (b, i, m) = cuts.covered u t in
              (b, In-left b (cut_blocks excluded applied) components i, m)
          | inr f ↦
              let (b, i, m) = c.covered u (remains u h f) in
              (b, In-right b (cut_blocks excluded applied) components i, m)
        ];
        inside = λ u held. elim (append-Held u (cut_blocks excluded applied) components held) [
          | inl left ↦ listed u (cuts.inside u left)
          | inr (b, i, m) ↦
              (of_minus u (minus persons excluded) (cut_members excluded applied [])
                (c.inside b i u m)).0
        ];
        separate =
            append-Separate (cut_blocks excluded applied) components cuts.separate c.separate
              (λ u left (b, i, m). apart u (cuts.inside u left) (c.inside b i u m));
      },
    )
  where
    cut_out : (u : Str) → mem u (cut_members excluded applied []) ≡ in_cuts excluded u applied
    cut_out u = mem-cut_members u excluded applied [] ∙ or_false (in_cuts excluded u applied)
      where
        or_false : (a : Bool) → (a || false) ≡ a
        or_false a = ground arith

    remains :
        (u : Str)
        → mem u (minus persons excluded) ≡ true
        → in_cuts excluded u applied ≡ false
        → mem u (residue persons excluded applied) ≡ true
    remains u h f =
        mem-minus u (minus persons excluded) (cut_members excluded applied [])
        ∙ rw (h, cut_out u ∙ f) refl

    listed : (u : Str) → in_cuts excluded u applied ≡ true → mem u (minus persons excluded) ≡ true
    listed u t =
        let parts = in_cuts-Held u excluded applied t in
        mem-minus u persons excluded ∙ rw (inside' u parts.0, parts.1) refl

    apart :
        (u : Str)
        → in_cuts excluded u applied ≡ true
        → mem u (residue persons excluded applied) ≡ true
        → ⊥
    apart u t m =
        let out = (of_minus u (minus persons excluded) (cut_members excluded applied []) m).1 in
        clash (sym t ∙ sym (cut_out u) ∙ out)
      where
        clash : true ≡ false → ⊥
        clash e = cc
