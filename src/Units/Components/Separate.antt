-- ===== src/Units/Components/Separate.antt =====
-- Blocks that share no person (src/unit_derivation/evaluate.rs, `canonicalize_blocks`).
use Prim.Native.Nat.{Ordering}
use axiom_rules_engine.Prelude.{
  ◌≡◌, refl, sym, ◌∙◌, subst, true, false, List, [], ◌∷◌, All, All-of_In, All-at, In, In-cons,
  Bool-cases, inl, inr,
}
use axiom_rules_engine.Prelude.Ord.{Str, str_ord}
use axiom_rules_engine.BTree.{Set, mem}
use axiom_rules_engine.Units.Components.{cmp_block, insert_block, canonicalize_blocks}
use axiom_rules_engine.Units.Components.Canonical.{
  insert_before, insert_same, insert_after, insert_block-cons, canonicalize_blocks-In,
}

abbrev pub Disjoint : Set Str → Set Str → Type 0
Disjoint b c = (u : Str) → mem u b ≡ true → mem u c ≡ false

-- No two blocks of the list share a person.
abbrev pub Separate : List (Set Str) → Type 0
Separate [] = Unit
Separate (b ∷ blocks) = All (Disjoint b) blocks × Separate blocks

pub Disjoint-sym : (b c : Set Str) → Disjoint b c → Disjoint c b
Disjoint-sym b c d u h = elim (Bool-cases (mem u b)) [
  | inl t ↦ absurd (clash (sym h ∙ d u t))
  | inr f ↦ f
]
  where
    clash : true ≡ false → ⊥
    clash e = cc

insert_block-Separate :
    (b : Set Str) (blocks : List (Set Str))
    → Separate (b ∷ blocks)
    → Separate (insert_block b blocks)
unfolding insert_block
insert_block-Separate b [] s = s
insert_block-Separate b (d ∷ blocks) s =
    by_order (insert_block-Separate b blocks (s.0.1, s.1.1)) (cmp_block b d) refl
  where
    others : (c : Set Str) → In c (insert_block b blocks) → Disjoint d c
    others c i = elim (In-cons c b blocks (insert_block-cons c b blocks i)) [
      | inl same ↦ subst (λ x. Disjoint d x) (sym same) (Disjoint-sym b d s.0.0)
      | inr j ↦ All-at (Disjoint d) blocks c s.1.0 j
    ]

    by_order :
        Separate (insert_block b blocks)
        → (o : Ordering) → cmp_block b d ≡ o
        → Separate (insert_block b (d ∷ blocks))
    by_order again Ordering.lt e = subst Separate (sym (insert_before b d blocks e)) s
    by_order again Ordering.eq e = subst Separate (sym (insert_same b d blocks e)) s.1
    by_order again Ordering.gt e =
        subst Separate (sym (insert_after b d blocks e))
          (All-of_In (Disjoint d) (insert_block b blocks) others, again)

pub canonicalize_blocks-Separate :
    (blocks : List (Set Str)) → Separate blocks → Separate (canonicalize_blocks blocks)
unfolding canonicalize_blocks
canonicalize_blocks-Separate [] s = s
canonicalize_blocks-Separate (b ∷ blocks) s = insert_block-Separate b (canonicalize_blocks blocks) (
  All-of_In (Disjoint b) (canonicalize_blocks blocks)
      (λ c i. All-at (Disjoint b) blocks c s.0 (canonicalize_blocks-In c blocks i)),
  canonicalize_blocks-Separate blocks s.1,
)
