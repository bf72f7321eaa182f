-- ===== src/Units/Components/Canonical.antt =====
-- The canonical order of blocks keeps them (src/unit_derivation/evaluate.rs, `canonicalize_blocks`).
use Prim.Native.Nat.{Ordering}
use axiom_rules_engine.Prelude.{
  ◌≡◌, refl, sym, subst, List, [], ◌∷◌, In, here, there, In-cons, inl, inr, arith,
}
use axiom_rules_engine.Prelude.Ord.{Str, str_ord}
use axiom_rules_engine.BTree.{Set}
use axiom_rules_engine.Units.Components.{cmp_block, insert_block, canonicalize_blocks}

cmp_block-eq : (a b : Set Str) → cmp_block a b ≡ Ordering.eq → a ≡ b
cmp_block-eq [] [] h = refl
cmp_block-eq [] (q ∷ b) h = cc
cmp_block-eq (p ∷ a) [] h = cc
cmp_block-eq (p ∷ a) (q ∷ b) h = ground (arith, str_ord.cmp_eq p q, cmp_block-eq a b)

module _ (b d : Set Str) (blocks : List (Set Str)) where
  pub insert_before : cmp_block b d ≡ Ordering.lt → insert_block b (d ∷ blocks) ≡ b ∷ d ∷ blocks
  unfolding insert_block
  insert_before e = rw (insert_block, e) refl

  pub insert_same : cmp_block b d ≡ Ordering.eq → insert_block b (d ∷ blocks) ≡ d ∷ blocks
  unfolding insert_block
  insert_same e = rw (insert_block, e) refl

  pub insert_after :
      cmp_block b d ≡ Ordering.gt → insert_block b (d ∷ blocks) ≡ d ∷ insert_block b blocks
  unfolding insert_block
  insert_after e = rw (insert_block, e) refl

  insert_block-In :
      (c : Set Str)
      → (In c (insert_block b blocks) → In c (b ∷ blocks))
      → (o : Ordering) → cmp_block b d ≡ o
      → In c (insert_block b (d ∷ blocks))
      → In c (b ∷ d ∷ blocks)
  insert_block-In c again Ordering.lt e i = subst (λ l. In c l) (insert_before e) i
  insert_block-In c again Ordering.eq e i = there (subst (λ l. In c l) (insert_same e) i)
  insert_block-In c again Ordering.gt e i =
      elim (In-cons c d (insert_block b blocks) (subst (λ l. In c l) (insert_after e) i)) [
        | inl same ↦ there (subst (λ x. In c (x ∷ blocks)) same here)
        | inr j ↦ elim (In-cons c b blocks (again j)) [
          | inl same ↦ subst (λ x. In c (x ∷ d ∷ blocks)) same here
          | inr k ↦ there (there k)
        ]
      ]

  In-insert_block :
      (c : Set Str)
      → (In c (b ∷ blocks) → In c (insert_block b blocks))
      → (o : Ordering) → cmp_block b d ≡ o
      → In c (b ∷ d ∷ blocks)
      → In c (insert_block b (d ∷ blocks))
  In-insert_block c again Ordering.lt e i = subst (λ l. In c l) (sym (insert_before e)) i
  In-insert_block c again Ordering.eq e i =
      subst (λ l. In c l) (sym (insert_same e))
        (elim (In-cons c b (d ∷ blocks) i) [
          | inl same ↦ subst (λ x. In x (d ∷ blocks)) (sym (same_block c same)) here
          | inr j ↦ j
        ])
    where
      same_block : (x : Set Str) → x ≡ b → x ≡ d
      same_block x h = subst (λ y. y ≡ d) (sym h) (cmp_block-eq b d e)
  In-insert_block c again Ordering.gt e i =
      subst (λ l. In c l) (sym (insert_after e))
        (elim (In-cons c b (d ∷ blocks) i) [
          | inl same ↦ there (again (subst (λ x. In c (x ∷ blocks)) same here))
          | inr j ↦ elim (In-cons c d blocks j) [
            | inl same ↦ subst (λ x. In c (x ∷ insert_block b blocks)) same here
            | inr k ↦ there (again (there k))
          ]
        ])

pub insert_block-cons :
    (c b : Set Str) (blocks : List (Set Str)) → In c (insert_block b blocks) → In c (b ∷ blocks)
unfolding insert_block
insert_block-cons c b [] i = i
insert_block-cons c b (d ∷ blocks) i =
    insert_block-In b d blocks c (insert_block-cons c b blocks) (cmp_block b d) refl i

cons-insert_block :
    (c b : Set Str) (blocks : List (Set Str)) → In c (b ∷ blocks) → In c (insert_block b blocks)
unfolding insert_block
cons-insert_block c b [] i = i
cons-insert_block c b (d ∷ blocks) i =
    In-insert_block b d blocks c (cons-insert_block c b blocks) (cmp_block b d) refl i

pub canonicalize_blocks-In :
    (c : Set Str) (blocks : List (Set Str)) → In c (canonicalize_blocks blocks) → In c blocks
unfolding canonicalize_blocks
canonicalize_blocks-In c [] i = i
canonicalize_blocks-In c (b ∷ blocks) i =
    elim (In-cons c b (canonicalize_blocks blocks)
      (insert_block-cons c b (canonicalize_blocks blocks) i)) [
        | inl same ↦ subst (λ x. In c (x ∷ blocks)) same here
        | inr j ↦ there (canonicalize_blocks-In c blocks j)
      ]

pub In-canonicalize_blocks :
    (c : Set Str) (blocks : List (Set Str)) → In c blocks → In c (canonicalize_blocks blocks)
unfolding canonicalize_blocks
In-canonicalize_blocks c [] i = i
In-canonicalize_blocks c (b ∷ blocks) i =
    cons-insert_block c b (canonicalize_blocks blocks) (elim (In-cons c b blocks i) [
      | inl same ↦ subst (λ x. In c (x ∷ canonicalize_blocks blocks)) same here
      | inr j ↦ there (In-canonicalize_blocks c blocks j)
    ])
