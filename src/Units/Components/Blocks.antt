-- ===== src/Units/Components/Blocks.antt =====
-- All components (src/unit_derivation/evaluate.rs, the outer loop of `graph_components`, and
-- `canonicalize_blocks`).
use axiom_rules_engine.Prelude.{
  ℕ, suc, zero, ◌+◌, ◌<◌, ◌≡◌, refl, sym, ◌∙◌, ap, subst, Bool, true, false, ◌||◌, some, List, [],
  ◌∷◌, length, In, here, there, In-cons, All-of_In, Bool-cases, inl, inr, arith,
}
use axiom_rules_engine.Prelude.Ord.{Str, str_ord}
use axiom_rules_engine.BTree.{Map, Set, mem, key_eq}
use axiom_rules_engine.BTree.Laws.{key_eq-eq, key_eq_self}
use axiom_rules_engine.Units.Components.{to_search, components_from, next_component, push_component}
use axiom_rules_engine.Units.Components.Separate.{Disjoint, Separate}
use axiom_rules_engine.Units.Components.Search.{
  Linked, Joined, start, step, IsClosed, IsSearch, IsFound, search_component-IsFound,
}

module _ (adjacency : Map Str (Set Str)) where
  pub Joined-trans :
      {u v w : Str} → Joined adjacency u v → Joined adjacency v w → Joined adjacency u w
  Joined-trans p start = p
  Joined-trans p (step q l) = step (Joined-trans p q) l

  -- The blocks hold the persons of the whole, each with all those joined to it.
  pub record IsPartition (whole : Set Str) (blocks : List (Set Str)) : Type 0 where
    pub covered : (u : Str) → mem u whole ≡ true → (b : Set Str) × In b blocks × (mem u b ≡ true)
    pub inside : (b : Set Str) → In b blocks → (u : Str) → mem u b ≡ true → mem u whole ≡ true
    pub joined :
        (b : Set Str)
        → In b blocks
        → (u v : Str) → mem u b ≡ true
        → mem v b ≡ true
        → Joined adjacency u v
    pub closed : (b : Set Str) → In b blocks → IsClosed adjacency b
    pub separate : Separate blocks

  module _ (symmetric : (u v : Str) → Linked adjacency u v → Linked adjacency v u) where
    Joined-sym : {u v : Str} → Joined adjacency u v → Joined adjacency v u
    Joined-sym start = start
    Joined-sym (step p l) = Joined-trans (step start (symmetric _ _ l)) (Joined-sym p)

    remaining-IsClosed :
        (whole : Set Str) (seed : Str) (component remaining : Set Str)
        → IsClosed adjacency whole
        → IsFound adjacency whole seed component remaining
        → IsClosed adjacency remaining
    remaining-IsClosed whole seed component remaining closed found u v h l =
        elim (Bool-cases (mem v component)) [
          | inl c ↦
              let back = found.closed v u c (symmetric u v l) in
              let gone = found.apart u back in let clash : true ≡ false = sym h ∙ gone in cc
          | inr n ↦
              let within : mem u whole ≡ true =
                found.parts u ∙ right (mem u component) (mem u remaining) h in
              let onto : (mem v component || mem v remaining) ≡ true =
                sym (found.parts v) ∙ closed u v within l in
              subst (λ (b : Bool). (b || mem v remaining) ≡ true) n onto
        ]
      where
        right : (a b : Bool) → b ≡ true → (a || b) ≡ true
        right a b h' = ground arith

    start-IsSearch :
        (seed : Str) (rest : Set Str)
        → IsSearch adjacency (seed ∷ rest) seed (seed ∷ rest) [] (seed ∷ [])
    start-IsSearch seed rest = record {
      joined = λ u h. absurd (nothing h);
      queued = λ u h. only u h;
      parts = λ u. refl;
      apart = λ u h. absurd (nothing h);
      followed = λ u v h l. absurd (nothing h);
      seeded = inr (rw (key_eq_self seed) refl);
      fewer = omega arith;
      taken = λ h. absurd (nothing h);
    }
      where
        nothing : false ≡ true → ⊥
        nothing h = cc

        only :
            (u : Str)
            → mem u (seed ∷ []) ≡ true
            → Joined adjacency seed u × (mem u (seed ∷ rest) ≡ true)
        only u h =
            let same : key_eq u seed ≡ true = ground arith in
            (subst (λ x. Joined adjacency seed x) (sym (key_eq-eq u seed same)) start, rw same refl)

    add-IsPartition :
        (whole : Set Str) (seed : Str) (component remaining : Set Str) (blocks : List (Set Str))
        → IsFound adjacency whole seed component remaining
        → IsPartition remaining blocks
        → IsPartition whole (component ∷ blocks)
    add-IsPartition whole seed component remaining blocks found later = record {
      covered = covered;
      inside = inside;
      joined = joined;
      closed = closed;
      separate = (All-of_In (Disjoint component) blocks alone, later.separate);
    }
      where
        alone : (c : Set Str) → In c blocks → Disjoint component c
        alone c i u m = elim (Bool-cases (mem u c)) [
          | inl t ↦ let clash : true ≡ false = sym (later.inside c i u t) ∙ found.apart u m in cc
          | inr f ↦ f
        ]

        covered :
            (u : Str)
            → mem u whole ≡ true
            → (b : Set Str) × In b (component ∷ blocks) × (mem u b ≡ true)
        covered u h = elim (Bool-cases (mem u component)) [
          | inl c ↦ (component, here, c)
          | inr n ↦
              let rest : mem u remaining ≡ true =
                subst (λ (b : Bool). (b || mem u remaining) ≡ true) n (sym (found.parts u) ∙ h) in
              let (b, i, m) = later.covered u rest in (b, there i, m)
        ]

        inside :
            (b : Set Str)
            → In b (component ∷ blocks)
            → (u : Str) → mem u b ≡ true
            → mem u whole ≡ true
        inside b i u m = elim (In-cons b component blocks i) [
          | inl same ↦
              let m' : mem u component ≡ true = subst (λ x. mem u x ≡ true) same m in
              ground (arith, found.parts u)
          | inr j ↦ let r = later.inside b j u m in ground (arith, found.parts u)
        ]

        joined :
            (b : Set Str)
            → In b (component ∷ blocks)
            → (u v : Str) → mem u b ≡ true
            → mem v b ≡ true
            → Joined adjacency u v
        joined b i u v hu hv = elim (In-cons b component blocks i) [
          | inl same ↦
              Joined-trans (Joined-sym (found.joined u (subst (λ x. mem u x ≡ true) same hu)))
                (found.joined v (subst (λ x. mem v x ≡ true) same hv))
          | inr j ↦ later.joined b j u v hu hv
        ]

        closed : (b : Set Str) → In b (component ∷ blocks) → IsClosed adjacency b
        closed b i = elim (In-cons b component blocks i) [
          | inl same ↦ subst (λ x. IsClosed adjacency x) (sym same) found.closed
          | inr j ↦ later.closed b j
        ]

    -- Within the fuel the loop ends, and gives a partition.
    pub components_from-IsPartition :
        (f : ℕ) (remaining : Set Str)
        → IsClosed adjacency remaining
        → length remaining < f
        → (blocks : List (Set Str)) × (components_from f adjacency remaining ≡ some blocks)
          × IsPartition remaining blocks
    unfolding components_from
    components_from-IsPartition zero remaining closed h = absurd (omega arith)
    components_from-IsPartition (suc f) [] closed h = ([], refl, empty)
      where
        none_in : (b : Set Str) → In b [] → ⊥
        none_in b i = elim i [ ]

        empty : IsPartition [] []
        empty = record {
          covered = λ u m. cc;
          inside = λ b i. absurd (none_in b i);
          joined = λ b i. absurd (none_in b i);
          closed = λ b i. absurd (none_in b i);
          separate = tt;
        }
    components_from-IsPartition (suc f) (seed ∷ rest) closed h =
        let (found, searched, is_found) =
          search_component-IsFound adjacency (seed ∷ rest) seed
            (2 + to_search adjacency (seed ∷ rest)) (seed ∷ rest) [] (seed ∷ []) closed
            (start-IsSearch seed rest) (omega arith) in
        let (blocks, gone_on, partition) =
          components_from-IsPartition f found.1
            (remaining-IsClosed (seed ∷ rest) seed found.0 found.1 closed is_found)
            (lt_of_lt is_found.fewer h) in
        (
          found.0 ∷ blocks,
          subst (λ o. next_component o (components_from f adjacency) ≡ some (found.0 ∷ blocks))
              (sym searched) (ap (push_component found.0) gone_on),
          add-IsPartition (seed ∷ rest) seed found.0 found.1 blocks is_found partition,
        )
      where
        lt_of_lt : {a b : ℕ} → a < b → b < suc f → a < f
        lt_of_lt p q = omega arith
