-- ===== src/Units/Components/Connected.antt =====
-- The components are those of the edges between the vertices (src/unit_derivation/evaluate.rs,
-- `graph_components`).
use axiom_rules_engine.Prelude.{
  suc, ◌≡◌, refl, sym, subst, true, Option, none, some, List, length, In, inl, inr, arith,
}
use axiom_rules_engine.Prelude.Ord.{Str, str_ord}
use axiom_rules_engine.BTree.{Set, mem}
use axiom_rules_engine.Units.Components.{
  FrozenEdge, adjacency_of, canonicalize_blocks, graph_components,
}
use axiom_rules_engine.Units.Components.Search.{Linked, Joined, start, step, IsClosed}
use axiom_rules_engine.Units.Components.Blocks.{IsPartition, components_from-IsPartition}
use axiom_rules_engine.Units.Components.Separate.{Separate, canonicalize_blocks-Separate}
use axiom_rules_engine.Units.Components.Canonical.{canonicalize_blocks-In, In-canonicalize_blocks}
use axiom_rules_engine.Units.Components.Links.{
  EdgeBetween, add_edges-EdgeBetween, EdgeBetween-add_edges, alone-HasEntries, alone-unlinked,
}

-- By edges between vertices, one after another.
pub data Connected (vertices : Set Str) (edges : List FrozenEdge) (u : Str) : Str → Type 0 where
  itself : Connected vertices edges u u
  along :
      {v w : Str}
      → Connected vertices edges u v
      → EdgeBetween vertices edges v w
      → Connected vertices edges u w

-- The blocks hold the vertices and share none; those of a block are connected, and no edge leaves a
-- block.
pub record IsComponents (vertices : Set Str) (edges : List FrozenEdge) (blocks : List (Set Str))
    : Type 0 where
  pub covered : (u : Str) → mem u vertices ≡ true → (b : Set Str) × In b blocks × (mem u b ≡ true)
  pub inside : (b : Set Str) → In b blocks → (u : Str) → mem u b ≡ true → mem u vertices ≡ true
  pub connected :
      (b : Set Str)
      → In b blocks
      → (u v : Str) → mem u b ≡ true
      → mem v b ≡ true
      → Connected vertices edges u v
  pub closed :
      (b : Set Str)
      → In b blocks
      → (u v : Str) → mem u b ≡ true
      → EdgeBetween vertices edges u v
      → mem v b ≡ true
  pub separate : Separate blocks

module _ (vertices : Set Str) (edges : List FrozenEdge) where
  Linked-EdgeBetween :
      (u v : Str) → Linked (adjacency_of vertices edges) u v → EdgeBetween vertices edges u v
  unfolding adjacency_of
  Linked-EdgeBetween u v l =
      elim (add_edges-EdgeBetween vertices edges _ u v (alone-HasEntries vertices) l) [
        | inl none' ↦ absurd (alone-unlinked vertices u v none')
        | inr between ↦ between
      ]

  EdgeBetween-Linked :
      (u v : Str) → EdgeBetween vertices edges u v → Linked (adjacency_of vertices edges) u v
  unfolding adjacency_of
  EdgeBetween-Linked u v between =
      EdgeBetween-add_edges vertices edges _ u v (alone-HasEntries vertices) between

  flipped : (u v : Str) → EdgeBetween vertices edges u v → EdgeBetween vertices edges v u
  flipped u v (edge, i, hu, hv, inl (l, r)) = (edge, i, hv, hu, inr (l, r))
  flipped u v (edge, i, hu, hv, inr (l, r)) = (edge, i, hv, hu, inl (l, r))

  symmetric :
      (u v : Str)
      → Linked (adjacency_of vertices edges) u v
      → Linked (adjacency_of vertices edges) v u
  symmetric u v l = EdgeBetween-Linked v u (flipped u v (Linked-EdgeBetween u v l))

  vertices-IsClosed : IsClosed (adjacency_of vertices edges) vertices
  vertices-IsClosed u v h l = (Linked-EdgeBetween u v l).3

  Joined-Connected :
      {u v : Str} → Joined (adjacency_of vertices edges) u v → Connected vertices edges u v
  Joined-Connected start = itself
  Joined-Connected (step j l) = along (Joined-Connected j) (Linked-EdgeBetween _ _ l)

  canonical-IsComponents :
      (blocks : List (Set Str))
      → IsPartition (adjacency_of vertices edges) vertices blocks
      → IsComponents vertices edges (canonicalize_blocks blocks)
  canonical-IsComponents blocks p = record {
    covered = λ u h. let (b, i, m) = p.covered u h in (b, In-canonicalize_blocks b blocks i, m);
    inside = λ b i. p.inside b (canonicalize_blocks-In b blocks i);
    connected = λ b i u v hu hv.
        Joined-Connected (p.joined b (canonicalize_blocks-In b blocks i) u v hu hv);
    closed = λ b i u v hu between.
        p.closed b (canonicalize_blocks-In b blocks i) u v hu (EdgeBetween-Linked u v between);
    separate = canonicalize_blocks-Separate blocks p.separate;
  }

  -- On all vertices and edges the search ends with blocks: they hold exactly the vertices and share none, those of a block
  -- are connected by edges between vertices, and no such edge leaves a block.
  pub graph_components-IsComponents :
      (blocks : List (Set Str)) × (graph_components vertices edges ≡ some blocks)
      × IsComponents vertices edges blocks
  unfolding graph_components
  graph_components-IsComponents =
      let (blocks, found, partition) =
        components_from-IsPartition (adjacency_of vertices edges) symmetric (suc (length vertices))
          vertices vertices-IsClosed (omega arith) in
      (
        canonicalize_blocks blocks,
        subst
            (λ o.
              (elim o as (λ x. Option (List (Set Str))) [
                | none ↦ none
                | some components ↦ some (canonicalize_blocks components)
              ])
              ≡ some (canonicalize_blocks blocks))
            (sym found) refl,
        canonical-IsComponents blocks partition,
      )
