-- ===== src/Units/Components.antt =====
-- The connected components of persons under edges (src/unit_derivation/evaluate.rs, `graph_components` and
-- `canonicalize_blocks`). The inner loop runs on a fuel of two more than the persons that remain and
-- their neighbours, the outer one on one more than the persons.
pub mod Sets
pub mod Search
pub mod Blocks
pub mod Canonical
pub mod Separate
pub mod Links
pub mod Connected
use Prim.Native.Nat.{Ordering}
use axiom_rules_engine.Prelude.{
  ℕ, zero, suc, ◌+◌, Bool, true, false, ◌&&◌, Option, none, some, List, [], ◌∷◌, ◌++◌, map, length,
  if◌then◌else◌,
}
use axiom_rules_engine.Prelude.Ord.{Str, str_ord, cmp_str}
use axiom_rules_engine.BTree.{Map, Set, lookup, mem, set_insert, key_eq}
use axiom_rules_engine.Units.Types.{Citation, EdgeKind}

pub record FrozenEdge : Type 0 where
  pub id : Str
  pub kind : EdgeKind
  pub left : Str
  pub right : Str
  pub citation : Citation

-- `get_mut(key)` and an insertion there.
unfoldable pub link : Str → Str → Map Str (Set Str) → Map Str (Set Str)
link key value [] = []
link key value ((k, values) ∷ rest) =
    (k, if key_eq key k then set_insert value values else values) ∷ link key value rest

abbrev pub add_edge : Set Str → FrozenEdge → Map Str (Set Str) → Map Str (Set Str)
add_edge vertices edge adjacency =
    if mem edge.left vertices && mem edge.right vertices
    then link edge.right edge.left (link edge.left edge.right adjacency)
    else adjacency

unfoldable pub add_edges : Set Str → List FrozenEdge → Map Str (Set Str) → Map Str (Set Str)
unfolding link
add_edges vertices [] adjacency = adjacency
add_edges vertices (edge ∷ edges) adjacency =
    add_edges vertices edges (add_edge vertices edge adjacency)

unfoldable pub adjacency_of : Set Str → List FrozenEdge → Map Str (Set Str)
unfolding add_edges
adjacency_of vertices edges = add_edges vertices edges (map (λ person. (person, [])) vertices)

-- `adjacency[&person]`; the persons searched are all vertices.
abbrev pub neighbours : Map Str (Set Str) → Str → Set Str
neighbours adjacency person = elim (lookup person adjacency) [ some found ↦ found | none ↦ [] ]

-- `BTreeSet::remove`
abbrev pub set_remove : Str → Set Str → Set Str
set_remove k [] = []
set_remove k (j ∷ s) = if key_eq j k then set_remove k s else j ∷ set_remove k s

abbrev pub to_search : Map Str (Set Str) → Set Str → ℕ
to_search adjacency [] = 0
to_search adjacency (p ∷ s) = suc (length (neighbours adjacency p)) + to_search adjacency s

-- The inner loop: the component and what remains.
unfoldable pub search_component :
    ℕ → Map Str (Set Str) → (remaining component queue : List Str) → Option (Set Str × Set Str)
search_component zero adjacency remaining component queue = none
search_component (suc f) adjacency remaining component [] = some (component, remaining)
search_component (suc f) adjacency remaining component (person ∷ queue) =
    elim (mem person remaining) [
      | true ↦
          search_component f adjacency (set_remove person remaining) (set_insert person component)
            (queue ++ neighbours adjacency person)
      | false ↦ search_component f adjacency remaining component queue
    ]

abbrev pub push_component : Set Str → Option (List (Set Str)) → Option (List (Set Str))
push_component component none = none
push_component component (some components) = some (component ∷ components)

abbrev pub next_component :
    Option (Set Str × Set Str) → (Set Str → Option (List (Set Str))) → Option (List (Set Str))
next_component none go_on = none
next_component (some (component, remaining)) go_on = push_component component (go_on remaining)

-- The outer loop.
unfoldable pub components_from : ℕ → Map Str (Set Str) → Set Str → Option (List (Set Str))
components_from zero adjacency remaining = none
components_from (suc f) adjacency [] = some []
components_from (suc f) adjacency (seed ∷ rest) =
    next_component
      (search_component (2 + to_search adjacency (seed ∷ rest)) adjacency (seed ∷ rest) []
        (seed ∷ []))
      (components_from f adjacency)

-- Blocks in the order of their members, one after another.
abbrev pub cmp_block : Set Str → Set Str → Ordering
cmp_block [] [] = Ordering.eq
cmp_block [] (q ∷ b) = Ordering.lt
cmp_block (p ∷ a) [] = Ordering.gt
cmp_block (p ∷ a) (q ∷ b) = elim (cmp_str p q) [
  | Ordering.lt ↦ Ordering.lt
  | Ordering.eq ↦ cmp_block a b
  | Ordering.gt ↦ Ordering.gt
]

unfoldable pub insert_block : Set Str → List (Set Str) → List (Set Str)
insert_block b [] = b ∷ []
insert_block b (c ∷ blocks) = elim (cmp_block b c) [
  | Ordering.lt ↦ b ∷ c ∷ blocks
  | Ordering.eq ↦ c ∷ blocks
  | Ordering.gt ↦ c ∷ insert_block b blocks
]

-- `sort_by` and `dedup`.
unfoldable pub canonicalize_blocks : List (Set Str) → List (Set Str)
unfolding insert_block
canonicalize_blocks [] = []
canonicalize_blocks (b ∷ blocks) = insert_block b (canonicalize_blocks blocks)

unfoldable pub graph_components : Set Str → List FrozenEdge → Option (List (Set Str))
unfolding adjacency_of components_from search_component canonicalize_blocks
graph_components vertices edges =
    elim (components_from (suc (length vertices)) (adjacency_of vertices edges) vertices) [
      | none ↦ none
      | some components ↦ some (canonicalize_blocks components)
    ]
