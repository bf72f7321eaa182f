-- ===== src/Units/Cuts.antt =====
-- The cuts of a world (src/unit_derivation/evaluate.rs, `evaluate_world`): those that overlap are rejected, and
-- those that a combination edge blocks are not applied. The events of the trace are left out. A read of
-- a key that is missing, on which the code panics, is `none`.
pub mod Overlap
pub mod Applied
use axiom_rules_engine.Prelude.{
  ℕ, suc, Bool, true, false, ◌&&◌, ◌||◌, not, Option, none, some, List, [], ◌∷◌, is_some,
  if◌then◌else◌,
}
use axiom_rules_engine.Prelude.Ord.{Str, str_ord, nat_ord}
use axiom_rules_engine.BTree.{Map, Set, lookup, mem, set_insert, key_eq}
use axiom_rules_engine.Units.Types.{
  CutRule, CutEdgePrecedence, CutEdgeDecision, blocked, overrides, unresolved, EdgeKind, base,
  combination,
}
use axiom_rules_engine.Units.Keys.{legal_precedence_key}
use axiom_rules_engine.Units.Worlds.{same_bool}
use axiom_rules_engine.Units.Components.{FrozenEdge}
use axiom_rules_engine.Units.Division.{ActiveCut}

abbrev pub is_disjoint : Set Str → Set Str → Bool
is_disjoint [] b = true
is_disjoint (person ∷ a) b = not (mem person b) && is_disjoint a b

-- The cut at one place and those at later places.
abbrev pub reject_with : ℕ → ActiveCut → ℕ → List ActiveCut → Set ℕ → Set ℕ
reject_with i left j [] rejected = rejected
reject_with i left j (right ∷ cuts) rejected = reject_with i left (suc j) cuts (
    if is_disjoint left.members right.members
    then rejected
    else set_insert j (set_insert i rejected))

abbrev pub reject_from : ℕ → List ActiveCut → Set ℕ → Set ℕ
reject_from i [] rejected = rejected
reject_from i (left ∷ cuts) rejected =
    reject_from (suc i) cuts (reject_with i left (suc i) cuts rejected)

abbrev pub keep_from : ℕ → Set ℕ → List ActiveCut → List ActiveCut
keep_from i rejected [] = []
keep_from i rejected (cut ∷ cuts) =
    if mem i rejected
    then keep_from (suc i) rejected cuts
    else cut ∷ keep_from (suc i) rejected cuts

unfoldable pub reject_overlaps : List ActiveCut → List ActiveCut
reject_overlaps cuts = keep_from 0 (reject_from 0 cuts []) cuts

abbrev pub is_combination : EdgeKind → Bool
is_combination combination = true
is_combination base = false

abbrev pub crosses : ActiveCut → FrozenEdge → Bool
crosses cut edge =
    is_combination edge.kind
    && not (same_bool (mem edge.left cut.members) (mem edge.right cut.members))

abbrev pub find_precedence : Str → List CutEdgePrecedence → Option CutEdgePrecedence
find_precedence edge [] = none
find_precedence edge (p ∷ rest) =
    if key_eq p.edge_rule edge then some p else find_precedence edge rest

abbrev pub opposite : Option Bool → Option Bool
opposite none = none
opposite (some value) = some (not value)

-- The decision, with what the world has for the pair.
abbrev pub decision_blocks : Option Bool → CutEdgeDecision → Option Bool
decision_blocks value (blocked citation) = some true
decision_blocks value (overrides citation) = some false
decision_blocks value (unresolved issue) = opposite value

abbrev pub edge_blocks : Map Str Bool → Str → CutEdgePrecedence → Option Bool
edge_blocks valuation cut p =
    decision_blocks (lookup (legal_precedence_key cut p.edge_rule) valuation) p.decision

abbrev pub rule_blocks : Map Str Bool → Str → CutRule → Option Bool
rule_blocks valuation edge rule = elim (find_precedence edge rule.edge_precedence) [
  | none ↦ none
  | some p ↦ edge_blocks valuation rule.id p
]

abbrev pub id_blocks : Map Str CutRule → Map Str Bool → Str → Str → Option Bool
id_blocks rules valuation edge id = elim (lookup id rules) [
  | none ↦ none
  | some rule ↦ rule_blocks valuation edge rule
]

-- The two have both been read.
abbrev pub either : Option Bool → Option Bool → Option Bool
either none b = none
either (some x) none = none
either (some x) (some y) = some (x || y)

abbrev pub ids_block : Map Str CutRule → Map Str Bool → Str → Set Str → Option Bool
ids_block rules valuation edge [] = some false
ids_block rules valuation edge (id ∷ ids) =
    either (id_blocks rules valuation edge id) (ids_block rules valuation edge ids)

abbrev pub is_blocked : Map Str CutRule → Map Str Bool → ActiveCut → List FrozenEdge → Option Bool
is_blocked rules valuation cut [] = some false
is_blocked rules valuation cut (edge ∷ frozen) =
    either (if crosses cut edge then ids_block rules valuation edge.id cut.ids else some false)
      (is_blocked rules valuation cut frozen)

abbrev pub all_ruled : Map Str CutRule → Set Str → Bool
all_ruled rules [] = true
all_ruled rules (id ∷ ids) = is_some (lookup id rules) && all_ruled rules ids

-- A cut that is not blocked has its rules read, for the events.
abbrev pub with_rules : Bool → Option Bool → Option Bool
with_rules ruled none = none
with_rules ruled (some true) = some true
with_rules ruled (some false) = if ruled then some false else none

abbrev pub add_applied : ActiveCut → Option Bool → Option (List ActiveCut) → Option (List ActiveCut)
add_applied cut none cuts = none
add_applied cut (some true) cuts = cuts
add_applied cut (some false) none = none
add_applied cut (some false) (some cuts) = some (cut ∷ cuts)

-- The loop over the cuts; those applied keep their order.
unfoldable pub apply_cuts :
    Map Str CutRule → Map Str Bool → List FrozenEdge → List ActiveCut → Option (List ActiveCut)
apply_cuts rules valuation frozen [] = some []
apply_cuts rules valuation frozen (cut ∷ cuts) =
    add_applied cut (with_rules (all_ruled rules cut.ids) (is_blocked rules valuation cut frozen))
      (apply_cuts rules valuation frozen cuts)
