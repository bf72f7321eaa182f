-- ===== src/Units/Freeze.antt =====
-- The edges and the cuts that are active in a world (src/unit_derivation/evaluate.rs, `evaluate_world`). The
-- events of the trace are left out.
pub mod Active
use axiom_rules_engine.Prelude.{Bool, true, false, ◌&&◌, not, List, [], ◌∷◌, if◌then◌else◌}
use axiom_rules_engine.Prelude.Ord.{Str}
use axiom_rules_engine.BTree.{Map}
use axiom_rules_engine.Units.Types.{
  DerivedBool, EdgeDefeater, EdgeRule, CutRule, Derivation, ok, err, exhausted,
}
use axiom_rules_engine.Units.Evaluate.{evaluate}
use axiom_rules_engine.Units.Components.{FrozenEdge}
use axiom_rules_engine.Units.Division.{ActiveCut}

-- The first defeater that holds ends the loop.
abbrev pub is_defeated : Map Str Bool → Map Str DerivedBool → List EdgeDefeater → Derivation Bool
is_defeated valuation rules [] = ok false
is_defeated valuation rules (defeater ∷ defeaters) = elim (evaluate valuation rules defeater.when) [
  | ok true ↦ ok true
  | ok false ↦ is_defeated valuation rules defeaters
  | err e ↦ err e
  | exhausted ↦ exhausted
]

-- Both are evaluated, the edge's condition first.
abbrev pub is_frozen : Map Str Bool → Map Str DerivedBool → EdgeRule → Derivation Bool
is_frozen valuation rules edge = elim (evaluate valuation rules edge.when) [
  | ok active ↦ elim (is_defeated valuation rules edge.defeaters) [
    | ok defeated ↦ ok (active && not defeated)
    | err e ↦ err e
    | exhausted ↦ exhausted
  ]
  | err e ↦ err e
  | exhausted ↦ exhausted
]

abbrev pub frozen_edge : EdgeRule → FrozenEdge
frozen_edge edge = record {
  id = edge.id;
  kind = edge.kind;
  left = edge.left;
  right = edge.right;
  citation = edge.citation;
}

-- `if active { items.push(..) }`, after the item's condition and before the later ones.
abbrev pub push_active {ℓ} :
    {A : Type ℓ} → A → Derivation Bool → Derivation (List A) → Derivation (List A)
push_active a (ok true) (ok l) = ok (a ∷ l)
push_active a (ok true) (err e) = err e
push_active a (ok true) exhausted = exhausted
push_active a (ok false) rest = rest
push_active a (err e) rest = err e
push_active a exhausted rest = exhausted

unfoldable pub freeze_edges :
    Map Str Bool → Map Str DerivedBool → List EdgeRule → Derivation (List FrozenEdge)
freeze_edges valuation rules [] = ok []
freeze_edges valuation rules (edge ∷ edges) =
    push_active (frozen_edge edge) (is_frozen valuation rules edge)
      (freeze_edges valuation rules edges)

abbrev pub active_cut : CutRule → ActiveCut
active_cut cut = record { ids = cut.id ∷ []; members = cut.members; citations = cut.citation ∷ [] }

unfoldable pub active_cuts :
    Map Str Bool → Map Str DerivedBool → List CutRule → Derivation (List ActiveCut)
active_cuts valuation rules [] = ok []
active_cuts valuation rules (cut ∷ cuts) =
    push_active (active_cut cut) (evaluate valuation rules cut.when)
      (active_cuts valuation rules cuts)
