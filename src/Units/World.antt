-- ===== src/Units/World.antt =====
-- The blocks of a world from its active cuts (src/unit_derivation/evaluate.rs, `evaluate_world`). `none` is a
-- panic. The active cuts are those after precedence and coalescing; `excluded` are the persons who are
-- indeterminate whatever the blocks are.
pub mod Divided
use axiom_rules_engine.Prelude.{Bool, Option, none, some, List}
use axiom_rules_engine.Prelude.Ord.{Str}
use axiom_rules_engine.BTree.{Map, Set}
use axiom_rules_engine.Units.Types.{CutRule, AttachmentRule, DerivedBool, Derivation}
use axiom_rules_engine.Units.Components.{FrozenEdge}
use axiom_rules_engine.Units.Division.{ActiveCut, Attached, world_blocks}
use axiom_rules_engine.Units.Cuts.{reject_overlaps, apply_cuts}

abbrev pub with_applied :
    (List ActiveCut → Derivation Attached) → Option (List ActiveCut) → Option (Derivation Attached)
with_applied go_on none = none
with_applied go_on (some applied) = some (go_on applied)

unfoldable pub divide_world :
    Map Str CutRule
    → Map Str Bool
    → Map Str DerivedBool
    → (persons excluded : Set Str) → List ActiveCut
    → List FrozenEdge
    → List AttachmentRule
    → Option (Derivation Attached)
divide_world cuts valuation rules persons excluded active frozen attachments =
    with_applied
      (λ applied. world_blocks valuation rules persons excluded applied frozen attachments)
      (apply_cuts cuts valuation frozen (reject_overlaps active))
