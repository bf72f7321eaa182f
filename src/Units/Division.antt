-- ===== src/Units/Division.antt =====
-- The blocks of a world (src/unit_derivation/evaluate.rs, `evaluate_world`): the cuts that were applied, the
-- components of the other persons, and the attachments, which move persons to another block. The
-- events of the trace are left out.
pub mod Held
pub mod Moves
pub mod Cuts
pub mod Partition
use axiom_rules_engine.Prelude.{
  ℕ, zero, suc, Bool, true, false, ◌&&◌, not, Option, none, some, List, [], ◌∷◌, ◌++◌, map,
  if◌then◌else◌, keep,
}
use axiom_rules_engine.Prelude.Ord.{Str, str_ord}
use axiom_rules_engine.BTree.{Map, Set, mem, set_insert}
use axiom_rules_engine.Units.Types.{
  Citation, AttachmentRule, DerivedBool, Derivation, ok, err, exhausted,
}
use axiom_rules_engine.Units.Evaluate.{evaluate}
use axiom_rules_engine.Units.Components.{FrozenEdge, graph_components, canonicalize_blocks}

pub record ActiveCut : Type 0 where
  pub ids : Set Str
  pub members : Set Str
  pub citations : List Citation

-- `difference`, and `retain` with what is not in a set.
abbrev pub minus : Set Str → Set Str → Set Str
minus a b = keep (λ person. not (mem person b)) a

-- `BTreeSet::extend`
abbrev pub extend_set : Set Str → Set Str → Set Str
extend_set [] s = s
extend_set (person ∷ persons) s = extend_set persons (set_insert person s)

abbrev pub push_block : Set Str → List (Set Str) → List (Set Str)
push_block [] blocks = blocks
push_block (person ∷ members) blocks = (person ∷ members) ∷ blocks

abbrev pub cut_blocks : Set Str → List ActiveCut → List (Set Str)
cut_blocks excluded [] = []
cut_blocks excluded (cut ∷ cuts) =
    push_block (minus cut.members excluded) (cut_blocks excluded cuts)

abbrev pub cut_members : Set Str → List ActiveCut → Set Str → Set Str
cut_members excluded [] s = s
cut_members excluded (cut ∷ cuts) s =
    cut_members excluded cuts (extend_set (minus cut.members excluded) s)

abbrev pub residue : Set Str → Set Str → List ActiveCut → Set Str
residue persons excluded applied = minus (minus persons excluded) (cut_members excluded applied [])

abbrev pub within : Set Str → List FrozenEdge → List FrozenEdge
within members edges = keep (λ edge. mem edge.left members && mem edge.right members) edges

abbrev pub extend_blocks : List (Set Str) → Option (List (Set Str)) → Option (List (Set Str))
extend_blocks blocks none = none
extend_blocks blocks (some components) = some (blocks ++ components)

-- Before the attachments.
abbrev pub first_blocks :
    Set Str → Set Str → List ActiveCut → List FrozenEdge → Option (List (Set Str))
first_blocks persons excluded applied frozen = extend_blocks (cut_blocks excluded applied) (
    graph_components (residue persons excluded applied)
      (within (residue persons excluded applied) frozen))

abbrev pub later_position : Option ℕ → Option ℕ
later_position none = none
later_position (some i) = some (suc i)

-- `position`
abbrev pub position : Str → List (Set Str) → Option ℕ
position person [] = none
position person (block ∷ blocks) =
    if mem person block then some 0 else later_position (position person blocks)

-- `blocks[target].extend`
abbrev pub extend_at : ℕ → Set Str → List (Set Str) → List (Set Str)
extend_at i moving [] = []
extend_at zero moving (block ∷ blocks) = extend_set moving block ∷ blocks
extend_at (suc i) moving (block ∷ blocks) = block ∷ extend_at i moving blocks

-- `retain` of the blocks that are not empty.
abbrev pub nonempty : List (Set Str) → List (Set Str)
nonempty [] = []
nonempty (block ∷ blocks) = push_block block (nonempty blocks)

abbrev pub move_to : ℕ → Set Str → List (Set Str) → List (Set Str)
move_to target moving blocks =
    nonempty (extend_at target moving (map (λ block. minus block moving) blocks))

-- The blocks, and the persons attached.
abbrev pub Attached : Type 0
Attached = List (Set Str) × Set Str

abbrev pub attach_to : Option ℕ → Set Str → Attached → Attached
attach_to none moving s = s
attach_to (some target) moving (blocks, attached) =
    (move_to target moving blocks, extend_set moving attached)

abbrev pub attach : Set Str → AttachmentRule → Attached → Attached
attach excluded rule s = attach_to (position rule.target_anchor s.0) (minus rule.members excluded) s

abbrev pub attach_all :
    Map Str Bool
    → Map Str DerivedBool
    → Set Str
    → List AttachmentRule
    → Attached
    → Derivation Attached
attach_all valuation rules excluded [] s = ok s
attach_all valuation rules excluded (rule ∷ attachments) s =
    elim (evaluate valuation rules rule.when) [
      | ok true ↦ attach_all valuation rules excluded attachments (attach excluded rule s)
      | ok false ↦ attach_all valuation rules excluded attachments s
      | err e ↦ err e
      | exhausted ↦ exhausted
    ]

abbrev pub canonical : Derivation Attached → Derivation Attached
canonical (ok (blocks, attached)) = ok (canonicalize_blocks blocks, attached)
canonical (err e) = err e
canonical exhausted = exhausted

abbrev pub attached_from :
    Map Str Bool
    → Map Str DerivedBool
    → Set Str
    → List AttachmentRule
    → Option (List (Set Str))
    → Derivation Attached
attached_from valuation rules excluded attachments none = exhausted
attached_from valuation rules excluded attachments (some blocks) =
    canonical (attach_all valuation rules excluded attachments (blocks, []))

unfoldable pub world_blocks :
    Map Str Bool
    → Map Str DerivedBool
    → (persons excluded : Set Str) → List ActiveCut
    → List FrozenEdge
    → List AttachmentRule
    → Derivation Attached
world_blocks valuation rules persons excluded applied frozen attachments =
    attached_from valuation rules excluded attachments
      (first_blocks persons excluded applied frozen)
