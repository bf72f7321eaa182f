-- ===== src/Units/World/Divided.antt =====
-- Every person of a world stands in one block (src/unit_derivation/evaluate.rs, `evaluate_world`).
use axiom_rules_engine.Prelude.{◌≡◌, ap, Bool, true, some, List, [], ◌∷◌, In, here, there, inl, inr}
use axiom_rules_engine.Prelude.Ord.{Str, str_ord}
use axiom_rules_engine.BTree.{Map, Set, mem}
use axiom_rules_engine.Units.Types.{CutRule, AttachmentRule, DerivedBool, Derivation}
use axiom_rules_engine.Units.Components.{FrozenEdge}
use axiom_rules_engine.Units.Division.{ActiveCut, Attached, world_blocks}
use axiom_rules_engine.Units.Division.Held.{Held, Held-cons}
use axiom_rules_engine.Units.Division.Cuts.{members_of}
use axiom_rules_engine.Units.Division.Partition.{Divided, Name, world_blocks-Divided}
use axiom_rules_engine.Units.Cuts.{reject_overlaps}
use axiom_rules_engine.Units.Cuts.Overlap.{reject_overlaps-Separate, reject_overlaps-In}
use axiom_rules_engine.Units.Cuts.Applied.{CutReady, apply_cuts-Applies, apply_cuts-apart}
use axiom_rules_engine.Units.World.{with_applied, divide_world}

members_of-Held :
    (persons : Set Str) (cuts : List ActiveCut)
    → ((cut : ActiveCut)
        → In cut cuts
        → (u : Str) → mem u cut.members ≡ true
        → mem u persons ≡ true)
    → (u : Str) → Held u (members_of cuts)
    → mem u persons ≡ true
members_of-Held persons [] h u (b, i, m) = elim i [ ]
members_of-Held persons (cut ∷ cuts) h u held =
    elim (Held-cons u cut.members (members_of cuts) held) [
      | inl m ↦ h cut here u m
      | inr later ↦ members_of-Held persons cuts (λ c i. h c (there i)) u later
    ]

-- If every active cut has its rules, every combination edge that crosses an active cut has its
-- precedence and, where that is unresolved, a side in the world, and the cuts and the attachments
-- name only persons of the roster, then nothing panics: every person who is not excluded stands in
-- exactly one block, nobody else in any, and those attached are among them; or the condition of an
-- attachment failed, and its error is the result.
pub divide_world-Divided :
    (cuts : Map Str CutRule) (valuation : Map Str Bool) (rules : Map Str DerivedBool)
    (persons excluded : Set Str) (active : List ActiveCut) (frozen : List FrozenEdge)
    (attachments : List AttachmentRule)
    → ((cut : ActiveCut) → In cut active → CutReady cuts valuation frozen cut)
    → ((cut : ActiveCut)
        → In cut active
        → (u : Str) → mem u cut.members ≡ true
        → mem u persons ≡ true)
    → Name persons attachments
    → (r : Derivation Attached) × (divide_world cuts valuation rules persons excluded active frozen
          attachments
        ≡ some r)
      × Divided valuation rules persons excluded attachments r
unfolding divide_world
divide_world-Divided cuts valuation rules persons excluded active frozen attachments ready inside
      named =
    let (applied, found, same) =
      apply_cuts-Applies cuts valuation frozen (reject_overlaps active)
        (λ cut i. ready cut (reject_overlaps-In active cut i)) in
    let (apart, within) =
      apply_cuts-apart cuts valuation frozen (reject_overlaps active) applied found
        (reject_overlaps-Separate active) in
    (
      world_blocks valuation rules persons excluded applied frozen attachments,
      ap (with_applied (λ l. world_blocks valuation rules persons excluded l frozen attachments))
          found,
      world_blocks-Divided valuation rules persons excluded applied frozen attachments apart
          (λ u held.
            members_of-Held persons (reject_overlaps active)
              (λ cut i. inside cut (reject_overlaps-In active cut i)) u (within u held))
          named,
    )
