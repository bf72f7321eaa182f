-- ===== src/Units/Division/Partition.antt =====
-- The blocks of a world divide its persons (src/unit_derivation/evaluate.rs, `evaluate_world`).
use axiom_rules_engine.Prelude.{
  ◌≡◌, refl, sym, ◌∙◌, subst, Bool, true, false, ◌&&◌, ◌||◌, not, List, [], ◌∷◌, All, In, here,
  there, Bool-cases, Option-cases, inl, inr, ◌⊎◌, arith,
}
use axiom_rules_engine.Prelude.Ord.{Str, str_ord}
use axiom_rules_engine.BTree.{Map, Set, mem}
use axiom_rules_engine.Units.Types.{AttachmentRule, DerivedBool, Derivation, ok, err, exhausted}
use axiom_rules_engine.Units.Evaluate.{evaluate}
use axiom_rules_engine.Units.Evaluate.Judged.{Judges, evaluate-Judges}
use axiom_rules_engine.Units.Components.{FrozenEdge}
use axiom_rules_engine.Units.Components.Canonical.{canonicalize_blocks-In, In-canonicalize_blocks}
use axiom_rules_engine.Units.Components.Separate.{Separate, canonicalize_blocks-Separate}
use axiom_rules_engine.Units.Division.{
  ActiveCut, minus, position, Attached, attach_to, attach, attach_all, canonical, attached_from,
  world_blocks,
}
use axiom_rules_engine.Units.Division.Held.{mem-minus, mem-extend_set, Held}
use axiom_rules_engine.Units.Division.Moves.{Divides, move_to-Divides, position-lt}
use axiom_rules_engine.Units.Division.Cuts.{members_of, first_blocks-Divides}

-- Every person who is not excluded stands in exactly one block, nobody else in any, and those attached
-- are among them; or the condition of an attachment failed, with its error.
abbrev pub Divided :
    Map Str Bool
    → Map Str DerivedBool
    → (persons excluded : Set Str) → List AttachmentRule
    → Derivation Attached
    → Type 0
Divided valuation rules persons excluded attachments (ok (blocks, attached)) =
    Divides (λ u. mem u (minus persons excluded)) blocks
    × ((u : Str) → mem u attached ≡ true → mem u (minus persons excluded) ≡ true)
Divided valuation rules persons excluded attachments (err e) =
    (rule : AttachmentRule) × In rule attachments × (evaluate valuation rules rule.when ≡ err e)
Divided valuation rules persons excluded attachments exhausted = ⊥

-- The attachments name only persons of the roster.
abbrev pub Name : Set Str → List AttachmentRule → Type 0
Name persons attachments =
    All (λ rule. (u : Str) → mem u rule.members ≡ true → mem u persons ≡ true) attachments

module _ (valuation : Map Str Bool) (rules : Map Str DerivedBool) (persons excluded : Set Str) where
  moving-listed :
      (rule : AttachmentRule)
      → ((u : Str) → mem u rule.members ≡ true → mem u persons ≡ true)
      → (u : Str) → mem u (minus rule.members excluded) ≡ true
      → mem u (minus persons excluded) ≡ true
  moving-listed rule h u m =
      let parts =
        both (mem u rule.members) (mem u excluded) (sym (mem-minus u rule.members excluded) ∙ m) in
      mem-minus u persons excluded ∙ rw (h u parts.0, parts.1) refl
    where
      both : (a b : Bool) → (a && not b) ≡ true → (a ≡ true) × (b ≡ false)
      both a b e = ground arith

  attach-Divided :
      (rule : AttachmentRule) (s : Attached)
      → ((u : Str) → mem u rule.members ≡ true → mem u persons ≡ true)
      → Divided valuation rules persons excluded [] (ok s)
      → Divided valuation rules persons excluded [] (ok (attach excluded rule s))
  attach-Divided rule (blocks, attached) h d =
      elim (Option-cases (position rule.target_anchor blocks)) [
        | inl none' ↦
            subst (λ o. Result (attach_to o (minus rule.members excluded) (blocks, attached)))
              (sym none') d
        | inr (i, found) ↦
            subst (λ o. Result (attach_to o (minus rule.members excluded) (blocks, attached)))
              (sym found)
              (
                move_to-Divides (λ u. mem u (minus persons excluded)) i
                    (minus rule.members excluded) blocks
                    (position-lt rule.target_anchor blocks i found) (moving-listed rule h) d.0,
                λ u m.
                    either u (Bool-cases (mem u (minus rule.members excluded)))
                      (sym (mem-extend_set u (minus rule.members excluded) attached) ∙ m),
              )
      ]
    where
      Result : Attached → Type 0
      Result s = Divided valuation rules persons excluded [] (ok s)

      either :
          (u : Str)
          → (mem u (minus rule.members excluded) ≡ true)
            ⊎ (mem u (minus rule.members excluded) ≡ false)
          → (mem u (minus rule.members excluded) || mem u attached) ≡ true
          → mem u (minus persons excluded) ≡ true
      either u (inl t) e = moving-listed rule h u t
      either u (inr f) e = d.1 u (subst (λ (x : Bool). (x || mem u attached) ≡ true) f e)

  later-Divided :
      (rule : AttachmentRule) (attachments : List AttachmentRule) (r : Derivation Attached)
      → Divided valuation rules persons excluded attachments r
      → Divided valuation rules persons excluded (rule ∷ attachments) r
  later-Divided rule attachments (ok s) d = d
  later-Divided rule attachments (err e) (other, i, same) = (other, there i, same)
  later-Divided rule attachments exhausted d = d

  attach_all-Divided :
      (attachments : List AttachmentRule) (s : Attached)
      → Name persons attachments
      → Divided valuation rules persons excluded [] (ok s)
      → Divided valuation rules persons excluded attachments
          (attach_all valuation rules excluded attachments s)
  attach_all-Divided [] s h d = d
  attach_all-Divided (rule ∷ attachments) s h d =
      by_value
        (attach_all-Divided attachments (attach excluded rule s) h.1 (attach-Divided rule s h.0 d))
        (attach_all-Divided attachments s h.1 d) (evaluate valuation rules rule.when) refl
        (evaluate-Judges valuation rules rule.when)
    where
      Result : Derivation Bool → Type 0
      Result v =
          Divided valuation rules persons excluded (rule ∷ attachments)
            (elim v as (λ x. Derivation Attached) [
              | ok true ↦ attach_all valuation rules excluded attachments (attach excluded rule s)
              | ok false ↦ attach_all valuation rules excluded attachments s
              | err e ↦ err e
              | exhausted ↦ exhausted
            ])

      by_value :
          Divided valuation rules persons excluded attachments
            (attach_all valuation rules excluded attachments (attach excluded rule s))
          → Divided valuation rules persons excluded attachments
              (attach_all valuation rules excluded attachments s)
          → (v : Derivation Bool) → evaluate valuation rules rule.when ≡ v
          → Judges valuation rules rule.when v
          → Result v
      by_value moved stays (ok true) e j =
          later-Divided rule attachments
            (attach_all valuation rules excluded attachments (attach excluded rule s)) moved
      by_value moved stays (ok false) e j =
          later-Divided rule attachments (attach_all valuation rules excluded attachments s) stays
      by_value moved stays (err x) e j = (rule, here, e)
      by_value moved stays exhausted e j = absurd j

  canonical-Divided :
      (attachments : List AttachmentRule) (r : Derivation Attached)
      → Divided valuation rules persons excluded attachments r
      → Divided valuation rules persons excluded attachments (canonical r)
  canonical-Divided attachments (ok (blocks, attached)) d = (
    record {
      covered = λ u h. let (b, i, m) = d.0.covered u h in (b, In-canonicalize_blocks b blocks i, m);
      inside = λ u (b, i, m). d.0.inside u (b, canonicalize_blocks-In b blocks i, m);
      separate = canonicalize_blocks-Separate blocks d.0.separate;
    },
    d.1,
  )
  canonical-Divided attachments (err e) d = d
  canonical-Divided attachments exhausted d = d

  -- If the applied cuts share no person, and they and the attachments name only persons of the roster, then
  -- the blocks are found: every person who is not excluded stands in exactly one of them, nobody else in any, and
  -- those attached are among them; or the condition of an attachment failed, and its error is the result.
  pub world_blocks-Divided :
      (applied : List ActiveCut) (frozen : List FrozenEdge) (attachments : List AttachmentRule)
      → Separate (members_of applied)
      → ((u : Str) → Held u (members_of applied) → mem u persons ≡ true)
      → Name persons attachments
      → Divided valuation rules persons excluded attachments
          (world_blocks valuation rules persons excluded applied frozen attachments)
  unfolding world_blocks
  world_blocks-Divided applied frozen attachments s inside' h =
      let (blocks, found, d) = first_blocks-Divides persons excluded applied frozen s inside' in
      subst
        (λ o.
          Divided valuation rules persons excluded attachments
            (attached_from valuation rules excluded attachments o))
        (sym found)
        (canonical-Divided attachments
          (attach_all valuation rules excluded attachments (blocks, []))
          (attach_all-Divided attachments (blocks, []) h (d, λ u m. cc)))
