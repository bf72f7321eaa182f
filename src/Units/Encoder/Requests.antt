-- ===== src/Units/Encoder/Requests.antt =====
-- What the trace commits to of a request (src/unit_derivation/evaluate.rs, `constitution_input`).
use axiom_rules_engine.Prelude.{ℕ, ◌≡◌, List, ◌++◌, map, All, arith}
use axiom_rules_engine.Prelude.Ord.{str_ord}
use axiom_rules_engine.Units.Types.{ConstitutionInput, SuppliedEntity}
use axiom_rules_engine.Units.Encoder.{
  sorted, encode_bytes, encode_bool, encode_option, encode_evidence, relation_family, bool_fact,
  supplied_entity, integrity_constraint, constitution_input,
}
use axiom_rules_engine.Units.Encoder.Codes.{
  Decodes, IsShort, AreShort, OptionAll, EvidenceShort, pair-eq, bytes-Decodes, bool-Decodes,
  strings-Decodes, option-Decodes, evidence-Decodes,
}
use axiom_rules_engine.Units.Encoder.Exprs.{ConstraintShort, constraint-Decodes}
use axiom_rules_engine.Units.Encoder.Identity.{SameMembers, sorted-SameMembers}
use axiom_rules_engine.Units.Encoder.Items.{next_part, blobs-next, SameItems, members-SameItems}
use axiom_rules_engine.Units.Encoder.Records.{
  Alike, SameFamily, SameFact, families-Alike, facts-Alike,
}

abbrev pub EntityShort : SuppliedEntity → Type 0
EntityShort e = IsShort e.entity_type × IsShort e.id × EvidenceShort e.evidence

entity-Decodes : Decodes EntityShort supplied_entity
entity-Decodes a b r s p q e =
    let types =
      next_part encode_bytes bytes-Decodes a.entity_type b.entity_type
        (encode_bytes a.id ++ encode_evidence a.evidence)
        (encode_bytes b.id ++ encode_evidence b.evidence) r s p.0 q.0 e in
    let parts =
      pair-eq encode_bytes encode_evidence bytes-Decodes evidence-Decodes a.id b.id a.evidence
        b.evidence r s p.1 q.1 p.2 q.2 types.1 in
    (ground (arith, types, parts), parts.2)

-- Lengths that the encoding's `u64` holds, throughout a request.
pub record IsEncodable (input : ConstitutionInput) : Type 0 where
  pub relation : IsShort input.roster.relation
  pub scope : IsShort input.roster.scope
  pub persons : AreShort (sorted input.roster.persons)
  pub completeness : OptionAll EvidenceShort input.roster.completeness
  pub segment : IsShort input.segment
  pub families : AreShort (sorted (map relation_family input.relation_families))
  pub facts : AreShort (sorted (map bool_fact input.bool_facts))
  pub entities : AreShort (sorted (map supplied_entity input.supplied_entities))
  pub constraints : AreShort (sorted (map integrity_constraint input.integrity_constraints))
  pub all_entities : All EntityShort input.supplied_entities
  pub all_constraints : All ConstraintShort input.integrity_constraints

-- The same request, up to the order and the repetition of its records.
pub record SameRequest (a b : ConstitutionInput) : Type 0 where
  pub relation : a.roster.relation ≡ b.roster.relation
  pub scope : a.roster.scope ≡ b.roster.scope
  pub persons : SameMembers a.roster.persons b.roster.persons
  pub completeness : a.roster.completeness ≡ b.roster.completeness
  pub segment : a.segment ≡ b.segment
  pub segment_complete : a.segment_complete ≡ b.segment_complete
  pub families :
      SameMembers
        (map relation_family a.relation_families)
        (map relation_family b.relation_families)
  pub families_alike : Alike SameFamily a.relation_families b.relation_families
  pub facts : SameMembers (map bool_fact a.bool_facts) (map bool_fact b.bool_facts)
  pub facts_alike : Alike SameFact a.bool_facts b.bool_facts
  pub entities : SameItems a.supplied_entities b.supplied_entities
  pub constraints : SameItems a.integrity_constraints b.integrity_constraints

-- Two requests within the lengths that a `u64` holds, each followed by any bytes, are the same
-- request up to the order and the repetition of records if all the bytes are equal, and so are
-- the bytes that follow. Persons, entities and constraints are the same sets; the relation
-- families of the one are those of the other up to the order and the repetition of their facts,
-- and the boolean facts up to the order and the repetition of their observations. The sets of
-- the encodings of families and facts agree too.
pub constitution_input-SameRequest :
    (a b : ConstitutionInput) (r s : List ℕ)
    → IsEncodable a
    → IsEncodable b
    → constitution_input a ++ r ≡ constitution_input b ++ s
    → SameRequest a b × (r ≡ s)
unfolding constitution_input
constitution_input-SameRequest a b r s p q e =
    let one =
      next_part encode_bytes bytes-Decodes a.roster.relation b.roster.relation _ _ r s p.relation
        q.relation e in
    let two =
      next_part encode_bytes bytes-Decodes a.roster.scope b.roster.scope _ _ r s p.scope q.scope
        one.1 in
    let three = blobs-next a.roster.persons b.roster.persons _ _ r s p.persons q.persons two.1 in
    let four =
      next_part (encode_option encode_evidence) (option-Decodes encode_evidence evidence-Decodes)
        a.roster.completeness b.roster.completeness _ _ r s p.completeness q.completeness three.1 in
    let five =
      next_part encode_bytes bytes-Decodes a.segment b.segment _ _ r s p.segment q.segment four.1 in
    let six =
      next_part encode_bool bool-Decodes a.segment_complete b.segment_complete _ _ r s tt tt
        five.1 in
    let seven =
      blobs-next (map relation_family a.relation_families) (map relation_family b.relation_families)
        _ _ r s p.families q.families six.1 in
    let eight =
      blobs-next (map bool_fact a.bool_facts) (map bool_fact b.bool_facts) _ _ r s p.facts q.facts
        seven.1 in
    let nine =
      blobs-next (map supplied_entity a.supplied_entities) (map supplied_entity b.supplied_entities)
        _ _ r s p.entities q.entities eight.1 in
    let ten =
      strings-Decodes (sorted (map integrity_constraint a.integrity_constraints))
        (sorted (map integrity_constraint b.integrity_constraints)) r s p.constraints q.constraints
        nine.1 in
    (
      record {
        relation = one.0;
        scope = two.0;
        persons = three.0;
        completeness = four.0;
        segment = five.0;
        segment_complete = six.0;
        families = seven.0;
        families_alike =
            families-Alike a.relation_families b.relation_families p.families q.families seven.0;
        facts = eight.0;
        facts_alike = facts-Alike a.bool_facts b.bool_facts p.facts q.facts eight.0;
        entities =
            members-SameItems supplied_entity entity-Decodes a.supplied_entities b.supplied_entities
              p.all_entities q.all_entities nine.0;
        constraints =
            members-SameItems integrity_constraint constraint-Decodes a.integrity_constraints
              b.integrity_constraints p.all_constraints q.all_constraints
              (sorted-SameMembers (map integrity_constraint a.integrity_constraints)
                (map integrity_constraint b.integrity_constraints) ten.0);
      },
      ten.1,
    )
