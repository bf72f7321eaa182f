-- ===== src/Units/Encoder.antt =====
-- The bytes that a trace and a unit's identity commit to (src/unit_derivation/evaluate.rs,
-- `TraceEncoder` and `unit_id`). A method of the encoder is the bytes that it appends.
pub mod Codes
pub mod Exprs
pub mod Identity
pub mod Items
pub mod Records
pub mod Requests
use axiom_rules_engine.Prelude.{
  ℕ, suc, ◌+◌, ◌%◌, ◌^◌, Bool, true, false, Option, none, some, List, [], ◌∷◌, ◌++◌, map, length,
}
use axiom_rules_engine.Prelude.Ord.{Str, str_ord}
use axiom_rules_engine.Prelude.Text.{codes}
use axiom_rules_engine.BTree.{set_insert}
use axiom_rules_engine.Digest.{be_bytes32, be_bytes64, sha256, hex}
use axiom_rules_engine.Units.Types.{
  Citation, Evidence, ObservedBool, RelationFact, RelationFamilyInput, BoolFactInput, RosterInput,
  SuppliedEntity, FactRef, BoolExpr, BoolExprs, literal, fact, derived, and, or, not, nil, cons,
  IntegrityConstraint, ConstitutionInput,
}

abbrev pub encode_bool : Bool → List ℕ
encode_bool false = 0 ∷ []
encode_bool true = 1 ∷ []

-- `usize`, as a `u64`.
abbrev pub encode_usize : ℕ → List ℕ
encode_usize n = be_bytes64 n

-- `bytes` and `string`: the length and the bytes.
abbrev pub encode_bytes : List ℕ → List ℕ
encode_bytes value = encode_usize (length value) ++ value

abbrev pub encode_all : List Str → List ℕ
encode_all [] = []
encode_all (value ∷ values) = encode_bytes value ++ encode_all values

abbrev pub strings_in_order : List Str → List ℕ
strings_in_order values = encode_usize (length values) ++ encode_all values

-- `sort` and `dedup`: the strings once each, in the order of their bytes.
unfoldable pub sorted : List Str → List Str
sorted [] = []
sorted (value ∷ values) = set_insert value (sorted values)

-- `sorted_strings` and `sorted_blobs`.
abbrev pub sorted_blobs : List Str → List ℕ
sorted_blobs values = strings_in_order (sorted values)

abbrev pub encode_option {ℓ} : {A : Type ℓ} → (A → List ℕ) → Option A → List ℕ
encode_option encode none = 0 ∷ []
encode_option encode (some value) = 1 ∷ encode value

abbrev pub encode_citation : Citation → List ℕ
encode_citation c = encode_bytes c.provision ++ encode_bytes c.authority

abbrev pub encode_evidence : Evidence → List ℕ
encode_evidence e = encode_bytes e.id ++ encode_citation e.citation

abbrev pub observed_bool : ObservedBool → List ℕ
observed_bool o = encode_bool o.value ++ encode_evidence o.evidence

abbrev pub count : BoolExprs → ℕ
count nil = 0
count (cons e items) = suc (count items)

unfoldable mutual
  pub bool_expr : BoolExpr → List ℕ
  bool_expr (literal value) = 0 ∷ encode_bool value
  bool_expr (fact (FactRef.bool name)) = 1 ∷ encode_bytes name
  bool_expr (fact (FactRef.relation family tuple)) =
      2 ∷ (encode_bytes family ++ strings_in_order tuple)
  bool_expr (derived name) = 3 ∷ encode_bytes name
  bool_expr (and items) = 4 ∷ (encode_usize (count items) ++ bool_exprs items)
  bool_expr (or items) = 5 ∷ (encode_usize (count items) ++ bool_exprs items)
  bool_expr (not item) = 6 ∷ bool_expr item

  pub bool_exprs : BoolExprs → List ℕ
  bool_exprs nil = []
  bool_exprs (cons e items) = bool_expr e ++ bool_exprs items

abbrev pub relation_fact : RelationFact → List ℕ
relation_fact f = strings_in_order f.tuple ++ observed_bool f.observation

abbrev pub relation_family : RelationFamilyInput → List ℕ
relation_family f =
    encode_bytes f.name
    ++ (encode_bytes f.scope
        ++ (encode_option encode_evidence f.completeness
            ++ sorted_blobs (map relation_fact f.facts)))

abbrev pub bool_fact : BoolFactInput → List ℕ
bool_fact f =
    encode_bytes f.name
    ++ (sorted_blobs (map observed_bool f.observations)
        ++ encode_option encode_evidence f.explicit_unknown)

abbrev pub supplied_entity : SuppliedEntity → List ℕ
supplied_entity e = encode_bytes e.entity_type ++ (encode_bytes e.id ++ encode_evidence e.evidence)

abbrev pub integrity_constraint : IntegrityConstraint → List ℕ
integrity_constraint c = encode_bytes c.id ++ (bool_expr c.expr ++ encode_citation c.citation)

unfoldable pub constitution_input : ConstitutionInput → List ℕ
constitution_input input =
    encode_bytes input.roster.relation
    ++ (encode_bytes input.roster.scope
        ++ (sorted_blobs input.roster.persons
            ++ (encode_option encode_evidence input.roster.completeness
                ++ (encode_bytes input.segment
                    ++ (encode_bool input.segment_complete
                        ++ (sorted_blobs (map relation_family input.relation_families)
                            ++ (sorted_blobs (map bool_fact input.bool_facts)
                                ++ (sorted_blobs (map supplied_entity input.supplied_entities)
                                    ++ sorted_blobs (
                                        map integrity_constraint
                                          input.integrity_constraints)))))))))

-- `push_len_prefixed`, with the length as a `u32`.
abbrev pub len_prefixed : List ℕ → List ℕ
len_prefixed bytes = be_bytes32 (length bytes % 2 ^ 32) ++ bytes

abbrev pub members_prefixed : List Str → List ℕ
members_prefixed [] = []
members_prefixed (member ∷ members) = len_prefixed member ++ members_prefixed members

-- The domain tag, whose last byte is zero.
abbrev pub unit_domain : List ℕ
unit_domain = codes "axiom.unit-derivation.stage2" ++ (0 ∷ [])

unfoldable pub unit_preimage : List ℕ → Str → Str → Str → List Str → List ℕ
unfolding sorted
unit_preimage semantics_digest relation scope segment members =
    unit_domain
    ++ (semantics_digest
        ++ (len_prefixed relation
            ++ (len_prefixed scope
                ++ (len_prefixed segment
                    ++ (be_bytes32 (length (sorted members) % 2 ^ 32)
                        ++ members_prefixed (sorted members))))))

unfoldable pub unit_id : List ℕ → Str → Str → Str → List Str → Str
unfolding unit_preimage
unit_id semantics_digest relation scope segment members =
    codes "sha256:" ++ hex (sha256 (unit_preimage semantics_digest relation scope segment members))
