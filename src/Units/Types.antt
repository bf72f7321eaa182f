-- ===== src/Units/Types.antt =====
-- The data of a request (src/unit_derivation/types.rs).
use axiom_rules_engine.Prelude.{ℕ, Bool, Option, List}
use axiom_rules_engine.Prelude.Ord.{Str}

pub record Citation : Type 0 where
  pub provision : Str
  pub authority : Str

pub record Evidence : Type 0 where
  pub id : Str
  pub citation : Citation

pub record ObservedBool : Type 0 where
  pub value : Bool
  pub evidence : Evidence

pub record RelationFact : Type 0 where
  pub tuple : List Str
  pub observation : ObservedBool

pub record RelationFamilyInput : Type 0 where
  pub name : Str
  pub scope : Str
  pub completeness : Option Evidence
  pub facts : List RelationFact

pub record BoolFactInput : Type 0 where
  pub name : Str
  pub observations : List ObservedBool
  pub explicit_unknown : Option Evidence

pub record RosterInput : Type 0 where
  pub relation : Str
  pub scope : Str
  pub persons : List Str
  pub completeness : Option Evidence

pub record SuppliedEntity : Type 0 where
  pub entity_type : Str
  pub id : Str
  pub evidence : Evidence

pub data FactRef : Type 0 where
  bool : Str → FactRef
  relation : (family : Str) (tuple : List Str) → FactRef

mutual
  pub data BoolExpr : Type 0 where
    literal : Bool → BoolExpr
    fact : FactRef → BoolExpr
    derived : Str → BoolExpr
    and or : BoolExprs → BoolExpr
    not : BoolExpr → BoolExpr

  pub data BoolExprs : Type 0 where
    nil : BoolExprs
    cons : BoolExpr → BoolExprs → BoolExprs

pub data Stratum : Type 0 where
  person candidate unit : Stratum

pub record DerivedBool : Type 0 where
  pub id : Str
  pub stratum : Stratum
  pub expr : BoolExpr

pub record IntegrityConstraint : Type 0 where
  pub id : Str
  pub expr : BoolExpr
  pub citation : Citation

pub record ConstitutionInput : Type 0 where
  pub roster : RosterInput
  pub segment : Str
  pub segment_complete : Bool
  pub relation_families : List RelationFamilyInput
  pub bool_facts : List BoolFactInput
  pub supplied_entities : List SuppliedEntity
  pub integrity_constraints : List IntegrityConstraint

pub data CutEdgeDecision : Type 0 where
  blocked overrides : Citation → CutEdgeDecision
  unresolved : (issue : Str) → CutEdgeDecision

pub record CutEdgePrecedence : Type 0 where
  pub edge_rule : Str
  pub decision : CutEdgeDecision

pub record CutOrder : Type 0 where
  pub lower_priority_cut : Str
  pub citation : Citation

pub data MissingElectionPolicy : Type 0 where
  unknown : MissingElectionPolicy
  authority_default : (value : Bool) (citation : Citation) → MissingElectionPolicy

pub record ElectionRequirement : Type 0 where
  pub fact : Str
  pub actor : Str
  pub missing : MissingElectionPolicy

-- `members` is a set, by its elements.
pub record CutRule : Type 0 where
  pub id : Str
  pub members : List Str
  pub when : BoolExpr
  pub citation : Citation
  pub election : Option ElectionRequirement
  pub edge_precedence : List CutEdgePrecedence
  pub precedes : List CutOrder

-- `members` is a set, by its elements.
pub record AttachmentRule : Type 0 where
  pub id : Str
  pub members : List Str
  pub target_anchor : Str
  pub when : BoolExpr
  pub actor : Str
  pub election : Option ElectionRequirement
  pub citation : Citation

-- The errors of the constitution and its facts; those of projections and aggregation are left out.
pub data UnitDerivationError : Type 0 where
  disabled : UnitDerivationError
  unsupported_experimental_version : Str → UnitDerivationError
  duplicate_namespace : (space id : Str) → UnitDerivationError
  unknown_reference : (from' reference : Str) → UnitDerivationError
  cyclic_dependency : Str → UnitDerivationError
  unit_stratum_dependency invalid_plan : Str → UnitDerivationError
  requires_segmentation : UnitDerivationError
  uncheckable_world_space : (worlds maximum : ℕ) → UnitDerivationError
  supplied_and_derived_membership : Str → UnitDerivationError

-- A result; `exhausted` is the model's own, for a lack of fuel.
pub data Derivation {ℓ} (A : Type ℓ) : Type ℓ where
  ok : A → Derivation A
  err : UnitDerivationError → Derivation A
  exhausted : Derivation A

pub data EdgeKind : Type 0 where
  base combination : EdgeKind

pub record EdgeDefeater : Type 0 where
  pub id : Str
  pub when : BoolExpr
  pub citation : Citation

pub record EdgeRule : Type 0 where
  pub id : Str
  pub kind : EdgeKind
  pub left : Str
  pub right : Str
  pub when : BoolExpr
  pub citation : Citation
  pub defeaters : List EdgeDefeater
