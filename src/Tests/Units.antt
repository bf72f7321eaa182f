-- ===== src/Tests/Units.antt =====
-- Witnesses of the theorems on digests and on the derivation of units: a couple with a child, of whom
-- the couple are joined by an edge.
use axiom_rules_engine.Prelude.{
  none, In, here, there, ◌↔◌, ◌≡◌, ◌≢◌, refl, sym, subst, Bool, true, false, some, List, [], ◌∷◌,
  length, arith, if◌then◌else◌, ltb, ◌-◌,
}
use axiom_rules_engine.Prelude.Ord.{Str, str_ord}
use axiom_rules_engine.Prelude.Text.{codes}
use axiom_rules_engine.BTree.{lookup, mem, Map, Set, set_insert}
use axiom_rules_engine.Units.Types.{
  Citation, Evidence, ObservedBool, ConstitutionInput, FactRef, fact, derived, not, Stratum,
  DerivedBool, EdgeKind, ok, err, uncheckable_world_space,
}
use axiom_rules_engine.Units.Keys.{key, key-collides}
use axiom_rules_engine.Units.Encoder.{bool_expr, unit_preimage, constitution_input, sorted}
use axiom_rules_engine.Units.Encoder.Codes.{AreShort}
use axiom_rules_engine.Units.Encoder.Exprs.{ExprShort}
use axiom_rules_engine.Units.Encoder.Identity.{SameMembers, unit_preimage-injective}
use axiom_rules_engine.Units.Encoder.Requests.{
  SameRequest, IsEncodable, constitution_input-SameRequest,
}
use axiom_rules_engine.Units.Worlds.{
  Variable, normalize_observations, variable_world_count, enumerate_worlds, usize_limit,
}
use axiom_rules_engine.Units.Worlds.Observed.{Describes, normalize_observations-Describes}
use axiom_rules_engine.Units.Worlds.Counted.{variable_world_count-length}
use axiom_rules_engine.Units.Worlds.Covered.{Covers, enumerate_worlds-Covers}
use axiom_rules_engine.Units.Evaluate.{evaluate}
use axiom_rules_engine.Units.Evaluate.Judged.{Judges, evaluate-Judges}
use axiom_rules_engine.Units.Types.{literal, Derivation, CutRule, CutEdgeDecision, AttachmentRule}
use axiom_rules_engine.Units.Division.{ActiveCut, Attached}
use axiom_rules_engine.Units.Division.Partition.{Divided}
use axiom_rules_engine.Units.Cuts.{apply_cuts}
use axiom_rules_engine.Units.Cuts.Applied.{
  Any, EdgeBlocks, EdgesReady, CutReady, apply_cuts-Applies,
}
use axiom_rules_engine.Units.Types.{EdgeRule}
use axiom_rules_engine.Units.Freeze.{frozen_edge, freeze_edges}
use axiom_rules_engine.Units.Freeze.Active.{Selects, Freezes, EdgeErrs, freeze_edges-Selects}
use axiom_rules_engine.Units.Types.{CutOrder}
use axiom_rules_engine.Prelude.{◌⊎◌, inl, inr, ◌∙◌}
use axiom_rules_engine.Units.Precedence.{cut_set_precedes}
use axiom_rules_engine.Units.Precedence.Outranks.{
  Answers, Reached, at_first, onward, cut_set_precedes-Answers,
}
use axiom_rules_engine.Units.World.{divide_world}
use axiom_rules_engine.Units.World.Divided.{divide_world-Divided}
use axiom_rules_engine.Units.Components.{FrozenEdge, graph_components}
use axiom_rules_engine.Units.Components.Connected.{IsComponents, graph_components-IsComponents}

-- A marries b.
abbrev married : FactRef
married = FactRef.relation (codes "m") (codes "a" ∷ codes "b" ∷ [])

key-collides_example :
    (FactRef.relation (codes "a:b") (codes "p" ∷ [])
      ≢ FactRef.relation (codes "a") (codes "b:p" ∷ []))
    × (key (FactRef.relation (codes "a:b") (codes "p" ∷ []))
        ≡ key (FactRef.relation (codes "a") (codes "b:p" ∷ [])))
key-collides_example = key-collides (codes "a") (codes "b") (codes "p") []

in_order : sorted (codes "a" ∷ codes "b" ∷ []) ≡ codes "a" ∷ codes "b" ∷ []
unfolding sorted set_insert
in_order = refl

unit_preimage-injective_example :
    (codes "d" ≡ codes "d")
    × (codes "r" ≡ codes "r")
    × (codes "s" ≡ codes "s")
    × (codes "t" ≡ codes "t")
    × SameMembers (codes "a" ∷ codes "b" ∷ []) (codes "b" ∷ codes "a" ∷ [])
unfolding sorted unit_preimage set_insert
unit_preimage-injective_example =
    unit_preimage-injective (codes "d") (codes "d") (codes "r") (codes "r") (codes "s") (codes "s")
      (codes "t") (codes "t") (codes "a" ∷ codes "b" ∷ []) (codes "b" ∷ codes "a" ∷ []) refl
      (omega arith) (omega arith) (omega arith) (omega arith) (omega arith) (omega arith)
      (omega arith, (omega arith, (omega arith, tt)))
      (omega arith, (omega arith, (omega arith, tt))) refl

abbrev law : Citation
law = record { provision = codes "12"; authority = codes "court" }

abbrev paper : Evidence
paper = record { id = codes "e"; citation = law }

abbrev seen : Bool → ObservedBool
seen b = record { value = b; evidence = paper }

-- A request with its persons named in one order and in the other.
abbrev request : List Str → ConstitutionInput
request persons = record {
  roster = record {
    relation = codes "r";
    scope = codes "s";
    persons = persons;
    completeness = some paper;
  };
  segment = codes "t";
  segment_complete = true;
  relation_families =
      record {
        name = codes "m";
        scope = codes "s";
        completeness = none;
        facts = record { tuple = codes "a" ∷ codes "b" ∷ []; observation = seen true } ∷ [];
      }
      ∷ [];
  bool_facts =
      record {
        name = codes "f";
        observations = seen true ∷ seen false ∷ [];
        explicit_unknown = none;
      }
      ∷ [];
  supplied_entities = record { entity_type = codes "k"; id = codes "a"; evidence = paper } ∷ [];
  integrity_constraints =
      record { id = codes "c"; expr = derived (codes "x"); citation = law } ∷ [];
}

request-IsEncodable :
    (persons : List Str)
    → sorted persons ≡ codes "a" ∷ codes "b" ∷ []
    → IsEncodable (request persons)
unfolding sorted set_insert ExprShort bool_expr
request-IsEncodable persons e = record {
  relation = omega arith;
  scope = omega arith;
  persons = subst AreShort (sym e) (omega arith, (omega arith, (omega arith, tt)));
  completeness = (omega arith, (omega arith, omega arith));
  segment = omega arith;
  families = (omega arith, (omega arith, tt));
  facts = (omega arith, (omega arith, tt));
  entities = (omega arith, (omega arith, tt));
  constraints = (omega arith, (omega arith, tt));
  all_entities = ((omega arith, omega arith, (omega arith, (omega arith, omega arith))), tt);
  all_constraints = ((omega arith, omega arith, (omega arith, omega arith)), tt);
}

constitution_input-SameRequest_example :
    SameRequest (request (codes "a" ∷ codes "b" ∷ [])) (request (codes "b" ∷ codes "a" ∷ []))
    × (codes "end" ≡ codes "end")
unfolding sorted constitution_input set_insert
constitution_input-SameRequest_example =
    constitution_input-SameRequest (request (codes "a" ∷ codes "b" ∷ []))
      (request (codes "b" ∷ codes "a" ∷ [])) (codes "end") (codes "end")
      (request-IsEncodable (codes "a" ∷ codes "b" ∷ []) refl)
      (request-IsEncodable (codes "b" ∷ codes "a" ∷ []) refl) refl

normalize_observations-Describes_example :
    Describes (seen true ∷ seen false ∷ []) (normalize_observations (seen true ∷ seen false ∷ []))
normalize_observations-Describes_example =
    normalize_observations-Describes (seen true ∷ seen false ∷ [])

-- One fact without a known value, and one with two.
abbrev open_facts : List Variable
open_facts = (codes "f", false ∷ true ∷ []) ∷ (codes "g", true ∷ []) ∷ []

variable_world_count-length_example : variable_world_count open_facts ≡ (
    if ltb (length (enumerate_worlds open_facts [])) usize_limit
    then ok (length (enumerate_worlds open_facts []))
    else err (uncheckable_world_space (usize_limit - 1) (usize_limit - 1)))
variable_world_count-length_example =
    variable_world_count-length open_facts [] (omega arith, (omega arith, tt))

enumerate_worlds-Covers_example : Covers open_facts []
enumerate_worlds-Covers_example = enumerate_worlds-Covers open_facts [] ((refl, tt), (tt, tt))

-- `x` is married, and `y` is not `y`.
abbrev constitution : Map Str DerivedBool
constitution =
    (codes "x", record { id = codes "x"; stratum = Stratum.person; expr = fact married })
    ∷ (
      codes "y",
      record { id = codes "y"; stratum = Stratum.person; expr = not (derived (codes "y")) },
    )
    ∷ []

evaluate-Judges_example :
    Judges [] constitution (derived (codes "y")) (evaluate [] constitution (derived (codes "y")))
evaluate-Judges_example = evaluate-Judges [] constitution (derived (codes "y"))

abbrev marriage : FrozenEdge
marriage = record {
  id = codes "spouses";
  kind = EdgeKind.base;
  left = codes "a";
  right = codes "b";
  citation = law;
}

abbrev persons : Set Str
persons = codes "a" ∷ codes "b" ∷ codes "child" ∷ []

graph_components-IsComponents_example :
    (blocks : List (Set Str)) × (graph_components persons (marriage ∷ []) ≡ some blocks)
    × IsComponents persons (marriage ∷ []) blocks
graph_components-IsComponents_example = graph_components-IsComponents persons (marriage ∷ [])

-- A cut of the child, which overrides the edge to the parent `b`.
abbrev parent : FrozenEdge
parent = record {
  id = codes "parent";
  kind = EdgeKind.combination;
  left = codes "b";
  right = codes "child";
  citation = law;
}

abbrev emancipated : CutRule
emancipated = record {
  id = codes "cut";
  members = codes "child" ∷ [];
  when = literal true;
  citation = law;
  election = none;
  edge_precedence =
      record { edge_rule = codes "parent"; decision = CutEdgeDecision.overrides law } ∷ [];
  precedes = [];
}

abbrev active_cut : ActiveCut
active_cut = record { ids = codes "cut" ∷ []; members = codes "child" ∷ []; citations = law ∷ [] }

abbrev cut_rules : Map Str CutRule
cut_rules = (codes "cut", emancipated) ∷ []

-- The child goes back to `a`.
abbrev return : AttachmentRule
return = record {
  id = codes "return";
  members = codes "child" ∷ [];
  target_anchor = codes "a";
  when = literal true;
  actor = codes "court";
  election = none;
  citation = law;
}

abbrev edges : List FrozenEdge
edges = marriage ∷ parent ∷ []

active-EdgesReady : (cut : ActiveCut) → In cut (active_cut ∷ []) → EdgesReady cut_rules [] edges cut
unfolding lookup
active-EdgesReady cut here edge here c id i = absurd (clash c)
  where
    clash : false ≡ true → ⊥
    clash e = cc
active-EdgesReady cut here edge (there here) c id here = (
  emancipated,
  record { edge_rule = codes "parent"; decision = CutEdgeDecision.overrides law },
  refl,
  refl,
  tt,
)
active-EdgesReady cut here edge (there here) c id (there j) = elim j [ ]
active-EdgesReady cut here edge (there (there j)) c id i = elim j [ ]
active-EdgesReady cut (there j) edge i c id k = elim j [ ]

active-CutReady : (cut : ActiveCut) → In cut (active_cut ∷ []) → CutReady cut_rules [] edges cut
unfolding lookup
active-CutReady cut here = (refl, active-EdgesReady active_cut here)
active-CutReady cut (there j) = elim j [ ]

members_listed :
    (cut : ActiveCut)
    → In cut (active_cut ∷ [])
    → (u : Str) → mem u cut.members ≡ true
    → mem u persons ≡ true
members_listed cut here u m = ground arith
members_listed cut (there j) u m = elim j [ ]

apply_cuts-Applies_example :
    (applied : List ActiveCut) × (apply_cuts cut_rules [] edges (active_cut ∷ []) ≡ some applied)
    × ((cut : ActiveCut)
        → In cut applied
          ↔ (In cut (active_cut ∷ []) × (Any (EdgeBlocks cut_rules [] cut) edges → ⊥)))
apply_cuts-Applies_example = apply_cuts-Applies cut_rules [] edges (active_cut ∷ []) active-CutReady

divide_world-Divided_example :
    (r : Derivation Attached) × (divide_world cut_rules [] [] persons []
        (active_cut ∷ [])
        edges
        (return ∷ [])
      ≡ some r)
    × Divided [] [] persons [] (return ∷ []) r
divide_world-Divided_example =
    divide_world-Divided cut_rules [] [] persons [] (active_cut ∷ []) edges (return ∷ [])
      active-CutReady members_listed ((λ u m. ground arith), tt)

-- A marriage, unless `x` holds.
abbrev wedding : EdgeRule
wedding = record {
  id = codes "spouses";
  kind = EdgeKind.base;
  left = codes "a";
  right = codes "b";
  when = literal true;
  citation = law;
  defeaters = record { id = codes "void"; when = derived (codes "x"); citation = law } ∷ [];
}

freeze_edges-Selects_example :
    Selects frozen_edge
      (Freezes [] constitution)
      (EdgeErrs [] constitution)
      (wedding ∷ [])
      (freeze_edges [] constitution (wedding ∷ []))
freeze_edges-Selects_example = freeze_edges-Selects [] constitution (wedding ∷ [])

-- Two cuts, of which the first names the second as lower.
abbrev lower_order : CutOrder
lower_order = record { lower_priority_cut = codes "low"; citation = law }

abbrev ranked : List CutOrder → CutRule
ranked orders = record {
  id = codes "cut";
  members = codes "child" ∷ [];
  when = literal true;
  citation = law;
  election = none;
  edge_precedence = [];
  precedes = orders;
}

abbrev ranking : Map Str CutRule
ranking = (codes "high", ranked (lower_order ∷ [])) ∷ (codes "low", ranked []) ∷ []

abbrev high : Set Str
high = codes "high" ∷ []

ranking-Reached : (a : Str) → Reached ranking high a → (a ≡ codes "high") ⊎ (a ≡ codes "low")
unfolding lookup
ranking-Reached a (at_first here) = inl refl
ranking-Reached a (at_first (there j)) = elim j [ ]
ranking-Reached b (onward {a = a} r (rule, order, e, i, same)) = elim (ranking-Reached a r) [
  | inl first ↦ inr (
      sym same ∙ only order (subst (λ (x : CutRule). In order x.precedes) (found rule a first e) i))
  | inr second ↦
      absurd (none_in order (subst (λ (x : CutRule). In order x.precedes) (last rule a second e) i))
]
  where
    found :
        (x : CutRule) (n : Str)
        → n ≡ codes "high"
        → lookup n ranking ≡ some x
        → x ≡ ranked (lower_order ∷ [])
    found x n p q =
        let here' : lookup (codes "high") ranking ≡ some x =
          subst (λ m. lookup m ranking ≡ some x) p q in
        let two : some (ranked (lower_order ∷ [])) ≡ some x = here' in cc

    last : (x : CutRule) (n : Str) → n ≡ codes "low" → lookup n ranking ≡ some x → x ≡ ranked []
    last x n p q =
        let here' : lookup (codes "low") ranking ≡ some x =
          subst (λ m. lookup m ranking ≡ some x) p q in
        let two : some (ranked []) ≡ some x = here' in cc

    only : (o : CutOrder) → In o (lower_order ∷ []) → o.lower_priority_cut ≡ codes "low"
    only o here = refl
    only o (there j) = elim j [ ]

    none_in : (o : CutOrder) → In o [] → ⊥
    none_in o j = elim j [ ]

ranking_ruled :
    (a : Str) → Reached ranking high a → (rule : CutRule) × (lookup a ranking ≡ some rule)
unfolding lookup
ranking_ruled a r = elim (ranking-Reached a r) [
  | inl first ↦ (
    ranked (lower_order ∷ []),
    subst (λ m. lookup m ranking ≡ some (ranked (lower_order ∷ []))) (sym first) refl,
  )
  | inr second ↦ (ranked [], subst (λ m. lookup m ranking ≡ some (ranked [])) (sym second) refl)
]

cut_set_precedes-Answers_example :
    Answers ranking high (codes "low" ∷ []) (cut_set_precedes ranking high (codes "low" ∷ []))
cut_set_precedes-Answers_example =
    cut_set_precedes-Answers ranking high (codes "low" ∷ []) ranking_ruled
