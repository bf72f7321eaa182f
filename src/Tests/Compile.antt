-- ===== src/Tests/Compile.antt =====
-- Witness of the theorem on the check for cycles, with a run of it on a graph with a cycle and one
-- without: eligible and member read each other, and household reads eligible.
use axiom_rules_engine.Prelude.{◌≡◌, refl, [], ◌∷◌}
use axiom_rules_engine.Prelude.Ord.{Str}
use axiom_rules_engine.Prelude.Text.{codes}
use axiom_rules_engine.BTree.{Map, Set}
use axiom_rules_engine.Compile.Cycles.{
  accepted, cyclic_relation_dependency, detect_relation_cycle, search_cycle, from_root, follow,
  round, budget, dependencies_of, known, position_from, sort_names, join,
}
use axiom_rules_engine.Compile.Cycles.Report.{Answers, detect_relation_cycle-Answers}

abbrev entangled : Map Str (Set Str)
entangled =
    (codes "eligible", codes "member" ∷ [])
    ∷ (codes "household", codes "eligible" ∷ codes "person" ∷ [])
    ∷ (codes "member", codes "eligible" ∷ [])
    ∷ []

abbrev layered : Map Str (Set Str)
layered =
    (codes "eligible", codes "member" ∷ [])
    ∷ (codes "household", codes "eligible" ∷ codes "member" ∷ [])
    ∷ (codes "member", codes "person" ∷ [])
    ∷ []

entangled_refused :
    detect_relation_cycle entangled ≡ cyclic_relation_dependency (codes "eligible, member")
unfolding detect_relation_cycle search_cycle from_root follow round budget dependencies_of known
    position_from sort_names join
entangled_refused = refl

layered_accepted : detect_relation_cycle layered ≡ accepted
unfolding detect_relation_cycle search_cycle from_root follow round budget dependencies_of known
    position_from
layered_accepted = refl

detect_relation_cycle-Answers_example : Answers entangled (detect_relation_cycle entangled)
detect_relation_cycle-Answers_example =
    detect_relation_cycle-Answers entangled ((refl, (refl, tt)), ((refl, tt), (tt, tt)))
