-- ===== src/Units/Worlds.antt =====
-- The worlds that a request's facts leave open (src/unit_derivation/evaluate.rs): the normal form of the
-- observations, the variables, their number of worlds, and the worlds one after another.
pub mod Observed
pub mod Counted
pub mod Covered
use axiom_rules_engine.Prelude.{
  ℕ, suc, ◌+◌, ◌*◌, ◌^◌, ◌-◌, Bool, true, false, ◌&&◌, ◌||◌, not, Option, none, some, List, [], ◌∷◌,
  ◌++◌, map, length, if◌then◌else◌, ltb, flat_map,
}
use axiom_rules_engine.Prelude.Ord.{Str, str_ord}
use axiom_rules_engine.BTree.{Map, insert, key_eq}
use axiom_rules_engine.Units.Types.{
  Citation, ObservedBool, CutRule, CutEdgePrecedence, CutEdgeDecision, unresolved, blocked,
  overrides, Derivation, ok, err, uncheckable_world_space,
}
use axiom_rules_engine.Units.Keys.{legal_precedence_key}

pub data NormalizedBool : Type 0 where
  known : Bool → NormalizedBool
  unknown : NormalizedBool
  conflict : List Bool → NormalizedBool

abbrev pub same_bool : Bool → Bool → Bool
same_bool true b = b
same_bool false b = not b

abbrev pub same_observation : ObservedBool → ObservedBool → Bool
same_observation o q =
    same_bool o.value q.value
    && (key_eq o.evidence.id q.evidence.id
        && (key_eq o.evidence.citation.provision q.evidence.citation.provision
            && key_eq o.evidence.citation.authority q.evidence.citation.authority))

abbrev pub observed : ObservedBool → List ObservedBool → Bool
observed o [] = false
observed o (q ∷ l) = same_observation o q || observed o l

-- The set of the observations, once each; neither its size nor its values depend on its order.
abbrev pub distinct_insert : ObservedBool → List ObservedBool → List ObservedBool
distinct_insert o l = if observed o l then l else o ∷ l

abbrev pub distinct : List ObservedBool → List ObservedBool
distinct [] = []
distinct (o ∷ l) = distinct_insert o (distinct l)

abbrev pub has_value : Bool → List ObservedBool → Bool
has_value v [] = false
has_value v (o ∷ l) = same_bool v o.value || has_value v l

-- The set of the values, in order.
abbrev pub values_from : Bool → Bool → List Bool
values_from false false = []
values_from false true = true ∷ []
values_from true false = false ∷ []
values_from true true = false ∷ true ∷ []

abbrev pub values_of : List ObservedBool → List Bool
values_of l = values_from (has_value false l) (has_value true l)

abbrev pub normal_form : List ObservedBool → NormalizedBool
normal_form [] = unknown
normal_form (o ∷ []) = known o.value
normal_form (o ∷ q ∷ l) = conflict (values_of (o ∷ q ∷ l))

unfoldable pub normalize_observations : List ObservedBool → NormalizedBool
normalize_observations observations = normal_form (distinct observations)

abbrev pub Variable : Type 0
Variable = Str × List Bool

abbrev pub fact_variables : Map Str NormalizedBool → List Variable
fact_variables [] = []
fact_variables ((key, known value) ∷ values) = fact_variables values
fact_variables ((key, unknown) ∷ values) = (key, false ∷ true ∷ []) ∷ fact_variables values
fact_variables ((key, conflict candidates) ∷ values) = (key, candidates) ∷ fact_variables values

abbrev pub fixed_from : Map Str Bool → Map Str NormalizedBool → Map Str Bool
fixed_from fixed [] = fixed
fixed_from fixed ((key, known value) ∷ values) = fixed_from (insert key value fixed) values
fixed_from fixed ((key, unknown) ∷ values) = fixed_from fixed values
fixed_from fixed ((key, conflict candidates) ∷ values) = fixed_from fixed values

abbrev pub cut_variables : Str → List CutEdgePrecedence → List Variable
cut_variables cut [] = []
cut_variables cut (p ∷ rest) = elim p.decision [
  | unresolved issue ↦
      (legal_precedence_key cut p.edge_rule, false ∷ true ∷ []) ∷ cut_variables cut rest
  | _ ↦ cut_variables cut rest
]

unfoldable pub world_variables :
    Map Str CutRule → Map Str NormalizedBool → List Variable × Map Str Bool
world_variables cuts values = (
  fact_variables values ++ flat_map (λ e. cut_variables e.1.id e.1.edge_precedence) cuts,
  fixed_from [] values,
)

abbrev pub usize_limit : ℕ
usize_limit = 2 ^ 64

-- `try_fold` with `checked_mul`.
unfoldable pub count_from : ℕ → List Variable → Derivation ℕ
count_from count [] = ok count
count_from count ((key, values) ∷ variables) =
    if ltb (count * length values) usize_limit
    then count_from (count * length values) variables
    else err (uncheckable_world_space (usize_limit - 1) (usize_limit - 1))

unfoldable pub variable_world_count : List Variable → Derivation ℕ
unfolding count_from
variable_world_count variables = count_from 1 variables

unfoldable pub enumerate_worlds : List Variable → Map Str Bool → List (Map Str Bool)
enumerate_worlds [] valuation = valuation ∷ []
enumerate_worlds ((key, values) ∷ variables) valuation =
    flat_map (λ value. enumerate_worlds variables (insert key value valuation)) values
