-- ===== src/Compile/Cycles.antt =====
-- The search for cycles among derived relations (src/compile.rs, `detect_relation_cycle`): a depth-first
-- search with an explicit stack. The stack stands with its top first; a step is one round of the
-- inner loop, and the loop runs on a fuel of one more than the dependencies and twice the relations.
pub mod Flags
pub mod Invariant
pub mod Steps
pub mod Progress
pub mod Decides
pub mod Names
pub mod Report
use axiom_rules_engine.Prelude.{
  ℕ, zero, suc, ◌+◌, Bool, true, false, Option, none, some, List, [], ◌∷◌, ◌++◌, map, length,
  if◌then◌else◌, get_elem?, get_or, set, replicate, ltb,
}
use Prim.Native.Nat.{Ordering}
use axiom_rules_engine.Prelude.Ord.{Str, str_ord, cmp_str}
use axiom_rules_engine.Prelude.Text.{codes}
use axiom_rules_engine.BTree.{key_eq, Map, Set, keys}

-- The dependencies of each relation, by position in name order.
abbrev pub Dependencies : Type 0
Dependencies = List (List ℕ)

abbrev pub deps_of : Dependencies → ℕ → List ℕ
deps_of deps u = get_or deps u []

pub record Search : Type 0 where
  pub on_path : List Bool
  pub finished : List Bool
  pub path : List (ℕ × ℕ)

-- The outcome of a round: the path is empty, a cycle is found, or the search goes on.
pub data Round : Type 0 where
  done : Round
  found : List ℕ → Round
  goes_on : Search → Round

-- A vector of flags, read and written in range.
abbrev pub flag : List Bool → ℕ → Bool
flag flags u = get_or flags u false

abbrev pub members : List (ℕ × ℕ) → List ℕ
members path = map (λ e. e.0) path

-- The relation on top has no dependency left.
abbrev pub finish : ℕ → List (ℕ × ℕ) → Search → Search
finish node rest s = record {
  on_path = set s.on_path node false;
  finished = set s.finished node true;
  path = rest;
}

abbrev pub enter : ℕ → List (ℕ × ℕ) → Search → Search
enter node path s = record s { on_path = set s.on_path node true; path = (node, 0) ∷ path }

-- The next dependency of the relation on top, if it has one left.
abbrev pub visit : ℕ → ℕ → List (ℕ × ℕ) → Search → Option ℕ → Round
visit node next rest s none = goes_on (finish node rest s)
visit node next rest s (some dependency) =
    let path : List (ℕ × ℕ) = (node, suc next) ∷ rest in
    if flag s.finished dependency
    then goes_on (record s { path = path })
    else if flag s.on_path dependency
    then found (members path)
    else goes_on (enter dependency path s)

abbrev pub round_of : Dependencies → Search → List (ℕ × ℕ) → Round
round_of deps s [] = done
round_of deps s ((node, next) ∷ rest) = visit node next rest s (get_elem? (deps_of deps node) next)

unfoldable pub round : Dependencies → Search → Round
round deps s = round_of deps s s.path

pub data Verdict : Type 0 where
  clear : Search → Verdict
  cyclic : List ℕ → Verdict
  exhausted : Verdict

-- The inner loop.
unfoldable pub follow : ℕ → Dependencies → Search → Verdict
follow zero deps s = exhausted
follow (suc f) deps s = elim (round deps s) [
  | done ↦ clear s
  | found cycle ↦ cyclic cycle
  | goes_on s' ↦ follow f deps s'
]

-- Rounds enough: each relation is entered and finished once, and each dependency read once.
unfoldable pub budget : Dependencies → ℕ
budget [] = 1
budget (d ∷ deps) = 2 + length d + budget deps

-- The outer loop, with `left` roots to go.
unfoldable pub from_root : ℕ → ℕ → Dependencies → Search → Verdict
from_root zero root deps s = clear s
from_root (suc left) root deps s =
    let later : Verdict = from_root left (suc root) deps s in
    let searched : Verdict = elim (follow (budget deps) deps (enter root s.path s)) [
      | clear s' ↦ from_root left (suc root) deps s'
      | cyclic cycle ↦ cyclic cycle
      | exhausted ↦ exhausted
    ] in
    if flag s.finished root then later else searched

abbrev pub start : ℕ → Search
start n = record { on_path = replicate n false; finished = replicate n false; path = [] }

unfoldable pub search_cycle : Dependencies → Verdict
search_cycle deps = from_root (length deps) 0 deps (start (length deps))

-- `index.get(name)`: the position of a name.
unfoldable pub position_from : ℕ → List Str → Str → Option ℕ
position_from i [] name = none
position_from i (n ∷ names) name =
    let later = position_from (suc i) names name in if key_eq name n then some i else later

-- `filter_map`
abbrev pub onto : Option ℕ → List ℕ → List ℕ
onto none rest = rest
onto (some i) rest = i ∷ rest

unfoldable pub known : List Str → List Str → List ℕ
known names [] = []
known names (d ∷ rest) = onto (position_from 0 names d) (known names rest)

unfoldable pub dependencies_of : List Str → Map Str (Set Str) → Dependencies
dependencies_of names [] = []
dependencies_of names ((name, dependencies) ∷ graph) =
    known names dependencies ∷ dependencies_of names graph

-- `sort_unstable` on names, and `join(", ")`.
unfoldable pub insert_name : Str → List Str → List Str
insert_name n [] = n ∷ []
insert_name n (m ∷ names) =
    let later = insert_name n names in
    elim (cmp_str n m) [ Ordering.gt ↦ m ∷ later | _ ↦ n ∷ m ∷ names ]

unfoldable pub sort_names : List Str → List Str
unfolding insert_name
sort_names [] = []
sort_names (n ∷ names) = insert_name n (sort_names names)

unfoldable pub join : List Str → Str
join [] = []
join (n ∷ []) = n
join (n ∷ m ∷ names) = n ++ (codes ", " ++ join (m ∷ names))

-- The check's result: the error holds the names of the relations on the path.
pub data Checked : Type 0 where
  accepted : Checked
  cyclic_relation_dependency : Str → Checked
  unfinished : Checked

abbrev pub named : List Str → List ℕ → List Str
named names cycle = map (λ i. get_or names i []) cycle

abbrev pub report : List Str → Verdict → Checked
report names (clear s) = accepted
report names (cyclic cycle) = cyclic_relation_dependency (join (sort_names (named names cycle)))
report names exhausted = unfinished

unfoldable pub detect_relation_cycle : Map Str (Set Str) → Checked
detect_relation_cycle graph =
    report (keys graph) (search_cycle (dependencies_of (keys graph) graph))
