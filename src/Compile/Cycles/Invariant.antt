-- ===== src/Compile/Cycles/Invariant.antt =====
-- The invariant of the search for cycles (src/compile.rs, `detect_relation_cycle`).
use axiom_rules_engine.Prelude.{
  ℕ, suc, ◌<◌, ◌≡◌, ◌≢◌, Bool, true, false, some, List, [], ◌∷◌, length, get_elem?,
}
use axiom_rules_engine.Compile.Cycles.{Dependencies, deps_of, Search, flag, members}

-- `u` depends on `v` directly.
abbrev pub DependsOn : Dependencies → ℕ → ℕ → Type 0
DependsOn deps u v = (k : ℕ) × (get_elem? (deps_of deps u) k ≡ some v)

-- By one dependency or more.
pub data Walk (deps : Dependencies) : ℕ → ℕ → Type 0 where
  edge : {u v : ℕ} → DependsOn deps u v → Walk deps u v
  onward : {u v w : ℕ} → DependsOn deps u v → Walk deps v w → Walk deps u w

pub Walk-trans : {deps : Dependencies} {u v w : ℕ} → Walk deps u v → Walk deps v w → Walk deps u w
Walk-trans (edge d) q = onward d q
Walk-trans (onward d p) q = onward d (Walk-trans p q)

pub data In (v : ℕ) : List ℕ → Type 0 where
  here : {l : List ℕ} → In v (v ∷ l)
  there : {u : ℕ} {l : List ℕ} → In v l → In v (u ∷ l)

-- Every dependency is one of the relations.
abbrev pub InRange : Dependencies → Type 0
InRange deps = (u k v : ℕ) → get_elem? (deps_of deps u) k ≡ some v → v < length deps

module _ (deps : Dependencies) where
  -- The dependencies of `v` before the place `k` are finished.
  abbrev pub AllBefore : List Bool → ℕ → ℕ → Type 0
  AllBefore finished v k =
      (j d : ℕ) → j < k → get_elem? (deps_of deps v) j ≡ some d → flag finished d ≡ true

  -- Below `w` on the path stands a relation that was reading its dependency on `w`, and so on down.
  abbrev pub Below : List Bool → ℕ → List (ℕ × ℕ) → Type 0
  Below finished w [] = Unit
  Below finished w ((v, k) ∷ rest) =
      (j : ℕ) × (k ≡ suc j)
      × (get_elem? (deps_of deps v) j ≡ some w)
      × AllBefore finished v j
      × Below finished v rest

  abbrev pub TopReads : List Bool → List (ℕ × ℕ) → Type 0
  TopReads finished [] = Unit
  TopReads finished ((v, k) ∷ rest) = AllBefore finished v k × Below finished v rest

  abbrev pub NotIn : ℕ → List (ℕ × ℕ) → Type 0
  NotIn v [] = Unit
  NotIn v ((u, k) ∷ rest) = (v ≢ u) × NotIn v rest

  -- The relations on the path are marked, unfinished, and stand there once.
  abbrev pub Marked : List Bool → List Bool → List (ℕ × ℕ) → Type 0
  Marked on_path finished [] = Unit
  Marked on_path finished ((v, k) ∷ rest) =
      (v < length deps)
      × (flag finished v ≡ false)
      × (flag on_path v ≡ true)
      × NotIn v rest
      × Marked on_path finished rest

  -- Finished relations depend on finished relations of a lower rank.
  pub record Ranked (finished : List Bool) : Type 0 where
    pub rank : ℕ → ℕ
    pub clock : ℕ
    pub bounded : (u : ℕ) → flag finished u ≡ true → rank u < clock
    pub closed : (u v : ℕ) → flag finished u ≡ true → DependsOn deps u v → flag finished v ≡ true
    pub falls : (u v : ℕ) → flag finished u ≡ true → DependsOn deps u v → rank v < rank u

  pub record IsSound (s : Search) : Type 0 where
    pub on_path_length : length s.on_path ≡ length deps
    pub finished_length : length s.finished ≡ length deps
    pub ranked : Ranked s.finished
    pub top : TopReads s.finished s.path
    pub marked : Marked s.on_path s.finished s.path
    pub covered : (u : ℕ) → flag s.on_path u ≡ true → In u (members s.path)

  -- A walk up the path, from any relation on it to its top.
  Below-Walk :
      (finished : List Bool) (w u : ℕ) (rest : List (ℕ × ℕ))
      → Below finished w rest
      → In u (members rest)
      → Walk deps u w
  Below-Walk finished w u ((v, k) ∷ rest) (j, e, reads, before, below) here = edge (j, reads)
  Below-Walk finished w u ((v, k) ∷ rest) (j, e, reads, before, below) (there i) =
      Walk-trans (Below-Walk finished v u rest below i) (edge (j, reads))
  Below-Walk finished w u [] h i = not-In i
    where
      not-In : In u [] → Walk deps u w
      not-In i = elim i [ ]

  -- A dependency of the top that is on the path closes a cycle.
  pub path-Walk :
      (finished : List Bool) (node next d : ℕ) (rest : List (ℕ × ℕ))
      → Below finished node rest
      → DependsOn deps node d
      → In d (members ((node, next) ∷ rest))
      → Walk deps d d
  path-Walk finished node next d rest below reads here = edge reads
  path-Walk finished node next d rest below reads (there i) =
      Walk-trans (Below-Walk finished node d rest below i) (edge reads)
