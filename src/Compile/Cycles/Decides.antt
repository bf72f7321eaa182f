-- ===== src/Compile/Cycles/Decides.antt =====
-- The whole search (src/compile.rs, `detect_relation_cycle`): the rounds given are enough, and the
-- verdict says whether a relation depends on itself.
use axiom_rules_engine.Prelude.{
  ℕ, zero, suc, ◌+◌, ◌≤◌, ◌<◌, ◌≡◌, refl, sym, ◌∙◌, ap, subst, Bool, true, false, ◌||◌, List, [],
  ◌∷◌, length, replicate, length-replicate, arith, inl, inr, Bool-cases,
}
use native.Mathlib.Decide.{ℕ_discrete}
use axiom_rules_engine.Compile.Cycles.{
  Dependencies, deps_of, Search, flag, members, enter, Round, done, found, goes_on, round, Verdict,
  clear, cyclic, exhausted, follow, budget, from_root, start, search_cycle,
}
use axiom_rules_engine.Compile.Cycles.Flags.{
  flag-set_self, flag-replicate, sum_below, sum_below-le, sum_below-suc,
}
use axiom_rules_engine.Compile.Cycles.Invariant.{
  DependsOn, Walk, edge, onward, In, InRange, Below, Ranked, IsSound,
}
use axiom_rules_engine.Compile.Cycles.Steps.{enter-IsSound}
use axiom_rules_engine.Compile.Cycles.Progress.{
  Outcome, ended, cycle_found, moved, round-Outcome, Keeps, seen, unmet, path_left, left_to_do,
  enter-left, enter-Keeps,
}

not-In : {u : ℕ} → In u [] → ⊥
not-In i = elim i [ ]

DependsOn-lt : (deps : Dependencies) (u v : ℕ) → DependsOn deps u v → u < length deps
DependsOn-lt [] u v (k, e) = cc
DependsOn-lt (d ∷ deps) zero v e = omega arith
DependsOn-lt (d ∷ deps) (suc u) v e = omega (arith, DependsOn-lt deps u v e)

sum_below-budget :
    (deps : Dependencies)
    → 1 + sum_below (length deps) (λ u. 2 + length (deps_of deps u)) ≡ budget deps
unfolding sum_below budget
sum_below-budget [] = refl
sum_below-budget (d ∷ deps) = omega (
  arith,
  sum_below-suc (length deps) (λ u. 2 + length (deps_of (d ∷ deps) u)),
  sum_below-budget deps,
)

module _ (deps : Dependencies) (range : InRange deps) where
  -- What holds of the outcome of the inner loop.
  data Followed (s : Search) : Verdict → Type 0 where
    emptied : {s' : Search} → IsSound deps s' → s'.path ≡ [] → Keeps s s' → Followed s (clear s')
    on_cycle : {c : List ℕ} (d : ℕ) → In d c → Walk deps d d → Followed s (cyclic c)

  Followed-Keeps : (s s' : Search) (v : Verdict) → Keeps s s' → Followed s' v → Followed s v
  Followed-Keeps s s' (clear t) k (emptied sound e k') = emptied sound e (λ u h. k' u (k u h))
  Followed-Keeps s s' (cyclic c) k (on_cycle d i w) = on_cycle d i w
  Followed-Keeps s s' exhausted k h = elim h [ ]

  follow-Followed :
      (f : ℕ) (s : Search) → IsSound deps s → left_to_do deps s < f → Followed s (follow f deps s)
  unfolding follow
  follow-Followed zero s sound h = absurd (omega arith)
  follow-Followed (suc f) s sound h =
      of_round (round deps s) refl (round-Outcome deps s range sound)
        (λ s' sound' less. follow-Followed f s' sound' less)
    where
      of_round :
          (r : Round)
          → round deps s ≡ r
          → Outcome deps s r
          → ((s' : Search)
              → IsSound deps s'
              → left_to_do deps s' < f
              → Followed s' (follow f deps s'))
          → Followed s (follow (suc f) deps s)
      of_round done e (ended path) again = rw (follow, e) (emptied sound path (λ u met. met))
      of_round (found c) e (cycle_found d i w) again = rw (follow, e) (on_cycle d i w)
      of_round (goes_on s') e (moved sound' less keeps) again =
          rw (follow, e)
            (Followed-Keeps s s' (follow f deps s') keeps (again s' sound' (omega arith)))

  -- With an empty path, every relation met is finished.
  met-finished :
      (s : Search) (u : ℕ)
      → IsSound deps s
      → s.path ≡ []
      → seen s u ≡ true
      → flag s.finished u ≡ true
  met-finished s u sound e met = elim (Bool-cases (flag s.finished u)) [
    | inl t ↦ t
    | inr f ↦ absurd (
        not-In (
          subst (λ path. In u (members path)) e
            (sound.covered u (subst (λ (b : Bool). (b || flag s.on_path u) ≡ true) f met))))
  ]

  off_path : (s : Search) (u : ℕ) → IsSound deps s → s.path ≡ [] → flag s.on_path u ≡ false
  off_path s u sound e = elim (Bool-cases (flag s.on_path u)) [
    | inl t ↦ absurd (not-In (subst (λ path. In u (members path)) e (sound.covered u t)))
    | inr f ↦ f
  ]

  unmet-le : (s : Search) (u : ℕ) → unmet deps s u ≤ 2 + length (deps_of deps u)
  unmet-le s u = elim (Bool-cases (seen s u)) [
    | inl t ↦ rw t (omega arith)
    | inr f ↦ rw f (omega arith)
  ]

  -- A root not met is searched within the rounds given.
  root-Followed :
      (s : Search) (root : ℕ)
      → root < length deps
      → flag s.finished root ≡ false
      → s.path ≡ []
      → IsSound deps s
      → Followed (enter root s.path s) (follow (budget deps) deps (enter root s.path s))
  root-Followed s root b fin e sound =
      let off = off_path s root sound e in
      let below : Below deps s.finished root s.path =
        subst (λ path. Below deps s.finished root path) (sym e) tt in
      let left = enter-left deps s root s.path b sound.on_path_length fin off in
      let none_left : path_left deps s.path ≡ 0 = ap (path_left deps) e in
      let all =
        sum_below-le (length deps) (unmet deps s) (λ u. 2 + length (deps_of deps u)) (unmet-le s) in
      follow-Followed (budget deps) (enter root s.path s)
        (enter-IsSound deps s root s.path b fin off below sound.marked sound.covered sound)
        (omega (arith, left, none_left, all, sum_below-budget deps))

  data Searched : Verdict → Type 0 where
    all_finished :
        {s : Search}
        → IsSound deps s
        → ((u : ℕ) → u < length deps → flag s.finished u ≡ true)
        → Searched (clear s)
    met_cycle : {c : List ℕ} (d : ℕ) → In d c → Walk deps d d → Searched (cyclic c)

  from_root-Searched :
      (left root : ℕ) (s : Search)
      → left + root ≡ length deps
      → s.path ≡ []
      → ((u : ℕ) → u < root → flag s.finished u ≡ true)
      → IsSound deps s
      → Searched (from_root left root deps s)
  unfolding from_root
  from_root-Searched zero root s n e before sound =
      all_finished sound (λ u h. before u (omega arith))
  from_root-Searched (suc left) root s n e before sound = elim (Bool-cases (flag s.finished root)) [
    | inl fin ↦
        rw fin (from_root-Searched left (suc root) s (omega arith) e (through s before fin) sound)
    | inr fresh ↦
        of_verdict (follow (budget deps) deps (enter root s.path s)) refl fresh
          (root-Followed s root (omega arith) fresh e sound)
          (λ s' e' before' sound'.
            from_root-Searched left (suc root) s' (omega arith) e' before' sound')
  ]
    where
      through :
          (t : Search)
          → ((u : ℕ) → u < root → flag t.finished u ≡ true)
          → flag t.finished root ≡ true
          → (u : ℕ) → u < suc root
          → flag t.finished u ≡ true
      through t below at u h = elim (ℕ_discrete u root) [
        | yes same ↦ subst (λ (w : ℕ). flag t.finished w ≡ true) (sym same) at
        | no other ↦ below u (omega arith)
      ]

      met_root : seen (enter root s.path s) root ≡ true
      met_root =
          let on = flag-set_self s.on_path root true (omega (arith, sound.on_path_length)) in
          elim (Bool-cases (flag s.finished root)) [ inl t ↦ rw t refl | inr t ↦ rw (t, on) refl ]

      of_verdict :
          (v : Verdict)
          → follow (budget deps) deps (enter root s.path s) ≡ v
          → flag s.finished root ≡ false
          → Followed (enter root s.path s) v
          → ((s' : Search)
              → s'.path ≡ []
              → ((u : ℕ) → u < suc root → flag s'.finished u ≡ true)
              → IsSound deps s'
              → Searched (from_root left (suc root) deps s'))
          → Searched (from_root (suc left) root deps s)
      of_verdict (cyclic c) q fresh (on_cycle d i w) again = rw (fresh, q) (met_cycle d i w)
      of_verdict exhausted q fresh h again = elim h [ ]
      of_verdict (clear s') q fresh (emptied sound' e' keeps) again =
          rw (fresh, q)
            (again s' e'
              (through s'
                (λ u h.
                  met-finished s' u sound' e'
                    (keeps u (enter-Keeps deps s root s.path u (rw (before u h) refl))))
                (met-finished s' root sound' e' (keeps root met_root)))
              sound')

  -- Along a walk the rank falls.
  Walk-falls :
      (s : Search)
      → (sound : IsSound deps s) → ((u : ℕ) → u < length deps → flag s.finished u ≡ true)
      → {u v : ℕ} → Walk deps u v
      → sound.ranked.rank v < sound.ranked.rank u
  Walk-falls s sound all (edge d) = sound.ranked.falls _ _ (all _ (DependsOn-lt deps _ _ d)) d
  Walk-falls s sound all (onward d p) =
      omega (
        arith,
        Walk-falls s sound all p,
        sound.ranked.falls _ _ (all _ (DependsOn-lt deps _ _ d)) d,
      )

unmarked : (n u : ℕ) → flag (replicate n false) u ≡ true → ⊥
unmarked n u h = let c : false ≡ true = sym (flag-replicate n u) ∙ h in cc

no_ranks : (deps : Dependencies) (n : ℕ) → Ranked deps (replicate n false)
no_ranks deps n = record {
  rank = λ u. 0;
  clock = 0;
  bounded = λ u h. absurd (unmarked n u h);
  closed = λ u v h d. absurd (unmarked n u h);
  falls = λ u v h d. absurd (unmarked n u h);
}

start-IsSound : (deps : Dependencies) → IsSound deps (start (length deps))
start-IsSound deps = record {
  on_path_length = length-replicate (length deps) false;
  finished_length = length-replicate (length deps) false;
  ranked = no_ranks deps (length deps);
  top = tt;
  marked = tt;
  covered = λ u h. absurd (unmarked (length deps) u h);
}

-- What a verdict says of the relations: none depends on itself, or one of those named does.
pub data Settled (deps : Dependencies) : Verdict → Type 0 where
  acyclic : {s : Search} → ((v : ℕ) → Walk deps v v → ⊥) → Settled deps (clear s)
  on_itself : {c : List ℕ} (d : ℕ) → In d c → Walk deps d d → Settled deps (cyclic c)

pub search_cycle-Settled : (deps : Dependencies) → InRange deps → Settled deps (search_cycle deps)
unfolding search_cycle
search_cycle-Settled deps range = settle (
    from_root-Searched deps range (length deps) 0 (start (length deps)) (omega arith) refl
      (λ u h. absurd (omega arith)) (start-IsSound deps))
  where
    settle : {v : Verdict} → Searched deps range v → Settled deps v
    settle (all_finished sound all) =
        acyclic (λ v w. let fall = Walk-falls deps range _ sound all w in omega (arith, fall))
    settle (met_cycle d i w) = on_itself d i w
