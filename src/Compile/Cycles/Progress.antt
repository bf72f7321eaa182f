-- ===== src/Compile/Cycles/Progress.antt =====
-- What one round of the search does (src/compile.rs, `detect_relation_cycle`): it ends with an empty
-- path, finds a cycle, or goes on with less left to do.
use axiom_rules_engine.Prelude.{
  ℕ, zero, suc, ◌+◌, ◌-◌, ◌≤◌, ◌<◌, ◌≡◌, refl, ap, subst, Bool, true, false, ◌||◌, none, some, List,
  [], ◌∷◌, length, get_elem?, set, arith, inl, inr, if◌then◌else◌, Bool-cases, Option-cases,
}
use native.Mathlib.Decide.{ℕ_discrete}
use axiom_rules_engine.Compile.Cycles.{
  Dependencies, deps_of, Search, flag, members, finish, enter, visit, Round, done, found, goes_on,
  round, round_of,
}
use axiom_rules_engine.Compile.Cycles.Flags.{
  flag-set_self, flag-set_ne, flag-set-true, sum_below, sum_below-le, sum_below-fall,
}
use axiom_rules_engine.Compile.Cycles.Invariant.{
  Walk, In, InRange, TopReads, Marked, IsSound, path-Walk,
}
use axiom_rules_engine.Compile.Cycles.Steps.{finish-IsSound, skip-IsSound, enter-IsSound}

-- A relation that the search has met.
abbrev pub seen : Search → ℕ → Bool
seen s u = flag s.finished u || flag s.on_path u

abbrev pub Keeps : Search → Search → Type 0
Keeps s s' = (u : ℕ) → seen s u ≡ true → seen s' u ≡ true

get_elem?-length : {A : Type 0} (l : List A) (k : ℕ) (d : A) → get_elem? l k ≡ some d → k < length l
get_elem?-length [] k d e = cc
get_elem?-length (x ∷ l) zero d e = omega arith
get_elem?-length (x ∷ l) (suc k) d e = omega (arith, get_elem?-length l k d e)

module _ (deps : Dependencies) where
  -- The rounds that a relation not met will take.
  abbrev pub unmet : Search → ℕ → ℕ
  unmet s u = if seen s u then 0 else 2 + length (deps_of deps u)

  -- The rounds that the path will take.
  abbrev pub path_left : List (ℕ × ℕ) → ℕ
  path_left [] = 0
  path_left ((v, k) ∷ rest) = 1 + (length (deps_of deps v) - k) + path_left rest

  abbrev pub left_to_do : Search → ℕ
  left_to_do s = sum_below (length deps) (unmet s) + path_left s.path

  -- What holds of the outcome of a round.
  pub data Outcome (s : Search) : Round → Type 0 where
    ended : s.path ≡ [] → Outcome s done
    cycle_found : {c : List ℕ} (d : ℕ) → In d c → Walk deps d d → Outcome s (found c)
    moved :
        {s' : Search}
        → IsSound deps s'
        → left_to_do s' < left_to_do s
        → Keeps s s'
        → Outcome s (goes_on s')

  unmet-Keeps : (s s' : Search) → Keeps s s' → (u : ℕ) → unmet s' u ≤ unmet s u
  unmet-Keeps s s' k u = elim (Bool-cases (seen s u)) [
    | inl t ↦ rw (t, k u t) (omega arith)
    | inr f ↦ rw f (elim (Bool-cases (seen s' u)) [
      | inl t ↦ rw t (omega arith)
      | inr f' ↦ rw f' (omega arith)
    ])
  ]

  finish-Keeps :
      (s : Search) (node : ℕ) (rest : List (ℕ × ℕ))
      → node < length s.finished
      → Keeps s (finish node rest s)
  finish-Keeps s node rest b u h = elim (ℕ_discrete node u) [
    | yes same ↦
        let f : flag (set s.finished node true) u ≡ true =
          subst (λ (w : ℕ). flag (set s.finished node true) w ≡ true) same
            (flag-set_self s.finished node true b) in
        rw f refl
    | no other ↦
        rw (flag-set_ne s.finished node u true other, flag-set_ne s.on_path node u false other) h
  ]

  pub enter-Keeps : (s : Search) (d : ℕ) (path : List (ℕ × ℕ)) → Keeps s (enter d path s)
  enter-Keeps s d path u h = elim (Bool-cases (flag s.finished u)) [
    | inl t ↦ rw t refl
    | inr f ↦
        rw
          (
            f,
            flag-set-true s.on_path d u (subst (λ (b : Bool). (b || flag s.on_path u) ≡ true) f h),
          )
          refl
  ]

  -- Entering a relation takes its rounds from the relations not met, less one.
  pub enter-left :
      (s : Search) (d : ℕ) (path : List (ℕ × ℕ))
      → d < length deps
      → length s.on_path ≡ length deps
      → flag s.finished d ≡ false
      → flag s.on_path d ≡ false
      → left_to_do (enter d path s) < sum_below (length deps) (unmet s) + path_left path
  enter-left s d path b l fin on =
      let before : unmet s d ≡ 2 + length (deps_of deps d) = rw (fin, on) refl in
      let after : unmet (enter d path s) d ≡ 0 =
        rw (fin, flag-set_self s.on_path d true (omega (arith, l))) refl in
      let fall =
        sum_below-fall (length deps) (unmet (enter d path s)) (unmet s) d b
          (unmet-Keeps s (enter d path s) (enter-Keeps s d path)) in
      omega (arith, before, after, fall)

  finish-Outcome :
      (s : Search) (node next : ℕ) (rest : List (ℕ × ℕ))
      → s.path ≡ (node, next) ∷ rest
      → get_elem? (deps_of deps node) next ≡ none
      → IsSound deps s
      → Outcome s (goes_on (finish node rest s))
  finish-Outcome s node next rest e at_end sound =
      let marked = subst (λ path. Marked deps s.on_path s.finished path) e sound.marked in
      let keeps = finish-Keeps s node rest (omega (arith, sound.finished_length, marked.0)) in
      let less =
        sum_below-le (length deps) (unmet (finish node rest s)) (unmet s)
          (unmet-Keeps s (finish node rest s) keeps) in
      let path : path_left s.path ≡ path_left ((node, next) ∷ rest) = ap path_left e in
      moved (finish-IsSound deps s node next rest e at_end sound) (omega (arith, less, path)) keeps

  skip-Outcome :
      (s : Search) (node next d : ℕ) (rest : List (ℕ × ℕ))
      → s.path ≡ (node, next) ∷ rest
      → get_elem? (deps_of deps node) next ≡ some d
      → flag s.finished d ≡ true
      → IsSound deps s
      → Outcome s (goes_on (record s { path = (node, suc next) ∷ rest }))
  skip-Outcome s node next d rest e reads fin sound =
      let path : path_left s.path ≡ path_left ((node, next) ∷ rest) = ap path_left e in
      moved (skip-IsSound deps s node next d rest e reads fin sound)
        (omega (arith, path, get_elem?-length (deps_of deps node) next d reads)) (λ u h. h)

  enter-Outcome :
      (s : Search) (node next d : ℕ) (rest : List (ℕ × ℕ))
      → InRange deps
      → s.path ≡ (node, next) ∷ rest
      → get_elem? (deps_of deps node) next ≡ some d
      → flag s.finished d ≡ false
      → flag s.on_path d ≡ false
      → IsSound deps s
      → Outcome s (goes_on (enter d ((node, suc next) ∷ rest) s))
  enter-Outcome s node next d rest range e reads fin on sound =
      let path : path_left s.path ≡ path_left ((node, next) ∷ rest) = ap path_left e in
      let top = subst (λ path. TopReads deps s.finished path) e sound.top in
      let marked = subst (λ path. Marked deps s.on_path s.finished path) e sound.marked in
      let b = range node next d reads in
      let left = enter-left s d ((node, suc next) ∷ rest) b sound.on_path_length fin on in
      moved
        (enter-IsSound deps s d ((node, suc next) ∷ rest) b fin on (next, refl, reads, top.0, top.1)
          marked (λ u h. subst (λ path. In u (members path)) e (sound.covered u h)) sound)
        (omega (arith, path, left, get_elem?-length (deps_of deps node) next d reads))
        (enter-Keeps s d ((node, suc next) ∷ rest))

  visit-Outcome :
      (s : Search) (node next d : ℕ) (rest : List (ℕ × ℕ))
      → InRange deps
      → s.path ≡ (node, next) ∷ rest
      → get_elem? (deps_of deps node) next ≡ some d
      → IsSound deps s
      → Outcome s (visit node next rest s (some d))
  visit-Outcome s node next d rest range e reads sound =
      let top = subst (λ path. TopReads deps s.finished path) e sound.top in
      elim (Bool-cases (flag s.finished d)) [
        | inl fin ↦ rw fin (skip-Outcome s node next d rest e reads fin sound)
        | inr unfinished ↦ elim (Bool-cases (flag s.on_path d)) [
          | inl on ↦
              rw (unfinished, on)
                (cycle_found d (subst (λ path. In d (members path)) e (sound.covered d on)) (
                  path-Walk deps s.finished node next d rest top.1 (next, reads)
                    (subst (λ path. In d (members path)) e (sound.covered d on))))
          | inr off ↦
              rw (unfinished, off)
                (enter-Outcome s node next d rest range e reads unfinished off sound)
        ]
      ]

  pub round-Outcome : (s : Search) → InRange deps → IsSound deps s → Outcome s (round deps s)
  unfolding round
  round-Outcome s range sound = of_path s.path refl
    where
      of_path : (path : List (ℕ × ℕ)) → s.path ≡ path → Outcome s (round_of deps s path)
      of_path [] e = ended e
      of_path ((node, next) ∷ rest) e = elim (Option-cases (get_elem? (deps_of deps node) next)) [
        | inl at_end ↦ rw at_end (finish-Outcome s node next rest e at_end sound)
        | inr (d, reads) ↦ rw reads (visit-Outcome s node next d rest range e reads sound)
      ]
