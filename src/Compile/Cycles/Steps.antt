-- ===== src/Compile/Cycles/Steps.antt =====
-- Each round of the search keeps its invariant (src/compile.rs, `detect_relation_cycle`): finishing the
-- relation on top, passing over a finished dependency, and entering a new one.
use axiom_rules_engine.Prelude.{
  ℕ, zero, suc, ◌<◌, ◌≡◌, ◌≢◌, refl, sym, ◌∙◌, subst, Bool, true, false, none, some, List, [], ◌∷◌,
  length, get_elem?, set, arith, length-set, if◌then◌else◌, ◌==◌,
}
use native.Mathlib.Decide.{ℕ_discrete}
use axiom_rules_engine.Compile.Cycles.{Dependencies, deps_of, Search, flag, members, finish, enter}
use axiom_rules_engine.Compile.Cycles.Flags.{flag-set_self, flag-set_ne, flag-set-true}
use axiom_rules_engine.Compile.Cycles.Invariant.{
  DependsOn, In, here, there, AllBefore, Below, TopReads, NotIn, Marked, Ranked, IsSound,
}

get_elem?-none :
    {A : Type 0} (l : List A) (k j : ℕ) (d : A)
    → get_elem? l k ≡ none
    → get_elem? l j ≡ some d
    → j < k
get_elem?-none [] k j d h e = cc
get_elem?-none (x ∷ l) zero j d h e = cc
get_elem?-none (x ∷ l) (suc k) zero d h e = omega arith
get_elem?-none (x ∷ l) (suc k) (suc j) d h e = omega (arith, get_elem?-none l k j d h e)

module _ (deps : Dependencies) where
  AllBefore-set :
      (finished : List Bool) (node v k : ℕ)
      → AllBefore deps finished v k
      → AllBefore deps (set finished node true) v k
  AllBefore-set finished node v k h j d lt e = flag-set-true finished node d (h j d lt e)

  Below-set :
      (finished : List Bool) (node w : ℕ) (rest : List (ℕ × ℕ))
      → Below deps finished w rest
      → Below deps (set finished node true) w rest
  Below-set finished node w [] h = tt
  Below-set finished node w ((v, k) ∷ rest) (j, e, reads, before, below) =
      (j, e, reads, AllBefore-set finished node v j before, Below-set finished node v rest below)

  -- Below a finished relation its reader has read one more.
  Below-TopReads :
      (finished : List Bool) (node : ℕ) (rest : List (ℕ × ℕ))
      → node < length finished
      → Below deps finished node rest
      → TopReads deps (set finished node true) rest
  Below-TopReads finished node [] b h = tt
  Below-TopReads finished node ((v, k) ∷ rest) b (j, e, reads, before, below) =
      (λ i d lt g. read_before i d lt g, Below-set finished node v rest below)
    where
      at_j : (i d : ℕ) → i ≡ j → get_elem? (deps_of deps v) i ≡ some d → d ≡ node
      at_j i d same g =
          let e' : get_elem? (deps_of deps v) i ≡ some node =
            subst (λ (m : ℕ). get_elem? (deps_of deps v) m ≡ some node) (sym same) reads in
          cc

      read_before :
          (i d : ℕ)
          → i < k
          → get_elem? (deps_of deps v) i ≡ some d
          → flag (set finished node true) d ≡ true
      read_before i d lt g = elim (ℕ_discrete i j) [
        | yes same ↦
            subst (λ (m : ℕ). flag (set finished node true) m ≡ true) (sym (at_j i d same g))
              (flag-set_self finished node true b)
        | no other ↦ flag-set-true finished node d (before i d (omega arith) g)
      ]

  Marked-finish :
      (on_path finished : List Bool) (node : ℕ) (rest : List (ℕ × ℕ))
      → NotIn deps node rest
      → Marked deps on_path finished rest
      → Marked deps (set on_path node false) (set finished node true) rest
  Marked-finish on_path finished node [] n m = tt
  Marked-finish on_path finished node ((v, k) ∷ rest) n m = (
    m.0,
    flag-set_ne finished node v true n.0 ∙ m.1,
    flag-set_ne on_path node v false n.0 ∙ m.2,
    m.3,
    Marked-finish on_path finished node rest n.1 m.4,
  )

  Marked-NotIn :
      (on_path finished : List Bool) (d : ℕ) (path : List (ℕ × ℕ))
      → flag on_path d ≡ false
      → Marked deps on_path finished path
      → NotIn deps d path
  Marked-NotIn on_path finished d [] h m = tt
  Marked-NotIn on_path finished d ((v, k) ∷ rest) h m =
      (λ e. clash e, Marked-NotIn on_path finished d rest h m.4)
    where
      clash : d ≡ v → ⊥
      clash e =
          let h' : flag on_path v ≡ false = subst (λ (u : ℕ). flag on_path u ≡ false) e h in
          let t : false ≡ true = sym h' ∙ m.2 in cc

  Marked-enter :
      (on_path finished : List Bool) (d : ℕ) (path : List (ℕ × ℕ))
      → Marked deps on_path finished path
      → Marked deps (set on_path d true) finished path
  Marked-enter on_path finished d [] m = tt
  Marked-enter on_path finished d ((v, k) ∷ rest) m =
      (m.0, m.1, flag-set-true on_path d v m.2, m.3, Marked-enter on_path finished d rest m.4)

  -- The finished relation gets the next rank.
  Ranked-finish :
      (finished : List Bool) (node : ℕ)
      → node < length finished
      → flag finished node ≡ false
      → ((d : ℕ) → DependsOn deps node d → flag finished d ≡ true)
      → Ranked deps finished
      → Ranked deps (set finished node true)
  Ranked-finish finished node b fresh read r = record {
    rank = new_rank;
    clock = suc r.clock;
    bounded = bounded;
    closed = λ u v h d. flag-set-true finished node v (reads_finished u v h d);
    falls = falls;
  }
    where
      new_rank : ℕ → ℕ
      new_rank u = if u == node then r.clock else r.rank u

      was : (u : ℕ) → u ≢ node → flag (set finished node true) u ≡ true → flag finished u ≡ true
      was u other h = sym (flag-set_ne finished node u true (λ e. other (sym e))) ∙ h

      bounded : (u : ℕ) → flag (set finished node true) u ≡ true → new_rank u < suc r.clock
      bounded u h = elim (ℕ_discrete u node) [
        | yes same ↦ ground arith
        | no other ↦ ground (arith, r.bounded u (was u other h))
      ]

      reads_finished :
          (u v : ℕ)
          → flag (set finished node true) u ≡ true
          → DependsOn deps u v
          → flag finished v ≡ true
      reads_finished u v h d = elim (ℕ_discrete u node) [
        | yes same ↦ read v (subst (λ (w : ℕ). DependsOn deps w v) same d)
        | no other ↦ r.closed u v (was u other h) d
      ]

      not_node : (v : ℕ) → flag finished v ≡ true → v ≢ node
      not_node v h e =
          let t : flag finished node ≡ true = subst (λ (w : ℕ). flag finished w ≡ true) e h in
          let c : false ≡ true = sym fresh ∙ t in cc

      falls :
          (u v : ℕ)
          → flag (set finished node true) u ≡ true
          → DependsOn deps u v
          → new_rank v < new_rank u
      falls u v h d =
          let done_v = reads_finished u v h d in
          let apart = not_node v done_v in
          elim (ℕ_discrete u node) [
            | yes same ↦ ground (arith, r.bounded v done_v)
            | no other ↦ ground (arith, r.falls u v (was u other h) d)
          ]

  In-tail :
      (u node next : ℕ) (rest : List (ℕ × ℕ))
      → In u (members ((node, next) ∷ rest))
      → u ≢ node
      → In u (members rest)
  In-tail u node next rest here h = absurd (h refl)
  In-tail u node next rest (there i) h = i

  pub finish-IsSound :
      (s : Search) (node next : ℕ) (rest : List (ℕ × ℕ))
      → s.path ≡ (node, next) ∷ rest
      → get_elem? (deps_of deps node) next ≡ none
      → IsSound deps s
      → IsSound deps (finish node rest s)
  finish-IsSound s node next rest e at_end sound =
      let top = subst (λ path. TopReads deps s.finished path) e sound.top in
      let marked = subst (λ path. Marked deps s.on_path s.finished path) e sound.marked in
      let in_range : node < length s.finished = omega (arith, sound.finished_length, marked.0) in
      record {
        on_path_length = length-set s.on_path node false ∙ sound.on_path_length;
        finished_length = length-set s.finished node true ∙ sound.finished_length;
        ranked =
            Ranked-finish s.finished node in_range marked.1
              (λ d reads.
                top.0 reads.0 d (get_elem?-none (deps_of deps node) next reads.0 d at_end reads.1)
                  reads.1)
              sound.ranked;
        top = Below-TopReads s.finished node rest in_range top.1;
        marked = Marked-finish s.on_path s.finished node rest marked.3 marked.4;
        covered = covered;
      }
    where
      covered : (u : ℕ) → flag (set s.on_path node false) u ≡ true → In u (members rest)
      covered u on =
          let marked = subst (λ path. Marked deps s.on_path s.finished path) e sound.marked in
          let in_range : node < length s.on_path = omega (arith, sound.on_path_length, marked.0) in
          let other : u ≢ node = λ same.
            let off : flag (set s.on_path node false) u ≡ false =
              subst (λ (w : ℕ). flag (set s.on_path node false) w ≡ false) (sym same)
                (flag-set_self s.on_path node false in_range) in
            cc in
          In-tail u node next rest
            (subst (λ path. In u (members path)) e
              (sound.covered u
                (sym (flag-set_ne s.on_path node u false (λ q. other (sym q))) ∙ on)))
            other

  -- With one dependency read that is finished.
  AllBefore-suc :
      (finished : List Bool) (v k d : ℕ)
      → get_elem? (deps_of deps v) k ≡ some d
      → flag finished d ≡ true
      → AllBefore deps finished v k
      → AllBefore deps finished v (suc k)
  AllBefore-suc finished v k d reads fin before j d' lt g = elim (ℕ_discrete j k) [
    | yes same ↦
        let g' : get_elem? (deps_of deps v) k ≡ some d' =
          subst (λ (m : ℕ). get_elem? (deps_of deps v) m ≡ some d') same g in
        cc
    | no other ↦ before j d' (omega arith) g
  ]

  pub skip-IsSound :
      (s : Search) (node next d : ℕ) (rest : List (ℕ × ℕ))
      → s.path ≡ (node, next) ∷ rest
      → get_elem? (deps_of deps node) next ≡ some d
      → flag s.finished d ≡ true
      → IsSound deps s
      → IsSound deps (record s { path = (node, suc next) ∷ rest })
  skip-IsSound s node next d rest e reads fin sound = record {
    on_path_length = sound.on_path_length;
    finished_length = sound.finished_length;
    ranked = sound.ranked;
    top =
        let top = subst (λ path. TopReads deps s.finished path) e sound.top in
        (AllBefore-suc s.finished node next d reads fin top.0, top.1);
    marked = subst (λ path. Marked deps s.on_path s.finished path) e sound.marked;
    covered = λ u on. subst (λ path. In u (members path)) e (sound.covered u on);
  }

  -- The path with the dependency entered on top.
  pub enter-IsSound :
      (s : Search) (d : ℕ) (path : List (ℕ × ℕ))
      → d < length deps
      → flag s.finished d ≡ false
      → flag s.on_path d ≡ false
      → Below deps s.finished d path
      → Marked deps s.on_path s.finished path
      → ((u : ℕ) → flag s.on_path u ≡ true → In u (members path))
      → IsSound deps s
      → IsSound deps (enter d path s)
  enter-IsSound s d path b fin on below marked covered sound = record {
    on_path_length = length-set s.on_path d true ∙ sound.on_path_length;
    finished_length = sound.finished_length;
    ranked = sound.ranked;
    top = (λ j d' lt g. absurd (omega arith), below);
    marked = (
      b,
      fin,
      flag-set_self s.on_path d true (omega (arith, sound.on_path_length)),
      Marked-NotIn s.on_path s.finished d path on marked,
      Marked-enter s.on_path s.finished d path marked,
    );
    covered = covered';
  }
    where
      covered' : (u : ℕ) → flag (set s.on_path d true) u ≡ true → In u (d ∷ members path)
      covered' u h = elim (ℕ_discrete u d) [
        | yes same ↦ subst (λ (w : ℕ). In w (d ∷ members path)) (sym same) here
        | no other ↦
            there (covered u (sym (flag-set_ne s.on_path d u true (λ q. other (sym q))) ∙ h))
      ]
