-- ===== src/Compile/Cycles/Report.antt =====
-- The check by name (src/compile.rs, `detect_relation_cycle`): what its answer says of the graph.
use axiom_rules_engine.Prelude.{
  ℕ, zero, suc, ◌<◌, ◌≡◌, refl, sym, ap, subst, true, some, List, [], ◌∷◌, length, get_elem?,
  get_or, arith,
}
use axiom_rules_engine.Prelude.Ord.{Str, str_ord}
use axiom_rules_engine.BTree.{key_eq, Map, Set, keys, lookup, mem}
use axiom_rules_engine.BTree.Laws.{key_eq_self, IsSorted}
use axiom_rules_engine.Compile.Cycles.{
  Dependencies, position_from, dependencies_of, named, report, join, sort_names, Checked, accepted,
  cyclic_relation_dependency, detect_relation_cycle, Verdict, search_cycle,
}
use axiom_rules_engine.Compile.Cycles.Invariant.{
  DependsOn, Walk, edge, onward, In, here, there, InRange,
}
use axiom_rules_engine.Compile.Cycles.Names.{
  Reads, Chain, direct, through, position_from-name, position_from-mem, known-elem, known-has,
  entry_read, deps_of-entry, keys-elem, elem-keys, lookup-elem, mem-lookup, or_true,
}
use axiom_rules_engine.Compile.Cycles.Decides.{Settled, acyclic, on_itself, search_cycle-Settled}

get_elem?-lt : {A : Type 0} (l : List A) (k : ℕ) (d : A) → get_elem? l k ≡ some d → k < length l
get_elem?-lt [] k d e = cc
get_elem?-lt (x ∷ l) zero d e = omega arith
get_elem?-lt (x ∷ l) (suc k) d e = omega (arith, get_elem?-lt l k d e)

get_elem?-get_or : (l : List Str) (k : ℕ) (a : Str) → get_elem? l k ≡ some a → get_or l k [] ≡ a
get_elem?-get_or [] k a e = cc
get_elem?-get_or (x ∷ l) zero a e = cc
get_elem?-get_or (x ∷ l) (suc k) a e = get_elem?-get_or l k a e

module _ (graph : Map Str (Set Str)) where
  abbrev names : List Str
  names = keys graph

  abbrev deps : Dependencies
  deps = dependencies_of names graph

  length-dependencies_of :
      (ns : List Str) (g : Map Str (Set Str)) → length (dependencies_of ns g) ≡ length (keys g)
  unfolding dependencies_of
  length-dependencies_of ns [] = refl
  length-dependencies_of ns ((a, l) ∷ g) = ap suc (length-dependencies_of ns g)

  at_position : (a : Str) (u : ℕ) → position_from 0 names a ≡ some u → get_elem? names u ≡ some a
  at_position a u h =
      let p = position_from-name names 0 a u h in
      let same : p.0 ≡ u = omega (arith, p.1) in
      subst (λ (i : ℕ). get_elem? names i ≡ some a) same p.2

  abbrev Named : ℕ → ℕ → Type 0
  Named u v =
      (a : Str) × (b : Str) × (get_elem? names u ≡ some a)
      × (get_elem? names v ≡ some b)
      × Chain graph a b

  dependencies-InRange : InRange deps
  dependencies-InRange u k v h =
      let (a, l, entry, read) = entry_read names graph u k v h in
      let (n, m, p) = known-elem names l k v read in
      omega (arith, get_elem?-lt names v n (at_position n v p), length-dependencies_of names graph)

  DependsOn-Reads :
      IsSorted names
      → (u v : ℕ) → DependsOn deps u v
      → (a : Str) × (b : Str) × (get_elem? names u ≡ some a)
        × (get_elem? names v ≡ some b)
        × Reads graph a b
  DependsOn-Reads s u v (k, h) =
      let (a, l, entry, read) = entry_read names graph u k v h in
      let (n, m, p) = known-elem names l k v read in
      let at_v = at_position n v p in
      let (l', entry') = keys-elem graph v n at_v in
      (
        a,
        n,
        elem-keys graph u a l entry,
        at_v,
        (
          l,
          lookup-elem graph u a l s entry,
          m,
          mem-lookup graph n l' (lookup-elem graph v n l' s entry'),
        ),
      )

  -- A walk by position is a chain by name.
  Walk-Chain : IsSorted names → {u v : ℕ} → Walk deps u v → Named u v
  Walk-Chain s (edge d) =
      let (a, b, at_u, at_v, reads) = DependsOn-Reads s _ _ d in (a, b, at_u, at_v, direct reads)
  Walk-Chain s (onward d w) =
      let (a, b, at_u, at_v, reads) = DependsOn-Reads s _ _ d in
      let (b', c, at_v', at_w, chain) = Walk-Chain s w in
      let same : b' ≡ b = cc in
      (a, c, at_u, at_w, through reads (subst (λ x. Chain graph x c) same chain))

  abbrev Positioned : Str → Str → Type 0
  Positioned a b =
      (u : ℕ) × (v : ℕ) × (position_from 0 names a ≡ some u)
      × (position_from 0 names b ≡ some v)
      × Walk deps u v

  Reads-DependsOn :
      IsSorted names
      → (a b : Str) → Reads graph a b
      → (u : ℕ) × (v : ℕ) × (position_from 0 names a ≡ some u)
        × (position_from 0 names b ≡ some v)
        × DependsOn deps u v
  Reads-DependsOn s a b (l, found, m, there') =
      let (u, at_u) = position_from-mem names 0 a (mem-lookup graph a l found) in
      let (v, at_v) = position_from-mem names 0 b there' in
      let (l', entry) = keys-elem graph u a (at_position a u at_u) in
      let same : l' ≡ l =
        let found' : lookup a graph ≡ some l' = lookup-elem graph u a l' s entry in cc in
      let (k, read) = known-has names l b v m at_v in
      (
        u,
        v,
        at_u,
        at_v,
        (
          k,
          subst (λ d. get_elem? d k ≡ some v)
              (sym (
                deps_of-entry names graph u a l
                  (subst (λ x. get_elem? graph u ≡ some (a, x)) same entry)))
              read,
        ),
      )

  -- A chain by name is a walk by position.
  Chain-Walk : IsSorted names → {a b : Str} → Chain graph a b → Positioned a b
  Chain-Walk s (direct reads) =
      let (u, v, at_u, at_v, d) = Reads-DependsOn s _ _ reads in (u, v, at_u, at_v, edge d)
  Chain-Walk s (through reads chain) =
      let (u, v, at_u, at_v, d) = Reads-DependsOn s _ _ reads in
      let (v', w, at_v', at_w, walk) = Chain-Walk s chain in
      let same : v' ≡ v = cc in
      (u, w, at_u, at_w, onward d (subst (λ (x : ℕ). Walk deps x w) same walk))

  In-named :
      (c : List ℕ) (d : ℕ) (a : Str)
      → In d c
      → get_elem? names d ≡ some a
      → mem a (named names c) ≡ true
  In-named [] d a i e = elim i [ ]
  In-named (x ∷ c) d a here e = rw (get_elem?-get_or names x a e, key_eq_self a) refl
  In-named (x ∷ c) d a (there i) e =
      or_true (key_eq a (get_or names x [])) (mem a (named names c)) (In-named c d a i e)

-- What the answer says of the graph: no relation reads itself, however far; or one of those that the
-- error names does.
pub data Answers (graph : Map Str (Set Str)) : Checked → Type 0 where
  none_reads_itself : ((a : Str) → Chain graph a a → ⊥) → Answers graph accepted
  one_reads_itself :
      (members : List Str) (a : Str)
      → mem a members ≡ true
      → Chain graph a a
      → Answers graph (cyclic_relation_dependency (join (sort_names members)))

report-Answers :
    (graph : Map Str (Set Str)) (v : Verdict)
    → IsSorted (keys graph)
    → Settled (deps graph) v
    → Answers graph (report (keys graph) v)
report-Answers graph (Verdict.clear s) sorted (acyclic none_walks) = none_reads_itself (λ a chain.
    let (u, v, at_u, at_v, walk) = Chain-Walk graph sorted chain in
    let same : v ≡ u = cc in none_walks u (subst (λ (x : ℕ). Walk (deps graph) u x) same walk))
report-Answers graph (Verdict.cyclic c) sorted (on_itself d i walk) =
    let (a, b, at_a, at_b, chain) = Walk-Chain graph sorted walk in
    let same : b ≡ a = cc in
    one_reads_itself (named (keys graph) c) a (In-named graph c d a i at_a)
      (subst (λ x. Chain graph a x) same chain)
report-Answers graph Verdict.exhausted sorted h = elim h [ ]

-- For a graph in order of its names, the check always gives an answer, and the right one: it accepts
-- only when no derived relation reads itself through any chain of derived relations, and otherwise
-- its error joins the sorted names of a list that holds one that does.
pub detect_relation_cycle-Answers :
    (graph : Map Str (Set Str))
    → IsSorted (keys graph)
    → Answers graph (detect_relation_cycle graph)
unfolding detect_relation_cycle
detect_relation_cycle-Answers graph sorted =
    report-Answers graph (search_cycle (deps graph)) sorted
      (search_cycle-Settled (deps graph) (dependencies-InRange graph))
