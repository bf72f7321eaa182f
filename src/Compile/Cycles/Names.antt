-- ===== src/Compile/Cycles/Names.antt =====
-- Relations by name and by position (src/compile.rs, `detect_relation_cycle`): the dependencies read
-- from the graph are those of the relations named.
use axiom_rules_engine.Prelude.{
  ℕ, zero, suc, ◌+◌, ◌≡◌, refl, sym, ◌∙◌, ap, subst, Bool, true, false, ◌||◌, some, List, [], ◌∷◌,
  get_elem?, arith, inl, inr, if◌then◌else◌, Bool-cases, Option-cases,
}
use Prim.Native.Nat.{Ordering}
use axiom_rules_engine.Prelude.Ord.{Str, str_ord}
use axiom_rules_engine.BTree.{key_eq, Map, Set, keys, lookup, mem}
use axiom_rules_engine.BTree.Laws.{key_eq_self, key_eq-eq, IsSorted, Above}
use axiom_rules_engine.Compile.Cycles.{deps_of, position_from, onto, known, dependencies_of}

-- `a` is defined by a derivation that reads `b`, a derived relation as well.
abbrev pub Reads : Map Str (Set Str) → Str → Str → Type 0
Reads graph a b =
    (l : Set Str) × (lookup a graph ≡ some l) × (mem b l ≡ true) × (mem b (keys graph) ≡ true)

-- By one reading or more.
pub data Chain (graph : Map Str (Set Str)) : Str → Str → Type 0 where
  direct : {a b : Str} → Reads graph a b → Chain graph a b
  through : {a b c : Str} → Reads graph a b → Chain graph b c → Chain graph a c

pub position_from-name :
    (names : List Str) (i : ℕ) (name : Str) (k : ℕ)
    → position_from i names name ≡ some k
    → (j : ℕ) × (k ≡ i + j) × (get_elem? names j ≡ some name)
unfolding position_from
position_from-name [] i name k h = cc
position_from-name (n ∷ names) i name k h = elim (Bool-cases (key_eq name n)) [
  | inl t ↦
      let h' : some i ≡ some k =
        subst (λ (b : Bool). (if b then some i else position_from (suc i) names name) ≡ some k) t
          h in
      let same : k ≡ i = cc in (0, omega (arith, same), ap some (sym (key_eq-eq name n t)))
  | inr f ↦
      let later = position_from-name names (suc i) name k (
        subst (λ (b : Bool). (if b then some i else position_from (suc i) names name) ≡ some k) f
          h) in
      (suc later.0, omega (arith, later.1), later.2)
]

pub position_from-mem :
    (names : List Str) (i : ℕ) (name : Str)
    → mem name names ≡ true
    → (k : ℕ) × (position_from i names name ≡ some k)
unfolding position_from
position_from-mem [] i name h = cc
position_from-mem (n ∷ names) i name h = elim (Bool-cases (key_eq name n)) [
  | inl t ↦ (
    i,
    subst (λ (b : Bool). (if b then some i else position_from (suc i) names name) ≡ some i) (sym t)
        refl,
  )
  | inr f ↦
      let later =
        position_from-mem names (suc i) name
          (subst (λ (b : Bool). (b || mem name names) ≡ true) f h) in
      (
        later.0,
        subst
            (λ (b : Bool). (if b then some i else position_from (suc i) names name) ≡ some later.0)
            (sym f) later.1,
      )
]

pub or_true : (b c : Bool) → c ≡ true → (b || c) ≡ true
or_true true c h = refl
or_true false c h = h

pub known-elem :
    (names l : List Str) (k v : ℕ)
    → get_elem? (known names l) k ≡ some v
    → (n : Str) × (mem n l ≡ true) × (position_from 0 names n ≡ some v)
unfolding known
known-elem names [] k v h = cc
known-elem names (d ∷ l) zero v h = elim (Option-cases (position_from 0 names d)) [
  | inl absent ↦
      let rest =
        known-elem names l zero v
          (subst (λ o. get_elem? (onto o (known names l)) 0 ≡ some v) absent h) in
      (rest.0, or_true (key_eq rest.0 d) (mem rest.0 l) rest.1, rest.2)
  | inr (i, at) ↦
      let h' : some i ≡ some v = subst (λ o. get_elem? (onto o (known names l)) 0 ≡ some v) at h in
      (d, rw (key_eq_self d) refl, at ∙ h')
]
known-elem names (d ∷ l) (suc k) v h = elim (Option-cases (position_from 0 names d)) [
  | inl absent ↦
      let rest =
        known-elem names l (suc k) v
          (subst (λ o. get_elem? (onto o (known names l)) (suc k) ≡ some v) absent h) in
      (rest.0, or_true (key_eq rest.0 d) (mem rest.0 l) rest.1, rest.2)
  | inr (i, at) ↦
      let rest =
        known-elem names l k v
          (subst (λ o. get_elem? (onto o (known names l)) (suc k) ≡ some v) at h) in
      (rest.0, or_true (key_eq rest.0 d) (mem rest.0 l) rest.1, rest.2)
]

pub known-has :
    (names l : List Str) (n : Str) (v : ℕ)
    → mem n l ≡ true
    → position_from 0 names n ≡ some v
    → (k : ℕ) × (get_elem? (known names l) k ≡ some v)
unfolding known
known-has names [] n v m p = cc
known-has names (d ∷ l) n v m p = elim (Bool-cases (key_eq n d)) [
  | inl t ↦
      let at : position_from 0 names d ≡ some v =
        subst (λ x. position_from 0 names x ≡ some v) (key_eq-eq n d t) p in
      (0, subst (λ o. get_elem? (onto o (known names l)) 0 ≡ some v) (sym at) refl)
  | inr f ↦
      let later = known-has names l n v (subst (λ (b : Bool). (b || mem n l) ≡ true) f m) p in
      elim (Option-cases (position_from 0 names d)) [
        | inl absent ↦ (
          later.0,
          subst (λ o. get_elem? (onto o (known names l)) later.0 ≡ some v) (sym absent) later.1,
        )
        | inr (i, at) ↦ (
          suc later.0,
          subst (λ o. get_elem? (onto o (known names l)) (suc later.0) ≡ some v) (sym at) later.1,
        )
      ]
]

pub entry_read :
    (names : List Str) (graph : Map Str (Set Str)) (u k v : ℕ)
    → get_elem? (deps_of (dependencies_of names graph) u) k ≡ some v
    → (a : Str) × (l : Set Str) × (get_elem? graph u ≡ some (a, l))
      × (get_elem? (known names l) k ≡ some v)
unfolding dependencies_of
entry_read names [] u k v h = cc
entry_read names ((a, l) ∷ graph) zero k v h = (a, l, refl, h)
entry_read names ((a, l) ∷ graph) (suc u) k v h = entry_read names graph u k v h

pub deps_of-entry :
    (names : List Str) (graph : Map Str (Set Str)) (u : ℕ) (a : Str) (l : Set Str)
    → get_elem? graph u ≡ some (a, l)
    → deps_of (dependencies_of names graph) u ≡ known names l
unfolding dependencies_of
deps_of-entry names [] u a l h = cc
deps_of-entry names ((b, m) ∷ graph) zero a l h = cc
deps_of-entry names ((b, m) ∷ graph) (suc u) a l h = deps_of-entry names graph u a l h

pub keys-elem :
    (graph : Map Str (Set Str)) (u : ℕ) (a : Str)
    → get_elem? (keys graph) u ≡ some a
    → (l : Set Str) × (get_elem? graph u ≡ some (a, l))
keys-elem [] u a h = cc
keys-elem ((b, m) ∷ graph) zero a h = (m, cc)
keys-elem ((b, m) ∷ graph) (suc u) a h = keys-elem graph u a h

pub elem-keys :
    (graph : Map Str (Set Str)) (u : ℕ) (a : Str) (l : Set Str)
    → get_elem? graph u ≡ some (a, l)
    → get_elem? (keys graph) u ≡ some a
elem-keys [] u a l h = cc
elem-keys ((b, m) ∷ graph) zero a l h = cc
elem-keys ((b, m) ∷ graph) (suc u) a l h = elem-keys graph u a l h

Above-elem :
    (names : List Str) (b a : Str) (u : ℕ)
    → Above b names
    → get_elem? names u ≡ some a
    → key_eq a b ≡ false
Above-elem [] b a u h e = cc
Above-elem (n ∷ names) b a zero h e =
    let same : n ≡ a = cc in
    let below = str_ord.cmp_flip b a (subst (λ x. str_ord.cmp b x ≡ Ordering.lt) same h.0) in
    rw (key_eq, below) refl
Above-elem (n ∷ names) b a (suc u) h e = Above-elem names b a u h.1 e

-- In a map in order of its keys, the entry at a position is the one found by its key.
pub lookup-elem :
    (graph : Map Str (Set Str)) (u : ℕ) (a : Str) (l : Set Str)
    → IsSorted (keys graph)
    → get_elem? graph u ≡ some (a, l)
    → lookup a graph ≡ some l
unfolding lookup
lookup-elem [] u a l h e = cc
lookup-elem ((b, m) ∷ graph) zero a l h e =
    let same : b ≡ a = cc in
    let t : key_eq a b ≡ true = subst (λ x. key_eq a x ≡ true) (sym same) (key_eq_self a) in rw t cc
lookup-elem ((b, m) ∷ graph) (suc u) a l h e =
    rw (Above-elem (keys graph) b a u h.0 (elem-keys graph u a l e)) (lookup-elem graph u a l h.1 e)

pub mem-lookup :
    (graph : Map Str (Set Str)) (a : Str) (l : Set Str)
    → lookup a graph ≡ some l
    → mem a (keys graph) ≡ true
unfolding lookup
mem-lookup [] a l h = cc
mem-lookup ((b, m) ∷ graph) a l h = elim (Bool-cases (key_eq a b)) [
  | inl t ↦ rw t refl
  | inr f ↦ or_true (key_eq a b) (mem a (keys graph)) (
      mem-lookup graph a l
        (subst (λ (c : Bool). (if c then some m else lookup a graph) ≡ some l) f h))
]
