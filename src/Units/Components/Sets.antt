-- ===== src/Units/Components/Sets.antt =====
-- Membership in the sets of the search.
use axiom_rules_engine.Prelude.{
  suc, ◌+◌, ◌≤◌, ◌<◌, ◌≡◌, refl, sym, ◌∙◌, subst, Bool, true, false, ◌||◌, not, ◌&&◌, List, [], ◌∷◌,
  ◌++◌, length, Bool-cases, inl, inr, arith,
}
use axiom_rules_engine.Prelude.Ord.{Str, str_ord}
use axiom_rules_engine.BTree.{Map, Set, mem, key_eq}
use axiom_rules_engine.BTree.Laws.{key_eq-eq, key_eq_self}
use axiom_rules_engine.Units.Components.{set_remove, neighbours, to_search}

pub mem-append : (x : Str) (a b : List Str) → mem x (a ++ b) ≡ (mem x a || mem x b)
mem-append x [] b = refl
mem-append x (y ∷ a) b = ground (arith, mem-append x a b)

pub mem-set_remove :
    (x k : Str) (s : Set Str) → mem x (set_remove k s) ≡ (not (key_eq x k) && mem x s)
mem-set_remove x k [] = ground arith
mem-set_remove x k (j ∷ s) = elim (Bool-cases (key_eq j k)) [
  | inl t ↦
      let same = key_eq-eq j k t in
      rw (t, mem-set_remove x k s)
        (subst (λ y. (not (key_eq x k) && mem x s) ≡ (not (key_eq x k) && (key_eq x y || mem x s)))
          (sym same) (absorbed (key_eq x k) (mem x s)))
  | inr f ↦ elim (Bool-cases (key_eq x k)) [
    | inl t ↦
        let same = key_eq-eq x k t in
        let other : key_eq x j ≡ false = apart x j k same f in
        rw (f, t, other, mem-set_remove x k s) (rw t refl)
    | inr g ↦ rw (f, g, mem-set_remove x k s) (rw g refl)
  ]
]
  where
    absorbed : (a b : Bool) → (not a && b) ≡ (not a && (a || b))
    absorbed a b = ground arith

    apart : (x j k : Str) → x ≡ k → key_eq j k ≡ false → key_eq x j ≡ false
    apart x j k e f = elim (Bool-cases (key_eq x j)) [
      | inl t ↦
          let same : j ≡ k = sym (key_eq-eq x j t) ∙ e in
          let clash : key_eq j k ≡ true = subst (λ y. key_eq j y ≡ true) same (key_eq_self j) in
          ground arith
      | inr g ↦ g
    ]

key_eq-flip : (j k : Str) → key_eq j k ≡ false → key_eq k j ≡ false
key_eq-flip j k f = elim (Bool-cases (key_eq k j)) [
  | inl t ↦
      let clash : key_eq j k ≡ true =
        subst (λ y. key_eq j y ≡ true) (sym (key_eq-eq k j t)) (key_eq_self j) in
      ground arith
  | inr g ↦ g
]

mem-tail : (k j : Str) (s : Set Str) → key_eq j k ≡ false → mem k (j ∷ s) ≡ true → mem k s ≡ true
mem-tail k j s f h = subst (λ (b : Bool). (b || mem k s) ≡ true) (key_eq-flip j k f) h

pub length-set_remove : (k : Str) (s : Set Str) → length (set_remove k s) ≤ length s
length-set_remove k [] = omega arith
length-set_remove k (j ∷ s) = ground (arith, length-set_remove k s)

pub length-set_remove_lt :
    (k : Str) (s : Set Str) → mem k s ≡ true → length (set_remove k s) < length s
length-set_remove_lt k [] h = cc
length-set_remove_lt k (j ∷ s) h = elim (Bool-cases (key_eq j k)) [
  | inl t ↦ rw t (omega (arith, length-set_remove k s))
  | inr f ↦ rw f (omega (arith, length-set_remove_lt k s (mem-tail k j s f h)))
]

module _ (adjacency : Map Str (Set Str)) where
  pub to_search-set_remove :
      (k : Str) (s : Set Str) → to_search adjacency (set_remove k s) ≤ to_search adjacency s
  to_search-set_remove k [] = omega arith
  to_search-set_remove k (j ∷ s) = elim (Bool-cases (key_eq j k)) [
    | inl t ↦ rw t (omega (arith, to_search-set_remove k s))
    | inr f ↦ rw f (omega (arith, to_search-set_remove k s))
  ]

  pub to_search-fall :
      (k : Str) (s : Set Str)
      → mem k s ≡ true
      → to_search adjacency (set_remove k s) + suc (length (neighbours adjacency k))
        ≤ to_search adjacency s
  to_search-fall k [] h = cc
  to_search-fall k (j ∷ s) h = elim (Bool-cases (key_eq j k)) [
    | inl t ↦
        let same = key_eq-eq j k t in
        rw t (
          subst
            (λ y.
              to_search adjacency (set_remove k s) + suc (length (neighbours adjacency k))
              ≤ suc (length (neighbours adjacency y)) + to_search adjacency s)
            (sym same) (omega (arith, to_search-set_remove k s)))
    | inr f ↦ rw f (omega (arith, to_search-fall k s (mem-tail k j s f h)))
  ]
