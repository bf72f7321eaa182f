-- ===== src/BTree/Laws.antt =====
-- The laws of the ordered maps and sets: lookups after writes, and the order of the keys.
use Prim.Native.Nat.{Ordering}
use axiom_rules_engine.Prelude.{
  ◌≡◌, refl, sym, subst, true, ◌||◌, some, List, [], ◌∷◌, arith, if◌then◌else◌,
}
use axiom_rules_engine.Prelude.Ord.{Ord}
use axiom_rules_engine.BTree.Defs.{
  key_eq, mem, set_insert, lookup, insert, contains_key, or_insert, keys,
}

module _ {ℓ} {K : Type ℓ} ⦃o : Ord K⦄ where
  pub key_eq_self : (a : K) → key_eq a a ≡ true
  key_eq_self a = ground (arith, o.cmp_self a)

  pub key_eq-eq : (a b : K) → key_eq a b ≡ true → a ≡ b
  key_eq-eq a b h = ground (arith, o.cmp_eq a b)

  pub mem-set_insert : (j k : K) (s : List K) → mem j (set_insert k s) ≡ (key_eq j k || mem j s)
  unfolding set_insert
  mem-set_insert j k [] = refl
  mem-set_insert j k (i ∷ s) = ground (arith, o.cmp_eq k i, mem-set_insert j k s)

  -- Every element of `s` is above `k`.
  abbrev pub Above : K → List K → Type 0
  Above k [] = Unit
  Above k (j ∷ s) = (o.cmp k j ≡ Ordering.lt) × Above k s

  abbrev pub IsSorted : List K → Type 0
  IsSorted [] = Unit
  IsSorted (k ∷ s) = Above k s × IsSorted s

  pub Above-trans : (k j : K) (s : List K) → o.cmp k j ≡ Ordering.lt → Above j s → Above k s
  Above-trans k j [] h a = tt
  Above-trans k j (i ∷ s) h a = (o.cmp_trans k j i h a.0, Above-trans k j s h a.1)

  Above-set_insert :
      (i k : K) (s : List K) → o.cmp i k ≡ Ordering.lt → Above i s → Above i (set_insert k s)
  unfolding set_insert
  Above-set_insert i k [] h a = (h, tt)
  Above-set_insert i k (j ∷ s) h a = ground (arith, Above-set_insert i k s h)

  pub set_insert-IsSorted : (k : K) (s : List K) → IsSorted s → IsSorted (set_insert k s)
  unfolding set_insert
  set_insert-IsSorted k [] h = (tt, tt)
  set_insert-IsSorted k (j ∷ s) h =
      ground (
        arith,
        set_insert-IsSorted k s,
        Above-set_insert j k s,
        o.cmp_unflip k j,
        Above-trans k j s,
      )

  module _ {κ} {V : Type κ} where
    pub lookup-insert :
        (j k : K) (v : V) (m : List (K × V))
        → lookup j (insert k v m) ≡ (if key_eq j k then some v else lookup j m)
    unfolding lookup insert
    lookup-insert j k v [] = refl
    lookup-insert j k v ((i, w) ∷ m) =
        ground
          (arith, o.cmp_eq k i, o.cmp_eq j k, o.cmp_eq j i, o.cmp_self i, lookup-insert j k v m)

    -- An occupied entry keeps its value.
    pub lookup-or_insert :
        (j k : K) (v : V) (m : List (K × V))
        → lookup j (or_insert k v m)
          ≡ (if key_eq j k then (if contains_key k m then lookup k m else some v) else lookup j m)
    unfolding or_insert
    lookup-or_insert j k v m = ground (arith, lookup-insert j k v m, key_eq-eq j k)

    keys-insert : (k : K) (v : V) (m : List (K × V)) → keys (insert k v m) ≡ set_insert k (keys m)
    unfolding insert set_insert
    keys-insert k v [] = refl
    keys-insert k v ((j, w) ∷ m) = ground (arith, keys-insert k v m)

    pub insert-IsSorted :
        (k : K) (v : V) (m : List (K × V)) → IsSorted (keys m) → IsSorted (keys (insert k v m))
    insert-IsSorted k v m h = subst IsSorted (sym (keys-insert k v m)) (set_insert-IsSorted k _ h)
