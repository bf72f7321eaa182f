-- ===== src/BTree/Defs.antt =====
-- The operations of `BTreeMap` and `BTreeSet` that the program uses.
use Prim.Native.Nat.{Ordering}
use axiom_rules_engine.Prelude.{
  Bool, true, false, ◌||◌, Option, none, some, List, [], ◌∷◌, if◌then◌else◌, is_some, map,
}
use axiom_rules_engine.Prelude.Ord.{Ord}

module _ {ℓ} {K : Type ℓ} ⦃o : Ord K⦄ where
  abbrev pub key_eq : K → K → Bool
  key_eq a b = elim (o.cmp a b) [ Ordering.eq ↦ true | _ ↦ false ]

  abbrev pub mem : K → List K → Bool
  mem k [] = false
  mem k (j ∷ s) = key_eq k j || mem k s

  -- `BTreeSet::insert`
  unfoldable pub set_insert : K → List K → List K
  set_insert k [] = k ∷ []
  set_insert k (j ∷ s) = elim (o.cmp k j) [
    | Ordering.lt ↦ k ∷ j ∷ s
    | Ordering.eq ↦ j ∷ s
    | Ordering.gt ↦ j ∷ set_insert k s
  ]

  module _ {κ} {V : Type κ} where
    unfoldable pub lookup : K → List (K × V) → Option V
    lookup k [] = none
    lookup k ((j, v) ∷ m) = if key_eq k j then some v else lookup k m

    -- `BTreeMap::insert`
    unfoldable pub insert : K → V → List (K × V) → List (K × V)
    insert k v [] = (k, v) ∷ []
    insert k v ((j, w) ∷ m) = elim (o.cmp k j) [
      | Ordering.lt ↦ (k, v) ∷ (j, w) ∷ m
      | Ordering.eq ↦ (j, v) ∷ m
      | Ordering.gt ↦ (j, w) ∷ insert k v m
    ]

    -- `BTreeMap::remove`
    unfoldable pub remove : K → List (K × V) → List (K × V)
    remove k [] = []
    remove k ((j, v) ∷ m) = if key_eq k j then m else (j, v) ∷ remove k m

    abbrev pub contains_key : K → List (K × V) → Bool
    contains_key k m = is_some (lookup k m)

    -- `entry(k).or_insert(v)`
    unfoldable pub or_insert : K → V → List (K × V) → List (K × V)
    or_insert k v m = if contains_key k m then m else insert k v m

    abbrev pub keys : List (K × V) → List K
    keys m = map (λ e. e.0) m

abbrev pub Map {ℓ κ} : Type ℓ → Type κ → Type (ℓ ⊔ κ)
Map K V = List (K × V)

abbrev pub Set {ℓ} : Type ℓ → Type ℓ
Set K = List K
