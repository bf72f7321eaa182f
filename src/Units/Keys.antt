-- ===== src/Units/Keys.antt =====
-- The keys of facts (src/unit_derivation/types.rs, `FactRef::key`, and src/unit_derivation/evaluate.rs,
-- `legal_precedence_key`): texts, in which a colon and a unit separator stand between the parts.
use axiom_rules_engine.Prelude.{
  ℕ, ◌≡◌, ◌≢◌, refl, sym, ap, List, [], ◌∷◌, ◌++◌, append_assoc, length, length-append, arith,
}
use axiom_rules_engine.Prelude.Ord.{Str}
use axiom_rules_engine.Prelude.Text.{codes}
use axiom_rules_engine.Units.Types.{FactRef}

-- `tuple.join("\u{1f}")`
abbrev pub joined : List Str → Str
joined [] = []
joined (p ∷ []) = p
joined (p ∷ q ∷ tuple) = p ++ (0x1f ∷ joined (q ∷ tuple))

unfoldable pub key : FactRef → Str
key (FactRef.bool name) = codes "bool:" ++ name
key (FactRef.relation family tuple) = codes "relation:" ++ (family ++ (b':' ∷ joined tuple))

unfoldable pub legal_precedence_key : Str → Str → Str
legal_precedence_key cut edge = codes "legal-precedence:" ++ (cut ++ (b':' ∷ edge))

-- A byte that does not stand in a text.
abbrev pub Without : ℕ → Str → Type 0
Without c [] = Unit
Without c (d ∷ s) = (d ≢ c) × Without c s

abbrev pub AllWithout : ℕ → List Str → Type 0
AllWithout c [] = Unit
AllWithout c (s ∷ l) = Without c s × AllWithout c l

-- A separator that stands in neither first part splits both texts alike.
pub split-eq :
    (c : ℕ) (a b x y : Str)
    → Without c a
    → Without c b
    → a ++ (c ∷ x) ≡ b ++ (c ∷ y)
    → (a ≡ b) × (x ≡ y)
split-eq c [] [] x y p q e = (refl, cc)
split-eq c [] (d ∷ b) x y p q e = let same : c ≡ d = cc in absurd (q.0 (sym same))
split-eq c (d ∷ a) [] x y p q e = let same : d ≡ c = cc in absurd (p.0 same)
split-eq c (d ∷ a) (d' ∷ b) x y p q e =
    let heads : d ≡ d' = cc in
    let rest = split-eq c a b x y p.1 q.1 (cc) in let tails = rest.0 in (cc, rest.1)

-- A text without the separator is not one with it.
Without-ne : (c : ℕ) (a b x : Str) → Without c a → a ≡ b ++ (c ∷ x) → ⊥
Without-ne c [] [] x p e = cc
Without-ne c [] (d ∷ b) x p e = cc
Without-ne c (d ∷ a) [] x p e = p.0 (cc)
Without-ne c (d ∷ a) (d' ∷ b) x p e = Without-ne c a b x p.1 (cc)

-- A tuple with a person in it.
abbrev pub IsTuple : List Str → Type 0
IsTuple [] = ⊥
IsTuple (p ∷ tuple) = AllWithout 0x1f (p ∷ tuple)

joined-injective : (a b : List Str) → IsTuple a → IsTuple b → joined a ≡ joined b → a ≡ b
joined-injective [] b p q e = absurd p
joined-injective (x ∷ a) [] p q e = absurd q
joined-injective (x ∷ []) (y ∷ []) p q e = ap (λ s. s ∷ []) e
joined-injective (x ∷ []) (y ∷ z ∷ b) p q e = absurd (Without-ne 0x1f x y (joined (z ∷ b)) p.0 e)
joined-injective (x ∷ z ∷ a) (y ∷ []) p q e =
    absurd (Without-ne 0x1f y x (joined (z ∷ a)) q.0 (sym e))
joined-injective (x ∷ z ∷ a) (y ∷ w ∷ b) p q e =
    let parts = split-eq 0x1f x y (joined (z ∷ a)) (joined (w ∷ b)) p.0 q.0 e in
    let heads = parts.0 in let tails = joined-injective (z ∷ a) (w ∷ b) p.1 q.1 parts.1 in cc

-- A family without a colon, and persons without a unit separator.
abbrev pub IsPlain : FactRef → Type 0
IsPlain (FactRef.bool name) = Unit
IsPlain (FactRef.relation family tuple) = Without b':' family × IsTuple tuple

tail-eq : (a b : ℕ) (s t : List ℕ) → a ∷ s ≡ b ∷ t → s ≡ t
tail-eq a b s t e = cc

-- Facts whose family holds no colon, and whose tuple is not empty and holds no unit separator, are
-- equal if their keys are.
pub key-injective : (f g : FactRef) → IsPlain f → IsPlain g → key f ≡ key g → f ≡ g
unfolding key
key-injective (FactRef.bool a) (FactRef.bool b) p q e =
    let rest : a ≡ b = cc in ap FactRef.bool rest
key-injective (FactRef.relation f a) (FactRef.relation g b) p q e =
    let rest : f ++ (b':' ∷ joined a) ≡ g ++ (b':' ∷ joined b) = cc in
    let parts = split-eq b':' f g (joined a) (joined b) p.0 q.0 rest in
    let families = parts.0 in let tuples = joined-injective a b p.1 q.1 parts.1 in cc
key-injective (FactRef.bool a) (FactRef.relation g b) p q e = ground arith
key-injective (FactRef.relation f a) (FactRef.bool b) p q e = ground arith

shared-key :
    (family middle person : Str) (tuple : List Str)
    → key (FactRef.relation (family ++ (b':' ∷ middle)) (person ∷ tuple))
      ≡ key (FactRef.relation family ((middle ++ (b':' ∷ person)) ∷ tuple))
unfolding key
shared-key family middle person [] = simp append_assoc
shared-key family middle person (q ∷ tuple) = simp append_assoc

-- A relation fact whose family holds a colon is not the fact whose family ends at the colon and whose
-- first person is the rest of it, a colon and the first person, but has the same key.
pub key-collides :
    (family middle person : Str) (tuple : List Str)
    → (FactRef.relation (family ++ (b':' ∷ middle)) (person ∷ tuple)
        ≢ FactRef.relation family ((middle ++ (b':' ∷ person)) ∷ tuple))
      × (key (FactRef.relation (family ++ (b':' ∷ middle)) (person ∷ tuple))
          ≡ key (FactRef.relation family ((middle ++ (b':' ∷ person)) ∷ tuple)))
key-collides family middle person tuple = (longer, shared-key family middle person tuple)
  where
    longer :
        FactRef.relation (family ++ (b':' ∷ middle)) (person ∷ tuple)
        ≢ FactRef.relation family ((middle ++ (b':' ∷ person)) ∷ tuple)
    longer e =
        let families : family ++ (b':' ∷ middle) ≡ family = cc in
        omega (arith, ap length families, length-append family (b':' ∷ middle))
