-- ===== src/Prelude/Ord.antt =====
-- The interface of an ordered key (Rust's `Ord`), with the keys that the program uses: row
-- numbers, and strings, which Rust orders by their bytes.
use Prim.Native.Nat.{ℕ, compare, Ordering}
use mathlib.Core.Path.{◌≡◌, refl}
use mathlib.Core.List.{List, [], ◌∷◌}
use native.Mathlib.Omega.{arith}

pub record Ord {ℓ} (A : Type ℓ) : Type ℓ where
  pub cmp : A → A → Ordering
  pub cmp_eq : (a b : A) → cmp a b ≡ Ordering.eq → a ≡ b
  pub cmp_self : (a : A) → cmp a a ≡ Ordering.eq
  pub cmp_flip : (a b : A) → cmp a b ≡ Ordering.lt → cmp b a ≡ Ordering.gt
  pub cmp_unflip : (a b : A) → cmp a b ≡ Ordering.gt → cmp b a ≡ Ordering.lt
  pub cmp_trans :
      (a b c : A) → cmp a b ≡ Ordering.lt → cmp b c ≡ Ordering.lt → cmp a c ≡ Ordering.lt

pub cmp_nat-eq : (a b : ℕ) → compare a b ≡ Ordering.eq → a ≡ b
cmp_nat-eq a b h = ground arith

pub cmp_nat_self : (a : ℕ) → compare a a ≡ Ordering.eq
cmp_nat_self a = ground arith

pub cmp_nat-flip : (a b : ℕ) → compare a b ≡ Ordering.lt → compare b a ≡ Ordering.gt
cmp_nat-flip a b h = ground arith

pub cmp_nat-unflip : (a b : ℕ) → compare a b ≡ Ordering.gt → compare b a ≡ Ordering.lt
cmp_nat-unflip a b h = ground arith

pub cmp_nat_trans :
    (a b c : ℕ) → compare a b ≡ Ordering.lt → compare b c ≡ Ordering.lt → compare a c ≡ Ordering.lt
cmp_nat_trans a b c h k = ground arith

instance abbrev pub nat_ord : Ord ℕ
nat_ord = record {
  cmp = compare;
  cmp_eq = cmp_nat-eq;
  cmp_self = cmp_nat_self;
  cmp_flip = cmp_nat-flip;
  cmp_unflip = cmp_nat-unflip;
  cmp_trans = cmp_nat_trans;
}

-- A string by its bytes.
abbrev pub Str : Type 0
Str = List ℕ

abbrev pub cmp_str : Str → Str → Ordering
cmp_str [] [] = Ordering.eq
cmp_str [] (b ∷ bs) = Ordering.lt
cmp_str (a ∷ as') [] = Ordering.gt
cmp_str (a ∷ as') (b ∷ bs) = elim (compare a b) [
  | Ordering.lt ↦ Ordering.lt
  | Ordering.eq ↦ cmp_str as' bs
  | Ordering.gt ↦ Ordering.gt
]

pub cmp_str-eq : (a b : Str) → cmp_str a b ≡ Ordering.eq → a ≡ b
cmp_str-eq [] [] h = refl
cmp_str-eq [] (b ∷ bs) h = cc
cmp_str-eq (a ∷ as') [] h = cc
cmp_str-eq (a ∷ as') (b ∷ bs) h = ground (arith, cmp_str-eq as' bs)

pub cmp_str_self : (a : Str) → cmp_str a a ≡ Ordering.eq
cmp_str_self [] = refl
cmp_str_self (a ∷ as') = ground (arith, cmp_str_self as')

pub cmp_str-flip : (a b : Str) → cmp_str a b ≡ Ordering.lt → cmp_str b a ≡ Ordering.gt
cmp_str-flip [] [] h = cc
cmp_str-flip [] (b ∷ bs) h = refl
cmp_str-flip (a ∷ as') [] h = cc
cmp_str-flip (a ∷ as') (b ∷ bs) h = ground (arith, cmp_str-flip as' bs)

pub cmp_str-unflip : (a b : Str) → cmp_str a b ≡ Ordering.gt → cmp_str b a ≡ Ordering.lt
cmp_str-unflip [] [] h = cc
cmp_str-unflip [] (b ∷ bs) h = cc
cmp_str-unflip (a ∷ as') [] h = refl
cmp_str-unflip (a ∷ as') (b ∷ bs) h = ground (arith, cmp_str-unflip as' bs)

pub cmp_str_trans :
    (a b c : Str)
    → cmp_str a b ≡ Ordering.lt
    → cmp_str b c ≡ Ordering.lt
    → cmp_str a c ≡ Ordering.lt
cmp_str_trans [] [] c h k = cc
cmp_str_trans [] (b ∷ bs) [] h k = cc
cmp_str_trans [] (b ∷ bs) (c ∷ cs) h k = refl
cmp_str_trans (a ∷ as') [] c h k = cc
cmp_str_trans (a ∷ as') (b ∷ bs) [] h k = cc
cmp_str_trans (a ∷ as') (b ∷ bs) (c ∷ cs) h k = ground (arith, cmp_str_trans as' bs cs)

instance abbrev pub str_ord : Ord Str
str_ord = record {
  cmp = cmp_str;
  cmp_eq = cmp_str-eq;
  cmp_self = cmp_str_self;
  cmp_flip = cmp_str-flip;
  cmp_unflip = cmp_str-unflip;
  cmp_trans = cmp_str_trans;
}
