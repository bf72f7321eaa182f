-- ===== src/Prelude/Lists.antt =====
-- Lists measured and indexed by native numbers, under the library's names.
use Prim.Native.Nat.{ℕ, zero, suc, ◌+◌, ◌<◌}
use mathlib.Core.Path.{◌≡◌, refl, ap}
use mathlib.Core.Logic.{◌≢◌, ◌⊎◌, inl, inr}
use mathlib.Core.List.{List, [], ◌∷◌, ◌++◌, map}
use mathlib.Core.Bool.{Bool}
use axiom_rules_engine.Prelude.Tests.{if◌then◌else◌}
use mathlib.Core.Option.{Option, none, some}
use native.Mathlib.Omega.{arith}

module _ {ℓ} {A : Type ℓ} where
  abbrev pub length : List A → ℕ
  length [] = 0
  length (x ∷ xs) = suc (length xs)

  abbrev pub get_elem? : List A → ℕ → Option A
  get_elem? [] i = none
  get_elem? (x ∷ xs) zero = some x
  get_elem? (x ∷ xs) (suc i) = get_elem? xs i

  -- A write out of bounds changes nothing.
  abbrev pub set : List A → ℕ → A → List A
  set [] i v = []
  set (x ∷ xs) zero v = v ∷ xs
  set (x ∷ xs) (suc i) v = x ∷ set xs i v

  abbrev pub get_or : List A → ℕ → A → A
  get_or [] i d = d
  get_or (x ∷ xs) zero d = x
  get_or (x ∷ xs) (suc i) d = get_or xs i d

  abbrev pub replicate : ℕ → A → List A
  replicate zero a = []
  replicate (suc n) a = a ∷ replicate n a

  pub length-append : (xs ys : List A) → length (xs ++ ys) ≡ length xs + length ys
  length-append [] ys = omega arith
  length-append (x ∷ xs) ys = omega (arith, length-append xs ys)

  pub length-replicate : (n : ℕ) (a : A) → length (replicate n a) ≡ n
  length-replicate zero a = refl
  length-replicate (suc n) a = ap suc (length-replicate n a)

module _ {ℓ} {A : Type ℓ} where
  pub length-set : (xs : List A) (i : ℕ) (v : A) → length (set xs i v) ≡ length xs
  length-set [] i v = refl
  length-set (x ∷ xs) zero v = refl
  length-set (x ∷ xs) (suc i) v = ap suc (length-set xs i v)

  pub get_elem?-set_self :
      (xs : List A) (i : ℕ) (v : A) → i < length xs → get_elem? (set xs i v) i ≡ some v
  get_elem?-set_self [] i v h = elim h [ ]
  get_elem?-set_self (x ∷ xs) zero v h = refl
  get_elem?-set_self (x ∷ xs) (suc i) v h = get_elem?-set_self xs i v (omega arith)

  pub get_elem?-set_ne :
      (xs : List A) {i j : ℕ} (v : A) → i ≢ j → get_elem? (set xs i v) j ≡ get_elem? xs j
  get_elem?-set_ne [] v h = refl
  get_elem?-set_ne (x ∷ xs) {i = zero} {j = zero} v h = absurd (h refl)
  get_elem?-set_ne (x ∷ xs) {i = zero} {j = suc j} v h = refl
  get_elem?-set_ne (x ∷ xs) {i = suc i} {j = zero} v h = refl
  get_elem?-set_ne (x ∷ xs) {i = suc i} {j = suc j} v h = get_elem?-set_ne xs v (λ e. h (ap suc e))

pub length-map {ℓ κ} :
    {A : Type ℓ} {B : Type κ} (xs : List A) (f : A → B) → length (map f xs) ≡ length xs
length-map [] f = refl
length-map (x ∷ xs) f = ap suc (length-map xs f)

-- `a` stands in the list.
pub data In {ℓ} {A : Type ℓ} (a : A) : List A → Type ℓ where
  here : {l : List A} → In a (a ∷ l)
  there : {b : A} {l : List A} → In a l → In a (b ∷ l)

pub In-left {ℓ} : {A : Type ℓ} (a : A) (l m : List A) → In a l → In a (l ++ m)
In-left a (b ∷ l) m here = here
In-left a (b ∷ l) m (there i) = there (In-left a l m i)
In-left a [] m i = elim i [ ]

pub In-right {ℓ} : {A : Type ℓ} (a : A) (l m : List A) → In a m → In a (l ++ m)
In-right a [] m i = i
In-right a (b ∷ l) m i = there (In-right a l m i)

pub In-append {ℓ} : {A : Type ℓ} (a : A) (l m : List A) → In a (l ++ m) → In a l ⊎ In a m
In-append a [] m i = inr i
In-append a (b ∷ l) m here = inl here
In-append a (b ∷ l) m (there i) = elim (In-append a l m i) [ inl j ↦ inl (there j) | inr j ↦ inr j ]

abbrev pub flat_map {ℓ κ} : {A : Type ℓ} {B : Type κ} → (A → List B) → List A → List B
flat_map f [] = []
flat_map f (x ∷ l) = f x ++ flat_map f l

abbrev pub All {ℓ κ} : {A : Type ℓ} → (A → Type κ) → List A → Type κ
All P [] = Unit
All P (x ∷ l) = P x × All P l

pub In-cons {ℓ} : {A : Type ℓ} (a b : A) (l : List A) → In a (b ∷ l) → (a ≡ b) ⊎ In a l
In-cons a b l here = inl refl
In-cons a b l (there i) = inr i

pub All-of_In {ℓ κ} :
    {A : Type ℓ} (P : A → Type κ) (l : List A) → ((a : A) → In a l → P a) → All P l
All-of_In P [] h = tt
All-of_In P (x ∷ l) h = (h x here, All-of_In P l (λ a i. h a (there i)))

pub All-at {ℓ κ} : {A : Type ℓ} (P : A → Type κ) (l : List A) (a : A) → All P l → In a l → P a
All-at P (x ∷ l) a h here = h.0
All-at P (x ∷ l) a h (there i) = All-at P l a h.1 i
All-at P [] a h i = elim i [ ]

-- The items that pass the test.
abbrev pub keep {ℓ} : {A : Type ℓ} → (A → Bool) → List A → List A
keep test [] = []
keep test (x ∷ l) = if test x then x ∷ keep test l else keep test l
