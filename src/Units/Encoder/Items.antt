-- ===== src/Units/Encoder/Items.antt =====
-- Lists of records that the trace sorts by their bytes (src/unit_derivation/evaluate.rs, `sorted_blobs`).
use axiom_rules_engine.Prelude.{
  ℕ, suc, zero, ◌≡◌, refl, sym, ◌∙◌, ap, subst, Bool, true, ◌||◌, some, List, [], ◌∷◌, ◌++◌, map,
  append_assoc, get_elem?, All, Bool-cases, inl, inr,
}
use axiom_rules_engine.Prelude.Ord.{Str, str_ord}
use axiom_rules_engine.BTree.{mem, key_eq}
use axiom_rules_engine.BTree.Laws.{key_eq-eq, key_eq_self}
use axiom_rules_engine.Units.Encoder.{sorted, sorted_blobs, strings_in_order}
use axiom_rules_engine.Units.Encoder.Codes.{Decodes, AreShort, strings-Decodes}
use axiom_rules_engine.Units.Encoder.Identity.{SameMembers, sorted-SameMembers}

-- One value after the other in front of the rest.
pub next_part :
    {A : Type 0} {P : A → Type 0} (f : A → List ℕ) (d : Decodes P f) (a b : A) (x y r s : List ℕ)
    → P a
    → P b
    → (f a ++ x) ++ r ≡ (f b ++ y) ++ s
    → (a ≡ b) × (x ++ r ≡ y ++ s)
next_part f d a b x y r s p q e =
    d a b (x ++ r) (y ++ s) p q (sym (append_assoc (f a) x r) ∙ e ∙ append_assoc (f b) y s)

pub blobs-next :
    (a b : List Str) (x y r s : List ℕ)
    → AreShort (sorted a)
    → AreShort (sorted b)
    → (sorted_blobs a ++ x) ++ r ≡ (sorted_blobs b ++ y) ++ s
    → SameMembers a b × (x ++ r ≡ y ++ s)
blobs-next a b x y r s p q e =
    let parts = next_part strings_in_order strings-Decodes (sorted a) (sorted b) x y r s p q e in
    (sorted-SameMembers a b parts.0, parts.1)

pub All-elem :
    {A : Type 0} (P : A → Type 0) (l : List A) (i : ℕ) (a : A)
    → All P l
    → get_elem? l i ≡ some a
    → P a
All-elem P [] i a h e = cc
All-elem P (x ∷ l) zero a h e = let same : x ≡ a = cc in subst P same h.0
All-elem P (x ∷ l) (suc i) a h e = All-elem P l i a h.1 e

pub mem-elem :
    {A : Type 0} (f : A → List ℕ) (l : List A) (i : ℕ) (a : A)
    → get_elem? l i ≡ some a
    → mem (f a) (map f l) ≡ true
mem-elem f [] i a e = cc
mem-elem f (x ∷ l) zero a e =
    let same : x ≡ a = cc in
    subst (λ y. mem (f a) (f y ∷ map f l) ≡ true) (sym same) (rw (key_eq_self (f a)) refl)
mem-elem f (x ∷ l) (suc i) a e = elim (Bool-cases (key_eq (f a) (f x))) [
  | inl t ↦ rw t refl
  | inr n ↦ rw (n, mem-elem f l i a e) refl
]

pub elem-mem :
    {A : Type 0} (f : A → List ℕ) (l : List A) (s : List ℕ)
    → mem s (map f l) ≡ true
    → (i : ℕ) × (a : A) × (get_elem? l i ≡ some a) × (f a ≡ s)
elem-mem f [] s h = cc
elem-mem f (x ∷ l) s h = elim (Bool-cases (key_eq s (f x))) [
  | inl t ↦ (0, x, refl, sym (key_eq-eq s (f x) t))
  | inr n ↦
      let later = elem-mem f l s (subst (λ (b : Bool). (b || mem s (map f l)) ≡ true) n h) in
      (suc later.0, later.1, later.2, later.3)
]

-- Every item of the one list stands in the other.
abbrev pub Within {ℓ} : {A : Type ℓ} → List A → List A → Type ℓ
Within {A = A} l m = (i : ℕ) (a : A) → get_elem? l i ≡ some a → (j : ℕ) × (get_elem? m j ≡ some a)

-- The same items, in any order and any number.
abbrev pub SameItems {ℓ} : {A : Type ℓ} → List A → List A → Type ℓ
SameItems l m = Within l m × Within m l

pub members-Within :
    {A : Type 0} {P : A → Type 0} (f : A → List ℕ)
    → Decodes P f
    → (l m : List A) → All P l
    → All P m
    → SameMembers (map f l) (map f m)
    → Within l m
members-Within {P = P} f d l m p q same i a e =
    let found = elem-mem f m (f a) (sym (same (f a)) ∙ mem-elem f l i a e) in
    let equal =
      d a found.1 [] [] (All-elem P l i a p e) (All-elem P m found.0 found.1 q found.2)
        (ap (λ s. s ++ []) (sym found.3)) in
    (found.0, subst (λ x. get_elem? m found.0 ≡ some x) (sym equal.0) found.2)

pub members-SameItems :
    {A : Type 0} {P : A → Type 0} (f : A → List ℕ)
    → Decodes P f
    → (l m : List A) → All P l
    → All P m
    → SameMembers (map f l) (map f m)
    → SameItems l m
members-SameItems f d l m p q same =
    (members-Within f d l m p q same, members-Within f d m l q p (λ name. sym (same name)))
