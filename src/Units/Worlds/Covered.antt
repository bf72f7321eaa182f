-- ===== src/Units/Worlds/Covered.antt =====
-- Which worlds are enumerated (src/unit_derivation/evaluate.rs, `enumerate_worlds`).
use axiom_rules_engine.Prelude.{
  ◌≡◌, refl, ◌∙◌, Bool, false, some, List, [], ◌∷◌, flat_map, All, In, here, there, In-left,
  In-right, In-append, inl, inr,
}
use axiom_rules_engine.Prelude.Ord.{Str, str_ord}
use axiom_rules_engine.BTree.{Map, insert, lookup, key_eq}
use axiom_rules_engine.BTree.Laws.{lookup-insert, key_eq_self}
use axiom_rules_engine.Units.Worlds.{Variable, enumerate_worlds}

In-flat_map :
    {A B : Type 0} (f : A → List B) (l : List A) (b : B)
    → In b (flat_map f l)
    → (a : A) × In a l × In b (f a)
In-flat_map f [] b i = elim i [ ]
In-flat_map f (a ∷ l) b i = elim (In-append b (f a) (flat_map f l) i) [
  | inl j ↦ (a, here, j)
  | inr j ↦ let later = In-flat_map f l b j in (later.0, there later.1, later.2)
]

flat_map-In :
    {A B : Type 0} (f : A → List B) (l : List A) (a : A) (b : B)
    → In a l
    → In b (f a)
    → In b (flat_map f l)
flat_map-In f (c ∷ l) a b here j = In-left b (f a) (flat_map f l) j
flat_map-In f (c ∷ l) a b (there i) j = In-right b (f c) (flat_map f l) (flat_map-In f l a b i j)
flat_map-In f [] a b i j = elim i [ ]

-- No variable has the key.
abbrev pub IsFresh : Str → List Variable → Type 0
IsFresh key variables = All (λ v. key_eq key v.0 ≡ false) variables

abbrev pub HaveDistinctKeys : List Variable → Type 0
HaveDistinctKeys [] = Unit
HaveDistinctKeys ((key, values) ∷ variables) = IsFresh key variables × HaveDistinctKeys variables

lookup-untouched :
    (variables : List Variable) (valuation w : Map Str Bool) (j : Str)
    → In w (enumerate_worlds variables valuation)
    → IsFresh j variables
    → lookup j w ≡ lookup j valuation
unfolding enumerate_worlds
lookup-untouched [] valuation w j here h = refl
lookup-untouched [] valuation w j (there i) h = elim i [ ]
lookup-untouched ((key, values) ∷ variables) valuation w j i h =
    let branch =
      In-flat_map (λ value. enumerate_worlds variables (insert key value valuation)) values w i in
    lookup-untouched variables (insert key branch.0 valuation) w j branch.2 h.1
    ∙ lookup-insert j key branch.0 valuation
    ∙ rw h.0 refl

lookup-inserted :
    (key : Str) (value : Bool) (valuation : Map Str Bool)
    → lookup key (insert key value valuation) ≡ some value
lookup-inserted key value valuation =
    lookup-insert key key value valuation ∙ rw (key_eq_self key) refl

-- The world gives every variable one of its candidates.
abbrev pub IsWorldOf : List Variable → Map Str Bool → Type 0
IsWorldOf variables w = All (λ v. (b : Bool) × In b v.1 × (lookup v.0 w ≡ some b)) variables

enumerated-IsWorldOf :
    (variables : List Variable) (valuation w : Map Str Bool)
    → HaveDistinctKeys variables
    → In w (enumerate_worlds variables valuation)
    → IsWorldOf variables w
unfolding enumerate_worlds
enumerated-IsWorldOf [] valuation w d i = tt
enumerated-IsWorldOf ((key, values) ∷ variables) valuation w d i =
    let branch =
      In-flat_map (λ value. enumerate_worlds variables (insert key value valuation)) values w i in
    (
      (
        branch.0,
        branch.1,
        lookup-untouched variables (insert key branch.0 valuation) w key branch.2 d.0
            ∙ lookup-inserted key branch.0 valuation,
      ),
      enumerated-IsWorldOf variables (insert key branch.0 valuation) w d.1 branch.2,
    )

chosen-enumerated :
    (variables : List Variable) (valuation : Map Str Bool) (choice : Str → Bool)
    → HaveDistinctKeys variables
    → All (λ v. In (choice v.0) v.1) variables
    → (w : Map Str Bool) × In w (enumerate_worlds variables valuation)
      × All (λ v. lookup v.0 w ≡ some (choice v.0)) variables
unfolding enumerate_worlds
chosen-enumerated [] valuation choice d h = (valuation, here, tt)
chosen-enumerated ((key, values) ∷ variables) valuation choice d h =
    let rest = chosen-enumerated variables (insert key (choice key) valuation) choice d.1 h.1 in
    (
      rest.0,
      flat_map-In (λ value. enumerate_worlds variables (insert key value valuation)) values
          (choice key) rest.0 h.0 rest.1,
      (
        lookup-untouched variables (insert key (choice key) valuation) rest.0 key rest.1 d.0
            ∙ lookup-inserted key (choice key) valuation,
        rest.2,
      ),
    )

pub record Covers (variables : List Variable) (fixed : Map Str Bool) : Type 0 where
  -- Each world enumerated gives every variable one of its candidates, and leaves the other keys alone.
  pub sound :
      (w : Map Str Bool)
      → In w (enumerate_worlds variables fixed)
      → IsWorldOf variables w × ((j : Str) → IsFresh j variables → lookup j w ≡ lookup j fixed)
  -- Each choice of candidates is that of a world enumerated.
  pub complete :
      (choice : Str → Bool)
      → All (λ v. In (choice v.0) v.1) variables
      → (w : Map Str Bool) × In w (enumerate_worlds variables fixed)
        × All (λ v. lookup v.0 w ≡ some (choice v.0)) variables

-- If no two variables have one key, each world enumerated gives every variable one of its candidates and
-- every other key what it had, and each choice of candidates is that of a world enumerated.
pub enumerate_worlds-Covers :
    (variables : List Variable) (fixed : Map Str Bool)
    → HaveDistinctKeys variables
    → Covers variables fixed
enumerate_worlds-Covers variables fixed d = record {
  sound = λ w i.
      (enumerated-IsWorldOf variables fixed w d i, λ j h. lookup-untouched variables fixed w j i h);
  complete = λ choice h. chosen-enumerated variables fixed choice d h;
}
