-- ===== src/Units/Worlds/Observed.antt =====
-- What the normal form of observations says of them (src/unit_derivation/evaluate.rs,
-- `normalize_observations`).
use axiom_rules_engine.Prelude.{
  ◌≡◌, ◌≢◌, ◌↔◌, refl, sym, ◌∙◌, subst, Bool, true, false, ◌&&◌, ◌||◌, List, [], ◌∷◌, In, here,
  there, In-cons, inl, inr, if◌then◌else◌, Bool-cases, arith,
}
use axiom_rules_engine.Prelude.Ord.{str_ord}
use axiom_rules_engine.BTree.{key_eq}
use axiom_rules_engine.BTree.Laws.{key_eq-eq, key_eq_self}
use axiom_rules_engine.Units.Types.{ObservedBool}
use axiom_rules_engine.Units.Worlds.{
  NormalizedBool, known, unknown, conflict, same_bool, same_observation, observed, distinct,
  has_value, values_from, values_of, normal_form, normalize_observations,
}

same_bool-eq : (a b : Bool) → same_bool a b ≡ true → a ≡ b
same_bool-eq a b h = ground arith

both : (a b : Bool) → (a && b) ≡ true → (a ≡ true) × (b ≡ true)
both a b h = ground arith

same_observation-eq : (o q : ObservedBool) → same_observation o q ≡ true → o ≡ q
same_observation-eq o q h =
    let (values, rest) = both (same_bool o.value q.value) _ h in
    let (ids, citations) = both (key_eq o.evidence.id q.evidence.id) _ rest in
    let (provisions, authorities) =
      both (key_eq o.evidence.citation.provision q.evidence.citation.provision) _ citations in
    ground (
      arith,
      same_bool-eq o.value q.value values,
      key_eq-eq o.evidence.id q.evidence.id ids,
      key_eq-eq o.evidence.citation.provision q.evidence.citation.provision provisions,
      key_eq-eq o.evidence.citation.authority q.evidence.citation.authority authorities,
    )

same_observation_self : (o : ObservedBool) → same_observation o o ≡ true
same_observation_self o = ground (
  arith,
  key_eq_self o.evidence.id,
  key_eq_self o.evidence.citation.provision,
  key_eq_self o.evidence.citation.authority,
)

observed-In : (o : ObservedBool) (l : List ObservedBool) → observed o l ≡ true → In o l
observed-In o [] h = cc
observed-In o (q ∷ l) h = elim (Bool-cases (same_observation o q)) [
  | inl t ↦ subst (λ x. In o (x ∷ l)) (same_observation-eq o q t) here
  | inr f ↦ there (observed-In o l (subst (λ (b : Bool). (b || observed o l) ≡ true) f h))
]

In-observed : (o : ObservedBool) (l : List ObservedBool) → In o l → observed o l ≡ true
In-observed o (q ∷ l) here = rw (same_observation_self o) refl
In-observed o (q ∷ l) (there i) = elim (Bool-cases (same_observation o q)) [
  | inl t ↦ rw t refl
  | inr f ↦ rw (f, In-observed o l i) refl
]
In-observed o [] i = elim i [ ]

distinct-In : (o : ObservedBool) (l : List ObservedBool) → In o (distinct l) → In o l
distinct-In o [] i = i
distinct-In o (q ∷ l) i = elim (Bool-cases (observed q (distinct l))) [
  | inl t ↦
      there (
        distinct-In o l (subst (λ (b : Bool). In o (if b then distinct l else q ∷ distinct l)) t i))
  | inr f ↦
      first (subst (λ (b : Bool). In o (if b then distinct l else q ∷ distinct l)) f i)
        (distinct-In o l)
]
  where
    first : In o (q ∷ distinct l) → (In o (distinct l) → In o l) → In o (q ∷ l)
    first i later = elim (In-cons o q (distinct l) i) [
      | inl same ↦ subst (λ x. In o (x ∷ l)) same here
      | inr j ↦ there (later j)
    ]

In-distinct : (o : ObservedBool) (l : List ObservedBool) → In o l → In o (distinct l)
In-distinct o [] i = i
In-distinct o (q ∷ l) i = elim (Bool-cases (observed q (distinct l))) [
  | inl t ↦
      subst (λ (b : Bool). In o (if b then distinct l else q ∷ distinct l)) (sym t)
        (old i (observed-In q (distinct l) t) (In-distinct o l))
  | inr f ↦
      subst (λ (b : Bool). In o (if b then distinct l else q ∷ distinct l)) (sym f)
        (new i (In-distinct o l))
]
  where
    old : In o (q ∷ l) → In q (distinct l) → (In o l → In o (distinct l)) → In o (distinct l)
    old i j later = elim (In-cons o q l i) [
      | inl same ↦ subst (λ x. In x (distinct l)) (sym same) j
      | inr k ↦ later k
    ]

    new : In o (q ∷ l) → (In o l → In o (distinct l)) → In o (q ∷ distinct l)
    new i later = elim (In-cons o q l i) [
      | inl same ↦ subst (λ x. In o (x ∷ distinct l)) same here
      | inr k ↦ there (later k)
    ]

-- No observation stands twice.
abbrev Nodup : List ObservedBool → Type 0
Nodup [] = Unit
Nodup (o ∷ l) = (observed o l ≡ false) × Nodup l

distinct-Nodup : (l : List ObservedBool) → Nodup (distinct l)
distinct-Nodup [] = tt
distinct-Nodup (q ∷ l) = elim (Bool-cases (observed q (distinct l))) [
  | inl t ↦
      subst (λ (b : Bool). Nodup (if b then distinct l else q ∷ distinct l)) (sym t)
        (distinct-Nodup l)
  | inr f ↦
      subst (λ (b : Bool). Nodup (if b then distinct l else q ∷ distinct l)) (sym f)
        (f, distinct-Nodup l)
]

has_value-In :
    (v : Bool) (l : List ObservedBool)
    → has_value v l ≡ true
    → (o : ObservedBool) × In o l × (o.value ≡ v)
has_value-In v [] h = cc
has_value-In v (o ∷ l) h = elim (Bool-cases (same_bool v o.value)) [
  | inl t ↦ (o, here, sym (same_bool-eq v o.value t))
  | inr f ↦
      let later = has_value-In v l (subst (λ (b : Bool). (b || has_value v l) ≡ true) f h) in
      (later.0, there later.1, later.2)
]

In-has_value : (o : ObservedBool) (l : List ObservedBool) → In o l → has_value o.value l ≡ true
In-has_value o (q ∷ l) here = ground arith
In-has_value o (q ∷ l) (there i) = ground (arith, In-has_value o l i)
In-has_value o [] i = elim i [ ]

not-In-singleton : (a b : Bool) → a ≢ b → In a (b ∷ []) → ⊥
not-In-singleton a b h here = h refl
not-In-singleton a b h (there i) = elim i [ ]

values_from-In : (v f t : Bool) → In v (values_from f t) → (if v then t else f) ≡ true
values_from-In true false false i = elim i [ ]
values_from-In false false false i = elim i [ ]
values_from-In true false true i = refl
values_from-In false false true i = absurd (not-In-singleton false true (λ e. cc) i)
values_from-In true true false i = absurd (not-In-singleton true false (λ e. cc) i)
values_from-In false true false i = refl
values_from-In true true true i = refl
values_from-In false true true i = refl

In-values_from : (v f t : Bool) → (if v then t else f) ≡ true → In v (values_from f t)
In-values_from true f false h = cc
In-values_from false false t h = cc
In-values_from true false true h = here
In-values_from true true true h = there here
In-values_from false true false h = here
In-values_from false true true h = here

value_at :
    (v : Bool) (l : List ObservedBool)
    → (if v then has_value true l else has_value false l) ≡ has_value v l
value_at true l = refl
value_at false l = refl

values_of-In :
    (v : Bool) (l : List ObservedBool)
    → In v (values_of l) ↔ ((o : ObservedBool) × In o l × (o.value ≡ v))
values_of-In v l = (
  λ i.
      has_value-In v l
        (sym (value_at v l) ∙ values_from-In v (has_value false l) (has_value true l) i),
  λ (o, i, e).
      In-values_from v (has_value false l) (has_value true l)
        (value_at v l ∙ subst (λ (b : Bool). has_value b l ≡ true) e (In-has_value o l i)),
)

-- Nothing observed; one observation, as often as it may stand there; or different observations, with
-- their values.
abbrev pub Describes : List ObservedBool → NormalizedBool → Type 0
Describes l unknown = l ≡ []
Describes l (known v) =
    (o : ObservedBool) × In o l × (o.value ≡ v) × ((q : ObservedBool) → In q l → q ≡ o)
Describes l (conflict values) =
    (o : ObservedBool) × (q : ObservedBool) × In o l
    × In q l
    × (o ≢ q)
    × ((v : Bool) → In v values ↔ ((r : ObservedBool) × In r l × (r.value ≡ v)))

normal_form-Describes :
    (l d : List ObservedBool) → distinct l ≡ d → Nodup d → Describes l (normal_form d)
normal_form-Describes [] [] e n = refl
normal_form-Describes (o ∷ l) [] e n =
    absurd (empty (subst (λ m. In o m) e (In-distinct o (o ∷ l) here)))
  where
    empty : In o [] → ⊥
    empty i = elim i [ ]
normal_form-Describes l (o ∷ []) e n = (
  o,
  distinct-In o l (subst (λ m. In o m) (sym e) here),
  refl,
  λ q i. alone q (subst (λ m. In q m) e (In-distinct q l i)),
)
  where
    alone : (q : ObservedBool) → In q (o ∷ []) → q ≡ o
    alone q here = refl
    alone q (there i) = elim i [ ]
normal_form-Describes l (o ∷ q ∷ rest) e n = (
  o,
  q,
  distinct-In o l (subst (λ m. In o m) (sym e) here),
  distinct-In q l (subst (λ m. In q m) (sym e) (there here)),
  apart,
  λ v. (
    λ i.
        let (r, j, same) = (values_of-In v (o ∷ q ∷ rest)).0 i in
        (r, distinct-In r l (subst (λ m. In r m) (sym e) j), same),
    λ (r, j, same).
        (values_of-In v (o ∷ q ∷ rest)).1 (r, subst (λ m. In r m) e (In-distinct r l j), same),
  ),
)
  where
    apart : o ≢ q
    apart same =
        let found = In-observed o (q ∷ rest) (subst (λ x. In o (x ∷ rest)) same here) in
        let clash : true ≡ false = sym found ∙ n.0 in cc

-- On every list of observations the normal form is `unknown` if there is none; `known` with its value if
-- all are one observation; otherwise there are two different ones, and it is a conflict that has
-- exactly the values observed.
pub normalize_observations-Describes :
    (observations : List ObservedBool)
    → Describes observations (normalize_observations observations)
unfolding normalize_observations
normalize_observations-Describes observations =
    normal_form-Describes observations (distinct observations) refl (distinct-Nodup observations)
