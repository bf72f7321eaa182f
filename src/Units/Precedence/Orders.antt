-- ===== src/Units/Precedence/Orders.antt =====
-- What a round of the search pushes, and what it leaves (src/unit_derivation/evaluate.rs,
-- `cut_set_precedes`).
use axiom_rules_engine.Prelude.{
  ◌+◌, ◌≤◌, ◌≡◌, refl, sym, ◌∙◌, ap, subst, Bool, true, false, ◌||◌, none, some, List, [], ◌∷◌,
  length, In, here, there, In-cons, Bool-cases, inl, inr, ◌⊎◌, arith, if◌then◌else◌,
}
use axiom_rules_engine.Prelude.Ord.{Str, str_ord}
use axiom_rules_engine.BTree.{Map, Set, lookup, mem, set_insert, key_eq}
use axiom_rules_engine.BTree.Laws.{mem-set_insert, key_eq-eq, key_eq_self}
use axiom_rules_engine.Units.Types.{CutRule, CutOrder}
use axiom_rules_engine.Units.Precedence.{push_orders, stacked, orders_left}

-- What the orders of a rule push.
pub record IsPushed (lower : Set Str) (orders : List CutOrder) (pending pushed : List Str)
    : Type 0 where
  pub no_lower : (o : CutOrder) → In o orders → mem o.lower_priority_cut lower ≡ false
  pub kept : (x : Str) → In x pending → In x pushed
  pub added : (o : CutOrder) → In o orders → In o.lower_priority_cut pushed
  pub only :
      (x : Str)
      → In x pushed
      → In x pending ⊎ ((o : CutOrder) × In o orders × (o.lower_priority_cut ≡ x))
  pub sized : length pushed ≡ length orders + length pending

pub push_orders-cases :
    (lower : Set Str) (orders : List CutOrder) (pending : List Str)
    → ((push_orders lower orders pending ≡ none)
        × ((o : CutOrder) × In o orders × (mem o.lower_priority_cut lower ≡ true)))
      ⊎ ((pushed : List Str) × (push_orders lower orders pending ≡ some pushed)
          × IsPushed lower orders pending pushed)
push_orders-cases lower [] pending = inr (
  pending,
  refl,
  record {
    no_lower = λ o i. elim i [ ];
    kept = λ x i. i;
    added = λ o i. elim i [ ];
    only = λ x i. inl i;
    sized = omega arith;
  },
)
push_orders-cases lower (order ∷ orders) pending =
    elim (Bool-cases (mem order.lower_priority_cut lower)) [
      | inl t ↦ inl (rw t refl, (order, here, t))
      | inr f ↦ elim (push_orders-cases lower orders (order.lower_priority_cut ∷ pending)) [
        | inl (found, (o, i, m)) ↦ inl (rw (f, found) refl, (o, there i, m))
        | inr (pushed, found, p) ↦ inr (
          pushed,
          rw (f, found) refl,
          record {
            no_lower = λ o i. elim (In-cons o order orders i) [
              | inl same ↦
                  subst (λ (x : CutOrder). mem x.lower_priority_cut lower ≡ false) (sym same) f
              | inr j ↦ p.no_lower o j
            ];
            kept = λ x i. p.kept x (there i);
            added = λ o i. elim (In-cons o order orders i) [
              | inl same ↦
                  subst (λ (x : CutOrder). In x.lower_priority_cut pushed) (sym same)
                    (p.kept order.lower_priority_cut here)
              | inr j ↦ p.added o j
            ];
            only = λ x i. elim (p.only x i) [
              | inl j ↦ elim (In-cons x order.lower_priority_cut pending j) [
                | inl same ↦ inr (order, here, sym same)
                | inr k ↦ inl k
              ]
              | inr (o, j, e) ↦ inr (o, there j, e)
            ];
            sized = omega (arith, p.sized);
          },
        )
      ]
    ]

pub after_insert : (k i : Str) (s : Set Str) → mem k s ≡ true → mem k (set_insert i s) ≡ true
after_insert k i s h = mem-set_insert k i s ∙ rw h (right (key_eq k i))
  where
    right : (a : Bool) → (a || true) ≡ true
    right a = ground arith

pub inserted : (i : Str) (s : Set Str) → mem i (set_insert i s) ≡ true
inserted i s = mem-set_insert i i s ∙ rw (key_eq_self i) refl

pub stacked-In :
    (x : Str) (ids pending : List Str) → In x (stacked ids pending) → In x ids ⊎ In x pending
stacked-In x [] pending i = inr i
stacked-In x (id ∷ ids) pending i = elim (stacked-In x ids (id ∷ pending) i) [
  | inl j ↦ inl (there j)
  | inr j ↦ elim (In-cons x id pending j) [
    | inl same ↦ inl (subst (λ y. In x (y ∷ ids)) same here)
    | inr k ↦ inr k
  ]
]

pub In-stacked :
    (x : Str) (ids pending : List Str) → In x ids ⊎ In x pending → In x (stacked ids pending)
In-stacked x [] pending (inl i) = elim i [ ]
In-stacked x [] pending (inr i) = i
In-stacked x (id ∷ ids) pending (inl i) = elim (In-cons x id ids i) [
  | inl same ↦ In-stacked x ids (id ∷ pending) (inr (subst (λ y. In x (y ∷ pending)) same here))
  | inr j ↦ In-stacked x ids (id ∷ pending) (inl j)
]
In-stacked x (id ∷ ids) pending (inr i) = In-stacked x ids (id ∷ pending) (inr (there i))

pub length-stacked :
    (ids pending : List Str) → length (stacked ids pending) ≡ length ids + length pending
length-stacked [] pending = omega arith
length-stacked (id ∷ ids) pending = omega (arith, length-stacked ids (id ∷ pending))

pub orders_left-le :
    (id : Str) (cuts : Map Str CutRule) (visited : Set Str)
    → orders_left cuts (set_insert id visited) ≤ orders_left cuts visited
orders_left-le id [] visited = omega arith
orders_left-le id ((k, rule) ∷ cuts) visited =
    ground (arith, mem-set_insert k id visited, orders_left-le id cuts visited)

pub orders_left-fall :
    (id : Str) (rule : CutRule) (cuts : Map Str CutRule) (visited : Set Str)
    → lookup id cuts ≡ some rule
    → mem id visited ≡ false
    → orders_left cuts (set_insert id visited) + length rule.precedes ≤ orders_left cuts visited
unfolding lookup
orders_left-fall id rule [] visited e f = cc
orders_left-fall id rule ((k, other) ∷ cuts) visited e f = elim (Bool-cases (key_eq id k)) [
  | inl t ↦
      let same = key_eq-eq id k t in
      let first : some other ≡ some rule =
        subst (λ (x : Bool). (if x then some other else lookup id cuts) ≡ some rule) t e in
      let rules : other ≡ rule = some-eq other rule first in
      let known : mem k (set_insert id visited) ≡ true =
        subst (λ x. mem x (set_insert id visited) ≡ true) same (inserted id visited) in
      let fresh : mem k visited ≡ false = subst (λ x. mem x visited ≡ false) same f in
      rw (known, fresh)
        (omega
          (arith, orders_left-le id cuts visited, ap (λ (r : CutRule). length r.precedes) rules))
  | inr n ↦
      let later : lookup id cuts ≡ some rule =
        subst (λ (x : Bool). (if x then some other else lookup id cuts) ≡ some rule) n e in
      ground (arith, mem-set_insert k id visited, orders_left-fall id rule cuts visited later f)
]
  where
    some-eq : {A : Type 0} (x y : A) → some x ≡ some y → x ≡ y
    some-eq x y h = cc
