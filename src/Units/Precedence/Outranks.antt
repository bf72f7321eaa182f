-- ===== src/Units/Precedence/Outranks.antt =====
-- A set of cuts precedes another exactly if its orders lead there (src/unit_derivation/evaluate.rs,
-- `cut_set_precedes`).
use axiom_rules_engine.Prelude.{
  ℕ, zero, suc, ◌+◌, ◌<◌, ◌≡◌, ◌↔◌, refl, sym, ◌∙◌, subst, Bool, true, false, ◌||◌, some, List, [],
  ◌∷◌, length, In, here, there, In-cons, Bool-cases, inl, inr, ◌⊎◌, arith,
}
use axiom_rules_engine.Prelude.Ord.{Str, str_ord}
use axiom_rules_engine.BTree.{Map, Set, lookup, mem, set_insert, key_eq}
use axiom_rules_engine.BTree.Laws.{mem-set_insert, key_eq-eq}
use axiom_rules_engine.Units.Types.{CutRule, CutOrder}
use axiom_rules_engine.Units.Precedence.{
  Answer, answer, precedes_from, stacked, orders_left, cut_set_precedes,
}
use axiom_rules_engine.Units.Precedence.Orders.{
  IsPushed, push_orders-cases, after_insert, inserted, stacked-In, In-stacked, length-stacked,
  orders_left-fall,
}

-- The rule of the one cut names the other as lower.
abbrev pub Precedes : Map Str CutRule → Str → Str → Type 0
Precedes cuts a b =
    (rule : CutRule) × (order : CutOrder) × (lookup a cuts ≡ some rule)
    × In order rule.precedes
    × (order.lower_priority_cut ≡ b)

-- A cut of the set, or one that its orders lead to.
pub data Reached (cuts : Map Str CutRule) (higher : List Str) : Str → Type 0 where
  at_first : {a : Str} → In a higher → Reached cuts higher a
  onward : {a b : Str} → Reached cuts higher a → Precedes cuts a b → Reached cuts higher b

-- The orders lead from the one set to a cut of the other.
abbrev pub Outranks : Map Str CutRule → (higher lower : List Str) → Type 0
Outranks cuts higher lower =
    (a : Str) × (b : Str) × Reached cuts higher a × Precedes cuts a b × (mem b lower ≡ true)

-- The state of the loop.
record IsSearch (cuts : Map Str CutRule) (higher lower : Set Str) (pending visited : List Str)
    : Type 0 where
  reached : (x : Str) → In x pending → Reached cuts higher x
  started : (x : Str) → In x higher → (mem x visited ≡ true) ⊎ In x pending
  followed :
      (v b : Str)
      → mem v visited ≡ true
      → Precedes cuts v b
      → (mem b lower ≡ false) × ((mem b visited ≡ true) ⊎ In b pending)

no_clash : {P : Type 0} → false ≡ true → P
no_clash e = absurd (cc)

module _ (cuts : Map Str CutRule) (higher lower : Set Str) where
  abbrev pub Answers : Answer → Type 0
  Answers r = (b : Bool) × (r ≡ answer b) × ((b ≡ true) ↔ Outranks cuts higher lower)

  all_visited :
      (visited : Set Str)
      → IsSearch cuts higher lower [] visited
      → (a : Str) → Reached cuts higher a
      → mem a visited ≡ true
  all_visited visited s a (at_first i) = elim (s.started a i) [ inl m ↦ m | inr j ↦ elim j [ ] ]
  all_visited visited s b (onward r p) = elim (s.followed _ b (all_visited visited s _ r) p).1 [
    | inl m ↦ m
    | inr j ↦ elim j [ ]
  ]

  skip-IsSearch :
      (id : Str) (pending visited : List Str)
      → mem id visited ≡ true
      → IsSearch cuts higher lower (id ∷ pending) visited
      → IsSearch cuts higher lower pending visited
  skip-IsSearch id pending visited t s = record {
    reached = λ x i. s.reached x (there i);
    started = λ x i. left x (s.started x i);
    followed = λ v b m p. let old = s.followed v b m p in (old.0, left b old.1);
  }
    where
      left :
          (x : Str)
          → (mem x visited ≡ true) ⊎ In x (id ∷ pending)
          → (mem x visited ≡ true) ⊎ In x pending
      left x (inl m) = inl m
      left x (inr i) = elim (In-cons x id pending i) [
        | inl same ↦ inl (subst (λ y. mem y visited ≡ true) (sym same) t)
        | inr j ↦ inr j
      ]

  visit-IsSearch :
      (id : Str) (rule : CutRule) (pending pushed visited : List Str)
      → lookup id cuts ≡ some rule
      → IsPushed lower rule.precedes pending pushed
      → IsSearch cuts higher lower (id ∷ pending) visited
      → IsSearch cuts higher lower pushed (set_insert id visited)
  visit-IsSearch id rule pending pushed visited e p s = record {
    reached = λ x i. elim (p.only x i) [
      | inl j ↦ s.reached x (there j)
      | inr (o, j, same) ↦
          subst (λ y. Reached cuts higher y) same (onward (s.reached id here) (rule, o, e, j, refl))
    ];
    started = λ x i. left x (s.started x i);
    followed = λ v b m q. elim (Bool-cases (key_eq v id)) [
      | inl t ↦ own b (subst (λ x. Precedes cuts x b) (key_eq-eq v id t) q)
      | inr n ↦
          let split : (key_eq v id || mem v visited) ≡ true =
            sym (mem-set_insert v id visited) ∙ m in
          let old = s.followed v b (subst (λ (x : Bool). (x || mem v visited) ≡ true) n split) q in
          (old.0, left b old.1)
    ];
  }
    where
      some-eq : (x y : CutRule) → some x ≡ some y → x ≡ y
      some-eq x y h = cc

      left :
          (x : Str)
          → (mem x visited ≡ true) ⊎ In x (id ∷ pending)
          → (mem x (set_insert id visited) ≡ true) ⊎ In x pushed
      left x (inl m) = inl (after_insert x id visited m)
      left x (inr i) = elim (In-cons x id pending i) [
        | inl same ↦
            inl (subst (λ y. mem y (set_insert id visited) ≡ true) (sym same) (inserted id visited))
        | inr j ↦ inr (p.kept x j)
      ]

      own :
          (b : Str)
          → Precedes cuts id b
          → (mem b lower ≡ false) × ((mem b (set_insert id visited) ≡ true) ⊎ In b pushed)
      own b (rule', o, e', i, same) =
          let rules : rule' ≡ rule = some-eq rule' rule (sym e' ∙ e) in
          let j = subst (λ (r : CutRule). In o r.precedes) rules i in
          (
            subst (λ x. mem x lower ≡ false) same (p.no_lower o j),
            inr (subst (λ x. In x pushed) same (p.added o j)),
          )

  module _
      (ruled : (a : Str)
        → Reached cuts higher a
        → (rule : CutRule) × (lookup a cuts ≡ some rule)) where
    precedes_from-Answers :
        (f : ℕ) (pending visited : List Str)
        → IsSearch cuts higher lower pending visited
        → length pending + orders_left cuts visited < f
        → Answers (precedes_from f cuts lower pending visited)
    unfolding precedes_from
    precedes_from-Answers zero pending visited s h = absurd (omega arith)
    precedes_from-Answers (suc f) [] visited s h = (
      false,
      refl,
      (
        λ e. no_clash e,
        λ (a, b, r, p, m). no_clash (sym (s.followed a b (all_visited visited s a r) p).0 ∙ m),
      ),
    )
    precedes_from-Answers (suc f) (id ∷ pending) visited s h = elim (Bool-cases (mem id visited)) [
      | inl t ↦
          let onto : precedes_from (suc f) cuts lower (id ∷ pending) visited
              ≡ precedes_from f cuts lower pending visited =
            rw (precedes_from, t) refl in
          subst Answers (sym onto) (
            precedes_from-Answers f pending visited (skip-IsSearch id pending visited t s)
              (omega (arith, h)))
      | inr n ↦
          let (rule, e) = ruled id (s.reached id here) in
          elim (push_orders-cases lower rule.precedes pending) [
            | inl (found, (o, i, m)) ↦
                let onto : precedes_from (suc f) cuts lower (id ∷ pending) visited ≡ answer true =
                  rw (precedes_from, n, e, found) refl in
                (
                  true,
                  onto,
                  (
                    λ u. (id, o.lower_priority_cut, s.reached id here, (rule, o, e, i, refl), m),
                    λ u. refl,
                  ),
                )
            | inr (pushed, found, p) ↦
                let onto : precedes_from (suc f) cuts lower (id ∷ pending) visited
                    ≡ precedes_from f cuts lower pushed (set_insert id visited) =
                  rw (precedes_from, n, e, found) refl in
                subst Answers (sym onto) (
                  precedes_from-Answers f pushed (set_insert id visited)
                    (visit-IsSearch id rule pending pushed visited e p s)
                    (omega (arith, h, p.sized, orders_left-fall id rule cuts visited e n)))
          ]
    ]

    -- If every cut that the set or its orders lead to has a rule, then the search ends with an
    -- answer: whether the orders lead, in one step or more, from a cut of the one set to a cut
    -- of the other.
    pub cut_set_precedes-Answers : Answers (cut_set_precedes cuts higher lower)
    unfolding cut_set_precedes
    cut_set_precedes-Answers =
        precedes_from-Answers (suc (length higher + orders_left cuts [])) (stacked higher []) []
          (record {
            reached =
                λ x i. elim (stacked-In x higher [] i) [ inl j ↦ at_first j | inr j ↦ elim j [ ] ];
            started = λ x i. inr (In-stacked x higher [] (inl i));
            followed = λ v b m p. no_clash m;
          })
          (omega (arith, length-stacked higher []))
