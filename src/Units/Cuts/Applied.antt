-- ===== src/Units/Cuts/Applied.antt =====
-- Which cuts are applied (src/unit_derivation/evaluate.rs, `evaluate_world`): those that no combination edge
-- blocks.
use axiom_rules_engine.Prelude.{
  ◌≡◌, ◌↔◌, refl, sym, ◌∙◌, ap, subst, Bool, true, false, ◌||◌, Option, none, some, List, [], ◌∷◌,
  In, here, there, In-cons, Bool-cases, inl, inr, ◌⊎◌, arith, if◌then◌else◌,
}
use axiom_rules_engine.Prelude.Ord.{Str, str_ord}
use axiom_rules_engine.BTree.{Map, Set, lookup}
use axiom_rules_engine.Units.Types.{
  CutRule, CutEdgePrecedence, CutEdgeDecision, blocked, overrides, unresolved,
}
use axiom_rules_engine.Units.Keys.{legal_precedence_key}
use axiom_rules_engine.Units.Components.{FrozenEdge}
use axiom_rules_engine.Units.Division.{ActiveCut}
use axiom_rules_engine.Units.Components.Separate.{Separate}
use axiom_rules_engine.Units.Division.Held.{
  Held, Held-there, Held-cons, All-Disjoint, Disjoint-Held,
}
use axiom_rules_engine.Units.Division.Cuts.{members_of}
use axiom_rules_engine.Units.Cuts.{
  crosses, find_precedence, opposite, decision_blocks, edge_blocks, rule_blocks, id_blocks, either,
  ids_block, is_blocked, all_ruled, with_rules, add_applied, apply_cuts,
}

-- The answer is given, and is whether the statement holds.
abbrev pub Decides : Type 0 → Option Bool → Type 0
Decides P o = (b : Bool) × (o ≡ some b) × ((b ≡ true) ↔ P)

Decides-same : {P Q : Type 0} (o : Option Bool) → (P → Q) → (Q → P) → Decides P o → Decides Q o
Decides-same o f g (b, e, h) = (b, e, (λ t. f (h.0 t), λ q. h.1 (g q)))

Decides-either :
    {P Q : Type 0} (a b : Option Bool) → Decides P a → Decides Q b → Decides (P ⊎ Q) (either a b)
Decides-either {P} {Q} a b (x, e, h) (y, d, k) = (x || y, rw (e, d) refl, (from, to))
  where
    from : (x || y) ≡ true → P ⊎ Q
    from t = elim (Bool-cases x) [
      | inl s ↦ inl (h.0 s)
      | inr n ↦ inr (k.0 (subst (λ (v : Bool). (v || y) ≡ true) n t))
    ]

    to : P ⊎ Q → (x || y) ≡ true
    to (inl p) = rw (h.1 p) refl
    to (inr q) = rw (k.1 q) (right x)
      where
        right : (v : Bool) → (v || true) ≡ true
        right v = ground arith

-- One of the list has the property.
abbrev pub Any : {A : Type 0} → (A → Type 0) → List A → Type 0
Any {A} P l = (a : A) × In a l × P a

Any-from : {A : Type 0} (P : A → Type 0) (a : A) (l : List A) → P a ⊎ Any P l → Any P (a ∷ l)
Any-from P a l (inl p) = (a, here, p)
Any-from P a l (inr (b, i, p)) = (b, there i, p)

Any-to : {A : Type 0} (P : A → Type 0) (a : A) (l : List A) → Any P (a ∷ l) → P a ⊎ Any P l
Any-to P a l (b, i, p) = elim (In-cons b a l i) [
  | inl same ↦ inl (subst P same p)
  | inr j ↦ inr (b, j, p)
]

no_clash : {P : Type 0} → false ≡ true → P
no_clash e = absurd (cc)

Decides-none : {A : Type 0} (P : A → Type 0) → Decides (Any P []) (some false)
Decides-none P = (false, refl, (λ e. no_clash e, λ (a, i, p). elim i [ ]))

-- A decision blocks the cut: always, never, or where the world says no.
abbrev pub DecisionBlocks : Option Bool → CutEdgeDecision → Type 0
DecisionBlocks value (blocked citation) = Unit
DecisionBlocks value (overrides citation) = ⊥
DecisionBlocks value (unresolved issue) = value ≡ some false

abbrev pub DecisionSettled : Option Bool → CutEdgeDecision → Type 0
DecisionSettled value (blocked citation) = Unit
DecisionSettled value (overrides citation) = Unit
DecisionSettled value (unresolved issue) = (b : Bool) × (value ≡ some b)

decision-Decides :
    (value : Option Bool) (d : CutEdgeDecision)
    → DecisionSettled value d
    → Decides (DecisionBlocks value d) (decision_blocks value d)
decision-Decides value (blocked citation) s = (true, refl, (λ e. tt, λ u. refl))
decision-Decides value (overrides citation) s = (false, refl, (λ e. no_clash e, λ u. absurd u))
decision-Decides value (unresolved issue) (true, e) =
    (false, ap opposite e, (λ h. no_clash h, λ u. no_clash (some-eq (sym u ∙ e))))
  where
    some-eq : some false ≡ some true → false ≡ true
    some-eq h = cc
decision-Decides value (unresolved issue) (false, e) = (true, ap opposite e, (λ h. e, λ u. refl))

module _ (rules : Map Str CutRule) (valuation : Map Str Bool) where
  -- The precedence of a cut over an edge blocks the cut in this world.
  abbrev pub Blocks : Str → CutEdgePrecedence → Type 0
  Blocks cut p = DecisionBlocks (lookup (legal_precedence_key cut p.edge_rule) valuation) p.decision

  -- The world says which way an unresolved precedence goes.
  abbrev pub IsSettled : Str → CutEdgePrecedence → Type 0
  IsSettled cut p =
      DecisionSettled (lookup (legal_precedence_key cut p.edge_rule) valuation) p.decision

  -- The rule of the cut has a precedence for the edge, which blocks it.
  abbrev pub IdBlocks : Str → Str → Type 0
  IdBlocks edge id =
      (rule : CutRule) × (p : CutEdgePrecedence) × (lookup id rules ≡ some rule)
      × (find_precedence edge rule.edge_precedence ≡ some p)
      × Blocks rule.id p

  abbrev pub IsReady : Str → Str → Type 0
  IsReady edge id =
      (rule : CutRule) × (p : CutEdgePrecedence) × (lookup id rules ≡ some rule)
      × (find_precedence edge rule.edge_precedence ≡ some p)
      × IsSettled rule.id p

  edge_blocks-Decides :
      (cut : Str) (p : CutEdgePrecedence)
      → IsSettled cut p
      → Decides (Blocks cut p) (edge_blocks valuation cut p)
  edge_blocks-Decides cut p s =
      decision-Decides (lookup (legal_precedence_key cut p.edge_rule) valuation) p.decision s

  id_blocks-Decides :
      (edge id : Str)
      → IsReady edge id
      → Decides (IdBlocks edge id) (id_blocks rules valuation edge id)
  id_blocks-Decides edge id (rule, p, e, d, s) =
      let read : id_blocks rules valuation edge id ≡ edge_blocks valuation rule.id p =
        rw (id_blocks, e, rule_blocks, d) refl in
      subst (λ o. Decides (IdBlocks edge id) o) (sym read)
        (Decides-same (edge_blocks valuation rule.id p) (λ b. (rule, p, e, d, b)) back
          (edge_blocks-Decides rule.id p s))
    where
      back : IdBlocks edge id → Blocks rule.id p
      back (rule', p', e', d', b) =
          let rules_same : rule' ≡ rule = some-eq rule' rule (sym e' ∙ e) in
          let onto : find_precedence edge rule.edge_precedence ≡ some p' =
            subst (λ (r : CutRule). find_precedence edge r.edge_precedence ≡ some p') rules_same
              d' in
          let same : p' ≡ p = some-eq p' p (sym onto ∙ d) in
          subst (λ q. Blocks rule.id q) same (subst (λ (r : CutRule). Blocks r.id p') rules_same b)
        where
          some-eq : {A : Type 0} (x y : A) → some x ≡ some y → x ≡ y
          some-eq x y h = cc

  ids_block-Decides :
      (edge : Str) (ids : Set Str)
      → ((id : Str) → In id ids → IsReady edge id)
      → Decides (Any (IdBlocks edge) ids) (ids_block rules valuation edge ids)
  ids_block-Decides edge [] h = Decides-none (IdBlocks edge)
  ids_block-Decides edge (id ∷ ids) h =
      Decides-same (ids_block rules valuation edge (id ∷ ids)) (Any-from (IdBlocks edge) id ids)
        (Any-to (IdBlocks edge) id ids)
        (Decides-either (id_blocks rules valuation edge id) (ids_block rules valuation edge ids)
          (id_blocks-Decides edge id (h id here))
          (ids_block-Decides edge ids (λ i j. h i (there j))))

  -- A combination edge that crosses the cut blocks it.
  abbrev pub EdgeBlocks : ActiveCut → FrozenEdge → Type 0
  EdgeBlocks cut edge = (crosses cut edge ≡ true) × Any (IdBlocks edge.id) cut.ids

  -- Every combination edge that crosses the cut has its precedence.
  abbrev pub EdgesReady : List FrozenEdge → ActiveCut → Type 0
  EdgesReady frozen cut =
      (edge : FrozenEdge)
      → In edge frozen
      → crosses cut edge ≡ true
      → (id : Str) → In id cut.ids
      → IsReady edge.id id

  -- And the cut has its rules.
  abbrev pub CutReady : List FrozenEdge → ActiveCut → Type 0
  CutReady frozen cut = (all_ruled rules cut.ids ≡ true) × EdgesReady frozen cut

  edge-Decides :
      (cut : ActiveCut) (edge : FrozenEdge)
      → (crosses cut edge ≡ true → (id : Str) → In id cut.ids → IsReady edge.id id)
      → Decides
          (EdgeBlocks cut edge)
          (if crosses cut edge then ids_block rules valuation edge.id cut.ids else some false)
  edge-Decides cut edge h = elim (Bool-cases (crosses cut edge)) [
    | inl t ↦
        subst
          (λ (x : Bool).
            Decides (EdgeBlocks cut edge)
              (if x then ids_block rules valuation edge.id cut.ids else some false))
          (sym t)
          (Decides-same (ids_block rules valuation edge.id cut.ids) (λ a. (t, a)) (λ a. a.1)
            (ids_block-Decides edge.id cut.ids (h t)))
    | inr f ↦
        subst
          (λ (x : Bool).
            Decides (EdgeBlocks cut edge)
              (if x then ids_block rules valuation edge.id cut.ids else some false))
          (sym f) (false, refl, (λ e. no_clash e, λ a. no_clash (sym (sym a.0 ∙ f))))
  ]

  is_blocked-Decides :
      (cut : ActiveCut) (frozen : List FrozenEdge)
      → EdgesReady frozen cut
      → Decides (Any (EdgeBlocks cut) frozen) (is_blocked rules valuation cut frozen)
  is_blocked-Decides cut [] h = Decides-none (EdgeBlocks cut)
  is_blocked-Decides cut (edge ∷ frozen) h =
      Decides-same (is_blocked rules valuation cut (edge ∷ frozen))
        (Any-from (EdgeBlocks cut) edge frozen) (Any-to (EdgeBlocks cut) edge frozen)
        (Decides-either
          (if crosses cut edge then ids_block rules valuation edge.id cut.ids else some false)
          (is_blocked rules valuation cut frozen) (edge-Decides cut edge (h edge here))
          (is_blocked-Decides cut frozen (λ e i. h e (there i))))

  abbrev answer : ActiveCut → List FrozenEdge → Option Bool
  answer cut frozen = with_rules (all_ruled rules cut.ids) (is_blocked rules valuation cut frozen)

  answer-Decides :
      (cut : ActiveCut) (frozen : List FrozenEdge)
      → CutReady frozen cut
      → Decides (Any (EdgeBlocks cut) frozen) (answer cut frozen)
  answer-Decides cut frozen h = by_value (is_blocked-Decides cut frozen h.1)
    where
      by_value :
          Decides (Any (EdgeBlocks cut) frozen) (is_blocked rules valuation cut frozen)
          → Decides
              (Any (EdgeBlocks cut) frozen)
              (with_rules (all_ruled rules cut.ids) (is_blocked rules valuation cut frozen))
      by_value (true, e, d) = (true, ap (with_rules (all_ruled rules cut.ids)) e, d)
      by_value (false, e, d) = (false, ap (with_rules (all_ruled rules cut.ids)) e ∙ rw h.0 refl, d)

  -- If every cut has its rules, and every combination edge that crosses a cut has its precedence
  -- and, where that is unresolved, a side in the world, then the cuts applied are found: they are
  -- exactly the cuts that no combination edge blocks.
  pub apply_cuts-Applies :
      (frozen : List FrozenEdge) (cuts : List ActiveCut)
      → ((cut : ActiveCut) → In cut cuts → CutReady frozen cut)
      → (applied : List ActiveCut) × (apply_cuts rules valuation frozen cuts ≡ some applied)
        × ((cut : ActiveCut) → In cut applied ↔ (In cut cuts × (Any (EdgeBlocks cut) frozen → ⊥)))
  unfolding apply_cuts
  apply_cuts-Applies frozen [] h = ([], refl, λ cut. (λ i. elim i [ ], λ (i, n). elim i [ ]))
  apply_cuts-Applies frozen (cut ∷ cuts) h =
      let (applied, found, same) = apply_cuts-Applies frozen cuts (λ c i. h c (there i)) in
      by_answer applied found same (answer-Decides cut frozen (h cut here))
    where
      by_answer :
          (applied : List ActiveCut)
          → apply_cuts rules valuation frozen cuts ≡ some applied
          → ((c : ActiveCut) → In c applied ↔ (In c cuts × (Any (EdgeBlocks c) frozen → ⊥)))
          → Decides (Any (EdgeBlocks cut) frozen) (answer cut frozen)
          → (all : List ActiveCut) × (add_applied cut
                (answer cut frozen)
                (apply_cuts rules valuation frozen cuts)
              ≡ some all)
            × ((c : ActiveCut) → In c all ↔ (In c (cut ∷ cuts) × (Any (EdgeBlocks c) frozen → ⊥)))
      by_answer applied found same (true, e, d) = (
        applied,
        ap (λ o. add_applied cut o (apply_cuts rules valuation frozen cuts)) e ∙ found,
        λ c. (
          λ i. let (j, n) = (same c).0 i in (there j, n),
          λ (i, n). elim (In-cons c cut cuts i) [
            | inl here' ↦ absurd (subst (λ x. Any (EdgeBlocks x) frozen → ⊥) here' n (d.0 refl))
            | inr j ↦ (same c).1 (j, n)
          ],
        ),
      )
      by_answer applied found same (false, e, d) = (
        cut ∷ applied,
        ap (λ o. add_applied cut o (apply_cuts rules valuation frozen cuts)) e
            ∙ ap (add_applied cut (some false)) found,
        λ c. (
          λ i. elim (In-cons c cut applied i) [
            | inl here' ↦ (
              subst (λ x. In x (cut ∷ cuts)) (sym here') here,
              subst (λ x. Any (EdgeBlocks x) frozen → ⊥) (sym here') (λ a. no_clash (d.1 a)),
            )
            | inr j ↦ let (k, n) = (same c).0 j in (there k, n)
          ],
          λ (i, n). elim (In-cons c cut cuts i) [
            | inl here' ↦ subst (λ x. In x (cut ∷ applied)) (sym here') here
            | inr j ↦ there ((same c).1 (j, n))
          ],
        ),
      )

  -- What is applied keeps the cuts apart.
  pub apply_cuts-apart :
      (frozen : List FrozenEdge) (cuts applied : List ActiveCut)
      → apply_cuts rules valuation frozen cuts ≡ some applied
      → Separate (members_of cuts)
      → Separate (members_of applied)
        × ((u : Str) → Held u (members_of applied) → Held u (members_of cuts))
  unfolding apply_cuts
  apply_cuts-apart frozen [] applied e s =
      let none' : [] ≡ applied = some-eq [] applied e in
      (
        subst (λ l. Separate (members_of l)) none' tt,
        subst (λ l. (u : Str) → Held u (members_of l) → Held u []) none' (λ u h. h),
      )
    where
      some-eq : (x y : List ActiveCut) → some x ≡ some y → x ≡ y
      some-eq x y h = cc
  apply_cuts-apart frozen (cut ∷ cuts) applied e s =
      by_answer (answer cut frozen) (apply_cuts rules valuation frozen cuts)
        (λ later e'. apply_cuts-apart frozen cuts later e' s.1) e
    where
      some-eq : (x y : List ActiveCut) → some x ≡ some y → x ≡ y
      some-eq x y h = cc

      by_answer :
          (o : Option Bool) (r : Option (List ActiveCut))
          → ((later : List ActiveCut)
              → r ≡ some later
              → Separate (members_of later)
                × ((u : Str) → Held u (members_of later) → Held u (members_of cuts)))
          → add_applied cut o r ≡ some applied
          → Separate (members_of applied)
            × ((u : Str) → Held u (members_of applied) → Held u (members_of (cut ∷ cuts)))
      by_answer none r h a = cc
      by_answer (some true) r h a =
          let (apart, within) = h applied a in
          (apart, λ u i. Held-there u cut.members (members_of cuts) (within u i))
      by_answer (some false) none h a = cc
      by_answer (some false) (some later) h a =
          let (apart, within) = h later refl in
          subst
            (λ l.
              Separate (members_of l)
              × ((u : Str) → Held u (members_of l) → Held u (members_of (cut ∷ cuts))))
            (some-eq (cut ∷ later) applied a)
            (
              (
                All-Disjoint cut.members (members_of later)
                    (λ u m i. Disjoint-Held u cut.members (members_of cuts) s.0 m (within u i)),
                apart,
              ),
              λ u i. elim (Held-cons u cut.members (members_of later) i) [
                | inl m ↦ (cut.members, here, m)
                | inr j ↦ Held-there u cut.members (members_of cuts) (within u j)
              ],
            )
