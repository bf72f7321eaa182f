-- ===== src/Units/Components/Links.antt =====
-- Links are edges (src/unit_derivation/evaluate.rs, the adjacency of `graph_components`).
use axiom_rules_engine.Prelude.{
  ◌≡◌, refl, sym, ◌∙◌, ap, subst, Bool, true, false, ◌||◌, ◌&&◌, List, [], ◌∷◌, map, In, here,
  there, In-cons, Bool-cases, inl, inr, ◌⊎◌, if◌then◌else◌, arith,
}
use axiom_rules_engine.Prelude.Ord.{Str, str_ord}
use axiom_rules_engine.BTree.{Map, Set, mem, key_eq, lookup, set_insert}
use axiom_rules_engine.BTree.Laws.{key_eq-eq, key_eq_self, mem-set_insert}
use axiom_rules_engine.Units.Components.{FrozenEdge, neighbours, link, add_edge, add_edges}
use axiom_rules_engine.Units.Components.Search.{Linked}

-- A person has an entry.
abbrev pub has_entry : Map Str (Set Str) → Str → Bool
has_entry [] u = false
has_entry ((k, values) ∷ rest) u = key_eq u k || has_entry rest u

module _ (k u : Str) (values : Set Str) (m : Map Str (Set Str)) where
  neighbours_here : key_eq u k ≡ true → neighbours ((k, values) ∷ m) u ≡ values
  unfolding lookup
  neighbours_here e = rw (neighbours, e) refl

  neighbours_later : key_eq u k ≡ false → neighbours ((k, values) ∷ m) u ≡ neighbours m u
  unfolding lookup
  neighbours_later e = rw (neighbours, e) refl

mem-linked :
    (value v : Str) (values : Set Str) (b : Bool)
    → mem v (if b then set_insert value values else values)
      ≡ (mem v values || (b && key_eq v value))
mem-linked value v values true =
    mem-set_insert v value values ∙ or_comm (key_eq v value) (mem v values)
  where
    or_comm : (a b : Bool) → (a || b) ≡ (b || a)
    or_comm a b = ground arith
mem-linked value v values false = or_false (mem v values)
  where
    or_false : (a : Bool) → a ≡ (a || false)
    or_false a = ground arith

-- A link is added to the entry of a person, if there is one.
mem-link :
    (key value : Str) (m : Map Str (Set Str)) (u v : Str)
    → mem v (neighbours (link key value m) u)
      ≡ (mem v (neighbours m u) || ((key_eq key u && has_entry m u) && key_eq v value))
unfolding link lookup
mem-link key value [] u v = ground arith
mem-link key value ((k, values) ∷ rest) u v = elim (Bool-cases (key_eq u k)) [
  | inl t ↦
      rw
        (
          neighbours_here k u (if key_eq key k then set_insert value values else values)
              (link key value rest) t,
          neighbours_here k u values rest t,
          t,
        )
        (mem-linked value v values (key_eq key k)
          ∙ subst
              (λ x.
                (mem v values || (key_eq key k && key_eq v value))
                ≡ (mem v values || ((key_eq key x && true) && key_eq v value)))
              (sym (key_eq-eq u k t)) (unit (mem v values) (key_eq key k) (key_eq v value)))
  | inr f ↦
      rw
        (
          neighbours_later k u (if key_eq key k then set_insert value values else values)
              (link key value rest) f,
          neighbours_later k u values rest f,
          f,
        )
        (mem-link key value rest u v)
]
  where
    unit : (a b c : Bool) → (a || (b && c)) ≡ (a || ((b && true) && c))
    unit a b c = ground arith

has_entry-link :
    (key value : Str) (m : Map Str (Set Str)) (u : Str)
    → has_entry (link key value m) u ≡ has_entry m u
unfolding link
has_entry-link key value [] u = refl
has_entry-link key value ((k, values) ∷ rest) u =
    ap (λ (b : Bool). key_eq u k || b) (has_entry-link key value rest u)

or-split : (a b : Bool) → (a || b) ≡ true → (a ≡ true) ⊎ (b ≡ true)
or-split true b h = inl refl
or-split false b h = inr h

or-left : (a b : Bool) → a ≡ true → (a || b) ≡ true
or-left a b h = ground arith

or-right : (a b : Bool) → b ≡ true → (a || b) ≡ true
or-right a b h = ground arith

both : (a b : Bool) → (a && b) ≡ true → (a ≡ true) × (b ≡ true)
both a b h = ground arith

and_true : (a b : Bool) → a ≡ true → b ≡ true → (a && b) ≡ true
and_true a b h k = ground arith

-- The edge joins the two persons, in one direction or the other.
abbrev pub Meets : FrozenEdge → Str → Str → Type 0
Meets edge u v = ((edge.left ≡ u) × (edge.right ≡ v)) ⊎ ((edge.left ≡ v) × (edge.right ≡ u))

-- An edge between two of the vertices.
abbrev pub EdgeBetween : Set Str → List FrozenEdge → Str → Str → Type 0
EdgeBetween vertices edges u v =
    (edge : FrozenEdge) × In edge edges
    × (mem u vertices ≡ true)
    × (mem v vertices ≡ true)
    × Meets edge u v

module _ (vertices : Set Str) where
  abbrev pub HasEntries : Map Str (Set Str) → Type 0
  HasEntries m = (u : Str) → has_entry m u ≡ mem u vertices

  add_edge-HasEntries :
      (edge : FrozenEdge) (m : Map Str (Set Str))
      → HasEntries m
      → HasEntries (add_edge vertices edge m)
  add_edge-HasEntries edge m h u =
      elim (Bool-cases (mem edge.left vertices && mem edge.right vertices)) [
        | inl t ↦ rw t (
            has_entry-link edge.right edge.left (link edge.left edge.right m) u
            ∙ has_entry-link edge.left edge.right m u
            ∙ h u)
        | inr f ↦ rw f (h u)
      ]

  -- What the two links of an edge add.
  mem-add_edge :
      (edge : FrozenEdge) (m : Map Str (Set Str)) (u v : Str)
      → HasEntries m
      → (mem edge.left vertices && mem edge.right vertices) ≡ true
      → mem v (neighbours (add_edge vertices edge m) u) ≡ (
          (mem v (neighbours m u)
            || ((key_eq edge.left u && mem u vertices) && key_eq v edge.right))
          || ((key_eq edge.right u && mem u vertices) && key_eq v edge.left))
  mem-add_edge edge m u v h t =
      rw
        (
          t,
          mem-link edge.right edge.left (link edge.left edge.right m) u v,
          mem-link edge.left edge.right m u v,
          has_entry-link edge.left edge.right m u,
          h u,
        )
        refl

  added-edge :
      (edge : FrozenEdge) (m : Map Str (Set Str)) (u v : Str)
      → HasEntries m
      → Linked (add_edge vertices edge m) u v
      → Linked m u v ⊎ ((mem u vertices ≡ true) × (mem v vertices ≡ true) × Meets edge u v)
  added-edge edge m u v h l =
      elim (Bool-cases (mem edge.left vertices && mem edge.right vertices)) [
        | inl t ↦ elim (or-split _ _ (sym (mem-add_edge edge m u v h t) ∙ l)) [
          | inl first ↦ elim (or-split _ _ first) [
            | inl old ↦ inl old
            | inr new ↦ inr (forward new (both _ _ t))
          ]
          | inr new ↦ inr (backward new (both _ _ t))
        ]
        | inr f ↦ inl (
            subst
              (λ (b : Bool).
                mem v (
                  neighbours
                    (if b then link edge.right edge.left (link edge.left edge.right m) else m) u)
                ≡ true)
              f l)
      ]
    where
      forward :
          ((key_eq edge.left u && mem u vertices) && key_eq v edge.right) ≡ true
          → (mem edge.left vertices ≡ true) × (mem edge.right vertices ≡ true)
          → (mem u vertices ≡ true) × (mem v vertices ≡ true) × Meets edge u v
      forward new ends =
          let (from', onto) =
            both (key_eq edge.left u && mem u vertices) (key_eq v edge.right) new in
          let (left, within) = both (key_eq edge.left u) (mem u vertices) from' in
          let at_v = sym (key_eq-eq v edge.right onto) in
          (
            within,
            subst (λ x. mem x vertices ≡ true) at_v ends.1,
            inl (key_eq-eq edge.left u left, at_v),
          )

      backward :
          ((key_eq edge.right u && mem u vertices) && key_eq v edge.left) ≡ true
          → (mem edge.left vertices ≡ true) × (mem edge.right vertices ≡ true)
          → (mem u vertices ≡ true) × (mem v vertices ≡ true) × Meets edge u v
      backward new ends =
          let (from', onto) =
            both (key_eq edge.right u && mem u vertices) (key_eq v edge.left) new in
          let (right, within) = both (key_eq edge.right u) (mem u vertices) from' in
          let at_v = sym (key_eq-eq v edge.left onto) in
          (
            within,
            subst (λ x. mem x vertices ≡ true) at_v ends.0,
            inr (at_v, key_eq-eq edge.right u right),
          )

  kept-link :
      (edge : FrozenEdge) (m : Map Str (Set Str)) (u v : Str)
      → HasEntries m
      → Linked m u v
      → Linked (add_edge vertices edge m) u v
  kept-link edge m u v h l = elim (Bool-cases (mem edge.left vertices && mem edge.right vertices)) [
    | inl t ↦ mem-add_edge edge m u v h t ∙ or-left _ _ (or-left (mem v (neighbours m u)) _ l)
    | inr f ↦ rw f l
  ]

  edge-link :
      (edge : FrozenEdge) (m : Map Str (Set Str)) (u v : Str)
      → HasEntries m
      → mem u vertices ≡ true
      → mem v vertices ≡ true
      → Meets edge u v
      → Linked (add_edge vertices edge m) u v
  edge-link edge m u v h hu hv (inl (left, right)) =
      let hl : mem edge.left vertices ≡ true = subst (λ x. mem x vertices ≡ true) (sym left) hu in
      let hr : mem edge.right vertices ≡ true = subst (λ x. mem x vertices ≡ true) (sym right) hv in
      let k : key_eq edge.left u ≡ true =
        subst (λ x. key_eq edge.left x ≡ true) left (key_eq_self edge.left) in
      let k' : key_eq v edge.right ≡ true =
        subst (λ x. key_eq x edge.right ≡ true) right (key_eq_self edge.right) in
      mem-add_edge edge m u v h (and_true _ _ hl hr)
      ∙ or-left _ _ (or-right (mem v (neighbours m u)) _ (and_true _ _ (and_true _ _ k hu) k'))
  edge-link edge m u v h hu hv (inr (left, right)) =
      let hl : mem edge.left vertices ≡ true = subst (λ x. mem x vertices ≡ true) (sym left) hv in
      let hr : mem edge.right vertices ≡ true = subst (λ x. mem x vertices ≡ true) (sym right) hu in
      let k : key_eq edge.right u ≡ true =
        subst (λ x. key_eq edge.right x ≡ true) right (key_eq_self edge.right) in
      let k' : key_eq v edge.left ≡ true =
        subst (λ x. key_eq x edge.left ≡ true) left (key_eq_self edge.left) in
      mem-add_edge edge m u v h (and_true _ _ hl hr)
      ∙ or-right _ _ (and_true _ _ (and_true _ _ k hu) k')

  pub add_edges-EdgeBetween :
      (edges : List FrozenEdge) (m : Map Str (Set Str)) (u v : Str)
      → HasEntries m
      → Linked (add_edges vertices edges m) u v
      → Linked m u v ⊎ EdgeBetween vertices edges u v
  unfolding add_edges
  add_edges-EdgeBetween [] m u v h l = inl l
  add_edges-EdgeBetween (edge ∷ edges) m u v h l =
      elim (add_edges-EdgeBetween edges (add_edge vertices edge m) u v
        (add_edge-HasEntries edge m h) l) [
          | inl earlier ↦ elim (added-edge edge m u v h earlier) [
            | inl old ↦ inl old
            | inr (hu, hv, meets) ↦ inr (edge, here, hu, hv, meets)
          ]
          | inr (e, i, hu, hv, meets) ↦ inr (e, there i, hu, hv, meets)
        ]

  add_edges-kept :
      (edges : List FrozenEdge) (m : Map Str (Set Str)) (u v : Str)
      → HasEntries m
      → Linked m u v
      → Linked (add_edges vertices edges m) u v
  unfolding add_edges
  add_edges-kept [] m u v h l = l
  add_edges-kept (edge ∷ edges) m u v h l =
      add_edges-kept edges (add_edge vertices edge m) u v (add_edge-HasEntries edge m h)
        (kept-link edge m u v h l)

  pub EdgeBetween-add_edges :
      (edges : List FrozenEdge) (m : Map Str (Set Str)) (u v : Str)
      → HasEntries m
      → EdgeBetween vertices edges u v
      → Linked (add_edges vertices edges m) u v
  unfolding add_edges
  EdgeBetween-add_edges [] m u v h (e, i, hu, hv, meets) = elim i [ ]
  EdgeBetween-add_edges (edge ∷ edges) m u v h (e, i, hu, hv, meets) =
      elim (In-cons e edge edges i) [
        | inl same ↦
            add_edges-kept edges (add_edge vertices edge m) u v (add_edge-HasEntries edge m h)
              (edge-link edge m u v h hu hv (subst (λ x. Meets x u v) same meets))
        | inr j ↦
            EdgeBetween-add_edges edges (add_edge vertices edge m) u v
              (add_edge-HasEntries edge m h) (e, j, hu, hv, meets)
      ]

pub alone-HasEntries :
    (vertices : Set Str) (u : Str)
    → has_entry (map (λ person. (person, [])) vertices) u ≡ mem u vertices
alone-HasEntries [] u = refl
alone-HasEntries (p ∷ vertices) u = ap (λ (b : Bool). key_eq u p || b) (alone-HasEntries vertices u)

pub alone-unlinked :
    (vertices : Set Str) (u v : Str) → Linked (map (λ person. (person, [])) vertices) u v → ⊥
unfolding lookup
alone-unlinked [] u v h = cc
alone-unlinked (p ∷ vertices) u v h = elim (Bool-cases (key_eq u p)) [
  | inl t ↦
      let clash : false ≡ true =
        subst (λ s. mem v s ≡ true)
          (neighbours_here p u [] (map (λ person. (person, [])) vertices) t) h in
      cc
  | inr f ↦ alone-unlinked vertices u v (
      subst (λ s. mem v s ≡ true)
        (neighbours_later p u [] (map (λ person. (person, [])) vertices) f) h)
]
