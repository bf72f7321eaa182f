-- ===== src/Units/Components/Search.antt =====
-- One component (src/unit_derivation/evaluate.rs, the inner loop of `graph_components`): what is found is
-- connected to the seed and closed, and the rest of the persons remain.
use axiom_rules_engine.Prelude.{
  ℕ, suc, zero, ◌+◌, ◌≤◌, ◌<◌, ◌≡◌, refl, sym, ◌∙◌, subst, Bool, true, false, ◌||◌, not, ◌&&◌, some,
  List, [], ◌∷◌, ◌++◌, length, length-append, Bool-cases, inl, inr, ◌⊎◌, arith,
}
use axiom_rules_engine.Prelude.Ord.{Str, str_ord}
use axiom_rules_engine.BTree.{Map, Set, mem, key_eq, set_insert}
use axiom_rules_engine.BTree.Laws.{key_eq-eq, key_eq_self, mem-set_insert}
use axiom_rules_engine.Units.Components.{set_remove, neighbours, to_search, search_component}
use axiom_rules_engine.Units.Components.Sets.{
  mem-append, mem-set_remove, length-set_remove, length-set_remove_lt, to_search-fall,
}

module _ (adjacency : Map Str (Set Str)) where
  abbrev pub Linked : Str → Str → Type 0
  Linked u v = mem v (neighbours adjacency u) ≡ true

  -- By links, one after another.
  pub data Joined (u : Str) : Str → Type 0 where
    start : Joined u u
    step : {v w : Str} → Joined u v → Linked v w → Joined u w

  -- Links from the set stay in it.
  abbrev pub IsClosed : Set Str → Type 0
  IsClosed s = (u v : Str) → mem u s ≡ true → Linked u v → mem v s ≡ true

  module _ (whole : Set Str) (seed : Str) where
    pub record IsSearch (remaining component queue : List Str) : Type 0 where
      pub joined : (u : Str) → mem u component ≡ true → Joined seed u
      pub queued : (u : Str) → mem u queue ≡ true → Joined seed u × (mem u whole ≡ true)
      pub parts : (u : Str) → mem u whole ≡ (mem u component || mem u remaining)
      pub apart : (u : Str) → mem u component ≡ true → mem u remaining ≡ false
      pub followed :
          (u v : Str)
          → mem u component ≡ true
          → Linked u v
          → (mem v component ≡ true) ⊎ (mem v queue ≡ true)
      pub seeded : (mem seed component ≡ true) ⊎ (mem seed queue ≡ true)
      pub fewer : length remaining ≤ length whole
      pub taken : mem seed component ≡ true → length remaining < length whole

    -- The component found, and what remains.
    pub record IsFound (component remaining : Set Str) : Type 0 where
      pub joined : (u : Str) → mem u component ≡ true → Joined seed u
      pub parts : (u : Str) → mem u whole ≡ (mem u component || mem u remaining)
      pub apart : (u : Str) → mem u component ≡ true → mem u remaining ≡ false
      pub closed : IsClosed component
      pub seeded : mem seed component ≡ true
      pub fewer : length remaining < length whole

    or-left : (a b : Bool) → a ≡ true → (a || b) ≡ true
    or-left a b h = ground arith

    or-right : (a b : Bool) → b ≡ true → (a || b) ≡ true
    or-right a b h = ground arith

    or-split : (a b : Bool) → (a || b) ≡ true → (a ≡ true) ⊎ (b ≡ true)
    or-split true b h = inl refl
    or-split false b h = inr h

    -- A person met before.
    skip-IsSearch :
        (remaining component : List Str) (person : Str) (queue : List Str)
        → IsSearch remaining component (person ∷ queue)
        → mem person remaining ≡ false
        → IsSearch remaining component queue
    skip-IsSearch remaining component person queue s gone = record {
      joined = s.joined;
      queued = λ u h. s.queued u (or-right (key_eq u person) (mem u queue) h);
      parts = s.parts;
      apart = s.apart;
      followed = λ u v h l. onto v (s.followed u v h l);
      seeded = onto seed s.seeded;
      fewer = s.fewer;
      taken = s.taken;
    }
      where
        known : mem person component ≡ true
        known =
            let within =
              (s.queued person
                (or-left (key_eq person person) (mem person queue) (key_eq_self person))).1 in
            ground (arith, s.parts person)

        onto :
            (v : Str)
            → (mem v component ≡ true) ⊎ (mem v (person ∷ queue) ≡ true)
            → (mem v component ≡ true) ⊎ (mem v queue ≡ true)
        onto v (inl h) = inl h
        onto v (inr h) = elim (or-split (key_eq v person) (mem v queue) h) [
          | inl t ↦ inl (subst (λ x. mem x component ≡ true) (sym (key_eq-eq v person t)) known)
          | inr q ↦ inr q
        ]

    moved_parts :
        (e c r w : Bool) → w ≡ (c || r) → (e ≡ true → w ≡ true) → w ≡ ((e || c) || (not e && r))
    moved_parts true c r w p q = q refl
    moved_parts false c r w p q = p

    moved_apart : (e c r : Bool) → (c ≡ true → r ≡ false) → (e || c) ≡ true → (not e && r) ≡ false
    moved_apart true c r a h = refl
    moved_apart false c r a h = a h

    -- A person met for the first time.
    take-IsSearch :
        (remaining component : List Str) (person : Str) (queue : List Str)
        → IsClosed whole
        → IsSearch remaining component (person ∷ queue)
        → mem person remaining ≡ true
        → IsSearch
            (set_remove person remaining)
            (set_insert person component)
            (queue ++ neighbours adjacency person)
    take-IsSearch remaining component person queue closed s here' = record {
      joined = joined;
      queued = queued;
      parts = λ u.
          rw (mem-set_insert u person component, mem-set_remove u person remaining)
            (moved_parts (key_eq u person) (mem u component) (mem u remaining) (mem u whole)
              (s.parts u)
              (λ t. subst (λ x. mem x whole ≡ true) (sym (key_eq-eq u person t)) met.1));
      apart = λ u h. rw (mem-set_remove u person remaining) (
          moved_apart (key_eq u person) (mem u component) (mem u remaining) (s.apart u)
            (sym (mem-set_insert u person component) ∙ h));
      followed = followed;
      seeded = onto seed s.seeded;
      fewer = omega (arith, s.fewer, length-set_remove person remaining);
      taken = λ h. omega (arith, s.fewer, length-set_remove_lt person remaining here');
    }
      where
        met : Joined seed person × (mem person whole ≡ true)
        met =
            s.queued person (or-left (key_eq person person) (mem person queue) (key_eq_self person))

        inserted : (v : Str) → mem v component ≡ true → mem v (set_insert person component) ≡ true
        inserted v h =
            mem-set_insert v person component ∙ or-right (key_eq v person) (mem v component) h

        itself : (v : Str) → key_eq v person ≡ true → mem v (set_insert person component) ≡ true
        itself v t =
            mem-set_insert v person component ∙ or-left (key_eq v person) (mem v component) t

        onto :
            (v : Str)
            → (mem v component ≡ true) ⊎ (mem v (person ∷ queue) ≡ true)
            → (mem v (set_insert person component) ≡ true)
              ⊎ (mem v (queue ++ neighbours adjacency person) ≡ true)
        onto v (inl h) = inl (inserted v h)
        onto v (inr h) = elim (or-split (key_eq v person) (mem v queue) h) [
          | inl t ↦ inl (itself v t)
          | inr q ↦ inr (
              mem-append v queue (neighbours adjacency person)
              ∙ or-left (mem v queue) (mem v (neighbours adjacency person)) q)
        ]

        joined : (u : Str) → mem u (set_insert person component) ≡ true → Joined seed u
        joined u h =
            elim (or-split (key_eq u person) (mem u component)
              (sym (mem-set_insert u person component) ∙ h)) [
                | inl t ↦ subst (λ x. Joined seed x) (sym (key_eq-eq u person t)) met.0
                | inr c ↦ s.joined u c
              ]

        queued :
            (u : Str)
            → mem u (queue ++ neighbours adjacency person) ≡ true
            → Joined seed u × (mem u whole ≡ true)
        queued u h =
            elim (or-split (mem u queue) (mem u (neighbours adjacency person))
              (sym (mem-append u queue (neighbours adjacency person)) ∙ h)) [
                | inl q ↦ s.queued u (or-right (key_eq u person) (mem u queue) q)
                | inr n ↦ (step met.0 n, closed person u met.1 n)
              ]

        followed :
            (u v : Str)
            → mem u (set_insert person component) ≡ true
            → Linked u v
            → (mem v (set_insert person component) ≡ true)
              ⊎ (mem v (queue ++ neighbours adjacency person) ≡ true)
        followed u v h l =
            elim (or-split (key_eq u person) (mem u component)
              (sym (mem-set_insert u person component) ∙ h)) [
                | inl t ↦ inr (
                    mem-append v queue (neighbours adjacency person)
                    ∙ or-right (mem v queue) (mem v (neighbours adjacency person))
                        (subst (λ x. Linked x v) (key_eq-eq u person t) l))
                | inr c ↦ onto v (s.followed u v c l)
              ]

    end-IsFound :
        (remaining component : List Str)
        → IsSearch remaining component []
        → IsFound component remaining
    end-IsFound remaining component s = record {
      joined = s.joined;
      parts = s.parts;
      apart = s.apart;
      closed = λ u v h l. elim (s.followed u v h l) [ inl c ↦ c | inr q ↦ nothing q ];
      seeded = elim s.seeded [ inl c ↦ c | inr q ↦ nothing q ];
      fewer = s.taken (elim s.seeded [ inl c ↦ c | inr q ↦ nothing q ]);
    }
      where
        nothing : {b : Bool} → false ≡ true → b ≡ true
        nothing h = cc

    -- Within the fuel the search ends, and finds a component.
    pub search_component-IsFound :
        (f : ℕ) (remaining component queue : List Str)
        → IsClosed whole
        → IsSearch remaining component queue
        → length queue + to_search adjacency remaining < f
        → (found : Set Str × Set Str) × (search_component f adjacency remaining component queue
            ≡ some found)
          × IsFound found.0 found.1
    unfolding search_component
    search_component-IsFound zero remaining component queue closed s h = absurd (omega arith)
    search_component-IsFound (suc f) remaining component [] closed s h =
        ((component, remaining), refl, end-IsFound remaining component s)
    search_component-IsFound (suc f) remaining component (person ∷ queue) closed s h =
        elim (Bool-cases (mem person remaining)) [
          | inl t ↦
              let again =
                search_component-IsFound f (set_remove person remaining)
                  (set_insert person component) (queue ++ neighbours adjacency person) closed
                  (take-IsSearch remaining component person queue closed s t)
                  (omega (
                    arith,
                    length-append queue (neighbours adjacency person),
                    to_search-fall adjacency person remaining t,
                  )) in
              (again.0, rw (search_component, t) again.1, again.2)
          | inr n ↦
              let again =
                search_component-IsFound f remaining component queue closed
                  (skip-IsSearch remaining component person queue s n) (omega arith) in
              (again.0, rw (search_component, n) again.1, again.2)
        ]
