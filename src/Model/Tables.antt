-- ===== src/Model/Tables.antt =====
-- The tables of a program (src/model.rs, `Program`), one name space each, as functions of the name.
use axiom_rules_engine.Prelude.{
  ◌≡◌, refl, sym, ◌∙◌, true, false, Option, none, some, if◌then◌else◌, Bool-cases, Option-cases,
  inl, inr,
}
use axiom_rules_engine.Prelude.Ord.{Str, str_ord}
use axiom_rules_engine.Prelude.Text.{codes}
use axiom_rules_engine.BTree.{key_eq}
use axiom_rules_engine.BTree.Laws.{key_eq-eq}
use axiom_rules_engine.Model.Platform.{Platform}
use axiom_rules_engine.Model.Versions.{IndexedParameter}

module _ {ℓ} (T : Type ℓ) where
  -- `HashMap<String, T>`
  abbrev pub Table : Type ℓ
  Table = Str → Option T

  -- The table after an insertion, or a `NamespaceCollisionError`.
  pub data Inserted : Type ℓ where
    inserted : (Str → Option T) → Inserted
    collision : (namespace name : Str) → Inserted

module _ {ℓ} {T : Type ℓ} where
  abbrev pub updated : Table T → Str → T → Table T
  updated values name value k = if key_eq k name then some value else values k

  unfoldable pub insert_unique : Str → Table T → Str → T → Inserted T
  insert_unique namespace values name value = elim (values name) [
    | none ↦ inserted (updated values name value)
    | some _ ↦ collision namespace name
  ]

  -- What stays of the table: every name it had keeps its value, and the new name has the new one.
  abbrev pub IsExtended : Table T → Str → T → Inserted T → Type ℓ
  IsExtended values name value (inserted after) =
      ((k : Str) (v : T) → values k ≡ some v → after k ≡ some v)
      × (values name ≡ none)
      × ((k : Str) → key_eq k name ≡ false → after k ≡ values k)
      × ((k : Str) → key_eq k name ≡ true → after k ≡ some value)
  IsExtended values name value (collision namespace taken) =
      (taken ≡ name) × ((v : T) × (values name ≡ some v))

  updated-keeps :
      (values : Table T) (name : Str) (value : T) (k : Str) (v : T)
      → values name ≡ none
      → values k ≡ some v
      → updated values name value k ≡ some v
  updated-keeps values name value k v fresh e = elim (Bool-cases (key_eq k name)) [
    | inr other ↦ rw (updated, other) e
    | inl same ↦
        let here : k ≡ name = key_eq-eq k name same in
        let clash : values name ≡ some v = rw (← here) e in
        let wrong : none ≡ some v = sym fresh ∙ clash in cc
  ]

  insert_fresh :
      (namespace : Str) (values : Table T) (name : Str) (value : T)
      → values name ≡ none
      → insert_unique namespace values name value ≡ inserted (updated values name value)
  unfolding insert_unique
  insert_fresh namespace values name value h = rw (insert_unique, h) refl

  insert_taken :
      (namespace : Str) (values : Table T) (name : Str) (value v : T)
      → values name ≡ some v
      → insert_unique namespace values name value ≡ collision namespace name
  unfolding insert_unique
  insert_taken namespace values name value v h = rw (insert_unique, h) refl

  -- An insertion gives a table in which the new name, absent before, has the new value and every
  -- other name what it had, or reports a collision on that name, which the table had.
  pub insert_unique-IsExtended :
      (namespace : Str) (values : Table T) (name : Str) (value : T)
      → IsExtended values name value (insert_unique namespace values name value)
  insert_unique-IsExtended namespace values name value = elim (Option-cases (values name)) [
    | inl fresh ↦ rw (insert_fresh namespace values name value fresh) (
      λ k v. updated-keeps values name value k v fresh,
      fresh,
      λ k h. rw (updated, h),
      λ k h. rw (updated, h),
    )
    | inr (v, taken) ↦ rw (insert_taken namespace values name value v taken) (refl, (v, taken))
  ]

module _ ⦃p : Platform⦄ where
  unfoldable pub add_parameter :
      Table IndexedParameter → IndexedParameter → Inserted IndexedParameter
  add_parameter parameters parameter =
      insert_unique (codes "parameter") parameters parameter.name parameter
