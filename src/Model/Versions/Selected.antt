-- ===== src/Model/Versions/Selected.antt =====
-- Which version `version_at` selects: the one in force with the latest start, and of those that
-- start together the last in document order.
use axiom_rules_engine.Prelude.{
  ℕ, suc, ◌≤◌, ◌<◌, ◌≡◌, refl, sym, ◌∙◌, true, false, Option, none, some, List, [], ◌∷◌, arith,
  Bool-cases, inl, inr, ◌⊎◌, ap,
}
use axiom_rules_engine.Model.Platform.{Platform, date_lt, not-lt_trans}
use axiom_rules_engine.Model.Versions.{
  ParameterVersion, IndexedParameter, applies_at, newer, select_from, version_at,
}

module _ ⦃p : Platform⦄ where
  open p use {NaiveDate, date_ord}

  -- `a` has precedence over `b`: it starts later, or at the same time and stands no earlier.
  abbrev pub AtLeast : ℕ × ParameterVersion → ℕ × ParameterVersion → Type 0
  AtLeast a b =
      (date_lt a.1.effective_from b.1.effective_from ≡ false)
      × (date_lt b.1.effective_from a.1.effective_from ≡ false → b.0 ≤ a.0)

  -- No version in force from `index` on, and none in `best`.
  abbrev pub NoneApplies : NaiveDate → List ParameterVersion → Type 0
  NoneApplies at' [] = Unit
  NoneApplies at' (v ∷ rest) = (applies_at v at' ≡ false) × NoneApplies at' rest

  -- `a` stands in the list and is in force.
  abbrev pub InForce : NaiveDate → ℕ → List ParameterVersion → ℕ × ParameterVersion → Type 0
  InForce at' index [] a = ⊥
  InForce at' index (v ∷ rest) a =
      ((a ≡ (index, v)) × (applies_at v at' ≡ true)) ⊎ InForce at' (suc index) rest a

  -- What the selection promises of its result.
  abbrev pub Selects :
      NaiveDate
      → ℕ
      → Option (ℕ × ParameterVersion)
      → List ParameterVersion
      → Option (ℕ × ParameterVersion)
      → Type 0
  Selects at' index best rest none = (best ≡ none) × NoneApplies at' rest
  Selects at' index best rest (some a) =
      ((best ≡ some a) ⊎ InForce at' index rest a)
      × ((b : ℕ × ParameterVersion) → best ≡ some b → AtLeast a b)
      × ((b : ℕ × ParameterVersion) → InForce at' index rest b → AtLeast a b)

  abbrev Before : ℕ → Option (ℕ × ParameterVersion) → Type 0
  Before index best = (b : ℕ × ParameterVersion) → best ≡ some b → b.0 < index

  AtLeast-self : (a : ℕ × ParameterVersion) → AtLeast a a
  AtLeast-self a = (ground (arith, date_ord.cmp_self a.1.effective_from), λ h. omega arith)

  AtLeast-trans : (a b c : ℕ × ParameterVersion) → AtLeast a b → AtLeast b c → AtLeast a c
  AtLeast-trans a b c h k = (
    not-lt_trans _ _ _ h.0 k.0,
    λ w.
        let cb : date_lt c.1.effective_from b.1.effective_from ≡ false = not-lt_trans _ _ _ w h.0 in
        let ba : date_lt b.1.effective_from a.1.effective_from ≡ false = not-lt_trans _ _ _ k.0 w in
        let x = h.1 ba in let y = k.1 cb in omega arith,
  )

  out_of_force :
      (at' : NaiveDate) (index : ℕ) (best : Option (ℕ × ParameterVersion)) (v : ParameterVersion)
      (rest : List ParameterVersion) (r : Option (ℕ × ParameterVersion))
      → applies_at v at' ≡ false
      → Selects at' (suc index) best rest r
      → Selects at' index best (v ∷ rest) r
  out_of_force at' index best v rest none out s = (s.0, (out, s.1))
  out_of_force at' index best v rest (some a) out s = (
    elim s.0 [ inl e ↦ inl e | inr x ↦ inr (inr x) ],
    s.1,
    λ b m. elim m [
      | inl both ↦ let clash : true ≡ false = sym both.1 ∙ out in cc
      | inr later ↦ s.2 b later
    ],
  )

  newer-AtLeast :
      (best : Option (ℕ × ParameterVersion)) (index : ℕ) (v : ParameterVersion)
      → Before index best
      → AtLeast (newer best (index, v)) (index, v)
  unfolding newer
  newer-AtLeast none index v h = AtLeast-self (index, v)
  newer-AtLeast (some b) index v h =
      elim (Bool-cases (date_lt v.effective_from b.1.effective_from)) [
        | inl lt ↦ rw lt (
          ground (arith, date_ord.cmp_flip v.effective_from b.1.effective_from),
          λ w. let clash : true ≡ false = sym lt ∙ w in cc,
        )
        | inr ge ↦ rw ge (AtLeast-self (index, v))
      ]

  newer-keeps :
      (best : Option (ℕ × ParameterVersion)) (index : ℕ) (v : ParameterVersion)
      → Before index best
      → (b : ℕ × ParameterVersion) → best ≡ some b
      → AtLeast (newer best (index, v)) b
  unfolding newer
  newer-keeps none index v h b e = let clash : none ≡ some b = e in cc
  newer-keeps (some c) index v h b e =
      let same : c ≡ b = cc in
      elim (Bool-cases (date_lt v.effective_from c.1.effective_from)) [
        | inl lt ↦ rw (lt, same) (AtLeast-self b)
        | inr ge ↦ let before = h c refl in rw (ge, ← same) (ge, λ w. omega arith)
      ]

  newer-one :
      (best : Option (ℕ × ParameterVersion)) (index : ℕ) (v : ParameterVersion)
      → (best ≡ some (newer best (index, v))) ⊎ (newer best (index, v) ≡ (index, v))
  unfolding newer
  newer-one none index v = inr refl
  newer-one (some c) index v = elim (Bool-cases (date_lt v.effective_from c.1.effective_from)) [
    | inl lt ↦ rw lt (inl refl)
    | inr ge ↦ rw ge (inr refl)
  ]

  in_force :
      (at' : NaiveDate) (index : ℕ) (best : Option (ℕ × ParameterVersion)) (v : ParameterVersion)
      (rest : List ParameterVersion) (r : Option (ℕ × ParameterVersion))
      → Before index best
      → applies_at v at' ≡ true
      → Selects at' (suc index) (some (newer best (index, v))) rest r
      → Selects at' index best (v ∷ rest) r
  in_force at' index best v rest none h app s =
      let clash : some (newer best (index, v)) ≡ none = s.0 in cc
  in_force at' index best v rest (some a) h app s =
      let over : AtLeast a (newer best (index, v)) = s.1 (newer best (index, v)) refl in
      (
        elim s.0 [
          | inl e ↦
              let here : newer best (index, v) ≡ a = cc in
              elim (newer-one best index v) [
                | inl old ↦ inl (old ∙ ap some here)
                | inr new ↦ inr (inl (sym here ∙ new, app))
              ]
          | inr x ↦ inr (inr x)
        ],
        λ b e. AtLeast-trans a (newer best (index, v)) b over (newer-keeps best index v h b e),
        λ b m. elim m [
          | inl both ↦ rw both.0 (
              AtLeast-trans a (newer best (index, v)) (index, v) over
                (newer-AtLeast best index v h))
          | inr later ↦ s.2 b later
        ],
      )

  newer-Before :
      (best : Option (ℕ × ParameterVersion)) (index : ℕ) (v : ParameterVersion)
      → Before index best
      → Before (suc index) (some (newer best (index, v)))
  newer-Before best index v h b e =
      let same : newer best (index, v) ≡ b = cc in
      elim (newer-one best index v) [
        | inl old ↦ let lt = h b (old ∙ ap some same) in omega arith
        | inr new ↦ let here : b ≡ (index, v) = sym same ∙ new in rw here (omega arith)
      ]

  select_from-Selects :
      (at' : NaiveDate) (index : ℕ) (best : Option (ℕ × ParameterVersion))
      (rest : List ParameterVersion)
      → Before index best
      → Selects at' index best rest (select_from at' index best rest)
  unfolding select_from
  select_from-Selects at' index none [] h = (refl, tt)
  select_from-Selects at' index (some b) [] h =
      (inl refl, λ c e. let same : b ≡ c = cc in rw (← same) (AtLeast-self b), λ c m. absurd m)
  select_from-Selects at' index best (v ∷ rest) h = elim (Bool-cases (applies_at v at')) [
    | inl app ↦ rw app (
        in_force at' index best v rest _ h app (
          select_from-Selects at' (suc index) (some (newer best (index, v))) rest
            (newer-Before best index v h)))
    | inr out ↦ rw out (
        out_of_force at' index best v rest _ out
          (select_from-Selects at' (suc index) best rest (λ b e. let lt = h b e in omega arith)))
  ]

  -- If version_at selects a version, it is one of the parameter's versions in force at the date,
  -- with its index; no version in force starts later, and none that starts with it stands after
  -- it. If it selects none, no version is in force.
  pub version_at-Selects :
      (parameter : IndexedParameter) (at' : NaiveDate)
      → Selects at' 0 none parameter.versions (version_at parameter at')
  unfolding version_at
  version_at-Selects parameter at' =
      select_from-Selects at' 0 none parameter.versions (λ b e. let clash : none ≡ some b = e in cc)
