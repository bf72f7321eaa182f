-- ===== src/Units/Freeze/Active.antt =====
-- Which edges are frozen and which cuts are active (src/unit_derivation/evaluate.rs, `evaluate_world`).
use axiom_rules_engine.Prelude.{
  ◌≡◌, ◌↔◌, refl, sym, ◌∙◌, ap, subst, Bool, true, false, ◌&&◌, not, List, [], ◌∷◌, In, here, there,
  In-cons, inl, inr, ◌⊎◌, arith,
}
use axiom_rules_engine.Prelude.Ord.{Str, str_ord}
use axiom_rules_engine.BTree.{Map}
use axiom_rules_engine.Units.Types.{
  DerivedBool, BoolExpr, EdgeDefeater, EdgeRule, CutRule, Derivation, ok, err, exhausted,
  UnitDerivationError,
}
use axiom_rules_engine.Units.Evaluate.{evaluate}
use axiom_rules_engine.Units.Evaluate.Judged.{Judges, evaluate-Judges}
use axiom_rules_engine.Units.Freeze.{
  is_defeated, is_frozen, frozen_edge, push_active, freeze_edges, active_cut, active_cuts,
}

-- The items that come from sources whose condition holds; or a source whose condition has the error.
abbrev pub Selects :
    {A B : Type 0}
    → (A → B)
    → (A → Type 0)
    → (A → UnitDerivationError → Type 0)
    → List A
    → Derivation (List B)
    → Type 0
Selects {A} {B} make Holds Fails sources (ok items) =
    (b : B) → In b items ↔ ((a : A) × In a sources × Holds a × (make a ≡ b))
Selects {A} {B} make Holds Fails sources (err e) = (a : A) × In a sources × Fails a e
Selects {A} {B} make Holds Fails sources exhausted = ⊥

-- The answer is whether the condition holds; or its error.
abbrev pub Answers : Type 0 → (UnitDerivationError → Type 0) → Derivation Bool → Type 0
Answers P Q (ok b) = (b ≡ true) ↔ P
Answers P Q (err e) = Q e
Answers P Q exhausted = ⊥

no_clash : {P : Type 0} → false ≡ true → P
no_clash e = absurd (cc)

push_active-Selects :
    {A B : Type 0} (make : A → B) (Holds : A → Type 0) (Fails : A → UnitDerivationError → Type 0)
    (a : A) (sources : List A) (d : Derivation Bool) (rest : Derivation (List B))
    → Answers (Holds a) (Fails a) d
    → Selects make Holds Fails sources rest
    → Selects make Holds Fails (a ∷ sources) (push_active (make a) d rest)
push_active-Selects {A} make Holds Fails a sources (ok true) (ok items) h s = λ b. (
  λ i. elim (In-cons b (make a) items i) [
    | inl same ↦ (a, here, h.0 refl, sym same)
    | inr j ↦ let (c, k, holds, made) = (s b).0 j in (c, there k, holds, made)
  ],
  λ (c, i, holds, made). elim (In-cons c a sources i) [
    | inl same ↦ subst (λ x. In x (make a ∷ items)) (sym (ap make same) ∙ made) here
    | inr j ↦ there ((s b).1 (c, j, holds, made))
  ],
)
push_active-Selects {A} make Holds Fails a sources (ok false) (ok items) h s = λ b. (
  λ i. let (c, k, holds, made) = (s b).0 i in (c, there k, holds, made),
  λ (c, i, holds, made). elim (In-cons c a sources i) [
    | inl same ↦ no_clash (h.1 (subst Holds same holds))
    | inr j ↦ (s b).1 (c, j, holds, made)
  ],
)
push_active-Selects make Holds Fails a sources (ok true) (err e) h (c, i, f) = (c, there i, f)
push_active-Selects make Holds Fails a sources (ok false) (err e) h (c, i, f) = (c, there i, f)
push_active-Selects make Holds Fails a sources (ok true) exhausted h s = s
push_active-Selects make Holds Fails a sources (ok false) exhausted h s = s
push_active-Selects make Holds Fails a sources (err e) rest h s = (a, here, h)
push_active-Selects make Holds Fails a sources exhausted rest h s = absurd h

module _ (valuation : Map Str Bool) (rules : Map Str DerivedBool) where
  abbrev pub Is : BoolExpr → Bool → Type 0
  Is e b = evaluate valuation rules e ≡ ok b

  abbrev pub Errs : BoolExpr → UnitDerivationError → Type 0
  Errs e x = evaluate valuation rules e ≡ err x

  evaluate-Answers : (e : BoolExpr) → Answers (Is e true) (Errs e) (evaluate valuation rules e)
  evaluate-Answers e =
      by_value (evaluate valuation rules e) refl (evaluate-Judges valuation rules e)
    where
      by_value :
          (d : Derivation Bool)
          → evaluate valuation rules e ≡ d
          → Judges valuation rules e d
          → Answers (Is e true) (Errs e) d
      by_value (ok b) same j = (λ t. same ∙ ap ok t, λ h. ok-eq b true (sym same ∙ h))
        where
          ok-eq : (x y : Bool) → ok x ≡ ok y → x ≡ y
          ok-eq x y h = cc
      by_value (err x) same j = same
      by_value exhausted same j = absurd j

  -- A defeater holds.
  abbrev pub Defeats : List EdgeDefeater → Type 0
  Defeats defeaters = (d : EdgeDefeater) × In d defeaters × Is d.when true

  -- A defeater's condition has the error.
  abbrev pub SomeErrs : List EdgeDefeater → UnitDerivationError → Type 0
  SomeErrs defeaters x = (d : EdgeDefeater) × In d defeaters × Errs d.when x

  is_defeated-Answers :
      (defeaters : List EdgeDefeater)
      → Answers (Defeats defeaters) (SomeErrs defeaters) (is_defeated valuation rules defeaters)
  is_defeated-Answers [] = (λ e. no_clash e, λ (d, i, h). elim i [ ])
  is_defeated-Answers (defeater ∷ defeaters) =
      by_value (evaluate valuation rules defeater.when) refl (evaluate-Answers defeater.when)
        (later (is_defeated valuation rules defeaters) (is_defeated-Answers defeaters))
    where
      Result : Derivation Bool → Type 0
      Result d = Answers (Defeats (defeater ∷ defeaters)) (SomeErrs (defeater ∷ defeaters)) d

      later :
          (r : Derivation Bool)
          → Answers (Defeats defeaters) (SomeErrs defeaters) r
          → evaluate valuation rules defeater.when ≡ ok false
          → Result r
      later (ok b) h no' = (
        λ t. let (d, i, k) = h.0 t in (d, there i, k),
        λ (d, i, k). elim (In-cons d defeater defeaters i) [
          | inl same ↦
              absurd (apart (sym no' ∙ subst (λ (x : EdgeDefeater). Is x.when true) same k))
          | inr j ↦ h.1 (d, j, k)
        ],
      )
        where
          apart : ok false ≡ ok true → ⊥
          apart e = cc
      later (err x) (d, i, k) no' = (d, there i, k)
      later exhausted h no' = h

      by_value :
          (v : Derivation Bool)
          → evaluate valuation rules defeater.when ≡ v
          → Answers (Is defeater.when true) (Errs defeater.when) v
          → (evaluate valuation rules defeater.when ≡ ok false
              → Result (is_defeated valuation rules defeaters))
          → Result (elim v as (λ x. Derivation Bool) [
            | ok true ↦ ok true
            | ok false ↦ is_defeated valuation rules defeaters
            | err e ↦ err e
            | exhausted ↦ exhausted
          ])
      by_value (ok true) same h rest = (λ t. (defeater, here, same), λ d. refl)
      by_value (ok false) same h rest = rest same
      by_value (err x) same h rest = (defeater, here, same)
      by_value exhausted same h rest = h

  -- The edge's condition holds, and none of its defeaters does.
  abbrev pub Freezes : EdgeRule → Type 0
  Freezes edge = Is edge.when true × (Defeats edge.defeaters → ⊥)

  abbrev pub EdgeErrs : EdgeRule → UnitDerivationError → Type 0
  EdgeErrs edge x = Errs edge.when x ⊎ SomeErrs edge.defeaters x

  is_frozen-Answers :
      (edge : EdgeRule) → Answers (Freezes edge) (EdgeErrs edge) (is_frozen valuation rules edge)
  is_frozen-Answers edge =
      by_values (evaluate valuation rules edge.when) (is_defeated valuation rules edge.defeaters)
        (evaluate-Answers edge.when) (is_defeated-Answers edge.defeaters)
    where
      both : (a b : Bool) → (a && not b) ≡ true → (a ≡ true) × (b ≡ false)
      both a b e = ground arith

      by_values :
          (v w : Derivation Bool)
          → Answers (Is edge.when true) (Errs edge.when) v
          → Answers (Defeats edge.defeaters) (SomeErrs edge.defeaters) w
          → Answers (Freezes edge) (EdgeErrs edge) (elim v as (λ x. Derivation Bool) [
            | ok active ↦ elim w as (λ x. Derivation Bool) [
              | ok defeated ↦ ok (active && not defeated)
              | err e ↦ err e
              | exhausted ↦ exhausted
            ]
            | err e ↦ err e
            | exhausted ↦ exhausted
          ])
      by_values (ok a) (ok b) h k = (
        λ t. let (active, kept) = both a b t in (h.0 active, λ d. no_clash (sym kept ∙ k.1 d)),
        λ (active, kept). rw (h.1 active) (undefeated b k kept),
      )
        where
          undefeated :
              (c : Bool)
              → ((c ≡ true) ↔ Defeats edge.defeaters)
              → (Defeats edge.defeaters → ⊥)
              → not c ≡ true
          undefeated true k' n = absurd (n (k'.0 refl))
          undefeated false k' n = refl
      by_values (ok a) (err x) h k = inr k
      by_values (ok a) exhausted h k = k
      by_values (err x) w h k = inl h
      by_values exhausted w h k = absurd h

  -- On every list of edge rules, the edges frozen are exactly those of the rules whose condition holds and
  -- none of whose defeaters does; or the condition of a rule or of a defeater has the error that is
  -- the result.
  pub freeze_edges-Selects :
      (edges : List EdgeRule)
      → Selects frozen_edge Freezes EdgeErrs edges (freeze_edges valuation rules edges)
  unfolding freeze_edges
  freeze_edges-Selects [] = λ b. (λ i. elim i [ ], λ (a, i, h, made). elim i [ ])
  freeze_edges-Selects (edge ∷ edges) =
      push_active-Selects frozen_edge Freezes EdgeErrs edge edges (is_frozen valuation rules edge)
        (freeze_edges valuation rules edges) (is_frozen-Answers edge) (freeze_edges-Selects edges)

  -- On every list of cut rules, the active cuts are exactly those of the rules whose condition holds; or
  -- the condition of a rule has the error that is the result.
  pub active_cuts-Selects :
      (cuts : List CutRule)
      → Selects active_cut
          (λ cut. Is cut.when true)
          (λ cut. Errs cut.when)
          cuts
          (active_cuts valuation rules cuts)
  unfolding active_cuts
  active_cuts-Selects [] = λ b. (λ i. elim i [ ], λ (a, i, h, made). elim i [ ])
  active_cuts-Selects (cut ∷ cuts) =
      push_active-Selects active_cut (λ cut. Is cut.when true) (λ cut. Errs cut.when) cut cuts
        (evaluate valuation rules cut.when) (active_cuts valuation rules cuts)
        (evaluate-Answers cut.when) (active_cuts-Selects cuts)
