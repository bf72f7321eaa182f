-- ===== src/Engine/Inputs/Facts.antt =====
-- Facts in a list of records: the records for one fact after a write or a push, and the position
-- that the single-period view keeps for a fact.
use axiom_rules_engine.Prelude.{
  ℕ, zero, suc, ◌≡◌, ◌≢◌, refl, sym, ◌∙◌, Bool, true, false, ◌&&◌, Option, none, some, List, [],
  ◌∷◌, ◌++◌, arith, if◌then◌else◌, Bool-cases, inl, inr, ap, length, get_elem?, set,
  get_elem?-set_ne, ◌<◌,
}
use axiom_rules_engine.Prelude.Ord.{Str, str_ord}
use axiom_rules_engine.BTree.Laws.{key_eq-eq, key_eq_self}
use axiom_rules_engine.Model.Platform.{Platform}
use axiom_rules_engine.Model.Data.{Period, InputRecord}
use axiom_rules_engine.Engine.Inputs.{is_for, Resolution}
use axiom_rules_engine.Engine.Inputs.Latest.{matching, prefer, covers}

pub and_left : (a b : Bool) → (a && b) ≡ true → a ≡ true
and_left a b h = ground arith

pub and_right : (a b : Bool) → (a && b) ≡ true → b ≡ true
and_right a b h = ground arith

module _ ⦃p : Platform⦄ where
  abbrev pub better : Option InputRecord → InputRecord → Option InputRecord
  better none x = some x
  better (some r) x = prefer r (some x)

  abbrev pub as_list : Option InputRecord → List InputRecord
  as_list none = []
  as_list (some r) = r ∷ []

  -- The position kept for a fact holds the fact's selected record.
  abbrev pub Slot : List InputRecord → Str → Str → Option ℕ → Option InputRecord → Type 0
  Slot inputs n i none o = o ≡ none
  Slot inputs n i (some k) o =
      (r : InputRecord) × (o ≡ some r) × (get_elem? inputs k ≡ some r) × (is_for r n i ≡ true)

  abbrev pub Selection : Type 0
  Selection = Str → Str → Option InputRecord

  -- The state agrees with the selected records `f`.
  abbrev pub Tracks : Resolution → Selection → Type 0
  Tracks st f =
      (n i : Str)
      → Slot st.inputs n i (st.selected_by_fact n i) (f n i)
        × (matching n i st.inputs ≡ as_list (f n i))

  abbrev pub select : Period → Selection → InputRecord → Selection
  select period f item n i =
      if is_for item n i && covers period item then better (f n i) item else f n i

  pub matching-set :
      (n i : Str) (xs : List InputRecord) (k : ℕ) (r item : InputRecord)
      → get_elem? xs k ≡ some r
      → is_for r n i ≡ false
      → is_for item n i ≡ false
      → matching n i (set xs k item) ≡ matching n i xs
  matching-set n i [] k r item g a b = refl
  matching-set n i (x ∷ xs) zero r item g a b = let same : x ≡ r = cc in rw (same, a, b)
  matching-set n i (x ∷ xs) (suc k) r item g a b = rw (matching-set n i xs k r item g a b)

  pub matching-get :
      (n i : Str) (xs : List InputRecord) (k : ℕ) (r : InputRecord)
      → get_elem? xs k ≡ some r
      → is_for r n i ≡ true
      → matching n i xs ≢ []
  matching-get n i [] k r g a = cc
  matching-get n i (x ∷ xs) zero r g a = let same : x ≡ r = cc in rw (same, a) (cc)
  matching-get n i (x ∷ xs) (suc k) r g a = elim (Bool-cases (is_for x n i)) [
    | inl yes' ↦ rw yes' (cc)
    | inr no' ↦ rw no' (matching-get n i xs k r g a)
  ]

  pub matching-set_self :
      (n i : Str) (xs : List InputRecord) (k : ℕ) (r item : InputRecord)
      → get_elem? xs k ≡ some r
      → matching n i xs ≡ r ∷ []
      → is_for r n i ≡ true
      → is_for item n i ≡ true
      → matching n i (set xs k item) ≡ item ∷ []
  matching-set_self n i [] k r item g m a b = cc
  matching-set_self n i (x ∷ xs) zero r item g m a b =
      let same : x ≡ r = cc in let m' = rw (same, a) at m in rw b (cc)
  matching-set_self n i (x ∷ xs) (suc k) r item g m a b = elim (Bool-cases (is_for x n i)) [
    | inl yes' ↦
        let m' = rw yes' at m in
        let none' : matching n i xs ≡ [] = cc in absurd (matching-get n i xs k r g a none')
    | inr no' ↦ rw no' (matching-set_self n i xs k r item g (rw no' at m) a b)
  ]

  pub matching-append :
      (n i : Str) (xs ys : List InputRecord)
      → matching n i (xs ++ ys) ≡ matching n i xs ++ matching n i ys
  matching-append n i [] ys = refl
  matching-append n i (x ∷ xs) ys = elim (Bool-cases (is_for x n i)) [
    | inl here ↦ rw here (ap (λ l. x ∷ l) (matching-append n i xs ys))
    | inr there ↦ rw there (matching-append n i xs ys)
  ]

  pub get_elem?-snoc :
      (xs : List InputRecord) (k : ℕ) (r item : InputRecord)
      → get_elem? xs k ≡ some r
      → get_elem? (xs ++ item ∷ []) k ≡ some r
  get_elem?-snoc [] k r item g = cc
  get_elem?-snoc (x ∷ xs) zero r item g = g
  get_elem?-snoc (x ∷ xs) (suc k) r item g = get_elem?-snoc xs k r item g

  pub get_elem?-length :
      (xs : List InputRecord) (item : InputRecord)
      → get_elem? (xs ++ item ∷ []) (length xs) ≡ some item
  get_elem?-length [] item = refl
  get_elem?-length (x ∷ xs) item = get_elem?-length xs item

  pub get_elem?-lt :
      (xs : List InputRecord) (k : ℕ) (r : InputRecord) → get_elem? xs k ≡ some r → k < length xs
  get_elem?-lt [] k r g = cc
  get_elem?-lt (x ∷ xs) zero r g = omega arith
  get_elem?-lt (x ∷ xs) (suc k) r g = omega (arith, get_elem?-lt xs k r g)

  pub is_for_self : (item : InputRecord) → is_for item item.name item.entity_id ≡ true
  is_for_self item = rw (key_eq_self item.name, key_eq_self item.entity_id)

  pub is_for-name : (item : InputRecord) (n i : Str) → is_for item n i ≡ true → n ≡ item.name
  is_for-name item n i h = key_eq-eq n item.name (and_left _ _ h)

  pub is_for-entity : (item : InputRecord) (n i : Str) → is_for item n i ≡ true → i ≡ item.entity_id
  is_for-entity item n i h = key_eq-eq i item.entity_id (and_right _ _ h)

  -- A record for the item's fact is for another fact only if the item is.
  pub is_for-other :
      (item r : InputRecord) (n i : Str)
      → is_for r item.name item.entity_id ≡ true
      → is_for item n i ≡ false
      → is_for r n i ≡ false
  is_for-other item r n i h k =
      rw (is_for-name r item.name item.entity_id h, is_for-entity r item.name item.entity_id h) at k

  pub Slot-set :
      (inputs : List InputRecord) (n i : Str) (s : Option ℕ) (o : Option InputRecord) (k : ℕ)
      (r item : InputRecord)
      → get_elem? inputs k ≡ some r
      → is_for r n i ≡ false
      → Slot inputs n i s o
      → Slot (set inputs k item) n i s o
  Slot-set inputs n i none o k r item g a h = h
  Slot-set inputs n i (some j) o k r item g a (r', e, g', b) =
      (r', e, get_elem?-set_ne inputs item differ ∙ g', b)
    where
      differ : k ≢ j
      differ same =
          let both : some r ≡ some r' = sym g ∙ ap (get_elem? inputs) same ∙ g' in
          let same_record : r ≡ r' = cc in
          let clash : true ≡ false = sym b ∙ ap (λ x. is_for x n i) (sym same_record) ∙ a in cc

  pub Slot-snoc :
      (inputs : List InputRecord) (n i : Str) (s : Option ℕ) (o : Option InputRecord)
      (item : InputRecord)
      → Slot inputs n i s o
      → Slot (inputs ++ item ∷ []) n i s o
  Slot-snoc inputs n i none o item h = h
  Slot-snoc inputs n i (some j) o item (r, e, g, b) = (r, e, get_elem?-snoc inputs j r item g, b)
