-- ===== src/Rows/FirstError.antt =====
-- A row keeps its first error: what each operation on `RowErrors` records, and their order.
use axiom_rules_engine.Prelude.{
  ℕ, ◌<◌, ◌≤◌, ◌≡◌, refl, ◌∙◌, Bool, true, false, not, ◌&&◌, ◌||◌, Option, none, some, List, [],
  ◌∷◌, arith, if◌then◌else◌, ◌==◌, is_some, Bool-cases, inl, inr, lt→ltb,
}
use axiom_rules_engine.Prelude.Ord.{nat_ord}
use axiom_rules_engine.BTree.{lookup, Map, mem, keys}
use axiom_rules_engine.BTree.Laws.{lookup-or_insert, IsSorted, Above}
use axiom_rules_engine.Model.Platform.{Platform}
use axiom_rules_engine.Engine.Errors.{EvalError}
use axiom_rules_engine.Rows.Mask.{RowMask, is_empty, contains, rows}
use axiom_rules_engine.Rows.Invariant.{IsValid}
use axiom_rules_engine.Rows.Iteration.{mem-rows}
use axiom_rules_engine.Rows.Algebra.{Holds, filter-Holds, contains-whole, contains-empty}
use axiom_rules_engine.Rows.Errors.{
  RowError, ready, RowErrors, has_none, has_error, get, record_error, record', record_rows,
  record_all, absorb_entries, absorb, keep_active, restricted_to, first, without,
}

-- The first of two optional errors.
abbrev pub or_else {ℓ} : {A : Type ℓ} → Option A → Option A → Option A
or_else none b = b
or_else (some a) b = some a

module _ ⦃p : Platform⦄ where
  pub get-record_error :
      (e : RowErrors) (row r : ℕ) (error : RowError)
      → get (record_error e row error) r
        ≡ (if r == row then or_else (get e r) (some error) else get e r)
  unfolding get record_error
  get-record_error e row r error = ground (arith, lookup-or_insert r row error e.errors)

  get-record_rows :
      (e : RowErrors) (rs : List ℕ) (error : EvalError) (r : ℕ)
      → get (record_rows e rs error) r
        ≡ (if mem r rs then or_else (get e r) (some (ready error)) else get e r)
  unfolding record_rows record'
  get-record_rows e [] error r = refl
  get-record_rows e (i ∷ rs) error r =
      ground (
        arith,
        get-record_rows (record' e i error) rs error r,
        get-record_error e i r (ready error),
      )

  -- After an error is recorded for all rows of a well-formed mask, a row of the mask has its
  -- earlier error if it had one and otherwise the new one, and any other row has what it had.
  pub get-record_all :
      (e : RowErrors) (mask : RowMask) (error : EvalError) (r : ℕ)
      → IsValid mask
      → get (record_all e mask error) r
        ≡ (if contains mask r then or_else (get e r) (some (ready error)) else get e r)
  unfolding record_all
  get-record_all e mask error r v = rw (← mem-rows mask r v) (get-record_rows e (rows mask) error r)

  get-absorb_entries :
      (e : RowErrors) (entries : Map ℕ RowError) (r : ℕ)
      → get (absorb_entries e entries) r ≡ or_else (get e r) (lookup r entries)
  unfolding absorb_entries lookup
  get-absorb_entries e [] r = ground arith
  get-absorb_entries e ((row, error) ∷ rest) r =
      ground (
        arith,
        get-absorb_entries (record_error e row error) rest r,
        get-record_error e row r error,
      )

  get-has_none : (e : RowErrors) (r : ℕ) → has_none e ≡ true → get e r ≡ none
  unfolding get has_none lookup
  get-has_none e r h = ground arith

  -- After one collection of row errors absorbs another, each row has its error of the first if it
  -- has one, and otherwise its error of the second.
  pub get-absorb :
      (e other : RowErrors) (r : ℕ) → get (absorb e other) r ≡ or_else (get e r) (get other r)
  unfolding absorb get
  get-absorb e other r = elim (Bool-cases (has_none e)) [
    | inl bare ↦ rw (bare, get-has_none e r bare)
    | inr more ↦ rw more (get-absorb_entries e other.errors r ∙ get-lookup other)
  ]
    where
      get-lookup :
          (o : RowErrors) → or_else (get e r) (lookup r o.errors) ≡ or_else (get e r) (get o r)
      get-lookup o = refl

  lookup-keep_active :
      (mask : RowMask) (entries : Map ℕ RowError) (r : ℕ)
      → lookup r (keep_active mask entries) ≡ (if contains mask r then lookup r entries else none)
  unfolding lookup keep_active
  lookup-keep_active mask [] r = ground arith
  lookup-keep_active mask ((row, error) ∷ rest) r = ground (arith, lookup-keep_active mask rest r)

  -- For a well-formed mask and a row below its length, the errors restricted to the mask have for
  -- that row the error it had if the mask holds it, and none otherwise.
  pub get-restricted_to :
      (e : RowErrors) (mask : RowMask) (r : ℕ)
      → IsValid mask
      → r < mask.len
      → get (restricted_to e mask) r ≡ (if contains mask r then get e r else none)
  unfolding restricted_to get
  get-restricted_to e mask r v h = ground (
    arith,
    get-has_none e r,
    contains-whole mask r v,
    lt→ltb r mask.len,
    lookup-keep_active mask e.errors r,
  )

  has_error-none : (e : RowErrors) (r : ℕ) → has_none e ≡ true → has_error e r ≡ false
  unfolding has_error get
  has_error-none e r h = rw (get-has_none e r h)

  -- Taking the failed rows out of a well-formed mask gives a well-formed mask of the same length
  -- that holds exactly its rows without an error, unless the allocator refuses the buffer, which
  -- is then the error.
  pub without-Holds :
      (grants : ℕ → Bool) (m : RowMask) (errors : RowErrors)
      → IsValid m
      → Holds grants m (λ r. contains m r && not (has_error errors r)) (without grants m errors)
  unfolding without
  without-Holds grants m errors v = elim (Bool-cases (has_none errors || is_empty m)) [
    | inl trivial ↦
        rw trivial
          (v, refl, λ r. ground (arith, contains-empty m r v, has_error-none errors r, trivial))
    | inr more ↦ rw more (filter-Holds grants m (λ row. not (has_error errors row)) v)
  ]

  Above-lookup :
      (k r : ℕ) (m : Map ℕ RowError) → Above k (keys m) → is_some (lookup r m) ≡ true → k < r
  unfolding lookup
  Above-lookup k r [] a h = cc
  Above-lookup k r ((j, v) ∷ m) a h = ground (arith, Above-lookup k r m)

  first_entries :
      (entries : Map ℕ RowError) (row : ℕ) (error : RowError)
      → IsSorted (keys entries)
      → first (record { errors = entries }) ≡ some (row, error)
      → (lookup row entries ≡ some error) × ((r : ℕ) → is_some (lookup r entries) ≡ true → row ≤ r)
  unfolding first lookup
  first_entries [] row error s h = cc
  first_entries ((i, x) ∷ m) row error s h =
      (ground arith, λ r k. ground (arith, Above-lookup i r m))

  -- If the errors stand in the order of their rows and the first of them is an error of some row,
  -- then that is the error of that row, and every row that has an error is at or after it.
  pub first_lowest :
      (e : RowErrors) (row : ℕ) (error : RowError)
      → IsSorted (keys e.errors)
      → first e ≡ some (row, error)
      → (get e row ≡ some error) × ((r : ℕ) → has_error e r ≡ true → row ≤ r)
  unfolding get has_error
  first_lowest e row error s h = first_entries e.errors row error s h
