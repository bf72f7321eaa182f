-- ===== src/Rows/Algebra.antt =====
-- The set operations on masks: what each result holds, and that it is well-formed.
use axiom_rules_engine.Prelude.{
  ℕ, zero, suc, ◌≡◌, refl, Bool, true, false, not, ◌&&◌, ◌||◌, List, [], ◌∷◌, ◌++◌, arith, sym, ◌∙◌,
  inl, inr, if◌then◌else◌, ◌==◌, ltb, lt→ltb, length, get_or, set, replicate, length-set,
  length-replicate, Bool-cases,
}
use axiom_rules_engine.BTree.{mem}
use axiom_rules_engine.Prelude.Ord.{nat_ord}
use axiom_rules_engine.Model.Platform.{Platform}
use axiom_rules_engine.Engine.Errors.{ok, err, ◌>>=◌, Result}
use axiom_rules_engine.Rows.Mask.{
  RowMask, no_rows, from_bits, is_all, is_empty, contains, rows, write, filled_rows, filter,
  difference, union, refused,
}
use axiom_rules_engine.Rows.Invariant.{
  IsValid, from_bits-IsValid, contains-from_bits, len-from_bits, contains-lt,
}
use axiom_rules_engine.Rows.Iteration.{mem-rows}

get_or-set :
    (bits : List Bool) (i r : ℕ) (b : Bool)
    → get_or (set bits i b) r false
      ≡ (if r == i && ltb r (length bits) then b else get_or bits r false)
get_or-set [] i r b = ground arith
get_or-set (c ∷ bits) zero zero b = ground arith
get_or-set (c ∷ bits) zero (suc r) b = ground arith
get_or-set (c ∷ bits) (suc i) zero b = ground arith
get_or-set (c ∷ bits) (suc i) (suc r) b = ground (arith, get_or-set bits i r b)

length-write :
    (keep : ℕ → Bool) (rs : List ℕ) (bits : List Bool) → length (write keep rs bits) ≡ length bits
length-write keep [] bits = refl
length-write keep (i ∷ rs) bits = length-write keep rs _ ∙ length-set bits i (keep i)

-- The bits written are those of the rows met that lie inside the buffer.
get_or-write :
    (keep : ℕ → Bool) (rs : List ℕ) (bits : List Bool) (r : ℕ)
    → get_or (write keep rs bits) r false
      ≡ (if mem r rs && ltb r (length bits) then keep r else get_or bits r false)
get_or-write keep [] bits r = refl
get_or-write keep (i ∷ rs) bits r =
    rw (get_or-write keep rs (set bits i (keep i)) r, get_or-set, length-set) (ground arith)

get_or-replicate : (n r : ℕ) → get_or (replicate n false) r false ≡ false
get_or-replicate zero r = refl
get_or-replicate (suc n) zero = refl
get_or-replicate (suc n) (suc r) = get_or-replicate n r

-- A fresh buffer with the bits of `rs` written.
pub get_or-fresh :
    (keep : ℕ → Bool) (rs : List ℕ) (n r : ℕ)
    → get_or (write keep rs (replicate n false)) r false ≡ (mem r rs && (ltb r n && keep r))
get_or-fresh keep rs n r = rw (get_or-write, get_or-replicate, length-replicate) (ground arith)

pub contains-empty : (m : RowMask) (r : ℕ) → IsValid m → is_empty m ≡ true → contains m r ≡ false
unfolding contains is_empty
contains-empty m r v h = ground arith

pub contains-whole :
    (m : RowMask) (r : ℕ) → IsValid m → is_all m ≡ true → contains m r ≡ ltb r m.len
unfolding contains is_all
contains-whole m r v h = ground arith

pub contains-no_rows : (len r : ℕ) → contains (no_rows len) r ≡ false
unfolding contains no_rows
contains-no_rows len r = ground arith

len-no_rows : (len : ℕ) → (no_rows len).len ≡ len
unfolding no_rows
len-no_rows len = refl

mem-append : (r : ℕ) (xs ys : List ℕ) → mem r (xs ++ ys) ≡ (mem r xs || mem r ys)
mem-append r [] ys = refl
mem-append r (x ∷ xs) ys = ground (arith, mem-append r xs ys)

no_rows-IsValid : (len : ℕ) → IsValid (no_rows len)
unfolding no_rows
no_rows-IsValid len = inl refl

module _ ⦃p : Platform⦄ (grants : ℕ → Bool) where
  -- A result is a well-formed mask of the same length that holds the rows of `P`.
  abbrev pub Holds : RowMask → (ℕ → Bool) → Result RowMask → Type 0
  Holds m P (ok m') = IsValid m' × (m'.len ≡ m.len) × ((r : ℕ) → contains m' r ≡ P r)
  Holds m P (err e) = (grants m.len ≡ false) × (e ≡ refused m.len)

  -- Writing the bits of `rs` into a fresh buffer, which the allocator may refuse.
  fill-Holds :
      (m : RowMask) (keep : ℕ → Bool) (rs : List ℕ) (P : ℕ → Bool)
      → ((r : ℕ) → (mem r rs && (ltb r m.len && keep r)) ≡ P r)
      → Holds m P (filled_rows grants m.len false >>= λ bits. ok (from_bits (write keep rs bits)))
  unfolding filled_rows
  fill-Holds m keep rs P h = elim (Bool-cases (grants m.len)) [
    | inl granted ↦ rw granted (
      from_bits-IsValid _,
      len-from_bits _ ∙ length-write keep rs _ ∙ length-replicate m.len false,
      λ r. contains-from_bits _ r ∙ get_or-fresh keep rs m.len r ∙ h r,
    )
    | inr not_granted ↦ rw not_granted (not_granted, refl)
  ]

  -- Filtering a well-formed mask gives a well-formed mask of the same length that holds exactly
  -- its rows that pass the test, unless the allocator refuses the buffer, which is then the error.
  pub filter-Holds :
      (m : RowMask) (keep : ℕ → Bool)
      → IsValid m
      → Holds m (λ r. contains m r && keep r) (filter grants m keep)
  unfolding filter
  filter-Holds m keep v = elim (Bool-cases (is_empty m)) [
    | inl bare ↦ rw bare (v, refl, λ r. ground (arith, contains-empty m r v bare))
    | inr more ↦ rw more (
        fill-Holds m keep (rows m) _
          (λ r. rw (mem-rows m r v) (ground (arith, contains-lt m r v, lt→ltb r m.len))))
  ]

  -- For two well-formed masks of the same length, the difference is a well-formed mask of that
  -- length that holds exactly the rows of the first that the second does not hold, unless the
  -- allocator refuses the buffer, which is then the error.
  pub difference-Holds :
      (m other : RowMask)
      → IsValid m
      → IsValid other
      → m.len ≡ other.len
      → Holds m (λ r. contains m r && not (contains other r)) (difference grants m other)
  unfolding difference
  difference-Holds m other v w e = elim (Bool-cases (is_empty other || is_empty m)) [
    | inl trivial ↦
        rw trivial
          (v, refl, λ r. ground (arith, contains-empty m r v, contains-empty other r w, trivial))
    | inr proper ↦ elim (Bool-cases (is_all other)) [
      | inl whole ↦
          rw (proper, whole)
            (
              no_rows-IsValid m.len,
              len-no_rows m.len,
              λ r. rw contains-no_rows (
                  ground
                    (arith, contains-whole other r w whole, contains-lt m r v, lt→ltb r m.len)),
            )
      | inr part ↦ rw (proper, part) (filter-Holds m (λ row. not (contains other row)) v)
    ]
  ]

  -- For two well-formed masks of the same length, the union is a well-formed mask of that length
  -- that holds exactly the rows that either holds, unless the allocator refuses a buffer of that
  -- many rows, which is then the error.
  pub union-Holds :
      (m other : RowMask)
      → IsValid m
      → IsValid other
      → m.len ≡ other.len
      → Holds m (λ r. contains m r || contains other r) (union grants m other)
  unfolding union
  union-Holds m other v w e = elim (Bool-cases (is_all m || is_empty other)) [
    | inl trivial ↦ rw trivial (
      v,
      refl,
      λ r. ground (
        arith,
        contains-whole m r v,
        contains-empty other r w,
        contains-lt other r w,
        lt→ltb r m.len,
        trivial,
      ),
    )
    | inr proper ↦ elim (Bool-cases (is_all other || is_empty m)) [
      | inl simple ↦
          rw (proper, simple)
            (
              w,
              sym e,
              λ r. ground (
                arith,
                contains-whole other r w,
                contains-empty m r v,
                contains-lt m r v,
                lt→ltb r other.len,
                simple,
              ),
            )
      | inr part ↦
          rw (proper, part)
            (fill-Holds m (λ _. true) (rows m ++ rows other) _
              (λ r.
                rw (mem-append r (rows m) (rows other), mem-rows m r v, mem-rows other r w)
                  (ground (arith, contains-lt m r v, contains-lt other r w, lt→ltb r m.len))))
    ]
  ]
