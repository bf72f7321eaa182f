-- ===== src/Rows/Mask.antt =====
-- `RowMask` and `RowIter` (src/lazy.rs). `Rc` sharing is not observable, so a shared vector is its
-- contents. The allocator is a parameter: `grants n` says whether it grants a buffer of `n` rows.
use axiom_rules_engine.Prelude.{
  ℕ, zero, suc, Bool, true, false, not, ◌&&◌, ◌||◌, Option, none, some, List, [], ◌∷◌, ◌++◌,
  if◌then◌else◌, ◌==◌, ltb, length, get_or, set, replicate,
}
use axiom_rules_engine.Prelude.Text.{codes, decimal}
use axiom_rules_engine.Model.Platform.{Platform}
use axiom_rules_engine.Model.Values.{eq_bool}
use axiom_rules_engine.Engine.Errors.{EvalError, type_mismatch, Result, ok, err, ◌>>=◌}

pub record RowMask : Type 0 where
  pub len : ℕ
  pub bits : Option (List Bool)
  pub count : ℕ

unfoldable pub all : ℕ → RowMask
all len = record { len = len; bits = none; count = len }

unfoldable pub no_rows : ℕ → RowMask
no_rows len = record { len = len; bits = none; count = 0 }

-- `bits.iter().filter(|active| **active).count()`
abbrev pub count_true : List Bool → ℕ
count_true [] = 0
count_true (true ∷ bits) = suc (count_true bits)
count_true (false ∷ bits) = count_true bits

unfoldable pub from_bits : List Bool → RowMask
unfolding all no_rows
from_bits bits =
    if count_true bits == length bits
    then all (length bits)
    else if count_true bits == 0
    then no_rows (length bits)
    else record { len = length bits; bits = some bits; count = count_true bits }

unfoldable pub is_empty : RowMask → Bool
is_empty m = m.count == 0

unfoldable pub is_all : RowMask → Bool
is_all m = m.count == m.len

-- `left == right` of the bits: slices are equal if their lengths and their items are.
abbrev pub eq_bits : List Bool → List Bool → Bool
eq_bits [] [] = true
eq_bits (a ∷ as') (b ∷ bs) = eq_bool a b && eq_bits as' bs
eq_bits _ _ = false

same_stored : Option (List Bool) → Option (List Bool) → Bool
same_stored (some left) (some right) = eq_bits left right
same_stored _ _ = true

unfoldable pub same_rows : RowMask → RowMask → Bool
unfolding same_stored
same_rows m other = m.len == other.len && (m.count == other.count && same_stored m.bits other.bits)

unfoldable pub contains : RowMask → ℕ → Bool
unfolding is_all
contains m row = elim m.bits [
  | none ↦ is_all m && ltb row m.len
  | some bits ↦ get_or bits row false
]

-- `RowIter`: the mask and the next row to look at.
pub record RowIter : Type 0 where
  pub mask : RowMask
  pub next : ℕ

-- The `while` loop of `RowIter::next`: the row found and the new position. The fuel bounds the
-- rows left.
unfoldable pub scan : ℕ → List Bool → ℕ → Option ℕ × ℕ
scan zero bits next = (none, next)
scan (suc fuel) bits next =
    let rest = scan fuel bits (suc next) in
    if ltb next (length bits)
    then (if get_or bits next false then (some next, suc next) else rest)
    else (none, next)

unfoldable pub advance : RowIter → Option ℕ × RowIter
unfolding is_all
advance it = elim it.mask.bits [
  | none ↦
      if is_all it.mask && ltb it.next it.mask.len
      then (some it.next, record it { next = suc it.next })
      else (none, it)
  | some bits ↦
      let (row, next) = scan (suc (length bits)) bits it.next in (row, record it { next = next })
]

-- The rows that the iterator gives until it ends.
unfoldable pub collect : ℕ → RowIter → List ℕ
collect zero it = []
collect (suc fuel) it =
    let (row, it') = advance it in elim row [ none ↦ [] | some r ↦ r ∷ collect fuel it' ]

unfoldable pub rows : RowMask → List ℕ
rows m = collect (suc m.len) (record { mask = m; next = 0 })

-- `for row in rows { bits[row] = keep(row) }`
abbrev pub write : (ℕ → Bool) → List ℕ → List Bool → List Bool
write keep [] bits = bits
write keep (row ∷ rest) bits = write keep rest (set bits row (keep row))

module _ ⦃p : Platform⦄ where
  unfoldable pub refused : ℕ → EvalError
  refused rows = type_mismatch (
      codes "evaluation needs a buffer of "
      ++ (decimal rows ++ codes " rows, more than this process can allocate"))

module _ ⦃p : Platform⦄ (grants : ℕ → Bool) where
  unfoldable pub filled_rows : ℕ → Bool → Result (List Bool)
  filled_rows rows value = if grants rows then ok (replicate rows value) else err (refused rows)

  unfoldable pub filter : RowMask → (ℕ → Bool) → Result RowMask
  filter m keep =
      if is_empty m
      then ok m
      else filled_rows m.len false >>= λ bits. ok (from_bits (write keep (rows m) bits))

  unfoldable pub difference : RowMask → RowMask → Result RowMask
  difference m other =
      if is_empty other || is_empty m
      then ok m
      else if is_all other
      then ok (no_rows m.len)
      else filter m (λ row. not (contains other row))

  unfoldable pub union : RowMask → RowMask → Result RowMask
  union m other =
      if is_all m || is_empty other
      then ok m
      else if is_all other || is_empty m
      then ok other
      else filled_rows m.len false >>= λ bits.
          ok (from_bits (write (λ _. true) (rows m ++ rows other) bits))
