-- ===== src/Rows/Iteration.antt =====
-- What iterating over a mask gives: its rows, each once, in increasing order.
use axiom_rules_engine.Prelude.{
  ℕ, zero, suc, ◌+◌, ◌≤◌, ◌<◌, ◌≡◌, refl, sym, ◌∙◌, Bool, true, false, ◌&&◌, Option, none, some,
  List, [], ◌∷◌, arith, if◌then◌else◌, ltb, leb, length, get_or, Bool-cases, inl, inr,
}
use axiom_rules_engine.BTree.{mem}
use axiom_rules_engine.Prelude.Ord.{nat_ord}
use axiom_rules_engine.Rows.Mask.{RowMask, RowIter, contains, scan, advance, collect, rows}
use axiom_rules_engine.Rows.Invariant.{ValidBits, IsValid, contains-lt}

-- The numbers of `[from, from + n)` that `P` selects, in order.
abbrev pub selected : (ℕ → Bool) → ℕ → ℕ → List ℕ
selected P from zero = []
selected P from (suc n) = if P from then from ∷ selected P (suc from) n else selected P (suc from) n

pub mem-selected :
    (P : ℕ → Bool) (from n r : ℕ)
    → mem r (selected P from n) ≡ (leb from r && ltb r (from + n) && P r)
mem-selected P from zero r = ground arith
mem-selected P from (suc n) r = ground (arith, mem-selected P (suc from) n r)

-- What one `scan` from `next` over the last `n` rows finds, with `m` rows left behind it.
abbrev Found : (ℕ → Bool) → ℕ → ℕ → Option ℕ × ℕ → Type 0
Found P next n (none, _) = selected P next n ≡ []
Found P next n (some r, after) =
    (m : ℕ) × (after ≡ suc r)
    × (next ≤ r)
    × (suc r + m ≡ next + n)
    × (selected P next n ≡ r ∷ selected P (suc r) m)

Found-suc :
    (P : ℕ → Bool) (next n : ℕ) (res : Option ℕ × ℕ)
    → P next ≡ false
    → Found P (suc next) n res
    → Found P next (suc n) res
Found-suc P next n (none, _) miss h = rw miss h
Found-suc P next n (some r, after) miss (m, e, l, k, h) =
    rw miss (m, e, omega arith, omega arith, h)

scan-Found :
    (fuel : ℕ) (bits : List Bool) (next n : ℕ)
    → next + n ≡ length bits
    → n < fuel
    → Found (λ r. get_or bits r false) next n (scan fuel bits next)
unfolding scan
scan-Found zero bits next n e h = absurd (omega arith)
scan-Found (suc fuel) bits next zero e h = ground arith
scan-Found (suc fuel) bits next (suc n) e h =
    let inside : ltb next (length bits) ≡ true = ground arith in
    elim (Bool-cases (get_or bits next false)) [
      | inl hit ↦ rw (inside, hit) (n, refl, omega arith, omega arith, rw hit)
      | inr miss ↦
          rw (inside, miss)
            (Found-suc (λ r. get_or bits r false) next n _ miss
              (scan-Found fuel bits (suc next) n (omega arith) (omega arith)))
    ]

abbrev iter : ℕ → ℕ → Option (List Bool) → ℕ → RowIter
iter len count bits next = record {
  mask = record { len = len; bits = bits; count = count };
  next = next;
}

-- One round over kept bits, from what the scan found and the rounds after it.
collect-scan :
    (fuel len count : ℕ) (bits : List Bool) (next n : ℕ) (res : Option ℕ × ℕ)
    → Found (λ r. get_or bits r false) next n res
    → next + n ≡ length bits
    → n < suc fuel
    → ((r m : ℕ)
        → suc r + m ≡ length bits
        → m < fuel
        → collect fuel (iter len count (some bits) (suc r))
          ≡ selected (λ r. get_or bits r false) (suc r) m)
    → elim res.0 as (λ _. List ℕ) [
      | none ↦ []
      | some r ↦ r ∷ collect fuel (iter len count (some bits) res.1)
    ]
      ≡ selected (λ r. get_or bits r false) next n
collect-scan fuel len count bits next n (none, after) f e h ih = sym f
collect-scan fuel len count bits next n (some r, after) (m, e', l, k', f) e h ih =
    rw (e', ih r m (omega arith) (omega arith)) (sym f)

-- The iterator over kept bits, then over a mask that keeps none.
collect-bits :
    (fuel len count : ℕ) (bits : List Bool) (next n : ℕ)
    → next + n ≡ length bits
    → n < fuel
    → collect fuel (iter len count (some bits) next) ≡ selected (λ r. get_or bits r false) next n
unfolding collect advance
collect-bits zero len count bits next n e h = absurd (omega arith)
collect-bits (suc fuel) len count bits next n e h =
    collect-scan fuel len count bits next n (scan (suc (length bits)) bits next)
      (scan-Found (suc (length bits)) bits next n e (omega arith)) e h
      (λ r m. collect-bits fuel len count bits (suc r) m)

collect-all :
    (fuel len next n : ℕ)
    → next + n ≡ len
    → n < fuel
    → collect fuel (iter len len none next) ≡ selected (λ r. ltb r len) next n
unfolding collect advance
collect-all zero len next n e h = absurd (omega arith)
collect-all (suc fuel) len next zero e h = ground arith
collect-all (suc fuel) len next (suc n) e h = ground (arith, collect-all fuel len (suc next) n)

selected-congr :
    (P Q : ℕ → Bool) (from n : ℕ) → ((r : ℕ) → P r ≡ Q r) → selected P from n ≡ selected Q from n
selected-congr P Q from zero h = refl
selected-congr P Q from (suc n) h = ground (arith, h from, selected-congr P Q (suc from) n h)

selected-none : (from n : ℕ) → selected (λ _. false) from n ≡ []
selected-none from zero = refl
selected-none from (suc n) = selected-none (suc from) n

contains-bare :
    (len count r : ℕ)
    → count ≡ 0
    → contains (record { len = len; bits = none; count = count }) r ≡ false
unfolding contains
contains-bare len count r e = ground arith

contains-full :
    (len r : ℕ) → contains (record { len = len; bits = none; count = len }) r ≡ ltb r len
unfolding contains
contains-full len r = ground arith

collect-bare : (fuel len count : ℕ) → count ≡ 0 → collect (suc fuel) (iter len count none 0) ≡ []
unfolding collect advance
collect-bare fuel len count e = ground arith

rows_parts :
    (len count : ℕ) (bits : Option (List Bool))
    → ValidBits len count bits
    → rows (record { len = len; bits = bits; count = count })
      ≡ selected (contains (record { len = len; bits = bits; count = count })) 0 len
unfolding rows
rows_parts len count none (inl bare) =
    collect-bare len len count bare
    ∙ sym (
        selected-congr _ (λ _. false) 0 len (λ r. contains-bare len count r bare)
        ∙ selected-none 0 len)
rows_parts len count none (inr full) = rw full (
    collect-all (suc len) len 0 len (omega arith) (omega arith)
    ∙ sym (selected-congr _ _ 0 len (contains-full len)))
rows_parts len count (some bits) (e, c, p, q) = rw (← e) (
    unfold contains in
    collect-bits (suc (length bits)) _ count bits 0 _ (omega arith) (omega arith))

-- Iterating over a well-formed mask gives the rows it holds, each once and in increasing order.
pub rows-selected : (m : RowMask) → IsValid m → rows m ≡ selected (contains m) 0 m.len
rows-selected m v = rows_parts m.len m.count m.bits v

-- Iterating over a mask meets a row exactly if the mask holds it.
pub mem-rows : (m : RowMask) (r : ℕ) → IsValid m → mem r (rows m) ≡ contains m r
mem-rows m r v = rw (rows-selected m v, mem-selected) (ground (arith, contains-lt m r v))
