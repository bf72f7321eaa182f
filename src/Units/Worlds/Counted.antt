-- ===== src/Units/Worlds/Counted.antt =====
-- The number of worlds (src/unit_derivation/evaluate.rs, `variable_world_count`), and of those enumerated.
use axiom_rules_engine.Prelude.{
  ℕ, ◌*◌, ◌-◌, ◌≤◌, ◌<◌, ◌≡◌, refl, Bool, false, List, [], ◌∷◌, length, length-append, flat_map,
  ltb, ltb→lt, lt→ltb, All, Bool-cases, inl, inr, arith, if◌then◌else◌,
}
use axiom_rules_engine.Prelude.Ord.{Str, str_ord}
use axiom_rules_engine.BTree.{Map, insert}
use axiom_rules_engine.Units.Types.{ok, err, uncheckable_world_space}
use axiom_rules_engine.Units.Worlds.{
  Variable, usize_limit, count_from, variable_world_count, enumerate_worlds,
}

-- The product of the numbers of candidates.
unfoldable pub world_product : List Variable → ℕ
world_product [] = 1
world_product ((key, values) ∷ variables) = length values * world_product variables

-- Every variable has a candidate.
abbrev pub HaveCandidates : List Variable → Type 0
HaveCandidates variables = All (λ v. 1 ≤ length v.1) variables

world_product_pos :
    (variables : List Variable) → HaveCandidates variables → 1 ≤ world_product variables
unfolding world_product
world_product_pos [] h = omega arith
world_product_pos ((key, values) ∷ variables) h =
    let rest = world_product_pos variables h.1 in let first = h.0 in grind arith

mul_regroup : (c l p : ℕ) → c * (l * p) ≡ c * l * p
mul_regroup c l p = grind arith

mul-ge : (a p m : ℕ) → m ≤ a → 1 ≤ p → m ≤ a * p
mul-ge a p m h k = grind arith

le_of_not_lt : (a m : ℕ) → ltb a m ≡ false → m ≤ a
le_of_not_lt a m h = ground arith

not_lt_of_le : (a m : ℕ) → m ≤ a → ltb a m ≡ false
not_lt_of_le a m h = ground arith

length-flat_map :
    {A B : Type 0} (f : A → List B) (n : ℕ)
    → ((a : A) → length (f a) ≡ n)
    → (l : List A) → length (flat_map f l) ≡ length l * n
length-flat_map f n h [] = omega arith
length-flat_map f n h (a ∷ l) =
    let rest = length-flat_map f n h l in
    let first = h a in let whole = length-append (f a) (flat_map f l) in grind arith

count_from-product :
    (c : ℕ) (variables : List Variable)
    → c < usize_limit
    → HaveCandidates variables
    → count_from c variables ≡ (
        if ltb (c * world_product variables) usize_limit
        then ok (c * world_product variables)
        else err (uncheckable_world_space (usize_limit - 1) (usize_limit - 1)))
unfolding count_from world_product
count_from-product c [] b h =
    let one : c * 1 ≡ c = omega arith in rw (one, lt→ltb c usize_limit b) refl
count_from-product c ((key, values) ∷ variables) b h =
    elim (Bool-cases (ltb (c * length values) usize_limit)) [
      | inl t ↦
          rw (t, mul_regroup c (length values) (world_product variables))
            (count_from-product (c * length values) variables (ltb→lt _ _ t) h.1)
      | inr f ↦
          let least = le_of_not_lt (c * length values) usize_limit f in
          let large =
            mul-ge (c * length values) (world_product variables) usize_limit least
              (world_product_pos variables h.1) in
          rw
            (
              f,
              mul_regroup c (length values) (world_product variables),
              not_lt_of_le (c * length values * world_product variables) usize_limit large,
            )
            refl
    ]

length-enumerate :
    (variables : List Variable) (valuation : Map Str Bool)
    → length (enumerate_worlds variables valuation) ≡ world_product variables
unfolding enumerate_worlds world_product
length-enumerate [] valuation = refl
length-enumerate ((key, values) ∷ variables) valuation =
    length-flat_map (λ value. enumerate_worlds variables (insert key value valuation))
      (world_product variables) (λ value. length-enumerate variables (insert key value valuation))
      values

-- If every variable has a candidate, the count is the number of the worlds enumerated, where a `usize`
-- holds it, and otherwise the error.
pub variable_world_count-length :
    (variables : List Variable) (valuation : Map Str Bool)
    → HaveCandidates variables
    → variable_world_count variables ≡ (
        if ltb (length (enumerate_worlds variables valuation)) usize_limit
        then ok (length (enumerate_worlds variables valuation))
        else err (uncheckable_world_space (usize_limit - 1) (usize_limit - 1)))
unfolding variable_world_count
variable_world_count-length variables valuation h =
    let one : 1 * world_product variables ≡ length (enumerate_worlds variables valuation) =
      omega (arith, length-enumerate variables valuation) in
    rw (← one) (count_from-product 1 variables (omega arith) h)
