-- ===== src/Units/Precedence.antt =====
-- Which cuts precede others (src/unit_derivation/evaluate.rs, `cut_set_precedes`). The stack of pending cuts
-- stands with its top first. The loop runs on a fuel of one more than the cuts it starts from and the
-- orders of all rules.
pub mod Orders
pub mod Outranks
use axiom_rules_engine.Prelude.{
  ℕ, zero, suc, ◌+◌, Bool, true, false, Option, none, some, List, [], ◌∷◌, length, if◌then◌else◌,
}
use axiom_rules_engine.Prelude.Ord.{Str, str_ord}
use axiom_rules_engine.BTree.{Map, Set, lookup, mem, set_insert}
use axiom_rules_engine.Units.Types.{CutRule, CutOrder}

-- An answer, a panic on a cut without a rule, or a lack of fuel.
pub data Answer : Type 0 where
  answer : Bool → Answer
  missing_rule no_fuel : Answer

-- The orders of one rule: `none` where one names a lower cut, and otherwise the stack with them.
abbrev pub push_orders : Set Str → List CutOrder → List Str → Option (List Str)
push_orders lower [] pending = some pending
push_orders lower (order ∷ orders) pending =
    if mem order.lower_priority_cut lower
    then none
    else push_orders lower orders (order.lower_priority_cut ∷ pending)

abbrev pub after_orders : Option (List Str) → (List Str → Answer) → Answer
after_orders none go_on = answer true
after_orders (some pending) go_on = go_on pending

abbrev pub after_lookup : Option CutRule → (CutRule → Answer) → Answer
after_lookup none go_on = missing_rule
after_lookup (some rule) go_on = go_on rule

unfoldable pub precedes_from : ℕ → Map Str CutRule → Set Str → List Str → Set Str → Answer
precedes_from zero cuts lower pending visited = no_fuel
precedes_from (suc f) cuts lower [] visited = answer false
precedes_from (suc f) cuts lower (id ∷ pending) visited = elim (mem id visited) [
  | true ↦ precedes_from f cuts lower pending visited
  | false ↦ after_lookup (lookup id cuts) (λ rule.
      after_orders (push_orders lower rule.precedes pending)
        (λ pushed. precedes_from f cuts lower pushed (set_insert id visited)))
]

-- The elements of a set, the last one first.
abbrev pub stacked : List Str → List Str → List Str
stacked [] pending = pending
stacked (id ∷ ids) pending = stacked ids (id ∷ pending)

-- The orders of the rules not visited.
abbrev pub orders_left : Map Str CutRule → Set Str → ℕ
orders_left [] visited = 0
orders_left ((id, rule) ∷ cuts) visited =
    (if mem id visited then 0 else length rule.precedes) + orders_left cuts visited

unfoldable pub cut_set_precedes : Map Str CutRule → (higher lower : Set Str) → Answer
unfolding precedes_from
cut_set_precedes cuts higher lower =
    precedes_from (suc (length higher + orders_left cuts [])) cuts lower (stacked higher []) []
