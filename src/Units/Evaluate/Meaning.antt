-- ===== src/Units/Evaluate/Meaning.antt =====
-- What an expression means, with no order of evaluation: a conjunction is false if any of its items is.
use axiom_rules_engine.Prelude.{◌≡◌, Bool, true, false, some}
use axiom_rules_engine.Prelude.Ord.{Str, str_ord}
use axiom_rules_engine.BTree.{Map, lookup}
use axiom_rules_engine.Units.Types.{
  FactRef, BoolExpr, BoolExprs, literal, fact, derived, and, or, not, nil, cons, DerivedBool,
}
use axiom_rules_engine.Units.Keys.{key}

mutual
  pub data Value (valuation : Map Str Bool) (rules : Map Str DerivedBool)
      : BoolExpr → Bool → Type 0 where
    literal_value : {b : Bool} → Value valuation rules (literal b) b
    fact_value :
        {f : FactRef} {b : Bool}
        → lookup (key f) valuation ≡ some b
        → Value valuation rules (fact f) b
    derived_value :
        {r : Str} {b : Bool} (rule : DerivedBool)
        → lookup r rules ≡ some rule
        → Value valuation rules rule.expr b
        → Value valuation rules (derived r) b
    and_true :
        {items : BoolExprs}
        → AllValues valuation rules true items
        → Value valuation rules (and items) true
    and_false :
        {items : BoolExprs}
        → SomeValue valuation rules false items
        → Value valuation rules (and items) false
    or_true :
        {items : BoolExprs}
        → SomeValue valuation rules true items
        → Value valuation rules (or items) true
    or_false :
        {items : BoolExprs}
        → AllValues valuation rules false items
        → Value valuation rules (or items) false
    not_true : {e : BoolExpr} → Value valuation rules e false → Value valuation rules (not e) true
    not_false : {e : BoolExpr} → Value valuation rules e true → Value valuation rules (not e) false

  pub data AllValues (valuation : Map Str Bool) (rules : Map Str DerivedBool)
      : Bool → BoolExprs → Type 0 where
    none_left : {b : Bool} → AllValues valuation rules b nil
    one_more :
        {b : Bool} {e : BoolExpr} {items : BoolExprs}
        → Value valuation rules e b
        → AllValues valuation rules b items
        → AllValues valuation rules b (cons e items)

  pub data SomeValue (valuation : Map Str Bool) (rules : Map Str DerivedBool)
      : Bool → BoolExprs → Type 0 where
    this_one :
        {b : Bool} {e : BoolExpr} {items : BoolExprs}
        → Value valuation rules e b
        → SomeValue valuation rules b (cons e items)
    later_one :
        {b : Bool} {e : BoolExpr} {items : BoolExprs}
        → SomeValue valuation rules b items
        → SomeValue valuation rules b (cons e items)

mutual
  -- The expression names the derived expression.
  pub data Uses : BoolExpr → Str → Type 0 where
    itself : {r : Str} → Uses (derived r) r
    in_and : {items : BoolExprs} {r : Str} → UsesAny items r → Uses (and items) r
    in_or : {items : BoolExprs} {r : Str} → UsesAny items r → Uses (or items) r
    in_not : {e : BoolExpr} {r : Str} → Uses e r → Uses (not e) r

  pub data UsesAny : BoolExprs → Str → Type 0 where
    in_head : {e : BoolExpr} {items : BoolExprs} {r : Str} → Uses e r → UsesAny (cons e items) r
    in_tail :
        {e : BoolExpr} {items : BoolExprs} {r : Str} → UsesAny items r → UsesAny (cons e items) r

abbrev pub Needs : Map Str DerivedBool → Str → Str → Type 0
Needs rules r s = (rule : DerivedBool) × (lookup r rules ≡ some rule) × Uses rule.expr s

-- By one naming or more.
pub data Chain (rules : Map Str DerivedBool) : Str → Str → Type 0 where
  direct : {r s : Str} → Needs rules r s → Chain rules r s
  onward : {r s t : Str} → Chain rules r s → Needs rules s t → Chain rules r t
