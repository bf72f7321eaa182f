-- ===== src/Formula/Ast.antt =====
-- The syntax trees of rule formulas (src/formula.rs, `Expr` to `Module`). The lists inside calls and
-- matches are types of the block, as is the optional wildcard arm.
use axiom_rules_engine.Prelude.{Bool, Option, none, List, []}
use axiom_rules_engine.Prelude.Int.{ℤ}
use axiom_rules_engine.Prelude.Ord.{Str}
use axiom_rules_engine.Model.Platform.{Platform}

pub data BinOpKind : Type 0 where
  add sub mul div lt gt le ge eq ne and or : BinOpKind

pub data UnaryOpKind : Type 0 where
  neg not : UnaryOpKind

module _ ⦃p : Platform⦄ where
  open p use {NaiveDate, Decimal}

  mutual
    pub data Expr : Type 0 where
      lit_int : ℤ → Expr
      lit_float : Decimal → Expr
      lit_str : Str → Expr
      lit_bool : Bool → Expr
      var : Str → Expr
      bin_op : BinOpKind → Expr → Expr → Expr
      unary_op : UnaryOpKind → Expr → Expr
      call : Str → Args → Expr
      field_access : Expr → Str → Expr
      index : Expr → Expr → Expr
      cond : Expr → Expr → Expr → Expr
      match' : Expr → Cases → Default → Expr

    pub data Args : Type 0 where
      no_args : Args
      arg : Expr → Args → Args

    pub data Cases : Type 0 where
      no_cases : Cases
      case : Expr → Expr → Cases → Cases

    pub data Default : Type 0 where
      no_default : Default
      default : Expr → Default

  pub record TemporalValue : Type 0 where
    pub start : NaiveDate
    pub end : Option NaiveDate
    pub expr : Expr

  pub record VariableDecl : Type 0 where
    pub path : Str
    pub entity : Option Str
    pub dtype : Option Str
    pub period : Option Str
    pub unit : Option Str
    pub source : Option Str
    pub source_url : Option Str
    pub label : Option Str
    pub description : Option Str
    pub default_value : Option Str
    pub indexed_by : Option Str
    pub values : List TemporalValue

  -- `VariableDecl { path, ..Default::default() }`
  unfoldable pub declared : Str → VariableDecl
  declared path = record {
    path = path;
    entity = none;
    dtype = none;
    period = none;
    unit = none;
    source = none;
    source_url = none;
    label = none;
    description = none;
    default_value = none;
    indexed_by = none;
    values = [];
  }

  pub record Module : Type 0 where
    pub variables : List VariableDecl
