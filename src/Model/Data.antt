-- ===== src/Model/Data.antt =====
-- Periods, intervals and the records of a dataset (src/model.rs).
use axiom_rules_engine.Prelude.{Bool, ◌&&◌, List, [], ◌∷◌, ◌++◌}
use axiom_rules_engine.Prelude.Ord.{Str}
use axiom_rules_engine.Model.Platform.{Platform, date_le}
use axiom_rules_engine.Model.Values.{ScalarValue}

pub data PeriodKind : Type 0 where
  month benefit_week tax_year : PeriodKind
  custom : Str → PeriodKind

module _ ⦃p : Platform⦄ where
  open p use {NaiveDate}

  pub record Period : Type 0 where
    pub kind : PeriodKind
    pub start : NaiveDate
    pub end : NaiveDate

  pub record Interval : Type 0 where
    pub start : NaiveDate
    pub end : NaiveDate

  unfoldable pub covering : Period → Interval
  covering period = record { start = period.start; end = period.end }

  unfoldable pub contains_period : Interval → Period → Bool
  contains_period interval period =
      date_le interval.start period.start && date_le period.end interval.end

  pub record InputRecord : Type 0 where
    pub name : Str
    pub entity : Str
    pub entity_id : Str
    pub interval : Interval
    pub value : ScalarValue

  pub record RelationRecord : Type 0 where
    pub name : Str
    pub tuple : List Str
    pub interval : Interval

  pub record DataSet : Type 0 where
    pub inputs : List InputRecord
    pub relations : List RelationRecord

  unfoldable pub add_input : DataSet → Str → Str → Str → Interval → ScalarValue → DataSet
  add_input data' name entity entity_id interval value = record data' {
    inputs =
        data'.inputs
        ++ record {
          name = name;
          entity = entity;
          entity_id = entity_id;
          interval = interval;
          value = value;
        }
          ∷ [];
  }

  unfoldable pub add_relation : DataSet → Str → List Str → Interval → DataSet
  add_relation data' name tuple interval = record data' {
    relations = data'.relations ++ record { name = name; tuple = tuple; interval = interval } ∷ [];
  }
