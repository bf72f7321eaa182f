-- ===== src/Tests/Formula.antt =====
-- Witnesses of the theorems on the lexer.
use axiom_rules_engine.Prelude.Text.{codes}
use axiom_rules_engine.Formula.Lexer.{tokenise}
use axiom_rules_engine.Formula.Lexer.Positions.{Faithful, tokenise-Faithful}

tokenise-Faithful_example :
    Faithful
      (codes "if income >= 1_000: rate / 2 else: 0")
      (tokenise (codes "if income >= 1_000: rate / 2 else: 0"))
tokenise-Faithful_example = tokenise-Faithful (codes "if income >= 1_000: rate / 2 else: 0")
