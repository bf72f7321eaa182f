-- ===== src/Rows/Naming.antt =====
-- A `match` failure names the innermost rule that it leaves (src/lazy.rs, `RowErrors::within_rule`, and
-- src/engine.rs, `EvalError::within_rule`).
use axiom_rules_engine.Prelude.{
  ℕ, ◌≡◌, ◌≢◌, refl, sym, ◌∙◌, ap, subst, Option, none, some, List, [], ◌∷◌, arith,
}
use axiom_rules_engine.Prelude.Ord.{Str, nat_ord}
use axiom_rules_engine.BTree.{Map, lookup}
use axiom_rules_engine.Model.Platform.{Platform}
use axiom_rules_engine.Engine.Errors.{EvalError, within_rule}
use axiom_rules_engine.Rows.Errors.{
  QuotedValue, QuotedError, name_error, quoted_within_rule, RowError, ready, shared, RowErrors, get,
  row_within_rule, rename_entries, errors_within_rule,
}

-- A failure to match that names no rule yet.
abbrev pub IsUnnamedQuoted : QuotedError → Type 0
IsUnnamedQuoted (QuotedError.no_matching_arm [] subject value patterns) = Unit
IsUnnamedQuoted _ = ⊥

module _ ⦃p : Platform⦄ where
  abbrev pub IsUnnamed : RowError → Type 0
  IsUnnamed (ready (EvalError.no_matching_arm [] subject value patterns)) = Unit
  IsUnnamed (ready _) = ⊥
  IsUnnamed (shared quoted) = IsUnnamedQuoted quoted.error

  -- The second error is the first with the rule filled in where it names none, and otherwise the same.
  pub data Named (rule : Str) : RowError → RowError → Type 0 where
    filled :
        {subject value patterns : Str}
        → Named rule
            (ready (EvalError.no_matching_arm [] subject value patterns))
            (ready (EvalError.no_matching_arm rule subject value patterns))
    filled_quoted :
        {rows : ℕ} {subject : Str} {value : QuotedValue} {patterns : Str}
        → Named rule
            (shared (record {
              rows = rows;
              error = QuotedError.no_matching_arm [] subject value patterns;
            }))
            (shared (record {
              rows = rows;
              error = QuotedError.no_matching_arm rule subject value patterns;
            }))
    kept : {error : RowError} → (IsUnnamed error → ⊥) → Named rule error error

  quoted-Named :
      (rule : Str) (rows : ℕ) (error : QuotedError)
      → Named rule
          (shared (record { rows = rows; error = error }))
          (row_within_rule (shared (record { rows = rows; error = error })) rule)
  unfolding row_within_rule quoted_within_rule name_error
  quoted-Named rule rows (QuotedError.no_matching_arm [] subject value patterns) = filled_quoted
  quoted-Named rule rows (QuotedError.no_matching_arm (c ∷ s) subject value patterns) =
      kept (λ u. u)
  quoted-Named rule rows (QuotedError.lifetime_period_varying_input a b c d e) = kept (λ u. u)
  quoted-Named rule rows (QuotedError.over_periods_top_n_period_varying a b c d e) = kept (λ u. u)

  row_within_rule-Named :
      (rule : Str) (error : RowError) → Named rule error (row_within_rule error rule)
  unfolding row_within_rule within_rule
  row_within_rule-Named rule (ready (EvalError.no_matching_arm [] subject value patterns)) = filled
  row_within_rule-Named rule (ready (EvalError.no_matching_arm (c ∷ s) subject value patterns)) =
      kept (λ u. u)
  row_within_rule-Named rule (shared quoted) = quoted-Named rule quoted.rows quoted.error
  row_within_rule-Named rule (ready other) = kept (λ u. u)

  -- Once it names a rule, or if it is no failure to match, an error stays as it is.
  settled :
      (rule : Str) (error : RowError) → (IsUnnamed error → ⊥) → row_within_rule error rule ≡ error
  settled rule error n =
      same error (row_within_rule error rule) n (row_within_rule-Named rule error)
    where
      same : (a b : RowError) → (IsUnnamed a → ⊥) → Named rule a b → b ≡ a
      same a b n filled = absurd (n tt)
      same a b n filled_quoted = absurd (n tt)
      same a b n (kept m) = refl

  settles : (rule : Str) (a b : RowError) → rule ≢ [] → Named rule a b → IsUnnamed b → ⊥
  settles [] a b h n u = h refl
  settles (c ∷ s) a b h filled u = u
  settles (c ∷ s) a b h filled_quoted u = u
  settles (c ∷ s) a b h (kept m) u = m u

  -- Row by row: no error before and after, or an error and what it becomes.
  abbrev pub IsNamedBy : Str → Option RowError → Option RowError → Type 0
  IsNamedBy rule none none = Unit
  IsNamedBy rule (some before) (some after) = Named rule before after
  IsNamedBy rule none (some after) = ⊥
  IsNamedBy rule (some before) none = ⊥

  abbrev rename : Str → Option RowError → Option RowError
  rename rule none = none
  rename rule (some error) = some (row_within_rule error rule)

  lookup-rename_entries :
      (r : ℕ) (entries : Map ℕ RowError) (rule : Str)
      → lookup r (rename_entries entries rule) ≡ rename rule (lookup r entries)
  unfolding lookup rename_entries
  lookup-rename_entries r [] rule = refl
  lookup-rename_entries r ((row, error) ∷ rest) rule =
      ground (arith, lookup-rename_entries r rest rule)

  get-errors_within_rule :
      (e : RowErrors) (rule : Str) (r : ℕ)
      → get (errors_within_rule e rule) r ≡ rename rule (get e r)
  unfolding get errors_within_rule
  get-errors_within_rule e rule r = lookup-rename_entries r e.errors rule

  -- The errors leave the rules one after another, the innermost first.
  abbrev pub leave : RowErrors → List Str → RowErrors
  leave e [] = e
  leave e (rule ∷ outer) = leave (errors_within_rule e rule) outer

  leave-settled :
      (e : RowErrors) (outer : List Str) (r : ℕ) (o : Option RowError)
      → get e r ≡ o
      → ((error : RowError) → o ≡ some error → IsUnnamed error → ⊥)
      → get (leave e outer) r ≡ o
  leave-settled e [] r o g n = g
  leave-settled e (rule ∷ outer) r o g n =
      leave-settled (errors_within_rule e rule) outer r o
        (get-errors_within_rule e rule r ∙ ap (rename rule) g ∙ unchanged o n) n
    where
      unchanged :
          (o : Option RowError)
          → ((error : RowError) → o ≡ some error → IsUnnamed error → ⊥)
          → rename rule o ≡ o
      unchanged none n = refl
      unchanged (some error) n = ap some (settled rule error (n error refl))

  -- When row errors leave a rule with a name and then any rules around it, a row has an error
  -- afterwards exactly if it had one before, and it is that error with the inner rule filled in
  -- where it was a failure to match that named no rule, and otherwise unchanged.
  pub leave-IsNamedBy :
      (e : RowErrors) (inner : Str) (outer : List Str) (r : ℕ)
      → inner ≢ []
      → IsNamedBy inner (get e r) (get (leave e (inner ∷ outer)) r)
  leave-IsNamedBy e inner outer r h =
      subst (IsNamedBy inner (get e r))
        (sym (
          leave-settled (errors_within_rule e inner) outer r (rename inner (get e r))
            (get-errors_within_rule e inner r) (named (get e r))))
        (by_rename (get e r))
    where
      some-eq : (x y : RowError) → some x ≡ some y → x ≡ y
      some-eq x y e' = cc

      named :
          (o : Option RowError) (error : RowError)
          → rename inner o ≡ some error
          → IsUnnamed error
          → ⊥
      named none error e' u = cc
      named (some before) error e' u =
          settles inner before (row_within_rule before inner) h (row_within_rule-Named inner before)
            (subst IsUnnamed (sym (some-eq (row_within_rule before inner) error e')) u)

      by_rename : (o : Option RowError) → IsNamedBy inner o (rename inner o)
      by_rename none = tt
      by_rename (some before) = row_within_rule-Named inner before
