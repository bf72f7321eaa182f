-- ===== src/Formula/Parser/DeclarationsEnd.antt =====
-- The parser of declarations ends (src/formula.rs, `parse_module`, `parse_source`): every round of its
-- loops takes a token.
use axiom_rules_engine.Prelude.{
  ℕ, zero, suc, ◌+◌, ◌*◌, ◌<◌, ◌≡◌, ◌≢◌, refl, ◌==◌, true, false, ◌&&◌, ◌||◌, [], ◌∷◌, ◌++◌, length,
  arith,
}
use axiom_rules_engine.Prelude.Ord.{Str}
use axiom_rules_engine.Prelude.Text.{codes}
use axiom_rules_engine.Model.Platform.{Platform}
use axiom_rules_engine.Formula.Tokens.{TokType, Token, same_type}
use axiom_rules_engine.Formula.Ast.{VariableDecl, Module, declared}
use axiom_rules_engine.Formula.Lexer.{tokenise, Outcome, lexed}
use axiom_rules_engine.Formula.Lexer.Positions.{Faithful, end_of, tokenise-Faithful}
use axiom_rules_engine.Formula.Parser.{Tokens, Parse, pure, ◌>>◌, ◌>>=◌, consume, is_any, peek, at}
use axiom_rules_engine.Formula.Parser.Ensures.{
  Ensures, gives, refuses, Shorter, Kept, Ensures-weaken, Ensures-bind, Ensures-choose,
  Ensures-when_some, consume-Shorter, consume-Kept, advance-Kept, advance-Shorter, not_end,
}
use axiom_rules_engine.Formula.Parser.Ends.{parse_expr-Ends}
use axiom_rules_engine.Formula.Parser.Declarations.{
  skip_brackets, depth_after, skip_suffix, metadata_from, metadata_value, parse_path, field_type,
  entity_fields, skip_entity, skip_target, skip_end, until, temporal_value, temporal_values,
  at_metadata, metadata, parse_variable, amended_values, skip_amend, at_bare_status, at_declaration,
  declarations, panics, unfinished, as_source, last_token, parse_module, parse_lexed, parse_source,
}

module _ (last : Token) (closed : last.ty ≡ TokType.eof) where
  skip_brackets-Ends :
      (f depth : ℕ) (ts : Tokens)
      → length ts < f
      → Ensures (Kept ts) (skip_brackets last f depth ts)
  unfolding skip_brackets
  skip_brackets-Ends zero depth ts h = absurd (omega arith)
  skip_brackets-Ends (suc f) depth [] h =
      Ensures-choose (depth == 0 || same_type last.ty TokType.eof) _ _ (λ _. gives (omega arith))
        (λ e. let stop : (depth == 0 || true) ≡ false = rw closed at e in absurd (ground arith))
  skip_brackets-Ends (suc f) depth (t ∷ ts) h =
      Ensures-choose (depth == 0 || same_type t.ty TokType.eof) _ _ (λ _. gives (omega arith))
        λ _.
          Ensures-weaken (skip_brackets-Ends f (depth_after t.ty depth) ts (omega arith))
            λ _ _ q. omega arith

  skip_suffix-Ends :
      (f : ℕ) (ts : Tokens) → length ts < f → Ensures (Kept ts) (skip_suffix last f ts)
  skip_suffix-Ends f ts h =
      Ensures-choose (at last (TokType.lbracket ∷ []) ts) _ _
        (λ _. Ensures-bind (consume-Shorter last closed TokType.lbracket ts refl) λ _ ts₁ q₁.
          Ensures-weaken (skip_brackets-Ends f 1 ts₁ (omega arith)) λ _ _ q₂. omega arith)
        (λ _. gives (omega arith))

  suffixed-Ends :
      (f : ℕ) (ty : TokType) (ts : Tokens)
      → same_type TokType.eof ty ≡ false
      → length ts < f
      → Ensures (Shorter ts) ((consume last ty >>= λ t. skip_suffix last f >> pure t.value) ts)
  suffixed-Ends f ty ts e h = Ensures-bind (consume-Shorter last closed ty ts e) λ t ts₁ q₁.
      Ensures-bind (skip_suffix-Ends f ts₁ (omega arith)) λ _ ts₂ q₂. gives (omega arith)

  one-Ends :
      (ty : TokType) (k : Token → Str) (ts : Tokens)
      → same_type TokType.eof ty ≡ false
      → Ensures (Shorter ts) ((consume last ty >>= λ t. pure (k t)) ts)
  one-Ends ty k ts e = Ensures-bind (consume-Shorter last closed ty ts e) λ t ts₁ q₁. gives q₁

  metadata_from-Ends :
      (f : ℕ) (ty : TokType) (tok : Token) (ts : Tokens)
      → length ts < f
      → Ensures (Shorter ts) (metadata_from last f ty tok ts)
  metadata_from-Ends f TokType.string tok ts h = one-Ends TokType.string (λ t. t.value) ts refl
  metadata_from-Ends f TokType.ident tok ts h = suffixed-Ends f TokType.ident ts refl h
  metadata_from-Ends f TokType.int tok ts h = suffixed-Ends f TokType.int ts refl h
  metadata_from-Ends f TokType.float tok ts h = suffixed-Ends f TokType.float ts refl h
  metadata_from-Ends f TokType.path tok ts h = one-Ends TokType.path (λ t. t.value) ts refl
  metadata_from-Ends f TokType.minus tok ts h =
      Ensures-bind (consume-Shorter last closed TokType.minus ts refl) λ _ ts₁ q₁.
        Ensures-bind (consume-Kept last closed (peek last ts₁ 0).ty ts₁)
          λ t ts₂ q₂. gives (omega arith)
  metadata_from-Ends f TokType.true' tok ts h = one-Ends TokType.true' (λ _. codes "true") ts refl
  metadata_from-Ends f TokType.false' tok ts h =
      one-Ends TokType.false' (λ _. codes "false") ts refl
  metadata_from-Ends f _ tok ts h = refuses

  parse_path-Ends : (ts : Tokens) → Ensures (Shorter ts) (parse_path last ts)
  unfolding parse_path
  parse_path-Ends ts =
      Ensures-choose (at last (TokType.path ∷ []) ts) _ _
        (λ _. one-Ends TokType.path (λ t. t.value) ts refl)
        (λ _. one-Ends TokType.ident (λ t. t.value) ts refl)

  field_type-Ends : (ts : Tokens) → Ensures (Shorter ts) (field_type last ts)
  field_type-Ends ts =
      Ensures-choose (at last (TokType.fk ∷ []) ts) _ _
        (λ _. Ensures-bind (consume-Shorter last closed TokType.fk ts refl) λ _ ts₁ q₁.
          Ensures-weaken (consume-Shorter last closed TokType.ident ts₁ refl) λ _ _ q₂. omega arith)
        λ _.
          Ensures-choose (at last (TokType.lbracket ∷ []) ts) _ _
            (λ _. Ensures-bind (consume-Shorter last closed TokType.lbracket ts refl) λ _ ts₁ q₁.
              Ensures-bind (consume-Shorter last closed TokType.ident ts₁ refl) λ _ ts₂ q₂.
                Ensures-weaken (consume-Shorter last closed TokType.rbracket ts₂ refl)
                  λ _ _ q₃. omega arith)
            (λ _. consume-Shorter last closed TokType.ident ts refl)

  entity_fields-Ends :
      (f : ℕ) (ts : Tokens) → length ts < f → Ensures (Kept ts) (entity_fields last f ts)
  unfolding entity_fields
  entity_fields-Ends zero ts h = absurd (omega arith)
  entity_fields-Ends (suc f) ts h =
      Ensures-choose
        (same_type (peek last ts 0).ty TokType.ident
          && same_type (peek last ts 1).ty TokType.colon
          && is_any (peek last ts 2).ty (TokType.ident ∷ TokType.lbracket ∷ TokType.fk ∷ []))
        _ _
        (λ _. Ensures-bind (consume-Shorter last closed TokType.ident ts refl) λ _ ts₁ q₁.
          Ensures-bind (consume-Shorter last closed TokType.colon ts₁ refl) λ _ ts₂ q₂.
            Ensures-bind (field_type-Ends ts₂) λ _ ts₃ q₃.
              Ensures-weaken (entity_fields-Ends f ts₃ (omega arith)) λ _ _ q₄. omega arith)
        (λ _. gives (omega arith))

  skip_entity-Ends :
      (f : ℕ) (ts : Tokens) → length ts < f → Ensures (Shorter ts) (skip_entity last f ts)
  unfolding skip_entity
  skip_entity-Ends f ts h =
      Ensures-bind (consume-Shorter last closed TokType.entity ts refl) λ _ ts₁ q₁.
        Ensures-bind (consume-Shorter last closed TokType.ident ts₁ refl) λ _ ts₂ q₂.
          Ensures-bind (consume-Shorter last closed TokType.colon ts₂ refl) λ _ ts₃ q₃.
            Ensures-weaken (entity_fields-Ends f ts₃ (omega arith)) λ _ _ q₄. omega arith

  skip_target-Ends : (ts : Tokens) → Ensures (Shorter ts) (skip_target last ts)
  skip_target-Ends ts =
      Ensures-choose (at last (TokType.path ∷ []) ts) _ _
        (λ _. consume-Shorter last closed TokType.path ts refl)
        (λ _. consume-Shorter last closed TokType.ident ts refl)

  skip_end-Ends : (ts : Tokens) → Ensures (Kept ts) (skip_end last ts)
  skip_end-Ends ts =
      Ensures-choose (at last (TokType.to ∷ []) ts) _ _
        (λ _. Ensures-bind (consume-Shorter last closed TokType.to ts refl) λ _ ts₁ q₁.
          Ensures-bind (consume-Shorter last closed TokType.date ts₁ refl)
            λ _ ts₂ q₂. gives (omega arith))
        (λ _. gives (omega arith))

module _ ⦃p : Platform⦄ (last : Token) (closed : last.ty ≡ TokType.eof) where
  until-Ends : (ts : Tokens) → Ensures (Kept ts) (until last ts)
  until-Ends ts =
      Ensures-choose (at last (TokType.to ∷ []) ts) _ _
        (λ _. Ensures-bind (consume-Shorter last closed TokType.to ts refl) λ _ ts₁ q₁.
          Ensures-bind (consume-Shorter last closed TokType.date ts₁ refl) λ t ts₂ q₂.
            Ensures-bind
              (Ensures-when_some {P = Kept ts₂} (p.parse_date t.value) _ _ refuses
                λ d. gives (omega arith))
              λ d ts₃ q₃. gives (omega arith))
        (λ _. gives (omega arith))

  temporal_value-Ends :
      (f : ℕ) (ts : Tokens)
      → 12 * length ts < f + 24
      → Ensures (Shorter ts) (temporal_value last f ts)
  unfolding temporal_value
  temporal_value-Ends f ts h =
      Ensures-bind (consume-Shorter last closed TokType.from ts refl) λ _ ts₁ q₁.
        Ensures-bind (consume-Shorter last closed TokType.date ts₁ refl) λ start_tok ts₂ q₂.
          Ensures-bind
            (Ensures-when_some {P = Kept ts₂} (p.parse_date start_tok.value) _ _ refuses
              λ d. gives (omega arith))
            λ start ts₃ q₃. Ensures-bind (until-Ends ts₃) λ end ts₄ q₄.
              Ensures-bind (consume-Shorter last closed TokType.colon ts₄ refl) λ _ ts₅ q₅.
                Ensures-bind (parse_expr-Ends last closed f ts₅ (omega arith))
                  λ expr ts₆ q₆. gives (omega arith)

  temporal_values-Ends :
      (f : ℕ) (decl : VariableDecl) (ts : Tokens)
      → 12 * length ts < f
      → Ensures (Kept ts) (temporal_values last f decl ts)
  unfolding temporal_values
  temporal_values-Ends zero decl ts h = absurd (omega arith)
  temporal_values-Ends (suc f) decl ts h =
      Ensures-choose (at last (TokType.from ∷ []) ts) _ _
        (λ _. Ensures-bind (temporal_value-Ends f ts (omega arith)) λ v ts₁ q₁.
          Ensures-weaken (temporal_values-Ends f _ ts₁ (omega arith)) λ _ _ q₂. omega arith)
        (λ _. gives (omega arith))

  metadata-Ends :
      (f : ℕ) (decl : VariableDecl) (ts : Tokens)
      → 12 * length ts < f
      → Ensures (Kept ts) (metadata last f decl ts)
  unfolding metadata metadata_value
  metadata-Ends zero decl ts h = absurd (omega arith)
  metadata-Ends (suc f) decl ts h =
      Ensures-choose (at last (TokType.entity ∷ []) ts) _ _
        (λ _. Ensures-bind (consume-Shorter last closed TokType.entity ts refl) λ _ ts₁ q₁.
          Ensures-bind (consume-Shorter last closed TokType.colon ts₁ refl) λ _ ts₂ q₂.
            Ensures-bind (consume-Shorter last closed TokType.ident ts₂ refl) λ t ts₃ q₃.
              Ensures-weaken (metadata-Ends f _ ts₃ (omega arith)) λ _ _ q₄. omega arith)
        λ _.
          Ensures-choose (at_metadata last ts) _ _
            (λ _. Ensures-bind (consume-Shorter last closed TokType.ident ts refl) λ field ts₁ q₁.
              Ensures-bind (consume-Shorter last closed TokType.colon ts₁ refl) λ _ ts₂ q₂.
                Ensures-bind (metadata_from-Ends last closed f _ _ ts₂ (omega arith)) λ v ts₃ q₃.
                  Ensures-weaken (metadata-Ends f _ ts₃ (omega arith)) λ _ _ q₄. omega arith)
            (λ _. gives (omega arith))

  parse_variable-Ends :
      (f : ℕ) (ts : Tokens)
      → 12 * length ts < f + 12
      → Ensures (Shorter ts) (parse_variable last f ts)
  unfolding parse_variable
  parse_variable-Ends f ts h = Ensures-bind (parse_path-Ends last closed ts) λ path ts₁ q₁.
      Ensures-bind (consume-Shorter last closed TokType.colon ts₁ refl) λ _ ts₂ q₂.
        Ensures-bind (metadata-Ends f (declared path) ts₂ (omega arith)) λ decl ts₃ q₃.
          Ensures-weaken (temporal_values-Ends f decl ts₃ (omega arith)) λ _ _ q₄. omega arith

  amended_values-Ends :
      (f : ℕ) (ts : Tokens) → 12 * length ts < f → Ensures (Kept ts) (amended_values last f ts)
  unfolding amended_values
  amended_values-Ends zero ts h = absurd (omega arith)
  amended_values-Ends (suc f) ts h =
      Ensures-choose (at last (TokType.from ∷ []) ts) _ _
        (λ _. Ensures-bind (consume-Shorter last closed TokType.from ts refl) λ _ ts₁ q₁.
          Ensures-bind (consume-Shorter last closed TokType.date ts₁ refl) λ _ ts₂ q₂.
            Ensures-bind (skip_end-Ends last closed ts₂) λ _ ts₃ q₃.
              Ensures-bind (consume-Shorter last closed TokType.colon ts₃ refl) λ _ ts₄ q₄.
                Ensures-bind (parse_expr-Ends last closed f ts₄ (omega arith)) λ _ ts₅ q₅.
                  Ensures-weaken (amended_values-Ends f ts₅ (omega arith)) λ _ _ q₆. omega arith)
        (λ _. gives (omega arith))

  skip_amend-Ends :
      (f : ℕ) (ts : Tokens) → 12 * length ts < f + 12 → Ensures (Shorter ts) (skip_amend last f ts)
  unfolding skip_amend
  skip_amend-Ends f ts h =
      Ensures-bind (consume-Shorter last closed TokType.amend ts refl) λ _ ts₁ q₁.
        Ensures-bind (skip_target-Ends last closed ts₁) λ _ ts₂ q₂.
          Ensures-bind (consume-Shorter last closed TokType.colon ts₂ refl) λ _ ts₃ q₃.
            Ensures-weaken (amended_values-Ends f ts₃ (omega arith)) λ _ _ q₄. omega arith

  pub declarations-Ends :
      (f : ℕ) (module' : Module) (ts : Tokens)
      → 12 * length ts < f
      → Ensures (Kept ts) (declarations last f module' ts)
  unfolding declarations
  declarations-Ends zero module' ts h = absurd (omega arith)
  declarations-Ends (suc f) module' ts h =
      Ensures-choose (same_type (peek last ts 0).ty TokType.eof) _ _ (λ _. gives (omega arith))
        λ more.
          let left : 0 < length ts = not_end last ts closed more in
          Ensures-choose (at last (TokType.entity ∷ []) ts) _ _
            (λ _. Ensures-bind (skip_entity-Ends last closed f ts (omega arith)) λ _ ts₁ q₁.
              Ensures-weaken (declarations-Ends f module' ts₁ (omega arith)) λ _ _ q₂. omega arith)
            λ _.
              Ensures-choose (at last (TokType.amend ∷ []) ts) _ _
                (λ _. Ensures-bind (skip_amend-Ends f ts (omega arith)) λ _ ts₁ q₁.
                  Ensures-weaken (declarations-Ends f module' ts₁ (omega arith))
                    λ _ _ q₂. omega arith)
                λ _.
                  Ensures-choose (at_declaration last ts) _ _
                    (λ _.
                      Ensures-choose (at_bare_status last ts) _ _
                        (λ _. Ensures-bind (advance-Shorter last closed ts left) λ _ ts₁ q₁.
                          Ensures-bind (advance-Kept ts₁) λ _ ts₂ q₂.
                            Ensures-bind (advance-Kept ts₂) λ _ ts₃ q₃.
                              Ensures-weaken (declarations-Ends f module' ts₃ (omega arith))
                                λ _ _ q₄. omega arith)
                        (λ _. Ensures-bind (parse_variable-Ends f ts (omega arith)) λ v ts₁ q₁.
                          Ensures-weaken (declarations-Ends f _ ts₁ (omega arith))
                            λ _ _ q₂. omega arith))
                    (λ _. refuses)

module _ ⦃p : Platform⦄ where
  as_source-Decided :
      {P : Module → Tokens → Type 0} {r : Parse Module}
      → Ensures P r
      → (as_source r ≢ panics) × (as_source r ≢ unfinished)
  as_source-Decided (gives h) = ((λ e. cc), λ e. cc)
  as_source-Decided refuses = ((λ e. cc), λ e. cc)

  last_token-append : (t u : Token) (ts : Tokens) → last_token t (ts ++ u ∷ []) ≡ u
  last_token-append t u [] = refl
  last_token-append t u (s ∷ ts) = last_token-append s u ts

  -- Tokens that end in an end token.
  abbrev pub Closed : Tokens → Type 0
  Closed [] = ⊥
  Closed (t ∷ ts) = (last_token t ts).ty ≡ TokType.eof

  append-Closed : (ts : Tokens) (t : Token) → t.ty ≡ TokType.eof → Closed (ts ++ t ∷ [])
  append-Closed [] t e = e
  append-Closed (s ∷ ts) t e = rw (last_token-append s t ts) e

  -- On tokens that end in an end token the parser gives a module or an error.
  pub parse_module-Decided :
      (ts : Tokens) → Closed ts → (parse_module ts ≢ panics) × (parse_module ts ≢ unfinished)
  unfolding parse_module
  parse_module-Decided [] h = absurd h
  parse_module-Decided (t ∷ ts) h =
      as_source-Decided
        (declarations-Ends (last_token t ts) h _ (record { variables = [] }) (t ∷ ts) (omega arith))

  parse_lexed-Decided :
      (src : Str) (o : Outcome)
      → Faithful src o
      → (parse_lexed o ≢ panics) × (parse_lexed o ≢ unfinished)
  parse_lexed-Decided src (lexed tokens) (body, e, read) =
      rw e (parse_module-Decided (body ++ end_of src ∷ []) (append-Closed body (end_of src) refl))
  parse_lexed-Decided src (Outcome.parse line col f) h = ((λ e. cc), λ e. cc)
  parse_lexed-Decided src Outcome.exhausted h = absurd h

  -- On every source `parse_source` ends, with a module or with an error of the lexer or the parser:
  -- it neither panics for want of tokens nor runs out of the fuel of twelve units for each token.
  pub parse_source-Decided :
      (src : Str) → (parse_source src ≢ panics) × (parse_source src ≢ unfinished)
  unfolding parse_source
  parse_source-Decided src = parse_lexed-Decided src (tokenise src) (tokenise-Faithful src)
