-- ===== src/Formula/Parser/Declarations.antt =====
-- The parser of declarations (src/formula.rs, `parse_module`, `skip_entity`, `skip_amend`,
-- `parse_variable`, `parse_path` and `parse_source`).
use axiom_rules_engine.Prelude.{
  ℕ, zero, suc, ◌*◌, ◌-◌, Bool, ◌&&◌, ◌||◌, not, Option, none, some, List, [], ◌∷◌, ◌++◌, ◌==◌,
  length, if◌then◌else◌,
}
use axiom_rules_engine.Prelude.Ord.{Str, str_ord}
use axiom_rules_engine.Prelude.Text.{codes}
use axiom_rules_engine.BTree.{key_eq, mem}
use axiom_rules_engine.Model.Platform.{Platform}
use axiom_rules_engine.Formula.Tokens.{TokType, Token, same_type}
use axiom_rules_engine.Formula.Scan.{Fault}
use axiom_rules_engine.Formula.Lexer.{Outcome, lexed, tokenise}
use axiom_rules_engine.Formula.Ast.{TemporalValue, VariableDecl, Module, declared}
use axiom_rules_engine.Formula.Parser.{
  unexpected_token, unexpected_metadata, invalid_date, Message, Tokens, Parse, ok, parse, exhausted,
  Reader, pure, ◌>>=◌, ◌>>◌, choose, when_some, advance, refuse, is_any, peek, at, consume,
}
use axiom_rules_engine.Formula.Parser.Terms.{parse_expr}

-- `METADATA_FIELDS`
abbrev pub metadata_fields : List Str
metadata_fields =
    codes "source"
    ∷ codes "source_url"
    ∷ codes "label"
    ∷ codes "description"
    ∷ codes "unit"
    ∷ codes "dtype"
    ∷ codes "period"
    ∷ codes "default"
    ∷ codes "indexed_by"
    ∷ codes "status"
    ∷ []

-- The depth after a token of a bracketed suffix.
abbrev pub depth_after : TokType → ℕ → ℕ
depth_after TokType.lbracket depth = suc depth
depth_after TokType.rbracket depth = depth - 1
depth_after _ depth = depth

module _ (last : Token) where
  -- Tokens up to the bracket that closes, or the end.
  unfoldable pub skip_brackets : ℕ → ℕ → Reader (Unit {0})
  skip_brackets zero depth ts = exhausted
  skip_brackets (suc f) depth ts =
      let ty : TokType = (peek last ts 0).ty in
      choose (depth == 0 || same_type ty TokType.eof) (pure tt)
        (advance >> (λ rest. skip_brackets f (depth_after ty depth) rest)) ts

  -- A type-suffix bracket such as `Enum[Status]`.
  abbrev pub skip_suffix : ℕ → Reader (Unit {0})
  skip_suffix f ts =
      choose (at last (TokType.lbracket ∷ []) ts)
        (consume last TokType.lbracket >> skip_brackets f 1) (pure tt) ts

  -- The value of a metadata field, by the type of its first token.
  abbrev pub metadata_from : ℕ → TokType → Token → Reader Str
  metadata_from f TokType.string tok = consume last TokType.string >>= λ t. pure t.value
  metadata_from f TokType.ident tok =
      consume last TokType.ident >>= λ t. skip_suffix f >> pure t.value
  metadata_from f TokType.int tok = consume last TokType.int >>= λ t. skip_suffix f >> pure t.value
  metadata_from f TokType.float tok =
      consume last TokType.float >>= λ t. skip_suffix f >> pure t.value
  metadata_from f TokType.path tok = consume last TokType.path >>= λ t. pure t.value
  metadata_from f TokType.minus tok = consume last TokType.minus >> λ ts.
      (consume last (peek last ts 0).ty >>= λ t. pure (codes "-" ++ t.value)) ts
  metadata_from f TokType.true' tok = consume last TokType.true' >> pure (codes "true")
  metadata_from f TokType.false' tok = consume last TokType.false' >> pure (codes "false")
  metadata_from f other tok = refuse tok (unexpected_metadata tok.ty)

  unfoldable pub metadata_value : ℕ → Reader Str
  metadata_value f ts = metadata_from f (peek last ts 0).ty (peek last ts 0) ts

  unfoldable pub parse_path : Reader Str
  parse_path ts =
      choose (at last (TokType.path ∷ []) ts) (consume last TokType.path >>= λ t. pure t.value)
        (consume last TokType.ident >>= λ t. pure t.value) ts

  -- The type of an entity's field: a foreign key, a list, or a name.
  abbrev pub field_type : Reader Token
  field_type ts =
      choose (at last (TokType.fk ∷ []) ts) (consume last TokType.fk >> consume last TokType.ident)
        (choose (at last (TokType.lbracket ∷ []) ts)
          (consume last TokType.lbracket
            >> (consume last TokType.ident >> consume last TokType.rbracket))
          (consume last TokType.ident))
        ts

  unfoldable pub entity_fields : ℕ → Reader (Unit {0})
  entity_fields zero ts = exhausted
  entity_fields (suc f) ts =
      choose
        (same_type (peek last ts 0).ty TokType.ident
          && same_type (peek last ts 1).ty TokType.colon
          && is_any (peek last ts 2).ty (TokType.ident ∷ TokType.lbracket ∷ TokType.fk ∷ []))
        (consume last TokType.ident
          >> (consume last TokType.colon >> (field_type >> λ rest. entity_fields f rest)))
        (pure tt) ts

  unfoldable pub skip_entity : ℕ → Reader (Unit {0})
  skip_entity f =
      consume last TokType.entity
      >> (consume last TokType.ident >> (consume last TokType.colon >> entity_fields f))

  -- `[to DATE]` of an amendment.
  abbrev pub skip_end : Reader (Unit {0})
  skip_end ts =
      choose (at last (TokType.to ∷ []) ts)
        (consume last TokType.to >> (consume last TokType.date >> pure tt)) (pure tt) ts

  -- A target or a path.
  abbrev pub skip_target : Reader Token
  skip_target ts =
      choose (at last (TokType.path ∷ []) ts) (consume last TokType.path)
        (consume last TokType.ident) ts

module _ ⦃p : Platform⦄ where
  open p use {NaiveDate, parse_date}

  -- `match field.as_str() { … }`
  unfoldable pub with_field : VariableDecl → Str → Str → VariableDecl
  with_field decl field v =
      if key_eq field (codes "source")
      then record decl { source = some v }
      else if key_eq field (codes "source_url")
      then record decl { source_url = some v }
      else if key_eq field (codes "label")
      then record decl { label = some v }
      else if key_eq field (codes "description")
      then record decl { description = some v }
      else if key_eq field (codes "unit")
      then record decl { unit = some v }
      else if key_eq field (codes "dtype")
      then record decl { dtype = some v }
      else if key_eq field (codes "period")
      then record decl { period = some v }
      else if key_eq field (codes "default")
      then record decl { default_value = some v }
      else if key_eq field (codes "indexed_by")
      then record decl { indexed_by = some v }
      else decl

  abbrev pub dated : Token → Reader NaiveDate
  dated tok = when_some (parse_date tok.value) (refuse tok (invalid_date tok.value)) pure

  module _ (last : Token) where
    -- `[to DATE]`
    abbrev pub until : Reader (Option NaiveDate)
    until ts =
        choose (at last (TokType.to ∷ []) ts)
          (consume last TokType.to
            >> (consume last TokType.date >>= λ t. dated t >>= λ d. pure (some d)))
          (pure none) ts

    -- `from DATE [to DATE]: expr`
    unfoldable pub temporal_value : ℕ → Reader TemporalValue
    temporal_value f = do
      consume last TokType.from
      start_tok ← consume last TokType.date
      start ← dated start_tok
      end ← until
      consume last TokType.colon
      expr ← parse_expr last f
      pure (record { start = start; end = end; expr = expr })

    unfoldable pub temporal_values : ℕ → VariableDecl → Reader VariableDecl
    temporal_values zero decl ts = exhausted
    temporal_values (suc f) decl ts =
        choose (at last (TokType.from ∷ []) ts)
          (temporal_value f >>= λ v rest.
            temporal_values f (record decl { values = decl.values ++ v ∷ [] }) rest)
          (pure decl) ts

    abbrev pub at_metadata : Tokens → Bool
    at_metadata ts =
        same_type (peek last ts 0).ty TokType.ident
        && same_type (peek last ts 1).ty TokType.colon
        && mem (peek last ts 0).value metadata_fields

    unfoldable pub metadata : ℕ → VariableDecl → Reader VariableDecl
    metadata zero decl ts = exhausted
    metadata (suc f) decl ts =
        choose (at last (TokType.entity ∷ []) ts)
          (do
            consume last TokType.entity
            consume last TokType.colon
            t ← consume last TokType.ident
            λ rest. metadata f (record decl { entity = some t.value }) rest)
          (choose (at_metadata ts)
            (do
              field ← consume last TokType.ident
              consume last TokType.colon
              v ← metadata_value last f
              λ rest. metadata f (with_field decl field.value v) rest)
            (pure decl))
          ts

    unfoldable pub parse_variable : ℕ → Reader VariableDecl
    parse_variable f = do
      path ← parse_path last
      consume last TokType.colon
      decl ← metadata f (declared path)
      temporal_values f decl

    -- The temporal values of an amendment, which are dropped.
    unfoldable pub amended_values : ℕ → Reader (Unit {0})
    amended_values zero ts = exhausted
    amended_values (suc f) ts =
        choose (at last (TokType.from ∷ []) ts)
          (do
            consume last TokType.from
            consume last TokType.date
            skip_end last
            consume last TokType.colon
            parse_expr last f
            λ rest. amended_values f rest)
          (pure tt) ts

    unfoldable pub skip_amend : ℕ → Reader (Unit {0})
    skip_amend f =
        consume last TokType.amend
        >> (skip_target last >> (consume last TokType.colon >> amended_values f))

    -- A bare line such as `status: boilerplate`.
    abbrev pub at_bare_status : Tokens → Bool
    at_bare_status ts =
        same_type (peek last ts 0).ty TokType.ident
        && key_eq (peek last ts 0).value (codes "status")
        && is_any (peek last ts 2).ty (TokType.ident ∷ TokType.string ∷ [])
        && not (same_type (peek last ts 3).ty TokType.colon)

    abbrev pub at_declaration : Tokens → Bool
    at_declaration ts =
        at last (TokType.ident ∷ TokType.path ∷ []) ts
        && same_type (peek last ts 1).ty TokType.colon

    unfoldable pub declarations : ℕ → Module → Reader Module
    declarations zero module' ts = exhausted
    declarations (suc f) module' ts =
        choose (same_type (peek last ts 0).ty TokType.eof) (pure module')
          (choose (at last (TokType.entity ∷ []) ts)
            (skip_entity last f >> λ rest. declarations f module' rest)
            (choose (at last (TokType.amend ∷ []) ts)
              (skip_amend f >> λ rest. declarations f module' rest)
              (choose (at_declaration ts)
                (choose (at_bare_status ts)
                  (advance >> (advance >> (advance >> λ rest. declarations f module' rest)))
                  (parse_variable f >>= λ v rest.
                    declarations f (record { variables = module'.variables ++ v ∷ [] }) rest))
                (refuse (peek last ts 0) (unexpected_token (peek last ts 0))))))
          ts

  -- The result of parsing a source; `panics` is the index underflow on no tokens at all,
  -- `unfinished` a lack of fuel.
  pub data Source : Type 0 where
    parsed : Module → Source
    lexing : (line col : ℕ) → Fault → Source
    parsing : (line col : ℕ) → Message → Source
    panics unfinished : Source

  abbrev pub as_source : Parse Module → Source
  as_source (ok module' rest) = parsed module'
  as_source (parse line col message) = parsing line col message
  as_source exhausted = unfinished

  abbrev pub last_token : Token → Tokens → Token
  last_token t [] = t
  last_token t (u ∷ ts) = last_token u ts

  -- Twelve units of fuel for each token suffice.
  unfoldable pub parse_module : Tokens → Source
  parse_module [] = panics
  parse_module (t ∷ ts) = as_source (
      declarations (last_token t ts) (suc (12 * length (t ∷ ts))) (record { variables = [] })
        (t ∷ ts))

  abbrev pub parse_lexed : Outcome → Source
  parse_lexed (lexed tokens) = parse_module tokens
  parse_lexed (Outcome.parse line col f) = lexing line col f
  parse_lexed Outcome.exhausted = unfinished

  unfoldable pub parse_source : Str → Source
  parse_source src = parse_lexed (tokenise src)
