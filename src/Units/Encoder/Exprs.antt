-- ===== src/Units/Encoder/Exprs.antt =====
-- Expressions can be read back from their bytes (src/unit_derivation/evaluate.rs, `bool_expr`).
use axiom_rules_engine.Prelude.{
  ℕ, ◌^◌, ◌<◌, ◌≡◌, refl, sym, ◌∙◌, ap, List, ◌++◌, append_assoc, arith,
}
use axiom_rules_engine.Units.Types.{
  FactRef, BoolExpr, BoolExprs, literal, fact, derived, and, or, not, nil, cons,
  IntegrityConstraint,
}
use axiom_rules_engine.Units.Encoder.{
  encode_bool, encode_usize, encode_bytes, strings_in_order, encode_citation, count, bool_expr,
  bool_exprs, integrity_constraint,
}
use axiom_rules_engine.Units.Encoder.Codes.{
  Decodes, IsShort, AreShort, CitationShort, usize-eq, pair-eq, bytes-Decodes, bool-Decodes,
  strings-Decodes, citation-Decodes,
}

unfoldable mutual
  -- Every text and every list of the expression has a length that a `u64` holds.
  pub ExprShort : BoolExpr → Type 0
  ExprShort (literal value) = Unit
  ExprShort (fact (FactRef.bool name)) = IsShort name
  ExprShort (fact (FactRef.relation family tuple)) = IsShort family × AreShort tuple
  ExprShort (derived name) = IsShort name
  ExprShort (and items) = (count items < 2 ^ 64) × ExprsShort items
  ExprShort (or items) = (count items < 2 ^ 64) × ExprsShort items
  ExprShort (not item) = ExprShort item

  pub ExprsShort : BoolExprs → Type 0
  ExprsShort nil = Unit
  ExprsShort (cons e items) = ExprShort e × ExprsShort items

mutual
  unfolding bool_expr ExprShort

  pub expr-Decodes : Decodes ExprShort bool_expr
  expr-Decodes (literal a) (literal b) r s p q e =
      let inside : encode_bool a ++ r ≡ encode_bool b ++ s = cc in
      let parts = bool-Decodes a b r s tt tt inside in (ap literal parts.0, parts.1)
  expr-Decodes (fact (FactRef.bool a)) (fact (FactRef.bool b)) r s p q e =
      let inside : encode_bytes a ++ r ≡ encode_bytes b ++ s = cc in
      let parts = bytes-Decodes a b r s p q inside in
      (ap (λ n. fact (FactRef.bool n)) parts.0, parts.1)
  expr-Decodes (fact (FactRef.relation f a)) (fact (FactRef.relation g b)) r s p q e =
      let inside : (encode_bytes f ++ strings_in_order a) ++ r
          ≡ (encode_bytes g ++ strings_in_order b) ++ s =
        cc in
      let parts =
        pair-eq encode_bytes strings_in_order bytes-Decodes strings-Decodes f g a b r s p.0 q.0 p.1
          q.1 inside in
      let families = parts.0 in let tuples = parts.1 in (cc, parts.2)
  expr-Decodes (derived a) (derived b) r s p q e =
      let inside : encode_bytes a ++ r ≡ encode_bytes b ++ s = cc in
      let parts = bytes-Decodes a b r s p q inside in (ap derived parts.0, parts.1)
  expr-Decodes (and a) (and b) r s p q e =
      let inside : encode_usize (count a) ++ (bool_exprs a ++ r)
          ≡ encode_usize (count b) ++ (bool_exprs b ++ s) =
        cc in
      let counts =
        usize-eq (count a) (count b) (bool_exprs a ++ r) (bool_exprs b ++ s) p.0 q.0 inside in
      let parts = exprs-eq a b r s counts.0 p.1 q.1 counts.1 in (ap and parts.0, parts.1)
  expr-Decodes (or a) (or b) r s p q e =
      let inside : encode_usize (count a) ++ (bool_exprs a ++ r)
          ≡ encode_usize (count b) ++ (bool_exprs b ++ s) =
        cc in
      let counts =
        usize-eq (count a) (count b) (bool_exprs a ++ r) (bool_exprs b ++ s) p.0 q.0 inside in
      let parts = exprs-eq a b r s counts.0 p.1 q.1 counts.1 in (ap or parts.0, parts.1)
  expr-Decodes (not a) (not b) r s p q e =
      let inside : bool_expr a ++ r ≡ bool_expr b ++ s = cc in
      let parts = expr-Decodes a b r s p q inside in (ap not parts.0, parts.1)
  expr-Decodes _ _ r s p q e = ground arith

  exprs-eq :
      (a b : BoolExprs) (r s : List ℕ)
      → count a ≡ count b
      → ExprsShort a
      → ExprsShort b
      → bool_exprs a ++ r ≡ bool_exprs b ++ s
      → (a ≡ b) × (r ≡ s)
  exprs-eq nil nil r s l p q e = (refl, e)
  exprs-eq nil (cons y b) r s l p q e = absurd (omega (arith, l))
  exprs-eq (cons x a) nil r s l p q e = absurd (omega (arith, l))
  exprs-eq (cons x a) (cons y b) r s l p q e =
      let whole =
        sym (append_assoc (bool_expr x) (bool_exprs a) r)
        ∙ e
        ∙ append_assoc (bool_expr y) (bool_exprs b) s in
      let first = expr-Decodes x y (bool_exprs a ++ r) (bool_exprs b ++ s) p.0 q.0 whole in
      let rest = exprs-eq a b r s (omega (arith, l)) p.1 q.1 first.1 in
      let heads = first.0 in let tails = rest.0 in (cc, rest.1)

-- Two expressions whose texts and lists have lengths that a `u64` holds, each followed by any bytes,
-- are equal if all the bytes are, and so are the bytes that follow.
pub bool_expr-injective :
    (a b : BoolExpr) (r s : List ℕ)
    → ExprShort a
    → ExprShort b
    → bool_expr a ++ r ≡ bool_expr b ++ s
    → (a ≡ b) × (r ≡ s)
bool_expr-injective = expr-Decodes

abbrev pub ConstraintShort : IntegrityConstraint → Type 0
ConstraintShort c = IsShort c.id × ExprShort c.expr × CitationShort c.citation

pub constraint-Decodes : Decodes ConstraintShort integrity_constraint
constraint-Decodes a b r s p q e =
    let tail_a = bool_expr a.expr ++ encode_citation a.citation in
    let tail_b = bool_expr b.expr ++ encode_citation b.citation in
    let whole =
      sym (append_assoc (encode_bytes a.id) tail_a r)
      ∙ e
      ∙ append_assoc (encode_bytes b.id) tail_b s in
    let ids = bytes-Decodes a.id b.id (tail_a ++ r) (tail_b ++ s) p.0 q.0 whole in
    let parts =
      pair-eq bool_expr encode_citation expr-Decodes citation-Decodes a.expr b.expr a.citation
        b.citation r s p.1 q.1 p.2 q.2 ids.1 in
    (ground (arith, ids, parts), parts.2)
