-- ===== src/Units/Encoder/Records.antt =====
-- Relation families and facts can be read back from their bytes, up to the order and the repetition of
-- the records inside them (src/unit_derivation/evaluate.rs, `constitution_input`).
use axiom_rules_engine.Prelude.{
  ℕ, suc, ◌≡◌, refl, sym, ◌∙◌, ap, subst, Bool, true, ◌||◌, some, List, [], ◌∷◌, ◌++◌, map,
  get_elem?, ◌≤◌, Option, none, length, length-append, All, Bool-cases, inl, inr, arith,
}
use axiom_rules_engine.Prelude.Ord.{Str, str_ord}
use axiom_rules_engine.BTree.{mem, key_eq}
use axiom_rules_engine.BTree.Laws.{key_eq-eq}
use axiom_rules_engine.Units.Types.{
  Citation, Evidence, RelationFact, RelationFamilyInput, ObservedBool, BoolFactInput,
}
use axiom_rules_engine.Units.Encoder.{
  sorted, strings_in_order, encode_bytes, encode_bool, encode_option, encode_evidence, encode_usize,
  encode_all, encode_citation, observed_bool, relation_fact, relation_family, bool_fact,
}
use axiom_rules_engine.Units.Encoder.Codes.{
  Decodes, IsShort, AllShort, AreShort, CitationShort, observed-Decodes, OptionAll, EvidenceShort,
  pair-eq, bytes-Decodes, strings-Decodes, option-Decodes, evidence-Decodes,
}
use axiom_rules_engine.Units.Encoder.Identity.{SameMembers, mem-sorted, sorted-SameMembers}
use axiom_rules_engine.Units.Encoder.Items.{
  All-elem, mem-elem, elem-mem, SameItems, members-SameItems,
}

-- What is put together is not shorter than its parts.
parts-Short : (a b : List ℕ) → IsShort (a ++ b) → IsShort a × IsShort b
parts-Short a b h = (omega (arith, h, length-append a b), omega (arith, h, length-append a b))

bytes-Short : (value : Str) → IsShort (encode_bytes value) → IsShort value
bytes-Short value h = (parts-Short (encode_usize (length value)) value h).1

citation-Short : (c : Citation) → IsShort (encode_citation c) → CitationShort c
citation-Short c h =
    let parts = parts-Short (encode_bytes c.provision) (encode_bytes c.authority) h in
    (bytes-Short c.provision parts.0, bytes-Short c.authority parts.1)

evidence-Short : (e : Evidence) → IsShort (encode_evidence e) → EvidenceShort e
evidence-Short e h =
    let parts = parts-Short (encode_bytes e.id) (encode_citation e.citation) h in
    (bytes-Short e.id parts.0, citation-Short e.citation parts.1)

option-Short :
    (o : Option Evidence) → IsShort (encode_option encode_evidence o) → OptionAll EvidenceShort o
option-Short none h = tt
option-Short (some e) h = evidence-Short e (omega (arith, h))

all-AllShort : (l : List Str) → IsShort (encode_all l) → AllShort l
all-AllShort [] h = tt
all-AllShort (s ∷ l) h =
    let parts = parts-Short (encode_bytes s) (encode_all l) h in
    (bytes-Short s parts.0, all-AllShort l parts.1)

length-all : (l : List Str) → length l ≤ length (encode_all l)
length-all [] = omega arith
length-all (s ∷ l) = omega (arith, length-all l, length-append (encode_bytes s) (encode_all l))

strings-Short : (l : List Str) → IsShort (strings_in_order l) → AreShort l
strings-Short l h =
    let parts = parts-Short (encode_usize (length l)) (encode_all l) h in
    (omega (arith, parts.1, length-all l), all-AllShort l parts.1)

AllShort-mem : (s : Str) (l : List Str) → AllShort l → mem s l ≡ true → IsShort s
AllShort-mem s [] h m = cc
AllShort-mem s (x ∷ l) h m = elim (Bool-cases (key_eq s x)) [
  | inl t ↦ subst IsShort (sym (key_eq-eq s x t)) h.0
  | inr f ↦ AllShort-mem s l h.1 (subst (λ (b : Bool). (b || mem s l) ≡ true) f m)
]

elem-All :
    {A : Type 0} (P : A → Type 0) (l : List A)
    → ((i : ℕ) (a : A) → get_elem? l i ≡ some a → P a)
    → All P l
elem-All P [] h = tt
elem-All P (x ∷ l) h = (h 0 x refl, elem-All P l (λ i a e. h (suc i) a e))

-- Records whose sorted encodings are short are short themselves.
pub blobs-Short :
    {A : Type 0} (f : A → List ℕ) (l : List A)
    → AreShort (sorted (map f l))
    → All (λ a. IsShort (f a)) l
blobs-Short f l h =
    elem-All (λ a. IsShort (f a)) l
      (λ i a e.
        AllShort-mem (f a) (sorted (map f l)) h.1 (mem-sorted (f a) (map f l) ∙ mem-elem f l i a e))

All-mono : {A : Type 0} (P Q : A → Type 0) (l : List A) → ((a : A) → P a → Q a) → All P l → All Q l
All-mono P Q [] g h = tt
All-mono P Q (x ∷ l) g h = (g x h.0, All-mono P Q l g h.1)

-- Records that are again records up to `R`: each of the one list has its like in the other.
abbrev pub Alike : {A : Type 0} → (A → A → Type 0) → List A → List A → Type 0
Alike {A} R l m =
    ((i : ℕ) (a : A)
      → get_elem? l i ≡ some a
      → (j : ℕ) × (b : A) × (get_elem? m j ≡ some b) × R a b)
    × ((j : ℕ) (b : A)
        → get_elem? m j ≡ some b
        → (i : ℕ) × (a : A) × (get_elem? l i ≡ some a) × R a b)

members-Alike :
    {A : Type 0} (R : A → A → Type 0) (f : A → List ℕ)
    → ((a b : A) → IsShort (f a) → IsShort (f b) → f a ≡ f b → R a b)
    → (l m : List A) → AreShort (sorted (map f l))
    → AreShort (sorted (map f m))
    → SameMembers (map f l) (map f m)
    → Alike R l m
members-Alike {A} R f d l m p q same = (
  λ i a e.
      let (j, b, found, equal) = elem-mem f m (f a) (sym (same (f a)) ∙ mem-elem f l i a e) in
      (j, b, found, d a b (short l p i a e) (short m q j b found) (sym equal)),
  λ j b e.
      let (i, a, found, equal) = elem-mem f l (f b) (same (f b) ∙ mem-elem f m j b e) in
      (i, a, found, d a b (short l p i a found) (short m q j b e) equal),
)
  where
    short :
        (k : List A)
        → AreShort (sorted (map f k))
        → (i : ℕ) (a : A) → get_elem? k i ≡ some a
        → IsShort (f a)
    short k h i a e = All-elem (λ x. IsShort (f x)) k i a (blobs-Short f k h) e

abbrev FactShort : RelationFact → Type 0
FactShort f = AreShort f.tuple × EvidenceShort f.observation.evidence

relation_fact-Short : (f : RelationFact) → IsShort (relation_fact f) → FactShort f
relation_fact-Short f h =
    let parts = parts-Short (strings_in_order f.tuple) (observed_bool f.observation) h in
    (
      strings-Short f.tuple parts.0,
      evidence-Short f.observation.evidence
          (parts-Short (encode_bool f.observation.value) (encode_evidence f.observation.evidence)
            parts.1).1,
    )

relation_fact-Decodes : Decodes FactShort relation_fact
relation_fact-Decodes a b r s p q e =
    let parts =
      pair-eq strings_in_order observed_bool strings-Decodes observed-Decodes a.tuple b.tuple
        a.observation b.observation r s p.0 q.0 p.1 q.1 e in
    (ground (arith, parts), parts.2)

-- The same family, up to the order and the repetition of its facts.
pub record SameFamily (a b : RelationFamilyInput) : Type 0 where
  pub name : a.name ≡ b.name
  pub scope : a.scope ≡ b.scope
  pub completeness : a.completeness ≡ b.completeness
  pub facts : SameItems a.facts b.facts

-- The same fact, up to the order and the repetition of its observations.
pub record SameFact (a b : BoolFactInput) : Type 0 where
  pub name : a.name ≡ b.name
  pub observations : SameItems a.observations b.observations
  pub explicit_unknown : a.explicit_unknown ≡ b.explicit_unknown

last_blobs :
    {A : Type 0} {P : A → Type 0} (f : A → List ℕ)
    → Decodes P f
    → ((a : A) → IsShort (f a) → P a)
    → (l m : List A) → AreShort (sorted (map f l))
    → AreShort (sorted (map f m))
    → SameMembers (map f l) (map f m)
    → SameItems l m
last_blobs {P = P} f d g l m p q same =
    members-SameItems f d l m (All-mono (λ a. IsShort (f a)) P l g (blobs-Short f l p))
      (All-mono (λ a. IsShort (f a)) P m g (blobs-Short f m q)) same

-- The parts of a family's encoding after its name, and of a fact's.
abbrev family_blobs : RelationFamilyInput → List Str
family_blobs a = sorted (map relation_fact a.facts)

abbrev fact_blobs : BoolFactInput → List Str
fact_blobs a = sorted (map observed_bool a.observations)

abbrev after_scope : RelationFamilyInput → List ℕ
after_scope a = encode_option encode_evidence a.completeness ++ strings_in_order (family_blobs a)

abbrev after_name : RelationFamilyInput → List ℕ
after_name a = encode_bytes a.scope ++ after_scope a

abbrev after_fact_name : BoolFactInput → List ℕ
after_fact_name a =
    strings_in_order (fact_blobs a) ++ encode_option encode_evidence a.explicit_unknown

family-SameFamily :
    (a b : RelationFamilyInput)
    → IsShort (relation_family a)
    → IsShort (relation_family b)
    → relation_family a ≡ relation_family b
    → SameFamily a b
family-SameFamily a b p q e =
    let pn = parts-Short (encode_bytes a.name) (after_name a) p in
    let qn = parts-Short (encode_bytes b.name) (after_name b) q in
    let ps = parts-Short (encode_bytes a.scope) (after_scope a) pn.1 in
    let qs = parts-Short (encode_bytes b.scope) (after_scope b) qn.1 in
    let pc =
      parts-Short (encode_option encode_evidence a.completeness) (strings_in_order (family_blobs a))
        ps.1 in
    let qc =
      parts-Short (encode_option encode_evidence b.completeness) (strings_in_order (family_blobs b))
        qs.1 in
    let pf = strings-Short (family_blobs a) pc.1 in
    let qf = strings-Short (family_blobs b) qc.1 in
    let names =
      bytes-Decodes a.name b.name (after_name a) (after_name b) (bytes-Short a.name pn.0)
        (bytes-Short b.name qn.0) e in
    let scopes =
      bytes-Decodes a.scope b.scope (after_scope a) (after_scope b) (bytes-Short a.scope ps.0)
        (bytes-Short b.scope qs.0) names.1 in
    let complete =
      option-Decodes encode_evidence evidence-Decodes a.completeness b.completeness
        (strings_in_order (family_blobs a)) (strings_in_order (family_blobs b))
        (option-Short a.completeness pc.0) (option-Short b.completeness qc.0) scopes.1 in
    let blobs =
      strings-Decodes (family_blobs a) (family_blobs b) [] [] pf qf
        (ap (λ s. s ++ []) complete.1) in
    record {
      name = names.0;
      scope = scopes.0;
      completeness = complete.0;
      facts =
          last_blobs relation_fact relation_fact-Decodes relation_fact-Short a.facts b.facts pf qf
            (sorted-SameMembers (map relation_fact a.facts) (map relation_fact b.facts) blobs.0);
    }

observed-Short : (o : ObservedBool) → IsShort (observed_bool o) → EvidenceShort o.evidence
observed-Short o h =
    evidence-Short o.evidence (parts-Short (encode_bool o.value) (encode_evidence o.evidence) h).1

fact-SameFact :
    (a b : BoolFactInput)
    → IsShort (bool_fact a)
    → IsShort (bool_fact b)
    → bool_fact a ≡ bool_fact b
    → SameFact a b
fact-SameFact a b p q e =
    let pn = parts-Short (encode_bytes a.name) (after_fact_name a) p in
    let qn = parts-Short (encode_bytes b.name) (after_fact_name b) q in
    let po =
      parts-Short (strings_in_order (fact_blobs a))
        (encode_option encode_evidence a.explicit_unknown) pn.1 in
    let qo =
      parts-Short (strings_in_order (fact_blobs b))
        (encode_option encode_evidence b.explicit_unknown) qn.1 in
    let pf = strings-Short (fact_blobs a) po.0 in
    let qf = strings-Short (fact_blobs b) qo.0 in
    let names =
      bytes-Decodes a.name b.name (after_fact_name a) (after_fact_name b) (bytes-Short a.name pn.0)
        (bytes-Short b.name qn.0) e in
    let blobs =
      strings-Decodes (fact_blobs a) (fact_blobs b)
        (encode_option encode_evidence a.explicit_unknown)
        (encode_option encode_evidence b.explicit_unknown) pf qf names.1 in
    let unknown =
      option-Decodes encode_evidence evidence-Decodes a.explicit_unknown b.explicit_unknown [] []
        (option-Short a.explicit_unknown po.1) (option-Short b.explicit_unknown qo.1)
        (ap (λ s. s ++ []) blobs.1) in
    record {
      name = names.0;
      observations =
          last_blobs observed_bool observed-Decodes observed-Short a.observations b.observations pf
            qf
            (sorted-SameMembers (map observed_bool a.observations)
              (map observed_bool b.observations) blobs.0);
      explicit_unknown = unknown.0;
    }

pub families-Alike :
    (l m : List RelationFamilyInput)
    → AreShort (sorted (map relation_family l))
    → AreShort (sorted (map relation_family m))
    → SameMembers (map relation_family l) (map relation_family m)
    → Alike SameFamily l m
families-Alike l m p q same =
    members-Alike SameFamily relation_family family-SameFamily l m p q same

pub facts-Alike :
    (l m : List BoolFactInput)
    → AreShort (sorted (map bool_fact l))
    → AreShort (sorted (map bool_fact m))
    → SameMembers (map bool_fact l) (map bool_fact m)
    → Alike SameFact l m
facts-Alike l m p q same = members-Alike SameFact bool_fact fact-SameFact l m p q same
