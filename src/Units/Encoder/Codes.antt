-- ===== src/Units/Encoder/Codes.antt =====
-- Which encodings can be read back (src/unit_derivation/evaluate.rs, `TraceEncoder`): equal bytes, whatever
-- follows them, come from equal values.
use axiom_rules_engine.Prelude.{
  ℕ, ◌^◌, ◌<◌, ◌≡◌, refl, sym, ◌∙◌, ap, true, false, Option, none, some, List, [], ◌∷◌, ◌++◌,
  length, append_assoc, arith,
}
use axiom_rules_engine.Prelude.Ord.{Str}
use axiom_rules_engine.Digest.Bytes.{append-eq, be_bytes64-injective}
use axiom_rules_engine.Units.Types.{Citation, Evidence}
use axiom_rules_engine.Units.Encoder.{
  encode_bool, encode_usize, encode_bytes, encode_all, strings_in_order, encode_option,
  encode_citation, encode_evidence, observed_bool,
}

-- The values in question, and that their bytes say which they are.
abbrev pub Decodes : {A : Type 0} → (A → Type 0) → (A → List ℕ) → Type 0
Decodes {A} P encode =
    (a b : A) (r s : List ℕ) → P a → P b → encode a ++ r ≡ encode b ++ s → (a ≡ b) × (r ≡ s)

-- Lengths that a `u64` holds.
abbrev pub IsShort : List ℕ → Type 0
IsShort s = length s < 2 ^ 64

abbrev pub AllShort : List Str → Type 0
AllShort [] = Unit
AllShort (s ∷ l) = IsShort s × AllShort l

abbrev pub AreShort : List Str → Type 0
AreShort l = (length l < 2 ^ 64) × AllShort l

pub usize-eq :
    (m n : ℕ) (r s : List ℕ)
    → m < 2 ^ 64
    → n < 2 ^ 64
    → encode_usize m ++ r ≡ encode_usize n ++ s
    → (m ≡ n) × (r ≡ s)
usize-eq m n r s hm hn e =
    let parts = append-eq (encode_usize m) (encode_usize n) r s refl e in
    (be_bytes64-injective m n hm hn parts.0, parts.1)

-- Two encodings after one another.
pub pair-eq :
    {A B : Type 0} {P : A → Type 0} {Q : B → Type 0} (f : A → List ℕ) (g : B → List ℕ)
    → Decodes P f
    → Decodes Q g
    → (a a' : A) (b b' : B) (r s : List ℕ) → P a
    → P a'
    → Q b
    → Q b'
    → (f a ++ g b) ++ r ≡ (f a' ++ g b') ++ s
    → (a ≡ a') × (b ≡ b') × (r ≡ s)
pair-eq f g df dg a a' b b' r s p p' q q' e =
    let whole : f a ++ (g b ++ r) ≡ f a' ++ (g b' ++ s) =
      sym (append_assoc (f a) (g b) r) ∙ e ∙ append_assoc (f a') (g b') s in
    let first = df a a' (g b ++ r) (g b' ++ s) p p' whole in
    let second = dg b b' r s q q' first.1 in (first.0, second.0, second.1)

pub bytes-Decodes : Decodes IsShort encode_bytes
bytes-Decodes a b r s ha hb e =
    let lengths = usize-eq (length a) (length b) (a ++ r) (b ++ s) ha hb e in
    append-eq a b r s lengths.0 lengths.1

pub bool-Decodes : Decodes (λ b. Unit {0}) encode_bool
bool-Decodes true true r s p q e = (refl, cc)
bool-Decodes false false r s p q e = (refl, cc)
bool-Decodes true false r s p q e = ground arith
bool-Decodes false true r s p q e = ground arith

all-eq :
    (a b : List Str) (r s : List ℕ)
    → length a ≡ length b
    → AllShort a
    → AllShort b
    → encode_all a ++ r ≡ encode_all b ++ s
    → (a ≡ b) × (r ≡ s)
all-eq [] [] r s l p q e = (refl, e)
all-eq [] (y ∷ b) r s l p q e = absurd (omega (arith, l))
all-eq (x ∷ a) [] r s l p q e = absurd (omega (arith, l))
all-eq (x ∷ a) (y ∷ b) r s l p q e =
    let whole =
      sym (append_assoc (encode_bytes x) (encode_all a) r)
      ∙ e
      ∙ append_assoc (encode_bytes y) (encode_all b) s in
    let first = bytes-Decodes x y (encode_all a ++ r) (encode_all b ++ s) p.0 q.0 whole in
    let rest = all-eq a b r s (omega (arith, l)) p.1 q.1 first.1 in
    let heads = first.0 in let tails = rest.0 in (cc, rest.1)

pub strings-Decodes : Decodes AreShort strings_in_order
strings-Decodes a b r s p q e =
    let counts = usize-eq (length a) (length b) (encode_all a ++ r) (encode_all b ++ s) p.0 q.0 e in
    all-eq a b r s counts.0 p.1 q.1 counts.1

abbrev pub OptionAll : {A : Type 0} → (A → Type 0) → Option A → Type 0
OptionAll P none = Unit
OptionAll P (some a) = P a

pub option-Decodes :
    {A : Type 0} {P : A → Type 0} (f : A → List ℕ)
    → Decodes P f
    → Decodes (OptionAll P) (encode_option f)
option-Decodes f d none none r s p q e = (refl, cc)
option-Decodes f d (some a) (some b) r s p q e =
    let inside : f a ++ r ≡ f b ++ s = cc in
    let whole = d a b r s p q inside in (ap some whole.0, whole.1)
option-Decodes f d none (some b) r s p q e = ground arith
option-Decodes f d (some a) none r s p q e = ground arith

abbrev pub CitationShort : Citation → Type 0
CitationShort c = IsShort c.provision × IsShort c.authority

abbrev pub EvidenceShort : Evidence → Type 0
EvidenceShort e = IsShort e.id × CitationShort e.citation

pub citation-Decodes : Decodes CitationShort encode_citation
citation-Decodes a b r s p q e =
    let parts =
      pair-eq encode_bytes encode_bytes bytes-Decodes bytes-Decodes a.provision b.provision
        a.authority b.authority r s p.0 q.0 p.1 q.1 e in
    (ground (arith, parts), parts.2)

pub evidence-Decodes : Decodes EvidenceShort encode_evidence
evidence-Decodes a b r s p q e =
    let parts =
      pair-eq encode_bytes encode_citation bytes-Decodes citation-Decodes a.id b.id a.citation
        b.citation r s p.0 q.0 p.1 q.1 e in
    (ground (arith, parts), parts.2)

pub observed-Decodes : Decodes (λ o. EvidenceShort o.evidence) observed_bool
observed-Decodes a b r s p q e =
    let parts =
      pair-eq encode_bool encode_evidence bool-Decodes evidence-Decodes a.value b.value a.evidence
        b.evidence r s tt tt p q e in
    (ground (arith, parts), parts.2)
