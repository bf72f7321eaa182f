-- ===== src/Units/Encoder/Identity.antt =====
-- What a unit's identity commits to (src/unit_derivation/evaluate.rs, `unit_id`).
use axiom_rules_engine.Prelude.{
  ℕ, ◌%◌, ◌^◌, ◌<◌, ◌≡◌, refl, sym, ◌∙◌, ap, Bool, ◌||◌, List, [], ◌∷◌, ◌++◌, length, arith,
}
use axiom_rules_engine.Prelude.Ord.{Str, str_ord}
use axiom_rules_engine.BTree.{mem, key_eq}
use axiom_rules_engine.BTree.Laws.{mem-set_insert}
use axiom_rules_engine.Digest.{be_bytes32}
use axiom_rules_engine.Digest.Bytes.{append-eq, be_bytes32-injective}
use axiom_rules_engine.Units.Encoder.{
  sorted, len_prefixed, members_prefixed, unit_domain, unit_preimage,
}

abbrev pub SameMembers : List Str → List Str → Type 0
SameMembers a b = (name : Str) → mem name a ≡ mem name b

pub mem-sorted : (name : Str) (l : List Str) → mem name (sorted l) ≡ mem name l
unfolding sorted
mem-sorted name [] = refl
mem-sorted name (x ∷ l) =
    mem-set_insert name x (sorted l) ∙ ap (λ (b : Bool). key_eq name x || b) (mem-sorted name l)

pub sorted-SameMembers : (a b : List Str) → sorted a ≡ sorted b → SameMembers a b
sorted-SameMembers a b e name = sym (mem-sorted name a) ∙ ap (mem name) e ∙ mem-sorted name b

-- Lengths that a `u32` holds.
abbrev pub Fits : List ℕ → Type 0
Fits s = length s < 2 ^ 32

abbrev pub AllFit : List Str → Type 0
AllFit [] = Unit
AllFit (s ∷ l) = Fits s × AllFit l

prefix32-eq :
    (m n : ℕ) (r s : List ℕ)
    → m < 2 ^ 32
    → n < 2 ^ 32
    → be_bytes32 (m % 2 ^ 32) ++ r ≡ be_bytes32 (n % 2 ^ 32) ++ s
    → (m ≡ n) × (r ≡ s)
prefix32-eq m n r s hm hn e =
    let parts = append-eq (be_bytes32 (m % 2 ^ 32)) (be_bytes32 (n % 2 ^ 32)) r s refl e in
    let same = be_bytes32-injective (m % 2 ^ 32) (n % 2 ^ 32) (omega arith) (omega arith) parts.0 in
    (omega (arith, same), parts.1)

len_prefixed-eq :
    (a b r s : List ℕ)
    → Fits a
    → Fits b
    → len_prefixed a ++ r ≡ len_prefixed b ++ s
    → (a ≡ b) × (r ≡ s)
len_prefixed-eq a b r s ha hb e =
    let lengths = prefix32-eq (length a) (length b) (a ++ r) (b ++ s) ha hb e in
    append-eq a b r s lengths.0 lengths.1

members-eq :
    (a b : List Str)
    → length a ≡ length b
    → AllFit a
    → AllFit b
    → members_prefixed a ≡ members_prefixed b
    → a ≡ b
members-eq [] [] l p q e = refl
members-eq [] (y ∷ b) l p q e = absurd (omega (arith, l))
members-eq (x ∷ a) [] l p q e = absurd (omega (arith, l))
members-eq (x ∷ a) (y ∷ b) l p q e =
    let first = len_prefixed-eq x y (members_prefixed a) (members_prefixed b) p.0 q.0 e in
    let heads = first.0 in let tails = members-eq a b (omega (arith, l)) p.1 q.1 first.1 in cc

-- The members of a unit, each within a `u32`, and not more of them.
abbrev pub IsRoster : List Str → Type 0
IsRoster members = (length (sorted members) < 2 ^ 32) × AllFit (sorted members)

-- Two units whose texts and members have lengths and a number that a `u32` holds, and whose semantics
-- digests have one length, agree on the digest, the relation, the scope, the segment and the set of their
-- members if the bytes that their identities hash are equal.
pub unit_preimage-injective :
    (digest digest' : List ℕ) (relation relation' scope scope' segment segment' : Str)
    (members members' : List Str)
    → length digest ≡ length digest'
    → Fits relation
    → Fits relation'
    → Fits scope
    → Fits scope'
    → Fits segment
    → Fits segment'
    → IsRoster members
    → IsRoster members'
    → unit_preimage digest relation scope segment members
      ≡ unit_preimage digest' relation' scope' segment' members'
    → (digest ≡ digest')
      × (relation ≡ relation')
      × (scope ≡ scope')
      × (segment ≡ segment')
      × SameMembers members members'
unfolding unit_preimage
unit_preimage-injective digest digest' relation relation' scope scope' segment segment' members
      members' l r r' c c' g g' m m' e =
    let one = append-eq unit_domain unit_domain _ _ refl e in
    let two = append-eq digest digest' _ _ l one.1 in
    let three = len_prefixed-eq relation relation' _ _ r r' two.1 in
    let four = len_prefixed-eq scope scope' _ _ c c' three.1 in
    let five = len_prefixed-eq segment segment' _ _ g g' four.1 in
    let counts =
      prefix32-eq (length (sorted members)) (length (sorted members')) _ _ m.0 m'.0 five.1 in
    let same = members-eq (sorted members) (sorted members') counts.0 m.1 m'.1 counts.1 in
    (two.0, three.0, four.0, five.0, sorted-SameMembers members members' same)
