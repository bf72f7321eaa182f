-- ===== src/Digest/Bytes.antt =====
-- Numbers as bytes in big-endian order (src/digest.rs).
use axiom_rules_engine.Prelude.{
  ℕ, ◌/◌, ◌%◌, ◌^◌, ◌<◌, ◌≡◌, refl, ap, List, [], ◌∷◌, ◌++◌, length, arith, get_or,
}
use axiom_rules_engine.Digest.{be_bytes32, be_bytes64}

-- Lists that begin with as many items agree part by part.
pub append-eq {ℓ} :
    {A : Type ℓ} (a b c d : List A) → length a ≡ length b → a ++ c ≡ b ++ d → (a ≡ b) × (c ≡ d)
append-eq [] [] c d l e = (refl, e)
append-eq [] (y ∷ b) c d l e = absurd (omega (arith, l))
append-eq (x ∷ a) [] c d l e = absurd (omega (arith, l))
append-eq (x ∷ a) (y ∷ b) c d l e =
    let rest = append-eq a b c d (omega (arith, l)) (cc) in let heads : x ≡ y = cc in (cc, rest.1)

pub be_bytes32-eq : (m n : ℕ) → be_bytes32 m ≡ be_bytes32 n → m % 2 ^ 32 ≡ n % 2 ^ 32
be_bytes32-eq m n e =
    let a : m / 2 ^ 24 % 256 ≡ n / 2 ^ 24 % 256 = ap (λ l. get_or l 0 0) e in
    let b : m / 2 ^ 16 % 256 ≡ n / 2 ^ 16 % 256 = ap (λ l. get_or l 1 0) e in
    let c : m / 2 ^ 8 % 256 ≡ n / 2 ^ 8 % 256 = ap (λ l. get_or l 2 0) e in
    let d : m % 256 ≡ n % 256 = ap (λ l. get_or l 3 0) e in omega arith

pub be_bytes32-injective : (m n : ℕ) → m < 2 ^ 32 → n < 2 ^ 32 → be_bytes32 m ≡ be_bytes32 n → m ≡ n
be_bytes32-injective m n hm hn e = omega (arith, be_bytes32-eq m n e)

pub be_bytes64-injective : (m n : ℕ) → m < 2 ^ 64 → n < 2 ^ 64 → be_bytes64 m ≡ be_bytes64 n → m ≡ n
be_bytes64-injective m n hm hn e =
    let parts =
      append-eq (be_bytes32 (m / 2 ^ 32)) (be_bytes32 (n / 2 ^ 32)) (be_bytes32 m) (be_bytes32 n)
        refl e in
    omega (arith, be_bytes32-eq (m / 2 ^ 32) (n / 2 ^ 32) parts.0, be_bytes32-eq m n parts.1)
