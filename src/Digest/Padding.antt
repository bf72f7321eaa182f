-- ===== src/Digest/Padding.antt =====
-- The padding of a message (src/digest.rs, `sha256`).
use axiom_rules_engine.Prelude.{
  ℕ, zero, suc, ◌+◌, ◌-◌, ◌*◌, ◌%◌, ◌^◌, ◌<◌, ◌≡◌, ap, List, ◌∷◌, ◌++◌, length, length-append,
  append_assoc, sym, ◌∙◌, arith, ◌==◌, Bool-cases, inl, inr,
}
use axiom_rules_engine.Digest.{pad, zeros, be_bytes64}
use axiom_rules_engine.Digest.Bytes.{append-eq, be_bytes64-injective}

-- The loop ends at the place for the length within its fuel.
zeros_end : (f len : ℕ) → (120 - len % 64) % 64 < f → (len + length (zeros f len)) % 64 ≡ 56
unfolding zeros
zeros_end zero len h = absurd (omega arith)
zeros_end (suc f) len h = elim (Bool-cases (len % 64 == 56)) [
  | inl t ↦ rw t (ground arith)
  | inr n ↦ rw n (ground (arith, zeros_end f (suc len)))
]

-- The message, the mark and the zeros.
abbrev front : List ℕ → List ℕ
front input = input ++ (0x80 ∷ zeros 64 (suc (length input)))

abbrev bit_length : List ℕ → ℕ
bit_length input = length input % 2 ^ 64 * 8 % 2 ^ 64

pad-front : (input : List ℕ) → pad input ≡ front input ++ be_bytes64 (bit_length input)
unfolding pad
pad-front input =
    sym (append_assoc input (0x80 ∷ zeros 64 (suc (length input))) (be_bytes64 (bit_length input)))

length-front : (input : List ℕ) → length (front input) % 64 ≡ 56
length-front input = omega (
  arith,
  length-append input (0x80 ∷ zeros 64 (suc (length input))),
  zeros_end 64 (suc (length input)) (omega arith),
)

-- A padded message fills whole chunks.
pub length-pad : (input : List ℕ) → length (pad input) % 64 ≡ 0
length-pad input = omega (
  arith,
  ap length (pad-front input),
  length-append (front input) (be_bytes64 (bit_length input)),
  length-front input,
)

-- Messages shorter than 2^61 bytes, whose bits a `u64` counts, differ when padded if they differ.
pub pad-injective : (a b : List ℕ) → length a < 2 ^ 61 → length b < 2 ^ 61 → pad a ≡ pad b → a ≡ b
pad-injective a b ha hb e =
    let same : front a ++ be_bytes64 (bit_length a) ≡ front b ++ be_bytes64 (bit_length b) =
      sym (pad-front a) ∙ e ∙ pad-front b in
    let fronts : length (front a) ≡ length (front b) = omega (
      arith,
      ap length same,
      length-append (front a) (be_bytes64 (bit_length a)),
      length-append (front b) (be_bytes64 (bit_length b)),
    ) in
    let parts =
      append-eq (front a) (front b) (be_bytes64 (bit_length a)) (be_bytes64 (bit_length b)) fronts
        same in
    let bits : bit_length a ≡ bit_length b =
      be_bytes64-injective (bit_length a) (bit_length b) (omega arith) (omega arith) parts.1 in
    let lengths : length a ≡ length b = omega (arith, bits) in
    (append-eq a b (0x80 ∷ zeros 64 (suc (length a))) (0x80 ∷ zeros 64 (suc (length b))) lengths
      parts.0).0
