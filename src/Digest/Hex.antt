-- ===== src/Digest/Hex.antt =====
-- The hexadecimal digits (src/digest.rs, `hex`), read back.
use axiom_rules_engine.Prelude.{
  ℕ, ◌+◌, ◌-◌, ◌*◌, ◌/◌, ◌%◌, ◌<◌, ◌≡◌, refl, List, [], ◌∷◌, arith, ltb, if◌then◌else◌,
}
use axiom_rules_engine.Digest.{digit, hex}

-- The value of a digit, and the bytes that digits spell.
abbrev pub value : ℕ → ℕ
value c = if ltb c 58 then c - 48 else c - 87

unfoldable pub unhex : List ℕ → List ℕ
unhex [] = []
unhex (c ∷ []) = []
unhex (c ∷ d ∷ text) = (value c * 16 + value d) ∷ unhex text

abbrev pub AllBytes : List ℕ → Type 0
AllBytes [] = Unit
AllBytes (b ∷ bytes) = (b < 256) × AllBytes bytes

value-digit : (n : ℕ) → n < 16 → value (digit n) ≡ n
value-digit n h = ground arith

-- Reading the digits of bytes, each below 256, gives the bytes back.
pub unhex-hex : (bytes : List ℕ) → AllBytes bytes → unhex (hex bytes) ≡ bytes
unfolding unhex hex
unhex-hex [] h = refl
unhex-hex (b ∷ bytes) h =
    let hi = value-digit (b / 16) (omega (arith, h.0)) in
    let lo = value-digit (b % 16) (omega arith) in
    let whole : value (digit (b / 16)) * 16 + value (digit (b % 16)) ≡ b = omega (arith, hi, lo) in
    rw (whole, unhex-hex bytes h.1) refl
