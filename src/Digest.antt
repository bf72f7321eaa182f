-- ===== src/Digest.antt =====
-- The program's own SHA-256 and its hexadecimal digits (src/digest.rs). A `u32` is a number below
-- 2 ^ 32, with the wrap-around of sums and complements written out; a `u64` likewise.
pub mod Bytes
pub mod Padding
pub mod Hex
use Prim.Native.Nat.{bit_and, bit_xor}
use axiom_rules_engine.Prelude.{
  ℕ, zero, suc, ◌+◌, ◌-◌, ◌*◌, ◌/◌, ◌%◌, ◌^◌, ◌==◌, List, [], ◌∷◌, ◌++◌, length, get_or, set,
  replicate, if◌then◌else◌,
}

-- `to_be_bytes` of a `u32` and of a `u64`.
abbrev pub be_bytes32 : ℕ → List ℕ
be_bytes32 n = (n / 2 ^ 24 % 256) ∷ (n / 2 ^ 16 % 256) ∷ (n / 2 ^ 8 % 256) ∷ (n % 256) ∷ []

abbrev pub be_bytes64 : ℕ → List ℕ
be_bytes64 n = be_bytes32 (n / 2 ^ 32) ++ be_bytes32 n

-- `u32::from_be_bytes`
abbrev pub from_be_bytes : ℕ → ℕ → ℕ → ℕ → ℕ
from_be_bytes a b c d = a * 2 ^ 24 + b * 2 ^ 16 + c * 2 ^ 8 + d

abbrev pub wrapping_add : ℕ → ℕ → ℕ
wrapping_add a b = (a + b) % 2 ^ 32

-- The bits that leave on the right come back on the left.
abbrev pub rotate_right : ℕ → ℕ → ℕ
rotate_right x k = x / 2 ^ k + x % 2 ^ k * 2 ^ (32 - k)

abbrev complement : ℕ → ℕ
complement x = 2 ^ 32 - 1 - x

abbrev pub round_constants : List ℕ
round_constants =
    0x428a2f98 ∷ 0x71374491 ∷ 0xb5c0fbcf ∷ 0xe9b5dba5 ∷ 0x3956c25b ∷ 0x59f111f1 ∷ 0x923f82a4
    ∷ 0xab1c5ed5 ∷ 0xd807aa98 ∷ 0x12835b01 ∷ 0x243185be ∷ 0x550c7dc3 ∷ 0x72be5d74 ∷ 0x80deb1fe
    ∷ 0x9bdc06a7 ∷ 0xc19bf174 ∷ 0xe49b69c1 ∷ 0xefbe4786 ∷ 0x0fc19dc6 ∷ 0x240ca1cc ∷ 0x2de92c6f
    ∷ 0x4a7484aa ∷ 0x5cb0a9dc ∷ 0x76f988da ∷ 0x983e5152 ∷ 0xa831c66d ∷ 0xb00327c8 ∷ 0xbf597fc7
    ∷ 0xc6e00bf3 ∷ 0xd5a79147 ∷ 0x06ca6351 ∷ 0x14292967 ∷ 0x27b70a85 ∷ 0x2e1b2138 ∷ 0x4d2c6dfc
    ∷ 0x53380d13 ∷ 0x650a7354 ∷ 0x766a0abb ∷ 0x81c2c92e ∷ 0x92722c85 ∷ 0xa2bfe8a1 ∷ 0xa81a664b
    ∷ 0xc24b8b70 ∷ 0xc76c51a3 ∷ 0xd192e819 ∷ 0xd6990624 ∷ 0xf40e3585 ∷ 0x106aa070 ∷ 0x19a4c116
    ∷ 0x1e376c08 ∷ 0x2748774c ∷ 0x34b0bcb5 ∷ 0x391c0cb3 ∷ 0x4ed8aa4a ∷ 0x5b9cca4f ∷ 0x682e6ff3
    ∷ 0x748f82ee ∷ 0x78a5636f ∷ 0x84c87814 ∷ 0x8cc70208 ∷ 0x90befffa ∷ 0xa4506ceb ∷ 0xbef9a3f7
    ∷ 0xc67178f2 ∷ []

-- `while padded.len() % 64 != 56 { padded.push(0) }` on fuel, with the length so far.
unfoldable pub zeros : ℕ → ℕ → List ℕ
zeros zero len = []
zeros (suc f) len = let rest = zeros f (suc len) in if len % 64 == 56 then [] else 0 ∷ rest

-- The message, a one bit, zeros, and the message's length in bits.
unfoldable pub pad : List ℕ → List ℕ
pad input =
    input
    ++ (0x80 ∷ (zeros 64 (suc (length input)) ++ be_bytes64 (length input % 2 ^ 64 * 8 % 2 ^ 64)))

-- The first `n` words of a chunk.
unfoldable pub words_of : ℕ → List ℕ → List ℕ
words_of zero chunk = []
words_of (suc n) (a ∷ b ∷ c ∷ d ∷ chunk) = from_be_bytes a b c d ∷ words_of n chunk
words_of (suc n) _ = []

abbrev sigma0 : ℕ → ℕ
sigma0 x = bit_xor (bit_xor (rotate_right x 7) (rotate_right x 18)) (x / 2 ^ 3)

abbrev sigma1 : ℕ → ℕ
sigma1 x = bit_xor (bit_xor (rotate_right x 17) (rotate_right x 19)) (x / 2 ^ 10)

-- The words from `index` on, `left` of them.
unfoldable pub extend : ℕ → ℕ → List ℕ → List ℕ
extend zero index words = words
extend (suc left) index words = extend left (suc index) (
    set words index (
      wrapping_add
        (wrapping_add
          (wrapping_add (get_or words (index - 16) 0) (sigma0 (get_or words (index - 15) 0)))
          (get_or words (index - 7) 0))
        (sigma1 (get_or words (index - 2) 0))))

pub record State : Type 0 where
  pub a : ℕ
  pub b : ℕ
  pub c : ℕ
  pub d : ℕ
  pub e : ℕ
  pub f : ℕ
  pub g : ℕ
  pub h : ℕ

abbrev choose : ℕ → ℕ → ℕ → ℕ
choose e f g = bit_xor (bit_and e f) (bit_and (complement e) g)

abbrev majority : ℕ → ℕ → ℕ → ℕ
majority a b c = bit_xor (bit_xor (bit_and a b) (bit_and a c)) (bit_and b c)

abbrev big0 : ℕ → ℕ
big0 a = bit_xor (bit_xor (rotate_right a 2) (rotate_right a 13)) (rotate_right a 22)

abbrev big1 : ℕ → ℕ
big1 e = bit_xor (bit_xor (rotate_right e 6) (rotate_right e 11)) (rotate_right e 25)

-- One round, with its constant and its word.
unfoldable pub compress : ℕ → ℕ → State → State
compress constant word s =
    let temp1 : ℕ =
      wrapping_add
        (wrapping_add (wrapping_add (wrapping_add s.h (big1 s.e)) (choose s.e s.f s.g)) constant)
        word in
    let temp2 : ℕ = wrapping_add (big0 s.a) (majority s.a s.b s.c) in
    record {
      a = wrapping_add temp1 temp2;
      b = s.a;
      c = s.b;
      d = s.c;
      e = wrapping_add s.d temp1;
      f = s.e;
      g = s.f;
      h = s.g;
    }

unfoldable pub rounds : List ℕ → List ℕ → State → State
rounds [] words s = s
rounds (constant ∷ constants) [] s = s
rounds (constant ∷ constants) (word ∷ words) s = rounds constants words (compress constant word s)

abbrev add_state : State → State → State
add_state s t = record {
  a = wrapping_add s.a t.a;
  b = wrapping_add s.b t.b;
  c = wrapping_add s.c t.c;
  d = wrapping_add s.d t.d;
  e = wrapping_add s.e t.e;
  f = wrapping_add s.f t.f;
  g = wrapping_add s.g t.g;
  h = wrapping_add s.h t.h;
}

unfoldable pub chunk_step : List ℕ → State → State
chunk_step chunk s =
    add_state s (rounds round_constants (extend 48 16 (words_of 16 chunk ++ replicate 48 0)) s)

abbrev pub drop : ℕ → List ℕ → List ℕ
drop zero l = l
drop (suc n) [] = []
drop (suc n) (x ∷ l) = drop n l

-- `chunks_exact(64)`: `n` chunks.
unfoldable pub chunks : ℕ → List ℕ → State → State
chunks zero input s = s
chunks (suc n) input s = chunks n (drop 64 input) (chunk_step input s)

abbrev pub initial_state : State
initial_state = record {
  a = 0x6a09e667;
  b = 0xbb67ae85;
  c = 0x3c6ef372;
  d = 0xa54ff53a;
  e = 0x510e527f;
  f = 0x9b05688c;
  g = 0x1f83d9ab;
  h = 0x5be0cd19;
}

abbrev pub output : State → List ℕ
output s =
    be_bytes32 s.a
    ++ be_bytes32 s.b
    ++ be_bytes32 s.c
    ++ be_bytes32 s.d
    ++ be_bytes32 s.e
    ++ be_bytes32 s.f
    ++ be_bytes32 s.g
    ++ be_bytes32 s.h

unfoldable pub sha256 : List ℕ → List ℕ
unfolding pad zeros chunks
sha256 input =
    let padded : List ℕ = pad input in output (chunks (length padded / 64) padded initial_state)

-- A digit of `DIGITS`.
abbrev pub digit : ℕ → ℕ
digit n =
    if n == 10
    then 97
    else if n == 11
    then 98
    else if n == 12
    then 99
    else if n == 13
    then 100
    else if n == 14
    then 101
    else if n == 15
    then 102
    else 48 + n

unfoldable pub hex : List ℕ → List ℕ
hex [] = []
hex (byte ∷ bytes) = digit (byte / 16) ∷ digit (byte % 16) ∷ hex bytes
