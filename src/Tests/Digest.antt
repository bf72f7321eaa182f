-- ===== src/Tests/Digest.antt =====
-- The published test vectors of SHA-256 (src/digest.rs, its tests).
use axiom_rules_engine.Prelude.{◌≡◌, refl, []}
use axiom_rules_engine.Prelude.Text.{codes}
use axiom_rules_engine.Digest.{
  sha256, hex, pad, zeros, chunks, chunk_step, words_of, extend, rounds, compress,
}

sha256_empty :
    hex (sha256 []) ≡ codes "e3b0c44298fc1c149afbf4c8996fb92427ae41e4649b934ca495991b7852b855"
unfolding sha256 hex chunk_step words_of extend rounds compress pad zeros chunks
sha256_empty = refl

sha256_abc :
    hex (sha256 (codes "abc"))
    ≡ codes "ba7816bf8f01cfea414140de5dae2223b00361a396177a9cb410ff61f20015ad"
unfolding sha256 hex chunk_step words_of extend rounds compress pad zeros chunks
sha256_abc = refl
