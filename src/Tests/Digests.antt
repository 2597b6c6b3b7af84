-- ===== src/Tests/Digests.antt =====
-- The program's SHA-256 at known values.
use got_soup.Prelude.{text, ◌≡◌, refl}
use got_soup.Codec.{hex_digit}
use got_soup.Sha256.{
  rotr, at, zeros, length_bytes, padded, words, extend, round, rounds, chunk, drop, chunks,
  word_hex, words_hex, digest_hex, sha256_fallback_hex,
}
use got_soup.Sha256.Digest.{IsHex, sha256_fallback_hex-IsHex}

-- The test vector of the standard.
abc_hashed :
    sha256_fallback_hex (text "abc")
    ≡ text "ba7816bf8f01cfea414140de5dae2223b00361a396177a9cb410ff61f20015ad"
unfolding rotr at zeros length_bytes padded words extend round rounds chunk drop chunks word_hex
    words_hex digest_hex sha256_fallback_hex hex_digit text
abc_hashed = refl

sha256_fallback_hex-IsHex_example : IsHex 64 (sha256_fallback_hex (text "abc"))
sha256_fallback_hex-IsHex_example = sha256_fallback_hex-IsHex (text "abc")
