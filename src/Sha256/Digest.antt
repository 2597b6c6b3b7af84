-- ===== src/Sha256/Digest.antt =====
-- The form of a digest (src/core/util/hash.cpp).
use got_soup.Prelude.{
  ℕ, zero, suc, ◌+◌, ◌/◌, ◌%◌, ◌*◌, ◌^◌, ◌<◌, Bytes, Bool, true, ◌&&◌, ◌||◌, List, [], ◌∷◌, ◌++◌,
  leb, length, length-append, All, All-append, ◌≡◌, refl, ap, arith,
}
use got_soup.Codec.{hex_digit}
use got_soup.Sha256.{
  Words, word_hex, words_hex, digest_hex, padded, chunks, sha256_fallback_hex, first_words,
}

abbrev pub is_lower_hex : ℕ → Bool
is_lower_hex c = (leb b'0' c && leb c b'9') || (leb b'a' c && leb c b'f')

-- `n` hex digits
abbrev pub IsHex : ℕ → Bytes → Type 0
IsHex n b = (length b ≡ n) × All (λ c. is_lower_hex c ≡ true) b

hex_digit-lower : (n : ℕ) → n < 16 → is_lower_hex (hex_digit n) ≡ true
unfolding hex_digit
hex_digit-lower n h = ground arith

word_hex-IsHex : (n word : ℕ) → IsHex n (word_hex n word)
unfolding word_hex
word_hex-IsHex zero word = (refl, tt)
word_hex-IsHex (suc i) word =
    let (long, hex) = word_hex-IsHex i word in
    (ap suc long, (hex_digit-lower (word / 2 ^ (i * 4) % 16) (omega arith), hex))

IsHex-append : (m n : ℕ) (a b : Bytes) → IsHex m a → IsHex n b → IsHex (m + n) (a ++ b)
IsHex-append m n a b (la, ha) (lb, hb) =
    (omega (arith, length-append a b, la, lb), All-append (λ c. is_lower_hex c ≡ true) a b ha hb)

words_hex-IsHex : (ws : List ℕ) → IsHex (8 * length ws) (words_hex ws)
unfolding words_hex
words_hex-IsHex [] = (omega arith, tt)
words_hex-IsHex (word ∷ ws) =
    let (long, hex) =
      IsHex-append 8 (8 * length ws) (word_hex 8 word) (words_hex ws) (word_hex-IsHex 8 word)
        (words_hex-IsHex ws) in
    (omega (arith, long), hex)

digest_hex-IsHex : (h : Words) → IsHex 64 (digest_hex h)
unfolding digest_hex
digest_hex-IsHex h = words_hex-IsHex (h.a ∷ h.b ∷ h.c ∷ h.d ∷ h.e ∷ h.f ∷ h.g ∷ h.hh ∷ [])

-- Of every text the fallback makes 64 lower-case hex digits.
pub sha256_fallback_hex-IsHex : (payload : Bytes) → IsHex 64 (sha256_fallback_hex payload)
unfolding sha256_fallback_hex
sha256_fallback_hex-IsHex payload =
    digest_hex-IsHex (chunks (length (padded payload) / 64) (padded payload) first_words)
