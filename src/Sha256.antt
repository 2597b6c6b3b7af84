-- ===== src/Sha256.antt =====
-- The program's own SHA-256, for builds without libsodium (sha256_fallback_hex of src/core/util/hash.cpp).
pub mod Padding
pub mod Digest
use Prim.Native.Nat.{bit_and, bit_or, bit_xor}
use got_soup.Prelude.{
  ℕ, zero, suc, ◌+◌, ◌-◌, ◌*◌, ◌/◌, ◌%◌, ◌^◌, Bytes, List, [], ◌∷◌, ◌++◌, length, get_elem?, none,
  some, ◌==◌, nat_eq, if◌then◌else◌,
}
use got_soup.Codec.{hex_digit}

unfoldable pub rotr : ℕ → ℕ → ℕ
rotr x n = bit_or (x / 2 ^ n) (x * 2 ^ (32 - n) % 2 ^ 32)

abbrev pub k : List ℕ
k =
    (1116352408 ∷ 1899447441 ∷ 3049323471 ∷ 3921009573 ∷ 961987163 ∷ 1508970993 ∷ 2453635748
      ∷ 2870763221 ∷ 3624381080 ∷ 310598401 ∷ 607225278 ∷ 1426881987 ∷ 1925078388 ∷ 2162078206
      ∷ 2614888103 ∷ 3248222580 ∷ 3835390401 ∷ 4022224774 ∷ 264347078 ∷ 604807628 ∷ 770255983
      ∷ 1249150122 ∷ 1555081692 ∷ 1996064986 ∷ 2554220882 ∷ 2821834349 ∷ 2952996808 ∷ 3210313671
      ∷ 3336571891 ∷ 3584528711 ∷ 113926993 ∷ 338241895 ∷ 666307205 ∷ 773529912 ∷ 1294757372
      ∷ 1396182291 ∷ 1695183700 ∷ 1986661051 ∷ 2177026350 ∷ 2456956037 ∷ 2730485921 ∷ 2820302411
      ∷ 3259730800 ∷ 3345764771 ∷ 3516065817 ∷ 3600352804 ∷ 4094571909 ∷ 275423344 ∷ 430227734
      ∷ 506948616 ∷ 659060556 ∷ 883997877 ∷ 958139571 ∷ 1322822218 ∷ 1537002063 ∷ 1747873779
      ∷ 1955562222 ∷ 2024104815 ∷ 2227730452 ∷ 2361852424 ∷ 2428436474 ∷ 2756734187 ∷ 3204031479
      ∷ 3329325298 ∷ [])

-- an array's element; every index that the code uses is in range
unfoldable pub at : List ℕ → ℕ → ℕ
at w i = elim (get_elem? w i) [ none ↦ 0 | some x ↦ x ]

-- the loop that fills up with zeros, of the size so far; `fuel` bounds the number of zeros
unfoldable pub zeros : ℕ → ℕ → Bytes
zeros zero size = []
zeros (suc fuel) size = let rest = zeros fuel (size + 1) in if size % 64 == 56 then [] else 0 ∷ rest

-- the `count` low bytes of the length, the highest first
unfoldable pub length_bytes : ℕ → ℕ → Bytes
length_bytes zero bit_len = []
length_bytes (suc i) bit_len = bit_len / 2 ^ (i * 8) % 256 ∷ length_bytes i bit_len

unfoldable pub padded : Bytes → Bytes
unfolding zeros length_bytes
padded payload =
    payload
    ++ (128 ∷ (zeros 64 (length payload + 1) ++ length_bytes 8 (length payload * 8 % 2 ^ 64)))

-- the first 16 words of a chunk
unfoldable pub words : ℕ → Bytes → List ℕ
words (suc n) (p ∷ q ∷ r ∷ s ∷ msg) = (p * 2 ^ 24 + q * 2 ^ 16 + r * 2 ^ 8 + s) ∷ words n msg
words _ _ = []

-- the loop that extends the words from `i` on
unfoldable pub extend : ℕ → ℕ → List ℕ → List ℕ
unfolding rotr at
extend zero i w = w
extend (suc left) i w =
    let p = at w (i - 15) in
    let q = at w (i - 2) in
    let s0 = bit_xor (bit_xor (rotr p 7) (rotr p 18)) (p / 2 ^ 3) in
    let s1 = bit_xor (bit_xor (rotr q 17) (rotr q 19)) (q / 2 ^ 10) in
    extend left (i + 1) (w ++ (at w (i - 16) + s0 + at w (i - 7) + s1) % 2 ^ 32 ∷ [])

-- the array `h`, and the variables `a` to `hh`
pub record Words : Type 0 where
  pub a : ℕ
  pub b : ℕ
  pub c : ℕ
  pub d : ℕ
  pub e : ℕ
  pub f : ℕ
  pub g : ℕ
  pub hh : ℕ

unfoldable pub round : ℕ → ℕ → Words → Words
unfolding rotr
round k_i w_i v =
    let s1 = bit_xor (bit_xor (rotr v.e 6) (rotr v.e 11)) (rotr v.e 25) in
    let ch = bit_xor (bit_and v.e v.f) (bit_and (2 ^ 32 - 1 - v.e) v.g) in
    let temp1 = (v.hh + s1 + ch + k_i + w_i) % 2 ^ 32 in
    let s0 = bit_xor (bit_xor (rotr v.a 2) (rotr v.a 13)) (rotr v.a 22) in
    let maj = bit_xor (bit_xor (bit_and v.a v.b) (bit_and v.a v.c)) (bit_and v.b v.c) in
    let temp2 = (s0 + maj) % 2 ^ 32 in
    record {
      a = (temp1 + temp2) % 2 ^ 32;
      b = v.a;
      c = v.b;
      d = v.c;
      e = (v.d + temp1) % 2 ^ 32;
      f = v.e;
      g = v.f;
      hh = v.g;
    }

-- the loop over the rounds, of the constants and words that are left
unfoldable pub rounds : List ℕ → List ℕ → Words → Words
unfolding round
rounds (k_i ∷ ks) (w_i ∷ ws) v = rounds ks ws (round k_i w_i v)
rounds _ _ v = v

unfoldable pub chunk : Bytes → Words → Words
unfolding words extend rounds
chunk msg h =
    let v = rounds k (extend 48 16 (words 16 msg)) h in
    record {
      a = (h.a + v.a) % 2 ^ 32;
      b = (h.b + v.b) % 2 ^ 32;
      c = (h.c + v.c) % 2 ^ 32;
      d = (h.d + v.d) % 2 ^ 32;
      e = (h.e + v.e) % 2 ^ 32;
      f = (h.f + v.f) % 2 ^ 32;
      g = (h.g + v.g) % 2 ^ 32;
      hh = (h.hh + v.hh) % 2 ^ 32;
    }

unfoldable pub drop : ℕ → Bytes → Bytes
drop zero msg = msg
drop (suc n) [] = []
drop (suc n) (c ∷ msg) = drop n msg

-- the loop over the chunks that are left
unfoldable pub chunks : ℕ → Bytes → Words → Words
unfolding chunk drop
chunks zero msg h = h
chunks (suc left) msg h = chunks left (drop 64 msg) (chunk msg h)

abbrev pub first_words : Words
first_words = record {
  a = 1779033703;
  b = 3144134277;
  c = 1013904242;
  d = 2773480762;
  e = 1359893119;
  f = 2600822924;
  g = 528734635;
  hh = 1541459225;
}

-- the loop over the shifts, for one word
unfoldable pub word_hex : ℕ → ℕ → Bytes
unfolding hex_digit
word_hex zero word = []
word_hex (suc i) word = hex_digit (word / 2 ^ (i * 4) % 16) ∷ word_hex i word

-- the loop over the words
unfoldable pub words_hex : List ℕ → Bytes
unfolding word_hex
words_hex [] = []
words_hex (word ∷ ws) = word_hex 8 word ++ words_hex ws

unfoldable pub digest_hex : Words → Bytes
unfolding words_hex
digest_hex h = words_hex (h.a ∷ h.b ∷ h.c ∷ h.d ∷ h.e ∷ h.f ∷ h.g ∷ h.hh ∷ [])

unfoldable pub sha256_fallback_hex : Bytes → Bytes
unfolding padded chunks digest_hex
sha256_fallback_hex payload =
    let msg = padded payload in digest_hex (chunks (length msg / 64) msg first_words)
