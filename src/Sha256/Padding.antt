-- ===== src/Sha256/Padding.antt =====
-- The padding of a message (src/core/util/hash.cpp).
use got_soup.Prelude.{
  ℕ, zero, suc, ◌+◌, ◌-◌, ◌*◌, ◌%◌, ◌^◌, ◌<◌, Bytes, ◌∷◌, ◌++◌, ◌==◌, nat_eq, length, length-append,
  ◌≡◌, refl, ap, arith, Bool-cases, inl, inr,
}
use got_soup.Sha256.{zeros, length_bytes, padded}

-- how many zeros are missing
abbrev gap : ℕ → ℕ
gap size = (120 - size % 64) % 64

zeros-fills : (fuel size : ℕ) → gap size < fuel → (size + length (zeros fuel size)) % 64 ≡ 56
unfolding zeros
zeros-fills zero size h = absurd (omega arith)
zeros-fills (suc fuel) size h = elim (Bool-cases (size % 64 == 56)) [
  | inl full ↦ rw full (ground arith)
  | inr short ↦ rw short (omega (arith, zeros-fills fuel (size + 1) (ground arith)))
]

length-length_bytes : (n bit_len : ℕ) → length (length_bytes n bit_len) ≡ n
unfolding length_bytes
length-length_bytes zero bit_len = refl
length-length_bytes (suc i) bit_len = ap suc (length-length_bytes i bit_len)

-- The padded message is made of whole chunks: the fuel for the zeros is enough.
pub length-padded : (m : Bytes) → length (padded m) % 64 ≡ 0
unfolding padded
length-padded m =
    let filled = zeros 64 (length m + 1) in
    let sizes = length_bytes 8 (length m * 8 % 2 ^ 64) in
    omega (
      arith,
      length-append m (128 ∷ (filled ++ sizes)),
      length-append filled sizes,
      length-length_bytes 8 (length m * 8 % 2 ^ 64),
      zeros-fills 64 (length m + 1) (omega arith),
    )

padded_brackets :
    (m : Bytes)
    → padded m ≡ m ++ ((128 ∷ zeros 64 (length m + 1)) ++ length_bytes 8 (length m * 8 % 2 ^ 64))
unfolding padded
padded_brackets m = refl
