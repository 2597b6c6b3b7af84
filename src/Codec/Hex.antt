-- ===== src/Codec/Hex.antt =====
-- Writing and reading hexadecimal payloads (to_hex, from_hex of src/core/storage/store.cpp).
use got_soup.Prelude.{
  ℕ, ◌*◌, ◌/◌, ◌%◌, ◌<◌, Bytes, [], ◌∷◌, ◌≡◌, refl, some, arith, All, length, leb, Bool, true, ◌&&◌,
  ◌==◌, nat_eq,
}
use got_soup.Codec.{hex_digit, to_hex, from_hex_digit, hex_pairs, from_hex}

abbrev pub AreBytes : Bytes → Type 0
AreBytes = All (λ c. c < 256)

from_hex_digit-hex_digit : (n : ℕ) → n < 16 → from_hex_digit (hex_digit n) ≡ some n
unfolding from_hex_digit hex_digit
from_hex_digit-hex_digit n h = ground arith

hex_pairs-to_hex : (b : Bytes) → AreBytes b → hex_pairs (to_hex b) ≡ some b
unfolding to_hex hex_pairs
hex_pairs-to_hex [] h = refl
hex_pairs-to_hex (c ∷ b) (h, hs) = ground (
  arith,
  hex_pairs-to_hex b hs,
  from_hex_digit-hex_digit (c / 16 % 16),
  from_hex_digit-hex_digit (c % 16),
)

length-to_hex : (b : Bytes) → length (to_hex b) ≡ 2 * length b
unfolding to_hex
length-to_hex [] = refl
length-to_hex (c ∷ b) = omega (arith, length-to_hex b)

even : (n m : ℕ) → n ≡ 2 * m → (n % 2 == 0) ≡ true
even n m h = ground arith

-- Every string of bytes is read back from its hexadecimal form.
pub from_hex-to_hex : (b : Bytes) → AreBytes b → from_hex (to_hex b) ≡ b
unfolding from_hex
from_hex-to_hex b h =
    rw (even (length (to_hex b)) (length b) (length-to_hex b), hex_pairs-to_hex b h)

-- Hexadecimal digits, of which the log's separators are none.
abbrev pub is_hex_byte : ℕ → Bool
is_hex_byte c = leb b'0' c && leb c b'f'

pub to_hex-digits : (b : Bytes) → All (λ c. is_hex_byte c ≡ true) (to_hex b)
unfolding to_hex
to_hex-digits [] = tt
to_hex-digits (c ∷ b) =
    (digit (c / 16 % 16) (omega arith), (digit (c % 16) (omega arith), to_hex-digits b))
  where
    digit : (n : ℕ) → n < 16 → is_hex_byte (hex_digit n) ≡ true
    digit n h = ground arith
