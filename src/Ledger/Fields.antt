-- ===== src/Ledger/Fields.antt =====
-- Fields of a payload that hold printed numbers (parse_int64_or_zero and parse_uint64 of
-- src/core/storage/store.cpp).
use got_soup.Prelude.{
  ℕ, ◌^◌, ◌<◌, Bytes, true, bytes_eq, text, some, ◌≡◌, refl, arith, is_empty, false, ◌∷◌, ◌++◌,
}
use got_soup.Prelude.Int.{ℤ, IsInt64}
use got_soup.Prelude.Dict.{lookup}
use got_soup.Prelude.Decimal.{print_ℤ, print_ℕ, read_signed-print_ℤ, read_unsigned-print_ℕ}
use got_soup.Ledger.{
  Payload, int_field, text_field, uint_field, parse_int64_or_zero, parse_uint64, has_witness,
  Context, claim_difficulty, to_int32, has_leading_zero_nibbles, pow_is_valid,
}

pub int_field-printed :
    (key : Bytes) (p : Payload) (a : ℤ)
    → IsInt64 a
    → lookup key p ≡ some (print_ℤ a)
    → int_field key p ≡ a
unfolding int_field parse_int64_or_zero
int_field-printed key p a fits h =
    rw (h, int_field, parse_int64_or_zero, read_signed-print_ℤ a fits) refl

pub uint_field-printed :
    (key : Bytes) (p : Payload) (n : ℕ)
    → n < 2 ^ 64
    → lookup key p ≡ some (print_ℕ n)
    → uint_field key p ≡ some n
unfolding uint_field parse_uint64
uint_field-printed key p n fits h = rw (h, uint_field) (read_unsigned-print_ℕ (2 ^ 64) n fits)

pub text_field-found :
    (key : Bytes) (p : Payload) (v : Bytes) → lookup key p ≡ some v → text_field key p ≡ v
unfolding text_field
text_field-found key p v h = ground arith

pub has_witness-found :
    (p : Payload) (v : Bytes) → lookup (text "witness_root") p ≡ some v → has_witness v p ≡ true
unfolding has_witness
has_witness-found p v h = rw (h, has_witness) ((bytes_eq.equals_iff v v).1 refl)

pub claim_difficulty-printed :
    (c : Context) (p : Payload) (d : ℤ)
    → IsInt64 d
    → lookup (text "pow_difficulty") p ≡ some (print_ℤ d)
    → claim_difficulty c p ≡ to_int32 d
unfolding claim_difficulty parse_int64_or_zero
claim_difficulty-printed c p d fits h =
    rw (h, claim_difficulty, parse_int64_or_zero, read_signed-print_ℤ d fits) refl

pub pow_is_valid-found :
    (c : Context) (p : Payload) (found material nonce : Bytes)
    → text_field (text "pow_hash") p ≡ found
    → text_field (text "pow_material") p ≡ material
    → text_field (text "pow_nonce") p ≡ nonce
    → is_empty found ≡ false
    → found ≡ c.hash (material ++ (b'|' ∷ nonce))
    → has_leading_zero_nibbles found (claim_difficulty c p) ≡ true
    → pow_is_valid c p ≡ true
unfolding pow_is_valid
pow_is_valid-found c p found material nonce a b d filled hashed zeros =
    rw
      (
        a,
        b,
        d,
        filled,
        zeros,
        (bytes_eq.equals_iff found (c.hash (material ++ (b'|' ∷ nonce)))).1 hashed,
      )
      refl
