-- ===== src/Crypto/Streams.antt =====
-- The records of src/core/crypto/crypto.hpp, and of crypto.cpp the hash and the signature of the build without
-- libsodium, the cipher and the lines of its files.
use Prim.Native.Nat.{bit_xor}
use got_soup.Prelude.{
  ℕ, zero, suc, ◌+◌, ◌*◌, ◌/◌, ◌%◌, ◌^◌, Bytes, Bool, not, List, [], ◌∷◌, ◌++◌, ltb, ◌==◌, is_empty,
  if◌then◌else◌, nat_eq, bytes_eq, text, Option, none, some, length,
}
use got_soup.Prelude.Int.{ℤ}
use got_soup.Prelude.Dict.{Dict, insert}
use got_soup.Codec.{hex_digit, split_at}

pub record Identity : Type 0 where
  pub public_key : Bytes
  pub private_key : Bytes
  pub cid : Bytes

pub record CryptoEngine : Type 0 where
  pub app_data_dir : Bytes
  pub ready : Bool
  pub identity : Identity
  pub last_unlocked_unix : ℤ
  pub last_locked_unix : ℤ

-- FNV-1a over uint64
unfoldable pub fnv : ℕ → Bytes → ℕ
fnv h [] = h
fnv h (c ∷ cs) = fnv (bit_xor h c * 1099511628211 % 2 ^ 64) cs

-- `out << std::hex << n`, with fuel for the digits
unfoldable pub hex_number : ℕ → ℕ → Bytes
unfolding hex_digit
hex_number zero n = []
hex_number (suc f) n =
    let more = hex_number f (n / 16) ++ hex_digit (n % 16) ∷ [] in
    if ltb n 16 then hex_digit n ∷ [] else more

unfoldable pub hash_bytes : Bytes → Bytes
unfolding fnv hex_number
hash_bytes payload = hex_number 16 (fnv 1469598103934665603 payload)

unfoldable pub content_id : Bytes → Bytes
content_id payload = text "evt-" ++ hash_bytes payload

unfoldable pub sign : CryptoEngine → Bytes → Bytes
sign k payload =
    if not k.ready then [] else hash_bytes (payload ++ (text "::" ++ k.identity.public_key))

unfoldable pub verify : Bytes → Bytes → Bytes → Bool
verify payload signature public_key = hash_bytes (payload ++ (text "::" ++ public_key)) == signature

unfoldable pub derive_vault_key : Bytes → Bytes → Bytes
derive_vault_key passphrase salt =
    hash_bytes (passphrase ++ (text "::" ++ (salt ++ text "::argon2id-placeholder")))

-- `key[i]`, for an index in range
abbrev pub byte_at : ℕ → Bytes → ℕ
byte_at i [] = 0
byte_at zero (c ∷ cs) = c
byte_at (suc i) (c ∷ cs) = byte_at i cs

-- the loop of `xor_stream`, from index `i` on
unfoldable pub xor_from : ℕ → Bytes → Bytes → Bytes
xor_from i key [] = []
xor_from i key (c ∷ cs) = bit_xor c (byte_at (i % length key) key) ∷ xor_from (i + 1) key cs

unfoldable pub xor_stream : Bytes → Bytes → Bytes
unfolding xor_from
xor_stream input key = if is_empty key then input else xor_from 0 key input

-- the bytes before and after the first `sep`; `none` is npos
unfoldable pub split_first : ℕ → Bytes → Option (Bytes × Bytes)
split_first sep [] = none
split_first sep (c ∷ cs) =
    if c == sep
    then some ([], cs)
    else elim (split_first sep cs) [ none ↦ none | some (before, after) ↦ some (c ∷ before, after) ]

-- the body of the loop of `parse_key_values`
unfoldable pub keep_line : Bytes → Dict Bytes Bytes → Dict Bytes Bytes
unfolding split_first
keep_line line values = elim (split_first b'=' line) [
  | none ↦ values
  | some (key, value) ↦ insert key value values
]

unfoldable pub keep_lines : List Bytes → Dict Bytes Bytes → Dict Bytes Bytes
keep_lines [] values = values
keep_lines (line ∷ lines) values = keep_lines lines (keep_line line values)

-- std::getline does not give the empty text after the last newline; here it is a line without `=`
unfoldable pub parse_key_values : Bytes → Dict Bytes Bytes
unfolding keep_lines keep_line split_at
parse_key_values file = keep_lines (split_at b'\n' file) []
