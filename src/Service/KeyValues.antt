-- ===== src/Service/KeyValues.antt =====
-- Files of lines `key=value` (src/core/service/alpha_service.cpp): spaces around keys and values do not count, nor
-- do empty lines and lines that begin with '#'.
pub mod Lines
use got_soup.Prelude.{
  Bytes, Bool, true, false, ◌||◌, List, [], ◌∷◌, ◌++◌, ◌==◌, ◌^◌, bytes_eq, text, none, some,
  if◌then◌else◌,
}
use got_soup.Prelude.Int.{ℤ}
use got_soup.Prelude.Dict.{Dict, insert, lookup}
use got_soup.Prelude.Decimal.{read_signed}
use got_soup.Canonical.{trim_copy}
use got_soup.Codec.{is_skipped, split_at}
use got_soup.Crypto.{split_first}

-- one `out << key << "=" << value << '\n'`
unfoldable pub write_key_values : List (Bytes × Bytes) → Bytes
write_key_values [] = []
write_key_values ((key, value) ∷ fields) =
    key ++ (b'=' ∷ (value ++ (b'\n' ∷ write_key_values fields)))

-- a line that is neither empty nor a comment
unfoldable pub keep_key_value : Bytes → Dict Bytes Bytes → Dict Bytes Bytes
unfolding split_first
keep_key_value trimmed fields = elim (split_first b'=' trimmed) [
  | none ↦ fields
  | some (key, value) ↦ insert (trim_copy key) (trim_copy value) fields
]

-- the loop over the lines
unfoldable pub keep_key_values : List Bytes → Dict Bytes Bytes → Dict Bytes Bytes
unfolding keep_key_value
keep_key_values [] fields = fields
keep_key_values (line ∷ lines) fields =
    let trimmed = trim_copy line in
    keep_key_values lines (if is_skipped trimmed then fields else keep_key_value trimmed fields)

unfoldable pub parse_key_values_file : Bytes → Dict Bytes Bytes
unfolding keep_key_values
parse_key_values_file file = keep_key_values (split_at b'\n' file) []

unfoldable pub parse_int64_default : Bytes → ℤ → ℤ
parse_int64_default t fallback = elim (read_signed (2 ^ 63) t) [ none ↦ fallback | some v ↦ v ]

-- a field with a flag: the member keeps its value where the field is missing
unfoldable pub flag_field : Bytes → Dict Bytes Bytes → Bool → Bool
flag_field key fields kept = elim (lookup key fields) [
  | none ↦ kept
  | some value ↦ value == text "1" || value == text "true"
]

-- a field with a number
unfoldable pub number_field : Bytes → Dict Bytes Bytes → ℤ → ℤ → ℤ
unfolding parse_int64_default
number_field key fields kept fallback = elim (lookup key fields) [
  | none ↦ kept
  | some value ↦ parse_int64_default value fallback
]

abbrev pub flag_text : Bool → Bytes
flag_text b = if b then text "1" else text "0"
