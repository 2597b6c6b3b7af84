-- ===== src/Canonical.antt =====
-- src/core/util/canonical.cpp: trimming, case folding, and the canonical `key=value` payloads.
-- std::isspace and std::tolower are those of the "C" locale, which the program never changes.
pub mod RoundTrip
pub mod Trim
use got_soup.Prelude.{
  ℕ, ◌+◌, Bytes, Bool, true, false, ◌&&◌, ◌||◌, not, List, [], ◌∷◌, ◌++◌, map, leb, ◌==◌, lt_bytes,
  is_empty, if◌then◌else◌, nat_eq, bytes_eq,
}
use got_soup.Prelude.Dict.{Dict, emplace}
use got_soup.Prelude.Sort.{sort}

unfoldable pub is_space : ℕ → Bool
is_space c = c == b' ' || (leb 9 c && leb c 13)

unfoldable pub to_lower : ℕ → ℕ
to_lower c = if leb b'A' c && leb c b'Z' then c + 32 else c

unfoldable pub lowercase_copy : Bytes → Bytes
lowercase_copy value = map to_lower value

-- the loop on `begin`
unfoldable pub trim_begin : Bytes → Bytes
trim_begin [] = []
trim_begin (c ∷ cs) = if is_space c then trim_begin cs else c ∷ cs

-- the loop on `end`, which stops at the first byte from the right that is no space
unfoldable pub trim_end : Bytes → Bytes
trim_end [] = []
trim_end (c ∷ cs) = let rest = trim_end cs in if is_empty rest && is_space c then [] else c ∷ rest

unfoldable pub trim_copy : Bytes → Bytes
unfolding trim_begin trim_end
trim_copy value = trim_end (trim_begin value)

abbrev pub Field : Type 0
Field = Bytes × Bytes

unfoldable pub escape_byte : ℕ → Bytes
escape_byte c =
    if c == b'\n' then b'\\' ∷ b'n' ∷ [] else if c == b'\\' then b'\\' ∷ b'\\' ∷ [] else c ∷ []

unfoldable pub escape : Bytes → Bytes
escape [] = []
escape (c ∷ cs) = escape_byte c ++ escape cs

-- the body of the loop of `canonical_join`
unfoldable pub write_field : Field → Bytes
write_field (key, value) = key ++ (b'=' ∷ (escape value ++ b'\n' ∷ []))

unfoldable pub write_fields : List Field → Bytes
write_fields [] = []
write_fields (f ∷ fs) = write_field f ++ write_fields fs

abbrev pub by_key : Field → Field → Bool
by_key lhs rhs = lt_bytes lhs.0 rhs.0

unfoldable pub canonical_join : List Field → Bytes
canonical_join fields = write_fields (sort by_key fields)

-- the locals of `parse_canonical_map`
pub record Reader : Type 0 where
  pub parsed : Dict Bytes Bytes
  pub key : Bytes
  pub value : Bytes
  pub reading_key : Bool
  pub escaping : Bool

abbrev pub fresh_reader : Dict Bytes Bytes → Reader
fresh_reader parsed = record {
  parsed = parsed;
  key = [];
  value = [];
  reading_key = true;
  escaping = false;
}

-- `if (!key.empty()) parsed.emplace(key, value)`
unfoldable pub keep_field : Reader → Dict Bytes Bytes
keep_field r = if is_empty r.key then r.parsed else emplace r.key r.value r.parsed

unfoldable pub read_byte : Reader → ℕ → Reader
unfolding keep_field
read_byte r c =
    if r.reading_key
    then (if c == b'='
        then record r { reading_key = false }
        else if c == b'\n'
        then record r { key = [] }
        else record r { key = r.key ++ c ∷ [] })
    else if r.escaping
    then record r { value = r.value ++ (if c == b'n' then b'\n' else c) ∷ []; escaping = false }
    else if c == b'\\'
    then record r { escaping = true }
    else if c == b'\n'
    then record r { parsed = keep_field r; key = []; value = []; reading_key = true }
    else record r { value = r.value ++ c ∷ [] }

unfoldable pub read_bytes : Reader → Bytes → Reader
read_bytes r [] = r
read_bytes r (c ∷ cs) = read_bytes (read_byte r c) cs

-- the last field may lack its newline
unfoldable pub finish_reading : Reader → Dict Bytes Bytes
unfolding keep_field
finish_reading r = if r.reading_key then r.parsed else keep_field r

unfoldable pub parse_canonical_map : Bytes → Dict Bytes Bytes
unfolding read_bytes read_byte finish_reading
parse_canonical_map payload = finish_reading (read_bytes (fresh_reader []) payload)

unfoldable pub starts_with : Bytes → Bytes → Bool
starts_with [] _ = true
starts_with (n ∷ ns) [] = false
starts_with (n ∷ ns) (c ∷ cs) = c == n && starts_with ns cs

-- std::string::find(n) != npos
unfoldable pub finds : Bytes → Bytes → Bool
unfolding starts_with
finds n [] = is_empty n
finds n (c ∷ cs) = starts_with n (c ∷ cs) || finds n cs

unfoldable pub contains_case_insensitive : Bytes → Bytes → Bool
contains_case_insensitive haystack needle =
    if is_empty needle then true else finds (lowercase_copy needle) (lowercase_copy haystack)
