-- ===== src/Canonical/RoundTrip.antt =====
-- What `parse_canonical_map` reads back from `canonical_join` (src/core/util/canonical.cpp).
use got_soup.Prelude.{
  ℕ, Bytes, Bool, true, false, ◌||◌, not, List, [], ◌∷◌, ◌++◌, ◌≡◌, refl, ◌∙◌, Option, none, some,
  arith, ◌==◌, is_empty, nat_eq, bytes_eq, Bool-cases, inl, inr, All, append-nil, append_assoc,
  lt_bytes,
}
use got_soup.Prelude.Dict.{Dict, emplace, lookup, has, lookup-emplace}
use got_soup.Prelude.Sort.{sort, insert_sorted}
use got_soup.Canonical.{
  Field, Reader, fresh_reader, read_byte, read_bytes, escape, escape_byte, write_field,
  write_fields, by_key, canonical_join, parse_canonical_map,
}

-- A key that the format can carry: not empty, with no `=` and no newline.
abbrev pub is_key_byte : ℕ → Bool
is_key_byte c = not (c == b'=' || c == b'\n')

abbrev pub IsKey : Bytes → Type 0
IsKey key = (is_empty key ≡ false) × All (λ c. is_key_byte c ≡ true) key

read_bytes-append :
    (a b : Bytes) (r : Reader) → read_bytes r (a ++ b) ≡ read_bytes (read_bytes r a) b
unfolding read_bytes
read_bytes-append [] b r = refl
read_bytes-append (c ∷ a) b r = read_bytes-append a b (read_byte r c)

read_bytes_key :
    (key : Bytes) (r : Reader)
    → r.reading_key ≡ true
    → All (λ c. is_key_byte c ≡ true) key
    → read_bytes r key ≡ record r { key = r.key ++ key }
unfolding read_bytes
read_bytes_key [] r reading ok = rw append-nil
read_bytes_key (c ∷ key) r reading (ok, oks) =
    let step : read_byte r c ≡ record r { key = r.key ++ c ∷ [] } =
      unfold read_byte in ground arith in
    rw step (read_bytes_key key (record r { key = r.key ++ c ∷ [] }) reading oks ∙ rw append_assoc)

read_bytes-escape_byte :
    (c : ℕ) (r : Reader)
    → r.reading_key ≡ false
    → r.escaping ≡ false
    → read_bytes r (escape_byte c) ≡ record r { value = r.value ++ c ∷ [] }
unfolding read_bytes read_byte escape_byte
read_bytes-escape_byte c r reading plain = ground arith

read_bytes-escape :
    (value : Bytes) (r : Reader)
    → r.reading_key ≡ false
    → r.escaping ≡ false
    → read_bytes r (escape value) ≡ record r { value = r.value ++ value }
unfolding escape
read_bytes-escape [] r reading plain = rw append-nil (unfold read_bytes in refl)
read_bytes-escape (c ∷ value) r reading plain =
    read_bytes-append (escape_byte c) (escape value) r
    ∙ rw (read_bytes-escape_byte c r reading plain) (
        read_bytes-escape value (record r { value = r.value ++ c ∷ [] }) reading plain
        ∙ rw append_assoc)

abbrev in_value : Bytes → Bytes → Dict Bytes Bytes → Reader
in_value key value parsed = record {
  parsed = parsed;
  key = key;
  value = value;
  reading_key = false;
  escaping = false;
}

close_value :
    (key value : Bytes) (parsed : Dict Bytes Bytes)
    → is_empty key ≡ false
    → read_bytes (in_value key value parsed) (b'\n' ∷ []) ≡ fresh_reader (emplace key value parsed)
unfolding read_bytes read_byte
close_value key value parsed filled = rw filled

open_value :
    (key rest : Bytes) (parsed : Dict Bytes Bytes)
    → read_bytes (record (fresh_reader parsed) { key = key }) (b'=' ∷ rest)
      ≡ read_bytes (in_value key [] parsed) rest
unfolding read_bytes read_byte
open_value key rest parsed = refl

-- One written field is read back as one `emplace`.
read_bytes-write_field :
    (key value : Bytes) (parsed : Dict Bytes Bytes)
    → IsKey key
    → read_bytes (fresh_reader parsed) (write_field (key, value))
      ≡ fresh_reader (emplace key value parsed)
unfolding write_field
read_bytes-write_field key value parsed (filled, ok) =
    read_bytes-append key (b'=' ∷ (escape value ++ b'\n' ∷ [])) (fresh_reader parsed)
    ∙ rw (read_bytes_key key (fresh_reader parsed) refl ok) (
        open_value key (escape value ++ b'\n' ∷ []) parsed
        ∙ read_bytes-append (escape value) (b'\n' ∷ []) (in_value key [] parsed)
        ∙ rw (read_bytes-escape value (in_value key [] parsed) refl refl)
            (close_value key value parsed filled))

-- The map that the fields make, in their order: the first value of a key stays.
abbrev emplace_all : List Field → Dict Bytes Bytes → Dict Bytes Bytes
emplace_all [] d = d
emplace_all ((k, v) ∷ fs) d = emplace_all fs (emplace k v d)

abbrev pub HasKeys : List Field → Type 0
HasKeys fs = All (λ (f : Field). IsKey f.0) fs

read_bytes-write_fields :
    (fs : List Field) (parsed : Dict Bytes Bytes)
    → HasKeys fs
    → read_bytes (fresh_reader parsed) (write_fields fs) ≡ fresh_reader (emplace_all fs parsed)
unfolding write_fields
read_bytes-write_fields [] parsed ok = unfold read_bytes in refl
read_bytes-write_fields ((k, v) ∷ fs) parsed (ok, oks) =
    read_bytes-append (write_field (k, v)) (write_fields fs) (fresh_reader parsed)
    ∙ rw (read_bytes-write_field k v parsed ok)
        (read_bytes-write_fields fs (emplace k v parsed) oks)

abbrev or_else : Option Bytes → Option Bytes → Option Bytes
or_else none b = b
or_else (some a) b = some a

lookup-emplace_all :
    (j : Bytes) (fs : List Field) (d : Dict Bytes Bytes)
    → lookup j (emplace_all fs d) ≡ or_else (lookup j d) (lookup j fs)
lookup-emplace_all j [] d = unfold lookup in ground arith
lookup-emplace_all j ((k, v) ∷ fs) d =
    lookup-emplace_all j fs (emplace k v d)
    ∙ rw lookup-emplace (unfold lookup in ground (arith, bytes_eq.equals_iff k j))

lt_bytes_irrefl : (a : Bytes) → lt_bytes a a ≡ false
lt_bytes_irrefl [] = refl
lt_bytes_irrefl (x ∷ a) = ground (arith, lt_bytes_irrefl a)

lookup-insert_sorted :
    (j : Bytes) (f : Field) (fs : List Field)
    → lookup j (insert_sorted by_key f fs) ≡ lookup j (f ∷ fs)
unfolding insert_sorted lookup
lookup-insert_sorted j f [] = refl
lookup-insert_sorted j f (g ∷ fs) = ground (
  arith,
  lookup-insert_sorted j f fs,
  bytes_eq.equals_iff f.0 j,
  bytes_eq.equals_iff g.0 j,
  lt_bytes_irrefl j,
)

lookup-cons :
    (j : Bytes) (f : Field) (a b : List Field)
    → lookup j a ≡ lookup j b
    → lookup j (f ∷ a) ≡ lookup j (f ∷ b)
unfolding lookup
lookup-cons j f a b h = ground arith

lookup-sort : (j : Bytes) (fs : List Field) → lookup j (sort by_key fs) ≡ lookup j fs
unfolding sort
lookup-sort j [] = refl
lookup-sort j (f ∷ fs) =
    lookup-insert_sorted j f (sort by_key fs)
    ∙ lookup-cons j f (sort by_key fs) fs (lookup-sort j fs)

HasKeys-insert_sorted :
    (f : Field) (fs : List Field) → HasKeys (f ∷ fs) → HasKeys (insert_sorted by_key f fs)
unfolding insert_sorted
HasKeys-insert_sorted f [] h = h
HasKeys-insert_sorted f (g ∷ fs) (h, (k, ks)) = elim (Bool-cases (lt_bytes g.0 f.0)) [
  | inl below ↦ rw below (k, HasKeys-insert_sorted f fs (h, ks))
  | inr above ↦ rw above (h, (k, ks))
]

HasKeys-sort : (fs : List Field) → HasKeys fs → HasKeys (sort by_key fs)
unfolding sort
HasKeys-sort [] h = h
HasKeys-sort (f ∷ fs) (h, hs) = HasKeys-insert_sorted f (sort by_key fs) (h, HasKeys-sort fs hs)

-- No two fields share a key, so that the order of std::ranges::sort is determined.
abbrev pub Distinct : List Field → Type 0
Distinct [] = Unit
Distinct ((k, v) ∷ fs) = (has k fs ≡ false) × Distinct fs

-- For fields with distinct keys that are not empty and hold neither `=` nor a newline, the map that
-- `parse_canonical_map` reads from their canonical form has at every key the value that the fields
-- give it, whatever bytes it holds, and nothing at any other key.
pub parse_canonical_map-canonical_join :
    (fs : List Field) (j : Bytes)
    → HasKeys fs
    → Distinct fs
    → lookup j (parse_canonical_map (canonical_join fs)) ≡ lookup j fs
unfolding parse_canonical_map canonical_join lookup
parse_canonical_map-canonical_join fs j ok distinct =
    rw (read_bytes-write_fields (sort by_key fs) [] (HasKeys-sort fs ok))
      (lookup-emplace_all j (sort by_key fs) [] ∙ lookup-sort j fs)
