-- ===== src/Service/KeyValues/Lines.antt =====
-- What is written as lines `key=value` is read back (src/core/service/alpha_service.cpp).
use got_soup.Prelude.{
  Bytes, true, false, List, [], ◌∷◌, ◌++◌, ◌==◌, ◌&&◌, not, nat_eq, bytes_eq, is_empty, ◌≡◌, refl,
  ◌∙◌, ap, arith, text, All, Bool, ◌||◌, leb, suc,
}
use got_soup.Prelude.Int.{ℤ, pos, negsuc, IsInt64}
use got_soup.Prelude.Decimal.{print_ℤ, print_ℕ, print_ℕ-digits, is_digit, read_signed-print_ℤ}
use got_soup.Prelude.Dict.{Dict, insert}
use got_soup.Canonical.{is_space, trim_copy, trim_begin, trim_end}
use got_soup.Canonical.Trim.{BeginsSolid, EndsSolid, trim_copy-Trims}
use got_soup.Codec.{is_skipped, split_at}
use got_soup.Codec.Lines.{split_at_piece}
use got_soup.Crypto.Backup.{HasNo, HasNo-line, split_first_piece, insert_all}
use got_soup.Service.KeyValues.{
  flag_text, write_key_values, keep_key_value, keep_key_values, parse_key_values_file,
  parse_int64_default,
}

-- A key: not empty, no comment, and without '=', newlines and spaces around it.
pub record IsKey (k : Bytes) : Type 0 where
  pub trimmed : trim_copy k ≡ k
  pub shown : is_skipped k ≡ false
  pub no_equals : HasNo b'=' k
  pub no_newline : HasNo b'\n' k

-- A value that a line can carry.
pub record IsTrimmed (v : Bytes) : Type 0 where
  pub trimmed : trim_copy v ≡ v
  pub no_newline : HasNo b'\n' v

abbrev pub AreFields : List (Bytes × Bytes) → Type 0
AreFields [] = Unit
AreFields ((k, v) ∷ fs) = IsKey k × IsTrimmed v × AreFields fs

trim_begin-solid : (v : Bytes) → BeginsSolid v → trim_begin v ≡ v
unfolding trim_begin
trim_begin-solid [] h = refl
trim_begin-solid (c ∷ cs) h = rw h refl

trim_end-solid : (v : Bytes) → EndsSolid v → trim_end v ≡ v
unfolding trim_end
trim_end-solid [] h = refl
trim_end-solid (c ∷ []) h = rw h refl
trim_end-solid (c ∷ d ∷ cs) h = rw (trim_end-solid (d ∷ cs) h) refl

pub trim_copy-solid : (v : Bytes) → BeginsSolid v → EndsSolid v → trim_copy v ≡ v
unfolding trim_copy
trim_copy-solid v h g = rw (trim_begin-solid v h) (trim_end-solid v g)

EndsSolid-cons_equals : (v : Bytes) → EndsSolid v → EndsSolid (b'=' ∷ v)
EndsSolid-cons_equals [] h = unfold is_space in refl
EndsSolid-cons_equals (c ∷ v) h = h

EndsSolid-append : (k v : Bytes) → EndsSolid v → EndsSolid (k ++ (b'=' ∷ v))
EndsSolid-append [] v h = EndsSolid-cons_equals v h
EndsSolid-append (c ∷ []) v h = EndsSolid-cons_equals v h
EndsSolid-append (c ∷ d ∷ k) v h = EndsSolid-append (d ∷ k) v h

BeginsSolid-line :
    (k v : Bytes) → is_skipped k ≡ false → BeginsSolid k → BeginsSolid (k ++ (b'=' ∷ v))
unfolding is_skipped
BeginsSolid-line [] v h g = cc
BeginsSolid-line (c ∷ k) v h g = g

skipped-line : (k v : Bytes) → is_skipped k ≡ false → is_skipped (k ++ (b'=' ∷ v)) ≡ false
unfolding is_skipped
skipped-line [] v h = cc
skipped-line (c ∷ k) v h = h

trimmed_begins : (v : Bytes) → trim_copy v ≡ v → BeginsSolid v
trimmed_begins v h = rw h at ((trim_copy-Trims v).begins)

pub trimmed_ends : (v : Bytes) → trim_copy v ≡ v → EndsSolid v
trimmed_ends v h = rw h at ((trim_copy-Trims v).ends)

trim_copy-line :
    (k v : Bytes) → IsKey k → IsTrimmed v → trim_copy (k ++ (b'=' ∷ v)) ≡ k ++ (b'=' ∷ v)
trim_copy-line k v h g =
    trim_copy-solid (k ++ (b'=' ∷ v)) (BeginsSolid-line k v h.shown (trimmed_begins k h.trimmed))
      (EndsSolid-append k v (trimmed_ends v g.trimmed))

line_bracket :
    (k v rest : Bytes) → k ++ (b'=' ∷ (v ++ (b'\n' ∷ rest))) ≡ (k ++ (b'=' ∷ v)) ++ (b'\n' ∷ rest)
line_bracket [] v rest = refl
line_bracket (c ∷ k) v rest = ap (λ (b : Bytes). c ∷ b) (line_bracket k v rest)

keep_key_values-line :
    (k v : Bytes) (lines : List Bytes) (d : Dict Bytes Bytes)
    → IsKey k
    → IsTrimmed v
    → keep_key_values ((k ++ (b'=' ∷ v)) ∷ lines) d ≡ keep_key_values lines (insert k v d)
unfolding keep_key_values keep_key_value
keep_key_values-line k v lines d h g =
    rw
      (
        trim_copy-line k v h g,
        skipped-line k v h.shown,
        keep_key_value,
        split_first_piece k v h.no_equals,
        h.trimmed,
        g.trimmed,
      )
      refl

keep_key_values-write_key_values :
    (fs : List (Bytes × Bytes)) (d : Dict Bytes Bytes)
    → AreFields fs
    → keep_key_values (split_at b'\n' (write_key_values fs)) d ≡ insert_all fs d
unfolding write_key_values split_at
keep_key_values-write_key_values [] d h =
    unfold keep_key_values trim_copy trim_begin trim_end is_skipped in refl
keep_key_values-write_key_values ((k, v) ∷ fs) d (key, value, hs) =
    ap (λ (b : Bytes). keep_key_values (split_at b'\n' b) d)
      (line_bracket k v (write_key_values fs))
    ∙ ap (λ (ls : List Bytes). keep_key_values ls d)
        (split_at_piece b'\n' (k ++ (b'=' ∷ v)) (write_key_values fs)
          (HasNo-line k v key.no_newline value.no_newline))
    ∙ keep_key_values-line k v (split_at b'\n' (write_key_values fs)) d key value
    ∙ keep_key_values-write_key_values fs (insert k v d) hs

-- A file that begins with one comment line.
pub parse_key_values_file-commented :
    (comment : Bytes) (fs : List (Bytes × Bytes))
    → HasNo b'\n' comment
    → is_skipped (trim_copy comment) ≡ true
    → AreFields fs
    → parse_key_values_file (comment ++ (b'\n' ∷ write_key_values fs)) ≡ insert_all fs []
unfolding parse_key_values_file keep_key_values
parse_key_values_file-commented comment fs line skipped h =
    ap (λ (ls : List Bytes). keep_key_values ls [])
      (split_at_piece b'\n' comment (write_key_values fs) line)
    ∙ rw (keep_key_values, skipped) (keep_key_values-write_key_values fs [] h)

pub parse_int64_default-print_ℤ :
    (a fallback : ℤ) → IsInt64 a → parse_int64_default (print_ℤ a) fallback ≡ a
unfolding parse_int64_default
parse_int64_default-print_ℤ a fallback fits =
    rw (parse_int64_default, read_signed-print_ℤ a fits) refl

BeginsSolid-solid : (v : Bytes) → All (λ c. is_space c ≡ false) v → BeginsSolid v
BeginsSolid-solid [] h = tt
BeginsSolid-solid (c ∷ v) h = h.0

EndsSolid-solid : (v : Bytes) → All (λ c. is_space c ≡ false) v → EndsSolid v
EndsSolid-solid [] h = tt
EndsSolid-solid (c ∷ []) h = h.0
EndsSolid-solid (c ∷ d ∷ v) h = EndsSolid-solid (d ∷ v) h.1

HasNo-solid : (v : Bytes) → All (λ c. is_space c ≡ false) v → HasNo b'\n' v
unfolding is_space
HasNo-solid [] h = tt
HasNo-solid (c ∷ v) (h, hs) = (ground arith, HasNo-solid v hs)

-- A text without spaces.
pub IsTrimmed-solid : (v : Bytes) → All (λ c. is_space c ≡ false) v → IsTrimmed v
IsTrimmed-solid v h = record {
  trimmed = trim_copy-solid v (BeginsSolid-solid v h) (EndsSolid-solid v h);
  no_newline = HasNo-solid v h;
}

digits_solid : (v : Bytes) → All (λ c. is_digit c ≡ true) v → All (λ c. is_space c ≡ false) v
unfolding is_space
digits_solid [] h = tt
digits_solid (c ∷ v) (h, hs) = (ground arith, digits_solid v hs)

pub IsTrimmed-print_ℤ : (a : ℤ) → IsTrimmed (print_ℤ a)
unfolding print_ℤ is_space
IsTrimmed-print_ℤ (pos n) =
    IsTrimmed-solid (print_ℕ n) (digits_solid (print_ℕ n) (print_ℕ-digits n))
IsTrimmed-print_ℤ (negsuc n) =
    IsTrimmed-solid (b'-' ∷ print_ℕ (suc n))
      (refl, digits_solid (print_ℕ (suc n)) (print_ℕ-digits (suc n)))

-- what the names of the fields are made of
abbrev pub is_word : Bytes → Bool
is_word [] = true
is_word (c ∷ cs) = ((leb b'a' c && leb c b'z') || c == b'_') && is_word cs

word_solid : (v : Bytes) → is_word v ≡ true → All (λ c. is_space c ≡ false) v
unfolding is_space
word_solid [] h = tt
word_solid (c ∷ v) h = (ground arith, word_solid v (ground arith))

word_no_equals : (v : Bytes) → is_word v ≡ true → HasNo b'=' v
word_no_equals [] h = tt
word_no_equals (c ∷ v) h = (ground arith, word_no_equals v (ground arith))

word_shown : (v : Bytes) → is_empty v ≡ false → is_word v ≡ true → is_skipped v ≡ false
unfolding is_skipped
word_shown [] f h = cc
word_shown (c ∷ v) f h = ground arith

word-IsKey : (v : Bytes) → is_empty v ≡ false → is_word v ≡ true → IsKey v
word-IsKey v f h =
    let t = IsTrimmed-solid v (word_solid v h) in
    record {
      trimmed = t.trimmed;
      shown = word_shown v f h;
      no_equals = word_no_equals v h;
      no_newline = t.no_newline;
    }

-- All fields are named by words.
abbrev pub have_words : List (Bytes × Bytes) → Bool
have_words [] = true
have_words ((k, v) ∷ fs) = not (is_empty k) && (is_word k && have_words fs)

abbrev pub AreValues : List (Bytes × Bytes) → Type 0
AreValues [] = Unit
AreValues ((k, v) ∷ fs) = IsTrimmed v × AreValues fs

pub words-AreFields :
    (fs : List (Bytes × Bytes)) → have_words fs ≡ true → AreValues fs → AreFields fs
words-AreFields [] h g = tt
words-AreFields ((k, v) ∷ fs) h (g, gs) =
    (word-IsKey k (ground arith) (ground arith), g, words-AreFields fs (ground arith) gs)

pub flag-IsTrimmed : (b : Bool) → IsTrimmed (flag_text b)
unfolding text is_space
flag-IsTrimmed true = IsTrimmed-solid (text "1") (refl, tt)
flag-IsTrimmed false = IsTrimmed-solid (text "0") (refl, tt)
