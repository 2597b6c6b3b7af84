-- ===== src/Codec/Lines.antt =====
-- Writing and reading the event log (serialize_event_line, parse_event_line, load_event_log of
-- src/core/storage/store.cpp).
use got_soup.Prelude.{
  ℕ, suc, Bytes, Bool, true, false, not, ◌||◌, List, [], ◌∷◌, ◌++◌, ◌≡◌, refl, ◌∙◌, arith, All,
  All-append, ◌==◌, nat_eq, is_empty, append_assoc, append-nil, some, sym,
}
use got_soup.Prelude.Int.{ℤ, pos, negsuc, IsInt64}
use got_soup.Prelude.Decimal.{is_digit, print_ℤ, print_ℕ, print_ℕ-digits, read_signed-print_ℤ}
use got_soup.Model.{EventKind, recipe_created, EventEnvelope}
use got_soup.Codec.{
  event_kind_to_string, to_hex, serialize_event_line, split_at, parse_event_line, event_log,
  is_skipped, load_lines, load_event_log,
}
use got_soup.Codec.Hex.{AreBytes, from_hex-to_hex, is_hex_byte, to_hex-digits}
use got_soup.Codec.Kinds.{event_kind_from_string-event_kind_to_string}

-- No byte of the text separates fields or lines.
abbrev pub is_plain : ℕ → Bool
is_plain c = not (c == b'\t' || c == b'\n')

abbrev pub IsPlain : Bytes → Type 0
IsPlain = All (λ c. is_plain c ≡ true)

-- An event that a line of the log can carry.
pub record IsWritable (e : EventEnvelope) : Type 0 where
  pub id_filled : is_empty e.event_id ≡ false
  pub id_plain : IsPlain e.event_id
  pub id_no_comment : is_skipped e.event_id ≡ false
  pub author_plain : IsPlain e.author_cid
  pub time_fits : IsInt64 e.unix_ts
  pub payload_filled : is_empty e.payload ≡ false
  pub payload_bytes : AreBytes e.payload
  pub signature_plain : IsPlain e.signature

module _ (sep : ℕ) where
  pub split_at_piece :
      (f rest : Bytes)
      → All (λ c. (c == sep) ≡ false) f
      → split_at sep (f ++ (sep ∷ rest)) ≡ f ∷ split_at sep rest
  unfolding split_at
  split_at_piece [] rest h = rw ((nat_eq.equals_iff sep sep).1 refl)
  split_at_piece (c ∷ f) rest (h, hs) = rw (h, split_at_piece f rest hs)

  pub split_at_last : (f : Bytes) → All (λ c. (c == sep) ≡ false) f → split_at sep f ≡ f ∷ []
  unfolding split_at
  split_at_last [] h = refl
  split_at_last (c ∷ f) (h, hs) = rw (h, split_at_last f hs)

pub no_tab : (b : Bytes) → IsPlain b → All (λ c. (c == b'\t') ≡ false) b
no_tab [] h = tt
no_tab (c ∷ b) (h, hs) = (ground arith, no_tab b hs)

pub no_newline : (b : Bytes) → IsPlain b → All (λ c. (c == b'\n') ≡ false) b
no_newline [] h = tt
no_newline (c ∷ b) (h, hs) = (ground arith, no_newline b hs)

pub IsPlain-digits : (b : Bytes) → All (λ c. is_digit c ≡ true) b → IsPlain b
IsPlain-digits [] h = tt
IsPlain-digits (c ∷ b) (h, hs) = (ground arith, IsPlain-digits b hs)

pub IsPlain-hex : (b : Bytes) → All (λ c. is_hex_byte c ≡ true) b → IsPlain b
IsPlain-hex [] h = tt
IsPlain-hex (c ∷ b) (h, hs) = (ground arith, IsPlain-hex b hs)

pub IsPlain-print_ℤ : (a : ℤ) → IsPlain (print_ℤ a)
unfolding print_ℤ
IsPlain-print_ℤ (pos n) = IsPlain-digits (print_ℕ n) (print_ℕ-digits n)
IsPlain-print_ℤ (negsuc n) = (refl, IsPlain-digits (print_ℕ (suc n)) (print_ℕ-digits (suc n)))

IsPlain-kind : (k : EventKind) → IsPlain (event_kind_to_string k)
unfolding event_kind_to_string
IsPlain-kind recipe_created = ground arith
IsPlain-kind _ = ground arith

-- the line of an event, with no newline
abbrev body : EventEnvelope → Bytes
body e =
    e.event_id
    ++ (b'\t'
        ∷ (event_kind_to_string e.kind
            ++ (b'\t'
                ∷ (e.author_cid
                    ++ (b'\t'
                        ∷ (print_ℤ e.unix_ts
                            ++ (b'\t' ∷ (to_hex e.payload ++ (b'\t' ∷ e.signature)))))))))

serialize_event_line-body :
    (e : EventEnvelope) (rest : Bytes) → serialize_event_line e ++ rest ≡ body e ++ (b'\n' ∷ rest)
unfolding serialize_event_line
serialize_event_line-body e rest = simp append_assoc

pub tabbed :
    (a b : Bytes)
    → All (λ c. (c == b'\n') ≡ false) a
    → All (λ c. (c == b'\n') ≡ false) b
    → All (λ c. (c == b'\n') ≡ false) (a ++ (b'\t' ∷ b))
tabbed a b h k = All-append (λ (c : ℕ). (c == b'\n') ≡ false) a (b'\t' ∷ b) h (refl, k)

module _ {e : EventEnvelope} (w : IsWritable e) where
  body_no_newline : All (λ c. (c == b'\n') ≡ false) (body e)
  body_no_newline = tabbed e.event_id _ (no_newline _ w.id_plain) (
      tabbed (event_kind_to_string e.kind) _ (no_newline _ (IsPlain-kind e.kind)) (
        tabbed e.author_cid _ (no_newline _ w.author_plain) (
          tabbed (print_ℤ e.unix_ts) _ (no_newline _ (IsPlain-print_ℤ e.unix_ts)) (
            tabbed (to_hex e.payload) _ (no_newline _ (IsPlain-hex _ (to_hex-digits e.payload)))
              (no_newline _ w.signature_plain)))))

  split_at-body :
      split_at b'\t' (body e)
      ≡ e.event_id
        ∷ event_kind_to_string e.kind
        ∷ e.author_cid
        ∷ print_ℤ e.unix_ts
        ∷ to_hex e.payload
        ∷ e.signature
        ∷ []
  split_at-body = rw (
    split_at_piece b'\t' e.event_id _ (no_tab _ w.id_plain),
    split_at_piece b'\t' (event_kind_to_string e.kind) _ (no_tab _ (IsPlain-kind e.kind)),
    split_at_piece b'\t' e.author_cid _ (no_tab _ w.author_plain),
    split_at_piece b'\t' (print_ℤ e.unix_ts) _ (no_tab _ (IsPlain-print_ℤ e.unix_ts)),
    split_at_piece b'\t' (to_hex e.payload) _ (no_tab _ (IsPlain-hex _ (to_hex-digits e.payload))),
    split_at_last b'\t' e.signature (no_tab _ w.signature_plain),
  )

  parse_event_line-body : parse_event_line (body e) ≡ some e
  unfolding parse_event_line
  parse_event_line-body = rw (
    split_at-body,
    read_signed-print_ℤ e.unix_ts w.time_fits,
    from_hex-to_hex e.payload w.payload_bytes,
    event_kind_from_string-event_kind_to_string e.kind,
    w.id_filled,
    w.payload_filled,
  )

  body_not_skipped : is_skipped (body e) ≡ false
  body_not_skipped = starts e.event_id _ w.id_no_comment
    where
      starts : (a b : Bytes) → is_skipped a ≡ false → is_skipped (a ++ b) ≡ false
      starts [] b h = unfold is_skipped in cc h
      starts (c ∷ a) b h = unfold is_skipped in h

-- A line that `serialize_event_line` writes is, without its newline, read back as its event.
pub parse_event_line-serialize_event_line :
    (e : EventEnvelope)
    → IsWritable e
    → (line : Bytes) × (serialize_event_line e ≡ line ++ b'\n' ∷ [])
      × (parse_event_line line ≡ some e)
parse_event_line-serialize_event_line e w = (
  body e,
  sym (append-nil (serialize_event_line e)) ∙ serialize_event_line-body e [],
  parse_event_line-body w,
)

load_cons :
    (line : Bytes) (lines : List Bytes) (e : EventEnvelope) (es : List EventEnvelope)
    → is_skipped line ≡ false
    → parse_event_line line ≡ some e
    → load_lines lines ≡ (es, 0)
    → load_lines (line ∷ lines) ≡ (e ∷ es, 0)
unfolding load_lines
load_cons line lines e es h p r = rw (h, p, r)

load_lines-event_log :
    (es : List EventEnvelope)
    → All IsWritable es
    → load_lines (split_at b'\n' (event_log es)) ≡ (es, 0)
unfolding event_log
load_lines-event_log [] h = unfold split_at load_lines is_skipped in refl
load_lines-event_log (e ∷ es) (w, ws) =
    rw
      (
        serialize_event_line-body e (event_log es),
        split_at_piece b'\n' (body e) (event_log es) (body_no_newline w),
      )
      (load_cons (body e) (split_at b'\n' (event_log es)) e es (body_not_skipped w)
        (parse_event_line-body w) (load_lines-event_log es ws))

-- For events whose fields the format can carry (an id that is not empty and does not begin with `#`,
-- no tab or newline in ids, authors and signatures, a payload of bytes that is not empty, a time
-- that fits 64 bits): the log that is written for them is loaded as the same events in the same
-- order, and no line is recorded as invalid.
pub load_event_log-event_log :
    (es : List EventEnvelope) → All IsWritable es → load_event_log (event_log es) ≡ (es, 0)
unfolding load_event_log
load_event_log-event_log = load_lines-event_log
