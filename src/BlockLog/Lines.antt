-- ===== src/BlockLog/Lines.antt =====
-- Writing and reading the lines of the block log (src/core/storage/store.cpp).
use got_soup.Prelude.{
  ℕ, ◌^◌, ◌<◌, Bytes, Bool, true, false, List, [], ◌∷◌, ◌++◌, ◌≡◌, refl, ◌∙◌, sym, ap, some, All,
  All-append, arith, append_assoc, nat_eq, bytes_eq, text,
}
use got_soup.Prelude.Int.{IsInt64}
use got_soup.Prelude.Decimal.{
  print_ℤ, print_ℕ, print_ℕ-digits, read_signed-print_ℤ, read_unsigned-print_ℕ,
}
use got_soup.Chain.{Block}
use got_soup.Codec.{to_hex, join_tabs, split_at, join_event_ids}
use got_soup.Codec.Hex.{AreBytes, from_hex-to_hex, to_hex-digits}
use got_soup.Codec.Ids.{IsListed, split_event_ids-join_event_ids}
use got_soup.Codec.Lines.{
  IsPlain, split_at_piece, split_at_last, no_tab, IsPlain-digits, IsPlain-hex, IsPlain-print_ℤ,
}
use got_soup.Hashing.{flag}
use got_soup.Moderation.{parse_boolish}
use got_soup.BlockLog.{serialize_block_line, block_with, parse_block_line}

-- A block that a line of the log can carry.
pub record IsStorable (b : Block) : Type 0 where
  pub index_fits : b.index < 2 ^ 64
  pub time_fits : IsInt64 b.opened_unix
  pub prev_plain : IsPlain b.prev_hash
  pub merkle_plain : IsPlain b.merkle_root
  pub content_plain : IsPlain b.content_hash
  pub hash_plain : IsPlain b.block_hash
  pub psz_bytes : AreBytes b.psz_timestamp
  pub ids_listed : All IsListed b.event_ids
  pub ids_bytes : All AreBytes b.event_ids

-- the fields with tabs between them
abbrev tabs : List Bytes → Bytes
tabs [] = []
tabs (f ∷ []) = f
tabs (f ∷ g ∷ fs) = f ++ (b'\t' ∷ tabs (g ∷ fs))

join_tabs-tabs : (f : Bytes) (fs : List Bytes) → join_tabs (f ∷ fs) ≡ tabs (f ∷ fs) ++ b'\n' ∷ []
unfolding join_tabs
join_tabs-tabs f [] = refl
join_tabs-tabs f (g ∷ fs) =
    rw (join_tabs-tabs g fs) (sym (append_assoc f (b'\t' ∷ tabs (g ∷ fs)) (b'\n' ∷ [])))

split_at-tabs :
    (f : Bytes) (fs : List Bytes) → All IsPlain (f ∷ fs) → split_at b'\t' (tabs (f ∷ fs)) ≡ f ∷ fs
split_at-tabs f [] (h, hs) = split_at_last b'\t' f (no_tab f h)
split_at-tabs f (g ∷ fs) (h, hs) =
    split_at_piece b'\t' f (tabs (g ∷ fs)) (no_tab f h)
    ∙ ap (λ rest. f ∷ rest) (split_at-tabs g fs hs)

parse_boolish-flag : (b : Bool) → parse_boolish (flag b) ≡ b
unfolding parse_boolish flag text
parse_boolish-flag true = refl
parse_boolish-flag false = refl

IsPlain-flag : (b : Bool) → IsPlain (flag b)
unfolding flag text
IsPlain-flag true = (refl, tt)
IsPlain-flag false = (refl, tt)

join_event_ids-AreBytes : (ids : List Bytes) → All AreBytes ids → AreBytes (join_event_ids ids)
unfolding join_event_ids
join_event_ids-AreBytes [] h = tt
join_event_ids-AreBytes (i ∷ []) (h, hs) = h
join_event_ids-AreBytes (i ∷ j ∷ ids) (h, hs) =
    All-append (λ (c : ℕ). c < 256) i (b',' ∷ join_event_ids (j ∷ ids)) h
      (omega arith, join_event_ids-AreBytes (j ∷ ids) hs)

abbrev later_fields : Block → List Bytes
later_fields b =
    print_ℤ b.opened_unix
    ∷ flag b.reserved
    ∷ flag b.confirmed
    ∷ flag b.backfilled
    ∷ b.prev_hash
    ∷ b.merkle_root
    ∷ b.content_hash
    ∷ b.block_hash
    ∷ to_hex b.psz_timestamp
    ∷ to_hex (join_event_ids b.event_ids)
    ∷ []

abbrev fields_of : Block → List Bytes
fields_of b = print_ℕ b.index ∷ later_fields b

IsPlain-fields : (b : Block) → IsStorable b → All IsPlain (fields_of b)
IsPlain-fields b w = (
  IsPlain-digits _ (print_ℕ-digits b.index),
  (
    IsPlain-print_ℤ b.opened_unix,
    (
      IsPlain-flag b.reserved,
      (
        IsPlain-flag b.confirmed,
        (
          IsPlain-flag b.backfilled,
          (
            w.prev_plain,
            (
              w.merkle_plain,
              (
                w.content_plain,
                (
                  w.hash_plain,
                  (
                    IsPlain-hex _ (to_hex-digits b.psz_timestamp),
                    (IsPlain-hex _ (to_hex-digits (join_event_ids b.event_ids)), tt),
                  ),
                ),
              ),
            ),
          ),
        ),
      ),
    ),
  ),
)

-- A line that `serialize_block_line` writes for a block whose fields the format can carry is, without its
-- newline, read back as the block.
pub parse_block_line-serialize_block_line :
    (b : Block)
    → IsStorable b
    → (line : Bytes) × (serialize_block_line b ≡ line ++ b'\n' ∷ [])
      × (parse_block_line line ≡ some b)
unfolding serialize_block_line parse_block_line
parse_block_line-serialize_block_line b w = (
  tabs (fields_of b),
  join_tabs-tabs (print_ℕ b.index) (later_fields b),
  rw (split_at-tabs (print_ℕ b.index) (later_fields b) (IsPlain-fields b w)) (
      rw
        (
          read_unsigned-print_ℕ (2 ^ 64) b.index w.index_fits,
          read_signed-print_ℤ b.opened_unix w.time_fits,
          from_hex-to_hex b.psz_timestamp w.psz_bytes,
          from_hex-to_hex (join_event_ids b.event_ids)
              (join_event_ids-AreBytes b.event_ids w.ids_bytes),
          split_event_ids-join_event_ids b.event_ids w.ids_listed,
          parse_boolish-flag b.reserved,
          parse_boolish-flag b.confirmed,
          parse_boolish-flag b.backfilled,
          block_with,
        )
        refl),
)
