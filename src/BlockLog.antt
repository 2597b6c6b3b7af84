-- ===== src/BlockLog.antt =====
-- The block log (serialize_block_line, parse_block_line, load_block_log, persist_block_log of
-- src/core/storage/store.cpp).
pub mod Lines
use got_soup.Prelude.{
  ℕ, ◌+◌, ◌^◌, Bytes, Bool, true, false, List, [], ◌∷◌, ◌++◌, ltb, ◌==◌, is_empty, if◌then◌else◌,
  nat_eq, bytes_eq, Option, none, some, text,
}
use got_soup.Prelude.Int.{ℤ, pos, ltb_ℤ, pos_part}
use got_soup.Prelude.Decimal.{print_ℕ, print_ℤ}
use got_soup.Prelude.Sort.{sort}
use got_soup.Canonical.{starts_with}
use got_soup.Chain.{Block}
use got_soup.Ledger.{parse_uint64}
use got_soup.Codec.{
  to_hex, from_hex, join_tabs, split_at, parse_int64, join_event_ids, split_event_ids, is_skipped,
}
use got_soup.Hashing.{flag}
use got_soup.Moderation.{parse_boolish}

unfoldable pub serialize_block_line : Block → Bytes
unfolding to_hex join_tabs print_ℕ print_ℤ join_event_ids
serialize_block_line b = join_tabs (
    print_ℕ b.index
    ∷ print_ℤ b.opened_unix
    ∷ flag b.reserved
    ∷ flag b.confirmed
    ∷ flag b.backfilled
    ∷ b.prev_hash
    ∷ b.merkle_root
    ∷ b.content_hash
    ∷ b.block_hash
    ∷ to_hex b.psz_timestamp
    ∷ to_hex (join_event_ids b.event_ids)
    ∷ [])

-- from the parsed numbers on; a line of the old format gives its Merkle root as the content hash too
unfoldable pub block_with :
    Option ℕ
    → Option ℤ
    → Bytes
    → Bytes
    → Bytes
    → Bytes
    → Bytes
    → Bytes
    → Bytes
    → Bytes
    → Bytes
    → Option Block
unfolding parse_boolish from_hex split_event_ids
block_with none opened reserved confirmed backfilled prev merkle content hash psz ids = none
block_with (some index) none reserved confirmed backfilled prev merkle content hash psz ids = none
block_with (some index) (some opened) reserved confirmed backfilled prev merkle content hash psz
      ids =
    some (record {
      index = index;
      opened_unix = opened;
      reserved = parse_boolish reserved;
      confirmed = parse_boolish confirmed;
      backfilled = parse_boolish backfilled;
      event_ids = split_event_ids (from_hex ids);
      psz_timestamp = psz;
      prev_hash = prev;
      merkle_root = merkle;
      content_hash = content;
      block_hash = hash;
    })

unfoldable pub block_of_fields : List Bytes → Option Block
unfolding block_with parse_uint64 parse_int64 from_hex
block_of_fields (index ∷ opened ∷ r ∷ c ∷ b ∷ prev ∷ merkle ∷ hash ∷ ids ∷ []) =
    block_with (parse_uint64 index) (parse_int64 opened) r c b prev merkle merkle hash [] ids
block_of_fields (index ∷ opened ∷ r ∷ c ∷ b ∷ prev ∷ merkle ∷ content ∷ hash ∷ psz ∷ ids ∷ []) =
    block_with (parse_uint64 index) (parse_int64 opened) r c b prev merkle content hash
      (from_hex psz) ids
block_of_fields _ = none

unfoldable pub parse_block_line : Bytes → Option Block
unfolding split_at block_of_fields
parse_block_line line = block_of_fields (split_at b'\t' line)

-- Store::persist_block_log, but for the header
unfoldable pub block_lines : List Block → Bytes
unfolding serialize_block_line
block_lines [] = []
block_lines (b ∷ bs) = serialize_block_line b ++ block_lines bs

abbrev pub keep_block : Option Block → List Block × ℕ → List Block × ℕ
keep_block none (bs, errors) = (bs, errors + 1)
keep_block (some b) (bs, errors) = (b ∷ bs, errors)

-- the loop of Store::load_block_log over lines that are no header: the blocks, and how many lines did not parse
unfoldable pub read_block_lines : List Bytes → List Block × ℕ
unfolding is_skipped parse_block_line
read_block_lines [] = ([], 0)
read_block_lines (line ∷ lines) =
    let rest = read_block_lines lines in
    if is_skipped line then rest else keep_block (parse_block_line line) rest

abbrev pub before_index : Block → Block → Bool
before_index a b = ltb a.index b.index

-- the blocks that Store::load_block_log makes of a file, in the order of their indices, and the parse errors
unfoldable pub load_block_log : Bytes → List Block × ℕ
unfolding read_block_lines split_at
load_block_log file =
    let read = read_block_lines (split_at b'\n' file) in (sort before_index read.0, read.1)
