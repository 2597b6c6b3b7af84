-- ===== src/Tests/Formats.antt =====
-- Examples of the text formats.
use got_soup.Prelude.{Bytes, List, [], ◌∷◌, ◌++◌, refl, ◌≡◌, arith, nat_eq, bytes_eq, some}
use got_soup.Prelude.Int.{pos}
use got_soup.Prelude.Dict.{lookup}
use got_soup.Canonical.{Field, canonical_join, parse_canonical_map}
use got_soup.Canonical.RoundTrip.{parse_canonical_map-canonical_join}
use got_soup.Model.{EventEnvelope, thread_created}
use got_soup.Codec.{event_log, load_event_log, is_skipped}
use got_soup.Chain.{Block}
use got_soup.BlockLog.{serialize_block_line, parse_block_line}
use got_soup.BlockLog.Lines.{parse_block_line-serialize_block_line}
use got_soup.Tests.Data.{first_block}
use got_soup.Codec.Lines.{IsWritable, load_event_log-event_log}

-- Values with both of the bytes that are escaped, and an empty one.
abbrev fields : List Field
fields = ((b't' ∷ [], b'a' ∷ b'\n' ∷ b'\\' ∷ b'n' ∷ []) ∷ (b'c' ∷ [], []) ∷ [])

parse_canonical_map-canonical_join_example :
    lookup (b't' ∷ []) (parse_canonical_map (canonical_join fields)) ≡ lookup (b't' ∷ []) fields
unfolding lookup
parse_canonical_map-canonical_join_example =
    parse_canonical_map-canonical_join fields (b't' ∷ [])
      ((refl, (refl, tt)), ((refl, (refl, tt)), tt)) (refl, (refl, tt))

abbrev ids : List Bytes
ids = (b'e' ∷ b'1' ∷ []) ∷ (b'e' ∷ b'2' ∷ []) ∷ []

-- A payload with the bytes that separate the log's fields and lines.
abbrev written : EventEnvelope
written = record {
  event_id = b'e' ∷ b'1' ∷ [];
  kind = thread_created;
  author_cid = b'a' ∷ [];
  unix_ts = pos 1700000000;
  payload = b't' ∷ b'\t' ∷ b'\n' ∷ [];
  signature = [];
}

written-IsWritable : IsWritable written
unfolding is_skipped
written-IsWritable = record {
  id_filled = refl;
  id_plain = (refl, (refl, tt));
  id_no_comment = refl;
  author_plain = (refl, tt);
  time_fits = omega arith;
  payload_filled = refl;
  payload_bytes = (omega arith, (omega arith, (omega arith, tt)));
  signature_plain = tt;
}

load_event_log-event_log_example :
    load_event_log (event_log (written ∷ written ∷ [])) ≡ (written ∷ written ∷ [], 0)
load_event_log-event_log_example =
    load_event_log-event_log (written ∷ written ∷ []) (written-IsWritable, (written-IsWritable, tt))

abbrev stored : Block
stored = record first_block { event_ids = ids; psz_timestamp = b'\t' ∷ []; prev_hash = b'0' ∷ [] }

parse_block_line-serialize_block_line_example :
    (line : Bytes) × (serialize_block_line stored ≡ line ++ b'\n' ∷ [])
    × (parse_block_line line ≡ some stored)
parse_block_line-serialize_block_line_example =
    parse_block_line-serialize_block_line stored (record {
      index_fits = omega arith;
      time_fits = omega arith;
      prev_plain = (refl, tt);
      merkle_plain = tt;
      content_plain = tt;
      hash_plain = tt;
      psz_bytes = (omega arith, tt);
      ids_listed = ((refl, (refl, (refl, tt))), ((refl, (refl, (refl, tt))), tt));
      ids_bytes = ((omega arith, (omega arith, tt)), ((omega arith, (omega arith, tt)), tt));
    })
