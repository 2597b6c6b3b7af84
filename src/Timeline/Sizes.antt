-- ===== src/Timeline/Sizes.antt =====
-- The state of the timeline, its settings, and the sizes that limit a block
-- (src/core/storage/store.hpp and store.cpp, src/core/model/types.hpp).
use got_soup.Prelude.{
  ℕ, ◌+◌, Bytes, Bool, ◌&&◌, not, List, [], ◌∷◌, leb, ◌==◌, if◌then◌else◌, bytes_eq, length, Option,
  none, some,
}
use got_soup.Prelude.Dict.{Dict}
use got_soup.Model.{EventEnvelope}
use got_soup.Chain.{Block}

-- what the operations on the timeline read and do not change
pub record Settings : Type 0 where
  pub hash : Bytes → Bytes
  pub network_id : Bytes
  pub hardcoded_genesis_merkle_root : Bytes
  pub hardcoded_genesis_block_hash : Bytes
  pub max_block_events : ℕ
  pub max_block_bytes : ℕ

pub record Timeline : Type 0 where
  pub events : List EventEnvelope
  pub blocks : List Block
  pub event_to_block : Dict Bytes ℕ
  pub genesis_psz_timestamp : Bytes
  pub block_interval_seconds : ℕ

unfoldable pub find_event : Bytes → List EventEnvelope → Option EventEnvelope
find_event id [] = none
find_event id (e ∷ es) = if e.event_id == id then some e else find_event id es

-- what one id adds to `block_event_bytes`
unfoldable pub id_bytes : List EventEnvelope → Bytes → ℕ
unfolding find_event
id_bytes events id = length id + (elim (find_event id events) [
  | none ↦ 64
  | some e ↦ length e.payload + length e.signature + 24
])

unfoldable pub ids_bytes : List EventEnvelope → List Bytes → ℕ
unfolding id_bytes
ids_bytes events [] = 0
ids_bytes events (id ∷ ids) = id_bytes events id + ids_bytes events ids

-- Store::block_event_bytes
unfoldable pub block_event_bytes : List EventEnvelope → Block → ℕ
unfolding ids_bytes
block_event_bytes events b = ids_bytes events b.event_ids

unfoldable pub event_bytes : EventEnvelope → ℕ
event_bytes e = length e.event_id + length e.payload + length e.signature + 24

-- the test on a slot in `assign_unassigned_events_to_blocks`
unfoldable pub has_room : Settings → List EventEnvelope → EventEnvelope → Block → Bool
unfolding block_event_bytes event_bytes
has_room s events e b =
    not b.confirmed
    && not (leb s.max_block_events (length b.event_ids))
    && leb (block_event_bytes events b + event_bytes e) s.max_block_bytes
