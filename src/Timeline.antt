-- ===== src/Timeline.antt =====
-- The block timeline of the store and the operations that grow it (src/core/storage/store.cpp): genesis,
-- reserved slots, and the assignment of events to blocks.
pub mod Assign
pub mod Assigned
pub mod Slots
mod Sizes
unfoldable pub use Sizes.*
use got_soup.Prelude.{
  ℕ, zero, suc, ◌+◌, ◌-◌, ◌%◌, ◌^◌, Bytes, Bool, true, false, ◌&&◌, ◌||◌, not, List, [], ◌∷◌, ◌++◌,
  max, leb, ltb, ◌==◌, is_empty, if◌then◌else◌, nat_eq, bytes_eq, text, Option, none, some, length,
  get_last?, contains,
}
use got_soup.Prelude.Int.{ℤ, leb_ℤ, add64, sub64, signed64}
use got_soup.Prelude.Dict.{Dict}
use got_soup.Prelude.Decimal.{print_ℤ}
use got_soup.Model.{EventEnvelope}
use got_soup.Chain.{Block, rebuild_event_to_block_index}

-- the slot that is appended where nothing is known of its hashes
abbrev pub fresh_slot : ℕ → ℤ → Block
fresh_slot index opened = record {
  index = index;
  opened_unix = opened;
  reserved = true;
  confirmed = false;
  backfilled = false;
  event_ids = [];
  psz_timestamp = [];
  prev_hash = [];
  merkle_root = [];
  content_hash = [];
  block_hash = [];
}

unfoldable pub genesis_text : Bytes → ℤ → Bytes
genesis_text network_id now =
    text "SoupNet::P2P Tomato Soup " ++ (network_id ++ (text " genesis | " ++ print_ℤ now))

-- Store::ensure_genesis_block, where blocks are there
unfoldable pub stamp_genesis : Bytes → List Block → List Block
stamp_genesis psz [] = []
stamp_genesis psz (b ∷ bs) =
    (if is_empty b.psz_timestamp && not (is_empty psz) then record b { psz_timestamp = psz } else b)
    ∷ bs

unfoldable pub genesis_block : Settings → Bytes → ℤ → Block
genesis_block s psz now = record (fresh_slot 0 now) {
  psz_timestamp = psz;
  merkle_root = s.hardcoded_genesis_merkle_root;
  block_hash = s.hardcoded_genesis_block_hash;
}

-- `genesis_psz_timestamp_`, made up where it is empty
unfoldable pub genesis_psz : Settings → ℤ → Bytes → Bytes
unfolding genesis_text
genesis_psz s now psz = if is_empty psz then genesis_text s.network_id now else psz

-- by whether there are blocks
unfoldable pub ensure_genesis_in : Settings → ℤ → List Block → Timeline → Timeline
unfolding genesis_psz genesis_block stamp_genesis
ensure_genesis_in s now [] t = record t {
  genesis_psz_timestamp = genesis_psz s now t.genesis_psz_timestamp;
  blocks = genesis_block s (genesis_psz s now t.genesis_psz_timestamp) now ∷ [];
}
ensure_genesis_in s now (b ∷ bs) t = record t {
  blocks = stamp_genesis t.genesis_psz_timestamp (b ∷ bs);
}

unfoldable pub ensure_genesis_block : Settings → ℤ → Timeline → Timeline
unfolding ensure_genesis_in
ensure_genesis_block s now t = ensure_genesis_in s now t.blocks t

-- `index + 1` on uint64
abbrev pub next_index : ℕ → ℕ
next_index i = (i + 1) % 2 ^ 64

abbrev pub next_slot : ℕ → Block → Block
next_slot interval last =
    fresh_slot (next_index last.index) (add64 last.opened_unix (signed64 interval))

-- the test of the loop, on the last block
unfoldable pub slot_is_due : ℕ → ℤ → Block → Bool
slot_is_due interval now last = leb_ℤ (signed64 interval) (sub64 now last.opened_unix)

-- The loop, with the rounds that `created` leaves. It walks to the last block, and on from there.
unfoldable pub slots_after : ℕ → ℕ → ℤ → Block → List Block
unfolding slot_is_due
slots_after zero interval now last = []
slots_after (suc rounds) interval now last =
    let more =
      next_slot interval last ∷ slots_after rounds interval now (next_slot interval last) in
    if slot_is_due interval now last then more else []

abbrev pub k_max_reserve_per_check : ℕ
k_max_reserve_per_check = 256

unfoldable pub with_slots : ℕ → ℤ → List Block → List Block
unfolding slots_after
with_slots interval now blocks = elim (get_last? blocks) [
  | none ↦ blocks
  | some last ↦ blocks ++ slots_after k_max_reserve_per_check interval now last
]

unfoldable pub ensure_block_slots_until : Settings → ℤ → Timeline → Timeline
unfolding ensure_genesis_block with_slots
ensure_block_slots_until s now t =
    let t' = ensure_genesis_block s now (record t {
      block_interval_seconds =
          if t.block_interval_seconds == 0 then 150 else t.block_interval_seconds;
    }) in
    record t' { blocks = with_slots t'.block_interval_seconds now t'.blocks }

-- what is done to the slot that takes an event
unfoldable pub fill_slot : Bytes → Block → Block
fill_slot id b = record b {
  backfilled = if b.reserved then true else b.backfilled;
  reserved = false;
  event_ids = b.event_ids ++ id ∷ [];
}

-- std::ranges::find_if, and the update of the block that it finds
unfoldable pub fill_first :
    Settings → List EventEnvelope → EventEnvelope → List Block → Option (List Block)
unfolding has_room fill_slot
fill_first s events e [] = none
fill_first s events e (b ∷ bs) =
    let rest = fill_first s events e bs in
    if has_room s events e b
    then some (fill_slot e.event_id b ∷ bs)
    else (elim rest [ none ↦ none | some bs' ↦ some (b ∷ bs') ])

-- `blocks_.empty() ? 0 : blocks_.back().index + 1`
unfoldable pub appended_index : List Block → ℕ
appended_index blocks = elim (get_last? blocks) [ none ↦ 0 | some b ↦ next_index b.index ]

unfoldable pub place_event : Settings → List EventEnvelope → EventEnvelope → List Block → List Block
unfolding fill_first appended_index
place_event s events e blocks = elim (fill_first s events e blocks) [
  | some blocks' ↦ blocks'
  | none ↦ blocks ++ fill_slot e.event_id (fresh_slot (appended_index blocks) e.unix_ts) ∷ []
]

-- the first loop: all ids that stand in a block
unfoldable pub assigned_ids : List Block → List Bytes
assigned_ids [] = []
assigned_ids (b ∷ bs) = b.event_ids ++ assigned_ids bs

-- the second loop, over the events that are left
unfoldable pub assign_from :
    Settings → List EventEnvelope → List Bytes → List EventEnvelope → List Block → List Block
unfolding place_event
assign_from s events assigned [] blocks = blocks
assign_from s events assigned (e ∷ es) blocks = elim (contains e.event_id assigned) [
  | true ↦ assign_from s events assigned es blocks
  | false ↦ assign_from s events (e.event_id ∷ assigned) es (place_event s events e blocks)
]

abbrev pub reindex : Timeline → Timeline
reindex t = record t { event_to_block = rebuild_event_to_block_index t.blocks }

-- by whether there are events
unfoldable pub assign_in : Settings → List EventEnvelope → Timeline → Timeline
unfolding ensure_genesis_block assign_from assigned_ids
assign_in s [] t = reindex t
assign_in s (e ∷ es) t =
    let t' = ensure_genesis_block s e.unix_ts t in
    reindex
      (record t' { blocks = assign_from s t.events (assigned_ids t'.blocks) t.events t'.blocks })

unfoldable pub assign_unassigned_events_to_blocks : Settings → Timeline → Timeline
unfolding assign_in
assign_unassigned_events_to_blocks s t = assign_in s t.events t
