-- ===== src/Chain.antt =====
-- The block timeline of the store (src/core/storage/store.hpp and store.cpp): its records and the
-- questions that the other parts ask of it.
use got_soup.Prelude.{
  ℕ, ◌+◌, ◌-◌, ◌%◌, ◌^◌, Bytes, Bool, List, [], ◌∷◌, leb, ltb, ◌==◌, if◌then◌else◌, nat_eq,
  bytes_eq, Option, none, some, get_elem?,
}
use got_soup.Prelude.Int.{ℤ}
use got_soup.Prelude.Dict.{Dict, insert, lookup}

-- Store::BlockRecord
pub record Block : Type 0 where
  pub index : ℕ
  pub opened_unix : ℤ
  pub reserved : Bool
  pub confirmed : Bool
  pub backfilled : Bool
  pub event_ids : List Bytes
  pub psz_timestamp : Bytes
  pub prev_hash : Bytes
  pub merkle_root : Bytes
  pub content_hash : Bytes
  pub block_hash : Bytes

-- the body of the loop of `latest_confirmed_block_index`
abbrev pub later_index : Option ℕ → ℕ → Option ℕ
later_index none i = some i
later_index (some j) i = if ltb j i then some i else some j

unfoldable pub latest_from : Option ℕ → List Block → Option ℕ
latest_from latest [] = latest
latest_from latest (b ∷ bs) =
    latest_from (if b.confirmed then later_index latest b.index else latest) bs

unfoldable pub latest_confirmed_block_index : List Block → Option ℕ
unfolding latest_from
latest_confirmed_block_index blocks = latest_from none blocks

-- std::ranges::find_if by the index
unfoldable pub find_block : ℕ → List Block → Option Block
find_block i [] = none
find_block i (b ∷ bs) = if b.index == i then some b else find_block i bs

-- `(tip >= index) ? (tip - index) + 1U : 0U`
unfoldable pub confirmations_under : ℕ → ℕ → ℕ
confirmations_under tip i = if leb i tip then (tip - i + 1) % 2 ^ 64 else 0

-- the inner loop of `rebuild_event_to_block_index`
unfoldable pub index_ids : ℕ → List Bytes → Dict Bytes ℕ → Dict Bytes ℕ
index_ids i [] d = d
index_ids i (id ∷ ids) d = index_ids i ids (insert id i d)

unfoldable pub index_blocks : ℕ → List Block → Dict Bytes ℕ → Dict Bytes ℕ
unfolding index_ids
index_blocks i [] d = d
index_blocks i (b ∷ bs) d = index_blocks (i + 1) bs (index_ids i b.event_ids d)

-- `event_to_block_` after Store::rebuild_event_to_block_index
unfoldable pub rebuild_event_to_block_index : List Block → Dict Bytes ℕ
unfolding index_blocks
rebuild_event_to_block_index blocks = index_blocks 0 blocks []

-- Store::block_for_event
unfoldable pub block_for_event : Dict Bytes ℕ → List Block → Bytes → Option Block
block_for_event event_to_block blocks id = elim (lookup id event_to_block) [
  | none ↦ none
  | some i ↦ get_elem? blocks i
]
