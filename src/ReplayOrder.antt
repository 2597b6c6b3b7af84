-- ===== src/ReplayOrder.antt =====
-- The order in which Store::materialize_views replays the events (`ordered_events` in
-- src/core/storage/store.cpp).
pub mod Determined
use got_soup.Prelude.{
  ℕ, ◌^◌, ◌-◌, Bytes, Bool, not, List, ◌==◌, ltb, lt_bytes, if◌then◌else◌, nat_eq, bytes_eq,
}
use got_soup.Prelude.Int.{ℤ, ltb_ℤ, eqb_ℤ}
use got_soup.Prelude.Dict.{Dict, get_or}
use got_soup.Prelude.Sort.{sort}
use got_soup.Model.{EventKind, block_reward_claimed, reward_transferred, EventEnvelope}

-- an event that is in no block comes last
unfoldable pub block_index_for : Dict Bytes ℕ → Bytes → ℕ
block_index_for event_to_block id = get_or id event_to_block (2 ^ 64 - 1)

unfoldable pub economic_priority : EventKind → ℕ
economic_priority block_reward_claimed = 0
economic_priority reward_transferred = 1
economic_priority _ = 2

-- the comparator, on the four values that it compares
abbrev pub before_by : ℕ → ℕ → ℤ → ℤ → ℕ → ℕ → Bytes → Bytes → Bool
before_by lhs_block rhs_block lhs_ts rhs_ts lhs_priority rhs_priority lhs_id rhs_id =
    if not (lhs_block == rhs_block)
    then ltb lhs_block rhs_block
    else if not (eqb_ℤ lhs_ts rhs_ts)
    then ltb_ℤ lhs_ts rhs_ts
    else if not (lhs_priority == rhs_priority)
    then ltb lhs_priority rhs_priority
    else lt_bytes lhs_id rhs_id

unfoldable pub before : Dict Bytes ℕ → EventEnvelope → EventEnvelope → Bool
before event_to_block lhs rhs =
    before_by (block_index_for event_to_block lhs.event_id)
      (block_index_for event_to_block rhs.event_id) lhs.unix_ts rhs.unix_ts
      (economic_priority lhs.kind) (economic_priority rhs.kind) lhs.event_id rhs.event_id

unfoldable pub ordered_events : Dict Bytes ℕ → List EventEnvelope → List EventEnvelope
unfolding before block_index_for economic_priority
ordered_events event_to_block events = sort (before event_to_block) events
