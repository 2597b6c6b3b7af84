-- ===== src/Store/State.antt =====
-- The state of the store, and what its operations share (src/core/storage/store.hpp and store.cpp).
use got_soup.Prelude.{ℕ, ◌+◌, Bool, if◌then◌else◌}
use got_soup.Prelude.Int.{ℤ}
use got_soup.Model.{Outcome}
use got_soup.Chain.{latest_confirmed_block_index}
use got_soup.Timeline.{Settings, Timeline}
use got_soup.Ledger.{Context, Ledger, empty_ledger, settle}
use got_soup.ReplayOrder.{ordered_events}
use got_soup.Views.{Views, Confirmed}
use got_soup.Views.Cleanup.{rebuild_views}

-- the rest of alpha::ValidationLimits, whose block limits are in Settings
pub record EventLimits : Type 0 where
  pub max_event_bytes : ℕ
  pub max_future_drift_seconds : ℤ
  pub max_past_drift_seconds : ℤ

-- alpha::ChainPolicy, the fields that the store computes with
pub record ChainPolicy : Type 0 where
  pub confirmation_threshold : ℕ
  pub checkpoint_interval_blocks : ℕ
  pub checkpoint_confirmations : ℕ

pub record Economy : Type 0 where
  pub decayed : ℤ → ℕ → ℤ
  pub block_reward_units : ℤ
  pub max_token_supply_units : ℤ
  pub min_subsidy_units : ℤ
  pub pow_difficulty_nibbles : ℤ

pub record Store : Type 0 where
  pub settings : Settings
  pub limits : EventLimits
  pub chain_policy : ChainPolicy
  pub economy : Economy
  pub timeline : Timeline
  pub ledger : Ledger
  pub views : Views
  pub enable_pruning : Bool
  pub prune_keep_recent_blocks : ℕ
  pub checkpoint_count : ℕ
  pub invalid_event_drop_count : ℕ

-- How the writes of one operation end.
pub record Disk : Type 0 where
  pub invalid_log_opened : Bool
  pub event_written : Outcome
  pub events_written : Outcome
  pub blocks_written : Outcome
  pub checkpoints_opened : Bool
  pub checkpoints_written : Outcome
  pub snapshot_written : Outcome

-- what the economic pass reads
unfoldable pub context_of : Store → Context
context_of s = record {
  hash = s.settings.hash;
  decayed = s.economy.decayed;
  block_reward_units = s.economy.block_reward_units;
  max_token_supply_units = s.economy.max_token_supply_units;
  min_subsidy_units = s.economy.min_subsidy_units;
  pow_difficulty_nibbles = s.economy.pow_difficulty_nibbles;
  blocks = s.timeline.blocks;
  confirmed_tip = latest_confirmed_block_index s.timeline.blocks;
}

abbrev pub confirmed_of : ℤ → Store → Confirmed
confirmed_of now s = record {
  blocks = s.timeline.blocks;
  event_to_block = s.timeline.event_to_block;
  now = now;
}

-- Store::materialize_views, which always succeeds
unfoldable pub materialize_views : ℤ → Store → Store
unfolding context_of
materialize_views now s =
    let order = ordered_events s.timeline.event_to_block s.timeline.events in
    let ledger = settle (context_of s) order empty_ledger in
    record s {
      ledger = ledger;
      views = rebuild_views (confirmed_of now s) s.views.moderation.policy ledger.invalid order;
    }

-- Store::record_invalid_event
unfoldable pub record_invalid_event : Disk → Store → Store
record_invalid_event d s =
    if d.invalid_log_opened
    then record s { invalid_event_drop_count = s.invalid_event_drop_count + 1 }
    else s
