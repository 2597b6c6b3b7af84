-- ===== src/Store.antt =====
-- The store (src/core/storage/store.hpp and store.cpp): its state, and the operations that change all of it.
mod State
pub mod Setters
pub mod Accepted
pub mod Admitted
pub mod Routine
pub mod Queries
pub mod Claimable
pub mod Rollback
pub mod RolledBack
mod Contents
unfoldable pub use State.*
use got_soup.Prelude.{
  ℕ, zero, suc, ◌+◌, ◌-◌, ◌%◌, Bytes, Bool, true, false, ◌&&◌, ◌||◌, not, List, [], ◌∷◌, ◌++◌, ◌==◌,
  leb, ltb, is_empty, if◌then◌else◌, nat_eq, bytes_eq, text, Option, none, some, length, contains,
  max,
}
use got_soup.Prelude.Int.{ℤ, add64, sub64, ltb_ℤ, leb_ℤ, signed64}
use got_soup.Model.{EventEnvelope, Outcome, success, failure}
use got_soup.Chain.{
  Block, latest_confirmed_block_index, confirmations_under, rebuild_event_to_block_index,
}
use got_soup.Timeline.{
  Timeline, Settings, ensure_genesis_block, ensure_block_slots_until,
  assign_unassigned_events_to_blocks, assigned_ids, fresh_slot, reindex,
}
use got_soup.Hashing.{recompute_block_hashes, has_event, no_ids}
use got_soup.Views.Cleanup.{apply_confirmation_metrics}

-- the tests on a block for a checkpoint, but that on index 0
unfoldable pub is_checkpoint : ChainPolicy → ℕ → Block → Bool
unfolding confirmations_under
is_checkpoint p tip b =
    b.confirmed
    && (p.checkpoint_interval_blocks == 0 || b.index % p.checkpoint_interval_blocks == 0)
    && leb p.checkpoint_confirmations (confirmations_under tip b.index)

unfoldable pub count_checkpoints : ChainPolicy → ℕ → List Block → ℕ
unfolding is_checkpoint
count_checkpoints p tip [] = 0
count_checkpoints p tip (b ∷ bs) =
    (if not (b.index == 0) && is_checkpoint p tip b then 1 else 0) + count_checkpoints p tip bs

-- Store::persist_checkpoints, but for the file
unfoldable pub persist_checkpoints : Disk → Store → Store
unfolding count_checkpoints
persist_checkpoints d s =
    if d.checkpoints_opened
    then record s {
      checkpoint_count = elim (latest_confirmed_block_index s.timeline.blocks) [
        | none ↦ 0
        | some tip ↦ count_checkpoints s.chain_policy tip s.timeline.blocks
      ];
    }
    else s

-- the last writes of every operation
unfoldable pub persist_rest : Disk → Store → Outcome × Store
unfolding persist_checkpoints
persist_rest d s =
    if not d.checkpoints_written.ok
    then (d.checkpoints_written, persist_checkpoints d s)
    else (d.snapshot_written, persist_checkpoints d s)

-- why `append_event` refuses an event
unfoldable pub append_fault : EventLimits → ℤ → EventEnvelope → Option Bytes
append_fault limits now e =
    if is_empty e.event_id
    then some (text "append_event failed: missing event id.")
    else if is_empty e.payload
    then some (text "append_event failed: missing payload.")
    else if is_empty e.signature
    then some (text "append_event failed: missing signature.")
    else if ltb limits.max_event_bytes (length e.payload)
    then some (text "append_event failed: payload exceeds max_event_bytes.")
    else if ltb_ℤ (add64 now limits.max_future_drift_seconds) e.unix_ts
    then some (text "append_event failed: timestamp exceeds future drift limit.")
    else if ltb_ℤ e.unix_ts (sub64 now limits.max_past_drift_seconds)
    then some (text "append_event failed: timestamp exceeds past drift limit.")
    else none

-- `events_.push_back(event)`
abbrev pub push_event : EventEnvelope → Store → Store
push_event e s = record s { timeline = record s.timeline { events = s.timeline.events ++ e ∷ [] } }

-- the three operations on the timeline that follow
unfoldable pub extend_timeline : ℤ → Store → Store
extend_timeline now s = record s {
  timeline = recompute_block_hashes s.settings (
      ensure_block_slots_until s.settings now
        (assign_unassigned_events_to_blocks s.settings s.timeline));
}

-- a new event, from `events_.push_back` on
unfoldable pub accept_event : Disk → ℤ → EventEnvelope → Store → Outcome × Store
unfolding extend_timeline materialize_views persist_rest
accept_event d now e s =
    let extended = extend_timeline now (push_event e s) in
    if not d.event_written.ok
    then (d.event_written, push_event e s)
    else if not d.blocks_written.ok
    then (d.blocks_written, extended)
    else persist_rest d (materialize_views now extended)

-- Store::append_event, at one time of the clock
unfoldable pub append_event : Disk → ℤ → EventEnvelope → Store → Outcome × Store
unfolding append_fault accept_event record_invalid_event has_event
append_event d now e s = elim (append_fault s.limits now e) [
  | some reason ↦ (failure reason, record_invalid_event d s)
  | none ↦
      if has_event s.timeline.events e.event_id
      then (success (text "Event already exists (idempotent append)."), s)
      else accept_event d now e s
]

-- the loop that confirms blocks
unfoldable pub confirm_due : ℕ → ℤ → List Block → List Block
confirm_due interval now [] = []
confirm_due interval now (b ∷ bs) =
    (if not b.confirmed && leb_ℤ (signed64 interval) (sub64 now b.opened_unix)
      then record b { confirmed = true }
      else b)
    ∷ confirm_due interval now bs

-- the loop of `prune_blocks_if_needed`, with the number that may still be removed
unfoldable pub drop_empty : ℕ → List Block → List Block
drop_empty zero bs = bs
drop_empty (suc n) [] = []
drop_empty (suc n) (b ∷ bs) = elim (no_ids b.event_ids && b.confirmed) [
  | true ↦ drop_empty n bs
  | false ↦ b ∷ drop_empty (suc n) bs
]

-- it begins at the second block
unfoldable pub pruned : ℕ → List Block → List Block
unfolding drop_empty
pruned keep [] = []
pruned keep (b ∷ bs) = b ∷ drop_empty (length (b ∷ bs) - keep) bs

-- Store::prune_blocks_if_needed
unfoldable pub prune_blocks_if_needed : Store → Store
unfolding pruned
prune_blocks_if_needed s =
    let keep = max 2 s.prune_keep_recent_blocks in
    if not s.enable_pruning
      || leb (length s.timeline.blocks) s.prune_keep_recent_blocks
      || leb (length s.timeline.blocks) keep
    then s
    else if length (pruned keep s.timeline.blocks) == length s.timeline.blocks
    then s
    else record s {
      timeline = reindex (record s.timeline { blocks = pruned keep s.timeline.blocks });
    }

-- Store::routine_block_check up to the pruning
unfoldable pub advance_timeline : ℤ → Store → Store
unfolding confirm_due
advance_timeline now s =
    let t =
      assign_unassigned_events_to_blocks s.settings (
        ensure_block_slots_until s.settings now (ensure_genesis_block s.settings now s.timeline)) in
    record s {
      timeline =
          recompute_block_hashes s.settings
            (record t { blocks = confirm_due t.block_interval_seconds now t.blocks });
    }

-- Store::routine_block_check
unfoldable pub routine_block_check : Disk → ℤ → Store → Outcome × Store
unfolding advance_timeline prune_blocks_if_needed persist_rest
routine_block_check d now s =
    let advanced = advance_timeline now s in
    let shown = record advanced {
      views = apply_confirmation_metrics (confirmed_of now advanced) advanced.views;
    } in
    let kept = prune_blocks_if_needed shown in
    if not d.blocks_written.ok then (d.blocks_written, kept) else persist_rest d kept
