-- ===== src/Store/Routine.antt =====
-- What Store::routine_block_check leaves of the timeline (src/core/storage/store.cpp).
use got_soup.Prelude.{
  ◌≤◌, Bytes, false, [], ◌≡◌, refl, ◌∙◌, sym, if◌then◌else◌, not, arith, All, Bool-cases, inl, inr,
  subst, ap, text,
}
use got_soup.Prelude.Int.{ℤ}
use got_soup.Model.{EventEnvelope}
use got_soup.Timeline.{
  Timeline, ensure_block_slots_until, ensure_genesis_block, assign_unassigned_events_to_blocks,
}
use got_soup.Timeline.Assign.{times}
use got_soup.Timeline.Assigned.{
  IsAssigned, assign_unassigned_events_to_blocks-IsAssigned, ensure_genesis_in-SameContents,
  events-ensure_genesis_in,
}
use got_soup.Hashing.{payload_hashes, chain_issues, recompute_block_hashes}
use got_soup.Hashing.Intact.{chain_issues-recompute_block_hashes}
use got_soup.Views.Cleanup.{apply_confirmation_metrics}
use got_soup.Store.{
  Disk, Store, confirm_due, advance_timeline, prune_blocks_if_needed, persist_checkpoints,
  persist_rest, routine_block_check, confirmed_of,
}
use got_soup.Store.Accepted.{All-implied, events-recompute_block_hashes}
use got_soup.Store.Contents.{
  times-recompute_block_hashes, times-ensure_block_slots_until, events-ensure_block_slots_until,
  times-confirm_due,
}

-- The log's events stand in the blocks once each, no id does twice, and the hashes pass the backtest.
pub record IsIntact (s : Store) (t : Timeline) : Type 0 where
  pub every_once : All (λ (e : EventEnvelope). times e.event_id t.blocks ≡ 1) t.events
  pub unique : (i : Bytes) → times i t.blocks ≤ 1
  pub hashed :
      chain_issues s.settings (payload_hashes s.settings t.events []) (text "genesis") t.blocks ≡ 0

module _ (now : ℤ) (s : Store) (u : (i : Bytes) → times i s.timeline.blocks ≤ 1) where
  abbrev slotted : Timeline
  slotted = ensure_block_slots_until s.settings now (ensure_genesis_block s.settings now s.timeline)

  times-slotted : (i : Bytes) → times i slotted.blocks ≡ times i s.timeline.blocks
  unfolding ensure_genesis_block
  times-slotted i =
      times-ensure_block_slots_until i s.settings now
        (ensure_genesis_block s.settings now s.timeline)
      ∙ (ensure_genesis_in-SameContents s.settings now s.timeline.blocks s.timeline).same_times i

  events-slotted : slotted.events ≡ s.timeline.events
  unfolding ensure_genesis_block
  events-slotted =
      events-ensure_block_slots_until s.settings now
        (ensure_genesis_block s.settings now s.timeline)
      ∙ events-ensure_genesis_in s.settings now s.timeline.blocks s.timeline

  abbrev filled : Timeline
  filled = assign_unassigned_events_to_blocks s.settings slotted

  filled-IsAssigned : IsAssigned s.settings slotted filled
  filled-IsAssigned =
      assign_unassigned_events_to_blocks-IsAssigned s.settings slotted
        (λ i. rw (times-slotted i) (u i))

  abbrev confirmed : Timeline
  confirmed = record filled { blocks = confirm_due filled.block_interval_seconds now filled.blocks }

  advance_timeline-IsIntact : IsIntact s (advance_timeline now s).timeline
  unfolding advance_timeline
  advance_timeline-IsIntact = record {
    every_once =
        subst
          (All (λ (e : EventEnvelope).
            times e.event_id (recompute_block_hashes s.settings confirmed).blocks ≡ 1))
          (sym (events-recompute_block_hashes s confirmed ∙ filled-IsAssigned.same_events))
          (All-implied
            (λ e h.
              times-recompute_block_hashes e.event_id s.settings confirmed
              ∙ times-confirm_due e.event_id filled.block_interval_seconds now filled.blocks
              ∙ h)
            slotted.events filled-IsAssigned.every_once);
    unique = λ i.
        rw
          (
            times-recompute_block_hashes i s.settings confirmed,
            times-confirm_due i filled.block_interval_seconds now filled.blocks,
          )
          (filled-IsAssigned.unique i);
    hashed = chain_issues-recompute_block_hashes s.settings confirmed;
  }

  events-advanced : (advance_timeline now s).timeline.events ≡ s.timeline.events
  unfolding advance_timeline
  events-advanced =
      events-recompute_block_hashes s confirmed ∙ filled-IsAssigned.same_events ∙ events-slotted

pub timeline-persist_rest : (d : Disk) (s : Store) → (persist_rest d s).1.timeline ≡ s.timeline
unfolding persist_rest persist_checkpoints
timeline-persist_rest d s = ground arith

timeline-writes :
    (d : Disk) (s : Store)
    → (if not d.blocks_written.ok then (d.blocks_written, s) else persist_rest d s).1.timeline
      ≡ s.timeline
unfolding persist_rest
timeline-writes d s = elim (Bool-cases d.blocks_written.ok) [
  | inl ok ↦ rw ok (timeline-persist_rest d s)
  | inr failed ↦ rw failed refl
]

prune_off : (s : Store) → s.enable_pruning ≡ false → prune_blocks_if_needed s ≡ s
unfolding prune_blocks_if_needed
prune_off s off = rw off refl

-- Without pruning, whatever the writes end with: after a routine check the log has the events that it had, each
-- stands in the blocks once, and the hashes pass the backtest, as long as no id stood in the blocks twice.
pub routine_block_check-IsIntact :
    (d : Disk) (now : ℤ) (s : Store)
    → s.enable_pruning ≡ false
    → ((i : Bytes) → times i s.timeline.blocks ≤ 1)
    → IsIntact s (routine_block_check d now s).1.timeline
      × ((routine_block_check d now s).1.timeline.events ≡ s.timeline.events)
unfolding routine_block_check
routine_block_check-IsIntact d now s off u =
    let advanced = advance_timeline now s in
    let shown : Store = record advanced {
      views = apply_confirmation_metrics (confirmed_of now advanced) advanced.views;
    } in
    let same : (routine_block_check d now s).1.timeline ≡ advanced.timeline =
      timeline-writes d (prune_blocks_if_needed shown)
      ∙ ap (λ (s : Store). s.timeline) (prune_off shown (unfold advance_timeline in off)) in
    subst (λ (t : Timeline). IsIntact s t × (t.events ≡ s.timeline.events)) (sym same)
      (advance_timeline-IsIntact now s u, events-advanced now s u)
