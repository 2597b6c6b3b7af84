-- ===== src/Store/Rollback.antt =====
-- Store::rollback_to_last_checkpoint (src/core/storage/store.cpp).
use got_soup.Prelude.{
  ℕ, Bytes, List, [], ◌∷◌, ◌++◌, ltb, max, not, is_empty, if◌then◌else◌, bytes_eq, none, some, text,
  contains,
}
use got_soup.Prelude.Int.{ℤ}
use got_soup.Prelude.Decimal.{print_ℕ}
use got_soup.Model.{EventEnvelope, Outcome, success}
use got_soup.Chain.{Block, latest_confirmed_block_index}
use got_soup.Timeline.{Timeline, ensure_genesis_block, assigned_ids, fresh_slot, reindex}
use got_soup.Hashing.{recompute_block_hashes}
use got_soup.Store.{Disk, Store, ChainPolicy, is_checkpoint, materialize_views, persist_rest}

-- the loop that looks for the last checkpoint
unfoldable pub highest_checkpoint : ChainPolicy → ℕ → ℕ → List Block → ℕ
unfolding is_checkpoint
highest_checkpoint p tip found [] = found
highest_checkpoint p tip found (b ∷ bs) =
    highest_checkpoint p tip (if is_checkpoint p tip b then max found b.index else found) bs

unfoldable pub checkpoint_index : ChainPolicy → List Block → ℕ
unfolding highest_checkpoint
checkpoint_index p blocks = elim (latest_confirmed_block_index blocks) [
  | none ↦ 0
  | some tip ↦ highest_checkpoint p tip 0 blocks
]

-- the loop that fills `retained_blocks`
unfoldable pub retained : ℕ → List Block → List Block
retained index [] = []
retained index (b ∷ bs) =
    let rest = retained index bs in if ltb index b.index then rest else b ∷ rest

unfoldable pub or_genesis : ℤ → Bytes → List Block → List Block
or_genesis now psz [] = record (fresh_slot 0 now) { psz_timestamp = psz } ∷ []
or_genesis now psz (b ∷ bs) = b ∷ bs

-- std::remove_if over the events
unfoldable pub retained_events : List Bytes → List EventEnvelope → List EventEnvelope
retained_events ids [] = []
retained_events ids (e ∷ es) =
    let rest = retained_events ids es in if contains e.event_id ids then e ∷ rest else rest

-- the timeline up to a block index
unfoldable pub cut : ℤ → ℕ → Timeline → Timeline
unfolding retained or_genesis retained_events
cut now index t = reindex (record t {
  events = retained_events (assigned_ids (retained index t.blocks)) t.events;
  blocks = or_genesis now t.genesis_psz_timestamp (retained index t.blocks);
})

unfoldable pub rollback_message : ℕ → Bytes → Bytes
rollback_message index reason =
    text "Rolled back chain to checkpoint block "
    ++ (print_ℕ index ++ (if is_empty reason then [] else text " (" ++ (reason ++ text ")")))

-- the store after the rollback, before it is written
unfoldable pub rolled_back : ℤ → Store → Store
unfolding cut checkpoint_index
rolled_back now s =
    let t = ensure_genesis_block s.settings now s.timeline in
    record s {
      timeline =
          recompute_block_hashes s.settings (cut now (checkpoint_index s.chain_policy t.blocks) t);
    }

unfoldable pub rollback_to_last_checkpoint : Disk → ℤ → Bytes → Store → Outcome × Store
unfolding rolled_back rollback_message
rollback_to_last_checkpoint d now reason s =
    let index =
      checkpoint_index s.chain_policy (ensure_genesis_block s.settings now s.timeline).blocks in
    let done = materialize_views now (rolled_back now s) in
    let rest = persist_rest d done in
    if not d.events_written.ok
    then (d.events_written, done)
    else if not d.blocks_written.ok
    then (d.blocks_written, done)
    else if not rest.0.ok
    then rest
    else (success (rollback_message index reason), rest.1)
