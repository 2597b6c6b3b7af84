-- ===== src/Tests/Stores.antt =====
-- Examples of the operations of the store.
use got_soup.Prelude.{All, ◌≤◌, true, false, [], ◌∷◌, refl, ◌≡◌, text, arith, nat_eq, bytes_eq}
use got_soup.Prelude.Int.{pos, add64, sub64, wrap64, ◌+ℤ◌, ◌-ℤ◌}
use got_soup.Prelude.Dict.{lookup, insert, emplace}
use got_soup.Prelude.Decimal.{read_signed, read_unsigned, digits_value, print_ℕ, print_ℤ}
use got_soup.Prelude.Sort.{sort, insert_sorted}
use got_soup.Model.{success}
use got_soup.Canonical.{
  parse_canonical_map, canonical_join, write_fields, write_field, escape, escape_byte,
}
use got_soup.Ledger.{
  empty_ledger, int_field, parse_int64_or_zero, uint_field, text_field, parse_uint64,
  expected_claim_reward_for_block, scheduled_reward_for_block, pow_is_valid,
  has_leading_zero_nibbles, leading_zeros, claim_difficulty, has_witness, claim_witness,
  apply_claim, credit,
}
use got_soup.Chain.{
  Block, find_block, latest_confirmed_block_index, latest_from, confirmations_under,
}
use got_soup.Store.Queries.{
  claimable_confirmed_blocks, claimable, is_claimable, has_block_claim, next_claim_reward,
}
use got_soup.Store.Claimable.{IsClaimOf, apply_claim-claimable_confirmed_blocks}
use got_soup.Timeline.{assigned_ids, ensure_genesis_block}
use got_soup.Store.Rollback.{rollback_to_last_checkpoint, checkpoint_index}
use got_soup.Store.RolledBack.{rollback_to_last_checkpoint-IsIntact}
use got_soup.Hashing.{has_event}
use got_soup.Views.{fresh_views}
use got_soup.Store.{Disk, Store, context_of, append_fault, append_event, routine_block_check}
use got_soup.Store.Accepted.{IsConsistent, append_event-IsConsistent}
use got_soup.Store.Admitted.{Verdict, append_event-Verdict}
use got_soup.Store.Routine.{IsIntact, routine_block_check-IsIntact}
use got_soup.Tests.Data.{first_block, claim_fields, claim, transfer, settings, timeline, policy}

abbrev pub all_written : Disk
all_written = record {
  invalid_log_opened = true;
  event_written = success [];
  events_written = success [];
  blocks_written = success [];
  checkpoints_opened = true;
  checkpoints_written = success [];
  snapshot_written = success [];
}

abbrev pub store : Store
store = record {
  settings = settings;
  limits = record {
    max_event_bytes = 1000;
    max_future_drift_seconds = pos 120;
    max_past_drift_seconds = pos 600;
  };
  chain_policy = record {
    confirmation_threshold = 1;
    checkpoint_interval_blocks = 288;
    checkpoint_confirmations = 24;
  };
  economy = record {
    decayed = λ units n. units;
    block_reward_units = pos 50;
    max_token_supply_units = pos 69359946;
    min_subsidy_units = pos 1;
    pow_difficulty_nibbles = pos 2;
  };
  timeline = record timeline { events = claim ∷ [] };
  ledger = empty_ledger;
  views = fresh_views policy;
  enable_pruning = false;
  prune_keep_recent_blocks = 4096;
  checkpoint_count = 0;
  invalid_event_drop_count = 0;
}

append_event-IsConsistent_example :
    IsConsistent (append_event all_written (pos 150) transfer store).1
unfolding append_fault has_event assigned_ids context_of add64 sub64 wrap64 ◌+ℤ◌ ◌-ℤ◌ text
    parse_canonical_map canonical_join write_fields write_field escape escape_byte sort
    insert_sorted int_field parse_int64_or_zero read_signed read_unsigned digits_value lookup
    emplace insert
append_event-IsConsistent_example =
    append_event-IsConsistent all_written (pos 150) transfer store refl refl refl refl
      (λ i. omega arith) (omega arith, omega arith) (omega arith, (omega arith, tt))

append_event-Verdict_example :
    Verdict
      (pos 150)
      transfer
      store
      (append_event all_written (pos 150) transfer store).0.ok
      (append_event all_written (pos 150) transfer store).1
unfolding ◌+ℤ◌ ◌-ℤ◌
append_event-Verdict_example =
    append_event-Verdict all_written (pos 150) transfer store (omega arith) (omega arith)

routine_block_check-IsIntact_example :
    IsIntact store (routine_block_check all_written (pos 1000) store).1.timeline
    × ((routine_block_check all_written (pos 1000) store).1.timeline.events ≡ store.timeline.events)
unfolding assigned_ids
routine_block_check-IsIntact_example =
    routine_block_check-IsIntact all_written (pos 1000) store refl (λ i. omega arith)

rollback_to_last_checkpoint-IsIntact_example :
    let t = (rollback_to_last_checkpoint all_written (pos 1000) (text "fork") store).1.timeline in
    IsIntact store t
    × All
        (λ (b : Block).
          b.index
          ≤ checkpoint_index store.chain_policy
              (ensure_genesis_block store.settings (pos 1000) store.timeline).blocks)
        t.blocks
unfolding assigned_ids
rollback_to_last_checkpoint-IsIntact_example =
    rollback_to_last_checkpoint-IsIntact all_written (pos 1000) (text "fork") store
      (λ i. omega arith)

-- A store with a confirmed block that is not claimed.
abbrev pub store_with_block : Store
store_with_block = record store { timeline = record timeline { blocks = first_block ∷ [] } }

claim-IsClaimOf : IsClaimOf store_with_block first_block claim claim_fields
unfolding text uint_field int_field text_field parse_uint64 parse_int64_or_zero read_signed
    read_unsigned digits_value lookup next_claim_reward expected_claim_reward_for_block
    scheduled_reward_for_block context_of pow_is_valid has_leading_zero_nibbles leading_zeros
    claim_difficulty has_witness claim_witness print_ℕ print_ℤ sub64 wrap64 ◌-ℤ◌ ◌+ℤ◌
claim-IsClaimOf = record {
  index_read = refl;
  reward_due = refl;
  positive = omega arith;
  worked = refl;
  witnessed = refl;
}

apply_claim-claimable_confirmed_blocks_example :
    apply_claim (context_of store_with_block) claim claim_fields store_with_block.ledger
    ≡ record store_with_block.ledger {
      claimed = insert 1 claim.author_cid store_with_block.ledger.claimed;
      balances =
          credit claim.author_cid
            (int_field (text "reward") claim_fields)
            store_with_block.ledger.balances;
      issued = add64 store_with_block.ledger.issued (int_field (text "reward") claim_fields);
    }
unfolding find_block claimable_confirmed_blocks claimable is_claimable has_block_claim
    latest_confirmed_block_index latest_from confirmations_under sort insert_sorted lookup
apply_claim-claimable_confirmed_blocks_example =
    apply_claim-claimable_confirmed_blocks store_with_block [] [] first_block claim claim_fields
      (omega arith) (refl, tt) refl claim-IsClaimOf
