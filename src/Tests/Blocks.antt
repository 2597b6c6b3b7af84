-- ===== src/Tests/Blocks.antt =====
-- Examples of the timeline, its hashes, the backtest and the replay order.
use mathlib.Core.List.{Permᴰ}
use got_soup.Prelude.{
  ◌↔◌, Bytes, List, [], ◌∷◌, ◌++◌, refl, ◌≡◌, text, arith, nat_eq, bytes_eq, some,
}
use got_soup.Prelude.Int.{pos}
use got_soup.Chain.{Block}
use got_soup.ReplayOrder.{ordered_events}
use got_soup.ReplayOrder.Determined.{UniqueIds, ordered_events_determined}
use got_soup.Merkle.{merkle_levels}
use got_soup.Merkle.Total.{merkle_levels-ends}
use got_soup.Timeline.{assign_unassigned_events_to_blocks, assigned_ids, with_slots}
use got_soup.Timeline.Assigned.{IsAssigned, assign_unassigned_events_to_blocks-IsAssigned}
use got_soup.Timeline.Slots.{IsFilled, with_slots-IsFilled}
use got_soup.Hashing.{payload_hashes, recompute_block_hashes, chain_issues}
use got_soup.Hashing.Intact.{chain_issues-recompute_block_hashes}
use got_soup.Backtest.{structure_issues}
use got_soup.Backtest.Structure.{IsPlacement, structure_issues_iff}
use got_soup.Tests.Data.{claim, transfer, settings, timeline, zeros_before, first_block}

assign_unassigned_events_to_blocks-IsAssigned_example :
    IsAssigned settings timeline (assign_unassigned_events_to_blocks settings timeline)
unfolding assigned_ids
assign_unassigned_events_to_blocks-IsAssigned_example =
    assign_unassigned_events_to_blocks-IsAssigned settings timeline (λ i. omega arith)

chain_issues-recompute_block_hashes_example :
    let t' = recompute_block_hashes settings (record timeline { blocks = first_block ∷ [] }) in
    chain_issues settings (payload_hashes settings t'.events []) (text "genesis") t'.blocks ≡ 0
chain_issues-recompute_block_hashes_example =
    chain_issues-recompute_block_hashes settings (record timeline { blocks = first_block ∷ [] })

claim_and_transfer-UniqueIds : UniqueIds (claim ∷ transfer ∷ [])
unfolding text
claim_and_transfer-UniqueIds [] = omega arith
claim_and_transfer-UniqueIds (x ∷ i) = ground arith

ordered_events_determined_example :
    ordered_events ((text "c1", 3) ∷ []) (claim ∷ transfer ∷ [])
    ≡ ordered_events ((text "c1", 3) ∷ []) (transfer ∷ claim ∷ [])
ordered_events_determined_example =
    ordered_events_determined ((text "c1", 3) ∷ []) (claim ∷ transfer ∷ []) (transfer ∷ claim ∷ [])
      claim_and_transfer-UniqueIds ∣ Permᴰ.swap refl refl ∣₁

with_slots-IsFilled_example :
    (slots : List Block) × (with_slots 150 (pos 1000) (first_block ∷ [])
      ≡ (first_block ∷ []) ++ slots)
    × IsFilled 256 150 (pos 1000) first_block slots
with_slots-IsFilled_example =
    with_slots-IsFilled 150 (pos 1000) (first_block ∷ []) first_block refl (omega arith)
      (omega arith) (omega arith) (omega arith) (omega arith) (omega arith)

merkle_levels-ends_example :
    (root : Bytes) × (merkle_levels zeros_before 2 ((b'x' ∷ []) ∷ (b'y' ∷ []) ∷ (b'z' ∷ []) ∷ [])
      ≡ some root)
merkle_levels-ends_example =
    merkle_levels-ends zeros_before 2 ((b'x' ∷ []) ∷ (b'y' ∷ []) ∷ (b'z' ∷ []) ∷ []) (omega arith)
      (omega arith)

structure_issues_iff_example :
    (structure_issues
        (claim ∷ transfer ∷ [])
        (record first_block { event_ids = text "c1" ∷ [] } ∷ [])
      ≡ 0)
    ↔ IsPlacement (claim ∷ transfer ∷ []) (record first_block { event_ids = text "c1" ∷ [] } ∷ [])
structure_issues_iff_example =
    structure_issues_iff (claim ∷ transfer ∷ [])
      (record first_block { event_ids = text "c1" ∷ [] } ∷ [])
