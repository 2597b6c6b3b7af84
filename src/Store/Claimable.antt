-- ===== src/Store/Claimable.antt =====
-- Claims of the blocks that the store calls claimable (src/core/storage/store.cpp).
use got_soup.Prelude.{
  ℕ, ◌≤◌, true, false, ◌||◌, not, List, [], ◌∷◌, ◌++◌, subst, nat_eq, bytes_eq, some, ◌≡◌, refl,
  All, arith, Bool-cases, Option-cases, inl, inr, text,
}
use got_soup.Prelude.Int.{ℤ, pos, ◌≤ℤ◌, leb_ℤ, eqb_ℤ, add64}
use got_soup.Prelude.Dict.{insert, has}
use got_soup.Model.{EventEnvelope}
use got_soup.Chain.{Block, latest_confirmed_block_index, confirmations_under, find_block}
use got_soup.Ledger.{
  Payload, uint_field, int_field, expected_claim_reward_for_block, is_confirmed, pow_is_valid,
  has_witness, claim_witness, credit, claim_block, apply_claim,
}
use got_soup.Store.{Store, context_of}
use got_soup.Store.Contents.{All-sort}
use got_soup.Store.Queries.{
  next_claim_reward, has_block_claim, is_claimable, claimable, claimable_confirmed_blocks,
  lower_index,
}

-- A claim of the block for the next reward, with proof of work and witness.
pub record IsClaimOf (s : Store) (b : Block) (e : EventEnvelope) (p : Payload) : Type 0 where
  pub index_read : uint_field (text "block_index") p ≡ some b.index
  pub reward_due : int_field (text "reward") p ≡ next_claim_reward s b.index
  pub positive : pos 1 ≤ℤ int_field (text "reward") p
  pub worked : pow_is_valid (context_of s) p ≡ true
  pub witnessed :
      has_witness (claim_witness (context_of s) e b.index (int_field (text "reward") p) p) p ≡ true

-- Any such claim is paid.
abbrev IsPaidOut : Store → Block → Type 0
IsPaidOut s b =
    (e : EventEnvelope) (p : Payload)
    → IsClaimOf s b e p
    → apply_claim (context_of s) e p s.ledger ≡ record s.ledger {
      claimed = insert b.index e.author_cid s.ledger.claimed;
      balances = credit e.author_cid (int_field (text "reward") p) s.ledger.balances;
      issued = add64 s.ledger.issued (int_field (text "reward") p);
    }

same_ℤ : (a : ℤ) → eqb_ℤ a a ≡ true
same_ℤ a = ground arith

module _ (s : Store) (tip : ℕ) (tipped : latest_confirmed_block_index s.timeline.blocks ≡ some tip)
    (threshold : 1 ≤ s.chain_policy.confirmation_threshold) where
  claimable_is_confirmed :
      (b : Block)
      → is_claimable s tip b ≡ true
      → find_block b.index s.timeline.blocks ≡ some b
      → is_confirmed (context_of s) b.index ≡ true
  unfolding is_claimable is_confirmed context_of confirmations_under
  claimable_is_confirmed b h found = rw (found, is_confirmed, context_of, tipped) (ground arith)

  unclaimed : (b : Block) → is_claimable s tip b ≡ true → has b.index s.ledger.claimed ≡ false
  unfolding is_claimable has_block_claim
  unclaimed b h = ground arith

  reward_good :
      (b : Block) (e : EventEnvelope) (p : Payload)
      → IsClaimOf s b e p
      → (leb_ℤ (int_field (text "reward") p) (pos 0)
          || not (
              eqb_ℤ
                (int_field (text "reward") p)
                (expected_claim_reward_for_block (context_of s) b.index s.ledger.issued)))
        ≡ false
  unfolding next_claim_reward
  reward_good b e p t =
      let due : eqb_ℤ (int_field (text "reward") p)
            (expected_claim_reward_for_block (context_of s) b.index s.ledger.issued)
          ≡ true =
        rw t.reward_due
          (same_ℤ (expected_claim_reward_for_block (context_of s) b.index s.ledger.issued)) in
      rw due (ground (arith, t.positive))

  claim_pays :
      (b : Block)
      → is_claimable s tip b ≡ true
      → find_block b.index s.timeline.blocks ≡ some b
      → IsPaidOut s b
  unfolding apply_claim claim_block
  claim_pays b h found e p t =
      rw
        (
          t.index_read,
          apply_claim,
          reward_good b e p t,
          claimable_is_confirmed b h found,
          unclaimed b h,
          t.worked,
          t.witnessed,
        )
        refl

  claimable-IsPaidOut :
      (bs : List Block)
      → All (λ (b : Block). find_block b.index s.timeline.blocks ≡ some b) bs
      → All (IsPaidOut s) (claimable s tip bs)
  unfolding claimable
  claimable-IsPaidOut [] h = tt
  claimable-IsPaidOut (b ∷ bs) (h, hs) = elim (Bool-cases (is_claimable s tip b)) [
    | inl passes ↦ rw passes (claim_pays b passes h, claimable-IsPaidOut bs hs)
    | inr fails ↦ rw fails (claimable-IsPaidOut bs hs)
  ]

listed-IsPaidOut :
    (s : Store)
    → 1 ≤ s.chain_policy.confirmation_threshold
    → All (λ (b : Block). find_block b.index s.timeline.blocks ≡ some b) s.timeline.blocks
    → All (IsPaidOut s) (claimable_confirmed_blocks s)
unfolding claimable_confirmed_blocks
listed-IsPaidOut s threshold distinct =
    elim (Option-cases (latest_confirmed_block_index s.timeline.blocks)) [
      | inl none_yet ↦ rw (none_yet, claimable_confirmed_blocks) tt
      | inr (tip, tipped) ↦
          rw (tipped, claimable_confirmed_blocks)
            (All-sort lower_index (IsPaidOut s) (claimable s tip s.timeline.blocks)
              (claimable-IsPaidOut s tip tipped threshold s.timeline.blocks distinct))
    ]

All-middle :
    (P : Block → Type 0) (before after : List Block) (b : Block) → All P (before ++ b ∷ after) → P b
All-middle P [] after b (h, hs) = h
All-middle P (c ∷ before) after b (h, hs) = All-middle P before after b hs

-- With a confirmation threshold of at least 1 and no two blocks under one index: a claim of a block that the
-- store lists as claimable, for the next reward and with a positive reward, proof of work and witness, is paid.
pub apply_claim-claimable_confirmed_blocks :
    (s : Store) (before after : List Block) (b : Block) (e : EventEnvelope) (p : Payload)
    → 1 ≤ s.chain_policy.confirmation_threshold
    → All (λ (b : Block). find_block b.index s.timeline.blocks ≡ some b) s.timeline.blocks
    → claimable_confirmed_blocks s ≡ before ++ b ∷ after
    → IsClaimOf s b e p
    → apply_claim (context_of s) e p s.ledger ≡ record s.ledger {
      claimed = insert b.index e.author_cid s.ledger.claimed;
      balances = credit e.author_cid (int_field (text "reward") p) s.ledger.balances;
      issued = add64 s.ledger.issued (int_field (text "reward") p);
    }
apply_claim-claimable_confirmed_blocks s before after b e p threshold distinct listed =
    All-middle (IsPaidOut s) before after b
      (subst (All (IsPaidOut s)) listed (listed-IsPaidOut s threshold distinct)) e p
