-- ===== src/Store/Queries.antt =====
-- What the store answers about rewards (src/core/storage/store.cpp).
use got_soup.Prelude.{
  ℕ, ◌+◌, ◌%◌, ◌^◌, Bytes, Bool, ◌&&◌, not, List, [], ◌∷◌, leb, ltb, lt_bytes, ◌==◌, nat_eq,
  bytes_eq, if◌then◌else◌, none, some,
}
use got_soup.Prelude.Int.{ℤ, pos, ltb_ℤ, eqb_ℤ}
use got_soup.Prelude.Dict.{Dict, lookup, has, get_or}
use got_soup.Prelude.Sort.{sort}
use got_soup.Chain.{Block, latest_confirmed_block_index, confirmations_under}
use got_soup.Ledger.{expected_claim_reward_for_block}
use got_soup.Store.{Store, context_of}

unfoldable pub reward_balance : Store → Bytes → ℤ
reward_balance s cid = get_or cid s.ledger.balances (pos 0)

abbrev pub richer : Bytes × ℤ → Bytes × ℤ → Bool
richer (k, a) (j, b) = if not (eqb_ℤ a b) then ltb_ℤ b a else lt_bytes k j

-- the rows of the reward balances, whose display names the store leaves empty
unfoldable pub reward_balances : Store → Dict Bytes ℤ
reward_balances s = sort richer s.ledger.balances

unfoldable pub has_block_claim : Store → ℕ → Bool
has_block_claim s index = has index s.ledger.claimed

unfoldable pub next_claim_reward : Store → ℕ → ℤ
next_claim_reward s index = expected_claim_reward_for_block (context_of s) index s.ledger.issued

unfoldable pub next_transfer_nonce : Store → Bytes → ℕ
next_transfer_nonce s cid = elim (lookup cid s.ledger.nonces) [
  | none ↦ 1
  | some n ↦ (n + 1) % 2 ^ 64
]

-- the tests in the loop of `claimable_confirmed_blocks`
unfoldable pub is_claimable : Store → ℕ → Block → Bool
unfolding confirmations_under has_block_claim
is_claimable s tip b =
    not (b.index == 0)
    && b.confirmed
    && leb s.chain_policy.confirmation_threshold (confirmations_under tip b.index)
    && not (has_block_claim s b.index)

-- the loop
unfoldable pub claimable : Store → ℕ → List Block → List Block
unfolding is_claimable
claimable s tip [] = []
claimable s tip (b ∷ bs) =
    let rest = claimable s tip bs in if is_claimable s tip b then b ∷ rest else rest

abbrev pub lower_index : Block → Block → Bool
lower_index a b = ltb a.index b.index

unfoldable pub claimable_confirmed_blocks : Store → List Block
unfolding claimable
claimable_confirmed_blocks s = elim (latest_confirmed_block_index s.timeline.blocks) [
  | none ↦ []
  | some tip ↦ sort lower_index (claimable s tip s.timeline.blocks)
]
