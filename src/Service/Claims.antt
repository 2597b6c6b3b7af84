-- ===== src/Service/Claims.antt =====
-- Claims of block rewards, and the tick of the service (src/core/service/alpha_service.cpp).
pub mod Paid
use got_soup.Prelude.{
  ℕ, zero, suc, ◌+◌, ◌%◌, ◌^◌, Bytes, Bool, true, false, ◌&&◌, ◌||◌, not, List, [], ◌∷◌, ◌++◌, leb,
  is_empty, if◌then◌else◌, text, Option, none, some,
}
use got_soup.Prelude.Int.{ℤ, pos, leb_ℤ}
use got_soup.Prelude.Decimal.{print_ℤ, print_ℕ}
use got_soup.Model.{EventEnvelope, Outcome, success, failure, block_reward_claimed}
use got_soup.Chain.{Block}
use got_soup.Ledger.{has_leading_zero_nibbles}
use got_soup.Store.{append_event, routine_block_check}
use got_soup.Store.Queries.{claimable_confirmed_blocks, next_claim_reward}
use got_soup.PeerNode.{queue_local_event, ingest_remote_event}
use got_soup.PeerNode
use got_soup.Service.State.{
  Service, Env, Attempt, go, stop, Announcement, make_event, wallet_locked, should_use_testnet,
  on_testnet, run_backtest_validation,
}
use got_soup.Service.Posts.{short_id}

-- the loop over the attempts, with the number of them that is left
unfoldable pub mine : (Bytes → Bytes) → ℤ → Bytes → ℕ → ℕ → Option (ℕ × Bytes)
mine hash nibbles material zero attempt = none
mine hash nibbles material (suc left) attempt =
    let candidate = hash (material ++ (b'|' ∷ print_ℕ attempt)) in
    elim (has_leading_zero_nibbles candidate nibbles) [
      | true ↦ some (attempt, candidate)
      | false ↦ mine hash nibbles material left (attempt + 1)
    ]

abbrev pub k_max_pow_attempts : ℕ
k_max_pow_attempts = 2500000

unfoldable pub difficulty_nibbles : Service → ℤ
unfolding should_use_testnet
difficulty_nibbles s = if on_testnet s then pos 3 else pos 4

unfoldable pub pow_material : Block → Service → Bytes
pow_material b s =
    s.community.community_id
    ++ (b'|'
        ∷ (s.crypto.identity.cid
            ++ (b'|' ∷ (print_ℕ b.index ++ (b'|' ∷ (b.block_hash ++ (b'|' ∷ b.merkle_root)))))))

unfoldable pub claim_witness_root : Block → ℤ → Bytes → Service → Bytes
claim_witness_root b reward pow_hash s = s.store.settings.hash (
    s.crypto.identity.cid
    ++ (b'|' ∷ (print_ℕ b.index ++ (b'|' ∷ (print_ℤ reward ++ (b'|' ∷ pow_hash))))))

unfoldable pub claim_announcement : Block → ℤ → ℕ → Bytes → Service → Announcement
unfolding difficulty_nibbles pow_material claim_witness_root short_id
claim_announcement b reward pow_nonce pow_hash s = record {
  kind = block_reward_claimed;
  fields =
      ((
        text "claim_id",
        short_id (text "clm-") (
            s.community.community_id
            ++ (s.crypto.identity.cid ++ (print_ℕ b.index ++ b.block_hash))),
      )
        ∷ (text "block_index", print_ℕ b.index)
        ∷ (text "reward", print_ℤ reward)
        ∷ (text "pow_difficulty", print_ℤ (difficulty_nibbles s))
        ∷ (text "pow_nonce", print_ℕ pow_nonce)
        ∷ (text "pow_material", pow_material b s)
        ∷ (text "pow_hash", pow_hash)
        ∷ (text "witness_root", claim_witness_root b reward pow_hash s)
        ∷ (text "block_hash", b.block_hash)
        ∷ (text "merkle_root", b.merkle_root)
        ∷ (text "psz_timestamp", b.psz_timestamp)
        ∷ []);
}

-- what is made of the nonce that was found, if there is one; `none` is the source's `continue`
unfoldable pub claim_with : Block → ℤ → Service → Option (ℕ × Bytes) → Option Announcement
claim_with b reward s none = none
claim_with b reward s (some (pow_nonce, pow_hash)) =
    if is_empty pow_hash then none else some (claim_announcement b reward pow_nonce pow_hash s)

-- the claim of one block
unfoldable pub claim_for : Block → Service → Option Announcement
claim_for b s =
    let reward = next_claim_reward s.store b.index in
    if leb_ℤ reward (pos 0)
    then none
    else claim_with b reward s
        (mine s.store.settings.hash (difficulty_nibbles s) (pow_material b s) k_max_pow_attempts 0)

-- the appending and queueing of a claim; whether its append succeeds
unfoldable pub send_claim : Env → Announcement → Service → Outcome × Service
unfolding make_event
send_claim env a s =
    let (claim, s') = make_event env.now a s in
    let (appended, store) = append_event env.disk env.now claim s'.store in
    let s'' = record s' { store = store } in
    if not appended.ok
    then (appended, s'')
    else (appended, record s'' { node = queue_local_event claim s''.node })

-- the loop over the blocks; whether anything was claimed, or the result with which it returns early
unfoldable pub claim_blocks : Env → List Block → Bool → Service → Attempt Bool × Service
claim_blocks env [] claimed_any s = (go claimed_any, s)
claim_blocks env (b ∷ bs) claimed_any s = elim (claim_for b s) [
  | none ↦ claim_blocks env bs claimed_any s
  | some a ↦ elim (send_claim env a s).0.ok [
    | false ↦ (stop (send_claim env a s).0, (send_claim env a s).1)
    | true ↦ claim_blocks env bs true (send_claim env a s).1
  ]
]

-- after the loop
unfoldable pub finish_claims : Env → Attempt Bool × Service → Outcome × Service
finish_claims env (stop r, s) = (r, s)
finish_claims env (go false, s) = (success (text "No reward claims generated."), s)
finish_claims env (go true, s) = (run_backtest_validation env s, s)

abbrev no_blocks : List Block → Bool
no_blocks [] = true
no_blocks (_ ∷ _) = false

unfoldable pub try_claim_confirmed_block_rewards : Env → Service → Outcome × Service
unfolding wallet_locked
try_claim_confirmed_block_rewards env s =
    if wallet_locked s
    then (success (text "Wallet locked; reward claims paused."), s)
    else if is_empty s.crypto.identity.cid
    then (failure (text "Reward claim failed: local CID is empty."), s)
    else if no_blocks (claimable_confirmed_blocks s.store)
    then (success (text "No claimable confirmed blocks."), s)
    else finish_claims env (claim_blocks env (claimable_confirmed_blocks s.store) false s)

-- from the counting of the tick on: every so many ticks the store is validated, and the result is not looked at
unfoldable pub publish_tick : Service → List EventEnvelope × Service
publish_tick s =
    let ticks = (s.ticks_since_last_validation + 1) % 2 ^ 64 in
    let (events, node) = PeerNode.sync_tick s.node in
    (
      events,
      record s {
        ticks_since_last_validation = if leb s.validation_interval_ticks ticks then 0 else ticks;
        node = node;
      },
    )

unfoldable pub sync_tick : Env → Service → List EventEnvelope × Service
unfolding publish_tick
sync_tick env s =
    let (checked, store) = routine_block_check env.disk env.now s.store in
    let s' = record s { store = store } in
    let (claimed, s'') = try_claim_confirmed_block_rewards env s' in
    if not checked.ok then ([], s') else if not claimed.ok then ([], s'') else publish_tick s''

unfoldable pub ingest_remote : Env → EventEnvelope → Service → Outcome × Service
ingest_remote env e s =
    let (fresh, node) = ingest_remote_event e s.node in
    let s' = record s { node = node } in
    let (appended, store) = append_event env.disk env.now e s.store in
    if not fresh
    then (success (text "Duplicate or ignored remote event."), s')
    else if is_empty e.signature
    then (failure (text "Remote event signature is missing."), s')
    else (appended, record s' { store = store })
