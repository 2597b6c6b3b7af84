-- ===== src/Service/State.antt =====
-- The steps that the operations of the service share (src/core/service/alpha_service.cpp).
mod Records
use got_soup.Prelude.{
  ℕ, Bytes, Bool, true, false, ◌&&◌, ◌||◌, not, List, [], ◌∷◌, ◌++◌, is_empty, if◌then◌else◌,
  bytes_eq, text, contains,
}
use got_soup.Prelude.Int.{ℤ, pos, ltb_ℤ, max_ℤ, add64}
use got_soup.Prelude.Decimal.{print_ℤ, print_ℕ}
use got_soup.Model.{
  EventKind, EventEnvelope, Outcome, success, failure, recipe_created, thread_created,
  reply_created, review_added, thumbs_up_added, block_reward_claimed, reward_transferred,
  profile_updated, key_rotated, moderator_added, moderator_removed, content_flagged, content_hidden,
  content_unhidden, core_topic_pinned, core_topic_unpinned, policy_updated,
}
use got_soup.Canonical.{Field, canonical_join}
use got_soup.Crypto.{CryptoEngine, content_id, sign}
use got_soup.Moderation.{ModerationPolicy}
use got_soup.Store.{Store, Disk, ChainPolicy, append_event}
use got_soup.Store.Setters.{ValidationLimits}
use got_soup.Store.Queries.{reward_balance}
use got_soup.Backtest.{Expected, backtest_validate}
use got_soup.PeerNode.{P2pNode, queue_local_event}
unfoldable pub use Records.*

unfoldable pub wallet_locked : Service → Bool
wallet_locked s = not s.crypto.ready

unfoldable pub ensure_wallet_unlocked : Bytes → Service → Attempt (Unit {0})
unfolding wallet_locked
ensure_wallet_unlocked operation s =
    refuse_if (wallet_locked s)
      (text "Wallet is locked; unlock required before `" ++ (operation ++ text "`."))

unfoldable pub ensure_wallet_ready_for_mutation : Bytes → Service → Attempt (Unit {0})
unfolding ensure_wallet_unlocked
ensure_wallet_ready_for_mutation operation s = do
  ensure_wallet_unlocked operation s
  refuse_if (s.profile.wallet_backup_required || not s.profile.onboarding_complete) (
      text "Wallet backup must be exported and verified before `"
      ++ (operation ++ text "`. Use Wallet/Profile backup tools first."))

unfoldable pub is_local_moderator : Service → Bool
is_local_moderator s =
    if is_empty s.crypto.identity.cid
    then false
    else if contains s.crypto.identity.cid s.store.views.moderation.moderators
    then true
    else contains s.crypto.identity.cid s.community.moderator_cids

unfoldable pub ensure_local_moderator : Bytes → Service → Attempt (Unit {0})
unfolding is_local_moderator
ensure_local_moderator operation s = do
  refuse_if (not s.community.moderation_enabled) (text "Moderation is disabled for this community.")
  refuse_if (not (is_local_moderator s))
      (text "Moderator authority required before `" ++ (operation ++ text "`."))

unfoldable pub should_use_testnet : Bool → AnonymityMode → Bool
should_use_testnet alpha_test_mode i2p = true
should_use_testnet alpha_test_mode tor = alpha_test_mode

abbrev pub on_testnet : Service → Bool
on_testnet s = should_use_testnet s.alpha_test_mode s.active_mode

-- the two fields of `active_genesis_spec` that events name
unfoldable pub active_chain_id : Service → Bytes
unfolding should_use_testnet
active_chain_id s = if on_testnet s then s.config.testnet_chain_id else s.config.mainnet_chain_id

unfoldable pub active_network_id : Service → Bytes
unfolding should_use_testnet
active_network_id s = if on_testnet s then text "testnet" else text "mainnet"

-- static_cast<int>(kind)
unfoldable pub kind_number : EventKind → ℕ
kind_number recipe_created = 0
kind_number thread_created = 1
kind_number reply_created = 2
kind_number review_added = 3
kind_number thumbs_up_added = 4
kind_number block_reward_claimed = 5
kind_number reward_transferred = 6
kind_number profile_updated = 7
kind_number key_rotated = 8
kind_number moderator_added = 9
kind_number moderator_removed = 10
kind_number content_flagged = 11
kind_number content_hidden = 12
kind_number content_unhidden = 13
kind_number core_topic_pinned = 14
kind_number core_topic_unpinned = 15
kind_number policy_updated = 16

unfoldable pub event_time : ℤ → Service → ℤ
event_time now s = max_ℤ now (add64 s.last_local_event_unix_ts (pos 1))

-- the fields that every event has
unfoldable pub common_fields : EventKind → ℤ → Service → List Field
unfolding active_chain_id active_network_id kind_number
common_fields kind time s =
    ((text "author_cid", s.crypto.identity.cid)
      ∷ (text "community_id", s.community.community_id)
      ∷ (text "chain_id", active_chain_id s)
      ∷ (text "network_id", active_network_id s)
      ∷ (text "kind", print_ℕ (kind_number kind))
      ∷ (text "unix_ts", print_ℤ time)
      ∷ [])

-- what an operation announces
pub record Announcement : Type 0 where
  pub kind : EventKind
  pub fields : List Field

unfoldable pub payload_of : ℤ → Announcement → Service → Bytes
unfolding common_fields
payload_of time a s = canonical_join (a.fields ++ common_fields a.kind time s)

unfoldable pub make_event : ℤ → Announcement → Service → EventEnvelope × Service
unfolding event_time
make_event now a s =
    let time = event_time now s in
    (
      record {
        event_id = content_id (payload_of time a s);
        kind = a.kind;
        author_cid = s.crypto.identity.cid;
        unix_ts = time;
        payload = payload_of time a s;
        signature = sign s.crypto (payload_of time a s);
      },
      record s { last_local_event_unix_ts = time },
    )

abbrev pub expected_of : ℤ → Service → Expected
expected_of now s = record {
  content_id = content_id;
  community_id = s.community.community_id;
  chain_id = s.store_chain_id;
  now = now;
}

unfoldable pub run_backtest_validation : Env → Service → Outcome
run_backtest_validation env s = record {
  ok = backtest_validate s.store (expected_of env.now s);
  message = env.backtest_report;
}

unfoldable pub append_locally_and_queue : Env → EventEnvelope → Service → Outcome × Service
unfolding run_backtest_validation
append_locally_and_queue env e s =
    let (appended, store) = append_event env.disk env.now e s.store in
    let s' = record s { store = store } in
    if is_empty e.signature
    then (failure (text "Local event signature is empty. Unlock wallet and retry."), s)
    else if not appended.ok
    then (appended, s')
    else if not (run_backtest_validation env s').ok
    then (run_backtest_validation env s', s')
    else (
      success (text "Event appended and queued for sync."),
      record s' { node = queue_local_event e s'.node },
    )

-- `make_event` and `append_locally_and_queue`, with which most operations end
unfoldable pub publish : Env → Announcement → Service → Outcome × Service
unfolding make_event append_locally_and_queue
publish env a s = let (e, s') = make_event env.now a s in append_locally_and_queue env e s'

-- an operation that looks at the state and then announces an event
unfoldable pub submit : Env → Attempt Announcement → Service → Outcome × Service
submit env (stop r) s = (r, s)
submit env (go a) s = publish env a s

-- the value that a post has at least
unfoldable pub validate_and_apply_post_cost : ℤ → Service → Attempt ℤ
validate_and_apply_post_cost requested s =
    let applied = max_ℤ requested (max_ℤ (pos 0) s.community.minimum_post_value) in
    do
      refuse_if (ltb_ℤ requested (pos 0)) (text "Post value cannot be negative.")
      refuse_if
          (ltb_ℤ (pos 0) applied && ltb_ℤ (reward_balance s.store s.crypto.identity.cid) applied)
          (text "Insufficient reward balance for this post value requirement.")
      go applied
