-- ===== src/Service/State/Records.antt =====
-- The state of the service and what surrounds one call of it (src/core/service/alpha_service.hpp,
-- src/core/model/types.hpp).
use got_soup.Prelude.{ℕ, Bytes, Bool, true, false, List, bytes_eq}
use got_soup.Prelude.Int.{ℤ}
use got_soup.Model.{Outcome, failure}
use got_soup.Crypto.{CryptoEngine}
use got_soup.Moderation.{ModerationPolicy}
use got_soup.Store.{Store, Disk, ChainPolicy}
use got_soup.Store.Setters.{ValidationLimits}
use got_soup.PeerNode.{P2pNode}

-- the members on the name and on the state of the wallet
pub record Profile : Type 0 where
  pub local_display_name : Bytes
  pub local_display_name_immortalized : Bool
  pub reject_duplicate_names : Bool
  pub wallet_destroyed : Bool
  pub wallet_recovery_required : Bool
  pub wallet_backup_exists : Bool
  pub wallet_backup_verified : Bool
  pub wallet_backup_required : Bool
  pub onboarding_complete : Bool
  pub last_key_backup_path : Bytes
  pub backup_last_unix : ℤ
  pub wallet_last_unlocked_unix : ℤ
  pub wallet_last_locked_unix : ℤ
  pub wallet_identity_changed_unix : ℤ

-- alpha::CommunityProfile
pub record Community : Type 0 where
  pub community_id : Bytes
  pub display_name : Bytes
  pub description : Bytes
  pub profile_path : Bytes
  pub cipher_key : Bytes
  pub peers_dat_path : Bytes
  pub store_path : Bytes
  pub minimum_post_value : ℤ
  pub block_reward_units : ℤ
  pub genesis_psz_timestamp : Bytes
  pub moderation_enabled : Bool
  pub moderation_require_finality : Bool
  pub moderation_min_confirmations : ℕ
  pub moderation_auto_hide_flags : ℕ
  pub moderator_cids : List Bytes

pub data AnonymityMode : Type 0 where
  tor i2p : AnonymityMode

-- alpha::InitConfig, the fields that the operations compute with
pub record Config : Type 0 where
  pub app_data_dir : Bytes
  pub passphrase : Bytes
  pub mainnet_chain_id : Bytes
  pub testnet_chain_id : Bytes
  pub p2p_mainnet_port : ℕ
  pub p2p_testnet_port : ℕ
  pub seed_peers : List Bytes
  pub seed_peers_mainnet : List Bytes
  pub seed_peers_testnet : List Bytes
  pub block_reward_units : ℤ
  pub minimum_post_value : ℤ
  pub genesis_psz_timestamp : Bytes
  pub mainnet_genesis_psz_timestamp : Bytes
  pub testnet_genesis_psz_timestamp : Bytes
  pub mainnet_genesis_merkle_root : Bytes
  pub testnet_genesis_merkle_root : Bytes
  pub mainnet_genesis_block_hash : Bytes
  pub testnet_genesis_block_hash : Bytes
  pub chain_policy : ChainPolicy
  pub validation_limits : ValidationLimits
  pub enable_pruning : Bool
  pub prune_keep_recent_blocks : ℕ
  pub default_moderation_policy : ModerationPolicy
  pub default_moderators : List Bytes

pub record Service : Type 0 where
  pub config : Config
  pub alpha_test_mode : Bool
  pub active_mode : AnonymityMode
  pub tor_enabled : Bool
  pub i2p_enabled : Bool
  pub profile : Profile
  pub community : Community
  pub crypto : CryptoEngine
  pub store : Store
  -- `chain_id_` of the store
  pub store_chain_id : Bytes
  pub node : P2pNode
  pub last_local_event_unix_ts : ℤ
  pub validation_interval_ticks : ℕ
  pub ticks_since_last_validation : ℕ

-- ProxyEndpoint
pub record Endpoint : Type 0 where
  pub host : Bytes
  pub port : ℕ

-- What one call finds outside of the service: the clock, how writes end, files, random bytes, the proxies, the text
-- of the backtest's report, and four functions of std::filesystem.
pub record Env : Type 0 where
  pub now : ℤ
  pub disk : Disk
  pub profile_saved : Outcome
  pub crypto_written : Outcome
  pub community_written : Outcome
  pub vault_file : Bytes
  pub backup_file : Bytes
  pub random : Bytes
  pub proxy_endpoint : AnonymityMode → Endpoint
  pub backtest_report : Bytes
  pub exists : Bytes → Bool
  pub is_absolute : Bytes → Bool
  pub joined : Bytes → Bytes → Bytes
  pub stem : Bytes → Bytes

-- The value of a step, or the result with which the operation returns early.
pub data Attempt (A : Type 0) : Type 0 where
  go : A → Attempt A
  stop : Outcome → Attempt A

infixl 5 ◌>>=◌ ◌>>◌
abbrev pub ◌>>=◌ : {A B : Type 0} → Attempt A → (A → Attempt B) → Attempt B
go a >>= f = f a
stop r >>= f = stop r

abbrev pub ◌>>◌ : {B : Type 0} → Attempt (Unit {0}) → Attempt B → Attempt B
m >> k = m >>= λ _. k

-- `if (test) { return Result::failure(message); }`
abbrev pub refuse_if : Bool → Bytes → Attempt (Unit {0})
refuse_if true why = stop (failure why)
refuse_if false why = go tt
