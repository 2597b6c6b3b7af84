-- ===== src/Tests/ServiceData.antt =====
-- A service for the examples.
use got_soup.Prelude.{true, false, [], ◌∷◌, text, nat_eq, bytes_eq}
use got_soup.Prelude.Int.{pos}
use got_soup.Model.{success}
use got_soup.Canonical.{}
use got_soup.Crypto.{Identity, CryptoEngine}
use got_soup.PeerNode.{new_node}
use got_soup.Ledger.{}
use got_soup.Store.Queries.{}
use got_soup.Service.Names.{}
use got_soup.Service.Transfers.{}
use got_soup.Service.Claims.{}
use got_soup.Service.{Service, Profile, Env, tor}
use got_soup.Service.Wallet.{}
use got_soup.Service.Wallet.Ready.{}
use got_soup.Tests.Data.{alice}
use got_soup.Tests.Stores.{all_written, store}

abbrev pub identity_of_alice : Identity
identity_of_alice = record { public_key = text "pk"; private_key = text "sk"; cid = alice }

abbrev pub engine : CryptoEngine
engine = record {
  app_data_dir = text "/data";
  ready = true;
  identity = identity_of_alice;
  last_unlocked_unix = pos 50;
  last_locked_unix = pos 0;
}

abbrev pub profile : Profile
profile = record {
  local_display_name = [];
  local_display_name_immortalized = false;
  reject_duplicate_names = true;
  wallet_destroyed = false;
  wallet_recovery_required = false;
  wallet_backup_exists = true;
  wallet_backup_verified = true;
  wallet_backup_required = false;
  onboarding_complete = true;
  last_key_backup_path = text "b.dat";
  backup_last_unix = pos 60;
  wallet_last_unlocked_unix = pos 50;
  wallet_last_locked_unix = pos 0;
  wallet_identity_changed_unix = pos 50;
}

abbrev pub service : Service
service = record {
  config = record {
    app_data_dir = text "/data";
    passphrase = text "local";
    mainnet_chain_id = text "main";
    testnet_chain_id = text "test";
    p2p_mainnet_port = 4001;
    p2p_testnet_port = 14001;
    seed_peers = [];
    seed_peers_mainnet = [];
    seed_peers_testnet = [];
    block_reward_units = pos 115;
    minimum_post_value = pos 0;
    genesis_psz_timestamp = [];
    mainnet_genesis_psz_timestamp = text "psz";
    testnet_genesis_psz_timestamp = text "test psz";
    mainnet_genesis_merkle_root = text "m1";
    testnet_genesis_merkle_root = text "m2";
    mainnet_genesis_block_hash = text "h1";
    testnet_genesis_block_hash = text "h2";
    chain_policy = record {
      confirmation_threshold = 0;
      checkpoint_interval_blocks = 288;
      checkpoint_confirmations = 24;
    };
    validation_limits = record {
      max_block_events = 0;
      max_block_bytes = 1048576;
      max_event_bytes = 65536;
      max_future_drift_seconds = pos 120;
      max_past_drift_seconds = pos 604800;
    };
    enable_pruning = false;
    prune_keep_recent_blocks = 0;
    default_moderation_policy = record {
      moderation_enabled = true;
      require_finality_for_actions = true;
      min_confirmations_for_enforcement = 6;
      max_flags_before_auto_hide = 3;
      moderator_cids = [];
    };
    default_moderators = [];
  };
  alpha_test_mode = false;
  active_mode = tor;
  tor_enabled = true;
  i2p_enabled = false;
  profile = profile;
  community = record {
    community_id = text "soup";
    display_name = text "Soup";
    description = text "All soups";
    profile_path = text "/data/communities/soup.dat";
    cipher_key = [];
    peers_dat_path = text "/data/peers-soup.dat";
    store_path = text "/data/db-soup";
    minimum_post_value = pos 0;
    block_reward_units = pos 115;
    genesis_psz_timestamp = text "psz";
    moderation_enabled = true;
    moderation_require_finality = true;
    moderation_min_confirmations = 6;
    moderation_auto_hide_flags = 3;
    moderator_cids = [];
  };
  crypto = engine;
  store = store;
  store_chain_id = text "main";
  node = record new_node { running = true };
  last_local_event_unix_ts = pos 90;
  validation_interval_ticks = 10;
  ticks_since_last_validation = 0;
}

abbrev pub env : Env
env = record {
  now = pos 100;
  disk = all_written;
  profile_saved = success [];
  crypto_written = success [];
  community_written = success [];
  vault_file = [];
  backup_file = [];
  random = 1 ∷ 2 ∷ [];
  proxy_endpoint = λ m. record { host = text "127.0.0.1"; port = 9050 };
  backtest_report = [];
  exists = λ p. true;
  is_absolute = λ p. true;
  joined = λ a b. b;
  stem = λ a. a;
}
