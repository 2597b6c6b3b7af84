-- ===== src/Service/Configured.antt =====
-- The store as `use_community_profile` sets it up for a community (src/core/service/alpha_service.cpp).
pub mod Ranges
use got_soup.Prelude.{
  ℕ, ◌≤◌, Bytes, false, not, [], ◌==◌, bytes_eq, nat_eq, is_empty, text, if◌then◌else◌, ◌≡◌, refl,
  arith,
}
use got_soup.Prelude.Int.{ℤ, pos, negsuc, leb_ℤ, ◌≤ℤ◌}
use got_soup.Model.{Outcome, success}
use got_soup.Ledger.Sound.{IsModest}
use got_soup.Store.{Store, context_of}
use got_soup.Store.Setters.{
  set_network_id, set_genesis_hashes, set_chain_policy, set_validation_limits,
  set_moderation_policy, set_pruning, set_block_reward_units, set_genesis_psz_timestamp,
}
use got_soup.Service.State.{Env, Service, on_testnet}
use got_soup.Service.Communities.{
  moderation_policy_from_profile, default_reward, write_community_profile_file,
}

-- the setters up to that of the reward
unfoldable pub configured_store : Service → Store
unfolding set_network_id set_genesis_hashes set_chain_policy set_validation_limits
    set_moderation_policy set_pruning set_block_reward_units moderation_policy_from_profile
configured_store s =
    let testnet = on_testnet s in
    let c = s.config in
    let reward = s.community.block_reward_units in
    set_block_reward_units (if leb_ℤ reward (pos 0) then default_reward c else reward) (
      set_pruning c.enable_pruning c.prune_keep_recent_blocks (
        set_moderation_policy (moderation_policy_from_profile s.community) (
          set_validation_limits c.validation_limits (
            set_chain_policy c.chain_policy (
              set_genesis_hashes
                (if testnet then c.testnet_genesis_merkle_root else c.mainnet_genesis_merkle_root)
                (if testnet then c.testnet_genesis_block_hash else c.mainnet_genesis_block_hash)
                (set_network_id (if testnet then text "testnet" else text "mainnet") s.store))))))

-- `genesis_psz`
unfoldable pub network_psz : Service → Bytes
network_psz s =
    if on_testnet s
    then s.config.testnet_genesis_psz_timestamp
    else s.config.mainnet_genesis_psz_timestamp

-- the branches on the timestamp of the genesis block
unfoldable pub adopt_psz : Env → Bytes → Service → Outcome × Service
unfolding write_community_profile_file set_genesis_psz_timestamp
adopt_psz env psz s =
    let s' = record s { store = set_genesis_psz_timestamp psz s.store } in
    let c = record s.community { genesis_psz_timestamp = psz } in
    if s.community.genesis_psz_timestamp == psz
    then (success [], s')
    else (write_community_profile_file env.community_written c, record s' { community = c })

-- from the setters on up to the opening of the store; a failure is returned, and after a success the source goes on
unfoldable pub configure : Env → Service → Outcome × Service
unfolding configured_store network_psz adopt_psz
configure env s =
    let chain_id = if on_testnet s then s.config.testnet_chain_id else s.config.mainnet_chain_id in
    let s' = record s {
      store = configured_store s;
      store_chain_id = if is_empty chain_id then s.store_chain_id else chain_id;
    } in
    if not (is_empty (network_psz s))
    then adopt_psz env (network_psz s) s'
    else if not (is_empty s.config.genesis_psz_timestamp)
    then adopt_psz env s.config.genesis_psz_timestamp s'
    else (success [], s')
