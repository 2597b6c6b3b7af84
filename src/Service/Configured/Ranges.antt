-- ===== src/Service/Configured/Ranges.antt =====
-- The settings of a store that was set up (src/core/service/alpha_service.cpp, src/core/storage/store.cpp).
use got_soup.Prelude.{
  ℕ, ◌≤◌, Bytes, false, ◌==◌, bytes_eq, nat_eq, is_empty, if◌then◌else◌, ◌≡◌, refl, arith,
}
use got_soup.Prelude.Int.{ℤ, pos, negsuc, leb_ℤ, ◌≤ℤ◌}
use got_soup.Ledger.Sound.{IsModest}
use got_soup.Store.{Store, context_of}
use got_soup.Store.Setters.{
  set_network_id, set_chain_policy, set_validation_limits, set_moderation_policy, set_pruning,
  set_block_reward_units, set_genesis_psz_timestamp,
}
use got_soup.Service.State.{Env, Service}
use got_soup.Service.Configured.{configured_store, network_psz, adopt_psz, configure}
use got_soup.Service.Communities.{default_reward}

-- Settings in the ranges that the other theorems ask for.
pub record IsInRange (t : Store) : Type 0 where
  pub threshold : 1 ≤ t.chain_policy.confirmation_threshold
  pub modest : IsModest (context_of t)
  pub rewarded : pos 1 ≤ℤ t.economy.block_reward_units
  pub block_events : 1 ≤ t.settings.max_block_events
  pub block_bytes : 1024 ≤ t.settings.max_block_bytes
  pub event_bytes : 256 ≤ t.limits.max_event_bytes
  pub enforced : 1 ≤ t.views.moderation.policy.min_confirmations_for_enforcement
  pub flagged : 1 ≤ t.views.moderation.policy.max_flags_before_auto_hide

-- A service after the set-up.
pub record IsConfigured (s t : Service) : Type 0 where
  pub in_range : IsInRange t.store
  pub kept : t.store.timeline.events ≡ s.store.timeline.events
  pub psz_stored : t.store.timeline.genesis_psz_timestamp ≡ network_psz s
  pub psz_agreed : t.community.genesis_psz_timestamp ≡ network_psz s

reward_least : (units : ℤ) → pos 1 ≤ℤ (if leb_ℤ units (pos 0) then pos 115 else units)
reward_least (pos n) = ground arith
reward_least (negsuc n) = ground arith

threshold_least : (n : ℕ) → 1 ≤ (if n == 0 then 1 else n)
threshold_least n = ground arith

configured_store-IsInRange :
    (psz : Bytes) (s : Service) → IsInRange (set_genesis_psz_timestamp psz (configured_store s))
unfolding configured_store set_genesis_psz_timestamp context_of set_chain_policy
    set_validation_limits set_moderation_policy set_pruning set_block_reward_units
configured_store-IsInRange psz s = record {
  threshold = threshold_least s.config.chain_policy.confirmation_threshold;
  modest = (omega arith, omega arith);
  rewarded = reward_least (
      if leb_ℤ s.community.block_reward_units (pos 0)
      then default_reward s.config
      else s.community.block_reward_units);
  block_events = omega arith;
  block_bytes = omega arith;
  event_bytes = omega arith;
  enforced = omega arith;
  flagged = omega arith;
}

configured_store-events :
    (psz : Bytes) (s : Service)
    → (set_genesis_psz_timestamp psz (configured_store s)).timeline.events ≡ s.store.timeline.events
unfolding configured_store set_genesis_psz_timestamp set_network_id
configured_store-events psz s = ground arith

stored_psz :
    (psz : Bytes) (t : Store)
    → (set_genesis_psz_timestamp psz t).timeline.genesis_psz_timestamp ≡ psz
unfolding set_genesis_psz_timestamp
stored_psz psz t = refl

configure-community :
    (env : Env) (s : Service)
    → is_empty (network_psz s) ≡ false
    → (configure env s).1.community.genesis_psz_timestamp ≡ network_psz s
unfolding configure adopt_psz
configure-community env s named =
    rw (configure, named)
      (ground (arith, bytes_eq.equals_iff s.community.genesis_psz_timestamp (network_psz s)))

configured_store-psz :
    (env : Env) (s : Service)
    → is_empty (network_psz s) ≡ false
    → (configure env s).1.store ≡ set_genesis_psz_timestamp (network_psz s) (configured_store s)
unfolding configure adopt_psz
configured_store-psz env s named = rw (configure, named) (ground arith)

-- Whatever the configuration and the community say, where the network has a timestamp for its
-- genesis block: the store is set up with a confirmation threshold, a supply, a reward, limits and
-- a policy in the ranges that the code relies on, it keeps its events, and the store and the
-- community have the network's timestamp.
pub configure-IsConfigured :
    (env : Env) (s : Service)
    → is_empty (network_psz s) ≡ false
    → IsConfigured s (configure env s).1
configure-IsConfigured env s named = record {
  in_range = rw (configured_store-psz env s named) (configured_store-IsInRange (network_psz s) s);
  kept = rw (configured_store-psz env s named) (configured_store-events (network_psz s) s);
  psz_stored =
      rw (configured_store-psz env s named) (stored_psz (network_psz s) (configured_store s));
  psz_agreed = configure-community env s named;
}
