-- ===== src/Store/Setters.antt =====
-- The setters of the store with their defaults (src/core/storage/store.cpp).
use got_soup.Prelude.{
  ℕ, Bytes, Bool, List, [], ◌∷◌, ◌++◌, ◌==◌, nat_eq, is_empty, contains, bytes_eq, lt_bytes, max,
  if◌then◌else◌,
}
use got_soup.Prelude.Int.{ℤ, pos, leb_ℤ, max_ℤ}
use got_soup.Prelude.Sort.{sort}
use got_soup.Canonical.{trim_copy}
use got_soup.Moderation.{ModerationPolicy}
use got_soup.Store.{Store, ChainPolicy}

-- `value == 0 ? fallback : value`
abbrev pub or_default_count : ℕ → ℕ → ℕ
or_default_count value fallback = if value == 0 then fallback else value

unfoldable pub set_block_timing : ℕ → Store → Store
set_block_timing seconds s = record s {
  timeline = record s.timeline { block_interval_seconds = or_default_count seconds 150 };
}

unfoldable pub set_genesis_psz_timestamp : Bytes → Store → Store
set_genesis_psz_timestamp psz s = record s {
  timeline = record s.timeline { genesis_psz_timestamp = psz };
}

-- the decay of the reward stays in the parameter `decayed`
unfoldable pub set_block_reward_units : ℤ → Store → Store
set_block_reward_units units s = record s {
  economy = record s.economy {
    block_reward_units = if leb_ℤ units (pos 0) then pos 115 else units;
    max_token_supply_units = pos 69359946;
    min_subsidy_units = pos 1;
  };
}

-- the network's id; the chain's id is kept by the service
unfoldable pub set_network_id : Bytes → Store → Store
set_network_id network_id s =
    if is_empty network_id
    then s
    else record s { settings = record s.settings { network_id = network_id } }

unfoldable pub set_genesis_hashes : Bytes → Bytes → Store → Store
set_genesis_hashes merkle_root block_hash s = record s {
  settings = record s.settings {
    hardcoded_genesis_merkle_root = merkle_root;
    hardcoded_genesis_block_hash = block_hash;
  };
}

unfoldable pub set_chain_policy : ChainPolicy → Store → Store
set_chain_policy p s = record s {
  chain_policy = record {
    confirmation_threshold = or_default_count p.confirmation_threshold 1;
    checkpoint_interval_blocks = or_default_count p.checkpoint_interval_blocks 288;
    checkpoint_confirmations = or_default_count p.checkpoint_confirmations 24;
  };
}

pub record ValidationLimits : Type 0 where
  pub max_block_events : ℕ
  pub max_block_bytes : ℕ
  pub max_event_bytes : ℕ
  pub max_future_drift_seconds : ℤ
  pub max_past_drift_seconds : ℤ

unfoldable pub set_validation_limits : ValidationLimits → Store → Store
set_validation_limits l s = record s {
  settings = record s.settings {
    max_block_events = max 1 l.max_block_events;
    max_block_bytes = max 1024 l.max_block_bytes;
  };
  limits = record {
    max_event_bytes = max 256 l.max_event_bytes;
    max_future_drift_seconds = max_ℤ (pos 0) l.max_future_drift_seconds;
    max_past_drift_seconds = max_ℤ (pos 0) l.max_past_drift_seconds;
  };
}

-- the loop over the moderators, with those that it has kept
unfoldable pub sanitized_from : List Bytes → List Bytes → List Bytes
sanitized_from kept [] = kept
sanitized_from kept (cid ∷ cids) =
    let trimmed = trim_copy cid in
    sanitized_from
      (if is_empty trimmed
        then kept
        else if contains trimmed kept
        then kept
        else kept ++ trimmed ∷ [])
      cids

unfoldable pub set_moderation_policy : ModerationPolicy → Store → Store
unfolding sanitized_from
set_moderation_policy p s = record s {
  views = record s.views {
    moderation = record s.views.moderation {
      policy = record {
        moderation_enabled = p.moderation_enabled;
        require_finality_for_actions = p.require_finality_for_actions;
        min_confirmations_for_enforcement = max 1 p.min_confirmations_for_enforcement;
        max_flags_before_auto_hide = max 1 p.max_flags_before_auto_hide;
        moderator_cids = sort lt_bytes (sanitized_from [] p.moderator_cids);
      };
    };
  };
}

-- `set_state_options`, what the store computes with
unfoldable pub set_pruning : Bool → ℕ → Store → Store
set_pruning enable keep_recent s = record s {
  enable_pruning = enable;
  prune_keep_recent_blocks = or_default_count keep_recent 4096;
}
