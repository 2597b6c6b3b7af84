-- ===== src/Service/Communities.antt =====
-- The profiles of communities and their files (src/core/service/alpha_service.cpp).
pub mod RoundTrip
pub mod Created
use got_soup.Prelude.{
  ℕ, ◌^◌, Bytes, Bool, true, false, ◌||◌, ◌&&◌, not, List, [], ◌∷◌, ◌++◌, ◌==◌, bytes_eq, text,
  Option, none, some, is_empty, if◌then◌else◌, map, keep_if, contains, lt_bytes, max,
}
use got_soup.Prelude.Int.{ℤ, pos, pos_part, leb_ℤ, max_ℤ, wrap64}
use got_soup.Prelude.Dict.{Dict, lookup, has, get_or}
use got_soup.Prelude.Decimal.{print_ℤ, print_ℕ}
use got_soup.Prelude.Sort.{sort}
use got_soup.Model.{Outcome, success, failure}
use got_soup.Canonical.{trim_copy, finds}
use got_soup.Codec.{split_at}
use got_soup.Crypto.{derive_vault_key}
use got_soup.Moderation.{ModerationPolicy}
use got_soup.Service.State.{Env, Community, Config, Service, on_testnet}
use got_soup.Service.KeyValues.{
  flag_text, write_key_values, parse_key_values_file, parse_int64_default,
}
use got_soup.Service.Names.{sanitize_community_id}
use got_soup.Service.Wallet.{resolve_data_path}
use got_soup.Service.Csv.{split_csv, join_csv}

unfoldable pub community_fields : Community → List (Bytes × Bytes)
unfolding join_csv
community_fields c =
    ((text "community_id", c.community_id)
      ∷ (text "display_name", c.display_name)
      ∷ (text "description", c.description)
      ∷ (text "cipher_key", c.cipher_key)
      ∷ (text "peers_dat_path", c.peers_dat_path)
      ∷ (text "store_path", c.store_path)
      ∷ (text "minimum_post_value", print_ℤ c.minimum_post_value)
      ∷ (text "block_reward_units", print_ℤ c.block_reward_units)
      ∷ (text "moderation_enabled", flag_text c.moderation_enabled)
      ∷ (text "moderation_require_finality", flag_text c.moderation_require_finality)
      ∷ (text "moderation_min_confirmations", print_ℕ c.moderation_min_confirmations)
      ∷ (text "moderation_auto_hide_flags", print_ℕ c.moderation_auto_hide_flags)
      ∷ (text "moderators", join_csv c.moderator_cids)
      ∷ (text "genesis_psz_timestamp", c.genesis_psz_timestamp)
      ∷ [])

-- what `write_community_profile_file` writes
unfoldable pub community_text : Community → Bytes
unfolding write_key_values community_fields
community_text c =
    text "# got-soup community profile" ++ (b'\n' ∷ write_key_values (community_fields c))

-- `written` is how the writing ends
unfoldable pub write_community_profile_file : Outcome → Community → Outcome
write_community_profile_file written c =
    if is_empty c.profile_path
    then failure (text "Community profile write failed: empty profile path.")
    else written

-- `config_.default_moderators` or else those of the policy
unfoldable pub default_moderators_of : Config → List Bytes
default_moderators_of c = elim c.default_moderators [
  | [] ↦ c.default_moderation_policy.moderator_cids
  | m ∷ ms ↦ m ∷ ms
]

unfoldable pub default_psz : Service → Bytes
default_psz s =
    if not (is_empty s.config.genesis_psz_timestamp)
    then s.config.genesis_psz_timestamp
    else if on_testnet s
    then s.config.testnet_genesis_psz_timestamp
    else s.config.mainnet_genesis_psz_timestamp

abbrev pub default_reward : Config → ℤ
default_reward c = if leb_ℤ c.block_reward_units (pos 0) then pos 115 else c.block_reward_units

-- a number of at least 1 that is written where the file has it, in int64 as the source reads it
unfoldable pub count_field : Bytes → Dict Bytes Bytes → ℕ → ℕ
count_field key fields fallback = elim (lookup key fields) [
  | none ↦ max 1 fallback
  | some value ↦ pos_part (max_ℤ (pos 1) (parse_int64_default value (wrap64 (pos fallback))))
]

-- `max(lowest, parse_int64_default(value, fallback))`, or the default where the field is missing
unfoldable pub amount_field : Bytes → Dict Bytes Bytes → ℤ → ℤ → ℤ → ℤ
amount_field key fields lowest fallback missing = elim (lookup key fields) [
  | none ↦ max_ℤ lowest missing
  | some value ↦ max_ℤ lowest (parse_int64_default value fallback)
]

-- `!fields.contains(key) || fields[key] != "0"`
unfoldable pub on_unless_zero : Bytes → Dict Bytes Bytes → Bool
on_unless_zero key fields = elim (lookup key fields) [
  | none ↦ true
  | some value ↦ not (value == text "0")
]

abbrev pub or_else_local : Bytes → List Bytes → List Bytes
or_else_local cid [] = cid ∷ []
or_else_local cid (m ∷ ms) = m ∷ ms

unfoldable pub listed_moderators : Dict Bytes Bytes → Config → List Bytes
unfolding split_csv
listed_moderators fields c = elim (lookup (text "moderators") fields) [
  | none ↦ default_moderators_of c
  | some value ↦ split_csv value
]

unfoldable pub moderators_of : Dict Bytes Bytes → Service → List Bytes
unfolding split_csv join_csv listed_moderators
moderators_of fields s =
    split_csv (join_csv (or_else_local s.crypto.identity.cid (listed_moderators fields s.config)))

-- a path of the file, made absolute, or the default in the data directory
unfoldable pub path_field : Env → Bytes → Dict Bytes Bytes → Bytes → Service → Bytes
path_field env key fields name s = elim (lookup key fields) [
  | none ↦ env.joined s.config.app_data_dir name
  | some value ↦ resolve_data_path env value name s
]

unfoldable pub community_of : Env → Bytes → Dict Bytes Bytes → Service → Community
unfolding moderators_of
community_of env path fields s =
    let id = sanitize_community_id (get_or (text "community_id") fields []) in
    let policy = s.config.default_moderation_policy in
    record {
      community_id = id;
      display_name = get_or (text "display_name") fields id;
      description = get_or (text "description") fields [];
      profile_path = path;
      cipher_key =
          get_or (text "cipher_key") fields
            (derive_vault_key s.config.passphrase (text "community:" ++ id));
      peers_dat_path =
          path_field env (text "peers_dat_path") fields (text "peers-" ++ (id ++ text ".dat")) s;
      store_path = path_field env (text "store_path") fields (text "db-" ++ id) s;
      minimum_post_value =
          amount_field (text "minimum_post_value") fields (pos 0) (pos 0)
            s.config.minimum_post_value;
      block_reward_units =
          amount_field (text "block_reward_units") fields (pos 1) (pos 50)
            (default_reward s.config);
      genesis_psz_timestamp = get_or (text "genesis_psz_timestamp") fields (default_psz s);
      moderation_enabled = on_unless_zero (text "moderation_enabled") fields;
      moderation_require_finality = on_unless_zero (text "moderation_require_finality") fields;
      moderation_min_confirmations =
          count_field (text "moderation_min_confirmations") fields
            policy.min_confirmations_for_enforcement;
      moderation_auto_hide_flags =
          count_field (text "moderation_auto_hide_flags") fields policy.max_flags_before_auto_hide;
      moderator_cids = moderators_of fields s;
    }

-- of the contents of the file at the path
unfoldable pub parse_community_profile_file : Env → Bytes → Bytes → Service → Option Community
unfolding community_of
parse_community_profile_file env path file s =
    let fields = parse_key_values_file file in
    let c = community_of env path fields s in
    if not (has (text "community_id") fields) || is_empty c.community_id then none else some c

-- `value.ends_with(".dat")`
abbrev pub ends_with_dat : Bytes → Bool
ends_with_dat [] = false
ends_with_dat (c ∷ cs) = c ∷ cs == text ".dat" || ends_with_dat cs

unfoldable pub looks_like_path : Bytes → Bool
looks_like_path value = finds (text "/") value || (finds (b'\\' ∷ []) value || ends_with_dat value)

-- the id that the selector proposes
unfoldable pub proposed_id : Env → Bytes → Service → Bytes
unfolding looks_like_path sanitize_community_id
proposed_id env selector s =
    let id =
      if is_empty selector
      then text "recipes"
      else if looks_like_path selector
      then sanitize_community_id (env.stem (resolve_data_path env selector selector s))
      else sanitize_community_id selector in
    if is_empty id then text "community" else id

-- the path of the file, with `communities_dir_` as `init` sets it
unfoldable pub community_path : Env → Bytes → Service → Bytes
unfolding proposed_id looks_like_path
community_path env selector s =
    if not (is_empty selector)
      && looks_like_path selector
      && not (is_empty (resolve_data_path env selector selector s))
    then resolve_data_path env selector selector s
    else env.joined (env.joined s.config.app_data_dir (text "communities"))
        (proposed_id env selector s ++ text ".dat")

-- the profile of a community that has no file yet
unfoldable pub created_community : Env → Bytes → Bytes → Bytes → Bytes → Service → Community
unfolding split_csv join_csv
created_community env id path display_name description s =
    let policy = s.config.default_moderation_policy in
    record {
      community_id = id;
      display_name = if is_empty display_name then text "Community " ++ id else display_name;
      description =
          if is_empty description then text "Modular got-soup community profile." else description;
      profile_path = path;
      cipher_key = derive_vault_key s.config.passphrase (text "community:" ++ id);
      peers_dat_path = env.joined s.config.app_data_dir (text "peers-" ++ (id ++ text ".dat"));
      store_path = env.joined s.config.app_data_dir (text "db-" ++ id);
      minimum_post_value = max_ℤ (pos 0) s.config.minimum_post_value;
      block_reward_units = default_reward s.config;
      genesis_psz_timestamp = default_psz s;
      moderation_enabled = policy.moderation_enabled;
      moderation_require_finality = policy.require_finality_for_actions;
      moderation_min_confirmations = max 1 policy.min_confirmations_for_enforcement;
      moderation_auto_hide_flags = max 1 policy.max_flags_before_auto_hide;
      moderator_cids =
          split_csv (join_csv (default_moderators_of s.config ++ s.crypto.identity.cid ∷ []));
    }

abbrev pub took_over : Bytes → Option Community → Service → Outcome × Service
took_over path none s =
    (failure (text "Community profile exists but could not be parsed: " ++ path), s)
took_over path (some c) s =
    (success (text "Loaded community profile: " ++ c.community_id), record s { community = c })

-- `file` is the file at the path, if there is one
unfoldable pub load_or_create_community_profile :
    Env → Option Bytes → Bytes → Bytes → Bytes → Service → Outcome × Service
unfolding parse_community_profile_file created_community write_community_profile_file proposed_id
    community_path
load_or_create_community_profile env (some file) selector display_name description s =
    let path = community_path env selector s in
    took_over path (parse_community_profile_file env path file s) s
load_or_create_community_profile env none selector display_name description s =
    let path = community_path env selector s in
    let created =
      created_community env (proposed_id env selector s) path display_name description s in
    let written = write_community_profile_file env.community_written created in
    if not written.ok then (written, s) else (
      success (text "Created community profile: " ++ created.community_id),
      record s { community = created },
    )

unfoldable pub moderation_policy_from_profile : Community → ModerationPolicy
moderation_policy_from_profile c = record {
  moderation_enabled = c.moderation_enabled;
  require_finality_for_actions = c.moderation_require_finality;
  min_confirmations_for_enforcement = c.moderation_min_confirmations;
  max_flags_before_auto_hide = c.moderation_auto_hide_flags;
  moderator_cids = c.moderator_cids;
}
