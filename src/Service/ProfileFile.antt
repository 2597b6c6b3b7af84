-- ===== src/Service/ProfileFile.antt =====
-- The file with the state of the profile, and what `init` makes of it (src/core/service/alpha_service.cpp).
pub mod RoundTrip
pub mod Startup
use got_soup.Prelude.{
  Bytes, Bool, true, false, not, List, [], ◌∷◌, ◌++◌, ◌==◌, bytes_eq, text, Option, none, some,
  is_empty, if◌then◌else◌,
}
use got_soup.Prelude.Int.{ℤ, pos, max_ℤ}
use got_soup.Prelude.Dict.{Dict, lookup, get_or}
use got_soup.Prelude.Decimal.{print_ℤ}
use got_soup.Service.State.{Env, Profile}
use got_soup.Service.KeyValues.{
  flag_text, write_key_values, parse_key_values_file, flag_field, number_field,
}
use got_soup.Service.Names.{sanitize_display_name}
use got_soup.Service.Wallet.{refresh_backup_state}

abbrev pub profile_fields : Profile → List (Bytes × Bytes)
profile_fields p =
    ((text "display_name", p.local_display_name)
      ∷ (text "display_name_immortalized", flag_text p.local_display_name_immortalized)
      ∷ (text "duplicate_policy", if p.reject_duplicate_names then text "reject" else text "allow")
      ∷ (text "wallet_destroyed", flag_text p.wallet_destroyed)
      ∷ (text "wallet_recovery_required", flag_text p.wallet_recovery_required)
      ∷ (text "wallet_backup_exists", flag_text p.wallet_backup_exists)
      ∷ (text "wallet_backup_verified", flag_text p.wallet_backup_verified)
      ∷ (text "wallet_backup_required", flag_text p.wallet_backup_required)
      ∷ (text "onboarding_complete", flag_text p.onboarding_complete)
      ∷ (text "last_key_backup_path", p.last_key_backup_path)
      ∷ (text "backup_last_unix", print_ℤ p.backup_last_unix)
      ∷ (text "wallet_last_locked_unix", print_ℤ p.wallet_last_locked_unix)
      ∷ (text "wallet_last_unlocked_unix", print_ℤ p.wallet_last_unlocked_unix)
      ∷ (text "wallet_identity_changed_unix", print_ℤ p.wallet_identity_changed_unix)
      ∷ [])

-- what `save_profile_state` writes
unfoldable pub profile_text : Profile → Bytes
unfolding write_key_values
profile_text p = text "# got-soup profile state" ++ (b'\n' ∷ write_key_values (profile_fields p))

-- the members as they are before the file is read
unfoldable pub fresh_profile : ℤ → Profile
fresh_profile opened = record {
  local_display_name = [];
  local_display_name_immortalized = false;
  reject_duplicate_names = true;
  wallet_destroyed = false;
  wallet_recovery_required = false;
  wallet_backup_exists = false;
  wallet_backup_verified = false;
  wallet_backup_required = true;
  onboarding_complete = false;
  last_key_backup_path = [];
  backup_last_unix = pos 0;
  wallet_last_unlocked_unix = opened;
  wallet_last_locked_unix = pos 0;
  wallet_identity_changed_unix = opened;
}

-- `fields["duplicate_policy"] != "allow"`
unfoldable pub policy_field : Dict Bytes Bytes → Bool → Bool
policy_field fields kept = elim (lookup (text "duplicate_policy") fields) [
  | none ↦ kept
  | some value ↦ not (value == text "allow")
]

-- the fields of the file, put over the members
unfoldable pub profile_of : Dict Bytes Bytes → Profile → Profile
profile_of fields p =
    let unlocked =
      number_field (text "wallet_last_unlocked_unix") fields p.wallet_last_unlocked_unix (pos 0) in
    record {
      local_display_name = elim (lookup (text "display_name") fields) [
        | none ↦ p.local_display_name
        | some name ↦ sanitize_display_name name
      ];
      local_display_name_immortalized =
          flag_field (text "display_name_immortalized") fields p.local_display_name_immortalized;
      reject_duplicate_names = policy_field fields p.reject_duplicate_names;
      wallet_destroyed = flag_field (text "wallet_destroyed") fields p.wallet_destroyed;
      wallet_recovery_required =
          flag_field (text "wallet_recovery_required") fields p.wallet_recovery_required;
      wallet_backup_exists = flag_field (text "wallet_backup_exists") fields p.wallet_backup_exists;
      wallet_backup_verified =
          flag_field (text "wallet_backup_verified") fields p.wallet_backup_verified;
      wallet_backup_required =
          flag_field (text "wallet_backup_required") fields p.wallet_backup_required;
      onboarding_complete = flag_field (text "onboarding_complete") fields p.onboarding_complete;
      last_key_backup_path = get_or (text "last_key_backup_path") fields p.last_key_backup_path;
      backup_last_unix = number_field (text "backup_last_unix") fields p.backup_last_unix (pos 0);
      wallet_last_locked_unix =
          number_field (text "wallet_last_locked_unix") fields p.wallet_last_locked_unix (pos 0);
      wallet_last_unlocked_unix = unlocked;
      wallet_identity_changed_unix =
          number_field (text "wallet_identity_changed_unix") fields p.wallet_identity_changed_unix
            unlocked;
    }

-- of the file, which may be missing, and `crypto_.last_unlocked_unix()`
unfoldable pub load_profile_state : Env → Option Bytes → ℤ → Profile
unfolding fresh_profile profile_of
load_profile_state env none opened = fresh_profile opened
load_profile_state env (some file) opened =
    refresh_backup_state env (profile_of (parse_key_values_file file) (fresh_profile opened))

-- `init`, from the loading of the state to `refresh_backup_state`, of the times of the engine
unfoldable pub startup_profile : Env → Option Bytes → ℤ → ℤ → Profile
startup_profile env file opened locked =
    let p = load_profile_state env file opened in
    refresh_backup_state env (record p {
      wallet_destroyed = false;
      wallet_recovery_required = false;
      wallet_last_unlocked_unix = opened;
      wallet_last_locked_unix = locked;
      wallet_identity_changed_unix = max_ℤ p.wallet_identity_changed_unix opened;
    })
