-- ===== src/Service/Wallet.antt =====
-- The wallet: backups, locking, recovery and the destruction of the key (src/core/service/alpha_service.cpp).
pub mod Ready
use got_soup.Prelude.{
  Bytes, Bool, true, false, ◌&&◌, ◌||◌, not, List, [], ◌∷◌, ◌==◌, bytes_eq, is_empty, if◌then◌else◌,
  text,
}
use got_soup.Prelude.Int.{ℤ, pos, ltb_ℤ, leb_ℤ}
use got_soup.Model.{Outcome, success, failure, key_rotated}
use got_soup.Canonical.{trim_copy}
use got_soup.Crypto.{
  export_identity_backup, verify_identity_backup, import_identity_backup, lock_identity,
  unlock_identity, nuke_identity,
}
use got_soup.Service.State.{
  Service, Profile, Env, Attempt, go, stop, ensure_wallet_unlocked, Announcement, publish,
}
use got_soup.Service.Network.{restart_network}

unfoldable pub refresh_backup_state : Env → Profile → Profile
refresh_backup_state env p =
    let there = not (is_empty p.last_key_backup_path) && env.exists p.last_key_backup_path in
    let verified = there && p.wallet_backup_verified in
    let required =
      not verified
      || (leb_ℤ p.backup_last_unix (pos 0)
          || ltb_ℤ p.backup_last_unix p.wallet_identity_changed_unix) in
    record p {
      wallet_backup_exists = there;
      wallet_backup_verified = verified;
      wallet_backup_required = required;
      onboarding_complete = there && (verified && not required);
    }

unfoldable pub resolve_data_path : Env → Bytes → Bytes → Service → Bytes
resolve_data_path env input_path fallback_name s =
    let path = if is_empty (trim_copy input_path) then fallback_name else trim_copy input_path in
    if is_empty path
    then s.config.app_data_dir
    else if env.is_absolute path
    then path
    else env.joined s.config.app_data_dir path

abbrev pub backup_path : Env → Bytes → Service → Bytes
backup_path env path s = resolve_data_path env path (text "backup/identity-backup.dat") s

-- `refresh_backup_state` after other changes of the profile; the result of save_profile_state is not looked at
abbrev pub with_profile : Env → Profile → Service → Service
with_profile env p s = record s { profile = refresh_backup_state env p }

unfoldable pub export_key_backup : Env → Bytes → Bytes → Bytes → Service → Outcome × Service
export_key_backup env path password salt s =
    let resolved = backup_path env path s in
    let exported = export_identity_backup env.crypto_written resolved password salt s.crypto in
    let done =
      with_profile env
        (record s.profile {
          last_key_backup_path = resolved;
          backup_last_unix = env.now;
          wallet_backup_exists = true;
          wallet_backup_verified = false;
        })
        s in
    elim (ensure_wallet_unlocked (text "export_key_backup") s) [
      | stop r ↦ (r, s)
      | go _ ↦ (exported, if exported.ok then done else s)
    ]

unfoldable pub verify_backup_preflight : Env → Bytes → Bytes → Service → Outcome
verify_backup_preflight env path password s =
    let resolved = backup_path env path s in
    if not (env.exists resolved)
    then failure (text "Backup preflight failed: backup file does not exist.")
    else verify_identity_backup env.backup_file resolved password

unfoldable pub verify_key_backup : Env → Bytes → Bytes → Service → Outcome × Service
verify_key_backup env path password s =
    let resolved =
      backup_path env (if is_empty path then s.profile.last_key_backup_path else path) s in
    let verified = verify_backup_preflight env resolved password s in
    if not verified.ok then (verified, s) else (
      success (text "Key backup verified."),
      with_profile env
          (record s.profile {
            last_key_backup_path = resolved;
            wallet_backup_exists = true;
            wallet_backup_verified = true;
            backup_last_unix =
                if leb_ℤ s.profile.backup_last_unix (pos 0)
                then env.now
                else s.profile.backup_last_unix;
          })
          s,
    )

-- save_profile_state, restart_network and the KeyRotated event, each of which can end the operation
unfoldable pub announce_rotation : Env → Announcement → Service → Outcome × Service
announce_rotation env a s =
    let (restarted, s') = restart_network env s in
    if not env.profile_saved.ok
    then (env.profile_saved, s)
    else if not restarted.ok
    then (restarted, s')
    else publish env a s'

abbrev rotation : Bytes → Bytes → Bytes → Announcement
rotation action previous current = record {
  kind = key_rotated;
  fields =
      ((text "action", action)
        ∷ (text "previous_cid", previous)
        ∷ (text "current_cid", current)
        ∷ []);
}

unfoldable pub import_key_backup : Env → Bytes → Bytes → Service → Outcome × Service
import_key_backup env path password s =
    let resolved = backup_path env path s in
    let preflight = verify_backup_preflight env resolved password s in
    let (imported, crypto) =
      import_identity_backup env.crypto_written env.backup_file env.now resolved password
        s.config.passphrase s.crypto in
    let s' = record s { crypto = crypto } in
    let done =
      with_profile env
        (record s.profile {
          local_display_name = [];
          local_display_name_immortalized = false;
          wallet_destroyed = false;
          wallet_recovery_required = false;
          wallet_last_unlocked_unix = crypto.last_unlocked_unix;
          wallet_last_locked_unix = crypto.last_locked_unix;
          wallet_identity_changed_unix = crypto.last_unlocked_unix;
          last_key_backup_path = resolved;
          wallet_backup_exists = true;
          wallet_backup_verified = true;
          backup_last_unix = env.now;
        })
        s' in
    if not preflight.ok
    then (preflight, s)
    else if not imported.ok
    then (imported, s')
    else announce_rotation env (rotation (text "import") s.crypto.identity.cid crypto.identity.cid)
        done

unfoldable pub lock_wallet : Env → Service → Outcome × Service
lock_wallet env s =
    let (locked, crypto) = lock_identity env.now s.crypto in
    if not locked.ok then (locked, record s { crypto = crypto }) else (
      success (text "Wallet locked."),
      with_profile env
          (record s.profile {
            wallet_last_locked_unix = crypto.last_locked_unix;
            wallet_recovery_required = false;
          })
          (record s { crypto = crypto }),
    )

unfoldable pub unlock_wallet : Env → Bytes → Service → Outcome × Service
unlock_wallet env passphrase s =
    let (unlocked, crypto) = unlock_identity env.vault_file env.now passphrase s.crypto in
    let s' = record s { crypto = crypto } in
    if not unlocked.ok
    then (unlocked, record s' { profile = record s.profile { wallet_recovery_required = true } })
    else restart_network env (
        with_profile env
          (record s.profile {
            wallet_last_unlocked_unix = crypto.last_unlocked_unix;
            wallet_recovery_required = false;
            wallet_destroyed = false;
          })
          s')

-- the mark that a failed recovery leaves
abbrev wanting : Service → Service
wanting s = record s { profile = record s.profile { wallet_recovery_required = true } }

-- with the new passphrase in the configuration
unfoldable pub recover_with : Env → Bytes → Bytes → Service → Outcome × Service
recover_with env path password s =
    let resolved = backup_path env path s in
    let preflight = verify_backup_preflight env resolved password s in
    let (imported, crypto) =
      import_identity_backup env.crypto_written env.backup_file env.now resolved password
        s.config.passphrase s.crypto in
    let s' = record s { crypto = crypto } in
    if not preflight.ok
    then (preflight, wanting s)
    else if not imported.ok
    then (imported, wanting s')
    else restart_network env (
        with_profile env
          (record s.profile {
            wallet_recovery_required = false;
            wallet_destroyed = false;
            wallet_last_unlocked_unix = crypto.last_unlocked_unix;
            wallet_identity_changed_unix = crypto.last_unlocked_unix;
            last_key_backup_path = resolved;
            wallet_backup_exists = true;
            wallet_backup_verified = true;
            backup_last_unix = env.now;
          })
          s')

unfoldable pub recover_wallet : Env → Bytes → Bytes → Bytes → Service → Outcome × Service
recover_wallet env path backup_password new_local_passphrase s =
    let local_pass = trim_copy new_local_passphrase in
    if is_empty local_pass
    then (failure (text "Wallet recovery failed: new local passphrase is required."), s)
    else recover_with env path backup_password
        (record s { config = record s.config { passphrase = local_pass } })

unfoldable pub nuke_key : Env → Bytes → Service → Outcome × Service
nuke_key env confirmation s =
    let confirm = trim_copy confirmation in
    let (nuked, crypto) =
      nuke_identity env.crypto_written env.random env.now s.config.passphrase s.crypto in
    let s' = record s { crypto = crypto } in
    let done =
      with_profile env
        (record s.profile {
          local_display_name = [];
          local_display_name_immortalized = false;
          wallet_destroyed = true;
          wallet_recovery_required = true;
          wallet_last_unlocked_unix = crypto.last_unlocked_unix;
          wallet_last_locked_unix = crypto.last_locked_unix;
          wallet_identity_changed_unix = crypto.last_unlocked_unix;
          wallet_backup_verified = false;
        })
        s' in
    if not (confirm == text "NUKE-KEY") && not (confirm == text "NUKE")
    then (failure (text "Nuke key requires confirmation text: NUKE-KEY"), s)
    else if not nuked.ok
    then (nuked, s')
    else announce_rotation env (rotation (text "nuke") s.crypto.identity.cid crypto.identity.cid)
        done
