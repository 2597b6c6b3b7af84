-- ===== src/Service/ProfileFile/Startup.antt =====
-- The backup after a restart (`init` of src/core/service/alpha_service.cpp, `initialize` of
-- src/core/crypto/crypto.cpp).
use got_soup.Prelude.{Bytes, true, false, ◌≡◌, refl, arith, some}
use got_soup.Prelude.Int.{ℤ, max_ℤ, ltb_ℤ}
use got_soup.Model.{Outcome}
use got_soup.Crypto.{CryptoEngine, initialize, unlock_from_vault}
use got_soup.Service.State.{Env, Profile, Service}
use got_soup.Service.Commands.{Command, perform}
use got_soup.Service.Commands.Guarded.{IsInert, required-IsInert}
use got_soup.Service.Wallet.{refresh_backup_state}
use got_soup.Service.ProfileFile.{profile_text, startup_profile}
use got_soup.Service.ProfileFile.RoundTrip.{IsSavable, load_profile_state-profile_text}

initialize_unlocks :
    (created written : Outcome) (file random : Bytes) (now : ℤ) (app_data_dir passphrase : Bytes)
    (k : CryptoEngine)
    → (initialize created written (some file) random now app_data_dir passphrase k).0.ok ≡ true
    → (initialize created written
        (some file)
        random
        now
        app_data_dir
        passphrase
        k).1.last_unlocked_unix
      ≡ now
unfolding initialize unlock_from_vault
initialize_unlocks created written file random now app_data_dir passphrase k h = ground arith

stale-refreshed :
    (env : Env) (p : Profile)
    → ltb_ℤ p.backup_last_unix p.wallet_identity_changed_unix ≡ true
    → (refresh_backup_state env p).wallet_backup_required ≡ true
unfolding refresh_backup_state
stale-refreshed env p h = rw (refresh_backup_state, h) (ground arith)

refresh_keeps :
    (env : Env) (p : Profile) → ((refresh_backup_state env p).backup_last_unix ≡ p.backup_last_unix)
unfolding refresh_backup_state
refresh_keeps env p = refl

-- `init` on the members that were loaded
abbrev started : Profile → ℤ → ℤ → Profile
started p opened locked = record p {
  wallet_destroyed = false;
  wallet_recovery_required = false;
  wallet_last_unlocked_unix = opened;
  wallet_last_locked_unix = locked;
  wallet_identity_changed_unix = max_ℤ p.wallet_identity_changed_unix opened;
}

startup-required :
    (env : Env) (p : Profile) (opened locked : ℤ)
    → IsSavable p
    → ltb_ℤ p.backup_last_unix opened ≡ true
    → (startup_profile env (some (profile_text p)) opened locked).wallet_backup_required ≡ true
unfolding startup_profile
startup-required env p opened locked w h =
    rw (startup_profile, load_profile_state-profile_text env opened p w)
      (stale-refreshed env (started (refresh_backup_state env p) opened locked)
        (rw (refresh_keeps env p) (ground arith)))

-- The state of the profile was saved, with texts and times that its file can carry, and the service starts again with
-- the vault that it finds: when the vault is unlocked after the time of the last backup, every command of `Command`
-- (posts, reviews, transfers, moderation, names, keys told to the peers) fails and changes nothing as long as the
-- profile is what the start left, even where the backup had been verified and is still on the disk. Reward claims, and the key rotation that operations of the
-- wallet announce themselves, are no such commands.
pub startup_profile-bars :
    (env env' : Env) (created written : Outcome) (file random : Bytes) (now locked : ℤ)
    (app_data_dir passphrase : Bytes) (c : Command) (k : CryptoEngine) (p : Profile) (s : Service)
    → IsSavable p
    → ltb_ℤ p.backup_last_unix now ≡ true
    → let k' = initialize created written (some file) random now app_data_dir passphrase k in
      k'.0.ok ≡ true
      → s.profile ≡ startup_profile env (some (profile_text p)) k'.1.last_unlocked_unix locked
      → IsInert (perform env' c s) s
startup_profile-bars env env' created written file random now locked app_data_dir passphrase c k p s
      w h ok started =
    required-IsInert env' c s (
      rw
        (
          started,
          initialize_unlocks created written file random now app_data_dir passphrase k ok,
          startup-required env p now locked w h,
        )
        refl)
