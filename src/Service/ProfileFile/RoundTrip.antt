-- ===== src/Service/ProfileFile/RoundTrip.antt =====
-- The state of the profile is read back as it was saved (src/core/service/alpha_service.cpp).
use got_soup.Prelude.{
  Bytes, Bool, true, false, [], bytes_eq, text, some, refl, ◌≡◌, arith, if◌then◌else◌, not, ◌||◌,
  ◌==◌,
}
use got_soup.Prelude.Int.{ℤ, pos, IsInt64}
use got_soup.Prelude.Dict.{Dict, lookup, insert, get_or}
use got_soup.Prelude.Decimal.{print_ℤ}
use got_soup.Canonical.{is_space, trim_copy, trim_begin, trim_end}
use got_soup.Codec.{is_skipped}
use got_soup.Crypto.Backup.{insert_all}
use got_soup.Service.State.{Env, Profile}
use got_soup.Service.KeyValues.{flag_text, parse_key_values_file, flag_field, number_field}
use got_soup.Service.KeyValues.Lines.{
  flag-IsTrimmed, IsTrimmed, IsTrimmed-solid, IsTrimmed-print_ℤ, AreFields, AreValues,
  words-AreFields, parse_key_values_file-commented, parse_int64_default-print_ℤ,
}
use got_soup.Service.Names.{sanitize_display_name}
use got_soup.Service.Wallet.{refresh_backup_state}
use got_soup.Service.ProfileFile.{
  profile_fields, profile_text, fresh_profile, policy_field, profile_of, load_profile_state,
}

-- A profile that the file can carry.
pub record IsSavable (p : Profile) : Type 0 where
  pub name : IsTrimmed p.local_display_name
  pub short : sanitize_display_name p.local_display_name ≡ p.local_display_name
  pub path : IsTrimmed p.last_key_backup_path
  pub backed : IsInt64 p.backup_last_unix
  pub locked : IsInt64 p.wallet_last_locked_unix
  pub unlocked : IsInt64 p.wallet_last_unlocked_unix
  pub changed : IsInt64 p.wallet_identity_changed_unix

policy-IsTrimmed : (b : Bool) → IsTrimmed (if b then text "reject" else text "allow")
unfolding text is_space
policy-IsTrimmed true = IsTrimmed-solid (text "reject") (ground arith)
policy-IsTrimmed false = IsTrimmed-solid (text "allow") (ground arith)

profile_values : (p : Profile) → IsSavable p → AreValues (profile_fields p)
profile_values p w = (
  w.name,
  (
    flag-IsTrimmed p.local_display_name_immortalized,
    (
      policy-IsTrimmed p.reject_duplicate_names,
      (
        flag-IsTrimmed p.wallet_destroyed,
        (
          flag-IsTrimmed p.wallet_recovery_required,
          (
            flag-IsTrimmed p.wallet_backup_exists,
            (
              flag-IsTrimmed p.wallet_backup_verified,
              (
                flag-IsTrimmed p.wallet_backup_required,
                (
                  flag-IsTrimmed p.onboarding_complete,
                  (
                    w.path,
                    (
                      IsTrimmed-print_ℤ p.backup_last_unix,
                      (
                        IsTrimmed-print_ℤ p.wallet_last_locked_unix,
                        (
                          IsTrimmed-print_ℤ p.wallet_last_unlocked_unix,
                          (IsTrimmed-print_ℤ p.wallet_identity_changed_unix, tt),
                        ),
                      ),
                    ),
                  ),
                ),
              ),
            ),
          ),
        ),
      ),
    ),
  ),
)

profile_words : (p : Profile) → AreValues (profile_fields p) → AreFields (profile_fields p)
unfolding text
profile_words p h = words-AreFields (profile_fields p) refl h

parsed :
    (p : Profile)
    → IsSavable p
    → parse_key_values_file (profile_text p) ≡ insert_all (profile_fields p) []
unfolding profile_text text trim_copy trim_begin trim_end is_space is_skipped
parsed p w =
    parse_key_values_file-commented (text "# got-soup profile state") (profile_fields p)
      (ground arith) refl (profile_words p (profile_values p w))

flag_read : (b : Bool) → (flag_text b == text "1" || flag_text b == text "true") ≡ b
unfolding text
flag_read true = refl
flag_read false = refl

flag_field-found :
    (key : Bytes) (fields : Dict Bytes Bytes) (kept b : Bool)
    → lookup key fields ≡ some (flag_text b)
    → flag_field key fields kept ≡ b
unfolding flag_field
flag_field-found key fields kept b h = rw (h, flag_field) (flag_read b)

policy_read : (b : Bool) → not ((if b then text "reject" else text "allow") == text "allow") ≡ b
unfolding text
policy_read true = refl
policy_read false = refl

policy_field-found :
    (fields : Dict Bytes Bytes) (kept b : Bool)
    → lookup (text "duplicate_policy") fields ≡ some (if b then text "reject" else text "allow")
    → policy_field fields kept ≡ b
unfolding policy_field
policy_field-found fields kept b h = rw (h, policy_field) (policy_read b)

number_field-found :
    (key : Bytes) (fields : Dict Bytes Bytes) (kept fallback a : ℤ)
    → IsInt64 a
    → lookup key fields ≡ some (print_ℤ a)
    → number_field key fields kept fallback ≡ a
unfolding number_field
number_field-found key fields kept fallback a fits h =
    rw (h, number_field) (parse_int64_default-print_ℤ a fallback fits)

module _ (p old : Profile) (w : IsSavable p) where
  abbrev fields : Dict Bytes Bytes
  fields = insert_all (profile_fields p) []

  name_at : lookup (text "display_name") fields ≡ some p.local_display_name
  unfolding insert lookup text
  name_at = refl

  path_at :
      get_or (text "last_key_backup_path") fields old.last_key_backup_path ≡ p.last_key_backup_path
  unfolding insert lookup text
  path_at = refl

  profile_of-fields : profile_of fields old ≡ p
  unfolding profile_of
  profile_of-fields =
      rw
        (
          profile_of,
          flag_field-found (text "display_name_immortalized") fields
              old.local_display_name_immortalized p.local_display_name_immortalized
              (unfold insert lookup text in refl),
          policy_field-found fields old.reject_duplicate_names p.reject_duplicate_names
              (unfold insert lookup text in refl),
          flag_field-found (text "wallet_destroyed") fields old.wallet_destroyed p.wallet_destroyed
              (unfold insert lookup text in refl),
          flag_field-found (text "wallet_recovery_required") fields old.wallet_recovery_required
              p.wallet_recovery_required (unfold insert lookup text in refl),
          flag_field-found (text "wallet_backup_exists") fields old.wallet_backup_exists
              p.wallet_backup_exists (unfold insert lookup text in refl),
          flag_field-found (text "wallet_backup_verified") fields old.wallet_backup_verified
              p.wallet_backup_verified (unfold insert lookup text in refl),
          flag_field-found (text "wallet_backup_required") fields old.wallet_backup_required
              p.wallet_backup_required (unfold insert lookup text in refl),
          flag_field-found (text "onboarding_complete") fields old.onboarding_complete
              p.onboarding_complete (unfold insert lookup text in refl),
          number_field-found (text "wallet_last_unlocked_unix") fields old.wallet_last_unlocked_unix
              (pos 0) p.wallet_last_unlocked_unix w.unlocked (unfold insert lookup text in refl),
          number_field-found (text "backup_last_unix") fields old.backup_last_unix (pos 0)
              p.backup_last_unix w.backed (unfold insert lookup text in refl),
          number_field-found (text "wallet_last_locked_unix") fields old.wallet_last_locked_unix
              (pos 0) p.wallet_last_locked_unix w.locked (unfold insert lookup text in refl),
          number_field-found (text "wallet_identity_changed_unix") fields
              old.wallet_identity_changed_unix p.wallet_last_unlocked_unix
              p.wallet_identity_changed_unix w.changed (unfold insert lookup text in refl),
          name_at,
          w.short,
          path_at,
        )
        refl

-- A profile with a name and a path that have no newlines and no spaces around them, a name that is not too long, and
-- times that fit 64 bits: what is saved is loaded again, whatever the file's state of the backup, which is worked out
-- anew from what is on the disk.
pub load_profile_state-profile_text :
    (env : Env) (opened : ℤ) (p : Profile)
    → IsSavable p
    → load_profile_state env (some (profile_text p)) opened ≡ refresh_backup_state env p
unfolding load_profile_state
load_profile_state-profile_text env opened p w =
    rw (load_profile_state, parsed p w, profile_of-fields p (fresh_profile opened) w) refl
