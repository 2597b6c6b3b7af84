-- ===== src/Service/Communities/RoundTrip.antt =====
-- The profile of a community is read back as it was written (src/core/service/alpha_service.cpp).
use got_soup.Prelude.{
  ℕ, ◌≤◌, Bytes, Bool, true, false, List, [], ◌∷◌, ◌++◌, bytes_eq, text, some, refl, ◌≡◌, arith,
  is_empty, ap,
}
use got_soup.Prelude.Int.{ℤ, pos, negsuc, pos_part, IsInt64, ◌≤ℤ◌, max_ℤ, wrap64}
use got_soup.Prelude.Dict.{Dict, lookup, insert, get_or, has}
use got_soup.Prelude.Decimal.{print_ℤ}
use got_soup.Canonical.{is_space, trim_copy, trim_begin, trim_end}
use got_soup.Codec.{is_skipped}
use got_soup.Crypto.{derive_vault_key}
use got_soup.Crypto.Backup.{insert_all}
use got_soup.Service.State.{Env, Community, Service}
use got_soup.Service.KeyValues.{flag_text, parse_key_values_file}
use got_soup.Service.KeyValues.Lines.{
  flag-IsTrimmed, IsTrimmed, IsTrimmed-print_ℤ, AreValues, words-AreFields,
  parse_key_values_file-commented, parse_int64_default-print_ℤ,
}
use got_soup.Service.Names.{sanitize_community_id}
use got_soup.Service.Wallet.{resolve_data_path}
use got_soup.Service.Csv.{split_csv, join_csv}
use got_soup.Service.Communities.{
  community_fields, community_text, count_field, amount_field, on_unless_zero, or_else_local,
  listed_moderators, moderators_of, path_field, community_of, parse_community_profile_file,
  default_reward, default_psz,
}

-- An absolute path that a line can carry.
pub record IsPlace (env : Env) (path : Bytes) : Type 0 where
  pub line : IsTrimmed path
  pub filled : is_empty path ≡ false
  pub absolute : env.is_absolute path ≡ true

-- A profile that the file can carry.
pub record IsStorable (env : Env) (c : Community) : Type 0 where
  pub id : IsTrimmed c.community_id
  pub clean : sanitize_community_id c.community_id ≡ c.community_id
  pub named : is_empty c.community_id ≡ false
  pub name : IsTrimmed c.display_name
  pub about : IsTrimmed c.description
  pub key : IsTrimmed c.cipher_key
  pub psz : IsTrimmed c.genesis_psz_timestamp
  pub peers : IsPlace env c.peers_dat_path
  pub store : IsPlace env c.store_path
  pub post_value : IsInt64 c.minimum_post_value
  pub post_value_least : pos 0 ≤ℤ c.minimum_post_value
  pub reward : IsInt64 c.block_reward_units
  pub reward_least : pos 1 ≤ℤ c.block_reward_units
  pub confirmations : IsInt64 (pos c.moderation_min_confirmations)
  pub confirmations_least : 1 ≤ c.moderation_min_confirmations
  pub flags : IsInt64 (pos c.moderation_auto_hide_flags)
  pub flags_least : 1 ≤ c.moderation_auto_hide_flags
  pub listed : IsTrimmed (join_csv c.moderator_cids)
  pub ordered : split_csv (join_csv c.moderator_cids) ≡ c.moderator_cids
  pub led : (m : Bytes) × (ms : List Bytes) × (c.moderator_cids ≡ m ∷ ms)

max_least : (low a : ℤ) → low ≤ℤ a → max_ℤ low a ≡ a
max_least (pos m) (pos n) h = ground arith
max_least (pos m) (negsuc n) h = ground arith
max_least (negsuc m) (pos n) h = ground arith
max_least (negsuc m) (negsuc n) h = ground arith

amount_field-found :
    (key : Bytes) (fields : Dict Bytes Bytes) (low fallback missing a : ℤ)
    → IsInt64 a
    → low ≤ℤ a
    → lookup key fields ≡ some (print_ℤ a)
    → amount_field key fields low fallback missing ≡ a
unfolding amount_field
amount_field-found key fields low fallback missing a fits least h =
    rw (h, amount_field, parse_int64_default-print_ℤ a fallback fits) (max_least low a least)

count_field-found :
    (key : Bytes) (fields : Dict Bytes Bytes) (fallback n : ℕ)
    → IsInt64 (pos n)
    → 1 ≤ n
    → lookup key fields ≡ some (print_ℤ (pos n))
    → count_field key fields fallback ≡ n
unfolding count_field
count_field-found key fields fallback n fits least h =
    rw (h, count_field, parse_int64_default-print_ℤ (pos n) (wrap64 (pos fallback)) fits)
      (ap pos_part (max_least (pos 1) (pos n) (omega (arith, least))))

on_unless_zero-found :
    (key : Bytes) (fields : Dict Bytes Bytes) (b : Bool)
    → lookup key fields ≡ some (flag_text b)
    → on_unless_zero key fields ≡ b
unfolding on_unless_zero text
on_unless_zero-found key fields true h = rw (h, on_unless_zero) refl
on_unless_zero-found key fields false h = rw (h, on_unless_zero) refl

path_field-found :
    (env : Env) (key path name : Bytes) (fields : Dict Bytes Bytes) (s : Service)
    → IsPlace env path
    → lookup key fields ≡ some path
    → path_field env key fields name s ≡ path
unfolding path_field resolve_data_path
path_field-found env key path name fields s w h =
    rw (h, path_field, w.line.trimmed, w.filled, w.filled, w.absolute) refl

or_else-filled :
    (cid m : Bytes) (ms listed : List Bytes) → listed ≡ m ∷ ms → or_else_local cid listed ≡ listed
or_else-filled cid m ms [] e = cc
or_else-filled cid m ms (x ∷ listed) e = refl

module _ (env : Env) (c : Community) (s : Service) (w : IsStorable env c) where
  community_values : AreValues (community_fields c)
  unfolding community_fields print_ℤ
  community_values = (
    w.id,
    (
      w.name,
      (
        w.about,
        (
          w.key,
          (
            w.peers.line,
            (
              w.store.line,
              (
                IsTrimmed-print_ℤ c.minimum_post_value,
                (
                  IsTrimmed-print_ℤ c.block_reward_units,
                  (
                    flag-IsTrimmed c.moderation_enabled,
                    (
                      flag-IsTrimmed c.moderation_require_finality,
                      (
                        IsTrimmed-print_ℤ (pos c.moderation_min_confirmations),
                        (
                          IsTrimmed-print_ℤ (pos c.moderation_auto_hide_flags),
                          (w.listed, (w.psz, tt)),
                        ),
                      ),
                    ),
                  ),
                ),
              ),
            ),
          ),
        ),
      ),
    ),
  )

  abbrev fields : Dict Bytes Bytes
  fields = insert_all (community_fields c) []

  parsed : parse_key_values_file (community_text c) ≡ fields
  unfolding community_text text trim_copy trim_begin trim_end is_space is_skipped
  parsed =
      parse_key_values_file-commented (text "# got-soup community profile") (community_fields c)
        (ground arith) refl
        (words-AreFields (community_fields c) (unfold community_fields in refl) community_values)

  moderators_kept : moderators_of fields s ≡ c.moderator_cids
  unfolding moderators_of listed_moderators insert lookup text community_fields
  moderators_kept =
      let (m, ms, e) = w.led in
      rw (w.ordered, or_else-filled s.crypto.identity.cid m ms c.moderator_cids e) w.ordered

  text_fields :
      (id : Bytes)
      → (get_or (text "community_id") fields [] ≡ c.community_id)
        × (get_or (text "display_name") fields id ≡ c.display_name)
        × (get_or (text "description") fields [] ≡ c.description)
  unfolding insert lookup text community_fields
  text_fields id = (refl, refl, refl)

  key_field : (key : Bytes) → get_or (text "cipher_key") fields key ≡ c.cipher_key
  unfolding insert lookup text community_fields
  key_field key = refl

  psz_field :
      (psz : Bytes) → get_or (text "genesis_psz_timestamp") fields psz ≡ c.genesis_psz_timestamp
  unfolding insert lookup text community_fields
  psz_field psz = refl

  named_field : has (text "community_id") fields ≡ true
  unfolding insert lookup text community_fields
  named_field = refl

  peers_field :
      (name : Bytes) → path_field env (text "peers_dat_path") fields name s ≡ c.peers_dat_path
  peers_field name =
      path_field-found env (text "peers_dat_path") c.peers_dat_path name fields s w.peers
        (unfold insert lookup text community_fields in refl)

  store_field : (name : Bytes) → path_field env (text "store_path") fields name s ≡ c.store_path
  store_field name =
      path_field-found env (text "store_path") c.store_path name fields s w.store
        (unfold insert lookup text community_fields in refl)

  community_of-fields : community_of env c.profile_path fields s ≡ c
  unfolding community_of
  community_of-fields =
      let policy = s.config.default_moderation_policy in
      rw
        (
          community_of,
          (text_fields []).0,
          w.clean,
          (text_fields c.community_id).1,
          (text_fields []).2,
          key_field (derive_vault_key s.config.passphrase (text "community:" ++ c.community_id)),
          peers_field (text "peers-" ++ (c.community_id ++ text ".dat")),
          store_field (text "db-" ++ c.community_id),
          amount_field-found (text "minimum_post_value") fields (pos 0) (pos 0)
              s.config.minimum_post_value c.minimum_post_value w.post_value w.post_value_least
              (unfold insert lookup text community_fields in refl),
          amount_field-found (text "block_reward_units") fields (pos 1) (pos 50)
              (default_reward s.config) c.block_reward_units w.reward w.reward_least
              (unfold insert lookup text community_fields in refl),
          psz_field (default_psz s),
          on_unless_zero-found (text "moderation_enabled") fields c.moderation_enabled
              (unfold insert lookup text community_fields in refl),
          on_unless_zero-found (text "moderation_require_finality") fields
              c.moderation_require_finality (unfold insert lookup text community_fields in refl),
          count_field-found (text "moderation_min_confirmations") fields
              policy.min_confirmations_for_enforcement c.moderation_min_confirmations
              w.confirmations w.confirmations_least
              (unfold insert lookup text community_fields print_ℤ in refl),
          count_field-found (text "moderation_auto_hide_flags") fields
              policy.max_flags_before_auto_hide c.moderation_auto_hide_flags w.flags w.flags_least
              (unfold insert lookup text community_fields print_ℤ in refl),
          moderators_kept,
        )
        refl

-- A profile whose texts are trimmed and have no newlines, whose paths are absolute, whose numbers
-- are in the range that the reader allows and whose moderators are in the order in which the writer
-- puts them: what is written to the file of a community is read back, whatever the configuration.
pub parse_community_profile_file-community_text :
    (env : Env) (c : Community) (s : Service)
    → IsStorable env c
    → parse_community_profile_file env c.profile_path (community_text c) s ≡ some c
unfolding parse_community_profile_file
parse_community_profile_file-community_text env c s w =
    rw
      (
        parse_community_profile_file,
        parsed env c s w,
        community_of-fields env c s w,
        named_field env c s w,
        (text_fields env c s w []).0,
        w.clean,
        w.named,
      )
      refl
