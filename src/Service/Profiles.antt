-- ===== src/Service/Profiles.antt =====
-- The local user's name, its policy and the community's cipher key (src/core/service/alpha_service.cpp).
use got_soup.Prelude.{
  Bytes, Bool, true, ◌&&◌, not, List, [], ◌∷◌, ◌++◌, ◌==◌, bytes_eq, is_empty, if◌then◌else◌, text,
  Option, none, some,
}
use got_soup.Prelude.Dict.{Dict}
use got_soup.Model.{Outcome, success, failure, profile_updated, key_rotated}
use got_soup.Canonical.{Field, trim_copy, lowercase_copy}
use got_soup.Crypto.{derive_vault_key}
use got_soup.Service.State.{
  Service, Env, Attempt, go, stop, ◌>>◌, refuse_if, ensure_wallet_ready_for_mutation, Announcement,
  publish, submit,
}
use got_soup.Service.Names.{sanitize_display_name, observed_display_names_by_cid}
use got_soup.Service.Posts.{or_default}

-- the first other identity with the name
unfoldable pub holder_of : Bytes → Bytes → Dict Bytes Bytes → Option Bytes
holder_of own_cid requested [] = none
holder_of own_cid requested ((cid, name) ∷ names) =
    let rest = holder_of own_cid requested names in
    if cid == own_cid then rest else if lowercase_copy name == requested then some cid else rest

abbrev pub refuse_holder : Option Bytes → Attempt (Unit {0})
refuse_holder none = go tt
refuse_holder (some cid) =
    stop (failure (text "Duplicate name rejected: already used by CID " ++ cid))

-- the tests of `set_profile_display_name`, with the name that they leave
unfoldable pub accepted_name : Bytes → Service → Attempt Bytes
unfolding holder_of
accepted_name display_name s =
    let name = sanitize_display_name display_name in
    do
      ensure_wallet_ready_for_mutation (text "set_profile_display_name") s
      refuse_if (is_empty name)
          (text "Display name is required and must contain letters or numbers.")
      refuse_if
          (s.profile.local_display_name_immortalized
            && (not (is_empty s.profile.local_display_name)
                && not (name == s.profile.local_display_name)))
          (text "Display name is immortalized and cannot be changed for this CID.")
      refuse_holder (
          if s.profile.reject_duplicate_names
          then holder_of s.crypto.identity.cid (lowercase_copy name)
              (observed_display_names_by_cid s)
          else none)
      go name

abbrev policy_text : Bool → Bytes
policy_text reject = if reject then text "reject" else text "allow"

-- after save_profile_state
unfoldable pub announce_saved : Env → Announcement → Service → Outcome × Service
announce_saved env a s =
    if not env.profile_saved.ok then (env.profile_saved, s) else publish env a s

unfoldable pub set_profile_display_name : Env → Bytes → Service → Outcome × Service
unfolding announce_saved
set_profile_display_name env display_name s = elim (accepted_name display_name s) [
  | stop r ↦ (r, s)
  | go name ↦
      announce_saved env
        (record {
          kind = profile_updated;
          fields =
              ((text "display_name", name)
                ∷ (text "display_name_immortalized", text "1")
                ∷ (text "duplicate_policy", policy_text s.profile.reject_duplicate_names)
                ∷ []);
        })
        (record s {
          profile = record s.profile {
            local_display_name = name;
            local_display_name_immortalized = true;
          };
        })
]

-- the last field, where there is a name
abbrev name_field : Bytes → List Field
name_field name = if is_empty name then [] else (text "display_name", name) ∷ []

unfoldable pub set_duplicate_name_policy : Env → Bool → Service → Outcome × Service
unfolding announce_saved
set_duplicate_name_policy env reject s =
    elim (ensure_wallet_ready_for_mutation (text "set_duplicate_name_policy") s) [
      | stop r ↦ (r, s)
      | go _ ↦
          announce_saved env
            (record {
              kind = profile_updated;
              fields =
                  ((text "duplicate_policy", policy_text reject)
                    ∷ (
                      text "display_name_immortalized",
                      if s.profile.local_display_name_immortalized then text "1" else text "0",
                    )
                    ∷ name_field s.profile.local_display_name);
            })
            (record s { profile = record s.profile { reject_duplicate_names = reject } })
    ]

abbrev with_cipher_key : Bytes → Service → Service
with_cipher_key key s = record s { community = record s.community { cipher_key = key } }

-- the tests of `set_profile_cipher_password`
unfoldable pub cipher_password : Bytes → Service → Attempt Bytes
cipher_password password s = do
  ensure_wallet_ready_for_mutation (text "set_profile_cipher_password") s
  refuse_if (is_empty (trim_copy password)) (text "Cipher key update failed: password is required.")
  go (trim_copy password)

unfoldable pub set_profile_cipher_password : Env → Bytes → Bytes → Service → Outcome × Service
unfolding cipher_password
set_profile_cipher_password env password salt s = elim (cipher_password password s) [
  | stop r ↦ (r, s)
  | go pass ↦
      let applied_salt =
        or_default (trim_copy salt) (s.community.community_id ++ (b':' ∷ s.crypto.identity.cid)) in
      let s' =
        with_cipher_key (derive_vault_key pass (text "community-cipher:" ++ applied_salt)) s in
      (
        if not env.community_written.ok
            then env.community_written
            else success (text "Community cipher key updated."),
        s',
      )
]

unfoldable pub key_event : Service → Attempt Announcement
key_event s = do
  ensure_wallet_ready_for_mutation (text "update_key_to_peers") s
  go (record {
    kind = key_rotated;
    fields =
        ((text "action", text "announce")
          ∷ (text "cid", s.crypto.identity.cid)
          ∷ (text "public_key", s.crypto.identity.public_key)
          ∷ []);
  })

-- `set_profile_display_name`, then `update_key_to_peers`
unfoldable pub name_and_key : Env → Bytes → Service → Outcome × Service
unfolding set_profile_display_name submit
name_and_key env display_name s =
    let (named, s') = set_profile_display_name env display_name s in
    let (synced, s'') = submit env (key_event s') s' in
    if not named.ok
    then (named, s')
    else if not synced.ok
    then (synced, s'')
    else (success (text "Immortal name processed with required cipher and peer update."), s'')

-- the tests of `set_immortal_name_with_cipher`
unfoldable pub immortal_password : Bytes → Service → Attempt Bytes
immortal_password password s = do
  ensure_wallet_ready_for_mutation (text "set_immortal_name_with_cipher") s
  refuse_if (is_empty (trim_copy password)) (text "Immortal name requires cipher password.")
  go (trim_copy password)

unfoldable pub set_immortal_name_with_cipher :
    Env → Bytes → Bytes → Bytes → Service → Outcome × Service
unfolding immortal_password set_profile_cipher_password name_and_key
set_immortal_name_with_cipher env display_name password salt s =
    elim (immortal_password password s) [
      | stop r ↦ (r, s)
      | go pass ↦
          let (ciphered, s') = set_profile_cipher_password env pass salt s in
          if not ciphered.ok then (ciphered, s') else name_and_key env display_name s'
    ]
