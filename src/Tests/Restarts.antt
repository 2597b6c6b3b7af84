-- ===== src/Tests/Restarts.antt =====
-- Examples of the files of the service: the state of the profile, and communities.
use got_soup.Prelude.{Bytes, [], ◌∷◌, refl, ◌≡◌, text, arith, some}
use got_soup.Prelude.Int.{pos}
use got_soup.Prelude.Dict.{lookup, insert}
use got_soup.Model.{success}
use got_soup.Canonical.{trim_copy, trim_begin, trim_end, is_space}
use got_soup.Codec.{hex_digit, to_hex, from_hex, hex_pairs, from_hex_digit, split_at}
use got_soup.Crypto.{
  vault_text, initialize, unlock_from_vault, is_incomplete, parse_key_values, keep_lines, keep_line,
  split_first, parse_identity, serialize_identity, derive_vault_key, hash_bytes, fnv, hex_number,
  xor_stream, xor_from,
}
use got_soup.Service.{Profile, Service}
use got_soup.Service.Commands.{perform, update_key_to_peers}
use got_soup.Service.Commands.Guarded.{IsInert}
use got_soup.Service.Names.{sanitize_display_name}
use got_soup.Service.Wallet.{refresh_backup_state}
use got_soup.Service.ProfileFile.{profile_text, load_profile_state, startup_profile}
use got_soup.Service.ProfileFile.RoundTrip.{IsSavable, load_profile_state-profile_text}
use got_soup.Service.ProfileFile.Startup.{startup_profile-bars}
use got_soup.Prelude.{contains, bytes_eq}
use got_soup.Service.Names.{}
use got_soup.Service.Csv.{split_csv, join_csv, trimmed_values}
use got_soup.Prelude.{none, ◌++◌}
use got_soup.Service.Communities.{
  load_or_create_community_profile, write_community_profile_file, created_community, community_path,
  looks_like_path, proposed_id, default_moderators_of, default_psz, community_text,
}
use got_soup.Service.Configured.{network_psz, configure}
use got_soup.Service.Configured.Ranges.{IsConfigured, configure-IsConfigured}
use got_soup.Service.{should_use_testnet}
use got_soup.Service.Communities.Created.{IsPlain, load_or_create_community_profile_twice}
use got_soup.Service.Csv.Listed.{split_csv-join_csv_twice}
use got_soup.Tests.ServiceData.{engine, profile, service, env}

abbrev named_profile : Profile
named_profile = record profile { local_display_name = text "Alice" }

named_profile-IsSavable : IsSavable named_profile
unfolding text trim_copy trim_begin trim_end is_space sanitize_display_name
named_profile-IsSavable = record {
  name = record { trimmed = refl; no_newline = ground arith };
  short = refl;
  path = record { trimmed = refl; no_newline = ground arith };
  backed = omega arith;
  locked = omega arith;
  unlocked = omega arith;
  changed = omega arith;
}

load_profile_state-profile_text_example :
    load_profile_state env (some (profile_text named_profile)) (pos 70)
    ≡ refresh_backup_state env named_profile
load_profile_state-profile_text_example =
    load_profile_state-profile_text env (pos 70) named_profile named_profile-IsSavable

abbrev vault : Bytes
vault = vault_text engine (text "local")

abbrev restarted : Service
restarted = record service {
  profile = startup_profile env (some (profile_text named_profile)) (pos 70) (pos 0);
}

-- The backup of time 60 is verified and on the disk, and the service starts at time 70.
startup_profile-bars_example : IsInert (perform env update_key_to_peers restarted) restarted
unfolding initialize unlock_from_vault vault_text is_incomplete parse_key_values keep_lines
    keep_line split_first split_at parse_identity serialize_identity derive_vault_key hash_bytes fnv
    hex_number hex_digit xor_stream xor_from to_hex from_hex hex_pairs from_hex_digit lookup insert
    text
startup_profile-bars_example =
    startup_profile-bars env env (success []) (success []) vault [] (pos 70) (pos 0) (text "/data")
      (text "local") update_key_to_peers engine named_profile restarted named_profile-IsSavable refl
      refl refl

split_csv-join_csv_twice_example :
    let read = split_csv (join_csv (text " b" ∷ text "a" ∷ text "b" ∷ [])) in
    (contains (text "b") read
      ≡ contains (text "b") (trimmed_values (text " b" ∷ text "a" ∷ text "b" ∷ [])))
    × (split_csv (join_csv read) ≡ read)
unfolding text
split_csv-join_csv_twice_example =
    split_csv-join_csv_twice (text " b" ∷ text "a" ∷ text "b" ∷ []) (text "b") (ground arith)

-- A configuration with a threshold and a limit of 0.
configure-IsConfigured_example : IsConfigured service (configure env service).1
unfolding network_psz text should_use_testnet
configure-IsConfigured_example = configure-IsConfigured env service refl

no_files-IsPlain : IsPlain env [] [] [] service
unfolding text trim_copy trim_begin trim_end is_space proposed_id default_moderators_of default_psz
    should_use_testnet
no_files-IsPlain = record {
  peers = record {
    line = record { trimmed = refl; no_newline = ground arith };
    filled = refl;
    absolute = refl;
  };
  store = record {
    line = record { trimmed = refl; no_newline = ground arith };
    filled = refl;
    absolute = refl;
  };
  name = record { trimmed = refl; no_newline = tt };
  about = record { trimmed = refl; no_newline = tt };
  psz = record { trimmed = refl; no_newline = ground arith };
  post_value = omega arith;
  reward = omega arith;
  confirmations = omega arith;
  flags = omega arith;
  no_comma = ground arith;
  no_newline = ground arith;
  signed = refl;
}

load_or_create_community_profile_twice_example :
    let t = (load_or_create_community_profile env none [] [] [] service).1 in
    load_or_create_community_profile env (some (community_text t.community)) [] [] [] t
    ≡ (success (text "Loaded community profile: " ++ t.community.community_id), t)
unfolding load_or_create_community_profile write_community_profile_file created_community
    community_path looks_like_path proposed_id text
load_or_create_community_profile_twice_example =
    load_or_create_community_profile_twice env [] [] [] [] [] service no_files-IsPlain refl
