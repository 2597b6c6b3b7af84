-- ===== src/Service/Communities/Created.antt =====
-- A community that was created is loaded again (load_or_create_community_profile of
-- src/core/service/alpha_service.cpp).
use got_soup.Prelude.{
  ℕ, zero, suc, ◌/◌, ◌%◌, ◌<◌, ◌^◌, Bytes, Bool, true, false, List, [], ◌∷◌, ◌++◌, ◌==◌, bytes_eq,
  nat_eq, is_empty, text, ltb, none, some, ◌≡◌, refl, sym, ◌∙◌, arith, if◌then◌else◌, All,
  All-append, Bool-cases, inl, inr, contains,
}
use got_soup.Prelude.Int.{ℤ, pos, negsuc, IsInt64, ◌≤ℤ◌, max_ℤ, leb_ℤ}
use got_soup.Canonical.{is_space, trim_copy}
use got_soup.Codec.{hex_digit}
use got_soup.Crypto.{hex_number, hash_bytes, derive_vault_key, fnv}
use got_soup.Crypto.Backup.{HasNo}
use got_soup.Model.{success}
use got_soup.Service.State.{Env, Service, Community}
use got_soup.Service.KeyValues.Lines.{trimmed_ends, IsTrimmed, IsTrimmed-solid, trim_copy-solid}
use got_soup.Service.Names.{sanitize_community_id}
use got_soup.Service.Names.CleanIds.{
  IsId, sanitize_community_id-IsId, sanitize_community_id_twice, id_solid,
}
use got_soup.Service.Wallet.{resolve_data_path}
use got_soup.Service.Csv.Listed.{split_csv-join_csv_twice}
use got_soup.Service.Csv.Joined.{EndsSolid-append, join_csv_again-IsTrimmed}
use got_soup.Service.Csv.{split_csv, join_csv, trimmed_values}
use got_soup.Service.Communities.{
  looks_like_path, proposed_id, community_path, created_community, default_moderators_of,
  default_psz, community_text, load_or_create_community_profile,
}
use got_soup.Service.Communities.RoundTrip.{
  IsPlace, IsStorable, parse_community_profile_file-community_text,
}

hex_number-solid : (f n : ℕ) → All (λ c. is_space c ≡ false) (hex_number f n)
unfolding hex_number is_space
hex_number-solid zero n = tt
hex_number-solid (suc f) n = elim (Bool-cases (ltb n 16)) [
  | inl small ↦ rw small (unfold hex_digit in ground arith)
  | inr large ↦ rw large (
      All-append (λ (c : ℕ). is_space c ≡ false) (hex_number f (n / 16)) (hex_digit (n % 16) ∷ [])
        (hex_number-solid f (n / 16)) (unfold hex_digit in ground arith))
]

derive_vault_key-IsTrimmed : (p s : Bytes) → IsTrimmed (derive_vault_key p s)
unfolding derive_vault_key hash_bytes
derive_vault_key-IsTrimmed p s = IsTrimmed-solid (derive_vault_key p s) (
    hex_number-solid 16
      (fnv 1469598103934665603 (p ++ (text "::" ++ (s ++ text "::argon2id-placeholder")))))

-- An id that is left as it is.
record IsCleanId (id : Bytes) : Type 0 where
  letters : IsId id
  clean : sanitize_community_id id ≡ id
  filled : is_empty id ≡ false

named_or_community :
    (id : Bytes)
    → IsId id
    → sanitize_community_id id ≡ id
    → IsCleanId (if is_empty id then text "community" else id)
unfolding text sanitize_community_id got_soup.Service.Names.clean_byte
named_or_community [] h e = record { letters = ground arith; clean = refl; filled = refl }
named_or_community (c ∷ id) h e = record { letters = h; clean = e; filled = refl }

chosen :
    (a b : Bool) (u v : Bytes)
    → let id =
        if a
        then text "recipes"
        else if b
        then sanitize_community_id u
        else sanitize_community_id v in
      IsId id × (sanitize_community_id id ≡ id)
unfolding text
chosen true b u v =
    (ground arith, unfold sanitize_community_id got_soup.Service.Names.clean_byte in refl)
chosen false true u v = (sanitize_community_id-IsId u, sanitize_community_id_twice u)
chosen false false u v = (sanitize_community_id-IsId v, sanitize_community_id_twice v)

proposed_id-IsCleanId :
    (env : Env) (selector : Bytes) (s : Service) → IsCleanId (proposed_id env selector s)
unfolding proposed_id
proposed_id-IsCleanId env selector s =
    let path = resolve_data_path env selector selector s in
    let (letters, clean) =
      chosen (is_empty selector) (looks_like_path selector) (env.stem path) selector in
    named_or_community _ letters clean

-- What a community can be created from so that its file can carry it.
pub record IsPlain (env : Env) (selector display_name description : Bytes) (s : Service)
    : Type 0 where
  pub peers : IsPlace env (
      env.joined s.config.app_data_dir
        (text "peers-" ++ (proposed_id env selector s ++ text ".dat")))
  pub store :
      IsPlace env (env.joined s.config.app_data_dir (text "db-" ++ proposed_id env selector s))
  pub name : IsTrimmed display_name
  pub about : IsTrimmed description
  pub psz : IsTrimmed (default_psz s)
  pub post_value : IsInt64 s.config.minimum_post_value
  pub reward : IsInt64 s.config.block_reward_units
  pub confirmations : s.config.default_moderation_policy.min_confirmations_for_enforcement < 2 ^ 63
  pub flags : s.config.default_moderation_policy.max_flags_before_auto_hide < 2 ^ 63
  pub no_comma : All (HasNo b',') (default_moderators_of s.config ++ s.crypto.identity.cid ∷ [])
  pub no_newline : All (HasNo b'\n') (default_moderators_of s.config ++ s.crypto.identity.cid ∷ [])
  pub signed : is_empty (trim_copy s.crypto.identity.cid) ≡ false

trimmed_values-last :
    (vs : List Bytes) (v : Bytes)
    → is_empty (trim_copy v) ≡ false
    → contains (trim_copy v) (trimmed_values (vs ++ v ∷ [])) ≡ true
unfolding trimmed_values
trimmed_values-last [] v h = rw h (ground (arith, bytes_eq.equals_iff (trim_copy v) (trim_copy v)))
trimmed_values-last (w ∷ vs) v h = ground (arith, trimmed_values-last vs v h)

led_by :
    (a : Bytes) (m : List Bytes)
    → contains a m ≡ true
    → (x : Bytes) × (ms : List Bytes) × (m ≡ x ∷ ms)
led_by a [] h = cc
led_by a (x ∷ ms) h = (x, ms, refl)

titled-IsTrimmed :
    (id name : Bytes)
    → IsCleanId id
    → IsTrimmed name
    → IsTrimmed (if is_empty name then text "Community " ++ id else name)
unfolding text is_space
titled-IsTrimmed id [] w h =
    let plain = IsTrimmed-solid id (id_solid id w.letters) in
    record {
      trimmed =
          trim_copy-solid (text "Community " ++ id) refl
            (EndsSolid-append (text "Community ") id w.filled (trimmed_ends id plain.trimmed));
      no_newline =
          All-append (λ c. (c == b'\n') ≡ false) (text "Community ") id (ground arith)
            plain.no_newline;
    }
titled-IsTrimmed id (c ∷ name) w h = h

described-IsTrimmed :
    (about : Bytes)
    → IsTrimmed about
    → IsTrimmed (if is_empty about then text "Modular got-soup community profile." else about)
unfolding text is_space
described-IsTrimmed [] h = record {
  trimmed = trim_copy-solid (text "Modular got-soup community profile.") refl refl;
  no_newline = ground arith;
}
described-IsTrimmed (c ∷ about) h = h

floor_least : (low a : ℤ) → low ≤ℤ max_ℤ low a
floor_least (pos m) (pos n) = ground arith
floor_least (pos m) (negsuc n) = ground arith
floor_least (negsuc m) (pos n) = ground arith
floor_least (negsuc m) (negsuc n) = ground arith

floor-IsInt64 : (a : ℤ) → IsInt64 a → IsInt64 (max_ℤ (pos 0) a)
floor-IsInt64 (pos n) h = ground (arith, h)
floor-IsInt64 (negsuc n) h = ground arith

reward_fits : (a : ℤ) → IsInt64 a → IsInt64 (if leb_ℤ a (pos 0) then pos 115 else a)
reward_fits (pos n) h = ground (arith, h)
reward_fits (negsuc n) h = ground arith

reward_least : (a : ℤ) → pos 1 ≤ℤ (if leb_ℤ a (pos 0) then pos 115 else a)
reward_least (pos n) = ground arith
reward_least (negsuc n) = ground arith

module _ (env : Env) (selector display_name description path : Bytes) (s : Service)
    (w : IsPlain env selector display_name description s) where
  abbrev made : Community
  made = created_community env (proposed_id env selector s) path display_name description s

  abbrev chosen_moderators : List Bytes
  chosen_moderators = default_moderators_of s.config ++ s.crypto.identity.cid ∷ []

  made-IsStorable : IsStorable env made
  unfolding created_community
  made-IsStorable =
      let id = proposed_id-IsCleanId env selector s in
      let plain =
        IsTrimmed-solid (proposed_id env selector s)
          (id_solid (proposed_id env selector s) id.letters) in
      let cid = trim_copy s.crypto.identity.cid in
      let read = split_csv-join_csv_twice chosen_moderators cid w.no_comma in
      record {
        id = plain;
        clean = id.clean;
        named = id.filled;
        name = titled-IsTrimmed (proposed_id env selector s) display_name id w.name;
        about = described-IsTrimmed description w.about;
        key =
            derive_vault_key-IsTrimmed s.config.passphrase
              (text "community:" ++ proposed_id env selector s);
        psz = w.psz;
        peers = w.peers;
        store = w.store;
        post_value = floor-IsInt64 s.config.minimum_post_value w.post_value;
        post_value_least = floor_least (pos 0) s.config.minimum_post_value;
        reward = reward_fits s.config.block_reward_units w.reward;
        reward_least = reward_least s.config.block_reward_units;
        confirmations = omega (arith, w.confirmations);
        confirmations_least = omega arith;
        flags = omega (arith, w.flags);
        flags_least = omega arith;
        listed = join_csv_again-IsTrimmed chosen_moderators w.no_comma w.no_newline;
        ordered = read.1;
        led = led_by cid (split_csv (join_csv chosen_moderators)) (
            read.0
            ∙ trimmed_values-last (default_moderators_of s.config) s.crypto.identity.cid w.signed);
      }

abbrev made_at : Env → Bytes → Bytes → Bytes → Service → Community
made_at env selector display_name description s =
    created_community env (proposed_id env selector s) (community_path env selector s) display_name
      description s

created_when_ok :
    (env : Env) (selector display_name description : Bytes) (s : Service)
    → (load_or_create_community_profile env none selector display_name description s).0.ok ≡ true
    → (load_or_create_community_profile env none selector display_name description s).1
      ≡ record s { community = made_at env selector display_name description s }
unfolding load_or_create_community_profile
created_when_ok env selector display_name description s ok = ground arith

path_kept :
    (env : Env) (selector : Bytes) (c : Community) (s : Service)
    → community_path env selector (record s { community = c }) ≡ community_path env selector s
unfolding community_path proposed_id resolve_data_path
path_kept env selector c s = refl

made_path :
    (env : Env) (selector display_name description : Bytes) (s : Service)
    → (made_at env selector display_name description s).profile_path ≡ community_path env selector s
unfolding created_community
made_path env selector display_name description s = refl

-- A community that has no file yet. When the name, the description and the default genesis
-- timestamp have no newlines and no spaces around them, the paths that are made for its peers and
-- its store have none either and are absolute and not empty, the configured minimum post value and
-- block reward are int64, the policy's confirmations and flags are below 2^63, the default
-- moderators and the own cid have no commas and no newlines, and the own cid is not just spaces:
-- where the community is created, the file that was written loads as the same community, whatever
-- name and description the second call gives.
pub load_or_create_community_profile_twice :
    (env : Env) (selector display_name description display_name' description' : Bytes) (s : Service)
    → IsPlain env selector display_name description s
    → (load_or_create_community_profile env none selector display_name description s).0.ok ≡ true
    → let t = (load_or_create_community_profile env none selector display_name description s).1 in
      load_or_create_community_profile env
        (some (community_text t.community))
        selector
        display_name'
        description'
        t
      ≡ (success (text "Loaded community profile: " ++ t.community.community_id), t)
unfolding load_or_create_community_profile
load_or_create_community_profile_twice env selector display_name description display_name'
      description' s w ok =
    let c = made_at env selector display_name description s in
    let t = record s { community = c } in
    let stored =
      made-IsStorable env selector display_name description (community_path env selector s) s w in
    rw
      (
        created_when_ok env selector display_name description s ok,
        load_or_create_community_profile,
        path_kept env selector c s,
        sym (made_path env selector display_name description s),
        parse_community_profile_file-community_text env c t stored,
      )
      refl
