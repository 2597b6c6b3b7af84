-- ===== src/Crypto/Engine.antt =====
-- The identity, its vault and its backups (src/core/crypto/crypto.cpp).
use got_soup.Prelude.{
  Bytes, Bool, true, false, ◌||◌, not, [], ◌∷◌, ◌++◌, ◌==◌, is_empty, if◌then◌else◌, nat_eq,
  bytes_eq, text, Option, none, some, take,
}
use got_soup.Prelude.Int.{ℤ, pos}
use got_soup.Prelude.Dict.{get_or, has}
use got_soup.Model.{Outcome, success, failure}
use got_soup.Codec.{to_hex, from_hex}
use got_soup.Crypto.Streams.{
  Identity, CryptoEngine, hash_bytes, derive_vault_key, xor_stream, parse_key_values,
}

unfoldable pub parse_identity : Bytes → Identity
unfolding parse_key_values
parse_identity plain =
    let values = parse_key_values plain in
    record {
      public_key = get_or (text "public_key") values [];
      private_key = get_or (text "private_key") values [];
      cid = get_or (text "cid") values [];
    }

-- one `out << key << "=" << value << "\n"`
abbrev pub key_line : Bytes → Bytes → Bytes → Bytes
key_line key value rest = key ++ (b'=' ∷ (value ++ (b'\n' ∷ rest)))

unfoldable pub serialize_identity : Identity → Bytes
serialize_identity i =
    key_line (text "public_key") i.public_key
      (key_line (text "private_key") i.private_key (key_line (text "cid") i.cid []))

-- `private_key.empty() || public_key.empty() || cid.empty()`
unfoldable pub is_incomplete : Identity → Bool
is_incomplete i = is_empty i.private_key || is_empty i.public_key || is_empty i.cid

-- what `persist_identity_vault` writes
unfoldable pub vault_text : CryptoEngine → Bytes → Bytes
unfolding derive_vault_key xor_stream serialize_identity
vault_text k passphrase =
    to_hex (xor_stream (serialize_identity k.identity) (derive_vault_key passphrase k.app_data_dir))

-- `written` is how the creation of the directory and the write end
unfoldable pub persist_identity_vault : Outcome → CryptoEngine → Outcome
persist_identity_vault written k =
    if is_empty k.app_data_dir
    then failure (text "Identity vault persistence failed: app_data_dir is not configured.")
    else written

-- of the contents of the vault file; the identity is replaced before it is looked at
unfoldable pub unlock_from_vault : Bytes → ℤ → Bytes → CryptoEngine → Outcome × CryptoEngine
unlock_from_vault file now passphrase k =
    let encrypted = from_hex file in
    let found =
      parse_identity (xor_stream encrypted (derive_vault_key passphrase k.app_data_dir)) in
    if is_empty file
    then (failure (text "Identity vault exists but is empty."), k)
    else if is_empty encrypted
    then (failure (text "Compatibility identity vault format is invalid."), k)
    else if is_incomplete found
    then (
      failure (text "Identity vault could not be parsed. Wrong passphrase or corrupt file."),
      record k { identity = found },
    )
    else (
      success (text "Identity vault unlocked."),
      record k { identity = found; ready = true; last_unlocked_unix = now },
    )

-- of 32 random bytes
unfoldable pub generate_identity : Bytes → CryptoEngine → CryptoEngine
unfolding hash_bytes
generate_identity random k =
    let private_key = to_hex random in
    let public_key = hash_bytes (private_key ++ text ":public") in
    record k {
      identity = record {
        public_key = public_key;
        private_key = private_key;
        cid = text "cid-" ++ take 20 (hash_bytes public_key);
      };
    }

-- what `export_identity_backup` writes
unfoldable pub backup_text : CryptoEngine → Bytes → Bytes → Bytes
unfolding derive_vault_key xor_stream serialize_identity
backup_text k password salt = key_line (text "format") (text "got-soup-key-backup-v1") (
    key_line (text "salt") salt (
      key_line (text "cid") k.identity.cid (
        key_line (text "public_key") k.identity.public_key (
          key_line (text "cipher")
            (to_hex (
              xor_stream (serialize_identity k.identity)
                (derive_vault_key password (text "backup:" ++ salt))))
            []))))

unfoldable pub export_identity_backup : Outcome → Bytes → Bytes → Bytes → CryptoEngine → Outcome
export_identity_backup written path password salt k =
    if not k.ready
    then failure (text "Key export failed: identity is not ready.")
    else if is_empty path
    then failure (text "Key export failed: backup path is required.")
    else if is_empty password
    then failure (text "Key export failed: backup password is required.")
    else if is_empty salt
    then failure (text "Key export failed: salt is required.")
    else written

-- what is read from a backup, or why it is refused
pub data Decoded : Type 0 where
  identity : Identity → Decoded
  refused : Bytes → Decoded

unfoldable pub decoded_cipher : Bytes → Bytes → Decoded
decoded_cipher cipher key =
    let found = parse_identity (xor_stream cipher key) in
    if is_empty cipher
    then refused (text "cipher payload is invalid.")
    else if is_incomplete found
    then refused (text "wrong password or corrupt backup.")
    else identity found

-- the part that `verify_identity_backup` and `import_identity_backup` share
unfoldable pub decode_backup : Bytes → Bytes → Decoded
decode_backup file password =
    let values = parse_key_values file in
    if is_empty file
    then refused (text "backup file could not be read.")
    else if not (get_or (text "format") values [] == text "got-soup-key-backup-v1")
    then refused (text "unsupported backup format.")
    else if not (has (text "salt") values) || not (has (text "cipher") values)
    then refused (text "missing salt/cipher fields.")
    else decoded_cipher (from_hex (get_or (text "cipher") values []))
        (derive_vault_key password (text "backup:" ++ get_or (text "salt") values []))

unfoldable pub verify_identity_backup : Bytes → Bytes → Bytes → Outcome
verify_identity_backup file path password =
    if is_empty path
    then failure (text "Key backup verification failed: backup path is required.")
    else if is_empty password
    then failure (text "Key backup verification failed: backup password is required.")
    else elim (decode_backup file password) [
      | identity _ ↦ success (text "Key backup verification completed.")
      | refused why ↦ failure (text "Key backup verification failed: " ++ why)
    ]

-- from `identity_ = std::move(imported)` on
unfoldable pub adopt : Outcome → ℤ → Identity → CryptoEngine → Outcome × CryptoEngine
unfolding persist_identity_vault
adopt written now found k =
    let replaced = record k { identity = found } in
    if not (persist_identity_vault written replaced).ok
    then (persist_identity_vault written replaced, replaced)
    else (
      success (text "Key import completed."),
      record replaced { ready = true; last_unlocked_unix = now },
    )

unfoldable pub import_identity_backup :
    Outcome → Bytes → ℤ → Bytes → Bytes → Bytes → CryptoEngine → Outcome × CryptoEngine
import_identity_backup written file now path password local_passphrase k =
    if is_empty path
    then (failure (text "Key import failed: backup path is required."), k)
    else if is_empty password
    then (failure (text "Key import failed: backup password is required."), k)
    else if is_empty local_passphrase
    then (failure (text "Key import failed: local passphrase is required."), k)
    else elim (decode_backup file password) [
      | identity found ↦ adopt written now found k
      | refused why ↦ (failure (text "Key import failed: " ++ why), k)
    ]

unfoldable pub lock_identity : ℤ → CryptoEngine → Outcome × CryptoEngine
lock_identity now k = if not k.ready then (success (text "Wallet already locked."), k) else (
  success (text "Wallet locked."),
  record k {
    ready = false;
    identity = record k.identity { private_key = [] };
    last_locked_unix = now;
  },
)

unfoldable pub unlock_identity : Bytes → ℤ → Bytes → CryptoEngine → Outcome × CryptoEngine
unfolding unlock_from_vault
unlock_identity file now passphrase k =
    if is_empty passphrase
    then (failure (text "Wallet unlock failed: passphrase is required."), k)
    else unlock_from_vault file now passphrase k

unfoldable pub nuke_identity : Outcome → Bytes → ℤ → Bytes → CryptoEngine → Outcome × CryptoEngine
unfolding generate_identity persist_identity_vault
nuke_identity written random now local_passphrase k =
    let fresh = generate_identity random k in
    if is_empty local_passphrase
    then (failure (text "Nuke key failed: local passphrase is required."), k)
    else if not (persist_identity_vault written fresh).ok
    then (persist_identity_vault written fresh, fresh)
    else (
      success (text "Identity key nuked and replaced."),
      record fresh { ready = true; last_unlocked_unix = now; last_locked_unix = pos 0 },
    )

-- of a new identity, once it was generated
unfoldable pub keep_new_identity : Outcome → ℤ → CryptoEngine → Outcome × CryptoEngine
keep_new_identity written now fresh =
    if not (persist_identity_vault written fresh).ok
    then (persist_identity_vault written fresh, fresh)
    else (
      success (text "Identity vault created."),
      record fresh { ready = true; last_unlocked_unix = now },
    )

-- `created` is how the creation of the directory ends; `vault` is the vault file, if there is one
unfoldable pub initialize :
    Outcome
    → Outcome
    → Option Bytes
    → Bytes
    → ℤ
    → Bytes
    → Bytes
    → CryptoEngine
    → Outcome × CryptoEngine
unfolding keep_new_identity
initialize created written vault random now app_data_dir passphrase k =
    let k' = record k { app_data_dir = app_data_dir; ready = false } in
    if is_empty passphrase
    then (failure (text "Passphrase is required to unlock the local identity vault."), k')
    else if not created.ok
    then (created, k')
    else elim vault [
      | some file ↦ unlock_from_vault file now passphrase k'
      | none ↦ keep_new_identity written now (generate_identity random k')
    ]
