-- ===== src/Crypto/Backup.antt =====
-- Backups of the identity: what is exported can be imported (src/core/crypto/crypto.cpp).

use got_soup.Prelude.{
  ℕ, zero, suc, ◌+◌, ◌/◌, ◌%◌, ◌<◌, Bytes, true, false, List, [], ◌∷◌, ◌++◌, ltb, ◌==◌, nat_eq,
  bytes_eq, is_empty, ◌≡◌, refl, ◌∙◌, ap, All, All-append, arith, text, some, length, Bool-cases,
  inl, inr,
}
use got_soup.Prelude.Int.{ℤ}
use got_soup.Prelude.Bits.{bit_xor_twice, bit_xor-lt}
use got_soup.Prelude.Dict.{Dict, insert, lookup}
use got_soup.Model.{Outcome, success}
use got_soup.Codec.{hex_digit, to_hex, from_hex, split_at}
use got_soup.Codec.Hex.{AreBytes, from_hex-to_hex, is_hex_byte, to_hex-digits}
use got_soup.Codec.Lines.{split_at_piece}
use got_soup.Crypto.Streams.{
  Identity, CryptoEngine, fnv, hex_number, hash_bytes, derive_vault_key, byte_at, xor_from,
  xor_stream, split_first, keep_line, keep_lines, parse_key_values,
}
use got_soup.Crypto.Engine.{
  parse_identity, key_line, serialize_identity, is_incomplete, backup_text, decoded_cipher,
  decode_backup, persist_identity_vault, adopt, identity, import_identity_backup,
}

byte_at-lt : (i : ℕ) (key : Bytes) → AreBytes key → byte_at i key < 256
byte_at-lt i [] h = omega arith
byte_at-lt zero (c ∷ cs) (h, hs) = h
byte_at-lt (suc i) (c ∷ cs) (h, hs) = byte_at-lt i cs hs

xor_from_twice : (i : ℕ) (key b : Bytes) → xor_from i key (xor_from i key b) ≡ b
unfolding xor_from
xor_from_twice i key [] = refl
xor_from_twice i key (c ∷ cs) =
    rw (bit_xor_twice c (byte_at (i % length key) key), xor_from_twice (i + 1) key cs) refl

AreBytes-xor_from :
    (i : ℕ) (key b : Bytes) → AreBytes key → AreBytes b → AreBytes (xor_from i key b)
unfolding xor_from
AreBytes-xor_from i key [] k h = tt
AreBytes-xor_from i key (c ∷ cs) k (h, hs) = (
  bit_xor-lt c (byte_at (i % length key) key) h (byte_at-lt (i % length key) key k),
  AreBytes-xor_from (i + 1) key cs k hs,
)

xor_stream_twice : (key b : Bytes) → xor_stream (xor_stream b key) key ≡ b
unfolding xor_stream
xor_stream_twice [] b = refl
xor_stream_twice (k ∷ key) b = xor_from_twice 0 (k ∷ key) b

AreBytes-xor_stream : (key b : Bytes) → AreBytes key → AreBytes b → AreBytes (xor_stream b key)
unfolding xor_stream
AreBytes-xor_stream [] b k h = h
AreBytes-xor_stream (c ∷ key) b k h = AreBytes-xor_from 0 (c ∷ key) b k h

AreBytes-hex_number : (f n : ℕ) → AreBytes (hex_number f n)
unfolding hex_number
AreBytes-hex_number zero n = tt
AreBytes-hex_number (suc f) n = elim (Bool-cases (ltb n 16)) [
  | inl small ↦ rw small (ground arith)
  | inr large ↦ rw large (
      All-append (λ (c : ℕ). c < 256) (hex_number f (n / 16)) (hex_digit (n % 16) ∷ [])
        (AreBytes-hex_number f (n / 16)) (unfold hex_digit in ground arith))
]

AreBytes-derive_vault_key : (p s : Bytes) → AreBytes (derive_vault_key p s)
unfolding derive_vault_key hash_bytes
AreBytes-derive_vault_key p s =
    AreBytes-hex_number 16
      (fnv 1469598103934665603 (p ++ (text "::" ++ (s ++ text "::argon2id-placeholder"))))

xor_stream-filled : (key b : Bytes) → is_empty b ≡ false → is_empty (xor_stream b key) ≡ false
unfolding xor_stream xor_from
xor_stream-filled [] b h = h
xor_stream-filled (c ∷ key) [] h = h
xor_stream-filled (c ∷ key) (x ∷ b) h = refl

-- Lines `key=value`, as the vault and the backups have them.
abbrev key_lines : List (Bytes × Bytes) → Bytes
key_lines [] = []
key_lines ((k, v) ∷ fs) = key_line k v (key_lines fs)

abbrev pub insert_all : List (Bytes × Bytes) → Dict Bytes Bytes → Dict Bytes Bytes
insert_all [] d = d
insert_all ((k, v) ∷ fs) d = insert_all fs (insert k v d)

abbrev pub HasNo : ℕ → Bytes → Type 0
HasNo c = All (λ b. (b == c) ≡ false)

abbrev AreLines : List (Bytes × Bytes) → Type 0
AreLines [] = Unit
AreLines ((k, v) ∷ fs) = HasNo b'=' k × HasNo b'\n' k × HasNo b'\n' v × AreLines fs

pub split_first_piece :
    (k v : Bytes) → HasNo b'=' k → split_first b'=' (k ++ (b'=' ∷ v)) ≡ some (k, v)
unfolding split_first
split_first_piece [] v h = refl
split_first_piece (c ∷ k) v (h, hs) = rw (h, split_first_piece k v hs) refl

pub HasNo-line : (k v : Bytes) → HasNo b'\n' k → HasNo b'\n' v → HasNo b'\n' (k ++ (b'=' ∷ v))
HasNo-line [] v h g = (refl, g)
HasNo-line (c ∷ k) v (h, hs) g = (h, HasNo-line k v hs g)

line_bracket : (k v rest : Bytes) → key_line k v rest ≡ (k ++ (b'=' ∷ v)) ++ (b'\n' ∷ rest)
line_bracket [] v rest = refl
line_bracket (c ∷ k) v rest = ap (λ (b : Bytes). c ∷ b) (line_bracket k v rest)

keep_lines-key_lines :
    (fs : List (Bytes × Bytes)) (d : Dict Bytes Bytes)
    → AreLines fs
    → keep_lines (split_at b'\n' (key_lines fs)) d ≡ insert_all fs d
unfolding keep_lines keep_line split_at split_first
keep_lines-key_lines [] d h = refl
keep_lines-key_lines ((k, v) ∷ fs) d (eq, nk, nv, hs) =
    ap (λ (b : Bytes). keep_lines (split_at b'\n' b) d) (line_bracket k v (key_lines fs))
    ∙ ap (λ (ls : List Bytes). keep_lines ls d)
        (split_at_piece b'\n' (k ++ (b'=' ∷ v)) (key_lines fs) (HasNo-line k v nk nv))
    ∙ rw (keep_lines, keep_line, split_first_piece k v eq)
        (keep_lines-key_lines fs (insert k v d) hs)

parse_key_values-key_lines :
    (fs : List (Bytes × Bytes)) → AreLines fs → parse_key_values (key_lines fs) ≡ insert_all fs []
unfolding parse_key_values
parse_key_values-key_lines fs h = keep_lines-key_lines fs [] h

-- A text that a line can carry.
abbrev pub IsValue : Bytes → Type 0
IsValue v = AreBytes v × HasNo b'\n' v

-- An identity that its text form can carry.
pub record IsWritable (i : Identity) : Type 0 where
  pub public_value : IsValue i.public_key
  pub private_value : IsValue i.private_key
  pub cid_value : IsValue i.cid
  pub complete : is_incomplete i ≡ false

abbrev identity_fields : Identity → List (Bytes × Bytes)
identity_fields i =
    ((text "public_key", i.public_key)
      ∷ (text "private_key", i.private_key)
      ∷ (text "cid", i.cid)
      ∷ [])

identity_lines : (i : Identity) → IsWritable i → AreLines (identity_fields i)
unfolding text
identity_lines i w = (
  ground arith,
  ground arith,
  w.public_value.1,
  (ground arith, ground arith, w.private_value.1, (ground arith, ground arith, w.cid_value.1, tt)),
)

parse_identity-serialize_identity :
    (i : Identity) → IsWritable i → parse_identity (serialize_identity i) ≡ i
unfolding parse_identity serialize_identity insert lookup text
parse_identity-serialize_identity i w =
    rw (parse_key_values-key_lines (identity_fields i) (identity_lines i w)) refl

AreBytes-key_line :
    (k v rest : Bytes) → AreBytes k → AreBytes v → AreBytes rest → AreBytes (key_line k v rest)
AreBytes-key_line [] v rest hk hv hr =
    (omega arith, All-append (λ (c : ℕ). c < 256) v (b'\n' ∷ rest) hv (omega arith, hr))
AreBytes-key_line (c ∷ k) v rest (h, hk) hv hr = (h, AreBytes-key_line k v rest hk hv hr)

abbrev AreTexts : List (Bytes × Bytes) → Type 0
AreTexts [] = Unit
AreTexts ((k, v) ∷ fs) = AreBytes k × AreBytes v × AreTexts fs

AreBytes-key_lines : (fs : List (Bytes × Bytes)) → AreTexts fs → AreBytes (key_lines fs)
AreBytes-key_lines [] h = tt
AreBytes-key_lines ((k, v) ∷ fs) (hk, hv, hs) =
    AreBytes-key_line k v (key_lines fs) hk hv (AreBytes-key_lines fs hs)

AreBytes-serialize_identity : (i : Identity) → IsWritable i → AreBytes (serialize_identity i)
unfolding serialize_identity text
AreBytes-serialize_identity i w = AreBytes-key_lines (identity_fields i) (
  omega arith,
  w.public_value.0,
  (omega arith, w.private_value.0, (omega arith, w.cid_value.0, tt)),
)

hex_no_newline : (b : Bytes) → All (λ c. is_hex_byte c ≡ true) b → HasNo b'\n' b
hex_no_newline [] h = tt
hex_no_newline (c ∷ b) (h, hs) = (ground arith, hex_no_newline b hs)

-- The backup of an identity under a password and a salt, and what is read of it.
module _ (k : CryptoEngine) (password salt : Bytes) (w : IsWritable k.identity)
    (line : HasNo b'\n' salt) where
  abbrev key : Bytes
  key = derive_vault_key password (text "backup:" ++ salt)

  abbrev cipher : Bytes
  cipher = xor_stream (serialize_identity k.identity) key

  abbrev backup_fields : List (Bytes × Bytes)
  backup_fields =
      ((text "format", text "got-soup-key-backup-v1")
        ∷ (text "salt", salt)
        ∷ (text "cid", k.identity.cid)
        ∷ (text "public_key", k.identity.public_key)
        ∷ (text "cipher", to_hex cipher)
        ∷ [])

  backup_lines : AreLines backup_fields
  unfolding text
  backup_lines = (
    ground arith,
    ground arith,
    ground arith,
    (
      ground arith,
      ground arith,
      line,
      (
        ground arith,
        ground arith,
        w.cid_value.1,
        (
          ground arith,
          ground arith,
          w.public_value.1,
          (ground arith, ground arith, hex_no_newline (to_hex cipher) (to_hex-digits cipher), tt),
        ),
      ),
    ),
  )

  cipher_read : from_hex (to_hex cipher) ≡ cipher
  cipher_read = from_hex-to_hex cipher (
      AreBytes-xor_stream key (serialize_identity k.identity)
        (AreBytes-derive_vault_key password (text "backup:" ++ salt))
        (AreBytes-serialize_identity k.identity w))

  cipher_filled : is_empty cipher ≡ false
  cipher_filled =
      xor_stream-filled key (serialize_identity k.identity) (unfold serialize_identity text in refl)

  decoded_cipher-cipher : decoded_cipher cipher key ≡ identity k.identity
  unfolding decoded_cipher
  decoded_cipher-cipher =
      rw
        (
          cipher_filled,
          xor_stream_twice key (serialize_identity k.identity),
          parse_identity-serialize_identity k.identity w,
          w.complete,
        )
        refl

  pub decode_backup-backup_text :
      decode_backup (backup_text k password salt) password ≡ identity k.identity
  unfolding decode_backup backup_text
  decode_backup-backup_text =
      rw (parse_key_values-key_lines backup_fields backup_lines)
        (unfold insert lookup text in rw cipher_read decoded_cipher-cipher)

-- A backup that was exported under a password and a salt without a newline, of an identity whose
-- texts are bytes without newlines and not empty, can be imported by any engine with that password,
-- from a path, under a local passphrase and into a data directory that are not empty, nor is the
-- password: when the vault is written, the engine has the identity and is ready.
pub import_identity_backup-backup_text :
    (written : Outcome) (now : ℤ) (path password local_passphrase salt : Bytes)
    (k other : CryptoEngine)
    → IsWritable k.identity
    → HasNo b'\n' salt
    → is_empty path ≡ false
    → is_empty password ≡ false
    → is_empty local_passphrase ≡ false
    → is_empty other.app_data_dir ≡ false
    → written.ok ≡ true
    → import_identity_backup written
        (backup_text k password salt)
        now
        path
        password
        local_passphrase
        other
      ≡ (
        success (text "Key import completed."),
        record other { identity = k.identity; ready = true; last_unlocked_unix = now },
      )
unfolding import_identity_backup adopt persist_identity_vault
import_identity_backup-backup_text written now path password local_passphrase salt k other w line p
      q l d ok =
    rw (p, import_identity_backup, q, l, decode_backup-backup_text k password salt w line, d, ok)
      refl
