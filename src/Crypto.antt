-- ===== src/Crypto.antt =====
-- src/core/crypto/crypto.hpp and crypto.cpp: the identity, its vault and its backups, as they are built without
-- libsodium (GOT_SOUP_HAVE_SODIUM is not defined). The contents of files that are read, the bytes of the random
-- device, the clock and how a write ends are inputs. `from_hex` and `to_hex` are the same text as in store.cpp.
mod Streams
mod Engine
pub mod Backup
unfoldable pub use Streams.*
unfoldable pub use Engine.*
