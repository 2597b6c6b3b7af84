-- ===== src/Lib.antt =====
-- Got-Soup: the core of a peer-to-peer recipe forum with a reward ledger (src/core).
--
-- The program keeps a log of signed events. Store (src/core/storage/store.cpp) assigns the events to the
-- blocks of a timeline, hashes the blocks, and replays all events to rebuild the reward ledger and the
-- views. The modules follow these parts; a definition has the name of the function it stands for, or says
-- in a comment which lines of a longer function it is.
--
-- - Prelude: names of the library, Boolean tests, byte strings, int64 arithmetic that wraps around,
--   decimal numbers as from_chars reads and std::to_string prints them, maps as association lists, sorting.
-- - Canonical (src/core/util/canonical.cpp): the text form of payloads, trimming, searching.
-- - Model (src/core/model/types.hpp): events.
-- - Codec (store.cpp): hex, names of event kinds, the lines of the event log, lists of event ids.
-- - Chain (store.hpp, store.cpp): block records and the index from events to blocks.
-- - BlockLog (store.cpp): the lines of the block log.
-- - Timeline (store.cpp): the genesis block, reserved slots, and assign_unassigned_events_to_blocks.
-- - Merkle, Hashing (store.cpp): compute_merkle_root, recompute_block_hashes, and the tests on blocks that
--   backtest_validate makes, as the number of issues that they count.
-- - ReplayOrder (store.cpp): the order in which materialize_views replays events.
-- - Ledger (store.cpp, src/core/util/hash.cpp): the economic pass of materialize_views, which settles the
--   claims of block rewards, the transfers and the value of posts, one event at a time, on the members of
--   Store that it rebuilds.
-- - Moderation (store.cpp): moderation events, the authority that they need, and the policy.
-- - Views (store.cpp): the second loop of materialize_views, which rebuilds recipes, threads and replies and
--   hands moderation events to Moderation, then the clean-up that removes what is hidden, and the
--   confirmation metrics.
-- - Store (store.hpp, store.cpp): the whole state, append_event, routine_block_check with pruning, rollback,
--   checkpoints, materialize_views and the queries on rewards, each composed of the modules above as the
--   source composes it.
-- - Backtest (store.cpp): backtest_validate as the number of issues that it counts over the store.
-- - PeerNode (src/core/p2p/node.cpp): the peers, the events that the node has seen, and its queue; a run is any
--   sequence of calls.
-- - Views/Queries (store.cpp): query_recipes, query_threads, query_replies.
-- - Sha256 (src/core/util/hash.cpp): the program's own SHA-256 for builds without libsodium.
-- - Crypto (src/core/crypto/crypto.cpp): the build without libsodium: hashes, identities, the vault, backups,
--   import, locking and the replacement of the key.
-- - Service (src/core/service/alpha_service.cpp): the state of AlphaService and what its operations share
--   (State: guards, make_event, append_locally_and_queue), posts, names, transfers, moderation commands, the
--   network, the wallet, the profile, its state file (KeyValues, ProfileFile), communities and
--   their files (Csv, Communities), the set-up of the store for one (Configured), the claims of rewards with
--   their search for a proof of work, the tick, and remote events. Commands has the operations with which a
--   user announces an event, but those of the wallet, as one type.
--
-- Timeline makes the blocks and the index that ReplayOrder and Ledger read: Ledger takes the blocks and the
-- confirmed tip in its Context. Views takes the ids that Ledger found invalid. Canonical reads the payloads
-- for Ledger, Moderation and Views. Service composes Store, PeerNode and Crypto: an operation either stops with a
-- result or announces an event, which publish makes, appends to the store, has the backtest look at, and queues.
--
-- Strings are lists of byte values. uint64 and int64 are ℕ and ℤ with the wrap-around written out where the
-- code computes with them; sizes in memory are ℕ. Overflow of int64, which C++ leaves undefined, wraps around
-- in the model. An unordered map or set is an association list in order of insertion: no modelled code depends
-- on its order. The hash (libsodium or the program's fallback) and the reward curve in long double arithmetic
-- are parameters. The loop of compute_merkle_root takes as fuel the number of leaves less one, which is enough
-- since every level has half as many; the zeros of the padding of SHA-256 have fuel 64, and fewer are needed;
-- all other loops are structural, and that of ensure_block_slots_until has the source's own bound.
-- The average rating, a double, is kept as its dividend and divisor.
--
-- The search for a proof of work takes the source's bound on the attempts as fuel. A call of the service sees an
-- Env: the clock, how writes end, the contents of files, random bytes, the proxies and four functions of
-- std::filesystem.
--
-- Not modelled: files and the wall clock (contents of files, how a write ends, and times are inputs; one call of
-- an operation sees one time), open of Store, the report of backtest_validate, in Crypto the
-- branches for libsodium and OpenSSL keys, in Service most of init and of use_community_profile, the
-- switches of the transports, the markers of a fresh genesis and the summaries, the daemon and the
-- graphical front ends.
pub mod Prelude
pub mod Canonical
pub mod Model
pub mod Codec
pub mod Chain
pub mod Ledger
pub mod ReplayOrder
pub mod Moderation
pub mod Views
pub mod Merkle
pub mod Timeline
pub mod Hashing
pub mod Crypto
pub mod PeerNode
pub mod Service
pub mod Sha256
pub mod Store
pub mod BlockLog
pub mod Backtest
mod Tests
