-- ===== src/Lib.antt =====
-- The quicKFS server and client, modelled and proved.
--
-- quicKFS serves a directory over QUIC: a daemon (servers/linux/server-daemon) answers requests
-- with an export (crates/server-core), users and pairings (crates/auth) and messages
-- (crates/protocol); a client (crates/client-core) reads ahead and keeps ranges of files in a cache
-- (crates/cache).
--
-- Errors models ServerError of crates/server-core/src/lib.rs.
-- Locks models its advisory locks: Locks/Table the table of an export (first_conflict,
--   replace_owner_range, merge_owner_locks), Locks/Session the methods of ExportSession that use it
--   (get_lock, set_lock, flush, close, cleanup_locks). A waiting set_lock is the list of the tables
--   that it finds, one for each time it wakes.
-- Cache/Keys models assemble_range and the keys of crates/cache/src/lib.rs, Cache/Hot its
--   HotRangeCache. The loop of HotRangeCache::get runs on fuel, the length of the request and one
--   more: each round moves on by a byte at least.
-- Persistent models PersistentCache of crates/cache/src/lib.rs: Persistent/Store its state, the
--   files of its directory and the encodings (serde_json, SHA-256, hex) as interfaces, and the calls,
--   which pass the state on with a result; Persistent/Table the entries in memory with
--   evict_to_budget, Persistent/Commits the manifest and group commits, Persistent/Inserts
--   insert_entries, Persistent/Reads payloads, Persistent/Values and Persistent/Ranges what it stores
--   and answers, Persistent/Opening load_manifest and open. The loop of evict_to_budget has a turn
--   for each entry and one more: each turn that goes on removes an entry. Its other modules are
--   proofs: Persistent/Backing to Persistent/Histories what the entries' files hold, with
--   Persistent/Listings and Persistent/Invalidation for the invalidations; Persistent/Limits the
--   count and the budget; Persistent/Content, Persistent/Covers and Persistent/Faithful the bytes
--   of ranges; Persistent/Loading and Persistent/Reopening the manifest read back.
-- Prefetch models the read-ahead of crates/client-core/src/cached.rs: Prefetch/Blocks blocks_for and
--   prefetch_permits_for, Prefetch/Stream one PrefetchStream, Prefetch/Controller
--   SequentialPrefetcher. The loop of blocks_for runs on fuel, the length of the request, a block
--   and one more: each round moves on by a byte at least.
-- Protocol models crates/protocol/src/lib.rs: Protocol/Access and Protocol/Messages its data,
--   Protocol/Version the version word, Protocol/Frame frames. Serialisation (postcard) and
--   compression (zstd) are parameters.
-- Server models servers/linux/server-daemon/src/main.rs: Server/RateLimit AuthRateLimiter,
--   Server/Service what a request works on, Server/Login, Server/Transfer and Server/Handle the
--   function handle, Server/Views directory views in frames, Server/Config
--   validate_configuration. The export and the files of crates/auth are interfaces there.
-- Client models the network client. Client/Network has ClientError and the trait RemoteFilesystem of
--   crates/client-core/src/lib.rs and the network as an interface, Client/Directories its
--   list_directory_view_streamed. Client/Connection, Client/Calls and Client/Files model
--   ResilientFilesystem of crates/client-core/src/resilient.rs: reconnect_after, the calls that are
--   retried and those that are not with the handles that are opened again, and its methods, which
--   run one after another. Client/Rules, Client/Steps and Client/Methods carry what every step keeps
--   over to the methods; Client/Sessions runs any of them.
-- Accounts/Users models the users' file of crates/auth/src/lib.rs and its commands, on serde_json and
--   Argon2 as an interface; Accounts/Refinement has the map of names that the file stands for.
--   Accounts/Codes models format_code and normalize_pairing_code, on the text operations of the
--   standard library that they use: Accounts/Text has String::from_utf8_lossy and char::from,
--   Accounts/Trim str::trim.
-- Registry/Tables and Registry/Nodes model the node registry of crates/server-core/src/lib.rs with
--   reserve_node, remember, track_node, forget_nodes and the evictions, for one session.
--   acquire_session_permit has two turns, since an eviction frees the permit that the second takes.
-- Checks models limits and checks of crates/common/src/lib.rs and crates/server-core/src/lib.rs.
-- Examples applies the theorems to concrete inputs; Prelude holds what the modules share.
--
-- Numbers are natural, and the source's saturating, checked and wrapping operations are written out;
-- usize has 64 bits. Identifiers, addresses and bytes are numbers, durations are in nanoseconds.
-- Not modelled: the host filesystem, the network, timeouts and the panics of tasks; calls of one
-- client that overlap; sessions that share nodes, renames and removals in the node registry; the
-- memory cache and the queue of writes before the persistent one, its private directories and their
-- lock; the files of pairings and certificates; the programs and bindings of the clients.
pub mod Prelude
pub mod Errors
pub mod Protocol
pub mod Locks
pub mod Cache
pub mod Persistent
pub mod Prefetch
pub mod Registry
pub mod Server
pub mod Client
pub mod Accounts
pub mod Checks
pub mod Examples
