-- ===== src/Lib.antt =====
-- A server that runs user functions in Deno workers (crates/base, crates/sb_workers,
-- crates/sb_worker_context) and the module fetcher that finds their modules and npm packages
-- (crates/module_fetcher).
--
-- The server has a main worker and a pool of user workers. The main worker's JavaScript calls the
-- ops of crates/sb_workers/lib.rs; an op sends a message to the pool, the task of
-- `create_user_worker_pool` in crates/base/src/worker_ctx.rs; the pool starts a thread for a
-- worker and hands requests to it. A worker imports modules through the module fetcher, whose
-- caches lie in SQLite files and whose npm packages are resolved from a lockfile or the registry.
--
-- The files and what they model:
--
-- Base: helpers that the others share. Text is the list of its code points (Strings), a HashMap or
--   BTreeMap an association list (Maps), a failing function returns a `Result` (Results), and one
--   that acts on the outside world takes and returns it (Effects).
-- Pool: crates/base/src/worker_ctx.rs and crates/sb_worker_context/essentials.rs. `handle` is the
--   body of the pool's loop, `serve` the loop; the tasks that it spawns are `advance_request` and
--   `advance_shutdown`, whose steps interleave with the messages (Pool.Tasks). Pool.Registry,
--   Pool.Invariant and Pool.Drain have the theorems on messages and tasks; Pool.Thread is the
--   `select!` of a worker's thread with its life time timer and its last second.
-- Ops: crates/sb_workers/lib.rs. Ops.Worker has the ops that create, call and stop a worker,
--   Ops.Request the op that builds a request, Ops.Stream the streams of bodies with the channel
--   of capacity 1 behind a request's body, and Ops.Channel the transfer of a body as a sequence of
--   writes, a shutdown, the loss of the sender and polls.
-- CacheDb: crates/module_fetcher/src/cache/cache_db.rs: opening a cache, the policy for failures and
--   the version that the file carries. SQLite is a parameter.
-- AuthTokens: crates/module_fetcher/src/auth_tokens.rs.
-- Npm: crates/module_fetcher/src/npm. Npm.Versions is resolution/common.rs (with Npm.Best, the loop
--   that it shares with the snapshot); Npm.Id the ids of resolution/mod.rs and their text;
--   Npm.CopyIndex and Npm.Snapshot are resolution/snapshot.rs, Npm.Snapshot.Lockfile its
--   `from_lockfile`; Npm.Dependencies is args/package_json.rs and `dependencies_as_entries` of
--   registry.rs; Npm.Cache is the folders of cache.rs with the URLs of their files, Npm.MixedCase
--   the folders of names with capitals, Npm.Download the downloads, with util/cache_setting.rs and
--   the check of tarball.rs, and Npm.Tarball the unpacking of a tarball: the files on disk are a map
--   from canonical paths to contents.
--   Npm.Graph is resolution/graph.rs: the nodes and their resolved ids (Npm.Graph), the paths
--   (Paths), the resolver's steps (Resolver, Find, Peers, Ancestors, Pending), the package ids of
--   nodes (PackageIds), and the graph of a snapshot and the snapshot of a graph (FromSnapshot,
--   IntoSnapshot). The node id of a path and its linked descendants are shared and change, so that a
--   path names a cell of the resolver's state. A node's `u64` hash is a function of what is fed to
--   the hasher, a parameter, so that two ids may have one hash. The children of a node and the roots
--   are kept in the order of a BTreeMap.
--   Npm.Resolution is `NpmResolution` of resolution/mod.rs: its operations take the snapshot and the
--   lockfile and give them back; the update queue lets one of them in at a time. Npm.Graph.Sound and
--   Npm.Graph.Fit have the invariants of the graph, step by step.
-- Node: the specifiers of crates/module_fetcher/src/node/mod.rs.
--
-- An Examples file holds concrete runs, and instances of the theorems with the parameters
-- instantiated.
--
-- Conventions. `unwrap` and `assert!` are results of their own (`panicked`, `none`, the constructors
-- of `GraphError`). `usize` counters of copies and keys count objects in memory and are natural
-- numbers. What third-party crates do is a parameter with its documented behaviour as a named
-- hypothesis: versions and requirements of deno_graph (`Semver`), the combinators of monch
-- (`Monch`, `MonchLaws`), base32 (`Base32Laws`), the percent-encoding of URLs (`UrlLaws`), SQLite.
-- Without a hypothesis stay UUIDs (`Uuids`), header names of hyper (`HeaderTypes`), the entries of
-- gzip and tar archives, the file system's answers and the registry. Lowercase is that of ASCII.
--
-- Fuel. `get_resolved_package_version_and_info` and `tag_to_version_info` call one another and run
-- on fuel, of which 2 is enough: the tag "latest" of @types/node stands for a range, which has no
-- tag. The parser of ids runs on twice the length of its text and 2: each of its rounds reads a
-- character or ends a list of peers. The digits of a number take the number and one. The graph of
-- a snapshot takes one call more than there are packages, the package id of a node one more than
-- there are nodes, and the snapshot of a graph as many rounds as there are nodes. The traversal of
-- `resolve_pending` and the descent along linked descendants run on fuel that the caller gives;
-- what is proved of them holds for any.
--
-- Not modelled: V8 and the runtime around it, sockets, files and SQL, the forwarding of a
-- request's bytes over the socket pair of a worker, the npm registry client and installer, the
-- rest of Node's resolution, the file fetcher, the other caches, and the configuration file.
pub mod Base
pub mod AuthTokens
pub mod CacheDb
pub mod Node
pub mod Npm
pub mod Ops
pub mod Pool
