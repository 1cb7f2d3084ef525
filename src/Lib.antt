-- ===== src/Lib.antt =====
-- A verification library for the supervisor of vaultwarden-hummingbird (supervisor/src), the PID 1 that
-- boots Tailscale and vaultwarden in one container and keeps their state in an S3 bucket.
--
-- Parts and files
--   Base, Text, BTree   shared: tests on numbers, lists and results; texts as lists of code points
--     with what Rust's `str` does to them (split, trim, lines, parse, UTF-8); `BTreeMap` as pairs.
--   Config   supervisor/src/config: Schema (env/schema.rs), Knobs (env/knobs.rs), Dotenv (dotenv.rs),
--     Resolve (sync/spec.rs, sync/resolve.rs, backup/resolve.rs, dburl.rs), Merge (env/merge.rs) and
--     the records that they fill, Spec. `Merge.build` calls `resolve_sync` and `resolve_backup`.
--   Backup   supervisor/src/runtime/backup: Manifest (manifest.rs), Lineage (lineage.rs), Bucket
--     (tools.rs, prune.rs), Tick (dump.rs with check.rs, staging.rs and unchanged.rs) and Restore
--     (restore.rs, sqlite/restore.rs). They run in World: the bucket, the live database, the sidecar,
--     the retained and the staged dump, and the answers that requests are going to get.
--   Boot     supervisor/src/boot.rs: the phases, over what the calls of each phase return. `Restored`
--     outcomes are those of Backup.Restore, the configuration is that of Config.Merge.
--   Gate     supervisor/src/runtime/gate: Limiter (limiter.rs and the accept loop of server.rs), Server
--     (the request head, the verdict of server.rs, the cached probe of liveness.rs).
--   Services   supervisor/src/runtime/services/vaultwarden.rs and process/env.rs: Grant, the environment
--     of the vaultwarden child, on the child keys that Config.Dotenv routes.
--   Sync     supervisor/src/runtime/sync: Synced and Local (synced.rs), Manifest (manifest.rs), Cache
--     (cache.rs), and of state.rs Objects (the object keys), Push (`sync_state_at`), Pull, Recover and
--     Restore (`restore_state_at` with `reconcile_objects`). They run in Sync.World: the bucket, the
--     files under /data, the supervisor's own files there, and the answers. Client is the S3 client as
--     they call it, each operation one request.
--   S3       supervisor/src/s3/client.rs: the loops behind such a request, Requests (`retrying`),
--     Download (`get`), Multipart (`put_multipart`) and Listing (`list`), over what the HTTP library
--     returns for each attempt, part or page.
--   Maintenance  supervisor/src/runtime/maintenance.rs: one task of `run`, over the rounds of its
--     loop, each with its clock readings and with whether a stop request is seen.
--   Util     supervisor/src/util: Hash (hash.rs).
--
-- Conventions
--   A request to the bucket is one step with one answer out of a list given in advance: served,
--   refused (not done), or lost (done, but reported as an error). Where the list ends all later
--   requests are refused, so a theorem over all lists covers a run that is cut short anywhere. A
--   stop request that the client sees by itself is a refused request. An operation on local files is
--   done or not done in the restore, and is a request like the others in the cycle; one that is not
--   done leaves its file as it was. Numbers are unbounded, and where the source parses or counts
--   in a `u64` or a `u16` the bound is written out. Durations are whole seconds. No loop needs fuel:
--   all run over a list or a text, or count down a limit that the source sets itself (3 attempts,
--   1024 pages, 10,000 parts). What is only logged is left out.
--
-- Not in the repository, and so parameters: sqlite's integrity check (`opens`, in Backup.Restore), the
--   dotenv parser (`entries`, in Config.Dotenv), SHA-256 (`digest`, in Util.Hash), the tag that
--   the bucket gives a part (`etag`, in S3.Multipart), the HTTP library's replies (S3), the times that the bucket lists (`modified`, in Sync.World), the process environment
--   (`lookup`), the clock and the probe's answer (Gate.Server).
--
-- Not modelled: the signing of requests and the region of an endpoint in s3/client.rs, sockets,
--   processes and their reaping (runtime/process), the final flushes and the drain of the maintenance
--   reactor and its waits, the services' command lines, and the utilities other than hashing. A file
--   that changes while a sync run reads it, empty folders and the temporary files of a download in
--   Sync (S3.Download has them) are left out too.
pub mod BTree
pub mod Backup
pub mod Base
pub mod Boot
pub mod Config
pub mod Gate
pub mod Maintenance
pub mod S3
pub mod Services
pub mod Sync
pub mod Text
pub mod Util
