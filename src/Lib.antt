-- ===== src/Lib.antt =====
-- garret, a Nix binary cache: clients push store paths to the Pusher, which stores their NARs in S3
-- and a row for each in SQLite, and nix substitutes them from the Puller.
--
-- The parts, and where they are modelled:
--   InFlight    crates/garret-server/src/inflight.rs. The map of the paths that are being uploaded
--               or deleted, and the quiesce gate. `State` is the struct of the same name; each
--               method runs under its mutex, so it is one function on the state. A `Claim` and a
--               guard are values, and dropping one is `drop_claim` or `drop_guard`. Interleavings of
--               tasks are lists of calls (InFlight/Exclusive).
--   Db          crates/garret-server/src/db.rs. `Database` holds the rows of the tables and the
--               usage counter; a function of the file that reads or changes rows has the
--               function of its name, the SQL written out over lists; Db/Prune has the recursive
--               query of `prunable` and the ordered batches of `delete_pruned`. The Puller's
--               probe is not modelled. The foreign keys' cascades are
--               `refs_without` and `pins_without`. A statement is atomic, since the Pusher has one
--               writer.
--   Deletion    crates/garret-pusher/src/deletion.rs. What a deletion claims, queues and releases.
--   Gc          crates/garret-pusher/src/gc.rs. The eviction pass; `others` is what other tasks do
--               while it waits for the database.
--               Gc/Sweep is the orphan sweep, and Gc/Timer the schedule of sweeps and passes.
--   Storage     crates/garret-server/src/storage.rs. The blobs of a listing and the orphans among
--               them; Storage/Budget is the memory budget of uploads in permits, and Storage/Stream
--               is `put_streaming`: what is read of a body, the parts and what S3 is left with.
--   Fsck        crates/garret-pusher/src/fsck.rs. Classifying and repairing rows, between the steps
--               of other tasks.
--   Verify      crates/garret-pusher/src/verify.rs. The check of a NAR (`Checker`) and the stream that
--               passes it through (`VerifiedNar`), with the check inline or on a thread of its own;
--               Verify/Stored puts it in front of `put_streaming`.
--   Browse      crates/garret-server/src/browse.rs. The listing by cursor and the referrers.
--   Auth        crates/garret-server/src/auth.rs. The policy of an issuer on the claims of a token;
--               Auth/Keys is the cache of an issuer's keys with the floor on fetching them, and
--               Auth/Bearer is the authentication of a request, from its header to its status.
--   Puller      crates/garret-puller/src/main.rs. The last-accessed bumps that wait for a flush.
--   Narinfo     crates/garret-server/src/narinfo.rs. The spelling of hashes, the signed fingerprint
--               and signing.
--   Upload      crates/garret-pusher/src/main.rs. The upload and negotiation handlers, between the
--               steps of other tasks. Upload/Store is the check and the store of the NAR that
--               `store_upload` calls, made of Verify and Storage/Stream.
--   Admin       crates/garret-pusher/src/admin.rs. The commands of the admin socket: delete, by
--               path and by pusher, prune, resign, status and the dispatch of a request.
--   StorePath   crates/garret-common/src/lib.rs and wire.rs, the blob keys of
--               crates/garret-server/src/storage.rs, and the reading of a preamble in
--               crates/garret-pusher/src/main.rs. Store path names, base32, file names and the
--               framing of an upload.
--   Common      Boolean tests on numbers, lists, texts as bytes, integers and results.
--
-- The parts share two things, the in-flight map and the database. An upload claims its path before it
-- stores the blob and inserts the row, and `with_store` puts the checked stream into its environment; GC, an admin delete and prune claim a path for deletion before
-- its row goes and hold the claim until the blob is gone.
--
-- Numbers. Times and sizes are `i64` in the program; they are natural numbers here, and a subtraction
-- on one side of a comparison is an addition on the other. The program itself sets none below zero,
-- but a client may send a preamble with a negative NAR size, and that case is left out. The usage
-- counter is an integer. The length of a preamble keeps its 32 bits.
--
-- Loops are structural, but for the eviction pass: its fuel is one round for each row and one more,
-- since a round that does not end the pass removes a row; the search behind prune, with fuel for the
-- objects; the loop over the parts of an upload, with fuel for the bytes of its body, and the loops
-- that wait in it, with fuel for the parts in flight; and the
-- decoder's loop, with fuel for the rest of the chunk and of the claimed size.
--
-- Parameters. S3's delete (`delete_objects`) and listing (`list_blobs`), SQLite's LIKE (`like`),
-- serde's parser (`from_json`), base64 (`decode`), the signing keys, the upload semaphore
-- (`slot_free`), the answers of S3 to an upload (`S3`), zstd's decoder, its bound and SHA-256
-- (`Zstd`), the store of a NAR with the verdict of its check (`put`, which `put_nar` fills),
-- jsonwebtoken's reading and verification of a token and what a wait for an issuer's keys leaves
-- (`Tokens`), the clock (`unix_now`) and the other tasks are arguments of the definitions that use
-- them.
--
-- Not modelled. Errors of SQLite other than a duplicate reference, metrics and logging are left out,
-- as are HTTP, the fetch of an issuer's key set, the client, the framing of the admin socket and the
-- start-up of the services: they are input and output, or calls of libraries.
pub mod Admin
pub mod Auth
pub mod Browse
pub mod Common
pub mod Db
pub mod Deletion
pub mod Fsck
pub mod Gc
pub mod InFlight
pub mod Narinfo
pub mod Puller
pub mod Storage
pub mod StorePath
pub mod Upload
pub mod Verify
