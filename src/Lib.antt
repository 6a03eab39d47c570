-- ===== src/Lib.antt =====
-- boox-bridge: the synchronization of notebooks between devices and the server, the store of tasks,
-- the notices of deleted digests, the spool of notes that wait for another attempt, the notes of a
-- Boox device with their queue of jobs, the same for a directory of Supernote files, and the vectors of
-- pages for retrieval.
--
-- A device posts an envelope with its operations and a cursor to /sync/v1. The service checks the
-- envelope, hands the operations to the store and answers with what it has accepted, what it has
-- rejected and a page of the operations of the other sites. An operation replaces one row as a
-- whole; the greatest (wall_ts, op_seq, site_id) wins it. The store keeps a changelog (sync_ops) of
-- every operation that it records and a mirror (fn_*) of the winners, and writes operations of its
-- own by AuthorOps. The pages that a batch has changed are queued for the bridge, which renders and
-- recognises each, writes its text to the index, its vectors to the store for retrieval, and the
-- text back to the devices by AuthorOps.
--
-- Tasks are kept in a table of their own, from which a client never removes a row: Delete marks it, and
-- only the purge removes it. A digest that is deleted on the server is queued for the devices of its
-- user; a heartbeat drains the queue, and an acknowledgement removes what was drained. A note whose
-- recognition is rate limited waits in the retry directory until a scan moves it back to the inbox.
--
-- A note that a Boox device uploads gets a row and a job; one worker claims the oldest pending job,
-- recognises the note and completes or fails the job, and a watchdog reclaims jobs that are stuck.
-- The notes of a Supernote directory are found by scans, which also remove those whose file is gone;
-- each has at most one job, and a job may be delayed, skipped, or moved to the new path of its file.
-- The text of a page is cut into chunks, a service gives each a vector, and the vectors are kept in
-- a table and in memory.
--
-- The files, with the code that each is about:
--   Prelude: shared names, Boolean tests, results, integers, strings and lists; no code.
--   Sync.Op, Sync.Op.Ulid: internal/syncstore/op.go. Op is `Op`, with JSON values as `Value`; `Normalize`
--     is normalize, `AcceptsSchemaHash` is accepts_schema_hash, `IsULID` is is_ulid, `encodeULID` is
--     encode_ulid, `newULID` is mint over the clock and the random bytes.
--   Sync.Reconcile: internal/syncstore/reconcile.go. `Less` is less, `Merge` is merge; Go's map is an
--     association list with one entry per key.
--   Sync.Columns, Sync.Mirror: the column coercions, the upserts and `mergeRow` of
--     internal/syncstore/store.go, with the tables of internal/syncstore/schema.go. The mirror is one
--     map from table and pk to a row with its provenance lww_*.
--   Sync.Store, Sync.Store.Apply: `validateOp`, `appendOp`, `advanceAccepted` and `ApplyBatch` of
--     internal/syncstore/store.go. Db is the database; a transaction is a function that returns the
--     new database or an error, where the error keeps the old one.
--   Sync.Store.Author: `AuthorOps`. Sync.Store.Relay: `OpsSince`, `LastSeq`, `RecordCursor`.
--   Sync.Service: internal/syncsvc/service.go, `New` and `Sync`.
--   Bridge.Queue, Bridge.Pages: internal/syncbridge/bridge.go. `PagesChanged` is pages_changed, and
--     `processPage` is process_page on the index, the vectors and the database. Bridge.Reads:
--     internal/syncstore/reads.go and internal/syncstore/pagetext.go.
--   Task: internal/taskstore/model.go and internal/taskstore/mapping.go. Task.Store:
--     internal/taskdb/store.go, with the table of internal/taskdb/schema.go as a list of rows.
--   Digest: internal/spcserver/digesttomb/store.go. `Pending` is pending, whose SELECT and UPDATE are
--     select_pending and mark_if_any, since other calls may come between them.
--   FileIds: internal/spcserver/fileids, the numbers under which a device addresses files.
--   Task.Cloud: internal/taskstore/store.go, the tasks of one user in a private cloud.
--   Retry: cmd/boox-bridge/retry.go. `schedule` is schedule and `processDue` is process_due; the
--     directories are lists of names with contents.
--   Boox.Rows, Boox.Notes, Boox.Queue, Boox.Dates: internal/booxpipeline/store.go on the tables of
--     internal/notedb/schema.go. NoteDb is the database; Boox.Steps is the relation of its operations.
--   Supernote.Rows, Supernote.Queue: internal/processor/processor.go, internal/processor/job.go,
--     internal/processor/watchdog.go and `processJob` of internal/processor/worker.go.
--   Supernote.Notes: internal/notestore. `Scan` is scan, over what its walk of the directory meets.
--     Supernote.Steps is the relation of the operations of both. Notedb: what the statements of both
--     stores on internal/notedb/schema.go share.
--   Rag.Vectors, Rag.Blob: internal/rag/store.go. Each operation is its half on the table, on_table,
--     and its half on the copy in memory, on_cache.
--   Rag.Chunk: internal/rag/chunk.go, on the bytes of a text. Rag.Embed: `EmbedAndStorePage` of
--     internal/rag/embedder.go.
--   The other files below these are proofs; Sync.Tests, Bridge.Tests, FileIds.Tests, Boox.Tests,
--     Supernote.Tests, Rag.Tests, Task.Tests, Digest.Tests and Retry.Tests have concrete inputs and
--     the witnesses.
--
-- Parameters: JSON encoding of an operation, base64 decoding and the conversion of a JSON number to
-- an int64 are a Codec; SHA-256 and MD5 with their hexadecimal forms and strconv.FormatInt are
-- functions to texts, and UTF-8 one to bytes; float64 of an integer is a function; the renderer of
-- internal/forestrender, filepath.Clean, os.Stat, the recognition and the index of a page are
-- functions too; a float32 is known by its bits, Float32; the embedding service and what is read of
-- a file or of the calendar are functions; the clock is the argument `now`. Where a theorem needs
-- it, IsRoundTrip says that JSON reads back what it wrote, and another hypothesis that every
-- operation can be written.
--
-- Bounds and fuel: op_seq, wall_ts and the cursor are integers without bound, since the code only
-- compares them, except for the next number of a site, an increment that would overflow only at
-- 2 ^ 63. The loop of advanceAccepted has the lengths of the changelog and of the rejections as fuel,
-- plus one: each round settles a number that occurs in one of them. The loop of ChunkText has the
-- length of the text as fuel, plus one, since each round takes at least one byte, and TrimSpace has the
-- length of its text, since each round takes a rune.
--
-- Not modelled: the order in which SQLite inserts the rows of a copy of vectors, which is taken to
-- be that of the source, errors of SQLite other than those of its constraints, a failing
-- RecordCursor, which the code ignores, errors of the file system and of the private cloud's
-- database, the conversions of tasks from and to time.Time, and the other parts of the repository:
-- HTTP handlers, the worker loops of the pipelines, rendering, ranking and start-up.
pub mod Prelude
pub mod Boox
pub mod Bridge
pub mod Notedb
pub mod Digest
pub mod FileIds
pub mod Rag
pub mod Retry
pub mod Supernote
pub mod Sync
pub mod Task
