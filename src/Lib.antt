-- ===== src/Lib.antt =====
-- Verification of the image-resizing module: how tasks are queued, leased, run and ended, which
-- locks guard them, which stored previews count as fresh, what a read serves and queues, what a
-- prewarm reports, and how many frames are decoded.
--
-- A read or a prewarm queues a task for the previews of one media that are missing or stale. At most
-- one task is active for a Resizer, media, pipeline and queue: the gate. A queue in the database
-- keeps the gate in its rows; beside any other queue it is a lock in a lock store. Workers claim
-- tasks under a lease, and run them with a heartbeat that renews the lease and the gate lock.
--
-- The files, with the code that each models (paths from the repository's root):
--   Types           src/types.d.ts, src/contracts/taskQueue.ts: the data that the parts exchange
--   Database        the document database behind Mongoose, as operations with laws; not in the
--                   repository, so it is a parameter everywhere
--   MongoTaskQueue  src/drivers/mongo/taskQueue.ts and schemas.ts: `add` (insertActive,
--                   takeOverRule, canTakeOver), `claim`, `renew`, `complete`, `fail` (fail_dead and
--                   fail_retry), `release`, `findActive`, and the schema check of `#model`
--   Locks           src/contracts/locks.ts; Locks/Mongo: src/drivers/mongo/locks.ts
--   Keys            src/lockKeys.ts and getPreviewIdentity of src/images.ts
--   Consumer        src/consumer.ts: `finish`, `giveBack`, `runTask` with `holdGate`, `holdUntil` and
--                   `releaseGate`, and what `run` does with a claimed task; backoffMs
--   Filters         src/images.ts: canonicalizeFilterValue, escapeFilterPart and getFilterSig
--   Payloads        src/images.ts: normalizeVariant and canonicalizeVariants
--   Sizes           src/images.ts: getSizeKey, parseSizeKey, toMissingPreview, expandPreviewRequests,
--                   expandMissingPreviews and isCatalogCovered
--   Dispatcher      src/dispatcher.ts: `#dispatch`, `#add`, enqueueWithOutcome, and enqueueConfirmed
--                   with confirmActive, groupVariants and routeFailureIssue
--   Reader          src/reader.ts: `resolve` with queueMissing; Reader/Prewarm: `prewarm` with
--                   withUnconfiguredFormats and prewarmFailure
--   Routing         src/routing.ts: `routeOf`, `#build`, `#carrier` and carrierOf
--   Catalog         src/catalog.ts, src/freshness.ts, and the stored rows and the configured formats
--                   of src/images.ts
--   Plan            src/plan.ts: framesToDecode
--   Config          src/coordination.ts, src/timing.ts, and validateQueueTiming of src/resizeConfig.ts
--   Prelude         shared names and lemmas
-- The children of a module hold its proofs, named for what they prove, and its tests.
--
-- A call of the database or of a lock store takes the state and gives an answer or a rejection with
-- a new state; a rejected write may or may not have been made. Times are natural numbers of
-- milliseconds. Each call takes the time at which it runs, and a sequence of calls takes a clock:
-- the reading at each of its moments. Other processes act between two calls of `add` as any function
-- of the state that takes steps of the queue. The loop of `add` has two rounds, as the code's; the
-- heartbeats of a task are counted by a number that is an argument.
--
-- A number of a size is a fraction n / 2 ^ k below 2 ^ 53, where the text of a whole number is its
-- decimal digits; a larger one stands by the text that the platform prints for it, such as 1e+21. A
-- number read back from digits stands exactly, where the code's is rounded from 2 ^ 53 on. The digits
-- of a number are written with as much fuel as the number itself, which has no more digits than that.
-- A tap that `prewarm` calls gives its answer and what it leaves in the list it was given; the variants
-- in a list are values, which no tap changes. A tap that throws is skipped by src/hooks.ts. An object of filters lists each name once, and no
-- name is a whole number, which a platform would list first.
--
-- Not modelled: logging and metrics; the start-up check of the gate index; heartbeats that overlap,
-- lock calls that answer after the worker has stopped waiting and the final call made again for
-- them, and the claiming loop around a task; the hashes of src/signatures.ts, `JSON.stringify`, the
-- order of texts and `encodeURIComponent`, which are parameters, as are the taps of a host, the URLs
-- of a storage driver and what an error says of itself; the catch around a read and a media without
-- an id; the floating-point geometry of src/plan.ts; and the other parts of the repository: the rest
-- of src/routing.ts and of src/images.ts, the validation of a whole configuration, processor, worker,
-- resizer, rendering, upload, preview recorder, the other drivers, the factory and the framework
-- adapter.
pub mod Prelude
pub mod Types
pub mod Database
pub mod MongoTaskQueue
pub mod Locks
pub mod Keys
pub mod Filters
pub mod Payloads
pub mod Sizes
pub mod Consumer
pub mod Catalog
pub mod Plan
pub mod Dispatcher
pub mod Routing
pub mod Reader
pub mod Config
