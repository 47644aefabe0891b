-- ===== src/Lib.antt =====
-- go-download fetches one file over several HTTP range requests and resumes an interrupted transfer
-- from a sidecar. A run of multipart (download.go) seeds a scheduler with the missing ranges, starts
-- workers that take chunks from it, claim bytes and write them, saves snapshots of the scheduler to
-- the sidecar, and lets a governor add or retire workers.
--
-- Base: shared names, Boolean tests, lists and signed integers. int64 arithmetic that can wrap
--   is written with `int64`.
-- Chunk: scheduler.go, the chunk and what splitLocked, demote, claim and complete do to lists of
--   chunks. A pointer to a chunk is its id; offsets are natural numbers, since a run has
--   0 <= off <= end <= size.
-- Sched: scheduler.go, all methods: prepare, next, exit, demote, claim, cursor, workerRemaining,
--   complete, remainingBytes, idle, snapshot. The maps `active` and `live` are lists, the order of
--   which a step of the system may change at any time. The loop of prepare runs at most n times,
--   as its condition adds one pending chunk in each round. Seed has the part of multipart
--   (download.go) that fills the queue.
-- State: state.go, what loadState checks after decoding, usable, remaining, the choice of the
--   validator. Strings are lists of bytes; the JSON decoding and file access are not modelled, so
--   load_state starts from the decoded value, which may be anything.
-- System: worker.go (run, chunkSink) with the scheduler as a relation between states, and the exit of
--   run in System.Exits: each step is one call under the scheduler's lock or one write, in any
--   order. `disk` is the set of bytes that WriteAt has put into the file and that the chunk's
--   counter has taken in.
-- Ramp: download.go, rampState. Doubles are an abstract type with the operations that the code
--   uses (Float64), and nothing is assumed of them.
-- Ladder: worker.go (bumpTimeout, decayTimeout) and backoff.go, without the random factor.
-- Nodes: nodes.go, the addresses of the final host: their order, the choice of an address for a
--   worker and the count of connections on each. Unmap and Is4 of netip.Addr are parameters.
-- Retry: worker.go (downloadChunk, rotationBudget), the loop of attempts at a chunk over what each
--   attempt returns. The loop has no fuel: it runs over the list of attempts to come.
-- Cull: cull.go (judgeLocked, cullLocked), the judgment of a slow address and its cull. The rates
--   of a window come in as a test.
-- Policy: download.go (Concurrency.over), the limits of a run.
-- Response: download.go (parseContentRange, the switch of get on the election's response) and worker.go
--   (checkSingleStatus). Strings are lists of bytes; Base.Strings has ParseInt, Cut and CutPrefix.
-- Partial: worker.go (readPartialResponse with its LimitReader, readLoop, pump, chunkSink) with the bytes
--   that are read and written. The list of reads is what the body gives; it is no fuel.
-- Attempt: worker.go (attempt, initialRangeAttempt, classify, classifyConnection, rotationError,
--   ensureClient), the composition of Partial, Response, Nodes and Ladder. Attempt.Chunks puts it
--   into the loop of downloadChunk, which Retry has over what attempts return, and bounds its rounds;
--   Attempt.Rest follows an address that has failed through what the pool does later.
-- Single: worker.go (singleStream, singleAttempt, singleSink) and download.go (single), down to
--   the installed file. The loop runs over the list of attempts to come.
-- Finalize: download.go (verifyAndFinalize, install, installNoReplace), with the digests as
--   parameters and a flag for each call that can fail.
-- Locks: pathlock.go, the registry of destination locks as a step relation of its callers.
-- Session: download.go (multipart and the flusher of runWorkers) over System: the sidecar that stands
--   beside the staging file at any moment of a run.
-- Election: download.go (elect, emptyContentRange), over a list of tries; three are enough.
-- Headers: download.go (applyHeaders, mergeHeaders, shouldCopySensitiveHeaders and their helpers),
--   with CanonicalHeaderKey as a parameter and hosts in lower case.
-- Names: name.go (resolveDest, deriveName, derivedBase) on Unix.
-- Dial: dial_preferred.go, the race as a relation over the events that its loop receives.
-- Tests: runs at concrete inputs and the theorems applied to them.
--
-- Not modelled: HTTP, DNS, sockets, the file system, JSON, hashing and logging, which are calls of
-- libraries; the command line under cmd/dl, which is flags and output; the reporter and the
-- statistics; New and get as a whole; the redirects of an election; the regular expression for a
-- name; the rates of the culler, which its judgment takes as a test.
pub mod Attempt
pub mod Base
pub mod Chunk
pub mod Cull
pub mod Dial
pub mod Election
pub mod Finalize
pub mod Float64
pub mod Headers
pub mod Ladder
pub mod Locks
pub mod Names
pub mod Nodes
pub mod Partial
pub mod Policy
pub mod Ramp
pub mod Response
pub mod Retry
pub mod Sched
pub mod Session
pub mod Single
pub mod State
pub mod System
pub mod Tests
