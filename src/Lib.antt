-- ===== src/Lib.antt =====
-- zed-sync, JavaScript SDK (sdk/src): optimistic writes to a local store, a durable write queue
-- that is sent to a server, and the reconciliation of the changes that the server feeds back,
-- with the application lifecycle that says when this may happen.
--
-- The parts, and the files that model them:
--   Hlc          sdk/src/hlc.mjs: stamps and their order (compareHlc), the device-local Clock;
--                encodeHlc in Hlc/Encode.
--   Core         sdk/src/core.mjs: reconcile, onAck, settleQueuedAck, isOwnEcho, resolveConflict.
--   Merge        sdk/src/merge.mjs: deepMerge, on the JavaScript values of Json.
--   Policy       sdk/src/policy.mjs: write modes, error policies, conflict resolutions.
--   Store        sdk/src/store.mjs: MemoryStore, with rows, queue and cursors (maps are Dict's);
--                Store/Settle has settleAck.
--   Indexed      sdk/src/store.mjs: IndexedDbStore, over object stores of the browser that are
--                parameters and keep structured clones; Indexed/Traces compares it with MemoryStore call by call.
--   Client       sdk/src/client.mjs: the state of a SyncClient and the effects of its methods;
--                Client/Incoming has applyChange, hydrate and isEcho, Client/Drafts the head of
--                write, Client/Outgoing write and delete, Client/Flush flushQueue (and Client/Copies
--                a round of it over a store that hands out copies). Radix is the
--                toString(36) of the write keys.
--                Client/Threads cuts applyChange at its awaits and runs several calls at once.
--   Lifecycle    sdk/src/lifecycle.mjs: snapshots and their coherence; Lifecycle/Capabilities has
--                the capabilities, Lifecycle/Dispatch the machine's dispatch, Lifecycle/Listeners its
--                listeners.
--   Lease        sdk/src/lease.mjs: SyncLease, its heartbeat with the calls that onRenewError makes
--                of the lease (Lease/Failures), and acquire in Lease/Acquire and
--                withSyncLease in Lease/Scoped.
--   Session      sdk/src/start.mjs: the lifecycle events of a session, which transports run and which
--                of them it can stop, its lease, and how stop ends it; Session/Startup has startSync as a whole.
--   Decode       sdk/src/transports/decode.mjs: payloads of the transports to changes.
--   Backend      sdk/src/transports/backend.mjs: the sender; Backend/Stream has the WebSocket stream
--                with its reconnects.
--   Supabase     sdk/src/transports/supabase.mjs: the realtime channel of a session.
--   Telemetry    sdk/src/telemetry.mjs: sinks of events and their combination; Telemetry/Otel has
--                the OpenTelemetry adapter.
--   Observe      sdk/src/rxjs.mjs: the snapshots and the capabilities of a lifecycle as streams.
-- The other children of these modules hold proofs and say in their first lines what about.
-- Examples has the tests.
--
-- How they interact: a write of the client draws a version from the Clock and a key, puts the row
-- (merged by Merge) and a queue entry into the Store, and sends; the response is settled by the
-- store with Core.settle_queued_ack. A change from the feed is folded into the Clock, compared by
-- Core.reconcile with the row that the Store has, and adopted or ignored. Both ask the
-- capabilities of the Lifecycle first.
--
-- State and effects: a method is a function from the client's state to its result (a value or
-- the thrown error, in Result) and the new state, so what it wrote before it threw stays.
-- Telemetry events and calls of onError are recorded in the state, in order; a sink that throws
-- is modelled in Telemetry only. `Date.now()` reads the field `now`. The transport `send` is a
-- parameter: it answers or rejects, and gives back the state after whatever else ran while the
-- request was under way. Elsewhere the methods run as a whole: the promises of the in-memory
-- store are taken to settle with nothing in between. Client/Threads drops that for applyChange,
-- which the event loop may leave at any of its awaits for other calls of it or for anything
-- else. The store keeps the queue's entries as values; where the source holds on to an entry's
-- object across the request (flushQueue), Store.deref reads what the object has become.
--
-- Bounds: wall times and sequence numbers are exact naturals, as JavaScript's integers are up to
-- 2^53 - 1; the counter of a clock stops growing at 2^53, as adding 1 in JavaScript does; the lifecycle's generation is checked against that bound as in the source.
-- Strings are lists of UTF-16 code units and compare unit by unit. The separator of row keys is
-- U+0000, so statements on several rows ask that table names have none. Radix recurses on fuel: n
-- + 1 rounds, more than a number has digits. The loop of acquire runs over the list of the lock
-- client's answers and says that it still waits where they run out. deepMerge recurses on the
-- patch. A listener of the lifecycle that calls dispatch is followed down to a depth, with a result
-- of its own beyond it; where no listener does so, depth one is enough.
--
-- Not modelled: how IndexedDbStore is opened and how its requests fail, callbacks of a stream
-- that call it again, an onRenewError that throws, a transport that throws when it is stopped, values
-- on which JSON.stringify throws, observers of a
-- stream that join it late, the lint toolkit (.ores-lint) and the WebAssembly glue (sdk/pkg),
-- which are generated or kept here by other tools, and the ports to other languages.
pub mod Prelude
mod Examples
pub mod Hlc
pub mod Json
pub mod Merge
pub mod Result
pub mod Policy
pub mod Core
pub mod Lifecycle
pub mod Dict
pub mod Store
pub mod Radix
pub mod Client
pub mod Lease
pub mod Indexed
pub mod Session
pub mod Decode
pub mod Telemetry
pub mod Observe
pub mod Supabase
pub mod Backend
