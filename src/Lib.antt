-- ===== src/Lib.antt =====
-- A verification library for unikvs, a key-value store that sends values through chains of
-- middlewares to several storages.
--
-- The parts and their files:
--   * unikvs/src/_plugin-lifecycle.ts, the reference count that lets users share one plugin, is
--     Lifecycle.antt; a plugin's own calls are parameters that may throw and still change its state.
--   * unikvs/src/_pipeline-graph.ts and its helpers are Pipeline.antt: the types, Levels (what a node
--     holds: `summarizeLevel`, `finalize`, `createEntries`), Compile (`PipelineGraph.compile`), Contract
--     (what happens around one middleware), Decode and Encode (`PipelineGraph.decode`, `encode`). A
--     middleware's handler is a script of what it does to its context and to `next()`, so any order of
--     calls and any error is there; Pipeline/Plain.antt describes the handlers that convert a value and
--     go on. unikvs/src/_pipeline-leaf-resolver.ts is LeafResolver. The other files below Pipeline are
--     proofs.
--   * packages/lru-cache/src/lru-cache.ts is Storage/LruCache.antt, with its private state and methods
--     in Storage/LruCache/State.antt. packages/memory/src/memory.ts is
--     Storage/Memory.antt, with its promise, a map without an order, in Storage/Memory/Promise.antt.
--     Storage.antt has what the storages in memory share.
--   * packages/retry/src/retry.ts is Storage/Retry.antt: the loop that tries again, its delays, and the
--     fallback that copies or moves by read, write and delete. The storage below, the clock, the signal
--     and the user's functions are parameters over one state of the world.
--   * packages/hex/src/hex.ts is Middleware/Hex.antt; the UTF-8 codec is a parameter.
--   * unikvs/src/unikvs.ts is Core.antt and below. Core/Backend.antt names what the client calls: the
--     storages, `use` and `afterUse` of the middlewares, the locks and the schemas, over one state of the
--     world. Core/Entry.antt is how each operation begins; Core/Use.antt is `#use`; Core/Outcomes.antt is
--     what becomes of each destination; Core/AfterUse.antt is `#notifyAfterUse`. Core/Write.antt is `set`
--     with `#setPlain` and `#finishWrites`, Core/Read.antt is `get` and `has`, Core/Remove.antt is `delete`
--     and `clear`, Core/Transfer.antt is `copy` and `move`. Core/Laws.antt states what is relied on of the
--     storages, and what some results assume of `use` and of the lock of the instance. The other files
--     below Core are proofs.
--   * Tasks.antt is `Promise.all` and `Promise.allSettled`: asynchronous handlers whose turns, from one
--     `await` to the next, come in the order of a schedule, which is an argument of each operation. One
--     call of a storage has its effect at one moment.
--   * unikvs/src/_contexts.ts is Variables.antt: the variables that the contexts of one operation share, and
--     the base variables of the client.
--   * JsMap.antt is the `Map` of JavaScript as a list of entries in order of insertion.
-- A method is a function from the state to a result, which is a value or a throw, and the state left
-- (Prelude/Exec.antt).
--
-- Bounds and fuel: the two eviction loops of the cache run on as many rounds as there are entries.
-- That is enough, because each round takes an entry out. The loop of the retry storage runs on
-- `maxRetries + 1` rounds, the bound that its attempt count sets. Sizes, limits, delays and the
-- growth factor are whole numbers, where the source also takes fractions.
--
-- A schedule that leaves a handler unfinished gives no result.
--
-- Not modelled: repair and the streams of the pipeline and of the client, the client's `open` and
-- `close`, the storages over services, the middlewares that only call an encoder of another library, and
-- packages/rate-limit, whose token bucket is floating-point arithmetic.
pub mod Core
pub mod JsMap
pub mod Lifecycle
pub mod Middleware
pub mod Pipeline
pub mod Prelude
pub mod Storage
pub mod Tasks
pub mod Variables
