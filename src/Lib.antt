-- ===== src/Lib.antt =====
-- Precog: predictive caching middleware for Go's net/http.
--
-- A request goes through the middleware (middleware.go), which looks its key up in a store
-- (store_tier.go over sharded_store.go), runs the application's handler behind a capturing response
-- writer (response_writer.go) on a miss, and records the request with a predictor
-- (predictor_dense.go), whose routes are numbered by a registry (endpoint_index.go).
--
-- The files and what they model:
-- - Common: helpers; byte sequences for Go strings and `[]byte` (Common.Text, Common.Words), Go maps as
--   association lists (Common.Dict), threads as families (Common.Family).
-- - Http: net/http's Header with its canonical names.
-- - Entry: ResponseEntry and MatchesVary of store.go.
-- - Sharded: sharded_store.go. Codec has encodeHeaders and decodeHeaders, Shard the critical sections of
--   GetByHash, SetByHash, Del and Close on one cacheShard, Ops the store of shards; Arena, Invariant,
--   Reads, Writes, Laws, Removal and Sizes have the proofs. Ideal is the abstract cache that the store is
--   compared with, InStep and Refinement the comparison.
-- - Store: the interface Store of store.go as a record of operations, MemoryStore, and the sharded store
--   behind the interface; Store.Laws has the laws that a client may rely on.
-- - Tiered: store_tier.go, over any store of the interface.
-- - Telemetry: telemetry.go, with the atomic additions of its callers as steps.
-- - Normalizer: normalizer.go. Order, CacheKey and Routes have the proofs.
-- - Registry: EndpointRegistry of endpoint_index.go.
-- - Writer: capturingResponseWriter of response_writer.go over a client that keeps the first status.
-- - Dense: predictor_dense.go. Matrix has the counters of NewDenseMatrixPredictor, Record and rescaleRow,
--   Sessions the histories, Hydrate hydrateCall, Candidates the row that Predict scans, Ops the operations
--   of DenseMatrixPredictor, on a registry of Registry and patterns of Normalizer; the modules below
--   them have the proofs.
-- - Markov: predictor.go, the predictor with maps; Counts, Invariant and Forecast have the proofs.
-- - Coalesce: coalesce.go, DoContext of any number of callers as a step relation. Views, Invariant, Enters and
--   Steps have the invariant, Safety and Progress what follows from it, TwoCallers a run.
-- - Request: what the sources read of a request. Vary: varySignature, varyKey and extractVaryMap of
--   middleware.go. ClientAssets: client.go.
-- - Prefetcher: prefetcher.go, Submit and execute; Safety and Queue have the proofs. Pool has NewPrefetcher's
--   workers, the callers of Submit and the call of Close as steps, Invariant, Closing and Returning its
--   proofs.
-- - Engine: precog.go, the configuration and who is authenticated.
-- - Middleware: middleware.go, and WriteResponse of sharded_store.go. Middleware has what is read off a
--   request, what may be cached and the replies, Serve the handler for one request; Paths, Leader, Caching,
--   Sent, Replies, Warm, Twice, Followers and Boundary have the proofs: Twice those of two requests in a row,
--   Boundary those of a leader together with Coalesce.
-- - Ristretto: store_ristretto.go, over the library's cache. Wasm: cmd/wasm/main.go, with Safety for its
--   proofs. TestServer: the handlers of cmd/testserver/main.go, with Private for what is not kept of them.
--
-- Conventions. A Go string is the list of its bytes, and letters whose case changes are ASCII. A
-- time is its UnixNano as a natural number, and each operation is given the time that it reads.
-- Machine integers keep their wrap-around (`% 2 ^ w`), and a Go int that may be negative is its 64 bits; sums of times are taken not to pass an int64.
-- Each operation of a store runs under the lock of its shard and is one step. xxhash is an argument
-- (`sum64`). An index out of range, where Go panics, is `none` in the dense predictor. Where Go
-- leaves the order of a map's keys open, it is the order of the list. The zero time is `none`, and a
-- nil map is the empty one, which the code never tells apart; the nil index of a closed shard is
-- `none`.
--
-- In the middleware a handler of the application is the list of its calls on the writer, for each request, and
-- one request is served from its start to its end: the times that it reads are given, and DoContext either
-- runs the function or gives what a leader has shared. Coalesce has the interleavings of DoContext. Sessions'
-- random names, http.SetCookie, httptest's requests and the embedded files are arguments.
-- The only recursion that is not on the code's own data is that of Progress in Coalesce and of Returning in
-- the pool, whose fuel is the number of steps that are left: four for each caller, and two for each
-- worker and each waiting job and three for Close at most.
-- In the pool a job is its start and its end, and what it does in between is execute, one job at a time. Which
-- jobs' execute comes back is an argument: it may wait in a handler, or in DoContext for a leader. The panic of
-- httptest.NewRequest is a result of execute, and the pool's workers are those that do not panic.
--
-- Not modelled: the inside of the ristretto library, the timeout of a prefetch, handlers of the
-- application that panic, the browser client, and of the test server the flag, the delays, the log and
-- ListenAndServe, which are input and output.
pub mod Common
pub mod Http
pub mod Entry
pub mod Sharded
pub mod Registry
pub mod Normalizer
pub mod Dense
pub mod Coalesce
pub mod Request
pub mod Vary
pub mod ClientAssets
pub mod Prefetcher
pub mod Engine
pub mod Middleware
pub mod Markov
pub mod Store
pub mod Telemetry
pub mod Tiered
pub mod Writer
pub mod Ristretto
pub mod Wasm
pub mod TestServer
