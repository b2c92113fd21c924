-- ===== src/Lib.antt =====
-- RainLogs collects the edge logs of Cloudflare zones, stores them compressed in S3-compatible
-- providers in the EU, and seals each batch into a hash chain. An API service keeps customers, zones
-- and API keys in PostgreSQL and puts tasks on a Redis queue (asynq). A worker service takes the
-- tasks: it pulls logs, verifies stored blobs, deletes what has outlived its retention, and keeps
-- live streams open. The documentation is a VitePress site in which rain falls behind the text.
--
-- The parts and their models:
--   Models           internal/models: customers, API keys, zones, jobs, exports, audit events
--   Db               internal/db/repositories.go: a child for each table, a function for each statement
--   Queue            internal/queue: payloads, tasks and what stands on the queue
--   Hex, Calendar, Strconv, Paths  the parts of Go's library that the code uses: hex text, UTC dates,
--                    Atoi, and Join of path/filepath
--   Worm             pkg/worm and cmd/rainlogs-verify: the hash chain and the tool that walks it
--   Kms              internal/kms/kms.go: the key ring
--   Auth             internal/auth/auth.go: API keys and JWTs
--   Storage          internal/storage: blobs, one provider, and the failover over several (MultiStore)
--   Storage.Files    internal/storage/fs.go: the local file system, call by call
--   GoError          the error values, internal/cloudflare/errors.go among them
--   Cloudflare       internal/cloudflare: the Logpull and GraphQL clients
--   Exec             how the services run: a computation takes the world (database, providers, the
--                    buckets of customers, queue, alerts, clock) to an outcome and a new world
--   Worker.Pull      LogPullProcessor of internal/worker/worker.go, a function for each of its steps
--   Worker.Verify    LogVerifyProcessor, Worker.Expire LogExpireProcessor, Worker.Schedule
--                    ZoneScheduler of the same file
--   Worker.Security  SecurityEventsProcessor of internal/worker/security.go
--   Worker.Export    LogExportProcessor of internal/worker/export.go
--   Worker.Streams   internal/worker/instant_logs.go: the waits of a stream, its buffer, the choice of
--                    the zones that have one, and the mutex and wait group that
--                    stopAll shares with the goroutines, as a step relation
--   Api.Access       internal/api/middleware/middleware.go: APIKeyAuth and RequireAdmin
--   Api.Sessions     the same file: JWTAuth; Api.Trail AuditLog
--   Api.Zones        internal/api/handlers/handlers.go: the zone handlers
--   Api.KeyRequests  internal/api/handlers/handlers.go: the API key handlers
--   Api.Erasure      internal/api/handlers/handlers.go: DeleteCustomer
--   Api.Signup       internal/api/handlers/handlers.go: CreateCustomer
--   Api.ExportRequests internal/api/handlers/export.go: Create
--   Api.Reads        the handlers that only read, of handlers.go and export.go
--   Api.RateLimit    internal/api/middleware/ratelimit.go: the limiters of clients and customers
--   Docs.Number      the doubles of JavaScript: rounding to 53 bits, literals, toFixed, String
--   Docs.Rain        docs/.vitepress/theme/Rain.vue: script and template; Docs.Rain.Fall its animation,
--                    Docs.Rain.Sheet the box of its container, Docs.Rain.Streak its gradients
--   Docs.Theme       docs/.vitepress/theme/index.ts: the exported theme
--   Docs.Site        docs/.vitepress/config.mts: the configuration
--   Prelude          shared names, tests, lists, texts
--   Examples         runs on concrete inputs
--
-- How the model reads the code. Times are nanoseconds since 1970, identifiers and bytes are natural
-- numbers. Counters (attempts, byte and line counts, usage) are natural numbers too: they are int64
-- sums of sizes of blobs, far from 2^63. Where the code converts a text to an integer (Retry-After),
-- the wrap-around of int64 is written out. A table is the list of its rows in the order of
-- insertion; of the columns of time, zones.last_pulled_at, which time.Now() fills, is cut to the
-- microseconds that PostgreSQL keeps; the other times that Go computes (the periods of a job, the
-- expiry of a key) are stored as they are. A statement either does what its SQL says or fails and changes
-- nothing, and the environment decides which calls of the database and of Redis fail, so a theorem
-- that does not restrict it holds for every pattern of failures. What a call of another service
-- answers is an argument: SHA-256, gzip, AES-GCM, bcrypt, golang-jwt, the token bucket, the
-- providers and Cloudflare are records or functions with the documented laws that the code relies
-- on. Every loop is recursion on the list that it walks, so no fuel is needed, but for three: the
-- digits of a number n are printed with fuel n + 1, which its length never exceeds; a double is
-- rounded with at most 2100 halvings, where 2046 reach the largest one; and a double is printed with
-- at most 17 places.
--
-- Not modelled: request identifiers and security headers (internal/api/middleware), the routes
-- (internal/api/routes), the WebSocket of a stream, notifications, configuration, the wiring of the
-- two services (cmd/api, cmd/worker, internal/db/db.go), the migrations, and logging. The
-- directories _codegen and docs/.vitepress/dist hold an old generator and the built documentation.
pub mod Prelude
pub mod Models
pub mod Calendar
pub mod Hex
pub mod Worm
pub mod Kms
pub mod Auth
pub mod Storage
pub mod GoError
pub mod Db
pub mod Queue
pub mod Strconv
pub mod Paths
pub mod Exec
pub mod Cloudflare
pub mod Worker
pub mod Api
pub mod Docs
pub mod Examples
