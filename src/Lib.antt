-- ===== src/Lib.antt =====
-- A model of go-grpc-starter: a gRPC back end in Go with accounts, device sessions, rotating refresh
-- tokens, and an event bus over a transactional outbox. Paths are from the repository's root.
--
-- The parts
--   * Prelude: lists and Boolean tests over the native numbers, shared by all.
--   * Errs (internal/errs/errs.go): `Error` and its constructors; `GoError` is Go's `error` as the
--     program builds it, `Result` the pair of a value and an error.
--   * Store (internal/store/store.go): `with_tx` is `WithTx` and `run` is `Run`. A `Conn` is what a
--     context carries of the database: the tables, whether a transaction is open and whether a
--     statement has failed in it, and the outside world, which no rollback takes back. An `Action`
--     is a Go function of such a context. Store.Atomic, Store.Calm, Store.Idle, Store.Joined,
--     Store.Keeps and Store.Inversion hold the lemmas on actions.
--   * Event (internal/event): Event.Outbox is the repository of outbox.go over Event.Outbox.Table,
--     the SQL of internal/store/query/outbox.sql; Event.Bus is `Publish` and `dispatch` of bus.go;
--     Event.Drain is `drainOnce`, `drainBatch`, the circuit breaker and the registry of registry.go.
--   * Users (internal/users): Users.Entity is the account of entity.go, Users.Service is service.go over
--     the repository in Auth.Users; Users.Service.Avatar holds a proof.
--   * Settings (internal/settings): the preferences of an account, kept as the JSON of one row;
--     Settings.Roundtrip holds a proof.
--   * Auth (internal/auth): Auth.Entity is entity.go, types.go and errors.go; Auth.Tables and
--     Auth.Users are the SQL of device_sessions.sql, refresh_tokens.sql and users.sql in
--     internal/store/query, with the unique index of migrations/00008; Auth.Repository is the two
--     repositories; Auth.Session is session.go; Auth.Tokens is tokens.go and the creation of a
--     session; Auth.Register is `Register` of service.go, Auth.Login is lockout.go and `Login`,
--     Auth.Password is the rest of service.go; Auth.Cached is the calls that these make of the cache
--     manager. The other modules of Auth hold the proofs.
--   * Suspension (internal/suspension): the service and its repository over the SQL of
--     internal/store/query; Suspension.Lift holds the proofs.
--   * Redis: the commands that the program sends, as a record of functions of the server's state, and
--     their documented effects, as the laws of `IsRedis`. Redis.Reach is what any clients can do to a
--     server without writing one key.
--   * Cache (internal/platform/cache): `CacheManager` of manager.go and tags.go over Redis, with the
--     keys of cachekey.go. Cache.Keys, Cache.Once, Cache.Tags and Cache.Expiry hold the proofs.
--   * Token (pkg/token/access_token.go): access tokens over Redis; the proofs are in Token.Life.
--   * Interceptor (internal/interceptor, internal/reqctx): the types, Interceptor.Header what is read
--     from the metadata, Interceptor.Chain the interceptors but authentication and validation, which
--     are in Interceptor.Unary with the chain itself, `unary`; Interceptor.Stream is stream.go. The
--     other modules hold the proofs.
--   * Maintenance (internal/maintenance/sweeper.go): the sweeps of three tables; the proofs are in
--     Maintenance.Sweep.
--   * Worker (internal/worker/notifications): Worker.Notifications is processor.go,
--     Worker.Notifications.Tables is repositories.go with the SQL of the notifications,
--     Worker.Notifications.Build is the message for Firebase with deeplink.go,
--     Worker.Notifications.Dispatch is dispatcher.go, and
--     Worker.Notifications.Bytes the strings, with `TimeOfDayStr` of internal/store/convert.go. Quiet,
--     Deliver, Delivers and Silent hold the proofs.
--   * Examples: small tables, and a server of Redis, on which the theorems apply.
--
-- How they meet: `Publish` writes the outbox in the caller's transaction, or dispatches to the
-- subscribers; the drain reads the outbox and publishes again. The services of Auth run their
-- repositories through Store, in one transaction where the source opens one, and keep the counter of
-- failed logins and the single-use codes in the cache. The interceptors authenticate a call by its
-- access token and by the row of its session on the tables of Auth, before its handler runs.
--
-- Conventions
--   * Faults: a call of the database that may fail for reasons outside the program (a query, the
--     opening or the commit of a transaction) fails when `faults` says so at its number, so a
--     theorem over every `Conn` is one over every pattern of outages. `IsCalm` says that none fails.
--     A commit that reports an error is taken not to have happened: the loss of an acknowledgement
--     after the server has committed is not modelled.
--   * Time is an argument, a number of seconds; the zero time of Go is 0. `drain_once` reads it anew
--     for each batch, as it does the rows that other replicas hold.
--   * A Go map is an association list, a table the list of its rows, a sequence a counter. Where a map
--     is ranged over (`interpolate`) the list is in one order, where Go chooses afresh each time.
--   * E-mail addresses are compared as the `citext` of their column compares ASCII; letters beyond ASCII
--     that the database folds are told apart.
--   * The foreign keys of suspensions and of settings are tests of their insertion; those of sessions
--     and refresh tokens name rows that the same call has read or written.
--   * Fuel: `drain_once` alone runs on fuel, one unit for each batch; more than the attempts that the
--     rows have left together is enough, since a batch that is not the last spends one.
--   * One request at a time on the database: calls of two requests interleave between calls, not inside
--     one. On Redis a theorem over `Reach` is one over every interleaving with other clients.
--   * Handlers, the Asynq queue, argon2, SHA-256, JSON, the random generators, the mail,
--     translation, protovalidate, Firebase and the object store are parameters: fields of
--     `Subscription`, `Bus`, `Collaborators`, `Accounts`, `Codec`, `Set`, `Pushes` and
--     `UserCollaborators`, of any behaviour.
--   * A command of Redis that succeeds has its documented effect; one that fails may have had it or
--     not; neither touches another key. `wait` is the passing of time on the server.
--   * A panic is an outcome of a handler, next to a return.
--
-- Not modelled: the text of log lines, tracing, durations and the addresses of peers; the row-level
-- security settings of `applyRLS`, which is a call that may fail; the dummy hash that equalizes the
-- time of a failed login; `GetOrSet` of the cache, whose flights are concurrent, and its deletions by
-- pattern; the panic that `ProcessTask` of the notification worker recovers from; the gRPC
-- services, the e-mail worker and the notifications service; configuration, wiring, commands and
-- generated code.
pub mod Prelude
pub mod Errs
pub mod Store
pub mod Event
pub mod Users
pub mod Worker
pub mod Auth
pub mod Settings
pub mod Redis
pub mod Cache
pub mod Token
pub mod Interceptor
pub mod Maintenance
pub mod Suspension
pub mod Examples
