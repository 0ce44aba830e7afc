-- ===== src/Lib.antt =====
-- acat-go-common: a Go library of what the ACAT services share. These modules model its core: error
-- values and response envelopes, the Sa-Token compatible login state (tokens, keys, sessions, the
-- store, logging in and out), the permission checks of the management services, the HTTP
-- middleware, configuration, the database helpers, the outbox between MySQL and MongoDB, the object
-- storage client, JWT login, health probes and the server's life cycle.
--
-- Files and the code they model:
--   Apperr        apperr/apperr.go, apperr/business.go: errors and their chains (As, IsBusiness,
--                 HTTPStatusOf, CodeOf). Apperr/Chain describes what is in a chain.
--   Result        result/result.go: OK, Fail, FailCode, NormalizePage, Offset.
--   Satoken/Keys  satoken/consts.go and the configuration and key functions of satoken/logic.go.
--   Satoken/Token satoken/token.go: NewTokenValue over a random source.
--   Satoken/Value, Satoken/Session  satoken/session_codec.go: the session record and its methods.
--   Satoken/Store, Satoken/Memory   satoken/store.go: the Store interface, what a healthy store
--                 promises, MemoryStore, and its Get under concurrent use.
--   Satoken/Json, Satoken/Codec     satoken/session_codec.go: MarshalJSON and UnmarshalJSON of sessions
--                 and terminals. Codec/Decode reads. Satoken/Json is what they use of encoding/json,
--                 over JSON values: their text is printed and parsed outside.
--   Satoken/Redis satoken/store_redis.go: RedisStore over a Redis client; Redis/Scan is ScanKeys.
--   Satoken/Logic satoken/logic.go: Login, Logout, CheckLogin, GetSession, SaveSession and their
--                 helpers, over any store.
--   Permission    permission/permission.go: Checker and Actor; Permission/Saved puts them over Logic and
--                 the codec.
--   Middleware    middleware/middleware.go and the SessionProvider of authn/authn.go: Auth, Recover,
--                 Trace, CORS, Chain, WriteError. Middleware/Http is what they use of net/http: a
--                 handler takes a request, what is written of the response so far, and the state.
--   Db            db/tx.go: the handle that joins the transaction of its context, and Within;
--                 Db/Affected is db/affected.go.
--   Config        config/config.go: Default, Normalize, DSN; Config/Records has the structs,
--                 Config/Environment is applyEnv, Config/Placeholders ExpandEnv, Config/Load Load.
--   Mongox        mongox/mongox.go: the outbox, Sweep and Loop. Mongox/Table is what a service's table
--                 of events promises.
--   Mysqlx        mysqlx/mysqlx.go: SQL fragments and the errors of the driver; Mysqlx/Statements is
--                 Insert, Update and the other statements.
--   Objectstore   objectstore/s3.go: the client; Objectstore/Signing is its signed requests, Calls the
--                 object and bucket operations, Escape the percent encoding.
--   Jwtauth       jwtauth/logic.go: Login, CheckLogin, GetSession.
--   Server        server/server.go: Run, from the checks it registers to the end of the service.
--   Health        health/health.go: the check registry and its probes.
--   Common, Exec  no code of the repository: shared helpers, and Go functions that return a value and
--                 an error while they change a state, with Hoare triples for them.
--
-- How the parts meet: Auth calls a SessionProvider, which Logic is, and passes its session on in the
-- request's context. Logic reads and writes sessions through the codec (Satoken/Codec/Stored). It calls
-- the store through the record `Store` and relies on its contract `IsHealthy`: MemoryStore at a moment
-- and RedisStore over a server that answers are such stores.
-- Permission reads the sessions that Logic stores; Jwtauth hands out the same sessions. Server registers
-- its service's checks with Health. Errors of all parts are the `GoError` of Apperr.
--
-- Integers: `int` and `int64` are unbounded with the wrap-around written out (`wrap64`) where the
-- source multiplies, subtracts or counts up. A time is a number of nanoseconds, or of milliseconds
-- in logic.go, and an operation reads the clock once. A number in a session's data is its decimal
-- text, an `int` and a `float64` alike. The recursion of every function is structural, but for
-- three. Decimal printing has the number itself plus one as fuel: more than it has digits.
-- `expand_env` has one more than its text has characters, and each round drops some;
-- Placeholders/Ends shows that it never runs out. `scan_keys` takes its fuel as an argument, and
-- Redis/Scan says how much is enough. `loop` of Mongox runs for a given number of ticks, as its
-- context may end at any.
--
-- Parameters, not made up here: the text of JSON and its float64 numbers, `%v` of login ids that are no
-- text, the clock, `crypto/rand` and the uuid library, the environment, files, YAML and durations,
-- database/sql and the MySQL driver, go-redis, MongoDB, net/http and signals, SHA-256 and HMAC, the URL
-- parser, the JWT library, and the conversion of a duration to whole seconds, which goes through a
-- float64. Left out: what an error quotes of a text that does not decode. Not modelled: RandomHex and
-- NewSessionID, the payloads of mongox (encoding/json alone), the pool of db/db.go, and logging and
-- redisx, which are I/O.
pub mod Common
pub mod Apperr
pub mod Result
pub mod Exec
pub mod Satoken
pub mod Permission
pub mod Middleware
pub mod Db
pub mod Health
pub mod Config
pub mod Mongox
pub mod Mysqlx
pub mod Objectstore
pub mod Jwtauth
pub mod Server
