-- ===== src/Lib.antt =====
-- strike-reserve: the booking service of a bowling alley, as a model of its Go code.
--
-- The program takes HTTP requests (app/internal/handler), runs services on them (app/internal/service)
-- and keeps lanes, schedules, slots, users and bookings in PostgreSQL (app/internal/repository, with
-- the schema of migrations/001_init.up.sql). A lane has at most one schedule; making the schedule
-- cuts its working hours into slots; a user books a slot, and may cancel the booking. A cache keeps
-- the available slots of a lane's day, and a background generator makes the slots of later days.
--
-- Files, and the code that they model:
--   Base              lists, tests, rows and machine integers that the other files share
--   Clock             the parts of package time that are used; service/utils.go
--   Models            models/models.go; Models/Hms: models/time.go
--   Errors            repository/errors.go (wrapDBError), service/errors.go
--   Db                the tables and constraints of migrations/001_init.up.sql; Db/Intact: what the
--                     constraints promise of every state of the tables
--   World             what a request can see and change, and `Env`, everything outside the code
--   Exec              actions with errors as values, statements, transactions; Exec/Keeps: invariants
--                     of actions; Exec/Runs: what a chain of actions did; Exec/Tx: transactions
--   Repository        one file for each file of app/internal/repository, one function for each method;
--                     Repository/Keeping: what the methods keep of the tables, from what the statements
--                     keep; Repository/Integrity: their integrity
--   Service           Bookings (booking.go), Lanes (lane.go), Generation (the loops that lane.go and
--                     slot_generator.go share), Generator (slot_generator.go), Users (user.go), Auth
--                     (auth.go), Cache (the use of the cache in lane.go); the files below Bookings,
--                     Generation and Lanes hold proofs, except Bookings/Racing (statements of
--                     several calls of booking.go, interleaved), Lanes/Sharing (lists beside them) and
--                     Bookings/Ledger (what the booking service is for, without rows); Keeping: what
--                     each method keeps of the tables; Timetable: where slots stand
--   Handler           Api (handler/utils.go, errors.go), Middleware (who is calling) and Context (what is
--                     handed on) for middlewares.go, utils.go and pkg/logger; Bookings, Auth and
--                     Lanes (handler.go)
--   Server            app/internal/app: routing, the generator beside it, histories of events
--                     (Server/Keeping and below), Server/Timetable: slots that do not overlap;
--                     Server/Routes and Server/Wire: the table of routes, parameters and bodies
--                     (app/internal/api/api.gen.go), and Server/Wire/Meaning: what a request means by
--                     its parts; Server/Declared: the statuses that the interface declares
--   Redis             cache/redis.go, which fills the slot cache of the services; Redis/Keys: its texts
--   Closer            closer/closer.go
--   Config            config/config.go: the records and their tags; Config/Loading: the defaults, Load;
--                     Config/Settings: what app/di.go reads of it; Database: database/db.go
--   Container         app/di.go and the start and end of app/app.go, on Closer, Config and Database
--   Program           cmd/main.go; Program/Serving: the server that a configuration starts
--   Seed              app/seed/main.go: its steps; Seed/Start: its flag, configuration and connection
--   InMemory          cache/inmemory.go, the cache of the seed script
--   Examples          the theorems at concrete inputs
--
-- How state corresponds: `World.db` is the database, `World.cache` the slot cache (any type with the
-- three operations of service.Cache), `World.ticks` counts the uses of the outside. A method with
-- (value, error) is an `Exec`: its result is a value or an error, and the changed world comes with
-- both. An error value keeps its sentinel, which is all that errors.Is asks for. A read of a nil
-- pointer is `Error.panic`, which no code catches, and ends as `Response.crashed`.
--
-- Conventions. A UUID is an opaque number. An instant is the number of nanoseconds since 1 January of
-- year 1 in UTC, and a date text the number of its day. int and uint64 have 64 bits, and their
-- conversions and the product of GetList wrap around. Days of the week in a schedule are not negative.
-- SQL is read as a language, with the keys, checks and foreign keys of the migration; a stored time
-- is not rounded to microseconds. A statement that meets a failure of the driver is not carried out.
--
-- Outside the code, and so parameters: the driver's failures and the server's error texts, new
-- identifiers, clock readings, the zone of the process, the order of names and the TIME type of
-- the server (`Env`); the cache (`Env`), and behind it the Redis client and JSON (`RedisClient`,
-- `Json`); the transaction manager (`TxManager`, with what the services rely on as
-- `IsTransactional`); bcrypt, jwt and the validator (`Bcrypt`, `Jwt`, `Validator`, `Checks`); viper,
-- pgxpool, golang-migrate, golang-lru and math/rand (`ViperLib`, `Pgx`, `Migrations`, `Lru`, `Rng`);
-- how the server starts and what closing a resource does (`Resources`);
-- the router and Bind of echo, and the runtime of the generated code (`Echo`).
--
-- Fuel: the slot loop moves by at least a nanosecond a round when the slot duration is positive,
-- so `suc (end - t)` rounds are enough; for a duration of 0 the code's loop does not end, and the
-- theorems ask for a positive duration, which each configuration that is loaded has. The loops over
-- days count the days of the range.
--
-- Requests at the same time: Server handles events one after another. Bookings/Racing has the
-- statements of calls of Create and the commits of Cancel as steps in any order, on the committed
-- tables, where an insertion waits for one of the same key that is not committed. Lanes/Sharing puts
-- the reads and writes of the cache beside them, step by step: GetAvailableSlots and
-- InvalidateSlotsCache.
--
-- Not modelled: the JSON that responses are written in, docs and mocks; what is logged, and the set-up
-- of the logger; the deadlines of contexts; swagger and the information page; the signals that begin a
-- shutdown (its world is whatever the requests have left).
pub mod Base
pub mod Models
pub mod Errors
pub mod Db
pub mod Clock
pub mod World
pub mod Exec
pub mod Repository
pub mod Service
pub mod Handler
pub mod Server
pub mod Examples
pub mod Closer
pub mod Redis
pub mod Config
pub mod Database
pub mod Container
pub mod Seed
pub mod Program
pub mod InMemory
