-- ===== src/Lib.antt =====
-- The books API of demo-redis: a service that keeps books in redis, copies them to a bolt database
-- through queues, and answers HTTP requests. This library models its Go code and proves what makes
-- the parts correct, one by one and together.
--
-- The parts and how they interact:
--   a request passes a stack of middlewares (api.middlewares.go) and reaches a handler
--   (api.handlers.book.go, api.handlers.ops.go), which calls the service (api.services.go) and answers
--   through a response writer (helpers.response.go). The service writes to the primary storage
--   (repo.redis.go) and pushes what it wrote onto a queue (infra.queues.go); the consumer
--   (infra.consumers.go) pops the queues and writes to the backup storage (repo.bolt.go). The service
--   reads the backup where the primary does not answer.
--
-- The files:
--   Book          domain.book.go, and the validators and errors of helpers.common.go
--   Context       the context values of helpers.common.go and helpers.logging.go; Context/Values the same
--                 values under their keys, as the accessors read them
--   Clock, Ids    helpers.clocks.go, helpers.uuid.go
--   Redis, Bolt   the clients of redis and bolt, and encoding/json, as parameters with their laws;
--                 Redis/Scan what is promised of HSCAN
--   Store         `BookStorage`; Store/Contract its contract; Store/Redis repo.redis.go and Store/Bolt
--                 repo.bolt.go, with the proofs that they keep the contract
--   Queue         infra.queues.go, its contract, and that queues and storage are apart on one server
--   Service       api.services.go; Service/Refines its writers, Service/Read its `GetOne`,
--                 Service/Listing its `GetAll`, Service/Clear its `DeleteAll`
--   Consumer      infra.consumers.go; Consumer/Refines its rounds and that it catches up
--   Replica       an abstract view of service and consumer: two maps and three queues;
--                 Replica/Overlap the same between two accesses of a call
--   Mutex         goroutines at a lock, one access at a time; Mutex/Serial what they come to
--   Log           `RSyncWrite` of helpers.logging.go, with the laws of the files under it; Log/Locked its
--                 calls by many goroutines, Log/Setup `SetupLogging` and `SyncWrite`
--   Config        config.go
--   App           app.server.go: `Run` and the goroutines of its group as steps, `Clean`;
--                 App/New its `NewApp`, App/Connect the connections of repo.redis.go and repo.bolt.go,
--                 App/Main main.go
--   System        the service and the consumer as app.server.go puts them together; System/Delivery
--                 follows one write to the backup, System/Requests a request that writes, through
--                 the middlewares, its handler and the service,
--                 System/Agreement any interleaving of writes and rounds, System/Clearing the
--                 emptying of the primary storage, System/Losses the pushes and writes that fail,
--                 System/Overlap requests that overlap, access by access
--   Response      helpers.response.go; Response/Laws its writer under any sequence of calls,
--                 Response/Deadlines its accessors and deadlines
--   Api           api.handlers.core.go; Api/Books and Api/Index the book handlers, Api/Ops the handlers of
--                 the operations, Api/Ops/Publish the single writes to the maintenance mode,
--                 Api/Ops/Switching the mode as requests through both stacks switch and meet it,
--                 Api/Ops/Crashing how a request for the mode ends on its route,
--                 Api/Middleware the middlewares and what the stacks make of a handler,
--                 Api/Middleware/Locked the counting of statuses by many goroutines,
--                 Api/Middleware/InFlight requests that overlap with reports, Api/Middleware/Timeout a
--                 handler and its deadline, Api/Middleware/Panics where a panic goes, Api/Routes the
--                 routes of api.router.*.go, Api/SourceIp and Api/NotFound the source of a request and
--                 the answer to an unknown route
--   Doubles       tests.mocks.go
--   Tests         a server and a database in memory, and each theorem at a concrete input; Tests/Unit
--                 cases of tests.handlers.book_test.go
--
-- State and operations:
--   An operation of type A on a state S is an `Action S A`, S → A × S. The storages' states are
--   parameters: R for the redis server, B for the bolt database. `World` holds both and the environment
--   (time, randomness, contexts). A handler acts on an `Exchange`: the world, the statistics, the
--   maintenance mode and the response. Go's pairs of a result and an error are pairs of a result and an
--   `Option Error`. A function of the source that is called M on a type T is named m in the module
--   of T; a helper that models a part of a function says so.
--   `contents` and `content` are functions from the states to what the clients' documentation speaks
--   of: hashes and lists by key, and buckets. The laws say what a successful call does, and that a
--   failed write did all or nothing. They are assumed for the parameters and proved for the
--   server and the database in Tests/Memory.
--
-- Bounds and fuel:
--   The counters of requests and of statuses are uint64s: they are kept modulo 2 ^ 64. The size of a log
--   file is an int64, whose sums and products wrap around. `Consume` is an endless loop; here it takes
--   the number of rounds, and as many rounds as books are waiting are enough. `DeleteAll` of the redis
--   storage takes a number of rounds as well: a full iteration by HSCAN has a number of calls, given
--   by the laws of Redis/Scan, and as many rounds are enough. The loop of the service's `DeleteAll` is
--   over the list of the events that its `select` takes. A run of the application is a schedule of
--   steps, of any length, with a bound on that length.
--
-- Not modelled:
--   what zap does with a line that is logged, and the text of dates and durations; how httprouter finds
--   a route. The generated documentation is no part of the program. A handler acts as a whole on the
--   statistics and on the maintenance mode. What many goroutines make of the map of statuses, of the
--   log writer and of the mode, one access at a time, is in Api/Middleware/Locked, Log/Locked and
--   Api/Ops/Publish, and reports made under the read lock of the statistics are in
--   Api/Middleware/InFlight; two accesses that meet in one word of memory are not modelled. The calls
--   of the service and the consumer overlap in System/Overlap, without the write with which `GetOne`
--   puts a book of the backup back; Service/Read has what that write does. In the stacks a handler
--   that is overtaken by its timeout runs after the timeout's answer, with the response marked as
--   aborted; Api/Middleware/Timeout has the interleavings of their calls of the response's writer, with the
--   wrapper's tests of the mark apart from its writes. A goroutine that a handler starts runs as a whole when it is started. A graceful shutdown is taken to
--   return once its time is over; in `Run` a consumer waits in `Pop`, and `Serve` in `ListenAndServe`,
--   until the state outside lets it go on, which the calls of `Stop` bring about.
mod Prelude
pub mod Book
pub mod Context
pub mod Clock
pub mod Redis
pub mod Bolt
pub mod Store
pub mod Queue
pub mod Ids
pub mod Response
pub mod Service
pub mod Consumer
pub mod Replica
pub mod Api
pub mod System
pub mod Mutex
pub mod Log
pub mod Config
pub mod App
pub mod Doubles
mod Tests
