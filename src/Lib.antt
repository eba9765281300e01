-- ===== src/Lib.antt =====
-- Verification of the internal developer platform: the HTTP API (services/api) that takes
-- provisioning requests, and the provisioner (services/provisioner) that consumes them.
--
-- A request to the API passes a chain of middlewares (Chain: services/api/internal/adapters/inbound/
-- http/middleware.go, metrics_middleware.go and the chain of router.go) and, for POST /v1/provision,
-- the idempotency middleware (Idempotency: idempotency_middleware.go beside it, over the port
-- services/api/internal/domain/ports/outbound/idempotency_store.go and its implementation
-- services/api/internal/adapters/outbound/idempotency/redis_store.go). It reaches a handler
-- (Handlers: auth_handler.go, resource_handler.go, health_handler.go, validation.go, response.go),
-- which calls a service (Services: services/api/internal/application/service, over the ports of
-- services/api/internal/domain/ports/outbound and, for Cognito, adapters/outbound/cognito); the
-- resource service publishes a message, with the trace context in its headers (Services.Publish, with
-- the carriers in Tracing: services/api/internal/adapters/outbound/kafka and sqs,
-- resource_publisher.go), which the provisioner receives (Consumer: services/provisioner/internal/
-- consumer; its propagation.go is in Tracing). Api is the table of routes of router.go and puts POST
-- /v1/provision together, from the router to the queue; Api.Swagger is swagger_handler.go.
-- Services.Publish.Traces follows a trace from the publisher to the consumer. Idempotency.Contract
-- states what the operations of the store do, as a ledger of claims; Contract.Documented compares that
-- with the port's comment on Complete. Idempotency.Expiry says how long a record can stand, whatever
-- fails.
--
-- The processes: Bootstrap is services/api/internal/bootstrap/application.go, Infrastructure
-- services/api/internal/infrastructure (aws.go, redis.go), Server services/api/internal/server/
-- server.go with services/api/cmd/server/main.go, Provisioner services/provisioner/cmd/consumer/main.go
-- with services/provisioner/internal/telemetry/telemetry.go. Telemetry is services/api/internal/telemetry.
-- Startup is what they share: errors that
-- fmt.Errorf wraps, and steps (Run) that open and close parts and end at the first error.
-- ValueObjects is services/api/internal/domain/valueobjects/valueobjects.go, DomainErrors
-- services/api/internal/domain/errors/errors.go, Config services/api/internal/config/config.go, Logger
-- services/api/internal/logger/logger.go, with which services/provisioner/internal/logger/logger.go
-- agrees but for a comment.
--
-- How code corresponds to definitions:
-- - Http.Response is net/http's ResponseWriter as the code uses it: a header map, the status line
--   once it is sent, the body. A handler is what it does to its writer (Script): a list of Header().Set,
--   WriteHeader and Write, and whether it returns or panics. Header names are canonical. WriteHeader
--   with a status from 100 to 199 leaves the response open; a status such as 204 or 304 sends no body.
--   The errors of Write, which no handler reads, and statuses outside 100 to 999, on which WriteHeader
--   panics, are left out.
-- - Idempotency.Program is the tree of Redis commands that the Go code sends: Reserve, Complete,
--   Release and get of RedisStore are Idempotency.Store's reserve, complete, release and get_record;
--   the middleware is idempotency_middleware, over any store. `run` runs a tree alone; Exclusion
--   interleaves many, command by command. Each command meets a Link: it arrives, is lost, or its reply
--   is lost. The server's and the client's clocks are read at each command, in milliseconds. go-redis
--   may send a command again whose reply was lost: Exclusion has such steps for every command but that
--   of Release, Expiry for every command; elsewhere a command runs at most once.
-- - Idempotency.Redis states what the documentation of Redis says of SET NX PX, GET, EXISTS, SET PX
--   and DEL on one key, and translates the two Lua scripts. encoding/json is a Codec; CodecLaws names
--   what is relied on: dates before the year 10000 marshal, what is marshalled is read back with the
--   same fields, and the word IN_FLIGHT, as the state or a header's value, stands in double quotes.
--   QuotesOnly names the converse: the search finds the quoted word only where a text of the envelope
--   is the word or ends with a double quote and the word, for encoding/json escapes inner quotes.
--   uuid.Parse, SHA-256 and the encoding of error responses are fields of Platform.
-- - A Go map is a list of pairs, or a function; set_all fixes one of Go's orders of iteration.
-- - A text is a list of code points (ValueObjects, Handlers) or of bytes (Config) where its
--   characters matter, and a String elsewhere. Case mapping beyond ASCII is a parameter (CaseTables).
-- - The consumer's loops read the answers of the broker from a list of rounds; where the rounds end,
--   the context is cancelled. Consumer.Cancellation has the loops as they are written, over a context
--   that is cancelled at some round, on fuel, of which one more than that round's number is enough.
--   All other loops are structural recursion.
-- - Idempotency.Exclusion interleaves requests with time that passes while no reservation runs out
--   under its owner; in Idempotency.Expiry any time passes.
-- - logrus is a record of operations on entries and settings (Logger.Logrus); LogrusLaws names what is
--   relied on: what is added to an entry is laid over what it has. A propagator is a list of calls of
--   Set and a function of Get.
-- - New, Setup and both mains run over any answers of the libraries that they call: the exporters'
--   constructors, the AWS configuration, the Parameter Store, the PING. What they open is a Part, an
--   event says that it was opened or closed, and still_open gives what is open after some events, the
--   last opened first. A pointer that is only compared with nil is a flag. In main Start's select is
--   the event that it receives first; Server.Races has Start in any order of its events.
--
-- Not modelled: how the mux matches a path, the library validator behind ValidateStruct, time spent,
-- the log lines outside the middlewares, the handlers and the consumer, what the Swagger interface
-- serves, the scaffolder (C#), the test doubles and the infrastructure as code.
pub mod Shared
pub mod Http
pub mod Chain
pub mod Idempotency
pub mod Text
pub mod ValueObjects
pub mod Consumer
pub mod Tracing
pub mod Config
pub mod Handlers
pub mod DomainErrors
pub mod Services
pub mod Startup
pub mod Infrastructure
pub mod Logger
pub mod Bootstrap
pub mod Server
pub mod Provisioner
pub mod Api
pub mod Telemetry
