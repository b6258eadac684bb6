-- ===== src/Lib.antt =====
-- The registration saga service: what it models and what is proved of it.
--
-- The service (internal/application) registers a user in a saga: Start stores a session and its
-- steps and leaves a goroutine that publishes commands to the user and auth services; their
-- results, and those of the mail service, come back as events and advance or compensate the
-- session; VerifyEmail takes the code that was mailed and leaves a goroutine that verifies it,
-- activates the user and completes the session; GetRegistrationStatus lets one request claim its
-- tokens. The repositories (internal/infra/postgres) keep sessions and steps in two tables, the
-- gRPC server (internal/presentation/grpc) exposes the three requests, and the Kafka adapter
-- (internal/presentation/event_broker/kafka, wrapped in internal/fx/messaging.go) delivers the
-- events and publishes.
--
-- Which file models what. An operation keeps its name in snake_case.
--   Domain       internal/domain: records, states, errors
--   Store        the SQL of internal/infra/postgres/repository.go and the keys of
--                migration/postgres/000001, each statement as a function of the tables;
--                Store/Statement has the statements as data
--   Repository   the two repositories over the environment
--   World        what the service runs in, and its calls
--   Application  internal/application: Start (start.go, Start of service.go), Dispatch
--                (start_dispatch.go), Results, Progress and Realtime (service.go, realtime.go),
--                VerifyEmail (verify_email.go), Mapper (mapper.go)
--   History      the service over time: requests, events and goroutines in any order
--   Grpc         internal/presentation/grpc/mapper.go and the handlers of server.go; Start and
--                Shutdown of server.go (Server); the two clients (Clients)
--   Wiring       pkg/storage/postgres/postgres.go and the constructors of internal/fx that open
--                something
--   Broker       eventBrokerAdapter of internal/fx/messaging.go
--   Kafka        internal/presentation/event_broker/kafka: a worker's turn (Worker), the consumer
--                of broker.go with its loop, channel and workers (Consumer), the redeliveries of
--                its retry queue (RetryQueue), Publish and migration_mapper.go (Publish), the
--                subscribers (Subscribers, Wiring, Backoff), and the goroutine of
--                InvokeSubscribeRecovery in internal/fx/presentation.go (RecoveryLoop)
--   Nats         the legacy adapter in internal/presentation/event_broker/nats: the validator and
--                the adaptive plan (Nats, Plan), the fetcher and the workers of
--                pull_consumer_runtime.go (Runtime), the calls of broker.go (Client, Broker),
--                result_subscriber.go (Results), and pkg/messaging/nats/bootstrap.go (Bootstrap)
-- Store/Abstract is the abstract view of the tables, two maps, and what each statement promises on
-- them. Guarantee and Quiet hold proofs about all of Application; Exec has the functions that
-- return an error and change state, with the rules to reason about them; Tests has runs and
-- examples.
--
-- How effects are modelled. A use case is a function from a world to a result and a world. The
-- calls of the service are numbered, and the environment, a parameter of every theorem, decides
-- for each call whether it takes effect, fails, or takes effect and loses its reply, and which
-- statements of concurrent handlers and replicas reach the tables just before it. So a theorem
-- for every environment holds for all interleavings of statements and all failures of calls.
-- Within one process a goroutine runs from its start to its end as one event of a history; its
-- statements still interleave with those of others through the environment. `Quiet` is the case
-- in which every call succeeds and no one interferes. Hashing, UUIDs, the clock, JSON, the mail
-- address parser, the availability services, kafka-go and ofm-common are parameters.
--
-- The two consumers, the recovery goroutine and the gRPC server are step relations: a step is one
-- of the context, a hook, the loop or a worker, and a run is any sequence of steps, so that every
-- interleaving is a run. A worker's turn on a message
-- is one step, with the handler's call in it, which therefore returns. The messages that a consumer
-- has fetched, dropped or failed on are kept in lists that the source does not have, to say what
-- becomes of each. What the runner of the retry queue writes back is a parameter, with the
-- hypothesis that it carries at least the attempt that it was queued for; that Unwrap gives back
-- what Wrap was given is a hypothesis where it is used.
--
-- Loops are structural recursion; the only bound is the three attempts of syncSessionStatus, which
-- the source has too. Numbers are unbounded where the source only counts or compares; the integers
-- of the pull consumer's configuration are signed.
--
-- Not modelled: metrics, tracing and logging, which nothing reads; sleeps; the hooks of
-- internal/fx for metrics and the result subscriber, the order in which the container runs
-- constructors and hooks, and configuration loading, which are libraries; dialling; the list of
-- readers that Close goes through, and Kafka partitions.
pub mod Prelude
pub mod Domain
pub mod Exec
pub mod Store
pub mod World
pub mod Repository
pub mod Application
pub mod History
pub mod Guarantee
pub mod Quiet
mod Tests
pub mod Grpc
pub mod Wiring
pub mod Nats
pub mod Broker
pub mod Kafka
