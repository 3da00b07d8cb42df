-- ===== src/Lib.antt =====
-- Webhook subscriptions and the ingestion of events.
--
-- The program is three services. `packages/webhook-api` is an HTTP API on which a tenant keeps its
-- webhook subscriptions: a guard reads the caller's identity from the headers, a use case loads a
-- subscription from a MongoDB collection or makes one, calls its methods, saves it and publishes
-- the events that it recorded, and a filter answers what is thrown.
-- `packages/event-ingestion-worker` takes events off a broker's queue and keeps each once in an
-- inbox collection, under a dedup key. `packages/idp` has a route on which a developer publishes an
-- event onto that queue.
--
--   Common        texts as lists of UTF-16 code units, lists over the native numbers, code that
--                 throws (Common/Exec) and code that throws and changes state (Common/State),
--                 `toISOString` (Common/Dates) and a `Map` (Common/Stores).
--   Subscription  packages/webhook-api/src/domain/subscription: ValueObjects (`fromString`,
--                 `equals`), PrivateHost (`isPrivateOrReservedHost` and what it calls), TargetUrl
--                 (`TargetUrl.fromString`), Events, Aggregate (`WebhookSubscription`). A method
--                 takes the object and the clock (`Held`) and gives back both, and an exception if
--                 it throws; what was written before a throw stays written.
--   Persistence   `toDocument` and `toAggregate` of
--                 packages/webhook-api/src/infrastructure/subscription/subscription-mongo.repository.ts.
--   Repository    the rest of that file, `SubscriptionMongoRepository`, over a collection that is a
--                 record of operations with laws; Fills makes of it a repository for the use cases;
--                 Memory is `InMemorySubscriptionRepository` of
--                 packages/webhook-api/src/application/use-cases/support/fakes.ts.
--   UseCases      packages/webhook-api/src/application: Ports is the repository as an interface,
--                 its operations with a law for each in terms of the documents that the database
--                 holds; World is the database, the clock, the ids that `uuidv7()` returns, and the
--                 events published so far; Execute has the `execute` of each use case, and Interleaving
--                 the steps of requests that are under way together.
--   Presentation  packages/webhook-api/src/presentation: Identity (`IdentityGuard`), Paging
--                 (`PaginationInterceptor`), Responses (`DomainExceptionFilter`,
--                 `EnvelopeInterceptor`), Dto (subscriptions/dto/subscription-response.dto.ts),
--                 Masking (`TargetUrlMaskingInterceptor`), Requests (the DTOs, the decorators of
--                 parameters), and Controller (`SubscriptionsController`, whose routes `serve`
--                 runs from the guard to the envelope).
--   Ingestion     packages/event-ingestion-worker/src: Inbox (domain/inbox), Store (the
--                 repository's port and `InboxMongoRepository`), Memory
--                 (`InMemoryInboxRepository`), Ingest (`IngestEventUseCase`), Runtime
--                 (`parseEnvelope`, `IngestionRuntimeService.handle`, `handleMessage`),
--                 Interleaving (the handlers of several messages under way together, as steps).
--   Sandbox       packages/idp/src/sandbox-api: `CorrelationIdInterceptor`, `CreateEventDto`,
--                 `SandboxController.create`, `SandboxService.publish` and
--                 `RabbitMqBrokerPublisherAdapter.publish`.
--   Launcher      scripts/dev.mjs, which starts the apps for development: Discovery
--                 (`workspaceDirs`, `describeApp`), EnvFile (`parseEnvFile`), Dependencies
--                 (`collectDependencies`), then from the arguments to the start of the apps, and
--                 Session (the `exit` callback of `start`, `watchHttpApps` and `stopAll`, as steps).
--   Setup         scripts/setup-claude.mjs, the loop over its links.
--   Checks        the theorems at concrete inputs; Samples has a repository of subscriptions that
--                 is a list, Deliveries an inbox collection that is a list.
--
-- The parts meet in two interfaces: UseCases/Ports.SubscriptionRepository, which the use cases
-- take and Repository/Fills fills, and Ingestion/Store.InboxRepository, which the worker takes
-- and `mongo_repository` and Ingestion/Memory fill. Sandbox/Delivered follows an event from the
-- route to the inbox. Proofs stand in child modules named for what they are about:
-- Aggregate/Lifecycle and Aggregate/History (its steps: Aggregate/Changes), PrivateHost/Ranges
-- and PrivateHost/Ipv6, TargetUrl/Accepts, Persistence/RoundTrip, UseCases/Guarantees, Replies
-- and ReadAfter, Interleaving/Kept and Revived, Ingestion/Ending and Ingestion/Guarantees,
-- Repository/Listing and Repository/Pages, Masking/Visible and Masking/Shape,
-- Interleaving/Safe and Interleaving/Answered, Controller/Hidden, Controller/Refusals,
-- Controller/Created, Launcher/Started, Launcher/Groups, Discovery/Described,
-- Dependencies/Grouped and Listed, Setup/Again, EnvFile/RoundTrip, and Session/Apps, Coherent, Idle and Stopping.
--
-- Parameters stand for code that is not in the repository: the URL constructor, the check of the
-- uuid package, the decorators of class-validator and the pipe that applies them, the printing
-- and parsing of JSON, `Math.random`, the file system, `path.join` and `Number` of the scripts,
-- the drivers of the collections and of the broker. All functions recurse on their data, so no
-- fuel is needed. Numbers are exact; the source's are doubles, exact below 2 ^ 53. A date is its
-- number of milliseconds.
--
-- Not modelled: log lines, the framework's wiring, the documentation of the routes, the version
-- routes, the connections to the broker and the databases, and of the scripts for developers the
-- probes of the services, the signals to children, and what is printed.
pub mod Common
pub mod Subscription
pub mod Persistence
pub mod UseCases
pub mod Presentation
pub mod Ingestion
pub mod Repository
pub mod Sandbox
pub mod Launcher
pub mod Setup
pub mod Checks
