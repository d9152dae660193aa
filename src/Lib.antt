-- ===== src/Lib.antt =====
-- The scenario service of Overload Party: episodes that a player unlocks and completes, the
-- onboarding of a player, and the outbox that brings the onboarding's events to Pub/Sub.
--
-- A request goes from a handler (internal/handler/rest) to a use case (internal/usecase/story,
-- internal/usecase/onboarding), which calls its ports (internal/port): the Postgres repositories
-- (internal/repository/postgres), the script stores and the account client (internal/adapter). An
-- onboarding step writes its event to the outbox in the transaction of the step. The worker
-- (internal/handler/worker) runs the relay (internal/usecase/outbox), which claims events of the
-- outbox, publishes them (internal/adapter/pubsub) and marks them.
--
-- cmd/server opens the database, the clients and the HTTP server, and internal/router takes each request
-- to its handler, behind the authentication of the gateway. Other services call the API by
-- packages/api-scenario: its generated client (openapi_gen.go), wrapped by apiscenarioclient, and, in
-- their tests, the in-memory broker of apiscenariofake and the fake server of apiscenarioserverfake.
--
-- Files:
--   Common         helpers: Boolean tests on native numbers, lists, signed numbers (Common/Int).
--   Errors         Go's errors: the sentinels of internal/port, internal/usecase/story and
--                  internal/usecase/onboarding and apiscenarioclient, wrapping, errors.Is,
--                  errors.As, results with errors and panics; Errors/Action has calls on a state, Errors/Messages the texts.
--   Domain         internal/domain; Domain/Unlock on LockReasons.
--   ApiScenario    packages/api-scenario: the wire types and the JSON members of the events.
--   Presenter      internal/presenter; Presenter/Episodes on the rows of the episode list.
--   Port           internal/port as records of calls on a state; Port/Laws has what the story use
--                  case relies on.
--   Postgres       statements, failures and transactions; Postgres/Tables the tables of db/schema.sql;
--                  Postgres/StoryRepository, OnboardingRepository and OutboxRepository the three
--                  repositories, with their theorems in child modules.
--   Story          internal/usecase/story: ListEpisodes, GetScript, CompleteEpisode and their
--                  helpers, by the same names in lower case. Story/Access and Story/Decision on who is
--                  served, Story/Listing on the list of episodes, Story/Progress and Story/Tables on the record of completions, Story/ReplaceAll on
--                  strings.ReplaceAll.
--   Onboarding     internal/usecase/onboarding; Onboarding/Events builds the outbox events,
--                  Onboarding/Payloads says what is in them, Onboarding/Pairing,
--                  Completion, Repetition and Additions on the steps over the Postgres repository.
--   Outbox         internal/usecase/outbox: New, RunOnce, processOne (process_one and settle).
--                  Outbox/Run has the relay as cmd/server wires it, Outbox/Events, AtLeastOnce and
--                  Healthy its theorems.
--   World          the state of the whole service: the tables, and the messages delivered.
--   Adapter        internal/adapter/http, gcs, local and pubsub; Adapter/GameConfig is
--                  internal/repository/firestore.
--   Rest           internal/handler/rest: a handler's reply is its status, body and log line;
--                  Rest/Statuses and Rest/AccountErrors on the statuses.
--   Worker         internal/handler/worker.
--   Config         internal/config over a given environment; Config/Accepted on what it is good for.
--   Router         internal/router: the routes, the middleware, the handlers;
--                  Router/Authentication on refused requests, Router/Serving on replies.
--   Wiring         cmd/server: run as nested resources, with the record of what is opened and closed;
--                  Wiring/Serving has what runs behind them and the errgroup, Wiring/Logging the
--                  attributes of log lines, Wiring/Resources and Wiring/Shutdown the theorems.
--   ApiClient      packages/api-scenario/openapi_gen.go: ApiClient/Requests builds the requests
--                  (New…Request), Generated has the client and its operations, Responses the
--                  parsing (Parse…Response), WithResponses the operations that parse, and
--                  ApiClient/Wrapper is apiscenarioclient/client.go. Requests/Query and
--                  Generated/Construction have lemmas on the query and on NewClient.
--   Remote         the client over the router: what the network must do, and what each operation
--                  returns; Remote/Exchange follows one call, Remote/Story and Remote/Onboarding are
--                  the operations, Remote/Sentinels the errors. Remote/Routing matches paths
--                  with the router's patterns, Remote/Making says what requests are made of, and
--                  Remote/Answers follows a call to its route.
--   Fakes          packages/api-scenario/apiscenariofake: broker.go, publisher.go and subscriber.go
--                  (Fakes/Store the channels), typed.go (Fakes/Typed), uuid.go (Fakes/Uuid) and
--                  stream.go (Fakes/Stream), with theorems in Fakes/FanOut, RoundTrip,
--                  Uuid/Version, Stream/Order and Stream/Returning.
--   ServerFake     packages/api-scenario/apiscenarioserverfake; ServerFake/Defaults on a client of it.
--   System         cmd/server's composition: requests and relay runs as steps on the world;
--                  System/Invariant on what every sequence of them keeps, System/Requests on
--                  the requests that the router serves.
--   Tests          sample data and the theorems at concrete inputs.
--
-- A stateful call is a function from the state to a result and the state after it. What lies outside
-- the program is a parameter: the time of each statement, which statement fails and whether it took
-- effect all the same, the rows that other sessions lock and the collation (the record Conn), the fate
-- of a message at Pub/Sub, the answers of the account service, the contents of the script stores, the
-- UUID and the time of a request, the list of selectable factions. One value of these stands for what
-- one call of the program meets; a statement runs alone, so two requests interleave only between
-- calls. Every loop runs over a list, so there is no fuel.
--
-- Go's int and int64 are signed numbers without bounds, and the conversion int64(level) keeps its
-- argument; a column of type INT is bounded where the program adds to it (failure_count). Native
-- numbers count rows, attempts, microseconds and nanoseconds. The rows that the claim returns are in
-- the order of its selection, which SQL leaves open. A NULL title or number of a column that the
-- schema declares NOT NULL does not occur. The column player_id has the type UUID: its values are
-- compared as the texts that the program sends, so that a text which is no UUID is not refused, and
-- two spellings of one UUID are two players. What a handler of the fake stream returns depends on the
-- message and on the number of the call. The quotes of the verb %q in the texts of two errors are left out. The attributes of log lines, contexts and their
-- cancellation within a call, and the bytes of JSON documents are left out.
--
-- An HTTP request holds its method, its URL as a text, its header and its body's document; a response
-- its status, its Content-Type and what reading its body gives. The parsing of URLs, the styling of
-- parameters, the matching of routes, the encoding and decoding of documents, and the transport are
-- parameters; where a theorem needs of them that they carry a request or a document unchanged, the
-- records NetworkLaws, RoutingLaws, Sends, Arrives and Reaches say so. RoutingLaws speaks of plain
-- paths only: letters, digits, '-', '_' and slashes, below a server that is the root of a host. A message in a channel of the fake
-- broker is the document that it holds; the loop of Consume is a step relation, in which the other
-- goroutines take steps too.
--
-- Not modelled: in cmd/server the default logger, the exit code, and the start of the errgroup's
-- goroutines with their context, since these are calls of libraries: the order in which the goroutines
-- return is a parameter; the accessors Status and ContentType of the generated response types, which
-- nothing calls; ListenAndServe and the other calls of package net/http and httptest; the test
-- harnesses pubsubtest and postgrestest, which start containers.
pub mod Common
pub mod Errors
pub mod Domain
pub mod Wiring
pub mod Fakes
pub mod ServerFake
pub mod Remote
pub mod Router
pub mod ApiClient
pub mod ApiScenario
pub mod Presenter
pub mod Port
pub mod Postgres
pub mod Story
pub mod Onboarding
pub mod Outbox
pub mod Rest
pub mod World
pub mod Adapter
pub mod Worker
pub mod Config
pub mod System
pub mod Tests
