-- ===== src/Lib.antt =====
-- Knobs: a typed remote configuration and feature flag server, its delivery to clients and its Go
-- SDK.
--
-- The server keeps the configuration of each environment as numbered versions, validates what is
-- saved against the project's schema, and delivers snapshots to SDKs over a stream, in full or as
-- deltas. The SDK holds the snapshot in memory and gates every update on the revision.
--
-- Files, and the code that they model:
--   Base, Assoc: shared helpers; Go's maps as association lists with the nil map apart.
--   Value: the JSON values, over abstract floats.
--   Schema, Schema.Definition, Schema.Document: internal/schema/schema.go.
--   Codegen.Names, Types, Emit: internal/codegen/go.go, ts.go and codegen.go, over texts that are
--     lists of code points.
--   Targeting, Targeting.Eval, Targeting.Validate: internal/targeting/targeting.go, eval.go and
--     validate.go; Targeting.Laws, Targeting.All and Targeting.Validate.Sound hold their laws.
--   Delivery.Snapshot, Delivery.Delta: internal/delivery/snapshot.go and delta.go.
--   Delivery.Hub: internal/delivery/hub.go. A channel is a queue with a closed flag, kept by number;
--     a panic is `none`. Delivery.Hub.Safe, Reach, Close and Run hold its laws.
--   Delivery.Listener: internal/delivery/listener.go, the payload that the writing handlers send to
--     it, and the loader of internal/app/app.go. Numbers are printed with as many steps as their
--     value, which are enough for their digits. Delivery.Listener.Loop is its loop: what connections,
--     the context and other goroutines do comes in round by round, and the rounds that are run are
--     counted, with a theorem on how many suffice.
--   Authz, Api.Access: internal/authz/authz.go and internal/api/authorize.go.
--   Store: internal/store, the tables, and the queries that the handlers make of them. Store.Projects
--     has those of projects.go and environments.go, Store.Listings those that list rows, Store.Keyed
--     what a UNIQUE constraint comes to.
--   Api.Values: internal/api/values_handlers.go, versions_handlers.go and schema_handlers.go, the
--     handlers that write. A handler maps the tables to the tables and its reply. Transactions,
--     Laws, Grows and Advances of Api.Values have how the transactions end; Api.Values.Answered has
--     what an answer to a save shows, and Api.Values.Run the runs of these and of the handlers of
--     projects and environments; Api.Values.Live and Usable and Api.Projects.Named have laws of
--     such runs.
--   Api.Requests: the runs of all requests that can change a table, those above with those of
--     members, keys and SDKs; Api.Aside and Api.Values.Apart have which tables each kind leaves alone,
--     and Api.ApiKeys.Homes what the rows of the keys keep to.
--   Api.Projects: internal/api/projects_handlers.go and environments_handlers.go.
--   Api.Audit: internal/api/audit_handlers.go; Api.Audit.Trail has what the handlers that write leave
--     in the log. Api.Reads: the other handlers that read, whose query may be of any of the tables.
--   Auth, Api.Login: internal/auth/auth.go, and internal/api/auth_handlers.go, middleware.go and
--     clientIP; Api.Login.Guesses has sequences of logins on top of Api.RateLimit.Window, and
--     Api.Login.Session one login and the requests behind it.
--   Store.Members, Api.Members: internal/store/organizations.go and users.go, and
--     internal/api/org_handlers.go, the handlers that write; Api.Members.Slug derives the slugs.
--     Api.Members.Owners has the runs of the four handlers, Laws, Grants and Create their laws.
--   Store.ApiKeys, Api.ApiKeys: internal/store/apikeys.go, and internal/api/apikey_handlers.go,
--     apikey_guard.go, snapshot_handler.go and schema_delivery_handler.go.
--   Api.Stream: internal/api/stream_handler.go.
--   Api.RateLimit: internal/api/ratelimit.go; Api.RateLimit.Window has its history of calls.
--   Sdk.Delta, Sdk.Client, Sdk.Http, Sdk.Stream: sdk/go/delta.go, knobs.go, http.go and stream.go;
--     Sdk.Eval and Sdk.Evaluate: the evaluator and the readers of eval.go, and Sdk.Eval.Same the
--     comparison with the server's; Sdk.Gate and Sdk.Live hold the laws of the revision gate and of
--     the two goroutines.
--   Sdk.Sse: the lines and events of a response, sdk/go/stream.go; Sdk.Sse.RoundTrip also has what
--     internal/api/stream_handler.go writes; Sdk.Stream.Backoff, the delays of the reconnecting loop.
--   App: internal/config/config.go, and seedAdmin of internal/app/app.go.
--   EndToEnd, EndToEnd.Session: the stream handler read by the client, frame by frame and from
--     the request to the end of the stream; EndToEnd.Ready, the start of a client against the
--     snapshot handler and internal/api/respond.go; EndToEnd.Publish, a rollback as the client
--     reads it from the snapshot handler; EndToEnd.Notify, a save as the hub's subscribers see it;
--     EndToEnd.Typed, a save as the client evaluates it, where Schema.Rules makes what the handlers
--     ask of a schema out of internal/schema and internal/targeting.
--
-- Conventions. Versions, revisions and ids are natural numbers: the database counts them up from 0
-- or draws them at random, and none wraps. Values of the configuration and rule lists are of any
-- type with a decidable equality, which stands for reflect.DeepEqual; only the evaluator looks into
-- them. What comes from outside (a query, an HTTP request, a write to a socket) enters as a value
-- that says how it ended. A transaction is one step: a failure, also of the commit, leaves the
-- tables as they were, and an id, which is the key of its row, is fresh by a counter. The queries
-- that a handler makes outside of a transaction are one step too, also where the source makes
-- several of them, as the snapshot handler and the loader do: a snapshot that mixes the tables
-- before and after a write is not in the model. The entries of the log are in the order of their
-- commits, where the source has the times at which their transactions began. Texts whose characters
-- matter are lists of code points, or of bytes in Sdk.Sse; all others are strings. Loops are
-- recursions over the lists that the source ranges over, or over the twenty attempts at a slug, so
-- that no other bound is needed but that of the listener's rounds. Rows stand in their tables in
-- the order of their creation, which is how the listings by time have them.
--
-- Parameters: the Unicode tables, strconv.Quote, %v and go/format of the emitters, the compiler of
-- JSON Schemas, the library of JSON Web Tokens, bcrypt, SHA-256, uuid's printing and parsing,
-- net.SplitHostPort, the database's lower() and its order of texts, floats, and, of the requests of
-- the SDK, the transport, JSON and strings.TrimSpace.
--
-- Not modelled: the connections of the listener, the start and shutdown of the server, the commands
-- and the paths of the routes. Of the tables, the creation times, the diffs of the log and foreign
-- keys. JSON encoding, sockets and the failures of the database that are not named.
pub mod Base
pub mod Assoc
pub mod Value
pub mod Schema
pub mod Targeting
pub mod Delivery
pub mod Sdk
pub mod Authz
pub mod Store
pub mod Api
pub mod Codegen
pub mod EndToEnd
pub mod Auth
pub mod App
