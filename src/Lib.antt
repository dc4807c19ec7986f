-- ===== src/Lib.antt =====
-- A model of the plugin: the package internal/access, which keeps keys, quotas, prices, usage and
-- routing state in an SQLite database and decides for each request whether it may pass, which provider
-- serves it and with which credential; and the package internal/plugin, which the host calls: it
-- decodes the requests, calls internal/access, and serves the management API.
--
-- The parts, each under the name of a module:
--   Base: numbers, integers, lists, sorting, and texts as lists of ASCII bytes.
--   Access.Types, Access.Limits: the values of internal/access/types.go, and limits.
--   Access.Db: the Store of internal/access/store.go. Db.Schema has a record for each table. An
--     operation is a function from a State to a result and a State; a statement runs against the
--     tables or fails as a whole, as the list `faults` of the state says, so that a theorem for all
--     states is one for every pattern of failures. `transaction` is BeginTx, the body, Commit and the
--     deferred rollback. Db.Keeps, Db.Reads and Db.Success hold the rules of reasoning on operations.
--   Access.Time: times as seconds and nanoseconds since the first of January of the year 1, formatTime
--     and parseTime. A stamp is the text that is stored, byte by byte; Access.Calendar prints and reads
--     its date and its time of day. The parser wants four digits of the year and two of the rest, as
--     formatTime writes them, and reads any fraction to the nanosecond.
--   Access.Normalize: normalizeProvider, normalizeTargetType, ProviderInstanceID and small helpers.
--   Access.Keys (with Keys.Token), Access.Bindings, Access.Groups, Access.Quota, Access.Prices,
--     Access.Auth, Access.Scope, Access.Inventory, Access.HostFiles, Access.AuthFiles, Access.Usage
--     (with Usage.Summary): the operations of internal/access/store.go, each under its name in
--     snake case (CreateKeyWithPlain is create_key_with_plain, PriceRule is find_price_rule,
--     priceRule is stored_price_rule).
--   Access.Routing: internal/access/routing.go. Each routing call is one step, as `routingMu` makes the
--     call of PickCandidateRouted; ChooseProviderRouted reads the key, the scope and the prices before it
--     takes that lock.
--   Access.Clean, Access.Linked: two invariants of the tables. Clean.Invariant is the interface that
--     an invariant fills, with one law for each statement that writes; Clean.Operations, Clean.Catalog,
--     Clean.Traffic, Clean.Routed and Clean.Files carry any such invariant through the operations, and
--     Clean.Run through a sequence of them.
--   Plugin.Types: internal/plugin/types.go. Plugin.Values, Plugin.Millis, Plugin.Handlers, Plugin.Ledger:
--     the helpers and the handlers of internal/plugin/app.go (authenticate is handle_auth, routeModel
--     handle_route, pickScheduler handle_pick, handleUsage handle_usage), with routing_session.go in
--     Values. Plugin.Detail: UnmarshalJSON of types.go. A handler returns a Reply, the envelope, and
--     the App with the store after it.
--   Plugin.Service: NewApp, configure, Shutdown and HandleMethod as a sequence of events; an event that
--     configures comes with what is in the database files.
--   Plugin.Management: internal/plugin/management.go, one child for each resource; `dispatch` is the
--     switch of handleManagement on the path, and Management.Update is handleCPAUpdate.
--   Plugin.Inventory: provider_inventory.go. Plugin.PriceSync: price_sync.go. Plugin.Update:
--     cpa_update.go, all of internal/plugin.
--   Tests: the theorems at concrete inputs, and in Tests.Cases cases of internal/plugin/*_test.go.
--
-- Conventions. Amounts of money are whole numbers of 10^-12 USD, where the code has float64; the
-- division by a million of CalculateUSD is then a change of unit. A float64 of a request is a whole
-- number of 10^-12, and one that becomes an int64 is in its range. Token counts are integers, and a
-- difference of them wraps around as int64 does, and so does the sum in nanosToMillis. The readings
-- of the clock and of the random source are arguments. Maps and sets are lists, and statements that
-- sort do so by insertion.
--
-- Bounds. The recursion of applyTarget has fuel 2: a group is never a member of a group. The cursors
-- of routing are uint64.
--
-- Parameters. SHA-256, net/url and SQLite's LIKE are the record Platform. Library has the decoding of
-- requests, fmt.Sprint, strconv, time.ParseDuration and the canonical names of headers; Outside has the
-- decoding of bodies, the callbacks of the host and HTTP; Machine has paths, files, the environment
-- and the shell.
--
-- Not modelled: opening and migrating the database file, the tables of registration and
-- managementRegistration, which are constants, the encoding of results as JSON, the pages and the
-- version probe of the management API, cmd/cpa-toolkit with its C interface, and internal/web.
pub mod Base
pub mod Access
pub mod Plugin
pub mod Tests
