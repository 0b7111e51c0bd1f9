-- ===== src/Lib.antt =====
-- The node of a proxy network: a panel sends it an Xray configuration and users over HTTP, and it
-- runs xray-core in its own process. This library models the part that decides: the state that the
-- node keeps about the running configuration, the decision whether a start request restarts the
-- core, the instrumentation of the configuration, the users that are added to and removed from the
-- running core, the statistics that are read from it and from the host, and what stands before all
-- of this: the environment, the secret, TLS and the tokens.
--
-- The parts and their files:
--
-- - Json: the values that encoding/json decodes, with the deep copies of internal/state/runtime.go
--   and internal/xray/config.go. A map is a list of entries that is read and written by key.
-- - State: internal/state. State/Runtime is the record RuntimeState with the writes of a start and
--   a stop; State/Hashes the comparison of configuration hashes (sameHashes); State/Restart the
--   method RestartDecision; State/Inbounds the tags, protocols and user hashes of inbounds.
-- - Xray: internal/xray. Xray/Config is ConfigBuilder.Build; Xray/Users is BuildProtocolUser;
--   Xray/StatNames and Xray/Stats are the names of counters and the traffic queries; Xray/Core is the
--   interface that the controllers use, Xray/Core/Stats that of the statistics, and
--   Xray/Core/Embedded the type EmbeddedCore that fills both, the second in its module Queries.
--   Xray/Routing has the rules of the router of the running core. Xray/Geodata is PrepareGeodata of
--   geodata.go over a disk, with an attempt for each asset.
-- - Controller: internal/controller. Controller/Handler is handler_controller.go (AddUser, AddUsers,
--   RemoveUser, RemoveUsers, DropUsersConnections, DropIPs), Controller/Lifecycle is
--   xray_controller.go (Start, Stop, Healthcheck); both work on a Node, the runtime state and the
--   world behind the interface. Controller/Stats is stats_controller.go, and Controller/Internal the
--   answer of internal_controller.go with derivePanelSni of registry.go.
-- - Environment: internal/config. Environment itself is Load of env.go with the readers of single
--   variables; Environment/Secret is DecodeSecretKey and NormalizePEM, and Environment/Validate the
--   report ValidateNodePayload of validate.go.
-- - Http: internal/httpapi. Http/Tokens is jwt.go and the port guard of middleware.go, Http/Body the
--   zstd middleware, Http/Tls tls.go, Http/Routes the tables of router.go, and Http/Server how
--   server.go puts them together: NewServer, the chain that a request passes, the listeners of
--   ListenAndServe and the errors of Shutdown.
-- - System: internal/system. System/Route is the default route and HasNetAdmin, System/Sampler the
--   sampler of network rates, System/Snapshot the payload SnapshotStats.
-- - Geocheck: internal/geocheck, the bounded output of the geocheck binary and a run with its guard.
-- - Logview: the tables of internal/logview/table.go, on bytes, and in Logview/Handler the log handler
--   of handler.go, which derives handlers and colours lines, over slog's text handler.
-- - Panel: internal/testkit/panel_client.go and cmd/panel-integration. Panel/Redact masks secrets,
--   Panel/Client and Panel/Requests make requests and classify the answers, Panel/Nodes reads the status
--   of nodes, Panel/Wait has the commands that change a node and wait for it, Panel/Smoke those that
--   only read.
-- - Contractdiff: internal/contractdiff, the comparison of manifests of files, with the scan of a
--   repository in Contractdiff/Scan; cmd/contract-diff is Contractdiff/Gate, and Contractdiff/Extract
--   the extraction of a tarball.
-- - Golang: what the code uses of Go's packages strings, strconv and path/filepath.
-- - Common: lists, maps, texts, sorting and results. A set of strings is a list without repetitions,
--   and a map an association list; their laws are in the form of an if, so that they rewrite.
-- - Examples: the theorems at concrete inputs, over a small library that stands for xray-core.
--
-- How the parts interact. A controller reads and writes the RuntimeState and calls the core. The core
-- is a section parameter, a record of operations on a type World of its own; IsCore has the three
-- laws that the lifecycle relies on, and Xray/Core/Filled shows that EmbeddedCore keeps them for any
-- library. What the code calls of xray-core, encoding/json, encoding/base64 and of the kernel's
-- connection tracking is a parameter (Library, StatsLibrary, marshal, encode, drop).
-- The server is made from the configuration that Load gives: NewServer decodes and validates the
-- secret, derives the TLS settings and puts the token middleware before the zstd middleware. The
-- libraries of that part (Crypto, Libraries) are records of functions too; that the JWT library
-- verifies signatures is the hypothesis Verifies.
--
-- Conventions. An error is its text, and `none` is nil. A body that does not decode is `err`. Methods
-- of RuntimeState hold its lock for their whole body, so each is one function on the record; the
-- handlers are modelled as they run when no other request comes between their steps.
-- Controller/Lifecycle/Exclusive lets the steps of all requests interleave around the guard of Start,
-- and Controller/Lifecycle/Raced puts a Stop into the middle of a Start. The ticks of the sampler are
-- the steps of a sequence, each under its lock. A float64 rate is a parameter that says on which side
-- of 0 and of 2 ^ 64 it lies. A Go int64 counter is its bit pattern, a number below 2 ^ 64, and sums
-- wrap; a Go int is ℤ. The loops run over lists and texts, but for the wait for a node (Panel/Wait),
-- which takes fuel: one poll more than there are intervals up to the deadline is enough.
--
-- Not modelled: the transport by net/http and gin and the closing of hijacked connections
-- (internal/httpapi), connection tracking by netlink (internal/system), the redaction of log texts by
-- regular expressions (internal/logview, internal/testkit), the plugin handlers, which answer
-- constants, the HTTP requests of the contract comparison, the flags of the commands, cmd/rw-node-go,
-- cmd/rw-build and internal/buildmeta. The system statistics inside the answers of Start, the listen
-- addresses, the timeouts and what is only logged are left out.
pub mod Common
pub mod Golang
pub mod Json
pub mod State
pub mod Xray
pub mod Environment
pub mod System
pub mod Geocheck
pub mod Contractdiff
pub mod Http
pub mod Logview
pub mod Panel
pub mod Controller
pub mod Examples
