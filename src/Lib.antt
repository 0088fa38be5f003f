-- ===== src/Lib.antt =====
-- The core of crenel: one control over the edges (reverse proxies) and the DNS providers that make
-- a service reachable. The model covers the flows of internal/core (a single op, a file of exposures,
-- an import and a reconcile) with the types of internal/model, the reports that they return, the
-- ports through which they see the world, and two of the DNS drivers behind these ports.
--
-- The program plans a change set for an op against live state, asks the operator, checks that it
-- may manage what it touches, applies the change as an ordered list of steps, reads everything
-- back, and undoes the steps if the world is not as the op wants it. An edge can forward to a
-- downstream edge (a chain), and a DNS provider can be confined to a zone or a scope.
--
-- Parts:
-- * Model (internal/model/model.go): `Op`, `Route`, `LiveEdgeState`, `Record`, `ChangeSet` and
--   their methods, `ValidateAuth`, and the acknowledgement marker.
-- * Reports (internal/core/report.go, internal/model/runtime_verify.go): what an operation returns.
--   An error or a detail is a constructor with the values that its message names.
-- * Ports (internal/ports/ports.go): `EdgeProvider` and `DnsProvider` as records of functions over
--   a type `W`, the world outside the engine. Reading observes it; applying and persisting
--   return the next one. An optional interface is an `Option`.
-- * Engine (internal/core/engine.go, dns_zone.go, readonly.go, residency.go): `EdgeBinding`,
--   `Engine`, `BuildOp`, `ResolveOp`, zones and gates.
-- * Chain (internal/core/chain_write.go): `roleFor`, `downstreamParticipates`, `planForward`,
--   `chainDepth`. Follow (internal/core/chain.go): `resolveChain`, `effectiveAuth`.
-- * Plan (internal/core/engine.go): `Plan` and `computeNewPublic`.
-- * Gate (internal/core/gate.go): `gateOwnership` and `gateChainOwnership`.
-- * Steps, Rollback, Checks, Verify, Apply (internal/core/apply.go): `buildSteps` and the inverse
--   changes, `rollback` and `probeEdge`, the checks of `verify` on what was read, `verify`, and
--   `applyPlanned` with `Apply` and `persistEdges`.
--   Steps.Sources has the edge plans and DNS changes that the steps come from, and Apply.Reversal
--   the laws of the devices under which the steps can be undone.
-- * Resume (internal/core/resume.go) and Rename (internal/core/rename.go).
-- * Status (internal/core/status.go) with `readAll`, Ack (internal/core/ack.go) and Triage
--   (internal/core/triage.go): the reports and the markers.
-- * Import (internal/core/import.go) has `planImport`, `Import` and `verifyImport`. Declarative
--   (internal/core/declarative.go) has the file's exposures in Exposures, `planDeclarative` in
--   Planning and `ApplyDeclarative` with `verifyDeclarative` in Converging. What becomes of one
--   exposure at one edge is a `Placement`, and the plan collects the placements.
-- * Reconcile (internal/core/reconcile.go, dns_coverage.go) has the canonical state in Canonical, one
--   entry for the keys of its three maps; the drift of edges and of DNS providers with their
--   corrections in Routes and Records, where `planReconcile` is; and `Reconcile` with
--   `verifyReconcile` in Converging.
-- * Effects has calls that thread a state and may fail, and relations that sequences of them keep.
-- * Dns.Cloudflare (internal/drivers/dns/cloudflare/cloudflare.go): the driver that changes single
--   records of a zone. Records has its records, names and marker, Api one call over the `Doer` and
--   the listing, Surgery the change of `Diff`, Driver its operations. Service states what is relied
--   on of the API behind the `Doer`, and Reliable that it answers. Dns.Ip is `net.ParseIP`.
-- * Dns.AdGuard (internal/drivers/dns/adguard/adguard.go): the driver of a resolver's list of
--   rewrites. Rewrites has the list and the change of `Diff`, Driver its operations, and Resolver
--   what is relied on of the resolver behind the `Doer`.
-- * Tests holds a small world with one proxy and one zone, runs in it, and the results at them.
--
-- A function of Go that returns `(value, error)` returns a `Result`; one that changes the world or a
-- report takes and returns it. A flow is a world, a report and perhaps an error. A map that is
-- filled in a loop is an association list read so that the later entry wins, or a function.
-- A TTL, which the settings do not check, is an integer of Prelude.Integers, and its width is not
-- modelled, as the code does not compute with it.
-- Texts are lists of code points, and case folding is over A-Z, as the names of hosts are ASCII.
-- Message texts are not modelled, nor contexts and deadlines: a call that times out is one that
-- returns an error.
--
-- Fuel: the walk of `downstreamParticipates` has the number of edges and two, and
-- `downstream_participates_iff` shows that this is enough. `chainDepth` makes as many passes as
-- there are edges, which is the bound in the code itself. The loop of `listZone` reads at most
-- `page_limit` pages, and `list_zone_complete` shows that the number of pages is enough. All other
-- loops are structural.
--
-- Not modelled: audit and export; the other drivers, which are the parameters of the ports;
-- configuration, redaction, the user interface and the commands, which are input and output.
pub mod Prelude
pub mod Model
pub mod Reports
pub mod Ports
pub mod Declarative
pub mod Effects
pub mod Dns
pub mod Engine
pub mod Import
pub mod Reconcile
pub mod Chain
pub mod Follow
pub mod Plan
pub mod Gate
pub mod Steps
pub mod Rollback
pub mod Checks
pub mod Verify
pub mod Apply
pub mod Resume
pub mod Rename
pub mod Status
pub mod Ack
pub mod Triage
pub mod Tests
