-- ===== src/Lib.antt =====
-- homewizard_exporter: a Prometheus exporter for HomeWizard energy devices, modelled from its
-- Go sources.
--
-- The program reads a configuration, connects to every device it names over the local v1 or v2
-- API, polls each in a loop of its own, and keeps the most recent readings in one snapshot,
-- which the readiness check, the dashboard and the metrics read.
--
-- Parts and files:
-- - internal/config/config.go: Config (records and defaults), Config/Env (environment
--   variables), Config/Normalise, Config/Problems and Config/Validate, Config/Load
--   (LoadUnvalidated and Load). A problem is a value of a data type in place of its text.
-- - internal/homewizard/models.go: Homewizard/Models (the shared model), Homewizard/Timestamps
--   (the two timestamp parsers).
-- - internal/homewizard/v1.go, v2.go: Homewizard/V1 and Homewizard/V2 (the responses),
--   V1/Projection and V2/Projection (measurement: `copied` is the record literal, `externals`
--   the loop over the meters, `promote_gas` the flat gas meter), Homewizard/Agreement (the two
--   compared).
-- - internal/homewizard/client.go: Homewizard/Errors (errors as values, with errors.Is),
--   Homewizard/Client (newRequest, do, statusError, decodeAPIError, the endpoints, readToken).
-- - internal/homewizard/probe.go: Homewizard/Probe (New, fetchInfo, probeOrder, connectError).
-- - internal/homewizard/capabilities.go: Homewizard/Capabilities. internal/homewizard/tls.go:
--   Homewizard/Tls.
-- - internal/homewizard/pair.go: Homewizard/Pair (Pair and createUser).
--   internal/discovery/discovery.go: Discovery (Browse, merge).
-- - cmd/homewizard_exporter: Command/Main (main.go: the dispatch and the start of the daemon),
--   Command/Args (args.go), Command/Capture (capture.go: the endpoints, Scrub for `walk`,
--   Telegram for `scrubTelegram`, Files for the loop of `runCapture`), Command/Check
--   (check.go), Command/Discover (discover.go), Command/Pairing (pair.go).
-- - cmd/fakedevice/main.go: FakeDevice (the table, the handler and the certificate names),
--   FakeDevice/Vary. internal/buildinfo/buildinfo.go: BuildInfo.
-- - internal/snapshot/snapshot.go: Snapshot (Device, LastUpdate, Fresh, Sorted) and
--   Snapshot/Store (Device, Update). A map is an association list (NameMap), and an update,
--   which the code does under a mutex, is one step.
-- - internal/poller/poller.go: Poller (poll and what it calls), Poller/Rounds (the loop, one
--   round at a time, and its metrics), Poller/Health (Healthz), Poller/Fleet (Run: the loops of
--   all devices over one store, by turns of one round each), Poller/Steps (a pass of the loop
--   as its single accesses to the store), Poller/Schedule (Run with the accesses of all
--   goroutines interleaved). The client is passed along, since Disable changes it.
-- - internal/web/view.go: Web/View (buildView, describe). internal/web/server.go and
--   dashboard.go: Web/Server (patterns and handlers).
-- - internal/metrics/descriptors.go and collector.go: Metrics/Descriptors, Metrics/Tables (the
--   tables of series and every descriptor) and Metrics/Collector (Collect and what it calls);
--   Metrics/Sound says what it is for a sample to fit its descriptor.
--
-- Go's types: a time.Time is the number of nanoseconds since the zero Time and a time.Duration
-- an int64 of nanoseconds (Time); `double` wraps around as the multiplication does. Texts are
-- strings of code points, and Text has the functions of package strings that are used.
--
-- Parameters: Platform (float64 and time.ParseInLocation), Net (what net/url makes of a
-- reference at a base, what http.Client makes of a request, its redirects included, and the
-- identity that a verified TLS handshake records), Codec (encoding/json at each type that is
-- decoded), X509, the environment, the file system and the YAML library (World), the clock and
-- the random number of a round (Clock, Round), the connector of the poller, the JSON codec, the
-- letter case and the writable files of a capture, the fixtures of a fake device, and the
-- libraries between it and a client (Surroundings: the resolution of references, the trust in
-- its certificate, the cleaning of paths by http.ServeMux, and the answer of net/http to the
-- wrong scheme).
--
-- Fuel: `digits` has 20, an int64 having 19 digits at most, and `pad` has 12, the width it
-- fills. Every other loop is structural, and the poller's loop runs over the list of the rounds
-- of a run.
--
-- Not modelled: internal/metrics/registry.go (collectors of the Prometheus library), the
-- matching of paths by http.ServeMux and the templates of internal/web, flags, signals and
-- printing in the commands, the keys and signatures of cmd/fakedevice, the HTTP transport of
-- client.go, all of which are calls of libraries. A single access to the store is atomic, as
-- the mutex and the atomic pointer of snapshot.go make it, and what a device answers in a pass
-- does not depend on what the other goroutines do meanwhile. Every device is announced before
-- the first goroutine begins, where the code starts the goroutine of a device before it
-- announces the next one: no goroutine reads the entry of another device. Logging and the
-- wording of errors are left out, the sentinels an error carries are kept.
--
-- Tests holds the properties at concrete inputs.
pub mod Prelude
pub mod Text
pub mod NameMap
pub mod BuildInfo
pub mod FakeDevice
pub mod Time
pub mod Config
pub mod Homewizard
pub mod Snapshot
pub mod Poller
pub mod Command
pub mod Discovery
pub mod Metrics
pub mod Web
pub mod Tests
