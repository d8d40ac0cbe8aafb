-- ===== src/Lib.antt =====
-- The telemetry services of Milo: how records travel from the points of presence to the hub, how
-- the hub's users are provisioned, and how projects query their logs.
--
-- In a collector the unbatch processor cuts a payload into payloads of one record, so that the
-- NATS exporter can take each record's subject from its resource. The NATS receiver on the hub
-- forwards messages into its pipeline and acknowledges them. nkey-generator gives each cluster's
-- leaf its key and subjects. The query API binds a request to the caller's project, guards which
-- requests are authorized at all, and turns queries into SQL on ClickHouse. The operator's webhook
-- validates the export policies of a project, and its controller turns each into a configuration of
-- Vector, a secret downstream, from which Vector exports the project's metrics.
--
-- Files, and the code that they model:
-- - Base: tests on numbers, lists, Go strings as lists of bytes (Base/Text), Go maps as
--   association lists (Base/Assoc), sorting and slices.Compact (Base/Sort), integers (Base/Int).
-- - Unbatch (processor/unbatchprocessor/processor.go): splitLogs, splitTraces, and in
--   Unbatch/Metrics explodeMetric, newMetricContainer and splitMetrics; Unbatch/Consume has the
--   Consume methods. A payload is a list of resource groups of scope groups of items; a scope, a
--   resource, a record and a data point are type parameters, since the code only copies them.
-- - Receiver (receiver/natsreceiver): Config is config.go; Deliver is deliver, handleJetStream
--   and handleCoreNATS, as lists of effects on a world that gives the consumer's and NATS's
--   answers; Lifecycle is Start and Shutdown over a record of the outcomes of the calls to NATS, on
--   the receiver's fields and on what they leave running: a consumer, a subscription, a connection.
-- - Exporter (exporter/natsexporter): Config is config.go with newExporter's encodings; Publish
--   is start, shutdown, subjectFor, publish and the push methods; Routing joins it to Unbatch.
-- - Authz (queryapi/internal/authz, queryapi/internal/miloauth): Permissions and AllowPaths are
--   permissions.go, Guard is guard.go over a delegate that is a parameter, Project is Resolve
--   and Middleware.
-- - Storage (queryapi/internal/logql/ast.go, queryapi/internal/storage): Matchers, Labels, and
--   under Clickhouse the statements of query.go (Query), the iterator of iterator.go (Rows) and
--   the methods of clickhouse.go (Store). A statement is its text with its list of arguments, a
--   time is a number of nanoseconds, and the driver is a function from a setting and a statement
--   to rows, any of which may fail. Bindings, Shape and Tenancy have what is proved of the
--   statements.
-- - Storage/Fake (queryapi/internal/storage/fake/iterator.go): the fake store's iterator over
--   ticks and the loop that reads it, with the row of a tick as a parameter, where none is the
--   panic on an interval of 0; Ticks and Instants list a window's ticks, Refinement and Window are
--   what is proved.
-- - Storage/Streams (queryapi/internal/storage/storage.go, queryapi/loki.go): LabelSet.Key, the
--   identity that groups rows into streams, and in Collect collectStreams; Identity and
--   Collect/Grouping are what is proved.
-- - Storage/Prometheus (queryapi/internal/storage/prometheus/prometheus.go): New, the methods of the
--   metric store with the requests that they send, and decode; Confined is what is proved of it.
-- - Handlers (queryapi): Prom is promparams.go and, with Prom/Endpoints, prom.go over the interface
--   of a metric store; Logs is config.go's Validate, params.go and the part of handler.go that makes a
--   query for the log store; Routes is routes.go. Prom/Bounds, Logs/Limits, Routes/Reviewed and
--   Routes/Canonical are what is proved.
-- - Logql (queryapi/internal/logql/parser.go, cli/logql/logql.go): Spaces is strings.TrimSpace on
--   UTF-8, Scan has the parser's scanners, Parser is Parse; Selector is the CLI's builder and its
--   String. Quoting is what the parser relies on in strconv.Quote, RoundTrip joins the two sides,
--   Parser/Fuel is the parser's end.
-- - Cli (cli/logs/client.go, cli/logs/follow.go): Entries has the entries and their keys, Follow
--   the follower's memory with admit and Backlog, Follow/Run is Run as the list of its effects
--   over a list of polls, each with the clock and a server that is a function of the query;
--   Follow/Once and Follow/Complete are what is proved.
-- - Nkeys (nkey-generator/main.go): Users has the user blocks, Api the hub's API server,
--   Generator the methods of the generator; what is proved stands in Subjects, Seeds, Backing
--   and Dropping. A command is a function from the hub to a result or an error and the hub; the
--   n-th API call fails, and finds secrets that others have created by then, as the surroundings
--   say. Others write secrets only.
-- - Operator (operator/internal/validation/export_policy.go, with the types of
--   operator/api/v1alpha1/export_policy_types.go): Policies is the validation of an
--   ExportPolicy, where a panic is none; Sources and Validity are what is proved of it, and Webhook
--   (operator/internal/webhook/v1alpha1/exportpolicy_webhook.go) is the admission.
-- - Operator/Controller (operator/internal/controller): Status has reconcileExportPolicyStatus and
--   its helpers, Vector is vector_configuration.go, Reconcile is a round of Reconcile with the
--   finalizer on a world, the policy that the API server keeps and the secrets downstream; a round
--   comes with the calls that fail in it and with what the policy's cluster answers to the reads of
--   secrets, once for the status and once for the configuration (within one of the two the reads of
--   the same secret are answered alike), and rounds is a row of such rounds. Watch has the requests
--   that a change of a secret makes. Status/Settled, Vector/Scope, Agreement, Watch/Unrelated and,
--   below Reconcile, Settles and Deletes are what is proved.
-- - Examples: tests, and the theorems at concrete inputs.
--
-- A loop is a structural recursion on the list that the code ranges over. The two loops of the
-- LogQL parser have fuel, one more than the bytes that they are given; it is enough, since each
-- round takes an operator at least off the text. The fake iterator's loop has the ticks up to the
-- last one as fuel, and the loop that reads it one round more. Numbers that the code only
-- compares are unbounded here; the two sides of Go's int64 nanoseconds are modelled by unixNano's
-- clamping, and the bounds of a time.Duration stand where the handlers meet them, in the window of a
-- range query and in the negation of a duration.
--
-- Parameters stand for code that is not the repository's: pdata's marshalers, NATS and its
-- JetStream, the ClickHouse driver, compiled regular expressions and their compiler, strconv's
-- literals, decimal numbers, YAML, JSON, the HTTP client and the
-- mux, the parsers of times and durations, the parsers of metricsql and URLs, the authorizer that the
-- guard delegates to, SetStatusCondition, the finalizer manager, CreateOrUpdate and the JSON
-- encoder that the controller uses, and key generation. The Kubernetes API is written out as documented, a
-- store of named objects in which a create fails on a name that is taken.
--
-- Not modelled: the fake store's rows and catalogue, the answers of the log endpoints, the
-- command-line client's paging and commands, the ClickHouse migrations, and the wiring of
-- servers, factories and configuration from the environment; logging, tracing and metrics except
-- the counters that the guard and the receiver increment.
pub mod Base
pub mod Unbatch
pub mod Receiver
pub mod Exporter
pub mod Authz
pub mod Storage
pub mod Handlers
pub mod Nkeys
pub mod Operator
pub mod Logql
pub mod Cli
pub mod Examples
