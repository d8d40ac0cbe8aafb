-- ===== src/Examples/Nats.antt =====
-- The NATS receiver and exporter.
use telemetry.Base.{
  ℕ, ◌≡◌, refl, ◌⊎◌, inl, inr, true, false, ◌&&◌, ◌==◌, none, some, [], ◌∷◌, if◌then◌else◌,
}
use telemetry.Base.Text.{Text, lit, text_eq}
use telemetry.Unbatch.{Payload, item_count, split_logs}
use telemetry.Receiver.Config as RecvConfig
use telemetry.Receiver.Config.{IsConfigured, validate_iff}
use telemetry.Receiver.Deliver.{
  Codec, World, nak_with_delay, start_op, end_op, consume, log_forwarding, handle_jet_stream,
  handle_core_nats,
}
use telemetry.Receiver.Deliver.Settle.{
  Settles, settlements, handle_jet_stream-Settles, handle_core_nats_lem,
}
use telemetry.Receiver.Lifecycle.{Outcomes, fresh, start, shutdown, Ended, shutdown-start}
use telemetry.Exporter.Config as ExpConfig
use telemetry.Exporter.Config.{validate-new_exporter}
use telemetry.Exporter.Publish
use telemetry.Exporter.Publish.{start_opens}
use telemetry.Exporter.Routing.{ArePublished, split_logs-ArePublished}
use telemetry.Unbatch.Records.{entries}
use telemetry.Examples.Pipeline.{group, three}

abbrev signal : RecvConfig.SignalConfig
signal = record { subject = lit "o11y.logs"; encoding = lit "otlp_proto" }

abbrev config : RecvConfig.Config
config = record {
  url = lit "nats://hub:4222";
  stream = lit "O11Y";
  consumer_name = lit "sink";
  credentials_file = [];
  logs = signal;
  metrics = signal;
  traces = signal;
}

config_valid : RecvConfig.validate config ≡ none
unfolding RecvConfig.validate RecvConfig.validate_signal text_eq lit
config_valid = refl

-- Payloads are numbers; the empty message does not unmarshal.
abbrev codec : Codec ℕ ℕ
codec = record { unmarshal = λ bytes. elim bytes [ [] ↦ inr 9 | n ∷ _ ↦ inl n ]; count = λ n. n }

abbrev refusing : World ℕ ℕ
refusing = record { consumer = λ n. some 5; now = 1000; ack_result = none; nak_result = none }

handle_jet_stream_refused : handle_jet_stream codec (lit "otlp_proto") refusing 77 (3 ∷ []) ≡ (
  77,
  start_op
      ∷ consume 3
      ∷ end_op (lit "otlp_proto") 3 (some 5)
      ∷ log_forwarding
      ∷ nak_with_delay 2000000000
      ∷ [],
)
unfolding handle_jet_stream
handle_jet_stream_refused = refl

handle_jet_stream-Settles_example :
    Settles refusing 77 (inl 3) (handle_jet_stream codec (lit "otlp_proto") refusing 77 (3 ∷ []))
handle_jet_stream-Settles_example =
    handle_jet_stream-Settles codec (lit "otlp_proto") refusing 77 (3 ∷ [])

handle_core_nats_lem_example :
    ((handle_core_nats codec (lit "otlp_proto") refusing 77 (3 ∷ [])).0
      ≡ (handle_jet_stream codec (lit "otlp_proto") refusing 77 (3 ∷ [])).0)
    × (settlements (handle_core_nats codec (lit "otlp_proto") refusing 77 (3 ∷ [])).1 ≡ [])
handle_core_nats_lem_example = handle_core_nats_lem codec (lit "otlp_proto") refusing 77 (3 ∷ [])

-- The consumer to bind to does not exist.
abbrev no_consumer : Outcomes ℕ
no_consumer = record {
  gauge = none;
  counter = none;
  tls = none;
  connect = none;
  jet_stream = none;
  consumer = some 404;
  consume = none;
  subscribe = none;
  unsubscribe = none;
  drain = none;
  connection_closed = 401;
}

-- The receiver keeps the connection that Start has closed, which Shutdown then drains.
shutdown_closed : (shutdown no_consumer (start no_consumer config fresh).1).0 ≡ some 401
unfolding start shutdown text_eq lit
shutdown_closed = refl

shutdown-start_example :
    Ended no_consumer
      (start no_consumer config fresh)
      (shutdown no_consumer (start no_consumer config fresh).1)
shutdown-start_example = shutdown-start no_consumer config

abbrev exporter_signal : ExpConfig.SignalConfig
exporter_signal = record { subject = lit "o11y.logs.default"; encoding = lit "otlp_json" }

abbrev exporter_config : ExpConfig.Config
exporter_config = record {
  url = lit "nats://leaf:4222";
  stream = [];
  credentials_file = [];
  subject_from_attribute = lit "subject";
  logs = exporter_signal;
  metrics = exporter_signal;
  traces = exporter_signal;
}

abbrev unreachable : Publish.Outcomes ℕ
unreachable = record { tls = none; connect = some 111; jet_stream = none; drain = none }

-- Resource 1 names a subject, the others do not.
abbrev attributes : ℕ → Publish.Attributes
attributes r name = if text_eq name (lit "subject") && (r == 1) then some (r ∷ []) else none

abbrev exporter : Publish.Exporter
exporter = record { cfg = exporter_config; conn = true; js = false; is_up = true }

abbrev marshal : Payload ℕ ℕ ℕ → Text ⊎ ℕ
marshal ld = inl (lit "bytes")

split_logs-ArePublished_example :
    ArePublished attributes marshal exporter (split_logs three) (entries three)
unfolding item_count
split_logs-ArePublished_example = split_logs-ArePublished attributes marshal exporter three 1 refl

-- Resource 2 names no subject, and resource 1, which has no records, names one.
abbrev hidden : Payload ℕ ℕ ℕ
hidden = group 1 [] ∷ group 2 (5 ∷ []) ∷ []
