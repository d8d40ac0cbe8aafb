-- ===== src/Exporter/Config.antt =====
-- exporter/natsexporter/config.go, newExporter and the choice of its marshalers.
use telemetry.Base.{◌≡◌, Bool, ◌||◌, Option, none, some, [], if◌then◌else◌, arith}
use telemetry.Base.Text.{Text, lit, text_eq}

abbrev pub encoding_otlp_proto : Text
encoding_otlp_proto = lit "otlp_proto"

abbrev pub encoding_otlp_json : Text
encoding_otlp_json = lit "otlp_json"

pub record SignalConfig : Type 0 where
  pub subject : Text
  pub encoding : Text

pub record Config : Type 0 where
  pub url : Text
  pub stream : Text
  pub credentials_file : Text
  pub subject_from_attribute : Text
  pub logs : SignalConfig
  pub metrics : SignalConfig
  pub traces : SignalConfig

pub data Signal : Type 0 where
  logs metrics traces : Signal

pub data ConfigError : Type 0 where
  no_url : ConfigError
  unsupported_encoding : Signal → ConfigError
  no_subject : Signal → ConfigError

abbrev pub is_empty : Text → Bool
is_empty s = text_eq s []

unfoldable pub validate_signal : Signal → SignalConfig → Option ConfigError
validate_signal name c =
    if text_eq c.encoding encoding_otlp_proto || text_eq c.encoding encoding_otlp_json
    then if is_empty c.subject then some (no_subject name) else none
    else some (unsupported_encoding name)

abbrev or_else : Option ConfigError → Option ConfigError → Option ConfigError
or_else none next = next
or_else (some e) next = some e

unfoldable pub validate : Config → Option ConfigError
validate c =
    if is_empty c.url
    then some no_url
    else or_else (validate_signal Signal.logs c.logs) (
        or_else (validate_signal Signal.metrics c.metrics) (validate_signal Signal.traces c.traces))

pub data Marshaler : Type 0 where
  proto json : Marshaler

-- newLogsMarshaler, newMetricsMarshaler and newTracesMarshaler; the error names the signal.
unfoldable pub new_marshaler : Signal → Text → Option Marshaler
new_marshaler signal encoding =
    if text_eq encoding encoding_otlp_proto
    then some proto
    else if text_eq encoding encoding_otlp_json
    then some json
    else none

pub record Marshalers : Type 0 where
  pub logs : Marshaler
  pub metrics : Marshaler
  pub traces : Marshaler

abbrev with_marshaler : {A : Type 0} → Option Marshaler → (Marshaler → Option A) → Option A
with_marshaler none f = none
with_marshaler (some m) f = f m

unfoldable pub new_exporter : Config → Option Marshalers
new_exporter cfg = with_marshaler (new_marshaler Signal.logs cfg.logs.encoding) λ l.
    with_marshaler (new_marshaler Signal.metrics cfg.metrics.encoding) λ m.
      with_marshaler (new_marshaler Signal.traces cfg.traces.encoding)
        λ t. some (record { logs = l; metrics = m; traces = t })

module _ (name : Signal) (c : SignalConfig) where
  validate_signal-new_marshaler :
      validate_signal name c ≡ none → (m : Marshaler) × (new_marshaler name c.encoding ≡ some m)
  unfolding validate_signal new_marshaler
  validate_signal-new_marshaler h =
      (if text_eq c.encoding encoding_otlp_proto then proto else json, ground arith)

validate_parts :
    (c : Config)
    → validate c ≡ none
    → (validate_signal Signal.logs c.logs ≡ none)
      × (validate_signal Signal.metrics c.metrics ≡ none)
      × (validate_signal Signal.traces c.traces ≡ none)
unfolding validate
validate_parts c h = ground arith

-- An exporter can be built from every configuration that passes `Validate`.
pub validate-new_exporter :
    (c : Config) → validate c ≡ none → (ms : Marshalers) × (new_exporter c ≡ some ms)
unfolding new_exporter
validate-new_exporter c h =
    let (hl, hm, ht) = validate_parts c h in
    let (l, el) = validate_signal-new_marshaler Signal.logs c.logs hl in
    let (m, em) = validate_signal-new_marshaler Signal.metrics c.metrics hm in
    let (t, et) = validate_signal-new_marshaler Signal.traces c.traces ht in
    (record { logs = l; metrics = m; traces = t }, rw (el, em, et))
