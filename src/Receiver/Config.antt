-- ===== src/Receiver/Config.antt =====
-- receiver/natsreceiver/config.go, and the choice of an unmarshaler in receiver.go.
use telemetry.Base.{
  ◌≡◌, ◌≢◌, ◌↔◌, ◌⊎◌, Bool, not, ◌&&◌, ◌||◌, Option, none, some, [], if◌then◌else◌, arith,
}
use telemetry.Base.Text.{Text, lit, text_eq, text_eq_iff}

abbrev pub encoding_otlp_proto : Text
encoding_otlp_proto = lit "otlp_proto"

abbrev pub encoding_otlp_json : Text
encoding_otlp_json = lit "otlp_json"

pub record SignalConfig : Type 0 where
  pub subject : Text
  pub encoding : Text

pub record Config : Type 0 where
  pub url : Text
  pub stream : Text
  pub consumer_name : Text
  pub credentials_file : Text
  pub logs : SignalConfig
  pub metrics : SignalConfig
  pub traces : SignalConfig

pub data Signal : Type 0 where
  logs metrics traces : Signal

pub data ConfigError : Type 0 where
  no_url no_consumer_name no_stream : ConfigError
  unsupported_encoding : Signal → ConfigError
  no_subject : Signal → ConfigError

abbrev pub is_empty : Text → Bool
is_empty s = text_eq s []

-- The method `validate` of SignalConfig; none is a nil error.
unfoldable pub validate_signal : Signal → SignalConfig → Option ConfigError
validate_signal name c =
    if text_eq c.encoding encoding_otlp_proto || text_eq c.encoding encoding_otlp_json
    then if is_empty c.subject then some (no_subject name) else none
    else some (unsupported_encoding name)

-- The first error of a row of checks.
abbrev pub or_else : Option ConfigError → Option ConfigError → Option ConfigError
or_else none next = next
or_else (some e) next = some e

unfoldable pub validate : Config → Option ConfigError
validate c =
    if is_empty c.url
    then some no_url
    else if not (is_empty c.stream) && is_empty c.consumer_name
    then some no_consumer_name
    else if is_empty c.stream && not (is_empty c.consumer_name)
    then some no_stream
    else or_else (validate_signal Signal.logs c.logs) (
        or_else (validate_signal Signal.metrics c.metrics) (validate_signal Signal.traces c.traces))

pub data Unmarshaler : Type 0 where
  proto json : Unmarshaler

-- newLogsUnmarshaler, newMetricsUnmarshaler and newTracesUnmarshaler.
unfoldable pub new_unmarshaler : Text → Option Unmarshaler
new_unmarshaler encoding =
    if text_eq encoding encoding_otlp_proto
    then some proto
    else if text_eq encoding encoding_otlp_json
    then some json
    else none

-- What a usable configuration of one signal is.
pub record IsUsable (c : SignalConfig) : Type 0 where
  pub encoded : (c.encoding ≡ encoding_otlp_proto) ⊎ (c.encoding ≡ encoding_otlp_json)
  pub addressed : c.subject ≢ []

pub record IsConfigured (c : Config) : Type 0 where
  pub url : c.url ≢ []
  pub paired : (c.stream ≡ []) ↔ (c.consumer_name ≡ [])
  pub logs : IsUsable c.logs
  pub metrics : IsUsable c.metrics
  pub traces : IsUsable c.traces

validate_signal-IsUsable :
    (name : Signal) (c : SignalConfig) → validate_signal name c ≡ none → IsUsable c
unfolding validate_signal
validate_signal-IsUsable name c h = ground (
  arith,
  text_eq_iff c.encoding encoding_otlp_proto,
  text_eq_iff c.encoding encoding_otlp_json,
  text_eq_iff c.subject [],
)

IsUsable-validate_signal :
    (name : Signal) (c : SignalConfig) → IsUsable c → validate_signal name c ≡ none
unfolding validate_signal
IsUsable-validate_signal name c h = ground (
  arith,
  text_eq_iff c.encoding encoding_otlp_proto,
  text_eq_iff c.encoding encoding_otlp_json,
  text_eq_iff c.subject [],
)

validate_parts :
    (c : Config)
    → validate c ≡ none
    → (validate_signal Signal.logs c.logs ≡ none)
      × (validate_signal Signal.metrics c.metrics ≡ none)
      × (validate_signal Signal.traces c.traces ≡ none)
unfolding validate
validate_parts c h = ground arith

validate_address :
    (c : Config) → validate c ≡ none → (c.url ≢ []) × ((c.stream ≡ []) ↔ (c.consumer_name ≡ []))
unfolding validate
validate_address c h =
    ground (arith, text_eq_iff c.url [], text_eq_iff c.stream [], text_eq_iff c.consumer_name [])

-- `Validate` returns nil exactly when the URL is set, stream and consumer name are both set or both
-- empty, and each of the three signals has a known encoding and a subject.
pub validate_iff : (c : Config) → (validate c ≡ none) ↔ IsConfigured c
unfolding validate
validate_iff c = (
  λ h.
      let (l, m, t) = validate_parts c h in
      let (url, paired) = validate_address c h in
      record {
        url = url;
        paired = paired;
        logs = validate_signal-IsUsable Signal.logs c.logs l;
        metrics = validate_signal-IsUsable Signal.metrics c.metrics m;
        traces = validate_signal-IsUsable Signal.traces c.traces t;
      },
  λ h. ground (
    arith,
    text_eq_iff c.url [],
    text_eq_iff c.stream [],
    text_eq_iff c.consumer_name [],
    IsUsable-validate_signal Signal.logs c.logs h.logs,
    IsUsable-validate_signal Signal.metrics c.metrics h.metrics,
    IsUsable-validate_signal Signal.traces c.traces h.traces,
  ),
)

-- A signal with a known encoding has an unmarshaler, and no other signal has one.
pub new_unmarshaler-eq_none_iff :
    (encoding : Text)
    → (new_unmarshaler encoding ≡ none)
      ↔ ((encoding ≢ encoding_otlp_proto) × (encoding ≢ encoding_otlp_json))
unfolding new_unmarshaler
new_unmarshaler-eq_none_iff encoding =
    ground
      (arith, text_eq_iff encoding encoding_otlp_proto, text_eq_iff encoding encoding_otlp_json)
