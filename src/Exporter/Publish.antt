-- ===== src/Exporter/Publish.antt =====
-- start, shutdown, subjectFor, publish and the three push methods of
-- exporter/natsexporter/exporter.go. A resource attribute's value is opaque but for its text.
use telemetry.Base.{
  ◌≡◌, ◌⊎◌, inl, inr, Bool, true, false, Option, none, some, [], ◌∷◌, if◌then◌else◌, arith,
}
use telemetry.Base.Text.{Text}
use telemetry.Unbatch.{Payload}
use telemetry.Exporter.Config.{Config, SignalConfig, is_empty}

-- The parts of natsExporter that its methods use; false for a nil `js` or `conn`.
pub record Exporter : Type 0 where
  pub cfg : Config
  pub conn : Bool
  pub js : Bool
  -- whether the NATS connection that was dialled is open: neither closed nor draining
  pub is_up : Bool

pub data StartError (Error : Type 0) : Type 0 where
  tls_failed connect_failed jet_stream_failed : Error → StartError Error

-- What the TLS loader and the NATS client answer, none for a nil error.
pub record Outcomes (Error : Type 0) : Type 0 where
  pub tls : Option Error
  pub connect : Option Error
  pub jet_stream : Option Error
  pub drain : Option Error

module _ {Error : Type 0} (out : Outcomes Error) where
  start_jet_stream : Exporter → Option (StartError Error) × Exporter
  start_jet_stream e = elim out.jet_stream [
    | some err ↦ (some (jet_stream_failed err), record e { is_up = false })
    | none ↦ (none, record e { js = true })
  ]

  connected : Exporter → Option (StartError Error) × Exporter
  unfolding start_jet_stream
  connected e = if is_empty e.cfg.stream then (none, e) else start_jet_stream e

  unfoldable pub start : Exporter → Option (StartError Error) × Exporter
  unfolding connected
  start e = elim out.tls [
    | some err ↦ (some (tls_failed err), e)
    | none ↦ elim out.connect [
      | some err ↦ (some (connect_failed err), e)
      | none ↦ connected (record e { conn = true; is_up = true })
    ]
  ]

  -- `Drain` ends with a closed connection.
  unfoldable pub shutdown : Exporter → Option Error × Exporter
  shutdown e = if e.conn then (out.drain, record e { is_up = false }) else (none, e)

  -- The outcome of start: JetStream is used exactly where a stream is configured.
  abbrev pub Started : Option (StartError Error) × Exporter → Type 0
  Started (some err, e) = e.is_up ≡ false
  Started (none, e) =
      (e.is_up ≡ true) × (e.conn ≡ true) × (e.js ≡ (if is_empty e.cfg.stream then false else true))

  -- Started from nil, a failing start leaves no connection open; a succeeding one leaves it open,
  -- with JetStream exactly where a stream is configured.
  pub start_opens :
      (cfg : Config)
      → Started (start (record { cfg = cfg; conn = false; js = false; is_up = false }))
  unfolding start
  start_opens cfg = ground arith

-- Where a message goes.
pub data Route : Type 0 where
  core_nats jet_stream : Route

pub record Message : Type 0 where
  pub route : Route
  pub subject : Text
  pub payload : Text

-- `attrs` is pdata's map: Get, and the text of the value found.
abbrev pub Attributes : Type 0
Attributes = Text → Option Text

unfoldable pub subject_for : Config → SignalConfig → Attributes → Text
subject_for cfg signal attrs =
    if is_empty cfg.subject_from_attribute
    then signal.subject
    else elim (attrs cfg.subject_from_attribute) [ some v ↦ v | none ↦ signal.subject ]

unfoldable pub publish : Exporter → Text → Text → Message
publish e subject payload = record {
  route = if e.js then jet_stream else core_nats;
  subject = subject;
  payload = payload;
}

module _ {Resource Scope Item Error : Type 0} (attributes : Resource → Attributes)
    (marshal : Payload Resource Scope Item → Text ⊎ Error) where
  batch_subject : Config → SignalConfig → Payload Resource Scope Item → Text
  unfolding subject_for
  batch_subject cfg signal [] = signal.subject
  batch_subject cfg signal (rl ∷ _) = subject_for cfg signal (attributes rl.resource)

  push : Exporter → SignalConfig → Payload Resource Scope Item → Message ⊎ Error
  unfolding batch_subject publish
  push e signal ld = elim (marshal ld) [
    | inr err ↦ inr err
    | inl payload ↦ inl (publish e (batch_subject e.cfg signal ld) payload)
  ]

  -- The message that pushLogs publishes, or the marshaling error.
  unfoldable pub push_logs : Exporter → Payload Resource Scope Item → Message ⊎ Error
  unfolding push
  push_logs e ld = push e e.cfg.logs ld

  unfoldable pub push_metrics : Exporter → Payload Resource Scope Item → Message ⊎ Error
  unfolding push
  push_metrics e md = push e e.cfg.metrics md

  unfoldable pub push_traces : Exporter → Payload Resource Scope Item → Message ⊎ Error
  unfolding push
  push_traces e td = push e e.cfg.traces td
