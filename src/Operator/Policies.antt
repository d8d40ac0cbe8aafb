-- ===== src/Operator/Policies.antt =====
-- operator/internal/validation/export_policy.go. The texts of the errors' details are left out.
use telemetry.Base.{ℕ, ◌+◌, Bool, Option, none, some, List, [], ◌∷◌, ◌++◌, flat_map, if◌then◌else◌}
use telemetry.Base.Text.{Text, lit, text_eq}
use telemetry.Base.Assoc.{contains}

pub data Step : Type 0 where
  child : Text → Step
  index : ℕ → Step
  key : Text → Step

abbrev pub FieldPath : Type 0
FieldPath = List Step

pub data FieldError : Type 0 where
  required : FieldPath → FieldError
  duplicate : FieldPath → Text → FieldError
  invalid : FieldPath → Text → FieldError

pub record Source : Type 0 where
  pub name : Text
  -- the field metricsql of the metrics source
  pub metrics : Option Text

-- The target of a sink: the endpoint of its prometheusRemoteWrite.
pub record SinkTarget : Type 0 where
  pub prometheus_remote_write : Option Text

pub record Sink : Type 0 where
  pub name : Text
  pub target : Option SinkTarget

pub record Spec : Type 0 where
  pub sources : List Source
  pub sinks : List Sink

-- What metricsql.Parse makes of a query: the labels of its filters if it is a metric expression.
pub data Parsed : Type 0 where
  failed other_expr : Parsed
  metric_expr : List (List Text) → Parsed

abbrev pub at : FieldPath → Text → FieldPath
at path name = path ++ child name ∷ []

abbrev pub forbidden_labels : List Text
forbidden_labels = lit "project_name" ∷ []

module _ (parse : Text → Parsed) (is_url : Text → Bool) where
  unfoldable pub label_errors : FieldPath → Text → List Text → List FieldError
  label_errors path query [] = []
  label_errors path query (label ∷ labels) =
      let rest = label_errors path query labels in
      if contains forbidden_labels label then invalid path query ∷ rest else rest

  unfoldable pub parsed_errors : FieldPath → Text → Parsed → List FieldError
  unfolding label_errors
  parsed_errors path query failed = invalid path query ∷ []
  parsed_errors path query other_expr = invalid path query ∷ []
  parsed_errors path query (metric_expr filters) = flat_map (label_errors path query) filters

  unfoldable pub validate_metric_source : FieldPath → Text → List FieldError
  unfolding parsed_errors
  validate_metric_source path query =
      if text_eq query []
      then required (at path (lit "metricsql")) ∷ []
      else parsed_errors (at path (lit "metricsql")) query (parse query)

  unfoldable pub name_errors : FieldPath → List Text → Text → List FieldError
  name_errors path names name =
      if text_eq name []
      then required (path ++ key (lit "name") ∷ []) ∷ []
      else if contains names name
      then duplicate (at path (lit "name")) name ∷ []
      else []

  unfoldable pub metrics_errors : FieldPath → Option Text → List FieldError
  metrics_errors path none = required (at path (lit "metrics")) ∷ []
  metrics_errors path (some query) = validate_metric_source (at path (lit "metrics")) query

  -- The set of names after a source: one that is empty or there already adds nothing.
  abbrev pub with_name : List Text → Text → List Text
  with_name names name =
      if text_eq name [] then names else if contains names name then names else name ∷ names

  unfoldable pub validate_sources : FieldPath → ℕ → List Text → List Source → List FieldError
  unfolding name_errors metrics_errors
  validate_sources path n names [] = []
  validate_sources path n names (source ∷ sources) =
      let here = at path (lit "sources") ++ index n ∷ [] in
      name_errors here names source.name
      ++ (metrics_errors here source.metrics
          ++ validate_sources path (n + 1) (with_name names source.name) sources)

  unfoldable pub validate_prometheus_remote_write : FieldPath → Text → List FieldError
  validate_prometheus_remote_write path endpoint =
      if text_eq endpoint []
      then required (at path (lit "http")) ∷ []
      else if is_url endpoint
      then []
      else invalid (at path (lit "http")) endpoint ∷ []

  unfoldable pub validate_sink_target : FieldPath → Option Text → List FieldError
  unfolding validate_prometheus_remote_write
  validate_sink_target path none = required (at path (lit "prometheusRemoteWrite")) ∷ []
  validate_sink_target path (some endpoint) =
      validate_prometheus_remote_write (at path (lit "prometheusRemoteWrite")) endpoint

  unfoldable pub sink_name_errors : FieldPath → List Text → Text → List FieldError
  sink_name_errors path names name =
      if contains names name then duplicate (at path (lit "name")) name ∷ [] else []

  -- The errors of a sink before those of the later ones; none where the code reads through a nil
  -- target, which panics.
  unfoldable pub sink_errors :
      FieldPath
      → List Text
      → Text
      → Option SinkTarget
      → Option (List FieldError)
      → Option (List FieldError)
  unfolding sink_name_errors validate_sink_target
  sink_errors here names name none rest = none
  sink_errors here names name (some target) none = none
  sink_errors here names name (some target) (some errs) = some (
      sink_name_errors here names name
      ++ (validate_sink_target (at here (lit "target")) target.prometheus_remote_write ++ errs))

  unfoldable pub validate_sinks : FieldPath → ℕ → List Text → List Sink → Option (List FieldError)
  unfolding sink_errors
  validate_sinks path n names [] = some []
  validate_sinks path n names (sink ∷ sinks) =
      sink_errors (at path (lit "sinks") ++ index n ∷ []) names sink.name sink.target (
        validate_sinks path (n + 1) (if contains names sink.name then names else sink.name ∷ names)
          sinks)

  unfoldable pub sources_errors : FieldPath → List Source → List FieldError
  unfolding validate_sources
  sources_errors path [] = required (at path (lit "sources")) ∷ []
  sources_errors path (s ∷ sources) = validate_sources path 0 [] (s ∷ sources)

  unfoldable pub all_errors : List FieldError → Option (List FieldError) → Option (List FieldError)
  all_errors errs none = none
  all_errors errs (some more) = some (errs ++ more)

  -- The errors of a policy with this spec; none for a panic.
  unfoldable pub validate_export_policy : Spec → Option (List FieldError)
  unfolding sources_errors validate_sinks all_errors
  validate_export_policy spec =
      let path = child (lit "spec") ∷ [] in
      all_errors (sources_errors path spec.sources) (validate_sinks path 0 [] spec.sinks)
