-- ===== src/Operator/Controller/Vector.antt =====
-- operator/internal/controller/vector_configuration.go: the configuration of Vector for a policy.
-- metricsql.Parse and the printing of an expression are parameters. none stands for a panic.
pub mod Scope
use telemetry.Base.{◌⊎◌, inl, inr, Bool, true, false, Option, none, some, List, [], ◌∷◌, ◌++◌, map}
use telemetry.Base.Text.{Text, lit}
use telemetry.Base.Assoc.{lookup, insert}
use telemetry.Operator.Policies.{Source}
use telemetry.Operator.Controller.{
  RemoteWrite, Sink, ExportPolicy, Secret, Client, retrieve_basic_auth_secret,
}

pub record LabelFilter : Type 0 where
  pub label : Text
  pub value : Text
  pub is_negative : Bool
  pub is_regexp : Bool

-- The field LabelFilterss of a metric expression: sets of filters, one of which a series has to pass.
abbrev pub Filterss : Type 0
Filterss = List (List LabelFilter)

-- What metricsql.Parse makes of a query.
pub data Query : Type 0 where
  failed other_expr : Query
  metric_expr : Filterss → Query

pub record MetricsService : Type 0 where
  pub endpoint : Text
  pub username : Text
  pub password : Text

pub record Auth : Type 0 where
  pub strategy : Text
  pub user : Text
  pub password : Text

pub record SourceConfig : Type 0 where
  pub type : Text
  pub endpoints : List Text
  pub auth : Auth
  pub match : List Text

pub record SinkConfig : Type 0 where
  pub inputs : List Text
  pub type : Text
  pub endpoint : Text
  pub auth : Option Auth

pub record VectorConfig : Type 0 where
  pub sources : List (Text × SourceConfig)
  pub sinks : List (Text × SinkConfig)

abbrev pub project_label : Text
project_label = lit "resourcemanager_datumapis_com_project_name"

abbrev pub project_filter : Text → LabelFilter
project_filter project = record {
  label = project_label;
  value = project;
  is_negative = false;
  is_regexp = false;
}

abbrev pub with_filter : LabelFilter → List LabelFilter → List LabelFilter
with_filter f filters = filters ++ f ∷ []

-- The filters with the project's: alone if there are none, and else at the end of each set.
unfoldable pub scoped : Text → Filterss → Filterss
scoped project [] = (project_filter project ∷ []) ∷ []
scoped project (filters ∷ rest) = map (with_filter (project_filter project)) (filters ∷ rest)

abbrev pub vector_source : Text
vector_source = lit "source"

abbrev pub vector_sink : Text
vector_sink = lit "sink"

unfoldable pub get_vector_component_id : ExportPolicy → Text → Text → Text → Text
get_vector_component_id policy project component kind =
    lit "export-policy:"
    ++ (project
        ++ (lit ":"
            ++ (policy.namespace
                ++ (lit ":"
                    ++ (policy.name
                        ++ (lit ":"
                            ++ (policy.uid ++ (lit ":" ++ (component ++ (lit "-" ++ kind))))))))))

abbrev basic : Text → Text → Auth
basic user password = record { strategy = lit "basic"; user = user; password = password }

-- A missing key of secret.Data reads as the empty value.
abbrev pub value_of : Option Text → Text
value_of none = []
value_of (some value) = value

abbrev pub remote_config : Text → Option Auth → SinkConfig
remote_config endpoint auth = record {
  inputs = [];
  type = lit "prometheus_remote_write";
  endpoint = endpoint;
  auth = auth;
}

unfoldable pub secret_config : Text → Secret ⊎ Text → SinkConfig ⊎ Text
unfolding lookup
secret_config endpoint (inr message) = inr message
secret_config endpoint (inl secret) =
    let user = value_of (lookup (lit "username") secret.contents) in
    let password = value_of (lookup (lit "password") secret.contents) in
    inl (remote_config endpoint (some (basic user password)))

unfoldable pub get_prometheus_remote_write :
    Client → ExportPolicy → Text → Option (Option Text) → Option (SinkConfig ⊎ Text)
unfolding secret_config
get_prometheus_remote_write client policy endpoint none = some (inl (remote_config endpoint none))
get_prometheus_remote_write client policy endpoint (some none) = none
get_prometheus_remote_write client policy endpoint (some (some ref)) =
    some (secret_config endpoint (retrieve_basic_auth_secret client ref policy))

-- maps.Copy of the sink's configuration into the one that holds the inputs.
abbrev pub merged : List Text → Option (SinkConfig ⊎ Text) → Option (SinkConfig ⊎ Text)
merged inputs none = none
merged inputs (some (inr message)) = some (inr message)
merged inputs (some (inl config)) = some (inl (record config { inputs = inputs }))

unfoldable pub sink_target_config :
    Client
    → ExportPolicy
    → Text
    → List Text
    → Option (Option RemoteWrite)
    → Option (SinkConfig ⊎ Text)
unfolding get_prometheus_remote_write
sink_target_config client policy name inputs none = none
sink_target_config client policy name inputs (some none) =
    some (inr (lit "sink " ++ (name ++ lit " is not a valid sink")))
sink_target_config client policy name inputs (some (some remote)) =
    merged inputs (get_prometheus_remote_write client policy remote.endpoint remote.authentication)

unfoldable pub get_sink_vector_config :
    Client → Text → Sink → ExportPolicy → Option (SinkConfig ⊎ Text)
unfolding sink_target_config get_vector_component_id
get_sink_vector_config client project sink policy =
    let inputs = map (λ s. get_vector_component_id policy project s vector_source) sink.sources in
    sink_target_config client policy sink.name inputs sink.target

-- A sink without a configuration is skipped.
abbrev pub add_sink :
    Text → Option (SinkConfig ⊎ Text) → List (Text × SinkConfig) → Option (List (Text × SinkConfig))
add_sink id none m = none
add_sink id (some (inr message)) m = some m
add_sink id (some (inl config)) m = some (insert id config m)

unfoldable pub add_sinks :
    Client
    → Text
    → ExportPolicy
    → List Sink
    → Option (List (Text × SinkConfig))
    → Option (List (Text × SinkConfig))
unfolding get_sink_vector_config insert
add_sinks client project policy sinks none = none
add_sinks client project policy [] (some m) = some m
add_sinks client project policy (sink ∷ sinks) (some m) = add_sinks client project policy sinks (
    add_sink (get_vector_component_id policy project sink.name vector_sink)
      (get_sink_vector_config client project sink policy) m)

module _ (parse : Text → Query) (append_string : Filterss → Text) (service : MetricsService) where
  unfoldable pub source_config : Text → Filterss → SourceConfig
  unfolding scoped
  source_config project filterss = record {
    type = lit "prometheus_scrape";
    endpoints = service.endpoint ∷ [];
    auth = basic service.username service.password;
    match = append_string (scoped project filterss) ∷ [];
  }

  -- A source with no query or one that does not parse is skipped; one that is another expression is
  -- read through a nil pointer.
  unfoldable pub add_query :
      Text → Text → Query → List (Text × SourceConfig) → Option (List (Text × SourceConfig))
  unfolding source_config insert
  add_query project id failed m = some m
  add_query project id other_expr m = none
  add_query project id (metric_expr filterss) m =
      some (insert id (source_config project filterss) m)

  abbrev pub add_source :
      Text → Text → Option Text → List (Text × SourceConfig) → Option (List (Text × SourceConfig))
  add_source project id none m = some m
  add_source project id (some query) m = add_query project id (parse query) m

  unfoldable pub add_sources :
      Text
      → ExportPolicy
      → List Source
      → Option (List (Text × SourceConfig))
      → Option (List (Text × SourceConfig))
  unfolding add_query get_vector_component_id
  add_sources project policy sources none = none
  add_sources project policy [] (some m) = some m
  add_sources project policy (source ∷ sources) (some m) = add_sources project policy sources (
      add_source project (get_vector_component_id policy project source.name vector_source)
        source.metrics m)

  abbrev pub assembled :
      Option (List (Text × SourceConfig)) → Option (List (Text × SinkConfig)) → Option VectorConfig
  assembled none sinks = none
  assembled (some sources) none = none
  assembled (some sources) (some sinks) = some (record { sources = sources; sinks = sinks })

  unfoldable pub create_vector_configuration : Client → Text → ExportPolicy → Option VectorConfig
  unfolding add_sources add_sinks
  create_vector_configuration client project policy =
      assembled (add_sources project policy policy.sources (some []))
        (add_sinks client project policy policy.sinks (some []))
