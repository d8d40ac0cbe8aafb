-- ===== src/Examples/Handlers.antt =====
-- Requests to the query API.
use telemetry.Base.{
  ◌+◌, ◌*◌, ◌≡◌, ◌≢◌, refl, inl, true, false, Option, none, some, [], ◌∷◌, ◌++◌, map, All, arith,
}
use telemetry.Base.Int.{ℤ, pos, ◌≤ℤ◌, quot, ◌+ℤ◌, ◌-ℤ◌}
use telemetry.Base.Text.{Text, lit, text_eq, has_prefix, cut_prefix, trim_prefix, join}
use telemetry.Base.Assoc.{lookup, insert}
use telemetry.Logql.Spaces.{trim_space}
use telemetry.Logql.Scan.{ok}
use telemetry.Authz.Permissions.{Attributes, known}
use telemetry.Authz.Guard.{Review, allow}
use telemetry.Storage.Clickhouse.Query.{LogQuery, backward}
use telemetry.Storage.Prometheus.{Libraries, Store, Context, answer, Form, RangeQuery}
use telemetry.Storage.Prometheus.Confined.{Confines}
use telemetry.Handlers.Prom.{
  Parsers, Config, max_duration, get, required, is_digits, digits_value, cut_point, nine,
  parse_unix_seconds, parse_prom_time, parse_prom_duration, prom_time, prom_timeout, prom_range,
  saturated, checked_window, stepped, ranged, range_query, above_zero, reversed,
}
use telemetry.Handlers.Prom.Bounds.{IsBounded, range_query-IsBounded}
use telemetry.Handlers.Prom.Endpoints.{
  prometheus_store, prom_query, prom_query_range, prom_series, prom_label_names, prom_label_values,
  endpoints-Confines,
}
use telemetry.Handlers.Routes.{
  routes, Permissions, register, new_router, HttpRequest, in_group, api_prefix, new_request_info,
  canonical_path, split_slash,
}
use telemetry.Handlers.Routes.Reviewed.{IsSettled, new_request_info-IsSettled}
use telemetry.Handlers.Routes.Canonical.{IsCanonical, canonical_path-IsCanonical}
use telemetry.Handlers.Logs as Logs
use telemetry.Handlers.Logs.{
  validate, storage_errors, limit_of, parse_limit, parse_time, time_range, log_query, loki_query,
  loki_query_range, parse_direction, negate, epoch_time,
}
use telemetry.Handlers.Logs.Limits.{IsLimited, loki-IsLimited}

abbrev no_duration : Text → Option ℤ
no_duration text = none

abbrev minute : ℤ
minute = pos 60000000000

abbrev parsers : Parsers
parsers = record {
  rfc3339 = no_duration;
  unix = λ sec nsec. pos (sec * 1000000000 + nsec);
  duration = no_duration;
  rounded = λ text. some minute;
  quote = λ text. text;
  duration_text = λ d. lit "long";
}

abbrev config : Config
config = record { query_timeout = pos 30000000000; max_range = pos 2678400000000000 }

abbrev form : Form
form =
    (lit "query", lit "up" ∷ [])
    ∷ (lit "start", lit "100.5" ∷ [])
    ∷ (lit "end", lit "700" ∷ [])
    ∷ (lit "step", lit "60" ∷ [])
    ∷ []

abbrev asked : RangeQuery
asked = record {
  query = lit "up";
  range = record { start = pos 100500000000; end = pos 700000000000 };
  step = minute;
  timeout = pos 30000000000;
}

range_query-form : range_query parsers config form ≡ inl asked
unfolding range_query required get lookup text_eq lit trim_space prom_range prom_time
    parse_prom_time parse_unix_seconds cut_point is_digits digits_value nine max_duration ranged
    parse_prom_duration stepped checked_window saturated quot ◌+ℤ◌ ◌-ℤ◌ prom_timeout
range_query-form = refl

range_query-IsBounded_example :
    (asked.query ≢ [])
    × (above_zero parsers asked.step ≡ true)
    × (reversed parsers asked.range.start asked.range.end ≡ false)
    × IsBounded parsers config form asked.range asked.step
    × (asked.timeout ≤ℤ config.query_timeout)
unfolding max_duration
range_query-IsBounded_example =
    range_query-IsBounded parsers config form asked (omega arith) range_query-form

abbrev libraries : Libraries
libraries = record {
  unmarshal = λ body.
      some (record { status = lit "success"; contents = body; error_type = []; error = [] });
  quote = λ text. text;
  format_time = λ t. lit "now";
  format_seconds = λ d. lit "60";
  valid_path = λ path. true;
  send = λ request. answer 200 (lit "[]");
}

abbrev store : Store
store = record {
  base = record { scheme = lit "https"; host = lit "metrics" };
  config = record {
    url = lit "https://metrics";
    tenancy = lit "extra-label";
    project_label = lit "project";
    max_response_bytes = pos 1000;
  };
}

abbrev context : Context
context = record { project = some (lit "p1"); error = none }

endpoints-Confines_example :
    let served = prometheus_store libraries store in
    All
      (Confines libraries store context)
      (prom_query parsers config served context minute (inl form)).1
    × All
        (Confines libraries store context)
        (prom_query_range parsers config served context (inl form)).1
    × All
        (Confines libraries store context)
        (prom_series parsers config served context (inl form)).1
    × All
        (Confines libraries store context)
        (prom_label_names parsers config served context (inl form)).1
    × All
        (Confines libraries store context)
        (prom_label_values parsers config served context (lit "job") (inl form)).1
endpoints-Confines_example =
    endpoints-Confines libraries store context parsers config minute (lit "job") (inl form)

abbrev table : Permissions
table = map (λ r. (r.pattern, r.permission)) routes

new_router-routes : new_router routes ≡ inl table
unfolding new_router register known insert text_eq lit
new_router-routes = refl

abbrev request : HttpRequest
request = record { method = lit "GET"; path = api_prefix ++ lit "/logs/loki/api/v1/labels" }

abbrev mux : HttpRequest → Option Text
mux req = some (req.method ++ (lit " " ++ req.path))

abbrev fallback : HttpRequest → Attributes
fallback req =
    new_request_info (λ s. s) (λ r. none)
      (λ r. record {
        is_resource_request = false;
        api_group = [];
        api_version = [];
        resource = [];
        subresource = [];
        name = [];
        namespace = [];
        verb = [];
        path = r.path;
      })
      table req

abbrev review : Attributes → Review Text
review attrs = record { decision = allow; reason = []; error = none }

in_group-request : in_group request.path ≡ true
unfolding in_group has_prefix cut_prefix text_eq lit
in_group-request = refl

new_request_info-IsSettled_example :
    IsSettled review
      (λ s. s)
      mux
      fallback
      table
      request
      (new_request_info (λ s. s) mux fallback table request)
new_request_info-IsSettled_example =
    new_request_info-IsSettled review (λ s. s) mux fallback table routes new_router-routes request
      in_group-request

canonical_path-IsCanonical_example :
    IsCanonical (lit "/loki/api/v1/query") (canonical_path (lit "/loki/api/v1/query"))
canonical_path-IsCanonical_example = canonical_path-IsCanonical (lit "/loki/api/v1/query")

canonical_path-loki :
    canonical_path (lit "/loki/api/v1/query")
    ≡ lit "/apis/o11y.miloapis.com/v1alpha1/logs/loki/api/v1/query"
unfolding canonical_path split_slash trim_prefix cut_prefix join text_eq lit
canonical_path-loki = refl

abbrev log_config : Logs.Config
log_config = record {
  metrics_storage = lit "fake";
  prometheus_url = [];
  prometheus_tenancy = [];
  max_response_bytes = pos 33554432;
  query_timeout = pos 30000000000;
  max_range = pos 2678400000000000;
  default_limit = pos 100;
  max_limit = pos 5000;
}

abbrev log_parsers : Logs.Parsers
log_parsers = record {
  rfc3339 = no_duration;
  parse_int = no_duration;
  atoi = λ text. some (pos 9000);
  parse_duration = λ text. some minute;
  parse_query = λ text. ok ([], []);
  error_text = λ e. [];
}

abbrev logs_asked : LogQuery
logs_asked = record {
  matchers = [];
  filters = [];
  range = record { start = pos 3400000000000; end = pos 7000000000000 };
  limit = pos 5000;
  direction = backward;
}

validate-log_config : validate log_config ≡ []
unfolding validate storage_errors text_eq lit
validate-log_config = refl

loki_query_range-nothing :
    loki_query_range log_parsers log_config (pos 7000000000000) [] ≡ inl (some logs_asked)
unfolding loki_query_range log_query parse_limit limit_of parse_direction time_range parse_time get
    lookup trim_space text_eq lit ◌+ℤ◌
loki_query_range-nothing = refl

loki-IsLimited_example : IsLimited log_parsers log_config (pos 7000000000000) [] logs_asked
loki-IsLimited_example =
    loki-IsLimited log_parsers log_config (pos 7000000000000) [] logs_asked validate-log_config
      (inl loki_query_range-nothing)
