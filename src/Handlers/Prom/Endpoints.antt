-- ===== src/Handlers/Prom/Endpoints.antt =====
-- queryapi/prom.go: the five endpoints over a metric store. A form is inr where it does not parse.
use telemetry.Base.{◌⊎◌, inl, inr, Option, none, some, List, [], ◌∷◌, ◌++◌, if◌then◌else◌, All}
use telemetry.Base.Int.{ℤ}
use telemetry.Base.Text.{Text, lit}
use telemetry.Base.Assoc.{lookup}
use telemetry.Storage.Prometheus.{
  StoreError, no_project, response_too_large, backend_unavailable, canceled, deadline_exceeded,
  query_error, invalid_path, Form, TimeRange, InstantQuery, RangeQuery, Request, Context, Libraries,
  Store, valid_label_name, query, query_range, series, label_names, label_values,
}
use telemetry.Storage.Prometheus.Confined.{
  Confines, query-IsConfined, query_range-IsConfined, series-IsConfined, label_names-IsConfined,
  label_values-IsConfined,
}
use telemetry.Handlers.Prom.{
  Reply, refused, success, Checked, ◌>>=◌, bad_data, Config, Parsers, required, prom_time,
  prom_timeout, prom_range,
}
use telemetry.Handlers.Prom as Prom

-- A result with the requests that were sent for it.
abbrev pub Sent : Type 0 → Type 0
Sent A = A × List Request

-- The interface of a metric store.
pub record MetricStore : Type 0 where
  pub query : Context → InstantQuery → Sent (Text ⊎ StoreError)
  pub query_range : Context → RangeQuery → Sent (Text ⊎ StoreError)
  pub series : Context → List Text → TimeRange → Sent (Text ⊎ StoreError)
  pub label_names : Context → List Text → TimeRange → Sent (Text ⊎ StoreError)
  pub label_values : Context → Text → List Text → TimeRange → Sent (Text ⊎ StoreError)

unfoldable pub write_prom_storage_error : StoreError → Reply
write_prom_storage_error (query_error message) = refused 400 (lit "bad_data") message
write_prom_storage_error no_project =
    refused 401 (lit "unauthorized") (lit "request is not scoped to a project")
write_prom_storage_error response_too_large =
    refused 422 (lit "execution")
      (lit "response exceeds the size limit; narrow the query or the time range")
write_prom_storage_error canceled = refused 499 (lit "canceled") (lit "client cancelled request")
write_prom_storage_error deadline_exceeded = refused 503 (lit "timeout") (lit "query timed out")
write_prom_storage_error backend_unavailable =
    refused 502 (lit "unavailable") (lit "metrics backend unavailable")
write_prom_storage_error invalid_path = refused 500 (lit "internal") (lit "internal error")

abbrev replied : Text ⊎ StoreError → Reply
replied (inl contents) = success contents
replied (inr e) = write_prom_storage_error e

unfoldable pub write_prom_result : Sent (Text ⊎ StoreError) → Sent Reply
unfolding write_prom_storage_error
write_prom_result (result, requests) = (replied result, requests)

abbrev prom_form : Form ⊎ Text → Checked Form
prom_form (inl form) = inl form
prom_form (inr message) = bad_data (lit "invalid form: " ++ message)

-- The reply of a request that is refused, or the result of the store.
abbrev answered : {A : Type 0} → (A → Sent (Text ⊎ StoreError)) → Checked A → Sent Reply
answered call (inl a) = write_prom_result (call a)
answered call (inr reply) = (reply, [])

abbrev values_of : Option (List Text) → List Text
values_of none = []
values_of (some vs) = vs

abbrev matchers_of : Form → List Text
matchers_of form = values_of (lookup (lit "match[]") form)

module _ (parsers : Parsers) (config : Config) where
  unfoldable pub instant_query : ℤ → Form → Checked InstantQuery
  instant_query now form = do
    text ← required form (lit "query")
    at ← prom_time parsers form (lit "time") now
    timeout ← prom_timeout parsers config form
    inl (record { query = text; time = at; timeout = timeout })

  -- The selectors and the range of a request.
  abbrev selected : Form → Checked (List Text × TimeRange)
  selected form = prom_range parsers form >>= (λ range. inl (matchers_of form, range))

  abbrev some_selector : List Text → Form → Checked (List Text × TimeRange)
  some_selector [] form = bad_data (lit "at least one match[] selector is required")
  some_selector (m ∷ matchers) form = selected form

  module _ (store : MetricStore) (ctx : Context) where
    unfoldable pub prom_query : ℤ → Form ⊎ Text → Sent Reply
    unfolding write_prom_result
    prom_query now form = answered (store.query ctx) (prom_form form >>= instant_query now)

    unfoldable pub prom_query_range : Form ⊎ Text → Sent Reply
    unfolding write_prom_result
    prom_query_range form =
        answered (store.query_range ctx) (prom_form form >>= Prom.range_query parsers config)

    unfoldable pub prom_series : Form ⊎ Text → Sent Reply
    unfolding write_prom_result
    prom_series form =
        answered (λ (s : List Text × TimeRange). store.series ctx s.0 s.1)
          (prom_form form >>= (λ f. some_selector (matchers_of f) f))

    unfoldable pub prom_label_names : Form ⊎ Text → Sent Reply
    unfolding write_prom_result
    prom_label_names form =
        answered (λ (s : List Text × TimeRange). store.label_names ctx s.0 s.1)
          (prom_form form >>= selected)

    unfoldable pub prom_label_values : Text → Form ⊎ Text → Sent Reply
    unfolding write_prom_result
    prom_label_values name form =
        answered (λ (s : List Text × TimeRange). store.label_values ctx name s.0 s.1)
          (if valid_label_name name
            then prom_form form >>= selected
            else bad_data (lit "invalid label name " ++ parsers.quote name))

-- The store over a Prometheus backend.
abbrev pub prometheus_store : Libraries → Store → MetricStore
prometheus_store libs s = record {
  query = query libs s;
  query_range = query_range libs s;
  series = series libs s;
  label_names = label_names libs s;
  label_values = label_values libs s;
}

module _ (libs : Libraries) (s : Store) (ctx : Context) where
  answered-Confines :
      {A : Type 0} (call : A → Sent (Text ⊎ StoreError))
      → ((a : A) → All (Confines libs s ctx) (call a).1)
      → (o : Checked A) → All (Confines libs s ctx) (answered call o).1
  unfolding write_prom_result
  answered-Confines call h (inl a) = h a
  answered-Confines call h (inr reply) = tt

  -- Whatever a client sends to one of the five metric endpoints over a Prometheus backend, each request
  -- that goes to the backend for it is confined to the project of the client's request: that
  -- project, which is not empty, is the one value of the parameter extra_label, after the store's
  -- label and an equals sign.
  pub endpoints-Confines :
      (parsers : Parsers) (config : Config) (now : ℤ) (name : Text) (form : Form ⊎ Text)
      → let store = prometheus_store libs s in
        All (Confines libs s ctx) (prom_query parsers config store ctx now form).1
        × All (Confines libs s ctx) (prom_query_range parsers config store ctx form).1
        × All (Confines libs s ctx) (prom_series parsers config store ctx form).1
        × All (Confines libs s ctx) (prom_label_names parsers config store ctx form).1
        × All (Confines libs s ctx) (prom_label_values parsers config store ctx name form).1
  unfolding prom_query prom_query_range prom_series prom_label_names prom_label_values
  endpoints-Confines parsers config now name form = (
    answered-Confines _ (λ q. query-IsConfined libs s ctx q) _,
    answered-Confines _ (λ q. query_range-IsConfined libs s ctx q) _,
    answered-Confines _ (λ q. series-IsConfined libs s ctx q.0 q.1) _,
    answered-Confines _ (λ q. label_names-IsConfined libs s ctx q.0 q.1) _,
    answered-Confines _ (λ q. label_values-IsConfined libs s ctx name q.0 q.1) _,
  )
