-- ===== src/Storage/Prometheus.antt =====
-- queryapi/internal/storage/prometheus/prometheus.go: the metric store over a backend that speaks
-- Prometheus's API, and ValidLabelName of queryapi/internal/storage/metrics.go. A time is its
-- nanoseconds since the zero time of package time; texts of times and the backend are parameters.
pub mod Confined
use telemetry.Base.{
  ℕ, ◌+◌, ◌≡◌, ◌⊎◌, inl, inr, Bool, true, false, not, ◌&&◌, ◌||◌, ◌==◌, ltb, leb, Option, none,
  some, List, [], ◌∷◌, ◌++◌, length, if◌then◌else◌,
}
use telemetry.Base.Int.{ℤ, pos, negsuc}
use telemetry.Base.Text.{Text, lit, text_eq}
use telemetry.Base.Assoc.{lookup, insert}
use telemetry.Storage.Matchers.{contains_text}

-- The errors of the store, and of building it.
pub data StoreError : Type 0 where
  no_project response_too_large backend_unavailable canceled deadline_exceeded : StoreError
  query_error : Text → StoreError
  invalid_path : StoreError

pub data NewError : Type 0 where
  no_tenancy unknown_tenancy invalid_url invalid_project_label invalid_max_response_bytes : NewError

abbrev pub tenancy_extra_label : Text
tenancy_extra_label = lit "extra-label"

unfoldable pub parse_tenancy : Text → Text ⊎ NewError
parse_tenancy s =
    if text_eq s tenancy_extra_label
    then inl tenancy_extra_label
    else if text_eq s []
    then inr no_tenancy
    else inr unknown_tenancy

abbrev pub is_letter : ℕ → Bool
is_letter c = (leb b'a' c && leb c b'z') || ((leb b'A' c && leb c b'Z') || c == b'_')

unfoldable pub word_tail : Text → Bool
word_tail [] = true
word_tail (c ∷ name) = (is_letter c || (leb b'0' c && leb c b'9')) && word_tail name

-- The expression ^[a-zA-Z_][a-zA-Z0-9_]*$.
unfoldable pub valid_label_name : Text → Bool
unfolding word_tail
valid_label_name [] = false
valid_label_name (c ∷ name) = is_letter c && word_tail name

pub record Config : Type 0 where
  pub url : Text
  pub tenancy : Text
  pub project_label : Text
  pub max_response_bytes : ℤ

-- url.Parse: the scheme and the host.
pub record Url : Type 0 where
  pub scheme : Text
  pub host : Text

pub record Store : Type 0 where
  pub base : Url
  pub config : Config

abbrev is_http : Url → Bool
is_http u =
    (text_eq u.scheme (lit "http") || text_eq u.scheme (lit "https")) && not (text_eq u.host [])

abbrev is_positive : ℤ → Bool
is_positive (pos n) = ltb 0 n
is_positive (negsuc n) = false

unfoldable pub new_over : Config → Text ⊎ NewError → Option Url → Store ⊎ NewError
unfolding valid_label_name
new_over config (inr e) base = inr e
new_over config (inl tenancy) none = inr invalid_url
new_over config (inl tenancy) (some base) =
    if not (is_http base)
    then inr invalid_url
    else if not (valid_label_name config.project_label)
    then inr invalid_project_label
    else if not (is_positive config.max_response_bytes)
    then inr invalid_max_response_bytes
    else inl (record { base = base; config = config })

unfoldable pub new_store : (Text → Option Url) → Config → Store ⊎ NewError
unfolding new_over parse_tenancy
new_store parse config = new_over config (parse_tenancy config.tenancy) (parse config.url)

-- url.Values.
abbrev pub Form : Type 0
Form = List (Text × List Text)

pub record TimeRange : Type 0 where
  pub start : ℤ
  pub end : ℤ

pub record InstantQuery : Type 0 where
  pub query : Text
  pub time : ℤ
  pub timeout : ℤ

pub record RangeQuery : Type 0 where
  pub query : Text
  pub range : TimeRange
  pub step : ℤ
  pub timeout : ℤ

-- A POST of a form to a path.
pub record Request : Type 0 where
  pub path : Text
  pub form : Form

pub data Response : Type 0 where
  unreachable unreadable : Response
  answer : ℕ → Text → Response

pub record Envelope : Type 0 where
  pub status : Text
  pub contents : Text
  pub error_type : Text
  pub error : Text

unfoldable pub is_timeout : Envelope → Bool
unfolding contains_text
is_timeout env =
    text_eq env.error_type (lit "timeout") || contains_text env.error (lit "timeout exceeded")

-- The answer to a body that is an envelope.
unfoldable pub decode_envelope : ℕ → Envelope → Text ⊎ StoreError
unfolding is_timeout
decode_envelope status env =
    if text_eq env.status []
    then inr backend_unavailable
    else if (status == 422 || status == 503) && is_timeout env
    then inr deadline_exceeded
    else if status == 200 && (text_eq env.status (lit "success") && not (text_eq env.contents []))
    then inl env.contents
    else if (status == 400 || status == 422) && not (text_eq env.error [])
    then inr (query_error env.error)
    else inr backend_unavailable

-- What the code uses of net/http, encoding/json, strconv and time.
pub record Libraries : Type 0 where
  pub unmarshal : Text → Option Envelope
  pub quote : Text → Text
  pub format_time : ℤ → Text
  pub format_seconds : ℤ → Text
  -- Whether a request to the path can be built.
  pub valid_path : Text → Bool
  pub send : Request → Response

-- A context: its project, and its error once it has one.
pub record Context : Type 0 where
  pub project : Option Text
  pub error : Option StoreError

-- A context value that is empty is no project.
unfoldable pub project_id : Context → Option Text
project_id ctx = elim ctx.project [
  | none ↦ none
  | some id ↦ if text_eq id [] then none else some id
]

abbrev or_context : Context → StoreError → StoreError
or_context ctx e = elim ctx.error [ none ↦ e | some c ↦ c ]

unfoldable pub set : Text → Text → Form → Form
unfolding insert
set name value form = insert name (value ∷ []) form

module _ (libs : Libraries) (s : Store) where
  unfoldable pub decode : ℕ → Text → Text ⊎ StoreError
  unfolding decode_envelope
  decode status body = elim (libs.unmarshal body) [
    | none ↦ inr backend_unavailable
    | some env ↦ decode_envelope status env
  ]

  abbrev blamed : Context → Text ⊎ StoreError → Text ⊎ StoreError
  blamed ctx (inl contents) = inl contents
  blamed ctx (inr e) = inr (or_context ctx e)

  abbrev exceeds : Text → ℤ → Bool
  exceeds body (pos n) = ltb n (length body)
  exceeds body (negsuc n) = true

  unfoldable pub received : Context → Response → Text ⊎ StoreError
  unfolding decode
  received ctx unreachable = inr (or_context ctx backend_unavailable)
  received ctx unreadable = inr (or_context ctx backend_unavailable)
  received ctx (answer status body) =
      if exceeds body s.config.max_response_bytes
      then inr response_too_large
      else blamed ctx (decode status body)

  -- The result with the requests that were sent for it.
  abbrev pub Outcome : Type 0
  Outcome = (Text ⊎ StoreError) × List Request

  abbrev pub confined : Text → Text → Form → Request
  confined path project form = record {
    path = path;
    form = set (lit "extra_label") (s.config.project_label ++ (b'=' ∷ project)) form;
  }

  -- The call for a context's project.
  unfoldable pub do_for : Context → Text → Form → Option Text → Outcome
  unfolding received set
  do_for ctx path form none = (inr no_project, [])
  do_for ctx path form (some project) =
      if libs.valid_path path
      then (received ctx (libs.send (confined path project form)), confined path project form ∷ [])
      else (inr invalid_path, [])

  unfoldable pub do_request : Context → Text → Form → Outcome
  unfolding do_for project_id
  do_request ctx path form = do_for ctx path form (project_id ctx)

  abbrev is_zero : ℤ → Bool
  is_zero (pos n) = n == 0
  is_zero (negsuc n) = false

  abbrev with_timeout : ℤ → Form → Form
  with_timeout timeout form =
      if is_positive timeout then set (lit "timeout") (libs.format_seconds timeout) form else form

  abbrev with_time : Text → ℤ → Form → Form
  with_time name t form = if is_zero t then form else set name (libs.format_time t) form

  abbrev matchers_form : List Text → Form
  matchers_form [] = []
  matchers_form (m ∷ matchers) = (lit "match[]", m ∷ matchers) ∷ []

  unfoldable pub selector_form : List Text → TimeRange → Form
  unfolding set
  selector_form matchers range =
      with_time (lit "end") range.end (with_time (lit "start") range.start (matchers_form matchers))

  unfoldable pub query : Context → InstantQuery → Outcome
  unfolding do_request set
  query ctx q = do_request ctx (lit "/api/v1/query") (
      with_timeout q.timeout
        ((lit "query", q.query ∷ []) ∷ (lit "time", libs.format_time q.time ∷ []) ∷ []))

  unfoldable pub query_range : Context → RangeQuery → Outcome
  unfolding do_request set
  query_range ctx q = do_request ctx (lit "/api/v1/query_range") (
      with_timeout q.timeout (
        (lit "query", q.query ∷ [])
        ∷ (lit "start", libs.format_time q.range.start ∷ [])
        ∷ (lit "end", libs.format_time q.range.end ∷ [])
        ∷ (lit "step", libs.format_seconds q.step ∷ [])
        ∷ []))

  unfoldable pub series : Context → List Text → TimeRange → Outcome
  unfolding do_request selector_form
  series ctx matchers range = do_request ctx (lit "/api/v1/series") (selector_form matchers range)

  unfoldable pub label_names : Context → List Text → TimeRange → Outcome
  unfolding do_request selector_form
  label_names ctx matchers range =
      do_request ctx (lit "/api/v1/labels") (selector_form matchers range)

  unfoldable pub label_values : Context → Text → List Text → TimeRange → Outcome
  unfolding do_request selector_form valid_label_name
  label_values ctx name matchers range =
      if valid_label_name name
      then do_request ctx (lit "/api/v1/label/" ++ (name ++ lit "/values"))
          (selector_form matchers range)
      else (inr (query_error (lit "invalid label name " ++ libs.quote name)), [])
