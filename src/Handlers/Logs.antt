-- ===== src/Handlers/Logs.antt =====
-- queryapi/handler.go, queryapi/params.go and queryapi/config.go: the handlers' configuration, and what
-- a request for logs has to be. A time is its nanoseconds since 1970; parsers of times, durations and
-- integers that the code calls are parameters. The message on a time ends before the text that it
-- quotes.
pub mod Limits
use telemetry.Base.{
  ℕ, ◌+◌, ◌⊎◌, inl, inr, Bool, true, false, not, ◌&&◌, ◌||◌, ◌==◌, ltb, Option, none, some, List,
  [], ◌∷◌, ◌++◌, length, if◌then◌else◌,
}
use telemetry.Base.Int.{ℤ, pos, negsuc, ◌+ℤ◌, ltb_ℤ, scale, sub_ℕ}
use telemetry.Base.Text.{Text, lit, text_eq}
use telemetry.Base.Assoc.{lookup, contains}
use telemetry.Logql.Spaces.{trim_space}
use telemetry.Logql.Scan.{ParseError, Parsed, ok, err}
use telemetry.Logql.Parser.{Query}
use telemetry.Storage.Matchers.{LabelMatcher, LineFilter}
use telemetry.Storage.Clickhouse.Query.{TimeRange, LogQuery, Direction, forward, backward}
use telemetry.Storage.Prometheus.{parse_tenancy, Form}
use telemetry.Handlers.Prom.{max_duration, get}

pub record Config : Type 0 where
  pub metrics_storage : Text
  pub prometheus_url : Text
  pub prometheus_tenancy : Text
  pub max_response_bytes : ℤ
  pub query_timeout : ℤ
  pub max_range : ℤ
  pub default_limit : ℤ
  pub max_limit : ℤ

pub data ConfigError : Type 0 where
  bad_default_limit bad_max_limit default_exceeds_max bad_query_timeout bad_max_range : ConfigError
  bad_max_response_bytes no_prometheus_url bad_tenancy unknown_metrics_storage : ConfigError

abbrev pub is_positive : ℤ → Bool
is_positive (pos n) = ltb 0 n
is_positive (negsuc n) = false

abbrev pub reported : Bool → ConfigError → List ConfigError
reported bad e = if bad then e ∷ [] else []

abbrev tenancy_errors : {A B : Type 0} → A ⊎ B → List ConfigError
tenancy_errors (inl tenancy) = []
tenancy_errors (inr e) = bad_tenancy ∷ []

unfoldable pub storage_errors : Config → List ConfigError
unfolding parse_tenancy
storage_errors c =
    if text_eq c.metrics_storage (lit "fake")
    then []
    else if text_eq c.metrics_storage (lit "prometheus")
    then reported (text_eq c.prometheus_url []) no_prometheus_url
      ++ tenancy_errors (parse_tenancy c.prometheus_tenancy)
    else unknown_metrics_storage ∷ []

unfoldable pub validate : Config → List ConfigError
unfolding storage_errors
validate c =
    reported (not (is_positive c.default_limit)) bad_default_limit
    ++ (reported (not (is_positive c.max_limit)) bad_max_limit
        ++ (reported
              (is_positive c.default_limit
                && (is_positive c.max_limit && ltb_ℤ c.max_limit c.default_limit))
              default_exceeds_max
            ++ (reported (not (is_positive c.query_timeout)) bad_query_timeout
                ++ (reported (not (is_positive c.max_range)) bad_max_range
                    ++ (reported (not (is_positive c.max_response_bytes)) bad_max_response_bytes
                        ++ storage_errors c)))))

-- An error answer, with its status.
pub record Refusal : Type 0 where
  pub status : ℕ
  pub message : Text

abbrev pub Checked : Type 0 → Type 0
Checked A = A ⊎ Refusal

infixl 1 ◌>>=◌
abbrev pub ◌>>=◌ : {A B : Type 0} → Checked A → (A → Checked B) → Checked B
inl a >>= f = f a
inr refusal >>= f = inr refusal

abbrev pub bad_request : {A : Type 0} → Text → Checked A
bad_request message = inr (record { status = 400; message = message })

pub record Parsers : Type 0 where
  pub rfc3339 : Text → Option ℤ
  pub parse_int : Text → Option ℤ
  pub atoi : Text → Option ℤ
  pub parse_duration : Text → Option ℤ
  pub parse_query : Text → Parsed Query
  pub error_text : ParseError → Text

-- -d of an int64, whose least value is its own negation.
unfoldable pub negate : ℤ → ℤ
unfolding max_duration
negate (pos n) = sub_ℕ 0 n
negate (negsuc n) = if n == max_duration then negsuc n else pos (n + 1)

-- A number of an epoch by the length of its text; none for the ambiguous ones.
unfoldable pub epoch_time : ℕ → ℤ → Option ℤ
unfolding scale
epoch_time len n =
    if len == 10 || len == 11
    then some (scale 1000000000 n)
    else if len == 13
    then some (scale 1000000 n)
    else if len == 16
    then some (scale 1000 n)
    else if len == 19
    then some n
    else none

abbrev pub hour : ℤ
hour = negsuc 3599999999999

unfoldable pub parse_direction : Text → Direction
unfolding trim_space
parse_direction raw = if text_eq (trim_space raw) (lit "forward") then forward else backward

-- The limit of a number, or of a text that is none.
unfoldable pub limit_of : Config → Option ℤ → ℤ
limit_of c none = c.default_limit
limit_of c (some n) =
    if not (is_positive n) then c.default_limit else if ltb_ℤ c.max_limit n then c.max_limit else n

module _ (parsers : Parsers) where
  unfoldable pub parse_limit : Text → Config → ℤ
  unfolding limit_of trim_space
  parse_limit raw c = limit_of c (parsers.atoi (trim_space raw))

  abbrev or_duration : ℤ → Text → Option ℤ → Checked ℤ
  or_duration now raw none = bad_request (lit "invalid timestamp")
  or_duration now raw (some d) = inl (now +ℤ negate d)

  abbrev epoch_or_refused : Option ℤ → Checked ℤ
  epoch_or_refused none = bad_request (lit "ambiguous epoch timestamp")
  epoch_or_refused (some t) = inl t

  abbrev or_epoch : ℤ → Text → Option ℤ → Checked ℤ
  or_epoch now raw none = or_duration now raw (parsers.parse_duration raw)
  or_epoch now raw (some n) = epoch_or_refused (epoch_time (length raw) n)

  abbrev or_number : ℤ → Text → Option ℤ → Checked ℤ
  or_number now raw (some t) = inl t
  or_number now raw none = or_epoch now raw (parsers.parse_int raw)

  unfoldable pub parse_time : Text → ℤ → ℤ → Checked ℤ
  unfolding epoch_time negate ◌+ℤ◌ trim_space
  parse_time text now fallback =
      let raw = trim_space text in
      if text_eq raw [] then inl fallback else or_number now raw (parsers.rfc3339 raw)

  abbrev pub in_order : ℤ → ℤ → Checked TimeRange
  in_order start end =
      if ltb_ℤ start end
      then inl (record { start = start; end = end })
      else bad_request (lit "end must be after start")

  unfoldable pub time_range : ℤ → Form → Checked TimeRange
  unfolding ◌+ℤ◌
  time_range now form = do
    end ← parse_time (get form (lit "end")) now now
    start ← parse_time (get form (lit "start")) now (end +ℤ hour)
    in_order start end

  abbrev pub parsed : Parsed Query → Checked Query
  parsed (ok q) = inl q
  parsed (err e) = bad_request (parsers.error_text e)

  -- The query that serveLogs passes to the store.
  unfoldable pub log_query : Config → Form → Query → TimeRange → LogQuery
  log_query c form (matchers, filters) range = record {
    matchers = matchers;
    filters = filters;
    range = range;
    limit = parse_limit (get form (lit "limit")) c;
    direction = parse_direction (get form (lit "direction"));
  }

  abbrev pub Asked : Type 0
  Asked = Option LogQuery

  -- An instant query; none where it is the probe of Grafana, which is answered without the store.
  unfoldable pub loki_query : Config → ℤ → Form → Checked Asked
  unfolding log_query ◌+ℤ◌ trim_space
  loki_query c now form =
      if text_eq (trim_space (get form (lit "query"))) (lit "vector(1)+vector(1)")
      then inl none
      else (do
        q ← parsed (parsers.parse_query (get form (lit "query")))
        at ← parse_time (get form (lit "time")) now now
        inl (some (log_query c form q (record { start = at +ℤ hour; end = at }))))

  unfoldable pub loki_query_range : Config → ℤ → Form → Checked Asked
  unfolding log_query time_range
  loki_query_range c now form = do
    q ← parsed (parsers.parse_query (get form (lit "query")))
    range ← time_range now form
    inl (some (log_query c form q range))
