-- ===== src/Handlers/Logs/Limits.antt =====
-- What a log query that passes the handlers' tests is limited to.
use mathlib.Core.Sum.{inl-injective}
use mathlib.Core.Option.{some-injective}
use telemetry.Base.{
  ◌≡◌, refl, sym, ◌∙◌, subst, ◌⊎◌, inl, inr, Bool, true, false, not, ◌&&◌, Option, none, some, List,
  [], ◌++◌, arith, Bool-cases, if_true, if_false,
}
use telemetry.Base.Int.{ℤ, pos, negsuc, ◌+ℤ◌, ◌≤ℤ◌, ◌<ℤ◌, ltb_ℤ}
use telemetry.Base.Text.{lit, text_eq}
use telemetry.Logql.Spaces.{trim_space}
use telemetry.Logql.Parser.{Query}
use telemetry.Storage.Clickhouse.Query.{TimeRange, LogQuery}
use telemetry.Storage.Prometheus.{Form}
use telemetry.Handlers.Prom.{get}
use telemetry.Handlers.Logs.{
  Config, ConfigError, is_positive, reported, validate, Checked, ◌>>=◌, Parsers, hour, limit_of,
  parse_limit, parse_time, in_order, time_range, parsed, log_query, loki_query, loki_query_range,
}

bind_inl :
    {A B : Type 0} (x : Checked A) (f : A → Checked B) (b : B)
    → (x >>= f) ≡ inl b
    → (a : A) × (x ≡ inl a) × (f a ≡ inl b)
bind_inl (inl a) f b h = (a, refl, h)
bind_inl (inr refusal) f b h = absurd (cc)

reported_nil :
    (b : Bool) (e : ConfigError) (rest : List ConfigError)
    → reported b e ++ rest ≡ []
    → (b ≡ false) × (rest ≡ [])
reported_nil true e rest h = absurd (cc)
reported_nil false e rest h = (refl, h)

-- The limits of a configuration that may be used.
pub record HasLimits (c : Config) : Type 0 where
  pub default_positive : is_positive c.default_limit ≡ true
  pub max_positive : is_positive c.max_limit ≡ true
  pub ordered : c.default_limit ≤ℤ c.max_limit

validate-HasLimits : (c : Config) → validate c ≡ [] → HasLimits c
unfolding validate
validate-HasLimits c h =
    let (d, h1) = reported_nil (not (is_positive c.default_limit)) _ _ h in
    let (m, h2) = reported_nil (not (is_positive c.max_limit)) _ _ h1 in
    let (o, h3) =
      reported_nil
        (is_positive c.default_limit
          && (is_positive c.max_limit && ltb_ℤ c.max_limit c.default_limit))
        _ _ h2 in
    record { default_positive = ground arith; max_positive = ground arith; ordered = ground arith }

limit_of-bounded :
    (c : Config)
    → HasLimits c
    → (o : Option ℤ) → (is_positive (limit_of c o) ≡ true) × (limit_of c o ≤ℤ c.max_limit)
unfolding limit_of
limit_of-bounded c h none = (h.default_positive, h.ordered)
limit_of-bounded c h (some n) = elim (Bool-cases (is_positive n)) [
  | inl p ↦ elim (Bool-cases (ltb_ℤ c.max_limit n)) [
    | inl l ↦ (ground (arith, h.max_positive), ground arith)
    | inr l ↦ (ground arith, ground arith)
  ]
  | inr p ↦ (ground (arith, h.default_positive), ground (arith, h.ordered))
]

before_hour : (t : ℤ) → (t +ℤ hour) <ℤ t
unfolding ◌+ℤ◌
before_hour (pos n) = ground arith
before_hour (negsuc n) = ground arith

module _ (parsers : Parsers) (c : Config) (now : ℤ) (form : Form) where
  -- A query within the limits, over a range that is not empty.
  pub record IsLimited (q : LogQuery) : Type 0 where
    pub positive : is_positive q.limit ≡ true
    pub limited : q.limit ≤ℤ c.max_limit
    pub ordered : q.range.start <ℤ q.range.end

  log_query-IsLimited :
      HasLimits c
      → (query : Query) (range : TimeRange) → range.start <ℤ range.end
      → IsLimited (log_query parsers c form query range)
  unfolding log_query parse_limit
  log_query-IsLimited h (matchers, filters) range o =
      let (p, l) = limit_of-bounded c h (parsers.atoi (trim_space (get form (lit "limit")))) in
      record { positive = p; limited = l; ordered = o }

  in_order-ordered :
      (start end : ℤ) (range : TimeRange)
      → in_order parsers start end ≡ inl range
      → range.start <ℤ range.end
  in_order-ordered start end range h = elim (Bool-cases (ltb_ℤ start end)) [
    | inl e ↦
        subst (λ (r : TimeRange). r.start <ℤ r.end)
          (inl-injective _ range (sym (if_true (ltb_ℤ start end) _ _ e) ∙ h)) (ground arith)
    | inr e ↦ let wrong = sym (if_false (ltb_ℤ start end) _ _ e) ∙ h in absurd (cc (wrong))
  ]

  time_range-ordered :
      (range : TimeRange) → time_range parsers now form ≡ inl range → range.start <ℤ range.end
  unfolding time_range
  time_range-ordered range h =
      let (end, e, g) = bind_inl (parse_time parsers (get form (lit "end")) now now) _ range h in
      let (start, f, k) =
        bind_inl (parse_time parsers (get form (lit "start")) now (end +ℤ hour)) _ range g in
      in_order-ordered start end range k

  -- With a configuration that validates: a log query that the handler of query_range, or of query,
  -- passes to the store asks for at least one row and at most the maximal limit, whatever limit the
  -- client names, and its range ends after it starts.
  pub loki-IsLimited :
      (q : LogQuery)
      → validate c ≡ []
      → (loki_query_range parsers c now form ≡ inl (some q))
        ⊎ (loki_query parsers c now form ≡ inl (some q))
      → IsLimited q
  unfolding loki_query_range loki_query
  loki-IsLimited q valid (inl h) =
      let (query, e, g) =
        bind_inl (parsed parsers (parsers.parse_query (get form (lit "query")))) _ (some q) h in
      let (range, f, k) = bind_inl (time_range parsers now form) _ (some q) g in
      subst IsLimited (some-injective _ q (inl-injective _ (some q) k))
        (log_query-IsLimited (validate-HasLimits c valid) query range (time_range-ordered range f))
  loki-IsLimited q valid (inr h) =
      elim (Bool-cases
        (text_eq (trim_space (get form (lit "query"))) (lit "vector(1)+vector(1)"))) [
          | inl probe ↦ let wrong = sym (if_true _ _ _ probe) ∙ h in absurd (cc (wrong))
          | inr other ↦
              let (query, e, g) =
                bind_inl (parsed parsers (parsers.parse_query (get form (lit "query")))) _ (some q)
                  (sym (if_false _ _ _ other) ∙ h) in
              let (at, f, k) =
                bind_inl (parse_time parsers (get form (lit "time")) now now) _ (some q) g in
              subst IsLimited (some-injective _ q (inl-injective _ (some q) k)) (
                log_query-IsLimited (validate-HasLimits c valid) query
                  (record { start = at +ℤ hour; end = at }) (before_hour at))
        ]
