-- ===== src/Operator/Sources.antt =====
-- Which sources the validation of a policy accepts.
use telemetry.Base.{
  ℕ, ◌+◌, ◌≡◌, ◌≢◌, ◌↔◌, refl, Bool, false, Option, none, some, inl, inr, List, [], ◌∷◌, ◌++◌, map,
  flat_map, All, arith, Bool-cases,
}
use telemetry.Base.Text.{Text, lit, text_eq, text_eq_iff}
use telemetry.Base.Assoc.{contains}
use telemetry.Operator.Policies.{
  index, FieldPath, Source, Parsed, failed, other_expr, metric_expr, at, forbidden_labels,
  label_errors, parsed_errors, validate_metric_source, name_errors, metrics_errors, with_name,
  validate_sources,
}

pub append_nil_iff {ℓ} : {A : Type ℓ} (xs ys : List A) → (xs ++ ys ≡ []) ↔ ((xs ≡ []) × (ys ≡ []))
append_nil_iff [] ys = (λ e. (refl, e), λ h. h.1)
append_nil_iff (x ∷ xs) ys = (λ e. cc, λ h. cc)

-- No name comes twice, nor is one of those seen.
abbrev pub AreNew : List Text → List Text → Type 0
AreNew seen [] = Unit
AreNew seen (n ∷ ns) = (contains seen n ≡ false) × AreNew (n ∷ seen) ns

module _ (parse : Text → Parsed) (is_url : Text → Bool) where
  abbrev pub IsGoodParse : Parsed → Type 0
  IsGoodParse failed = ⊥
  IsGoodParse other_expr = ⊥
  IsGoodParse (metric_expr filters) =
      All (All (λ label. contains forbidden_labels label ≡ false)) filters

  -- A source has a query that is a metric expression without a forbidden label.
  abbrev pub IsGoodMetrics : Option Text → Type 0
  IsGoodMetrics none = ⊥
  IsGoodMetrics (some query) = (query ≢ []) × IsGoodParse (parse query)

  label_errors_iff :
      (path : FieldPath) (query : Text) (labels : List Text)
      → (label_errors parse is_url path query labels ≡ [])
        ↔ All (λ label. contains forbidden_labels label ≡ false) labels
  unfolding label_errors
  label_errors_iff path query [] = (λ e. tt, λ h. refl)
  label_errors_iff path query (label ∷ labels) =
      elim (Bool-cases (contains forbidden_labels label)) [
        | inl bad ↦ (λ e. absurd (ground arith), λ h. absurd (cc (h.0)))
        | inr good ↦ (
          λ e. (good, (label_errors_iff path query labels).0 (ground arith)),
          λ h. ground (arith, (label_errors_iff path query labels).1 h.1),
        )
      ]

  filters_iff :
      (path : FieldPath) (query : Text) (filters : List (List Text))
      → (flat_map (label_errors parse is_url path query) filters ≡ [])
        ↔ All (All (λ label. contains forbidden_labels label ≡ false)) filters
  filters_iff path query [] = (λ e. tt, λ h. refl)
  filters_iff path query (labels ∷ filters) =
      let both =
        append_nil_iff (label_errors parse is_url path query labels)
          (flat_map (label_errors parse is_url path query) filters) in
      let here = label_errors_iff path query labels in
      let more = filters_iff path query filters in
      (λ e. (here.0 (both.0 e).0, more.0 (both.0 e).1), λ h. both.1 (here.1 h.0, more.1 h.1))

  parsed_iff :
      (path : FieldPath) (query : Text) (p : Parsed)
      → (parsed_errors parse is_url path query p ≡ []) ↔ IsGoodParse p
  unfolding parsed_errors
  parsed_iff path query failed = (λ e. absurd (cc), λ h. absurd h)
  parsed_iff path query other_expr = (λ e. absurd (cc), λ h. absurd h)
  parsed_iff path query (metric_expr filters) = filters_iff path query filters

  metrics_iff :
      (path : FieldPath) (metrics : Option Text)
      → (metrics_errors parse is_url path metrics ≡ []) ↔ IsGoodMetrics metrics
  unfolding metrics_errors validate_metric_source
  metrics_iff path none = (λ e. absurd (cc), λ h. absurd h)
  metrics_iff path (some query) =
      let inner = parsed_iff (at (at path (lit "metrics")) (lit "metricsql")) query (parse query) in
      elim (Bool-cases (text_eq query [])) [
        | inl e ↦ (λ h. absurd (ground arith), λ h. absurd (h.0 ((text_eq_iff query []).0 e)))
        | inr e ↦ (
          λ h. ((λ q. ground (arith, (text_eq_iff query []).1 q)), inner.0 (ground arith)),
          λ h. ground (arith, inner.1 h.1),
        )
      ]

  name_iff :
      (path : FieldPath) (names : List Text) (name : Text)
      → (name_errors parse is_url path names name ≡ [])
        ↔ ((name ≢ []) × (contains names name ≡ false))
  unfolding name_errors
  name_iff path names name = (
    λ e. ((λ q. ground (arith, (text_eq_iff name []).1 q)), ground arith),
    λ h. elim (Bool-cases (text_eq name [])) [
      | inl q ↦ absurd (h.0 ((text_eq_iff name []).0 q))
      | inr q ↦ ground arith
    ],
  )

  with_name-new :
      (names : List Text) (name : Text)
      → (name ≢ []) × (contains names name ≡ false)
      → with_name parse is_url names name ≡ name ∷ names
  with_name-new names name (some_name, new) = elim (Bool-cases (text_eq name [])) [
    | inl q ↦ absurd (some_name ((text_eq_iff name []).0 q))
    | inr q ↦ ground arith
  ]

  abbrev pub AreGoodSources : List Text → List Source → Type 0
  AreGoodSources names sources =
      AreNew names (map (λ s. s.name) sources)
      × All (λ s. s.name ≢ []) sources
      × All (λ s. IsGoodMetrics s.metrics) sources

  pub sources_iff :
      (path : FieldPath) (n : ℕ) (names : List Text) (sources : List Source)
      → (validate_sources parse is_url path n names sources ≡ []) ↔ AreGoodSources names sources
  unfolding validate_sources
  sources_iff path n names [] = (λ e. (tt, tt, tt), λ h. refl)
  sources_iff path n names (s ∷ sources) =
      let here = at path (lit "sources") ++ index n ∷ [] in
      let outer = append_nil_iff (name_errors parse is_url here names s.name) _ in
      let inner = append_nil_iff (metrics_errors parse is_url here s.metrics) (
        validate_sources parse is_url path (n + 1) (with_name parse is_url names s.name) sources) in
      let named = name_iff here names s.name in
      let measured = metrics_iff here s.metrics in
      let more = sources_iff path (n + 1) (s.name ∷ names) sources in
      (
        λ e.
            let good = named.0 (outer.0 e).0 in
            let (m, rest) = inner.0 (outer.0 e).1 in
            let (new, full, ok) = more.0 (rw (with_name-new names s.name good) at rest) in
            ((good.1, new), (good.0, full), (measured.0 m, ok)),
        λ ((new, news), (full, fulls), (ok, oks)). outer.1 (
          named.1 (full, new),
          inner.1 (
            measured.1 ok,
            rw (with_name-new names s.name (full, new)) (more.1 (news, fulls, oks)),
          ),
        ),
      )
