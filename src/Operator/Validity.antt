-- ===== src/Operator/Validity.antt =====
-- Which policies the validation accepts.
use mathlib.Core.Option.{some-injective}
use telemetry.Base.{
  ℕ, ◌+◌, ◌≡◌, ◌≢◌, ◌↔◌, refl, ap, Bool, true, false, Option, none, some, inl, inr, List, [], ◌∷◌,
  ◌++◌, map, All, if◌then◌else◌, arith, Bool-cases,
}
use telemetry.Base.Text.{Text, lit, text_eq, text_eq_iff}
use telemetry.Base.Assoc.{contains}
use telemetry.Operator.Policies.{
  child, index, FieldPath, FieldError, Source, SinkTarget, Sink, Spec, Parsed, at,
  validate_prometheus_remote_write, validate_sink_target, sink_name_errors, validate_sinks,
  sink_errors, sources_errors, validate_export_policy, all_errors,
}
use telemetry.Operator.Sources.{append_nil_iff, AreNew, AreGoodSources, sources_iff}

module _ (parse : Text → Parsed) (is_url : Text → Bool) where
  -- A sink has an endpoint that is a URL.
  abbrev pub IsGoodTarget : Option SinkTarget → Type 0
  IsGoodTarget none = ⊥
  IsGoodTarget (some target) = elim target.prometheus_remote_write [
    | none ↦ ⊥
    | some endpoint ↦ (endpoint ≢ []) × (is_url endpoint ≡ true)
  ]

  endpoint_iff :
      (path : FieldPath) (o : Option Text)
      → (validate_sink_target parse is_url path o ≡ [])
        ↔ IsGoodTarget (some (record { prometheus_remote_write = o }))
  unfolding validate_sink_target validate_prometheus_remote_write
  endpoint_iff path none = (λ e. absurd (cc), λ h. absurd h)
  endpoint_iff path (some endpoint) = (
    λ e. ((λ q. ground (arith, (text_eq_iff endpoint []).1 q)), ground arith),
    λ h. elim (Bool-cases (text_eq endpoint [])) [
      | inl q ↦ absurd (h.0 ((text_eq_iff endpoint []).0 q))
      | inr q ↦ ground arith
    ],
  )

  sink_iff :
      (here : FieldPath) (names : List Text) (name : Text) (o : Option SinkTarget)
      (rest : Option (List FieldError))
      → (sink_errors parse is_url here names name o rest ≡ some [])
        ↔ ((contains names name ≡ false) × IsGoodTarget o × (rest ≡ some []))
  unfolding sink_errors sink_name_errors
  sink_iff here names name none rest = (λ e. absurd (cc), λ h. absurd (h.1))
  sink_iff here names name (some target) none = (λ e. absurd (cc), λ h. absurd (cc (h.2)))
  sink_iff here names name (some target) (some errs) =
      let outer = append_nil_iff (sink_name_errors parse is_url here names name) _ in
      let inner =
        append_nil_iff
          (validate_sink_target parse is_url (at here (lit "target"))
            target.prometheus_remote_write)
          errs in
      let good = endpoint_iff (at here (lit "target")) target.prometheus_remote_write in
      (
        λ e.
            let (n, more) = outer.0 (some-injective _ _ e) in
            let (t, last) = inner.0 more in (ground arith, good.0 t, ap some last),
        λ (new, ok, last).
            ap some (outer.1 (ground arith, inner.1 (good.1 ok, some-injective _ _ last))),
      )

  abbrev pub AreGoodSinks : List Text → List Sink → Type 0
  AreGoodSinks names sinks =
      AreNew names (map (λ s. s.name) sinks) × All (λ s. IsGoodTarget s.target) sinks

  sinks_iff :
      (path : FieldPath) (n : ℕ) (names : List Text) (sinks : List Sink)
      → (validate_sinks parse is_url path n names sinks ≡ some []) ↔ AreGoodSinks names sinks
  unfolding validate_sinks
  sinks_iff path n names [] = (λ e. (tt, tt), λ h. refl)
  sinks_iff path n names (s ∷ sinks) =
      let here = at path (lit "sinks") ++ index n ∷ [] in
      let first = sink_iff here names s.name s.target (
        validate_sinks parse is_url path (n + 1)
          (if contains names s.name then names else s.name ∷ names) sinks) in
      let more = sinks_iff path (n + 1) (s.name ∷ names) sinks in
      (
        λ e.
            let (new, ok, rest) = first.0 e in
            let (news, oks) = more.0 (rw new at rest) in ((new, news), (ok, oks)),
        λ ((new, news), (ok, oks)). first.1 (new, ok, rw new (more.1 (news, oks))),
      )

  some_sources_iff :
      (path : FieldPath) (sources : List Source)
      → (sources_errors parse is_url path sources ≡ [])
        ↔ ((sources ≢ []) × AreGoodSources parse is_url [] sources)
  unfolding sources_errors
  some_sources_iff path [] = (λ e. absurd (cc), λ h. absurd (h.0 refl))
  some_sources_iff path (s ∷ sources) =
      let all = sources_iff parse is_url path 0 [] (s ∷ sources) in
      (λ e. ((λ q. cc), all.0 e), λ h. all.1 h.1)

  all_iff :
      (errs : List FieldError) (o : Option (List FieldError))
      → (all_errors parse is_url errs o ≡ some []) ↔ ((errs ≡ []) × (o ≡ some []))
  unfolding all_errors
  all_iff errs none = (λ e. absurd (cc), λ h. absurd (cc (h.1)))
  all_iff errs (some more) =
      let both = append_nil_iff errs more in
      (
        λ e. let (a, b) = both.0 (some-injective _ _ e) in (a, ap some b),
        λ h. ap some (both.1 (h.0, some-injective _ _ h.1)),
      )

  -- A policy that the webhook may admit.
  pub record IsValid (spec : Spec) : Type 0 where
    pub some_source : spec.sources ≢ []
    pub sources : AreGoodSources parse is_url [] spec.sources
    pub sinks : AreGoodSinks [] spec.sinks

  -- The validation runs through without an error exactly if the policy has a source, the sources have
  -- distinct names that are not empty and queries that are metric expressions without the label
  -- project_name, and the sinks have distinct names and endpoints that are not empty and are URLs.
  pub validate_export_policy-IsValid :
      (spec : Spec) → (validate_export_policy parse is_url spec ≡ some []) ↔ IsValid spec
  unfolding validate_export_policy
  validate_export_policy-IsValid spec =
      let path = child (lit "spec") ∷ [] in
      let both =
        all_iff (sources_errors parse is_url path spec.sources)
          (validate_sinks parse is_url path 0 [] spec.sinks) in
      let of_sources = some_sources_iff path spec.sources in
      let of_sinks = sinks_iff path 0 [] spec.sinks in
      (
        λ e.
            let (a, b) = both.0 e in
            let (full, good) = of_sources.0 a in
            record { some_source = full; sources = good; sinks = of_sinks.0 b },
        λ v. both.1 (of_sources.1 (v.some_source, v.sources), of_sinks.1 v.sinks),
      )
