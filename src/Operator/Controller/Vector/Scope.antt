-- ===== src/Operator/Controller/Vector/Scope.antt =====
-- Which series the sources of a configuration read.
use mathlib.Core.Option.{some-injective}
use telemetry.Base.{
  ◌≡◌, refl, ap, subst, Bool, true, false, not, ◌&&◌, ◌||◌, Option, none, some, List, [], ◌∷◌, map,
  All, if◌then◌else◌, arith,
}
use telemetry.Base.Text.{Text, text_eq}
use telemetry.Base.Assoc.{insert-All}
use telemetry.Operator.Policies.{Source}
use telemetry.Operator.Controller.{ExportPolicy, Client}
use telemetry.Operator.Controller.Vector.{
  LabelFilter, Filterss, Query, failed, other_expr, metric_expr, MetricsService, SourceConfig,
  SinkConfig, VectorConfig, project_label, project_filter, with_filter, scoped, source_config,
  add_query, add_source, add_sources, assembled, create_vector_configuration,
  get_vector_component_id, vector_source,
}

-- The value of each label of a series.
abbrev pub Series : Type 0
Series = Text → Text

module _ (matches : Text → Text → Bool) where
  abbrev hits : LabelFilter → Text → Bool
  hits f value = if f.is_regexp then matches f.value value else text_eq value f.value

  unfoldable pub accepts : LabelFilter → Series → Bool
  accepts f series =
      if f.is_negative then not (hits f (series f.label)) else hits f (series f.label)

  unfoldable pub accepts_all : List LabelFilter → Series → Bool
  unfolding accepts
  accepts_all [] series = true
  accepts_all (f ∷ filters) series = accepts f series && accepts_all filters series

  unfoldable pub accepts_some : Filterss → Series → Bool
  unfolding accepts_all
  accepts_some [] series = false
  accepts_some (filters ∷ rest) series = accepts_all filters series || accepts_some rest series

  -- A query selects the series that pass one of its sets, and all of them if it has no set.
  unfoldable pub selects : Filterss → Series → Bool
  unfolding accepts_some
  selects [] series = true
  selects (filters ∷ rest) series = accepts_some (filters ∷ rest) series

  all-with_filter :
      (project : Text) (filters : List LabelFilter) (series : Series)
      → accepts_all (with_filter (project_filter project) filters) series
        ≡ (accepts_all filters series && text_eq (series project_label) project)
  unfolding accepts_all
  all-with_filter project [] series = ground arith
  all-with_filter project (f ∷ filters) series =
      ground (arith, all-with_filter project filters series)

  some-with_filter :
      (project : Text) (filterss : Filterss) (series : Series)
      → accepts_some (map (with_filter (project_filter project)) filterss) series
        ≡ (accepts_some filterss series && text_eq (series project_label) project)
  unfolding accepts_some
  some-with_filter project [] series = refl
  some-with_filter project (filters ∷ rest) series =
      ground (arith, all-with_filter project filters series, some-with_filter project rest series)

  pub selects-scoped :
      (project : Text) (filterss : Filterss) (series : Series)
      → selects (scoped project filterss) series
        ≡ (selects filterss series && text_eq (series project_label) project)
  unfolding selects scoped
  selects-scoped project [] series = ground arith
  selects-scoped project (filters ∷ rest) series = some-with_filter project (filters ∷ rest) series

  module _ (parse : Text → Query) (append_string : Filterss → Text) (service : MetricsService) where
    -- The source reads exactly what its query selects of the project's series.
    abbrev pub IsScoped : Text → SourceConfig → Type 0
    IsScoped project config =
        (given : Filterss) × (query : Text) × (asked : Filterss) × (parse query ≡ metric_expr given)
        × (config.match ≡ append_string asked ∷ [])
        × ((series : Series)
            → selects asked series
              ≡ (selects given series && text_eq (series project_label) project))

    abbrev AreScoped : Text → List (Text × SourceConfig) → Type 0
    AreScoped project = All (λ (entry : Text × SourceConfig). IsScoped project entry.1)

    add_query-AreScoped :
        (project id query : Text) (parsed : Query)
        → parse query ≡ parsed
        → (m after : List (Text × SourceConfig)) → AreScoped project m
        → add_query parse append_string service project id parsed m ≡ some after
        → AreScoped project after
    unfolding add_query source_config
    add_query-AreScoped project id query failed p m after h e =
        subst (AreScoped project) (some-injective m after e) h
    add_query-AreScoped project id query other_expr p m after h e = absurd (cc)
    add_query-AreScoped project id query (metric_expr given) p m after h e =
        let config = source_config parse append_string service project given in
        let good : IsScoped project config =
          (given, query, scoped project given, p, refl, selects-scoped project given) in
        subst (AreScoped project) (some-injective _ after e) (
          insert-All (λ (entry : Text × SourceConfig). IsScoped project entry.1) id config good m h)

    add_source-AreScoped :
        (project id : Text) (source : Option Text) (m after : List (Text × SourceConfig))
        → AreScoped project m
        → add_source parse append_string service project id source m ≡ some after
        → AreScoped project after
    unfolding add_query source_config
    add_source-AreScoped project id none m after h e =
        subst (AreScoped project) (some-injective m after e) h
    add_source-AreScoped project id (some query) m after h e =
        add_query-AreScoped project id query (parse query) refl m after h e

    add_sources-AreScoped :
        (project : Text) (policy : ExportPolicy) (sources : List Source)
        (m : Option (List (Text × SourceConfig))) (after : List (Text × SourceConfig))
        → ((before : List (Text × SourceConfig)) → m ≡ some before → AreScoped project before)
        → add_sources parse append_string service project policy sources m ≡ some after
        → AreScoped project after
    unfolding add_sources
    add_sources-AreScoped project policy sources none after h e = absurd (cc)
    add_sources-AreScoped project policy [] (some m) after h e = h after e
    add_sources-AreScoped project policy (source ∷ sources) (some m) after h e =
        let id = get_vector_component_id policy project source.name vector_source in
        add_sources-AreScoped project policy sources
          (add_source parse append_string service project id source.metrics m) after
          (λ next q. add_source-AreScoped project id source.metrics m next (h m refl) q) e

    assembled_sources :
        (sources : Option (List (Text × SourceConfig))) (sinks : Option (List (Text × SinkConfig)))
        (config : VectorConfig)
        → assembled parse append_string service sources sinks ≡ some config
        → sources ≡ some config.sources
    assembled_sources none sinks config e = absurd (cc)
    assembled_sources (some sources) none config e = absurd (cc)
    assembled_sources (some sources) (some sinks) config e =
        ap (λ (c : VectorConfig). some c.sources) (some-injective _ config e)

    -- Every source of a configuration that is made for a policy sends one query. It is the printed
    -- form of filters that are made from those of some query that parses, and that select, of the
    -- series that this query selects, exactly those whose project label is the policy's project.
    pub create_vector_configuration-IsScoped :
        (client : Client) (project : Text) (policy : ExportPolicy) (config : VectorConfig)
        → create_vector_configuration parse append_string service client project policy
          ≡ some config
        → All (λ (entry : Text × SourceConfig). IsScoped project entry.1) config.sources
    unfolding create_vector_configuration
    create_vector_configuration-IsScoped client project policy config e =
        add_sources-AreScoped project policy policy.sources (some []) config.sources
          (λ before q. subst (AreScoped project) (some-injective [] before q) tt)
          (assembled_sources _ _ config e)
