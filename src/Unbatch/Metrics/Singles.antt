-- ===== src/Unbatch/Metrics/Singles.antt =====
-- The shape of the outputs of splitMetrics.
use telemetry.Base.{
  ℕ, zero, suc, ◌≡◌, refl, sym, ap, ◌∙◌, List, [], ◌∷◌, map, length, flat_map, length-append, All,
  All-append, All-imp, append-nil, arith,
}
use telemetry.Unbatch.{ScopeGroup, ResourceGroup, Payload}
use telemetry.Unbatch.Metrics.{
  MetricData, empty, gauge, sum, histogram, exponential_histogram, summary, Metric, points,
  new_metric_container, explode_metric, data_point_count, explode_all, by_point_count,
  split_metrics,
}
use telemetry.Unbatch.Metrics.Points.{point_entries, length-point_entries, entries-split_metrics}

module _ {Number Hist Exp Summary : Type 0} where
  points_are_single :
      {A : Type 0} (f : A → MetricData Number Hist Exp Summary) (dps : List A)
      → ((dp : A) → points (f dp) ≡ f dp ∷ [])
      → All (λ p. length (points p) ≡ 1) (map f dps)
  points_are_single f [] h = tt
  points_are_single f (dp ∷ dps) h = (rw (h dp), points_are_single f dps h)

  points_single :
      (c : MetricData Number Hist Exp Summary) → All (λ p. length (points p) ≡ 1) (points c)
  unfolding points
  points_single empty = tt
  points_single (gauge dps) = points_are_single _ dps (λ dp. refl)
  points_single (sum t m dps) = points_are_single _ dps (λ dp. refl)
  points_single (histogram t dps) = points_are_single _ dps (λ dp. refl)
  points_single (exponential_histogram t dps) = points_are_single _ dps (λ dp. refl)
  points_single (summary dps) = points_are_single _ dps (λ dp. refl)

module _ {Resource Scope Number Hist Exp Summary : Type 0} where
  abbrev pub HasOnePoint : Payload Resource Scope (Metric Number Hist Exp Summary) → Type 0
  HasOnePoint md = data_point_count md ≡ 1

  abbrev pub HasNoMetadata : Payload Resource Scope (Metric Number Hist Exp Summary) → Type 0
  HasNoMetadata = All (λ rm. All (λ sm. All (λ m. m.metadata ≡ []) sm.items) rm.scopes)

  abbrev IsStripped : Payload Resource Scope (Metric Number Hist Exp Summary) → Type 0
  IsStripped md = HasOnePoint md × HasNoMetadata md

  module _ (rm : ResourceGroup Resource Scope (Metric Number Hist Exp Summary)) where
    container-IsStripped :
        (sm : ScopeGroup Scope (Metric Number Hist Exp Summary))
        (m : Metric Number Hist Exp Summary) (ps : List (MetricData Number Hist Exp Summary))
        → All (λ p. length (points p) ≡ 1) ps
        → All IsStripped (map (new_metric_container rm sm m) ps)
    unfolding new_metric_container data_point_count
    container-IsStripped sm m [] h = tt
    container-IsStripped sm m (p ∷ ps) h =
        ((simp append-nil h.0, (((refl, tt), tt), tt)), container-IsStripped sm m ps h.1)

    metrics-IsStripped :
        (sm : ScopeGroup Scope (Metric Number Hist Exp Summary))
        (ms : List (Metric Number Hist Exp Summary))
        → All IsStripped (flat_map (explode_metric rm sm) ms)
    unfolding explode_metric
    metrics-IsStripped sm [] = tt
    metrics-IsStripped sm (m ∷ ms) =
        All-append IsStripped _ _ (container-IsStripped sm m _ (points_single m.content))
          (metrics-IsStripped sm ms)

    scopes-IsStripped :
        (scopes : List (ScopeGroup Scope (Metric Number Hist Exp Summary)))
        → All IsStripped (flat_map (λ sm. flat_map (explode_metric rm sm) sm.items) scopes)
    scopes-IsStripped [] = tt
    scopes-IsStripped (sm ∷ scopes) =
        All-append IsStripped _ _ (metrics-IsStripped sm sm.items) (scopes-IsStripped scopes)

  explode_all-IsStripped :
      (md : Payload Resource Scope (Metric Number Hist Exp Summary))
      → All IsStripped (explode_all md)
  explode_all-IsStripped [] = tt
  explode_all-IsStripped (rm ∷ md) =
      All-append IsStripped _ _ (scopes-IsStripped rm rm.scopes) (explode_all-IsStripped md)

  by_point_count-HasOnePoint :
      (n : ℕ) (md : Payload Resource Scope (Metric Number Hist Exp Summary))
      → data_point_count md ≡ n
      → All HasOnePoint (by_point_count n md)
  unfolding by_point_count
  by_point_count-HasOnePoint zero md h = tt
  by_point_count-HasOnePoint (suc zero) md h = (h, tt)
  by_point_count-HasOnePoint (suc (suc n)) md h =
      All-imp IsStripped HasOnePoint (λ x s. s.0) (explode_all md) (explode_all-IsStripped md)

  sum_of_singles :
      (parts : List (Payload Resource Scope (Metric Number Hist Exp Summary)))
      → All HasOnePoint parts
      → length (flat_map point_entries parts) ≡ length parts
  sum_of_singles [] h = refl
  sum_of_singles (x ∷ parts) h = omega (
    arith,
    length-append (point_entries x) (flat_map point_entries parts),
    length-point_entries x,
    sum_of_singles parts h.1,
  )

  -- Each output of splitting metrics holds exactly one data point, and there are as many outputs as
  -- the input has data points.
  pub split_metrics_singles :
      (md : Payload Resource Scope (Metric Number Hist Exp Summary))
      → All HasOnePoint (split_metrics md) × (length (split_metrics md) ≡ data_point_count md)
  unfolding split_metrics
  split_metrics_singles md =
      let singles = by_point_count-HasOnePoint (data_point_count md) md refl in
      (
        singles,
        sym (sum_of_singles (split_metrics md) singles)
            ∙ ap length (entries-split_metrics md)
            ∙ length-point_entries md,
      )

  -- Where a payload has at least two data points, no output carries a metric's metadata, whatever
  -- the input carried.
  pub split_metrics_drops_metadata :
      (md : Payload Resource Scope (Metric Number Hist Exp Summary)) (n : ℕ)
      → data_point_count md ≡ suc (suc n)
      → All HasNoMetadata (split_metrics md)
  unfolding split_metrics by_point_count
  split_metrics_drops_metadata md n h =
      rw (h, by_point_count)
        (All-imp IsStripped HasNoMetadata (λ x s. s.1) (explode_all md) (explode_all-IsStripped md))
