-- ===== src/Unbatch/Metrics/Points.antt =====
-- What splitting metrics keeps.
use telemetry.Base.{
  ℕ, zero, suc, ◌≡◌, refl, sym, ap, ◌∙◌, Bool, List, [], ◌∷◌, map, length, flat_map, length-append,
  length-map, flat_map-append, append-nil, arith,
}
use mathlib.Core.List.{map-append}
use telemetry.Base.Text.{Text}
use telemetry.Unbatch.{ScopeGroup, ResourceGroup, Payload}
use telemetry.Unbatch.Metrics.{
  MetricData, empty, gauge, sum, histogram, exponential_histogram, summary, Metric, points,
  new_metric_container, explode_metric, data_point_count, explode_all, by_point_count,
  split_metrics,
}

-- A data point by its metric type, with the aggregation temporality and, for sums, monotonicity.
pub data Point (Number Hist Exp Summary : Type 0) : Type 0 where
  gauge_point : Number → Point Number Hist Exp Summary
  sum_point : ℕ → Bool → Number → Point Number Hist Exp Summary
  histogram_point : ℕ → Hist → Point Number Hist Exp Summary
  exponential_point : ℕ → Exp → Point Number Hist Exp Summary
  summary_point : Summary → Point Number Hist Exp Summary

-- A data point under its metric type, with the metric's identity and everything above it.
pub record PointEntry (Resource Scope Number Hist Exp Summary : Type 0) : Type 0 where
  pub resource : Resource
  pub resource_url : Text
  pub scope : Scope
  pub scope_url : Text
  pub name : Text
  pub description : Text
  pub unit : Text
  pub point : Point Number Hist Exp Summary

module _ {Number Hist Exp Summary : Type 0} where
  -- The data points that a metric's data lists, in order.
  abbrev pub listed : MetricData Number Hist Exp Summary → List (Point Number Hist Exp Summary)
  listed empty = []
  listed (gauge dps) = map gauge_point dps
  listed (sum temporality monotonic dps) = map (sum_point temporality monotonic) dps
  listed (histogram temporality dps) = map (histogram_point temporality) dps
  listed (exponential_histogram temporality dps) = map (exponential_point temporality) dps
  listed (summary dps) = map summary_point dps

  listed_singles :
      {A : Type 0} (f : A → MetricData Number Hist Exp Summary)
      (g : A → Point Number Hist Exp Summary) (dps : List A)
      → ((dp : A) → listed (f dp) ≡ g dp ∷ [])
      → flat_map listed (map f dps) ≡ map g dps
  listed_singles f g [] h = refl
  listed_singles f g (dp ∷ dps) h = rw (h dp, listed_singles f g dps h)

  listed-points : (c : MetricData Number Hist Exp Summary) → flat_map listed (points c) ≡ listed c
  unfolding points
  listed-points empty = refl
  listed-points (gauge dps) = listed_singles _ _ dps (λ dp. refl)
  listed-points (sum t m dps) = listed_singles _ _ dps (λ dp. refl)
  listed-points (histogram t dps) = listed_singles _ _ dps (λ dp. refl)
  listed-points (exponential_histogram t dps) = listed_singles _ _ dps (λ dp. refl)
  listed-points (summary dps) = listed_singles _ _ dps (λ dp. refl)

  length-listed : (c : MetricData Number Hist Exp Summary) → length (listed c) ≡ length (points c)
  unfolding points
  length-listed empty = refl
  length-listed (gauge dps) = simp (length-map)
  length-listed (sum t m dps) = simp (length-map)
  length-listed (histogram t dps) = simp (length-map)
  length-listed (exponential_histogram t dps) = simp (length-map)
  length-listed (summary dps) = simp (length-map)

module _ {Resource Scope Number Hist Exp Summary : Type 0} where
  abbrev pub point_entry :
      ResourceGroup Resource Scope (Metric Number Hist Exp Summary)
      → ScopeGroup Scope (Metric Number Hist Exp Summary)
      → Metric Number Hist Exp Summary
      → Point Number Hist Exp Summary
      → PointEntry Resource Scope Number Hist Exp Summary
  point_entry rm sm m point = record {
    resource = rm.resource;
    resource_url = rm.schema_url;
    scope = sm.scope;
    scope_url = sm.schema_url;
    name = m.name;
    description = m.description;
    unit = m.unit;
    point = point;
  }

  abbrev metric_entries :
      ResourceGroup Resource Scope (Metric Number Hist Exp Summary)
      → ScopeGroup Scope (Metric Number Hist Exp Summary)
      → Metric Number Hist Exp Summary
      → List (PointEntry Resource Scope Number Hist Exp Summary)
  metric_entries rm sm m = map (point_entry rm sm m) (listed m.content)

  -- The content of a payload: its data points in order.
  abbrev pub point_entries :
      Payload Resource Scope (Metric Number Hist Exp Summary)
      → List (PointEntry Resource Scope Number Hist Exp Summary)
  point_entries =
      flat_map (λ rm. flat_map (λ sm. flat_map (metric_entries rm sm) sm.items) rm.scopes)

  module _ (rm : ResourceGroup Resource Scope (Metric Number Hist Exp Summary)) where
    module _ (sm : ScopeGroup Scope (Metric Number Hist Exp Summary)) where
      entries_of_container :
          (m : Metric Number Hist Exp Summary) (ps : List (MetricData Number Hist Exp Summary))
          → flat_map point_entries (map (new_metric_container rm sm m) ps)
            ≡ map (point_entry rm sm m) (flat_map listed ps)
      unfolding new_metric_container
      entries_of_container m [] = refl
      entries_of_container m (p ∷ ps) = simp (append-nil, map-append, entries_of_container m ps)

      entries-explode_metric :
          (m : Metric Number Hist Exp Summary)
          → flat_map point_entries (explode_metric rm sm m) ≡ metric_entries rm sm m
      unfolding explode_metric
      entries-explode_metric m =
          entries_of_container m (points m.content)
          ∙ ap (map (point_entry rm sm m)) (listed-points m.content)

      entries_of_metrics :
          (ms : List (Metric Number Hist Exp Summary))
          → flat_map point_entries (flat_map (explode_metric rm sm) ms)
            ≡ flat_map (metric_entries rm sm) ms
      entries_of_metrics [] = refl
      entries_of_metrics (m ∷ ms) =
          simp (flat_map-append, entries-explode_metric, entries_of_metrics ms)

    entries_of_scopes :
        (scopes : List (ScopeGroup Scope (Metric Number Hist Exp Summary)))
        → flat_map point_entries (flat_map (λ sm. flat_map (explode_metric rm sm) sm.items) scopes)
          ≡ flat_map (λ sm. flat_map (metric_entries rm sm) sm.items) scopes
    entries_of_scopes [] = refl
    entries_of_scopes (sm ∷ scopes) =
        simp (flat_map-append, entries_of_metrics, entries_of_scopes scopes)

    length-metrics :
        (sm : ScopeGroup Scope (Metric Number Hist Exp Summary))
        (ms : List (Metric Number Hist Exp Summary))
        → length (flat_map (metric_entries rm sm) ms) ≡ length (flat_map (λ m. points m.content) ms)
    length-metrics sm [] = refl
    length-metrics sm (m ∷ ms) =
        simp (length-append, length-map, length-listed, length-metrics sm ms)

    length-scopes :
        (scopes : List (ScopeGroup Scope (Metric Number Hist Exp Summary)))
        → length (flat_map (λ sm. flat_map (metric_entries rm sm) sm.items) scopes)
          ≡ length (flat_map (λ sm. flat_map (λ m. points m.content) sm.items) scopes)
    length-scopes [] = refl
    length-scopes (sm ∷ scopes) = simp (length-append, length-metrics, length-scopes scopes)

  entries-explode_all :
      (md : Payload Resource Scope (Metric Number Hist Exp Summary))
      → flat_map point_entries (explode_all md) ≡ point_entries md
  entries-explode_all [] = refl
  entries-explode_all (rm ∷ md) = simp (flat_map-append, entries_of_scopes, entries-explode_all md)

  pub length-point_entries :
      (md : Payload Resource Scope (Metric Number Hist Exp Summary))
      → length (point_entries md) ≡ data_point_count md
  unfolding data_point_count
  length-point_entries [] = refl
  length-point_entries (rm ∷ md) = simp (length-append, length-scopes, length-point_entries md)

  no_entries :
      (es : List (PointEntry Resource Scope Number Hist Exp Summary)) → length es ≡ 0 → es ≡ []
  no_entries [] h = refl
  no_entries (e ∷ es) h = absurd (omega arith)

  entries-by_count :
      (n : ℕ) (md : Payload Resource Scope (Metric Number Hist Exp Summary))
      → length (point_entries md) ≡ n
      → flat_map point_entries (by_point_count n md) ≡ point_entries md
  unfolding by_point_count
  entries-by_count zero md h = sym (no_entries (point_entries md) h)
  entries-by_count (suc zero) md h = append-nil (point_entries md)
  entries-by_count (suc (suc n)) md h = entries-explode_all md

  -- Splitting metrics keeps every data point, in order and under its metric type with the
  -- aggregation temporality and monotonicity, together with the metric's name, description and
  -- unit, its resource, its scope and both schema URLs.
  pub entries-split_metrics :
      (md : Payload Resource Scope (Metric Number Hist Exp Summary))
      → flat_map point_entries (split_metrics md) ≡ point_entries md
  unfolding split_metrics
  entries-split_metrics md = entries-by_count (data_point_count md) md (length-point_entries md)
