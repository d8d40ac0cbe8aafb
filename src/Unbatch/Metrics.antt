-- ===== src/Unbatch/Metrics.antt =====
-- splitMetrics, newMetricContainer and explodeMetric: one data point for each output payload.
-- The five kinds of data points, attributes' metadata included, are opaque type parameters.
pub mod Points
pub mod Singles
use telemetry.Base.{ℕ, zero, suc, Bool, List, [], ◌∷◌, map, length, flat_map}
use telemetry.Base.Text.{Text}
use telemetry.Unbatch.{ScopeGroup, ResourceGroup, Payload, single}

-- A metric's data by its type; `empty` is MetricTypeEmpty.
pub data MetricData (Number Hist Exp Summary : Type 0) : Type 0 where
  empty : MetricData Number Hist Exp Summary
  gauge : List Number → MetricData Number Hist Exp Summary
  sum : ℕ → Bool → List Number → MetricData Number Hist Exp Summary
  histogram : ℕ → List Hist → MetricData Number Hist Exp Summary
  exponential_histogram : ℕ → List Exp → MetricData Number Hist Exp Summary
  summary : List Summary → MetricData Number Hist Exp Summary

pub record Metric (Number Hist Exp Summary : Type 0) : Type 0 where
  pub name : Text
  pub description : Text
  pub unit : Text
  -- pdata's map `Metadata()`, as keys and values.
  pub metadata : List (Text × Text)
  pub content : MetricData Number Hist Exp Summary

module _ {Number Hist Exp Summary : Type 0} where
  -- Each data point under its metric type, with the type's own fields: the loops of the switch.
  unfoldable pub points :
      MetricData Number Hist Exp Summary → List (MetricData Number Hist Exp Summary)
  points empty = []
  points (gauge dps) = map (λ dp. gauge (dp ∷ [])) dps
  points (sum temporality monotonic dps) = map (λ dp. sum temporality monotonic (dp ∷ [])) dps
  points (histogram temporality dps) = map (λ dp. histogram temporality (dp ∷ [])) dps
  points (exponential_histogram temporality dps) =
      map (λ dp. exponential_histogram temporality (dp ∷ [])) dps
  points (summary dps) = map (λ dp. summary (dp ∷ [])) dps

module _ {Resource Scope Number Hist Exp Summary : Type 0} where
  -- The shell has the metric's name, description and unit; its metadata stays empty.
  unfoldable pub new_metric_container :
      ResourceGroup Resource Scope (Metric Number Hist Exp Summary)
      → ScopeGroup Scope (Metric Number Hist Exp Summary)
      → Metric Number Hist Exp Summary
      → MetricData Number Hist Exp Summary
      → Payload Resource Scope (Metric Number Hist Exp Summary)
  new_metric_container rm sm m content = single rm sm (record {
    name = m.name;
    description = m.description;
    unit = m.unit;
    metadata = [];
    content = content;
  })

  unfoldable pub explode_metric :
      ResourceGroup Resource Scope (Metric Number Hist Exp Summary)
      → ScopeGroup Scope (Metric Number Hist Exp Summary)
      → Metric Number Hist Exp Summary
      → List (Payload Resource Scope (Metric Number Hist Exp Summary))
  unfolding points new_metric_container
  explode_metric rm sm m = map (new_metric_container rm sm m) (points m.content)

  -- pdata's DataPointCount.
  unfoldable pub data_point_count : Payload Resource Scope (Metric Number Hist Exp Summary) → ℕ
  unfolding points
  data_point_count md =
      length
        (flat_map (λ rm. flat_map (λ sm. flat_map (λ m. points m.content) sm.items) rm.scopes) md)

  abbrev pub explode_all :
      Payload Resource Scope (Metric Number Hist Exp Summary)
      → List (Payload Resource Scope (Metric Number Hist Exp Summary))
  explode_all md =
      flat_map (λ rm. flat_map (λ sm. flat_map (explode_metric rm sm) sm.items) rm.scopes) md

  by_point_count :
      ℕ
      → Payload Resource Scope (Metric Number Hist Exp Summary)
      → List (Payload Resource Scope (Metric Number Hist Exp Summary))
  by_point_count zero md = []
  by_point_count (suc zero) md = md ∷ []
  by_point_count (suc (suc n)) md = explode_all md

  unfoldable pub split_metrics :
      Payload Resource Scope (Metric Number Hist Exp Summary)
      → List (Payload Resource Scope (Metric Number Hist Exp Summary))
  unfolding by_point_count data_point_count
  split_metrics md = by_point_count (data_point_count md) md
