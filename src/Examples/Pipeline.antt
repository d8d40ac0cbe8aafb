-- ===== src/Examples/Pipeline.antt =====
-- The collector components: unbatchprocessor, natsreceiver and natsexporter.
use telemetry.Base.{ℕ, ◌≡◌, refl, true, Option, none, some, List, [], ◌∷◌, flat_map}
use telemetry.Base.Text.{lit}
use telemetry.Unbatch.{ResourceGroup, Payload, split_logs, split_traces}
use telemetry.Unbatch.Records.{entries, entries-split_logs, entries-split_traces}
use telemetry.Unbatch.Metrics.{Metric, MetricData, gauge, sum, split_metrics}
use telemetry.Unbatch.Metrics.Points.{point_entries, entries-split_metrics}
use telemetry.Unbatch.Consume.{
  Ending, consume_logs, consume_logs-Ending, consume_metrics, consume_metrics-Ending,
}

abbrev pub group : ℕ → List ℕ → ResourceGroup ℕ ℕ ℕ
group r items = record {
  resource = r;
  schema_url = [];
  scopes = record { scope = 7; schema_url = []; items = items } ∷ [];
}

-- Three records below two resources, with an empty group between them.
abbrev pub three : Payload ℕ ℕ ℕ
three = group 1 (10 ∷ 11 ∷ []) ∷ group 2 [] ∷ group 3 (12 ∷ []) ∷ []

split_three :
    split_logs three
    ≡ (group 1 (10 ∷ []) ∷ []) ∷ (group 1 (11 ∷ []) ∷ []) ∷ (group 3 (12 ∷ []) ∷ []) ∷ []
unfolding split_logs
split_three = refl

entries-split_logs_example : flat_map entries (split_logs three) ≡ entries three
entries-split_logs_example = entries-split_logs three

entries-split_traces_example : flat_map entries (split_traces three) ≡ entries three
entries-split_traces_example = entries-split_traces three

abbrev metric : MetricData ℕ ℕ ℕ ℕ → Metric ℕ ℕ ℕ ℕ
metric content = record {
  name = lit "cpu";
  description = [];
  unit = lit "s";
  metadata = (lit "k", lit "v") ∷ [];
  content = content;
}

abbrev points : Payload ℕ ℕ (Metric ℕ ℕ ℕ ℕ)
points =
    record {
      resource = 1;
      schema_url = [];
      scopes =
          record {
            scope = 7;
            schema_url = [];
            items = metric (gauge (1 ∷ [])) ∷ metric (sum 2 true (3 ∷ 4 ∷ [])) ∷ [];
          }
          ∷ [];
    }
    ∷ []

entries-split_metrics_example : flat_map point_entries (split_metrics points) ≡ point_entries points
entries-split_metrics_example = entries-split_metrics points

-- A consumer that accepts one payload and refuses the next.
abbrev second_refused : List (Payload ℕ ℕ ℕ) → Payload ℕ ℕ ℕ → Option ℕ
second_refused [] part = none
second_refused (_ ∷ _) part = some 5

consume_logs-three :
    consume_logs second_refused three
    ≡ ((group 1 (10 ∷ []) ∷ []) ∷ (group 1 (11 ∷ []) ∷ []) ∷ [], some 5)
unfolding consume_logs
consume_logs-three = refl

consume_logs-Ending_example :
    Ending second_refused [] (split_logs three) (consume_logs second_refused three)
consume_logs-Ending_example = consume_logs-Ending second_refused three

abbrev metrics_refused :
    List (Payload ℕ ℕ (Metric ℕ ℕ ℕ ℕ)) → Payload ℕ ℕ (Metric ℕ ℕ ℕ ℕ) → Option ℕ
metrics_refused sent part = some 5

consume_metrics-Ending_example :
    Ending metrics_refused [] (split_metrics points) (consume_metrics metrics_refused points)
consume_metrics-Ending_example = consume_metrics-Ending metrics_refused points
