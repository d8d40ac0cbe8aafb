-- ===== src/Unbatch.antt =====
-- processor/unbatchprocessor/processor.go: one record, span or data point for each output payload.
-- The pdata containers are slices of slices; what they hold (resources, scopes, records, data
-- points) is opaque to the processor, which copies it, and is a type parameter here.
pub mod Records
pub mod Metrics
pub mod Consume
use telemetry.Base.{ℕ, zero, suc, ◌+◌, Bool, List, [], ◌∷◌, ◌++◌, map, length, flat_map}
use telemetry.Base.Text.{Text}

-- ScopeLogs and ScopeSpans; with a metric for the record, ScopeMetrics.
pub record ScopeGroup (Scope Item : Type 0) : Type 0 where
  pub scope : Scope
  pub schema_url : Text
  pub items : List Item

-- ResourceLogs, ResourceSpans and ResourceMetrics.
pub record ResourceGroup (Resource Scope Item : Type 0) : Type 0 where
  pub resource : Resource
  pub schema_url : Text
  pub scopes : List (ScopeGroup Scope Item)

abbrev pub Payload : Type 0 → Type 0 → Type 0 → Type 0
Payload Resource Scope Item = List (ResourceGroup Resource Scope Item)

module _ {Resource Scope Item : Type 0} where
  -- The payload of one item, below copies of its resource and its scope.
  abbrev pub single :
      ResourceGroup Resource Scope Item → ScopeGroup Scope Item → Item → Payload Resource Scope Item
  single rl sl item =
      record {
        resource = rl.resource;
        schema_url = rl.schema_url;
        scopes = record { scope = sl.scope; schema_url = sl.schema_url; items = item ∷ [] } ∷ [];
      }
      ∷ []

  -- LogRecordCount and SpanCount.
  unfoldable pub item_count : Payload Resource Scope Item → ℕ
  item_count ld = length (flat_map (λ rl. flat_map (λ sl. sl.items) rl.scopes) ld)

  -- The triple loop over resources, scopes and records.
  abbrev pub split_all : Payload Resource Scope Item → List (Payload Resource Scope Item)
  split_all ld = flat_map (λ rl. flat_map (λ sl. map (single rl sl) sl.items) rl.scopes) ld

  by_count : ℕ → Payload Resource Scope Item → List (Payload Resource Scope Item)
  by_count zero ld = []
  by_count (suc zero) ld = ld ∷ []
  by_count (suc (suc n)) ld = split_all ld

  unfoldable pub split_logs : Payload Resource Scope Item → List (Payload Resource Scope Item)
  unfolding by_count item_count
  split_logs ld = by_count (item_count ld) ld

  -- `splitTraces` is the same loop over spans.
  unfoldable pub split_traces : Payload Resource Scope Item → List (Payload Resource Scope Item)
  unfolding by_count item_count
  split_traces td = by_count (item_count td) td
