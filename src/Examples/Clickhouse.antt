-- ===== src/Examples/Clickhouse.antt =====
-- The ClickHouse store: a query with a matcher and a filter, and a driver that answers from a list.
use telemetry.Base.{
  ℕ, ◌≡◌, refl, ◌⊎◌, inl, inr, true, not, ◌&&◌, ◌||◌, none, some, List, [], ◌∷◌, map, All,
  if◌then◌else◌,
}
use telemetry.Base.Int.{pos}
use telemetry.Base.Text.{Text, lit}
use telemetry.Base.Assoc.{lookup, contains}
use telemetry.Base.Sort.{IsIncreasing}
use telemetry.Storage.Matchers.{Regexp, match_equal, LabelMatcher, line_contains, LineFilter}
use telemetry.Storage.Clickhouse.Query.{
  TimeRange, backward, LogQuery, Sql, logs_statement, build_logs_query,
}
use telemetry.Storage.Clickhouse.Bindings.{IsBound, build_logs_query-IsBound}
use telemetry.Storage.Clickhouse.Shape.{build_logs_query-SameShape}
use telemetry.Storage.Clickhouse.Rows.{
  is_empty, is_internal, assemble_labels, column_value, first_value, or_value,
  lookup-assemble_labels,
}
use telemetry.Storage.Clickhouse.Store.{
  Rows, no_project, fixed_schema_labels, query_logs, label_names, label_values, series,
}
use telemetry.Storage.Clickhouse.Store.Answers.{IsTenanted, store-IsTenanted, label_names-Brings}

abbrev anything : Regexp
anything = record { source = []; match_string = λ s. true }

abbrev equals : Text → LabelMatcher
equals value = record {
  label = lit "k8s_pod";
  operator = match_equal;
  value = value;
  regexp = anything;
}

abbrev holds : Text → LineFilter
holds value = record { operator = line_contains; value = value; regexp = anything }

abbrev range : TimeRange
range = record { start = pos 5; end = pos 9 }

abbrev asking : Text → Text → LogQuery
asking value part = record {
  matchers = equals value ∷ [];
  filters = holds part ∷ [];
  range = range;
  limit = pos 100;
  direction = backward;
}

build_logs_query-IsBound_example :
    IsBound (logs_statement (lit "p") (asking (lit "?' OR 1") (lit "x")))
unfolding build_logs_query
build_logs_query-IsBound_example =
    build_logs_query-IsBound (lit "p") (asking (lit "?' OR 1") (lit "x")) _ ((λ e. cc), tt) refl

build_logs_query-SameShape_example :
    (logs_statement (lit "p") (asking (lit "a") (lit "x"))).0
    ≡ (logs_statement (lit "q") (asking (lit "?' OR 1") (lit "y"))).0
unfolding build_logs_query
build_logs_query-SameShape_example =
    build_logs_query-SameShape (lit "p") (lit "q") (asking (lit "a") (lit "x"))
      (asking (lit "?' OR 1") (lit "y")) _ _
      (record { matchers = ((refl, refl), tt); filters = (refl, tt); direction = refl }) refl refl

-- A window that ends one nanosecond after the latest time, and a row at that time.
abbrev to_the_end : TimeRange
to_the_end = record { start = pos 0; end = pos 9223372036000000001 }

-- A label twice in the arrays, first without a value.
abbrev keys : List Text
keys = lit "pod" ∷ lit "pod" ∷ lit "severity" ∷ []

abbrev values : List Text
values = [] ∷ lit "b" ∷ lit "shadowed" ∷ []

lookup-assemble_labels_example :
    lookup (lit "pod") (assemble_labels [] (lit "INFO") [] keys values)
    ≡ or_value
        (column_value (lit "pod") [] (lit "INFO") [])
        (if is_internal (lit "pod") then none else first_value (lit "pod") keys values)
lookup-assemble_labels_example = lookup-assemble_labels (lit "pod") [] (lit "INFO") [] keys values

-- Every result set is empty, or has these names.
abbrev nothing : {A : Type 0} → Text → Sql → Rows A ℕ ⊎ ℕ
nothing id sql = inl (record { items = []; err = none; close = none })

abbrev found : List Text
found = lit "pod" ∷ lit "severity" ∷ []

abbrev name_rows : Rows Text ℕ
name_rows = record { items = map inl found; err = none; close = none }

store-IsTenanted_example :
    (All (IsTenanted (lit "p")) (query_logs nothing (some (lit "p")) (asking [] [])).1
      × All (IsTenanted (lit "p")) (label_names nothing (some (lit "p")) range).1
      × All (IsTenanted (lit "p")) (label_values nothing (some (lit "p")) (lit "pod") range).1
      × All (IsTenanted (lit "p")) (series nothing (some (lit "p")) (equals [] ∷ []) range).1)
    × (query_logs {Error = ℕ} nothing none (asking [] []) ≡ (inr no_project, []))
    × (label_names {Error = ℕ} nothing none range ≡ (inr no_project, []))
    × (label_values {Error = ℕ} nothing none (lit "pod") range ≡ (inr no_project, []))
    × (series {Error = ℕ} nothing none (equals [] ∷ []) range ≡ (inr no_project, []))
store-IsTenanted_example =
    store-IsTenanted nothing nothing nothing (lit "p") (lit "pod") (asking [] []) range
      (equals [] ∷ [])

label_names-Brings_example :
    (names : List Text) × ((label_names (λ id sql. inl name_rows) (some (lit "p")) range).0
      ≡ inl names)
    × IsIncreasing names
    × ((n : Text)
        → contains names n ≡ (
            (not (is_internal n) && (not (is_empty n) && contains found n))
            || contains fixed_schema_labels n))
label_names-Brings_example =
    label_names-Brings (λ id sql. inl name_rows) (lit "p") range name_rows found refl
      (record { items = refl; err = refl; close = refl })
