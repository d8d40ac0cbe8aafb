-- ===== src/Examples/Fake.antt =====
-- The fake store over rows whose line is one of two, by their tick.
use telemetry.Base.{◌≡◌, refl, none, [], ◌∷◌, if◌then◌else◌}
use telemetry.Base.Int.{ℤ, pos, quot, rem, ◌-ℤ◌, ◌+ℤ◌, leb_ℤ}
use telemetry.Base.Text.{Text, lit}
use telemetry.Storage.Matchers.{line_contains}
use telemetry.Logql.Parser.{no_regexp}
use telemetry.Storage.Clickhouse.Query.{LogQuery, backward}
use telemetry.Storage.Clickhouse.Rows.{Row}
use telemetry.Storage.Fake.{ceil_div, stepped, read_rows}
use telemetry.Storage.Fake.Ticks.{window_ticks}

tick_row : ℤ → Row
tick_row i = record {
  timestamp = i;
  labels = (lit "severity", lit "INFO") ∷ [];
  line = if leb_ℤ i (pos 2) then lit "early" else lit "late";
}

abbrev late_query : LogQuery
late_query = record {
  matchers = [];
  filters = record { operator = line_contains; value = lit "late"; regexp = no_regexp } ∷ [];
  range = record { start = pos 7; end = pos 61 };
  limit = pos 2;
  direction = backward;
}

window_of_six : window_ticks 10 late_query ≡ pos 6 ∷ pos 5 ∷ pos 4 ∷ pos 3 ∷ pos 2 ∷ pos 1 ∷ []
unfolding window_ticks ceil_div quot ◌-ℤ◌ rem ◌+ℤ◌ stepped
window_of_six = refl

read_rows_zero : read_rows {Error = Text} tick_row (λ i. none) 0 late_query ≡ none
unfolding read_rows
read_rows_zero = refl
