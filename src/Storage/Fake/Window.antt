-- ===== src/Storage/Fake/Window.antt =====
-- What is read off the fake store, by the times of the ticks and by each matcher and filter.
use telemetry.Base.{Bool, true, ◌&&◌, List, [], ◌∷◌}
use telemetry.Base.Text.{Text}
use telemetry.Base.Assoc.{lookup}
use telemetry.Storage.Matchers.{matches, line_matches}
use telemetry.Storage.Clickhouse.Query.{LogQuery}
use telemetry.Storage.Clickhouse.Rows.{Row}
use telemetry.Storage.Fake.{value_of}

abbrev pub every : {A : Type 0} → (A → Bool) → List A → Bool
every p [] = true
every p (x ∷ xs) = p x && every p xs

-- Every matcher matches the value of its label, and every filter the line.
abbrev pub is_wanted : LogQuery → Row → Bool
is_wanted q row =
    every (λ m. matches m (value_of (lookup m.label row.labels))) q.matchers
    && every (λ f. line_matches f row.line) q.filters
