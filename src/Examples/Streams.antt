-- ===== src/Examples/Streams.antt =====
-- The same label set in two orders.
use telemetry.Base.{ℕ, zero, suc, ◌≡◌, ◌≢◌, refl, some, List, [], ◌∷◌, length, All, arith}
use telemetry.Base.Int.{pos}
use telemetry.Base.Text.{Text, lit, text_eq, join}
use telemetry.Base.Assoc.{lookup, insert}
use telemetry.Base.Sort.{sort, text_lt}
use telemetry.Storage.Clickhouse.Rows.{LabelSet, Row}
use telemetry.Storage.Streams.{IsMap, pair_text, key}
use telemetry.Storage.Streams.Identity.{key_injective}
use telemetry.Storage.Streams.Collect.{collect_streams, values_of, values_with}
use telemetry.Storage.Streams.Collect.Grouping.{values_of-collect_streams}
use telemetry.Examples.Cli.{ones, ones_injective, unary}

ones_colon : (n : ℕ) → All (λ d. d ≢ b':') (ones n)
unfolding ones
ones_colon zero = tt
ones_colon (suc n) = (λ e. absurd (omega arith), ones_colon n)

abbrev one_way : LabelSet
one_way = (lit "a", lit "1,=") ∷ (lit "b", lit "2") ∷ []

abbrev other_way : LabelSet
other_way = (lit "b", lit "2") ∷ (lit "a", lit "1,=") ∷ []

same_key : key ones one_way ≡ key ones other_way
unfolding key pair_text ones lit join sort text_lt
same_key = refl

one_way-IsMap : IsMap one_way
unfolding IsMap lookup lit text_eq
one_way-IsMap = (refl, (refl, tt))

other_way-IsMap : IsMap other_way
unfolding IsMap lookup lit text_eq
other_way-IsMap = (refl, (refl, tt))

found_a : lookup (lit "a") one_way ≡ some (lit "1,=")
unfolding lookup lit text_eq
found_a = refl

key_injective_example : lookup (lit "a") other_way ≡ some (lit "1,=")
key_injective_example =
    key_injective ones ones_injective ones_colon one_way other_way one_way-IsMap other_way-IsMap
      same_key (lit "a") (lit "1,=") found_a

abbrev row_of : LabelSet → Text → Row
row_of labels text = record { timestamp = pos 1; labels = labels; line = text }

abbrev three_rows : List Row
three_rows = row_of one_way (lit "x") ∷ row_of [] (lit "y") ∷ row_of other_way (lit "z") ∷ []

values_of-collect_streams_example :
    values_of ones unary (key ones one_way) (collect_streams ones unary three_rows)
    ≡ values_with ones unary (key ones one_way) three_rows
values_of-collect_streams_example =
    values_of-collect_streams ones unary three_rows (key ones one_way)

-- The two orders of the labels give one stream.
two_streams : length (collect_streams ones unary three_rows) ≡ 2
unfolding collect_streams key ones unary lit lookup insert text_eq sort text_lt
two_streams = refl
