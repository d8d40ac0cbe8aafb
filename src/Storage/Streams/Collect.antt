-- ===== src/Storage/Streams/Collect.antt =====
-- queryapi/loki.go: collectStreams, which groups the rows of an iterator into streams.
pub mod Grouping
use telemetry.Base.{
  ℕ, zero, suc, ◌+◌, ◌≡◌, refl, sym, ap, ◌∙◌, subst, Bool, true, false, ◌||◌, Option, none, some,
  List, [], ◌∷◌, ◌++◌, append_assoc, length, map, if◌then◌else◌, arith, Bool-cases, Option-cases,
  inl, inr,
}
use telemetry.Base.Int.{ℤ}
use telemetry.Base.Text.{Text, text_eq, text_eq_iff, text_eq_refl}
use telemetry.Base.Assoc.{lookup, insert, contains}
use telemetry.Storage.Clickhouse.Rows.{LabelSet, Row}
use telemetry.Storage.Streams.{key}

-- A value is the text of a time and a line.
pub record Stream : Type 0 where
  pub stream : LabelSet
  pub values : List (Text × Text)

pub record Collected : Type 0 where
  pub result : List Stream
  pub by_key : List (Text × ℕ)

abbrev pub push : Text × Text → Stream → Stream
push v s = record s { values = s.values ++ v ∷ [] }

unfoldable pub update_at : {A : Type 0} → ℕ → (A → A) → List A → List A
update_at i f [] = []
update_at zero f (x ∷ xs) = f x ∷ xs
update_at (suc i) f (x ∷ xs) = x ∷ update_at i f xs

module _ (itoa : ℕ → Text) (format_int : ℤ → Text) where
  abbrev pub value_of_row : Row → Text × Text
  value_of_row row = (format_int row.timestamp, row.line)

  abbrev pub opened : Collected → Text → LabelSet → Collected
  opened c k labels = record {
    result = c.result ++ record { stream = labels; values = [] } ∷ [];
    by_key = insert k (length c.result) c.by_key;
  }

  -- The loop's body.
  unfoldable pub collect_row : Collected → Row → Collected
  unfolding key update_at
  collect_row c row =
      let k = key itoa row.labels in
      let v = value_of_row row in
      elim (lookup k c.by_key) [
        | some i ↦ record c { result = update_at i (push v) c.result }
        | none ↦
            let d = opened c k row.labels in
            record d { result = update_at (length c.result) (push v) d.result }
      ]

  unfoldable pub collect_from : Collected → List Row → Collected
  unfolding collect_row
  collect_from c [] = c
  collect_from c (row ∷ rows) = collect_from (collect_row c row) rows

  unfoldable pub collect_streams : List Row → List Stream
  unfolding collect_from
  collect_streams rows = (collect_from (record { result = []; by_key = [] }) rows).result

  -- The values of the first stream with the key.
  unfoldable pub values_of : Text → List Stream → List (Text × Text)
  values_of k [] = []
  values_of k (s ∷ ss) =
      let later = values_of k ss in if text_eq (key itoa s.stream) k then s.values else later

  -- The values of the rows with the key, in their order.
  unfoldable pub values_with : Text → List Row → List (Text × Text)
  values_with k [] = []
  values_with k (row ∷ rows) =
      let later = values_with k rows in
      if text_eq (key itoa row.labels) k then value_of_row row ∷ later else later
