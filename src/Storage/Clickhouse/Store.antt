-- ===== src/Storage/Clickhouse/Store.antt =====
-- clickhouse.go: the store's methods. A method returns what it answers and the statements that it
-- sent, each with the setting telemetry_project_id that it was sent under.
pub mod Answers
use telemetry.Base.{
  ◌≡◌, ◌⊎◌, inl, inr, Bool, true, false, not, ◌&&◌, Option, none, some, List, [], ◌∷◌, ◌++◌,
  if◌then◌else◌,
}
use telemetry.Base.Text.{Text, lit, text_eq}
use telemetry.Base.Assoc.{contains, insert}
use telemetry.Base.Sort.{sort, dedupe}
use telemetry.Storage.Matchers.{LabelMatcher}
use telemetry.Storage.Clickhouse.Query.{
  TimeRange, LogQuery, Sql, build_logs_query, build_label_names_query, build_label_values_query,
  build_series_query,
}
use telemetry.Storage.Clickhouse.Rows.{
  LabelSet, Scanned, RowIterator, is_empty, without_internal_attributes,
}

pub record Call : Type 0 where
  pub setting : Text
  pub sql : Sql

-- A result set: each row with a failing scan or its values, the error behind the rows, and the error
-- of closing it.
pub record Rows (A Error : Type 0) : Type 0 where
  pub items : List (A ⊎ Error)
  pub err : Option Error
  pub close : Option Error

pub data StoreError (Error : Type 0) : Type 0 where
  no_project invalid_limit : StoreError Error
  -- the errors that the driver gave, joined: at least one
  driver : List Error → StoreError Error

abbrev pub Answer : Type 0 → Type 0 → Type 0
Answer A Error = (A ⊎ StoreError Error) × List Call

abbrev pub errors : {Error : Type 0} → Option Error → List Error
errors none = []
errors (some e) = e ∷ []

-- `errors.Join(err, rows.Close())` behind a result: nil only if both are.
abbrev pub joined : {A Error : Type 0} → A → List Error → A ⊎ StoreError Error
joined value [] = inl value
joined value (e ∷ es) = inr (driver (e ∷ es))

module _ {A B Error : Type 0} where
  -- Reads the rows up to a failing scan; `step` is the loop's body.
  unfoldable pub drain : (B → A → B) → B → Rows A Error → List (A ⊎ Error) → B ⊎ StoreError Error
  drain step out rows [] = joined out (errors rows.err ++ errors rows.close)
  drain step out rows (inr e ∷ items) = joined out (e ∷ errors rows.close)
  drain step out rows (inl a ∷ items) = drain step (step out a) rows items

  -- The answer from a query that may fail.
  abbrev pub from_rows : (B → A → B) → B → Rows A Error ⊎ Error → B ⊎ StoreError Error
  from_rows step out (inr e) = inr (driver (e ∷ []))
  from_rows step out (inl rows) = drain step out rows rows.items

  abbrev pub and_then : (A → B) → A ⊎ StoreError Error → B ⊎ StoreError Error
  and_then f (inl a) = inl (f a)
  and_then f (inr e) = inr e

-- The loop's body of scanStrings; `seen` holds what `out` holds.
unfoldable pub keep_new : List Text → Text → List Text
keep_new out v = if not (is_empty v) && not (contains out v) then out ++ v ∷ [] else out

unfoldable pub scan_strings :
    {Error : Type 0} → Rows Text Error ⊎ Error → List Text ⊎ StoreError Error
scan_strings rows = and_then sort (from_rows keep_new [] rows)

unfoldable pub non_empty : List Text → List Text
non_empty [] = []
non_empty (v ∷ values) = let out = non_empty values in if is_empty v then out else v ∷ out

abbrev pub fixed_schema_labels : List Text
fixed_schema_labels = lit "service_name" ∷ lit "severity" ∷ []

-- A series row: one text for each slot of the allowlist.
pub record SeriesRow : Type 0 where
  pub service_name : Text
  pub severity : Text
  pub resource_name : Text

abbrev put : Text → Text → LabelSet → LabelSet
put label value ls = if is_empty value then ls else insert label value ls

series_labels : SeriesRow → LabelSet
series_labels r =
    put (lit "resource_name") r.resource_name
      (put (lit "severity") r.severity (put (lit "service_name") r.service_name []))

module _ {Error : Type 0} where
  -- `project`: the context's project, or ErrNoProject; then one statement under its setting.
  abbrev within : {A : Type 0} → Option Text → (Text → Answer A Error) → Answer A Error
  within none f = (inr no_project, [])
  within (some id) f = f id

  abbrev opened : Rows Scanned Error ⊎ Error → RowIterator Error ⊎ StoreError Error
  opened (inr e) = inr (driver (e ∷ []))
  opened (inl rows) =
      inl (record { rows = rows.items; rows_err = rows.err; row = none; err = none })

  abbrev send :
      Text
      → Option Sql
      → (Text → Sql → Rows Scanned Error ⊎ Error)
      → Answer (RowIterator Error) Error
  send id none conn = (inr invalid_limit, [])
  send id (some sql) conn = (opened (conn id sql), record { setting = id; sql = sql } ∷ [])

  unfoldable pub query_logs :
      (Text → Sql → Rows Scanned Error ⊎ Error)
      → Option Text
      → LogQuery
      → Answer (RowIterator Error) Error
  query_logs conn project q = within project λ id. send id (build_logs_query id q) conn

  unfoldable pub label_names :
      (Text → Sql → Rows Text Error ⊎ Error) → Option Text → TimeRange → Answer (List Text) Error
  label_names conn project tr = within project λ id.
      let sql = build_label_names_query id tr in
      (
        and_then (λ names. dedupe (sort (without_internal_attributes names ++ fixed_schema_labels)))
            (scan_strings (conn id sql)),
        record { setting = id; sql = sql } ∷ [],
      )

  unfoldable pub label_values :
      (Text → Sql → Rows Text Error ⊎ Error)
      → Option Text
      → Text
      → TimeRange
      → Answer (List Text) Error
  label_values conn project label tr = within project λ id.
      let sql = build_label_values_query id label tr in
      (and_then non_empty (scan_strings (conn id sql)), record { setting = id; sql = sql } ∷ [])

  unfoldable pub series :
      (Text → Sql → Rows SeriesRow Error ⊎ Error)
      → Option Text
      → List LabelMatcher
      → TimeRange
      → Answer (List LabelSet) Error
  unfolding drain series_labels
  series conn project matchers tr = within project λ id.
      let sql = build_series_query id matchers tr in
      (
        from_rows (λ out r. out ++ series_labels r ∷ []) [] (conn id sql),
        record { setting = id; sql = sql } ∷ [],
      )
