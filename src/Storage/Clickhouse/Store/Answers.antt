-- ===== src/Storage/Clickhouse/Store/Answers.antt =====
-- What the store sends and what it answers.
use mathlib.Core.List.{foldl}
use telemetry.Base.{
  ◌≡◌, refl, ap, ◌∙◌, ◌⊎◌, inl, inr, not, ◌&&◌, ◌||◌, Option, none, some, List, [], ◌∷◌, ◌++◌, map,
  All, arith,
}
use telemetry.Base.Text.{Text, text_eq, text_eq_iff}
use telemetry.Base.Assoc.{contains, contains-append}
use telemetry.Base.Sort.{
  sort, dedupe, contains-sort, contains-dedupe, IsIncreasing, dedupe-sort-IsIncreasing,
}
use telemetry.Storage.Matchers.{LabelMatcher}
use telemetry.Storage.Clickhouse.Query.{
  TimeRange, LogQuery, Sql, build_logs_query, build_label_names_query,
}
use telemetry.Storage.Clickhouse.Tenancy.{
  IsScoped, build_logs_query-IsScoped, build_label_names_query-IsScoped,
  build_label_values_query-IsScoped, build_series_query-IsScoped,
}
use telemetry.Storage.Clickhouse.Rows.{Scanned, is_empty, is_internal, without_internal_attributes}
use telemetry.Storage.Clickhouse.Store.{
  Call, Rows, no_project, drain, keep_new, scan_strings, fixed_schema_labels, SeriesRow, query_logs,
  label_names, label_values, series, and_then,
}

-- A call that carries `id` in its setting and in its scope.
pub record IsTenanted (id : Text) (c : Call) : Type 0 where
  pub setting : c.setting ≡ id
  pub scoped : IsScoped id c.sql

module _ {Error : Type 0} where
  query_logs-IsTenanted :
      (conn : Text → Sql → Rows Scanned Error ⊎ Error) (id : Text) (q : LogQuery)
      → All (IsTenanted id) (query_logs conn (some id) q).1
  unfolding query_logs
  query_logs-IsTenanted conn id q = go (build_logs_query id q) refl
    where
      go :
          (o : Option Sql)
          → build_logs_query id q ≡ o
          → All (IsTenanted id) (query_logs conn (some id) q).1
      go none e = rw e tt
      go (some sql) e =
          rw e (record { setting = refl; scoped = build_logs_query-IsScoped id q sql e }, tt)

  -- Every statement that a method of the store sends carries the context's project, both in the
  -- setting telemetry_project_id and bound to the ? of its condition on ProjectId. Without a project
  -- the methods send nothing and answer ErrNoProject.
  pub store-IsTenanted :
      (logs : Text → Sql → Rows Scanned Error ⊎ Error)
      (strings : Text → Sql → Rows Text Error ⊎ Error)
      (rows : Text → Sql → Rows SeriesRow Error ⊎ Error) (id label : Text) (q : LogQuery)
      (tr : TimeRange) (ms : List LabelMatcher)
      → (All (IsTenanted id) (query_logs logs (some id) q).1
          × All (IsTenanted id) (label_names strings (some id) tr).1
          × All (IsTenanted id) (label_values strings (some id) label tr).1
          × All (IsTenanted id) (series rows (some id) ms tr).1)
        × (query_logs logs none q ≡ (inr no_project, []))
        × (label_names strings none tr ≡ (inr no_project, []))
        × (label_values strings none label tr ≡ (inr no_project, []))
        × (series rows none ms tr ≡ (inr no_project, []))
  unfolding query_logs label_names label_values series
  store-IsTenanted logs strings rows id label q tr ms = (
    (
      query_logs-IsTenanted logs id q,
      (record { setting = refl; scoped = build_label_names_query-IsScoped id tr }, tt),
      (record { setting = refl; scoped = build_label_values_query-IsScoped id label tr }, tt),
      (record { setting = refl; scoped = build_series_query-IsScoped id ms tr }, tt),
    ),
    refl,
    refl,
    refl,
    refl,
  )

-- Rows that come through whole, with these values.
pub record Brings {A Error : Type 0} (values : List A) (rows : Rows A Error) : Type 0 where
  pub items : rows.items ≡ map inl values
  pub err : rows.err ≡ none
  pub close : rows.close ≡ none

module _ {A B Error : Type 0} (step : B → A → B) (rows : Rows A Error) where
  drain-values :
      (values : List A) (out : B)
      → rows.err ≡ none
      → rows.close ≡ none
      → drain step out rows (map inl values) ≡ inl (foldl step out values)
  unfolding drain
  drain-values [] out h k = rw (h, k)
  drain-values (v ∷ values) out h k = drain-values values (step out v) h k

  -- A loop over rows that succeeds met no error in any row, behind the rows or at the closing.
  pub drain-inl :
      (items : List (A ⊎ Error)) (out b : B)
      → drain step out rows items ≡ inl b
      → (values : List A) × (items ≡ map inl values)
        × (rows.err ≡ none)
        × (rows.close ≡ none)
        × (b ≡ foldl step out values)
  unfolding drain
  drain-inl [] out b h = ([], refl, ground arith, ground arith, ground arith)
  drain-inl (inr e ∷ items) out b h = absurd (cc)
  drain-inl (inl a ∷ items) out b h =
      let (values, e, err, close, sum) = drain-inl items (step out a) b h in
      (a ∷ values, cc, err, close, sum)

contains-keep_new :
    (out : List Text) (v n : Text)
    → contains (keep_new out v) n ≡ (contains out n || (not (is_empty v) && text_eq v n))
unfolding keep_new contains
contains-keep_new out v n = ground (arith, contains-append out (v ∷ []) n, text_eq_iff v n)

contains-keep :
    (values out : List Text) (n : Text)
    → contains (foldl keep_new out values) n
      ≡ (contains out n || (not (is_empty n) && contains values n))
unfolding contains
contains-keep [] out n = ground arith
contains-keep (v ∷ values) out n =
    ground
      (arith, contains-keep values (keep_new out v) n, contains-keep_new out v n, text_eq_iff v n)

contains-without_internal :
    (names : List Text) (n : Text)
    → contains (without_internal_attributes names) n ≡ (not (is_internal n) && contains names n)
unfolding without_internal_attributes contains
contains-without_internal [] n = ground arith
contains-without_internal (x ∷ names) n =
    ground (arith, contains-without_internal names n, text_eq_iff x n)

contains-scan :
    (values : List Text) (n : Text)
    → contains (sort (foldl keep_new [] values)) n ≡ (not (is_empty n) && contains values n)
unfolding contains
contains-scan values n =
    ground (arith, contains-sort (foldl keep_new [] values) n, contains-keep values [] n)

-- What LabelNames answers for these values.
abbrev names_of : List Text → List Text
names_of values =
    dedupe
      (sort (without_internal_attributes (sort (foldl keep_new [] values)) ++ fixed_schema_labels))

contains-names_of :
    (values : List Text) (n : Text)
    → contains (names_of values) n ≡ (
        (not (is_internal n) && (not (is_empty n) && contains values n))
        || contains fixed_schema_labels n)
contains-names_of values n =
    let scanned = sort (foldl keep_new [] values) in
    let all = without_internal_attributes scanned ++ fixed_schema_labels in
    ground (
      arith,
      contains-dedupe (sort all) n,
      contains-sort all n,
      contains-append (without_internal_attributes scanned) fixed_schema_labels n,
      contains-without_internal scanned n,
      contains-scan values n,
    )

module _ {Error : Type 0} (conn : Text → Sql → Rows Text Error ⊎ Error) (id : Text) (tr : TimeRange)
    (rows : Rows Text Error) (values : List Text) where
  scan-Brings :
      (r : Rows Text Error ⊎ Error)
      → r ≡ inl rows
      → Brings values rows
      → scan_strings r ≡ inl (sort (foldl keep_new [] values))
  unfolding scan_strings
  scan-Brings r e b =
      ap scan_strings e
      ∙ ap (λ l. and_then sort (drain keep_new [] rows l)) b.items
      ∙ ap (and_then sort) (drain-values keep_new rows values [] b.err b.close)

  -- From rows that come through whole LabelNames answers the names in increasing order, each once:
  -- service_name and severity always, and else exactly the names of the rows that are neither empty
  -- nor internal.
  pub label_names-Brings :
      conn id (build_label_names_query id tr) ≡ inl rows
      → Brings values rows
      → (names : List Text) × ((label_names conn (some id) tr).0 ≡ inl names)
        × IsIncreasing names
        × ((n : Text)
            → contains names n ≡ (
                (not (is_internal n) && (not (is_empty n) && contains values n))
                || contains fixed_schema_labels n))
  unfolding label_names
  label_names-Brings e b = (
    names_of values,
    ap
        (and_then
          (λ names. dedupe (sort (without_internal_attributes names ++ fixed_schema_labels))))
        (scan-Brings _ e b),
    dedupe-sort-IsIncreasing _,
    contains-names_of values,
  )
