-- ===== src/Storage/Clickhouse/Query.antt =====
-- query.go: the SQL texts with their positional arguments. A time is a number of nanoseconds since
-- 1970, of any size.
use telemetry.Base.{Option, none, some, List, [], ◌∷◌, ◌++◌, map, flat_map, if◌then◌else◌}
use telemetry.Base.Int.{ℤ, pos, negsuc, ltb_ℤ, leb_ℤ}
use telemetry.Base.Text.{Text, lit}
use telemetry.Storage.Matchers.{
  MatchOperator, match_equal, match_not_equal, match_regexp, match_not_regexp, other, LabelMatcher,
  LineFilterOperator, line_contains, line_not_contains, line_matches_regexp, line_not_match_regexp,
  other_line, LineFilter,
}
use telemetry.Storage.Labels.{LabelKind, label_column, label_attribute, resolve}

pub record TimeRange : Type 0 where
  pub start : ℤ
  pub end : ℤ

pub data Direction : Type 0 where
  backward forward : Direction

pub record LogQuery : Type 0 where
  pub matchers : List LabelMatcher
  pub filters : List LineFilter
  pub range : TimeRange
  pub limit : ℤ
  pub direction : Direction

pub data Arg : Type 0 where
  string : Text → Arg
  int : ℤ → Arg

-- A statement and what is bound to its ?s, in order.
abbrev pub Sql : Type 0
Sql = Text × List Arg

-- 1900-01-01T00:00:00Z and 2262-04-11T23:47:16Z.
abbrev pub min_timestamp : ℤ
min_timestamp = negsuc 2208988799999999999

abbrev pub max_timestamp : ℤ
max_timestamp = pos 9223372036000000000

unfoldable pub unix_nano : ℤ → ℤ
unix_nano t =
    if ltb_ℤ t min_timestamp
    then min_timestamp
    else if ltb_ℤ max_timestamp t
    then max_timestamp
    else t

abbrev pub range_sql : Text
range_sql =
    lit
      "ProjectId = ? AND ObservedTimestamp >= fromUnixTimestamp64Nano(?) AND ObservedTimestamp < fromUnixTimestamp64Nano(?)"

unfoldable pub project_range : Text → TimeRange → Sql
unfolding unix_nano
project_range project tr =
    (range_sql, string project ∷ int (unix_nano tr.start) ∷ int (unix_nano tr.end) ∷ [])

unfoldable pub label_expr_by : Text × LabelKind → Sql
label_expr_by (target, label_column) = (target, [])
label_expr_by (target, label_attribute) = (lit "Labels[?]", string target ∷ [])

unfoldable pub label_expr : Text → Sql
unfolding label_expr_by resolve
label_expr label = label_expr_by (resolve label)

unfoldable pub matcher_fragment_by : MatchOperator → LabelMatcher → Sql → Sql
matcher_fragment_by match_equal m (expr, eargs) = (expr ++ lit " = ?", eargs ++ string m.value ∷ [])
matcher_fragment_by match_not_equal m (expr, eargs) =
    (lit "(" ++ expr ++ lit " != ?)", eargs ++ string m.value ∷ [])
matcher_fragment_by match_regexp m (expr, eargs) =
    (lit "match(" ++ expr ++ lit ", ?)", eargs ++ string m.regexp.source ∷ [])
matcher_fragment_by match_not_regexp m (expr, eargs) =
    (lit "NOT match(" ++ expr ++ lit ", ?)", eargs ++ string m.regexp.source ∷ [])
matcher_fragment_by other m (expr, eargs) = (lit "1 = 1", eargs)

unfoldable pub matcher_fragment : LabelMatcher → Sql
unfolding matcher_fragment_by
matcher_fragment m = matcher_fragment_by m.operator m (label_expr m.label)

unfoldable pub line_filter_fragment_by : LineFilterOperator → LineFilter → Sql
line_filter_fragment_by line_contains f = (lit "position(Body, ?) > 0", string f.value ∷ [])
line_filter_fragment_by line_not_contains f = (lit "position(Body, ?) = 0", string f.value ∷ [])
line_filter_fragment_by line_matches_regexp f = (lit "match(Body, ?)", string f.regexp.source ∷ [])
line_filter_fragment_by line_not_match_regexp f =
    (lit "NOT match(Body, ?)", string f.regexp.source ∷ [])
line_filter_fragment_by other_line f = (lit "1 = 1", [])

unfoldable pub line_filter_fragment : LineFilter → Sql
unfolding line_filter_fragment_by
line_filter_fragment f = line_filter_fragment_by f.operator f

-- One turn of `where += " AND " + cond; args = append(args, margs...)`.
abbrev pub and_also : Sql → Sql → Sql
and_also (where_sql, args) (cond, cargs) = (where_sql ++ lit " AND " ++ cond, args ++ cargs)

unfoldable pub conjoin : Sql → List Sql → Sql
conjoin sql [] = sql
conjoin sql (cond ∷ conds) = conjoin (and_also sql cond) conds

abbrev pub logs_select : Text
logs_select =
    lit
      "ObservedTimestamp, Body, ServiceName, SeverityText, TraceId, mapKeys(Labels), mapValues(Labels)"

unfoldable pub where_clause : Text → LogQuery → Sql
where_clause project q =
    conjoin (conjoin (project_range project q.range) (map matcher_fragment q.matchers))
      (map line_filter_fragment q.filters)

abbrev pub order_of : Direction → Text
order_of backward = lit "DESC"
order_of forward = lit "ASC"

unfoldable pub logs_statement : Text → LogQuery → Sql
logs_statement project q =
    let (where_sql, args) = where_clause project q in
    (
      lit "SELECT "
          ++ (logs_select
              ++ (lit " FROM logs WHERE "
                  ++ (where_sql
                      ++ (lit " ORDER BY ObservedTimestamp "
                          ++ (order_of q.direction ++ lit " LIMIT ?"))))),
      args ++ int q.limit ∷ [],
    )

-- none for ErrInvalidLimit.
unfoldable pub build_logs_query : Text → LogQuery → Option Sql
build_logs_query project q = if leb_ℤ q.limit (pos 0) then none else some (logs_statement project q)

abbrev pub names_select : Text
names_select =
    lit
      "SELECT name FROM (SELECT arrayJoin(arrayDistinct(mapKeys(Labels))) AS name, countEqual(mapKeys(Labels), name) > 1 AS collided FROM logs WHERE "

unfoldable pub build_label_names_query : Text → TimeRange → Sql
build_label_names_query project tr =
    let (cond, args) = project_range project tr in
    (names_select ++ (cond ++ lit ") GROUP BY name HAVING max(collided) = 0"), args)

unfoldable pub build_label_values_query : Text → Text → TimeRange → Sql
build_label_values_query project label tr =
    let (expr, eargs) = label_expr label in
    let (where_sql, wargs) = project_range project tr in
    (lit "SELECT DISTINCT " ++ (expr ++ (lit " FROM logs WHERE " ++ where_sql)), eargs ++ wargs)

pub record Slot : Type 0 where
  pub label : Text
  pub kind : LabelKind
  pub target : Text

abbrev pub series_allowlist : List Slot
series_allowlist =
    record { label = lit "service_name"; kind = label_column; target = lit "ServiceName" }
    ∷ record { label = lit "severity"; kind = label_column; target = lit "SeverityText" }
    ∷ record { label = lit "resource_name"; kind = label_attribute; target = lit "resource_name" }
    ∷ []

unfoldable pub series_expr : Slot → Sql
unfolding label_expr_by
series_expr slot = label_expr_by (slot.target, slot.kind)

-- `strings.Join(exprs, ", ")`
unfoldable pub join_commas : List Text → Text
join_commas [] = []
join_commas (x ∷ []) = x
join_commas (x ∷ y ∷ xs) = x ++ (lit ", " ++ join_commas (y ∷ xs))

unfoldable pub build_series_query : Text → List LabelMatcher → TimeRange → Sql
build_series_query project matchers tr =
    let exprs = join_commas (map (λ slot. (series_expr slot).0) series_allowlist) in
    let slot_args = flat_map (λ slot. (series_expr slot).1) series_allowlist in
    let (where_sql, wargs) = conjoin (project_range project tr) (map matcher_fragment matchers) in
    (
      lit "SELECT "
          ++ (exprs ++ (lit " FROM logs WHERE " ++ (where_sql ++ (lit " GROUP BY " ++ exprs)))),
      slot_args ++ (wargs ++ slot_args),
    )
