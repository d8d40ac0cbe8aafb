-- ===== src/Storage/Clickhouse/Tenancy.antt =====
-- Every statement is scoped to the project: the ? behind `ProjectId =` is bound to it.
use telemetry.Base.{
  ◌≡◌, refl, some, List, [], ◌∷◌, ◌++◌, map, append_assoc, append-nil, length, length-append, arith,
  subst, flat_map,
}
use telemetry.Base.Text.{Text, lit}
use telemetry.Storage.Matchers.{LabelMatcher}
use telemetry.Storage.Clickhouse.Query.{
  TimeRange, LogQuery, Arg, string, int, Sql, project_range, and_also, conjoin, where_clause,
  logs_statement, build_logs_query, build_label_names_query, build_label_values_query,
  build_series_query, logs_select, names_select, join_commas, series_expr, series_allowlist,
  label_expr_by, matcher_fragment, line_filter_fragment,
}
use telemetry.Storage.Clickhouse.Bindings.{marks, marks-append, label_expr-IsBound}

-- The statement has the condition `ProjectId = ?`, and its ? is bound to the project.
pub record IsScoped (project : Text) (sql : Sql) : Type 0 where
  pub before : Text
  pub after : Text
  pub args_before : List Arg
  pub args_after : List Arg
  pub text : sql.0 ≡ before ++ (lit "ProjectId = ?" ++ after)
  pub args : sql.1 ≡ args_before ++ string project ∷ args_after
  pub position : marks before ≡ length args_before

project_range-IsScoped :
    (project : Text) (tr : TimeRange) → IsScoped project (project_range project tr)
unfolding project_range marks lit
project_range-IsScoped project tr = record {
  before = [];
  after =
      lit
        " AND ObservedTimestamp >= fromUnixTimestamp64Nano(?) AND ObservedTimestamp < fromUnixTimestamp64Nano(?)";
  args_before = [];
  args_after = _;
  text = refl;
  args = refl;
  position = refl;
}

-- What stands before or behind a statement, with its arguments, keeps the scope.
prefix-IsScoped :
    (project p : Text) (p_args : List Arg) (sql : Sql)
    → marks p ≡ length p_args
    → IsScoped project sql
    → IsScoped project (p ++ sql.0, p_args ++ sql.1)
prefix-IsScoped project p p_args sql bound h = record {
  before = p ++ h.before;
  after = h.after;
  args_before = p_args ++ h.args_before;
  args_after = h.args_after;
  text = rw (h.text) (simp append_assoc);
  args = rw (h.args) (simp append_assoc);
  position = omega (arith, marks-append, length-append {0}, bound, h.position);
}

suffix-IsScoped :
    (project s : Text) (s_args : List Arg) (sql : Sql)
    → IsScoped project sql
    → IsScoped project (sql.0 ++ s, sql.1 ++ s_args)
suffix-IsScoped project s s_args sql h = record {
  before = h.before;
  after = h.after ++ s;
  args_before = h.args_before;
  args_after = h.args_after ++ s_args;
  text = rw (h.text) (simp append_assoc);
  args = rw (h.args) (simp append_assoc);
  position = h.position;
}

conjoin-IsScoped :
    (project : Text) (conds : List Sql) (sql : Sql)
    → IsScoped project sql
    → IsScoped project (conjoin sql conds)
unfolding conjoin
conjoin-IsScoped project [] sql h = h
conjoin-IsScoped project (cond ∷ conds) sql h =
    conjoin-IsScoped project conds (and_also sql cond)
      (rw append_assoc (suffix-IsScoped project (lit " AND " ++ cond.0) cond.1 sql h))

unmarked :
    (marks (lit "SELECT ") ≡ 0)
    × (marks logs_select ≡ 0)
    × (marks (lit " FROM logs WHERE ") ≡ 0)
    × (marks (lit "SELECT DISTINCT ") ≡ 0)
    × (marks names_select ≡ 0)
unfolding marks lit
unmarked = (refl, refl, refl, refl, refl)

logs_statement-IsScoped :
    (project : Text) (q : LogQuery) → IsScoped project (logs_statement project q)
unfolding logs_statement where_clause
logs_statement-IsScoped project q = prefix-IsScoped project (lit "SELECT ") [] _ (unmarked.0) (
    prefix-IsScoped project logs_select [] _ (unmarked.1) (
      prefix-IsScoped project (lit " FROM logs WHERE ") [] _ (unmarked.2) (
        suffix-IsScoped project _ (int q.limit ∷ []) _ (
          conjoin-IsScoped project (map line_filter_fragment q.filters) _ (
            conjoin-IsScoped project (map matcher_fragment q.matchers) _
              (project_range-IsScoped project q.range))))))

-- A log query is scoped to its project, whatever its matchers and filters.
pub build_logs_query-IsScoped :
    (project : Text) (q : LogQuery) (sql : Sql)
    → build_logs_query project q ≡ some sql
    → IsScoped project sql
unfolding build_logs_query
build_logs_query-IsScoped project q sql h =
    let e : logs_statement project q ≡ sql = ground arith in
    subst (IsScoped project) e (logs_statement-IsScoped project q)

pub build_label_names_query-IsScoped :
    (project : Text) (tr : TimeRange) → IsScoped project (build_label_names_query project tr)
unfolding build_label_names_query
build_label_names_query-IsScoped project tr =
    prefix-IsScoped project names_select [] _ (unmarked.4) (
      rw (← append-nil (project_range project tr).1)
        (suffix-IsScoped project _ [] _ (project_range-IsScoped project tr)))

pub build_label_values_query-IsScoped :
    (project label : Text) (tr : TimeRange)
    → IsScoped project (build_label_values_query project label tr)
unfolding build_label_values_query
build_label_values_query-IsScoped project label tr =
    prefix-IsScoped project (lit "SELECT DISTINCT ") [] _ (unmarked.3) (
      prefix-IsScoped project _ _ _ (label_expr-IsBound label) (
        prefix-IsScoped project (lit " FROM logs WHERE ") [] _ (unmarked.2)
          (project_range-IsScoped project tr)))

series_exprs_marks :
    marks (join_commas (map (λ slot. (series_expr slot).0) series_allowlist))
    ≡ length (flat_map (λ slot. (series_expr slot).1) series_allowlist)
unfolding marks lit join_commas series_expr label_expr_by
series_exprs_marks = refl

pub build_series_query-IsScoped :
    (project : Text) (matchers : List LabelMatcher) (tr : TimeRange)
    → IsScoped project (build_series_query project matchers tr)
unfolding build_series_query
build_series_query-IsScoped project matchers tr =
    prefix-IsScoped project (lit "SELECT ") [] _ (unmarked.0) (
      prefix-IsScoped project _ _ _ series_exprs_marks (
        prefix-IsScoped project (lit " FROM logs WHERE ") [] _ (unmarked.2) (
          suffix-IsScoped project _ _ _ (
            conjoin-IsScoped project (map matcher_fragment matchers) _
              (project_range-IsScoped project tr)))))
