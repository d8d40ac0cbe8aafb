-- ===== src/Storage/Clickhouse/Bindings.antt =====
-- Every ? of a statement has its argument, and the project's ? is bound to the project.
use telemetry.Base.{
  ℕ, ◌+◌, ◌≡◌, ◌≢◌, refl, inl, inr, subst, none, some, List, [], ◌∷◌, ◌++◌, map, ◌==◌,
  if◌then◌else◌, length, length-append, All, arith, Option-cases,
}
use telemetry.Base.Text.{Text, lit}
use telemetry.Storage.Matchers.{
  match_equal, match_not_equal, match_regexp, match_not_regexp, other, LabelMatcher, MatchOperator,
  LineFilterOperator, line_contains, line_not_contains, line_matches_regexp, line_not_match_regexp,
  other_line, LineFilter,
}
use telemetry.Storage.Labels.{column, sanitize, resolve}
use telemetry.Storage.Clickhouse.Query.{
  TimeRange, Direction, backward, forward, LogQuery, string, Sql, project_range, label_expr,
  label_expr_by, matcher_fragment, matcher_fragment_by, line_filter_fragment,
  line_filter_fragment_by, and_also, conjoin, logs_select, where_clause, order_of, logs_statement,
  build_logs_query,
}

-- The number of ?s.
abbrev mark : ℕ → ℕ
mark c = if c == b'?' then 1 else 0

unfoldable pub marks : Text → ℕ
marks [] = 0
marks (c ∷ s) = mark c + marks s

pub marks-append : (s t : Text) → marks (s ++ t) ≡ marks s + marks t
unfolding marks
marks-append [] t = omega arith
marks-append (c ∷ s) t = omega (arith, marks-append s t)

-- As many ?s as arguments.
abbrev pub IsBound : Sql → Type 0
IsBound (sql, args) = marks sql ≡ length args

project_range-IsBound : (project : Text) (tr : TimeRange) → IsBound (project_range project tr)
unfolding project_range marks lit
project_range-IsBound project tr = refl

marks-column : (label col : Text) → column label ≡ some col → marks col ≡ 0
unfolding column marks lit
marks-column label col h = ground arith

-- The ?s of the fixed texts.
constants :
    (marks (lit "Labels[?]") ≡ 1)
    × (marks (lit " = ?") ≡ 1)
    × (marks (lit "(") ≡ 0)
    × (marks (lit " != ?)") ≡ 1)
    × (marks (lit "match(") ≡ 0)
    × (marks (lit "NOT match(") ≡ 0)
    × (marks (lit ", ?)") ≡ 1)
    × (marks (lit " AND ") ≡ 0)
unfolding marks lit
constants = (refl, refl, refl, refl, refl, refl, refl, refl)

pub label_expr-column : (label col : Text) → column label ≡ some col → label_expr label ≡ (col, [])
unfolding label_expr label_expr_by resolve
label_expr-column label col e = ground arith

pub label_expr-attribute :
    (label : Text)
    → column label ≡ none
    → label_expr label ≡ (lit "Labels[?]", string (sanitize label) ∷ [])
unfolding label_expr label_expr_by resolve
label_expr-attribute label e = ground arith

pub label_expr-IsBound : (label : Text) → IsBound (label_expr label)
label_expr-IsBound label = elim (Option-cases (column label)) [
  | inl e ↦ rw (label_expr-attribute label e) constants.0
  | inr (col, e) ↦ rw (label_expr-column label col e) (marks-column label col e)
]

matcher_fragment_by-IsBound :
    (op : MatchOperator) (m : LabelMatcher) (e : Sql)
    → op ≢ other
    → IsBound e
    → IsBound (matcher_fragment_by op m e)
unfolding matcher_fragment_by
matcher_fragment_by-IsBound match_equal m (expr, eargs) known h =
    let c = constants in omega (arith, marks-append, length-append {0}, h)
matcher_fragment_by-IsBound match_not_equal m (expr, eargs) known h =
    let c = constants in omega (arith, marks-append, length-append {0}, h)
matcher_fragment_by-IsBound match_regexp m (expr, eargs) known h =
    let c = constants in omega (arith, marks-append, length-append {0}, h)
matcher_fragment_by-IsBound match_not_regexp m (expr, eargs) known h =
    let c = constants in omega (arith, marks-append, length-append {0}, h)
matcher_fragment_by-IsBound other m e known h = absurd (known refl)

-- The operator is one of the four that LogQL has.
abbrev pub IsKnown : LabelMatcher → Type 0
IsKnown m = m.operator ≢ other

matcher_fragment-IsBound : (m : LabelMatcher) → IsKnown m → IsBound (matcher_fragment m)
unfolding matcher_fragment
matcher_fragment-IsBound m known =
    matcher_fragment_by-IsBound m.operator m (label_expr m.label) known (label_expr-IsBound m.label)

line_filter_fragment_by-IsBound :
    (op : LineFilterOperator) (f : LineFilter) → IsBound (line_filter_fragment_by op f)
unfolding line_filter_fragment_by marks lit
line_filter_fragment_by-IsBound line_contains f = refl
line_filter_fragment_by-IsBound line_not_contains f = refl
line_filter_fragment_by-IsBound line_matches_regexp f = refl
line_filter_fragment_by-IsBound line_not_match_regexp f = refl
line_filter_fragment_by-IsBound other_line f = refl

conjoin-IsBound :
    (conds : List Sql) (sql : Sql) → IsBound sql → All IsBound conds → IsBound (conjoin sql conds)
unfolding conjoin
conjoin-IsBound [] sql h k = h
conjoin-IsBound ((cond, cargs) ∷ conds) (where_sql, args) h k =
    let c = constants in
    conjoin-IsBound conds (and_also (where_sql, args) (cond, cargs))
      (omega (arith, marks-append, length-append {0}, h, k.0)) k.1

matchers-IsBound : (ms : List LabelMatcher) → All IsKnown ms → All IsBound (map matcher_fragment ms)
matchers-IsBound [] h = tt
matchers-IsBound (m ∷ ms) h = (matcher_fragment-IsBound m h.0, matchers-IsBound ms h.1)

filters-IsBound : (fs : List LineFilter) → All IsBound (map line_filter_fragment fs)
unfolding line_filter_fragment
filters-IsBound [] = tt
filters-IsBound (f ∷ fs) = (line_filter_fragment_by-IsBound f.operator f, filters-IsBound fs)

where_clause-IsBound :
    (project : Text) (q : LogQuery) → All IsKnown q.matchers → IsBound (where_clause project q)
unfolding where_clause
where_clause-IsBound project q h =
    conjoin-IsBound _ _
      (conjoin-IsBound _ _ (project_range-IsBound project q.range) (matchers-IsBound q.matchers h))
      (filters-IsBound q.filters)

mark_constants :
    (marks (lit "SELECT ") ≡ 0)
    × (marks logs_select ≡ 0)
    × (marks (lit " FROM logs WHERE ") ≡ 0)
    × (marks (lit " ORDER BY ObservedTimestamp ") ≡ 0)
    × (marks (lit " LIMIT ?") ≡ 1)
    × (marks (lit "SELECT DISTINCT ") ≡ 0)
    × (marks (lit " GROUP BY ") ≡ 0)
    × (marks (lit ") GROUP BY name HAVING max(collided) = 0") ≡ 0)
unfolding marks lit
mark_constants = (refl, refl, refl, refl, refl, refl, refl, refl)

marks-order_of : (d : Direction) → marks (order_of d) ≡ 0
unfolding marks lit
marks-order_of backward = refl
marks-order_of forward = refl

logs_statement-IsBound :
    (project : Text) (q : LogQuery) → All IsKnown q.matchers → IsBound (logs_statement project q)
unfolding logs_statement
logs_statement-IsBound project q known =
    let c = mark_constants in
    omega (
      arith,
      marks-append,
      length-append {0},
      marks-order_of q.direction,
      where_clause-IsBound project q known,
    )

-- A log query has as many ?s as arguments, whatever its matchers, filters and range, provided that
-- every matcher has one of LogQL's four operators.
pub build_logs_query-IsBound :
    (project : Text) (q : LogQuery) (sql : Sql)
    → All IsKnown q.matchers
    → build_logs_query project q ≡ some sql
    → IsBound sql
unfolding build_logs_query
build_logs_query-IsBound project q sql known h =
    let e : logs_statement project q ≡ sql = ground arith in
    subst IsBound e (logs_statement-IsBound project q known)
