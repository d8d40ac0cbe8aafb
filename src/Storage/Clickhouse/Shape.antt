-- ===== src/Storage/Clickhouse/Shape.antt =====
-- No value reaches the text of a statement; and the clamped bounds of the window.
use telemetry.Base.{◌≡◌, refl, sym, ap, ◌∙◌, Option, none, some, List, [], ◌∷◌, map, arith, ◌↔◌}
use telemetry.Base.Int.{ℤ, ◌≤ℤ◌, ◌<ℤ◌}
use telemetry.Base.Text.{Text}
use telemetry.Storage.Matchers.{
  MatchOperator, match_equal, match_not_equal, match_regexp, match_not_regexp, other, LabelMatcher,
  LineFilterOperator, line_contains, line_not_contains, line_matches_regexp, line_not_match_regexp,
  other_line, LineFilter,
}
use telemetry.Storage.Labels.{column}
use telemetry.Storage.Clickhouse.Query.{
  TimeRange, Arg, int, LogQuery, Sql, min_timestamp, max_timestamp, unix_nano, project_range,
  label_expr, matcher_fragment_by, matcher_fragment, line_filter_fragment_by, line_filter_fragment,
  and_also, conjoin, where_clause, logs_statement, build_logs_query,
}
use telemetry.Storage.Clickhouse.Bindings.{label_expr-column, label_expr-attribute}

label_expr_text_by :
    (a b : Text) (o : Option Text)
    → column a ≡ o
    → column b ≡ o
    → (label_expr a).0 ≡ (label_expr b).0
label_expr_text_by a b none p q = rw (label_expr-attribute a p, label_expr-attribute b q)
label_expr_text_by a b (some col) p q = rw (label_expr-column a col p, label_expr-column b col q)

-- What of a matcher shows in the text: its operator, and its column if it has one.
abbrev pub SameForm : LabelMatcher → LabelMatcher → Type 0
SameForm m n = (m.operator ≡ n.operator) × (column m.label ≡ column n.label)

fragment_by_text :
    (op : MatchOperator) (m n : LabelMatcher) (e f : Sql)
    → e.0 ≡ f.0
    → (matcher_fragment_by op m e).0 ≡ (matcher_fragment_by op n f).0
unfolding matcher_fragment_by
fragment_by_text match_equal m n e f h = rw h
fragment_by_text match_not_equal m n e f h = rw h
fragment_by_text match_regexp m n e f h = rw h
fragment_by_text match_not_regexp m n e f h = rw h
fragment_by_text other m n e f h = refl

fragment_text :
    (m n : LabelMatcher) → SameForm m n → (matcher_fragment m).0 ≡ (matcher_fragment n).0
unfolding matcher_fragment
fragment_text m n h =
    fragment_by_text m.operator m n (label_expr m.label) (label_expr n.label)
      (label_expr_text_by m.label n.label (column n.label) h.1 refl)
    ∙ ap (λ op. (matcher_fragment_by op n (label_expr n.label)).0) h.0

abbrev pub SameForms : List LabelMatcher → List LabelMatcher → Type 0
SameForms [] [] = Unit
SameForms (m ∷ ms) (n ∷ ns) = SameForm m n × SameForms ms ns
SameForms _ _ = ⊥

abbrev texts : List Sql → List Text
texts = map (λ sql. sql.0)

fragments_text :
    (ms ns : List LabelMatcher)
    → SameForms ms ns
    → texts (map matcher_fragment ms) ≡ texts (map matcher_fragment ns)
fragments_text [] [] h = refl
fragments_text [] (n ∷ ns) h = absurd h
fragments_text (m ∷ ms) [] h = absurd h
fragments_text (m ∷ ms) (n ∷ ns) h = cc (fragment_text m n h.0, fragments_text ms ns h.1)

filter_by_text :
    (op : LineFilterOperator) (f g : LineFilter)
    → (line_filter_fragment_by op f).0 ≡ (line_filter_fragment_by op g).0
unfolding line_filter_fragment_by
filter_by_text line_contains f g = refl
filter_by_text line_not_contains f g = refl
filter_by_text line_matches_regexp f g = refl
filter_by_text line_not_match_regexp f g = refl
filter_by_text other_line f g = refl

abbrev pub SameOperators : List LineFilter → List LineFilter → Type 0
SameOperators [] [] = Unit
SameOperators (f ∷ fs) (g ∷ gs) = (f.operator ≡ g.operator) × SameOperators fs gs
SameOperators _ _ = ⊥

filters_text :
    (fs gs : List LineFilter)
    → SameOperators fs gs
    → texts (map line_filter_fragment fs) ≡ texts (map line_filter_fragment gs)
unfolding line_filter_fragment
filters_text [] [] h = refl
filters_text [] (g ∷ gs) h = absurd h
filters_text (f ∷ fs) [] h = absurd h
filters_text (f ∷ fs) (g ∷ gs) h = cc (
  filter_by_text f.operator f g,
  ap (λ op. (line_filter_fragment_by op g).0) h.0,
  filters_text fs gs h.1,
)

conjoin_text :
    (cs ds : List Sql) (a b : Sql)
    → a.0 ≡ b.0
    → texts cs ≡ texts ds
    → (conjoin a cs).0 ≡ (conjoin b ds).0
unfolding conjoin
conjoin_text [] [] a b h k = h
conjoin_text [] (d ∷ ds) a b h k = absurd (cc)
conjoin_text (c ∷ cs) [] a b h k = absurd (cc)
conjoin_text (c ∷ cs) (d ∷ ds) a b h k =
    let heads : c.0 ≡ d.0 = cc in
    conjoin_text cs ds (and_also a c) (and_also b d) (rw (h, heads)) (cc)

-- Two queries that ask for the same columns by the same operators in the same order.
pub record SameShape (q r : LogQuery) : Type 0 where
  pub matchers : SameForms q.matchers r.matchers
  pub filters : SameOperators q.filters r.filters
  pub direction : q.direction ≡ r.direction

where_text :
    (p p' : Text) (q r : LogQuery) → SameShape q r → (where_clause p q).0 ≡ (where_clause p' r).0
unfolding where_clause
where_text p p' q r h =
    conjoin_text _ _ _ _
      (conjoin_text (map matcher_fragment q.matchers) (map matcher_fragment r.matchers)
        (project_range p q.range) (project_range p' r.range) (unfold project_range in refl)
        (fragments_text q.matchers r.matchers h.matchers))
      (filters_text q.filters r.filters h.filters)

statement_text :
    (p p' : Text) (q r : LogQuery)
    → SameShape q r
    → (logs_statement p q).0 ≡ (logs_statement p' r).0
unfolding logs_statement
statement_text p p' q r h = rw (where_text p p' q r h, h.direction)

-- The text of a log query is fixed by the operators, the promoted columns among the labels, and the
-- direction: two such queries have the same text whatever their projects, label names, values,
-- patterns, windows and limits are.
pub build_logs_query-SameShape :
    (p p' : Text) (q r : LogQuery) (s t : Sql)
    → SameShape q r
    → build_logs_query p q ≡ some s
    → build_logs_query p' r ≡ some t
    → s.0 ≡ t.0
unfolding build_logs_query
build_logs_query-SameShape p p' q r s t same h k =
    let e : logs_statement p q ≡ s = ground arith in
    let f : logs_statement p' r ≡ t = ground arith in
    ap (λ sql. sql.0) (sym e) ∙ statement_text p p' q r same ∙ ap (λ sql. sql.0) f

-- Clamping the bounds changes nothing for a stored time strictly before the latest one.
pub unix_nano_window :
    (bound ts : ℤ)
    → min_timestamp ≤ℤ ts
    → ts <ℤ max_timestamp
    → ((unix_nano bound ≤ℤ ts) ↔ (bound ≤ℤ ts)) × ((ts <ℤ unix_nano bound) ↔ (ts <ℤ bound))
unfolding unix_nano
unix_nano_window bound ts lo hi = ground arith

-- The rows of the window that a client asks for.
abbrev pub IsAskedFor : TimeRange → ℤ → Type 0
IsAskedFor range ts = (range.start ≤ℤ ts) × (ts <ℤ range.end)

-- What ObservedTimestamp >= ? AND ObservedTimestamp < ? selects, by the arguments behind the project.
abbrev pub IsSelected : List Arg → ℤ → Type 0
IsSelected (project ∷ int from ∷ int to ∷ args) ts = (from ≤ℤ ts) × (ts <ℤ to)
IsSelected args ts = ⊥
