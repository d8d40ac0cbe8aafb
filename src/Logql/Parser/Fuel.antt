-- ===== src/Logql/Parser/Fuel.antt =====
-- The fuel of the parser's loops always suffices: each round takes at least the label or operator.
use telemetry.Base.{
  ℕ, zero, suc, ◌+◌, ◌≤◌, ◌<◌, ◌≢◌, Bool, true, false, Option, none, some, List, [], ◌∷◌, length,
  arith, Bool-cases, inl, inr, ◌==◌,
}
use telemetry.Base.Text.{Text}
use telemetry.Storage.Matchers.{Regexp, MatchOperator, LabelMatcher, LineFilterOperator}
use telemetry.Logql.Spaces.{trim_space, length-trim_space}
use telemetry.Logql.Scan.{
  ParseError, out_of_fuel, Parsed, ok, err, Literals, outside, closing_brace, scan_ident,
  scan_match_op, scan_filter_op, match_operators, filter_operators, reject_unsupported, unquoted,
  scan_string,
}
use telemetry.Logql.Parser.{
  compiled, regexp_for, is_regexp, is_line_regexp, unless_rejected, new_matcher, new_filter,
  parse_matcher, next_matcher, parse_matchers, parse_filter, parse_filters, parse_trimmed, parse,
  parse_selector, all_matchers, all_filters, and_filters,
}
use telemetry.Logql.Parser.Scans.{
  Within, bind-Within, AtMost, scan_ident-Within, first_operator-Within, full_match, full_filter,
  valued-Within, IsReal, reject_unsupported-IsReal, closing_brace-Within,
}

module _ (strconv : Literals) (compile : Text → Option Regexp) where
  unquoted-Within : (s : Text) (o : Option Text) → Within (unquoted strconv s o) (AtMost (length s))
  unquoted-Within s none = λ p. cc
  unquoted-Within s (some quoted) = valued-Within s quoted (strconv.unquote quoted)

  scan_string-Within : (s : Text) → Within (scan_string strconv s) (AtMost (length s))
  unfolding scan_string
  scan_string-Within s = unquoted-Within s (strconv.quoted_prefix s)

  compiled-Within :
      (value : Text) (o : Option Regexp) → Within (compiled strconv compile value o) (λ _. Unit)
  compiled-Within value none = λ p. cc
  compiled-Within value (some re) = tt

  regexp_for-Within :
      (b : Bool) (value pattern : Text)
      → Within (regexp_for strconv compile b value pattern) (λ _. Unit)
  regexp_for-Within false value pattern = tt
  regexp_for-Within true value pattern = compiled-Within value (compile pattern)

  new_matcher-Within :
      (label : Text) (op : MatchOperator) (value : Text)
      → Within (new_matcher strconv compile label op value) (λ m. Unit)
  unfolding new_matcher
  new_matcher-Within label op value =
      bind-Within (regexp_for strconv compile (is_regexp op) value _) _ _ _
        (regexp_for-Within _ value _) λ re h. tt

  new_filter-Within :
      (op : LineFilterOperator) (value : Text)
      → Within (new_filter strconv compile op value) (λ f. Unit)
  unfolding new_filter
  new_filter-Within op value =
      bind-Within (regexp_for strconv compile (is_line_regexp op) value _) _ _ _
        (regexp_for-Within _ value _) λ re h. tt

  abbrev Shorter : {A : Type 0} → Text → A × Text → Type 0
  Shorter s (a, rest) = length rest < length s

  unless_rejected-Within :
      {A : Type 0}
      → (o : Option ParseError) (p : Parsed A) (Q : A → Type 0) → IsReal o
      → Within p Q
      → Within (unless_rejected strconv compile o p) Q
  unless_rejected-Within none p Q real h = h
  unless_rejected-Within (some e) p Q real h = real

  parse_matcher-Within : (s : Text) → Within (parse_matcher strconv compile s) (Shorter s)
  unfolding parse_matcher scan_match_op
  parse_matcher-Within s = bind-Within (scan_ident s) _ _ _ (scan_ident-Within s) λ (label, r) h.
      bind-Within (scan_match_op (trim_space r)) _ _ _
        (first_operator-Within match_operators (trim_space r) _ (λ p. cc) full_match)
        λ (op, r') h'.
          bind-Within (scan_string strconv (trim_space r')) _ _ _
            (scan_string-Within (trim_space r'))
            λ (value, r'') h''.
              bind-Within (new_matcher strconv compile label op value) _ _ _
                (new_matcher-Within label op value)
                λ m u.
                  omega (arith, length-trim_space r, length-trim_space r', length-trim_space r'')

  next_matcher-Within :
      (s : Text) → Within (next_matcher strconv compile s) (λ rest. length rest ≤ length s)
  unfolding next_matcher
  next_matcher-Within [] = omega arith
  next_matcher-Within (c ∷ s) = elim (Bool-cases (c == b',')) [
    | inl e ↦ rw (e, next_matcher) (omega (arith, length-trim_space s))
    | inr e ↦ rw (e, next_matcher) λ p. cc
  ]

  parse_matchers-Within :
      (fuel : ℕ) (s : Text)
      → length s < fuel
      → Within (parse_matchers strconv compile fuel s) (λ _. Unit)
  unfolding parse_matchers
  parse_matchers-Within zero s h = absurd (omega arith)
  parse_matchers-Within (suc fuel) [] h = tt
  parse_matchers-Within (suc fuel) (c ∷ s) h =
      bind-Within (parse_matcher strconv compile (c ∷ s)) _ _ _ (parse_matcher-Within (c ∷ s))
        λ (m, after) k.
          bind-Within (next_matcher strconv compile after) _ _ _ (next_matcher-Within after)
            λ rest k'.
              bind-Within (parse_matchers strconv compile fuel rest) _ _ _
                (parse_matchers-Within fuel rest (omega arith)) λ ms u. tt

  parse_filter-Within : (s : Text) → Within (parse_filter strconv compile s) (Shorter s)
  unfolding parse_filter scan_filter_op
  parse_filter-Within s =
      unless_rejected-Within (reject_unsupported s) _ _ (reject_unsupported-IsReal s) (
        bind-Within (scan_filter_op s) _ _ _
          (first_operator-Within filter_operators s _ (λ p. cc) full_filter)
          λ (op, r) h.
            bind-Within (scan_string strconv (trim_space r)) _ _ _
              (scan_string-Within (trim_space r))
              λ (value, r') h'.
                bind-Within (new_filter strconv compile op value) _ _ _ (new_filter-Within op value)
                  λ f u. omega (arith, length-trim_space r, length-trim_space r'))

  parse_filters-Within :
      (fuel : ℕ) (s : Text)
      → length s < fuel
      → Within (parse_filters strconv compile fuel s) (λ _. Unit)
  unfolding parse_filters
  parse_filters-Within zero s h = absurd (omega arith)
  parse_filters-Within (suc fuel) [] h = tt
  parse_filters-Within (suc fuel) (c ∷ s) h =
      bind-Within (parse_filter strconv compile (c ∷ s)) _ _ _ (parse_filter-Within (c ∷ s))
        λ (f, rest) k.
          bind-Within (parse_filters strconv compile fuel rest) _ _ _
            (parse_filters-Within fuel rest (omega arith)) λ fs u. tt

  and_filters-Within :
      (rest : Text) (ms : List LabelMatcher)
      → Within (and_filters strconv compile rest ms) (λ _. Unit)
  and_filters-Within rest [] = λ p. cc
  and_filters-Within rest (m ∷ ms) =
      bind-Within (all_filters strconv compile rest) _ _ _
        (parse_filters-Within (length (trim_space rest) + 1) (trim_space rest) (omega arith))
        λ fs u. tt

  parse_selector-Within : (s : Text) → Within (parse_selector strconv compile s) (λ _. Unit)
  unfolding parse_selector
  parse_selector-Within s =
      bind-Within (closing_brace outside s) _ _ _ (closing_brace-Within outside s) λ (body, rest) u.
        bind-Within (all_matchers strconv compile body) _ _ _
          (parse_matchers-Within (length (trim_space body) + 1) (trim_space body) (omega arith))
          λ ms v. and_filters-Within rest ms

  parse_trimmed-Within : (s : Text) → Within (parse_trimmed strconv compile s) (λ _. Unit)
  unfolding parse_trimmed
  parse_trimmed-Within [] = λ p. cc
  parse_trimmed-Within (c ∷ s) = elim (Bool-cases (c == b'{')) [
    | inl e ↦ rw (e, parse_trimmed) (parse_selector-Within s)
    | inr e ↦ rw (e, parse_trimmed) λ p. cc
  ]

  Within-real : {A : Type 0} → (p : Parsed A) → Within p (λ _. Unit) → p ≢ err out_of_fuel
  Within-real (ok a) h e = cc
  Within-real (err f) h e = h (cc)

  -- Parsing any text ends in a query or in one of the program's errors: the fuel of the loops, one
  -- more than the bytes they are given, never runs out.
  pub parse-ends : (raw : Text) → parse strconv compile raw ≢ err out_of_fuel
  unfolding parse
  parse-ends raw =
      Within-real (parse_trimmed strconv compile (trim_space raw))
        (parse_trimmed-Within (trim_space raw))
