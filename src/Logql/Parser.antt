-- ===== src/Logql/Parser.antt =====
-- Parse. A loop has fuel, one more than the bytes that it is given.
pub mod Fuel
mod Scans
use telemetry.Base.{
  ℕ, zero, suc, ◌+◌, ◌≡◌, Bool, true, false, ◌==◌, Option, none, some, List, [], ◌∷◌, ◌++◌, length,
  if◌then◌else◌,
}
use telemetry.Base.Text.{Text, lit}
use telemetry.Storage.Matchers.{
  Regexp, MatchOperator, match_equal, match_not_equal, match_regexp, match_not_regexp, other,
  LabelMatcher, LineFilterOperator, line_contains, line_not_contains, line_matches_regexp,
  line_not_match_regexp, other_line, LineFilter,
}
use telemetry.Logql.Spaces.{trim_space}
use telemetry.Logql.Scan.{
  ParseError, empty_query, not_a_selector, no_matcher, out_of_fuel, invalid_regexp, trailing_text,
  Parsed, ok, err, ◌>>=◌, Literals, outside, closing_brace, scan_ident, scan_match_op,
  scan_filter_op, reject_unsupported, scan_string,
}

-- The nil that Regexp is for the operators that do not read it.
abbrev pub no_regexp : Regexp
no_regexp = record { source = []; match_string = λ s. false }

abbrev pub Query : Type 0
Query = List LabelMatcher × List LineFilter

abbrev pub anchored : Text → Text
anchored value = lit "^(?:" ++ (value ++ lit ")$")

abbrev pub is_regexp : MatchOperator → Bool
is_regexp match_regexp = true
is_regexp match_not_regexp = true
is_regexp _ = false

abbrev pub is_line_regexp : LineFilterOperator → Bool
is_line_regexp line_matches_regexp = true
is_line_regexp line_not_match_regexp = true
is_line_regexp _ = false

module _ (strconv : Literals) (compile : Text → Option Regexp) where
  abbrev pub compiled : Text → Option Regexp → Parsed Regexp
  compiled value none = err (invalid_regexp value)
  compiled value (some re) = ok re

  -- The expression of an operator that reads one.
  abbrev pub regexp_for : Bool → Text → Text → Parsed Regexp
  regexp_for false value pattern = ok no_regexp
  regexp_for true value pattern = compiled value (compile pattern)

  unfoldable pub new_matcher : Text → MatchOperator → Text → Parsed LabelMatcher
  new_matcher label op value = regexp_for (is_regexp op) value (anchored value) >>= λ re.
      ok (record { label = label; operator = op; value = value; regexp = re })

  unfoldable pub new_filter : LineFilterOperator → Text → Parsed LineFilter
  new_filter op value = regexp_for (is_line_regexp op) value value >>= λ re.
      ok (record { operator = op; value = value; regexp = re })

  -- One matcher off the text, and what follows it, trimmed.
  unfoldable pub parse_matcher : Text → Parsed (LabelMatcher × Text)
  unfolding new_matcher
  parse_matcher s = do
    (label, after_label) ← scan_ident s
    (op, after_op) ← scan_match_op (trim_space after_label)
    (value, after_value) ← scan_string strconv (trim_space after_op)
    m ← new_matcher label op value
    ok (m, trim_space after_value)

  -- The text behind a comma, trimmed; the end; or an error.
  unfoldable pub next_matcher : Text → Parsed Text
  next_matcher [] = ok []
  next_matcher (c ∷ s) = if c == b',' then ok (trim_space s) else err (trailing_text (c ∷ s))

  unfoldable pub parse_matchers : ℕ → Text → Parsed (List LabelMatcher)
  unfolding parse_matcher next_matcher
  parse_matchers zero s = err out_of_fuel
  parse_matchers (suc fuel) [] = ok []
  parse_matchers (suc fuel) (c ∷ s) = parse_matcher (c ∷ s) >>= λ (m, after).
      next_matcher after >>= λ rest. parse_matchers fuel rest >>= λ ms. ok (m ∷ ms)

  abbrev pub unless_rejected : {A : Type 0} → Option ParseError → Parsed A → Parsed A
  unless_rejected none p = p
  unless_rejected (some e) p = err e

  unfoldable pub parse_filter : Text → Parsed (LineFilter × Text)
  unfolding new_filter
  parse_filter s = unless_rejected (reject_unsupported s) (
      scan_filter_op s >>= λ (op, after_op).
      scan_string strconv (trim_space after_op) >>= λ (value, after_value).
      new_filter op value >>= λ f. ok (f, trim_space after_value))

  unfoldable pub parse_filters : ℕ → Text → Parsed (List LineFilter)
  unfolding parse_filter
  parse_filters zero s = err out_of_fuel
  parse_filters (suc fuel) [] = ok []
  parse_filters (suc fuel) (c ∷ s) =
      parse_filter (c ∷ s) >>= λ (f, rest). parse_filters fuel rest >>= λ fs. ok (f ∷ fs)

  abbrev pub all_matchers : Text → Parsed (List LabelMatcher)
  all_matchers body = parse_matchers (length (trim_space body) + 1) (trim_space body)

  abbrev pub all_filters : Text → Parsed (List LineFilter)
  all_filters rest = parse_filters (length (trim_space rest) + 1) (trim_space rest)

  abbrev pub and_filters : Text → List LabelMatcher → Parsed Query
  and_filters rest [] = err no_matcher
  and_filters rest (m ∷ ms) = all_filters rest >>= λ fs. ok (m ∷ ms, fs)

  unfoldable pub parse_selector : Text → Parsed Query
  unfolding parse_matchers parse_filters
  parse_selector s =
      closing_brace outside s >>= λ (body, rest). all_matchers body >>= and_filters rest

  unfoldable pub parse_trimmed : Text → Parsed Query
  unfolding parse_selector
  parse_trimmed [] = err empty_query
  parse_trimmed (c ∷ s) = if c == b'{' then parse_selector s else err not_a_selector

  unfoldable pub parse : Text → Parsed Query
  unfolding parse_trimmed
  parse raw = parse_trimmed (trim_space raw)
