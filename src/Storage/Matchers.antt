-- ===== src/Storage/Matchers.antt =====
-- queryapi/internal/logql/ast.go: label matchers and line filters. A compiled regular expression is
-- its source and its test, which the package regexp gives.
use telemetry.Base.{Bool, true, false, not, [], ◌∷◌}
use telemetry.Base.Text.{Text, text_eq, has_prefix}

pub record Regexp : Type 0 where
  pub source : Text
  pub match_string : Text → Bool

-- `other` stands for any string but the four operators.
pub data MatchOperator : Type 0 where
  match_equal match_not_equal match_regexp match_not_regexp other : MatchOperator

pub record LabelMatcher : Type 0 where
  pub label : Text
  pub operator : MatchOperator
  pub value : Text
  pub regexp : Regexp

matches_by : MatchOperator → LabelMatcher → Text → Bool
matches_by match_equal m value = text_eq value m.value
matches_by match_not_equal m value = not (text_eq value m.value)
matches_by match_regexp m value = m.regexp.match_string value
matches_by match_not_regexp m value = not (m.regexp.match_string value)
matches_by other m value = false

unfoldable pub matches : LabelMatcher → Text → Bool
unfolding matches_by
matches m value = matches_by m.operator m value

pub data LineFilterOperator : Type 0 where
  line_contains line_not_contains line_matches_regexp line_not_match_regexp other_line :
      LineFilterOperator

pub record LineFilter : Type 0 where
  pub operator : LineFilterOperator
  pub value : Text
  pub regexp : Regexp

-- `strings.Contains`.
unfoldable pub contains_text : Text → Text → Bool
contains_text [] p = has_prefix [] p
contains_text (x ∷ s) p =
    let rest = contains_text s p in elim (has_prefix (x ∷ s) p) [ true ↦ true | false ↦ rest ]

line_matches_by : LineFilterOperator → LineFilter → Text → Bool
line_matches_by line_contains f line = contains_text line f.value
line_matches_by line_not_contains f line = not (contains_text line f.value)
line_matches_by line_matches_regexp f line = f.regexp.match_string line
line_matches_by line_not_match_regexp f line = not (f.regexp.match_string line)
line_matches_by other_line f line = false

unfoldable pub line_matches : LineFilter → Text → Bool
unfolding line_matches_by contains_text
line_matches f line = line_matches_by f.operator f line
