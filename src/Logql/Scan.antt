-- ===== src/Logql/Scan.antt =====
-- The scanners of parser.go. The functions of strconv that they call are a parameter.
use telemetry.Base.{
  ℕ, Bool, true, false, not, ◌&&◌, ◌||◌, ◌==◌, leb, Option, none, some, List, [], ◌∷◌, ◌++◌, length,
  drop, if◌then◌else◌,
}
use telemetry.Base.Text.{Text, lit, text_eq, cut_prefix, has_prefix}
use telemetry.Storage.Matchers.{
  MatchOperator, match_equal, match_not_equal, match_regexp, match_not_regexp, LineFilterOperator,
  line_contains, line_not_contains, line_matches_regexp, line_not_match_regexp,
}
use telemetry.Logql.Spaces.{trim_space}

-- The messages of the parser, each with the text that it quotes; `out_of_fuel` is the model's own.
pub data ParseError : Type 0 where
  empty_query not_a_selector unterminated_selector unclosed_selector no_matcher range_vector
        out_of_fuel :
      ParseError
  no_label no_match_operator no_filter_operator unterminated_string invalid_string invalid_regexp
        trailing_text unsupported :
      Text → ParseError

pub data Parsed {ℓ} (A : Type ℓ) : Type ℓ where
  ok : A → Parsed A
  err : ParseError → Parsed A

infixl 5 ◌>>=◌
abbrev pub ◌>>=◌ {ℓ κ} : {A : Type ℓ} {B : Type κ} → Parsed A → (A → Parsed B) → Parsed B
ok a >>= f = f a
err e >>= f = err e

-- strconv.QuotedPrefix and strconv.Unquote; none for an error.
pub record Literals : Type 0 where
  pub quoted_prefix : Text → Option Text
  pub unquote : Text → Option Text

-- The text up to the closing brace, and what follows it.
abbrev pub with_byte : ℕ → Parsed (Text × Text) → Parsed (Text × Text)
with_byte c (ok (body, rest)) = ok (c ∷ body, rest)
with_byte c (err e) = err e

-- Outside quotes, inside, or inside with the next byte to be skipped.
pub data Mode : Type 0 where
  outside inside skipping : Mode

abbrev pub after_inside : ℕ → Mode
after_inside c = if c == b'\\' then skipping else if c == b'"' then outside else inside

abbrev no_brace : Mode → ParseError
no_brace outside = unclosed_selector
no_brace _ = unterminated_selector

unfoldable pub closing_brace : Mode → Text → Parsed (Text × Text)
closing_brace m [] = err (no_brace m)
closing_brace skipping (c ∷ s) = with_byte c (closing_brace inside s)
closing_brace inside (c ∷ s) = with_byte c (closing_brace (after_inside c) s)
closing_brace outside (c ∷ s) =
    let more = with_byte c (closing_brace (if c == b'"' then inside else outside) s) in
    if c == b'}' then ok ([], s) else more

abbrev pub is_label_start : ℕ → Bool
is_label_start c = c == b'_' || (leb b'a' c && leb c b'z' || leb b'A' c && leb c b'Z')

-- The test at index 0, and at a later one.
abbrev pub is_label_byte : Bool → ℕ → Bool
is_label_byte first c = is_label_start c || not first && (leb b'0' c && leb c b'9')

abbrev and_byte : ℕ → Text × Text → Text × Text
and_byte c (label, rest) = (c ∷ label, rest)

unfoldable pub span_label : Bool → Text → Text × Text
span_label first [] = ([], [])
span_label first (c ∷ s) =
    let more = and_byte c (span_label false s) in
    if is_label_byte first c then more else ([], c ∷ s)

abbrev pub some_label : Text → Text × Text → Parsed (Text × Text)
some_label s ([], rest) = err (no_label s)
some_label s (c ∷ label, rest) = ok (c ∷ label, rest)

unfoldable pub scan_ident : Text → Parsed (Text × Text)
unfolding span_label
scan_ident s = some_label s (span_label true s)

-- The first operator of the list that the text starts with, and what follows it.
unfoldable pub first_operator : {O : Type 0} → List (Text × O) → Text → Option (O × Text)
first_operator [] s = none
first_operator ((text, op) ∷ ops) s =
    let later = first_operator ops s in
    elim (cut_prefix s text) [ some rest ↦ some (op, rest) | none ↦ later ]

abbrev pub match_operators : List (Text × MatchOperator)
match_operators =
    (lit "=~", match_regexp)
    ∷ (lit "!~", match_not_regexp)
    ∷ (lit "!=", match_not_equal)
    ∷ (lit "=", match_equal)
    ∷ []

abbrev pub filter_operators : List (Text × LineFilterOperator)
filter_operators =
    (lit "|=", line_contains)
    ∷ (lit "|~", line_matches_regexp)
    ∷ (lit "!=", line_not_contains)
    ∷ (lit "!~", line_not_match_regexp)
    ∷ []

abbrev pub or_error : {A : Type 0} → ParseError → Option A → Parsed A
or_error e none = err e
or_error e (some a) = ok a

unfoldable pub scan_match_op : Text → Parsed (MatchOperator × Text)
unfolding first_operator
scan_match_op s = or_error (no_match_operator s) (first_operator match_operators s)

unfoldable pub scan_filter_op : Text → Parsed (LineFilterOperator × Text)
unfolding first_operator
scan_filter_op s = or_error (no_filter_operator s) (first_operator filter_operators s)

abbrev pub unsupported_names : List Text
unsupported_names =
    lit "json"
    ∷ lit "logfmt"
    ∷ lit "pattern"
    ∷ lit "regexp"
    ∷ lit "unpack"
    ∷ lit "line_format"
    ∷ lit "label_format"
    ∷ lit "unwrap"
    ∷ lit "drop"
    ∷ lit "keep"
    ∷ lit "decolorize"
    ∷ []

-- The first of the names that the text has as its first word.
unfoldable pub unsupported_in : List Text → Text → Option Text
unsupported_in [] tail = none
unsupported_in (name ∷ names) tail =
    let later = unsupported_in names tail in
    if text_eq tail name || (has_prefix tail (name ++ lit " ") || has_prefix tail (name ++ lit "="))
    then some name
    else later

abbrev pub named : Option Text → Option ParseError
named none = none
named (some name) = some (unsupported name)

-- none for nil.
unfoldable pub reject_unsupported : Text → Option ParseError
unfolding unsupported_in
reject_unsupported [] = none
reject_unsupported (c ∷ s) =
    if c == b'['
    then some range_vector
    else if c == b'|'
    then named (unsupported_in unsupported_names (trim_space s))
    else none

-- What follows the literal in the text, behind its value.
abbrev pub valued : Text → Text → Option Text → Parsed (Text × Text)
valued s quoted none = err (invalid_string quoted)
valued s quoted (some value) = ok (value, drop (length quoted) s)

module _ (strconv : Literals) where
  abbrev pub unquoted : Text → Option Text → Parsed (Text × Text)
  unquoted s none = err (unterminated_string s)
  unquoted s (some quoted) = valued s quoted (strconv.unquote quoted)

  unfoldable pub scan_string : Text → Parsed (Text × Text)
  scan_string s = unquoted s (strconv.quoted_prefix s)
