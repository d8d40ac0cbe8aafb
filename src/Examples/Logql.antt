-- ===== src/Examples/Logql.antt =====
-- A parser and a builder of LogQL with literals that escape only backslashes and quotes.
use telemetry.Base.{
  ℕ, ◌≡◌, ◌≢◌, refl, ap, ◌∙◌, Bool, true, false, ◌||◌, ◌==◌, Option, none, some, [], ◌∷◌, ◌++◌,
  append_assoc, if◌then◌else◌, arith, Bool-cases, inl, inr,
}
use telemetry.Base.Text.{Text, lit, text_eq}
use telemetry.Storage.Matchers.{Regexp}
use telemetry.Logql.Scan.{err, Literals, out_of_fuel}
use telemetry.Logql.Parser.{no_regexp, parse}
use telemetry.Logql.Parser.Fuel.{parse-ends}
use telemetry.Logql.Selector.{Selector, eq, re, contains_line, render}
use telemetry.Logql.Quoting.{is_escaped, Quoting}
use telemetry.Logql.RoundTrip.Matchers.{operator_of, is_label}
use telemetry.Logql.RoundTrip.LineOperators.{line_operator_of}
use telemetry.Logql.RoundTrip.{IsSelector, read, parse-render}

escape : Text → Text
escape [] = []
escape (c ∷ s) = if c == b'\\' || c == b'"' then b'\\' ∷ c ∷ escape s else c ∷ escape s

abbrev quote : Text → Text
quote v = b'"' ∷ (escape v ++ b'"' ∷ [])

-- The bytes of a literal behind the first quote and its value.
abbrev both : ℕ → Text × Text → Text × Text
both c (raw, value) = (c ∷ raw, c ∷ value)

abbrev raw_only : ℕ → Text × Text → Text × Text
raw_only c (raw, value) = (c ∷ raw, value)

abbrev mapped : (Text × Text → Text × Text) → Option (Text × Text) → Option (Text × Text)
mapped f none = none
mapped f (some p) = some (f p)

literal : Bool → Text → Option (Text × Text)
literal skip [] = none
literal true (c ∷ s) = mapped (both c) (literal false s)
literal false (c ∷ s) =
    let skipped = mapped (raw_only c) (literal true s) in
    let kept = mapped (both c) (literal false s) in
    if c == b'\\' then skipped else if c == b'"' then some (c ∷ [], []) else kept

abbrev whole : Option (Text × Text) → Option Text
whole none = none
whole (some (raw, value)) = some (b'"' ∷ raw)

abbrev inner : Option (Text × Text) → Option Text
inner none = none
inner (some (raw, value)) = some value

abbrev of_literal : (Option (Text × Text) → Option Text) → Text → Option Text
of_literal f [] = none
of_literal f (c ∷ s) = if c == b'"' then f (literal false s) else none

abbrev plain_literals : Literals
plain_literals = record { quoted_prefix = of_literal whole; unquote = of_literal inner }

literal-escape :
    (v rest : Text) → literal false (escape v ++ b'"' ∷ rest) ≡ some (escape v ++ b'"' ∷ [], v)
unfolding literal escape
literal-escape [] rest = refl
literal-escape (c ∷ v) rest = elim (Bool-cases (c == b'\\')) [
  | inl e ↦ rw (e, escape, literal) (rw (literal-escape v rest))
  | inr e ↦ elim (Bool-cases (c == b'"')) [
    | inl f ↦ rw (e, f, escape, literal) (rw (literal-escape v rest))
    | inr f ↦ rw (e, f, escape, literal) (rw (e, f, literal-escape v rest))
  ]
]

escape-is_escaped : (v : Text) → is_escaped false (escape v) ≡ true
unfolding escape is_escaped
escape-is_escaped [] = refl
escape-is_escaped (c ∷ v) = ground (arith, escape-is_escaped v)

quoted_prefix-quote :
    (v rest : Text) → plain_literals.quoted_prefix (quote v ++ rest) ≡ some (quote v)
unfolding literal
quoted_prefix-quote v rest =
    ap (λ s. whole (literal false s)) (append_assoc (escape v) (b'"' ∷ []) rest)
    ∙ ap whole (literal-escape v rest)

unquote-quote : (v : Text) → plain_literals.unquote (quote v) ≡ some v
unfolding literal
unquote-quote v = ap inner (literal-escape v [])

plain_quotes : Quoting plain_literals quote
plain_quotes = record {
  body = escape;
  delimited = λ v. refl;
  escaped = escape-is_escaped;
  quoted_prefix-quote = quoted_prefix-quote;
  unquote-quote = unquote-quote;
}

-- No expression that starts with a bracket compiles.
abbrev compile : Text → Option Regexp
compile [] = some no_regexp
compile (c ∷ s) = if c == b'[' then none else some no_regexp

-- {service_name="a\"}b", severity=~"W"} |= "x"
abbrev pods : Selector
pods = record {
  matchers =
      record { label = lit "service_name"; op = lit "="; value = lit "a\"}b" }
      ∷ record { label = lit "severity"; op = lit "=~"; value = lit "W" }
      ∷ [];
  filters = record { op = lit "|="; value = lit "x" } ∷ [];
}

-- What the builder's methods leave.
built :
    contains_line
      (re
        (eq (record { matchers = []; filters = [] }) (lit "service_name") (lit "a\"}b"))
        (lit "severity")
        (lit "W"))
      (lit "x")
    ≡ pods
unfolding contains_line re eq lit
built = refl

pods-IsSelector : IsSelector pods
unfolding operator_of line_operator_of is_label lit text_eq
pods-IsSelector = record {
  some_matcher = λ e. cc;
  matchers = (record { label = refl; op = λ e. cc }, (record { label = refl; op = λ e. cc }, tt));
  filters = (λ e. cc, tt);
}

parse-render_example :
    parse plain_literals compile (render quote pods) ≡ read plain_literals compile pods
parse-render_example = parse-render plain_literals compile quote plain_quotes pods pods-IsSelector

parse-ends_example : parse plain_literals compile (lit "{a=") ≢ err out_of_fuel
parse-ends_example = parse-ends plain_literals compile (lit "{a=")
