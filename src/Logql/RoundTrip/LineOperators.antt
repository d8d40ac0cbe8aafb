-- ===== src/Logql/RoundTrip/LineOperators.antt =====
-- The operators of the line filters, and how they are scanned in a rendered selector.
use telemetry.Base.{
  ℕ, ◌≡◌, ◌≢◌, refl, sym, ap, ◌∙◌, subst, none, [], ◌∷◌, ◌++◌, arith, if◌then◌else◌, Bool-cases,
  inl, inr, ◌⊎◌,
}
use telemetry.Base.Text.{Text, lit, text_eq, text_eq_iff, cut_prefix, has_prefix}
use telemetry.Storage.Matchers.{
  LineFilterOperator, line_contains, line_not_contains, line_matches_regexp, line_not_match_regexp,
  other_line,
}
use telemetry.Logql.Spaces.{trim_space, IsPlain, EndsPlain, trim_space-plain}
use telemetry.Logql.Scan.{
  ok, scan_filter_op, reject_unsupported, unsupported_in, unsupported_names, named,
}
use telemetry.Logql.Selector.{Filter}
use telemetry.Logql.RoundTrip.Quoted.{append-EndsPlain}

-- The parser's operator for the builder's text.
unfoldable pub line_operator_of : Text → LineFilterOperator
line_operator_of op =
    if text_eq op (lit "|=")
    then line_contains
    else if text_eq op (lit "!=")
    then line_not_contains
    else if text_eq op (lit "|~")
    then line_matches_regexp
    else if text_eq op (lit "!~")
    then line_not_match_regexp
    else other_line

-- A filter that LogQL can express.
abbrev pub IsFilter : Filter → Type 0
IsFilter f = line_operator_of f.op ≢ other_line

line_op_cases :
    (op : Text)
    → line_operator_of op ≢ other_line
    → ((op ≡ lit "|=") ⊎ (op ≡ lit "!=")) ⊎ ((op ≡ lit "|~") ⊎ (op ≡ lit "!~"))
unfolding line_operator_of
line_op_cases op h = elim (Bool-cases (text_eq op (lit "|="))) [
  | inl e ↦ inl (inl ((text_eq_iff op _).0 e))
  | inr e ↦ elim (Bool-cases (text_eq op (lit "!="))) [
    | inl f ↦ inl (inr ((text_eq_iff op _).0 f))
    | inr f ↦ elim (Bool-cases (text_eq op (lit "|~"))) [
      | inl g ↦ inr (inl ((text_eq_iff op _).0 g))
      | inr g ↦ elim (Bool-cases (text_eq op (lit "!~"))) [
        | inl k ↦ inr (inr ((text_eq_iff op _).0 k))
        | inr k ↦ absurd (h (rw (e, f, g, k)))
      ]
    ]
  ]
]

-- How the operator is scanned before a space.
abbrev pub LineScans : Text → Type 0
LineScans op =
    (r : Text)
    → EndsPlain r
    → (scan_filter_op (op ++ b' ' ∷ r) ≡ ok (line_operator_of op, b' ' ∷ r))
      × (reject_unsupported (op ++ b' ' ∷ r) ≡ none)
      × ((c : ℕ) × (d : ℕ) × (op ≡ c ∷ d ∷ []) × IsPlain c)

no_unsupported :
    (c : ℕ) (r : Text)
    → IsPlain c
    → unsupported_in unsupported_names (c ∷ b' ' ∷ r) ≡ none
    → EndsPlain r
    → unsupported_in unsupported_names (trim_space (c ∷ b' ' ∷ r)) ≡ none
no_unsupported c r k e h =
    ap (unsupported_in unsupported_names)
      (trim_space-plain c (b' ' ∷ r) k (append-EndsPlain (c ∷ b' ' ∷ []) r h))
    ∙ e

pipe_equal_read : LineScans (lit "|=")
unfolding scan_filter_op line_operator_of cut_prefix lit text_eq reject_unsupported unsupported_in
    has_prefix
pipe_equal_read r h = (
  refl,
  ap named (no_unsupported b'=' r (omega arith, omega arith) refl h),
  (_, _, refl, (omega arith, omega arith)),
)

bang_equal_read : LineScans (lit "!=")
unfolding scan_filter_op line_operator_of cut_prefix lit text_eq reject_unsupported
bang_equal_read r h = (refl, refl, (_, _, refl, (omega arith, omega arith)))

pipe_tilde_read : LineScans (lit "|~")
unfolding scan_filter_op line_operator_of cut_prefix lit text_eq reject_unsupported unsupported_in
    has_prefix
pipe_tilde_read r h = (
  refl,
  ap named (no_unsupported b'~' r (omega arith, omega arith) refl h),
  (_, _, refl, (omega arith, omega arith)),
)

bang_tilde_read : LineScans (lit "!~")
unfolding scan_filter_op line_operator_of cut_prefix lit text_eq reject_unsupported
bang_tilde_read r h = (refl, refl, (_, _, refl, (omega arith, omega arith)))

pub line_scans : (op : Text) → line_operator_of op ≢ other_line → LineScans op
line_scans op h = elim (line_op_cases op h) [
  | inl (inl e) ↦ subst LineScans (sym e) pipe_equal_read
  | inl (inr e) ↦ subst LineScans (sym e) bang_equal_read
  | inr (inl e) ↦ subst LineScans (sym e) pipe_tilde_read
  | inr (inr e) ↦ subst LineScans (sym e) bang_tilde_read
]
