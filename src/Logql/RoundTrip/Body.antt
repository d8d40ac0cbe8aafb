-- ===== src/Logql/RoundTrip/Body.antt =====
-- The text between the braces of a rendered selector.
use telemetry.Base.{
  ◌≤◌, ◌≡◌, ◌≢◌, refl, sym, ap, ◌∙◌, subst, Bool, true, false, Option, List, [], ◌∷◌, ◌++◌, length,
  length-append, arith, inl, inr, All,
}
use telemetry.Base.Text.{Text, lit, join}
use telemetry.Storage.Matchers.{Regexp, other}
use telemetry.Logql.Spaces.{trim_space, EndsPlain, trim_space-plain}
use telemetry.Logql.Scan.{ok, Literals, outside, closing_brace}
use telemetry.Logql.Parser.{all_matchers}
use telemetry.Logql.Selector.{Matcher}
use telemetry.Logql.Quoting.{
  Quoting, IsOpen, Passes, append-Passes, open-Passes, quote-Passes, prepend-ok,
}
use telemetry.Logql.RoundTrip.Matchers.{
  is_label, operator_of, IsMatcher, read_matchers, operated, op_cases,
}
use telemetry.Logql.RoundTrip.Joined.{
  joined, more, joined-first, joined-EndsPlain, joined-starts, label-starts, parse_matchers-joined,
}

label-IsOpen : (first : Bool) (label : Text) → is_label first label ≡ true → All IsOpen label
unfolding is_label
label-IsOpen first [] h = tt
label-IsOpen first (c ∷ label) h =
    ((ground arith, ground arith), label-IsOpen false label (ground arith))

op-IsOpen : (op : Text) → operator_of op ≢ other → All IsOpen op
unfolding lit
op-IsOpen op h = elim (op_cases op h) [
  | inl (inl e) ↦ subst (All IsOpen) (sym e) (ground arith)
  | inl (inr e) ↦ subst (All IsOpen) (sym e) (ground arith)
  | inr (inl e) ↦ subst (All IsOpen) (sym e) (ground arith)
  | inr (inr e) ↦ subst (All IsOpen) (sym e) (ground arith)
]

module _ (strconv : Literals) (compile : Text → Option Regexp) (quote : Text → Text)
    (q : Quoting strconv quote) where
  more-Passes : (ms : List Matcher) → Passes (joined quote ms) → Passes (more quote ms)
  more-Passes [] h = λ rest. refl
  more-Passes (m ∷ ms) h =
      append-Passes (b',' ∷ b' ' ∷ []) _ (open-Passes (b',' ∷ b' ' ∷ []) (ground arith)) h

  joined-Passes : (ms : List Matcher) → All IsMatcher ms → Passes (joined quote ms)
  unfolding join
  joined-Passes [] h = λ rest. refl
  joined-Passes (m ∷ ms) (h, hs) = subst Passes (sym (joined-first strconv compile quote q m ms)) (
      append-Passes m.label _ (open-Passes m.label (label-IsOpen true m.label h.label)) (
        append-Passes m.op _ (open-Passes m.op (op-IsOpen m.op h.op)) (
          append-Passes (quote m.value) _ (quote-Passes strconv quote q m.value)
            (more-Passes ms (joined-Passes ms hs)))))

  length-more :
      (ms : List Matcher)
      → length ms ≤ length (joined quote ms)
      → length ms ≤ length (more quote ms)
  length-more [] h = omega arith
  length-more (m ∷ ms) h = omega arith

  length-joined : (ms : List Matcher) → All IsMatcher ms → length ms ≤ length (joined quote ms)
  length-joined [] h = omega arith
  length-joined (m ∷ ms) (h, hs) =
      let (c, t, e, k) = label-starts m.label h.label in
      omega (
        arith,
        ap length e,
        ap length (joined-first strconv compile quote q m ms),
        length-append m.label (operated quote m (more quote ms)),
        length-append m.op (quote m.value ++ more quote ms),
        length-append (quote m.value) (more quote ms),
        length-more ms (length-joined ms hs),
      )

  pub all_matchers-joined :
      (m : Matcher) (ms : List Matcher)
      → All IsMatcher (m ∷ ms)
      → all_matchers strconv compile (joined quote (m ∷ ms))
        ≡ read_matchers strconv compile (m ∷ ms)
  all_matchers-joined m ms h =
      let (c, t, e, k) = joined-starts strconv compile quote q m ms h.0 in
      let trimmed =
        subst (λ s. trim_space s ≡ s) (sym e)
          (trim_space-plain c t k
            (subst EndsPlain e (joined-EndsPlain strconv compile quote q m ms))) in
      rw trimmed (
        parse_matchers-joined strconv compile quote q _ (m ∷ ms) h
          (omega (arith, length-joined (m ∷ ms) h)))

  pub closing_brace-joined :
      (ms : List Matcher) (rest : Text)
      → All IsMatcher ms
      → closing_brace outside (joined quote ms ++ b'}' ∷ rest) ≡ ok (joined quote ms, rest)
  unfolding closing_brace
  closing_brace-joined ms rest h = joined-Passes ms h (b'}' ∷ rest) ∙ prepend-ok _ rest
