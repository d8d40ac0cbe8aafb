-- ===== src/Logql/RoundTrip/Matchers.antt =====
-- The matchers of a rendered selector.
use telemetry.Base.{
  ℕ, ◌≡◌, ◌≢◌, refl, sym, ap, subst, Bool, true, false, not, ◌&&◌, Option, List, [], ◌∷◌, ◌++◌,
  arith, if◌then◌else◌, Bool-cases, inl, inr, ◌⊎◌,
}
use telemetry.Base.Text.{Text, lit, text_eq, text_eq_iff, cut_prefix}
use telemetry.Storage.Matchers.{
  Regexp, MatchOperator, match_equal, match_not_equal, match_regexp, match_not_regexp, other,
  LabelMatcher,
}
use telemetry.Logql.Spaces.{trim_space, IsPlain, EndsPlain, trim_space-plain}
use telemetry.Logql.Scan.{
  Parsed, ok, ◌>>=◌, Literals, is_label_byte, span_label, scan_ident, scan_match_op,
}
use telemetry.Logql.Parser.{new_matcher, parse_matcher}
use telemetry.Logql.Selector.{Matcher}
use telemetry.Logql.Quoting.{Quoting}
use telemetry.Logql.RoundTrip.Quoted.{
  append-EndsPlain, quote-starts, trim_space-quote, scan_string-quote,
}

-- The parser's operator for the builder's text.
unfoldable pub operator_of : Text → MatchOperator
operator_of op =
    if text_eq op (lit "=")
    then match_equal
    else if text_eq op (lit "!=")
    then match_not_equal
    else if text_eq op (lit "=~")
    then match_regexp
    else if text_eq op (lit "!~")
    then match_not_regexp
    else other

-- A label name: letters, digits and underscores, not empty and no digit first.
unfoldable pub is_label : Bool → Text → Bool
is_label first [] = not first
is_label first (c ∷ s) = is_label_byte first c && is_label false s

-- A matcher that LogQL can express.
pub record IsMatcher (m : Matcher) : Type 0 where
  pub label : is_label true m.label ≡ true
  pub op : operator_of m.op ≢ other

-- The byte behind a label name: the first of an operator.
abbrev IsOpByte : ℕ → Type 0
IsOpByte c = (c ≡ b'=') ⊎ (c ≡ b'!')

op_byte_ends : (c : ℕ) → IsOpByte c → is_label_byte false c ≡ false
op_byte_ends c (inl e) = ground arith
op_byte_ends c (inr e) = ground arith

span_label-append :
    (first : Bool) (label : Text) (c : ℕ) (s : Text)
    → is_label first label ≡ true
    → IsOpByte c
    → span_label first (label ++ c ∷ s) ≡ (label, c ∷ s)
unfolding span_label is_label
span_label-append true [] c s h k = absurd (cc)
span_label-append false [] c s h k = rw (op_byte_ends c k)
span_label-append first (d ∷ label) c s h k = ground (arith, span_label-append false label c s)

scan_ident-append :
    (label : Text) (c : ℕ) (s : Text)
    → is_label true label ≡ true
    → IsOpByte c
    → scan_ident (label ++ c ∷ s) ≡ ok (label, c ∷ s)
unfolding scan_ident is_label
scan_ident-append [] c s h k = absurd (cc)
scan_ident-append (d ∷ label) c s h k = rw (span_label-append true (d ∷ label) c s h k)

-- The four operators, each before a quote.
pub op_cases :
    (op : Text)
    → operator_of op ≢ other
    → ((op ≡ lit "=") ⊎ (op ≡ lit "!=")) ⊎ ((op ≡ lit "=~") ⊎ (op ≡ lit "!~"))
unfolding operator_of
op_cases op h = elim (Bool-cases (text_eq op (lit "="))) [
  | inl e ↦ inl (inl ((text_eq_iff op _).0 e))
  | inr e ↦ elim (Bool-cases (text_eq op (lit "!="))) [
    | inl f ↦ inl (inr ((text_eq_iff op _).0 f))
    | inr f ↦ elim (Bool-cases (text_eq op (lit "=~"))) [
      | inl g ↦ inr (inl ((text_eq_iff op _).0 g))
      | inr g ↦ elim (Bool-cases (text_eq op (lit "!~"))) [
        | inl k ↦ inr (inr ((text_eq_iff op _).0 k))
        | inr k ↦ absurd (h (rw (e, f, g, k)))
      ]
    ]
  ]
]

abbrev Scans : Text → Type 0
Scans op =
    (r : Text)
    → (scan_match_op (op ++ b'"' ∷ r) ≡ ok (operator_of op, b'"' ∷ r))
      × ((c : ℕ) × (t : Text) × (op ≡ c ∷ t) × IsOpByte c)

equal_read : Scans (lit "=")
unfolding scan_match_op operator_of cut_prefix lit text_eq
equal_read r = (refl, (_, _, refl, inl refl))

not_equal_read : Scans (lit "!=")
unfolding scan_match_op operator_of cut_prefix lit text_eq
not_equal_read r = (refl, (_, _, refl, inr refl))

regexp_read : Scans (lit "=~")
unfolding scan_match_op operator_of cut_prefix lit text_eq
regexp_read r = (refl, (_, _, refl, inl refl))

not_regexp_read : Scans (lit "!~")
unfolding scan_match_op operator_of cut_prefix lit text_eq
not_regexp_read r = (refl, (_, _, refl, inr refl))

scan_match_op-append : (op : Text) → operator_of op ≢ other → Scans op
scan_match_op-append op h = elim (op_cases op h) [
  | inl (inl e) ↦ subst Scans (sym e) equal_read
  | inl (inr e) ↦ subst Scans (sym e) not_equal_read
  | inr (inl e) ↦ subst Scans (sym e) regexp_read
  | inr (inr e) ↦ subst Scans (sym e) not_regexp_read
]

op_byte-IsPlain : (c : ℕ) → IsOpByte c → IsPlain c
op_byte-IsPlain c (inl e) = (omega arith, omega arith)
op_byte-IsPlain c (inr e) = (omega arith, omega arith)

-- What a rendered matcher is read as.
module _ (strconv : Literals) (compile : Text → Option Regexp) where
  unfoldable pub read_matcher : Matcher → Parsed LabelMatcher
  unfolding new_matcher
  read_matcher m = new_matcher strconv compile m.label (operator_of m.op) m.value

  unfoldable pub read_matchers : List Matcher → Parsed (List LabelMatcher)
  unfolding read_matcher
  read_matchers [] = ok []
  read_matchers (m ∷ ms) = read_matcher m >>= λ x. read_matchers ms >>= λ xs. ok (x ∷ xs)

-- A matcher behind its label, and what follows it.
abbrev pub operated : (Text → Text) → Matcher → Text → Text
operated quote m r = m.op ++ (quote m.value ++ r)

module _ (strconv : Literals) (compile : Text → Option Regexp) (quote : Text → Text)
    (q : Quoting strconv quote) where
  -- An operator starts it.
  operated-starts :
      (m : Matcher) (r : Text)
      → IsMatcher m
      → (c : ℕ) × (t : Text) × (operated quote m r ≡ c ∷ t) × IsOpByte c
  operated-starts m r h =
      let (_, (c, t, e, k)) = scan_match_op-append m.op h.op [] in
      (c, _, ap (λ s. s ++ (quote m.value ++ r)) e, k)

  trim_space-operated :
      (m : Matcher) (r : Text)
      → IsMatcher m
      → EndsPlain (quote m.value ++ r)
      → trim_space (operated quote m r) ≡ operated quote m r
  trim_space-operated m r h k =
      let (c, t, e, b) = operated-starts m r h in
      subst (λ s. trim_space s ≡ s) (sym e)
        (trim_space-plain c t (op_byte-IsPlain c b) (subst EndsPlain e (append-EndsPlain m.op _ k)))

  scan_ident-operated :
      (m : Matcher) (r : Text)
      → IsMatcher m
      → scan_ident (m.label ++ operated quote m r) ≡ ok (m.label, operated quote m r)
  scan_ident-operated m r h =
      let (c, t, e, b) = operated-starts m r h in
      subst (λ s. scan_ident (m.label ++ s) ≡ ok (m.label, s)) (sym e)
        (scan_ident-append m.label c t h.label b)

  scan_match_op-operated :
      (m : Matcher) (r : Text)
      → IsMatcher m
      → scan_match_op (operated quote m r) ≡ ok (operator_of m.op, quote m.value ++ r)
  scan_match_op-operated m r h =
      subst (λ s. scan_match_op (m.op ++ s) ≡ ok (operator_of m.op, s))
        (sym (quote-starts strconv quote q m.value r)) (scan_match_op-append m.op h.op _).0

  pub parse_matcher-at :
      (m : Matcher) (r : Text)
      → IsMatcher m
      → EndsPlain (quote m.value ++ r)
      → parse_matcher strconv compile (m.label ++ operated quote m r)
        ≡ (read_matcher strconv compile m >>= λ x. ok (x, trim_space r))
  unfolding parse_matcher read_matcher
  parse_matcher-at m r h k = rw (
    scan_ident-operated m r h,
    trim_space-operated m r h k,
    scan_match_op-operated m r h,
    trim_space-quote strconv quote q m.value r k,
    scan_string-quote strconv quote q m.value r,
  )
