-- ===== src/Logql/RoundTrip/Filters.antt =====
-- The line filters of a rendered selector.
use telemetry.Base.{
  ℕ, zero, suc, ◌≤◌, ◌<◌, ◌≡◌, refl, sym, ap, ◌∙◌, subst, Option, List, [], ◌∷◌, ◌++◌, append_assoc,
  append-nil, length, length-append, arith, All,
}
use telemetry.Base.Text.{Text, lit}
use telemetry.Storage.Matchers.{Regexp, LineFilter}
use telemetry.Logql.Spaces.{trim_space, IsPlain, EndsPlain, trim_space-after_space, trim_space-nil}
use telemetry.Logql.Scan.{Parsed, ok, ◌>>=◌, Literals}
use telemetry.Logql.Parser.{new_filter, parse_filter, parse_filters, all_filters}
use telemetry.Logql.Selector.{Filter, filter_text, filters_text}
use telemetry.Logql.Quoting.{Quoting}
use telemetry.Logql.RoundTrip.Quoted.{
  append-EndsPlain, quote-EndsPlain, trim_space-space_quote, scan_string-quote,
}
use telemetry.Logql.RoundTrip.LineOperators.{line_operator_of, IsFilter, line_scans}
use telemetry.Logql.RoundTrip.Joined.{bind_assoc, bind_cong}

-- What a rendered filter is read as.
module _ (strconv : Literals) (compile : Text → Option Regexp) where
  unfoldable pub read_filter : Filter → Parsed LineFilter
  unfolding new_filter
  read_filter f = new_filter strconv compile (line_operator_of f.op) f.value

  unfoldable pub read_filters : List Filter → Parsed (List LineFilter)
  unfolding read_filter
  read_filters [] = ok []
  read_filters (f ∷ fs) = read_filter f >>= λ x. read_filters fs >>= λ xs. ok (x ∷ xs)

-- The filters behind the first space.
abbrev unspaced : (Text → Text) → List Filter → Text
unspaced quote [] = []
unspaced quote (f ∷ fs) = f.op ++ b' ' ∷ (quote f.value ++ filters_text quote fs)

module _ (strconv : Literals) (compile : Text → Option Regexp) (quote : Text → Text)
    (q : Quoting strconv quote) where
  filters_text-first :
      (f : Filter) (fs : List Filter) → filters_text quote (f ∷ fs) ≡ b' ' ∷ unspaced quote (f ∷ fs)
  unfolding filters_text filter_text lit
  filters_text-first f fs =
      ap (λ s. b' ' ∷ s) (append_assoc f.op (b' ' ∷ quote f.value) (filters_text quote fs))

  value-EndsPlain : (v : Text) (fs : List Filter) → EndsPlain (quote v ++ filters_text quote fs)
  unfolding filters_text
  value-EndsPlain v [] =
      subst EndsPlain (sym (append-nil (quote v))) (quote-EndsPlain strconv quote q v)
  value-EndsPlain v (f ∷ fs) = append-EndsPlain (quote v) _ (
      subst EndsPlain (sym (filters_text-first f fs)) (
        append-EndsPlain (b' ' ∷ []) _
          (append-EndsPlain f.op _ (append-EndsPlain (b' ' ∷ []) _ (value-EndsPlain f.value fs)))))

  unspaced-EndsPlain : (f : Filter) (fs : List Filter) → EndsPlain (unspaced quote (f ∷ fs))
  unspaced-EndsPlain f fs =
      append-EndsPlain f.op _ (append-EndsPlain (b' ' ∷ []) _ (value-EndsPlain f.value fs))

  pub closed-EndsPlain : (fs : List Filter) → EndsPlain (b'}' ∷ filters_text quote fs)
  unfolding filters_text
  closed-EndsPlain [] = ([], b'}', (omega arith, omega arith), refl)
  closed-EndsPlain (f ∷ fs) = append-EndsPlain (b'}' ∷ []) _ (
      subst EndsPlain (sym (filters_text-first f fs))
        (append-EndsPlain (b' ' ∷ []) _ (unspaced-EndsPlain f fs)))

  unspaced-starts :
      (f : Filter) (fs : List Filter)
      → IsFilter f
      → (c : ℕ) × (t : Text) × (unspaced quote (f ∷ fs) ≡ c ∷ t) × IsPlain c
  unspaced-starts f fs h =
      let (_, _, (c, d, e, k)) = line_scans f.op h _ (value-EndsPlain f.value fs) in
      (c, _, ap (λ s. s ++ b' ' ∷ (quote f.value ++ filters_text quote fs)) e, k)

  trim_space-filters :
      (fs : List Filter) → All IsFilter fs → trim_space (filters_text quote fs) ≡ unspaced quote fs
  unfolding filters_text
  trim_space-filters [] h = trim_space-nil
  trim_space-filters (f ∷ fs) (h, hs) =
      let (c, t, e, k) = unspaced-starts f fs h in
      ap trim_space (filters_text-first f fs)
      ∙ subst (λ s. trim_space (b' ' ∷ s) ≡ s) (sym e)
          (trim_space-after_space c t k (subst EndsPlain e (unspaced-EndsPlain f fs)))

  parse_filter-at :
      (f : Filter) (fs : List Filter)
      → IsFilter f
      → All IsFilter fs
      → parse_filter strconv compile (unspaced quote (f ∷ fs))
        ≡ (read_filter strconv compile f >>= λ x. ok (x, unspaced quote fs))
  unfolding parse_filter read_filter
  parse_filter-at f fs h hs =
      let k = value-EndsPlain f.value fs in
      let (scanned, kept, _) = line_scans f.op h _ k in
      rw (
        kept,
        scanned,
        trim_space-space_quote strconv quote q f.value (filters_text quote fs) k,
        scan_string-quote strconv quote q f.value (filters_text quote fs),
        trim_space-filters fs hs,
      )

  parse_filters-nonempty :
      (fuel : ℕ) (c : ℕ) (t s : Text)
      → s ≡ c ∷ t
      → parse_filters strconv compile (suc fuel) s ≡ (
          parse_filter strconv compile s >>= λ (x, rest).
          parse_filters strconv compile fuel rest >>= λ xs. ok (x ∷ xs))
  unfolding parse_filters
  parse_filters-nonempty fuel c t s e = rw e

  parse_filters-first :
      (fuel : ℕ) (f : Filter) (fs : List Filter)
      → IsFilter f
      → parse_filters strconv compile (suc fuel) (unspaced quote (f ∷ fs)) ≡ (
          parse_filter strconv compile (unspaced quote (f ∷ fs)) >>= λ (x, rest).
          parse_filters strconv compile fuel rest >>= λ xs. ok (x ∷ xs))
  parse_filters-first fuel f fs h =
      let (c, t, e, k) = unspaced-starts f fs h in parse_filters-nonempty fuel c t _ e

  parse_filters-unspaced :
      (fuel : ℕ) (fs : List Filter)
      → All IsFilter fs
      → length fs < fuel
      → parse_filters strconv compile fuel (unspaced quote fs) ≡ read_filters strconv compile fs
  unfolding parse_filters read_filters
  parse_filters-unspaced zero fs h k = absurd (omega arith)
  parse_filters-unspaced (suc fuel) [] h k = refl
  parse_filters-unspaced (suc fuel) (f ∷ fs) (h, hs) k =
      parse_filters-first fuel f fs h
      ∙ rw (parse_filter-at f fs h hs) (
          bind_assoc (read_filter strconv compile f) _ _
          ∙ bind_cong (read_filter strconv compile f) _ _
              (λ x. rw (parse_filters-unspaced fuel fs hs (omega arith))))

  length-filters_text : (fs : List Filter) → length fs ≤ length (filters_text quote fs)
  unfolding filters_text filter_text lit
  length-filters_text [] = omega arith
  length-filters_text (f ∷ fs) =
      omega
        (arith, length-append (filter_text quote f) (filters_text quote fs), length-filters_text fs)

  length-unspaced : (fs : List Filter) → length fs ≤ length (unspaced quote fs)
  length-unspaced [] = omega arith
  length-unspaced (f ∷ fs) = omega (
    arith,
    length-append f.op (b' ' ∷ (quote f.value ++ filters_text quote fs)),
    length-append (quote f.value) (filters_text quote fs),
    length-filters_text fs,
  )

  pub all_filters-text :
      (fs : List Filter)
      → All IsFilter fs
      → all_filters strconv compile (filters_text quote fs) ≡ read_filters strconv compile fs
  all_filters-text fs h =
      rw (trim_space-filters fs h)
        (parse_filters-unspaced _ fs h (omega (arith, length-unspaced fs)))
