-- ===== src/Logql/Selector.antt =====
-- cli/logql/logql.go. strconv.Quote and regexp.QuoteMeta are parameters.
use telemetry.Base.{◌||◌, List, [], ◌∷◌, ◌++◌, map, if◌then◌else◌}
use telemetry.Base.Text.{Text, lit, text_eq, join}
use telemetry.Base.Assoc.{contains}
use telemetry.Logql.Spaces.{trim_space}

pub record Matcher : Type 0 where
  pub label : Text
  pub op : Text
  pub value : Text

pub record Filter : Type 0 where
  pub op : Text
  pub value : Text

pub record Selector : Type 0 where
  pub matchers : List Matcher
  pub filters : List Filter

unfoldable pub add : Selector → Text → Text → Text → Selector
add s label op value = record s {
  matchers = s.matchers ++ record { label = label; op = op; value = value } ∷ [];
}

unfoldable pub eq : Selector → Text → Text → Selector
unfolding add
eq s label value = add s label (lit "=") value

unfoldable pub neq : Selector → Text → Text → Selector
unfolding add
neq s label value = add s label (lit "!=") value

unfoldable pub re : Selector → Text → Text → Selector
unfolding add
re s label pattern_text = add s label (lit "=~") pattern_text

unfoldable pub nre : Selector → Text → Text → Selector
unfolding add
nre s label pattern_text = add s label (lit "!~") pattern_text

abbrev add_filter : Selector → Text → Text → Selector
add_filter s op [] = s
add_filter s op (c ∷ text) = record s {
  filters = s.filters ++ record { op = op; value = c ∷ text } ∷ [];
}

unfoldable pub contains_line : Selector → Text → Selector
contains_line s text = add_filter s (lit "|=") text

unfoldable pub excludes : Selector → Text → Selector
excludes s text = add_filter s (lit "!=") text

-- The loop's body of dedupe.
unfoldable pub keep_value : List Text → Text → List Text
keep_value out v = if text_eq v [] || contains out v then out else out ++ v ∷ []

dedupe_into : List Text → List Text → List Text
unfolding keep_value
dedupe_into out [] = out
dedupe_into out (v ∷ values) = dedupe_into (keep_value out (trim_space v)) values

unfoldable pub dedupe : List Text → List Text
unfolding dedupe_into
dedupe values = dedupe_into [] values

module _ (quote_meta : Text → Text) where
  unfoldable pub alternation : List Text → Text
  unfolding join
  alternation values = join (lit "|") (map quote_meta values)

  abbrev one_of_values : Selector → Text → List Text → Selector
  one_of_values s label [] = s
  one_of_values s label (v ∷ []) = eq s label v
  one_of_values s label (v ∷ w ∷ values) = re s label (alternation (v ∷ w ∷ values))

  unfoldable pub one_of : Selector → Text → List Text → Selector
  one_of s label values = one_of_values s label (dedupe values)

  abbrev none_of_values : Selector → Text → List Text → Selector
  none_of_values s label [] = s
  none_of_values s label (v ∷ []) = neq s label v
  none_of_values s label (v ∷ w ∷ values) = nre s label (alternation (v ∷ w ∷ values))

  unfoldable pub none_of : Selector → Text → List Text → Selector
  none_of s label values = none_of_values s label (dedupe values)

module _ (quote : Text → Text) where
  unfoldable pub matcher_text : Matcher → Text
  matcher_text m = m.label ++ (m.op ++ quote m.value)

  unfoldable pub filter_text : Filter → Text
  filter_text f = lit " " ++ (f.op ++ (lit " " ++ quote f.value))

  unfoldable pub filters_text : List Filter → Text
  unfolding filter_text
  filters_text [] = []
  filters_text (f ∷ fs) = filter_text f ++ filters_text fs

  -- The method String.
  unfoldable pub render : Selector → Text
  unfolding join matcher_text filters_text
  render s =
      lit "{"
      ++ (join (lit ", ") (map matcher_text s.matchers) ++ (lit "}" ++ filters_text s.filters))
