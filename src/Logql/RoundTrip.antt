-- ===== src/Logql/RoundTrip.antt =====
-- What the CLI's builder renders, the query API's parser reads back.
mod Quoted
pub mod Matchers
mod Joined
mod Body
pub mod LineOperators
mod Filters
use telemetry.Base.{
  ℕ, ◌≡◌, ◌≢◌, refl, sym, ap, ◌∙◌, subst, Option, List, [], ◌∷◌, ◌++◌, append-nil, append_assoc,
  All, arith,
}
use telemetry.Base.Text.{Text, lit}
use telemetry.Storage.Matchers.{Regexp}
use telemetry.Logql.Spaces.{trim_space, EndsPlain, IsPlain, trim_space-plain}
use telemetry.Logql.Scan.{Parsed, ok, err, ◌>>=◌, Literals}
use telemetry.Logql.Parser.{Query, and_filters, parse_selector, parse_trimmed, parse}
use telemetry.Logql.Selector.{Matcher, Filter, Selector, filters_text, render}
use telemetry.Logql.Quoting.{Quoting}
use telemetry.Logql.RoundTrip.Quoted.{append-EndsPlain}
use telemetry.Logql.RoundTrip.Matchers.{IsMatcher, read_matcher, read_matchers}
use telemetry.Logql.RoundTrip.Joined.{joined, bind_assoc, bind_cong}
use telemetry.Logql.RoundTrip.Body.{all_matchers-joined, closing_brace-joined}
use telemetry.Logql.RoundTrip.LineOperators.{IsFilter}
use telemetry.Logql.RoundTrip.Filters.{read_filters, closed-EndsPlain, all_filters-text}

bind_nonempty :
    {A B : Type 0} (p : Parsed A) (ps : Parsed (List A)) (f g : List A → Parsed B)
    → ((x : A) (xs : List A) → f (x ∷ xs) ≡ g (x ∷ xs))
    → ((p >>= λ x. ps >>= λ xs. ok (x ∷ xs)) >>= f) ≡ ((p >>= λ x. ps >>= λ xs. ok (x ∷ xs)) >>= g)
bind_nonempty (err e) ps f g h = refl
bind_nonempty (ok x) (err e) f g h = refl
bind_nonempty (ok x) (ok xs) f g h = h x xs

-- A selector that LogQL can express: a matcher at least, label names for labels, operators for operators.
pub record IsSelector (s : Selector) : Type 0 where
  pub some_matcher : s.matchers ≢ []
  pub matchers : All IsMatcher s.matchers
  pub filters : All IsFilter s.filters

module _ (strconv : Literals) (compile : Text → Option Regexp) where
  -- The query that a selector means.
  unfoldable pub read : Selector → Parsed Query
  unfolding read_matchers read_filters
  read s = read_matchers strconv compile s.matchers >>= λ ms.
      read_filters strconv compile s.filters >>= λ fs. ok (ms, fs)

module _ (strconv : Literals) (compile : Text → Option Regexp) (quote : Text → Text)
    (q : Quoting strconv quote) where
  parse_selector-text :
      (ms : List Matcher) (fs : List Filter)
      → ms ≢ []
      → All IsMatcher ms
      → All IsFilter fs
      → parse_selector strconv compile (joined quote ms ++ b'}' ∷ filters_text quote fs) ≡ (
          read_matchers strconv compile ms >>= λ xs.
          read_filters strconv compile fs >>= λ ys. ok (xs, ys))
  unfolding parse_selector read_matchers
  parse_selector-text [] fs n h k = absurd (n refl)
  parse_selector-text (m ∷ ms) fs n h k =
      rw
        (
          closing_brace-joined strconv compile quote q (m ∷ ms) (filters_text quote fs) h,
          all_matchers-joined strconv compile quote q m ms h,
        )
        (bind_nonempty (read_matcher strconv compile m) (read_matchers strconv compile ms) _ _
          (λ x xs. rw (all_filters-text strconv compile quote q fs k)))

  trim_space-render : (s : Selector) → trim_space (render quote s) ≡ render quote s
  unfolding render lit
  trim_space-render s =
      trim_space-plain b'{' _ (omega arith, omega arith)
        (append-EndsPlain (b'{' ∷ joined quote s.matchers) _
          (closed-EndsPlain strconv compile quote q s.filters))

  parse_trimmed-render :
      (s : Selector)
      → parse_trimmed strconv compile (render quote s)
        ≡ parse_selector strconv compile
            (joined quote s.matchers ++ b'}' ∷ filters_text quote s.filters)
  unfolding parse_trimmed render lit
  parse_trimmed-render s = refl

  -- For a selector with a matcher at least, whose labels are label names and whose operators are
  -- LogQL's, the parser reads the rendered text as exactly the selector's matchers and filters in
  -- their order, or fails with the error of the first expression that does not compile. It relies
  -- on the quoted values being double-quoted literals that are read back.
  pub parse-render :
      (s : Selector)
      → IsSelector s
      → parse strconv compile (render quote s) ≡ read strconv compile s
  unfolding parse parse_trimmed read
  parse-render s h =
      ap (parse_trimmed strconv compile) (trim_space-render s)
      ∙ (parse_trimmed-render s
          ∙ parse_selector-text s.matchers s.filters h.some_matcher h.matchers h.filters)
