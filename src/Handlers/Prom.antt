-- ===== src/Handlers/Prom.antt =====
-- queryapi/prom.go and queryapi/promparams.go: what a request for metrics has to be, and what is asked
-- of the store for it. Parsers of times, durations and numbers that the code calls are parameters.
-- A message on a time or a duration ends before the text that it quotes.
pub mod Bounds
pub mod Endpoints
use telemetry.Base.{
  ℕ, zero, suc, ◌+◌, ◌-◌, ◌*◌, ◌⊎◌, inl, inr, Bool, true, false, not, ◌&&◌, ◌||◌, ◌==◌, ltb, leb,
  Option, none, some, List, [], ◌∷◌, ◌++◌, length, take, if◌then◌else◌,
}
use telemetry.Base.Int.{ℤ, pos, negsuc, pos_part, ◌+ℤ◌, ◌-ℤ◌, ltb_ℤ, leb_ℤ, quot}
use telemetry.Base.Text.{Text, lit, text_eq}
use telemetry.Base.Assoc.{lookup}
use telemetry.Logql.Spaces.{trim_space}
use telemetry.Storage.Prometheus.{
  StoreError, no_project, response_too_large, backend_unavailable, canceled, deadline_exceeded,
  query_error, invalid_path, Form, TimeRange, InstantQuery, RangeQuery, valid_label_name,
}

-- An answer: the envelope of an error with its status, or the data of a success.
pub data Reply : Type 0 where
  refused : ℕ → Text → Text → Reply
  success : Text → Reply

abbrev pub Checked : Type 0 → Type 0
Checked A = A ⊎ Reply

infixl 1 ◌>>=◌
abbrev pub ◌>>=◌ : {A B : Type 0} → Checked A → (A → Checked B) → Checked B
inl a >>= f = f a
inr reply >>= f = inr reply

abbrev pub bad_data : {A : Type 0} → Text → Checked A
bad_data message = inr (refused 400 (lit "bad_data") message)

-- A value that a test lets through.
abbrev pub unless : {A : Type 0} → Bool → Text → A → Checked A
unless bad message a = if bad then bad_data message else inl a

-- The largest time.Duration.
unfoldable pub max_duration : ℕ
max_duration = 9223372036854775807

abbrev pub max_points : ℕ
max_points = 11000

pub record Config : Type 0 where
  pub query_timeout : ℤ
  pub max_range : ℤ

pub record Parsers : Type 0 where
  pub rfc3339 : Text → Option ℤ
  pub unix : ℕ → ℕ → ℤ
  -- model.ParseDuration
  pub duration : Text → Option ℤ
  -- strconv.ParseFloat of a finite number above 0, with math.Round in nanoseconds
  pub rounded : Text → Option ℤ
  pub quote : Text → Text
  pub duration_text : ℤ → Text

unfoldable pub is_digits : Text → Bool
is_digits [] = true
is_digits (c ∷ s) = (leb b'0' c && leb c b'9') && is_digits s

unfoldable pub digits_value : ℕ → Text → ℕ
digits_value n [] = n
digits_value n (c ∷ s) = digits_value (n * 10 + (c - b'0')) s

-- strings.Cut at a point.
abbrev put : ℕ → Text × Text → Text × Text
put c (whole, frac) = (c ∷ whole, frac)

unfoldable pub cut_point : Text → Text × Text
cut_point [] = ([], [])
cut_point (c ∷ s) = let rest = cut_point s in if c == b'.' then ([], s) else put c rest

-- The fraction's nanoseconds: nine digits, filled up with zeros.
unfoldable pub nine : ℕ → Text → Text
nine zero s = []
nine (suc n) [] = b'0' ∷ nine n []
nine (suc n) (c ∷ s) = c ∷ nine n s

-- The value of form.Get: the first one, or the empty text.
abbrev first_of : Option (List Text) → Text
first_of none = []
first_of (some []) = []
first_of (some (v ∷ vs)) = v

unfoldable pub get : Form → Text → Text
unfolding lookup
get form name = first_of (lookup name form)

unfoldable pub required : Form → Text → Checked Text
unfolding trim_space get
required form name =
    let v = trim_space (get form name) in unless (text_eq v []) (name ++ lit " is required") v

abbrev pub is_zero : ℤ → Bool
is_zero (pos n) = n == 0
is_zero (negsuc n) = false

module _ (parsers : Parsers) where
  unfoldable pub parse_unix_seconds : Text → Option ℤ
  unfolding cut_point is_digits digits_value nine max_duration
  parse_unix_seconds raw =
      let (whole, frac) = cut_point raw in
      if text_eq whole [] || (not (is_digits whole) || not (is_digits frac))
      then none
      else if ltb max_duration (digits_value 0 whole)
      then none
      else some (parsers.unix (digits_value 0 whole) (digits_value 0 (nine 9 frac)))

  abbrev or_unix : Text → Option ℤ → Option ℤ
  or_unix raw (some t) = some t
  or_unix raw none = parse_unix_seconds raw

  -- The time, or the fallback where there is no text; none for an error.
  unfoldable pub parse_prom_time : Text → ℤ → Option ℤ
  unfolding parse_unix_seconds trim_space
  parse_prom_time text fallback =
      let raw = trim_space text in
      if text_eq raw [] then some fallback else or_unix raw (parsers.rfc3339 raw)

  abbrev pub above_zero : ℤ → Bool
  above_zero (pos n) = ltb 0 n
  above_zero (negsuc n) = false

  abbrev pub in_range : Option ℤ → Option ℤ
  in_range none = none
  in_range (some ns) = if above_zero ns && ltb_ℤ ns (pos max_duration) then some ns else none

  abbrev pub or_seconds : Text → Option ℤ → Option ℤ
  or_seconds raw none = in_range (parsers.rounded raw)
  or_seconds raw (some d) = if above_zero d then some d else in_range (parsers.rounded raw)

  unfoldable pub parse_prom_duration : Text → Option ℤ
  unfolding max_duration trim_space
  parse_prom_duration text = let raw = trim_space text in or_seconds raw (parsers.duration raw)

  abbrev pub parsed : Text → Option ℤ → Checked ℤ
  parsed message none = bad_data message
  parsed message (some z) = inl z

  unfoldable pub prom_time : Form → Text → ℤ → Checked ℤ
  unfolding parse_prom_time get
  prom_time form name fallback =
      parsed (name ++ lit ": invalid timestamp") (parse_prom_time (get form name) fallback)

  abbrev pub min_ℤ : ℤ → ℤ → ℤ
  min_ℤ a b = if ltb_ℤ b a then b else a

  unfoldable pub prom_timeout : Config → Form → Checked ℤ
  unfolding parse_prom_duration get
  prom_timeout config form =
      if text_eq (get form (lit "timeout")) [] then inl config.query_timeout else (do
        d ←
            parsed (lit "timeout: invalid duration")
              (parse_prom_duration (get form (lit "timeout")))
        inl (min_ℤ d config.query_timeout))

  -- Whether the end is before the start, where both are given.
  abbrev pub reversed : ℤ → ℤ → Bool
  reversed start end = not (is_zero start) && (not (is_zero end) && ltb_ℤ end start)

  unfoldable pub prom_range : Form → Checked TimeRange
  unfolding prom_time
  prom_range form = do
    start ← prom_time form (lit "start") (pos 0)
    end ← prom_time form (lit "end") (pos 0)
    unless (reversed start end) (lit "end must not be before start")
        (record { start = start; end = end })

  -- t.Sub(u), which stops at the bounds of a Duration.
  unfoldable pub saturated : ℤ → ℤ
  unfolding max_duration
  saturated (pos n) = if ltb max_duration n then pos max_duration else pos n
  saturated (negsuc n) = if ltb max_duration n then negsuc max_duration else negsuc n

  -- int64(window/step)+1 > maxPoints, where the sum of the largest int64 wraps.
  abbrev pub exceeds_points : ℤ → Bool
  exceeds_points (pos n) = ltb max_points n && leb n max_duration
  exceeds_points (negsuc n) = false

  abbrev pub window_of : TimeRange → ℤ
  window_of range = saturated (range.end -ℤ range.start)

  -- The tests of the window and of the number of points.
  unfoldable pub checked_window : Config → TimeRange → ℤ → Checked ℤ
  unfolding saturated quot ◌+ℤ◌ ◌-ℤ◌
  checked_window config range step =
      if ltb_ℤ config.max_range (window_of range)
      then bad_data (
          lit "range "
          ++ (parsers.duration_text (window_of range)
              ++ (lit " exceeds the maximum of " ++ parsers.duration_text config.max_range)))
      else if exceeds_points (quot (window_of range) (pos_part step) +ℤ pos 1)
      then bad_data
          (lit "exceeded maximum resolution of 11,000 points per timeseries; try a larger step")
      else inl (window_of range)

  unfoldable pub stepped : Config → Form → Text → TimeRange → ℤ → Checked RangeQuery
  unfolding checked_window prom_timeout
  stepped config form text range step = do
    window ← checked_window config range step
    timeout ← prom_timeout config form
    inl (record { query = text; range = range; step = step; timeout = timeout })

  unfoldable pub ranged : Config → Form → Text → TimeRange → Checked RangeQuery
  unfolding stepped parse_prom_duration get
  ranged config form text range =
      parsed (lit "step: invalid duration") (parse_prom_duration (get form (lit "step")))
      >>= stepped config form text range

  unfoldable pub range_query : Config → Form → Checked RangeQuery
  unfolding required prom_range ranged
  range_query config form = do
    text ← required form (lit "query")
    start ← required form (lit "start")
    end ← required form (lit "end")
    step ← required form (lit "step")
    prom_range form >>= ranged config form text
