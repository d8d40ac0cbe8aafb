-- ===== src/Handlers/Prom/Bounds.antt =====
-- What a range query that passes the handler's tests is bounded by.
use mathlib.Core.Sum.{inl-injective}
use native.Mathlib.Nat.{div-le_self, zero-div}
use telemetry.Base.{
  if_false, ℕ, ◌+◌, ◌/◌, ◌≤◌, ◌≡◌, ◌≢◌, refl, sym, subst, ◌∙◌, inl, inr, Bool, true, false, Option,
  none, some, [], arith, Bool-cases,
}
use telemetry.Base.Int.{ℤ, pos, negsuc, pos_part, ◌+ℤ◌, ◌≤ℤ◌, ◌<ℤ◌, ltb_ℤ, quot}
use telemetry.Base.Text.{Text, lit, text_eq, text_eq_iff}
use telemetry.Logql.Spaces.{trim_space}
use telemetry.Storage.Prometheus.{Form, TimeRange, RangeQuery}
use telemetry.Handlers.Prom.{
  Checked, ◌>>=◌, unless, max_duration, max_points, Config, Parsers, get, required,
  parse_prom_duration, prom_timeout, prom_range, prom_time, range_query, parsed, above_zero,
  reversed, window_of, checked_window, stepped, ranged, exceeds_points, in_range, or_seconds, min_ℤ,
}

bind_inl :
    {A B : Type 0} (x : Checked A) (f : A → Checked B) (b : B)
    → (x >>= f) ≡ inl b
    → (a : A) × (x ≡ inl a) × (f a ≡ inl b)
bind_inl (inl a) f b h = (a, refl, h)
bind_inl (inr reply) f b h = absurd (cc)

unless-inl :
    {A : Type 0} (bad : Bool) (message : Text) (a b : A)
    → unless bad message a ≡ inl b
    → (bad ≡ false) × (a ≡ b)
unless-inl true message a b h = absurd (cc)
unless-inl false message a b h = (refl, cc)

required-filled : (form : Form) (name text : Text) → required form name ≡ inl text → text ≢ []
unfolding required
required-filled form name text h =
    let (full, e) = unless-inl (text_eq (trim_space (get form name)) []) _ _ text h in
    λ q. ground (arith, text_eq_iff (trim_space (get form name)) [])

module _ (parsers : Parsers) (config : Config) (form : Form) where
  parsed-inl :
      (message : Text) (o : Option ℤ) (z : ℤ) → parsed parsers message o ≡ inl z → o ≡ some z
  parsed-inl message none z h = absurd (cc)
  parsed-inl message (some y) z h = cc

  in_range-positive :
      (o : Option ℤ) (d : ℤ) → in_range parsers o ≡ some d → above_zero parsers d ≡ true
  in_range-positive none d h = absurd (cc)
  in_range-positive (some ns) d h = ground arith

  or_seconds-positive :
      (raw : Text) (o : Option ℤ) (d : ℤ)
      → or_seconds parsers raw o ≡ some d
      → above_zero parsers d ≡ true
  or_seconds-positive raw none d h = in_range-positive (parsers.rounded raw) d h
  or_seconds-positive raw (some e) d h = elim (Bool-cases (above_zero parsers e)) [
    | inl g ↦ ground arith
    | inr g ↦
        in_range-positive (parsers.rounded raw) d
          (sym (if_false (above_zero parsers e) (some e) _ g) ∙ h)
  ]

  -- The duration of a text is positive.
  duration-positive :
      (text : Text) (d : ℤ)
      → parse_prom_duration parsers text ≡ some d
      → above_zero parsers d ≡ true
  unfolding parse_prom_duration
  duration-positive text d h =
      or_seconds-positive (trim_space text) (parsers.duration (trim_space text)) d h

  -- A range query's window, and the points that it asks for, stay below the bounds.
  pub record IsBounded (range : TimeRange) (step : ℤ) : Type 0 where
    pub window : window_of parsers range ≤ℤ config.max_range
    pub points : pos_part (window_of parsers range) / pos_part step + 1 ≤ max_points

  points_bounded :
      (w : ℤ) (s : ℕ)
      → w <ℤ pos max_duration
      → exceeds_points parsers (quot w s +ℤ pos 1) ≡ false
      → pos_part w / s + 1 ≤ max_points
  unfolding quot ◌+ℤ◌
  points_bounded (pos n) s small h = let fits = div-le_self n s in ground arith
  points_bounded (negsuc n) s small h = omega (arith, zero-div s)

  checked_window-IsBounded :
      (range : TimeRange) (step window : ℤ)
      → config.max_range <ℤ pos max_duration
      → checked_window parsers config range step ≡ inl window
      → IsBounded range step
  unfolding checked_window
  checked_window-IsBounded range step window small h =
      let w = window_of parsers range in
      elim (Bool-cases (ltb_ℤ config.max_range w)) [
        | inl e ↦ absurd (ground arith)
        | inr e ↦ elim (Bool-cases (exceeds_points parsers (quot w (pos_part step) +ℤ pos 1))) [
          | inl g ↦ absurd (ground arith)
          | inr g ↦ record {
            window = ground arith;
            points = points_bounded w (pos_part step) (ground arith) g;
          }
        ]
      ]

  min_capped :
      (d timeout : ℤ)
      → ◌≡◌ {A = Checked ℤ} (inl (min_ℤ parsers d config.query_timeout)) (inl timeout)
      → timeout ≤ℤ config.query_timeout
  min_capped d timeout h = ground arith

  timeout_capped :
      (timeout : ℤ)
      → prom_timeout parsers config form ≡ inl timeout
      → timeout ≤ℤ config.query_timeout
  unfolding prom_timeout
  timeout_capped timeout h = elim (Bool-cases (text_eq (get form (lit "timeout")) [])) [
    | inl e ↦ ground arith
    | inr e ↦
        let (d, f, k) =
          bind_inl
            (parsed parsers (lit "timeout: invalid duration")
              (parse_prom_duration parsers (get form (lit "timeout"))))
            (λ d. inl (min_ℤ parsers d config.query_timeout)) timeout
            (sym (if_false (text_eq (get form (lit "timeout")) []) _ _ e) ∙ h) in
        min_capped d timeout k
  ]

  ordered :
      (range : TimeRange)
      → prom_range parsers form ≡ inl range
      → reversed parsers range.start range.end ≡ false
  unfolding prom_range
  ordered range h =
      let (start, e, g) = bind_inl (prom_time parsers form (lit "start") (pos 0)) _ range h in
      let (end, f, k) = bind_inl (prom_time parsers form (lit "end") (pos 0)) _ range g in
      let (good, q) = unless-inl (reversed parsers start end) _ _ range k in
      subst (λ (r : TimeRange). reversed parsers r.start r.end ≡ false) q good

  ranged_parts :
      (text : Text) (range : TimeRange) (q : RangeQuery)
      → ranged parsers config form text range ≡ inl q
      → (text ≡ q.query)
        × (range ≡ q.range)
        × (parse_prom_duration parsers (get form (lit "step")) ≡ some q.step)
        × ((window : ℤ) × (checked_window parsers config q.range q.step ≡ inl window))
        × (prom_timeout parsers config form ≡ inl q.timeout)
  unfolding ranged stepped
  ranged_parts text range q h =
      let (step, e, g) =
        bind_inl
          (parsed parsers (lit "step: invalid duration")
            (parse_prom_duration parsers (get form (lit "step"))))
          (stepped parsers config form text range) q h in
      let (window, f, k) = bind_inl (checked_window parsers config range step) _ q g in
      let (timeout, t, l) = bind_inl (prom_timeout parsers config form) _ q k in
      subst
        (λ (r : RangeQuery).
          (text ≡ r.query)
          × (range ≡ r.range)
          × (parse_prom_duration parsers (get form (lit "step")) ≡ some r.step)
          × ((w : ℤ) × (checked_window parsers config r.range r.step ≡ inl w))
          × (prom_timeout parsers config form ≡ inl r.timeout))
        (inl-injective _ q l) (refl, refl, parsed-inl _ _ step e, (window, f), t)

  -- Where the maximal range is shorter than the longest duration: a range query that the handler
  -- passes to the store has a text that is not empty, a positive step, an end that is not before
  -- its start unless one of them is the zero time, a window, which stops at the bounds of a duration,
  -- no longer than the maximal range, at most 11,000 points in it, and a timeout that does not exceed
  -- the handler's.
  pub range_query-IsBounded :
      (q : RangeQuery)
      → config.max_range <ℤ pos max_duration
      → range_query parsers config form ≡ inl q
      → (q.query ≢ [])
        × (above_zero parsers q.step ≡ true)
        × (reversed parsers q.range.start q.range.end ≡ false)
        × IsBounded q.range q.step
        × (q.timeout ≤ℤ config.query_timeout)
  unfolding range_query
  range_query-IsBounded q small h =
      let (text, e0, h0) = bind_inl (required form (lit "query")) _ q h in
      let (start, e1, h1) = bind_inl (required form (lit "start")) _ q h0 in
      let (end, e2, h2) = bind_inl (required form (lit "end")) _ q h1 in
      let (raw, e3, h3) = bind_inl (required form (lit "step")) _ q h2 in
      let (range, e4, h4) =
        bind_inl (prom_range parsers form) (ranged parsers config form text) q h3 in
      let (same_text, same_range, step, (window, good), timeout) = ranged_parts text range q h4 in
      (
        required-filled form (lit "query") q.query
            (subst (λ t. required form (lit "query") ≡ inl t) same_text e0),
        duration-positive (get form (lit "step")) q.step step,
        ordered q.range (subst (λ r. prom_range parsers form ≡ inl r) same_range e4),
        checked_window-IsBounded q.range q.step window small good,
        timeout_capped q.timeout timeout,
      )
