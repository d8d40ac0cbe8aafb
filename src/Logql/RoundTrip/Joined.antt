-- ===== src/Logql/RoundTrip/Joined.antt =====
-- The matchers of a rendered selector, joined by commas.
use telemetry.Base.{
  ℕ, zero, suc, ◌<◌, ◌≡◌, refl, sym, ap, ◌∙◌, subst, Bool, true, Option, List, [], ◌∷◌, ◌++◌,
  append_assoc, append-nil, length, arith, map, All,
}
use telemetry.Base.Text.{Text, lit, join}
use telemetry.Storage.Matchers.{Regexp}
use telemetry.Logql.Spaces.{
  trim_space, IsPlain, EndsPlain, trim_space-plain, trim_space-after_space, trim_space-nil,
}
use telemetry.Logql.Scan.{Parsed, ok, err, ◌>>=◌, Literals, is_label_byte}
use telemetry.Logql.Parser.{parse_matcher, next_matcher, parse_matchers}
use telemetry.Logql.Selector.{Matcher, matcher_text}
use telemetry.Logql.Quoting.{Quoting}
use telemetry.Logql.RoundTrip.Quoted.{append-EndsPlain, quote-EndsPlain}
use telemetry.Logql.RoundTrip.Matchers.{
  is_label, IsMatcher, read_matcher, read_matchers, operated, parse_matcher-at,
}

pub bind_assoc :
    {A B C : Type 0} (p : Parsed A) (f : A → Parsed B) (g : B → Parsed C)
    → ((p >>= f) >>= g) ≡ (p >>= λ a. f a >>= g)
bind_assoc (ok a) f g = refl
bind_assoc (err e) f g = refl

pub bind_cong :
    {A B : Type 0} (p : Parsed A) (f g : A → Parsed B)
    → ((a : A) → f a ≡ g a)
    → (p >>= f) ≡ (p >>= g)
bind_cong (ok a) f g h = h a
bind_cong (err e) f g h = refl

label_byte-IsPlain : (first : Bool) (c : ℕ) → is_label_byte first c ≡ true → IsPlain c
label_byte-IsPlain first c h = (ground arith, ground arith)

pub label-starts :
    (label : Text) → is_label true label ≡ true → (c : ℕ) × (t : Text) × (label ≡ c ∷ t) × IsPlain c
unfolding is_label
label-starts [] h = absurd (cc)
label-starts (c ∷ t) h = (c, t, refl, label_byte-IsPlain true c (ground arith))

abbrev pub joined : (Text → Text) → List Matcher → Text
joined quote ms = join (lit ", ") (map (matcher_text quote) ms)

-- What follows the first matcher.
abbrev pub more : (Text → Text) → List Matcher → Text
more quote [] = []
more quote (m ∷ ms) = b',' ∷ b' ' ∷ joined quote (m ∷ ms)

module _ (strconv : Literals) (compile : Text → Option Regexp) (quote : Text → Text)
    (q : Quoting strconv quote) where
  pub joined-first :
      (m : Matcher) (ms : List Matcher)
      → joined quote (m ∷ ms) ≡ m.label ++ operated quote m (more quote ms)
  unfolding join matcher_text lit
  joined-first m [] = ap (λ s. m.label ++ (m.op ++ s)) (sym (append-nil (quote m.value)))
  joined-first m (n ∷ ms) =
      append_assoc m.label (m.op ++ quote m.value) _
      ∙ ap (λ s. m.label ++ s) (append_assoc m.op (quote m.value) _)

  first-EndsPlain :
      (m : Matcher) (ms : List Matcher)
      → EndsPlain (quote m.value ++ more quote ms)
      → EndsPlain (joined quote (m ∷ ms))
  first-EndsPlain m ms h =
      subst EndsPlain (sym (joined-first m ms))
        (append-EndsPlain m.label _ (append-EndsPlain m.op _ h))

  quote-more-EndsPlain : (v : Text) (ms : List Matcher) → EndsPlain (quote v ++ more quote ms)
  quote-more-EndsPlain v [] =
      subst EndsPlain (sym (append-nil (quote v))) (quote-EndsPlain strconv quote q v)
  quote-more-EndsPlain v (m ∷ ms) = append-EndsPlain (quote v) _ (
      append-EndsPlain (b',' ∷ b' ' ∷ []) _
        (first-EndsPlain m ms (quote-more-EndsPlain m.value ms)))

  pub joined-EndsPlain : (m : Matcher) (ms : List Matcher) → EndsPlain (joined quote (m ∷ ms))
  joined-EndsPlain m ms = first-EndsPlain m ms (quote-more-EndsPlain m.value ms)

  trim_space-more : (ms : List Matcher) → trim_space (more quote ms) ≡ more quote ms
  trim_space-more [] = trim_space-nil
  trim_space-more (m ∷ ms) =
      trim_space-plain b',' _ (omega arith, omega arith)
        (append-EndsPlain (b',' ∷ b' ' ∷ []) _ (joined-EndsPlain m ms))

  -- A text behind a label is not empty.
  parse_matchers-label :
      (fuel : ℕ) (label s : Text)
      → is_label true label ≡ true
      → parse_matchers strconv compile (suc fuel) (label ++ s) ≡ (
          parse_matcher strconv compile (label ++ s) >>= λ (m, after).
          next_matcher strconv compile after >>= λ rest.
          parse_matchers strconv compile fuel rest >>= λ ms. ok (m ∷ ms))
  unfolding parse_matchers is_label
  parse_matchers-label fuel [] s h = absurd (cc)
  parse_matchers-label fuel (c ∷ label) s h = refl

  pub joined-starts :
      (m : Matcher) (ms : List Matcher)
      → IsMatcher m
      → (c : ℕ) × (t : Text) × (joined quote (m ∷ ms) ≡ c ∷ t) × IsPlain c
  joined-starts m ms h =
      let (c, t, e, k) = label-starts m.label h.label in
      (c, _, joined-first m ms ∙ ap (λ s. s ++ operated quote m (more quote ms)) e, k)

  next_matcher-more :
      (ms : List Matcher)
      → All IsMatcher ms
      → next_matcher strconv compile (more quote ms) ≡ ok (joined quote ms)
  unfolding next_matcher join
  next_matcher-more [] h = refl
  next_matcher-more (m ∷ ms) (h, hs) =
      let (c, t, e, k) = joined-starts m ms h in
      ap ok (
        subst (λ s. trim_space (b' ' ∷ s) ≡ s) (sym e)
          (trim_space-after_space c t k (subst EndsPlain e (joined-EndsPlain m ms))))

  pub parse_matchers-joined :
      (fuel : ℕ) (ms : List Matcher)
      → All IsMatcher ms
      → length ms < fuel
      → parse_matchers strconv compile fuel (joined quote ms) ≡ read_matchers strconv compile ms
  unfolding parse_matchers read_matchers join
  parse_matchers-joined zero ms h k = absurd (omega arith)
  parse_matchers-joined (suc fuel) [] h k = refl
  parse_matchers-joined (suc fuel) (m ∷ ms) (h, hs) k =
      ap (parse_matchers strconv compile (suc fuel)) (joined-first m ms)
      ∙ parse_matchers-label fuel m.label (operated quote m (more quote ms)) h.label
      ∙ rw
          (
            parse_matcher-at strconv compile quote q m (more quote ms) h
                (quote-more-EndsPlain m.value ms),
            trim_space-more ms,
          )
          (bind_assoc (read_matcher strconv compile m) _ _
            ∙ bind_cong (read_matcher strconv compile m) _ _
                (λ x. rw (next_matcher-more ms hs, parse_matchers-joined fuel ms hs (omega arith))))
