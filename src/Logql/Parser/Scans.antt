-- ===== src/Logql/Parser/Scans.antt =====
-- Each scanner of the parser takes from the text, and fails only with errors of the program.
use telemetry.Base.{
  ℕ, zero, suc, ◌+◌, ◌≤◌, ◌<◌, ◌≡◌, ◌≢◌, ap, Bool, true, false, Option, none, some, List, [], ◌∷◌,
  length, length-append, All, drop, if◌then◌else◌, arith, Bool-cases, Option-cases, inl, inr, ◌==◌,
}
use telemetry.Base.Text.{Text, lit, cut_prefix, cut_prefix-eq_some}
use telemetry.Logql.Spaces.{trim_space}
use telemetry.Logql.Scan.{
  ParseError, out_of_fuel, Parsed, ok, err, ◌>>=◌, Mode, outside, inside, skipping, with_byte,
  after_inside, closing_brace, span_label, some_label, scan_ident, first_operator, or_error,
  match_operators, filter_operators, reject_unsupported, unsupported_in, unsupported_names, named,
  valued,
}

-- A result with the property, or an error that the program has too.
abbrev pub Within : {A : Type 0} → Parsed A → (A → Type 0) → Type 0
Within (ok a) Q = Q a
Within (err e) Q = e ≢ out_of_fuel

pub bind-Within :
    {A B : Type 0}
    → (m : Parsed A) (f : A → Parsed B) (Q : A → Type 0) (R : B → Type 0) → Within m Q
    → ((a : A) → Q a → Within (f a) R)
    → Within (m >>= f) R
bind-Within (ok a) f Q R h k = k a h
bind-Within (err e) f Q R h k = h

-- What is left over is no longer than this.
abbrev pub AtMost : {A : Type 0} → ℕ → A × Text → Type 0
AtMost n (a, rest) = length rest ≤ n

pub length-span_label :
    (first : Bool) (s : Text)
    → length (span_label first s).0 + length (span_label first s).1 ≡ length s
unfolding span_label
length-span_label first [] = omega arith
length-span_label first (c ∷ s) = ground (arith, length-span_label false s)

pub some_label-Within :
    (s : Text) (p : Text × Text)
    → length p.0 + length p.1 ≡ length s
    → Within (some_label s p) (λ q. length q.1 < length s)
some_label-Within s ([], rest) h = λ e. cc
some_label-Within s (c ∷ label, rest) h = omega arith

pub scan_ident-Within : (s : Text) → Within (scan_ident s) (λ q. length q.1 < length s)
unfolding scan_ident
scan_ident-Within s = some_label-Within s (span_label true s) (length-span_label true s)

pub cut_prefix_shorter : (s p r : Text) → cut_prefix s p ≡ some r → length p + length r ≡ length s
cut_prefix_shorter s p r e =
    omega (arith, ap length (cut_prefix-eq_some s p r e), length-append p r)

pub first_operator-Within :
    {O : Type 0}
    → (ops : List (Text × O)) (s : Text) (e : ParseError) → e ≢ out_of_fuel
    → All (λ entry. 1 ≤ length entry.0) ops
    → Within (or_error e (first_operator ops s)) (λ q. length q.1 < length s)
unfolding first_operator
first_operator-Within [] s e real full = real
first_operator-Within ((text, op) ∷ ops) s e real full = elim (Option-cases (cut_prefix s text)) [
  | inl no_match ↦ rw (no_match, first_operator) (first_operator-Within ops s e real full.1)
  | inr (rest, at) ↦
      rw (at, first_operator) (omega (arith, cut_prefix_shorter s text rest at, full.0))
]

pub full_match : All (λ entry. 1 ≤ length entry.0) match_operators
unfolding lit
full_match = omega arith

pub full_filter : All (λ entry. 1 ≤ length entry.0) filter_operators
unfolding lit
full_filter = omega arith

pub length-drop : (n : ℕ) (s : Text) → length (drop n s) ≤ length s
length-drop zero s = omega arith
length-drop (suc n) [] = omega arith
length-drop (suc n) (c ∷ s) = omega (arith, length-drop n s)

pub valued-Within :
    (s quoted : Text) (o : Option Text) → Within (valued s quoted o) (AtMost (length s))
valued-Within s quoted none = λ p. cc
valued-Within s quoted (some value) = length-drop (length quoted) s

abbrev pub IsReal : Option ParseError → Type 0
IsReal none = Unit
IsReal (some e) = e ≢ out_of_fuel

pub named-IsReal : (o : Option Text) → IsReal (named o)
named-IsReal none = tt
named-IsReal (some name) = λ p. cc

pub reject_unsupported-IsReal : (s : Text) → IsReal (reject_unsupported s)
unfolding reject_unsupported
reject_unsupported-IsReal [] = tt
reject_unsupported-IsReal (c ∷ s) = elim (Bool-cases (c == b'[')) [
  | inl e ↦ rw (e, reject_unsupported) λ p. cc
  | inr e ↦ elim (Bool-cases (c == b'|')) [
    | inl f ↦
        rw (e, f, reject_unsupported)
          (named-IsReal (unsupported_in unsupported_names (trim_space s)))
    | inr f ↦ rw (e, f, reject_unsupported) tt
  ]
]

pub with_byte-Within :
    (c : ℕ) (p : Parsed (Text × Text)) → Within p (λ _. Unit) → Within (with_byte c p) (λ _. Unit)
with_byte-Within c (ok (body, rest)) h = tt
with_byte-Within c (err e) h = h

pub closing_brace-Within : (m : Mode) (s : Text) → Within (closing_brace m s) (λ _. Unit)
unfolding closing_brace
closing_brace-Within outside [] = λ p. cc
closing_brace-Within inside [] = λ p. cc
closing_brace-Within skipping [] = λ p. cc
closing_brace-Within skipping (c ∷ s) = with_byte-Within c _ (closing_brace-Within inside s)
closing_brace-Within inside (c ∷ s) = with_byte-Within c _ (closing_brace-Within (after_inside c) s)
closing_brace-Within outside (c ∷ s) = elim (Bool-cases (c == b'}')) [
  | inl e ↦ rw (e, closing_brace) tt
  | inr e ↦
      rw (e, closing_brace)
        (with_byte-Within c _ (closing_brace-Within (if c == b'"' then inside else outside) s))
]
