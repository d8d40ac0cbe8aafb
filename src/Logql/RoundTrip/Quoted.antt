-- ===== src/Logql/RoundTrip/Quoted.antt =====
-- A quoted value inside a longer text: how it is trimmed and read.
use telemetry.Base.{
  ◌≡◌, refl, sym, ap, ◌∙◌, subst, [], ◌∷◌, ◌++◌, append_assoc, length, drop, arith,
}
use telemetry.Base.Text.{Text}
use telemetry.Logql.Spaces.{trim_space, EndsPlain, trim_space-plain, trim_space-after_space}
use telemetry.Logql.Scan.{ok, Literals, scan_string}
use telemetry.Logql.Quoting.{Quoting}

pub append-EndsPlain : (s t : Text) → EndsPlain t → EndsPlain (s ++ t)
append-EndsPlain s t (a, c, h, e) =
    (s ++ a, c, h, ap (λ x. s ++ x) e ∙ sym (append_assoc s a (c ∷ [])))

drop-append : (s t : Text) → drop (length s) (s ++ t) ≡ t
drop-append [] t = refl
drop-append (c ∷ s) t = drop-append s t

module _ (strconv : Literals) (quote : Text → Text) (q : Quoting strconv quote) where
  pub quote-EndsPlain : (v : Text) → EndsPlain (quote v)
  quote-EndsPlain v = (b'"' ∷ q.body v, b'"', (omega arith, omega arith), q.delimited v)

  -- What the quoted value and the rest are, behind the first quote.
  abbrev pub behind_quote : Text → Text → Text
  behind_quote v r = (q.body v ++ b'"' ∷ []) ++ r

  pub quote-starts : (v r : Text) → quote v ++ r ≡ b'"' ∷ behind_quote v r
  quote-starts v r = ap (λ t. t ++ r) (q.delimited v)

  pub trim_space-quote :
      (v r : Text) → EndsPlain (quote v ++ r) → trim_space (quote v ++ r) ≡ quote v ++ r
  trim_space-quote v r h =
      subst (λ t. trim_space t ≡ t) (sym (quote-starts v r))
        (trim_space-plain b'"' (behind_quote v r) (omega arith, omega arith)
          (subst EndsPlain (quote-starts v r) h))

  pub trim_space-space_quote :
      (v r : Text) → EndsPlain (quote v ++ r) → trim_space (b' ' ∷ (quote v ++ r)) ≡ quote v ++ r
  trim_space-space_quote v r h =
      subst (λ t. trim_space (b' ' ∷ t) ≡ t) (sym (quote-starts v r))
        (trim_space-after_space b'"' (behind_quote v r) (omega arith, omega arith)
          (subst EndsPlain (quote-starts v r) h))

  pub scan_string-quote : (v r : Text) → scan_string strconv (quote v ++ r) ≡ ok (v, r)
  unfolding scan_string
  scan_string-quote v r =
      rw (q.quoted_prefix-quote v r, q.unquote-quote v)
        (ap (λ t. ok (v, t)) (drop-append (quote v) r))
