-- ===== src/Logql/Quoting.antt =====
-- What the parser relies on in strconv.Quote, and that it finds the brace behind quoted values.
use telemetry.Base.{
  ℕ, ◌≡◌, ◌≢◌, refl, sym, ap, ◌∙◌, Bool, true, false, not, ◌==◌, ==_false, some, [], ◌∷◌, ◌++◌,
  append_assoc, if◌then◌else◌, Bool-cases, inl, inr, All,
}
use telemetry.Base.Text.{Text}
use telemetry.Logql.Scan.{
  Parsed, ok, Literals, Mode, outside, inside, skipping, with_byte, closing_brace,
}

-- A quote stands only behind a backslash, and no backslash stands last. The flag is set behind a
-- backslash.
unfoldable pub is_escaped : Bool → Text → Bool
is_escaped skip [] = not skip
is_escaped true (c ∷ s) = is_escaped false s
is_escaped false (c ∷ s) =
    let skipped = is_escaped true s in
    let kept = is_escaped false s in
    if c == b'\\' then skipped else if c == b'"' then false else kept

-- A quoted value is a literal in double quotes, which is read back whatever follows it.
pub record Quoting (strconv : Literals) (quote : Text → Text) : Type 0 where
  pub body : Text → Text
  pub delimited : (v : Text) → quote v ≡ b'"' ∷ (body v ++ b'"' ∷ [])
  pub escaped : (v : Text) → is_escaped false (body v) ≡ true
  pub quoted_prefix-quote :
      (v rest : Text) → strconv.quoted_prefix (quote v ++ rest) ≡ some (quote v)
  pub unquote-quote : (v : Text) → strconv.unquote (quote v) ≡ some v

abbrev pub prepend : Text → Parsed (Text × Text) → Parsed (Text × Text)
prepend [] p = p
prepend (c ∷ s) p = with_byte c (prepend s p)

prepend-append :
    (s t : Text) (p : Parsed (Text × Text)) → prepend (s ++ t) p ≡ prepend s (prepend t p)
prepend-append [] t p = refl
prepend-append (c ∷ s) t p = ap (with_byte c) (prepend-append s t p)

pub prepend-ok : (s rest : Text) → prepend s (ok ([], rest)) ≡ ok (s, rest)
prepend-ok [] rest = refl
prepend-ok (c ∷ s) rest = ap (with_byte c) (prepend-ok s rest)

abbrev mode_of : Bool → Mode
mode_of true = skipping
mode_of false = inside

closing_brace-escaped :
    (skip : Bool) (s rest : Text)
    → is_escaped skip s ≡ true
    → closing_brace (mode_of skip) (s ++ b'"' ∷ rest)
      ≡ prepend s (with_byte b'"' (closing_brace outside rest))
unfolding is_escaped closing_brace
closing_brace-escaped true [] rest h = absurd (cc)
closing_brace-escaped false [] rest h = refl
closing_brace-escaped true (c ∷ s) rest h = ap (with_byte c) (closing_brace-escaped false s rest h)
closing_brace-escaped false (c ∷ s) rest h = elim (Bool-cases (c == b'\\')) [
  | inl e ↦
      rw (e, closing_brace)
        (ap (with_byte c) (closing_brace-escaped true s rest (rw (e, is_escaped) at h)))
  | inr e ↦ elim (Bool-cases (c == b'"')) [
    | inl f ↦ absurd (cc (rw (e, f, is_escaped) at h))
    | inr f ↦
        rw (e, f, closing_brace)
          (ap (with_byte c) (closing_brace-escaped false s rest (rw (e, f, is_escaped) at h)))
  ]
]

-- The scan for the brace runs over the text.
abbrev pub Passes : Text → Type 0
Passes s =
    (rest : Text) → closing_brace outside (s ++ rest) ≡ prepend s (closing_brace outside rest)

pub append-Passes : (s t : Text) → Passes s → Passes t → Passes (s ++ t)
append-Passes s t hs ht rest =
    ap (closing_brace outside) (append_assoc s t rest)
    ∙ hs (t ++ rest)
    ∙ ap (prepend s) (ht rest)
    ∙ sym (prepend-append s t (closing_brace outside rest))

-- Neither a quote nor a closing brace.
abbrev pub IsOpen : ℕ → Type 0
IsOpen c = (c ≢ b'"') × (c ≢ b'}')

pub open-Passes : (s : Text) → All IsOpen s → Passes s
unfolding closing_brace
open-Passes [] h rest = refl
open-Passes (c ∷ s) (h, hs) rest =
    rw (==_false c b'}' h.1, ==_false c b'"' h.0) (ap (with_byte c) (open-Passes s hs rest))

pub quote-Passes :
    (strconv : Literals) (quote : Text → Text)
    → Quoting strconv quote
    → (v : Text) → Passes (quote v)
unfolding closing_brace
quote-Passes strconv quote q v rest =
    ap (λ t. closing_brace outside (t ++ rest)) (q.delimited v)
    ∙ ap (λ t. with_byte b'"' (closing_brace inside t)) (append_assoc (q.body v) (b'"' ∷ []) rest)
    ∙ ap (with_byte b'"') (closing_brace-escaped false (q.body v) rest (q.escaped v))
    ∙ ap (with_byte b'"') (sym (prepend-append (q.body v) (b'"' ∷ []) (closing_brace outside rest)))
    ∙ ap (λ t. prepend t (closing_brace outside rest)) (sym (q.delimited v))
