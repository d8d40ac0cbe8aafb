-- ===== src/Logql/Spaces.antt =====
-- strings.TrimSpace on UTF-8: Unicode's white space, recognised byte by byte.
use telemetry.Base.{
  ℕ, ◌≤◌, ◌≡◌, refl, sym, ap, ◌∙◌, Bool, true, false, ◌&&◌, ◌||◌, ◌==◌, leb, Option, none, some, [],
  ◌∷◌, ◌++◌, length, if◌then◌else◌, arith, Option-cases, inl, inr,
}
use telemetry.Base.Text.{Text}

-- How much of an encoding has been read: nothing, or the bytes that the name spells.
pub data Prefix : Type 0 where
  start c2 e1 e1_9a e2 e2_80 e2_81 e3 e3_80 : Prefix

abbrev go : Bool → Prefix → Option Prefix
go true p = some p
go false p = none

-- One more byte of white space; none where no space has these bytes.
unfoldable pub next_space : Prefix → ℕ → Option Prefix
next_space start c =
    if leb 9 c && leb c 13 || c == 32
    then some start
    else if c == 0xC2
    then some c2
    else if c == 0xE1
    then some e1
    else if c == 0xE2
    then some e2
    else if c == 0xE3
    then some e3
    else none
next_space c2 c = go (c == 0x85 || c == 0xA0) start
next_space e1 c = go (c == 0x9A) e1_9a
next_space e1_9a c = go (c == 0x80) start
next_space e2 c = if c == 0x80 then some e2_80 else go (c == 0x81) e2_81
next_space e2_80 c = go (leb 0x80 c && leb c 0x8A || (c == 0xA8 || (c == 0xA9 || c == 0xAF))) start
next_space e2_81 c = go (c == 0x9F) start
next_space e3 c = go (c == 0x80) e3_80
next_space e3_80 c = go (c == 0x80) start

abbrev is_start : Prefix → Bool
is_start start = true
is_start _ = false

-- `back` is the text from where the last encoding began.
trim_left_from : Prefix → Text → Text → Text
unfolding next_space
trim_left_from p back [] = if is_start p then [] else back
trim_left_from p back (c ∷ s) = elim (next_space p c) [
  | none ↦ back
  | some q ↦ trim_left_from q (if is_start q then s else back) s
]

unfoldable pub trim_left : Text → Text
unfolding trim_left_from
trim_left s = trim_left_from start s s

all_space_from : Prefix → Text → Bool
unfolding next_space
all_space_from p [] = is_start p
all_space_from p (c ∷ s) = elim (next_space p c) [ none ↦ false | some q ↦ all_space_from q s ]

unfoldable pub trim_right : Text → Text
unfolding all_space_from
trim_right [] = []
trim_right (c ∷ s) =
    let rest = trim_right s in if all_space_from start (c ∷ s) then [] else c ∷ rest

unfoldable pub trim_space : Text → Text
unfolding trim_left trim_right
trim_space s = trim_right (trim_left s)

choice_lengths :
    (b : Bool) (s back : Text)
    → length s ≤ length back
    → (length s ≤ length (if b then s else back)) × (length (if b then s else back) ≤ length back)
choice_lengths true s back h = (omega arith, h)
choice_lengths false s back h = (h, omega arith)

length-trim_left_from :
    (p : Prefix) (back s : Text)
    → length s ≤ length back
    → length (trim_left_from p back s) ≤ length back
unfolding trim_left_from
length-trim_left_from p back [] h = ground arith
length-trim_left_from p back (c ∷ s) h = elim (Option-cases (next_space p c)) [
  | inl e ↦ rw (e, trim_left_from) (omega arith)
  | inr (q, e) ↦
      let (lo, hi) = choice_lengths (is_start q) s back (omega arith) in
      rw (e, trim_left_from) (omega (arith, length-trim_left_from q _ s lo, hi))
]

length-trim_left : (s : Text) → length (trim_left s) ≤ length s
unfolding trim_left
length-trim_left s = length-trim_left_from start s s (omega arith)

length-trim_right : (s : Text) → length (trim_right s) ≤ length s
unfolding trim_right
length-trim_right [] = omega arith
length-trim_right (c ∷ s) = ground (arith, length-trim_right s)

-- A byte that no white space has: ASCII above the space.
abbrev pub IsPlain : ℕ → Type 0
IsPlain c = (33 ≤ c) × (c ≤ 127)

plain_stops : (p : Prefix) (c : ℕ) → IsPlain c → next_space p c ≡ none
unfolding next_space
plain_stops start c h = ground arith
plain_stops c2 c h = ground arith
plain_stops e1 c h = ground arith
plain_stops e1_9a c h = ground arith
plain_stops e2 c h = ground arith
plain_stops e2_80 c h = ground arith
plain_stops e2_81 c h = ground arith
plain_stops e3 c h = ground arith
plain_stops e3_80 c h = ground arith

trim_left_from-plain :
    (p : Prefix) (back : Text) (c : ℕ) (s : Text) → IsPlain c → trim_left_from p back (c ∷ s) ≡ back
unfolding trim_left_from
trim_left_from-plain p back c s h = rw (plain_stops p c h, trim_left_from)

all_space_from-plain :
    (p : Prefix) (a : Text) (c : ℕ) (s : Text) → IsPlain c → all_space_from p (a ++ c ∷ s) ≡ false
unfolding all_space_from
all_space_from-plain p [] c s h = rw (plain_stops p c h, all_space_from)
all_space_from-plain p (d ∷ a) c s h = elim (Option-cases (next_space p d)) [
  | inl e ↦ rw (e, all_space_from)
  | inr (q, e) ↦ rw (e, all_space_from) (all_space_from-plain q a c s h)
]

trim_right-plain : (a : Text) (c : ℕ) → IsPlain c → trim_right (a ++ c ∷ []) ≡ a ++ c ∷ []
unfolding trim_right
trim_right-plain [] c h = ground (arith, all_space_from-plain start [] c [] h)
trim_right-plain (d ∷ a) c h =
    ground (arith, all_space_from-plain start (d ∷ a) c [] h, trim_right-plain a c h)

-- The text ends in a byte that is no white space.
abbrev pub EndsPlain : Text → Type 0
EndsPlain s = (a : Text) × (c : ℕ) × IsPlain c × (s ≡ a ++ c ∷ [])

-- Trimming never lengthens.
pub length-trim_space : (s : Text) → length (trim_space s) ≤ length s
unfolding trim_space
length-trim_space s = omega (arith, length-trim_right (trim_left s), length-trim_left s)

-- A text that starts and ends in bytes that are no white space stays as it is.
pub trim_space-plain :
    (c : ℕ) (s : Text) → IsPlain c → EndsPlain (c ∷ s) → trim_space (c ∷ s) ≡ c ∷ s
unfolding trim_space trim_left
trim_space-plain c s h (a, d, k, e) =
    ap trim_right (trim_left_from-plain start (c ∷ s) c s h)
    ∙ ap trim_right e
    ∙ trim_right-plain a d k
    ∙ sym e

pub trim_space-after_space :
    (c : ℕ) (s : Text) → IsPlain c → EndsPlain (c ∷ s) → trim_space (b' ' ∷ c ∷ s) ≡ c ∷ s
unfolding trim_space trim_left trim_left_from
trim_space-after_space c s h (a, d, k, e) =
    ap trim_right (trim_left_from-plain start (c ∷ s) c s h)
    ∙ ap trim_right e
    ∙ trim_right-plain a d k
    ∙ sym e

pub trim_space-nil : trim_space [] ≡ []
unfolding trim_space
trim_space-nil = refl
