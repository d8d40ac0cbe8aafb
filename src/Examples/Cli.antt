-- ===== src/Examples/Cli.antt =====
-- The follower, with numbers written in unary and a server of two lines.
use telemetry.Base.{
  ℕ, zero, suc, ◌≡◌, ◌≢◌, refl, ap, List, [], ◌∷◌, ◌++◌, if◌then◌else◌, arith, Bool-cases, inl, inr,
  All,
}
use telemetry.Base.Int.{ℤ, pos, negsuc, ◌-ℤ◌, ltb_ℤ}
use telemetry.Base.Text.{Text, lit, text_eq}
use telemetry.Base.Assoc.{lookup, insert}
use telemetry.Cli.Entries.{Entry, Query}
use telemetry.Cli.Follow.{second, new, admit, backlogs, pruned}
use telemetry.Cli.Follow.Run.{answered, Poll, run}
use telemetry.Cli.Follow.Emitted.{emitted}
use telemetry.Cli.Follow.Once.{IsWithin, run-NewTo}
use telemetry.Cli.Follow.Memory.{NewTo}
use telemetry.Cli.Follow.Complete.{IsPassed, admit-IsPassed}

unfoldable pub ones : ℕ → Text
ones zero = []
ones (suc n) = b'1' ∷ ones n

unfoldable pub unary : ℤ → Text
unfolding ones
unary (pos n) = b'+' ∷ ones n
unary (negsuc n) = b'-' ∷ ones n

tail_of : (c d : ℕ) (s t : Text) → c ∷ s ≡ d ∷ t → (c ≡ d) × (s ≡ t)
tail_of c d s t e = (cc, cc)

pub ones_injective : (m n : ℕ) → ones m ≡ ones n → m ≡ n
unfolding ones
ones_injective zero zero e = refl
ones_injective zero (suc n) e = absurd (cc)
ones_injective (suc m) zero e = absurd (cc)
ones_injective (suc m) (suc n) e = ap suc (ones_injective m n (tail_of _ _ _ _ e).1)

unary_injective : (a b : ℤ) → unary a ≡ unary b → a ≡ b
unfolding unary
unary_injective (pos m) (pos n) e = ap pos (ones_injective m n (tail_of _ _ _ _ e).1)
unary_injective (pos m) (negsuc n) e = absurd (omega (arith, (tail_of _ _ _ _ e).0))
unary_injective (negsuc m) (pos n) e = absurd (omega (arith, (tail_of _ _ _ _ e).0))
unary_injective (negsuc m) (negsuc n) e = ap negsuc (ones_injective m n (tail_of _ _ _ _ e).1)

ones_nonzero : (n : ℕ) → All (λ c. c ≢ 0) (ones n)
unfolding ones
ones_nonzero zero = tt
ones_nonzero (suc n) = (λ e. absurd (omega arith), ones_nonzero n)

unary_nonzero : (a : ℤ) → All (λ c. c ≢ 0) (unary a)
unfolding unary
unary_nonzero (pos n) = (λ e. absurd (omega arith), ones_nonzero n)
unary_nonzero (negsuc n) = (λ e. absurd (omega arith), ones_nonzero n)

abbrev line_at : ℕ → Text → Entry
line_at n text = record { time = pos n; labels = []; line = text; stream = lit "s" }

abbrev shown : List Entry
shown = line_at 5 (lit "a") ∷ []

abbrev newer : List Entry
newer = line_at 6 (lit "b") ∷ []

abbrev both_lines : List Entry
both_lines = line_at 5 (lit "a") ∷ line_at 6 (lit "b") ∷ []

-- The lines that a query's window holds.
abbrev windowed : Query → List Entry → List Entry
windowed q [] = []
windowed q (e ∷ es) =
    let rest = windowed q es in if ltb_ℤ (q.start -ℤ pos second) e.time then e ∷ rest else rest

windowed-IsWithin : (q : Query) (es : List Entry) → IsWithin q (answered (windowed q es))
windowed-IsWithin q [] = tt
windowed-IsWithin q (e ∷ es) = elim (Bool-cases (ltb_ℤ (q.start -ℤ pos second) e.time)) [
  | inl young ↦ rw young (ground arith, windowed-IsWithin q es)
  | inr old ↦ rw old (windowed-IsWithin q es)
]

abbrev server : List Entry → Poll
server es = record { now = pos 9; answer = λ q. answered (windowed q es) }

run-NewTo_example : NewTo unary [] (
    (backlogs unary new shown).1
    ++ emitted
        (run unary
          (lit "{}")
          (pos 0)
          (backlogs unary new shown).0
          (server both_lines ∷ server newer ∷ [])).0)
run-NewTo_example =
    run-NewTo unary unary_injective unary_nonzero (lit "{}") (pos 0) shown
      (server both_lines ∷ server newer ∷ [])
      (λ q. windowed-IsWithin q both_lines, (λ q. windowed-IsWithin q newer, tt))

-- The line that was shown comes once, and the new one once.
two_polls :
    emitted
      (run unary
        (lit "{}")
        (pos 0)
        (backlogs unary new shown).0
        (server both_lines ∷ server newer ∷ [])).0
    ≡ newer
unfolding run backlogs emitted lit unary ◌-ℤ◌ lookup pruned insert text_eq
two_polls = refl

admit-IsPassed_example : All (IsPassed unary new (admit unary new both_lines).1) both_lines
admit-IsPassed_example = admit-IsPassed unary new both_lines
