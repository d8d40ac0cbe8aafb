-- ===== src/Cli/Follow.antt =====
-- cli/logs/follow.go: what the follower remembers. A time is a number of nanoseconds since 1970.
pub mod Memory
pub mod Run
pub mod Emitted
pub mod Once
pub mod Complete
use telemetry.Base.{
  ℕ, ◌+◌, ◌≡◌, Bool, true, false, not, ◌&&◌, Option, none, some, List, [], ◌∷◌, ◌++◌, map, length,
  leb, min, max, if◌then◌else◌,
}
use telemetry.Base.Int.{ℤ, pos, ◌+ℤ◌, ◌-ℤ◌, ltb_ℤ}
use telemetry.Base.Text.{Text}
use telemetry.Base.Assoc.{lookup, insert}
use telemetry.Cli.Entries.{Entry, Query, forward, max_limit, key}

abbrev pub second : ℕ
second = 1000000000

abbrev pub follow_overlap : ℕ
follow_overlap = 10000000000

-- What the follower remembers: the newest time, and the keys that it has passed on.
pub record Follower : Type 0 where
  pub cursor : ℤ
  pub seen : List (Text × ℤ)
  pub floor : ℤ

abbrev pub new : Follower
new = record { cursor = pos 0; seen = []; floor = pos 0 }

abbrev pub max_ℤ : ℤ → ℤ → ℤ
max_ℤ a b = if ltb_ℤ a b then b else a

-- The loop that deletes what is older than the cutoff.
unfoldable pub pruned : ℤ → List (Text × ℤ) → List (Text × ℤ)
pruned cutoff [] = []
pruned cutoff ((k, ts) ∷ seen) =
    let rest = pruned cutoff seen in if ltb_ℤ ts cutoff then rest else (k, ts) ∷ rest

abbrev pub cutoff : Follower → ℤ
cutoff f = f.cursor -ℤ pos (follow_overlap + second)

abbrev pub forget : Follower → Follower
forget f = record f { seen = pruned (cutoff f) f.seen }

abbrev pub and_fresh : Entry → Follower × List Entry → Follower × List Entry
and_fresh e (f, fresh) = (f, e ∷ fresh)

module _ (format_int : ℤ → Text) where
  abbrev pub recorded : Follower → Entry → Follower
  recorded f e = record f {
    seen = insert (key format_int e) e.time f.seen;
    cursor = max_ℤ f.cursor e.time;
  }

  -- The loop over the entries.
  unfoldable pub admit_from : Follower → List Entry → Follower × List Entry
  unfolding key
  admit_from f [] = (f, [])
  admit_from f (e ∷ entries) =
      let passed = admit_from f entries in
      let taken = and_fresh e (admit_from (recorded f e) entries) in
      if ltb_ℤ e.time f.floor
      then passed
      else elim (lookup (key format_int e) f.seen) [ some _ ↦ passed | none ↦ taken ]

  unfoldable pub admit : Follower → List Entry → Follower × List Entry
  unfolding admit_from
  admit f entries = let (g, fresh) = admit_from f entries in (forget g, fresh)

  unfoldable pub backlog : Follower → List Entry → Follower
  unfolding admit
  backlog f entries = let (g, _) = admit f entries in record g { floor = g.cursor }

  -- One call of Backlog for each line that the command shows before it follows, and the entries
  -- that these calls record.
  unfoldable pub backlogs : Follower → List Entry → Follower × List Entry
  unfolding backlog
  backlogs f [] = (f, [])
  backlogs f (e ∷ shown) =
      let (g, recorded) = backlogs (backlog f (e ∷ [])) shown in
      (g, (admit f (e ∷ [])).1 ++ recorded)
