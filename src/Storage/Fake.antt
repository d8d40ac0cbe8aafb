-- ===== src/Storage/Fake.antt =====
-- queryapi/internal/storage/fake/iterator.go. A tick is an integer; the row of a tick is a parameter
-- here, and `done` is what the context says before a tick.
pub mod Ticks
pub mod Instants
pub mod Refinement
pub mod Window
use telemetry.Base.{
  ℕ, zero, suc, ◌+◌, ◌-◌, ◌≡◌, Bool, true, false, not, ◌&&◌, ◌||◌, Option, none, some, List, [],
  ◌∷◌, leb, if◌then◌else◌,
}
use telemetry.Base.Int.{ℤ, pos, pos_part, neg_part, ◌+ℤ◌, ◌-ℤ◌, ltb_ℤ, leb_ℤ, quot, rem}
use telemetry.Base.Text.{Text}
use telemetry.Base.Assoc.{lookup}
use telemetry.Storage.Matchers.{LabelMatcher, matches, LineFilter, line_matches}
use telemetry.Storage.Clickhouse.Query.{LogQuery, Direction, forward, backward}
use telemetry.Storage.Clickhouse.Rows.{LabelSet, Row}

-- A missing label reads as empty.
abbrev pub value_of : Option Text → Text
value_of none = []
value_of (some v) = v

unfoldable pub matches_labels : List LabelMatcher → LabelSet → Bool
unfolding lookup matches
matches_labels [] labels = true
matches_labels (m ∷ ms) labels =
    let rest = matches_labels ms labels in
    if not (matches m (value_of (lookup m.label labels))) then false else rest

unfoldable pub matches_line : List LineFilter → Text → Bool
unfolding line_matches
matches_line [] line = true
matches_line (f ∷ fs) line =
    let rest = matches_line fs line in if not (line_matches f line) then false else rest

unfoldable pub ceil_div : ℤ → ℕ → ℤ
ceil_div a b = if ltb_ℤ (pos 0) (rem a b) then quot a b +ℤ pos 1 else quot a b

pub record Iterator (Error : Type 0) : Type 0 where
  pub query : LogQuery
  pub next : ℤ
  pub last : ℤ
  pub direction : Direction
  pub emitted : ℕ
  pub current : Option Row
  pub err : Option Error

abbrev pub oriented : Direction → ℤ → ℤ → ℤ × ℤ
oriented forward first final = (first, final)
oriented backward first final = (final, first)

abbrev pub first_iterator : {Error : Type 0} → ℕ → LogQuery → Iterator Error
first_iterator interval q =
    let first = ceil_div q.range.start interval in
    let final = quot (q.range.end -ℤ pos 1) interval in
    let (next, last) = oriented q.direction first final in
    record {
      query = q;
      next = next;
      last = last;
      direction = q.direction;
      emitted = 0;
      current = none;
      err = none;
    }

-- none is the panic of a division by an interval of 0.
unfoldable pub new_iterator : {Error : Type 0} → ℕ → LogQuery → Option (Iterator Error)
unfolding ceil_div
new_iterator zero q = none
new_iterator (suc nanos) q = some (first_iterator (suc nanos) q)

-- The field step, added.
unfoldable pub stepped : Direction → ℤ → ℤ
stepped forward i = i +ℤ pos 1
stepped backward i = i -ℤ pos 1

abbrev pub reaches : Direction → ℤ → ℤ → Bool
reaches forward next last = leb_ℤ next last
reaches backward next last = leb_ℤ last next

-- How many ticks there are from the next one to the last one.
abbrev pub span : Direction → ℤ → ℤ → ℕ
span forward next last = (pos_part last + neg_part next + 1) - (pos_part next + neg_part last)
span backward next last = (pos_part next + neg_part last + 1) - (pos_part last + neg_part next)

-- Not continued with the next tick.
unfoldable pub keeps : LogQuery → Row → Bool
unfolding matches_labels matches_line
keeps q row =
    not (not (matches_labels q.matchers row.labels) || not (matches_line q.filters row.line))

module _ {Error : Type 0} where
  abbrev pub in_range : Iterator Error → Bool
  in_range it = reaches it.direction it.next it.last

  abbrev pub remaining : Iterator Error → ℕ
  remaining it = span it.direction it.next it.last

  abbrev pub has_failed : Option Error → Bool
  has_failed none = false
  has_failed (some e) = true

  -- Next's first test.
  abbrev pub is_over : Iterator Error → Bool
  is_over it =
      has_failed it.err || (ltb_ℤ (pos 0) it.query.limit && leb_ℤ it.query.limit (pos it.emitted))

  module _ (row_at : ℤ → Row) (done : ℤ → Option Error) where
    abbrev pub passed : Iterator Error → Iterator Error
    passed it = record it { next = stepped it.direction it.next }

    abbrev pub found : Iterator Error → Iterator Error
    found it = record (passed it) { current = some (row_at it.next); emitted = suc it.emitted }

    -- Next's loop, on fuel.
    unfoldable pub seek : ℕ → Iterator Error → Bool × Iterator Error
    unfolding keeps stepped
    seek zero it = (false, it)
    seek (suc fuel) it =
        let further = seek fuel (passed it) in
        if in_range it
        then elim (done it.next) [
          | some e ↦ (false, record it { err = some e })
          | none ↦ if keeps it.query (row_at it.next) then (true, found it) else further
        ]
        else (false, it)

    unfoldable pub next_row : Iterator Error → Bool × Iterator Error
    unfolding seek
    next_row it = if is_over it then (false, it) else seek (remaining it) it

    abbrev pub cons_current : Option Row → List Row × Iterator Error → List Row × Iterator Error
    cons_current none p = p
    cons_current (some row) (rows, it) = (row ∷ rows, it)

    -- `for it.Next() { rows = append(rows, it.Row()) }`, on fuel.
    unfoldable pub drain : ℕ → Iterator Error → List Row × Iterator Error
    unfolding next_row
    drain zero it = ([], it)
    drain (suc fuel) it =
        let (more, it') = next_row it in
        let rest = drain fuel it' in if more then cons_current it'.current rest else ([], it')

    abbrev pub read_all : Iterator Error → List Row × Option Error
    read_all it = let (rows, end) = drain (suc (remaining it)) it in (rows, end.err)

    -- What a caller of the iterator reads: its rows, and the error behind them.
    unfoldable pub read_rows : ℕ → LogQuery → Option (List Row × Option Error)
    unfolding drain new_iterator
    read_rows interval q = elim (new_iterator interval q) [
      | none ↦ none
      | some it ↦ some (read_all it)
    ]
