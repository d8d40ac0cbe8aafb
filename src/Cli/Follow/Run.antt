-- ===== src/Cli/Follow/Run.antt =====
-- cli/logs/follow.go: Run. An interval is a number of nanoseconds.
use telemetry.Base.{
  ℕ, ◌+◌, ◌⊎◌, inl, inr, Bool, true, false, not, ◌&&◌, Option, none, some, List, [], ◌∷◌, ◌++◌, map,
  length, leb, min, max, if◌then◌else◌,
}
use telemetry.Base.Int.{ℤ, pos, ◌+ℤ◌, ◌-ℤ◌, ltb_ℤ}
use telemetry.Base.Text.{Text}
use telemetry.Cli.Entries.{Entry, Query, forward, max_limit, QueryError, permanent}
use telemetry.Cli.Follow.{follow_overlap, Follower, admit}

abbrev pub follow_min_interval : ℕ
follow_min_interval = 500000000

abbrev pub follow_max_interval : ℕ
follow_max_interval = 2000000000

abbrev pub follow_backoff_step : ℕ
follow_backoff_step = 250000000

abbrev pub follow_end_slack : ℕ
follow_end_slack = 60000000000

abbrev pub follow_error_interval : ℕ
follow_error_interval = 10000000000

-- What a request brings: the context is done, an error, or entries.
pub data Outcome : Type 0 where
  cancelled : Outcome
  failed : QueryError → Outcome
  answered : List Entry → Outcome

-- What Run does: waits, asks, reports, and passes entries on.
pub data Event : Type 0 where
  waits : ℕ → Event
  asks : Query → Event
  lost : QueryError → Event
  reconnected : Event
  emits : Entry → Event

-- The surroundings of one round: the clock, and what a request brings.
pub record Poll : Type 0 where
  pub now : ℤ
  pub answer : Query → Outcome

pub record Polling : Type 0 where
  pub follower : Follower
  pub interval : ℕ
  pub failing : Bool
  pub skip_overlap : Bool

-- How Run goes on: with another round, or it returns; none is nil.
abbrev pub Next : Type 0
Next = List Event × (Polling ⊎ Option QueryError)

abbrev pub is_none_fresh : List Entry → Bool
is_none_fresh [] = true
is_none_fresh (e ∷ fresh) = false

unfoldable pub interval_after : Bool → Bool → ℕ → ℕ
interval_after full none_fresh interval =
    if full
    then 0
    else if not none_fresh
    then follow_min_interval
    else min (max interval follow_min_interval + follow_backoff_step) follow_max_interval

abbrev pub report : Bool → Event → List Event
report true event = event ∷ []
report false event = []

module _ (format_int : ℤ → Text) (query : Text) (since : ℤ) where
  abbrev pub poll_start : Polling → ℤ
  poll_start p =
      if ltb_ℤ (pos 0) p.follower.cursor
      then if p.skip_overlap then p.follower.cursor else p.follower.cursor -ℤ pos follow_overlap
      else since

  abbrev pub request : Polling → ℤ → Query
  request p now = record {
    query = query;
    start = poll_start p;
    end = now +ℤ pos follow_end_slack;
    limit = max_limit;
    direction = forward;
  }

  -- Behind the entries of an answer and what is fresh of them.
  abbrev pub after_answer : Polling → List Entry → Follower × List Entry → Next
  after_answer p entries (f, fresh) =
      let full = leb max_limit (length entries) in
      (
        report p.failing reconnected ++ map emits fresh,
        inl (record {
          follower = f;
          interval = interval_after full (is_none_fresh fresh) p.interval;
          failing = false;
          skip_overlap = full && is_none_fresh fresh;
        }),
      )

  unfoldable pub after_request : Polling → Outcome → Next
  unfolding admit interval_after permanent
  after_request p cancelled = ([], inr none)
  after_request p (failed e) = if permanent e then ([], inr (some e)) else (
    report (not p.failing) (lost e),
    inl (record p { interval = follow_error_interval; failing = true }),
  )
  after_request p (answered entries) = after_answer p entries (admit format_int p.follower entries)

  abbrev before : List Event → List Event × Option QueryError → List Event × Option QueryError
  before events (later, end) = (events ++ later, end)

  -- The rounds until the context is done, which it is behind the last poll at the latest.
  unfoldable pub rounds : Polling → List Poll → List Event × Option QueryError
  unfolding after_request
  rounds p [] = ([], none)
  rounds p (poll ∷ polls) =
      let q = request p poll.now in
      let (events, next) = after_request p (poll.answer q) in
      before (waits p.interval ∷ asks q ∷ events)
        (elim next [ inl p' ↦ rounds p' polls | inr end ↦ ([], end) ])

  unfoldable pub run : Follower → List Poll → List Event × Option QueryError
  unfolding rounds
  run f polls =
      rounds (record { follower = f; interval = 0; failing = false; skip_overlap = false }) polls
