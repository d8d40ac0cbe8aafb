-- ===== src/Cli/Follow/Once.antt =====
-- The follower passes no entry on twice, however its polls overlap.
use telemetry.Base.{
  ◌+◌, ◌≡◌, ◌≢◌, refl, sym, ap, subst, inl, inr, not, Option, List, [], ◌∷◌, ◌++◌, arith,
  Bool-cases, All,
}
use telemetry.Base.Int.{ℤ, pos, pos_part, neg_part, ◌-ℤ◌, ◌≤ℤ◌, ◌<ℤ◌, ltb_ℤ}
use telemetry.Base.Text.{Text}
use telemetry.Cli.Entries.{Entry, Query, key, key_time, QueryError, permanent}
use telemetry.Cli.Follow.{second, follow_overlap, Follower, new, cutoff, admit, backlog, backlogs}
use telemetry.Cli.Follow.Memory.{
  minus_parts, ltb_ℤ-false, NewTo, NewTo-append, onto, onto-append, Remembers, admit-Admits,
}
use telemetry.Cli.Follow.Run.{
  Outcome, cancelled, failed, answered, Event, waits, asks, Poll, Polling, Next, poll_start,
  request, after_request, rounds, run,
}
use telemetry.Cli.Follow.Emitted.{emitted, emitted-append, emitted-reconnected, emitted-lost}

-- An answer has no entry from before its start, which the API truncates to whole seconds.
abbrev pub IsWithin : Query → Outcome → Type 0
IsWithin q cancelled = Unit
IsWithin q (failed e) = Unit
IsWithin q (answered entries) = All (λ e. (q.start -ℤ pos second) <ℤ e.time) entries

abbrev pub IsWindowed : Poll → Type 0
IsWindowed poll = (q : Query) → IsWithin q (poll.answer q)

module _ (format_int : ℤ → Text)
    (key_time : (d e : Entry) → key format_int d ≡ key format_int e → d.time ≡ e.time) where
  abbrev Follows : Follower → List Entry → Type 0
  Follows f history = Remembers format_int (cutoff f) f.seen history × (pos 0 ≤ℤ f.floor)

  module _ (query : Text) (since : ℤ) where
    covered :
        (p : Polling) (t : ℤ)
        → pos 0 ≤ℤ p.follower.floor
        → p.follower.floor ≤ℤ t
        → (poll_start format_int query since p -ℤ pos second) <ℤ t
        → cutoff p.follower ≤ℤ t
    covered p t z k h =
        let cursor = p.follower.cursor in
        let all = minus_parts cursor (follow_overlap + second) in
        elim (Bool-cases (ltb_ℤ (pos 0) cursor)) [
          | inr e ↦ omega (arith, all, ltb_ℤ-false (pos 0) cursor e)
          | inl e ↦ elim (Bool-cases p.skip_overlap) [
            | inl s ↦ omega (arith, all, minus_parts cursor second, rw (e, s) at h)
            | inr s ↦ omega (
              arith,
              all,
              minus_parts cursor follow_overlap,
              minus_parts (cursor -ℤ pos follow_overlap) second,
              rw (e, s) at h,
            )
          ]
        ]

    -- What the window holds is younger than what is forgotten.
    window_covers :
        (p : Polling) (now : ℤ) (entries : List Entry)
        → pos 0 ≤ℤ p.follower.floor
        → IsWithin (request format_int query since p now) (answered entries)
        → All (λ e. p.follower.floor ≤ℤ e.time → cutoff p.follower ≤ℤ e.time) entries
    window_covers p now [] z h = tt
    window_covers p now (e ∷ entries) z (h, hs) =
        (λ k. covered p e.time z k h, window_covers p now entries z hs)

    abbrev Goes : List Entry → Next → Type 0
    Goes history (events, inl p) =
        NewTo format_int history (emitted events)
        × Follows p.follower (onto format_int history (emitted events))
    Goes history (events, inr end) = NewTo format_int history (emitted events)

    after_request-Goes :
        (p : Polling) (now : ℤ) (outcome : Outcome) (history : List Entry)
        → Follows p.follower history
        → IsWithin (request format_int query since p now) outcome
        → Goes history (after_request format_int query since p outcome)
    unfolding after_request emitted
    after_request-Goes p now cancelled history f w = tt
    after_request-Goes p now (failed e) history f w = elim (Bool-cases (permanent e)) [
      | inl s ↦ rw s tt
      | inr s ↦ rw (s, emitted-lost (not p.failing) e) (tt, f)
    ]
    after_request-Goes p now (answered entries) history (f, z) w =
        let (fresh, memory, grows, floor) =
          admit-Admits format_int key_time (cutoff p.follower) p.follower history entries f
            (omega arith) (window_covers p now entries z w) in
        rw (emitted-reconnected p.failing (admit format_int p.follower entries).1)
          (fresh, (memory, subst (λ t. pos 0 ≤ℤ t) (sym floor) z))

    later : Next → List Poll → List Event
    later (events, inl p) polls = events ++ (rounds format_int query since p polls).0
    later (events, inr end) polls = events ++ []

    later-parts :
        (next : Next) (polls : List Poll)
        → later next polls
          ≡ next.0
            ++ (elim next.1 as (λ _. List Event × Option QueryError) [
              | inl p' ↦ rounds format_int query since p' polls
              | inr end ↦ ([], end)
            ]).0
    unfolding later
    later-parts (events, inl p) polls = refl
    later-parts (events, inr end) polls = refl

    later-NewTo :
        (next : Next) (history : List Entry) (polls : List Poll)
        → Goes history next
        → ((p : Polling) (h : List Entry)
            → Follows p.follower h
            → NewTo format_int h (emitted (rounds format_int query since p polls).0))
        → NewTo format_int history (emitted (later next polls))
    unfolding later emitted
    later-NewTo (events, inl p) history polls (new, goes) continue =
        rw (emitted-append events (rounds format_int query since p polls).0)
          (NewTo-append format_int history (emitted events) _ new (continue p _ goes))
    later-NewTo (events, inr end) history polls new continue =
        rw (emitted-append events []) (NewTo-append format_int history (emitted events) [] new tt)

    rounds-later :
        (p : Polling) (poll : Poll) (polls : List Poll)
        → (rounds format_int query since p (poll ∷ polls)).0
          ≡ waits p.interval
            ∷ asks (request format_int query since p poll.now)
            ∷ later
                (after_request format_int query since p
                  (poll.answer (request format_int query since p poll.now)))
                polls
    unfolding rounds later
    rounds-later p poll polls =
        ap (λ es. waits p.interval ∷ asks (request format_int query since p poll.now) ∷ es)
          (sym (
            later-parts
              (after_request format_int query since p
                (poll.answer (request format_int query since p poll.now)))
              polls))

    rounds-NewTo :
        (p : Polling) (history : List Entry) (polls : List Poll)
        → Follows p.follower history
        → All IsWindowed polls
        → NewTo format_int history (emitted (rounds format_int query since p polls).0)
    unfolding rounds emitted
    rounds-NewTo p history [] f w = tt
    rounds-NewTo p history (poll ∷ polls) f (w, ws) =
        let q = request format_int query since p poll.now in
        rw (rounds-later p poll polls) (
          later-NewTo (after_request format_int query since p (poll.answer q)) history polls
            (after_request-Goes p poll.now (poll.answer q) history f (w q))
            (λ p' h g. rounds-NewTo p' h polls g ws))

  -- The floor of a follower before it runs.
  abbrev Starts : Follower → List Entry → Type 0
  Starts f history =
      Remembers format_int (cutoff f) f.seen history × (pos 0 ≤ℤ f.floor) × (f.floor ≡ f.cursor)

  not_forgotten :
      (f : Follower) (entries : List Entry)
      → f.floor ≡ f.cursor
      → All (λ e. f.floor ≤ℤ e.time → cutoff f ≤ℤ e.time) entries
  not_forgotten f [] s = tt
  not_forgotten f (e ∷ entries) s = (
    λ k.
        omega (arith, ap pos_part s, ap neg_part s, minus_parts f.cursor (follow_overlap + second)),
    not_forgotten f entries s,
  )

  backlog-Starts :
      (f : Follower) (history entries : List Entry)
      → Starts f history
      → NewTo format_int history (admit format_int f entries).1
        × Starts
            (backlog format_int f entries)
            (onto format_int history (admit format_int f entries).1)
  unfolding backlog
  backlog-Starts f history entries (h, z, s) =
      let (fresh, memory, grows, floor) =
        admit-Admits format_int key_time (cutoff f) f history entries h (omega arith)
          (not_forgotten f entries s) in
      (fresh, (memory, omega (arith, grows, ap pos_part s, ap neg_part s), refl))

  backlogs-Starts :
      (f : Follower) (history shown : List Entry)
      → Starts f history
      → NewTo format_int history (backlogs format_int f shown).1
        × Starts
            (backlogs format_int f shown).0
            (onto format_int history (backlogs format_int f shown).1)
  unfolding backlogs
  backlogs-Starts f history [] s = (tt, s)
  backlogs-Starts f history (e ∷ shown) s =
      let (new, starts) = backlog-Starts f history (e ∷ []) s in
      let (more, ends) = backlogs-Starts (backlog format_int f (e ∷ [])) _ shown starts in
      (
        NewTo-append format_int history _ _ new more,
        subst (Starts (backlogs format_int (backlog format_int f (e ∷ [])) shown).0)
            (sym (
              onto-append format_int history (admit format_int f (e ∷ [])).1
                (backlogs format_int (backlog format_int f (e ∷ [])) shown).1))
            ends,
      )

-- A follower that has recorded the lines shown so far, in their order, and then runs passes on no
-- entry with the key of one that it has recorded or passed on before, however its polls overlap,
-- fail and recover. It relies on answers that hold nothing from before their start but for the
-- start's truncation to the second, and on decimal numbers that determine the number and have no
-- zero byte.
pub run-NewTo :
    (format_int : ℤ → Text)
    → ((a b : ℤ) → format_int a ≡ format_int b → a ≡ b)
    → ((a : ℤ) → All (λ c. c ≢ 0) (format_int a))
    → (query : Text) (since : ℤ) (shown : List Entry) (polls : List Poll) → All IsWindowed polls
    → NewTo format_int [] (
        (backlogs format_int new shown).1
        ++ emitted (run format_int query since (backlogs format_int new shown).0 polls).0)
unfolding run
run-NewTo format_int injective digits query since shown polls w =
    let same = key_time format_int injective digits in
    let (first, starts) = backlogs-Starts format_int same new [] shown (tt, omega arith, refl) in
    NewTo-append format_int [] _ _ first
      (rounds-NewTo format_int same query since _ _ polls (starts.0, starts.1) w)
