-- ===== src/Storage/Fake/Refinement.antt =====
-- The fake store's iterator yields the rows of a window's ticks that the query keeps, up to its limit.
use telemetry.Base.{
  ℕ, zero, suc, ◌-◌, ◌≤◌, ◌<◌, ◌≡◌, refl, sym, ap, ◌∙◌, Bool, true, false, Option, none, some, List,
  [], ◌∷◌, map, take, if◌then◌else◌, arith, Bool-cases, inl, inr, ltb, ltb→lt,
}
use telemetry.Base.Int.{ℤ, pos}
use telemetry.Storage.Clickhouse.Query.{LogQuery}
use telemetry.Storage.Clickhouse.Rows.{Row}
use telemetry.Storage.Fake.{
  new_iterator, first_iterator, Iterator, stepped, remaining, keeps, passed, seek, next_row, drain,
  cons_current, read_rows,
}
use telemetry.Storage.Fake.Ticks.{
  ticks, filtered, span-reaches, span-stepped, take-nil, ltb-le, minus_zero, pair_path, one_fewer,
  none_more, open_test, over_test, rows_from, rows_from-suc, window_ticks,
}

module _ {Error : Type 0} (row_at : ℤ → Row) where
  -- The context is never done.
  abbrev always : ℤ → Option Error
  always i = none

  abbrev pub rows_left : Iterator Error → List Row
  rows_left it = rows_from row_at it.query it.direction (remaining it) it.next

  -- Next's loop finds the first of the rows, or there is none.
  abbrev Finds : ℕ → Iterator Error → Bool × Iterator Error → Type 0
  Finds n it (false, it') =
      (rows_from row_at it.query it.direction n it.next ≡ []) × (it'.err ≡ it.err)
  Finds n it (true, it') =
      (row : Row) × (it'.current ≡ some row)
      × (rows_from row_at it.query it.direction n it.next ≡ row ∷ rows_left it')
      × (it'.query ≡ it.query)
      × (it'.emitted ≡ suc it.emitted)
      × (it'.err ≡ it.err)
      × (remaining it' < n)

  Finds-passed :
      (n : ℕ) (it : Iterator Error) (p : Bool × Iterator Error)
      → rows_from row_at it.query it.direction (suc n) it.next
        ≡ rows_from row_at it.query it.direction n (stepped it.direction it.next)
      → Finds n (passed row_at always it) p
      → Finds (suc n) it p
  Finds-passed n it (false, it') same (none_left, err) = (same ∙ none_left, err)
  Finds-passed n it (true, it') same (row, current, first, query, emitted, err, less) =
      (row, current, same ∙ first, query, emitted, err, omega arith)

  seek-Finds :
      (n : ℕ) (it : Iterator Error) → remaining it ≡ n → Finds n it (seek row_at always n it)
  unfolding seek rows_from ticks filtered
  seek-Finds zero it h = (refl, refl)
  seek-Finds (suc n) it h =
      let left = span-stepped it.direction it.next it.last n h in
      let first = rows_from-suc row_at it.query it.direction n it.next in
      elim (Bool-cases (keeps it.query (row_at it.next))) [
        | inl kept ↦
            rw (kept, span-reaches it.direction it.next it.last n h, seek)
              (
                row_at it.next,
                refl,
                first.0 kept
                    ∙ ap
                        (λ k.
                          row_at it.next
                          ∷ rows_from row_at it.query it.direction k (stepped it.direction it.next))
                        (sym left),
                refl,
                refl,
                refl,
                omega arith,
              )
        | inr dropped ↦
            rw (dropped, span-reaches it.direction it.next it.last n h, seek)
              (Finds-passed n it _ (first.1 dropped) (seek-Finds n (passed row_at always it) left))
      ]

  next_row-over :
      (it : Iterator Error) (limit : ℕ)
      → it.query.limit ≡ pos limit
      → 1 ≤ limit
      → it.err ≡ none
      → (it.emitted < limit → next_row row_at always it ≡ seek row_at always (remaining it) it)
        × (limit ≤ it.emitted → next_row row_at always it ≡ (false, it))
  unfolding next_row
  next_row-over it limit l positive e = (
    λ less. rw (e, l, open_test limit it.emitted positive less, next_row),
    λ more. rw (e, l, over_test limit it.emitted positive more, next_row),
  )

  drain-suc :
      (fuel : ℕ) (it : Iterator Error) (p : Bool × Iterator Error)
      → next_row row_at always it ≡ p
      → drain row_at always (suc fuel) it ≡ (
          if p.0
          then cons_current row_at always p.1.current (drain row_at always fuel p.1)
          else ([], p.1))
  unfolding drain
  drain-suc fuel it p e = rw e

  -- What is drained, up to a limit.
  abbrev Drains : ℕ → ℕ → Iterator Error → Type 0
  Drains limit fuel it =
      ((drain row_at always fuel it).0 ≡ take (limit - it.emitted) (rows_left it))
      × ((drain row_at always fuel it).1.err ≡ none)

  drain-found :
      (limit fuel : ℕ) (it : Iterator Error) (p : Bool × Iterator Error)
      → it.err ≡ none
      → it.emitted < limit
      → next_row row_at always it ≡ p
      → Finds (remaining it) it p
      → ((it' : Iterator Error)
          → it'.query ≡ it.query
          → it'.err ≡ none
          → it'.emitted ≡ suc it.emitted
          → remaining it' < remaining it
          → Drains limit fuel it')
      → Drains limit (suc fuel) it
  drain-found limit fuel it (false, it') e less at (none_left, err) goes_on =
      let ended = drain-suc fuel it (false, it') at in
      (
        ap (λ d. d.0) ended
            ∙ sym (ap (take (limit - it.emitted)) none_left ∙ take-nil (limit - it.emitted)),
        ap (λ d. d.1.err) ended ∙ err ∙ e,
      )
  drain-found limit fuel it (true, it') e less at (row, current, first, query, emitted, err, fewer)
        goes_on =
      let (rows, ends) = goes_on it' query (err ∙ e) emitted fewer in
      let rest = drain row_at always fuel it' in
      let found =
        drain-suc fuel it (true, it') at ∙ ap (λ c. cons_current row_at always c rest) current in
      let one_less = one_fewer limit it.emitted it'.emitted less emitted in
      (
        ap (λ d. d.0) found
            ∙ ap (λ rs. row ∷ rs) rows
            ∙ sym (
                ap (λ n. take n (rows_left it)) one_less
                ∙ ap (take (suc (limit - it'.emitted))) first),
        ap (λ d. d.1.err) found ∙ ends,
      )

  drain-Drains :
      (limit fuel : ℕ) (it : Iterator Error)
      → it.query.limit ≡ pos limit
      → 1 ≤ limit
      → it.err ≡ none
      → remaining it < fuel
      → Drains limit fuel it
  drain-Drains limit zero it l p e h = absurd (omega arith)
  drain-Drains limit (suc fuel) it l p e h = elim (Bool-cases (ltb it.emitted limit)) [
    | inr over ↦
        let ended =
          drain-suc fuel it (false, it)
            ((next_row-over it limit l p e).1 (ltb-le it.emitted limit over)) in
        (
          ap (λ d. d.0) ended
              ∙ sym (
                  ap (λ n. take n (rows_left it))
                    (none_more limit it.emitted (ltb-le it.emitted limit over))),
          ap (λ d. d.1.err) ended ∙ e,
        )
    | inl less ↦
        drain-found limit fuel it _ e (ltb→lt _ _ less)
          ((next_row-over it limit l p e).0 (ltb→lt _ _ less)) (seek-Finds (remaining it) it refl)
          (λ it' q e' m r. drain-Drains limit fuel it' (ap (λ x. x.limit) q ∙ l) p e' (omega arith))
  ]

-- For a query with a positive limit and a context that is not done, what is read off the iterator
-- of the query are the rows of the window's ticks, in the direction's order, that match every label
-- matcher and line filter, as many as the limit allows, and no error; the loops reach their ends.
pub read_rows_lem :
    {Error : Type 0} (row_at : ℤ → Row) (nanos limit : ℕ) (q : LogQuery)
    → q.limit ≡ pos limit
    → 1 ≤ limit
    → read_rows {Error = Error} row_at (λ i. none) (suc nanos) q
      ≡ some (take limit (filtered (keeps q) (map row_at (window_ticks (suc nanos) q))), none)
unfolding read_rows new_iterator window_ticks rows_from
read_rows_lem {Error = Error} row_at nanos limit q l p =
    let it = first_iterator {Error = Error} (suc nanos) q in
    let (rows, ends) = drain-Drains row_at limit (suc (remaining it)) it l p refl (omega arith) in
    ap some (pair_path (rows ∙ ap (λ n. take n (rows_left row_at it)) (minus_zero limit)) ends)
