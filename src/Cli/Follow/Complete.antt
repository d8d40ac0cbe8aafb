-- ===== src/Cli/Follow/Complete.antt =====
-- The follower leaves out only what is older than the backlog and what it remembers.
use telemetry.Base.{
  ◌≡◌, sym, ◌∙◌, subst, true, false, none, List, [], ◌∷◌, map, arith, Bool-cases, Option-cases, inl,
  inr, All, All-imp,
}
use telemetry.Base.Int.{ℤ, ◌≤ℤ◌, ltb_ℤ}
use telemetry.Base.Text.{Text, text_eq, text_eq_refl}
use telemetry.Base.Assoc.{lookup, lookup-insert, contains}
use telemetry.Cli.Entries.{Entry, key}
use telemetry.Cli.Follow.{Follower, recorded, and_fresh, admit_from, admit}

not_older : (a b : ℤ) → b ≤ℤ a → ltb_ℤ a b ≡ false
not_older a b h = ground arith

module _ (format_int : ℤ → Text) where
  -- Whose key is not remembered is passed on, or another entry with its key.
  abbrev pub IsPassed : Follower → List Entry → Entry → Type 0
  IsPassed f fresh e =
      f.floor ≤ℤ e.time
      → lookup (key format_int e) f.seen ≡ none
      → contains (map (key format_int) fresh) (key format_int e) ≡ true

  IsPassed-recorded :
      (f : Follower) (e d : Entry) (fresh : List Entry)
      → IsPassed (recorded format_int f e) fresh d
      → IsPassed f (e ∷ fresh) d
  unfolding contains
  IsPassed-recorded f e d fresh h floor miss =
      elim (Bool-cases (text_eq (key format_int e) (key format_int d))) [
        | inl same ↦ rw same
        | inr differs ↦ rw (
          differs,
          h floor
              (lookup-insert (key format_int e) (key format_int d) e.time f.seen ∙ rw differs miss),
        )
      ]

  arrived :
      (f : Follower) (e : Entry) (entries : List Entry) (p : Follower × List Entry)
      → admit_from format_int f (e ∷ entries) ≡ p
      → IsPassed f p.1 e
      → All (IsPassed f p.1) entries
      → All (IsPassed f (admit_from format_int f (e ∷ entries)).1) (e ∷ entries)
  arrived f e entries p same h hs =
      subst (λ q. All (IsPassed f q.1) (e ∷ entries)) (sym same) (h, hs)

  admit_from-IsPassed :
      (f : Follower) (entries : List Entry)
      → All (IsPassed f (admit_from format_int f entries).1) entries
  unfolding admit_from contains
  admit_from-IsPassed f [] = tt
  admit_from-IsPassed f (e ∷ entries) = elim (Bool-cases (ltb_ℤ e.time f.floor)) [
    | inl old ↦
        arrived f e entries (admit_from format_int f entries) (rw (old, admit_from))
          (λ floor miss. absurd (cc (sym old ∙ not_older e.time f.floor floor)))
          (admit_from-IsPassed f entries)
    | inr young ↦ elim (Option-cases (lookup (key format_int e) f.seen)) [
      | inr (t, found) ↦
          arrived f e entries (admit_from format_int f entries) (rw (young, found, admit_from))
            (λ floor miss. absurd (cc (sym found ∙ miss))) (admit_from-IsPassed f entries)
      | inl miss ↦
          arrived f e entries
            (and_fresh e (admit_from format_int (recorded format_int f e) entries))
            (rw (young, miss, admit_from)) (λ floor _. rw (text_eq_refl (key format_int e)))
            (All-imp _ _ (λ d h. IsPassed-recorded f e d _ h) entries
              (admit_from-IsPassed (recorded format_int f e) entries))
    ]
  ]

  -- An entry of a batch that is not older than the backlog is among the fresh ones by its key, or
  -- its key was remembered before the batch.
  pub admit-IsPassed :
      (f : Follower) (entries : List Entry)
      → All (IsPassed f (admit format_int f entries).1) entries
  unfolding admit
  admit-IsPassed f entries = admit_from-IsPassed f entries
