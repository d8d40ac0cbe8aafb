-- ===== src/Cli/Follow/Memory.antt =====
-- What the follower's memory holds of the entries that it has passed on.
use telemetry.Base.{
  ℕ, ◌+◌, ◌≡◌, ◌≢◌, refl, sym, ap, ◌∙◌, subst, false, none, some, List, [], ◌∷◌, ◌++◌, arith,
  Bool-cases, Option-cases, inl, inr, All,
}
use telemetry.Base.Int.{ℤ, pos, pos_part, neg_part, sub_ℕ, ◌-ℤ◌, ◌≤ℤ◌, ltb_ℤ}
use telemetry.Base.Text.{Text, text_eq, text_eq_iff, text_eq_refl}
use telemetry.Base.Assoc.{lookup, insert, lookup-insert}
use telemetry.Cli.Entries.{Entry, key}
use telemetry.Cli.Follow.{
  second, follow_overlap, Follower, max_ℤ, pruned, cutoff, recorded, admit_from, admit,
}

pub ltb_ℤ-false : (a b : ℤ) → ltb_ℤ a b ≡ false → b ≤ℤ a
ltb_ℤ-false a b h = ground arith

ltb_ℤ-true_not : (a b : ℤ) → b ≤ℤ a → ltb_ℤ a b ≡ false
ltb_ℤ-true_not a b h = ground arith

some_injective : {A : Type 0} (a b : A) → some a ≡ some b → a ≡ b
some_injective a b e = cc

-- What is not older than the cutoff stays.
lookup-pruned :
    (b : ℤ) (k : Text) (t : ℤ) (seen : List (Text × ℤ))
    → b ≤ℤ t
    → lookup k seen ≡ some t
    → lookup k (pruned b seen) ≡ some t
unfolding lookup pruned
lookup-pruned b k t [] le h = absurd (cc)
lookup-pruned b k t ((j, u) ∷ seen) le h = elim (Bool-cases (text_eq j k)) [
  | inl e ↦
      let same = some_injective u t (rw (e, lookup) at h) in
      rw (ltb_ℤ-true_not u b (subst (λ x. b ≤ℤ x) (sym same) le), e, lookup) (ap some same)
  | inr e ↦
      let found = lookup-pruned b k t seen le (rw (e, lookup) at h) in
      elim (Bool-cases (ltb_ℤ u b)) [ inl f ↦ rw f found | inr f ↦ rw (f, e, lookup) found ]
]

sub_parts : (a b : ℕ) → pos_part (sub_ℕ a b) + b ≡ neg_part (sub_ℕ a b) + a
sub_parts a b = ground arith

pub minus_parts :
    (a : ℤ) (n : ℕ) → pos_part (a -ℤ pos n) + neg_part a + n ≡ neg_part (a -ℤ pos n) + pos_part a
unfolding ◌-ℤ◌
minus_parts a n = omega (arith, sub_parts (pos_part a + 0) (neg_part a + n))

≤ℤ_trans : (a b c : ℤ) → a ≤ℤ b → b ≤ℤ c → a ≤ℤ c
≤ℤ_trans a b c h k = omega arith

max_ℤ_upper : (a b : ℤ) → (a ≤ℤ max_ℤ a b) × (b ≤ℤ max_ℤ a b)
max_ℤ_upper a b = elim (Bool-cases (ltb_ℤ a b)) [
  | inl e ↦ rw e (ground arith, omega arith)
  | inr e ↦ rw e (omega arith, ltb_ℤ-false a b e)
]

text_eq-false : (s t : Text) → s ≢ t → text_eq s t ≡ false
text_eq-false s t h = elim (Bool-cases (text_eq s t)) [
  | inl e ↦ absurd (h ((text_eq_iff s t).0 e))
  | inr e ↦ e
]

pub cutoff_grows : (f g : Follower) → f.cursor ≤ℤ g.cursor → cutoff f ≤ℤ cutoff g
cutoff_grows f g h = omega (
  arith,
  minus_parts f.cursor (follow_overlap + second),
  minus_parts g.cursor (follow_overlap + second),
)

module _ (format_int : ℤ → Text) where
  -- No entry has the key of one before it or of the history.
  abbrev pub NewTo : List Entry → List Entry → Type 0
  NewTo history [] = Unit
  NewTo history (e ∷ es) =
      All (λ d. key format_int d ≢ key format_int e) history × NewTo (e ∷ history) es

  abbrev pub onto : List Entry → List Entry → List Entry
  onto history [] = history
  onto history (e ∷ es) = onto (e ∷ history) es

  pub onto-append :
      (history xs ys : List Entry) → onto history (xs ++ ys) ≡ onto (onto history xs) ys
  onto-append history [] ys = refl
  onto-append history (x ∷ xs) ys = onto-append (x ∷ history) xs ys

  pub NewTo-append :
      (history xs ys : List Entry)
      → NewTo history xs
      → NewTo (onto history xs) ys
      → NewTo history (xs ++ ys)
  NewTo-append history [] ys h k = k
  NewTo-append history (x ∷ xs) ys (h, hs) k = (h, NewTo-append (x ∷ history) xs ys hs k)

  -- Every entry of the history from the bound on is remembered under its key, with its time.
  abbrev pub Remembers : ℤ → List (Text × ℤ) → List Entry → Type 0
  Remembers b seen history =
      All (λ d. b ≤ℤ d.time → lookup (key format_int d) seen ≡ some d.time) history

  Remembers-pruned :
      (b b' : ℤ) (seen : List (Text × ℤ)) (history : List Entry)
      → b ≤ℤ b'
      → Remembers b seen history
      → Remembers b' (pruned b' seen) history
  Remembers-pruned b b' seen [] le h = tt
  Remembers-pruned b b' seen (d ∷ history) le (h, hs) = (
    λ k. lookup-pruned b' (key format_int d) d.time seen k (h (omega arith)),
    Remembers-pruned b b' seen history le hs,
  )

  module _ (key_time : (d e : Entry) → key format_int d ≡ key format_int e → d.time ≡ e.time) where
    unseen_at :
        (b : ℤ) (seen : List (Text × ℤ)) (d e : Entry)
        → b ≤ℤ e.time
        → lookup (key format_int e) seen ≡ none
        → (b ≤ℤ d.time → lookup (key format_int d) seen ≡ some d.time)
        → key format_int d ≢ key format_int e
    unseen_at b seen d e le miss h same =
        let found = h (subst (λ t. b ≤ℤ t) (sym (key_time d e same)) le) in
        absurd (cc (sym found ∙ ap (λ k. lookup k seen) same ∙ miss))

    -- A key that is not remembered is nobody's.
    unseen :
        (b : ℤ) (seen : List (Text × ℤ)) (history : List Entry) (e : Entry)
        → b ≤ℤ e.time
        → lookup (key format_int e) seen ≡ none
        → Remembers b seen history
        → All (λ d. key format_int d ≢ key format_int e) history
    unseen b seen [] e le miss h = tt
    unseen b seen (d ∷ history) e le miss (h, hs) =
        (unseen_at b seen d e le miss h, unseen b seen history e le miss hs)

    Remembers-insert :
        (b : ℤ) (seen : List (Text × ℤ)) (history : List Entry) (e : Entry)
        → All (λ d. key format_int d ≢ key format_int e) history
        → Remembers b seen history
        → Remembers b (insert (key format_int e) e.time seen) history
    Remembers-insert b seen [] e new h = tt
    Remembers-insert b seen (d ∷ history) e (new, news) (h, hs) = (
      λ k.
          lookup-insert (key format_int e) (key format_int d) e.time seen
          ∙ rw (text_eq-false _ _ (λ x. new (sym x))) (h k),
      Remembers-insert b seen history e news hs,
    )

    -- What the loop does to the memory, for entries that are not older than the bound unless they
    -- are dropped.
    abbrev pub Admits : ℤ → Follower → List Entry → Follower × List Entry → Type 0
    Admits b f history (g, fresh) =
        NewTo history fresh
        × Remembers b g.seen (onto history fresh)
        × (f.cursor ≤ℤ g.cursor)
        × (g.floor ≡ f.floor)

    pub admit_from-Admits :
        (b : ℤ) (f : Follower) (history entries : List Entry)
        → Remembers b f.seen history
        → All (λ e. f.floor ≤ℤ e.time → b ≤ℤ e.time) entries
        → Admits b f history (admit_from format_int f entries)
    unfolding admit_from
    admit_from-Admits b f history [] h k = (tt, h, omega arith, refl)
    admit_from-Admits b f history (e ∷ entries) h (k, ks) =
        elim (Bool-cases (ltb_ℤ e.time f.floor)) [
          | inl old ↦ rw (old, admit_from) (admit_from-Admits b f history entries h ks)
          | inr young ↦ elim (Option-cases (lookup (key format_int e) f.seen)) [
            | inr (t, found) ↦
                rw (young, found, admit_from) (admit_from-Admits b f history entries h ks)
            | inl miss ↦
                let le = k (ltb_ℤ-false e.time f.floor young) in
                let new = unseen b f.seen history e le miss h in
                let (fresh, memory, grows, floor) =
                  admit_from-Admits b (recorded format_int f e) (e ∷ history) entries
                    (
                      λ _.
                          lookup-insert (key format_int e) (key format_int e) e.time f.seen
                          ∙ rw (text_eq_refl (key format_int e)),
                      Remembers-insert b f.seen history e new h,
                    )
                    ks in
                rw (young, miss, admit_from)
                  (
                    (new, fresh),
                    memory,
                    ≤ℤ_trans f.cursor (max_ℤ f.cursor e.time) _ (max_ℤ_upper f.cursor e.time).0
                        grows,
                    floor,
                  )
          ]
        ]

    -- Behind a batch and the cutoff after it.
    pub admit-Admits :
        (b : ℤ) (f : Follower) (history entries : List Entry)
        → Remembers b f.seen history
        → b ≤ℤ cutoff f
        → All (λ e. f.floor ≤ℤ e.time → b ≤ℤ e.time) entries
        → Admits (cutoff (admit format_int f entries).0) f history (admit format_int f entries)
    unfolding admit
    admit-Admits b f history entries h le k =
        let (fresh, memory, grows, floor) = admit_from-Admits b f history entries h k in
        let g = (admit_from format_int f entries).0 in
        (
          fresh,
          Remembers-pruned b (cutoff g) g.seen (onto history (admit_from format_int f entries).1)
              (≤ℤ_trans b (cutoff f) (cutoff g) le (cutoff_grows f g grows)) memory,
          grows,
          floor,
        )
