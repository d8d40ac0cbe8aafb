-- ===== src/Storage/Streams/Identity.antt =====
-- A key determines its label set.
use telemetry.Base.{
  ℕ, ◌≡◌, ◌≢◌, refl, sym, ap, ◌∙◌, Bool, true, false, ◌||◌, some, List, [], ◌∷◌, ◌++◌, append_assoc,
  append-nil, length, length-append, map, arith, Bool-cases, inl, inr, All,
}
use telemetry.Base.Text.{Text, lit, text_eq, text_eq_iff, text_eq_refl, join}
use telemetry.Base.Assoc.{lookup, contains}
use telemetry.Base.Sort.{sort, contains-sort}
use telemetry.Storage.Clickhouse.Rows.{LabelSet}
use telemetry.Storage.Streams.{IsMap, sized, pair_text, key}

parts : (c d : ℕ) (s t : Text) → c ∷ s ≡ d ∷ t → (c ≡ d) × (s ≡ t)
parts c d s t e = (cc, cc)

-- Texts without the byte, each before one.
same_head :
    (c : ℕ) (a b s t : Text)
    → All (λ d. d ≢ c) a
    → All (λ d. d ≢ c) b
    → a ++ c ∷ s ≡ b ++ c ∷ t
    → (a ≡ b) × (s ≡ t)
same_head c [] [] s t h k e = (refl, (parts c c s t e).1)
same_head c [] (d ∷ b) s t h k e = absurd (k.0 (sym (parts _ _ _ _ e).0))
same_head c (d ∷ a) [] s t h k e = absurd (h.0 (parts _ _ _ _ e).0)
same_head c (d ∷ a) (d' ∷ b) s t h k e =
    let (head, tail) = parts _ _ _ _ e in
    let (rest, after) = same_head c a b s t h.1 k.1 tail in
    (ap (λ x. x ∷ a) head ∙ ap (λ x. d' ∷ x) rest, after)

-- Texts of the same length, each before something.
same_length : (a b s t : Text) → length a ≡ length b → a ++ s ≡ b ++ t → (a ≡ b) × (s ≡ t)
same_length [] [] s t l e = (refl, e)
same_length [] (d ∷ b) s t l e = absurd (omega arith)
same_length (c ∷ a) [] s t l e = absurd (omega arith)
same_length (c ∷ a) (d ∷ b) s t l e =
    let (head, tail) = parts _ _ _ _ e in
    let (rest, after) = same_length a b s t (omega arith) tail in
    (ap (λ x. x ∷ a) head ∙ ap (λ x. d ∷ x) rest, after)

-- What follows the first text that is joined.
abbrev behind : List Text → Text
behind [] = []
behind (x ∷ xs) = b',' ∷ join (lit ",") (x ∷ xs)

join-first : (x : Text) (xs : List Text) → join (lit ",") (x ∷ xs) ≡ x ++ behind xs
unfolding join lit
join-first x [] = sym (append-nil x)
join-first x (y ∷ xs) = refl

behind-join : (xs ys : List Text) → behind xs ≡ behind ys → join (lit ",") xs ≡ join (lit ",") ys
behind-join [] [] e = refl
behind-join [] (y ∷ ys) e = absurd (cc)
behind-join (x ∷ xs) [] e = absurd (cc)
behind-join (x ∷ xs) (y ∷ ys) e = (parts _ _ _ _ e).1

some_value : (w v : Text) → some w ≡ some v → w ≡ v
some_value w v e = cc

or_true : (a b : Bool) → b ≡ true → (a || b) ≡ true
or_true true b e = refl
or_true false b e = e

ap2_pair :
    (itoa : ℕ → Text) (p q : Text × Text)
    → p.0 ≡ q.0
    → p.1 ≡ q.1
    → pair_text itoa p ≡ pair_text itoa q
ap2_pair itoa p q e f = λ i. pair_text itoa (e i, f i)

module _ (itoa : ℕ → Text) (injective : (m n : ℕ) → itoa m ≡ itoa n → m ≡ n)
    (digits : (n : ℕ) → All (λ d. d ≢ b':') (itoa n)) where
  sized_parts : (s t r r' : Text) → sized itoa s ++ r ≡ sized itoa t ++ r' → (s ≡ t) × (r ≡ r')
  sized_parts s t r r' e =
      let (numbers, rest) =
        same_head b':' (itoa (length s)) (itoa (length t)) (s ++ r) (t ++ r') (digits (length s))
          (digits (length t))
          (sym (append_assoc (itoa (length s)) (b':' ∷ s) r)
            ∙ e
            ∙ append_assoc (itoa (length t)) (b':' ∷ t) r') in
      same_length s t r r' (injective (length s) (length t) numbers) rest

  pair_text-append :
      (p : Text × Text) (r : Text)
      → pair_text itoa p ++ r ≡ sized itoa p.0 ++ b'=' ∷ (sized itoa p.1 ++ r)
  unfolding pair_text
  pair_text-append (k, v) r = append_assoc (sized itoa k) (b'=' ∷ sized itoa v) r

  pair_parts :
      (p q : Text × Text) (r r' : Text)
      → pair_text itoa p ++ r ≡ pair_text itoa q ++ r'
      → (p.0 ≡ q.0) × (p.1 ≡ q.1) × (r ≡ r')
  pair_parts p q r r' e =
      let (names, after) =
        sized_parts p.0 q.0 _ _ (sym (pair_text-append p r) ∙ e ∙ pair_text-append q r') in
      let (values, rest) = sized_parts p.1 q.1 r r' (parts _ _ _ _ after).1 in (names, values, rest)

  nonempty : (p : Text × Text) (r : Text) → [] ≢ pair_text itoa p ++ r
  nonempty p r e = omega (
    arith,
    ap length e,
    ap length (pair_text-append p r),
    length-append (sized itoa p.0) (b'=' ∷ (sized itoa p.1 ++ r)),
  )

  -- Every text of the list is a pair's.
  abbrev IsPairs : List Text → Type 0
  IsPairs xs = (a : Text) → contains xs a ≡ true → (p : Text × Text) × (a ≡ pair_text itoa p)

  IsPairs-head :
      (x : Text) (xs : List Text) → IsPairs (x ∷ xs) → (p : Text × Text) × (x ≡ pair_text itoa p)
  unfolding contains
  IsPairs-head x xs h = h x (rw (text_eq_refl x))

  IsPairs-tail : (x : Text) (xs : List Text) → IsPairs (x ∷ xs) → IsPairs xs
  unfolding contains
  IsPairs-tail x xs h = λ a c. h a (ground (arith, c))

  join_injective :
      (xs ys : List Text)
      → IsPairs xs
      → IsPairs ys
      → join (lit ",") xs ≡ join (lit ",") ys
      → xs ≡ ys
  unfolding join
  join_injective [] [] h k e = refl
  join_injective [] (y ∷ ys) h k e =
      let (q, at) = IsPairs-head y ys k in
      absurd (nonempty q (behind ys) (e ∙ join-first y ys ∙ ap (λ z. z ++ behind ys) at))
  join_injective (x ∷ xs) [] h k e =
      let (p, at) = IsPairs-head x xs h in
      absurd (nonempty p (behind xs) (sym e ∙ join-first x xs ∙ ap (λ z. z ++ behind xs) at))
  join_injective (x ∷ xs) (y ∷ ys) h k e =
      let (p, at) = IsPairs-head x xs h in
      let (q, at') = IsPairs-head y ys k in
      let (names, values, rest) = pair_parts p q (behind xs) (behind ys) (
        ap (λ z. z ++ behind xs) (sym at)
        ∙ sym (join-first x xs)
        ∙ e
        ∙ join-first y ys
        ∙ ap (λ z. z ++ behind ys) at') in
      let tails =
        join_injective xs ys (IsPairs-tail x xs h) (IsPairs-tail y ys k) (behind-join xs ys rest) in
      ap (λ z. z ∷ xs) (at ∙ ap2_pair itoa p q names values ∙ sym at') ∙ ap (λ z. y ∷ z) tails

  map-IsPairs : (labels : LabelSet) → IsPairs (map (pair_text itoa) labels)
  unfolding contains
  map-IsPairs [] a c = absurd (cc)
  map-IsPairs (p ∷ labels) a c = elim (Bool-cases (text_eq (pair_text itoa p) a)) [
    | inl e ↦ (p, sym ((text_eq_iff _ a).0 e))
    | inr e ↦ map-IsPairs labels a (rw e at c)
  ]

  sort-IsPairs : (labels : LabelSet) → IsPairs (sort (map (pair_text itoa) labels))
  sort-IsPairs labels a c =
      map-IsPairs labels a (sym (contains-sort (map (pair_text itoa) labels) a) ∙ c)

  pair-contains :
      (labels : LabelSet) (k v : Text)
      → lookup k labels ≡ some v
      → contains (map (pair_text itoa) labels) (pair_text itoa (k, v)) ≡ true
  unfolding lookup contains
  pair-contains [] k v h = absurd (cc)
  pair-contains ((j, w) ∷ labels) k v h = elim (Bool-cases (text_eq j k)) [
    | inl e ↦
        let same =
          ap2_pair itoa (j, w) (k, v) ((text_eq_iff j k).0 e)
            (some_value w v (rw (e, lookup) at h)) in
        rw ((text_eq_iff _ _).1 same)
    | inr e ↦ or_true _ _ (pair-contains labels k v (rw (e, lookup) at h))
  ]

  contains-pair :
      (labels : LabelSet) (k v : Text)
      → IsMap labels
      → contains (map (pair_text itoa) labels) (pair_text itoa (k, v)) ≡ true
      → lookup k labels ≡ some v
  unfolding lookup contains IsMap
  contains-pair [] k v h c = absurd (cc)
  contains-pair ((j, w) ∷ labels) k v (new, h) c =
      elim (Bool-cases (text_eq (pair_text itoa (j, w)) (pair_text itoa (k, v)))) [
        | inl e ↦
            let (names, values, _) =
              pair_parts (j, w) (k, v) [] [] (ap (λ z. z ++ []) ((text_eq_iff _ _).0 e)) in
            rw ((text_eq_iff j k).1 names) (ap some values)
        | inr e ↦
            let found = contains-pair labels k v h (rw e at c) in
            elim (Bool-cases (text_eq j k)) [
              | inl f ↦
                  absurd (cc (sym new ∙ ap (λ n. lookup n labels) ((text_eq_iff j k).0 f) ∙ found))
              | inr f ↦ rw f found
            ]
      ]

  -- Label sets, in each of which a name stands once, with the same key have the same value at
  -- every label, whatever bytes names and values hold. It relies on decimal numbers that
  -- determine the number and have no colon.
  pub key_injective :
      (l l' : LabelSet)
      → IsMap l
      → IsMap l'
      → key itoa l ≡ key itoa l'
      → (k v : Text) → lookup k l ≡ some v
      → lookup k l' ≡ some v
  unfolding key
  key_injective l l' h h' e k v found =
      let sorted = join_injective _ _ (sort-IsPairs l) (sort-IsPairs l') e in
      contains-pair l' k v h' (
        sym (contains-sort (map (pair_text itoa) l') _)
        ∙ ap (λ xs. contains xs (pair_text itoa (k, v))) (sym sorted)
        ∙ contains-sort (map (pair_text itoa) l) _
        ∙ pair-contains l k v found)
