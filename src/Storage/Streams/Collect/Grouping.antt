-- ===== src/Storage/Streams/Collect/Grouping.antt =====
-- Grouping loses no row and keeps the rows of a stream in their order.
use telemetry.Base.{
  ℕ, suc, ◌+◌, ◌≡◌, refl, sym, ap, ◌∙◌, true, false, none, some, List, [], ◌∷◌, ◌++◌, append_assoc,
  append-nil, length, map, if◌then◌else◌, arith, Bool-cases, Option-cases, inl, inr,
}
use telemetry.Base.Int.{ℤ}
use telemetry.Base.Text.{Text, text_eq, text_eq_iff}
use telemetry.Base.Assoc.{lookup, insert}
use telemetry.Storage.Clickhouse.Rows.{LabelSet, Row}
use telemetry.Storage.Streams.{key}
use telemetry.Storage.Streams.Collect.{
  Stream, Collected, push, update_at, value_of_row, collect_row, collect_from, collect_streams,
  values_of, values_with,
}

found_index : (n i : ℕ) → some n ≡ some i → n ≡ i
found_index n i e = cc

plus_zero : (n : ℕ) → n + 0 ≡ n
plus_zero n = omega arith

zero_plus : (n : ℕ) → 0 + n ≡ n
zero_plus n = omega arith

plus_suc : (n m : ℕ) → n + suc m ≡ suc n + m
plus_suc n m = omega arith

differs : (a k k' : Text) → text_eq a k ≡ false → text_eq a k' ≡ true → text_eq k k' ≡ false
differs a k k' h f = elim (Bool-cases (text_eq k k')) [
  | inl g ↦
      absurd
        (cc (sym h ∙ (text_eq_iff a k).1 ((text_eq_iff a k').0 f ∙ sym ((text_eq_iff k k').0 g))))
  | inr g ↦ g
]

update_at-append :
    {A : Type 0} (f : A → A) (xs : List A) (x : A)
    → update_at (length xs) f (xs ++ x ∷ []) ≡ xs ++ f x ∷ []
unfolding update_at
update_at-append f [] x = refl
update_at-append f (y ∷ xs) x = ap (λ ys. y ∷ ys) (update_at-append f xs x)

module _ (itoa : ℕ → Text) (format_int : ℤ → Text) where
  abbrev keys : List Stream → List Text
  keys ss = map (λ s. key itoa s.stream) ss

  abbrev indexed : ℕ → List Text → List (Text × ℕ)
  indexed n [] = []
  indexed n (k ∷ ks) = (k, n) ∷ indexed (suc n) ks

  push_first : Text → Text × Text → List Stream → List Stream
  push_first k v [] = []
  push_first k v (s ∷ ss) =
      let later = s ∷ push_first k v ss in
      if text_eq (key itoa s.stream) k then push v s ∷ ss else later

  update_at-push_first :
      (k : Text) (v : Text × Text) (n i : ℕ) (ss : List Stream)
      → lookup k (indexed n (keys ss)) ≡ some i
      → (j : ℕ) × (i ≡ n + j) × (update_at j (push v) ss ≡ push_first k v ss)
  unfolding lookup update_at push_first
  update_at-push_first k v n i [] h = absurd (cc)
  update_at-push_first k v n i (s ∷ ss) h = elim (Bool-cases (text_eq (key itoa s.stream) k)) [
    | inl e ↦ (0, omega (arith, (found_index n i (rw (e, lookup) at h))), rw e refl)
    | inr e ↦
        let (j, at, same) = update_at-push_first k v (suc n) i ss (rw (e, lookup) at h) in
        (suc j, omega (arith, at), rw e (ap (λ xs. s ∷ xs) same))
  ]

  keys-push_first :
      (k : Text) (v : Text × Text) (ss : List Stream) → keys (push_first k v ss) ≡ keys ss
  unfolding push_first
  keys-push_first k v [] = refl
  keys-push_first k v (s ∷ ss) = elim (Bool-cases (text_eq (key itoa s.stream) k)) [
    | inl e ↦ rw e refl
    | inr e ↦ rw e (ap (λ ks. key itoa s.stream ∷ ks) (keys-push_first k v ss))
  ]

  insert-indexed :
      (k : Text) (n : ℕ) (ss : List Stream)
      → lookup k (indexed n (keys ss)) ≡ none
      → insert k (n + length ss) (indexed n (keys ss)) ≡ indexed n (keys ss ++ k ∷ [])
  unfolding lookup insert
  insert-indexed k n [] h = ap (λ m. (k, m) ∷ []) (plus_zero n)
  insert-indexed k n (s ∷ ss) h = elim (Bool-cases (text_eq (key itoa s.stream) k)) [
    | inl e ↦ absurd (cc (rw (e, lookup) at h))
    | inr e ↦ rw e (
        ap (λ ks. (key itoa s.stream, n) ∷ ks)
          (ap (λ m. insert k m (indexed (suc n) (keys ss))) (plus_suc n (length ss))
            ∙ insert-indexed k (suc n) ss (rw (e, lookup) at h)))
  ]

  keys-append :
      (ss : List Stream) (s : Stream) → keys (ss ++ s ∷ []) ≡ keys ss ++ key itoa s.stream ∷ []
  keys-append [] s = refl
  keys-append (x ∷ ss) s = ap (λ ks. key itoa x.stream ∷ ks) (keys-append ss s)

  abbrev values : Text → List Stream → List (Text × Text)
  values k ss = values_of itoa format_int k ss

  -- The stream with the key has one more value.
  values_of-push_first :
      (k k' : Text) (v : Text × Text) (n i : ℕ) (ss : List Stream)
      → lookup k (indexed n (keys ss)) ≡ some i
      → values k' (push_first k v ss) ≡ values k' ss ++ (if text_eq k k' then v ∷ [] else [])
  unfolding lookup push_first values_of
  values_of-push_first k k' v n i [] h = absurd (cc)
  values_of-push_first k k' v n i (s ∷ ss) h = elim (Bool-cases (text_eq (key itoa s.stream) k)) [
    | inl e ↦
        let same = (text_eq_iff (key itoa s.stream) k).0 e in
        elim (Bool-cases (text_eq k k')) [
          | inl f ↦ rw (e, ap (λ z. text_eq z k') same ∙ f, f) refl
          | inr f ↦ rw (e, ap (λ z. text_eq z k') same ∙ f, f) (sym (append-nil (values k' ss)))
        ]
    | inr e ↦ elim (Bool-cases (text_eq (key itoa s.stream) k')) [
      | inl f ↦ rw (e, f, differs (key itoa s.stream) k k' e f) (sym (append-nil s.values))
      | inr f ↦ rw (e, f) (values_of-push_first k k' v (suc n) i ss (rw (e, lookup) at h))
    ]
  ]

  values_of-append :
      (k' : Text) (v : Text × Text) (labels : LabelSet) (n : ℕ) (ss : List Stream)
      → lookup (key itoa labels) (indexed n (keys ss)) ≡ none
      → values k' (ss ++ record { stream = labels; values = v ∷ [] } ∷ [])
        ≡ values k' ss ++ (if text_eq (key itoa labels) k' then v ∷ [] else [])
  unfolding lookup values_of
  values_of-append k' v labels n [] h = refl
  values_of-append k' v labels n (s ∷ ss) h =
      elim (Bool-cases (text_eq (key itoa s.stream) (key itoa labels))) [
        | inl e ↦ absurd (cc (rw (e, lookup) at h))
        | inr e ↦ elim (Bool-cases (text_eq (key itoa s.stream) k')) [
          | inl f ↦
              rw (f, differs (key itoa s.stream) (key itoa labels) k' e f)
                (sym (append-nil s.values))
          | inr f ↦ rw f (values_of-append k' v labels (suc n) ss (rw (e, lookup) at h))
        ]
      ]

  -- The map has every stream's key with the stream's index.
  abbrev IsIndex : Collected → Type 0
  IsIndex c = c.by_key ≡ indexed 0 (keys c.result)

  -- One row: its value stands last in the stream of its key, and nothing else changes.
  abbrev Collects : Collected → Row → Collected → Type 0
  Collects c row d =
      IsIndex d
      × ((k : Text)
          → values k d.result
            ≡ values k c.result
              ++ (if text_eq (key itoa row.labels) k
                  then value_of_row itoa format_int row ∷ []
                  else []))

  collect_row-Collects :
      (c : Collected) (row : Row) → IsIndex c → Collects c row (collect_row itoa format_int c row)
  unfolding collect_row
  collect_row-Collects c row x = elim (Option-cases (lookup (key itoa row.labels) c.by_key)) [
    | inr (i, found) ↦
        let k = key itoa row.labels in
        let v = value_of_row itoa format_int row in
        let found' = ap (lookup k) (sym x) ∙ found in
        let (j, at, same) = update_at-push_first k v 0 i c.result found' in
        let moved = ap (λ n. update_at n (push v) c.result) (at ∙ zero_plus j) ∙ same in
        rw (found, collect_row)
          (
            x ∙ ap (indexed 0) (sym (ap keys moved ∙ keys-push_first k v c.result)),
            λ k'. ap (values k') moved ∙ values_of-push_first k k' v 0 i c.result found',
          )
    | inl missing ↦
        let k = key itoa row.labels in
        let v = value_of_row itoa format_int row in
        let missing' = ap (lookup k) (sym x) ∙ missing in
        let added =
          update_at-append (push v) c.result (record { stream = row.labels; values = [] }) in
        rw (missing, collect_row)
          (
            ap (insert k (length c.result)) x
                ∙ ap (λ m. insert k m (indexed 0 (keys c.result)))
                    (sym (zero_plus (length c.result)))
                ∙ insert-indexed k 0 c.result missing'
                ∙ ap (indexed 0) (
                    sym (
                      ap keys added
                      ∙ keys-append c.result (record { stream = row.labels; values = v ∷ [] }))),
            λ k'. ap (values k') added ∙ values_of-append k' v row.labels 0 c.result missing',
          )
  ]

  values_with-append :
      (k : Text) (vs : List (Text × Text)) (row : Row) (rows : List Row)
      → (vs
            ++ (if text_eq (key itoa row.labels) k
                then value_of_row itoa format_int row ∷ []
                else []))
          ++ values_with itoa format_int k rows
        ≡ vs ++ values_with itoa format_int k (row ∷ rows)
  unfolding values_with
  values_with-append k vs row rows = elim (Bool-cases (text_eq (key itoa row.labels) k)) [
    | inl e ↦ rw e (
        append_assoc vs (value_of_row itoa format_int row ∷ [])
          (values_with itoa format_int k rows))
    | inr e ↦ rw e (ap (λ xs. xs ++ values_with itoa format_int k rows) (append-nil vs))
  ]

  collect_from-values :
      (c : Collected) (rows : List Row)
      → IsIndex c
      → (k : Text)
      → values k (collect_from itoa format_int c rows).result
        ≡ values k c.result ++ values_with itoa format_int k rows
  unfolding collect_from values_with
  collect_from-values c [] x k = sym (append-nil (values k c.result))
  collect_from-values c (row ∷ rows) x k =
      let (index, one) = collect_row-Collects c row x in
      collect_from-values (collect_row itoa format_int c row) rows index k
      ∙ ap (λ vs. vs ++ values_with itoa format_int k rows) (one k)
      ∙ values_with-append k (values k c.result) row rows

-- For every key, the values of the first stream with that key are the times and lines of exactly
-- the rows with that key, in the rows' order.
pub values_of-collect_streams :
    (itoa : ℕ → Text) (format_int : ℤ → Text) (rows : List Row) (k : Text)
    → values_of itoa format_int k (collect_streams itoa format_int rows)
      ≡ values_with itoa format_int k rows
unfolding collect_streams values_of
values_of-collect_streams itoa format_int rows k =
    collect_from-values itoa format_int (record { result = []; by_key = [] }) rows refl k
