-- ===== src/Storage/Fake/Ticks.antt =====
-- The ticks of a window, counted and listed.
use telemetry.Base.{
  ℕ, zero, suc, ◌+◌, ◌-◌, ◌≤◌, ◌<◌, ◌≡◌, refl, Bool, true, false, List, [], ◌∷◌, map, take,
  if◌then◌else◌, arith, ltb, ◌&&◌,
}
use telemetry.Base.Int.{ℤ, pos, pos_part, neg_part, ◌+ℤ◌, ◌-ℤ◌, ltb_ℤ, leb_ℤ, quot}
use telemetry.Storage.Clickhouse.Query.{LogQuery, Direction, forward, backward}
use telemetry.Storage.Clickhouse.Rows.{Row}
use telemetry.Storage.Fake.{ceil_div, oriented, stepped, reaches, span, keeps}

-- So many ticks from the first one on, in the direction.
unfoldable pub ticks : Direction → ℕ → ℤ → List ℤ
ticks d zero i = []
ticks d (suc n) i = i ∷ ticks d n (stepped d i)

unfoldable pub filtered : {A : Type 0} → (A → Bool) → List A → List A
filtered p [] = []
filtered p (x ∷ xs) = let rest = filtered p xs in if p x then x ∷ rest else rest

pub plus_one :
    (i : ℤ) → pos_part (i +ℤ pos 1) + neg_part i ≡ neg_part (i +ℤ pos 1) + (pos_part i + 1)
unfolding ◌+ℤ◌
plus_one i = ground arith

pub minus_one :
    (i : ℤ) → pos_part (i -ℤ pos 1) + (neg_part i + 1) ≡ neg_part (i -ℤ pos 1) + pos_part i
unfolding ◌-ℤ◌
minus_one i = ground arith

pub span-reaches : (d : Direction) (i j : ℤ) (n : ℕ) → span d i j ≡ suc n → reaches d i j ≡ true
span-reaches forward i j n h = ground arith
span-reaches backward i j n h = ground arith

pub span-stepped :
    (d : Direction) (i j : ℤ) (n : ℕ) → span d i j ≡ suc n → span d (stepped d i) j ≡ n
unfolding stepped
span-stepped forward i j n h = omega (arith, plus_one i)
span-stepped backward i j n h = omega (arith, minus_one i)

pub take-nil : {A : Type 0} (n : ℕ) → take {A = A} n [] ≡ []
take-nil zero = refl
take-nil (suc n) = refl

pub ltb-le : (a b : ℕ) → ltb a b ≡ false → b ≤ a
ltb-le a b h = ground arith

pub minus_zero : (n : ℕ) → n - 0 ≡ n
minus_zero n = omega arith

pub pair_path :
    {A B : Type 0} {a a' : A} {b b' : B} → a ≡ a' → b ≡ b' → ◌≡◌ {A = A × B} (a, b) (a', b')
pair_path e f = λ i. (e i, f i)

pub one_fewer : (l e e' : ℕ) → e < l → e' ≡ suc e → l - e ≡ suc (l - e')
one_fewer l e e' h k = omega arith

pub none_more : (l e : ℕ) → l ≤ e → l - e ≡ 0
none_more l e h = omega arith

pub open_test : (l e : ℕ) → 1 ≤ l → e < l → (ltb_ℤ (pos 0) (pos l) && leb_ℤ (pos l) (pos e)) ≡ false
open_test l e p h = ground arith

pub over_test : (l e : ℕ) → 1 ≤ l → l ≤ e → (ltb_ℤ (pos 0) (pos l) && leb_ℤ (pos l) (pos e)) ≡ true
over_test l e p h = ground arith

-- The rows that the query keeps of so many ticks.
unfoldable pub rows_from : (ℤ → Row) → LogQuery → Direction → ℕ → ℤ → List Row
unfolding filtered ticks
rows_from row_at q d n i = filtered (keeps q) (map row_at (ticks d n i))

pub rows_from-suc :
    (row_at : ℤ → Row) (q : LogQuery) (d : Direction) (n : ℕ) (i : ℤ)
    → (keeps q (row_at i) ≡ true
        → rows_from row_at q d (suc n) i ≡ row_at i ∷ rows_from row_at q d n (stepped d i))
      × (keeps q (row_at i) ≡ false
          → rows_from row_at q d (suc n) i ≡ rows_from row_at q d n (stepped d i))
unfolding rows_from ticks filtered
rows_from-suc row_at q d n i = (λ h. rw h, λ h. rw h)

-- The ticks of the query's window, in the order of its direction.
unfoldable pub window_ticks : ℕ → LogQuery → List ℤ
unfolding ticks ceil_div
window_ticks interval q =
    let (next, last) =
      oriented q.direction (ceil_div q.range.start interval)
        (quot (q.range.end -ℤ pos 1) interval) in
    ticks q.direction (span q.direction next last) next
