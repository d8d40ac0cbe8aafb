-- ===== src/Storage/Fake/Instants.antt =====
-- The ticks of a window by when they are: the multiples of the interval that the window contains.
use native.Mathlib.Nat.{
  mul_comm, mul-mod_left, mul-le-mul_right, le-div_iff_mul-le, div-lt_iff_lt-mul, div-le_of_le-mul,
  div-le_self, mod-eq-sub-div-mul, div-mul-le_self,
}
use telemetry.Base.{
  ℕ, zero, suc, ◌+◌, ◌-◌, ◌*◌, ◌/◌, ◌%◌, ◌≤◌, ◌<◌, ◌≡◌, ◌↔◌, refl, sym, ap, ◌∙◌, Bool, true, false,
  List, [], ◌∷◌, map, if◌then◌else◌, arith, if_true, if_false, ltb→lt, Bool-cases, inl, inr, leb,
  ltb, ◌&&◌,
}
use telemetry.Base.Int.{ℤ, pos, ◌+ℤ◌, ◌-ℤ◌, quot, rem}
use telemetry.Storage.Clickhouse.Query.{LogQuery, Direction, forward, backward}
use telemetry.Storage.Fake.{ceil_div, stepped, oriented, span}
use telemetry.Storage.Fake.Ticks.{ticks, filtered, window_ticks}

-- So many numbers from `i` up.
abbrev pub from : ℕ → ℕ → List ℕ
from i zero = []
from i (suc n) = i ∷ from (suc i) n

-- So many numbers below `i`, from the largest down.
abbrev pub down : ℕ → ℕ → List ℕ
down i zero = []
down zero (suc n) = []
down (suc i) (suc n) = i ∷ down i n

-- The numbers below `n` in the direction's order.
abbrev pub candidates : Direction → ℕ → List ℕ
candidates forward n = from 0 n
candidates backward n = down n n

-- The k-th tick of the interval is at a time from `start` on and before `end`.
abbrev pub is_inside : ℕ → ℕ → ℕ → ℕ → Bool
is_inside start end interval k = leb start (k * interval) && ltb (k * interval) end

module _ (p : ℕ → Bool) (c f : ℕ) (within : (k : ℕ) → p k ≡ (leb c k && ltb k f)) where
  outside : (k : ℕ) → k < c → p k ≡ false
  outside k h = ground (arith, within k)

  behind : (k : ℕ) → f ≤ k → p k ≡ false
  behind k h = ground (arith, within k)

  among : (k : ℕ) → c ≤ k → k < f → p k ≡ true
  among k h l = ground (arith, within k)

  filtered-behind : (i n : ℕ) → f ≤ i → filtered p (from i n) ≡ []
  unfolding filtered
  filtered-behind i zero h = refl
  filtered-behind i (suc n) h = rw (behind i h) (filtered-behind (suc i) n (omega arith))

  from_less : (i : ℕ) → i < f → from i (f - i) ≡ i ∷ from (suc i) (f - suc i)
  from_less i h = let e : f - i ≡ suc (f - suc i) = omega arith in ap (from i) e

  filtered-among : (i n : ℕ) → c ≤ i → f ≤ i + n → filtered p (from i n) ≡ from i (f - i)
  unfolding filtered
  filtered-among i zero h l = let e : f - i ≡ 0 = omega arith in sym (ap (from i) e)
  filtered-among i (suc n) h l = elim (Bool-cases (ltb i f)) [
    | inl less ↦ rw (among i h (ground arith)) (
        ap (λ r. i ∷ r) (filtered-among (suc i) n (omega arith) (omega arith))
        ∙ sym (from_less i (ground arith)))
    | inr more ↦
        let e : f - i ≡ 0 = ground arith in
        rw (behind i (ground arith))
          (filtered-behind (suc i) n (ground arith) ∙ sym (ap (from i) e))
  ]

  filtered-from : (i n : ℕ) → i ≤ c → f ≤ i + n → filtered p (from i n) ≡ from c (f - c)
  unfolding filtered
  filtered-from i zero h l = let e : f - c ≡ 0 = omega arith in sym (ap (from c) e)
  filtered-from i (suc n) h l = elim (Bool-cases (ltb i c)) [
    | inl less ↦
        rw (outside i (ground arith)) (filtered-from (suc i) n (ground arith) (omega arith))
    | inr more ↦
        let e : i ≡ c = ground arith in
        filtered-among i (suc n) (ground arith) l ∙ ap (λ j. from j (f - j)) e
  ]

  down-nothing : (n : ℕ) → n ≤ c → filtered p (down n n) ≡ []
  unfolding filtered
  down-nothing zero h = refl
  down-nothing (suc n) h = rw (outside n (omega arith)) (down-nothing n (omega arith))

  down-among : (n : ℕ) → n ≤ f → filtered p (down n n) ≡ down n (n - c)
  unfolding filtered
  down-among zero h = let e : 0 - c ≡ 0 = omega arith in sym (ap (down 0) e)
  down-among (suc n) h = elim (Bool-cases (leb c n)) [
    | inl in_it ↦
        let e : suc n - c ≡ suc (n - c) = ground arith in
        rw (among n (ground arith) (omega arith))
          (ap (λ r. n ∷ r) (down-among n (omega arith)) ∙ sym (ap (down (suc n)) e))
    | inr out_of_it ↦
        let e : suc n - c ≡ 0 = ground arith in
        rw (outside n (ground arith)) (down-nothing n (ground arith) ∙ sym (ap (down (suc n)) e))
  ]

  filtered-down : (n : ℕ) → f ≤ n → filtered p (down n n) ≡ down f (f - c)
  unfolding filtered
  filtered-down zero h =
      let e : 0 ≡ f = omega arith in down-among 0 (omega arith) ∙ ap (λ j. down j (j - c)) e
  filtered-down (suc n) h = elim (Bool-cases (leb f n)) [
    | inl less ↦ rw (behind n (ground arith)) (filtered-down n (ground arith))
    | inr more ↦
        let e : suc n ≡ f = ground arith in
        down-among (suc n) (omega arith) ∙ ap (λ j. down j (j - c)) e
  ]

ticks-forward : (n i : ℕ) → ticks forward n (pos i) ≡ map pos (from i n)
unfolding ticks stepped ◌+ℤ◌
ticks-forward zero i = refl
ticks-forward (suc n) i =
    let e : pos i +ℤ pos 1 ≡ pos (suc i) = ground arith in
    ap (λ r. pos i ∷ r) (ap (ticks forward n) e ∙ ticks-forward n (suc i))

ticks-backward : (n i : ℕ) → n ≤ suc i → ticks backward n (pos i) ≡ map pos (down (suc i) n)
unfolding ticks stepped ◌-ℤ◌
ticks-backward zero i h = refl
ticks-backward (suc zero) i h = refl
ticks-backward (suc (suc n)) zero h = absurd (omega arith)
ticks-backward (suc (suc n)) (suc i) h =
    let e : pos (suc i) -ℤ pos 1 ≡ pos i = ground arith in
    ap (λ r. pos (suc i) ∷ r)
      (ap (ticks backward (suc n)) e ∙ ticks-backward (suc n) i (omega arith))

abbrev ceil : ℕ → ℕ → ℕ
ceil a b = if ltb 0 (a % b) then a / b + 1 else a / b

ceil_div-pos : (a b : ℕ) → ceil_div (pos a) b ≡ pos (ceil a b)
unfolding ceil_div quot rem ◌+ℤ◌
ceil_div-pos a b = ground arith

quot-last : (e b : ℕ) → quot (pos (suc e) -ℤ pos 1) b ≡ pos (e / b)
unfolding quot ◌-ℤ◌
quot-last e b = let h : pos (suc e) -ℤ pos 1 ≡ pos e = ground arith in ap (λ x. quot x b) h

less_than_product : (a b k : ℕ) → a ≤ k * suc b → ltb 0 (a % suc b) ≡ true → a < k * suc b
less_than_product a b k h positive = elim (Bool-cases (ltb a (k * suc b))) [
  | inl less ↦ ltb→lt a (k * suc b) less
  | inr not_less ↦
      let same : a ≡ k * suc b = ground arith in
      let none_left : a % suc b ≡ 0 = ap (λ x. x % suc b) same ∙ mul-mod_left k (suc b) in
      absurd (ground arith)
]

no_remainder : (a b k : ℕ) → a % suc b ≡ 0 → (a / suc b) * suc b ≤ k * suc b → a ≤ k * suc b
no_remainder a b k h l =
    omega (arith, mod-eq-sub-div-mul a (suc b), div-mul-le_self a (suc b), h, l)

swap : (a b k : ℕ) → a ≤ k * suc b → a ≤ suc b * k
swap a b k h = omega (arith, mul_comm k (suc b), h)

ceil_iff : (a b k : ℕ) → (ceil a (suc b) ≤ k) ↔ (a ≤ k * suc b)
ceil_iff a b k = elim (Bool-cases (ltb 0 (a % suc b))) [
  | inl positive ↦
      let up = if_true (ltb 0 (a % suc b)) (a / suc b + 1) (a / suc b) positive in
      let (over, under) = div-lt_iff_lt-mul {k = suc b} {x = a} {y = k} (omega arith) in
      (
        λ h. let less = over (omega (arith, up, h)) in omega (arith, less),
        λ h. let less = under (less_than_product a b k h positive) in omega (arith, up, less),
      )
  | inr zero_left ↦
      let up = if_false (ltb 0 (a % suc b)) (a / suc b + 1) (a / suc b) zero_left in
      (
        λ h.
            let quotient : a / suc b ≤ k = omega (arith, up, h) in
            let monotone = mul-le-mul_right (suc b) quotient in
            no_remainder a b k (ground arith) monotone,
        λ h.
            let le = div-le_of_le-mul (suc b) {m = a} {n = k} (swap a b k h) in
            omega (arith, up, le),
      )
]

inside-within :
    (a e b k : ℕ)
    → is_inside a (suc e) (suc b) k ≡ (leb (ceil a (suc b)) k && ltb k (suc (e / suc b)))
inside-within a e b k =
    ground (arith, ceil_iff a b k, le-div_iff_mul-le {k = suc b} {x = k} {y = e} (omega arith))

-- The ticks of the window in the direction's order: the numbers whose multiple of the interval is
-- at a time from `start` on and before `end`.
abbrev pub instants : Direction → ℕ → ℕ → ℕ → List ℕ
instants d interval start end = filtered (is_inside start end interval) (candidates d end)

run_of : Direction → ℤ → ℤ → List ℤ
unfolding ticks
run_of d c f = let (next, last) = oriented d c f in ticks d (span d next last) next

run_of-instants :
    (d : Direction) (a e b : ℕ)
    → run_of d (pos (ceil a (suc b))) (pos (e / suc b)) ≡ map pos (instants d (suc b) a (suc e))
unfolding run_of
run_of-instants forward a e b =
    let c = ceil a (suc b) in
    let f = e / suc b in
    let bounded : suc f ≤ 0 + suc e = omega (arith, div-le_self e (suc b)) in
    let span_is : (f + 0 + 1) - (c + 0) ≡ suc f - c = omega arith in
    ap (λ n. ticks forward n (pos c)) span_is
    ∙ ticks-forward (suc f - c) c
    ∙ ap (map pos) (
        sym (
          filtered-from (is_inside a (suc e) (suc b)) c (suc f) (inside-within a e b) 0 (suc e)
            (omega arith) bounded))
run_of-instants backward a e b =
    let c = ceil a (suc b) in
    let f = e / suc b in
    let bounded : suc f ≤ suc e = omega (arith, div-le_self e (suc b)) in
    let span_is : (f + 0 + 1) - (c + 0) ≡ suc f - c = omega arith in
    ap (λ n. ticks backward n (pos f)) span_is
    ∙ ticks-backward (suc f - c) f (omega arith)
    ∙ ap (map pos) (
        sym (
          filtered-down (is_inside a (suc e) (suc b)) c (suc f) (inside-within a e b) (suc e)
            bounded))

pub window_ticks-instants :
    (q : LogQuery) (a e b : ℕ)
    → q.range.start ≡ pos a
    → q.range.end ≡ pos (suc e)
    → window_ticks (suc b) q ≡ map pos (instants q.direction (suc b) a (suc e))
unfolding window_ticks run_of
window_ticks-instants q a e b h k =
    let first = ap (λ t. ceil_div t (suc b)) h ∙ ceil_div-pos a (suc b) in
    let final = ap (λ t. quot (t -ℤ pos 1) (suc b)) k ∙ quot-last e (suc b) in
    ap (λ c. run_of q.direction c (quot (q.range.end -ℤ pos 1) (suc b))) first
    ∙ ap (run_of q.direction (pos (ceil a (suc b)))) final
    ∙ run_of-instants q.direction a e b
