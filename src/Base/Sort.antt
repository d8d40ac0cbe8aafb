-- ===== src/Base/Sort.antt =====
-- `sort.Strings`: texts in the order of their bytes, and what sorting and dropping neighbours that
-- are equal keeps.
use mathlib.Core.Path.{◌≡◌, refl, sym, subst}
use mathlib.Core.Logic.{inl, inr}
use mathlib.Core.Bool.{Bool, true, false, ◌&&◌, ◌||◌}
use mathlib.Core.Option.{Option, none, some}
use mathlib.Core.List.{List, [], ◌∷◌}
use native.Mathlib.Omega.{arith}
use telemetry.Base.Tests.{◌==◌, ltb, if◌then◌else◌, Bool-cases}
use telemetry.Base.Text.{Text, text_eq, text_eq_iff}
use telemetry.Base.Assoc.{contains}

unfoldable pub text_lt : Text → Text → Bool
text_lt xs [] = false
text_lt [] (y ∷ ys) = true
text_lt (x ∷ xs) (y ∷ ys) = ltb x y || (x == y && text_lt xs ys)

pub text_lt_trans :
    (xs ys zs : Text) → text_lt xs ys ≡ true → text_lt ys zs ≡ true → text_lt xs zs ≡ true
unfolding text_lt
text_lt_trans xs ys [] h k = cc
text_lt_trans xs [] (z ∷ zs) h k = absurd (cc)
text_lt_trans [] (y ∷ ys) (z ∷ zs) h k = refl
text_lt_trans (x ∷ xs) (y ∷ ys) (z ∷ zs) h k = ground (arith, text_lt_trans xs ys zs)

-- Two texts are equal, or one comes first.
pub text_lt_total :
    (xs ys : Text) → text_lt xs ys ≡ false → text_eq xs ys ≡ false → text_lt ys xs ≡ true
unfolding text_lt text_eq
text_lt_total [] [] h k = cc
text_lt_total [] (y ∷ ys) h k = cc
text_lt_total (x ∷ xs) [] h k = refl
text_lt_total (x ∷ xs) (y ∷ ys) h k = ground (arith, text_lt_total xs ys)

insert_sorted : Text → List Text → List Text
insert_sorted x [] = x ∷ []
insert_sorted x (y ∷ ys) =
    let rest = insert_sorted x ys in if text_lt y x then y ∷ rest else x ∷ y ∷ ys

unfoldable pub sort : List Text → List Text
unfolding insert_sorted
sort [] = []
sort (x ∷ xs) = insert_sorted x (sort xs)

abbrev is_last : Option Text → Text → Bool
is_last none v = false
is_last (some l) v = text_eq l v

-- The loop that appends each value that differs from the last one appended.
dedupe_from : Option Text → List Text → List Text
dedupe_from last [] = []
dedupe_from last (v ∷ vs) =
    let rest = dedupe_from (some v) vs in if is_last last v then rest else v ∷ rest

unfoldable pub dedupe : List Text → List Text
unfolding dedupe_from
dedupe values = dedupe_from none values

text_lt_asymm : (xs ys : Text) → text_lt xs ys ≡ true → text_lt ys xs ≡ false
unfolding text_lt
text_lt_asymm xs [] h = cc
text_lt_asymm [] (y ∷ ys) h = refl
text_lt_asymm (x ∷ xs) (y ∷ ys) h = ground (arith, text_lt_asymm xs ys)

contains-insert_sorted :
    (x : Text) (ys : List Text) (a : Text)
    → contains (insert_sorted x ys) a ≡ (text_eq x a || contains ys a)
unfolding insert_sorted contains
contains-insert_sorted x [] a = refl
contains-insert_sorted x (y ∷ ys) a = ground (arith, contains-insert_sorted x ys a)

pub contains-sort : (xs : List Text) (a : Text) → contains (sort xs) a ≡ contains xs a
unfolding sort contains
contains-sort [] a = refl
contains-sort (x ∷ xs) a = ground (arith, contains-insert_sorted x (sort xs) a, contains-sort xs a)

contains-dedupe_from :
    (last : Option Text) (xs : List Text) (a : Text)
    → (is_last last a || contains (dedupe_from last xs) a) ≡ (is_last last a || contains xs a)
unfolding dedupe_from contains
contains-dedupe_from last [] a = refl
contains-dedupe_from none (v ∷ vs) a = ground (arith, contains-dedupe_from (some v) vs a)
contains-dedupe_from (some l) (v ∷ vs) a =
    ground
      (arith, contains-dedupe_from (some v) vs a, text_eq_iff l v, text_eq_iff l a, text_eq_iff v a)

pub contains-dedupe : (xs : List Text) (a : Text) → contains (dedupe xs) a ≡ contains xs a
unfolding dedupe
contains-dedupe xs a = contains-dedupe_from none xs a

abbrev NotBelow : Option Text → Text → Type 0
NotBelow none x = Unit
NotBelow (some l) x = text_lt x l ≡ false

abbrev SortedFrom : Option Text → List Text → Type 0
SortedFrom last [] = Unit
SortedFrom last (x ∷ xs) = NotBelow last x × SortedFrom (some x) xs

abbrev Above : Option Text → Text → Type 0
Above none x = Unit
Above (some l) x = text_lt l x ≡ true

abbrev IncreasingFrom : Option Text → List Text → Type 0
IncreasingFrom last [] = Unit
IncreasingFrom last (x ∷ xs) = Above last x × IncreasingFrom (some x) xs

-- Strictly increasing in the order of `sort.Strings`, so without duplicates.
abbrev pub IsIncreasing : List Text → Type 0
IsIncreasing = IncreasingFrom none

insert-SortedFrom :
    (lo : Option Text) (x : Text) (ys : List Text)
    → NotBelow lo x
    → SortedFrom lo ys
    → SortedFrom lo (insert_sorted x ys)
unfolding insert_sorted
insert-SortedFrom lo x [] b s = (b, tt)
insert-SortedFrom lo x (y ∷ ys) b s = elim (Bool-cases (text_lt y x)) [
  | inl before ↦ rw before (s.0, insert-SortedFrom (some y) x ys (text_lt_asymm y x before) s.1)
  | inr after ↦ rw after (b, (after, s.1))
]

sort-SortedFrom : (xs : List Text) → SortedFrom none (sort xs)
unfolding sort
sort-SortedFrom [] = tt
sort-SortedFrom (x ∷ xs) = insert-SortedFrom none x (sort xs) tt (sort-SortedFrom xs)

dedupe-IncreasingFrom :
    (last : Option Text) (xs : List Text)
    → SortedFrom last xs
    → IncreasingFrom last (dedupe_from last xs)
unfolding dedupe_from
dedupe-IncreasingFrom last [] s = tt
dedupe-IncreasingFrom none (v ∷ vs) s = (tt, dedupe-IncreasingFrom (some v) vs s.1)
dedupe-IncreasingFrom (some l) (v ∷ vs) s = elim (Bool-cases (text_eq l v)) [
  | inl same ↦ rw same (
      subst (λ m. IncreasingFrom (some m) (dedupe_from (some v) vs))
        (sym ((text_eq_iff l v).0 same)) (dedupe-IncreasingFrom (some v) vs s.1))
  | inr other ↦ rw other (
    text_lt_total v l s.0 (ground (arith, text_eq_iff l v, text_eq_iff v l)),
    dedupe-IncreasingFrom (some v) vs s.1,
  )
]

pub dedupe-sort-IsIncreasing : (xs : List Text) → IsIncreasing (dedupe (sort xs))
unfolding dedupe
dedupe-sort-IsIncreasing xs = dedupe-IncreasingFrom none (sort xs) (sort-SortedFrom xs)
