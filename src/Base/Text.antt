-- ===== src/Base/Text.antt =====
-- Go strings: lists of bytes, with what the code uses of the package strings.
use Prim.Native.Char.{code}
use Prim.Native.String.{String}
use Prim.Native.Nat.{ℕ}
use mathlib.Core.Path.{◌≡◌, refl, ap}
use mathlib.Core.Logic.{◌↔◌, inl, inr}
use mathlib.Core.Bool.{Bool, true, false, ◌&&◌}
use mathlib.Core.Option
use mathlib.Core.Option.{Option, none, some}
use mathlib.Core.List.{List, [], ◌∷◌, ◌++◌}
use native.Mathlib.Omega.{arith}
use telemetry.Base.Lists.{length, length-append}
use telemetry.Base.Tests.{Option-cases, ◌==◌, ==_iff, if◌then◌else◌}

abbrev pub Text : Type 0
Text = List ℕ

-- The bytes of an ASCII literal.
unfoldable pub lit : String → Text
lit String.[] = []
lit (String.◌∷◌ c s) = code c ∷ lit s

unfoldable pub text_eq : Text → Text → Bool
text_eq [] [] = true
text_eq (x ∷ xs) (y ∷ ys) = x == y && text_eq xs ys
text_eq _ _ = false

pub text_eq_sound : (s t : Text) → text_eq s t ≡ true → s ≡ t
unfolding text_eq
text_eq_sound [] [] h = refl
text_eq_sound [] (y ∷ ys) h = cc
text_eq_sound (x ∷ xs) [] h = cc
text_eq_sound (x ∷ xs) (y ∷ ys) h = ground (arith, text_eq_sound xs ys, ==_iff x y)

pub text_eq_refl : (s : Text) → text_eq s s ≡ true
unfolding text_eq
text_eq_refl [] = refl
text_eq_refl (x ∷ xs) = ground (arith, text_eq_refl xs, ==_iff x x)

pub text_eq_iff : (s t : Text) → (text_eq s t ≡ true) ↔ (s ≡ t)
text_eq_iff s t = (text_eq_sound s t, λ e. rw e (text_eq_refl t))

-- `strings.CutPrefix(s, p)`: what follows `p`, if `s` starts with it.
unfoldable pub cut_prefix : Text → Text → Option Text
cut_prefix s [] = some s
cut_prefix [] (y ∷ p) = none
cut_prefix (x ∷ s) (y ∷ p) = let rest = cut_prefix s p in if x == y then rest else none

unfoldable pub has_prefix : Text → Text → Bool
unfolding cut_prefix
has_prefix s p = elim (cut_prefix s p) [ none ↦ false | some _ ↦ true ]

-- `cut_prefix` answers exactly when `s` is the prefix followed by the answer.
pub cut_prefix-eq_some : (s p r : Text) → cut_prefix s p ≡ some r → s ≡ p ++ r
unfolding cut_prefix
cut_prefix-eq_some s [] r h = cc
cut_prefix-eq_some [] (y ∷ p) r h = cc
cut_prefix-eq_some (x ∷ s) (y ∷ p) r h = ground (arith, cut_prefix-eq_some s p r, ==_iff x y)

pub cut_prefix-append : (p r : Text) → cut_prefix (p ++ r) p ≡ some r
unfolding cut_prefix
cut_prefix-append [] r = refl
cut_prefix-append (y ∷ p) r = ground (arith, cut_prefix-append p r)

pub has_prefix-append : (p r : Text) → has_prefix (p ++ r) p ≡ true
unfolding has_prefix
has_prefix-append p r = rw (cut_prefix-append p r, has_prefix)

-- `strings.TrimPrefix`.
unfoldable pub trim_prefix : Text → Text → Text
trim_prefix s p = elim (cut_prefix s p) [ none ↦ s | some r ↦ r ]

-- `strings.CutSuffix(s, p)`: what stands before `p`, if `s` ends with it.
unfoldable pub cut_suffix : Text → Text → Option Text
cut_suffix [] p = if text_eq [] p then some [] else none
cut_suffix (x ∷ s) p =
    let rest = Option.map (λ r. x ∷ r) (cut_suffix s p) in
    if text_eq (x ∷ s) p then some [] else rest

unfoldable pub trim_suffix : Text → Text → Text
trim_suffix s p = elim (cut_suffix s p) [ none ↦ s | some r ↦ r ]

pub cut_suffix-eq_some : (s p r : Text) → cut_suffix s p ≡ some r → s ≡ r ++ p
unfolding cut_suffix
cut_suffix-eq_some [] p r h = ground (arith, text_eq_iff [] p)
cut_suffix-eq_some (x ∷ s) p [] h = ground (arith, text_eq_iff (x ∷ s) p)
cut_suffix-eq_some (x ∷ s) p (y ∷ r) h =
    ground (arith, text_eq_iff (x ∷ s) p, cut_suffix-eq_some s p r)

append_self_nil : (x : ℕ) (r p : Text) → text_eq (x ∷ r ++ p) p ≡ true → ⊥
append_self_nil x r p h =
    omega (arith, ap length (text_eq_sound (x ∷ r ++ p) p h), length-append r p)

pub cut_suffix-append : (r p : Text) → cut_suffix (r ++ p) p ≡ some r
unfolding cut_suffix text_eq
cut_suffix-append [] [] = refl
cut_suffix-append [] (y ∷ p) = rw text_eq_refl
cut_suffix-append (x ∷ r) p = ground (arith, append_self_nil x r p, cut_suffix-append r p)

pub has_prefix_iff : (s p : Text) → (has_prefix s p ≡ true) ↔ ((r : Text) × (s ≡ p ++ r))
unfolding has_prefix
has_prefix_iff s p = (
  λ h. elim (Option-cases (cut_prefix s p)) [
    | inl e ↦ ground arith
    | inr (r, e) ↦ (r, cut_prefix-eq_some s p r e)
  ],
  λ (r, e). rw e (has_prefix-append p r),
)

-- `strings.Join(parts, sep)`
unfoldable pub join : Text → List Text → Text
join sep [] = []
join sep (x ∷ []) = x
join sep (x ∷ y ∷ xs) = x ++ (sep ++ join sep (y ∷ xs))
