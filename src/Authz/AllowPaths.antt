-- ===== src/Authz/AllowPaths.antt =====
-- ValidateAlwaysAllowPaths of permissions.go.
use telemetry.Base.{
  ◌≡◌, refl, sym, ap, ◌∙◌, ◌⊎◌, inl, inr, Bool, true, ◌||◌, Option, none, some, List, [], ◌∷◌, ◌++◌,
  All, if◌then◌else◌, arith, append_assoc,
}
use telemetry.Base.Text.{
  Text, lit, has_prefix, has_prefix-append, trim_prefix, trim_suffix, cut_suffix-append,
}
use telemetry.Authz.Permissions.{api_group}

abbrev pub api_prefix : Text
api_prefix = lit "/apis/" ++ api_group

abbrev pub normalized : Text → Text
normalized p = lit "/" ++ trim_prefix p (lit "/")

unfoldable pub reaches_group : Text → Bool
reaches_group n = has_prefix n api_prefix || has_prefix api_prefix (trim_suffix n (lit "*"))

-- The first path that is refused; none for a nil error.
unfoldable pub validate_always_allow_paths : List Text → Option Text
unfolding reaches_group
validate_always_allow_paths [] = none
validate_always_allow_paths (p ∷ ps) =
    let rest = validate_always_allow_paths ps in
    if reaches_group (normalized p) then some p else rest

-- A path of the flag stands for itself, and with a final * for all paths that start so.
abbrev pub Covers : Text → Text → Type 0
Covers n q = (q ≡ n) ⊎ ((r : Text) × (s : Text) × (n ≡ r ++ lit "*") × (q ≡ r ++ s))

common_prefix :
    (a b c d : Text) → a ++ b ≡ c ++ d → ((t : Text) × (c ≡ a ++ t)) ⊎ ((t : Text) × (a ≡ c ++ t))
common_prefix [] b c d e = inl (c, refl)
common_prefix (x ∷ a) b [] d e = inr (x ∷ a, refl)
common_prefix (x ∷ a) b (y ∷ c) d e = elim (common_prefix a b c d (cc)) [
  | inl (t, p) ↦ inl (t, cc)
  | inr (t, p) ↦ inr (t, cc)
]

trim_star : (r : Text) → trim_suffix (r ++ lit "*") (lit "*") ≡ r
unfolding trim_suffix
trim_star r = ground (arith, cut_suffix-append r (lit "*"))

covered : (n rest : Text) → Covers n (api_prefix ++ rest) → reaches_group n ≡ true
unfolding reaches_group
covered n rest (inl e) = rw (← e) (ground (arith, has_prefix-append api_prefix rest))
covered n rest (inr (r, s, star, e)) = elim (common_prefix r s api_prefix rest (sym e)) [
  | inl (t, p) ↦ ground (
    arith,
    ap (λ m. has_prefix api_prefix (trim_suffix m (lit "*"))) star,
    ap (has_prefix api_prefix) (trim_star r),
    ap (λ m. has_prefix m r) p,
    has_prefix-append r t,
  )
  | inr (t, p) ↦
      let long : n ≡ api_prefix ++ (t ++ lit "*") =
        star ∙ ap (λ m. m ++ lit "*") p ∙ append_assoc api_prefix t (lit "*") in
      ground
        (arith, ap (λ m. has_prefix m api_prefix) long, has_prefix-append api_prefix (t ++ lit "*"))
]

-- No accepted path covers any path under the service's API group, not through a final * either.
pub validate_always_allow_paths-Covers :
    (paths : List Text)
    → validate_always_allow_paths paths ≡ none
    → All (λ p. (rest : Text) → ¬ Covers (normalized p) (api_prefix ++ rest)) paths
unfolding validate_always_allow_paths
validate_always_allow_paths-Covers [] h = tt
validate_always_allow_paths-Covers (p ∷ ps) h = (
  λ rest c. ground (arith, covered (normalized p) rest c),
  validate_always_allow_paths-Covers ps (ground arith),
)
