-- ===== src/Handlers/Routes/Canonical.antt =====
-- The rewriting of short paths.
use telemetry.Base.{
  ◌≡◌, refl, sym, ◌∙◌, subst, ◌⊎◌, inl, inr, true, false, List, [], ◌∷◌, ◌++◌, arith, Bool-cases,
  if_true, if_false,
}
use telemetry.Base.Text.{Text, lit, text_eq, cut_prefix, trim_prefix, join, has_prefix-append}
use telemetry.Authz.Permissions.{api_group, api_version}
use telemetry.Authz.Guard.{group_prefix}
use telemetry.Handlers.Routes.{in_group, split_slash, is_loki, is_short, canonical_path}

is_loki-apis : (segs : List Text) → is_loki (lit "apis" ∷ segs) ≡ false
unfolding lit text_eq
is_loki-apis [] = refl
is_loki-apis (b ∷ []) = refl
is_loki-apis (b ∷ c ∷ segs) = refl

is_short-apis : (segs : List Text) → is_short (lit "apis" ∷ segs) ≡ false
unfolding lit text_eq
is_short-apis [] = refl
is_short-apis (b ∷ segs) = refl

-- The segments of a path below apis.
segments-apis :
    (rest : List Text) (seg : Text)
    → (segs : List Text) × (split_slash
          (trim_prefix (lit "/" ++ join (lit "/") (lit "apis" ∷ seg ∷ rest)) (lit "/"))
        ≡ lit "apis" ∷ segs)
unfolding lit trim_prefix cut_prefix join split_slash
segments-apis rest seg = (split_slash (join (lit "/") (seg ∷ rest)), refl)

canonical-apis :
    (rest : List Text) (seg : Text)
    → let path = lit "/" ++ join (lit "/") (lit "apis" ∷ seg ∷ rest) in canonical_path path ≡ path
unfolding canonical_path
canonical-apis rest seg =
    let (segs, e) = segments-apis rest seg in rw (e, is_loki-apis segs, is_short-apis segs) refl

in_group-below : (r : Text) → in_group ((group_prefix ++ lit "/") ++ r) ≡ true
unfolding in_group
in_group-below r = ground (arith, has_prefix-append (group_prefix ++ lit "/") r)

loki-in_group :
    (segs : List Text)
    → is_loki segs ≡ true
    → in_group
        (lit "/" ++ join (lit "/") (lit "apis" ∷ api_group ∷ api_version ∷ lit "logs" ∷ segs))
      ≡ true
unfolding join lit
loki-in_group segs h = in_group-below (join (lit "/") (api_version ∷ lit "logs" ∷ segs))

short-in_group :
    (segs : List Text)
    → is_short segs ≡ true
    → in_group (lit "/" ++ join (lit "/") (lit "apis" ∷ api_group ∷ segs)) ≡ true
unfolding join lit
short-in_group [] h = absurd (cc)
short-in_group (a ∷ []) h = absurd (cc)
short-in_group (a ∷ b ∷ segs) h = in_group-below (join (lit "/") (a ∷ b ∷ segs))

-- What the rewriting of a path comes to.
abbrev pub IsCanonical : Text → Text → Type 0
IsCanonical path after = (canonical_path after ≡ after) × ((after ≡ path) ⊎ (in_group after ≡ true))

-- A path that has been rewritten is not rewritten again, and the rewriting either keeps a path or
-- moves it below the service's group.
pub canonical_path-IsCanonical : (path : Text) → IsCanonical path (canonical_path path)
unfolding canonical_path
canonical_path-IsCanonical path =
    let segs = split_slash (trim_prefix path (lit "/")) in
    elim (Bool-cases (is_loki segs)) [
      | inl l ↦
          subst (IsCanonical path) (sym (if_true (is_loki segs) _ _ l))
            (canonical-apis (api_version ∷ lit "logs" ∷ segs) api_group, inr (loki-in_group segs l))
      | inr l ↦ elim (Bool-cases (is_short segs)) [
        | inl s ↦
            subst (IsCanonical path)
              (sym (if_false (is_loki segs) _ _ l ∙ if_true (is_short segs) _ _ s))
              (canonical-apis segs api_group, inr (short-in_group segs s))
        | inr s ↦
            let same = if_false (is_loki segs) _ _ l ∙ if_false (is_short segs) _ _ s in
            subst (IsCanonical path) (sym same) (same, inl refl)
      ]
    ]
