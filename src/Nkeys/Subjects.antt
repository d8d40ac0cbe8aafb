-- ===== src/Nkeys/Subjects.antt =====
-- The subjects of a leaf's user block: the cluster they name, and that clusters share none.
use telemetry.Base.{
  ℕ, ◌≤◌, ◌≡◌, ◌≢◌, Bool-cases, false, refl, sym, ap, ◌∙◌, ◌⊎◌, inl, inr, Bool, true, false, not,
  ◌&&◌, ◌||◌, ◌==◌, Option, none, some, List, [], ◌∷◌, ◌++◌, length, arith, ==_iff, leb→le,
  if_false, subst, if◌then◌else◌,
}
use telemetry.Base.Text.{Text, lit, text_eq, text_eq_iff, cut_prefix-append, cut_suffix-append}
use telemetry.Nkeys.Users.{
  User, name_tail, valid_cluster_name, leaf_subject, to_any, nkey_user, cluster_of_subject,
  cluster_from_user, cluster_of_allow,
}

cluster_of_subject-leaf :
    (cluster : Text) → cluster_of_subject (leaf_subject (lit "o11y.logs.") cluster) ≡ some cluster
unfolding cluster_of_subject
cluster_of_subject-leaf cluster = rw (
  cut_prefix-append (lit "o11y.logs.") (cluster ++ lit ".*"),
  cut_suffix-append cluster (lit ".*"),
  cluster_of_subject,
)

-- The cluster of a user block that `nkey_user` made is the one it was made for, whatever its name.
pub cluster_from_user-nkey_user :
    (cluster key fallback : Text) → cluster_from_user (nkey_user cluster key) fallback ≡ cluster
unfolding cluster_from_user nkey_user to_any cluster_of_allow
cluster_from_user-nkey_user cluster key fallback =
    rw (cluster_of_subject-leaf cluster, cluster_from_user, cluster_of_allow, nkey_user)

abbrev pub has_no_dot : Text → Bool
has_no_dot [] = true
has_no_dot (x ∷ s) = not (x == b'.') && has_no_dot s

name_tail-has_no_dot : (s : Text) → name_tail s ≡ true → has_no_dot s ≡ true
unfolding name_tail
name_tail-has_no_dot [] h = refl
name_tail-has_no_dot (c ∷ []) h = ground (arith, ==_iff c b'.')
name_tail-has_no_dot (c ∷ d ∷ r) h = ground (arith, ==_iff c b'.', name_tail-has_no_dot (d ∷ r))

-- A valid cluster name is one token of a subject, of 1 to 63 bytes.
valid_cluster_name-has_no_dot :
    (s : Text)
    → valid_cluster_name s ≡ true
    → (has_no_dot s ≡ true) × (1 ≤ length s) × (length s ≤ 63)
unfolding valid_cluster_name
valid_cluster_name-has_no_dot [] h = cc
valid_cluster_name-has_no_dot (c ∷ r) h =
    ground (arith, ==_iff c b'.', name_tail-has_no_dot r, leb→le (length r) 62)

abbrev grow : ℕ → List Text → List Text
grow x [] = (x ∷ []) ∷ []
grow x (token ∷ tokens) = (x ∷ token) ∷ tokens

abbrev is_last : List Text → Bool
is_last [] = true
is_last (p ∷ ps) = false

-- The tokens of a subject: what stands between its dots.
abbrev pub tokens_of : Text → List Text
tokens_of [] = [] ∷ []
tokens_of (x ∷ s) = let rest = tokens_of s in if x == b'.' then [] ∷ rest else grow x rest

-- NATS's matching of a subject by a pattern, token by token: `*` stands for one token and a final `>`
-- for one or more.
abbrev pub matches : List Text → List Text → Bool
matches [] [] = true
matches [] (t ∷ ts) = false
matches (p ∷ ps) [] = false
matches (p ∷ ps) (t ∷ ts) =
    let rest = matches ps ts in
    (text_eq p (lit ">") && is_last ps) || ((text_eq p (lit "*") || text_eq p t) && rest)

-- The subject is open to one of the patterns; an entry that is not a string is none.
abbrev pub is_allowed : Text → List (Option Text) → Bool
is_allowed subject [] = false
is_allowed subject (none ∷ allow) = is_allowed subject allow
is_allowed subject (some pattern ∷ allow) =
    matches (tokens_of pattern) (tokens_of subject) || is_allowed subject allow

-- A user without a list of publish permissions may publish to every subject.
abbrev pub may_publish : User → Text → Bool
may_publish u subject = elim u.publish [ none ↦ true | some allow ↦ is_allowed subject allow ]

-- A valid name is one token, and not a wildcard.
tokens_of-append :
    (c s : Text) → has_no_dot c ≡ true → tokens_of (c ++ (b'.' ∷ s)) ≡ c ∷ tokens_of s
tokens_of-append [] s h = refl
tokens_of-append (x ∷ c) s h =
    let (not_dot, rest) : (x == b'.' ≡ false) × (has_no_dot c ≡ true) =
      (ground arith, ground arith) in
    if_false (x == b'.') _ _ not_dot ∙ ap (grow x) (tokens_of-append c s rest)

tokens_of-leaf_subject :
    (kind c : Text)
    → has_no_dot kind ≡ true
    → has_no_dot c ≡ true
    → tokens_of (lit "o11y." ++ (kind ++ (b'.' ∷ (c ++ lit ".*"))))
      ≡ lit "o11y" ∷ kind ∷ c ∷ lit "*" ∷ []
unfolding lit
tokens_of-leaf_subject kind c hk hc =
    tokens_of-append (lit "o11y") (kind ++ (b'.' ∷ (c ++ lit ".*"))) refl
    ∙ ap (λ l. lit "o11y" ∷ l)
        (tokens_of-append kind (c ++ lit ".*") hk
          ∙ ap (λ l. kind ∷ l) (tokens_of-append c (lit "*") hc))

abbrev third : List Text → Text
third (a ∷ b ∷ c ∷ ts) = c
third _ = []

abbrev is_open_end : Text → Bool
is_open_end p = text_eq p (lit ">")

-- A token that is no wildcard.
abbrev IsPlain : Text → Type 0
IsPlain c = (is_open_end c ≡ false) × (text_eq c (lit "*") ≡ false)

matches_rest :
    (p : Text) (ps : List Text) (t : Text) (ts : List Text)
    → is_open_end p ≡ false
    → matches (p ∷ ps) (t ∷ ts) ≡ true
    → matches ps ts ≡ true
matches_rest p ps t ts hp h = ground arith

matches_first :
    (p : Text) (ps : List Text) (t : Text) (ts : List Text)
    → IsPlain p
    → matches (p ∷ ps) (t ∷ ts) ≡ true
    → t ≡ p
matches_first p ps t ts (h₁, h₂) h =
    let e : text_eq p t ≡ true = ground arith in sym ((text_eq_iff p t).0 e)

matches-third :
    (a b c : Text) (ps ts : List Text)
    → is_open_end a ≡ false
    → is_open_end b ≡ false
    → IsPlain c
    → matches (a ∷ b ∷ c ∷ ps) ts ≡ true
    → third ts ≡ c
matches-third a b c ps [] ha hb hc h = absurd (ground arith)
matches-third a b c ps (t ∷ []) ha hb hc h =
    let none_left : false ≡ true = matches_rest a (b ∷ c ∷ ps) t [] ha h in absurd cc
matches-third a b c ps (t ∷ u ∷ []) ha hb hc h =
    let none_left : false ≡ true =
      matches_rest b (c ∷ ps) u [] hb (matches_rest a (b ∷ c ∷ ps) t (u ∷ []) ha h) in
    absurd cc
matches-third a b c ps (t ∷ u ∷ v ∷ ts) ha hb hc h =
    matches_first c ps v ts hc
      (matches_rest b (c ∷ ps) u (v ∷ ts) hb (matches_rest a (b ∷ c ∷ ps) t (u ∷ v ∷ ts) ha h))

-- A cluster's valid name is a token that is no wildcard.
valid_cluster_name-IsPlain : (s : Text) → valid_cluster_name s ≡ true → IsPlain s
unfolding valid_cluster_name text_eq lit
valid_cluster_name-IsPlain [] h = absurd (ground arith)
valid_cluster_name-IsPlain (c ∷ r) h =
    (ground (arith, ==_iff c b'>'), ground (arith, ==_iff c b'*'))

third_of_leaf :
    (kind c s : Text)
    → has_no_dot kind ≡ true
    → is_open_end kind ≡ false
    → valid_cluster_name c ≡ true
    → matches (tokens_of (lit "o11y." ++ (kind ++ (b'.' ∷ (c ++ lit ".*"))))) (tokens_of s) ≡ true
    → third (tokens_of s) ≡ c
unfolding lit text_eq
third_of_leaf kind c s hk hp vc h =
    matches-third (lit "o11y") kind c (lit "*" ∷ []) (tokens_of s) refl hp
      (valid_cluster_name-IsPlain c vc)
      (subst (λ ps. matches ps (tokens_of s) ≡ true)
        (tokens_of-leaf_subject kind c hk (valid_cluster_name-has_no_dot c vc).0) h)

or_cases : (a b : Bool) → (a || b) ≡ true → (a ≡ true) ⊎ (b ≡ true)
or_cases true b h = inl refl
or_cases false b h = inr h

may_publish-third :
    (c key s : Text)
    → valid_cluster_name c ≡ true
    → may_publish (nkey_user c key) s ≡ true
    → third (tokens_of s) ≡ c
unfolding nkey_user to_any lit text_eq
may_publish-third c key s vc h = elim (or_cases _ _ h) [
  | inl p ↦ third_of_leaf (lit "logs") c s refl refl vc p
  | inr h₁ ↦ elim (or_cases _ _ h₁) [
    | inl p ↦ third_of_leaf (lit "metrics") c s refl refl vc p
    | inr h₂ ↦ elim (or_cases _ _ h₂) [
      | inl p ↦ third_of_leaf (lit "traces") c s refl refl vc p
      | inr h₃ ↦ absurd (ground arith)
    ]
  ]
]

-- No subject that NATS lets the leaf of one cluster publish to is open to the leaf of another one,
-- where both have valid names.
pub nkey_user-Isolated :
    (c d key key' subject : Text)
    → valid_cluster_name c ≡ true
    → valid_cluster_name d ≡ true
    → c ≢ d
    → may_publish (nkey_user c key) subject ≡ true
    → may_publish (nkey_user d key') subject ≡ false
nkey_user-Isolated c d key key' s vc vd differ mc =
    elim (Bool-cases (may_publish (nkey_user d key') s)) [
      | inr shut ↦ shut
      | inl md ↦
          absurd (differ (sym (may_publish-third c key s vc mc) ∙ may_publish-third d key' s vd md))
    ]
