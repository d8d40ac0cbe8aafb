-- ===== src/Authz/Project.antt =====
-- queryapi/internal/miloauth: Resolve and the middleware that binds a request to its project.
use telemetry.Base.{
  ℕ, ◌≤◌, ◌≡◌, ◌≢◌, refl, Bool, true, false, not, ◌&&◌, ◌||◌, Option, none, some, List, [], ◌∷◌,
  All, length, leb, ◌==◌, if◌then◌else◌, arith,
}
use telemetry.Base.Text.{Text, lit, text_eq, text_eq_iff}

-- user.Info, as far as it is read: the extras of the verified identity.
pub record UserInfo : Type 0 where
  pub extra : Text → List Text

abbrev pub parent_type_extra : Text
parent_type_extra = lit "iam.miloapis.com/parent-type"

abbrev pub parent_name_extra : Text
parent_name_extra = lit "iam.miloapis.com/parent-name"

unfoldable pub first : List Text → Text
first [] = []
first (v ∷ vs) = v

abbrev pub is_lower_alnum : ℕ → Bool
is_lower_alnum c = leb b'a' c && leb c b'z' || leb b'0' c && leb c b'9'

abbrev pub is_id_char : ℕ → Bool
is_id_char c = is_lower_alnum c || (c == b'-' || c == b'.')

-- `([-a-z0-9.]*[a-z0-9])?$`, after the first character.
id_tail : Text → Bool
id_tail [] = true
id_tail (c ∷ []) = is_lower_alnum c
id_tail (c ∷ d ∷ r) = is_id_char c && id_tail (d ∷ r)

-- `^[a-z0-9]([-a-z0-9.]*[a-z0-9])?$`
unfoldable pub valid_project_id : Text → Bool
unfolding id_tail
valid_project_id [] = false
valid_project_id (c ∷ r) = is_lower_alnum c && id_tail r

unfoldable pub valid_id : Text → Bool
valid_id id = not (text_eq id []) && (leb (length id) 253 && valid_project_id id)

-- none for an answer of false; a nil user is none.
unfoldable pub resolve : Option UserInfo → Option Text
unfolding first
resolve none = none
resolve (some u) =
    if not (text_eq (first (u.extra parent_type_extra)) (lit "Project"))
    then none
    else let id = first (u.extra parent_name_extra) in if valid_id id then some id else none

-- What a request becomes: the handler's call with the bound project, or 403 with a message.
pub data Served : Type 0 where
  handled : Text → Served
  forbidden : Text → Served

bind_project : Option Text → Served
bind_project none = forbidden (lit "request is not scoped to a project")
bind_project (some id) = handled id

-- The context's user is none where the request was not authenticated.
unfoldable pub middleware : Option UserInfo → Served
unfolding bind_project
middleware none = forbidden (lit "request is not authenticated")
middleware (some u) = bind_project (resolve (some u))

-- A bound project id: what a SQL setting or a query parameter may carry.
pub record IsProjectId (id : Text) : Type 0 where
  pub nonempty : id ≢ []
  pub bounded : length id ≤ 253
  pub plain : All (λ c. is_id_char c ≡ true) id

id_tail-plain : (r : Text) → id_tail r ≡ true → All (λ c. is_id_char c ≡ true) r
unfolding id_tail
id_tail-plain [] h = tt
id_tail-plain (c ∷ []) h = (ground arith, tt)
id_tail-plain (c ∷ d ∷ r) h = (ground arith, id_tail-plain (d ∷ r) (ground arith))

valid_project_id-plain :
    (id : Text) → valid_project_id id ≡ true → All (λ c. is_id_char c ≡ true) id
unfolding valid_project_id
valid_project_id-plain [] h = tt
valid_project_id-plain (c ∷ r) h = (ground arith, id_tail-plain r (ground arith))

valid_id-IsProjectId : (id : Text) → valid_id id ≡ true → IsProjectId id
unfolding valid_id
valid_id-IsProjectId id h = record {
  nonempty = ground (arith, text_eq_iff id []);
  bounded = ground arith;
  plain = valid_project_id-plain id (ground arith);
}

-- The handler runs only for an authenticated caller whose first parent type is Project, and on the
-- project that the caller's first parent name gives: a nonempty name of at most 253 letters, digits,
-- dots and dashes.
pub middleware-IsProjectId :
    (u : Option UserInfo) (id : Text)
    → middleware u ≡ handled id
    → (v : UserInfo) × (u ≡ some v)
      × (first (v.extra parent_type_extra) ≡ lit "Project")
      × (first (v.extra parent_name_extra) ≡ id)
      × IsProjectId id
unfolding middleware resolve
middleware-IsProjectId none id h = absurd (ground arith)
middleware-IsProjectId (some u) id h =
    let kind = first (u.extra parent_type_extra) in
    let named : (valid_id (first (u.extra parent_name_extra)) ≡ true)
        × (first (u.extra parent_name_extra) ≡ id) =
      ground arith in
    (
      u,
      refl,
      ground (arith, text_eq_iff kind (lit "Project")),
      named.1,
      rw (named.1) at (valid_id-IsProjectId _ named.0),
    )
