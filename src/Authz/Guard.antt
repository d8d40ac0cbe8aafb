-- ===== src/Authz/Guard.antt =====
-- guard.go: which requests are passed to the apiserver's authorizer, and which are denied unreviewed.
use telemetry.Base.{
  ◌≡◌, ◌≢◌, ◌↔◌, ◌⊎◌, inl, inr, refl, Bool, true, false, not, ◌||◌, Option, none, some, List, [],
  ◌∷◌, ◌++◌, if◌then◌else◌, arith, Bool-cases, Option-cases,
}
use telemetry.Base.Text.{Text, lit, text_eq, text_eq_iff, has_prefix, has_prefix_iff}
use telemetry.Authz.Permissions.{
  api_group, api_version, Attributes, permission_for, AsksFor, permission_for-AsksFor,
  AsksFor-permission_for,
}

abbrev pub group_prefix : Text
group_prefix = lit "/apis/" ++ api_group

abbrev pub version_path : Text
version_path = group_prefix ++ lit "/" ++ api_version

pub data Decision : Type 0 where
  deny allow no_opinion : Decision

-- The decision with its reason and error.
pub record Review (Error : Type 0) : Type 0 where
  pub decision : Decision
  pub reason : Text
  pub error : Option Error

-- What one call of Authorize did: its answer, the attributes that it had the delegate review, and
-- the labels of the counter that it incremented.
pub record Outcome (Error : Type 0) : Type 0 where
  pub answer : Review Error
  pub reviewed : List Attributes
  pub counted : List (Text × Text × Text)

unfoldable pub ours : Attributes → Bool
ours attrs =
    if attrs.is_resource_request
    then text_eq attrs.api_group api_group
    else text_eq attrs.path group_prefix || has_prefix attrs.path (group_prefix ++ lit "/")

unfoldable pub is_discovery : Attributes → Bool
is_discovery attrs = text_eq attrs.path group_prefix || text_eq attrs.path version_path

module _ {Error : Type 0} where
  unfoldable pub outcome : Review Error → Text
  outcome r = elim r.error [
    | some e ↦ lit "error"
    | none ↦ elim r.decision [ allow ↦ lit "allow" | _ ↦ lit "deny" ]
  ]

  abbrev denied : Text → List (Text × Text × Text) → Outcome Error
  denied reason counted = record {
    answer = record { decision = deny; reason = reason; error = none };
    reviewed = [];
    counted = counted;
  }

  module _ (delegate : Attributes → Review Error) where
    abbrev forwarded : Attributes → List (Text × Text × Text) → Outcome Error
    forwarded attrs counted = record {
      answer = delegate attrs;
      reviewed = attrs ∷ [];
      counted = counted;
    }

    authorize_path : Attributes → Outcome Error
    authorize_path attrs =
        if is_discovery attrs
        then forwarded attrs []
        else denied (lit "queryapi serves no such path") (([], [], lit "unmapped") ∷ [])

    authorize_resource : Attributes → Outcome Error
    authorize_resource attrs = elim (permission_for attrs) [
      | none ↦
          denied (lit "queryapi serves no such resource")
            ((attrs.resource, attrs.verb, lit "unmapped") ∷ [])
      | some p ↦ forwarded attrs ((p.resource, p.verb, outcome (delegate attrs)) ∷ [])
    ]

    authorize_attributes : Attributes → Outcome Error
    unfolding authorize_path authorize_resource
    authorize_attributes attrs =
        if not (ours attrs)
        then forwarded attrs []
        else if not attrs.is_resource_request
        then authorize_path attrs
        else authorize_resource attrs

    -- The method Authorize of the guard; none for nil attributes.
    unfoldable pub authorize : Option Attributes → Outcome Error
    unfolding authorize_attributes
    authorize none = denied (lit "no attributes to authorize") []
    authorize (some attrs) = authorize_attributes attrs

-- A request outside the service's API group: a resource of another group, or a path that is not the
-- group's and not below it.
abbrev pub IsForeign : Attributes → Type 0
IsForeign attrs =
    ((attrs.is_resource_request ≡ true) × (attrs.api_group ≢ api_group))
    ⊎ ((attrs.is_resource_request ≡ false)
        × (attrs.path ≢ group_prefix)
        × ((rest : Text) → attrs.path ≢ (group_prefix ++ lit "/") ++ rest))

abbrev pub IsDiscovery : Attributes → Type 0
IsDiscovery attrs =
    (attrs.is_resource_request ≡ false)
    × ((attrs.path ≡ group_prefix) ⊎ (attrs.path ≡ version_path))

-- What may be reviewed at all.
abbrev pub IsReviewable : Attributes → Type 0
IsReviewable attrs = IsForeign attrs ⊎ (IsDiscovery attrs ⊎ AsksFor attrs)

ours-IsForeign : (attrs : Attributes) → ours attrs ≡ false → IsForeign attrs
unfolding ours
ours-IsForeign attrs h = elim (Bool-cases attrs.is_resource_request) [
  | inl r ↦ inl (r, ground (arith, text_eq_iff attrs.api_group api_group))
  | inr r ↦ inr (
    r,
    ground (arith, text_eq_iff attrs.path group_prefix),
    λ rest e. ground (arith, (has_prefix_iff attrs.path (group_prefix ++ lit "/")).1 (rest, e)),
  )
]

IsForeign-ours : (attrs : Attributes) → IsForeign attrs → ours attrs ≡ false
unfolding ours
IsForeign-ours attrs (inl h) = ground (arith, text_eq_iff attrs.api_group api_group)
IsForeign-ours attrs (inr (r, away, below)) =
    elim (Bool-cases (has_prefix attrs.path (group_prefix ++ lit "/"))) [
      | inl under ↦
          let (rest, e) = (has_prefix_iff attrs.path (group_prefix ++ lit "/")).0 under in
          absurd (below rest e)
      | inr apart ↦ ground (arith, text_eq_iff attrs.path group_prefix)
    ]

discovery_iff :
    (attrs : Attributes)
    → (is_discovery attrs ≡ true) ↔ ((attrs.path ≡ group_prefix) ⊎ (attrs.path ≡ version_path))
unfolding is_discovery
discovery_iff attrs =
    ground (arith, text_eq_iff attrs.path group_prefix, text_eq_iff attrs.path version_path)

-- What Authorize owes a request: the delegate's answer after exactly one review, or an error-free
-- denial after none.
abbrev pub Guards :
    {Error : Type 0} → (Attributes → Review Error) → Attributes → Outcome Error → Type 0
Guards delegate attrs out =
    (IsReviewable attrs × (out.reviewed ≡ attrs ∷ []) × (out.answer ≡ delegate attrs))
    ⊎ ((¬ IsReviewable attrs)
        × (out.reviewed ≡ [])
        × (out.answer.decision ≡ deny)
        × (out.answer.error ≡ none))

module _ {Error : Type 0} (delegate : Attributes → Review Error) (attrs : Attributes) where
  open_Guards : ours attrs ≡ false → Guards delegate attrs (authorize delegate (some attrs))
  unfolding authorize
  open_Guards h = inl (inl (ours-IsForeign attrs h), ground arith, ground arith)

  path_Guards :
      ours attrs ≡ true
      → attrs.is_resource_request ≡ false
      → Guards delegate attrs (authorize delegate (some attrs))
  unfolding authorize
  path_Guards own path = elim (Bool-cases (is_discovery attrs)) [
    | inl d ↦ inl (inr (inl (path, (discovery_iff attrs).0 d)), ground arith, ground arith)
    | inr d ↦ inr (
      λ r. elim r [
        | inl f ↦ cc (IsForeign-ours attrs f)
        | inr (inl (_, p)) ↦ cc ((discovery_iff attrs).1 p)
        | inr (inr a) ↦ cc (a.is_resource)
      ],
      ground arith,
      ground arith,
      ground arith,
    )
  ]

  resource_Guards :
      ours attrs ≡ true
      → attrs.is_resource_request ≡ true
      → Guards delegate attrs (authorize delegate (some attrs))
  unfolding authorize
  resource_Guards own resource = elim (Option-cases (permission_for attrs)) [
    | inl none_of ↦ inr (
      λ r. elim r [
        | inl f ↦ cc (IsForeign-ours attrs f)
        | inr (inl (p, _)) ↦ cc p
        | inr (inr a) ↦ cc (AsksFor-permission_for attrs a)
      ],
      ground arith,
      ground arith,
      ground arith,
    )
    | inr (p, e) ↦ inl (inr (inr (permission_for-AsksFor attrs p e).0), ground arith, ground arith)
  ]

  -- The guard passes a request on to the delegate, once, and answers as it does, exactly if the
  -- request is foreign to the service's group, names one of the two discovery documents, or is a
  -- resource request for one of the six permissions with no name, namespace or subresource. It denies
  -- every other request without a review and without an error.
  pub authorize-Guards : Guards delegate attrs (authorize delegate (some attrs))
  authorize-Guards = elim (Bool-cases (ours attrs)) [
    | inr foreign ↦ open_Guards foreign
    | inl own ↦ elim (Bool-cases attrs.is_resource_request) [
      | inl resource ↦ resource_Guards own resource
      | inr path ↦ path_Guards own path
    ]
  ]

-- Whatever the delegate says, no request is allowed that it did not allow itself; nil attributes are
-- denied.
pub allow-of_authorize :
    {Error : Type 0} (delegate : Attributes → Review Error) (request : Option Attributes)
    → (authorize delegate request).answer.decision ≡ allow
    → (attrs : Attributes) × (request ≡ some attrs)
      × IsReviewable attrs
      × ((delegate attrs).decision ≡ allow)
unfolding authorize
allow-of_authorize delegate none h = ground arith
allow-of_authorize delegate (some attrs) h = elim (authorize-Guards delegate attrs) [
  | inl (ok, _, e) ↦ (attrs, refl, ok, cc)
  | inr (_, _, d, _) ↦ absurd (cc)
]
