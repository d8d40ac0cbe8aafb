-- ===== src/Handlers/Routes/Reviewed.antt =====
-- Which requests of the service's group are reviewed, and for which permission.
use mathlib.Core.Option.{some-injective}
use mathlib.Core.Sum.{inl-injective}
use telemetry.Base.{
  ◌≡◌, refl, sym, ◌∙◌, subst, ◌⊎◌, inl, inr, true, Option, none, some, List, [], ◌∷◌, ◌++◌, All,
  arith, Bool-cases, if_true, if_false,
}
use telemetry.Base.Text.{Text, lit, text_eq, text_eq_iff, has_prefix, has_prefix_iff}
use telemetry.Base.Assoc.{lookup, insert, insert-All}
use telemetry.Authz.Permissions.{Permission, Attributes, known, known_iff, AsksFor}
use telemetry.Authz.Guard.{
  group_prefix, Review, Outcome, deny, authorize, IsForeign, IsDiscovery, authorize-Guards,
}
use telemetry.Handlers.Routes.{
  Route, Permissions, register, new_router, HttpRequest, in_group, resource_info, path_info,
  found_info, matched_info, new_request_info,
}

abbrev IsKnown : Text × Permission → Type 0
IsKnown entry = known entry.1 ≡ true

register-IsKnown :
    (rest : List Route) (table after : Permissions)
    → All IsKnown table
    → register rest table ≡ inl after
    → All IsKnown after
unfolding register
register-IsKnown [] table after h e = subst (All IsKnown) (inl-injective table after e) h
register-IsKnown (r ∷ rest) table after h e = elim (Bool-cases (known r.permission)) [
  | inl k ↦
      register-IsKnown rest (insert r.pattern r.permission table) after
        (insert-All IsKnown r.pattern r.permission k table h)
        (sym (if_true (known r.permission) _ _ k) ∙ e)
  | inr k ↦ let wrong = sym (if_false (known r.permission) _ _ k) ∙ e in absurd (cc (wrong))
]

lookup-IsKnown :
    (pattern : Text) (table : Permissions) (p : Permission)
    → All IsKnown table
    → lookup pattern table ≡ some p
    → known p ≡ true
unfolding lookup
lookup-IsKnown pattern [] p h e = absurd (cc)
lookup-IsKnown pattern ((j, q) ∷ table) p h e = elim (Bool-cases (text_eq j pattern)) [
  | inl k ↦
      subst (λ (r : Permission). known r ≡ true)
        (some-injective q p (sym (if_true (text_eq j pattern) _ _ k) ∙ e)) h.0
  | inr k ↦ lookup-IsKnown pattern table p h.1 (sym (if_false (text_eq j pattern) _ _ k) ∙ e)
]

-- Attributes of a path of the group belong to the service.
path-not-IsForeign : (path verb : Text) → in_group path ≡ true → ¬ IsForeign (path_info path verb)
unfolding in_group
path-not-IsForeign path verb h (inl (r, g)) = cc
path-not-IsForeign path verb h (inr (r, away, below)) =
    elim (Bool-cases (has_prefix path (group_prefix ++ lit "/"))) [
      | inl u ↦ let (rest, e) = (has_prefix_iff path (group_prefix ++ lit "/")).0 u in below rest e
      | inr u ↦ ground (arith, text_eq_iff path group_prefix)
    ]

module _ {Error : Type 0} (delegate : Attributes → Review Error) (to_lower : Text → Text)
    (mux : HttpRequest → Option Text) (fallback : HttpRequest → Attributes)
    (table : Permissions) where
  -- The request is reviewed for the permission of the pattern that serves it.
  abbrev pub IsReviewedFor : HttpRequest → Attributes → Outcome Error → Type 0
  IsReviewedFor req attrs out =
      (pattern : Text) × (p : Permission) × (mux req ≡ some pattern)
      × (lookup pattern table ≡ some p)
      × (attrs ≡ resource_info req.path p)
      × (out.reviewed ≡ attrs ∷ [])
      × (out.answer ≡ delegate attrs)

  abbrev pub IsDiscovered : Attributes → Outcome Error → Type 0
  IsDiscovered attrs out = IsDiscovery attrs × (out.reviewed ≡ attrs ∷ [])

  abbrev pub IsDenied : Outcome Error → Type 0
  IsDenied out = (out.reviewed ≡ []) × (out.answer.decision ≡ deny)

  resource-reviewed :
      (path : Text) (p : Permission)
      → known p ≡ true
      → let attrs = resource_info path p in
        let out = authorize delegate (some attrs) in
        (out.reviewed ≡ attrs ∷ []) × (out.answer ≡ delegate attrs)
  resource-reviewed path p k =
      let attrs = resource_info path p in
      let asks : AsksFor attrs = record {
        is_resource = refl;
        group = refl;
        version = refl;
        subresource = refl;
        name = refl;
        namespace = refl;
        served = (known_iff p).0 k;
      } in
      elim (authorize-Guards delegate attrs) [
        | inl (r, e, a) ↦ (e, a)
        | inr (no_review, e, d, x) ↦ absurd (no_review (inr (inr asks)))
      ]

  path-settled :
      (path verb : Text)
      → in_group path ≡ true
      → let attrs = path_info path verb in
        let out = authorize delegate (some attrs) in IsDiscovered attrs out ⊎ IsDenied out
  path-settled path verb h = elim (authorize-Guards delegate (path_info path verb)) [
    | inl (inl foreign, e, a) ↦ absurd (path-not-IsForeign path verb h foreign)
    | inl (inr (inl discovery), e, a) ↦ inl (discovery, e)
    | inl (inr (inr asks), e, a) ↦ absurd (cc (asks.is_resource))
    | inr (no_review, e, d, x) ↦ inr (e, d)
  ]

  -- What becomes of a request of the group, by the pattern that the mux finds.
  abbrev pub IsSettled : HttpRequest → Attributes → Type 0
  IsSettled req attrs =
      let out = authorize delegate (some attrs) in
      IsReviewedFor req attrs out ⊎ (IsDiscovered attrs out ⊎ IsDenied out)

  found-IsSettled :
      (req : HttpRequest)
      → in_group req.path ≡ true
      → All IsKnown table
      → (pattern : Text) → mux req ≡ some pattern
      → (o : Option Permission) → lookup pattern table ≡ o
      → IsSettled req (found_info to_lower mux fallback table req o)
  found-IsSettled req h known_all pattern m none e = inr (path-settled req.path _ h)
  found-IsSettled req h known_all pattern m (some p) e =
      let (asked, answered) =
        resource-reviewed req.path p (lookup-IsKnown pattern table p known_all e) in
      inl (pattern, p, m, e, refl, asked, answered)

  matched-IsSettled :
      (req : HttpRequest)
      → in_group req.path ≡ true
      → All IsKnown table
      → (o : Option Text) → mux req ≡ o
      → IsSettled req (matched_info to_lower mux fallback table req o)
  matched-IsSettled req h known_all none m = inr (path-settled req.path _ h)
  matched-IsSettled req h known_all (some pattern) m =
      found-IsSettled req h known_all pattern m (lookup pattern table) refl

  -- With the table of a router that could be built: the guard has a request to the service's group
  -- reviewed for the permission that the table has for the very pattern by which the mux serves the
  -- request, and gives the answer of that review; or the request is for a discovery document of
  -- the group and reviewed as that path; or it is denied without a review.
  pub new_request_info-IsSettled :
      (rows : List Route)
      → new_router rows ≡ inl table
      → (req : HttpRequest) → in_group req.path ≡ true
      → IsSettled req (new_request_info to_lower mux fallback table req)
  unfolding new_request_info new_router
  new_request_info-IsSettled rows built req h =
      subst (IsSettled req) (sym (if_true (in_group req.path) _ _ h))
        (matched-IsSettled req h (register-IsKnown rows [] table tt built) (mux req) refl)
