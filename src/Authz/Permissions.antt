-- ===== src/Authz/Permissions.antt =====
-- permissions.go: the vocabulary, and the permission that a request's attributes ask for.
use telemetry.Base.{
  ◌≡◌, ◌↔◌, ◌⊎◌, Bool, true, false, not, ◌&&◌, ◌||◌, Option, none, some, List, [], ◌∷◌,
  if◌then◌else◌, arith,
}
use telemetry.Base.Text.{Text, lit, text_eq, text_eq_iff}

abbrev pub api_group : Text
api_group = lit "o11y.miloapis.com"

abbrev pub api_version : Text
api_version = lit "v1alpha1"

pub record Permission : Type 0 where
  pub resource : Text
  pub verb : Text

-- authorizer.Attributes, as far as the code reads it.
pub record Attributes : Type 0 where
  pub is_resource_request : Bool
  pub api_group : Text
  pub api_version : Text
  pub resource : Text
  pub subresource : Text
  pub name : Text
  pub namespace : Text
  pub verb : Text
  pub path : Text

abbrev permission : Text → Text → Permission
permission r v = record { resource = r; verb = v }

abbrev pub permissions : List Permission
permissions =
    permission (lit "logs") (lit "query")
    ∷ permission (lit "logs") (lit "getLabels")
    ∷ permission (lit "logs") (lit "getSeries")
    ∷ permission (lit "metrics") (lit "query")
    ∷ permission (lit "metrics") (lit "getLabels")
    ∷ permission (lit "metrics") (lit "getSeries")
    ∷ []

listed : List Permission → Permission → Bool
listed [] p = false
listed (q ∷ qs) p = text_eq q.resource p.resource && text_eq q.verb p.verb || listed qs p

unfoldable pub known : Permission → Bool
unfolding listed
known p = listed permissions p

abbrev pub is_empty : Text → Bool
is_empty s = text_eq s []

-- What `permissionFor` answers for attributes that are not nil.
unfoldable pub permission_for : Attributes → Option Permission
permission_for attrs =
    let p = permission attrs.resource attrs.verb in
    if not attrs.is_resource_request
    then none
    else if not (text_eq attrs.api_group api_group) || not (text_eq attrs.api_version api_version)
    then none
    else if not (is_empty attrs.subresource)
        || not (is_empty attrs.name)
        || not (is_empty attrs.namespace)
    then none
    else if not (known p)
    then none
    else some p

-- The six permissions, written as the two resources and the three verbs.
pub record IsServed (p : Permission) : Type 0 where
  pub resource : (p.resource ≡ lit "logs") ⊎ (p.resource ≡ lit "metrics")
  pub verb : (p.verb ≡ lit "query") ⊎ ((p.verb ≡ lit "getLabels") ⊎ (p.verb ≡ lit "getSeries"))

pub known_iff : (p : Permission) → (known p ≡ true) ↔ IsServed p
unfolding known
known_iff p = ground (
  arith,
  text_eq_iff (lit "logs") p.resource,
  text_eq_iff (lit "metrics") p.resource,
  text_eq_iff (lit "query") p.verb,
  text_eq_iff (lit "getLabels") p.verb,
  text_eq_iff (lit "getSeries") p.verb,
)

-- A resource request for exactly a permission of the vocabulary.
pub record AsksFor (attrs : Attributes) : Type 0 where
  pub is_resource : attrs.is_resource_request ≡ true
  pub group : attrs.api_group ≡ api_group
  pub version : attrs.api_version ≡ api_version
  pub subresource : attrs.subresource ≡ []
  pub name : attrs.name ≡ []
  pub namespace : attrs.namespace ≡ []
  pub served : IsServed (permission attrs.resource attrs.verb)

pub permission_for-AsksFor :
    (attrs : Attributes) (p : Permission)
    → permission_for attrs ≡ some p
    → AsksFor attrs × (p ≡ permission attrs.resource attrs.verb)
unfolding permission_for
permission_for-AsksFor attrs p h = ground (
  arith,
  text_eq_iff attrs.api_group api_group,
  text_eq_iff attrs.api_version api_version,
  text_eq_iff attrs.subresource [],
  text_eq_iff attrs.name [],
  text_eq_iff attrs.namespace [],
  known_iff (permission attrs.resource attrs.verb),
)

pub AsksFor-permission_for :
    (attrs : Attributes)
    → AsksFor attrs
    → permission_for attrs ≡ some (permission attrs.resource attrs.verb)
unfolding permission_for
AsksFor-permission_for attrs h = ground (
  arith,
  text_eq_iff attrs.api_group api_group,
  text_eq_iff attrs.api_version api_version,
  text_eq_iff attrs.subresource [],
  text_eq_iff attrs.name [],
  text_eq_iff attrs.namespace [],
  known_iff (permission attrs.resource attrs.verb),
)
