-- ===== src/Handlers/Routes.antt =====
-- queryapi/routes.go: the table of routes, the permission that a request is reviewed for, and the
-- rewriting of short paths. http.ServeMux and the apiserver's own resolver are parameters.
pub mod Reviewed
pub mod Canonical
use telemetry.Base.{
  ℕ, ◌⊎◌, inl, inr, Bool, true, false, ◌&&◌, ◌||◌, ◌==◌, Option, none, some, List, [], ◌∷◌, ◌++◌,
  if◌then◌else◌,
}
use telemetry.Base.Text.{Text, lit, text_eq, has_prefix, trim_prefix, join}
use telemetry.Base.Assoc.{lookup, insert}
use telemetry.Authz.Permissions.{api_group, api_version, Permission, Attributes, known}
use telemetry.Authz.Guard.{group_prefix}

abbrev pub api_prefix : Text
api_prefix = lit "/apis/" ++ (api_group ++ (lit "/" ++ api_version))

-- A route without its handler.
pub record Route : Type 0 where
  pub pattern : Text
  pub permission : Permission

abbrev route : Text → Text → Text → Text → Route
route method path resource verb = record {
  pattern = method ++ (lit " " ++ (api_prefix ++ path));
  permission = record { resource = resource; verb = verb };
}

abbrev pub routes : List Route
routes =
    route (lit "GET") (lit "/logs/loki/api/v1/query") (lit "logs") (lit "query")
    ∷ route (lit "GET") (lit "/logs/loki/api/v1/query_range") (lit "logs") (lit "query")
    ∷ route (lit "GET") (lit "/logs/loki/api/v1/labels") (lit "logs") (lit "getLabels")
    ∷ route (lit "GET") (lit "/logs/loki/api/v1/label/{name}/values") (lit "logs") (lit "getLabels")
    ∷ route (lit "GET") (lit "/logs/loki/api/v1/series") (lit "logs") (lit "getSeries")
    ∷ route (lit "POST") (lit "/metrics/api/v1/query") (lit "metrics") (lit "query")
    ∷ route (lit "POST") (lit "/metrics/api/v1/query_range") (lit "metrics") (lit "query")
    ∷ route (lit "GET") (lit "/metrics/api/v1/labels") (lit "metrics") (lit "getLabels")
    ∷ route (lit "GET") (lit "/metrics/api/v1/label/{name}/values") (lit "metrics")
        (lit "getLabels")
    ∷ route (lit "GET") (lit "/metrics/api/v1/series") (lit "metrics") (lit "getSeries")
    ∷ []

-- The permissions of the patterns, or the pattern whose permission is not known.
abbrev pub Permissions : Type 0
Permissions = List (Text × Permission)

unfoldable pub register : List Route → Permissions → Permissions ⊎ Text
unfolding known insert
register [] table = inl table
register (r ∷ rest) table =
    let next = register rest (insert r.pattern r.permission table) in
    if known r.permission then next else inr r.pattern

unfoldable pub new_router : List Route → Permissions ⊎ Text
unfolding register
new_router table = register table []

pub record HttpRequest : Type 0 where
  pub method : Text
  pub path : Text

unfoldable pub in_group : Text → Bool
in_group path = text_eq path group_prefix || has_prefix path (group_prefix ++ lit "/")

-- The attributes of a request for a permission, and of one that is mapped to none.
abbrev pub resource_info : Text → Permission → Attributes
resource_info path p = record {
  is_resource_request = true;
  api_group = api_group;
  api_version = api_version;
  resource = p.resource;
  subresource = [];
  name = [];
  namespace = [];
  verb = p.verb;
  path = path;
}

abbrev pub path_info : Text → Text → Attributes
path_info path verb = record {
  is_resource_request = false;
  api_group = [];
  api_version = [];
  resource = [];
  subresource = [];
  name = [];
  namespace = [];
  verb = verb;
  path = path;
}

module _ (to_lower : Text → Text) (mux : HttpRequest → Option Text)
    (fallback : HttpRequest → Attributes) (table : Permissions) where
  abbrev pub found_info : HttpRequest → Option Permission → Attributes
  found_info req none = path_info req.path (to_lower req.method)
  found_info req (some p) = resource_info req.path p

  abbrev pub matched_info : HttpRequest → Option Text → Attributes
  matched_info req none = path_info req.path (to_lower req.method)
  matched_info req (some pattern) = found_info req (lookup pattern table)

  unfoldable pub new_request_info : HttpRequest → Attributes
  unfolding in_group lookup
  new_request_info req = if in_group req.path then matched_info req (mux req) else fallback req

-- strings.Split at slashes.
abbrev onto : ℕ → List Text → List Text
onto c [] = (c ∷ []) ∷ []
onto c (seg ∷ segs) = (c ∷ seg) ∷ segs

unfoldable pub split_slash : Text → List Text
split_slash [] = [] ∷ []
split_slash (c ∷ path) = let segs = split_slash path in if c == b'/' then [] ∷ segs else onto c segs

abbrev pub is_loki : List Text → Bool
is_loki (a ∷ b ∷ c ∷ segs) =
    text_eq a (lit "loki") && (text_eq b (lit "api") && text_eq c (lit "v1"))
is_loki segs = false

abbrev pub is_short : List Text → Bool
is_short (a ∷ b ∷ segs) =
    text_eq a api_version && (text_eq b (lit "logs") || text_eq b (lit "metrics"))
is_short segs = false

unfoldable pub canonical_path : Text → Text
unfolding split_slash trim_prefix join
canonical_path path =
    let segs = split_slash (trim_prefix path (lit "/")) in
    if is_loki segs
    then lit "/" ++ join (lit "/") (lit "apis" ∷ api_group ∷ api_version ∷ lit "logs" ∷ segs)
    else if is_short segs
    then lit "/" ++ join (lit "/") (lit "apis" ∷ api_group ∷ segs)
    else path

-- The request that the filters and the handlers after withCanonicalPaths see.
unfoldable pub with_canonical_paths : HttpRequest → HttpRequest
unfolding canonical_path
with_canonical_paths req =
    let path = canonical_path req.path in
    if text_eq path req.path then req else record req { path = path }
