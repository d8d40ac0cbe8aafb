-- ===== src/Examples/Access.antt =====
-- The authorization guard, the always-allowed paths and the project of a request.
use telemetry.Base.{ℕ, ◌≡◌, refl, true, none, some, List, [], ◌∷◌, ◌++◌, All, if◌then◌else◌}
use telemetry.Base.Text.{
  Text, lit, text_eq, has_prefix, trim_prefix, trim_suffix, cut_prefix, cut_suffix,
}
use telemetry.Authz.Permissions.{api_group, api_version, Attributes}
use telemetry.Authz.Guard.{allow, Review, Guards, authorize, authorize-Guards}
use telemetry.Authz.AllowPaths.{
  api_prefix, normalized, validate_always_allow_paths, reaches_group, Covers,
  validate_always_allow_paths-Covers,
}
use telemetry.Authz.Project.{
  UserInfo, parent_type_extra, parent_name_extra, first, resolve, valid_id, valid_project_id,
  middleware, IsProjectId, middleware-IsProjectId,
}

abbrev query : Attributes
query = record {
  is_resource_request = true;
  api_group = api_group;
  api_version = api_version;
  resource = lit "logs";
  subresource = [];
  name = [];
  namespace = [];
  verb = lit "query";
  path = [];
}

abbrev allowing : Attributes → Review ℕ
allowing attrs = record { decision = allow; reason = []; error = none }

authorize-Guards_example : Guards allowing query (authorize allowing (some query))
authorize-Guards_example = authorize-Guards allowing query

abbrev probes : List Text
probes = lit "/healthz" ∷ lit "readyz/*" ∷ []

validate_always_allow_paths-Covers_example :
    All (λ p. (rest : Text) → ¬ Covers (normalized p) (api_prefix ++ rest)) probes
unfolding validate_always_allow_paths reaches_group has_prefix cut_prefix trim_prefix trim_suffix
    cut_suffix text_eq lit
validate_always_allow_paths-Covers_example = validate_always_allow_paths-Covers probes refl

abbrev caller : UserInfo
caller = record {
  extra = λ key.
      if text_eq key parent_type_extra
      then lit "Project" ∷ []
      else if text_eq key parent_name_extra
      then lit "p-1.dev" ∷ []
      else [];
}

middleware-IsProjectId_example :
    (v : UserInfo) × (some caller ≡ some v)
    × (first (v.extra parent_type_extra) ≡ lit "Project")
    × (first (v.extra parent_name_extra) ≡ lit "p-1.dev")
    × IsProjectId (lit "p-1.dev")
unfolding middleware resolve valid_id valid_project_id text_eq lit
middleware-IsProjectId_example = middleware-IsProjectId (some caller) (lit "p-1.dev") refl
