-- ===== src/Examples/Operator.antt =====
-- An ExportPolicy with one source and one sink.
use telemetry.Base.{◌≡◌, ◌↔◌, refl, Bool, true, none, some, [], ◌∷◌}
use telemetry.Base.Text.{Text, lit, text_eq}
use telemetry.Base.Assoc.{contains}
use telemetry.Operator.Policies.{
  Spec, Parsed, metric_expr, validate_export_policy, validate_metric_source,
}
use telemetry.Operator.Webhook.{
  admitted, validate_create, validate_update, validate_delete, admission-IsValid,
}
use telemetry.Operator.Validity.{IsValid}

-- Every query is a metric expression with a filter on its own text as a label.
abbrev parse : Text → Parsed
parse query = metric_expr ((query ∷ []) ∷ [])

abbrev is_url : Text → Bool
is_url s = true

abbrev policy : Spec
policy = record {
  sources = record { name = lit "nodes"; metrics = some (lit "up") } ∷ [];
  sinks =
      record {
        name = lit "remote";
        target = some (record { prometheus_remote_write = some (lit "https://x") });
      }
      ∷ [];
}

validate_export_policy-policy : validate_export_policy parse is_url policy ≡ some []
unfolding validate_export_policy validate_metric_source contains text_eq lit
validate_export_policy-policy = refl

-- A sink without a target makes the validation panic.
validate_export_policy-no_target :
    validate_export_policy parse is_url
      (record policy { sinks = record { name = lit "remote"; target = none } ∷ [] })
    ≡ none
unfolding validate_export_policy
validate_export_policy-no_target = refl

admission-IsValid_example :
    ((validate_create parse is_url (lit "p") policy ≡ some admitted) ↔ IsValid parse is_url policy)
    × ((validate_update parse is_url (lit "p") policy policy ≡ some admitted)
        ↔ IsValid parse is_url policy)
    × (validate_delete parse is_url (lit "p") policy ≡ some admitted)
admission-IsValid_example = admission-IsValid parse is_url (lit "p") policy policy
