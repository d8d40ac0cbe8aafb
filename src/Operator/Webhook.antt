-- ===== src/Operator/Webhook.antt =====
-- operator/internal/webhook/v1alpha1/exportpolicy_webhook.go: the admission of policies.
use telemetry.Base.{◌≡◌, ◌↔◌, refl, Bool, Option, none, some, List, [], ◌∷◌}
use telemetry.Base.Text.{Text}
use telemetry.Operator.Policies.{FieldError, Spec, Parsed, validate_export_policy}
use telemetry.Operator.Validity.{IsValid, validate_export_policy-IsValid}

-- The error of an admission: NewInvalid with the policy's name and the errors of its fields.
pub data Admission : Type 0 where
  admitted : Admission
  invalid : Text → List FieldError → Admission

-- What the validator's answer amounts to; none stands for a panic.
abbrev pub answered : Text → Option (List FieldError) → Option Admission
answered name none = none
answered name (some []) = some admitted
answered name (some (e ∷ errs)) = some (invalid name (e ∷ errs))

module _ (parse : Text → Parsed) (is_url : Text → Bool) where
  unfoldable pub validate_create : Text → Spec → Option Admission
  validate_create name spec = answered name (validate_export_policy parse is_url spec)

  unfoldable pub validate_update : Text → Spec → Spec → Option Admission
  validate_update name old spec = answered name (validate_export_policy parse is_url spec)

  unfoldable pub validate_delete : Text → Spec → Option Admission
  validate_delete name spec = some admitted

  answered_iff :
      (name : Text) (o : Option (List FieldError))
      → (answered name o ≡ some admitted) ↔ (o ≡ some [])
  answered_iff name none = (λ e. absurd (cc), λ e. absurd (cc))
  answered_iff name (some []) = (λ e. refl, λ e. refl)
  answered_iff name (some (e ∷ errs)) = (λ h. absurd (cc), λ h. absurd (cc))

  -- The webhook admits a creation, and also an update whatever the policy was, exactly if the new
  -- policy is valid; and it admits every deletion.
  pub admission-IsValid :
      (name : Text) (old spec : Spec)
      → ((validate_create name spec ≡ some admitted) ↔ IsValid parse is_url spec)
        × ((validate_update name old spec ≡ some admitted) ↔ IsValid parse is_url spec)
        × (validate_delete name spec ≡ some admitted)
  unfolding validate_create validate_update validate_delete
  admission-IsValid name old spec =
      let here = answered_iff name (validate_export_policy parse is_url spec) in
      let valid = validate_export_policy-IsValid parse is_url spec in
      let to = λ (e : answered name (validate_export_policy parse is_url spec) ≡ some admitted).
        valid.0 (here.0 e) in
      let from = λ (v : IsValid parse is_url spec). here.1 (valid.1 v) in
      ((to, from), (to, from), refl)
