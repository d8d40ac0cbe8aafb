-- ===== src/Operator/Controller/Reconcile/Delivery.antt =====
-- What the rounds rely on, and what they are to bring about.
use telemetry.Base.{◌≡◌, true, false, some, List, [], ◌∷◌, ◌++◌, if◌then◌else◌, arith}
use telemetry.Base.Text.{Text, lit, text_eq_refl}
use telemetry.Base.Assoc.{contains, contains-append}
use telemetry.Operator.Controller.{ExportPolicy, Secret, Client}
use telemetry.Operator.Controller.Status.Settled.{IsSetCondition}
use telemetry.Operator.Controller.Vector.{VectorConfig, create_vector_configuration}
use telemetry.Operator.Controller.Reconcile.{
  keep, register, Secrets, Libraries, ExportPolicyReconciler, World, Failures, config_secret_name,
  project_name, secret_labels, secret_contents,
}

abbrev pub export_policy_controller_finalizer : Text
export_policy_controller_finalizer = lit "exportpolicy.telemetry.miloapis.com/controller"

-- The libraries as far as a policy that is not deleted needs them.
pub record IsLibraries (libs : Libraries) : Type 0 where
  pub set_condition : IsSetCondition libs.set_condition
  -- The finalizer manager adds the finalizer where it is missing.
  pub plan :
      (p : ExportPolicy)
      → p.deleting ≡ false
      → libs.plan p ≡ (
          if contains p.finalizers export_policy_controller_finalizer
          then keep
          else register
              (record p { finalizers = p.finalizers ++ export_policy_controller_finalizer ∷ [] }))
  pub updated : (p : ExportPolicy) → p.deleting ≡ false → libs.updated p ≡ some p
  -- CreateOrUpdate stores what the function makes of some secret.
  pub create_or_update :
      (name : Text) (first : Secret) (f : Secret → Secret) (secrets : Secrets)
      → (s : Secret) × (libs.create_or_update name first f secrets name ≡ some (f s))

-- A round in which every call succeeds; its reads of secrets are answered by `client`.
abbrev pub calm : Client → Failures
calm client = record {
  get_cluster = false;
  get = false;
  update = false;
  update_status = false;
  downstream = false;
  status_client = client;
  config_client = client;
}

abbrev pub world_of : ExportPolicy → Secrets → World
world_of p secrets = record { policy = some p; secrets = secrets }

abbrev pub HasFinalizer : List Text → Type 0
HasFinalizer fs = contains fs export_policy_controller_finalizer ≡ true

pub add-HasFinalizer :
    (fs : List Text) → HasFinalizer (fs ++ export_policy_controller_finalizer ∷ [])
unfolding contains
add-HasFinalizer fs = ground (
  arith,
  contains-append fs (export_policy_controller_finalizer ∷ []) export_policy_controller_finalizer,
  text_eq_refl export_policy_controller_finalizer,
)

module _ (libs : Libraries) (r : ExportPolicyReconciler) where
  -- The downstream cluster holds the configuration in the secret of the policy.
  abbrev pub IsDelivered : ExportPolicy → Text → Secrets → Type 0
  IsDelivered p json secrets =
      (s : Secret) × (secrets (config_secret_name p) ≡ some s)
      × (s.labels ≡ secret_labels libs r p)
      × (s.contents ≡ secret_contents libs r p json)

  module _ (client : Client) (cluster : Text) where
    -- The configuration of a policy can be made: nothing in it makes the code panic.
    abbrev pub IsMade : ExportPolicy → Type 0
    IsMade p =
        (config : VectorConfig) × (create_vector_configuration libs.parse libs.append_string
            r.metrics_service client (project_name cluster) p
          ≡ some config)

    -- The configuration of a policy, printed.
    abbrev pub Prints : ExportPolicy → Text → Type 0
    Prints p json =
        (config : VectorConfig) × (create_vector_configuration libs.parse libs.append_string
            r.metrics_service client (project_name cluster) p
          ≡ some config)
        × (libs.marshal config ≡ some json)
