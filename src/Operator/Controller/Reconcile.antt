-- ===== src/Operator/Controller/Reconcile.antt =====
-- operator/internal/controller/export_policy_controller.go: a round of the reconciler, over the
-- policy that the API server keeps and the secrets of the downstream cluster. What the libraries and
-- the API servers do are parameters; none stands for a panic.
pub mod Versions
pub mod Delivery
pub mod Makes
pub mod Steps
pub mod Settles
pub mod Deletes
use telemetry.Base.{
  ℕ, Bool, true, false, Option, none, some, List, [], ◌∷◌, ◌++◌, if◌then◌else◌, ◌==◌,
}
use telemetry.Base.Text.{Text, lit}
use telemetry.Base.Assoc.{insert}
use telemetry.Operator.Controller.{Condition, ExportPolicy, Secret, Client}
use telemetry.Operator.Controller.Status.{reconcile_export_policy_status}
use telemetry.Operator.Controller.Vector.{
  Query, Filterss, MetricsService, VectorConfig, create_vector_configuration,
}

-- What the finalizer manager decides on a policy: nothing, an added finalizer, or to call the
-- finalizer and then to remove it.
pub data Plan : Type 0 where
  keep : Plan
  register call_then : ExportPolicy → Plan

-- The secrets of the downstream namespace.
abbrev pub Secrets : Type 0
Secrets = Text → Option Secret

pub record Libraries : Type 0 where
  pub parse : Text → Query
  pub append_string : Filterss → Text
  pub set_condition : List Condition → Condition → List Condition × Bool
  pub itoa : ℕ → Text
  pub marshal : VectorConfig → Option Text
  pub plan : ExportPolicy → Plan
  -- What the API server keeps of an updated policy.
  pub updated : ExportPolicy → Option ExportPolicy
  pub create_or_update : Text → Secret → (Secret → Secret) → Secrets → Secrets
  pub delete : Text → Secrets → Secrets

pub record ExportPolicyReconciler : Type 0 where
  pub metrics_service : MetricsService
  pub vector_config_label_key : Text
  pub vector_config_label_value : Text

pub record World : Type 0 where
  pub policy : Option ExportPolicy
  pub secrets : Secrets

-- Which calls of a round fail, and what the client of the policy's cluster answers, its failures
-- included, when a round reads the secrets for the status and, later, for the configuration.
pub record Failures : Type 0 where
  pub get_cluster : Bool
  pub get : Bool
  pub update : Bool
  pub update_status : Bool
  pub downstream : Bool
  pub status_client : Client
  pub config_client : Client

pub data Result : Type 0 where
  done requeue error : Result

abbrev pub export_policy_name_label : Text
export_policy_name_label = lit "exportpolicy.telemetry.miloapis.com/name"

abbrev pub export_policy_namespace_label : Text
export_policy_namespace_label = lit "exportpolicy.telemetry.miloapis.com/namespace"

unfoldable pub config_secret_name : ExportPolicy → Text
config_secret_name policy = lit "export-policy-vector-config-" ++ policy.uid

-- The cluster's name without its slashes.
unfoldable pub project_name : Text → Text
project_name [] = []
project_name (c ∷ cluster) = let rest = project_name cluster in if c == 47 then rest else c ∷ rest

module _ (libs : Libraries) (r : ExportPolicyReconciler) where
  unfoldable pub secret_labels : ExportPolicy → List (Text × Text)
  unfolding insert
  secret_labels policy = insert export_policy_namespace_label policy.namespace (
      insert export_policy_name_label policy.name
        (insert r.vector_config_label_key r.vector_config_label_value []))

  abbrev pub secret_contents : ExportPolicy → Text → List (Text × Text)
  secret_contents policy json = (policy.uid ++ lit ".json", json) ∷ []

  abbrev pub config_secret : ExportPolicy → Text → Secret
  config_secret policy json = record {
    type = [];
    labels = secret_labels policy;
    contents = secret_contents policy json;
  }

  -- The function that CreateOrUpdate applies to the secret.
  abbrev pub mutate : ExportPolicy → Text → Secret → Secret
  mutate policy json secret = record secret {
    labels = secret_labels policy;
    contents = secret_contents policy json;
  }

  -- The finalizer: a secret that is not found is as good as deleted.
  unfoldable pub finalize : ExportPolicy → Secrets → Secrets
  unfolding config_secret_name
  finalize policy secrets = elim (secrets (config_secret_name policy)) [
    | none ↦ secrets
    | some secret ↦ libs.delete (config_secret_name policy) secrets
  ]

  -- The name of the cluster; ids and labels have it without slashes.
  module _ (cluster : Text) where
    abbrev pub write_config : Failures → World → ExportPolicy → Option Text → World × Result
    write_config failures world policy none = (world, error)
    write_config failures world policy (some json) =
        if failures.downstream then (world, error) else (
          record world {
            secrets =
                libs.create_or_update (config_secret_name policy) (config_secret policy json)
                  (mutate policy json) world.secrets;
          },
          done,
        )

    abbrev pub configure :
        Failures → World → ExportPolicy → Option VectorConfig → Option (World × Result)
    configure failures world policy none = none
    configure failures world policy (some config) =
        some (write_config failures world policy (libs.marshal config))

    abbrev pub write_status :
        Failures → World → Option (ExportPolicy × Bool) → Option (World × Result)
    write_status failures world none = none
    write_status failures world (some (policy, true)) =
        if failures.update_status
        then some (world, error)
        else some (record world { policy = some policy }, requeue)
    write_status failures world (some (policy, false)) = configure failures world policy (
        create_vector_configuration libs.parse libs.append_string r.metrics_service
          failures.config_client (project_name cluster) policy)

    -- What is done with a policy that the finalizers are through with.
    unfoldable pub process : Failures → World → ExportPolicy → Option (World × Result)
    process failures world policy =
        if policy.deleting
        then some (world, done)
        else write_status failures world (
            reconcile_export_policy_status libs.set_condition libs.itoa failures.status_client
              policy)

    -- The write of a policy that the finalizers changed.
    abbrev pub update_policy : Failures → World → ExportPolicy → Option (World × Result)
    update_policy failures world policy =
        if failures.update
        then some (world, error)
        else process failures (record world { policy = libs.updated policy }) policy

    unfoldable pub finalized : Failures → World → ExportPolicy → Plan → Option (World × Result)
    unfolding process finalize
    finalized failures world policy keep = process failures world policy
    finalized failures world policy (register later) = update_policy failures world later
    finalized failures world policy (call_then later) =
        if failures.downstream
        then some (world, error)
        else update_policy failures (record world { secrets = finalize policy world.secrets }) later

    abbrev pub reconcile_found : Failures → World → Option ExportPolicy → Option (World × Result)
    reconcile_found failures world none = some (world, done)
    reconcile_found failures world (some policy) =
        finalized failures world policy (libs.plan policy)

    unfoldable pub reconcile : Failures → World → Option (World × Result)
    unfolding finalized
    reconcile failures world =
        if failures.get_cluster
        then some (world, error)
        else if failures.get
        then some (world, error)
        else reconcile_found failures world world.policy

    abbrev pub continued : (World → Option World) → Option (World × Result) → Option World
    continued more none = none
    continued more (some (next, result)) = more next

    -- A row of rounds, each with the calls that fail in it.
    unfoldable pub rounds : List Failures → World → Option World
    unfolding reconcile
    rounds [] world = some world
    rounds (failures ∷ more) world = continued (rounds more) (reconcile failures world)
