-- ===== src/Operator/Controller/Reconcile/Steps.antt =====
-- What one round of the reconciler leaves behind, whichever calls fail in it.
use mathlib.Core.Option.{some-injective}
use telemetry.Base.{
  if_true, if_false, ◌≡◌, refl, sym, ap, ◌∙◌, subst, inl, inr, Bool, true, false, Option, some,
  List, [], ◌∷◌, ◌++◌, if◌then◌else◌, Bool-cases, Option-cases,
}
use telemetry.Base.Text.{Text}
use telemetry.Base.Assoc.{contains}
use telemetry.Operator.Controller.{Condition, SinkStatus, ExportPolicy, Client}
use telemetry.Operator.Controller.Vector.{VectorConfig, create_vector_configuration}
use telemetry.Operator.Controller.Reconcile.{
  Plan, keep, register, Secrets, Libraries, ExportPolicyReconciler, World, Failures, Result, done,
  requeue, error, config_secret_name, project_name, secret_labels, config_secret, mutate, configure,
  write_status, process, finalized, reconcile,
}
use telemetry.Operator.Controller.Reconcile.Versions.{
  version, IsTargeted, create-version, status-version,
}
use telemetry.Operator.Controller.Reconcile.Delivery.{
  export_policy_controller_finalizer, IsLibraries, world_of, IsDelivered, IsMade, Prints,
}

module _ (libs : Libraries) (r : ExportPolicyReconciler) (cluster : Text) where
  module _ (laws : IsLibraries libs) (p : ExportPolicy) (json : Text) (kept : p.deleting ≡ false)
      (targeted : IsTargeted p) (makes : (client : Client) → IsMade libs r client cluster p) where
    -- What a round leaves behind: a version of the policy, and the configuration if it was there and
    -- is made from the same answers again.
    abbrev pub Leaves : Client → Secrets → Option (World × Result) → Type 0
    Leaves client secrets o =
        (fs : List Text) × (cs : List Condition) × (ss : List SinkStatus) × (after : Secrets)
        × (result : Result) × (o ≡ some (world_of (version p fs cs ss) after, result))
        × (Prints libs r client cluster p json
            → IsDelivered libs r p json secrets
            → IsDelivered libs r p json after)

    -- What is written for a printed configuration.
    pub configure-delivers :
        (failures : Failures) (w : World) (fs : List Text) (cs : List Condition)
        (ss : List SinkStatus) (config : VectorConfig) (text : Text)
        → failures.downstream ≡ false
        → libs.marshal config ≡ some text
        → (after : Secrets) × (configure libs r cluster failures w
              (version p fs cs ss)
              (some config)
            ≡ some (record w { secrets = after }, done))
          × IsDelivered libs r p text after
    unfolding config_secret_name secret_labels
    configure-delivers failures w fs cs ss config text calm_write printed =
        let q = version p fs cs ss in
        let after =
          libs.create_or_update (config_secret_name q) (config_secret libs r q text)
            (mutate libs r q text) w.secrets in
        let (s, held) =
          laws.create_or_update (config_secret_name q) (config_secret libs r q text)
            (mutate libs r q text) w.secrets in
        (after, rw (printed, calm_write) refl, (mutate libs r q text s, held, refl, refl))

    -- The configuration that a version of the policy gets.
    pub configure-version :
        (failures : Failures) (w : World) (fs : List Text) (cs : List Condition)
        (ss : List SinkStatus) (config : VectorConfig)
        → create_vector_configuration libs.parse libs.append_string r.metrics_service
            failures.config_client
            (project_name cluster)
            p
          ≡ some config
        → configure libs r cluster failures w (version p fs cs ss) (
            create_vector_configuration libs.parse libs.append_string r.metrics_service
              failures.config_client
              (project_name cluster)
              (version p fs cs ss))
          ≡ configure libs r cluster failures w (version p fs cs ss) (some config)
    configure-version failures w fs cs ss config made =
        ap (configure libs r cluster failures w (version p fs cs ss)) (
          create-version p fs cs ss failures.config_client libs.parse libs.append_string
            r.metrics_service (project_name cluster)
          ∙ made)

    same_text :
        (client : Client) (config : VectorConfig) (text : Text)
        → create_vector_configuration libs.parse libs.append_string r.metrics_service client
            (project_name cluster)
            p
          ≡ some config
        → libs.marshal config ≡ some text
        → Prints libs r client cluster p json
        → text ≡ json
    same_text client config text made printed (config', made', printed') =
        some-injective text json (
          sym printed
          ∙ ap libs.marshal (some-injective config config' (sym made ∙ made'))
          ∙ printed')

    configure_made :
        (failures : Failures) (secrets : Secrets) (fs : List Text) (cs ds : List Condition)
        (ss ts : List SinkStatus) (config : VectorConfig)
        → create_vector_configuration libs.parse libs.append_string r.metrics_service
            failures.config_client
            (project_name cluster)
            p
          ≡ some config
        → Leaves failures.config_client secrets (
            configure libs r cluster failures
              (world_of (version p fs cs ss) secrets)
              (version p fs ds ts)
              (some config))
    configure_made failures secrets fs cs ds ss ts config made =
        elim (Option-cases (libs.marshal config)) [
          | inl fails ↦ (fs, cs, ss, secrets, error, rw fails refl, λ prints h. h)
          | inr (text, printed) ↦ elim (Bool-cases failures.downstream) [
            | inl fails ↦ (fs, cs, ss, secrets, error, rw (printed, fails) refl, λ prints h. h)
            | inr works ↦
                let w = world_of (version p fs cs ss) secrets in
                let (after, e, delivered) =
                  configure-delivers failures w fs ds ts config text works printed in
                (
                  fs,
                  cs,
                  ss,
                  after,
                  done,
                  e,
                  λ prints h.
                      subst (λ t. IsDelivered libs r p t after)
                        (same_text failures.config_client config text made printed prints)
                        delivered,
                )
          ]
        ]

    configure-Leaves :
        (failures : Failures) (secrets : Secrets) (fs : List Text) (cs ds : List Condition)
        (ss ts : List SinkStatus)
        → Leaves failures.config_client secrets (
            configure libs r cluster failures
              (world_of (version p fs cs ss) secrets)
              (version p fs ds ts)
              (create_vector_configuration libs.parse libs.append_string r.metrics_service
                failures.config_client
                (project_name cluster)
                (version p fs ds ts)))
    configure-Leaves failures secrets fs cs ds ss ts =
        let (config, made) = makes failures.config_client in
        let w = world_of (version p fs cs ss) secrets in
        subst (Leaves failures.config_client secrets)
          (sym (configure-version failures w fs ds ts config made))
          (configure_made failures secrets fs cs ds ss ts config made)

    write_status-Leaves :
        (failures : Failures) (secrets : Secrets) (fs : List Text) (cs ds : List Condition)
        (ss ts : List SinkStatus) (b : Bool)
        → Leaves failures.config_client secrets (
            write_status libs r cluster failures
              (world_of (version p fs cs ss) secrets)
              (some (version p fs ds ts, b)))
    write_status-Leaves failures secrets fs cs ds ss ts false =
        configure-Leaves failures secrets fs cs ds ss ts
    write_status-Leaves failures secrets fs cs ds ss ts true =
        elim (Bool-cases failures.update_status) [
          | inl fails ↦ (fs, cs, ss, secrets, error, rw fails refl, λ prints h. h)
          | inr works ↦ (fs, ds, ts, secrets, requeue, rw works refl, λ prints h. h)
        ]

    process-Leaves :
        (failures : Failures) (secrets : Secrets) (fs : List Text) (cs : List Condition)
        (ss : List SinkStatus)
        → Leaves failures.config_client secrets (
            process libs r cluster failures
              (world_of (version p fs cs ss) secrets)
              (version p fs cs ss))
    unfolding process
    process-Leaves failures secrets fs cs ss =
        let (ds, ts, b, e) =
          status-version libs.set_condition libs.itoa failures.status_client p targeted fs cs ss in
        let w = world_of (version p fs cs ss) secrets in
        subst (Leaves failures.config_client secrets)
          (sym (
            if_false p.deleting (some (w, done)) _ kept
            ∙ ap (write_status libs r cluster failures w) e))
          (write_status-Leaves failures secrets fs cs ds ss ts b)

    -- The finalizers' part of a round, by whether the finalizer is there.
    abbrev pub plan_of : List Text → List Condition → List SinkStatus → Bool → Plan
    plan_of fs cs ss b =
        if b
        then keep
        else register (version p (fs ++ export_policy_controller_finalizer ∷ []) cs ss)

    abbrev pub list_of : List Text → Bool → List Text
    list_of fs b = if b then fs else fs ++ export_policy_controller_finalizer ∷ []

    pub finalized-process :
        (failures : Failures) (secrets : Secrets) (fs : List Text) (cs : List Condition)
        (ss : List SinkStatus)
        → failures.update ≡ false
        → (b : Bool)
        → finalized libs r cluster failures
            (world_of (version p fs cs ss) secrets)
            (version p fs cs ss)
            (plan_of fs cs ss b)
          ≡ process libs r cluster failures
              (world_of (version p (list_of fs b) cs ss) secrets)
              (version p (list_of fs b) cs ss)
    unfolding finalized
    finalized-process failures secrets fs cs ss works true = refl
    finalized-process failures secrets fs cs ss works false =
        let q = version p (fs ++ export_policy_controller_finalizer ∷ []) cs ss in
        if_false failures.update _ _ works
        ∙ ap
            (λ (o : Option ExportPolicy).
              process libs r cluster failures (record { policy = o; secrets = secrets }) q)
            (laws.updated q kept)

    finalized-Leaves :
        (failures : Failures) (secrets : Secrets) (fs : List Text) (cs : List Condition)
        (ss : List SinkStatus) (b : Bool)
        → Leaves failures.config_client secrets (
            finalized libs r cluster failures
              (world_of (version p fs cs ss) secrets)
              (version p fs cs ss)
              (plan_of fs cs ss b))
    unfolding finalized
    finalized-Leaves failures secrets fs cs ss true = process-Leaves failures secrets fs cs ss
    finalized-Leaves failures secrets fs cs ss false = elim (Bool-cases failures.update) [
      | inl fails ↦ (fs, cs, ss, secrets, error, if_true failures.update _ _ fails, λ prints h. h)
      | inr works ↦
          subst (Leaves failures.config_client secrets)
            (sym (finalized-process failures secrets fs cs ss works false))
            (process-Leaves failures secrets (list_of fs false) cs ss)
    ]

    pub reconcile-finalized :
        (failures : Failures) (secrets : Secrets) (fs : List Text) (cs : List Condition)
        (ss : List SinkStatus)
        → failures.get_cluster ≡ false
        → failures.get ≡ false
        → reconcile libs r cluster failures (world_of (version p fs cs ss) secrets)
          ≡ finalized libs r cluster failures
              (world_of (version p fs cs ss) secrets)
              (version p fs cs ss)
              (plan_of fs cs ss (contains fs export_policy_controller_finalizer))
    unfolding reconcile
    reconcile-finalized failures secrets fs cs ss h k =
        if_false failures.get_cluster _ _ h
        ∙ (if_false failures.get _ _ k
            ∙ ap
                (finalized libs r cluster failures (world_of (version p fs cs ss) secrets)
                  (version p fs cs ss))
                (laws.plan (version p fs cs ss) kept))

    pub reconcile-Leaves :
        (failures : Failures) (secrets : Secrets) (fs : List Text) (cs : List Condition)
        (ss : List SinkStatus)
        → Leaves failures.config_client secrets
            (reconcile libs r cluster failures (world_of (version p fs cs ss) secrets))
    unfolding reconcile
    reconcile-Leaves failures secrets fs cs ss = elim (Bool-cases failures.get_cluster) [
      | inl h ↦ (fs, cs, ss, secrets, error, if_true failures.get_cluster _ _ h, λ prints h. h)
      | inr h ↦ elim (Bool-cases failures.get) [
        | inl k ↦ (
          fs,
          cs,
          ss,
          secrets,
          error,
          if_false failures.get_cluster _ _ h ∙ if_true failures.get _ _ k,
          λ prints h. h,
        )
        | inr k ↦
            subst (Leaves failures.config_client secrets)
              (sym (reconcile-finalized failures secrets fs cs ss h k))
              (finalized-Leaves failures secrets fs cs ss _)
      ]
    ]
