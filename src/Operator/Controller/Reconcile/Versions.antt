-- ===== src/Operator/Controller/Reconcile/Versions.antt =====
-- The versions of a policy that its rounds make: they differ in the finalizers and in the status,
-- and get the same configuration.
use telemetry.Base.{
  ℕ, ◌⊎◌, ◌||◌, ◌≡◌, ◌≢◌, refl, ap, Bool, Option, none, some, List, [], ◌∷◌, All, ◌∙◌,
}
use telemetry.Base.Text.{Text}
use telemetry.Operator.Policies.{Source}
use telemetry.Operator.Controller.{
  Condition, SinkStatus, RemoteWrite, Sink, ExportPolicy, Client, retrieve_basic_auth_secret,
}
use telemetry.Operator.Controller.Status.{
  get_sink_status, reconcile_sink, reconcile_sinks, ready_condition,
  update_export_policy_conditions, reconcile_export_policy_status,
}
use telemetry.Operator.Controller.Vector.{
  Query, Filterss, MetricsService, SourceConfig, SinkConfig, get_vector_component_id,
  get_prometheus_remote_write, sink_target_config, get_sink_vector_config, add_sink, add_sinks,
  add_sources, create_vector_configuration, vector_sink, merged,
}

abbrev pub version : ExportPolicy → List Text → List Condition → List SinkStatus → ExportPolicy
version p fs cs ss = record p { finalizers = fs; conditions = cs; sink_statuses = ss }

-- Every sink has a target.
abbrev pub IsTargeted : ExportPolicy → Type 0
IsTargeted p = All (λ (s : Sink). s.target ≢ none) p.sinks

module _ (p : ExportPolicy) (fs : List Text) (cs : List Condition) (ss : List SinkStatus) where
  module _ (client : Client) where
    remote-version :
        (endpoint : Text) (authentication : Option (Option Text))
        → get_prometheus_remote_write client (version p fs cs ss) endpoint authentication
          ≡ get_prometheus_remote_write client p endpoint authentication
    unfolding get_prometheus_remote_write retrieve_basic_auth_secret
    remote-version endpoint none = refl
    remote-version endpoint (some none) = refl
    remote-version endpoint (some (some ref)) = refl

    target-version :
        (name : Text) (inputs : List Text) (target : Option (Option RemoteWrite))
        → sink_target_config client (version p fs cs ss) name inputs target
          ≡ sink_target_config client p name inputs target
    unfolding sink_target_config
    target-version name inputs none = refl
    target-version name inputs (some none) = refl
    target-version name inputs (some (some remote)) =
        ap (merged inputs) (remote-version remote.endpoint remote.authentication)

    sink-version :
        (project : Text) (sink : Sink)
        → get_sink_vector_config client project sink (version p fs cs ss)
          ≡ get_sink_vector_config client project sink p
    unfolding get_sink_vector_config get_vector_component_id
    sink-version project sink = target-version sink.name _ sink.target

    add_sinks-version :
        (project : Text) (sinks : List Sink) (m : Option (List (Text × SinkConfig)))
        → add_sinks client project (version p fs cs ss) sinks m ≡ add_sinks client project p sinks m
    unfolding add_sinks get_vector_component_id
    add_sinks-version project sinks none = refl
    add_sinks-version project [] (some m) = refl
    add_sinks-version project (sink ∷ sinks) (some m) =
        let id = get_vector_component_id p project sink.name vector_sink in
        add_sinks-version project sinks _
        ∙ ap
            (λ (o : Option (SinkConfig ⊎ Text)). add_sinks client project p sinks (add_sink id o m))
            (sink-version project sink)

    module _ (parse : Text → Query) (append_string : Filterss → Text)
        (service : MetricsService) where
      add_sources-version :
          (project : Text) (sources : List Source) (m : Option (List (Text × SourceConfig)))
          → add_sources parse append_string service project (version p fs cs ss) sources m
            ≡ add_sources parse append_string service project p sources m
      unfolding add_sources get_vector_component_id
      add_sources-version project sources none = refl
      add_sources-version project [] (some m) = refl
      add_sources-version project (source ∷ sources) (some m) =
          add_sources-version project sources _

      pub create-version :
          (project : Text)
          → create_vector_configuration parse append_string service client project
              (version p fs cs ss)
            ≡ create_vector_configuration parse append_string service client project p
      unfolding create_vector_configuration
      create-version project =
          rw (add_sources-version project p.sources, add_sinks-version project p.sinks) refl

module _ (set_condition : List Condition → Condition → List Condition × Bool) (itoa : ℕ → Text)
    (client : Client) where
  sink_total :
      (policy : ExportPolicy) (target : Option (Option RemoteWrite)) (s : SinkStatus)
      → target ≢ none
      → (next : SinkStatus × Bool) × (reconcile_sink set_condition itoa client policy target s
          ≡ some next)
  unfolding reconcile_sink
  sink_total policy none s h = absurd (h refl)
  sink_total policy (some none) s h = (_, refl)
  sink_total policy (some (some remote)) s h = (_, refl)

  sinks_total :
      (policy : ExportPolicy) (sinks : List Sink)
      → All (λ (s : Sink). s.target ≢ none) sinks
      → (next : List SinkStatus × Bool) × (reconcile_sinks set_condition itoa client policy sinks
          ≡ some next)
  unfolding reconcile_sinks
  sinks_total policy [] h = (_, refl)
  sinks_total policy (sink ∷ sinks) h =
      let ((s, b), e) =
        sink_total policy sink.target (get_sink_status policy.sink_statuses sink.name) h.0 in
      let ((rest, c), f) = sinks_total policy sinks h.1 in ((s ∷ rest, b || c), rw (e, f) refl)

  -- A round over the status of a version makes another version with the same finalizers.
  pub status-version :
      (p : ExportPolicy)
      → IsTargeted p
      → (fs : List Text) (cs : List Condition) (ss : List SinkStatus)
      → (ds : List Condition) × (ts : List SinkStatus) × (b : Bool)
        × (reconcile_export_policy_status set_condition itoa client (version p fs cs ss)
            ≡ some (version p fs ds ts, b))
  unfolding reconcile_export_policy_status update_export_policy_conditions
  status-version p h fs cs ss =
      let ((ts, c), e) = sinks_total (version p fs cs ss) p.sinks h in
      let ready = ready_condition set_condition itoa (version p fs cs ts) ts in
      ((set_condition cs ready).0, ts, (set_condition cs ready).1 || c, rw e refl)
