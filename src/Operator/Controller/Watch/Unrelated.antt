-- ===== src/Operator/Controller/Watch/Unrelated.antt =====
-- What a change of a secret leaves alone.
use telemetry.Base.{
  ℕ, All-imp, if_true, if_false, subst, ◌≡◌, ◌≢◌, refl, sym, ap, ◌∙◌, ◌⊎◌, inl, inr, Bool, false,
  Option, none, some, List, [], ◌∷◌, map, All, arith, Bool-cases,
}
use telemetry.Base.Text.{Text, text_eq, text_eq_iff}
use telemetry.Operator.Controller.{
  Condition, SinkStatus, RemoteWrite, Sink, ExportPolicy, Secret, Client, checked,
  retrieve_basic_auth_secret,
}
use telemetry.Operator.Controller.Status.{
  get_sink_status, judged, judge, reconcile_sink, with_condition, joined, reconcile_sinks,
  concluded, reconcile_export_policy_status,
}
use telemetry.Operator.Controller.Vector.{
  Query, Filterss, MetricsService, SinkConfig, get_vector_component_id, vector_source, vector_sink,
  secret_config, get_prometheus_remote_write, merged, sink_target_config, get_sink_vector_config,
  add_sink, add_sinks, add_sources, assembled, create_vector_configuration,
}
use mathlib.Core.List.{Mem, mem-cons_self, mem-cons_of_mem}
use telemetry.Operator.Controller.Watch.{names_secret, refers, references_secret, requests}

module _ (secret : Text) (policy : ExportPolicy) (before after : Client)
    (same : (name : Text)
      → name ≢ secret
      → before policy.namespace name ≡ after policy.namespace name) where
  retrieve-same :
      (ref : Text)
      → text_eq ref secret ≡ false
      → retrieve_basic_auth_secret before ref policy ≡ retrieve_basic_auth_secret after ref policy
  unfolding retrieve_basic_auth_secret
  retrieve-same ref h = ap (checked ref) (same ref (λ e. ground (arith, text_eq_iff ref secret)))

  remote-same :
      (endpoint : Text) (authentication : Option (Option Text))
      → names_secret authentication secret ≡ false
      → get_prometheus_remote_write before policy endpoint authentication
        ≡ get_prometheus_remote_write after policy endpoint authentication
  unfolding get_prometheus_remote_write names_secret
  remote-same endpoint none h = refl
  remote-same endpoint (some none) h = refl
  remote-same endpoint (some (some ref)) h =
      ap (λ (o : Secret ⊎ Text). some (secret_config endpoint o)) (retrieve-same ref h)

  target-same :
      (name : Text) (inputs : List Text) (target : Option (Option RemoteWrite))
      → refers target secret ≡ false
      → sink_target_config before policy name inputs target
        ≡ sink_target_config after policy name inputs target
  unfolding sink_target_config refers
  target-same name inputs none h = refl
  target-same name inputs (some none) h = refl
  target-same name inputs (some (some remote)) h =
      ap (merged inputs) (remote-same remote.endpoint remote.authentication h)

  add_sinks-same :
      (project : Text) (sinks : List Sink)
      → references_secret sinks secret ≡ false
      → (m : Option (List (Text × SinkConfig)))
      → add_sinks before project policy sinks m ≡ add_sinks after project policy sinks m
  unfolding add_sinks get_sink_vector_config references_secret
  add_sinks-same project sinks h none = refl
  add_sinks-same project [] h (some m) = refl
  add_sinks-same project (sink ∷ sinks) h (some m) =
      let id = get_vector_component_id policy project sink.name vector_sink in
      let inputs = map (λ s. get_vector_component_id policy project s vector_source) sink.sources in
      add_sinks-same project sinks (ground arith) _
      ∙ ap
          (λ (o : Option (SinkConfig ⊎ Text)).
            add_sinks after project policy sinks (add_sink id o m))
          (target-same sink.name inputs sink.target (ground arith))

  module _ (set_condition : List Condition → Condition → List Condition × Bool)
      (itoa : ℕ → Text) where
    judge-same :
        (authentication : Option (Option Text))
        → names_secret authentication secret ≡ false
        → judge set_condition itoa before policy authentication
          ≡ judge set_condition itoa after policy authentication
    unfolding judge names_secret
    judge-same none h = refl
    judge-same (some none) h = refl
    judge-same (some (some ref)) h = ap (judged) (retrieve-same ref h)

    sink-same :
        (target : Option (Option RemoteWrite)) (status : SinkStatus)
        → refers target secret ≡ false
        → reconcile_sink set_condition itoa before policy target status
          ≡ reconcile_sink set_condition itoa after policy target status
    unfolding reconcile_sink refers
    sink-same none status h = refl
    sink-same (some none) status h = refl
    sink-same (some (some remote)) status h =
        ap (λ (c : Condition). some (with_condition set_condition itoa status c))
          (judge-same remote.authentication h)

    sinks-same :
        (sinks : List Sink)
        → references_secret sinks secret ≡ false
        → reconcile_sinks set_condition itoa before policy sinks
          ≡ reconcile_sinks set_condition itoa after policy sinks
    unfolding reconcile_sinks references_secret
    sinks-same [] h = refl
    sinks-same (sink ∷ sinks) h =
        let status = get_sink_status policy.sink_statuses sink.name in
        ap
          (λ (o : Option (SinkStatus × Bool)).
            joined o (reconcile_sinks set_condition itoa before policy sinks))
          (sink-same sink.target status (ground arith))
        ∙ ap (joined (reconcile_sink set_condition itoa after policy sink.target status))
            (sinks-same sinks (ground arith))

    status-same :
        references_secret policy.sinks secret ≡ false
        → reconcile_export_policy_status set_condition itoa before policy
          ≡ reconcile_export_policy_status set_condition itoa after policy
    unfolding reconcile_export_policy_status
    status-same h = ap (concluded set_condition itoa policy) (sinks-same policy.sinks h)

  module _ (parse : Text → Query) (append_string : Filterss → Text) (service : MetricsService) where
    create-same :
        (project : Text)
        → references_secret policy.sinks secret ≡ false
        → create_vector_configuration parse append_string service before project policy
          ≡ create_vector_configuration parse append_string service after project policy
    unfolding create_vector_configuration
    create-same project h =
        ap
          (assembled parse append_string service
            (add_sources parse append_string service project policy policy.sources (some [])))
          (add_sinks-same project policy.sinks h (some []))

module _ (secret namespace : Text) (before after : Client)
    (same : (name : Text) → name ≢ secret → before namespace name ≡ after namespace name)
    (set_condition : List Condition → Condition → List Condition × Bool) (itoa : ℕ → Text)
    (parse : Text → Query) (append_string : Filterss → Text) (service : MetricsService)
    (project : Text) where
  -- A round over the policy comes to the same status and the same configuration.
  abbrev pub IsUnrelated : ExportPolicy → Type 0
  IsUnrelated policy =
      (reconcile_export_policy_status set_condition itoa before policy
        ≡ reconcile_export_policy_status set_condition itoa after policy)
      × (create_vector_configuration parse append_string service before project policy
          ≡ create_vector_configuration parse append_string service after project policy)

  unrelated_lem :
      (policy : ExportPolicy)
      → policy.namespace ≡ namespace
      → references_secret policy.sinks secret ≡ false
      → IsUnrelated policy
  unrelated_lem policy n h =
      let here =
        subst (λ (ns : Text). (name : Text) → name ≢ secret → before ns name ≡ after ns name)
          (sym n) same in
      (
        status-same secret policy before after here set_condition itoa h,
        create-same secret policy before after here parse append_string service project h,
      )

  -- The policy has a request, or the change does not matter to it.
  abbrev pub IsCovered : List (Text × Text) → ExportPolicy → Type 0
  IsCovered asked policy = Mem (policy.name, policy.namespace) asked ⊎ IsUnrelated policy

  more-IsCovered :
      (request : Text × Text) (asked : List (Text × Text)) (policy : ExportPolicy)
      → IsCovered asked policy
      → IsCovered (request ∷ asked) policy
  more-IsCovered request asked policy (inl m) = inl (mem-cons_of_mem request m)
  more-IsCovered request asked policy (inr h) = inr h

  -- If a change of the cluster's answers is confined to one secret of a namespace, then each policy of
  -- the namespace either is among the requests that the watch of that secret makes, or comes, by
  -- the new answers, to the same status and the same configuration as by the old ones.
  pub requests-IsCovered :
      (policies : List ExportPolicy)
      → All (λ (p : ExportPolicy). p.namespace ≡ namespace) policies
      → All (IsCovered (requests policies secret)) policies
  unfolding requests
  requests-IsCovered [] h = tt
  requests-IsCovered (policy ∷ policies) (n, more) =
      let rest = requests-IsCovered policies more in
      let asked = requests policies secret in
      let next = (policy.name, policy.namespace) ∷ asked in
      let Covers = λ (a : List (Text × Text)). All (IsCovered a) (policy ∷ policies) in
      elim (Bool-cases (references_secret policy.sinks secret)) [
        | inl e ↦
            subst Covers (sym (if_true (references_secret policy.sinks secret) next asked e)) (
              inl mem-cons_self,
              All-imp (IsCovered asked) (IsCovered next)
                  (more-IsCovered (policy.name, policy.namespace) asked) policies rest,
            )
        | inr e ↦
            subst Covers (sym (if_false (references_secret policy.sinks secret) next asked e))
              (inr (unrelated_lem policy n e), rest)
      ]
