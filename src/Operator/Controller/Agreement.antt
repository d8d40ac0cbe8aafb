-- ===== src/Operator/Controller/Agreement.antt =====
-- The status of a sink agrees with the configuration that Vector gets for it.
use mathlib.Core.Option.{some-injective}
use telemetry.Base.{
  ℕ, subst, ◌≡◌, refl, sym, ap, ◌∙◌, ◌⊎◌, inl, inr, Bool, Option, none, some, List, [], ◌∷◌, map,
}
use telemetry.Base.Text.{Text}
use telemetry.Operator.Controller.{
  Condition, SinkStatus, RemoteWrite, Sink, ExportPolicy, Secret, Client,
  retrieve_basic_auth_secret,
}
use telemetry.Operator.Controller.Status.{
  condition_type_accepted, get_sink_status, accepted_condition, refused_condition, judged, judge,
  reconcile_sink, reconcile_sinks, update_export_policy_conditions, reconcile_export_policy_status,
}
use telemetry.Operator.Controller.Status.Settled.{
  find_condition, IsSetCondition, joined_parts, joined-some, concluded_parts,
}
use telemetry.Operator.Controller.Vector.{
  SinkConfig, secret_config, get_prometheus_remote_write, merged, sink_target_config,
  get_sink_vector_config, get_vector_component_id, vector_source,
}

-- The condition that reports what making the configuration comes to; a panic goes unreported.
abbrev pub verdict : Option (SinkConfig ⊎ Text) → Condition
verdict none = accepted_condition
verdict (some (inl config)) = accepted_condition
verdict (some (inr message)) = refused_condition message

module _ (client : Client) where
  -- The status of each sink with a remote write target carries the verdict on its configuration.
  abbrev pub Agree : Text → ExportPolicy → List Sink → List SinkStatus → Type 0
  Agree project policy [] [] = Unit
  Agree project policy [] (s ∷ ss) = ⊥
  Agree project policy (sink ∷ sinks) [] = ⊥
  Agree project policy (sink ∷ sinks) (s ∷ ss) =
      ((remote : RemoteWrite)
        → sink.target ≡ some (some remote)
        → find_condition condition_type_accepted s.conditions
          ≡ some (verdict (get_sink_vector_config client project sink policy)))
      × Agree project policy sinks ss

module _ (set_condition : List Condition → Condition → List Condition × Bool) (itoa : ℕ → Text)
    (client : Client) where
  judged_secret :
      (endpoint : Text) (answer : Secret ⊎ Text)
      → judged answer ≡ verdict (some (secret_config endpoint answer))
  unfolding secret_config
  judged_secret endpoint (inl secret) = refl
  judged_secret endpoint (inr message) = refl

  judge-outcome :
      (policy : ExportPolicy) (endpoint : Text) (authentication : Option (Option Text))
      → judge set_condition itoa client policy authentication
        ≡ verdict (get_prometheus_remote_write client policy endpoint authentication)
  unfolding judge get_prometheus_remote_write
  judge-outcome policy endpoint none = refl
  judge-outcome policy endpoint (some none) = refl
  judge-outcome policy endpoint (some (some ref)) =
      judged_secret endpoint (retrieve_basic_auth_secret client ref policy)

  verdict-merged :
      (inputs : List Text) (o : Option (SinkConfig ⊎ Text)) → verdict o ≡ verdict (merged inputs o)
  verdict-merged inputs none = refl
  verdict-merged inputs (some (inr message)) = refl
  verdict-merged inputs (some (inl config)) = refl

  module _ (laws : IsSetCondition set_condition) where
    written-verdict :
        (o : Option (SinkConfig ⊎ Text)) (cs : List Condition)
        → find_condition condition_type_accepted (set_condition cs (verdict o)).0 ≡ some (verdict o)
    written-verdict none cs = laws.written cs accepted_condition
    written-verdict (some (inl config)) cs = laws.written cs accepted_condition
    written-verdict (some (inr message)) cs = laws.written cs (refused_condition message)

    sink-verdict :
        (policy : ExportPolicy) (name : Text) (inputs : List Text) (remote : RemoteWrite)
        (status s : SinkStatus) (b : Bool)
        → reconcile_sink set_condition itoa client policy (some (some remote)) status ≡ some (s, b)
        → find_condition condition_type_accepted s.conditions
          ≡ some (verdict (sink_target_config client policy name inputs (some (some remote))))
    unfolding reconcile_sink sink_target_config
    sink-verdict policy name inputs remote status s b e =
        let o = get_prometheus_remote_write client policy remote.endpoint remote.authentication in
        let says =
          judge-outcome policy remote.endpoint remote.authentication ∙ verdict-merged inputs o in
        let kept = ap (λ (p : SinkStatus × Bool). p.0.conditions) (some-injective _ (s, b) e) in
        rw (sym kept, says) (written-verdict (merged inputs o) status.conditions)

    reconcile_sinks-Agree :
        (project : Text) (policy : ExportPolicy) (sinks : List Sink) (ss : List SinkStatus)
        (b : Bool)
        → reconcile_sinks set_condition itoa client policy sinks ≡ some (ss, b)
        → Agree client project policy sinks ss
    unfolding reconcile_sinks get_sink_vector_config
    reconcile_sinks-Agree project policy [] [] b e = tt
    reconcile_sinks-Agree project policy [] (s ∷ ss) b e = cc
    reconcile_sinks-Agree project policy (sink ∷ sinks) [] b e =
        absurd (joined-some set_condition itoa client _ _ b e)
    reconcile_sinks-Agree project policy (sink ∷ sinks) (s ∷ ss) b e =
        let ((c, one), (d, rest)) = joined_parts set_condition itoa client _ _ s ss b e in
        let status = get_sink_status policy.sink_statuses sink.name in
        let inputs =
          map (λ n. get_vector_component_id policy project n vector_source) sink.sources in
        (
          λ remote t.
              subst
                (λ (target : Option (Option RemoteWrite)).
                  find_condition condition_type_accepted s.conditions
                  ≡ some (verdict (sink_target_config client policy sink.name inputs target)))
                (sym t) (sink-verdict policy sink.name inputs remote status s c (rw t at one)),
          reconcile_sinks-Agree project policy sinks ss d rest,
        )

    -- After a round over the status, each sink with a remote write target carries a condition
    -- Accepted that tells how its part of Vector's configuration comes out: it is true if the sink is
    -- configured, and false with the message of the error if the sink is skipped for one. It is also
    -- true if making that part panics, as it does for an authentication without basicAuth.
    pub reconcile_export_policy_status-Agree :
        (project : Text) (policy after : ExportPolicy) (b : Bool)
        → reconcile_export_policy_status set_condition itoa client policy ≡ some (after, b)
        → Agree client project policy policy.sinks after.sink_statuses
    unfolding reconcile_export_policy_status update_export_policy_conditions
    reconcile_export_policy_status-Agree project policy after b e =
        let (ss, c, rest, made) = concluded_parts set_condition itoa client policy after _ b e in
        rw made (reconcile_sinks-Agree project policy policy.sinks ss c rest)
