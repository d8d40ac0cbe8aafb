-- ===== src/Operator/Controller/Reconcile/Makes.antt =====
-- Whether createVectorConfiguration gets through does not hang on the answers of the cluster: a
-- sink whose secret cannot be read is skipped.
use telemetry.Base.{
  ◌≡◌, refl, sym, ap, ◌∙◌, ◌⊎◌, inl, inr, Option, none, some, List, [], ◌∷◌, Option-cases,
}
use telemetry.Base.Text.{Text}
use telemetry.Operator.Controller.{RemoteWrite, Sink, ExportPolicy, Client}
use telemetry.Operator.Controller.Vector.{
  Query, Filterss, MetricsService, SinkConfig, get_vector_component_id, get_prometheus_remote_write,
  sink_target_config, get_sink_vector_config, add_sink, add_sinks, create_vector_configuration,
  vector_sink, merged, assembled, SourceConfig,
}

module _ {A : Type 0} where
  abbrev pub HasValue : Option A → Type 0
  HasValue o = (x : A) × (o ≡ some x)

module _ (client other : Client) (p : ExportPolicy) where
  remote-HasValue :
      (endpoint : Text) (authentication : Option (Option Text))
      → HasValue (get_prometheus_remote_write client p endpoint authentication)
      → HasValue (get_prometheus_remote_write other p endpoint authentication)
  unfolding get_prometheus_remote_write
  remote-HasValue endpoint none h = (_, refl)
  remote-HasValue endpoint (some none) (x, e) = absurd (cc (e))
  remote-HasValue endpoint (some (some ref)) h = (_, refl)

  merged-HasValue :
      (inputs : List Text) (o q : Option (SinkConfig ⊎ Text))
      → (HasValue o → HasValue q)
      → HasValue (merged inputs o)
      → HasValue (merged inputs q)
  merged-HasValue inputs none q f (x, e) = absurd (cc (e))
  merged-HasValue inputs (some v) none f h = let (x, e) = f (v, refl) in absurd (cc (e))
  merged-HasValue inputs (some v) (some (inl config)) f h = (_, refl)
  merged-HasValue inputs (some v) (some (inr message)) f h = (_, refl)

  target-HasValue :
      (name : Text) (inputs : List Text) (target : Option (Option RemoteWrite))
      → HasValue (sink_target_config client p name inputs target)
      → HasValue (sink_target_config other p name inputs target)
  unfolding sink_target_config
  target-HasValue name inputs none (x, e) = absurd (cc (e))
  target-HasValue name inputs (some none) h = (_, refl)
  target-HasValue name inputs (some (some remote)) h =
      merged-HasValue inputs _ _ (remote-HasValue remote.endpoint remote.authentication) h

  sink-HasValue :
      (project : Text) (sink : Sink)
      → HasValue (get_sink_vector_config client project sink p)
      → HasValue (get_sink_vector_config other project sink p)
  unfolding get_sink_vector_config
  sink-HasValue project sink h = target-HasValue sink.name _ sink.target h

  add_sink-HasValue :
      (id : Text) (v : SinkConfig ⊎ Text) (m : List (Text × SinkConfig))
      → HasValue (add_sink id (some v) m)
  add_sink-HasValue id (inl config) m = (_, refl)
  add_sink-HasValue id (inr message) m = (_, refl)

  add_sinks-none :
      (c : Client) (project : Text) (sinks : List Sink) → add_sinks c project p sinks none ≡ none
  unfolding add_sinks
  add_sinks-none c project sinks = refl

  -- One more sink, by what its configuration is.
  add_sinks-cons :
      (c : Client) (project : Text) (sink : Sink) (sinks : List Sink) (m : List (Text × SinkConfig))
      (o : Option (SinkConfig ⊎ Text))
      → get_sink_vector_config c project sink p ≡ o
      → add_sinks c project p (sink ∷ sinks) (some m)
        ≡ add_sinks c project p sinks
            (add_sink (get_vector_component_id p project sink.name vector_sink) o m)
  unfolding add_sinks
  add_sinks-cons c project sink sinks m o e =
      ap
        (λ v.
          add_sinks c project p sinks
            (add_sink (get_vector_component_id p project sink.name vector_sink) v m))
        e

  add_sinks-HasValue :
      (project : Text) (sinks : List Sink) (m n : List (Text × SinkConfig))
      → HasValue (add_sinks client project p sinks (some m))
      → HasValue (add_sinks other project p sinks (some n))
  add_sinks-HasValue project [] m n h = (n, unfold add_sinks in refl)
  add_sinks-HasValue project (sink ∷ sinks) m n (x, h) =
      elim (Option-cases (get_sink_vector_config client project sink p)) [
        | inl e ↦
            let gone : none ≡ some x =
              sym (add_sinks-none client project sinks)
              ∙ sym (add_sinks-cons client project sink sinks m none e)
              ∙ h in
            absurd (cc (gone))
        | inr (v, e) ↦
            let id = get_vector_component_id p project sink.name vector_sink in
            let (w, f) = sink-HasValue project sink (v, e) in
            let (m₂, k) = add_sink-HasValue id v m in
            let (n₂, l) = add_sink-HasValue id w n in
            let (y, g) = add_sinks-HasValue project sinks m₂ n₂ (
              x,
              ap (add_sinks client project p sinks) (sym k)
                  ∙ sym (add_sinks-cons client project sink sinks m (some v) e)
                  ∙ h,
            ) in
            (
              y,
              add_sinks-cons other project sink sinks n (some w) f
                  ∙ ap (add_sinks other project p sinks) l
                  ∙ g,
            )
      ]

  module _ (parse : Text → Query) (append_string : Filterss → Text) (service : MetricsService) where
    assembled-HasValue :
        (sources : Option (List (Text × SourceConfig))) (o q : Option (List (Text × SinkConfig)))
        → (HasValue o → HasValue q)
        → HasValue (assembled parse append_string service sources o)
        → HasValue (assembled parse append_string service sources q)
    assembled-HasValue none o q f (x, e) = absurd (cc (e))
    assembled-HasValue (some s) none q f (x, e) = absurd (cc (e))
    assembled-HasValue (some s) (some m) none f h = let (x, e) = f (m, refl) in absurd (cc (e))
    assembled-HasValue (some s) (some m) (some n) f h = (_, refl)

    -- If the configuration can be made under one client, it can be made under any other.
    pub create_vector_configuration-HasValue :
        (project : Text)
        → HasValue (create_vector_configuration parse append_string service client project p)
        → HasValue (create_vector_configuration parse append_string service other project p)
    unfolding create_vector_configuration
    create_vector_configuration-HasValue project h =
        assembled-HasValue _ _ _ (add_sinks-HasValue project p.sinks [] []) h
