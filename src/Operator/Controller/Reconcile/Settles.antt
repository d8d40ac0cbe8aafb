-- ===== src/Operator/Controller/Reconcile/Settles.antt =====
-- The rounds of the reconciler bring the configuration to the downstream cluster.
use mathlib.Core.Option.{some-injective}
use telemetry.Base.{
  if_false, Option-cases, ◌≡◌, refl, sym, ap, ◌∙◌, Bool, true, false, Option, none, some, List, [],
  ◌∷◌, ◌++◌, Bool-cases, inl, inr, All, subst,
}
use telemetry.Base.Text.{Text}
use telemetry.Base.Assoc.{contains}
use telemetry.Operator.Controller.{Condition, SinkStatus, ExportPolicy, Client}
use telemetry.Operator.Controller.Status.{reconcile_export_policy_status}
use telemetry.Operator.Controller.Status.Settled.{
  HasDistinctNames, reconcile_export_policy_status-again,
}
use telemetry.Operator.Controller.Reconcile.{
  Secrets, Libraries, ExportPolicyReconciler, World, Failures, Result, done, requeue, write_status,
  process, finalized, project_name, reconcile, continued, rounds,
}
use telemetry.Operator.Controller.Reconcile.Versions.{version, IsTargeted, status-version}
use telemetry.Operator.Controller.Reconcile.Delivery.{
  export_policy_controller_finalizer, IsLibraries, calm, world_of, HasFinalizer, add-HasFinalizer,
  IsDelivered, IsMade, Prints,
}
use telemetry.Operator.Controller.Reconcile.Makes.{create_vector_configuration-HasValue}
use telemetry.Operator.Controller.Reconcile.Steps.{
  plan_of, list_of, configure-delivers, configure-version, finalized-process, reconcile-finalized,
  reconcile-Leaves,
}

module _ (libs : Libraries) (r : ExportPolicyReconciler) (cluster : Text) where
  rounds-cons :
      (failures : Failures) (more : List Failures) (w next : World) (result : Result)
      → reconcile libs r cluster failures w ≡ some (next, result)
      → rounds libs r cluster (failures ∷ more) w ≡ rounds libs r cluster more next
  unfolding rounds
  rounds-cons failures more w next result h =
      ap (continued libs r cluster (rounds libs r cluster more)) h

  rounds-append :
      (before more : List Failures) (w next : World)
      → rounds libs r cluster before w ≡ some next
      → rounds libs r cluster (before ++ more) w ≡ rounds libs r cluster more next
  unfolding rounds
  rounds-append [] more w next h = ap (rounds libs r cluster more) (some-injective w next h)
  rounds-append (failures ∷ before) more w next h =
      elim (Option-cases (reconcile libs r cluster failures w)) [
        | inl e ↦
            let left = ap (continued libs r cluster (rounds libs r cluster before)) e in
            let gone : none ≡ some next = sym left ∙ h in absurd (cc (gone))
        | inr ((first, result), e) ↦
            rounds-cons failures (before ++ more) w first result e
            ∙ rounds-append before more first next
                (sym (rounds-cons failures before w first result e) ∙ h)
      ]

  module _ (client : Client) (laws : IsLibraries libs) (p : ExportPolicy) (json : Text)
      (kept : p.deleting ≡ false) (targeted : IsTargeted p)
      (prints : Prints libs r client cluster p json) where
    makes : (other : Client) → IsMade libs r other cluster p
    makes other =
        create_vector_configuration-HasValue client other p libs.parse libs.append_string
          r.metrics_service (project_name cluster) (prints.0, prints.1)

    -- The secrets are read for the configuration as by `client`.
    abbrev pub ReadsAlike : Failures → Type 0
    ReadsAlike failures = failures.config_client ≡ client

    rounds-Leaves :
        (row : List Failures) (secrets : Secrets) (fs : List Text) (cs : List Condition)
        (ss : List SinkStatus)
        → (gs : List Text) × (ds : List Condition) × (ts : List SinkStatus) × (after : Secrets)
          × (rounds libs r cluster row (world_of (version p fs cs ss) secrets)
              ≡ some (world_of (version p gs ds ts) after))
          × (All ReadsAlike row
              → IsDelivered libs r p json secrets
              → IsDelivered libs r p json after)
    unfolding rounds
    rounds-Leaves [] secrets fs cs ss = (fs, cs, ss, secrets, refl, λ alike h. h)
    rounds-Leaves (failures ∷ row) secrets fs cs ss =
        let (gs, ds, ts, next, result, e, keeps) =
          reconcile-Leaves libs r cluster laws p json kept targeted makes failures secrets fs cs
            ss in
        let (hs, es, us, after, f, keeps_on) = rounds-Leaves row next gs ds ts in
        (
          hs,
          es,
          us,
          after,
          rounds-cons failures row _ _ result e ∙ f,
          λ alike h.
              keeps_on alike.1
                (keeps (subst (λ c. Prints libs r c cluster p json) (sym alike.0) prints) h),
        )

    list-HasFinalizer :
        (fs : List Text)
        → HasFinalizer (
            list_of libs r cluster laws p json kept targeted makes fs
              (contains fs export_policy_controller_finalizer))
    list-HasFinalizer fs = elim (Bool-cases (contains fs export_policy_controller_finalizer)) [
      | inl e ↦ rw e e
      | inr e ↦ rw e (add-HasFinalizer fs)
    ]

    calm_round :
        (secrets : Secrets) (fs : List Text) (cs : List Condition) (ss : List SinkStatus) (b : Bool)
        → contains fs export_policy_controller_finalizer ≡ b
        → let gs = list_of libs r cluster laws p json kept targeted makes fs b in
          reconcile libs r cluster (calm client) (world_of (version p fs cs ss) secrets)
          ≡ write_status libs r cluster (calm client) (world_of (version p gs cs ss) secrets) (
              reconcile_export_policy_status libs.set_condition libs.itoa client
                (version p gs cs ss))
    unfolding process
    calm_round secrets fs cs ss b h =
        let plan = plan_of libs r cluster laws p json kept targeted makes fs cs ss in
        reconcile-finalized libs r cluster laws p json kept targeted makes (calm client) secrets fs
          cs ss refl refl
        ∙ (ap
              (λ (c : Bool).
                finalized libs r cluster (calm client) (world_of (version p fs cs ss) secrets)
                  (version p fs cs ss) (plan c))
              h
            ∙ (finalized-process libs r cluster laws p json kept targeted makes (calm client)
                  secrets fs cs ss refl b
                ∙ if_false p.deleting _ _ kept))

    -- Where the status stays, a calm round delivers; none is what it leaves otherwise.
    round_delivers :
        (secrets : Secrets) (fs gs : List Text) (cs ds : List Condition) (ss ts : List SinkStatus)
        → reconcile libs r cluster (calm client) (world_of (version p fs cs ss) secrets)
          ≡ write_status libs r cluster
              (calm client)
              (world_of (version p gs cs ss) secrets)
              (some (version p gs ds ts, false))
        → (row : List Failures) → All ReadsAlike row
        → (hs : List Text) × (es : List Condition) × (us : List SinkStatus) × (after : Secrets)
          × (rounds libs r cluster ((calm client) ∷ row) (world_of (version p fs cs ss) secrets)
              ≡ some (world_of (version p hs es us) after))
          × IsDelivered libs r p json after
    round_delivers secrets fs gs cs ds ss ts e row alike =
        let w = world_of (version p gs cs ss) secrets in
        let (config, made, printed) = prints in
        let (next, f, delivered) =
          configure-delivers libs r cluster laws p json kept targeted makes (calm client) w gs ds ts
            config json refl printed in
        let same =
          configure-version libs r cluster laws p json kept targeted makes (calm client) w gs ds ts
            config made in
        let (hs, es, us, after, g, keeps) = rounds-Leaves row next gs cs ss in
        (
          hs,
          es,
          us,
          after,
          rounds-cons (calm client) row _ _ done (e ∙ (same ∙ f)) ∙ g,
          keeps alike delivered,
        )

    -- The row of rounds leaves a version of the policy and its configuration.
    abbrev Delivers : Option World → Type 0
    Delivers o =
        (fs : List Text) × (cs : List Condition) × (ss : List SinkStatus) × (after : Secrets) × (o
          ≡ some (world_of (version p fs cs ss) after))
        × IsDelivered libs r p json after

    two_calm :
        HasDistinctNames p.sinks
        → (secrets : Secrets) (fs gs : List Text) (cs ds : List Condition) (ss ts : List SinkStatus)
          (b : Bool)
        → contains gs export_policy_controller_finalizer ≡ true
        → reconcile_export_policy_status libs.set_condition libs.itoa client (version p gs cs ss)
          ≡ some (version p gs ds ts, b)
        → reconcile libs r cluster (calm client) (world_of (version p fs cs ss) secrets)
          ≡ write_status libs r cluster
              (calm client)
              (world_of (version p gs cs ss) secrets)
              (some (version p gs ds ts, b))
        → (row : List Failures) → All ReadsAlike row
        → Delivers (
            rounds libs r cluster
              ((calm client) ∷ (calm client) ∷ row)
              (world_of (version p fs cs ss) secrets))
    two_calm names secrets fs gs cs ds ss ts false h e first row alike =
        round_delivers secrets fs gs cs ds ss ts first ((calm client) ∷ row) (refl, alike)
    two_calm names secrets fs gs cs ds ss ts true h e first row alike =
        let again =
          reconcile_export_policy_status-again libs.set_condition libs.itoa client
            laws.set_condition (version p gs cs ss) (version p gs ds ts) true names e in
        let w = world_of (version p gs ds ts) secrets in
        let second =
          calm_round secrets gs ds ts true h
          ∙ ap (write_status libs r cluster (calm client) w) again in
        let (hs, es, us, after, f, delivered) =
          round_delivers secrets gs gs ds ds ts ts second row alike in
        (
          hs,
          es,
          us,
          after,
          rounds-cons (calm client) ((calm client) ∷ row) _ w requeue first ∙ f,
          delivered,
        )

    calm-Delivers :
        HasDistinctNames p.sinks
        → (secrets : Secrets) (fs : List Text) (cs : List Condition) (ss : List SinkStatus)
          (row : List Failures)
        → All ReadsAlike row
        → Delivers (
            rounds libs r cluster
              ((calm client) ∷ (calm client) ∷ row)
              (world_of (version p fs cs ss) secrets))
    calm-Delivers names secrets fs cs ss row alike =
        let b = contains fs export_policy_controller_finalizer in
        let gs = list_of libs r cluster laws p json kept targeted makes fs b in
        let (ds, ts, c, e) =
          status-version libs.set_condition libs.itoa client p targeted gs cs ss in
        let w = world_of (version p gs cs ss) secrets in
        two_calm names secrets fs gs cs ds ss ts c (list-HasFinalizer fs) e
          (calm_round secrets fs cs ss b refl ∙ ap (write_status libs r cluster (calm client) w) e)
          row alike

    -- In a row of rounds between which no one else writes the policy or the secrets: whichever calls
    -- fail in the rounds before, the reads of the sinks' secrets among them, once two rounds in a row
    -- run without a failed call, the downstream cluster holds the configuration that is made of the
    -- answers of these two rounds, and keeps it whichever calls fail in the rounds after, as long as
    -- their reads of secrets for the configuration are answered alike. The policy is one that is not
    -- being deleted, whose sinks all have targets and distinct names, and whose configuration can be
    -- made and printed; it ends the same but for its finalizers and status.
    pub rounds-IsDelivered :
        HasDistinctNames p.sinks
        → (before after : List Failures) (secrets : Secrets) → All ReadsAlike after
        → (fs : List Text) × (cs : List Condition) × (ss : List SinkStatus) × (final : Secrets)
          × (rounds libs r cluster
                (before ++ calm client ∷ calm client ∷ after)
                (world_of p secrets)
              ≡ some (world_of (version p fs cs ss) final))
          × IsDelivered libs r p json final
    rounds-IsDelivered names before after secrets alike =
        let (gs, ds, ts, next, e, keeps) =
          rounds-Leaves before secrets p.finalizers p.conditions p.sink_statuses in
        let (fs, cs, ss, final, f, delivered) = calm-Delivers names next gs ds ts after alike in
        (
          fs,
          cs,
          ss,
          final,
          rounds-append before (calm client ∷ calm client ∷ after) (world_of p secrets) _ e ∙ f,
          delivered,
        )
