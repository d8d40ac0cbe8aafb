-- ===== src/Operator/Controller/Reconcile/Deletes.antt =====
-- A round over a policy that is being deleted.
use telemetry.Base.{
  if_true, if_false, ◌≡◌, ◌≢◌, refl, ap, ◌∙◌, ◌⊎◌, inl, inr, Bool, true, false, Option, none, some,
  List, Bool-cases, Option-cases, if◌then◌else◌,
}
use telemetry.Base.Text.{Text}
use telemetry.Base.Assoc.{contains}
use telemetry.Operator.Controller.{ExportPolicy}
use telemetry.Operator.Controller.Reconcile.{
  keep, call_then, Secrets, Libraries, ExportPolicyReconciler, World, Failures, Result, done, error,
  config_secret_name, finalize, process, finalized, reconcile,
}
use telemetry.Operator.Controller.Reconcile.Delivery.{export_policy_controller_finalizer, world_of}

-- The libraries as far as a policy that is deleted needs them.
pub record CanDelete (libs : Libraries) : Type 0 where
  -- The finalizer manager calls the finalizer that is there, and then removes it.
  pub plan :
      (p : ExportPolicy)
      → p.deleting ≡ true
      → (left : List Text) × (libs.plan p ≡ (
          if contains p.finalizers export_policy_controller_finalizer
          then call_then (record p { finalizers = left })
          else keep))
  pub delete : (name : Text) (secrets : Secrets) → libs.delete name secrets name ≡ none
  pub delete_others :
      (name other : Text) (secrets : Secrets)
      → other ≢ name
      → libs.delete name secrets other ≡ secrets other

module _ (libs : Libraries) (r : ExportPolicyReconciler) (laws : CanDelete libs) where
  finalize-clears :
      (p : ExportPolicy) (secrets : Secrets)
      → finalize libs r p secrets (config_secret_name p) ≡ none
  unfolding finalize
  finalize-clears p secrets = elim (Option-cases (secrets (config_secret_name p))) [
    | inl e ↦ rw (e, finalize) e
    | inr (s, e) ↦ rw (e, finalize) (laws.delete (config_secret_name p) secrets)
  ]

  finalize-others :
      (p : ExportPolicy) (secrets : Secrets) (other : Text)
      → other ≢ config_secret_name p
      → finalize libs r p secrets other ≡ secrets other
  unfolding finalize
  finalize-others p secrets other h = elim (Option-cases (secrets (config_secret_name p))) [
    | inl e ↦ rw (e, finalize) refl
    | inr (s, e) ↦ rw (e, finalize) (laws.delete_others (config_secret_name p) other secrets h)
  ]

  module _ (cluster : Text) (p : ExportPolicy) (deleted : p.deleting ≡ true)
      (secrets : Secrets) where
    -- What a round may make of the policy and of the secrets.
    pub record IsCleaned (world : World) : Type 0 where
      -- The policy is only let go once its secret is gone.
      pub gone : world.policy ≢ some p → world.secrets (config_secret_name p) ≡ none
      -- The other secrets stay, and nothing is written into the policy's.
      pub others :
          (other : Text) → other ≢ config_secret_name p → world.secrets other ≡ secrets other
      pub own :
          (world.secrets (config_secret_name p) ≡ secrets (config_secret_name p))
          ⊎ (world.secrets (config_secret_name p) ≡ none)

    abbrev Cleans : Option (World × Result) → Type 0
    Cleans o = (world : World) × (result : Result) × (o ≡ some (world, result)) × IsCleaned world

    untouched : IsCleaned (world_of p secrets)
    untouched = record { gone = λ h. absurd (h refl); others = λ other h. refl; own = inl refl }

    finalized_world :
        (o : Option ExportPolicy)
        → IsCleaned (record { policy = o; secrets = finalize libs r p secrets })
    finalized_world o = record {
      gone = λ h. finalize-clears p secrets;
      others = λ other h. finalize-others p secrets other h;
      own = inr (finalize-clears p secrets);
    }

    finalized-Cleans :
        (failures : Failures) (left : List Text) (b : Bool)
        → Cleans (
            finalized libs r cluster failures
              (world_of p secrets)
              p
              (if b then call_then (record p { finalizers = left }) else keep))
    unfolding finalized process
    finalized-Cleans failures left false =
        (world_of p secrets, done, if_true p.deleting _ _ deleted, untouched)
    finalized-Cleans failures left true = elim (Bool-cases failures.downstream) [
      | inl h ↦ (world_of p secrets, error, if_true failures.downstream _ _ h, untouched)
      | inr h ↦ elim (Bool-cases failures.update) [
        | inl k ↦ (
          _,
          error,
          if_false failures.downstream _ _ h ∙ if_true failures.update _ _ k,
          finalized_world (some p),
        )
        | inr k ↦ (
          _,
          done,
          if_false failures.downstream _ _ h
              ∙ (if_false failures.update _ _ k ∙ if_true p.deleting _ _ deleted),
          finalized_world (libs.updated (record p { finalizers = left })),
        )
      ]
    ]

    -- Whichever calls fail in it, a round over a policy that is being deleted gets through without a
    -- panic and writes no secret: the policy's own is as it was or gone, and the others stay. What
    -- the API server keeps of the policy changes only once its secret is gone.
    pub reconcile-IsCleaned :
        (failures : Failures)
        → (world : World) × (result : Result) × (reconcile libs r cluster failures
              (world_of p secrets)
            ≡ some (world, result))
          × IsCleaned world
    unfolding reconcile
    reconcile-IsCleaned failures = elim (Bool-cases failures.get_cluster) [
      | inl h ↦ (world_of p secrets, error, if_true failures.get_cluster _ _ h, untouched)
      | inr h ↦ elim (Bool-cases failures.get) [
        | inl k ↦ (
          world_of p secrets,
          error,
          if_false failures.get_cluster _ _ h ∙ if_true failures.get _ _ k,
          untouched,
        )
        | inr k ↦
            let (left, planned) = laws.plan p deleted in
            let (world, result, e, cleaned) = finalized-Cleans failures left _ in
            (
              world,
              result,
              if_false failures.get_cluster _ _ h
                  ∙ (if_false failures.get _ _ k
                      ∙ (ap (finalized libs r cluster failures (world_of p secrets) p) planned
                          ∙ e)),
              cleaned,
            )
      ]
    ]
