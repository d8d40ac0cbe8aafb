-- ===== src/Operator/Controller/Status/Settled.antt =====
-- A second round over a status changes nothing, and a status agrees with the configuration.
use mathlib.Core.Option.{some-injective}
use telemetry.Base.{
  ◌≡◌, refl, sym, ap, subst, inl, inr, Bool, true, false, Option, none, some, List, [], ◌∷◌, map,
  if◌then◌else◌, arith, ℕ, Bool-cases,
}
use telemetry.Base.Text.{Text, text_eq, text_eq_iff, text_eq_refl}
use telemetry.Base.Assoc.{contains}
use telemetry.Operator.Controller.{
  Condition, SinkStatus, RemoteWrite, Sink, ExportPolicy, Client, checked,
  retrieve_basic_auth_secret,
}
use telemetry.Operator.Controller.Status.{
  get_sink_status, with_condition, judged, judge, reconcile_sink, joined, reconcile_sinks,
  ready_condition, update_export_policy_conditions, concluded, reconcile_export_policy_status,
}

-- The first condition of a type.
unfoldable pub find_condition : Text → List Condition → Option Condition
find_condition type [] = none
find_condition type (c ∷ cs) = if text_eq c.type type then some c else find_condition type cs

-- What apimeta.SetStatusCondition does: the condition is there afterwards, and setting it again
-- reports no change and makes none.
pub record IsSetCondition (set_condition : List Condition → Condition → List Condition × Bool)
    : Type 0 where
  pub written :
      (cs : List Condition) (c : Condition) → find_condition c.type (set_condition cs c).0 ≡ some c
  pub again :
      (cs : List Condition) (c : Condition)
      → set_condition (set_condition cs c).0 c ≡ ((set_condition cs c).0, false)

-- No two sinks share a name.
abbrev pub HasDistinctNames : List Sink → Type 0
HasDistinctNames [] = Unit
HasDistinctNames (sink ∷ sinks) =
    (contains (map (λ (s : Sink). s.name) sinks) sink.name ≡ false) × HasDistinctNames sinks

-- Each sink finds its status among all.
abbrev Reads : List SinkStatus → List Sink → List SinkStatus → Type 0
Reads all [] [] = Unit
Reads all [] (s ∷ ss) = ⊥
Reads all (sink ∷ sinks) [] = ⊥
Reads all (sink ∷ sinks) (s ∷ ss) = (get_sink_status all sink.name ≡ s) × Reads all sinks ss

get_sink_status-name :
    (all : List SinkStatus) (name : Text) → text_eq (get_sink_status all name).name name ≡ true
unfolding get_sink_status
get_sink_status-name [] name = text_eq_refl name
get_sink_status-name (s ∷ ss) name = elim (Bool-cases (text_eq s.name name)) [
  | inl e ↦ rw e e
  | inr e ↦ rw e (get_sink_status-name ss name)
]

head_found :
    (s : SinkStatus) (ss : List SinkStatus) (name : Text)
    → text_eq s.name name ≡ true
    → get_sink_status (s ∷ ss) name ≡ s
unfolding get_sink_status
head_found s ss name e = rw e refl

Reads-more :
    (first : SinkStatus) (all : List SinkStatus) (sinks : List Sink)
    → contains (map (λ (s : Sink). s.name) sinks) first.name ≡ false
    → (ss : List SinkStatus) → Reads all sinks ss
    → Reads (first ∷ all) sinks ss
unfolding get_sink_status contains
Reads-more first all [] new [] h = tt
Reads-more first all [] new (s ∷ ss) h = h
Reads-more first all (sink ∷ sinks) new [] h = h
Reads-more first all (sink ∷ sinks) new (s ∷ ss) h = (
  ground (arith, text_eq_iff first.name sink.name, text_eq_iff sink.name first.name, h.0),
  Reads-more first all sinks (ground (arith)) ss h.1,
)

module _ (set_condition : List Condition → Condition → List Condition × Bool) (itoa : ℕ → Text)
    (client : Client) where
  pub joined_parts :
      (one : Option (SinkStatus × Bool)) (rest : Option (List SinkStatus × Bool)) (s : SinkStatus)
      (ss : List SinkStatus) (b : Bool)
      → joined one rest ≡ some (s ∷ ss, b)
      → ((c : Bool) × (one ≡ some (s, c))) × ((d : Bool) × (rest ≡ some (ss, d)))
  joined_parts none rest s ss b e = absurd (cc)
  joined_parts (some one) none s ss b e = absurd (cc)
  joined_parts (some (t, c)) (some (ts, d)) s ss b e = ((c, cc), (d, cc))

  pub joined-some :
      (one : Option (SinkStatus × Bool)) (rest : Option (List SinkStatus × Bool)) (b : Bool)
      → joined one rest ≡ some ([], b)
      → ⊥
  joined-some none rest b e = cc
  joined-some (some one) none b e = cc
  joined-some (some (t, c)) (some (ts, d)) b e = cc

  reconcile_sink-name :
      (policy : ExportPolicy) (target : Option (Option RemoteWrite)) (status s : SinkStatus)
      (b : Bool)
      → reconcile_sink set_condition itoa client policy target status ≡ some (s, b)
      → status.name ≡ s.name
  unfolding reconcile_sink
  reconcile_sink-name policy none status s b e = absurd (cc)
  reconcile_sink-name policy (some none) status s b e =
      ap (λ (p : SinkStatus × Bool). p.0.name) (some-injective _ _ e)
  reconcile_sink-name policy (some (some remote)) status s b e =
      ap (λ (p : SinkStatus × Bool). p.0.name) (some-injective _ _ e)

  reconcile_sinks-Reads :
      (policy : ExportPolicy) (sinks : List Sink)
      → HasDistinctNames sinks
      → (ss : List SinkStatus) (b : Bool)
      → reconcile_sinks set_condition itoa client policy sinks ≡ some (ss, b)
      → Reads ss sinks ss
  unfolding reconcile_sinks
  reconcile_sinks-Reads policy [] h [] b e = tt
  reconcile_sinks-Reads policy [] h (s ∷ ss) b e = cc
  reconcile_sinks-Reads policy (sink ∷ sinks) h [] b e = joined-some _ _ b e
  reconcile_sinks-Reads policy (sink ∷ sinks) h (s ∷ ss) b e =
      let ((c, one), (d, rest)) = joined_parts _ _ s ss b e in
      let kept =
        reconcile_sink-name policy sink.target (get_sink_status policy.sink_statuses sink.name) s c
          one in
      let found : text_eq s.name sink.name ≡ true =
        rw kept at (get_sink_status-name policy.sink_statuses sink.name) in
      let new : contains (map (λ (t : Sink). t.name) sinks) s.name ≡ false =
        rw (sym ((text_eq_iff s.name sink.name).0 found)) at h.0 in
      (
        head_found s ss sink.name found,
        Reads-more s ss sinks new ss (reconcile_sinks-Reads policy sinks h.1 ss d rest),
      )

  judge-namespace :
      (policy later : ExportPolicy)
      → policy.namespace ≡ later.namespace
      → (authentication : Option (Option Text))
      → judge set_condition itoa client policy authentication
        ≡ judge set_condition itoa client later authentication
  unfolding judge retrieve_basic_auth_secret
  judge-namespace policy later n none = refl
  judge-namespace policy later n (some none) = refl
  judge-namespace policy later n (some (some ref)) =
      ap (λ (ns : Text). judged (checked ref (client ns ref))) n

  pub concluded_parts :
      (policy after : ExportPolicy) (o : Option (List SinkStatus × Bool)) (b : Bool)
      → concluded set_condition itoa policy o ≡ some (after, b)
      → (ss : List SinkStatus) × (c : Bool) × (o ≡ some (ss, c))
        × (after
            ≡ (update_export_policy_conditions set_condition itoa
                (record policy { sink_statuses = ss })
                ss).0)
  concluded_parts policy after none b e = absurd (cc)
  concluded_parts policy after (some (ss, c)) b e =
      (ss, c, refl, sym (ap (λ (p : ExportPolicy × Bool). p.0) (some-injective _ _ e)))

  module _ (laws : IsSetCondition set_condition) where
    reconcile_sink-again :
        (policy later : ExportPolicy)
        → policy.namespace ≡ later.namespace
        → (target : Option (Option RemoteWrite)) (status s : SinkStatus) (b : Bool)
        → reconcile_sink set_condition itoa client policy target status ≡ some (s, b)
        → reconcile_sink set_condition itoa client later target s ≡ some (s, false)
    unfolding reconcile_sink
    reconcile_sink-again policy later n none status s b e = absurd (cc)
    reconcile_sink-again policy later n (some none) status s b e = refl
    reconcile_sink-again policy later n (some (some remote)) status s b e =
        let c = judge set_condition itoa client policy remote.authentication in
        let done : (with_condition set_condition itoa status c).0 ≡ s =
          ap (λ (p : SinkStatus × Bool). p.0) (some-injective _ _ e) in
        let held : set_condition s.conditions c ≡ (s.conditions, false) =
          subst (λ (t : SinkStatus). set_condition t.conditions c ≡ (t.conditions, false)) done
            (laws.again status.conditions c) in
        rw (sym (judge-namespace policy later n remote.authentication), held) refl

    reconcile_sinks-again :
        (policy later : ExportPolicy)
        → policy.namespace ≡ later.namespace
        → (sinks : List Sink) (ss : List SinkStatus) (b : Bool) → Reads later.sink_statuses sinks ss
        → reconcile_sinks set_condition itoa client policy sinks ≡ some (ss, b)
        → reconcile_sinks set_condition itoa client later sinks ≡ some (ss, false)
    unfolding reconcile_sinks
    reconcile_sinks-again policy later n [] [] b h e = refl
    reconcile_sinks-again policy later n [] (s ∷ ss) b h e = absurd h
    reconcile_sinks-again policy later n (sink ∷ sinks) [] b h e = absurd h
    reconcile_sinks-again policy later n (sink ∷ sinks) (s ∷ ss) b (found, more) e =
        let ((c, one), (d, rest)) = joined_parts _ _ s ss b e in
        rw
          (
            found,
            reconcile_sink-again policy later n sink.target
                (get_sink_status policy.sink_statuses sink.name) s c one,
            reconcile_sinks-again policy later n sinks ss d more rest,
          )
          refl

    concluded-again :
        (policy : ExportPolicy) (ss : List SinkStatus) (c : Bool)
        → HasDistinctNames policy.sinks
        → reconcile_sinks set_condition itoa client policy policy.sinks ≡ some (ss, c)
        → let after =
            (update_export_policy_conditions set_condition itoa
              (record policy { sink_statuses = ss })
              ss).0 in
          reconcile_export_policy_status set_condition itoa client after ≡ some (after, false)
    unfolding reconcile_export_policy_status update_export_policy_conditions ready_condition
    concluded-again policy ss c h rest =
        let k = ready_condition set_condition itoa (record policy { sink_statuses = ss }) ss in
        let after = record policy {
          sink_statuses = ss;
          conditions = (set_condition policy.conditions k).0;
        } in
        let reads = reconcile_sinks-Reads policy policy.sinks h ss c rest in
        rw
          (
            reconcile_sinks-again policy after refl policy.sinks ss c reads rest,
            laws.again policy.conditions k,
          )
          refl

    -- Where no two sinks of a policy share a name, a round that gets through leaves a status in which
    -- the next round, with the same answers of the cluster, changes nothing and reports no change.
    pub reconcile_export_policy_status-again :
        (policy after : ExportPolicy) (b : Bool)
        → HasDistinctNames policy.sinks
        → reconcile_export_policy_status set_condition itoa client policy ≡ some (after, b)
        → reconcile_export_policy_status set_condition itoa client after ≡ some (after, false)
    unfolding reconcile_export_policy_status update_export_policy_conditions ready_condition
    reconcile_export_policy_status-again policy after b h e =
        let (ss, c, rest, made) = concluded_parts policy after _ b e in
        subst
          (λ (p : ExportPolicy).
            reconcile_export_policy_status set_condition itoa client p ≡ some (p, false))
          (sym made) (concluded-again policy ss c h rest)
