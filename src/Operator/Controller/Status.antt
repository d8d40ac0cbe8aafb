-- ===== src/Operator/Controller/Status.antt =====
-- The status of a policy: a condition for each sink, and one for the policy.
-- apimeta.SetStatusCondition is a parameter.
pub mod Settled
use telemetry.Base.{
  ℕ, ◌+◌, ◌⊎◌, inl, inr, Bool, true, false, ◌&&◌, ◌||◌, ◌==◌, Option, none, some, List, [], ◌∷◌,
  ◌++◌, length, if◌then◌else◌,
}
use telemetry.Base.Text.{Text, lit, text_eq}
use telemetry.Operator.Controller.{
  ConditionStatus, condition_true, condition_false, condition_unknown, Condition, SinkStatus,
  RemoteWrite, Sink, ExportPolicy, Secret, Client, retrieve_basic_auth_secret,
}

abbrev pub condition_type_accepted : Text
condition_type_accepted = lit "Accepted"

-- The status with that name of an earlier round, or a new one.
unfoldable pub get_sink_status : List SinkStatus → Text → SinkStatus
get_sink_status [] name = record { name = name; conditions = [] }
get_sink_status (s ∷ ss) name =
    let later = get_sink_status ss name in if text_eq s.name name then s else later

abbrev pub is_true : ConditionStatus → Bool
is_true condition_true = true
is_true condition_false = false
is_true condition_unknown = false

unfoldable pub accepted_in : List Condition → ℕ
accepted_in [] = 0
accepted_in (c ∷ cs) =
    (if text_eq c.type condition_type_accepted && is_true c.status then 1 else 0) + accepted_in cs

unfoldable pub accepted_count : List SinkStatus → ℕ
unfolding accepted_in
accepted_count [] = 0
accepted_count (s ∷ ss) = accepted_in s.conditions + accepted_count ss

abbrev pub accepted_condition : Condition
accepted_condition = record {
  type = condition_type_accepted;
  status = condition_true;
  reason = lit "SinkConfigured";
  message = [];
  observed_generation = 0;
}

abbrev pub refused_condition : Text → Condition
refused_condition message = record {
  type = condition_type_accepted;
  status = condition_false;
  reason = lit "InvalidAuthentication";
  message = message;
  observed_generation = 0;
}

abbrev pub judged : Secret ⊎ Text → Condition
judged (inl secret) = accepted_condition
judged (inr message) = refused_condition message

abbrev pub joined :
    Option (SinkStatus × Bool) → Option (List SinkStatus × Bool) → Option (List SinkStatus × Bool)
joined none rest = none
joined (some one) none = none
joined (some (s, changed)) (some (ss, later)) = some (s ∷ ss, changed || later)

module _ (set_condition : List Condition → Condition → List Condition × Bool)
    (itoa : ℕ → Text) where
  -- The status with the condition set, and whether that changed it.
  abbrev pub with_condition : SinkStatus → Condition → SinkStatus × Bool
  with_condition s c =
      let (conditions, updated) = set_condition s.conditions c in
      (record s { conditions = conditions }, updated)

  unfoldable pub ready_condition : ExportPolicy → List SinkStatus → Condition
  unfolding accepted_count
  ready_condition policy statuses =
      let count = accepted_count statuses in
      if count == length statuses
      then record {
        type = lit "Ready";
        status = condition_true;
        reason = lit "SinksAccepted";
        message = lit "All sinks are configured.";
        observed_generation = policy.generation;
      }
      else record {
        type = lit "Ready";
        status = condition_false;
        reason = lit "SinksNotAccepted";
        message =
            itoa count
            ++ (lit "/"
                ++ (itoa (length statuses)
                    ++ lit " sinks are accepted. Check the status of the sinks for more details."));
        observed_generation = policy.generation;
      }

  unfoldable pub update_export_policy_conditions :
      ExportPolicy → List SinkStatus → ExportPolicy × Bool
  unfolding ready_condition
  update_export_policy_conditions policy statuses =
      let (conditions, updated) =
        set_condition policy.conditions (ready_condition policy statuses) in
      (record policy { conditions = conditions }, updated)

  abbrev pub concluded :
      ExportPolicy → Option (List SinkStatus × Bool) → Option (ExportPolicy × Bool)
  concluded policy none = none
  concluded policy (some (statuses, changed)) =
      let (updated_policy, updated) =
        update_export_policy_conditions (record policy { sink_statuses = statuses }) statuses in
      some (updated_policy, updated || changed)

  module _ (client : Client) where
    -- What the sink's authentication amounts to.
    unfoldable pub judge : ExportPolicy → Option (Option Text) → Condition
    judge policy none = accepted_condition
    judge policy (some none) = accepted_condition
    judge policy (some (some ref)) = judged (retrieve_basic_auth_secret client ref policy)

    -- One sink; none where the code reads through a nil target.
    unfoldable pub reconcile_sink :
        ExportPolicy → Option (Option RemoteWrite) → SinkStatus → Option (SinkStatus × Bool)
    unfolding judge
    reconcile_sink policy none status = none
    reconcile_sink policy (some none) status = some (status, false)
    reconcile_sink policy (some (some remote)) status =
        some (with_condition status (judge policy remote.authentication))

    -- The loop over the sinks; the Boolean is statusChanged.
    unfoldable pub reconcile_sinks : ExportPolicy → List Sink → Option (List SinkStatus × Bool)
    unfolding reconcile_sink get_sink_status
    reconcile_sinks policy [] = some ([], false)
    reconcile_sinks policy (sink ∷ sinks) =
        joined (reconcile_sink policy sink.target (get_sink_status policy.sink_statuses sink.name))
          (reconcile_sinks policy sinks)

    -- The policy with its new status, and whether it has to be written; none for a panic.
    unfoldable pub reconcile_export_policy_status : ExportPolicy → Option (ExportPolicy × Bool)
    unfolding reconcile_sinks update_export_policy_conditions
    reconcile_export_policy_status policy = concluded policy (reconcile_sinks policy policy.sinks)
