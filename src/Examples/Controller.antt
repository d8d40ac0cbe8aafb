-- ===== src/Examples/Controller.antt =====
-- The operator's controller on a policy with one source and one sink, with libraries made for it.
use telemetry.Base.{
  ◌≡◌, ◌≢◌, refl, Bool, true, false, not, ◌&&◌, ◌==◌, none, some, List, [], ◌∷◌, ◌++◌, All,
  if◌then◌else◌, if_true, if_false, arith, ==_iff, flat_map, Bool-cases, inl, inr, Option-cases,
}
use telemetry.Base.Text.{Text, lit, text_eq, text_eq_iff, text_eq_refl}
use telemetry.Base.Assoc.{contains, insert, lookup}
use telemetry.Operator.Controller.{
  ConditionStatus, condition_true, condition_false, condition_unknown, Condition, SinkStatus,
  RemoteWrite, ExportPolicy, Secret, found, not_found, Client, checked, retrieve_basic_auth_secret,
}
use telemetry.Operator.Controller.Status.{
  get_sink_status, accepted_in, accepted_count, accepted_condition, judge, reconcile_sink,
  reconcile_sinks, ready_condition, update_export_policy_conditions, reconcile_export_policy_status,
}
use telemetry.Operator.Controller.Status.Settled.{
  find_condition, IsSetCondition, reconcile_export_policy_status-again,
}
use telemetry.Operator.Controller.Agreement.{Agree, reconcile_export_policy_status-Agree}
use telemetry.Operator.Controller.Vector.{
  LabelFilter, metric_expr, MetricsService, SourceConfig, VectorConfig, vector_source, vector_sink,
  get_vector_component_id, secret_config, get_prometheus_remote_write, sink_target_config,
  get_sink_vector_config, add_sinks, source_config, add_query, add_sources,
  create_vector_configuration,
}
use telemetry.Operator.Controller.Vector.Scope.{IsScoped, create_vector_configuration-IsScoped}
use telemetry.Operator.Controller.Reconcile.{
  keep, register, call_then, Secrets, Libraries, ExportPolicyReconciler, World, Failures, Result,
  project_name, rounds, reconcile,
}
use telemetry.Operator.Controller.Reconcile.Versions.{version, IsTargeted}
use telemetry.Operator.Controller.Reconcile.Delivery.{
  export_policy_controller_finalizer, IsLibraries, calm, world_of, IsDelivered, Prints,
}
use telemetry.Operator.Controller.Reconcile.Settles.{rounds-IsDelivered}
use telemetry.Operator.Controller.Reconcile.Deletes.{CanDelete, IsCleaned, reconcile-IsCleaned}
use telemetry.Operator.Controller.Watch.{requests, references_secret, refers, names_secret}
use telemetry.Operator.Controller.Watch.Unrelated.{IsCovered, requests-IsCovered}

abbrev same_status : ConditionStatus → ConditionStatus → Bool
same_status condition_true condition_true = true
same_status condition_true condition_false = false
same_status condition_true condition_unknown = false
same_status condition_false condition_true = false
same_status condition_false condition_false = true
same_status condition_false condition_unknown = false
same_status condition_unknown condition_true = false
same_status condition_unknown condition_false = false
same_status condition_unknown condition_unknown = true

same_status_refl : (s : ConditionStatus) → same_status s s ≡ true
same_status_refl condition_true = refl
same_status_refl condition_false = refl
same_status_refl condition_unknown = refl

abbrev same_condition : Condition → Condition → Bool
same_condition c d =
    same_status c.status d.status
    && (text_eq c.reason d.reason
        && (text_eq c.message d.message && c.observed_generation == d.observed_generation))

abbrev put_first : Condition → List Condition × Bool → List Condition × Bool
put_first c (cs, b) = (c ∷ cs, b)

unfoldable set_condition : List Condition → Condition → List Condition × Bool
set_condition [] c = (c ∷ [], true)
set_condition (d ∷ cs) c =
    if text_eq d.type c.type
    then (c ∷ cs, not (same_condition d c))
    else put_first d (set_condition cs c)

same_condition_refl : (c : Condition) → same_condition c c ≡ true
same_condition_refl c = ground (
  arith,
  same_status_refl c.status,
  text_eq_refl c.reason,
  text_eq_refl c.message,
  ==_iff c.observed_generation c.observed_generation,
)

put_first-0 : (c : Condition) (p : List Condition × Bool) → (put_first c p).0 ≡ c ∷ p.0
put_first-0 c (cs, b) = refl

set_condition-written :
    (cs : List Condition) (c : Condition) → find_condition c.type (set_condition cs c).0 ≡ some c
unfolding set_condition find_condition
set_condition-written [] c = rw (text_eq_refl c.type) refl
set_condition-written (d ∷ cs) c = elim (Bool-cases (text_eq d.type c.type)) [
  | inl e ↦ rw (e, text_eq_refl c.type) refl
  | inr e ↦ ground (arith, set_condition-written cs c)
]

set_condition-again :
    (cs : List Condition) (c : Condition)
    → set_condition (set_condition cs c).0 c ≡ ((set_condition cs c).0, false)
unfolding set_condition
set_condition-again [] c = rw (text_eq_refl c.type, same_condition_refl c) refl
set_condition-again (d ∷ cs) c = elim (Bool-cases (text_eq d.type c.type)) [
  | inl e ↦ rw (e, text_eq_refl c.type, same_condition_refl c) refl
  | inr e ↦ rw (e, put_first-0 d (set_condition cs c), e, set_condition-again cs c) refl
]

set_condition-IsSetCondition : IsSetCondition set_condition
set_condition-IsSetCondition = record {
  written = set_condition-written;
  again = set_condition-again;
}

abbrev filter_text : LabelFilter → Text
filter_text f = f.label ++ (lit "=" ++ f.value)

abbrev libraries : Libraries
libraries = record {
  parse = λ query. metric_expr (
      (record { label = lit "job"; value = query; is_negative = false; is_regexp = false } ∷ [])
      ∷ []);
  append_string = λ filterss. flat_map (flat_map filter_text) filterss;
  set_condition = set_condition;
  itoa = λ n. n ∷ [];
  marshal = λ config. some (flat_map (λ (entry : Text × SourceConfig). entry.0) config.sources);
  plan = λ p.
      if p.deleting
      then (if contains p.finalizers export_policy_controller_finalizer
          then call_then (record p { finalizers = [] })
          else keep)
      else (if contains p.finalizers export_policy_controller_finalizer
          then keep
          else register
              (record p { finalizers = p.finalizers ++ export_policy_controller_finalizer ∷ [] }));
  updated = λ p. if p.deleting then none else some p;
  create_or_update = λ name first f secrets other.
      if text_eq other name
      then some (elim (secrets name) [ none ↦ f first | some s ↦ f s ])
      else secrets other;
  delete = λ name secrets other. if text_eq other name then none else secrets other;
}

create_or_update_lem :
    (name : Text) (first : Secret) (f : Secret → Secret) (secrets : Secrets)
    → (s : Secret) × (libraries.create_or_update name first f secrets name ≡ some (f s))
create_or_update_lem name first f secrets = elim (Option-cases (secrets name)) [
  | inl e ↦ (first, ground (arith, text_eq_refl name))
  | inr (s, e) ↦ (s, ground (arith, text_eq_refl name))
]

libraries-IsLibraries : IsLibraries libraries
libraries-IsLibraries = record {
  set_condition = set_condition-IsSetCondition;
  plan = λ p h. if_false p.deleting _ _ h;
  updated = λ p h. if_false p.deleting _ _ h;
  create_or_update = create_or_update_lem;
}

libraries-CanDelete : CanDelete libraries
libraries-CanDelete = record {
  plan = λ p h. ([], if_true p.deleting _ _ h);
  delete = λ name secrets. if_true (text_eq name name) _ _ (text_eq_refl name);
  delete_others = λ name other secrets h. ground (arith, text_eq_iff other name);
}

abbrev remote : RemoteWrite
remote = record { endpoint = lit "https://x"; authentication = some (some (lit "login")) }

abbrev policy : ExportPolicy
policy = record {
  name = lit "nodes";
  namespace = lit "default";
  uid = lit "u1";
  generation = 1;
  deleting = false;
  finalizers = [];
  sources = record { name = lit "up"; metrics = some (lit "kubelet") } ∷ [];
  sinks = record { name = lit "out"; sources = lit "up" ∷ []; target = some (some remote) } ∷ [];
  conditions = [];
  sink_statuses = [];
}

abbrev login : Secret
login = record {
  type = lit "kubernetes.io/basic-auth";
  labels = [];
  contents = (lit "username", lit "me") ∷ (lit "password", lit "pw") ∷ [];
}

-- The secret is there for one client and not for the other.
abbrev client : Client
client namespace name = if text_eq name (lit "login") then found login else not_found

abbrev no_client : Client
no_client namespace name = not_found

abbrev service : MetricsService
service = record { endpoint = lit "https://m"; username = lit "u"; password = lit "p" }

abbrev reconciler : ExportPolicyReconciler
reconciler = record {
  metrics_service = service;
  vector_config_label_key = lit "vector";
  vector_config_label_value = lit "true";
}

-- The name of a cluster, and the project in it.
abbrev cluster : Text
cluster = lit "/p1"

abbrev project : Text
project = lit "p1"

abbrev source_id : Text
source_id = get_vector_component_id policy project (lit "up") vector_source

abbrev vector_config : VectorConfig
vector_config = record {
  sources =
      (
        source_id,
        source_config libraries.parse libraries.append_string service project (
            (record {
              label = lit "job";
              value = lit "kubelet";
              is_negative = false;
              is_regexp = false;
            }
              ∷ [])
            ∷ []),
      )
      ∷ [];
  sinks =
      (
        get_vector_component_id policy project (lit "out") vector_sink,
        record {
          inputs = source_id ∷ [];
          type = lit "prometheus_remote_write";
          endpoint = lit "https://x";
          auth = some (record { strategy = lit "basic"; user = lit "me"; password = lit "pw" });
        },
      )
      ∷ [];
}

create_vector_configuration-policy :
    create_vector_configuration libraries.parse libraries.append_string service client project
      policy
    ≡ some vector_config
unfolding create_vector_configuration add_sources add_query add_sinks get_sink_vector_config
    sink_target_config get_prometheus_remote_write secret_config retrieve_basic_auth_secret checked
    insert lookup text_eq lit
create_vector_configuration-policy = refl

create_vector_configuration-IsScoped_example :
    All
      (λ (entry : Text × SourceConfig).
        IsScoped text_eq libraries.parse libraries.append_string service project entry.1)
      vector_config.sources
create_vector_configuration-IsScoped_example =
    create_vector_configuration-IsScoped text_eq libraries.parse libraries.append_string service
      client project policy vector_config create_vector_configuration-policy

abbrev accepted : List SinkStatus
accepted = record { name = lit "out"; conditions = accepted_condition ∷ [] } ∷ []

abbrev ready : ExportPolicy
ready = record policy {
  conditions = ready_condition set_condition libraries.itoa policy accepted ∷ [];
  sink_statuses = accepted;
}

reconcile_export_policy_status-policy :
    reconcile_export_policy_status set_condition libraries.itoa client policy ≡ some (ready, true)
unfolding reconcile_export_policy_status reconcile_sinks reconcile_sink judge
    retrieve_basic_auth_secret checked get_sink_status set_condition lookup text_eq lit
    update_export_policy_conditions ready_condition accepted_count accepted_in
reconcile_export_policy_status-policy = refl

reconcile_export_policy_status-again_example :
    reconcile_export_policy_status set_condition libraries.itoa client ready ≡ some (ready, false)
unfolding contains
reconcile_export_policy_status-again_example =
    reconcile_export_policy_status-again set_condition libraries.itoa client
      set_condition-IsSetCondition policy ready true (refl, tt)
      reconcile_export_policy_status-policy

reconcile_export_policy_status-Agree_example : Agree client project policy policy.sinks accepted
reconcile_export_policy_status-Agree_example =
    reconcile_export_policy_status-Agree set_condition libraries.itoa client
      set_condition-IsSetCondition project policy ready true reconcile_export_policy_status-policy

policy-Prints : Prints libraries reconciler client cluster policy (source_id ++ [])
unfolding project_name lit
policy-Prints = (vector_config, create_vector_configuration-policy, refl)

policy-IsTargeted : IsTargeted policy
policy-IsTargeted = ((λ e. cc), tt)

-- A round fails to write the policy and, if there is nothing to write, to reach the downstream
-- cluster.
abbrev failing : Failures
failing = record (calm client) { update = true; downstream = true }

-- A round whose reads of secrets all fail.
abbrev unread : Failures
unread = calm no_client

rounds-IsDelivered_example :
    (fs : List Text) × (cs : List Condition) × (ss : List SinkStatus) × (final : Secrets) × (rounds
        libraries reconciler cluster
        (failing ∷ unread ∷ calm client ∷ calm client ∷ failing ∷ [])
        (world_of policy (λ name. none))
      ≡ some (world_of (version policy fs cs ss) final))
    × IsDelivered libraries reconciler policy (source_id ++ []) final
unfolding contains
rounds-IsDelivered_example =
    rounds-IsDelivered libraries reconciler cluster client libraries-IsLibraries policy
      (source_id ++ []) refl policy-IsTargeted policy-Prints (refl, tt) (failing ∷ unread ∷ [])
      (failing ∷ []) (λ name. none) (refl, tt)

abbrev deleted_policy : ExportPolicy
deleted_policy = record policy {
  deleting = true;
  finalizers = export_policy_controller_finalizer ∷ [];
}

abbrev kept_secrets : Secrets
kept_secrets name = some login

reconcile-IsCleaned_example :
    (world : World) × (result : Result) × (reconcile libraries reconciler cluster
        (calm client)
        (world_of deleted_policy kept_secrets)
      ≡ some (world, result))
    × IsCleaned libraries reconciler libraries-CanDelete cluster deleted_policy refl kept_secrets
        world
reconcile-IsCleaned_example =
    reconcile-IsCleaned libraries reconciler libraries-CanDelete cluster deleted_policy refl
      kept_secrets (calm client)

same_but_login :
    (name : Text)
    → name ≢ lit "login"
    → client policy.namespace name ≡ no_client policy.namespace name
same_but_login name h =
    if_false (text_eq name (lit "login")) _ _ (ground (arith, text_eq_iff name (lit "login")))

abbrev open_policy : ExportPolicy
open_policy = record policy { name = lit "open"; sinks = [] }

requests-login :
    requests (policy ∷ open_policy ∷ []) (lit "login") ≡ (lit "nodes", lit "default") ∷ []
unfolding requests references_secret refers names_secret text_eq lit
requests-login = refl

requests-IsCovered_example :
    All
      (IsCovered
        (lit "login")
        policy.namespace
        client
        no_client
        same_but_login
        set_condition
        libraries.itoa
        libraries.parse
        libraries.append_string
        service
        project
        (requests (policy ∷ open_policy ∷ []) (lit "login")))
      (policy ∷ open_policy ∷ [])
requests-IsCovered_example =
    requests-IsCovered (lit "login") policy.namespace client no_client same_but_login set_condition
      libraries.itoa libraries.parse libraries.append_string service project
      (policy ∷ open_policy ∷ []) (refl, (refl, tt))
