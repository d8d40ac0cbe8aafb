-- ===== src/Operator/Controller.antt =====
-- operator/internal/controller: the objects that the controller reads and writes, and the
-- credentials of a sink. The Kubernetes clients are parameters.
pub mod Status
pub mod Vector
pub mod Agreement
pub mod Reconcile
pub mod Watch
use telemetry.Base.{
  ℕ, ◌⊎◌, inl, inr, Bool, true, false, not, Option, none, some, List, [], ◌∷◌, ◌++◌, if◌then◌else◌,
}
use telemetry.Base.Text.{Text, lit, text_eq}
use telemetry.Base.Assoc.{lookup}
use telemetry.Operator.Policies.{Source}

-- metav1.ConditionStatus.
pub data ConditionStatus : Type 0 where
  condition_true condition_false condition_unknown : ConditionStatus

-- A condition without the time of its last transition, which the controller never reads.
pub record Condition : Type 0 where
  pub type : Text
  pub status : ConditionStatus
  pub reason : Text
  pub message : Text
  pub observed_generation : ℕ

pub record SinkStatus : Type 0 where
  pub name : Text
  pub conditions : List Condition

-- A remote write sink; its authentication, and in that the name of the secret of a basic one.
pub record RemoteWrite : Type 0 where
  pub endpoint : Text
  pub authentication : Option (Option Text)

-- A sink, with its target and the prometheusRemoteWrite of that.
pub record Sink : Type 0 where
  pub name : Text
  pub sources : List Text
  pub target : Option (Option RemoteWrite)

pub record ExportPolicy : Type 0 where
  pub name : Text
  pub namespace : Text
  pub uid : Text
  pub generation : ℕ
  pub deleting : Bool
  pub finalizers : List Text
  pub sources : List Source
  pub sinks : List Sink
  pub conditions : List Condition
  pub sink_statuses : List SinkStatus

pub record Secret : Type 0 where
  pub type : Text
  pub labels : List (Text × Text)
  pub contents : List (Text × Text)

-- What a Get answers.
pub data Answer (A : Type 0) : Type 0 where
  found : A → Answer A
  not_found : Answer A
  failed : Answer A

abbrev quoted : Text → Text → Text
quoted name rest = lit "secret '" ++ (name ++ (lit "' " ++ rest))

abbrev has : Text → List (Text × Text) → Bool
has k m = elim (lookup k m) [ none ↦ false | some _ ↦ true ]

unfoldable pub checked : Text → Answer Secret → Secret ⊎ Text
unfolding lookup
checked name not_found = inr (quoted name (lit "not found"))
checked name failed = inr (lit "internal error when retrieving secret")
checked name (found secret) =
    if not (text_eq secret.type (lit "kubernetes.io/basic-auth"))
    then inr (quoted name (lit "is not of type kubernetes.io/basic-auth"))
    else if not (has (lit "username") secret.contents)
    then inr (quoted name (lit "does not contain a username"))
    else if not (has (lit "password") secret.contents)
    then inr (quoted name (lit "does not contain a password"))
    else inl secret

-- The client of the policy's cluster: what it answers for a namespace and a name.
abbrev pub Client : Type 0
Client = Text → Text → Answer Secret

unfoldable pub retrieve_basic_auth_secret : Client → Text → ExportPolicy → Secret ⊎ Text
unfolding checked
retrieve_basic_auth_secret client ref policy = checked ref (client policy.namespace ref)
