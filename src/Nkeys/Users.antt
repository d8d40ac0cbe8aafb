-- ===== src/Nkeys/Users.antt =====
-- Cluster names, the user blocks, and the cluster that a block names.
use telemetry.Base.{
  ℕ, Bool, true, false, ◌&&◌, ◌||◌, Option, none, some, List, [], ◌∷◌, ◌++◌, length, leb, ◌==◌,
}
use telemetry.Base.Text.{Text, lit, cut_prefix, cut_suffix}

abbrev pub is_lower_alnum : ℕ → Bool
is_lower_alnum c = leb b'a' c && leb c b'z' || leb b'0' c && leb c b'9'

abbrev pub is_name_char : ℕ → Bool
is_name_char c = is_lower_alnum c || c == b'-'

-- `[-a-z0-9]*[a-z0-9]$`, or nothing.
unfoldable pub name_tail : Text → Bool
name_tail [] = true
name_tail (c ∷ []) = is_lower_alnum c
name_tail (c ∷ d ∷ r) = is_name_char c && name_tail (d ∷ r)

-- `^[a-z0-9]([-a-z0-9]{0,61}[a-z0-9])?$`
unfoldable pub valid_cluster_name : Text → Bool
unfolding name_tail
valid_cluster_name [] = false
valid_cluster_name (c ∷ r) = is_lower_alnum c && (name_tail r && leb (length r) 62)

-- A user block: its identity under "nkey" or "user", and the subjects that it may use. An entry of an
-- allow list that is no string is none; so is a list that is not there.
pub record User : Type 0 where
  pub nkey : Option Text
  pub user : Option Text
  pub publish : Option (List (Option Text))
  pub subscribe : Option (List (Option Text))

unfoldable pub to_any : List Text → List (Option Text)
to_any [] = []
to_any (s ∷ ss) = some s ∷ to_any ss

abbrev pub certificate_user : Text → List Text → List Text → User
certificate_user name publish subscribe = record {
  nkey = none;
  user = some name;
  publish = some (to_any publish);
  subscribe = some (to_any subscribe);
}

abbrev pub static_users : List User
static_users =
    certificate_user (lit "CN=nack.nats.client") (lit ">" ∷ []) (lit ">" ∷ [])
    ∷ certificate_user (lit "CN=o11y-sink-nats-client") (lit "$JS.API.>" ∷ lit "$JS.ACK.>" ∷ [])
        (lit "o11y.>" ∷ lit "_INBOX.>" ∷ [])
    ∷ []

abbrev pub leaf_subject : Text → Text → Text
leaf_subject stem cluster = stem ++ (cluster ++ lit ".*")

unfoldable pub nkey_user : Text → Text → User
unfolding to_any
nkey_user cluster public_key = record {
  nkey = some public_key;
  user = none;
  publish = some (
      to_any (
        leaf_subject (lit "o11y.logs.") cluster
        ∷ leaf_subject (lit "o11y.metrics.") cluster
        ∷ leaf_subject (lit "o11y.traces.") cluster
        ∷ []));
  subscribe = some (to_any (lit "_INBOX.>" ∷ []));
}

-- The cluster in a subject `o11y.logs.<cluster>.*`.
unfoldable pub cluster_of_subject : Text → Option Text
cluster_of_subject subj = elim (cut_prefix subj (lit "o11y.logs.")) [
  | none ↦ none
  | some rest ↦ cut_suffix rest (lit ".*")
]

unfoldable pub cluster_of_allow : List (Option Text) → Text → Text
cluster_of_allow [] fallback = fallback
cluster_of_allow (none ∷ allow) fallback = cluster_of_allow allow fallback
cluster_of_allow (some subj ∷ allow) fallback =
    let rest = cluster_of_allow allow fallback in
    elim (cluster_of_subject subj) [ some cluster ↦ cluster | none ↦ rest ]

unfoldable pub cluster_from_user : User → Text → Text
unfolding cluster_of_allow cluster_of_subject
cluster_from_user u fallback = elim u.publish [
  | none ↦ fallback
  | some allow ↦ cluster_of_allow allow fallback
]
