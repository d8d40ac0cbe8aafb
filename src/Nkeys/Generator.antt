-- ===== src/Nkeys/Generator.antt =====
-- The methods of the generator.
use telemetry.Base.{Bool, Option, none, some, List, [], ◌∷◌, ◌++◌, if◌then◌else◌}
use telemetry.Base.Text.{Text, lit, text_eq}
use telemetry.Base.Assoc.{contains}
use telemetry.Nkeys.Users.{User, valid_cluster_name, static_users, nkey_user, cluster_from_user}
use telemetry.Nkeys.Api.{
  Secret, PushSecret, ConfigMap, KeyPair, Surroundings, list_failed, marshal_failed, empty_users,
  generate_failed, no_public_key, would_drop, Result, ok, err, Exec, pure, throw, ◌>>=◌, get_secret,
  create_secret, get_push_secret, put_push_secret, get_config_map, put_config_map,
}

pub record Config : Type 0 where
  pub secret_prefix : Text
  pub secret_store_name : Text
  pub secret_store_kind : Text

-- sigs.k8s.io/yaml, over the document's list of users: none for an error.
pub record Yaml : Type 0 where
  pub marshal : List User → Option Text
  pub unmarshal : Text → Option (List User)

abbrev pub is_empty : Text → Bool
is_empty s = text_eq s []

module _ (cfg : Config) (w : Surroundings) where
  abbrev pub secret_name : Text → Text
  secret_name cluster = cfg.secret_prefix ++ (lit "-" ++ cluster)

  abbrev pub push_secret : Text → PushSecret
  push_secret name = record {
    store_name = cfg.secret_store_name;
    store_kind = cfg.secret_store_kind;
    secret = name;
    remote_key = name;
  }

  -- Update and Create write the same object; the branches differ in its resource version only.
  unfoldable pub ensure_push_secret : Text → Exec Unit
  ensure_push_secret name = do
    existing ← get_push_secret w name
    put_push_secret w name (push_secret name)

  abbrev pub public_of : Secret → Text
  public_of secret = if is_empty secret.public then secret.nkey else secret.public

  unfoldable pub stored_key : Text → Secret → Exec Text
  unfolding ensure_push_secret
  stored_key name secret =
      if is_empty (public_of secret)
      then throw (no_public_key name)
      else ensure_push_secret name >>= λ _. pure (public_of secret)

  unfoldable pub new_key : Text → Text → Option KeyPair → Exec Text
  unfolding ensure_push_secret
  new_key cluster name none = throw (generate_failed cluster)
  new_key cluster name (some kp) =
      create_secret w name (record { seed = kp.seed; public = kp.public; nkey = kp.public })
      >>= λ _. ensure_push_secret name >>= λ _. pure kp.public

  unfoldable pub key_by : Text → Option Secret → Exec Text
  unfolding stored_key new_key
  key_by cluster (some secret) s = stored_key (secret_name cluster) secret s
  key_by cluster none s = new_key cluster (secret_name cluster) (w.generate s.calls) s

  unfoldable pub ensure_key : Text → Exec Text
  unfolding key_by
  ensure_key cluster = get_secret w (secret_name cluster) >>= key_by cluster

  -- The loop of sync: a cluster with an invalid name is skipped, an error ends the run.
  unfoldable pub provision : List Text → List User → Exec (List User)
  unfolding ensure_key
  provision [] users = pure users
  provision (name ∷ clusters) users =
      let skip = provision clusters users in
      let add = ensure_key name >>= λ key. provision clusters (users ++ nkey_user name key ∷ []) in
      if valid_cluster_name name then add else skip

  unfoldable pub nkeys_of : List User → List Text
  nkeys_of [] = []
  nkeys_of (u ∷ users) =
      let rest = nkeys_of users in elim u.nkey [ some key ↦ key ∷ rest | none ↦ rest ]

  module _ (have : List Text) where
    -- What one user of the old list, with its key if it has one, adds to the dropped clusters.
    unfoldable pub dropped_by : User → Option Text → Exec (List Text)
    dropped_by u none = pure []
    dropped_by u (some key) =
        if contains have key
        then pure []
        else get_secret w (secret_name (cluster_from_user u key)) >>= λ found.
            pure (elim found [ some _ ↦ cluster_from_user u key ∷ [] | none ↦ [] ])

    unfoldable pub dropped_from : List User → Exec (List Text)
    unfolding dropped_by
    dropped_from [] = pure []
    dropped_from (u ∷ prev) =
        dropped_by u u.nkey >>= λ first. dropped_from prev >>= λ rest. pure (first ++ rest)

  unfoldable pub dropped_nkeys : List User → List User → Exec (List Text)
  unfolding dropped_from nkeys_of
  dropped_nkeys prev next = dropped_from (nkeys_of next) prev

  module _ (yaml : Yaml) where
    abbrev pub users_in : Option ConfigMap → List User
    users_in none = []
    users_in (some cm) = elim cm.values [
      | none ↦ []
      | some raw ↦ elim (yaml.unmarshal raw) [ none ↦ [] | some users ↦ users ]
    ]

    abbrev pub users_of_get : Result (Option ConfigMap) → List User
    users_of_get (err e) = []
    users_of_get (ok found) = users_in found

    -- Every error of the call is read as an empty list.
    unfoldable pub previous_users : Exec (List User)
    previous_users s = let (r, s') = get_config_map w s in (ok (users_of_get r), s')

    unfoldable pub publish_users : List User → Exec Unit
    publish_users users = elim (yaml.marshal users) [
      | none ↦ throw marshal_failed
      | some raw ↦ get_config_map w >>= λ existing. put_config_map w (record { values = some raw })
    ]

    unfoldable pub refuse_or_publish : List User → List Text → Exec Unit
    unfolding publish_users
    refuse_or_publish users [] = publish_users users
    refuse_or_publish users (c ∷ cs) = throw (would_drop (c ∷ cs))

    unfoldable pub write_config_map : List User → Exec Unit
    unfolding refuse_or_publish dropped_nkeys previous_users
    write_config_map users =
        previous_users >>= λ prev. dropped_nkeys prev users >>= refuse_or_publish users

    unfoldable pub write_nonempty : List User → Exec Unit
    unfolding write_config_map
    write_nonempty [] = throw empty_users
    write_nonempty (u ∷ users) = write_config_map (u ∷ users)

    unfoldable pub sync : Exec Unit
    unfolding provision write_nonempty
    sync = elim w.clusters [
      | none ↦ throw list_failed
      | some clusters ↦ provision clusters static_users >>= write_nonempty
    ]
