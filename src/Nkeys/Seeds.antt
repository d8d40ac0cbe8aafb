-- ===== src/Nkeys/Seeds.antt =====
-- ensureKey never replaces a stored seed: what every part of a run does to the secrets there are.
use telemetry.Base.{
  ◌≡◌, inl, inr, Bool, true, false, Option, none, some, List, [], ◌∷◌, ◌++◌, arith, Option-cases,
  if◌then◌else◌,
}
use telemetry.Base.Text.{Text, text_eq_iff}
use telemetry.Base.Assoc.{lookup, lookup-insert, contains}
use telemetry.Nkeys.Users.{User, valid_cluster_name, static_users, nkey_user}
use telemetry.Nkeys.Api.{
  Secret, Hub, KeyPair, Surroundings, Result, ok, err, Exec, pure, throw, ◌>>=◌, add_new, add_all,
  api, create_secret, get_secret, get_push_secret, put_push_secret, get_config_map, put_config_map,
  continue, turn, answer, no_public_key,
}
use telemetry.Nkeys.Generator.{
  Config, Yaml, ensure_push_secret, stored_key, new_key, key_by, ensure_key, provision, secret_name,
  dropped_by, dropped_from, dropped_nkeys, nkeys_of, previous_users, publish_users,
  refuse_or_publish, write_config_map, write_nonempty, sync,
}

lookup-add_new :
    {V : Type 0}
    → (n k : Text) (v x : V) (m : List (Text × V)) → lookup n m ≡ some x
    → lookup n (add_new k v m) ≡ some x
unfolding add_new
lookup-add_new n k v x m h = ground (arith, lookup-insert k n v m, text_eq_iff k n)

pub lookup-add_all :
    (n : Text) (x : Secret) (new m : List (Text × Secret))
    → lookup n m ≡ some x
    → lookup n (add_all new m) ≡ some x
unfolding add_all
lookup-add_all n x [] m h = h
lookup-add_all n x ((k, v) ∷ more) m h =
    lookup-add_all n x more (add_new k v m) (lookup-add_new n k v x m h)

-- Every secret of the first hub is in the second one, as it was.
abbrev pub HasKept : Hub → Hub → Type 0
HasKept s s' = (n : Text) (x : Secret) → lookup n s.secrets ≡ some x → lookup n s'.secrets ≡ some x

abbrev pub Keeps : {A : Type 0} → Exec A → Type 0
Keeps m = (s : Hub) → HasKept s (m s).1

continue-Keeps :
    {A B : Type 0}
    → (r : Result A) (f : A → Exec B) (s : Hub) → ((a : A) → HasKept s (f a s).1)
    → HasKept s (continue r f s).1
continue-Keeps (ok a) f s k = k a
continue-Keeps (err e) f s k = λ n x h. h

pub bind-Keeps :
    {A B : Type 0}
    → (m : Exec A) (f : A → Exec B) → Keeps m
    → ((a : A) → Keeps (f a))
    → Keeps (m >>= f)
unfolding ◌>>=◌
bind-Keeps m f km kf s n x h = continue-Keeps (m s).0 f (m s).1 (λ a. kf a (m s).1) n x (km s n x h)

if-Keeps :
    {A : Type 0} → (b : Bool) (m m' : Exec A) → Keeps m → Keeps m' → Keeps (if b then m else m')
if-Keeps true m m' k k' s n x h = k s n x h
if-Keeps false m m' k k' s n x h = k' s n x h

module _ (w : Surroundings) where
  pub turn-Keeps : (s : Hub) → HasKept s (turn w s)
  turn-Keeps s n x h = lookup-add_all n x (w.arrives s.calls) s.secrets h

  answer-Keeps : {A : Type 0} → (o : Option Text) (f : Exec A) → Keeps f → Keeps (answer w o f)
  answer-Keeps none f k s n x h = k s n x h
  answer-Keeps (some e) f k s n x h = h

  api-Keeps : {A : Type 0} → (f : Exec A) → Keeps f → Keeps (api w f)
  unfolding api
  api-Keeps f k s n x h = answer-Keeps (w.fails s.calls) f k (turn w s) n x (turn-Keeps s n x h)

  create_secret-Keeps : (name : Text) (secret : Secret) → Keeps (create_secret w name secret)
  unfolding create_secret
  create_secret-Keeps name secret =
      api-Keeps (λ s. (ok tt, record s { secrets = add_new name secret s.secrets }))
        λ s n x h. lookup-add_new n name secret x s.secrets h

  module _ (cfg : Config) where
    pub ensure_push_secret-Keeps : (name : Text) → Keeps (ensure_push_secret cfg w name)
    unfolding ensure_push_secret get_push_secret put_push_secret
    ensure_push_secret-Keeps name =
        bind-Keeps (get_push_secret w name) (λ e. put_push_secret w name _)
          (api-Keeps _ λ s n x h. h) (λ e. api-Keeps _ λ s n x h. h)

    stored_key-Keeps : (name : Text) (secret : Secret) → Keeps (stored_key cfg w name secret)
    unfolding stored_key
    stored_key-Keeps name secret =
        if-Keeps _ (throw (no_public_key name)) _ (λ s n x h. h)
          (bind-Keeps (ensure_push_secret cfg w name) _ (ensure_push_secret-Keeps name)
            λ _ s n x h. h)

    new_key-Keeps :
        (cluster name : Text) (o : Option KeyPair) → Keeps (new_key cfg w cluster name o)
    unfolding new_key
    new_key-Keeps cluster name none = λ s n x h. h
    new_key-Keeps cluster name (some kp) =
        bind-Keeps (create_secret w name _) _ (create_secret-Keeps name _) λ _.
          bind-Keeps (ensure_push_secret cfg w name) _ (ensure_push_secret-Keeps name)
            λ _ s n x h. h

    key_by-Keeps : (cluster : Text) (o : Option Secret) → Keeps (key_by cfg w cluster o)
    unfolding key_by
    key_by-Keeps cluster (some secret) s = stored_key-Keeps (secret_name cfg w cluster) secret s
    key_by-Keeps cluster none s =
        new_key-Keeps cluster (secret_name cfg w cluster) (w.generate s.calls) s

    pub ensure_key-Keeps : (cluster : Text) → Keeps (ensure_key cfg w cluster)
    unfolding ensure_key get_secret
    ensure_key-Keeps cluster =
        bind-Keeps (get_secret w _) _ (api-Keeps _ λ s n x h. h) (key_by-Keeps cluster)

    provision-Keeps :
        (clusters : List Text) (users : List User) → Keeps (provision cfg w clusters users)
    unfolding provision
    provision-Keeps [] users = λ s n x h. h
    provision-Keeps (name ∷ clusters) users =
        if-Keeps (valid_cluster_name name) _ _
          (bind-Keeps (ensure_key cfg w name) _ (ensure_key-Keeps name)
            λ key. provision-Keeps clusters (users ++ nkey_user name key ∷ []))
          (provision-Keeps clusters users)

    dropped_by-Keeps :
        (have : List Text) (u : User) (o : Option Text) → Keeps (dropped_by cfg w have u o)
    unfolding dropped_by get_secret
    dropped_by-Keeps have u none = λ s n x h. h
    dropped_by-Keeps have u (some key) =
        if-Keeps (contains have key) (pure []) _ (λ s n x h. h)
          (bind-Keeps (get_secret w _) _ (api-Keeps _ λ s n x h. h) λ found s n x h. h)

    dropped_from-Keeps :
        (have : List Text) (prev : List User) → Keeps (dropped_from cfg w have prev)
    unfolding dropped_from
    dropped_from-Keeps have [] = λ s n x h. h
    dropped_from-Keeps have (u ∷ prev) =
        bind-Keeps (dropped_by cfg w have u u.nkey) _ (dropped_by-Keeps have u u.nkey) λ first.
          bind-Keeps (dropped_from cfg w have prev) _ (dropped_from-Keeps have prev)
            λ rest s n x h. h

    module _ (yaml : Yaml) where
      previous_users-Keeps : Keeps (previous_users cfg w yaml)
      unfolding previous_users get_config_map
      previous_users-Keeps = api-Keeps (λ s. (ok s.config_map, s)) λ s n x h. h

      publish_users-Keeps : (users : List User) → Keeps (publish_users cfg w yaml users)
      unfolding publish_users get_config_map put_config_map
      publish_users-Keeps users = elim (Option-cases (yaml.marshal users)) [
        | inl e ↦ rw (e, publish_users) λ s n x h. h
        | inr (raw, e) ↦
            rw (e, publish_users)
              (bind-Keeps (get_config_map w) _ (api-Keeps _ λ s n x h. h)
                λ existing. api-Keeps _ λ s n x h. h)
      ]

      refuse_or_publish-Keeps :
          (users : List User) (dropped : List Text)
          → Keeps (refuse_or_publish cfg w yaml users dropped)
      unfolding refuse_or_publish
      refuse_or_publish-Keeps users [] = publish_users-Keeps users
      refuse_or_publish-Keeps users (c ∷ cs) = λ s n x h. h

      write_config_map-Keeps : (users : List User) → Keeps (write_config_map cfg w yaml users)
      unfolding write_config_map dropped_nkeys
      write_config_map-Keeps users =
          bind-Keeps (previous_users cfg w yaml) _ previous_users-Keeps λ prev.
            bind-Keeps (dropped_nkeys cfg w prev users) _
              (dropped_from-Keeps (nkeys_of cfg w users) prev) (refuse_or_publish-Keeps users)

      write_nonempty-Keeps : (users : List User) → Keeps (write_nonempty cfg w yaml users)
      unfolding write_nonempty
      write_nonempty-Keeps [] = λ s n x h. h
      write_nonempty-Keeps (u ∷ users) = write_config_map-Keeps (u ∷ users)

      -- A run keeps every stored secret as it is, whatever fails in it and whatever others create.
      pub sync-Keeps : Keeps (sync cfg w yaml)
      unfolding sync
      sync-Keeps = elim (Option-cases w.clusters) [
        | inl e ↦ rw (e, sync) λ s n x h. h
        | inr (clusters, e) ↦
            rw (e, sync)
              (bind-Keeps (provision cfg w clusters static_users) _
                (provision-Keeps clusters static_users) write_nonempty-Keeps)
      ]
