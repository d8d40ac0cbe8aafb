-- ===== src/Nkeys/Backing.antt =====
-- ensureKey and the loop of sync: the keys that they return are those of stored secrets.
use telemetry.Base.{
  ℕ, ◌≡◌, refl, ◌∙◌, Option, none, some, inl, inr, List, [], ◌∷◌, ◌++◌, All, All-append, arith,
  Bool-cases,
}
use telemetry.Base.Text.{Text, text_eq_iff}
use telemetry.Base.Assoc.{lookup, lookup-insert}
use telemetry.Nkeys.Users.{User, valid_cluster_name, nkey_user}
use telemetry.Nkeys.Api.{
  Secret, Hub, KeyPair, Surroundings, Result, ok, err, Exec, add_new, add_all, api, turn,
  create_secret, get_secret,
}
use telemetry.Nkeys.Generator.{
  Config, secret_name, public_of, is_empty, ensure_push_secret, stored_key, new_key, key_by,
  ensure_key, provision, nkeys_of,
}
use telemetry.Nkeys.Seeds.{HasKept, Keeps, ensure_push_secret-Keeps, ensure_key-Keeps}
use telemetry.Nkeys.Endings.{Ends, bind-Ends, answer-Ends}

lookup-foreign :
    (n : Text) (new m : List (Text × Secret))
    → lookup n new ≡ none
    → lookup n (add_all new m) ≡ lookup n m
unfolding add_all add_new lookup
lookup-foreign n [] m h = refl
lookup-foreign n ((k, v) ∷ more) m h =
    ground (arith, lookup-foreign n more (add_new k v m), lookup-insert k n v m, text_eq_iff k n)

lookup-created :
    (n : Text) (v : Secret) (m : List (Text × Secret))
    → lookup n m ≡ none
    → lookup n (add_new n v m) ≡ some v
unfolding add_new
lookup-created n v m h = ground (arith, lookup-insert n n v m, text_eq_iff n n)

-- The secret is stored under the name.
abbrev IsStored : Text → Secret → Hub → Type 0
IsStored name secret s = lookup name s.secrets ≡ some secret

abbrev Fine : Hub → Type 0
Fine s = Unit

ended :
    {A : Type 0}
    → (r : Result A) (s : Hub) (P : Hub → Type 0) → P s
    → Ends (r, s) (λ _ s'. P s') Fine
ended (ok a) s P h = h
ended (err e) s P h = tt

Keeps-IsStored :
    {A : Type 0}
    → (m : Exec A) (s : Hub) (name : Text) (secret : Secret) → Keeps m
    → IsStored name secret s
    → Ends (m s) (λ _ s'. IsStored name secret s') Fine
Keeps-IsStored m s name secret k h =
    ended (m s).0 (m s).1 (IsStored name secret) (k s name secret h)

kept-Ends :
    {A : Type 0}
    → (r : Result A × Hub) (s : Hub) (Q : A → Hub → Type 0) (E : Hub → Type 0) → HasKept s r.1
    → Ends r Q E
    → Ends r (λ a s'. HasKept s s' × Q a s') E
kept-Ends (ok a, s') s Q E k h = (k, h)
kept-Ends (err e, s') s Q E k h = h

nkey-nkey_user : (cluster key : Text) → (nkey_user cluster key).nkey ≡ some key
unfolding nkey_user
nkey-nkey_user cluster key = refl

module _ (w : Surroundings) where
  -- No one else creates a secret of this name.
  abbrev pub IsOurs : Text → Type 0
  IsOurs name = (n : ℕ) → lookup name (w.arrives n) ≡ none

  get_secret-IsStored :
      (name : Text) (s : Hub)
      → Ends (get_secret w name s) (λ found s'. lookup name s'.secrets ≡ found) Fine
  unfolding get_secret api
  get_secret-IsStored name s =
      answer-Ends w (w.fails s.calls) (λ s. (ok (lookup name s.secrets), s)) (turn w s) _ _ refl tt

  create_secret-IsStored :
      (name : Text) (secret : Secret) (s : Hub)
      → IsOurs name
      → lookup name s.secrets ≡ none
      → Ends (create_secret w name secret s) (λ _ s'. IsStored name secret s') Fine
  unfolding create_secret api
  create_secret-IsStored name secret s ours h =
      answer-Ends w (w.fails s.calls)
        (λ s. (ok tt, record s { secrets = add_new name secret s.secrets })) (turn w s) _ _
        (lookup-created name secret _ (lookup-foreign name _ s.secrets (ours s.calls) ∙ h)) tt

  module _ (cfg : Config) where
    -- What ensureKey's answer stands for.
    abbrev pub IsKeyOf : Text → Text → Hub → Type 0
    IsKeyOf cluster key s =
        (secret : Secret) × (lookup (secret_name cfg w cluster) s.secrets ≡ some secret)
        × (public_of cfg w secret ≡ key)

    stored_key-IsKeyOf :
        (cluster : Text) (secret : Secret) (s : Hub)
        → IsStored (secret_name cfg w cluster) secret s
        → Ends (stored_key cfg w (secret_name cfg w cluster) secret s) (IsKeyOf cluster) Fine
    unfolding stored_key
    stored_key-IsKeyOf cluster secret s h =
        let name = secret_name cfg w cluster in
        elim (Bool-cases (is_empty (public_of cfg w secret))) [
          | inl e ↦ rw (e, stored_key) tt
          | inr e ↦
              rw (e, stored_key)
                (bind-Ends (ensure_push_secret cfg w name) _ s _ _ _
                  (Keeps-IsStored (ensure_push_secret cfg w name) s name secret
                    (ensure_push_secret-Keeps w cfg name) h)
                  λ _ s' h'. (secret, h', refl))
        ]

    public_of-new :
        (seed key : Text) → public_of cfg w (record { seed = seed; public = key; nkey = key }) ≡ key
    public_of-new seed key = ground arith

    new_key-IsKeyOf :
        (cluster : Text) (o : Option KeyPair) (s : Hub)
        → IsOurs (secret_name cfg w cluster)
        → lookup (secret_name cfg w cluster) s.secrets ≡ none
        → Ends (new_key cfg w cluster (secret_name cfg w cluster) o s) (IsKeyOf cluster) Fine
    unfolding new_key
    new_key-IsKeyOf cluster none s ours h = tt
    new_key-IsKeyOf cluster (some kp) s ours h =
        let name = secret_name cfg w cluster in
        let secret : Secret = record { seed = kp.seed; public = kp.public; nkey = kp.public } in
        bind-Ends (create_secret w name secret) _ s _ _ _
          (create_secret-IsStored name secret s ours h)
          λ _ s₁ h₁.
            bind-Ends (ensure_push_secret cfg w name) _ s₁ _ _ _
              (Keeps-IsStored (ensure_push_secret cfg w name) s₁ name secret
                (ensure_push_secret-Keeps w cfg name) h₁)
              λ _ s₂ h₂. (secret, h₂, public_of-new kp.seed kp.public)

    key_by-IsKeyOf :
        (cluster : Text) (found : Option Secret) (s : Hub)
        → IsOurs (secret_name cfg w cluster)
        → lookup (secret_name cfg w cluster) s.secrets ≡ found
        → Ends (key_by cfg w cluster found s) (IsKeyOf cluster) Fine
    unfolding key_by
    key_by-IsKeyOf cluster none s ours h = new_key-IsKeyOf cluster (w.generate s.calls) s ours h
    key_by-IsKeyOf cluster (some secret) s ours h = stored_key-IsKeyOf cluster secret s h

    -- When no one else creates the cluster's secret, the key that ensureKey returns is the public key
    -- of the secret that is then stored for the cluster.
    pub ensure_key-IsKeyOf :
        (cluster : Text) (s : Hub)
        → IsOurs (secret_name cfg w cluster)
        → Ends (ensure_key cfg w cluster s) (IsKeyOf cluster) Fine
    unfolding ensure_key
    ensure_key-IsKeyOf cluster s ours =
        bind-Ends (get_secret w (secret_name cfg w cluster)) _ s _ _ _ (get_secret-IsStored _ s)
          λ found s' h. key_by-IsKeyOf cluster found s' ours h

    -- A stored secret has the key.
    abbrev pub HasSecret : Hub → Text → Type 0
    HasSecret s key = (cluster : Text) × IsKeyOf cluster key s

    HasSecret-kept :
        (s s' : Hub)
        → HasKept s s'
        → (keys : List Text) → All (HasSecret s) keys
        → All (HasSecret s') keys
    HasSecret-kept s s' k [] h = tt
    HasSecret-kept s s' k (key ∷ keys) ((c, (secret, there, e)), h) =
        ((c, (secret, k _ secret there, e)), HasSecret-kept s s' k keys h)

    nkeys_of-append :
        (users : List User) (u : User) (key : Text)
        → u.nkey ≡ some key
        → nkeys_of cfg w (users ++ u ∷ []) ≡ nkeys_of cfg w users ++ key ∷ []
    unfolding nkeys_of
    nkeys_of-append [] u key e = ground arith
    nkeys_of-append (v ∷ users) u key e = ground (arith, nkeys_of-append users u key e)

    -- When no one else creates secrets, every key among the users that the loop of sync returns is the
    -- public key of a stored secret, if this held of the users that it started with.
    pub provision-HasSecret :
        (clusters : List Text) (users : List User) (s : Hub)
        → ((cluster : Text) → IsOurs (secret_name cfg w cluster))
        → All (HasSecret s) (nkeys_of cfg w users)
        → Ends
            (provision cfg w clusters users s)
            (λ out s'. All (HasSecret s') (nkeys_of cfg w out))
            (λ s'. Unit)
    unfolding provision
    provision-HasSecret [] users s ours h = h
    provision-HasSecret (name ∷ clusters) users s ours h =
        elim (Bool-cases (valid_cluster_name name)) [
          | inl e ↦
              rw (e, provision)
                (bind-Ends (ensure_key cfg w name) _ s
                  (λ key s'. HasKept s s' × IsKeyOf name key s') _ _
                  (kept-Ends (ensure_key cfg w name s) s _ _ (ensure_key-Keeps w cfg name s)
                    (ensure_key-IsKeyOf name s (ours name)))
                  λ key s' (kept, is_key).
                    provision-HasSecret clusters (users ++ nkey_user name key ∷ []) s' ours (
                      rw (nkeys_of-append users (nkey_user name key) key (nkey-nkey_user name key))
                        (All-append (HasSecret s') (nkeys_of cfg w users) (key ∷ [])
                          (HasSecret-kept s s' kept (nkeys_of cfg w users) h)
                          ((name, is_key), tt))))
          | inr e ↦ rw (e, provision) (provision-HasSecret clusters users s ours h)
        ]
