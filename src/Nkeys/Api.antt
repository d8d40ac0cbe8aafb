-- ===== src/Nkeys/Api.antt =====
-- The hub's API server, as the generator uses it. The surroundings decide, for each call, whether it
-- fails and which secrets others have created by then.
use telemetry.Base.{ℕ, ◌+◌, Option, none, some, List, [], ◌∷◌}
use telemetry.Base.Text.{Text}
use telemetry.Base.Assoc.{lookup, insert}

-- The keys of a Secret's data that are read or written; a missing one reads as the empty text.
pub record Secret : Type 0 where
  pub seed : Text
  pub public : Text
  pub nkey : Text

-- A PushSecret, by the names that vary in it.
pub record PushSecret : Type 0 where
  pub store_name : Text
  pub store_kind : Text
  pub secret : Text
  pub remote_key : Text

-- A ConfigMap, by its key values.yaml.
pub record ConfigMap : Type 0 where
  pub values : Option Text

pub record Hub : Type 0 where
  -- how many API calls were made
  pub calls : ℕ
  pub secrets : List (Text × Secret)
  pub push_secrets : List (Text × PushSecret)
  pub config_map : Option ConfigMap

pub record KeyPair : Type 0 where
  pub seed : Text
  pub public : Text

pub record Surroundings : Type 0 where
  -- the error of the n-th API call, other than NotFound and AlreadyExists
  pub fails : ℕ → Option Text
  -- secrets that others create just before it
  pub arrives : ℕ → List (Text × Secret)
  -- what nkeys makes, if it is asked after n calls; none for an error
  pub generate : ℕ → Option KeyPair
  -- the names of the enabled clusters; none where the Karmada API fails
  pub clusters : Option (List Text)

pub data GenError : Type 0 where
  list_failed marshal_failed empty_users already_exists : GenError
  api_failed : Text → GenError
  generate_failed : Text → GenError
  no_public_key : Text → GenError
  would_drop : List Text → GenError

pub data Result {ℓ} (A : Type ℓ) : Type ℓ where
  ok : A → Result A
  err : GenError → Result A

-- What was written before an error stays written.
abbrev pub Exec : Type 0 → Type 0
Exec A = Hub → Result A × Hub

abbrev pub pure : {A : Type 0} → A → Exec A
pure a s = (ok a, s)

abbrev pub throw : {A : Type 0} → GenError → Exec A
throw e s = (err e, s)

abbrev pub continue : {A B : Type 0} → Result A → (A → Exec B) → Exec B
continue (ok a) f s = f a s
continue (err e) f s = (err e, s)

infixl 5 ◌>>=◌
unfoldable pub ◌>>=◌ : {A B : Type 0} → Exec A → (A → Exec B) → Exec B
◌>>=◌ m f s = let (r, s') = m s in continue r f s'

-- A create leaves what is there as it is.
unfoldable pub add_new : {V : Type 0} → Text → V → List (Text × V) → List (Text × V)
add_new k v m = elim (lookup k m) [ some _ ↦ m | none ↦ insert k v m ]

unfoldable pub add_all : List (Text × Secret) → List (Text × Secret) → List (Text × Secret)
unfolding add_new
add_all [] m = m
add_all ((k, v) ∷ more) m = add_all more (add_new k v m)

module _ (w : Surroundings) where
  abbrev pub answer : {A : Type 0} → Option Text → Exec A → Exec A
  answer none f s = f s
  answer (some e) f s = (err (api_failed e), s)

  -- What others do by the time of the next call.
  abbrev pub turn : Hub → Hub
  turn s = record s { calls = s.calls + 1; secrets = add_all (w.arrives s.calls) s.secrets }

  -- One API call: others act first, then it fails or does its work.
  unfoldable pub api : {A : Type 0} → Exec A → Exec A
  unfolding add_all
  api f s = answer (w.fails s.calls) f (turn s)

  -- none for NotFound.
  unfoldable pub get_secret : Text → Exec (Option Secret)
  unfolding api
  get_secret name = api λ s. (ok (lookup name s.secrets), s)

  -- AlreadyExists is no error to the generator.
  unfoldable pub create_secret : Text → Secret → Exec Unit
  unfolding api add_new
  create_secret name secret = api λ s. (ok tt, record s { secrets = add_new name secret s.secrets })

  unfoldable pub get_push_secret : Text → Exec (Option PushSecret)
  unfolding api
  get_push_secret name = api λ s. (ok (lookup name s.push_secrets), s)

  unfoldable pub put_push_secret : Text → PushSecret → Exec Unit
  unfolding api
  put_push_secret name p =
      api λ s. (ok tt, record s { push_secrets = insert name p s.push_secrets })

  unfoldable pub get_config_map : Exec (Option ConfigMap)
  unfolding api
  get_config_map = api λ s. (ok s.config_map, s)

  unfoldable pub put_config_map : ConfigMap → Exec Unit
  unfolding api
  put_config_map cm = api λ s. (ok tt, record s { config_map = some cm })
