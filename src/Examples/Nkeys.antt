-- ===== src/Examples/Nkeys.antt =====
-- A run of the generator on a hub with one stored key.
use telemetry.Base.{
  ◌≡◌, refl, ap, false, length, arith, none, some, [], ◌∷◌, All, if◌then◌else◌, ◌==◌,
}
use telemetry.Base.Text.{lit, text_eq}
use telemetry.Nkeys.Users.{valid_cluster_name, nkey_user}
use telemetry.Nkeys.Api.{
  Secret, Hub, Surroundings, ok, ◌>>=◌, get_secret, create_secret, get_push_secret, put_push_secret,
}
use telemetry.Nkeys.Generator.{
  Config, Yaml, ensure_key, provision, sync, write_config_map, nkeys_of, users_in,
}
use telemetry.Nkeys.Subjects.{may_publish, nkey_user-Isolated}
use telemetry.Nkeys.Seeds.{HasKept, sync-Keeps}
use telemetry.Base.Assoc.{lookup, insert}
use telemetry.Nkeys.Endings.{Ends}
use telemetry.Nkeys.Backing.{IsKeyOf, HasSecret, ensure_key-IsKeyOf, provision-HasSecret}
use telemetry.Nkeys.Dropping.{
  MayGo, HasPublished, write_config_map-Guards, write_config_map-unguarded,
}

nkey_user-Isolated_example :
    may_publish (nkey_user (lit "ams") (lit "UB")) (lit "o11y.logs.fra-1.x") ≡ false
unfolding valid_cluster_name nkey_user text_eq lit
nkey_user-Isolated_example =
    nkey_user-Isolated (lit "fra-1") (lit "ams") (lit "UA") (lit "UB") (lit "o11y.logs.fra-1.x")
      refl refl (λ e. omega (arith, ap length e)) refl

abbrev config : Config
config = record {
  secret_prefix = lit "k";
  secret_store_name = lit "s";
  secret_store_kind = lit "t";
}

abbrev stored : Secret
stored = record { seed = lit "SU"; public = lit "UA"; nkey = lit "UA" }

-- A new cluster, a call that fails, and a secret that someone else creates.
abbrev surroundings : Surroundings
surroundings = record {
  fails = λ n. if n == 9 then some (lit "timeout") else none;
  arrives = λ n. if n == 2 then (lit "k-ams", stored) ∷ [] else [];
  generate = λ n. some (record { seed = lit "SV"; public = lit "UV" });
  clusters = some (lit "fra-1" ∷ lit "ams" ∷ []);
}

-- A document that names one leaf.
abbrev yaml : Yaml
yaml = record {
  marshal = λ users. some (lit "doc");
  unmarshal = λ raw. some (nkey_user (lit "fra-1") (lit "UA") ∷ []);
}

abbrev hub : Hub
hub = record {
  calls = 0;
  secrets = (lit "k-fra-1", stored) ∷ [];
  push_secrets = [];
  config_map = some (record { values = some (lit "doc") });
}

sync-Keeps_example : HasKept hub (sync config surroundings yaml hub).1
sync-Keeps_example = sync-Keeps surroundings config yaml hub

write_config_map-Guards_example :
    Ends
      (write_config_map config surroundings yaml [] hub)
      (λ _ s.
        HasPublished surroundings config yaml [] s
        × All
            (MayGo config surroundings (nkeys_of config surroundings []) hub)
            (users_in config surroundings yaml hub.config_map))
      (λ s. s.config_map ≡ hub.config_map)
write_config_map-Guards_example = write_config_map-Guards surroundings config yaml [] hub refl

abbrev late : Hub
late = record hub { calls = 9 }

write_config_map-unguarded_example :
    (write_config_map config surroundings yaml [] late).1.config_map
    ≡ some (record { values = some (lit "doc") })
write_config_map-unguarded_example =
    write_config_map-unguarded surroundings config yaml [] late (lit "timeout") (lit "doc") refl
      refl refl refl

abbrev alone : Surroundings
alone = record surroundings { arrives = λ n. [] }

ensure_key-IsKeyOf_example :
    Ends (ensure_key config alone (lit "ams") hub) (IsKeyOf alone config (lit "ams")) (λ s. Unit)
unfolding lookup
ensure_key-IsKeyOf_example = ensure_key-IsKeyOf alone config (lit "ams") hub (λ n. refl)

provision-HasSecret_example :
    Ends
      (provision config alone (lit "fra-1" ∷ lit "ams" ∷ []) [] hub)
      (λ users s. All (HasSecret alone config s) (nkeys_of config alone users))
      (λ s. Unit)
unfolding lookup nkeys_of
provision-HasSecret_example =
    provision-HasSecret alone config (lit "fra-1" ∷ lit "ams" ∷ []) [] hub (λ cluster n. refl) tt

-- A secret that arrives between the Get and the Create stays, and the fresh key is returned.
ensure_key_raced :
    ((ensure_key config surroundings (lit "ams") (record hub { calls = 1 })).0 ≡ ok (lit "UV"))
    × (lookup
          (lit "k-ams")
          (ensure_key config surroundings (lit "ams") (record hub { calls = 1 })).1.secrets
        ≡ some stored)
unfolding ensure_key lookup insert lit text_eq ◌>>=◌ get_secret create_secret get_push_secret
    put_push_secret
ensure_key_raced = (refl, refl)
