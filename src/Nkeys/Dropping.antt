-- ===== src/Nkeys/Dropping.antt =====
-- writeConfigMap: when the list of users may shrink.
use mathlib.Core.Option.{some-injective, none-ne-some}
use telemetry.Base.{
  ◌+◌, ◌≡◌, refl, sym, ◌∙◌, ◌⊎◌, inl, inr, true, Option, none, some, List, [], ◌∷◌, ◌++◌, All,
  Option-cases, Bool-cases,
}
use telemetry.Base.Text.{Text}
use telemetry.Base.Assoc.{lookup, contains}
use telemetry.Nkeys.Users.{User, cluster_from_user}
use telemetry.Nkeys.Api.{
  Secret, Hub, Surroundings, pure, ◌>>=◌, api, turn, get_secret, get_config_map, put_config_map,
}
use telemetry.Nkeys.Generator.{
  Config, Yaml, secret_name, dropped_by, dropped_from, dropped_nkeys, nkeys_of, previous_users,
  users_in, publish_users, refuse_or_publish, write_config_map,
}
use telemetry.Nkeys.Endings.{
  Ends, bind-Ends, imp-Ends, IsUntouched, none_before, answer-Ends, get_secret-Ends,
}
use telemetry.Nkeys.Seeds.{HasKept, turn-Keeps}

-- What must hold of a user of the old list for the new list to be written.
abbrev pub MayGo : Config → Surroundings → List Text → Hub → User → Type 0
MayGo cfg w have s u =
    (key : Text)
    → u.nkey ≡ some key
    → (contains have key ≡ true)
      ⊎ (lookup (secret_name cfg w (cluster_from_user u key)) s.secrets ≡ none)

module _ (w : Surroundings) where
  module _ (cfg : Config) (have : List Text) where
    MayGo-before :
        (s s' : Hub) (u : User) → HasKept s s' → MayGo cfg w have s' u → MayGo cfg w have s u
    MayGo-before s s' u k h key e = elim (h key e) [
      | inl kept ↦ inl kept
      | inr gone ↦ inr (none_before _ s s' k gone)
    ]

    All-MayGo_before :
        (s s' : Hub) (users : List User)
        → HasKept s s'
        → All (MayGo cfg w have s') users
        → All (MayGo cfg w have s) users
    All-MayGo_before s s' [] k h = h
    All-MayGo_before s s' (u ∷ users) k (h, hs) =
        (MayGo-before s s' u k h, All-MayGo_before s s' users k hs)

    asked :
        (u : User) (key : Text) (s : Hub)
        → u.nkey ≡ some key
        → (found : Option Secret) (s' : Hub)
        → IsUntouched s s'
          × (found ≡ none → lookup (secret_name cfg w (cluster_from_user u key)) s.secrets ≡ none)
        → Ends
            (pure (elim found [ some _ ↦ cluster_from_user u key ∷ [] | none ↦ [] ]) s')
            (λ dropped s'. IsUntouched s s' × (dropped ≡ [] → MayGo cfg w have s u))
            (λ s'. s'.config_map ≡ s.config_map)
    asked u key s e none s' (same, gone) =
        (same, λ _ key' e'. inr (rw (sym (some-injective _ _ (sym e ∙ e'))) (gone refl)))
    asked u key s e (some x) s' (same, gone) = (same, λ e'. cc)

    dropped_by-Ends :
        (u : User) (o : Option Text) (s : Hub)
        → u.nkey ≡ o
        → Ends
            (dropped_by cfg w have u o s)
            (λ dropped s'. IsUntouched s s' × (dropped ≡ [] → MayGo cfg w have s u))
            (λ s'. s'.config_map ≡ s.config_map)
    unfolding dropped_by
    dropped_by-Ends u none s e =
        ((refl, λ n x h. h), λ _ key e'. elim (none-ne-some key (sym e ∙ e')) [ ])
    dropped_by-Ends u (some key) s e = elim (Bool-cases (contains have key)) [
      | inl there ↦
          rw there (
            (refl, λ n x h. h),
            λ _ key' e'. inl (rw (sym (some-injective _ _ (sym e ∙ e'))) there),
          )
      | inr absent ↦ rw absent (
          bind-Ends (get_secret w _) _ s _ _ _ (get_secret-Ends w _ s)
            λ found s' h. asked u key s e found s' h)
    ]

    none_dropped :
        (s : Hub) (u : User) (prev : List User) (first rest : List Text)
        → first ++ rest ≡ []
        → (first ≡ [] → MayGo cfg w have s u)
        → (rest ≡ [] → All (MayGo cfg w have s) prev)
        → MayGo cfg w have s u × All (MayGo cfg w have s) prev
    none_dropped s u prev [] rest e go go' = (go refl, go' e)
    none_dropped s u prev (x ∷ first) rest e go go' = cc

    dropped_from-Ends :
        (prev : List User) (s : Hub)
        → Ends
            (dropped_from cfg w have prev s)
            (λ dropped s'. IsUntouched s s' × (dropped ≡ [] → All (MayGo cfg w have s) prev))
            (λ s'. s'.config_map ≡ s.config_map)
    unfolding dropped_from
    dropped_from-Ends [] s = ((refl, λ n x h. h), λ e. tt)
    dropped_from-Ends (u ∷ prev) s =
        bind-Ends (dropped_by cfg w have u u.nkey) _ s _ _ _ (dropped_by-Ends u u.nkey s refl)
          λ first s₁ ((same, kept), go).
            bind-Ends (dropped_from cfg w have prev) _ s₁
              (λ rest s'. IsUntouched s s' × (rest ≡ [] → All (MayGo cfg w have s) prev)) _ _
              (imp-Ends (dropped_from cfg w have prev s₁)
                (λ rest s'. IsUntouched s₁ s' × (rest ≡ [] → All (MayGo cfg w have s₁) prev))
                (λ rest s'. IsUntouched s s' × (rest ≡ [] → All (MayGo cfg w have s) prev))
                (λ s'. s'.config_map ≡ s₁.config_map) (λ s'. s'.config_map ≡ s.config_map)
                (dropped_from-Ends prev s₁)
                (λ rest s' ((same', kept'), go'). (
                  (same' ∙ same, λ n x h. kept' n x (kept n x h)),
                  λ e. All-MayGo_before s s₁ prev kept (go' e),
                ))
                (λ s' same'. same' ∙ same))
              λ rest s' (untouched, go').
                (untouched, λ e. none_dropped s u prev first rest e go go')

  module _ (cfg : Config) (yaml : Yaml) where
    -- The list stands in the ConfigMap.
    abbrev pub HasPublished : List User → Hub → Type 0
    HasPublished users s =
        (raw : Text) × (yaml.marshal users ≡ some raw)
        × (s.config_map ≡ some (record { values = some raw }))

    publish_users-Ends :
        (users : List User) (s : Hub)
        → Ends
            (publish_users cfg w yaml users s)
            (λ _ s'. HasPublished users s')
            (λ s'. s'.config_map ≡ s.config_map)
    unfolding publish_users get_config_map put_config_map api
    publish_users-Ends users s = elim (Option-cases (yaml.marshal users)) [
      | inl e ↦ rw (e, publish_users) refl
      | inr (raw, e) ↦
          rw (e, publish_users)
            (bind-Ends (get_config_map w) _ s (λ _ s'. s'.config_map ≡ s.config_map) _ _
              (answer-Ends w (w.fails s.calls) _ (turn w s) _ _ refl refl)
              λ found s' same.
                answer-Ends w (w.fails s'.calls) _ (turn w s') _ _ (raw, refl, refl) same)
    ]

    refuse_or_publish-Ends :
        (users : List User) (dropped : List Text) (s : Hub)
        → Ends
            (refuse_or_publish cfg w yaml users dropped s)
            (λ _ s'. HasPublished users s' × (dropped ≡ []))
            (λ s'. s'.config_map ≡ s.config_map)
    unfolding refuse_or_publish
    refuse_or_publish-Ends users [] s =
        imp-Ends (publish_users cfg w yaml users s) (λ _ s'. HasPublished users s')
          (λ _ s'. HasPublished users s' × ([] ≡ [])) (λ s'. s'.config_map ≡ s.config_map)
          (λ s'. s'.config_map ≡ s.config_map) (publish_users-Ends users s) (λ _ s' h. (h, refl))
          (λ s' h. h)
    refuse_or_publish-Ends users (c ∷ cs) s = refl

    -- What writeConfigMap does on a hub, given the list that it reads as the old one.
    sifted_write :
        (users prev : List User) (s : Hub)
        → Ends
            ((dropped_nkeys cfg w prev users >>= refuse_or_publish cfg w yaml users) s)
            (λ _ s'. HasPublished users s' × All (MayGo cfg w (nkeys_of cfg w users) s) prev)
            (λ s'. s'.config_map ≡ s.config_map)
    unfolding dropped_nkeys
    sifted_write users prev s =
        bind-Ends (dropped_nkeys cfg w prev users) _ s _ _ _
          (dropped_from-Ends cfg (nkeys_of cfg w users) prev s)
          λ dropped s' ((same, kept), go).
            imp-Ends (refuse_or_publish cfg w yaml users dropped s')
              (λ _ s''. HasPublished users s'' × (dropped ≡ []))
              (λ _ s''. HasPublished users s'' × All (MayGo cfg w (nkeys_of cfg w users) s) prev)
              (λ s''. s''.config_map ≡ s'.config_map) (λ s''. s''.config_map ≡ s.config_map)
              (refuse_or_publish-Ends users dropped s')
              (λ _ s'' (published, empty). (published, go empty)) (λ s'' same'. same' ∙ same)

    previous_users-Ends :
        (s : Hub)
        → w.fails s.calls ≡ none
        → Ends
            (previous_users cfg w yaml s)
            (λ prev s'. (prev ≡ users_in cfg w yaml s.config_map) × IsUntouched s s')
            (λ s'. s'.config_map ≡ s.config_map)
    unfolding previous_users get_config_map api
    previous_users-Ends s works = rw (works, previous_users) (refl, (refl, turn-Keeps w s))

    -- When the old list can be read (the first call does not fail) and a list of users is written,
    -- the ConfigMap holds it, and every user of the old list has a key that is in the new one, or no
    -- key, or its cluster's secret was gone before. When the write fails, the ConfigMap is as it was.
    pub write_config_map-Guards :
        (users : List User) (s : Hub)
        → w.fails s.calls ≡ none
        → Ends
            (write_config_map cfg w yaml users s)
            (λ _ s'.
              HasPublished users s'
              × All (MayGo cfg w (nkeys_of cfg w users) s) (users_in cfg w yaml s.config_map))
            (λ s'. s'.config_map ≡ s.config_map)
    unfolding write_config_map
    write_config_map-Guards users s works =
        bind-Ends (previous_users cfg w yaml) _ s
          (λ prev s'. (prev ≡ users_in cfg w yaml s.config_map) × IsUntouched s s') _ _
          (previous_users-Ends s works)
          λ prev s' (read, (same, kept)).
            imp-Ends ((dropped_nkeys cfg w prev users >>= refuse_or_publish cfg w yaml users) s')
              (λ _ s''. HasPublished users s'' × All (MayGo cfg w (nkeys_of cfg w users) s') prev)
              (λ _ s''.
                HasPublished users s''
                × All (MayGo cfg w (nkeys_of cfg w users) s) (users_in cfg w yaml s.config_map))
              (λ s''. s''.config_map ≡ s'.config_map) (λ s''. s''.config_map ≡ s.config_map)
              (sifted_write users prev s')
              (λ _ s'' (published, go). (
                published,
                rw (sym read) (All-MayGo_before cfg (nkeys_of cfg w users) s s' prev kept go),
              ))
              (λ s'' same'. same' ∙ same)

    publish_users-written :
        (users : List User) (s : Hub) (raw : Text)
        → w.fails s.calls ≡ none
        → w.fails (s.calls + 1) ≡ none
        → yaml.marshal users ≡ some raw
        → (publish_users cfg w yaml users s).1.config_map ≡ some (record { values = some raw })
    unfolding publish_users get_config_map put_config_map api ◌>>=◌
    publish_users-written users s raw up up' marshalled =
        rw (marshalled, publish_users, up) (rw up' refl)

    -- When the first call fails, every list that can be marshalled is written, if the next two calls
    -- do not fail: no secret is looked at.
    pub write_config_map-unguarded :
        (users : List User) (s : Hub) (e raw : Text)
        → w.fails s.calls ≡ some e
        → w.fails (s.calls + 1) ≡ none
        → w.fails (s.calls + 1 + 1) ≡ none
        → yaml.marshal users ≡ some raw
        → (write_config_map cfg w yaml users s).1.config_map ≡ some (record { values = some raw })
    unfolding write_config_map previous_users dropped_nkeys dropped_from refuse_or_publish
        get_config_map api ◌>>=◌
    write_config_map-unguarded users s e raw broken up up' marshalled =
        rw (broken, write_config_map) (publish_users-written users (turn w s) raw up up' marshalled)
