-- ===== src/Nkeys/Endings.antt =====
-- What a command of the generator ends in: a result or an error, and the hub.
use telemetry.Base.{◌≡◌, refl, inl, inr, Option, none, some, Option-cases}
use telemetry.Base.Text.{Text}
use telemetry.Base.Assoc.{lookup}
use telemetry.Nkeys.Api.{
  Hub, Surroundings, Result, ok, err, Exec, ◌>>=◌, api, turn, answer, get_secret, continue,
}
use telemetry.Nkeys.Seeds.{HasKept, turn-Keeps}

-- The result satisfies the one condition, or there is an error and the other.
abbrev pub Ends : {A : Type 0} → Result A × Hub → (A → Hub → Type 0) → (Hub → Type 0) → Type 0
Ends (ok a, s) Q E = Q a s
Ends (err e, s) Q E = E s

continue-Ends :
    {A B : Type 0}
    → (r : Result A × Hub) (f : A → Exec B) (Q : A → Hub → Type 0) (R : B → Hub → Type 0)
      (E : Hub → Type 0)
    → Ends r Q E
    → ((a : A) (s : Hub) → Q a s → Ends (f a s) R E)
    → Ends (continue r.0 f r.1) R E
continue-Ends (ok a, s) f Q R E h k = k a s h
continue-Ends (err e, s) f Q R E h k = h

pub bind-Ends :
    {A B : Type 0}
    → (m : Exec A) (f : A → Exec B) (s : Hub) (Q : A → Hub → Type 0) (R : B → Hub → Type 0)
      (E : Hub → Type 0)
    → Ends (m s) Q E
    → ((a : A) (s' : Hub) → Q a s' → Ends (f a s') R E)
    → Ends ((m >>= f) s) R E
unfolding ◌>>=◌
bind-Ends m f s = continue-Ends (m s) f

pub imp-Ends :
    {A : Type 0}
    → (r : Result A × Hub) (Q R : A → Hub → Type 0) (E F : Hub → Type 0) → Ends r Q E
    → ((a : A) (s : Hub) → Q a s → R a s)
    → ((s : Hub) → E s → F s)
    → Ends r R F
imp-Ends (ok a, s) Q R E F h f g = f a s h
imp-Ends (err e, s) Q R E F h f g = g s h

-- The list of users is as it was, and no secret is lost or changed.
abbrev pub IsUntouched : Hub → Hub → Type 0
IsUntouched s s' = (s'.config_map ≡ s.config_map) × HasKept s s'

pub none_before :
    (name : Text) (s s' : Hub)
    → HasKept s s'
    → lookup name s'.secrets ≡ none
    → lookup name s.secrets ≡ none
none_before name s s' k e = elim (Option-cases (lookup name s.secrets)) [
  | inl none_there ↦ none_there
  | inr (x, there) ↦ let later = k name x there in cc
]

module _ (w : Surroundings) where
  pub answer-Ends :
      {A : Type 0}
      → (o : Option Text) (f : Exec A) (s : Hub) (Q : A → Hub → Type 0) (E : Hub → Type 0)
      → Ends (f s) Q E
      → E s
      → Ends (answer w o f s) Q E
  answer-Ends none f s Q E h e = h
  answer-Ends (some _) f s Q E h e = e

  pub get_secret-Ends :
      (name : Text) (s : Hub)
      → Ends
          (get_secret w name s)
          (λ found s'. IsUntouched s s' × (found ≡ none → lookup name s.secrets ≡ none))
          (λ s'. s'.config_map ≡ s.config_map)
  unfolding get_secret api
  get_secret-Ends name s =
      answer-Ends (w.fails s.calls) (λ s. (ok (lookup name s.secrets), s)) (turn w s) _ _
        ((refl, turn-Keeps w s), none_before name s (turn w s) (turn-Keeps w s)) refl
