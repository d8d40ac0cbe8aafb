-- ===== src/Operator/Controller/Watch.antt =====
-- The watch of the secrets: which policies a change of a secret brings back to the reconciler.
pub mod Unrelated
use telemetry.Base.{Bool, false, ◌||◌, Option, none, some, List, [], ◌∷◌, if◌then◌else◌}
use telemetry.Base.Text.{Text, text_eq}
use telemetry.Operator.Controller.{RemoteWrite, Sink, ExportPolicy}

unfoldable pub names_secret : Option (Option Text) → Text → Bool
names_secret none secret = false
names_secret (some none) secret = false
names_secret (some (some ref)) secret = text_eq ref secret

unfoldable pub refers : Option (Option RemoteWrite) → Text → Bool
unfolding names_secret
refers none secret = false
refers (some none) secret = false
refers (some (some remote)) secret = names_secret remote.authentication secret

unfoldable pub references_secret : List Sink → Text → Bool
unfolding refers
references_secret [] secret = false
references_secret (sink ∷ sinks) secret =
    refers sink.target secret || references_secret sinks secret

-- The requests, a name and a namespace each, for the policies of the secret's namespace; none where
-- they cannot be listed.
unfoldable pub requests : List ExportPolicy → Text → List (Text × Text)
unfolding references_secret
requests [] secret = []
requests (policy ∷ policies) secret =
    let rest = requests policies secret in
    if references_secret policy.sinks secret then (policy.name, policy.namespace) ∷ rest else rest

abbrev pub enqueued : Option (List ExportPolicy) → Text → List (Text × Text)
enqueued none secret = []
enqueued (some policies) secret = requests policies secret
