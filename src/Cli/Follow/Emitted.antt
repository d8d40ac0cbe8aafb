-- ===== src/Cli/Follow/Emitted.antt =====
-- What Run passes to its callback, among its effects.
use telemetry.Base.{◌≡◌, refl, ap, Bool, true, false, List, [], ◌∷◌, ◌++◌, map}
use telemetry.Cli.Entries.{Entry}
use telemetry.Cli.Follow.Run.{Event, waits, asks, lost, reconnected, emits, report}

-- What Run passes to its callback.
unfoldable pub emitted : List Event → List Entry
emitted [] = []
emitted (emits e ∷ events) = e ∷ emitted events
emitted (waits n ∷ events) = emitted events
emitted (asks q ∷ events) = emitted events
emitted (lost e ∷ events) = emitted events
emitted (reconnected ∷ events) = emitted events

pub emitted-append : (xs ys : List Event) → emitted (xs ++ ys) ≡ emitted xs ++ emitted ys
unfolding emitted
emitted-append [] ys = refl
emitted-append (emits e ∷ xs) ys = ap (λ es. e ∷ es) (emitted-append xs ys)
emitted-append (waits n ∷ xs) ys = emitted-append xs ys
emitted-append (asks q ∷ xs) ys = emitted-append xs ys
emitted-append (lost e ∷ xs) ys = emitted-append xs ys
emitted-append (reconnected ∷ xs) ys = emitted-append xs ys

pub emitted-emits : (es : List Entry) → emitted (map emits es) ≡ es
unfolding emitted
emitted-emits [] = refl
emitted-emits (e ∷ es) = ap (λ x. e ∷ x) (emitted-emits es)

pub emitted-reconnected :
    (b : Bool) (es : List Entry) → emitted (report b reconnected ++ map emits es) ≡ es
unfolding emitted
emitted-reconnected true es = emitted-emits es
emitted-reconnected false es = emitted-emits es

pub emitted-lost : (b : Bool) (e : _) → emitted (report b (lost e)) ≡ []
unfolding emitted
emitted-lost true e = refl
emitted-lost false e = refl
