-- ===== src/Cli/Entries.antt =====
-- cli/logs/client.go: entries, their keys, their queries and the errors of a request. strconv.FormatInt is a parameter.
use telemetry.Base.{
  ℕ, ◌≡◌, ◌≢◌, refl, Bool, false, ◌||◌, ◌==◌, Option, none, some, List, [], ◌∷◌, ◌++◌, map, All,
}
use telemetry.Base.Int.{ℤ}
use telemetry.Base.Text.{Text, lit}
use telemetry.Base.Assoc.{lookup}
use telemetry.Base.Sort.{sort}

-- A time is a number of nanoseconds since 1970.
pub record Entry : Type 0 where
  pub time : ℤ
  pub labels : List (Text × Text)
  pub line : Text
  pub stream : Text

pub data Direction : Type 0 where
  backward forward : Direction

pub record Query : Type 0 where
  pub query : Text
  pub start : ℤ
  pub end : ℤ
  pub limit : ℕ
  pub direction : Direction

-- The answer of the API where its code is not 200.
pub record ApiError : Type 0 where
  pub status_code : ℕ
  pub status : Text
  pub detail : Text

unfoldable pub error_text : ApiError → Text
error_text e =
    let msg = lit "logs query returned " ++ e.status in
    elim e.detail [ [] ↦ msg | c ∷ s ↦ msg ++ lit ": " ++ c ∷ s ]

-- The error of a request: an ApiError, wrapped or not, or another one.
pub data QueryError : Type 0 where
  api : ApiError → QueryError
  other : Text → QueryError

abbrev pub is_permanent_status : ℕ → Bool
is_permanent_status n = n == 400 || (n == 401 || (n == 403 || n == 404))

unfoldable pub permanent : QueryError → Bool
permanent (api e) = is_permanent_status e.status_code
permanent (other e) = false

abbrev pub max_limit : ℕ
max_limit = 5000

abbrev label_of : Option Text → Text
label_of none = []
label_of (some v) = v

written : List (Text × Text) → List Text → Text
unfolding lookup
written labels [] = []
written labels (k ∷ ks) =
    (k ++ lit "=" ++ label_of (lookup k labels) ++ 1 ∷ []) ++ written labels ks

abbrev name_of : Text × Text → Text
name_of (k, v) = k

-- Each label once, in the order of their names.
unfoldable pub canonical : List (Text × Text) → Text
unfolding written sort
canonical labels = written labels (sort (map name_of labels))

abbrev stream_of : Text → List (Text × Text) → Text
stream_of [] labels = canonical labels
stream_of (c ∷ s) labels = c ∷ s

cons_parts : (c d : ℕ) (a b : Text) → c ∷ a ≡ d ∷ b → (c ≡ d) × (a ≡ b)
cons_parts c d a b e = (cc, cc)

module _ (format_int : ℤ → Text) where
  unfoldable pub key : Entry → Text
  key e = format_int e.time ++ 0 ∷ (stream_of e.stream e.labels ++ 0 ∷ e.line)

  -- Texts without a zero byte, each before one.
  same_head :
      (a b s t : Text) → All (λ c. c ≢ 0) a → All (λ c. c ≢ 0) b → a ++ 0 ∷ s ≡ b ++ 0 ∷ t → a ≡ b
  same_head [] [] s t h k e = refl
  same_head [] (c ∷ b) s t h k e = absurd (k.0 (cc))
  same_head (c ∷ a) [] s t h k e = absurd (h.0 (cc))
  same_head (c ∷ a) (d ∷ b) s t h k e =
      let (head, tail) = cons_parts c d _ _ e in rw (head, same_head a b s t h.1 k.1 tail)

  -- Entries with the same key have the same time.
  pub key_time :
      ((a b : ℤ) → format_int a ≡ format_int b → a ≡ b)
      → ((a : ℤ) → All (λ c. c ≢ 0) (format_int a))
      → (d e : Entry) → key d ≡ key e
      → d.time ≡ e.time
  unfolding key
  key_time injective digits d e h =
      injective d.time e.time (same_head _ _ _ _ (digits d.time) (digits e.time) h)
