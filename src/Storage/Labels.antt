-- ===== src/Storage/Labels.antt =====
-- queryapi/internal/storage/labels.go and the iterators' label sets.
use telemetry.Base.{◌≡◌, refl, Option, none, some, [], ◌∷◌, ◌==◌, if◌then◌else◌, All, arith, ◌≢◌}
use telemetry.Base.Text.{Text, lit, text_eq}

pub data LabelKind : Type 0 where
  label_column label_attribute : LabelKind

-- `strings.ReplaceAll(key, ".", "_")`
unfoldable pub sanitize : Text → Text
sanitize [] = []
sanitize (c ∷ key) = (if c == b'.' then b'_' else c) ∷ sanitize key

-- The lookup in the map `columns`.
unfoldable pub column : Text → Option Text
column label =
    if text_eq label (lit "service_name")
    then some (lit "ServiceName")
    else if text_eq label (lit "severity")
    then some (lit "SeverityText")
    else if text_eq label (lit "trace_id")
    then some (lit "TraceId")
    else none

unfoldable pub resolve : Text → Text × LabelKind
resolve label = elim (column label) [
  | some col ↦ (col, label_column)
  | none ↦ (sanitize label, label_attribute)
]

pub sanitize-no_dot : (key : Text) → All (λ c. c ≢ b'.') (sanitize key)
unfolding sanitize
sanitize-no_dot [] = tt
sanitize-no_dot (c ∷ key) = (ground arith, sanitize-no_dot key)

pub sanitize_idem : (key : Text) → sanitize (sanitize key) ≡ sanitize key
unfolding sanitize
sanitize_idem [] = refl
sanitize_idem (c ∷ key) = ground (arith, sanitize_idem key)
