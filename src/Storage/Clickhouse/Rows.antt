-- ===== src/Storage/Clickhouse/Rows.antt =====
-- iterator.go: a row's labels from the promoted columns and the arrays of the column Labels.
use telemetry.Base.{
  ◌≡◌, refl, ◌⊎◌, inl, inr, Bool, true, false, Option, none, some, List, [], ◌∷◌, if◌then◌else◌,
  arith,
}
use telemetry.Base.Int.{ℤ}
use telemetry.Base.Text.{Text, lit, text_eq, text_eq_iff}
use telemetry.Base.Assoc.{lookup, insert, lookup-insert}
use telemetry.Storage.Labels.{sanitize}

abbrev pub LabelSet : Type 0
LabelSet = List (Text × Text)

pub record Row : Type 0 where
  pub timestamp : ℤ
  pub labels : LabelSet
  pub line : Text

-- The one key of `internalLogAttributes`.
unfoldable pub is_internal : Text → Bool
is_internal name = text_eq name (sanitize (lit "telemetry.observed_time_unix_nano"))

unfoldable pub without_internal_attributes : List Text → List Text
without_internal_attributes [] = []
without_internal_attributes (n ∷ names) =
    let kept = without_internal_attributes names in if is_internal n then kept else n ∷ kept

abbrev pub is_empty : Text → Bool
is_empty s = text_eq s []

set_nonempty : Text → Text → LabelSet → LabelSet
set_nonempty name value ls = if is_empty value then ls else insert name value ls

unfoldable pub promoted : Text → Text → Text → LabelSet
unfolding set_nonempty
promoted service severity trace =
    set_nonempty (lit "trace_id") trace
      (set_nonempty (lit "severity") severity (set_nonempty (lit "service_name") service []))

-- One turn of the loop over the keys.
add_label : LabelSet → Text → Text → LabelSet
unfolding set_nonempty
add_label ls name value =
    if is_internal name
    then ls
    else elim (lookup name ls) [ some taken ↦ ls | none ↦ set_nonempty name value ls ]

add_labels : LabelSet → List Text → List Text → LabelSet
unfolding add_label
add_labels ls [] values = ls
add_labels ls (name ∷ keys) [] = ls
add_labels ls (name ∷ keys) (value ∷ values) = add_labels (add_label ls name value) keys values

unfoldable pub assemble_labels : Text → Text → Text → List Text → List Text → LabelSet
unfolding promoted add_labels
assemble_labels service severity trace keys values =
    add_labels (promoted service severity trace) keys values

-- What a ClickHouse row scans to.
pub record Scanned : Type 0 where
  pub timestamp : ℤ
  pub body : Text
  pub service : Text
  pub severity : Text
  pub trace : Text
  pub label_keys : List Text
  pub label_values : List Text

-- The driver's rows still to come, each with a failing scan or its values, and the error behind them.
pub record RowIterator (Error : Type 0) : Type 0 where
  pub rows : List (Scanned ⊎ Error)
  pub rows_err : Option Error
  pub row : Option Row
  pub err : Option Error

row_of : Scanned → Row
row_of s = record {
  timestamp = s.timestamp;
  labels = assemble_labels s.service s.severity s.trace s.label_keys s.label_values;
  line = s.body;
}

module _ {Error : Type 0} where
  next_row : List (Scanned ⊎ Error) → RowIterator Error → Bool × RowIterator Error
  unfolding row_of
  next_row [] it = (false, record it { err = it.rows_err })
  next_row (inr e ∷ rows) it = (false, record it { rows = rows; err = some e })
  next_row (inl s ∷ rows) it = (true, record it { rows = rows; row = some (row_of s) })

  unfoldable pub next : RowIterator Error → Bool × RowIterator Error
  unfolding next_row
  next it = next_row it.rows it

-- The value that a label has by the arrays: that of the first entry with its name and a value.
abbrev pub first_value : Text → List Text → List Text → Option Text
first_value name [] values = none
first_value name (k ∷ keys) [] = none
first_value name (k ∷ keys) (v ∷ values) =
    let rest = first_value name keys values in
    if text_eq k name then if is_empty v then rest else some v else rest

abbrev pub or_value : Option Text → Option Text → Option Text
or_value (some v) o = some v
or_value none o = o

module _ (name : Text) where
  lookup-set_nonempty :
      (k v : Text) (ls : LabelSet)
      → lookup name (set_nonempty k v ls)
        ≡ (if is_empty v then lookup name ls else if text_eq k name then some v else lookup name ls)
  unfolding set_nonempty
  lookup-set_nonempty k v ls = ground (arith, lookup-insert k name v ls)

  lookup-add_label :
      (ls : LabelSet) (k v : Text)
      → lookup name (add_label ls k v)
        ≡ or_value (lookup name ls) (
            if is_internal name
            then none
            else if text_eq k name
            then (if is_empty v then none else some v)
            else none)
  unfolding add_label
  lookup-add_label ls k v = ground (arith, lookup-insert k name v ls, text_eq_iff k name)

  lookup-add_labels :
      (ls : LabelSet) (keys values : List Text)
      → lookup name (add_labels ls keys values)
        ≡ or_value
            (lookup name ls)
            (if is_internal name then none else first_value name keys values)
  unfolding add_labels
  lookup-add_labels ls [] values = ground arith
  lookup-add_labels ls (k ∷ keys) [] = ground arith
  lookup-add_labels ls (k ∷ keys) (v ∷ values) =
      ground (arith, lookup-add_label ls k v, lookup-add_labels (add_label ls k v) keys values)

  -- The value of a promoted label.
  abbrev pub column_value : Text → Text → Text → Option Text
  column_value service severity trace =
      if text_eq (lit "trace_id") name
      then (if is_empty trace then none else some trace)
      else if text_eq (lit "severity") name
      then (if is_empty severity then none else some severity)
      else if text_eq (lit "service_name") name
      then (if is_empty service then none else some service)
      else none

columns_differ :
    (text_eq (lit "trace_id") (lit "severity") ≡ false)
    × (text_eq (lit "trace_id") (lit "service_name") ≡ false)
    × (text_eq (lit "severity") (lit "service_name") ≡ false)
unfolding text_eq lit
columns_differ = (refl, refl, refl)

lookup-nil : (name : Text) → lookup {V = Text} name [] ≡ none
unfolding lookup
lookup-nil name = refl

lookup-promoted :
    (name service severity trace : Text)
    → lookup name (promoted service severity trace) ≡ column_value name service severity trace
unfolding promoted
lookup-promoted name service severity trace =
    let (ts, tn, sn) = columns_differ in
    ground (
      arith,
      ts,
      tn,
      sn,
      text_eq_iff (lit "trace_id") name,
      text_eq_iff (lit "severity") name,
      text_eq_iff (lit "service_name") name,
      lookup-nil name,
      lookup-insert (lit "service_name") name service [],
      lookup-set_nonempty name (lit "severity") severity
          (set_nonempty (lit "service_name") service []),
      lookup-set_nonempty name (lit "trace_id") trace
          (set_nonempty (lit "severity") severity (set_nonempty (lit "service_name") service [])),
    )

-- A row's label is the promoted column of that name, if it is not empty; else, unless the name is
-- internal, the first entry of the arrays with that name whose value is not empty.
pub lookup-assemble_labels :
    (name service severity trace : Text) (keys values : List Text)
    → lookup name (assemble_labels service severity trace keys values)
      ≡ or_value
          (column_value name service severity trace)
          (if is_internal name then none else first_value name keys values)
unfolding assemble_labels
lookup-assemble_labels name service severity trace keys values = ground (
  arith,
  lookup-add_labels name (promoted service severity trace) keys values,
  lookup-promoted name service severity trace,
)
