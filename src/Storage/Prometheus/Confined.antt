-- ===== src/Storage/Prometheus/Confined.antt =====
-- Every request to the metrics backend is confined to the project of its context.
use telemetry.Base.{
  ◌≡◌, ◌≢◌, refl, sym, subst, ◌⊎◌, inl, inr, true, Option, none, some, List, [], ◌∷◌, ◌++◌, All,
  arith, Bool-cases, if_true, if_false,
}
use telemetry.Base.Text.{Text, lit, text_eq_iff, text_eq_refl}
use telemetry.Base.Assoc.{lookup, lookup-insert}
use telemetry.Storage.Prometheus.{
  NewError, parse_tenancy, word_tail, valid_label_name, Config, Url, Store, new_over, new_store,
  Form, TimeRange, InstantQuery, RangeQuery, Request, Libraries, Context, project_id, set, Outcome,
  do_for, do_request, query, query_range, series, label_names, label_values,
}

-- The texts that a label name is made of hold no separator.
word_tail-no_equals : (name : Text) → word_tail name ≡ true → All (λ c. c ≢ b'=') name
unfolding word_tail
word_tail-no_equals [] h = tt
word_tail-no_equals (c ∷ name) h = (ground arith, word_tail-no_equals name (ground arith))

valid_label_name-no_equals : (name : Text) → valid_label_name name ≡ true → All (λ c. c ≢ b'=') name
unfolding valid_label_name
valid_label_name-no_equals [] h = tt
valid_label_name-no_equals (c ∷ name) h = (ground arith, word_tail-no_equals name (ground arith))

new_over-label :
    (config : Config) (tenancy : Text ⊎ NewError) (base : Option Url) (s : Store)
    → new_over config tenancy base ≡ inl s
    → valid_label_name s.config.project_label ≡ true
unfolding new_over
new_over-label config (inr e) base s h = absurd (cc)
new_over-label config (inl tenancy) none s h = absurd (cc)
new_over-label config (inl tenancy) (some base) s h = ground arith

project_id-filled : (ctx : Context) (project : Text) → project_id ctx ≡ some project → project ≢ []
unfolding project_id
project_id-filled ctx project h = ground (arith, text_eq_iff project [])

lookup-set :
    (name value : Text) (form : Form) → lookup name (set name value form) ≡ some (value ∷ [])
unfolding set
lookup-set name value form =
    ground (arith, lookup-insert name name (value ∷ []) form, text_eq_refl name)

module _ (libs : Libraries) (s : Store) (ctx : Context) where
  -- The request names the context's project as the one value of extra_label.
  pub record Confines (r : Request) : Type 0 where
    pub project : Text
    pub known : project_id ctx ≡ some project
    pub filled : project ≢ []
    pub labelled :
        lookup (lit "extra_label") r.form ≡ some ((s.config.project_label ++ b'=' ∷ project) ∷ [])

  abbrev pub IsConfined : Outcome libs s → Type 0
  IsConfined o = All Confines o.1

  do_for-IsConfined :
      (path : Text) (form : Form) (o : Option Text)
      → project_id ctx ≡ o
      → IsConfined (do_for libs s ctx path form o)
  unfolding do_for
  do_for-IsConfined path form none e = tt
  do_for-IsConfined path form (some project) e = elim (Bool-cases (libs.valid_path path)) [
    | inl v ↦ subst IsConfined (sym (if_true (libs.valid_path path) _ _ v)) (
      record {
        project = project;
        known = e;
        filled = project_id-filled ctx project e;
        labelled = lookup-set (lit "extra_label") (s.config.project_label ++ b'=' ∷ project) form;
      },
      tt,
    )
    | inr v ↦ subst IsConfined (sym (if_false (libs.valid_path path) _ _ v)) tt
  ]

  do_request-IsConfined : (path : Text) (form : Form) → IsConfined (do_request libs s ctx path form)
  unfolding do_request
  do_request-IsConfined path form = do_for-IsConfined path form (project_id ctx) refl

  pub label_values-IsConfined :
      (name : Text) (matchers : List Text) (range : TimeRange)
      → IsConfined (label_values libs s ctx name matchers range)
  unfolding label_values
  label_values-IsConfined name matchers range = elim (Bool-cases (valid_label_name name)) [
    | inl v ↦
        subst IsConfined (sym (if_true (valid_label_name name) _ _ v)) (do_request-IsConfined _ _)
    | inr v ↦ subst IsConfined (sym (if_false (valid_label_name name) _ _ v)) tt
  ]

  pub query-IsConfined : (q : InstantQuery) → IsConfined (query libs s ctx q)
  unfolding query
  query-IsConfined q = do_request-IsConfined _ _

  pub query_range-IsConfined : (q : RangeQuery) → IsConfined (query_range libs s ctx q)
  unfolding query_range
  query_range-IsConfined q = do_request-IsConfined _ _

  pub series-IsConfined :
      (matchers : List Text) (range : TimeRange) → IsConfined (series libs s ctx matchers range)
  unfolding series
  series-IsConfined matchers range = do_request-IsConfined _ _

  pub label_names-IsConfined :
      (matchers : List Text) (range : TimeRange)
      → IsConfined (label_names libs s ctx matchers range)
  unfolding label_names
  label_names-IsConfined matchers range = do_request-IsConfined _ _

-- A store that New built has a label without an equals sign, so the first one in extra_label ends it.
pub new_store-no_equals :
    (parse : Text → Option Url) (config : Config) (s : Store)
    → new_store parse config ≡ inl s
    → All (λ c. c ≢ b'=') s.config.project_label
unfolding new_store
new_store-no_equals parse config s h =
    valid_label_name-no_equals s.config.project_label
      (new_over-label config (parse_tenancy config.tenancy) (parse config.url) s h)
