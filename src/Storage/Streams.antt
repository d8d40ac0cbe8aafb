-- ===== src/Storage/Streams.antt =====
-- queryapi/internal/storage/storage.go: the identity of a stream. fmt's %d is a parameter.
pub mod Identity
pub mod Collect
use telemetry.Base.{
  ℕ, zero, suc, ◌+◌, ◌≤◌, ◌≡◌, ◌≢◌, refl, sym, ap, ◌∙◌, subst, Bool, true, false, ◌||◌, Option,
  none, some, List, [], ◌∷◌, ◌++◌, append_assoc, append-nil, length, map, if◌then◌else◌, arith,
  Bool-cases, inl, inr, All,
}
use telemetry.Base.Text.{Text, lit, text_eq, text_eq_iff, text_eq_refl, join}
use telemetry.Base.Assoc.{lookup, contains}
use telemetry.Base.Sort.{sort, contains-sort}
use telemetry.Storage.Clickhouse.Rows.{LabelSet}

-- A name stands once.
unfoldable pub IsMap : LabelSet → Type 0
unfolding lookup
IsMap [] = Unit
IsMap ((k, v) ∷ labels) = (lookup k labels ≡ none) × IsMap labels

module _ (itoa : ℕ → Text) where
  -- "%d:%s" for the length and the text.
  abbrev sized : Text → Text
  sized s = itoa (length s) ++ b':' ∷ s

  unfoldable pub pair_text : Text × Text → Text
  pair_text (k, v) = sized k ++ b'=' ∷ sized v

  -- The method Key.
  unfoldable pub key : LabelSet → Text
  unfolding pair_text join
  key labels = join (lit ",") (sort (map pair_text labels))
