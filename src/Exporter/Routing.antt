-- ===== src/Exporter/Routing.antt =====
-- The processor and the exporter together: which subject a log record is published under.
use telemetry.Base.{◌≡◌, refl, ℕ, suc, ◌⊎◌, inl, List, [], ◌∷◌, ◌++◌, map, flat_map, arith}
use telemetry.Base.Text.{Text}
use telemetry.Unbatch.{
  ScopeGroup, ResourceGroup, Payload, single, item_count, split_all, split_logs,
}
use telemetry.Unbatch.Records.{Entry, entry, entries}
use telemetry.Exporter.Publish.{Exporter, Message, Attributes, subject_for, push_logs}

module _ {Resource Scope Item Error : Type 0} (attributes : Resource → Attributes)
    (marshal : Payload Resource Scope Item → Text ⊎ Error) (e : Exporter) where
  -- The subject of a log record by its own resource.
  abbrev pub own_subject : Entry Resource Scope Item → Text
  own_subject entry = subject_for e.cfg e.cfg.logs (attributes entry.resource)

  -- `part` holds the record alone, and what the exporter publishes for it has the record's subject.
  abbrev pub IsPublished : Payload Resource Scope Item → Entry Resource Scope Item → Type 0
  IsPublished part entry =
      (entries part ≡ entry ∷ [])
      × ((msg : Message)
          → push_logs attributes marshal e part ≡ inl msg
          → msg.subject ≡ own_subject entry)

  -- The payloads are as many as the records, and each is published as the record in its place.
  abbrev pub ArePublished :
      List (Payload Resource Scope Item) → List (Entry Resource Scope Item) → Type 0
  ArePublished [] [] = Unit
  ArePublished [] (entry ∷ es) = ⊥
  ArePublished (part ∷ parts) [] = ⊥
  ArePublished (part ∷ parts) (entry ∷ es) = IsPublished part entry × ArePublished parts es

  append-ArePublished :
      (parts qs : List (Payload Resource Scope Item)) (es fs : List (Entry Resource Scope Item))
      → ArePublished parts es
      → ArePublished qs fs
      → ArePublished (parts ++ qs) (es ++ fs)
  append-ArePublished [] qs [] fs h k = k
  append-ArePublished [] qs (x ∷ es) fs h k = elim h [ ]
  append-ArePublished (part ∷ parts) qs [] fs h k = elim h [ ]
  append-ArePublished (part ∷ parts) qs (x ∷ es) fs h k =
      (h.0, append-ArePublished parts qs es fs h.1 k)

  single-IsPublished :
      (rl : ResourceGroup Resource Scope Item) (sl : ScopeGroup Scope Item) (item : Item)
      → IsPublished (single rl sl item) (entry rl sl item)
  unfolding push_logs
  single-IsPublished rl sl item = (refl, λ msg h. ground arith)

  items-ArePublished :
      (rl : ResourceGroup Resource Scope Item) (sl : ScopeGroup Scope Item) (items : List Item)
      → ArePublished (map (single rl sl) items) (map (entry rl sl) items)
  items-ArePublished rl sl [] = tt
  items-ArePublished rl sl (x ∷ xs) = (single-IsPublished rl sl x, items-ArePublished rl sl xs)

  scopes-ArePublished :
      (rl : ResourceGroup Resource Scope Item) (scopes : List (ScopeGroup Scope Item))
      → ArePublished
          (flat_map (λ sl. map (single rl sl) sl.items) scopes)
          (flat_map (λ sl. map (entry rl sl) sl.items) scopes)
  scopes-ArePublished rl [] = tt
  scopes-ArePublished rl (sl ∷ scopes) =
      append-ArePublished _ _ _ _ (items-ArePublished rl sl sl.items)
        (scopes-ArePublished rl scopes)

  split_all-ArePublished :
      (ld : Payload Resource Scope Item) → ArePublished (split_all ld) (entries ld)
  split_all-ArePublished [] = tt
  split_all-ArePublished (rl ∷ ld) =
      append-ArePublished _ _ _ _ (scopes-ArePublished rl rl.scopes) (split_all-ArePublished ld)

  -- Of a payload of at least two log records the processor makes exactly one output for each record,
  -- in their order, that holds this record alone, and whatever the exporter publishes for the output
  -- goes to the subject of the record's own resource.
  pub split_logs-ArePublished :
      (ld : Payload Resource Scope Item) (n : ℕ)
      → item_count ld ≡ suc (suc n)
      → ArePublished (split_logs ld) (entries ld)
  unfolding split_logs
  split_logs-ArePublished ld n h = rw (h, split_logs) (split_all-ArePublished ld)
