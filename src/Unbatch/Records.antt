-- ===== src/Unbatch/Records.antt =====
-- What splitting logs and traces keeps.
use telemetry.Base.{
  ℕ, zero, suc, ◌+◌, ◌≡◌, refl, sym, ap, ◌∙◌, List, [], ◌∷◌, map, length, flat_map, length-append,
  length-map, flat_map-append, All, All-append, append-nil, arith,
}
use telemetry.Base.Text.{Text}
use telemetry.Unbatch.{
  ScopeGroup, ResourceGroup, Payload, single, item_count, split_all, by_count, split_logs,
  split_traces,
}

-- An item with everything that stands above it.
pub record Entry (Resource Scope Item : Type 0) : Type 0 where
  pub resource : Resource
  pub resource_url : Text
  pub scope : Scope
  pub scope_url : Text
  pub item : Item

module _ {Resource Scope Item : Type 0} where
  abbrev pub entry :
      ResourceGroup Resource Scope Item → ScopeGroup Scope Item → Item → Entry Resource Scope Item
  entry rl sl item = record {
    resource = rl.resource;
    resource_url = rl.schema_url;
    scope = sl.scope;
    scope_url = sl.schema_url;
    item = item;
  }

  -- The content of a payload: its items in order, each with its resource and scope.
  abbrev pub entries : Payload Resource Scope Item → List (Entry Resource Scope Item)
  entries = flat_map (λ rl. flat_map (λ sl. map (entry rl sl) sl.items) rl.scopes)

  entries_of_items :
      (rl : ResourceGroup Resource Scope Item) (sl : ScopeGroup Scope Item) (items : List Item)
      → flat_map entries (map (single rl sl) items) ≡ map (entry rl sl) items
  entries_of_items rl sl [] = refl
  entries_of_items rl sl (x ∷ xs) = rw (entries_of_items rl sl xs)

  entries_of_scopes :
      (rl : ResourceGroup Resource Scope Item) (scopes : List (ScopeGroup Scope Item))
      → flat_map entries (flat_map (λ sl. map (single rl sl) sl.items) scopes)
        ≡ flat_map (λ sl. map (entry rl sl) sl.items) scopes
  entries_of_scopes rl [] = refl
  entries_of_scopes rl (sl ∷ scopes) =
      simp (flat_map-append, entries_of_items, entries_of_scopes rl scopes)

  entries_of_split :
      (ld : Payload Resource Scope Item) → flat_map entries (split_all ld) ≡ entries ld
  entries_of_split [] = refl
  entries_of_split (rl ∷ ld) = simp (flat_map-append, entries_of_scopes, entries_of_split ld)

  length-scopes :
      (rl : ResourceGroup Resource Scope Item) (scopes : List (ScopeGroup Scope Item))
      → length (flat_map (λ sl. map (entry rl sl) sl.items) scopes)
        ≡ length (flat_map (λ sl. sl.items) scopes)
  length-scopes rl [] = refl
  length-scopes rl (sl ∷ scopes) = simp (length-append, length-map, length-scopes rl scopes)

  -- A payload counts as many items as it has entries.
  pub length-entries : (ld : Payload Resource Scope Item) → length (entries ld) ≡ item_count ld
  unfolding item_count
  length-entries [] = refl
  length-entries (rl ∷ ld) = simp (length-append, length-scopes, length-entries ld)

  pub item_count-cons :
      (rl : ResourceGroup Resource Scope Item) (ld : Payload Resource Scope Item)
      → item_count (rl ∷ ld) ≡ item_count (rl ∷ []) + item_count ld
  unfolding item_count
  item_count-cons rl ld = simp (append-nil, length-append)

  -- A payload of one item is passed on unchanged.
  pub split_logs-one :
      (ld : Payload Resource Scope Item) → item_count ld ≡ 1 → split_logs ld ≡ ld ∷ []
  unfolding split_logs by_count
  split_logs-one ld h = rw (h, by_count)

  no_entries : (es : List (Entry Resource Scope Item)) → length es ≡ 0 → es ≡ []
  no_entries [] h = refl
  no_entries (e ∷ es) h = absurd (omega arith)

  entries-by_count :
      (n : ℕ) (ld : Payload Resource Scope Item)
      → length (entries ld) ≡ n
      → flat_map entries (by_count n ld) ≡ entries ld
  unfolding by_count
  entries-by_count zero ld h = sym (no_entries (entries ld) h)
  entries-by_count (suc zero) ld h = append-nil (entries ld)
  entries-by_count (suc (suc n)) ld h = entries_of_split ld

  -- Splitting logs keeps every log record, in order, with its resource, its scope and both schema
  -- URLs: the outputs one after the other have the entries of the input.
  pub entries-split_logs :
      (ld : Payload Resource Scope Item) → flat_map entries (split_logs ld) ≡ entries ld
  unfolding split_logs
  entries-split_logs ld = entries-by_count (item_count ld) ld (length-entries ld)

  -- Splitting traces keeps every span, in order, with its resource, its scope and both schema URLs.
  pub entries-split_traces :
      (td : Payload Resource Scope Item) → flat_map entries (split_traces td) ≡ entries td
  unfolding split_traces
  entries-split_traces td = entries-by_count (item_count td) td (length-entries td)

  abbrev IsSingle : Payload Resource Scope Item → Type 0
  IsSingle ld = item_count ld ≡ 1

  map-IsSingle :
      (rl : ResourceGroup Resource Scope Item) (sl : ScopeGroup Scope Item) (items : List Item)
      → All IsSingle (map (single rl sl) items)
  unfolding item_count
  map-IsSingle rl sl [] = tt
  map-IsSingle rl sl (x ∷ xs) = (refl, map-IsSingle rl sl xs)

  scopes-IsSingle :
      (rl : ResourceGroup Resource Scope Item) (scopes : List (ScopeGroup Scope Item))
      → All IsSingle (flat_map (λ sl. map (single rl sl) sl.items) scopes)
  scopes-IsSingle rl [] = tt
  scopes-IsSingle rl (sl ∷ scopes) =
      All-append IsSingle _ _ (map-IsSingle rl sl sl.items) (scopes-IsSingle rl scopes)

  split_all-IsSingle : (ld : Payload Resource Scope Item) → All IsSingle (split_all ld)
  split_all-IsSingle [] = tt
  split_all-IsSingle (rl ∷ ld) =
      All-append IsSingle _ _ (scopes-IsSingle rl rl.scopes) (split_all-IsSingle ld)

  by_count-IsSingle :
      (n : ℕ) (ld : Payload Resource Scope Item) → item_count ld ≡ n → All IsSingle (by_count n ld)
  unfolding by_count
  by_count-IsSingle zero ld h = tt
  by_count-IsSingle (suc zero) ld h = (h, tt)
  by_count-IsSingle (suc (suc n)) ld h = split_all-IsSingle ld

  sum_of_singles :
      (xs : List (Payload Resource Scope Item))
      → All IsSingle xs
      → length (flat_map entries xs) ≡ length xs
  sum_of_singles [] h = refl
  sum_of_singles (x ∷ xs) h = omega (
    arith,
    length-append (entries x) (flat_map entries xs),
    length-entries x,
    sum_of_singles xs h.1,
  )

  -- Each output of splitting logs holds exactly one log record, and there are as many outputs as
  -- the input has records, whatever its shape.
  pub split_logs_singles :
      (ld : Payload Resource Scope Item)
      → All IsSingle (split_logs ld) × (length (split_logs ld) ≡ item_count ld)
  unfolding split_logs
  split_logs_singles ld =
      let singles = by_count-IsSingle (item_count ld) ld refl in
      (
        singles,
        sym (sum_of_singles (split_logs ld) singles)
            ∙ ap length (entries-split_logs ld)
            ∙ length-entries ld,
      )

  resplit :
      (xs : List (Payload Resource Scope Item)) → All IsSingle xs → flat_map split_logs xs ≡ xs
  unfolding split_logs by_count
  resplit [] h = refl
  resplit (x ∷ xs) h = rw (h.0, by_count) (ap (λ l. x ∷ l) (resplit xs h.1))

  -- Chained after itself the processor changes nothing.
  pub split_logs_idem :
      (ld : Payload Resource Scope Item) → flat_map split_logs (split_logs ld) ≡ split_logs ld
  split_logs_idem ld = resplit (split_logs ld) (split_logs_singles ld).0
