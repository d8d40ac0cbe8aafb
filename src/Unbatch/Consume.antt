-- ===== src/Unbatch/Consume.antt =====
-- ConsumeLogs, ConsumeTraces and ConsumeMetrics: the parts go to the next consumer one by one. Its
-- verdict may depend on all that it was sent before; the calls made are the state.
use telemetry.Base.{
  ◌≡◌, refl, sym, ap, ◌∙◌, Option, none, some, Option-cases, inl, inr, List, [], ◌∷◌, ◌++◌,
  append-nil, append_assoc, flat_map,
}
use telemetry.Unbatch.{Payload, split_logs, split_traces}
use telemetry.Unbatch.Records.{entries, entries-split_logs}
use telemetry.Unbatch.Metrics.{Metric, split_metrics}

module _ {Part Error : Type 0} (next : List Part → Part → Option Error) where
  -- The loop of the three methods: all calls made so far, and the error that ended the loop.
  consume_parts : List Part → List Part → List Part × Option Error
  consume_parts sent [] = (sent, none)
  consume_parts sent (part ∷ parts) = elim (next sent part) [
    | none ↦ consume_parts (sent ++ part ∷ []) parts
    | some e ↦ (sent ++ part ∷ [], some e)
  ]

  -- The next consumer accepts `parts` in turn, after `sent`.
  abbrev pub Accepts : List Part → List Part → Type 0
  Accepts sent [] = Unit
  Accepts sent (part ∷ parts) = (next sent part ≡ none) × Accepts (sent ++ part ∷ []) parts

  -- Either all parts were sent and accepted, or the last part sent is the first that was refused,
  -- and its error is the answer.
  abbrev pub Ending : List Part → List Part → List Part × Option Error → Type 0
  Ending sent parts (all, none) = Accepts sent parts × (all ≡ sent ++ parts)
  Ending sent parts (all, some e) =
      (before : List Part) × (last : Part) × (rest : List Part) × (parts ≡ before ++ last ∷ rest)
      × Accepts sent before
      × (all ≡ (sent ++ before) ++ last ∷ [])
      × (next (sent ++ before) last ≡ some e)

  Ending-cons :
      (sent : List Part) (part : Part) (parts : List Part) (r : List Part × Option Error)
      → next sent part ≡ none
      → Ending (sent ++ part ∷ []) parts r
      → Ending sent (part ∷ parts) r
  Ending-cons sent part parts (all, none) ok h =
      ((ok, h.0), h.1 ∙ append_assoc sent (part ∷ []) parts)
  Ending-cons sent part parts (all, some e) ok
        (before, last, rest, split, accepted, sents, failed) =
      (
        part ∷ before,
        last,
        rest,
        ap (λ l. part ∷ l) split,
        (ok, accepted),
        rw (append_assoc sent (part ∷ []) before) at sents,
        rw (append_assoc sent (part ∷ []) before) at failed,
      )

  consume_parts-Ending : (sent parts : List Part) → Ending sent parts (consume_parts sent parts)
  unfolding consume_parts
  consume_parts-Ending sent [] = (tt, sym (append-nil sent))
  consume_parts-Ending sent (part ∷ parts) = elim (Option-cases (next sent part)) [
    | inl ok ↦
        rw (ok, consume_parts)
          (Ending-cons sent part parts _ ok (consume_parts-Ending (sent ++ part ∷ []) parts))
    | inr (e, failed) ↦
        rw (failed, consume_parts)
          (
            [],
            part,
            parts,
            refl,
            tt,
            ap (λ l. l ++ part ∷ []) (sym (append-nil sent)),
            rw append-nil failed,
          )
  ]

module _ {Resource Scope Item Error : Type 0}
    (next : List (Payload Resource Scope Item) → Payload Resource Scope Item → Option Error) where
  unfoldable pub consume_logs :
      Payload Resource Scope Item → List (Payload Resource Scope Item) × Option Error
  unfolding consume_parts split_logs
  consume_logs ld = consume_parts next [] (split_logs ld)

  unfoldable pub consume_traces :
      Payload Resource Scope Item → List (Payload Resource Scope Item) × Option Error
  unfolding consume_parts split_traces
  consume_traces td = consume_parts next [] (split_traces td)

  -- ConsumeLogs sends the parts in order up to the first that the next consumer refuses, and returns
  -- its error; without a refusal it sends all parts and returns nil.
  pub consume_logs-Ending :
      (ld : Payload Resource Scope Item) → Ending next [] (split_logs ld) (consume_logs ld)
  unfolding consume_logs
  consume_logs-Ending ld = consume_parts-Ending next [] (split_logs ld)

  pub consume_traces-Ending :
      (td : Payload Resource Scope Item) → Ending next [] (split_traces td) (consume_traces td)
  unfolding consume_traces
  consume_traces-Ending td = consume_parts-Ending next [] (split_traces td)

  sent_of_Ending :
      (parts : List (Payload Resource Scope Item))
      (r : List (Payload Resource Scope Item) × Option Error)
      → Ending next [] parts r
      → r.1 ≡ none
      → r.0 ≡ parts
  sent_of_Ending parts (all, none) h e = h.1
  sent_of_Ending parts (all, some _) h e = cc

  -- When ConsumeLogs returns nil, the next consumer was sent every record of the payload once, in
  -- order, under its resource and scope.
  pub consume_logs_complete :
      (ld : Payload Resource Scope Item)
      → (consume_logs ld).1 ≡ none
      → flat_map entries (consume_logs ld).0 ≡ entries ld
  consume_logs_complete ld h =
      ap (flat_map entries)
        (sent_of_Ending (split_logs ld) (consume_logs ld) (consume_logs-Ending ld) h)
      ∙ entries-split_logs ld

module _ {Resource Scope Number Hist Exp Summary Error : Type 0}
    (next : List (Payload Resource Scope (Metric Number Hist Exp Summary))
      → Payload Resource Scope (Metric Number Hist Exp Summary)
      → Option Error) where
  unfoldable pub consume_metrics :
      Payload Resource Scope (Metric Number Hist Exp Summary)
      → List (Payload Resource Scope (Metric Number Hist Exp Summary)) × Option Error
  unfolding consume_parts split_metrics
  consume_metrics md = consume_parts next [] (split_metrics md)

  pub consume_metrics-Ending :
      (md : Payload Resource Scope (Metric Number Hist Exp Summary))
      → Ending next [] (split_metrics md) (consume_metrics md)
  unfolding consume_metrics
  consume_metrics-Ending md = consume_parts-Ending next [] (split_metrics md)
