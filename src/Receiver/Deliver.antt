-- ===== src/Receiver/Deliver.antt =====
-- The message handlers of receiver/natsreceiver/receiver.go. What they do to the outside (metrics,
-- log lines, the pipeline, acknowledgements) is the trace of effects that they return.
pub mod Settle
use telemetry.Base.{ℕ, ◌*◌, ◌⊎◌, inl, inr, Option, none, some, List, [], ◌∷◌, ◌++◌}
use telemetry.Base.Text.{Text}

-- What a signal's pdata package gives: unmarshalling and the count of records, points or spans.
pub record Codec (Payload Error : Type 0) : Type 0 where
  pub unmarshal : Text → Payload ⊎ Error
  pub count : Payload → ℕ

pub data DeliverError (Error : Type 0) : Type 0 where
  -- `&errUnmarshal{err}`
  unmarshal_failed : Error → DeliverError Error
  forward_failed : Error → DeliverError Error

pub data Effect (Payload Error : Type 0) : Type 0 where
  start_op : Effect Payload Error
  end_op : (encoding : Text) (count : ℕ) → Option Error → Effect Payload Error
  consume : Payload → Effect Payload Error
  log_unmarshaling log_forwarding log_dropping log_ack_error log_nak_error : Effect Payload Error
  ack : Effect Payload Error
  nak_with_delay : ℕ → Effect Payload Error

-- In nanoseconds.
abbrev pub nak_redelivery_delay : ℕ
nak_redelivery_delay = 2 * 1000000000

-- What the receiver's surroundings answer to one message: the next consumer's verdict, the time, and
-- whether the acknowledgements go through.
pub record World (Payload Error : Type 0) : Type 0 where
  pub consumer : Payload → Option Error
  pub now : ℕ
  pub ack_result : Option Error
  pub nak_result : Option Error

-- The receiver's mutable state that the handlers touch: `lastDelivery`.
abbrev pub LastDelivery : Type 0
LastDelivery = ℕ

module _ {Payload Error : Type 0} where
  forward :
      Codec Payload Error
      → Text
      → World Payload Error
      → Payload ⊎ Error
      → Option (DeliverError Error) × List (Effect Payload Error)
  forward codec encoding world (inr e) =
      (some (unmarshal_failed e), start_op ∷ end_op encoding 0 (some e) ∷ [])
  forward codec encoding world (inl payload) = (
    elim (world.consumer payload) [ none ↦ none | some e ↦ some (forward_failed e) ],
    start_op
        ∷ consume payload
        ∷ end_op encoding (codec.count payload) (world.consumer payload)
        ∷ [],
  )

  -- The closure `deliverPayload` of the three constructors.
  unfoldable pub deliver_payload :
      Codec Payload Error
      → Text
      → World Payload Error
      → Text
      → Option (DeliverError Error) × List (Effect Payload Error)
  unfolding forward
  deliver_payload codec encoding world payload =
      forward codec encoding world (codec.unmarshal payload)

  after_delivery :
      World Payload Error
      → LastDelivery
      → Option (DeliverError Error)
      → LastDelivery × List (Effect Payload Error)
  after_delivery world last none = (world.now, [])
  after_delivery world last (some (unmarshal_failed e)) = (last, log_unmarshaling ∷ [])
  after_delivery world last (some (forward_failed e)) = (last, log_forwarding ∷ [])

  unfoldable pub deliver :
      Codec Payload Error
      → Text
      → World Payload Error
      → LastDelivery
      → Text
      → Option (DeliverError Error) × LastDelivery × List (Effect Payload Error)
  unfolding deliver_payload after_delivery
  deliver codec encoding world last payload =
      let (err, effects) = deliver_payload codec encoding world payload in
      let (last', logged) = after_delivery world last err in (err, last', effects ++ logged)

  abbrev if_failed : Option Error → Effect Payload Error → List (Effect Payload Error)
  if_failed none log = []
  if_failed (some e) log = log ∷ []

  settle : World Payload Error → Option (DeliverError Error) → List (Effect Payload Error)
  settle world none = ack ∷ if_failed world.ack_result log_ack_error
  settle world (some (unmarshal_failed e)) =
      log_dropping ∷ ack ∷ if_failed world.ack_result log_ack_error
  settle world (some (forward_failed e)) =
      nak_with_delay nak_redelivery_delay ∷ if_failed world.nak_result log_nak_error

  unfoldable pub handle_jet_stream :
      Codec Payload Error
      → Text
      → World Payload Error
      → LastDelivery
      → Text
      → LastDelivery × List (Effect Payload Error)
  unfolding deliver settle
  handle_jet_stream codec encoding world last payload =
      let (err, last', effects) = deliver codec encoding world last payload in
      (last', effects ++ settle world err)

  -- Core NATS acknowledges nothing: the result of `deliver` is dropped.
  unfoldable pub handle_core_nats :
      Codec Payload Error
      → Text
      → World Payload Error
      → LastDelivery
      → Text
      → LastDelivery × List (Effect Payload Error)
  unfolding deliver
  handle_core_nats codec encoding world last payload =
      let (err, last', effects) = deliver codec encoding world last payload in (last', effects)
