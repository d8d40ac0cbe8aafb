-- ===== src/Receiver/Deliver/Settle.antt =====
-- Every JetStream message is settled once, and only what was delivered or is unreadable is acked.
use telemetry.Base.{◌≡◌, ◌≢◌, refl, ◌⊎◌, inl, inr, none, List, [], ◌∷◌, ◌++◌, arith}
use telemetry.Base.Text.{Text}
use telemetry.Receiver.Deliver.{
  Codec, Effect, consume, ack, nak_with_delay, nak_redelivery_delay, World, LastDelivery,
  handle_jet_stream, handle_core_nats,
}

module _ {Payload Error : Type 0} where
  abbrev settlement : Effect Payload Error → List (Effect Payload Error)
  settlement ack = ack ∷ []
  settlement (nak_with_delay d) = nak_with_delay d ∷ []
  settlement _ = []

  -- The acknowledgements in a trace, in order.
  abbrev pub settlements : List (Effect Payload Error) → List (Effect Payload Error)
  settlements [] = []
  settlements (e ∷ es) = settlement e ++ settlements es

  abbrev consumption : Effect Payload Error → List Payload
  consumption (consume p) = p ∷ []
  consumption _ = []

  -- The payloads that a trace hands to the next consumer.
  abbrev pub consumptions : List (Effect Payload Error) → List Payload
  consumptions [] = []
  consumptions (e ∷ es) = consumption e ++ consumptions es

  -- What a JetStream handler owes a message that unmarshals to `inl p`, or fails to.
  abbrev pub Settles :
      World Payload Error
      → LastDelivery
      → Payload ⊎ Error
      → LastDelivery × List (Effect Payload Error)
      → Type 0
  Settles world last (inr e) (last', effects) =
      (settlements effects ≡ ack ∷ []) × (consumptions effects ≡ []) × (last' ≡ last)
  Settles world last (inl p) (last', effects) =
      (consumptions effects ≡ p ∷ [])
      × (world.consumer p ≡ none → (settlements effects ≡ ack ∷ []) × (last' ≡ world.now))
      × (world.consumer p ≢ none
          → (settlements effects ≡ nak_with_delay nak_redelivery_delay ∷ []) × (last' ≡ last))

module _ {Payload Error : Type 0} (codec : Codec Payload Error) (encoding : Text)
    (world : World Payload Error) (last : LastDelivery) (payload : Text) where
  Settles-by :
      (r : Payload ⊎ Error)
      → codec.unmarshal payload ≡ r
      → Settles world last r (handle_jet_stream codec encoding world last payload)
  unfolding handle_jet_stream
  Settles-by (inr e) h = ground arith
  Settles-by (inl p) h = ground arith

  -- A JetStream message is settled exactly once, whatever happens: it is acked, and its payload
  -- never forwarded, if it does not unmarshal; else it is handed to the next consumer once, acked
  -- with the time of delivery noted if the consumer accepts it, and sent back with a delay of two
  -- seconds, the time unchanged, if the consumer refuses it.
  pub handle_jet_stream-Settles :
      Settles world last
        (codec.unmarshal payload)
        (handle_jet_stream codec encoding world last payload)
  handle_jet_stream-Settles = Settles-by (codec.unmarshal payload) refl

  -- A core NATS message changes the state just as a JetStream message does, and is never
  -- acknowledged in either way.
  pub handle_core_nats_lem :
      ((handle_core_nats codec encoding world last payload).0
        ≡ (handle_jet_stream codec encoding world last payload).0)
      × (settlements (handle_core_nats codec encoding world last payload).1 ≡ [])
  unfolding handle_core_nats handle_jet_stream
  handle_core_nats_lem = ground arith
