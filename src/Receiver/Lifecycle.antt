-- ===== src/Receiver/Lifecycle.antt =====
-- Start, startCoreNATS, startJetStream and Shutdown of receiver/natsreceiver/receiver.go. What the
-- NATS client, the meter and the TLS loader answer is `Outcomes`; the connection options that are
-- passed to them unread (name, credentials, TLS) are not part of the state. Beside the receiver's own
-- fields the state says what stands behind them at NATS: whether the consumer delivers, whether the
-- subscription does, and the state of the connection. `Drain` returns at once: where it succeeds the
-- connection is draining and is closed later in the background, as nats.go documents.
use telemetry.Base.{
  ◌≡◌, refl, ◌∙◌, inl, inr, if_true, if_false, Bool-cases, Bool, true, false, not, ◌&&◌, Option,
  none, some, if◌then◌else◌, arith,
}
use telemetry.Receiver.Config.{Config, is_empty}

-- The error of each call, none for a nil error.
pub record Outcomes (Error : Type 0) : Type 0 where
  pub gauge : Option Error
  pub counter : Option Error
  pub tls : Option Error
  pub connect : Option Error
  pub jet_stream : Option Error
  pub consumer : Option Error
  pub consume : Option Error
  pub subscribe : Option Error
  pub unsubscribe : Option Error
  pub drain : Option Error
  -- nats.ErrConnectionClosed
  pub connection_closed : Error

pub data StartError (Error : Type 0) : Type 0 where
  gauge_failed counter_failed tls_failed connect_failed : Error → StartError Error
  jet_stream_failed binding_failed consume_failed subscribe_failed : Error → StartError Error

pub data Connection : Type 0 where
  closed live draining : Connection

pub record State : Type 0 where
  -- the fields of natsReceiver that Start sets: false for nil
  pub gauge : Bool
  pub counter : Bool
  pub conn : Bool
  pub consume_ctx : Bool
  pub core_nats_sub : Bool
  -- the consumer delivers messages, the subscription does, and the connection that was dialled
  pub consuming : Bool
  pub subscribed : Bool
  pub connection : Connection

abbrev pub fresh : State
fresh = record {
  gauge = false;
  counter = false;
  conn = false;
  consume_ctx = false;
  core_nats_sub = false;
  consuming = false;
  subscribed = false;
  connection = closed;
}

abbrev pub is_open : Connection → Bool
is_open closed = false
is_open live = true
is_open draining = false

module _ {Error : Type 0} (out : Outcomes Error) where
  -- Both start functions close the connection before they return an error.
  abbrev close_on :
      Option Error
      → (Error → StartError Error)
      → State
      → Option (StartError Error) × State
      → Option (StartError Error) × State
  close_on none wrap s next = next
  close_on (some e) wrap s next = (some (wrap e), record s { connection = closed })

  start_core_nats : State → Option (StartError Error) × State
  start_core_nats s =
      close_on out.subscribe subscribe_failed s
        (none, record s { core_nats_sub = true; subscribed = true })

  start_jet_stream : State → Option (StartError Error) × State
  start_jet_stream s = close_on out.jet_stream jet_stream_failed s (
      close_on out.consumer binding_failed s (
        close_on out.consume consume_failed s
          (none, record s { consume_ctx = true; consuming = true })))

  abbrev return_on :
      Option Error
      → (Error → StartError Error)
      → State
      → Option (StartError Error) × State
      → Option (StartError Error) × State
  return_on none wrap s next = next
  return_on (some e) wrap s next = (some (wrap e), s)

  connected : Config → State → Option (StartError Error) × State
  unfolding start_core_nats start_jet_stream
  connected cfg s = if is_empty cfg.stream then start_core_nats s else start_jet_stream s

  unfoldable pub start : Config → State → Option (StartError Error) × State
  unfolding connected
  start cfg s =
      let s₁ = record s { gauge = true } in
      let s₂ = record s₁ { counter = true } in
      let s₃ = record s₂ { conn = true; connection = live } in
      return_on out.gauge gauge_failed s (
        return_on out.counter counter_failed s₁ (
          return_on out.tls tls_failed s₂
            (return_on out.connect connect_failed s₂ (connected cfg s₃))))

  -- consumeCtx.Stop, unless nil.
  stop : State → State
  stop s = record s { consuming = if s.consume_ctx then false else s.consuming }

  -- coreNATSSub.Unsubscribe, unless nil; where it fails the subscription stays.
  unsubscribe : State → State
  unsubscribe s = record s {
    subscribed =
        if s.core_nats_sub
        then elim out.unsubscribe [ some e ↦ s.subscribed | none ↦ false ]
        else s.subscribed;
  }

  -- conn.Drain: nats.ErrConnectionClosed on a closed connection, nil on one that is draining; where
  -- it fails on an open one, the connection is closed.
  drain_at : Connection → State → Option Error × State
  drain_at closed s = (some out.connection_closed, s)
  drain_at draining s = (none, s)
  drain_at live s = elim out.drain [
    | some e ↦ (some e, record s { connection = closed })
    | none ↦ (none, record s { connection = draining })
  ]

  unfoldable pub shutdown : State → Option Error × State
  unfolding stop unsubscribe drain_at
  shutdown s =
      let quiet = unsubscribe (stop s) in
      if quiet.conn then drain_at quiet.connection quiet else (none, quiet)

  -- The outcome of Start on a fresh receiver.
  abbrev pub Started : Config → Option (StartError Error) × State → Type 0
  Started cfg (some e, s) = is_open s.connection ≡ false
  Started cfg (none, s) =
      (is_open s.connection ≡ true)
      × (s.conn ≡ true)
      × (s.core_nats_sub ≡ is_empty cfg.stream)
      × (s.consume_ctx ≡ (if is_empty cfg.stream then false else true))

  -- A failing Start leaves no connection open. A succeeding one leaves it open with exactly one way
  -- of delivery: a core NATS subscription if no stream is configured, else a JetStream consumer.
  pub start_lem : (cfg : Config) → Started cfg (start cfg fresh)
  unfolding start
  start_lem cfg = ground arith

  abbrev failed : Option Error → Bool
  failed none = false
  failed (some e) = true

  -- The connection is closed or draining, no consumer delivers, and a subscription does only where
  -- it did and Unsubscribe failed.
  abbrev pub IsDown : State → State → Type 0
  IsDown s s' =
      (is_open s'.connection ≡ false)
      × (s'.consuming ≡ false)
      × (s'.subscribed ≡ (s.subscribed && failed out.unsubscribe))

  -- The outcome of Shutdown by the outcome of Start.
  abbrev pub Ended : Option (StartError Error) × State → Option Error × State → Type 0
  Ended (none, s) (err, s') = (err ≡ out.drain) × IsDown s s'
  Ended (some e, s) (err, s') = IsDown s s'

  -- What delivers is held by the receiver, and so is a connection that is open.
  abbrev IsHeld : State → Type 0
  IsHeld s =
      (s.consuming ≡ s.consume_ctx)
      × (s.subscribed ≡ s.core_nats_sub)
      × ((is_open s.connection && not s.conn) ≡ false)

  start-IsHeld : (cfg : Config) → IsHeld (start cfg fresh).1
  unfolding start
  start-IsHeld cfg = (ground arith, ground arith, ground arith)

  drain_at-IsDown :
      (c : Connection) (s : State)
      → s.connection ≡ c
      → (is_open (drain_at c s).1.connection ≡ false)
        × ((drain_at c s).1.consuming ≡ s.consuming)
        × ((drain_at c s).1.subscribed ≡ s.subscribed)
  unfolding drain_at
  drain_at-IsDown closed s h = (rw (h, is_open), refl, refl)
  drain_at-IsDown draining s h = (rw (h, is_open), refl, refl)
  drain_at-IsDown live s h = (ground arith, ground arith, ground arith)

  quiet_lem :
      (s : State)
      → IsHeld s
      → ((unsubscribe (stop s)).consuming ≡ false)
        × ((unsubscribe (stop s)).subscribed ≡ (s.subscribed && failed out.unsubscribe))
  unfolding stop unsubscribe
  quiet_lem s held = (ground arith, ground arith)

  shutdown_held :
      (s : State) → s.conn ≡ true → shutdown s ≡ drain_at s.connection (unsubscribe (stop s))
  unfolding shutdown
  shutdown_held s h = if_true s.conn _ _ h

  shutdown_unheld : (s : State) → s.conn ≡ false → shutdown s ≡ (none, unsubscribe (stop s))
  unfolding shutdown
  shutdown_unheld s h = if_false s.conn _ _ h

  shutdown-IsDown : (s : State) → IsHeld s → IsDown s (shutdown s).1
  unfolding stop unsubscribe
  shutdown-IsDown s (h₁, h₂, h₃) =
      let (consuming, subscribed) = quiet_lem s (h₁, h₂, h₃) in
      elim (Bool-cases s.conn) [
        | inl held ↦
            let (c, d, e) = drain_at-IsDown s.connection (unsubscribe (stop s)) refl in
            rw (shutdown_held s held) (c, d ∙ consuming, e ∙ subscribed)
        | inr not_held ↦ rw (shutdown_unheld s not_held) (ground arith, consuming, subscribed)
      ]

  drain_at-is_open : (c : Connection) (s : State) → is_open c ≡ true → (drain_at c s).0 ≡ out.drain
  unfolding drain_at
  drain_at-is_open closed s h = absurd (ground arith)
  drain_at-is_open draining s h = absurd (ground arith)
  drain_at-is_open live s h = ground arith

  shutdown_returns :
      (s : State) → s.conn ≡ true → is_open s.connection ≡ true → (shutdown s).0 ≡ out.drain
  shutdown_returns s held is_live =
      rw (shutdown_held s held) (drain_at-is_open s.connection (unsubscribe (stop s)) is_live)

  shutdown-Ended :
      (cfg : Config) (r : Option (StartError Error) × State)
      → Started cfg r
      → IsHeld r.1
      → Ended r (shutdown r.1)
  shutdown-Ended cfg (none, s) started held =
      (shutdown_returns s started.1 started.0, shutdown-IsDown s held)
  shutdown-Ended cfg (some e, s) started held = shutdown-IsDown s held

  -- Where Shutdown follows Start, failing or not, the connection is closed or draining, no consumer
  -- delivers, and a subscription does only if Start made it and Unsubscribe failed. After a Start
  -- that succeeded, Shutdown returns what Drain returns.
  pub shutdown-start : (cfg : Config) → Ended (start cfg fresh) (shutdown (start cfg fresh).1)
  shutdown-start cfg = shutdown-Ended cfg (start cfg fresh) (start_lem cfg) (start-IsHeld cfg)
