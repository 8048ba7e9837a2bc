-- ===== src/MobileWeb/Receiver.antt =====
-- `ReceiverSession` of apps/mobile-web/src/lib/receiver-session.ts: its state, its status and what it
-- opens and closes. Sockets, peer connections and handshakes are numbered as they are made.
pub mod Events
pub mod Run
pub mod Quiet
pub mod Epochs
pub mod Verified
use remotetab.Prelude.{
  ℕ, ◌+◌, ◌-◌, String, Bool, true, false, ◌||◌, Option, none, some, List, [], ◌∷◌, ltb, ◌==◌,
  if◌then◌else◌, ◌then_call◌, without,
}
use remotetab.Protocol.Messages.{Frame}
use remotetab.Protocol.Control.{ControlFrame}
use remotetab.Protocol.Control.Sender.{ControlSender}

pub data RemotePhase : Type 0 where
  idle connecting requesting signaling peer_connected authenticating active reconnecting ended :
      RemotePhase

pub data EndedReason : Type 0 where
  user error revoked : EndedReason

pub record RemoteStatus : Type 0 where
  pub phase : RemotePhase
  pub message : Option String
  pub ended_reason : Option EndedReason

-- `readyState` of the current socket.
pub data ReadyState : Type 0 where
  socket_connecting socket_open socket_closed : ReadyState

pub record ReceiverSession : Type 0 where
  pub socket : Option ℕ
  pub peer : Option ℕ
  pub session_id : Option String
  pub phase : RemotePhase
  pub ping_timer : Bool
  pub handshake : Option ℕ
  pub control_sender : Option ControlSender
  pub pending_offer_sdp : Option String
  pub reconnecting_since_ms : Option ℕ
  -- Outside the object: the sockets with handlers, the state of the current one, the reconnect
  -- timers that have not fired, and the next number.
  pub attached : List ℕ
  pub ready_state : ReadyState
  pub retry_timers : ℕ
  pub fresh : ℕ

-- What a call does to its surroundings.
pub data ReceiverAct (F : Type 0) : Type 0 where
  shows : RemoteStatus → ReceiverAct F
  opens_socket : (socket : ℕ) → ReceiverAct F
  sends : (socket : ℕ) → Frame → ReceiverAct F
  closes_socket : (socket code : ℕ) → ReceiverAct F
  fetches_turn : ReceiverAct F
  opens_peer : (peer : ℕ) → List String → ReceiverAct F
  closes_peer : (peer : ℕ) → ReceiverAct F
  accepts_offer : (peer : ℕ) → (sdp : String) → ReceiverAct F
  adds_candidate : (peer : ℕ) → (candidate : String) → ReceiverAct F
  reports_control : Bool → ReceiverAct F
  encodes : ControlFrame F → ReceiverAct F
  transmits : (peer : ℕ) → (text : String) → ReceiverAct F
  looks_up_desktop : (session_id : String) → ReceiverAct F
  starts_handshake : (handshake : ℕ) → (session_id : String) → ReceiverAct F
  passes_challenge : (handshake : ℕ) → (nonce : String) → ReceiverAct F
  passes_proof : (handshake : ℕ) → (signature : String) → ReceiverAct F
  syncs_viewport : (css_width css_height : ℕ) → F → ReceiverAct F
  signs_auth : (nonce : String) → ReceiverAct F

pub record ReceiverOptions : Type 0 where
  pub device_id : String
  pub display_name : String
  pub desktop_device_id : String
  pub ice_servers : List String
  pub turn_ice_servers : Bool
  pub reconnect_ttl_ms : ℕ

-- `isReconnectExpired(since, now, ttl)`.
unfoldable pub is_reconnect_expired : ℕ → ℕ → ℕ → Bool
is_reconnect_expired reconnecting_since_ms now_ms ttl_ms =
    ltb ttl_ms (now_ms - reconnecting_since_ms)

abbrev pub is_over : RemotePhase → Bool
is_over ended = true
is_over idle = true
is_over _ = false

-- `cleanup()` up to the closing of the peer.
unfoldable pub drop_session : ReceiverSession → ReceiverSession
drop_session s = record s {
  ping_timer = false;
  handshake = none;
  control_sender = none;
  pending_offer_sdp = none;
  reconnecting_since_ms = none;
}

abbrev pub since : ReceiverSession → ℕ → ℕ
since s now_ms = elim s.reconnecting_since_ms [ none ↦ now_ms | some t ↦ t ]

module _ {F : Type 0} where
  -- `setStatus(phase, message, endedReason)`.
  unfoldable pub set_status :
      RemotePhase
      → Option String
      → Option EndedReason
      → ReceiverSession
      → ReceiverSession × List (ReceiverAct F)
  set_status phase message reason s = (
    record s { phase = phase },
    shows (record { phase = phase; message = message; ended_reason = reason }) ∷ [],
  )

  -- `connect()`.
  unfoldable pub connect : ReceiverSession → ReceiverSession × List (ReceiverAct F)
  unfolding set_status
  connect s = elim s.socket [
    | some n ↦ (s, [])
    | none ↦ set_status connecting none none s then_call (λ t. (
      record t {
        socket = some t.fresh;
        attached = t.fresh ∷ t.attached;
        ready_state = socket_connecting;
        fresh = t.fresh + 1;
      },
      opens_socket t.fresh ∷ [],
    ))
  ]

  -- `closePeer()`.
  unfoldable pub close_peer : ReceiverSession → ReceiverSession × List (ReceiverAct F)
  close_peer s = elim s.peer [
    | none ↦ (s, [])
    | some p ↦ (record s { peer = none }, reports_control false ∷ closes_peer p ∷ [])
  ]

  -- `socket.close(code)`, where the socket is open or on its way.
  unfoldable pub close_if_open : ReadyState → ℕ → ℕ → List (ReceiverAct F)
  close_if_open socket_closed n code = []
  close_if_open _ n code = closes_socket n code ∷ []

  -- `cleanup()` from there on.
  unfoldable pub drop_socket : ReceiverSession → ReceiverSession × List (ReceiverAct F)
  unfolding close_if_open without
  drop_socket s = elim s.socket [
    | none ↦ (record s { session_id = none }, [])
    | some n ↦ (
      record s { session_id = none; socket = none; attached = without n s.attached },
      close_if_open s.ready_state n 1000,
    )
  ]

  -- `cleanup()`.
  unfoldable pub cleanup : ReceiverSession → ReceiverSession × List (ReceiverAct F)
  unfolding drop_session close_peer drop_socket
  cleanup s = close_peer (drop_session s) then_call drop_socket

  -- `disconnect()`.
  unfoldable pub disconnect : ReceiverSession → ReceiverSession × List (ReceiverAct F)
  unfolding set_status cleanup
  disconnect s = set_status ended (some "Disconnected.") none s then_call cleanup

  -- A status that ends the session, and `cleanup()`.
  unfoldable pub end_session :
      String → EndedReason → ReceiverSession → ReceiverSession × List (ReceiverAct F)
  unfolding set_status cleanup
  end_session message reason s = set_status ended (some message) (some reason) s then_call cleanup

  -- The end of `handleSocketLost()`: a new peer and session on every reconnect.
  unfoldable pub forget_socket : ReceiverSession → ReceiverSession × List (ReceiverAct F)
  forget_socket s = (
    record s {
      socket = none;
      retry_timers = if is_over s.phase then s.retry_timers else s.retry_timers + 1;
    },
    [],
  )

  unfoldable pub let_go : ReceiverSession → ReceiverSession × List (ReceiverAct F)
  unfolding close_peer forget_socket
  let_go s = close_peer s then_call forget_socket

  -- `handleSocketLost()`.
  unfoldable pub handle_socket_lost :
      ReceiverOptions → ℕ → ReceiverSession → ReceiverSession × List (ReceiverAct F)
  unfolding is_reconnect_expired end_session set_status let_go
  handle_socket_lost opts now_ms s =
      let s' = record s { ping_timer = false } in
      if is_over s'.phase
      then let_go s'
      else if is_reconnect_expired (since s' now_ms) now_ms opts.reconnect_ttl_ms
      then end_session "Could not reconnect within the time window. Connect again." error
          (record s' { reconnecting_since_ms = some (since s' now_ms) })
      else set_status reconnecting (some "Reconnecting securely…") none
          (record s' { reconnecting_since_ms = some (since s' now_ms) })
        then_call let_go

  -- The callback of a reconnect timer, by the phase.
  unfoldable pub retry_in : RemotePhase → ReceiverSession → ReceiverSession × List (ReceiverAct F)
  unfolding connect
  retry_in reconnecting s = connect s
  retry_in _ s = (s, [])

  unfoldable pub retry_due : ReceiverSession → ReceiverSession × List (ReceiverAct F)
  unfolding retry_in
  retry_due s = retry_in s.phase s

  -- The end of `recoverFromPeerFailure()`: the socket's `onclose` follows, or is driven here.
  unfoldable pub recycle :
      Option ℕ
      → ReadyState
      → ReceiverOptions
      → ℕ
      → ReceiverSession
      → ReceiverSession × List (ReceiverAct F)
  unfolding handle_socket_lost
  recycle none state opts now_ms s = handle_socket_lost opts now_ms s
  recycle (some n) socket_closed opts now_ms s = handle_socket_lost opts now_ms s
  recycle (some n) _ opts now_ms s = (s, closes_socket n 4000 ∷ [])

  -- `recoverFromPeerFailure()`.
  unfoldable pub recover_from_peer_failure :
      ReceiverOptions → ℕ → ReceiverSession → ReceiverSession × List (ReceiverAct F)
  unfolding set_status close_peer recycle
  recover_from_peer_failure opts now_ms s =
      if is_over s.phase
      then (s, [])
      else set_status reconnecting (some "Stream failed. Reconnecting securely…") none s
        then_call close_peer
        then_call (λ t. recycle t.socket t.ready_state opts now_ms t)

-- A new session.
abbrev pub new_receiver : ReceiverSession
new_receiver = record {
  socket = none;
  peer = none;
  session_id = none;
  phase = idle;
  ping_timer = false;
  handshake = none;
  control_sender = none;
  pending_offer_sdp = none;
  reconnecting_since_ms = none;
  attached = [];
  ready_state = socket_closed;
  retry_timers = 0;
  fresh = 0;
}
