-- ===== src/MobileWeb/Receiver/Events.antt =====
-- `ReceiverSession` of apps/mobile-web/src/lib/receiver-session.ts: what comes to it. What a promise
-- or a timer of the session comes to is an event, which may come at any time; the handlers of a
-- peer connection are taken off when it is closed, so only the current one has any. The request ids
-- of frames are left out.
use Prim.Native.String
use remotetab.Prelude.{
  ℕ, ◌+◌, String, Bool, true, false, not, ◌&&◌, Option, none, some, List, [], ◌∷◌, ◌==◌, str_eq,
  if◌then◌else◌, ◌then_call◌,
}
use remotetab.Protocol.Errors.{
  ErrorCode, code_name, device_revoked, connection_lost, session_not_found,
}
use remotetab.Protocol.Messages as M
use remotetab.Protocol.Messages.{
  Frame, SignalingMessage, CloseReason, Ice, AuthProof, signaling_frame, phone,
}
use remotetab.Protocol.Control.{ControlMessage, peer_challenge, peer_proof, viewport_sync}
use remotetab.Protocol.Control.Sender.{SenderCall}
use remotetab.Crypto.PeerAuth.Handshake.{HandshakeOutcome, verified, failed, pending}
use remotetab.MobileWeb.Receiver.{
  requesting, signaling, peer_connected, authenticating, active, reconnecting, error, revoked, user,
  ReadyState, socket_open, ReceiverSession, ReceiverAct, shows, sends, closes_socket, fetches_turn,
  opens_peer, accepts_offer, adds_candidate, transmits, looks_up_desktop, starts_handshake,
  passes_challenge, passes_proof, syncs_viewport, signs_auth, ReceiverOptions, set_status,
  close_peer, end_session, recover_from_peer_failure,
}

-- `RTCIceCandidateInit`, and the states of a peer connection that matter.
pub record Candidate : Type 0 where
  pub candidate : Option String
  pub sdp_mid : Option String
  pub sdp_m_line_index : Option ℕ
  pub username_fragment : Option String

pub data PeerState : Type 0 where
  peer_is_connected peer_has_failed peer_in_between : PeerState

pub data ReceiverEvent (F : Type 0) : Type 0 where
  connects disconnects : ReceiverEvent F
  -- The socket, and its `readyState`.
  turns : ReadyState → ReceiverEvent F
  opened : (socket : ℕ) → ReceiverEvent F
  received : (socket : ℕ) → Option Frame → ReceiverEvent F
  lost : (socket now_ms : ℕ) → ReceiverEvent F
  -- The timers.
  retries : ReceiverEvent F
  pings : (ts : ℕ) → ReceiverEvent F
  -- The peer connection.
  changes : (peer : ℕ) → PeerState → (now_ms : ℕ) → ReceiverEvent F
  opens_control closes_control : (peer : ℕ) → ReceiverEvent F
  hears : (peer : ℕ) → (raw : String) → ReceiverEvent F
  gathers : (peer : ℕ) → Candidate → ReceiverEvent F
  -- What is awaited: TURN servers, an answer, the paired desktop, a verdict, a signature.
  fetched : Option (List String) → ReceiverEvent F
  answered : Option String → ReceiverEvent F
  looked_up : (session_id : String) → (found : Bool) → ReceiverEvent F
  judged : HandshakeOutcome → ReceiverEvent F
  times_out : ReceiverEvent F
  signed : Option AuthProof → ReceiverEvent F
  -- Callers: an encoder, `sendControl` and `sendControlFrame`.
  asks : (now_ms : ℕ) → SenderCall F → ReceiverEvent F
  hands : (text : String) → ReceiverEvent F
  asks_and_hands : (now_ms : ℕ) → SenderCall F → ReceiverEvent F

abbrev pub text_or_empty : Option String → String
text_or_empty none = ""
text_or_empty (some s) = s

abbrev pub is_current : Option String → String → Bool
is_current none id = false
is_current (some current) id = str_eq id current

abbrev pub is_peer : Option ℕ → ℕ → Bool
is_peer none p = false
is_peer (some q) p = p == q

module _ {F : Type 0} where
  -- `send(frame)`.
  unfoldable pub send : SignalingMessage → ReceiverSession → ReceiverSession × List (ReceiverAct F)
  send m s = elim s.socket [
    | none ↦ (s, [])
    | some n ↦ elim s.ready_state [
      | socket_open ↦ (s, sends n (signaling_frame m none) ∷ [])
      | _ ↦ (s, [])
    ]
  ]

  -- `acceptOfferNow(sdp)` up to its await, and behind it.
  unfoldable pub accept_offer_now :
      String → ReceiverSession → ReceiverSession × List (ReceiverAct F)
  accept_offer_now sdp s = elim s.peer [ none ↦ (s, []) | some p ↦ (s, accepts_offer p sdp ∷ []) ]

  unfoldable pub resume_answer :
      Option String → ReceiverSession → ReceiverSession × List (ReceiverAct F)
  unfolding send set_status
  resume_answer none s =
      set_status reconnecting (some "Could not start the stream. Retrying…") none s
  resume_answer (some sdp) s = send (M.signal_answer (text_or_empty s.session_id) sdp) s

  -- `openPeer(iceServers)`.
  unfoldable pub make_peer : List String → ReceiverSession → ReceiverSession × List (ReceiverAct F)
  make_peer servers s =
      (record s { peer = some s.fresh; fresh = s.fresh + 1 }, opens_peer s.fresh servers ∷ [])

  unfoldable pub open_peer : List String → ReceiverSession → ReceiverSession × List (ReceiverAct F)
  unfolding close_peer make_peer
  open_peer servers s = close_peer s then_call make_peer servers

  -- An offer that was held is answered.
  unfoldable pub answer_pending :
      Option String → ReceiverSession → ReceiverSession × List (ReceiverAct F)
  unfolding accept_offer_now
  answer_pending none s = (record s { pending_offer_sdp = none }, [])
  answer_pending (some sdp) s = accept_offer_now sdp (record s { pending_offer_sdp = none })

  -- `openPeerWithTurn()` behind the fetch.
  unfoldable pub resume_open_peer :
      List String → ReceiverSession → ReceiverSession × List (ReceiverAct F)
  unfolding open_peer answer_pending
  resume_open_peer servers s =
      open_peer servers s then_call (λ t. answer_pending t.pending_offer_sdp t)

  -- `openPeerWithTurn()` up to the fetch, which there is only with TURN.
  unfoldable pub open_peer_with_turn :
      ReceiverOptions → ReceiverSession → ReceiverSession × List (ReceiverAct F)
  unfolding resume_open_peer
  open_peer_with_turn opts s =
      if opts.turn_ice_servers then (s, fetches_turn ∷ []) else resume_open_peer opts.ice_servers s

  -- The case 'session.accepted': a new epoch.
  unfoldable pub on_accepted :
      ReceiverOptions → String → ReceiverSession → ReceiverSession × List (ReceiverAct F)
  unfolding set_status open_peer_with_turn
  on_accepted opts id s =
      set_status signaling none none (record s {
        reconnecting_since_ms = none;
        session_id = some id;
        control_sender = some (record { session_id = id; seq = 0 });
      })
      then_call open_peer_with_turn opts

  -- The case 'session.rejected'.
  unfoldable pub on_rejected : ErrorCode → ReceiverSession → ReceiverSession × List (ReceiverAct F)
  unfolding end_session
  on_rejected device_revoked s =
      end_session "This computer revoked this device. Pair again from the laptop." revoked s
  on_rejected code s =
      end_session
        (String.◌++◌ "The laptop rejected the session (" (String.◌++◌ (code_name code) ").")) error
        s

  -- The case 'session.close' of the current session.
  unfoldable pub on_closed : CloseReason → ReceiverSession → ReceiverSession × List (ReceiverAct F)
  unfolding end_session
  on_closed M.revoked s = end_session "This device was revoked by the laptop." revoked s
  on_closed _ s = end_session "Remote session ended on laptop." user s

  -- The case 'error'.
  unfoldable pub on_error : ErrorCode → ReceiverSession → ReceiverSession × List (ReceiverAct F)
  unfolding set_status
  on_error connection_lost s = set_status reconnecting (some "Reconnecting securely…") none s
  on_error session_not_found s = set_status reconnecting (some "Reconnecting securely…") none s
  on_error _ s = (s, [])

  -- The cases 'signal.offer' and 'signal.ice'.
  unfoldable pub on_offer :
      String → String → ReceiverSession → ReceiverSession × List (ReceiverAct F)
  unfolding accept_offer_now
  on_offer id sdp s =
      if is_current s.session_id id
      then elim s.peer [
        | none ↦ (record s { pending_offer_sdp = some sdp }, [])
        | some p ↦ accept_offer_now sdp s
      ]
      else (s, [])

  unfoldable pub on_ice : Ice → ReceiverSession → ReceiverSession × List (ReceiverAct F)
  on_ice ice s =
      if is_current s.session_id ice.session_id && not (str_eq ice.candidate "")
      then elim s.peer [ none ↦ (s, []) | some p ↦ (s, adds_candidate p ice.candidate ∷ []) ]
      else (s, [])

  unfoldable pub start_pings : ReceiverSession → ReceiverSession × List (ReceiverAct F)
  start_pings s = (record s { ping_timer = true }, [])

  -- `onFrame(raw)` behind the decoding.
  unfoldable pub on_message :
      ReceiverOptions → SignalingMessage → ReceiverSession → ReceiverSession × List (ReceiverAct F)
  unfolding set_status send start_pings on_accepted on_rejected on_offer on_ice on_closed on_error
  on_message opts (M.hello_ok interval_sec timeout_sec) s =
      set_status requesting none none s
      then_call start_pings
      then_call send (
          M.session_request
            (record { device_id = opts.device_id; desktop_device_id = opts.desktop_device_id }))
  on_message opts (M.session_accepted a) s = on_accepted opts a.session_id s
  on_message opts (M.session_rejected code) s = on_rejected code s
  on_message opts (M.signal_offer id sdp) s = on_offer id sdp s
  on_message opts (M.signal_ice ice) s = on_ice ice s
  on_message opts (M.auth_challenge nonce) s = (s, signs_auth nonce ∷ [])
  on_message opts (M.session_close id reason) s =
      if is_current s.session_id id then on_closed reason s else (s, [])
  on_message opts (M.error code message) s = on_error code s
  on_message opts _ s = (s, [])

  unfoldable pub on_frame :
      ReceiverOptions → ℕ → Option Frame → ReceiverSession → ReceiverSession × List (ReceiverAct F)
  unfolding on_message
  on_frame opts n none s = (s, elim s.socket [ none ↦ [] | some m ↦ closes_socket m 1002 ∷ [] ])
  on_frame opts n (some frame) s = on_message opts frame.message s

  -- `connectionstate`.
  unfoldable pub on_state :
      ReceiverOptions → PeerState → ℕ → ReceiverSession → ReceiverSession × List (ReceiverAct F)
  unfolding set_status recover_from_peer_failure
  on_state opts peer_is_connected now_ms s = set_status peer_connected none none s
  on_state opts peer_has_failed now_ms s = recover_from_peer_failure opts now_ms s
  on_state opts peer_in_between now_ms s = (s, [])

  -- `beginPeerAuth()` up to the look-up, and behind it.
  unfoldable pub begin_peer_auth : ReceiverSession → ReceiverSession × List (ReceiverAct F)
  begin_peer_auth s = elim s.session_id [ none ↦ (s, []) | some id ↦ (s, looks_up_desktop id ∷ []) ]

  unfoldable pub resume_peer_auth :
      String → Bool → ReceiverSession → ReceiverSession × List (ReceiverAct F)
  unfolding end_session set_status
  resume_peer_auth id false s =
      end_session "This laptop is not paired with this phone. Pair again via QR." error s
  resume_peer_auth id true s = (
    record s { handshake = some s.fresh; phase = authenticating; fresh = s.fresh + 1 },
    shows (record { phase = authenticating; message = none; ended_reason = none })
        ∷ starts_handshake s.fresh id
        ∷ [],
  )

  -- The outcome of `onProof`.
  unfoldable pub on_outcome :
      HandshakeOutcome → ReceiverSession → ReceiverSession × List (ReceiverAct F)
  unfolding set_status
  on_outcome verified s = set_status active none none s
  on_outcome failed s = set_status reconnecting (some "Peer verification failed.") none s
  on_outcome pending s = (s, [])

  -- `onControlFrame(raw)` behind the decoding.
  unfoldable pub on_control :
      ControlMessage F → ReceiverSession → ReceiverSession × List (ReceiverAct F)
  on_control (peer_challenge nonce id) s =
      (s, elim s.handshake [ none ↦ [] | some h ↦ passes_challenge h nonce ∷ [] ])
  on_control (peer_proof device_id fingerprint signature) s =
      (s, elim s.handshake [ none ↦ [] | some h ↦ passes_proof h signature ∷ [] ])
  on_control (viewport_sync w h f) s = (s, syncs_viewport w h f ∷ [])
  on_control _ s = (s, [])

  -- `sendControl(text)`.
  unfoldable pub send_control : String → ReceiverSession → ReceiverSession × List (ReceiverAct F)
  send_control text s = elim s.peer [ none ↦ (s, []) | some p ↦ (s, transmits p text ∷ []) ]
