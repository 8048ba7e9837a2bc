-- ===== src/MobileWeb/Receiver/Run.antt =====
-- `ReceiverSession` of apps/mobile-web/src/lib/receiver-session.ts: its encoders, and whole runs.
use remotetab.Prelude.{
  ℕ, zero, suc, String, true, false, none, some, List, [], ◌∷◌, if◌then◌else◌, ◌then_call◌, among,
  without, ◌++◌,
}
use remotetab.Protocol.Errors.{ParseResult, ok, err}
use remotetab.Protocol.Control.{ControlFrame}
use remotetab.Protocol.Messages as M
use remotetab.Protocol.Messages.{phone}
use remotetab.Protocol.Control.Wire.{Wire, decode_control_frame}
use remotetab.Protocol.Control.Sender.{ControlSender, SenderCall, Emission, emitted, thrown, emit}
use remotetab.MobileWeb.Receiver.{
  reconnecting, ReceiverSession, ReceiverAct, sends, reports_control, encodes, transmits,
  ReceiverOptions, connect, disconnect, set_status, handle_socket_lost, retry_due,
}
use remotetab.MobileWeb.Receiver.Events.{
  Candidate, ReceiverEvent, connects, disconnects, turns, opened, received, lost, retries, pings,
  changes, opens_control, closes_control, hears, gathers, fetched, answered, looked_up, judged,
  times_out, signed, asks, hands, asks_and_hands, text_or_empty, is_peer, send, resume_answer,
  resume_open_peer, on_frame, on_state, begin_peer_auth, resume_peer_auth, on_outcome, on_control,
  send_control,
}

module _ {F J : Type 0} (w : Wire F J) where
  -- A method of the sender, and what becomes of its text.
  unfoldable pub use_sender :
      ControlSender × Emission F
      → (String → List (ReceiverAct F))
      → ReceiverSession
      → ReceiverSession × List (ReceiverAct F)
  use_sender (c, emitted frame text) go s =
      (record s { control_sender = some c }, encodes frame ∷ go text)
  use_sender (c, thrown code) go s = (record s { control_sender = some c }, [])

  -- `encodeWith(build)`.
  unfoldable pub encode_with :
      ℕ → SenderCall F → ReceiverSession → ReceiverSession × List (ReceiverAct F)
  unfolding use_sender
  encode_with now_ms call s = elim s.control_sender [
    | none ↦ (s, [])
    | some c ↦ use_sender (emit w now_ms c call) (λ text. []) s
  ]

  -- `sendControlFrame(build)`: nothing is built without a peer connection.
  unfoldable pub send_control_frame :
      ℕ → SenderCall F → ReceiverSession → ReceiverSession × List (ReceiverAct F)
  unfolding use_sender
  send_control_frame now_ms call s = elim s.control_sender [
    | none ↦ (s, [])
    | some c ↦ elim s.peer [
      | none ↦ (s, [])
      | some p ↦ use_sender (emit w now_ms c call) (λ text. transmits p text ∷ []) s
    ]
  ]

  -- `onControlFrame(raw)`, by what the decoder makes of it.
  unfoldable pub on_decoded :
      ParseResult (ControlFrame F) → ReceiverSession → ReceiverSession × List (ReceiverAct F)
  unfolding on_control
  on_decoded (err code reason) s = (s, [])
  on_decoded (ok frame) s = on_control frame.message s

  unfoldable pub on_control_frame :
      String → ReceiverSession → ReceiverSession × List (ReceiverAct F)
  unfolding on_decoded
  on_control_frame raw s = on_decoded (decode_control_frame w raw) s

  -- One of the reconnect timers fires.
  unfoldable pub use_timer : ℕ → ReceiverSession → ReceiverSession × List (ReceiverAct F)
  unfolding retry_due
  use_timer zero s = (s, [])
  use_timer (suc k) s = retry_due (record s { retry_timers = k })

  -- What the handler of `icecandidate` does.
  unfoldable pub on_candidate : Candidate → ReceiverSession → ReceiverSession × List (ReceiverAct F)
  unfolding send
  on_candidate c s = elim s.session_id [
    | none ↦ (s, [])
    | some id ↦
        send
          (M.signal_ice (record {
            session_id = id;
            candidate = text_or_empty c.candidate;
            sdp_mid = c.sdp_mid;
            sdp_m_line_index = c.sdp_m_line_index;
            username_fragment = c.username_fragment;
          }))
          s
  ]

  unfoldable pub handle :
      ReceiverOptions → ReceiverSession → ReceiverEvent F → ReceiverSession × List (ReceiverAct F)
  unfolding connect disconnect send on_frame handle_socket_lost use_timer on_state begin_peer_auth
      on_control_frame on_candidate resume_open_peer resume_answer resume_peer_auth on_outcome
      set_status encode_with send_control send_control_frame
  handle opts s connects = connect s
  handle opts s disconnects = disconnect s
  handle opts s (turns state) = (record s { ready_state = state }, [])
  handle opts s (opened n) =
      if among n s.attached
      then (
        s,
        sends n (
              M.signaling_frame
                (M.hello (record {
                  role = phone;
                  device_id = opts.device_id;
                  display_name = some opts.display_name;
                }))
                none)
            ∷ [],
      )
      else (s, [])
  handle opts s (received n frame) = if among n s.attached then on_frame opts n frame s else (s, [])
  handle opts s (lost n now_ms) =
      if among n s.attached
      then handle_socket_lost opts now_ms (record s { attached = without n s.attached })
      else (s, [])
  handle opts s retries = use_timer s.retry_timers s
  handle opts s (pings ts) = if s.ping_timer then send (M.presence_ping ts) s else (s, [])
  handle opts s (changes p state now_ms) =
      if is_peer s.peer p then on_state opts state now_ms s else (s, [])
  handle opts s (opens_control p) =
      if is_peer s.peer p then (s, reports_control true ∷ []) then_call begin_peer_auth else (s, [])
  handle opts s (closes_control p) =
      (s, if is_peer s.peer p then reports_control false ∷ [] else [])
  handle opts s (hears p raw) = if is_peer s.peer p then on_control_frame raw s else (s, [])
  handle opts s (gathers p c) = if is_peer s.peer p then on_candidate c s else (s, [])
  handle opts s (fetched none) = resume_open_peer opts.ice_servers s
  handle opts s (fetched (some turn)) = resume_open_peer (opts.ice_servers ++ turn) s
  handle opts s (answered sdp) = resume_answer sdp s
  handle opts s (looked_up id found) = resume_peer_auth id found s
  handle opts s (judged outcome) = on_outcome outcome s
  handle opts s times_out =
      set_status reconnecting (some "Peer verification timed out. Retrying…") none s
  handle opts s (signed none) = (s, [])
  handle opts s (signed (some proof)) = send (M.auth_proof proof) s
  handle opts s (asks now_ms call) = encode_with now_ms call s
  handle opts s (hands text) = send_control text s
  handle opts s (asks_and_hands now_ms call) = send_control_frame now_ms call s

  unfoldable pub run :
      ReceiverOptions
      → ReceiverSession
      → List (ReceiverEvent F)
      → ReceiverSession × List (ReceiverAct F)
  unfolding handle
  run opts s [] = (s, [])
  run opts s (e ∷ es) = handle opts s e then_call (λ t. run opts t es)
