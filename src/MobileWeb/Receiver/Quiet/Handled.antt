-- ===== src/MobileWeb/Receiver/Quiet/Handled.antt =====
-- apps/mobile-web/src/lib/receiver-session.ts: the events that encode nothing.
use remotetab.Prelude.{
  ℕ, zero, suc, ◌≡◌, refl, inl, String, Bool, true, false, Option, none, some, [], ◌∷◌, ◌++◌, arith,
  among, without,
}
use remotetab.Protocol.Errors.{ParseResult, ok, err}
use remotetab.Protocol.Control.{ControlFrame}
use remotetab.Crypto.PeerAuth.Handshake.{verified, failed, pending}
use remotetab.Protocol.Control.Wire.{Wire, decode_control_frame}
use remotetab.MobileWeb.Receiver.{
  reconnecting, ReceiverSession, ReceiverOptions, handle_socket_lost, retry_due, reports_control,
}
use remotetab.MobileWeb.Receiver.Events.{
  Candidate, is_peer, ReceiverEvent, connects, disconnects, turns, opened, received, lost, retries,
  pings, changes, opens_control, closes_control, hears, gathers, fetched, answered, looked_up,
  judged, times_out, signed, asks, hands, asks_and_hands, send, open_peer_with_turn, on_frame,
  begin_peer_auth,
}
use remotetab.MobileWeb.Receiver.Run.{on_decoded, use_timer, on_control_frame, on_candidate, handle}
use remotetab.MobileWeb.Receiver.Quiet.{
  encoded, Keeps, Keeps-then_call, set_status-Keeps, connect-Keeps, Keeps-from, disconnect-Keeps,
  if-Keeps, same-Keeps, quiet-Keeps, handle_socket_lost-Keeps, retry_due-Keeps,
}
use remotetab.MobileWeb.Receiver.Quiet.Answers.{
  opened_session, send-Keeps, resume_open_peer-Keeps, on_message-Keeps, on_state-Keeps,
  resume_peer_auth-Keeps, on_outcome-Keeps, on_control-Keeps, send_control-Keeps,
  resume_answer-Keeps, begin_peer_auth-Keeps,
}

module _ {F J : Type 0} (w : Wire F J) where
  on_decoded-Keeps :
      (r : ParseResult (ControlFrame F)) (s : ReceiverSession) → Keeps {F = F} s (on_decoded w r s)
  unfolding on_decoded
  on_decoded-Keeps (err code reason) s = same-Keeps s s refl refl
  on_decoded-Keeps (ok frame) s = on_control-Keeps frame.message s

  on_control_frame-Keeps :
      (raw : String) (s : ReceiverSession) → Keeps {F = F} s (on_control_frame w raw s)
  unfolding on_control_frame
  on_control_frame-Keeps raw s = on_decoded-Keeps (decode_control_frame w raw) s

  use_timer-Keeps : (k : ℕ) (s : ReceiverSession) → Keeps {F = F} s (use_timer w k s)
  unfolding use_timer
  use_timer-Keeps zero s = same-Keeps s s refl refl
  use_timer-Keeps (suc k) s =
      let t : ReceiverSession = record s { retry_timers = k } in
      Keeps-from s t (retry_due t) (inl refl) refl (retry_due-Keeps t)

  on_candidate-Keeps : (c : Candidate) (s : ReceiverSession) → Keeps {F = F} s (on_candidate w c s)
  unfolding on_candidate send encoded
  on_candidate-Keeps c s = record {
    sender = inl (ground arith);
    silent = ground arith;
    calm = ground arith;
  }

  -- The session that an event opens, and whether it asks for a frame or verifies the peer.
  unfoldable pub starts : ReceiverEvent F → Option String
  unfolding opened_session
  starts (received n (some frame)) = opened_session frame.message
  starts _ = none

  unfoldable pub stands_out : ReceiverEvent F → Bool
  stands_out (asks now_ms call) = true
  stands_out (asks_and_hands now_ms call) = true
  stands_out (judged verified) = true
  stands_out _ = false

  pub handle-Keeps :
      (opts : ReceiverOptions) (s : ReceiverSession) (e : ReceiverEvent F)
      → starts e ≡ none
      → stands_out e ≡ false
      → Keeps {F = F} s (handle w opts s e)
  unfolding handle starts stands_out encoded on_frame
  handle-Keeps opts s connects h k = connect-Keeps s
  handle-Keeps opts s disconnects h k = disconnect-Keeps s
  handle-Keeps opts s (turns state) h k = same-Keeps s _ refl refl
  handle-Keeps opts s (opened n) h k =
      if-Keeps (among n s.attached) s _ (s, []) (quiet-Keeps s refl) (same-Keeps s s refl refl)
  handle-Keeps opts s (received n none) h k =
      if-Keeps (among n s.attached) s _ (s, []) (quiet-Keeps s (ground arith))
        (same-Keeps s s refl refl)
  handle-Keeps opts s (received n (some frame)) h k =
      if-Keeps (among n s.attached) s _ (s, []) (on_message-Keeps opts frame.message s h)
        (same-Keeps s s refl refl)
  handle-Keeps opts s (lost n now_ms) h k =
      let t : ReceiverSession = record s { attached = without n s.attached } in
      if-Keeps (among n s.attached) s (handle_socket_lost opts now_ms t) (s, [])
        (Keeps-from s t _ (inl refl) refl (handle_socket_lost-Keeps opts now_ms t))
        (same-Keeps s s refl refl)
  handle-Keeps opts s retries h k = use_timer-Keeps s.retry_timers s
  handle-Keeps opts s (pings ts) h k =
      if-Keeps s.ping_timer s _ (s, []) (send-Keeps _ s) (same-Keeps s s refl refl)
  handle-Keeps opts s (changes p state now_ms) h k =
      if-Keeps (is_peer s.peer p) s _ (s, []) (on_state-Keeps opts state now_ms s)
        (same-Keeps s s refl refl)
  handle-Keeps opts s (opens_control p) h k =
      if-Keeps (is_peer s.peer p) s _ (s, [])
        (Keeps-then_call s (s, reports_control true ∷ []) begin_peer_auth (quiet-Keeps s refl)
          begin_peer_auth-Keeps)
        (same-Keeps s s refl refl)
  handle-Keeps opts s (closes_control p) h k = quiet-Keeps s (ground arith)
  handle-Keeps opts s (hears p raw) h k =
      if-Keeps (is_peer s.peer p) s _ (s, []) (on_control_frame-Keeps raw s)
        (same-Keeps s s refl refl)
  handle-Keeps opts s (gathers p c) h k =
      if-Keeps (is_peer s.peer p) s _ (s, []) (on_candidate-Keeps c s) (same-Keeps s s refl refl)
  handle-Keeps opts s (fetched none) h k = resume_open_peer-Keeps opts.ice_servers s
  handle-Keeps opts s (fetched (some turn)) h k =
      resume_open_peer-Keeps (opts.ice_servers ++ turn) s
  handle-Keeps opts s (answered sdp) h k = resume_answer-Keeps sdp s
  handle-Keeps opts s (looked_up id found) h k = resume_peer_auth-Keeps id found s
  handle-Keeps opts s (judged verified) h k = absurd (cc)
  handle-Keeps opts s (judged failed) h k = on_outcome-Keeps failed s (λ e. cc)
  handle-Keeps opts s (judged pending) h k = on_outcome-Keeps pending s (λ e. cc)
  handle-Keeps opts s times_out h k = set_status-Keeps reconnecting _ none s (λ e. cc)
  handle-Keeps opts s (signed none) h k = same-Keeps s s refl refl
  handle-Keeps opts s (signed (some proof)) h k = send-Keeps _ s
  handle-Keeps opts s (asks now_ms call) h k = absurd (cc)
  handle-Keeps opts s (hands text) h k = send_control-Keeps text s
  handle-Keeps opts s (asks_and_hands now_ms call) h k = absurd (cc)

  pub open_peer_with_turn-Keeps :
      (opts : ReceiverOptions) (s : ReceiverSession) → Keeps {F = F} s (open_peer_with_turn opts s)
  unfolding open_peer_with_turn encoded
  open_peer_with_turn-Keeps opts s =
      if-Keeps opts.turn_ice_servers s _ _ (quiet-Keeps s refl)
        (resume_open_peer-Keeps opts.ice_servers s)
