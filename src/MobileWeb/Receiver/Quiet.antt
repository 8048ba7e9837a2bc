-- ===== src/MobileWeb/Receiver/Quiet.antt =====
-- apps/mobile-web/src/lib/receiver-session.ts: the calls that encode nothing.
pub mod Answers
pub mod Handled
use remotetab.Prelude.{
  ◌≢◌, ℕ, zero, suc, ◌+◌, ◌≤◌, ◌≡◌, refl, sym, ap, ◌∙◌, ◌⊎◌, inl, inr, String, Bool, true, false,
  Option, none, some, List, [], ◌∷◌, ◌++◌, map, arith, length, ltb, Bool-cases, Option-cases,
  if◌then◌else◌, ◌then_call◌, among, without,
}
use remotetab.Protocol.Errors.{
  ErrorCode, ParseResult, ok, err, max_control_frame_bytes, device_revoked, connection_lost,
  session_not_found,
}
use remotetab.Protocol.Messages as M
use remotetab.Protocol.Messages.{Frame, SignalingMessage}
use remotetab.Protocol.Control.{
  ControlFrame, ControlMessage, peer_challenge, peer_proof, viewport_sync,
}
use remotetab.Crypto.PeerAuth.Handshake.{HandshakeOutcome, verified, failed, pending}
use remotetab.Protocol.Control.Wire.{Wire, decode_control_frame}
use remotetab.Protocol.Control.Sender.{ControlSender, SenderCall, Emission, emitted, thrown, emit}
use remotetab.MobileWeb.Receiver.{
  RemotePhase, idle, connecting, requesting, signaling, peer_connected, authenticating, active,
  reconnecting, ended, EndedReason, ReadyState, socket_open, socket_connecting, socket_closed,
  ReceiverSession, ReceiverAct, encodes, transmits, ReceiverOptions, connect, disconnect,
  set_status, close_peer, cleanup, drop_session, drop_socket, end_session, let_go,
  is_reconnect_expired, close_if_open, handle_socket_lost, retry_due, recover_from_peer_failure,
  forget_socket, retry_in, recycle, is_over, since, error, reports_control, new_receiver,
}
use remotetab.MobileWeb.Receiver.Events.{
  Candidate, is_peer, PeerState, peer_is_connected, peer_has_failed, peer_in_between, ReceiverEvent,
  connects, disconnects, turns, opened, received, lost, retries, pings, changes, opens_control,
  closes_control, hears, gathers, fetched, answered, looked_up, judged, times_out, signed, asks,
  hands, asks_and_hands, send, resume_answer, accept_offer_now, open_peer, make_peer,
  answer_pending, start_pings, resume_open_peer, open_peer_with_turn, on_accepted, on_rejected,
  on_closed, on_error, on_offer, on_ice, on_message, on_frame, on_state, begin_peer_auth,
  resume_peer_auth, on_outcome, on_control, send_control,
}
use remotetab.MobileWeb.Receiver.Run.{
  on_decoded, use_timer, use_sender, encode_with, send_control_frame, on_control_frame,
  on_candidate, handle, run,
}

module _ {F : Type 0} where
  -- The frames that were encoded.
  unfoldable pub encoded : List (ReceiverAct F) → List (ControlFrame F)
  encoded [] = []
  encoded (encodes frame ∷ acts) = frame ∷ encoded acts
  encoded (_ ∷ acts) = encoded acts

  pub encoded-append :
      (xs ys : List (ReceiverAct F)) → encoded (xs ++ ys) ≡ encoded xs ++ encoded ys
  unfolding encoded
  encoded-append [] ys = refl
  encoded-append (encodes frame ∷ xs) ys = ap (◌∷◌ frame) (encoded-append xs ys)
  encoded-append (_ ∷ xs) ys = encoded-append xs ys

  -- A call that encodes nothing, keeps the sender or drops it, and does not make the session active.
  pub record Keeps (s : ReceiverSession) (x : ReceiverSession × List (ReceiverAct F)) : Type 0 where
    pub sender : (x.0.control_sender ≡ s.control_sender) ⊎ (x.0.control_sender ≡ none)
    pub silent : encoded x.1 ≡ []
    pub calm : x.0.phase ≡ active → s.phase ≡ active

  pub Keeps-then_call :
      (s : ReceiverSession) (x : ReceiverSession × List (ReceiverAct F))
      (f : ReceiverSession → ReceiverSession × List (ReceiverAct F))
      → Keeps s x
      → ((t : ReceiverSession) → Keeps t (f t))
      → Keeps s (x then_call f)
  Keeps-then_call s x f k h = record {
    sender = elim (h x.0).sender [
      | inr e ↦ inr e
      | inl e ↦ elim k.sender [ inl d ↦ inl (e ∙ d) | inr d ↦ inr (e ∙ d) ]
    ];
    silent = rw (encoded-append x.1 (f x.0).1, k.silent, (h x.0).silent) refl;
    calm = λ e. k.calm ((h x.0).calm e);
  }

  pub set_status-Keeps :
      (phase : RemotePhase) (message : Option String) (reason : Option EndedReason)
      (s : ReceiverSession)
      → phase ≢ active
      → Keeps s (set_status phase message reason s)
  unfolding set_status encoded
  set_status-Keeps phase message reason s n = record {
    sender = inl refl;
    silent = refl;
    calm = λ e. absurd (n e);
  }

  pub connect-Keeps : (s : ReceiverSession) → Keeps s (connect s)
  unfolding connect encoded set_status
  connect-Keeps s = elim (Option-cases s.socket) [
    | inl e ↦ record {
      sender = inl (rw (connect, e) refl);
      silent = rw (connect, e) refl;
      calm = rw (connect, e) (λ q. cc);
    }
    | inr (n, e) ↦ record {
      sender = inl (rw (connect, e) refl);
      silent = rw (connect, e) refl;
      calm = rw (connect, e) (λ q. cc);
    }
  ]

  pub close_peer-Keeps : (s : ReceiverSession) → Keeps s (close_peer s)
  unfolding close_peer encoded
  close_peer-Keeps s = record {
    sender = inl (ground arith);
    silent = ground arith;
    calm = ground arith;
  }

  pub drop_socket-Keeps : (s : ReceiverSession) → Keeps s (drop_socket s)
  unfolding drop_socket encoded close_if_open
  drop_socket-Keeps s = record {
    sender = inl (ground arith);
    silent = ground arith;
    calm = ground arith;
  }

  -- What leaves the same sender or none, seen from a state with the same sender or none.
  pub Keeps-from :
      (s t : ReceiverSession) (x : ReceiverSession × List (ReceiverAct F))
      → (t.control_sender ≡ s.control_sender) ⊎ (t.control_sender ≡ none)
      → t.phase ≡ s.phase
      → Keeps t x
      → Keeps s x
  Keeps-from s t x e p k = record {
    sender = elim k.sender [
      | inr d ↦ inr d
      | inl d ↦ elim e [ inl c ↦ inl (d ∙ c) | inr c ↦ inr (d ∙ c) ]
    ];
    silent = k.silent;
    calm = λ q. sym p ∙ k.calm q;
  }

  pub cleanup-Keeps : (s : ReceiverSession) → Keeps s (cleanup s)
  unfolding cleanup drop_session
  cleanup-Keeps s = Keeps-from s (drop_session s) (cleanup s) (inr refl) refl (
      Keeps-then_call (drop_session s) (close_peer (drop_session s)) drop_socket
        (close_peer-Keeps (drop_session s)) drop_socket-Keeps)

  pub disconnect-Keeps : (s : ReceiverSession) → Keeps s (disconnect s)
  unfolding disconnect
  disconnect-Keeps s =
      Keeps-then_call s _ cleanup (set_status-Keeps _ _ _ s (λ e. cc)) cleanup-Keeps

  pub end_session-Keeps :
      (message : String) (reason : EndedReason) (s : ReceiverSession)
      → Keeps s (end_session message reason s)
  unfolding end_session
  end_session-Keeps message reason s =
      Keeps-then_call s _ cleanup (set_status-Keeps _ _ _ s (λ e. cc)) cleanup-Keeps

  pub let_go-Keeps : (s : ReceiverSession) → Keeps s (let_go s)
  unfolding let_go forget_socket encoded
  let_go-Keeps s =
      Keeps-then_call s (close_peer s) forget_socket (close_peer-Keeps s)
        (λ t. record { sender = inl refl; silent = refl; calm = λ e. e })

  pub if-Keeps :
      (b : Bool) (s : ReceiverSession) (x y : ReceiverSession × List (ReceiverAct F))
      → Keeps s x
      → Keeps s y
      → Keeps s (if b then x else y)
  if-Keeps true s x y h k = h
  if-Keeps false s x y h k = k

  pub same-Keeps :
      (s t : ReceiverSession)
      → t.control_sender ≡ s.control_sender
      → t.phase ≡ s.phase
      → Keeps s (t, [])
  unfolding encoded
  same-Keeps s t e p = record { sender = inl e; silent = refl; calm = λ q. sym p ∙ q }

  pub quiet-Keeps :
      (s : ReceiverSession) {acts : List (ReceiverAct F)} → encoded acts ≡ [] → Keeps s (s, acts)
  quiet-Keeps s e = record { sender = inl refl; silent = e; calm = λ q. q }

  pub handle_socket_lost-Keeps :
      (opts : ReceiverOptions) (now_ms : ℕ) (s : ReceiverSession)
      → Keeps s (handle_socket_lost opts now_ms s)
  unfolding handle_socket_lost
  handle_socket_lost-Keeps opts now_ms s =
      let t : ReceiverSession = record s { ping_timer = false } in
      let u : ReceiverSession = record t { reconnecting_since_ms = some (since t now_ms) } in
      if-Keeps (is_over s.phase) s (let_go t) _
        (Keeps-from s t (let_go t) (inl refl) refl (let_go-Keeps t))
        (if-Keeps (is_reconnect_expired (since t now_ms) now_ms opts.reconnect_ttl_ms) s
          (end_session "Could not reconnect within the time window. Connect again." error u)
          (set_status reconnecting (some "Reconnecting securely…") none u then_call let_go)
          (Keeps-from s u _ (inl refl) refl (end_session-Keeps _ error u))
          (Keeps-from s u _ (inl refl) refl (
            Keeps-then_call u _ let_go (set_status-Keeps reconnecting _ none u (λ e. cc))
              let_go-Keeps)))

  pub retry_in-Keeps : (phase : RemotePhase) (s : ReceiverSession) → Keeps s (retry_in phase s)
  unfolding retry_in
  retry_in-Keeps reconnecting s = connect-Keeps s
  retry_in-Keeps _ s = same-Keeps s s refl refl

  pub retry_due-Keeps : (s : ReceiverSession) → Keeps s (retry_due s)
  unfolding retry_due
  retry_due-Keeps s = retry_in-Keeps s.phase s

  pub recycle-Keeps :
      (socket : Option ℕ) (state : ReadyState) (opts : ReceiverOptions) (now_ms : ℕ)
      (s : ReceiverSession)
      → Keeps s (recycle socket state opts now_ms s)
  unfolding recycle encoded
  recycle-Keeps none state opts now_ms s = handle_socket_lost-Keeps opts now_ms s
  recycle-Keeps (some n) socket_closed opts now_ms s = handle_socket_lost-Keeps opts now_ms s
  recycle-Keeps (some n) _ opts now_ms s = record {
    sender = inl refl;
    silent = refl;
    calm = λ e. e;
  }

  pub recover-Keeps :
      (opts : ReceiverOptions) (now_ms : ℕ) (s : ReceiverSession)
      → Keeps s (recover_from_peer_failure opts now_ms s)
  unfolding recover_from_peer_failure
  recover-Keeps opts now_ms s = if-Keeps _ s _ _ (same-Keeps s s refl refl) (
      Keeps-then_call s _ (λ t. recycle t.socket t.ready_state opts now_ms t)
        (Keeps-then_call s _ close_peer (set_status-Keeps _ _ _ s (λ e. cc)) close_peer-Keeps)
        (λ t. recycle-Keeps t.socket t.ready_state opts now_ms t))
