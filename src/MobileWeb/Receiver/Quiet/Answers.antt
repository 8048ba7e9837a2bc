-- ===== src/MobileWeb/Receiver/Quiet/Answers.antt =====
-- apps/mobile-web/src/lib/receiver-session.ts: the answers that encode nothing.
use remotetab.Prelude.{
  ◌≢◌, ℕ, ◌≡◌, refl, inl, String, Bool, true, false, Option, none, some, List, [], arith,
}
use remotetab.Protocol.Errors.{ErrorCode, device_revoked, connection_lost, session_not_found}
use remotetab.Protocol.Messages as M
use remotetab.Protocol.Messages.{Frame, SignalingMessage}
use remotetab.Protocol.Control.{ControlMessage, peer_challenge, peer_proof, viewport_sync}
use remotetab.Crypto.PeerAuth.Handshake.{HandshakeOutcome, verified, failed, pending}
use remotetab.MobileWeb.Receiver.{
  requesting, peer_connected, reconnecting, ReceiverSession, ReceiverOptions, error,
}
use remotetab.MobileWeb.Receiver.Events.{
  PeerState, peer_is_connected, peer_has_failed, peer_in_between, send, resume_answer,
  accept_offer_now, open_peer, make_peer, answer_pending, start_pings, resume_open_peer,
  on_rejected, on_closed, on_error, on_offer, on_ice, on_message, on_state, begin_peer_auth,
  resume_peer_auth, on_outcome, on_control, send_control,
}
use remotetab.MobileWeb.Receiver.Quiet.{
  encoded, Keeps, Keeps-then_call, set_status-Keeps, close_peer-Keeps, Keeps-from,
  end_session-Keeps, if-Keeps, same-Keeps, quiet-Keeps, recover-Keeps,
}

-- The session that a message opens.
unfoldable pub opened_session : SignalingMessage → Option String
opened_session (M.session_accepted a) = some a.session_id
opened_session _ = none

module _ {F : Type 0} where
  pub send-Keeps : (m : SignalingMessage) (s : ReceiverSession) → Keeps {F = F} s (send m s)
  unfolding send encoded
  send-Keeps m s = record {
    sender = inl (ground arith);
    silent = ground arith;
    calm = ground arith;
  }

  pub accept_offer_now-Keeps :
      (sdp : String) (s : ReceiverSession) → Keeps {F = F} s (accept_offer_now sdp s)
  unfolding accept_offer_now encoded
  accept_offer_now-Keeps sdp s = record {
    sender = inl (ground arith);
    silent = ground arith;
    calm = ground arith;
  }

  pub on_ice-Keeps : (ice : M.Ice) (s : ReceiverSession) → Keeps {F = F} s (on_ice ice s)
  unfolding on_ice encoded
  on_ice-Keeps ice s = record {
    sender = inl (ground arith);
    silent = ground arith;
    calm = ground arith;
  }

  pub make_peer-Keeps :
      (servers : List String) (s : ReceiverSession) → Keeps {F = F} s (make_peer servers s)
  unfolding make_peer encoded
  make_peer-Keeps servers s = record { sender = inl refl; silent = refl; calm = λ e. e }

  pub answer_pending-Keeps :
      (sdp : Option String) (s : ReceiverSession) → Keeps {F = F} s (answer_pending sdp s)
  unfolding answer_pending
  answer_pending-Keeps none s = same-Keeps s _ refl refl
  answer_pending-Keeps (some sdp) s =
      let t : ReceiverSession = record s { pending_offer_sdp = none } in
      Keeps-from s t (accept_offer_now sdp t) (inl refl) refl (accept_offer_now-Keeps sdp t)

  pub resume_open_peer-Keeps :
      (servers : List String) (s : ReceiverSession) → Keeps {F = F} s (resume_open_peer servers s)
  unfolding resume_open_peer open_peer
  resume_open_peer-Keeps servers s =
      Keeps-then_call s _ (λ t. answer_pending t.pending_offer_sdp t)
        (Keeps-then_call s _ (make_peer servers) (close_peer-Keeps s) (make_peer-Keeps servers))
        (λ t. answer_pending-Keeps t.pending_offer_sdp t)

  pub on_rejected-Keeps :
      (code : ErrorCode) (s : ReceiverSession) → Keeps {F = F} s (on_rejected code s)
  unfolding on_rejected
  on_rejected-Keeps device_revoked s = end_session-Keeps _ _ s
  on_rejected-Keeps _ s = end_session-Keeps _ _ s

  pub on_closed-Keeps :
      (reason : M.CloseReason) (s : ReceiverSession) → Keeps {F = F} s (on_closed reason s)
  unfolding on_closed
  on_closed-Keeps M.revoked s = end_session-Keeps _ _ s
  on_closed-Keeps _ s = end_session-Keeps _ _ s

  pub on_error-Keeps : (code : ErrorCode) (s : ReceiverSession) → Keeps {F = F} s (on_error code s)
  unfolding on_error
  on_error-Keeps connection_lost s = set_status-Keeps _ _ _ s (λ e. cc)
  on_error-Keeps session_not_found s = set_status-Keeps _ _ _ s (λ e. cc)
  on_error-Keeps _ s = same-Keeps s s refl refl

  pub on_offer-Keeps : (id sdp : String) (s : ReceiverSession) → Keeps {F = F} s (on_offer id sdp s)
  unfolding on_offer accept_offer_now encoded
  on_offer-Keeps id sdp s = record {
    sender = inl (ground arith);
    silent = ground arith;
    calm = ground arith;
  }

  pub start_pings-Keeps : (s : ReceiverSession) → Keeps {F = F} s (start_pings s)
  unfolding start_pings
  start_pings-Keeps s = same-Keeps s _ refl refl

  pub on_message-Keeps :
      (opts : ReceiverOptions) (m : SignalingMessage) (s : ReceiverSession)
      → opened_session m ≡ none
      → Keeps {F = F} s (on_message opts m s)
  unfolding on_message opened_session encoded
  on_message-Keeps opts (M.hello_ok i t) s e =
      Keeps-then_call s _ (send _)
        (Keeps-then_call s _ start_pings (set_status-Keeps requesting none none s (λ e. cc))
          start_pings-Keeps)
        (send-Keeps _)
  on_message-Keeps opts (M.session_accepted a) s e = absurd (cc)
  on_message-Keeps opts (M.session_rejected code) s e = on_rejected-Keeps code s
  on_message-Keeps opts (M.signal_offer id sdp) s e = on_offer-Keeps id sdp s
  on_message-Keeps opts (M.signal_ice ice) s e = on_ice-Keeps ice s
  on_message-Keeps opts (M.auth_challenge nonce) s e = quiet-Keeps s refl
  on_message-Keeps opts (M.session_close id reason) s e =
      if-Keeps _ s (on_closed reason s) (s, []) (on_closed-Keeps reason s)
        (same-Keeps s s refl refl)
  on_message-Keeps opts (M.error code message) s e = on_error-Keeps code s
  on_message-Keeps opts _ s e = same-Keeps s s refl refl

  pub on_state-Keeps :
      (opts : ReceiverOptions) (state : PeerState) (now_ms : ℕ) (s : ReceiverSession)
      → Keeps {F = F} s (on_state opts state now_ms s)
  unfolding on_state
  on_state-Keeps opts peer_is_connected now_ms s =
      set_status-Keeps peer_connected none none s (λ e. cc)
  on_state-Keeps opts peer_has_failed now_ms s = recover-Keeps opts now_ms s
  on_state-Keeps opts peer_in_between now_ms s = same-Keeps s s refl refl

  pub resume_peer_auth-Keeps :
      (id : String) (found : Bool) (s : ReceiverSession)
      → Keeps {F = F} s (resume_peer_auth id found s)
  unfolding resume_peer_auth encoded
  resume_peer_auth-Keeps id false s = end_session-Keeps _ error s
  resume_peer_auth-Keeps id true s = record { sender = inl refl; silent = refl; calm = λ e. cc }

  pub on_outcome-Keeps :
      (outcome : HandshakeOutcome) (s : ReceiverSession)
      → outcome ≢ verified
      → Keeps {F = F} s (on_outcome outcome s)
  unfolding on_outcome
  on_outcome-Keeps verified s n = absurd (n refl)
  on_outcome-Keeps failed s n = set_status-Keeps reconnecting _ none s (λ e. cc)
  on_outcome-Keeps pending s n = same-Keeps s s refl refl

  pub on_control-Keeps :
      (m : ControlMessage F) (s : ReceiverSession) → Keeps {F = F} s (on_control m s)
  unfolding on_control encoded
  on_control-Keeps (peer_challenge nonce id) s = record {
    sender = inl refl;
    silent = ground arith;
    calm = λ e. e;
  }
  on_control-Keeps (peer_proof d f sig) s = record {
    sender = inl refl;
    silent = ground arith;
    calm = λ e. e;
  }
  on_control-Keeps (viewport_sync a b f) s = record {
    sender = inl refl;
    silent = refl;
    calm = λ e. e;
  }
  on_control-Keeps _ s = record { sender = inl refl; silent = refl; calm = λ e. e }

  pub send_control-Keeps :
      (text : String) (s : ReceiverSession) → Keeps {F = F} s (send_control text s)
  unfolding send_control encoded
  send_control-Keeps text s = record {
    sender = inl (ground arith);
    silent = ground arith;
    calm = ground arith;
  }

  pub resume_answer-Keeps :
      (sdp : Option String) (s : ReceiverSession) → Keeps {F = F} s (resume_answer sdp s)
  unfolding resume_answer
  resume_answer-Keeps none s = set_status-Keeps reconnecting _ none s (λ e. cc)
  resume_answer-Keeps (some sdp) s = send-Keeps _ s

  pub begin_peer_auth-Keeps : (s : ReceiverSession) → Keeps {F = F} s (begin_peer_auth s)
  unfolding begin_peer_auth encoded
  begin_peer_auth-Keeps s = record {
    sender = inl (ground arith);
    silent = ground arith;
    calm = ground arith;
  }
