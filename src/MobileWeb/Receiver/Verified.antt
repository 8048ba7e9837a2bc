-- ===== src/MobileWeb/Receiver/Verified.antt =====
-- apps/mobile-web/src/lib/receiver-session.ts: no session is active before a verdict on its peer.
use remotetab.Prelude.{
  ℕ, ◌≡◌, ◌≢◌, refl, sym, ◌∙◌, inl, inr, String, Bool, true, false, none, some, List, [], ◌∷◌,
  Bool-cases, Option-cases, among,
}
use remotetab.Protocol.Messages as M
use remotetab.Protocol.Messages.{Frame, SignalingMessage}
use remotetab.Protocol.Control.Wire.{Wire}
use remotetab.Protocol.Control.Sender.{ControlSender, SenderCall, Emission, emitted, thrown, emit}
use remotetab.Crypto.PeerAuth.Handshake.{verified}
use remotetab.MobileWeb.Receiver.{
  active, signaling, ReceiverSession, ReceiverAct, transmits, ReceiverOptions, set_status,
}
use remotetab.MobileWeb.Receiver.Events.{
  ReceiverEvent, received, judged, asks, asks_and_hands, on_accepted, on_message, on_frame,
}
use remotetab.MobileWeb.Receiver.Run.{use_sender, encode_with, send_control_frame, handle, run}
use remotetab.MobileWeb.Receiver.Quiet.Answers.{opened_session, on_message-Keeps}
use remotetab.MobileWeb.Receiver.Quiet.Handled.{
  starts, stands_out, handle-Keeps, open_peer_with_turn-Keeps,
}
use remotetab.MobileWeb.Receiver.Epochs.{received-on_accepted}

-- Whether one of the verdicts is 'verified'.
unfoldable pub was_verified : {F : Type 0} → List (ReceiverEvent F) → Bool
was_verified [] = false
was_verified (judged verified ∷ es) = true
was_verified (_ ∷ es) = was_verified es

module _ {F J : Type 0} (w : Wire F J) where
  -- The event does not make the session active.
  abbrev Calm : ReceiverSession → ReceiverSession × List (ReceiverAct F) → Type 0
  Calm s x = x.0.phase ≡ active → s.phase ≡ active

  use_sender-phase :
      (x : ControlSender × Emission F) (go : String → List (ReceiverAct F)) (s : ReceiverSession)
      → (use_sender w x go s).0.phase ≡ s.phase
  unfolding use_sender
  use_sender-phase (c, emitted frame text) go s = refl
  use_sender-phase (c, thrown code) go s = refl

  encode_with-Calm :
      (now_ms : ℕ) (call : SenderCall F) (s : ReceiverSession)
      → Calm s (encode_with w now_ms call s)
  unfolding encode_with
  encode_with-Calm now_ms call s q = elim (Option-cases s.control_sender) [
    | inl e ↦ (rw (encode_with, e) at q)
    | inr (c, e) ↦
        sym (use_sender-phase (emit w now_ms c call) (λ text. []) s) ∙ (rw (encode_with, e) at q)
  ]

  send_control_frame-Calm :
      (now_ms : ℕ) (call : SenderCall F) (s : ReceiverSession)
      → Calm s (send_control_frame w now_ms call s)
  unfolding send_control_frame
  send_control_frame-Calm now_ms call s q = elim (Option-cases s.control_sender) [
    | inl e ↦ (rw (send_control_frame, e) at q)
    | inr (c, e) ↦ elim (Option-cases s.peer) [
      | inl d ↦ (rw (send_control_frame, e, d) at q)
      | inr (p, d) ↦
          sym (use_sender-phase (emit w now_ms c call) (λ text. transmits p text ∷ []) s)
          ∙ (rw (send_control_frame, e, d) at q)
    ]
  ]

  on_accepted-Calm :
      (opts : ReceiverOptions) (id : String) (s : ReceiverSession)
      → (on_accepted {F = F} opts id s).0.phase ≢ active
  unfolding on_accepted set_status
  on_accepted-Calm opts id s q =
      let t : ReceiverSession = record s {
        reconnecting_since_ms = none;
        session_id = some id;
        control_sender = some (record { session_id = id; seq = 0 });
        phase = signaling;
      } in
      let e : signaling ≡ active = (open_peer_with_turn-Keeps w opts t).calm q in cc

  on_message-Calm :
      (opts : ReceiverOptions) (m : SignalingMessage) (s : ReceiverSession)
      → Calm s (on_message opts m s)
  unfolding on_message opened_session
  on_message-Calm opts (M.session_accepted a) s q = absurd (on_accepted-Calm opts a.session_id s q)
  on_message-Calm opts m s q = (on_message-Keeps {F = F} opts m s refl).calm q

  handle-Calm :
      (opts : ReceiverOptions) (s : ReceiverSession) (e : ReceiverEvent F)
      → was_verified (e ∷ []) ≡ false
      → Calm s (handle w opts s e)
  unfolding handle was_verified stands_out starts on_frame
  handle-Calm opts s (judged verified) h q = absurd (cc)
  handle-Calm opts s (asks now_ms call) h q = encode_with-Calm now_ms call s q
  handle-Calm opts s (asks_and_hands now_ms call) h q = send_control_frame-Calm now_ms call s q
  handle-Calm opts s (received n (some frame)) h q = elim (Bool-cases (among n s.attached)) [
    | inl e ↦ on_message-Calm opts frame.message s (rw e at q)
    | inr e ↦ (rw e at q)
  ]
  handle-Calm opts s e h q = (handle-Keeps w opts s e refl refl).calm q

  was_verified-cons :
      (e : ReceiverEvent F) (es : List (ReceiverEvent F))
      → was_verified (e ∷ es) ≡ false
      → (was_verified (e ∷ []) ≡ false) × (was_verified es ≡ false)
  unfolding was_verified
  was_verified-cons (judged verified) es h = absurd (cc)
  was_verified-cons _ es h = (refl, h)

  run-Calm :
      (opts : ReceiverOptions) (s : ReceiverSession) (es : List (ReceiverEvent F))
      → was_verified es ≡ false
      → Calm s (run w opts s es)
  unfolding run
  run-Calm opts s [] h q = q
  run-Calm opts s (e ∷ es) h q =
      let (a, b) = was_verified-cons e es h in
      handle-Calm opts s e a (run-Calm opts (handle w opts s e).0 es b q)

  -- Whatever came before, also an active session: once a session has been accepted on a live
  -- socket, it is shown as active only after a verdict 'verified' has come since.
  pub run-verified :
      (opts : ReceiverOptions) (s : ReceiverSession) (n : ℕ) (a : M.SessionAccepted) (frame : Frame)
      (es : List (ReceiverEvent F))
      → among n s.attached ≡ true
      → frame.message ≡ M.session_accepted a
      → (run w opts (handle w opts s (received n (some frame))).0 es).0.phase ≡ active
      → was_verified es ≡ true
  run-verified opts s n a frame es h m q = elim (Bool-cases (was_verified es)) [
    | inl e ↦ e
    | inr e ↦
        let t = on_accepted {F = F} opts a.session_id s in
        absurd (
          on_accepted-Calm opts a.session_id s
            (run-Calm opts t.0 es e (rw (received-on_accepted w opts s n a frame h m) at q)))
  ]
