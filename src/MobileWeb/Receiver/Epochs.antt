-- ===== src/MobileWeb/Receiver/Epochs.antt =====
-- apps/mobile-web/src/lib/receiver-session.ts: one space of sequence numbers for each session.
use remotetab.Prelude.{
  ℕ, ◌+◌, ◌≡◌, refl, ap, ◌∙◌, ◌⊎◌, inl, inr, String, true, false, none, some, List, [], ◌∷◌, ltb,
  Bool-cases, Option-cases, All, among,
}
use remotetab.Protocol.Errors.{max_control_frame_bytes}
use remotetab.Protocol.Messages as M
use remotetab.Protocol.Messages.{Frame}
use remotetab.Protocol.Control.{ControlFrame}
use remotetab.Protocol.Control.Wire.{Wire}
use remotetab.Protocol.Control.Sender.{ControlSender, SenderCall, emit, next_frame}
use remotetab.Protocol.Control.Delivery.{emit_valid, emit_invalid}
use remotetab.MobileWeb.Receiver.{
  signaling, ReceiverSession, ReceiverAct, transmits, ReceiverOptions, set_status,
}
use remotetab.Crypto.PeerAuth.Handshake.{verified}
use remotetab.MobileWeb.Receiver.Events.{
  ReceiverEvent, received, judged, on_outcome, asks, asks_and_hands, on_accepted,
  open_peer_with_turn, on_message, on_frame,
}
use remotetab.MobileWeb.Receiver.Run.{use_sender, encode_with, send_control_frame, handle, run}
use remotetab.MobileWeb.Receiver.Quiet.{encoded, encoded-append, Keeps}
use remotetab.MobileWeb.Receiver.Quiet.Handled.{
  starts, stands_out, handle-Keeps, open_peer_with_turn-Keeps,
}

-- Frames of a session with the numbers behind `n`, one by one.
abbrev pub Numbered : {F : Type 0} → String → ℕ → List (ControlFrame F) → Type 0
Numbered id n [] = Unit
Numbered id n (f ∷ fs) = (f.session_id ≡ id) × (f.seq ≡ n + 1) × Numbered id (n + 1) fs

-- The sender is of the session, behind the number `n`, or there is none.
abbrev SenderAt : String → ℕ → ReceiverSession → Type 0
SenderAt id n s =
    (s.control_sender ≡ some (record { session_id = id; seq = n })) ⊎ (s.control_sender ≡ none)

module _ {F J : Type 0} (w : Wire F J) where
  -- No valid frame is beyond the size bound.
  abbrev pub Fits : Type 0
  Fits =
      (frame : ControlFrame F)
      → w.is_valid frame ≡ true
      → ltb max_control_frame_bytes (w.byte_size (w.stringify frame)) ≡ false

  -- What an event does to the numbers: nothing, or one frame with the next one.
  Counts : String → ℕ → ReceiverSession × List (ReceiverAct F) → Type 0
  Counts id n x =
      ((encoded x.1 ≡ []) × SenderAt id n x.0)
      ⊎ ((f : ControlFrame F) × (encoded x.1 ≡ f ∷ [])
          × (f.session_id ≡ id)
          × (f.seq ≡ n + 1)
          × SenderAt id (n + 1) x.0)

  use_sender-Counts :
      Fits
      → (now_ms : ℕ) (call : SenderCall F) (id : String) (n : ℕ)
        (go : String → List (ReceiverAct F)) (s : ReceiverSession)
      → ((text : String) → encoded (go text) ≡ [])
      → s.control_sender ≡ some (record { session_id = id; seq = n })
      → Counts id n (use_sender w (emit w now_ms (record { session_id = id; seq = n }) call) go s)
  unfolding Counts use_sender encoded next_frame
  use_sender-Counts fits now_ms call id n go s q e =
      let c : ControlSender = record { session_id = id; seq = n } in
      let f : ControlFrame F = next_frame w now_ms c call in
      elim (Bool-cases (w.is_valid f)) [
        | inr bad ↦ rw (emit_invalid w now_ms c call bad) (inl (refl, inl refl))
        | inl good ↦
            rw (emit_valid w now_ms c call good (fits f good))
              (inr (f, ap (◌∷◌ f) (q (w.stringify f)), refl, refl, inl refl))
      ]

  encode_with-Counts :
      Fits
      → (now_ms : ℕ) (call : SenderCall F) (id : String) (n : ℕ) (s : ReceiverSession)
      → SenderAt id n s
      → Counts id n (encode_with w now_ms call s)
  unfolding Counts encoded encode_with use_sender
  encode_with-Counts fits now_ms call id n s (inl e) =
      rw (encode_with, e) (use_sender-Counts fits now_ms call id n (λ text. []) s (λ text. refl) e)
  encode_with-Counts fits now_ms call id n s (inr e) = rw (encode_with, e) (inl (refl, inr e))

  send_control_frame-Counts :
      Fits
      → (now_ms : ℕ) (call : SenderCall F) (id : String) (n : ℕ) (s : ReceiverSession)
      → SenderAt id n s
      → Counts id n (send_control_frame w now_ms call s)
  unfolding Counts encoded send_control_frame
  send_control_frame-Counts fits now_ms call id n s (inr e) =
      rw (send_control_frame, e) (inl (refl, inr e))
  send_control_frame-Counts fits now_ms call id n s (inl e) = elim (Option-cases s.peer) [
    | inl d ↦ rw (send_control_frame, e, d) (inl (refl, inl e))
    | inr (p, d) ↦
        rw (send_control_frame, e, d)
          (use_sender-Counts fits now_ms call id n (λ text. transmits p text ∷ []) s (λ text. refl)
            e)
  ]

  SenderAt-Keeps :
      (id : String) (n : ℕ) (s : ReceiverSession) (x : ReceiverSession × List (ReceiverAct F))
      → SenderAt id n s
      → Keeps s x
      → SenderAt id n x.0
  SenderAt-Keeps id n s x (inr c) q = elim q.sender [ inl e ↦ inr (e ∙ c) | inr e ↦ inr e ]
  SenderAt-Keeps id n s x (inl c) q = elim q.sender [ inl e ↦ inl (e ∙ c) | inr e ↦ inr e ]

  handle-Counts :
      Fits
      → (opts : ReceiverOptions) (id : String) (n : ℕ) (s : ReceiverSession) (e : ReceiverEvent F)
      → starts w e ≡ none
      → SenderAt id n s
      → Counts id n (handle w opts s e)
  unfolding handle stands_out Counts on_outcome set_status encoded
  handle-Counts fits opts id n s (asks now_ms call) h k =
      encode_with-Counts fits now_ms call id n s k
  handle-Counts fits opts id n s (asks_and_hands now_ms call) h k =
      send_control_frame-Counts fits now_ms call id n s k
  handle-Counts fits opts id n s (judged verified) h k = inl (refl, k)
  handle-Counts fits opts id n s e h k =
      let q = handle-Keeps w opts s e h refl in
      inl (q.silent, SenderAt-Keeps id n s (handle w opts s e) k q)

  run-Numbered_from :
      Fits
      → (opts : ReceiverOptions) (id : String) (n : ℕ) (s : ReceiverSession)
        (es : List (ReceiverEvent F))
      → All (λ e. starts w e ≡ none) es
      → SenderAt id n s
      → Numbered id n (encoded (run w opts s es).1)
  unfolding run Counts encoded
  run-Numbered_from fits opts id n s [] h k = tt
  run-Numbered_from fits opts id n s (e ∷ es) (h, hs) k =
      elim (handle-Counts fits opts id n s e h k) [
        | inl (q, k') ↦
            rw (encoded-append (handle w opts s e).1 (run w opts (handle w opts s e).0 es).1, q)
              (run-Numbered_from fits opts id n (handle w opts s e).0 es hs k')
        | inr (f, q, i, m, k') ↦
            rw (encoded-append (handle w opts s e).1 (run w opts (handle w opts s e).0 es).1, q)
              (i, m, run-Numbered_from fits opts id (n + 1) (handle w opts s e).0 es hs k')
      ]

  accepted-SenderAt :
      (opts : ReceiverOptions) (id : String) (s : ReceiverSession)
      → SenderAt id 0 (on_accepted {F = F} opts id s).0
  unfolding on_accepted set_status
  accepted-SenderAt opts id s =
      let t : ReceiverSession = record s {
        reconnecting_since_ms = none;
        session_id = some id;
        control_sender = some (record { session_id = id; seq = 0 });
        phase = signaling;
      } in
      SenderAt-Keeps id 0 t (open_peer_with_turn opts t) (inl refl)
        (open_peer_with_turn-Keeps w opts t)

  pub received-on_accepted :
      (opts : ReceiverOptions) (s : ReceiverSession) (n : ℕ) (a : M.SessionAccepted) (frame : Frame)
      → among n s.attached ≡ true
      → frame.message ≡ M.session_accepted a
      → handle w opts s (received n (some frame)) ≡ on_accepted opts a.session_id s
  unfolding handle on_frame on_message
  received-on_accepted opts s n a frame h m = rw (h, m) refl

  -- Whatever the state, once a session has been accepted on a live socket: until the next one is
  -- accepted, over any events, the frames that are encoded are all of this session and have the
  -- numbers 1, 2, 3 and so on, if no valid frame is beyond the size bound.
  pub run-Numbered :
      Fits
      → (opts : ReceiverOptions) (s : ReceiverSession) (n : ℕ) (a : M.SessionAccepted)
        (frame : Frame) (es : List (ReceiverEvent F))
      → among n s.attached ≡ true
      → frame.message ≡ M.session_accepted a
      → All (λ e. starts w e ≡ none) es
      → Numbered a.session_id 0
          (encoded (run w opts (handle w opts s (received n (some frame))).0 es).1)
  run-Numbered fits opts s n a frame es h m q = rw (received-on_accepted opts s n a frame h m) (
      run-Numbered_from fits opts a.session_id 0 (on_accepted opts a.session_id s).0 es q
        (accepted-SenderAt opts a.session_id s))
