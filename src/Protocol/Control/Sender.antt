-- ===== src/Protocol/Control/Sender.antt =====
-- `ControlSender` of packages/protocol/src/control.ts.
use remotetab.Prelude.{ℕ, ◌+◌, String, none, some, if◌then◌else◌}
use remotetab.Protocol.Errors.{ErrorCode, message_invalid, message_too_large}
use remotetab.Protocol.Control.{
  ControlMessage, ControlFrame, MouseButton, StopReason, pointer_move, pointer_down, pointer_up,
  wheel, key_down, key_up, text_insert, viewport_request, peer_challenge, peer_proof, session_stop,
}
use remotetab.Protocol.Control.Wire.{Wire, encode_control_frame}

pub record ControlSender : Type 0 where
  pub session_id : String
  pub seq : ℕ

-- The public methods, with their arguments.
pub data SenderCall (F : Type 0) : Type 0 where
  moves : (x y : F) → SenderCall F
  presses releases : (x y : F) → MouseButton → (click_count : ℕ) → SenderCall F
  scrolls : (x y delta_x delta_y : F) → SenderCall F
  downs ups : (key code : String) (modifiers : ℕ) → SenderCall F
  inserts : (text : String) → SenderCall F
  asks_viewport : SenderCall F
  challenges : (nonce : String) → SenderCall F
  proves : (device_id public_key_fingerprint signature : String) → SenderCall F
  stops : StopReason → SenderCall F

module _ {F : Type 0} where
  -- The type and payload that a method passes to `frame`.
  unfoldable pub message_of : ControlSender → SenderCall F → ControlMessage F
  message_of s (moves x y) = pointer_move x y
  message_of s (presses x y button clicks) =
      pointer_down (record { x = x; y = y; button = button; click_count = clicks })
  message_of s (releases x y button clicks) =
      pointer_up (record { x = x; y = y; button = button; click_count = clicks })
  message_of s (scrolls x y dx dy) = wheel (record { x = x; y = y; delta_x = dx; delta_y = dy })
  message_of s (downs key code modifiers) =
      key_down (record { key = key; code = code; modifiers = modifiers })
  message_of s (ups key code modifiers) =
      key_up (record { key = key; code = code; modifiers = modifiers })
  message_of s (inserts text) = text_insert text
  message_of s asks_viewport = viewport_request
  message_of s (challenges nonce) = peer_challenge nonce s.session_id
  message_of s (proves d f sig) = peer_proof d f sig
  message_of s (stops reason) = session_stop reason

-- What a method comes to: the text of a frame, or a `ProtocolError`.
pub data Emission (F : Type 0) : Type 0 where
  emitted : (frame : ControlFrame F) (text : String) → Emission F
  thrown : ErrorCode → Emission F

module _ {F J : Type 0} (w : Wire F J) where
  -- The frame that `frame(type, payload)` constructs.
  unfoldable pub next_frame : ℕ → ControlSender → SenderCall F → ControlFrame F
  unfolding message_of
  next_frame now_ms s call = record {
    session_id = s.session_id;
    seq = s.seq + 1;
    ts = now_ms;
    message = message_of s call;
  }

  -- `encodeControlFrame(frame)`; the number is spent also where this throws.
  unfoldable pub encode_next : ControlSender → ControlFrame F → ControlSender × Emission F
  unfolding encode_control_frame
  encode_next s frame = elim (encode_control_frame w frame) [
    | none ↦ (record s { seq = s.seq + 1 }, thrown message_too_large)
    | some text ↦ (record s { seq = s.seq + 1 }, emitted frame text)
  ]

  -- A method: a frame that its schema refuses gives its number back.
  unfoldable pub emit : ℕ → ControlSender → SenderCall F → ControlSender × Emission F
  unfolding next_frame encode_next
  emit now_ms s call =
      if w.is_valid (next_frame now_ms s call)
      then encode_next s (next_frame now_ms s call)
      else (s, thrown message_invalid)
