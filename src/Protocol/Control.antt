-- ===== src/Protocol/Control.antt =====
-- packages/protocol/src/control.ts: the messages of the control channel, as they are after
-- validation, and the check of a frame against the session and its sequence. Coordinates and other
-- fractions are values of a type `F` that the runtime supplies. A frame is decoded (size bound, JSON
-- and schema) by a function that is an argument.
pub mod Wire
pub mod Sender
pub mod Delivery
use remotetab.Prelude.{ℕ, String, str_eq, if◌then◌else◌}
use remotetab.Protocol.Errors.{ParseResult, ok, err, message_invalid}
use remotetab.Protocol.Sequence.{SequenceGuard, Verdict, accepted, refused, check}

pub data MouseButton : Type 0 where
  left right middle : MouseButton

pub record PointerButton (F : Type 0) : Type 0 where
  pub x : F
  pub y : F
  pub button : MouseButton
  pub click_count : ℕ

pub record Wheel (F : Type 0) : Type 0 where
  pub x : F
  pub y : F
  pub delta_x : F
  pub delta_y : F

pub record RemoteKey : Type 0 where
  pub key : String
  pub code : String
  pub modifiers : ℕ

pub data StopReason : Type 0 where
  user error revoked target_closed protocol_violation timeout peer_left : StopReason

pub data ControlMessage (F : Type 0) : Type 0 where
  pointer_move : (x y : F) → ControlMessage F
  pointer_down : PointerButton F → ControlMessage F
  pointer_up : PointerButton F → ControlMessage F
  wheel : Wheel F → ControlMessage F
  key_down : RemoteKey → ControlMessage F
  key_up : RemoteKey → ControlMessage F
  text_insert : (text : String) → ControlMessage F
  viewport_request : ControlMessage F
  viewport_sync : (css_width css_height : ℕ) (device_scale_factor : F) → ControlMessage F
  peer_challenge : (nonce session_id : String) → ControlMessage F
  peer_proof : (device_id public_key_fingerprint signature : String) → ControlMessage F
  session_stop : StopReason → ControlMessage F

-- `envelopeBase` around a message; `v` is always 1.
pub record ControlFrame (F : Type 0) : Type 0 where
  pub session_id : String
  pub seq : ℕ
  pub ts : ℕ
  pub message : ControlMessage F

module _ {F : Type 0} where
  -- The verdict of the guard on a frame of the right session.
  unfoldable pub accept_sequence :
      ControlFrame F → SequenceGuard × Verdict → SequenceGuard × ParseResult (ControlFrame F)
  accept_sequence frame (g, accepted) = (g, ok frame)
  accept_sequence frame (g, refused code) = (g, err code "sequence")

  -- `acceptControlFrame(text, guard, expectedSessionId)`: the guard after the call and the result.
  unfoldable pub accept_control_frame :
      (String → ParseResult (ControlFrame F))
      → String
      → SequenceGuard
      → String
      → SequenceGuard × ParseResult (ControlFrame F)
  unfolding accept_sequence
  accept_control_frame decode text guard expected = elim (decode text) [
    | err code reason ↦ (guard, err code reason)
    | ok frame ↦
        if str_eq frame.session_id expected
        then accept_sequence frame (check guard frame.seq)
        else (guard, err message_invalid "sessionId does not match the active session")
  ]
