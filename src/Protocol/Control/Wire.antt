-- ===== src/Protocol/Control/Wire.antt =====
-- packages/protocol/src/control.ts and frame.ts: text in, frame out, and back. The encoder of
-- texts, JSON and the schema are the runtime's; their results are arguments, as is the type `J` of
-- parsed JSON values.
use remotetab.Prelude.{ℕ, ◌≡◌, String, Bool, true, Option, none, some, ltb, if◌then◌else◌}
use remotetab.Protocol.Errors.{
  ParseResult, ok, err, message_invalid, message_too_large, max_control_frame_bytes,
}
use remotetab.Protocol.Control.{ControlFrame}

pub record Wire (F J : Type 0) : Type 0 where
  -- How many bytes `TextEncoder` makes of a text.
  pub byte_size : String → ℕ
  -- `JSON.parse`, `none` where it throws, and `JSON.stringify`.
  pub parse : String → Option J
  pub stringify : ControlFrame F → String
  -- `parseWith(controlMessageSchema, data)`, and whether the schema takes a constructed frame.
  pub schema : J → ParseResult (ControlFrame F)
  pub is_valid : ControlFrame F → Bool

-- What the code relies on: a frame that the schema takes survives JSON and the schema.
pub record IsLawful {F J : Type 0} (w : Wire F J) : Type 0 where
  pub survives :
      (frame : ControlFrame F)
      → w.is_valid frame ≡ true
      → (j : J) × (w.parse (w.stringify frame) ≡ some j) × (w.schema j ≡ ok frame)

module _ {F J : Type 0} (w : Wire F J) where
  -- `decodeJsonFrame(text, maxBytes)`: the bound comes before the parser.
  unfoldable pub decode_json_frame : String → ℕ → ParseResult J
  decode_json_frame text max_bytes =
      if ltb max_bytes (w.byte_size text)
      then err message_too_large "frame exceeds the bound"
      else elim (w.parse text) [
        | none ↦ err message_invalid "frame is not valid JSON"
        | some j ↦ ok j
      ]

  -- `decodeControlFrame(text)`.
  unfoldable pub decode_control_frame : String → ParseResult (ControlFrame F)
  unfolding decode_json_frame
  decode_control_frame text = elim (decode_json_frame text max_control_frame_bytes) [
    | err code reason ↦ err code reason
    | ok j ↦ w.schema j
  ]

  -- `encodeControlFrame(message)`: `none` where it throws.
  unfoldable pub encode_control_frame : ControlFrame F → Option String
  encode_control_frame frame =
      if ltb max_control_frame_bytes (w.byte_size (w.stringify frame))
      then none
      else some (w.stringify frame)
