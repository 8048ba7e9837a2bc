-- ===== src/Protocol/Errors.antt =====
-- packages/protocol/src/errors.ts, limits.ts and the result type of frame.ts.
use remotetab.Prelude.{ℕ, ◌*◌, String}

pub data ErrorCode : Type 0 where
  pair_expired pair_invalid_proof pair_already_used device_revoked : ErrorCode
  session_not_found session_conflict peer_auth_failed protocol_version_unsupported : ErrorCode
  message_invalid message_too_large replay_rejected capture_not_active : ErrorCode
  input_not_attached target_tab_closed turn_unavailable connection_lost : ErrorCode

-- The wire spelling of a code.
unfoldable pub code_name : ErrorCode → String
code_name pair_expired = "PAIR_EXPIRED"
code_name pair_invalid_proof = "PAIR_INVALID_PROOF"
code_name pair_already_used = "PAIR_ALREADY_USED"
code_name device_revoked = "DEVICE_REVOKED"
code_name session_not_found = "SESSION_NOT_FOUND"
code_name session_conflict = "SESSION_CONFLICT"
code_name peer_auth_failed = "PEER_AUTH_FAILED"
code_name protocol_version_unsupported = "PROTOCOL_VERSION_UNSUPPORTED"
code_name message_invalid = "MESSAGE_INVALID"
code_name message_too_large = "MESSAGE_TOO_LARGE"
code_name replay_rejected = "REPLAY_REJECTED"
code_name capture_not_active = "CAPTURE_NOT_ACTIVE"
code_name input_not_attached = "INPUT_NOT_ATTACHED"
code_name target_tab_closed = "TARGET_TAB_CLOSED"
code_name turn_unavailable = "TURN_UNAVAILABLE"
code_name connection_lost = "CONNECTION_LOST"

-- `ParseResult<T>`, with the reason of a `ProtocolError` beside its code.
pub data ParseResult {ℓ} (A : Type ℓ) : Type ℓ where
  ok : A → ParseResult A
  err : ErrorCode → String → ParseResult A

abbrev pub max_control_frame_bytes : ℕ
max_control_frame_bytes = 16 * 1024

abbrev pub max_signaling_frame_bytes : ℕ
max_signaling_frame_bytes = 64 * 1024

abbrev pub max_text_length : ℕ
max_text_length = 2000

abbrev pub max_wheel_delta : ℕ
max_wheel_delta = 10_000
