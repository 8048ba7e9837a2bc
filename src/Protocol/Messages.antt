-- ===== src/Protocol/Messages.antt =====
-- packages/protocol/src/signaling.ts: the messages of the signaling service, as they are after
-- validation (`z.output` of the schemas), and the frames that carry them.
use remotetab.Prelude.{ℕ, String, Bool, Option, none}
use remotetab.Protocol.Errors.{ErrorCode}

pub data DeviceRole : Type 0 where
  desktop phone : DeviceRole

abbrev pub role_name : DeviceRole → String
role_name desktop = "desktop"
role_name phone = "phone"

pub record Hello : Type 0 where
  pub role : DeviceRole
  pub device_id : String
  pub display_name : Option String

pub record PairCreate : Type 0 where
  pub ttl_seconds : ℕ
  pub public_key_spki : String
  pub public_key_fingerprint : String
  pub display_name : Option String

pub record PairJoin : Type 0 where
  pub pair_id : String
  pub device_id : String
  pub display_name : Option String
  pub public_key_spki : String
  pub public_key_fingerprint : String
  pub pairing_proof : String

-- One side of `pair.accepted`.
pub record Identity : Type 0 where
  pub device_id : String
  pub display_name : Option String
  pub public_key_spki : String
  pub public_key_fingerprint : String

pub record SessionRequest : Type 0 where
  pub device_id : String
  pub desktop_device_id : String

pub record SessionAccepted : Type 0 where
  pub session_id : String
  pub desktop_device_id : String
  pub phone_device_id : String

pub data CloseReason : Type 0 where
  user error revoked timeout peer_left : CloseReason

pub record Ice : Type 0 where
  pub session_id : String
  pub candidate : String
  pub sdp_mid : Option String
  pub sdp_m_line_index : Option ℕ
  pub username_fragment : Option String

pub record AuthProof : Type 0 where
  pub signature : String
  pub public_key_spki : String
  pub public_key_fingerprint : String
  pub display_name : Option String

pub data SignalingMessage : Type 0 where
  hello : Hello → SignalingMessage
  hello_ok : (interval_sec timeout_sec : ℕ) → SignalingMessage
  pair_create : PairCreate → SignalingMessage
  pair_created : (pair_id : String) (expires_at_ms : ℕ) → SignalingMessage
  pair_join : PairJoin → SignalingMessage
  pair_accept : (pair_id : String) → SignalingMessage
  pair_accepted : (pair_id : String) (desktop phone : Identity) → SignalingMessage
  pair_reject : (pair_id : String) → ErrorCode → SignalingMessage
  pair_rejected : (pair_id : String) → ErrorCode → SignalingMessage
  session_request : SessionRequest → SignalingMessage
  session_accepted : SessionAccepted → SignalingMessage
  session_rejected : ErrorCode → SignalingMessage
  session_close : (session_id : String) → CloseReason → SignalingMessage
  signal_offer : (session_id sdp : String) → SignalingMessage
  signal_answer : (session_id sdp : String) → SignalingMessage
  signal_ice : Ice → SignalingMessage
  presence_ping : (ts : ℕ) → SignalingMessage
  presence_pong : (ts : ℕ) → SignalingMessage
  auth_challenge : (nonce : String) → SignalingMessage
  auth_proof : AuthProof → SignalingMessage
  auth_ok : (registered : Bool) → SignalingMessage
  error : ErrorCode → Option String → SignalingMessage

-- `signalingEnvelopeBase` around a message; `v` is always 1.
pub record Frame : Type 0 where
  pub id : Option String
  pub reply_to : Option String
  pub message : SignalingMessage

-- `signalingFrame(type, payload, { replyTo })`.
unfoldable pub signaling_frame : SignalingMessage → Option String → Frame
signaling_frame m reply_to = record { id = none; reply_to = reply_to; message = m }
