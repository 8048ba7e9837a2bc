-- ===== src/Crypto/PeerAuth.antt =====
-- packages/crypto/src/challenge.ts and peer-handshake.ts: what the peers sign.
pub mod Fields
pub mod Handshake
use remotetab.Prelude.{
  ℕ, String, List, [], ◌∷◌, Bool, true, false, not, ◌&&◌, ◌||◌, Option, none, some, is_none,
  is_some, if◌then◌else◌,
}
use remotetab.Crypto.Transcript.{encode_transcript}
use remotetab.Protocol.Messages.{DeviceRole, desktop, phone, role_name}

abbrev pub peer_auth_domain : String
peer_auth_domain = "remotetab.v1.peer-auth"

pub record PeerProofTranscript : Type 0 where
  pub protocol_version : String
  pub session_id : String
  pub desktop_device_id : String
  pub phone_device_id : String
  pub desktop_fingerprint : String
  pub phone_fingerprint : String
  pub role : DeviceRole
  pub nonce : String

-- `peerTranscriptFields(t)`.
unfoldable pub peer_transcript_fields : PeerProofTranscript → List String
peer_transcript_fields t =
    peer_auth_domain
    ∷ t.protocol_version
    ∷ t.session_id
    ∷ t.desktop_device_id
    ∷ t.phone_device_id
    ∷ t.desktop_fingerprint
    ∷ t.phone_fingerprint
    ∷ role_name t.role
    ∷ t.nonce
    ∷ []

-- The values of `HandshakeDeps` that the transcript is made of, and the runtime's `TextEncoder`.
pub record HandshakeDeps : Type 0 where
  pub role : DeviceRole
  pub protocol_version : String
  pub session_id : String
  pub my_device_id : String
  pub peer_device_id : String
  pub my_fingerprint : String
  pub peer_fingerprint : String
  pub utf8 : String → List ℕ

abbrev pub is_desktop : DeviceRole → Bool
is_desktop desktop = true
is_desktop phone = false

-- The fields that `transcript(role, nonce)` passes to `encodeTranscript`.
unfoldable pub transcript_fields : HandshakeDeps → DeviceRole → String → List String
transcript_fields d role nonce =
    let am_desktop = is_desktop d.role in
    peer_auth_domain
    ∷ d.protocol_version
    ∷ d.session_id
    ∷ (if am_desktop then d.my_device_id else d.peer_device_id)
    ∷ (if am_desktop then d.peer_device_id else d.my_device_id)
    ∷ (if am_desktop then d.my_fingerprint else d.peer_fingerprint)
    ∷ (if am_desktop then d.peer_fingerprint else d.my_fingerprint)
    ∷ role_name role
    ∷ nonce
    ∷ []

-- `transcript(role, nonce)`: the bytes that are signed and verified.
unfoldable pub transcript : HandshakeDeps → DeviceRole → String → Option (List ℕ)
unfolding transcript_fields encode_transcript
transcript d role nonce = encode_transcript d.utf8 (transcript_fields d role nonce)

abbrev pub other_role : DeviceRole → DeviceRole
other_role desktop = phone
other_role phone = desktop
