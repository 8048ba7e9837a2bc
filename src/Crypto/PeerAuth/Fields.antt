-- ===== src/Crypto/PeerAuth/Fields.antt =====
-- Both peers sign and verify the same transcript, and no other.
use remotetab.Prelude.{◌≡◌, if◌then◌else◌, refl, String, arith, eq_iff, map}
use remotetab.Protocol.Messages.{DeviceRole, desktop, phone, role_name}
use remotetab.Crypto.Transcript.Injective.{Short, encode_transcript_injective}
use remotetab.Crypto.PeerAuth.{HandshakeDeps, transcript, transcript_fields, other_role, is_desktop}

-- The other end of the same session.
abbrev pub mirrored : HandshakeDeps → HandshakeDeps
mirrored d = record d {
  role = other_role d.role;
  my_device_id = d.peer_device_id;
  peer_device_id = d.my_device_id;
  my_fingerprint = d.peer_fingerprint;
  peer_fingerprint = d.my_fingerprint;
}

-- What one peer signs is what the other verifies: they build the same bytes for a role and nonce.
pub transcript-mirrored :
    (d : HandshakeDeps) (role : DeviceRole) (nonce : String)
    → transcript (mirrored d) role nonce ≡ transcript d role nonce
unfolding transcript transcript_fields
transcript-mirrored d role nonce = ground arith

role_name_injective : (r s : DeviceRole) → role_name r ≡ role_name s → r ≡ s
role_name_injective desktop desktop e = refl
role_name_injective phone phone e = refl
role_name_injective desktop phone e = ground (arith, eq_iff "desktop" "phone")
role_name_injective phone desktop e = ground (arith, eq_iff "phone" "desktop")

-- The devices of the session, whichever end it is seen from.
abbrev pub desktop_device : HandshakeDeps → String
desktop_device d = if is_desktop d.role then d.my_device_id else d.peer_device_id

abbrev pub phone_device : HandshakeDeps → String
phone_device d = if is_desktop d.role then d.peer_device_id else d.my_device_id

-- Equal bytes are signed for equal sessions, roles and nonces only, and for the same two devices: what
-- is signed for one cannot stand for another session, be reflected as the other role's, answer
-- another challenge or name another pair of devices; if the text encoder tells texts apart, and each
-- field is shorter than 2 ^ 32 bytes.
pub transcript_injective :
    (d e : HandshakeDeps) (r s : DeviceRole) (m n : String)
    → ((x y : String) → d.utf8 x ≡ d.utf8 y → x ≡ y)
    → e.utf8 ≡ d.utf8
    → Short (map d.utf8 (transcript_fields d r m))
    → Short (map d.utf8 (transcript_fields e s n))
    → transcript d r m ≡ transcript e s n
    → (d.session_id ≡ e.session_id)
      × (r ≡ s)
      × (m ≡ n)
      × (desktop_device d ≡ desktop_device e)
      × (phone_device d ≡ phone_device e)
unfolding transcript transcript_fields
transcript_injective d e r s m n inj same short_d short_e h =
    let fields : transcript_fields d r m ≡ transcript_fields e s n =
      encode_transcript_injective d.utf8 inj (transcript_fields d r m) (transcript_fields e s n)
        short_d short_e (rw same at h) in
    (cc, role_name_injective r s (cc), cc, cc, cc)
