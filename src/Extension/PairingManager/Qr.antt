-- ===== src/Extension/PairingManager/Qr.antt =====
-- What `onPairCreated` returns: the text that the popup shows as a QR code.
use remotetab.Prelude.{ℕ, ◌≡◌, refl, String, Option, none, some, ◌∙◌, ap}
use remotetab.Crypto.PairingPayload.{
  PairingPayload, failed, Codecs, encode_pairing_payload, decode_pairing_payload, payload_json,
  read_payload,
}
use remotetab.Crypto.PairingPayload.RoundTrip.{IsRuntime, decode-encode}
use remotetab.Extension.PairingManager.{PairingManager, PairingDeps, Payload, on_pair_created}

-- The whole pending payload: `create` leaves the origin empty, and nothing fills it in.
unfoldable pub pending_payload : PairingDeps → Payload → PairingPayload
pending_payload deps p = record {
  signaling_origin = "";
  pair_id = p.pair_id;
  desktop_device_id = deps.identity.device_id;
  desktop_spki = deps.identity.public_key_spki;
  desktop_fingerprint = deps.identity.fingerprint;
  expires_at_ms = p.expires_at_ms;
  nonce = p.nonce;
  secret = p.secret;
}

-- The text for the pending payload, once it was changed.
unfoldable pub qr_of :
    Codecs → PairingDeps → String → ℕ → PairingManager → Option ℕ → Option (String × ℕ)
unfolding on_pair_created pending_payload
qr_of c deps pair_id expires_at_ms m none = none
qr_of c deps pair_id expires_at_ms m (some a) = some (
  encode_pairing_payload c
      (pending_payload deps ((on_pair_created pair_id expires_at_ms m).payloads a)),
  expires_at_ms,
)

-- The result of `onPairCreated(pairId, expiresAtMs)`.
unfoldable pub created_result :
    Codecs → PairingDeps → String → ℕ → PairingManager → Option (String × ℕ)
unfolding qr_of
created_result c deps pair_id expires_at_ms m = qr_of c deps pair_id expires_at_ms m m.pending

refused :
    (deps : PairingDeps) (p : Payload)
    → read_payload (payload_json (pending_payload deps p)) ≡ failed "invalid field signalingOrigin"
unfolding read_payload pending_payload
refused deps p = refl

-- Once the service has confirmed a pending pairing, whatever the identity: the code that the laptop
-- shows is refused by the phone, since nothing has filled in its origin; if the runtime encodes the
-- payload's text in bytes and reads JSON and text back as they were written, and base64 is as RFC
-- 4648 says.
pub created_result-refused :
    (c : Codecs) (deps : PairingDeps) (pair_id : String) (expires_at_ms a : ℕ) (m : PairingManager)
    → m.pending ≡ some a
    → IsRuntime c (pending_payload deps ((on_pair_created pair_id expires_at_ms m).payloads a))
    → (qr : String) × (created_result c deps pair_id expires_at_ms m ≡ some (qr, expires_at_ms))
      × (decode_pairing_payload c qr ≡ failed "invalid field signalingOrigin")
unfolding created_result qr_of
created_result-refused c deps pair_id expires_at_ms a m n runtime =
    let p = (on_pair_created pair_id expires_at_ms m).payloads a in
    (
      encode_pairing_payload c (pending_payload deps p),
      ap (qr_of c deps pair_id expires_at_ms m) n,
      decode-encode c (pending_payload deps p) runtime ∙ refused deps p,
    )
