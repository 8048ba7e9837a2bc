-- ===== src/Crypto/PairingProof.antt =====
-- packages/crypto/src/pairing.ts. HMAC-SHA-256 is the runtime's: none where a call rejects. So is how
-- a number is written.
pub mod Verified
use remotetab.Prelude.{ℕ, String, Bool, false, Option, none, some, List, [], ◌∷◌}
use remotetab.Crypto.Base64url.{base64url_to_bytes, bytes_to_base64url}
use remotetab.Crypto.Random.{timing_safe_equal}
use remotetab.Crypto.Transcript.{encode_transcript}

pub record PairingTranscript : Type 0 where
  pub protocol_version : String
  pub desktop_device_id : String
  pub phone_device_id : String
  pub desktop_fingerprint : String
  pub phone_fingerprint : String
  pub expires_at_ms : ℕ
  pub nonce : String

-- `hmac key data`; `decimal` is `String(n)`.
pub record ProofCodecs : Type 0 where
  pub utf8 : String → List ℕ
  pub decimal : ℕ → String
  pub btoa : List ℕ → String
  pub atob : String → Option (List ℕ)
  pub hmac : List ℕ → List ℕ → Option (List ℕ)

-- `pairingTranscriptFields(t)`, with `PAIRING_DOMAIN`.
unfoldable pub pairing_transcript_fields : (decimal : ℕ → String) → PairingTranscript → List String
pairing_transcript_fields decimal t =
    "remotetab.v1.pairing"
    ∷ t.protocol_version
    ∷ t.desktop_device_id
    ∷ t.phone_device_id
    ∷ t.desktop_fingerprint
    ∷ t.phone_fingerprint
    ∷ decimal t.expires_at_ms
    ∷ t.nonce
    ∷ []

-- `pairingProof(secretB64, transcript)`; none where it rejects.
unfoldable pub pairing_proof : ProofCodecs → String → PairingTranscript → Option (List ℕ)
unfolding pairing_transcript_fields base64url_to_bytes
pairing_proof c secret t = elim (base64url_to_bytes c.atob secret) [
  | none ↦ none
  | some key ↦ elim (encode_transcript c.utf8 (pairing_transcript_fields c.decimal t)) [
    | none ↦ none
    | some bytes ↦ c.hmac key bytes
  ]
]

-- `verifyPairingProof(secretB64, transcript, proofB64)`.
unfoldable pub verify_pairing_proof : ProofCodecs → String → PairingTranscript → String → Bool
unfolding pairing_proof base64url_to_bytes
verify_pairing_proof c secret t proof = elim (pairing_proof c secret t) [
  | none ↦ false
  | some expected ↦ elim (base64url_to_bytes c.atob proof) [
    | none ↦ false
    | some provided ↦ timing_safe_equal expected provided
  ]
]
