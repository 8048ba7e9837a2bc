-- ===== src/Crypto/PairingProof/Verified.antt =====
-- The proof that one end makes is the one that the other accepts.
use remotetab.Prelude.{◌≡◌, ◌↔◌, String, true, some, List, ℕ, Option-cases, inl, inr}
use remotetab.Crypto.Base64url.{base64url_to_bytes, bytes_to_base64url}
use remotetab.Crypto.Base64url.RoundTrip.{IsBase64, IsBytes, base64url_to_bytes-bytes_to_base64url}
use remotetab.Crypto.Random.{timing_safe_equal_iff}
use remotetab.Crypto.PairingProof.{
  PairingTranscript, ProofCodecs, pairing_proof, verify_pairing_proof,
}

-- Where a proof can be made, a text verifies exactly if it decodes to the bytes of that proof.
pub verify_pairing_proof_iff :
    (c : ProofCodecs) (secret : String) (t : PairingTranscript) (mac : List ℕ) (proof : String)
    → pairing_proof c secret t ≡ some mac
    → (verify_pairing_proof c secret t proof ≡ true) ↔ (base64url_to_bytes c.atob proof ≡ some mac)
unfolding verify_pairing_proof
verify_pairing_proof_iff c secret t mac proof e =
    elim (Option-cases (base64url_to_bytes c.atob proof)) [
      | inl n ↦ rw (verify_pairing_proof, e, n) (λ h. cc, λ h. cc)
      | inr (provided, n) ↦
          let same = timing_safe_equal_iff mac provided in
          rw (verify_pairing_proof, e, n) (λ h. cc (same.0 h), λ h. same.1 (cc))
    ]

-- The text of a proof that was made verifies; the proof is bytes.
pub verify_pairing_proof-pairing_proof :
    (c : ProofCodecs) (secret : String) (t : PairingTranscript) (mac : List ℕ)
    → IsBase64 c.btoa c.atob
    → IsBytes mac
    → pairing_proof c secret t ≡ some mac
    → verify_pairing_proof c secret t (bytes_to_base64url c.btoa mac) ≡ true
verify_pairing_proof-pairing_proof c secret t mac law small e =
    (verify_pairing_proof_iff c secret t mac (bytes_to_base64url c.btoa mac) e).1
      (base64url_to_bytes-bytes_to_base64url c.btoa c.atob mac small law)
