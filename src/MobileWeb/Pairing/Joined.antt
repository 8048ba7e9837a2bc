-- ===== src/MobileWeb/Pairing/Joined.antt =====
-- The two ends of a pairing: what the phone sends for the laptop's payload, the laptop accepts.
use mathlib.Core.Path.{subst}
use remotetab.Prelude.{
  ◌≡◌, refl, ℕ, ◌<◌, String, Option, none, some, List, [], ◌∷◌, Option-cases, inl, inr,
}
use remotetab.Protocol.Messages.{PairJoin, pair_accept}
use remotetab.Crypto.Base64url.RoundTrip.{IsBase64, IsBytes}
use remotetab.Crypto.PairingProof.{
  ProofCodecs, PairingTranscript, pairing_transcript_fields, pairing_proof, verify_pairing_proof,
}
use remotetab.Crypto.Base64url.{base64url_to_bytes}
use remotetab.Crypto.Transcript.{encode_transcript}
use remotetab.Crypto.PairingProof.Verified.{verify_pairing_proof-pairing_proof}
use remotetab.Extension.PairedDevices.{PairedDevice, find_active}
use remotetab.Extension.PairingManager.{
  PairingManager, PairingDeps, DeviceIdentity, device_of, transcript,
}
use remotetab.Extension.PairingManager.Alone.{IsGood, join_now, join_now-paired}
use remotetab.Extension.PairingManager.Qr.{pending_payload}
use remotetab.MobileWeb.Pairing.{
  PhoneKeyIdentity, build_pair_join, made_join, join_with, phone_transcript,
}

-- The laptop's manager with the check of proofs that the source uses.
abbrev pub laptop_deps :
    ProofCodecs → DeviceIdentity → (fingerprint_of : String → Option String) → PairingDeps
laptop_deps c identity fingerprint_of = record {
  identity = identity;
  fingerprint_of = fingerprint_of;
  verify = verify_pairing_proof c;
}

module _ (c : ProofCodecs) (deps : PairingDeps) (phone : PhoneKeyIdentity) (m : PairingManager)
    (a now_ms : ℕ) where
  -- What makes a pairing succeed: a pending payload in time, a phone whose key has its fingerprint;
  -- and a runtime whose HMAC gives bytes and whose base64 is as RFC 4648 says.
  pub record IsMeeting : Type 0 where
    pub checked : deps.verify ≡ verify_pairing_proof c
    pub pending : m.pending ≡ some a
    pub timely : now_ms < (m.payloads a).expires_at_ms
    pub own_key : deps.fingerprint_of phone.public_key_spki ≡ some phone.fingerprint
    pub base64 : IsBase64 c.btoa c.atob
    pub small : (key bytes mac : List ℕ) → c.hmac key bytes ≡ some mac → IsBytes mac

  -- A proof that was made is what HMAC gave.
  pairing_proof-IsBytes :
      (secret : String) (t : PairingTranscript) (mac : List ℕ)
      → IsMeeting
      → pairing_proof c secret t ≡ some mac
      → IsBytes mac
  unfolding pairing_proof
  pairing_proof-IsBytes secret t mac h e = elim (Option-cases (base64url_to_bytes c.atob secret)) [
    | inl n ↦ cc (rw (pairing_proof, n) at e)
    | inr (key, n) ↦
        elim (Option-cases (encode_transcript c.utf8 (pairing_transcript_fields c.decimal t))) [
          | inl k ↦ cc (rw (pairing_proof, n, k) at e)
          | inr (bytes, k) ↦ h.small key bytes mac (rw (pairing_proof, n, k) at e)
        ]
  ]

  made_join-IsGood :
      (mac : List ℕ)
      → IsMeeting
      → pairing_proof c
          (m.payloads a).secret
          (phone_transcript phone (pending_payload deps (m.payloads a)))
        ≡ some mac
      → IsGood deps now_ms (made_join c phone (pending_payload deps (m.payloads a)) mac) m
  unfolding made_join pending_payload transcript phone_transcript
  made_join-IsGood mac h e = record {
    address = a;
    current = h.pending;
    in_time = h.timely;
    addressed = refl;
    matching = h.own_key;
    verified =
        let proven =
          verify_pairing_proof-pairing_proof c (m.payloads a).secret
            (phone_transcript phone (pending_payload deps (m.payloads a))) mac h.base64
            (pairing_proof-IsBytes _ _ mac h e) e in
        rw h.checked proven;
  }

  joined-IsGood :
      (mac : Option (List ℕ)) (join : PairJoin)
      → IsMeeting
      → pairing_proof c
          (m.payloads a).secret
          (phone_transcript phone (pending_payload deps (m.payloads a)))
        ≡ mac
      → join_with c phone (pending_payload deps (m.payloads a)) mac ≡ some join
      → IsGood deps now_ms join m
        × (join.device_id ≡ phone.device_id)
        × (join.public_key_spki ≡ phone.public_key_spki)
  unfolding join_with
  joined-IsGood none join h e k = cc
  joined-IsGood (some mac) join h e k =
      let made : PairJoin = made_join c phone (pending_payload deps (m.payloads a)) mac in
      let same : made ≡ join = cc in
      subst
        (λ j.
          IsGood deps now_ms j m
          × (j.device_id ≡ phone.device_id)
          × (j.public_key_spki ≡ phone.public_key_spki))
        same (made_join-IsGood mac h e, unfold made_join in refl, unfold made_join in refl)

  -- With the payload in hand, the phone gets paired: if its proof can be made, and its join comes in
  -- time and alone, the laptop accepts the pairing, and has the phone under its id, with its key,
  -- among its active devices; with a runtime whose HMAC gives bytes and whose base64 is as RFC 4648
  -- says.
  pub build_pair_join-paired :
      (join : PairJoin)
      → IsMeeting
      → build_pair_join c phone (pending_payload deps (m.payloads a)) ≡ some join
      → let r = join_now deps now_ms join m in
        (r.sent ≡ pair_accept join.pair_id ∷ [])
        × ((d : PairedDevice) × (find_active phone.device_id r.manager.devices ≡ some d)
            × (d.public_key_spki ≡ phone.public_key_spki)
            × (d.revoked_at_ms ≡ none))
  unfolding build_pair_join device_of pending_payload
  build_pair_join-paired join h e =
      let p = pending_payload deps (m.payloads a) in
      let (good, id, key) =
        joined-IsGood (pairing_proof c (m.payloads a).secret (phone_transcript phone p)) join h refl
          e in
      let (_, sent, found, _) = join_now-paired deps now_ms now_ms join join m good in
      let d : PairedDevice =
        device_of (record { address = good.address; join = join; now_ms = now_ms }) in
      (sent, (d, rw (← id) found, key, refl))
