-- ===== src/Examples/Meeting.antt =====
-- The theorems about a pairing from both ends, with codecs that are simple enough to read.
use mathlib.Core.Path.{subst}
use remotetab.Prelude.{
  ℕ, ◌≡◌, refl, String, Bool, true, none, some, List, [], ◌∷◌, ◌↔◌, ◌⊎◌, nth, replace, without,
  arith, All,
}
use remotetab.Examples.Codecs.{blocks, read_blocks, blocks-IsBase64}
use remotetab.Crypto.Tokens.{is_origin, is_id, is_b64}
use remotetab.Crypto.PairingPayload.{
  PairingPayload, Codecs, ok, failed, payload_json, encode_pairing_payload, decode_pairing_payload,
}
use remotetab.Crypto.PairingPayload.Guards.{IsReadable, decode-IsReadable}
use remotetab.Crypto.PairingPayload.RoundTrip.{IsRuntime, decode-encode_iff}
use remotetab.Crypto.Transcript.{encode_transcript}
use remotetab.Crypto.PairingProof.{ProofCodecs, pairing_proof, verify_pairing_proof}
use remotetab.Crypto.PairingProof.Verified.{verify_pairing_proof_iff}
use remotetab.Protocol.Messages.{PairJoin, pair_accept}
use remotetab.Extension.PairedDevices.{PairedDevice, find_active}
use remotetab.Extension.PairingManager.Alone.{join_now}
use remotetab.Extension.PairingManager.Qr.{pending_payload, created_result, created_result-refused}
use remotetab.MobileWeb.Pairing.Sound.{IsAnchored, IsHonest}
use remotetab.MobileWeb.Pairing.Anchored.{run-IsAnchored}
use remotetab.MobileWeb.Pairing.Settled.{settlements, once, run-settles_once}
use remotetab.Extension.PairingManager.{
  PairingManager, PairingDeps, DeviceIdentity, on_pair_created,
}
use remotetab.MobileWeb.Pairing.{
  PhoneKeyIdentity, build_pair_join, phone_transcript, PairedDesktop, AcceptedDesktop,
}
use remotetab.MobileWeb.Pairing.Session.{
  PairingContext, PairEvent, starts, stops, opened, received, resumes, hello_ok, pair_accepted, run,
  new_session,
}
use remotetab.MobileWeb.Pairing.Joined.{laptop_deps, IsMeeting, build_pair_join-paired}
use remotetab.Crypto.Base64url.{bytes_to_base64url, base64url_to_bytes}
use remotetab.Crypto.Base64url.RoundTrip.{IsBytes, base64url_to_bytes-bytes_to_base64url}

base64url_to_bytes-bytes_to_base64url_example :
    base64url_to_bytes (λ s. some (read_blocks 0 s)) (bytes_to_base64url blocks (2 ∷ 0 ∷ 1 ∷ []))
    ≡ some (2 ∷ 0 ∷ 1 ∷ [])
base64url_to_bytes-bytes_to_base64url_example =
    base64url_to_bytes-bytes_to_base64url blocks (λ s. some (read_blocks 0 s)) (2 ∷ 0 ∷ 1 ∷ [])
      (omega arith, (omega arith, (omega arith, tt))) blocks-IsBase64

abbrev payload : PairingPayload
payload = record {
  signaling_origin = "wss://relay";
  pair_id = "pair0001";
  desktop_device_id = "laptop01";
  desktop_spki = "laptop-key";
  desktop_fingerprint = "laptop-fp";
  expires_at_ms = 100;
  nonce = "nonce-01";
  secret = "secret01";
}

-- A runtime that knows one payload.
abbrev runtime_of : PairingPayload → Codecs
runtime_of p = record {
  stringify = λ json. "{}";
  parse = λ s. some (payload_json p);
  utf8_encode = λ s. 3 ∷ [];
  utf8_decode = λ bytes. "{}";
  btoa = blocks;
  atob = λ s. some (read_blocks 0 s);
}

runtime_of-IsRuntime : (p : PairingPayload) → IsRuntime (runtime_of p) p
runtime_of-IsRuntime p = record {
  base64 = blocks-IsBase64;
  small = (omega arith, tt);
  text = refl;
  json = refl;
}

decode-encode_iff_example :
    (decode_pairing_payload
        (runtime_of payload)
        (encode_pairing_payload (runtime_of payload) payload)
      ≡ ok payload)
    ↔ IsReadable payload
decode-encode_iff_example =
    decode-encode_iff (runtime_of payload) payload (runtime_of-IsRuntime payload)

payload-IsReadable : IsReadable payload
unfolding is_origin is_id is_b64
payload-IsReadable = record {
  origin = refl;
  pair_id = refl;
  desktop = refl;
  spki = refl;
  fingerprint = refl;
  nonce = refl;
  secret = refl;
}

decode-IsReadable_example : IsReadable payload
decode-IsReadable_example =
    decode-IsReadable (runtime_of payload) (encode_pairing_payload (runtime_of payload) payload)
      payload (decode-encode_iff_example.1 payload-IsReadable)

abbrev identity : DeviceIdentity
identity = record {
  device_id = "laptop01";
  public_key_spki = "laptop-key";
  fingerprint = "laptop-fp";
  display_name = "Laptop";
}

-- A proof is one byte.
abbrev proof_codecs : ProofCodecs
proof_codecs = record {
  utf8 = λ s. 1 ∷ [];
  decimal = λ n. "n";
  btoa = blocks;
  atob = λ s. some (read_blocks 0 s);
  hmac = λ key bytes. some (2 ∷ []);
}

abbrev laptop : PairingDeps
laptop = laptop_deps proof_codecs identity (λ key. some "phone-fp")

abbrev offered : PairingManager
offered = record {
  payloads = λ a. record {
    pair_id = "pair0001";
    expires_at_ms = 100;
    nonce = "nonce-01";
    secret = "secret01";
  };
  made = 1;
  pending = some 0;
  devices = [];
}

abbrev phone : PhoneKeyIdentity
phone = record {
  device_id = "phone001";
  display_name = "Phone";
  public_key_spki = "phone-key";
  fingerprint = "phone-fp";
}

abbrev join : PairJoin
join = record {
  pair_id = "pair0001";
  device_id = "phone001";
  display_name = some "Phone";
  public_key_spki = "phone-key";
  public_key_fingerprint = "phone-fp";
  pairing_proof = "AAAAAAAABAAA";
}

the_join :
    build_pair_join proof_codecs phone (pending_payload laptop (offered.payloads 0)) ≡ some join
unfolding build_pair_join pending_payload pairing_proof base64url_to_bytes bytes_to_base64url
    encode_transcript
the_join = refl

offered-IsMeeting : IsMeeting proof_codecs laptop phone offered 0 5
offered-IsMeeting = record {
  checked = refl;
  pending = refl;
  timely = omega arith;
  own_key = refl;
  base64 = blocks-IsBase64;
  small = λ key bytes mac e.
      let same : ◌≡◌ {A = List ℕ} (2 ∷ []) mac = cc in subst IsBytes same (omega arith, tt);
}

build_pair_join-paired_example :
    let r = join_now laptop 5 join offered in
    (r.sent ≡ pair_accept "pair0001" ∷ [])
    × ((d : PairedDevice) × (find_active "phone001" r.manager.devices ≡ some d)
        × (d.public_key_spki ≡ "phone-key")
        × (d.revoked_at_ms ≡ none))
build_pair_join-paired_example =
    build_pair_join-paired proof_codecs laptop phone offered 0 5 join offered-IsMeeting the_join

created_result-refused_example :
    let c =
      runtime_of (pending_payload laptop ((on_pair_created "pair0001" 100 offered).payloads 0)) in
    (qr : String) × (created_result c laptop "pair0001" 100 offered ≡ some (qr, 100))
    × (decode_pairing_payload c qr ≡ failed "invalid field signalingOrigin")
created_result-refused_example =
    let p = pending_payload laptop ((on_pair_created "pair0001" 100 offered).payloads 0) in
    created_result-refused (runtime_of p) laptop "pair0001" 100 0 offered refl
      (runtime_of-IsRuntime p)

verify_pairing_proof_iff_example :
    let t = phone_transcript phone payload in
    (verify_pairing_proof proof_codecs "secret01" t "AAAAAAAABAAA" ≡ true)
    ↔ (base64url_to_bytes proof_codecs.atob "AAAAAAAABAAA" ≡ some (2 ∷ []))
unfolding pairing_proof base64url_to_bytes encode_transcript
verify_pairing_proof_iff_example =
    verify_pairing_proof_iff proof_codecs "secret01" (phone_transcript phone payload) (2 ∷ [])
      "AAAAAAAABAAA" refl

abbrev context : PairingContext
context = record {
  url = "wss://other";
  payload = payload;
  phone = phone;
  codecs = proof_codecs;
  fingerprint_of = λ key. some "laptop-fp";
}

abbrev old_desktop : PairedDesktop
old_desktop = record {
  device_id = "desktop0";
  display_name = none;
  public_key_spki = "old-key";
  fingerprint = "old-fp";
  paired_at_ms = 1;
}

-- The relay puts its own id beside the key of the code, and the session is stopped too late.
abbrev relayed : AcceptedDesktop
relayed = record {
  device_id = "desktop0";
  display_name = none;
  public_key_spki = "laptop-key";
  public_key_fingerprint = "laptop-fp";
}

abbrev events : List (Bool × PairEvent)
events =
    (true, starts)
    ∷ (true, opened 0)
    ∷ (true, received 0 (some hello_ok))
    ∷ (true, received 0 (some (pair_accepted relayed)))
    ∷ (true, stops)
    ∷ (true, resumes 2 7 true)
    ∷ (true, resumes 3 7 true)
    ∷ (true, resumes 4 7 true)
    ∷ []

run-IsAnchored_example :
    let r = run context (new_session (old_desktop ∷ [])) events in
    All (λ d. (d.device_id ≡ "desktop0") ⊎ IsAnchored context d) r.0.desktops
    × All (IsHonest context) r.1
run-IsAnchored_example =
    run-IsAnchored context (λ d. d.device_id ≡ "desktop0") (old_desktop ∷ []) events (refl, tt)

run-settles_once_example :
    let r = run context (new_session []) events in settlements r.1 ≡ once r.0.settled
run-settles_once_example = run-settles_once context [] events

-- The relay's id has replaced the desktop that was stored under it.
replaced_desktop :
    (run context (new_session (old_desktop ∷ [])) events).0.desktops
    ≡ record {
      device_id = "desktop0";
      display_name = none;
      public_key_spki = "laptop-key";
      fingerprint = "laptop-fp";
      paired_at_ms = 7;
    }
      ∷ []
unfolding run new_session nth replace without
replaced_desktop = refl
