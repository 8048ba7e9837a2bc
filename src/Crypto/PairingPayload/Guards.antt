-- ===== src/Crypto/PairingPayload/Guards.antt =====
-- What the guards of `decodePairingPayload` let pass.
use mathlib.Core.Path.{subst}
use Prim.Native.String
use remotetab.Json.{Json, JsonFields, string, property}
use remotetab.Prelude.{
  ◌≡◌, refl, ℕ, String, Bool, true, Bool-cases, if◌then◌else◌, Option, some, none, List, inl, inr,
}
use remotetab.Crypto.Base64url.{base64url_to_bytes}
use remotetab.Crypto.Tokens.{behind, token_of, is_origin, is_id, is_b64}
use remotetab.Crypto.PairingPayload.{
  PairingPayload, ParseOutcome, ok, failed, Codecs, payload_json, read_payload, read_token,
  decode_pairing_payload, text_field, expiry, fields_of, check_version, ◌>>=◌,
}

-- What the guards ask of a payload.
pub record IsReadable (p : PairingPayload) : Type 0 where
  pub origin : is_origin p.signaling_origin ≡ true
  pub pair_id : is_id p.pair_id ≡ true
  pub desktop : is_id p.desktop_device_id ≡ true
  pub spki : is_b64 p.desktop_spki ≡ true
  pub fingerprint : is_b64 p.desktop_fingerprint ≡ true
  pub nonce : is_b64 p.nonce ≡ true
  pub secret : is_b64 p.secret ≡ true

-- What a read yields, if it does not fail.
data Yields {A : Type 0} (P : A → Type 0) : ParseOutcome A → Type 0 where
  yields : {a : A} → P a → Yields P (ok a)
  fails : {reason : String} → Yields P (failed reason)

Yields-bind :
    {A B : Type 0} (Q : A → Type 0) {P : B → Type 0} {m : ParseOutcome A} {f : A → ParseOutcome B}
    → Yields Q m
    → ((a : A) → Q a → Yields P (f a))
    → Yields P (m >>= f)
Yields-bind Q (yields h) k = k _ h
Yields-bind Q fails k = fails

Yields-any : {A : Type 0} (m : ParseOutcome A) → Yields (λ a. Unit {0}) m
Yields-any (ok a) = yields tt
Yields-any (failed reason) = fails

Yields-ok : {A : Type 0} {P : A → Type 0} {m : ParseOutcome A} (a : A) → Yields P m → m ≡ ok a → P a
Yields-ok {P = P} a (yields {a = b} h) e = let k : b ≡ a = cc in subst P k h
Yields-ok a fails e = cc

guarded :
    (guard : String → Bool) (s reason : String)
    → Yields (λ t. guard t ≡ true) (if guard s then ok s else failed reason)
guarded guard s reason = elim (Bool-cases (guard s)) [
  | inl e ↦ rw e (yields e)
  | inr e ↦ rw e fails
]

value-Yields :
    (guard : String → Bool) (key : String) (v : Option Json)
    → Yields
        (λ s. guard s ≡ true)
        (elim v [
          | some (string s) ↦ if guard s then ok s else failed (String.◌++◌ "invalid field " key)
          | _ ↦ failed (String.◌++◌ "invalid field " key)
        ])
value-Yields guard key none = fails
value-Yields guard key (some (string s)) = guarded guard s _
value-Yields guard key (some v) = fails

text_field-Yields :
    (guard : String → Bool) (key : String) (fields : JsonFields)
    → Yields (λ s. guard s ≡ true) (text_field guard key fields)
unfolding text_field
text_field-Yields guard key fields = value-Yields guard key (property key fields)

-- Whatever is scanned, what comes out has passed the guards.
read_payload-Yields : (json : Json) → Yields IsReadable (read_payload json)
unfolding read_payload
read_payload-Yields json = Yields-bind _ (Yields-any (fields_of json >>= check_version)) λ fields _.
    Yields-bind _ (text_field-Yields is_origin "signalingOrigin" fields) λ origin h1.
      Yields-bind _ (text_field-Yields is_id "pairId" fields) λ pair_id h2.
        Yields-bind _ (text_field-Yields is_id "desktopDeviceId" fields) λ desktop h3.
          Yields-bind _ (text_field-Yields is_b64 "desktopSpki" fields) λ spki h4.
            Yields-bind _ (text_field-Yields is_b64 "desktopFingerprint" fields) λ print h5.
              Yields-bind _ (text_field-Yields is_b64 "nonce" fields) λ nonce h6.
                Yields-bind _ (text_field-Yields is_b64 "secret" fields) λ secret h7.
                  Yields-bind _ (Yields-any (expiry fields)) λ expires_at_ms _. yields (record {
                    origin = h1;
                    pair_id = h2;
                    desktop = h3;
                    spki = h4;
                    fingerprint = h5;
                    nonce = h6;
                    secret = h7;
                  })

pub read_payload-ok : (json : Json) (p : PairingPayload) → read_payload json ≡ ok p → IsReadable p
read_payload-ok json p = Yields-ok p (read_payload-Yields json)

pub read_payload-IsReadable :
    (p : PairingPayload) → IsReadable p → read_payload (payload_json p) ≡ ok p
unfolding read_payload
read_payload-IsReadable p h =
    rw (h.origin, h.pair_id, h.desktop, h.spki, h.fingerprint, h.nonce, h.secret) refl

json-Yields :
    (o : Option Json)
    → Yields IsReadable
        (elim o [ none ↦ failed "payload is not valid JSON" | some json ↦ read_payload json ])
json-Yields none = fails
json-Yields (some json) = read_payload-Yields json

bytes-Yields :
    (c : Codecs) (o : Option (List ℕ))
    → Yields IsReadable (elim o [
      | none ↦ failed "payload is not valid base64url"
      | some bytes ↦ elim (c.parse (c.utf8_decode bytes)) [
        | none ↦ failed "payload is not valid JSON"
        | some json ↦ read_payload json
      ]
    ])
bytes-Yields c none = fails
bytes-Yields c (some bytes) = json-Yields (c.parse (c.utf8_decode bytes))

token-Yields :
    (c : Codecs) (o : Option String)
    → Yields IsReadable (elim o [
      | none ↦ failed "missing RT1 prefix"
      | some body ↦ elim (base64url_to_bytes c.atob body) [
        | none ↦ failed "payload is not valid base64url"
        | some bytes ↦ elim (c.parse (c.utf8_decode bytes)) [
          | none ↦ failed "payload is not valid JSON"
          | some json ↦ read_payload json
        ]
      ]
    ])
token-Yields c none = fails
token-Yields c (some body) = bytes-Yields c (base64url_to_bytes c.atob body)

-- Whatever the runtime's codecs do, and whatever is scanned: a payload that comes out has a WebSocket
-- origin, ids of 8 to 64 URL characters, and keys, nonce and secret of 8 URL characters at least.
pub decode-IsReadable :
    (c : Codecs) (raw : String) (p : PairingPayload)
    → decode_pairing_payload c raw ≡ ok p
    → IsReadable p
unfolding decode_pairing_payload read_token
decode-IsReadable c raw p = Yields-ok p (token-Yields c (behind "RT1:" (token_of raw)))
