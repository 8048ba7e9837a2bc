-- ===== src/Crypto/PairingPayload.antt =====
-- packages/crypto/src/pairing-payload.ts. The text and JSON codecs are the runtime's.
pub mod Guards
pub mod RoundTrip
use Prim.Native.String
use remotetab.Prelude.{
  ℕ, zero, suc, ◌+◌, String, Bool, true, false, not, ◌&&◌, ◌||◌, Option, none, some, List, leb, ltb,
  ◌==◌, if◌then◌else◌, str_eq,
}
use remotetab.Json.{Json, JsonFields, array, number, string, object, end, field, property}
use remotetab.Crypto.Base64url.{bytes_to_base64url, base64url_to_bytes, is_empty}
use remotetab.Crypto.Tokens.{token_of, behind, is_origin, is_id, is_b64}

pub record PairingPayload : Type 0 where
  pub signaling_origin : String
  pub pair_id : String
  pub desktop_device_id : String
  pub desktop_spki : String
  pub desktop_fingerprint : String
  pub expires_at_ms : ℕ
  pub nonce : String
  pub secret : String

pub data ParseOutcome (A : Type 0) : Type 0 where
  ok : A → ParseOutcome A
  failed : (reason : String) → ParseOutcome A

-- The runtime: `JSON`, `TextEncoder`, `TextDecoder`, `btoa` and `atob`.
pub record Codecs : Type 0 where
  pub stringify : Json → String
  pub parse : String → Option Json
  pub utf8_encode : String → List ℕ
  pub utf8_decode : List ℕ → String
  pub btoa : List ℕ → String
  pub atob : String → Option (List ℕ)

-- The object that the payload is, its properties in the order in which they are made.
abbrev pub payload_json : PairingPayload → Json
payload_json p = object (
    field "v" (number 1) (
      field "signalingOrigin" (string p.signaling_origin) (
        field "pairId" (string p.pair_id) (
          field "desktopDeviceId" (string p.desktop_device_id) (
            field "desktopSpki" (string p.desktop_spki) (
              field "desktopFingerprint" (string p.desktop_fingerprint) (
                field "expiresAtMs" (number p.expires_at_ms)
                  (field "nonce" (string p.nonce) (field "secret" (string p.secret) end)))))))))

-- `encodePairingPayload(payload)`.
unfoldable pub encode_pairing_payload : Codecs → PairingPayload → String
unfolding bytes_to_base64url
encode_pairing_payload c p =
    String.◌++◌ "RT1:" (bytes_to_base64url c.btoa (c.utf8_encode (c.stringify (payload_json p))))

-- `fail(reason)` ends the function: what follows a failure is not run.
infixl 5 ◌>>=◌
abbrev pub ◌>>=◌ : {A B : Type 0} → ParseOutcome A → (A → ParseOutcome B) → ParseOutcome B
ok a >>= f = f a
failed reason >>= f = failed reason

-- What `p[key]` is read from; an array has none of the properties.
unfoldable pub fields_of : Json → ParseOutcome JsonFields
fields_of (object fields) = ok fields
fields_of (array items) = ok end
fields_of _ = failed "payload is not an object"

unfoldable pub check_version : JsonFields → ParseOutcome JsonFields
unfolding property
check_version fields = elim (property "v" fields) [
  | some (number n) ↦ if n == 1 then ok fields else failed "unsupported payload version"
  | _ ↦ failed "unsupported payload version"
]

-- A property under its guard.
unfoldable pub text_field : (String → Bool) → String → JsonFields → ParseOutcome String
unfolding property
text_field guard key fields = elim (property key fields) [
  | some (string s) ↦ if guard s then ok s else failed (String.◌++◌ "invalid field " key)
  | _ ↦ failed (String.◌++◌ "invalid field " key)
]

unfoldable pub expiry : JsonFields → ParseOutcome ℕ
unfolding property
expiry fields = elim (property "expiresAtMs" fields) [
  | some (number n) ↦ ok n
  | _ ↦ failed "invalid expiry"
]

-- The object, checked property by property.
unfoldable pub read_payload : Json → ParseOutcome PairingPayload
unfolding fields_of check_version text_field expiry is_origin is_id is_b64
read_payload json = fields_of json >>= check_version >>= λ fields.
    text_field is_origin "signalingOrigin" fields >>= λ origin.
    text_field is_id "pairId" fields >>= λ pair_id.
    text_field is_id "desktopDeviceId" fields >>= λ desktop.
    text_field is_b64 "desktopSpki" fields >>= λ spki.
    text_field is_b64 "desktopFingerprint" fields >>= λ fingerprint.
    text_field is_b64 "nonce" fields >>= λ nonce. text_field is_b64 "secret" fields >>= λ secret.
    expiry fields >>= λ expires_at_ms. ok (record {
      signaling_origin = origin;
      pair_id = pair_id;
      desktop_device_id = desktop;
      desktop_spki = spki;
      desktop_fingerprint = fingerprint;
      expires_at_ms = expires_at_ms;
      nonce = nonce;
      secret = secret;
    })

-- From the token on: the prefix, the bytes, the JSON.
unfoldable pub read_token : Codecs → String → ParseOutcome PairingPayload
unfolding behind base64url_to_bytes read_payload
read_token c token = elim (behind "RT1:" token) [
  | none ↦ failed "missing RT1 prefix"
  | some body ↦ elim (base64url_to_bytes c.atob body) [
    | none ↦ failed "payload is not valid base64url"
    | some bytes ↦ elim (c.parse (c.utf8_decode bytes)) [
      | none ↦ failed "payload is not valid JSON"
      | some json ↦ read_payload json
    ]
  ]
]

-- `decodePairingPayload(raw)`.
unfoldable pub decode_pairing_payload : Codecs → String → ParseOutcome PairingPayload
unfolding token_of read_token
decode_pairing_payload c raw = read_token c (token_of raw)
