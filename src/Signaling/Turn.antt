-- ===== src/Signaling/Turn.antt =====
-- apps/signaling/src/turn.ts. HMAC-SHA-1 with its base64, the import of keys and the check of
-- signatures are the runtime's, as is how a number is written. Numbers are natural numbers; a body
-- with another timestamp reads as none where it is decoded.
use Prim.Native.String
use remotetab.Json.{Json, number, string, object, property}
use remotetab.Prelude.{
  ℕ, ◌+◌, ◌-◌, ◌^◌, String, Bool, not, ◌&&◌, Option, none, some, List, [], ◌∷◌, leb, ltb, str_eq,
  if◌then◌else◌,
}
use remotetab.Crypto.Tokens.{is_url_char, is_id, all_chars, char_count}
use remotetab.Crypto.Transcript.{encode_transcript}

pub record TurnCredentials : Type 0 where
  pub username : String
  pub credential : String
  pub ttl_seconds : ℕ

pub record TurnAuthRequest : Type 0 where
  pub device_id : String
  pub timestamp : ℕ
  pub public_key_spki : String
  pub public_key_fingerprint : String
  pub signature : String

-- The runtime. `fingerprint_of` is none where it throws, and `verify` is false where the import of
-- the key, the decoding or the check throws, since the source catches that.
pub record TurnRuntime : Type 0 where
  pub decimal : ℕ → String
  pub utf8 : String → List ℕ
  pub hmac_sha1 : (secret message : String) → String
  pub fingerprint_of : String → Option String
  pub verify : String → Option (List ℕ) → String → Bool

-- `isValidTurnDeviceId(deviceId)`, whose pattern is that of an id.
unfoldable pub valid_device_id : Option Json → Option String
unfolding is_id
valid_device_id (some (string s)) = if is_id s then some s else none
valid_device_id _ = none

-- `BASE64URL_SHAPE`.
unfoldable pub is_base64url_shape : String → Bool
unfolding all_chars char_count
is_base64url_shape s = all_chars is_url_char s && leb 2 (char_count s) && leb (char_count s) 512

unfoldable pub shaped : Option Json → Option String
unfolding is_base64url_shape
shaped (some (string s)) = if is_base64url_shape s then some s else none
shaped _ = none

-- A safe integer.
unfoldable pub safe_integer : Option Json → Option ℕ
safe_integer (some (number n)) = if leb n (2 ^ 53 - 1) then some n else none
safe_integer _ = none

infixl 5 ◌>>=◌
abbrev pub ◌>>=◌ : {A B : Type 0} → Option A → (A → Option B) → Option B
none >>= f = none
some a >>= f = f a

-- `isTurnAuthRequest(value)`, with the request that it finds.
unfoldable pub turn_auth_request : Json → Option TurnAuthRequest
unfolding valid_device_id shaped safe_integer property
turn_auth_request (object v) = valid_device_id (property "deviceId" v) >>= λ device_id.
    safe_integer (property "timestamp" v) >>= λ timestamp.
    shaped (property "publicKeySpki" v) >>= λ spki.
    shaped (property "publicKeyFingerprint" v) >>= λ fingerprint.
    shaped (property "signature" v) >>= λ signature. some (record {
      device_id = device_id;
      timestamp = timestamp;
      public_key_spki = spki;
      public_key_fingerprint = fingerprint;
      signature = signature;
    })
turn_auth_request _ = none

-- `mintTurnCredentials(opts)`.
unfoldable pub mint_turn_credentials :
    TurnRuntime → (secret device_id : String) → (ttl_seconds now_unix : ℕ) → TurnCredentials
mint_turn_credentials rt secret device_id ttl_seconds now_unix =
    let username = String.◌++◌ (rt.decimal (now_unix + ttl_seconds)) (String.◌++◌ ":" device_id) in
    record {
      username = username;
      credential = rt.hmac_sha1 secret username;
      ttl_seconds = ttl_seconds;
    }

pub data TurnAuthVerdict : Type 0 where
  accepted stale wrong_fingerprint wrong_signature : TurnAuthVerdict

-- What a request signs, with `TURN_AUTH_DOMAIN`.
unfoldable pub turn_transcript : TurnRuntime → TurnAuthRequest → Option (List ℕ)
turn_transcript rt r =
    encode_transcript rt.utf8
      ("remotetab.v1.turn-auth" ∷ "1" ∷ r.device_id ∷ rt.decimal r.timestamp ∷ [])

-- `Math.abs(a - b)`.
abbrev pub distance : ℕ → ℕ → ℕ
distance a b = (a - b) + (b - a)

-- `verifyTurnAuthRequest(req, nowMs, skewMs)`, behind the fingerprint.
unfoldable pub verify_computed :
    TurnRuntime → TurnAuthRequest → Option String → Option TurnAuthVerdict
unfolding turn_transcript
verify_computed rt r none = none
verify_computed rt r (some computed) =
    if not (str_eq computed r.public_key_fingerprint)
    then some wrong_fingerprint
    else if rt.verify r.public_key_spki (turn_transcript rt r) r.signature
    then some accepted
    else some wrong_signature

-- `verifyTurnAuthRequest(req, nowMs, skewMs)`; none where it throws.
unfoldable pub verify_turn_auth_request :
    TurnRuntime → TurnAuthRequest → (now_ms skew_ms : ℕ) → Option TurnAuthVerdict
unfolding verify_computed
verify_turn_auth_request rt r now_ms skew_ms =
    let verdict = verify_computed rt r (rt.fingerprint_of r.public_key_spki) in
    if ltb skew_ms (distance now_ms r.timestamp) then some stale else verdict
