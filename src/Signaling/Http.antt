-- ===== src/Signaling/Http.antt =====
-- The HTTP routes of apps/signaling/src/server.ts: the enrolment of devices and TURN credentials.
-- A request is one step: nothing it reads behind its awaits has changed
-- meanwhile. A body is none where it is no JSON, and then stands for an empty object.
pub mod Minted
pub mod Admin
use Prim.Native.String
use remotetab.Json.{Json, null, JsonFields, string, object, end, property}
use remotetab.Prelude.{
  ℕ, ◌/◌, String, Bool, true, false, not, ◌&&◌, ◌||◌, Option, none, some, List, [], ◌∷◌, leb,
  is_some, str_eq, if◌then◌else◌,
}
use remotetab.Store.{Store, lookup}
use remotetab.Crypto.Random.{timing_safe_equal}
use remotetab.Crypto.Tokens.{is_url_char, all_chars, char_count}
use remotetab.Signaling.Devices.{Device, EnrollResult, enrolled, known, conflict, enroll}
use remotetab.Signaling.RateLimit.{DeviceRateLimiter, allow_request}
use remotetab.Signaling.Turn.{
  ◌>>=◌, TurnCredentials, TurnAuthRequest, TurnRuntime, TurnAuthVerdict, accepted, valid_device_id,
  turn_auth_request, mint_turn_credentials, verify_turn_auth_request,
}

pub record HttpEnv : Type 0 where
  pub admin_token : String
  pub turn_secret : String
  pub turn_urls : List String
  pub turn_ttl_seconds : ℕ
  pub allowed_origins : List String

pub record HttpState : Type 0 where
  pub devices : Store Device
  pub turn_limiter : DeviceRateLimiter

pub data HttpError : Type 0 where
  admin_disabled invalid_device_identity identity_conflict turn_disabled : HttpError
  invalid_request unregistered_device device_revoked identity_mismatch rate_limited : HttpError
  internal : HttpError
  rejected : TurnAuthVerdict → HttpError

pub data Response : Type 0 where
  refused : HttpError → (status : ℕ) → Response
  enrolment : EnrollResult → (status : ℕ) → Response
  minted : TurnCredentials → (urls : List String) → Response

-- `c.req.json().catch(() => ({}))`.
abbrev pub body_of : Option Json → Json
body_of none = object end
body_of (some json) = json

-- `adminAuthorized(c)`; a header that is left out is empty.
unfoldable pub admin_authorized : (utf8 : String → List ℕ) → HttpEnv → (header : String) → Bool
unfolding timing_safe_equal
admin_authorized utf8 env header =
    if str_eq env.admin_token ""
    then false
    else timing_safe_equal (utf8 header) (utf8 (String.◌++◌ "Bearer " env.admin_token))

-- `SPKI_SHAPE` and `FINGERPRINT_SHAPE`.
unfoldable pub has_shape : ℕ → String → Bool
unfolding all_chars char_count
has_shape max s = all_chars is_url_char s && leb 20 (char_count s) && leb (char_count s) max

unfoldable pub shaped_text : ℕ → Option Json → Option String
unfolding has_shape
shaped_text max (some (string s)) = if has_shape max s then some s else none
shaped_text max _ = none

-- `displayName`: a text, or left out.
abbrev pub optional_name : Option Json → Option (Option String)
optional_name none = some none
optional_name (some (string s)) = some (some s)
optional_name _ = none

pub record DeviceBody : Type 0 where
  pub device_id : String
  pub public_key_spki : String
  pub public_key_fingerprint : String
  pub display_name : Option String

-- The checks of the body of `POST /admin/devices`.
unfoldable pub device_body : Json → Option DeviceBody
unfolding valid_device_id shaped_text property
device_body (object v) = valid_device_id (property "deviceId" v) >>= λ device_id.
    shaped_text 512 (property "publicKeySpki" v) >>= λ spki.
    shaped_text 64 (property "publicKeyFingerprint" v) >>= λ fingerprint.
    optional_name (property "displayName" v) >>= λ display_name. some (record {
      device_id = device_id;
      public_key_spki = spki;
      public_key_fingerprint = fingerprint;
      display_name = display_name;
    })
device_body _ = none

abbrev pub enrolment_status : EnrollResult → Response
enrolment_status enrolled = enrolment enrolled 201
enrolment_status known = enrolment known 200
enrolment_status conflict = refused identity_conflict 409

abbrev pub enrolled_as : HttpState → Store Device × EnrollResult → HttpState × Response
enrolled_as st (devices, result) = (record st { devices = devices }, enrolment_status result)

unfoldable pub enroll_body : Option DeviceBody → HttpState → HttpState × Response
unfolding enroll
enroll_body none st = (st, refused invalid_device_identity 400)
enroll_body (some b) st =
    enrolled_as st
      (enroll b.device_id b.public_key_spki b.public_key_fingerprint b.display_name st.devices)

abbrev pub is_null : Json → Bool
is_null null = true
is_null _ = false

-- `POST /admin/devices`; the destructuring throws on a body that is null.
unfoldable pub post_admin_devices :
    (utf8 : String → List ℕ)
    → HttpEnv
    → (header : String) → Option Json
    → HttpState
    → HttpState × Response
unfolding admin_authorized device_body enroll_body
post_admin_devices utf8 env header body st =
    if not (admin_authorized utf8 env header)
    then (st, refused admin_disabled (if str_eq env.admin_token "" then 404 else 403))
    else if is_null (body_of body)
    then (st, refused internal 500)
    else enroll_body (device_body (body_of body)) st

-- The verdict on a signed request.
unfoldable pub on_verdict :
    TurnRuntime → HttpEnv → ℕ → TurnAuthRequest → Option TurnAuthVerdict → Response
unfolding mint_turn_credentials
on_verdict rt env now_ms r none = refused internal 500
on_verdict rt env now_ms r (some accepted) =
    minted
      (mint_turn_credentials rt env.turn_secret r.device_id env.turn_ttl_seconds (now_ms / 1000))
      env.turn_urls
on_verdict rt env now_ms r (some verdict) = refused (rejected verdict) 401

-- The request of a device on record: its identity, its budget, its signature.
unfoldable pub on_device :
    TurnRuntime → HttpEnv → ℕ → TurnAuthRequest → Device → HttpState → HttpState × Response
unfolding on_verdict verify_turn_auth_request allow_request
on_device rt env now_ms r d st =
    let (limiter, allowed) = allow_request r.device_id now_ms st.turn_limiter in
    let verdict = verify_turn_auth_request rt r now_ms 60000 in
    if is_some d.revoked_at_ms
    then (st, refused device_revoked 403)
    else if not (str_eq d.public_key_spki r.public_key_spki)
        || not (str_eq d.fingerprint r.public_key_fingerprint)
    then (st, refused identity_mismatch 403)
    else if not allowed
    then (record st { turn_limiter = limiter }, refused rate_limited 429)
    else (record st { turn_limiter = limiter }, on_verdict rt env now_ms r verdict)

unfoldable pub on_request :
    TurnRuntime → HttpEnv → ℕ → Option TurnAuthRequest → HttpState → HttpState × Response
unfolding on_device
on_request rt env now_ms none st = (st, refused invalid_request 400)
on_request rt env now_ms (some r) st = elim (lookup r.device_id st.devices) [
  | none ↦ (st, refused unregistered_device 403)
  | some d ↦ on_device rt env now_ms r d st
]

abbrev pub has_none : List String → Bool
has_none [] = true
has_none (url ∷ urls) = false

-- `POST /turn/credentials`.
unfoldable pub post_turn_credentials :
    TurnRuntime → HttpEnv → ℕ → Option Json → HttpState → HttpState × Response
unfolding on_request turn_auth_request
post_turn_credentials rt env now_ms body st =
    if str_eq env.turn_secret "" || has_none env.turn_urls
    then (st, refused turn_disabled 404)
    else on_request rt env now_ms (turn_auth_request (body_of body)) st

-- A new server: twelve credentials for a device in ten minutes.
abbrev pub turn_limits : DeviceRateLimiter
turn_limits = record { windows = []; max_per_window = 12; window_ms = 600000; max_keys = 10000 }
