-- ===== src/Examples/Requests.antt =====
-- The theorems about the HTTP routes of the service.
use remotetab.Prelude.{◌≡◌, refl, ◌⊎◌, none, some, [], ◌∷◌, arith, str_eq}
use remotetab.Json.{Json, number, string, object, end, field}
use remotetab.Store.{lookup}
use remotetab.Crypto.Transcript.{encode_transcript}
use remotetab.Signaling.RateLimit.{allow_request}
use remotetab.Signaling.Turn.{
  TurnRuntime, TurnAuthRequest, turn_auth_request, turn_transcript, mint_turn_credentials,
}
use remotetab.Signaling.Http.{
  HttpEnv, HttpState, minted, turn_limits, post_turn_credentials, post_admin_devices,
}
use remotetab.Signaling.Http.Minted.{
  IsEntitled, post_turn_credentials-minted, post_turn_credentials-serves,
}
use remotetab.Signaling.Http.Admin.{IsEnrolment, post_admin_devices-moves}

abbrev runtime : TurnRuntime
runtime = record {
  decimal = λ n. "n";
  utf8 = λ s. 1 ∷ [];
  hmac_sha1 = λ secret message. secret;
  fingerprint_of = λ key. some "aaaaaaaaaaaaaaaaaaaaaaaa";
  verify = λ key covered signature. str_eq signature "good";
}

abbrev env : HttpEnv
env = record {
  admin_token = "token";
  turn_secret = "shared";
  turn_urls = "turn:relay" ∷ [];
  turn_ttl_seconds = 600;
  allowed_origins = [];
}

abbrev state : HttpState
state = record {
  devices =
      (
        "phone001",
        record {
          public_key_spki = "keykeykeykeykeykeykey";
          fingerprint = "aaaaaaaaaaaaaaaaaaaaaaaa";
          display_name = none;
          revoked_at_ms = none;
        },
      )
      ∷ [];
  turn_limiter = turn_limits;
}

abbrev body : Json
body = object (
    field "deviceId" (string "phone001") (
      field "timestamp" (number 70000) (
        field "publicKeySpki" (string "keykeykeykeykeykeykey") (
          field "publicKeyFingerprint" (string "aaaaaaaaaaaaaaaaaaaaaaaa")
            (field "signature" (string "good") end)))))

abbrev request : TurnAuthRequest
request = record {
  device_id = "phone001";
  timestamp = 70000;
  public_key_spki = "keykeykeykeykeykeykey";
  public_key_fingerprint = "aaaaaaaaaaaaaaaaaaaaaaaa";
  signature = "good";
}

request_read : turn_auth_request body ≡ some request
unfolding turn_auth_request
request_read = refl

request-IsEntitled : IsEntitled runtime 80000 state request
unfolding lookup allow_request turn_transcript encode_transcript
request-IsEntitled = record {
  device = record {
    public_key_spki = "keykeykeykeykeykeykey";
    fingerprint = "aaaaaaaaaaaaaaaaaaaaaaaa";
    display_name = none;
    revoked_at_ms = none;
  };
  registered = refl;
  unrevoked = refl;
  same_key = refl;
  same_fingerprint = refl;
  in_budget = refl;
  timely = omega arith;
  hashed = refl;
  signed = refl;
}

request_served :
    (post_turn_credentials runtime env 80000 (some body) state).1
    ≡ minted (mint_turn_credentials runtime "shared" "phone001" 600 80) ("turn:relay" ∷ [])
request_served =
    post_turn_credentials-serves runtime env 80000 (some body) state request refl request_read
      request-IsEntitled

post_turn_credentials-minted_example :
    (r : TurnAuthRequest) × (turn_auth_request body ≡ some r)
    × IsEntitled runtime 80000 state r
    × (mint_turn_credentials runtime "shared" "phone001" 600 80
        ≡ mint_turn_credentials runtime "shared" r.device_id 600 80)
post_turn_credentials-minted_example =
    post_turn_credentials-minted runtime env 80000 (some body) state
      (mint_turn_credentials runtime "shared" "phone001" 600 80) ("turn:relay" ∷ []) request_served

post_admin_devices-moves_example :
    let r = post_admin_devices runtime.utf8 env "Bearer token" (some body) state in
    (r.0 ≡ state) ⊎ IsEnrolment runtime.utf8 env "Bearer token" (some body) state r
post_admin_devices-moves_example =
    post_admin_devices-moves runtime.utf8 env "Bearer token" (some body) state
