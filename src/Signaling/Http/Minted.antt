-- ===== src/Signaling/Http/Minted.antt =====
-- Who gets TURN credentials.
use remotetab.Json.{Json}
use remotetab.Prelude.{
  ◌≡◌, refl, ap, ◌∙◌, eq_refl, ℕ, ◌/◌, ◌≤◌, String, true, false, ◌||◌, Option, none, some, List,
  is_some, str_eq, eq_iff, arith, Bool-cases, Option-cases, inl, inr,
}
use remotetab.Store.{lookup}
use remotetab.Signaling.Devices.{Device}
use remotetab.Signaling.RateLimit.{allow_request}
use remotetab.Signaling.Turn.{
  TurnCredentials, TurnAuthRequest, TurnRuntime, TurnAuthVerdict, accepted, stale,
  wrong_fingerprint, wrong_signature, distance, turn_auth_request, turn_transcript,
  mint_turn_credentials, verify_computed, verify_turn_auth_request,
}
use remotetab.Signaling.Http.{
  HttpEnv, HttpState, minted, body_of, has_none, on_verdict, on_device, on_request,
  post_turn_credentials,
}

-- A signed request that the registry's record of its device bears out.
pub record IsEntitled (rt : TurnRuntime) (now_ms : ℕ) (st : HttpState) (r : TurnAuthRequest)
    : Type 0 where
  pub device : Device
  pub registered : lookup r.device_id st.devices ≡ some device
  pub unrevoked : device.revoked_at_ms ≡ none
  pub same_key : device.public_key_spki ≡ r.public_key_spki
  pub same_fingerprint : device.fingerprint ≡ r.public_key_fingerprint
  pub in_budget : (allow_request r.device_id now_ms st.turn_limiter).1 ≡ true
  pub timely : distance now_ms r.timestamp ≤ 60000
  pub hashed : rt.fingerprint_of r.public_key_spki ≡ some r.public_key_fingerprint
  pub signed : rt.verify r.public_key_spki (turn_transcript rt r) r.signature ≡ true

verify_computed-accepted :
    (rt : TurnRuntime) (r : TurnAuthRequest) (o : Option String)
    → verify_computed rt r o ≡ some accepted
    → (o ≡ some r.public_key_fingerprint)
      × (rt.verify r.public_key_spki (turn_transcript rt r) r.signature ≡ true)
unfolding verify_computed
verify_computed-accepted rt r none e = cc
verify_computed-accepted rt r (some computed) e =
    ground (arith, eq_iff computed r.public_key_fingerprint)

verify-accepted :
    (rt : TurnRuntime) (r : TurnAuthRequest) (now_ms skew_ms : ℕ)
    → verify_turn_auth_request rt r now_ms skew_ms ≡ some accepted
    → (distance now_ms r.timestamp ≤ skew_ms)
      × (verify_computed rt r (rt.fingerprint_of r.public_key_spki) ≡ some accepted)
unfolding verify_turn_auth_request
verify-accepted rt r now_ms skew_ms e = ground arith

on_verdict-minted :
    (rt : TurnRuntime) (env : HttpEnv) (now_ms : ℕ) (r : TurnAuthRequest)
    (v : Option TurnAuthVerdict) (cred : TurnCredentials) (urls : List String)
    → on_verdict rt env now_ms r v ≡ minted cred urls
    → (v ≡ some accepted)
      × (cred
          ≡ mint_turn_credentials rt env.turn_secret r.device_id env.turn_ttl_seconds
              (now_ms / 1000))
unfolding on_verdict
on_verdict-minted rt env now_ms r none cred urls e = cc
on_verdict-minted rt env now_ms r (some accepted) cred urls e = (refl, cc)
on_verdict-minted rt env now_ms r (some stale) cred urls e = cc
on_verdict-minted rt env now_ms r (some wrong_fingerprint) cred urls e = cc
on_verdict-minted rt env now_ms r (some wrong_signature) cred urls e = cc

-- The branch in which a verdict is asked for.
on_device-verdict :
    (rt : TurnRuntime) (env : HttpEnv) (now_ms : ℕ) (r : TurnAuthRequest) (d : Device)
    (st : HttpState) (cred : TurnCredentials) (urls : List String)
    → (on_device rt env now_ms r d st).1 ≡ minted cred urls
    → (is_some d.revoked_at_ms ≡ false)
      × (str_eq d.public_key_spki r.public_key_spki ≡ true)
      × (str_eq d.fingerprint r.public_key_fingerprint ≡ true)
      × ((allow_request r.device_id now_ms st.turn_limiter).1 ≡ true)
      × (on_verdict rt env now_ms r (verify_turn_auth_request rt r now_ms 60000) ≡ minted cred urls)
unfolding on_device
on_device-verdict rt env now_ms r d st cred urls e = ground arith

unrevoked_of : (o : Option ℕ) → is_some o ≡ false → o ≡ none
unrevoked_of none e = refl
unrevoked_of (some t) e = cc

on_device-minted :
    (rt : TurnRuntime) (env : HttpEnv) (now_ms : ℕ) (r : TurnAuthRequest) (d : Device)
    (st : HttpState) (cred : TurnCredentials) (urls : List String)
    → lookup r.device_id st.devices ≡ some d
    → (on_device rt env now_ms r d st).1 ≡ minted cred urls
    → IsEntitled rt now_ms st r
      × (cred
          ≡ mint_turn_credentials rt env.turn_secret r.device_id env.turn_ttl_seconds
              (now_ms / 1000))
on_device-minted rt env now_ms r d st cred urls found e =
    let (live, key, print, budget, verdict) = on_device-verdict rt env now_ms r d st cred urls e in
    let (is_accepted, made) =
      on_verdict-minted rt env now_ms r (verify_turn_auth_request rt r now_ms 60000) cred urls
        verdict in
    let (timely, computed) = verify-accepted rt r now_ms 60000 is_accepted in
    let (hashed, signed) =
      verify_computed-accepted rt r (rt.fingerprint_of r.public_key_spki) computed in
    (
      record {
        device = d;
        registered = found;
        unrevoked = unrevoked_of d.revoked_at_ms live;
        same_key = (eq_iff d.public_key_spki r.public_key_spki).0 key;
        same_fingerprint = (eq_iff d.fingerprint r.public_key_fingerprint).0 print;
        in_budget = budget;
        timely = timely;
        hashed = hashed;
        signed = signed;
      },
      made,
    )

found_minted :
    (rt : TurnRuntime) (env : HttpEnv) (now_ms : ℕ) (r : TurnAuthRequest) (st : HttpState)
    (cred : TurnCredentials) (urls : List String)
    → (on_request rt env now_ms (some r) st).1 ≡ minted cred urls
    → IsEntitled rt now_ms st r
      × (cred
          ≡ mint_turn_credentials rt env.turn_secret r.device_id env.turn_ttl_seconds
              (now_ms / 1000))
unfolding on_request
found_minted rt env now_ms r st cred urls e = elim (Option-cases (lookup r.device_id st.devices)) [
  | inl n ↦ absurd (ground arith)
  | inr (d, n) ↦ on_device-minted rt env now_ms r d st cred urls n (rw (on_request, n) at e)
]

read_minted :
    (rt : TurnRuntime) (env : HttpEnv) (now_ms : ℕ) (o : Option TurnAuthRequest) (st : HttpState)
    (cred : TurnCredentials) (urls : List String)
    → (on_request rt env now_ms o st).1 ≡ minted cred urls
    → (r : TurnAuthRequest) × (o ≡ some r)
      × IsEntitled rt now_ms st r
      × (cred
          ≡ mint_turn_credentials rt env.turn_secret r.device_id env.turn_ttl_seconds
              (now_ms / 1000))
unfolding on_request
read_minted rt env now_ms none st cred urls e = cc
read_minted rt env now_ms (some r) st cred urls e =
    let (entitled, made) = found_minted rt env now_ms r st cred urls e in (r, refl, entitled, made)

-- TURN credentials are minted only for a request that is signed within a minute of now by the key
-- that the registry has for its device, a device that is not revoked and has budget left; and they
-- are those of that device.
pub post_turn_credentials-minted :
    (rt : TurnRuntime) (env : HttpEnv) (now_ms : ℕ) (body : Option Json) (st : HttpState)
    (cred : TurnCredentials) (urls : List String)
    → (post_turn_credentials rt env now_ms body st).1 ≡ minted cred urls
    → (r : TurnAuthRequest) × (turn_auth_request (body_of body) ≡ some r)
      × IsEntitled rt now_ms st r
      × (cred
          ≡ mint_turn_credentials rt env.turn_secret r.device_id env.turn_ttl_seconds
              (now_ms / 1000))
unfolding post_turn_credentials
post_turn_credentials-minted rt env now_ms body st cred urls e =
    elim (Bool-cases (str_eq env.turn_secret "" || has_none env.turn_urls)) [
      | inl off ↦ absurd (ground arith)
      | inr on ↦
          read_minted rt env now_ms (turn_auth_request (body_of body)) st cred urls (rw on at e)
    ]

verify-entitled :
    (rt : TurnRuntime) (now_ms : ℕ) (st : HttpState) (r : TurnAuthRequest)
    → IsEntitled rt now_ms st r
    → verify_turn_auth_request rt r now_ms 60000 ≡ some accepted
unfolding verify_turn_auth_request verify_computed
verify-entitled rt now_ms st r h =
    rw (h.hashed, eq_refl r.public_key_fingerprint, h.signed) (ground (arith, h.timely))

on_device-serves :
    (rt : TurnRuntime) (env : HttpEnv) (now_ms : ℕ) (st : HttpState) (r : TurnAuthRequest)
    → (h : IsEntitled rt now_ms st r)
    → (on_device rt env now_ms r h.device st).1
      ≡ on_verdict rt env now_ms r (verify_turn_auth_request rt r now_ms 60000)
unfolding on_device
on_device-serves rt env now_ms st r h = ground (
  arith,
  eq_iff h.device.public_key_spki r.public_key_spki,
  eq_iff h.device.fingerprint r.public_key_fingerprint,
  h.in_budget,
  h.unrevoked,
  h.same_key,
  h.same_fingerprint,
)

-- An entitled request is served, if TURN is set up.
pub post_turn_credentials-serves :
    (rt : TurnRuntime) (env : HttpEnv) (now_ms : ℕ) (body : Option Json) (st : HttpState)
    (r : TurnAuthRequest)
    → (str_eq env.turn_secret "" || has_none env.turn_urls) ≡ false
    → turn_auth_request (body_of body) ≡ some r
    → IsEntitled rt now_ms st r
    → (post_turn_credentials rt env now_ms body st).1
      ≡ minted
          (mint_turn_credentials rt env.turn_secret r.device_id env.turn_ttl_seconds
            (now_ms / 1000))
          env.turn_urls
unfolding post_turn_credentials
post_turn_credentials-serves rt env now_ms body st r on e h =
    rw (on, e, on_request, h.registered)
      (on_device-serves rt env now_ms st r h
        ∙ ap (on_verdict rt env now_ms r) (verify-entitled rt now_ms st r h)
        ∙ unfold on_verdict in refl)
