-- ===== src/Signaling/Router/Identity.antt =====
-- The handlers of apps/signaling/src/router.ts for `hello` and `auth.proof`.
use remotetab.Prelude.{
  ℕ, ◌+◌, leb, String, Bool, true, false, ◌&&◌, ◌||◌, not, Option, none, some, [], ◌∷◌, is_some,
  if◌then◌else◌, str_eq,
}
use remotetab.Store.{Store, lookup, insert, erase}
use remotetab.Protocol.Errors.{message_invalid, session_conflict, device_revoked}
use remotetab.Protocol.Messages.{
  Frame, Hello, AuthProof, hello_ok, auth_challenge, auth_ok, signaling_frame,
}
use remotetab.Crypto.Transcript.{encode_transcript}
use remotetab.Signaling.Registry.{RegisteredConnection, bind, truthy}
use remotetab.Signaling.Devices.{Device, enroll, is_revoked}
use remotetab.Signaling.Router.{
  Router, Context, Outcome, keep_open, fatal, thrown, PendingAuth, is_required, refuse,
  ws_close_policy, ws_close_protocol_error, max_auth_failures,
}

abbrev pub ws_auth_domain : String
ws_auth_domain = "remotetab.v1.ws-auth"

-- The part of `onHello` behind the check of the role: bind, greet and challenge.
unfoldable pub greet : Context → Router → String → Frame → Hello → Outcome
greet ctx st conn frame h =
    let (registry, bound) = bind conn h.role h.device_id st.registry in
    if bound
    then record {
      state = record st {
        registry = registry;
        pending_auth = insert conn (record { nonce = ctx.new_nonce; failures = 0 }) st.pending_auth;
      };
      sent =
          (conn, signaling_frame (hello_ok 15 45) frame.id)
          ∷ (conn, signaling_frame (auth_challenge ctx.new_nonce) none)
          ∷ [];
      result = keep_open;
    }
    else refuse ctx (record st { registry = registry }) conn session_conflict
        (some "device already connected elsewhere") ws_close_policy

-- `onHello(conn, frame)`.
unfoldable pub on_hello : Context → Router → String → Frame → Hello → Outcome
unfolding greet
on_hello ctx st conn frame h = elim (lookup conn st.registry.conns) [
  | none ↦ record { state = st; sent = []; result = fatal ws_close_policy }
  | some reg ↦
      if is_some reg.role
      then refuse ctx st conn message_invalid (some "hello already sent") ws_close_protocol_error
      else greet ctx st conn frame h
]

-- The pending challenges after one more failure of a connection.
unfoldable pub count_failure : String → Store PendingAuth → Store PendingAuth × ℕ
count_failure conn m = elim (lookup conn m) [
  | none ↦ (m, 1)
  | some p ↦ (insert conn (record p { failures = p.failures + 1 }) m, p.failures + 1)
]

-- `authFailure(conn, deviceId, reason)`; the reason goes to the log only.
unfoldable pub auth_failure : Context → Router → String → Outcome
unfolding count_failure
auth_failure ctx st conn =
    let (pending, failures) = count_failure conn st.pending_auth in
    record {
      state = record st { pending_auth = pending };
      sent = [];
      result =
          if is_required ctx.auth_mode || leb max_auth_failures failures
          then fatal ws_close_policy
          else keep_open;
    }

-- The verified connection: no challenge is pending, and the proof is acknowledged.
unfoldable pub authenticate : Router → String → Frame → Store Device → Bool → Outcome
authenticate st conn frame devices registered = record {
  state = record st {
    devices = devices;
    pending_auth = erase conn st.pending_auth;
    authenticated = insert conn tt st.authenticated;
  };
  sent = (conn, signaling_frame (auth_ok registered) frame.id) ∷ [];
  result = keep_open;
}

-- The part of `onAuthProof` behind the signature: identity continuity and enrollment.
unfoldable pub continue_identity : Context → Router → String → Frame → String → AuthProof → Outcome
unfolding authenticate auth_failure
continue_identity ctx st conn frame device_id proof = elim (lookup device_id st.devices) [
  | some known ↦
      if str_eq known.public_key_spki proof.public_key_spki
        && str_eq known.fingerprint proof.public_key_fingerprint
      then authenticate st conn frame st.devices false
      else auth_failure ctx st conn
  | none ↦
      if is_required ctx.auth_mode
      then auth_failure ctx st conn
      else authenticate st conn frame
          (enroll device_id proof.public_key_spki proof.public_key_fingerprint proof.display_name
            st.devices).0
          true
]

-- The signature of a proof over the pending nonce and the device of the connection.
unfoldable pub proof_holds : Context → String → String → AuthProof → Bool
proof_holds ctx nonce device_id proof =
    ctx.verify proof.public_key_spki
      (encode_transcript ctx.utf8 (ws_auth_domain ∷ "1" ∷ nonce ∷ device_id ∷ [])) proof.signature

-- The part of `onAuthProof` behind the lookups.
unfoldable pub verify_proof :
    Context → Router → String → Frame → String → String → AuthProof → Outcome
unfolding continue_identity
verify_proof ctx st conn frame nonce device_id proof =
    elim (ctx.fingerprint_of proof.public_key_spki) [
      | none ↦ record { state = st; sent = []; result = thrown }
      | some fp ↦
          if not (str_eq fp proof.public_key_fingerprint)
          then auth_failure ctx st conn
          else if is_revoked device_id st.devices
          then refuse ctx st conn device_revoked none ws_close_policy
          else if not (proof_holds ctx nonce device_id proof)
          then auth_failure ctx st conn
          else continue_identity ctx st conn frame device_id proof
    ]

abbrev pub device_of : Option RegisteredConnection → Option String
device_of none = none
device_of (some reg) = reg.device_id

-- `onAuthProof(conn, frame)`: a challenge must be pending, for a connection with a device.
unfoldable pub on_auth_proof : Context → Router → String → Frame → AuthProof → Outcome
unfolding verify_proof
on_auth_proof ctx st conn frame proof = elim (lookup conn st.pending_auth) [
  | none ↦
      refuse ctx st conn message_invalid (some "no pending auth challenge") ws_close_protocol_error
  | some pending ↦ elim (device_of (lookup conn st.registry.conns)) [
    | none ↦
        refuse ctx st conn message_invalid (some "no pending auth challenge")
          ws_close_protocol_error
    | some device_id ↦
        if truthy (some device_id)
        then verify_proof ctx st conn frame pending.nonce device_id proof
        else refuse ctx st conn message_invalid (some "no pending auth challenge")
            ws_close_protocol_error
  ]
]
