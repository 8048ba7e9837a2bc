-- ===== src/Signaling/Router.antt =====
-- `SignalingRouter` of apps/signaling/src/router.ts: its state, what a call takes from outside, and
-- its ways to answer. The handlers are in the modules below.
pub mod Identity
pub mod Pair
pub mod Meet
pub mod Close
pub mod Dispatch
pub mod Footprint
pub mod OneSession
pub mod PairingMoves
pub mod Trust
pub mod Departure
pub mod Relay
use Prim.Native.String
use remotetab.Prelude.{
  ℕ, zero, suc, String, Bool, true, false, Option, none, some, List, [], ◌∷◌, ◌||◌, not,
  if◌then◌else◌,
}
use remotetab.Store.{Store, has}
use remotetab.Protocol.Errors.{ErrorCode, code_name}
use remotetab.Protocol.Messages.{Frame, SessionRequest, error, signaling_frame}
use remotetab.Signaling.Registry.{ConnectionRegistry, truthy}
use remotetab.Signaling.Pairings.{Pairing}
use remotetab.Signaling.Sessions.{Session}
use remotetab.Signaling.Devices.{Device}

abbrev pub ws_close_normal : ℕ
ws_close_normal = 1000

abbrev pub ws_close_protocol_error : ℕ
ws_close_protocol_error = 1002

abbrev pub ws_close_policy : ℕ
ws_close_policy = 1008

abbrev pub max_auth_failures : ℕ
max_auth_failures = 5

pub data DeviceAuthMode : Type 0 where
  open_mode required : DeviceAuthMode

abbrev pub is_required : DeviceAuthMode → Bool
is_required required = true
is_required open_mode = false

pub record PendingRequest : Type 0 where
  pub phone_conn_id : String
  pub frame : Frame
  pub request : SessionRequest

pub record PendingAuth : Type 0 where
  pub nonce : String
  pub failures : ℕ

-- The repositories of `RouterDeps` and the maps of the router; a `Set` is a map to `Unit`.
pub record Router : Type 0 where
  pub registry : ConnectionRegistry
  pub pairings : Store Pairing
  pub sessions : Store Session
  pub devices : Store Device
  pub handles : Store (Unit {0})
  pub session_requests : Store PendingRequest
  pub authenticated : Store (Unit {0})
  pub pending_auth : Store PendingAuth

-- What one call takes from outside: the clock, the configuration, the values of the random
-- generators, and the runtime's cryptography. `fingerprint_of` is `none` where the runtime throws;
-- `verify` is false where it throws, since the source catches that.
pub record Context : Type 0 where
  pub now_ms : ℕ
  pub auth_mode : DeviceAuthMode
  pub is_production : Bool
  pub new_pair_id : String
  pub new_request_id : String
  pub new_nonce : String
  pub utf8 : String → List ℕ
  pub fingerprint_of : String → Option String
  pub verify : String → Option (List ℕ) → String → Bool

pub data InboundResult : Type 0 where
  keep_open : InboundResult
  fatal : (code : ℕ) → InboundResult
  thrown : InboundResult

-- The state after a call, the frames that it sent, each with the connection it goes to, in order,
-- and its result.
pub record Outcome : Type 0 where
  pub state : Router
  pub sent : List (String × Frame)
  pub result : InboundResult

-- `this.send(connId, frame)`: dropped if no handle is bound.
unfoldable pub send : Router → String → Frame → List (String × Frame)
send st conn_id frame = if has conn_id st.handles then (conn_id, frame) ∷ [] else []

unfoldable pub take_chars : ℕ → String → String
take_chars zero s = String.[]
take_chars (suc n) String.[] = String.[]
take_chars (suc n) (String.◌∷◌ c s) = String.◌∷◌ c (take_chars n s)

-- The text of an error: the reason is shown in development only.
unfoldable pub error_text : Bool → ErrorCode → Option String → String
error_text is_production code none = code_name code
error_text is_production code (some reason) =
    if is_production || not (truthy (some reason))
    then code_name code
    else String.◌++◌ (code_name code) (String.◌++◌ " (" (String.◌++◌ reason ")"))

-- `sendError(conn, code, reason, replyTo)`, which writes to the connection itself.
unfoldable pub send_error :
    Context → String → ErrorCode → Option String → Option String → List (String × Frame)
unfolding take_chars error_text signaling_frame
send_error ctx conn code reason reply_to =
    (
      conn,
      signaling_frame (error code (some (take_chars 64 (error_text ctx.is_production code reason))))
          (some (elim reply_to [ none ↦ ctx.new_request_id | some id ↦ id ])),
    )
    ∷ []

-- `this.sendError(…); return FATAL(code);`
abbrev pub refuse : Context → Router → String → ErrorCode → Option String → ℕ → Outcome
refuse ctx st conn code reason close_code = record {
  state = st;
  sent = send_error ctx conn code reason none;
  result = fatal close_code;
}

-- `this.sendError(…, frame.id); return OK;`
abbrev pub decline : Context → Router → String → ErrorCode → Option String → Option String → Outcome
decline ctx st conn code reason reply_to = record {
  state = st;
  sent = send_error ctx conn code reason reply_to;
  result = keep_open;
}

-- `requireAuthenticated(conn)`.
unfoldable pub require_authenticated : Context → Router → String → Bool
require_authenticated ctx st conn =
    if is_required ctx.auth_mode then has conn st.authenticated else true
