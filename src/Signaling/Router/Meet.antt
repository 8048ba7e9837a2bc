-- ===== src/Signaling/Router/Meet.antt =====
-- The handlers of apps/signaling/src/router.ts for `session.*` and `signal.*`.
use Prim.Native.String
use remotetab.Prelude.{
  String, Bool, true, false, ◌||◌, not, Option, none, some, List, [], ◌∷◌, ◌++◌, is_some,
  if◌then◌else◌, str_eq,
}
use remotetab.Store.{Store, lookup, insert, erase, erase_where}
use remotetab.Protocol.Errors.{message_invalid, session_not_found, session_conflict, device_revoked}
use remotetab.Protocol.Messages.{
  Frame, DeviceRole, desktop, phone, SessionRequest, SessionAccepted, session_rejected, role_name,
  signaling_frame,
}
use remotetab.Signaling.Registry.{RegisteredConnection, conn_id_for_device, truthy}
use remotetab.Signaling.Sessions.{
  Session, signaling, closed, is_closed, create, update, find_open_by_device,
}
use remotetab.Signaling.Devices.{is_revoked}
use remotetab.Signaling.Router.{
  Router, Context, Outcome, PendingRequest, keep_open, fatal, send, send_error, refuse, decline,
  require_authenticated, ws_close_policy,
}
use remotetab.Signaling.Router.Identity.{device_of}
use remotetab.Signaling.Router.Pair.{device_as}

-- `sessionRequestKey(desktopDeviceId, phoneDeviceId)`.
unfoldable pub session_request_key : String → String → String
session_request_key desktop_device_id phone_device_id =
    String.◌++◌ desktop_device_id (String.◌++◌ "|" phone_device_id)

-- The part of `onSessionRequest` behind its guards.
unfoldable pub forward_request :
    Context → Router → String → Frame → String → SessionRequest → Outcome
forward_request ctx st conn frame device_id r =
    elim (conn_id_for_device r.desktop_device_id st.registry) [
      | none ↦ decline ctx st conn session_not_found (some "desktop offline") frame.id
      | some desktop_conn ↦
          if truthy (some desktop_conn)
          then record {
            state = record st {
              session_requests =
                  insert (session_request_key r.desktop_device_id device_id)
                    (record { phone_conn_id = conn; frame = frame; request = r })
                    st.session_requests;
            };
            sent = send st desktop_conn frame;
            result = keep_open;
          }
          else decline ctx st conn session_not_found (some "desktop offline") frame.id
    ]

-- `onSessionRequest(conn, frame)`.
unfoldable pub on_session_request : Context → Router → String → Frame → SessionRequest → Outcome
on_session_request ctx st conn frame r =
    if not (require_authenticated ctx st conn)
    then refuse ctx st conn message_invalid (some "device authentication required") ws_close_policy
    else elim (device_as phone (lookup conn st.registry.conns)) [
      | none ↦
          refuse ctx st conn message_invalid (some "session.request requires phone role")
            ws_close_policy
      | some device_id ↦
          if is_revoked device_id st.devices || is_revoked r.desktop_device_id st.devices
          then decline ctx st conn device_revoked none frame.id
          else forward_request ctx st conn frame device_id r
    ]

-- A device of the two has an open session already: the loop over both.
unfoldable pub in_conflict : String → String → Store Session → Bool
in_conflict desktop_device_id phone_device_id m =
    is_some (find_open_by_device desktop_device_id m)
    || is_some (find_open_by_device phone_device_id m)

unfoldable pub new_session : Context → String → SessionAccepted → String → Session
new_session ctx conn a phone_conn = record {
  session_id = a.session_id;
  desktop_device_id = a.desktop_device_id;
  phone_device_id = a.phone_device_id;
  desktop_conn_id = conn;
  phone_conn_id = phone_conn;
  state = signaling;
  created_at_ms = ctx.now_ms;
}

-- The part of `onSessionAccepted` behind the request, which is used up whatever follows.
unfoldable pub open_session :
    Context → Router → String → Frame → String → SessionAccepted → PendingRequest → Outcome
open_session ctx st conn frame device_id a request =
    let key = session_request_key device_id a.phone_device_id in
    let st' = record st { session_requests = erase key st.session_requests } in
    if not (str_eq a.desktop_device_id device_id)
    then refuse ctx st' conn message_invalid (some "session.accepted desktop mismatch")
        ws_close_policy
    else if in_conflict device_id a.phone_device_id st.sessions
    then record {
      state = st';
      sent =
          send_error ctx conn session_conflict (some "a device already has an open session")
            frame.id
          ++ send st request.phone_conn_id
              (signaling_frame (session_rejected session_conflict) none);
      result = keep_open;
    }
    else record {
      state = record st' {
        sessions = create (new_session ctx conn a request.phone_conn_id) st.sessions;
      };
      sent = send st request.phone_conn_id frame;
      result = keep_open;
    }

-- `onSessionAccepted(conn, frame)`.
unfoldable pub on_session_accepted : Context → Router → String → Frame → SessionAccepted → Outcome
on_session_accepted ctx st conn frame a = elim (device_as desktop (lookup conn st.registry.conns)) [
  | none ↦
      refuse ctx st conn message_invalid (some "session.accepted requires desktop role")
        ws_close_policy
  | some device_id ↦
      elim (lookup (session_request_key device_id a.phone_device_id) st.session_requests) [
        | none ↦ decline ctx st conn session_not_found (some "no pending session request") frame.id
        | some request ↦ open_session ctx st conn frame device_id a request
      ]
]

-- The rejection goes to the phone of every request for the desktop.
unfoldable pub forward_rejection :
    Router → String → Frame → Store PendingRequest → List (String × Frame)
forward_rejection st device_id frame [] = []
forward_rejection st device_id frame ((key, r) ∷ rs) =
    let rest = forward_rejection st device_id frame rs in
    if str_eq r.request.desktop_device_id device_id
    then send st r.phone_conn_id frame ++ rest
    else rest

-- `onSessionRejected(conn, frame)`.
unfoldable pub on_session_rejected : Context → Router → String → Frame → Outcome
on_session_rejected ctx st conn frame = elim (device_as desktop (lookup conn st.registry.conns)) [
  | none ↦
      refuse ctx st conn message_invalid (some "session.rejected requires desktop role")
        ws_close_policy
  | some device_id ↦ record {
    state = record st {
      session_requests =
          erase_where (λ r. str_eq r.request.desktop_device_id device_id) st.session_requests;
    };
    sent = forward_rejection st device_id frame st.session_requests;
    result = keep_open;
  }
]

-- `session.desktopConnId === connId || session.phoneConnId === connId`.
abbrev pub takes_part : String → Session → Bool
takes_part conn s = str_eq s.desktop_conn_id conn || str_eq s.phone_conn_id conn

-- The other connection of a session.
abbrev pub peer_conn : String → Session → String
peer_conn conn s = if str_eq s.desktop_conn_id conn then s.phone_conn_id else s.desktop_conn_id

-- `onSessionClose(conn, frame)`.
unfoldable pub on_session_close : Context → Router → String → Frame → String → Outcome
on_session_close ctx st conn frame session_id = elim (device_of (lookup conn st.registry.conns)) [
  | none ↦ record { state = st; sent = []; result = fatal ws_close_policy }
  | some device_id ↦ elim (lookup session_id st.sessions) [
    | none ↦ decline ctx st conn session_not_found none frame.id
    | some s ↦
        if takes_part conn s
        then record {
          state = record st { sessions = update (record s { state = closed }) st.sessions };
          sent = send st (peer_conn conn s) frame;
          result = keep_open;
        }
        else refuse ctx st conn message_invalid (some "not a session participant") ws_close_policy
  ]
]

abbrev pub same_role : DeviceRole → Option DeviceRole → Bool
same_role desktop (some desktop) = true
same_role phone (some phone) = true
same_role _ _ = false

-- `requireRole && reg.role !== requireRole`.
abbrev pub wrong_role : Option DeviceRole → Option RegisteredConnection → Bool
wrong_role none reg = false
wrong_role (some role) none = true
wrong_role (some role) (some reg) = not (same_role role reg.role)

-- The part of `relaySignal` behind the check of the role.
unfoldable pub relay : Context → Router → String → Frame → String → Outcome
relay ctx st conn frame session_id = elim (lookup session_id st.sessions) [
  | none ↦ decline ctx st conn session_not_found none none
  | some s ↦
      if is_closed s.state
      then decline ctx st conn session_not_found none none
      else if takes_part conn s
      then record { state = st; sent = send st (peer_conn conn s) frame; result = keep_open }
      else refuse ctx st conn message_invalid (some "not a session participant") ws_close_policy
]

abbrev pub role_reason : String → Option DeviceRole → String
role_reason type none = type
role_reason type (some role) =
    String.◌++◌ type (String.◌++◌ " requires " (String.◌++◌ (role_name role) " role"))

-- `relaySignal(conn, frame, requireRole)`; `type` is the type of the frame.
unfoldable pub relay_signal :
    Context → Router → String → Frame → String → String → Option DeviceRole → Outcome
unfolding relay
relay_signal ctx st conn frame session_id type role =
    elim (device_of (lookup conn st.registry.conns)) [
      | none ↦ record { state = st; sent = []; result = fatal ws_close_policy }
      | some device_id ↦
          if wrong_role role (lookup conn st.registry.conns)
          then refuse ctx st conn message_invalid (some (role_reason type role)) ws_close_policy
          else relay ctx st conn frame session_id
    ]
