-- ===== src/Signaling/Router/Dispatch.antt =====
-- `handleFrame` and `dispatch` of apps/signaling/src/router.ts.
use remotetab.Prelude.{String, Bool, true, false, ◌||◌, none, some, [], ◌∷◌, is_none, if◌then◌else◌}
use remotetab.Store.{lookup}
use remotetab.Protocol.Errors.{message_invalid, ParseResult, ok, err}
use remotetab.Protocol.Messages.{
  Frame, SignalingMessage, desktop, phone, hello, hello_ok, pair_create, pair_created, pair_join,
  pair_accept, pair_accepted, pair_reject, pair_rejected, session_request, session_accepted,
  session_rejected, session_close, signal_offer, signal_answer, signal_ice, presence_ping,
  presence_pong, auth_challenge, auth_proof, auth_ok, error, signaling_frame,
}
use remotetab.Signaling.Registry.{touch}
use remotetab.Signaling.Router.{
  Router, Context, Outcome, keep_open, fatal, refuse, send_error, ws_close_policy,
  ws_close_protocol_error,
}
use remotetab.Signaling.Router.Identity.{on_hello, on_auth_proof}
use remotetab.Signaling.Router.Pair.{on_pair_create, on_pair_join, on_decision}
use remotetab.Signaling.Router.Meet.{
  on_session_request, on_session_accepted, on_session_rejected, on_session_close, relay_signal,
}

-- Types that only the server sends.
unfoldable pub unexpected : Context → Router → String → Outcome
unexpected ctx st conn =
    refuse ctx st conn message_invalid (some "unexpected message for this state")
      ws_close_protocol_error

-- The `switch` of `dispatch`, for a connection that has said hello.
unfoldable pub route : Context → Router → String → Frame → SignalingMessage → Outcome
unfolding unexpected
route ctx st conn frame (pair_create p) = on_pair_create ctx st conn frame p
route ctx st conn frame (pair_join p) = on_pair_join ctx st conn frame p
route ctx st conn frame (pair_accept pair_id) = on_decision ctx st conn frame pair_id true
route ctx st conn frame (pair_reject pair_id code) = on_decision ctx st conn frame pair_id false
route ctx st conn frame (session_request p) = on_session_request ctx st conn frame p
route ctx st conn frame (session_accepted p) = on_session_accepted ctx st conn frame p
route ctx st conn frame (session_rejected code) = on_session_rejected ctx st conn frame
route ctx st conn frame (session_close session_id reason) =
    on_session_close ctx st conn frame session_id
route ctx st conn frame (signal_offer session_id sdp) =
    relay_signal ctx st conn frame session_id "signal.offer" (some desktop)
route ctx st conn frame (signal_answer session_id sdp) =
    relay_signal ctx st conn frame session_id "signal.answer" (some phone)
route ctx st conn frame (signal_ice p) =
    relay_signal ctx st conn frame p.session_id "signal.ice" none
route ctx st conn frame (presence_ping ts) = record {
  state = st;
  sent = (conn, signaling_frame (presence_pong ts) none) ∷ [];
  result = keep_open;
}
route ctx st conn frame (hello p) = unexpected ctx st conn
route ctx st conn frame (hello_ok i t) = unexpected ctx st conn
route ctx st conn frame (pair_created i t) = unexpected ctx st conn
route ctx st conn frame (pair_accepted i d p) = unexpected ctx st conn
route ctx st conn frame (pair_rejected i c) = unexpected ctx st conn
route ctx st conn frame (presence_pong ts) = unexpected ctx st conn
route ctx st conn frame (auth_challenge n) = unexpected ctx st conn
route ctx st conn frame (auth_proof p) = unexpected ctx st conn
route ctx st conn frame (auth_ok b) = unexpected ctx st conn
route ctx st conn frame (error c m) = unexpected ctx st conn

-- A frame of a registered connection that is neither `hello` nor `auth.proof`.
unfoldable pub after_hello : Context → Router → String → Frame → Bool → Outcome
unfolding route
after_hello ctx st conn frame greeted =
    if greeted
    then route ctx (record st { registry = touch conn ctx.now_ms st.registry }) conn frame
        frame.message
    else refuse ctx st conn message_invalid (some "hello required before other messages")
        ws_close_protocol_error

unfoldable pub dispatch_registered :
    Context → Router → String → Frame → SignalingMessage → Bool → Outcome
unfolding after_hello
dispatch_registered ctx st conn frame (hello p) greeted = on_hello ctx st conn frame p
dispatch_registered ctx st conn frame (auth_proof p) greeted = on_auth_proof ctx st conn frame p
dispatch_registered ctx st conn frame _ greeted = after_hello ctx st conn frame greeted

-- `dispatch(conn, frame)`.
unfoldable pub dispatch : Context → Router → String → Frame → Outcome
unfolding dispatch_registered
dispatch ctx st conn frame = elim (lookup conn st.registry.conns) [
  | none ↦ record { state = st; sent = []; result = fatal ws_close_policy }
  | some reg ↦
      dispatch_registered ctx st conn frame frame.message
        (if is_none reg.role || is_none reg.device_id then false else true)
]

-- `handleFrame(conn, raw)`; the decoder (size bound, JSON and schema) is an argument.
unfoldable pub handle_frame :
    (String → ParseResult Frame) → Context → Router → String → String → Outcome
handle_frame decode ctx st conn raw = elim (decode raw) [
  | err code reason ↦ record {
    state = st;
    sent = send_error ctx conn code (some reason) none;
    result = fatal ws_close_protocol_error;
  }
  | ok frame ↦ dispatch ctx st conn frame
]
