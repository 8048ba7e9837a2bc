-- ===== src/Signaling/Router/OneSession.antt =====
-- The sessions of the service: who may open and end one, and that a device is in one at a time.
use remotetab.Prelude.{
  String, Bool, true, false, some, ◌≡◌, refl, ap, inl, inr, arith, str_eq, eq_iff, Bool-cases,
  Option-cases,
}
use remotetab.Store.{Store, lookup}
use remotetab.Protocol.Messages.{
  Frame, SessionAccepted, SignalingMessage, desktop, hello, pair_create, pair_join, pair_accept,
  pair_reject, session_request, session_accepted, session_rejected, session_close, signal_offer,
  signal_answer, signal_ice, auth_proof,
}
use remotetab.Signaling.Registry.{touch}
use remotetab.Signaling.Sessions.{Session, closed, create, update}
use remotetab.Signaling.Router.{Router, Context, PendingRequest}
use remotetab.Signaling.Router.Identity.{device_of}
use remotetab.Signaling.Router.Pair.{device_as}
use remotetab.Signaling.Router.Footprint.{
  on_hello-IdentityOnly, on_auth_proof-IdentityOnly, on_pair_create-PairingOnly,
  on_pair_join-PairingOnly, on_decision-PairingOnly, on_session_request-sessions,
  on_session_rejected-sessions, relay_signal-state,
}
use remotetab.Signaling.Router.Meet.{
  session_request_key, on_session_accepted, open_session, new_session, in_conflict,
  on_session_close, takes_part,
}
use remotetab.Signaling.Router.Dispatch.{route, dispatch, dispatch_registered}

-- What a frame of `conn` may do to the sessions.
pub data SessionMove (conn : String) (m m' : Store Session) : Type 0 where
  same : m' ≡ m → SessionMove conn m m'
  opened :
      (s : Session)
      → in_conflict s.desktop_device_id s.phone_device_id m ≡ false
      → s.desktop_conn_id ≡ conn
      → m' ≡ create s m
      → SessionMove conn m m'
  ended :
      (i : String) (s : Session)
      → lookup i m ≡ some s
      → takes_part conn s ≡ true
      → m' ≡ update (record s { state = closed }) m
      → SessionMove conn m m'

module _ (ctx : Context) (st : Router) (conn : String) (frame : Frame) where
  on_session_close-SessionMove :
      (i : String)
      → SessionMove conn st.sessions (on_session_close ctx st conn frame i).state.sessions
  unfolding on_session_close
  on_session_close-SessionMove i = elim (Option-cases (lookup i st.sessions)) [
    | inl e ↦ same (ground arith)
    | inr (s, e) ↦ elim (Bool-cases (takes_part conn s)) [
      | inl t ↦ elim (Option-cases (device_of (lookup conn st.registry.conns))) [
        | inl f ↦ same (ground arith)
        | inr (d, f) ↦ ended i s e t (ground arith)
      ]
      | inr t ↦ same (ground arith)
    ]
  ]

  open_session-SessionMove :
      (d : String) (a : SessionAccepted) (r : PendingRequest)
      → SessionMove conn st.sessions (open_session ctx st conn frame d a r).state.sessions
  unfolding open_session new_session
  open_session-SessionMove d a r = elim (Bool-cases (str_eq a.desktop_device_id d)) [
    | inl e ↦ elim (Bool-cases (in_conflict d a.phone_device_id st.sessions)) [
      | inl c ↦ same (ground arith)
      | inr c ↦
          opened (new_session ctx conn a r.phone_conn_id)
            (rw ((eq_iff a.desktop_device_id d).0 e) c) refl (ground arith)
    ]
    | inr e ↦ same (ground arith)
  ]

  on_session_accepted-SessionMove :
      (a : SessionAccepted)
      → SessionMove conn st.sessions (on_session_accepted ctx st conn frame a).state.sessions
  unfolding on_session_accepted
  on_session_accepted-SessionMove a =
      elim (Option-cases (device_as desktop (lookup conn st.registry.conns))) [
        | inl e ↦ same (ground arith)
        | inr (d, e) ↦
            elim (Option-cases
              (lookup (session_request_key d a.phone_device_id) st.session_requests)) [
                | inl f ↦ same (ground arith)
                | inr (r, f) ↦ rw (e, f, on_session_accepted) (open_session-SessionMove d a r)
              ]
      ]

  route-SessionMove :
      (m : SignalingMessage)
      → SessionMove conn st.sessions (route ctx st conn frame m).state.sessions
  unfolding route
  route-SessionMove (pair_create p) = same (on_pair_create-PairingOnly ctx st conn frame p).sessions
  route-SessionMove (pair_join p) = same (on_pair_join-PairingOnly ctx st conn frame p).sessions
  route-SessionMove (pair_accept i) =
      same (on_decision-PairingOnly ctx st conn frame i true).sessions
  route-SessionMove (pair_reject i c) =
      same (on_decision-PairingOnly ctx st conn frame i false).sessions
  route-SessionMove (session_request p) = same (on_session_request-sessions ctx st conn frame p)
  route-SessionMove (session_accepted p) = on_session_accepted-SessionMove p
  route-SessionMove (session_rejected c) = same (on_session_rejected-sessions ctx st conn frame)
  route-SessionMove (session_close i r) = on_session_close-SessionMove i
  route-SessionMove (signal_offer i sdp) =
      same (ap (λ s. s.sessions) (relay_signal-state ctx st conn frame i _ _))
  route-SessionMove (signal_answer i sdp) =
      same (ap (λ s. s.sessions) (relay_signal-state ctx st conn frame i _ _))
  route-SessionMove (signal_ice p) =
      same (ap (λ s. s.sessions) (relay_signal-state ctx st conn frame p.session_id _ _))
  route-SessionMove _ = same refl

module _ (ctx : Context) (st : Router) (conn : String) (frame : Frame) where
  dispatch_registered-SessionMove :
      (m : SignalingMessage) (greeted : Bool)
      → SessionMove conn st.sessions
          (dispatch_registered ctx st conn frame m greeted).state.sessions
  unfolding dispatch_registered
  dispatch_registered-SessionMove (hello p) greeted =
      same (on_hello-IdentityOnly ctx st conn frame p).sessions
  dispatch_registered-SessionMove (auth_proof p) greeted =
      same (on_auth_proof-IdentityOnly ctx st conn frame p).sessions
  dispatch_registered-SessionMove _ false = same refl
  dispatch_registered-SessionMove _ true =
      route-SessionMove ctx (record st { registry = touch conn ctx.now_ms st.registry }) conn frame
        frame.message

  -- Whatever a frame says, it leaves the sessions as they are, or opens one for its own connection
  -- between two devices that have none open, or ends one that its connection takes part in.
  pub dispatch-SessionMove :
      SessionMove conn st.sessions (dispatch ctx st conn frame).state.sessions
  unfolding dispatch
  dispatch-SessionMove = elim (Option-cases (lookup conn st.registry.conns)) [
    | inl e ↦ same (ground arith)
    | inr (reg, e) ↦ rw (e, dispatch) (dispatch_registered-SessionMove frame.message _)
  ]
