-- ===== src/Signaling/Router/PairingMoves.antt =====
-- The pairings of the service: what a frame may do to them.
use remotetab.Prelude.{
  ◌<◌, ◌≤◌, String, Bool, true, false, some, ◌≡◌, refl, ap, inl, inr, arith, str_eq, eq_iff,
  Bool-cases, Option-cases, leb, ◌&&◌,
}
use remotetab.Store.{Store, lookup}
use remotetab.Protocol.Messages.{
  Frame, SignalingMessage, PairCreate, PairJoin, desktop, phone, hello, pair_create, pair_join,
  pair_accept, pair_reject, session_request, session_accepted, session_rejected, session_close,
  signal_offer, signal_answer, signal_ice, auth_proof,
}
use remotetab.Signaling.Registry.{touch}
use remotetab.Signaling.Pairings.{
  Pairing, PairingState, created, joined, consumed, expired, rejected, is_open, create, update,
}
use remotetab.Signaling.Devices.{is_revoked}
use remotetab.Signaling.Router.{Router, Context, require_authenticated}
use remotetab.Signaling.Router.Footprint.{
  on_hello-IdentityOnly, on_auth_proof-IdentityOnly, on_session_request-SessionOnly,
  on_session_accepted-SessionOnly, on_session_close-SessionOnly, on_session_rejected-SessionOnly,
  relay_signal-state,
}
use remotetab.Signaling.Router.Pair.{
  device_as, supersede, on_pair_create, open_pairing_window, on_pair_join, join_pairing, with_phone,
  on_decision, is_joined, decide_pairing, accept_joined, reject_joined,
}
use remotetab.Signaling.Router.Dispatch.{route, dispatch, dispatch_registered}

-- How a joined pairing is decided.
pub data Decision : PairingState → Type 0 where
  accepts : Decision consumed
  rejects : Decision rejected

-- What a frame of `conn` may do to the pairings.
pub data PairingMove (ctx : Context) (conn : String) (m m' : Store Pairing) : Type 0 where
  same : m' ≡ m → PairingMove ctx conn m m'
  windowed :
      (p : Pairing)
      → p.pair_id ≡ ctx.new_pair_id
      → p.desktop_conn_id ≡ conn
      → p.state ≡ created
      → m' ≡ create p (supersede conn m)
      → PairingMove ctx conn m m'
  joins :
      (p : Pairing) (j : PairJoin)
      → lookup j.pair_id m ≡ some p
      → is_open p.state ≡ true
      → ctx.now_ms < p.expires_at_ms
      → m' ≡ update (with_phone conn j p) m
      → PairingMove ctx conn m m'
  expires :
      (i : String) (p : Pairing)
      → lookup i m ≡ some p
      → is_open p.state ≡ true
      → p.expires_at_ms ≤ ctx.now_ms
      → m' ≡ update (record p { state = expired }) m
      → PairingMove ctx conn m m'
  decides :
      (i : String) (p : Pairing) (s : PairingState)
      → Decision s
      → lookup i m ≡ some p
      → p.state ≡ joined
      → p.desktop_conn_id ≡ conn
      → m' ≡ update (record p { state = s }) m
      → PairingMove ctx conn m m'

module _ (ctx : Context) (st : Router) (conn : String) (frame : Frame) where
  on_pair_create-PairingMove :
      (p : PairCreate)
      → PairingMove ctx conn st.pairings (on_pair_create ctx st conn frame p).state.pairings
  unfolding on_pair_create open_pairing_window
  on_pair_create-PairingMove p = elim (Bool-cases (require_authenticated ctx st conn)) [
    | inl a ↦ elim (Option-cases (device_as desktop (lookup conn st.registry.conns))) [
      | inl e ↦ same (ground arith)
      | inr (d, e) ↦ rw (a, e, on_pair_create) (windowed _ refl refl refl refl)
    ]
    | inr a ↦ same (ground arith)
  ]

  join_pairing-PairingMove :
      (j : PairJoin)
      → PairingMove ctx conn st.pairings (join_pairing ctx st conn frame j).state.pairings
  unfolding join_pairing
  join_pairing-PairingMove j = elim (Option-cases (lookup j.pair_id st.pairings)) [
    | inl e ↦ same (ground arith)
    | inr (p, e) ↦ elim (Bool-cases (is_open p.state)) [
      | inl o ↦ elim (Bool-cases (leb p.expires_at_ms ctx.now_ms)) [
        | inl t ↦ expires j.pair_id p e o (ground arith) (ground arith)
        | inr t ↦ joins p j e o (ground arith) (ground arith)
      ]
      | inr o ↦ same (ground arith)
    ]
  ]

  on_pair_join-PairingMove :
      (j : PairJoin)
      → PairingMove ctx conn st.pairings (on_pair_join ctx st conn frame j).state.pairings
  unfolding on_pair_join
  on_pair_join-PairingMove j = elim (Bool-cases (require_authenticated ctx st conn)) [
    | inl a ↦ elim (Option-cases (device_as phone (lookup conn st.registry.conns))) [
      | inl e ↦ same (ground arith)
      | inr (d, e) ↦ elim (Bool-cases (is_revoked d st.devices)) [
        | inl r ↦ same (ground arith)
        | inr r ↦ rw (a, e, r, on_pair_join) (join_pairing-PairingMove j)
      ]
    ]
    | inr a ↦ same (ground arith)
  ]

  decide_pairing-PairingMove :
      (i : String) (p : Pairing) (accept : Bool)
      → lookup i st.pairings ≡ some p
      → p.desktop_conn_id ≡ conn
      → PairingMove ctx conn st.pairings (decide_pairing ctx st conn frame accept p).state.pairings
  unfolding decide_pairing accept_joined reject_joined
  decide_pairing-PairingMove i p true e c = elim (Bool-cases (is_joined p.state)) [
    | inl j ↦ decides i p consumed accepts e (ground arith) c (ground arith)
    | inr j ↦ same (ground arith)
  ]
  decide_pairing-PairingMove i p false e c = elim (Bool-cases (is_joined p.state)) [
    | inl j ↦ decides i p rejected rejects e (ground arith) c (ground arith)
    | inr j ↦ same (ground arith)
  ]

  on_decision-PairingMove :
      (i : String) (accept : Bool)
      → PairingMove ctx conn st.pairings (on_decision ctx st conn frame i accept).state.pairings
  unfolding on_decision
  on_decision-PairingMove i accept =
      elim (Option-cases (device_as desktop (lookup conn st.registry.conns))) [
        | inl e ↦ same (ground arith)
        | inr (d, e) ↦ elim (Option-cases (lookup i st.pairings)) [
          | inl f ↦ same (ground arith)
          | inr (p, f) ↦
              elim (Bool-cases (str_eq p.desktop_device_id d && str_eq p.desktop_conn_id conn)) [
                | inl g ↦
                    rw (e, f, g, on_decision)
                      (decide_pairing-PairingMove i p accept f
                        (ground (arith, eq_iff p.desktop_conn_id conn)))
                | inr g ↦ same (ground arith)
              ]
        ]
      ]

  route-PairingMove :
      (m : SignalingMessage)
      → PairingMove ctx conn st.pairings (route ctx st conn frame m).state.pairings
  unfolding route
  route-PairingMove (pair_create p) = on_pair_create-PairingMove p
  route-PairingMove (pair_join p) = on_pair_join-PairingMove p
  route-PairingMove (pair_accept i) = on_decision-PairingMove i true
  route-PairingMove (pair_reject i c) = on_decision-PairingMove i false
  route-PairingMove (session_request p) =
      same (on_session_request-SessionOnly ctx st conn frame p).pairings
  route-PairingMove (session_accepted p) =
      same (on_session_accepted-SessionOnly ctx st conn frame p).pairings
  route-PairingMove (session_rejected c) =
      same (on_session_rejected-SessionOnly ctx st conn frame).pairings
  route-PairingMove (session_close i r) =
      same (on_session_close-SessionOnly ctx st conn frame i).pairings
  route-PairingMove (signal_offer i sdp) =
      same (ap (λ s. s.pairings) (relay_signal-state ctx st conn frame i _ _))
  route-PairingMove (signal_answer i sdp) =
      same (ap (λ s. s.pairings) (relay_signal-state ctx st conn frame i _ _))
  route-PairingMove (signal_ice p) =
      same (ap (λ s. s.pairings) (relay_signal-state ctx st conn frame p.session_id _ _))
  route-PairingMove _ = same refl

module _ (ctx : Context) (st : Router) (conn : String) (frame : Frame) where
  dispatch_registered-PairingMove :
      (m : SignalingMessage) (greeted : Bool)
      → PairingMove ctx conn st.pairings
          (dispatch_registered ctx st conn frame m greeted).state.pairings
  unfolding dispatch_registered
  dispatch_registered-PairingMove (hello p) greeted =
      same (on_hello-IdentityOnly ctx st conn frame p).pairings
  dispatch_registered-PairingMove (auth_proof p) greeted =
      same (on_auth_proof-IdentityOnly ctx st conn frame p).pairings
  dispatch_registered-PairingMove _ false = same refl
  dispatch_registered-PairingMove _ true =
      route-PairingMove ctx (record st { registry = touch conn ctx.now_ms st.registry }) conn frame
        frame.message

  -- Whatever a frame says, it leaves the pairings as they are, or opens a window of its own
  -- connection under the fresh id, or joins an open window in time, or finds that one has run out,
  -- or decides a joined one that its connection presents.
  pub dispatch-PairingMove :
      PairingMove ctx conn st.pairings (dispatch ctx st conn frame).state.pairings
  unfolding dispatch
  dispatch-PairingMove = elim (Option-cases (lookup conn st.registry.conns)) [
    | inl e ↦ same (ground arith)
    | inr (reg, e) ↦ rw (e, dispatch) (dispatch_registered-PairingMove frame.message _)
  ]
