-- ===== src/Signaling/Router/Footprint.antt =====
-- Which parts of the state each group of handlers leaves alone.
use remotetab.Prelude.{String, Bool, ◌≡◌, arith}
use remotetab.Protocol.Messages.{
  Frame, Hello, AuthProof, PairCreate, PairJoin, SessionRequest, SessionAccepted, DeviceRole,
}
use remotetab.Prelude.{Option}
use remotetab.Signaling.Router.{Router, Context}
use remotetab.Signaling.Router.Identity.{on_hello, on_auth_proof}
use remotetab.Signaling.Router.Pair.{
  on_pair_create, on_pair_join, on_decision, open_pairing_window, join_pairing, decide_pairing,
  accept_joined, reject_joined,
}
use remotetab.Signaling.Router.Meet.{
  forward_request, open_session, on_session_request, on_session_accepted, on_session_rejected,
  on_session_close, relay_signal,
}

-- The identity handlers.
pub record IdentityOnly (st st' : Router) : Type 0 where
  pub pairings : st'.pairings ≡ st.pairings
  pub sessions : st'.sessions ≡ st.sessions
  pub session_requests : st'.session_requests ≡ st.session_requests
  pub handles : st'.handles ≡ st.handles

-- The pairing handlers.
pub record PairingOnly (st st' : Router) : Type 0 where
  pub registry : st'.registry ≡ st.registry
  pub sessions : st'.sessions ≡ st.sessions
  pub session_requests : st'.session_requests ≡ st.session_requests
  pub devices : st'.devices ≡ st.devices
  pub handles : st'.handles ≡ st.handles
  pub authenticated : st'.authenticated ≡ st.authenticated
  pub pending_auth : st'.pending_auth ≡ st.pending_auth

-- The session handlers.
pub record SessionOnly (st st' : Router) : Type 0 where
  pub registry : st'.registry ≡ st.registry
  pub pairings : st'.pairings ≡ st.pairings
  pub devices : st'.devices ≡ st.devices
  pub handles : st'.handles ≡ st.handles
  pub authenticated : st'.authenticated ≡ st.authenticated
  pub pending_auth : st'.pending_auth ≡ st.pending_auth

module _ (ctx : Context) (st : Router) (conn : String) (frame : Frame) where
  pub on_hello-IdentityOnly : (h : Hello) → IdentityOnly st (on_hello ctx st conn frame h).state
  unfolding on_hello
  on_hello-IdentityOnly h = ground arith

  pub on_auth_proof-IdentityOnly :
      (p : AuthProof) → IdentityOnly st (on_auth_proof ctx st conn frame p).state
  unfolding on_auth_proof
  on_auth_proof-IdentityOnly p = ground arith

  pub on_pair_create-PairingOnly :
      (p : PairCreate) → PairingOnly st (on_pair_create ctx st conn frame p).state
  unfolding on_pair_create open_pairing_window
  on_pair_create-PairingOnly p = ground arith

  pub on_pair_join-PairingOnly :
      (p : PairJoin) → PairingOnly st (on_pair_join ctx st conn frame p).state
  unfolding on_pair_join join_pairing
  on_pair_join-PairingOnly p = ground arith

  pub on_decision-PairingOnly :
      (pair_id : String) (accept : Bool)
      → PairingOnly st (on_decision ctx st conn frame pair_id accept).state
  unfolding on_decision decide_pairing accept_joined reject_joined
  on_decision-PairingOnly pair_id accept = ground arith

  pub on_session_request-SessionOnly :
      (p : SessionRequest) → SessionOnly st (on_session_request ctx st conn frame p).state
  unfolding on_session_request forward_request
  on_session_request-SessionOnly p = ground arith

  pub on_session_request-sessions :
      (p : SessionRequest) → (on_session_request ctx st conn frame p).state.sessions ≡ st.sessions
  unfolding on_session_request forward_request
  on_session_request-sessions p = ground arith

  pub on_session_accepted-SessionOnly :
      (p : SessionAccepted) → SessionOnly st (on_session_accepted ctx st conn frame p).state
  unfolding on_session_accepted open_session
  on_session_accepted-SessionOnly p = ground arith

  pub on_session_rejected-SessionOnly : SessionOnly st (on_session_rejected ctx st conn frame).state
  unfolding on_session_rejected
  on_session_rejected-SessionOnly = ground arith

  pub on_session_rejected-sessions :
      (on_session_rejected ctx st conn frame).state.sessions ≡ st.sessions
  unfolding on_session_rejected
  on_session_rejected-sessions = ground arith

  pub on_session_close-SessionOnly :
      (session_id : String) → SessionOnly st (on_session_close ctx st conn frame session_id).state
  unfolding on_session_close
  on_session_close-SessionOnly session_id = ground arith

  -- Relaying changes nothing.
  pub relay_signal-state :
      (session_id type : String) (role : Option DeviceRole)
      → (relay_signal ctx st conn frame session_id type role).state ≡ st
  unfolding relay_signal
  relay_signal-state session_id type role = ground arith
