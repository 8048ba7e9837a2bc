-- ===== src/Signaling/Router/Relay.antt =====
-- Whom a relayed offer, answer or candidate reaches.
use remotetab.Prelude.{
  String, true, false, Option, some, [], ◌∷◌, ◌≡◌, ◌⊎◌, inl, inr, refl, ap, sym, All, Bool-cases,
  Option-cases,
}
use remotetab.Store.{lookup, has}
use remotetab.Protocol.Errors.{ErrorCode}
use remotetab.Protocol.Messages.{Frame, DeviceRole}
use remotetab.Signaling.Sessions.{Session, is_closed}
use remotetab.Signaling.Router.{Router, Context, send, send_error}
use remotetab.Signaling.Router.Identity.{device_of}
use remotetab.Signaling.Router.Meet.{relay, relay_signal, takes_part, peer_conn, wrong_role}

-- `to` is the other end of the open session, in which the sender takes part.
pub record IsPeer (st : Router) (conn session_id to : String) : Type 0 where
  pub session : Session
  pub known : lookup session_id st.sessions ≡ some session
  pub is_live : is_closed session.state ≡ false
  pub member : takes_part conn session ≡ true
  pub other_end : to ≡ peer_conn conn session

module _ (ctx : Context) (st : Router) (conn : String) (frame : Frame) (session_id : String) where
  -- A frame goes back to its sender, or the frame itself to the peer.
  Reaches : String × Frame → Type 0
  Reaches x = (x.0 ≡ conn) ⊎ ((x.1 ≡ frame) × IsPeer st conn session_id x.0)

  send_error-Reaches :
      (code : ErrorCode) (reason reply_to : Option String)
      → All Reaches (send_error ctx conn code reason reply_to)
  unfolding send_error Reaches
  send_error-Reaches code reason reply_to = (inl refl, tt)

  send-Reaches : (to : String) → IsPeer st conn session_id to → All Reaches (send st to frame)
  unfolding send Reaches
  send-Reaches to p = elim (Bool-cases (has to st.handles)) [
    | inl e ↦ rw e (inr (refl, p), tt)
    | inr e ↦ rw e tt
  ]

  relay-Reaches : All Reaches (relay ctx st conn frame session_id).sent
  unfolding relay
  relay-Reaches = elim (Option-cases (lookup session_id st.sessions)) [
    | inl e ↦ rw (e, relay) (send_error-Reaches _ _ _)
    | inr (s, e) ↦ elim (Bool-cases (is_closed s.state)) [
      | inl c ↦ rw (e, c, relay) (send_error-Reaches _ _ _)
      | inr c ↦ elim (Bool-cases (takes_part conn s)) [
        | inl t ↦
            rw (e, c, t, relay)
              (send-Reaches (peer_conn conn s)
                (record { session = s; known = e; is_live = c; member = t; other_end = refl }))
        | inr t ↦ rw (e, c, t, relay) (send_error-Reaches _ _ _)
      ]
    ]
  ]

  relay_signal-Reaches :
      (type : String) (role : Option DeviceRole)
      → All Reaches (relay_signal ctx st conn frame session_id type role).sent
  unfolding relay_signal
  relay_signal-Reaches type role = elim (Option-cases (device_of (lookup conn st.registry.conns))) [
    | inl e ↦ rw (e, relay_signal) tt
    | inr (d, e) ↦ elim (Bool-cases (wrong_role role (lookup conn st.registry.conns))) [
      | inl w ↦ rw (e, w, relay_signal) (send_error-Reaches _ _ _)
      | inr w ↦ rw (e, w, relay_signal) relay-Reaches
    ]
  ]

  -- An offer, answer or candidate is passed on, unchanged, to nobody but the other end of an open
  -- session of its sender; whatever else is sent goes back to the sender.
  pub relay_signal-sent :
      (type : String) (role : Option DeviceRole)
      → All
          (λ x. (x.0 ≡ conn) ⊎ ((x.1 ≡ frame) × IsPeer st conn session_id x.0))
          (relay_signal ctx st conn frame session_id type role).sent
  unfolding Reaches
  relay_signal-sent type role = relay_signal-Reaches type role

-- In an open session with a bound handle the frame of a member in the right role does get there, as
-- the only one.
pub relay_signal-delivers :
    (ctx : Context) (st : Router) (conn : String) (frame : Frame) (session_id type : String)
    (role : Option DeviceRole) (d to : String)
    → device_of (lookup conn st.registry.conns) ≡ some d
    → wrong_role role (lookup conn st.registry.conns) ≡ false
    → IsPeer st conn session_id to
    → has to st.handles ≡ true
    → (relay_signal ctx st conn frame session_id type role).sent ≡ (to, frame) ∷ []
unfolding relay_signal relay send
relay_signal-delivers ctx st conn frame session_id type role d to e w p h =
    let b : has (peer_conn conn p.session) st.handles ≡ true = rw p.other_end at h in
    rw (e, w, relay_signal, p.known, p.is_live, p.member, relay, b, send)
      (ap (λ z. (z, frame) ∷ []) (sym p.other_end))
