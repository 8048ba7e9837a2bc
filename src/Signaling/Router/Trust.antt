-- ===== src/Signaling/Router/Trust.antt =====
-- Who counts as authenticated.
use remotetab.Prelude.{
  String, Bool, true, false, not, none, some, ◌≡◌, refl, ap, sym, inl, inr, arith, ◌⊎◌, str_eq,
  eq_iff, Bool-cases, Option-cases, ◌&&◌, ◌||◌, if◌then◌else◌, eq_refl, is_none,
}
use remotetab.Store.{Store, lookup, insert, has, has-insert, lookup-insert}
use remotetab.Protocol.Messages.{
  Frame, Hello, AuthProof, SignalingMessage, hello, pair_create, pair_join, pair_accept,
  pair_reject, session_request, session_accepted, session_rejected, session_close, signal_offer,
  signal_answer, signal_ice, auth_proof,
}
use remotetab.Signaling.Registry.{touch, truthy}
use remotetab.Signaling.Devices.{Device, is_revoked, enroll}
use remotetab.Signaling.Router.{Router, Context, PendingAuth, is_required}
use remotetab.Signaling.Router.Footprint.{
  on_pair_create-PairingOnly, on_pair_join-PairingOnly, on_decision-PairingOnly,
  on_session_request-SessionOnly, on_session_accepted-SessionOnly, on_session_close-SessionOnly,
  on_session_rejected-SessionOnly, relay_signal-state,
}
use remotetab.Signaling.Router.Identity.{
  on_hello, on_auth_proof, verify_proof, continue_identity, proof_holds, device_of, auth_failure,
  authenticate,
}
use remotetab.Signaling.Router.Dispatch.{route, dispatch, dispatch_registered}

-- A proof that was good for `device_id` in `st`, and the registry `devices` after it.
pub record IsProven (ctx : Context) (st : Router) (conn : String) (frame : Frame)
    (devices : Store Device) : Type 0 where
  pub proof : AuthProof
  pub device_id : String
  pub pending : PendingAuth
  pub device : Device
  pub presented : frame.message ≡ auth_proof proof
  pub challenged : lookup conn st.pending_auth ≡ some pending
  pub greeted : device_of (lookup conn st.registry.conns) ≡ some device_id
  pub matching : ctx.fingerprint_of proof.public_key_spki ≡ some proof.public_key_fingerprint
  pub allowed : is_revoked device_id st.devices ≡ false
  pub signed : proof_holds ctx pending.nonce device_id proof ≡ true
  pub registered : lookup device_id devices ≡ some device
  pub same_key : device.public_key_spki ≡ proof.public_key_spki

module _ (ctx : Context) (st : Router) (conn : String) (frame : Frame) where
  auth_failure-authenticated : (auth_failure ctx st conn).state.authenticated ≡ st.authenticated
  unfolding auth_failure
  auth_failure-authenticated = ground arith

  -- Behind the signature the connection is authenticated only with the key on record.
  continue_identity-cases :
      (d : String) (p : AuthProof)
      → ((continue_identity ctx st conn frame d p).state.authenticated ≡ st.authenticated)
        ⊎ (((continue_identity ctx st conn frame d p).state.authenticated
              ≡ insert conn tt st.authenticated)
            × (x : Device) × (lookup d (continue_identity ctx st conn frame d p).state.devices
                ≡ some x)
            × (x.public_key_spki ≡ p.public_key_spki))
  unfolding continue_identity authenticate enroll
  continue_identity-cases d p = elim (Option-cases (lookup d st.devices)) [
    | inl e ↦ elim (Bool-cases (is_required ctx.auth_mode)) [
      | inl r ↦ inl (ground (arith))
      | inr r ↦
          let x : Device = record {
            public_key_spki = p.public_key_spki;
            fingerprint = p.public_key_fingerprint;
            display_name = p.display_name;
            revoked_at_ms = none;
          } in
          inr (ground arith, x, ground (arith, lookup-insert d d x st.devices, eq_refl d), refl)
    ]
    | inr (x, e) ↦
        elim (Bool-cases (
          str_eq x.public_key_spki p.public_key_spki
          && str_eq x.fingerprint p.public_key_fingerprint)) [
            | inl t ↦ inr (
              ground arith,
              x,
              ground arith,
              ground (arith, eq_iff x.public_key_spki p.public_key_spki),
            )
            | inr t ↦ inl (ground arith)
          ]
  ]

  -- The connections that a proof adds: none, or its own if the proof was good.
  verify_proof-authenticated :
      (pending : PendingAuth) (d : String) (p : AuthProof) (c : String)
      → frame.message ≡ auth_proof p
      → lookup conn st.pending_auth ≡ some pending
      → device_of (lookup conn st.registry.conns) ≡ some d
      → let o = verify_proof ctx st conn frame pending.nonce d p in
        has c o.state.authenticated ≡ true
        → (has c st.authenticated ≡ true)
          ⊎ ((c ≡ conn) × IsProven ctx st conn frame o.state.devices)
  unfolding verify_proof
  verify_proof-authenticated pending d p c m e g h =
      elim (Option-cases (ctx.fingerprint_of p.public_key_spki)) [
        | inl f ↦ inl (ground arith)
        | inr (fp, f) ↦
            elim (Bool-cases (
              str_eq fp p.public_key_fingerprint
              && not (is_revoked d st.devices)
              && proof_holds ctx pending.nonce d p)) [
                | inr bad ↦ inl (ground (arith, auth_failure-authenticated))
                | inl good ↦
                    let k : verify_proof ctx st conn frame pending.nonce d p
                        ≡ continue_identity ctx st conn frame d p =
                      ground arith in
                    elim (continue_identity-cases d p) [
                      | inl s ↦ inl (ground arith)
                      | inr (s, x, r, q) ↦ elim (Bool-cases (str_eq conn c)) [
                        | inr other ↦ inl (ground (arith, has-insert conn c tt st.authenticated))
                        | inl here ↦ inr (
                          sym ((eq_iff conn c).0 here),
                          record {
                            proof = p;
                            device_id = d;
                            pending = pending;
                            device = x;
                            presented = m;
                            challenged = e;
                            greeted = g;
                            matching = ground (arith, eq_iff fp p.public_key_fingerprint);
                            allowed = ground arith;
                            signed = ground arith;
                            registered = rw k r;
                            same_key = q;
                          },
                        )
                      ]
                    ]
              ]
      ]

  on_auth_proof-authenticated :
      (p : AuthProof) (c : String)
      → frame.message ≡ auth_proof p
      → has c (on_auth_proof ctx st conn frame p).state.authenticated ≡ true
      → (has c st.authenticated ≡ true)
        ⊎ ((c ≡ conn)
            × IsProven ctx st conn frame (on_auth_proof ctx st conn frame p).state.devices)
  unfolding on_auth_proof
  on_auth_proof-authenticated p c m h = elim (Option-cases (lookup conn st.pending_auth)) [
    | inl e ↦ inl (ground arith)
    | inr (pending, e) ↦ elim (Option-cases (device_of (lookup conn st.registry.conns))) [
      | inl f ↦ inl (ground arith)
      | inr (d, f) ↦ elim (Bool-cases (truthy (some d))) [
        | inr t ↦ inl (ground arith)
        | inl t ↦
            let k : on_auth_proof ctx st conn frame p
                ≡ verify_proof ctx st conn frame pending.nonce d p =
              ground arith in
            rw k (verify_proof-authenticated pending d p c m e f (rw k at h))
      ]
    ]
  ]

  on_hello-authenticated :
      (h : Hello) → (on_hello ctx st conn frame h).state.authenticated ≡ st.authenticated
  unfolding on_hello
  on_hello-authenticated h = ground arith

  route-authenticated :
      (m : SignalingMessage) → (route ctx st conn frame m).state.authenticated ≡ st.authenticated
  unfolding route
  route-authenticated (pair_create p) =
      (on_pair_create-PairingOnly ctx st conn frame p).authenticated
  route-authenticated (pair_join p) = (on_pair_join-PairingOnly ctx st conn frame p).authenticated
  route-authenticated (pair_accept i) =
      (on_decision-PairingOnly ctx st conn frame i true).authenticated
  route-authenticated (pair_reject i c) =
      (on_decision-PairingOnly ctx st conn frame i false).authenticated
  route-authenticated (session_request p) =
      (on_session_request-SessionOnly ctx st conn frame p).authenticated
  route-authenticated (session_accepted p) =
      (on_session_accepted-SessionOnly ctx st conn frame p).authenticated
  route-authenticated (session_rejected c) =
      (on_session_rejected-SessionOnly ctx st conn frame).authenticated
  route-authenticated (session_close i r) =
      (on_session_close-SessionOnly ctx st conn frame i).authenticated
  route-authenticated (signal_offer i sdp) =
      ap (λ s. s.authenticated) (relay_signal-state ctx st conn frame i _ _)
  route-authenticated (signal_answer i sdp) =
      ap (λ s. s.authenticated) (relay_signal-state ctx st conn frame i _ _)
  route-authenticated (signal_ice p) =
      ap (λ s. s.authenticated) (relay_signal-state ctx st conn frame p.session_id _ _)
  route-authenticated _ = refl

module _ (ctx : Context) (st : Router) (conn c : String) (frame : Frame) where
  dispatch_registered-authenticated :
      (m : SignalingMessage) (greeted : Bool)
      → frame.message ≡ m
      → let o = dispatch_registered ctx st conn frame m greeted in
        has c o.state.authenticated ≡ true
        → (has c st.authenticated ≡ true)
          ⊎ ((c ≡ conn) × IsProven ctx st conn frame o.state.devices)
  unfolding dispatch_registered
  dispatch_registered-authenticated (hello p) greeted e h =
      inl (rw (on_hello-authenticated ctx st conn frame p) at h)
  dispatch_registered-authenticated (auth_proof p) greeted e h =
      on_auth_proof-authenticated ctx st conn frame p c e h
  dispatch_registered-authenticated _ false e h = inl h
  dispatch_registered-authenticated _ true e h = inl (
      rw
        (route-authenticated ctx (record st { registry = touch conn ctx.now_ms st.registry }) conn
          frame frame.message)
        at h)

  -- A frame makes no connection authenticated but its own, and that only if it is a proof for the
  -- pending challenge and the device that the connection said hello for: the fingerprint matches
  -- the presented key, the device is not revoked, the signature verifies, and the key is the one
  -- on record for the device afterwards.
  pub dispatch-authenticated :
      has c (dispatch ctx st conn frame).state.authenticated ≡ true
      → (has c st.authenticated ≡ true)
        ⊎ ((c ≡ conn) × IsProven ctx st conn frame (dispatch ctx st conn frame).state.devices)
  unfolding dispatch
  dispatch-authenticated h = elim (Option-cases (lookup conn st.registry.conns)) [
    | inl e ↦ inl (ground arith)
    | inr (reg, e) ↦
        let greeted : Bool = if is_none reg.role || is_none reg.device_id then false else true in
        let k : dispatch ctx st conn frame
            ≡ dispatch_registered ctx st conn frame frame.message greeted =
          rw (e, dispatch) refl in
        rw k (dispatch_registered-authenticated frame.message greeted refl (rw k at h))
  ]
