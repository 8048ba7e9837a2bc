-- ===== src/Crypto/PeerAuth/Handshake.antt =====
-- `PeerAuthHandshake` of packages/crypto/src/peer-handshake.ts, cut at its awaits: a call of `sign`
-- or of `verify` that has not come back waits, and any other call may come in between. Signing is
-- taken not to fail.
pub mod Verified
use remotetab.Prelude.{
  ℕ, String, Bool, true, false, not, ◌&&◌, ◌||◌, Option, none, some, List, [], ◌∷◌, ◌++◌, is_none,
  nth, replace, str_eq, if◌then◌else◌,
}
use remotetab.Protocol.Messages.{DeviceRole}
use remotetab.Crypto.PeerAuth.{HandshakeDeps, transcript, other_role}

-- The values of the source's dependencies, and the check of a signature over a transcript.
pub record Peer : Type 0 where
  pub deps : HandshakeDeps
  pub verify : Option (List ℕ) → String → Bool

pub record PeerAuthHandshake : Type 0 where
  pub my_nonce : Option String
  pub peer_nonce : Option String
  pub my_proof_sent : Bool
  pub peer_proof_verified : Bool
  pub peer_proof_sig : Option String
  pub settled : Bool

pub data HandshakeOutcome : Type 0 where
  verified failed pending : HandshakeOutcome

-- A call that waits: for a signature over a transcript, or for a verdict.
pub data Wait : Type 0 where
  signing : (covered : Option (List ℕ)) → Wait
  verifying : (nonce sig : String) (verdict : Bool) → Wait
  done : Wait

-- The handshake, the calls that wait, the nonces and the signed transcripts that were sent, and the
-- outcomes that were returned.
pub record Handshake : Type 0 where
  pub state : PeerAuthHandshake
  pub waiting : List Wait
  pub challenges : List String
  pub proofs : List (Option (List ℕ))
  pub outcomes : List HandshakeOutcome

abbrev pub new_handshake : Handshake
new_handshake = record {
  state = record {
    my_nonce = none;
    peer_nonce = none;
    my_proof_sent = false;
    peer_proof_verified = false;
    peer_proof_sig = none;
    settled = false;
  };
  waiting = [];
  challenges = [];
  proofs = [];
  outcomes = [];
}

module _ (peer : Peer) where
  -- `maybeProve()` up to its await.
  unfoldable pub maybe_prove : Handshake → Handshake
  maybe_prove h = if h.state.settled || h.state.my_proof_sent then h else elim h.state.peer_nonce [
    | none ↦ h
    | some nonce ↦ record h {
      state = record h.state { my_proof_sent = true };
      waiting = signing (transcript peer.deps peer.deps.role nonce) ∷ h.waiting;
    }
  ]

  -- `start()` with the nonce that it draws.
  unfoldable pub start : String → Handshake → Handshake
  unfolding maybe_prove
  start nonce h = maybe_prove (record h {
    state = record h.state { my_nonce = some nonce };
    challenges = nonce ∷ h.challenges;
  })

  -- `onChallenge(nonceB64)`.
  unfoldable pub on_challenge : String → Handshake → Handshake
  unfolding maybe_prove
  on_challenge nonce h =
      if h.state.settled || not (is_none h.state.peer_nonce)
      then h
      else maybe_prove (record h { state = record h.state { peer_nonce = some nonce } })

  -- `fail()`, and what the timer does: neither undoes a handshake that is settled.
  unfoldable pub settle : Handshake → Handshake
  settle h = record h { state = record h.state { settled = true } }

  abbrev pub answer : HandshakeOutcome → Handshake → Handshake
  answer o h = record h { outcomes = o ∷ h.outcomes }

  -- `onProof(signatureB64)` up to its await.
  unfoldable pub on_proof : String → Handshake → Handshake
  unfolding settle
  on_proof sig h =
      if h.state.settled
      then answer failed h
      else if is_none h.state.peer_nonce
      then answer failed (settle h)
      else elim h.state.my_nonce [
        | none ↦ answer failed (settle h)
        | some nonce ↦ record h {
          state = record h.state { peer_proof_sig = some sig };
          waiting =
              verifying nonce sig
                (peer.verify (transcript peer.deps (other_role peer.deps.role) nonce) sig)
              ∷ h.waiting;
        }
      ]

  -- `maybeSettle()`.
  unfoldable pub maybe_settle : Handshake → Handshake
  unfolding settle
  maybe_settle h =
      if h.state.peer_proof_verified && h.state.my_proof_sent
      then answer verified (settle h)
      else answer pending h

  -- What follows the await of `onProof`.
  unfoldable pub resume_verify : Bool → Handshake → Handshake
  unfolding settle maybe_settle
  resume_verify false h = answer failed (settle h)
  resume_verify true h =
      maybe_settle (record h { state = record h.state { peer_proof_verified = true } })

  -- What follows the await of `maybeProve`: the proof goes out, and a proof of the peer that came
  -- before is checked.
  unfoldable pub resume_sign : Option (List ℕ) → Handshake → Handshake
  unfolding on_proof
  resume_sign covered h =
      let h' = record h { proofs = covered ∷ h.proofs } in
      elim h.state.peer_proof_sig [
        | none ↦ h'
        | some sig ↦ if h.state.peer_proof_verified then h' else on_proof sig h'
      ]

  unfoldable pub resume : Wait → Handshake → Handshake
  unfolding resume_sign resume_verify
  resume (signing covered) h = resume_sign covered h
  resume (verifying nonce sig verdict) h = resume_verify verdict h
  resume done h = h

pub data HandshakeEvent : Type 0 where
  starts : (nonce : String) → HandshakeEvent
  challenged : (nonce : String) → HandshakeEvent
  proved : (sig : String) → HandshakeEvent
  times_out : HandshakeEvent
  -- The call at this place goes on.
  resumes : (place : ℕ) → HandshakeEvent

unfoldable pub step : Peer → Handshake → HandshakeEvent → Handshake
unfolding start on_challenge on_proof settle resume
step peer h (starts nonce) = start peer nonce h
step peer h (challenged nonce) = on_challenge peer nonce h
step peer h (proved sig) = on_proof peer sig h
step peer h times_out = settle peer h
step peer h (resumes place) = elim (nth place h.waiting) [
  | none ↦ h
  | some w ↦ resume peer w (record h { waiting = replace place done h.waiting })
]

unfoldable pub run : Peer → Handshake → List HandshakeEvent → Handshake
run peer h [] = h
run peer h (e ∷ es) = run peer (step peer h e) es
