-- ===== src/Crypto/PeerAuth/Handshake/Verified.antt =====
-- What stands behind a handshake that calls the peer verified, in any order of events.
use remotetab.Prelude.{
  ℕ, Option, ◌≡◌, refl, sym, String, Bool, true, false, not, ◌||◌, some, List, [], ◌∷◌, arith, inl,
  inr, All, All-nth, All-replace, All-weaken, nth, replace, str_eq, eq_refl, Option-cases,
  Bool-cases, is_none, if◌then◌else◌,
}
use remotetab.Crypto.PeerAuth.{transcript, other_role}
use remotetab.Crypto.PeerAuth.Handshake.{
  Peer, Handshake, HandshakeOutcome, verified, failed, pending, Wait, signing, verifying, done,
  new_handshake, maybe_prove, start, on_challenge, settle, answer, on_proof, maybe_settle,
  resume_verify, resume_sign, resume, HandshakeEvent, starts, challenged, proved, times_out,
  resumes, step, run,
}

-- The nonce is one of those that were sent.
unfoldable pub was_sent : String → List String → Bool
was_sent nonce [] = false
was_sent nonce (n ∷ ns) = str_eq n nonce || was_sent nonce ns

-- A signature that verifies over the peer's role and a nonce that this side has sent.
pub record IsAnswered (peer : Peer) (challenges : List String) : Type 0 where
  pub nonce : String
  pub sig : String
  pub fresh : was_sent nonce challenges ≡ true
  pub valid : peer.verify (transcript peer.deps (other_role peer.deps.role) nonce) sig ≡ true

module _ (peer : Peer) where
  Ready : List String → Wait → Type 0
  Ready cs (signing covered) = Unit {0}
  Ready cs (verifying nonce sig verdict) =
      (was_sent nonce cs ≡ true)
      × (verdict ≡ peer.verify (transcript peer.deps (other_role peer.deps.role) nonce) sig)
  Ready cs done = Unit {0}

  abbrev Told : List String → HandshakeOutcome → Type 0
  Told cs o = o ≡ verified → IsAnswered peer cs

  record Holds (h : Handshake) : Type 0 where
    own : (n : String) → h.state.my_nonce ≡ some n → was_sent n h.challenges ≡ true
    ready : All (Ready h.challenges) h.waiting
    checked : h.state.peer_proof_verified ≡ true → IsAnswered peer h.challenges
    told : All (Told h.challenges) h.outcomes

  was_sent-cons :
      (n m : String) (cs : List String) → was_sent n cs ≡ true → was_sent n (m ∷ cs) ≡ true
  unfolding was_sent
  was_sent-cons n m cs h = ground arith

  IsAnswered-cons : (m : String) (cs : List String) → IsAnswered peer cs → IsAnswered peer (m ∷ cs)
  IsAnswered-cons m cs a = record {
    nonce = a.nonce;
    sig = a.sig;
    fresh = was_sent-cons a.nonce m cs a.fresh;
    valid = a.valid;
  }

  Ready-cons : (m : String) (cs : List String) (w : Wait) → Ready cs w → Ready (m ∷ cs) w
  unfolding Ready
  Ready-cons m cs (signing covered) r = tt
  Ready-cons m cs (verifying nonce sig verdict) (s, v) = (was_sent-cons nonce m cs s, v)
  Ready-cons m cs done r = tt

  maybe_prove-Holds : (h : Handshake) → Holds h → Holds (maybe_prove peer h)
  unfolding maybe_prove Ready
  maybe_prove-Holds h k = elim (Bool-cases (h.state.settled || h.state.my_proof_sent)) [
    | inl e ↦ rw (e, maybe_prove) k
    | inr e ↦ elim (Option-cases h.state.peer_nonce) [
      | inl f ↦ rw (e, f, maybe_prove) k
      | inr (n, f) ↦
          rw (e, f, maybe_prove)
            (record { own = k.own; ready = (tt, k.ready); checked = k.checked; told = k.told })
    ]
  ]

  start-Holds : (nonce : String) (h : Handshake) → Holds h → Holds (start peer nonce h)
  unfolding start was_sent
  start-Holds nonce h k =
      maybe_prove-Holds
        (record h {
          state = record h.state { my_nonce = some nonce };
          challenges = nonce ∷ h.challenges;
        })
        (record {
          own = λ n e. ground (arith, eq_refl nonce);
          ready = All-weaken (Ready-cons nonce h.challenges) h.waiting k.ready;
          checked = λ e. IsAnswered-cons nonce h.challenges (k.checked e);
          told = All-weaken (λ o t e. IsAnswered-cons nonce h.challenges (t e)) h.outcomes k.told;
        })

  on_challenge-Holds :
      (nonce : String) (h : Handshake) → Holds h → Holds (on_challenge peer nonce h)
  unfolding on_challenge
  on_challenge-Holds nonce h k =
      elim (Bool-cases (h.state.settled || not (is_none h.state.peer_nonce))) [
        | inl e ↦ rw (e, on_challenge) k
        | inr e ↦
            rw (e, on_challenge)
              (maybe_prove-Holds (record h { state = record h.state { peer_nonce = some nonce } })
                (record { own = k.own; ready = k.ready; checked = k.checked; told = k.told }))
      ]

  -- An outcome that does not claim anything.
  answer-Holds :
      (o : HandshakeOutcome) (h : Handshake)
      → Told h.challenges o
      → Holds h
      → Holds (answer peer o h)
  answer-Holds o h t k = record {
    own = k.own;
    ready = k.ready;
    checked = k.checked;
    told = (t, k.told);
  }

  settle-Holds : (h : Handshake) → Holds h → Holds (settle peer h)
  unfolding settle
  settle-Holds h k = record { own = k.own; ready = k.ready; checked = k.checked; told = k.told }

  on_proof-Holds : (sig : String) (h : Handshake) → Holds h → Holds (on_proof peer sig h)
  unfolding on_proof Ready
  on_proof-Holds sig h k = elim (Bool-cases h.state.settled) [
    | inl e ↦
        rw (e, on_proof) (answer-Holds failed (settle peer h) (λ f. absurd (cc)) (settle-Holds h k))
    | inr e ↦ elim (Bool-cases (is_none h.state.peer_nonce)) [
      | inl f ↦
          rw (e, f, on_proof)
            (answer-Holds failed (settle peer h) (λ g. absurd (cc)) (settle-Holds h k))
      | inr f ↦ elim (Option-cases h.state.my_nonce) [
        | inl g ↦
            rw (e, f, g, on_proof)
              (answer-Holds failed (settle peer h) (λ g. absurd (cc)) (settle-Holds h k))
        | inr (n, g) ↦
            rw (e, f, g, on_proof)
              (record {
                own = k.own;
                ready = ((k.own n g, refl), k.ready);
                checked = k.checked;
                told = k.told;
              })
      ]
    ]
  ]

  if-Holds : (b : Bool) (x y : Handshake) → Holds x → Holds y → Holds (if b then x else y)
  if-Holds true x y h k = h
  if-Holds false x y h k = k

  resume_verify-Holds :
      (nonce sig : String) (verdict : Bool) (h : Handshake)
      → Ready h.challenges (verifying nonce sig verdict)
      → Holds h
      → Holds (resume_verify peer verdict h)
  unfolding resume_verify maybe_settle Ready
  resume_verify-Holds nonce sig false h r k =
      answer-Holds failed (settle peer h) (λ f. absurd (cc)) (settle-Holds h k)
  resume_verify-Holds nonce sig true h (fresh, valid) k =
      let a : IsAnswered peer h.challenges = record {
        nonce = nonce;
        sig = sig;
        fresh = fresh;
        valid = sym valid;
      } in
      let h' : Handshake = record h { state = record h.state { peer_proof_verified = true } } in
      let k' : Holds h' = record {
        own = k.own;
        ready = k.ready;
        checked = λ e. a;
        told = k.told;
      } in
      if-Holds h.state.my_proof_sent (answer peer verified (settle peer h'))
        (answer peer pending h')
        (answer-Holds verified (settle peer h') (λ f. a) (settle-Holds h' k'))
        (answer-Holds pending h' (λ f. absurd (cc)) k')

  resume_sign-Holds :
      (covered : Option (List ℕ)) (h : Handshake) → Holds h → Holds (resume_sign peer covered h)
  unfolding resume_sign
  resume_sign-Holds covered h k =
      let h' : Handshake = record h { proofs = covered ∷ h.proofs } in
      let k' : Holds h' = record {
        own = k.own;
        ready = k.ready;
        checked = k.checked;
        told = k.told;
      } in
      elim (Option-cases h.state.peer_proof_sig) [
        | inl e ↦ rw (e, resume_sign) k'
        | inr (sig, e) ↦
            rw (e, resume_sign)
              (if-Holds h.state.peer_proof_verified h' (on_proof peer sig h') k'
                (on_proof-Holds sig h' k'))
      ]

  resume-Holds :
      (w : Wait) (h : Handshake) → Ready h.challenges w → Holds h → Holds (resume peer w h)
  unfolding resume
  resume-Holds (signing covered) h r k = resume_sign-Holds covered h k
  resume-Holds (verifying nonce sig verdict) h r k = resume_verify-Holds nonce sig verdict h r k
  resume-Holds done h r k = k

  step-Holds : (h : Handshake) (e : HandshakeEvent) → Holds h → Holds (step peer h e)
  unfolding step Ready
  step-Holds h (starts nonce) k = start-Holds nonce h k
  step-Holds h (challenged nonce) k = on_challenge-Holds nonce h k
  step-Holds h (proved sig) k = on_proof-Holds sig h k
  step-Holds h times_out k = settle-Holds h k
  step-Holds h (resumes place) k = elim (Option-cases (nth place h.waiting)) [
    | inl e ↦ rw (e, step) k
    | inr (w, e) ↦
        rw (e, step)
          (resume-Holds w (record h { waiting = replace place done h.waiting })
            (All-nth (Ready h.challenges) place h.waiting w k.ready e)
            (record {
              own = k.own;
              ready = All-replace (Ready h.challenges) place done h.waiting tt k.ready;
              checked = k.checked;
              told = k.told;
            }))
  ]

  run-Holds : (h : Handshake) (es : List HandshakeEvent) → Holds h → Holds (run peer h es)
  unfolding run
  run-Holds h [] k = k
  run-Holds h (e ∷ es) k = run-Holds (step peer h e) es (step-Holds h e k)

-- In any order of calls, timeouts and resumptions: whenever the handshake calls the peer verified,
-- a signature has verified that covers the session, both devices and their fingerprints, the
-- peer's role and a nonce that this side has sent.
pub run-IsAnswered :
    (peer : Peer) (es : List HandshakeEvent)
    → let h = run peer new_handshake es in
      All (λ o. o ≡ verified → IsAnswered peer h.challenges) h.outcomes
run-IsAnswered peer es =
    (run-Holds peer new_handshake es
      (record { own = λ n e. absurd (cc); ready = tt; checked = λ e. absurd (cc); told = tt })).told
