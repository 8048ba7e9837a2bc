-- ===== src/Extension/SignalingClient/Closed.antt =====
-- What `close()` and the loss of a socket lead to.
use mathlib.Core.Path.{subst}
use remotetab.Prelude.{
  among, without, ℕ, String, ◌+◌, ◌≡◌, ◌≢◌, refl, sym, ◌∙◌, ap, Option, none, some, List, [], ◌∷◌,
  ◌++◌, arith, All, Option-cases, inl, inr, nth, take, drop,
}
use remotetab.Extension.Backoff.{next, reset}
use remotetab.Extension.SignalingClient.{
  offline, connecting, SignalingClientOptions, SignalingClient, Act, opens, schedules, reports,
  ClientEvent, connects, stops, opened, received, closed, signs, pings, reconnects, transmits,
  set_state, open_socket, send_frame, stop_sockets, schedule_reconnect, resume_sign, on_close,
  reconnect_due, close, handle, new_client, run,
}
use remotetab.Extension.SignalingClient.Phases.Moves.{run-in_phase}
use remotetab.Extension.SignalingClient.Phases.{
  Phase, idle, waiting, dialing, live, Rest, in_phase, ArePolite, close-idle,
}

module _ (opts : SignalingClientOptions) where
  -- An idle client does nothing but for a call of `connect()`.
  Silent : SignalingClient × List Act → Type 0
  Silent x = (r : Rest) × (x ≡ (in_phase idle r, []))

  idle-resume_sign :
      (r : Rest) (signature : Option String)
      → resume_sign opts signature (in_phase idle r) ≡ (in_phase idle r, [])
  unfolding in_phase resume_sign
  idle-resume_sign r signature = ground arith

  idle-Silent :
      (r : Rest) (e : ClientEvent) → e ≢ connects → Silent (handle opts (in_phase idle r) e)
  unfolding in_phase handle Silent close stop_sockets set_state send_frame resume_sign among without
  idle-Silent r connects h = absurd (h refl)
  idle-Silent r stops h = (record r { backoff = reset r.backoff }, refl)
  idle-Silent r (opened n now) h = (r, refl)
  idle-Silent r (received n now frame) h = (r, refl)
  idle-Silent r (closed n) h = (r, refl)
  idle-Silent r (signs i signature) h = elim (Option-cases (nth i r.signing)) [
    | inl e ↦ (r, rw (handle, e) refl)
    | inr (nonce, e) ↦
        let r' : Rest = record r { signing = take i r.signing ++ drop (i + 1) r.signing } in
        (r', rw (handle, e) (idle-resume_sign r' signature))
  ]
  idle-Silent r (pings now ts ready) h = (r, refl)
  idle-Silent r (reconnects t) h = (r, refl)
  idle-Silent r (transmits frame ready) h = (r, refl)

  run-Silent :
      (r : Rest) (es : List ClientEvent)
      → All (λ e. e ≢ connects) es
      → Silent (run opts (in_phase idle r) es)
  unfolding run Silent
  run-Silent r [] h = (r, refl)
  run-Silent r (e ∷ es) (h, hs) =
      let (r', k) = idle-Silent r e h in let (r'', m) = run-Silent r' es hs in (r'', rw (k, m) refl)

  stops-idle :
      (es : List ClientEvent)
      → ArePolite opts new_client es
      → (r : Rest) × ((handle opts (run opts new_client es).0 stops).0 ≡ in_phase idle r)
  unfolding in_phase handle
  stops-idle es h =
      let z : Rest = record {
        last_inbound_ms = 0;
        backoff = new_client.backoff;
        signing = [];
        fresh = 0;
      } in
      let (p, r, q) = run-in_phase opts idle z es h in
      let (r', e) = close-idle p r in (r', subst (λ c. (close c).0 ≡ in_phase idle r') (sym q) e)

  -- Once `close()` is called, after any events in which `connect()` was never called with a
  -- reconnect timer pending, the client does nothing at all until `connect()` is called again: it
  -- opens, sends, reports and passes on nothing, and stays offline with no socket and no timer.
  pub closed-Silent :
      (es fs : List ClientEvent)
      → ArePolite opts new_client es
      → All (λ e. e ≢ connects) fs
      → let c = (handle opts (run opts new_client es).0 stops).0 in
        ((run opts c fs).1 ≡ [])
        × ((run opts c fs).0.state ≡ offline)
        × ((run opts c fs).0.socket ≡ none)
        × ((run opts c fs).0.timers ≡ [])
  unfolding in_phase Silent
  closed-Silent es fs h k =
      let (r, q) = stops-idle es h in
      let (r', s) = run-Silent r fs k in
      let e : run opts (handle opts (run opts new_client es).0 stops).0 fs
          ≡ (in_phase idle r', []) =
        ap (λ c. run opts c fs) q ∙ s in
      (ap (λ x. x.1) e, ap (λ x. x.0.state) e, ap (λ x. x.0.socket) e, ap (λ x. x.0.timers) e)

  -- The client behind the loss of its socket.
  unfoldable backed_off : Rest → Rest
  backed_off r = record r { backoff = (next r.backoff).0; fresh = r.fresh + 1 }

  closed-waiting :
      (p : Phase) (r : Rest) (n : ℕ)
      → (in_phase p r).socket ≡ some n
      → handle opts (in_phase p r) (closed n) ≡ (
        in_phase (waiting r.fresh) (backed_off r),
        reports offline ∷ schedules r.fresh (next r.backoff).1 ∷ [],
      )
  unfolding in_phase handle among without on_close schedule_reconnect set_state stop_sockets
      backed_off
  closed-waiting idle r n h = absurd (cc)
  closed-waiting (waiting t) r n h = absurd (cc)
  closed-waiting (dialing m) r n h = ground arith
  closed-waiting (live m p) r n h = ground arith

  reconnects-dialing :
      (t : ℕ) (r : Rest)
      → (handle opts (in_phase (waiting t) r) (reconnects t)).1
        ≡ reports connecting ∷ opens r.fresh ∷ []
  unfolding in_phase handle among without reconnect_due open_socket set_state
  reconnects-dialing t r = ground arith

  Retries : ℕ → SignalingClient → Type 0
  Retries n c =
      let lost = handle opts c (closed n) in
      (t m : ℕ) × (lost.1 ≡ reports offline ∷ schedules t (next c.backoff).1 ∷ [])
      × ((handle opts lost.0 (reconnects t)).1 ≡ reports connecting ∷ opens m ∷ [])

  in_phase-backoff : (p : Phase) (r : Rest) → (in_phase p r).backoff ≡ r.backoff
  unfolding in_phase
  in_phase-backoff idle r = refl
  in_phase-backoff (waiting t) r = refl
  in_phase-backoff (dialing n) r = refl
  in_phase-backoff (live n p) r = refl

  retries :
      (p : Phase) (r : Rest) (n : ℕ) → (in_phase p r).socket ≡ some n → Retries n (in_phase p r)
  unfolding Retries
  retries p r n h =
      let e = closed-waiting p r n h in
      (
        r.fresh,
        (backed_off r).fresh,
        ap (λ x. x.1) e
            ∙ ap (λ b. reports offline ∷ schedules r.fresh (next b).1 ∷ [])
                (sym (in_phase-backoff p r)),
        ap (λ x. (handle opts x.0 (reconnects r.fresh)).1) e
            ∙ reconnects-dialing r.fresh (backed_off r),
      )

  -- When the socket is lost, after any such events, the client goes offline and sets a timer with the
  -- next delay of its backoff; when that timer fires it opens a new socket.
  pub lost-retries :
      (es : List ClientEvent) (n : ℕ)
      → ArePolite opts new_client es
      → (run opts new_client es).0.socket ≡ some n
      → let c = (run opts new_client es).0 in
        let lost = handle opts c (closed n) in
        (t m : ℕ) × (lost.1 ≡ reports offline ∷ schedules t (next c.backoff).1 ∷ [])
        × ((handle opts lost.0 (reconnects t)).1 ≡ reports connecting ∷ opens m ∷ [])
  unfolding in_phase Retries
  lost-retries es n h k =
      let z : Rest = record {
        last_inbound_ms = 0;
        backoff = new_client.backoff;
        signing = [];
        fresh = 0;
      } in
      let (p, r, q) = run-in_phase opts idle z es h in
      subst (Retries n) (sym q) (retries p r n (sym (ap (λ c. c.socket) q) ∙ k))
