-- ===== src/Extension/SignalingClient/Phases/Moves.antt =====
-- apps/extension/src/signaling-client.ts: every event is a move between the phases.
use mathlib.Core.Path.{subst}
use remotetab.Prelude.{
  among, without, ℕ, ◌+◌, ◌-◌, ltb, ◌≡◌, refl, ◌∙◌, Bool, true, false, Option, none, some, List, [],
  ◌∷◌, String, arith, Bool-cases, inl, inr, if◌then◌else◌, is_some, ◌++◌, Option-cases, nth, take,
  drop,
}
use remotetab.Protocol.Messages.{Frame, SignalingMessage, auth_challenge}
use remotetab.Extension.Backoff.{next, reset}
use remotetab.Extension.SignalingClient.{
  SignalingClientOptions, SignalingClient, ClientEvent, connects, stops, opened, received, closed,
  signs, pings, reconnects, transmits, set_state, open_socket, connect, send_frame, stop_sockets,
  schedule_reconnect, on_open, answer_challenge, take_message, on_message, resume_sign, on_close,
  ping_due, reconnect_due, handle, new_client, run,
}
use remotetab.Extension.SignalingClient.Phases.{
  Phase, idle, waiting, dialing, live, Rest, in_phase, IsPolite, ArePolite, Move, stays, starts,
  retries, connected, reopened, falls_silent, dropped, lost, stopped, MovesFrom, only_if,
  close-idle,
}

module _ (opts : SignalingClientOptions) where
  connect-MovesFrom :
      (p : Phase) (r : Rest)
      → (in_phase p r).reconnect_handle ≡ none
      → MovesFrom p (connect (in_phase p r)).0
  unfolding in_phase connect open_socket set_state
  connect-MovesFrom idle r h = (dialing r.fresh, record r { fresh = r.fresh + 1 }, refl, starts)
  connect-MovesFrom (waiting t) r h = absurd (cc)
  connect-MovesFrom (dialing n) r h = (dialing n, r, refl, stays)
  connect-MovesFrom (live n p) r h = (live n p, r, refl, stays)

  on_open-MovesFrom :
      (p : Phase) (r : Rest) (n now : ℕ)
      → among n (in_phase p r).attached ≡ true
      → MovesFrom p (on_open opts n now (in_phase p r)).0
  unfolding in_phase among on_open set_state
  on_open-MovesFrom idle r n now h = absurd (cc)
  on_open-MovesFrom (waiting t) r n now h = absurd (cc)
  on_open-MovesFrom (dialing m) r n now h =
      (live m true, record r { backoff = reset r.backoff; last_inbound_ms = now }, refl, connected)
  on_open-MovesFrom (live m p) r n now h =
      (live m true, record r { backoff = reset r.backoff; last_inbound_ms = now }, refl, reopened)

  signs_for : Rest → String → Rest
  signs_for r nonce = record r {
    signing = if is_some opts.auth then r.signing ++ nonce ∷ [] else r.signing;
  }

  answer_challenge-in_phase :
      (p : Phase) (r : Rest) (nonce : String)
      → (r' : Rest) × (answer_challenge opts nonce (in_phase p r) ≡ in_phase p r')
  unfolding answer_challenge in_phase signs_for
  answer_challenge-in_phase idle r nonce = (r, ground arith)
  answer_challenge-in_phase (waiting t) r nonce = (r, ground arith)
  answer_challenge-in_phase (dialing n) r nonce = (signs_for r nonce, ground arith)
  answer_challenge-in_phase (live n p) r nonce = (signs_for r nonce, ground arith)

  take_message-in_phase :
      (p : Phase) (r : Rest) (message : SignalingMessage) (frame : Frame)
      → (r' : Rest) × ((take_message opts message frame (in_phase p r)).0 ≡ in_phase p r')
  unfolding take_message
  take_message-in_phase p r (auth_challenge nonce) frame = answer_challenge-in_phase p r nonce
  take_message-in_phase p r _ frame = (r, refl)

  heard :
      (p : Phase) (r : Rest) (now : ℕ)
      → record (in_phase p r) { last_inbound_ms = now }
        ≡ in_phase p (record r { last_inbound_ms = now })
  unfolding in_phase
  heard idle r now = refl
  heard (waiting t) r now = refl
  heard (dialing n) r now = refl
  heard (live n p) r now = refl

  unsigned :
      (p : Phase) (r : Rest) (ss : List String)
      → record (in_phase p r) { signing = ss } ≡ in_phase p (record r { signing = ss })
  unfolding in_phase
  unsigned idle r ss = refl
  unsigned (waiting t) r ss = refl
  unsigned (dialing n) r ss = refl
  unsigned (live n p) r ss = refl

  on_message-MovesFrom :
      (p : Phase) (r : Rest) (n now : ℕ) (frame : Option Frame)
      → MovesFrom p (on_message opts n now frame (in_phase p r)).0
  unfolding on_message
  on_message-MovesFrom p r n now none =
      (p, record r { last_inbound_ms = now }, heard p r now, stays)
  on_message-MovesFrom p r n now (some frame) =
      let k = take_message-in_phase p (record r { last_inbound_ms = now }) frame.message frame in
      (p, k.0, rw (heard p r now) k.1, stays)

  on_close-MovesFrom :
      (p : Phase) (r : Rest) (n : ℕ)
      → among n (in_phase p r).attached ≡ true
      → MovesFrom p
          (on_close (record (in_phase p r) { attached = without n (in_phase p r).attached })).0
  unfolding in_phase among on_close stop_sockets set_state schedule_reconnect
  on_close-MovesFrom idle r n h = absurd (cc)
  on_close-MovesFrom (waiting t) r n h = absurd (cc)
  on_close-MovesFrom (dialing m) r n h = (
    waiting r.fresh,
    record r { backoff = (next r.backoff).0; fresh = r.fresh + 1 },
    ground arith,
    dropped,
  )
  on_close-MovesFrom (live m p) r n h = (
    waiting r.fresh,
    record r { backoff = (next r.backoff).0; fresh = r.fresh + 1 },
    ground arith,
    lost,
  )

  ping_due-MovesFrom :
      (p : Phase) (r : Rest) (now ts : ℕ) (ready : Bool)
      → (in_phase p r).ping_handle ≡ true
      → MovesFrom p (ping_due opts now ts ready (in_phase p r)).0
  unfolding in_phase ping_due send_frame
  ping_due-MovesFrom idle r now ts ready h = absurd (cc)
  ping_due-MovesFrom (waiting t) r now ts ready h = absurd (cc)
  ping_due-MovesFrom (dialing n) r now ts ready h = absurd (cc)
  ping_due-MovesFrom (live n p) r now ts ready h =
      elim (Bool-cases (ltb opts.pong_timeout_ms (now - r.last_inbound_ms))) [
        | inl e ↦ (live n false, r, rw e refl, falls_silent)
        | inr e ↦ (live n p, r, ground arith, stays)
      ]

  reconnect_due-MovesFrom :
      (p : Phase) (r : Rest) (t : ℕ)
      → among t (in_phase p r).timers ≡ true
      → MovesFrom p
          (reconnect_due (record (in_phase p r) { timers = without t (in_phase p r).timers })).0
  unfolding in_phase among reconnect_due open_socket set_state without
  reconnect_due-MovesFrom idle r t h = absurd (cc)
  reconnect_due-MovesFrom (waiting u) r t h =
      (dialing r.fresh, record r { fresh = r.fresh + 1 }, ground arith, retries)
  reconnect_due-MovesFrom (dialing n) r t h = absurd (cc)
  reconnect_due-MovesFrom (live n p) r t h = absurd (cc)

  send_frame-same :
      (frame : Frame) (ready : Bool) (c : SignalingClient) → (send_frame frame ready c).0.0 ≡ c
  unfolding send_frame
  send_frame-same frame ready c = ground arith

  resume_sign-same :
      (signature : Option String) (c : SignalingClient) → (resume_sign opts signature c).0 ≡ c
  unfolding resume_sign
  resume_sign-same signature c = ground arith

  signs-MovesFrom :
      (p : Phase) (r : Rest) (i : ℕ) (signature : Option String)
      → MovesFrom p (handle opts (in_phase p r) (signs i signature)).0
  unfolding handle
  signs-MovesFrom p r i signature =
      let ss = take i (in_phase p r).signing ++ drop (i + 1) (in_phase p r).signing in
      elim (Option-cases (nth i (in_phase p r).signing)) [
        | inl e ↦ (p, r, rw (handle, e) refl, stays)
        | inr (nonce, e) ↦ (
          p,
          record r { signing = ss },
          rw (handle, e)
              (resume_sign-same signature (record (in_phase p r) { signing = ss })
                ∙ unsigned p r ss),
          stays,
        )
      ]

  handle-MovesFrom :
      (p : Phase) (r : Rest) (e : ClientEvent)
      → IsPolite (in_phase p r) e
      → MovesFrom p (handle opts (in_phase p r) e).0
  unfolding handle
  handle-MovesFrom p r connects h = connect-MovesFrom p r h
  handle-MovesFrom p r stops h = let (r', e) = close-idle p r in (idle, r', e, stopped)
  handle-MovesFrom p r (opened n now) h =
      only_if (among n (in_phase p r).attached) _ p r (on_open-MovesFrom p r n now)
  handle-MovesFrom p r (received n now frame) h =
      only_if (among n (in_phase p r).attached) _ p r (λ e. on_message-MovesFrom p r n now frame)
  handle-MovesFrom p r (closed n) h =
      only_if (among n (in_phase p r).attached) _ p r (on_close-MovesFrom p r n)
  handle-MovesFrom p r (signs i signature) h = signs-MovesFrom p r i signature
  handle-MovesFrom p r (pings now ts ready) h =
      only_if (in_phase p r).ping_handle _ p r (ping_due-MovesFrom p r now ts ready)
  handle-MovesFrom p r (reconnects t) h =
      only_if (among t (in_phase p r).timers) _ p r (reconnect_due-MovesFrom p r t)
  handle-MovesFrom p r (transmits frame ready) h =
      (p, r, send_frame-same frame ready (in_phase p r), stays)

  pub run-in_phase :
      (p : Phase) (r : Rest) (es : List ClientEvent)
      → ArePolite opts (in_phase p r) es
      → (p' : Phase) × (r' : Rest) × ((run opts (in_phase p r) es).0 ≡ in_phase p' r')
  unfolding run
  run-in_phase p r [] h = (p, r, refl)
  run-in_phase p r (e ∷ es) (h, hs) =
      let (p', r', k, m) = handle-MovesFrom p r e h in
      let t = run-in_phase p' r' es (subst (λ c. ArePolite opts c es) k hs) in (t.0, t.1, rw k t.2)

  -- Over any events after which `connect()` is called only when no reconnect timer is pending, the
  -- client is stopped with no socket and no timer, or has one timer and no socket, or one socket
  -- and no timer, a socket that is online if it has opened; and the next such event makes one of
  -- the moves between these states.
  pub run-Moves :
      (es : List ClientEvent) (e : ClientEvent)
      → ArePolite opts new_client es
      → IsPolite (run opts new_client es).0 e
      → (p p' : Phase) × (r r' : Rest) × ((run opts new_client es).0 ≡ in_phase p r)
        × ((handle opts (run opts new_client es).0 e).0 ≡ in_phase p' r')
        × Move p p'
  unfolding in_phase
  run-Moves es e h k =
      let r : Rest = record {
        last_inbound_ms = 0;
        backoff = new_client.backoff;
        signing = [];
        fresh = 0;
      } in
      let (p, r', q) = run-in_phase idle r es h in
      let (p', r'', q', m) = handle-MovesFrom p r' e (subst (λ c. IsPolite c e) q k) in
      (p, p', r', r'', q, rw q q', m)
