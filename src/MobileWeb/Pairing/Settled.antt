-- ===== src/MobileWeb/Pairing/Settled.antt =====
-- A pairing session reports one result.
use remotetab.Prelude.{
  ◌≡◌, ℕ, suc, ◌+◌, String, Bool, true, false, Option, none, some, List, [], ◌∷◌, ◌++◌, arith,
  str_eq, Bool-cases, inl, inr, ◌then_call◌, if◌then◌else◌, replace,
}
use remotetab.Protocol.Messages.{PairJoin}
use remotetab.MobileWeb.Pairing.{
  PairedDesktop, AcceptedDesktop, PairingResult, succeeded, failed, validate_computed,
  build_pair_join, changed, store_desktop,
}
use remotetab.MobileWeb.Pairing.Session.{
  Flight, greeting, joining, hashing, storing, stored, forgetting, PairFrame, hello_ok,
  pair_accepted, pair_refused, other_frame, PairAct, settles, opens, greets, joins, closes,
  PairingSession, PairingContext, wait, start, stop, settle, on_message, on_verdict, resume_flight,
  PairEvent, starts, stops, opened, received, errs, resumes, forgets, flight_at, handle, run,
  new_session, reason_of, detach, send_join, on_hash, resume_at,
}

-- How often a result is reported.
unfoldable pub settlements : List PairAct → ℕ
settlements [] = 0
settlements (settles result ∷ acts) = suc (settlements acts)
settlements (_ ∷ acts) = settlements acts

settlements-append : (a b : List PairAct) → settlements (a ++ b) ≡ settlements a + settlements b
unfolding settlements
settlements-append [] b = omega arith
settlements-append (settles result ∷ a) b = omega (arith, settlements-append a b)
settlements-append (opens n url ∷ a) b = settlements-append a b
settlements-append (greets n phone ∷ a) b = settlements-append a b
settlements-append (joins n join ∷ a) b = settlements-append a b
settlements-append (closes n ∷ a) b = settlements-append a b

abbrev pub once : Bool → ℕ
once true = 1
once false = 0

-- A call reports as often as the flag goes up.
abbrev Counts : PairingSession → PairingSession × List PairAct → Type 0
Counts s r = settlements r.1 + once s.settled ≡ once r.0.settled

Counts-then_call :
    (s : PairingSession) (r : PairingSession × List PairAct)
    (f : PairingSession → PairingSession × List PairAct)
    → Counts s r
    → Counts r.0 (f r.0)
    → Counts s (r then_call f)
Counts-then_call s (t, acts) f h k = omega (arith, settlements-append acts (f t).1, h, k)

detach-Counts :
    (closable : Bool) (socket : Option ℕ) (s : PairingSession) → Counts s (detach closable socket s)
unfolding detach settlements
detach-Counts closable none s = omega arith
detach-Counts true (some n) s = omega arith
detach-Counts false (some n) s = omega arith

settle-Counts :
    (closable : Bool) (result : PairingResult) (s : PairingSession)
    → Counts s (settle closable result s)
unfolding settle stop settlements
settle-Counts closable result s = elim (Bool-cases s.settled) [
  | inl e ↦ simp (settle, e) (omega arith)
  | inr e ↦
      let up : PairingSession = record s { settled = true } in
      let stopped = detach closable s.socket up in
      simp (settle, e)
        (omega (
          arith,
          settlements-append stopped.1 (settles result ∷ []),
          detach-Counts closable s.socket up,
        ))
]

idle-Counts : (s : PairingSession) → Counts s (s, [])
unfolding settlements
idle-Counts s = omega arith

wait-Counts : (f : Flight) (s : PairingSession) → Counts s (wait f s)
unfolding wait settlements
wait-Counts f s = omega arith

on_verdict-Counts :
    (closable : Bool) (result : PairingResult) (s : PairingSession)
    → Counts s (on_verdict closable result s)
unfolding on_verdict
on_verdict-Counts closable (failed reason) s = settle-Counts closable (failed reason) s
on_verdict-Counts closable (succeeded d) s = wait-Counts (storing d s.desktops) s

on_hash-Counts :
    (ctx : PairingContext) (closable : Bool) (now_ms : ℕ) (a : AcceptedDesktop) (o : Option String)
    (s : PairingSession)
    → Counts s (on_hash ctx closable now_ms a o s)
unfolding on_hash
on_hash-Counts ctx closable now_ms a none s = idle-Counts s
on_hash-Counts ctx closable now_ms a (some computed) s =
    on_verdict-Counts closable (validate_computed ctx.payload a now_ms computed) s

-- One of two calls.
either :
    (t : Bool) (s : PairingSession) (r q : PairingSession × List PairAct)
    → Counts s r
    → Counts s q
    → Counts s (if t then r else q)
either true s r q h k = h
either false s r q h k = k

on_message-Counts :
    (ctx : PairingContext) (closable : Bool) (n : ℕ) (frame : Option PairFrame) (s : PairingSession)
    → Counts s (on_message ctx closable n frame s)
unfolding on_message
on_message-Counts ctx closable n none s = idle-Counts s
on_message-Counts ctx closable n (some hello_ok) s = wait-Counts (joining n) s
on_message-Counts ctx closable n (some (pair_accepted a)) s =
    either (str_eq a.public_key_fingerprint ctx.payload.desktop_fingerprint) s (wait (hashing a) s)
      (settle closable (failed changed) s) (wait-Counts (hashing a) s)
      (settle-Counts closable (failed changed) s)
on_message-Counts ctx closable n (some (pair_refused code)) s =
    settle-Counts closable (failed (reason_of code)) s
on_message-Counts ctx closable n (some other_frame) s = idle-Counts s

send_join-Counts :
    (n : ℕ) (join : Option PairJoin) (s : PairingSession) → Counts s (send_join n join s)
unfolding send_join settlements
send_join-Counts n none s = omega arith
send_join-Counts n (some join) s = omega arith

resume_flight-Counts :
    (ctx : PairingContext) (closable written : Bool) (now_ms : ℕ) (f : Flight) (s : PairingSession)
    → Counts s (resume_flight ctx closable written now_ms f s)
unfolding resume_flight settlements
resume_flight-Counts ctx closable written now_ms (greeting n) s = omega arith
resume_flight-Counts ctx closable written now_ms (joining n) s =
    send_join-Counts n (build_pair_join ctx.codecs ctx.phone ctx.payload) s
resume_flight-Counts ctx closable written now_ms (hashing a) s =
    on_hash-Counts ctx closable now_ms a (ctx.fingerprint_of a.public_key_spki) s
resume_flight-Counts ctx closable true now_ms (storing d listed) s =
    wait-Counts (stored d) (record s { desktops = store_desktop d listed })
resume_flight-Counts ctx closable false now_ms (storing d listed) s = omega arith
resume_flight-Counts ctx closable written now_ms (stored d) s =
    settle-Counts closable (succeeded d) s
resume_flight-Counts ctx closable true now_ms (forgetting id listed) s = omega arith
resume_flight-Counts ctx closable false now_ms (forgetting id listed) s = omega arith

resume_at-Counts :
    (ctx : PairingContext) (closable written : Bool) (now_ms place : ℕ) (o : Option Flight)
    (s : PairingSession)
    → Counts s (resume_at ctx closable written now_ms place o s)
unfolding resume_at
resume_at-Counts ctx closable written now_ms place none s = idle-Counts s
resume_at-Counts ctx closable written now_ms place (some f) s =
    resume_flight-Counts ctx closable written now_ms f
      (record s { waiting = replace place none s.waiting })

handle-Counts :
    (ctx : PairingContext) (s : PairingSession) (closable : Bool) (e : PairEvent)
    → Counts s (handle ctx s closable e)
unfolding handle start stop settlements
handle-Counts ctx s closable starts = omega arith
handle-Counts ctx s closable stops = detach-Counts closable s.socket s
handle-Counts ctx s closable (opened n) =
    either _ s (wait (greeting n) s) (s, []) (wait-Counts (greeting n) s) (idle-Counts s)
handle-Counts ctx s closable (received n frame) =
    either _ s (on_message ctx closable n frame s) (s, [])
      (on_message-Counts ctx closable n frame s) (idle-Counts s)
handle-Counts ctx s closable (errs n) =
    either _ s (settle closable _ s) (s, []) (settle-Counts closable _ s) (idle-Counts s)
handle-Counts ctx s closable (resumes place now_ms written) =
    resume_at-Counts ctx closable written now_ms place (flight_at place s.waiting) s
handle-Counts ctx s closable (forgets id) = wait-Counts (forgetting id s.desktops) s

run-Counts :
    (ctx : PairingContext) (s : PairingSession) (es : List (Bool × PairEvent))
    → Counts s (run ctx s es)
unfolding run
run-Counts ctx s [] = idle-Counts s
run-Counts ctx s ((closable, e) ∷ es) =
    Counts-then_call s (handle ctx s closable e) (λ t. run ctx t es)
      (handle-Counts ctx s closable e) (run-Counts ctx (handle ctx s closable e).0 es)

-- Over any events of a session, in any order: `onSettled` is called once if the session has settled,
-- and never if it has not, whatever is accepted, refused or lost besides.
pub run-settles_once :
    (ctx : PairingContext) (ds : List PairedDesktop) (es : List (Bool × PairEvent))
    → let r = run ctx (new_session ds) es in settlements r.1 ≡ once r.0.settled
unfolding new_session
run-settles_once ctx ds es = omega (arith, run-Counts ctx (new_session ds) es)
