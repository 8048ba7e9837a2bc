-- ===== src/MobileWeb/Pairing/Anchored.antt =====
-- What is stored and reported as paired is the desktop of the QR code.
use remotetab.Prelude.{
  ◌≡◌, refl, ◌⊎◌, inl, inr, ℕ, String, Bool, true, false, Option, none, some, List, [], ◌∷◌, eq_iff,
  str_eq, All, All-nth, All-replace, nth, Bool-cases, if◌then◌else◌, replace,
}
use remotetab.Protocol.Messages.{PairJoin}
use remotetab.MobileWeb.Pairing.{
  PairedDesktop, AcceptedDesktop, PairingResult, succeeded, failed, forget_desktop, store_desktop,
  validate_computed, build_pair_join, changed,
}
use remotetab.MobileWeb.Pairing.Session.{
  Flight, greeting, joining, hashing, storing, stored, forgetting, PairFrame, hello_ok,
  pair_accepted, pair_refused, other_frame, PairAct, settles, PairingSession, PairingContext, start,
  stop, on_message, on_verdict, resume_flight, PairEvent, starts, stops, opened, received, errs,
  resumes, forgets, flight_at, handle, run, new_session, reason_of, send_join, on_hash, resume_at,
}
use remotetab.MobileWeb.Pairing.Sound.{
  IsAnchored, IsHonest, IsFine, IsFineFlight, IsSound, Keeps, Keeps-then_call, quiet,
  forget_desktop-IsFine, store_desktop-IsFine, wait-Keeps, detach-Keeps, settle-Keeps,
}

waiting_flight :
    (o : Option (Option Flight)) (f : Flight)
    → ◌≡◌ {A = Option Flight} (elim o [ some (some g) ↦ some g | _ ↦ none ]) (some f)
    → o ≡ some (some f)
waiting_flight none f e = cc
waiting_flight (some none) f e = cc
waiting_flight (some (some g)) f e = cc

module _ (ctx : PairingContext) (Known : PairedDesktop → Type 0) where
  validate_computed-IsHonest :
      (a : AcceptedDesktop) (now_ms : ℕ) (computed : String)
      → ctx.fingerprint_of a.public_key_spki ≡ some computed
      → a.public_key_fingerprint ≡ ctx.payload.desktop_fingerprint
      → IsHonest ctx (settles (validate_computed ctx.payload a now_ms computed))
  unfolding validate_computed
  validate_computed-IsHonest a now_ms computed e k =
      elim (Bool-cases (str_eq computed a.public_key_fingerprint)) [
        | inr other ↦ rw other tt
        | inl same ↦ elim (Bool-cases (str_eq a.public_key_spki ctx.payload.desktop_spki)) [
          | inr other ↦ rw (same, other) tt
          | inl key ↦
              rw (same, key)
                (record {
                  key = refl;
                  fingerprint = refl;
                  hashed =
                      let f : computed ≡ a.public_key_fingerprint =
                        (eq_iff computed a.public_key_fingerprint).0 same in
                      let q : a.public_key_spki ≡ ctx.payload.desktop_spki =
                        (eq_iff a.public_key_spki ctx.payload.desktop_spki).0 key in
                      cc (e, f, q, k);
                })
        ]
      ]

  on_verdict-Keeps :
      (closable : Bool) (result : PairingResult) (s : PairingSession)
      → IsHonest ctx (settles result)
      → IsSound ctx Known s
      → Keeps ctx Known (on_verdict closable result s)
  unfolding on_verdict
  on_verdict-Keeps closable (failed reason) s k h =
      settle-Keeps ctx Known closable (failed reason) s tt h
  on_verdict-Keeps closable (succeeded d) s k h =
      wait-Keeps ctx Known (storing d s.desktops) s (k, h.stored_ones) h

  on_hash-Keeps :
      (closable : Bool) (now_ms : ℕ) (a : AcceptedDesktop) (o : Option String) (s : PairingSession)
      → ctx.fingerprint_of a.public_key_spki ≡ o
      → a.public_key_fingerprint ≡ ctx.payload.desktop_fingerprint
      → IsSound ctx Known s
      → Keeps ctx Known (on_hash ctx closable now_ms a o s)
  unfolding on_hash
  on_hash-Keeps closable now_ms a none s e k h = quiet ctx Known s h
  on_hash-Keeps closable now_ms a (some computed) s e k h =
      on_verdict-Keeps closable (validate_computed ctx.payload a now_ms computed) s
        (validate_computed-IsHonest a now_ms computed e k) h

  on_message-Keeps :
      (closable : Bool) (n : ℕ) (frame : Option PairFrame) (s : PairingSession)
      → IsSound ctx Known s
      → Keeps ctx Known (on_message ctx closable n frame s)
  unfolding on_message
  on_message-Keeps closable n none s h = quiet ctx Known s h
  on_message-Keeps closable n (some hello_ok) s h = wait-Keeps ctx Known (joining n) s tt h
  on_message-Keeps closable n (some (pair_accepted a)) s h =
      elim (Bool-cases (str_eq a.public_key_fingerprint ctx.payload.desktop_fingerprint)) [
        | inl e ↦ rw e (
            wait-Keeps ctx Known (hashing a) s
              ((eq_iff a.public_key_fingerprint ctx.payload.desktop_fingerprint).0 e) h)
        | inr e ↦ rw e (settle-Keeps ctx Known closable (failed changed) s tt h)
      ]
  on_message-Keeps closable n (some (pair_refused code)) s h =
      settle-Keeps ctx Known closable (failed (reason_of code)) s tt h
  on_message-Keeps closable n (some other_frame) s h = quiet ctx Known s h

  send_join-Keeps :
      (n : ℕ) (join : Option PairJoin) (s : PairingSession)
      → IsSound ctx Known s
      → Keeps ctx Known (send_join n join s)
  unfolding send_join
  send_join-Keeps n none s h = quiet ctx Known s h
  send_join-Keeps n (some join) s h = record { sound = h; honest = (tt, tt) }

  written_as :
      (ds : List PairedDesktop) (s : PairingSession)
      → All (IsFine ctx Known) ds
      → IsSound ctx Known s
      → IsSound ctx Known (record s { desktops = ds })
  written_as ds s k h = record { stored_ones = k; waiting_ones = h.waiting_ones }

  resume_flight-Keeps :
      (closable written : Bool) (now_ms : ℕ) (f : Flight) (s : PairingSession)
      → IsFineFlight ctx Known (some f)
      → IsSound ctx Known s
      → Keeps ctx Known (resume_flight ctx closable written now_ms f s)
  unfolding resume_flight
  resume_flight-Keeps closable written now_ms (greeting n) s k h = record {
    sound = h;
    honest = (tt, tt);
  }
  resume_flight-Keeps closable written now_ms (joining n) s k h =
      send_join-Keeps n (build_pair_join ctx.codecs ctx.phone ctx.payload) s h
  resume_flight-Keeps closable written now_ms (hashing a) s k h =
      on_hash-Keeps closable now_ms a (ctx.fingerprint_of a.public_key_spki) s refl k h
  resume_flight-Keeps closable true now_ms (storing d listed) s (k, l) h =
      wait-Keeps ctx Known (stored d) (record s { desktops = store_desktop d listed }) k
        (written_as (store_desktop d listed) s (store_desktop-IsFine ctx Known d listed k l) h)
  resume_flight-Keeps closable false now_ms (storing d listed) s k h = quiet ctx Known s h
  resume_flight-Keeps closable written now_ms (stored d) s k h =
      settle-Keeps ctx Known closable (succeeded d) s k h
  resume_flight-Keeps closable true now_ms (forgetting id listed) s k h =
      quiet ctx Known (record s { desktops = forget_desktop id listed })
        (written_as (forget_desktop id listed) s (forget_desktop-IsFine ctx Known id listed k) h)
  resume_flight-Keeps closable false now_ms (forgetting id listed) s k h = quiet ctx Known s h

  flight_at-IsFine :
      (place : ℕ) (fs : List (Option Flight)) (f : Flight)
      → All (IsFineFlight ctx Known) fs
      → flight_at place fs ≡ some f
      → IsFineFlight ctx Known (some f)
  flight_at-IsFine place fs f h e =
      All-nth (IsFineFlight ctx Known) place fs (some f) h (waiting_flight (nth place fs) f e)

  resume_at-Keeps :
      (closable written : Bool) (now_ms place : ℕ) (o : Option Flight) (s : PairingSession)
      → flight_at place s.waiting ≡ o
      → IsSound ctx Known s
      → Keeps ctx Known (resume_at ctx closable written now_ms place o s)
  unfolding resume_at
  resume_at-Keeps closable written now_ms place none s e h = quiet ctx Known s h
  resume_at-Keeps closable written now_ms place (some f) s e h =
      resume_flight-Keeps closable written now_ms f
        (record s { waiting = replace place none s.waiting })
        (flight_at-IsFine place s.waiting f h.waiting_ones e)
        (record {
          stored_ones = h.stored_ones;
          waiting_ones =
              All-replace (IsFineFlight ctx Known) place none s.waiting tt h.waiting_ones;
        })

  attached_only :
      (t : Bool) (r : PairingSession × List PairAct) (s : PairingSession)
      → (Keeps ctx Known) r
      → IsSound ctx Known s
      → Keeps ctx Known (if t then r else (s, []))
  attached_only true r s k h = k
  attached_only false r s k h = quiet ctx Known s h

  handle-Keeps :
      (s : PairingSession) (closable : Bool) (e : PairEvent)
      → IsSound ctx Known s
      → Keeps ctx Known (handle ctx s closable e)
  unfolding handle start
  handle-Keeps s closable starts h = record {
    sound = record { stored_ones = h.stored_ones; waiting_ones = h.waiting_ones };
    honest = (tt, tt);
  }
  handle-Keeps s closable stops h = unfold stop in detach-Keeps ctx Known closable s.socket s h
  handle-Keeps s closable (opened n) h =
      attached_only _ _ s (wait-Keeps ctx Known (greeting n) s tt h) h
  handle-Keeps s closable (received n frame) h =
      attached_only _ _ s (on_message-Keeps closable n frame s h) h
  handle-Keeps s closable (errs n) h =
      attached_only _ _ s (settle-Keeps ctx Known closable _ s tt h) h
  handle-Keeps s closable (resumes place now_ms written) h =
      resume_at-Keeps closable written now_ms place (flight_at place s.waiting) s refl h
  handle-Keeps s closable (forgets id) h =
      wait-Keeps ctx Known (forgetting id s.desktops) s h.stored_ones h

  run-Keeps :
      (s : PairingSession) (es : List (Bool × PairEvent))
      → IsSound ctx Known s
      → Keeps ctx Known (run ctx s es)
  unfolding run
  run-Keeps s [] h = quiet ctx Known s h
  run-Keeps s ((closable, e) ∷ es) h =
      Keeps-then_call ctx Known (handle ctx s closable e) (λ t. run ctx t es)
        (handle-Keeps s closable e h) (λ t k. run-Keeps t es k)

All-IsFine :
    (ctx : PairingContext) (Known : PairedDesktop → Type 0) (ds : List PairedDesktop)
    → All Known ds
    → All (λ d. Known d ⊎ IsAnchored ctx d) ds
All-IsFine ctx Known [] h = tt
All-IsFine ctx Known (d ∷ ds) (k, h) = (inl k, All-IsFine ctx Known ds h)

-- Over any events of a session, in any order, with `stop()` and forgotten desktops in between: each
-- stored desktop was stored before, or has the key and the fingerprint of the QR code, where the key
-- does have that fingerprint; and so has each desktop that is reported as paired.
pub run-IsAnchored :
    (ctx : PairingContext) (Known : PairedDesktop → Type 0) (ds : List PairedDesktop)
    (es : List (Bool × PairEvent))
    → All Known ds
    → let r = run ctx (new_session ds) es in
      All (λ d. Known d ⊎ IsAnchored ctx d) r.0.desktops × All (IsHonest ctx) r.1
unfolding new_session
run-IsAnchored ctx Known ds es h =
    let k =
      run-Keeps ctx Known (new_session ds) es
        (record { stored_ones = All-IsFine ctx Known ds h; waiting_ones = tt }) in
    (k.sound.stored_ones, k.honest)
