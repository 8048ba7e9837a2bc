-- ===== src/Extension/PairingManager/Earned.antt =====
-- Every paired device has proved that it knew a secret of the laptop.
use mathlib.Core.Path.{subst}
use remotetab.Prelude.{
  nth, replace, All-nth, All-replace, All-weaken, ℕ, ◌<◌, ◌≡◌, refl, sym, ap, ◌∙◌, inl, inr, String,
  true, false, Option, none, some, List, [], ◌∷◌, ◌||◌, not, leb, arith, All, All-append, str_eq,
  eq_iff, Option-cases, Bool-cases,
}
use remotetab.Protocol.Messages.{PairJoin}
use remotetab.Extension.PairedDevices.{PairedDevice, upsert, remove}
use remotetab.Extension.PairingManager.{
  PairingManager, PairingDeps, Flight, Progress, hashing, verifying, settled, create,
  on_pair_created, cancel, start_join, resume, resume_hash, resume_verify, device_of, transcript,
  put,
}
use remotetab.Extension.PairingManager.Proof.{
  Pairing, PairingEvent, creates, confirms, cancels, joins, resumes, step, run, fresh_pairing,
  IsEarned, Ready, IsSound, Extends, IsProved-Extends, Ready-Extends, IsEarned-Extends,
}

All-remove :
    (P : PairedDevice → Type 0) (id : String) (ds : List PairedDevice)
    → All P ds
    → All P (remove id ds)
unfolding remove
All-remove P id [] h = tt
All-remove P id (d ∷ ds) (p, h) = elim (Bool-cases (str_eq d.device_id id)) [
  | inl e ↦ rw e (All-remove P id ds h)
  | inr e ↦ rw e (p, All-remove P id ds h)
]

module _ (deps : PairingDeps) where
  -- Only the payloads count.
  Extends-pending :
      (m : PairingManager) (pending : Option ℕ) (devices : List PairedDevice)
      → Extends deps m (record m { pending = pending; devices = devices })
  Extends-pending m pending devices = record {
    grows = omega arith;
    secrets = λ a h. refl;
    nonces = λ a h. refl;
  }

  -- The invariant of a manager and its waiting calls.
  record Holds (s : Pairing) : Type 0 where
    sound : IsSound deps s.manager
    ready : All (Ready deps s.manager) s.waiting

  -- A change of the manager that adds no device.
  moved :
      (m' : PairingManager) (s : Pairing)
      → Extends deps s.manager m'
      → m'.devices ≡ s.manager.devices
      → ((a : ℕ) → m'.pending ≡ some a → a < m'.made)
      → Holds s
      → Holds (record s { manager = m' })
  moved m' s x e k h = record {
    sound = record {
      known = k;
      earned =
          subst (All (IsEarned deps m')) (sym e)
            (All-weaken (λ d. IsEarned-Extends deps d x) s.manager.devices h.sound.earned);
    };
    ready = All-weaken (λ q. Ready-Extends deps q x) s.waiting h.ready;
  }

  create-Holds :
      (now_ms ttl : ℕ) (placeholder nonce secret : String) (s : Pairing)
      → Holds s
      → Holds (step deps s (creates now_ms ttl placeholder nonce secret))
  unfolding step create put
  create-Holds now_ms ttl placeholder nonce secret s h =
      moved (create deps now_ms ttl placeholder nonce secret s.manager).0 s
        (record {
          grows = omega arith;
          secrets = λ a p. ground arith;
          nonces = λ a p. ground arith;
        })
        refl (λ a e. ground arith) h

  confirm-Holds :
      (pair_id : String) (expires_at_ms : ℕ) (s : Pairing)
      → Holds s
      → Holds (step deps s (confirms pair_id expires_at_ms))
  unfolding step on_pair_created put
  confirm-Holds pair_id expires_at_ms s h = elim (Option-cases s.manager.pending) [
    | inl e ↦ rw (e, on_pair_created) h
    | inr (a, e) ↦
        moved (on_pair_created pair_id expires_at_ms s.manager) s
          (record {
            grows = ground arith;
            secrets = λ b p. ground arith;
            nonces = λ b p. ground arith;
          })
          (ground arith) (λ b f. ground (arith, h.sound.known a e)) h
  ]

  join-Holds :
      (now_ms : ℕ) (j : PairJoin) (s : Pairing) → Holds s → Holds (step deps s (joins now_ms j))
  unfolding step start_join Ready
  join-Holds now_ms j s h = elim (Option-cases s.manager.pending) [
    | inl e ↦ rw (e, start_join) (record { sound = h.sound; ready = (tt, h.ready) })
    | inr (a, e) ↦
        elim (Bool-cases (
          leb (s.manager.payloads a).expires_at_ms now_ms
          || not (str_eq j.pair_id (s.manager.payloads a).pair_id))) [
            | inl late ↦
                let k =
                  moved (record s.manager { pending = none }) s
                    (Extends-pending s.manager none s.manager.devices) refl (λ b f. absurd (cc))
                    h in
                rw (e, start_join, late) (record { sound = k.sound; ready = (tt, k.ready) })
            | inr timely ↦
                rw (e, start_join, timely)
                  (record { sound = h.sound; ready = (h.sound.known a e, h.ready) })
          ]
  ]

  -- A call that goes on is again ready.
  resume_hash-Ready :
      (f : Flight) (m : PairingManager)
      → f.address < m.made
      → ((resume_hash deps f m).manager ≡ m) × Ready deps m (resume_hash deps f m).progress
  unfolding resume_hash Ready
  resume_hash-Ready f m h = elim (Option-cases (deps.fingerprint_of f.join.public_key_spki)) [
    | inl e ↦ rw (e, resume_hash) (refl, tt)
    | inr (fp, e) ↦ elim (Bool-cases (str_eq fp f.join.public_key_fingerprint)) [
      | inr other ↦ rw (e, resume_hash, other) (refl, tt)
      | inl same ↦
          elim (Bool-cases (
            deps.verify (m.payloads f.address).secret
              (transcript deps (m.payloads f.address) f.join) f.join.pairing_proof)) [
                | inr bad ↦ rw (e, resume_hash, same, bad) (refl, tt)
                | inl good ↦
                    rw (e, resume_hash, same, good)
                      (
                        refl,
                        record {
                          made_here = h;
                          matching = e ∙ ap some ((eq_iff fp f.join.public_key_fingerprint).0 same);
                          expires_at_ms = (m.payloads f.address).expires_at_ms;
                          verified = good;
                        },
                      )
              ]
    ]
  ]

  resume-Holds :
      (q : Progress) (n : ℕ) (s : Pairing)
      → Ready deps s.manager q
      → Holds s
      → let o = resume deps q s.manager in
        Holds (record { manager = o.manager; waiting = replace n o.progress s.waiting })
  unfolding resume resume_verify Ready upsert
  resume-Holds (settled o) n s t h = record {
    sound = h.sound;
    ready = All-replace (Ready deps s.manager) n (settled o) s.waiting tt h.ready;
  }
  resume-Holds (hashing f) n s made h =
      let (same, good) = resume_hash-Ready f s.manager made in
      rw same (record {
        sound = h.sound;
        ready = All-replace (Ready deps s.manager) n _ s.waiting good h.ready;
      })
  resume-Holds (verifying f false) n s t h = record {
    sound = h.sound;
    ready = All-replace (Ready deps s.manager) n (settled _) s.waiting tt h.ready;
  }
  resume-Holds (verifying f true) n s p h =
      let x = Extends-pending s.manager none (upsert (device_of f) s.manager.devices) in
      record {
        sound = record {
          known = λ a e. absurd (cc);
          earned =
              All-append (IsEarned deps _) (remove f.join.device_id s.manager.devices)
                (device_of f ∷ [])
                (All-remove (IsEarned deps _) f.join.device_id s.manager.devices
                  (All-weaken (λ d. IsEarned-Extends deps d x) s.manager.devices h.sound.earned))
                (
                  record { flight = f; same_device = refl; proved = IsProved-Extends deps f x p },
                  tt,
                );
        };
        ready =
            All-replace (Ready deps _) n (settled _) s.waiting tt
              (All-weaken (λ q. Ready-Extends deps q x) s.waiting h.ready);
      }

  step-Holds : (s : Pairing) (e : PairingEvent) → Holds s → Holds (step deps s e)
  unfolding step cancel
  step-Holds s (creates now_ms ttl placeholder nonce secret) h =
      create-Holds now_ms ttl placeholder nonce secret s h
  step-Holds s (confirms pair_id expires_at_ms) h = confirm-Holds pair_id expires_at_ms s h
  step-Holds s cancels h =
      moved (record s.manager { pending = none }) s
        (Extends-pending s.manager none s.manager.devices) refl (λ b f. absurd (cc)) h
  step-Holds s (joins now_ms j) h = join-Holds now_ms j s h
  step-Holds s (resumes place) h = elim (Option-cases (nth place s.waiting)) [
    | inl e ↦ rw (e, step) h
    | inr (q, e) ↦
        rw (e, step)
          (resume-Holds q place s (All-nth (Ready deps s.manager) place s.waiting q h.ready e) h)
  ]

  run-Holds : (s : Pairing) (es : List PairingEvent) → Holds s → Holds (run deps s es)
  unfolding run
  run-Holds s [] h = h
  run-Holds s (e ∷ es) h = run-Holds (step deps s e) es (step-Holds s e h)

-- In any order of calls and of resumptions of the calls that wait, from no devices on: each device
-- in the store comes from a join whose key has the fingerprint that it claims, and whose proof
-- verified under the secret and nonce of a pairing that this laptop had made, for both devices.
pub run-IsEarned :
    (deps : PairingDeps) (es : List PairingEvent)
    → let m = (run deps fresh_pairing es).manager in All (IsEarned deps m) m.devices
run-IsEarned deps es =
    (run-Holds deps fresh_pairing es (record {
      sound = record { known = λ a e. absurd (cc); earned = tt };
      ready = tt;
    })).sound.earned
