-- ===== src/Extension/PairingManager/Proof.antt =====
-- Who gets into the laptop's store of paired devices, in any order of calls and resumptions.
use remotetab.Prelude.{
  nth, replace, ℕ, ◌≤◌, ◌<◌, ◌≡◌, String, true, false, none, some, List, [], ◌∷◌, arith, All,
}
use remotetab.Protocol.Messages.{PairJoin}
use remotetab.Extension.PairedDevices.{PairedDevice}
use remotetab.Extension.PairingManager.{
  PairingManager, PairingDeps, Payload, Flight, Progress, hashing, verifying, settled, create,
  on_pair_created, cancel, start_join, resume, device_of, transcript,
}

-- The manager and the calls of `onPairJoin` that wait.
pub record Pairing : Type 0 where
  pub manager : PairingManager
  pub waiting : List Progress

pub data PairingEvent : Type 0 where
  creates : (now_ms ttl : ℕ) (placeholder nonce secret : String) → PairingEvent
  confirms : (pair_id : String) (expires_at_ms : ℕ) → PairingEvent
  cancels : PairingEvent
  joins : (now_ms : ℕ) → PairJoin → PairingEvent
  -- The call at this place goes on.
  resumes : (place : ℕ) → PairingEvent

unfoldable pub step : PairingDeps → Pairing → PairingEvent → Pairing
step deps s (creates now_ms ttl placeholder nonce secret) = record s {
  manager = (create deps now_ms ttl placeholder nonce secret s.manager).0;
}
step deps s (confirms pair_id expires_at_ms) = record s {
  manager = on_pair_created pair_id expires_at_ms s.manager;
}
step deps s cancels = record s { manager = cancel s.manager }
step deps s (joins now_ms j) =
    let r = start_join now_ms j s.manager in
    record { manager = r.manager; waiting = r.progress ∷ s.waiting }
step deps s (resumes place) = elim (nth place s.waiting) [
  | none ↦ s
  | some p ↦
      let r = resume deps p s.manager in
      record { manager = r.manager; waiting = replace place r.progress s.waiting }
]

unfoldable pub run : PairingDeps → Pairing → List PairingEvent → Pairing
run deps s [] = s
run deps s (e ∷ es) = run deps (step deps s e) es

abbrev pub no_payload : Payload
no_payload = record { pair_id = ""; expires_at_ms = 0; nonce = ""; secret = "" }

abbrev pub fresh_pairing : Pairing
fresh_pairing = record {
  manager = record { payloads = λ a. no_payload; made = 0; pending = none; devices = [] };
  waiting = [];
}

-- The join of `f` was proved with a secret of this laptop: the key has the claimed fingerprint, and
-- the proof verifies under the secret and nonce of a pairing that was made, for both devices.
pub record IsProved (deps : PairingDeps) (m : PairingManager) (f : Flight) : Type 0 where
  pub made_here : f.address < m.made
  pub matching : deps.fingerprint_of f.join.public_key_spki ≡ some f.join.public_key_fingerprint
  pub expires_at_ms : ℕ
  pub verified :
      deps.verify
        (m.payloads f.address).secret
        (record (transcript deps (m.payloads f.address) f.join) { expires_at_ms = expires_at_ms })
        f.join.pairing_proof
      ≡ true

-- What a stored device rests on.
pub record IsEarned (deps : PairingDeps) (m : PairingManager) (d : PairedDevice) : Type 0 where
  pub flight : Flight
  pub same_device : d ≡ device_of flight
  pub proved : IsProved deps m flight

module _ (deps : PairingDeps) where
  unfoldable pub Ready : PairingManager → Progress → Type 0
  Ready m (hashing f) = f.address < m.made
  Ready m (verifying f true) = IsProved deps m f
  Ready m (verifying f false) = Unit {0}
  Ready m (settled o) = Unit {0}

  pub record IsSound (m : PairingManager) : Type 0 where
    pub known : (a : ℕ) → m.pending ≡ some a → a < m.made
    pub earned : All (IsEarned deps m) m.devices

  -- Secrets and nonces are never changed.
  pub record Extends (m m' : PairingManager) : Type 0 where
    pub grows : m.made ≤ m'.made
    pub secrets : (a : ℕ) → a < m.made → (m'.payloads a).secret ≡ (m.payloads a).secret
    pub nonces : (a : ℕ) → a < m.made → (m'.payloads a).nonce ≡ (m.payloads a).nonce

  pub IsProved-Extends :
      (f : Flight) {m m' : PairingManager} → Extends m m' → IsProved deps m f → IsProved deps m' f
  unfolding transcript
  IsProved-Extends f x p = record {
    made_here = omega (arith, x.grows, p.made_here);
    matching = p.matching;
    expires_at_ms = p.expires_at_ms;
    verified = rw (x.secrets f.address p.made_here, x.nonces f.address p.made_here) p.verified;
  }

  pub Ready-Extends : (q : Progress) {m m' : PairingManager} → Extends m m' → Ready m q → Ready m' q
  unfolding Ready
  Ready-Extends (hashing f) x h = omega (arith, x.grows)
  Ready-Extends (verifying f true) x h = IsProved-Extends f x h
  Ready-Extends (verifying f false) x h = tt
  Ready-Extends (settled o) x h = tt

  pub IsEarned-Extends :
      (d : PairedDevice) {m m' : PairingManager}
      → Extends m m'
      → IsEarned deps m d
      → IsEarned deps m' d
  IsEarned-Extends d x e = record {
    flight = e.flight;
    same_device = e.same_device;
    proved = IsProved-Extends e.flight x e.proved;
  }
