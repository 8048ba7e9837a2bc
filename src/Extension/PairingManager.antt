-- ===== src/Extension/PairingManager.antt =====
-- `PairingManager` of apps/extension/src/pairing-manager.ts. `onPairJoin` is cut at its awaits into
-- `start_join`, `resume_hash` and `resume_verify`; what happens in between is any other call. A
-- `PendingPairing` is an object that a suspended call shares with the manager, so it has an address.
pub mod Proof
pub mod Earned
pub mod Alone
pub mod Qr
use remotetab.Prelude.{
  ℕ, ◌+◌, ◌*◌, ◌==◌, leb, String, Bool, true, false, not, ◌||◌, Option, none, some, List, [], ◌∷◌,
  str_eq, if◌then◌else◌,
}
use remotetab.Protocol.Errors.{pair_expired, pair_invalid_proof}
use remotetab.Protocol.Messages.{
  Frame, SignalingMessage, PairJoin, pair_create, pair_accept, pair_reject,
}
use remotetab.Crypto.PairingProof.{PairingTranscript}
use remotetab.Extension.PairedDevices.{PairedDevice, upsert}

-- The private key does not matter here.
pub record DeviceIdentity : Type 0 where
  pub device_id : String
  pub public_key_spki : String
  pub fingerprint : String
  pub display_name : String

-- What of a pending payload changes or is read; the rest is the identity's.
pub record Payload : Type 0 where
  pub pair_id : String
  pub expires_at_ms : ℕ
  pub nonce : String
  pub secret : String

-- The device's identity, and the cryptography: `fingerprintFromSpkiB64` (`none` where it throws) and
-- `verifyPairingProof`, which never throws.
pub record PairingDeps : Type 0 where
  pub identity : DeviceIdentity
  pub fingerprint_of : String → Option String
  pub verify : String → PairingTranscript → String → Bool

-- The pending objects made so far, the address of the current one, and the stored devices.
pub record PairingManager : Type 0 where
  pub payloads : ℕ → Payload
  pub made : ℕ
  pub pending : Option ℕ
  pub devices : List PairedDevice

pub data PairingOutcome : Type 0 where
  paired : PairedDevice → PairingOutcome
  failed : (reason : String) → PairingOutcome
  thrown : PairingOutcome

-- A call of `onPairJoin` that waits: what it holds.
pub record Flight : Type 0 where
  pub address : ℕ
  pub join : PairJoin
  pub now_ms : ℕ

pub data Progress : Type 0 where
  hashing : Flight → Progress
  verifying : Flight → (verdict : Bool) → Progress
  settled : PairingOutcome → Progress

pub record Joined : Type 0 where
  pub manager : PairingManager
  pub sent : List SignalingMessage
  pub progress : Progress

unfoldable pub put : ℕ → Payload → (ℕ → Payload) → ℕ → Payload
put a p payloads b = if b == a then p else payloads b

-- `create(ttlSeconds)` at a time, with a fresh placeholder, nonce and secret.
unfoldable pub create :
    PairingDeps
    → ℕ
    → ℕ
    → (placeholder nonce secret : String) → PairingManager
    → PairingManager × List SignalingMessage
unfolding put
create deps now_ms ttl placeholder nonce secret m = (
  record m {
    payloads =
        put m.made
          (record {
            pair_id = placeholder;
            expires_at_ms = now_ms + ttl * 1000;
            nonce = nonce;
            secret = secret;
          })
          m.payloads;
    made = m.made + 1;
    pending = some m.made;
  },
  pair_create (record {
    ttl_seconds = ttl;
    public_key_spki = deps.identity.public_key_spki;
    public_key_fingerprint = deps.identity.fingerprint;
    display_name = some deps.identity.display_name;
  })
      ∷ [],
)

-- `onPairCreated(pairId, expiresAtMs)`: the pending object is changed in place.
unfoldable pub on_pair_created : String → ℕ → PairingManager → PairingManager
unfolding put
on_pair_created pair_id expires_at_ms m = elim m.pending [
  | none ↦ m
  | some a ↦ record m {
    payloads =
        put a (record (m.payloads a) { pair_id = pair_id; expires_at_ms = expires_at_ms })
          m.payloads;
  }
]

-- `cancel()`.
unfoldable pub cancel : PairingManager → PairingManager
cancel m = record m { pending = none }

-- `onPairJoin(frame)` up to the await of the fingerprint.
unfoldable pub start_join : ℕ → PairJoin → PairingManager → Joined
start_join now_ms j m = elim m.pending [
  | none ↦ record { manager = m; sent = []; progress = settled (failed "no pending pairing") }
  | some a ↦
      if leb (m.payloads a).expires_at_ms now_ms || not (str_eq j.pair_id (m.payloads a).pair_id)
      then record {
        manager = record m { pending = none };
        sent = pair_reject j.pair_id pair_expired ∷ [];
        progress = settled (failed "expired");
      }
      else record {
        manager = m;
        sent = [];
        progress = hashing (record { address = a; join = j; now_ms = now_ms });
      }
]

-- The transcript that the proof must cover.
unfoldable pub transcript : PairingDeps → Payload → PairJoin → PairingTranscript
transcript deps p j = record {
  protocol_version = "1";
  desktop_device_id = deps.identity.device_id;
  phone_device_id = j.device_id;
  desktop_fingerprint = deps.identity.fingerprint;
  phone_fingerprint = j.public_key_fingerprint;
  expires_at_ms = p.expires_at_ms;
  nonce = p.nonce;
}

-- From there to the await of the proof's check.
unfoldable pub resume_hash : PairingDeps → Flight → PairingManager → Joined
unfolding transcript
resume_hash deps f m = elim (deps.fingerprint_of f.join.public_key_spki) [
  | none ↦ record { manager = m; sent = []; progress = settled thrown }
  | some fp ↦
      if not (str_eq fp f.join.public_key_fingerprint)
      then record {
        manager = m;
        sent = pair_reject f.join.pair_id pair_invalid_proof ∷ [];
        progress = settled (failed "phone key does not match its claimed fingerprint");
      }
      else record {
        manager = m;
        sent = [];
        progress = verifying f (
            deps.verify (m.payloads f.address).secret
              (transcript deps (m.payloads f.address) f.join) f.join.pairing_proof);
      }
]

abbrev pub name_or : Option String → String
name_or none = "Paired phone"
name_or (some name) = name

unfoldable pub device_of : Flight → PairedDevice
device_of f = record {
  device_id = f.join.device_id;
  display_name = name_or f.join.display_name;
  public_key_spki = f.join.public_key_spki;
  public_key_fingerprint = f.join.public_key_fingerprint;
  added_at_ms = f.now_ms;
  revoked_at_ms = none;
}

-- From there to the end; the stored list is written in one step.
unfoldable pub resume_verify : Flight → Bool → PairingManager → Joined
unfolding device_of
resume_verify f false m = record {
  manager = m;
  sent = pair_reject f.join.pair_id pair_invalid_proof ∷ [];
  progress = settled (failed "invalid proof");
}
resume_verify f true m = record {
  manager = record m { pending = none; devices = upsert (device_of f) m.devices };
  sent = pair_accept f.join.pair_id ∷ [];
  progress = settled (paired (device_of f));
}

-- One wait after the other.
unfoldable pub resume : PairingDeps → Progress → PairingManager → Joined
unfolding resume_hash resume_verify
resume deps (hashing f) m = resume_hash deps f m
resume deps (verifying f verdict) m = resume_verify f verdict m
resume deps (settled o) m = record { manager = m; sent = []; progress = settled o }
