-- ===== src/Extension/PairingManager/Alone.antt =====
-- A join that nothing interleaves with.
use remotetab.Prelude.{
  ℕ, ◌<◌, ◌≡◌, refl, true, false, none, some, List, [], ◌∷◌, ◌++◌, arith, str_eq, eq_iff, eq_refl,
  Option-cases, Bool-cases, inl, inr, leb, not, ◌||◌,
}
use remotetab.Protocol.Messages.{PairJoin, pair_accept}
use remotetab.Extension.PairedDevices.{
  PairedDevice, upsert, remove, list_active, find_device, find_active,
}
use remotetab.Extension.PairingManager.{
  PairingManager, PairingDeps, Flight, settled, paired, failed, Joined, start_join, resume,
  resume_hash, resume_verify, device_of, transcript,
}

-- The rest of a call, with what it has sent already.
continue : PairingDeps → Joined → Joined
continue deps r = let o = resume deps r.progress r.manager in record o { sent = r.sent ++ o.sent }

-- `onPairJoin(frame)` from end to end.
pub join_now : PairingDeps → ℕ → PairJoin → PairingManager → Joined
join_now deps now_ms j m = continue deps (continue deps (start_join now_ms j m))

-- What a good join is: in time, for the pending pairing, with a key of the claimed fingerprint and a
-- proof that verifies.
pub record IsGood (deps : PairingDeps) (now_ms : ℕ) (j : PairJoin) (m : PairingManager)
    : Type 0 where
  pub address : ℕ
  pub current : m.pending ≡ some address
  pub in_time : now_ms < (m.payloads address).expires_at_ms
  pub addressed : j.pair_id ≡ (m.payloads address).pair_id
  pub matching : deps.fingerprint_of j.public_key_spki ≡ some j.public_key_fingerprint
  pub verified :
      deps.verify
        (m.payloads address).secret
        (transcript deps (m.payloads address) j)
        j.pairing_proof
      ≡ true

find_active-append :
    (ds : List PairedDevice) (d : PairedDevice)
    → d.revoked_at_ms ≡ none
    → find_active d.device_id (remove d.device_id ds ++ d ∷ []) ≡ some d
unfolding find_active list_active find_device remove
find_active-append [] d e = ground (arith, eq_refl d.device_id)
find_active-append (x ∷ ds) d e = ground (arith, find_active-append ds d e)

-- A good join that runs alone pairs the device: it consumes the secret, accepts the pairing, and
-- leaves the device as an active one in the store; whatever join comes next finds no pairing.
pub join_now-paired :
    (deps : PairingDeps) (now_ms later : ℕ) (j k : PairJoin) (m : PairingManager)
    → (good : IsGood deps now_ms j m)
    → let r = join_now deps now_ms j m in
      let d = device_of (record { address = good.address; join = j; now_ms = now_ms }) in
      (r.progress ≡ settled (paired d))
      × (r.sent ≡ pair_accept j.pair_id ∷ [])
      × (find_active j.device_id r.manager.devices ≡ some d)
      × ((join_now deps later k r.manager).progress ≡ settled (failed "no pending pairing"))
unfolding join_now continue start_join resume resume_hash resume_verify upsert device_of
join_now-paired deps now_ms later j k m good =
    let f : Flight = record { address = good.address; join = j; now_ms = now_ms } in
    let timely : (leb (m.payloads good.address).expires_at_ms now_ms
          || not (str_eq j.pair_id (m.payloads good.address).pair_id))
        ≡ false =
      ground
        (arith, good.in_time, eq_iff j.pair_id (m.payloads good.address).pair_id, good.addressed) in
    rw
      (
        good.current,
        start_join,
        timely,
        good.matching,
        resume_hash,
        eq_refl j.public_key_fingerprint,
        good.verified,
      )
      (refl, refl, find_active-append m.devices (device_of f) refl, refl)

-- A join that runs alone pairs a device only if it is good.
pub join_now-IsGood :
    (deps : PairingDeps) (now_ms : ℕ) (j : PairJoin) (m : PairingManager) (d : PairedDevice)
    → (join_now deps now_ms j m).progress ≡ settled (paired d)
    → IsGood deps now_ms j m
unfolding join_now continue start_join resume resume_hash resume_verify transcript
join_now-IsGood deps now_ms j m d e = elim (Option-cases m.pending) [
  | inl n ↦ absurd (ground arith)
  | inr (a, n) ↦
      elim (Bool-cases (
        leb (m.payloads a).expires_at_ms now_ms || not (str_eq j.pair_id (m.payloads a).pair_id))) [
          | inl late ↦ absurd (ground arith)
          | inr timely ↦ elim (Option-cases (deps.fingerprint_of j.public_key_spki)) [
            | inl p ↦ absurd (ground arith)
            | inr (fp, p) ↦ elim (Bool-cases (str_eq fp j.public_key_fingerprint)) [
              | inr other ↦ absurd (ground arith)
              | inl same ↦
                  elim (Bool-cases (
                    deps.verify (m.payloads a).secret (transcript deps (m.payloads a) j)
                      j.pairing_proof)) [
                        | inr bad ↦ absurd (ground arith)
                        | inl verdict ↦ record {
                          address = a;
                          current = n;
                          in_time = ground arith;
                          addressed = ground (arith, eq_iff j.pair_id (m.payloads a).pair_id);
                          matching = ground (arith, eq_iff fp j.public_key_fingerprint);
                          verified = verdict;
                        }
                      ]
            ]
          ]
        ]
]
