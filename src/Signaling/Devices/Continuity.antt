-- ===== src/Signaling/Devices/Continuity.antt =====
-- Identity continuity: a device keeps the key that it enrolled, and a revocation stays.
use remotetab.Prelude.{
  ℕ, String, true, false, Option, none, some, ◌≡◌, refl, inl, inr, Bool-cases, str_eq, ◌&&◌, not,
  arith, eq_iff, Option-cases, is_some, List, [], ◌∷◌,
}
use remotetab.Store.{Store, lookup, lookup-insert}
use remotetab.Signaling.Devices.{Device, enroll, revoke}

pub data Call : Type 0 where
  enrolls : (device_id spki fingerprint : String) (display_name : Option String) → Call
  revokes : (device_id : String) (now_ms : ℕ) → Call

pub step : Store Device → Call → Store Device
step m (enrolls d spki fp name) = (enroll d spki fp name m).0
step m (revokes d now) = (revoke d now m).0

pub run : Store Device → List Call → Store Device
run m [] = m
run m (c ∷ cs) = run (step m c) cs

-- `r` has the keys of `d`, and is revoked if `d` is, at the same time.
pub record Continues (d r : Device) : Type 0 where
  pub same_key : r.public_key_spki ≡ d.public_key_spki
  pub same_fingerprint : r.fingerprint ≡ d.fingerprint
  pub stays_revoked : is_some d.revoked_at_ms ≡ true → r.revoked_at_ms ≡ d.revoked_at_ms

Continues-refl : (d : Device) → Continues d d
Continues-refl d = record { same_key = refl; same_fingerprint = refl; stays_revoked = λ h. refl }

Continues-trans : {d r s : Device} → Continues d r → Continues r s → Continues d s
Continues-trans h k = ground (arith, h.stays_revoked, k.stays_revoked)

enroll-keeps :
    (j spki fp : String) (name : Option String) (m : Store Device) (i : String) (d : Device)
    → lookup i m ≡ some d
    → lookup i (enroll j spki fp name m).0 ≡ some d
unfolding enroll
enroll-keeps j spki fp name m i d e = ground (
  arith,
  eq_iff j i,
  lookup-insert j i
      (record {
        public_key_spki = spki;
        fingerprint = fp;
        display_name = name;
        revoked_at_ms = none;
      })
      m,
)

revoke_other :
    (j : String) (now : ℕ) (m : Store Device) (i : String) (d : Device)
    → lookup i m ≡ some d
    → (str_eq j i && not (is_some d.revoked_at_ms)) ≡ false
    → lookup i (revoke j now m).0 ≡ some d
unfolding revoke
revoke_other j now m i d e miss = elim (Option-cases (lookup j m)) [
  | inl f ↦ ground arith
  | inr (x, f) ↦
      ground (arith, eq_iff j i, lookup-insert j i (record x { revoked_at_ms = some now }) m)
]

revoke-Continues :
    (j : String) (now : ℕ) (m : Store Device) (i : String) (d : Device)
    → lookup i m ≡ some d
    → (r : Device) × (lookup i (revoke j now m).0 ≡ some r) × Continues d r
unfolding revoke
revoke-Continues j now m i d e = elim (Bool-cases (str_eq j i && not (is_some d.revoked_at_ms))) [
  | inl hit ↦
      let r : Device = record d { revoked_at_ms = some now } in
      (r, ground (arith, eq_iff j i, lookup-insert j i r m), ground arith)
  | inr miss ↦ (d, revoke_other j now m i d e miss, Continues-refl d)
]

step-Continues :
    (m : Store Device) (c : Call) (i : String) (d : Device)
    → lookup i m ≡ some d
    → (r : Device) × (lookup i (step m c) ≡ some r) × Continues d r
unfolding step
step-Continues m (enrolls j spki fp name) i d e =
    (d, enroll-keeps j spki fp name m i d e, Continues-refl d)
step-Continues m (revokes j now) i d e = revoke-Continues j now m i d e

-- Over any calls to the registry a device that is enrolled stays enrolled under the same public key
-- and fingerprint, and once it is revoked it stays revoked, from the same time.
pub run-Continues :
    (m : Store Device) (cs : List Call) (i : String) (d : Device)
    → lookup i m ≡ some d
    → (r : Device) × (lookup i (run m cs) ≡ some r) × Continues d r
unfolding run
run-Continues m [] i d e = (d, e, Continues-refl d)
run-Continues m (c ∷ cs) i d e =
    let (x, f, h) = step-Continues m c i d e in
    let (r, g, k) = run-Continues (step m c) cs i x f in (r, g, Continues-trans h k)
