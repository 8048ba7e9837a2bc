-- ===== src/Signaling/Devices.antt =====
-- `MemoryDeviceRegistry` of apps/signaling/src/device-registry.ts. The durable registry over
-- bun:sqlite keeps the same records in a table.
pub mod Continuity
use remotetab.Prelude.{
  ℕ, String, Bool, true, false, ◌&&◌, Option, none, some, is_some, str_eq, if◌then◌else◌,
}
use remotetab.Store.{Store, lookup, insert}

pub record Device : Type 0 where
  pub public_key_spki : String
  pub fingerprint : String
  pub display_name : Option String
  pub revoked_at_ms : Option ℕ

pub data EnrollResult : Type 0 where
  enrolled known conflict : EnrollResult

unfoldable pub compare_enroll : Option Device → String → String → Option EnrollResult
compare_enroll none spki fingerprint = none
compare_enroll (some d) spki fingerprint =
    if str_eq d.public_key_spki spki && str_eq d.fingerprint fingerprint
    then some known
    else some conflict

-- `enroll`: the registry after the call, and the verdict.
unfoldable pub enroll :
    String → String → String → Option String → Store Device → Store Device × EnrollResult
unfolding compare_enroll
enroll device_id spki fingerprint display_name m =
    elim (compare_enroll (lookup device_id m) spki fingerprint) [
      | some verdict ↦ (m, verdict)
      | none ↦ (
        insert device_id
            (record {
              public_key_spki = spki;
              fingerprint = fingerprint;
              display_name = display_name;
              revoked_at_ms = none;
            })
            m,
        enrolled,
      )
    ]

unfoldable pub is_revoked : String → Store Device → Bool
is_revoked device_id m = elim (lookup device_id m) [
  | none ↦ false
  | some d ↦ is_some d.revoked_at_ms
]

-- `revoke`: the registry after the call, and whether the device was revoked by it.
unfoldable pub revoke : String → ℕ → Store Device → Store Device × Bool
revoke device_id now_ms m = elim (lookup device_id m) [
  | none ↦ (m, false)
  | some d ↦
      if is_some d.revoked_at_ms
      then (m, false)
      else (insert device_id (record d { revoked_at_ms = some now_ms }) m, true)
]
