-- ===== src/Extension/PairedDevices.antt =====
-- `PairedDeviceStore` of apps/extension/src/paired-devices.ts: each call as one step on the stored
-- list, which is there or empty.
use remotetab.Prelude.{
  ℕ, String, Bool, true, false, Option, none, some, List, [], ◌∷◌, ◌++◌, is_some, is_none, str_eq,
  if◌then◌else◌,
}

pub record PairedDevice : Type 0 where
  pub device_id : String
  pub display_name : String
  pub public_key_spki : String
  pub public_key_fingerprint : String
  pub added_at_ms : ℕ
  pub revoked_at_ms : Option ℕ

-- `list.filter((d) => d.deviceId !== deviceId)`, and `remove(deviceId)`.
unfoldable pub remove : String → List PairedDevice → List PairedDevice
remove id [] = []
remove id (d ∷ ds) = let rest = remove id ds in if str_eq d.device_id id then rest else d ∷ rest

-- `upsert(device)`.
unfoldable pub upsert : PairedDevice → List PairedDevice → List PairedDevice
unfolding remove
upsert d ds = remove d.device_id ds ++ d ∷ []

-- `listActive()`.
unfoldable pub list_active : List PairedDevice → List PairedDevice
list_active [] = []
list_active (d ∷ ds) =
    let rest = list_active ds in if is_none d.revoked_at_ms then d ∷ rest else rest

-- `list.find((d) => d.deviceId === deviceId)`.
unfoldable pub find_device : String → List PairedDevice → Option PairedDevice
find_device id [] = none
find_device id (d ∷ ds) = if str_eq d.device_id id then some d else find_device id ds

-- `findActive(deviceId)`.
unfoldable pub find_active : String → List PairedDevice → Option PairedDevice
unfolding list_active find_device
find_active id ds = find_device id (list_active ds)

-- The first device with the id, marked in place.
unfoldable pub mark : String → ℕ → List PairedDevice → List PairedDevice
mark id now_ms [] = []
mark id now_ms (d ∷ ds) =
    let rest = mark id now_ms ds in
    if str_eq d.device_id id then record d { revoked_at_ms = some now_ms } ∷ ds else d ∷ rest

-- `revoke(deviceId, nowMs)`: the list after the call and whether a device was revoked.
unfoldable pub revoke : String → ℕ → List PairedDevice → List PairedDevice × Bool
unfolding find_device mark
revoke id now_ms ds = elim (find_device id ds) [
  | none ↦ (ds, false)
  | some d ↦ if is_some d.revoked_at_ms then (ds, false) else (mark id now_ms ds, true)
]
