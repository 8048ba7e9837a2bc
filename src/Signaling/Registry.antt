-- ===== src/Signaling/Registry.antt =====
-- `ConnectionRegistry` of apps/signaling/src/registry.ts. Times are milliseconds since the epoch.
pub mod Ownership
use remotetab.Prelude.{
  ℕ, ◌+◌, ltb, String, Bool, true, false, not, ◌&&◌, Option, none, some, List, map, is_some, length,
  if◌then◌else◌, str_eq,
}
use remotetab.Store.{Store, lookup, insert, erase, has, filter_values}
use remotetab.Protocol.Messages.{DeviceRole}

pub record RegisteredConnection : Type 0 where
  pub conn_id : String
  pub role : Option DeviceRole
  pub device_id : Option String
  pub last_seen_ms : ℕ

pub record ConnectionRegistry : Type 0 where
  pub conns : Store RegisteredConnection
  pub by_device : Store String

-- A string is truthy unless it is empty; so is an optional one that is there.
abbrev pub truthy : Option String → Bool
truthy none = false
truthy (some s) = not (str_eq s "")

-- `o === s`.
abbrev pub is_string : Option String → String → Bool
is_string none s = false
is_string (some t) s = str_eq t s

unfoldable pub register : String → ℕ → ConnectionRegistry → ConnectionRegistry
register conn_id now_ms r = record r { conns = insert conn_id conn r.conns }
  where
    conn : RegisteredConnection
    conn = record { conn_id = conn_id; role = none; device_id = none; last_seen_ms = now_ms }

-- The device is live on another connection.
unfoldable pub taken : String → String → ConnectionRegistry → Bool
taken conn_id device_id r = elim (lookup device_id r.by_device) [
  | none ↦ false
  | some existing ↦ not (str_eq existing conn_id) && has existing r.conns
]

-- `bind`: the registry after the call, and whether the identity was bound.
unfoldable pub bind : String → DeviceRole → String → ConnectionRegistry → ConnectionRegistry × Bool
unfolding taken
bind conn_id role device_id r =
    if taken conn_id device_id r then (r, false) else elim (lookup conn_id r.conns) [
      | none ↦ (r, false)
      | some conn ↦ (
        record {
          conns =
              insert conn_id (record conn { role = some role; device_id = some device_id }) r.conns;
          by_device = insert device_id conn_id r.by_device;
        },
        true,
      )
    ]

unfoldable pub conn_id_for_device : String → ConnectionRegistry → Option String
conn_id_for_device device_id r = lookup device_id r.by_device

unfoldable pub touch : String → ℕ → ConnectionRegistry → ConnectionRegistry
touch conn_id now_ms r = elim (lookup conn_id r.conns) [
  | none ↦ r
  | some conn ↦ record r { conns = insert conn_id (record conn { last_seen_ms = now_ms }) r.conns }
]

-- `by_device` after the connection that held `device_id` has gone.
unfoldable pub release_device : String → Option String → Store String → Store String
release_device conn_id none m = m
release_device conn_id (some device_id) m =
    if truthy (some device_id) && is_string (lookup device_id m) conn_id
    then erase device_id m
    else m

-- `unregister`: the registry after the call, and the connection that was removed.
unfoldable pub unregister :
    String → ConnectionRegistry → ConnectionRegistry × Option RegisteredConnection
unfolding release_device
unregister conn_id r = elim (lookup conn_id r.conns) [
  | none ↦ (r, none)
  | some conn ↦ (
    record {
      conns = erase conn_id r.conns;
      by_device = release_device conn_id conn.device_id r.by_device;
    },
    some conn,
  )
]

-- The connections that were silent for longer than `stale_ms`: `now - last > stale`, written as a
-- sum because the difference can be negative in the source.
unfoldable pub sweep : ℕ → ℕ → ConnectionRegistry → List String
sweep now_ms stale_ms r =
    map (λ conn. conn.conn_id)
      (filter_values (λ conn. ltb (conn.last_seen_ms + stale_ms) now_ms) r.conns)

unfoldable pub size : ConnectionRegistry → ℕ
size r = length r.conns
