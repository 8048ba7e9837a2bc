-- ===== src/Signaling/Pairings.antt =====
-- `MemoryPairingRepo` of apps/signaling/src/registry.ts. `create` and `update` both are
-- `map.set(record.pairId, record)`.
use remotetab.Prelude.{ℕ, String, Bool, true, false, ◌&&◌, Option, List, str_eq}
use remotetab.Store.{Store, insert, find_value, filter_values}

pub data PairingState : Type 0 where
  created joined consumed expired rejected cancelled : PairingState

pub record Pairing : Type 0 where
  pub pair_id : String
  pub desktop_conn_id : String
  pub desktop_device_id : String
  pub desktop_display_name : Option String
  pub desktop_spki : String
  pub desktop_fingerprint : String
  pub phone_conn_id : Option String
  pub phone_device_id : Option String
  pub phone_display_name : Option String
  pub phone_spki : Option String
  pub phone_fingerprint : Option String
  pub state : PairingState
  pub created_at_ms : ℕ
  pub expires_at_ms : ℕ

-- `state === 'CREATED' || state === 'JOINED'`; the other four states are terminal.
abbrev pub is_open : PairingState → Bool
is_open created = true
is_open joined = true
is_open _ = false

unfoldable pub create : Pairing → Store Pairing → Store Pairing
create p m = insert p.pair_id p m

unfoldable pub update : Pairing → Store Pairing → Store Pairing
update p m = insert p.pair_id p m

unfoldable pub find_open_by_desktop_conn : String → Store Pairing → Option Pairing
find_open_by_desktop_conn conn_id m =
    find_value (λ p. str_eq p.desktop_conn_id conn_id && is_open p.state) m

unfoldable pub list_open : Store Pairing → List Pairing
list_open m = filter_values (λ p. is_open p.state) m
