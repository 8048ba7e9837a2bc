-- ===== src/Signaling/Sessions.antt =====
-- `MemorySessionRepo` of apps/signaling/src/registry.ts.
use remotetab.Prelude.{ℕ, String, Bool, true, false, ◌&&◌, ◌||◌, Option, List, str_eq}
use remotetab.Store.{Store, insert, find_value, filter_values}

pub data SessionState : Type 0 where
  signaling active closed : SessionState

pub record Session : Type 0 where
  pub session_id : String
  pub desktop_device_id : String
  pub phone_device_id : String
  pub desktop_conn_id : String
  pub phone_conn_id : String
  pub state : SessionState
  pub created_at_ms : ℕ

abbrev pub is_closed : SessionState → Bool
is_closed closed = true
is_closed _ = false

abbrev pub not_closed : SessionState → Bool
not_closed closed = false
not_closed _ = true

unfoldable pub create : Session → Store Session → Store Session
create s m = insert s.session_id s m

unfoldable pub update : Session → Store Session → Store Session
update s m = insert s.session_id s m

abbrev pub has_device : String → Session → Bool
has_device device_id s = str_eq s.desktop_device_id device_id || str_eq s.phone_device_id device_id

unfoldable pub find_open_by_device : String → Store Session → Option Session
find_open_by_device device_id m = find_value (λ s. has_device device_id s && not_closed s.state) m

unfoldable pub list_open : Store Session → List Session
list_open m = filter_values (λ s. not_closed s.state) m
