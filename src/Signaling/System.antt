-- ===== src/Signaling/System.antt =====
-- The signaling service as a whole: the events of apps/signaling/src/server.ts that reach the
-- router, one after the other, and the state after any list of them.
pub mod Sessions
pub mod Pairings
use remotetab.Prelude.{ℕ, Bool, String, List, [], ◌∷◌}
use remotetab.Store.{insert}
use remotetab.Protocol.Messages.{Frame}
use remotetab.Signaling.Registry.{register, touch}
use remotetab.Signaling.Router.{Router, Context}
use remotetab.Signaling.Router.Dispatch.{dispatch}
use remotetab.Signaling.Router.Close.{handle_conn_closed, evict_stale}

pub data Event : Type 0 where
  -- A socket opens.
  opens : (conn : String) (now_ms : ℕ) → Event
  -- A decoded frame arrives.
  frames : Context → (conn : String) → Frame → Event
  -- A socket has closed.
  closes : (conn : String) → Event
  -- The sweeper evicts a silent connection, whose close handler runs at once or not.
  evicts : (at_once : Bool) → (conn : String) → Event

-- `websocket.open`: register the connection and bind its handle (`bindHandle`).
unfoldable pub open_socket : String → ℕ → Router → Router
open_socket conn now_ms st = record st {
  registry = register conn now_ms st.registry;
  handles = insert conn tt st.handles;
}

-- The frame of `websocket.message`: the transport touches the connection first.
unfoldable pub receive : Context → String → Frame → Router → Router
receive ctx conn frame st =
    (dispatch ctx (record st { registry = touch conn ctx.now_ms st.registry }) conn frame).state

unfoldable pub step : Router → Event → Router
unfolding open_socket receive
step st (opens conn now_ms) = open_socket conn now_ms st
step st (frames ctx conn frame) = receive ctx conn frame st
step st (closes conn) = (handle_conn_closed conn st).0
step st (evicts at_once conn) = (evict_stale at_once conn st).0

unfoldable pub run : Router → List Event → Router
run st [] = st
run st (e ∷ es) = run (step st e) es

abbrev pub empty_router : Router
empty_router = record {
  registry = record { conns = []; by_device = [] };
  pairings = [];
  sessions = [];
  devices = [];
  handles = [];
  session_requests = [];
  authenticated = [];
  pending_auth = [];
}
