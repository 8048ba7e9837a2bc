-- ===== src/Signaling/Router/Close.antt =====
-- `handleConnClosed` of apps/signaling/src/router.ts, and the stale sweep of server.ts.
use remotetab.Prelude.{
  String, Bool, ◌&&◌, ◌||◌, not, Option, none, some, List, [], ◌∷◌, ◌++◌, if◌then◌else◌, str_eq,
}
use remotetab.Store.{Store, erase, erase_where}
use remotetab.Protocol.Errors.{pair_expired}
use remotetab.Protocol.Messages.{Frame, pair_rejected, session_close, peer_left, signaling_frame}
use remotetab.Signaling.Registry.{unregister, truthy, is_string}
use remotetab.Signaling.Pairings.{Pairing, cancelled, is_open}
use remotetab.Signaling.Pairings
use remotetab.Signaling.Sessions.{Session, closed, is_closed}
use remotetab.Signaling.Sessions
use remotetab.Signaling.Router.{Router, send}
use remotetab.Signaling.Router.Meet.{takes_part, peer_conn}

-- `p.desktopConnId === connId || p.phoneConnId === connId`.
abbrev pub concerns : String → Pairing → Bool
concerns conn p = str_eq p.desktop_conn_id conn || is_string p.phone_conn_id conn

-- The entries of a list that pass a test: `Array.prototype.filter`.
unfoldable pub filter_list {ℓ} : {A : Type ℓ} → (A → Bool) → List A → List A
filter_list p [] = []
filter_list p (x ∷ xs) = let rest = filter_list p xs in if p x then x ∷ rest else rest

-- `pairingsOf(connId)`.
unfoldable pub pairings_of : String → Router → List Pairing
pairings_of conn st = filter_list (concerns conn) (Pairings.list_open st.pairings)

-- `sessionsOf(connId)`.
unfoldable pub sessions_of : String → Router → List Session
sessions_of conn st = filter_list (takes_part conn) (Sessions.list_open st.sessions)

-- The notice to the phone of a pairing whose desktop has gone.
unfoldable pub notify_phone : Router → String → String → Option String → List (String × Frame)
notify_phone st conn pair_id none = []
notify_phone st conn pair_id (some phone_conn) =
    if truthy (some phone_conn) && not (str_eq phone_conn conn)
    then send st phone_conn (signaling_frame (pair_rejected pair_id pair_expired) none)
    else []

-- The loop that cancels open pairings: the repository after it.
unfoldable pub cancel_all : List Pairing → Store Pairing → Store Pairing
cancel_all [] m = m
cancel_all (p ∷ ps) m =
    cancel_all ps
      (if is_open p.state then Pairings.update (record p { state = cancelled }) m else m)

-- The frames that this loop sends.
unfoldable pub cancel_notices : Router → String → List Pairing → List (String × Frame)
unfolding notify_phone
cancel_notices st conn [] = []
cancel_notices st conn (p ∷ ps) =
    (if is_open p.state then notify_phone st conn p.pair_id p.phone_conn_id else [])
    ++ cancel_notices st conn ps

-- The loop that closes sessions: the repository after it.
unfoldable pub close_all : List Session → Store Session → Store Session
close_all [] m = m
close_all (s ∷ ss) m =
    close_all ss (if is_closed s.state then m else Sessions.update (record s { state = closed }) m)

-- The frames that this loop sends.
unfoldable pub close_notices : Router → String → List Session → List (String × Frame)
close_notices st conn [] = []
close_notices st conn (s ∷ ss) =
    (if is_closed s.state
      then []
      else send st (peer_conn conn s) (signaling_frame (session_close s.session_id peer_left) none))
    ++ close_notices st conn ss

-- The first lines of `handleConnClosed`: the maps of the router forget the connection.
unfoldable pub forget : String → Router → Router
forget conn st = record st {
  handles = erase conn st.handles;
  authenticated = erase conn st.authenticated;
  pending_auth = erase conn st.pending_auth;
  registry = (unregister conn st.registry).0;
}

-- `handleConnClosed(connId)`: the state after it and the frames sent. A connection that is not
-- registered any more is left at the early return.
unfoldable pub handle_conn_closed : String → Router → Router × List (String × Frame)
unfolding forget
handle_conn_closed conn st =
    let st' = forget conn st in
    elim (unregister conn st.registry).1 [
      | none ↦ (st', [])
      | some reg ↦ (
        record st' {
          pairings = cancel_all (pairings_of conn st) st.pairings;
          sessions = close_all (sessions_of conn st) st.sessions;
          session_requests = erase_where (λ r. str_eq r.phone_conn_id conn) st.session_requests;
        },
        cancel_notices st' conn (pairings_of conn st)
            ++ close_notices st' conn (sessions_of conn st),
      )
    ]

-- One round of the heartbeat sweeper of server.ts for a stale connection: the socket's `close`, then
-- `registry.unregister`, then `router.handleConnClosed`. The flag is the runtime's: whether `close`
-- runs the socket's close handler, and so `handleConnClosed`, before it returns. Where it does not, or
-- there is no socket, the handler runs as an event of its own, if at all.
unfoldable pub evict_stale : (at_once : Bool) → String → Router → Router × List (String × Frame)
unfolding handle_conn_closed
evict_stale at_once conn st =
    let (first, sent) = if at_once then handle_conn_closed conn st else (st, []) in
    let (after, more) =
      handle_conn_closed conn (record first { registry = (unregister conn first.registry).0 }) in
    (after, sent ++ more)
