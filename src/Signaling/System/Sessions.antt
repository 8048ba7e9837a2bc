-- ===== src/Signaling/System/Sessions.antt =====
-- A device is in one open session at a time, whatever happens.
use remotetab.Prelude.{
  String, true, false, some, ◌≡◌, arith, eq_iff, List, [], ◌∷◌, ◌&&◌, Bool-cases, inl, inr,
  Option-cases,
}
use remotetab.Store.{Store, lookup, lookup-insert, find_value-none}
use remotetab.Signaling.Registry.{unregister}
use remotetab.Signaling.Sessions.{
  Session, closed, create, update, find_open_by_device, has_device, not_closed, is_closed,
}
use remotetab.Signaling.Router.{Router}
use remotetab.Signaling.Router.OneSession.{SessionMove, same, opened, ended, dispatch-SessionMove}
use remotetab.Signaling.Router.Meet.{in_conflict}
use remotetab.Signaling.Router.Close.{close_all, handle_conn_closed, evict_stale, sessions_of}
use remotetab.Signaling.System.{Event, opens, frames, closes, evicts, step, run, empty_router}

-- The open session of a device, if it has one, has one id, under which it is stored.
pub record OneSession (m : Store Session) : Type 0 where
  pub keyed : (i : String) (s : Session) → lookup i m ≡ some s → s.session_id ≡ i
  pub unique :
      (i j d : String) (s t : Session)
      → lookup i m ≡ some s
      → lookup j m ≡ some t
      → not_closed s.state ≡ true
      → not_closed t.state ≡ true
      → has_device d s ≡ true
      → has_device d t ≡ true
      → i ≡ j

update-OneSession :
    (s : Session) (m : Store Session)
    → OneSession m
    → OneSession (update (record s { state = closed }) m)
unfolding update
update-OneSession s m h = record {
  keyed = λ i x e. ground (
    arith,
    eq_iff s.session_id i,
    lookup-insert s.session_id i (record s { state = closed }) m,
    h.keyed i x,
  );
  unique = λ i j d x y e f p q u v. ground (
    arith,
    lookup-insert s.session_id i (record s { state = closed }) m,
    lookup-insert s.session_id j (record s { state = closed }) m,
    h.unique i j d x y,
  );
}

-- Without a conflict no open session has either device.
no_conflict :
    (a b j : String) (m : Store Session) (t : Session)
    → in_conflict a b m ≡ false
    → lookup j m ≡ some t
    → not_closed t.state ≡ true
    → (has_device a t ≡ false) × (has_device b t ≡ false)
unfolding in_conflict find_open_by_device
no_conflict a b j m t c e p =
    let tests = λ (d : String) (x : Session). has_device d x && not_closed x.state in
    ground (arith, find_value-none (tests a) j m t, find_value-none (tests b) j m t)

create-OneSession :
    (s : Session) (m : Store Session)
    → in_conflict s.desktop_device_id s.phone_device_id m ≡ false
    → OneSession m
    → OneSession (create s m)
unfolding create
create-OneSession s m c h = record {
  keyed =
      λ i x e. ground (arith, eq_iff s.session_id i, lookup-insert s.session_id i s m, h.keyed i x);
  unique = λ i j d x y e f p q u v. ground (
    arith,
    eq_iff s.session_id i,
    eq_iff s.session_id j,
    eq_iff s.desktop_device_id d,
    eq_iff s.phone_device_id d,
    lookup-insert s.session_id i s m,
    lookup-insert s.session_id j s m,
    no_conflict s.desktop_device_id s.phone_device_id i m x c,
    no_conflict s.desktop_device_id s.phone_device_id j m y c,
    h.unique i j d x y,
  );
}

SessionMove-OneSession :
    (conn : String) {m m' : Store Session} → SessionMove conn m m' → OneSession m → OneSession m'
SessionMove-OneSession conn {m} (same e) h = rw e h
SessionMove-OneSession conn {m} (opened s c d e) h = rw e (create-OneSession s m c h)
SessionMove-OneSession conn {m} (ended i s f t e) h = rw e (update-OneSession s m h)

close_all-OneSession :
    (ss : List Session) (m : Store Session) → OneSession m → OneSession (close_all ss m)
unfolding close_all
close_all-OneSession [] m h = h
close_all-OneSession (s ∷ ss) m h = elim (Bool-cases (is_closed s.state)) [
  | inl e ↦ rw e (close_all-OneSession ss m h)
  | inr e ↦ rw e (close_all-OneSession ss _ (update-OneSession s m h))
]

handle_conn_closed-OneSession :
    (conn : String) (st : Router)
    → OneSession st.sessions
    → OneSession (handle_conn_closed conn st).0.sessions
unfolding handle_conn_closed
handle_conn_closed-OneSession conn st h = elim (Option-cases (unregister conn st.registry).1) [
  | inl e ↦ rw (e, handle_conn_closed) h
  | inr (reg, e) ↦
      rw (e, handle_conn_closed) (close_all-OneSession (sessions_of conn st) st.sessions h)
]

step-OneSession :
    (st : Router) (e : Event) → OneSession st.sessions → OneSession (step st e).sessions
unfolding step evict_stale
step-OneSession st (opens conn now_ms) h = h
step-OneSession st (frames ctx conn frame) h =
    SessionMove-OneSession conn (dispatch-SessionMove ctx _ conn frame) h
step-OneSession st (closes conn) h = handle_conn_closed-OneSession conn st h
step-OneSession st (evicts true conn) h =
    handle_conn_closed-OneSession conn _ (handle_conn_closed-OneSession conn st h)
step-OneSession st (evicts false conn) h = handle_conn_closed-OneSession conn _ h

run-OneSession_from :
    (st : Router) (es : List Event) → OneSession st.sessions → OneSession (run st es).sessions
unfolding run
run-OneSession_from st [] h = h
run-OneSession_from st (e ∷ es) h = run-OneSession_from (step st e) es (step-OneSession st e h)

-- After any events whatever, sockets that close and evictions included, each session is stored
-- under its own id, and two open sessions that share a device are one and the same.
pub run-OneSession : (es : List Event) → OneSession (run empty_router es).sessions
unfolding lookup
run-OneSession es =
    run-OneSession_from empty_router es
      (record { keyed = λ i s e. cc; unique = λ i j d s t e f p q u v. cc })
