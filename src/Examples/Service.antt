-- ===== src/Examples/Service.antt =====
-- The theorems about the signaling service, on the meeting of a desktop and a phone.
use remotetab.Prelude.{All, String, true, none, some, List, [], ◌∷◌, ◌≡◌, ◌⊎◌, refl, arith, eq_iff}
use remotetab.Store.{lookup, insert, has, erase, find_value, filter_values}
use remotetab.Protocol.Messages.{Frame, signal_offer, signaling_frame, auth_proof, desktop, phone}
use remotetab.Signaling.Registry.{RegisteredConnection, register, bind, touch, taken, unregister}
use remotetab.Signaling.Pairings.{
  Pairing, consumed, cancelled, create, find_open_by_desktop_conn, list_open,
}
use remotetab.Signaling.Pairings
use remotetab.Signaling.Sessions.{Session, signaling}
use remotetab.Signaling.Devices.{is_revoked}
use remotetab.Signaling.Router.{Router, require_authenticated, send}
use remotetab.Signaling.Router.Identity.{on_auth_proof, proof_holds, on_hello, greet}
use remotetab.Signaling.Router.Dispatch.{dispatch, dispatch_registered, after_hello, route}
use remotetab.Signaling.Router.Pair.{on_pair_create, open_pairing_window, supersede}
use remotetab.Signaling.Router.Close.{
  handle_conn_closed, evict_stale, forget, cancel_all, pairings_of, filter_list,
}
use remotetab.Signaling.Router.OneSession.{SessionMove, dispatch-SessionMove}
use remotetab.Signaling.Router.PairingMoves.{PairingMove, dispatch-PairingMove}
use remotetab.Signaling.Router.Trust.{IsProven, dispatch-authenticated}
use remotetab.Signaling.Router.Departure.{IsGone, handle_conn_closed-IsGone, evict_stale-closes}
use remotetab.Signaling.Router.Relay.{IsPeer, relay_signal-sent}
use remotetab.Signaling.Router.Meet.{relay_signal}
use remotetab.Signaling.System.{
  Event, opens, frames, closes, run, empty_router, step, open_socket, receive,
}
use remotetab.Signaling.System.Sessions.{OneSession, run-OneSession}
use remotetab.Signaling.System.Pairings.Settled.{run-settled}
use remotetab.Examples.Frames.{
  at_time, at_time_fresh, say, window_closed, session_opened, accept_session, join_window, prove,
  phone_hello,
}

abbrev c1_entry : RegisteredConnection
c1_entry = record {
  conn_id = "c1";
  role = some desktop;
  device_id = some "laptop";
  last_seen_ms = 5;
}

abbrev c2_entry : RegisteredConnection
c2_entry = record { conn_id = "c2"; role = some phone; device_id = some "phone"; last_seen_ms = 4 }

abbrev live_session : Session
live_session = record {
  session_id = "session";
  desktop_device_id = "laptop";
  phone_device_id = "phone";
  desktop_conn_id = "c1";
  phone_conn_id = "c2";
  state = signaling;
  created_at_ms = 5;
}

abbrev used_pairing : Pairing
used_pairing = record {
  pair_id = "pair";
  desktop_conn_id = "c1";
  desktop_device_id = "laptop";
  desktop_display_name = none;
  desktop_spki = "laptop-key";
  desktop_fingerprint = "laptop-key";
  phone_conn_id = some "c2";
  phone_device_id = some "phone";
  phone_display_name = none;
  phone_spki = some "phone-key";
  phone_fingerprint = some "phone-key";
  state = consumed;
  created_at_ms = 4;
  expires_at_ms = 60004;
}

-- The window of a desktop that left.
abbrev left_pairing : Pairing
left_pairing = record {
  pair_id = "pair";
  desktop_conn_id = "c1";
  desktop_device_id = "laptop";
  desktop_display_name = none;
  desktop_spki = "laptop-key";
  desktop_fingerprint = "laptop-key";
  phone_conn_id = none;
  phone_device_id = none;
  phone_display_name = none;
  phone_spki = none;
  phone_fingerprint = none;
  state = cancelled;
  created_at_ms = 4;
  expires_at_ms = 60004;
}

-- What `session_opened` leads to, and a used pairing beside it.
abbrev busy : Router
busy = record {
  registry = record {
    conns = ("c1", c1_entry) ∷ ("c2", c2_entry) ∷ [];
    by_device = ("laptop", "c1") ∷ ("phone", "c2") ∷ [];
  };
  pairings = ("pair", used_pairing) ∷ [];
  sessions = ("session", live_session) ∷ [];
  devices = [];
  handles = ("c1", tt) ∷ ("c2", tt) ∷ [];
  session_requests = [];
  authenticated = [];
  pending_auth =
      ("c1", record { nonce = "nonce"; failures = 0 })
      ∷ ("c2", record { nonce = "nonce"; failures = 0 })
      ∷ [];
}

run-OneSession_example : OneSession (run empty_router session_opened).sessions
run-OneSession_example = run-OneSession session_opened

used : lookup "pair" (run empty_router window_closed).pairings ≡ some left_pairing
unfolding run lookup step dispatch touch register insert on_hello bind on_pair_create
    require_authenticated open_pairing_window handle_conn_closed unregister forget cancel_all
    pairings_of create find_open_by_desktop_conn find_value supersede list_open filter_values
    filter_list open_socket receive dispatch_registered after_hello route greet taken
    Pairings.update has erase send signaling_frame
used = refl

abbrev join_again : List Event
join_again =
    opens "c2" 6
    ∷ frames (at_time_fresh 7) "c2" phone_hello
    ∷ frames (at_time_fresh 8) "c2" join_window
    ∷ closes "c2"
    ∷ []

run-settled_example :
    lookup "pair" (run (run empty_router window_closed) join_again).pairings ≡ some left_pairing
run-settled_example = run-settled "pair" left_pairing window_closed join_again used refl (
  (λ e. ground (arith, eq_iff "other" "pair")),
  ((λ e. ground (arith, eq_iff "other" "pair")), tt),
)

proved :
    has "c2" (dispatch (at_time 9) busy "c2" (say (auth_proof prove))).state.authenticated ≡ true
unfolding dispatch has lookup on_auth_proof is_revoked proof_holds insert
proved = refl

dispatch-authenticated_example :
    (has "c2" busy.authenticated ≡ true)
    ⊎ ((◌≡◌ {A = String} "c2" "c2")
        × IsProven
            (at_time 9)
            busy
            "c2"
            (say (auth_proof prove))
            (dispatch (at_time 9) busy "c2" (say (auth_proof prove))).state.devices)
dispatch-authenticated_example =
    dispatch-authenticated (at_time 9) busy "c2" "c2" (say (auth_proof prove)) proved

dispatch-SessionMove_example :
    SessionMove "c1" busy.sessions (dispatch (at_time 9) busy "c1" accept_session).state.sessions
dispatch-SessionMove_example = dispatch-SessionMove (at_time 9) busy "c1" accept_session

dispatch-PairingMove_example :
    PairingMove
      (at_time 9)
      "c2"
      busy.pairings
      (dispatch (at_time 9) busy "c2" join_window).state.pairings
dispatch-PairingMove_example = dispatch-PairingMove (at_time 9) busy "c2" join_window

session_keyed : (i : String) (s : Session) → lookup i busy.sessions ≡ some s → s.session_id ≡ i
unfolding lookup
session_keyed i s e = ground (arith, eq_iff "session" i)

pairing_keyed : (i : String) (p : Pairing) → lookup i busy.pairings ≡ some p → p.pair_id ≡ i
unfolding lookup
pairing_keyed i p e = ground (arith, eq_iff "pair" i)

c1_registered : lookup "c1" busy.registry.conns ≡ some c1_entry
unfolding lookup
c1_registered = refl

handle_conn_closed-IsGone_example : IsGone "c1" (handle_conn_closed "c1" busy).0
handle_conn_closed-IsGone_example =
    handle_conn_closed-IsGone "c1" busy c1_entry c1_registered session_keyed pairing_keyed

evict_stale-closes_example : evict_stale true "c1" busy ≡ handle_conn_closed "c1" busy
evict_stale-closes_example = evict_stale-closes "c1" busy

abbrev offer : Frame
offer = say (signal_offer "session" "sdp")

c1_session : lookup "session" busy.sessions ≡ some live_session
unfolding lookup
c1_session = refl

relay_signal-sent_example :
    All
      (λ x. (x.0 ≡ "c1") ⊎ ((x.1 ≡ offer) × IsPeer busy "c1" "session" x.0))
      (relay_signal (at_time 9) busy "c1" offer "session" "signal.offer" (some desktop)).sent
relay_signal-sent_example =
    relay_signal-sent (at_time 9) busy "c1" offer "session" "signal.offer" (some desktop)
