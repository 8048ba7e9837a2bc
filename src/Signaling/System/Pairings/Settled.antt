-- ===== src/Signaling/System/Pairings/Settled.antt =====
-- A pairing that is settled never changes again, whatever happens.
use remotetab.Prelude.{String, true, false, some, ◌≡◌, ◌≢◌, List, [], ◌∷◌}
use remotetab.Store.{lookup}
use remotetab.Store.Maps.{filter_values-IsHeld}
use remotetab.Signaling.Pairings.{Pairing, is_open, list_open}
use remotetab.Signaling.Router.{Router}
use remotetab.Signaling.Router.PairingMoves.{dispatch-PairingMove}
use remotetab.Signaling.Router.Close.{handle_conn_closed, evict_stale, pairings_of, concerns}
use remotetab.Signaling.System.{Event, opens, frames, closes, evicts, step, run, empty_router}
use remotetab.Signaling.System.Pairings.{
  Kept, PairingMove-settled, lookup-cancel_all, held-Unsettled, PairingMove-Kept, cancel_all-Kept,
  closed_pairings, All-filter_list,
}

-- No event draws the id `i` for a new pairing.
abbrev pub Avoids : String → List Event → Type 0
Avoids i [] = Unit {0}
Avoids i (frames ctx conn frame ∷ es) = (ctx.new_pair_id ≢ i) × Avoids i es
Avoids i (opens conn now_ms ∷ es) = Avoids i es
Avoids i (closes conn ∷ es) = Avoids i es
Avoids i (evicts at_once conn ∷ es) = Avoids i es

handle_conn_closed-Kept :
    (conn : String) (st : Router) → Kept st.pairings → Kept (handle_conn_closed conn st).0.pairings
handle_conn_closed-Kept conn st h =
    closed_pairings Kept conn st h (cancel_all-Kept (pairings_of conn st) st.pairings h)

step-Kept : (st : Router) (e : Event) → Kept st.pairings → Kept (step st e).pairings
unfolding step evict_stale
step-Kept st (opens conn now_ms) h = h
step-Kept st (frames ctx conn frame) h =
    PairingMove-Kept ctx conn (dispatch-PairingMove ctx _ conn frame) h
step-Kept st (closes conn) h = handle_conn_closed-Kept conn st h
step-Kept st (evicts true conn) h =
    handle_conn_closed-Kept conn _ (handle_conn_closed-Kept conn st h)
step-Kept st (evicts false conn) h = handle_conn_closed-Kept conn _ h

run-Kept_from : (st : Router) (es : List Event) → Kept st.pairings → Kept (run st es).pairings
unfolding run
run-Kept_from st [] h = h
run-Kept_from st (e ∷ es) h = run-Kept_from (step st e) es (step-Kept st e h)

pub run-Kept : (es : List Event) → Kept (run empty_router es).pairings
unfolding lookup
run-Kept es = run-Kept_from empty_router es (record { is_map = tt; keyed = λ i p e. cc })

module _ (i : String) (p : Pairing) (settled : is_open p.state ≡ false) where
  handle_conn_closed-settled :
      (conn : String) (st : Router)
      → Kept st.pairings
      → lookup i st.pairings ≡ some p
      → lookup i (handle_conn_closed conn st).0.pairings ≡ some p
  unfolding pairings_of list_open
  handle_conn_closed-settled conn st h e =
      closed_pairings (λ m. lookup i m ≡ some p) conn st e
        (lookup-cancel_all i p settled _ st.pairings
          (All-filter_list _ (concerns conn) (list_open st.pairings) (
            held-Unsettled i p settled st.pairings (list_open st.pairings) h e
              (filter_values-IsHeld _ st.pairings h.is_map)))
          e)

  run-settled_from :
      (st : Router) (es : List Event)
      → Kept st.pairings
      → Avoids i es
      → lookup i st.pairings ≡ some p
      → lookup i (run st es).pairings ≡ some p
  unfolding run step evict_stale
  run-settled_from st [] h a e = e
  run-settled_from st (opens conn now_ms ∷ es) h a e =
      run-settled_from (step st (opens conn now_ms)) es h a e
  run-settled_from st (frames ctx conn frame ∷ es) h (n, a) e =
      run-settled_from (step st (frames ctx conn frame)) es (step-Kept st (frames ctx conn frame) h)
        a (PairingMove-settled i p settled ctx conn (dispatch-PairingMove ctx _ conn frame) h n e)
  run-settled_from st (closes conn ∷ es) h a e =
      run-settled_from (step st (closes conn)) es (handle_conn_closed-Kept conn st h) a
        (handle_conn_closed-settled conn st h e)
  run-settled_from st (evicts true conn ∷ es) h a e =
      let k = handle_conn_closed-Kept conn st h in
      run-settled_from (step st (evicts true conn)) es (handle_conn_closed-Kept conn _ k) a
        (handle_conn_closed-settled conn _ k (handle_conn_closed-settled conn st h e))
  run-settled_from st (evicts false conn ∷ es) h a e =
      run-settled_from (step st (evicts false conn)) es (handle_conn_closed-Kept conn _ h) a
        (handle_conn_closed-settled conn _ h e)

-- A pairing that was consumed, expired, rejected or cancelled after some events stays exactly as it
-- is over any later events, unless one of them draws its id anew: it cannot be joined or accepted
-- a second time.
pub run-settled :
    (i : String) (p : Pairing) (before after : List Event)
    → lookup i (run empty_router before).pairings ≡ some p
    → is_open p.state ≡ false
    → Avoids i after
    → lookup i (run (run empty_router before) after).pairings ≡ some p
run-settled i p before after e settled a =
    run-settled_from i p settled (run empty_router before) after (run-Kept before) a e
