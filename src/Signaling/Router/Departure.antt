-- ===== src/Signaling/Router/Departure.antt =====
-- What is left of a connection after `handleConnClosed`, and after the stale sweep.
use remotetab.Prelude.{
  String, Bool, true, false, none, some, ◌≡◌, refl, ap, ◌∙◌, inl, inr, arith, str_eq, eq_iff,
  Bool-cases, Option-cases, ◌++◌, ◌&&◌, ◌||◌, eq_refl, List, [], ◌∷◌,
}
use mathlib.Core.List.{append-nil}
use remotetab.Protocol.Messages.{Frame}
use remotetab.Store.{
  Store, lookup, has, erase, lookup-insert, lookup-erase, lookup-erase_where, has-erase_self,
  filter_values,
}
use remotetab.Signaling.Registry.{ConnectionRegistry, RegisteredConnection, unregister}
use remotetab.Signaling.Pairings
use remotetab.Signaling.Pairings.{Pairing, cancelled, is_open}
use remotetab.Signaling.Sessions
use remotetab.Signaling.Sessions.{Session, closed, update, not_closed, is_closed}
use remotetab.Signaling.Router.{Router, PendingRequest}
use remotetab.Signaling.Router.Meet.{takes_part}
use remotetab.Signaling.Router.Close.{
  handle_conn_closed, evict_stale, forget, close_all, cancel_all, sessions_of, pairings_of,
  concerns, filter_list,
}

module _ {V : Type 0} (key : V → String) (live : V → Bool) where
  -- A live value with the key `i` is in the list.
  names : String → List V → Bool
  names i [] = false
  names i (v ∷ vs) = (str_eq (key v) i && live v) || names i vs

  -- What the two filters keep of a map names each of its live values that pass the test.
  names-filter_list :
      (t : V → Bool) (i : String) (m : Store V) (v : V)
      → lookup i m ≡ some v
      → key v ≡ i
      → live v ≡ true
      → t v ≡ true
      → names i (filter_list t (filter_values live m)) ≡ true
  unfolding names filter_list filter_values lookup
  names-filter_list t i [] v e k l p = cc
  names-filter_list t i ((j, w) ∷ m) v e k l p = elim (Bool-cases (str_eq j i)) [
    | inl here ↦ ground (arith, eq_iff (key w) i)
    | inr there ↦ ground (arith, names-filter_list t i m v (rw there at e) k l p)
  ]

-- A session that is live after the loop was in the map before, and the list does not name it.
lookup-close_all :
    (ss : List Session) (i : String) (m : Store Session) (v : Session)
    → lookup i (close_all ss m) ≡ some v
    → not_closed v.state ≡ true
    → (lookup i m ≡ some v) × (names (λ s. s.session_id) (λ s. not_closed s.state) i ss ≡ false)
unfolding close_all names update
lookup-close_all [] i m v e p = (e, refl)
lookup-close_all (s ∷ ss) i m v e p = ground (
  arith,
  lookup-close_all ss i m v,
  lookup-close_all ss i (update (record s { state = closed }) m) v,
  lookup-insert s.session_id i (record s { state = closed }) m,
)

lookup-cancel_all :
    (ps : List Pairing) (i : String) (m : Store Pairing) (v : Pairing)
    → lookup i (cancel_all ps m) ≡ some v
    → is_open v.state ≡ true
    → (lookup i m ≡ some v) × (names (λ p. p.pair_id) (λ p. is_open p.state) i ps ≡ false)
unfolding cancel_all names Pairings.update
lookup-cancel_all [] i m v e p = (e, refl)
lookup-cancel_all (q ∷ qs) i m v e p = ground (
  arith,
  lookup-cancel_all qs i m v,
  lookup-cancel_all qs i (Pairings.update (record q { state = cancelled }) m) v,
  lookup-insert q.pair_id i (record q { state = cancelled }) m,
)

-- Nothing in the state depends on the connection any more.
pub record IsGone (conn : String) (st : Router) : Type 0 where
  pub no_session :
      (i : String) (s : Session)
      → lookup i st.sessions ≡ some s
      → not_closed s.state ≡ true
      → takes_part conn s ≡ false
  pub no_pairing :
      (i : String) (p : Pairing)
      → lookup i st.pairings ≡ some p
      → is_open p.state ≡ true
      → concerns conn p ≡ false
  pub no_request :
      (key : String) (r : PendingRequest)
      → lookup key st.session_requests ≡ some r
      → str_eq r.phone_conn_id conn ≡ false
  pub no_connection : lookup conn st.registry.conns ≡ none
  pub no_trust : has conn st.authenticated ≡ false
  pub no_challenge : has conn st.pending_auth ≡ false
  pub no_handle : has conn st.handles ≡ false

lookup-unregister : (c : String) (r : ConnectionRegistry) → lookup c (unregister c r).0.conns ≡ none
unfolding unregister
lookup-unregister c r = ground (arith, lookup-erase c c r.conns, eq_refl c)

unregister-registered :
    (c : String) (r : ConnectionRegistry) (reg : RegisteredConnection)
    → lookup c r.conns ≡ some reg
    → (unregister c r).1 ≡ some reg
unfolding unregister
unregister-registered c r reg e = ground arith

-- When a registered connection closes, in a state where sessions and pairings are stored under
-- their own ids, no open session or pairing and no pending request of it is left, and the registry,
-- the handles, the challenges and the authenticated connections have forgotten it.
pub handle_conn_closed-IsGone :
    (conn : String) (st : Router) (reg : RegisteredConnection)
    → lookup conn st.registry.conns ≡ some reg
    → ((i : String) (s : Session) → lookup i st.sessions ≡ some s → s.session_id ≡ i)
    → ((i : String) (p : Pairing) → lookup i st.pairings ≡ some p → p.pair_id ≡ i)
    → IsGone conn (handle_conn_closed conn st).0
unfolding handle_conn_closed sessions_of pairings_of Sessions.list_open Pairings.list_open
handle_conn_closed-IsGone conn st reg e sk pk =
    rw (unregister-registered conn st.registry reg e, handle_conn_closed)
      (record {
        no_session = λ i s f p. elim (Bool-cases (takes_part conn s)) [
          | inr other ↦ other
          | inl mine ↦
              let (g, n) = lookup-close_all _ i st.sessions s f p in
              absurd (
                cc (
                  n,
                  names-filter_list (λ s. s.session_id) (λ s. not_closed s.state) (takes_part conn)
                      i st.sessions s g (sk i s g) p mine,
                ))
        ];
        no_pairing = λ i q f p. elim (Bool-cases (concerns conn q)) [
          | inr other ↦ other
          | inl mine ↦
              let (g, n) = lookup-cancel_all _ i st.pairings q f p in
              absurd (
                cc (
                  n,
                  names-filter_list (λ p. p.pair_id) (λ p. is_open p.state) (concerns conn) i
                      st.pairings q g (pk i q g) p mine,
                ))
        ];
        no_request = λ key r f. lookup-erase_where _ key st.session_requests r f;
        no_connection = lookup-unregister conn st.registry;
        no_trust = has-erase_self conn st.authenticated;
        no_challenge = has-erase_self conn st.pending_auth;
        no_handle = has-erase_self conn st.handles;
      })

erase_twice : {V : Type 0} (k : String) (m : Store V) → erase k (erase k m) ≡ erase k m
unfolding erase
erase_twice k [] = refl
erase_twice k ((j, v) ∷ m) = elim (Bool-cases (str_eq j k)) [
  | inl e ↦ rw (e, erase) (erase_twice k m)
  | inr e ↦ rw (e, erase, e) (ap (◌∷◌ (j, v)) (erase_twice k m))
]

unregister_unknown :
    (c : String) (r : ConnectionRegistry) → lookup c r.conns ≡ none → unregister c r ≡ (r, none)
unfolding unregister
unregister_unknown c r e = rw (unregister, e) refl

-- A connection that nothing knows any more is closed again without effect.
close_unknown :
    (conn : String) (st : Router)
    → unregister conn st.registry ≡ (st.registry, none)
    → erase conn st.handles ≡ st.handles
    → erase conn st.authenticated ≡ st.authenticated
    → erase conn st.pending_auth ≡ st.pending_auth
    → handle_conn_closed conn (record st { registry = (unregister conn st.registry).0 }) ≡ (st, [])
unfolding handle_conn_closed forget
close_unknown conn st u h a p =
    ap (λ z. handle_conn_closed conn (record st { registry = z.0 })) u
    ∙ rw (handle_conn_closed, ap (λ z. z.1) u, ap (λ z. z.0) u, h, a, p) refl

-- What the maps of the router are after `handleConnClosed`, whether or not it returns early.
closed_maps :
    (conn : String) (st : Router)
    → let after = (handle_conn_closed conn st).0 in
      (after.registry ≡ (unregister conn st.registry).0)
      × (after.handles ≡ erase conn st.handles)
      × (after.authenticated ≡ erase conn st.authenticated)
      × (after.pending_auth ≡ erase conn st.pending_auth)
unfolding handle_conn_closed forget
closed_maps conn st = elim (Option-cases (unregister conn st.registry).1) [
  | inl e ↦ rw (e, handle_conn_closed) (refl, refl, refl, refl)
  | inr (reg, e) ↦ rw (e, handle_conn_closed) (refl, refl, refl, refl)
]

-- Where the runtime runs the close handler within `close`, a sweep is the closing of the
-- connection, with the same state and the same frames: what follows it in the sweeper does nothing
-- more.
pub evict_stale-closes :
    (conn : String) (st : Router) → evict_stale true conn st ≡ handle_conn_closed conn st
unfolding evict_stale
evict_stale-closes conn st =
    let (after, sent) = handle_conn_closed conn st in
    let (registry, handles, authenticated, pending_auth) = closed_maps conn st in
    let unknown : lookup conn after.registry.conns ≡ none =
      rw registry (lookup-unregister conn st.registry) in
    let again =
      close_unknown conn after (unregister_unknown conn after.registry unknown)
        (rw handles (erase_twice conn st.handles))
        (rw authenticated (erase_twice conn st.authenticated))
        (rw pending_auth (erase_twice conn st.pending_auth)) in
    ap (λ z. (z.0, sent ++ z.1)) again
    ∙ ap (λ (fs : List (String × Frame)). (after, fs)) (append-nil sent)
