-- ===== src/Signaling/Router/Pair.antt =====
-- The handlers of apps/signaling/src/router.ts for `pair.*`.
use remotetab.Prelude.{
  ℕ, ◌+◌, ◌*◌, leb, String, Bool, true, false, ◌&&◌, not, Option, none, some, List, [], ◌∷◌, ◌++◌,
  if◌then◌else◌, str_eq,
}
use remotetab.Store.{Store, lookup}
use remotetab.Protocol.Errors.{
  ErrorCode, message_invalid, session_not_found, device_revoked, pair_expired, pair_already_used,
  pair_invalid_proof,
}
use remotetab.Protocol.Messages.{
  Frame, DeviceRole, desktop, phone, Identity, PairCreate, PairJoin, pair_created, pair_accepted,
  pair_rejected, signaling_frame,
}
use remotetab.Signaling.Registry.{RegisteredConnection, truthy}
use remotetab.Signaling.Pairings.{
  Pairing, PairingState, created, joined, consumed, expired, rejected, cancelled, create, update,
  find_open_by_desktop_conn,
}
use remotetab.Signaling.Devices.{is_revoked}
use remotetab.Signaling.Router.{
  Router, Context, Outcome, keep_open, send, refuse, decline, require_authenticated,
  ws_close_policy,
}

-- The device of a connection that said hello in `role`: `reg?.role === role && reg.deviceId !== null`.
abbrev pub as_role : DeviceRole → Option DeviceRole → Option String → Option String
as_role desktop (some desktop) d = d
as_role phone (some phone) d = d
as_role _ _ d = none

abbrev pub device_as : DeviceRole → Option RegisteredConnection → Option String
device_as role none = none
device_as role (some reg) = as_role role reg.role reg.device_id

-- `open.state = 'CANCELLED'; update(open)` for the open pairing of the desktop, if there is one.
unfoldable pub supersede : String → Store Pairing → Store Pairing
supersede conn m = elim (find_open_by_desktop_conn conn m) [
  | none ↦ m
  | some open_pairing ↦ update (record open_pairing { state = cancelled }) m
]

-- The part of `onPairCreate` behind its guards.
unfoldable pub open_pairing_window :
    Context → Router → String → Frame → String → PairCreate → Outcome
unfolding supersede
open_pairing_window ctx st conn frame device_id p =
    let expires_at_ms : ℕ = ctx.now_ms + p.ttl_seconds * 1000 in
    let pairing : Pairing = record {
      pair_id = ctx.new_pair_id;
      desktop_conn_id = conn;
      desktop_device_id = device_id;
      desktop_display_name = p.display_name;
      desktop_spki = p.public_key_spki;
      desktop_fingerprint = p.public_key_fingerprint;
      phone_conn_id = none;
      phone_device_id = none;
      phone_display_name = none;
      phone_spki = none;
      phone_fingerprint = none;
      state = created;
      created_at_ms = ctx.now_ms;
      expires_at_ms = expires_at_ms;
    } in
    record {
      state = record st { pairings = create pairing (supersede conn st.pairings) };
      sent = (conn, signaling_frame (pair_created ctx.new_pair_id expires_at_ms) frame.id) ∷ [];
      result = keep_open;
    }

-- `onPairCreate(conn, frame)`.
unfoldable pub on_pair_create : Context → Router → String → Frame → PairCreate → Outcome
on_pair_create ctx st conn frame p =
    if not (require_authenticated ctx st conn)
    then refuse ctx st conn message_invalid (some "device authentication required") ws_close_policy
    else elim (device_as desktop (lookup conn st.registry.conns)) [
      | none ↦
          refuse ctx st conn message_invalid (some "pair.create requires desktop role")
            ws_close_policy
      | some device_id ↦ open_pairing_window ctx st conn frame device_id p
    ]

-- The pairing with the phone that joins it.
unfoldable pub with_phone : String → PairJoin → Pairing → Pairing
with_phone conn j p = record p {
  state = joined;
  phone_conn_id = some conn;
  phone_device_id = some j.device_id;
  phone_display_name = j.display_name;
  phone_spki = some j.public_key_spki;
  phone_fingerprint = some j.public_key_fingerprint;
}

-- A join of a pairing that is still open: it may have run out since.
unfoldable pub join_open : Context → Router → String → Frame → PairJoin → Pairing → Outcome
join_open ctx st conn frame j p =
    if leb p.expires_at_ms ctx.now_ms
    then decline ctx (record st { pairings = update (record p { state = expired }) st.pairings })
        conn pair_expired none frame.id
    else let q = with_phone conn j p in
      record {
        state = record st { pairings = update q st.pairings };
        sent = send st p.desktop_conn_id frame;
        result = keep_open;
      }

-- The states in which a join is declined, and their codes.
unfoldable pub join_refusal : PairingState → Option ErrorCode
join_refusal expired = some pair_expired
join_refusal cancelled = some pair_expired
join_refusal consumed = some pair_already_used
join_refusal rejected = some pair_invalid_proof
join_refusal created = none
join_refusal joined = none

-- The part of `onPairJoin` behind its guards.
unfoldable pub join_pairing : Context → Router → String → Frame → PairJoin → Outcome
unfolding join_open join_refusal
join_pairing ctx st conn frame j = elim (lookup j.pair_id st.pairings) [
  | none ↦ decline ctx st conn pair_expired none frame.id
  | some p ↦ elim (join_refusal p.state) [
    | some code ↦ decline ctx st conn code none frame.id
    | none ↦ join_open ctx st conn frame j p
  ]
]

-- `onPairJoin(conn, frame)`.
unfoldable pub on_pair_join : Context → Router → String → Frame → PairJoin → Outcome
on_pair_join ctx st conn frame j =
    if not (require_authenticated ctx st conn)
    then refuse ctx st conn message_invalid (some "device authentication required") ws_close_policy
    else elim (device_as phone (lookup conn st.registry.conns)) [
      | none ↦
          refuse ctx st conn message_invalid (some "pair.join requires phone role") ws_close_policy
      | some device_id ↦
          if is_revoked device_id st.devices
          then decline ctx st conn device_revoked none frame.id
          else join_pairing ctx st conn frame j
    ]

-- `if (pairing.phoneConnId) this.send(pairing.phoneConnId, frame)`.
unfoldable pub send_if : Router → Option String → Frame → List (String × Frame)
send_if st none frame = []
send_if st (some conn_id) frame = if truthy (some conn_id) then send st conn_id frame else []

-- `decidePairing(conn, frame, false)` on a joined pairing.
unfoldable pub reject_joined : Router → Frame → Pairing → Outcome
unfolding send_if
reject_joined st frame p = record {
  state = record st { pairings = update (record p { state = rejected }) st.pairings };
  sent =
      send st p.desktop_conn_id
        (signaling_frame (pair_rejected p.pair_id pair_invalid_proof) frame.id)
      ++ send_if st p.phone_conn_id
          (signaling_frame (pair_rejected p.pair_id pair_invalid_proof) none);
  result = keep_open;
}

-- The connection and the identity of a phone whose four fields are there.
unfoldable pub phone_of :
    Option String
    → Option String
    → Option String
    → Option String
    → Option String
    → Option (String × Identity)
phone_of (some c) (some d) (some k) (some f) name =
    if truthy (some c) && truthy (some d) && truthy (some k) && truthy (some f)
    then some (
      c,
      record {
        device_id = d;
        display_name = name;
        public_key_spki = k;
        public_key_fingerprint = f;
      },
    )
    else none
phone_of _ _ _ _ name = none

unfoldable pub joined_phone : Pairing → Option (String × Identity)
unfolding phone_of
joined_phone p =
    phone_of p.phone_conn_id p.phone_device_id p.phone_spki p.phone_fingerprint p.phone_display_name

unfoldable pub desktop_identity : Pairing → Identity
desktop_identity p = record {
  device_id = p.desktop_device_id;
  display_name = p.desktop_display_name;
  public_key_spki = p.desktop_spki;
  public_key_fingerprint = p.desktop_fingerprint;
}

-- `decidePairing(conn, frame, true)` on a joined pairing: it is consumed, and both sides are told
-- both identities.
unfoldable pub accept_joined : Context → Router → String → Frame → Pairing → Outcome
accept_joined ctx st conn frame p =
    let st' = record st { pairings = update (record p { state = consumed }) st.pairings } in
    elim (joined_phone p) [
      | none ↦ decline ctx st' conn pair_expired (some "no pending phone join") frame.id
      | some (phone_conn, phone_identity) ↦
          let accepted = pair_accepted p.pair_id (desktop_identity p) phone_identity in
          record {
            state = st';
            sent =
                send st p.desktop_conn_id (signaling_frame accepted frame.id)
                ++ send st phone_conn (signaling_frame accepted none);
            result = keep_open;
          }
    ]

abbrev pub is_joined : PairingState → Bool
is_joined joined = true
is_joined _ = false

unfoldable pub decision_refusal : PairingState → ErrorCode
decision_refusal consumed = pair_already_used
decision_refusal _ = pair_expired

-- The part of `decidePairing` behind its guards.
unfoldable pub decide_pairing : Context → Router → String → Frame → Bool → Pairing → Outcome
unfolding decision_refusal
decide_pairing ctx st conn frame accept p =
    if not (is_joined p.state)
    then decline ctx st conn (decision_refusal p.state) none frame.id
    else if accept
    then accept_joined ctx st conn frame p
    else reject_joined st frame p

-- `onPairAccept` and `onPairReject`: `decidePairing(conn, frame, accept)`.
unfoldable pub on_decision : Context → Router → String → Frame → String → Bool → Outcome
on_decision ctx st conn frame pair_id accept =
    elim (device_as desktop (lookup conn st.registry.conns)) [
      | none ↦
          refuse ctx st conn message_invalid (some "pairing decisions require desktop role")
            ws_close_policy
      | some device_id ↦ elim (lookup pair_id st.pairings) [
        | none ↦ decline ctx st conn session_not_found none frame.id
        | some p ↦
            if str_eq p.desktop_device_id device_id && str_eq p.desktop_conn_id conn
            then decide_pairing ctx st conn frame accept p
            else refuse ctx st conn message_invalid (some "only the pairing desktop decides")
                ws_close_policy
      ]
    ]
