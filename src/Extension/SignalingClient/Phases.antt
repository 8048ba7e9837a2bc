-- ===== src/Extension/SignalingClient/Phases.antt =====
-- The client as the four states it means to have.
pub mod Moves
use mathlib.Core.Path.{subst}
use remotetab.Prelude.{
  among, without, ℕ, ◌+◌, ◌-◌, ltb, ◌≡◌, refl, ◌∙◌, Bool, true, false, Option, none, some, List, [],
  ◌∷◌, String, arith, Bool-cases, inl, inr, if◌then◌else◌, is_some, ◌++◌, Option-cases, nth, take,
  drop,
}
use remotetab.Protocol.Messages.{Frame, SignalingMessage, auth_challenge}
use remotetab.Extension.Backoff.{BackoffPolicy, next, reset}
use remotetab.Extension.SignalingClient.{
  offline, connecting, online, SignalingClientOptions, SignalingClient, Act, ClientEvent, connects,
  stops, opened, received, closed, signs, pings, reconnects, transmits, set_state, open_socket,
  connect, send_frame, stop_sockets, schedule_reconnect, on_open, answer_challenge, take_message,
  on_message, resume_sign, on_close, ping_due, reconnect_due, close, handle, new_client, run,
}

-- Stopped; waiting for the reconnect timer; with a socket that is not open yet; online, with the
-- ping timer set or not.
pub data Phase : Type 0 where
  idle : Phase
  waiting : (timer : ℕ) → Phase
  dialing : (socket : ℕ) → Phase
  live : (socket : ℕ) → (pinging : Bool) → Phase

-- What a phase leaves open.
pub record Rest : Type 0 where
  pub last_inbound_ms : ℕ
  pub backoff : BackoffPolicy
  pub signing : List String
  pub fresh : ℕ

-- The client in a phase: a socket with handlers is the current one, and a timer that has not fired
-- the current one.
unfoldable pub in_phase : Phase → Rest → SignalingClient
in_phase idle r = record {
  socket = none;
  state = offline;
  ping_handle = false;
  reconnect_handle = none;
  last_inbound_ms = r.last_inbound_ms;
  stopped = true;
  backoff = r.backoff;
  attached = [];
  timers = [];
  signing = r.signing;
  fresh = r.fresh;
}
in_phase (waiting t) r = record {
  socket = none;
  state = offline;
  ping_handle = false;
  reconnect_handle = some t;
  last_inbound_ms = r.last_inbound_ms;
  stopped = false;
  backoff = r.backoff;
  attached = [];
  timers = t ∷ [];
  signing = r.signing;
  fresh = r.fresh;
}
in_phase (dialing n) r = record {
  socket = some n;
  state = connecting;
  ping_handle = false;
  reconnect_handle = none;
  last_inbound_ms = r.last_inbound_ms;
  stopped = false;
  backoff = r.backoff;
  attached = n ∷ [];
  timers = [];
  signing = r.signing;
  fresh = r.fresh;
}
in_phase (live n p) r = record {
  socket = some n;
  state = online;
  ping_handle = p;
  reconnect_handle = none;
  last_inbound_ms = r.last_inbound_ms;
  stopped = false;
  backoff = r.backoff;
  attached = n ∷ [];
  timers = [];
  signing = r.signing;
  fresh = r.fresh;
}

-- `connect()` is not called while a reconnect timer is pending.
abbrev pub IsPolite : SignalingClient → ClientEvent → Type 0
IsPolite c connects = c.reconnect_handle ≡ none
IsPolite c _ = Unit

abbrev pub ArePolite : SignalingClientOptions → SignalingClient → List ClientEvent → Type 0
ArePolite opts c [] = Unit
ArePolite opts c (e ∷ es) = IsPolite c e × ArePolite opts (handle opts c e).0 es

-- The moves between the phases.
pub data Move : Phase → Phase → Type 0 where
  stays : {p : Phase} → Move p p
  starts : {n : ℕ} → Move idle (dialing n)
  retries : {t n : ℕ} → Move (waiting t) (dialing n)
  connected : {n : ℕ} → Move (dialing n) (live n true)
  reopened : {n : ℕ} {p : Bool} → Move (live n p) (live n true)
  falls_silent : {n : ℕ} {p : Bool} → Move (live n p) (live n false)
  dropped : {n t : ℕ} → Move (dialing n) (waiting t)
  lost : {n t : ℕ} {p : Bool} → Move (live n p) (waiting t)
  stopped : {p : Phase} → Move p idle

abbrev pub MovesFrom : Phase → SignalingClient → Type 0
MovesFrom p c = (p' : Phase) × (r : Rest) × (c ≡ in_phase p' r) × Move p p'

-- A guarded handler moves if what it guards does.
pub only_if :
    (b : Bool) (x : SignalingClient × List Act) (p : Phase) (r : Rest)
    → (b ≡ true → MovesFrom p x.0)
    → MovesFrom p (if b then x else (in_phase p r, [])).0
only_if true x p r h = h refl
only_if false x p r h = (p, r, refl, stays)

pub without-among : (n m : ℕ) → among n (m ∷ []) ≡ true → without n (m ∷ []) ≡ []
unfolding among without
without-among n m e = ground arith

pub close-idle :
    (p : Phase) (r : Rest) → (r' : Rest) × ((close (in_phase p r)).0 ≡ in_phase idle r')
unfolding in_phase close stop_sockets set_state without
close-idle idle r = (record r { backoff = reset r.backoff }, refl)
close-idle (waiting t) r = (record r { backoff = reset r.backoff }, ground arith)
close-idle (dialing n) r = (record r { backoff = reset r.backoff }, ground arith)
close-idle (live n p) r = (record r { backoff = reset r.backoff }, ground arith)
