-- ===== src/Extension/SignalingClient.antt =====
-- `SignalingClient` of apps/extension/src/signaling-client.ts. Sockets and reconnect timers are
-- numbered as they are made. The sockets whose handlers are set, the reconnect timers that have not
-- fired and the challenges that are being signed are part of the state: what comes from them is an
-- event. A frame comes as `decodeSignalingFrame` reads it, or as none. `pongDeadlineHandle` is never
-- set by the source, and a call of `onState` or `onFrame` is not taken to call the client back.
pub mod Phases
pub mod Closed
use remotetab.Prelude.{
  ◌then_call◌, among, without, ℕ, zero, suc, ◌+◌, ◌-◌, String, Bool, true, false, not, ◌&&◌, Option,
  none, some, List, [], ◌∷◌, ◌++◌, ltb, ◌==◌, if◌then◌else◌, is_some, nth, take, drop,
}
use remotetab.Protocol.Messages.{
  Frame, SignalingMessage, Hello, AuthProof, hello, presence_ping, auth_challenge, auth_proof,
  auth_ok, signaling_frame,
}
use remotetab.Extension.Backoff.{BackoffPolicy, next, reset}

pub data SignalingState : Type 0 where
  offline connecting online : SignalingState

pub record SignalingAuth : Type 0 where
  pub public_key_spki : String
  pub public_key_fingerprint : String
  pub display_name : Option String

pub record SignalingClientOptions : Type 0 where
  pub hello_payload : Hello
  pub auth : Option SignalingAuth
  pub pong_timeout_ms : ℕ

pub record SignalingClient : Type 0 where
  pub socket : Option ℕ
  pub state : SignalingState
  pub ping_handle : Bool
  pub reconnect_handle : Option ℕ
  pub last_inbound_ms : ℕ
  pub stopped : Bool
  pub backoff : BackoffPolicy
  -- Outside the object: the sockets with handlers, the timers, the challenges, the next number.
  pub attached : List ℕ
  pub timers : List ℕ
  pub signing : List String
  pub fresh : ℕ

-- What the client does to its surroundings.
pub data Act : Type 0 where
  opens : (socket : ℕ) → Act
  sends : (socket : ℕ) → Frame → Act
  closes : (socket code : ℕ) → Act
  schedules : (timer delay : ℕ) → Act
  reports : SignalingState → Act
  dispatches : Frame → Act

pub data ClientEvent : Type 0 where
  connects stops : ClientEvent
  opened : (socket now : ℕ) → ClientEvent
  received : (socket now : ℕ) → Option Frame → ClientEvent
  closed : (socket : ℕ) → ClientEvent
  signs : (place : ℕ) → (signature : Option String) → ClientEvent
  pings : (now ts : ℕ) → (ready : Bool) → ClientEvent
  reconnects : (timer : ℕ) → ClientEvent
  transmits : Frame → (ready : Bool) → ClientEvent

abbrev pub same_state : SignalingState → SignalingState → Bool
same_state offline offline = true
same_state connecting connecting = true
same_state online online = true
same_state _ _ = false

-- `setState(next)`.
unfoldable pub set_state : SignalingState → SignalingClient → SignalingClient × List Act
set_state s c = if same_state c.state s then (c, []) else (record c { state = s }, reports s ∷ [])

-- `open()`: the handlers of the new socket are set.
unfoldable pub open_socket : SignalingClient → SignalingClient × List Act
unfolding set_state
open_socket c = set_state connecting c then_call (λ c'. (
  record c' { socket = some c'.fresh; attached = c'.fresh ∷ c'.attached; fresh = c'.fresh + 1 },
  opens c'.fresh ∷ [],
))

-- `connect()`.
unfoldable pub connect : SignalingClient → SignalingClient × List Act
unfolding open_socket
connect c =
    if not c.stopped && is_some c.socket
    then (c, [])
    else open_socket (record c { stopped = false })

-- `send(frame)`: true when the frame went out.
unfoldable pub send_frame :
    Frame → (ready : Bool) → SignalingClient → (SignalingClient × List Act) × Bool
send_frame frame ready c = elim c.socket [
  | none ↦ ((c, []), false)
  | some n ↦
      if same_state c.state online && ready
      then ((c, sends n frame ∷ []), true)
      else ((c, []), false)
]

-- `stopSockets()`: the current socket loses its handlers.
unfoldable pub stop_sockets : SignalingClient → SignalingClient
unfolding without
stop_sockets c = record c {
  ping_handle = false;
  socket = none;
  attached = elim c.socket [ none ↦ c.attached | some n ↦ without n c.attached ];
}

-- `scheduleReconnect()`.
unfoldable pub schedule_reconnect : SignalingClient → SignalingClient × List Act
unfolding set_state next
schedule_reconnect c = set_state offline c then_call (λ c'. (
  record c' {
    backoff = (next c'.backoff).0;
    reconnect_handle = some c'.fresh;
    timers = c'.fresh ∷ c'.timers;
    fresh = c'.fresh + 1;
  },
  schedules c'.fresh (next c'.backoff).1 ∷ [],
))

-- `socket.onopen`.
unfoldable pub on_open :
    SignalingClientOptions → ℕ → ℕ → SignalingClient → SignalingClient × List Act
unfolding reset set_state
on_open opts n now c =
    (
      record c { backoff = reset c.backoff; last_inbound_ms = now },
      sends n (signaling_frame (hello opts.hello_payload) none) ∷ [],
    )
    then_call set_state online
    then_call (λ c'. (record c' { ping_handle = true }, []))

-- `answerChallenge(nonce)` up to its await.
unfoldable pub answer_challenge :
    SignalingClientOptions → String → SignalingClient → SignalingClient
answer_challenge opts nonce c =
    if is_some opts.auth && is_some c.socket
    then record c { signing = c.signing ++ nonce ∷ [] }
    else c

-- `socket.onmessage` behind the decoding, by the message.
unfoldable pub take_message :
    SignalingClientOptions → SignalingMessage → Frame → SignalingClient → SignalingClient × List Act
unfolding answer_challenge
take_message opts (auth_challenge nonce) frame c = (answer_challenge opts nonce c, [])
take_message opts (auth_ok registered) frame c = (c, [])
take_message opts _ frame c = (c, dispatches frame ∷ [])

-- `socket.onmessage`.
unfoldable pub on_message :
    SignalingClientOptions → ℕ → ℕ → Option Frame → SignalingClient → SignalingClient × List Act
unfolding take_message
on_message opts n now none c = (record c { last_inbound_ms = now }, closes n 1002 ∷ [])
on_message opts n now (some frame) c =
    take_message opts frame.message frame (record c { last_inbound_ms = now })

-- `answerChallenge(nonce)` behind its await: the proof goes to the socket of now.
unfoldable pub resume_sign :
    SignalingClientOptions → Option String → SignalingClient → SignalingClient × List Act
resume_sign opts none c = (c, [])
resume_sign opts (some signature) c = elim opts.auth [
  | none ↦ (c, [])
  | some auth ↦ elim c.socket [
    | none ↦ (c, [])
    | some n ↦ (
      c,
      sends n (
            signaling_frame
              (auth_proof (record {
                signature = signature;
                public_key_spki = auth.public_key_spki;
                public_key_fingerprint = auth.public_key_fingerprint;
                display_name = auth.display_name;
              }))
              none)
          ∷ [],
    )
  ]
]

-- `socket.onclose`.
unfoldable pub on_close : SignalingClient → SignalingClient × List Act
unfolding stop_sockets set_state schedule_reconnect
on_close c =
    let c' = stop_sockets c in if c'.stopped then set_state offline c' else schedule_reconnect c'

-- The callback of the ping timer, which sets itself again.
unfoldable pub ping_due :
    SignalingClientOptions → ℕ → ℕ → Bool → SignalingClient → SignalingClient × List Act
unfolding send_frame
ping_due opts now ts ready c =
    if ltb opts.pong_timeout_ms (now - c.last_inbound_ms)
    then (
      record c { ping_handle = false },
      elim c.socket [ none ↦ [] | some n ↦ closes n 4000 ∷ [] ],
    )
    else (send_frame (signaling_frame (presence_ping ts) none) ready c).0

-- The callback of a reconnect timer.
unfoldable pub reconnect_due : SignalingClient → SignalingClient × List Act
unfolding open_socket
reconnect_due c =
    let c' = record c { reconnect_handle = none } in if c'.stopped then (c', []) else open_socket c'

-- `close()`.
unfoldable pub close : SignalingClient → SignalingClient × List Act
unfolding reset stop_sockets set_state without
close c =
    (
      stop_sockets (record c {
        stopped = true;
        timers = elim c.reconnect_handle [ none ↦ c.timers | some t ↦ without t c.timers ];
        reconnect_handle = none;
        backoff = reset c.backoff;
      }),
      elim c.socket [ none ↦ [] | some n ↦ closes n 1000 ∷ [] ],
    )
    then_call set_state offline

-- An event: what comes from a socket without handlers, or from no timer, does nothing.
unfoldable pub handle :
    SignalingClientOptions → SignalingClient → ClientEvent → SignalingClient × List Act
unfolding connect close on_open on_message on_close resume_sign ping_due reconnect_due send_frame
    among without
handle opts c connects = connect c
handle opts c stops = close c
handle opts c (opened n now) = if among n c.attached then on_open opts n now c else (c, [])
handle opts c (received n now frame) =
    if among n c.attached then on_message opts n now frame c else (c, [])
handle opts c (closed n) =
    if among n c.attached then on_close (record c { attached = without n c.attached }) else (c, [])
handle opts c (signs i signature) = elim (nth i c.signing) [
  | none ↦ (c, [])
  | some nonce ↦
      resume_sign opts signature (record c { signing = take i c.signing ++ drop (i + 1) c.signing })
]
handle opts c (pings now ts ready) = if c.ping_handle then ping_due opts now ts ready c else (c, [])
handle opts c (reconnects t) =
    if among t c.timers then reconnect_due (record c { timers = without t c.timers }) else (c, [])
handle opts c (transmits frame ready) = (send_frame frame ready c).0

-- A new client.
abbrev pub new_client : SignalingClient
new_client = record {
  socket = none;
  state = offline;
  ping_handle = false;
  reconnect_handle = none;
  last_inbound_ms = 0;
  stopped = true;
  backoff = record { attempt = 0; base_ms = 500; max_ms = 8000 };
  attached = [];
  timers = [];
  signing = [];
  fresh = 0;
}

-- The client after some events, and all that it has done.
unfoldable pub run :
    SignalingClientOptions → SignalingClient → List ClientEvent → SignalingClient × List Act
unfolding handle
run opts c [] = (c, [])
run opts c (e ∷ es) = handle opts c e then_call (λ c'. run opts c' es)
