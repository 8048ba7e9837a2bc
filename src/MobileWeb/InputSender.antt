-- ===== src/MobileWeb/InputSender.antt =====
-- `PrioritizedInputSender` of apps/mobile-web/src/lib/input-sender.ts. The session and the transport,
-- which the encoder closures and `send` read and change, are an environment `E`; wheel deltas are
-- numbers of a type `N`. A timer is armed or not; its callback is a function of its own. An encoder
-- can throw, as `ControlSender.frame` does on a message that its schema refuses: nothing catches it
-- here, so it ends the call.
pub mod Urgent
pub mod Runs
use remotetab.Prelude.{
  ℕ, ◌+◌, String, Bool, true, false, not, Option, none, some, List, [], ◌∷◌, ◌++◌, str_eq, is_none,
  if◌then◌else◌, length,
}

-- A call of an encoder; none where it throws.
abbrev pub Builder : Type 0 → Type 0
Builder E = E → E × Option String

pub record Deltas (N : Type 0) : Type 0 where
  pub x : N
  pub y : N
  pub delta_x : N
  pub delta_y : N

-- The options of the constructor, and the addition of deltas.
pub record Host (E N : Type 0) : Type 0 where
  pub send : String → E → E × Bool
  pub encode_wheel : Deltas N → Builder E
  pub add : N → N → N

pub record UrgentItem (E : Type 0) : Type 0 where
  pub build : Builder E
  pub encoded : Option String

pub record InputSender (E N : Type 0) : Type 0 where
  pub latest_move : Option (Builder E)
  pub move_timer : Bool
  pub pending_wheel : Option (Deltas N)
  pub wheel_timer : Bool
  pub urgent_queue : List (UrgentItem E)
  pub retry_timer : Bool
  pub dropped_moves : ℕ
  pub sent_frames : ℕ

-- What a run of the loop of `flushUrgent` leaves: the environment, the queue, the texts that went
-- out, the builders that returned a text, each with it, and whether a builder threw.
pub record Flushed (E : Type 0) : Type 0 where
  pub env : E
  pub queue : List (UrgentItem E)
  pub delivered : List String
  pub built : List (Builder E × String)
  pub thrown : Bool

module _ {E N : Type 0} (host : Host E N) where
  -- A round behind the encoding of the head of the queue.
  unfoldable pub send_head :
      UrgentItem E → String → List (UrgentItem E) → (E → Flushed E) → E → Flushed E
  send_head item raw rest next env =
      if str_eq raw ""
      then next env
      else if (host.send raw env).1
      then (let r = next (host.send raw env).0 in record r { delivered = raw ∷ r.delivered })
      else record {
        env = (host.send raw env).0;
        queue = record item { encoded = some raw } ∷ rest;
        delivered = [];
        built = [];
        thrown = false;
      }

  -- A round that encodes the head of the queue; where that throws, the head stays as it is.
  unfoldable pub encode_head :
      UrgentItem E → List (UrgentItem E) → (E → Flushed E) → E × Option String → Flushed E
  unfolding send_head
  encode_head item rest next (env, none) = record {
    env = env;
    queue = item ∷ rest;
    delivered = [];
    built = [];
    thrown = true;
  }
  encode_head item rest next (env, some raw) =
      let r = send_head item raw rest next env in record r { built = (item.build, raw) ∷ r.built }

  -- The loop of `flushUrgent()`: the head is encoded on its first attempt only.
  unfoldable pub flush_queue : List (UrgentItem E) → E → Flushed E
  unfolding send_head encode_head
  flush_queue [] env = record { env = env; queue = []; delivered = []; built = []; thrown = false }
  flush_queue (item ∷ rest) env =
      let next = λ (e : E). flush_queue rest e in
      elim item.encoded [
        | some raw ↦ send_head item raw rest next env
        | none ↦ encode_head item rest next (item.build env)
      ]

  -- `flushUrgent()`: what is left waits for a retry, which is not set where a builder has thrown.
  unfoldable pub flush_urgent : InputSender E N → E → InputSender E N × Flushed E
  unfolding flush_queue
  flush_urgent s env =
      let r = flush_queue s.urgent_queue env in
      (
        record s {
          urgent_queue = r.queue;
          sent_frames = s.sent_frames + length r.delivered;
          retry_timer =
              if r.thrown
              then s.retry_timer
              else elim r.queue [ [] ↦ s.retry_timer | i ∷ q ↦ true ];
        },
        r,
      )

  -- `sendUrgent(build)`.
  unfoldable pub send_urgent : Builder E → InputSender E N → E → InputSender E N × Flushed E
  unfolding flush_urgent
  send_urgent build s env =
      flush_urgent
        (record s {
          urgent_queue = s.urgent_queue ++ record { build = build; encoded = none } ∷ [];
        })
        env

  -- The callback of the retry timer.
  unfoldable pub retry : InputSender E N → E → InputSender E N × Flushed E
  unfolding flush_urgent
  retry s env = flush_urgent (record s { retry_timer = false }) env

  -- `sendMove(build)`: the latest one stands.
  unfoldable pub send_move : Builder E → InputSender E N → InputSender E N
  send_move build s = record s { latest_move = some build; move_timer = true }

  -- What an encoder made goes to the transport: the sender where there is no text, or the encoder
  -- throws, the sender where the text goes out, and the sender where it does not. The flag says
  -- whether the encoder threw.
  unfoldable pub pass_on :
      (skipped passed kept : InputSender E N) → E × Option String → InputSender E N × E × Bool
  pass_on skipped passed kept (env, none) = (skipped, env, true)
  pass_on skipped passed kept (env, some raw) =
      if str_eq raw ""
      then (skipped, env, false)
      else if (host.send raw env).1
      then (passed, (host.send raw env).0, false)
      else (kept, (host.send raw env).0, false)

  -- `flushMove()`: a move that cannot go out is dropped.
  unfoldable pub flush_move : InputSender E N → E → InputSender E N × E × Bool
  unfolding pass_on
  flush_move s env = elim s.latest_move [
    | none ↦ (s, env, false)
    | some build ↦
        let s' = record s { latest_move = none } in
        pass_on s' (record s' { sent_frames = s.sent_frames + 1 })
          (record s' { dropped_moves = s.dropped_moves + 1 }) (build env)
  ]

  -- The callback of the move timer.
  unfoldable pub move_due : InputSender E N → E → InputSender E N × E × Bool
  unfolding flush_move
  move_due s env = flush_move (record s { move_timer = false }) env

  -- `sendWheel(delta)`: the deltas add up, the position is the latest.
  unfoldable pub send_wheel : Deltas N → InputSender E N → InputSender E N
  send_wheel d s = record s {
    pending_wheel = elim s.pending_wheel [
      | none ↦ some d
      | some p ↦ some (record d {
        delta_x = host.add p.delta_x d.delta_x;
        delta_y = host.add p.delta_y d.delta_y;
      })
    ];
    wheel_timer = true;
  }

  -- `flushWheel()`: deltas that cannot go out are kept.
  unfoldable pub flush_wheel : InputSender E N → E → InputSender E N × E × Bool
  unfolding pass_on
  flush_wheel s env = elim s.pending_wheel [
    | none ↦ (s, env, false)
    | some p ↦
        let s' = record s { pending_wheel = none } in
        pass_on s' (record s' { sent_frames = s.sent_frames + 1 }) s (host.encode_wheel p env)
  ]

  -- The callback of the wheel timer.
  unfoldable pub wheel_due : InputSender E N → E → InputSender E N × E × Bool
  unfolding flush_wheel
  wheel_due s env = flush_wheel (record s { wheel_timer = false }) env

module _ {E N : Type 0} where
  -- `dispose()`.
  unfoldable pub dispose : InputSender E N → InputSender E N
  dispose s = record s { move_timer = false; wheel_timer = false; retry_timer = false }

  -- `reset()`.
  unfoldable pub reset : InputSender E N → InputSender E N
  unfolding dispose
  reset s = record (dispose s) { latest_move = none; pending_wheel = none; urgent_queue = [] }

  abbrev pub new_sender : InputSender E N
  new_sender = record {
    latest_move = none;
    move_timer = false;
    pending_wheel = none;
    wheel_timer = false;
    urgent_queue = [];
    retry_timer = false;
    dropped_moves = 0;
    sent_frames = 0;
  }
