-- ===== src/MobileWeb/TouchBridge.antt =====
-- `TouchBridge` of apps/mobile-web/src/lib/touch-bridge.ts: the classifier and the sender behind the
-- events of one element. The point that `clientToVideoPoint` makes of an event is part of the event;
-- the session and the transport are an environment `E`, as for the sender.
pub mod Shut
use remotetab.Prelude.{ℕ, Bool, true, false, Option, none, some, List, [], ◌∷◌, if◌then◌else◌}
use remotetab.MobileWeb.InputSender.{
  Builder, Deltas, Host, InputSender, new_sender, flush_move, move_due, retry, send_move,
  send_urgent, send_wheel, wheel_due,
}
use remotetab.MobileWeb.InputSender as InputSender
use remotetab.MobileWeb.Gesture.{
  Mode, TouchPoint, Difference, GestureEvent, tap, drag_start, drag_move, drag_end, wheel, nothing,
  GestureClassifier, move, pointer_down, set_mode, up,
}
use remotetab.MobileWeb.Gesture as Gesture

-- The sender's options, the encoders of the session, and the scale of wheel deltas.
pub record BridgeOptions (E N : Type 0) : Type 0 where
  pub host : Host E N
  -- Units to the pixel of the classifier's thresholds.
  pub unit : ℕ
  pub encode_pointer_move : TouchPoint → Builder E
  pub encode_pointer_down : TouchPoint → (click_count : ℕ) → Builder E
  pub encode_pointer_up : TouchPoint → (click_count : ℕ) → Builder E
  pub position : ℕ → N
  pub scaled : Difference → N

pub record TouchBridge (E N : Type 0) : Type 0 where
  pub classifier : GestureClassifier
  pub sender : InputSender E N
  pub active : Bool

pub data TouchEvent : Type 0 where
  downs moves ups : Option TouchPoint → TouchEvent
  cancels : TouchEvent
  sets_mode : Mode → TouchEvent
  -- The timers of the sender.
  retries moves_due wheels_due : TouchEvent

module _ {E N : Type 0} where
  -- The constructor.
  abbrev pub new_bridge : Mode → TouchBridge E N
  new_bridge mode = record {
    classifier = record {
      down_point = none;
      last = none;
      dragged = false;
      last_tap = none;
      mode = mode;
    };
    sender = new_sender;
    active = false;
  }

  -- `setMode(mode)`.
  unfoldable pub set_bridge_mode : Mode → TouchBridge E N → TouchBridge E N
  unfolding set_mode
  set_bridge_mode mode b = record b { classifier = set_mode mode b.classifier }

  -- `setChannelOpen(open)`.
  unfoldable pub set_channel_open : Bool → TouchBridge E N → TouchBridge E N
  unfolding InputSender.reset Gesture.reset
  set_channel_open true b = record b { active = true }
  set_channel_open false b = record b {
    active = false;
    classifier = Gesture.reset b.classifier;
    sender = InputSender.reset b.sender;
  }

  -- `onDown(ev)`.
  unfoldable pub on_down : Option TouchPoint → TouchBridge E N → TouchBridge E N
  unfolding pointer_down Gesture.reset
  on_down point b =
      if b.active
      then (elim point [
        | none ↦ record b { classifier = Gesture.reset b.classifier }
        | some p ↦ record b { classifier = pointer_down p b.classifier }
      ])
      else b

module _ {E N : Type 0} (opts : BridgeOptions E N) where
  -- `onMove(ev)` behind the classifier.
  unfoldable pub pass_move : TouchPoint → GestureEvent → InputSender E N → InputSender E N
  unfolding send_move send_wheel
  pass_move p (drag_start q) s = send_move opts.host (opts.encode_pointer_move p) s
  pass_move p (drag_move q) s = send_move opts.host (opts.encode_pointer_move p) s
  pass_move p (wheel q delta_x delta_y) s =
      send_wheel opts.host
        (record {
          x = opts.position p.x;
          y = opts.position p.y;
          delta_x = opts.scaled delta_x;
          delta_y = opts.scaled delta_y;
        })
        s
  pass_move p _ s = s

  -- `onMove(ev)`.
  unfoldable pub on_move : Option TouchPoint → TouchBridge E N → TouchBridge E N
  unfolding pass_move move
  on_move point b =
      if b.active
      then (elim point [
        | none ↦ b
        | some p ↦
            let r = move opts.unit p b.classifier in
            record b { classifier = r.0; sender = pass_move p r.1 b.sender }
      ])
      else b

  -- `onUp(ev)` behind the classifier: a pending move goes first. Where an encoder throws,
  -- the handler ends there.
  unfoldable pub pass_up : TouchPoint → GestureEvent → InputSender E N → E → InputSender E N × E
  unfolding flush_move send_urgent
  pass_up p (tap q clicks) s env =
      let moved = flush_move opts.host s env in
      let pressed = send_urgent opts.host (opts.encode_pointer_down p clicks) moved.0 moved.1 in
      let released =
        send_urgent opts.host (opts.encode_pointer_up p clicks) pressed.0 pressed.1.env in
      if moved.2
      then (moved.0, moved.1)
      else if pressed.1.thrown
      then (pressed.0, pressed.1.env)
      else (released.0, released.1.env)
  pass_up p _ s env = (s, env)

  -- `onUp(ev)`.
  unfoldable pub on_up : Option TouchPoint → TouchBridge E N → E → TouchBridge E N × E
  unfolding pass_up up
  on_up point b env =
      if b.active
      then (elim point [
        | none ↦ (b, env)
        | some p ↦
            let r = up opts.unit p b.classifier in
            let s = pass_up p r.1 b.sender env in (record b { classifier = r.0; sender = s.0 }, s.1)
      ])
      else (b, env)

  -- An event; a timer that is not set does not fire.
  unfoldable pub handle : TouchBridge E N → E → TouchEvent → TouchBridge E N × E
  unfolding on_down on_move on_up set_bridge_mode Gesture.reset retry move_due wheel_due
  handle b env (downs point) = (on_down point b, env)
  handle b env (moves point) = (on_move point b, env)
  handle b env (ups point) = on_up point b env
  handle b env cancels = (record b { classifier = Gesture.reset b.classifier }, env)
  handle b env (sets_mode mode) = (set_bridge_mode mode b, env)
  handle b env retries =
      if b.sender.retry_timer
      then (let r = retry opts.host b.sender env in (record b { sender = r.0 }, r.1.env))
      else (b, env)
  handle b env moves_due =
      if b.sender.move_timer
      then (let r = move_due opts.host b.sender env in (record b { sender = r.0 }, r.1))
      else (b, env)
  handle b env wheels_due =
      if b.sender.wheel_timer
      then (let r = wheel_due opts.host b.sender env in (record b { sender = r.0 }, r.1))
      else (b, env)

  unfoldable pub run : TouchBridge E N → E → List TouchEvent → TouchBridge E N × E
  unfolding handle
  run b env [] = (b, env)
  run b env (e ∷ es) = run (handle b env e).0 (handle b env e).1 es
