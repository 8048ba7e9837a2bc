-- ===== src/MobileWeb/TouchBridge/Shut.antt =====
-- Input flows only while the control channel is open.
use remotetab.Prelude.{◌≡◌, refl, false, none, List, [], ◌∷◌, arith}
use remotetab.MobileWeb.InputSender.{InputSender, dispose}
use remotetab.MobileWeb.InputSender as InputSender
use remotetab.MobileWeb.Gesture.{GestureClassifier}
use remotetab.MobileWeb.TouchBridge.{
  BridgeOptions, TouchBridge, TouchEvent, downs, moves, ups, cancels, sets_mode, retries, moves_due,
  wheels_due, set_bridge_mode, set_channel_open, on_down, on_move, on_up, handle, run,
}

-- Nothing is left to be sent, now or later.
pub record IsShut {E N : Type 0} (b : TouchBridge E N) : Type 0 where
  pub inactive : b.active ≡ false
  pub no_move : b.sender.latest_move ≡ none
  pub no_wheel : b.sender.pending_wheel ≡ none
  pub no_urgent : b.sender.urgent_queue ≡ []
  pub no_move_timer : b.sender.move_timer ≡ false
  pub no_wheel_timer : b.sender.wheel_timer ≡ false
  pub no_retry_timer : b.sender.retry_timer ≡ false

module _ {E N : Type 0} (opts : BridgeOptions E N) where
  -- An event leaves a bridge that is shut as it is, but for the classifier.
  handle-IsShut :
      (b : TouchBridge E N) (env : E) (e : TouchEvent)
      → IsShut b
      → (c : GestureClassifier) × (handle opts b env e ≡ (record b { classifier = c }, env))
  unfolding handle on_down on_move on_up set_bridge_mode
  handle-IsShut b env (downs point) k = (b.classifier, ground (arith, k.inactive))
  handle-IsShut b env (moves point) k = (b.classifier, ground (arith, k.inactive))
  handle-IsShut b env (ups point) k = (b.classifier, ground (arith, k.inactive))
  handle-IsShut b env cancels k = (_, refl)
  handle-IsShut b env (sets_mode mode) k = (_, refl)
  handle-IsShut b env retries k = (b.classifier, ground (arith, k.no_retry_timer))
  handle-IsShut b env moves_due k = (b.classifier, ground (arith, k.no_move_timer))
  handle-IsShut b env wheels_due k = (b.classifier, ground (arith, k.no_wheel_timer))

  run-IsShut_from :
      (b : TouchBridge E N) (env : E) (es : List TouchEvent)
      → IsShut b
      → IsShut (run opts b env es).0 × ((run opts b env es).1 ≡ env)
  unfolding run
  run-IsShut_from b env [] k = (k, refl)
  run-IsShut_from b env (e ∷ es) k =
      let (c, q) = handle-IsShut b env e k in
      let b' : TouchBridge E N = record b { classifier = c } in
      let k' : IsShut b' = record {
        inactive = k.inactive;
        no_move = k.no_move;
        no_wheel = k.no_wheel;
        no_urgent = k.no_urgent;
        no_move_timer = k.no_move_timer;
        no_wheel_timer = k.no_wheel_timer;
        no_retry_timer = k.no_retry_timer;
      } in
      rw (run, q) (run-IsShut_from b' env es k')

  -- Once the control channel is reported closed, whatever was touched or queued before: over any
  -- touches, cancellations, mode changes and timers until it is reported open, nothing is encoded
  -- or sent, no move, wheel, button or key is left to be sent, and no timer is set.
  pub run-IsShut :
      (b : TouchBridge E N) (env : E) (es : List TouchEvent)
      → let r = run opts (set_channel_open false b) env es in IsShut r.0 × (r.1 ≡ env)
  unfolding set_channel_open InputSender.reset dispose
  run-IsShut b env es = run-IsShut_from (set_channel_open false b) env es (record {
    inactive = refl;
    no_move = refl;
    no_wheel = refl;
    no_urgent = refl;
    no_move_timer = refl;
    no_wheel_timer = refl;
    no_retry_timer = refl;
  })
