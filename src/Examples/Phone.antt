-- ===== src/Examples/Phone.antt =====
-- The theorems about the phone's input at concrete inputs.
use remotetab.Prelude.{
  ℕ, Bool, not, ◌+◌, ◌-◌, true, false, List, [], ◌∷◌, ◌≡◌, refl, arith, All, leb, ltb,
  if◌then◌else◌, none,
}
use remotetab.MobileWeb.Keyboard.{split_text_chunks}
use remotetab.MobileWeb.Keyboard.Chunks.{
  join, is_well_formed, is_text, split_text_chunks-is_text, join-split_text_chunks,
}
use remotetab.MobileWeb.InputSender.{Host}
use remotetab.MobileWeb.InputSender.Runs.{
  SenderEvent, sends_urgent, retries, sends_move, moves, wheels, sends_wheel, changes,
  new_sender_session, run, InOrder, run-InOrder,
}
use remotetab.MobileWeb.Gesture.{
  pointer, TouchPoint, tap, nothing, GestureClassifier, pointer_down, up, tap_max_ms, is_second,
}
use remotetab.MobileWeb.Gesture.Taps as Touch
use remotetab.MobileWeb.Gesture.Normalized.{touch-normalized}
use remotetab.Prelude.{some}
use remotetab.MobileWeb.TouchBridge.{
  BridgeOptions, TouchBridge, TouchEvent, new_bridge, set_channel_open, downs, ups, cancels,
}
use remotetab.MobileWeb.TouchBridge as Bridge
use remotetab.MobileWeb.TouchBridge.Shut.{IsShut, run-IsShut}
use remotetab.MobileWeb.Keyboard.{KeyInput}
use remotetab.MobileWeb.KeyboardBridge.{
  KeyboardEvent, KeyCall, inserts, chunk_size, send_text, send_all, sends_text, insert_text,
  key_downs, before_inputs, composition_starts, composition_ends,
}
use remotetab.MobileWeb.KeyboardBridge as Keys

abbrev enter : KeyInput
enter = record {
  key = "Enter";
  code = "Enter";
  ctrl_key = false;
  alt_key = false;
  shift_key = false;
  meta_key = false;
}

-- A letter, a surrogate pair and a letter.
abbrev units : List ℕ
units = 97 ∷ 55357 ∷ 56832 ∷ 98 ∷ []

split_text_chunks-is_text_example : All (λ c. is_text 2 c ≡ true) (split_text_chunks 2 units)
unfolding is_well_formed
split_text_chunks-is_text_example = split_text_chunks-is_text 2 units (omega arith) refl

join-split_text_chunks_example : join (split_text_chunks 2 units) ≡ units
join-split_text_chunks_example = join-split_text_chunks 2 units (omega arith)

-- A transport that takes as many frames as its environment says.
abbrev host : Host ℕ ℕ
host = record {
  send = λ text free. (free - 1, ltb 0 free);
  encode_wheel = λ d free. (free, some "wheel");
  add = λ m n. m + n;
}

abbrev presses : List (SenderEvent ℕ ℕ)
presses =
    sends_urgent (λ free. (free, some "down"))
    ∷ sends_urgent (λ free. (free, some "up"))
    ∷ sends_move (λ free. (free, some "move"))
    ∷ moves
    ∷ changes (λ free. free + 2)
    ∷ sends_wheel (record { x = 1; y = 1; delta_x = 0; delta_y = 5 })
    ∷ wheels
    ∷ retries
    -- An encoder that throws, and one behind it.
    ∷ sends_urgent (λ free. (free, none))
    ∷ sends_urgent (λ free. (free, some "down"))
    ∷ []

run-InOrder_example : InOrder host (run host (new_sender_session host 1) presses)
run-InOrder_example = run-InOrder host 1 presses

abbrev classifier : GestureClassifier
classifier = record {
  down_point = none;
  last = none;
  dragged = false;
  last_tap = none;
  mode = pointer;
}

abbrev corner : TouchPoint
corner = record { x = 0; y = 0; t = 1000 }

abbrev beyond : TouchPoint
beyond = record { x = 90; y = 0; t = 1040 }

abbrev middle : TouchPoint
middle = record { x = 5; y = 4; t = 1080 }

touch-outcome_example :
    (up 10 middle (Touch.moves 10 (beyond ∷ []) (pointer_down corner classifier))).1
    ≡ Touch.outcome 10 corner middle (beyond ∷ []) none
touch-outcome_example = Touch.touch-outcome 10 corner middle (beyond ∷ []) classifier refl

-- Fractions in tenths: the whole way across the video is still a tap.
abbrev across : TouchPoint
across = record { x = 10; y = 10; t = 1200 }

touch-normalized_example :
    (up 10 across (Touch.moves 10 (middle ∷ []) (pointer_down corner classifier))).1 ≡ (
      if leb (1200 - 1000) tap_max_ms
      then tap across (if is_second 10 across none then 2 else 1)
      else nothing)
touch-normalized_example =
    touch-normalized 10 corner across (middle ∷ []) classifier refl (omega arith, omega arith)
      (omega arith, omega arith) ((omega arith, omega arith), tt)

-- A bridge on the transport above, with a tap that waits to be sent.
abbrev bridge_options : BridgeOptions ℕ ℕ
bridge_options = record {
  host = host;
  unit = 10;
  encode_pointer_move = λ p free. (free, some "move");
  encode_pointer_down = λ p clicks free. (free, some "down");
  encode_pointer_up = λ p clicks free. (free, some "up");
  position = λ n. n;
  scaled = λ d. d.to;
}

abbrev tapped : TouchBridge ℕ ℕ
tapped =
    (Bridge.run bridge_options (set_channel_open true (new_bridge pointer)) 0
      (downs (some corner) ∷ ups (some middle) ∷ [])).0

abbrev afterwards : List TouchEvent
afterwards = Bridge.retries ∷ downs (some corner) ∷ cancels ∷ ups (some middle) ∷ []

run-IsShut_example :
    let r = Bridge.run bridge_options (set_channel_open false tapped) 3 afterwards in
    IsShut r.0 × (r.1 ≡ 3)
run-IsShut_example = run-IsShut bridge_options tapped 3 afterwards

-- A letter, a composition with a key in it, and Enter.
abbrev typing : List KeyboardEvent
typing =
    before_inputs insert_text (some (104 ∷ [])) false
    ∷ composition_starts
    ∷ key_downs enter true
    ∷ composition_ends units
    ∷ key_downs enter false
    ∷ []

-- A sender whose encoder throws on a text that the schema refuses; its state counts the calls.
abbrev strict : KeyCall → ℕ → ℕ × Bool
strict (inserts chunk) n = (n + 1, not (is_text chunk_size chunk))
strict _ n = (n + 1, false)

-- A text with a lone surrogate throws, and a text behind it is queued by its own handler.
lone_surrogate_test :
    let r =
      (Keys.run strict false 0 (sends_text (97 ∷ 55357 ∷ []) ∷ sends_text (98 ∷ []) ∷ [])).1 in
    (r.calls ≡ inserts (97 ∷ 55357 ∷ []) ∷ inserts (98 ∷ []) ∷ []) × (r.thrown ≡ true)
unfolding Keys.run Keys.handle send_text send_all split_text_chunks is_well_formed
lone_surrogate_test = (refl, refl)
