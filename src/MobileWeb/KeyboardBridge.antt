-- ===== src/MobileWeb/KeyboardBridge.antt =====
-- `KeyboardBridge` of apps/mobile-web/src/lib/keyboard-bridge.ts: what the events of its text field
-- queue in the sender, in order. Texts are lists of UTF-16 code units. `sendUrgent` throws where an
-- encoder does, and that ends the handler: the sender is an argument, with its state.
pub mod Typed
use remotetab.Prelude.{
  ℕ, String, Bool, true, false, ◌||◌, Option, none, some, List, [], ◌∷◌, ◌++◌, map, if◌then◌else◌,
}
use remotetab.Protocol.Control.{RemoteKey}
use remotetab.MobileWeb.Keyboard.{KeyInput, map_control_key, split_text_chunks}

-- What is passed to `sendUrgent`.
pub data KeyCall : Type 0 where
  inserts : (chunk : List ℕ) → KeyCall
  presses releases : RemoteKey → KeyCall

-- The input types that matter.
pub data InputType : Type 0 where
  insert_text insert_composition_text delete_content_backward delete_content_forward : InputType
  other_input : InputType

pub data KeyboardEvent : Type 0 where
  key_downs : KeyInput → (is_composing : Bool) → KeyboardEvent
  before_inputs : InputType → (data_text : Option (List ℕ)) → (is_composing : Bool) → KeyboardEvent
  composition_starts : KeyboardEvent
  composition_ends : (data_text : List ℕ) → KeyboardEvent
  -- Callers.
  sends_text : List ℕ → KeyboardEvent
  sends_quick_key : KeyInput → KeyboardEvent

abbrev pub chunk_size : ℕ
chunk_size = 500

-- `sendText(text)`.
unfoldable pub send_text : List ℕ → List KeyCall
send_text [] = []
send_text (c ∷ text) = map inserts (split_text_chunks chunk_size (c ∷ text))

-- `sendKey(control)`, where there is one.
unfoldable pub send_key : Option RemoteKey → List KeyCall
send_key none = []
send_key (some control) = presses control ∷ releases control ∷ []

-- A key without modifiers, as the bridge makes it.
abbrev pub plain_key : String → KeyInput
plain_key name = record {
  key = name;
  code = name;
  ctrl_key = false;
  alt_key = false;
  shift_key = false;
  meta_key = false;
}

-- `onBeforeInput(ev)` behind its guard.
unfoldable pub take_input : InputType → Option (List ℕ) → List KeyCall
unfolding send_text send_key
take_input insert_text none = []
take_input insert_text (some text) = send_text text
take_input insert_composition_text none = []
take_input insert_composition_text (some text) = send_text text
take_input delete_content_backward text = send_key (map_control_key (plain_key "Backspace"))
take_input delete_content_forward text = send_key (map_control_key (plain_key "Delete"))
take_input other_input text = []

-- An event, in a bridge that is composing or not: the calls that its handler makes if none throws.
unfoldable pub handle : Bool → KeyboardEvent → Bool × List KeyCall
unfolding take_input send_key send_text
handle composing (key_downs e is_composing) =
    (composing, if composing || is_composing then [] else send_key (map_control_key e))
handle composing (before_inputs kind text is_composing) =
    (composing, if composing || is_composing then [] else take_input kind text)
handle composing composition_starts = (true, [])
handle composing (composition_ends text) = (false, send_text text)
handle composing (sends_text text) = (composing, send_text text)
handle composing (sends_quick_key e) = (composing, send_key (map_control_key e))

-- What a handler leaves: the state of the sender, the calls that were made, and whether the last of
-- them threw. A call that throws has put its item in the queue before.
pub record Sent (S : Type 0) : Type 0 where
  pub env : S
  pub calls : List KeyCall
  pub thrown : Bool

module _ {S : Type 0} (send_urgent : KeyCall → S → S × Bool) where
  -- The calls of a handler, one after the other, up to one that throws.
  unfoldable pub send_all : List KeyCall → S → Sent S
  send_all [] env = record { env = env; calls = []; thrown = false }
  send_all (c ∷ cs) env =
      let r = send_urgent c env in
      let rest = send_all cs r.0 in
      if r.1
      then record { env = r.0; calls = c ∷ []; thrown = true }
      else record rest { calls = c ∷ rest.calls }

  -- The events of a field, one after the other; a handler that throws does not stop the next.
  unfoldable pub run : Bool → S → List KeyboardEvent → Bool × Sent S
  unfolding handle send_all
  run composing env [] = (composing, record { env = env; calls = []; thrown = false })
  run composing env (e ∷ es) =
      let h = handle composing e in
      let r = send_all h.1 env in
      let rest = run h.0 r.env es in
      (
        rest.0,
        record {
          env = rest.1.env;
          calls = r.calls ++ rest.1.calls;
          thrown = r.thrown || rest.1.thrown;
        },
      )
