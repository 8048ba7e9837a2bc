-- ===== src/Extension/InputService.antt =====
-- `InputService` of apps/extension/src/input-service.ts: the gate between the frames of the phone
-- and the debugger adapter. The adapter is the caller's: what it answers is an argument.
pub mod Gate
use Prim.Native.String
use text.Mathlib.Text.{starts_with}
use remotetab.Prelude.{
  ℕ, ◌+◌, String, Bool, true, false, not, Option, none, some, List, [], ◌∷◌, ◌||◌, is_none, str_eq,
  if◌then◌else◌,
}
use remotetab.Protocol.Errors.{
  ErrorCode, ParseResult, ok, err, message_invalid, input_not_attached, target_tab_closed,
}
use remotetab.Protocol.Sequence.{SequenceGuard, new_guard}
use remotetab.Protocol.Control.{
  ControlMessage, ControlFrame, pointer_move, pointer_down, pointer_up, wheel, key_down, key_up,
  text_insert, viewport_request, viewport_sync, peer_challenge, peer_proof, session_stop,
  accept_control_frame,
}
use remotetab.Extension.SessionState.{SessionPhase, is_input_allowed}

pub record InputService : Type 0 where
  pub guard : Option SequenceGuard
  pub session_id : Option String
  pub attached : Bool
  pub laptop_seq : ℕ

-- What a call of the adapter comes to: it returns, or throws an error with a message.
pub data AdapterAnswer : Type 0 where
  returned : AdapterAnswer
  threw : (message : String) → AdapterAnswer

pub data InputDispatchResult : Type 0 where
  dispatched : (action : String) → InputDispatchResult
  denied : ErrorCode → InputDispatchResult

-- `begin(sessionId)`.
unfoldable pub begin : String → InputService → InputService
begin session_id s = record s {
  guard = some new_guard;
  session_id = some session_id;
  attached = false;
}

-- `stop()`; an attached debugger is detached first.
unfoldable pub stop : InputService → InputService
stop s = record s { guard = none; session_id = none; attached = false }

-- `attachTo(tabId)` when the adapter attaches: the viewport goes out under the next number.
unfoldable pub attach_to : InputService → InputService
attach_to s = record s { attached = true; laptop_seq = s.laptop_seq + 1 }

-- `start(sessionId, tabId)`.
unfoldable pub start : String → InputService → InputService
unfolding stop begin attach_to
start session_id s = attach_to (begin session_id (stop s))

-- `armed`.
unfoldable pub armed : InputService → Bool
armed s = if s.attached then not (is_none s.session_id) else false

-- The code that an adapter's error is reported under.
unfoldable pub thrown_code : String → ErrorCode
thrown_code message =
    if starts_with message "INPUT_NOT_ATTACHED" then input_not_attached else message_invalid

-- The result of an action on the tab.
unfoldable pub deliver : AdapterAnswer → String → InputDispatchResult
unfolding thrown_code
deliver returned action = dispatched action
deliver (threw message) action = denied (thrown_code message)

-- `this.sessionId === sessionId`.
unfoldable pub is_session : Option String → String → Bool
is_session none id = false
is_session (some s) id = str_eq s id

-- The action of an authentication frame: `onPeerAuth` may be absent or answer null.
unfoldable pub peer_action : Option String → String
peer_action none = "peer.failed"
peer_action (some outcome) = String.◌++◌ "peer." outcome

-- A call after which state, result and the calls of the adapter are known.
pub record Handled (F : Type 0) : Type 0 where
  pub service : InputService
  pub result : InputDispatchResult
  pub calls : List (ControlMessage F)

module _ {F : Type 0} where
  -- The `switch`: one call of the adapter, or none.
  unfoldable pub act : AdapterAnswer → InputService → ControlMessage F → Handled F
  unfolding deliver
  act answer s (pointer_move x y) = record {
    service = s;
    result = deliver answer "pointer.move";
    calls = pointer_move x y ∷ [];
  }
  act answer s (pointer_down p) = record {
    service = s;
    result = deliver answer "pointer.down";
    calls = pointer_down p ∷ [];
  }
  act answer s (pointer_up p) = record {
    service = s;
    result = deliver answer "pointer.up";
    calls = pointer_up p ∷ [];
  }
  act answer s (wheel p) = record {
    service = s;
    result = deliver answer "wheel";
    calls = wheel p ∷ [];
  }
  act answer s (key_down p) = record {
    service = s;
    result = deliver answer "key.down";
    calls = key_down p ∷ [];
  }
  act answer s (key_up p) = record {
    service = s;
    result = deliver answer "key.up";
    calls = key_up p ∷ [];
  }
  act answer s (text_insert text) = record {
    service = s;
    result = deliver answer "text.insert";
    calls = text_insert text ∷ [];
  }
  act answer s viewport_request = record {
    service = elim answer [
      | returned ↦ record s { laptop_seq = s.laptop_seq + 1 }
      | threw message ↦ s
    ];
    result = deliver answer "viewport.request";
    calls = viewport_request ∷ [];
  }
  act answer s (session_stop reason) = record {
    service = s;
    result = dispatched "session.stop";
    calls = [];
  }
  act answer s _ = record { service = s; result = denied message_invalid; calls = [] }

  -- The gate behind the authentication frames.
  unfoldable pub gate :
      AdapterAnswer → InputService → SessionPhase → Option ℕ → ControlMessage F → Handled F
  unfolding act
  gate answer s phase target m =
      if not (is_input_allowed phase)
      then record { service = s; result = denied input_not_attached; calls = [] }
      else if is_none target
      then record { service = s; result = denied target_tab_closed; calls = [] }
      else if not s.attached
      then record { service = s; result = denied input_not_attached; calls = [] }
      else act answer s m

  -- `onPeerAuth` decides the authentication frames; its outcome is an argument.
  unfoldable pub handle_message :
      Option String
      → AdapterAnswer
      → InputService
      → SessionPhase
      → Option ℕ
      → ControlMessage F
      → Handled F
  unfolding gate peer_action
  handle_message outcome answer s phase target (peer_challenge nonce id) = record {
    service = s;
    result = dispatched (peer_action outcome);
    calls = [];
  }
  handle_message outcome answer s phase target (peer_proof d f sig) = record {
    service = s;
    result = dispatched (peer_action outcome);
    calls = [];
  }
  handle_message outcome answer s phase target m = gate answer s phase target m

  -- The part of `handleFrame` behind the check of the session.
  unfoldable pub handle_accepted :
      Option String
      → AdapterAnswer
      → InputService
      → SessionPhase
      → Option ℕ
      → SequenceGuard × ParseResult (ControlFrame F)
      → Handled F
  unfolding handle_message
  handle_accepted outcome answer s phase target (g, err code reason) = record {
    service = record s { guard = some g };
    result = denied code;
    calls = [];
  }
  handle_accepted outcome answer s phase target (g, ok frame) =
      handle_message outcome answer (record s { guard = some g }) phase target frame.message

  -- The part of `handleFrame` behind the comparison of the session.
  unfoldable pub with_guard :
      (String → ParseResult (ControlFrame F))
      → Option String
      → AdapterAnswer
      → InputService
      → String
      → String
      → SessionPhase
      → Option ℕ
      → Handled F
  unfolding handle_accepted
  with_guard decode outcome answer s session_id raw phase target = elim s.guard [
    | none ↦ record { service = s; result = denied input_not_attached; calls = [] }
    | some g ↦
        handle_accepted outcome answer s phase target (accept_control_frame decode raw g session_id)
  ]

  -- `handleFrame(sessionId, raw, phase, targetTabId)`.
  unfoldable pub handle_frame :
      (String → ParseResult (ControlFrame F))
      → Option String
      → AdapterAnswer
      → InputService
      → String
      → String
      → SessionPhase
      → Option ℕ
      → Handled F
  unfolding with_guard
  handle_frame decode outcome answer s session_id raw phase target =
      if not (is_session s.session_id session_id)
      then record { service = s; result = denied input_not_attached; calls = [] }
      else with_guard decode outcome answer s session_id raw phase target
