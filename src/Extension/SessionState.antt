-- ===== src/Extension/SessionState.antt =====
-- apps/extension/src/session-state.ts.
pub mod FailClosed
use remotetab.Prelude.{
  ℕ, String, Bool, true, false, not, Option, none, some, List, [], ◌∷◌, if◌then◌else◌,
}

pub data SessionPhase : Type 0 where
  idle enabled signaling peer_connected authenticating remote_active reconnecting stopping :
      SessionPhase

pub data CapturePhase : Type 0 where
  capture_idle capture_starting capture_active capture_error : CapturePhase

pub record SessionError : Type 0 where
  pub code : String
  pub message : String

pub record SessionState : Type 0 where
  pub phase : SessionPhase
  pub capture : CapturePhase
  pub target_tab_id : Option ℕ
  pub error : Option SessionError
  pub since_ms : ℕ

abbrev pub initial_state : SessionState
initial_state = record {
  phase = idle;
  capture = capture_idle;
  target_tab_id = none;
  error = none;
  since_ms = 0;
}

pub data StopReason : Type 0 where
  user error target_closed protocol_violation : StopReason

pub data SessionEvent : Type 0 where
  on_enable : (tab_id now_ms : ℕ) → SessionEvent
  on_capture_starting on_capture_active : (now_ms : ℕ) → SessionEvent
  on_capture_failed : (code message : String) (now_ms : ℕ) → SessionEvent
  on_signaling on_peer_connected on_authenticating : (now_ms : ℕ) → SessionEvent
  on_remote_active on_reconnecting : (now_ms : ℕ) → SessionEvent
  on_stop : StopReason → (now_ms : ℕ) → SessionEvent
  on_stopped : (now_ms : ℕ) → SessionEvent
  on_fail : (code message : String) (now_ms : ℕ) → SessionEvent

unfoldable pub is_remote_mode_active : SessionPhase → Bool
is_remote_mode_active idle = false
is_remote_mode_active _ = true

unfoldable pub is_input_allowed : SessionPhase → Bool
is_input_allowed remote_active = true
is_input_allowed _ = false

-- `{ ...state, phase, error: null, sinceMs }`.
abbrev to_phase : SessionState → SessionPhase → ℕ → SessionState
to_phase s phase now_ms = record s { phase = phase; error = none; since_ms = now_ms }

unfoldable pub transition : SessionState → SessionEvent → SessionState
transition s (on_enable tab_id now_ms) = record {
  phase = enabled;
  capture = capture_starting;
  target_tab_id = some tab_id;
  error = none;
  since_ms = now_ms;
}
transition s (on_capture_starting now_ms) = record s {
  capture = capture_starting;
  error = none;
  since_ms = now_ms;
}
transition s (on_capture_active now_ms) = record s {
  capture = capture_active;
  error = none;
  since_ms = now_ms;
}
transition s (on_capture_failed code message now_ms) = record s {
  phase = stopping;
  capture = capture_error;
  error = some (record { code = code; message = message });
  since_ms = now_ms;
}
transition s (on_signaling now_ms) = to_phase s signaling now_ms
transition s (on_peer_connected now_ms) = to_phase s peer_connected now_ms
transition s (on_authenticating now_ms) = to_phase s authenticating now_ms
transition s (on_remote_active now_ms) = to_phase s remote_active now_ms
transition s (on_reconnecting now_ms) = to_phase s reconnecting now_ms
transition s (on_stop reason now_ms) = to_phase s stopping now_ms
transition s (on_stopped now_ms) = record {
  phase = idle;
  capture = capture_idle;
  target_tab_id = none;
  error = none;
  since_ms = now_ms;
}
transition s (on_fail code message now_ms) = record s {
  phase = stopping;
  error = some (record { code = code; message = message });
  since_ms = now_ms;
}

unfoldable pub reconcile_after_restart : SessionState → ℕ → SessionState
unfolding is_remote_mode_active transition
reconcile_after_restart s now_ms =
    if is_remote_mode_active s.phase then transition s (on_stopped now_ms) else s
