-- ===== src/Extension/SessionState/FailClosed.antt =====
-- Every failure path closes the gate for remote input, and only one event opens it.
use remotetab.Prelude.{
  ℕ, Bool, true, false, none, some, ◌≡◌, refl, List, [], ◌∷◌, ◌++◌, All, arith, Option-cases, inl,
  inr,
}
use remotetab.Extension.SessionState.{
  SessionState, SessionError, SessionEvent, idle, stopping, initial_state, transition,
  is_input_allowed, reconcile_after_restart, on_enable, on_capture_starting, on_capture_active,
  on_capture_failed, on_remote_active, on_stop, on_stopped, on_fail,
}

pub run : SessionState → List SessionEvent → SessionState
run s [] = s
run s (e ∷ es) = run (transition s e) es

-- The events that end remote mode.
abbrev pub ends : SessionEvent → Bool
ends (on_capture_failed c m t) = true
ends (on_stop r t) = true
ends (on_stopped t) = true
ends (on_fail c m t) = true
ends _ = false

abbrev pub activates : SessionEvent → Bool
activates (on_remote_active t) = true
activates _ = false

transition-ends :
    (s : SessionState) (e : SessionEvent)
    → ends e ≡ true
    → is_input_allowed (transition s e).phase ≡ false
unfolding transition is_input_allowed
transition-ends s (on_stopped t) h = refl
transition-ends s _ h = ground arith

transition_inactive :
    (s : SessionState) (e : SessionEvent)
    → activates e ≡ false
    → is_input_allowed s.phase ≡ false
    → is_input_allowed (transition s e).phase ≡ false
unfolding transition is_input_allowed
transition_inactive s (on_enable tab t) h k = refl
transition_inactive s _ h k = ground arith

run_inactive :
    (s : SessionState) (es : List SessionEvent)
    → All (λ e. activates e ≡ false) es
    → is_input_allowed s.phase ≡ false
    → is_input_allowed (run s es).phase ≡ false
unfolding run
run_inactive s [] a h = h
run_inactive s (e ∷ es) (n, a) h = run_inactive (transition s e) es a (transition_inactive s e n h)

-- Once remote mode has been stopped, or has failed in any way, no input is allowed until the
-- session is reported active anew, whatever else happens in between.
pub run-ends :
    (s : SessionState) (before after : List SessionEvent) (e : SessionEvent)
    → ends e ≡ true
    → All (λ e. activates e ≡ false) after
    → is_input_allowed (run s (before ++ e ∷ after)).phase ≡ false
unfolding run
run-ends s [] after e h a = run_inactive (transition s e) after a (transition-ends s e h)
run-ends s (b ∷ before) after e h a = run-ends (transition s b) before after e h a

-- An idle session holds no tab, and an error is shown only while the session stops.
pub record IsTidy (s : SessionState) : Type 0 where
  pub idle_free : s.phase ≡ idle → s.target_tab_id ≡ none
  pub error_stops : (e : SessionError) → s.error ≡ some e → s.phase ≡ stopping

transition-IsTidy : (s : SessionState) (e : SessionEvent) → IsTidy s → IsTidy (transition s e)
unfolding transition
transition-IsTidy s (on_enable tab t) h = record { idle_free = λ e. cc; error_stops = λ x e. cc }
transition-IsTidy s (on_capture_starting t) h = record {
  idle_free = h.idle_free;
  error_stops = λ x e. cc;
}
transition-IsTidy s (on_capture_active t) h = record {
  idle_free = h.idle_free;
  error_stops = λ x e. cc;
}
transition-IsTidy s (on_stopped t) h = record { idle_free = λ e. refl; error_stops = λ x e. cc }
transition-IsTidy s (on_capture_failed c m t) h = record {
  idle_free = λ e. cc;
  error_stops = λ x e. refl;
}
transition-IsTidy s (on_fail c m t) h = record { idle_free = λ e. cc; error_stops = λ x e. refl }
transition-IsTidy s _ h = record { idle_free = λ e. cc; error_stops = λ x e. cc }

run-IsTidy_from : (s : SessionState) (es : List SessionEvent) → IsTidy s → IsTidy (run s es)
unfolding run
run-IsTidy_from s [] h = h
run-IsTidy_from s (e ∷ es) h = run-IsTidy_from (transition s e) es (transition-IsTidy s e h)

-- From the initial state, over any events: an idle session has no target tab, and an error stands
-- only in a session that is stopping.
pub run-IsTidy : (es : List SessionEvent) → IsTidy (run initial_state es)
run-IsTidy es =
    run-IsTidy_from initial_state es (record { idle_free = λ e. refl; error_stops = λ x e. cc })

reconcile_tidy :
    (s : SessionState) (now_ms : ℕ)
    → IsTidy s
    → let r = reconcile_after_restart s now_ms in
      (r.phase ≡ idle)
      × (r.target_tab_id ≡ none)
      × (r.error ≡ none)
      × (is_input_allowed r.phase ≡ false)
unfolding reconcile_after_restart is_input_allowed
reconcile_tidy s now_ms h = elim (Option-cases s.error) [
  | inl e ↦ ground (arith, h.idle_free)
  | inr (x, e) ↦ ground (arith, h.error_stops x e)
]

-- A session that is read back after the service worker was restarted is idle, with no tab, no
-- error and no input, whatever events had led to it.
pub reconcile_after_restart-idle :
    (es : List SessionEvent) (now_ms : ℕ)
    → let s = reconcile_after_restart (run initial_state es) now_ms in
      (s.phase ≡ idle)
      × (s.target_tab_id ≡ none)
      × (s.error ≡ none)
      × (is_input_allowed s.phase ≡ false)
reconcile_after_restart-idle es now_ms =
    reconcile_tidy (run initial_state es) now_ms (run-IsTidy es)
