-- ===== src/Extension/InputService/Gate.antt =====
-- When a frame of the phone reaches the debugger.
use remotetab.Prelude.{
  ℕ, ◌+◌, String, true, false, Option, none, some, [], ◌∷◌, ◌≡◌, ◌⊎◌, inl, inr, refl, arith,
  Option-cases, Bool-cases, is_none, str_eq, eq_iff, ap, ◌∙◌,
}
use remotetab.Protocol.Errors.{ErrorCode, ParseResult, ok, err}
use remotetab.Protocol.Sequence.{SequenceGuard, accepted, check}
use remotetab.Protocol.Sequence.Runs.{check-accepted_iff}
use remotetab.Protocol.Control.{
  ControlMessage, ControlFrame, accept_control_frame, accept_sequence, pointer_move, pointer_down,
  pointer_up, wheel, key_down, key_up, text_insert, viewport_request, viewport_sync, peer_challenge,
  peer_proof, session_stop,
}
use remotetab.Extension.SessionState.{SessionPhase, is_input_allowed}
use remotetab.Extension.InputService.{
  InputService, AdapterAnswer, Handled, returned, threw, act, gate, handle_message, handle_accepted,
  with_guard, handle_frame, is_session,
}

-- What stands behind a call of the debugger: a frame of this very session under the next number,
-- in an active session with a tab and an attached debugger.
pub record IsDelivery {F : Type 0} (decode : String → ParseResult (ControlFrame F))
    (s : InputService) (session_id raw : String) (phase : SessionPhase) (target : Option ℕ)
    (handled : Handled F) : Type 0 where
  pub guard : SequenceGuard
  pub frame : ControlFrame F
  pub armed_for : s.session_id ≡ some session_id
  pub guarded : s.guard ≡ some guard
  pub decoded : decode raw ≡ ok frame
  pub addressed : frame.session_id ≡ session_id
  pub next : frame.seq ≡ guard.last_seq + 1
  pub counted : handled.service.guard ≡ some (record { last_seq = frame.seq })
  pub active : is_input_allowed phase ≡ true
  pub has_tab : is_none target ≡ false
  pub attached : s.attached ≡ true
  pub called : handled.calls ≡ frame.message ∷ []

ParseResult-cases {ℓ} :
    {A : Type ℓ} (r : ParseResult A)
    → ((c : ErrorCode) × (reason : String) × (r ≡ err c reason)) ⊎ ((a : A) × (r ≡ ok a))
ParseResult-cases (err c reason) = inl (c, reason, refl)
ParseResult-cases (ok a) = inr (a, refl)

is_session-eq : (o : Option String) (id : String) → is_session o id ≡ true → o ≡ some id
unfolding is_session
is_session-eq none id e = absurd (ground arith)
is_session-eq (some t) id e = ap some ((eq_iff t id).0 e)

module _ {F : Type 0} where
  act-guard :
      (answer : AdapterAnswer) (s : InputService) (m : ControlMessage F)
      → ((act answer s m).service.guard ≡ s.guard)
        × (((act answer s m).calls ≡ []) ⊎ ((act answer s m).calls ≡ m ∷ []))
  unfolding act
  act-guard answer s (pointer_move x y) = (refl, inr refl)
  act-guard answer s (pointer_down p) = (refl, inr refl)
  act-guard answer s (pointer_up p) = (refl, inr refl)
  act-guard answer s (wheel p) = (refl, inr refl)
  act-guard answer s (key_down p) = (refl, inr refl)
  act-guard answer s (key_up p) = (refl, inr refl)
  act-guard answer s (text_insert text) = (refl, inr refl)
  act-guard returned s viewport_request = (refl, inr refl)
  act-guard (threw message) s viewport_request = (refl, inr refl)
  act-guard answer s (viewport_sync w h d) = (refl, inl refl)
  act-guard answer s (peer_challenge n i) = (refl, inl refl)
  act-guard answer s (peer_proof d f g) = (refl, inl refl)
  act-guard answer s (session_stop r) = (refl, inl refl)

  module _ (answer : AdapterAnswer) (phase : SessionPhase) (target : Option ℕ) where
    IsOpen : InputService → ControlMessage F → Handled F → Type 0
    IsOpen s m h =
        (is_input_allowed phase ≡ true)
        × (is_none target ≡ false)
        × (s.attached ≡ true)
        × (h.service.guard ≡ s.guard)
        × (h.calls ≡ m ∷ [])

    gate-IsOpen :
        (s : InputService) (m : ControlMessage F)
        → ((gate answer s phase target m).calls ≡ []) ⊎ IsOpen s m (gate answer s phase target m)
    unfolding gate IsOpen
    gate-IsOpen s m = elim (Bool-cases (is_input_allowed phase)) [
      | inr p ↦ inl (ground arith)
      | inl p ↦ elim (Bool-cases (is_none target)) [
        | inl t ↦ inl (ground arith)
        | inr t ↦ elim (Bool-cases s.attached) [
          | inr a ↦ inl (ground arith)
          | inl a ↦
              let (g, c) = act-guard answer s m in
              elim c [
                | inl none_called ↦ inl (ground arith)
                | inr called ↦ inr (p, t, a, ground arith, ground arith)
              ]
        ]
      ]
    ]

    handle_message-IsOpen :
        (outcome : Option String) (s : InputService) (m : ControlMessage F)
        → let h = handle_message outcome answer s phase target m in (h.calls ≡ []) ⊎ IsOpen s m h
    unfolding handle_message
    handle_message-IsOpen outcome s (pointer_move x y) = gate-IsOpen s (pointer_move x y)
    handle_message-IsOpen outcome s (pointer_down p) = gate-IsOpen s (pointer_down p)
    handle_message-IsOpen outcome s (pointer_up p) = gate-IsOpen s (pointer_up p)
    handle_message-IsOpen outcome s (wheel p) = gate-IsOpen s (wheel p)
    handle_message-IsOpen outcome s (key_down p) = gate-IsOpen s (key_down p)
    handle_message-IsOpen outcome s (key_up p) = gate-IsOpen s (key_up p)
    handle_message-IsOpen outcome s (text_insert text) = gate-IsOpen s (text_insert text)
    handle_message-IsOpen outcome s viewport_request = gate-IsOpen s viewport_request
    handle_message-IsOpen outcome s (viewport_sync w h d) = gate-IsOpen s (viewport_sync w h d)
    handle_message-IsOpen outcome s (peer_challenge n i) = inl refl
    handle_message-IsOpen outcome s (peer_proof d f g) = inl refl
    handle_message-IsOpen outcome s (session_stop r) = gate-IsOpen s (session_stop r)

  -- An accepted frame is well addressed and carries the next number.
  accept_control_frame-ok :
      (decode : String → ParseResult (ControlFrame F)) (raw : String) (g : SequenceGuard)
      (id : String) (frame : ControlFrame F)
      → (accept_control_frame decode raw g id).1 ≡ ok frame
      → (decode raw ≡ ok frame)
        × (frame.session_id ≡ id)
        × (frame.seq ≡ g.last_seq + 1)
        × ((accept_control_frame decode raw g id).0 ≡ record { last_seq = frame.seq })
  unfolding accept_control_frame accept_sequence check
  accept_control_frame-ok decode raw g id frame e = elim (ParseResult-cases (decode raw)) [
    | inl (c, reason, d) ↦ absurd (ground arith)
    | inr (f, d) ↦ elim (Bool-cases (str_eq f.session_id id)) [
      | inr n ↦ absurd (ground arith)
      | inl y ↦
          let c : (check g f.seq).1 ≡ accepted = ground arith in
          let q : f ≡ frame = ground arith in
          let k = (check-accepted_iff g f.seq).0 c in
          (ground arith, ground (arith, eq_iff f.session_id id), ground arith, ground arith)
    ]
  ]

  -- `handleFrame` calls the debugger at most once, with the message of a frame of the session
  -- under the next number of the guard, which it has then counted; and only in an active session
  -- with a tab and an attached debugger. Else nothing is called.
  pub handle_frame-IsDelivery :
      (decode : String → ParseResult (ControlFrame F)) (outcome : Option String)
      (answer : AdapterAnswer) (s : InputService) (id raw : String) (phase : SessionPhase)
      (target : Option ℕ)
      → let h = handle_frame decode outcome answer s id raw phase target in
        (h.calls ≡ []) ⊎ IsDelivery decode s id raw phase target h
  unfolding handle_frame with_guard handle_accepted IsOpen
  handle_frame-IsDelivery decode outcome answer s id raw phase target =
      elim (Bool-cases (is_session s.session_id id)) [
        | inr n ↦ inl (ground arith)
        | inl y ↦ elim (Option-cases s.guard) [
          | inl n ↦ inl (ground arith)
          | inr (g, e) ↦ elim (ParseResult-cases (accept_control_frame decode raw g id).1) [
            | inl (c, reason, r) ↦ inl (ground arith)
            | inr (f, r) ↦
                let (d, i, n, c) = accept_control_frame-ok decode raw g id f r in
                let t : InputService = record s { guard = some (record { last_seq = f.seq }) } in
                let k : handle_frame decode outcome answer s id raw phase target
                    ≡ handle_message outcome answer t phase target f.message =
                  ground (arith, c) in
                elim (handle_message-IsOpen answer phase target outcome t f.message) [
                  | inl none_called ↦ inl (ap (λ h. h.calls) k ∙ none_called)
                  | inr passed ↦ inr (record {
                    guard = g;
                    frame = f;
                    armed_for = is_session-eq s.session_id id y;
                    guarded = e;
                    decoded = d;
                    addressed = i;
                    next = n;
                    counted = ap (λ h. h.service.guard) k ∙ passed.3;
                    active = passed.0;
                    has_tab = passed.1;
                    attached = passed.2;
                    called = ap (λ h. h.calls) k ∙ passed.4;
                  })
                ]
          ]
        ]
      ]
