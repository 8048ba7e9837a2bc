-- ===== src/Protocol/Control/Delivery.antt =====
-- The sender of one end against the guard of the other, over a reliable ordered channel.
use remotetab.Prelude.{
  ℕ, ◌+◌, ◌≤◌, ◌≡◌, refl, ap, String, true, false, some, List, [], ◌∷◌, map, arith, length,
  Bool-cases, ltb, eq_refl, inl, inr,
}
use remotetab.Protocol.Errors.{ParseResult, ok, message_invalid, max_control_frame_bytes}
use remotetab.Protocol.Sequence.{SequenceGuard, check, max_safe_integer}
use remotetab.Protocol.Control.{ControlFrame, accept_control_frame, accept_sequence}
use remotetab.Protocol.Control.Wire.{
  Wire, IsLawful, decode_json_frame, decode_control_frame, encode_control_frame,
}
use remotetab.Protocol.Control.Sender.{
  ControlSender, SenderCall, Emission, emitted, thrown, next_frame, encode_next, emit,
}

module _ {F J : Type 0} (w : Wire F J) where
  abbrev pub keep : Emission F → List (ControlFrame F × String) → List (ControlFrame F × String)
  keep (emitted frame text) rest = (frame, text) ∷ rest
  keep (thrown code) rest = rest

  -- What a sender emits over calls at given times.
  unfoldable pub emissions :
      ControlSender → List (ℕ × SenderCall F) → List (ControlFrame F × String)
  emissions s [] = []
  emissions s ((now_ms, call) ∷ calls) =
      keep (emit w now_ms s call).1 (emissions (emit w now_ms s call).0 calls)

  -- What the other end makes of the texts as they come in.
  unfoldable pub receptions :
      SequenceGuard → String → List (ControlFrame F × String) → List (ParseResult (ControlFrame F))
  receptions g session_id [] = []
  receptions g session_id ((frame, text) ∷ rest) =
      let r = accept_control_frame (decode_control_frame w) text g session_id in
      r.1 ∷ receptions r.0 session_id rest

  -- A valid frame within the bound is decoded to itself.
  decode_control_frame-stringify :
      IsLawful w
      → (frame : ControlFrame F) → w.is_valid frame ≡ true
      → ltb max_control_frame_bytes (w.byte_size (w.stringify frame)) ≡ false
      → decode_control_frame w (w.stringify frame) ≡ ok frame
  unfolding decode_control_frame
  decode_control_frame-stringify law frame v fits =
      let (j, p, s) = law.survives frame v in
      let k : decode_json_frame w (w.stringify frame) max_control_frame_bytes ≡ ok j =
        ground arith in
      rw (k, decode_control_frame) s

  pub emit_valid :
      (now_ms : ℕ) (s : ControlSender) (call : SenderCall F)
      → w.is_valid (next_frame w now_ms s call) ≡ true
      → ltb max_control_frame_bytes (w.byte_size (w.stringify (next_frame w now_ms s call))) ≡ false
      → emit w now_ms s call ≡ (
        record s { seq = s.seq + 1 },
        emitted (next_frame w now_ms s call) (w.stringify (next_frame w now_ms s call)),
      )
  unfolding emit
  emit_valid now_ms s call v fits =
      let k : encode_control_frame w (next_frame w now_ms s call)
          ≡ some (w.stringify (next_frame w now_ms s call)) =
        ground arith in
      rw (v, emit) (rw (k, encode_next))

  pub emit_invalid :
      (now_ms : ℕ) (s : ControlSender) (call : SenderCall F)
      → w.is_valid (next_frame w now_ms s call) ≡ false
      → emit w now_ms s call ≡ (s, thrown message_invalid)
  unfolding emit
  emit_invalid now_ms s call v = rw (v, emit)

  -- The guard moves on with the sender.
  accept_next :
      IsLawful w
      → (g : SequenceGuard) (frame : ControlFrame F) (session_id : String) → w.is_valid frame ≡ true
      → ltb max_control_frame_bytes (w.byte_size (w.stringify frame)) ≡ false
      → frame.session_id ≡ session_id
      → frame.seq ≡ g.last_seq + 1
      → frame.seq ≤ max_safe_integer
      → accept_control_frame (decode_control_frame w) (w.stringify frame) g session_id
        ≡ (record { last_seq = frame.seq }, ok frame)
  unfolding accept_control_frame accept_sequence check
  accept_next law g frame session_id v fits id n safe =
      let d = decode_control_frame-stringify law frame v fits in
      rw (d, accept_control_frame, id, eq_refl session_id) (ground arith)

  -- Whatever methods are called, at whatever times: each text that a sender emits is accepted at
  -- the other end as the frame that it was made of, if JSON and the schema are lawful, no valid
  -- frame is beyond the size bound, the guard is at the sender's number, and the numbers stay safe
  -- integers.
  pub receptions-emissions :
      IsLawful w
      → ((frame : ControlFrame F)
          → w.is_valid frame ≡ true
          → ltb max_control_frame_bytes (w.byte_size (w.stringify frame)) ≡ false)
      → (s : ControlSender) (g : SequenceGuard) (calls : List (ℕ × SenderCall F))
      → g.last_seq ≡ s.seq
      → s.seq + length calls ≤ max_safe_integer
      → receptions g s.session_id (emissions s calls) ≡ map (λ e. ok e.0) (emissions s calls)
  unfolding emissions receptions next_frame
  receptions-emissions law fits s g [] e safe = refl
  receptions-emissions law fits s g ((now_ms, call) ∷ calls) e safe =
      let f : ControlFrame F = next_frame w now_ms s call in
      elim (Bool-cases (w.is_valid f)) [
        | inr bad ↦
            rw (emit_invalid now_ms s call bad)
              (receptions-emissions law fits s g calls e (omega arith))
        | inl good ↦
            let within = fits f good in
            let step =
              accept_next law g f s.session_id good within refl (omega arith) (omega arith) in
            rw (emit_valid now_ms s call good within, step)
              (ap (◌∷◌ (ok f)) (
                receptions-emissions law fits (record s { seq = s.seq + 1 })
                  (record { last_seq = s.seq + 1 }) calls refl (omega arith)))
      ]
