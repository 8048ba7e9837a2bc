-- ===== src/MobileWeb/InputSender/Runs.antt =====
-- A sender over a whole session: what was queued, what was encoded and what went out.
use remotetab.Prelude.{
  ◌≡◌, ◌≢◌, refl, ap, ◌∙◌, String, Bool, true, false, none, List, [], ◌∷◌, ◌++◌, map, arith,
  Option-cases, Bool-cases, some, inl, inr, ◌||◌, str_eq, Option,
}
use mathlib.Core.List.{append_assoc, map-append}
use remotetab.MobileWeb.InputSender.{
  Builder, Host, UrgentItem, InputSender, Flushed, Deltas, flush_queue, flush_urgent, send_urgent,
  retry, send_move, flush_move, move_due, pass_on, send_wheel, flush_wheel, wheel_due, new_sender,
}
use remotetab.MobileWeb.InputSender.Urgent.{
  non_empty, unbuilt, waiting, waiting-Fresh, Fresh, IsQueue, Flushes, flush_queue-Flushes,
}

-- The sender, its environment, and the history: the builders that were passed to `sendUrgent`, those
-- that returned a text, with it, the urgent texts that went out, and whether one of these builders
-- has ever thrown.
pub record SenderSession (E N : Type 0) : Type 0 where
  pub sender : InputSender E N
  pub env : E
  pub queued : List (Builder E)
  pub built : List (Builder E × String)
  pub delivered : List String
  pub thrown : Bool

pub data SenderEvent (E N : Type 0) : Type 0 where
  sends_urgent : Builder E → SenderEvent E N
  retries : SenderEvent E N
  sends_move : Builder E → SenderEvent E N
  flushes_move moves : SenderEvent E N
  sends_wheel : Deltas N → SenderEvent E N
  wheels : SenderEvent E N
  -- The transport or the session changes on its own.
  changes : (E → E) → SenderEvent E N

module _ {E N : Type 0} (host : Host E N) where
  abbrev logged : SenderSession E N → InputSender E N × Flushed E → SenderSession E N
  logged s (sender, r) = record s {
    sender = sender;
    env = r.env;
    built = s.built ++ r.built;
    delivered = s.delivered ++ r.delivered;
    thrown = s.thrown || r.thrown;
  }

  abbrev quiet : SenderSession E N → InputSender E N × E × Bool → SenderSession E N
  quiet s (sender, env, thrown) = record s { sender = sender; env = env }

  unfoldable pub step : SenderSession E N → SenderEvent E N → SenderSession E N
  step s (sends_urgent build) =
      logged (record s { queued = s.queued ++ build ∷ [] }) (send_urgent host build s.sender s.env)
  step s retries = logged s (retry host s.sender s.env)
  step s (sends_move build) = record s { sender = send_move host build s.sender }
  step s flushes_move = quiet s (flush_move host s.sender s.env)
  step s moves = quiet s (move_due host s.sender s.env)
  step s (sends_wheel d) = record s { sender = send_wheel host d s.sender }
  step s wheels = quiet s (wheel_due host s.sender s.env)
  step s (changes f) = record s { env = f s.env }

  unfoldable pub run : SenderSession E N → List (SenderEvent E N) → SenderSession E N
  run s [] = s
  run s (e ∷ es) = run (step s e) es

  abbrev pub new_sender_session : E → SenderSession E N
  new_sender_session env = record {
    sender = new_sender;
    env = env;
    queued = [];
    built = [];
    delivered = [];
    thrown = false;
  }

  -- Every queued builder has returned its text once, in order, or is still to do so; every text that
  -- is not empty has gone out once, in order, or waits for another attempt; while a text waits the
  -- retry timer is set; and unless a builder has thrown, it is set while anything is queued.
  pub record InOrder (s : SenderSession E N) : Type 0 where
    pub called : s.queued ≡ map (λ b. b.0) s.built ++ unbuilt s.sender.urgent_queue
    pub sent : non_empty (map (λ b. b.1) s.built) ≡ s.delivered ++ waiting s.sender.urgent_queue
    pub is_queue : IsQueue s.sender.urgent_queue
    pub due : waiting s.sender.urgent_queue ≢ [] → s.sender.retry_timer ≡ true
    pub retried : s.thrown ≡ false → s.sender.urgent_queue ≢ [] → s.sender.retry_timer ≡ true

  non_empty-append : (xs ys : List String) → non_empty (xs ++ ys) ≡ non_empty xs ++ non_empty ys
  unfolding non_empty
  non_empty-append [] ys = refl
  non_empty-append (x ∷ xs) ys = ground (arith, non_empty-append xs ys)

  -- The history grows by what a flush of the queue does.
  flush-InOrder :
      (s : SenderSession E N) (sender : InputSender E N)
      → s.queued ≡ map (λ b. b.0) s.built ++ unbuilt sender.urgent_queue
      → non_empty (map (λ b. b.1) s.built) ≡ s.delivered ++ waiting sender.urgent_queue
      → IsQueue sender.urgent_queue
      → InOrder (logged s (flush_urgent host sender s.env))
  unfolding flush_urgent waiting
  flush-InOrder s sender c t q =
      let r = flush_queue host sender.urgent_queue s.env in
      let f : Flushes host sender.urgent_queue r =
        flush_queue-Flushes host sender.urgent_queue s.env q in
      record {
        called = simp (map-append, append_assoc) (c ∙ ap (◌++◌ (map (λ b. b.0) s.built)) f.builds);
        sent =
            simp (map-append, non_empty-append, append_assoc)
              (ap (λ z. z ++ non_empty (map (λ b. b.1) r.built)) t
                ∙ append_assoc s.delivered (waiting sender.urgent_queue)
                    (non_empty (map (λ b. b.1) r.built))
                ∙ ap (◌++◌ s.delivered) f.sends);
        is_queue = f.is_queue;
        due = λ w. elim (Bool-cases r.thrown) [
          | inl t ↦ absurd (w (waiting-Fresh r.queue (f.stuck t)))
          | inr t ↦ rw t (timed r.queue (λ n. w (ap waiting n)))
        ];
        retried = λ t n. let calm : r.thrown ≡ false = ground arith in rw calm (timed r.queue n);
      }
    where
      timed :
          (q : List (UrgentItem E))
          → q ≢ []
          → elim q as (λ x. Bool) [ [] ↦ sender.retry_timer | i ∷ rest ↦ true ] ≡ true
      timed [] n = absurd (n refl)
      timed (i ∷ rest) n = refl

  unbuilt-append :
      (q : List (UrgentItem E)) (build : Builder E)
      → unbuilt (q ++ record { build = build; encoded = none } ∷ []) ≡ unbuilt q ++ build ∷ []
  unfolding unbuilt
  unbuilt-append [] build = refl
  unbuilt-append (i ∷ q) build = elim (Option-cases i.encoded) [
    | inl e ↦ rw (e, unbuilt) (ap (◌∷◌ i.build) (unbuilt-append q build))
    | inr (raw, e) ↦ rw (e, unbuilt) (unbuilt-append q build)
  ]

  waiting-append :
      (q : List (UrgentItem E)) (build : Builder E)
      → waiting (q ++ record { build = build; encoded = none } ∷ []) ≡ waiting q
  unfolding waiting
  waiting-append [] build = refl
  waiting-append (i ∷ q) build = elim (Option-cases i.encoded) [
    | inl e ↦ rw (e, waiting) (waiting-append q build)
    | inr (raw, e) ↦ rw (e, waiting) (ap (◌∷◌ raw) (waiting-append q build))
  ]

  Fresh-append :
      (q : List (UrgentItem E)) (build : Builder E)
      → Fresh q
      → Fresh (q ++ record { build = build; encoded = none } ∷ [])
  Fresh-append [] build h = (refl, tt)
  Fresh-append (i ∷ q) build (e, h) = (e, Fresh-append q build h)

  IsQueue-append :
      (q : List (UrgentItem E)) (build : Builder E)
      → IsQueue q
      → IsQueue (q ++ record { build = build; encoded = none } ∷ [])
  IsQueue-append [] build h = (λ raw f. cc, tt)
  IsQueue-append (i ∷ q) build (n, h) = (n, Fresh-append q build h)

  -- A step that leaves the queue and its timer alone.
  untouched :
      (s : SenderSession E N) (sender : InputSender E N) (env : E)
      → sender.urgent_queue ≡ s.sender.urgent_queue
      → sender.retry_timer ≡ s.sender.retry_timer
      → InOrder s
      → InOrder (record s { sender = sender; env = env })
  untouched s sender env q t h = record {
    called = rw q h.called;
    sent = rw q h.sent;
    is_queue = rw q h.is_queue;
    due = λ w. t ∙ h.due (λ e. w (ap waiting q ∙ e));
    retried = λ c n. t ∙ h.retried c (λ e. n (q ∙ e));
  }

  -- Whatever becomes of a move or of wheel deltas, the urgent queue and its timer stay.
  pass_on-urgent :
      (s skipped passed kept : InputSender E N) (b : E × Option String)
      → (skipped.urgent_queue ≡ s.urgent_queue) × (skipped.retry_timer ≡ s.retry_timer)
      → (passed.urgent_queue ≡ s.urgent_queue) × (passed.retry_timer ≡ s.retry_timer)
      → (kept.urgent_queue ≡ s.urgent_queue) × (kept.retry_timer ≡ s.retry_timer)
      → let r = pass_on host skipped passed kept b in
        (r.0.urgent_queue ≡ s.urgent_queue) × (r.0.retry_timer ≡ s.retry_timer)
  unfolding pass_on
  pass_on-urgent s skipped passed kept (env, none) h k l = h
  pass_on-urgent s skipped passed kept (env, some raw) h k l = elim (Bool-cases (str_eq raw "")) [
    | inl e ↦ rw e h
    | inr e ↦ elim (Bool-cases (host.send raw env).1) [ inl d ↦ rw (e, d) k | inr d ↦ rw (e, d) l ]
  ]

  flush_move-urgent :
      (s : InputSender E N) (env : E)
      → ((flush_move host s env).0.urgent_queue ≡ s.urgent_queue)
        × ((flush_move host s env).0.retry_timer ≡ s.retry_timer)
  unfolding flush_move
  flush_move-urgent s env = elim (Option-cases s.latest_move) [
    | inl e ↦ rw (e, flush_move) (refl, refl)
    | inr (build, e) ↦
        rw (e, flush_move)
          (pass_on-urgent s _ _ _ (build env) (refl, refl) (refl, refl) (refl, refl))
  ]

  flush_wheel-urgent :
      (s : InputSender E N) (env : E)
      → ((flush_wheel host s env).0.urgent_queue ≡ s.urgent_queue)
        × ((flush_wheel host s env).0.retry_timer ≡ s.retry_timer)
  unfolding flush_wheel
  flush_wheel-urgent s env = elim (Option-cases s.pending_wheel) [
    | inl e ↦ rw (e, flush_wheel) (refl, refl)
    | inr (p, e) ↦
        rw (e, flush_wheel)
          (pass_on-urgent s _ _ _ (host.encode_wheel p env) (refl, refl) (refl, refl) (refl, refl))
  ]

  step-InOrder : (s : SenderSession E N) (e : SenderEvent E N) → InOrder s → InOrder (step s e)
  unfolding step send_urgent retry send_move move_due send_wheel wheel_due
  step-InOrder s (sends_urgent build) h =
      flush-InOrder (record s { queued = s.queued ++ build ∷ [] })
        (record s.sender {
          urgent_queue = s.sender.urgent_queue ++ record { build = build; encoded = none } ∷ [];
        })
        (rw (unbuilt-append s.sender.urgent_queue build) (
          ap (λ z. z ++ build ∷ []) h.called
          ∙ append_assoc (map (λ b. b.0) s.built) (unbuilt s.sender.urgent_queue) (build ∷ [])))
        (rw (waiting-append s.sender.urgent_queue build) h.sent)
        (IsQueue-append s.sender.urgent_queue build h.is_queue)
  step-InOrder s retries h =
      flush-InOrder s (record s.sender { retry_timer = false }) h.called h.sent h.is_queue
  step-InOrder s (sends_move build) h =
      untouched s (send_move host build s.sender) s.env refl refl h
  step-InOrder s flushes_move h =
      let k = flush_move-urgent s.sender s.env in
      untouched s (flush_move host s.sender s.env).0 (flush_move host s.sender s.env).1 k.0 k.1 h
  step-InOrder s moves h =
      let t : InputSender E N = record s.sender { move_timer = false } in
      let k = flush_move-urgent t s.env in
      untouched s (flush_move host t s.env).0 (flush_move host t s.env).1 k.0 k.1 h
  step-InOrder s (sends_wheel d) h = untouched s (send_wheel host d s.sender) s.env refl refl h
  step-InOrder s wheels h =
      let t : InputSender E N = record s.sender { wheel_timer = false } in
      let k = flush_wheel-urgent t s.env in
      untouched s (flush_wheel host t s.env).0 (flush_wheel host t s.env).1 k.0 k.1 h
  step-InOrder s (changes f) h = untouched s s.sender (f s.env) refl refl h

  run-InOrder_from :
      (s : SenderSession E N) (es : List (SenderEvent E N)) → InOrder s → InOrder (run s es)
  unfolding run
  run-InOrder_from s [] h = h
  run-InOrder_from s (e ∷ es) h = run-InOrder_from (step s e) es (step-InOrder s e h)

  -- Over any use of a new sender in which it is not reset or disposed of, with any transport and any
  -- encoders, also ones that throw: each key, button or text frame is encoded at most once, in the
  -- order in which it was queued, and none is left out; each encoded text that is not empty goes out
  -- once, in that order, or waits at the head of the queue as it is, and then a retry is due; and
  -- unless an encoder of such a frame has thrown, a retry is due while anything is queued.
  pub run-InOrder :
      (env : E) (es : List (SenderEvent E N)) → InOrder (run (new_sender_session env) es)
  unfolding unbuilt waiting non_empty
  run-InOrder env es = run-InOrder_from (new_sender_session env) es (record {
    called = refl;
    sent = refl;
    is_queue = tt;
    due = λ w. absurd (w refl);
    retried = λ c n. absurd (n refl);
  })
