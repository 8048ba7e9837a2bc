-- ===== src/MobileWeb/InputSender/Urgent.antt =====
-- apps/mobile-web/src/lib/input-sender.ts: what a flush does to the queue of keys, buttons and text.
use mathlib.Core.List.{append-nil}
use mathlib.Core.Path.{subst}
use remotetab.Prelude.{
  ◌≡◌, refl, sym, ap, ◌∙◌, String, true, false, Option, none, some, List, [], ◌∷◌, ◌++◌, map, All,
  Bool-cases, Option-cases, inl, inr, str_eq, if◌then◌else◌,
}
use remotetab.MobileWeb.InputSender.{
  Builder, Host, UrgentItem, Flushed, send_head, encode_head, flush_queue,
}

-- Texts that are not empty: an empty one says that there is no session.
unfoldable pub non_empty : List String → List String
non_empty [] = []
non_empty (s ∷ ss) = let rest = non_empty ss in if str_eq s "" then rest else s ∷ rest

non_empty-cons :
    (s : String) (ss : List String) → str_eq s "" ≡ false → non_empty (s ∷ ss) ≡ s ∷ non_empty ss
unfolding non_empty
non_empty-cons s ss e = rw e refl

module _ {E : Type 0} where
  -- The builders that have not been called yet, and the text that waits for another attempt.
  unfoldable pub unbuilt : List (UrgentItem E) → List (Builder E)
  unbuilt [] = []
  unbuilt (i ∷ q) = elim i.encoded [ none ↦ i.build ∷ unbuilt q | some raw ↦ unbuilt q ]

  unfoldable pub waiting : List (UrgentItem E) → List String
  waiting [] = []
  waiting (i ∷ q) = elim i.encoded [ none ↦ waiting q | some raw ↦ raw ∷ waiting q ]

  -- Only the head may have been encoded, and not as the empty text.
  abbrev pub Fresh : List (UrgentItem E) → Type 0
  Fresh = All (λ i. i.encoded ≡ none)

  abbrev pub IsQueue : List (UrgentItem E) → Type 0
  IsQueue [] = Unit {0}
  IsQueue (i ∷ q) = ((raw : String) → i.encoded ≡ some raw → str_eq raw "" ≡ false) × Fresh q

  Fresh-IsQueue : (q : List (UrgentItem E)) → Fresh q → IsQueue q
  Fresh-IsQueue [] h = tt
  Fresh-IsQueue (i ∷ q) (e, h) = (λ raw f. cc, h)

  pub waiting-Fresh : (q : List (UrgentItem E)) → Fresh q → waiting q ≡ []
  unfolding waiting
  waiting-Fresh [] h = refl
  waiting-Fresh (i ∷ q) (e, h) = rw (e, waiting) (waiting-Fresh q h)

  unbuilt-none :
      (i : UrgentItem E) (q : List (UrgentItem E))
      → i.encoded ≡ none
      → unbuilt (i ∷ q) ≡ i.build ∷ unbuilt q
  unfolding unbuilt
  unbuilt-none i q e = rw (unbuilt, e) refl

  waiting-none :
      (i : UrgentItem E) (q : List (UrgentItem E)) → i.encoded ≡ none → waiting (i ∷ q) ≡ waiting q
  unfolding waiting
  waiting-none i q e = rw (waiting, e) refl

module _ {E N : Type 0} (host : Host E N) where
  -- What the loop does to a queue.
  pub record Flushes (q : List (UrgentItem E)) (r : Flushed E) : Type 0 where
    pub builds : unbuilt q ≡ map (λ b. b.0) r.built ++ unbuilt r.queue
    pub sends : waiting q ++ non_empty (map (λ b. b.1) r.built) ≡ r.delivered ++ waiting r.queue
    pub is_queue : IsQueue r.queue
    pub stuck : r.thrown ≡ true → Fresh r.queue

  -- A round on a text, if the rest of the loop is right on a fresh rest of the queue.
  send_head-sends :
      (i : UrgentItem E) (raw : String) (q : List (UrgentItem E)) (next : E → Flushed E) (env : E)
      → Fresh q
      → ((e : E) → Flushes q (next e))
      → let r = send_head host i raw q next env in
        (unbuilt q ≡ map (λ b. b.0) r.built ++ unbuilt r.queue)
        × (non_empty (raw ∷ map (λ b. b.1) r.built) ≡ r.delivered ++ waiting r.queue)
        × IsQueue r.queue
        × (r.thrown ≡ true → Fresh r.queue)
  unfolding send_head non_empty waiting unbuilt
  send_head-sends i raw q next env f h = elim (Bool-cases (str_eq raw "")) [
    | inl e ↦
        let k = h env in
        rw (e, send_head) (k.builds, (rw (waiting-Fresh q f) at (k.sends)), k.is_queue, k.stuck)
    | inr e ↦ elim (Bool-cases (host.send raw env).1) [
      | inl d ↦
          let k = h (host.send raw env).0 in
          rw (e, send_head, d)
            (k.builds, ap (◌∷◌ raw) (rw (waiting-Fresh q f) at (k.sends)), k.is_queue, k.stuck)
      | inr d ↦
          rw (e, send_head, d, waiting-Fresh q f)
            (refl, refl, ((λ t g. let k : raw ≡ t = cc in rw (sym k) e), f), λ t. cc)
    ]
  ]

  -- A round on a head that has no text yet.
  encode_head-Flushes :
      (i : UrgentItem E) (q : List (UrgentItem E)) (next : E → Flushed E) (b : E × Option String)
      → i.encoded ≡ none
      → Fresh q
      → ((e : E) → Flushes q (next e))
      → Flushes (i ∷ q) (encode_head host i q next b)
  unfolding encode_head non_empty
  encode_head-Flushes i q next (env, none) e f h = record {
    builds = refl;
    sends = append-nil (waiting (i ∷ q));
    is_queue = (λ raw g. cc, f);
    stuck = λ t. (e, f);
  }
  encode_head-Flushes i q next (env, some raw) e f h =
      let k = send_head-sends i raw q next env f h in
      let texts : List String =
        non_empty (raw ∷ map (λ b. b.1) (send_head host i raw q next env).built) in
      record {
        builds = unbuilt-none i q e ∙ ap (◌∷◌ i.build) k.0;
        sends = ap (λ w. w ++ texts) (waiting-none i q e ∙ waiting-Fresh q f) ∙ k.1;
        is_queue = k.2;
        stuck = k.3;
      }

  flush_queue-none :
      (i : UrgentItem E) (q : List (UrgentItem E)) (env : E)
      → i.encoded ≡ none
      → flush_queue host (i ∷ q) env
        ≡ encode_head host i q (λ e. flush_queue host q e) (i.build env)
  unfolding flush_queue
  flush_queue-none i q env e = simp e refl

  pub flush_queue-Flushes :
      (q : List (UrgentItem E)) (env : E) → IsQueue q → Flushes q (flush_queue host q env)
  unfolding flush_queue waiting unbuilt non_empty
  flush_queue-Flushes [] env h = record {
    builds = refl;
    sends = refl;
    is_queue = tt;
    stuck = λ t. tt;
  }
  flush_queue-Flushes (i ∷ q) env (ne, f) = elim (Option-cases i.encoded) [
    | inl e ↦
        let k =
          encode_head-Flushes i q (λ e. flush_queue host q e) (i.build env) e f
            (λ e. flush_queue-Flushes q e (Fresh-IsQueue q f)) in
        subst (Flushes (i ∷ q)) (sym (flush_queue-none i q env e)) k
    | inr (raw, e) ↦
        let texts = λ (raw : String).
          map (λ b. b.1) (send_head host i raw q (λ e. flush_queue host q e) env).built in
        let k =
          send_head-sends i raw q (λ e. flush_queue host q e) env f
            (λ e. flush_queue-Flushes q e (Fresh-IsQueue q f)) in
        rw (e, flush_queue, unbuilt, waiting)
          (record {
            builds = k.0;
            sends = rw (waiting-Fresh q f) (sym (non_empty-cons raw (texts raw) (ne raw e)) ∙ k.1);
            is_queue = k.2;
            stuck = k.3;
          })
  ]
