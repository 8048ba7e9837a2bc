-- ===== src/Signaling/RateLimit/Frames.antt =====
-- The limiter of a connection against the whole history of its frames.
use remotetab.Prelude.{
  ℕ, ◌+◌, ◌≤◌, ◌≡◌, refl, List, [], ◌∷◌, ◌++◌, true, false, arith, length, All, All-append,
  Bool-cases, leb, ltb, ap, ◌∙◌, inl, inr, if◌then◌else◌,
}
use remotetab.Signaling.RateLimit.{FrameRateLimiter, drop_old, allow_frame}

abbrev pub IsSorted : List ℕ → Type 0
IsSorted [] = Unit {0}
IsSorted (x ∷ xs) = All (λ y. x ≤ y) xs × IsSorted xs

-- How many of the times lie in the window of `width` that ends at `now`.
pub recent : ℕ → ℕ → List ℕ → ℕ
recent now width [] = 0
recent now width (x ∷ xs) = (if leb now (x + width) then 1 else 0) + recent now width xs

recent-append :
    (now width : ℕ) (xs ys : List ℕ)
    → recent now width (xs ++ ys) ≡ recent now width xs + recent now width ys
unfolding recent
recent-append now width [] ys = omega arith
recent-append now width (x ∷ xs) ys = ground (arith, recent-append now width xs ys)

-- Where the head is in the window, so are all later times.
recent-IsSorted :
    (now width x : ℕ) (xs : List ℕ)
    → All (λ y. x ≤ y) xs
    → now ≤ x + width
    → recent now width xs ≡ length xs
unfolding recent
recent-IsSorted now width x [] h k = refl
recent-IsSorted now width x (y ∷ xs) (p, h) k = ground (arith, recent-IsSorted now width x xs h k)

length-drop_old :
    (now width : ℕ) (xs : List ℕ)
    → IsSorted xs
    → length (drop_old now width xs) ≡ recent now width xs
unfolding drop_old recent
length-drop_old now width [] h = refl
length-drop_old now width (x ∷ xs) (p, h) =
    ground (arith, recent-IsSorted now width x xs p, length-drop_old now width xs h)

-- What is dropped lies in no later window.
recent-drop_old :
    (now width t : ℕ) (xs : List ℕ)
    → now ≤ t
    → recent t width (drop_old now width xs) ≡ recent t width xs
unfolding drop_old recent
recent-drop_old now width t [] h = refl
recent-drop_old now width t (x ∷ xs) h = ground (arith, recent-drop_old now width t xs h)

drop_old-IsSorted : (now width : ℕ) (xs : List ℕ) → IsSorted xs → IsSorted (drop_old now width xs)
unfolding drop_old
drop_old-IsSorted now width [] h = tt
drop_old-IsSorted now width (x ∷ xs) (p, h) = elim (Bool-cases (leb now (x + width))) [
  | inl e ↦ rw e (p, h)
  | inr e ↦ rw e (drop_old-IsSorted now width xs h)
]

module _ (P : ℕ → Type 0) where
  All-drop_old : (now width : ℕ) (xs : List ℕ) → All P xs → All P (drop_old now width xs)
  unfolding drop_old
  All-drop_old now width [] h = tt
  All-drop_old now width (x ∷ xs) (p, h) = elim (Bool-cases (leb now (x + width))) [
    | inl e ↦ rw e (p, h)
    | inr e ↦ rw e (All-drop_old now width xs h)
  ]

IsSorted-append :
    (x : ℕ) (xs : List ℕ) → IsSorted xs → All (λ y. y ≤ x) xs → IsSorted (xs ++ x ∷ [])
IsSorted-append x [] h k = (tt, tt)
IsSorted-append x (y ∷ xs) (p, h) (q, k) =
    (All-append (λ z. y ≤ z) xs (x ∷ []) p (q, tt), IsSorted-append x xs h k)

All-weaken : (a b : ℕ) (xs : List ℕ) → a ≤ b → All (λ y. y ≤ a) xs → All (λ y. y ≤ b) xs
All-weaken a b [] h k = tt
All-weaken a b (x ∷ xs) h (p, k) = (omega arith, All-weaken a b xs h k)

-- The limiter over the times of a connection's frames: those that it allows, oldest first.
pub grants : FrameRateLimiter → List ℕ → List ℕ
grants l [] = []
grants l (now ∷ times) =
    let rest = grants (allow_frame now l).0 times in
    if (allow_frame now l).1 then now ∷ rest else rest

-- The specification keeps every time that was ever allowed, and allows a frame exactly if fewer
-- than `max` of them lie in the window that ends now.
pub ideal : ℕ → ℕ → List ℕ → List ℕ → List ℕ
ideal max width past [] = []
ideal max width past (now ∷ times) =
    let allowed = ideal max width (past ++ now ∷ []) times in
    let refused = ideal max width past times in
    if ltb (recent now width past) max then now ∷ allowed else refused

-- The limiter's timestamps stand for the whole past from `now` on.
record Tracks (l : FrameRateLimiter) (past : List ℕ) (now : ℕ) : Type 0 where
  sorted : IsSorted l.timestamps
  bounded : All (λ y. y ≤ now) l.timestamps
  faithful : (t : ℕ) → now ≤ t → recent t l.window_ms l.timestamps ≡ recent t l.window_ms past

abbrev trimmed : FrameRateLimiter → ℕ → FrameRateLimiter
trimmed l t = record l { timestamps = drop_old t l.window_ms l.timestamps }

abbrev pushed : FrameRateLimiter → ℕ → FrameRateLimiter
pushed l t = record l { timestamps = drop_old t l.window_ms l.timestamps ++ t ∷ [] }

module _ {l : FrameRateLimiter} {past : List ℕ} {now : ℕ} (h : Tracks l past now) where
  allow_frame-recent :
      (t : ℕ)
      → now ≤ t
      → allow_frame t l ≡ (
          if ltb (recent t l.window_ms past) l.max_frames
          then (pushed l t, true)
          else (trimmed l t, false))
  unfolding allow_frame
  allow_frame-recent t p =
      ground (arith, length-drop_old t l.window_ms l.timestamps h.sorted, h.faithful t p)

  trimmed-Tracks : (t : ℕ) → now ≤ t → Tracks (trimmed l t) past t
  trimmed-Tracks t p = record {
    sorted = drop_old-IsSorted t l.window_ms l.timestamps h.sorted;
    bounded =
        All-drop_old (λ y. y ≤ t) t l.window_ms l.timestamps
          (All-weaken now t l.timestamps p h.bounded);
    faithful = λ u q. recent-drop_old t l.window_ms u l.timestamps q ∙ h.faithful u (omega arith);
  }

  pushed-Tracks : (t : ℕ) → now ≤ t → Tracks (pushed l t) (past ++ t ∷ []) t
  pushed-Tracks t p =
      let k = trimmed-Tracks t p in
      record {
        sorted = IsSorted-append t _ k.sorted k.bounded;
        bounded = All-append (λ y. y ≤ t) _ (t ∷ []) k.bounded (omega arith, tt);
        faithful = λ u q. omega (
          arith,
          k.faithful u q,
          recent-append u l.window_ms (drop_old t l.window_ms l.timestamps) (t ∷ []),
          recent-append u l.window_ms past (t ∷ []),
        );
      }

grants-ideal :
    (l : FrameRateLimiter) (past times : List ℕ) (now : ℕ)
    → Tracks l past now
    → All (λ t. now ≤ t) times
    → IsSorted times
    → grants l times ≡ ideal l.max_frames l.window_ms past times
unfolding grants ideal
grants-ideal l past [] now h a s = refl
grants-ideal l past (t ∷ times) now h (p, a) (q, s) =
    elim (Bool-cases (ltb (recent t l.window_ms past) l.max_frames)) [
      | inl e ↦
          rw (allow_frame-recent h t p, e)
            (ap (◌∷◌ t)
              (grants-ideal (pushed l t) (past ++ t ∷ []) times t (pushed-Tracks h t p) q s))
      | inr e ↦
          rw (allow_frame-recent h t p, e)
            (grants-ideal (trimmed l t) past times t (trimmed-Tracks h t p) q s)
    ]

abbrev pub new_limiter : ℕ → ℕ → FrameRateLimiter
new_limiter max width = record { timestamps = []; max_frames = max; window_ms = width }

All-above : (xs : List ℕ) → All (λ t. 0 ≤ t) xs
All-above [] = tt
All-above (x ∷ xs) = (omega arith, All-above xs)

-- On a clock that does not run backwards a new limiter allows a frame exactly if fewer than `max`
-- of the frames that it has ever allowed lie in the window that ends with it, although it forgets
-- the older ones.
pub grants-new_limiter :
    (max width : ℕ) (times : List ℕ)
    → IsSorted times
    → grants (new_limiter max width) times ≡ ideal max width [] times
grants-new_limiter max width times s =
    grants-ideal (new_limiter max width) [] times 0
      (record { sorted = tt; bounded = tt; faithful = λ t p. refl }) (All-above times) s
