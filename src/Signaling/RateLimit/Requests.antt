-- ===== src/Signaling/RateLimit/Requests.antt =====
-- How many requests the limiter of one device lets through in a window.
use remotetab.Prelude.{
  ℕ, ◌+◌, ◌≤◌, ◌<◌, ◌≡◌, refl, List, [], ◌∷◌, arith, All, leb, eq_refl, ◌-◌, if◌then◌else◌, String,
  some, none,
}
use remotetab.Store.{lookup, insert, lookup-insert}
use remotetab.Signaling.RateLimit.{
  Window, DeviceRateLimiter, allow_request, open_window, count_request,
}

-- How many requests for one key pass.
pub admitted : String → DeviceRateLimiter → List ℕ → ℕ
admitted key l [] = 0
admitted key l (now ∷ times) =
    (if (allow_request key now l).1 then 1 else 0) + admitted key (allow_request key now l).0 times

allow_request_inside :
    (key : String) (l : DeviceRateLimiter) (w : Window) (now : ℕ)
    → lookup key l.windows ≡ some w
    → now < w.start + l.window_ms
    → allow_request key now l ≡ count_request key w l
unfolding allow_request
allow_request_inside key l w now e p = rw (e, allow_request) (ground arith)

admitted_in_window :
    (key : String) (l : DeviceRateLimiter) (w : Window) (times : List ℕ)
    → lookup key l.windows ≡ some w
    → All (λ t. t < w.start + l.window_ms) times
    → admitted key l times ≤ l.max_per_window - w.count
unfolding admitted count_request
admitted_in_window key l w [] e h = omega arith
admitted_in_window key l w (now ∷ times) e (p, h) =
    let w' : Window = record w { count = w.count + 1 } in
    let l' : DeviceRateLimiter = record l { windows = insert key w' l.windows } in
    let inside : allow_request key now l ≡ (l', leb (w.count + 1) l.max_per_window) =
      allow_request_inside key l w now e p in
    let found : lookup key l'.windows ≡ some w' =
      rw (lookup-insert key key w' l.windows, eq_refl key) refl in
    rw inside (ground (arith, admitted_in_window key l' w' times found h))

allow_request_first :
    (key : String) (l : DeviceRateLimiter) (now : ℕ)
    → lookup key l.windows ≡ none
    → allow_request key now l ≡ open_window key now l
unfolding allow_request
allow_request_first key l now e = rw (e, allow_request)

lookup-open_window :
    (key : String) (now : ℕ) (l : DeviceRateLimiter)
    → lookup key (open_window key now l).0.windows ≡ some (record { start = now; count = 1 })
unfolding open_window
lookup-open_window key now l = rw (lookup-insert, eq_refl key) refl

-- From the request that opens the window of a key until the window is over, and while no other
-- key is asked for, at most `max_per_window` requests for the key pass, and at least that one.
pub admitted-le_max :
    (key : String) (l : DeviceRateLimiter) (now : ℕ) (times : List ℕ)
    → lookup key l.windows ≡ none
    → All (λ t. t < now + l.window_ms) times
    → (1 ≤ admitted key l (now ∷ times))
      × (admitted key l (now ∷ times) ≤ 1 + (l.max_per_window - 1))
unfolding admitted open_window
admitted-le_max key l now times e h = rw (allow_request_first key l now e) (
    omega (
      arith,
      admitted_in_window key (open_window key now l).0 (record { start = now; count = 1 }) times
          (lookup-open_window key now l) h,
    ))
